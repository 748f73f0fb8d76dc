-- ===== src/Detours/Create.antt =====
-- `Detour::Create`: which platforms install a detour from a list of symbols.
use gmod_queue.Base.{
  ℕ, ◌≤◌, ◌≡◌, refl, ap, ◌≢◌, ◌⊎◌, inl, inr, ◌==◌, Bool-cases, none, some, List, [], ◌∷◌, arith,
  length, get_elem?, String,
}
use gmod_queue.Detours.{
  Symbol, HookApi, Detours, Platform, linux_32, linux_64, windows_32, windows_64, symbol_id, create,
  create_listed, install, category_hooks, or_empty, failed_to, say,
}
use gmod_queue.Detours.Categories.{lookup-put_ne}

module _ {H : Type 0} (api : HookApi H) where
  -- A list that is not empty.
  create_listed-total :
      (platform : Platform) (hook : ℕ) (name : String) (mod_handle : ℕ) (first : Symbol)
      (rest : List Symbol) (hook_func category : ℕ) (d : Detours H)
      → ((s : Symbol) × (get_elem? (first ∷ rest) (symbol_id platform) ≡ some s)
          × (create_listed api platform hook name mod_handle (first ∷ rest) hook_func category d
              ≡ some (create api hook name mod_handle s hook_func category d)))
        ⊎ ((length (first ∷ rest) ≤ symbol_id platform)
            × (create_listed api platform hook name mod_handle (first ∷ rest) hook_func category d
                ≡ some (say (failed_to "get function" name) d)))
  unfolding create_listed
  create_listed-total linux_32 hook name m a ss f c d = inl (a, refl, refl)
  create_listed-total linux_64 hook name m a [] f c d = inr (omega arith, refl)
  create_listed-total linux_64 hook name m a (b ∷ ss) f c d = inl (b, refl, ground arith)
  create_listed-total windows_32 hook name m a [] f c d = inr (omega arith, refl)
  create_listed-total windows_32 hook name m a (b ∷ []) f c d = inr (omega arith, ground arith)
  create_listed-total windows_32 hook name m a (b ∷ s ∷ ss) f c d = inl (s, refl, ground arith)
  create_listed-total windows_64 hook name m a [] f c d = inr (omega arith, refl)
  create_listed-total windows_64 hook name m a (b ∷ []) f c d = inr (omega arith, ground arith)
  create_listed-total windows_64 hook name m a (b ∷ s ∷ []) f c d = inr (omega arith, ground arith)
  create_listed-total windows_64 hook name m a (b ∷ s ∷ t ∷ ss) f c d = inl (t, refl, ground arith)

  -- On an empty list the size less one wraps around.
  create_listed_empty :
      (platform : Platform) (hook : ℕ) (name : String) (mod_handle hook_func category : ℕ)
      (d : Detours H)
      → create_listed api platform hook name mod_handle [] hook_func category d ≡ none
  unfolding create_listed
  create_listed_empty linux_32 hook name m f c d = refl
  create_listed_empty linux_64 hook name m f c d = refl
  create_listed_empty windows_32 hook name m f c d = refl
  create_listed_empty windows_64 hook name m f c d = refl

  -- `Create` from a list of symbols. If the list is empty, it reads out of range on every platform,
  -- since the size less one wraps around and the guard does not hold. If not, it never reads past
  -- the end: it installs this platform's symbol if the list has one for it, and otherwise only prints
  -- that the function was not found.
  pub create_listed-outcome :
      (platform : Platform) (hook : ℕ) (name : String) (mod_handle : ℕ) (symbols : List Symbol)
      (hook_func category : ℕ) (d : Detours H)
      → ((symbols ≡ [])
          × (create_listed api platform hook name mod_handle symbols hook_func category d ≡ none))
        ⊎ ((s : Symbol) × (get_elem? symbols (symbol_id platform) ≡ some s)
            × (create_listed api platform hook name mod_handle symbols hook_func category d
                ≡ some (create api hook name mod_handle s hook_func category d)))
        ⊎ ((symbols ≢ [])
            × (length symbols ≤ symbol_id platform)
            × (create_listed api platform hook name mod_handle symbols hook_func category d
                ≡ some (say (failed_to "get function" name) d)))
  create_listed-outcome platform hook name m [] f c d =
      inl (refl, create_listed_empty platform hook name m f c d)
  create_listed-outcome platform hook name m (a ∷ ss) f c d =
      elim (create_listed-total platform hook name m a ss f c d) [
        | inl (s, e, ran) ↦ inr (inl (s, e, ran))
        | inr (short, ran) ↦ inr (inr (λ e. cc, short, ran))
      ]

  install_other :
      (hook : ℕ) (name : String) (func hook_func category other : ℕ) (d : Detours H)
      → category ≢ other
      → category_hooks other (install api hook name func hook_func category d).categories
        ≡ category_hooks other d.categories
  install_other hook name func f c other d h =
      elim (Bool-cases
        (api.is_valid hook (api.enable hook (api.create_hook hook func f d.hooks)))) [
          | inl valid ↦ rw valid (ap or_empty (lookup-put_ne c other _ d.categories h))
          | inr broken ↦ rw broken (ap or_empty (lookup-put_ne c other _ d.categories h))
        ]

  -- `Create` for one symbol touches no other category.
  pub create_other_category :
      (hook : ℕ) (name : String) (mod_handle : ℕ) (s : Symbol) (hook_func category other : ℕ)
      (d : Detours H)
      → category ≢ other
      → category_hooks other (create api hook name mod_handle s hook_func category d).categories
        ≡ category_hooks other d.categories
  unfolding create
  create_other_category hook name m s f c other d h = elim (Bool-cases (api.resolve m s == 0)) [
    | inl missing ↦ rw missing refl
    | inr found ↦ rw found (install_other hook name (api.resolve m s) f c other d h)
  ]
