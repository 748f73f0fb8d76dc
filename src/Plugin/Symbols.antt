-- ===== src/Plugin/Symbols.antt =====
-- What `Queue::Init` installs on each platform, from the symbols of source/symbols.h, and what
-- `Unload` takes away again.
use gmod_queue.Base.{
  ℕ, ◌≡◌, refl, sym, ap, ◌∙◌, ◌≢◌, ◌⊎◌, inl, inr, ==-ne, Bool-cases, some, List, [], ◌∷◌, ◌++◌,
  String,
}
use gmod_queue.Detours.{
  Symbol, from_name, from_signature, HookApi, Detours, Platform, linux_32, linux_64, windows_32,
  windows_64, create, create_listed, install, put, category_hooks, remove, report_leak,
  report_categories,
}
use gmod_queue.Plugin.{create_all, hook_sites, unload}

-- The hooks that a platform's symbols install, by the number of their hook object: all five on
-- 32-bit Linux, that of `NotifyClientDisconnect` on 64-bit Linux, and none on Windows.
abbrev pub installed : Platform → List ℕ
installed linux_32 = 1 ∷ 2 ∷ 3 ∷ 4 ∷ 5 ∷ []
installed linux_64 = 4 ∷ []
installed windows_32 = []
installed windows_64 = []

-- Category 0 holds these hooks, and there is no other category.
abbrev pub IsHeld : {H : Type 0} → List ℕ → Detours H → Type 0
IsHeld hooks d = (d.categories ≡ (0, hooks) ∷ []) ⊎ ((d.categories ≡ []) × (hooks ≡ []))

module _ {H : Type 0} (api : HookApi H) where
  -- One hook object, created for the function that the symbol resolves to, and enabled.
  abbrev pub detoured : ℕ → ℕ → Symbol → ℕ → H → H
  detoured hook m s f hs = api.enable hook (api.create_hook hook (api.resolve m s) f hs)

  -- What happens to the hook objects on each platform: the detours by name on 32-bit Linux, the one
  -- by signature on 64-bit Linux.
  abbrev pub all_detoured : Platform → ℕ → ℕ → H → H
  all_detoured linux_32 engine server hs =
      detoured 5 server (from_name "_ZNK18CServerGameClients15GetPlayerLimitsERiS0_S0_") 15 (
        detoured 4 engine (from_name "_ZN13CSteam3Server22NotifyClientDisconnectEP11CBaseClient") 14
          (detoured 3 engine (from_name "_ZN11CGameClient11SpawnPlayerEv") 13 (
            detoured 2 engine (from_name "_ZN11CBaseClient14SetSignonStateEii") 12 (
              detoured 1 engine (from_name "_ZN11CBaseServer14FillServerInfoER14SVC_ServerInfo") 11
                hs))))
  all_detoured linux_64 engine server hs =
      detoured 4 engine (from_signature "55 48 89 E5 41 54 53 48 89 F3 48 83 EC 20 48 85 F6") 14 hs
  all_detoured windows_32 engine server hs = hs
  all_detoured windows_64 engine server hs = hs

  -- The hooks of category 0, and the state of the hook objects.
  abbrev IsMade : List ℕ → H → Detours H → Type 0
  IsMade hooks hs d = IsHeld hooks d × (d.hooks ≡ hs)

  install_hooks :
      (hook : ℕ) (name : String) (func hook_func : ℕ) (d : Detours H)
      → (install api hook name func hook_func 0 d).hooks
        ≡ api.enable hook (api.create_hook hook func hook_func d.hooks)
  install_hooks hook name func f d =
      elim (Bool-cases
        (api.is_valid hook (api.enable hook (api.create_hook hook func f d.hooks)))) [
          | inl valid ↦ rw valid refl
          | inr broken ↦ rw broken refl
        ]

  install_categories :
      (hook : ℕ) (name : String) (func hook_func : ℕ) (d : Detours H)
      → (install api hook name func hook_func 0 d).categories
        ≡ put 0 (category_hooks 0 d.categories ++ (hook ∷ [])) d.categories
  install_categories hook name func f d =
      elim (Bool-cases
        (api.is_valid hook (api.enable hook (api.create_hook hook func f d.hooks)))) [
          | inl valid ↦ rw valid refl
          | inr broken ↦ rw broken refl
        ]

  put_held :
      (hooks : List ℕ) (hook : ℕ) (m : List (ℕ × List ℕ))
      → (m ≡ (0, hooks) ∷ []) ⊎ ((m ≡ []) × (hooks ≡ []))
      → put 0 (category_hooks 0 m ++ (hook ∷ [])) m ≡ (0, hooks ++ (hook ∷ [])) ∷ []
  unfolding put
  put_held hooks hook m (inl one) = ap (λ x. put 0 (category_hooks 0 x ++ (hook ∷ [])) x) one
  put_held hooks hook m (inr (none_yet, empty)) =
      ap (λ x. put 0 (category_hooks 0 x ++ (hook ∷ [])) x) none_yet
      ∙ ap (λ x. (0, x ++ (hook ∷ [])) ∷ []) (sym empty)

  module _ (found : (m : ℕ) (s : Symbol) → api.resolve m s ≢ 0) where
    create-IsHeld :
        (hooks : List ℕ) (hook : ℕ) (name : String) (m : ℕ) (s : Symbol) (f : ℕ) (d : Detours H)
        → IsHeld hooks d
        → IsHeld (hooks ++ (hook ∷ [])) (create api hook name m s f 0 d)
    unfolding create
    create-IsHeld hooks hook name m s f d held = rw (==-ne (api.resolve m s) 0 (found m s)) (
        inl (
          install_categories hook name (api.resolve m s) f d
          ∙ put_held hooks hook d.categories held))

    create-hooks :
        (hook : ℕ) (name : String) (m : ℕ) (s : Symbol) (f : ℕ) (d : Detours H)
        → (create api hook name m s f 0 d).hooks ≡ detoured hook m s f d.hooks
    unfolding create
    create-hooks hook name m s f d =
        rw (==-ne (api.resolve m s) 0 (found m s)) (install_hooks hook name (api.resolve m s) f d)

    -- One more call of `Detour::Create`.
    create-IsMade :
        (hooks : List ℕ) (hs : H) (hook : ℕ) (name : String) (m : ℕ) (s : Symbol) (f : ℕ)
        → (d : Detours H) → IsMade hooks hs d
        → IsMade (hooks ++ (hook ∷ [])) (detoured hook m s f hs) (create api hook name m s f 0 d)
    create-IsMade hooks hs hook name m s f d (held, same) = (
      create-IsHeld hooks hook name m s f d held,
      create-hooks hook name m s f d ∙ ap (detoured hook m s f) same,
    )

    create_all-IsMade :
        (platform : Platform) (engine server : ℕ) (hs : H) (d : Detours H)
        → IsMade [] hs d
        → (e : Detours H) × (create_all api platform (hook_sites engine server) d ≡ some e)
          × IsMade (installed platform) (all_detoured platform engine server hs) e
    unfolding create_all create_listed
    create_all-IsMade linux_32 engine server hs d made = (
      _,
      refl,
      create-IsMade _ _ 5 _ server _ 15 _ (
          create-IsMade _ _ 4 _ engine _ 14 _ (
            create-IsMade _ _ 3 _ engine _ 13 _
              (create-IsMade _ _ 2 _ engine _ 12 _ (create-IsMade [] hs 1 _ engine _ 11 d made)))),
    )
    create_all-IsMade linux_64 engine server hs d made =
        (_, refl, create-IsMade [] hs 4 _ engine _ 14 _ made)
    create_all-IsMade windows_32 engine server hs d made = (_, refl, made)
    create_all-IsMade windows_64 engine server hs d made = (_, refl, made)

  report_after_unload :
      (hooks : List ℕ) (d : Detours H) → IsHeld hooks d → (unload api d).printed ≡ d.printed
  unfolding unload remove report_leak report_categories put
  report_after_unload hooks d (inl one) = ap (λ x. report_categories (put 0 [] x) d.printed) one
  report_after_unload hooks d (inr (none_yet, _)) =
      ap (λ x. report_categories (put 0 [] x) d.printed) none_yet

  held_hooks :
      (hooks : List ℕ) (e : Detours H) → IsHeld hooks e → category_hooks 0 e.categories ≡ hooks
  held_hooks hooks e (inl one) = ap (category_hooks 0) one
  held_hooks hooks e (inr (none_yet, empty)) = ap (category_hooks 0) none_yet ∙ sym empty

  -- If every symbol that is looked up resolves, then from an empty table `Queue::Init` creates its
  -- detours on every platform without a read out of range: all five on 32-bit Linux, only that of
  -- `NotifyClientDisconnect` on 64-bit Linux, and none on Windows. Each of these hook objects, and no
  -- other, is created for the function that its symbol resolves to in its module and for its own
  -- function of the plugin, and enabled. They are all in category 0, so that `Unload` reports no leak.
  pub create_all-installed :
      ((m : ℕ) (s : Symbol) → api.resolve m s ≢ 0)
      → (platform : Platform) (engine server : ℕ) (d : Detours H) → d.categories ≡ []
      → (e : Detours H) × (create_all api platform (hook_sites engine server) d ≡ some e)
        × (e.hooks ≡ all_detoured platform engine server d.hooks)
        × (category_hooks 0 e.categories ≡ installed platform)
        × ((unload api e).printed ≡ e.printed)
  create_all-installed found platform engine server d fresh =
      let (e, ran, made) =
        create_all-IsMade found platform engine server d.hooks d (inr (fresh, refl), refl) in
      let (held, enabled) = made in
      (
        e,
        ran,
        enabled,
        held_hooks (installed platform) e held,
        report_after_unload (installed platform) e held,
      )
