-- ===== src/Detours/Remove.antt =====
-- `Detour::Remove` and `Detour::ReportLeak`.
use gmod_queue.Base.{
  ℕ, ◌≡◌, refl, sym, ap, ◌∙◌, ◌≢◌, inl, inr, ◌==◌, ==_iff, Bool-cases, false, List, [], ◌∷◌, arith,
  All, if◌then◌else◌,
}
use gmod_queue.Detours.{HookApi, Detours, remove, remove_hooks, category_hooks, or_empty}
use gmod_queue.Detours.Categories.{lookup-put_self, lookup-put_ne}

-- Disabling and destroying a hook leaves it disabled and touches no other, as the hook library
-- documents.
pub record HookLaws {H : Type 0} (api : HookApi H) : Type 0 where
  pub destroy_disables :
      (k : ℕ) (hs : H) → api.is_enabled k (api.destroy k (api.disable k hs)) ≡ false
  pub destroy_others :
      (k q : ℕ) (hs : H)
      → k ≢ q
      → api.is_enabled q (api.destroy k (api.disable k hs)) ≡ api.is_enabled q hs

module _ {H : Type 0} (api : HookApi H) (laws : HookLaws api) where
  abbrev switched_off : ℕ → H → H
  switched_off k hs = if api.is_enabled k hs then api.destroy k (api.disable k hs) else hs

  switched_off_self : (k : ℕ) (hs : H) → api.is_enabled k (switched_off k hs) ≡ false
  switched_off_self k hs = elim (Bool-cases (api.is_enabled k hs)) [
    | inl on ↦ rw on (laws.destroy_disables k hs)
    | inr off ↦
        ap (λ b. api.is_enabled k (if b then api.destroy k (api.disable k hs) else hs)) off ∙ off
  ]

  switched_off_ne :
      (k q : ℕ) (hs : H) → k ≢ q → api.is_enabled q (switched_off k hs) ≡ api.is_enabled q hs
  switched_off_ne k q hs h = elim (Bool-cases (api.is_enabled k hs)) [
    | inl on ↦ rw on (laws.destroy_others k q hs h)
    | inr off ↦ ap (λ b. api.is_enabled q (if b then api.destroy k (api.disable k hs) else hs)) off
  ]

  -- A hook that is disabled stays so.
  stays_off :
      (ks : List ℕ) (q : ℕ) (hs : H)
      → api.is_enabled q hs ≡ false
      → api.is_enabled q (remove_hooks api ks hs) ≡ false
  unfolding remove_hooks
  stays_off [] q hs off = off
  stays_off (k ∷ ks) q hs off = stays_off ks q (switched_off k hs) (elim (Bool-cases (k == q)) [
    | inl same ↦
        let at : k ≡ q = (==_iff k q).0 same in
        ap (λ x. api.is_enabled x (switched_off k hs)) (sym at) ∙ switched_off_self k hs
    | inr other ↦ switched_off_ne k q hs (ground arith) ∙ off
  ])

  every_hook_off :
      (ks : List ℕ) (hs : H) → All (λ k. api.is_enabled k (remove_hooks api ks hs) ≡ false) ks
  unfolding remove_hooks
  every_hook_off [] hs = tt
  every_hook_off (k ∷ ks) hs = (
    stays_off ks k (switched_off k hs) (switched_off_self k hs),
    every_hook_off ks (switched_off k hs),
  )

  untouched :
      (ks : List ℕ) (q : ℕ) (hs : H)
      → All (λ k. k ≢ q) ks
      → api.is_enabled q (remove_hooks api ks hs) ≡ api.is_enabled q hs
  unfolding remove_hooks
  untouched [] q hs h = refl
  untouched (k ∷ ks) q hs h = untouched ks q (switched_off k hs) h.1 ∙ switched_off_ne k q hs h.0

  -- `Remove` leaves every hook of the category disabled and the category empty. A hook that is not
  -- in the category is as it was, and so is every other category, category 0 included: 0 does not
  -- stand for all of them.
  pub remove-IsRemoved :
      (category : ℕ) (d : Detours H)
      → All
          (λ k. api.is_enabled k (remove api category d).hooks ≡ false)
          (category_hooks category d.categories)
        × (category_hooks category (remove api category d).categories ≡ [])
        × ((q : ℕ)
            → All (λ k. k ≢ q) (category_hooks category d.categories)
            → api.is_enabled q (remove api category d).hooks ≡ api.is_enabled q d.hooks)
        × ((other : ℕ)
            → category ≢ other
            → category_hooks other (remove api category d).categories
              ≡ category_hooks other d.categories)
  unfolding remove
  remove-IsRemoved category d =
      let ks : List ℕ = category_hooks category d.categories in
      (
        every_hook_off ks d.hooks,
        ap or_empty (lookup-put_self category [] d.categories),
        λ q h. untouched ks q d.hooks h,
        λ other h. ap or_empty (lookup-put_ne category other [] d.categories h),
      )
