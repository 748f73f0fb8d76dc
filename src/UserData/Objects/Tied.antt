-- ===== src/UserData/Objects/Tied.antt =====
-- A push of a client leaves no object dangling.
use mathlib.Core.Path.{subst}
use gmod_queue.Base.{
  ℕ, ◌<◌, ◌≡◌, refl, ◌≢◌, ◌⊎◌, sym, ap, ◌∙◌, inl, inr, ◌==◌, ==_iff, ==→ne, ==-refl, Bool-cases,
  some, none, lookup, insert, update-ne, update_self, lookup-insert, arith,
}
use gmod_queue.World.State.{World, UserData}
use gmod_queue.World.Host.{Host}
use gmod_queue.UserData.Registry.{IsRegistry}
use gmod_queue.UserData.Push.{after_new, after_init, after_reference, new_box}
use gmod_queue.UserData.Objects.{Objects, IsHeld, AreApart, IsMade, IsRegistered, IsTied}

module _ {L : Type 0} ⦃host : Host L⦄ (objects : Objects L) (w : World L) (tie : IsTied objects w)
    (reg : IsRegistry w) (c : ℕ) (unknown : lookup c w.pushed ≡ none)
    (new : IsMade objects w.next_user_data
      (new_box c w).reference
      (new_box c w).table_reference
      w.lua
      (after_reference c w).lua) where
  open objects use {pointer, object_at, holds, in_use}

  abbrev u : ℕ
  u = w.next_user_data

  abbrev referenced : L
  referenced = (after_reference c w).lua

  new-IsHeld : IsHeld objects referenced u (new_box c w)
  new-IsHeld = record {
    object = new.object;
    kept = new.kept;
    carries = new.carries;
    used = new.used;
    table_used = new.table_used;
    two = new.two;
  }

  abbrev after : World L
  after = record (after_reference c w) { pushed = insert c u w.pushed }

  -- What is registered afterwards.
  new-IsRegistered : IsRegistered after c u (new_box c w)
  new-IsRegistered = record {
    known = lookup-insert c c u w.pushed ∙ rw (==-refl c) refl;
    allocated = update_self (after_init c w).user_data u _;
  }

  kept_box : (v : ℕ) → v < u → after.user_data v ≡ w.user_data v
  kept_box v below =
      update-ne (after_init c w).user_data u v _ (omega (arith, below))
      ∙ update-ne (after_new c w).user_data u v _ (omega (arith, below))
      ∙ update-ne w.user_data u v _ (omega (arith, below))

  old-IsRegistered :
      (j v : ℕ) (e : UserData)
      → IsRegistered w j v e
      → (c ≢ j) × (v ≢ u) × (v ≢ 0) × IsRegistered after j v e
  old-IsRegistered j v e r =
      let different : c ≢ j = λ same. let f = ap (λ k. lookup k w.pushed) same ∙ r.known in cc in
      let (_, b) = reg.boxed j v r.known in
      (
        different,
        omega (arith, b.below),
        b.real,
        record {
          known = ground (arith, lookup-insert c j u w.pushed, r.known, different);
          allocated = kept_box v b.below ∙ r.allocated;
        },
      )

  -- A registered box is the new one, or was registered before.
  IsRegistered-cases :
      (j v : ℕ) (e : UserData)
      → IsRegistered after j v e
      → ((c ≡ j) × (v ≡ u) × (e ≡ new_box c w)) ⊎ ((c ≢ j) × IsRegistered w j v e)
  IsRegistered-cases j v e r = elim (Bool-cases (c == j)) [
    | inl same ↦
        let at : c ≡ j = (==_iff c j).0 same in
        let found : some v ≡ some u =
          sym r.known ∙ ap (λ k. lookup k after.pushed) (sym at) ∙ new-IsRegistered.known in
        let v_is : v ≡ u = cc in
        let boxed : some e ≡ some (new_box c w) =
          sym r.allocated ∙ ap after.user_data v_is ∙ new-IsRegistered.allocated in
        inl (at, v_is, cc)
    | inr other ↦
        let known_j : lookup j w.pushed ≡ some v =
          ground (arith, lookup-insert c j u w.pushed, r.known, other) in
        let (_, b) = reg.boxed j v known_j in
        inr (
          ==→ne c j other,
          record { known = known_j; allocated = sym (kept_box v b.below) ∙ r.allocated },
        )
  ]

  -- The old ones keep their references.
  old-IsHeld : (j v : ℕ) (e : UserData) → IsRegistered w j v e → IsHeld objects referenced v e
  old-IsHeld j v e r =
      let h = tie.held j v e r in
      let (_, _, real, _) = old-IsRegistered j v e r in
      let (_, _, kept, used) = new.old e.reference h.used in
      let (_, _, _, table) = new.old e.table_reference h.table_used in
      let other : h.object ≢ new.object =
        λ same. real (sym h.carries ∙ ap (pointer w.lua) same ∙ new.blank) in
      record {
        object = h.object;
        kept = kept ∙ h.kept;
        carries = new.others h.object other ∙ h.carries;
        used = used;
        table_used = table;
        two = h.two;
      }

  new-AreApart :
      (j v : ℕ) (e : UserData)
      → IsRegistered w j v e
      → AreApart objects (new_box c w) e × AreApart objects e (new_box c w)
  new-AreApart j v e r =
      let h = tie.held j v e r in
      let (rt, rm, _, _) = new.old e.reference h.used in
      let (tables, tm, _, _) = new.old e.table_reference h.table_used in
      (
        record {
          references = λ q. rm (sym q);
          tables = λ q. tables (sym q);
          reference_table = λ q. tm (sym q);
          table_reference = λ q. rt (sym q);
        },
        record { references = rm; tables = tables; reference_table = rt; table_reference = tm },
      )

  tied_after :
      (q : ℕ)
      → pointer referenced q ≢ 0
      → (j : ℕ) × (e : UserData) × IsRegistered after j (pointer referenced q) e
        × (holds referenced e.reference ≡ some q)
  tied_after q live = elim (Bool-cases (q == new.object)) [
    | inl here ↦
        let at : q ≡ new.object = (==_iff q new.object).0 here in
        let here_too : u ≡ pointer referenced q = sym (ap (pointer referenced) at ∙ new.carries) in
        (
          c,
          new_box c w,
          subst (λ v. IsRegistered after c v (new_box c w)) here_too new-IsRegistered,
          new.kept ∙ ap some (sym at),
        )
    | inr other ↦
        let same = new.others q (==→ne q new.object other) in
        let (j, e, r, kept) = tie.tied q (λ null. live (same ∙ null)) in
        let (_, _, _, there) = old-IsRegistered j _ e r in
        let (_, _, held, _) = new.old e.reference (tie.held j _ e r).used in
        (j, e, subst (λ v. IsRegistered after j v e) (sym same) there, held ∙ kept)
  ]

  held_after : (j v : ℕ) (e : UserData) → IsRegistered after j v e → IsHeld objects referenced v e
  held_after j v e r = elim (IsRegistered-cases j v e r) [
    | inl (_, at, box) ↦
        subst (λ x. IsHeld objects referenced v x) (sym box)
          (subst (λ x. IsHeld objects referenced x (new_box c w)) (sym at) new-IsHeld)
    | inr (_, before) ↦ old-IsHeld j v e before
  ]

  apart_after :
      (i j v x : ℕ) (e f : UserData)
      → IsRegistered after i v e
      → IsRegistered after j x f
      → i ≢ j
      → AreApart objects e f
  apart_after i j v x e f r s ne = elim (IsRegistered-cases i v e r) [
    | inl (i_new, _, box) ↦ elim (IsRegistered-cases j x f s) [
      | inl (j_new, _, _) ↦ absurd (ne (sym i_new ∙ j_new))
      | inr (_, before) ↦ subst (λ b. AreApart objects b f) (sym box) (new-AreApart j x f before).0
    ]
    | inr (_, first) ↦ elim (IsRegistered-cases j x f s) [
      | inl (_, _, box) ↦ subst (λ b. AreApart objects e b) (sym box) (new-AreApart i v e first).1
      | inr (_, second) ↦ tie.apart i j v x e f first second ne
    ]
  ]

  -- With nothing dangling, a push of a client that is not registered leaves nothing dangling.
  pub push_new-IsTied : IsTied objects after
  push_new-IsTied = record { tied = tied_after; held = held_after; apart = apart_after }
