-- ===== src/UserData/Objects/Delete.antt =====
-- `Delete_CBaseClient` leaves no object that carries the box it frees.
use mathlib.Core.Path.{subst}
use gmod_queue.Base.{
  ℕ, ℤ, minus_one, ◌≡◌, ◌≢◌, sym, ap, ◌∙◌, some, none, lookup, erase, update, update-ne,
  update_self, lookup-erase_ne, lookup-erase_self,
}
use gmod_queue.World.State.{World, UserData}
use gmod_queue.World.Host.{Host}
use gmod_queue.UserData.Registry.{IsBox, IsBox-ne, IsRegistry}
use gmod_queue.UserData.Delete.{after_delete, lua_after_delete}
use gmod_queue.UserData.Objects.{
  Objects, IsPointed, ObjectLaws, IsHeld, IsRegistered, one_box, IsTied,
}

module _ {L : Type 0} ⦃host : Host L⦄ (objects : Objects L) (w : World L)
    (laws : ObjectLaws objects host.lua_api w.client_type_id) (tie : IsTied objects w)
    (reg : IsRegistry w) (c u : ℕ) (d : UserData) (known : lookup c w.pushed ≡ some u)
    (b : IsBox w.user_data w.next_user_data c u d) where
  open objects use {pointer, object_at, holds, in_use}
  open host use {reference_push, set_user_type, pop, reference_free}

  registered : IsRegistered w c u d
  registered = record { known = known; allocated = b.allocated }

  held : IsHeld objects w.lua u d
  held = tie.held c u d registered

  abbrev gone : ℕ
  gone = held.object

  -- The interpreter before the references are given back.
  abbrev emptied : L
  emptied = pop 1 (set_user_type minus_one 0 (reference_push d.reference w.lua))

  emptied-IsPointed : IsPointed objects gone 0 w.lua emptied
  emptied-IsPointed =
      let pushed = laws.reference_push_heap d.reference w.lua in
      let l : L = reference_push d.reference w.lua in
      let set =
        laws.clear_object gone l (laws.reference_push_object d.reference w.lua ∙ held.kept) in
      let popped = laws.pop_heap 1 (set_user_type minus_one 0 l) in
      record {
        now = popped.pointers gone ∙ set.now;
        others = λ q ne. popped.pointers q ∙ set.others q ne ∙ pushed.pointers q;
        held = λ r. popped.held r ∙ set.held r ∙ pushed.held r;
        used = λ r. popped.used r ∙ set.used r ∙ pushed.used r;
      }

  after_pointer : (q : ℕ) → pointer (lua_after_delete d w.lua) q ≡ pointer emptied q
  after_pointer q =
      laws.free_pointer d.table_reference _ q ∙ laws.free_pointer d.reference emptied q

  -- A reference of neither kind is as before.
  after_reference :
      (r : ℤ)
      → r ≢ d.reference
      → r ≢ d.table_reference
      → (holds (lua_after_delete d w.lua) r ≡ holds w.lua r)
        × (in_use (lua_after_delete d w.lua) r ≡ in_use w.lua r)
  after_reference r not_reference not_table =
      let (h1, u1) =
        laws.free_others d.table_reference r (reference_free d.reference emptied) not_table in
      let (h2, u2) = laws.free_others d.reference r emptied not_reference in
      (h1 ∙ h2 ∙ emptied-IsPointed.held r, u1 ∙ u2 ∙ emptied-IsPointed.used r)

  other_before :
      (j v : ℕ) (e : UserData)
      → IsRegistered (after_delete c u d w) j v e
      → (j ≢ c) × IsRegistered w j v e
  other_before j v e r =
      let different : j ≢ c = λ same.
        let none_left = lookup-erase_self c w.pushed reg.keys in
        let there = ap (λ k. lookup k (erase c w.pushed)) (sym same) ∙ r.known in cc in
      let known_j = sym (lookup-erase_ne c j w.pushed different) ∙ r.known in
      let (f, k) = reg.boxed j v known_j in
      let ne : u ≢ v =
        IsBox-ne w.user_data w.next_user_data c j u v d f b k (λ s. different (sym s)) in
      (
        different,
        record {
          known = known_j;
          allocated =
              sym (update-ne (update w.user_data u _) u v none ne ∙ update-ne w.user_data u v _ ne)
              ∙ r.allocated;
        },
      )

  other_after :
      (j v : ℕ) (e : UserData)
      → j ≢ c
      → IsRegistered w j v e
      → IsRegistered (after_delete c u d w) j v e
  other_after j v e different r =
      let (f, k) = reg.boxed j v r.known in
      let ne : u ≢ v =
        IsBox-ne w.user_data w.next_user_data c j u v d f b k (λ s. different (sym s)) in
      record {
        known = lookup-erase_ne c j w.pushed different ∙ r.known;
        allocated =
            update-ne (update w.user_data u _) u v none ne
            ∙ update-ne w.user_data u v _ ne
            ∙ r.allocated;
      }

  -- The references of another box are as before.
  other_references :
      (j v : ℕ) (e : UserData)
      → j ≢ c
      → IsRegistered w j v e
      → (holds (lua_after_delete d w.lua) e.reference ≡ holds w.lua e.reference)
        × (in_use (lua_after_delete d w.lua) e.reference ≡ in_use w.lua e.reference)
        × (in_use (lua_after_delete d w.lua) e.table_reference ≡ in_use w.lua e.table_reference)
  other_references j v e different r =
      let far = tie.apart j c v u e d r registered different in
      let (h, used) = after_reference e.reference far.references far.reference_table in
      let (_, table) = after_reference e.table_reference far.table_reference far.tables in
      (h, used, table)

  -- An object that carries a pointer after the deletion is another than the one of the box.
  survivor :
      (q : ℕ)
      → pointer (lua_after_delete d w.lua) q ≢ 0
      → (q ≢ gone) × (pointer (lua_after_delete d w.lua) q ≡ pointer w.lua q)
  survivor q live =
      let other : q ≢ gone =
        λ e. live (after_pointer q ∙ ap (pointer emptied) e ∙ emptied-IsPointed.now) in
      (other, after_pointer q ∙ emptied-IsPointed.others q other)

  tied_after :
      (q : ℕ)
      → pointer (lua_after_delete d w.lua) q ≢ 0
      → (j : ℕ) × (e : UserData) × IsRegistered
          (after_delete c u d w)
          j
          (pointer (lua_after_delete d w.lua) q)
          e
        × (holds (lua_after_delete d w.lua) e.reference ≡ some q)
  tied_after q live =
      let (other, same) = survivor q live in
      let (j, e, r, kept) = tie.tied q (λ null. live (same ∙ null)) in
      let different : j ≢ c = λ at.
        let here : IsRegistered w c (pointer w.lua q) e = record {
          known = ap (λ k. lookup k w.pushed) (sym at) ∙ r.known;
          allocated = r.allocated;
        } in
        let (_, box) = one_box w c u _ d e registered here in
        let shared = sym kept ∙ ap (λ x. holds w.lua x.reference) box ∙ held.kept in other cc in
      let (h, _, _) = other_references j _ e different r in
      (
        j,
        e,
        subst (λ v. IsRegistered (after_delete c u d w) j v e) (sym same)
            (other_after j _ e different r),
        h ∙ kept,
      )

  held_after :
      (j v : ℕ) (e : UserData)
      → IsRegistered (after_delete c u d w) j v e
      → IsHeld objects (lua_after_delete d w.lua) v e
  held_after j v e r =
      let (different, before) = other_before j v e r in
      let h = tie.held j v e before in
      let (kept, used, table) = other_references j v e different before in
      let far = tie.apart j c v u e d before registered different in
      let other : h.object ≢ gone = λ same.
        let (f, k) = reg.boxed j v before.known in
        IsBox-ne w.user_data w.next_user_data j c v u f d k b different
          (sym h.carries ∙ ap (pointer w.lua) same ∙ held.carries) in
      record {
        object = h.object;
        kept = kept ∙ h.kept;
        carries = after_pointer h.object ∙ emptied-IsPointed.others h.object other ∙ h.carries;
        used = used ∙ h.used;
        table_used = table ∙ h.table_used;
        two = h.two;
      }

  -- With nothing dangling, the deletion of a registered client leaves nothing dangling.
  pub after_delete-IsTied : IsTied objects (after_delete c u d w)
  after_delete-IsTied = record {
    tied = tied_after;
    held = held_after;
    apart = λ i j v x e f r s ne.
        tie.apart i j v x e f (other_before i v e r).1 (other_before j x f s).1 ne;
  }

  -- Nothing carries the freed box.
  pub after_delete-pointer : (q : ℕ) → pointer (lua_after_delete d w.lua) q ≢ u
  after_delete-pointer q here =
      let (j, e, r, _) = tied_after q (λ null. b.real (sym here ∙ null)) in
      let freed : (after_delete c u d w).user_data u ≡ none =
        update_self (update w.user_data u _) u none in
      let there : none ≡ some e =
        sym freed ∙ ap (after_delete c u d w).user_data (sym here) ∙ r.allocated in
      cc
