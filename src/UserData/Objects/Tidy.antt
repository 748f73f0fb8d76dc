-- ===== src/UserData/Objects/Tidy.antt =====
-- A state in which no Lua object dangles, and what keeps it so.
use mathlib.Core.Path.{subst}
use gmod_queue.Base.{
  ℕ, ℤ, ◌≡◌, sym, ap, ◌∙◌, ◌≢◌, inl, inr, ◌==◌, ==_iff, ==→ne, Bool-cases, Option-cases, true, none,
  lookup, insert,
}
use gmod_queue.World.State.{World}
use gmod_queue.World.Host.{Host}
use gmod_queue.World.Laws.{ReferenceLaws}
use gmod_queue.World.Monad.{ok}
use gmod_queue.UserData.{push_client, delete_client}
use gmod_queue.UserData.Registry.{IsRegistry}
use gmod_queue.UserData.Push.{after_reference, push_new_lem, push_new-IsPushed}
use gmod_queue.UserData.Once.{push_client_null, push_client_known, push_client_unknown}
use gmod_queue.UserData.Delete.{
  delete_client_unknown, delete_client_known, after_delete, after_delete-IsRegistry,
}
use gmod_queue.UserData.Objects.{Objects, IsSameHeap, ObjectLaws, IsRegistered, IsTied}
use gmod_queue.UserData.Objects.Push.{push_new-IsMade}
use gmod_queue.UserData.Objects.Tied.{push_new-IsTied}
use gmod_queue.UserData.Objects.Delete.{after_delete-IsTied}

-- Lua code may do as it likes, but it cannot set an object's pointer, or give back or overwrite a
-- reference that somebody else holds.
pub record IsRespectful {L : Type 0} (objects : Objects L) (l l' : L) : Type 0 where
  pub pointers : (o : ℕ) → objects.pointer l' o ≡ objects.pointer l o
  pub references :
      (r : ℤ)
      → objects.in_use l r ≡ true
      → (objects.holds l' r ≡ objects.holds l r) × (objects.in_use l' r ≡ true)

-- The plugin runs on the main thread with Lua up, the clients' type is `t`, the registry is in order,
-- and nothing dangles.
pub record IsTidy {L : Type 0} (objects : Objects L) (t : ℤ) (w : World L) : Type 0 where
  pub up : w.lua_set ≡ true
  pub thread : w.main_thread ≡ true
  pub of_type : t ≡ w.client_type_id
  pub registry : IsRegistry w
  pub tie : IsTied objects w

module _ {L : Type 0} ⦃host : Host L⦄ (objects : Objects L) where
  heap-IsRespectful : (l l' : L) → IsSameHeap objects l l' → IsRespectful objects l l'
  heap-IsRespectful l l' same = record {
    pointers = same.pointers;
    references = λ r used. (same.held r, same.used r ∙ used);
  }

  respectful-IsTied :
      (w : World L) (l : L)
      → IsRespectful objects w.lua l
      → IsTied objects w
      → IsTied objects (record w { lua = l })
  respectful-IsTied w l kept tie = record {
    tied = λ o live.
        let (c, d, r, holds) = tie.tied o (λ null. live (kept.pointers o ∙ null)) in
        let used = (tie.held c _ d r).used in
        (
          c,
          d,
          subst (λ v. IsRegistered (record w { lua = l }) c v d) (sym (kept.pointers o))
              (record { known = r.known; allocated = r.allocated }),
          (kept.references d.reference used).0 ∙ holds,
        );
    held = λ c u d r.
        let h = tie.held c u d (record { known = r.known; allocated = r.allocated }) in
        let (holds, used) = kept.references d.reference h.used in
        record {
          object = h.object;
          kept = holds ∙ h.kept;
          carries = kept.pointers h.object ∙ h.carries;
          used = used;
          table_used = (kept.references d.table_reference h.table_used).1;
          two = h.two;
        };
    apart = λ c j u v d e r s.
        tie.apart c j u v d e (record { known = r.known; allocated = r.allocated })
          (record { known = s.known; allocated = s.allocated });
  }

  pub respectful-IsTidy :
      (t : ℤ) (w : World L) (l : L)
      → IsRespectful objects w.lua l
      → IsTidy objects t w
      → IsTidy objects t (record w { lua = l })
  respectful-IsTidy t w l kept tidy = record {
    up = tidy.up;
    thread = tidy.thread;
    of_type = tidy.of_type;
    registry = record {
      keys = tidy.registry.keys;
      started = tidy.registry.started;
      boxed = tidy.registry.boxed;
    };
    tie = respectful-IsTied w l kept tidy.tie;
  }

  module _ (references : ReferenceLaws host.lua_api) (t : ℤ)
      (laws : ObjectLaws objects host.lua_api t) (typed : t ≢ host.type_nil) where
    push_new-IsTidy :
        (w : World L) (c : ℕ)
        → IsTidy objects t w
        → lookup c w.pushed ≡ none
        → IsTidy objects t
            (record (after_reference c w) { pushed = insert c w.next_user_data w.pushed })
    push_new-IsTidy w c tidy unknown =
        let here = subst (ObjectLaws objects host.lua_api) tidy.of_type laws in
        let real = λ (e : w.client_type_id ≡ host.type_nil). typed (tidy.of_type ∙ e) in
        record {
          up = tidy.up;
          thread = tidy.thread;
          of_type = tidy.of_type;
          registry = (push_new-IsPushed references w c tidy.registry real tidy.up).registry;
          tie =
              push_new-IsTied objects w tidy.tie tidy.registry c unknown
                (push_new-IsMade objects references w here real c);
        }

    -- A push returns, and keeps all in order.
    pub push_client-IsTidy :
        (w : World L) (c : ℕ)
        → IsTidy objects t w
        → (v : World L) × (push_client c w ≡ (ok tt, v)) × IsTidy objects t v
    push_client-IsTidy w c tidy = elim (Bool-cases (c == 0)) [
      | inl null ↦
          let at : c ≡ 0 = (==_iff c 0).0 null in
          (
            record w { lua = host.push_nil w.lua },
            ap (λ x. push_client x w) at ∙ push_client_null w tidy.up,
            respectful-IsTidy t w _ (heap-IsRespectful _ _ (laws.push_nil_heap w.lua)) tidy,
          )
      | inr real ↦ elim (Option-cases (lookup c w.pushed)) [
        | inl unknown ↦ (
          record (after_reference c w) { pushed = insert c w.next_user_data w.pushed },
          push_client_unknown w c (==→ne c 0 real) unknown ∙ push_new_lem w c tidy.up,
          push_new-IsTidy w c tidy unknown,
        )
        | inr (u, known) ↦
            let (d, b) = tidy.registry.boxed c u known in
            (
              record w { lua = host.reference_push d.reference w.lua },
              push_client_known w c u d tidy.up (==→ne c 0 real) known b.allocated,
              respectful-IsTidy t w _
                  (heap-IsRespectful _ _ (laws.reference_push_heap d.reference w.lua)) tidy,
            )
      ]
    ]

    -- So does a deletion.
    pub delete_client-IsTidy :
        (w : World L) (c : ℕ)
        → IsTidy objects t w
        → (v : World L) × (delete_client c w ≡ (ok tt, v)) × IsTidy objects t v
    delete_client-IsTidy w c tidy = elim (Option-cases (lookup c w.pushed)) [
      | inl unknown ↦ (w, delete_client_unknown w c unknown, tidy)
      | inr (u, known) ↦
          let (d, b) = tidy.registry.boxed c u known in
          let here = subst (ObjectLaws objects host.lua_api) tidy.of_type laws in
          (
            after_delete c u d w,
            delete_client_known w c u d tidy.up tidy.thread known b,
            record {
              up = tidy.up;
              thread = tidy.thread;
              of_type = tidy.of_type;
              registry = after_delete-IsRegistry w c u d tidy.registry b;
              tie = after_delete-IsTied objects w here tidy.tie tidy.registry c u d known b;
            },
          )
    ]
