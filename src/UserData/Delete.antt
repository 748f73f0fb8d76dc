-- ===== src/UserData/Delete.antt =====
-- `Delete_CBaseClient` and `~LuaUserData`.
use mathlib.Core.Path.{subst}
use gmod_queue.Base.{
  ◌∷◌, ℕ, pos, minus_one, ◌≡◌, refl, sym, ap, ◌∙◌, ◌≢◌, inl, inr, Bool-cases, ==_iff, ==→ne, ◌==◌,
  true, false, none, some, Option-cases, arith, lookup, erase, update, update_self, update-ne,
  erase-IsMap, lookup-erase_self, lookup-erase_ne, ne-eqb_ℤ,
}
use gmod_queue.World.State.{World, UserData, Note}
use gmod_queue.World.Host.{Host}
use gmod_queue.World.Laws.{StackLaws}
use gmod_queue.World.Monad.{ok, >>=-ok, if_then, if_else}
use gmod_queue.World.Memory.{read_user_data, read_user_data-ok, free_user_data}
use gmod_queue.UserData.{release_reference, release_table, destroy, delete_found, delete_client}
use gmod_queue.UserData.Registry.{IsBox, IsBox-ne, IsRegistry}

-- A box whose destructor has run.
abbrev spent_box : UserData → UserData
spent_box d = record d {
  reference = minus_one;
  table_reference = minus_one;
  additional_data = pos 0;
}

module _ {L : Type 0} ⦃host : Host L⦄ where
  open host use {reference_push, set_user_type, pop, reference_free}

  -- The interpreter after the destructor: the Lua object no longer points at the box, and both
  -- references are given back.
  abbrev pub lua_after_delete : UserData → L → L
  lua_after_delete d l = reference_free d.table_reference (
      reference_free d.reference (pop 1 (set_user_type minus_one 0 (reference_push d.reference l))))

  release_reference_lem :
      (w : World L) (d : UserData)
      → w.lua_set ≡ true
      → d.reference ≢ minus_one
      → release_reference d w ≡ (
        ok tt,
        record w {
          lua =
              reference_free d.reference
                (pop 1 (set_user_type minus_one 0 (reference_push d.reference w.lua)));
        },
      )
  unfolding release_reference
  release_reference_lem w d set held = rw (ne-eqb_ℤ _ _ held, set)

  release_table_lem :
      (w : World L) (d : UserData)
      → w.lua_set ≡ true
      → d.table_reference ≢ minus_one
      → release_table d w ≡ (ok tt, record w { lua = reference_free d.table_reference w.lua })
  unfolding release_table
  release_table_lem w d set held = rw (ne-eqb_ℤ _ _ held, set)

  destroy_lem :
      (w : World L) (u c : ℕ) (d : UserData)
      → w.lua_set ≡ true
      → w.main_thread ≡ true
      → IsBox w.user_data w.next_user_data c u d
      → destroy u w ≡ (
        ok tt,
        record w {
          lua = lua_after_delete d w.lua;
          user_data = update w.user_data u (some (spent_box d));
        },
      )
  unfolding destroy
  destroy_lem w u c d set main b =
      if_then _ _ w main
      ∙ (>>=-ok (read_user_data u) _ (read_user_data-ok w u d b.allocated)
          ∙ >>=-ok (release_reference d) _ (release_reference_lem w d set b.referenced)
          ∙ >>=-ok (release_table d) _ (release_table_lem _ d set b.tabled))

  pub delete_client_unknown :
      (w : World L) (c : ℕ) → lookup c w.pushed ≡ none → delete_client c w ≡ (ok tt, w)
  unfolding delete_client delete_found
  delete_client_unknown w c unknown = rw unknown

  -- The world after a registered client is deleted.
  abbrev pub after_delete : ℕ → ℕ → UserData → World L → World L
  after_delete c u d w = record w {
    lua = lua_after_delete d w.lua;
    user_data = update (update w.user_data u (some (spent_box d))) u none;
    pushed = erase c w.pushed;
  }

  pub delete_client_known :
      (w : World L) (c u : ℕ) (d : UserData)
      → w.lua_set ≡ true
      → w.main_thread ≡ true
      → lookup c w.pushed ≡ some u
      → IsBox w.user_data w.next_user_data c u d
      → delete_client c w ≡ (ok tt, after_delete c u d w)
  unfolding delete_client delete_found
  delete_client_known w c u d set main known b =
      rw known
        (>>=-ok (destroy u) _ (destroy_lem w u c d set main b) ∙ >>=-ok (free_user_data u) _ refl)

  boxed_after_delete :
      (w : World L) (c u j v : ℕ) (d : UserData)
      → IsRegistry w
      → IsBox w.user_data w.next_user_data c u d
      → c ≢ j
      → lookup j w.pushed ≡ some v
      → (e : UserData) × IsBox (after_delete c u d w).user_data w.next_user_data j v e
  boxed_after_delete w c u j v d reg b different known =
      let (e, k) = reg.boxed j v known in
      let apart = IsBox-ne w.user_data w.next_user_data c j u v d e b k different in
      (
        e,
        record {
          allocated =
              update-ne (update w.user_data u _) u v none apart
              ∙ update-ne w.user_data u v _ apart
              ∙ k.allocated;
          below = k.below;
          real = k.real;
          boxes = k.boxes;
          referenced = k.referenced;
          tabled = k.tabled;
        },
      )

  pub after_delete-IsRegistry :
      (w : World L) (c u : ℕ) (d : UserData)
      → IsRegistry w
      → IsBox w.user_data w.next_user_data c u d
      → IsRegistry (after_delete c u d w)
  after_delete-IsRegistry w c u d reg b = record {
    keys = erase-IsMap c w.pushed reg.keys;
    started = reg.started;
    boxed = λ j v e. elim (Bool-cases (c == j)) [
      | inl same ↦
          let gone = lookup-erase_self c w.pushed reg.keys in
          let at : c ≡ j = (==_iff c j).0 same in cc (ap (λ k. lookup k (erase c w.pushed)) at)
      | inr other ↦
          let different : j ≢ c = λ q. ==→ne c j other (sym q) in
          boxed_after_delete w c u j v d reg b (==→ne c j other)
            (sym (lookup-erase_ne c j w.pushed different) ∙ e)
    ];
  }

-- What is left after `Delete_CBaseClient`.
pub record IsForgotten {L : Type 0} (c : ℕ) (w w' : World L) : Type 0 where
  pub registry : IsRegistry w'
  pub unregistered : lookup c w'.pushed ≡ none
  pub freed : (u : ℕ) → lookup c w.pushed ≡ some u → w'.user_data u ≡ none
  pub others : (j : ℕ) → j ≢ c → lookup j w'.pushed ≡ lookup j w.pushed
  pub same_type : w'.client_type_id ≡ w.client_type_id
  pub same_lua : w'.lua_set ≡ w.lua_set
  pub same_thread : w'.main_thread ≡ w.main_thread

module _ {L : Type 0} ⦃host : Host L⦄ (stack : StackLaws host.lua_api) where
  top_after_delete : (d : UserData) (l : L) → host.top (lua_after_delete d l) ≡ host.top l
  top_after_delete d l =
      let pushed : L = host.reference_push d.reference l in
      let emptied : L = host.set_user_type minus_one 0 pushed in
      let popped : L = host.pop 1 emptied in
      omega (
        arith,
        stack.reference_push_top d.reference l,
        stack.set_user_type_top minus_one 0 pushed,
        stack.pop_top 1 emptied,
        stack.reference_free_top d.reference popped,
        stack.reference_free_top d.table_reference (host.reference_free d.reference popped),
      )

  -- On the main thread, with Lua up and the registry in order, `Delete_CBaseClient` returns whether
  -- or not the client is registered. Then the client is not registered, its box is freed, no other
  -- client's entry has changed, the registry is in order, and the Lua stack is as high as before.
  pub delete_client-IsForgotten :
      (w : World L) (c : ℕ)
      → IsRegistry w
      → w.lua_set ≡ true
      → w.main_thread ≡ true
      → (w' : World L) × (delete_client c w ≡ (ok tt, w'))
        × IsForgotten c w w'
        × (host.top w'.lua ≡ host.top w.lua)
  delete_client-IsForgotten w c reg set main = elim (Option-cases (lookup c w.pushed)) [
    | inl unknown ↦ (
      w,
      delete_client_unknown w c unknown,
      record {
        registry = reg;
        unregistered = unknown;
        freed = λ u e. cc;
        others = λ j ne. refl;
        same_type = refl;
        same_lua = refl;
        same_thread = refl;
      },
      refl,
    )
    | inr (u, known) ↦
        let (d, b) = reg.boxed c u known in
        (
          after_delete c u d w,
          delete_client_known w c u d set main known b,
          record {
            registry = after_delete-IsRegistry w c u d reg b;
            unregistered = lookup-erase_self c w.pushed reg.keys;
            freed = λ v e.
                let same : u ≡ v = cc in
                subst (λ x. (after_delete c u d w).user_data x ≡ none) same
                  (update_self (update w.user_data u _) u none);
            others = λ j ne. lookup-erase_ne c j w.pushed ne;
            same_type = refl;
            same_lua = refl;
            same_thread = refl;
          },
          top_after_delete d w.lua,
        )
  ]

module _ {L : Type 0} ⦃host : Host L⦄ (w : World L) (c u : ℕ) where
  off_main_thread_lem :
      w.main_thread ≡ false
      → lookup c w.pushed ≡ some u
      → delete_client c w ≡ (
        ok tt,
        record w {
          user_data = update w.user_data u none;
          pushed = erase c w.pushed;
          notes = Note.delete_off_main_thread ∷ w.notes;
        },
      )
  unfolding delete_client delete_found destroy
  off_main_thread_lem off known =
      rw known (>>=-ok (destroy u) _ (if_else _ _ w off) ∙ >>=-ok (free_user_data u) _ refl)

  -- Off the main thread the destructor gives up, but the box of a registered client is freed and
  -- its entry erased all the same. The interpreter is not touched: neither reference is given back,
  -- and the Lua object keeps pointing at the freed box.
  pub delete_client_off_main_thread :
      IsRegistry w
      → w.main_thread ≡ false
      → lookup c w.pushed ≡ some u
      → let (r, w') = delete_client c w in
        (r ≡ ok tt) × (w'.lua ≡ w.lua) × (w'.user_data u ≡ none) × (lookup c w'.pushed ≡ none)
  delete_client_off_main_thread reg off known =
      rw (off_main_thread_lem off known)
        (refl, refl, update_self w.user_data u none, lookup-erase_self c w.pushed reg.keys)
