-- ===== src/UserData/Push.antt =====
-- `Push_CBaseClient`: the states it goes through, and that it keeps the registry.
use gmod_queue.Base.{
  ℕ, ◌+◌, minus_one, pos, ◌≡◌, refl, sym, ◌∙◌, Bool-cases, ==_iff, ==-refl, ◌≢◌, inl, inr, true,
  Option, some, arith, lookup, insert, insert-IsMap, lookup-insert, update, update_self, update-ne,
  ◌==◌,
}
use gmod_queue.World.State.{World, UserData}
use gmod_queue.World.Host.{Host}
use gmod_queue.World.Laws.{ReferenceLaws}
use gmod_queue.World.Monad.{ok, gets, >>=-ok}
use gmod_queue.World.Interp.{g_lua_do, g_lua_do-ok}
use gmod_queue.UserData.{new_user_data, init, create_reference, push_new}
use gmod_queue.UserData.Registry.{IsBox, IsRegistry}

-- A box that has been allocated and holds no reference yet.
abbrev pub fresh_box : ℕ → UserData
fresh_box c = record {
  object = c;
  reference = minus_one;
  table_reference = minus_one;
  additional_data = pos 0;
}

module _ {L : Type 0} ⦃host : Host L⦄ where
  open host use {push_user_type, create_table, reference_create, push_value}

  init_lem :
      (w : World L) (u : ℕ) (d : UserData)
      → w.lua_set ≡ true
      → w.user_data u ≡ some d
      → d.table_reference ≡ minus_one
      → init u w ≡ (
        ok tt,
        record w {
          lua = (reference_create (create_table w.lua)).1;
          user_data =
              update w.user_data u
                (some (record d { table_reference = (reference_create (create_table w.lua)).0 }));
        },
      )
  unfolding init
  init_lem w u d set e t = ground arith

  create_reference_lem :
      (w : World L) (u : ℕ) (d : UserData)
      → w.lua_set ≡ true
      → w.user_data u ≡ some d
      → d.reference ≡ minus_one
      → create_reference u w ≡ (
        ok tt,
        record w {
          lua = (reference_create (push_value minus_one w.lua)).1;
          user_data =
              update w.user_data u
                (some (record d { reference = (reference_create (push_value minus_one w.lua)).0 }));
        },
      )
  unfolding create_reference
  create_reference_lem w u d set e t = ground arith

  -- The states that `Push_CBaseClient` goes through for a client that it has not pushed before.
  abbrev pub after_new : ℕ → World L → World L
  after_new c w = record w {
    lua = push_user_type w.next_user_data w.client_type_id w.lua;
    user_data = update w.user_data w.next_user_data (some (fresh_box c));
    next_user_data = w.next_user_data + 1;
  }

  abbrev alloc : ℕ → World L → World L
  alloc c w = record (after_new c w) { lua = w.lua }

  abbrev pub tabled_box : ℕ → World L → UserData
  tabled_box c w = record (fresh_box c) {
    table_reference = (reference_create (create_table (after_new c w).lua)).0;
  }

  abbrev pub after_init : ℕ → World L → World L
  after_init c w = record (after_new c w) {
    lua = (reference_create (create_table (after_new c w).lua)).1;
    user_data = update (after_new c w).user_data w.next_user_data (some (tabled_box c w));
  }

  abbrev pub new_box : ℕ → World L → UserData
  new_box c w = record (tabled_box c w) {
    reference = (reference_create (push_value minus_one (after_init c w).lua)).0;
  }

  abbrev pub after_reference : ℕ → World L → World L
  after_reference c w = record (after_init c w) {
    lua = (reference_create (push_value minus_one (after_init c w).lua)).1;
    user_data = update (after_init c w).user_data w.next_user_data (some (new_box c w));
  }

  pub push_new_lem :
      (w : World L) (c : ℕ)
      → w.lua_set ≡ true
      → push_new c w
        ≡ (ok tt, record (after_reference c w) { pushed = insert c w.next_user_data w.pushed })
  unfolding push_new
  push_new_lem w c set =
      let u : ℕ = w.next_user_data in
      let made = init_lem (after_new c w) u (fresh_box c) set (update_self w.user_data u _) refl in
      let named =
        create_reference_lem (after_init c w) u (tabled_box c w) set
          (update_self (after_new c w).user_data u _) refl in
      >>=-ok (new_user_data c) _ refl
      ∙ >>=-ok (gets (λ v. v.client_type_id)) _ refl
      ∙ >>=-ok (g_lua_do (push_user_type u w.client_type_id)) _ (g_lua_do-ok (alloc c w) set _)
      ∙ >>=-ok (init u) _ made
      ∙ >>=-ok (create_reference u) _ named

-- What a registered client's box is, whichever way `Push_CBaseClient` goes.
pub record IsPushed {L : Type 0} (c : ℕ) (w w' : World L) : Type 0 where
  pub registry : IsRegistry w'
  pub registered : c ≢ 0 → (u : ℕ) × (lookup c w'.pushed ≡ some u)
  pub others : (j : ℕ) → j ≢ c → lookup j w'.pushed ≡ lookup j w.pushed
  pub live : w'.lua_set ≡ true
  pub same_type : w'.client_type_id ≡ w.client_type_id
  pub same_thread : w'.main_thread ≡ w.main_thread
  pub same_clients : w'.client ≡ w.client

module _ {L : Type 0} ⦃host : Host L⦄ (laws : ReferenceLaws host.lua_api) (w : World L) (c : ℕ)
    (reg : IsRegistry w) (typed : w.client_type_id ≢ host.type_nil) where
  open host use {push_user_type, create_table, reference_create, push_value}

  abbrev heap_after : ℕ → Option UserData
  heap_after = (after_reference c w).user_data

  new_box-IsBox : IsBox heap_after (w.next_user_data + 1) c w.next_user_data (new_box c w)
  new_box-IsBox = record {
    allocated = update_self (after_init c w).user_data w.next_user_data _;
    below = omega arith;
    real = omega (arith, reg.started);
    boxes = refl;
    referenced = laws.reference_create_valid _ λ e. typed (
        sym (
          laws.push_value_type _
          ∙ laws.reference_create_type _
          ∙ laws.push_user_type_type w.next_user_data w.client_type_id w.lua)
        ∙ e);
    tabled = laws.reference_create_valid _ (laws.create_table_type _);
  }

  kept-IsBox :
      (j u : ℕ) (d : UserData)
      → IsBox w.user_data w.next_user_data j u d
      → IsBox heap_after (w.next_user_data + 1) j u d
  kept-IsBox j u d b = record {
    allocated =
        update-ne (after_init c w).user_data w.next_user_data u _ (omega (arith, b.below))
        ∙ update-ne (after_new c w).user_data w.next_user_data u _ (omega (arith, b.below))
        ∙ update-ne w.user_data w.next_user_data u _ (omega (arith, b.below))
        ∙ b.allocated;
    below = omega (arith, b.below);
    real = b.real;
    boxes = b.boxes;
    referenced = b.referenced;
    tabled = b.tabled;
  }

  boxed_after_new :
      (j u : ℕ)
      → lookup j (insert c w.next_user_data w.pushed) ≡ some u
      → (d : UserData) × IsBox heap_after (w.next_user_data + 1) j u d
  boxed_after_new j u e =
      let found = sym (lookup-insert c j w.next_user_data w.pushed) ∙ e in
      elim (Bool-cases (c == j)) [
        | inl same ↦
            let at : w.next_user_data ≡ u = ground arith in
            rw (← (==_iff c j).0 same, ← at) (new_box c w, new_box-IsBox)
        | inr other ↦ let (d, b) = reg.boxed j u (ground arith) in (d, kept-IsBox j u d b)
      ]

  pub push_new-IsPushed :
      w.lua_set ≡ true
      → IsPushed c w (record (after_reference c w) { pushed = insert c w.next_user_data w.pushed })
  push_new-IsPushed set = record {
    registry = record {
      keys = insert-IsMap c w.next_user_data w.pushed reg.keys;
      started = omega arith;
      boxed = boxed_after_new;
    };
    registered =
        λ _. (w.next_user_data, lookup-insert c c w.next_user_data w.pushed ∙ rw (==-refl c));
    others = λ j ne. ground (arith, lookup-insert c j w.next_user_data w.pushed);
    live = set;
    same_type = refl;
    same_thread = refl;
    same_clients = refl;
  }
