-- ===== src/ClientApi/Table.antt =====
-- `GetTable`: a client's Lua table belongs to one player.
use gmod_queue.Base.{
  ℕ, ◌+◌, ℤ, pos, ◌≡◌, refl, ap, ◌∙◌, ◌≢◌, inl, inr, not, Bool-cases, true, some, arith, eqb_ℤ,
  eqb_ℤ→eq, eqb_ℤ-refl, update, update_self, if◌then◌else◌, ⊤,
}
use gmod_queue.Engine.Client.{get_user_id}
use gmod_queue.World.State.{World, UserData}
use gmod_queue.World.Host.{Host}
use gmod_queue.World.Laws.{StackLaws}
use gmod_queue.World.Monad.{Action, ok, pure, >>=-ok, if_then, if_else, ◌>>=◌}
use gmod_queue.World.Memory.{read_client, read_client-ok, read_user_data, read_user_data-ok}
use gmod_queue.World.Interp.{lua_do}
use gmod_queue.UserData.{get_client_data}
use gmod_queue.ClientApi.{client_get_table, refresh_table}

module _ {L : Type 0} ⦃host : Host L⦄ (stack : StackLaws host.lua_api) where
  open host use {top, create_table, reference_create, reference_free, reference_push}

  abbrev new_table : UserData → L → ℤ × L
  new_table d l = reference_create (create_table (reference_free d.table_reference l))

  -- The box with a new table for this player.
  abbrev refreshed_box : UserData → ℤ → L → UserData
  refreshed_box d id l = record d { table_reference = (new_table d l).0; additional_data = id }

  abbrev refreshed : ℕ → UserData → ℤ → World L → World L
  refreshed u d id w = record w {
    lua = (new_table d w.lua).1;
    user_data = update w.user_data u (some (refreshed_box d id w.lua));
  }

  refresh_table_lem :
      (u : ℕ) (d : UserData) (id : ℤ) (w : World L)
      → refresh_table u d id w ≡ (ok tt, refreshed u d id w)
  unfolding refresh_table ◌>>=◌
  refresh_table_lem u d id w = refl

  top_refreshed : (d : UserData) (l : L) → top (new_table d l).1 ≡ top l
  top_refreshed d l =
      let freed : L = reference_free d.table_reference l in
      omega (
        arith,
        stack.reference_free_top d.table_reference l,
        stack.create_table_top freed,
        stack.reference_create_top (create_table freed),
      )

  -- What `GetTable` leaves: the box names the player, and its table is on the stack.
  pub record IsOwnTable (u : ℕ) (d : UserData) (id : ℤ) (w w' : World L) : Type 0 where
    pub box : UserData
    pub stored : w'.user_data u ≡ some box
    pub same_object : box.object ≡ d.object
    pub owner : box.additional_data ≡ id
    pub kept : d.additional_data ≡ id → box ≡ d
    pub replaced : d.additional_data ≢ id → box.table_reference ≡ (new_table d w.lua).0
    pub on_top : (l : L) × (w'.lua ≡ reference_push box.table_reference l)
    pub unchanged :
        d.additional_data ≡ id → w' ≡ record w { lua = reference_push d.table_reference w.lua }
    pub renewed :
        d.additional_data ≢ id
        → w' ≡ record (refreshed u d id w) {
          lua = reference_push (new_table d w.lua).0 (new_table d w.lua).1;
        }
    pub height : top w'.lua ≡ top w.lua + 1

  module _ (w : World L) (u : ℕ) (d : UserData) (given : get_client_data (pos 1) true w ≡ (ok u, w))
      (allocated : w.user_data u ≡ some d) (live : d.object ≢ 0) where
    abbrev owner_id : ℤ
    owner_id = get_user_id (w.client d.object)

    abbrev refresh_if : Action L ⊤
    refresh_if =
        if not (eqb_ℤ d.additional_data owner_id) then refresh_table u d owner_id else pure tt

    run :
        (v : World L) (e : UserData)
        → refresh_if w ≡ (ok tt, v)
        → v.user_data u ≡ some e
        → client_get_table w ≡ (ok 1, record v { lua = reference_push e.table_reference v.lua })
    unfolding client_get_table
    run v e refreshes there =
        >>=-ok (get_client_data (pos 1) true) _ given
        ∙ (>>=-ok (read_user_data u) _ (read_user_data-ok w u d allocated)
            ∙ (>>=-ok (read_client d.object) _ (read_client-ok w d.object live)
                ∙ (>>=-ok refresh_if _ refreshes
                    ∙ (>>=-ok (read_user_data u) _ (read_user_data-ok v u e there)
                        ∙ >>=-ok (lua_do (reference_push e.table_reference)) _ refl))))

    -- For a live client `GetTable` returns one value, with one more on the stack. If the box was last
    -- used by the player with the client's user id, nothing but the stack changes, on which its table is pushed; if not, the old
    -- table's reference is freed, a new table and its reference are made, the box holds these and the
    -- new user id, and the new table is pushed.
    pub client_get_table-IsOwnTable :
        (w' : World L) × (client_get_table w ≡ (ok 1, w')) × IsOwnTable u d owner_id w w'
    client_get_table-IsOwnTable = elim (Bool-cases (eqb_ℤ d.additional_data owner_id)) [
      | inl same ↦ (
        record w { lua = reference_push d.table_reference w.lua },
        run w d (if_else _ _ w (ap not same)) allocated,
        record {
          box = d;
          stored = allocated;
          same_object = refl;
          owner = eqb_ℤ→eq _ _ same;
          kept = λ e. refl;
          replaced = λ ne. absurd (ne (eqb_ℤ→eq _ _ same));
          on_top = (w.lua, refl);
          unchanged = λ e. refl;
          renewed = λ ne. absurd (ne (eqb_ℤ→eq _ _ same));
          height = stack.reference_push_top d.table_reference w.lua;
        },
      )
      | inr other ↦
          let box : UserData = refreshed_box d owner_id w.lua in
          let v : World L = refreshed u d owner_id w in
          let here = update_self w.user_data u (some box) in
          (
            record v { lua = reference_push box.table_reference v.lua },
            run v box
                (if_then (refresh_table u d owner_id) _ w (ap not other)
                  ∙ refresh_table_lem u d owner_id w)
                here,
            record {
              box = box;
              stored = here;
              same_object = refl;
              owner = refl;
              kept = λ e. cc (other, ap (λ x. eqb_ℤ x owner_id) e ∙ eqb_ℤ-refl owner_id);
              replaced = λ ne. refl;
              on_top = (v.lua, refl);
              unchanged = λ e. cc (other, ap (λ x. eqb_ℤ x owner_id) e ∙ eqb_ℤ-refl owner_id);
              renewed = λ ne. refl;
              height =
                  stack.reference_push_top box.table_reference v.lua
                  ∙ ap (λ n. n + 1) (top_refreshed d w.lua);
            },
          )
    ]
