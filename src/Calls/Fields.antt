-- ===== src/Calls/Fields.antt =====
-- What `GetTable`, `__index` and `__newindex` (source/queue.cpp, source/util.h) ensure.
use gmod_queue.Base.{ℕ, ℤ, pos, ◌≡◌, sym, ap, ◌∙◌, ◌≢◌, not, true, eqb_ℤ, update_self, ==-ne}
use gmod_queue.Engine.Client.{get_user_id}
use gmod_queue.World.State.{World, UserData}
use gmod_queue.World.Host.{Host, LuaApi}
use gmod_queue.World.Laws.{ReferenceLaws}
use gmod_queue.World.Monad.{pure, ◌>>=◌}
use gmod_queue.World.Memory.{read_client}
use gmod_queue.World.Interp.{lua_do, lua_call}
use gmod_queue.ClientApi.{refresh_table, client_get_table, client_index, client_new_index}
use gmod_queue.ClientApi.Handle.{right_type, IsHandle}
use gmod_queue.Calls.Methods.{pushing-Keeps}
use gmod_queue.Calls.Order.{
  InOrder, Ends, Ensures, lua-InOrder, Ensures-pure, Keeps-pure, Keeps-lua_call, Ensures-if,
  Keeps-if, Ensures-before, Ensures-given, Ensures-bind, Ensures-then, Keeps-lua_do,
}
use gmod_queue.Calls.Handles.{
  Called, Boxed, Live, get_client_data-Ensures, read-Live-Ensures, retabled, retabled-IsRegistry,
}

-- A lookup in the metatable, with its result taken off the stack, leaves the first argument.
pub record LookupLaws {L : Type 0} (api : LuaApi L) : Type 0 where
  pub first_type :
      (l : L)
      → api.get_type (pos 1) (api.pop 1 (api.find_on_objects_meta_table (pos 1) (pos 2) l).1)
        ≡ api.get_type (pos 1) l
  pub first_pointer :
      (t : ℤ) (l : L)
      → api.get_user_type (pos 1) t (api.pop 1 (api.find_on_objects_meta_table (pos 1) (pos 2) l).1)
        ≡ api.get_user_type (pos 1) t l

module _ (L : Type 0) ⦃host : Host L⦄ where
  pub refresh_table-Ensures :
      (laws : ReferenceLaws host.lua_api) (u : ℕ) (d : UserData) (id : ℤ) (live : d.object ≢ 0)
      → Ensures {L = L} (Boxed u d) (refresh_table u d id) (λ _. Live u)
  unfolding refresh_table ◌>>=◌ Ends
  refresh_table-Ensures laws u d id live = record {
    at = λ w b.
        let freed : L = host.reference_free d.table_reference w.lua in
        let made : L = host.create_table freed in
        let valid = laws.reference_create_valid made (laws.create_table_type freed) in
        let r : ℤ = (host.reference_create made).0 in
        let v : World L = record w { lua = (host.reference_create made).1 } in
        let o = lua-InOrder w v.lua b.order in
        record {
          order = record {
            ready = record {
              registry = retabled-IsRegistry v u d r id b.allocated valid o.ready.registry;
              typed = o.ready.typed;
            };
            up = o.up;
            thread = o.thread;
          };
          box = retabled v u d r id b.allocated valid;
          allocated = update_self w.user_data u _;
          live = live;
        };
  }

  read_owner-Ensures :
      (u : ℕ) (d : UserData)
      → d.object ≢ 0
      → Ensures {L = L} (Boxed u d) (read_client d.object) (λ _. Boxed u d)
  unfolding Ends
  read_owner-Ensures u d live = record { at = λ w b. rw (==-ne d.object 0 live) b }

  unrefreshed-Ensures :
      (u : ℕ) (d : UserData) → d.object ≢ 0 → Ensures {L = L} (Boxed u d) (pure tt) (λ _. Live u)
  unrefreshed-Ensures u d live =
      Ensures-pure (Boxed u d) tt _
        λ w b. record { order = b.order; box = d; allocated = b.allocated; live = live }

  pub client_get_table-Ensures :
      (laws : ReferenceLaws host.lua_api) → Ensures {L = L} Called client_get_table (λ _. InOrder)
  unfolding client_get_table
  client_get_table-Ensures laws = Ensures-bind (get_client_data-Ensures L) λ u.
      Ensures-bind (read-Live-Ensures L u) λ d. Ensures-given (Boxed u d) (d.object ≢ 0) _ _ λ live.
        Ensures-bind (read_owner-Ensures u d live) λ c.
          Ensures-bind {Q = λ _. Live u}
            (Ensures-if (Boxed u d) (not (eqb_ℤ d.additional_data (get_user_id c))) _ _ _
              (λ _. refresh_table-Ensures laws u d _ live) (λ _. unrefreshed-Ensures u d live))
            λ _.
              Ensures-bind (read-Live-Ensures L u)
                λ e. Ensures-before _ InOrder _ _ (λ w (b, _). b.order) (pushing-Keeps L _)

  -- After the lookup in the metatable, its result on the stack.
  record Searched (w : World L) : Type 0 where
    order : InOrder w
    handle :
        right_type (pos 1) (record w { lua = host.pop 1 w.lua }) ≡ true
        → IsHandle (pos 1) (record w { lua = host.pop 1 w.lua })

  search_metatable :
      LookupLaws host.lua_api
      → Ensures {L = L} Called
          (lua_call (host.find_on_objects_meta_table (pos 1) (pos 2)))
          (λ _. Searched)
  unfolding Ends
  search_metatable lookup = record {
    at = λ w called. record {
      order = lua-InOrder w _ called.order;
      handle = λ same. rw (lookup.first_pointer w.client_type_id w.lua) (
          called.handle
            (ap (λ t. eqb_ℤ t w.client_type_id) (sym (lookup.first_type w.lua)) ∙ same));
    };
  }

  leave_result : Ensures {L = L} Searched (lua_do (host.pop 1)) (λ _. Called)
  unfolding Ends
  leave_result = record {
    at = λ w s. record { order = lua-InOrder w _ s.order; handle = s.handle };
  }

  pub client_index-Ensures :
      LookupLaws host.lua_api → Ensures {L = L} Called client_index (λ _. InOrder)
  unfolding client_index
  client_index-Ensures lookup = Ensures-bind {Q = λ _. Searched} (search_metatable lookup) λ found.
      Ensures-if Searched found _ _ (λ _. InOrder) (λ _. Ensures-pure Searched 1 _ (λ w s. s.order))
        λ _. Ensures-then {Q = Called} leave_result (
          Ensures-bind (get_client_data-Ensures L) λ u. Ensures-bind (read-Live-Ensures L u) λ d.
            Ensures-then {Q = InOrder}
              (Ensures-before _ InOrder _ _ (λ w (b, _). b.order) (Keeps-lua_do _))
              (Ensures-bind (Keeps-lua_call _) λ own.
                Ensures-then (Keeps-if own _ _ (Keeps-pure tt) (Keeps-lua_do _))
                  (pushing-Keeps L _)))

  pub client_new_index-Ensures : Ensures {L = L} Called client_new_index (λ _. InOrder)
  unfolding client_new_index
  client_new_index-Ensures = Ensures-bind (get_client_data-Ensures L) λ u.
      Ensures-bind (read-Live-Ensures L u) λ d.
        Ensures-before _ InOrder _ _ (λ w (b, _). b.order)
          (Ensures-then (Keeps-lua_do _) (
            Ensures-then (Keeps-lua_do _) (
              Ensures-then (Keeps-lua_do _)
                (Ensures-then (Keeps-lua_do _) (Ensures-then (Keeps-lua_do _) (Keeps-pure 0))))))
