-- ===== src/Calls/Tidy.antt =====
-- After pushes and deletions of clients in any order, every method is safe to call.
use gmod_queue.Base.{ℤ, pos, ◌≡◌, ◌≢◌, ◌∙◌, true, ⊤}
use gmod_queue.World.State.{World}
use gmod_queue.World.Host.{Host}
use gmod_queue.World.Laws.{StackLaws, ReferenceLaws}
use gmod_queue.Hooks.Callback.{CallbackLaws}
use gmod_queue.UserData.Objects.{Objects, ObjectLaws}
use gmod_queue.UserData.Objects.Tidy.{IsTidy}
use gmod_queue.UserData.Objects.Uses.{Uses, Uses-IsTidy}
use gmod_queue.ClientApi.Handle.{IsHandle, right_type}
use gmod_queue.Calls.{LuaCall, run_call}
use gmod_queue.Calls.Order.{InOrder}
use gmod_queue.Calls.Fields.{LookupLaws}
use gmod_queue.Calls.Engine.{OrderLaws}
use gmod_queue.Calls.Safe.{Needs, IsSafe, run_call-IsSafe}

-- What is called on a client, and not from the library.
abbrev pub IsMethod : LuaCall → Type 0
IsMethod LuaCall.get_client = ⊥
IsMethod LuaCall.get_all = ⊥
IsMethod _ = ⊤

module _ {L : Type 0} ⦃host : Host L⦄ where
  handle-Needs :
      (c : LuaCall) (w : World L)
      → IsMethod c
      → (right_type (pos 1) w ≡ true → IsHandle (pos 1) w)
      → Needs c w
  handle-Needs LuaCall.get_client w method handle = elim method [ ]
  handle-Needs LuaCall.get_all w method handle = elim method [ ]
  handle-Needs LuaCall.get_player_slot w method handle = handle
  handle-Needs LuaCall.get_user_id w method handle = handle
  handle-Needs LuaCall.get_name w method handle = handle
  handle-Needs LuaCall.get_steam_id w method handle = handle
  handle-Needs LuaCall.get_signon_state w method handle = handle
  handle-Needs LuaCall.is_connected w method handle = handle
  handle-Needs LuaCall.is_spawned w method handle = handle
  handle-Needs LuaCall.is_active w method handle = handle
  handle-Needs LuaCall.is_fake_client w method handle = handle
  handle-Needs LuaCall.is_valid w method handle = handle
  handle-Needs LuaCall.reconnect w method handle = handle
  handle-Needs LuaCall.client_print w method handle = handle
  handle-Needs LuaCall.disconnect w method handle = handle
  handle-Needs LuaCall.set_signon_state w method handle = handle
  handle-Needs LuaCall.get_table w method handle = handle
  handle-Needs LuaCall.index w method handle = handle
  handle-Needs LuaCall.new_index w method handle = handle
  handle-Needs LuaCall.to_string w method handle = handle

  tidy-InOrder :
      (objects : Objects L) (t : ℤ) (w : World L)
      → t ≢ host.type_nil
      → IsTidy objects t w
      → InOrder w
  tidy-InOrder objects t w typed tidy = record {
    ready = record { registry = tidy.registry; typed = λ e. typed (tidy.of_type ∙ e) };
    up = tidy.up;
    thread = tidy.thread;
  }

  module _ (objects : Objects L) (stack : StackLaws host.lua_api)
      (references : ReferenceLaws host.lua_api) (lookup : LookupLaws host.lua_api)
      (callback : CallbackLaws host) (engine : OrderLaws host) (t : ℤ)
      (laws : ObjectLaws objects host.lua_api t) (typed : t ≢ host.type_nil) where
    -- Whatever the order in which clients are pushed and deleted, with Lua code in between that
    -- respects pointers and references: from a state of the main thread with Lua up, the registry in
    -- order and no dangling object, it is so in the end. Each object of the clients' type then
    -- carries NULL or the box of a registered client, whose reference keeps that object; and no
    -- method of a client faults there, whatever its arguments are.
    pub Uses-IsSafe :
        {w w' : World L}
        → Uses objects w w'
        → IsTidy objects t w
        → IsTidy objects t w' × ((c : LuaCall) → IsMethod c → IsSafe (run_call c w'))
    Uses-IsSafe {w} {w'} uses tidy =
        let (end, handles) = Uses-IsTidy objects references t laws typed uses tidy in
        (
          end,
          λ c method.
              run_call-IsSafe stack references lookup callback engine c w'
                (tidy-InOrder objects t w' typed end) (handle-Needs c w' method (handles (pos 1))),
        )
