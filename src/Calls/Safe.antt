-- ===== src/Calls/Safe.antt =====
-- Whatever Lua code calls of the plugin, no call of it faults, and each leaves the plugin in order.
use gmod_queue.Base.{ℕ, ℤ, pos, negsuc, cast_int, some, ◌≡◌, ◌≢◌, true}
use gmod_queue.World.State.{World}
use gmod_queue.World.Host.{Host}
use gmod_queue.World.Laws.{StackLaws, ReferenceLaws}
use gmod_queue.World.Monad.{Result, ok, err, lua_error, fault}
use gmod_queue.Hooks.Callback.{CallbackLaws}
use gmod_queue.ClientApi.Handle.{IsHandle, right_type}
use gmod_queue.Calls.{LuaCall, run_call}
use gmod_queue.Calls.Order.{InOrder, Ends, Ensures}
use gmod_queue.Calls.Handles.{Called}
use gmod_queue.Calls.Methods.{
  push_number_of-Ensures, push_bool_of-Ensures, client_get_name-Ensures,
  client_get_steam_id-Ensures, client_is_valid-Ensures, client_to_string-Ensures,
}
use gmod_queue.Calls.Fields.{
  LookupLaws, client_get_table-Ensures, client_index-Ensures, client_new_index-Ensures,
}
use gmod_queue.Calls.Engine.{
  OrderLaws, client_set_signon_state-Ensures, client_reconnect-Ensures, client_client_print-Ensures,
  client_disconnect-Ensures,
}
use gmod_queue.Calls.Library.{
  AsksClient, AsksAll, IsListed, server_get_client-Ensures, server_get_all-Ensures,
}

module _ {L : Type 0} ⦃host : Host L⦄ where
  -- What a call needs beside a plugin that is in order: for the library no NULL in the server's list,
  -- and for `GetClient` a number that is not negative once it is cast to an `int`; for a method a first argument that, if it is
  -- of the clients' type, holds NULL or an allocated box.
  abbrev pub Needs : LuaCall → World L → Type 0
  Needs LuaCall.get_client w =
      IsListed w
      × ((n : ℤ) (i : ℕ) → host.check_number (pos 1) w.lua ≡ some n → cast_int n ≢ negsuc i)
  Needs LuaCall.get_all w = IsListed w
  Needs _ w = right_type (pos 1) w ≡ true → IsHandle (pos 1) w

  abbrev Finds : LuaCall → World L → Type 0
  Finds LuaCall.get_client = AsksClient
  Finds LuaCall.get_all = AsksAll
  Finds _ = Called

  found : (c : LuaCall) (w : World L) → InOrder w → Needs c w → Finds c w
  found LuaCall.get_client w o (listed, positive) = record {
    order = o;
    listed = listed;
    positive = positive;
  }
  found LuaCall.get_all w o listed = record { order = o; listed = listed }
  found LuaCall.get_player_slot w o handle = record { order = o; handle = handle }
  found LuaCall.get_user_id w o handle = record { order = o; handle = handle }
  found LuaCall.get_name w o handle = record { order = o; handle = handle }
  found LuaCall.get_steam_id w o handle = record { order = o; handle = handle }
  found LuaCall.get_signon_state w o handle = record { order = o; handle = handle }
  found LuaCall.is_connected w o handle = record { order = o; handle = handle }
  found LuaCall.is_spawned w o handle = record { order = o; handle = handle }
  found LuaCall.is_active w o handle = record { order = o; handle = handle }
  found LuaCall.is_fake_client w o handle = record { order = o; handle = handle }
  found LuaCall.is_valid w o handle = record { order = o; handle = handle }
  found LuaCall.reconnect w o handle = record { order = o; handle = handle }
  found LuaCall.client_print w o handle = record { order = o; handle = handle }
  found LuaCall.disconnect w o handle = record { order = o; handle = handle }
  found LuaCall.set_signon_state w o handle = record { order = o; handle = handle }
  found LuaCall.get_table w o handle = record { order = o; handle = handle }
  found LuaCall.index w o handle = record { order = o; handle = handle }
  found LuaCall.new_index w o handle = record { order = o; handle = handle }
  found LuaCall.to_string w o handle = record { order = o; handle = handle }

  -- It returned or raised a Lua error, and the plugin is in order.
  abbrev pub IsSafe : {A : Type 0} → Result A × World L → Type 0
  IsSafe x = (x.0 ≢ err fault) × InOrder x.1

  pub Ends-IsSafe : {A : Type 0} (x : Result A × World L) → Ends (λ _. InOrder) x → IsSafe x
  unfolding Ends
  Ends-IsSafe (ok n, w) o = ((λ e. cc), o)
  Ends-IsSafe (err (lua_error s), w) o = ((λ e. cc), o)
  Ends-IsSafe (err fault, w) o = elim o [ ]

  module _ (stack : StackLaws host.lua_api) (references : ReferenceLaws host.lua_api)
      (lookup : LookupLaws host.lua_api) (callback : CallbackLaws host)
      (engine : OrderLaws host) where
    run_call-Ensures : (c : LuaCall) → Ensures (Finds c) (run_call c) (λ _. InOrder)
    run_call-Ensures LuaCall.get_client = server_get_client-Ensures L stack references
    run_call-Ensures LuaCall.get_all = server_get_all-Ensures L stack references
    run_call-Ensures LuaCall.get_player_slot = push_number_of-Ensures L _
    run_call-Ensures LuaCall.get_user_id = push_number_of-Ensures L _
    run_call-Ensures LuaCall.get_name = client_get_name-Ensures L
    run_call-Ensures LuaCall.get_steam_id = client_get_steam_id-Ensures L
    run_call-Ensures LuaCall.get_signon_state = push_number_of-Ensures L _
    run_call-Ensures LuaCall.is_connected = push_bool_of-Ensures L _
    run_call-Ensures LuaCall.is_spawned = push_bool_of-Ensures L _
    run_call-Ensures LuaCall.is_active = push_bool_of-Ensures L _
    run_call-Ensures LuaCall.is_fake_client = push_bool_of-Ensures L _
    run_call-Ensures LuaCall.is_valid = client_is_valid-Ensures L
    run_call-Ensures LuaCall.reconnect = client_reconnect-Ensures L stack references callback engine
    run_call-Ensures LuaCall.client_print =
        client_client_print-Ensures L stack references callback engine
    run_call-Ensures LuaCall.disconnect =
        client_disconnect-Ensures L stack references callback engine
    run_call-Ensures LuaCall.set_signon_state =
        client_set_signon_state-Ensures L stack references callback engine
    run_call-Ensures LuaCall.get_table = client_get_table-Ensures L references
    run_call-Ensures LuaCall.index = client_index-Ensures L lookup
    run_call-Ensures LuaCall.new_index = client_new_index-Ensures L
    run_call-Ensures LuaCall.to_string = client_to_string-Ensures L

    pub run_call-Ends :
        (c : LuaCall) (w : World L) → InOrder w → Needs c w → Ends (λ _. InOrder) (run_call c w)
    run_call-Ends c w o needs = (run_call-Ensures c).at w (found c w o needs)

    -- With the plugin in order, no call from Lua faults: it returns, or raises a Lua error; and it
    -- leaves the plugin in order. This asks of a method's caller that its first argument, if it is of
    -- the clients' type, holds NULL or an allocated box; of a caller of the library that no client of
    -- the server's list is NULL; and of one of `GetClient` that the index is not negative.
    pub run_call-IsSafe :
        (c : LuaCall) (w : World L) → InOrder w → Needs c w → IsSafe (run_call c w)
    run_call-IsSafe c w o needs = Ends-IsSafe (run_call c w) (run_call-Ends c w o needs)
