-- ===== src/Calls/Look.antt =====
-- The calls from Lua that only look at the clients.
use gmod_queue.Base.{⊤}
use gmod_queue.World.State.{World}
use gmod_queue.World.Host.{Host}
use gmod_queue.World.Frame.{IsStill, IsUntouched}
use gmod_queue.ClientApi.Frame.{
  push_number_of-IsStill, push_bool_of-IsStill, client_get_name-IsStill,
  client_get_steam_id-IsStill, client_is_valid-IsStill, client_to_string-IsStill,
  client_get_table-IsStill, client_index-IsStill, client_new_index-IsStill,
}
use gmod_queue.GameServer.Frame.{server_get_client-IsStill, server_get_all-IsStill}
use gmod_queue.Calls.{LuaCall, run_call}

-- All but those that hand the client to the engine or store in it.
abbrev pub IsLooking : LuaCall → Type 0
IsLooking LuaCall.get_client = ⊤
IsLooking LuaCall.get_all = ⊤
IsLooking LuaCall.get_player_slot = ⊤
IsLooking LuaCall.get_user_id = ⊤
IsLooking LuaCall.get_name = ⊤
IsLooking LuaCall.get_steam_id = ⊤
IsLooking LuaCall.get_signon_state = ⊤
IsLooking LuaCall.is_connected = ⊤
IsLooking LuaCall.is_spawned = ⊤
IsLooking LuaCall.is_active = ⊤
IsLooking LuaCall.is_fake_client = ⊤
IsLooking LuaCall.is_valid = ⊤
IsLooking LuaCall.reconnect = ⊥
IsLooking LuaCall.client_print = ⊥
IsLooking LuaCall.disconnect = ⊥
IsLooking LuaCall.set_signon_state = ⊥
IsLooking LuaCall.get_table = ⊤
IsLooking LuaCall.index = ⊤
IsLooking LuaCall.new_index = ⊤
IsLooking LuaCall.to_string = ⊤

module _ (L : Type 0) ⦃host : Host L⦄ where
  run_call-IsStill : (c : LuaCall) → IsLooking c → IsStill {L = L} (run_call c)
  run_call-IsStill LuaCall.get_client _ = server_get_client-IsStill L
  run_call-IsStill LuaCall.get_all _ = server_get_all-IsStill L
  run_call-IsStill LuaCall.get_player_slot _ = push_number_of-IsStill L _
  run_call-IsStill LuaCall.get_user_id _ = push_number_of-IsStill L _
  run_call-IsStill LuaCall.get_name _ = client_get_name-IsStill L
  run_call-IsStill LuaCall.get_steam_id _ = client_get_steam_id-IsStill L
  run_call-IsStill LuaCall.get_signon_state _ = push_number_of-IsStill L _
  run_call-IsStill LuaCall.is_connected _ = push_bool_of-IsStill L _
  run_call-IsStill LuaCall.is_spawned _ = push_bool_of-IsStill L _
  run_call-IsStill LuaCall.is_active _ = push_bool_of-IsStill L _
  run_call-IsStill LuaCall.is_fake_client _ = push_bool_of-IsStill L _
  run_call-IsStill LuaCall.is_valid _ = client_is_valid-IsStill L
  run_call-IsStill LuaCall.reconnect impossible = elim impossible [ ]
  run_call-IsStill LuaCall.client_print impossible = elim impossible [ ]
  run_call-IsStill LuaCall.disconnect impossible = elim impossible [ ]
  run_call-IsStill LuaCall.set_signon_state impossible = elim impossible [ ]
  run_call-IsStill LuaCall.get_table _ = client_get_table-IsStill L
  run_call-IsStill LuaCall.index _ = client_index-IsStill L
  run_call-IsStill LuaCall.new_index _ = client_new_index-IsStill L
  run_call-IsStill LuaCall.to_string _ = client_to_string-IsStill L

  pub run_call-IsUntouched :
      (c : LuaCall) → IsLooking c → (w : World L) → IsUntouched w (run_call c w).1
  unfolding IsStill
  run_call-IsUntouched c looks = run_call-IsStill c looks
