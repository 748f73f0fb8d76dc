-- ===== src/Calls.antt =====
-- What Lua code can call of the plugin (source/queue.cpp): the two functions of the library, and what
-- `Push_CBaseClientMeta` and `Queue::Init` put in the clients' metatable.
pub mod Order
pub mod Handles
pub mod Methods
pub mod Fields
pub mod Engine
pub mod Library
pub mod Safe
pub mod Tidy
pub mod Look
use gmod_queue.Base.{ℕ}
use gmod_queue.World.Host.{Host}
use gmod_queue.World.Monad.{Action}
use gmod_queue.ClientApi.{
  client_get_player_slot, client_get_user_id, client_get_name, client_get_steam_id,
  client_reconnect, client_client_print, client_is_valid, client_disconnect, client_is_connected,
  client_is_spawned, client_is_active, client_get_signon_state, client_is_fake_client,
  client_set_signon_state, client_get_table, client_index, client_new_index, client_to_string,
}
use gmod_queue.GameServer.{server_get_client, server_get_all}

-- The functions, by the names that Lua code calls them by.
pub data LuaCall : Type 0 where
  get_client get_all : LuaCall
  get_player_slot get_user_id get_name get_steam_id get_signon_state : LuaCall
  is_connected is_spawned is_active is_fake_client is_valid : LuaCall
  reconnect client_print disconnect set_signon_state get_table : LuaCall
  index new_index to_string : LuaCall

module _ {L : Type 0} ⦃host : Host L⦄ where
  -- What a call runs.
  abbrev pub run_call : LuaCall → Action L ℕ
  run_call get_client = server_get_client
  run_call get_all = server_get_all
  run_call get_player_slot = client_get_player_slot
  run_call get_user_id = client_get_user_id
  run_call get_name = client_get_name
  run_call get_steam_id = client_get_steam_id
  run_call get_signon_state = client_get_signon_state
  run_call is_connected = client_is_connected
  run_call is_spawned = client_is_spawned
  run_call is_active = client_is_active
  run_call is_fake_client = client_is_fake_client
  run_call is_valid = client_is_valid
  run_call reconnect = client_reconnect
  run_call client_print = client_client_print
  run_call disconnect = client_disconnect
  run_call set_signon_state = client_set_signon_state
  run_call get_table = client_get_table
  run_call index = client_index
  run_call new_index = client_new_index
  run_call to_string = client_to_string
