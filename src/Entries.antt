-- ===== src/Entries.antt =====
-- What enters source/queue.cpp while Lua is up: a call from Lua, or one of the five detours, entered by
-- the engine. The callbacks of the plugin itself are those of Plugin/Callbacks.
pub mod Detours
pub mod Safe
pub mod Session
use gmod_queue.Base.{ℕ, ℤ, ⊤}
use gmod_queue.Engine.ServerInfo.{ServerInfo}
use gmod_queue.World.Host.{Host}
use gmod_queue.World.Monad.{Action, pure, ◌>>=◌, ◌>>◌}
use gmod_queue.Hooks.{
  hook_set_signon_state, hook_fill_server_info, hook_notify_client_disconnect, PlayerLimit,
  hook_get_player_limit,
}
use gmod_queue.Spawn.{hook_spawn_player}
use gmod_queue.Calls.{LuaCall, run_call}

pub data Entry : Type 0 where
  from_lua : LuaCall → Entry
  set_signon_state : ℕ → ℤ → ℤ → Entry
  fill_server_info : ℕ → ServerInfo → Entry
  notify_client_disconnect : ℕ → ℕ → Entry
  spawn_player : ℕ → Entry
  get_player_limit : PlayerLimit → Entry

module _ {L : Type 0} ⦃host : Host L⦄ where
  -- What is run; its result goes to the caller.
  abbrev pub enter : Entry → Action L ⊤
  enter (from_lua c) = do run_call c; pure tt
  enter (set_signon_state p state spawncount) = do hook_set_signon_state p state spawncount; pure tt
  enter (fill_server_info server info) = do hook_fill_server_info server info; pure tt
  enter (notify_client_disconnect steam p) = hook_notify_client_disconnect steam p
  enter (spawn_player p) = hook_spawn_player p
  enter (get_player_limit limit) = do pure (hook_get_player_limit limit); pure tt
