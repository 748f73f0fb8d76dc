-- ===== src/Hooks.antt =====
-- source/lua.cpp `Lua::PushHook`, and the detours of source/queue.cpp that ask Lua.
pub mod Balance
pub mod Pushed
pub mod Veto
pub mod Callback
pub mod Signon
pub mod Disconnect
use gmod_queue.Base.{
  ℕ, ℤ, pos, negsuc, minus_one, ◌==◌, ⊤, Bool, true, false, not, String, Option, none, some, eqb_ℤ,
  ltb_ℤ, if◌then◌else◌, lookup,
}
use gmod_queue.Engine.Client.{get_server}
use gmod_queue.Engine.ServerInfo.{ServerInfo}
use gmod_queue.World.State.{World, Note}
use gmod_queue.World.Host.{Host}
use gmod_queue.World.Monad.{Action, ok, pure, gets, call, note, ◌>>=◌, ◌>>◌}
use gmod_queue.World.Memory.{read_client}
use gmod_queue.World.Interp.{g_lua_do, g_lua_get}
use gmod_queue.UserData.{push_client, delete_client}

-- `LUA_GLOBALSINDEX`, -10002.
abbrev pub globals_index : ℤ
globals_index = negsuc 10001

abbrev pub minus_two : ℤ
minus_two = negsuc 1

-- What the detour of `FillServerInfo` does to the message that the engine has filled in.
abbrev pub clamp_max_clients : ServerInfo → ServerInfo
clamp_max_clients info =
    if ltb_ℤ (pos 128) info.max_clients then record info { max_clients = pos 128 } else info

module _ {L : Type 0} ⦃host : Host L⦄ where
  open host use {
    get_field, get_type, type_table, type_function, pop, remove, push_string, push_number, get_bool,
    call_function_protected, set_signon_state, fill_server_info, notify_client_disconnect,
  }

  -- The part of `Lua::PushHook` after `hook` was found to be a table.
  unfoldable pub push_run : String → Action L Bool
  push_run hook = do
    g_lua_do (get_field minus_one "Run")
    t ← g_lua_get (get_type minus_one)
    if not (eqb_ℤ t type_function)
        then (do g_lua_do (pop 2); note Note.missing_hook_run; pure false)
        else (do g_lua_do (remove minus_two); g_lua_do (push_string hook); pure true)

  unfoldable pub push_hook_table : String → Action L Bool
  push_hook_table hook = do
    g_lua_do (get_field globals_index "hook")
    t ← g_lua_get (get_type minus_one)
    if not (eqb_ℤ t type_table)
        then (do g_lua_do (pop 1); note Note.missing_hook_table; pure false)
        else push_run hook

  -- `Lua::PushHook`: `hook.Run` and the hook's name are on the stack if it returns true.
  unfoldable pub push_hook : String → Action L Bool
  push_hook hook w =
      (if not w.lua_set
          then (do note (Note.hook_without_lua hook); pure false)
          else if not w.main_thread
          then (do note (Note.hook_off_main_thread hook); pure false)
          else push_hook_table hook)
        w

  -- The call of the sign-on hook, with its arguments on the stack: whether it returned true.
  unfoldable pub signon_answer : Action L Bool
  signon_answer = do
    ran ← call (call_function_protected 4 1 true)
    if ran
        then (do ret ← g_lua_get (get_bool minus_one); g_lua_do (pop 1); pure ret)
        else pure false

  -- What the detour of `SetSignonState` does with a hook that was pushed.
  unfoldable pub run_signon_hook : ℕ → ℤ → ℤ → Action L Bool
  run_signon_hook cl state spawncount = do
    push_client cl
    g_lua_do (push_number state)
    g_lua_do (push_number spawncount)
    signon_answer

  unfoldable pub ask_signon_hook : ℕ → ℤ → ℤ → Action L Bool
  ask_signon_hook cl state spawncount = do
    pushed ← push_hook "PlayerQueue:OnSetSignonState"
    if pushed then run_signon_hook cl state spawncount else pure false

  -- `hook_CBaseClient_SetSignonState`
  unfoldable pub hook_set_signon_state : ℕ → ℤ → ℤ → Action L Bool
  hook_set_signon_state cl state spawncount = do
    refused ← ask_signon_hook cl state spawncount
    if refused then pure false else call (set_signon_state cl state spawncount)

  -- `hook_CBaseServer_FillServerInfo`
  unfoldable pub hook_fill_server_info : ℕ → ServerInfo → Action L ServerInfo
  hook_fill_server_info server info = do
    filled ← call (fill_server_info server info)
    pure (clamp_max_clients filled)

  unfoldable pub run_disconnect_hook : ℕ → Action L Bool
  run_disconnect_hook client = do push_client client; call (call_function_protected 2 0 true)

  unfoldable pub tell_disconnect : ℕ → Action L Bool
  tell_disconnect client w =
      (if w.lua_set
          then (do
            pushed ← push_hook "PlayerQueue:OnClientDisconnect"
            if pushed then run_disconnect_hook client else pure false)
          else pure false)
        w

  -- `GameServer_OnClientDisconnect`
  unfoldable pub forget_registered : ℕ → Action L ⊤
  forget_registered client w = elim (lookup client w.pushed) [
    | none ↦ pure tt w
    | some _ ↦ delete_client client w
  ]

  unfoldable pub on_client_disconnect : ℕ → Action L ⊤
  on_client_disconnect client = do
    c ← read_client client
    server ← gets (λ w. w.server)
    if not (get_server c == server)
        then pure tt
        else (do tell_disconnect client; forget_registered client)

  -- `hook_CSteam3Server_NotifyClientDisconnect`
  unfoldable pub hook_notify_client_disconnect : ℕ → ℕ → Action L ⊤
  hook_notify_client_disconnect steam client = do
    on_client_disconnect client
    (λ w. (ok tt, notify_client_disconnect steam client w))

-- `hook_CServerGameClients_GetPlayerLimit`: the values that it stores through its references.
pub record PlayerLimit : Type 0 where
  pub min_players : ℤ
  pub max_players : ℤ
  pub default_max_players : ℤ

unfoldable pub hook_get_player_limit : PlayerLimit → PlayerLimit
hook_get_player_limit limit = record limit {
  min_players = pos 1;
  max_players = pos 255;
  default_max_players = pos 255;
}
