-- ===== src/Plugin.antt =====
-- `CServerPlugin` (source/plugin.cpp, source/plugin.h), `Queue::Init` (source/queue.cpp), the rest of
-- source/lua.cpp, and the symbols of source/symbols.h.
pub mod Lifetime
pub mod Library
pub mod Callbacks
pub mod Symbols
use gmod_queue.Base.{
  ℕ, ℤ, ◌==◌, ⊤, Bool, true, false, not, String, Option, none, some, List, [], ◌∷◌, if◌then◌else◌,
}
use gmod_queue.World.State.{World, Note}
use gmod_queue.World.Host.{Host}
use gmod_queue.World.Monad.{Action, pure, note, modify, ◌>>=◌, ◌>>◌}
use gmod_queue.World.Interp.{g_lua_do, g_lua_call}
use gmod_queue.Util.{add_detour}
use gmod_queue.Tables.{start_table, add_func, finish_table}
use gmod_queue.Detours.{
  Symbol, from_name, from_signature, HookApi, Detours, Platform, create_listed, remove, report_leak,
}

-- source/symbols.h
abbrev pub fill_server_info_symbols : List Symbol
fill_server_info_symbols = from_name "_ZN11CBaseServer14FillServerInfoER14SVC_ServerInfo" ∷ []

abbrev pub set_signon_state_symbols : List Symbol
set_signon_state_symbols = from_name "_ZN11CBaseClient14SetSignonStateEii" ∷ []

abbrev pub spawn_player_symbols : List Symbol
spawn_player_symbols = from_name "_ZN11CGameClient11SpawnPlayerEv" ∷ []

abbrev pub notify_client_disconnect_symbols : List Symbol
notify_client_disconnect_symbols =
    from_name "_ZN13CSteam3Server22NotifyClientDisconnectEP11CBaseClient"
    ∷ from_signature "55 48 89 E5 41 54 53 48 89 F3 48 83 EC 20 48 85 F6"
    ∷ []

abbrev pub get_player_limit_symbols : List Symbol
get_player_limit_symbols = from_name "_ZNK18CServerGameClients15GetPlayerLimitsERiS0_S0_" ∷ []

-- The hook objects of source/queue.cpp and their functions, by address.
pub record HookSite : Type 0 where
  pub hook : ℕ
  pub name : String
  pub mod_handle : ℕ
  pub symbols : List Symbol
  pub hook_func : ℕ

-- The five calls of `Detour::Create` in `Queue::Init`, given the handles of `engine` and `server`.
abbrev pub hook_sites : ℕ → ℕ → List HookSite
hook_sites engine server =
    record {
      hook = 1;
      name = "CBaseServer::FillServerInfo";
      mod_handle = engine;
      symbols = fill_server_info_symbols;
      hook_func = 11;
    }
    ∷ record {
      hook = 2;
      name = "CBaseClient::SetSignonState";
      mod_handle = engine;
      symbols = set_signon_state_symbols;
      hook_func = 12;
    }
    ∷ record {
      hook = 3;
      name = "CGameClient::SpawnPlayer";
      mod_handle = engine;
      symbols = spawn_player_symbols;
      hook_func = 13;
    }
    ∷ record {
      hook = 4;
      name = "CSteam3Server::NotifyClientDisconnect";
      mod_handle = engine;
      symbols = notify_client_disconnect_symbols;
      hook_func = 14;
    }
    ∷ record {
      hook = 5;
      name = "CServerGameClients::GetPlayerLimit";
      mod_handle = server;
      symbols = get_player_limit_symbols;
      hook_func = 15;
    }
    ∷ []

-- The calls in turn, in category 0; `none` is a read out of range.
unfoldable pub create_all :
    {H : Type 0} → HookApi H → Platform → List HookSite → Detours H → Option (Detours H)
create_all api platform [] d = some d
create_all api platform (s ∷ sites) d =
    elim (create_listed api platform s.hook s.name s.mod_handle s.symbols s.hook_func 0 d) [
      | none ↦ none
      | some e ↦ create_all api platform sites e
    ]

-- The method names that `Push_CBaseClientMeta` and `Queue::Init` give to the metatable, and the
-- functions of source/queue.cpp behind them, in order.
abbrev pub client_methods : List (String × String)
client_methods =
    ("CBaseClient__newindex", "__newindex")
    ∷ ("CBaseClient__index", "__index")
    ∷ ("CBaseClient_GetTable", "GetTable")
    ∷ ("CBaseClient_GetPlayerSlot", "GetPlayerSlot")
    ∷ ("CBaseClient_GetUserID", "GetUserID")
    ∷ ("CBaseClient_GetName", "GetName")
    ∷ ("CBaseClient_GetSteamID", "GetSteamID")
    ∷ ("CBaseClient_Reconnect", "Reconnect")
    ∷ ("CBaseClient_ClientPrint", "ClientPrint")
    ∷ ("CBaseClient_IsValid", "IsValid")
    ∷ ("CBaseClient_Disconnect", "Disconnect")
    ∷ ("CBaseClient_IsConnected", "IsConnected")
    ∷ ("CBaseClient_IsSpawned", "IsSpawned")
    ∷ ("CBaseClient_IsActive", "IsActive")
    ∷ ("CBaseClient_GetSignonState", "GetSignonState")
    ∷ ("CBaseClient_IsFakeClient", "IsFakeClient")
    ∷ ("CBaseClient_SetSignonState", "SetSignonState")
    ∷ []

module _ {L : Type 0} ⦃host : Host L⦄ where
  open host use {create_meta_table, pop}

  unfoldable pub add_funcs : List (String × String) → Action L ⊤
  add_funcs [] = pure tt
  add_funcs ((func, name) ∷ rest) = do add_func func name; add_funcs rest

  -- `Push_CBaseClientMeta`
  abbrev pub push_client_meta : Action L ⊤
  push_client_meta = add_funcs client_methods

  -- The part of `Queue::Init` that talks to Lua.
  unfoldable pub queue_init_lua : Action L ⊤
  queue_init_lua = do
    t ← g_lua_call (create_meta_table "CGameClient")
    modify (λ w. record w { client_type_id = t })
    push_client_meta
    add_func "CGameClient__tostring" "__tostring"
    g_lua_do (pop 1)
    start_table
    add_func "gameserver_GetClient" "GetClient"
    add_func "gameserver_GetAll" "GetAll"
    finish_table "playerqueue"

  -- `CServerPlugin::Load` up to the detours, given what `InterfacePointers::Server()` returns.
  unfoldable pub load_lua : ℕ → Action L ⊤
  load_lua server = do note Note.plugin_loading; add_detour server; queue_init_lua

-- The plugin object: `m_iClientCommandIndex`, whether its `LUA` is set, and `lua_init`.
pub record Plugin : Type 0 where
  pub client_command_index : ℤ
  pub has_realm : Bool
  pub lua_init : Bool

-- What `Lua::GetRealm` finds: no `ILuaShared`, no interpreter for the realm, or one.
pub data Realm : Type 0 where
  no_shared no_interface found : Realm

-- `Lua::Init`: `g_Lua` is assigned.
abbrev pub lua_init_with : {L : Type 0} → World L → World L
lua_init_with w = record w { lua_set = true }

abbrev pub jot : {L : Type 0} → Note → World L → World L
jot n w = record w { notes = n ∷ w.notes }

-- `CServerPlugin::LuaInit`: whether it succeeded.
abbrev pub plugin_lua_init : {L : Type 0} → Realm → Plugin → World L → Bool × Plugin × World L
plugin_lua_init no_shared p w =
    (false, record p { has_realm = false }, jot Note.no_server_realm (jot Note.no_lua_shared w))
plugin_lua_init no_interface p w =
    (false, record p { has_realm = false }, jot Note.no_server_realm w)
plugin_lua_init found p w = (true, record p { has_realm = true }, lua_init_with w)

-- `Lua::ServerInit`
abbrev pub lua_server_init : {L : Type 0} → World L → World L
lua_server_init w = if not w.lua_set then jot Note.server_info_lua_null w else w

unfoldable pub server_activate : {L : Type 0} → Realm → Plugin → World L → Plugin × World L
server_activate realm p w =
    let (p', w') =
      if not p.lua_init
      then (let (up, q, v) = plugin_lua_init realm p w in (record q { lua_init = up }, v))
      else (p, w) in
    (p', lua_server_init w')

-- `Lua::Shutdown` is empty, so `g_Lua` stays set and the registry stays as it is.
abbrev pub lua_shutdown : {L : Type 0} → World L → World L
lua_shutdown w = w

unfoldable pub level_shutdown : {L : Type 0} → Plugin → World L → Plugin × World L
level_shutdown p w = if p.lua_init then (record p { lua_init = false }, lua_shutdown w) else (p, w)

abbrev pub set_command_client : ℤ → Plugin → Plugin
set_command_client index p = record p { client_command_index = index }

-- `CServerPlugin::Unload`
unfoldable pub unload : {H : Type 0} → HookApi H → Detours H → Detours H
unload api d = report_leak (remove api 0 d)
