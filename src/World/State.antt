-- ===== src/World/State.antt =====
-- Everything that a function of the plugin can see: the interpreter behind `g_Lua`, the engine's
-- objects by address, and the plugin's own globals (source/util.cpp, source/util.h).
use gmod_queue.Base.{ℕ, ℤ, Bool, String, Option, List}
use gmod_queue.Engine.Client.{Client}
use gmod_queue.Engine.NetChan.{NetChan}
use gmod_queue.Engine.Server.{Server}

-- `struct LuaUserData`: the box that Lua holds for a C++ object.
pub record UserData : Type 0 where
  pub object : ℕ
  pub reference : ℤ
  pub table_reference : ℤ
  pub additional_data : ℤ

-- What the plugin prints by `Msg`, `DevMsg` and `Warning`.
pub data Note : Type 0 where
  hook_without_lua : String → Note
  hook_off_main_thread : String → Note
  missing_hook_table : Note
  missing_hook_run : Note
  reference_leak : Note
  delete_off_main_thread : Note
  reassigned : ℤ → ℤ → Note
  no_free_slot : ℤ → ℤ → ℤ → Note
  client_collision : ℤ → ℤ → Note
  server_info_lua_null : Note
  no_lua_shared : Note
  no_server_realm : Note
  plugin_loading : Note
  plugin_loaded : Note
  failed_to : String → String → Note

-- `L` is the state of the Lua interpreter, which is not part of this repository.
pub record World (L : Type 0) : Type 0 where
  pub lua : L
  pub lua_set : Bool
  pub main_thread : Bool
  pub server : ℕ
  pub server_object : Server
  pub client : ℕ → Client
  pub channel : ℕ → NetChan
  pub client_type_id : ℤ
  pub user_data : ℕ → Option UserData
  pub next_user_data : ℕ
  pub pushed : List (ℕ × ℕ)
  pub notes : List Note
