-- ===== src/World/Host.antt =====
-- The calls to code that is not in the repository: Garry's Mod's `ILuaInterface` and the Source
-- engine. They are parameters; `LuaLaws` and `EngineLaws` state what the plugin relies on.
use gmod_queue.Base.{ℕ, ℤ, Bool, String, Option}
use gmod_queue.Engine.ServerInfo.{ServerInfo}
use gmod_queue.World.State.{World}

-- `GarrysMod::Lua::ILuaInterface`, as operations on the interpreter's state. A position on the
-- stack counts from 1 at the bottom, or from -1 at the top. A number of Lua is given by its integral part.
pub record LuaApi (L : Type 0) : Type 0 where
  pub top : L → ℕ
  pub push_nil : L → L
  pub push_number : ℤ → L → L
  pub push_string : String → L → L
  pub push_bool : Bool → L → L
  pub push_c_function : String → L → L
  pub push_value : ℤ → L → L
  pub create_table : L → L
  pub pop : ℕ → L → L
  pub remove : ℤ → L → L
  pub raw_set : ℤ → L → L
  pub get_field : ℤ → String → L → L
  pub set_field : ℤ → String → L → L
  pub get_type : ℤ → L → ℤ
  pub type_nil : ℤ
  pub type_table : ℤ
  pub type_function : ℤ
  pub reference_create : L → ℤ × L
  pub reference_push : ℤ → L → L
  pub reference_free : ℤ → L → L
  pub push_user_type : ℕ → ℤ → L → L
  pub set_user_type : ℤ → ℕ → L → L
  pub get_user_type : ℤ → ℤ → L → ℕ
  pub create_meta_table : String → L → ℤ × L
  pub check_number : ℤ → L → Option ℤ
  pub get_number : ℤ → L → ℤ
  pub get_bool : ℤ → L → Bool
  pub check_string : ℤ → L → Option String
  pub find_on_objects_meta_table : ℤ → ℤ → L → Bool × L
  pub find_object_on_table : ℤ → ℤ → L → Bool × L

-- The engine's functions that the plugin calls, on the addresses of clients and servers. A call
-- of Lua code is here too, since a hook may call back into anything. `print_client` is `V_snprintf` into a
-- buffer of a size, by a format with a number and a text.
pub record EngineApi (L : Type 0) : Type 0 where
  pub call_function_protected : ℕ → ℕ → Bool → World L → Bool × World L
  pub inactivate : ℕ → World L → World L
  pub clear : ℕ → World L → World L
  pub connect : ℕ → String → ℤ → ℕ → Bool → ℤ → World L → World L
  pub set_name : ℕ → String → World L → World L
  pub reconnect : ℕ → World L → World L
  pub disconnect : ℕ → String → World L → World L
  pub client_printf : ℕ → String → World L → World L
  pub send_net_msg : ℕ → ServerInfo → Bool → World L → World L
  pub get_network_id_string : ℕ → World L → String
  pub set_signon_state : ℕ → ℤ → ℤ → World L → Bool × World L
  pub blank_server_info : ServerInfo
  pub fill_server_info : ℕ → ServerInfo → World L → ServerInfo × World L
  pub spawn_player : ℕ → World L → World L
  pub notify_client_disconnect : ℕ → ℕ → World L → World L
  pub print_client : ℕ → String → ℤ → String → String

pub record Host (L : Type 0) : Type 0 where
  pub lua_api : LuaApi L
  pub open lua_api use *
  pub engine_api : EngineApi L
  pub open engine_api use *
