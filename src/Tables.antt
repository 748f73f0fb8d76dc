-- ===== src/Tables.antt =====
-- The helpers of source/util.h that build and read tables in Lua.
pub mod Heights
use gmod_queue.Base.{ℕ, ℤ, negsuc, minus_one, ⊤, Bool, true, false, String, eqb_ℤ, if◌then◌else◌}
use gmod_queue.World.Host.{Host}
use gmod_queue.World.Monad.{Action, pure, ◌>>=◌, ◌>>◌}
use gmod_queue.World.Interp.{g_lua_do, g_lua_get}
use gmod_queue.Hooks.{globals_index, minus_two}

module _ {L : Type 0} ⦃host : Host L⦄ where
  open host use {
    create_table, push_string, push_c_function, push_number, push_nil, raw_set, set_field,
    get_field, get_type, type_table, pop,
  }

  abbrev pub start_table : Action L ⊤
  start_table = g_lua_do create_table

  -- A C function is named by its name in the source.
  unfoldable pub add_func : String → String → Action L ⊤
  add_func func name = do
    g_lua_do (push_string name)
    g_lua_do (push_c_function func)
    g_lua_do (raw_set (negsuc 2))

  unfoldable pub add_value : ℤ → String → Action L ⊤
  add_value value name = do
    g_lua_do (push_string name)
    g_lua_do (push_number value)
    g_lua_do (raw_set (negsuc 2))

  abbrev pub finish_table : String → Action L ⊤
  finish_table name = g_lua_do (set_field globals_index name)

  unfoldable pub nuke_table : String → Action L ⊤
  nuke_table name = do g_lua_do push_nil; g_lua_do (set_field globals_index name)

  unfoldable pub push_table : String → Action L Bool
  push_table name = do
    g_lua_do (get_field globals_index name)
    t ← g_lua_get (get_type minus_one)
    if eqb_ℤ t type_table then pure true else (do g_lua_do (pop 1); pure false)

  abbrev pub pop_table : Action L ⊤
  pop_table = g_lua_do (pop 1)

  unfoldable pub remove_field : String → Action L ⊤
  remove_field name = do g_lua_do push_nil; g_lua_do (set_field minus_two name)

  unfoldable pub has_field : String → ℤ → Action L Bool
  has_field name type = do
    g_lua_do (get_field minus_one name)
    t ← g_lua_get (get_type minus_one)
    pure (eqb_ℤ t type)
