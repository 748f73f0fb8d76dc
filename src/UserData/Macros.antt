-- ===== src/UserData/Macros.antt =====
-- The macros and methods of source/util.h that no class of the plugin uses yet, as they would act
-- for `CBaseClient`: `Push_LuaClass`, `Default__gc`, `Default__GetTable`, `Vector_RemoveElement`,
-- `LuaUserData::GetData` and `LuaUserData::Push`.
use gmod_queue.Base.{
  ℕ, pos, minus_one, ◌==◌, ⊤, Bool, true, false, List, [], ◌∷◌, eqb_ℤ, if◌then◌else◌,
}
use gmod_queue.World.State.{UserData}
use gmod_queue.World.Host.{Host}
use gmod_queue.World.Monad.{Action, pure, gets, ◌>>=◌, ◌>>◌}
use gmod_queue.World.Memory.{read_user_data, free_user_data}
use gmod_queue.World.Interp.{lua_do, g_lua_do}
use gmod_queue.UserData.{new_user_data, init, destroy, get_client_data}

abbrev pub get_data : UserData → ℕ
get_data d = d.object

-- `Vector_RemoveElement`: the first element that is equal.
unfoldable pub remove_element : ℕ → List ℕ → List ℕ
remove_element e [] = []
remove_element e (x ∷ xs) = let rest = remove_element e xs in if x == e then xs else x ∷ rest

module _ {L : Type 0} ⦃host : Host L⦄ where
  open host use {push_nil, push_user_type, reference_push, set_user_type}

  -- `LuaUserData::Push`
  unfoldable pub push_box : ℕ → Action L Bool
  push_box u = do
    d ← read_user_data u
    if eqb_ℤ d.reference minus_one
        then pure false
        else (do g_lua_do (reference_push d.reference); pure true)

  -- `Push_LuaClass`: a new box for each push, which the collector frees.
  unfoldable pub push_unregistered : ℕ → Action L ⊤
  push_unregistered var = if var == 0 then g_lua_do push_nil else (do
    u ← new_user_data var
    init u
    t ← gets (λ w. w.client_type_id)
    g_lua_do (push_user_type u t))

  -- `Default__gc`, with what the class does first.
  unfoldable pub collect : Action L ⊤ → Action L ℕ
  collect func = do
    u ← get_client_data (pos 1) false
    if u == 0
        then pure tt
        else (do func; destroy u; free_user_data u; lua_do (set_user_type (pos 1) 0))
    pure 0

  -- `Default__GetTable`
  unfoldable pub default_get_table : Action L ℕ
  default_get_table = do
    u ← get_client_data (pos 1) true
    d ← read_user_data u
    lua_do (reference_push d.table_reference)
    pure 1
