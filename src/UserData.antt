-- ===== src/UserData.antt =====
-- `LuaUserData` and the registry of pushed clients (source/util.h: `PushReferenced_LuaClass` and
-- `Get_LuaClass`, instantiated for `CBaseClient` in source/queue.cpp).
pub mod Registry
pub mod Push
pub mod Once
pub mod Delete
pub mod Macros
pub mod Frame
pub mod Objects
use gmod_queue.Base.{
  ℕ, ◌+◌, ℤ, pos, minus_one, ◌==◌, ⊤, Bool, true, false, not, ◌&&◌, ◌||◌, Option, none, some, List,
  eqb_ℤ, if◌then◌else◌, lookup, insert, erase, update,
}
use gmod_queue.World.State.{World, UserData, Note}
use gmod_queue.World.Host.{Host}
use gmod_queue.World.Monad.{
  Action, Result, ok, err, lua_error, fault, pure, raise, gets, note, modify, ◌>>=◌, ◌>>◌,
}
use gmod_queue.World.Memory.{read_user_data, write_user_data, free_user_data}
use gmod_queue.World.Interp.{g_lua_do, g_lua_get, g_lua_call}

module _ {L : Type 0} ⦃host : Host L⦄ where
  open host use {
    push_nil, push_value, create_table, pop, get_type, reference_create, reference_push,
    reference_free, push_user_type, set_user_type, get_user_type,
  }

  -- `new LuaUserData` with `pData` set: a fresh address.
  unfoldable pub new_user_data : ℕ → Action L ℕ
  new_user_data object w = (
    ok w.next_user_data,
    record w {
      user_data = update w.user_data w.next_user_data (
          some (record {
            object = object;
            reference = minus_one;
            table_reference = minus_one;
            additional_data = pos 0;
          }));
      next_user_data = w.next_user_data + 1;
    },
  )

  -- `LuaUserData::Init`
  unfoldable pub init : ℕ → Action L ⊤
  unfolding ◌>>=◌
  init u = do
    d ← read_user_data u
    if eqb_ℤ d.table_reference minus_one
        then (do
          g_lua_do create_table
          r ← g_lua_call reference_create
          write_user_data u (record d { table_reference = r }))
        else pure tt

  -- `LuaUserData::CreateReference`
  unfoldable pub create_reference : ℕ → Action L ⊤
  unfolding ◌>>=◌
  create_reference u = do
    d ← read_user_data u
    if eqb_ℤ d.reference minus_one then pure tt else note Note.reference_leak
    g_lua_do (push_value minus_one)
    r ← g_lua_call reference_create
    write_user_data u (record d { reference = r })

  -- `Push_CBaseClient`
  unfoldable pub push_new : ℕ → Action L ⊤
  unfolding new_user_data
  push_new var = do
    u ← new_user_data var
    t ← gets (λ w. w.client_type_id)
    g_lua_do (push_user_type u t)
    init u
    create_reference u
    modify (λ w. record w { pushed = insert var u w.pushed })

  unfoldable pub push_found : ℕ → Option ℕ → Action L ⊤
  push_found var (some u) = do d ← read_user_data u; g_lua_do (reference_push d.reference)
  push_found var none = push_new var

  unfoldable pub push_client : ℕ → Action L ⊤
  unfolding push_found
  push_client var w =
      (if var == 0 then g_lua_do push_nil else push_found var (lookup var w.pushed)) w

  -- `LuaUserData::~LuaUserData`
  unfoldable pub release_reference : UserData → Action L ⊤
  unfolding ◌>>=◌
  release_reference d w =
      (if not (eqb_ℤ d.reference minus_one) && w.lua_set
          then (do
            g_lua_do (reference_push d.reference)
            g_lua_do (set_user_type minus_one 0)
            g_lua_do (pop 1)
            g_lua_do (reference_free d.reference))
          else pure tt)
        w

  unfoldable pub release_table : UserData → Action L ⊤
  unfolding ◌>>=◌
  release_table d w =
      (if not (eqb_ℤ d.table_reference minus_one) && w.lua_set
          then g_lua_do (reference_free d.table_reference)
          else pure tt)
        w

  unfoldable pub destroy : ℕ → Action L ⊤
  destroy u w =
      (if w.main_thread
          then (do
            d ← read_user_data u
            release_reference d
            release_table d
            write_user_data u (record d {
              reference = minus_one;
              table_reference = minus_one;
              additional_data = pos 0;
            }))
          else note Note.delete_off_main_thread)
        w

  -- `Delete_CBaseClient`: the object's storage is freed even where its destructor returned early.
  unfoldable pub delete_found : ℕ → Option ℕ → Action L ⊤
  delete_found var none = pure tt
  delete_found var (some u) = do
    destroy u
    free_user_data u
    modify (λ w. record w { pushed = erase var w.pushed })

  unfoldable pub delete_client : ℕ → Action L ⊤
  unfolding delete_found
  delete_client var w = delete_found var (lookup var w.pushed) w

  -- `Get_CBaseClient_Data`: the box at a stack position, or NULL; it raises if asked to.
  unfoldable pub check_box : ℕ → Bool → Action L ℕ
  unfolding ◌>>=◌
  check_box u raises = do
    null ← (if u == 0 then pure true else (do d ← read_user_data u; pure (d.object == 0)))
    if null && raises then raise (lua_error "Tried to use a NULL CBaseClient!") else pure u

  unfoldable pub get_client_data : ℤ → Bool → Action L ℕ
  unfolding check_box
  get_client_data position raises = do
    t ← gets (λ w. w.client_type_id)
    found ← g_lua_get (get_type position)
    if not (eqb_ℤ found t)
        then (if raises
            then raise (lua_error "Tried to use something that wasn't a CBaseClient!")
            else pure 0)
        else (do u ← g_lua_get (get_user_type position t); check_box u raises)

  -- `Get_CBaseClient`
  unfoldable pub get_client : ℤ → Bool → Action L ℕ
  unfolding get_client_data
  get_client position raises = do
    u ← get_client_data position raises
    if u == 0 then pure 0 else (do d ← read_user_data u; pure d.object)
