-- ===== src/ClientApi.antt =====
-- The methods of a client in Lua (source/queue.cpp, `CBaseClient_*` and `CGameClient__tostring`,
-- and the `Default__index` and `Default__newindex` of source/util.h). A method returns how many
-- values on the stack are its results.
pub mod Handle
pub mod Methods
pub mod Table
pub mod Fields
pub mod Frame
use gmod_queue.Base.{
  ℕ, ℤ, pos, negsuc, minus_one, ◌==◌, ⊤, Bool, true, false, not, ◌||◌, String, Option, eqb_ℤ,
  cast_int, if◌then◌else◌,
}
use gmod_queue.Engine.Client.{
  Client, get_player_slot, get_user_id, get_client_name, is_connected, is_spawned, is_active,
  is_fake_client,
}
use gmod_queue.World.State.{World, UserData}
use gmod_queue.World.Host.{Host}
use gmod_queue.World.Monad.{Action, lua_error, pure, gets, call, modify, or_raise, ◌>>=◌, ◌>>◌}
use gmod_queue.World.Memory.{read_client, change_client, read_user_data, write_user_data}
use gmod_queue.World.Interp.{lua_do, lua_get, lua_call}
use gmod_queue.UserData.{get_client, get_client_data}
use gmod_queue.Hooks.{hook_set_signon_state, minus_two}

abbrev pub minus_three : ℤ
minus_three = negsuc 2

-- What `CheckNumber` and `CheckString` raise; the text is the interpreter's.
abbrev pub bad_argument : String
bad_argument = "bad argument"

module _ {L : Type 0} ⦃host : Host L⦄ where
  open host use {
    push_nil, push_number, push_string, push_bool, push_value, create_table, pop, remove, raw_set,
    reference_create, reference_push, reference_free, find_on_objects_meta_table,
    find_object_on_table, check_number, get_number, get_bool, check_string, reconnect, disconnect,
    client_printf, get_network_id_string, print_client,
  }

  -- The methods that push a number or a Boolean read from the client.
  unfoldable pub push_number_of : (Client → ℤ) → Action L ℕ
  push_number_of f = do
    p ← get_client (pos 1) true
    c ← read_client p
    lua_do (push_number (f c))
    pure 1

  unfoldable pub push_bool_of : (Client → Bool) → Action L ℕ
  push_bool_of f = do
    p ← get_client (pos 1) true
    c ← read_client p
    lua_do (push_bool (f c))
    pure 1

  abbrev pub client_get_player_slot : Action L ℕ
  client_get_player_slot = push_number_of get_player_slot

  abbrev pub client_get_user_id : Action L ℕ
  client_get_user_id = push_number_of get_user_id

  abbrev pub client_get_signon_state : Action L ℕ
  client_get_signon_state = push_number_of λ c. c.signon_state

  abbrev pub client_is_connected : Action L ℕ
  client_is_connected = push_bool_of is_connected

  abbrev pub client_is_spawned : Action L ℕ
  client_is_spawned = push_bool_of is_spawned

  abbrev pub client_is_active : Action L ℕ
  client_is_active = push_bool_of is_active

  abbrev pub client_is_fake_client : Action L ℕ
  client_is_fake_client = push_bool_of is_fake_client

  unfoldable pub client_get_name : Action L ℕ
  client_get_name = do
    p ← get_client (pos 1) true
    c ← read_client p
    lua_do (push_string (get_client_name c))
    pure 1

  unfoldable pub client_get_steam_id : Action L ℕ
  client_get_steam_id = do
    p ← get_client (pos 1) true
    id ← gets (get_network_id_string p)
    lua_do (push_string id)
    pure 1

  unfoldable pub client_reconnect : Action L ℕ
  client_reconnect = do p ← get_client (pos 1) true; modify (reconnect p); pure 0

  unfoldable pub client_client_print : Action L ℕ
  client_client_print = do
    p ← get_client (pos 1) true
    s ← lua_get (check_string (pos 2))
    text ← or_raise s (lua_error bad_argument)
    modify (client_printf p text)
    pure 0

  unfoldable pub client_disconnect : Action L ℕ
  client_disconnect = do
    p ← get_client (pos 1) true
    s ← lua_get (check_string (pos 2))
    reason ← or_raise s (lua_error bad_argument)
    modify (disconnect p reason)
    pure 0

  -- `pClient != NULL && pClient->IsConnected()`
  unfoldable pub is_connected_at : ℕ → Action L Bool
  is_connected_at p = if p == 0 then pure false else (do c ← read_client p; pure (is_connected c))

  unfoldable pub client_is_valid : Action L ℕ
  client_is_valid = do
    p ← get_client (pos 1) false
    connected ← is_connected_at p
    lua_do (push_bool connected)
    pure 1

  -- `CGameClient__tostring`
  unfoldable pub client_to_string : Action L ℕ
  client_to_string = do
    p ← get_client (pos 1) false
    connected ← is_connected_at p
    if not connected then lua_do (push_string "GameClient [NULL]") else (do
      c ← read_client p
      lua_do (
          push_string
            (print_client 128 "GameClient [%i][%s]" (get_player_slot c) (get_client_name c))))
    pure 1

  -- `SetSignonState` after its arguments were read. The engine's function is the detoured one.
  unfoldable pub set_state_of : ℕ → ℤ → ℤ → Bool → Action L ℕ
  set_state_of p state spawncount raw =
      if p == 0
      then (do lua_do (push_bool false); pure 1)
      else if raw
      then (do
        change_client p (λ c. record c { signon_state = state })
        lua_do (push_bool true)
        pure 1)
      else (do done ← hook_set_signon_state p state spawncount; lua_do (push_bool done); pure 1)

  unfoldable pub client_set_signon_state : Action L ℕ
  client_set_signon_state = do
    p ← get_client (pos 1) true
    n ← lua_get (check_number (pos 2))
    state ← or_raise n (lua_error bad_argument)
    count ← lua_get (get_number (pos 3))
    raw ← lua_get (get_bool (pos 4))
    set_state_of p (cast_int state) (cast_int count) raw

  -- `GetTable`: the table of a player that has left is not handed to the next one at its slot.
  unfoldable pub refresh_table : ℕ → UserData → ℤ → Action L ⊤
  refresh_table u d user_id = do
    lua_do (reference_free d.table_reference)
    lua_do create_table
    r ← lua_call reference_create
    write_user_data u (record d { table_reference = r; additional_data = user_id })

  unfoldable pub client_get_table : Action L ℕ
  client_get_table = do
    u ← get_client_data (pos 1) true
    d ← read_user_data u
    c ← read_client d.object
    if not (eqb_ℤ d.additional_data (get_user_id c))
        then refresh_table u d (get_user_id c)
        else pure tt
    e ← read_user_data u
    lua_do (reference_push e.table_reference)
    pure 1

  -- `Default__index`
  unfoldable pub client_index : Action L ℕ
  client_index = do
    found ← lua_call (find_on_objects_meta_table (pos 1) (pos 2))
    if found then pure 1 else (do
      lua_do (pop 1)
      u ← get_client_data (pos 1) true
      d ← read_user_data u
      lua_do (reference_push d.table_reference)
      own ← lua_call (find_object_on_table minus_one (pos 2))
      if own then pure tt else lua_do push_nil
      lua_do (remove minus_two)
      pure 1)

  -- `Default__newindex`
  unfoldable pub client_new_index : Action L ℕ
  client_new_index = do
    u ← get_client_data (pos 1) true
    d ← read_user_data u
    lua_do (reference_push d.table_reference)
    lua_do (push_value (pos 2))
    lua_do (push_value (pos 3))
    lua_do (raw_set minus_three)
    lua_do (pop 1)
    pure 0
