-- ===== src/GameServer.antt =====
-- The library that Lua code asks for clients (source/queue.cpp, `gameserver_GetClient` and
-- `gameserver_GetAll`).
pub mod Clients
pub mod Listing
pub mod Frame
use gmod_queue.Base.{
  ℕ, suc, ℤ, pos, negsuc, ◌==◌, ⊤, Bool, false, not, List, [], ◌∷◌, leb_ℤ, cast_int, if◌then◌else◌,
}
use gmod_queue.Engine.Client.{is_connected}
use gmod_queue.Engine.Server.{is_server_active, get_client_count}
use gmod_queue.World.State.{World}
use gmod_queue.World.Host.{Host}
use gmod_queue.World.Monad.{Action, lua_error, pure, or_raise, ◌>>=◌, ◌>>◌}
use gmod_queue.World.Memory.{read_client}
use gmod_queue.World.Interp.{lua_do, lua_get}
use gmod_queue.Util.{deref_server, client_at}
use gmod_queue.UserData.{push_client}
use gmod_queue.ClientApi.{bad_argument, is_connected_at}

-- `Util::server && Util::server->IsActive()`
abbrev pub is_running : {L : Type 0} → World L → Bool
is_running w = if w.server == 0 then false else is_server_active w.server_object

module _ {L : Type 0} ⦃host : Host L⦄ where
  open host use {push_number, create_table, raw_set, check_number}

  -- The part of `GetClient` after its guards: a client that is not connected is pushed as nil.
  unfoldable pub push_connected : ℤ → Action L ℕ
  push_connected index = do
    s ← deref_server
    p ← client_at s index
    connected ← is_connected_at p
    push_client (if connected then p else 0)
    pure 1

  unfoldable pub get_client_running : Action L ℕ
  get_client_running = do
    n ← lua_get (check_number (pos 1))
    number ← or_raise n (lua_error bad_argument)
    s ← deref_server
    if leb_ℤ (pos (get_client_count s)) (cast_int number)
        then pure 0
        else push_connected (cast_int number)

  unfoldable pub server_get_client : Action L ℕ
  server_get_client w = (if not (is_running w) then pure 0 else get_client_running) w

  -- A connected client goes into the table at the next index, which is returned.
  unfoldable pub enlist : ℕ → ℕ → Action L ℕ
  enlist index p = do
    lua_do (push_number (pos (suc index)))
    push_client p
    lua_do (raw_set (negsuc 2))
    pure (suc index)

  unfoldable pub visit : ℕ → ℕ → Action L ℕ
  visit index p = do c ← read_client p; if not (is_connected c) then pure index else enlist index p

  -- The loop of `GetAll` over the clients that are left.
  unfoldable pub list_clients : ℕ → List ℕ → Action L ℕ
  list_clients index [] = pure index
  list_clients index (p ∷ ps) = do next ← visit index p; list_clients next ps

  unfoldable pub list_running : Action L ℕ
  list_running = do s ← deref_server; list_clients 0 s.clients; pure 1

  unfoldable pub server_get_all : Action L ℕ
  server_get_all = do
    lua_do create_table
    λ w. (if not (is_running w) then pure 1 else list_running) w
