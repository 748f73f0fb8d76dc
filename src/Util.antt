-- ===== src/Util.antt =====
-- source/util.cpp: `Util::server` and the lookups of clients.
pub mod Lookup
use gmod_queue.Base.{
  ℕ, zero, suc, ℤ, pos, negsuc, ◌==◌, ⊤, Bool, true, false, not, ◌&&◌, ◌||◌, Option, none, some,
  List, [], ◌∷◌, leb_ℤ, ltb_ℤ, eqb_ℤ, if◌then◌else◌, pos_part,
}
use gmod_queue.Engine.Client.{Client, get_user_id}
use gmod_queue.Engine.Server.{Server, get_client, get_client_count}
use gmod_queue.World.State.{World, Note}
use gmod_queue.World.Monad.{
  Action, Result, ok, err, fault, pure, raise, gets, or_raise, note, modify, ◌>>=◌, ◌>>◌,
}
use gmod_queue.World.Memory.{deref}

module _ {L : Type 0} where
  -- `Util::server->...`
  abbrev pub deref_server : Action L Server
  deref_server w = (if w.server == 0 then raise fault else gets (λ v. v.server_object)) w

  -- `m_Clients[index]` at an `int`: a negative index is as far out of range as one past the end.
  abbrev pub client_at : Server → ℤ → Action L ℕ
  client_at s (pos i) = or_raise (get_client s i) fault
  client_at s (negsuc i) = raise fault

-- The loop of `GetClientByUserID` over the clients that are left.
unfoldable pub search_user_id : (ℕ → Client) → ℤ → List ℕ → ℕ
search_user_id client user_id [] = 0
search_user_id client user_id (p ∷ ps) =
    if not (p == 0) && eqb_ℤ (get_user_id (client p)) user_id
    then p
    else search_user_id client user_id ps

module _ {L : Type 0} where
  unfoldable pub get_client_by_user_id : ℤ → Action L ℕ
  unfolding ◌>>=◌
  get_client_by_user_id user_id = do
    s ← deref_server
    gets (λ w. search_user_id w.client user_id s.clients)

  unfoldable pub get_client_by_index : ℤ → Action L ℕ
  unfolding ◌>>=◌
  get_client_by_index index = do
    s ← deref_server
    if leb_ℤ (pos (get_client_count s)) index || ltb_ℤ index (pos 0)
        then pure 0
        else client_at s index

  unfoldable pub get_clients : Action L (List ℕ)
  unfolding ◌>>=◌
  get_clients = do s ← deref_server; pure s.clients

  -- `Util::AddDetour`, given what `InterfacePointers::Server()` returns.
  unfoldable pub add_detour : ℕ → Action L ⊤
  unfolding ◌>>=◌
  add_detour server = do
    modify (λ w. record w { server = server })
    if server == 0 then note (Note.failed_to "get class" "IServer") else pure tt
