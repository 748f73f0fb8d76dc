-- ===== src/Engine/Server.antt =====
-- `CBaseServer` (source/sourcesdk/baseserver.h): its state, its client list and the accessors.
use gmod_queue.Base.{ℕ, Bool, true, false, Option, List, length, get_elem?}

-- `server_state_t`
pub data ServerState : Type 0 where
  dead loading active paused : ServerState

pub record Server : Type 0 where
  pub state : ServerState
  pub clients : List ℕ
  pub max_clients : ℕ
  pub tick_count : ℕ
  pub spawn_count : ℕ

-- `m_State >= ss_active`
abbrev pub is_active_state : ServerState → Bool
is_active_state ServerState.dead = false
is_active_state ServerState.loading = false
is_active_state ServerState.active = true
is_active_state ServerState.paused = true

abbrev pub is_server_active : Server → Bool
is_server_active s = is_active_state s.state

abbrev pub get_client_count : Server → ℕ
get_client_count s = length s.clients

-- `m_Clients[index]`; `none` is a read past the end of the vector.
abbrev pub get_client : Server → ℕ → Option ℕ
get_client s i = get_elem? s.clients i
