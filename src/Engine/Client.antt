-- ===== src/Engine/Client.antt =====
-- `CBaseClient` and `CGameClient` (source/sourcesdk/baseclient.h, sv_client.h): the fields that
-- the plugin reads or copies, and the inline accessors. Pointers are addresses, 0 is NULL; a
-- `double` or `float` is its bit pattern, since the plugin only copies these.
use gmod_queue.Base.{ℕ, ℤ, Bool, String, leb_ℤ, eqb_ℤ}
use gmod_queue.Engine.Protocol.{signonstate_connected, signonstate_new, signonstate_full}

-- What one client object hands to another when a player changes slots (besides name and state).
pub record Session : Type 0 where
  pub steam_id : ℕ
  pub friends_id : ℕ
  pub files_downloaded : ℤ
  pub signon_tick : ℤ
  pub string_table_ack_tick : ℤ
  pub delta_tick : ℤ
  pub sendtable_crc : ℕ
  pub next_message_time : ℕ
  pub snapshot_interval : ℕ
  pub force_wait_for_tick : ℤ
  pub report_fake_client : Bool
  pub received_packet : Bool
  pub fully_authenticated : Bool
  pub friends_name : String
  pub guid : String
  pub time_last_name_change : ℕ
  pub player_name_locked : Bool
  pub pending_name_change : String

pub record Client : Type 0 where
  pub client_slot : ℤ
  pub entity_index : ℤ
  pub user_id : ℤ
  pub name : String
  pub server : ℕ
  pub client_challenge : ℤ
  pub net_channel : ℕ
  pub signon_state : ℤ
  pub fake_player : Bool
  pub session : Session

abbrev pub get_player_slot : Client → ℤ
get_player_slot c = c.client_slot

abbrev pub get_user_id : Client → ℤ
get_user_id c = c.user_id

abbrev pub get_client_name : Client → String
get_client_name c = c.name

abbrev pub get_server : Client → ℕ
get_server c = c.server

-- `m_nSignonState >= SIGNONSTATE_CONNECTED`
abbrev pub is_connected : Client → Bool
is_connected c = leb_ℤ signonstate_connected c.signon_state

-- `m_nSignonState >= SIGNONSTATE_NEW`
abbrev pub is_spawned : Client → Bool
is_spawned c = leb_ℤ signonstate_new c.signon_state

-- `m_nSignonState == SIGNONSTATE_FULL`
abbrev pub is_active : Client → Bool
is_active c = eqb_ℤ c.signon_state signonstate_full

abbrev pub is_fake_client : Client → Bool
is_fake_client c = c.fake_player
