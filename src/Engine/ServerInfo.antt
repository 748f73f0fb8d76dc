-- ===== src/Engine/ServerInfo.antt =====
-- `SVC_ServerInfo` (source/sourcesdk/netmessages.h).
use gmod_queue.Base.{ℕ, ℤ, Bool, String}

pub record ServerInfo : Type 0 where
  pub protocol : ℤ
  pub server_count : ℤ
  pub is_dedicated : Bool
  pub is_hltv : Bool
  pub os : ℕ
  pub map_crc : ℕ
  pub map_md5 : ℕ
  pub max_clients : ℤ
  pub max_classes : ℤ
  pub player_slot : ℤ
  pub tick_interval : ℕ
  pub game_dir : String
  pub map_name : String
  pub sky_name : String
  pub host_name : String
