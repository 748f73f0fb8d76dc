-- ===== src/Engine/NetChan.antt =====
-- `CNetChan` (source/sourcesdk/net_chan.h), as far as the plugin touches it.
use gmod_queue.Base.{ℕ, List}
use gmod_queue.Messages.Object.{NetMessage}

pub record NetChan : Type 0 where
  pub message_handler : ℕ
  pub net_messages : List NetMessage
