-- ===== src/Messages/Object.antt =====
-- A message object in memory: `CNetMessage` (source/sourcesdk/netmessages.h) and the members that
-- its class adds.
use mathlib.Core.Option
use gmod_queue.Base.{ℕ, Bool, String, update}
use gmod_queue.Messages.{Group, handler_place}
use gmod_queue.Messages.Classes.{MessageClass, declaration}

-- `member i` is what the storage of the class's `i`th own member holds, if it is a pointer.
pub record NetMessage : Type 0 where
  pub class : MessageClass
  pub reliable : Bool
  pub net_channel : ℕ
  pub member : ℕ → ℕ

-- A new object, in storage that held `memory`: the constructors set `m_bReliable`, and the channel
-- to NULL.
abbrev pub new_message : MessageClass → (ℕ → ℕ) → NetMessage
new_message c memory = record {
  class = c;
  reliable = (declaration c).reliable;
  net_channel = 0;
  member = memory;
}

abbrev pub get_type : NetMessage → ℕ
get_type m = (declaration m.class).number

abbrev pub get_group : NetMessage → Group
get_group m = (declaration m.class).group

abbrev pub is_reliable : NetMessage → Bool
is_reliable m = m.reliable

abbrev pub set_reliable : Bool → NetMessage → NetMessage
set_reliable state m = record m { reliable = state }

abbrev pub get_net_channel : NetMessage → ℕ
get_net_channel m = m.net_channel

abbrev pub set_net_channel : ℕ → NetMessage → NetMessage
set_net_channel chan m = record m { net_channel = chan }

-- A write through a pointer to another class derived from `CNetMessage`, at the place where that
-- class has its `i`th own member.
abbrev pub set_member : ℕ → ℕ → NetMessage → NetMessage
set_member i v m = record m { member = update m.member i v }

-- `m_pMessageHandler`
abbrev pub message_handler : NetMessage → Option.Option ℕ
message_handler m = Option.map m.member (handler_place (declaration m.class).members)

-- `Process()`: the object whose `Process...` function is called, and for which class. `none` is
-- `CNetMessage::Process`, which asserts and answers false.
abbrev pub process : NetMessage → Option.Option (ℕ × String)
process m = Option.map (λ h. (h, (declaration m.class).name)) (message_handler m)
