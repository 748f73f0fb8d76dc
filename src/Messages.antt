-- ===== src/Messages.antt =====
-- Net messages as their classes declare them (source/sourcesdk/netmessages.h), and a message in
-- memory. The number of each class is in source/sourcesdk/protocol.h.
pub mod Net
pub mod Clc
pub mod SvcSetup
pub mod SvcPlay
pub mod Mm
pub mod Classes
pub mod Object
pub mod Casts
use gmod_queue.Base.{ℕ, suc, Bool, String, List, [], ◌∷◌, Option, none, some}

-- The groups of `INetChannelInfo`, in which traffic is counted, that the classes name.
pub data Group : Type 0 where
  generic sounds events usermessages entmessages voice stringtable move stringcmd signon entities :
      Group

-- A data member: `m_pMessageHandler`, which the `DECLARE_*_MESSAGE` macros declare, or a type and
-- a name.
pub data Member : Type 0 where
  handler : Member
  field : String → String → Member

-- What a class derived from `CNetMessage` declares: `GetName()`, `GetType()`, `GetGroup()`, the
-- `m_bReliable` that its constructors leave, and its data members in the order in which they
-- follow those of `CNetMessage`. What the constructors store in these members is left out. The
-- replay code is compiled out, and the protocol is later than version 10.
pub record Declaration : Type 0 where
  pub name : String
  pub number : ℕ
  pub group : Group
  pub reliable : Bool
  pub members : List Member

-- The place of `m_pMessageHandler` among the members, if the class has one.
abbrev pub handler_place : List Member → Option ℕ
handler_place [] = none
handler_place (handler ∷ ms) = some 0
handler_place (field t n ∷ ms) = elim (handler_place ms) [ none ↦ none | some i ↦ some (suc i) ]
