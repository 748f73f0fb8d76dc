-- ===== src/Messages/Mm.antt =====
-- The matchmaking messages, `MM_*` of source/sourcesdk/netmessages.h.
use gmod_queue.Base.{true, [], ◌∷◌}
use gmod_queue.Messages.{Declaration, Group, handler, field}

-- `MM_Heartbeat`
abbrev pub heartbeat : Declaration
heartbeat = record {
  name = "mm_Heartbeat";
  number = 16;
  group = Group.generic;
  reliable = true;
  members = handler ∷ [];
}

-- `MM_ClientInfo`
abbrev pub client_info : Declaration
client_info = record {
  name = "mm_ClientInfo";
  number = 17;
  group = Group.generic;
  reliable = true;
  members =
      handler
      ∷ field "XNADDR" "m_xnaddr"
      ∷ field "uint64" "m_id"
      ∷ field "uint64[MAX_PLAYERS_PER_CLIENT]" "m_xuids"
      ∷ field "byte[MAX_PLAYERS_PER_CLIENT]" "m_cVoiceState"
      ∷ field "bool" "m_bInvited"
      ∷ field "char" "m_cPlayers"
      ∷ field "char[MAX_PLAYERS_PER_CLIENT]" "m_iControllers"
      ∷ field "char[MAX_PLAYERS_PER_CLIENT]" "m_iTeam"
      ∷ field "char[MAX_PLAYERS_PER_CLIENT][MAX_PLAYER_NAME_LENGTH]" "m_szGamertags"
      ∷ [];
}

-- `MM_RegisterResponse`
abbrev pub register_response : Declaration
register_response = record {
  name = "mm_RegisterResponse";
  number = 19;
  group = Group.generic;
  reliable = true;
  members = handler ∷ [];
}

-- `MM_Mutelist`
abbrev pub mutelist : Declaration
mutelist = record {
  name = "mm_Mutelist";
  number = 21;
  group = Group.generic;
  reliable = true;
  members =
      handler
      ∷ field "uint64" "m_id"
      ∷ field "byte" "m_cPlayers"
      ∷ field "byte[MAX_PLAYERS_PER_CLIENT]" "m_cRemoteTalkers"
      ∷ field "XUID[MAX_PLAYERS_PER_CLIENT]" "m_xuid"
      ∷ field "byte[MAX_PLAYERS_PER_CLIENT]" "m_cMuted"
      ∷ field "CUtlVector< XUID >[MAX_PLAYERS_PER_CLIENT]" "m_Muted"
      ∷ [];
}

-- `MM_Checkpoint`
abbrev pub checkpoint : Declaration
checkpoint = record {
  name = "mm_Checkpoint";
  number = 22;
  group = Group.generic;
  reliable = true;
  members = handler ∷ field "byte" "m_Checkpoint" ∷ [];
}

-- `MM_JoinResponse`
abbrev pub join_response : Declaration
join_response = record {
  name = "mm_JoinResponse";
  number = 18;
  group = Group.generic;
  reliable = true;
  members =
      handler
      ∷ field "uint" "m_ResponseType"
      ∷ field "uint64" "m_id"
      ∷ field "uint64" "m_Nonce"
      ∷ field "uint" "m_SessionFlags"
      ∷ field "uint" "m_nOwnerId"
      ∷ field "int" "m_iTeam"
      ∷ field "int" "m_nTotalTeams"
      ∷ field "int" "m_PropertyCount"
      ∷ field "int" "m_ContextCount"
      ∷ field "CUtlVector< XUSER_PROPERTY >" "m_SessionProperties"
      ∷ field "CUtlVector< XUSER_CONTEXT >" "m_SessionContexts"
      ∷ [];
}

-- `MM_Migrate`
abbrev pub migrate : Declaration
migrate = record {
  name = "mm_Migrate";
  number = 20;
  group = Group.generic;
  reliable = true;
  members =
      handler
      ∷ field "byte" "m_MsgType"
      ∷ field "uint64" "m_Id"
      ∷ field "XNKID" "m_sessionId"
      ∷ field "XNADDR" "m_xnaddr"
      ∷ field "XNKEY" "m_key"
      ∷ [];
}
