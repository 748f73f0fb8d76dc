-- ===== src/Messages/Clc.antt =====
-- The messages from a client to the server, `CLC_*` of source/sourcesdk/netmessages.h.
use gmod_queue.Base.{true, false, [], ◌∷◌}
use gmod_queue.Messages.{Declaration, Group, handler, field}

-- `CLC_ClientInfo`
abbrev pub client_info : Declaration
client_info = record {
  name = "clc_ClientInfo";
  number = 8;
  group = Group.generic;
  reliable = true;
  members =
      handler
      ∷ field "CRC32_t" "m_nSendTableCRC"
      ∷ field "int" "m_nServerCount"
      ∷ field "bool" "m_bIsHLTV"
      ∷ field "uint32" "m_nFriendsID"
      ∷ field "char[MAX_PLAYER_NAME_LENGTH]" "m_FriendsName"
      ∷ field "CRC32_t[MAX_CUSTOM_FILES]" "m_nCustomFiles"
      ∷ [];
}

-- `CLC_Move`
abbrev pub move : Declaration
move = record {
  name = "clc_Move";
  number = 9;
  group = Group.move;
  reliable = false;
  members =
      handler
      ∷ field "int" "m_nBackupCommands"
      ∷ field "int" "m_nNewCommands"
      ∷ field "int" "m_nLength"
      ∷ field "bf_read" "m_DataIn"
      ∷ field "bf_write" "m_DataOut"
      ∷ [];
}

-- `CLC_VoiceData`
abbrev pub voice_data : Declaration
voice_data = record {
  name = "clc_VoiceData";
  number = 10;
  group = Group.voice;
  reliable = false;
  members =
      handler
      ∷ field "int" "m_nLength"
      ∷ field "bf_read" "m_DataIn"
      ∷ field "bf_write" "m_DataOut"
      ∷ field "uint64" "m_xuid"
      ∷ [];
}

-- `CLC_BaselineAck`
abbrev pub baseline_ack : Declaration
baseline_ack = record {
  name = "clc_BaselineAck";
  number = 11;
  group = Group.entities;
  reliable = true;
  members = handler ∷ field "int" "m_nBaselineTick" ∷ field "int" "m_nBaselineNr" ∷ [];
}

-- `CLC_ListenEvents`
abbrev pub listen_events : Declaration
listen_events = record {
  name = "clc_ListenEvents";
  number = 12;
  group = Group.signon;
  reliable = true;
  members = handler ∷ field "CBitVec<MAX_EVENT_NUMBER>" "m_EventArray" ∷ [];
}

-- `CLC_RespondCvarValue`
abbrev pub respond_cvar_value : Declaration
respond_cvar_value = record {
  name = "clc_RespondCvarValue";
  number = 13;
  group = Group.generic;
  reliable = true;
  members =
      handler
      ∷ field "QueryCvarCookie_t" "m_iCookie"
      ∷ field "const char *" "m_szCvarName"
      ∷ field "const char *" "m_szCvarValue"
      ∷ field "EQueryCvarValueStatus" "m_eStatusCode"
      ∷ field "char[256]" "m_szCvarNameBuffer"
      ∷ field "char[256]" "m_szCvarValueBuffer"
      ∷ [];
}

-- `CLC_FileCRCCheck`
abbrev pub file_crc_check : Declaration
file_crc_check = record {
  name = "clc_FileCRCCheck";
  number = 14;
  group = Group.generic;
  reliable = true;
  members =
      handler
      ∷ field "char[MAX_PATH]" "m_szPathID"
      ∷ field "char[MAX_PATH]" "m_szFilename"
      ∷ field "MD5Value_t" "m_MD5"
      ∷ field "CRC32_t" "m_CRCIOs"
      ∷ field "int" "m_eFileHashType"
      ∷ field "int" "m_cbFileLen"
      ∷ field "int" "m_nPackFileNumber"
      ∷ field "int" "m_PackFileID"
      ∷ field "int" "m_nFileFraction"
      ∷ [];
}

-- `CLC_FileMD5Check`
abbrev pub file_md5_check : Declaration
file_md5_check = record {
  name = "clc_FileMD5Check";
  number = 17;
  group = Group.generic;
  reliable = true;
  members =
      handler
      ∷ field "char[MAX_PATH]" "m_szPathID"
      ∷ field "char[MAX_PATH]" "m_szFilename"
      ∷ field "MD5Value_t" "m_MD5"
      ∷ [];
}

-- `CLC_CmdKeyValues`
abbrev pub cmd_key_values : Declaration
cmd_key_values = record {
  name = "clc_CmdKeyValues";
  number = 16;
  group = Group.generic;
  reliable = true;
  members = field "KeyValues *" "m_pKeyValues" ∷ handler ∷ [];
}

-- `CLC_GMod_ClientToServer`
abbrev pub gmod_client_to_server : Declaration
gmod_client_to_server = record {
  name = "GMod_ClientToServer";
  number = 18;
  group = Group.generic;
  reliable = true;
  members = field "int" "magic" ∷ field "bf_read" "m_DataIn" ∷ [];
}
