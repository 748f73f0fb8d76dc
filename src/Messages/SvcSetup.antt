-- ===== src/Messages/SvcSetup.antt =====
-- The messages from the server that set a client up, `SVC_*` of source/sourcesdk/netmessages.h.
use gmod_queue.Base.{true, false, [], ◌∷◌}
use gmod_queue.Messages.{Declaration, Group, handler, field}

-- `SVC_CmdKeyValues`
abbrev pub cmd_key_values : Declaration
cmd_key_values = record {
  name = "svc_CmdKeyValues";
  number = 32;
  group = Group.generic;
  reliable = true;
  members = field "KeyValues *" "m_pKeyValues" ∷ handler ∷ [];
}

-- `SVC_Print`
abbrev pub print : Declaration
print = record {
  name = "svc_Print";
  number = 7;
  group = Group.generic;
  reliable = false;
  members = handler ∷ field "const char *" "m_szText" ∷ field "char[2048]" "m_szTextBuffer" ∷ [];
}

-- `SVC_ServerInfo`
abbrev pub server_info : Declaration
server_info = record {
  name = "svc_ServerInfo";
  number = 8;
  group = Group.signon;
  reliable = true;
  members =
      handler
      ∷ field "int" "m_nProtocol"
      ∷ field "int" "m_nServerCount"
      ∷ field "bool" "m_bIsDedicated"
      ∷ field "bool" "m_bIsHLTV"
      ∷ field "char" "m_cOS"
      ∷ field "CRC32_t" "m_nMapCRC"
      ∷ field "MD5Value_t" "m_nMapMD5"
      ∷ field "int" "m_nMaxClients"
      ∷ field "int" "m_nMaxClasses"
      ∷ field "int" "m_nPlayerSlot"
      ∷ field "float" "m_fTickInterval"
      ∷ field "const char *" "m_szGameDir"
      ∷ field "const char *" "m_szMapName"
      ∷ field "const char *" "m_szSkyName"
      ∷ field "const char *" "m_szHostName"
      ∷ field "char[MAX_OSPATH]" "m_szGameDirBuffer"
      ∷ field "char[MAX_OSPATH]" "m_szMapNameBuffer"
      ∷ field "char[MAX_OSPATH]" "m_szSkyNameBuffer"
      ∷ field "char[MAX_OSPATH]" "m_szHostNameBuffer"
      ∷ [];
}

-- `SVC_SendTable`
abbrev pub send_table : Declaration
send_table = record {
  name = "svc_SendTable";
  number = 9;
  group = Group.signon;
  reliable = true;
  members =
      handler
      ∷ field "bool" "m_bNeedsDecoder"
      ∷ field "int" "m_nLength"
      ∷ field "bf_read" "m_DataIn"
      ∷ field "bf_write" "m_DataOut"
      ∷ [];
}

-- `SVC_ClassInfo`
abbrev pub class_info : Declaration
class_info = record {
  name = "svc_ClassInfo";
  number = 10;
  group = Group.signon;
  reliable = true;
  members =
      handler
      ∷ field "bool" "m_bCreateOnClient"
      ∷ field "CUtlVector<class_t>" "m_Classes"
      ∷ field "int" "m_nNumServerClasses"
      ∷ [];
}

-- `SVC_SetPause`
abbrev pub set_pause : Declaration
set_pause = record {
  name = "svc_SetPause";
  number = 11;
  group = Group.generic;
  reliable = true;
  members = handler ∷ field "bool" "m_bPaused" ∷ [];
}

-- `SVC_CreateStringTable`
abbrev pub create_string_table : Declaration
create_string_table = record {
  name = "svc_CreateStringTable";
  number = 12;
  group = Group.signon;
  reliable = true;
  members =
      handler
      ∷ field "const char *" "m_szTableName"
      ∷ field "int" "m_nMaxEntries"
      ∷ field "int" "m_nNumEntries"
      ∷ field "bool" "m_bUserDataFixedSize"
      ∷ field "int" "m_nUserDataSize"
      ∷ field "int" "m_nUserDataSizeBits"
      ∷ field "bool" "m_bIsFilenames"
      ∷ field "int" "m_nLength"
      ∷ field "bf_read" "m_DataIn"
      ∷ field "bf_write" "m_DataOut"
      ∷ field "bool" "m_bDataCompressed"
      ∷ field "char[256]" "m_szTableNameBuffer"
      ∷ [];
}

-- `SVC_UpdateStringTable`
abbrev pub update_string_table : Declaration
update_string_table = record {
  name = "svc_UpdateStringTable";
  number = 13;
  group = Group.stringtable;
  reliable = true;
  members =
      handler
      ∷ field "int" "m_nTableID"
      ∷ field "int" "m_nChangedEntries"
      ∷ field "int" "m_nLength"
      ∷ field "bf_read" "m_DataIn"
      ∷ field "bf_write" "m_DataOut"
      ∷ [];
}

-- `SVC_VoiceInit`
abbrev pub voice_init : Declaration
voice_init = record {
  name = "svc_VoiceInit";
  number = 14;
  group = Group.signon;
  reliable = true;
  members = handler ∷ field "char[MAX_OSPATH]" "m_szVoiceCodec" ∷ field "int" "m_nSampleRate" ∷ [];
}

-- `SVC_VoiceData`
abbrev pub voice_data : Declaration
voice_data = record {
  name = "svc_VoiceData";
  number = 15;
  group = Group.voice;
  reliable = false;
  members =
      handler
      ∷ field "int" "m_nFromClient"
      ∷ field "bool" "m_bProximity"
      ∷ field "int" "m_nLength"
      ∷ field "uint64" "m_xuid"
      ∷ field "bf_read" "m_DataIn"
      ∷ field "void *" "m_DataOut"
      ∷ [];
}

-- `SVC_Menu`
abbrev pub menu : Declaration
menu = record {
  name = "svc_Menu";
  number = 29;
  group = Group.generic;
  reliable = true;
  members =
      handler
      ∷ field "KeyValues *" "m_MenuKeyValues"
      ∷ field "DIALOG_TYPE" "m_Type"
      ∷ field "int" "m_iLength"
      ∷ [];
}

-- `SVC_GameEventList`
abbrev pub game_event_list : Declaration
game_event_list = record {
  name = "svc_GameEventList";
  number = 30;
  group = Group.generic;
  reliable = true;
  members =
      handler
      ∷ field "int" "m_nNumEvents"
      ∷ field "int" "m_nLength"
      ∷ field "bf_read" "m_DataIn"
      ∷ field "bf_write" "m_DataOut"
      ∷ [];
}

-- `SVC_GetCvarValue`
abbrev pub get_cvar_value : Declaration
get_cvar_value = record {
  name = "svc_GetCvarValue";
  number = 31;
  group = Group.generic;
  reliable = true;
  members =
      handler
      ∷ field "QueryCvarCookie_t" "m_iCookie"
      ∷ field "const char *" "m_szCvarName"
      ∷ field "char[256]" "m_szCvarNameBuffer"
      ∷ [];
}
