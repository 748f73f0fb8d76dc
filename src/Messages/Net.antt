-- ===== src/Messages/Net.antt =====
-- The messages that go both ways, `NET_*` of source/sourcesdk/netmessages.h.
use gmod_queue.Base.{true, false, [], ◌∷◌}
use gmod_queue.Messages.{Declaration, Group, handler, field}

-- `NET_SetConVar`
abbrev pub set_con_var : Declaration
set_con_var = record {
  name = "net_SetConVar";
  number = 5;
  group = Group.stringcmd;
  reliable = true;
  members = handler ∷ field "CUtlVector<cvar_t>" "m_ConVars" ∷ [];
}

-- `NET_StringCmd`
abbrev pub string_cmd : Declaration
string_cmd = record {
  name = "net_StringCmd";
  number = 4;
  group = Group.stringcmd;
  reliable = true;
  members =
      handler ∷ field "const char *" "m_szCommand" ∷ field "char[1024]" "m_szCommandBuffer" ∷ [];
}

-- `NET_Tick`
abbrev pub tick : Declaration
tick = record {
  name = "net_Tick";
  number = 3;
  group = Group.generic;
  reliable = false;
  members =
      handler
      ∷ field "int" "m_nTick"
      ∷ field "float" "m_flHostFrameTime"
      ∷ field "float" "m_flHostFrameTimeStdDeviation"
      ∷ [];
}

-- `NET_SignonState`
abbrev pub signon_state : Declaration
signon_state = record {
  name = "net_SignonState";
  number = 6;
  group = Group.signon;
  reliable = true;
  members = handler ∷ field "int" "m_nSignonState" ∷ field "int" "m_nSpawnCount" ∷ [];
}
