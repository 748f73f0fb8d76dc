-- ===== src/Messages/SvcPlay.antt =====
-- The messages from the server during play, `SVC_*` of source/sourcesdk/netmessages.h.
use gmod_queue.Base.{true, false, [], ◌∷◌}
use gmod_queue.Messages.{Declaration, Group, handler, field}

-- `SVC_Sounds`
abbrev pub sounds : Declaration
sounds = record {
  name = "svc_Sounds";
  number = 17;
  group = Group.sounds;
  reliable = true;
  members =
      handler
      ∷ field "bool" "m_bReliableSound"
      ∷ field "int" "m_nNumSounds"
      ∷ field "int" "m_nLength"
      ∷ field "bf_read" "m_DataIn"
      ∷ field "bf_write" "m_DataOut"
      ∷ [];
}

-- `SVC_Prefetch`
abbrev pub prefetch : Declaration
prefetch = record {
  name = "svc_Prefetch";
  number = 28;
  group = Group.sounds;
  reliable = true;
  members =
      handler ∷ field "unsigned short" "m_fType" ∷ field "unsigned short" "m_nSoundIndex" ∷ [];
}

-- `SVC_SetView`
abbrev pub set_view : Declaration
set_view = record {
  name = "svc_SetView";
  number = 18;
  group = Group.generic;
  reliable = true;
  members = handler ∷ field "int" "m_nEntityIndex" ∷ [];
}

-- `SVC_FixAngle`
abbrev pub fix_angle : Declaration
fix_angle = record {
  name = "svc_FixAngle";
  number = 19;
  group = Group.generic;
  reliable = false;
  members = handler ∷ field "bool" "m_bRelative" ∷ field "QAngle" "m_Angle" ∷ [];
}

-- `SVC_CrosshairAngle`
abbrev pub crosshair_angle : Declaration
crosshair_angle = record {
  name = "svc_CrosshairAngle";
  number = 20;
  group = Group.generic;
  reliable = true;
  members = handler ∷ field "QAngle" "m_Angle" ∷ [];
}

-- `SVC_BSPDecal`
abbrev pub bsp_decal : Declaration
bsp_decal = record {
  name = "svc_BSPDecal";
  number = 21;
  group = Group.generic;
  reliable = true;
  members =
      handler
      ∷ field "Vector" "m_Pos"
      ∷ field "int" "m_nDecalTextureIndex"
      ∷ field "int" "m_nEntityIndex"
      ∷ field "int" "m_nModelIndex"
      ∷ field "bool" "m_bLowPriority"
      ∷ [];
}

-- `SVC_GameEvent`
abbrev pub game_event : Declaration
game_event = record {
  name = "svc_GameEvent";
  number = 25;
  group = Group.events;
  reliable = true;
  members =
      handler
      ∷ field "int" "m_nLength"
      ∷ field "bf_read" "m_DataIn"
      ∷ field "bf_write" "m_DataOut"
      ∷ [];
}

-- `SVC_UserMessage`
abbrev pub user_message : Declaration
user_message = record {
  name = "svc_UserMessage";
  number = 23;
  group = Group.usermessages;
  reliable = false;
  members =
      handler
      ∷ field "int" "m_nMsgType"
      ∷ field "int" "m_nLength"
      ∷ field "bf_read" "m_DataIn"
      ∷ field "bf_write" "m_DataOut"
      ∷ [];
}

-- `SVC_EntityMessage`
abbrev pub entity_message : Declaration
entity_message = record {
  name = "svc_EntityMessage";
  number = 24;
  group = Group.entmessages;
  reliable = false;
  members =
      handler
      ∷ field "int" "m_nEntityIndex"
      ∷ field "int" "m_nClassID"
      ∷ field "int" "m_nLength"
      ∷ field "bf_read" "m_DataIn"
      ∷ field "bf_write" "m_DataOut"
      ∷ [];
}

-- `SVC_PacketEntities`
abbrev pub packet_entities : Declaration
packet_entities = record {
  name = "svc_PacketEntities";
  number = 26;
  group = Group.entities;
  reliable = true;
  members =
      handler
      ∷ field "int" "m_nMaxEntries"
      ∷ field "int" "m_nUpdatedEntries"
      ∷ field "bool" "m_bIsDelta"
      ∷ field "bool" "m_bUpdateBaseline"
      ∷ field "int" "m_nBaseline"
      ∷ field "int" "m_nDeltaFrom"
      ∷ field "int" "m_nLength"
      ∷ field "bf_read" "m_DataIn"
      ∷ field "bf_write" "m_DataOut"
      ∷ [];
}

-- `SVC_TempEntities`
abbrev pub temp_entities : Declaration
temp_entities = record {
  name = "svc_TempEntities";
  number = 27;
  group = Group.events;
  reliable = false;
  members =
      handler
      ∷ field "int" "m_nNumEntries"
      ∷ field "int" "m_nLength"
      ∷ field "bf_read" "m_DataIn"
      ∷ field "bf_write" "m_DataOut"
      ∷ [];
}
