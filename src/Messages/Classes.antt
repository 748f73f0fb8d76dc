-- ===== src/Messages/Classes.antt =====
-- The message classes as an enumeration, each with its declaration; and which of them the server's
-- client objects process (source/sourcesdk/baseclient.h, sv_client.h).
use gmod_queue.Base.{Bool, true, false, ◌||◌}
use gmod_queue.Messages.{Declaration}
use gmod_queue.Messages.Net
use gmod_queue.Messages.Clc
use gmod_queue.Messages.SvcSetup
use gmod_queue.Messages.SvcPlay
use gmod_queue.Messages.Mm

pub data NetKind : Type 0 where
  set_con_var string_cmd tick signon_state : NetKind

pub data ClcKind : Type 0 where
  client_info move voice_data baseline_ack listen_events respond_cvar_value file_crc_check
        file_md5_check cmd_key_values gmod_client_to_server :
      ClcKind

pub data SvcKind : Type 0 where
  cmd_key_values print server_info send_table class_info set_pause create_string_table
        update_string_table voice_init voice_data sounds prefetch set_view fix_angle crosshair_angle
        bsp_decal game_event user_message entity_message packet_entities temp_entities menu
        game_event_list get_cvar_value :
      SvcKind

pub data MmKind : Type 0 where
  heartbeat client_info register_response mutelist checkpoint join_response migrate : MmKind

pub data MessageClass : Type 0 where
  net : NetKind → MessageClass
  clc : ClcKind → MessageClass
  svc : SvcKind → MessageClass
  mm : MmKind → MessageClass

abbrev pub declaration : MessageClass → Declaration
declaration (net NetKind.set_con_var) = Net.set_con_var
declaration (net NetKind.string_cmd) = Net.string_cmd
declaration (net NetKind.tick) = Net.tick
declaration (net NetKind.signon_state) = Net.signon_state
declaration (clc ClcKind.client_info) = Clc.client_info
declaration (clc ClcKind.move) = Clc.move
declaration (clc ClcKind.voice_data) = Clc.voice_data
declaration (clc ClcKind.baseline_ack) = Clc.baseline_ack
declaration (clc ClcKind.listen_events) = Clc.listen_events
declaration (clc ClcKind.respond_cvar_value) = Clc.respond_cvar_value
declaration (clc ClcKind.file_crc_check) = Clc.file_crc_check
declaration (clc ClcKind.file_md5_check) = Clc.file_md5_check
declaration (clc ClcKind.cmd_key_values) = Clc.cmd_key_values
declaration (clc ClcKind.gmod_client_to_server) = Clc.gmod_client_to_server
declaration (svc SvcKind.cmd_key_values) = SvcSetup.cmd_key_values
declaration (svc SvcKind.print) = SvcSetup.print
declaration (svc SvcKind.server_info) = SvcSetup.server_info
declaration (svc SvcKind.send_table) = SvcSetup.send_table
declaration (svc SvcKind.class_info) = SvcSetup.class_info
declaration (svc SvcKind.set_pause) = SvcSetup.set_pause
declaration (svc SvcKind.create_string_table) = SvcSetup.create_string_table
declaration (svc SvcKind.update_string_table) = SvcSetup.update_string_table
declaration (svc SvcKind.voice_init) = SvcSetup.voice_init
declaration (svc SvcKind.voice_data) = SvcSetup.voice_data
declaration (svc SvcKind.sounds) = SvcPlay.sounds
declaration (svc SvcKind.prefetch) = SvcPlay.prefetch
declaration (svc SvcKind.set_view) = SvcPlay.set_view
declaration (svc SvcKind.fix_angle) = SvcPlay.fix_angle
declaration (svc SvcKind.crosshair_angle) = SvcPlay.crosshair_angle
declaration (svc SvcKind.bsp_decal) = SvcPlay.bsp_decal
declaration (svc SvcKind.game_event) = SvcPlay.game_event
declaration (svc SvcKind.user_message) = SvcPlay.user_message
declaration (svc SvcKind.entity_message) = SvcPlay.entity_message
declaration (svc SvcKind.packet_entities) = SvcPlay.packet_entities
declaration (svc SvcKind.temp_entities) = SvcPlay.temp_entities
declaration (svc SvcKind.menu) = SvcSetup.menu
declaration (svc SvcKind.game_event_list) = SvcSetup.game_event_list
declaration (svc SvcKind.get_cvar_value) = SvcSetup.get_cvar_value
declaration (mm MmKind.heartbeat) = Mm.heartbeat
declaration (mm MmKind.client_info) = Mm.client_info
declaration (mm MmKind.register_response) = Mm.register_response
declaration (mm MmKind.mutelist) = Mm.mutelist
declaration (mm MmKind.checkpoint) = Mm.checkpoint
declaration (mm MmKind.join_response) = Mm.join_response
declaration (mm MmKind.migrate) = Mm.migrate

-- The classes that `CBaseClient` declares a `Process` function for, by `PROCESS_NET_MESSAGE` and
-- `PROCESS_CLC_MESSAGE`.
abbrev pub base_client_processes : MessageClass → Bool
base_client_processes (net _) = true
base_client_processes (clc ClcKind.client_info) = true
base_client_processes (clc ClcKind.baseline_ack) = true
base_client_processes (clc ClcKind.listen_events) = true
base_client_processes (clc ClcKind.cmd_key_values) = true
base_client_processes (clc _) = false
base_client_processes (svc _) = false
base_client_processes (mm _) = false

-- And those that `CGameClient` adds or overrides.
abbrev pub game_client_processes : MessageClass → Bool
game_client_processes (clc ClcKind.client_info) = true
game_client_processes (clc ClcKind.move) = true
game_client_processes (clc ClcKind.voice_data) = true
game_client_processes (clc ClcKind.respond_cvar_value) = true
game_client_processes (clc ClcKind.file_crc_check) = true
game_client_processes (clc ClcKind.file_md5_check) = true
game_client_processes (clc ClcKind.cmd_key_values) = true
game_client_processes (clc ClcKind.gmod_client_to_server) = true
game_client_processes (clc _) = false
game_client_processes (net _) = false
game_client_processes (svc _) = false
game_client_processes (mm _) = false

-- A message that a client object can be the handler of.
abbrev pub has_processor : MessageClass → Bool
has_processor c = base_client_processes c || game_client_processes c
