-- ===== src/Engine/Protocol.antt =====
-- source/sourcesdk/protocol.h: the sign-on states and the number of the key-values command; and
-- `MAX_PLAYERS` of source/queue.cpp.
use gmod_queue.Base.{ℕ, ℤ, pos}

-- SIGNONSTATE_*: the order in which a client signs on.
abbrev pub signonstate_none : ℤ
signonstate_none = pos 0

abbrev pub signonstate_challenge : ℤ
signonstate_challenge = pos 1

abbrev pub signonstate_connected : ℤ
signonstate_connected = pos 2

abbrev pub signonstate_new : ℤ
signonstate_new = pos 3

abbrev pub signonstate_prespawn : ℤ
signonstate_prespawn = pos 4

abbrev pub signonstate_spawn : ℤ
signonstate_spawn = pos 5

abbrev pub signonstate_full : ℤ
signonstate_full = pos 6

abbrev pub signonstate_changelevel : ℤ
signonstate_changelevel = pos 7

-- `clc_CmdKeyValues`
abbrev pub clc_cmd_key_values : ℕ
clc_cmd_key_values = 16

-- `svc_ServerInfo`
abbrev pub svc_server_info : ℕ
svc_server_info = 8

-- `MAX_PLAYERS`: slots from here on cannot hold a player entity.
abbrev pub max_players : ℕ
max_players = 128
