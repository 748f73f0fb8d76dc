-- ===== src/Move.antt =====
-- `MoveCGameClientIntoCGameClient` (source/queue.cpp), part by part as its comments divide it.
pub mod Channel
pub mod EngineLaws
pub mod Connect
pub mod Transfer
pub mod Quiet
pub mod Announce
pub mod Total
pub mod Vacate
use gmod_queue.Base.{
  ℕ, ℤ, pos, ◌==◌, ⊤, Bool, true, false, not, ◌&&◌, String, map, List, if◌then◌else◌,
}
use gmod_queue.Engine.Protocol.{clc_cmd_key_values}
use gmod_queue.Engine.Client.{Client}
use gmod_queue.Engine.NetChan.{NetChan}
use gmod_queue.Messages.Object.{NetMessage, get_type, set_member}
use gmod_queue.World.State.{World, Note}
use gmod_queue.World.Host.{Host}
use gmod_queue.World.Monad.{Action, pure, gets, call, modify, note, ◌>>=◌, ◌>>◌}
use gmod_queue.World.Memory.{deref, read_client, change_client, change_channel}
use gmod_queue.World.Interp.{g_lua_do}
use gmod_queue.Hooks.{push_hook, hook_fill_server_info}

-- The assignments from `origin` to `target`, after `Connect` and `SetName`.
abbrev pub adopt : Client → Client → Client
adopt origin target = record target { signon_state = origin.signon_state; session = origin.session }

-- Where `CExtentedNetMessage` has `m_pMessageHandler`: it is the first member after those of
-- `CNetMessage`. And where `Base_CmdKeyValues` has `m_pKeyValues`.
abbrev pub extended_handler : ℕ
extended_handler = 0

abbrev pub base_key_values : ℕ
base_key_values = 0

-- The body of the loop over `m_NetMessages`. Both casts address a message of any class by place.
abbrev pub redirect_message : ℕ → NetMessage → NetMessage
redirect_message target msg =
    let written = set_member extended_handler target msg in
    if get_type written == clc_cmd_key_values && not (written.member base_key_values == 0)
    then set_member base_key_values 0 written
    else written

abbrev pub redirect_channel : ℕ → NetChan → NetChan
redirect_channel target chan = record {
  message_handler = target;
  net_messages = map (redirect_message target) chan.net_messages;
}

module _ {L : Type 0} ⦃host : Host L⦄ where
  open host use {
    inactivate, clear, connect, set_name, reconnect, send_net_msg, blank_server_info, push_number,
    call_function_protected,
  }

  -- The target is emptied, and connected with the origin's name, id and channel.
  unfoldable pub connect_target : ℕ → ℕ → Action L ⊤
  connect_target origin target = do
    o ← read_client origin
    t ← read_client target
    note (Note.reassigned o.client_slot t.client_slot)
    modify (inactivate target)
    modify (clear target)
    o ← read_client origin
    modify (connect target o.name o.user_id o.net_channel o.fake_player o.client_challenge)
    o ← read_client origin
    modify (set_name target o.name)

  -- The rest of the client's data, and the channel with its messages.
  unfoldable pub adopt_session : ℕ → ℕ → Action L ⊤
  adopt_session origin target = do
    o ← read_client origin
    change_client target (adopt o)
    t ← read_client target
    change_channel t.net_channel (redirect_channel target)

  unfoldable pub transfer : ℕ → ℕ → Action L ⊤
  transfer origin target = do connect_target origin target; adopt_session origin target

  -- "Nuke the origin client"
  unfoldable pub nuke_origin : ℕ → Action L ⊤
  nuke_origin origin = do
    change_client origin (λ c. record c { net_channel = 0 })
    modify (inactivate origin)
    modify (clear origin)

  unfoldable pub run_changed_slot_hook : ℕ → ℕ → Action L Bool
  run_changed_slot_hook origin target = do
    o ← read_client origin
    g_lua_do (push_number o.client_slot)
    t ← read_client target
    g_lua_do (push_number t.client_slot)
    call (call_function_protected 3 0 true)

  unfoldable pub announce : ℕ → ℕ → Action L Bool
  announce origin target = do
    pushed ← push_hook "PlayerQueue:OnPlayerChangedSlot"
    if pushed then run_changed_slot_hook origin target else pure false

  -- The server's information, with the slot of the target. `FillServerInfo` is the detoured one, and
  -- is called through the target's pointer to its server.
  unfoldable pub send_server_info : ℕ → Action L ⊤
  send_server_info target = do
    t ← read_client target
    deref t.server
    info ← hook_fill_server_info t.server blank_server_info
    t ← read_client target
    modify (send_net_msg target (record info { player_slot = t.client_slot }) true)

  -- `MoveCGameClientIntoCGameClient`
  unfoldable pub move_client : ℕ → ℕ → Action L ⊤
  move_client origin target = do
    transfer origin target
    nuke_origin origin
    announce origin target
    send_server_info target
    modify (reconnect target)
