-- ===== src/Seating/Delivery.antt =====
-- What the client of a user who left the queue reads: the spawn (`hook_CGameClient_SpawnPlayer` of
-- source/queue.cpp) moves them and sends `SVC_ServerInfo`, `WriteToBuffer` writes it, and on the
-- client `ReadFromBuffer` (source/sourcesdk/netmessages.cpp) reads it.
use gmod_queue.Base.{
  ℕ, ℤ, pos, ◌≤ℤ◌, ◌≡◌, refl, ap, ◌∙◌, ◌<◌, ◌≤◌, inl, inr, true, false, some, [], get_elem?, drop,
  arith,
}
use gmod_queue.Engine.Protocol.{max_players}
use gmod_queue.Engine.ServerInfo.{ServerInfo}
use gmod_queue.World.State.{World}
use gmod_queue.World.Host.{Host}
use gmod_queue.World.Laws.{StackLaws}
use gmod_queue.World.Monad.{ok}
use gmod_queue.Hooks.Callback.{CallbackLaws}
use gmod_queue.Slots.Minimum.{IsFree}
use gmod_queue.Slots.Layout.{IsFirstFree}
use gmod_queue.Move.EngineLaws.{EngineLaws}
use gmod_queue.Move.Quiet.{QuietLaws}
use gmod_queue.Move.{move_client}
use gmod_queue.Move.Announce.{informed}
use gmod_queue.Spawn.{hook_spawn_player}
use gmod_queue.Spawn.Cases.{hook_spawn_player-cases}
use gmod_queue.Seating.{Seat, is_vacant, seat_at, view}
use gmod_queue.Seating.FirstFree.{vacant_seat, first_vacant-finds, first_vacant-IsFull}
use gmod_queue.Seating.Users.{reseat_to}
use gmod_queue.Seating.Hall.{HallLaws, CalmHooks, IsOpen, view-kept}
use gmod_queue.Seating.Refine.{IsHandedOver, handed_over, reconnected-IsSameHall}
use gmod_queue.Seating.Told.{filled, told, send_server_info-Fits, told-Encodable}
use gmod_queue.Wire.{BitApi, write_to_buffer, read_from_buffer}
use gmod_queue.Wire.RoundTrip.{BitLaws, Encodable, read_from_buffer-write_to_buffer}

-- The way of a message from the server to the client: an empty buffer has room for one whose values
-- fit, and what was written lies ahead of the client's reader once the type is taken off.
pub record Delivery {W R : Type 0} (api : BitApi W R) (laws : BitLaws api) : Type 0 where
  pub empty : W
  pub deliver : W → R
  pub nothing_written : laws.written empty ≡ []
  pub room :
      (info : ServerInfo) → Encodable api laws info → (write_to_buffer api info empty).0 ≡ true
  pub delivered : (b : W) → laws.ahead (deliver b) ≡ drop 1 (laws.written b)
  pub intact : (b : W) → api.read_overflowed (deliver b) ≡ false

-- `FillServerInfo` fills in a protocol after version 17, what fits on the wire but for the slot and the
-- limit, and a limit that is not negative.
pub record FillLaws {L W R : Type 0} (host : Host L) (api : BitApi W R) (laws : BitLaws api)
    : Type 0 where
  pub limit :
      (p : ℕ) (w : World L)
      → pos 0 ≤ℤ (host.fill_server_info p host.blank_server_info w).0.max_clients
  pub fits :
      (p : ℕ) (w : World L)
      → Encodable api laws (record (host.fill_server_info p host.blank_server_info w).0 {
        player_slot = pos 0;
        max_clients = pos 0;
      })

-- A state ends a move to the client object at `target` on slot `k`: the message that was sent there,
-- written, delivered and read, has this slot, and a limit of at most 128.
pub record IsTold {L W R : Type 0} ⦃host : Host L⦄ (api : BitApi W R) (laws : BitLaws api)
    (way : Delivery api laws) (old : ServerInfo) (k target : ℕ) (w : World L) : Type 0 where
  pub info : ServerInfo
  pub before : World L
  pub sent : w ≡ host.reconnect target (host.send_net_msg target info true before)
  pub got : ServerInfo
  pub rest : R
  pub read :
      read_from_buffer api old (way.deliver (write_to_buffer api info way.empty).1)
      ≡ (true, got, rest)
  pub used_up : laws.ahead rest ≡ []
  pub slot : got.player_slot ≡ pos k
  pub most : got.max_clients ≤ℤ pos max_players

module _ {L W R : Type 0} ⦃host : Host L⦄ (stack : StackLaws host.lua_api)
    (callback : CallbackLaws host) (quiet : QuietLaws host) (engine : EngineLaws host)
    (hall : HallLaws host) (calm : CalmHooks host) (api : BitApi W R) (laws : BitLaws api)
    (way : Delivery api laws) (fill : FillLaws host api laws) (old : ServerInfo) where
  module _ (w : World L) (open_before : IsOpen w) (client j : ℕ) (u : ℤ)
      (here : get_elem? w.server_object.clients j ≡ some client) (late : max_players ≤ j)
      (held : view w j ≡ Seat.held u) where
    -- What the user of slot `j` comes to.
    abbrev IsSeatedAndTold : Type 0
    IsSeatedAndTold =
        (w' : World L) × (hook_spawn_player client w ≡ (ok tt, w'))
        × (k : ℕ) × (target : ℕ) × (k < max_players)
        × (get_elem? w.server_object.clients k ≡ some target)
        × (view w k ≡ Seat.vacant)
        × (view w' k ≡ Seat.held u)
        × IsTold api laws way old k target w'

    handed_over-IsTold :
        (k target : ℕ) (v : World L)
        → IsFirstFree w k target
        → IsHandedOver w client j k target v
        → IsTold api laws way old k target (
            host.reconnect target
              (host.send_net_msg target (told target v) true (filled target v).1))
    handed_over-IsTold k target v f over =
        let at = ap (λ l. get_elem? l k) over.list.clients ∙ f.here in
        let server : ℕ = (v.client target).server in
        let (_, slot, most, byte_slot, byte_limit) =
          send_server_info-Fits hall v over.layout k target f.playable at (fill.limit server v) in
        let able =
          told-Encodable hall api laws target v (fill.fits server v) byte_slot byte_limit in
        let (rest, read, end) =
          read_from_buffer-write_to_buffer api laws (told target v) old way.empty _ able
            way.nothing_written (way.room (told target v) able) (way.delivered _) (way.intact _) in
        record {
          info = told target v;
          before = (filled target v).1;
          sent = refl;
          got = record (told target v) { map_crc = old.map_crc };
          rest = rest;
          read = read;
          used_up = end;
          slot = slot;
          most = most;
        }

    moved-IsSeatedAndTold :
        (k target : ℕ)
        → IsFirstFree w k target
        → (v : World L) → IsHandedOver w client j k target v
        → hook_spawn_player client w ≡ move_client client target w
        → IsSeatedAndTold
    moved-IsSeatedAndTold k target f v over ran =
        let vacant = ap (seat_at w.client) f.here ∙ vacant_seat (w.client target) f.free in
        let kept =
          view-kept (reconnected-IsSameHall stack callback quiet engine hall calm target v) in
        (
          host.reconnect target (informed target v),
          ran ∙ over.moved,
          k,
          target,
          f.playable,
          f.here,
          vacant,
          ap (λ s. s k) (kept ∙ over.seen)
              ∙ reseat_to (view w) j k late f.playable (ap is_vacant vacant)
              ∙ held,
          handed_over-IsTold k target v f over,
        )

    -- On an open server with a vacant player slot, whose scripts' hooks on a change of slot or a
    -- disconnection unseat nobody, the spawn of the client of a user on a slot past
    -- the player slots returns. The user then is on a player slot that was vacant; and the message
    -- that was sent there, once `WriteToBuffer` wrote it to an empty buffer, it was delivered, and
    -- `ReadFromBuffer` read it, gives that slot and a limit of at most 128. This asks that
    -- the engine's information, of a protocol after version 17, fits on the wire but for slot and
    -- limit, with a limit that is not negative.
    pub queued_user_is_told : (i : ℕ) → i < max_players → view w i ≡ Seat.vacant → IsSeatedAndTold
    queued_user_is_told i low vacant =
        let layout = open_before.layout in
        let (real, at, _) = layout.placed j client here in
        let taken : ¬ IsFree (w.client client) = λ free.
          let empty = ap (seat_at w.client) here ∙ vacant_seat (w.client client) free in cc in
        elim (hook_spawn_player-cases w layout client real) [
          | inl (near, _) ↦ absurd (ground (arith, at, near))
          | inr (inl (_, full, _)) ↦
              let none_left = first_vacant-IsFull w full in
              let (_, one, _, _) =
                first_vacant-finds max_players 0 i (view w) (omega arith) (omega (arith, low))
                  (ap is_vacant vacant) in
              absurd cc
          | inr (inr (far, (k, target, f, ran))) ↦
              let (v, over) =
                handed_over stack callback quiet engine hall calm w open_before client j here far
                  taken k target f in
              moved-IsSeatedAndTold k target f v over ran
        ]
