-- ===== src/Seating/Told.antt =====
-- What a client is told after a move, in the range in which `SVC_ServerInfo::WriteToBuffer` of
-- source/sourcesdk/netmessages.cpp writes it.
use mathlib.Core.Path.{subst}
use gmod_queue.Base.{
  ℕ, ℤ, pos, ◌≤ℤ◌, ◌≡◌, refl, sym, ap, ◌∙◌, ◌<◌, inl, inr, Bool-cases, ltb_ℤ, true, some, get_elem?,
  arith,
}
use gmod_queue.Engine.Protocol.{max_players}
use gmod_queue.Engine.ServerInfo.{ServerInfo}
use gmod_queue.World.State.{World}
use gmod_queue.World.Host.{Host}
use gmod_queue.World.Monad.{ok}
use gmod_queue.Hooks.{clamp_max_clients}
use gmod_queue.Slots.Layout.{IsLayout}
use gmod_queue.Move.{send_server_info}
use gmod_queue.Move.Announce.{send_server_info_lem}
use gmod_queue.Seating.Hall.{HallLaws}
use gmod_queue.Wire.{BitApi, byte}
use gmod_queue.Wire.RoundTrip.{BitLaws, Fits, Encodable}

-- The limit that a client is told is at most 128, and never more than the engine's.
clamp_max_clients-bounds :
    (info : ServerInfo)
    → ((clamp_max_clients info).max_clients ≤ℤ pos max_players)
      × ((clamp_max_clients info).max_clients ≤ℤ info.max_clients)
      × (pos 0 ≤ℤ info.max_clients → pos 0 ≤ℤ (clamp_max_clients info).max_clients)
clamp_max_clients-bounds info = (ground arith, ground arith, λ h. ground arith)

-- Nothing else is changed.
clamp_max_clients-only :
    (info : ServerInfo)
    → clamp_max_clients info ≡ record info { max_clients = (clamp_max_clients info).max_clients }
clamp_max_clients-only info = elim (Bool-cases (ltb_ℤ (pos 128) info.max_clients)) [
  | inl above ↦ rw above refl
  | inr below ↦ rw below refl
]

-- What the engine fills in for the server of a target, and the state after that.
abbrev pub filled : {L : Type 0} ⦃host : Host L⦄ → ℕ → World L → ServerInfo × World L
filled ⦃host = host⦄ target w =
    host.fill_server_info (w.client target).server host.blank_server_info w

-- The message to a target: with the clamped limit, and the slot of the target.
abbrev pub told : {L : Type 0} ⦃host : Host L⦄ → ℕ → World L → ServerInfo
told target w =
    let (info, v) = filled target w in
    record (clamp_max_clients info) { player_slot = (v.client target).client_slot }

module _ {L : Type 0} ⦃host : Host L⦄ (hall : HallLaws host) where
  -- In the engine's layout, with the target at a player slot and an engine that fills in a limit that
  -- is not negative, the message to the moved client goes out. It has the slot of the target, and a
  -- limit of at most 128; both fit into the bytes in which they are written.
  pub send_server_info-Fits :
      (w : World L)
      → IsLayout w
      → (i target : ℕ) → i < max_players
      → get_elem? w.server_object.clients i ≡ some target
      → pos 0 ≤ℤ (filled target w).0.max_clients
      → (send_server_info target w
          ≡ (ok tt, host.send_net_msg target (told target w) true (filled target w).1))
        × ((told target w).player_slot ≡ pos i)
        × ((told target w).max_clients ≤ℤ pos max_players)
        × Fits byte (told target w).player_slot
        × Fits byte (told target w).max_clients
  send_server_info-Fits w layout i target low here limit =
      let server : ℕ = (w.client target).server in
      let (most, _, least) = clamp_max_clients-bounds (filled target w).0 in
      let (real, slot, _) = layout.placed i target here in
      let same = (hall.fill_hall server host.blank_server_info w).guests target in
      let at : (told target w).player_slot ≡ pos i = same.place.same_slot ∙ slot in
      (
        send_server_info_lem target real w (layout.homed i target here),
        at,
        most,
        subst (Fits byte) (sym at) (omega arith, omega (arith, low)),
        (least limit, omega (arith, most)),
      )

  module _ {W R : Type 0} (api : BitApi W R) (laws : BitLaws api) where
    open laws use {written, ahead}

    -- A message that can be encoded but for its slot and its limit can be encoded with a slot and a
    -- limit that fit into a byte.
    rest-Encodable :
        (info : ServerInfo) (slot limit : ℤ)
        → Encodable api laws (record info { player_slot = pos 0; max_clients = pos 0 })
        → Fits byte slot
        → Fits byte limit
        → Encodable api laws (record info { player_slot = slot; max_clients = limit })
    rest-Encodable info slot limit rest at most = record {
      recent = rest.recent;
      protocol = rest.protocol;
      server_count = rest.server_count;
      max_classes = rest.max_classes;
      player_slot = at;
      max_clients = most;
      game_dir = rest.game_dir;
      map_name = rest.map_name;
      sky_name = rest.sky_name;
      host_name = rest.host_name;
    }

    pub told-Encodable :
        (target : ℕ) (w : World L)
        → Encodable api laws
            (record (filled target w).0 { player_slot = pos 0; max_clients = pos 0 })
        → Fits byte (told target w).player_slot
        → Fits byte (told target w).max_clients
        → Encodable api laws (told target w)
    told-Encodable target w rest slot limit =
        subst (Encodable api laws)
          (sym (
            ap {A = ServerInfo} (λ info. record info { player_slot = (told target w).player_slot })
              (clamp_max_clients-only (filled target w).0)))
          (rest-Encodable (filled target w).0 _ _ rest slot limit)
