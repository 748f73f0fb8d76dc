-- ===== src/Seating.antt =====
-- What the queue promises: an abstract server, of which only the slots and their users are seen,
-- and how a client's spawn (`hook_CGameClient_SpawnPlayer` of source/queue.cpp) changes it. The
-- modules below show that the detour does this to the engine's objects.
pub mod FirstFree
pub mod Hall
pub mod Exchange
pub mod Users
pub mod Refine
pub mod Runs
pub mod Told
pub mod Delivery
pub mod Departure
pub mod Visit
pub mod Events
pub mod Traces
use gmod_queue.Base.{
  ℕ, zero, suc, ℤ, ◌==◌, ltb, eqb_ℤ, Bool, true, false, Option, none, some, get_elem?,
  if◌then◌else◌,
}
use gmod_queue.Engine.Protocol.{signonstate_none, max_players}
use gmod_queue.Engine.Client.{Client}
use gmod_queue.World.State.{World}

-- No such slot, a slot that nobody signs on to, or the slot of the user with an id.
pub data Seat : Type 0 where
  absent vacant : Seat
  held : ℤ → Seat

abbrev pub Seats : Type 0
Seats = ℕ → Seat

abbrev pub seat_of : Client → Seat
seat_of c = if eqb_ℤ c.signon_state signonstate_none then Seat.vacant else Seat.held c.user_id

abbrev pub seat_at : (ℕ → Client) → Option ℕ → Seat
seat_at client none = Seat.absent
seat_at client (some p) = seat_of (client p)

-- The abstract view of a state.
abbrev pub view : {L : Type 0} → World L → Seats
view w i = seat_at w.client (get_elem? w.server_object.clients i)

abbrev pub is_vacant : Seat → Bool
is_vacant Seat.absent = false
is_vacant Seat.vacant = true
is_vacant (Seat.held _) = false

-- The first vacant one of `n` slots from `k` on.
unfoldable pub first_vacant : ℕ → ℕ → Seats → Option ℕ
first_vacant zero k seats = none
first_vacant (suc n) k seats = if is_vacant (seats k) then some k else first_vacant n (suc k) seats

-- The user of slot `j` changes to slot `i`.
abbrev pub reseat : ℕ → ℕ → Seats → Seats
reseat j i seats k = if k == j then Seat.vacant else if k == i then seats j else seats k

abbrev pub seat_queued : ℕ → Seats → Option ℕ → Seats
seat_queued j seats none = seats
seat_queued j seats (some i) = reseat j i seats

-- A spawn of the client at slot `j`: a player slot is kept; from a later slot the user gets the
-- first vacant player slot, if there is one.
unfoldable pub queue_spawn : ℕ → Seats → Seats
queue_spawn j seats =
    if ltb j max_players then seats else seat_queued j seats (first_vacant max_players 0 seats)
