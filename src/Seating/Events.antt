-- ===== src/Seating/Events.antt =====
-- Players come, leave and spawn in any order: steps between states of the whole server, and what each
-- does to the abstract one.
use gmod_queue.Base.{◌≤◌, ℕ, ℤ, true, ◌≡◌, ◌≢◌, List, [], ◌∷◌, some, get_elem?}
use gmod_queue.Engine.Protocol.{max_players}
use gmod_queue.Engine.Client.{Client}
use gmod_queue.Engine.NetChan.{NetChan}
use gmod_queue.Slots.Minimum.{IsFree}
use gmod_queue.World.State.{World, Note}
use gmod_queue.World.Host.{Host}
use gmod_queue.World.Monad.{ok}
use gmod_queue.Calls.{LuaCall, run_call}
use gmod_queue.Calls.Order.{InOrder}
use gmod_queue.Calls.Safe.{Needs}
use gmod_queue.Calls.Look.{IsLooking}
use gmod_queue.Hooks.{on_client_disconnect}
use gmod_queue.Move.EngineLaws.{IsSamePlace}
use gmod_queue.Spawn.{hook_spawn_player}
use gmod_queue.Seating.{Seat, Seats, seat_of, view, queue_spawn}
use gmod_queue.Seating.Visit.{set_seat, visited}
use gmod_queue.Seating.Users.{IsHeld}

-- A user begins to sign on at a slot; the user at a slot leaves; the client at a slot spawns; Lua code
-- looks at the clients.
pub data Event : Type 0 where
  join : ℕ → ℤ → Event
  leave spawn : ℕ → Event
  look : Event

abbrev pub apply : Event → Seats → Seats
apply (join j u) seats = set_seat j (Seat.held u) seats
apply (leave j) seats = set_seat j Seat.vacant seats
apply (spawn j) seats = queue_spawn j seats
apply look seats = seats

unfoldable pub apply_each : List Event → Seats → Seats
apply_each [] seats = seats
apply_each (e ∷ es) seats = apply_each es (apply e seats)

-- One event, from one state to the next. A user joins on a vacant slot, and is on no other; the engine
-- stores a client object that is not free, with the user's id, and past the player slots with a net
-- channel. Where a user leaves, the plugin is told first, on the main thread with Lua up, and then the
-- engine frees the client object. Lua code looks by a call that may return or raise, and computes on
-- its own in between.
pub data Step {L : Type 0} ⦃host : Host L⦄ : World L → Event → World L → Type 0 where
  joined :
      {w w' : World L} {j client : ℕ} {u : ℤ} (c : Client) (l : L) (channel : ℕ → NetChan)
      (notes : List Note)
      → get_elem? w.server_object.clients j ≡ some client
      → view w j ≡ Seat.vacant
      → ((k : ℕ) → view w k ≢ Seat.held u)
      → IsSamePlace (w.client client) c
      → seat_of c ≡ Seat.held u
      → (max_players ≤ j → c.net_channel ≢ 0)
      → visited client c l channel notes w ≡ w'
      → Step w (join j u) w'
  left :
      {w v w' : World L} {j client : ℕ} (c : Client) (l : L) (channel : ℕ → NetChan)
      (notes : List Note)
      → get_elem? w.server_object.clients j ≡ some client
      → w.lua_set ≡ true
      → w.main_thread ≡ true
      → on_client_disconnect client w ≡ (ok tt, v)
      → IsSamePlace (v.client client) c
      → IsFree c
      → visited client c l channel notes v ≡ w'
      → Step w (leave j) w'
  spawned :
      {w w' : World L} {j client : ℕ}
      → get_elem? w.server_object.clients j ≡ some client
      → IsHeld (view w j)
      → hook_spawn_player client w ≡ (ok tt, w')
      → Step w (spawn j) w'
  looked :
      {w w' : World L} (c : LuaCall)
      → IsLooking c
      → InOrder w
      → Needs c w
      → (run_call c w).1 ≡ w'
      → Step w look w'
  computed : {w w' : World L} (l : L) → record w { lua = l } ≡ w' → Step w look w'

-- A sequence of events.
pub data Steps {L : Type 0} ⦃host : Host L⦄ : World L → List Event → World L → Type 0 where
  stop : {w : World L} → Steps w [] w
  more :
      {w v w' : World L} {e : Event} {es : List Event}
      → Step w e v
      → Steps v es w'
      → Steps w (e ∷ es) w'
