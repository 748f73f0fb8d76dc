-- ===== src/Slots.antt =====
-- `FindFreeClientSlot` of source/queue.cpp.
pub mod Minimum
pub mod Layout
use gmod_queue.Base.{
  ℕ, zero, suc, ℤ, pos, Bool, Option, none, some, List, [], ◌∷◌, ◌==◌, ltb, ltb_ℤ, eqb_ℤ, not,
  if◌then◌else◌,
}
use gmod_queue.Engine.Protocol.{signonstate_none, max_players}
use gmod_queue.Engine.Client.{Client}
use gmod_queue.Engine.Server.{get_client_count}
use gmod_queue.World.State.{World}
use gmod_queue.World.Monad.{Action, fault, gets, or_raise, ◌>>=◌}
use gmod_queue.Util.{deref_server}

-- What `FindFreeClientSlot` returns when no slot is free.
abbrev pub no_free_entity : ℤ
no_free_entity = pos 255

-- One round of the loop: a client whose slot is taken is passed over.
abbrev pub consider : Client → ℤ → ℤ
consider c best =
    if not (eqb_ℤ c.signon_state signonstate_none)
    then best
    else if ltb_ℤ c.entity_index best
    then c.entity_index
    else best

-- The loop over the first `rounds` clients of the list; none is the read of a NULL client.
unfoldable pub scan_slots : (ℕ → Client) → ℕ → List ℕ → ℤ → Option ℤ
scan_slots client zero ps best = some best
scan_slots client (suc rounds) [] best = some best
scan_slots client (suc rounds) (p ∷ ps) best =
    let rest = scan_slots client rounds ps (consider (client p) best) in
    if p == 0 then none else rest

-- `count`, no more than MAX_PLAYERS.
abbrev pub slot_count : ℕ → ℕ
slot_count count = if ltb max_players count then max_players else count

module _ {L : Type 0} where
  unfoldable pub find_free_client_slot : Action L ℤ
  unfolding ◌>>=◌
  find_free_client_slot = do
    s ← deref_server
    found ← gets λ w. scan_slots w.client (slot_count (get_client_count s)) s.clients no_free_entity
    or_raise found fault
