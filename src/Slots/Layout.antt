-- ===== src/Slots/Layout.antt =====
-- `FindFreeClientSlot` on a server whose clients lie where the engine puts them.
use gmod_queue.Base.{
  ℕ, suc, ℤ, pos, ◌≡◌, ◌≢◌, ◌∙◌, ◌⊎◌, inl, inr, List, length, get_elem?, get_elem?-lt_length, some,
  arith, ◌<◌,
}
use gmod_queue.Engine.Protocol.{max_players}
use gmod_queue.World.State.{World}
use gmod_queue.World.Monad.{ok}
use gmod_queue.Slots.{find_free_client_slot, slot_count, no_free_entity}
use gmod_queue.Slots.Minimum.{IsFree, LeastFree, scan_slots-LeastFree}

-- `m_nClientSlot` is the index in `m_Clients`, and `m_nEntityIndex` is the slot plus one, as
-- baseclient.h says of a game server's clients (they differ in HLTV and replay mode). Each client
-- object was made for its server, and keeps the pointer to it.
pub record IsLayout {L : Type 0} (w : World L) : Type 0 where
  pub known : w.server ≢ 0
  pub placed :
      (i p : ℕ)
      → get_elem? w.server_object.clients i ≡ some p
      → (p ≢ 0) × ((w.client p).client_slot ≡ pos i) × ((w.client p).entity_index ≡ pos (suc i))
  pub homed : (i p : ℕ) → get_elem? w.server_object.clients i ≡ some p → (w.client p).server ≢ 0

-- No slot below MAX_PLAYERS is free.
abbrev pub IsFull : {L : Type 0} → World L → Type 0
IsFull w =
    (i p : ℕ)
    → i < max_players
    → get_elem? w.server_object.clients i ≡ some p
    → ¬ IsFree (w.client p)

-- Slot `i`, held by the client object at `p`, is the first that is free below MAX_PLAYERS.
pub record IsFirstFree {L : Type 0} (w : World L) (i p : ℕ) : Type 0 where
  pub playable : i < max_players
  pub here : get_elem? w.server_object.clients i ≡ some p
  pub free : IsFree (w.client p)
  pub first :
      (j q : ℕ) → j < i → get_elem? w.server_object.clients j ≡ some q → ¬ IsFree (w.client q)

module _ {L : Type 0} (w : World L) (layout : IsLayout w) where
  abbrev rounds : ℕ
  rounds = slot_count (length w.server_object.clients)

  -- The loop's answer, read through the layout.
  Answer : ℤ → Type 0
  Answer r =
      ((r ≡ no_free_entity) × IsFull w)
      ⊎ ((i : ℕ) × (p : ℕ) × (r ≡ pos (suc i)) × IsFirstFree w i p)

  find-Answer :
      (r : ℤ) → LeastFree w.client rounds w.server_object.clients no_free_entity r → Answer r
  unfolding Answer
  find-Answer r (below, lower, inl none_found) = inl (
    none_found,
    λ i p h e f.
        let inside : i < rounds = ground (arith, get_elem?-lt_length _ i p e) in
        ground (arith, lower i p inside e f, layout.placed i p e, none_found),
  )
  find-Answer r (below, lower, inr (i, p, h, e, f, same)) = inr (
    i,
    p,
    same ∙ (layout.placed i p e).2,
    record {
      playable = ground arith;
      here = e;
      free = f;
      first = λ j q lt there g. ground (
        arith,
        lower j q (omega arith) there g,
        layout.placed i p e,
        layout.placed j q there,
        same,
      );
    },
  )

-- On a server in the engine's layout `FindFreeClientSlot` returns and changes nothing: 255 if every slot
-- below MAX_PLAYERS is taken, and else the entity index of the first free one of them.
pub find_free_client_slot-first :
    {L : Type 0} (w : World L)
    → IsLayout w
    → (r : ℤ) × (find_free_client_slot w ≡ (ok r, w))
      × (((r ≡ pos 255) × IsFull w) ⊎ ((i : ℕ) × (p : ℕ) × (r ≡ pos (suc i)) × IsFirstFree w i p))
unfolding find_free_client_slot Answer
find_free_client_slot-first w layout =
    let clients : List ℕ = w.server_object.clients in
    let n : ℕ = slot_count (length clients) in
    let (r, found, least) =
      scan_slots-LeastFree w.client n clients no_free_entity
        (λ j p here. (layout.placed j p here).0) in
    (r, ground (arith, layout.known, found), find-Answer w layout r least)
