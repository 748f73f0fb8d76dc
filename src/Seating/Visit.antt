-- ===== src/Seating/Visit.antt =====
-- The engine changes one client object, as when a user begins to sign on at its slot or leaves it.
use mathlib.Core.Path.{fun_ext, subst}
use gmod_queue.Base.{
  ℕ, ◌==◌, ◌≡◌, refl, sym, ap, ◌∙◌, ◌≢◌, ◌≤◌, inl, inr, Bool-cases, ==→ne, Option, none, some, List,
  get_elem?, update, update_self, update-ne, if◌then◌else◌, arith,
}
use gmod_queue.Engine.Protocol.{max_players}
use gmod_queue.Engine.Client.{Client}
use gmod_queue.Engine.NetChan.{NetChan}
use gmod_queue.World.State.{World, Note}
use gmod_queue.World.Host.{Host}
use gmod_queue.Hooks.Callback.{IsReady}
use gmod_queue.Slots.Minimum.{IsFree}
use gmod_queue.Move.EngineLaws.{IsSamePlace}
use gmod_queue.Seating.{Seat, Seats, seat_of, seat_at, view}
use gmod_queue.Seating.Hall.{IsLayout-kept, IsWired, IsOpen}
use gmod_queue.Seating.Exchange.{slot-injective}

abbrev pub set_seat : ℕ → Seat → Seats → Seats
set_seat j seat seats k = if k == j then seat else seats k

-- The client object at an address is another, and the interpreter, the net channels and the log may
-- be.
abbrev pub visited : {L : Type 0} → ℕ → Client → L → (ℕ → NetChan) → List Note → World L → World L
visited p c l channel notes w = record w {
  client = update w.client p c;
  lua = l;
  channel = channel;
  notes = notes;
}

module _ {L : Type 0} (w : World L) (j p : ℕ) (c : Client) (l : L) (channel : ℕ → NetChan)
    (notes : List Note) (here : get_elem? w.server_object.clients j ≡ some p)
    (place : IsSamePlace (w.client p) c) where
  abbrev after : World L
  after = visited p c l channel notes w

  visited_at : (q : ℕ) → p ≡ q → after.client q ≡ c
  visited_at q e = ap after.client (sym e) ∙ update_self w.client p c

  visited_place : (q : ℕ) → IsSamePlace (w.client q) (after.client q)
  visited_place q = elim (Bool-cases (p == q)) [
    | inl e ↦
        let same : p ≡ q = ground (arith, e) in
        subst (λ x. IsSamePlace (w.client q) x) (sym (visited_at q same))
          (subst (λ x. IsSamePlace (w.client x) c) same place)
    | inr e ↦
        subst (IsSamePlace (w.client q)) (sym (update-ne w.client p q c (==→ne p q e)))
          (record { same_slot = refl; same_entity = refl; same_server = refl })
  ]

  module _ ⦃host : Host L⦄ (open_before : IsOpen w) where
    stayed :
        (k : ℕ)
        → k ≢ j
        → (o : Option ℕ) → get_elem? w.server_object.clients k ≡ o
        → seat_at after.client o ≡ seat_at w.client o
    stayed k apart none e = refl
    stayed k apart (some q) e = ap seat_of (
        update-ne w.client p q c
          λ same. apart (slot-injective w open_before.layout k j q p e here (sym same)))

    -- Only the seat at its slot changes.
    pub visited-view : view after ≡ set_seat j (seat_of c) (view w)
    visited-view = fun_ext λ k. elim (Bool-cases (k == j)) [
      | inl at ↦
          let same : k ≡ j = ground (arith, at) in
          rw at (
            ap (λ o. seat_at after.client o) (ap (get_elem? w.server_object.clients) same ∙ here)
            ∙ ap seat_of (visited_at p refl))
      | inr off ↦ rw off (stayed k (==→ne k j off) _ refl)
    ]

    visited-IsReady : IsReady after
    visited-IsReady =
        let reg = open_before.ready.registry in
        record {
          registry = record { keys = reg.keys; started = reg.started; boxed = reg.boxed };
          typed = open_before.ready.typed;
        }

    module _ (channelled : max_players ≤ j → ¬ IsFree c → c.net_channel ≢ 0) where
      visited-IsWired : IsWired after
      visited-IsWired i q late there taken = elim (Bool-cases (p == q)) [
        | inl e ↦
            let same : p ≡ q = ground (arith, e) in
            let at : i ≡ j = slot-injective w open_before.layout i j q p there here (sym same) in
            λ null.
              channelled (omega (arith, late, at))
                (λ free. taken (ap (λ x. x.signon_state) (visited_at q same) ∙ free))
                (ap (λ x. x.net_channel) (sym (visited_at q same)) ∙ null)
        | inr e ↦
            let kept = update-ne w.client p q c (==→ne p q e) in
            λ null.
              open_before.wired i q late there
                (λ free. taken (ap (λ x. x.signon_state) kept ∙ free))
                (ap (λ x. x.net_channel) (sym kept) ∙ null)
      ]

      -- The server stays open, if a user who signs on past the player slots comes over a net
      -- channel.
      pub visited-IsOpen : IsOpen after
      visited-IsOpen = record {
        layout =
            IsLayout-kept (record { server = refl; clients = refl }) visited_place
              open_before.layout;
        ready = visited-IsReady;
        wired = visited-IsWired;
      }
