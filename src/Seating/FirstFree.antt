-- ===== src/Seating/FirstFree.antt =====
-- The abstract search finds the first vacant slot, which is the first free one of the engine's.
use gmod_queue.Base.{
  ℕ, zero, suc, ◌+◌, ◌<◌, ◌≤◌, ◌==◌, ◌≡◌, ◌≢◌, refl, sym, ap, ◌∙◌, ==→ne, inl, inr, true, false,
  none, some, Bool-cases, Option, eqb_ℤ, ne-eqb_ℤ, if◌then◌else◌, arith,
}
use gmod_queue.Engine.Protocol.{max_players, signonstate_none}
use gmod_queue.Engine.Client.{Client}
use gmod_queue.World.State.{World}
use gmod_queue.Slots.Minimum.{IsFree}
use gmod_queue.Slots.Layout.{IsFull, IsFirstFree}
use gmod_queue.Seating.{Seat, Seats, is_vacant, first_vacant, seat_of, seat_at, view}

-- The search finds slot `i` if that is vacant and none before it is.
pub first_vacant-found :
    (n k i : ℕ) (seats : Seats)
    → k ≤ i
    → i < k + n
    → is_vacant (seats i) ≡ true
    → ((j : ℕ) → j < i → is_vacant (seats j) ≡ false)
    → first_vacant n k seats ≡ some i
unfolding first_vacant
first_vacant-found zero k i seats low high free first = absurd (omega arith)
first_vacant-found (suc n) k i seats low high free first = elim (Bool-cases (k == i)) [
  | inl e ↦
      let same : k ≡ i = ground (arith, e) in
      rw (ap (λ x. is_vacant (seats x)) same ∙ free) (ap some same)
  | inr e ↦
      let apart : k < i = omega (arith, ==→ne k i e) in
      rw (first k apart)
        (first_vacant-found n (suc k) i seats (omega arith) (omega arith) free first)
]

pub first_vacant-none :
    (n k : ℕ) (seats : Seats)
    → ((j : ℕ) → k ≤ j → j < k + n → is_vacant (seats j) ≡ false)
    → first_vacant n k seats ≡ none
unfolding first_vacant
first_vacant-none zero k seats full = refl
first_vacant-none (suc n) k seats full =
    rw (full k (omega arith) (omega arith))
      (first_vacant-none n (suc k) seats (λ j low high. full j (omega arith) (omega arith)))

-- Where a slot is vacant, the search finds a vacant one.
pub first_vacant-finds :
    (n k i : ℕ) (seats : Seats)
    → k ≤ i
    → i < k + n
    → is_vacant (seats i) ≡ true
    → (m : ℕ) × (first_vacant n k seats ≡ some m) × (m < k + n) × (is_vacant (seats m) ≡ true)
unfolding first_vacant
first_vacant-finds zero k i seats low high free = absurd (omega arith)
first_vacant-finds (suc n) k i seats low high free = elim (Bool-cases (is_vacant (seats k))) [
  | inl here ↦ (k, rw here refl, omega arith, here)
  | inr taken ↦
      let apart : k ≢ i = λ e. cc in
      let (m, e, bound, vacant) =
        first_vacant-finds n (suc k) i seats (omega (arith, apart)) (omega arith) free in
      (m, rw taken e, omega arith, vacant)
]

-- What the search returns is vacant.
pub first_vacant-vacant :
    (n k m : ℕ) (seats : Seats)
    → first_vacant n k seats ≡ some m
    → (m < k + n) × (is_vacant (seats m) ≡ true)
unfolding first_vacant
first_vacant-vacant zero k m seats e = absurd cc
first_vacant-vacant (suc n) k m seats e = elim (Bool-cases (is_vacant (seats k))) [
  | inl here ↦
      let found : first_vacant (suc n) k seats ≡ some k = rw here refl in
      let same : k ≡ m = let q = sym found ∙ e in cc in
      (omega (arith, same), ap (λ x. is_vacant (seats x)) (sym same) ∙ here)
  | inr taken ↦
      let found : first_vacant (suc n) k seats ≡ first_vacant n (suc k) seats = rw taken refl in
      let (bound, vacant) = first_vacant-vacant n (suc k) m seats (sym found ∙ e) in
      (omega (arith, bound), vacant)
]

pub vacant_seat : (c : Client) → IsFree c → seat_of c ≡ Seat.vacant
vacant_seat c free =
    ap (λ s. if eqb_ℤ s signonstate_none then Seat.vacant else Seat.held c.user_id) free

taken_seat : (c : Client) → ¬ IsFree c → is_vacant (seat_of c) ≡ false
taken_seat c taken = rw (ne-eqb_ℤ c.signon_state signonstate_none taken) refl

module _ {L : Type 0} (w : World L) where
  seat_at-taken :
      (o : Option ℕ)
      → ((p : ℕ) → o ≡ some p → ¬ IsFree (w.client p))
      → is_vacant (seat_at w.client o) ≡ false
  seat_at-taken none taken = refl
  seat_at-taken (some p) taken = taken_seat (w.client p) (taken p refl)

  -- The first free slot is the first vacant one.
  pub first_vacant-IsFirstFree :
      (i p : ℕ) → IsFirstFree w i p → first_vacant max_players 0 (view w) ≡ some i
  first_vacant-IsFirstFree i p f =
      first_vacant-found max_players 0 i (view w) (omega arith) (omega (arith, f.playable))
        (ap (λ o. is_vacant (seat_at w.client o)) f.here
          ∙ ap is_vacant (vacant_seat (w.client p) f.free))
        (λ j lt. seat_at-taken _ (λ q e. f.first j q lt e))

  pub first_vacant-IsFull : IsFull w → first_vacant max_players 0 (view w) ≡ none
  first_vacant-IsFull full =
      first_vacant-none max_players 0 (view w)
        λ j _ lt. seat_at-taken _ (λ q e. full j q (omega arith) e)
