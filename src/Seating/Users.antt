-- ===== src/Seating/Users.antt =====
-- What the abstract server promises to its users, and what a sequence of spawns comes to.
use gmod_queue.Base.{
  ℕ, ℤ, ◌==◌, ◌≡◌, refl, sym, ap, ◌∙◌, ◌≢◌, ◌≤◌, ◌<◌, ◌⊎◌, inl, inr, true, false, Option-cases,
  Bool-cases, ==-refl, ==-ne, ==→ne, List, [], ◌∷◌, ltb, ⊤, arith,
}
use gmod_queue.Engine.Protocol.{max_players}
use gmod_queue.Seating.{Seat, Seats, is_vacant, first_vacant, reseat, queue_spawn}
use gmod_queue.Seating.FirstFree.{first_vacant-vacant, first_vacant-finds}

-- A user sits there.
abbrev pub IsHeld : Seat → Type 0
IsHeld s = (u : ℤ) × (s ≡ Seat.held u)

-- No user sits on two slots.
abbrev pub IsDistinct : Seats → Type 0
IsDistinct seats = (i k : ℕ) (u : ℤ) → seats i ≡ Seat.held u → seats k ≡ Seat.held u → i ≡ k

-- From one moment to a later one: nobody comes to sit on two slots, nobody loses their slot for
-- none, and whoever plays stays on the same slot.
pub record IsFair (before after : Seats) : Type 0 where
  pub distinct : IsDistinct before → IsDistinct after
  pub kept : (i : ℕ) (u : ℤ) → before i ≡ Seat.held u → (k : ℕ) × (after k ≡ Seat.held u)
  pub playing : (i : ℕ) (u : ℤ) → i < max_players → before i ≡ Seat.held u → after i ≡ Seat.held u

pub IsFair-refl : (seats : Seats) → IsFair seats seats
IsFair-refl seats = record { distinct = λ d. d; kept = λ i u e. (i, e); playing = λ i u lt e. e }

pub IsFair-trans : {a b c : Seats} → IsFair a b → IsFair b c → IsFair a c
IsFair-trans p q = record {
  distinct = λ d. q.distinct (p.distinct d);
  kept = λ i u e. let (k, f) = p.kept i u e in q.kept k u f;
  playing = λ i u lt e. q.playing i u lt (p.playing i u lt e);
}

pub vacant-held : (u : ℤ) → Seat.vacant ≢ Seat.held u
vacant-held u e = cc

is_vacant-vacant : (s : Seat) → is_vacant s ≡ true → s ≡ Seat.vacant
is_vacant-vacant Seat.vacant e = refl
is_vacant-vacant Seat.absent e = absurd cc
is_vacant-vacant (Seat.held u) e = absurd cc

module _ (seats : Seats) (j m : ℕ) (late : max_players ≤ j) (low : m < max_players)
    (vacant : is_vacant (seats m) ≡ true) where
  reseat_from : reseat j m seats j ≡ Seat.vacant
  reseat_from = rw ==-refl refl

  pub reseat_to : reseat j m seats m ≡ seats j
  reseat_to = rw (==-ne m j (λ e. omega (arith, e)), ==-refl) refl

  reseat_other : (k : ℕ) → k ≢ j → k ≢ m → reseat j m seats k ≡ seats k
  reseat_other k not_j not_m = rw (==-ne k j not_j, ==-ne k m not_m) refl

  -- Whoever sits on a slot after the change sat on the same slot, or came from `j`.
  reseat-cases :
      (k : ℕ) (u : ℤ)
      → reseat j m seats k ≡ Seat.held u
      → ((k ≢ j) × (k ≢ m) × (seats k ≡ Seat.held u)) ⊎ ((k ≡ m) × (seats j ≡ Seat.held u))
  reseat-cases k u e = elim (Bool-cases (k == j)) [
    | inl here ↦
        let same : k ≡ j = ground (arith, here) in
        let emptied = ap (reseat j m seats) (sym same) ∙ e in
        absurd (vacant-held u (sym reseat_from ∙ emptied))
    | inr not_j ↦ elim (Bool-cases (k == m)) [
      | inl there ↦
          let same : k ≡ m = ground (arith, there) in
          inr (same, sym reseat_to ∙ (ap (reseat j m seats) (sym same) ∙ e))
      | inr not_m ↦
          let a = ==→ne k j not_j in
          let b = ==→ne k m not_m in inl (a, b, sym (reseat_other k a b) ∙ e)
    ]
  ]

  -- Nobody sits on the vacant slot.
  not_there : (k : ℕ) (u : ℤ) → seats k ≡ Seat.held u → k ≢ m
  not_there k u e same =
      let now = ap (λ x. is_vacant (seats x)) same ∙ vacant in let before = ap is_vacant e in cc

  reseat-IsDistinct : IsDistinct seats → IsDistinct (reseat j m seats)
  reseat-IsDistinct d i k u ei ek = elim (reseat-cases i u ei) [
    | inl (i_not_j, _, i_held) ↦ elim (reseat-cases k u ek) [
      | inl (_, _, k_held) ↦ d i k u i_held k_held
      | inr (_, j_held) ↦ absurd (i_not_j (d i j u i_held j_held))
    ]
    | inr (i_there, j_held) ↦ elim (reseat-cases k u ek) [
      | inl (k_not_j, _, k_held) ↦ absurd (k_not_j (d k j u k_held j_held))
      | inr (k_there, _) ↦ i_there ∙ sym k_there
    ]
  ]

  reseat-IsFair : IsFair seats (reseat j m seats)
  reseat-IsFair = record {
    distinct = reseat-IsDistinct;
    kept = λ i u e. elim (Bool-cases (i == j)) [
      | inl here ↦
          let same : i ≡ j = ground (arith, here) in (m, reseat_to ∙ (ap seats (sym same) ∙ e))
      | inr not_j ↦ (i, reseat_other i (==→ne i j not_j) (not_there i u e) ∙ e)
    ];
    playing = λ i u lt e. reseat_other i (λ same. omega (arith, same)) (not_there i u e) ∙ e;
  }

-- A spawn is fair.
pub queue_spawn-IsFair : (j : ℕ) (seats : Seats) → IsFair seats (queue_spawn j seats)
unfolding queue_spawn
queue_spawn-IsFair j seats = elim (Bool-cases (ltb j max_players)) [
  | inl near ↦ rw near (IsFair-refl seats)
  | inr far ↦ rw far (elim (Option-cases (first_vacant max_players 0 seats)) [
    | inl full ↦ rw full (IsFair-refl seats)
    | inr (m, found) ↦
        let (low, vacant) = first_vacant-vacant max_players 0 m seats found in
        rw found (reseat-IsFair seats j m (ground (arith, far)) (omega (arith, low)) vacant)
  ])
]

-- The spawns of the clients at the slots of a list, one after the other.
unfoldable pub replay : List ℕ → Seats → Seats
replay [] seats = seats
replay (j ∷ js) seats = replay js (queue_spawn j seats)

pub replay-IsFair : (js : List ℕ) (seats : Seats) → IsFair seats (replay js seats)
unfolding replay
replay-IsFair [] seats = IsFair-refl seats
replay-IsFair (j ∷ js) seats =
    IsFair-trans (queue_spawn-IsFair j seats) (replay-IsFair js (queue_spawn j seats))

-- At each of these spawns somebody is signing on at the slot.
unfoldable pub IsAwaited : List ℕ → Seats → Type 0
IsAwaited [] seats = ⊤
IsAwaited (j ∷ js) seats = IsHeld (seats j) × IsAwaited js (queue_spawn j seats)

-- The user of a late slot gets a player slot if there is a vacant one.
pub queue_spawn_seats :
    (j i : ℕ) (u : ℤ) (seats : Seats)
    → max_players ≤ j
    → i < max_players
    → seats j ≡ Seat.held u
    → seats i ≡ Seat.vacant
    → (k : ℕ) × (k < max_players)
      × (seats k ≡ Seat.vacant)
      × (queue_spawn j seats k ≡ Seat.held u)
      × (queue_spawn j seats j ≡ Seat.vacant)
unfolding queue_spawn
queue_spawn_seats j i u seats late low held vacant =
    let (m, found, bound, there) =
      first_vacant-finds max_players 0 i seats (omega arith) (omega arith) (ap is_vacant vacant) in
    let far : ltb j max_players ≡ false = ground arith in
    let done : queue_spawn j seats ≡ reseat j m seats = rw (far, found) refl in
    (
      m,
      omega (arith, bound),
      is_vacant-vacant (seats m) there,
      ap (λ s. s m) done ∙ reseat_to seats j m late (omega (arith, bound)) there ∙ held,
      ap (λ s. s j) done ∙ reseat_from seats j m late (omega (arith, bound)) there,
    )
