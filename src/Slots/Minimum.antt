-- ===== src/Slots/Minimum.antt =====
-- The loop of `FindFreeClientSlot` computes a minimum.
use mathlib.Core.Path.{subst}
use gmod_queue.Base.{
  ◌≢◌, ==-ne, ℕ, zero, suc, ℤ, ◌≤ℤ◌, ◌≡◌, refl, ◌∙◌, ◌⊎◌, inl, inr, List, [], ◌∷◌, get_elem?, some,
  arith, Bool-cases, eqb_ℤ, eqb_ℤ-refl, eqb_ℤ→eq, ltb_ℤ, ◌<◌,
}
use gmod_queue.Engine.Protocol.{signonstate_none}
use gmod_queue.Engine.Client.{Client}
use gmod_queue.Slots.{scan_slots, consider}

-- A client whose slot is free: nobody has begun to sign on there.
abbrev pub IsFree : Client → Type 0
IsFree c = c.signon_state ≡ signonstate_none

-- `r` is the least of `best` and the entity indices of the free clients among the first `n`.
abbrev pub LeastFree : (ℕ → Client) → ℕ → List ℕ → ℤ → ℤ → Type 0
LeastFree client n ps best r =
    (r ≤ℤ best)
    × ((i p : ℕ)
        → i < n
        → get_elem? ps i ≡ some p
        → IsFree (client p)
        → r ≤ℤ (client p).entity_index)
    × ((r ≡ best)
        ⊎ ((i : ℕ) × (p : ℕ) × (i < n)
            × (get_elem? ps i ≡ some p)
            × IsFree (client p)
            × (r ≡ (client p).entity_index)))

consider_cases :
    (c : Client) (best : ℤ)
    → (consider c best ≤ℤ best)
      × (IsFree c → consider c best ≤ℤ c.entity_index)
      × ((consider c best ≡ best) ⊎ (IsFree c × (consider c best ≡ c.entity_index)))
consider_cases c best = elim (Bool-cases (eqb_ℤ c.signon_state signonstate_none)) [
  | inl free ↦ (
    ground arith,
    λ _. ground arith,
    rw free (elim (Bool-cases (ltb_ℤ c.entity_index best)) [
      | inl less ↦ rw less (inr (eqb_ℤ→eq _ _ free, refl))
      | inr more ↦ rw more (inl refl)
    ]),
  )
  | inr taken ↦
      (ground arith, λ e. ground (arith, eqb_ℤ-refl signonstate_none), rw taken (inl refl))
]

-- One more client in front of the list.
module _ (client : ℕ → Client) (n q : ℕ) (ps : List ℕ) (best mid r : ℤ) (below : mid ≤ℤ best)
    (free : IsFree (client q) → mid ≤ℤ (client q).entity_index)
    (rest : LeastFree client n ps mid r) where
  cons-lower :
      (i p : ℕ)
      → i < suc n
      → get_elem? (q ∷ ps) i ≡ some p
      → IsFree (client p)
      → r ≤ℤ (client p).entity_index
  cons-lower zero p h e f =
      let same : q ≡ p = cc in
      subst (λ x. IsFree (client x) → r ≤ℤ (client x).entity_index) same
        (λ g. omega (arith, free g, rest.0)) f
  cons-lower (suc i) p h e f = rest.1 i p (omega arith) e f

  cons-LeastFree :
      (mid ≡ best) ⊎ (IsFree (client q) × (mid ≡ (client q).entity_index))
      → LeastFree client (suc n) (q ∷ ps) best r
  cons-LeastFree origin = (
    omega (arith, rest.0),
    cons-lower,
    elim rest.2 [
      | inr (i, p, h, e, f, same) ↦ inr (suc i, p, omega arith, e, f, same)
      | inl kept ↦ elim origin [
        | inl start ↦ inl (kept ∙ start)
        | inr (f, here) ↦ inr (0, q, omega arith, refl, f, kept ∙ here)
      ]
    ],
  )

-- Over clients that are not NULL, the loop returns the least of its start and the entity indices of
-- the free clients it passes.
pub scan_slots-LeastFree :
    (client : ℕ → Client) (n : ℕ) (ps : List ℕ) (best : ℤ)
    → ((j p : ℕ) → get_elem? ps j ≡ some p → p ≢ 0)
    → (r : ℤ) × (scan_slots client n ps best ≡ some r) × LeastFree client n ps best r
unfolding scan_slots
scan_slots-LeastFree client zero ps best real =
    (best, refl, (omega arith, λ i p h e f. absurd (omega arith), inl refl))
scan_slots-LeastFree client (suc n) [] best real =
    (best, refl, (omega arith, λ i p h e f. cc, inl refl))
scan_slots-LeastFree client (suc n) (q ∷ ps) best real =
    let (below, free, origin) = consider_cases (client q) best in
    let (r, found, least) =
      scan_slots-LeastFree client n ps (consider (client q) best) (λ j. real (suc j)) in
    (
      r,
      rw (==-ne q 0 (real 0 q refl)) found,
      cons-LeastFree client n q ps best _ r below free least origin,
    )
