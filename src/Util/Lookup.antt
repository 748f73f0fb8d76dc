-- ===== src/Util/Lookup.antt =====
-- What the lookups of source/util.cpp return.
use gmod_queue.Base.{
  ℕ, suc, ◌≤◌, ℤ, pos, negsuc, ◌≡◌, refl, ◌≢◌, ◌⊎◌, inl, inr, some, List, [], ◌∷◌, get_elem?,
  get_elem?_cases, length, arith, eqb_ℤ, eqb_ℤ-refl, eqb_ℤ→eq, Bool-cases, not, ◌&&◌, ◌==◌, false,
  All,
}
use gmod_queue.World.State.{World}
use gmod_queue.World.Monad.{ok}
use gmod_queue.Util.{get_client_by_index, get_client_by_user_id, search_user_id}

-- What `GetClientByIndex` promises: the client at a valid index, and NULL at any other, without
-- a read out of range.
abbrev pub IndexLookup : {L : Type 0} → World L → ℤ → ℕ → Type 0
IndexLookup w (pos i) p =
    (get_elem? w.server_object.clients i ≡ some p)
    ⊎ ((length w.server_object.clients ≤ i) × (p ≡ 0))
IndexLookup w (negsuc i) p = p ≡ 0

-- While the server is known, `GetClientByIndex` returns at every `int` index, changes nothing, and
-- gives the client in the list at a valid index and NULL at any other, negative ones included.
pub get_client_by_index_total :
    {L : Type 0} (w : World L) (index : ℤ)
    → w.server ≢ 0
    → (p : ℕ) × (get_client_by_index index w ≡ (ok p, w)) × IndexLookup w index p
unfolding get_client_by_index
get_client_by_index_total w (negsuc i) known = (0, ground arith, refl)
get_client_by_index_total w (pos i) known = elim (get_elem?_cases w.server_object.clients i) [
  | inl (p, found, inside) ↦ (p, ground arith, inl found)
  | inr outside ↦ (0, ground arith, inr (outside, refl))
]

-- The client that `GetClientByUserID` returns is in the list and has the user id; NULL means that
-- no client of the list has it.
abbrev pub UserIdLookup : {L : Type 0} → World L → ℤ → List ℕ → ℕ → Type 0
UserIdLookup w user_id ps p =
    ((p ≡ 0) × All (λ q. (q ≡ 0) ⊎ ((w.client q).user_id ≢ user_id)) ps)
    ⊎ ((p ≢ 0) × ((w.client p).user_id ≡ user_id) × ((i : ℕ) × (get_elem? ps i ≡ some p)))

passed_over :
    {L : Type 0} (w : World L) (user_id : ℤ) (q : ℕ)
    → not (q == 0) && eqb_ℤ (w.client q).user_id user_id ≡ false
    → (q ≡ 0) ⊎ ((w.client q).user_id ≢ user_id)
passed_over w user_id q miss = elim (Bool-cases (q == 0)) [
  | inl null ↦ inl (ground arith)
  | inr real ↦ inr λ same. ground (arith, eqb_ℤ-refl user_id)
]

search_user_id-UserIdLookup :
    {L : Type 0} (w : World L) (user_id : ℤ) (ps : List ℕ)
    → UserIdLookup w user_id ps (search_user_id w.client user_id ps)
unfolding search_user_id
search_user_id-UserIdLookup w user_id [] = inl (refl, tt)
search_user_id-UserIdLookup w user_id (q ∷ ps) =
    elim (Bool-cases (not (q == 0) && eqb_ℤ (w.client q).user_id user_id)) [
      | inl hit ↦ rw hit (inr (ground arith, eqb_ℤ→eq _ _ (ground arith), (0, refl)))
      | inr miss ↦ rw miss (elim (search_user_id-UserIdLookup w user_id ps) [
        | inl (none_left, rest) ↦ inl (none_left, (passed_over w user_id q miss, rest))
        | inr (real, same, (i, found)) ↦ inr (real, same, (suc i, found))
      ])
    ]

-- While the server is known, `GetClientByUserID` returns and changes nothing: a client of the
-- server's list with that user id, or NULL if no client of the list has it.
pub get_client_by_user_id_total :
    {L : Type 0} (w : World L) (user_id : ℤ)
    → w.server ≢ 0
    → (p : ℕ) × (get_client_by_user_id user_id w ≡ (ok p, w))
      × UserIdLookup w user_id w.server_object.clients p
unfolding get_client_by_user_id
get_client_by_user_id_total w user_id known = (
  search_user_id w.client user_id w.server_object.clients,
  ground arith,
  search_user_id-UserIdLookup w user_id w.server_object.clients,
)
