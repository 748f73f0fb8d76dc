-- ===== src/Base/Lists.antt =====
-- Lists measured and indexed by native numbers, and association lists keyed by addresses.
use Prim.Native.Nat.{ℕ, zero, suc, ◌+◌, ◌-◌, ◌≤◌, ◌<◌}
use mathlib.Core.Path.{◌≡◌, refl, ◌∙◌}
use mathlib.Core.Logic.{◌≢◌, ◌⊎◌, inl, inr}
use mathlib.Core.List.{List, [], ◌∷◌, ◌++◌}
use mathlib.Core.Option.{Option, none, some}
use native.Mathlib.Omega.{arith}
use gmod_queue.Base.Tests.{◌==◌, if◌then◌else◌, Bool-cases, ==-refl, ==_iff}

module _ {ℓ} {A : Type ℓ} where
  abbrev pub length : List A → ℕ
  length [] = 0
  length (x ∷ xs) = suc (length xs)

  abbrev pub get_elem? : List A → ℕ → Option A
  get_elem? [] i = none
  get_elem? (x ∷ xs) zero = some x
  get_elem? (x ∷ xs) (suc i) = get_elem? xs i

  abbrev pub drop : ℕ → List A → List A
  drop zero xs = xs
  drop (suc n) [] = []
  drop (suc n) (x ∷ xs) = drop n xs

  pub length-append : (xs ys : List A) → length (xs ++ ys) ≡ length xs + length ys
  length-append [] ys = omega arith
  length-append (x ∷ xs) ys = omega (arith, length-append xs ys)

  pub length-drop : (n : ℕ) (xs : List A) → length (drop n xs) ≡ length xs - n
  length-drop zero xs = omega arith
  length-drop (suc n) [] = omega arith
  length-drop (suc n) (x ∷ xs) = omega (arith, length-drop n xs)

  pub get_elem?_out_of_range : (xs : List A) (i : ℕ) → length xs ≤ i → get_elem? xs i ≡ none
  get_elem?_out_of_range [] i h = refl
  get_elem?_out_of_range (x ∷ xs) zero h = absurd (omega arith)
  get_elem?_out_of_range (x ∷ xs) (suc i) h = get_elem?_out_of_range xs i (omega arith)

  -- An index is in range, and the read succeeds; or it is not.
  pub get_elem?_cases :
      (xs : List A) (i : ℕ)
      → ((a : A) × (get_elem? xs i ≡ some a) × (i < length xs)) ⊎ (length xs ≤ i)
  get_elem?_cases [] i = inr (omega arith)
  get_elem?_cases (x ∷ xs) zero = inl (x, refl, omega arith)
  get_elem?_cases (x ∷ xs) (suc i) = elim (get_elem?_cases xs i) [
    | inl (a, e, h) ↦ inl (a, e, omega arith)
    | inr h ↦ inr (omega arith)
  ]

  pub get_elem?-lt_length : (xs : List A) (i : ℕ) (a : A) → get_elem? xs i ≡ some a → i < length xs
  get_elem?-lt_length [] i a e = cc
  get_elem?-lt_length (x ∷ xs) zero a e = omega arith
  get_elem?-lt_length (x ∷ xs) (suc i) a e = omega (arith, get_elem?-lt_length xs i a e)

-- A predicate of every element.
abbrev pub All {ℓ κ} : {A : Type ℓ} → (A → Type κ) → List A → Type κ
All P [] = Unit
All P (x ∷ xs) = P x × All P xs

-- A heap: objects by address. Address 0 is the null pointer.
abbrev pub update {ℓ} : {A : Type ℓ} → (ℕ → A) → ℕ → A → ℕ → A
update f p v q = if p == q then v else f q

pub update_self {ℓ} : {A : Type ℓ} (f : ℕ → A) (p : ℕ) (v : A) → update f p v p ≡ v
update_self f p v = rw ==-refl

pub update-ne {ℓ} : {A : Type ℓ} (f : ℕ → A) (p q : ℕ) (v : A) → p ≢ q → update f p v q ≡ f q
update-ne f p q v h = elim (Bool-cases (p == q)) [
  | inl same ↦ absurd (h ((==_iff p q).0 same))
  | inr other ↦ rw other
]

module _ {ℓ} {V : Type ℓ} where
  -- `std::unordered_map::find`
  abbrev pub lookup : ℕ → List (ℕ × V) → Option V
  lookup k [] = none
  lookup k ((j, v) ∷ m) = if j == k then some v else lookup k m

  -- `map[k] = v`
  abbrev pub insert : ℕ → V → List (ℕ × V) → List (ℕ × V)
  insert k v [] = (k, v) ∷ []
  insert k v ((j, w) ∷ m) = if j == k then (k, v) ∷ m else (j, w) ∷ insert k v m

  -- `map.erase(k)`
  abbrev pub erase : ℕ → List (ℕ × V) → List (ℕ × V)
  erase k [] = []
  erase k ((j, w) ∷ m) = if j == k then m else (j, w) ∷ erase k m

  pub lookup-insert :
      (k j : ℕ) (v : V) (m : List (ℕ × V))
      → lookup j (insert k v m) ≡ (if k == j then some v else lookup j m)
  lookup-insert k j v [] = refl
  lookup-insert k j v ((i, w) ∷ m) = ground (arith, lookup-insert k j v m)

  pub lookup-erase_ne : (k j : ℕ) (m : List (ℕ × V)) → j ≢ k → lookup j (erase k m) ≡ lookup j m
  lookup-erase_ne k j [] h = refl
  lookup-erase_ne k j ((i, w) ∷ m) h = ground (arith, lookup-erase_ne k j m h)

  -- No key stands twice.
  abbrev pub IsMap : List (ℕ × V) → Type ℓ
  IsMap [] = Unit
  IsMap ((k, v) ∷ m) = (lookup k m ≡ none) × IsMap m

  pub insert-IsMap : (k : ℕ) (v : V) (m : List (ℕ × V)) → IsMap m → IsMap (insert k v m)
  insert-IsMap k v [] h = (refl, tt)
  insert-IsMap k v ((j, w) ∷ m) h = ground (arith, insert-IsMap k v m h.1, lookup-insert k j v m)

  pub erase-IsMap : (k : ℕ) (m : List (ℕ × V)) → IsMap m → IsMap (erase k m)
  erase-IsMap k [] h = h
  erase-IsMap k ((j, w) ∷ m) h = elim (Bool-cases (j == k)) [
    | inl hit ↦ rw hit h.1
    | inr miss ↦ rw miss (lookup-erase_ne k j m (ground arith) ∙ h.0, erase-IsMap k m h.1)
  ]

  pub lookup-erase_self : (k : ℕ) (m : List (ℕ × V)) → IsMap m → lookup k (erase k m) ≡ none
  lookup-erase_self k [] h = refl
  lookup-erase_self k ((j, w) ∷ m) h = ground (arith, lookup-erase_self k m h.1)
