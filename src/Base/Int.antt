-- ===== src/Base/Int.antt =====
-- The C `int` as an integer, with the comparisons and the predecessor that the program uses.
use Prim.Native.Nat.{ℕ, zero, suc, ◌+◌, ◌≤◌}
use mathlib.Core.Path.{◌≡◌, refl}
use mathlib.Core.Bool.{Bool, true, false, ◌&&◌}
use mathlib.Core.Logic.{◌≢◌, ◌⊎◌, inl, inr}
use native.Mathlib.Omega.{arith}
use gmod_queue.Base.Tests.{ltb, leb, ◌==◌, Bool-cases, if◌then◌else◌}

-- `negsuc n` is -(n + 1).
pub data ℤ : Type 0 where
  pos : ℕ → ℤ
  negsuc : ℕ → ℤ

abbrev pub pos_part : ℤ → ℕ
pos_part (pos n) = n
pos_part (negsuc _) = 0

abbrev pub neg_part : ℤ → ℕ
neg_part (pos _) = 0
neg_part (negsuc n) = suc n

abbrev pub ltb_ℤ : ℤ → ℤ → Bool
ltb_ℤ a b = ltb (pos_part a + neg_part b) (pos_part b + neg_part a)

abbrev pub leb_ℤ : ℤ → ℤ → Bool
leb_ℤ a b = leb (pos_part a + neg_part b) (pos_part b + neg_part a)

abbrev pub eqb_ℤ : ℤ → ℤ → Bool
eqb_ℤ a b = pos_part a + neg_part b == pos_part b + neg_part a

infix 50 ◌≤ℤ◌
abbrev pub ◌≤ℤ◌ : ℤ → ℤ → Type 0
a ≤ℤ b = pos_part a + neg_part b ≤ pos_part b + neg_part a

-- -1, which the program uses for "none".
abbrev pub minus_one : ℤ
minus_one = negsuc 0

-- `(int)` of a double with this integral part: one that an `int` cannot hold gives the least `int`, as
-- the conversion on x86 does.
abbrev pub cast_int : ℤ → ℤ
cast_int n =
    if leb_ℤ (negsuc 2147483647) n && leb_ℤ n (pos 2147483647) then n else negsuc 2147483647

-- `n - 1`
abbrev pub pred_ℤ : ℤ → ℤ
pred_ℤ (pos zero) = negsuc 0
pred_ℤ (pos (suc n)) = pos n
pred_ℤ (negsuc n) = negsuc (suc n)

pub sign-cases : (a : ℤ) → ((n : ℕ) × (a ≡ negsuc n)) ⊎ ((n : ℕ) × (a ≡ pos n))
sign-cases (pos n) = inr (n, refl)
sign-cases (negsuc n) = inl (n, refl)

pub eqb_ℤ-refl : (a : ℤ) → eqb_ℤ a a ≡ true
eqb_ℤ-refl a = ground arith

pub eqb_ℤ→eq : (a b : ℤ) → eqb_ℤ a b ≡ true → a ≡ b
eqb_ℤ→eq a b h = ground arith

pub ne-eqb_ℤ : (a b : ℤ) → a ≢ b → eqb_ℤ a b ≡ false
ne-eqb_ℤ a b h = elim (Bool-cases (eqb_ℤ a b)) [
  | inl same ↦ absurd (h (eqb_ℤ→eq a b same))
  | inr other ↦ other
]
