-- ===== src/Prelude/Int.antt =====
-- Signed integers over the native numbers, under the library's names, and C's `int` and `int64_t`.
use Prim.Native.Nat.{ℕ, suc, ◌+◌, ◌-◌, ◌*◌, ◌%◌, ◌^◌, ◌≤◌, ◌<◌}
use mathlib.Core.Path.{◌≡◌}
use mathlib.Core.Bool.{Bool}
use native.Mathlib.Omega.{arith}
use blyt.Prelude.Tests.{ltb, leb, if◌then◌else◌, ◌==◌}

-- `negsuc n` is -(n + 1).
pub data ℤ : Type 0 where
  pos : ℕ → ℤ
  negsuc : ℕ → ℤ

abbrev pub pos_part : ℤ → ℕ
pos_part (pos n) = n
pos_part (negsuc n) = 0

abbrev pub neg_part : ℤ → ℕ
neg_part (pos n) = 0
neg_part (negsuc n) = suc n

-- a - b, as an integer.
abbrev pub sub_ℕ : ℕ → ℕ → ℤ
sub_ℕ a b = if leb b a then pos (a - b) else negsuc (b - a - 1)

infixl 65 ◌+ℤ◌ ◌-ℤ◌
infix 50 ◌≤ℤ◌ ◌<ℤ◌
unfoldable pub ◌+ℤ◌ : ℤ → ℤ → ℤ
a +ℤ b = sub_ℕ (pos_part a + pos_part b) (neg_part a + neg_part b)

unfoldable pub ◌-ℤ◌ : ℤ → ℤ → ℤ
a -ℤ b = sub_ℕ (pos_part a + neg_part b) (neg_part a + pos_part b)

abbrev pub ◌≤ℤ◌ : ℤ → ℤ → Type 0
a ≤ℤ b = pos_part a + neg_part b ≤ pos_part b + neg_part a

abbrev pub ◌<ℤ◌ : ℤ → ℤ → Type 0
a <ℤ b = pos_part a + neg_part b < pos_part b + neg_part a

abbrev pub ltb_ℤ : ℤ → ℤ → Bool
ltb_ℤ a b = ltb (pos_part a + neg_part b) (pos_part b + neg_part a)

abbrev pub leb_ℤ : ℤ → ℤ → Bool
leb_ℤ a b = leb (pos_part a + neg_part b) (pos_part b + neg_part a)

abbrev pub eqb_ℤ : ℤ → ℤ → Bool
eqb_ℤ a b = (pos_part a + neg_part b) == (pos_part b + neg_part a)

-- One lemma for each operation lets `omega` work with the operations shut.
pub +ℤ_parts :
    (a b : ℤ)
    → pos_part (a +ℤ b) + neg_part a + neg_part b ≡ neg_part (a +ℤ b) + pos_part a + pos_part b
unfolding ◌+ℤ◌
+ℤ_parts a b = ground arith

pub -ℤ_parts :
    (a b : ℤ)
    → pos_part (a -ℤ b) + neg_part a + pos_part b ≡ neg_part (a -ℤ b) + pos_part a + neg_part b
unfolding ◌-ℤ◌
-ℤ_parts a b = ground arith

pub eq_of_parts : (a b : ℤ) → pos_part a + neg_part b ≡ pos_part b + neg_part a → a ≡ b
eq_of_parts a b h = ground arith

pub ruleset int_laws = (arith, +ℤ_parts, -ℤ_parts, eq_of_parts)

-- The range of a signed word of `2 * half` values.
abbrev pub IsSigned : ℕ → ℤ → Type 0
IsSigned half a = (pos_part a < half) × (neg_part a ≤ half)

abbrev pub IsInt32 : ℤ → Type 0
IsInt32 = IsSigned (2 ^ 31)

-- The word with the low bits of `a`, read as a signed number.
abbrev pub signed : ℕ → ℕ → ℤ
signed half u = if ltb u half then pos u else negsuc (2 * half - 1 - u)

abbrev pub low_word : ℕ → ℤ → ℕ
low_word modulus (pos n) = n % modulus
low_word modulus (negsuc n) = modulus - 1 - n % modulus

-- `(int32_t)a` and `(int64_t)a`: arithmetic wraps around.
unfoldable pub wrap32 : ℤ → ℤ
wrap32 a = signed (2 ^ 31) (low_word (2 ^ 32) a)

unfoldable pub wrap64 : ℤ → ℤ
wrap64 a = signed (2 ^ 63) (low_word (2 ^ 64) a)

pub wrap32_lem : (a : ℤ) → IsInt32 a → wrap32 a ≡ a
unfolding wrap32
wrap32_lem (pos n) h = ground arith
wrap32_lem (negsuc n) h = ground arith

pub wrap64_lem : (a : ℤ) → IsSigned (2 ^ 63) a → wrap64 a ≡ a
unfolding wrap64
wrap64_lem (pos n) h = ground arith
wrap64_lem (negsuc n) h = ground arith

-- Sums and opposites of two `int`s fit 64 bits.
pub wrap64-add : (a b : ℤ) → IsInt32 a → IsInt32 b → wrap64 (a +ℤ b) ≡ a +ℤ b
unfolding ◌+ℤ◌
wrap64-add a b h k = wrap64_lem (a +ℤ b) (ground arith, ground arith)

pub wrap64-opposite : (a : ℤ) → IsInt32 a → wrap64 (pos 0 -ℤ a) ≡ pos 0 -ℤ a
unfolding ◌-ℤ◌
wrap64-opposite a h = wrap64_lem (pos 0 -ℤ a) (ground arith, ground arith)

-- The distance from a number that is not negative, or 0 if there is none.
pub pos_part-sub : (a b : ℤ) → neg_part b ≡ 0 → pos_part (a -ℤ b) ≡ pos_part a - pos_part b
unfolding ◌-ℤ◌
pos_part-sub a b h = ground arith
