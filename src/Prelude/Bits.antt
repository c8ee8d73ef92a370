-- ===== src/Prelude/Bits.antt =====
-- Bit operations at variables: a mask of ones is a remainder, and a shifted field joined by `or`
-- to a value below it is a sum. A bit of one byte is read, set and cleared as in a C bitset.
use Prim.Native.Nat.{
  ℕ, zero, suc, ◌+◌, ◌-◌, ◌*◌, ◌/◌, ◌%◌, ◌^◌, ◌≤◌, ◌<◌, min, max, bit_and, bit_or, digits,
  bit_and-bitwise, bit_or-bitwise,
}
use mathlib.Core.Path.{◌≡◌, refl, ap}
use mathlib.Core.Bool.{Bool, true, ◌&&◌}
use native.Mathlib.Omega.{arith}
use native.Mathlib.Nat.{pow-suc, one-le-pow}
use blyt.Prelude.Tests.{◌==◌, ltb, leb, if◌then◌else◌}

-- More rounds than the value has digits change nothing.
rounds_agree :
    (unit : ℕ → ℕ) (op : ℕ → ℕ → ℕ) (v w i j : ℕ)
    → v ≤ j
    → v ≤ i
    → digits unit op i v w ≡ digits unit op j v w
rounds_agree unit op zero w zero zero below above = refl
rounds_agree unit op zero w (suc i) zero below above = refl
rounds_agree unit op zero w zero (suc j) below above = refl
rounds_agree unit op zero w (suc i) (suc j) below above = refl
rounds_agree unit op (suc v) w i zero below above = absurd (omega (arith, below))
rounds_agree unit op (suc v) w zero (suc j) below above = absurd (omega (arith, above))
rounds_agree unit op (suc v) w (suc i) (suc j) below above =
    let rest =
      rounds_agree unit op (suc v / 2) (w / 2) i j (omega (arith, below)) (omega (arith, above)) in
    ap (λ high. high * 2 + op (suc v % 2) (w % 2)) rest

or_halves : (v w : ℕ) → bit_or v w ≡ 2 * bit_or (v / 2) (w / 2) + max (v % 2) (w % 2)
or_halves zero w =
    let low = bit_or-bitwise 0 w in let high = bit_or-bitwise 0 (w / 2) in omega (arith, low, high)
or_halves (suc v) w =
    let same =
      rounds_agree (λ y. y) max (suc v / 2) (w / 2) v (suc v / 2) (omega arith) (omega arith) in
    omega (arith, same, bit_or-bitwise (suc v) w, bit_or-bitwise (suc v / 2) (w / 2))

and_halves : (v w : ℕ) → bit_and v w ≡ 2 * bit_and (v / 2) (w / 2) + min (v % 2) (w % 2)
and_halves zero w =
    let low = bit_and-bitwise 0 w in
    let high = bit_and-bitwise 0 (w / 2) in omega (arith, low, high)
and_halves (suc v) w =
    let same =
      rounds_agree (λ y. 0) min (suc v / 2) (w / 2) v (suc v / 2) (omega arith) (omega arith) in
    omega (arith, same, bit_and-bitwise (suc v) w, bit_and-bitwise (suc v / 2) (w / 2))

-- Both operations with 0, for values up to a bound.
with_zero : (top v : ℕ) → v ≤ top → (bit_or v 0 ≡ v) × (bit_and v 0 ≡ 0)
with_zero top zero h = (bit_or-bitwise 0 0, bit_and-bitwise 0 0)
with_zero zero (suc v) h = absurd (omega (arith, h))
with_zero (suc top) (suc v) h =
    let (joined, met) = with_zero top (suc v / 2) (omega (arith, h)) in
    (omega (arith, joined, or_halves (suc v) 0), omega (arith, met, and_halves (suc v) 0))

or-zero : (v : ℕ) → bit_or v 0 ≡ v
or-zero v = (with_zero v v (omega arith)).0

and-zero : (v : ℕ) → bit_and v 0 ≡ 0
and-zero v = (with_zero v v (omega arith)).1

double_shift : (k q : ℕ) → q * 2 ^ suc k ≡ q * 2 ^ k + q * 2 ^ k
double_shift k q = omega (arith, ap (λ (p : ℕ). q * p) (pow-suc 2 k))

-- `(q << k) | r` for a value `r` of `k` bits.
pub or_fields : (k q r : ℕ) → r < 2 ^ k → bit_or (q * 2 ^ k) r ≡ q * 2 ^ k + r
or_fields zero q r h = ground (arith, or-zero q)
or_fields (suc k) q r h =
    ground
      (arith, pow-suc 2 k, double_shift k q, or_halves (q * 2 ^ suc k) r, or_fields k q (r / 2))

and_ones : (k q r : ℕ) → r < 2 ^ k → bit_and (q * 2 ^ k + r) (2 ^ k - 1) ≡ r
and_ones zero q r h = ground (arith, and-zero (q * 1 + r))
and_ones (suc k) q r h = ground (
  arith,
  pow-suc 2 k,
  double_shift k q,
  and_halves (q * 2 ^ suc k + r) (2 ^ suc k - 1),
  and_ones k q (r / 2),
)

-- `a & (2^k - 1)`.
pub and_mask : (k a : ℕ) → bit_and a (2 ^ k - 1) ≡ a % 2 ^ k
and_mask k a = ground (arith, one-le-pow k 2, and_ones k (a / 2 ^ k) (a % 2 ^ k))

-- A test of all numbers below a bound, by evaluation, from the bound down.
pub holds_upto : (ℕ → Bool) → ℕ → Bool
holds_upto test zero = true
holds_upto test (suc top) = holds_upto test top && test top

pub holds_upto-at :
    (test : ℕ → Bool) (top v : ℕ) → v < top → holds_upto test top ≡ true → test v ≡ true
unfolding holds_upto
holds_upto-at test (suc top) v below all_ = ground (arith, below, all_, holds_upto-at test top v)
holds_upto-at test zero v below all_ = absurd (omega (arith, below))

-- `(b >> k) & 1`, `b | (uint8_t)(1u << k)` and `b & (uint8_t)~(1u << k)` on one byte.
unfoldable pub test_bit : ℕ → ℕ → ℕ
test_bit b k = bit_and (b / 2 ^ k) 1

unfoldable pub set_bit : ℕ → ℕ → ℕ
set_bit b k = bit_or b (2 ^ k % 256)

unfoldable pub clear_bit : ℕ → ℕ → ℕ
clear_bit b k = bit_and b (255 - 2 ^ k % 256)

bits_agree : ℕ → ℕ → ℕ → Bool
unfolding test_bit set_bit clear_bit
bits_agree b k j =
    (test_bit (set_bit b k) j == (if k == j then 1 else test_bit b j))
    && (test_bit (clear_bit b k) j == (if k == j then 0 else test_bit b j))
    && leb (test_bit b k) 1
    && ltb (set_bit b k) 256
    && ltb (clear_bit b k) 256

bits_table : holds_upto (λ b. holds_upto (λ k. holds_upto (λ j. bits_agree b k j) 8) 8) 256 ≡ true
unfolding holds_upto bits_agree
bits_table = refl

-- What the bit operations of one byte promise at bit positions below 8.
pub record BitLaws (b k j : ℕ) : Type 0 where
  pub test-set : test_bit (set_bit b k) j ≡ (if k == j then 1 else test_bit b j)
  pub test-clear : test_bit (clear_bit b k) j ≡ (if k == j then 0 else test_bit b j)
  pub test-le : test_bit b k ≤ 1
  pub set-lt : set_bit b k < 256
  pub clear-lt : clear_bit b k < 256

pub bit_laws : (b k j : ℕ) → b < 256 → k < 8 → j < 8 → BitLaws b k j
unfolding bits_agree test_bit set_bit clear_bit
bit_laws b k j hb hk hj =
    let at_b = holds_upto-at _ 256 b hb bits_table in
    let at_k = holds_upto-at _ 8 k hk at_b in
    let at_j = holds_upto-at _ 8 j hj at_k in ground (arith, at_j)
