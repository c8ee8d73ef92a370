-- ===== src/Prelude/Bytes.antt =====
-- Byte arrays as lists: little-endian numbers, and `memcpy` from and to an offset.
use Prim.Native.Nat.{ℕ, zero, suc, ◌+◌, ◌-◌, ◌*◌, ◌/◌, ◌%◌, ◌^◌, ◌≤◌, ◌<◌}
use mathlib.Core.Path.{◌≡◌, refl, ◌∙◌, ap, ap₂}
use mathlib.Core.Logic.{◌⊎◌}
use mathlib.Core.List.{List, [], ◌∷◌}
use native.Mathlib.Omega.{arith}
use native.Mathlib.Nat.{
  pow-suc, one-le-pow, div-add-mod, mod-lt, mod-eq_of_lt, mul-add-mod_self_left, mul_comm,
}
use mathlib.Core.Bool.{◌&&◌}
use blyt.Prelude.Lists.{length, take, drop, All, get_elem?}
use blyt.Prelude.Tests.{ltb, leb, if◌then◌else◌}

abbrev pub IsByte : ℕ → Type 0
IsByte b = b < 256

-- The `n` low bytes of a number, lowest first, and the number that such bytes spell.
unfoldable pub le_bytes : ℕ → ℕ → List ℕ
le_bytes zero v = []
le_bytes (suc n) v = (v % 256) ∷ le_bytes n (v / 256)

unfoldable pub le_value : List ℕ → ℕ
le_value [] = 0
le_value (b ∷ bs) = b + 256 * le_value bs

pub length-le_bytes : (n v : ℕ) → length (le_bytes n v) ≡ n
unfolding le_bytes
length-le_bytes zero v = refl
length-le_bytes (suc n) v = ap suc (length-le_bytes n (v / 256))

pub le_bytes-IsByte : (n v : ℕ) → All IsByte (le_bytes n v)
unfolding le_bytes
le_bytes-IsByte zero v = tt
le_bytes-IsByte (suc n) v = (omega arith, le_bytes-IsByte n (v / 256))

-- A number of `n` bytes is read back.
pub le_value-le_bytes : (n v : ℕ) → v < 256 ^ n → le_value (le_bytes n v) ≡ v
unfolding le_bytes le_value
le_value-le_bytes zero v h = omega arith
le_value-le_bytes (suc n) v h = ground (arith, pow-suc 256 n, le_value-le_bytes n (v / 256))

pub le_value-lt : (bs : List ℕ) → All IsByte bs → le_value bs < 256 ^ length bs
unfolding le_value
le_value-lt [] h = omega arith
le_value-lt (b ∷ bs) h = ground (arith, pow-suc 256 (length bs), le_value-lt bs h.1)

pub le_bytes-le_value : (bs : List ℕ) → All IsByte bs → le_bytes (length bs) (le_value bs) ≡ bs
unfolding le_bytes le_value
le_bytes-le_value [] h = refl
le_bytes-le_value (b ∷ bs) (hb, hbs) =
    ap₂ ◌∷◌ (omega arith) (ap (le_bytes (length bs)) (omega arith) ∙ le_bytes-le_value bs hbs)

-- `memcpy(out, xs + off, n)`: the bytes that lie in the array.
abbrev pub read_at : List ℕ → ℕ → ℕ → List ℕ
read_at xs off n = take n (drop off xs)

-- `memcpy(xs + off, src, length src)`: a byte past the end of the array is dropped.
pub write_at : List ℕ → ℕ → List ℕ → List ℕ
write_at [] off src = []
write_at (x ∷ xs) zero [] = x ∷ xs
write_at (x ∷ xs) zero (b ∷ bs) = b ∷ write_at xs zero bs
write_at (x ∷ xs) (suc off) src = x ∷ write_at xs off src

pub length-write_at :
    (xs : List ℕ) (off : ℕ) (src : List ℕ) → length (write_at xs off src) ≡ length xs
unfolding write_at
length-write_at [] off src = refl
length-write_at (x ∷ xs) zero [] = refl
length-write_at (x ∷ xs) zero (b ∷ bs) = ap suc (length-write_at xs zero bs)
length-write_at (x ∷ xs) (suc off) src = ap suc (length-write_at xs off src)

-- What was written is read back.
pub read_at-write_at :
    (xs : List ℕ) (off : ℕ) (src : List ℕ)
    → off + length src ≤ length xs
    → read_at (write_at xs off src) off (length src) ≡ src
unfolding write_at
read_at-write_at [] zero [] h = refl
read_at-write_at [] zero (b ∷ bs) h = absurd (omega arith)
read_at-write_at [] (suc off) src h = absurd (omega arith)
read_at-write_at (x ∷ xs) zero [] h = refl
read_at-write_at (x ∷ xs) zero (b ∷ bs) h =
    ap (λ r. b ∷ r) (read_at-write_at xs zero bs (omega arith))
read_at-write_at (x ∷ xs) (suc off) src h = read_at-write_at xs off src (omega arith)

-- A region that the write does not touch reads as before.
pub read_at-write_at_apart :
    (xs : List ℕ) (off : ℕ) (src : List ℕ) (at n : ℕ)
    → (at + n ≤ off) ⊎ (off + length src ≤ at)
    → read_at (write_at xs off src) at n ≡ read_at xs at n
unfolding write_at
read_at-write_at_apart [] off src at n h = refl
read_at-write_at_apart (x ∷ xs) zero [] at n h = refl
read_at-write_at_apart (x ∷ xs) zero (b ∷ bs) zero zero h = refl
read_at-write_at_apart (x ∷ xs) zero (b ∷ bs) zero (suc n) h = absurd (omega arith)
read_at-write_at_apart (x ∷ xs) zero (b ∷ bs) (suc at) n h =
    read_at-write_at_apart xs zero bs at n (omega arith)
read_at-write_at_apart (x ∷ xs) (suc off) src zero zero h = refl
read_at-write_at_apart (x ∷ xs) (suc off) src zero (suc n) h =
    ap (λ r. x ∷ r) (read_at-write_at_apart xs off src zero n (omega arith))
read_at-write_at_apart (x ∷ xs) (suc off) src (suc at) n h =
    read_at-write_at_apart xs off src at n (omega arith)

pub write_at-IsByte :
    (xs : List ℕ) (off : ℕ) (src : List ℕ)
    → All IsByte xs
    → All IsByte src
    → All IsByte (write_at xs off src)
unfolding write_at
write_at-IsByte [] off src h k = h
write_at-IsByte (x ∷ xs) zero [] h k = h
write_at-IsByte (x ∷ xs) zero (b ∷ bs) h k = (k.0, write_at-IsByte xs zero bs h.1 k.1)
write_at-IsByte (x ∷ xs) (suc off) src h k = (h.0, write_at-IsByte xs off src h.1 k)

mod_digits : (v p : ℕ) → 0 < p → v % (256 * p) ≡ v % 256 + 256 * (v / 256 % p)
mod_digits v p h =
    let q = v / 256 / p in
    let r = v / 256 % p in
    let whole : v ≡ 256 * p * q + (v % 256 + 256 * r) =
      omega (arith, ap (λ (t : ℕ). 256 * t) (div-add-mod (v / 256) p)) in
    let low : v % 256 + 256 * r < 256 * p = omega (arith, mod-lt (v / 256) h) in
    ap (λ t. t % (256 * p)) whole
    ∙ mul-add-mod_self_left (256 * p) q (v % 256 + 256 * r)
    ∙ mod-eq_of_lt low

-- A number is read back modulo the width.
pub le_value-le_bytes_mod : (n v : ℕ) → le_value (le_bytes n v) ≡ v % 256 ^ n
unfolding le_bytes le_value
le_value-le_bytes_mod zero v = omega arith
le_value-le_bytes_mod (suc n) v = omega (
  arith,
  ap (λ (p : ℕ). v % p) (pow-suc 256 n),
  mul_comm (256 ^ n) 256,
  ap (λ (p : ℕ). v % p) (mul_comm (256 ^ n) 256),
  mod_digits v (256 ^ n) (one-le-pow n 256 (omega arith)),
  le_value-le_bytes_mod n (v / 256),
)

-- A write of the whole array.
pub write_all : (xs ys : List ℕ) → length xs ≡ length ys → write_at xs 0 ys ≡ ys
unfolding write_at
write_all [] [] e = refl
write_all [] (y ∷ ys) e = absurd (omega arith)
write_all (x ∷ xs) [] e = absurd (omega arith)
write_all (x ∷ xs) (y ∷ ys) e = ap (λ t. y ∷ t) (write_all xs ys (omega arith))

-- The array after a write, byte by byte.
pub get_elem?-write_at :
    (xs : List ℕ) (off : ℕ) (src : List ℕ) (i : ℕ)
    → off + length src ≤ length xs
    → get_elem? (write_at xs off src) i
      ≡ (if leb off i && ltb i (off + length src) then get_elem? src (i - off) else get_elem? xs i)
unfolding write_at
get_elem?-write_at [] zero [] i h = ground arith
get_elem?-write_at [] zero (b ∷ bs) i h = absurd (omega arith)
get_elem?-write_at [] (suc off) src i h = absurd (omega arith)
get_elem?-write_at (x ∷ xs) zero [] i h = ground arith
get_elem?-write_at (x ∷ xs) zero (b ∷ bs) zero h = ground arith
get_elem?-write_at (x ∷ xs) zero (b ∷ bs) (suc i) h =
    ground (arith, get_elem?-write_at xs zero bs i (omega arith))
get_elem?-write_at (x ∷ xs) (suc off) src zero h = ground arith
get_elem?-write_at (x ∷ xs) (suc off) src (suc i) h =
    ground (arith, get_elem?-write_at xs off src i (omega arith))
