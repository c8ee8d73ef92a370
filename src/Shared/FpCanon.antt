-- ===== src/Shared/FpCanon.antt =====
-- runtime/shared/blyt_fp_canon.c: one NaN bit pattern for each width, on bit patterns.
use blyt.Prelude.{ℕ, ◌^◌, ◌<◌, ◌≡◌, ◌&&◌, not, arith, ◌==◌, if◌then◌else◌, bit_and}

abbrev pub f32_canonical_nan : ℕ
f32_canonical_nan = 0x7FC0_0000

abbrev pub f64_canonical_nan : ℕ
f64_canonical_nan = 0x7FF8_0000_0000_0000

unfoldable pub canon_f32 : ℕ → ℕ
canon_f32 bits =
    if (bit_and bits 0x7F80_0000 == 0x7F80_0000) && not (bit_and bits 0x007F_FFFF == 0)
    then f32_canonical_nan
    else bits

unfoldable pub canon_f64 : ℕ → ℕ
canon_f64 bits =
    if (bit_and bits 0x7FF0_0000_0000_0000 == 0x7FF0_0000_0000_0000)
      && not (bit_and bits 0x000F_FFFF_FFFF_FFFF == 0)
    then f64_canonical_nan
    else bits

pub canon_f32-lt : (bits : ℕ) → bits < 2 ^ 32 → canon_f32 bits < 2 ^ 32
unfolding canon_f32
canon_f32-lt bits h = ground arith

pub canon_f64-lt : (bits : ℕ) → bits < 2 ^ 64 → canon_f64 bits < 2 ^ 64
unfolding canon_f64
canon_f64-lt bits h = ground arith

-- Canonicalising twice is canonicalising once.
pub canon_f32-canon_f32 : (bits : ℕ) → canon_f32 (canon_f32 bits) ≡ canon_f32 bits
unfolding canon_f32
canon_f32-canon_f32 bits = ground arith

pub canon_f64-canon_f64 : (bits : ℕ) → canon_f64 (canon_f64 bits) ≡ canon_f64 bits
unfolding canon_f64
canon_f64-canon_f64 bits = ground arith
