-- ===== src/Shared/Gen.antt =====
-- runtime/shared/blyt_gen.h: the generation counter of an entity slot.
use blyt.Prelude.{ℕ, ◌+◌, ◌%◌, ◌≤◌, ◌≢◌, arith, ◌==◌, if◌then◌else◌}

-- A public generation lies in 1 .. 65535; 0 is the invalid sentinel.
abbrev pub IsGen : ℕ → Type 0
IsGen g = (1 ≤ g) × (g ≤ 0xFFFF)

unfoldable pub gen_next : ℕ → ℕ
gen_next gen = (if gen == 0xFFFF then 1 else gen + 1) % 65536

pub gen_next-IsGen : (g : ℕ) → IsGen g → IsGen (gen_next g)
unfolding gen_next
gen_next-IsGen g h = ground arith

pub gen_next-ne : (g : ℕ) → IsGen g → gen_next g ≢ g
unfolding gen_next
gen_next-ne g h = ground arith
