-- ===== src/Raster/Line/Error.antt =====
-- The error term of `blyt_raster_line` of runtime/shared/blyt_raster.c and the rounds of its loop.
use blyt.Prelude.{
  ℕ, suc, ◌+◌, ◌*◌, ◌^◌, ◌≤◌, ◌<◌, ◌≡◌, Bool, true, false, arith, if◌then◌else◌, inl, inr, ◌⊎◌, max,
}
use blyt.Prelude.Int.{ℤ, pos, negsuc, pos_part, neg_part, ◌+ℤ◌, ◌-ℤ◌, ltb_ℤ, wrap32, wrap32_lem}
use blyt.Raster.{Walk, Slope, step_x, step_y, line_step}

-- The step of an axis, and that `n` of them lead from `a` to `b`.
abbrev pub unit : Bool → ℤ
unit forward = if forward then pos 1 else negsuc 0

abbrev pub Ahead : Bool → ℕ → ℤ → ℤ → Type 0
Ahead forward n a b =
    pos_part a + neg_part b + (if forward then n else 0)
    ≡ neg_part a + pos_part b + (if forward then 0 else n)

-- A coordinate that is far from overflow.
abbrev pub IsCoord : ℤ → Type 0
IsCoord a = (pos_part a ≤ 2 ^ 28) × (neg_part a ≤ 2 ^ 28)

abbrev pub IsDistance : ℕ → Type 0
IsDistance n = n ≤ 2 ^ 29

pub step-Ahead :
    (forward : Bool) (n : ℕ) (a b : ℤ)
    → Ahead forward (suc n) a b
    → IsCoord b
    → IsDistance n
    → (wrap32 (a +ℤ unit forward) ≡ a +ℤ unit forward) × Ahead forward n (a +ℤ unit forward) b
unfolding ◌+ℤ◌
step-Ahead true n a b h c d = (wrap32_lem (a +ℤ pos 1) (ground arith, ground arith), ground arith)
step-Ahead false n a b h c d =
    (wrap32_lem (a +ℤ negsuc 0) (ground arith, ground arith), ground arith)

-- The error of a walk with `n` steps left across and `m` left down.
abbrev pub Balance : ℕ → ℕ → ℕ → ℕ → ℤ → Type 0
Balance dx dy n m e = pos_part e + dy + m * dx ≡ neg_part e + dx + n * dy

-- The bounds of the error where the line is flat; they are exchanged where it is steep.
abbrev pub Bounded : ℕ → ℕ → ℕ → ℕ → Type 0
Bounded major minor up down =
    (2 * down < minor + 2 * up)
    × (2 * up + 2 * minor < 3 * major + 2 * down)
    × (major + 2 * down ≤ 2 * up + 2 * minor)

module _ (dx dy : ℕ) (e : ℤ) (small_dx : IsDistance dx) (small_dy : IsDistance dy) where
  abbrev Moderate : Type 0
  Moderate = (pos_part e < 2 ^ 30) × (neg_part e < 2 ^ 30)

  doubled : Moderate → wrap32 (e +ℤ e) ≡ e +ℤ e
  unfolding ◌+ℤ◌
  doubled m = wrap32_lem (e +ℤ e) (ground arith, ground arith)

  opposite : wrap32 (pos 0 -ℤ pos dy) ≡ pos 0 -ℤ pos dy
  unfolding ◌-ℤ◌
  opposite = wrap32_lem (pos 0 -ℤ pos dy) (ground arith, ground arith)

  lowered : Moderate → wrap32 (e -ℤ pos dy) ≡ e -ℤ pos dy
  unfolding ◌-ℤ◌
  lowered m = wrap32_lem (e -ℤ pos dy) (ground arith, ground arith)

  raised : Moderate → wrap32 (e +ℤ pos dx) ≡ e +ℤ pos dx
  unfolding ◌+ℤ◌
  raised m = wrap32_lem (e +ℤ pos dx) (ground arith, ground arith)

  both : Moderate → wrap32 (e -ℤ pos dy +ℤ pos dx) ≡ e -ℤ pos dy +ℤ pos dx
  unfolding ◌+ℤ◌ ◌-ℤ◌
  both m = wrap32_lem (e -ℤ pos dy +ℤ pos dx) (ground arith, ground arith)

abbrev pub axes : ℕ → ℕ → Bool → Bool → Slope
axes dx dy forward_x forward_y = record {
  dx = pos dx;
  dy = pos dy;
  sx = unit forward_x;
  sy = unit forward_y;
}

-- One round of the loop, by the axes on which it moves.
module _ (dx dy : ℕ) (forward_x forward_y : Bool) (w : Walk) (small_dx : IsDistance dx)
    (small_dy : IsDistance dy) (moderate : Moderate dx dy w.err small_dx small_dy) where
  abbrev moves_x : Bool
  moves_x = ltb_ℤ (pos 0 -ℤ pos dy) (w.err +ℤ w.err)

  abbrev moves_y : Bool
  moves_y = ltb_ℤ (w.err +ℤ w.err) (pos dx)

  pub moves-both :
      moves_x ≡ true
      → moves_y ≡ true
      → wrap32 (w.at_x +ℤ unit forward_x) ≡ w.at_x +ℤ unit forward_x
      → wrap32 (w.at_y +ℤ unit forward_y) ≡ w.at_y +ℤ unit forward_y
      → line_step (axes dx dy forward_x forward_y) w ≡ record {
        at_x = w.at_x +ℤ unit forward_x;
        at_y = w.at_y +ℤ unit forward_y;
        err = w.err -ℤ pos dy +ℤ pos dx;
      }
  unfolding line_step step_x step_y
  moves-both x y ex ey = rw (
    doubled dx dy w.err small_dx small_dy moderate,
    opposite dx dy w.err small_dx small_dy,
    x,
    y,
    lowered dx dy w.err small_dx small_dy moderate,
    both dx dy w.err small_dx small_dy moderate,
    ex,
    ey,
  )

  pub moves-across :
      moves_x ≡ true
      → moves_y ≡ false
      → wrap32 (w.at_x +ℤ unit forward_x) ≡ w.at_x +ℤ unit forward_x
      → line_step (axes dx dy forward_x forward_y) w
        ≡ record { at_x = w.at_x +ℤ unit forward_x; at_y = w.at_y; err = w.err -ℤ pos dy }
  unfolding line_step step_x step_y
  moves-across x y ex = rw (
    doubled dx dy w.err small_dx small_dy moderate,
    opposite dx dy w.err small_dx small_dy,
    x,
    y,
    lowered dx dy w.err small_dx small_dy moderate,
    ex,
  )

  pub moves-down :
      moves_x ≡ false
      → moves_y ≡ true
      → wrap32 (w.at_y +ℤ unit forward_y) ≡ w.at_y +ℤ unit forward_y
      → line_step (axes dx dy forward_x forward_y) w
        ≡ record { at_x = w.at_x; at_y = w.at_y +ℤ unit forward_y; err = w.err +ℤ pos dx }
  unfolding line_step step_x step_y
  moves-down x y ey = rw (
    doubled dx dy w.err small_dx small_dy moderate,
    opposite dx dy w.err small_dx small_dy,
    x,
    y,
    raised dx dy w.err small_dx small_dy moderate,
    ey,
  )

-- The error of a line before its first round.
pub start-Balance : (dx dy : ℕ) → Balance dx dy dx dy (pos dx -ℤ pos dy)
unfolding ◌-ℤ◌
start-Balance dx dy = ground arith

pub start-Bounded :
    (dx dy : ℕ)
    → let e = pos dx -ℤ pos dy in
      (0 < dx → dy ≤ dx → Bounded dx dy (pos_part e) (neg_part e))
      × (dx < dy → Bounded dy dx (neg_part e) (pos_part e))
unfolding ◌-ℤ◌
start-Bounded dx dy = (
  (λ p h. (ground arith, ground arith, ground arith)),
  (λ h. (ground arith, ground arith, ground arith)),
)

-- The bounds of the error keep the walk within half a step of the true line.
pub near_line :
    (dx dy n m : ℕ) (e : ℤ)
    → Balance dx dy n m e
    → (Bounded dx dy (pos_part e) (neg_part e)) ⊎ (Bounded dy dx (neg_part e) (pos_part e))
    → (2 * (m * dx) ≤ max dx dy + 2 * (n * dy)) × (2 * (n * dy) ≤ max dx dy + 2 * (m * dx))
near_line dx dy n m e b (inl h) = (omega arith, omega arith)
near_line dx dy n m e b (inr h) = (omega arith, omega arith)
