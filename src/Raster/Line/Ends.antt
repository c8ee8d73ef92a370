-- ===== src/Raster/Line/Ends.antt =====
-- `blyt_raster_line` of runtime/shared/blyt_raster.c as a whole: it ends, close to the true line.
use blyt.Prelude.{
  ℕ, suc, ◌+◌, ◌*◌, ◌≤◌, ◌<◌, max, ◌≡◌, refl, ◌∙◌, ◌⊎◌, false, ◌&&◌, arith, inl, inr, List, length,
  if◌then◌else◌,
}
use blyt.Prelude.Int.{
  ℤ, pos, pos_part, ◌-ℤ◌, ltb_ℤ, leb_ℤ, eqb_ℤ, wrap32, wrap32_lem, IsInt32, eq_of_parts,
}
use blyt.Raster.{Walk, drawn, slope, line_step, line_loop, raster_line}
use blyt.Raster.Line.Loop.{Touched, Coloured, loop_ends}
use blyt.Raster.Line.Error.{
  unit, Ahead, IsCoord, IsDistance, axes, near_line, start-Balance, start-Bounded,
}
use blyt.Raster.Line.Flat.{FlatLeft, FlatLeft-end, FlatLeft-step}
use blyt.Raster.Line.Steep.{SteepLeft, SteepLeft-end, SteepLeft-step}

-- The distance of two coordinates.
abbrev pub gap : ℤ → ℤ → ℕ
gap a b = if ltb_ℤ a b then pos_part (b -ℤ a) else pos_part (a -ℤ b)

gap-Ahead : (a b : ℤ) → Ahead (ltb_ℤ a b) (gap a b) a b
unfolding ◌-ℤ◌
gap-Ahead a b = ground arith

gap-IsDistance : (a b : ℤ) → IsCoord a → IsCoord b → IsDistance (gap a b)
unfolding ◌-ℤ◌
gap-IsDistance a b h k = ground arith

difference : (a b : ℤ) → IsCoord a → IsCoord b → IsInt32 (a -ℤ b)
unfolding ◌-ℤ◌
difference a b h k = (ground arith, ground arith)

positive : (a b : ℤ) → (if ltb_ℤ a b then b -ℤ a else a -ℤ b) ≡ pos (gap a b)
unfolding ◌-ℤ◌
positive a b = ground arith

-- `x1 > x0 ? x1 - x0 : x0 - x1` does not overflow on coordinates of 28 bits.
magnitude :
    (a b : ℤ)
    → IsCoord a
    → IsCoord b
    → (if ltb_ℤ a b then wrap32 (b -ℤ a) else wrap32 (a -ℤ b)) ≡ pos (gap a b)
magnitude a b h k =
    rw (wrap32_lem (b -ℤ a) (difference b a k h), wrap32_lem (a -ℤ b) (difference a b h k))
      (positive a b)

first_error : (m n : ℕ) → IsDistance m → IsDistance n → IsInt32 (pos m -ℤ pos n)
unfolding ◌-ℤ◌
first_error m n h k = (ground arith, ground arith)

slope-axes :
    (x0 y0 x1 y1 : ℤ)
    → IsCoord x0
    → IsCoord y0
    → IsCoord x1
    → IsCoord y1
    → slope x0 y0 x1 y1 ≡ axes (gap x0 x1) (gap y0 y1) (ltb_ℤ x0 x1) (ltb_ℤ y0 y1)
unfolding slope
slope-axes x0 y0 x1 y1 hx0 hy0 hx1 hy1 = λ i. record {
  dx = magnitude x0 x1 hx0 hx1 i;
  dy = magnitude y0 y1 hy0 hy1 i;
  sx = unit (ltb_ℤ x0 x1);
  sy = unit (ltb_ℤ y0 y1);
}

-- The point (x, y) is between the end points, and off the true line by half a pixel at most: with
-- `n` columns and `m` rows left, m * dx and n * dy differ by half of the longer side.
abbrev pub OnLine : ℤ → ℤ → ℤ → ℤ → ℤ → ℤ → Type 0
OnLine x0 y0 x1 y1 x y =
    (n : ℕ) × (m : ℕ) × (n ≤ gap x0 x1)
    × (m ≤ gap y0 y1)
    × Ahead (ltb_ℤ x0 x1) n x x1
    × Ahead (ltb_ℤ y0 y1) m y y1
    × (2 * (m * gap x0 x1) ≤ max (gap x0 x1) (gap y0 y1) + 2 * (n * gap y0 y1))
    × (2 * (n * gap y0 y1) ≤ max (gap x0 x1) (gap y0 y1) + 2 * (m * gap x0 x1))

module _ (s wd ht c : ℕ) (x0 y0 x1 y1 : ℤ) (fb : List ℕ) (fuel : ℕ) (stride_pos : 0 < s)
    (narrow : wd ≤ s) (room : ht * s ≤ length fb) (hx0 : IsCoord x0) (hy0 : IsCoord y0)
    (hx1 : IsCoord x1) (hy1 : IsCoord y1) (enough : max (gap x0 x1) (gap y0 y1) < fuel) where
  abbrev start : Walk
  start = record { at_x = x0; at_y = y0; err = pos (gap x0 x1) -ℤ pos (gap y0 y1) }

  -- The loop of the line starts from the slope of the end points.
  line_is_loop :
      raster_line fb (pos s) (pos wd) (pos ht) x0 y0 x1 y1 c fuel
      ≡ line_loop
          (pos s)
          (pos wd)
          (pos ht)
          x1
          y1
          c
          (axes (gap x0 x1) (gap y0 y1) (ltb_ℤ x0 x1) (ltb_ℤ y0 y1))
          fb
          start
          fuel
  unfolding raster_line
  line_is_loop =
      let wide : leb_ℤ (pos s) (pos 0) ≡ false = ground arith in
      rw (
        wide,
        slope-axes x0 y0 x1 y1 hx0 hy0 hx1 hy1,
        wrap32_lem (pos (gap x0 x1) -ℤ pos (gap y0 y1)) (
            first_error (gap x0 x1) (gap y0 y1) (gap-IsDistance x0 x1 hx0 hx1)
              (gap-IsDistance y0 y1 hy0 hy1)),
      )

  Result : Type 0
  Result =
      (fb' : List ℕ) × (raster_line fb (pos s) (pos wd) (pos ht) x0 y0 x1 y1 c fuel ≡ drawn fb')
      × (length fb' ≡ length fb)
      × Touched (OnLine x0 y0 x1 y1) s c fb fb'
      × Coloured s wd ht c x0 y0 fb'
      × Coloured s wd ht c x1 y1 fb'

  -- From a measure of what is left to go.
  from_measure :
      (Left : ℕ → Walk → Type 0)
      → ((n : ℕ) (w : Walk) → Left n w → OnLine x0 y0 x1 y1 w.at_x w.at_y)
      → ((w : Walk) → Left 0 w → (w.at_x ≡ x1) × (w.at_y ≡ y1))
      → ((n : ℕ) (w : Walk)
          → Left (suc n) w
          → ((eqb_ℤ w.at_x x1 && eqb_ℤ w.at_y y1) ≡ false)
            × Left n (line_step (axes (gap x0 x1) (gap y0 y1) (ltb_ℤ x0 x1) (ltb_ℤ y0 y1)) w))
      → (n : ℕ) → n < fuel
      → Left n start
      → Result
  unfolding Result
  from_measure Left near at_end goes_on n f l =
      let (fb', done, same, touched, started, ended) =
        loop_ends s wd ht c x1 y1 (axes (gap x0 x1) (gap y0 y1) (ltb_ℤ x0 x1) (ltb_ℤ y0 y1))
          (length fb) stride_pos narrow room Left (OnLine x0 y0 x1 y1) near at_end goes_on n start
          fb fuel l f refl in
      (fb', line_is_loop ∙ done, same, touched, started, ended)

  -- A single point, a flat line and a steep one.
  draws_point : gap x0 x1 ≡ 0 → gap y0 y1 ≡ 0 → Result
  draws_point gx gy =
      from_measure (λ n w. (n ≡ 0) × (w.at_x ≡ x1) × (w.at_y ≡ y1))
        (λ n w l. (
          0,
          0,
          omega arith,
          omega arith,
          ground (arith, l.1),
          ground (arith, l.2),
          omega arith,
          omega arith,
        ))
        (λ w l. (l.1, l.2)) (λ n w l. absurd (omega (arith, l.0))) 0 (omega (arith, enough))
        (
          refl,
          eq_of_parts x0 x1 (ground (arith, gx, gap-Ahead x0 x1)),
          eq_of_parts y0 y1 (ground (arith, gy, gap-Ahead y0 y1)),
        )

  draws_flat : 0 < gap x0 x1 → gap y0 y1 ≤ gap x0 x1 → Result
  draws_flat wide flat =
      let dx = gap x0 x1 in
      let dy = gap y0 y1 in
      let fx = ltb_ℤ x0 x1 in
      let fy = ltb_ℤ y0 y1 in
      let small = gap-IsDistance x0 x1 hx0 hx1 in
      from_measure (FlatLeft dx dy fx fy x1 y1 small flat wide hx1 hy1)
        (λ n w (m, h).
          let near = near_line dx dy n m w.err h.4 (inl h.5) in
          (n, m, h.0, h.1, h.2, h.3, near.0, near.1))
        (FlatLeft-end dx dy fx fy x1 y1 small flat wide hx1 hy1)
        (FlatLeft-step dx dy fx fy x1 y1 small flat wide hx1 hy1) dx (omega (arith, enough))
        (
          dy,
          (
            omega arith,
            omega arith,
            gap-Ahead x0 x1,
            gap-Ahead y0 y1,
            start-Balance dx dy,
            (start-Bounded dx dy).0 wide flat,
          ),
        )

  draws_steep : gap x0 x1 < gap y0 y1 → Result
  draws_steep steep =
      let dx = gap x0 x1 in
      let dy = gap y0 y1 in
      let fx = ltb_ℤ x0 x1 in
      let fy = ltb_ℤ y0 y1 in
      let small = gap-IsDistance y0 y1 hy0 hy1 in
      from_measure (SteepLeft dx dy fx fy x1 y1 small steep hx1 hy1)
        (λ n w (m, h).
          let near = near_line dx dy m n w.err h.4 (inr h.5) in
          (m, n, h.1, h.0, h.2, h.3, near.0, near.1))
        (SteepLeft-end dx dy fx fy x1 y1 small steep hx1 hy1)
        (SteepLeft-step dx dy fx fy x1 y1 small steep hx1 hy1) dy (omega (arith, enough))
        (
          dx,
          (
            omega arith,
            omega arith,
            gap-Ahead x0 x1,
            gap-Ahead y0 y1,
            start-Balance dx dy,
            (start-Bounded dx dy).1 steep,
          ),
        )

  slopes :
      ((gap x0 x1 ≡ 0) × (gap y0 y1 ≡ 0))
      ⊎ (((0 < gap x0 x1) × (gap y0 y1 ≤ gap x0 x1)) ⊎ (gap x0 x1 < gap y0 y1))
  slopes = omega arith

  -- A line of end points within 28 bits ends, in as many rounds as its longer side has pixels. It
  -- stays in the buffer, colours both end points where they are visible, and any cell that it
  -- changes is within half a pixel of the true line.
  pub line_draws :
      (fb' : List ℕ) × (raster_line fb (pos s) (pos wd) (pos ht) x0 y0 x1 y1 c fuel ≡ drawn fb')
      × (length fb' ≡ length fb)
      × Touched (OnLine x0 y0 x1 y1) s c fb fb'
      × Coloured s wd ht c x0 y0 fb'
      × Coloured s wd ht c x1 y1 fb'
  unfolding Result
  line_draws = elim slopes [
    | inl (gx, gy) ↦ draws_point gx gy
    | inr (inl (wide, flat)) ↦ draws_flat wide flat
    | inr (inr steep) ↦ draws_steep steep
  ]
