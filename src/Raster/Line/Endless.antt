-- ===== src/Raster/Line/Endless.antt =====
-- A line whose width overflows an `int`, in `blyt_raster_line` of runtime/shared/blyt_raster.c.
use blyt.Prelude.{
  ℕ, zero, suc, ◌-◌, ◌*◌, ◌^◌, ◌≤◌, ◌<◌, ◌≡◌, refl, ap, ◌∙◌, true, false, ◌&&◌, arith, List, length,
}
use blyt.Prelude.Int.{ℤ, pos, negsuc, ◌+ℤ◌, ◌-ℤ◌, ltb_ℤ, leb_ℤ, eqb_ℤ, wrap32}
use blyt.Raster.{
  Walk, Slope, still_drawing, slope, step_x, step_y, line_step, line_loop, raster_line,
}
use blyt.Raster.Line.Pixel.{put_pixel-cell}

-- The variables of the loop where the width wraps around.
abbrev int_min : ℤ
int_min = negsuc (2 ^ 31 - 1)

abbrev stuck_slope : ℤ → ℤ → Slope
stuck_slope sx sy = record { dx = int_min; dy = pos 0; sx = sx; sy = sy }

abbrev stuck_walk : ℤ → ℤ → Walk
stuck_walk x y = record { at_x = x; at_y = y; err = int_min }

stuck : (sx sy x y : ℤ) → line_step (stuck_slope sx sy) (stuck_walk x y) ≡ stuck_walk x y
unfolding line_step step_x step_y wrap32 ◌+ℤ◌ ◌-ℤ◌
stuck sx sy x y = refl

apart : (x0 x1 : ℤ) → x1 -ℤ x0 ≡ pos (2 ^ 31) → (ltb_ℤ x0 x1 ≡ true) × (eqb_ℤ x0 x1 ≡ false)
unfolding ◌-ℤ◌
apart x0 x1 e = (ground arith, ground arith)

same_height : (y : ℤ) → (y -ℤ y ≡ pos 0) × (ltb_ℤ y y ≡ false)
unfolding ◌-ℤ◌
same_height y = (ground arith, ground arith)

width_wraps : wrap32 (pos (2 ^ 31)) ≡ int_min
unfolding wrap32
width_wraps = refl

first_error : wrap32 (int_min -ℤ pos 0) ≡ int_min
unfolding wrap32 ◌-ℤ◌
first_error = refl

module _ (s wd ht c : ℕ) (x0 x1 y : ℤ) (stride_pos : 0 < s) (narrow : wd ≤ s)
    (overflow : x1 -ℤ x0 ≡ pos (2 ^ 31)) where
  wide_slope : slope x0 y x1 y ≡ stuck_slope (pos 1) (negsuc 0)
  unfolding slope wrap32
  wide_slope = rw ((apart x0 x1 overflow).0, (same_height y).0, (same_height y).1, overflow)

  loop_stays :
      (fb : List ℕ) (fuel : ℕ)
      → ht * s ≤ length fb
      → line_loop
          (pos s)
          (pos wd)
          (pos ht)
          x1
          y
          c
          (stuck_slope (pos 1) (negsuc 0))
          fb
          (stuck_walk x0 y)
          fuel
        ≡ still_drawing
  unfolding line_loop
  loop_stays fb zero room = refl
  loop_stays fb (suc fuel) room =
      let (next, done, same, cells) = put_pixel-cell s wd ht c x0 y fb stride_pos narrow room in
      let away : (eqb_ℤ x0 x1 && eqb_ℤ y y) ≡ false = ground (arith, (apart x0 x1 overflow).1) in
      ground (arith, done, away)
      ∙ ap
          (λ w.
            line_loop (pos s) (pos wd) (pos ht) x1 y c (stuck_slope (pos 1) (negsuc 0)) next w fuel)
          (stuck (pos 1) (negsuc 0) x0 y)
      ∙ loop_stays next fuel (omega (arith, same, room))

  -- A level line whose ends are exactly 2^31 columns apart never ends: the width wraps around to the
  -- least `int`, twice the error wraps around to 0, and no round moves the point. Whatever the
  -- buffer and however many rounds are given, the line is still drawing.
  pub line_endless :
      (fb : List ℕ) (fuel : ℕ)
      → ht * s ≤ length fb
      → raster_line fb (pos s) (pos wd) (pos ht) x0 y x1 y c fuel ≡ still_drawing
  unfolding raster_line
  line_endless fb fuel room =
      let wide : leb_ℤ (pos s) (pos 0) ≡ false = ground arith in
      rw (wide, wide_slope, first_error) (loop_stays fb fuel room)
