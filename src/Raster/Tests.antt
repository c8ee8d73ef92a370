-- ===== src/Raster/Tests.antt =====
-- Runs of the theorems on a buffer of two rows of three bytes, of which two are visible.
use blyt.Prelude.{
  ℕ, ◌-◌, ◌^◌, ◌<◌, ◌≡◌, refl, ◌&&◌, some, List, [], ◌∷◌, arith, ltb, length, if◌then◌else◌,
  replicate,
}
use blyt.Prelude.Int.{pos, negsuc, pos_part, ◌-ℤ◌}
use blyt.Raster.{
  pixels, drawn, still_drawing, raster_clear, raster_rect_fill, raster_blit, raster_line,
}
use blyt.Raster.Rows.{cell}
use blyt.Raster.Span.{in_span}
use blyt.Raster.Rect.{rect_fill-paints, clear-paints}
use blyt.Raster.Blit.{blit-copies}
use blyt.Raster.Line.Loop.{Touched, Coloured}
use blyt.Raster.Line.Ends.{OnLine, line_draws}
use blyt.Raster.Line.Endless.{line_endless}

abbrev canvas : List ℕ
canvas = replicate 6 0

-- A rectangle that sticks out at the left and at the bottom.
rect_fill-paints_example :
    (fb' : List ℕ) × (raster_rect_fill
        (pixels canvas)
        (pos 3)
        (pos 2)
        (pos 2)
        (negsuc 0)
        (pos 1)
        (pos 2)
        (pos 9)
        7
      ≡ some (pixels fb'))
    × (length fb' ≡ 6)
    × ((px py : ℕ)
        → px < 3
        → cell fb' 3 px py ≡ (
            if in_span (pos 1) (pos 9) 2 py && in_span (negsuc 0) (pos 2) 2 px
            then some 7
            else cell canvas 3 px py))
rect_fill-paints_example =
    rect_fill-paints 3 2 2 7 (negsuc 0) (pos 1) (pos 2) (pos 9) canvas (omega arith) (omega arith)
      (omega arith) (omega arith, omega arith) (omega arith, omega arith) (omega arith, omega arith)
      (omega arith, omega arith)

clear-paints_example :
    (fb' : List ℕ) × (raster_clear (pixels canvas) (pos 3) (pos 2) (pos 2) 5 ≡ some (pixels fb'))
    × (length fb' ≡ 6)
    × ((px py : ℕ)
        → px < 3
        → cell fb' 3 px py ≡ (if ltb py 2 && ltb px 2 then some 5 else cell canvas 3 px py))
clear-paints_example = clear-paints 3 2 2 5 canvas (omega arith) (omega arith) (omega arith)

-- A source of one row of two pixels, whose first is cut off.
blit-copies_example :
    (dst' : List ℕ) × (raster_blit
        (pixels canvas)
        (pos 3)
        (pos 2)
        (pos 2)
        (pixels (8 ∷ 9 ∷ []))
        (pos 2)
        (pos 2)
        (pos 1)
        (negsuc 0)
        (pos 1)
      ≡ some (pixels dst'))
    × (length dst' ≡ 6)
    × ((px py : ℕ)
        → px < 3
        → cell dst' 3 px py ≡ (
            if in_span (pos 1) (pos 1) 2 py && in_span (negsuc 0) (pos 2) 2 px
            then cell (8 ∷ 9 ∷ []) 2 (pos_part (pos px -ℤ negsuc 0)) (pos_part (pos py -ℤ pos 1))
            else cell canvas 3 px py))
blit-copies_example =
    blit-copies 3 2 2 2 2 1 (negsuc 0) (pos 1) canvas (8 ∷ 9 ∷ []) (omega arith) (omega arith)
      (omega arith) (omega arith) (omega arith) (omega arith, omega arith)
      (omega arith, omega arith) (omega arith, omega arith) (omega arith, omega arith)

-- A line that leaves the buffer.
line_draws_example :
    (fb' : List ℕ) × (raster_line canvas
        (pos 3)
        (pos 2)
        (pos 2)
        (pos 0)
        (pos 1)
        (pos 3)
        (negsuc 0)
        4
        9
      ≡ drawn fb')
    × (length fb' ≡ 6)
    × Touched (OnLine (pos 0) (pos 1) (pos 3) (negsuc 0)) 3 4 canvas fb'
    × Coloured 3 2 2 4 (pos 0) (pos 1) fb'
    × Coloured 3 2 2 4 (pos 3) (negsuc 0) fb'
unfolding ◌-ℤ◌
line_draws_example =
    line_draws 3 2 2 4 (pos 0) (pos 1) (pos 3) (negsuc 0) canvas 9 (omega arith) (omega arith)
      (omega arith) (omega arith, omega arith) (omega arith, omega arith) (omega arith, omega arith)
      (omega arith, omega arith) (omega arith)

line_endless_example :
    raster_line canvas (pos 3) (pos 2) (pos 2) (negsuc (2 ^ 31 - 1)) (pos 0) (pos 0) (pos 0) 4 9
    ≡ still_drawing
unfolding ◌-ℤ◌
line_endless_example =
    line_endless 3 2 2 4 (negsuc (2 ^ 31 - 1)) (pos 0) (pos 0) (omega arith) (omega arith) refl
      canvas 9 (omega arith)
