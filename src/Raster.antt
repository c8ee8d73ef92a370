-- ===== src/Raster.antt =====
-- runtime/shared/blyt_raster.c: the integer rasterizer.
pub mod Rows
pub mod Span
pub mod Rect
pub mod Blit
pub mod Line
mod Tests
use blyt.Prelude.{
  ℕ, zero, suc, ◌+◌, ◌-◌, ◌*◌, Bool, true, false, ◌&&◌, ◌||◌, Option, none, some, List, leb,
  if◌then◌else◌, ◌>>=◌, length, replicate,
}
use blyt.Prelude.Bytes.{read_at, write_at}
use blyt.Prelude.Int.{ℤ, pos, negsuc, pos_part, ◌+ℤ◌, ◌-ℤ◌, ltb_ℤ, leb_ℤ, eqb_ℤ, wrap32, wrap64}

-- A `uint8_t *` to pixels, which may be null.
pub data Buffer : Type 0 where
  null : Buffer
  pixels : List ℕ → Buffer

-- `memset(fb + off, color, n)`; none is a write outside the buffer.
abbrev pub memset_at : List ℕ → ℕ → ℕ → ℕ → Option (List ℕ)
memset_at fb off color n =
    if leb (off + n) (length fb) then some (write_at fb off (replicate n color)) else none

-- `memcpy(dst + off, src + soff, n)`; none is an access outside a buffer.
abbrev pub memcpy_at : List ℕ → ℕ → List ℕ → ℕ → ℕ → Option (List ℕ)
memcpy_at dst off src soff n =
    if leb (off + n) (length dst) && leb (soff + n) (length src)
    then some (write_at dst off (read_at src soff n))
    else none

-- `for (row = row; row < row + n; row++)` around a body that may go out of bounds.
abbrev pub for_rows : (ℕ → List ℕ → Option (List ℕ)) → ℕ → ℕ → List ℕ → Option (List ℕ)
for_rows body row zero fb = some fb
for_rows body row (suc n) fb = body row fb >>= for_rows body (row + 1) n

-- The result of a function on the buffer that the pointer has.
abbrev pub into : Option (List ℕ) → Option Buffer
into none = none
into (some fb) = some (pixels fb)

unfoldable pub raster_clear : Buffer → ℤ → ℤ → ℤ → ℕ → Option Buffer
raster_clear null stride width height color = some null
raster_clear (pixels fb) stride width height color =
    if leb_ℤ width (pos 0) || leb_ℤ height (pos 0) || leb_ℤ stride (pos 0)
    then some (pixels fb)
    else into (
        for_rows (λ y f. memset_at f (y * pos_part stride) color (pos_part width)) 0
          (pos_part height) fb)

-- The body of `blyt_raster_pixel` after the null check.
unfoldable pub put_pixel : List ℕ → ℤ → ℤ → ℤ → ℤ → ℤ → ℕ → Option (List ℕ)
put_pixel fb stride width height x y color =
    if leb_ℤ stride (pos 0)
    then some fb
    else if ltb_ℤ x (pos 0) || leb_ℤ width x || ltb_ℤ y (pos 0) || leb_ℤ height y
    then some fb
    else memset_at fb (pos_part y * pos_part stride + pos_part x) color 1

unfoldable pub raster_pixel : Buffer → ℤ → ℤ → ℤ → ℤ → ℤ → ℕ → Option Buffer
raster_pixel null stride width height x y color = some null
raster_pixel (pixels fb) stride width height x y color =
    into (put_pixel fb stride width height x y color)

-- The clipping of one axis: `if (v < 0) v = 0;` and `if (v > bound) v = bound;`.
abbrev pub clip_low : ℤ → ℤ
clip_low v = if ltb_ℤ v (pos 0) then pos 0 else v

abbrev pub clip_high : ℤ → ℤ → ℤ
clip_high v bound = if ltb_ℤ bound v then bound else v

unfoldable pub raster_rect_fill : Buffer → ℤ → ℤ → ℤ → ℤ → ℤ → ℤ → ℤ → ℕ → Option Buffer
raster_rect_fill null stride width height x y w h color = some null
raster_rect_fill (pixels fb) stride width height x y w h color =
    if leb_ℤ stride (pos 0) || leb_ℤ w (pos 0) || leb_ℤ h (pos 0)
    then some (pixels fb)
    else let x0 = clip_low x in
      let y0 = clip_low y in
      let x1 = clip_high (wrap64 (x +ℤ w)) width in
      let y1 = clip_high (wrap64 (y +ℤ h)) height in
      if leb_ℤ x1 x0 || leb_ℤ y1 y0
      then some (pixels fb)
      else into (
          for_rows
            (λ row f. memset_at f (row * pos_part stride + pos_part x0) color (pos_part (x1 -ℤ x0)))
            (pos_part y0) (pos_part (y1 -ℤ y0)) fb)

-- The pixels that the left or top clip skipped: `if (v < 0) so = -v;`.
abbrev pub skipped : ℤ → ℤ
skipped v = if ltb_ℤ v (pos 0) then wrap64 (pos 0 -ℤ v) else pos 0

unfoldable pub raster_blit : Buffer → ℤ → ℤ → ℤ → Buffer → ℤ → ℤ → ℤ → ℤ → ℤ → Option Buffer
raster_blit null dstride dwidth dheight src sstride swidth sheight x y = some null
raster_blit (pixels dst) dstride dwidth dheight null sstride swidth sheight x y = some (pixels dst)
raster_blit (pixels dst) dstride dwidth dheight (pixels src) sstride swidth sheight x y =
    if leb_ℤ dstride (pos 0)
      || leb_ℤ sstride (pos 0)
      || leb_ℤ swidth (pos 0)
      || leb_ℤ sheight (pos 0)
    then some (pixels dst)
    else let sox = pos_part (skipped x) in
      let soy = pos_part (skipped y) in
      let dx0 = clip_low x in
      let dy0 = clip_low y in
      let dx1 = clip_high (wrap64 (x +ℤ swidth)) dwidth in
      let dy1 = clip_high (wrap64 (y +ℤ sheight)) dheight in
      if leb_ℤ dx1 dx0 || leb_ℤ dy1 dy0
      then some (pixels dst)
      else into (
          for_rows
            (λ row f.
              memcpy_at f (row * pos_part dstride + pos_part dx0) src
                ((soy + (row - pos_part dy0)) * pos_part sstride + sox) (pos_part (dx1 -ℤ dx0)))
            (pos_part dy0) (pos_part (dy1 -ℤ dy0)) dst)

-- The variables of the line's loop.
pub record Walk : Type 0 where
  pub at_x : ℤ
  pub at_y : ℤ
  pub err : ℤ

-- A line that has not ended within its fuel, one that wrote outside the buffer, and one that ended.
pub data Drawn : Type 0 where
  still_drawing : Drawn
  out_of_bounds : Drawn
  drawn : List ℕ → Drawn

-- The steps `sx`, `sy` and the magnitudes `dx`, `dy` of a line.
pub record Slope : Type 0 where
  pub dx : ℤ
  pub dy : ℤ
  pub sx : ℤ
  pub sy : ℤ

unfoldable pub slope : ℤ → ℤ → ℤ → ℤ → Slope
slope x0 y0 x1 y1 = record {
  dx = if ltb_ℤ x0 x1 then wrap32 (x1 -ℤ x0) else wrap32 (x0 -ℤ x1);
  dy = if ltb_ℤ y0 y1 then wrap32 (y1 -ℤ y0) else wrap32 (y0 -ℤ y1);
  sx = if ltb_ℤ x0 x1 then pos 1 else negsuc 0;
  sy = if ltb_ℤ y0 y1 then pos 1 else negsuc 0;
}

-- `if (e2 > -dy) { err -= dy; x0 += sx; }`
unfoldable pub step_x : Slope → ℤ → Walk → Walk
step_x s e2 w =
    if ltb_ℤ (wrap32 (pos 0 -ℤ s.dy)) e2
    then record { at_x = wrap32 (w.at_x +ℤ s.sx); at_y = w.at_y; err = wrap32 (w.err -ℤ s.dy) }
    else w

-- `if (e2 < dx) { err += dx; y0 += sy; }`
unfoldable pub step_y : Slope → ℤ → Walk → Walk
step_y s e2 w =
    if ltb_ℤ e2 s.dx
    then record { at_x = w.at_x; at_y = wrap32 (w.at_y +ℤ s.sy); err = wrap32 (w.err +ℤ s.dx) }
    else w

-- One round after the pixel is set.
unfoldable pub line_step : Slope → Walk → Walk
line_step s w = let e2 = wrap32 (w.err +ℤ w.err) in step_y s e2 (step_x s e2 w)

-- The loop, with its fuel last.
unfoldable pub line_loop : ℤ → ℤ → ℤ → ℤ → ℤ → ℕ → Slope → List ℕ → Walk → ℕ → Drawn
line_loop stride width height x1 y1 color s fb w zero = still_drawing
line_loop stride width height x1 y1 color s fb w (suc fuel) =
    elim (put_pixel fb stride width height w.at_x w.at_y color) [
      | none ↦ out_of_bounds
      | some next ↦ elim (eqb_ℤ w.at_x x1 && eqb_ℤ w.at_y y1) [
        | true ↦ drawn next
        | false ↦ line_loop stride width height x1 y1 color s next (line_step s w) fuel
      ]
    ]

-- `blyt_raster_line` on a buffer; the null check and the stride check leave it as it is.
unfoldable pub raster_line : List ℕ → ℤ → ℤ → ℤ → ℤ → ℤ → ℤ → ℤ → ℕ → ℕ → Drawn
raster_line fb stride width height x0 y0 x1 y1 color fuel =
    if leb_ℤ stride (pos 0)
    then drawn fb
    else let s = slope x0 y0 x1 y1 in
      line_loop stride width height x1 y1 color s fb
        (record { at_x = x0; at_y = y0; err = wrap32 (s.dx -ℤ s.dy) }) fuel
