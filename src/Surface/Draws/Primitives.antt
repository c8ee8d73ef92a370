-- ===== src/Surface/Draws/Primitives.antt =====
-- The primitives of runtime/shared/blyt_raster.c on the buffer of a surface.
use blyt.Prelude.{ℕ, ◌*◌, ◌%◌, ◌^◌, ◌<◌, ◌≡◌, ap, ap₂, ◌∙◌, List, arith, length}
use blyt.Prelude.Int.{ℤ, pos, IsInt32, pos_part, ◌-ℤ◌}
use blyt.Raster.{Buffer, pixels, raster_clear, raster_pixel, raster_rect_fill, raster_blit, into}
use blyt.Raster.Rows.{cell}
use blyt.Raster.Rect.{rect_fill-paints, clear-paints}
use blyt.Raster.Line.Pixel.{put_pixel-cell}
use blyt.Raster.Blit.{blit-copies}
use blyt.Surface.Registry.{Slot}
use blyt.Surface.Calls.{Paint, of_option, int32_of}
use blyt.Surface.Draws.{buffer_picture, picture_of, cleared, dotted, filled, copied_at}
use blyt.Surface.Draws.Gates.{Paints}

-- A register holds an `int32_t`.
pub int32_of-IsInt32 : (r : ℕ) → IsInt32 (int32_of r)
int32_of-IsInt32 r =
    let low : r % 2 ^ 32 < 2 ^ 32 = omega arith in (ground (arith, low), ground (arith, low))

-- The primitives on a slot with a buffer of its size.
module _ (s : Slot) (p : List ℕ) (held : s.buffer ≡ pixels p) (size : length p ≡ s.h * s.w)
    (wide : 0 < s.w) where
  shown : (x y : ℕ) → picture_of s x y ≡ cell p s.w x y
  shown x y = ap (λ b. buffer_picture b s.w x y) held

  pub clear-Paints :
      (color : ℕ)
      → Paints s
          (of_option (raster_clear s.buffer (pos s.w) (pos s.w) (pos s.h) (color % 256)))
          (cleared color s)
  clear-Paints color =
      let (p', done, same, cells) =
        clear-paints s.w s.w s.h (color % 256) p wide (omega arith) (omega (arith, size)) in
      (
        p,
        p',
        held,
        same,
        ap (λ b. of_option (raster_clear b (pos s.w) (pos s.w) (pos s.h) (color % 256))) held
            ∙ ap of_option done,
        λ x y k. cells x y k ∙ ground (arith, k, shown x y),
      )

  pub pixel-Paints :
      (px py : ℤ) (color : ℕ)
      → Paints s
          (of_option (raster_pixel s.buffer (pos s.w) (pos s.w) (pos s.h) px py (color % 256)))
          (dotted px py color s)
  unfolding raster_pixel
  pixel-Paints px py color =
      let (p', done, same, cells) =
        put_pixel-cell s.w s.w s.h (color % 256) px py p wide (omega arith) (omega (arith, size)) in
      (
        p,
        p',
        held,
        same,
        ap (λ b. of_option (raster_pixel b (pos s.w) (pos s.w) (pos s.h) px py (color % 256))) held
            ∙ ap (λ o. of_option (into o)) done,
        λ x y k. cells x y k ∙ ground (arith, k, shown x y),
      )

  pub rect_fill-Paints :
      (left top w h : ℤ) (color : ℕ)
      → IsInt32 left
      → IsInt32 top
      → IsInt32 w
      → IsInt32 h
      → Paints s
          (of_option
            (raster_rect_fill s.buffer (pos s.w) (pos s.w) (pos s.h) left top w h (color % 256)))
          (filled left top w h color s)
  rect_fill-Paints left top w h color il it iw ih =
      let (p', done, same, cells) =
        rect_fill-paints s.w s.w s.h (color % 256) left top w h p wide (omega arith)
          (omega (arith, size)) il it iw ih in
      (
        p,
        p',
        held,
        same,
        ap
              (λ b.
                of_option
                  (raster_rect_fill b (pos s.w) (pos s.w) (pos s.h) left top w h (color % 256)))
              held
            ∙ ap of_option done,
        λ x y k. cells x y k ∙ ground (arith, k, shown x y),
      )

-- The copy on a slot, with both buffers.
module _ (d s : Slot) (p q : List ℕ) (dst_held : d.buffer ≡ pixels p)
    (src_held : s.buffer ≡ pixels q) (dst_size : length p ≡ d.h * d.w)
    (src_size : length q ≡ s.h * s.w) (wide : 0 < d.w) (narrow : s.w < 2 ^ 31)
    (flat : s.h < 2 ^ 31) where
  abbrev blit_of : Buffer → Buffer → ℤ → ℤ → Paint
  blit_of b c left top =
      of_option
        (raster_blit b (pos d.w) (pos d.w) (pos d.h) c (pos s.w) (pos s.w) (pos s.h) left top)

  pub blit-Paints :
      (left top : ℤ)
      → IsInt32 left
      → IsInt32 top
      → Paints d
          (of_option (
            raster_blit d.buffer
              (pos d.w)
              (pos d.w)
              (pos d.h)
              s.buffer
              (pos s.w)
              (pos s.w)
              (pos s.h)
              left
              top))
          (copied_at left top s d)
  blit-Paints left top il it =
      let (p', done, same, cells) =
        blit-copies d.w d.w d.h s.w s.w s.h left top p q wide (omega arith)
          (omega (arith, dst_size)) (omega arith) (omega (arith, src_size)) il it
          (omega (arith, narrow), omega arith) (omega (arith, flat), omega arith) in
      (
        p,
        p',
        dst_held,
        same,
        ap₂ (λ b c. blit_of b c left top) dst_held src_held ∙ ap of_option done,
        λ x y k.
            let source =
              ap (λ b. buffer_picture b s.w (pos_part (pos x -ℤ left)) (pos_part (pos y -ℤ top)))
                src_held in
            cells x y k ∙ ground (arith, k, source, shown d p dst_held dst_size wide x y),
      )
