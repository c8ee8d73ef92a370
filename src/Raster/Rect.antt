-- ===== src/Raster/Rect.antt =====
-- The fills of runtime/shared/blyt_raster.c against the rectangle that they are to paint.
use blyt.Prelude.{
  fun_ext, ℕ, zero, suc, ◌+◌, ◌-◌, ◌*◌, ◌≤◌, ◌<◌, ◌≡◌, refl, ap, ◌∙◌, inl, inr, Bool, true, false,
  ◌&&◌, ◌||◌, none, some, List, arith, ltb, if◌then◌else◌, length, get_elem?, replicate,
  length-replicate, Bool-cases, early_return, or-cases, or-false,
}
use blyt.Prelude.Int.{ℤ, pos, pos_part, ◌+ℤ◌, leb_ℤ, wrap64-add, pos_part-sub, IsInt32, +ℤ_parts}
use blyt.Raster.{
  pixels, memset_at, for_rows, into, clip_low, clip_high, raster_clear, raster_rect_fill,
}
use blyt.Raster.Span.{in_span, span_clipped, span_fits, flat_window, outside_window}
use blyt.Raster.Rows.{cell, in_block, for_rows-cell, row_mono}

get_elem?-replicate : (n c i : ℕ) → get_elem? (replicate n c) i ≡ (if ltb i n then some c else none)
get_elem?-replicate zero c i = ground arith
get_elem?-replicate (suc n) c zero = ground arith
get_elem?-replicate (suc n) c (suc i) = ground (arith, get_elem?-replicate n c i)

-- A loop of `memset` over rows.
pub fill_rows-cell :
    (stride x0 run c y0 n : ℕ) (fb : List ℕ)
    → x0 + run ≤ stride
    → (y0 + n) * stride ≤ length fb
    → (fb' : List ℕ) × (for_rows (λ row f. memset_at f (row * stride + x0) c run) y0 n fb
        ≡ some fb')
      × (length fb' ≡ length fb)
      × ((x y : ℕ)
          → x < stride
          → cell fb' stride x y ≡ (if in_block y0 n x0 run x y then some c else cell fb stride x y))
fill_rows-cell stride x0 run c y0 n fb fits room =
    let (fb', done, e, cells) =
      for_rows-cell stride x0 run (length fb) (y0 + n) (λ row. replicate run c)
        (λ row f. memset_at f (row * stride + x0) c run) fits room (λ row h. length-replicate run c)
        (λ row f h k. ground arith) n y0 fb (omega arith) refl in
    (fb', done, e, λ x y k. cells x y k ∙ ground (arith, get_elem?-replicate run c (x - x0)))

module _ (s wd ht c : ℕ) (x y w h : ℤ) (fb : List ℕ) (stride_pos : 0 < s) (narrow : wd ≤ s)
    (room : ht * s ≤ length fb) (ix : IsInt32 x) (iy : IsInt32 y) (iw : IsInt32 w)
    (ih : IsInt32 h) where
  abbrev left : ℕ
  left = pos_part (clip_low x)

  abbrev top : ℕ
  top = pos_part (clip_low y)

  abbrev right : ℕ
  right = pos_part (clip_high (x +ℤ w) (pos wd))

  abbrev bottom : ℕ
  bottom = pos_part (clip_high (y +ℤ h) (pos ht))

  abbrev empty : Bool
  empty =
      (leb_ℤ (pos s) (pos 0) || leb_ℤ w (pos 0) || leb_ℤ h (pos 0))
      || (leb_ℤ (clip_high (x +ℤ w) (pos wd)) (clip_low x)
          || leb_ℤ (clip_high (y +ℤ h) (pos ht)) (clip_low y))

  fill_empty :
      empty ≡ true
      → raster_rect_fill (pixels fb) (pos s) (pos wd) (pos ht) x y w h c ≡ some (pixels fb)
  unfolding raster_rect_fill
  fill_empty e =
      rw (wrap64-add x w ix iw, wrap64-add y h iy ih)
        (early_return (leb_ℤ (pos s) (pos 0) || leb_ℤ w (pos 0) || leb_ℤ h (pos 0)) _ _ _ e)

  fill_full :
      empty ≡ false
      → raster_rect_fill (pixels fb) (pos s) (pos wd) (pos ht) x y w h c
        ≡ into (
            for_rows (λ row f. memset_at f (row * s + left) c (right - left)) top (bottom - top) fb)
  unfolding raster_rect_fill
  fill_full e =
      rw
        (
          wrap64-add x w ix iw,
          wrap64-add y h iy ih,
          pos_part-sub (clip_high (x +ℤ w) (pos wd)) (clip_low x) (ground arith),
          pos_part-sub (clip_high (y +ℤ h) (pos ht)) (clip_low y) (ground arith),
        )
        (ground (arith, +ℤ_parts x w, +ℤ_parts y h))

  no_window : empty ≡ true → (px py : ℕ) → (in_span y h ht py && in_span x w wd px) ≡ false
  no_window e px py =
      elim (or-cases (leb_ℤ (pos s) (pos 0) || leb_ℤ w (pos 0) || leb_ℤ h (pos 0)) _ e) [
        | inl degenerate ↦ flat_window x y w h wd ht (ground (arith, stride_pos, degenerate)) px py
        | inr outside ↦ outside_window x y w h wd ht outside px py
      ]

  -- The fill stays in the buffer and paints exactly the visible pixels of the rectangle.
  pub rect_fill-paints :
      (fb' : List ℕ) × (raster_rect_fill (pixels fb) (pos s) (pos wd) (pos ht) x y w h c
        ≡ some (pixels fb'))
      × (length fb' ≡ length fb)
      × ((px py : ℕ)
          → px < s
          → cell fb' s px py
            ≡ (if in_span y h ht py && in_span x w wd px then some c else cell fb s px py))
  rect_fill-paints = elim (Bool-cases empty) [
    | inl e ↦ (fb, fill_empty e, refl, λ px py k. rw (no_window e px py))
    | inr e ↦
        let outside =
          (or-false (leb_ℤ (pos s) (pos 0) || leb_ℤ w (pos 0) || leb_ℤ h (pos 0)) _ e).1 in
        let sides = or-false (leb_ℤ (clip_high (x +ℤ w) (pos wd)) (clip_low x)) _ outside in
        let (fb', done, same, cells) =
          fill_rows-cell s left (right - left) c top (bottom - top) fb
            (omega (arith, span_fits x w wd 0 sides.0))
            (omega
              (arith, room, row_mono s (top + (bottom - top)) ht (span_fits y h ht 0 sides.1))) in
        (
          fb',
          fill_full e ∙ ap into done,
          same,
          λ px py k.
              cells px py k ∙ rw (span_clipped x w wd px sides.0, span_clipped y h ht py sides.1),
        )
  ]

-- Clearing paints every visible pixel and no other.
pub clear-paints :
    (s wd ht c : ℕ) (fb : List ℕ)
    → 0 < s
    → wd ≤ s
    → ht * s ≤ length fb
    → (fb' : List ℕ) × (raster_clear (pixels fb) (pos s) (pos wd) (pos ht) c ≡ some (pixels fb'))
      × (length fb' ≡ length fb)
      × ((px py : ℕ)
          → px < s
          → cell fb' s px py ≡ (if ltb py ht && ltb px wd then some c else cell fb s px py))
unfolding raster_clear
clear-paints s wd ht c fb p narrow room =
    elim (Bool-cases (leb_ℤ (pos wd) (pos 0) || leb_ℤ (pos ht) (pos 0) || leb_ℤ (pos s) (pos 0))) [
      | inl e ↦ (fb, rw e, refl, λ px py k. ground arith)
      | inr e ↦
          let (fb', done, same, cells) =
            fill_rows-cell s 0 wd c 0 ht fb (omega arith) (omega (arith, room)) in
          (
            fb',
            rw e (
                ap into (
                  ap (λ body. for_rows body 0 ht fb)
                    (fun_ext (λ y. fun_ext (λ f.
                      ap (λ off. memset_at f off c wd) {x = y * s} {y = y * s + 0} (omega arith))))
                  ∙ done)),
            same,
            λ px py k. cells px py k ∙ ground arith,
          )
    ]
