-- ===== src/Raster/Blit.antt =====
-- `blyt_raster_blit` of runtime/shared/blyt_raster.c against the copy that it is to make.
use blyt.Prelude.{
  ℕ, zero, suc, ◌+◌, ◌-◌, ◌*◌, ◌≤◌, ◌<◌, ◌≡◌, refl, ap, ◌∙◌, inl, inr, Bool, true, false, ◌&&◌,
  ◌||◌, Option, some, List, [], ◌∷◌, arith, if◌then◌else◌, length, get_elem?, take, drop,
  length-take, length-drop, Bool-cases, early_return, or-cases, or-false, if_congr, and-true, ap₂,
}
use blyt.Prelude.Bytes.{read_at, write_at}
use blyt.Prelude.Int.{
  ℤ, pos, pos_part, ◌+ℤ◌, ◌-ℤ◌, ltb_ℤ, leb_ℤ, wrap64-add, wrap64-opposite, pos_part-sub, IsInt32,
  +ℤ_parts, -ℤ_parts,
}
use blyt.Raster.{
  Buffer, pixels, memcpy_at, for_rows, into, clip_low, clip_high, skipped, raster_blit,
}
use blyt.Raster.Rows.{cell, for_rows-cell, row_mono}
use blyt.Raster.Span.{in_span, span_clipped, span_fits, span_nonempty, flat_window, outside_window}

get_elem?-take : (n : ℕ) (xs : List ℕ) (i : ℕ) → i < n → get_elem? (take n xs) i ≡ get_elem? xs i
get_elem?-take zero xs i h = absurd (omega arith)
get_elem?-take (suc n) [] i h = refl
get_elem?-take (suc n) (x ∷ xs) zero h = refl
get_elem?-take (suc n) (x ∷ xs) (suc i) h = get_elem?-take n xs i (omega arith)

get_elem?-drop : (n : ℕ) (xs : List ℕ) (i : ℕ) → get_elem? (drop n xs) i ≡ get_elem? xs (n + i)
get_elem?-drop zero xs i = ap (get_elem? xs) (omega arith)
get_elem?-drop (suc n) [] i = refl
get_elem?-drop (suc n) (x ∷ xs) i =
    get_elem?-drop n xs i ∙ ap (get_elem? (x ∷ xs)) {x = suc (n + i)} (omega arith)

length-read_at : (xs : List ℕ) (off n : ℕ) → off + n ≤ length xs → length (read_at xs off n) ≡ n
length-read_at xs off n h = omega (arith, length-take n (drop off xs), length-drop off xs)

memcpy_at_lem :
    (dst : List ℕ) (off : ℕ) (src : List ℕ) (soff n : ℕ)
    → off + n ≤ length dst
    → soff + n ≤ length src
    → memcpy_at dst off src soff n ≡ some (write_at dst off (read_at src soff n))
memcpy_at_lem dst off src soff n h k = ground arith

regroup : (a b c : ℕ) → a + b + c ≡ a + (b + c)
regroup a b c = omega arith

-- The pixels that the clip skips keep the rest of the source in its span.
module _ (v : ℤ) (len bound p : ℕ) (iv : IsInt32 v) where
  abbrev lo : ℕ
  lo = pos_part (clip_low v)

  abbrev so : ℕ
  so = pos_part (skipped v)

  skipped_lem : skipped v ≡ (if ltb_ℤ v (pos 0) then pos 0 -ℤ v else pos 0)
  skipped_lem = rw (wrap64-opposite v iv)

  skipped_fits :
      leb_ℤ (clip_high (v +ℤ pos len) (pos bound)) (clip_low v) ≡ false
      → so + (pos_part (clip_high (v +ℤ pos len) (pos bound)) - lo) ≤ len
  skipped_fits e = rw skipped_lem (ground (arith, +ℤ_parts v (pos len), -ℤ_parts (pos 0) v))

  skipped_position : in_span v (pos len) bound p ≡ true → so + (p - lo) ≡ pos_part (pos p -ℤ v)
  skipped_position e = rw skipped_lem (ground (arith, -ℤ_parts (pos p) v, -ℤ_parts (pos 0) v))

module _ (s wd ht t sw sh : ℕ) (x y : ℤ) (dst src : List ℕ) (stride_pos : 0 < s) (narrow : wd ≤ s)
    (room : ht * s ≤ length dst) (source_narrow : sw ≤ t) (source_room : sh * t ≤ length src)
    (ix : IsInt32 x) (iy : IsInt32 y) (iw : IsInt32 (pos sw)) (ih : IsInt32 (pos sh)) where
  abbrev left : ℕ
  left = pos_part (clip_low x)

  abbrev top : ℕ
  top = pos_part (clip_low y)

  abbrev run : ℕ
  run = pos_part (clip_high (x +ℤ pos sw) (pos wd)) - left

  abbrev rows : ℕ
  rows = pos_part (clip_high (y +ℤ pos sh) (pos ht)) - top

  -- Where the source of row `row` starts.
  abbrev source_of : ℕ → ℕ
  source_of row = (pos_part (skipped y) + (row - top)) * t + pos_part (skipped x)

  abbrev degenerate : Bool
  degenerate =
      leb_ℤ (pos s) (pos 0)
      || leb_ℤ (pos t) (pos 0)
      || leb_ℤ (pos sw) (pos 0)
      || leb_ℤ (pos sh) (pos 0)

  abbrev outside : Bool
  outside =
      leb_ℤ (clip_high (x +ℤ pos sw) (pos wd)) (clip_low x)
      || leb_ℤ (clip_high (y +ℤ pos sh) (pos ht)) (clip_low y)

  abbrev blit : Option Buffer
  blit =
      raster_blit (pixels dst) (pos s) (pos wd) (pos ht) (pixels src) (pos t) (pos sw) (pos sh) x y

  blit_empty : (degenerate || outside) ≡ true → blit ≡ some (pixels dst)
  unfolding raster_blit
  blit_empty e =
      rw (wrap64-add x (pos sw) ix iw, wrap64-add y (pos sh) iy ih)
        (early_return degenerate outside _ _ e)

  blit_full :
      (degenerate || outside) ≡ false
      → blit
        ≡ into
            (for_rows (λ row f. memcpy_at f (row * s + left) src (source_of row) run) top rows dst)
  unfolding raster_blit
  blit_full e = rw (
    wrap64-add x (pos sw) ix iw,
    wrap64-add y (pos sh) iy ih,
    pos_part-sub (clip_high (x +ℤ pos sw) (pos wd)) (clip_low x) (ground arith),
    pos_part-sub (clip_high (y +ℤ pos sh) (pos ht)) (clip_low y) (ground arith),
    (or-false degenerate outside e).0,
    (or-false degenerate outside e).1,
  )

  no_window :
      (degenerate || outside) ≡ true
      → (px py : ℕ) → (in_span y (pos sh) ht py && in_span x (pos sw) wd px) ≡ false
  no_window e px py = elim (or-cases degenerate outside e) [
    | inl d ↦
        flat_window x y (pos sw) (pos sh) wd ht (ground (arith, stride_pos, source_narrow, d)) px py
    | inr o ↦ outside_window x y (pos sw) (pos sh) wd ht o px py
  ]

  -- Every row of the window lies in the source.
  source_row : outside ≡ false → (row : ℕ) → row < top + rows → source_of row + run ≤ length src
  source_row e row h =
      let sides = or-false (leb_ℤ (clip_high (x +ℤ pos sw) (pos wd)) (clip_low x)) _ e in
      let across = skipped_fits x sw wd 0 ix sides.0 in
      let down = skipped_fits y sh ht 0 iy sides.1 in
      let some_rows : 0 < rows = span_nonempty y (pos sh) ht 0 sides.1 in
      let at = pos_part (skipped y) + (row - top) in
      let inside : suc at ≤ sh = omega (arith, down, some_rows, h) in
      omega (arith, across, source_narrow, source_room, row_mono t (suc at) sh inside)

  source_pixel :
      outside ≡ false
      → (px py : ℕ) → (in_span y (pos sh) ht py && in_span x (pos sw) wd px) ≡ true
      → get_elem? (read_at src (source_of py) run) (px - left)
        ≡ cell src t (pos_part (pos px -ℤ x)) (pos_part (pos py -ℤ y))
  source_pixel e px py v =
      let seen = and-true (in_span y (pos sh) ht py) _ v in
      let sides = or-false (leb_ℤ (clip_high (x +ℤ pos sw) (pos wd)) (clip_low x)) _ e in
      get_elem?-take run (drop (source_of py) src) (px - left)
        (ground (arith, span_clipped x (pos sw) wd px sides.0, seen.1))
      ∙ get_elem?-drop (source_of py) src (px - left)
      ∙ ap (get_elem? src) (
          regroup ((pos_part (skipped y) + (py - top)) * t) (pos_part (skipped x)) (px - left)
          ∙ ap₂ (λ a b. a * t + b) (skipped_position y sh ht py iy seen.0)
              (skipped_position x sw wd px ix seen.1))

  -- The blit stays in both buffers and copies exactly the visible pixels: the pixel (px, py) of the
  -- destination gets the pixel (px - x, py - y) of the source.
  pub blit-copies :
      (dst' : List ℕ) × (blit ≡ some (pixels dst'))
      × (length dst' ≡ length dst)
      × ((px py : ℕ)
          → px < s
          → cell dst' s px py ≡ (
              if in_span y (pos sh) ht py && in_span x (pos sw) wd px
              then cell src t (pos_part (pos px -ℤ x)) (pos_part (pos py -ℤ y))
              else cell dst s px py))
  blit-copies = elim (Bool-cases (degenerate || outside)) [
    | inl e ↦ (dst, blit_empty e, refl, λ px py k. rw (no_window e px py))
    | inr e ↦
        let clear = (or-false degenerate outside e).1 in
        let sides = or-false (leb_ℤ (clip_high (x +ℤ pos sw) (pos wd)) (clip_low x)) _ clear in
        let (dst', done, same, cells) =
          for_rows-cell s left run (length dst) (top + rows)
            (λ row. read_at src (source_of row) run)
            (λ row f. memcpy_at f (row * s + left) src (source_of row) run)
            (omega (arith, span_fits x (pos sw) wd 0 sides.0))
            (omega (arith, room, row_mono s (top + rows) ht (span_fits y (pos sh) ht 0 sides.1)))
            (λ row h. length-read_at src (source_of row) run (source_row clear row h))
            (λ row f h k.
              memcpy_at_lem f (row * s + left) src (source_of row) run k (source_row clear row h))
            rows top dst (omega arith) refl in
        (
          dst',
          blit_full e ∙ ap into done,
          same,
          λ px py k.
              cells px py k
              ∙ rw (span_clipped x (pos sw) wd px sides.0, span_clipped y (pos sh) ht py sides.1)
                  (if_congr _ (cell dst s px py) (source_pixel clear px py)),
        )
  ]
