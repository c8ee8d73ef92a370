-- ===== src/Raster/Line/Loop.antt =====
-- The loop of `blyt_raster_line` of runtime/shared/blyt_raster.c, over any measure of what is left.
use blyt.Prelude.{
  ℕ, zero, suc, ◌*◌, ◌≤◌, ◌<◌, ◌≡◌, ◌∙◌, subst, ◌⊎◌, inl, inr, Bool, true, false, ◌&&◌, some, List,
  arith, ltb, length, Bool-cases,
}
use blyt.Prelude.Int.{ℤ, pos, eqb_ℤ}
use blyt.Raster.{Walk, Slope, drawn, put_pixel, line_step, line_loop}
use blyt.Raster.Rows.{cell}
use blyt.Raster.Line.Pixel.{put_pixel-cell}

-- A cell is as it was, or has the colour and lies on the line.
abbrev pub Touched : (ℤ → ℤ → Type 0) → ℕ → ℕ → List ℕ → List ℕ → Type 0
Touched OnLine s c fb fb' =
    (px py : ℕ)
    → px < s
    → (cell fb' s px py ≡ cell fb s px py)
      ⊎ ((cell fb' s px py ≡ some c) × OnLine (pos px) (pos py))

-- If the point (x, y) is visible then it has the colour.
abbrev pub Coloured : ℕ → ℕ → ℕ → ℕ → ℤ → ℤ → List ℕ → Type 0
Coloured s wd ht c x y fb =
    (px py : ℕ) → px < wd → py < ht → x ≡ pos px → y ≡ pos py → cell fb s px py ≡ some c

module _ (s wd ht c : ℕ) (x1 y1 : ℤ) (slope : Slope) (total : ℕ) (stride_pos : 0 < s)
    (narrow : wd ≤ s) (room : ht * s ≤ total) (Left : ℕ → Walk → Type 0) (OnLine : ℤ → ℤ → Type 0)
    (near : (n : ℕ) (w : Walk) → Left n w → OnLine w.at_x w.at_y)
    (at_end : (w : Walk) → Left 0 w → (w.at_x ≡ x1) × (w.at_y ≡ y1))
    (goes_on : (n : ℕ) (w : Walk)
      → Left (suc n) w
      → ((eqb_ℤ w.at_x x1 && eqb_ℤ w.at_y y1) ≡ false) × Left n (line_step slope w)) where
  -- What one pixel of the walk does.
  point :
      (n : ℕ) (w : Walk) (fb : List ℕ)
      → Left n w
      → length fb ≡ total
      → (fb' : List ℕ) × (put_pixel fb (pos s) (pos wd) (pos ht) w.at_x w.at_y c ≡ some fb')
        × (length fb' ≡ total)
        × Touched OnLine s c fb fb'
        × Coloured s wd ht c w.at_x w.at_y fb'
  point n w fb l e =
      let (fb', done, same, cells) =
        put_pixel-cell s wd ht c w.at_x w.at_y fb stride_pos narrow (omega (arith, room, e)) in
      let visible : ℕ → ℕ → Bool =
        λ px py. ltb px wd && ltb py ht && eqb_ℤ w.at_x (pos px) && eqb_ℤ w.at_y (pos py) in
      (
        fb',
        done,
        same ∙ e,
        λ px py k. elim (Bool-cases (visible px py)) [
          | inl v ↦ inr (
            cells px py k ∙ rw v,
            subst (λ a. OnLine a (pos py)) {x = w.at_x} (ground (arith, v))
                (subst (λ b. OnLine w.at_x b) {x = w.at_y} (ground (arith, v)) (near n w l)),
          )
          | inr v ↦ inl (cells px py k ∙ rw v)
        ],
        λ px py h k a b.
            let v : visible px py ≡ true = ground (arith, h, k, a, b) in
            cells px py (omega (arith, narrow, h)) ∙ rw v,
      )

  round :
      (w : Walk) (fb next : List ℕ) (fuel : ℕ)
      → put_pixel fb (pos s) (pos wd) (pos ht) w.at_x w.at_y c ≡ some next
      → (eqb_ℤ w.at_x x1 && eqb_ℤ w.at_y y1) ≡ false
      → line_loop (pos s) (pos wd) (pos ht) x1 y1 c slope fb w (suc fuel)
        ≡ line_loop (pos s) (pos wd) (pos ht) x1 y1 c slope next (line_step slope w) fuel
  unfolding line_loop
  round w fb next fuel done more = ground (arith, done, more)

  pub loop_ends :
      (n : ℕ) (w : Walk) (fb : List ℕ) (fuel : ℕ)
      → Left n w
      → n < fuel
      → length fb ≡ total
      → (fb' : List ℕ) × (line_loop (pos s) (pos wd) (pos ht) x1 y1 c slope fb w fuel ≡ drawn fb')
        × (length fb' ≡ total)
        × Touched OnLine s c fb fb'
        × Coloured s wd ht c w.at_x w.at_y fb'
        × Coloured s wd ht c x1 y1 fb'
  unfolding line_loop
  loop_ends n w fb zero l f e = absurd (omega (arith, f))
  loop_ends zero w fb (suc fuel) l f e =
      let (fb', done, same, touched, coloured) = point 0 w fb l e in
      let (ex, ey) = at_end w l in
      let ended : (eqb_ℤ w.at_x x1 && eqb_ℤ w.at_y y1) ≡ true = ground (arith, ex, ey) in
      (
        fb',
        ground (arith, done, ended),
        same,
        touched,
        coloured,
        λ px py h k a b. coloured px py h k (ex ∙ a) (ey ∙ b),
      )
  loop_ends (suc n) w fb (suc fuel) l f e =
      let (mid, done, same, touched, coloured) = point (suc n) w fb l e in
      let (more, rest) = goes_on n w l in
      let (fb', done', same', touched', coloured', ended) =
        loop_ends n (line_step slope w) mid fuel rest (omega (arith, f)) same in
      (
        fb',
        round w fb mid fuel done more ∙ done',
        same',
        λ px py k. elim (touched' px py k) [
          | inl kept ↦ elim (touched px py k) [
            | inl old ↦ inl (kept ∙ old)
            | inr (set, on) ↦ inr (kept ∙ set, on)
          ]
          | inr set ↦ inr set
        ],
        λ px py h k a b. elim (touched' px py (omega (arith, narrow, h))) [
          | inl kept ↦ kept ∙ coloured px py h k a b
          | inr set ↦ set.0
        ],
        ended,
      )
