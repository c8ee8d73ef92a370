-- ===== src/Raster/Line/Steep.antt =====
-- Lines that are longer down than across, for `blyt_raster_line` of runtime/shared/blyt_raster.c.
use blyt.Prelude.{
  ℕ, zero, suc, ◌^◌, ◌≤◌, ◌<◌, ◌≡◌, refl, sym, subst, Bool, true, false, ◌&&◌, arith, Bool-cases,
  inl, inr,
}
use blyt.Prelude.Int.{
  ℤ, pos, pos_part, neg_part, ◌+ℤ◌, ◌-ℤ◌, ltb_ℤ, eqb_ℤ, +ℤ_parts, -ℤ_parts, eq_of_parts,
}
use blyt.Raster.{Walk, line_step}
use blyt.Raster.Line.Error.{
  Ahead, IsCoord, IsDistance, step-Ahead, Balance, Bounded, moves-both, moves-down, axes,
}

module _ (dx dy : ℕ) (forward_x forward_y : Bool) (x1 y1 : ℤ) (small : IsDistance dy)
    (steep : dx < dy) (ix : IsCoord x1) (iy : IsCoord y1) where
  -- `n` steps are left down, and `m` across.
  abbrev SteepWith : ℕ → ℕ → Walk → Type 0
  SteepWith n m w =
      (n ≤ dy)
      × (m ≤ dx)
      × Ahead forward_x m w.at_x x1
      × Ahead forward_y n w.at_y y1
      × Balance dx dy m n w.err
      × Bounded dy dx (neg_part w.err) (pos_part w.err)

  abbrev pub SteepLeft : ℕ → Walk → Type 0
  SteepLeft n w = (m : ℕ) × SteepWith n m w

  none_across : (m : ℕ) (w : Walk) → SteepWith 0 m w → m ≡ 0
  none_across zero w h = refl
  none_across (suc m) w h = absurd (ground arith)

  pub SteepLeft-end : (w : Walk) → SteepLeft 0 w → (w.at_x ≡ x1) × (w.at_y ≡ y1)
  SteepLeft-end w (m, h) =
      let z = none_across m w h in
      (eq_of_parts w.at_x x1 (ground arith), eq_of_parts w.at_y y1 (ground arith))

  not_there :
      (n : ℕ) (w : Walk)
      → Ahead forward_y (suc n) w.at_y y1
      → (eqb_ℤ w.at_x x1 && eqb_ℤ w.at_y y1) ≡ false
  not_there n w h = ground arith

  -- What a round does to the error, with and without a step across.
  raised :
      (n m : ℕ) (e : ℤ)
      → ltb_ℤ (pos 0 -ℤ pos dy) (e +ℤ e) ≡ false
      → Balance dx dy m (suc n) e
      → Bounded dy dx (neg_part e) (pos_part e)
      → Balance dx dy m n (e +ℤ pos dx)
        × Bounded dy dx (neg_part (e +ℤ pos dx)) (pos_part (e +ℤ pos dx))
  unfolding ◌+ℤ◌ ◌-ℤ◌
  raised n m e x b h = (ground arith, (ground arith, ground arith, ground arith))

  diagonal :
      (n m : ℕ) (e : ℤ)
      → ltb_ℤ (pos 0 -ℤ pos dy) (e +ℤ e) ≡ true
      → Balance dx dy (suc m) (suc n) e
      → Bounded dy dx (neg_part e) (pos_part e)
      → let e' = e -ℤ pos dy +ℤ pos dx in
        Balance dx dy m n e' × Bounded dy dx (neg_part e') (pos_part e')
  unfolding ◌+ℤ◌ ◌-ℤ◌
  diagonal n m e x b h = (ground arith, (ground arith, ground arith, ground arith))

  always_down : (e : ℤ) → Bounded dy dx (neg_part e) (pos_part e) → ltb_ℤ (e +ℤ e) (pos dx) ≡ true
  unfolding ◌+ℤ◌
  always_down e b = ground arith

  moderate :
      (e : ℤ)
      → Bounded dy dx (neg_part e) (pos_part e)
      → (pos_part e < 2 ^ 30) × (neg_part e < 2 ^ 30)
  moderate e b = (ground arith, ground arith)

  -- A round that also goes across has a column left to go.
  slanted :
      (n m : ℕ) (w : Walk)
      → ltb_ℤ (pos 0 -ℤ pos dy) (w.err +ℤ w.err) ≡ true
      → SteepWith (suc n) m w
      → SteepLeft n (line_step (axes dx dy forward_x forward_y) w)
  slanted n zero w x (ny, mx, ahead_x, ahead_y, balance, bounded) =
      absurd (ground (arith, +ℤ_parts w.err w.err, -ℤ_parts (pos 0) (pos dy)))
  slanted n (suc m) w x (ny, mx, ahead_x, ahead_y, balance, bounded) =
      let small_dx : IsDistance dx = omega (arith, small, steep) in
      let (ex, next_x) =
        step-Ahead forward_x m w.at_x x1 ahead_x ix (omega (arith, mx, small_dx)) in
      let (ey, next_y) = step-Ahead forward_y n w.at_y y1 ahead_y iy (omega (arith, ny, small)) in
      let error = diagonal n m w.err x balance bounded in
      subst (SteepLeft n)
        (sym (
          moves-both dx dy forward_x forward_y w small_dx small (moderate w.err bounded) x
            (always_down w.err bounded) ex ey))
        (m, (omega (arith, ny), omega (arith, mx), next_x, next_y, error.0, error.1))

  pub SteepLeft-step :
      (n : ℕ) (w : Walk)
      → SteepLeft (suc n) w
      → ((eqb_ℤ w.at_x x1 && eqb_ℤ w.at_y y1) ≡ false)
        × SteepLeft n (line_step (axes dx dy forward_x forward_y) w)
  SteepLeft-step n w (m, h) =
      let (ny, mx, ahead_x, ahead_y, balance, bounded) = h in
      let small_dx : IsDistance dx = omega (arith, small, steep) in
      let (ey, next_y) = step-Ahead forward_y n w.at_y y1 ahead_y iy (omega (arith, ny, small)) in
      (
        not_there n w ahead_y,
        elim (Bool-cases (ltb_ℤ (pos 0 -ℤ pos dy) (w.err +ℤ w.err))) [
          | inl x ↦ slanted n m w x h
          | inr upright ↦
              let error = raised n m w.err upright balance bounded in
              subst (SteepLeft n)
                (sym (
                  moves-down dx dy forward_x forward_y w small_dx small (moderate w.err bounded)
                    upright (always_down w.err bounded) ey))
                (m, (omega (arith, ny), mx, ahead_x, next_y, error.0, error.1))
        ],
      )
