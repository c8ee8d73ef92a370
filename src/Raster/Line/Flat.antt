-- ===== src/Raster/Line/Flat.antt =====
-- Lines that are longer across than down, for `blyt_raster_line` of runtime/shared/blyt_raster.c.
use blyt.Prelude.{
  ℕ, zero, suc, ◌^◌, ◌≤◌, ◌<◌, ◌≡◌, refl, sym, subst, Bool, true, false, ◌&&◌, arith, Bool-cases,
  inl, inr,
}
use blyt.Prelude.Int.{ℤ, pos, pos_part, neg_part, ◌+ℤ◌, ◌-ℤ◌, ltb_ℤ, eqb_ℤ, +ℤ_parts, eq_of_parts}
use blyt.Raster.{Walk, line_step}
use blyt.Raster.Line.Error.{
  Ahead, IsCoord, IsDistance, step-Ahead, Balance, Bounded, moves-both, moves-across, axes,
}

module _ (dx dy : ℕ) (forward_x forward_y : Bool) (x1 y1 : ℤ) (small : IsDistance dx)
    (flat : dy ≤ dx) (wide : 0 < dx) (ix : IsCoord x1) (iy : IsCoord y1) where
  -- `n` steps are left across, and `m` down.
  abbrev FlatWith : ℕ → ℕ → Walk → Type 0
  FlatWith n m w =
      (n ≤ dx)
      × (m ≤ dy)
      × Ahead forward_x n w.at_x x1
      × Ahead forward_y m w.at_y y1
      × Balance dx dy n m w.err
      × Bounded dx dy (pos_part w.err) (neg_part w.err)

  abbrev pub FlatLeft : ℕ → Walk → Type 0
  FlatLeft n w = (m : ℕ) × FlatWith n m w

  none_down : (m : ℕ) (w : Walk) → FlatWith 0 m w → m ≡ 0
  none_down zero w h = refl
  none_down (suc m) w h = absurd (ground arith)

  pub FlatLeft-end : (w : Walk) → FlatLeft 0 w → (w.at_x ≡ x1) × (w.at_y ≡ y1)
  FlatLeft-end w (m, h) =
      let z = none_down m w h in
      (eq_of_parts w.at_x x1 (ground arith), eq_of_parts w.at_y y1 (ground arith))

  not_there :
      (n : ℕ) (w : Walk)
      → Ahead forward_x (suc n) w.at_x x1
      → (eqb_ℤ w.at_x x1 && eqb_ℤ w.at_y y1) ≡ false
  not_there n w h = ground arith

  across :
      (n m : ℕ) (w : Walk)
      → ltb_ℤ (w.err +ℤ w.err) (pos dx) ≡ false
      → Balance dx dy (suc n) m w.err
      → Bounded dx dy (pos_part w.err) (neg_part w.err)
      → Balance dx dy n m (w.err -ℤ pos dy)
        × Bounded dx dy (pos_part (w.err -ℤ pos dy)) (neg_part (w.err -ℤ pos dy))
  unfolding ◌+ℤ◌ ◌-ℤ◌
  across n m w y b h = (ground arith, (ground arith, ground arith, ground arith))

  diagonal :
      (n m : ℕ) (w : Walk)
      → ltb_ℤ (w.err +ℤ w.err) (pos dx) ≡ true
      → Balance dx dy (suc n) (suc m) w.err
      → Bounded dx dy (pos_part w.err) (neg_part w.err)
      → let e = w.err -ℤ pos dy +ℤ pos dx in
        Balance dx dy n m e × Bounded dx dy (pos_part e) (neg_part e)
  unfolding ◌+ℤ◌ ◌-ℤ◌
  diagonal n m w y b h = (ground arith, (ground arith, ground arith, ground arith))

  always_across :
      (e : ℤ) → Bounded dx dy (pos_part e) (neg_part e) → ltb_ℤ (pos 0 -ℤ pos dy) (e +ℤ e) ≡ true
  unfolding ◌+ℤ◌ ◌-ℤ◌
  always_across e b = ground arith

  moderate :
      (e : ℤ)
      → Bounded dx dy (pos_part e) (neg_part e)
      → (pos_part e < 2 ^ 30) × (neg_part e < 2 ^ 30)
  moderate e b = (ground arith, ground arith)

  -- A round that also goes down has a row left to go.
  down :
      (n m : ℕ) (w : Walk)
      → ltb_ℤ (w.err +ℤ w.err) (pos dx) ≡ true
      → FlatWith (suc n) m w
      → FlatLeft n (line_step (axes dx dy forward_x forward_y) w)
  down n zero w y (nx, my, ahead_x, ahead_y, balance, bounded) =
      absurd (ground (arith, +ℤ_parts w.err w.err))
  down n (suc m) w y (nx, my, ahead_x, ahead_y, balance, bounded) =
      let small_dy : IsDistance dy = omega (arith, small, flat) in
      let (ex, next_x) = step-Ahead forward_x n w.at_x x1 ahead_x ix (omega (arith, nx, small)) in
      let (ey, next_y) =
        step-Ahead forward_y m w.at_y y1 ahead_y iy (omega (arith, my, small_dy)) in
      subst (FlatLeft n)
        (sym (
          moves-both dx dy forward_x forward_y w small small_dy (moderate w.err bounded)
            (always_across w.err bounded) y ex ey))
        (
          m,
          (
            omega (arith, nx),
            omega (arith, my),
            next_x,
            next_y,
            (diagonal n m w y balance bounded).0,
            (diagonal n m w y balance bounded).1,
          ),
        )

  pub FlatLeft-step :
      (n : ℕ) (w : Walk)
      → FlatLeft (suc n) w
      → ((eqb_ℤ w.at_x x1 && eqb_ℤ w.at_y y1) ≡ false)
        × FlatLeft n (line_step (axes dx dy forward_x forward_y) w)
  FlatLeft-step n w (m, h) =
      let (nx, my, ahead_x, ahead_y, balance, bounded) = h in
      let small_dy : IsDistance dy = omega (arith, small, flat) in
      let (ex, next_x) = step-Ahead forward_x n w.at_x x1 ahead_x ix (omega (arith, nx, small)) in
      (
        not_there n w ahead_x,
        elim (Bool-cases (ltb_ℤ (w.err +ℤ w.err) (pos dx))) [
          | inl y ↦ down n m w y h
          | inr level ↦
              subst (FlatLeft n)
                (sym (
                  moves-across dx dy forward_x forward_y w small small_dy (moderate w.err bounded)
                    (always_across w.err bounded) level ex))
                (
                  m,
                  (
                    omega (arith, nx),
                    my,
                    next_x,
                    ahead_y,
                    (across n m w level balance bounded).0,
                    (across n m w level balance bounded).1,
                  ),
                )
        ],
      )
