-- ===== src/Raster/Span.antt =====
-- The clipping of one axis in runtime/shared/blyt_raster.c.
use blyt.Prelude.{
  ℕ, ◌+◌, ◌-◌, ◌≤◌, ◌<◌, ◌≡◌, Bool, true, false, ◌&&◌, ◌||◌, inl, inr, or-cases, and-false_left,
  and-false_right, arith, leb, ltb,
}
use blyt.Prelude.Int.{ℤ, pos, pos_part, ◌+ℤ◌, ltb_ℤ, leb_ℤ, +ℤ_parts}
use blyt.Raster.{clip_low, clip_high}

-- The position `p` is visible below `bound` and lies in the span of `len` positions from `v`.
abbrev pub in_span : ℤ → ℤ → ℕ → ℕ → Bool
in_span v len bound p = ltb p bound && (leb_ℤ v (pos p) && ltb_ℤ (pos p) (v +ℤ len))

-- The clipped span holds the visible positions, on one axis.
module _ (v len : ℤ) (bound p : ℕ) where
  pub span_clipped :
      leb_ℤ (clip_high (v +ℤ len) (pos bound)) (clip_low v) ≡ false
      → let lo = pos_part (clip_low v) in
        let hi = pos_part (clip_high (v +ℤ len) (pos bound)) in
        (leb lo p && ltb p (lo + (hi - lo))) ≡ in_span v len bound p
  span_clipped e = ground (arith, +ℤ_parts v len)

  span_outside :
      leb_ℤ (clip_high (v +ℤ len) (pos bound)) (clip_low v) ≡ true → in_span v len bound p ≡ false
  span_outside e = ground (arith, +ℤ_parts v len)

  pub span_fits :
      leb_ℤ (clip_high (v +ℤ len) (pos bound)) (clip_low v) ≡ false
      → pos_part (clip_low v)
          + (pos_part (clip_high (v +ℤ len) (pos bound)) - pos_part (clip_low v))
        ≤ bound
  span_fits e = ground (arith, +ℤ_parts v len)

  pub span_nonempty :
      leb_ℤ (clip_high (v +ℤ len) (pos bound)) (clip_low v) ≡ false
      → 0 < pos_part (clip_high (v +ℤ len) (pos bound)) - pos_part (clip_low v)
  span_nonempty e = ground (arith, +ℤ_parts v len)

  span_empty : leb_ℤ len (pos 0) ≡ true → in_span v len bound p ≡ false
  span_empty e = ground (arith, +ℤ_parts v len)

-- A window with no visible pixel, because it has no size or because it is clipped away.
module _ (x y w h : ℤ) (wd ht : ℕ) where
  pub flat_window :
      (leb_ℤ w (pos 0) || leb_ℤ h (pos 0)) ≡ true
      → (px py : ℕ) → (in_span y h ht py && in_span x w wd px) ≡ false
  flat_window e px py = elim (or-cases (leb_ℤ w (pos 0)) _ e) [
    | inl low ↦ and-false_right (in_span y h ht py) _ (span_empty x w wd px low)
    | inr low ↦ and-false_left _ (in_span x w wd px) (span_empty y h ht py low)
  ]

  pub outside_window :
      (leb_ℤ (clip_high (x +ℤ w) (pos wd)) (clip_low x)
          || leb_ℤ (clip_high (y +ℤ h) (pos ht)) (clip_low y))
        ≡ true
      → (px py : ℕ) → (in_span y h ht py && in_span x w wd px) ≡ false
  outside_window e px py = elim (or-cases (leb_ℤ (clip_high (x +ℤ w) (pos wd)) (clip_low x)) _ e) [
    | inl o ↦ and-false_right (in_span y h ht py) _ (span_outside x w wd px o)
    | inr o ↦ and-false_left _ (in_span x w wd px) (span_outside y h ht py o)
  ]
