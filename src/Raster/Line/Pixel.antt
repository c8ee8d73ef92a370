-- ===== src/Raster/Line/Pixel.antt =====
-- `blyt_raster_pixel` of runtime/shared/blyt_raster.c.
use blyt.Prelude.{
  ℕ, ◌+◌, ◌*◌, ◌≤◌, ◌<◌, ◌≡◌, refl, sym, ◌∙◌, inl, inr, ◌&&◌, ◌||◌, Option, none, some, List, arith,
  ltb, if◌then◌else◌, ◌>>=◌, length, Bool-cases,
}
use blyt.Prelude.Int.{ℤ, pos, pos_part, neg_part, ltb_ℤ, leb_ℤ, eqb_ℤ}
use blyt.Raster.{put_pixel}
use blyt.Raster.Rows.{cell, row_mono}
use blyt.Raster.Rect.{fill_rows-cell}

bind_some : (o : Option (List ℕ)) → (o >>= λ f. some f) ≡ o
bind_some none = refl
bind_some (some f) = refl

-- The pixel stays in the buffer, and only the visible cell at (x, y) changes.
pub put_pixel-cell :
    (s wd ht c : ℕ) (x y : ℤ) (fb : List ℕ)
    → 0 < s
    → wd ≤ s
    → ht * s ≤ length fb
    → (fb' : List ℕ) × (put_pixel fb (pos s) (pos wd) (pos ht) x y c ≡ some fb')
      × (length fb' ≡ length fb)
      × ((px py : ℕ)
          → px < s
          → cell fb' s px py ≡ (
              if ltb px wd && ltb py ht && eqb_ℤ x (pos px) && eqb_ℤ y (pos py)
              then some c
              else cell fb s px py))
unfolding put_pixel
put_pixel-cell s wd ht c x y fb p narrow room =
    elim (Bool-cases (ltb_ℤ x (pos 0) || leb_ℤ (pos wd) x || ltb_ℤ y (pos 0) || leb_ℤ (pos ht) y)) [
      | inl out ↦ (fb, ground (arith, p, out), refl, λ px py k. ground (arith, out))
      | inr seen ↦
          let inside : (pos_part x < wd) × (neg_part x ≡ 0) × (pos_part y < ht) × (neg_part y ≡ 0) =
            (
              ground (arith, seen),
              ground (arith, seen),
              ground (arith, seen),
              ground (arith, seen),
            ) in
          let (fb', done, same, cells) =
            fill_rows-cell s (pos_part x) 1 c (pos_part y) 1 fb (omega (arith, inside.0, narrow))
              (omega (arith, room, row_mono s (pos_part y + 1) ht (omega (arith, inside.2)))) in
          (
            fb',
            ground (arith, p, seen) ∙ sym (bind_some _) ∙ done,
            same,
            λ px py k. cells px py k ∙ ground (arith, inside.0, inside.1, inside.2, inside.3),
          )
    ]
