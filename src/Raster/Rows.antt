-- ===== src/Raster/Rows.antt =====
-- The loops over rows of runtime/shared/blyt_raster.c.
use blyt.Prelude.{
  ℕ, zero, suc, ◌+◌, ◌-◌, ◌*◌, ◌≤◌, ◌<◌, ◌≡◌, refl, subst, ap, sym, ◌∙◌, ◌⊎◌, inl, inr, Bool, ◌&&◌,
  Option, some, List, arith, leb, ltb, if◌then◌else◌, length, get_elem?,
}
use blyt.Prelude.Bytes.{write_at, length-write_at, get_elem?-write_at}
use blyt.Raster.{for_rows}

-- The pixel of column `x` in row `y`.
abbrev pub cell : List ℕ → ℕ → ℕ → ℕ → Option ℕ
cell fb stride x y = get_elem? fb (y * stride + x)

-- Cells of different rows lie apart.
row_le : (k y stride : ℕ) → y * stride ≤ (k + y) * stride
row_le k y stride = omega arith

pub row_mono : (stride row stop : ℕ) → row ≤ stop → row * stride ≤ stop * stride
row_mono stride row stop h =
    subst (λ r. row * stride ≤ r * stride) {x = (stop - row) + row} (omega arith)
      (row_le (stop - row) row stride)

below_row : (stride y row x : ℕ) → y < row → x < stride → y * stride + x < row * stride
below_row stride y row x h k = omega (arith, row_mono stride (suc y) row h)

row_order : (y row : ℕ) → (y < row) ⊎ ((y ≡ row) ⊎ (row < y))
row_order y row = omega arith

-- The rectangle of the rows `row .. row + n` and the columns `x0 .. x0 + run`.
abbrev pub in_block : ℕ → ℕ → ℕ → ℕ → ℕ → ℕ → Bool
in_block row n x0 run x y = (leb row y && ltb y (row + n)) && (leb x0 x && ltb x (x0 + run))

module _ (stride x0 run total stop : ℕ) (block : ℕ → List ℕ) (body : ℕ → List ℕ → Option (List ℕ))
    (fits : x0 + run ≤ stride) (room : stop * stride ≤ total)
    (len : (row : ℕ) → row < stop → length (block row) ≡ run)
    (writes : (row : ℕ) (fb : List ℕ)
      → row < stop
      → row * stride + x0 + run ≤ length fb
      → body row fb ≡ some (write_at fb (row * stride + x0) (block row))) where
  row_end : (row : ℕ) → row < stop → row * stride + x0 + run ≤ total
  row_end row h = omega (arith, row_mono stride (suc row) stop h)

  -- What a write leaves in its own row, and in any row.
  own_row :
      (row : ℕ) (fb : List ℕ) (x : ℕ)
      → row < stop
      → length fb ≡ total
      → x < stride
      → cell (write_at fb (row * stride + x0) (block row)) stride x row ≡ (
          if in_block row 1 x0 run x row
          then get_elem? (block row) (x - x0)
          else cell fb stride x row)
  own_row row fb x h e k =
      get_elem?-write_at fb (row * stride + x0) (block row) (row * stride + x)
        (omega (arith, row_end row h, len row h, e))
      ∙ ground (
        arith,
        len row h,
        ap (get_elem? (block row)) {x = row * stride + x - (row * stride + x0)} {y = x - x0}
            (omega arith),
      )

  write-cell :
      (row : ℕ) (fb : List ℕ) (x y : ℕ)
      → row < stop
      → length fb ≡ total
      → x < stride
      → cell (write_at fb (row * stride + x0) (block row)) stride x y
        ≡ (if in_block row 1 x0 run x y then get_elem? (block y) (x - x0) else cell fb stride x y)
  write-cell row fb x y h e k =
      let at =
        get_elem?-write_at fb (row * stride + x0) (block row) (y * stride + x)
          (omega (arith, row_end row h, len row h, e)) in
      elim (row_order y row) [
        | inl below ↦ at ∙ ground (arith, len row h, below_row stride y row x below k)
        | inr (inl same) ↦
            subst
              (λ r. cell (write_at fb (row * stride + x0) (block row)) stride x r ≡ (
                if in_block row 1 x0 run x r
                then get_elem? (block r) (x - x0)
                else cell fb stride x r))
              (sym same) (own_row row fb x h e k)
        | inr (inr above) ↦ at ∙ ground (arith, len row h, row_mono stride (suc row) y above)
      ]

  -- The loop stays in the buffer and writes each block to its row.
  pub for_rows-cell :
      (n row : ℕ) (fb : List ℕ)
      → row + n ≤ stop
      → length fb ≡ total
      → (fb' : List ℕ) × (for_rows body row n fb ≡ some fb')
        × (length fb' ≡ total)
        × ((x y : ℕ)
            → x < stride
            → cell fb' stride x y ≡ (
                if in_block row n x0 run x y
                then get_elem? (block y) (x - x0)
                else cell fb stride x y))
  for_rows-cell zero row fb h e = (fb, refl, e, λ x y k. ground arith)
  for_rows-cell (suc n) row fb h e =
      let mid = write_at fb (row * stride + x0) (block row) in
      let (fb', done, e', cells) =
        for_rows-cell n (row + 1) mid (omega arith)
          (length-write_at fb (row * stride + x0) (block row) ∙ e) in
      (
        fb',
        rw (writes row fb (omega arith) (omega (arith, row_end row (omega arith), e)), done),
        e',
        λ x y k. cells x y k ∙ ground (arith, write-cell row fb x y (omega arith) e k),
      )
