-- ===== src/Cart/Segments.antt =====
-- What the checks of the gathered segments guarantee.
use blyt.Prelude.{
  ℕ, zero, suc, ◌+◌, ◌*◌, ◌≤◌, ◌<◌, ◌≡◌, refl, true, false, some, List, [], ◌∷◌, arith, length,
  drop, length-take, get_elem?, Bool-cases, inl, inr, Bool, ◌&&◌, leb, ltb,
}
use blyt.Prelude.Bytes.{read_at}
use blyt.Cart.{
  cart_ok, Phdr, Gathered, check_gathered, any_overlap, overlaps_any, segments_overlap, any_trap,
  has_trap, is_trap, is_exec, ranges_overlap,
}

length-read_at_le : (xs : List ℕ) (off n : ℕ) → length (read_at xs off n) ≤ n
length-read_at_le xs off n = omega (arith, length-take n (drop off xs))

overlaps_any-false :
    (a : Phdr) (bs : List Phdr) (j : ℕ) {b : Phdr}
    → overlaps_any a bs ≡ false
    → get_elem? bs j ≡ some b
    → segments_overlap a b ≡ false
unfolding overlaps_any
overlaps_any-false a [] j h e = absurd (ground (arith, e))
overlaps_any-false a (x ∷ bs) zero h e = ground (arith, h, e)
overlaps_any-false a (x ∷ bs) (suc j) h e = overlaps_any-false a bs j (ground (arith, h)) e

any_overlap-false :
    (ps : List Phdr) (i j : ℕ) {a b : Phdr}
    → any_overlap ps ≡ false
    → i < j
    → get_elem? ps i ≡ some a
    → get_elem? ps j ≡ some b
    → segments_overlap a b ≡ false
unfolding any_overlap
any_overlap-false [] i j h lt at_i at_j = absurd (ground (arith, at_i))
any_overlap-false (p ∷ ps) zero zero h lt at_i at_j = absurd (omega (arith, lt))
any_overlap-false (p ∷ ps) zero (suc j) h lt at_i at_j =
    ground (arith, at_i, overlaps_any-false p ps j (ground (arith, h)) at_j)
any_overlap-false (p ∷ ps) (suc i) zero h lt at_i at_j = absurd (omega (arith, lt))
any_overlap-false (p ∷ ps) (suc i) (suc j) h lt at_i at_j =
    any_overlap-false ps i j (ground (arith, h)) (omega arith) at_i at_j

has_trap-false :
    (bytes : List ℕ) (k off : ℕ)
    → off ≡ 2 * k
    → has_trap bytes ≡ false
    → off + 4 ≤ length bytes
    → is_trap (read_at bytes off 4) ≡ false
unfolding has_trap
has_trap-false (a ∷ b ∷ c ∷ d ∷ rest) k zero e h inside = ground (arith, h)
has_trap-false (a ∷ b ∷ c ∷ d ∷ rest) k (suc zero) e h inside = absurd (omega (arith, e))
has_trap-false (a ∷ b ∷ c ∷ d ∷ rest) zero (suc (suc off)) e h inside = absurd (omega (arith, e))
has_trap-false (a ∷ b ∷ c ∷ d ∷ rest) (suc k) (suc (suc off)) e h inside =
    has_trap-false (c ∷ d ∷ rest) k off (omega (arith, e)) (ground (arith, h)) (omega arith)
has_trap-false (a ∷ b ∷ c ∷ []) k off e h inside = absurd (omega (arith, inside))
has_trap-false (a ∷ b ∷ []) k off e h inside = absurd (omega (arith, inside))
has_trap-false (a ∷ []) k off e h inside = absurd (omega (arith, inside))
has_trap-false [] k off e h inside = absurd (omega (arith, inside))

any_trap-false :
    (map : List ℕ) (ps : List Phdr) (i : ℕ) {p : Phdr}
    → any_trap map ps ≡ false
    → get_elem? ps i ≡ some p
    → is_exec p ≡ true
    → 4 ≤ p.p_filesz
    → has_trap (read_at map p.p_offset p.p_filesz) ≡ false
unfolding any_trap
any_trap-false map [] i h e x big = absurd (ground (arith, e))
any_trap-false map (q ∷ ps) zero {p} h e x big = ground (arith, h, e, x, big)
any_trap-false map (q ∷ ps) (suc i) h e x big = any_trap-false map ps i (ground (arith, h)) e x big

-- Whether a position lies in the `len` positions from `start` on.
abbrev pub in_range : ℕ → ℕ → ℕ → Bool
in_range start len a = leb start a && ltb a (start + len)

-- Two segments have no byte of the file and no address in common.
abbrev pub IsApart : Phdr → Phdr → Type 0
IsApart p q =
    (a : ℕ)
    → ((in_range p.p_offset p.p_filesz a && in_range q.p_offset q.p_filesz a) ≡ false)
      × ((in_range p.p_vaddr p.p_memsz a && in_range q.p_vaddr q.p_memsz a) ≡ false)

segments_overlap-IsApart : (p q : Phdr) → segments_overlap p q ≡ false → IsApart p q
unfolding segments_overlap ranges_overlap
segments_overlap-IsApart p q h a = (ground (arith, h), ground (arith, h))

-- If the gathered segments are accepted, no two of them, of whatever kind, have a byte of the file or
-- an address in common; and in every executable one the four bytes at an even offset, of the bytes
-- that the map has for it, are neither an ECALL nor an EBREAK.
pub check_gathered_sound :
    (map : List ℕ) (g : Gathered)
    → check_gathered map g ≡ cart_ok
    → ((i j : ℕ) (p q : Phdr)
        → i < j
        → get_elem? g.loads i ≡ some p
        → get_elem? g.loads j ≡ some q
        → IsApart p q)
      × ((i k : ℕ) (p : Phdr)
          → get_elem? g.loads i ≡ some p
          → is_exec p ≡ true
          → 2 * k + 4 ≤ length (read_at map p.p_offset p.p_filesz)
          → is_trap (read_at (read_at map p.p_offset p.p_filesz) (2 * k) 4) ≡ false)
unfolding check_gathered
check_gathered_sound map g h =
    let apart : any_overlap g.loads ≡ false = elim (Bool-cases (any_overlap g.loads)) [
      | inl yes_ ↦ absurd (ground (arith, h, yes_))
      | inr no_ ↦ no_
    ] in
    let clean : any_trap map g.loads ≡ false = elim (Bool-cases (any_trap map g.loads)) [
      | inl yes_ ↦ absurd (ground (arith, h, yes_))
      | inr no_ ↦ no_
    ] in
    (
      λ i j p q lt at_i at_j.
          segments_overlap-IsApart p q (any_overlap-false g.loads i j apart lt at_i at_j),
      λ i k p at_i x inside.
          let big : 4 ≤ p.p_filesz =
            omega (arith, inside, length-read_at_le map p.p_offset p.p_filesz) in
          has_trap-false (read_at map p.p_offset p.p_filesz) k (2 * k) refl
            (any_trap-false map g.loads i clean at_i x big) inside,
    )
