-- ===== src/Shared/ElfSection/Decimal.antt =====
-- `blyt_elf32_parse_u32` against the number that a decimal text writes.
use blyt.Prelude.{
  ℕ, ◌+◌, ◌-◌, ◌*◌, ◌/◌, ◌^◌, ◌≤◌, ◌<◌, ◌≡◌, refl, ap, ◌∙◌, subst, ◌↔◌, Bool, false, ◌||◌, some,
  List, [], ◌∷◌, arith, ltb, ◌==◌, length, All, Bool-cases, inl, inr, Option-cases,
}
use native.Mathlib.Nat.{mod-eq_of_lt}
use blyt.Shared.ElfSection.{parse_digits, elf32_parse_u32}

abbrev pub IsDigit : ℕ → Type 0
IsDigit c = (b'0' ≤ c) × (c ≤ b'9')

-- The value of the digits behind `v`.
abbrev pub digits_value : ℕ → List ℕ → ℕ
digits_value v [] = v
digits_value v (c ∷ cs) = digits_value (v * 10 + (c - b'0')) cs

digits_value-le : (v : ℕ) (cs : List ℕ) → v ≤ digits_value v cs
digits_value-le v [] = omega arith
digits_value-le v (c ∷ cs) = omega (arith, digits_value-le (v * 10 + (c - b'0')) cs)

-- Whether a character is refused.
abbrev is_other : ℕ → Bool
is_other c = ltb c b'0' || ltb b'9' c

parse_digits-cons :
    (v c : ℕ) (cs : List ℕ) (n : ℕ)
    → v < 2 ^ 32
    → parse_digits v (c ∷ cs) ≡ some n
    → IsDigit c × (v * 10 + (c - b'0') < 2 ^ 32) × (parse_digits (v * 10 + (c - b'0')) cs ≡ some n)
unfolding parse_digits
parse_digits-cons v c cs n small h = elim (Bool-cases (is_other c)) [
  | inl other ↦ absurd (ground (arith, h, other))
  | inr digit ↦ elim (Bool-cases (ltb ((2 ^ 32 - 1 - (c - b'0')) / 10) v)) [
    | inl over ↦ absurd (ground (arith, h, digit, over))
    | inr fits ↦
        let ok : IsDigit c = (ground (arith, digit), ground (arith, digit)) in
        let room : v * 10 + (c - b'0') < 2 ^ 32 = ground (arith, fits, ok.1) in
        (ok, room, ground (arith, h, digit, fits, mod-eq_of_lt room))
  ]
]

parse_digits-some :
    (v : ℕ) (cs : List ℕ) (n : ℕ)
    → v < 2 ^ 32
    → parse_digits v cs ≡ some n
    → All IsDigit cs × (digits_value v cs ≡ n) × (n < 2 ^ 32)
unfolding parse_digits
parse_digits-some v [] n small h = (tt, ground (arith, h), ground (arith, h, small))
parse_digits-some v (c ∷ cs) n small h =
    let (digit, room, more) = parse_digits-cons v c cs n small h in
    let (digits, value, lt) = parse_digits-some (v * 10 + (c - b'0')) cs n room more in
    ((digit, digits), value, lt)

parse_digits-value :
    (v : ℕ) (cs : List ℕ)
    → All IsDigit cs
    → digits_value v cs < 2 ^ 32
    → parse_digits v cs ≡ some (digits_value v cs)
unfolding parse_digits
parse_digits-value v [] ok small = refl
parse_digits-value v (c ∷ cs) ok small =
    let (low, high) = ok.0 in
    let room : v * 10 + (c - b'0') < 2 ^ 32 =
      omega (arith, small, digits_value-le (v * 10 + (c - b'0')) cs) in
    let digit : is_other c ≡ false = ground (arith, low, high) in
    let fits : ltb ((2 ^ 32 - 1 - (c - b'0')) / 10) v ≡ false = ground (arith, room, high) in
    let rest = parse_digits-value (v * 10 + (c - b'0')) cs ok.1 small in
    rw (digit, fits, mod-eq_of_lt room, rest)

parse_u32-forth :
    (s : List ℕ) (n : ℕ)
    → elf32_parse_u32 s ≡ some n
    → (0 < length s) × All IsDigit s × (digits_value 0 s ≡ n) × (0 < n) × (n < 2 ^ 32)
unfolding elf32_parse_u32
parse_u32-forth s n h = elim (Option-cases (parse_digits 0 s)) [
  | inl bad ↦ absurd (ground (arith, h, bad))
  | inr (v, parsed) ↦
      let (digits, value, lt) = parse_digits-some 0 s v (omega arith) parsed in
      let full : 0 < length s = ground (arith, h, parsed) in
      let same : v ≡ n = ground (arith, h, parsed) in
      let pos : 0 < n = ground (arith, h, parsed) in
      (full, digits, value ∙ same, pos, subst (λ t. t < 2 ^ 32) same lt)
]

parse_u32-back :
    (s : List ℕ) (n : ℕ)
    → (0 < length s) × All IsDigit s × (digits_value 0 s ≡ n) × (0 < n) × (n < 2 ^ 32)
    → elf32_parse_u32 s ≡ some n
unfolding elf32_parse_u32
parse_u32-back s n (some_, digits, value, pos, lt) =
    let parsed = parse_digits-value 0 s digits (ground (arith, value, lt)) in
    let full : (length s == 0) ≡ false = ground (arith, some_) in
    let nonzero : (digits_value 0 s == 0) ≡ false = ground (arith, value, pos) in
    rw (full, parsed, nonzero) (ap some value)

-- The parse of a text gives `n` exactly if the text is not empty and all digits, its decimal value
-- is `n`, and `n` is not 0 and fits 32 bits.
pub parse_u32_iff :
    (s : List ℕ) (n : ℕ)
    → (elf32_parse_u32 s ≡ some n)
      ↔ ((0 < length s) × All IsDigit s × (digits_value 0 s ≡ n) × (0 < n) × (n < 2 ^ 32))
parse_u32_iff s n = (parse_u32-forth s n, parse_u32-back s n)
