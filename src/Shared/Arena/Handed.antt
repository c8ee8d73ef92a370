-- ===== src/Shared/Arena/Handed.antt =====
-- What a successful allocation hands out, and what it charges.
use blyt.Prelude.{
  ℕ, zero, suc, ◌+◌, ◌-◌, ◌%◌, ◌^◌, ◌≤◌, ◌<◌, ◌≡◌, refl, ap, ◌∙◌, subst, Bool, true, false, not,
  ◌&&◌, ◌||◌, Option, none, some, arith, ltb, leb, ◌==◌, if◌then◌else◌, Option-cases, Bool-cases,
  inl, inr,
}
use blyt.Shared.MemBudget.{MemAccounting}
use blyt.Shared.Arena.{
  Arena, put_hdr, write_link, read_link, align_up, cap_allows, acct_add, add_used, charge, used_hdr,
  hdr_size, arena_align, take_free, take_bump, need_of, first_fit, ensure_ready, arena_malloc_core,
  fuel_of, arena_none,
}

-- The accounting after a charge.
abbrev pub charged : Bool → ℕ → Option MemAccounting → Option MemAccounting
charged noacct n none = none
charged noacct n (some acct) = if noacct then some acct else some (add_used n acct)

charge-acct :
    (noacct : Bool) (a : Arena) (n : ℕ) → (charge noacct a n).acct ≡ charged noacct n a.acct
unfolding charge acct_add
charge-acct true a n = elim (Option-cases a.acct) [ inl e ↦ rw (e) | inr (acct, e) ↦ rw (e) ]
charge-acct false a n = elim (Option-cases a.acct) [
  | inl e ↦ ground (arith, e)
  | inr (acct, e) ↦ ground (arith, e)
]

pub charged-true : (n : ℕ) (m : Option MemAccounting) → charged true n m ≡ m
charged-true n none = refl
charged-true n (some acct) = refl

charge-hdrs : (noacct : Bool) (a : Arena) (n : ℕ) → (charge noacct a n).hdrs ≡ a.hdrs
unfolding charge acct_add
charge-hdrs true a n = refl
charge-hdrs false a n = elim (Option-cases a.acct) [ inl e ↦ rw (e) | inr (acct, e) ↦ rw (e) ]

pub write_link-acct : (a : Arena) (link : Option ℕ) (v : ℕ) → (write_link a link v).acct ≡ a.acct
unfolding write_link put_hdr
write_link-acct a none v = refl
write_link-acct a (some o) v = refl

-- What a successful allocation leaves: `size` is the size of the block at `p`, charged to the
-- accounting if the budget allows it.
pub record Handed (a : Arena) (need : ℕ) (noacct : Bool) (p : ℕ) (a' : Arena) : Type 0 where
  pub size : ℕ
  pub enough : need ≤ size
  pub size_lt : size < 2 ^ 32
  pub allowed : (not noacct && not (cap_allows a size)) ≡ false
  pub acct_after : a'.acct ≡ charged noacct size a.acct
  pub header : a'.hdrs (p - hdr_size) ≡ used_hdr size noacct

handed :
    (a b : Arena) (need off n : ℕ) (noacct : Bool)
    → b.acct ≡ a.acct
    → need ≤ n
    → n < 2 ^ 32
    → (not noacct && not (cap_allows a n)) ≡ false
    → Handed a need noacct (off + hdr_size) (charge noacct (put_hdr b off (used_hdr n noacct)) n)
unfolding put_hdr
handed a b need off n noacct same enough small h =
    let c = put_hdr b off (used_hdr n noacct) in
    record {
      size = n;
      enough = enough;
      size_lt = small;
      allowed = h;
      acct_after = charge-acct noacct c n ∙ ap (charged noacct n) same;
      header = ap (λ f. f (off + hdr_size - hdr_size)) (charge-hdrs noacct c n) ∙ ground (arith);
    }

-- The sizes in the headers are 32-bit.
abbrev pub IsSized : Arena → Type 0
IsSized a = (o : ℕ) → (a.hdrs o).size < 2 ^ 32

-- A result with a pointer is an allocation.
abbrev pub HandedIf : Arena → ℕ → Bool → Option ℕ × Arena → Type 0
HandedIf a need noacct (none, a') = Unit
HandedIf a need noacct (some p, a') = Handed a need noacct p a'

take_bump-handed :
    (a : Arena) (need : ℕ) (noacct : Bool)
    → need < 2 ^ 32
    → HandedIf a need noacct (take_bump a need noacct)
unfolding take_bump put_hdr
take_bump-handed a need noacct small = elim (Bool-cases (ltb a.size (a.bump + need))) [
  | inl full ↦ rw (take_bump, full) tt
  | inr room ↦ elim (Bool-cases (not noacct && not (cap_allows a need))) [
    | inl over ↦ rw (take_bump, room, over) tt
    | inr ok ↦
        let b = record a { bump = (a.bump + need) % 2 ^ 32 } in
        rw (take_bump, room, ok) (handed a b need a.bump need noacct refl (omega arith) small ok)
  ]
]

-- The block that is taken from the free list, behind the link to it.
take_free-handed :
    (a : Arena) (need : ℕ) (noacct : Bool) (link : Option ℕ)
    → need < 2 ^ 32
    → IsSized a
    → need ≤ (a.hdrs (read_link a link)).size
    → HandedIf a need noacct (take_free a need noacct link)
unfolding take_free put_hdr
take_free-handed a need noacct link small sized enough =
    let off = read_link a link in
    let h = a.hdrs off in
    let rem = h.size - need in
    let lt = sized off in
    let tail_off = (off + need) % 2 ^ 32 in
    let b = put_hdr a tail_off (record { size = rem; free = 1; next = h.next; pad = 0 }) in
    elim (Bool-cases (leb (hdr_size + arena_align) rem)) [
      | inl split ↦ elim (Bool-cases (not noacct && not (cap_allows a need))) [
        | inl over ↦ rw (take_free, split, over) tt
        | inr ok ↦
            rw (take_free, split, ok)
              (handed a (write_link b link tail_off) need off need noacct
                (write_link-acct b link tail_off) (omega arith) small ok)
      ]
      | inr whole ↦ elim (Bool-cases (not noacct && not (cap_allows a h.size))) [
        | inl over ↦ rw (take_free, whole, over) tt
        | inr ok ↦
            rw (take_free, whole, ok)
              (handed a (write_link a link h.next) need off h.size noacct
                (write_link-acct a link h.next) enough lt ok)
      ]
    ]

first_fit-enough :
    (fuel : ℕ) (a : Arena) (need : ℕ) (from : Option ℕ) {link : Option ℕ}
    → first_fit fuel a need from ≡ some (some link)
    → need ≤ (a.hdrs (read_link a link)).size
unfolding first_fit
first_fit-enough zero a need from h = absurd (ground (arith, h))
first_fit-enough (suc fuel) a need from {link} h =
    let off = read_link a from in
    let rest = first_fit-enough fuel a need (some off) {link = link} in
    elim (Bool-cases (off == arena_none)) [
      | inl end ↦ absurd (ground (arith, h, end))
      | inr more ↦ elim (Bool-cases (leb need (a.hdrs off).size)) [
        | inl fits ↦
            let same : from ≡ link = ground (arith, h, more, fits) in
            subst (λ l. need ≤ (a.hdrs (read_link a l)).size) same (ground (arith, fits))
        | inr small ↦ rest (ground (arith, h, more, small))
      ]
    ]

need_of-lt : (n : ℕ) → need_of n < 2 ^ 32
unfolding need_of align_up
need_of-lt n = ground (arith)

pub ensure_ready-acct : (a : Arena) → (ensure_ready a).acct ≡ a.acct
unfolding ensure_ready
ensure_ready-acct a = elim (Bool-cases a.ready) [
  | inl e ↦ ground (arith, e)
  | inr e ↦ ground (arith, e)
]

ensure_ready-IsSized : (a : Arena) → IsSized a → IsSized (ensure_ready a)
unfolding ensure_ready
ensure_ready-IsSized a h o = elim (Bool-cases a.ready) [
  | inl e ↦ ground (arith, e, h o)
  | inr e ↦ ground (arith, e, h o)
]

pub malloc-Handed :
    (a : Arena) (n : ℕ) (noacct : Bool) {p : ℕ} {a' : Arena}
    → IsSized a
    → arena_malloc_core a n noacct ≡ some (some p, a')
    → Handed (ensure_ready a) (need_of n) noacct p a'
unfolding arena_malloc_core
malloc-Handed a n noacct {p} {a'} sized h =
    let a1 = ensure_ready a in
    let need = need_of n in
    let found = first_fit (fuel_of a1) a1 need none in
    let usable : (not a.has_base || (a.size == 0)) ≡ false =
      elim (Bool-cases (not a.has_base || (a.size == 0))) [
        | inl bad ↦ absurd (ground (arith, h, bad))
        | inr ok ↦ ok
      ] in
    elim (Option-cases found) [
      | inl lost ↦ absurd (ground (arith, h, lost, usable))
      | inr (none, fresh) ↦
          let same : take_bump a1 need noacct ≡ (some p, a') = ground (arith, h, fresh, usable) in
          subst (HandedIf a1 need noacct) same (take_bump-handed a1 need noacct (need_of-lt n))
      | inr (some link, fits) ↦
          let same : take_free a1 need noacct link ≡ (some p, a') =
            ground (arith, h, fits, usable) in
          subst (HandedIf a1 need noacct) same (
            take_free-handed a1 need noacct link (need_of-lt n) (ensure_ready-IsSized a sized)
              (first_fit-enough _ a1 need none {link = link} fits))
    ]
