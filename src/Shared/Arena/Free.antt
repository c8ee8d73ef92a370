-- ===== src/Shared/Arena/Free.antt =====
-- A block that is given back takes its charge off the budget again.
use blyt.Prelude.{
  ℕ, zero, suc, ◌+◌, ◌-◌, ◌%◌, ◌^◌, ◌<◌, ◌≡◌, refl, ap, ◌∙◌, sym, subst, Bool, true, false, Option,
  none, some, arith, leb, ◌==◌, if◌then◌else◌, Option-cases, Bool-cases, inl, inr,
}
use blyt.Shared.MemBudget.{MemAccounting}
use blyt.Shared.Arena.Handed.{charged, IsSized, malloc-Handed, ensure_ready-acct, write_link-acct}
use blyt.Shared.Arena.Budget.{IsAcct?}
use blyt.Shared.Arena.{
  Arena, Hdr, put_hdr, read_link, acct_sub, sub_used, used_hdr, hdr_size, arena_malloc_core,
  arena_free, coalesce_forward, fl_remove, fuel_of, arena_none, blk_noacct,
}

fl_remove-acct :
    (fuel : ℕ) (a : Arena) (link : Option ℕ) (target : ℕ) {a' : Arena}
    → fl_remove fuel a link target ≡ some a'
    → a'.acct ≡ a.acct
unfolding fl_remove put_hdr
fl_remove-acct zero a link target h = absurd (ground (arith, h))
fl_remove-acct (suc fuel) a link target {a'} h =
    let off = read_link a link in
    let rest = fl_remove-acct fuel a (some off) target {a' = a'} in
    elim (Bool-cases (off == arena_none)) [
      | inl end ↦ ground (arith, h, end)
      | inr more ↦ elim (Bool-cases (off == target)) [
        | inl hit ↦ ground (arith, h, more, hit, write_link-acct a link (a.hdrs target).next)
        | inr other ↦ rest (ground (arith, h, more, other))
      ]
    ]

coalesce_forward-acct :
    (a : Arena) (off : ℕ) {a' : Arena} → coalesce_forward a off ≡ some a' → a'.acct ≡ a.acct
unfolding coalesce_forward put_hdr
coalesce_forward-acct a off {a'} h =
    let next_off = (off + (a.hdrs off).size) % 2 ^ 32 in
    elim (Bool-cases (leb a.bump next_off)) [
      | inl end ↦ ground (arith, h, end)
      | inr more ↦ elim (Bool-cases ((a.hdrs next_off).free == 0)) [
        | inl used ↦ ground (arith, h, more, used)
        | inr free_ ↦ elim (Option-cases (fl_remove (fuel_of a) a none next_off)) [
          | inl lost ↦ absurd (ground (arith, h, more, free_, lost))
          | inr (b, e) ↦
              ground (arith, h, more, free_, e, fl_remove-acct (fuel_of a) a none next_off e)
        ]
      ]
    ]

-- The accounting after the charge for a block is taken off.
abbrev discharged : Bool → ℕ → Option MemAccounting → Option MemAccounting
discharged noacct n none = none
discharged noacct n (some acct) = if noacct then some acct else some (sub_used n acct)

discharged-charged :
    (noacct : Bool) (n : ℕ) (m : Option MemAccounting)
    → IsAcct? m
    → n < 2 ^ 32
    → discharged noacct n (charged noacct n m) ≡ m
discharged-charged true n none ok small = refl
discharged-charged false n none ok small = refl
discharged-charged true n (some acct) ok small = refl
discharged-charged false n (some acct) ok small =
    let used = ok.used_lt in
    let same : ((acct.guest_heap_used + n) % 2 ^ 32 + 2 ^ 32 - n) % 2 ^ 32 ≡ acct.guest_heap_used =
      omega (arith, used, small) in
    λ i. some (record acct { guest_heap_used = same i })

acct_sub-acct : (a : Arena) (n : ℕ) → (acct_sub a n).acct ≡ discharged false n a.acct
unfolding acct_sub
acct_sub-acct a n = elim (Option-cases a.acct) [
  | inl e ↦ ground (arith, e)
  | inr (acct, e) ↦ ground (arith, e)
]

discharged-true : (n : ℕ) (m : Option MemAccounting) → m ≡ discharged true n m
discharged-true n none = refl
discharged-true n (some acct) = refl

-- The step of `blyt_arena_free` that takes the charge off.
uncharge-acct :
    (a : Arena) (size : ℕ) (noacct : Bool) (h : Hdr)
    → h ≡ used_hdr size noacct
    → (if h.pad == blk_noacct then a else acct_sub a h.size).acct ≡ discharged noacct size a.acct
uncharge-acct a size true h e =
    let pad : h.pad ≡ 1 = ap (λ (t : Hdr). t.pad) e in rw (pad) (discharged-true size a.acct)
uncharge-acct a size false h e =
    let pad : h.pad ≡ 0 = ap (λ (t : Hdr). t.pad) e in
    let same : h.size ≡ size = ap (λ (t : Hdr). t.size) e in
    rw (pad) (acct_sub-acct a h.size ∙ ap (λ n. discharged false n a.acct) same)

free-acct :
    (a : Arena) (p size : ℕ) (noacct : Bool) {a' : Arena}
    → a.hdrs (p - hdr_size) ≡ used_hdr size noacct
    → arena_free a (some p) ≡ some a'
    → a'.acct ≡ discharged noacct size a.acct
unfolding arena_free put_hdr acct_sub
free-acct a p size noacct {a'} hdr h =
    let off = p - hdr_size in
    let old = a.hdrs off in
    let a1 = if old.pad == blk_noacct then a else acct_sub a old.size in
    let a2 = record (put_hdr a1 off (record old { free = 1; next = a1.free_head })) {
      free_head = off;
    } in
    let used : (old.free == 0) ≡ true = ground (arith, ap (λ (t : Hdr). t.free) hdr) in
    let merged : coalesce_forward a2 off ≡ some a' = (rw (arena_free, used) at h) in
    coalesce_forward-acct a2 off merged ∙ uncharge-acct a size noacct old hdr

-- Allocating a block, charged or not, and giving it back leaves the accounting as it was, if the
-- counters and the block sizes are 32-bit.
pub free-malloc :
    (a : Arena) (n p : ℕ) (noacct : Bool) (a' a'' : Arena)
    → IsSized a
    → IsAcct? a.acct
    → arena_malloc_core a n noacct ≡ some (some p, a')
    → arena_free a' (some p) ≡ some a''
    → a''.acct ≡ a.acct
free-malloc a n p noacct a' a'' sized ok h k =
    let r = malloc-Handed a n noacct sized h in
    let fine = subst IsAcct? (sym (ensure_ready-acct a)) ok in
    free-acct a' p r.size noacct r.header k
    ∙ ap (discharged noacct r.size) r.acct_after
    ∙ discharged-charged noacct r.size _ fine r.size_lt
    ∙ ensure_ready-acct a
