-- ===== src/Shared/Arena/Budget.antt =====
-- What the allocator charges to the budget.
use blyt.Prelude.{
  ℕ, ◌+◌, ◌-◌, ◌^◌, ◌≤◌, ◌<◌, ◌≡◌, ap, ◌∙◌, sym, subst, Bool, true, false, Option, none, some,
  arith, Option-cases, inl, inr,
}
use blyt.Shared.MemBudget.{MemAccounting, mem_cart_heap, mem_alloc_fits, mem_budget_bytes}
use blyt.Shared.Arena.Handed.{charged, charged-true, IsSized, malloc-Handed, ensure_ready-acct}
use blyt.Shared.Arena.{
  Arena, Hdr, align_up, cap_allows, add_used, hdr_size, need_of, ensure_ready, arena_malloc_core,
  arena_malloc, arena_malloc_noacct,
}

-- The counters are 32-bit.
pub record IsAcct (acct : MemAccounting) : Type 0 where
  pub used_lt : acct.guest_heap_used < 2 ^ 32
  pub footprint_lt : acct.non_evictable_footprint < 2 ^ 32

abbrev pub IsAcct? : Option MemAccounting → Type 0
IsAcct? none = Unit
IsAcct? (some acct) = IsAcct acct

-- The accounting of the arena, if there is one, is within the budget.
abbrev pub WithinBudget : Option MemAccounting → Type 0
WithinBudget none = Unit
WithinBudget (some acct) = mem_cart_heap acct + acct.non_evictable_footprint ≤ mem_budget_bytes

add_used-fits :
    (acct : MemAccounting) (n : ℕ)
    → IsAcct acct
    → n < 2 ^ 32
    → mem_alloc_fits (mem_cart_heap acct) acct.non_evictable_footprint n ≡ true
    → mem_cart_heap (add_used n acct) + acct.non_evictable_footprint ≤ mem_budget_bytes
unfolding mem_cart_heap mem_alloc_fits
add_used-fits acct n ok small h = ground (arith, ok.used_lt, ok.footprint_lt, small, h)

charged-within :
    (a : Arena) (n : ℕ)
    → IsAcct? a.acct
    → n < 2 ^ 32
    → cap_allows a n ≡ true
    → WithinBudget (charged false n a.acct)
unfolding cap_allows
charged-within a n ok small h = elim (Option-cases a.acct) [
  | inl e ↦ subst (λ m. WithinBudget (charged false n m)) (sym e) tt
  | inr (acct, e) ↦
      let fine : IsAcct acct = subst IsAcct? e ok in
      subst (λ m. WithinBudget (charged false n m)) (sym e)
        (add_used-fits acct n fine small (rw (e) at h))
]

-- A charged allocation that succeeds leaves the heap and the footprint within the budget, if the
-- counters and the block sizes are 32-bit.
pub malloc-WithinBudget :
    (a : Arena) (n p : ℕ) (a' : Arena)
    → IsSized a
    → IsAcct? a.acct
    → arena_malloc a n ≡ some (some p, a')
    → WithinBudget a'.acct
unfolding arena_malloc
malloc-WithinBudget a n p a' sized ok h =
    let r = malloc-Handed a n false sized h in
    let ready = ensure_ready-acct a in
    let allowed : cap_allows (ensure_ready a) r.size ≡ true = ground (arith, r.allowed) in
    subst WithinBudget (sym r.acct_after)
      (charged-within (ensure_ready a) r.size (subst IsAcct? (sym ready) ok) r.size_lt allowed)

-- An uncharged allocation that succeeds leaves the accounting alone, if the block sizes are 32-bit.
malloc_noacct-acct :
    (a : Arena) (n p : ℕ) (a' : Arena)
    → IsSized a
    → arena_malloc_noacct a n ≡ some (some p, a')
    → a'.acct ≡ a.acct
unfolding arena_malloc_noacct
malloc_noacct-acct a n p a' sized h =
    let r = malloc-Handed a n true sized h in
    r.acct_after ∙ charged-true r.size _ ∙ ensure_ready-acct a

-- The block that an allocation of `n` bytes returns has room for them behind its header, if `n + 31`
-- and the block sizes fit 32 bits.
pub malloc-size :
    (a : Arena) (n p : ℕ) (a' : Arena) (noacct : Bool)
    → IsSized a
    → n + 31 < 2 ^ 32
    → arena_malloc_core a n noacct ≡ some (some p, a')
    → n + hdr_size ≤ (a'.hdrs (p - hdr_size)).size
unfolding need_of align_up
malloc-size a n p a' noacct sized small h =
    let r = malloc-Handed a n noacct sized h in
    let size : (a'.hdrs (p - hdr_size)).size ≡ r.size = ap (λ (t : Hdr). t.size) r.header in
    let enough = r.enough in ground (arith, size, enough, small)
