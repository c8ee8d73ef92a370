-- ===== src/Shared/MemBudget.antt =====
-- runtime/shared/blyt_mem_budget.h: the 16 MB budget of heap and resources together.
use blyt.Prelude.{
  ℕ, ◌+◌, ◌-◌, ◌*◌, ◌%◌, ◌^◌, ◌≤◌, ◌<◌, ◌≡◌, ◌↔◌, Bool, true, arith, ltb, leb, if◌then◌else◌,
}

abbrev pub mem_budget_bytes : ℕ
mem_budget_bytes = 16 * 1024 * 1024

-- `blyt_mem_accounting_t`, four `uint32_t` counters.
pub record MemAccounting : Type 0 where
  pub guest_heap_used : ℕ
  pub non_evictable_footprint : ℕ
  pub resource_cache_used : ℕ
  pub guest_heap_baseline : ℕ

unfoldable pub mem_cart_heap : MemAccounting → ℕ
mem_cart_heap a =
    if ltb a.guest_heap_baseline a.guest_heap_used
    then a.guest_heap_used - a.guest_heap_baseline
    else 0

-- The sum of three `uint32_t` in 64 bits.
unfoldable pub mem_alloc_fits : ℕ → ℕ → ℕ → Bool
mem_alloc_fits guest_heap_used non_evictable_footprint incoming =
    leb ((guest_heap_used + non_evictable_footprint + incoming) % 2 ^ 64) mem_budget_bytes

unfoldable pub mem_cache_room : ℕ → ℕ → ℕ
mem_cache_room guest_heap_used non_evictable_footprint =
    let used = (guest_heap_used + non_evictable_footprint) % 2 ^ 64 in
    if leb mem_budget_bytes used then 0 else (mem_budget_bytes - used) % 2 ^ 32

-- With `uint32_t` arguments the test never wraps: it passes exactly if the true sum is within the
-- budget, and, for a non-empty request, exactly if the request fits what is left beside the heap
-- and the footprint, which is the room of the evictable cache.
pub alloc_fits-cache_room :
    (heap footprint incoming : ℕ)
    → heap < 2 ^ 32
    → footprint < 2 ^ 32
    → incoming < 2 ^ 32
    → 0 < incoming
    → ((mem_alloc_fits heap footprint incoming ≡ true)
        ↔ (heap + footprint + incoming ≤ mem_budget_bytes))
      × ((mem_alloc_fits heap footprint incoming ≡ true)
          ↔ (incoming ≤ mem_cache_room heap footprint))
unfolding mem_alloc_fits mem_cache_room
alloc_fits-cache_room heap footprint incoming h f i p =
    ((λ e. ground arith, λ e. ground arith), (λ e. ground arith, λ e. ground arith))
