-- ===== src/Shared/Arena.antt =====
-- runtime/shared/blyt_arena.c: the allocator of the cart heap. A pointer is its offset from `base`,
-- NULL is none, and a `uint32_t` wraps. The block headers and the bytes of the blocks are kept apart:
-- whoever writes through a pointer stays within the block. A walk along the free list is on fuel,
-- and a result none means that it did not end.
pub mod Handed
pub mod Budget
pub mod Free
use blyt.Prelude.{
  ℕ, zero, suc, ◌+◌, ◌-◌, ◌*◌, ◌/◌, ◌%◌, ◌^◌, Bool, true, false, not, ◌&&◌, ◌||◌, Option, none,
  some, ltb, leb, ◌==◌, if◌then◌else◌, ◌>>=◌,
}
use blyt.Shared.MemBudget.{MemAccounting, mem_cart_heap, mem_alloc_fits}

abbrev pub arena_align : ℕ
arena_align = 16

abbrev pub hdr_size : ℕ
hdr_size = 16

abbrev pub arena_none : ℕ
arena_none = 0xffffffff

abbrev pub blk_noacct : ℕ
blk_noacct = 1

-- `blk_hdr_t`
pub record Hdr : Type 0 where
  pub size : ℕ
  pub free : ℕ
  pub next : ℕ
  pub pad : ℕ

-- `blyt_arena_t`, with the memory at `base`; `has_base` is whether `base` is set.
pub record Arena : Type 0 where
  pub has_base : Bool
  pub size : ℕ
  pub bump : ℕ
  pub free_head : ℕ
  pub ready : Bool
  pub acct : Option MemAccounting
  pub hdrs : ℕ → Hdr
  pub bytes : ℕ → ℕ

unfoldable pub put_hdr : Arena → ℕ → Hdr → Arena
put_hdr a off h = record a { hdrs = λ o. if o == off then h else a.hdrs o }

-- `& ~(al - 1)` rounds down to a multiple of `al`, a power of two.
unfoldable pub align_up : ℕ → ℕ → ℕ
align_up n al = (n + al - 1) % 2 ^ 32 / al * al

unfoldable pub cap_allows : Arena → ℕ → Bool
cap_allows a consumed = elim a.acct [
  | none ↦ true
  | some acct ↦ mem_alloc_fits (mem_cart_heap acct) acct.non_evictable_footprint consumed
]

abbrev pub add_used : ℕ → MemAccounting → MemAccounting
add_used n acct = record acct { guest_heap_used = (acct.guest_heap_used + n) % 2 ^ 32 }

abbrev pub sub_used : ℕ → MemAccounting → MemAccounting
sub_used n acct = record acct { guest_heap_used = (acct.guest_heap_used + 2 ^ 32 - n) % 2 ^ 32 }

unfoldable pub acct_add : Arena → ℕ → Arena
acct_add a n = elim a.acct [ none ↦ a | some acct ↦ record a { acct = some (add_used n acct) } ]

unfoldable pub acct_sub : Arena → ℕ → Arena
acct_sub a n = elim a.acct [ none ↦ a | some acct ↦ record a { acct = some (sub_used n acct) } ]

-- A `uint32_t *prev`: none is `&a->free_head`, and `some o` the `next` of the block at `o`.
unfoldable pub read_link : Arena → Option ℕ → ℕ
read_link a none = a.free_head
read_link a (some o) = (a.hdrs o).next

unfoldable pub write_link : Arena → Option ℕ → ℕ → Arena
write_link a none v = record a { free_head = v }
write_link a (some o) v = put_hdr a o (record (a.hdrs o) { next = v })

unfoldable pub fl_remove : ℕ → Arena → Option ℕ → ℕ → Option Arena
fl_remove zero a link target = none
fl_remove (suc fuel) a link target =
    let off = read_link a link in
    let rest = fl_remove fuel a (some off) target in
    if off == arena_none
    then some a
    else if off == target
    then (let a' = write_link a link (a.hdrs target).next in
        some (put_hdr a' target (record (a'.hdrs target) { free = 0; next = arena_none })))
    else rest

-- Every block has 16 bytes at least, so no list of them is longer than the arena.
abbrev pub fuel_of : Arena → ℕ
fuel_of a = a.size + 1

unfoldable pub coalesce_forward : Arena → ℕ → Option Arena
coalesce_forward a off =
    let next_off = (off + (a.hdrs off).size) % 2 ^ 32 in
    if leb a.bump next_off then some a else if (a.hdrs next_off).free == 0 then some a else (do
      a' ← fl_remove (fuel_of a) a none next_off
      some (
          put_hdr a' off (record (a'.hdrs off) {
            size = ((a'.hdrs off).size + (a'.hdrs next_off).size) % 2 ^ 32;
          })))

unfoldable pub ensure_ready : Arena → Arena
ensure_ready a = if a.ready then a else record a { bump = 0; free_head = arena_none; ready = true }

-- The first block of the free list that is large enough, by the link that leads to it.
unfoldable pub first_fit : ℕ → Arena → ℕ → Option ℕ → Option (Option (Option ℕ))
first_fit zero a need link = none
first_fit (suc fuel) a need link =
    let off = read_link a link in
    let rest = first_fit fuel a need (some off) in
    if off == arena_none
    then some none
    else if leb need (a.hdrs off).size
    then some (some link)
    else rest

-- The header of a block that is handed out.
abbrev pub used_hdr : ℕ → Bool → Hdr
used_hdr size noacct = record {
  size = size;
  free = 0;
  next = arena_none;
  pad = if noacct then blk_noacct else 0;
}

unfoldable pub charge : Bool → Arena → ℕ → Arena
charge noacct a n = if noacct then a else acct_add a n

-- The block that `link` leads to is taken, split if the rest can be a block.
unfoldable pub take_free : Arena → ℕ → Bool → Option ℕ → Option ℕ × Arena
take_free a need noacct link =
    let off = read_link a link in
    let h = a.hdrs off in
    let rem = h.size - need in
    let split = leb (hdr_size + arena_align) rem in
    let consumed = if split then need else h.size in
    if not noacct && not (cap_allows a consumed)
    then (none, a)
    else let tail_off = (off + need) % 2 ^ 32 in
      let a1 =
        if split
        then write_link
            (put_hdr a tail_off (record { size = rem; free = 1; next = h.next; pad = 0 })) link
            tail_off
        else write_link a link h.next in
      (some (off + hdr_size), charge noacct (put_hdr a1 off (used_hdr consumed noacct)) consumed)

-- A block at the end.
unfoldable pub take_bump : Arena → ℕ → Bool → Option ℕ × Arena
take_bump a need noacct =
    if ltb a.size (a.bump + need)
    then (none, a)
    else if not noacct && not (cap_allows a need)
    then (none, a)
    else (
      some (a.bump + hdr_size),
      charge noacct
          (record (put_hdr a a.bump (used_hdr need noacct)) { bump = (a.bump + need) % 2 ^ 32 })
          need,
    )

unfoldable pub need_of : ℕ → ℕ
need_of n = align_up (((if n == 0 then 1 else n) + hdr_size) % 2 ^ 32) arena_align

unfoldable pub arena_malloc_core : Arena → ℕ → Bool → Option (Option ℕ × Arena)
arena_malloc_core a n noacct =
    if not a.has_base || (a.size == 0)
    then some (none, a)
    else let a1 = ensure_ready a in
      elim (first_fit (fuel_of a1) a1 (need_of n) none) [
        | none ↦ none
        | some none ↦ some (take_bump a1 (need_of n) noacct)
        | some (some link) ↦ some (take_free a1 (need_of n) noacct link)
      ]

unfoldable pub arena_malloc : Arena → ℕ → Option (Option ℕ × Arena)
arena_malloc a n = arena_malloc_core a n false

unfoldable pub arena_malloc_noacct : Arena → ℕ → Option (Option ℕ × Arena)
arena_malloc_noacct a n = arena_malloc_core a n true

unfoldable pub arena_free : Arena → Option ℕ → Option Arena
arena_free a none = some a
arena_free a (some p) =
    let off = p - hdr_size in
    let h = a.hdrs off in
    if not (h.free == 0)
    then some a
    else let a1 = if h.pad == blk_noacct then a else acct_sub a h.size in
      let a2 = put_hdr a1 off (record h { free = 1; next = a1.free_head }) in
      coalesce_forward (record a2 { free_head = off }) off

-- `memcpy(q, p, n)` and `memset(p, 0, n)`
unfoldable pub copy_bytes : Arena → ℕ → ℕ → ℕ → Arena
copy_bytes a q p n = record a {
  bytes = λ o. if leb q o && ltb o (q + n) then a.bytes (p + (o - q)) else a.bytes o;
}

unfoldable pub zero_bytes : Arena → ℕ → ℕ → Arena
zero_bytes a p n = record a { bytes = λ o. if leb p o && ltb o (p + n) then 0 else a.bytes o }

-- The pointer is not NULL and `n` not 0, and the block is too small; `cap` is the room that it has.
unfoldable pub move_block : Arena → ℕ → ℕ → ℕ → Bool → Option (Option ℕ × Arena)
move_block a p cap n noacct = elim (arena_malloc_core a n noacct) [
  | none ↦ none
  | some (none, a1) ↦ some (none, a1)
  | some (some q, a1) ↦ elim (arena_free (copy_bytes a1 q p cap) (some p)) [
    | none ↦ none
    | some a2 ↦ some (some q, a2)
  ]
]

unfoldable pub arena_realloc_core : Arena → Option ℕ → ℕ → Bool → Option (Option ℕ × Arena)
arena_realloc_core a none n noacct = arena_malloc_core a n noacct
arena_realloc_core a (some p) n noacct =
    if n == 0
    then (do a' ← arena_free a (some p); some (none, a'))
    else let cap = ((a.hdrs (p - hdr_size)).size + 2 ^ 32 - hdr_size) % 2 ^ 32 in
      if leb n cap then some (some p, a) else move_block a p cap n noacct

unfoldable pub arena_realloc : Arena → Option ℕ → ℕ → Option (Option ℕ × Arena)
arena_realloc a p n = arena_realloc_core a p n false

unfoldable pub arena_realloc_noacct : Arena → Option ℕ → ℕ → Option (Option ℕ × Arena)
arena_realloc_noacct a p n = arena_realloc_core a p n true

-- `w` is the width of `size_t`: 64 on the host, 32 in the guest.
unfoldable pub arena_calloc : ℕ → Arena → ℕ → ℕ → Option (Option ℕ × Arena)
arena_calloc w a nmemb sz =
    if not (sz == 0) && ltb ((2 ^ w - 1) / sz) nmemb
    then some (none, a)
    else elim (arena_malloc a (nmemb * sz % 2 ^ w)) [
      | none ↦ none
      | some (none, a') ↦ some (none, a')
      | some (some p, a') ↦ some (some p, zero_bytes a' p (nmemb * sz % 2 ^ w))
    ]

unfoldable pub arena_reset : Arena → Arena
arena_reset a =
    let a1 = record a { bump = 0; free_head = arena_none; ready = false } in
    elim a1.acct [
      | none ↦ a1
      | some acct ↦ record a1 { acct = some (record acct { guest_heap_used = 0 }) }
    ]
