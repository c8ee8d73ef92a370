-- ===== src/Shared/Tests.antt =====
-- Runs of the theorems on the shared code.
use blyt.Prelude.{
  ℕ, ◌+◌, ◌-◌, ◌%◌, ◌^◌, ◌≤◌, ◌<◌, ◌≡◌, refl, ◌↔◌, true, false, Option, none, some, List, [], ◌∷◌,
  ◌++◌, length, All, arith, replicate,
}
use blyt.Prelude.Bytes.{le_value}
use blyt.Shared.Handle.{
  handle_is_resource, handle_is_surface, handle_is_lockview, surface_encode, lockview_encode,
  dyn_decode_gen, dyn_decode_index, dynamic-roundtrip,
}
use blyt.Shared.MemBudget.{
  MemAccounting, mem_budget_bytes, mem_alloc_fits, mem_cache_room, mem_cart_heap,
  alloc_fits-cache_room,
}
use blyt.Shared.ResourceLifecycle.{RlState}
use blyt.Shared.ElfSection.{
  elf32_parse_u32, elf32_find_section, elf32_for_each_section_prefix, resolve_sht, strtab_of,
  find_loop, has_name, name_matches, sh_name, sh_offset, sh_size,
}
use blyt.Shared.ElfSection.Decimal.{IsDigit, digits_value, parse_u32_iff}
use blyt.Shared.ElfSection.Bounds.{find_section-bounds, for_each-bounds}
use blyt.Shared.Arena.{
  Arena, arena_malloc, arena_malloc_noacct, arena_malloc_core, arena_free, hdr_size, first_fit,
  read_link, ensure_ready, take_bump, need_of, align_up, cap_allows, put_hdr, charge, acct_add,
  acct_sub, coalesce_forward,
}
use blyt.Shared.Arena.Handed.{IsSized}
use blyt.Shared.Arena.Budget.{IsAcct, WithinBudget, malloc-WithinBudget, malloc-size}
use blyt.Shared.Arena.Free.{free-malloc}

dynamic-roundtrip_example :
    (dyn_decode_gen (surface_encode 5 9) ≡ 5 % 2 ^ 17)
    × (dyn_decode_index (surface_encode 5 9) ≡ 9 % 2 ^ 12)
    × (dyn_decode_gen (lockview_encode 5 9) ≡ 5 % 2 ^ 17)
    × (dyn_decode_index (lockview_encode 5 9) ≡ 9 % 2 ^ 12)
    × (handle_is_surface (surface_encode 5 9) ≡ true)
    × (handle_is_lockview (surface_encode 5 9) ≡ false)
    × (handle_is_resource (surface_encode 5 9) ≡ false)
    × (handle_is_lockview (lockview_encode 5 9) ≡ true)
    × (handle_is_surface (lockview_encode 5 9) ≡ false)
    × (handle_is_resource (lockview_encode 5 9) ≡ false)
dynamic-roundtrip_example = dynamic-roundtrip 5 9

alloc_fits-cache_room_example :
    ((mem_alloc_fits 1000 2000 32 ≡ true) ↔ (1000 + 2000 + 32 ≤ mem_budget_bytes))
    × ((mem_alloc_fits 1000 2000 32 ≡ true) ↔ (32 ≤ mem_cache_room 1000 2000))
alloc_fits-cache_room_example =
    alloc_fits-cache_room 1000 2000 32 (omega arith) (omega arith) (omega arith) (omega arith)

abbrev pinned_once : RlState
pinned_once = record { pin_count = 1 }

abbrev digits : List ℕ
digits = b'4' ∷ b'2' ∷ []

parse_u32_iff_example : (elf32_parse_u32 digits ≡ some 42) ↔ (
    (0 < length digits)
    × All IsDigit digits
    × (digits_value 0 digits ≡ 42)
    × (0 < 42)
    × (42 < 2 ^ 32))
parse_u32_iff_example = parse_u32_iff digits 42

-- An image of two sections: the string table, at 132 with 4 bytes, and "a", at 0 with 52 bytes. The
-- header stands at 0 and the section headers at 52.
abbrev image : List ℕ
image =
    replicate 32 0
    ++ (52 ∷ 0 ∷ 0 ∷ 0 ∷ [])
    ++ (replicate 12 0 ++ (2 ∷ 0 ∷ 0 ∷ 0 ∷ []))
    ++ (replicate 16 0 ++ (132 ∷ 0 ∷ 0 ∷ 0 ∷ 4 ∷ 0 ∷ 0 ∷ 0 ∷ []) ++ replicate 16 0)
    ++ ((1 ∷ 0 ∷ 0 ∷ 0 ∷ [])
        ++ replicate 12 0
        ++ (0 ∷ 0 ∷ 0 ∷ 0 ∷ 52 ∷ 0 ∷ 0 ∷ 0 ∷ [])
        ++ replicate 16 0)
    ++ (0 ∷ b'a' ∷ 0 ∷ 0 ∷ [])

image-found : elf32_find_section image (b'a' ∷ []) ≡ some (0, 52)
unfolding elf32_find_section resolve_sht strtab_of find_loop has_name name_matches sh_name sh_offset
    sh_size le_value
image-found = refl

find_section-bounds_example : 0 + 52 ≤ length image
find_section-bounds_example = find_section-bounds image (b'a' ∷ []) 0 52 image-found

-- The greatest end of a section that was handed out.
abbrev last_end : ℕ → List ℕ → ℕ → ℕ → ℕ
last_end c suffix off size = off + size

for_each-bounds_example :
    (elf32_for_each_section_prefix image last_end (b'a' ∷ []) 0).1 ≤ length image
for_each-bounds_example =
    for_each-bounds image last_end (λ c. c ≤ length image) (b'a' ∷ []) 0
      (λ c suffix off size inside h. inside) (omega arith)

-- An arena of 4096 bytes with nothing allocated.
abbrev counters : MemAccounting
counters = record {
  guest_heap_used = 100;
  non_evictable_footprint = 50;
  resource_cache_used = 0;
  guest_heap_baseline = 10;
}

abbrev arena : Arena
arena = record {
  has_base = true;
  size = 4096;
  bump = 0;
  free_head = 0xffffffff;
  ready = true;
  acct = some counters;
  hdrs = λ o. record { size = 0; free = 0; next = 0; pad = 0 };
  bytes = λ o. 0;
}

abbrev or_arena : Option (Option ℕ × Arena) → Arena
or_arena none = arena
or_arena (some r) = r.1

abbrev or_freed : Option Arena → Arena
or_freed none = arena
or_freed (some a) = a

abbrev after : Arena
after = or_arena (arena_malloc_core arena 20 false)

arena-malloc : arena_malloc_core arena 20 false ≡ some (some 16, after)
unfolding arena_malloc_core first_fit read_link ensure_ready take_bump need_of align_up cap_allows
    mem_cart_heap mem_alloc_fits
arena-malloc = refl

arena-free : arena_free after (some 16) ≡ some (or_freed (arena_free after (some 16)))
unfolding arena_free arena_malloc_core first_fit read_link ensure_ready take_bump need_of align_up
    cap_allows mem_cart_heap mem_alloc_fits put_hdr charge acct_add acct_sub coalesce_forward
arena-free = refl

arena-IsSized : IsSized arena
arena-IsSized o = omega arith

counters-IsAcct : IsAcct counters
counters-IsAcct = record { used_lt = omega arith; footprint_lt = omega arith }

malloc-WithinBudget_example : WithinBudget after.acct
malloc-WithinBudget_example =
    malloc-WithinBudget arena 20 16 after arena-IsSized counters-IsAcct
      (unfold arena_malloc in arena-malloc)

arena-malloc_noacct :
    arena_malloc_noacct arena 20 ≡ some (some 16, or_arena (arena_malloc_noacct arena 20))
unfolding arena_malloc_noacct arena_malloc_core first_fit read_link ensure_ready take_bump need_of
    align_up
arena-malloc_noacct = refl

malloc-size_example : 20 + hdr_size ≤ (after.hdrs (16 - hdr_size)).size
malloc-size_example = malloc-size arena 20 16 after false arena-IsSized (omega arith) arena-malloc

free-malloc_example : (or_freed (arena_free after (some 16))).acct ≡ some counters
free-malloc_example =
    free-malloc arena 20 16 false after (or_freed (arena_free after (some 16))) arena-IsSized
      counters-IsAcct arena-malloc arena-free
