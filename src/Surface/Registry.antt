-- ===== src/Surface/Registry.antt =====
-- The surface registry of runtime/host/src/libblyt/cart_run.c.
use blyt.Prelude.{
  ℕ, zero, suc, ◌+◌, ◌-◌, ◌*◌, ◌%◌, ◌^◌, Bool, true, false, ◌&&◌, ◌||◌, not, Option, none, some,
  List, ◌∷◌, ltb, leb, ◌==◌, if◌then◌else◌, ◌>>=◌, get_elem?, set, replicate,
}
use blyt.Prelude.Bytes.{le_bytes, le_value}
use blyt.Shared.Handle.{
  surface_encode, dyn_decode_index, dyn_decode_gen, handle_is_surface, handle_is_lockview,
  kind_none,
}
use blyt.Shared.MemBudget.{mem_alloc_fits, mem_cache_room}
use blyt.Resource.{Table, table_footprint, table_evict_to_fit, table_resident_decompressed}
use blyt.Raster.{Buffer, null, pixels}

-- The emulator's guest memory, which is not part of this repository.
pub record Guest (Mem : Type 0) : Type 0 where
  pub memory_read : Mem → ℕ → ℕ → List ℕ
  pub memory_write : Mem → ℕ → List ℕ → Mem

abbrev pub surface_max : ℕ
surface_max = 64

abbrev pub surface_max_dim : ℕ
surface_max_dim = 8192

abbrev pub lock_arena_base : ℕ
lock_arena_base = 0x0200_0000

abbrev pub lock_arena_size : ℕ
lock_arena_size = 0x0200_0000

-- `blyt_surface_slot_t`. The `int32_t` dimensions are never negative: only `create_slot` sets them,
-- after its check, and the screen has constant ones.
pub record Slot : Type 0 where
  pub buffer : Buffer
  pub w : ℕ
  pub h : ℕ
  pub gen : ℕ
  pub in_use : Bool
  pub is_screen : Bool
  pub owned : Bool
  pub locked : Bool
  pub lock_phantom : Bool
  pub lock_direct : Bool
  pub lock_gen : ℕ
  pub lock_vaddr : ℕ
  pub lock_len : ℕ

-- `blyt_surface_registry_t`
pub record Registry : Type 0 where
  pub slots : List Slot
  pub surface_bytes : ℕ
  pub lock_bump : ℕ
  pub active_locks : ℕ

abbrev pub frame_w : ℕ
frame_w = 320

abbrev pub frame_h : ℕ
frame_h = 240

-- A slot of zeros, as `memset` leaves it, and the screen in slot 0 of a new session.
abbrev pub zero_slot : Slot
zero_slot = record {
  buffer = null;
  w = 0;
  h = 0;
  gen = 0;
  in_use = false;
  is_screen = false;
  owned = false;
  locked = false;
  lock_phantom = false;
  lock_direct = false;
  lock_gen = 0;
  lock_vaddr = 0;
  lock_len = 0;
}

unfoldable pub registry_init : List ℕ → Registry
registry_init frame = record {
  slots =
      (record zero_slot {
        buffer = pixels frame;
        w = frame_w;
        h = frame_h;
        in_use = true;
        is_screen = true;
      })
      ∷ replicate 63 zero_slot;
  surface_bytes = 0;
  lock_bump = 0;
  active_locks = 0;
}

abbrev pub put_slot : Registry → ℕ → Slot → Registry
put_slot reg i s = record reg { slots = set reg.slots i s }

abbrev pub has_buffer : Buffer → Bool
has_buffer null = false
has_buffer (pixels p) = true

-- `(uint32_t)w * (uint32_t)h`
abbrev pub slot_bytes : Slot → ℕ
slot_bytes s = (s.w * s.h) % 2 ^ 32

-- `blyt_resolve_surface`: the position and the slot.
unfoldable pub resolve_surface : Registry → ℕ → Option (ℕ × Slot)
resolve_surface reg handle =
    if not (handle_is_surface handle)
    then none
    else let idx = dyn_decode_index handle in
      if leb surface_max idx
      then none
      else get_elem? reg.slots idx >>= λ s.
          if not s.in_use || not (dyn_decode_gen handle % 2 ^ 16 == s.gen)
          then none
          else some (idx, s)

-- `blyt_resolve_lockview`
unfoldable pub resolve_lockview : Registry → ℕ → Option (ℕ × Slot)
resolve_lockview reg token =
    if not (handle_is_lockview token)
    then none
    else let idx = dyn_decode_index token in
      if leb surface_max idx
      then none
      else get_elem? reg.slots idx >>= λ s.
          if not s.locked || not (dyn_decode_gen token % 2 ^ 16 == s.lock_gen)
          then none
          else some (idx, s)

-- The slot that `blyt_surface_free_slot` leaves.
abbrev pub freed_slot : Slot → Slot
freed_slot s = record s { buffer = null; in_use = false; owned = false; gen = (s.gen + 1) % 2 ^ 16 }

-- `blyt_surface_free_slot` on the slot at position `i`.
unfoldable pub surface_free_slot : Registry → ℕ → Slot → Registry
surface_free_slot reg i s = if not s.in_use || s.is_screen then reg else record reg {
  slots = set reg.slots i (freed_slot s);
  surface_bytes =
      if s.owned && has_buffer s.buffer
      then (reg.surface_bytes + 2 ^ 32 - slot_bytes s) % 2 ^ 32
      else reg.surface_bytes;
}

-- The first free slot from position `i` on.
unfoldable pub free_slot_from : List Slot → ℕ → ℕ → Option (ℕ × Slot)
free_slot_from slots i zero = none
free_slot_from slots i (suc n) =
    let rest = free_slot_from slots (i + 1) n in
    elim (get_elem? slots i) [ none ↦ none | some s ↦ if not s.in_use then some (i, s) else rest ]

-- What `blyt_run_ctx_t` has for the surfaces and the budget; `phase` is the lifecycle phase, and
-- `cart_has_drawn` a pointer that may be null.
pub record RunCtx : Type 0 where
  pub surfaces : Registry
  pub resources : Table
  pub peer_heap : ℕ
  pub mem_acct_vaddr : ℕ
  pub phase : ℕ
  pub cart_is_debug : Bool
  pub dev_fault : Bool
  pub cart_has_drawn : Option Bool

unfoldable pub ctx_non_evictable_footprint : RunCtx → ℕ
ctx_non_evictable_footprint ctx =
    (table_footprint ctx.resources + ctx.surfaces.surface_bytes + ctx.peer_heap) % 2 ^ 32

-- The eviction ends within its fuel (`Resource.Fit.evict_to_fit_lem`).
abbrev pub evicted : Table → Option (ℕ × Table) → Table
evicted t none = t
evicted t (some (freed, t')) = t'

-- The slot that `blyt_surface_create_slot` fills, and the registry with it; the generation stays.
abbrev pub fresh_slot : Slot → ℕ → ℕ → Slot
fresh_slot s w h = record s {
  buffer = pixels (replicate ((w * h) % 2 ^ 32) 0);
  w = w;
  h = h;
  in_use = true;
  is_screen = false;
  owned = true;
}

abbrev pub with_surface : Registry → ℕ → Slot → ℕ → ℕ → Registry
with_surface reg idx s w h = record reg {
  slots = set reg.slots idx (fresh_slot s w h);
  surface_bytes = (reg.surface_bytes + (w * h) % 2 ^ 32) % 2 ^ 32;
}

-- The sizes that are refused, as `uint32_t` readings of the `int32_t` arguments.
abbrev pub bad_size : ℕ → ℕ → Bool
bad_size w h =
    w == 0
    || leb (2 ^ 31) w
    || h == 0
    || leb (2 ^ 31) h
    || ltb surface_max_dim w
    || ltb surface_max_dim h

module _ {Mem : Type 0} (guest : Guest Mem) where
  unfoldable pub mem_acct_guest_heap_used : RunCtx → Mem → ℕ
  mem_acct_guest_heap_used ctx mem =
      if ctx.mem_acct_vaddr == 0 then 0 else le_value (guest.memory_read mem ctx.mem_acct_vaddr 4)

  unfoldable pub mem_acct_publish_footprint : RunCtx → Mem → RunCtx × Mem
  mem_acct_publish_footprint ctx mem =
      if ctx.mem_acct_vaddr == 0
      then (ctx, mem)
      else let footprint = ctx_non_evictable_footprint ctx in
        let mem1 =
          guest.memory_write mem ((ctx.mem_acct_vaddr + 4) % 2 ^ 32) (le_bytes 4 footprint) in
        let heap_used = mem_acct_guest_heap_used ctx mem1 in
        let t =
          evicted ctx.resources
            (table_evict_to_fit ctx.resources (mem_cache_room heap_used footprint)) in
        (
          record ctx { resources = t },
          guest.memory_write mem1 ((ctx.mem_acct_vaddr + 8) % 2 ^ 32)
              (le_bytes 4 (table_resident_decompressed t)),
        )

  -- `blyt_surface_create_slot` on `uint32_t` readings of the `int32_t` sizes; the flag says whether
  -- `calloc` succeeds.
  unfoldable pub surface_create_slot : Bool → RunCtx → Mem → ℕ → ℕ → ℕ × (RunCtx × Mem)
  surface_create_slot calloc_ok ctx mem w h =
      let reg = ctx.surfaces in
      let refused : ℕ × (RunCtx × Mem) = (kind_none, (ctx, mem)) in
      if bad_size w h
      then refused
      else let bytes = (w * h) % 2 ^ 32 in
        if not (
          mem_alloc_fits (mem_acct_guest_heap_used ctx mem) (ctx_non_evictable_footprint ctx) bytes)
        then refused
        else elim (free_slot_from reg.slots 1 (surface_max - 1)) [
          | none ↦ refused
          | some (idx, s) ↦ if not calloc_ok then refused else (
            surface_encode s.gen idx,
            mem_acct_publish_footprint (record ctx { surfaces = with_surface reg idx s w h }) mem,
          )
        ]
