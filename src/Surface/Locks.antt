-- ===== src/Surface/Locks.antt =====
-- The locks on surfaces of runtime/host/src/libblyt/cart_run.c, and the end of a frame.
use blyt.Prelude.{
  ℕ, zero, suc, ◌+◌, ◌-◌, ◌%◌, ◌^◌, Bool, true, false, ◌&&◌, not, Option, none, some, List, [],
  ◌++◌, ltb, ◌==◌, if◌then◌else◌, get_elem?, set, replicate, take, min,
}
use blyt.Prelude.Bytes.{le_bytes, write_at}
use blyt.Shared.Handle.{lockview_encode, dyn_decode_index}
use blyt.Raster.{Buffer, null, pixels}
use blyt.Surface.Registry.{
  Guest, Slot, Registry, RunCtx, slot_bytes, resolve_surface, resolve_lockview, surface_free_slot,
  surface_max, lock_arena_base, lock_arena_size, mem_acct_publish_footprint,
}

-- `memory_read(mem, s->pixels, vaddr, len)` into the buffer.
abbrev pub copy_back : Buffer → List ℕ → Buffer
copy_back null bytes = null
copy_back (pixels p) bytes = pixels (write_at p 0 bytes)

abbrev pub buffer_bytes : Buffer → List ℕ
buffer_bytes null = []
buffer_bytes (pixels p) = p

abbrev pub one_less : ℕ → ℕ
one_less n = if ltb 0 n then n - 1 else n

abbrev pub free_found : Registry → ℕ → Option Slot → Registry
free_found reg i none = reg
free_found reg i (some s) = surface_free_slot reg i s

-- The freeing loop of `blyt_surface_reap_all`, over `n` slots from position `i` on.
unfoldable pub free_from : Registry → ℕ → ℕ → Registry
free_from reg i zero = reg
free_from reg i (suc n) = free_from (free_found reg i (get_elem? reg.slots i)) (i + 1) n

-- `(len + 3u) & ~3u` bytes of the arena are for a lock.
abbrev pub aligned_bytes : Slot → ℕ
aligned_bytes s = (slot_bytes s + 3) % 2 ^ 32 - (slot_bytes s + 3) % 2 ^ 32 % 4

-- The slot that a lock leaves, and the registry with it.
abbrev pub taken_slot : Registry → Slot → Bool → Slot
taken_slot reg s clear_only = record s {
  locked = true;
  lock_phantom = clear_only;
  lock_vaddr = (lock_arena_base + reg.lock_bump) % 2 ^ 32;
  lock_len = slot_bytes s;
}

abbrev pub taken : Registry → ℕ → Slot → Bool → Registry
taken reg i s clear_only = record reg {
  slots = set reg.slots i (taken_slot reg s clear_only);
  lock_bump = (reg.lock_bump + aligned_bytes s) % 2 ^ 32;
  active_locks = reg.active_locks + 1;
}

-- The 20 bytes of a guest `blyt_lock_t`.
abbrev pub lock_bytes : ℕ → ℕ → ℕ → ℕ → List ℕ
lock_bytes vaddr w h token =
    le_bytes 4 vaddr ++ le_bytes 4 w ++ le_bytes 4 w ++ le_bytes 4 h ++ le_bytes 4 token

module _ {Mem : Type 0} (guest : Guest Mem) where
  -- The slot that `blyt_surface_flush_lock` leaves.
  unfoldable pub flushed_slot : Mem → Slot → Slot
  flushed_slot mem s = record s {
    buffer =
        if not s.lock_phantom && not s.lock_direct
        then copy_back s.buffer (guest.memory_read mem s.lock_vaddr s.lock_len)
        else s.buffer;
    locked = false;
    lock_phantom = false;
    lock_direct = false;
    lock_gen = (s.lock_gen + 1) % 2 ^ 16;
  }

  -- `blyt_surface_flush_lock` on the slot at position `i`, with a guest memory.
  unfoldable pub surface_flush_lock : Registry → ℕ → Slot → Mem → Registry
  surface_flush_lock reg i s mem =
      if not s.locked
      then reg
      else let live = one_less reg.active_locks in
        record reg {
          slots = set reg.slots i (flushed_slot mem s);
          active_locks = live;
          lock_bump = if live == 0 then 0 else reg.lock_bump;
        }

  abbrev pub flush_found : Registry → Mem → ℕ → Option Slot → Registry
  flush_found reg mem i none = reg
  flush_found reg mem i (some s) = surface_flush_lock reg i s mem

  -- The flushing loop of `blyt_surface_reap_all`, over `n` slots from position `i` on.
  unfoldable pub flush_from : Registry → Mem → ℕ → ℕ → Registry
  flush_from reg mem i zero = reg
  flush_from reg mem i (suc n) =
      flush_from (flush_found reg mem i (get_elem? reg.slots i)) mem (i + 1) n

  unfoldable pub surface_reap_all : RunCtx → Mem → RunCtx × Mem
  surface_reap_all ctx mem =
      let flushed = flush_from ctx.surfaces mem 0 surface_max in
      let reaped = free_from flushed 1 (surface_max - 1) in
      let reg : Registry = record reaped { lock_bump = 0; active_locks = 0 } in
      mem_acct_publish_footprint guest (record ctx { surfaces = reg }) mem

  -- `guest_memzero`, on fuel: every round zeroes up to 4096 bytes.
  unfoldable pub memzero_loop : Mem → ℕ → ℕ → ℕ → ℕ → Mem
  memzero_loop mem vaddr len off zero = mem
  memzero_loop mem vaddr len off (suc fuel) =
      let n = min (len - off) 4096 in
      let rest =
        memzero_loop (guest.memory_write mem ((vaddr + off) % 2 ^ 32) (replicate n 0)) vaddr len
          (off + n) fuel in
      if ltb off len then rest else mem

  unfoldable pub guest_memzero : Mem → ℕ → ℕ → Mem
  guest_memzero mem vaddr len = memzero_loop mem vaddr len 0 (len + 1)

  abbrev pub lock_failed : Registry → Mem → ℕ → Bool × (Registry × Mem)
  lock_failed reg mem out_vaddr = (false, (reg, guest.memory_write mem out_vaddr (replicate 20 0)))

  -- The lock that is given where the arena has room.
  abbrev pub lock_granted : Registry → Mem → ℕ → ℕ → Bool → ℕ → Slot → Bool × (Registry × Mem)
  lock_granted reg mem handle out_vaddr clear_only idx s =
      let len = slot_bytes s in
      let vaddr = (lock_arena_base + reg.lock_bump) % 2 ^ 32 in
      let mem1 =
        if clear_only
        then guest_memzero mem vaddr len
        else guest.memory_write mem vaddr (take len (buffer_bytes s.buffer)) in
      let token = lockview_encode s.lock_gen (dyn_decode_index handle) in
      (
        true,
        (
          taken reg idx s clear_only,
          guest.memory_write mem1 out_vaddr (lock_bytes vaddr s.w s.h token),
        ),
      )

  -- `blyt_surface_acquire_lock` from the resolved slot on.
  unfoldable pub acquire_found :
      Registry → Mem → ℕ → ℕ → Bool → Option (ℕ × Slot) → Bool × (Registry × Mem)
  acquire_found reg mem handle out_vaddr clear_only none = lock_failed reg mem out_vaddr
  acquire_found reg mem handle out_vaddr clear_only (some (idx, s)) =
      if s.locked
      then lock_failed reg mem out_vaddr
      else if ltb lock_arena_size (reg.lock_bump + aligned_bytes s)
      then lock_failed reg mem out_vaddr
      else lock_granted reg mem handle out_vaddr clear_only idx s

  unfoldable pub surface_acquire_lock : Registry → Mem → ℕ → ℕ → Bool → Bool × (Registry × Mem)
  surface_acquire_lock reg mem handle out_vaddr clear_only =
      acquire_found reg mem handle out_vaddr clear_only (resolve_surface reg handle)

  -- `blyt_surface_release_lock`: the slot that was released, if any, and the registry.
  abbrev pub release_found : Registry → Mem → Option (ℕ × Slot) → Option Slot × Registry
  release_found reg mem none = (none, reg)
  release_found reg mem (some (idx, s)) = (some s, surface_flush_lock reg idx s mem)

  unfoldable pub surface_release_lock : Registry → Mem → ℕ → Option Slot × Registry
  surface_release_lock reg mem token = release_found reg mem (resolve_lockview reg token)
