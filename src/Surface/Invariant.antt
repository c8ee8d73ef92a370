-- ===== src/Surface/Invariant.antt =====
-- The accounting of the surface registry of runtime/host/src/libblyt/cart_run.c.
use blyt.Prelude.{
  ℕ, ◌+◌, ◌*◌, ◌%◌, ◌^◌, ◌≤◌, ◌<◌, ◌≡◌, inl, inr, refl, sym, ap, ◌∙◌, subst, Bool, true, false,
  ◌&&◌, ◌||◌, not, some, List, arith, ltb, ◌==◌, if◌then◌else◌, get_elem?, set, length, Bool-cases,
  Option-cases, get_elem?-set_self, get_elem?-set_ne, lt_of_get_elem?, length-set,
}
use blyt.Shared.MemBudget.{mem_alloc_fits, mem_budget_bytes}
use blyt.Resource.{table_footprint}
use blyt.Raster.{Buffer, null, pixels}
use blyt.Surface.Registry.{
  Guest, Slot, Registry, RunCtx, has_buffer, slot_bytes, resolve_surface, resolve_lockview,
  freed_slot, fresh_slot, surface_free_slot, surface_create_slot, with_surface, surface_max,
  lock_arena_size, ctx_non_evictable_footprint, mem_acct_guest_heap_used,
}
use blyt.Surface.Locks.{
  flushed_slot, surface_flush_lock, copy_back, one_less, taken, taken_slot, lock_failed,
  lock_granted, aligned_bytes, acquire_found, surface_acquire_lock, release_found,
  surface_release_lock,
}
use blyt.Surface.Sums.{total, total-set, member_le_total}
use blyt.Surface.Handles.{create-cases, resolved, resolved_lock}
use blyt.Surface.Lifetime.{publish-surfaces}

-- What a slot is charged for, and its count of locks.
abbrev pub slot_charge : Slot → ℕ
slot_charge s = if s.owned && has_buffer s.buffer then slot_bytes s else 0

abbrev pub held : Slot → ℕ
held s = if s.locked then 1 else 0

-- A buffer is owned only by a used slot off the screen.
abbrev pub IsOwner : ℕ → Slot → Type 0
IsOwner i s =
    (s.in_use ≡ false → s.owned ≡ false)
    × (i ≡ 0 → s.owned ≡ false)
    × (s.is_screen ≡ true → s.owned ≡ false)

-- The registry counts the bytes of its owned buffers, within the budget, and its live locks, and the
-- arena is empty when there are none.
pub record IsAccounted (reg : Registry) : Type 0 where
  pub size : length reg.slots ≡ surface_max
  pub bytes : reg.surface_bytes ≡ total slot_charge reg.slots
  pub bounded : reg.surface_bytes ≤ mem_budget_bytes
  pub locks : reg.active_locks ≡ total held reg.slots
  pub arena : reg.active_locks ≡ 0 → reg.lock_bump ≡ 0
  pub owners : (i : ℕ) (s : Slot) → get_elem? reg.slots i ≡ some s → IsOwner i s

-- A change of one slot, with the counters that go with it.
pub put-IsAccounted :
    (reg : Registry) (i : ℕ) (s t : Slot) (bytes bump live : ℕ)
    → IsAccounted reg
    → get_elem? reg.slots i ≡ some s
    → IsOwner i t
    → bytes + slot_charge s ≡ reg.surface_bytes + slot_charge t
    → bytes ≤ mem_budget_bytes
    → live + held s ≡ reg.active_locks + held t
    → (live ≡ 0 → bump ≡ 0)
    → IsAccounted (record reg {
      slots = set reg.slots i t;
      surface_bytes = bytes;
      lock_bump = bump;
      active_locks = live;
    })
put-IsAccounted reg i s t bytes bump live v at owner b low l empty = record {
  size = length-set reg.slots i t ∙ v.size;
  bytes = omega (arith, total-set slot_charge reg.slots i s t at, v.bytes, b);
  bounded = low;
  locks = omega (arith, total-set held reg.slots i s t at, v.locks, l);
  arena = empty;
  owners = λ j x e. elim (Bool-cases (i == j)) [
    | inl same ↦
        let here : i ≡ j = ground (arith, same) in
        let twice : some t ≡ some x =
          sym (get_elem?-set_self reg.slots i t (lt_of_get_elem? reg.slots i at))
          ∙ ap (get_elem? (set reg.slots i t)) here
          ∙ e in
        let eq : t ≡ x = ground (arith, twice) in
        subst (λ y. IsOwner j y) eq (subst (λ k. IsOwner k t) here owner)
    | inr other ↦
        v.owners j x
          (sym (get_elem?-set_ne reg.slots t (λ k. absurd (ground (arith, other, k)))) ∙ e)
  ];
}

-- Freeing a slot.
pub free_slot-IsAccounted :
    (reg : Registry) (i : ℕ) (s : Slot)
    → IsAccounted reg
    → get_elem? reg.slots i ≡ some s
    → IsAccounted (surface_free_slot reg i s)
unfolding surface_free_slot
free_slot-IsAccounted reg i s v at = elim (Bool-cases (not s.in_use || s.is_screen)) [
  | inl k ↦ rw k v
  | inr k ↦
      let part = member_le_total slot_charge reg.slots i s at in
      let small : slot_charge s ≤ mem_budget_bytes = omega (arith, part, v.bytes, v.bounded) in
      rw k (
        put-IsAccounted reg i s (freed_slot s) _ reg.lock_bump reg.active_locks v at
          (λ e. refl, λ e. refl, λ e. refl) (ground (arith, part, v.bytes, v.bounded))
          (ground (arith, part, v.bytes, v.bounded)) (ground arith) v.arena)
]

module _ {Mem : Type 0} (guest : Guest Mem) where
  has_buffer-copy_back :
      (b : Buffer) (bytes : List ℕ) → has_buffer (copy_back b bytes) ≡ has_buffer b
  has_buffer-copy_back null bytes = refl
  has_buffer-copy_back (pixels p) bytes = refl

  slot_charge-flushed :
      (mem : Mem) (s : Slot) → slot_charge (flushed_slot guest mem s) ≡ slot_charge s
  unfolding flushed_slot
  slot_charge-flushed mem s = elim (Bool-cases (not s.lock_phantom && not s.lock_direct)) [
    | inl k ↦ rw (k, has_buffer-copy_back s.buffer (guest.memory_read mem s.lock_vaddr s.lock_len))
    | inr k ↦ rw k
  ]

  -- Releasing the lock of a slot.
  pub flush_lock-IsAccounted :
      (reg : Registry) (i : ℕ) (s : Slot) (mem : Mem)
      → IsAccounted reg
      → get_elem? reg.slots i ≡ some s
      → IsAccounted (surface_flush_lock guest reg i s mem)
  unfolding surface_flush_lock flushed_slot
  flush_lock-IsAccounted reg i s mem v at = elim (Bool-cases s.locked) [
    | inr k ↦ rw k v
    | inl k ↦
        let part = member_le_total held reg.slots i s at in
        let owner = v.owners i s at in
        rw k (
          put-IsAccounted reg i s (flushed_slot guest mem s) reg.surface_bytes
            (if one_less reg.active_locks == 0 then 0 else reg.lock_bump)
            (one_less reg.active_locks) v at owner (omega (arith, slot_charge-flushed mem s))
            v.bounded (ground (arith, k, part, v.locks)) (λ e. ground (arith, e)))
  ]

  taken-IsAccounted :
      (reg : Registry) (i : ℕ) (s : Slot) (clear_only : Bool)
      → IsAccounted reg
      → get_elem? reg.slots i ≡ some s
      → s.locked ≡ false
      → IsAccounted (taken reg i s clear_only)
  taken-IsAccounted reg i s clear_only v at free =
      put-IsAccounted reg i s (taken_slot reg s clear_only) reg.surface_bytes _
        (reg.active_locks + 1) v at (v.owners i s at) refl v.bounded (ground (arith, free))
        (λ e. absurd (omega (arith, e)))

  unless_refused :
      (b c : Bool) (r q : Bool × (Registry × Mem))
      → IsAccounted r.1.0
      → (b ≡ false → IsAccounted q.1.0)
      → IsAccounted (if b then r else if c then r else q).1.0
  unless_refused true c r q h k = h
  unless_refused false true r q h k = h
  unless_refused false false r q h k = k refl

  acquire_found-IsAccounted :
      (reg : Registry) (mem : Mem) (handle out_vaddr : ℕ) (clear_only : Bool) (i : ℕ) (s : Slot)
      → IsAccounted reg
      → get_elem? reg.slots i ≡ some s
      → IsAccounted (acquire_found guest reg mem handle out_vaddr clear_only (some (i, s))).1.0
  unfolding acquire_found
  acquire_found-IsAccounted reg mem handle out_vaddr clear_only i s v at =
      unless_refused s.locked (ltb lock_arena_size (reg.lock_bump + aligned_bytes s))
        (lock_failed guest reg mem out_vaddr)
        (lock_granted guest reg mem handle out_vaddr clear_only i s) v
        (taken-IsAccounted reg i s clear_only v at)

  -- Taking a lock.
  pub acquire-IsAccounted :
      (reg : Registry) (mem : Mem) (handle out_vaddr : ℕ) (clear_only : Bool)
      → IsAccounted reg
      → IsAccounted (surface_acquire_lock guest reg mem handle out_vaddr clear_only).1.0
  unfolding surface_acquire_lock acquire_found
  acquire-IsAccounted reg mem handle out_vaddr clear_only v =
      elim (Option-cases (resolve_surface reg handle)) [
        | inl o ↦
            subst (λ r. IsAccounted (acquire_found guest reg mem handle out_vaddr clear_only r).1.0)
              (sym o) v
        | inr ((i, s), o) ↦
            let (at, low, used, index, gen) = resolved reg handle i s o in
            subst (λ r. IsAccounted (acquire_found guest reg mem handle out_vaddr clear_only r).1.0)
              (sym o) (acquire_found-IsAccounted reg mem handle out_vaddr clear_only i s v at)
      ]

  pub release-IsAccounted :
      (reg : Registry) (mem : Mem) (token : ℕ)
      → IsAccounted reg
      → IsAccounted (surface_release_lock guest reg mem token).1
  unfolding surface_release_lock
  release-IsAccounted reg mem token v = elim (Option-cases (resolve_lockview reg token)) [
    | inl o ↦ subst (λ r. IsAccounted (release_found guest reg mem r).1) (sym o) v
    | inr ((i, s), o) ↦
        subst (λ r. IsAccounted (release_found guest reg mem r).1) (sym o)
          (flush_lock-IsAccounted reg i s mem v (resolved_lock reg token i s o))
  ]

  -- The test of the budget sees the true sum.
  within_budget :
      (ctx : RunCtx) (mem : Mem) (bytes : ℕ)
      → table_footprint ctx.resources + ctx.peer_heap + mem_budget_bytes < 2 ^ 32
      → mem_acct_guest_heap_used guest ctx mem < 2 ^ 32
      → IsAccounted ctx.surfaces
      → bytes < 2 ^ 32
      → not (
          mem_alloc_fits
            (mem_acct_guest_heap_used guest ctx mem)
            (ctx_non_evictable_footprint ctx)
            bytes)
        ≡ false
      → ctx.surfaces.surface_bytes + bytes ≤ mem_budget_bytes
  unfolding ctx_non_evictable_footprint mem_alloc_fits
  within_budget ctx mem bytes ample word v small room =
      ground (arith, ample, word, v.bounded, small, room)

  fresh_charge :
      (reg : Registry) (s : Slot) (w h : ℕ)
      → reg.surface_bytes ≤ mem_budget_bytes
      → reg.surface_bytes + (w * h) % 2 ^ 32 ≤ mem_budget_bytes
      → s.owned ≡ false
      → (reg.surface_bytes + (w * h) % 2 ^ 32) % 2 ^ 32 + slot_charge s
        ≡ reg.surface_bytes + slot_charge (fresh_slot s w h)
  fresh_charge reg s w h b f o = rw o (omega (arith, b, f))

  -- Creating a surface, where the cart's other footprint is not near the end of a 32-bit word.
  pub create-IsAccounted :
      (ctx : RunCtx) (mem : Mem) (w h : ℕ) (calloc_ok : Bool)
      → table_footprint ctx.resources + ctx.peer_heap + mem_budget_bytes < 2 ^ 32
      → mem_acct_guest_heap_used guest ctx mem < 2 ^ 32
      → IsAccounted ctx.surfaces
      → IsAccounted (surface_create_slot guest calloc_ok ctx mem w h).1.0.surfaces
  create-IsAccounted ctx mem w h calloc_ok ample word v =
      elim (create-cases guest ctx mem w h calloc_ok) [
        | inl r ↦ rw r v
        | inr (idx, s, done, at, unused, low, high, size, room) ↦
            let reg = ctx.surfaces in
            let unowned = (v.owners idx s at).0 in
            let kept =
              publish-surfaces guest (record ctx { surfaces = with_surface reg idx s w h }) mem in
            let fits : reg.surface_bytes + (w * h) % 2 ^ 32 ≤ mem_budget_bytes =
              within_budget ctx mem ((w * h) % 2 ^ 32) ample word v (omega arith) room in
            rw (done, kept)
              (put-IsAccounted reg idx s (fresh_slot s w h) _ reg.lock_bump reg.active_locks v at
                (
                  (λ e. absurd (ground (arith, e))),
                  (λ e. absurd (omega (arith, e, low))),
                  (λ e. absurd (ground (arith, e))),
                )
                (fresh_charge reg s w h v.bounded fits (unowned unused)) (omega (arith, fits)) refl
                v.arena)
      ]
