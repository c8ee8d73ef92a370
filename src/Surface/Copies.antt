-- ===== src/Surface/Copies.antt =====
-- What a lock of a surface copies in and back, in runtime/host/src/libblyt/cart_run.c.
use blyt.Prelude.{
  Bool, ◌&&◌, ◌||◌, not, sym, Bool-cases, Option-cases, inl, inr, get_elem?-set_ne, ℕ, ◌+◌, ◌%◌,
  ◌^◌, ◌≤◌, ◌<◌, ◌≡◌, ◌⊎◌, refl, ap, ◌∙◌, subst, true, false, none, some, List, arith, ltb, leb,
  ◌==◌, if◌then◌else◌, get_elem?, set, length, take, get_elem?-set_self, lt_of_get_elem?, take_all,
}
use blyt.Prelude.Bytes.{le_bytes, write_all}
use blyt.Shared.Handle.{lockview_encode, dyn_decode_index, dyn_decode_gen, dynamic-roundtrip}
use blyt.Raster.{pixels}
use blyt.Surface.Registry.{
  Guest, Slot, Registry, slot_bytes, resolve_surface, resolve_lockview, surface_max,
  lock_arena_base, lock_arena_size,
}
use blyt.Surface.Locks.{
  flushed_slot, surface_flush_lock, surface_acquire_lock, surface_release_lock, lock_bytes,
  one_less, aligned_bytes, taken, taken_slot, acquire_found, release_found,
}
use blyt.Surface.Handles.{resolved}

length-lock_bytes : (vaddr w h token : ℕ) → length (lock_bytes vaddr w h token) ≡ 20
unfolding le_bytes
length-lock_bytes vaddr w h token = refl

-- A request for a lock leaves the registry, or locks a slot of it.
pub acquire-cases :
    {Mem : Type 0} (guest : Guest Mem) (reg : Registry) (mem : Mem) (handle out_vaddr : ℕ)
    (clear_only : Bool)
    → let reg' = (surface_acquire_lock guest reg mem handle out_vaddr clear_only).1.0 in
      (reg' ≡ reg)
      ⊎ ((j : ℕ) × (t : Slot) × (get_elem? reg.slots j ≡ some t)
          × (reg' ≡ taken reg j t clear_only))
unfolding surface_acquire_lock acquire_found
acquire-cases guest reg mem handle out_vaddr clear_only =
    elim (Option-cases (resolve_surface reg handle)) [
      | inl o ↦ inl (rw o)
      | inr ((j, t), o) ↦ elim (Bool-cases t.locked) [
        | inl k ↦ inl (rw (o, k))
        | inr k ↦ elim (Bool-cases (ltb lock_arena_size (reg.lock_bump + aligned_bytes t))) [
          | inl full ↦ inl (rw (o, k, full))
          | inr room ↦ inr (j, t, (resolved reg handle j t o).0, rw (o, k, room))
        ]
      ]
    ]

module _ {Mem : Type 0} (guest : Guest Mem)
    (read_back : (m : Mem) (a : ℕ) (bs : List ℕ)
      → a + length bs ≤ 2 ^ 32
      → guest.memory_read (guest.memory_write m a bs) a (length bs) ≡ bs)
    (read_apart : (m : Mem) (a : ℕ) (bs : List ℕ) (b n : ℕ)
      → (a + length bs ≤ b) ⊎ (b + n ≤ a)
      → guest.memory_read (guest.memory_write m a bs) b n ≡ guest.memory_read m b n)
    (reg : Registry) (mem : Mem) (handle i out_vaddr : ℕ) (s : Slot) (p : List ℕ)
    (found : resolve_surface reg handle ≡ some (i, s)) (free : s.locked ≡ false)
    (plain : s.lock_direct ≡ false) (word : s.lock_gen < 2 ^ 16) (held : s.buffer ≡ pixels p)
    (size : length p ≡ slot_bytes s) (room : reg.lock_bump + slot_bytes s + 3 ≤ lock_arena_size)
    (apart : (out_vaddr + 20 ≤ lock_arena_base)
      ⊎ (lock_arena_base + lock_arena_size ≤ out_vaddr)) where
  abbrev vaddr : ℕ
  vaddr = lock_arena_base + reg.lock_bump

  abbrev token : ℕ
  token = lockview_encode s.lock_gen i

  abbrev copied : Mem
  copied =
      guest.memory_write (guest.memory_write mem vaddr p) out_vaddr (lock_bytes vaddr s.w s.h token)

  acquire_taken :
      surface_acquire_lock guest reg mem handle out_vaddr false
      ≡ (true, (taken reg i s false, copied))
  unfolding surface_acquire_lock acquire_found
  acquire_taken =
      let place : (lock_arena_base + reg.lock_bump) % 2 ^ 32 ≡ vaddr = omega (arith, room) in
      let fits : ltb lock_arena_size (reg.lock_bump + aligned_bytes s) ≡ false =
        ground (arith, room) in
      let whole : take (slot_bytes s) p ≡ p = take_all (slot_bytes s) p size in
      let (at, low, used, index, gen) = resolved reg handle i s found in
      ap (acquire_found guest reg mem handle out_vaddr false) found
      ∙ rw (free, fits, place, held, whole, index)

  -- The lock view shows the pixels of the surface.
  copied_in : guest.memory_read copied vaddr (slot_bytes s) ≡ p
  copied_in =
      read_apart (guest.memory_write mem vaddr p) out_vaddr (lock_bytes vaddr s.w s.h token) vaddr
        (slot_bytes s) (omega (arith, room, apart, length-lock_bytes vaddr s.w s.h token))
      ∙ subst (λ n. guest.memory_read (guest.memory_write mem vaddr p) vaddr n ≡ p) size
          (read_back mem vaddr p (omega (arith, size, room)))

  abbrev view : Slot
  view = taken_slot reg s false

  token_resolves : resolve_lockview (taken reg i s false) token ≡ some (i, view)
  unfolding resolve_lockview
  token_resolves =
      let trip = dynamic-roundtrip s.lock_gen i in
      let (at, low, used, index, gen) = resolved reg handle i s found in
      let same : dyn_decode_index token ≡ i = omega (arith, trip.3, low) in
      let matches : (dyn_decode_gen token % 2 ^ 16 == s.lock_gen) ≡ true =
        ground (arith, trip.2, word) in
      let below : leb surface_max i ≡ false = ground (arith, low) in
      let held_there = get_elem?-set_self reg.slots i view (lt_of_get_elem? reg.slots i at) in
      rw (trip.7, same, below, held_there, matches)

  -- What the cart has drawn, and the slot after the release.
  abbrev drawn_slot : Mem → Slot
  drawn_slot m = flushed_slot guest m view

  abbrev live : ℕ
  live = one_less (reg.active_locks + 1)

  release_taken :
      (m : Mem)
      → surface_release_lock guest (taken reg i s false) m token ≡ (
        some view,
        record (taken reg i s false) {
          slots = set (set reg.slots i view) i (drawn_slot m);
          active_locks = live;
          lock_bump = if live == 0 then 0 else (reg.lock_bump + aligned_bytes s) % 2 ^ 32;
        },
      )
  unfolding surface_release_lock surface_flush_lock
  release_taken m = ap (release_found guest (taken reg i s false) m) token_resolves ∙ refl

  abbrev after : Mem → Registry
  after m = record (taken reg i s false) {
    slots = set (set reg.slots i view) i (drawn_slot m);
    active_locks = live;
    lock_bump = if live == 0 then 0 else (reg.lock_bump + aligned_bytes s) % 2 ^ 32;
  }

  in_place : (m : Mem) → get_elem? (after m).slots i ≡ some (drawn_slot m)
  in_place m =
      let (at, low, used, index, gen) = resolved reg handle i s found in
      get_elem?-set_self (set reg.slots i view) i (drawn_slot m) (
        lt_of_get_elem? (set reg.slots i view) i
          (get_elem?-set_self reg.slots i view (lt_of_get_elem? reg.slots i at)))

  -- A token does not resolve where its slot is unlocked or has another lock generation.
  token-none :
      (reg' : Registry) (t : Slot)
      → get_elem? reg'.slots i ≡ some t
      → (t.locked && (t.lock_gen == s.lock_gen)) ≡ false
      → resolve_lockview reg' token ≡ none
  unfolding resolve_lockview
  token-none reg' t at other =
      let trip = dynamic-roundtrip s.lock_gen i in
      let (at', low, used, index, gen) = resolved reg handle i s found in
      let same : dyn_decode_index token ≡ i = omega (arith, trip.3, low) in
      let below : leb surface_max i ≡ false = ground (arith, low) in
      let test : (not t.locked || not (dyn_decode_gen token % 2 ^ 16 == t.lock_gen)) ≡ true =
        ground (arith, trip.2, word, other) in
      rw (trip.7, same, below, at, test)

  token_stale : (m : Mem) → resolve_lockview (after m) token ≡ none
  unfolding flushed_slot
  token_stale m = token-none (after m) (drawn_slot m) (in_place m) refl

  -- The next lock that is taken, of the same surface or of another, does not revive the token.
  token_stays_stale :
      (m m' : Mem) (next place : ℕ) (clear_only : Bool)
      → resolve_lockview (surface_acquire_lock guest (after m) m' next place clear_only).1.0 token
        ≡ none
  unfolding flushed_slot
  token_stays_stale m m' next place clear_only =
      elim (acquire-cases guest (after m) m' next place clear_only) [
        | inl e ↦ rw e (token_stale m)
        | inr (j, t, at, e) ↦ elim (Bool-cases (j == i)) [
          | inl same ↦
              let here : j ≡ i = ground (arith, same) in
              let twice : some (drawn_slot m) ≡ some t =
                sym (in_place m) ∙ ap (get_elem? (after m).slots) (sym here) ∙ at in
              let gen : t.lock_gen ≡ (s.lock_gen + 1) % 2 ^ 16 = ground (arith, twice) in
              rw e (
                token-none (taken (after m) j t clear_only) (taken_slot (after m) t clear_only)
                  (ap (get_elem? (set (after m).slots j (taken_slot (after m) t clear_only)))
                      (sym here)
                    ∙ get_elem?-set_self (after m).slots j (taken_slot (after m) t clear_only)
                        (lt_of_get_elem? (after m).slots j at))
                  (ground (arith, gen, word)))
          | inr apart_ ↦ rw e (
              token-none (taken (after m) j t clear_only) (drawn_slot m)
                (get_elem?-set_ne (after m).slots (taken_slot (after m) t clear_only)
                    (λ k. absurd (ground (arith, apart_, k)))
                  ∙ in_place m)
                refl)
        ]
      ]

  drawn_buffer :
      (m : Mem) (bs : List ℕ)
      → length bs ≡ slot_bytes s
      → guest.memory_read m vaddr (slot_bytes s) ≡ bs
      → (drawn_slot m).buffer ≡ pixels bs
  unfolding flushed_slot
  drawn_buffer m bs e shown =
      let place : (lock_arena_base + reg.lock_bump) % 2 ^ 32 ≡ vaddr = omega (arith, room) in
      rw (plain, held, place, shown) (ap pixels (write_all p bs (omega (arith, size, e))))

  -- A lock of an unlocked surface in the drawing phase succeeds while the arena has room, shows the
  -- pixels of the surface, and, when it is released by its token, leaves the surface unlocked with
  -- whatever bytes the cart has put in their place. The token no longer resolves then, and the next
  -- request for a lock, of this surface or another, does not make it resolve again. The arena is
  -- given back if no other lock is live; else its bytes stay taken. The guest memory returns what
  -- was written last, the lock record lies outside the arena, and the buffer has the slot's size.
  pub acquire-release :
      (bs : List ℕ)
      → length bs ≡ slot_bytes s
      → let m = guest.memory_write copied vaddr bs in
        (surface_acquire_lock guest reg mem handle out_vaddr false
          ≡ (true, (taken reg i s false, copied)))
        × (guest.memory_read copied vaddr (slot_bytes s) ≡ p)
        × ((reg' : Registry) × (t : Slot) × (surface_release_lock guest
                (taken reg i s false)
                m
                token
              ≡ (some view, reg'))
            × (get_elem? reg'.slots i ≡ some t)
            × (t.buffer ≡ pixels bs)
            × (t.locked ≡ false)
            × (resolve_lockview reg' token ≡ none)
            × ((m' : Mem) (next place : ℕ) (clear_only : Bool)
                → resolve_lockview
                    (surface_acquire_lock guest reg' m' next place clear_only).1.0
                    token
                  ≡ none)
            × (reg'.lock_bump ≡ (
                if reg.active_locks == 0 then 0 else (reg.lock_bump + aligned_bytes s) % 2 ^ 32)))
  unfolding flushed_slot
  acquire-release bs e =
      let m = guest.memory_write copied vaddr bs in
      let shown : guest.memory_read m vaddr (slot_bytes s) ≡ bs =
        subst (λ n. guest.memory_read m vaddr n ≡ bs) e
          (read_back copied vaddr bs (omega (arith, e, room))) in
      (
        acquire_taken,
        copied_in,
        (
          after m,
          drawn_slot m,
          release_taken m,
          in_place m,
          drawn_buffer m bs e shown,
          refl,
          token_stale m,
          token_stays_stale m,
          ground arith,
        ),
      )
