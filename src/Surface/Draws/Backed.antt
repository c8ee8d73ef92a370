-- ===== src/Surface/Draws/Backed.antt =====
-- The buffers behind the surfaces, over the operations of runtime/host/src/libblyt/cart_run.c.
use blyt.Prelude.{
  ℕ, zero, suc, ◌+◌, ◌-◌, ◌*◌, ◌%◌, ◌^◌, ◌≤◌, ◌<◌, ◌≡◌, inl, inr, refl, sym, ap, ◌∙◌, subst, Bool,
  true, false, ◌&&◌, ◌||◌, not, none, some, List, arith, ◌==◌, get_elem?, set, length,
  if◌then◌else◌, replicate, length-replicate, All-replicate, All-get_elem?, Bool-cases,
  Option-cases, get_elem?-set_self, get_elem?-set_ne, lt_of_get_elem?, length-set,
}
use blyt.Prelude.Bytes.{write_at, length-write_at}
use native.Mathlib.Nat.{mul_comm}
use blyt.Raster.{Buffer, pixels}
use blyt.Surface.Registry.{
  Guest, Slot, Registry, RunCtx, resolve_lockview, surface_free_slot, freed_slot, fresh_slot,
  with_surface, surface_create_slot, registry_init, zero_slot, surface_max, frame_w, frame_h,
}
use blyt.Surface.Locks.{
  flushed_slot, surface_flush_lock, copy_back, taken_slot, surface_acquire_lock,
  surface_release_lock, flush_from, free_found, free_from, surface_reap_all,
}
use blyt.Surface.Handles.{resolved_lock, create-cases}
use blyt.Surface.Lifetime.{publish-surfaces, good_size, area_word}
use blyt.Surface.Copies.{acquire-cases}
use blyt.Surface.Draws.{IsBacked}

-- A buffer with a byte for each pixel of a surface that is not empty.
abbrev pub IsGood : Slot → Type 0
IsGood s =
    ((0 < s.w) × (s.w < 2 ^ 31) × (s.h < 2 ^ 31))
    × ((p : List ℕ) × (s.buffer ≡ pixels p) × (length p ≡ s.h * s.w))

abbrev pub AllGood : List Slot → Type 0
AllGood slots = (i : ℕ) (s : Slot) → get_elem? slots i ≡ some s → s.in_use ≡ true → IsGood s

pub put-AllGood :
    (slots : List Slot) (i : ℕ) (t : Slot)
    → AllGood slots
    → (t.in_use ≡ true → IsGood t)
    → AllGood (set slots i t)
put-AllGood slots i t v good j x at used = elim (Bool-cases (i == j)) [
  | inl same ↦
      let here : i ≡ j = ground (arith, same) in
      let low : i < length slots =
        omega (arith, here, lt_of_get_elem? (set slots i t) j at, length-set slots i t) in
      let twice : some t ≡ some x =
        sym (get_elem?-set_self slots i t low) ∙ ap (get_elem? (set slots i t)) here ∙ at in
      let eq : t ≡ x = ground (arith, twice) in
      subst (λ y. IsGood y) eq (good (ap (λ (s : Slot). s.in_use) eq ∙ used))
  | inr other ↦
      v j x (sym (get_elem?-set_ne slots t (λ k. absurd (ground (arith, other, k)))) ∙ at) used
]

-- A new session, whose frame has its size.
pub init-IsBacked :
    (frame : List ℕ) → length frame ≡ frame_h * frame_w → IsBacked (registry_init frame)
unfolding registry_init
init-IsBacked frame size zero s e used =
    let t : Slot = record zero_slot {
      buffer = pixels frame;
      w = frame_w;
      h = frame_h;
      in_use = true;
      is_screen = true;
    } in
    let twice : some t ≡ some s = e in
    let eq : t ≡ s = ground (arith, twice) in
    subst (λ x. IsGood x) eq ((omega arith, omega arith, omega arith), (frame, refl, size))
init-IsBacked frame size (suc i) s e used =
    let off =
      All-get_elem? (λ (t : Slot). t.in_use ≡ false) (replicate 63 zero_slot) i
        (All-replicate (λ (t : Slot). t.in_use ≡ false) 63 zero_slot refl) e in
    absurd (ground (arith, off, used))

pub free_slot-IsBacked :
    (reg : Registry) (i : ℕ) (s : Slot) → IsBacked reg → IsBacked (surface_free_slot reg i s)
unfolding surface_free_slot
free_slot-IsBacked reg i s v = elim (Bool-cases (not s.in_use || s.is_screen)) [
  | inl k ↦ rw k v
  | inr k ↦ rw k (put-AllGood reg.slots i (freed_slot s) v (λ e. absurd (ground (arith, e))))
]

free_from-IsBacked : (n : ℕ) (reg : Registry) (i : ℕ) → IsBacked reg → IsBacked (free_from reg i n)
unfolding free_from
free_from-IsBacked zero reg i v = v
free_from-IsBacked (suc n) reg i v =
    free_from-IsBacked n _ (i + 1)
      (elim (get_elem? reg.slots i) as (λ o. IsBacked (free_found reg i o)) [
        | none ↦ v
        | some s ↦ free_slot-IsBacked reg i s v
      ])

copied_back :
    (b : Buffer) (p bytes : List ℕ) (n : ℕ)
    → b ≡ pixels p
    → length p ≡ n
    → (q : List ℕ) × (copy_back b bytes ≡ pixels q) × (length q ≡ n)
copied_back b p bytes n e size =
    (write_at p 0 bytes, ap (λ c. copy_back c bytes) e, length-write_at p 0 bytes ∙ size)

fresh-IsGood : (s : Slot) (w h : ℕ) → 0 < w → w ≤ 8192 → h ≤ 8192 → IsGood (fresh_slot s w h)
fresh-IsGood s w h wide broad high = (
  (wide, omega (arith, broad), omega (arith, high)),
  (
    replicate ((w * h) % 2 ^ 32) 0,
    refl,
    length-replicate ((w * h) % 2 ^ 32) 0 ∙ area_word w h broad high ∙ mul_comm w h,
  ),
)

module _ {Mem : Type 0} (guest : Guest Mem) where
  flushed-IsGood : (mem : Mem) (s : Slot) → IsGood s → IsGood (flushed_slot guest mem s)
  unfolding flushed_slot
  flushed-IsGood mem s (dims, (p, held, size)) =
      let back =
        copied_back s.buffer p (guest.memory_read mem s.lock_vaddr s.lock_len) (s.h * s.w) held
          size in
      elim (not s.lock_phantom && not s.lock_direct)
        as (λ b. IsGood (record (flushed_slot guest mem s) {
          buffer =
              if b
              then copy_back s.buffer (guest.memory_read mem s.lock_vaddr s.lock_len)
              else s.buffer;
        })) [ true ↦ (dims, back) | false ↦ (dims, (p, held, size)) ]

  flush_lock-IsBacked :
      (reg : Registry) (i : ℕ) (s : Slot) (mem : Mem)
      → get_elem? reg.slots i ≡ some s
      → IsBacked reg
      → IsBacked (surface_flush_lock guest reg i s mem)
  unfolding surface_flush_lock flushed_slot
  flush_lock-IsBacked reg i s mem at v = elim (Bool-cases s.locked) [
    | inr k ↦ rw k v
    | inl k ↦ rw k (
        put-AllGood reg.slots i (flushed_slot guest mem s) v
          (λ used. flushed-IsGood mem s (v i s at used)))
  ]

  flush_from-IsBacked :
      (n : ℕ) (reg : Registry) (mem : Mem) (i : ℕ)
      → IsBacked reg
      → IsBacked (flush_from guest reg mem i n)
  unfolding flush_from
  flush_from-IsBacked zero reg mem i v = v
  flush_from-IsBacked (suc n) reg mem i v =
      flush_from-IsBacked n _ mem (i + 1) (elim (Option-cases (get_elem? reg.slots i)) [
        | inl o ↦ rw o v
        | inr (s, o) ↦ rw o (flush_lock-IsBacked reg i s mem o v)
      ])

  pub reap_all-IsBacked :
      (ctx : RunCtx) (mem : Mem)
      → IsBacked ctx.surfaces
      → IsBacked (surface_reap_all guest ctx mem).0.surfaces
  unfolding surface_reap_all
  reap_all-IsBacked ctx mem v = subst IsBacked (sym (publish-surfaces guest _ mem)) (
      free_from-IsBacked (surface_max - 1) _ 1
        (flush_from-IsBacked surface_max ctx.surfaces mem 0 v))

  pub create_slot-IsBacked :
      (ctx : RunCtx) (mem : Mem) (w h : ℕ) (calloc_ok : Bool)
      → IsBacked ctx.surfaces
      → IsBacked (surface_create_slot guest calloc_ok ctx mem w h).1.0.surfaces
  create_slot-IsBacked ctx mem w h calloc_ok v = elim (create-cases guest ctx mem w h calloc_ok) [
    | inl r ↦ rw r v
    | inr (idx, s, done, at, unused, low, high, size, room) ↦
        let (wide, broad, tall, high_enough) = good_size w h size in
        let reg' : Registry = with_surface ctx.surfaces idx s w h in
        let kept = publish-surfaces guest (record ctx { surfaces = reg' }) mem in
        rw (done, kept)
          (put-AllGood ctx.surfaces.slots idx (fresh_slot s w h) v
            (λ used. fresh-IsGood s w h wide broad high_enough))
  ]

  pub acquire_lock-IsBacked :
      (reg : Registry) (mem : Mem) (handle out_vaddr : ℕ) (clear_only : Bool)
      → IsBacked reg
      → IsBacked (surface_acquire_lock guest reg mem handle out_vaddr clear_only).1.0
  acquire_lock-IsBacked reg mem handle out_vaddr clear_only v =
      elim (acquire-cases guest reg mem handle out_vaddr clear_only) [
        | inl e ↦ rw e v
        | inr (j, t, at, e) ↦
            rw e (put-AllGood reg.slots j (taken_slot reg t clear_only) v (λ used. v j t at used))
      ]

  pub release_lock-IsBacked :
      (reg : Registry) (mem : Mem) (token : ℕ)
      → IsBacked reg
      → IsBacked (surface_release_lock guest reg mem token).1
  unfolding surface_release_lock
  release_lock-IsBacked reg mem token v = elim (Option-cases (resolve_lockview reg token)) [
    | inl o ↦ rw o v
    | inr ((i, s), o) ↦ rw o (flush_lock-IsBacked reg i s mem (resolved_lock reg token i s o) v)
  ]
