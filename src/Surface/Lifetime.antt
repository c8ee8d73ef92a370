-- ===== src/Surface/Lifetime.antt =====
-- The life of an off-screen surface of runtime/host/src/libblyt/cart_run.c.
use blyt.Prelude.{
  ℕ, ◌*◌, ◌%◌, ◌^◌, ◌≤◌, ◌<◌, replicate, ◌≡◌, ◌≢◌, ◌⊎◌, inl, inr, refl, sym, ap, ◌∙◌, Bool, true,
  false, none, some, List, arith, ◌==◌, get_elem?, set, Bool-cases, Option-cases,
  get_elem?-set_self, get_elem?-set_ne, lt_of_get_elem?,
}
use blyt.Shared.Handle.{dyn_decode_index, dyn_decode_gen}
use blyt.Raster.{pixels}
use blyt.Raster.Rows.{row_mono}
use blyt.Surface.Registry.{
  bad_size, Guest, Slot, Registry, RunCtx, resolve_surface, surface_create_slot, fresh_slot,
  freed_slot, surface_free_slot, with_surface, mem_acct_publish_footprint,
}
use blyt.Surface.Handles.{resolve-encode, resolved, create-cases}

-- The generations are 16-bit words.
abbrev pub AreWords : List Slot → Type 0
AreWords slots = (i : ℕ) (s : Slot) → get_elem? slots i ≡ some s → s.gen < 2 ^ 16

pub publish-surfaces :
    {Mem : Type 0} (guest : Guest Mem) (ctx : RunCtx) (mem : Mem)
    → (mem_acct_publish_footprint guest ctx mem).0.surfaces ≡ ctx.surfaces
unfolding mem_acct_publish_footprint
publish-surfaces guest ctx mem = elim (Bool-cases (ctx.mem_acct_vaddr == 0)) [
  | inl z ↦ rw z
  | inr z ↦ rw z
]

-- The sizes that are not refused.
pub good_size : (w h : ℕ) → bad_size w h ≡ false → (0 < w) × (w ≤ 8192) × (0 < h) × (h ≤ 8192)
good_size w h e = ground (arith, e)

-- Their product fits 32 bits.
pub area_word : (w h : ℕ) → w ≤ 8192 → h ≤ 8192 → (w * h) % 2 ^ 32 ≡ w * h
area_word w h a b = let small : w * h ≤ 8192 * h = row_mono h w 8192 a in omega (arith, small, b)

module _ {Mem : Type 0} (guest : Guest Mem) (ctx : RunCtx) (mem : Mem) (w h : ℕ)
    (calloc_ok : Bool) where
  -- A creation either returns no handle and changes nothing, or its handle resolves at once to a
  -- surface of the width and the height asked for, each from 1 to 8192, whose `w * h` pixels are all
  -- 0, which is not the screen, and which has the generation and the lock flag that its slot had.
  -- The slot was free, and no other slot has changed. This is for slots with generations of 16 bits.
  pub create-resolve :
      AreWords ctx.surfaces.slots
      → let (handle, (ctx', mem')) = surface_create_slot guest calloc_ok ctx mem w h in
        ((handle ≡ 0) × (ctx' ≡ ctx) × (mem' ≡ mem))
        ⊎ ((idx : ℕ) × (s t : Slot) × (resolve_surface ctx'.surfaces handle ≡ some (idx, t))
            × (get_elem? ctx.surfaces.slots idx ≡ some s)
            × (s.in_use ≡ false)
            × ((t.w ≡ w) × (t.h ≡ h) × (0 < w) × (w ≤ 8192) × (0 < h) × (h ≤ 8192))
            × (t.buffer ≡ pixels (replicate (w * h) 0))
            × ((t.is_screen ≡ false) × (t.gen ≡ s.gen) × (t.locked ≡ s.locked))
            × ((j : ℕ)
                → idx ≢ j
                → get_elem? ctx'.surfaces.slots j ≡ get_elem? ctx.surfaces.slots j))
  create-resolve words = elim (create-cases guest ctx mem w h calloc_ok) [
    | inl r ↦ inl (rw r (refl, refl, refl))
    | inr (idx, s, done, at, unused, low, high, size, room) ↦
        let (wide, broad, tall, high_enough) = good_size w h size in
        let filled : Registry = with_surface ctx.surfaces idx s w h in
        let kept = publish-surfaces guest (record ctx { surfaces = filled }) mem in
        inr (
          idx,
          s,
          fresh_slot s w h,
          rw (done, kept)
              (resolve-encode filled idx (fresh_slot s w h)
                (get_elem?-set_self ctx.surfaces.slots idx (fresh_slot s w h)
                  (lt_of_get_elem? ctx.surfaces.slots idx at))
                high refl (words idx s at)),
          at,
          unused,
          (refl, refl, wide, broad, tall, high_enough),
          ap (λ n. pixels (replicate n 0)) (area_word w h broad high_enough),
          (refl, refl, refl),
          λ j ne. rw (done, kept) (get_elem?-set_ne ctx.surfaces.slots (fresh_slot s w h) ne),
        )
  ]

-- A handle whose slot has another generation resolves to nothing.
stale :
    (reg : Registry) (handle i : ℕ) (t : Slot)
    → dyn_decode_index handle ≡ i
    → get_elem? reg.slots i ≡ some t
    → dyn_decode_gen handle % 2 ^ 16 ≢ t.gen
    → resolve_surface reg handle ≡ none
stale reg handle i t index at ne = elim (Option-cases (resolve_surface reg handle)) [
  | inl none_found ↦ none_found
  | inr ((j, x), e) ↦
      let (at', low, used, index', gen) = resolved reg handle j x e in
      let same : some x ≡ some t = sym at' ∙ ap (get_elem? reg.slots) (sym index' ∙ index) ∙ at in
      let same_gen : x.gen ≡ t.gen = ground (arith, same) in absurd (ne (gen ∙ same_gen))
]

-- A creation keeps the generation of every slot.
with_surface-gen :
    (reg : Registry) (idx i w h : ℕ) (x t : Slot)
    → get_elem? reg.slots idx ≡ some x
    → get_elem? reg.slots i ≡ some t
    → (t' : Slot) × (get_elem? (with_surface reg idx x w h).slots i ≡ some t') × (t'.gen ≡ t.gen)
with_surface-gen reg idx i w h x t found at = elim (Bool-cases (idx == i)) [
  | inl same ↦
      let here : idx ≡ i = ground (arith, same) in
      let twice : some x ≡ some t = sym found ∙ ap (get_elem? reg.slots) here ∙ at in
      (
        fresh_slot x w h,
        ap (get_elem? (set reg.slots idx (fresh_slot x w h))) (sym here)
            ∙ get_elem?-set_self reg.slots idx (fresh_slot x w h)
                (lt_of_get_elem? reg.slots idx found),
        ground (arith, twice),
      )
  | inr other ↦ (
    t,
    get_elem?-set_ne reg.slots (fresh_slot x w h) (λ e. absurd (ground (arith, other, e))) ∙ at,
    refl,
  )
]

free_slot-slots :
    (reg : Registry) (i : ℕ) (s : Slot)
    → s.in_use ≡ true
    → s.is_screen ≡ false
    → (surface_free_slot reg i s).slots ≡ set reg.slots i (freed_slot s)
unfolding surface_free_slot
free_slot-slots reg i s used off = rw (used, off)

module _ {Mem : Type 0} (guest : Guest Mem) (ctx : RunCtx) (mem : Mem) where
  -- A handle to an off-screen surface is stale once the surface is freed, and stays so whatever
  -- surface is created next, in its slot or in another. This is for slots with generations of 16
  -- bits.
  pub free_slot-stale :
      (handle i : ℕ) (s : Slot) (calloc_ok : Bool) (w h : ℕ)
      → AreWords ctx.surfaces.slots
      → resolve_surface ctx.surfaces handle ≡ some (i, s)
      → s.is_screen ≡ false
      → let reg' = surface_free_slot ctx.surfaces i s in
        let (fresh, (ctx', mem')) =
          surface_create_slot guest calloc_ok (record ctx { surfaces = reg' }) mem w h in
        (resolve_surface reg' handle ≡ none) × (resolve_surface ctx'.surfaces handle ≡ none)
  free_slot-stale handle i s calloc_ok w h words e off =
      let (at, low, used, index, gen) = resolved ctx.surfaces handle i s e in
      let reg' = surface_free_slot ctx.surfaces i s in
      let freed : get_elem? reg'.slots i ≡ some (freed_slot s) =
        rw (free_slot-slots ctx.surfaces i s used off) (
          get_elem?-set_self ctx.surfaces.slots i (freed_slot s)
            (lt_of_get_elem? ctx.surfaces.slots i at)) in
      let moved : dyn_decode_gen handle % 2 ^ 16 ≢ (freed_slot s).gen =
        ground (arith, gen, words i s at) in
      (
        stale reg' handle i (freed_slot s) index freed moved,
        elim (create-cases guest (record ctx { surfaces = reg' }) mem w h calloc_ok) [
          | inl r ↦ rw r (stale reg' handle i (freed_slot s) index freed moved)
          | inr (idx, x, done, found, unused, positive, high, size, room) ↦
              let filled : Registry = with_surface reg' idx x w h in
              let kept = publish-surfaces guest (record ctx { surfaces = filled }) mem in
              let (t, after, same) = with_surface-gen reg' idx i w h x (freed_slot s) found freed in
              rw (done, kept) (stale filled handle i t index after (λ e. moved (e ∙ same)))
        ],
      )
