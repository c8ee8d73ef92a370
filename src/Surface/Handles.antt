-- ===== src/Surface/Handles.antt =====
-- Handles to surfaces, in runtime/host/src/libblyt/cart_run.c: made, resolved and stale.
use blyt.Prelude.{
  ℕ, zero, suc, ◌+◌, ◌-◌, ◌*◌, ◌%◌, ◌^◌, ◌≤◌, ◌<◌, ◌≡◌, ◌⊎◌, inl, inr, refl, sym, ap, ◌∙◌, Bool,
  true, false, ◌||◌, not, Option, none, some, List, arith, leb, ◌==◌, if◌then◌else◌, ◌>>=◌,
  get_elem?, Bool-cases, Option-cases,
}
use blyt.Shared.Handle.{
  surface_encode, dyn_decode_index, dyn_decode_gen, handle_is_surface, handle_is_lockview,
  kind_none, dynamic-roundtrip,
}
use blyt.Shared.MemBudget.{mem_alloc_fits}
use blyt.Surface.Registry.{
  Guest, Slot, Registry, RunCtx, resolve_surface, resolve_lockview, surface_create_slot,
  free_slot_from, with_surface, bad_size, surface_max, mem_acct_guest_heap_used,
  ctx_non_evictable_footprint, mem_acct_publish_footprint,
}

-- The handle of a used slot resolves to it.
pub resolve-encode :
    (reg : Registry) (i : ℕ) (s : Slot)
    → get_elem? reg.slots i ≡ some s
    → i < surface_max
    → s.in_use ≡ true
    → s.gen < 2 ^ 16
    → resolve_surface reg (surface_encode s.gen i) ≡ some (i, s)
unfolding resolve_surface
resolve-encode reg i s e lt used small =
    let trip = dynamic-roundtrip s.gen i in
    let same : dyn_decode_index (surface_encode s.gen i) ≡ i = omega (arith, trip.1, lt) in
    let gen : (dyn_decode_gen (surface_encode s.gen i) % 2 ^ 16 == s.gen) ≡ true =
      ground (arith, trip.0, small) in
    let low : leb surface_max i ≡ false = ground (arith, lt) in rw (trip.4, same, low, e, used, gen)

abbrev pub found : ℕ → Slot → Option (ℕ × Slot)
found i s = some (i, s)

abbrev pub pick : Bool → Bool → Option Slot → (Slot → Bool) → ℕ → Option (ℕ × Slot)
pick b c o test idx =
    if b then none else if c then none else o >>= λ x. if test x then none else found idx x

pair_eq : (i j : ℕ) (s t : Slot) → found i s ≡ found j t → (i ≡ j) × (s ≡ t)
pair_eq i j s t e = (ground (arith, e), ground (arith, e))

-- The guards of a resolver.
pub guards :
    (b c : Bool) (o : Option Slot) (test : Slot → Bool) (idx i : ℕ) (s : Slot)
    → pick b c o test idx ≡ found i s
    → (b ≡ false) × (c ≡ false) × (o ≡ some s) × (test s ≡ false) × (idx ≡ i)
guards true c o test idx i s e = absurd (ground (arith, e))
guards false true o test idx i s e = absurd (ground (arith, e))
guards false false none test idx i s e = absurd (ground (arith, e))
guards false false (some x) test idx i s e = elim (Bool-cases (test x)) [
  | inl t ↦ absurd (ground (arith, e, t))
  | inr t ↦
      let (here, same) = pair_eq idx i x s (ground (arith, e, t)) in
      (refl, refl, ap some same, ap test (sym same) ∙ t, here)
]

-- A resolved handle names the slot at its position, with that slot's generation.
pub resolved :
    (reg : Registry) (handle i : ℕ) (s : Slot)
    → resolve_surface reg handle ≡ some (i, s)
    → (get_elem? reg.slots i ≡ some s)
      × (i < surface_max)
      × (s.in_use ≡ true)
      × (dyn_decode_index handle ≡ i)
      × (dyn_decode_gen handle % 2 ^ 16 ≡ s.gen)
unfolding resolve_surface
resolved reg handle i s e =
    let (kind, low, at, test, idx) =
      guards (not (handle_is_surface handle)) (leb surface_max (dyn_decode_index handle))
        (get_elem? reg.slots (dyn_decode_index handle))
        (λ x. not x.in_use || not (dyn_decode_gen handle % 2 ^ 16 == x.gen))
        (dyn_decode_index handle) i s e in
    (
      ap (get_elem? reg.slots) (sym idx) ∙ at,
      ground (arith, low, idx),
      ground (arith, test),
      idx,
      ground (arith, test),
    )

pub resolved_lock :
    (reg : Registry) (token i : ℕ) (s : Slot)
    → resolve_lockview reg token ≡ some (i, s)
    → get_elem? reg.slots i ≡ some s
unfolding resolve_lockview
resolved_lock reg token i s e =
    let (kind, low, at, test, idx) =
      guards (not (handle_is_lockview token)) (leb surface_max (dyn_decode_index token))
        (get_elem? reg.slots (dyn_decode_index token))
        (λ x. not x.locked || not (dyn_decode_gen token % 2 ^ 16 == x.lock_gen))
        (dyn_decode_index token) i s e in
    ap (get_elem? reg.slots) (sym idx) ∙ at

-- The scan finds a slot that is free.
free_slot_from_lem :
    (slots : List Slot) (i n : ℕ) (idx : ℕ) (s : Slot)
    → free_slot_from slots i n ≡ some (idx, s)
    → (get_elem? slots idx ≡ some s) × (s.in_use ≡ false) × (i ≤ idx) × (idx < i + n)
unfolding free_slot_from
free_slot_from_lem slots i zero idx s e = absurd (ground (arith, e))
free_slot_from_lem slots i (suc n) idx s e = elim (Option-cases (get_elem? slots i)) [
  | inl o ↦ absurd (ground (arith, e, o))
  | inr (x, o) ↦ elim (Bool-cases x.in_use) [
    | inl u ↦
        let (at, free, low, high) =
          free_slot_from_lem slots (i + 1) n idx s (ground (arith, e, o, u)) in
        (at, free, omega (arith, low), omega (arith, high))
    | inr u ↦
        let (here, same) = pair_eq i idx x s (ground (arith, e, o, u)) in
        (
          ap (get_elem? slots) (sym here) ∙ o ∙ ap some same,
          ap (λ y. y.in_use) (sym same) ∙ u,
          omega (arith, here),
          omega (arith, here),
        )
  ]
]

abbrev pub refused : {Mem : Type 0} → RunCtx → Mem → ℕ × (RunCtx × Mem)
refused ctx mem = (kind_none, (ctx, mem))

module _ {Mem : Type 0} (guest : Guest Mem) (ctx : RunCtx) (mem : Mem) (w h : ℕ) where
  abbrev pub over_budget : Bool
  over_budget = not (
      mem_alloc_fits (mem_acct_guest_heap_used guest ctx mem) (ctx_non_evictable_footprint ctx)
        ((w * h) % 2 ^ 32))

  abbrev pub accepted : ℕ → Slot → ℕ × (RunCtx × Mem)
  accepted idx s = (
    surface_encode s.gen idx,
    mem_acct_publish_footprint guest (record ctx { surfaces = with_surface ctx.surfaces idx s w h })
        mem,
  )

  -- A creation is refused as a whole, or fills a free off-screen slot within the budget.
  pub create-cases :
      (calloc_ok : Bool)
      → (surface_create_slot guest calloc_ok ctx mem w h ≡ refused ctx mem)
        ⊎ ((idx : ℕ) × (s : Slot) × (surface_create_slot guest calloc_ok ctx mem w h
              ≡ accepted idx s)
            × (get_elem? ctx.surfaces.slots idx ≡ some s)
            × (s.in_use ≡ false)
            × (1 ≤ idx)
            × (idx < surface_max)
            × (bad_size w h ≡ false)
            × (over_budget ≡ false))
  unfolding surface_create_slot
  create-cases calloc_ok = elim (Bool-cases (bad_size w h)) [
    | inl b ↦ inl (rw b)
    | inr b ↦ elim (Bool-cases over_budget) [
      | inl o ↦ inl (rw (b, o))
      | inr o ↦ elim (Option-cases (free_slot_from ctx.surfaces.slots 1 (surface_max - 1))) [
        | inl full ↦ inl (rw (b, o, full))
        | inr ((idx, s), free) ↦
            let (at, unused, low, high) =
              free_slot_from_lem ctx.surfaces.slots 1 (surface_max - 1) idx s free in
            elim (Bool-cases calloc_ok) [
              | inl c ↦ inr (idx, s, rw (b, o, free, c), at, unused, low, omega (arith, high), b, o)
              | inr c ↦ inl (rw (b, o, free, c))
            ]
      ]
    ]
  ]
