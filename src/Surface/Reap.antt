-- ===== src/Surface/Reap.antt =====
-- The end of a frame in runtime/host/src/libblyt/cart_run.c: every surface and lock goes.
use blyt.Prelude.{
  ℕ, zero, suc, ◌+◌, ◌-◌, ◌%◌, ◌^◌, ◌≤◌, ◌<◌, ◌≡◌, ◌≢◌, ◌⊎◌, inl, inr, refl, sym, ap, ◌∙◌, subst,
  true, false, ◌||◌, not, Option, none, some, arith, ltb, leb, ◌==◌, get_elem?, Bool-cases,
  Option-cases, get_elem?-set_self, get_elem?-set_ne, lt_of_get_elem?,
}
use blyt.Shared.Handle.{handle_is_lockview, dyn_decode_index, dyn_decode_gen}
use blyt.Surface.Registry.{
  Guest, Slot, Registry, RunCtx, resolve_surface, resolve_lockview, freed_slot, surface_free_slot,
  surface_max,
}
use blyt.Surface.Locks.{
  flushed_slot, surface_flush_lock, flush_found, flush_from, free_found, free_from,
  surface_reap_all,
}
use blyt.Surface.Handles.{resolved, guards}
use blyt.Surface.Lifetime.{publish-surfaces}

-- A loop over slots changes each slot by `change`, from position `i` on.
abbrev Same : Registry → Registry → ℕ → Type 0
Same reg reg' j = get_elem? reg'.slots j ≡ get_elem? reg.slots j

module _ {Mem : Type 0} (guest : Guest Mem) (mem : Mem) where
  flush_lock_self :
      (reg : Registry) (i : ℕ) (s t : Slot)
      → get_elem? reg.slots i ≡ some s
      → get_elem? (surface_flush_lock guest reg i s mem).slots i ≡ some t
      → t.locked ≡ false
  unfolding surface_flush_lock flushed_slot
  flush_lock_self reg i s t at e = elim (Bool-cases s.locked) [
    | inl l ↦ ground (
      arith,
      e,
      l,
      get_elem?-set_self reg.slots i (flushed_slot guest mem s) (lt_of_get_elem? reg.slots i at),
    )
    | inr l ↦ ground (arith, e, l, at)
  ]

  flush_lock-other :
      (reg : Registry) (i j : ℕ) (s : Slot)
      → i ≢ j
      → Same reg (surface_flush_lock guest reg i s mem) j
  unfolding surface_flush_lock flushed_slot
  flush_lock-other reg i j s ne = elim (Bool-cases s.locked) [
    | inl l ↦ rw l (get_elem?-set_ne reg.slots (flushed_slot guest mem s) ne)
    | inr l ↦ rw l
  ]

  flush_found-other :
      (reg : Registry) (i j : ℕ) (o : Option Slot)
      → i ≢ j
      → Same reg (flush_found guest reg mem i o) j
  flush_found-other reg i j none ne = refl
  flush_found-other reg i j (some s) ne = flush_lock-other reg i j s ne

  flush_found_self :
      (reg : Registry) (i : ℕ) (o : Option Slot) (t : Slot)
      → get_elem? reg.slots i ≡ o
      → get_elem? (flush_found guest reg mem i o).slots i ≡ some t
      → t.locked ≡ false
  flush_found_self reg i none t o e = absurd (ground (arith, o, e))
  flush_found_self reg i (some s) t o e = flush_lock_self reg i s t o e

  abbrev flush_at : Registry → ℕ → Registry
  flush_at reg i = flush_found guest reg mem i (get_elem? reg.slots i)

  flush_from-before :
      (n : ℕ) (reg : Registry) (i j : ℕ) → j < i → Same reg (flush_from guest reg mem i n) j
  unfolding flush_from
  flush_from-before zero reg i j h = refl
  flush_from-before (suc n) reg i j h =
      flush_from-before n (flush_at reg i) (i + 1) j (omega (arith, h))
      ∙ flush_found-other reg i j _ (λ e. absurd (omega (arith, h, e)))

  -- The loop leaves no lock behind it.
  flush_from-unlocked :
      (n : ℕ) (reg : Registry) (i j : ℕ) (t : Slot)
      → i ≤ j
      → j < i + n
      → get_elem? (flush_from guest reg mem i n).slots j ≡ some t
      → t.locked ≡ false
  unfolding flush_from
  flush_from-unlocked zero reg i j t low high e = absurd (omega (arith, low, high))
  flush_from-unlocked (suc n) reg i j t low high e = elim (Bool-cases (ltb i j)) [
    | inl later ↦
        flush_from-unlocked n (flush_at reg i) (i + 1) j t (ground (arith, later))
          (omega (arith, high)) e
    | inr here ↦
        let same : i ≡ j = ground (arith, low, here) in
        flush_found_self reg i _ t refl (
          subst (λ k. get_elem? (flush_at reg i).slots k ≡ some t) (sym same)
            (sym (flush_from-before n (flush_at reg i) (i + 1) j (omega (arith, same))) ∙ e))
  ]

abbrev pub Gone : Slot → Type 0
Gone t = (t.in_use ≡ false) ⊎ (t.is_screen ≡ true)

free_slot_self :
    (reg : Registry) (i : ℕ) (s t : Slot)
    → get_elem? reg.slots i ≡ some s
    → get_elem? (surface_free_slot reg i s).slots i ≡ some t
    → Gone t × (t.locked ≡ s.locked)
unfolding surface_free_slot
free_slot_self reg i s t at e =
    let after = get_elem?-set_self reg.slots i (freed_slot s) (lt_of_get_elem? reg.slots i at) in
    elim (Bool-cases s.in_use) [
      | inl used ↦ elim (Bool-cases s.is_screen) [
        | inl sc ↦ (inr (ground (arith, e, used, sc, at)), ground (arith, e, used, sc, at))
        | inr off ↦ (inl (ground (arith, e, used, off, after)), ground (arith, e, used, off, after))
      ]
      | inr free ↦ (inl (ground (arith, e, free, at)), ground (arith, e, free, at))
    ]

free_slot-other :
    (reg : Registry) (i j : ℕ) (s : Slot) → i ≢ j → Same reg (surface_free_slot reg i s) j
unfolding surface_free_slot
free_slot-other reg i j s ne = elim (Bool-cases (not s.in_use || s.is_screen)) [
  | inl k ↦ rw k
  | inr k ↦ rw k (get_elem?-set_ne reg.slots (freed_slot s) ne)
]

free_found-other :
    (reg : Registry) (i j : ℕ) (o : Option Slot) → i ≢ j → Same reg (free_found reg i o) j
free_found-other reg i j none ne = refl
free_found-other reg i j (some s) ne = free_slot-other reg i j s ne

free_found_self :
    (reg : Registry) (i : ℕ) (o : Option Slot) (t : Slot)
    → get_elem? reg.slots i ≡ o
    → get_elem? (free_found reg i o).slots i ≡ some t
    → Gone t × ((s : Slot) × (get_elem? reg.slots i ≡ some s) × (t.locked ≡ s.locked))
free_found_self reg i none t o e = absurd (ground (arith, o, e))
free_found_self reg i (some s) t o e =
    let (gone, same) = free_slot_self reg i s t o e in (gone, (s, o, same))

abbrev free_at : Registry → ℕ → Registry
free_at reg i = free_found reg i (get_elem? reg.slots i)

free_from-before : (n : ℕ) (reg : Registry) (i j : ℕ) → j < i → Same reg (free_from reg i n) j
unfolding free_from
free_from-before zero reg i j h = refl
free_from-before (suc n) reg i j h =
    free_from-before n (free_at reg i) (i + 1) j (omega (arith, h))
    ∙ free_found-other reg i j _ (λ e. absurd (omega (arith, h, e)))

-- The loop frees what it passes, and locks nothing.
free_from-Gone :
    (n : ℕ) (reg : Registry) (i j : ℕ) (t : Slot)
    → i ≤ j
    → j < i + n
    → get_elem? (free_from reg i n).slots j ≡ some t
    → Gone t × ((s : Slot) × (get_elem? reg.slots j ≡ some s) × (t.locked ≡ s.locked))
unfolding free_from
free_from-Gone zero reg i j t low high e = absurd (omega (arith, low, high))
free_from-Gone (suc n) reg i j t low high e = elim (Bool-cases (ltb i j)) [
  | inl later ↦
      let (gone, (s, at, same)) =
        free_from-Gone n (free_at reg i) (i + 1) j t (ground (arith, later)) (omega (arith, high))
          e in
      (
        gone,
        (s, sym (free_found-other reg i j _ (λ k. absurd (ground (arith, later, k)))) ∙ at, same),
      )
  | inr here ↦
      let same : i ≡ j = ground (arith, low, here) in
      subst (λ k. Gone t × ((s : Slot) × (get_elem? reg.slots k ≡ some s) × (t.locked ≡ s.locked)))
        same
        (free_found_self reg i _ t refl (
          subst (λ k. get_elem? (free_at reg i).slots k ≡ some t) (sym same)
            (sym (free_from-before n (free_at reg i) (i + 1) j (omega (arith, same))) ∙ e)))
]

module _ {Mem : Type 0} (guest : Guest Mem) (ctx : RunCtx) (mem : Mem) where
  unfoldable pub reaped : Registry
  reaped = free_from (flush_from guest ctx.surfaces mem 0 surface_max) 1 (surface_max - 1)

  pub reap_all-slots : (surface_reap_all guest ctx mem).0.surfaces.slots ≡ reaped.slots
  unfolding surface_reap_all reaped
  reap_all-slots =
      ap (λ r. r.slots)
        (publish-surfaces guest
          (record ctx { surfaces = record reaped { lock_bump = 0; active_locks = 0 } }) mem)

  pub reaped-slot :
      (j : ℕ) (t : Slot)
      → j < surface_max
      → get_elem? reaped.slots j ≡ some t
      → ((j ≡ 0) ⊎ Gone t) × (t.locked ≡ false)
  unfolding reaped
  reaped-slot zero t h e = (
    inl refl,
    flush_from-unlocked guest mem surface_max ctx.surfaces 0 0 t (omega arith) (omega arith)
        (sym (free_from-before (surface_max - 1) _ 1 0 (omega arith)) ∙ e),
  )
  reaped-slot (suc j) t h e =
      let (gone, (s, at, same)) =
        free_from-Gone (surface_max - 1) (flush_from guest ctx.surfaces mem 0 surface_max) 1 (suc j)
          t (omega arith) (omega (arith, h)) e in
      (
        inr gone,
        same
            ∙ flush_from-unlocked guest mem surface_max ctx.surfaces 0 (suc j) s (omega arith)
                (omega (arith, h)) at,
      )

  -- After the end of a frame a handle resolves to the screen at most, in slot 0 or marked as the
  -- screen, and unlocked; and no lock view resolves, whatever was locked before.
  pub reap_all-stale :
      let reg = (surface_reap_all guest ctx mem).0.surfaces in
      ((handle i : ℕ) (s : Slot)
        → resolve_surface reg handle ≡ some (i, s)
        → ((i ≡ 0) ⊎ (s.is_screen ≡ true)) × (s.locked ≡ false))
      × ((token : ℕ) → resolve_lockview reg token ≡ none)
  unfolding resolve_lockview
  reap_all-stale =
      let reg = (surface_reap_all guest ctx mem).0.surfaces in
      (
        λ handle i s e.
            let (at, low, used, index, gen) = resolved reg handle i s e in
            let (place, free) =
              reaped-slot i s low (ap (λ ss. get_elem? ss i) (sym reap_all-slots) ∙ at) in
            (
              elim place [
                | inl z ↦ inl z
                | inr (inl unused) ↦ absurd (ground (arith, used, unused))
                | inr (inr sc) ↦ inr sc
              ],
              free,
            ),
        λ token. elim (Option-cases (resolve_lockview reg token)) [
          | inl nothing ↦ nothing
          | inr ((i, s), e) ↦
              let (kind, low, at, test, index) =
                guards (not (handle_is_lockview token)) (leb surface_max (dyn_decode_index token))
                  (get_elem? reg.slots (dyn_decode_index token))
                  (λ x. not x.locked || not (dyn_decode_gen token % 2 ^ 16 == x.lock_gen))
                  (dyn_decode_index token) i s e in
              let (place, free) =
                reaped-slot (dyn_decode_index token) s (ground (arith, low))
                  (ap (λ ss. get_elem? ss (dyn_decode_index token)) (sym reap_all-slots) ∙ at) in
              absurd (ground (arith, test, free))
        ],
      )
