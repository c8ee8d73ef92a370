-- ===== src/Surface/Screen.antt =====
-- The screen surface of runtime/host/src/libblyt/cart_run.c: its handle never goes stale.
use blyt.Prelude.{
  ℕ, zero, suc, ◌+◌, ◌≡◌, inl, inr, refl, sym, ap, ◌∙◌, subst, Bool, true, false, not, ◌||◌, Option,
  none, some, List, arith, ltb, if◌then◌else◌, get_elem?, set, Bool-cases, get_elem?-set_self,
  get_elem?-set_ne, lt_of_get_elem?,
}
use blyt.Shared.Handle.{screen, surface_encode, dyn_encode}
use blyt.Surface.Registry.{
  Guest, Slot, Registry, RunCtx, registry_init, resolve_surface, freed_slot, fresh_slot,
  surface_free_slot, surface_create_slot, with_surface, lock_arena_size, resolve_lockview,
}
use blyt.Surface.Locks.{
  flushed_slot, surface_flush_lock, flush_found, free_found, flush_from, free_from, taken_slot,
  aligned_bytes, lock_failed, lock_granted, acquire_found, surface_acquire_lock, release_found,
  surface_release_lock,
}
use blyt.Surface.Handles.{resolve-encode, resolved, resolved_lock, create-cases}
use blyt.Surface.Lifetime.{publish-surfaces}
use blyt.Surface.Reap.{reaped, reap_all-slots}
use blyt.Surface.Reach.{
  Step, create, destroy, paint, acquire, release, end_frame, Reaches, here, there,
}

-- Slot 0 is the screen, in use and of generation 0.
abbrev pub HasScreen : List Slot → Type 0
HasScreen slots =
    (s : Slot) × (get_elem? slots 0 ≡ some s)
    × (s.in_use ≡ true)
    × (s.is_screen ≡ true)
    × (s.gen ≡ 0)

-- A slot stands for another as the screen.
abbrev AsScreen : Slot → Slot → Type 0
AsScreen s t = (t.in_use ≡ s.in_use) × (t.is_screen ≡ s.is_screen) × (t.gen ≡ s.gen)

put-HasScreen :
    (slots : List Slot) (i : ℕ) (s t : Slot)
    → get_elem? slots i ≡ some s
    → (i ≡ 0 → AsScreen s t)
    → HasScreen slots
    → HasScreen (set slots i t)
put-HasScreen slots zero s t at as_screen (x, at0, used, sc, gen) =
    let same : some s ≡ some x = sym at ∙ at0 in
    let eq : s ≡ x = ground (arith, same) in
    (
      t,
      get_elem?-set_self slots 0 t (lt_of_get_elem? slots 0 at),
      (as_screen refl).0 ∙ ap (λ y. y.in_use) eq ∙ used,
      (as_screen refl).1 ∙ ap (λ y. y.is_screen) eq ∙ sc,
      (as_screen refl).2 ∙ ap (λ y. y.gen) eq ∙ gen,
    )
put-HasScreen slots (suc i) s t at as_screen (x, at0, used, sc, gen) =
    (x, get_elem?-set_ne slots t (λ k. absurd (omega (arith, k))) ∙ at0, used, sc, gen)

-- The slot that a free takes is not the screen.
not_screen :
    (reg : Registry) (s : Slot)
    → HasScreen reg.slots
    → get_elem? reg.slots 0 ≡ some s
    → (not s.in_use || s.is_screen) ≡ true
not_screen reg s (x, at, used, sc, gen) e =
    let same : some x ≡ some s = sym at ∙ e in
    let eq : x ≡ s = ground (arith, same) in
    ground (arith, ap (λ y. y.in_use) eq, ap (λ y. y.is_screen) eq, used, sc)

free_slot-HasScreen :
    (reg : Registry) (i : ℕ) (s : Slot)
    → get_elem? reg.slots i ≡ some s
    → HasScreen reg.slots
    → HasScreen (surface_free_slot reg i s).slots
unfolding surface_free_slot
free_slot-HasScreen reg i s at v = elim (Bool-cases (not s.in_use || s.is_screen)) [
  | inl k ↦ rw k v
  | inr k ↦ rw k (
      put-HasScreen reg.slots i s (freed_slot s) at
        (λ z.
          let there0 = subst (λ j. get_elem? reg.slots j ≡ some s) z at in
          absurd (ground (arith, not_screen reg s v there0, k)))
        v)
]

module _ {Mem : Type 0} (guest : Guest Mem) where
  flush_lock-HasScreen :
      (reg : Registry) (i : ℕ) (s : Slot) (mem : Mem)
      → get_elem? reg.slots i ≡ some s
      → HasScreen reg.slots
      → HasScreen (surface_flush_lock guest reg i s mem).slots
  unfolding surface_flush_lock flushed_slot
  flush_lock-HasScreen reg i s mem at v = elim (Bool-cases s.locked) [
    | inr k ↦ rw k v
    | inl k ↦
        rw k (put-HasScreen reg.slots i s (flushed_slot guest mem s) at (λ z. (refl, refl, refl)) v)
  ]

  flush_found-HasScreen :
      (reg : Registry) (mem : Mem) (i : ℕ) (o : Option Slot)
      → get_elem? reg.slots i ≡ o
      → HasScreen reg.slots
      → HasScreen (flush_found guest reg mem i o).slots
  flush_found-HasScreen reg mem i none e v = v
  flush_found-HasScreen reg mem i (some s) e v = flush_lock-HasScreen reg i s mem e v

  flush_from-HasScreen :
      (n : ℕ) (reg : Registry) (mem : Mem) (i : ℕ)
      → HasScreen reg.slots
      → HasScreen (flush_from guest reg mem i n).slots
  unfolding flush_from
  flush_from-HasScreen zero reg mem i v = v
  flush_from-HasScreen (suc n) reg mem i v =
      flush_from-HasScreen n _ mem (i + 1) (flush_found-HasScreen reg mem i _ refl v)

free_found-HasScreen :
    (reg : Registry) (i : ℕ) (o : Option Slot)
    → get_elem? reg.slots i ≡ o
    → HasScreen reg.slots
    → HasScreen (free_found reg i o).slots
free_found-HasScreen reg i none e v = v
free_found-HasScreen reg i (some s) e v = free_slot-HasScreen reg i s e v

free_from-HasScreen :
    (n : ℕ) (reg : Registry) (i : ℕ) → HasScreen reg.slots → HasScreen (free_from reg i n).slots
unfolding free_from
free_from-HasScreen zero reg i v = v
free_from-HasScreen (suc n) reg i v =
    free_from-HasScreen n _ (i + 1) (free_found-HasScreen reg i _ refl v)

module _ {Mem : Type 0} (guest : Guest Mem) where
  unless_refused :
      (b c : Bool) (r q : Bool × (Registry × Mem))
      → HasScreen r.1.0.slots
      → HasScreen q.1.0.slots
      → HasScreen (if b then r else if c then r else q).1.0.slots
  unless_refused true c r q h k = h
  unless_refused false true r q h k = h
  unless_refused false false r q h k = k

  acquire-HasScreen :
      (reg : Registry) (mem : Mem) (handle out_vaddr : ℕ) (clear_only : Bool)
      (o : Option (ℕ × Slot))
      → resolve_surface reg handle ≡ o
      → HasScreen reg.slots
      → HasScreen (acquire_found guest reg mem handle out_vaddr clear_only o).1.0.slots
  unfolding acquire_found
  acquire-HasScreen reg mem handle out_vaddr clear_only none e v = v
  acquire-HasScreen reg mem handle out_vaddr clear_only (some (i, s)) e v =
      unless_refused s.locked (ltb lock_arena_size (reg.lock_bump + aligned_bytes s))
        (lock_failed guest reg mem out_vaddr)
        (lock_granted guest reg mem handle out_vaddr clear_only i s) v
        (put-HasScreen reg.slots i s (taken_slot reg s clear_only) (resolved reg handle i s e).0
          (λ z. (refl, refl, refl)) v)

  release-HasScreen :
      (reg : Registry) (mem : Mem) (token : ℕ) (o : Option (ℕ × Slot))
      → resolve_lockview reg token ≡ o
      → HasScreen reg.slots
      → HasScreen (release_found guest reg mem o).1.slots
  release-HasScreen reg mem token none e v = v
  release-HasScreen reg mem token (some (i, s)) e v =
      flush_lock-HasScreen guest reg i s mem (resolved_lock reg token i s e) v

  create-HasScreen :
      (ctx : RunCtx) (mem : Mem) (w h : ℕ) (calloc_ok : Bool)
      → HasScreen ctx.surfaces.slots
      → HasScreen (surface_create_slot guest calloc_ok ctx mem w h).1.0.surfaces.slots
  create-HasScreen ctx mem w h calloc_ok v = elim (create-cases guest ctx mem w h calloc_ok) [
    | inl r ↦ rw r v
    | inr (idx, s, done, at, unused, low, high, size, room) ↦
        let kept =
          publish-surfaces guest (record ctx { surfaces = with_surface ctx.surfaces idx s w h })
            mem in
        rw (done, kept)
          (put-HasScreen ctx.surfaces.slots idx s (fresh_slot s w h) at
            (λ z. absurd (omega (arith, z, low))) v)
  ]

  reaped-HasScreen :
      (ctx : RunCtx) (mem : Mem)
      → HasScreen ctx.surfaces.slots
      → HasScreen (reaped guest ctx mem).slots
  unfolding reaped
  reaped-HasScreen ctx mem v =
      free_from-HasScreen 63 _ 1 (flush_from-HasScreen guest 64 ctx.surfaces mem 0 v)

  screen_handle : (s : Slot) → s.gen ≡ 0 → surface_encode s.gen 0 ≡ screen
  unfolding surface_encode screen dyn_encode
  screen_handle s e = rw e

  Step-HasScreen : (a b : Registry) → Step guest a b → HasScreen a.slots → HasScreen b.slots
  unfolding surface_acquire_lock surface_release_lock
  Step-HasScreen a b (create ctx mem w h calloc_ok ample word) v =
      create-HasScreen ctx mem w h calloc_ok v
  Step-HasScreen a b (destroy reg handle i s found) v =
      free_slot-HasScreen reg i s (resolved reg handle i s found).0 v
  Step-HasScreen a b (paint reg handle i s buffer found same) v =
      put-HasScreen reg.slots i s (record s { buffer = buffer }) (resolved reg handle i s found).0
        (λ z. (refl, refl, refl)) v
  Step-HasScreen a b (acquire reg mem handle out_vaddr clear_only) v =
      acquire-HasScreen reg mem handle out_vaddr clear_only _ refl v
  Step-HasScreen a b (release reg mem token) v = release-HasScreen reg mem token _ refl v
  Step-HasScreen a b (end_frame ctx mem) v =
      subst HasScreen (sym (reap_all-slots guest ctx mem)) (reaped-HasScreen ctx mem v)

  Reaches-HasScreen : (a b : Registry) → Reaches guest a b → HasScreen a.slots → HasScreen b.slots
  Reaches-HasScreen a b (here reg) v = v
  Reaches-HasScreen a b (there x y z r s) v = Step-HasScreen y z s (Reaches-HasScreen x y r v)

  -- The handle of the screen always resolves to slot 0, whatever a cart does with surfaces from the
  -- start of the session on, and over any number of frames.
  pub Reaches-screen :
      (frame : List ℕ) (reg : Registry)
      → Reaches guest (registry_init frame) reg
      → (s : Slot) × (resolve_surface reg screen ≡ some (0, s)) × (s.is_screen ≡ true)
  unfolding registry_init
  Reaches-screen frame reg r =
      let (s, at, used, sc, gen) =
        Reaches-HasScreen (registry_init frame) reg r (_, refl, refl, refl, refl) in
      (
        s,
        subst (λ h. resolve_surface reg h ≡ some (0, s)) (screen_handle s gen)
            (resolve-encode reg 0 s at (omega arith) used (omega (arith, gen))),
        sc,
      )
