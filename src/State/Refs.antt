-- ===== src/State/Refs.antt =====
-- Packed entity references: `blyt_state_ref` and `blyt_state_ref_valid`.
use blyt.Prelude.{
  ℕ, ◌+◌, ◌*◌, ◌/◌, ◌%◌, ◌^◌, ◌<◌, ◌≡◌, ◌≢◌, ◌∙◌, inl, inr, ◌↔◌, ap, subst, true, false, some,
  get_or, arith, ◌==◌, ◌&&◌, if◌then◌else◌, Bool-cases, Option-cases, sym,
}
use native.Mathlib.Decide.{ℕ_discrete}
use blyt.Prelude.Bits.{and_mask, or_fields}
use blyt.Shared.Gen.{IsGen, gen_next, gen_next-ne}
use blyt.State.{
  BufferCtx, StateCtx, allocated, find_buffer, slot_is_allocated, state_alloc_slot, state_free_slot,
  state_ref, state_ref_valid,
}
use blyt.State.Valid.{IsValid, allocated_range}
use blyt.State.Slots.{AllocSpec, alloc_slot_lem, Frees, free_slot-Frees, get_or-IsGen}

-- The reference to an allocated slot is its generation above its number, and is not 0.
state_ref-sum :
    (ctx : StateCtx) (id slot : ℕ) {bc : BufferCtx}
    → IsValid ctx
    → find_buffer ctx id ≡ some bc
    → slot_is_allocated bc slot ≡ true
    → (state_ref ctx id slot ≡ get_or bc.slot_gens slot 0 * 2 ^ 16 + slot)
      × IsGen (get_or bc.slot_gens slot 0)
      × (slot < 128)
unfolding state_ref
state_ref-sum ctx id slot {bc} v found live =
    let (_, cap, _) = allocated_range bc slot live in
    let gen = get_or bc.slot_gens slot 0 in
    (
      ground (arith, found, live, or_fields 16 gen slot (omega arith)),
      get_or-IsGen bc slot (v.valid id found) cap,
      cap,
    )

state_ref-free :
    (ctx : StateCtx) (id slot : ℕ) {bc : BufferCtx}
    → find_buffer ctx id ≡ some bc
    → slot_is_allocated bc slot ≡ false
    → state_ref ctx id slot ≡ 0
unfolding state_ref
state_ref-free ctx id slot found free = ground (arith, found, free)

-- The validity test, with its masks read as arithmetic.
ref_valid-within :
    (ctx : StateCtx) (id ref : ℕ) {bc : BufferCtx}
    → find_buffer ctx id ≡ some bc
    → (state_ref_valid ctx id ref ≡ true)
      ↔ (ref ≢ 0)
        × (slot_is_allocated bc (ref % 2 ^ 16) ≡ true)
        × (get_or bc.slot_gens (ref % 2 ^ 16) 0 ≡ ref / 2 ^ 16 % 2 ^ 16)
unfolding state_ref_valid
ref_valid-within ctx id ref {bc} found =
    (λ h. ground (arith, found, h, and_mask 16 ref), λ h. ground (arith, found, h, and_mask 16 ref))

ref_valid-found :
    (ctx : StateCtx) (id ref : ℕ)
    → state_ref_valid ctx id ref ≡ true
    → (bc : BufferCtx) × (find_buffer ctx id ≡ some bc)
unfolding state_ref_valid
ref_valid-found ctx id ref h = elim (Option-cases (find_buffer ctx id)) [
  | inl e ↦ absurd (ground arith)
  | inr found ↦ found
]

state_ref-found :
    (ctx : StateCtx) (id slot : ℕ)
    → state_ref ctx id slot ≢ 0
    → (bc : BufferCtx) × (find_buffer ctx id ≡ some bc) × (slot_is_allocated bc slot ≡ true)
unfolding state_ref
state_ref-found ctx id slot h = elim (Option-cases (find_buffer ctx id)) [
  | inl e ↦ absurd (h (ground arith))
  | inr (bc, found) ↦ (bc, found, ground (arith, found, h))
]

-- On a valid context a 32-bit word is a valid reference exactly if it is not 0 and is the reference
-- that `blyt_state_ref` gives now to the slot in its low half.
pub ref_valid-iff-state_ref :
    (ctx : StateCtx) (id ref : ℕ)
    → IsValid ctx
    → ref < 2 ^ 32
    → (state_ref_valid ctx id ref ≡ true) ↔ (ref ≢ 0) × (state_ref ctx id (ref % 2 ^ 16) ≡ ref)
ref_valid-iff-state_ref ctx id ref v small = (
  λ h.
      let (bc, found) = ref_valid-found ctx id ref h in
      let (ne, live, gen) = (ref_valid-within ctx id ref found).0 h in
      let (sum, _, _) = state_ref-sum ctx id (ref % 2 ^ 16) v found live in
      (ne, omega (arith, sum, gen)),
  λ (ne, same).
      let (bc, found, live) = state_ref-found ctx id (ref % 2 ^ 16) (ground arith) in
      let (sum, gen, _) = state_ref-sum ctx id (ref % 2 ^ 16) v found live in
      (ref_valid-within ctx id ref found).1 (ne, live, omega (arith, sum, same, gen)),
)

-- References of a context where one buffer was replaced.
module _ (ctx : StateCtx) (id s : ℕ) {ctx' : StateCtx} {bc bc' : BufferCtx} (v : IsValid ctx)
    (fr : Frees ctx id s ctx' bc bc') where
  found_after : find_buffer ctx' id ≡ some bc'
  found_after = ground (arith, fr.found' id)

  stale_after : state_ref_valid ctx' id (state_ref ctx id s) ≡ false
  stale_after = elim (Bool-cases (state_ref_valid ctx' id (state_ref ctx id s))) [
    | inl h ↦
        let (sum, _, small) = state_ref-sum ctx id s v fr.found fr.was_live in
        let low : state_ref ctx id s % 2 ^ 16 ≡ s = omega (arith, sum, small) in
        let live : slot_is_allocated bc' s ≡ true =
          subst (λ k. slot_is_allocated bc' k ≡ true) low
            ((ref_valid-within ctx' id _ found_after).0 h).1 in
        absurd (ground (arith, live, fr.unmarked s))
    | inr h ↦ h
  ]

  ref_same_buffer : (t : ℕ) → t ≢ s → state_ref ctx' id t ≡ state_ref ctx id t
  ref_same_buffer t ne = elim (Bool-cases (slot_is_allocated bc t)) [
    | inl live ↦
        let (sum, _, _) = state_ref-sum ctx id t v fr.found live in
        let live' : slot_is_allocated bc' t ≡ true = ground (arith, fr.unmarked t, live, ne) in
        let (sum', _, _) = state_ref-sum ctx' id t fr.valid found_after live' in
        let gen : get_or bc'.slot_gens t 0 ≡ get_or bc.slot_gens t 0 =
          ground (arith, fr.gen_moved t, ne) in
        omega (arith, sum, sum', gen)
    | inr free ↦
        state_ref-free ctx' id t found_after (ground (arith, fr.unmarked t, free, ne))
        ∙ sym (state_ref-free ctx id t fr.found free)
  ]

  ref_other_buffer : (j t : ℕ) → j ≢ id → state_ref ctx' j t ≡ state_ref ctx j t
  unfolding state_ref
  ref_other_buffer j t ne =
      let e : find_buffer ctx' j ≡ find_buffer ctx j = ground (arith, fr.found' j, ne) in
      rw (e, state_ref)

  ref_after :
      (j t : ℕ) → state_ref ctx' j t ≡ (if (j == id) && (t == s) then 0 else state_ref ctx j t)
  ref_after j t = elim (ℕ_discrete j id) [
    | yes p ↦ elim (ℕ_discrete t s) [
      | yes q ↦
          rw (p, q)
            (ground (arith, state_ref-free ctx' id s found_after (ground (arith, fr.unmarked s))))
      | no q ↦ rw p (ground (arith, ref_same_buffer t q))
    ]
    | no p ↦ ground (arith, ref_other_buffer j t p)
  ]

-- A reference taken before a successful free is valid before it and invalid after it. The
-- references to all other slots, of this buffer and of others, are the same before and after.
pub ref-free_slot :
    (ctx : StateCtx) (id s j t : ℕ) {ctx' : StateCtx}
    → IsValid ctx
    → state_free_slot ctx id s ≡ some ctx'
    → (state_ref_valid ctx id (state_ref ctx id s) ≡ true)
      × (state_ref_valid ctx' id (state_ref ctx id s) ≡ false)
      × (state_ref ctx' j t ≡ (if (j == id) && (t == s) then 0 else state_ref ctx j t))
ref-free_slot ctx id s j t {ctx'} v e =
    let (bc, bc', fr) = free_slot-Frees ctx id s v e in
    let (sum, gen, small) = state_ref-sum ctx id s v fr.found fr.was_live in
    let low : state_ref ctx id s % 2 ^ 16 ≡ s = omega (arith, sum, small) in
    (
      (ref_valid-iff-state_ref ctx id (state_ref ctx id s) v (omega (arith, sum, small, gen))).1
          (omega (arith, sum, gen), ap (state_ref ctx id) low),
      stale_after ctx id s v fr,
      ref_after ctx id s v fr j t,
    )

-- A stale reference stays invalid when the slot is allocated anew: the next allocation from the
-- buffer, of whichever slot, does not bring it back.
pub ref-free_slot-alloc_slot :
    (ctx : StateCtx) (id s r : ℕ) {ctx' ctx'' : StateCtx}
    → IsValid ctx
    → state_free_slot ctx id s ≡ some ctx'
    → state_alloc_slot ctx' id ≡ allocated r ctx''
    → state_ref_valid ctx'' id (state_ref ctx id s) ≡ false
ref-free_slot-alloc_slot ctx id s r {ctx'} {ctx''} v e a =
    let (bc, bc', fr) = free_slot-Frees ctx id s v e in
    let (sum, gen, small) = state_ref-sum ctx id s v fr.found fr.was_live in
    let (bc1, bc2, al) = subst (AllocSpec ctx' id) a (alloc_slot_lem ctx' id fr.valid) in
    elim (Bool-cases (state_ref_valid ctx'' id (state_ref ctx id s))) [
      | inl h ↦
          let found : find_buffer ctx'' id ≡ some bc2 = ground (arith, al.found' id) in
          let same : bc1 ≡ bc' = ground (arith, al.found, found_after ctx id s v fr) in
          let now = (ref_valid-within ctx'' id _ found).0 h in
          let low : state_ref ctx id s % 2 ^ 16 ≡ s = omega (arith, sum, small) in
          let at : get_or bc2.slot_gens s 0 ≡ get_or bc.slot_gens s 0 =
            ap (λ k. get_or bc2.slot_gens k 0) (sym low) ∙ omega (arith, now.2, sum, gen, small) in
          let gens : bc2.slot_gens ≡ bc'.slot_gens = al.same_gens ∙ ap (λ b. b.slot_gens) same in
          let moved : get_or bc2.slot_gens s 0 ≡ gen_next (get_or bc.slot_gens s 0) =
            ap (λ g. get_or g s 0) gens ∙ ground (arith, fr.gen_moved s) in
          absurd (gen_next-ne _ gen (sym moved ∙ at))
      | inr h ↦ h
    ]
