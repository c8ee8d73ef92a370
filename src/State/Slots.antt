-- ===== src/State/Slots.antt =====
-- `blyt_state_alloc_slot` and `blyt_state_free_slot`.
use blyt.Prelude.{
  ℕ, zero, suc, ◌+◌, ◌≤◌, ◌<◌, ◌≡◌, refl, ◌≢◌, ◌∙◌, inl, inr, subst, true, false, Option, none,
  some, List, [], ◌∷◌, map, length, get_or, All, arith, ltb, ◌==◌, if◌then◌else◌, Bool-cases,
  Option-cases, All-get_or_lt, get_or-set_self, get_or-set_ne, All-set, length-set, sym,
}
use native.Mathlib.Decide.{ℕ_discrete}
use blyt.Shared.Gen.{IsGen, gen_next, gen_next-IsGen}
use blyt.State.{
  Field, BufferCtx, StateCtx, AllocResult, no_buffer, no_slot, allocated, find_buffer, put_buffer,
  slot_bit, slot_is_allocated, slot_in_range, store_field, mark_slot, unmark_slot, first_free,
  max_slots, state_alloc_slot, state_free_slot, clear_slot_data, bump_gen,
}
use blyt.State.Valid.{
  FieldFits, IsValidBuffer, IsValid, find_buffer-put_buffer, put_buffer-IsValid, allocated_range,
}
use blyt.State.Bitset.{
  mark_slot-IsValidBuffer, unmark_slot-IsValidBuffer, slot_is_allocated-mark,
  slot_is_allocated-unmark,
}
use blyt.State.Access.{store_field-FieldFits}

-- What a scan from slot `s` finds: nothing, if every slot from there is taken, or the first free one.
abbrev Scan : BufferCtx → ℕ → Option ℕ → Type 0
Scan bc s none = (j : ℕ) → s ≤ j → j < bc.count → j < 128 → slot_bit bc.slot_bitset j ≡ 1
Scan bc s (some r) =
    (s ≤ r)
    × (r < bc.count)
    × (r < 128)
    × (slot_bit bc.slot_bitset r ≢ 1)
    × ((j : ℕ) → s ≤ j → j < r → slot_bit bc.slot_bitset j ≡ 1)

Scan-next :
    (bc : BufferCtx) (s : ℕ) (r : Option ℕ)
    → slot_bit bc.slot_bitset s ≡ 1
    → Scan bc (s + 1) r
    → Scan bc s r
Scan-next bc s none here h = λ j lo hi cap. elim (ℕ_discrete s j) [
  | yes e ↦ subst (λ k. slot_bit bc.slot_bitset k ≡ 1) e here
  | no ne ↦ h j (omega arith) hi cap
]
Scan-next bc s (some r) here h = (
  omega (arith, h.0),
  h.1,
  h.2,
  h.3,
  λ j lo hi. elim (ℕ_discrete s j) [
    | yes e ↦ subst (λ k. slot_bit bc.slot_bitset k ≡ 1) e here
    | no ne ↦ h.4 j (omega arith) hi
  ],
)

first_free-Scan :
    (rounds : ℕ) (bc : BufferCtx) (s : ℕ) → rounds + s ≡ 128 → Scan bc s (first_free rounds bc s)
unfolding first_free
first_free-Scan zero bc s e = λ j lo hi cap. absurd (omega arith)
first_free-Scan (suc rounds) bc s e = elim (Bool-cases (ltb s bc.count)) [
  | inl inside ↦ elim (Bool-cases (slot_bit bc.slot_bitset s == 1)) [
    | inl taken ↦
        rw (inside, taken)
          (Scan-next bc s (first_free rounds bc (s + 1)) (ground arith)
            (first_free-Scan rounds bc (s + 1) (omega arith)))
    | inr free ↦
        rw (inside, free)
          (omega arith, ground arith, omega arith, ground arith, λ j lo hi. absurd (omega arith))
  ]
  | inr out ↦ rw out (λ j lo hi cap. absurd (ground arith))
]

-- The slot that an allocation takes is the lowest free one. It is allocated afterwards and no
-- other slot changes; generations, field data and the other buffers stay as they were.
pub record Allocates (ctx : StateCtx) (id s : ℕ) (ctx' : StateCtx) (bc bc' : BufferCtx)
    : Type 0 where
  pub found : find_buffer ctx id ≡ some bc
  pub found' : (j : ℕ) → find_buffer ctx' j ≡ (if id == j then some bc' else find_buffer ctx j)
  pub inside : s < bc.count
  pub below_cap : s < 128
  pub free : slot_is_allocated bc s ≡ false
  pub lowest : (j : ℕ) → j < s → slot_is_allocated bc j ≡ true
  pub marked : (j : ℕ) → slot_is_allocated bc' j ≡ (if s == j then true else slot_is_allocated bc j)
  pub same_count : bc'.count ≡ bc.count
  pub same_gens : bc'.slot_gens ≡ bc.slot_gens
  pub same_fields : bc'.fields ≡ bc.fields
  pub valid : IsValid ctx'

abbrev pub AllocSpec : StateCtx → ℕ → AllocResult → Type 0
AllocSpec ctx id no_buffer = find_buffer ctx id ≡ none
AllocSpec ctx id no_slot =
    (bc : BufferCtx) × (find_buffer ctx id ≡ some bc)
    × ((j : ℕ) → j < bc.count → j < 128 → slot_is_allocated bc j ≡ true)
AllocSpec ctx id (allocated s ctx') =
    (bc : BufferCtx) × (bc' : BufferCtx) × Allocates ctx id s ctx' bc bc'

allocated_of_bit :
    (bc : BufferCtx) (j : ℕ)
    → j < bc.count
    → j < 128
    → slot_bit bc.slot_bitset j ≡ 1
    → slot_is_allocated bc j ≡ true
unfolding slot_is_allocated slot_in_range
allocated_of_bit bc j lo cap h = ground arith

free_of_bit :
    (bc : BufferCtx) (j : ℕ) → slot_bit bc.slot_bitset j ≢ 1 → slot_is_allocated bc j ≡ false
unfolding slot_is_allocated slot_in_range
free_of_bit bc j h = ground arith

alloc_in :
    (ctx : StateCtx) (id : ℕ) {bc : BufferCtx} (r : Option ℕ)
    → IsValid ctx
    → find_buffer ctx id ≡ some bc
    → Scan bc 0 r
    → AllocSpec ctx id
        (elim r [ none ↦ no_slot | some s ↦ allocated s (put_buffer ctx id (mark_slot bc s)) ])
alloc_in ctx id {bc} none v e scan =
    (bc, e, λ j inside cap. allocated_of_bit bc j inside cap (scan j (omega arith) inside cap))
alloc_in ctx id {bc} (some s) v e (lo, inside, cap, free, lower) =
    let vb = v.valid id e in
    (
      bc,
      mark_slot bc s,
      record {
        found = e;
        found' = λ j. find_buffer-put_buffer ctx id j (mark_slot bc s) e;
        inside = inside;
        below_cap = cap;
        free = free_of_bit bc s free;
        lowest = λ j h. allocated_of_bit bc j (omega arith) (omega arith) (lower j (omega arith) h);
        marked = λ j. slot_is_allocated-mark bc vb s cap j inside;
        same_count = unfold mark_slot in refl;
        same_gens = unfold mark_slot in refl;
        same_fields = unfold mark_slot in refl;
        valid =
            put_buffer-IsValid ctx id (mark_slot bc s) v e (mark_slot-IsValidBuffer bc vb s cap);
      },
    )

alloc_slot_without :
    (ctx : StateCtx) (id : ℕ) → find_buffer ctx id ≡ none → state_alloc_slot ctx id ≡ no_buffer
unfolding state_alloc_slot
alloc_slot_without ctx id e = rw (e, state_alloc_slot)

alloc_slot_within :
    (ctx : StateCtx) (id : ℕ) {bc : BufferCtx}
    → find_buffer ctx id ≡ some bc
    → state_alloc_slot ctx id ≡ (elim (first_free max_slots bc 0) [
      | none ↦ no_slot
      | some s ↦ allocated s (put_buffer ctx id (mark_slot bc s))
    ])
unfolding state_alloc_slot
alloc_slot_within ctx id e = rw (e, state_alloc_slot)

-- `blyt_state_alloc_slot` on a valid context: it fails without a buffer, fails when every slot of
-- the buffer below the count and the cap is taken, and otherwise allocates as `Allocates` says.
pub alloc_slot_lem :
    (ctx : StateCtx) (id : ℕ) → IsValid ctx → AllocSpec ctx id (state_alloc_slot ctx id)
alloc_slot_lem ctx id v = elim (Option-cases (find_buffer ctx id)) [
  | inl e ↦ subst (AllocSpec ctx id) (sym (alloc_slot_without ctx id e)) e
  | inr (bc, e) ↦
      subst (AllocSpec ctx id) (sym (alloc_slot_within ctx id e))
        (alloc_in ctx id (first_free max_slots bc 0) v e (first_free-Scan 128 bc 0 (omega arith)))
]

-- What `free_slot` does to the buffer.
unfoldable pub freed : BufferCtx → ℕ → BufferCtx
freed bc slot = bump_gen (clear_slot_data (unmark_slot bc slot) slot) slot

store_every-FieldFits :
    (count slot : ℕ) (fs : List Field)
    → All (FieldFits count) fs
    → All (FieldFits count) (map (λ f. store_field f slot 0) fs)
store_every-FieldFits count slot [] h = tt
store_every-FieldFits count slot (f ∷ fs) h =
    (store_field-FieldFits count f h.0 slot 0, store_every-FieldFits count slot fs h.1)

pub get_or-IsGen :
    (bc : BufferCtx) (slot : ℕ) → IsValidBuffer bc → slot < 128 → IsGen (get_or bc.slot_gens slot 0)
get_or-IsGen bc slot v h =
    All-get_or_lt IsGen bc.slot_gens slot 0 v.gens (omega (arith, v.gens_size))

freed-IsValidBuffer :
    (bc : BufferCtx) (slot : ℕ) → IsValidBuffer bc → slot < 128 → IsValidBuffer (freed bc slot)
unfolding freed bump_gen clear_slot_data unmark_slot
freed-IsValidBuffer bc slot v h =
    let u = unmark_slot-IsValidBuffer bc v slot h in
    record {
      bitset_size = u.bitset_size;
      bitset_bytes = u.bitset_bytes;
      gens_size = length-set bc.slot_gens slot _ ∙ v.gens_size;
      gens = All-set IsGen bc.slot_gens slot _ v.gens (gen_next-IsGen _ (get_or-IsGen bc slot v h));
      fields_fit = store_every-FieldFits bc.count slot bc.fields v.fields_fit;
    }

-- A successful free drops the slot, moves its generation on, zeroes its element in every field, and
-- leaves the other slots, generations and buffers as they were.
pub record Frees (ctx : StateCtx) (id s : ℕ) (ctx' : StateCtx) (bc bc' : BufferCtx) : Type 0 where
  pub found : find_buffer ctx id ≡ some bc
  pub found' : (j : ℕ) → find_buffer ctx' j ≡ (if id == j then some bc' else find_buffer ctx j)
  pub was_live : slot_is_allocated bc s ≡ true
  pub unmarked :
      (j : ℕ) → slot_is_allocated bc' j ≡ (if s == j then false else slot_is_allocated bc j)
  pub gen_moved :
      (j : ℕ)
      → get_or bc'.slot_gens j 0
        ≡ (if s == j then gen_next (get_or bc.slot_gens j 0) else get_or bc.slot_gens j 0)
  pub same_count : bc'.count ≡ bc.count
  pub zeroed : bc'.fields ≡ map (λ f. store_field f s 0) bc.fields
  pub valid : IsValid ctx'

freed-gens :
    (bc : BufferCtx) (slot j : ℕ)
    → slot < length bc.slot_gens
    → get_or (freed bc slot).slot_gens j 0
      ≡ (if slot == j then gen_next (get_or bc.slot_gens j 0) else get_or bc.slot_gens j 0)
unfolding freed bump_gen clear_slot_data unmark_slot
freed-gens bc slot j h =
    let g = gen_next (get_or bc.slot_gens slot 0) in
    ground (arith, get_or-set_self bc.slot_gens slot g 0 h, get_or-set_ne bc.slot_gens slot j g 0)

freed-allocated :
    (bc : BufferCtx) (slot j : ℕ)
    → slot_is_allocated (freed bc slot) j ≡ slot_is_allocated (unmark_slot bc slot) j
unfolding freed bump_gen clear_slot_data slot_is_allocated slot_in_range
freed-allocated bc slot j = refl

put_freed-Frees :
    (ctx : StateCtx) (id s : ℕ) {bc : BufferCtx}
    → IsValid ctx
    → find_buffer ctx id ≡ some bc
    → slot_is_allocated bc s ≡ true
    → Frees ctx id s (put_buffer ctx id (freed bc s)) bc (freed bc s)
put_freed-Frees ctx id s {bc} v found live =
    let vb = v.valid id found in
    let (_, cap, _) = allocated_range bc s live in
    record {
      found = found;
      found' = λ j. find_buffer-put_buffer ctx id j (freed bc s) found;
      was_live = live;
      unmarked = λ j. freed-allocated bc s j ∙ slot_is_allocated-unmark bc vb s cap j;
      gen_moved = λ j. freed-gens bc s j (omega (arith, vb.gens_size));
      same_count = unfold freed bump_gen clear_slot_data unmark_slot in refl;
      zeroed = unfold freed bump_gen clear_slot_data unmark_slot in refl;
      valid = put_buffer-IsValid ctx id (freed bc s) v found (freed-IsValidBuffer bc s vb cap);
    }

-- A successful `blyt_state_free_slot` on a valid context does what `Frees` says.
pub free_slot-Frees :
    (ctx : StateCtx) (id s : ℕ) {ctx' : StateCtx}
    → IsValid ctx
    → state_free_slot ctx id s ≡ some ctx'
    → (bc : BufferCtx) × (bc' : BufferCtx) × Frees ctx id s ctx' bc bc'
unfolding state_free_slot
free_slot-Frees ctx id s {ctx'} v e = elim (Option-cases (find_buffer ctx id)) [
  | inl missing ↦ absurd (ground arith)
  | inr (bc, found) ↦
      let live : slot_is_allocated bc s ≡ true = ground (arith, found, e) in
      let made : ctx' ≡ put_buffer ctx id (freed bc s) =
        unfold freed in ground (arith, found, e, live) in
      (bc, freed bc s, rw made (put_freed-Frees ctx id s v found live))
]

-- Freeing an allocated slot of a buffer succeeds.
pub free_slot-some :
    (ctx : StateCtx) (id s : ℕ) {bc : BufferCtx}
    → find_buffer ctx id ≡ some bc
    → slot_is_allocated bc s ≡ true
    → state_free_slot ctx id s ≡ some (put_buffer ctx id (freed bc s))
unfolding state_free_slot slot_is_allocated freed
free_slot-some ctx id s found live = ground (arith, found, live)
