-- ===== src/State/Layout.antt =====
-- The layout of a context: all that no operation on a live session changes. Reading, writing,
-- allocating, freeing and zeroing keep it.
use blyt.Prelude.{
  ℕ, zero, suc, ◌-◌, ◌<◌, ◌≡◌, refl, ◌∙◌, sym, subst, ap, ap₂, inl, inr, Option, some, List, [],
  ◌∷◌, map, arith, length, get_elem?, get_or, ◌/◌, ◌%◌, set, drop, length-set, Option-cases,
}
use blyt.Prelude.Bits.{clear_bit}
use blyt.Shared.Gen.{gen_next}
use blyt.Prelude.Bytes.{length-write_at}
use blyt.State.{
  Field, BufferCtx, StateCtx, allocated, find_buffer, put_buffer, put_field, store_field, mark_slot,
  bump_gen, clear_slot_data, unmark_slot, state_alloc_slot, state_free_slot, state_set, state_set64,
  locate, canonical,
}
use blyt.Shared.FpCanon.{canon_f64}
use blyt.State.Valid.{find_buffer-range, locate-Located, IsValid, IsValidBuffer}
use blyt.State.Slots.{freed}
use blyt.State.Snapshot.{zero_field, zero_buffer, map_first, state_ctx_zero_data}

pub record FieldLayout : Type 0 where
  pub type_tag : ℕ
  pub field_name : List ℕ
  pub size : ℕ

pub record BufferLayout : Type 0 where
  pub buf_id : ℕ
  pub count : ℕ
  pub fields : List FieldLayout
  pub bitset_size : ℕ
  pub gens_size : ℕ
  pub schema_hash : ℕ
  pub name : Option (List ℕ)

abbrev pub field_layout : Field → FieldLayout
field_layout f = record {
  type_tag = f.type_tag;
  field_name = f.field_name;
  size = length f.field_data;
}

abbrev pub buffer_layout : BufferCtx → BufferLayout
buffer_layout bc = record {
  buf_id = bc.buf_id;
  count = bc.count;
  fields = map field_layout bc.fields;
  bitset_size = length bc.slot_bitset;
  gens_size = length bc.slot_gens;
  schema_hash = bc.schema_hash;
  name = bc.name;
}

-- Two contexts of one session: the same layout, and the same unused buffers.
pub record SameLayout (a b : StateCtx) : Type 0 where
  pub same_n : a.n_buffers ≡ b.n_buffers
  pub same_buffers : map buffer_layout a.buffers ≡ map buffer_layout b.buffers
  pub same_rest : drop a.n_buffers a.buffers ≡ drop a.n_buffers b.buffers

pub SameLayout-refl : (a : StateCtx) → SameLayout a a
SameLayout-refl a = record { same_n = refl; same_buffers = refl; same_rest = refl }

pub SameLayout-trans : {a b c : StateCtx} → SameLayout a b → SameLayout b c → SameLayout a c
SameLayout-trans {c} p q = record {
  same_n = p.same_n ∙ q.same_n;
  same_buffers = p.same_buffers ∙ q.same_buffers;
  same_rest = p.same_rest ∙ rw p.same_n q.same_rest;
}

map-set_same {ℓ κ} :
    {A : Type ℓ} {B : Type κ} (g : A → B) (xs : List A) (i : ℕ) {x : A} (y : A)
    → get_elem? xs i ≡ some x
    → g y ≡ g x
    → map g (set xs i y) ≡ map g xs
map-set_same g [] i y e h = refl
map-set_same g (x ∷ xs) zero y e h = ap (λ t. t ∷ map g xs) (h ∙ ap g (cc))
map-set_same g (x ∷ xs) (suc i) y e h = ap (λ t. g x ∷ t) (map-set_same g xs i y e h)

drop-set {ℓ} :
    {A : Type ℓ} (n i : ℕ) (xs : List A) (y : A) → i < n → drop n (set xs i y) ≡ drop n xs
drop-set zero i xs y h = absurd (omega arith)
drop-set (suc n) i [] y h = refl
drop-set (suc n) zero (x ∷ xs) y h = refl
drop-set (suc n) (suc i) (x ∷ xs) y h = drop-set n i xs y (omega arith)

put_buffer-SameLayout :
    (ctx : StateCtx) (id : ℕ) {bc : BufferCtx} (bc' : BufferCtx)
    → find_buffer ctx id ≡ some bc
    → buffer_layout bc' ≡ buffer_layout bc
    → SameLayout (put_buffer ctx id bc') ctx
unfolding put_buffer
put_buffer-SameLayout ctx id bc' found h =
    let (lo, hi, at) = find_buffer-range ctx id found in
    record {
      same_n = refl;
      same_buffers = map-set_same buffer_layout ctx.buffers (id - 1) bc' at h;
      same_rest = drop-set ctx.n_buffers (id - 1) ctx.buffers bc' (omega arith);
    }

store_field-layout :
    (f : Field) (slot bits : ℕ) → field_layout (store_field f slot bits) ≡ field_layout f
unfolding store_field
store_field-layout f slot bits =
    ap (λ n. record { type_tag = f.type_tag; field_name = f.field_name; size = n })
      (length-write_at f.field_data _ _)

put_field-layout :
    (bc : BufferCtx) (field slot bits : ℕ) {f : Field}
    → get_elem? bc.fields (field - 1) ≡ some f
    → buffer_layout (put_field bc field (store_field f slot bits)) ≡ buffer_layout bc
unfolding put_field
put_field-layout bc field slot bits {f} at =
    ap (λ fs. record (buffer_layout bc) { fields = fs })
      (map-set_same field_layout bc.fields (field - 1) (store_field f slot bits) at
        (store_field-layout f slot bits))

mark_slot-layout : (bc : BufferCtx) (s : ℕ) → buffer_layout (mark_slot bc s) ≡ buffer_layout bc
unfolding mark_slot
mark_slot-layout bc s =
    ap (λ n. record (buffer_layout bc) { bitset_size = n }) (length-set bc.slot_bitset _ _)

store_all-layout :
    (slot : ℕ) (fs : List Field)
    → map field_layout (map (λ f. store_field f slot 0) fs) ≡ map field_layout fs
store_all-layout slot [] = refl
store_all-layout slot (f ∷ fs) = ap₂ ◌∷◌ (store_field-layout f slot 0) (store_all-layout slot fs)

freed-layout : (bc : BufferCtx) (s : ℕ) → buffer_layout (freed bc s) ≡ buffer_layout bc
unfolding freed bump_gen clear_slot_data unmark_slot
freed-layout bc s = λ i. record (buffer_layout bc) {
  fields = store_all-layout s bc.fields i;
  bitset_size =
      length-set bc.slot_bitset (s / 8) (clear_bit (get_or bc.slot_bitset (s / 8) 0) (s % 8)) i;
  gens_size = length-set bc.slot_gens s (gen_next (get_or bc.slot_gens s 0)) i;
}

zero_field-layout : (count : ℕ) (f : Field) → field_layout (zero_field count f) ≡ field_layout f
unfolding zero_field
zero_field-layout count f =
    ap (λ n. record (field_layout f) { size = n }) (length-write_at f.field_data 0 _)

zero_all-layout :
    (count : ℕ) (fs : List Field)
    → map field_layout (map (zero_field count) fs) ≡ map field_layout fs
zero_all-layout count [] = refl
zero_all-layout count (f ∷ fs) = ap₂ ◌∷◌ (zero_field-layout count f) (zero_all-layout count fs)

zero_buffer-layout :
    (bc : BufferCtx) → IsValidBuffer bc → buffer_layout (zero_buffer bc) ≡ buffer_layout bc
unfolding zero_buffer
zero_buffer-layout bc v = λ i. record (buffer_layout bc) {
  fields = zero_all-layout bc.count bc.fields i;
  bitset_size = sym v.bitset_size i;
  gens_size = sym v.gens_size i;
}

-- A fact about the buffers below `n`, by their positions.
abbrev pub Below : (BufferCtx → Type 0) → ℕ → List BufferCtx → Type 0
Below P zero bcs = Unit
Below P (suc n) [] = Unit
Below P (suc n) (bc ∷ bcs) = P bc × Below P n bcs

pub get_elem?-Below :
    (P : BufferCtx → Type 0) (n : ℕ) (bcs : List BufferCtx)
    → ((i : ℕ) (bc : BufferCtx) → i < n → get_elem? bcs i ≡ some bc → P bc)
    → Below P n bcs
get_elem?-Below P zero bcs h = tt
get_elem?-Below P (suc n) [] h = tt
get_elem?-Below P (suc n) (bc ∷ bcs) h =
    (h 0 bc (omega arith) refl, get_elem?-Below P n bcs (λ i b lt e. h (suc i) b (omega arith) e))

pub IsValid-Below : (ctx : StateCtx) → IsValid ctx → Below IsValidBuffer ctx.n_buffers ctx.buffers
unfolding find_buffer
IsValid-Below ctx v =
    get_elem?-Below IsValidBuffer ctx.n_buffers ctx.buffers
      (λ i bc lt e. v.valid (suc i) (ground (arith, e)))

zero_first-layout :
    (n : ℕ) (bcs : List BufferCtx)
    → Below IsValidBuffer n bcs
    → map buffer_layout (map_first n zero_buffer bcs) ≡ map buffer_layout bcs
unfolding map_first
zero_first-layout zero bcs v = refl
zero_first-layout (suc n) [] v = refl
zero_first-layout (suc n) (bc ∷ bcs) v =
    ap₂ ◌∷◌ (zero_buffer-layout bc v.0) (zero_first-layout n bcs v.1)

drop-map_first :
    (n : ℕ) (g : BufferCtx → BufferCtx) (bcs : List BufferCtx)
    → drop n (map_first n g bcs) ≡ drop n bcs
unfolding map_first
drop-map_first zero g bcs = refl
drop-map_first (suc n) g [] = refl
drop-map_first (suc n) g (bc ∷ bcs) = drop-map_first n g bcs

pub zero_data-SameLayout : (ctx : StateCtx) → IsValid ctx → SameLayout (state_ctx_zero_data ctx) ctx
unfolding state_ctx_zero_data
zero_data-SameLayout ctx v = record {
  same_n = refl;
  same_buffers = zero_first-layout ctx.n_buffers ctx.buffers (IsValid-Below ctx v);
  same_rest = drop-map_first ctx.n_buffers zero_buffer ctx.buffers;
}

pub set-SameLayout :
    (ctx : StateCtx) (id slot field value tag : ℕ) {ctx' : StateCtx}
    → state_set ctx id slot field value tag ≡ some ctx'
    → SameLayout ctx' ctx
unfolding state_set
set-SameLayout ctx id slot field value tag e = elim (Option-cases (locate ctx id slot field)) [
  | inl missing ↦ absurd (ground arith)
  | inr ((bc, f), at) ↦
      let l = locate-Located ctx id slot field at in
      let bits = canonical f.type_tag value in
      subst (λ c. SameLayout c ctx) (ground (arith, at, e))
        (put_buffer-SameLayout ctx id (put_field bc field (store_field f slot bits)) l.found
          (put_field-layout bc field slot bits l.field_at))
]

pub set64-SameLayout :
    (ctx : StateCtx) (id slot field value : ℕ) {ctx' : StateCtx}
    → state_set64 ctx id slot field value ≡ some ctx'
    → SameLayout ctx' ctx
unfolding state_set64
set64-SameLayout ctx id slot field value e = elim (Option-cases (locate ctx id slot field)) [
  | inl missing ↦ absurd (ground arith)
  | inr ((bc, f), at) ↦
      let l = locate-Located ctx id slot field at in
      subst (λ c. SameLayout c ctx) (ground (arith, at, e))
        (put_buffer-SameLayout ctx id (put_field bc field (store_field f slot (canon_f64 value)))
          l.found (put_field-layout bc field slot (canon_f64 value) l.field_at))
]

pub alloc_slot-SameLayout :
    (ctx : StateCtx) (id s : ℕ) {ctx' : StateCtx}
    → state_alloc_slot ctx id ≡ allocated s ctx'
    → SameLayout ctx' ctx
unfolding state_alloc_slot
alloc_slot-SameLayout ctx id s e = elim (Option-cases (find_buffer ctx id)) [
  | inl missing ↦ absurd (ground arith)
  | inr (bc, found) ↦
      subst (λ c. SameLayout c ctx) (ground (arith, found, e))
        (put_buffer-SameLayout ctx id (mark_slot bc s) found (mark_slot-layout bc s))
]

pub free_slot-SameLayout :
    (ctx : StateCtx) (id s : ℕ) {ctx' : StateCtx}
    → state_free_slot ctx id s ≡ some ctx'
    → SameLayout ctx' ctx
unfolding state_free_slot freed
free_slot-SameLayout ctx id s e = elim (Option-cases (find_buffer ctx id)) [
  | inl missing ↦ absurd (ground arith)
  | inr (bc, found) ↦
      subst (λ c. SameLayout c ctx) (ground (arith, found, e))
        (put_buffer-SameLayout ctx id (freed bc s) found (freed-layout bc s))
]
