-- ===== src/State/Valid.antt =====
-- The invariant of a state context, and what a write through a buffer pointer changes.
use blyt.Prelude.{
  ℕ, ◌-◌, ◌*◌, ◌≤◌, ◌<◌, ◌≡◌, inl, inr, true, some, subst, length, get_elem?, All, arith, ◌==◌,
  if◌then◌else◌, Bool-cases, get_elem?-set_self, get_elem?-set_ne, lt_of_get_elem?,
}
use blyt.Prelude.Bytes.{IsByte}
use blyt.Shared.Gen.{IsGen}
use blyt.State.{
  Field, BufferCtx, StateCtx, field_sizeof, find_buffer, put_buffer, locate, locate_in,
  slot_is_allocated, slot_bit, slot_in_range,
}

-- A field's array has an element for each slot.
abbrev pub FieldFits : ℕ → Field → Type 0
FieldFits count f =
    (length f.field_data ≡ count * field_sizeof f.type_tag) × All IsByte f.field_data

pub record IsValidBuffer (bc : BufferCtx) : Type 0 where
  pub bitset_size : length bc.slot_bitset ≡ 16
  pub bitset_bytes : All IsByte bc.slot_bitset
  pub gens_size : length bc.slot_gens ≡ 128
  pub gens : All IsGen bc.slot_gens
  pub fields_fit : All (FieldFits bc.count) bc.fields

-- Every buffer that an id names is valid.
pub record IsValid (ctx : StateCtx) : Type 0 where
  pub valid : (id : ℕ) {bc : BufferCtx} → find_buffer ctx id ≡ some bc → IsValidBuffer bc

pub field_sizeof_bounds : (tag : ℕ) → (1 ≤ field_sizeof tag) × (field_sizeof tag ≤ 8)
unfolding field_sizeof
field_sizeof_bounds tag = ground arith

pub find_buffer-range :
    (ctx : StateCtx) (id : ℕ) {bc : BufferCtx}
    → find_buffer ctx id ≡ some bc
    → (1 ≤ id) × (id ≤ ctx.n_buffers) × (get_elem? ctx.buffers (id - 1) ≡ some bc)
unfolding find_buffer
find_buffer-range ctx id e = ground arith

pub find_buffer-put_buffer :
    (ctx : StateCtx) (id j : ℕ) {bc : BufferCtx} (bc' : BufferCtx)
    → find_buffer ctx id ≡ some bc
    → find_buffer (put_buffer ctx id bc') j ≡ (if id == j then some bc' else find_buffer ctx j)
unfolding find_buffer put_buffer
find_buffer-put_buffer ctx id j {bc} bc' e =
    let (lo, hi, at) = find_buffer-range ctx id e in
    let inside = lt_of_get_elem? ctx.buffers (id - 1) at in
    ground (
      arith,
      lo,
      hi,
      inside,
      get_elem?-set_self ctx.buffers (id - 1) bc' inside,
      get_elem?-set_ne ctx.buffers {i = id - 1} {j = j - 1} bc',
    )

pub put_buffer-IsValid :
    (ctx : StateCtx) (id : ℕ) {bc : BufferCtx} (bc' : BufferCtx)
    → IsValid ctx
    → find_buffer ctx id ≡ some bc
    → IsValidBuffer bc'
    → IsValid (put_buffer ctx id bc')
put_buffer-IsValid ctx id bc' v e v' = record {
  valid = λ j found. elim (Bool-cases (id == j)) [
    | inl same ↦
        subst IsValidBuffer (ground (arith, find_buffer-put_buffer ctx id j bc' e, same, found)) v'
    | inr apart ↦ v.valid j (ground (arith, find_buffer-put_buffer ctx id j bc' e, apart, found))
  ];
}

-- What `locate` returns is the buffer and the field that the ids name, and an allocated slot.
pub record Located (ctx : StateCtx) (id slot field : ℕ) (bc : BufferCtx) (f : Field) : Type 0 where
  pub found : find_buffer ctx id ≡ some bc
  pub live : slot_is_allocated bc slot ≡ true
  pub field_pos : 1 ≤ field
  pub field_at : get_elem? bc.fields (field - 1) ≡ some f

pub locate-Located :
    (ctx : StateCtx) (id slot field : ℕ) {bc : BufferCtx} {f : Field}
    → locate ctx id slot field ≡ some (bc, f)
    → Located ctx id slot field bc f
unfolding locate locate_in
locate-Located ctx id slot field e = ground arith

pub Located-locate :
    (ctx : StateCtx) (id slot field : ℕ) {bc : BufferCtx} {f : Field}
    → Located ctx id slot field bc f
    → locate ctx id slot field ≡ some (bc, f)
unfolding locate locate_in
Located-locate ctx id slot field {bc} {f} l =
    ground (arith, lt_of_get_elem? bc.fields (field - 1) l.field_at)

-- An allocated slot lies below the count and below the cap.
pub allocated_range :
    (bc : BufferCtx) (slot : ℕ)
    → slot_is_allocated bc slot ≡ true
    → (slot < bc.count) × (slot < 128) × (slot_bit bc.slot_bitset slot ≡ 1)
unfolding slot_is_allocated slot_in_range
allocated_range bc slot h = ground arith
