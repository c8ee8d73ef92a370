-- ===== src/State.antt =====
-- runtime/host/src/libblyt/state_buffer.c: the struct-of-arrays storage of a cart's state buffers.
-- The parallel arrays `field_types`, `field_names` and `field_data` are one list of fields, whose
-- length is `n_fields`. An `int32_t` slot is its bit pattern, so it is negative from 2^31 on. A
-- value moves between a word and an array by `memcpy`, on a little-endian machine.
mod Valid
mod Bitset
mod Access
mod Slots
mod Refs
pub mod Snapshot
mod Layout
mod Restore
mod Zero
mod Session
pub mod Init
mod Tests
use blyt.Prelude.{
  ℕ, zero, suc, ◌+◌, ◌-◌, ◌*◌, ◌/◌, ◌%◌, ◌^◌, Bool, true, false, ◌&&◌, ◌||◌, not, Option, none,
  some, List, [], ◌∷◌, map, ltb, leb, ◌==◌, if◌then◌else◌, length, get_elem?, get_or, set,
  replicate, ◌>>=◌, ◌>>◌, guard, bit_and, bit_or,
}
use blyt.Prelude.Bits.{test_bit, set_bit, clear_bit}
use blyt.Prelude.Bytes.{le_bytes, le_value, read_at, write_at}
use blyt.Shared.Gen.{gen_next}
use blyt.Shared.FpCanon.{canon_f32, canon_f64}

abbrev pub max_buffers : ℕ
max_buffers = 32

abbrev pub max_fields : ℕ
max_fields = 256

abbrev pub max_slots : ℕ
max_slots = 128

abbrev pub type_f32 : ℕ
type_f32 = 6

abbrev pub type_f64 : ℕ
type_f64 = 8

unfoldable pub field_sizeof : ℕ → ℕ
field_sizeof tag =
    if (tag == 0) || (tag == 1) || (tag == 7)
    then 1
    else if (tag == 2) || (tag == 3)
    then 2
    else if tag == 8
    then 8
    else 4

pub record Field : Type 0 where
  pub type_tag : ℕ
  pub field_name : List ℕ
  pub field_data : List ℕ

-- `blyt_buffer_ctx_t`
pub record BufferCtx : Type 0 where
  pub buf_id : ℕ
  pub count : ℕ
  pub fields : List Field
  pub slot_bitset : List ℕ
  pub slot_gens : List ℕ
  pub schema_hash : ℕ
  pub name : Option (List ℕ)

-- `blyt_state_ctx_t`
pub record StateCtx : Type 0 where
  pub n_buffers : ℕ
  pub buffers : List BufferCtx

unfoldable pub find_buffer : StateCtx → ℕ → Option BufferCtx
find_buffer ctx id =
    if (id == 0) || ltb ctx.n_buffers id then none else get_elem? ctx.buffers (id - 1)

-- What a write through the pointer that `find_buffer` returned does.
unfoldable pub put_buffer : StateCtx → ℕ → BufferCtx → StateCtx
put_buffer ctx id bc = record ctx { buffers = set ctx.buffers (id - 1) bc }

-- Bit `slot % 8` of byte `slot / 8`.
unfoldable pub slot_bit : List ℕ → ℕ → ℕ
slot_bit bitset slot = test_bit (get_or bitset (slot / 8) 0) (slot % 8)

unfoldable pub slot_in_range : BufferCtx → ℕ → Bool
slot_in_range bc slot = not (leb (2 ^ 31) slot || leb bc.count slot || leb max_slots slot)

unfoldable pub slot_is_allocated : BufferCtx → ℕ → Bool
slot_is_allocated bc slot =
    if slot_in_range bc slot then slot_bit bc.slot_bitset slot == 1 else false

-- The guards of the accessors on one buffer, and the field that they name.
unfoldable pub locate_in : BufferCtx → ℕ → ℕ → Option Field
locate_in bc slot field = do
  guard (slot_is_allocated bc slot)
  guard (not ((field == 0) || ltb (length bc.fields) field))
  get_elem? bc.fields (field - 1)

-- The buffer and the field that an accessor works on, or none where it returns -1.
unfoldable pub locate : StateCtx → ℕ → ℕ → ℕ → Option (BufferCtx × Field)
locate ctx id slot field = do bc ← find_buffer ctx id; f ← locate_in bc slot field; some (bc, f)

-- The element of `slot` in a field's array, and the write of it.
unfoldable pub load_field : Field → ℕ → ℕ
load_field f slot =
    le_value (read_at f.field_data (slot * field_sizeof f.type_tag) (field_sizeof f.type_tag))

unfoldable pub store_field : Field → ℕ → ℕ → Field
store_field f slot bits = record f {
  field_data =
      write_at f.field_data (slot * field_sizeof f.type_tag)
        (le_bytes (field_sizeof f.type_tag) bits);
}

unfoldable pub put_field : BufferCtx → ℕ → Field → BufferCtx
put_field bc field f = record bc { fields = set bc.fields (field - 1) f }

unfoldable pub state_get : StateCtx → ℕ → ℕ → ℕ → Option ℕ
state_get ctx id slot field = do
  (bc, f) ← locate ctx id slot field
  guard (not (f.type_tag == type_f64))
  some (load_field f slot)

-- The value as it is stored: an f32 has its NaN canonicalised.
unfoldable pub canonical : ℕ → ℕ → ℕ
canonical tag value_bits = if tag == type_f32 then canon_f32 value_bits else value_bits

-- The caller's `type_tag` is not used.
unfoldable pub state_set : StateCtx → ℕ → ℕ → ℕ → ℕ → ℕ → Option StateCtx
state_set ctx id slot field value_bits type_tag = do
  (bc, f) ← locate ctx id slot field
  guard (not (f.type_tag == type_f64))
  some (
      put_buffer ctx id (put_field bc field (store_field f slot (canonical f.type_tag value_bits))))

unfoldable pub state_set64 : StateCtx → ℕ → ℕ → ℕ → ℕ → Option StateCtx
state_set64 ctx id slot field value_bits = do
  (bc, f) ← locate ctx id slot field
  guard (f.type_tag == type_f64)
  some (put_buffer ctx id (put_field bc field (store_field f slot (canon_f64 value_bits))))

unfoldable pub state_get64 : StateCtx → ℕ → ℕ → ℕ → Option ℕ
state_get64 ctx id slot field = do
  (bc, f) ← locate ctx id slot field
  guard (f.type_tag == type_f64)
  some (load_field f slot)

unfoldable pub mark_slot : BufferCtx → ℕ → BufferCtx
mark_slot bc s = record bc {
  slot_bitset = set bc.slot_bitset (s / 8) (set_bit (get_or bc.slot_bitset (s / 8) 0) (s % 8));
}

unfoldable pub unmark_slot : BufferCtx → ℕ → BufferCtx
unmark_slot bc s = record bc {
  slot_bitset = set bc.slot_bitset (s / 8) (clear_bit (get_or bc.slot_bitset (s / 8) 0) (s % 8));
}

-- The scan of `blyt_state_alloc_slot` from slot `s` on; the rounds left keep `s` below 128.
unfoldable pub first_free : ℕ → BufferCtx → ℕ → Option ℕ
first_free zero bc s = none
first_free (suc rounds) bc s =
    let rest = first_free rounds bc (s + 1) in
    if ltb s bc.count then (if slot_bit bc.slot_bitset s == 1 then rest else some s) else none

-- What `blyt_state_alloc_slot` returns and writes: -1 and nothing, -1 and `*out_slot = -1`, or 0
-- and the slot.
pub data AllocResult : Type 0 where
  no_buffer : AllocResult
  no_slot : AllocResult
  allocated : ℕ → StateCtx → AllocResult

unfoldable pub state_alloc_slot : StateCtx → ℕ → AllocResult
state_alloc_slot ctx id = elim (find_buffer ctx id) [
  | none ↦ no_buffer
  | some bc ↦ elim (first_free max_slots bc 0) [
    | none ↦ no_slot
    | some s ↦ allocated s (put_buffer ctx id (mark_slot bc s))
  ]
]

-- The `memset` of one slot in every field.
unfoldable pub clear_slot_data : BufferCtx → ℕ → BufferCtx
clear_slot_data bc slot = record bc { fields = map (λ f. store_field f slot 0) bc.fields }

unfoldable pub bump_gen : BufferCtx → ℕ → BufferCtx
bump_gen bc slot = record bc {
  slot_gens = set bc.slot_gens slot (gen_next (get_or bc.slot_gens slot 0));
}

unfoldable pub state_free_slot : StateCtx → ℕ → ℕ → Option StateCtx
state_free_slot ctx id slot = do
  bc ← find_buffer ctx id
  guard (slot_in_range bc slot)
  guard (slot_is_allocated bc slot)
  some (put_buffer ctx id (bump_gen (clear_slot_data (unmark_slot bc slot) slot) slot))

-- `(uint32_t)gen << 16 | (uint32_t)slot`, 0 for a slot that is not allocated.
unfoldable pub state_ref : StateCtx → ℕ → ℕ → ℕ
state_ref ctx id slot = elim (find_buffer ctx id) [
  | none ↦ 0
  | some bc ↦
      if slot_is_allocated bc slot then bit_or (get_or bc.slot_gens slot 0 * 2 ^ 16) slot else 0
]

unfoldable pub state_ref_valid : StateCtx → ℕ → ℕ → Bool
state_ref_valid ctx id ref = if ref == 0 then false else elim (find_buffer ctx id) [
  | none ↦ false
  | some bc ↦
      let slot = bit_and ref 0xFFFF in
      if slot_is_allocated bc slot
      then get_or bc.slot_gens slot 0 == ref / 2 ^ 16 % 2 ^ 16
      else false
]
