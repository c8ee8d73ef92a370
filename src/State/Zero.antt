-- ===== src/State/Zero.antt =====
-- `blyt_state_ctx_zero_data`: the state of a fresh boot.
use blyt.Prelude.{
  ℕ, zero, suc, ◌/◌, ◌%◌, ◌^◌, ◌<◌, ◌≡◌, refl, ◌∙◌, sym, subst, ap, inl, inr, false, none, some,
  List, [], ◌∷◌, map, arith, get_elem?, get_or, replicate, Option-cases, ◌-◌, bit_and, All,
  All-replicate,
}
use blyt.Prelude.Bits.{test_bit}
use blyt.Prelude.Bytes.{IsByte, length-write_at, write_at-IsByte}
use blyt.Shared.Gen.{IsGen}
use blyt.State.{
  Field, BufferCtx, StateCtx, find_buffer, slot_bit, slot_is_allocated, state_ref_valid, state_get,
  locate, locate_in,
}
use blyt.State.Valid.{FieldFits, IsValid, IsValidBuffer}
use blyt.State.Snapshot.{zero_field, zero_buffer, map_first, state_ctx_zero_data}

zero_fields-FieldFits :
    (count : ℕ) (fs : List Field)
    → All (FieldFits count) fs
    → All (FieldFits count) (map (zero_field count) fs)
unfolding zero_field
zero_fields-FieldFits count [] h = tt
zero_fields-FieldFits count (f ∷ fs) h = (
  (
    length-write_at f.field_data 0 _ ∙ h.0.0,
    write_at-IsByte f.field_data 0 _ h.0.1 (All-replicate IsByte _ 0 (omega arith)),
  ),
  zero_fields-FieldFits count fs h.1,
)

zero_buffer-IsValidBuffer : (bc : BufferCtx) → IsValidBuffer bc → IsValidBuffer (zero_buffer bc)
unfolding zero_buffer
zero_buffer-IsValidBuffer bc v = record {
  bitset_size = refl;
  bitset_bytes = All-replicate IsByte 16 0 (omega arith);
  gens_size = refl;
  gens = All-replicate IsGen 128 1 (omega arith);
  fields_fit = zero_fields-FieldFits bc.count bc.fields v.fields_fit;
}

get_elem?-map_first :
    (n i : ℕ) (g : BufferCtx → BufferCtx) (bcs : List BufferCtx) {bc : BufferCtx}
    → i < n
    → get_elem? (map_first n g bcs) i ≡ some bc
    → (b : BufferCtx) × (get_elem? bcs i ≡ some b) × (bc ≡ g b)
unfolding map_first
get_elem?-map_first zero i g bcs lt e = absurd (omega arith)
get_elem?-map_first (suc n) i g [] lt e = absurd (cc)
get_elem?-map_first (suc n) zero g (b ∷ bcs) lt e = (b, refl, cc)
get_elem?-map_first (suc n) (suc i) g (b ∷ bcs) lt e = get_elem?-map_first n i g bcs (omega arith) e

-- A buffer of the zeroed context is a zeroed buffer of the old one.
find_buffer-zero_data :
    (ctx : StateCtx) (id : ℕ) {bc : BufferCtx}
    → find_buffer (state_ctx_zero_data ctx) id ≡ some bc
    → (b : BufferCtx) × (find_buffer ctx id ≡ some b) × (bc ≡ zero_buffer b)
unfolding find_buffer state_ctx_zero_data
find_buffer-zero_data ctx id e =
    let (b, at, made) =
      get_elem?-map_first ctx.n_buffers (id - 1) zero_buffer ctx.buffers (ground arith)
        (ground arith) in
    (b, ground (arith, at, e), made)

pub zero_data-IsValid : (ctx : StateCtx) → IsValid ctx → IsValid (state_ctx_zero_data ctx)
zero_data-IsValid ctx v = record {
  valid = λ id found.
      let (b, at, made) = find_buffer-zero_data ctx id found in
      subst IsValidBuffer (sym made) (zero_buffer-IsValidBuffer b (v.valid id at));
}

zero-div : (n : ℕ) → 0 / n ≡ 0
zero-div n = omega arith

test_bit-zero : (k : ℕ) → test_bit 0 k ≡ 0
unfolding test_bit
test_bit-zero k = rw (zero-div (2 ^ k))

get_or-replicate : (n i : ℕ) → ◌≡◌ {A = ℕ} (get_or (replicate n 0) i 0) 0
get_or-replicate zero i = refl
get_or-replicate (suc n) zero = refl
get_or-replicate (suc n) (suc i) = get_or-replicate n i

zero_buffer-free : (bc : BufferCtx) (slot : ℕ) → slot_is_allocated (zero_buffer bc) slot ≡ false
unfolding slot_is_allocated zero_buffer slot_bit
zero_buffer-free bc slot = ground (
  arith,
  ap (λ b. test_bit b (slot % 8)) (get_or-replicate 16 (slot / 8)),
  test_bit-zero (slot % 8),
)

-- After the zeroing of a session no slot is allocated, so no reference is valid and nothing can be
-- read.
zero_data-empty :
    (ctx : StateCtx) (id slot field ref : ℕ)
    → (state_ref_valid (state_ctx_zero_data ctx) id ref ≡ false)
      × (state_get (state_ctx_zero_data ctx) id slot field ≡ none)
unfolding state_ref_valid state_get locate locate_in
zero_data-empty ctx id slot field ref =
    elim (Option-cases (find_buffer (state_ctx_zero_data ctx) id)) [
      | inl e ↦ (ground (arith, e), ground (arith, e))
      | inr (bc, e) ↦
          let (b, at, made) = find_buffer-zero_data ctx id e in
          (
            ground (arith, e, made, zero_buffer-free b (bit_and ref 0xFFFF)),
            ground (arith, e, made, zero_buffer-free b slot),
          )
    ]
