-- ===== src/State/Bitset.antt =====
-- The slot bitset: marking and unmarking a slot changes that slot's bit alone.
use blyt.Prelude.{
  ℕ, ◌/◌, ◌%◌, ◌≤◌, ◌<◌, ◌≡◌, ◌∙◌, true, false, List, length, get_or, set, All, arith, ◌==◌,
  if◌then◌else◌, get_or-set_self, get_or-set_ne, All-get_or, All-set, length-set,
}
use blyt.Prelude.Bits.{set_bit, clear_bit, bit_laws}
use blyt.Prelude.Bytes.{IsByte}
use blyt.State.{BufferCtx, slot_bit, mark_slot, unmark_slot, slot_is_allocated, slot_in_range}
use blyt.State.Valid.{IsValidBuffer}

module _ (bits : List ℕ) (size : length bits ≡ 16) (bytes : All IsByte bits) where
  slot_byte-IsByte : (s : ℕ) → get_or bits (s / 8) 0 < 256
  slot_byte-IsByte s = All-get_or IsByte bits (s / 8) 0 bytes (omega arith)

  slot_bit-set :
      (s j : ℕ)
      → s < 128
      → j < 128
      → slot_bit (set bits (s / 8) (set_bit (get_or bits (s / 8) 0) (s % 8))) j
        ≡ (if s == j then 1 else slot_bit bits j)
  unfolding slot_bit
  slot_bit-set s j hs hj = ground (
    arith,
    size,
    get_or-set_self bits (s / 8) (set_bit (get_or bits (s / 8) 0) (s % 8)) 0,
    get_or-set_ne bits (s / 8) (j / 8) (set_bit (get_or bits (s / 8) 0) (s % 8)) 0,
    bit_laws (get_or bits (s / 8) 0) (s % 8) (j % 8) (slot_byte-IsByte s) (omega arith)
        (omega arith),
  )

  slot_bit-clear :
      (s j : ℕ)
      → s < 128
      → j < 128
      → slot_bit (set bits (s / 8) (clear_bit (get_or bits (s / 8) 0) (s % 8))) j
        ≡ (if s == j then 0 else slot_bit bits j)
  unfolding slot_bit
  slot_bit-clear s j hs hj = ground (
    arith,
    size,
    get_or-set_self bits (s / 8) (clear_bit (get_or bits (s / 8) 0) (s % 8)) 0,
    get_or-set_ne bits (s / 8) (j / 8) (clear_bit (get_or bits (s / 8) 0) (s % 8)) 0,
    bit_laws (get_or bits (s / 8) 0) (s % 8) (j % 8) (slot_byte-IsByte s) (omega arith)
        (omega arith),
  )

  pub slot_bit-le : (s : ℕ) → slot_bit bits s ≤ 1
  unfolding slot_bit
  slot_bit-le s =
      (bit_laws (get_or bits (s / 8) 0) (s % 8) 0 (slot_byte-IsByte s) (omega arith)
        (omega arith)).test-le

  set_bit-IsByte : (s : ℕ) → set_bit (get_or bits (s / 8) 0) (s % 8) < 256
  set_bit-IsByte s =
      (bit_laws (get_or bits (s / 8) 0) (s % 8) 0 (slot_byte-IsByte s) (omega arith)
        (omega arith)).set-lt

  clear_bit-IsByte : (s : ℕ) → clear_bit (get_or bits (s / 8) 0) (s % 8) < 256
  clear_bit-IsByte s =
      (bit_laws (get_or bits (s / 8) 0) (s % 8) 0 (slot_byte-IsByte s) (omega arith)
        (omega arith)).clear-lt

module _ (bc : BufferCtx) (v : IsValidBuffer bc) (s : ℕ) (hs : s < 128) where
  pub mark_slot-IsValidBuffer : IsValidBuffer (mark_slot bc s)
  unfolding mark_slot
  mark_slot-IsValidBuffer = record {
    bitset_size = length-set bc.slot_bitset (s / 8) _ ∙ v.bitset_size;
    bitset_bytes =
        All-set IsByte bc.slot_bitset (s / 8) _ v.bitset_bytes
          (set_bit-IsByte bc.slot_bitset v.bitset_size v.bitset_bytes s);
    gens_size = v.gens_size;
    gens = v.gens;
    fields_fit = v.fields_fit;
  }

  pub unmark_slot-IsValidBuffer : IsValidBuffer (unmark_slot bc s)
  unfolding unmark_slot
  unmark_slot-IsValidBuffer = record {
    bitset_size = length-set bc.slot_bitset (s / 8) _ ∙ v.bitset_size;
    bitset_bytes =
        All-set IsByte bc.slot_bitset (s / 8) _ v.bitset_bytes
          (clear_bit-IsByte bc.slot_bitset v.bitset_size v.bitset_bytes s);
    gens_size = v.gens_size;
    gens = v.gens;
    fields_fit = v.fields_fit;
  }

  -- Marking a slot below the count allocates that slot and no other.
  pub slot_is_allocated-mark :
      (j : ℕ)
      → s < bc.count
      → slot_is_allocated (mark_slot bc s) j ≡ (if s == j then true else slot_is_allocated bc j)
  unfolding slot_is_allocated slot_in_range mark_slot
  slot_is_allocated-mark j inside =
      ground (arith, slot_bit-set bc.slot_bitset v.bitset_size v.bitset_bytes s j)

  pub slot_is_allocated-unmark :
      (j : ℕ)
      → slot_is_allocated (unmark_slot bc s) j ≡ (if s == j then false else slot_is_allocated bc j)
  unfolding slot_is_allocated slot_in_range unmark_slot
  slot_is_allocated-unmark j =
      ground (arith, slot_bit-clear bc.slot_bitset v.bitset_size v.bitset_bytes s j)
