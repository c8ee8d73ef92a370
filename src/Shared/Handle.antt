-- ===== src/Shared/Handle.antt =====
-- runtime/shared/blyt_handle.h: the tagged 32-bit handles.
use blyt.Prelude.{
  ℕ, ◌+◌, ◌*◌, ◌/◌, ◌%◌, ◌^◌, ◌<◌, ◌≡◌, ◌∙◌, Bool, true, false, arith, ◌==◌, bit_and, bit_or,
}
use blyt.Prelude.Bits.{and_mask, or_fields}

abbrev pub kind_none : ℕ
kind_none = 0

abbrev pub kind_resource : ℕ
kind_resource = 1

abbrev pub kind_surface : ℕ
kind_surface = 2

abbrev pub kind_lockview : ℕ
kind_lockview = 3

-- `x << k` of a `uint32_t`.
abbrev pub shl32 : ℕ → ℕ → ℕ
shl32 x k = x * 2 ^ k % 2 ^ 32

-- `BLYT_RESOURCE_ENCODE`
unfoldable pub resource_encode : ℕ → ℕ → ℕ
resource_encode id prov =
    bit_or (bit_or (shl32 kind_resource 29) (shl32 (bit_and prov 1) 24)) (bit_and id 0x00FF_FFFF)

unfoldable pub handle_kind : ℕ → ℕ
handle_kind h = h / 2 ^ 29

unfoldable pub resource_decode_id : ℕ → ℕ
resource_decode_id h = bit_and h 0x00FF_FFFF

unfoldable pub resource_decode_provenance : ℕ → ℕ
resource_decode_provenance h = bit_and (h / 2 ^ 24) 1

unfoldable pub handle_is_resource : ℕ → Bool
unfolding handle_kind
handle_is_resource h = handle_kind h == kind_resource

-- `BLYT_DYN_ENCODE`
unfoldable pub dyn_encode : ℕ → ℕ → ℕ → ℕ
dyn_encode kind gen index =
    bit_or (bit_or (shl32 kind 29) (shl32 (bit_and gen 0x0001_FFFF) 12)) (bit_and index 0x0000_0FFF)

unfoldable pub surface_encode : ℕ → ℕ → ℕ
unfolding dyn_encode
surface_encode gen index = dyn_encode kind_surface gen index

unfoldable pub lockview_encode : ℕ → ℕ → ℕ
unfolding dyn_encode
lockview_encode gen index = dyn_encode kind_lockview gen index

unfoldable pub dyn_decode_index : ℕ → ℕ
dyn_decode_index h = bit_and h 0x0000_0FFF

unfoldable pub dyn_decode_gen : ℕ → ℕ
dyn_decode_gen h = bit_and (h / 2 ^ 12) 0x0001_FFFF

unfoldable pub handle_is_surface : ℕ → Bool
unfolding handle_kind
handle_is_surface h = handle_kind h == kind_surface

unfoldable pub handle_is_lockview : ℕ → Bool
unfolding handle_kind
handle_is_lockview h = handle_kind h == kind_lockview

-- `BLYT_SCREEN`
unfoldable pub screen : ℕ
unfolding dyn_encode
screen = dyn_encode kind_surface 0 0

-- The fields of a resource constant lie side by side.
resource_encode-sum :
    (id prov : ℕ) → resource_encode id prov ≡ 2 ^ 29 + (prov % 2) * 2 ^ 24 + id % 2 ^ 24
unfolding resource_encode
resource_encode-sum id prov = ground (
  arith,
  and_mask 1 prov,
  and_mask 24 id,
  or_fields 29 1 (prov % 2 * 2 ^ 24),
  or_fields 24 (32 + prov % 2) (id % 2 ^ 24),
)

dyn_encode-sum :
    (kind gen index : ℕ)
    → kind < 8
    → dyn_encode kind gen index ≡ kind * 2 ^ 29 + (gen % 2 ^ 17) * 2 ^ 12 + index % 2 ^ 12
unfolding dyn_encode
dyn_encode-sum kind gen index h = ground (
  arith,
  and_mask 17 gen,
  and_mask 12 index,
  or_fields 29 kind (gen % 2 ^ 17 * 2 ^ 12),
  or_fields 12 (kind * 2 ^ 17 + gen % 2 ^ 17) (index % 2 ^ 12),
)

-- A resource constant decodes to its id and provenance, cut to the widths of their fields, and is
-- classified as a resource, never as a surface or a lock view.
resource-roundtrip :
    (id prov : ℕ)
    → (resource_decode_id (resource_encode id prov) ≡ id % 2 ^ 24)
      × (resource_decode_provenance (resource_encode id prov) ≡ prov % 2)
      × (handle_is_resource (resource_encode id prov) ≡ true)
      × (handle_is_surface (resource_encode id prov) ≡ false)
      × (handle_is_lockview (resource_encode id prov) ≡ false)
unfolding resource_decode_id resource_decode_provenance handle_is_resource handle_is_surface
    handle_is_lockview
resource-roundtrip id prov =
    let e = resource_encode-sum id prov in
    let h = resource_encode id prov in
    (
      and_mask 24 h ∙ omega (arith, e),
      and_mask 1 (h / 2 ^ 24) ∙ omega (arith, e),
      ground (arith, e),
      ground (arith, e),
      ground (arith, e),
    )

module _ (kind gen index : ℕ) (small : kind < 8) where
  decode_gen-dyn : dyn_decode_gen (dyn_encode kind gen index) ≡ gen % 2 ^ 17
  unfolding dyn_decode_gen
  decode_gen-dyn =
      and_mask 17 (dyn_encode kind gen index / 2 ^ 12)
      ∙ omega (arith, dyn_encode-sum kind gen index small)

  decode_index-dyn : dyn_decode_index (dyn_encode kind gen index) ≡ index % 2 ^ 12
  unfolding dyn_decode_index
  decode_index-dyn =
      and_mask 12 (dyn_encode kind gen index) ∙ omega (arith, dyn_encode-sum kind gen index small)

  kind-dyn : handle_kind (dyn_encode kind gen index) ≡ kind
  unfolding handle_kind
  kind-dyn = omega (arith, dyn_encode-sum kind gen index small)

-- A surface handle and a lock view both decode to their generation and slot, cut to 17 and 12
-- bits. Each is classified by its own kind and by no other.
pub dynamic-roundtrip :
    (gen index : ℕ)
    → let s = surface_encode gen index in
      let l = lockview_encode gen index in
      (dyn_decode_gen s ≡ gen % 2 ^ 17)
      × (dyn_decode_index s ≡ index % 2 ^ 12)
      × (dyn_decode_gen l ≡ gen % 2 ^ 17)
      × (dyn_decode_index l ≡ index % 2 ^ 12)
      × (handle_is_surface s ≡ true)
      × (handle_is_lockview s ≡ false)
      × (handle_is_resource s ≡ false)
      × (handle_is_lockview l ≡ true)
      × (handle_is_surface l ≡ false)
      × (handle_is_resource l ≡ false)
unfolding surface_encode lockview_encode handle_is_resource handle_is_surface handle_is_lockview
dynamic-roundtrip gen index = (
  decode_gen-dyn 2 gen index (omega arith),
  decode_index-dyn 2 gen index (omega arith),
  decode_gen-dyn 3 gen index (omega arith),
  decode_index-dyn 3 gen index (omega arith),
  rw (kind-dyn 2 gen index (omega arith)),
  rw (kind-dyn 2 gen index (omega arith)),
  rw (kind-dyn 2 gen index (omega arith)),
  rw (kind-dyn 3 gen index (omega arith)),
  rw (kind-dyn 3 gen index (omega arith)),
  rw (kind-dyn 3 gen index (omega arith)),
)
