-- ===== src/Save.antt =====
-- runtime/shared/blyt_blys.c: the BLYS save format, over a byte sink and a byte source.
-- A sink takes a state and bytes, and fails or gives the next state; a source is asked for a number
-- of bytes. What a failed read leaves in the buffer that it was to fill is taken to be what was
-- there before.
mod File
mod Section
mod RoundTrip
pub mod Session
mod Tests
use blyt.Prelude.{
  ℕ, zero, suc, ◌+◌, ◌-◌, ◌*◌, ◌%◌, ◌^◌, Bool, true, false, not, ◌&&◌, ◌||◌, Option, none, some,
  List, [], ◌∷◌, ◌++◌, map, ltb, leb, ◌==◌, if◌then◌else◌, length, get_elem?, get_or, set, drop,
  ◌>>=◌, min,
}
use blyt.Prelude.Bytes.{le_bytes, le_value, read_at, write_at}

-- "BLYS" and "CART".
abbrev pub blys_magic : List ℕ
blys_magic = b'B' ∷ b'L' ∷ b'Y' ∷ b'S' ∷ []

abbrev pub blys_sect_cart : List ℕ
blys_sect_cart = b'C' ∷ b'A' ∷ b'R' ∷ b'T' ∷ []

abbrev pub format_version_major : ℕ
format_version_major = 1

abbrev pub format_version_minor : ℕ
format_version_minor = 1

abbrev pub slot_bitset_bytes : ℕ
slot_bitset_bytes = 16

abbrev pub slot_gens_bytes : ℕ
slot_gens_bytes = 256

unfoldable pub blys_field_width : ℕ → ℕ
blys_field_width tag =
    if (tag == 0) || (tag == 1) || (tag == 7)
    then 1
    else if (tag == 2) || (tag == 3)
    then 2
    else if tag == 8
    then 8
    else 4

-- One of the `n_fields` entries of `field_types` and `field_data`.
pub record FieldView : Type 0 where
  pub type_tag : ℕ
  pub contents : List ℕ

-- `blys_buffer_t`; `name_len` is the length of the name.
pub record BufferView : Type 0 where
  pub name : List ℕ
  pub count : ℕ
  pub fields : List FieldView
  pub slot_bitset : List ℕ
  pub slot_gens : List ℕ

-- `blys_header_t`
pub record SaveHeader : Type 0 where
  pub schema_hash : ℕ
  pub save_version : ℕ

-- `count * blys_field_width(type)` in a `uint32_t`.
unfoldable pub field_bytes : ℕ → FieldView → ℕ
field_bytes count f = count * blys_field_width f.type_tag % 2 ^ 32

unfoldable pub add_field_sizes : ℕ → ℕ → List FieldView → ℕ
add_field_sizes count payload [] = payload
add_field_sizes count payload (f ∷ fs) =
    add_field_sizes count ((payload + field_bytes count f) % 2 ^ 32) fs

unfoldable pub buffer_payload_size : BufferView → ℕ
buffer_payload_size buf =
    let payload = add_field_sizes buf.count ((4 + length buf.name) % 2 ^ 32) buf.fields in
    (payload + slot_bitset_bytes + slot_gens_bytes) % 2 ^ 32

-- The 20 bytes of the header.
unfoldable pub header_bytes : SaveHeader → List ℕ
header_bytes hdr =
    blys_magic
    ++ (le_bytes 2 format_version_major
        ++ (le_bytes 2 format_version_minor
            ++ (le_bytes 8 hdr.schema_hash ++ le_bytes 4 hdr.save_version)))

module _ {S : Type 0} (sink : S → List ℕ → Option S) where
  -- A write that the source guards by `if (len && …)`.
  unfoldable pub sink_some : S → List ℕ → ℕ → Option S
  sink_some s src len = if len == 0 then some s else sink s (read_at src 0 len)

  unfoldable pub write_fields : ℕ → List FieldView → S → Option S
  write_fields count [] s = some s
  write_fields count (f ∷ fs) s = do
    s' ← sink_some s f.contents (field_bytes count f)
    write_fields count fs s'

  unfoldable pub write_buffer : BufferView → S → Option S
  write_buffer b s = do
    s ← sink s (blys_sect_cart ++ le_bytes 4 (buffer_payload_size b))
    s ← sink s (le_bytes 4 (length b.name))
    s ← sink_some s b.name (length b.name)
    s ← write_fields b.count b.fields s
    s ← sink s (read_at b.slot_bitset 0 slot_bitset_bytes)
    sink s (read_at b.slot_gens 0 slot_gens_bytes)

  unfoldable pub write_buffers : List BufferView → S → Option S
  write_buffers [] s = some s
  write_buffers (b ∷ bs) s = do s' ← write_buffer b s; write_buffers bs s'

  -- `none` is BLYS_ERR_IO.
  unfoldable pub blys_write : SaveHeader → List BufferView → S → Option S
  blys_write hdr bufs s = do s' ← sink s (header_bytes hdr); write_buffers bufs s'

-- What a source answers: the bytes (0), a clean end (1), or an error.
pub data ReadResult (S : Type 0) : Type 0 where
  got : List ℕ → S → ReadResult S
  eof : ReadResult S
  fail : ReadResult S

pub data Code : Type 0 where
  blys_ok err_io err_schema out_of_fuel : Code

-- The return code, the buffers as they were filled, and `*out_save_version`.
pub record Loaded : Type 0 where
  pub code : Code
  pub bufs : List BufferView
  pub save_version : ℕ

unfoldable pub bytes_eq : List ℕ → List ℕ → Bool
bytes_eq [] [] = true
bytes_eq [] (y ∷ ys) = false
bytes_eq (x ∷ xs) [] = false
bytes_eq (x ∷ xs) (y ∷ ys) = (x == y) && bytes_eq xs ys

-- The first buffer with the name, and its position.
unfoldable pub find_view : List BufferView → List ℕ → ℕ → Option (ℕ × BufferView)
find_view [] name i = none
find_view (b ∷ bs) name i =
    let rest = find_view bs name (i + 1) in if bytes_eq b.name name then some (i, b) else rest

module _ {S : Type 0} (source : S → ℕ → ReadResult S) where
  -- The bytes, or none where the source reports an end or an error.
  unfoldable pub source_exact : S → ℕ → Option (List ℕ × S)
  source_exact s n = elim (source s n) [
    | got bytes s' ↦ some (bytes, s')
    | eof ↦ none
    | fail ↦ none
  ]

  -- 256 bytes at a time; each round takes one byte at least, so `n` rounds are enough.
  unfoldable pub skip_loop : ℕ → S → ℕ → Option S
  skip_loop zero s n = if n == 0 then some s else none
  skip_loop (suc fuel) s n = if n == 0 then some s else elim (source_exact s (min n 256)) [
    | none ↦ none
    | some (_, s') ↦ skip_loop fuel s' (n - min n 256)
  ]

  unfoldable pub skip_bytes : S → ℕ → Option S
  skip_bytes s n = skip_loop n s n

  -- The fields as far as they were filled, and the source, or none on an error.
  unfoldable pub fill_fields : ℕ → List FieldView → S → List FieldView × Option S
  fill_fields count [] s = ([], some s)
  fill_fields count (f ∷ fs) s =
      if field_bytes count f == 0
      then (let (fs', r) = fill_fields count fs s in (f ∷ fs', r))
      else elim (source_exact s (field_bytes count f)) [
        | none ↦ (f ∷ fs, none)
        | some (d, s') ↦
            let (fs', r) = fill_fields count fs s' in
            (record f { contents = write_at f.contents 0 d } ∷ fs', r)
      ]

  unfoldable pub fill_gens : BufferView → Option S → BufferView × Option S
  fill_gens b none = (b, none)
  fill_gens b (some s) = elim (source_exact s slot_gens_bytes) [
    | none ↦ (b, none)
    | some (d, s') ↦ (record b { slot_gens = write_at b.slot_gens 0 d }, some s')
  ]

  unfoldable pub fill_bitset : BufferView → Option S → BufferView × Option S
  fill_bitset b none = (b, none)
  fill_bitset b (some s) = elim (source_exact s slot_bitset_bytes) [
    | none ↦ (b, none)
    | some (d, s') ↦ fill_gens (record b { slot_bitset = write_at b.slot_bitset 0 d }) (some s')
  ]

  unfoldable pub fill_buffer : BufferView → S → BufferView × Option S
  fill_buffer b s =
      let (fs, r) = fill_fields b.count b.fields s in fill_bitset (record b { fields = fs }) r

  -- One section after its 8 bytes: the buffers, and the source, or none on an error.
  unfoldable pub read_named : List BufferView → ℕ → List ℕ → S → List BufferView × Option S
  read_named bufs payload name s = elim (find_view bufs name 0) [
    | none ↦ (bufs, skip_bytes s ((payload + 2 * 2 ^ 32 - 4 - length name) % 2 ^ 32))
    | some (i, b) ↦ let (b', r) = fill_buffer b s in (set bufs i b', r)
  ]

  unfoldable pub read_cart : List BufferView → ℕ → S → List BufferView × Option S
  read_cart bufs payload s = elim (source_exact s 4) [
    | none ↦ (bufs, none)
    | some (nl, s1) ↦
        if leb 256 (le_value nl)
        then (bufs, none)
        else if le_value nl == 0
        then read_named bufs payload [] s1
        else elim (source_exact s1 (le_value nl)) [
          | none ↦ (bufs, none)
          | some (name, s2) ↦ read_named bufs payload name s2
        ]
  ]

  unfoldable pub read_section : List BufferView → List ℕ → S → List BufferView × Option S
  read_section bufs sect s =
      let payload = le_value (read_at sect 4 4) in
      if bytes_eq (read_at sect 0 4) blys_sect_cart
      then read_cart bufs payload s
      else (bufs, skip_bytes s payload)

  unfoldable pub read_sections : ℕ → List BufferView → S → Code × List BufferView
  read_sections zero bufs s = (out_of_fuel, bufs)
  read_sections (suc fuel) bufs s = elim (source s 8) [
    | eof ↦ (blys_ok, bufs)
    | fail ↦ (err_io, bufs)
    | got sect s1 ↦
        let (bufs', r) = read_section bufs sect s1 in
        elim r [ none ↦ (err_io, bufs') | some s2 ↦ read_sections fuel bufs' s2 ]
  ]

  -- The save version of the header, and the source behind it; version 0 before minor 1.
  unfoldable pub read_version : ℕ → S → Option (ℕ × S)
  read_version minor s =
      if leb 1 minor then (do (sv, s') ← source_exact s 4; some (le_value sv, s')) else some (0, s)

  unfoldable pub blys_read : ℕ → ℕ → List BufferView → S → Loaded
  blys_read fuel expect_schema_hash bufs s = elim (source_exact s 16) [
    | none ↦ record { code = err_io; bufs = bufs; save_version = 0 }
    | some (h, s1) ↦
        if not (bytes_eq (read_at h 0 4) blys_magic)
        then record { code = err_io; bufs = bufs; save_version = 0 }
        else elim (read_version (le_value (read_at h 6 2)) s1) [
          | none ↦ record { code = err_io; bufs = bufs; save_version = 0 }
          | some (version, s2) ↦
              if not (le_value (read_at h 8 8) == expect_schema_hash)
              then record { code = err_schema; bufs = bufs; save_version = version }
              else let (code, bufs') = read_sections fuel bufs s2 in
                record { code = code; bufs = bufs'; save_version = version }
        ]
  ]
