-- ===== src/Save/RoundTrip.antt =====
-- What is saved is loaded: `blys_read` on the bytes that `blys_write` made.
use blyt.Prelude.{
  ℕ, zero, suc, ◌^◌, ◌<◌, ◌≡◌, ◌≢◌, refl, ◌∙◌, sym, ap, true, false, not, Option, none, some, List,
  [], ◌∷◌, ◌++◌, arith, leb, ◌==◌, if◌then◌else◌, length, All, take_all, Bool-cases, bind-eq-some,
  inl, inr, set,
}
use mathlib.Core.List.{append-nil}
use blyt.Prelude.Bytes.{
  le_bytes, le_value, read_at, write_at, write_all, length-le_bytes, le_value-le_bytes,
}
use blyt.Save.{
  FieldView, BufferView, SaveHeader, blys_ok, err_schema, blys_magic, blys_sect_cart, header_bytes,
  field_bytes, buffer_payload_size, write_buffer, write_buffers, blys_write, format_version_major,
  format_version_minor, source_exact, fill_fields, fill_gens, fill_bitset, fill_buffer, read_named,
  read_cart, read_section, read_sections, read_version, blys_read, bytes_eq, find_view,
  slot_bitset_bytes, slot_gens_bytes,
}
use blyt.Save.File.{file_sink, file_source, sink-append, source-append, source_exact-append}
use blyt.Save.Section.{
  fields_onto, body_onto, section_onto, FieldsSized, IsSavable, write_buffer-section, payload-size,
  skip_bytes-body,
}

-- The fields of the buffer in memory have the sizes and the types of the saved ones.
abbrev pub SameShape : ℕ → List FieldView → List FieldView → Type 0
SameShape count [] [] = Unit
SameShape count [] (v ∷ vs) = ⊥
SameShape count (f ∷ fs) [] = ⊥
SameShape count (f ∷ fs) (v ∷ vs) =
    (f.type_tag ≡ v.type_tag) × (length f.contents ≡ field_bytes count v) × SameShape count fs vs

-- A buffer in memory that takes the saved buffer `v`.
pub record Takes (b v : BufferView) : Type 0 where
  pub same_name : b.name ≡ v.name
  pub same_count : b.count ≡ v.count
  pub same_shape : SameShape v.count b.fields v.fields
  pub bitset_length : length b.slot_bitset ≡ 16
  pub gens_length : length b.slot_gens ≡ 256

-- `bufs'` is what the saved buffers make of `bufs`: one with a known name is replaced, the others
-- are passed over.
pub data Absorbs : List BufferView → List BufferView → List BufferView → Type 0 where
  absorbed : {bufs : List BufferView} → Absorbs bufs [] bufs
  unknown :
      {bufs bufs' vs : List BufferView} (v : BufferView)
      → find_view bufs v.name 0 ≡ none
      → Absorbs bufs vs bufs'
      → Absorbs bufs (v ∷ vs) bufs'
  known :
      {bufs bufs' vs : List BufferView} (v b : BufferView) (i : ℕ)
      → find_view bufs v.name 0 ≡ some (i, b)
      → Takes b v
      → Absorbs (set bufs i v) vs bufs'
      → Absorbs bufs (v ∷ vs) bufs'

nil_of_length : (xs : List ℕ) → length xs ≡ 0 → xs ≡ []
nil_of_length [] e = refl
nil_of_length (x ∷ xs) e = absurd (omega arith)

field_bytes-tag :
    (count : ℕ) (f v : FieldView)
    → f.type_tag ≡ v.type_tag
    → field_bytes count f ≡ field_bytes count v
unfolding field_bytes
field_bytes-tag count f v e = rw (e)

-- A view is its tag and its contents.
view-eq : {f v : FieldView} → f.type_tag ≡ v.type_tag → f.contents ≡ v.contents → f ≡ v
view-eq tag contents = λ i. record { type_tag = tag i; contents = contents i }

fill_fields-onto :
    (count : ℕ) (fs vs : List FieldView) (rest : List ℕ)
    → SameShape count fs vs
    → FieldsSized count vs
    → fill_fields file_source count fs (fields_onto vs rest) ≡ (vs, some rest)
unfolding fill_fields fields_onto
fill_fields-onto count [] [] rest same sized = refl
fill_fields-onto count [] (v ∷ vs) rest same sized = absurd same
fill_fields-onto count (f ∷ fs) [] rest same sized = absurd same
fill_fields-onto count (f ∷ fs) (v ∷ vs) rest same sized =
    let tail_ = fill_fields-onto count fs vs rest same.2 sized.1 in
    let bytes : field_bytes count f ≡ field_bytes count v = field_bytes-tag count f v same.0 in
    elim (Bool-cases (field_bytes count v == 0)) [
      | inl none_ ↦
          let same_contents : f.contents ≡ v.contents =
            nil_of_length f.contents (ground (arith, same.1, none_))
            ∙ sym (nil_of_length v.contents (ground (arith, sized.0, none_))) in
          let empty : v.contents ≡ [] = nil_of_length v.contents (ground (arith, sized.0, none_)) in
          let whole : f ≡ v = view-eq same.0 same_contents in
          rw (bytes, none_, ap (λ t. t ++ fields_onto vs rest) empty, tail_)
            (ap (λ t. (t ∷ vs, some rest)) whole)
      | inr some_bytes ↦
          let more : (field_bytes count f == 0) ≡ false = ground (arith, bytes, some_bytes) in
          let one : source_exact file_source (v.contents ++ fields_onto vs rest)
                (field_bytes count f)
              ≡ some (v.contents, fields_onto vs rest) =
            source_exact-append v.contents (fields_onto vs rest) _ (bytes ∙ sym sized.0) in
          let whole : write_at f.contents 0 v.contents ≡ v.contents =
            write_all _ _ (same.1 ∙ sym sized.0) in
          rw (more, one, tail_, whole, same.0)
    ]

-- A buffer is filled with what was saved.
fill_buffer-body :
    (b v : BufferView) (rest : List ℕ)
    → Takes b v
    → IsSavable v
    → fill_buffer file_source b (body_onto v rest) ≡ (v, some rest)
unfolding fill_buffer fill_bitset fill_gens body_onto
fill_buffer-body b v rest t ok =
    let fields : fill_fields file_source b.count b.fields (body_onto v rest)
        ≡ (v.fields, some (v.slot_bitset ++ (v.slot_gens ++ rest))) =
      ap (λ c. fill_fields file_source c b.fields (body_onto v rest)) t.same_count
      ∙ fill_fields-onto v.count b.fields v.fields (v.slot_bitset ++ (v.slot_gens ++ rest))
          t.same_shape ok.sized in
    let bits =
      source_exact-append v.slot_bitset (v.slot_gens ++ rest) slot_bitset_bytes
        (sym ok.bitset_size) in
    let gens = source_exact-append v.slot_gens rest slot_gens_bytes (sym ok.gens_size) in
    let whole_bits = write_all b.slot_bitset v.slot_bitset (t.bitset_length ∙ sym ok.bitset_size) in
    let whole_gens = write_all b.slot_gens v.slot_gens (t.gens_length ∙ sym ok.gens_size) in
    rw (fields, fill_bitset, bits, fill_gens, gens, whole_bits, whole_gens)
      (λ i. (
        record v { name = t.same_name i; count = t.same_count i; fields = (fields i).0 },
        some rest,
      ))

bytes_eq_refl : (xs : List ℕ) → bytes_eq xs xs ≡ true
unfolding bytes_eq
bytes_eq_refl [] = refl
bytes_eq_refl (x ∷ xs) = ground (arith, bytes_eq_refl xs)

read_section-head :
    (bufs : List BufferView) (xs left : List ℕ)
    → length xs ≡ 4
    → read_section file_source bufs (blys_sect_cart ++ xs) left
      ≡ read_cart file_source bufs (le_value xs) left
unfolding read_section bytes_eq
read_section-head bufs xs left e =
    ap (λ t. read_cart file_source bufs (le_value t) left) (take_all 4 xs e)

-- After the head of a section comes its name.
read_cart-name :
    (bufs : List BufferView) (p : ℕ) (nl name body : List ℕ)
    → length nl ≡ 4
    → le_value nl ≡ length name
    → length name < 256
    → read_cart file_source bufs p (nl ++ (name ++ body)) ≡ read_named file_source bufs p name body
unfolding read_cart
read_cart-name bufs p nl name body e v short =
    let four = source_exact-append nl (name ++ body) 4 (sym e) in
    let named = source_exact-append name body (le_value nl) v in
    let small : leb 256 (le_value nl) ≡ false = ground (arith, short, v) in
    elim (Bool-cases (le_value nl == 0)) [
      | inl none_ ↦
          let empty : name ≡ [] = nil_of_length name (ground (arith, v, none_)) in
          rw (read_cart, four, small, none_)
            (ap (λ t. read_named file_source bufs p [] (t ++ body)) empty
              ∙ ap (λ t. read_named file_source bufs p t body) (sym empty))
      | inr some_ ↦ rw (read_cart, four, small, some_, named)
    ]

read_section-named :
    (bufs : List BufferView) (v : BufferView) (rest : List ℕ)
    → IsSavable v
    → read_section file_source bufs
        (blys_sect_cart ++ le_bytes 4 (buffer_payload_size v))
        (le_bytes 4 (length v.name) ++ (v.name ++ body_onto v rest))
      ≡ read_named file_source bufs (buffer_payload_size v) v.name (body_onto v rest)
read_section-named bufs v rest ok =
    let p = buffer_payload_size v in
    let size = payload-size v ok in
    let fits = ok.fits in
    let short = ok.short_name in
    let left = le_bytes 4 (length v.name) ++ (v.name ++ body_onto v rest) in
    let nl : le_value (le_bytes 4 (length v.name)) ≡ length v.name =
      le_value-le_bytes 4 (length v.name) (omega arith) in
    read_section-head bufs (le_bytes 4 p) left (length-le_bytes 4 p)
    ∙ ap (λ t. read_cart file_source bufs t left)
        (le_value-le_bytes 4 p (omega (arith, size, fits)))
    ∙ read_cart-name bufs p (le_bytes 4 (length v.name)) v.name (body_onto v rest)
        (length-le_bytes 4 _) nl short

-- A saved section is absorbed.
read_sections-section :
    (fuel : ℕ) (bufs bufs' : List BufferView) (v : BufferView) (rest : List ℕ)
    → read_section file_source bufs
        (blys_sect_cart ++ le_bytes 4 (buffer_payload_size v))
        (le_bytes 4 (length v.name) ++ (v.name ++ body_onto v rest))
      ≡ (bufs', some rest)
    → read_sections file_source (suc fuel) bufs (section_onto v rest)
      ≡ read_sections file_source fuel bufs' rest
unfolding read_sections section_onto
read_sections-section fuel bufs bufs' v rest h =
    let head_ = blys_sect_cart ++ le_bytes 4 (buffer_payload_size v) in
    let eight : 8 ≡ length head_ =
      ap (λ t. suc (suc (suc (suc t)))) (sym (length-le_bytes 4 (buffer_payload_size v))) in
    rw
      (
        read_sections,
        source-append head_ (le_bytes 4 (length v.name) ++ (v.name ++ body_onto v rest)) 8 eight,
        h,
      )
      (ap (λ t. read_sections file_source fuel t rest)
        (ap (λ (r : List BufferView × Option (List ℕ)). r.0) h))

read_named-unknown :
    (bufs : List BufferView) (v : BufferView) (rest : List ℕ)
    → IsSavable v
    → find_view bufs v.name 0 ≡ none
    → read_named file_source bufs (buffer_payload_size v) v.name (body_onto v rest)
      ≡ (bufs, some rest)
unfolding read_named
read_named-unknown bufs v rest ok e = rw (read_named, e, skip_bytes-body v rest ok)

read_named-known :
    (bufs : List BufferView) (v b : BufferView) (i : ℕ) (rest : List ℕ)
    → IsSavable v
    → find_view bufs v.name 0 ≡ some (i, b)
    → Takes b v
    → read_named file_source bufs (buffer_payload_size v) v.name (body_onto v rest)
      ≡ (set bufs i v, some rest)
unfolding read_named
read_named-known bufs v b i rest ok e t = rw (read_named, e, fill_buffer-body b v rest t ok)

-- The sections of the saved buffers, in front of others.
sections_onto : List BufferView → List ℕ → List ℕ
sections_onto [] rest = rest
sections_onto (v ∷ vs) rest = section_onto v (sections_onto vs rest)

read_sections-end :
    (fuel : ℕ) (bufs : List BufferView)
    → read_sections file_source (suc fuel) bufs [] ≡ (blys_ok, bufs)
unfolding read_sections file_source
read_sections-end fuel bufs = refl

read_sections-absorb :
    (fuel : ℕ) (vs : List BufferView) {bufs bufs' : List BufferView}
    → All IsSavable vs
    → Absorbs bufs vs bufs'
    → length vs < fuel
    → read_sections file_source fuel bufs (sections_onto vs []) ≡ (blys_ok, bufs')
unfolding sections_onto
read_sections-absorb zero vs ok a enough = absurd (omega arith)
read_sections-absorb (suc fuel) [] ok absorbed enough = read_sections-end fuel _
read_sections-absorb (suc fuel) (v ∷ vs) {bufs} ok (unknown _ e a) enough =
    let rest = sections_onto vs [] in
    read_sections-section fuel bufs bufs v rest
      (read_section-named bufs v rest ok.0 ∙ read_named-unknown bufs v rest ok.0 e)
    ∙ read_sections-absorb fuel vs ok.1 a (omega arith)
read_sections-absorb (suc fuel) (v ∷ vs) {bufs} ok (known _ b i e t a) enough =
    let rest = sections_onto vs [] in
    read_sections-section fuel bufs (set bufs i v) v rest
      (read_section-named bufs v rest ok.0 ∙ read_named-known bufs v b i rest ok.0 e t)
    ∙ read_sections-absorb fuel vs ok.1 a (omega arith)

module _ (room : ℕ) where
  write_buffers-sections :
      (vs : List BufferView) (f : List ℕ) {f' : List ℕ}
      → All IsSavable vs
      → write_buffers (file_sink room) vs f ≡ some f'
      → f' ≡ f ++ sections_onto vs []
  unfolding write_buffers sections_onto
  write_buffers-sections [] f ok h = ground (arith, h, append-nil f)
  write_buffers-sections (v ∷ vs) f {f'} ok h =
      let (g, one, more) = bind-eq-some (write_buffer (file_sink room) v f) _ h in
      write_buffers-sections vs g ok.1 more
      ∙ write_buffer-section room v f (sections_onto vs []) ok.0 one

-- The 16 bytes of the header that stand in every version, and what is read of them.
fixed_header : SaveHeader → List ℕ
fixed_header hdr =
    blys_magic
    ++ (le_bytes 2 format_version_major
        ++ (le_bytes 2 format_version_minor ++ le_bytes 8 hdr.schema_hash))

header-split :
    (hdr : SaveHeader) (rest : List ℕ)
    → header_bytes hdr ++ rest ≡ fixed_header hdr ++ (le_bytes 4 hdr.save_version ++ rest)
unfolding header_bytes fixed_header le_bytes
header-split hdr rest = refl

fixed-bytes :
    (hdr : SaveHeader)
    → (length (fixed_header hdr) ≡ 16)
      × (bytes_eq (read_at (fixed_header hdr) 0 4) blys_magic ≡ true)
      × (le_value (read_at (fixed_header hdr) 6 2) ≡ 1)
      × (read_at (fixed_header hdr) 8 8 ≡ le_bytes 8 hdr.schema_hash)
unfolding fixed_header le_bytes bytes_eq le_value
fixed-bytes hdr = (refl, refl, refl, refl)

read_version-saved :
    (hdr : SaveHeader) (rest : List ℕ)
    → hdr.save_version < 2 ^ 32
    → read_version file_source 1 (le_bytes 4 hdr.save_version ++ rest)
      ≡ some (hdr.save_version, rest)
unfolding read_version
read_version-saved hdr rest h =
    let four =
      source_exact-append (le_bytes 4 hdr.save_version) rest 4
        (sym (length-le_bytes 4 hdr.save_version)) in
    rw (read_version, four, le_value-le_bytes 4 hdr.save_version h)

blys_read-header :
    (hdr : SaveHeader) (fuel : ℕ) (bufs : List BufferView) (rest : List ℕ) (expected : ℕ)
    → hdr.schema_hash < 2 ^ 64
    → hdr.save_version < 2 ^ 32
    → blys_read file_source fuel expected bufs (header_bytes hdr ++ rest) ≡ (
        if not (hdr.schema_hash == expected)
        then record { code = err_schema; bufs = bufs; save_version = hdr.save_version }
        else record {
          code = (read_sections file_source fuel bufs rest).0;
          bufs = (read_sections file_source fuel bufs rest).1;
          save_version = hdr.save_version;
        })
unfolding blys_read
blys_read-header hdr fuel bufs rest expected hash version =
    let (size, magic, minor, h8) = fixed-bytes hdr in
    let whole =
      source_exact-append (fixed_header hdr) (le_bytes 4 hdr.save_version ++ rest) 16 (sym size) in
    let saved = read_version-saved hdr rest version in
    let hash_ : le_value (read_at (fixed_header hdr) 8 8) ≡ hdr.schema_hash =
      ap le_value h8 ∙ le_value-le_bytes 8 hdr.schema_hash hash in
    rw (header-split hdr rest, blys_read, whole, magic, minor, saved, hash_)

-- Saving to a file and loading it again: if the write succeeds, at most `room` bytes long, the
-- buffers that it saved can be saved (IsSavable), they are absorbed by `bufs` to give `bufs'`, the
-- schema hash has 64 bits and the version 32, then the read with that hash succeeds, with `bufs'` and
-- the saved version, at any fuel above the number of buffers.
pub read-write :
    (room : ℕ) (hdr : SaveHeader) (vs : List BufferView) (f : List ℕ) (fuel : ℕ)
    (bufs bufs' : List BufferView)
    → hdr.schema_hash < 2 ^ 64
    → hdr.save_version < 2 ^ 32
    → All IsSavable vs
    → Absorbs bufs vs bufs'
    → length vs < fuel
    → blys_write (file_sink room) hdr vs [] ≡ some f
    → blys_read file_source fuel hdr.schema_hash bufs f
      ≡ record { code = blys_ok; bufs = bufs'; save_version = hdr.save_version }
unfolding blys_write
read-write room hdr vs f fuel bufs bufs' hash version ok a enough h =
    let (g, one, more) = bind-eq-some (file_sink room [] (header_bytes hdr)) _ h in
    let bytes : f ≡ header_bytes hdr ++ sections_onto vs [] =
      write_buffers-sections room vs g ok more
      ∙ ap (λ t. t ++ sections_onto vs []) (sink-append room [] (header_bytes hdr) one) in
    let same : (hdr.schema_hash == hdr.schema_hash) ≡ true = ground arith in
    ap (blys_read file_source fuel hdr.schema_hash bufs) bytes
    ∙ blys_read-header hdr fuel bufs (sections_onto vs []) hdr.schema_hash hash version
    ∙ rw (same, read_sections-absorb fuel vs ok a enough)

-- A save of another schema: if the write succeeds, its schema hash has 64 bits and its version 32, and
-- the hash is not the expected one, then the read reports the schema error, leaves the buffers as
-- they are, and reports the saved version.
pub read-write_ne :
    (room : ℕ) (hdr : SaveHeader) (vs : List BufferView) (f : List ℕ) (fuel : ℕ)
    (bufs : List BufferView) (expected : ℕ)
    → hdr.schema_hash < 2 ^ 64
    → hdr.save_version < 2 ^ 32
    → All IsSavable vs
    → hdr.schema_hash ≢ expected
    → blys_write (file_sink room) hdr vs [] ≡ some f
    → blys_read file_source fuel expected bufs f
      ≡ record { code = err_schema; bufs = bufs; save_version = hdr.save_version }
unfolding blys_write
read-write_ne room hdr vs f fuel bufs expected hash version ok ne h =
    let (g, one, more) = bind-eq-some (file_sink room [] (header_bytes hdr)) _ h in
    let bytes : f ≡ header_bytes hdr ++ sections_onto vs [] =
      write_buffers-sections room vs g ok more
      ∙ ap (λ t. t ++ sections_onto vs []) (sink-append room [] (header_bytes hdr) one) in
    let other : (hdr.schema_hash == expected) ≡ false = ground (arith, ne) in
    ap (blys_read file_source fuel expected bufs) bytes
    ∙ blys_read-header hdr fuel bufs (sections_onto vs []) expected hash version
    ∙ rw other
