-- ===== src/Save/Section.antt =====
-- One CART section: the bytes that the writer appends, and what the reader makes of them.
use blyt.Prelude.{
  ℕ, ◌+◌, ◌-◌, ◌*◌, ◌%◌, ◌^◌, ◌<◌, ◌≡◌, refl, ◌∙◌, sym, ap, false, some, List, [], ◌∷◌, ◌++◌, arith,
  ◌==◌, length, take_all, length-append, Option-cases, bind-eq-some, inl, inr,
}
use mathlib.Core.List.{append_assoc, append-nil}
use blyt.Prelude.Bytes.{le_bytes, read_at}
use blyt.Save.{
  FieldView, BufferView, blys_sect_cart, field_bytes, add_field_sizes, buffer_payload_size,
  sink_some, write_fields, write_buffer, skip_bytes, slot_bitset_bytes,
}
use blyt.Save.File.{file_sink, file_source, sink-append, skip_bytes-append}

-- The bytes of the fields, of a section's body, and of a section, in front of others.
unfoldable pub fields_onto : List FieldView → List ℕ → List ℕ
fields_onto [] rest = rest
fields_onto (f ∷ fs) rest = f.contents ++ fields_onto fs rest

unfoldable pub body_onto : BufferView → List ℕ → List ℕ
body_onto b rest = fields_onto b.fields (b.slot_bitset ++ (b.slot_gens ++ rest))

unfoldable pub section_onto : BufferView → List ℕ → List ℕ
section_onto b rest =
    (blys_sect_cart ++ le_bytes 4 (buffer_payload_size b))
    ++ (le_bytes 4 (length b.name) ++ (b.name ++ body_onto b rest))

-- The fields have arrays of the size that is written.
abbrev pub FieldsSized : ℕ → List FieldView → Type 0
FieldsSized count [] = Unit
FieldsSized count (f ∷ fs) = (length f.contents ≡ field_bytes count f) × FieldsSized count fs

unfoldable pub fields_size : List FieldView → ℕ
fields_size [] = 0
fields_size (f ∷ fs) = length f.contents + fields_size fs

-- A buffer that can be saved and loaded: its arrays have their sizes, its name is shorter than 256
-- bytes, and its section's size fits 32 bits.
pub record IsSavable (b : BufferView) : Type 0 where
  pub sized : FieldsSized b.count b.fields
  pub bitset_size : length b.slot_bitset ≡ 16
  pub gens_size : length b.slot_gens ≡ 256
  pub short_name : length b.name < 256
  pub fits : 4 + length b.name + fields_size b.fields + 16 + 256 < 2 ^ 32

module _ (room : ℕ) where
  sink_some-append :
      (f xs : List ℕ) (n : ℕ) {f' : List ℕ}
      → length xs ≡ n
      → sink_some (file_sink room) f xs n ≡ some f'
      → f' ≡ f ++ xs
  unfolding sink_some
  sink_some-append f [] n {f'} e h = ground (arith, h, e, append-nil f)
  sink_some-append f (x ∷ xs) n {f'} e h =
      let more : (n == 0) ≡ false = ground (arith, e) in
      let whole : read_at (x ∷ xs) 0 n ≡ x ∷ xs = take_all n (x ∷ xs) e in
      sink-append room f (x ∷ xs) (rw (more, whole) at h)

  write_fields-append :
      (count : ℕ) (fs : List FieldView) (f rest : List ℕ) {f' : List ℕ}
      → FieldsSized count fs
      → write_fields (file_sink room) count fs f ≡ some f'
      → f' ++ rest ≡ f ++ fields_onto fs rest
  unfolding write_fields fields_onto
  write_fields-append count [] f rest sized h = ground (arith, h)
  write_fields-append count (v ∷ fs) f rest {f'} sized h =
      elim (Option-cases (sink_some (file_sink room) f v.contents (field_bytes count v))) [
        | inl failed ↦ absurd (ground (arith, failed, h))
        | inr (g, one) ↦
            write_fields-append count fs g rest sized.1 (ground (arith, one, h))
            ∙ ap (λ t. t ++ fields_onto fs rest) (sink_some-append f v.contents _ sized.0 one)
            ∙ append_assoc f v.contents (fields_onto fs rest)
      ]

  -- What the writer of one buffer appends.
  pub write_buffer-section :
      (b : BufferView) (f rest : List ℕ) {f' : List ℕ}
      → IsSavable b
      → write_buffer (file_sink room) b f ≡ some f'
      → f' ++ rest ≡ f ++ section_onto b rest
  unfolding write_buffer section_onto body_onto
  write_buffer-section b f rest {f'} ok h =
      let tag = blys_sect_cart ++ le_bytes 4 (buffer_payload_size b) in
      let nl = le_bytes 4 (length b.name) in
      let (f1, e1, h1) = bind-eq-some (file_sink room f tag) _ h in
      let (f2, e2, h2) = bind-eq-some (file_sink room f1 nl) _ h1 in
      let (f3, e3, h3) = bind-eq-some (sink_some (file_sink room) f2 b.name (length b.name)) _ h2 in
      let (f4, e4, h4) = bind-eq-some (write_fields (file_sink room) b.count b.fields f3) _ h3 in
      let (f5, e5, h5) =
        bind-eq-some (file_sink room f4 (read_at b.slot_bitset 0 slot_bitset_bytes)) _ h4 in
      let q5 : f5 ≡ f4 ++ b.slot_bitset =
        sink-append room f4 _ e5 ∙ ap (λ t. f4 ++ t) (take_all 16 b.slot_bitset ok.bitset_size) in
      let q6 : f' ≡ f5 ++ b.slot_gens =
        sink-append room f5 _ h5 ∙ ap (λ t. f5 ++ t) (take_all 256 b.slot_gens ok.gens_size) in
      let tail_ = b.slot_bitset ++ (b.slot_gens ++ rest) in
      ap (λ t. t ++ rest) q6
      ∙ append_assoc f5 b.slot_gens rest
      ∙ ap (λ t. t ++ (b.slot_gens ++ rest)) q5
      ∙ append_assoc f4 b.slot_bitset (b.slot_gens ++ rest)
      ∙ write_fields-append b.count b.fields f3 tail_ ok.sized e4
      ∙ ap (λ t. t ++ fields_onto b.fields tail_)
          (sink_some-append f2 b.name (length b.name) refl e3)
      ∙ append_assoc f2 b.name (fields_onto b.fields tail_)
      ∙ ap (λ t. t ++ (b.name ++ fields_onto b.fields tail_)) (sink-append room f1 nl e2)
      ∙ append_assoc f1 nl (b.name ++ fields_onto b.fields tail_)
      ∙ ap (λ t. t ++ (nl ++ (b.name ++ fields_onto b.fields tail_))) (sink-append room f tag e1)
      ∙ append_assoc f tag (nl ++ (b.name ++ fields_onto b.fields tail_))

add_field_sizes-sum :
    (count payload : ℕ) (fs : List FieldView)
    → FieldsSized count fs
    → payload + fields_size fs < 2 ^ 32
    → add_field_sizes count payload fs ≡ payload + fields_size fs
unfolding add_field_sizes fields_size
add_field_sizes-sum count payload [] sized h = omega arith
add_field_sizes-sum count payload (f ∷ fs) sized h =
    ground (
      arith,
      sized,
      add_field_sizes-sum count ((payload + field_bytes count f) % 2 ^ 32) fs sized.1,
    )

-- The size in the section's head is the length of what follows it.
pub payload-size :
    (b : BufferView)
    → IsSavable b
    → buffer_payload_size b ≡ 4 + length b.name + fields_size b.fields + 16 + 256
unfolding buffer_payload_size
payload-size b ok =
    ground
      (arith, ok.fits, add_field_sizes-sum b.count ((4 + length b.name) % 2 ^ 32) b.fields ok.sized)

length-fields_onto :
    (fs : List FieldView) (rest : List ℕ)
    → length (fields_onto fs rest) ≡ fields_size fs + length rest
unfolding fields_onto fields_size
length-fields_onto [] rest = omega arith
length-fields_onto (f ∷ fs) rest =
    omega (arith, length-append f.contents (fields_onto fs rest), length-fields_onto fs rest)

fields_onto-append :
    (fs : List FieldView) (xs rest : List ℕ)
    → fields_onto fs (xs ++ rest) ≡ fields_onto fs xs ++ rest
unfolding fields_onto
fields_onto-append [] xs rest = refl
fields_onto-append (f ∷ fs) xs rest =
    ap (λ t. f.contents ++ t) (fields_onto-append fs xs rest)
    ∙ sym (append_assoc f.contents (fields_onto fs xs) rest)

body_onto-append : (b : BufferView) (rest : List ℕ) → body_onto b rest ≡ body_onto b [] ++ rest
unfolding body_onto
body_onto-append b rest =
    ap (λ t. fields_onto b.fields (b.slot_bitset ++ t))
      (ap (λ t. t ++ rest) (sym (append-nil b.slot_gens)))
    ∙ ap (λ t. fields_onto b.fields t) (sym (append_assoc b.slot_bitset (b.slot_gens ++ []) rest))
    ∙ fields_onto-append b.fields (b.slot_bitset ++ (b.slot_gens ++ [])) rest

length-body_onto :
    (b : BufferView) → IsSavable b → length (body_onto b []) ≡ fields_size b.fields + 16 + 256
unfolding body_onto
length-body_onto b ok = omega (
  arith,
  length-fields_onto b.fields (b.slot_bitset ++ (b.slot_gens ++ [])),
  length-append b.slot_bitset (b.slot_gens ++ []),
  length-append b.slot_gens [],
  ok.bitset_size,
  ok.gens_size,
)

-- Skipping the body by the size in the section's head.
pub skip_bytes-body :
    (b : BufferView) (rest : List ℕ)
    → IsSavable b
    → skip_bytes file_source
        (body_onto b rest)
        ((buffer_payload_size b + 2 * 2 ^ 32 - 4 - length b.name) % 2 ^ 32)
      ≡ some rest
skip_bytes-body b rest ok =
    let size = payload-size b ok in
    let fits = ok.fits in
    ap
      (λ t.
        skip_bytes file_source t
          ((buffer_payload_size b + 2 * 2 ^ 32 - 4 - length b.name) % 2 ^ 32))
      (body_onto-append b rest)
    ∙ skip_bytes-append (body_onto b []) rest _ (omega (arith, size, fits, length-body_onto b ok))
