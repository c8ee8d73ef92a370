-- ===== src/State/Access.antt =====
-- `blyt_state_get`, `blyt_state_set` and their 64-bit forms: what is written is read back, and
-- nothing else changes.
use blyt.Prelude.{
  ℕ, ◌+◌, ◌-◌, ◌*◌, ◌%◌, ◌^◌, ◌≤◌, ◌<◌, ◌≡◌, refl, ◌≢◌, ◌∙◌, ◌⊎◌, inl, inr, Bool, ap, subst, true,
  false, Option, none, some, get_elem?, arith, ◌==◌, if◌then◌else◌, Bool-cases, All-get_elem?,
  All-set, length-set, get_elem?-set_self, get_elem?-set_ne, lt_of_get_elem?, get_elem?-some, not,
  ◌&&◌, sym, ◌>>=◌, ◌>>◌, guard, Option-cases,
}
use native.Mathlib.Decide.{dec_lt, ℕ_discrete}
use blyt.Prelude.Bytes.{
  le_bytes, le_value, read_at, write_at, le_value-le_bytes_mod, length-le_bytes, read_at-write_at,
  read_at-write_at_apart, length-write_at, write_at-IsByte, le_bytes-IsByte,
}
use blyt.Shared.FpCanon.{canon_f64, canon_f64-lt}
use blyt.State.{
  Field, BufferCtx, StateCtx, type_f64, field_sizeof, find_buffer, put_buffer, locate, locate_in,
  load_field, store_field, put_field, canonical, state_get, state_set, state_get64, state_set64,
  slot_is_allocated, slot_in_range,
}
use blyt.State.Valid.{
  FieldFits, IsValidBuffer, IsValid, find_buffer-put_buffer, put_buffer-IsValid, Located,
  locate-Located, Located-locate, allocated_range,
}

element_fits : (i n w : ℕ) → i < n → i * w + w ≤ n * w
element_fits i n w h = grind arith

elements_apart : (i j w : ℕ) → i ≢ j → (j * w + w ≤ i * w) ⊎ (i * w + w ≤ j * w)
elements_apart i j w ne = elim (dec_lt i j) [
  | yes h ↦ inr (element_fits i j w h)
  | no h ↦ inl (element_fits j i w (omega arith))
]

module _ (count : ℕ) (f : Field) (fits : FieldFits count f) where
  pub store_field-FieldFits : (slot bits : ℕ) → FieldFits count (store_field f slot bits)
  unfolding store_field
  store_field-FieldFits slot bits = (
    length-write_at f.field_data _ _ ∙ fits.0,
    write_at-IsByte f.field_data _ _ fits.1 (le_bytes-IsByte (field_sizeof f.type_tag) bits),
  )

  pub load-store :
      (slot bits : ℕ)
      → slot < count
      → load_field (store_field f slot bits) slot ≡ bits % 256 ^ field_sizeof f.type_tag
  unfolding load_field store_field
  load-store slot bits h =
      let w = field_sizeof f.type_tag in
      let size = length-le_bytes w bits in
      let inside = element_fits slot count w h in
      ap le_value (
        subst
          (λ k.
            read_at (write_at f.field_data (slot * w) (le_bytes w bits)) (slot * w) k
            ≡ le_bytes w bits)
          size
          (read_at-write_at f.field_data (slot * w) (le_bytes w bits)
            (omega (arith, size, inside, fits.0))))
      ∙ le_value-le_bytes_mod w bits

  tag-store_field : (slot bits : ℕ) → (store_field f slot bits).type_tag ≡ f.type_tag
  unfolding store_field
  tag-store_field slot bits = refl

  pub load-store_apart :
      (slot other bits : ℕ)
      → slot ≢ other
      → load_field (store_field f slot bits) other ≡ load_field f other
  unfolding load_field store_field
  load-store_apart slot other bits ne =
      let w = field_sizeof f.type_tag in
      ap le_value (
        read_at-write_at_apart f.field_data (slot * w) (le_bytes w bits) (other * w) w
          (omega (arith, length-le_bytes w bits, elements_apart slot other w ne)))

-- Storing an element of a field keeps the buffer valid, and its slots allocated as they were.
pub put_field-IsValidBuffer :
    (bc : BufferCtx) (field : ℕ) (f : Field)
    → IsValidBuffer bc
    → FieldFits bc.count f
    → IsValidBuffer (put_field bc field f)
unfolding put_field
put_field-IsValidBuffer bc field f v fits = record {
  bitset_size = v.bitset_size;
  bitset_bytes = v.bitset_bytes;
  gens_size = v.gens_size;
  gens = v.gens;
  fields_fit = All-set (FieldFits bc.count) bc.fields (field - 1) f v.fields_fit fits;
}

module _ (bc : BufferCtx) (field slot : ℕ) (g : Field) where
  locate_in-put_field_ne :
      (k : ℕ)
      → 1 ≤ field
      → k ≢ field
      → locate_in (put_field bc field g) slot k ≡ locate_in bc slot k
  unfolding locate_in put_field slot_is_allocated slot_in_range
  locate_in-put_field_ne k pos ne = ground (
    arith,
    length-set bc.fields (field - 1) g,
    get_elem?-set_ne bc.fields {i = field - 1} {j = k - 1} g,
  )

  locate_in-put_field-none :
      locate_in bc slot field ≡ none → locate_in (put_field bc field g) slot field ≡ none
  unfolding locate_in put_field slot_is_allocated slot_in_range
  locate_in-put_field-none h =
      ground (arith, length-set bc.fields (field - 1) g, get_elem?-some bc.fields (field - 1))

  locate_in-put_field-some :
      {f : Field}
      → locate_in bc slot field ≡ some f
      → locate_in (put_field bc field g) slot field ≡ some g
  unfolding locate_in put_field slot_is_allocated slot_in_range
  locate_in-put_field-some {f} h = ground (
    arith,
    length-set bc.fields (field - 1) g,
    lt_of_get_elem? bc.fields (field - 1) {a = f},
    get_elem?-set_self bc.fields (field - 1) g,
  )

-- What an accessor reads from one buffer, for fields whose tag passes the test.
abbrev peek : (ℕ → Bool) → BufferCtx → ℕ → ℕ → Option ℕ
peek test bc slot field = do
  f ← locate_in bc slot field
  guard (test f.type_tag)
  some (load_field f slot)

abbrev is_narrow : ℕ → Bool
is_narrow tag = not (tag == type_f64)

abbrev is_wide : ℕ → Bool
is_wide tag = tag == type_f64

state_get-peek :
    (ctx : StateCtx) (id slot field : ℕ)
    → state_get ctx id slot field ≡ (find_buffer ctx id >>= λ bc. peek is_narrow bc slot field)
unfolding state_get locate
state_get-peek ctx id slot field = ground arith

state_get64-peek :
    (ctx : StateCtx) (id slot field : ℕ)
    → state_get64 ctx id slot field ≡ (find_buffer ctx id >>= λ bc. peek is_wide bc slot field)
unfolding state_get64 locate
state_get64-peek ctx id slot field = ground arith

locate_in-field :
    (bc : BufferCtx) (slot field : ℕ) {g : Field}
    → locate_in bc slot field ≡ some g
    → get_elem? bc.fields (field - 1) ≡ some g
unfolding locate_in
locate_in-field bc slot field e = ground arith

module _ (test : ℕ → Bool) (bc : BufferCtx) (field slot bits : ℕ) {f : Field}
    (fits : FieldFits bc.count f) (pos : 1 ≤ field)
    (at : get_elem? bc.fields (field - 1) ≡ some f) where
  peek-put_field_other :
      (s : ℕ)
      → s ≢ slot
      → peek test (put_field bc field (store_field f slot bits)) s field ≡ peek test bc s field
  peek-put_field_other s ne = elim (Option-cases (locate_in bc s field)) [
    | inl e ↦ rw (e, locate_in-put_field-none bc field s (store_field f slot bits) e)
    | inr (g, e) ↦
        let same : g ≡ f = ground (arith, locate_in-field bc s field e, at) in
        rw (
          e,
          locate_in-put_field-some bc field s (store_field f slot bits) e,
          load-store_apart bc.count f fits slot s bits (λ q. ne (sym q)),
          tag-store_field bc.count f fits slot bits,
          same,
        )
  ]

  peek-put_field :
      (s k : ℕ)
      → (s ≢ slot) ⊎ (k ≢ field)
      → peek test (put_field bc field (store_field f slot bits)) s k ≡ peek test bc s k
  peek-put_field s k apart = elim (ℕ_discrete k field) [
    | yes e ↦ rw e (peek-put_field_other s (ground arith))
    | no ne ↦ rw (locate_in-put_field_ne bc field s (store_field f slot bits) k pos ne)
  ]

-- The context after a store through a located field.
module _ (ctx : StateCtx) (id slot field : ℕ) {bc : BufferCtx} {f : Field}
    (l : Located ctx id slot field bc f) (v : IsValid ctx) (bits : ℕ) where
  stored : StateCtx
  stored = put_buffer ctx id (put_field bc field (store_field f slot bits))

  located_fits : FieldFits bc.count f
  located_fits =
      All-get_elem? (FieldFits bc.count) bc.fields (field - 1) (v.valid id l.found).fields_fit
        l.field_at

  stored-IsValid : IsValid stored
  unfolding stored
  stored-IsValid = put_buffer-IsValid ctx id _ v l.found (
      put_field-IsValidBuffer bc field _ (v.valid id l.found)
        (store_field-FieldFits bc.count f located_fits slot bits))

  found-stored :
      (j : ℕ)
      → find_buffer stored j ≡ (
          if id == j
          then some (put_field bc field (store_field f slot bits))
          else find_buffer ctx j)
  unfolding stored
  found-stored j =
      find_buffer-put_buffer ctx id j (put_field bc field (store_field f slot bits)) l.found

  locate-stored :
      locate stored id slot field
      ≡ some (put_field bc field (store_field f slot bits), store_field f slot bits)
  unfolding put_field slot_is_allocated slot_in_range
  locate-stored = Located-locate stored id slot field (record {
    found = ground (arith, found-stored id);
    live = l.live;
    field_pos = l.field_pos;
    field_at =
        get_elem?-set_self bc.fields (field - 1) _
          (lt_of_get_elem? bc.fields (field - 1) l.field_at);
  })

  -- The element that was stored, and any other.
  get-stored :
      (f.type_tag == type_f64) ≡ false
      → state_get stored id slot field ≡ some (bits % 256 ^ field_sizeof f.type_tag)
  unfolding state_get
  get-stored h = rw locate-stored (
      ground (
        arith,
        tag-store_field bc.count f located_fits slot bits,
        load-store bc.count f located_fits slot bits,
        allocated_range bc slot l.live,
      ))

  bind-stored_apart :
      (test : ℕ → Bool) (j s k : ℕ)
      → (j ≢ id) ⊎ (s ≢ slot) ⊎ (k ≢ field)
      → (find_buffer stored j >>= λ b. peek test b s k)
        ≡ (find_buffer ctx j >>= λ b. peek test b s k)
  bind-stored_apart test j s k apart = elim (Bool-cases (id == j)) [
    | inl same ↦
        let here : find_buffer ctx j ≡ some bc = ground (arith, same, l.found) in
        rw (found-stored j, same, here)
          (peek-put_field test bc field slot bits located_fits l.field_pos l.field_at s k
            (ground arith))
    | inr other ↦ rw (found-stored j, other)
  ]

  get-stored_apart :
      (j s k : ℕ)
      → (j ≢ id) ⊎ (s ≢ slot) ⊎ (k ≢ field)
      → (state_get stored j s k ≡ state_get ctx j s k)
        × (state_get64 stored j s k ≡ state_get64 ctx j s k)
  get-stored_apart j s k apart = (
    state_get-peek stored j s k
        ∙ bind-stored_apart is_narrow j s k apart
        ∙ sym (state_get-peek ctx j s k),
    state_get64-peek stored j s k
        ∙ bind-stored_apart is_wide j s k apart
        ∙ sym (state_get64-peek ctx j s k),
  )

  get64-stored :
      (f.type_tag == type_f64) ≡ true
      → state_get64 stored id slot field ≡ some (bits % 256 ^ field_sizeof f.type_tag)
  unfolding state_get64
  get64-stored h = rw locate-stored (
      ground (
        arith,
        tag-store_field bc.count f located_fits slot bits,
        load-store bc.count f located_fits slot bits,
        allocated_range bc slot l.live,
      ))

whole_word :
    (value tag : ℕ)
    → value < 2 ^ 64
    → tag ≡ type_f64
    → canon_f64 value % 256 ^ field_sizeof tag ≡ canon_f64 value
unfolding field_sizeof
whole_word value tag small wide = rw wide (omega (arith, canon_f64-lt value small))

-- The reads after a store, at any element.
module _ (ctx : StateCtx) (id slot field : ℕ) {bc : BufferCtx} {f : Field}
    (l : Located ctx id slot field bc f) (v : IsValid ctx) (bits j s k : ℕ) where
  abbrev is_here : Bool
  is_here = (j == id) && (s == slot) && (k == field)

  here-or-apart :
      (is_here ≡ true) × (j ≡ id) × (s ≡ slot) × (k ≡ field)
      ⊎ (is_here ≡ false) × ((j ≢ id) ⊎ (s ≢ slot) ⊎ (k ≢ field))
  here-or-apart = elim (ℕ_discrete j id) [
    | yes p ↦ elim (ℕ_discrete s slot) [
      | yes q ↦ elim (ℕ_discrete k field) [
        | yes r ↦ inl (ground arith, p, q, r)
        | no r ↦ inr (ground arith, inr (inr r))
      ]
      | no q ↦ inr (ground arith, inr (inl q))
    ]
    | no p ↦ inr (ground arith, inl p)
  ]

  get-stored_any :
      (f.type_tag == type_f64) ≡ false
      → state_get (stored ctx id slot field l v bits) j s k
        ≡ (if is_here then some (bits % 256 ^ field_sizeof f.type_tag) else state_get ctx j s k)
  get-stored_any h = elim here-or-apart [
    | inl (e, p, q, r) ↦ rw (e, p, q, r) (get-stored ctx id slot field l v bits h)
    | inr (e, apart) ↦ rw e (get-stored_apart ctx id slot field l v bits j s k apart).0
  ]

  get64-stored_any :
      (f.type_tag == type_f64) ≡ true
      → state_get64 (stored ctx id slot field l v bits) j s k
        ≡ (if is_here then some (bits % 256 ^ field_sizeof f.type_tag) else state_get64 ctx j s k)
  get64-stored_any h = elim here-or-apart [
    | inl (e, p, q, r) ↦ rw (e, p, q, r) (get64-stored ctx id slot field l v bits h)
    | inr (e, apart) ↦ rw e (get-stored_apart ctx id slot field l v bits j s k apart).1
  ]

-- A write to an allocated slot of a field that is no f64 succeeds and keeps the context valid.
-- Reading an element `j s k` afterwards returns, if it is the element written, the value, canonical
-- for an f32 and cut to the width of the field; and what it returned before, if it is another.
pub get-set :
    (ctx : StateCtx) (id slot field value type_tag j s k : ℕ) {bc : BufferCtx} {f : Field}
    → IsValid ctx
    → locate ctx id slot field ≡ some (bc, f)
    → f.type_tag ≢ type_f64
    → (ctx' : StateCtx) × (state_set ctx id slot field value type_tag ≡ some ctx')
      × IsValid ctx'
      × (state_get ctx' j s k ≡ (
          if (j == id) && (s == slot) && (k == field)
          then some (canonical f.type_tag value % 256 ^ field_sizeof f.type_tag)
          else state_get ctx j s k))
unfolding state_set stored
get-set ctx id slot field value type_tag j s k {f} v e narrow =
    let l = locate-Located ctx id slot field e in
    let bits = canonical f.type_tag value in
    (
      stored ctx id slot field l v bits,
      ground (arith, e),
      stored-IsValid ctx id slot field l v bits,
      get-stored_any ctx id slot field l v bits j s k (ground arith),
    )

-- The same for the 64-bit accessors on an f64 field, whose 8 bytes hold the whole canonical word.
pub get64-set64 :
    (ctx : StateCtx) (id slot field value j s k : ℕ) {bc : BufferCtx} {f : Field}
    → IsValid ctx
    → value < 2 ^ 64
    → locate ctx id slot field ≡ some (bc, f)
    → f.type_tag ≡ type_f64
    → (ctx' : StateCtx) × (state_set64 ctx id slot field value ≡ some ctx')
      × IsValid ctx'
      × (state_get64 ctx' j s k ≡ (
          if (j == id) && (s == slot) && (k == field)
          then some (canon_f64 value)
          else state_get64 ctx j s k))
unfolding state_set64 stored
get64-set64 ctx id slot field value j s k {f} v small e wide =
    let l = locate-Located ctx id slot field e in
    let bits = canon_f64 value in
    (
      stored ctx id slot field l v bits,
      ground (arith, e),
      stored-IsValid ctx id slot field l v bits,
      ground (
        arith,
        get64-stored_any ctx id slot field l v bits j s k (ground arith),
        whole_word value f.type_tag small wide,
      ),
    )

pub set-IsValid :
    (ctx : StateCtx) (id slot field value tag : ℕ) {ctx' : StateCtx}
    → IsValid ctx
    → state_set ctx id slot field value tag ≡ some ctx'
    → IsValid ctx'
unfolding state_set stored
set-IsValid ctx id slot field value tag v e = elim (Option-cases (locate ctx id slot field)) [
  | inl missing ↦ absurd (ground arith)
  | inr ((bc, f), at) ↦ subst IsValid (ground (arith, at, e)) (
      stored-IsValid ctx id slot field (locate-Located ctx id slot field at) v
        (canonical f.type_tag value))
]

pub set64-IsValid :
    (ctx : StateCtx) (id slot field value : ℕ) {ctx' : StateCtx}
    → IsValid ctx
    → state_set64 ctx id slot field value ≡ some ctx'
    → IsValid ctx'
unfolding state_set64 stored
set64-IsValid ctx id slot field value v e = elim (Option-cases (locate ctx id slot field)) [
  | inl missing ↦ absurd (ground arith)
  | inr ((bc, f), at) ↦
      subst IsValid (ground (arith, at, e))
        (stored-IsValid ctx id slot field (locate-Located ctx id slot field at) v (canon_f64 value))
]
