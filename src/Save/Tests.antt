-- ===== src/Save/Tests.antt =====
-- Runs of the theorems on a save of two buffers, one of which the reader knows.
use blyt.Prelude.{ℕ, ◌≡◌, refl, Option, none, some, List, [], ◌∷◌, All, arith, replicate}
use blyt.Prelude.Bytes.{le_bytes}
use blyt.Save.{
  BufferView, SaveHeader, blys_ok, err_schema, blys_write, blys_read, find_view, bytes_eq,
  sink_some, write_fields, write_buffer, write_buffers, header_bytes, field_bytes, blys_field_width,
  add_field_sizes, buffer_payload_size,
}
use blyt.Save.File.{file_sink, file_source}
use blyt.Save.Section.{IsSavable, fields_size}
use blyt.Save.RoundTrip.{Takes, Absorbs, absorbed, unknown, known, read-write, read-write_ne}

abbrev save_room : ℕ
save_room = 4096

abbrev view : List ℕ → ℕ → List ℕ → BufferView
view name tag contents = record {
  name = name;
  count = 2;
  fields = record { type_tag = tag; contents = contents } ∷ [];
  slot_bitset = 1 ∷ replicate 15 0;
  slot_gens = replicate 256 1;
}

abbrev hero : BufferView
hero = view (b'h' ∷ []) 3 (1 ∷ 2 ∷ 3 ∷ 4 ∷ [])

abbrev gone : BufferView
gone = view (b'g' ∷ []) 1 (8 ∷ 9 ∷ [])

-- The same buffer before the load, with other contents.
abbrev fresh_hero : BufferView
fresh_hero = view (b'h' ∷ []) 3 (0 ∷ 0 ∷ 0 ∷ 0 ∷ [])

abbrev saved : List BufferView
saved = gone ∷ hero ∷ []

abbrev header : SaveHeader
header = record { schema_hash = 11; save_version = 2 }

abbrev or_empty : Option (List ℕ) → List ℕ
or_empty none = []
or_empty (some f) = f

abbrev save_file : List ℕ
save_file = or_empty (blys_write (file_sink save_room) header saved [])

saved-written : blys_write (file_sink save_room) header saved [] ≡ some save_file
unfolding blys_write write_buffers write_buffer write_fields sink_some file_sink header_bytes
    field_bytes blys_field_width add_field_sizes buffer_payload_size le_bytes
saved-written = refl

saved-IsSavable : All IsSavable saved
unfolding field_bytes blys_field_width fields_size
saved-IsSavable = (
  record {
    sized = (refl, tt);
    bitset_size = refl;
    gens_size = refl;
    short_name = omega arith;
    fits = omega arith;
  },
  (
    record {
      sized = (refl, tt);
      bitset_size = refl;
      gens_size = refl;
      short_name = omega arith;
      fits = omega arith;
    },
    tt,
  ),
)

hero-Takes : Takes fresh_hero hero
unfolding field_bytes blys_field_width
hero-Takes = record {
  same_name = refl;
  same_count = refl;
  same_shape = (refl, refl, tt);
  bitset_length = refl;
  gens_length = refl;
}

gone-unknown : find_view (fresh_hero ∷ []) gone.name 0 ≡ none
unfolding find_view bytes_eq
gone-unknown = refl

hero-known : find_view (fresh_hero ∷ []) hero.name 0 ≡ some (0, fresh_hero)
unfolding find_view bytes_eq
hero-known = refl

saved-Absorbs : Absorbs (fresh_hero ∷ []) saved (hero ∷ [])
saved-Absorbs = unknown gone gone-unknown (known hero fresh_hero 0 hero-known hero-Takes absorbed)

read-write_example :
    blys_read file_source 3 11 (fresh_hero ∷ []) save_file
    ≡ record { code = blys_ok; bufs = hero ∷ []; save_version = 2 }
read-write_example =
    read-write save_room header saved save_file 3 (fresh_hero ∷ []) (hero ∷ []) (omega arith)
      (omega arith) saved-IsSavable saved-Absorbs (omega arith) saved-written

read-write_ne_example :
    blys_read file_source 3 12 (fresh_hero ∷ []) save_file
    ≡ record { code = err_schema; bufs = fresh_hero ∷ []; save_version = 2 }
read-write_ne_example =
    read-write_ne save_room header saved save_file 3 (fresh_hero ∷ []) 12 (omega arith)
      (omega arith) saved-IsSavable (λ e. absurd (omega (arith, e))) saved-written
