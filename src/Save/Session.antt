-- ===== src/Save/Session.antt =====
-- runtime/host/src/libblyt/save.c: saving and loading a state context. The file system is a
-- parameter: whether the directory and the path can be made and the file opened, the room on the
-- disk, and what the file holds.
use blyt.Prelude.{
  ℕ, Bool, not, Option, none, some, List, [], ◌∷◌, ltb, if◌then◌else◌, map, take, ◌++◌,
}
use blyt.State.{Field, BufferCtx, StateCtx}
use blyt.Save.{FieldView, BufferView, Code, err_io, blys_write, blys_read}
use blyt.Save.File.{file_sink, file_source}
use blyt.Prelude.Bytes.{le_bytes, le_value}

abbrev pub field_view : Field → FieldView
field_view f = record { type_tag = f.type_tag; contents = f.field_data }

-- The generations as the array's bytes, and back.
unfoldable pub gens_bytes : List ℕ → List ℕ
gens_bytes [] = []
gens_bytes (g ∷ gs) = le_bytes 2 g ++ gens_bytes gs

unfoldable pub bytes_gens : List ℕ → List ℕ
bytes_gens (a ∷ b ∷ rest) = le_value (a ∷ b ∷ []) ∷ bytes_gens rest
bytes_gens _ = []

unfoldable pub buffer_view : BufferCtx → BufferView
buffer_view bc = record {
  name = elim bc.name [ none ↦ [] | some name ↦ name ];
  count = bc.count;
  fields = map field_view bc.fields;
  slot_bitset = bc.slot_bitset;
  slot_gens = gens_bytes bc.slot_gens;
}

unfoldable pub fill_views : StateCtx → List BufferView
fill_views state = map buffer_view (take state.n_buffers state.buffers)

-- What the reader wrote through the views.
unfoldable pub put_contents : List Field → List FieldView → List Field
put_contents [] vs = []
put_contents (f ∷ fs) [] = f ∷ fs
put_contents (f ∷ fs) (v ∷ vs) = record f { field_data = v.contents } ∷ put_contents fs vs

unfoldable pub put_view : BufferCtx → BufferView → BufferCtx
put_view bc v = record bc {
  fields = put_contents bc.fields v.fields;
  slot_bitset = v.slot_bitset;
  slot_gens = bytes_gens v.slot_gens;
}

unfoldable pub put_views : List BufferCtx → List BufferView → List BufferCtx
put_views [] vs = []
put_views (bc ∷ bcs) [] = bc ∷ bcs
put_views (bc ∷ bcs) (v ∷ vs) = put_view bc v ∷ put_views bcs vs

-- The hash that all buffers share.
unfoldable pub current_hash : StateCtx → ℕ
current_hash state = elim state.buffers [
  | [] ↦ 0
  | bc ∷ bcs ↦ if ltb 0 state.n_buffers then bc.schema_hash else 0
]

-- `opened` is whether the names are there, the directory and the path could be made and the file
-- opened, and `room` how many bytes `fwrite` takes before it fails; none is -1, else the bytes that
-- were handed to the stream, where the source returns 0. The stream is buffered and the results of
-- `fflush`, `fsync` and `fclose` are ignored, so what of them reaches the disk is not modelled.
unfoldable pub save_write : Bool → ℕ → StateCtx → ℕ → Option (List ℕ)
save_write opened room state save_version =
    if not opened
    then none
    else blys_write (file_sink room)
        (record { schema_hash = current_hash state; save_version = save_version })
        (fill_views state) []

-- `file` is none where a name is missing or the path cannot be opened. The code, the state and
-- `*out_save_version`.
unfoldable pub save_read : ℕ → Option (List ℕ) → StateCtx → Code × StateCtx × ℕ
save_read fuel none state = (err_io, state, 0)
save_read fuel (some file) state =
    let r = blys_read file_source fuel (current_hash state) (fill_views state) file in
    (r.code, record state { buffers = put_views state.buffers r.bufs }, r.save_version)
