-- ===== src/State/Snapshot.antt =====
-- `blyt_state_ctx_snapshot`, `blyt_state_ctx_restore_snapshot`, `blyt_state_ctx_zero_data` and
-- `blyt_state_ctx_destroy`. What the allocator answers is a parameter: `calloc_ok` for the snapshot
-- itself, `malloc_ok bi fi` for the copy of field `fi` of buffer `bi`. The arrays of a live context
-- and of a complete snapshot are never NULL, so the tests for that in the source never fire; a
-- freed array is the empty one.
use blyt.Prelude.{
  ℕ, zero, suc, ◌+◌, ◌*◌, Bool, not, ◌||◌, Option, none, some, List, [], ◌∷◌, map, ◌==◌,
  if◌then◌else◌, length, replicate, ◌>>=◌, ◌>>◌, guard,
}
use blyt.Prelude.Bytes.{read_at, write_at}
use blyt.State.{Field, BufferCtx, StateCtx, field_sizeof, max_slots}

pub record SnapField : Type 0 where
  pub type_tag : ℕ
  pub field_data : List ℕ

pub record SnapBuffer : Type 0 where
  pub count : ℕ
  pub fields : List SnapField
  pub slot_bitset : List ℕ
  pub slot_gens : List ℕ

-- `struct blyt_state_snapshot`
pub record Snapshot : Type 0 where
  pub n_buffers : ℕ
  pub buffers : List SnapBuffer

-- `sz` of a field: the bytes of all its slots.
unfoldable pub data_size : ℕ → Field → ℕ
data_size count f = count * field_sizeof f.type_tag

unfoldable pub snapshot_field : ℕ → Field → SnapField
snapshot_field count f = record {
  type_tag = f.type_tag;
  field_data = read_at f.field_data 0 (data_size count f);
}

unfoldable pub snapshot_fields : (ℕ → Bool) → ℕ → ℕ → List Field → Option (List SnapField)
snapshot_fields malloc_ok count fi [] = some []
snapshot_fields malloc_ok count fi (f ∷ fs) = do
  guard (malloc_ok fi)
  rest ← snapshot_fields malloc_ok count (fi + 1) fs
  some (snapshot_field count f ∷ rest)

unfoldable pub snapshot_buffers : (ℕ → ℕ → Bool) → ℕ → ℕ → List BufferCtx → Option (List SnapBuffer)
snapshot_buffers malloc_ok bi zero bcs = some []
snapshot_buffers malloc_ok bi (suc n) [] = some []
snapshot_buffers malloc_ok bi (suc n) (bc ∷ bcs) = do
  fields ← snapshot_fields (malloc_ok bi) bc.count 0 bc.fields
  rest ← snapshot_buffers malloc_ok (bi + 1) n bcs
  some (
      record {
        count = bc.count;
        fields = fields;
        slot_bitset = bc.slot_bitset;
        slot_gens = bc.slot_gens;
      }
      ∷ rest)

unfoldable pub state_ctx_snapshot : Bool → (ℕ → ℕ → Bool) → StateCtx → Option Snapshot
state_ctx_snapshot calloc_ok malloc_ok ctx = do
  guard calloc_ok
  buffers ← snapshot_buffers malloc_ok 0 ctx.n_buffers ctx.buffers
  some (record { n_buffers = ctx.n_buffers; buffers = buffers })

-- The copy back over the fields; both lists have `n_fields` entries.
unfoldable pub restore_fields : ℕ → List Field → List SnapField → List Field
restore_fields count [] ss = []
restore_fields count (f ∷ fs) [] = f ∷ fs
restore_fields count (f ∷ fs) (s ∷ ss) =
    record f { field_data = write_at f.field_data 0 (read_at s.field_data 0 (data_size count f)) }
    ∷ restore_fields count fs ss

unfoldable pub restore_buffer : BufferCtx → SnapBuffer → BufferCtx
restore_buffer bc s =
    if not (length s.fields == length bc.fields) || not (s.count == bc.count)
    then bc
    else record bc {
      slot_bitset = s.slot_bitset;
      slot_gens = s.slot_gens;
      fields = restore_fields bc.count bc.fields s.fields;
    }

unfoldable pub restore_buffers : ℕ → List BufferCtx → List SnapBuffer → List BufferCtx
restore_buffers zero bcs ss = bcs
restore_buffers (suc n) [] ss = []
restore_buffers (suc n) (bc ∷ bcs) [] = bc ∷ bcs
restore_buffers (suc n) (bc ∷ bcs) (s ∷ ss) = restore_buffer bc s ∷ restore_buffers n bcs ss

-- `none` is a NULL snapshot.
unfoldable pub state_ctx_restore_snapshot : StateCtx → Option Snapshot → StateCtx
state_ctx_restore_snapshot ctx none = ctx
state_ctx_restore_snapshot ctx (some snap) =
    if not (snap.n_buffers == ctx.n_buffers)
    then ctx
    else record ctx { buffers = restore_buffers ctx.n_buffers ctx.buffers snap.buffers }

unfoldable pub map_first : ℕ → (BufferCtx → BufferCtx) → List BufferCtx → List BufferCtx
map_first zero g bcs = bcs
map_first (suc n) g [] = []
map_first (suc n) g (bc ∷ bcs) = g bc ∷ map_first n g bcs

unfoldable pub zero_field : ℕ → Field → Field
zero_field count f = record f {
  field_data = write_at f.field_data 0 (replicate (data_size count f) 0);
}

unfoldable pub zero_buffer : BufferCtx → BufferCtx
zero_buffer bc = record bc {
  slot_bitset = replicate 16 0;
  slot_gens = replicate max_slots 1;
  fields = map (zero_field bc.count) bc.fields;
}

unfoldable pub state_ctx_zero_data : StateCtx → StateCtx
state_ctx_zero_data ctx = record ctx { buffers = map_first ctx.n_buffers zero_buffer ctx.buffers }

unfoldable pub free_fields : BufferCtx → BufferCtx
free_fields bc = record bc {
  fields = map {A = Field} (λ f. record f { field_data = [] }) bc.fields;
}

unfoldable pub state_ctx_destroy : StateCtx → StateCtx
state_ctx_destroy ctx = record {
  n_buffers = 0;
  buffers = map_first ctx.n_buffers free_fields ctx.buffers;
}
