-- ===== src/State/Init.antt =====
-- `blyt_state_ctx_init` of runtime/host/src/libblyt/state_buffer.c. The FlatBuffers reader of
-- `.cart.layouts` is generated: what it reads is a `CartLayouts`, an absent table being none.
-- `calloc_ok` is whether an array of a size can be had.
pub mod Establishes
use blyt.Prelude.{
  ℕ, zero, suc, ◌+◌, ◌*◌, ◌≡◌, Bool, true, false, not, ◌&&◌, ◌||◌, Option, none, some, List, [],
  ◌∷◌, ltb, leb, ◌==◌, if◌then◌else◌, length, replicate, set,
}
use blyt.State.{Field, BufferCtx, StateCtx, field_sizeof, max_buffers, max_fields, max_slots}
use blyt.State.Snapshot.{state_ctx_destroy}

pub record FieldDecl : Type 0 where
  pub type_tag : ℕ
  pub field_name : List ℕ

pub record RecordDecl : Type 0 where
  pub name : List ℕ
  pub fields : List (Option FieldDecl)

pub record BufferDecl : Type 0 where
  pub name : Option (List ℕ)
  pub count : ℕ
  pub record_name : List ℕ

pub record CartLayouts : Type 0 where
  pub schema_hash : ℕ
  pub buffers : List (Option BufferDecl)
  pub records : List (Option RecordDecl)

-- The result codes 0, -1 and -2.
pub data InitCode : Type 0 where
  init_ok no_layouts bad_layouts : InitCode

abbrev pub no_field : Field
no_field = record { type_tag = 0; field_name = []; field_data = [] }

abbrev pub no_buffer : BufferCtx
no_buffer = record {
  buf_id = 0;
  count = 0;
  fields = [];
  slot_bitset = replicate 16 0;
  slot_gens = replicate max_slots 0;
  schema_hash = 0;
  name = none;
}

-- The context after `memset`.
abbrev pub no_ctx : StateCtx
no_ctx = record { n_buffers = 0; buffers = replicate max_buffers no_buffer }

-- `strcmp` of two names.
unfoldable pub same_name : List ℕ → List ℕ → Bool
same_name [] [] = true
same_name [] (y ∷ ys) = false
same_name (x ∷ xs) [] = false
same_name (x ∷ xs) (y ∷ ys) = (x == y) && same_name xs ys

unfoldable pub find_record : List (Option RecordDecl) → List ℕ → Option RecordDecl
find_record [] name = none
find_record (none ∷ rs) name = find_record rs name
find_record (some r ∷ rs) name =
    let rest = find_record rs name in if same_name r.name name then some r else rest

module _ (calloc_ok : ℕ → Bool) where
  -- Whether every field has its array, and the fields; the ones after a failure stay empty.
  unfoldable pub init_fields : ℕ → List (Option FieldDecl) → Bool × List Field
  init_fields count [] = (true, [])
  init_fields count (none ∷ fs) = (false, replicate (suc (length fs)) no_field)
  init_fields count (some f ∷ fs) =
      let total = count * field_sizeof f.type_tag in
      let (ok, rest) = init_fields count fs in
      if calloc_ok total
      then (
        ok,
        record { type_tag = f.type_tag; field_name = f.field_name; field_data = replicate total 0 }
            ∷ rest,
      )
      else (
        false,
        record { type_tag = f.type_tag; field_name = f.field_name; field_data = [] }
            ∷ replicate (length fs) no_field,
      )

  -- The buffer at position `bi`: whether it could be made, and what stands there.
  unfoldable pub init_buffer : CartLayouts → ℕ → BufferDecl → Bool × BufferCtx
  init_buffer layouts bi d =
      let bc = record no_buffer {
        buf_id = bi + 1;
        count = d.count;
        schema_hash = layouts.schema_hash;
        name = d.name;
      } in
      elim (find_record layouts.records d.record_name) [
        | none ↦ (false, bc)
        | some r ↦
            if (length r.fields == 0) || ltb max_fields (length r.fields)
            then (false, bc)
            else let (ok, fs) = init_fields d.count r.fields in
              if ok
              then (true, record bc { fields = fs; slot_gens = replicate max_slots 1 })
              else (false, record bc { fields = fs })
      ]

  -- The loop at position `bi`; a missing declaration leaves its position empty.
  unfoldable pub init_buffers :
      CartLayouts → List (Option BufferDecl) → ℕ → StateCtx → InitCode × StateCtx
  init_buffers layouts [] bi ctx = (init_ok, ctx)
  init_buffers layouts (none ∷ ds) bi ctx =
      let rest = init_buffers layouts ds (bi + 1) ctx in
      if leb max_buffers bi then (init_ok, ctx) else rest
  init_buffers layouts (some d ∷ ds) bi ctx =
      let (made, bc) = init_buffer layouts bi d in
      let ctx' = record ctx { buffers = set ctx.buffers bi bc } in
      let rest = init_buffers layouts ds (bi + 1) (record ctx' { n_buffers = ctx.n_buffers + 1 }) in
      if leb max_buffers bi
      then (init_ok, ctx)
      else if made
      then rest
      else (bad_layouts, state_ctx_destroy ctx')

  -- The section's bytes, if there is one, and the reader of its tables behind the 8-byte preamble.
  unfoldable pub state_ctx_init :
      Option (List ℕ) → (List ℕ → Option CartLayouts) → InitCode × StateCtx
  state_ctx_init none as_root = (no_layouts, no_ctx)
  state_ctx_init (some sect) as_root =
      if leb (length sect) 8 then (bad_layouts, no_ctx) else elim (as_root sect) [
        | none ↦ (bad_layouts, no_ctx)
        | some layouts ↦ init_buffers layouts layouts.buffers 0 no_ctx
      ]
