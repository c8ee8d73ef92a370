-- ===== src/State/Restore.antt =====
-- Restoring a snapshot gives the context back, whatever ran in between.
use blyt.Prelude.{
  ℕ, zero, suc, ◌+◌, ◌*◌, ◌≡◌, refl, ◌∙◌, sym, ap, ap₂, inl, inr, Bool, some, List, [], ◌∷◌, map,
  arith, length, length-map, false, drop, take, take_all, Option-cases, All, ◌==◌, not, ◌||◌,
}
use blyt.Prelude.Bytes.{read_at, write_at, write_all}
use blyt.State.{Field, BufferCtx, StateCtx, field_sizeof}
use blyt.State.Valid.{FieldFits, IsValid, IsValidBuffer}
use blyt.State.Layout.{field_layout, buffer_layout, SameLayout, Below, IsValid-Below}
use blyt.State.Snapshot.{
  SnapField, SnapBuffer, Snapshot, data_size, snapshot_field, snapshot_fields, snapshot_buffers,
  state_ctx_snapshot, restore_fields, restore_buffer, restore_buffers, state_ctx_restore_snapshot,
}

restore_field-eq :
    (count : ℕ) (f' f : Field)
    → FieldFits count f
    → field_layout f' ≡ field_layout f
    → record f' {
      field_data =
          write_at f'.field_data 0
            (read_at (read_at f.field_data 0 (data_size count f)) 0 (data_size count f'));
    }
      ≡ f
unfolding data_size
restore_field-eq count f' f fits e =
    let tag : f'.type_tag ≡ f.type_tag = ap (λ l. l.type_tag) e in
    let name : f'.field_name ≡ f.field_name = ap (λ l. l.field_name) e in
    let size : length f'.field_data ≡ length f.field_data = ap (λ l. l.size) e in
    let whole : take (count * field_sizeof f.type_tag) f.field_data ≡ f.field_data =
      take_all _ f.field_data fits.0 in
    let bytes : write_at f'.field_data 0
          (read_at (read_at f.field_data 0 (data_size count f)) 0 (data_size count f'))
        ≡ f.field_data =
      rw (tag, whole, whole) (write_all f'.field_data f.field_data size) in
    λ i. record { type_tag = tag i; field_name = name i; field_data = bytes i }

restore_fields-eq :
    (ok : ℕ → Bool) (count fi : ℕ) (fs' fs : List Field) {ss : List SnapField}
    → All (FieldFits count) fs
    → map field_layout fs' ≡ map field_layout fs
    → snapshot_fields ok count fi fs ≡ some ss
    → restore_fields count fs' ss ≡ fs
unfolding snapshot_fields restore_fields
restore_fields-eq ok count fi [] [] fits e h = refl
restore_fields-eq ok count fi [] (f ∷ fs) fits e h = absurd (cc)
restore_fields-eq ok count fi (f' ∷ fs') [] fits e h = absurd (cc)
restore_fields-eq ok count fi (f' ∷ fs') (f ∷ fs) {ss} fits e h =
    elim (Option-cases (snapshot_fields ok count (fi + 1) fs)) [
      | inl none_left ↦ absurd (ground arith)
      | inr (rest, more) ↦
          let made : ss ≡ snapshot_field count f ∷ rest = ground (arith, h, more) in
          rw made (
            ap₂ ◌∷◌ (unfold snapshot_field in restore_field-eq count f' f fits.0 (cc))
              (restore_fields-eq ok count (fi + 1) fs' fs fits.1 (cc) more))
    ]

length-snapshot_fields :
    (ok : ℕ → Bool) (count fi : ℕ) (fs : List Field) {ss : List SnapField}
    → snapshot_fields ok count fi fs ≡ some ss
    → length ss ≡ length fs
unfolding snapshot_fields
length-snapshot_fields ok count fi [] h = ground arith
length-snapshot_fields ok count fi (f ∷ fs) {ss} h =
    elim (Option-cases (snapshot_fields ok count (fi + 1) fs)) [
      | inl none_left ↦ absurd (ground arith)
      | inr (rest, more) ↦ ground (arith, length-snapshot_fields ok count (fi + 1) fs more, h, more)
    ]

restore_buffer-eq :
    (ok : ℕ → Bool) (bc' bc : BufferCtx) {ss : List SnapField}
    → IsValidBuffer bc
    → buffer_layout bc' ≡ buffer_layout bc
    → snapshot_fields ok bc.count 0 bc.fields ≡ some ss
    → restore_buffer bc' (record {
      count = bc.count;
      fields = ss;
      slot_bitset = bc.slot_bitset;
      slot_gens = bc.slot_gens;
    })
      ≡ bc
unfolding restore_buffer
restore_buffer-eq ok bc' bc {ss} v e h =
    let count : bc'.count ≡ bc.count = ap (λ l. l.count) e in
    let layouts : map field_layout bc'.fields ≡ map field_layout bc.fields = ap (λ l. l.fields) e in
    let sizes : length bc'.fields ≡ length bc.fields =
      sym (length-map bc'.fields field_layout)
      ∙ ap length layouts
      ∙ length-map bc.fields field_layout in
    let fields = restore_fields-eq ok bc.count 0 bc'.fields bc.fields v.fields_fit layouts h in
    let pass : (not (length ss == length bc'.fields) || not (bc.count == bc'.count)) ≡ false =
      ground (arith, count, sizes, length-snapshot_fields ok bc.count 0 bc.fields h) in
    rw (pass, count)
      (λ i. record {
        buf_id = ap (λ l. l.buf_id) e i;
        count = bc.count;
        fields = fields i;
        slot_bitset = bc.slot_bitset;
        slot_gens = bc.slot_gens;
        schema_hash = ap (λ l. l.schema_hash) e i;
        name = ap (λ l. l.name) e i;
      })

restore_buffers-eq :
    (ok : ℕ → ℕ → Bool) (bi n : ℕ) (bcs' bcs : List BufferCtx) {ss : List SnapBuffer}
    → Below IsValidBuffer n bcs
    → map buffer_layout bcs' ≡ map buffer_layout bcs
    → drop n bcs' ≡ drop n bcs
    → snapshot_buffers ok bi n bcs ≡ some ss
    → restore_buffers n bcs' ss ≡ bcs
unfolding snapshot_buffers restore_buffers
restore_buffers-eq ok bi zero bcs' bcs v e d h = d
restore_buffers-eq ok bi (suc n) [] [] v e d h = refl
restore_buffers-eq ok bi (suc n) [] (bc ∷ bcs) v e d h = absurd (cc)
restore_buffers-eq ok bi (suc n) (bc' ∷ bcs') [] v e d h = absurd (cc)
restore_buffers-eq ok bi (suc n) (bc' ∷ bcs') (bc ∷ bcs) {ss} v e d h =
    elim (Option-cases (snapshot_fields (ok bi) bc.count 0 bc.fields)) [
      | inl missing ↦ absurd (ground arith)
      | inr (fields, first) ↦ elim (Option-cases (snapshot_buffers ok (bi + 1) n bcs)) [
        | inl missing ↦ absurd (ground arith)
        | inr (rest, more) ↦
            let made : ss
                ≡ record {
                  count = bc.count;
                  fields = fields;
                  slot_bitset = bc.slot_bitset;
                  slot_gens = bc.slot_gens;
                }
                  ∷ rest =
              ground (arith, h, first, more) in
            rw made (
              ap₂ ◌∷◌ (restore_buffer-eq (ok bi) bc' bc v.0 (cc) first)
                (restore_buffers-eq ok (bi + 1) n bcs' bcs v.1 (cc) d more))
      ]
    ]

-- Restoring a snapshot of a valid context into any context of the same layout gives that context.
pub restore-snapshot :
    (calloc_ok : Bool) (malloc_ok : ℕ → ℕ → Bool) (ctx ctx' : StateCtx) {snap : Snapshot}
    → IsValid ctx
    → SameLayout ctx' ctx
    → state_ctx_snapshot calloc_ok malloc_ok ctx ≡ some snap
    → state_ctx_restore_snapshot ctx' (some snap) ≡ ctx
unfolding state_ctx_snapshot state_ctx_restore_snapshot
restore-snapshot calloc_ok malloc_ok ctx ctx' {snap} v same h =
    elim (Option-cases (snapshot_buffers malloc_ok 0 ctx.n_buffers ctx.buffers)) [
      | inl missing ↦ absurd (ground arith)
      | inr (ss, copied) ↦
          let made : snap ≡ record { n_buffers = ctx.n_buffers; buffers = ss } =
            ground (arith, h, copied) in
          let pass : not (ctx.n_buffers == ctx'.n_buffers) ≡ false = ground (arith, same.same_n) in
          let bufs : restore_buffers ctx'.n_buffers ctx'.buffers ss ≡ ctx.buffers = rw same.same_n (
            restore_buffers-eq malloc_ok 0 ctx.n_buffers ctx'.buffers ctx.buffers
              (IsValid-Below ctx v) same.same_buffers (rw same.same_n at same.same_rest) copied) in
          rw (made, pass) (λ i. record { n_buffers = same.same_n i; buffers = bufs i })
    ]
