-- ===== src/State/Init/Establishes.antt =====
-- A context that `blyt_state_ctx_init` made satisfies the invariant.
use blyt.Prelude.{
  ℕ, suc, ◌+◌, ◌-◌, ◌*◌, ◌<◌, ◌≡◌, ◌≢◌, refl, subst, sym, ap, ◌∙◌, Bool, true, ◌||◌, Option, none,
  some, List, [], ◌∷◌, length, All, arith, ltb, leb, ◌==◌, is_some, Option-cases, Bool-cases, inl,
  inr, get_elem?, set, length-replicate, All-replicate, get_elem?-set_self, get_elem?-set_ne,
  lt_of_get_elem?, length-set,
}
use blyt.Prelude.Bytes.{IsByte}
use blyt.Shared.Gen.{IsGen}
use blyt.State.{BufferCtx, StateCtx, field_sizeof, max_buffers, max_fields}
use blyt.State.Valid.{FieldFits, IsValidBuffer, IsValid, find_buffer-range}
use blyt.State.Init.{
  FieldDecl, BufferDecl, CartLayouts, init_ok, init_fields, init_buffer, init_buffers,
  state_ctx_init, find_record, no_ctx,
}

abbrev pub IsPresent : Option BufferDecl → Type 0
IsPresent d = is_some d ≡ true

module _ (calloc_ok : ℕ → Bool) where
  init_fields-fit :
      (count : ℕ) (fs : List (Option FieldDecl))
      → (init_fields calloc_ok count fs).0 ≡ true
      → All (FieldFits count) (init_fields calloc_ok count fs).1
  unfolding init_fields
  init_fields-fit count [] h = tt
  init_fields-fit count (none ∷ fs) h = absurd (ground (arith, h))
  init_fields-fit count (some f ∷ fs) h =
      let total = count * field_sizeof f.type_tag in
      elim (Bool-cases (calloc_ok total)) [
        | inl had ↦
            rw (init_fields, had)
              (
                (length-replicate total 0, All-replicate IsByte total 0 (omega arith)),
                init_fields-fit count fs (ground (arith, h, had)),
              )
        | inr full ↦ absurd (ground (arith, h, full))
      ]

  init_buffer-IsValid :
      (layouts : CartLayouts) (bi : ℕ) (d : BufferDecl)
      → (init_buffer calloc_ok layouts bi d).0 ≡ true
      → IsValidBuffer (init_buffer calloc_ok layouts bi d).1
  unfolding init_buffer
  init_buffer-IsValid layouts bi d h =
      elim (Option-cases (find_record layouts.records d.record_name)) [
        | inl none_ ↦ absurd (ground (arith, h, none_))
        | inr (r, found) ↦
            elim (Bool-cases ((length r.fields == 0) || ltb max_fields (length r.fields))) [
              | inl bad ↦ absurd (ground (arith, h, found, bad))
              | inr fine ↦ elim (Bool-cases (init_fields calloc_ok d.count r.fields).0) [
                | inl made ↦
                    rw (init_buffer, found, fine, made)
                      (record {
                        bitset_size = refl;
                        bitset_bytes = All-replicate IsByte 16 0 (omega arith);
                        gens_size = length-replicate {A = ℕ} 128 1;
                        gens = All-replicate IsGen 128 1 (ground arith);
                        fields_fit = init_fields-fit d.count r.fields made;
                      })
                | inr lost ↦ absurd (ground (arith, h, found, fine, lost))
              ]
            ]
      ]

  -- The buffers below a position are valid.
  abbrev Filled : ℕ → List BufferCtx → Type 0
  Filled n bcs = (i : ℕ) (bc : BufferCtx) → i < n → get_elem? bcs i ≡ some bc → IsValidBuffer bc

  Filled-set :
      (n : ℕ) (bcs : List BufferCtx) (bc : BufferCtx)
      → Filled n bcs
      → IsValidBuffer bc
      → Filled (suc n) (set bcs n bc)
  Filled-set n bcs bc h v i c lt e = elim (Bool-cases (i == n)) [
    | inl here ↦
        let same : n ≡ i = ground (arith, here) in
        let inside : n < length bcs =
          omega (arith, same, length-set bcs n bc, lt_of_get_elem? (set bcs n bc) i e) in
        let eq : some bc ≡ some c =
          sym (get_elem?-set_self bcs n bc inside) ∙ ap (get_elem? (set bcs n bc)) same ∙ e in
        subst IsValidBuffer (ground (arith, eq)) v
    | inr there ↦
        let ne : n ≢ i = λ q. ground (arith, q, there) in
        h i c (ground (arith, lt, there)) (sym (get_elem?-set_ne bcs bc ne) ∙ e)
  ]

  init_buffers-Filled :
      (layouts : CartLayouts) (ds : List (Option BufferDecl)) (bi : ℕ) (ctx : StateCtx)
      → All IsPresent ds
      → ctx.n_buffers ≡ bi
      → Filled bi ctx.buffers
      → (init_buffers calloc_ok layouts ds bi ctx).0 ≡ init_ok
      → Filled
          (init_buffers calloc_ok layouts ds bi ctx).1.n_buffers
          (init_buffers calloc_ok layouts ds bi ctx).1.buffers
  unfolding init_buffers
  init_buffers-Filled layouts [] bi ctx there n filled h =
      subst (λ k. Filled k ctx.buffers) (sym n) filled
  init_buffers-Filled layouts (none ∷ ds) bi ctx there n filled h = absurd (ground (arith, there.0))
  init_buffers-Filled layouts (some d ∷ ds) bi ctx there n filled h =
      let (made, bc) = init_buffer calloc_ok layouts bi d in
      let ctx' = record ctx { buffers = set ctx.buffers bi bc; n_buffers = ctx.n_buffers + 1 } in
      elim (Bool-cases (leb max_buffers bi)) [
        | inl full ↦ rw (init_buffers, full) (subst (λ k. Filled k ctx.buffers) (sym n) filled)
        | inr room ↦ elim (Bool-cases (init_buffer calloc_ok layouts bi d).0) [
          | inl done ↦
              rw (init_buffers, room, done)
                (init_buffers-Filled layouts ds (bi + 1) ctx' there.1 (omega (arith, n))
                  (subst (λ k. Filled k ctx'.buffers) (omega arith)
                    (Filled-set bi ctx.buffers bc filled (init_buffer-IsValid layouts bi d done)))
                  (rw (init_buffers, room, done) at h))
          | inr lost ↦ absurd (ground (arith, rw (init_buffers, room, lost) at h))
        ]
      ]

-- A context that the initialisation makes is valid, if it succeeds and no buffer declaration is
-- missing in the tables that it reads.
pub init-IsValid :
    (calloc_ok : ℕ → Bool) (sect : List ℕ) (as_root : List ℕ → Option CartLayouts)
    (layouts : CartLayouts)
    → as_root sect ≡ some layouts
    → All IsPresent layouts.buffers
    → (state_ctx_init calloc_ok (some sect) as_root).0 ≡ init_ok
    → IsValid (state_ctx_init calloc_ok (some sect) as_root).1
unfolding state_ctx_init
init-IsValid calloc_ok sect as_root layouts read there h = elim (Bool-cases (leb (length sect) 8)) [
  | inl short ↦ absurd (ground (arith, h, short))
  | inr long ↦
      let loop =
        init_buffers-Filled calloc_ok layouts layouts.buffers 0 no_ctx there refl
          (λ i bc lt e. absurd (omega (arith, lt))) (rw (state_ctx_init, long, read) at h) in
      rw (state_ctx_init, long, read)
        (record {
          valid = λ id {bc} found.
              let (lo, hi, at) = find_buffer-range _ id found in
              loop (id - 1) bc (omega (arith, lo, hi)) at;
        })
]
