-- ===== src/Surface/Draws/Gates.antt =====
-- The gates of the drawing calls of runtime/host/src/libblyt/cart_run.c, and what follows a
-- primitive.
use blyt.Prelude.{
  ℕ, ◌<◌, ◌≡◌, ◌≢◌, ◌⊎◌, refl, sym, ap, ◌∙◌, subst, Bool, true, false, Option, none, some, List,
  arith, ◌==◌, if◌then◌else◌, length, Bool-cases, Option-cases, inl, inr,
}
use blyt.Raster.{pixels}
use blyt.Raster.Rows.{cell}
use blyt.Surface.Registry.{Guest, Slot, RunCtx, resolve_surface}
use blyt.Surface.Calls.{
  Outcome, returns, Paint, painted, gated, after_paint, note_drawn, surface_phase_gate,
  surface_lock_gate, surface_draw,
}
use blyt.Surface.Draws.{Picture, refused_call, seen_after, DrawnOn, DrawsInPhase, Draws}

-- How a primitive is to leave a slot.
abbrev pub Paints : Slot → Paint → Picture → Type 0
Paints s paint after =
    (p p' : List ℕ) × (s.buffer ≡ pixels p)
    × (length p' ≡ length p)
    × (paint ≡ painted (pixels p'))
    × ((x y : ℕ) → x < s.w → cell p' s.w x y ≡ after x y)

seen_after_screen :
    (s : Slot) (seen : Option Bool)
    → s.is_screen ≡ true
    → elim seen [ none ↦ none | some b ↦ some true ] ≡ seen_after s seen
seen_after_screen s none k = refl
seen_after_screen s (some b) k = rw k

seen_after_off : (s : Slot) (seen : Option Bool) → s.is_screen ≡ false → seen ≡ seen_after s seen
seen_after_off s none k = refl
seen_after_off s (some b) k = rw k

pub note_drawn_lem :
    (s : Slot) (ctx : RunCtx)
    → note_drawn s ctx ≡ record ctx { cart_has_drawn = seen_after s ctx.cart_has_drawn }
note_drawn_lem s ctx =
    let mark = λ (seen : Option Bool). record ctx { cart_has_drawn = seen } in
    elim (Bool-cases s.is_screen) [
      | inl k ↦
          ap
            (λ b.
              if b
              then mark (elim ctx.cart_has_drawn [ none ↦ none | some c ↦ some true ])
              else ctx)
            k
          ∙ ap mark (seen_after_screen s ctx.cart_has_drawn k)
      | inr k ↦
          ap
            (λ b.
              if b
              then mark (elim ctx.cart_has_drawn [ none ↦ none | some c ↦ some true ])
              else ctx)
            k
          ∙ ap mark (seen_after_off s ctx.cart_has_drawn k)
    ]

pub after_paint-DrawnOn :
    {Mem : Type 0} (ctx : RunCtx) (mem : Mem) (i : ℕ) (s : Slot) (paint : Paint) (after : Picture)
    → Paints s paint after
    → DrawnOn ctx mem i s after (after_paint ctx mem i s paint)
after_paint-DrawnOn ctx mem i s paint after (p, p', held, same, done, cells) = (
  p,
  p',
  held,
  same,
  ap (after_paint ctx mem i s) done ∙ ap (λ c. returns none c mem) (note_drawn_lem s _),
  cells,
)

module _ {Mem : Type 0} (guest : Guest Mem) (ctx : RunCtx) (mem : Mem) where
  phase_gate :
      (rest : Outcome Mem)
      → ((ctx.phase ≢ 3) × (gated (surface_phase_gate ctx) ctx mem rest ≡ refused_call ctx mem))
        ⊎ ((ctx.phase ≡ 3) × (gated (surface_phase_gate ctx) ctx mem rest ≡ rest))
  unfolding surface_phase_gate
  phase_gate rest = elim (Bool-cases (ctx.phase == 3)) [
    | inl p ↦ inr (ground (arith, p), rw p)
    | inr p ↦ elim (Bool-cases ctx.cart_is_debug) [
      | inl d ↦ inl (ground (arith, p), rw (p, d))
      | inr d ↦ inl (ground (arith, p), rw (p, d))
    ]
  ]

  pub in_phase :
      (P : Outcome Mem → Type 0) (rest : Outcome Mem)
      → (ctx.phase ≡ 3 → P rest)
      → let o = gated (surface_phase_gate ctx) ctx mem rest in
        ((ctx.phase ≢ 3) × (o ≡ refused_call ctx mem)) ⊎ ((ctx.phase ≡ 3) × P o)
  in_phase P rest h = elim (phase_gate rest) [
    | inl early ↦ inl early
    | inr (phase, e) ↦ inr (phase, subst P (sym e) (h phase))
  ]

  locked_gate :
      (i : ℕ) (s : Slot) (rest : Outcome Mem)
      → ((s.locked ≡ true)
          × (gated (surface_lock_gate ctx (some (i, s))) ctx mem rest ≡ refused_call ctx mem))
        ⊎ ((s.locked ≡ false) × (gated (surface_lock_gate ctx (some (i, s))) ctx mem rest ≡ rest))
  unfolding surface_lock_gate
  locked_gate i s rest = elim (Bool-cases s.locked) [
    | inr k ↦ inr (k, rw k)
    | inl k ↦ elim (Bool-cases ctx.cart_is_debug) [
      | inl d ↦ inl (k, rw (k, d))
      | inr d ↦ inl (k, rw (k, d))
    ]
  ]

  pub draw-Draws :
      (handle : ℕ) (prim : Slot → Paint) (after : Slot → Picture)
      → ((i : ℕ) (s : Slot)
          → resolve_surface ctx.surfaces handle ≡ some (i, s)
          → Paints s (prim s) (after s))
      → Draws ctx mem handle after (surface_draw guest ctx mem handle prim)
  unfolding surface_draw surface_lock_gate
  draw-Draws handle prim after each = in_phase (DrawsInPhase ctx mem handle after) _ λ phase.
      elim (Option-cases (resolve_surface ctx.surfaces handle)) [
        | inl o ↦ inr (inl (o, rw o))
        | inr ((i, s), o) ↦ elim (locked_gate i s (after_paint ctx mem i s (prim s))) [
          | inl (k, f) ↦ inl (i, s, o, k, rw o f)
          | inr (k, f) ↦
              let here = after_paint-DrawnOn ctx mem i s (prim s) (after s) (each i s o) in
              inr (inr (i, s, o, k, rw o (subst (DrawnOn ctx mem i s (after s)) (sym f) here)))
        ]
      ]

  pub shut_gate :
      (i : ℕ) (s : Slot) (rest : Outcome Mem)
      → s.locked ≡ true
      → gated (surface_lock_gate ctx (some (i, s))) ctx mem rest ≡ refused_call ctx mem
  shut_gate i s rest k = elim (locked_gate i s rest) [
    | inl (l, e) ↦ e
    | inr (l, e) ↦ absurd (ground (arith, k, l))
  ]

  pub open_gate :
      (i : ℕ) (s : Slot) (rest : Outcome Mem)
      → s.locked ≡ false
      → gated (surface_lock_gate ctx (some (i, s))) ctx mem rest ≡ rest
  open_gate i s rest k = elim (locked_gate i s rest) [
    | inl (l, e) ↦ absurd (ground (arith, k, l))
    | inr (l, e) ↦ e
  ]
