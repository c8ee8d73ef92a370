-- ===== src/Surface/Draws/Refine.antt =====
-- The drawing calls of runtime/host/src/libblyt/cart_run.c against the picture that each is to leave.
use blyt.Prelude.{
  ℕ, ◌*◌, ◌^◌, ◌<◌, ◌≡◌, ◌≢◌, sym, ◌∙◌, subst, some, List, length, Bool-cases, Option-cases, inl,
  inr,
}
use blyt.Shared.Handle.{dyn_decode_index}
use blyt.Raster.{pixels}
use blyt.Surface.Registry.{Guest, Slot, RunCtx, resolve_surface}
use blyt.Surface.Handles.{resolved}
use blyt.Surface.Calls.{
  int32_of, surface_lock_gate, ecall_surface_clear, ecall_surface_pixel, ecall_surface_rect_fill,
  ecall_surface_blit,
}
use blyt.Surface.Draws.{
  IsBacked, DrawnOn, Draws, cleared, dotted, filled, copied_at, CopiesInPhase, Copies,
}
use blyt.Surface.Draws.Gates.{after_paint-DrawnOn, in_phase, draw-Draws, shut_gate, open_gate}
use blyt.Surface.Draws.Primitives.{
  int32_of-IsInt32, clear-Paints, pixel-Paints, rect_fill-Paints, blit-Paints,
}

module _ {Mem : Type 0} (guest : Guest Mem) (ctx : RunCtx) (mem : Mem)
    (backed : IsBacked ctx.surfaces) where
  backed_slot :
      (handle i : ℕ) (s : Slot)
      → resolve_surface ctx.surfaces handle ≡ some (i, s)
      → ((0 < s.w) × (s.w < 2 ^ 31) × (s.h < 2 ^ 31))
        × ((p : List ℕ) × (s.buffer ≡ pixels p) × (length p ≡ s.h * s.w))
  backed_slot handle i s e =
      let (at, low, used, index, gen) = resolved ctx.surfaces handle i s e in backed i s at used

  blit-Copies :
      (dst src x y : ℕ)
      → Copies ctx mem dst src
          (int32_of x)
          (int32_of y)
          (ecall_surface_blit guest ctx mem dst src x y)
  unfolding ecall_surface_blit surface_lock_gate
  blit-Copies dst src x y =
      in_phase guest ctx mem (CopiesInPhase ctx mem dst src (int32_of x) (int32_of y)) _ λ phase.
        elim (Option-cases (resolve_surface ctx.surfaces dst)) [
          | inl o ↦ elim (Option-cases (resolve_surface ctx.surfaces src)) [
            | inl q ↦ inr (inl (inl (o, inl q), rw (o, q)))
            | inr ((j, s), q) ↦ elim (Bool-cases s.locked) [
              | inl l ↦ inl (inr (j, s, q, l), rw (o, q) (shut_gate guest ctx mem j s _ l))
              | inr l ↦
                  inr (inl (inl (o, inr (j, s, q, l)), rw (o, q) (open_gate guest ctx mem j s _ l)))
            ]
          ]
          | inr ((i, d), o) ↦ elim (Bool-cases d.locked) [
            | inl k ↦ inl (inl (i, d, o, k), rw o (shut_gate guest ctx mem i d _ k))
            | inr k ↦ elim (Option-cases (resolve_surface ctx.surfaces src)) [
              | inl q ↦
                  inr (inl (inr ((i, d, o, k), q), rw (o, q) (open_gate guest ctx mem i d _ k)))
              | inr ((j, s), q) ↦ elim (Bool-cases s.locked) [
                | inl l ↦ inl (
                  inr (j, s, q, l),
                  rw (o, q) (open_gate guest ctx mem i d _ k ∙ shut_gate guest ctx mem j s _ l),
                )
                | inr l ↦
                    let ((dw, dw', dh'), (p, held, size)) = backed_slot dst i d o in
                    let ((sw, sw', sh'), (b, held', size')) = backed_slot src j s q in
                    let done =
                      after_paint-DrawnOn ctx mem i d _ (copied_at (int32_of x) (int32_of y) s d) (
                        blit-Paints d s p b held held' size size' dw sw' sh' (int32_of x)
                          (int32_of y) (int32_of-IsInt32 x) (int32_of-IsInt32 y)) in
                    inr (
                      inr (
                        i,
                        j,
                        d,
                        s,
                        o,
                        q,
                        (k, l),
                        rw (o, q)
                            (subst (DrawnOn ctx mem i d (copied_at (int32_of x) (int32_of y) s d))
                              (sym
                                (open_gate guest ctx mem i d _ k ∙ open_gate guest ctx mem j s _ l))
                              done),
                      ))
              ]
            ]
          ]
        ]

  -- The calls that clear a surface, set a pixel, fill a rectangle and copy a surface change the
  -- pictures of the surfaces as they are to. Out of the drawing phase, and on a locked surface (for a
  -- copy: from one, too), a call is refused: a debug cart traps with a fault, another returns with
  -- nothing changed. On a stale handle it returns with nothing changed. Else it returns, and its
  -- surface has, at every column and row, the colour given where the shape drawn covers that pixel
  -- (all of the surface, one pixel, the rectangle, or the place of the copied surface, whose pixel it
  -- gets) and its old colour elsewhere; no other surface and no other part of the session has
  -- changed, except that a drawing on the screen is marked. This is for surfaces with a buffer of
  -- their size, and for a copy between two slots.
  pub calls-Draw :
      ((dst color : ℕ)
        → Draws ctx mem dst (cleared color) (ecall_surface_clear guest ctx mem dst color))
      × ((dst x y color : ℕ)
          → Draws ctx mem dst
              (dotted (int32_of x) (int32_of y) color)
              (ecall_surface_pixel guest ctx mem dst x y color))
      × ((dst x y w h color : ℕ)
          → Draws ctx mem dst
              (filled (int32_of x) (int32_of y) (int32_of w) (int32_of h) color)
              (ecall_surface_rect_fill guest ctx mem dst x y w h color))
      × ((dst src x y : ℕ)
          → dyn_decode_index dst ≢ dyn_decode_index src
          → Copies ctx mem dst src
              (int32_of x)
              (int32_of y)
              (ecall_surface_blit guest ctx mem dst src x y))
  unfolding ecall_surface_clear ecall_surface_pixel ecall_surface_rect_fill
  calls-Draw = (
    λ dst color. draw-Draws guest ctx mem dst _ (cleared color) λ i s e.
        let ((w, w', h'), (p, held, size)) = backed_slot dst i s e in
        clear-Paints s p held size w color,
    λ dst x y color.
        draw-Draws guest ctx mem dst _ (dotted (int32_of x) (int32_of y) color) λ i s e.
          let ((w, w', h'), (p, held, size)) = backed_slot dst i s e in
          pixel-Paints s p held size w (int32_of x) (int32_of y) color,
    λ dst x y w h color.
        draw-Draws guest ctx mem dst _
          (filled (int32_of x) (int32_of y) (int32_of w) (int32_of h) color)
          λ i s e.
            let ((wide, w', h'), (p, held, size)) = backed_slot dst i s e in
            rect_fill-Paints s p held size wide (int32_of x) (int32_of y) (int32_of w) (int32_of h)
              color (int32_of-IsInt32 x) (int32_of-IsInt32 y) (int32_of-IsInt32 w)
              (int32_of-IsInt32 h),
    λ dst src x y ne. blit-Copies dst src x y,
  )
