-- ===== src/Surface/Calls.antt =====
-- The surface calls of `blyt_ecall_handler` of runtime/host/src/libblyt/cart_run.c.
use blyt.Prelude.{ℕ, ◌%◌, ◌^◌, Bool, true, false, not, Option, none, some, ◌==◌, if◌then◌else◌}
use blyt.Prelude.Int.{ℤ, pos, signed}
use blyt.Shared.Handle.{kind_none}
use blyt.Raster.{
  Buffer, null, pixels, Drawn, still_drawing, out_of_bounds, drawn, raster_clear, raster_pixel,
  raster_rect_fill, raster_line, raster_blit,
}
use blyt.Surface.Registry.{
  Guest, Slot, Registry, RunCtx, put_slot, resolve_surface, surface_free_slot, surface_create_slot,
  mem_acct_publish_footprint,
}
use blyt.Surface.Locks.{surface_acquire_lock, surface_release_lock}

-- `BLYT_PHASE_DRAW`
abbrev pub phase_draw : ℕ
phase_draw = 3

-- A register read as `int32_t`.
abbrev pub int32_of : ℕ → ℤ
int32_of r = signed (2 ^ 31) (r % 2 ^ 32)

-- What a call does: it returns, with the result register where it sets one; it traps in a debug
-- cart; its drawing leaves the buffer; or its drawing does not end.
pub data Outcome (Mem : Type 0) : Type 0 where
  returns : Option ℕ → RunCtx → Mem → Outcome Mem
  traps : RunCtx → Mem → Outcome Mem
  overruns : Outcome Mem
  hangs : Outcome Mem

-- The answer of a gate: the call may go on, drops its effect, or traps.
pub data Gate : Type 0 where
  go : Gate
  drop : Gate
  trap : Gate

unfoldable pub surface_phase_gate : RunCtx → Gate
surface_phase_gate ctx =
    if ctx.phase == phase_draw then go else if ctx.cart_is_debug then trap else drop

unfoldable pub surface_lock_gate : RunCtx → Option (ℕ × Slot) → Gate
surface_lock_gate ctx none = go
surface_lock_gate ctx (some (i, s)) =
    if not s.locked then go else if ctx.cart_is_debug then trap else drop

-- `*cart_has_drawn = true` after a change of the screen.
abbrev pub note_drawn : Slot → RunCtx → RunCtx
note_drawn s ctx =
    if s.is_screen
    then record ctx {
      cart_has_drawn = elim ctx.cart_has_drawn [ none ↦ none | some seen ↦ some true ];
    }
    else ctx

abbrev pub fault : RunCtx → RunCtx
fault ctx = record ctx { dev_fault = true }

-- How a primitive leaves a buffer.
pub data Paint : Type 0 where
  painted : Buffer → Paint
  overrun : Paint
  endless : Paint

abbrev pub of_option : Option Buffer → Paint
of_option none = overrun
of_option (some b) = painted b

abbrev pub of_drawn : Drawn → Paint
of_drawn still_drawing = endless
of_drawn out_of_bounds = overrun
of_drawn (drawn fb) = painted (pixels fb)

-- `blyt_raster_line` with its null check; `rounds` bounds the loop.
unfoldable pub paint_line : ℕ → Buffer → ℤ → ℤ → ℤ → ℤ → ℤ → ℤ → ℤ → ℕ → Paint
paint_line rounds null stride width height x0 y0 x1 y1 color = painted null
paint_line rounds (pixels fb) stride width height x0 y0 x1 y1 color =
    of_drawn (raster_line fb stride width height x0 y0 x1 y1 color rounds)

-- A call goes on behind a gate that lets it.
abbrev pub gated : {Mem : Type 0} → Gate → RunCtx → Mem → Outcome Mem → Outcome Mem
gated trap ctx mem rest = traps (fault ctx) mem
gated drop ctx mem rest = returns none ctx mem
gated go ctx mem rest = rest

-- The surface `slot` at position `i` after a primitive.
abbrev pub after_paint : {Mem : Type 0} → RunCtx → Mem → ℕ → Slot → Paint → Outcome Mem
after_paint ctx mem i slot overrun = overruns
after_paint ctx mem i slot endless = hangs
after_paint ctx mem i slot (painted b) =
    returns none
      (note_drawn slot
        (record ctx { surfaces = put_slot ctx.surfaces i (record slot { buffer = b }) }))
      mem

-- What a call makes of the answer of `surface_acquire_lock`.
abbrev pub acquired : {Mem : Type 0} → RunCtx → Bool × (Registry × Mem) → Outcome Mem
acquired ctx (ok, (reg, mem)) =
    returns (some (if ok then 1 else 0)) (record ctx { surfaces = reg }) mem

-- What a call makes of the answer of `surface_release_lock`.
abbrev pub released : {Mem : Type 0} → RunCtx → Mem → Option Slot × Registry → Outcome Mem
released ctx mem (none, reg) = returns none (record ctx { surfaces = reg }) mem
released ctx mem (some s, reg) = returns none (note_drawn s (record ctx { surfaces = reg })) mem

module _ {Mem : Type 0} (guest : Guest Mem) where
  -- What every drawing call does around its primitive.
  unfoldable pub surface_draw : RunCtx → Mem → ℕ → (Slot → Paint) → Outcome Mem
  surface_draw ctx mem dst paint =
      let s = resolve_surface ctx.surfaces dst in
      gated (surface_phase_gate ctx) ctx mem (
        gated (surface_lock_gate ctx s) ctx mem (elim s [
          | none ↦ returns none ctx mem
          | some (i, slot) ↦ after_paint ctx mem i slot (paint slot)
        ]))

  unfoldable pub ecall_surface_clear : RunCtx → Mem → ℕ → ℕ → Outcome Mem
  ecall_surface_clear ctx mem dst color =
      surface_draw ctx mem dst
        (λ s. of_option (raster_clear s.buffer (pos s.w) (pos s.w) (pos s.h) (color % 256)))

  unfoldable pub ecall_surface_pixel : RunCtx → Mem → ℕ → ℕ → ℕ → ℕ → Outcome Mem
  ecall_surface_pixel ctx mem dst x y color = surface_draw ctx mem dst (λ s.
      of_option (
        raster_pixel s.buffer (pos s.w) (pos s.w) (pos s.h) (int32_of x) (int32_of y)
          (color % 256)))

  unfoldable pub ecall_surface_rect_fill : RunCtx → Mem → ℕ → ℕ → ℕ → ℕ → ℕ → ℕ → Outcome Mem
  ecall_surface_rect_fill ctx mem dst x y w h color = surface_draw ctx mem dst (λ s. of_option (
      raster_rect_fill s.buffer (pos s.w) (pos s.w) (pos s.h) (int32_of x) (int32_of y) (int32_of w)
        (int32_of h) (color % 256)))

  unfoldable pub ecall_surface_line : ℕ → RunCtx → Mem → ℕ → ℕ → ℕ → ℕ → ℕ → ℕ → Outcome Mem
  ecall_surface_line rounds ctx mem dst x0 y0 x1 y1 color = surface_draw ctx mem dst (λ s.
      paint_line rounds s.buffer (pos s.w) (pos s.w) (pos s.h) (int32_of x0) (int32_of y0)
        (int32_of x1) (int32_of y1) (color % 256))

  -- The two surfaces are taken to be apart: a surface copied onto itself is read as it was before.
  unfoldable pub ecall_surface_blit : RunCtx → Mem → ℕ → ℕ → ℕ → ℕ → Outcome Mem
  ecall_surface_blit ctx mem dst src x y =
      let ds = resolve_surface ctx.surfaces dst in
      let ss = resolve_surface ctx.surfaces src in
      gated (surface_phase_gate ctx) ctx mem (
        gated (surface_lock_gate ctx ds) ctx mem (
          gated (surface_lock_gate ctx ss) ctx mem (elim ds [
            | none ↦ returns none ctx mem
            | some (i, d) ↦ elim ss [
              | none ↦ returns none ctx mem
              | some (j, s) ↦ after_paint ctx mem i d (
                  of_option (
                    raster_blit d.buffer (pos d.w) (pos d.w) (pos d.h) s.buffer (pos s.w) (pos s.w)
                      (pos s.h) (int32_of x) (int32_of y)))
            ]
          ])))

  unfoldable pub ecall_surface_create : Bool → RunCtx → Mem → ℕ → ℕ → Outcome Mem
  ecall_surface_create calloc_ok ctx mem w h = elim (surface_phase_gate ctx) [
    | trap ↦ traps (fault ctx) mem
    | drop ↦ returns (some kind_none) ctx mem
    | go ↦
        let (handle, (ctx', mem')) = surface_create_slot guest calloc_ok ctx mem w h in
        returns (some handle) ctx' mem'
  ]

  -- There is no phase gate here.
  unfoldable pub ecall_surface_destroy : RunCtx → Mem → ℕ → Outcome Mem
  ecall_surface_destroy ctx mem handle =
      let s = resolve_surface ctx.surfaces handle in
      gated (surface_lock_gate ctx s) ctx mem (elim s [
        | none ↦ returns none ctx mem
        | some (i, slot) ↦
            if slot.is_screen
            then returns none ctx mem
            else let (ctx', mem') =
                mem_acct_publish_footprint guest
                  (record ctx { surfaces = surface_free_slot ctx.surfaces i slot }) mem in
              returns none ctx' mem'
      ])

  unfoldable pub ecall_surface_acquire : RunCtx → Mem → ℕ → ℕ → Outcome Mem
  ecall_surface_acquire ctx mem surface out_vaddr = elim (surface_phase_gate ctx) [
    | trap ↦ traps (fault ctx) mem
    | drop ↦ acquired ctx (surface_acquire_lock guest ctx.surfaces mem surface out_vaddr true)
    | go ↦ acquired ctx (surface_acquire_lock guest ctx.surfaces mem surface out_vaddr false)
  ]

  unfoldable pub ecall_surface_release : RunCtx → Mem → ℕ → Outcome Mem
  ecall_surface_release ctx mem token =
      released ctx mem (surface_release_lock guest ctx.surfaces mem token)
