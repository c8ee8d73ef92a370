-- ===== src/Surface/Draws.antt =====
-- What the drawing calls of runtime/host/src/libblyt/cart_run.c are to do to the picture of a
-- surface, stated without their code.
pub mod Gates
pub mod Primitives
pub mod Refine
pub mod Backed
pub mod Keeps
mod Tests
use blyt.Prelude.{
  ℕ, ◌*◌, ◌%◌, ◌^◌, ◌≤◌, ◌<◌, ◌≡◌, ◌≢◌, ◌⊎◌, refl, sym, ap, ap₂, ◌∙◌, subst, Bool, true, false,
  ◌&&◌, not, Option, none, some, List, arith, ltb, leb, ◌==◌, if◌then◌else◌, get_elem?, set, length,
  Bool-cases, Option-cases, inl, inr,
}
use blyt.Prelude.Int.{ℤ, pos, signed, IsInt32, eqb_ℤ, pos_part, ◌-ℤ◌, ltb_ℤ, leb_ℤ, ◌+ℤ◌}
use blyt.Shared.Handle.{dyn_decode_index}
use blyt.Raster.{
  Buffer, null, pixels, raster_clear, raster_pixel, raster_rect_fill, raster_blit, into,
}
use blyt.Raster.Rows.{cell}
use blyt.Raster.Rect.{rect_fill-paints, clear-paints}
use blyt.Raster.Line.Pixel.{put_pixel-cell}
use blyt.Raster.Blit.{blit-copies}
use blyt.Surface.Registry.{Guest, Slot, Registry, RunCtx, put_slot, resolve_surface}
use blyt.Surface.Handles.{resolved}
use blyt.Surface.Calls.{
  Outcome, returns, traps, Gate, go, drop, trap, Paint, painted, of_option, gated, after_paint,
  note_drawn, fault, int32_of, surface_phase_gate, surface_lock_gate, surface_draw,
  ecall_surface_clear, ecall_surface_pixel, ecall_surface_rect_fill, ecall_surface_blit,
}

-- Every surface in use has a buffer with a byte for each of its pixels, and at least one column.
abbrev pub IsBacked : Registry → Type 0
IsBacked reg =
    (i : ℕ) (s : Slot)
    → get_elem? reg.slots i ≡ some s
    → s.in_use ≡ true
    → ((0 < s.w) × (s.w < 2 ^ 31) × (s.h < 2 ^ 31))
      × ((p : List ℕ) × (s.buffer ≡ pixels p) × (length p ≡ s.h * s.w))

-- The picture of a surface: the colour at a column and a row.
abbrev pub Picture : Type 0
Picture = ℕ → ℕ → Option ℕ

abbrev pub buffer_picture : Buffer → ℕ → Picture
buffer_picture null w x y = none
buffer_picture (pixels p) w x y = cell p w x y

abbrev pub picture_of : Slot → Picture
picture_of s = buffer_picture s.buffer s.w

-- A call that is not allowed: a debug cart traps, another goes on as if nothing was called.
abbrev pub refused_call : {Mem : Type 0} → RunCtx → Mem → Outcome Mem
refused_call ctx mem =
    if ctx.cart_is_debug then traps (record ctx { dev_fault = true }) mem else returns none ctx mem

-- What the session knows of drawing on the screen, after a drawing on the surface.
abbrev pub seen_after : Slot → Option Bool → Option Bool
seen_after s none = none
seen_after s (some seen) = some (if s.is_screen then true else seen)

-- The surface `s` at position `i` has the picture `after`, in a buffer of the same length, and
-- nothing else of the session has changed but the mark of a drawn screen.
abbrev pub DrawnOn : {Mem : Type 0} → RunCtx → Mem → ℕ → Slot → Picture → Outcome Mem → Type 0
DrawnOn ctx mem i s after o =
    (p p' : List ℕ) × (s.buffer ≡ pixels p)
    × (length p' ≡ length p)
    × (o
        ≡ returns none
            (record ctx {
              surfaces = record ctx.surfaces {
                slots = set ctx.surfaces.slots i (record s { buffer = pixels p' });
              };
              cart_has_drawn = seen_after s ctx.cart_has_drawn;
            })
            mem)
    × ((x y : ℕ) → x < s.w → cell p' s.w x y ≡ after x y)

-- The outcomes of a drawing on one surface in the drawing phase, in this order: the surface is
-- locked; the handle is stale; the surface has the picture asked for.
abbrev pub DrawsInPhase :
    {Mem : Type 0} → RunCtx → Mem → ℕ → (Slot → Picture) → Outcome Mem → Type 0
DrawsInPhase ctx mem handle after o =
    ((i : ℕ) × (s : Slot) × (resolve_surface ctx.surfaces handle ≡ some (i, s))
      × (s.locked ≡ true)
      × (o ≡ refused_call ctx mem))
    ⊎ ((resolve_surface ctx.surfaces handle ≡ none) × (o ≡ returns none ctx mem))
    ⊎ ((i : ℕ) × (s : Slot) × (resolve_surface ctx.surfaces handle ≡ some (i, s))
        × (s.locked ≡ false)
        × DrawnOn ctx mem i s (after s) o)

-- The outcomes of a drawing on one surface in any phase.
abbrev pub Draws : {Mem : Type 0} → RunCtx → Mem → ℕ → (Slot → Picture) → Outcome Mem → Type 0
Draws ctx mem handle after o =
    ((ctx.phase ≢ 3) × (o ≡ refused_call ctx mem))
    ⊎ ((ctx.phase ≡ 3) × DrawsInPhase ctx mem handle after o)

-- The pictures that the calls are to leave, of the surface before them.
abbrev pub cleared : ℕ → Slot → Picture
cleared color s x y = if ltb y s.h then some (color % 256) else picture_of s x y

abbrev pub dotted : ℤ → ℤ → ℕ → Slot → Picture
dotted px py color s x y =
    if ltb y s.h && (eqb_ℤ px (pos x) && eqb_ℤ py (pos y))
    then some (color % 256)
    else picture_of s x y

abbrev pub within : ℤ → ℤ → ℕ → Bool
within start len p = leb_ℤ start (pos p) && ltb_ℤ (pos p) (start +ℤ len)

abbrev pub filled : ℤ → ℤ → ℤ → ℤ → ℕ → Slot → Picture
filled left top w h color s x y =
    if ltb y s.h && (within left w x && within top h y)
    then some (color % 256)
    else picture_of s x y

-- The picture of a surface `d` after the surface `s` was copied onto it at a position.
abbrev pub copied_at : ℤ → ℤ → Slot → Slot → Picture
copied_at left top s d x y =
    if ltb y d.h && (within left (pos s.w) x && within top (pos s.h) y)
    then picture_of s (pos_part (pos x -ℤ left)) (pos_part (pos y -ℤ top))
    else picture_of d x y

abbrev pub IsLocked : Registry → ℕ → Type 0
IsLocked reg handle =
    (i : ℕ) × (s : Slot) × (resolve_surface reg handle ≡ some (i, s)) × (s.locked ≡ true)

abbrev pub IsOpen : Registry → ℕ → Type 0
IsOpen reg handle =
    (i : ℕ) × (s : Slot) × (resolve_surface reg handle ≡ some (i, s)) × (s.locked ≡ false)

abbrev pub IsStale : Registry → ℕ → Type 0
IsStale reg handle = resolve_surface reg handle ≡ none

-- The outcomes of a copy in the drawing phase: one of the surfaces is locked; none is locked and one
-- of the handles is stale; the destination has the picture asked for.
abbrev pub CopiesInPhase : {Mem : Type 0} → RunCtx → Mem → ℕ → ℕ → ℤ → ℤ → Outcome Mem → Type 0
CopiesInPhase ctx mem dst src left top o =
    ((IsLocked ctx.surfaces dst ⊎ IsLocked ctx.surfaces src) × (o ≡ refused_call ctx mem))
    ⊎ (((IsStale ctx.surfaces dst × (IsStale ctx.surfaces src ⊎ IsOpen ctx.surfaces src))
          ⊎ (IsOpen ctx.surfaces dst × IsStale ctx.surfaces src))
        × (o ≡ returns none ctx mem))
    ⊎ ((i j : ℕ) × (d s : Slot) × (resolve_surface ctx.surfaces dst ≡ some (i, d))
        × (resolve_surface ctx.surfaces src ≡ some (j, s))
        × ((d.locked ≡ false) × (s.locked ≡ false))
        × DrawnOn ctx mem i d (copied_at left top s d) o)

abbrev pub Copies : {Mem : Type 0} → RunCtx → Mem → ℕ → ℕ → ℤ → ℤ → Outcome Mem → Type 0
Copies ctx mem dst src left top o =
    ((ctx.phase ≢ 3) × (o ≡ refused_call ctx mem))
    ⊎ ((ctx.phase ≡ 3) × CopiesInPhase ctx mem dst src left top o)
