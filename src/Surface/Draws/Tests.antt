-- ===== src/Surface/Draws/Tests.antt =====
-- Runs of the theorems on a session with a screen and a surface of two pixels, and a guest memory
-- that holds nothing.
use blyt.Prelude.{
  ℕ, ◌*◌, ◌≢◌, refl, false, some, List, [], ◌∷◌, arith, set, replicate, length-replicate,
}
use blyt.Resource.{table_init}
use blyt.Shared.Handle.{dyn_decode_index}
use blyt.Surface.Registry.{
  Guest, Slot, Registry, RunCtx, registry_init, zero_slot, fresh_slot, frame_w, frame_h,
}
use blyt.Surface.Calls.{
  int32_of, ecall_surface_clear, ecall_surface_pixel, ecall_surface_rect_fill, ecall_surface_blit,
}
use blyt.Surface.Draws.{IsBacked, Draws, Copies, cleared, dotted, filled}
use blyt.Surface.Draws.Backed.{IsGood, put-AllGood, init-IsBacked}
use blyt.Surface.Draws.Refine.{calls-Draw}

abbrev silent : Guest ℕ
silent = record { memory_read = λ m a n. replicate n 0; memory_write = λ m a bs. m }

abbrev frame : List ℕ
frame = replicate (frame_h * frame_w) 0

abbrev two_pixels : Slot
two_pixels = fresh_slot zero_slot 2 1

abbrev opened : Registry
opened = record (registry_init frame) {
  slots = set (registry_init frame).slots 1 two_pixels;
  surface_bytes = 2;
}

abbrev session : RunCtx
session = record {
  surfaces = opened;
  resources = table_init;
  peer_heap = 0;
  mem_acct_vaddr = 0;
  phase = 3;
  cart_is_debug = false;
  dev_fault = false;
  cart_has_drawn = some false;
}

two_pixels-IsGood : IsGood two_pixels
two_pixels-IsGood = ((omega arith, omega arith, omega arith), (0 ∷ 0 ∷ [], refl, refl))

session-IsBacked : IsBacked session.surfaces
session-IsBacked =
    put-AllGood (registry_init frame).slots 1 two_pixels
      (init-IsBacked frame (length-replicate {A = ℕ} (frame_h * frame_w) 0))
      (λ used. two_pixels-IsGood)

calls-Draw_example :
    ((dst color : ℕ)
      → Draws session 0 dst (cleared color) (ecall_surface_clear silent session 0 dst color))
    × ((dst x y color : ℕ)
        → Draws session 0 dst
            (dotted (int32_of x) (int32_of y) color)
            (ecall_surface_pixel silent session 0 dst x y color))
    × ((dst x y w h color : ℕ)
        → Draws session 0 dst
            (filled (int32_of x) (int32_of y) (int32_of w) (int32_of h) color)
            (ecall_surface_rect_fill silent session 0 dst x y w h color))
    × ((dst src x y : ℕ)
        → dyn_decode_index dst ≢ dyn_decode_index src
        → Copies session 0 dst src
            (int32_of x)
            (int32_of y)
            (ecall_surface_blit silent session 0 dst src x y))
calls-Draw_example = calls-Draw silent session 0 session-IsBacked
