-- ===== src/Surface/Draws/Keeps.antt =====
-- The buffers behind the surfaces, over the surface calls of runtime/host/src/libblyt/cart_run.c.
use blyt.Prelude.{ℕ, none}
use blyt.Surface.Registry.{Registry}
use blyt.Surface.Calls.{Outcome, returns, traps, overruns, hangs, Paint, painted, overrun, endless}
use blyt.Surface.Draws.{IsBacked, Picture, buffer_picture, Draws}

-- The call ends, with a result or a trap, its primitive stays within the buffers, and every surface
-- in use has a buffer of its size after it.
abbrev pub StaysBacked : {Mem : Type 0} → Outcome Mem → Type 0
StaysBacked (returns r ctx mem) = IsBacked ctx.surfaces
StaysBacked (traps ctx mem) = IsBacked ctx.surfaces
StaysBacked overruns = ⊥
StaysBacked hangs = ⊥

-- What a line leaves of a surface.
abbrev paint_picture : Paint → ℕ → Picture
paint_picture (painted b) w = buffer_picture b w
paint_picture overrun w = λ x y. none
paint_picture endless w = λ x y. none
