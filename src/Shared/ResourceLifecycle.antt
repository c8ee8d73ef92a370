-- ===== src/Shared/ResourceLifecycle.antt =====
-- runtime/shared/blyt_resource_lifecycle.h: the pin count of one resource.
use blyt.Prelude.{ℕ, ◌+◌, ◌-◌, ◌%◌, ◌^◌, ◌<◌, ◌≡◌, Bool, true, false, arith, ◌==◌, if◌then◌else◌}

-- `blyt_rl_state_t`
pub record RlState : Type 0 where
  pub pin_count : ℕ

unfoldable pub rl_pin : RlState → RlState
rl_pin s = record s { pin_count = (s.pin_count + 1) % 2 ^ 32 }

-- The Boolean is the C result: whether there was a pin to drop.
unfoldable pub rl_unpin : RlState → Bool × RlState
rl_unpin s =
    if s.pin_count == 0 then (false, s) else (true, record s { pin_count = s.pin_count - 1 })

unfoldable pub rl_is_evictable : RlState → Bool
rl_is_evictable s = s.pin_count == 0

unfoldable pub rl_force_release_pins : RlState → RlState
rl_force_release_pins s = record s { pin_count = 0 }

-- An entry just pinned cannot be evicted, and dropping that pin gives the state before it back.
unpin-pin :
    (s : RlState)
    → s.pin_count < 2 ^ 32 - 1
    → (rl_is_evictable (rl_pin s) ≡ false) × (rl_unpin (rl_pin s) ≡ (true, s))
unfolding rl_pin rl_unpin rl_is_evictable
unpin-pin s h = ground arith
