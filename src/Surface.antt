-- ===== src/Surface.antt =====
-- runtime/host/src/libblyt/cart_run.c: the surface registry, its locks and its calls.
pub mod Registry
pub mod Locks
pub mod Calls
pub mod Sums
pub mod Invariant
pub mod Reach
pub mod Screen
pub mod Draws
pub mod Handles
pub mod Lifetime
pub mod Reap
pub mod Views
pub mod Copies
mod Tests
