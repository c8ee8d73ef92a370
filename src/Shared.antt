-- ===== src/Shared.antt =====
-- The freestanding code of runtime/shared that every leg compiles.
pub mod Handle
pub mod Gen
pub mod FpCanon
pub mod MemBudget
pub mod ResourceLifecycle
pub mod ResourceCodec
pub mod ElfSection
pub mod Arena
mod Tests
