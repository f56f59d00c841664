-- ===== src/Arena.antt =====
-- shared_arena.h and shared_arena_linux.cpp: the per-core shared arena.
pub mod State
pub mod Log
pub mod FreeList
pub mod Store
pub mod Retrieve
pub mod Seg
pub mod Donation
pub mod Invariant
pub mod Storing
pub mod Refusing
pub mod Taking
pub mod Undoing
pub mod Retrieving
pub mod Outcome
pub mod Safety
pub mod Lifecycle
pub mod Stats
pub mod Tests
pub mod Pool
