-- ===== src/Secondary.antt =====
-- The secondary allocator (secondary.h) for large blocks: its cache of unused mappings, and the
-- allocator itself, which is the client of the shared arenas.
pub mod Block
pub mod Cache
pub mod Lru
pub mod Storing
pub mod Retrieving
pub mod Allocator
mod Tests
pub mod RoundTrip
pub mod Starting
