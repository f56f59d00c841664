-- ===== src/Combined.antt =====
-- combined.h: the allocator that users call, over the primary, the secondary and the quarantine. Memory
-- tagging and GWP-ASan are off, and the contents of user memory are left out.
pub mod Chunks
pub mod Calls
pub mod Freeing
pub mod Resizing
pub mod Placed
pub mod RoundTrip
pub mod Freed
mod Tests
