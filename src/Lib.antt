-- ===== src/Lib.antt =====
-- Scudo with shared arenas: a model of the per-core shared memory arenas, of the secondary allocator
-- that uses them, of the allocator that users call, of the quarantine, of the chunk headers and of the
-- size class maps, with the theorems that make them correct.
--
-- The parts and the files:
-- * Arena models `SharedArena` of shared_arena.h and shared_arena_linux.cpp. An arena is a range of
--   512 MB at a fixed address for one core, shared between processes. Arena/State has the header, the
--   free block headers that stand in the data pages, the log ring and the fields of the process, with
--   `lock`, `unlock`, `containsVa` and the address arithmetic. Arena/Log is `appendLogPagesLocked`,
--   Arena/FreeList the walks and updates of the intrusive list inside `store` and `retrieve`,
--   Arena/Store and Arena/Retrieve these two functions, Arena/Lifecycle `init`, `reset`,
--   `initLogRing`, `registerWithKernel`, `refreshLogRingForCurrentProcess` and `releasePages`,
--   Arena/Stats `getStats` and `getDebugStats`.
-- * Arena/Pool models `SharedArenaPool`: the arenas of all cores, the routing of addresses and threads
--   to them, the environment (Arena/Pool/Flags) and the memory pressure (Arena/Pool/Pressure) that
--   decide whether an allocation goes to an arena, and the totals of `getDebugStats`.
-- * The abstract view of a free list is a list of extents, a first page and a number of pages, in
--   Arena/Seg, with one module for each update; Arena/Invariant says when an arena is well-formed.
--   Arena/Donation, Arena/Storing and Arena/Refusing are the proofs for `store`; Arena/Taking,
--   Arena/Undoing, Arena/Retrieving and Arena/Outcome those for `retrieve`; Arena/Log/Frame has
--   the terms for what an append to the log changes and when it is refused, and Arena/Log/Append the
--   proofs; Arena/Storing/Across those for a store with the log of another core's arena. Arena/Safety
--   is about the runs of all these calls, by any threads, which Arena/Safety/Runs defines.
-- * Release models release.h: Release/Pool the buffers of the counters, Release/PageMap the packed
--   counters, Release/Tracker the ranges and their recorders, Release/Context the marking of free blocks
--   and Release/Scan the search for pages to release. Release/Safety follows a free list from its marking
--   to the calls that give memory back. The mask of the pool is passed along, and the words of a buffer
--   stand in it.
-- * Secondary models secondary.h: Secondary/Cache, with Store and Retrieve below it, is
--   `MapAllocatorCache`, and Secondary/Allocator with Entry is `MapAllocator`, which asks the current
--   arena, then the cache and then the system for a block, and gives a block of an arena back to its
--   arena. Secondary/Lru, with Starting, Storing and Retrieving beside it, are the proofs for the
--   cache, whose abstract view is the list of its blocks, the most recent first; Secondary/RoundTrip follows a block
--   from an arena and back.
-- * LocalCache models local_cache.h, the blocks a thread keeps at hand, over an interface of the primary
--   allocator; the calls of the latter back into the cache, for the memory of its batches, are left out.
-- * Quarantine models quarantine.h: Quarantine/Cache the batches and the cache of a thread, Quarantine
--   itself the global quarantine. The callbacks that it calls are a list of calls.
-- * Chunk models chunk.h and the software checksum of checksum.h; the hardware CRC is a parameter.
-- * Combined models combined.h: Combined/Chunks the chunk in a block, Combined/Calls
--   `allocate`, Combined/Freeing `deallocate` and the recycling, Combined/Resizing the sizes and
--   `reallocate`, over an interface of the primary, the secondary, the caches of threads and the quarantine.
--   Of the memory it has the words of headers and block markers, and whether they are mapped. A report
--   and an access to memory that is not mapped, which end the process, are results.
-- * SizeClassMap models size_class_map.h: the map by a formula, the map by a table, the configurations
--   and the validation of the classes.
-- * Lists models the singly and doubly linked lists of list.h that are linked by pointers.
-- * Arith models common.h, which all the others use.
--
-- Numbers are natural numbers; u8, u16, u32 and the 64-bit uptr wrap where the code's do, written with
-- `% 2 ^ w`. DCHECKs, which a release build leaves out, are no part of the model.
--
-- Loops over the shared list have fuel: the number of data pages and one more, which a list in order
-- never uses up, since each block has a page of its own; the theorems for insertion and search give the
-- result itself. The walk of the statistics has the same bound in the code.
--
-- The system is a parameter: the answers of mmap, shm_open, prctl and madvise, where the kernel has
-- moved the head of the log ring, the environment and the text of /proc/meminfo. A thread that spins on
-- the lock for ever is `none`. Not modelled: the broker of the Android build, tracing and profiling,
-- memory tagging and GWP-ASan, the contents of user memory, and the primary allocator with the system
-- layers under it.
pub mod Arena
pub mod Arith
pub mod Chunk
pub mod Combined
pub mod Common
pub mod Lists
pub mod LocalCache
pub mod Quarantine
pub mod Release
pub mod Secondary
pub mod SizeClassMap
pub mod Tests
