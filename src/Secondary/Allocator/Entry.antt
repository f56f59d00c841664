-- ===== src/Secondary/Allocator/Entry.antt =====
-- MapAllocator::allocate and deallocate, and what walks over the blocks in use.
use scudo.Common.{
  ℕ, ◌%◌, ◌^◌, Bool, false, not, ◌&&◌, Option, none, some, List, [], ◌∷◌, ◌++◌, ltb, ◌==◌,
  if◌then◌else◌, ◌>>=◌, add_u32, add_uptr, sub_uptr, update,
}
use scudo.Arith.{round_up}
use scudo.Arena.State.{SharedArena}
use scudo.Arena.Store as Store
use scudo.Arena.Pool.{
  SharedArenaPool, is_arena_addr, get_owning_arena, get_current_arena, should_use_arena,
}
use scudo.Secondary.Block.{Call, unmap, max}
use scudo.Secondary.Cache.{Config, MapAllocatorCache, can_cache, drop_index}
use scudo.Secondary.Cache.Store.{store}
use scudo.Secondary.Allocator.{
  LargeHeader, large_header_size, get_headers_size, min_alignment, MapAllocator, Machine, user_ptr,
  try_allocate_from_cache, try_allocate_from_arena, allocate_by_mapping,
}

-- The paths in order: an arena, if the pool's state wants that, the cache, and a new mapping.
unfoldable pub allocate :
    Config
    → Machine
    → MapAllocator
    → SharedArenaPool
    → Bool
    → ℕ
    → ℕ
    → Bool
    → Option (Option ℕ × MapAllocator × SharedArenaPool × List Call)
unfolding try_allocate_from_arena try_allocate_from_cache allocate_by_mapping
allocate cfg w m p slack size alignment_hint fill = do
  (use_arena, q) ← should_use_arena w.process w.punch w.force w.pressure w.interval p
  (ptr, m', q') ←
      if use_arena && ltb alignment cfg.page_size
      then try_allocate_from_arena w m q wanted alignment fill
      else some (none, m, q)
  some (after_arena ptr m' q')
  where
    wanted : ℕ
    wanted = if slack then add_uptr size min_alignment else size

    alignment : ℕ
    alignment = max alignment_hint min_alignment

    needed_for_cache : ℕ
    needed_for_cache = round_up (add_uptr wanted get_headers_size) cfg.page_size

    after_cache :
        SharedArenaPool
        → Option ℕ × MapAllocator × List Call
        → Option ℕ × MapAllocator × SharedArenaPool × List Call
    after_cache q (some ptr, m', calls) = (some ptr, m', q, calls)
    after_cache q (none, m', calls) =
        let (ptr, m'', more) = allocate_by_mapping cfg w m' wanted alignment in
        (ptr, m'', q, calls ++ more)

    after_arena :
        Option ℕ
        → MapAllocator
        → SharedArenaPool
        → Option ℕ × MapAllocator × SharedArenaPool × List Call
    after_arena (some ptr) m' q = (some ptr, m', q, [])
    after_arena none m' q = after_cache q (
        if ltb alignment cfg.page_size && can_cache m'.cache needed_for_cache
        then try_allocate_from_cache cfg m' wanted alignment
        else (none, m', []))

-- The block leaves the list of those in use.
unfoldable pub remove_block : MapAllocator → ℕ → MapAllocator
unfolding drop_index
remove_block m at = record m {
  in_use_blocks = drop_index at m.in_use_blocks;
  freed_bytes = add_uptr m.freed_bytes h.commit_size;
  fragmented_bytes = sub_uptr m.fragmented_bytes (sub_uptr h.mem_map.map_capacity h.commit_size);
  number_of_frees = add_u32 m.number_of_frees 1;
  stat_allocated = sub_uptr m.stat_allocated h.commit_size;
  stat_mapped = sub_uptr m.stat_mapped h.mem_map.map_capacity;
}
  where
    h : LargeHeader
    h = m.headers at

-- The arena with the log is the current one, or else the owner.
unfoldable pub store_in_arena : Machine → SharedArenaPool → ℕ → LargeHeader → Option SharedArenaPool
store_in_arena w p owner h =
    if not (h.arena_owner_pid == w.process.pid % 2 ^ 32)
    then some p
    else to_log (get_current_arena w.rseq_cpu w.sched_cpu p)
  where
    here : Option SharedArenaPool
    here = do
      (ok, a, l) ←
          Store.store w.process.env (p.arenas owner) none h.mem_map.map_base h.mem_map.map_capacity
      some (record p { arenas = update p.arenas owner a })

    both : ℕ → SharedArena → Option SharedArena → SharedArenaPool
    both log a none = record p { arenas = update p.arenas owner a }
    both log a (some l) = record p { arenas = update (update p.arenas owner a) log l }

    in_log : ℕ → Option SharedArenaPool
    in_log log = do
      (ok, a, l) ←
          Store.store w.process.env (p.arenas owner) (some (p.arenas log)) h.mem_map.map_base
            h.mem_map.map_capacity
      some (both log a l)

    to_log : Option ℕ → Option SharedArenaPool
    to_log none = here
    to_log (some log) = let there = in_log log in if log == owner then here else there

-- A block of an arena goes back to its arena, and nowhere else: what the arena refuses is lost. Other
-- blocks go to the cache, or are unmapped.
unfoldable pub deallocate :
    Config
    → Machine
    → MapAllocator
    → SharedArenaPool
    → ℕ
    → Option (MapAllocator × SharedArenaPool × List Call)
unfolding remove_block store_in_arena
deallocate cfg w m p ptr =
    if p.initialized && is_arena_addr p h.mem_map.map_base
    then to_owner (get_owning_arena p h.mem_map.map_base)
    else if can_cache m.cache h.commit_size
    then (store cfg m.cache false w.remap_ok w.now h.commit_base h.commit_size (user_ptr at)
          h.mem_map
        >>= cached)
    else some (freed, p, unmap h.mem_map ∷ [])
  where
    at : ℕ
    at = sub_uptr ptr large_header_size

    h : LargeHeader
    h = m.headers at

    freed : MapAllocator
    freed = remove_block m at

    to_owner : Option ℕ → Option (MapAllocator × SharedArenaPool × List Call)
    to_owner none = some (freed, p, [])
    to_owner (some i) = store_in_arena w p i h >>= λ q. some (freed, q, [])

    cached : MapAllocatorCache × List Call → Option (MapAllocator × SharedArenaPool × List Call)
    cached (c, calls) = some (record freed { cache = c }, p, calls)

-- The pointers of the blocks in use, in the order of the list.
unfoldable pub iterate_over_blocks : List ℕ → List ℕ
unfolding user_ptr
iterate_over_blocks [] = []
iterate_over_blocks (at ∷ ats) = user_ptr at ∷ iterate_over_blocks ats

unfoldable pub get_block_end : MapAllocator → ℕ → ℕ
get_block_end m ptr = add_uptr h.commit_base h.commit_size
  where
    h : LargeHeader
    h = m.headers (sub_uptr ptr large_header_size)

unfoldable pub get_block_size : MapAllocator → ℕ → ℕ
unfolding get_block_end
get_block_size m ptr = sub_uptr (get_block_end m ptr) ptr
