-- ===== src/Secondary/Allocator.antt =====
-- MapAllocator: large blocks from a shared arena, from the cache or from a new mapping, and where they
-- go when they are freed. Memory tagging is off, as it is for every block of an arena.
pub mod Entry
use scudo.Common.{
  ℕ, ◌+◌, ◌*◌, ◌-◌, ◌%◌, ◌^◌, Bool, true, false, not, ◌&&◌, ◌||◌, Option, none, some, List, [], ◌∷◌,
  ◌++◌, ltb, leb, ◌==◌, if◌then◌else◌, ◌>>=◌, add_u32, add_uptr, sub_uptr, update,
}
use scudo.Arith.{round_up, round_down}
use scudo.Arena.State.{SharedArena, Blocks, Env}
use scudo.Arena.Store as Store
use scudo.Arena.Retrieve as Retrieve
use scudo.Arena.Retrieve.{Block}
use scudo.Arena.Pool.{
  SharedArenaPool, Process, is_arena_addr, get_owning_arena, get_current_arena, should_use_arena,
}
use scudo.Arena.Pool.Flags.{ForceFlag, Variable}
use scudo.Secondary.Block.{
  MemMap, CachedBlock, is_valid_block, Call, unmap, max, map_secondary, max_unreleased_cache_pages,
  max_released_cache_pages,
}
use scudo.Secondary.Cache.{Config, MapAllocatorCache, can_cache, drop_index}
use scudo.Secondary.Cache.Store.{store}
use scudo.Secondary.Cache.Retrieve.{Wish, retrieve}

-- `LargeBlock::Header` without the links, which the list of the blocks in use stands for.
pub record LargeHeader : Type 0 where
  pub commit_base : ℕ
  pub commit_size : ℕ
  pub arena_owner_pid : ℕ
  pub mem_map : MemMap

-- `sizeof(LargeBlock::Header)` on 64-bit Linux, and with it the chunk's header in front of the user's
-- bytes.
abbrev pub large_header_size : ℕ
large_header_size = 64

abbrev pub get_headers_size : ℕ
get_headers_size = 16 + large_header_size

-- `1 << SCUDO_MIN_ALIGNMENT_LOG`
abbrev pub min_alignment : ℕ
min_alignment = 16

-- `headers` is the memory in which the headers stand, by address.
pub record MapAllocator : Type 0 where
  pub cache : MapAllocatorCache
  pub headers : ℕ → LargeHeader
  pub in_use_blocks : List ℕ
  pub allocated_bytes : ℕ
  pub freed_bytes : ℕ
  pub fragmented_bytes : ℕ
  pub largest_size : ℕ
  pub number_of_allocs : ℕ
  pub number_of_frees : ℕ
  pub stat_allocated : ℕ
  pub stat_mapped : ℕ

-- What a call finds around it: the process, the CPU it runs on, the time, whether the system grants a
-- call, and the mapping that it reserves for a size.
pub record Machine : Type 0 where
  pub process : Process
  pub punch : ℕ → Blocks → Blocks
  pub force : ForceFlag
  pub pressure : Bool
  pub interval : ℕ
  pub rseq_cpu : Option ℕ
  pub sched_cpu : Option ℕ
  pub now : ℕ
  pub remap_ok : Call → Bool
  pub reserve : ℕ → Option MemMap

-- The header is written and the block counted as in use. The count of the largest size and that of
-- the fragmented bytes are each left alone on one of the three paths.
unfoldable pub add_block : MapAllocator → ℕ → LargeHeader → MapAllocator
add_block m at h = record m {
  headers = update m.headers at h;
  in_use_blocks = m.in_use_blocks ++ at ∷ [];
  allocated_bytes = add_uptr m.allocated_bytes h.commit_size;
  number_of_allocs = add_u32 m.number_of_allocs 1;
  stat_allocated = add_uptr m.stat_allocated h.commit_size;
  stat_mapped = add_uptr m.stat_mapped h.mem_map.map_capacity;
}

unfoldable pub add_fragmented : MapAllocator → LargeHeader → MapAllocator
add_fragmented m h = record m {
  fragmented_bytes = add_uptr m.fragmented_bytes (sub_uptr h.mem_map.map_capacity h.commit_size);
}

unfoldable pub raise_largest : MapAllocator → LargeHeader → MapAllocator
raise_largest m h = record m { largest_size = max m.largest_size h.commit_size }

-- The pointer that the caller gets for the header at an address.
unfoldable pub user_ptr : ℕ → ℕ
user_ptr at = add_uptr at large_header_size

unfoldable pub try_allocate_from_cache :
    Config → MapAllocator → ℕ → ℕ → Option ℕ × MapAllocator × List Call
unfolding retrieve is_valid_block add_block add_fragmented user_ptr
try_allocate_from_cache cfg m size alignment =
    if is_valid_block b
    then (
      some (user_ptr at),
      add_fragmented (add_block (record m { cache = cache }) at header) header,
      calls,
    )
    else (none, record m { cache = cache }, calls)
  where
    wish : Wish
    wish = record {
      max_allowed_fragmented_pages = max_unreleased_cache_pages + max_released_cache_pages;
      size = size;
      alignment = alignment;
      headers_size = get_headers_size;
    }

    b : CachedBlock
    b = (retrieve cfg m.cache wish).0

    at : ℕ
    at = (retrieve cfg m.cache wish).1

    cache : MapAllocatorCache
    cache = (retrieve cfg m.cache wish).2

    calls : List Call
    calls = (retrieve cfg m.cache wish).3

    header : LargeHeader
    header = record {
      commit_base = b.commit_base;
      commit_size = b.commit_size;
      arena_owner_pid = 0;
      mem_map = b.mem_map;
    }

-- `fill` tells whether the contents are to be filled. `none` is a thread that spins on a lock, or the
-- fault of a null log ring.
unfoldable pub try_allocate_from_arena :
    Machine
    → MapAllocator
    → SharedArenaPool
    → ℕ
    → ℕ
    → Bool
    → Option (Option ℕ × MapAllocator × SharedArenaPool)
unfolding add_block raise_largest user_ptr
try_allocate_from_arena w m p size alignment fill =
    if not p.initialized
    then some (none, m, p)
    else if fill && w.process.cache.flags Variable.disable_fill_alloc
    then some (none, m, p)
    else from_arena (get_current_arena w.rseq_cpu w.sched_cpu p)
  where
    header : Block → LargeHeader
    header b = record {
      commit_base = b.commit_base;
      commit_size = b.commit_size;
      arena_owner_pid = w.process.pid % 2 ^ 32;
      mem_map = record { map_base = b.commit_base; map_capacity = b.commit_size };
    }

    finish : Option Block → SharedArenaPool → Option ℕ × MapAllocator × SharedArenaPool
    finish none q = (none, m, q)
    finish (some b) q = (
      some (user_ptr b.entry_header_pos),
      raise_largest (add_block m b.entry_header_pos (header b)) (header b),
      q,
    )

    from_arena : Option ℕ → Option (Option ℕ × MapAllocator × SharedArenaPool)
    from_arena none = some (none, m, p)
    from_arena (some i) = do
      (r, a) ← Retrieve.retrieve w.process.env (p.arenas i) size alignment get_headers_size
      some (finish r (record p { arenas = update p.arenas i a }))

-- A new mapping with a guard page at each end, on a 64-bit platform.
unfoldable pub allocate_by_mapping :
    Config → Machine → MapAllocator → ℕ → ℕ → Option ℕ × MapAllocator × List Call
unfolding map_secondary add_block add_fragmented raise_largest user_ptr
allocate_by_mapping cfg w m size alignment = in_mapping (w.reserve map_size)
  where
    page : ℕ
    page = cfg.page_size

    rounded_size : ℕ
    rounded_size =
        let plain = round_up (add_uptr (round_up size alignment) get_headers_size) page in
        if ltb page alignment then add_uptr plain (sub_uptr alignment page) else plain

    map_size : ℕ
    map_size = add_uptr rounded_size (2 * page % 2 ^ 64)

    commit_base_in : ℕ → ℕ
    commit_base_in map_base =
        if leb page alignment
        then sub_uptr (round_up (add_uptr (add_uptr map_base page) 1) alignment) page
        else add_uptr map_base page

    commit_size_in : ℕ → ℕ
    commit_size_in map_base =
        sub_uptr (sub_uptr (add_uptr map_base map_size) page) (commit_base_in map_base)

    alloc_pos_in : ℕ → ℕ
    alloc_pos_in map_base =
        round_down (sub_uptr (add_uptr (commit_base_in map_base) (commit_size_in map_base)) size)
          alignment

    header : MemMap → LargeHeader
    header mem = record {
      commit_base = commit_base_in mem.map_base;
      commit_size = commit_size_in mem.map_base;
      arena_owner_pid = 0;
      mem_map = mem;
    }

    finish : MemMap → Bool × List Call → Option ℕ × MapAllocator × List Call
    finish mem (false, calls) = (none, m, calls ++ unmap mem ∷ [])
    finish mem (true, calls) =
        let at = sub_uptr (alloc_pos_in mem.map_base) get_headers_size in
        let h = header mem in
        (some (user_ptr at), raise_largest (add_fragmented (add_block m at h) h) h, calls)

    in_mapping : Option MemMap → Option ℕ × MapAllocator × List Call
    in_mapping none = (none, m, [])
    in_mapping (some mem) = finish mem (
        map_secondary page false w.remap_ok (commit_base_in mem.map_base)
          (commit_size_in mem.map_base) (alloc_pos_in mem.map_base) 0 mem)
