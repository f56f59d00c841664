-- ===== src/Secondary/Tests.antt =====
-- The secondary cache of four entries and of at most two blocks, on concrete blocks.
use scudo.Common.{
  none, ℕ, zero, suc, ◌+◌, ◌*◌, ◌≡◌, ◌<◌, ◌≤◌, refl, true, false, some, List, [], ◌∷◌, ◌++◌, arith,
  All,
}
use scudo.Secondary.Block.{pos, negsuc, MemMap, CachedBlock, Call, is_valid_block}
use scudo.Secondary.Cache.{init, Config, MapAllocatorCache}
use scudo.Secondary.Cache.Store.{store, unmap_all}
use scudo.Secondary.Cache.Retrieve.{Wish}
use scudo.Arena.Tests as Arena
use scudo.Arena.Pool.Flags.{ForceFlag}
use scudo.Secondary.Allocator.{MapAllocator, Machine}
use scudo.Secondary.Lru.{occ, IsCache, blocks, newest, older, mappings_from_oldest}
use scudo.Secondary.Starting.{init-IsCache}
use scudo.Secondary.Storing.{untimed_all, IsRelease, store-newest}

abbrev cfg : Config
cfg = record {
  entries_array_size = 4;
  quarantine_size = 0;
  default_max_entries_count = 2;
  default_max_entry_size = 1000000;
  min_release_interval = negsuc 2147483647;
  max_release_interval = pos 2147483647;
  default_release_interval = negsuc 2147483647;
  page_size = 4096;
}

abbrev block : ℕ → CachedBlock
block i = record {
  commit_base = 65536 * suc i;
  commit_size = 16384;
  block_begin = 65536 * suc i;
  mem_map = record { map_base = 65536 * i + 61440; map_capacity = 24576 };
  time = 5;
}

abbrev unused : CachedBlock
unused = record {
  commit_base = 0;
  commit_size = 0;
  block_begin = 0;
  mem_map = record { map_base = 0; map_capacity = 0 };
  time = 0;
}

abbrev entries : ℕ → CachedBlock
entries zero = block 0
entries (suc zero) = block 1
entries (suc (suc i)) = unused

abbrev cache : MapAllocatorCache
cache = record {
  quarantine_pos = 0;
  max_entries_count = 2;
  max_entry_size = 1000000;
  oldest_time = 5;
  release_to_os_interval_ms = pos 1000;
  calls_to_retrieve = 0;
  successful_retrieves = 0;
  entries = entries;
  quarantine = λ i. unused;
  lru_entries = 1 ∷ 0 ∷ [];
  avail_entries = 2 ∷ 3 ∷ [];
}

valid_at : (i : ℕ) → 0 < occ i cache.lru_entries → is_valid_block (entries i) ≡ true
unfolding is_valid_block
valid_at zero h = refl
valid_at (suc zero) h = refl
valid_at (suc (suc i)) h = absurd (ground (arith, h))

free_at : (i : ℕ) → 0 < occ i cache.avail_entries → is_valid_block (entries i) ≡ false
unfolding is_valid_block
free_at zero h = absurd (omega (arith, h))
free_at (suc zero) h = absurd (omega (arith, h))
free_at (suc (suc i)) h = refl

cache-IsCache : IsCache cfg cache
cache-IsCache = record {
  once = λ i l. ground arith;
  inside = λ i l. ground arith;
  counted = refl;
  valid = valid_at;
  free = free_at;
}

abbrev mapping : MemMap
mapping = record { map_base = 1044480; map_capacity = 24576 }

store-newest_example :
    (d : MapAllocatorCache) × (released : List Call) × (store cfg cache false
        (λ c. true)
        9
        1048576
        16384
        1048640
        mapping
      ≡ some (d, unmap_all (mappings_from_oldest (older 1 (blocks cache))) ++ released))
    × IsCache cfg d
    × (untimed_all (blocks d)
        ≡ untimed_all (
            record {
              commit_base = 1048576;
              commit_size = 16384;
              block_begin = 1048640;
              mem_map = mapping;
              time = 9;
            }
            ∷ newest 1 (blocks cache)))
    × All IsRelease released
store-newest_example =
    store-newest cfg cache 1 cache-IsCache refl (omega arith) (λ c. true) 9 1048576 16384 1048640
      mapping (omega arith)

abbrev wish : Wish
wish = record { max_allowed_fragmented_pages = 8; size = 9000; alignment = 16; headers_size = 80 }

abbrev machine : Machine
machine = record {
  process = record {
    pid = 77;
    cpus = 2;
    env = Arena.env;
    cache = record { ready = true; flags = λ v. false };
    os = λ unlinked i. Arena.os;
  };
  punch = λ i f. f;
  force = ForceFlag.clear;
  pressure = true;
  interval = 1;
  rseq_cpu = some 0;
  sched_cpu = some 0;
  now = 9;
  remap_ok = λ c. true;
  reserve = λ size. none;
}

abbrev allocator : MapAllocator
allocator = record {
  cache = cache;
  headers =
      λ q. record { commit_base = 0; commit_size = 0; arena_owner_pid = 0; mem_map = mapping };
  in_use_blocks = [];
  allocated_bytes = 0;
  freed_bytes = 0;
  fragmented_bytes = 0;
  largest_size = 0;
  number_of_allocs = 0;
  number_of_frees = 0;
  stat_allocated = 0;
  stat_mapped = 0;
}

abbrev fresh : MapAllocatorCache
fresh = record cache { entries = λ i. unused }

init-IsCache_example :
    IsCache cfg (init cfg fresh (pos 1000))
    × (blocks (init cfg fresh (pos 1000)) ≡ [])
    × ((init cfg fresh (pos 1000)).max_entries_count ≤ 4)
unfolding is_valid_block
init-IsCache_example = init-IsCache cfg fresh (pos 1000) (λ i. refl)
