-- ===== src/Secondary/Cache.antt =====
-- MapAllocatorCache: mappings that are not in use, the most recent first, for a later allocation.
pub mod Store
pub mod Retrieve
use scudo.Common.{
  ℕ, zero, suc, ◌+◌, ◌*◌, ◌/◌, ◌%◌, ◌^◌, Bool, true, false, not, ◌&&◌, ◌||◌, Option, none, some,
  List, [], ◌∷◌, ◌++◌, ltb, leb, ◌==◌, if◌then◌else◌, ◌>>=◌, add_u32, add_uptr, sub_uptr, update,
  length, min,
}
use scudo.Arith.{round_up, round_down}
use scudo.Secondary.Block.{
  ℤ, pos, negsuc, le_z, min_z, max_z, of_u32, to_u32, to_uptr, is_negative, MemMap, CachedBlock,
  no_block, is_valid_block, invalidate, Call, unmap, set_memory_permission, release_and_zero_pages,
  map_no_access, max, map_secondary, max_unreleased_cache_pages, max_released_cache_pages,
}

-- The constants of a configuration, and the page size.
pub record Config : Type 0 where
  pub entries_array_size : ℕ
  pub quarantine_size : ℕ
  pub default_max_entries_count : ℕ
  pub default_max_entry_size : ℕ
  pub min_release_interval : ℤ
  pub max_release_interval : ℤ
  pub default_release_interval : ℤ
  pub page_size : ℕ

-- The two lists are linked through the array of entries, and are lists of its indices here.
pub record MapAllocatorCache : Type 0 where
  pub quarantine_pos : ℕ
  pub max_entries_count : ℕ
  pub max_entry_size : ℕ
  pub oldest_time : ℕ
  pub release_to_os_interval_ms : ℤ
  pub calls_to_retrieve : ℕ
  pub successful_retrieves : ℕ
  pub entries : ℕ → CachedBlock
  pub quarantine : ℕ → CachedBlock
  pub lru_entries : List ℕ
  pub avail_entries : List ℕ

abbrev pub no_quarantine_pos : ℕ
no_quarantine_pos = 0xFFFFFFFF

pub data CacheOption : Type 0 where
  release_interval max_cache_entries_count max_cache_entry_size other_option : CacheOption

unfoldable pub set_option : Config → MapAllocatorCache → CacheOption → ℤ → Bool × MapAllocatorCache
set_option cfg c release_interval value = (
  true,
  record c {
    release_to_os_interval_ms =
        max_z (min_z (of_u32 (to_u32 value)) cfg.max_release_interval) cfg.min_release_interval;
  },
)
set_option cfg c max_cache_entries_count value =
    if is_negative value
    then (false, c)
    else (true, record c { max_entries_count = min (to_u32 value) cfg.entries_array_size })
set_option cfg c max_cache_entry_size value = (true, record c { max_entry_size = to_uptr value })
set_option cfg c other_option value = (true, c)

-- The indices from `i` on, `n` of them.
abbrev pub indices : ℕ → ℕ → List ℕ
indices i zero = []
indices i (suc n) = i ∷ indices (suc i) n

-- INT32_MIN, the least s32, stands for no default of the configuration.
unfoldable pub init : Config → MapAllocatorCache → ℤ → MapAllocatorCache
unfolding set_option
init cfg c interval = record with_interval {
  lru_entries = [];
  avail_entries = indices 0 cfg.entries_array_size;
}
  where
    with_count : MapAllocatorCache
    with_count = (set_option cfg c max_cache_entries_count (pos cfg.default_max_entries_count)).1

    with_size : MapAllocatorCache
    with_size = (set_option cfg with_count max_cache_entry_size (pos cfg.default_max_entry_size)).1

    with_interval : MapAllocatorCache
    with_interval =
        (set_option cfg with_size release_interval (
          if le_z cfg.default_release_interval (negsuc 2147483647)
          then interval
          else cfg.default_release_interval)).1

unfoldable pub can_cache : MapAllocatorCache → ℕ → Bool
can_cache c size = not (c.max_entries_count == 0) && leb size c.max_entry_size

-- An entry leaves a list.
unfoldable pub drop_index : ℕ → List ℕ → List ℕ
drop_index i [] = []
drop_index i (j ∷ js) = let rest = drop_index i js in if i == j then js else j ∷ rest

-- `none` is the fault of a null pointer: no entry is available.
unfoldable pub insert : MapAllocatorCache → CachedBlock → Option MapAllocatorCache
insert c b = put c.avail_entries
  where
    put : List ℕ → Option MapAllocatorCache
    put [] = none
    put (i ∷ is) = some (record c {
      entries = update c.entries i b;
      lru_entries = i ∷ c.lru_entries;
      avail_entries = is;
    })

unfoldable pub remove : MapAllocatorCache → ℕ → MapAllocatorCache
unfolding drop_index invalidate
remove c i = record c {
  entries = update c.entries i (invalidate (c.entries i));
  lru_entries = drop_index i c.lru_entries;
  avail_entries = i ∷ c.avail_entries;
}

unfoldable pub back : List ℕ → Option ℕ
back [] = none
back (i ∷ []) = some i
back (i ∷ j ∷ is) = back (j ∷ is)

-- The entries in excess are evicted, the oldest first, and their mappings kept to be unmapped. `none`
-- is the fault of a null pointer, or more rounds than the fuel.
unfoldable pub evict :
    ℕ → MapAllocatorCache → List MemMap → Option (MapAllocatorCache × List MemMap)
unfolding back remove
evict zero c out = none
evict (suc fuel) c out =
    let rest =
      back c.lru_entries >>= λ i. evict fuel (remove c i) (out ++ (c.entries i).mem_map ∷ []) in
    if leb c.max_entries_count (length c.lru_entries) then rest else some (c, out)

-- An entry that is valid, not released and not younger than `time` is released.
unfoldable pub release_if_older_than : CachedBlock → ℕ → ℕ → CachedBlock × ℕ × List Call
unfolding is_valid_block
release_if_older_than b oldest time =
    if not (is_valid_block b) || (b.time == 0)
    then (b, oldest, [])
    else if ltb time b.time
    then (b, (if (oldest == 0) || ltb b.time oldest then b.time else oldest), [])
    else (
      record b { time = 0 },
      oldest,
      release_and_zero_pages b.mem_map b.commit_base b.commit_size ∷ [],
    )

-- This for the first `n` of an array, in order.
unfoldable pub release_each : (ℕ → CachedBlock) → ℕ → ℕ → ℕ → (ℕ → CachedBlock) × ℕ × List Call
unfolding release_if_older_than
release_each blocks zero oldest time = (blocks, oldest, [])
release_each blocks (suc n) oldest time =
    let (before, o, calls) = release_each blocks n oldest time in
    let (b, o', more) = release_if_older_than (before n) o time in
    (update before n b, o', calls ++ more)

unfoldable pub release_older_than : Config → MapAllocatorCache → ℕ → MapAllocatorCache × List Call
unfolding release_each
release_older_than cfg c time =
    if (length c.lru_entries == 0) || (c.oldest_time == 0) || ltb time c.oldest_time
    then (c, [])
    else (
      record c { oldest_time = second.1; quarantine = first.0; entries = second.0 },
      first.2 ++ second.2,
    )
  where
    first : (ℕ → CachedBlock) × ℕ × List Call
    first = release_each c.quarantine cfg.quarantine_size 0 time

    second : (ℕ → CachedBlock) × ℕ × List Call
    second = release_each c.entries cfg.entries_array_size first.1 time
