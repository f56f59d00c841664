-- ===== src/Secondary/Cache/Store.antt =====
-- MapAllocatorCache::store.
use scudo.Common.{
  ℕ, zero, suc, ◌*◌, ◌%◌, ◌^◌, Bool, true, false, not, ◌&&◌, Option, some, List, [], ◌∷◌, ◌++◌,
  ◌==◌, if◌then◌else◌, ◌>>=◌, add_u32, sub_uptr, update, length,
}
use scudo.Secondary.Block.{
  ℤ, pos, negsuc, MemMap, CachedBlock, is_valid_block, Call, unmap, set_memory_permission,
  map_no_access, max, map_secondary,
}
use scudo.Secondary.Cache.{
  Config, MapAllocatorCache, no_quarantine_pos, insert, evict, release_older_than,
}

-- The entry that a call of `store` makes, and the calls that take its pages out of use.
unfoldable pub new_entry :
    Config → MapAllocatorCache → Bool → (Call → Bool) → ℕ → ℕ → ℕ → MemMap → CachedBlock × List Call
unfolding map_secondary
new_entry cfg c tagging remap_ok commit_base commit_size block_begin mem_map =
    if not tagging
    then (entry, [])
    else if is_zero c.release_to_os_interval_ms
    then (
      record entry { time = 0 },
      (map_secondary cfg.page_size tagging remap_ok commit_base commit_size commit_base
          map_no_access mem_map).1,
    )
    else (entry, set_memory_permission mem_map commit_base commit_size map_no_access ∷ [])
  where
    entry : CachedBlock
    entry = record {
      commit_base = commit_base;
      commit_size = commit_size;
      block_begin = block_begin;
      mem_map = mem_map;
      time = 0xFFFFFFFFFFFFFFFF;
    }

    is_zero : ℤ → Bool
    is_zero (pos zero) = true
    is_zero z = false

-- With the lock held: excess entries are evicted and the block is inserted as the most recent one.
unfoldable pub place : MapAllocatorCache → CachedBlock → Option (MapAllocatorCache × List MemMap)
unfolding evict insert
place c b = do
  (d, evicted) ← evict (suc (length c.lru_entries)) c []
  e ← insert d b
  some (record e { oldest_time = if e.oldest_time == 0 then b.time else e.oldest_time }, evicted)

abbrev pub unmap_all : List MemMap → List Call
unmap_all [] = []
unmap_all (m ∷ ms) = unmap m ∷ unmap_all ms

-- What becomes of a block with the lock held: the cache keeps it, in its list or, with memory tagging,
-- in its quarantine, which then may give another block to the list; or it is unmapped.
pub data Placing : Type 0 where
  quarantined : MapAllocatorCache → Placing
  unmapped : Placing
  placed : MapAllocatorCache → CachedBlock → Placing

unfoldable pub place_in_quarantine : Config → MapAllocatorCache → Bool → CachedBlock → Placing
unfolding is_valid_block
place_in_quarantine cfg c tagging b =
    if tagging && (c.quarantine_pos == no_quarantine_pos)
    then unmapped
    else if not (cfg.quarantine_size == 0) && tagging
    then (if not (is_valid_block (c.quarantine next))
        then quarantined kept
        else placed
            (record kept { oldest_time = if c.oldest_time == 0 then b.time else c.oldest_time })
            (c.quarantine next))
    else placed c b
  where
    next : ℕ
    next = add_u32 c.quarantine_pos 1 % max cfg.quarantine_size 1

    kept : MapAllocatorCache
    kept = record c { quarantine_pos = next; quarantine = update c.quarantine next b }

-- The release at the end of `store`, of what is older than the interval.
unfoldable pub release_old : Config → MapAllocatorCache → ℤ → ℕ → MapAllocatorCache × List Call
unfolding release_older_than
release_old cfg c (pos interval) now =
    release_older_than cfg c (sub_uptr now (interval * 1000000 % 2 ^ 64))
release_old cfg c (negsuc interval) now = (c, [])

-- `now` is the time once the lock is held.
unfoldable pub store :
    Config
    → MapAllocatorCache
    → Bool
    → (Call → Bool)
    → ℕ
    → ℕ
    → ℕ
    → ℕ
    → MemMap
    → Option (MapAllocatorCache × List Call)
unfolding new_entry place_in_quarantine place release_old
store cfg c tagging remap_ok now commit_base commit_size block_begin mem_map =
    finish (place_in_quarantine cfg c tagging timed)
  where
    entry : CachedBlock
    entry = (new_entry cfg c tagging remap_ok commit_base commit_size block_begin mem_map).0

    calls : List Call
    calls = (new_entry cfg c tagging remap_ok commit_base commit_size block_begin mem_map).1

    timed : CachedBlock
    timed = record entry { time = if entry.time == 0 then 0 else now }

    release : MapAllocatorCache → List Call → MapAllocatorCache × List Call
    release d so_far =
        let (e, released) = release_old cfg d c.release_to_os_interval_ms now in
        (e, so_far ++ released)

    finish : Placing → Option (MapAllocatorCache × List Call)
    finish (quarantined d) = some (d, calls)
    finish unmapped = some (release c (calls ++ unmap mem_map ∷ []))
    finish (placed d b) = do (e, evicted) ← place d b; some (release e (calls ++ unmap_all evicted))
