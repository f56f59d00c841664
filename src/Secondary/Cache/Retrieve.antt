-- ===== src/Secondary/Cache/Retrieve.antt =====
-- MapAllocatorCache::retrieve, and what empties the cache or turns memory tagging off.
use scudo.Common.{
  ℕ, zero, suc, ◌*◌, ◌/◌, ◌%◌, ◌^◌, Bool, not, ◌&&◌, ◌||◌, Option, none, some, List, [], ◌∷◌, ◌++◌,
  ltb, leb, ◌==◌, if◌then◌else◌, add_u32, add_uptr, sub_uptr, update, length, min,
}
use scudo.Arith.{round_up, round_down}
use scudo.Secondary.Block.{
  CachedBlock, no_block, is_valid_block, invalidate, Call, unmap, set_memory_permission,
  release_and_zero_pages, max_unreleased_cache_pages, max_released_cache_pages,
}
use scudo.Secondary.Cache.{Config, MapAllocatorCache, no_quarantine_pos, remove, release_older_than}

-- What `retrieve` keeps of its walk: the best block so far, how many bytes it would waste, and where
-- the headers would go.
pub record Pick : Type 0 where
  pub retrieved_entry : Option ℕ
  pub min_diff : ℕ
  pub entry_header_pos : ℕ

pub record Wish : Type 0 where
  pub max_allowed_fragmented_pages : ℕ
  pub size : ℕ
  pub alignment : ℕ
  pub headers_size : ℕ

unfoldable pub block_end : CachedBlock → ℕ
block_end b = add_uptr b.commit_base b.commit_size

unfoldable pub alloc_pos_in : CachedBlock → Wish → ℕ
unfolding block_end
alloc_pos_in b w = round_down (sub_uptr (block_end b) w.size) w.alignment

unfoldable pub header_pos_in : CachedBlock → Wish → ℕ
unfolding alloc_pos_in
header_pos_in b w = sub_uptr (alloc_pos_in b w) w.headers_size

-- The block is large enough, and not too large.
unfoldable pub fits_in : Config → CachedBlock → Wish → Bool
unfolding header_pos_in alloc_pos_in block_end
fits_in cfg b w =
    not (ltb (block_end b) header_pos)
    && not
        (ltb header_pos b.commit_base || ltb (add_uptr b.commit_base max_bytes) (alloc_pos_in b w))
  where
    header_pos : ℕ
    header_pos = header_pos_in b w

    max_bytes : ℕ
    max_bytes = w.max_allowed_fragmented_pages * cfg.page_size % 2 ^ 64

unfoldable pub diff_in : Config → CachedBlock → Wish → ℕ
unfolding header_pos_in
diff_in cfg b w = sub_uptr (round_down (header_pos_in b w) cfg.page_size) b.commit_base

-- A tenth of what would be used is little enough to waste.
unfoldable pub is_optimal : Config → CachedBlock → Wish → Bool
unfolding block_end header_pos_in diff_in
is_optimal cfg b w = leb (diff_in cfg b w) (sub_uptr (block_end b) (header_pos_in b w) / 10)

unfoldable pub scan : Config → (ℕ → CachedBlock) → Wish → List ℕ → Pick → Pick
scan cfg entries w [] p = p
scan cfg entries w (i ∷ is) p =
    let b = entries i in
    let better = fits_in cfg b w && ltb (diff_in cfg b w) p.min_diff in
    let q : Pick = record {
      retrieved_entry = some i;
      min_diff = diff_in cfg b w;
      entry_header_pos = header_pos_in b w;
    } in
    let rest = scan cfg entries w is (if better then q else p) in
    if better && is_optimal cfg b w then q else rest

-- The pages in front of the headers, beyond a few, are released.
unfoldable pub trim : Config → CachedBlock → ℕ → List Call
trim cfg b header_pos =
    if not (b.time == 0) && ltb max_unreleased fragmented
    then release_and_zero_pages b.mem_map b.commit_base to_release ∷ []
    else []
  where
    fragmented : ℕ
    fragmented = sub_uptr (round_down header_pos cfg.page_size) b.commit_base

    max_unreleased : ℕ
    max_unreleased = max_unreleased_cache_pages * cfg.page_size % 2 ^ 64

    max_released : ℕ
    max_released = max_released_cache_pages * cfg.page_size % 2 ^ 64

    to_release : ℕ
    to_release = round_up (min max_released (sub_uptr fragmented max_unreleased)) cfg.page_size

-- What the walk found is taken: the block, which is not valid if there is none, and where its headers
-- go.
unfoldable pub take_pick :
    Config → MapAllocatorCache → Pick → CachedBlock × ℕ × MapAllocatorCache × List Call
unfolding trim remove no_block
take_pick cfg c p = taken p.retrieved_entry
  where
    hit : MapAllocatorCache → MapAllocatorCache
    hit d = record d { successful_retrieves = add_u32 d.successful_retrieves 1 }

    taken : Option ℕ → CachedBlock × ℕ × MapAllocatorCache × List Call
    taken none = (no_block, p.entry_header_pos, c, [])
    taken (some i) = (
      c.entries i,
      p.entry_header_pos,
      hit (remove c i),
      trim cfg (c.entries i) p.entry_header_pos,
    )

unfoldable pub retrieve :
    Config → MapAllocatorCache → Wish → CachedBlock × ℕ × MapAllocatorCache × List Call
unfolding scan take_pick
retrieve cfg c w = take_pick cfg called (scan cfg c.entries w c.lru_entries start)
  where
    start : Pick
    start = record { retrieved_entry = none; min_diff = 0xFFFFFFFFFFFFFFFF; entry_header_pos = 0 }

    called : MapAllocatorCache
    called = record c { calls_to_retrieve = add_u32 c.calls_to_retrieve 1 }

unfoldable pub release_to_os : Config → MapAllocatorCache → MapAllocatorCache × List Call
unfolding release_older_than
release_to_os cfg c = release_older_than cfg c 0xFFFFFFFFFFFFFFFF

-- The first `n` blocks of the quarantine are unmapped.
unfoldable pub flush_quarantine : (ℕ → CachedBlock) → ℕ → (ℕ → CachedBlock) × List Call
unfolding is_valid_block invalidate
flush_quarantine blocks zero = (blocks, [])
flush_quarantine blocks (suc n) =
    let (before, calls) = flush_quarantine blocks n in
    if is_valid_block (before n)
    then (update before n (invalidate (before n)), calls ++ unmap (before n).mem_map ∷ [])
    else (before, calls)

abbrev pub allow_each : (ℕ → CachedBlock) → List ℕ → List Call
allow_each entries [] = []
allow_each entries (i ∷ is) =
    set_memory_permission (entries i).mem_map (entries i).commit_base (entries i).commit_size 0
    ∷ allow_each entries is

unfoldable pub disable_memory_tagging : Config → MapAllocatorCache → MapAllocatorCache × List Call
unfolding flush_quarantine
disable_memory_tagging cfg c = (
  record c { quarantine = flushed.0; quarantine_pos = no_quarantine_pos },
  flushed.1 ++ allow_each c.entries c.lru_entries,
)
  where
    flushed : (ℕ → CachedBlock) × List Call
    flushed = flush_quarantine c.quarantine cfg.quarantine_size

abbrev pub unmap_each : (ℕ → CachedBlock) → List ℕ → List Call
unmap_each entries [] = []
unmap_each entries (i ∷ is) = unmap (entries i).mem_map ∷ unmap_each entries is

-- The entries do not become available again.
unfoldable pub empty : MapAllocatorCache → MapAllocatorCache × List Call
empty c = (record c { lru_entries = [] }, unmap_each c.entries c.lru_entries)

pub record SecondaryCacheDebugStats : Type 0 where
  pub entries_count : ℕ
  pub cached_bytes : ℕ
  pub unreleased_bytes : ℕ
  pub released_bytes : ℕ
  pub max_entries_count : ℕ
  pub max_entry_size : ℕ
  pub retrieve_calls : ℕ
  pub retrieve_hits : ℕ

unfoldable pub count_bytes :
    (ℕ → CachedBlock) → List ℕ → SecondaryCacheDebugStats → SecondaryCacheDebugStats
count_bytes entries [] out = out
count_bytes entries (i ∷ is) out = count_bytes entries is (record out {
  cached_bytes = add_uptr out.cached_bytes size;
  released_bytes =
      if (entries i).time == 0 then add_uptr out.released_bytes size else out.released_bytes;
  unreleased_bytes =
      if (entries i).time == 0 then out.unreleased_bytes else add_uptr out.unreleased_bytes size;
})
  where
    size : ℕ
    size = (entries i).commit_size

unfoldable pub get_debug_stats : MapAllocatorCache → SecondaryCacheDebugStats
unfolding count_bytes
get_debug_stats c = count_bytes c.entries c.lru_entries (record {
  entries_count = length c.lru_entries;
  cached_bytes = 0;
  unreleased_bytes = 0;
  released_bytes = 0;
  max_entries_count = c.max_entries_count;
  max_entry_size = c.max_entry_size;
  retrieve_calls = c.calls_to_retrieve;
  retrieve_hits = c.successful_retrieves;
})
