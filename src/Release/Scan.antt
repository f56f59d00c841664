-- ===== src/Release/Scan.antt =====
-- releaseFreeMemoryToOS of release.h: the pages whose blocks are all free are found and released.
pub mod Boundaries
pub mod Exact
pub mod Released
use scudo.Common.{
  ℕ, zero, suc, ◌+◌, ◌-◌, ◌*◌, ◌/◌, ◌%◌, ◌^◌, Bool, true, false, ltb, if◌then◌else◌, add_uptr,
  sub_uptr,
}
use scudo.Arith.{round_up_slow}
use scudo.Release.PageMap.{RegionPageMap, update_as_all_counted_if}
use scudo.Release.Tracker.{
  FreePagesRangeTracker, new_tracker, process_next_page, skip_pages, finish,
}
use scudo.Release.Context.{System, page_size, PageReleaseContext}

-- The boundaries that the slow path keeps: the end of the page before, and the first block that starts
-- at it or behind it.
pub record Bounds : Type 0 where
  pub prev_page_boundary : ℕ
  pub current_boundary : ℕ

-- `Pn`: how many blocks fit in a page, at least one.
unfoldable pub blocks_in_page : ℕ → ℕ → ℕ
blocks_in_page page block = if ltb block page then page / block else 1

-- One page of the slow path: the number of blocks that touch it, and the boundaries for the next one.
unfoldable pub next_page : ℕ → ℕ → Bounds → ℕ × Bounds
unfolding blocks_in_page
next_page page block b = (
  if starts
      then add_uptr (add_uptr pn (if ltb b.prev_page_boundary b.current_boundary then 1 else 0))
          (if ltb past boundary then 1 else 0)
      else pn,
  record {
    prev_page_boundary = boundary;
    current_boundary =
        if starts
        then (if ltb past boundary then add_uptr past block else past)
        else b.current_boundary;
  },
)
  where
    boundary : ℕ
    boundary = add_uptr b.prev_page_boundary page

    pn : ℕ
    pn = blocks_in_page page block

    starts : Bool
    starts = ltb b.current_boundary boundary

    past : ℕ
    past = add_uptr b.current_boundary (pn * block % 2 ^ 64)

-- The boundaries in front of the first page.
unfoldable pub first_bounds : System → PageReleaseContext → Bounds
first_bounds sys c =
    if ltb 0 c.release_page_offset
    then record { prev_page_boundary = start; current_boundary = round_up_slow start c.block_size }
    else record { prev_page_boundary = 0; current_boundary = 0 }
  where
    start : ℕ
    start = c.release_page_offset * page_size sys % 2 ^ 64

module _ {R : Type 0} (release : R → ℕ → ℕ → R) (sys : System) where
  -- A page and what is expected of its counter.
  abbrev pub scan_page :
      RegionPageMap → FreePagesRangeTracker R → ℕ → ℕ → ℕ → RegionPageMap × FreePagesRangeTracker R
  scan_page m t region i expected =
      let (can_release, m') = update_as_all_counted_if m region i expected in
      (m', process_next_page release sys.page_size_log t can_release)

  -- `n` pages from page `j` on, where every page has the same number of blocks.
  unfoldable pub fast_pages :
      ℕ
      → ℕ
      → RegionPageMap
      → FreePagesRangeTracker R
      → ℕ
      → ℕ
      → RegionPageMap × FreePagesRangeTracker R
  fast_pages region expected m t j zero = (m, t)
  fast_pages region expected m t j (suc n) =
      let (m', t') = scan_page m t region j expected in fast_pages region expected m' t' (suc j) n

  unfoldable pub slow_pages :
      ℕ
      → ℕ
      → RegionPageMap
      → FreePagesRangeTracker R
      → Bounds
      → ℕ
      → ℕ
      → RegionPageMap × FreePagesRangeTracker R
  unfolding next_page
  slow_pages region block m t b j zero = (m, t)
  slow_pages region block m t b j (suc n) =
      let (expected, b') = next_page (page_size sys) block b in
      let (m', t') = scan_page m t region j expected in slow_pages region block m' t' b' (suc j) n

  -- The pages of a region that is not skipped.
  unfoldable pub scan_region :
      PageReleaseContext
      → ℕ
      → RegionPageMap
      → FreePagesRangeTracker R
      → RegionPageMap × FreePagesRangeTracker R
  unfolding fast_pages slow_pages first_bounds
  scan_region c region m t =
      if c.same_block_count_per_page
      then fast_pages region c.full_pages_block_count_max m t 0 c.pages_count
      else slow_pages region c.block_size m t (first_bounds sys c) 0 c.pages_count

  -- `n` regions from region `i` on.
  unfoldable pub scan_regions :
      PageReleaseContext
      → (ℕ → Bool)
      → RegionPageMap
      → FreePagesRangeTracker R
      → ℕ
      → ℕ
      → RegionPageMap × FreePagesRangeTracker R
  unfolding scan_region
  scan_regions c skip m t i zero = (m, t)
  scan_regions c skip m t i (suc n) =
      let (m', t') =
        if skip i
        then (m, skip_pages release sys.page_size_log t c.pages_count)
        else scan_region c i m t in
      scan_regions c skip m' t' (suc i) n

  -- The context, with its page map, and the recorder afterwards.
  unfoldable pub release_free_memory_to_os :
      PageReleaseContext → R → (ℕ → Bool) → PageReleaseContext × R
  unfolding scan_regions
  release_free_memory_to_os c recorder skip =
      let (m, t) = scan_regions c skip c.page_map (new_tracker recorder) 0 c.number_of_regions in
      (record c { page_map = m }, (finish release sys.page_size_log t).recorder)
