-- ===== src/Release/Context.antt =====
-- PageReleaseContext of release.h: how many blocks touch a page, and the marking of the free ones.
pub mod Blocks
pub mod Held
pub mod Marking
use scudo.Common.{
  ℕ, zero, suc, ◌+◌, ◌-◌, ◌*◌, ◌/◌, ◌%◌, ◌^◌, Bool, true, false, not, ◌&&◌, List, [], ◌∷◌, bit_and,
  ◌==◌, ltb, leb, if◌then◌else◌, add_uptr, sub_uptr,
}
use scudo.Arith.{round_up, round_up_slow, round_down, round_down_slow}
use scudo.Release.PageMap.{
  RegionPageMap, new_page_map, is_allocated, reset, inc, inc_n, inc_range, set_as_all_counted_range,
}

-- The page size as a power of two, and whether the system maps that many bytes.
pub record System : Type 0 where
  pub page_size_log : ℕ
  pub map : ℕ → Bool

abbrev pub page_size : System → ℕ
page_size sys = 2 ^ sys.page_size_log

pub record PageReleaseContext : Type 0 where
  pub block_size : ℕ
  pub number_of_regions : ℕ
  pub release_page_offset : ℕ
  pub pages_count : ℕ
  pub full_pages_block_count_max : ℕ
  pub same_block_count_per_page : Bool
  pub page_map : RegionPageMap

-- FullPagesBlockCountMax and SameBlockCountPerPage.
unfoldable pub block_counts : ℕ → ℕ → ℕ × Bool
block_counts page block =
    if leb block page
    then (if page % block == 0
        then (page / block, true)
        else if block % (page % block) == 0
        then (add_uptr (page / block) 1, true)
        else (add_uptr (page / block) 2, false))
    else if bit_and block (sub_uptr page 1) == 0
    then (1, true)
    else (2, false)

unfoldable pub new_context : System → ℕ → ℕ → ℕ → ℕ → PageReleaseContext
unfolding block_counts
new_context sys block_size number_of_regions release_size release_offset = record {
  block_size = block_size;
  number_of_regions = number_of_regions;
  release_page_offset = release_offset / page_size sys;
  pages_count = round_up release_size (page_size sys) / page_size sys;
  full_pages_block_count_max = (block_counts (page_size sys) block_size).0;
  same_block_count_per_page = (block_counts (page_size sys) block_size).1;
  page_map = new_page_map;
}

unfoldable pub has_block_marked : PageReleaseContext → Bool
has_block_marked c = is_allocated c.page_map

-- The context and the mask of the pool of buffers; `true` is a page map that is allocated.
unfoldable pub ensure_page_map_allocated :
    System → PageReleaseContext → ℕ → Bool × PageReleaseContext × ℕ
ensure_page_map_allocated sys c pool =
    if is_allocated c.page_map
    then (true, c, pool)
    else (is_allocated fresh.0, record c { page_map = fresh.0 }, fresh.1)
  where
    fresh : RegionPageMap × ℕ
    fresh =
        reset sys.map (page_size sys) pool c.number_of_regions c.pages_count
          c.full_pages_block_count_max

unfoldable pub get_page_index : System → PageReleaseContext → ℕ → ℕ
get_page_index sys c p = sub_uptr (p / page_size sys) c.release_page_offset

unfoldable pub get_release_offset : System → PageReleaseContext → ℕ
get_release_offset sys c = c.release_page_offset * page_size sys % 2 ^ 64

-- The first page of a range where its first block starts inside the page, and where the pages that are
-- counted whole begin.
unfoldable pub mark_first_page : System → PageReleaseContext → ℕ → ℕ → PageReleaseContext × ℕ
unfolding get_page_index
mark_first_page sys c region first_block = if first_block == from then (c, from) else (
  record c { page_map = inc_n c.page_map region (get_page_index sys c from) blocks },
  round_up (add_uptr from 1) (page_size sys),
)
  where
    from : ℕ
    from = round_down first_block (page_size sys)

    blocks : ℕ
    blocks =
        sub_uptr (add_uptr (sub_uptr (add_uptr from (page_size sys)) first_block) c.block_size) 1
        / c.block_size

-- The last block of a range where it lies across the end, and where the pages that are counted whole end.
unfoldable pub mark_last_block : System → PageReleaseContext → ℕ → ℕ → ℕ → PageReleaseContext × ℕ
unfolding get_page_index
mark_last_block sys c region region_size to =
    if block_end == region_size then (c, region_size) else if block_end == to then (c, to) else (
      record c {
        page_map =
            inc_range c.page_map region (get_page_index sys c to)
              (get_page_index sys c (sub_uptr block_end 1));
      },
      to,
    )
  where
    block_end : ℕ
    block_end = add_uptr (round_down_slow (sub_uptr to 1) c.block_size) c.block_size

unfoldable pub mark_whole_pages : System → PageReleaseContext → ℕ → ℕ → ℕ → PageReleaseContext
unfolding get_page_index
mark_whole_pages sys c region from to =
    if ltb from to
    then record c {
      page_map =
          set_as_all_counted_range c.page_map region (get_page_index sys c from)
            (get_page_index sys c (sub_uptr to 1));
    }
    else c

unfoldable pub mark_range : System → PageReleaseContext → ℕ → ℕ → ℕ → ℕ → PageReleaseContext
unfolding mark_first_page mark_last_block mark_whole_pages
mark_range sys c from to region region_size =
    if leb to first_block
    then c
    else (let (d, from') = mark_first_page sys c region first_block in
        let (e, to') = mark_last_block sys d region region_size to in
        mark_whole_pages sys e region from' to')
  where
    first_block : ℕ
    first_block = round_up_slow from c.block_size

unfoldable pub mark_range_as_all_counted :
    System → PageReleaseContext → ℕ → ℕ → ℕ → ℕ → ℕ → ℕ → Bool × PageReleaseContext × ℕ
unfolding ensure_page_map_allocated mark_range
mark_range_as_all_counted sys c pool from to base region region_size =
    let (ok, d, rest) = ensure_page_map_allocated sys c pool in
    if not ok
    then (false, d, rest)
    else (true, mark_range sys d (sub_uptr from base) (sub_uptr to base) region region_size, rest)

-- The blocks that would follow the last one of the region in its last page are marked free.
unfoldable pub mark_trailing_blocks : System → PageReleaseContext → ℕ → ℕ → PageReleaseContext
unfolding get_page_index
mark_trailing_blocks sys c region region_size =
    if ltb 0 blocks
    then record c { page_map = inc_n c.page_map region (get_page_index sys c trailing_base) blocks }
    else c
  where
    last_block : ℕ
    last_block = sub_uptr (region_size / c.block_size) 1 * c.block_size % 2 ^ 64

    trailing_base : ℕ
    trailing_base = add_uptr last_block c.block_size

    blocks : ℕ
    blocks =
        sub_uptr
          (add_uptr
            (round_up_slow (sub_uptr (round_up region_size (page_size sys)) trailing_base)
              c.block_size)
            c.block_size)
          1
        / c.block_size

-- One free block, at an offset in the region: the pages that it touches.
unfoldable pub mark_block : System → PageReleaseContext → ℕ → ℕ → PageReleaseContext
unfolding get_page_index
mark_block sys c region p = record c {
  page_map =
      if leb c.block_size (page_size sys) && (page_size sys % c.block_size == 0)
      then inc c.page_map region (get_page_index sys c p)
      else inc_range c.page_map region (get_page_index sys c p)
          (get_page_index sys c (sub_uptr (add_uptr p c.block_size) 1));
}

unfoldable pub mark_blocks : System → PageReleaseContext → ℕ → List ℕ → PageReleaseContext
unfolding mark_block
mark_blocks sys c region [] = c
mark_blocks sys c region (p ∷ ps) = mark_blocks sys (mark_block sys c region p) region ps

-- The offsets of the blocks in the batches of a free list.
unfoldable pub offsets_of_batch : (ℕ → ℕ) → ℕ → List ℕ → List ℕ
offsets_of_batch decompact_ptr base [] = []
offsets_of_batch decompact_ptr base (b ∷ bs) =
    sub_uptr (decompact_ptr b) base ∷ offsets_of_batch decompact_ptr base bs

unfoldable pub mark_batches :
    System → PageReleaseContext → ℕ → (ℕ → ℕ) → ℕ → List (List ℕ) → PageReleaseContext
unfolding mark_blocks offsets_of_batch
mark_batches sys c region decompact_ptr base [] = c
mark_batches sys c region decompact_ptr base (batch ∷ batches) =
    mark_batches sys (mark_blocks sys c region (offsets_of_batch decompact_ptr base batch)) region
      decompact_ptr base batches

unfoldable pub mark_free_blocks_in_region :
    System
    → PageReleaseContext
    → ℕ
    → List (List ℕ)
    → (ℕ → ℕ)
    → ℕ
    → ℕ
    → ℕ
    → Bool
    → Bool × PageReleaseContext × ℕ
unfolding ensure_page_map_allocated mark_trailing_blocks mark_batches
mark_free_blocks_in_region sys c pool free_list decompact_ptr base region region_size
      may_contain_last =
    let (ok, d, rest) = ensure_page_map_allocated sys c pool in
    if not ok then (false, d, rest) else (
      true,
      mark_batches sys
          (if may_contain_last then mark_trailing_blocks sys d region region_size else d) region
          decompact_ptr base free_list,
      rest,
    )
