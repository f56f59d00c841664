-- ===== src/Release/Tests.antt =====
-- A region of five pages with eight blocks that are not as long as a page.
use scudo.Common.{ℕ, ◌+◌, ◌*◌, ◌≤◌, ◌<◌, ◌^◌, ◌≡◌, refl, Bool, true, false, List, [], ◌∷◌, arith}
use scudo.Arith.{round_up, log2, round_up_power_of_two, most_significant_set_bit_index}
use scudo.Secondary.Lru.{occ}
use scudo.Release.Pool.{get_buffer}
use scudo.Release.PageMap.{
  RegionPageMap, get, inc_range, update_as_all_counted_if, reset, bits_for, words_for, is_allocated,
}
use scudo.Release.Tracker.{
  ReleaseRecorder, finish, process_next_page, region_release_page_range_to_os,
}
use scudo.Release.Tracker.Ranges.{covered}
use scudo.Release.Context.{
  System, block_counts, new_context, offsets_of_batch, mark_free_blocks_in_region,
}
use scudo.Release.Context.Marking.{AreBlocks}
use scudo.Release.Context.Blocks.{touching, block_counts-Exact}
use scudo.Release.PageMap.Counters.{IsPageMap}
use scudo.Release.PageMap.Operations.{Counted, inc_range-Counted}
use scudo.Release.PageMap.Shape.{reset-IsPageMap, reset-get, reset-mask}
use scudo.Release.Scan.Boundaries.{Before, after, next_page-Before}
use scudo.Release.Scan.{Bounds, next_page, release_free_memory_to_os}
use scudo.Release.Safety.{
  GivenBack, fresh, free_offsets, marking, release_free_memory_to_os-GivenBack,
}

abbrev sys : System
sys = record { page_size_log = 12; map = λ size. true }

-- The blocks 0 to 3 of 2560 bytes are free, in two batches.
abbrev batches : List (List ℕ)
batches = (2 ∷ 0 ∷ []) ∷ (1 ∷ 3 ∷ []) ∷ []

abbrev decompact_ptr : ℕ → ℕ
decompact_ptr b = 65536 + b * 2560

abbrev full_mask : ℕ
full_mask = 3

abbrev recorder : ReleaseRecorder
recorder = record { released_bytes = 0; base = 65536; offset = 0; calls = [] }

abbrev skip : ℕ → Bool
skip i = false

marked : (marking sys 2560 20480 full_mask batches decompact_ptr 65536 20480).0 ≡ true
unfolding mark_free_blocks_in_region new_context reset bits_for words_for is_allocated get_buffer
    round_up log2 round_up_power_of_two most_significant_set_bit_index
marked = refl

-- The first two pages are given back by one call.
released :
    (release_free_memory_to_os region_release_page_range_to_os sys
      (marking sys 2560 20480 full_mask batches decompact_ptr 65536 20480).1
      recorder
      skip).1.calls
    ≡ record { address = 65536; size = 8192 } ∷ []
unfolding release_free_memory_to_os mark_free_blocks_in_region new_context reset bits_for words_for
    is_allocated get_buffer round_up log2 round_up_power_of_two most_significant_set_bit_index
    region_release_page_range_to_os finish process_next_page update_as_all_counted_if inc_range
released = refl

once : (p : ℕ) → occ p (free_offsets sys 2560 20480 full_mask batches decompact_ptr 65536 20480) ≤ 1
unfolding offsets_of_batch
once p = ground arith

blocks :
    AreBlocks sys 2560
      ((fresh sys 2560 20480 full_mask batches decompact_ptr 65536 20480).pages_count * 2 ^ 12)
      (free_offsets sys 2560 20480 full_mask batches decompact_ptr 65536 20480)
unfolding offsets_of_batch new_context round_up
blocks = (
  (2, refl, omega arith),
  ((0, refl, omega arith), ((1, refl, omega arith), ((3, refl, omega arith), tt))),
)

wide :
    (fresh sys 2560 20480 full_mask batches decompact_ptr 65536 20480).pages_count * 2 ^ 12
      + 4 * 2560
      + 2 ^ 12
      + 64
    < 2 ^ 64
unfolding new_context round_up
wide = omega arith

positive : 1 ≤ 2560
positive = omega arith

release_free_memory_to_os-GivenBack_example :
    GivenBack sys 2560 20480 full_mask batches decompact_ptr 65536 20480 positive wide once blocks
      5000
      (covered 70536
        (release_free_memory_to_os region_release_page_range_to_os sys
          (marking sys 2560 20480 full_mask batches decompact_ptr 65536 20480).1
          recorder
          skip).1.calls)
unfolding new_context round_up
release_free_memory_to_os-GivenBack_example =
    release_free_memory_to_os-GivenBack sys 2560 20480 full_mask batches decompact_ptr 65536 20480
      positive wide once blocks recorder skip marked refl refl (omega arith) 5000

-- A page of 4096 bytes and blocks of 2560 bytes.
block_counts-Exact_example :
    ((block_counts 4096 2560).1 ≡ true → touching 4096 2560 1 ≡ (block_counts 4096 2560).0)
    × (touching 4096 2560 1 ≤ (block_counts 4096 2560).0)
block_counts-Exact_example = block_counts-Exact 12 2560 positive (omega arith) 1

-- In front of page 1 block 2 is the next that starts.
bounds : Bounds
bounds = record { prev_page_boundary = 4096; current_boundary = 5120 }

bounds-Before : Before 4096 2560 1 2 bounds
unfolding bounds
bounds-Before = record { prev = refl; current = refl; low = omega arith; high = omega arith }

next_page-Before_example :
    ((next_page 4096 2560 bounds).0 ≡ touching 4096 2560 1)
    × Before 4096 2560 2 (after 4096 2560 (omega arith) positive 1 2) (next_page 4096 2560 bounds).1
next_page-Before_example =
    next_page-Before 4096 2560 (omega arith) positive 1 2 bounds bounds-Before (omega arith)

-- A map for five pages whose counters take two bits.
abbrev counters : RegionPageMap
counters = (reset (λ size. true) 4096 full_mask 1 5 3).0

counters-IsPageMap : IsPageMap counters
counters-IsPageMap =
    reset-IsPageMap (λ size. true) 4096 full_mask 1 5 3 (omega arith) (omega arith) (omega arith)
      (omega arith)

empty : (j : ℕ) → 1 ≤ j → j ≤ 3 → get counters 0 j < counters.counter_mask
empty j from to = omega (
  arith,
  reset-get (λ size. true) 4096 full_mask 1 5 3 (omega arith) (omega arith) (omega arith)
      (omega arith) 0 j,
  reset-mask (λ size. true) 4096 full_mask 1 5 3 (omega arith) (omega arith) (omega arith)
      (omega arith),
)

inc_range-Counted_example : Counted counters 0 1 4 (inc_range counters 0 1 3)
unfolding reset
inc_range-Counted_example =
    inc_range-Counted counters 0 1 3 counters-IsPageMap (omega arith) (omega arith) (omega arith)
      (omega arith) empty
