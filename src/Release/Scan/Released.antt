-- ===== src/Release/Scan/Released.antt =====
-- releaseFreeMemoryToOS over the pages of one region.
use scudo.Common.{
  ℕ, ◌+◌, ◌-◌, ◌*◌, ◌/◌, ◌%◌, ◌^◌, ◌≤◌, ◌<◌, ◌≡◌, refl, sym, ap, ◌∙◌, subst, inl, inr, Bool, false,
  Bool-cases, ◌||◌, ◌==◌, ltb, [], arith, if◌then◌else◌,
}
use scudo.Common.Bits.{pow_pos}
use scudo.Arith.{round_up_slow}
use native.Mathlib.Nat.{mod-lt, mod-eq_of_lt}
use scudo.Release.PageMap.{RegionPageMap, get}
use scudo.Release.PageMap.Counters.{IsPageMap}
use scudo.Release.Tracker.{
  ReleaseRecorder, region_release_page_range_to_os, FreePagesRangeTracker, new_tracker, skip_pages,
  finish,
}
use scudo.Release.Tracker.Ranges.{new_tracker-Tracks, finish-covered, covered, flagged}
use scudo.Release.Context.{System, page_size, PageReleaseContext, block_counts}
use scudo.Release.Context.Blocks.{touching, block_counts-Exact}
use scudo.Release.Scan.{
  Bounds, fast_pages, slow_pages, first_bounds, scan_region, scan_regions,
  release_free_memory_to_os,
}
use scudo.Release.Scan.Boundaries.{Before}
use scudo.Release.Scan.Exact.{Scanning, fast_pages-Scanning, slow_pages-Scanning}

-- A context for one region, with its page map allocated.
pub record IsContext (sys : System) (c : PageReleaseContext) : Type 0 where
  pub block : 1 ≤ c.block_size
  pub expected_count : c.full_pages_block_count_max ≡ (block_counts (page_size sys) c.block_size).0
  pub same_count : c.same_block_count_per_page ≡ (block_counts (page_size sys) c.block_size).1
  pub one_region : c.number_of_regions ≡ 1
  pub valid : IsPageMap c.page_map
  pub known : 1 ≤ c.page_map.regions
  pub pages : c.page_map.num_counters ≡ c.pages_count
  pub wide :
      (c.release_page_offset + c.pages_count) * page_size sys + 4 * c.block_size + page_size sys
      < 2 ^ 64

-- A page that can be released: all blocks that touch it are counted, or it is marked as a whole.
abbrev pub can_release : System → PageReleaseContext → ℕ → Bool
can_release sys c j =
    (get c.page_map 0 j == c.page_map.counter_mask)
    || (get c.page_map 0 j == touching (page_size sys) c.block_size (c.release_page_offset + j))

module _ (sys : System) (c : PageReleaseContext) (v : IsContext sys c) where
  page_fits : 2 ^ sys.page_size_log + 2 < 2 ^ 64
  page_fits = omega (arith, v.wide, v.block)

  -- The first block at a place or behind it.
  ceiling : (x b : ℕ) → 1 ≤ b → (x ≤ (x + b - 1) / b * b) × ((x + b - 1) / b * b < x + b)
  ceiling x b pb =
      let split : (x + b - 1) / b * b + (x + b - 1) % b ≡ x + b - 1 = omega arith in
      let rest = mod-lt (x + b - 1) pb in (omega (arith, split, rest), omega (arith, split, rest))

  start : ℕ
  start = c.release_page_offset * page_size sys

  start-le : start ≤ (c.release_page_offset + c.pages_count) * page_size sys
  unfolding start
  start-le = grind arith

  round_up_slow-eq :
      round_up_slow (start % 2 ^ 64) c.block_size
      ≡ (start + c.block_size - 1) / c.block_size * c.block_size
  unfolding round_up_slow
  round_up_slow-eq =
      let b = c.block_size in
      let whole : start % 2 ^ 64 ≡ start = omega (arith, start-le, v.wide) in
      let sum : (start % 2 ^ 64 + b) % 2 ^ 64 ≡ start + b = omega (arith, start-le, v.wide) in
      let less : ((start % 2 ^ 64 + b) % 2 ^ 64 + 2 ^ 64 - 1) % 2 ^ 64 ≡ start + b - 1 =
        omega (arith, sum, start-le, v.wide, v.block) in
      ap (λ (t : ℕ). t / b * b % 2 ^ 64) less
      ∙ mod-eq_of_lt (omega (arith, (ceiling start b v.block).1, start-le, v.wide))

  abbrev Ahead : Bounds → Type 0
  Ahead b = (d : ℕ) × Before (page_size sys) c.block_size (c.release_page_offset + 0) d b

  first_bounds-Before : Ahead (first_bounds sys c)
  unfolding first_bounds start
  first_bounds-Before = elim (Bool-cases (ltb 0 c.release_page_offset)) [
    | inl some ↦
        let e : (c.release_page_offset + 0) * page_size sys ≡ start =
          ap (λ (t : ℕ). t * page_size sys) {x = c.release_page_offset + 0}
            {y = c.release_page_offset} (omega arith) in
        let k = ceiling start c.block_size v.block in
        subst
          (λ (x : Bool). Ahead (
            if x
            then record {
              prev_page_boundary = start % 2 ^ 64;
              current_boundary = round_up_slow (start % 2 ^ 64) c.block_size;
            }
            else record { prev_page_boundary = 0; current_boundary = 0 }))
          (sym some)
          (
            (start + c.block_size - 1) / c.block_size,
            record {
              prev = omega (arith, e, start-le, v.wide);
              current = round_up_slow-eq;
              low = omega (arith, e, k.0);
              high = omega (arith, e, k.1);
            },
          )
    | inr none ↦
        let z : c.release_page_offset + 0 ≡ 0 = ground arith in
        let e : (c.release_page_offset + 0) * page_size sys ≡ 0 =
          ap (λ (t : ℕ). t * page_size sys) z ∙ omega arith in
        subst
          (λ (x : Bool). Ahead (
            if x
            then record {
              prev_page_boundary = start % 2 ^ 64;
              current_boundary = round_up_slow (start % 2 ^ 64) c.block_size;
            }
            else record { prev_page_boundary = 0; current_boundary = 0 }))
          (sym none)
          (
            0,
            record {
              prev = sym e;
              current = omega arith;
              low = omega (arith, e);
              high = omega (arith, e, v.block);
            },
          )
  ]

  abbrev expected : ℕ → ℕ
  expected j = touching (page_size sys) c.block_size (c.release_page_offset + j)

  module _ (origin : ℕ) (fits : origin + c.pages_count * page_size sys < 2 ^ 64) where
    abbrev Scans : RegionPageMap → FreePagesRangeTracker ReleaseRecorder → ℕ → Type 0
    Scans = Scanning sys origin 0 c.page_map.counter_mask (get c.page_map 0) expected

    scan_region-Scanning :
        (t : FreePagesRangeTracker ReleaseRecorder)
        → Scans c.page_map t 0
        → let r = scan_region region_release_page_range_to_os sys c 0 c.page_map t in
          Scans r.0 r.1 c.pages_count
    unfolding scan_region
    scan_region-Scanning t s =
        let release = region_release_page_range_to_os in
        let fast =
          fast_pages release sys 0 c.full_pages_block_count_max c.page_map t 0 c.pages_count in
        let slow =
          slow_pages release sys 0 c.block_size c.page_map t (first_bounds sys c) 0 c.pages_count in
        let pages : c.pages_count ≤ c.page_map.num_counters = omega (arith, v.pages) in
        let goal = λ (b : Bool).
          Scans (if b then fast else slow).0 (if b then fast else slow).1 c.pages_count in
        elim (Bool-cases c.same_block_count_per_page) [
          | inl same ↦ subst goal (sym same) (
              fast_pages-Scanning sys origin 0 c.page_map.counter_mask (get c.page_map 0) expected
                c.pages_count c.page_map t 0 c.pages_count c.full_pages_block_count_max s
                (omega arith) pages fits
                (λ i h.
                  v.expected_count
                  ∙ sym (
                      (block_counts-Exact sys.page_size_log c.block_size v.block page_fits
                          (c.release_page_offset + i)).0
                        (sym v.same_count ∙ same))))
          | inr differ ↦ subst goal (sym differ) (
              slow_pages-Scanning sys origin 0 c.page_map.counter_mask (get c.page_map 0) expected
                c.pages_count c.page_map t (first_bounds sys c) 0 c.pages_count c.block_size
                c.release_page_offset first_bounds-Before.0 s (omega arith) pages fits
                (pow_pos sys.page_size_log) v.block v.wide first_bounds-Before.1 (λ i h. refl))
        ]

  -- Each byte of the pages that can be released is given back once, and no other byte.
  pub release_free_memory_to_os-covered :
      (r : ReleaseRecorder) (skip : ℕ → Bool)
      → r.calls ≡ []
      → skip 0 ≡ false
      → r.base + r.offset + c.pages_count * page_size sys < 2 ^ 64
      → (x : ℕ)
      → covered
          (r.base + r.offset + x)
          (release_free_memory_to_os region_release_page_range_to_os sys c r skip).1.calls
        ≡ flagged sys.page_size_log (can_release sys c) c.pages_count x
  unfolding release_free_memory_to_os
  release_free_memory_to_os-covered r skip none kept fits x =
      let release = region_release_page_range_to_os in
      let t = new_tracker r in
      let s = scan_region-Scanning (r.base + r.offset) fits t (record {
        valid = v.valid;
        known = v.known;
        same_mask = refl;
        left = λ i h below. refl;
        tracks = new_tracker-Tracks sys.page_size_log (can_release sys c) r none;
      }) in
      let exact = λ (u : FreePagesRangeTracker ReleaseRecorder).
        covered (r.base + r.offset + x) (finish release sys.page_size_log u).recorder.calls
        ≡ flagged sys.page_size_log (can_release sys c) c.pages_count x in
      let one = λ (b : Bool).
        if◌then◌else◌ {A = RegionPageMap × FreePagesRangeTracker ReleaseRecorder} b
          (c.page_map, skip_pages release sys.page_size_log t c.pages_count)
          (scan_region release sys c 0 c.page_map t) in
      subst (λ (n : ℕ). exact (scan_regions release sys c skip c.page_map t 0 n).1)
        (sym v.one_region)
        (subst (λ (b : Bool). exact (one b).1) (sym kept)
          (finish-covered sys.page_size_log (can_release sys c) (r.base + r.offset) c.pages_count _
            fits s.tracks x))
