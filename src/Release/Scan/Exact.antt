-- ===== src/Release/Scan/Exact.antt =====
-- What a scan of a region releases: the bytes of the pages whose counters are full.
use scudo.Common.{
  ℕ, zero, suc, ◌+◌, ◌*◌, ◌^◌, ◌≤◌, ◌<◌, ◌≡◌, sym, ap, ap₂, ◌∙◌, subst, inr, Bool, ◌||◌, ◌==◌,
  arith,
}
use scudo.Release.PageMap.{RegionPageMap, get}
use scudo.Release.PageMap.Counters.{IsPageMap}
use scudo.Release.PageMap.Operations.{update_as_all_counted_if-Updated}
use scudo.Release.Tracker.{ReleaseRecorder, region_release_page_range_to_os, FreePagesRangeTracker}
use scudo.Release.Tracker.Ranges.{Tracks, process_next_page-Tracks}
use scudo.Release.Context.{System, page_size}
use scudo.Release.Context.Blocks.{touching}
use scudo.Release.Scan.{Bounds, next_page, fast_pages, slow_pages, scan_page}
use scudo.Release.Scan.Boundaries.{Before, next_page-Before, after}

-- A region whose counters are `g` before the scan; the page with number `j` of the scan is full when its
-- counter is `expected j`, or full already.
module _ (sys : System) (origin region mask : ℕ) (g expected : ℕ → ℕ) where
  abbrev pub full : ℕ → Bool
  full j = (g j == mask) || (g j == expected j)

  -- The scan in front of page `j`.
  pub record Scanning (m : RegionPageMap) (t : FreePagesRangeTracker ReleaseRecorder) (j : ℕ)
      : Type 0 where
    pub valid : IsPageMap m
    pub known : region < m.regions
    pub same_mask : m.counter_mask ≡ mask
    pub left : (i : ℕ) → j ≤ i → i < m.num_counters → get m region i ≡ g i
    pub tracks : Tracks sys.page_size_log full origin t j

  abbrev release : ReleaseRecorder → ℕ → ℕ → ReleaseRecorder
  release = region_release_page_range_to_os

  scan_page-Scanning :
      (m : RegionPageMap) (t : FreePagesRangeTracker ReleaseRecorder) (j e : ℕ)
      → Scanning m t j
      → j < m.num_counters
      → e ≡ expected j
      → origin + suc j * page_size sys < 2 ^ 64
      → let r = scan_page release sys m t region j e in
        Scanning r.0 r.1 (suc j) × (r.0.num_counters ≡ m.num_counters)
  scan_page-Scanning m t j e v inside same fits =
      let u = update_as_all_counted_if-Updated m region j e v.valid v.known inside in
      (
        record {
          valid = u.valid;
          known = omega (arith, u.same_regions, v.known);
          same_mask = u.same_mask ∙ v.same_mask;
          left = λ i h below.
              let below' : i < m.num_counters = omega (arith, u.same_counters, below) in
              u.others region i v.known below' (inr (omega (arith, h)))
              ∙ v.left i (omega (arith, h)) below';
          tracks = process_next_page-Tracks sys.page_size_log full origin j t _ fits v.tracks (
              sym (
                u.found
                ∙ ap (λ (s : ℕ). (s == m.counter_mask) || (s == e)) (v.left j (omega arith) inside)
                ∙ ap₂ (λ (s u : ℕ). (g j == s) || (g j == u)) v.same_mask same));
        },
        u.same_counters,
      )

  pub fast_pages-Scanning :
      (n : ℕ) (m : RegionPageMap) (t : FreePagesRangeTracker ReleaseRecorder) (j count e : ℕ)
      → Scanning m t j
      → j + n ≡ count
      → count ≤ m.num_counters
      → origin + count * page_size sys < 2 ^ 64
      → ((i : ℕ) → i < count → e ≡ expected i)
      → let r = fast_pages release sys region e m t j n in Scanning r.0 r.1 count
  unfolding fast_pages
  fast_pages-Scanning zero m t j count e v end inside fits same =
      subst (λ (k : ℕ). Scanning m t k) (omega (arith, end)) v
  fast_pages-Scanning (suc n) m t j count e v end inside fits same =
      let now : suc j * page_size sys ≤ count * page_size sys = grind arith in
      let s =
        scan_page-Scanning m t j e v (omega (arith, end, inside)) (same j (omega (arith, end)))
          (omega (arith, now, fits)) in
      fast_pages-Scanning n _ _ (suc j) count e s.0 (omega (arith, end))
        (omega (arith, s.1, inside)) fits same

  pub slow_pages-Scanning :
      (n : ℕ) (m : RegionPageMap) (t : FreePagesRangeTracker ReleaseRecorder) (b : Bounds)
      (j count block start c : ℕ)
      → Scanning m t j
      → j + n ≡ count
      → count ≤ m.num_counters
      → origin + count * page_size sys < 2 ^ 64
      → 1 ≤ page_size sys
      → 1 ≤ block
      → (start + count) * page_size sys + 4 * block + page_size sys < 2 ^ 64
      → Before (page_size sys) block (start + j) c b
      → ((i : ℕ) → i < count → touching (page_size sys) block (start + i) ≡ expected i)
      → let r = slow_pages release sys region block m t b j n in Scanning r.0 r.1 count
  unfolding slow_pages
  slow_pages-Scanning zero m t b j count block start c v end inside fits pp pb wide before same =
      subst (λ (k : ℕ). Scanning m t k) (omega (arith, end)) v
  slow_pages-Scanning (suc n) m t b j count block start c v end inside fits pp pb wide before same =
      let now : suc j * page_size sys ≤ count * page_size sys = grind arith in
      let reach : suc (start + j) * page_size sys ≤ (start + count) * page_size sys = grind arith in
      let p =
        next_page-Before (page_size sys) block pp pb (start + j) c b before
          (omega (arith, reach, wide)) in
      let b' = (next_page (page_size sys) block b).1 in
      let next_before =
        subst
          (λ (k : ℕ).
            Before (page_size sys) block k (after (page_size sys) block pp pb (start + j) c) b')
          {x = suc (start + j)} {y = start + suc j} (omega arith) p.1 in
      let s =
        scan_page-Scanning m t j (next_page (page_size sys) block b).0 v
          (omega (arith, end, inside)) (p.0 ∙ same j (omega (arith, end)))
          (omega (arith, now, fits)) in
      slow_pages-Scanning n _ _ b' (suc j) count block start
        (after (page_size sys) block pp pb (start + j) c) s.0 (omega (arith, end))
        (omega (arith, s.1, inside)) fits pp pb wide next_before same
