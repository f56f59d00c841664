-- ===== src/Release/Safety.antt =====
-- From the free list of a region to the calls that give its memory back.
use scudo.Common.{
  ℕ, suc, ◌+◌, ◌*◌, ◌/◌, ◌^◌, ◌≤◌, ◌<◌, ◌≡◌, ◌↔◌, refl, sym, ap, ap₂, ◌∙◌, subst, Bool, true, false,
  not, ◌||◌, ◌&&◌, ◌==◌, ltb, List, [], ◌∷◌, ◌++◌, arith, if◌then◌else◌,
}
use scudo.Common.Bits.{pow_pos}
use native.Mathlib.Nat.{zero-div, div-lt_iff_lt-mul}
use scudo.Secondary.Lru.{occ}
use scudo.Release.PageMap.{get, is_allocated, reset}
use scudo.Release.PageMap.Counters.{IsPageMap}
use scudo.Release.PageMap.Shape.{
  reset-IsPageMap, reset-get, reset-mask, reset-num_counters, reset-regions,
}
use scudo.Release.Tracker.{ReleaseRecorder, region_release_page_range_to_os}
use scudo.Release.Tracker.Ranges.{covered}
use scudo.Release.Context.{
  System, page_size, PageReleaseContext, block_counts, new_context, mark_block, mark_blocks,
  mark_batches, offsets_of_batch, mark_free_blocks_in_region,
}
use scudo.Release.Context.Blocks.{
  first_block, last_block, touching, block_counts-Exact, block_counts-lt, touching-pos,
}
use scudo.Release.Context.Held.{held, held-le, held-all, all-held}
use scudo.Release.Context.Marking.{Marks, Marked, AreBlocks, mark_blocks-Marked}
use scudo.Release.Scan.{release_free_memory_to_os}
use scudo.Release.Scan.Released.{IsContext, can_release, release_free_memory_to_os-covered}

-- The offsets of all blocks of a free list.
abbrev pub offsets_of : (ℕ → ℕ) → ℕ → List (List ℕ) → List ℕ
offsets_of decompact_ptr base [] = []
offsets_of decompact_ptr base (b ∷ bs) =
    offsets_of_batch decompact_ptr base b ++ offsets_of decompact_ptr base bs

mark_blocks-append :
    (sys : System) (xs ys : List ℕ) (c : PageReleaseContext)
    → mark_blocks sys c 0 (xs ++ ys) ≡ mark_blocks sys (mark_blocks sys c 0 xs) 0 ys
unfolding mark_blocks
mark_blocks-append sys [] ys c = refl
mark_blocks-append sys (x ∷ xs) ys c = mark_blocks-append sys xs ys (mark_block sys c 0 x)

mark_batches-eq :
    (sys : System) (decompact_ptr : ℕ → ℕ) (base : ℕ) (bs : List (List ℕ)) (c : PageReleaseContext)
    → mark_batches sys c 0 decompact_ptr base bs
      ≡ mark_blocks sys c 0 (offsets_of decompact_ptr base bs)
unfolding mark_batches
mark_batches-eq sys d base [] c = refl
mark_batches-eq sys d base (b ∷ bs) c =
    mark_batches-eq sys d base bs (mark_blocks sys c 0 (offsets_of_batch d base b))
    ∙ sym (mark_blocks-append sys (offsets_of_batch d base b) (offsets_of d base bs) c)

if_allocated :
    (b : Bool) (c d : PageReleaseContext) (pool : ℕ)
    → let r : Bool × PageReleaseContext × ℕ = if not b then (false, c, pool) else (true, d, pool) in
      r.0 ≡ true → r.1 ≡ d
if_allocated true c d pool h = refl
if_allocated false c d pool h = cc h

module _ (sys : System) (block size pool : ℕ) (batches : List (List ℕ)) (decompact_ptr : ℕ → ℕ)
    (base region_size : ℕ) where
  abbrev pub fresh : PageReleaseContext
  fresh = new_context sys block 1 size 0

  abbrev pub free_offsets : List ℕ
  free_offsets = offsets_of decompact_ptr base batches

  abbrev pub marking : Bool × PageReleaseContext × ℕ
  marking = mark_free_blocks_in_region sys fresh pool batches decompact_ptr base 0 region_size false

  -- The context with its page map, before a block is marked.
  abbrev prepared : PageReleaseContext
  prepared = record fresh {
    page_map =
        (reset sys.map (page_size sys) pool 1 fresh.pages_count fresh.full_pages_block_count_max).0;
  }

  marking-eq : marking.0 ≡ true → marking.1 ≡ mark_blocks sys prepared 0 free_offsets
  unfolding mark_free_blocks_in_region new_context is_allocated
  marking-eq h =
      if_allocated _ prepared (mark_batches sys prepared 0 decompact_ptr base batches) _ h
      ∙ mark_batches-eq sys decompact_ptr base batches prepared

  module _ (pb : 1 ≤ block)
      (wide : fresh.pages_count * page_size sys + 4 * block + page_size sys + 64 < 2 ^ 64)
      (once : (p : ℕ) → occ p free_offsets ≤ 1)
      (blocks : AreBlocks sys block (fresh.pages_count * page_size sys) free_offsets) where
    page_fits : 2 ^ sys.page_size_log + 2 < 2 ^ 64
    page_fits = omega (arith, wide, pb)

    count-eq : fresh.full_pages_block_count_max ≡ (block_counts (page_size sys) block).0
    unfolding new_context
    count-eq = refl

    same-eq : fresh.same_block_count_per_page ≡ (block_counts (page_size sys) block).1
    unfolding new_context
    same-eq = refl

    size-eq : prepared.block_size ≡ block
    unfolding new_context
    size-eq = refl

    offset-eq : prepared.release_page_offset ≡ 0
    unfolding new_context
    offset-eq = zero-div (page_size sys)

    regions-eq : prepared.number_of_regions ≡ 1
    unfolding new_context
    regions-eq = refl

    most-pos : 0 < fresh.full_pages_block_count_max
    most-pos = omega (
      arith,
      count-eq,
      touching-pos sys.page_size_log block pb page_fits 0,
      (block_counts-Exact sys.page_size_log block pb page_fits 0).1,
    )

    most-lt : fresh.full_pages_block_count_max < 2 ^ 64
    most-lt = omega (arith, count-eq, block_counts-lt sys.page_size_log block pb page_fits)

    few : fresh.pages_count ≤ fresh.pages_count * page_size sys
    few = grind (arith, pow_pos sys.page_size_log)

    small : 1 * (fresh.pages_count + 64) < 2 ^ 64
    small = omega (arith, few, wide)

    small' : fresh.pages_count + 64 ≤ 2 ^ 64
    small' = omega (arith, few, wide)

    map-IsPageMap : IsPageMap prepared.page_map
    map-IsPageMap =
        reset-IsPageMap sys.map (page_size sys) pool 1 fresh.pages_count
          fresh.full_pages_block_count_max most-pos most-lt small small'

    map-zero : (j : ℕ) → get prepared.page_map 0 j ≡ 0
    map-zero j =
        reset-get sys.map (page_size sys) pool 1 fresh.pages_count fresh.full_pages_block_count_max
          most-pos most-lt small small' 0 j

    map-mask : fresh.full_pages_block_count_max ≤ prepared.page_map.counter_mask
    map-mask =
        reset-mask sys.map (page_size sys) pool 1 fresh.pages_count fresh.full_pages_block_count_max
          most-pos most-lt small small'

    map-pages : prepared.page_map.num_counters ≡ fresh.pages_count
    map-pages =
        reset-num_counters sys.map (page_size sys) pool 1 fresh.pages_count
          fresh.full_pages_block_count_max most-pos most-lt small small'

    map-regions : prepared.page_map.regions ≡ 1
    map-regions =
        reset-regions sys.map (page_size sys) pool 1 fresh.pages_count
          fresh.full_pages_block_count_max most-pos most-lt small small'

    prepared-Marks : Marks sys prepared free_offsets
    unfolding new_context
    prepared-Marks = record {
      block = pb;
      none_left_out = offset-eq;
      valid = map-IsPageMap;
      known = omega (arith, map-regions);
      pages = omega (arith, ap (λ (t : ℕ). t * page_size sys) map-pages, wide);
      room = λ j h. omega (
        arith,
        map-zero j,
        map-mask,
        count-eq,
        held-le block free_offsets once (first_block (page_size sys) block j)
            (touching (page_size sys) block j),
        (block_counts-Exact sys.page_size_log block pb page_fits j).1,
      );
    }

    abbrev marked : PageReleaseContext
    marked = mark_blocks sys prepared 0 free_offsets

    marked-Marked : Marked sys prepared free_offsets marked
    unfolding new_context
    marked-Marked = mark_blocks-Marked sys free_offsets prepared prepared-Marks (
        subst (λ (t : ℕ). AreBlocks sys block (t * page_size sys) free_offsets) (sym map-pages)
          blocks)

    field :
        {A : Type 0} (f : PageReleaseContext → A)
        → f marked ≡ f (record prepared { page_map = marked.page_map })
    field f = ap f marked-Marked.same

    marked-size : marked.block_size ≡ block
    marked-size = field (λ (c : PageReleaseContext). c.block_size) ∙ size-eq

    marked-offset : marked.release_page_offset ≡ 0
    marked-offset = field (λ (c : PageReleaseContext). c.release_page_offset) ∙ offset-eq

    marked-pages : marked.pages_count ≡ fresh.pages_count
    marked-pages = field (λ (c : PageReleaseContext). c.pages_count)

    marked-IsContext : IsContext sys marked
    marked-IsContext =
        let w = marked-Marked in
        let counts = λ (b : ℕ). block_counts (page_size sys) b in
        record {
          block = omega (arith, marked-size, pb);
          expected_count =
              field (λ (c : PageReleaseContext). c.full_pages_block_count_max)
              ∙ count-eq
              ∙ ap (λ (b : ℕ). (block_counts (page_size sys) b).0) (sym marked-size);
          same_count =
              field (λ (c : PageReleaseContext). c.same_block_count_per_page)
              ∙ same-eq
              ∙ ap (λ (b : ℕ). (block_counts (page_size sys) b).1) (sym marked-size);
          one_region = field (λ (c : PageReleaseContext). c.number_of_regions) ∙ regions-eq;
          valid = w.valid;
          known = omega (arith, w.same_regions, map-regions);
          pages = w.same_counters ∙ map-pages ∙ sym marked-pages;
          wide = omega (
            arith,
            ap₂ (λ (s t : ℕ). (s + t) * page_size sys) marked-offset marked-pages,
            marked-size,
            wide,
          );
        }

    -- All blocks that touch a page are in the free list.
    abbrev pub AllFree : ℕ → Type 0
    AllFree j =
        (k : ℕ)
        → first_block (page_size sys) block j ≤ k
        → k ≤ last_block (page_size sys) block j
        → occ (k * block) free_offsets ≡ 1

    abbrev in_list : ℕ → ℕ
    in_list j =
        held block (first_block (page_size sys) block j) (touching (page_size sys) block j)
          free_offsets

    counter : (j : ℕ) → j < fresh.pages_count → get marked.page_map 0 j ≡ in_list j
    unfolding new_context
    counter j h = omega (arith, marked-Marked.page j (omega (arith, map-pages, h)), map-zero j)

    in_list-le : (j : ℕ) → in_list j ≤ touching (page_size sys) block j
    in_list-le j =
        held-le block free_offsets once (first_block (page_size sys) block j)
          (touching (page_size sys) block j)

    reaches :
        (j : ℕ)
        → first_block (page_size sys) block j + touching (page_size sys) block j
          ≡ suc (last_block (page_size sys) block j)
    reaches j = omega (arith, touching-pos sys.page_size_log block pb page_fits j)

    -- A page can be released exactly when all blocks that touch it are free.
    can_release-eq :
        (j : ℕ)
        → j < fresh.pages_count
        → can_release sys marked j ≡ (
            (in_list j == marked.page_map.counter_mask)
            || (in_list j == touching (page_size sys) block j))
    can_release-eq j h =
        let e : marked.release_page_offset + j ≡ j = omega (arith, marked-offset) in
        ap₂
          (λ (s t : ℕ).
            (get marked.page_map 0 j == marked.page_map.counter_mask)
            || (get marked.page_map 0 j == touching (page_size sys) s t))
          marked-size e
        ∙ ap
            (λ (t : ℕ).
              (t == marked.page_map.counter_mask) || (t == touching (page_size sys) block j))
            (counter j h)

    can_release-AllFree :
        (j : ℕ) → j < fresh.pages_count → (can_release sys marked j ≡ true) ↔ AllFree j
    can_release-AllFree j h =
        let n = touching (page_size sys) block j in
        let f = first_block (page_size sys) block j in
        let mask = marked-Marked.same_mask in
        let bound = (block_counts-Exact sys.page_size_log block pb page_fits j).1 in
        (
          (λ (t : can_release sys marked j ≡ true).
              let t' = sym (can_release-eq j h) ∙ t in
              let all : in_list j ≡ n =
                ground (arith, t', mask, map-mask, count-eq, bound, in_list-le j) in
              λ k low high.
                held-all block free_offsets once n f k all low (omega (arith, reaches j, high))),
          (λ (all : AllFree j).
              let e : in_list j ≡ n =
                all-held block free_offsets n f
                  (λ k low high. all k low (omega (arith, reaches j, high))) in
              can_release-eq j h ∙ ground (arith, e)),
        )

    -- The byte at an offset is given back at most once, and so exactly when it lies in a page whose
    -- blocks are all free.
    abbrev pub GivenBack : ℕ → ℕ → Type 0
    GivenBack x y =
        (y ≤ 1)
        × ((y ≡ 1) ↔ ((x < fresh.pages_count * page_size sys) × AllFree (x / page_size sys)))

    by_flag :
        (x y : ℕ) (inside allowed : Bool)
        → (ltb x (fresh.pages_count * page_size sys) ≡ inside)
        → (inside ≡ true → (allowed ≡ true) ↔ AllFree (x / page_size sys))
        → y ≡ (if inside && allowed then 1 else 0)
        → GivenBack x y
    by_flag x y true true at h e = (omega arith, ((λ _. (ground arith, (h refl).0 refl)), (λ _. e)))
    by_flag x y true false at h e = (
      omega arith,
      (
        (λ (one : y ≡ 1). absurd (omega (arith, e, one))),
        (λ (q : (x < _) × AllFree (x / page_size sys)). cc ((h refl).1 q.1)),
      ),
    )
    by_flag x y false allowed at h e = (
      omega arith,
      (
        (λ (one : y ≡ 1). absurd (omega (arith, e, one))),
        (λ (q : (x < fresh.pages_count * page_size sys) × AllFree (x / page_size sys)).
            absurd (ground (arith, q.0))),
      ),
    )

    -- For a context of one region from its start, with no trailing blocks marked and the page
    -- map allocated, with blocks of at least one byte, whose free list names each block of the
    -- region at most once and nothing else, a recorder that has released nothing yet, a callback
    -- that does not skip the region, and a region of which no address overflows and whose pages,
    -- with one page, four blocks and 64 bytes more, come to less than 2^64: after the blocks of the list are marked, the
    -- release gives each byte back at most once, and gives it back exactly when it lies in one
    -- of the pages of the region and all blocks that touch its page are in the free list.
    pub release_free_memory_to_os-GivenBack :
        (r : ReleaseRecorder) (skip : ℕ → Bool)
        → marking.0 ≡ true
        → r.calls ≡ []
        → skip 0 ≡ false
        → r.base + r.offset + fresh.pages_count * page_size sys < 2 ^ 64
        → (x : ℕ)
        → GivenBack x (
            covered
              (r.base + r.offset + x)
              (release_free_memory_to_os region_release_page_range_to_os sys marking.1 r
                skip).1.calls)
    release_free_memory_to_os-GivenBack r skip done none kept fits x =
        let pages = ap (λ (t : ℕ). t * page_size sys) marked-pages in
        let calls = λ (c : PageReleaseContext).
          covered (r.base + r.offset + x)
            (release_free_memory_to_os region_release_page_range_to_os sys c r skip).1.calls in
        let counted =
          release_free_memory_to_os-covered sys marked marked-IsContext r skip none kept
            (omega (arith, pages, fits)) x
          ∙ ap (λ (t : ℕ). if ltb x t && can_release sys marked (x / page_size sys) then 1 else 0)
              pages in
        by_flag x (calls marking.1) (ltb x (fresh.pages_count * page_size sys))
          (can_release sys marked (x / page_size sys)) refl
          (λ inside.
            can_release-AllFree (x / page_size sys)
              ((div-lt_iff_lt-mul (pow_pos sys.page_size_log)).1 (ground (arith, inside))))
          (ap calls (marking-eq done) ∙ counted)
