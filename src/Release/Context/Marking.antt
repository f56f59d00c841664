-- ===== src/Release/Context/Marking.antt =====
-- Marking the blocks of a free list counts, on each page, those that touch it.
use scudo.Common.{
  ℕ, zero, suc, ◌+◌, ◌-◌, ◌*◌, ◌/◌, ◌%◌, ◌^◌, ◌≤◌, ◌<◌, ◌≡◌, refl, sym, ap, ◌∙◌, subst, inl, inr,
  Bool, true, false, Bool-cases, ◌==◌, ==→eq, leb, ◌&&◌, List, [], ◌∷◌, All, arith, add_uptr,
  sub_uptr,
}
use scudo.Common.Bits.{pow_pos}
use native.Mathlib.Nat.{
  div-lt_iff_lt-mul, le-div_iff_mul-le, div-mul-le_self, div-le_self, div-eq_of_lt-le, mod-lt,
}
use scudo.Release.PageMap.{get, inc}
use scudo.Release.PageMap.Counters.{IsPageMap}
use scudo.Release.PageMap.Operations.{Counted, within, inc-Counted, inc_range-Counted}
use scudo.Release.Context.{
  System, page_size, PageReleaseContext, get_page_index, mark_block, mark_blocks,
}
use scudo.Release.Context.Blocks.{first_block, last_block, touching}
use scudo.Release.Context.Held.{held, among, held-empty, held-cons}

-- A block touches a page exactly when the page lies between those of its first and its last byte.
module _ (page block j k : ℕ) (pp : 1 ≤ page) (pb : 1 ≤ block) where
  first-le : first_block page block j ≤ last_block page block j
  first-le = (le-div_iff_mul-le pb).1 (omega (arith, div-mul-le_self (j * page) block))

  touches :
      among (first_block page block j) (first_block page block j + touching page block j) k
      ≡ within (k * block / page) (suc ((k * block + block - 1) / page)) j
  touches =
      let place : suc j * page ≡ j * page + page = omega arith in
      let after : suc k * block ≡ k * block + block = omega arith in
      let a = div-lt_iff_lt-mul {x = j * page} {y = suc k} pb in
      let b = le-div_iff_mul-le {x = j} {y = k * block + block - 1} pp in
      let c = le-div_iff_mul-le {x = k} {y = suc j * page - 1} pb in
      let d = div-lt_iff_lt-mul {x = k * block} {y = suc j} pp in
      ground (arith, first-le, a.0, a.1, b.0, b.1, c.0, c.1, d.0, d.1, place, after)

and_right : (a b : Bool) → (a && b) ≡ true → b ≡ true
and_right true b h = h
and_right false b h = cc

positive : (d block : ℕ) → 1 ≤ d * block → 1 ≤ d
positive zero block h = absurd (omega arith)
positive (suc d) block h = omega arith

part_fits : (i q b : ℕ) → i < q → i * b + b ≤ q * b
part_fits i q b h = grind arith

spread : (a q i b : ℕ) → (a * q + i) * b ≡ a * (q * b) + i * b
spread a q i b = grind arith

module _ (sys : System) where
  -- A context whose page map can still count the blocks of a list.
  pub record Marks (c : PageReleaseContext) (ps : List ℕ) : Type 0 where
    pub block : 1 ≤ c.block_size
    pub none_left_out : c.release_page_offset ≡ 0
    pub valid : IsPageMap c.page_map
    pub known : 1 ≤ c.page_map.regions
    pub pages : c.page_map.num_counters * page_size sys + c.block_size < 2 ^ 64
    pub room :
        (j : ℕ)
        → j < c.page_map.num_counters
        → get c.page_map 0 j
            + held c.block_size
                (first_block (page_size sys) c.block_size j)
                (touching (page_size sys) c.block_size j)
                ps
          ≤ c.page_map.counter_mask

  -- The offsets of the list are those of blocks that lie in the pages.
  abbrev pub AreBlocks : ℕ → ℕ → List ℕ → Type 0
  AreBlocks block end = All (λ p. (k : ℕ) × (p ≡ k * block) × (suc k * block ≤ end))

  -- After the list was marked each page counts, in addition, the blocks of the list that touch it.
  pub record Marked (c : PageReleaseContext) (ps : List ℕ) (d : PageReleaseContext) : Type 0 where
    pub same : d ≡ record c { page_map = d.page_map }
    pub valid : IsPageMap d.page_map
    pub same_regions : d.page_map.regions ≡ c.page_map.regions
    pub same_counters : d.page_map.num_counters ≡ c.page_map.num_counters
    pub same_mask : d.page_map.counter_mask ≡ c.page_map.counter_mask
    pub page :
        (j : ℕ)
        → j < c.page_map.num_counters
        → get d.page_map 0 j
          ≡ get c.page_map 0 j
            + held c.block_size
                (first_block (page_size sys) c.block_size j)
                (touching (page_size sys) c.block_size j)
                ps

  -- The page map after a block was marked.
  abbrev BlockCounted : PageReleaseContext → ℕ → PageReleaseContext → Type 0
  BlockCounted c k d =
      (d ≡ record c { page_map = d.page_map })
      × Counted c.page_map 0 (k * c.block_size / page_size sys)
          (suc ((k * c.block_size + c.block_size - 1) / page_size sys)) d.page_map

  module _ (c : PageReleaseContext) (k : ℕ) (ps : List ℕ) (v : Marks c (k * c.block_size ∷ ps))
      (inside : suc k * c.block_size ≤ c.page_map.num_counters * page_size sys) where
    first_page : ℕ
    first_page = k * c.block_size / page_size sys

    last_page : ℕ
    last_page = (k * c.block_size + c.block_size - 1) / page_size sys

    pos : 1 ≤ page_size sys
    pos = pow_pos sys.page_size_log

    after : suc k * c.block_size ≡ k * c.block_size + c.block_size
    after = omega arith

    last_page-lt : last_page < c.page_map.num_counters
    unfolding last_page
    last_page-lt = (div-lt_iff_lt-mul pos).1 (omega (arith, inside, after, v.block))

    page_order : first_page ≤ last_page
    unfolding first_page last_page
    page_order =
        (le-div_iff_mul-le pos).1
          (omega (arith, div-mul-le_self (k * c.block_size) (page_size sys), v.block))

    few_pages : c.page_map.num_counters ≤ c.page_map.num_counters * page_size sys
    few_pages = grind (arith, pos)

    page_index : (x : ℕ) → x < 2 ^ 64 → get_page_index sys c x ≡ x / page_size sys
    unfolding get_page_index
    page_index x h = omega (arith, v.none_left_out, div-le_self x (page_size sys))

    low : (j : ℕ) → first_page ≤ j → j ≤ last_page → get c.page_map 0 j < c.page_map.counter_mask
    unfolding first_page last_page
    low j from to =
        let b = c.block_size in
        let f = first_block (page_size sys) b j in
        let n = touching (page_size sys) b j in
        let one : within first_page (suc last_page) j ≡ 1 = ground arith in
        omega (
          arith,
          one,
          touches (page_size sys) b j k pos v.block,
          held-cons b f n k ps v.block,
          v.room j (omega (arith, to, last_page-lt)),
        )

    -- Blocks that fill their pages lie in one page each.
    one_page : page_size sys % c.block_size ≡ 0 → last_page ≡ first_page
    unfolding first_page last_page
    one_page e =
        let p = page_size sys in
        let b = c.block_size in
        let q = p / b in
        let whole : p ≡ q * b = omega (arith, e) in
        let some : 1 ≤ q = positive q b (omega (arith, whole, pos)) in
        let less : k % q < q = mod-lt k some in
        let split : k ≡ k / q * q + k % q = omega arith in
        let rest : k % q * b + b ≤ p =
          subst (λ (t : ℕ). k % q * b + b ≤ t) (sym whole) (part_fits (k % q) q b less) in
        let place : k * b ≡ k / q * p + k % q * b =
          ap (λ (t : ℕ). t * b) split
          ∙ spread (k / q) q (k % q) b
          ∙ ap (λ (t : ℕ). k / q * t + k % q * b) (sym whole) in
        let low =
          div-eq_of_lt-le {k = k / q} p {m = k * b} (omega (arith, place))
            (omega (arith, place, rest, v.block)) in
        let high =
          div-eq_of_lt-le {k = k / q} p {m = k * b + b - 1} (omega (arith, place, v.block))
            (omega (arith, place, rest, v.block)) in
        high ∙ sym low

    mark_block-Counted : BlockCounted c k (mark_block sys c 0 (k * c.block_size))
    unfolding mark_block first_page last_page
    mark_block-Counted = (
      refl,
      elim (Bool-cases (leb c.block_size (page_size sys) && (page_size sys % c.block_size == 0))) [
        | inl t ↦
            let e = one_page (
              ==→eq (page_size sys % c.block_size) 0
                (and_right (leb c.block_size (page_size sys)) _ t)) in
            rw (t, page_index (k * c.block_size) (omega (arith, inside, v.pages, after)))
              (subst
                (λ (z : ℕ). Counted c.page_map 0 first_page (suc z) (inc c.page_map 0 first_page))
                (sym e)
                (inc-Counted c.page_map 0 first_page v.valid v.known
                  (omega (arith, page_order, last_page-lt))
                  (low first_page (omega arith) page_order)))
        | inr f ↦
            let to : sub_uptr (add_uptr (k * c.block_size) c.block_size) 1
                ≡ k * c.block_size + c.block_size - 1 =
              omega (arith, inside, v.pages, after, v.block) in
            rw
              (
                f,
                page_index (k * c.block_size) (omega (arith, inside, v.pages, after)),
                to,
                page_index (k * c.block_size + c.block_size - 1)
                    (omega (arith, inside, v.pages, after)),
              )
              (inc_range-Counted c.page_map 0 first_page last_page v.valid v.known page_order
                last_page-lt (omega (arith, few_pages, v.pages)) low)
      ],
    )

    counted :
        Counted c.page_map 0 first_page
          (suc last_page)
          (mark_block sys c 0 (k * c.block_size)).page_map
    unfolding first_page last_page
    counted = mark_block-Counted.1

    -- The counters of the pages, with the block.
    with_block :
        (j : ℕ)
        → j < c.page_map.num_counters
        → let f = first_block (page_size sys) c.block_size j in
          let n = touching (page_size sys) c.block_size j in
          get (mark_block sys c 0 (k * c.block_size)).page_map 0 j + held c.block_size f n ps
          ≡ get c.page_map 0 j + held c.block_size f n (k * c.block_size ∷ ps)
    unfolding first_page last_page
    with_block j h =
        let f = first_block (page_size sys) c.block_size j in
        let n = touching (page_size sys) c.block_size j in
        omega (
          arith,
          counted.page j h,
          touches (page_size sys) c.block_size j k pos v.block,
          held-cons c.block_size f n k ps v.block,
        )

    mark_block-Marks : Marks (mark_block sys c 0 (k * c.block_size)) ps
    mark_block-Marks =
        let d = mark_block sys c 0 (k * c.block_size) in
        let e = mark_block-Counted.0 in
        let size : d.block_size ≡ c.block_size = ap (λ (x : PageReleaseContext). x.block_size) e in
        record {
          block = omega (arith, size, v.block);
          none_left_out =
              ap (λ (x : PageReleaseContext). x.release_page_offset) e ∙ v.none_left_out;
          valid = counted.valid;
          known = omega (arith, counted.same_regions, v.known);
          pages =
              omega (arith, ap (λ (t : ℕ). t * page_size sys) counted.same_counters, size, v.pages);
          room = λ j h.
              let h' : j < c.page_map.num_counters = omega (arith, counted.same_counters, h) in
              let s =
                ap
                  (λ (t : ℕ).
                    held t (first_block (page_size sys) t j) (touching (page_size sys) t j) ps)
                  size in
              omega (arith, s, with_block j h', v.room j h', counted.same_mask);
        }

    after_block :
        AreBlocks c.block_size (c.page_map.num_counters * page_size sys) ps
        → let d = mark_block sys c 0 (k * c.block_size) in
          AreBlocks d.block_size (d.page_map.num_counters * page_size sys) ps
    after_block blocks =
        let size = ap (λ (x : PageReleaseContext). x.block_size) mark_block-Counted.0 in
        subst
          (λ (t : ℕ).
            AreBlocks t
              ((mark_block sys c 0 (k * c.block_size)).page_map.num_counters * page_size sys) ps)
          (sym size)
          (subst (λ (t : ℕ). AreBlocks c.block_size (t * page_size sys) ps)
            (sym counted.same_counters) blocks)

    after_rest :
        (d : PageReleaseContext)
        → Marked (mark_block sys c 0 (k * c.block_size)) ps d
        → Marked c (k * c.block_size ∷ ps) d
    after_rest d w =
        let e = mark_block-Counted.0 in
        let size = ap (λ (x : PageReleaseContext). x.block_size) e in
        record {
          same = w.same ∙ ap (λ (x : PageReleaseContext). record x { page_map = d.page_map }) e;
          valid = w.valid;
          same_regions = w.same_regions ∙ counted.same_regions;
          same_counters = w.same_counters ∙ counted.same_counters;
          same_mask = w.same_mask ∙ counted.same_mask;
          page = λ j h.
              let s =
                ap
                  (λ (t : ℕ).
                    held t (first_block (page_size sys) t j) (touching (page_size sys) t j) ps)
                  size in
              omega (arith, w.page j (omega (arith, counted.same_counters, h)), s, with_block j h);
        }

  pub mark_blocks-Marked :
      (ps : List ℕ) (c : PageReleaseContext)
      → Marks c ps
      → AreBlocks c.block_size (c.page_map.num_counters * page_size sys) ps
      → Marked c ps (mark_blocks sys c 0 ps)
  unfolding mark_blocks
  mark_blocks-Marked [] c v blocks = record {
    same = refl;
    valid = v.valid;
    same_regions = refl;
    same_counters = refl;
    same_mask = refl;
    page = λ j h. omega (
      arith,
      held-empty c.block_size (first_block (page_size sys) c.block_size j)
          (touching (page_size sys) c.block_size j),
    );
  }
  mark_blocks-Marked (p ∷ ps) c v ((k, at, inside), blocks) =
      let v' = subst (λ (q : ℕ). Marks c (q ∷ ps)) at v in
      let rest =
        mark_blocks-Marked ps (mark_block sys c 0 (k * c.block_size))
          (mark_block-Marks c k ps v' inside) (after_block c k ps v' inside blocks) in
      subst (λ (q : ℕ). Marked c (q ∷ ps) (mark_blocks sys (mark_block sys c 0 q) 0 ps)) (sym at)
        (after_rest c k ps v' inside _ rest)
