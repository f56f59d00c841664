-- ===== src/Arena/Seg/Absorb.antt =====
-- Two neighbours that touch become one block.
use scudo.Common.{
  ℕ, ◌+◌, ◌≡◌, refl, sym, ap, ap₂, ◌∙◌, subst, List, ◌∷◌, ◌++◌, arith, update, update_self,
  update_ne, length-append, add_u32, sub_u32,
}
use scudo.Arena.State.{SharedArenaHeader, FreeBlockHeader, free_list_end, free_block_magic}
use scudo.Arena.FreeList.{ListMemory, set_prev, sub_count, absorb}
use scudo.Arena.Seg.{
  Extent, first_or, last_or, Seg, Ordered, end_of, first_or-append, end_of-append, Seg-append,
  Ordered-append, end_of-ge, Seg-frame,
}
use scudo.Arena.Seg.Links.{PrevSet, set_prev_lem}
use scudo.Arena.Seg.Insert.{IsFreeList, SameElse, total-SameElse, SameElse-eq, length-Ordered}

module _ (m : ListMemory) (xs ys : List Extent) (a s b t : ℕ) where
  abbrev after : ℕ
  after = (m.blocks b).next_page_off

  abbrev grown_block : FreeBlockHeader
  grown_block = record (m.blocks a) {
    size_in_pages = add_u32 (m.blocks a).size_in_pages (m.blocks b).size_in_pages;
    next_page_off = after;
  }

  abbrev grown : ListMemory
  grown = record m { blocks = update m.blocks a grown_block }

  abbrev joined : ListMemory
  joined = set_prev grown after a

  abbrev cleared : ℕ → FreeBlockHeader
  cleared = update joined.blocks b (record (joined.blocks b) { magic = 0 })

  abbrev before : List Extent
  before = xs ++ (a, s) ∷ (b, t) ∷ ys

  abbrev merged : List Extent
  merged = xs ++ (a, s + t) ∷ ys

  merged-Ordered :
      a + s ≡ b → Ordered 0 before → Ordered 0 merged × (end_of 0 merged ≡ end_of 0 before)
  merged-Ordered e ord =
      let parts = (Ordered-append 0 xs ((a, s) ∷ (b, t) ∷ ys)).0 ord in
      let same : b + t ≡ a + (s + t) = omega arith in
      (
        (Ordered-append 0 xs ((a, s + t) ∷ ys)).1 (
          parts.0,
          (parts.1.0, omega (arith, parts.1.1), subst (λ (r : ℕ). Ordered r ys) same parts.1.2.2),
        ),
        end_of-append 0 xs ((a, s + t) ∷ ys)
            ∙ ap (λ (r : ℕ). end_of r ys) (sym same)
            ∙ sym (end_of-append 0 xs ((a, s) ∷ (b, t) ∷ ys)),
      )

  pub absorb-IsFreeList :
      a + s ≡ b
      → IsFreeList m before
      → IsFreeList (absorb m a b) merged × SameElse m.hdr (absorb m a b).hdr
  unfolding absorb sub_count
  absorb-IsFreeList e v =
      let parts = (Ordered-append 0 xs ((a, s) ∷ (b, t) ∷ ys)).0 v.ordered in
      let end = end_of-append 0 xs ((a, s) ∷ (b, t) ∷ ys) in
      let bound = end_of-ge (b + t) ys parts.1.2.2 in
      let segs =
        (Seg-append m.blocks free_list_end free_list_end xs ((a, s) ∷ (b, t) ∷ ys)).0 v.front.1 in
      let next : after ≡ first_or free_list_end ys =
        ap (λ (r : FreeBlockHeader). r.next_page_off) segs.1.1.0 in
      let rest : Seg grown.blocks b ys free_list_end =
        Seg-frame m.blocks grown.blocks b free_list_end (b + t) ys parts.1.2.2
          (λ q l u. update_ne m.blocks a grown_block q (omega arith)) segs.1.1.1 in
      let done : PrevSet grown a (b + t) ys joined =
        subst (λ (r : ℕ). PrevSet grown a (b + t) ys (set_prev grown r a)) (sym next)
          (set_prev_lem grown b a (b + t) ys parts.1.2.2 (omega (arith, v.small, v.within)) rest) in
      let kept : SameElse m.hdr joined.hdr = SameElse-eq m.hdr done.1 refl in
      let total = total-SameElse m.hdr joined.hdr kept in
      let order = merged-Ordered e v.ordered in
      let sizes : add_u32 s t ≡ s + t = omega (arith, v.small, v.within) in
      let block : grown_block ≡ record {
        prev_page_off = last_or free_list_end xs;
        next_page_off = first_or free_list_end ys;
        size_in_pages = s + t;
        magic = free_block_magic;
      } =
        ap₂
          (λ (r r' : FreeBlockHeader). record r {
            size_in_pages = add_u32 r.size_in_pages r'.size_in_pages;
            next_page_off = r'.next_page_off;
          })
          segs.1.0 segs.1.1.0
        ∙ ap
            (λ (n : ℕ). record {
              prev_page_off = last_or free_list_end xs;
              next_page_off = first_or free_list_end ys;
              size_in_pages = n;
              magic = free_block_magic;
            })
            sizes in
      let marked = record (joined.blocks b) { magic = 0 } in
      (
        record {
          front = (
            ap (λ (r : SharedArenaHeader). r.free_list_head_page_off) done.1
                ∙ v.front.0
                ∙ first_or-append free_list_end xs ((a, s) ∷ (b, t) ∷ ys)
                ∙ sym (first_or-append free_list_end xs ((a, s + t) ∷ ys)),
            (Seg-append cleared free_list_end free_list_end xs ((a, s + t) ∷ ys)).1 (
              Seg-frame m.blocks cleared free_list_end a 0 xs parts.0
                  (λ q l u.
                    update_ne joined.blocks b marked q (omega arith)
                    ∙ done.2 q (omega arith)
                    ∙ update_ne m.blocks a grown_block q (omega arith))
                  segs.0,
              (
                update_ne joined.blocks b marked a (omega arith)
                    ∙ done.2 a (omega arith)
                    ∙ update_self m.blocks a grown_block
                    ∙ block,
                Seg-frame joined.blocks cleared a free_list_end (b + t) ys parts.1.2.2
                    (λ q l u. update_ne joined.blocks b marked q (omega arith)) done.0,
              ),
            ),
          );
          count = omega (
            arith,
            ap (λ (r : SharedArenaHeader). r.free_count) done.1,
            v.count,
            v.small,
            v.within,
            length-append xs ((a, s) ∷ (b, t) ∷ ys),
            length-append xs ((a, s + t) ∷ ys),
            length-Ordered 0 before v.ordered,
          );
          ordered = order.0;
          within = omega (arith, total, order.1, v.within);
          small = omega (arith, total, v.small);
        },
        ap (λ (r : SharedArenaHeader). record r { free_count = sub_u32 joined.hdr.free_count 1 })
            kept,
      )
