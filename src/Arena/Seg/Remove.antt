-- ===== src/Arena/Seg/Remove.antt =====
-- Taking a block off the list, and cutting one short.
use scudo.Common.{
  ℕ, suc, ◌+◌, ◌≤◌, ◌<◌, ◌≡◌, sym, ap, ◌∙◌, subst, List, [], ◌∷◌, ◌++◌, arith, update, update_self,
  update_ne, length-append, sub_u32,
}
use scudo.Arena.State.{SharedArenaHeader, FreeBlockHeader, free_list_end, free_block_magic}
use scudo.Arena.FreeList.{
  ListMemory, set_next, set_prev, sub_count, unlink_at, unlink_block, resize_block,
}
use scudo.Arena.Seg.{
  Extent, first_or, last_or, Ordered, end_of, first_or-append, end_of-append, Seg-append,
  Ordered-append, Coalesced, Coalesced-append, gap_of, end_of-ge, Seg-frame,
}
use scudo.Arena.Seg.Links.{set_next_lem, set_prev_lem}
use scudo.Arena.Seg.Insert.{
  IsFreeList, SameElse, total-SameElse, SameElse-eq, length-Ordered, set_next-SameElse,
}

Ordered-weaken : (lo lo' : ℕ) (bs : List Extent) → lo' ≤ lo → Ordered lo bs → Ordered lo' bs
Ordered-weaken lo lo' [] h ord = tt
Ordered-weaken lo lo' ((o, s) ∷ bs) h ord = (omega arith, ord.1, ord.2)

Coalesced-weaken : (lo lo' : ℕ) (bs : List Extent) → lo' ≤ lo → Coalesced lo bs → Coalesced lo' bs
Coalesced-weaken lo lo' [] h c = tt
Coalesced-weaken lo lo' ((o, s) ∷ bs) h c = (omega arith, c.1)

pub end_of-weaken :
    (lo lo' : ℕ) (bs : List Extent) → lo' ≤ lo → Ordered lo bs → end_of lo' bs ≤ end_of lo bs
end_of-weaken lo lo' [] h ord = h
end_of-weaken lo lo' ((o, s) ∷ bs) h ord = omega arith

gap_of-le : (lo : ℕ) (bs : List Extent) → Coalesced lo bs → lo ≤ gap_of lo bs
gap_of-le lo [] c = omega arith
gap_of-le lo ((o, s) ∷ bs) c = omega (arith, gap_of-le (suc (o + s)) bs c.1)

module _ (m : ListMemory) (xs ys : List Extent) (o s : ℕ) where
  abbrev prev : ℕ
  prev = last_or free_list_end xs

  abbrev next : ℕ
  next = first_or free_list_end ys

  abbrev skipped : ListMemory
  skipped = set_next m prev next

  abbrev bridged : ListMemory
  bridged = set_prev skipped next prev

  abbrev cleared : ℕ → FreeBlockHeader
  cleared = update bridged.blocks o (record (bridged.blocks o) { magic = 0 })

  pub removed-Ordered :
      Ordered 0 (xs ++ (o, s) ∷ ys)
      → Ordered 0 (xs ++ ys) × (end_of 0 (xs ++ ys) ≤ end_of 0 (xs ++ (o, s) ∷ ys))
  removed-Ordered ord =
      let parts = (Ordered-append 0 xs ((o, s) ∷ ys)).0 ord in
      (
        (Ordered-append 0 xs ys).1
            (parts.0, Ordered-weaken (o + s) (end_of 0 xs) ys (omega arith) parts.1.2),
        omega (
          arith,
          end_of-append 0 xs ys,
          end_of-append 0 xs ((o, s) ∷ ys),
          end_of-weaken (o + s) (end_of 0 xs) ys (omega arith) parts.1.2,
        ),
      )

  pub removed-Coalesced : Coalesced 0 (xs ++ (o, s) ∷ ys) → Coalesced 0 (xs ++ ys)
  removed-Coalesced c =
      let cs = (Coalesced-append 0 xs ((o, s) ∷ ys)).0 c in
      (Coalesced-append 0 xs ys).1
        (cs.0, Coalesced-weaken (suc (o + s)) (gap_of 0 xs) ys (omega arith) cs.1.1)

  unlink_at-IsFreeList :
      IsFreeList m (xs ++ (o, s) ∷ ys)
      → IsFreeList (unlink_at m o prev next) (xs ++ ys)
        × SameElse m.hdr (unlink_at m o prev next).hdr
  unfolding unlink_at sub_count
  unlink_at-IsFreeList v =
      let parts = (Ordered-append 0 xs ((o, s) ∷ ys)).0 v.ordered in
      let end = end_of-append 0 xs ((o, s) ∷ ys) in
      let bound = end_of-ge (o + s) ys parts.1.2 in
      let segs = (Seg-append m.blocks free_list_end free_list_end xs ((o, s) ∷ ys)).0 v.front.1 in
      let step =
        set_next_lem m o next xs parts.0 (omega (arith, v.small, v.within))
          (v.front.0 ∙ first_or-append free_list_end xs ((o, s) ∷ ys), segs.0) in
      let done =
        set_prev_lem skipped o prev (o + s) ys parts.1.2 (omega (arith, v.small, v.within)) (
          Seg-frame m.blocks skipped.blocks o free_list_end (o + s) ys parts.1.2
            (λ q l u. step.1 q (omega arith)) segs.1.1) in
      let same = set_next-SameElse m prev next in
      let kept : SameElse m.hdr bridged.hdr = SameElse-eq m.hdr done.1 same.0 in
      let total = total-SameElse m.hdr bridged.hdr kept in
      let counted : bridged.hdr.free_count ≡ m.hdr.free_count =
        ap (λ (r : SharedArenaHeader). r.free_count) done.1 ∙ same.1 in
      let order = removed-Ordered v.ordered in
      let marked = record (bridged.blocks o) { magic = 0 } in
      (
        record {
          front = (
            ap (λ (r : SharedArenaHeader). r.free_list_head_page_off) done.1
                ∙ step.0.0
                ∙ sym (first_or-append free_list_end xs ys),
            (Seg-append cleared free_list_end free_list_end xs ys).1 (
              Seg-frame skipped.blocks cleared free_list_end next 0 xs parts.0
                  (λ q l u.
                    update_ne bridged.blocks o marked q (omega arith) ∙ done.2 q (omega arith))
                  step.0.1,
              Seg-frame bridged.blocks cleared prev free_list_end (o + s) ys parts.1.2
                  (λ q l u. update_ne bridged.blocks o marked q (omega arith)) done.0,
            ),
          );
          count = omega (
            arith,
            counted,
            v.count,
            v.small,
            v.within,
            length-append xs ys,
            length-append xs ((o, s) ∷ ys),
            length-Ordered 0 (xs ++ (o, s) ∷ ys) v.ordered,
          );
          ordered = order.0;
          within = omega (arith, total, order.1, v.within);
          small = omega (arith, total, v.small);
        },
        ap (λ (r : SharedArenaHeader). record r { free_count = sub_u32 bridged.hdr.free_count 1 })
            kept,
      )

  -- The header of a block in the list.
  pub header_at :
      IsFreeList m (xs ++ (o, s) ∷ ys)
      → m.blocks o ≡ record {
        prev_page_off = prev;
        next_page_off = next;
        size_in_pages = s;
        magic = free_block_magic;
      }
  header_at v = ((Seg-append m.blocks free_list_end free_list_end xs ((o, s) ∷ ys)).0 v.front.1).1.0

  pub unlink_block_lem :
      IsFreeList m (xs ++ (o, s) ∷ ys) → unlink_block m o ≡ unlink_at m o prev next
  unfolding unlink_block
  unlink_block_lem v =
      ap (λ (r : FreeBlockHeader). unlink_at m o r.prev_page_off r.next_page_off) (header_at v)

  pub unlink_block-IsFreeList :
      IsFreeList m (xs ++ (o, s) ∷ ys)
      → IsFreeList (unlink_block m o) (xs ++ ys) × SameElse m.hdr (unlink_block m o).hdr
  unlink_block-IsFreeList v =
      subst (λ (n : ListMemory). IsFreeList n (xs ++ ys) × SameElse m.hdr n.hdr)
        (sym (unlink_block_lem v)) (unlink_at-IsFreeList v)

  -- The front part of the block stays.
  pub resize_block-IsFreeList :
      (r : ℕ)
      → 0 < r
      → r ≤ s
      → IsFreeList m (xs ++ (o, s) ∷ ys)
      → IsFreeList (resize_block m o r) (xs ++ (o, r) ∷ ys)
  unfolding resize_block
  resize_block-IsFreeList r pos le v =
      let parts = (Ordered-append 0 xs ((o, s) ∷ ys)).0 v.ordered in
      let bound = end_of-ge (o + s) ys parts.1.2 in
      let segs = (Seg-append m.blocks free_list_end free_list_end xs ((o, s) ∷ ys)).0 v.front.1 in
      let cut = record (m.blocks o) { size_in_pages = r } in
      let blocks = update m.blocks o cut in
      record {
        front = (
          v.front.0
              ∙ first_or-append free_list_end xs ((o, s) ∷ ys)
              ∙ sym (first_or-append free_list_end xs ((o, r) ∷ ys)),
          (Seg-append blocks free_list_end free_list_end xs ((o, r) ∷ ys)).1 (
            Seg-frame m.blocks blocks free_list_end o 0 xs parts.0
                (λ q l u. update_ne m.blocks o cut q (omega arith)) segs.0,
            (
              update_self m.blocks o cut
                  ∙ ap (λ (h : FreeBlockHeader). record h { size_in_pages = r }) (header_at v),
              Seg-frame m.blocks blocks o free_list_end (o + s) ys parts.1.2
                  (λ q l u. update_ne m.blocks o cut q (omega arith)) segs.1.1,
            ),
          ),
        );
        count =
            omega (arith, v.count, length-append xs ((o, s) ∷ ys), length-append xs ((o, r) ∷ ys));
        ordered =
            (Ordered-append 0 xs ((o, r) ∷ ys)).1 (
              parts.0,
              (parts.1.0, pos, Ordered-weaken (o + s) (o + r) ys (omega arith) parts.1.2),
            );
        within = omega (
          arith,
          v.within,
          end_of-append 0 xs ((o, s) ∷ ys),
          end_of-append 0 xs ((o, r) ∷ ys),
          end_of-weaken (o + s) (o + r) ys (omega arith) parts.1.2,
        );
        small = v.small;
      }

  pub resized-Coalesced :
      (r : ℕ) → r ≤ s → Coalesced 0 (xs ++ (o, s) ∷ ys) → Coalesced 0 (xs ++ (o, r) ∷ ys)
  resized-Coalesced r le c =
      let cs = (Coalesced-append 0 xs ((o, s) ∷ ys)).0 c in
      (Coalesced-append 0 xs ((o, r) ∷ ys)).1
        (cs.0, (cs.1.0, Coalesced-weaken (suc (o + s)) (suc (o + r)) ys (omega arith) cs.1.1))
