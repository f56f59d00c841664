-- ===== src/Arena/Donation.antt =====
-- SharedArena::store as a whole: the pages that come back join the free list, and no two free blocks
-- touch.
use scudo.Common.{
  ℕ, suc, ◌+◌, ◌≤◌, ◌<◌, ◌≡◌, refl, ap, ◌∙◌, inl, subst, sym, ◌&&◌, ◌||◌, some, List, [], ◌∷◌, ◌++◌,
  arith, ltb, leb,
}
use scudo.Arena.State.{free_list_end}
use scudo.Arena.FreeList.{
  ListMemory, find_slot, between, link_block, merge_next, merge_prev, insert_block, insert_in_slot,
}
use scudo.Arena.Seg.{
  Extent, first_or, last_or, Ordered, end_of, Coalesced, covers, pages, gap_of, covers-append,
  pages-append, Coalesced-append,
}
use scudo.Arena.Seg.Insert.{
  IsFreeList, SameElse, SameElse-trans, length-Ordered, link_block-IsFreeList,
}
use scudo.Arena.Seg.Slot.{Apart, find_slot-Splits}
use scudo.Arena.Seg.Merge.{merge_next-NextMerged, merge_prev-PrevMerged}

-- The free pages are those of before and the new ones, and the list is in order and coalesced.
pub record Inserted (m m' : ListMemory) (bs : List Extent) (o s : ℕ) : Type 0 where
  pub extents : List Extent
  pub list : IsFreeList m' extents
  pub apart : Coalesced 0 extents
  pub free : (q : ℕ) → covers q extents ≡ (covers q bs || (leb o q && ltb q (o + s)))
  pub total : pages extents ≡ pages bs + s
  pub kept : SameElse m.hdr m'.hdr

covers-insert :
    (q : ℕ) (xs ys : List Extent) (o s : ℕ)
    → covers q (xs ++ (o, s) ∷ ys) ≡ (covers q (xs ++ ys) || (leb o q && ltb q (o + s)))
covers-insert q xs ys o s = ground (arith, covers-append q xs ((o, s) ∷ ys), covers-append q xs ys)

pages-insert : (xs ys : List Extent) (o s : ℕ) → pages (xs ++ (o, s) ∷ ys) ≡ pages (xs ++ ys) + s
pages-insert xs ys o s = omega (arith, pages-append xs ((o, s) ∷ ys), pages-append xs ys)

insert_at_slot :
    (m : ListMemory) (o s prev next : ℕ)
    → find_slot
        (suc m.hdr.total_data_pages)
        m.blocks
        m.hdr.total_data_pages
        o
        free_list_end
        m.hdr.free_list_head_page_off
      ≡ some (between prev next)
    → insert_block m o s
      ≡ some (merge_prev (merge_next (link_block m prev next o s) next o s) prev o)
unfolding insert_block
insert_at_slot m o s prev next e = ap (insert_in_slot m o s) e

-- The end of an ordered list is below a bound on the new extent and on the list.
end_of-insert :
    (lo hi o s : ℕ) (xs ys : List Extent)
    → Ordered lo (xs ++ (o, s) ∷ ys)
    → end_of lo (xs ++ ys) ≤ hi
    → o + s ≤ hi
    → end_of lo (xs ++ (o, s) ∷ ys) ≤ hi
end_of-insert lo hi o s [] [] ord fits new = new
end_of-insert lo hi o s [] ((b, t) ∷ ys) ord fits new = fits
end_of-insert lo hi o s ((b, t) ∷ xs) ys ord fits new =
    end_of-insert (b + t) hi o s xs ys ord.2 fits new

-- The writes of `store`, once the place between `xs` and `ys` is found.
insert-Inserted :
    (m : ListMemory) (xs ys : List Extent) (o s : ℕ)
    → IsFreeList m (xs ++ ys)
    → Coalesced 0 (xs ++ ys)
    → Ordered 0 (xs ++ (o, s) ∷ ys)
    → o + s ≤ m.hdr.total_data_pages
    → let prev = last_or free_list_end xs in
      let next = first_or free_list_end ys in
      Inserted m
        (merge_prev (merge_next (link_block m prev next o s) next o s) prev o)
        (xs ++ ys)
        o
        s
insert-Inserted m xs ys o s v c ord fits =
    let prev = last_or free_list_end xs in
    let next = first_or free_list_end ys in
    let m₁ = link_block m prev next o s in
    let m₂ = merge_next m₁ next o s in
    let m₃ = merge_prev m₂ prev o in
    let cs = (Coalesced-append 0 xs ys).0 c in
    let linked =
      link_block-IsFreeList m xs ys o s v ord
        (end_of-insert 0 m.hdr.total_data_pages o s xs ys ord v.within fits) in
    let after = merge_next-NextMerged m₁ xs ys o s (gap_of 0 xs) linked.0 cs.1 in
    let done = merge_prev-PrevMerged m₂ xs after.rest o after.size after.apart after.list cs.0 in
    record {
      extents = done.extents;
      list = done.list;
      apart = done.apart;
      free = λ q. done.same.0 q ∙ after.same.0 q ∙ covers-insert q xs ys o s;
      total = done.same.1 ∙ after.same.1 ∙ pages-insert xs ys o s;
      kept =
          SameElse-trans m.hdr m₁.hdr m₃.hdr linked.1
            (SameElse-trans m₁.hdr m₂.hdr m₃.hdr after.kept done.kept);
    }

-- Putting pages of which none is free into a list in order ends within its fuel, and the list in
-- memory is again linked, counted, in order and coalesced, with exactly these pages more.
pub insert_block-Inserted :
    (m : ListMemory) (bs : List Extent) (o s : ℕ)
    → IsFreeList m bs
    → Coalesced 0 bs
    → Apart o s bs
    → 0 < s
    → o + s ≤ m.hdr.total_data_pages
    → (m' : ListMemory) × (insert_block m o s ≡ some m') × Inserted m m' bs o s
insert_block-Inserted m bs o s v c apart hs fits =
    let total = m.hdr.total_data_pages in
    let split =
      find_slot-Splits (suc total) m.blocks total free_list_end 0 o s bs
        (omega (arith, length-Ordered 0 bs v.ordered, v.within)) v.ordered v.within
        (omega (arith, v.small)) apart (omega arith) hs (inl refl) v.front.1 in
    let prev = last_or free_list_end split.front in
    let next = first_or free_list_end split.rest in
    let start = ap (find_slot (suc total) m.blocks total o free_list_end) v.front.0 ∙ split.slot in
    let m' = merge_prev (merge_next (link_block m prev next o s) next o s) prev o in
    (
      m',
      insert_at_slot m o s prev next start,
      subst (λ (r : List Extent). Inserted m m' r o s) (sym split.whole)
          (insert-Inserted m split.front split.rest o s (subst (IsFreeList m) split.whole v)
            (subst (Coalesced 0) split.whole c) split.ordered fits),
    )
