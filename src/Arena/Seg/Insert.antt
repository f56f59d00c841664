-- ===== src/Arena/Seg/Insert.antt =====
-- The free list as a predicate on the memory, and the write of a new block between two neighbours.
use scudo.Common.{
  ℕ, ◌+◌, ◌≤◌, ◌<◌, ◌≡◌, sym, ap, ◌∙◌, List, [], ◌∷◌, ◌++◌, arith, update, update_self, update_ne,
  length, length-append, add_u32, subst,
}
use scudo.Arena.State.{SharedArenaHeader, FreeBlockHeader, free_list_end, free_block_magic}
use scudo.Arena.FreeList.{ListMemory, set_next, set_prev, add_count, link_block}
use scudo.Arena.Seg.{
  Extent, first_or, last_or, Seg, Ordered, end_of, first_or-append, end_of-append, Seg-append,
  Ordered-append, end_of-ge, Seg-frame,
}
use scudo.Arena.Seg.Links.{IsFront, set_next_lem, set_prev_lem}

-- The list in memory is `bs`: linked, counted, in order, and inside the data pages.
pub record IsFreeList (m : ListMemory) (bs : List Extent) : Type 0 where
  pub front : IsFront m bs free_list_end
  pub count : m.hdr.free_count ≡ length bs
  pub ordered : Ordered 0 bs
  pub within : end_of 0 bs ≤ m.hdr.total_data_pages
  pub small : m.hdr.total_data_pages < free_list_end

-- Two headers that differ in the fields of the free list at most.
abbrev pub SameElse : SharedArenaHeader → SharedArenaHeader → Type 0
SameElse h h' =
    h'
    ≡ record h { free_list_head_page_off = h'.free_list_head_page_off; free_count = h'.free_count }

pub set_next-SameElse :
    (m : ListMemory) (o v : ℕ)
    → SameElse m.hdr (set_next m o v).hdr × ((set_next m o v).hdr.free_count ≡ m.hdr.free_count)
unfolding set_next
set_next-SameElse m o v = ground arith

pub total-SameElse :
    (h h' : SharedArenaHeader) → SameElse h h' → h'.total_data_pages ≡ h.total_data_pages
total-SameElse h h' e = ap (λ (r : SharedArenaHeader). r.total_data_pages) e

pub length-Ordered : (lo : ℕ) (bs : List Extent) → Ordered lo bs → lo + length bs ≤ end_of lo bs
length-Ordered lo [] h = omega arith
length-Ordered lo ((o, s) ∷ bs) h = omega (arith, length-Ordered (o + s) bs h.2)

pub SameElse-eq :
    (h : SharedArenaHeader) {g g' : SharedArenaHeader} → g' ≡ g → SameElse h g → SameElse h g'
SameElse-eq h e = subst (SameElse h) (sym e)

pub SameElse-trans :
    (h h' h'' : SharedArenaHeader) → SameElse h h' → SameElse h' h'' → SameElse h h''
SameElse-trans h h' h'' e e' =
    e'
    ∙ ap
        (λ (r : SharedArenaHeader). record r {
          free_list_head_page_off = h''.free_list_head_page_off;
          free_count = h''.free_count;
        })
        e

module _ (m : ListMemory) (xs ys : List Extent) (o s : ℕ) where
  abbrev prev : ℕ
  prev = last_or free_list_end xs

  abbrev next : ℕ
  next = first_or free_list_end ys

  abbrev block : FreeBlockHeader
  block = record {
    prev_page_off = prev;
    next_page_off = next;
    size_in_pages = s;
    magic = free_block_magic;
  }

  abbrev written : ListMemory
  written = record m { blocks = update m.blocks o block }

  abbrev behind : ListMemory
  behind = set_next written prev o

  abbrev linked : ListMemory
  linked = set_prev behind next o

  pub link_block-IsFreeList :
      IsFreeList m (xs ++ ys)
      → Ordered 0 (xs ++ (o, s) ∷ ys)
      → end_of 0 (xs ++ (o, s) ∷ ys) ≤ m.hdr.total_data_pages
      → IsFreeList (link_block m prev next o s) (xs ++ (o, s) ∷ ys)
        × SameElse m.hdr (link_block m prev next o s).hdr
  unfolding link_block add_count
  link_block-IsFreeList v ord within =
      let parts = (Ordered-append 0 xs ((o, s) ∷ ys)).0 ord in
      let end : end_of 0 (xs ++ (o, s) ∷ ys) ≡ end_of (o + s) ys =
        end_of-append 0 xs ((o, s) ∷ ys) in
      let bound = end_of-ge (o + s) ys parts.1.2 in
      let segs = (Seg-append m.blocks free_list_end free_list_end xs ys).0 v.front.1 in
      let front : IsFront written xs next = (
        v.front.0 ∙ first_or-append free_list_end xs ys,
        Seg-frame m.blocks written.blocks free_list_end next 0 xs parts.0
            (λ q l u. update_ne m.blocks o block q (omega arith)) segs.0,
      ) in
      let step = set_next_lem written next o xs parts.0 (omega (arith, v.small)) front in
      let rest : Seg behind.blocks prev ys free_list_end =
        Seg-frame m.blocks behind.blocks prev free_list_end (o + s) ys parts.1.2
          (λ q l u. step.1 q (omega arith) ∙ update_ne m.blocks o block q (omega arith)) segs.1 in
      let done = set_prev_lem behind prev o (o + s) ys parts.1.2 (omega (arith, v.small)) rest in
      let same = set_next-SameElse written prev o in
      let kept : SameElse m.hdr linked.hdr = SameElse-eq m.hdr done.1 same.0 in
      let total = total-SameElse m.hdr linked.hdr kept in
      let counted : linked.hdr.free_count ≡ m.hdr.free_count =
        ap (λ (r : SharedArenaHeader). r.free_count) done.1 ∙ same.1 in
      (
        record {
          front = (
            ap (λ (r : SharedArenaHeader). r.free_list_head_page_off) done.1
                ∙ step.0.0
                ∙ sym (first_or-append free_list_end xs ((o, s) ∷ ys)),
            (Seg-append linked.blocks free_list_end free_list_end xs ((o, s) ∷ ys)).1 (
              Seg-frame behind.blocks linked.blocks free_list_end o 0 xs parts.0
                  (λ q l u. done.2 q (omega arith)) step.0.1,
              (
                done.2 o (omega arith) ∙ step.1 o (omega arith) ∙ update_self m.blocks o block,
                done.0,
              ),
            ),
          );
          count = omega (
            arith,
            counted,
            v.count,
            v.small,
            length-append xs ys,
            length-append xs ((o, s) ∷ ys),
            length-Ordered 0 (xs ++ (o, s) ∷ ys) ord,
          );
          ordered = ord;
          within = omega (arith, total);
          small = omega (arith, total, v.small);
        },
        ap (λ (r : SharedArenaHeader). record r { free_count = add_u32 linked.hdr.free_count 1 })
            kept,
      )
