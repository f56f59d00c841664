-- ===== src/Arena/Taking.antt =====
-- The pages that SharedArena::retrieve takes: from the best fit of the free list, or above the bump
-- pointer.
use scudo.Common.{
  ℕ, suc, ◌+◌, ◌-◌, ◌≤◌, ◌<◌, ◌≡◌, ◌≢◌, refl, ap, ◌∙◌, inl, inr, ◌⊎◌, Bool, false, ◌&&◌, ◌||◌, some,
  List, [], ◌∷◌, ◌++◌, arith, ltb, leb, add_u32, sub_u32, eq→==, ne→==,
}
use native.Mathlib.Decide.{dec_lt}
use scudo.Arena.State.{FreeBlockHeader, Env, free_list_end}
use scudo.Arena.FreeList.{ListMemory, find_best, unlink_block, resize_block, relink_block}
use scudo.Arena.Retrieve.{scan_free, take_best}
use scudo.Arena.Seg.{
  Extent, Ordered, end_of, Coalesced, covers, pages, covers-append, pages-append, Ordered-append,
  end_of-append, end_of-ge,
}
use scudo.Arena.Seg.Insert.{IsFreeList, SameElse, length-Ordered}
use scudo.Arena.Seg.Best.{Candidate, find_best-Candidate}
use scudo.Arena.Seg.Restore.{tallied, relink-unlink, resize-resize}
use scudo.Arena.Seg.Remove.{
  header_at, unlink_block-IsFreeList, resize_block-IsFreeList, removed-Coalesced, resized-Coalesced,
  removed-Ordered, end_of-weaken,
}

-- The pages [o, o + n) have left the free list, and it is as well-formed as before.
pub record Cut (m m' : ListMemory) (bs : List Extent) (o n : ℕ) : Type 0 where
  pub extents : List Extent
  pub list : IsFreeList m' extents
  pub apart : Coalesced 0 extents
  pub free : (q : ℕ) → covers q bs ≡ (covers q extents || (leb o q && ltb q (o + n)))
  pub taken : (q : ℕ) → o ≤ q → q < o + n → covers q extents ≡ false
  pub total : pages bs ≡ pages extents + n
  pub ending : end_of 0 extents ≤ end_of 0 bs
  pub inside : o + n ≤ end_of 0 bs
  pub kept : SameElse m.hdr m'.hdr

covers-below : (lo q : ℕ) (bs : List Extent) → Ordered lo bs → q < lo → covers q bs ≡ false
covers-below lo q [] ord h = refl
covers-below lo q ((o, s) ∷ bs) ord h = ground (arith, covers-below (o + s) q bs ord.2)

pub covers-above :
    (lo q : ℕ) (bs : List Extent) → Ordered lo bs → end_of lo bs ≤ q → covers q bs ≡ false
covers-above lo q [] ord h = refl
covers-above lo q ((o, s) ∷ bs) ord h =
    ground (arith, covers-above (o + s) q bs ord.2, end_of-ge (o + s) bs ord.2)

covers-tail_cut :
    (q b s n : ℕ) (xs ys : List Extent)
    → n < s
    → covers q (xs ++ (b, s) ∷ ys)
      ≡ (covers q (xs ++ (b, s - n) ∷ ys) || (leb (b + (s - n)) q && ltb q (b + (s - n) + n)))
covers-tail_cut q b s n [] ys less = ground arith
covers-tail_cut q b s n ((o, t) ∷ xs) ys less = ground (arith, covers-tail_cut q b s n xs ys less)

not_in_front :
    (q : ℕ) (before behind : Bool) (b r : ℕ)
    → b + r ≤ q
    → before ≡ false
    → behind ≡ false
    → (before || ((leb b q && ltb q (b + r)) || behind)) ≡ false
not_in_front q before behind b r h e e' = ground arith

module _ (m : ListMemory) (xs ys : List Extent) (b s n : ℕ) where
  abbrev bs : List Extent
  bs = xs ++ (b, s) ∷ ys

  -- The whole block.
  unlink_block-Cut : IsFreeList m bs → Coalesced 0 bs → s ≡ n → Cut m (unlink_block m b) bs b n
  unlink_block-Cut v c e =
      let parts = (Ordered-append 0 xs ((b, s) ∷ ys)).0 v.ordered in
      let done = unlink_block-IsFreeList m xs ys b s v in
      let end = end_of-append 0 xs ((b, s) ∷ ys) in
      record {
        extents = xs ++ ys;
        list = done.0;
        apart = removed-Coalesced m xs ys b s c;
        free = λ q. ground (arith, covers-append q xs ((b, s) ∷ ys), covers-append q xs ys);
        taken = λ q l u. ground (
          arith,
          covers-append q xs ys,
          covers-above 0 q xs parts.0,
          covers-below (b + s) q ys parts.1.2,
        );
        total = omega (arith, pages-append xs ((b, s) ∷ ys), pages-append xs ys);
        ending = (removed-Ordered m xs ys b s v.ordered).1;
        inside = omega (arith, end, end_of-ge (b + s) ys parts.1.2);
        kept = done.1;
      }

  -- The end of the block.
  resize_block-Cut :
      IsFreeList m bs
      → Coalesced 0 bs
      → 0 < n
      → n < s
      → Cut m (resize_block m b (s - n)) bs (b + (s - n)) n
  unfolding resize_block
  resize_block-Cut v c pos less =
      let parts = (Ordered-append 0 xs ((b, s) ∷ ys)).0 v.ordered in
      let end = end_of-append 0 xs ((b, s) ∷ ys) in
      record {
        extents = xs ++ (b, s - n) ∷ ys;
        list = resize_block-IsFreeList m xs ys b s (s - n) (omega arith) (omega arith) v;
        apart = resized-Coalesced m xs ys b s (s - n) (omega arith) c;
        free = λ q. covers-tail_cut q b s n xs ys less;
        taken = λ q l u.
            covers-append q xs ((b, s - n) ∷ ys)
            ∙ not_in_front q (covers q xs) (covers q ys) b (s - n) l
                (covers-above 0 q xs parts.0 (omega arith))
                (covers-below (b + s) q ys parts.1.2 (omega arith));
        total = omega (arith, pages-append xs ((b, s) ∷ ys), pages-append xs ((b, s - n) ∷ ys));
        ending = omega (
          arith,
          end,
          end_of-append 0 xs ((b, s - n) ∷ ys),
          end_of-weaken (b + s) (b + (s - n)) ys (omega arith) parts.1.2,
        );
        inside = omega (arith, end, end_of-ge (b + s) ys parts.1.2);
        kept = refl;
      }

-- The code's way back from the cut gives the list as it was, whatever the statistics are by then.
abbrev pub Undone : ListMemory → ListMemory → ℕ → ℕ → ℕ → Type 0
Undone m m' b o n =
    (bytes count : ℕ)
    → ((o ≡ b) × (relink_block (tallied m' bytes count) b ≡ tallied m bytes count))
      ⊎ ((o ≢ b)
          × (resize_block (tallied m' bytes count) b (add_u32 (m'.blocks b).size_in_pages n)
              ≡ tallied m bytes count))

pub take_best-Cut :
    (m : ListMemory) (xs ys : List Extent) (b s n : ℕ)
    → IsFreeList m (xs ++ (b, s) ∷ ys)
    → Coalesced 0 (xs ++ (b, s) ∷ ys)
    → 0 < n
    → n ≤ s
    → (o : ℕ) × (m' : ListMemory) × (take_best m b n ≡ (o, m'))
      × Cut m m' (xs ++ (b, s) ∷ ys) o n
      × Undone m m' b o n
unfolding take_best
take_best-Cut m xs ys b s n v c pos le =
    let parts = (Ordered-append 0 xs ((b, s) ∷ ys)).0 v.ordered in
    let end = end_of-append 0 xs ((b, s) ∷ ys) in
    let bound = end_of-ge (b + s) ys parts.1.2 in
    let size = ap (λ (h : FreeBlockHeader). h.size_in_pages) (header_at m xs ys b s v) in
    let remainder : sub_u32 (m.blocks b).size_in_pages n ≡ s - n =
      omega (arith, size, v.small, v.within) in
    elim (dec_lt n s) [
      | yes less ↦ (
        b + (s - n),
        resize_block m b (s - n),
        simp (remainder, ne→== (s - n) 0 (omega arith))
            (λ i. (
              (let e : add_u32 b (s - n) ≡ b + (s - n) = omega (arith, v.small, v.within) in e) i,
              resize_block m b (s - n),
            )),
        resize_block-Cut m xs ys b s n v c pos less,
        λ bytes count. inr (omega arith, resize-resize m xs ys b s v n bytes count le),
      )
      | no same ↦ (
        b,
        unlink_block m b,
        simp (remainder, eq→== (s - n) 0 (omega arith)),
        unlink_block-Cut m xs ys b s n v c (omega arith),
        λ bytes count. inl (
          refl,
          relink-unlink m xs ys b s v bytes count (
              omega (
                arith,
                v.count,
                length-Ordered 0 (xs ++ (b, s) ∷ ys) v.ordered,
                v.within,
                v.small,
              )),
        ),
      )
    ]

-- The scan of a list in order leaves it alone.
pub scan_free-Candidate :
    (env : Env) (m : ListMemory) (bs : List Extent) (n : ℕ)
    → env.freelist_disabled ≡ false
    → IsFreeList m bs
    → (best : ℕ) × (scan_free env m n ≡ some (best, m))
      × Candidate n free_list_end 0xFFFFFFFF bs best
unfolding scan_free
scan_free-Candidate env m [] n on v =
    (free_list_end, simp (on, eq→== m.hdr.free_count 0 v.count), inl (refl, tt))
scan_free-Candidate env m (b ∷ bs) n on v =
    let total = m.hdr.total_data_pages in
    let some_blocks : m.hdr.free_count ≢ 0 = omega (arith, v.count) in
    let (best, e, c) =
      find_best-Candidate m.blocks total n (suc total) free_list_end 0xFFFFFFFF free_list_end 0
        (b ∷ bs) (omega (arith, length-Ordered 0 (b ∷ bs) v.ordered, v.within)) v.ordered v.within
        (omega (arith, v.small)) (inl refl) v.front.1 in
    let start =
      ap (find_best (suc total) m.blocks total n free_list_end 0xFFFFFFFF) v.front.0 ∙ e in
    (best, simp (on, ne→== m.hdr.free_count 0 some_blocks, start), c)
