-- ===== src/Arena/Seg/Merge.antt =====
-- The merges with the block behind and with the block before leave no two neighbours that touch.
use scudo.Common.{
  ℕ, suc, ◌+◌, ◌≡◌, refl, sym, ap, ◌≢◌, inl, inr, subst, Bool-cases, true, false, List, [], ◌∷◌,
  ◌++◌, append_assoc, arith, ◌==◌, ne→==, add_u32,
}
use scudo.Arena.State.{FreeBlockHeader, free_list_end}
use scudo.Arena.FreeList.{ListMemory, merge_next, merge_prev, absorb}
use scudo.Arena.Seg.{
  Extent, first_or, last_or, Coalesced, SamePages, last_or-append, end_of-append, Seg-append,
  Ordered-append, Coalesced-append, SamePages-join, end_of-ge, Snoc-cases,
}
use scudo.Arena.Seg.Insert.{IsFreeList, SameElse}
use scudo.Arena.Seg.Absorb.{absorb-IsFreeList}

-- What the merge with the next block leaves: from the new block on nothing touches.
pub record NextMerged (m m' : ListMemory) (xs ys : List Extent) (o s : ℕ) : Type 0 where
  pub size : ℕ
  pub rest : List Extent
  pub list : IsFreeList m' (xs ++ (o, size) ∷ rest)
  pub apart : Coalesced (suc (o + size)) rest
  pub same : SamePages (xs ++ (o, s) ∷ ys) (xs ++ (o, size) ∷ rest)
  pub kept : SameElse m.hdr m'.hdr

merge_next-idle :
    (m : ListMemory) (next o s : ℕ)
    → (next ≡ free_list_end → ⊥)
    → (add_u32 o s == next) ≡ false
    → merge_next m next o s ≡ m
unfolding merge_next
merge_next-idle m next o s h k = rw (ne→== next free_list_end h, k)

merge_next-active :
    (m : ListMemory) (next o s : ℕ)
    → (next ≡ free_list_end → ⊥)
    → (add_u32 o s == next) ≡ true
    → merge_next m next o s ≡ absorb m o next
unfolding merge_next
merge_next-active m next o s h k = rw (ne→== next free_list_end h, k)

pub merge_next-NextMerged :
    (m : ListMemory) (xs ys : List Extent) (o s lo : ℕ)
    → IsFreeList m (xs ++ (o, s) ∷ ys)
    → Coalesced lo ys
    → NextMerged m (merge_next m (first_or free_list_end ys) o s) xs ys o s
unfolding merge_next
merge_next-NextMerged m xs [] o s lo v c = record {
  size = s;
  rest = [];
  list = v;
  apart = tt;
  same = (λ q. refl, refl);
  kept = refl;
}
merge_next-NextMerged m xs ((b, t) ∷ ys) o s lo v c =
    let parts = (Ordered-append 0 xs ((o, s) ∷ (b, t) ∷ ys)).0 v.ordered in
    let end = end_of-append 0 xs ((o, s) ∷ (b, t) ∷ ys) in
    let bound = end_of-ge (b + t) ys parts.1.2.2 in
    let other : b ≢ free_list_end = omega (arith, v.small, v.within) in
    let sum : add_u32 o s ≡ o + s = omega (arith, v.small, v.within) in
    elim (Bool-cases (add_u32 o s == b)) [
      | inl touch ↦
          let e : o + s ≡ b = ground arith in
          let joined = absorb-IsFreeList m xs ys o s b t e v in
          subst (λ (n : ListMemory). NextMerged m n xs ((b, t) ∷ ys) o s)
            (sym (merge_next-active m b o s other touch))
            (record {
              size = s + t;
              rest = ys;
              list = joined.0;
              apart = subst (λ (r : ℕ). Coalesced (suc r) ys) {x = b + t} (omega arith) c.1;
              same = SamePages-join xs ys o s b t e;
              kept = joined.1;
            })
      | inr gap ↦
          subst (λ (n : ListMemory). NextMerged m n xs ((b, t) ∷ ys) o s)
            (sym (merge_next-idle m b o s other gap))
            (record {
              size = s;
              rest = (b, t) ∷ ys;
              list = v;
              apart = (ground arith, c.1);
              same = (λ q. refl, refl);
              kept = refl;
            })
    ]

-- What the merge with the previous block leaves: nothing touches at all.
pub record PrevMerged (m m' : ListMemory) (bs : List Extent) : Type 0 where
  pub extents : List Extent
  pub list : IsFreeList m' extents
  pub apart : Coalesced 0 extents
  pub same : SamePages bs extents
  pub kept : SameElse m.hdr m'.hdr

merge_prev-idle :
    (m : ListMemory) (prev o : ℕ)
    → (add_u32 prev (m.blocks prev).size_in_pages == o) ≡ false
    → merge_prev m prev o ≡ m
unfolding merge_prev
merge_prev-idle m prev o k = rw k (ground arith)

merge_prev-active :
    (m : ListMemory) (prev o : ℕ)
    → prev ≢ free_list_end
    → (add_u32 prev (m.blocks prev).size_in_pages == o) ≡ true
    → merge_prev m prev o ≡ absorb m prev o
unfolding merge_prev
merge_prev-active m prev o h k = rw (ne→== prev free_list_end h, k)

abbrev MergesPrev : ListMemory → List Extent → ℕ → ℕ → List Extent → Type 0
MergesPrev m ys o s xs =
    IsFreeList m (xs ++ (o, s) ∷ ys)
    → Coalesced 0 xs
    → PrevMerged m (merge_prev m (last_or free_list_end xs) o) (xs ++ (o, s) ∷ ys)

merge_prev-snoc :
    (m : ListMemory) (zs ys : List Extent) (o s p u : ℕ)
    → Coalesced (suc (o + s)) ys
    → MergesPrev m ys o s (zs ++ (p, u) ∷ [])
merge_prev-snoc m zs ys o s p u cy v' c =
    let flat : (zs ++ (p, u) ∷ []) ++ (o, s) ∷ ys ≡ zs ++ (p, u) ∷ (o, s) ∷ ys =
      append_assoc zs ((p, u) ∷ []) ((o, s) ∷ ys) in
    let v : IsFreeList m (zs ++ (p, u) ∷ (o, s) ∷ ys) = subst (IsFreeList m) flat v' in
    let parts = (Ordered-append 0 zs ((p, u) ∷ (o, s) ∷ ys)).0 v.ordered in
    let end = end_of-append 0 zs ((p, u) ∷ (o, s) ∷ ys) in
    let bound = end_of-ge (o + s) ys parts.1.2.2 in
    let other : p ≢ free_list_end = omega (arith, v.small, v.within) in
    let size : (m.blocks p).size_in_pages ≡ u =
      ap (λ (r : FreeBlockHeader). r.size_in_pages)
        ((Seg-append m.blocks free_list_end free_list_end zs ((p, u) ∷ (o, s) ∷ ys)).0
          v.front.1).1.0 in
    let sum : add_u32 p (m.blocks p).size_in_pages ≡ p + u =
      omega (arith, size, v.small, v.within) in
    let cs = (Coalesced-append 0 zs ((p, u) ∷ [])).0 c in
    subst
      (λ (r : List Extent).
        PrevMerged m (merge_prev m (last_or free_list_end (zs ++ (p, u) ∷ [])) o) r)
      (sym flat)
      (subst (λ (r : ℕ). PrevMerged m (merge_prev m r o) (zs ++ (p, u) ∷ (o, s) ∷ ys))
        (sym (last_or-append free_list_end zs ((p, u) ∷ [])))
        (elim (Bool-cases (add_u32 p (m.blocks p).size_in_pages == o)) [
          | inl touch ↦
              let e : p + u ≡ o = ground arith in
              let joined = absorb-IsFreeList m zs ys p u o s e v in
              subst (λ (n : ListMemory). PrevMerged m n (zs ++ (p, u) ∷ (o, s) ∷ ys))
                (sym (merge_prev-active m p o other touch))
                (record {
                  extents = zs ++ (p, u + s) ∷ ys;
                  list = joined.0;
                  apart = (Coalesced-append 0 zs ((p, u + s) ∷ ys)).1 (
                    cs.0,
                    (cs.1.0, subst (λ (r : ℕ). Coalesced (suc r) ys) {x = o + s} (omega arith) cy),
                  );
                  same = SamePages-join zs ys p u o s e;
                  kept = joined.1;
                })
          | inr gap ↦
              subst (λ (n : ListMemory). PrevMerged m n (zs ++ (p, u) ∷ (o, s) ∷ ys))
                (sym (merge_prev-idle m p o gap))
                (record {
                  extents = zs ++ (p, u) ∷ (o, s) ∷ ys;
                  list = v;
                  apart =
                      (Coalesced-append 0 zs ((p, u) ∷ (o, s) ∷ ys)).1
                        (cs.0, (cs.1.0, (ground arith, cy)));
                  same = (λ q. refl, refl);
                  kept = refl;
                })
        ]))

merge_prev-nil :
    (m : ListMemory) (ys : List Extent) (o s : ℕ)
    → Coalesced (suc (o + s)) ys
    → MergesPrev m ys o s []
unfolding merge_prev
merge_prev-nil m ys o s cy v c = record {
  extents = (o, s) ∷ ys;
  list = v;
  apart = (omega arith, cy);
  same = (λ q. refl, refl);
  kept = refl;
}

pub merge_prev-PrevMerged :
    (m : ListMemory) (xs ys : List Extent) (o s : ℕ)
    → Coalesced (suc (o + s)) ys
    → MergesPrev m ys o s xs
merge_prev-PrevMerged m xs ys o s cy = elim (Snoc-cases xs) [
  | inl e ↦ subst (MergesPrev m ys o s) (sym e) (merge_prev-nil m ys o s cy)
  | inr (zs, (p, u), e) ↦ subst (MergesPrev m ys o s) (sym e) (merge_prev-snoc m zs ys o s p u cy)
]
