-- ===== src/Arena/Seg/Links.antt =====
-- The two pointer writes of the free list, on the segments before and behind them.
use scudo.Common.{
  ℕ, ◌+◌, ◌≤◌, ◌<◌, ◌≡◌, refl, sym, ap, subst, ◌≢◌, inl, inr, List, [], ◌∷◌, ◌++◌, arith, ◌∙◌,
  ne→==, update, update_self, update_ne,
}
use scudo.Arena.State.{FreeBlockHeader, free_list_end}
use scudo.Arena.FreeList.{ListMemory, set_next, set_prev}
use scudo.Arena.Seg.{
  Extent, first_or, last_or, Seg, Ordered, end_of, first_or-append, last_or-append, end_of-append,
  Seg-append, Ordered-append, end_of-ge, Seg-frame, Snoc-cases,
}

-- The blocks of `xs` stand at the head of the list, and lead to `n`.
abbrev pub IsFront : ListMemory → List Extent → ℕ → Type 0
IsFront m xs n = (m.hdr.free_list_head_page_off ≡ first_or n xs) × Seg m.blocks free_list_end xs n

-- The writes at a block, and at none.
pub set_next_block :
    (m : ListMemory) (o v : ℕ)
    → o ≢ free_list_end
    → set_next m o v
      ≡ record m { blocks = update m.blocks o (record (m.blocks o) { next_page_off = v }) }
unfolding set_next
set_next_block m o v h = rw (ne→== o free_list_end h)

pub set_prev_block :
    (m : ListMemory) (o v : ℕ)
    → o ≢ free_list_end
    → set_prev m o v
      ≡ record m { blocks = update m.blocks o (record (m.blocks o) { prev_page_off = v }) }
unfolding set_prev
set_prev_block m o v h = rw (ne→== o free_list_end h)

abbrev SetsNext : ListMemory → ℕ → ℕ → List Extent → Type 0
SetsNext m n v xs =
    Ordered 0 xs
    → end_of 0 xs ≤ free_list_end
    → IsFront m xs n
    → let m' = set_next m (last_or free_list_end xs) v in
      IsFront m' xs v × ((q : ℕ) → end_of 0 xs ≤ q → m'.blocks q ≡ m.blocks q)

set_next-snoc :
    (m : ListMemory) (n v : ℕ) (zs : List Extent) (o s : ℕ) → SetsNext m n v (zs ++ (o, s) ∷ [])
unfolding set_next
set_next-snoc m n v zs o s ord fits front =
    let parts = (Ordered-append 0 zs ((o, s) ∷ [])).0 ord in
    let segs = (Seg-append m.blocks free_list_end n zs ((o, s) ∷ [])).0 front.1 in
    let end : end_of 0 (zs ++ (o, s) ∷ []) ≡ o + s = end_of-append 0 zs ((o, s) ∷ []) in
    rw (last_or-append free_list_end zs ((o, s) ∷ []), set_next_block m o v (omega arith))
      (
        (
          front.0 ∙ first_or-append n zs ((o, s) ∷ []) ∙ sym (first_or-append v zs ((o, s) ∷ [])),
          (Seg-append _ free_list_end v zs ((o, s) ∷ [])).1 (
            Seg-frame m.blocks _ free_list_end o 0 zs parts.0
                (λ q l u. update_ne m.blocks o _ q (omega arith)) segs.0,
            (
              update_self m.blocks o _
                  ∙ ap (λ (r : FreeBlockHeader). record r { next_page_off = v }) segs.1.0,
              tt,
            ),
          ),
        ),
        λ q h. update_ne m.blocks o _ q (omega arith),
      )

pub set_next_lem : (m : ListMemory) (n v : ℕ) (xs : List Extent) → SetsNext m n v xs
unfolding set_next
set_next_lem m n v xs = elim (Snoc-cases xs) [
  | inl e ↦ subst (SetsNext m n v) (sym e) (λ ord fits front. ((refl, tt), λ q h. refl))
  | inr (zs, (o, s), e) ↦ subst (SetsNext m n v) (sym e) (set_next-snoc m n v zs o s)
]

-- What the write leaves: `ys` with the predecessor `v`, and the blocks before page `lo` untouched.
abbrev pub PrevSet : ListMemory → ℕ → ℕ → List Extent → ListMemory → Type 0
PrevSet m v lo ys m' =
    Seg m'.blocks v ys free_list_end
    × (m'.hdr ≡ m.hdr)
    × ((q : ℕ) → q < lo → m'.blocks q ≡ m.blocks q)

-- The first block of the rest of the list has `v` for its predecessor then.
pub set_prev_lem :
    (m : ListMemory) (p v lo : ℕ) (ys : List Extent)
    → Ordered lo ys
    → end_of lo ys ≤ free_list_end
    → Seg m.blocks p ys free_list_end
    → PrevSet m v lo ys (set_prev m (first_or free_list_end ys) v)
unfolding set_prev
set_prev_lem m p v lo [] ord fits seg = (tt, refl, λ q h. refl)
set_prev_lem m p v lo ((o, s) ∷ ys) ord fits seg =
    let bound = end_of-ge (o + s) ys ord.2 in
    let h : FreeBlockHeader = record (m.blocks o) { prev_page_off = v } in
    subst (PrevSet m v lo ((o, s) ∷ ys)) (sym (set_prev_block m o v (omega arith))) (
      (
        update_self m.blocks o h
            ∙ ap (λ (r : FreeBlockHeader). record r { prev_page_off = v }) seg.0,
        Seg-frame m.blocks (update m.blocks o h) o free_list_end (o + s) ys ord.2
            (λ q l u. update_ne m.blocks o h q (omega arith)) seg.1,
      ),
      refl,
      λ q l. update_ne m.blocks o h q (omega arith),
    )
