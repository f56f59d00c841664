-- ===== src/Arena/Seg/Best.antt =====
-- The scan of `retrieve` is a best fit: the smallest block that is large enough.
use scudo.Common.{
  ℕ, zero, suc, ◌+◌, ◌≤◌, ◌<◌, ◌≡◌, refl, sym, ap, subst, ==→eq, ◌∙◌, ◌≢◌, ◌⊎◌, inl, inr,
  Bool-cases, Bool, true, false, ◌&&◌, Option, some, List, [], ◌∷◌, ◌++◌, arith, ltb, leb, ◌==◌,
  length, All, ne→==, if◌then◌else◌,
}
use scudo.Arena.State.{FreeBlockHeader, Blocks, free_list_end, free_block_magic}
use scudo.Arena.FreeList.{free_block_looks_valid, find_best, Scan, found}
use scudo.Arena.Seg.{Extent, first_or, Seg, Ordered, end_of, end_of-ge}
use scudo.Arena.Seg.Slot.{IsLink, Seg-looks_valid}

-- No block of `bs` with the pages needed is smaller than `least`.
abbrev pub NoneBelow : ℕ → ℕ → List Extent → Type 0
NoneBelow needed least bs = All (λ b. needed ≤ b.1 → least ≤ b.1) bs

NoneBelow-needed : (needed : ℕ) (bs : List Extent) → NoneBelow needed needed bs
NoneBelow-needed needed [] = tt
NoneBelow-needed needed (b ∷ bs) = (λ h. h, NoneBelow-needed needed bs)

-- What a scan that starts with the candidate `best_off` of `best_pages` pages ends with.
abbrev pub Candidate : ℕ → ℕ → ℕ → List Extent → ℕ → Type 0
Candidate needed best_off best_pages bs r =
    ((r ≡ best_off) × NoneBelow needed best_pages bs)
    ⊎ ((xs : List Extent) × (s : ℕ) × (ys : List Extent) × (bs ≡ xs ++ (r, s) ∷ ys)
        × (needed ≤ s)
        × (s < best_pages)
        × NoneBelow needed s bs)

worse_bound : (n t bp : ℕ) → (leb n t && ltb t bp) ≡ false → n ≤ t → bp ≤ t
worse_bound n t bp h = ground arith

better_bounds : (n t bp : ℕ) → (leb n t && ltb t bp) ≡ true → (n ≤ t) × (t < bp)
better_bounds n t bp h = ground arith

Candidate-better :
    (needed bo bp b t r : ℕ) (bs : List Extent)
    → needed ≤ t
    → t < bp
    → Candidate needed b t bs r
    → Candidate needed bo bp ((b, t) ∷ bs) r
Candidate-better needed bo bp b t r bs le lt (inl (e, none_below)) =
    inr ([], t, bs, ap (λ (x : ℕ). (x, t) ∷ bs) (sym e), le, lt, ((λ h. omega arith), none_below))
Candidate-better needed bo bp b t r bs le lt (inr (xs, s, ys, e, enough, less, none_below)) = inr (
  (b, t) ∷ xs,
  s,
  ys,
  ap (λ (l : List Extent). (b, t) ∷ l) e,
  enough,
  omega arith,
  ((λ h. omega arith), none_below),
)

Candidate-worse :
    (needed bo bp b t r : ℕ) (bs : List Extent)
    → (needed ≤ t → bp ≤ t)
    → Candidate needed bo bp bs r
    → Candidate needed bo bp ((b, t) ∷ bs) r
Candidate-worse needed bo bp b t r bs worse (inl (e, none_below)) = inl (e, (worse, none_below))
Candidate-worse needed bo bp b t r bs worse (inr (xs, s, ys, e, enough, less, none_below)) = inr (
  (b, t) ∷ xs,
  s,
  ys,
  ap (λ (l : List Extent). (b, t) ∷ l) e,
  enough,
  less,
  ((λ h. let k = worse h in omega arith), none_below),
)

module _ (f : Blocks) (total needed : ℕ) where
  abbrev is_better : FreeBlockHeader → ℕ → Bool
  is_better h best_pages =
      (h.magic == free_block_magic) && leb needed h.size_in_pages && ltb h.size_in_pages best_pages

  -- One round, at a block with the header `h`.
  abbrev round : ℕ → ℕ → ℕ → ℕ → FreeBlockHeader → Option Scan
  round fuel best_off best_pages cur h =
      if is_better h best_pages && (h.size_in_pages == needed)
      then some (found cur)
      else find_best fuel f total needed (if is_better h best_pages then cur else best_off)
          (if is_better h best_pages then h.size_in_pages else best_pages) h.next_page_off

  find_best-step :
      (fuel best_off best_pages cur : ℕ) (h : FreeBlockHeader)
      → cur ≢ free_list_end
      → free_block_looks_valid (f cur) cur total ≡ true
      → f cur ≡ h
      → find_best (suc fuel) f total needed best_off best_pages cur
        ≡ round fuel best_off best_pages cur h
  unfolding find_best
  find_best-step fuel best_off best_pages cur h other valid e =
      rw (ne→== cur free_list_end other, valid) (ap (round fuel best_off best_pages cur) e)

  -- The scan ends within its fuel, with the candidate or with a best fit.
  pub find_best-Candidate :
      (fuel best_off best_pages p lo : ℕ) (bs : List Extent)
      → length bs < fuel
      → Ordered lo bs
      → end_of lo bs ≤ total
      → total ≤ free_list_end
      → IsLink total p
      → Seg f p bs free_list_end
      → (r : ℕ) × (find_best fuel f total needed best_off best_pages (first_or free_list_end bs)
          ≡ some (found r))
        × Candidate needed best_off best_pages bs r
  unfolding find_best
  find_best-Candidate zero bo bp p lo bs len ord fits small hp seg = absurd (omega arith)
  find_best-Candidate (suc fuel) bo bp p lo [] len ord fits small hp seg =
      (bo, refl, inl (refl, tt))
  find_best-Candidate (suc fuel) bo bp p lo ((b, t) ∷ bs) len ord fits small hp seg =
      let bound = end_of-ge (b + t) bs ord.2 in
      let valid = Seg-looks_valid f total p lo b t bs ord fits small hp seg in
      let step = find_best-step fuel bo bp b _ (omega arith) valid seg.0 in
      let ih = λ (o s : ℕ).
        find_best-Candidate fuel o s b (b + t) bs (omega arith) ord.2 fits small (inr (omega arith))
          seg.1 in
      elim (Bool-cases (leb needed t && ltb t bp)) [
        | inl better ↦
            let limits = better_bounds needed t bp better in
            elim (Bool-cases (t == needed)) [
              | inl exact ↦ (
                b,
                step ∙ (rw (better, exact)),
                Candidate-better needed bo bp b t b bs limits.0 limits.1 (
                    inl (
                      refl,
                      subst (λ (n : ℕ). NoneBelow needed n bs) (sym (==→eq t needed exact))
                          (NoneBelow-needed needed bs),
                    )),
              )
              | inr larger ↦
                  let (r, e, c) = ih b t in
                  (
                    r,
                    step ∙ (rw (better, larger) e),
                    Candidate-better needed bo bp b t r bs limits.0 limits.1 c,
                  )
            ]
        | inr worse ↦
            let (r, e, c) = ih bo bp in
            (
              r,
              step ∙ (rw worse e),
              Candidate-worse needed bo bp b t r bs (worse_bound needed t bp worse) c,
            )
      ]
