-- ===== src/Arena/Seg/Slot.antt =====
-- The walk of `store` finds the one place where the new pages keep the list in order.
use scudo.Common.{
  ℕ, zero, suc, ◌+◌, ◌≤◌, ◌<◌, ◌≡◌, refl, ap, ◌∙◌, ◌≢◌, ◌⊎◌, inl, inr, Bool-cases, true, false,
  some, List, [], ◌∷◌, ◌++◌, arith, ltb, length, All, ne→==,
}
use scudo.Arena.State.{FreeBlockHeader, Blocks, free_list_end, free_block_magic}
use scudo.Arena.FreeList.{free_block_looks_valid, find_slot, between}
use scudo.Arena.Seg.{Extent, first_or, last_or, Seg, Ordered, end_of, end_of-ge}

-- No page of the `s` pages from `o` on is in the list.
abbrev pub Apart : ℕ → ℕ → List Extent → Type 0
Apart o s bs = All (λ b. (o + s ≤ b.0) ⊎ (b.0 + b.1 ≤ o)) bs

abbrev pub IsLink : ℕ → ℕ → Type 0
IsLink total p = (p ≡ free_list_end) ⊎ (p < total)

looks_valid_true :
    (p n s o total : ℕ)
    → 0 < s
    → o + s ≤ total
    → total ≤ free_list_end
    → IsLink total p
    → IsLink total n
    → free_block_looks_valid
        (record {
          prev_page_off = p;
          next_page_off = n;
          size_in_pages = s;
          magic = free_block_magic;
        })
        o
        total
      ≡ true
unfolding free_block_looks_valid
looks_valid_true p n s o total hs ho ht hp hn = ground arith

first_or-IsLink :
    (total lo : ℕ) (bs : List Extent)
    → Ordered lo bs
    → end_of lo bs ≤ total
    → IsLink total (first_or free_list_end bs)
first_or-IsLink total lo [] ord fits = inl refl
first_or-IsLink total lo ((o, s) ∷ bs) ord fits = inr (omega (arith, end_of-ge (o + s) bs ord.2))

-- A block of an ordered list passes the check.
pub Seg-looks_valid :
    (f : Blocks) (total p lo o s : ℕ) (bs : List Extent)
    → Ordered lo ((o, s) ∷ bs)
    → end_of lo ((o, s) ∷ bs) ≤ total
    → total ≤ free_list_end
    → IsLink total p
    → Seg f p ((o, s) ∷ bs) free_list_end
    → free_block_looks_valid (f o) o total ≡ true
Seg-looks_valid f total p lo o s bs ord fits small hp seg =
    ap (λ (r : FreeBlockHeader). free_block_looks_valid r o total) seg.0
    ∙ looks_valid_true p (first_or free_list_end bs) s o total ord.1
        (omega (arith, end_of-ge (o + s) bs ord.2)) small hp
        (first_or-IsLink total (o + s) bs ord.2 fits)

find_slot-step :
    (fuel : ℕ) (f : Blocks) (total o p n : ℕ)
    → n ≢ free_list_end
    → free_block_looks_valid (f n) n total ≡ true
    → ltb o n ≡ false
    → find_slot (suc fuel) f total o p n ≡ find_slot fuel f total o n (f n).next_page_off
unfolding find_slot
find_slot-step fuel f total o p n h v l = rw (ne→== n free_list_end h, v, l)

find_slot-stop :
    (fuel : ℕ) (f : Blocks) (total o p n : ℕ)
    → n ≢ free_list_end
    → free_block_looks_valid (f n) n total ≡ true
    → ltb o n ≡ true
    → find_slot (suc fuel) f total o p n ≡ some (between p n)
unfolding find_slot
find_slot-stop fuel f total o p n h v l = rw (ne→== n free_list_end h, v, l)

-- The list falls in two parts with room for the new extent between them.
pub record Splits (fuel : ℕ) (f : Blocks) (total p lo o s : ℕ) (bs : List Extent) : Type 0 where
  pub front : List Extent
  pub rest : List Extent
  pub whole : bs ≡ front ++ rest
  pub slot :
      find_slot fuel f total o p (first_or free_list_end bs)
      ≡ some (between (last_or p front) (first_or free_list_end rest))
  pub ordered : Ordered lo (front ++ (o, s) ∷ rest)

pub find_slot-Splits :
    (fuel : ℕ) (f : Blocks) (total p lo o s : ℕ) (bs : List Extent)
    → length bs < fuel
    → Ordered lo bs
    → end_of lo bs ≤ total
    → total ≤ free_list_end
    → Apart o s bs
    → lo ≤ o
    → 0 < s
    → IsLink total p
    → Seg f p bs free_list_end
    → Splits fuel f total p lo o s bs
unfolding find_slot
find_slot-Splits zero f total p lo o s bs len ord fits small apart ho hs hp seg =
    absurd (omega arith)
find_slot-Splits (suc fuel) f total p lo o s [] len ord fits small apart ho hs hp seg = record {
  front = [];
  rest = [];
  whole = refl;
  slot = refl;
  ordered = (ho, hs, tt);
}
find_slot-Splits (suc fuel) f total p lo o s ((b, t) ∷ bs) len ord fits small apart ho hs hp seg =
    let bound = end_of-ge (b + t) bs ord.2 in
    let valid = Seg-looks_valid f total p lo b t bs ord fits small hp seg in
    let other : b ≢ free_list_end = omega arith in
    elim (Bool-cases (ltb o b)) [
      | inl stop ↦ record {
        front = [];
        rest = (b, t) ∷ bs;
        whole = refl;
        slot = find_slot-stop fuel f total o p b other valid stop;
        ordered = (ho, hs, (ground arith, ord.1, ord.2));
      }
      | inr go ↦
          let behind : b + t ≤ o = ground arith in
          let ih =
            find_slot-Splits fuel f total b (b + t) o s bs (omega arith) ord.2 fits small apart.1
              behind hs (inr (omega arith)) seg.1 in
          record {
            front = (b, t) ∷ ih.front;
            rest = ih.rest;
            whole = ap (λ (r : List Extent). (b, t) ∷ r) ih.whole;
            slot =
                find_slot-step fuel f total o p b other valid go
                ∙ ap (λ (r : FreeBlockHeader). find_slot fuel f total o b r.next_page_off) seg.0
                ∙ ih.slot;
            ordered = (ord.0, ord.1, ih.ordered);
          }
    ]
