-- ===== src/Arena/Safety/Extents.antt =====
-- Lists of extents by the pages that they cover: what is apart, disjoint, taken and given back.
use scudo.Common.{
  ℕ, ◌+◌, ◌≤◌, ◌<◌, ◌≡◌, ap, ◌∙◌, ◌⊎◌, inl, inr, true, false, ◌||◌, ◌&&◌, List, [], ◌∷◌, ◌++◌,
  arith, ltb, leb, All,
}
use native.Mathlib.Decide.{dec_le}
use scudo.Arena.Seg.{Extent, Ordered, covers, pages, covers-append}
use scudo.Arena.Seg.Slot.{Apart}

-- No page is in two of the extents.
abbrev pub Disjoint : List Extent → Type 0
Disjoint [] = Unit {0}
Disjoint ((o, n) ∷ os) = ((q : ℕ) → o ≤ q → q < o + n → covers q os ≡ false) × Disjoint os

pub Apart-covers :
    (o n lo : ℕ) (bs : List Extent)
    → 0 < n
    → Ordered lo bs
    → ((q : ℕ) → o ≤ q → q < o + n → covers q bs ≡ false)
    → Apart o n bs
Apart-covers o n lo [] pos ord free = tt
Apart-covers o n lo ((b, s) ∷ bs) pos ord free = (
  elim (dec_le (o + n) b) [
    | yes below ↦ inl below
    | no ends ↦ elim (dec_le (b + s) o) [
      | yes above ↦ inr above
      | no starts ↦ absurd (elim (dec_le o b) [
        | yes l ↦ ground (arith, free b l (omega arith))
        | no less ↦ ground (arith, free o (omega arith) (omega arith))
      ])
    ]
  ],
  Apart-covers o n (b + s) bs pos ord.2 (λ q l u. ground (arith, free q)),
)

pub covers_in :
    (q o n : ℕ) (xs ys : List Extent) → o ≤ q → q < o + n → covers q (xs ++ (o, n) ∷ ys) ≡ true
covers_in q o n xs ys l u = ground (arith, covers-append q xs ((o, n) ∷ ys))

pub covers_more :
    (q o n : ℕ) (xs ys : List Extent)
    → covers q (xs ++ ys) ≡ true
    → covers q (xs ++ (o, n) ∷ ys) ≡ true
covers_more q o n xs ys h = ground (arith, covers-append q xs ys, covers-append q xs ((o, n) ∷ ys))

pub Disjoint-remove :
    (xs ys : List Extent) (o n : ℕ)
    → Disjoint (xs ++ (o, n) ∷ ys)
    → Disjoint (xs ++ ys) × ((q : ℕ) → o ≤ q → q < o + n → covers q (xs ++ ys) ≡ false)
Disjoint-remove [] ys o n d = (d.1, d.0)
Disjoint-remove ((p, m) ∷ xs) ys o n d =
    let ih = Disjoint-remove xs ys o n d.1 in
    (
      (
        λ q l u. ground (arith, d.0 q, covers-append q xs ((o, n) ∷ ys), covers-append q xs ys),
        ih.0,
      ),
      λ q l u. ground (arith, d.0 q, ih.1 q, covers-append q xs ((o, n) ∷ ys)),
    )

pub All-remove :
    (P : Extent → Type 0) (xs ys : List Extent) (e : Extent)
    → All P (xs ++ e ∷ ys)
    → P e × All P (xs ++ ys)
All-remove P [] ys e h = (h.0, h.1)
All-remove P (x ∷ xs) ys e h = let ih = All-remove P xs ys e h.1 in (ih.0, (h.0, ih.1))

pub All-mono :
    (P Q : Extent → Type 0) → ((e : Extent) → P e → Q e) → (xs : List Extent) → All P xs → All Q xs
All-mono P Q f [] h = tt
All-mono P Q f (x ∷ xs) h = (f x h.0, All-mono P Q f xs h.1)

covers_below :
    (top q : ℕ) (os : List Extent)
    → All (λ e. (0 < e.1) × (e.0 + e.1 ≤ top)) os
    → covers q os ≡ true
    → q < top
covers_below top q [] h e = ground arith
covers_below top q ((o, n) ∷ os) h e = ground (arith, covers_below top q os h.1)

-- Pages that come out of the free list, or from behind the bump pointer.
abbrev pub Source : List Extent → List Extent → ℕ → ℕ → ℕ → ℕ → Type 0
Source bs extents old new o n =
    ((new ≡ old)
      × ((q : ℕ) → covers q bs ≡ (covers q extents || (leb o q && ltb q (o + n))))
      × (pages bs ≡ pages extents + n))
    ⊎ ((o ≡ old) × (new ≡ old + n) × (extents ≡ bs) × All (λ e. e.1 < n) bs)

-- They are not held by anyone, and what was held is still not free.
pub taken-held :
    (bs extents os : List Extent) (old new o n : ℕ)
    → Source bs extents old new o n
    → All (λ e. (0 < e.1) × (e.0 + e.1 ≤ old)) os
    → ((q : ℕ) → covers q os ≡ true → covers q bs ≡ false)
    → (old ≤ new)
      × ((q : ℕ) → o ≤ q → q < o + n → covers q os ≡ false)
      × ((q : ℕ) → covers q os ≡ true → covers q extents ≡ false)
taken-held bs extents os old new o n (inl (e, free, _)) in_bump not_free = (
  omega (arith, e),
  (λ q l u. ground (arith, not_free q, free q)),
  λ q h. ground (arith, not_free q, free q),
)
taken-held bs extents os old new o n (inr (e, e', same, _)) in_bump not_free = (
  omega (arith, e'),
  (λ q l u. ground (arith, covers_below old q os in_bump)),
  λ q h. ap (covers q) same ∙ not_free q h,
)
