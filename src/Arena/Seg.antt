-- ===== src/Arena/Seg.antt =====
-- What a free list stands for: the extents (first page, pages) of its blocks, in order. `Seg` says
-- that the headers in memory link exactly these blocks.
pub mod Links
pub mod Insert
pub mod Absorb
pub mod Slot
pub mod Merge
pub mod Remove
pub mod Restore
pub mod Best
use scudo.Common.{
  ℕ, suc, ◌+◌, ◌≤◌, ◌<◌, ◌≡◌, refl, ap, ◌↔◌, ◌⊎◌, inl, inr, Bool, false, ◌&&◌, ◌||◌, List, [], ◌∷◌,
  ◌++◌, arith, ltb, leb,
}
use scudo.Arena.State.{Blocks, free_block_magic}

abbrev pub Extent : Type 0
Extent = ℕ × ℕ

abbrev pub first_or : ℕ → List Extent → ℕ
first_or n [] = n
first_or n ((o, s) ∷ bs) = o

abbrev pub last_or : ℕ → List Extent → ℕ
last_or p [] = p
last_or p ((o, s) ∷ bs) = last_or o bs

-- From a block with predecessor `p` the headers link the extents, and the last one leads to `n`.
abbrev pub Seg : Blocks → ℕ → List Extent → ℕ → Type 0
Seg f p [] n = Unit {0}
Seg f p ((o, s) ∷ bs) n =
    (f o ≡ record {
      prev_page_off = p;
      next_page_off = first_or n bs;
      size_in_pages = s;
      magic = free_block_magic;
    })
    × Seg f o bs n

-- Not empty, in order and without overlap, from page `lo` on.
abbrev pub Ordered : ℕ → List Extent → Type 0
Ordered lo [] = Unit {0}
Ordered lo ((o, s) ∷ bs) = (lo ≤ o) × (0 < s) × Ordered (o + s) bs

-- The page behind the last extent.
abbrev pub end_of : ℕ → List Extent → ℕ
end_of lo [] = lo
end_of lo ((o, s) ∷ bs) = end_of (o + s) bs

-- No two neighbours touch.
abbrev pub Coalesced : ℕ → List Extent → Type 0
Coalesced lo [] = Unit {0}
Coalesced lo ((o, s) ∷ bs) = (lo ≤ o) × Coalesced (suc (o + s)) bs

-- Page `q` lies in one of the extents.
abbrev pub covers : ℕ → List Extent → Bool
covers q [] = false
covers q ((o, s) ∷ bs) = (leb o q && ltb q (o + s)) || covers q bs

abbrev pub pages : List Extent → ℕ
pages [] = 0
pages ((o, s) ∷ bs) = s + pages bs

pub first_or-append :
    (n : ℕ) (xs ys : List Extent) → first_or n (xs ++ ys) ≡ first_or (first_or n ys) xs
first_or-append n [] ys = refl
first_or-append n ((o, s) ∷ xs) ys = refl

pub last_or-append :
    (p : ℕ) (xs ys : List Extent) → last_or p (xs ++ ys) ≡ last_or (last_or p xs) ys
last_or-append p [] ys = refl
last_or-append p ((o, s) ∷ xs) ys = last_or-append o xs ys

pub end_of-append : (lo : ℕ) (xs ys : List Extent) → end_of lo (xs ++ ys) ≡ end_of (end_of lo xs) ys
end_of-append lo [] ys = refl
end_of-append lo ((o, s) ∷ xs) ys = end_of-append (o + s) xs ys

pub covers-append :
    (q : ℕ) (xs ys : List Extent) → covers q (xs ++ ys) ≡ (covers q xs || covers q ys)
covers-append q [] ys = refl
covers-append q ((o, s) ∷ xs) ys = ground (arith, covers-append q xs ys)

pub pages-append : (xs ys : List Extent) → pages (xs ++ ys) ≡ pages xs + pages ys
pages-append [] ys = omega arith
pages-append ((o, s) ∷ xs) ys = omega (arith, pages-append xs ys)

pub Seg-append :
    (f : Blocks) (p n : ℕ) (xs ys : List Extent)
    → Seg f p (xs ++ ys) n ↔ (Seg f p xs (first_or n ys) × Seg f (last_or p xs) ys n)
Seg-append f p n [] ys = (λ h. (tt, h), λ h. h.1)
Seg-append f p n ((o, s) ∷ xs) ys =
    let ih = Seg-append f o n xs ys in
    rw (first_or-append n xs ys)
      (λ h. ((h.0, (ih.0 h.1).0), (ih.0 h.1).1), λ h. (h.0.0, ih.1 (h.0.1, h.1)))

pub Ordered-append :
    (lo : ℕ) (xs ys : List Extent)
    → Ordered lo (xs ++ ys) ↔ (Ordered lo xs × Ordered (end_of lo xs) ys)
Ordered-append lo [] ys = (λ h. (tt, h), λ h. h.1)
Ordered-append lo ((o, s) ∷ xs) ys =
    let ih = Ordered-append (o + s) xs ys in
    (λ h. ((h.0, h.1, (ih.0 h.2).0), (ih.0 h.2).1), λ h. (h.0.0, h.0.1, ih.1 (h.0.2, h.1)))

pub end_of-ge : (lo : ℕ) (bs : List Extent) → Ordered lo bs → lo ≤ end_of lo bs
end_of-ge lo [] h = omega arith
end_of-ge lo ((o, s) ∷ bs) h = omega (arith, end_of-ge (o + s) bs h.2)

-- A segment survives what happens outside its range.
pub Seg-frame :
    (f g : Blocks) (p n lo : ℕ) (bs : List Extent)
    → Ordered lo bs
    → ((q : ℕ) → lo ≤ q → q < end_of lo bs → g q ≡ f q)
    → Seg f p bs n
    → Seg g p bs n
Seg-frame f g p n lo [] h same s = tt
Seg-frame f g p n lo ((o, t) ∷ bs) h same s =
    let bound = end_of-ge (o + t) bs h.2 in
    (ground (arith, same o), Seg-frame f g o n (o + t) bs h.2 (λ q l u. same q (omega arith) u) s.1)

-- What `Coalesced` asks of the page behind `xs`.
abbrev pub gap_of : ℕ → List Extent → ℕ
gap_of lo [] = lo
gap_of lo ((o, s) ∷ bs) = gap_of (suc (o + s)) bs

pub gap_of-append : (lo : ℕ) (xs ys : List Extent) → gap_of lo (xs ++ ys) ≡ gap_of (gap_of lo xs) ys
gap_of-append lo [] ys = refl
gap_of-append lo ((o, s) ∷ xs) ys = gap_of-append (suc (o + s)) xs ys

pub Coalesced-append :
    (lo : ℕ) (xs ys : List Extent)
    → Coalesced lo (xs ++ ys) ↔ (Coalesced lo xs × Coalesced (gap_of lo xs) ys)
Coalesced-append lo [] ys = (λ h. (tt, h), λ h. h.1)
Coalesced-append lo ((o, s) ∷ xs) ys =
    let ih = Coalesced-append (suc (o + s)) xs ys in
    (λ h. ((h.0, (ih.0 h.1).0), (ih.0 h.1).1), λ h. (h.0.0, ih.1 (h.0.1, h.1)))

-- Two lists of extents hold the same pages.
abbrev pub SamePages : List Extent → List Extent → Type 0
SamePages xs ys = ((q : ℕ) → covers q ys ≡ covers q xs) × (pages ys ≡ pages xs)

pub SamePages-join :
    (xs ys : List Extent) (a s b t : ℕ)
    → a + s ≡ b
    → SamePages (xs ++ (a, s) ∷ (b, t) ∷ ys) (xs ++ (a, s + t) ∷ ys)
SamePages-join [] ys a s b t e = (λ q. ground arith, omega arith)
SamePages-join ((o, u) ∷ xs) ys a s b t e =
    let ih = SamePages-join xs ys a s b t e in (λ q. ground (arith, ih.0 q), omega (arith, ih.1))

pub Snoc-cases :
    (xs : List Extent) → (xs ≡ []) ⊎ ((zs : List Extent) × (b : Extent) × (xs ≡ zs ++ b ∷ []))
Snoc-cases [] = inl refl
Snoc-cases (x ∷ xs) = elim (Snoc-cases xs) [
  | inl e ↦ inr ([], x, ap (λ (r : List Extent). x ∷ r) e)
  | inr (zs, b, e) ↦ inr (x ∷ zs, b, ap (λ (r : List Extent). x ∷ r) e)
]
