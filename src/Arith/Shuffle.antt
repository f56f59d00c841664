-- ===== src/Arith/Shuffle.antt =====
-- The Fisher-Yates shuffle of common.h, on the list of the array's elements.
use scudo.Common.{
  ℕ, zero, suc, ◌+◌, ◌-◌, ◌<◌, List, [], ◌∷◌, ◌++◌, ◌==◌, leb, if◌then◌else◌, length, arith, ◌≡◌,
  refl, ap, ◌∙◌, inl, inr, Bool-cases,
}
use native.Mathlib.Nat.{mod-lt}
use scudo.Arith.{random_u32, random_mod_n}

-- `A[i]` for an `i` below the length.
unfoldable pub element : List ℕ → ℕ → ℕ
element [] i = 0
element (x ∷ xs) zero = x
element (x ∷ xs) (suc i) = element xs i

-- `A[i] = v`.
unfoldable pub assign : List ℕ → ℕ → ℕ → List ℕ
assign [] i v = []
assign (x ∷ xs) zero v = v ∷ xs
assign (x ∷ xs) (suc i) v = x ∷ assign xs i v

unfoldable pub swap : List ℕ → ℕ → ℕ → List ℕ
unfolding element assign
swap xs i j = assign (assign xs j (element xs i)) i (element xs j)

-- The loop from the index down to 1.
unfoldable pub shuffle_from : ℕ → List ℕ → ℕ → List ℕ
unfolding swap random_mod_n
shuffle_from zero xs state = xs
shuffle_from (suc i) xs state =
    shuffle_from i (swap xs (suc i) (random_mod_n state (suc (suc i))).0)
      (random_mod_n state (suc (suc i))).1

unfoldable pub shuffle : List ℕ → ℕ → List ℕ
unfolding shuffle_from
shuffle xs state = if leb (length xs) 1 then xs else shuffle_from (length xs - 1) xs state

-- One if the two are the same.
unfoldable pub same : ℕ → ℕ → ℕ
same p x = if p == x then 1 else 0

-- How often `p` is in the list.
unfoldable pub occurrences : ℕ → List ℕ → ℕ
unfolding same
occurrences p [] = 0
occurrences p (x ∷ xs) = same p x + occurrences p xs

length-assign : (xs : List ℕ) → (i v : ℕ) → length (assign xs i v) ≡ length xs
unfolding assign
length-assign [] i v = refl
length-assign (x ∷ xs) zero v = refl
length-assign (x ∷ xs) (suc i) v = ap suc (length-assign xs i v)

occurrences-assign :
    (p : ℕ)
    → (xs : List ℕ) → (i v : ℕ) → i < length xs
    → occurrences p (assign xs i v) + same p (element xs i) ≡ occurrences p xs + same p v
unfolding assign element occurrences
occurrences-assign p [] i v h = absurd (omega arith)
occurrences-assign p (x ∷ xs) zero v h = omega arith
occurrences-assign p (x ∷ xs) (suc i) v h = omega (arith, occurrences-assign p xs i v (omega arith))

-- Writing `A[i]` to `A[j]` leaves `A[i]`.
element-assign : (xs : List ℕ) → (i j : ℕ) → element (assign xs j (element xs i)) i ≡ element xs i
unfolding assign element
element-assign [] i j = refl
element-assign (x ∷ xs) zero zero = refl
element-assign (x ∷ xs) zero (suc j) = refl
element-assign (x ∷ xs) (suc i) zero = refl
element-assign (x ∷ xs) (suc i) (suc j) = element-assign xs i j

occurrences-swap :
    (p : ℕ)
    → (xs : List ℕ) → (i j : ℕ) → i < length xs
    → j < length xs
    → occurrences p (swap xs i j) ≡ occurrences p xs
unfolding swap
occurrences-swap p xs i j hi hj =
    let once = occurrences-assign p xs j (element xs i) hj in
    let same_length = length-assign xs j (element xs i) in
    let twice = occurrences-assign p (assign xs j (element xs i)) i (element xs j) (omega arith) in
    let kept : same p (element (assign xs j (element xs i)) i) ≡ same p (element xs i) =
      ap (same p) (element-assign xs i j) in
    omega arith

length-swap : (xs : List ℕ) → (i j : ℕ) → length (swap xs i j) ≡ length xs
unfolding swap
length-swap xs i j =
    length-assign (assign xs j (element xs i)) i (element xs j) ∙ length-assign xs j (element xs i)

random_mod_n-lt : (state n : ℕ) → 0 < n → (random_mod_n state n).0 < n
unfolding random_mod_n
random_mod_n-lt state n h = mod-lt (random_u32 state) h

occurrences-shuffle_from :
    (p i : ℕ)
    → (xs : List ℕ) → (state : ℕ) → i < length xs
    → occurrences p (shuffle_from i xs state) ≡ occurrences p xs
unfolding shuffle_from
occurrences-shuffle_from p zero xs state h = refl
occurrences-shuffle_from p (suc i) xs state h =
    let j = (random_mod_n state (suc (suc i))).0 in
    let below = random_mod_n-lt state (suc (suc i)) (omega arith) in
    occurrences-shuffle_from p i (swap xs (suc i) j) (random_mod_n state (suc (suc i))).1
      (omega (arith, length-swap xs (suc i) j))
    ∙ occurrences-swap p xs (suc i) j h (omega arith)

-- The shuffle keeps each element as often as it was in the array, whatever the seed.
pub occurrences-shuffle :
    (p : ℕ) → (xs : List ℕ) → (state : ℕ) → occurrences p (shuffle xs state) ≡ occurrences p xs
unfolding shuffle
occurrences-shuffle p xs state = elim (Bool-cases (leb (length xs) 1)) [
  | inl small ↦ rw small
  | inr large ↦
      let below : length xs - 1 < length xs = ground arith in
      rw (large, occurrences-shuffle_from p (length xs - 1) xs state below)
]

pub occurrences-append :
    (p : ℕ) → (xs ys : List ℕ) → occurrences p (xs ++ ys) ≡ occurrences p xs + occurrences p ys
unfolding occurrences
occurrences-append p [] ys = omega arith
occurrences-append p (x ∷ xs) ys = omega (arith, occurrences-append p xs ys)
