-- ===== src/Release/Context/Held.antt =====
-- How many blocks of a run of blocks are in a free list, which gives each block by its offset.
use scudo.Common.{
  ℕ, zero, suc, ◌+◌, ◌*◌, ◌≤◌, ◌<◌, ◌≡◌, ◌≢◌, refl, sym, ap, inl, inr, Bool-cases, ◌==◌, ==→eq,
  ==→ne, leb, ltb, ◌&&◌, List, [], ◌∷◌, arith, if◌then◌else◌,
}
use native.Mathlib.Decide.{dec_lt}
use scudo.Secondary.Lru.{occ}

-- Of the `n` blocks from block `a` on, those in the list, as often as they are in it.
abbrev pub held : ℕ → ℕ → ℕ → List ℕ → ℕ
held block a zero ps = 0
held block a (suc n) ps = occ (a * block) ps + held block (suc a) n ps

-- 1 in a range and 0 outside it.
abbrev pub among : ℕ → ℕ → ℕ → ℕ
among a b k = if leb a k && ltb k b then 1 else 0

pub held-empty : (block a n : ℕ) → held block a n [] ≡ 0
held-empty block a zero = refl
held-empty block a (suc n) = omega (arith, held-empty block (suc a) n)

same_block : (block a k : ℕ) → 1 ≤ block → a * block ≡ k * block → a ≡ k
same_block block a k pos e = elim (dec_lt a k) [
  | yes h ↦ absurd (differ a k h e)
  | no h ↦ elim (dec_lt k a) [ yes g ↦ absurd (differ k a g (sym e)) | no g ↦ omega arith ]
]
  where
    differ : (x y : ℕ) → x < y → x * block ≢ y * block
    differ x y h e =
        let more : suc x * block ≤ y * block = grind arith in omega (arith, more, e, pos)

pub held-cons :
    (block a n k : ℕ) (ps : List ℕ)
    → 1 ≤ block
    → held block a n (k * block ∷ ps) ≡ held block a n ps + among a (a + n) k
held-cons block a zero k ps pos = ground arith
held-cons block a (suc n) k ps pos = elim (Bool-cases (a * block == k * block)) [
  | inl t ↦
      let e = same_block block a k pos (==→eq (a * block) (k * block) t) in
      rw t (ground (arith, held-cons block (suc a) n k ps pos, e))
  | inr f ↦
      let ne : a ≢ k =
        λ (e : a ≡ k). ==→ne (a * block) (k * block) f (ap (λ (t : ℕ). t * block) e) in
      rw f (ground (arith, held-cons block (suc a) n k ps pos, ne))
]

module _ (block : ℕ) (ps : List ℕ) (once : (p : ℕ) → occ p ps ≤ 1) where
  pub held-le : (a n : ℕ) → held block a n ps ≤ n
  held-le a zero = omega arith
  held-le a (suc n) = omega (arith, once (a * block), held-le (suc a) n)

  -- All of them are in the list only when each is.
  pub held-all : (n a k : ℕ) → held block a n ps ≡ n → a ≤ k → k < a + n → occ (k * block) ps ≡ 1
  held-all zero a k h low high = absurd (omega arith)
  held-all (suc n) a k h low high = elim (dec_lt a k) [
    | yes more ↦
        held-all n (suc a) k (omega (arith, h, once (a * block), held-le (suc a) n)) (omega arith)
          (omega arith)
    | no at ↦
        let e : k ≡ a = omega arith in rw e (omega (arith, h, once (a * block), held-le (suc a) n))
  ]

pub all-held :
    (block : ℕ) (ps : List ℕ) (n a : ℕ)
    → ((k : ℕ) → a ≤ k → k < a + n → occ (k * block) ps ≡ 1)
    → held block a n ps ≡ n
all-held block ps zero a h = refl
all-held block ps (suc n) a h = omega (
  arith,
  h a (omega arith) (omega arith),
  all-held block ps n (suc a) (λ k low high. h k (omega arith) (omega (arith, high))),
)
