-- ===== src/Release/Context/Blocks.antt =====
-- How many blocks touch a page, against what the context and the constructor's case analysis expect.
use scudo.Common.{
  ℕ, suc, ◌+◌, ◌-◌, ◌*◌, ◌/◌, ◌%◌, ◌^◌, ◌≤◌, ◌<◌, ◌≡◌, ◌≢◌, sym, ap, ◌∙◌, subst, inl, inr, true,
  Bool-cases, ◌==◌, ==→eq, ==→ne, leb, leb→le, add_uptr, arith, bit_and, sub_uptr,
}
use native.Mathlib.Decide.{dec_lt}
use native.Mathlib.Nat.{
  div-eq_of_lt-le, mod-lt, div-le_self, div-lt_iff_lt-mul, div-mul-le_self, le-div_iff_mul-le,
  mul-add, mod-add-div',
}
use scudo.Common.Bits.{bit_and-low_mask, pow_pos}
use scudo.Release.Context.{block_counts}

-- The block of the first byte of page `j`, and that of its last byte, where blocks follow one another
-- from the start of the region.
abbrev pub first_block : ℕ → ℕ → ℕ → ℕ
first_block page block j = j * page / block

abbrev pub last_block : ℕ → ℕ → ℕ → ℕ
last_block page block j = (suc j * page - 1) / block

-- The number of blocks that have a byte in page `j`.
abbrev pub touching : ℕ → ℕ → ℕ → ℕ
touching page block j = suc (last_block page block j) - first_block page block j

factor : (q r m : ℕ) → q * (r * m) + r ≡ r * (q * m + 1)
factor q r m = rw (mul-add r (q * m) 1) (grind arith)

swap_factors : (j r n : ℕ) → j * (r * n) ≡ r * (j * n)
swap_factors j r n = grind arith

expand : (r k m s : ℕ) → r * (k * m + s) ≡ k * (r * m) + r * s
expand r k m s = rw (mul-add r (k * m) s) (grind arith)

one_more : (r s m : ℕ) → s < m → r * s + r ≤ r * m
one_more r s m h = grind arith

-- A page of `q` blocks and a rest that divides the block: no page has the rest twice.
touching_even :
    (page block q r m j : ℕ)
    → page ≡ q * block + r
    → block ≡ r * m
    → 1 ≤ r
    → 1 ≤ m
    → touching page block j ≡ q + 1
touching_even page block q r m j e d pr pm =
    let n = j * (q * m + 1) in
    let k = n / m in
    let s = n % m in
    let less : s < m = mod-lt n pm in
    let split : n ≡ k * m + s = omega arith in
    let whole : page ≡ r * (q * m + 1) = e ∙ ap (λ (t : ℕ). q * t + r) d ∙ factor q r m in
    let place : j * page ≡ k * block + r * s =
      ap (λ (t : ℕ). j * t) whole
      ∙ swap_factors j r (q * m + 1)
      ∙ ap (λ (t : ℕ). r * t) split
      ∙ expand r k m s
      ∙ ap (λ (t : ℕ). k * t + r * s) (sym d) in
    let rest : r * s + r ≤ block = subst (λ (t : ℕ). r * s + r ≤ t) (sym d) (one_more r s m less) in
    let sum : (k + q) * block ≡ k * block + q * block = grind arith in
    let first : first_block page block j ≡ k =
      div-eq_of_lt-le block (omega (arith, place)) (omega (arith, place, rest, pr)) in
    let last : last_block page block j ≡ k + q =
      div-eq_of_lt-le block (omega (arith, place, sum, pr, e))
        (omega (arith, place, sum, rest, pr, e)) in
    omega (arith, first, last)

-- At most two blocks more than fit touch a page.
touching-le :
    (page block q r j : ℕ)
    → page ≡ q * block + r
    → r < block
    → 1 ≤ r
    → touching page block j ≤ q + 2
touching-le page block q r j e less pr =
    let k = j * page / block in
    let s = j * page % block in
    let split : j * page ≡ k * block + s = omega arith in
    let rest : s < block = omega arith in
    let sum : (k + q + 2) * block ≡ k * block + q * block + block + block = grind arith in
    let pos : 0 < block = omega arith in
    let last : last_block page block j < k + q + 2 =
      (div-lt_iff_lt-mul pos).1 (omega (arith, split, sum, rest, e, less)) in
    omega (arith, last)

module _ (p block : ℕ) (pos : 1 ≤ block) (fits : 2 ^ p + 2 < 2 ^ 64) where
  abbrev page : ℕ
  page = 2 ^ p

  q : ℕ
  q = page / block

  r : ℕ
  r = page % block

  split : page ≡ q * block + r
  unfolding q r
  split = omega arith

  r-lt : r < block
  unfolding r
  r-lt = mod-lt page pos

  q-le : q ≤ page
  unfolding q
  q-le = div-le_self page block

  -- Blocks that fill a page.
  filled : r ≡ 0 → block ≤ page → (j : ℕ) → touching page block j ≡ q
  filled none small j =
      let one : 1 ≤ q = elim (dec_lt 0 q) [
        | yes h ↦ h
        | no h ↦
            let e : q ≡ 0 = omega arith in
            absurd (omega (arith, split, ap (λ (t : ℕ). t * block) e, none, pos))
      ] in
      let before : q ≡ suc (q - 1) = omega (arith, one) in
      let cut : page ≡ (q - 1) * block + block =
        omega (arith, split, none, ap (λ (t : ℕ). t * block) before) in
      omega
        (arith, touching_even page block (q - 1) block 1 j cut (omega arith) pos (omega arith), one)

  -- A rest that divides the block.
  divides : (n d : ℕ) → 1 ≤ n → n % d ≡ 0 → (n ≡ d * (n / d)) × (1 ≤ n / d)
  divides n d pn e =
      let whole : n ≡ d * (n / d) = grind (arith, mod-add-div' n d) in
      (
        whole,
        elim (dec_lt 0 (n / d)) [
          | yes h ↦ h
          | no h ↦
              let z : n / d ≡ 0 = omega arith in
              absurd (omega (arith, pn, whole, ap (λ (t : ℕ). d * t) z))
        ],
      )

  straddled : r ≢ 0 → block % r ≡ 0 → (j : ℕ) → touching page block j ≡ q + 1
  straddled some e j =
      let d = divides block r pos e in
      touching_even page block q r (block / r) j split d.0 (omega (arith, some)) d.1

  spanned : block % page ≡ 0 → (j : ℕ) → touching page block j ≡ 1
  spanned e j =
      let d = divides block page pos e in
      touching_even page block 0 page (block / page) j (omega arith) d.0 (pow_pos p) d.1

  -- For a page size that is a power of two and at most 2^64 less 3, and blocks of at least one
  -- byte: the number of blocks that have a byte in a page is at most FullPagesBlockCountMax,
  -- and equal to it on every page where SameBlockCountPerPage says so.
  pub block_counts-Exact :
      (j : ℕ)
      → ((block_counts page block).1 ≡ true → touching page block j ≡ (block_counts page block).0)
        × (touching page block j ≤ (block_counts page block).0)
  unfolding block_counts q r
  block_counts-Exact j = elim (Bool-cases (leb block page)) [
    | inl small ↦ elim (Bool-cases (page % block == 0)) [
      | inl t ↦
          let k = filled (==→eq (page % block) 0 t) (leb→le block page small) j in
          rw (small, t) ((λ _. k), omega (arith, k))
      | inr f ↦ elim (Bool-cases (block % (page % block) == 0)) [
        | inl t ↦
            let k = straddled (==→ne (page % block) 0 f) (==→eq (block % (page % block)) 0 t) j in
            let sum : add_uptr q 1 ≡ q + 1 = omega (arith, q-le, fits) in
            rw (small, f, t) ((λ _. k ∙ sym sum), omega (arith, k, sum))
        | inr g ↦
            let k =
              touching-le page block q r j split r-lt (omega (arith, ==→ne (page % block) 0 f)) in
            let sum : add_uptr q 2 ≡ q + 2 = omega (arith, q-le, fits) in
            rw (small, f, g) ((λ h. cc), omega (arith, k, sum))
      ]
    ]
    | inr large ↦ elim (Bool-cases (bit_and block (sub_uptr page 1) == 0)) [
      | inl t ↦
          let mask : sub_uptr page 1 ≡ page - 1 = omega (arith, pow_pos p, fits) in
          let e : block % page ≡ 0 =
            sym (ap (λ (t : ℕ). bit_and block t) mask ∙ bit_and-low_mask p block)
            ∙ ==→eq (bit_and block (sub_uptr page 1)) 0 t in
          let k = spanned e j in rw (large, t) ((λ _. k), omega (arith, k))
      | inr f ↦
          let less : page < block = ground arith in
          let k = touching-le page block 0 page j (omega arith) less (pow_pos p) in
          rw (large, f) ((λ h. cc), k)
    ]
  ]

  pub block_counts-lt : (block_counts page block).0 < 2 ^ 64
  unfolding block_counts q
  block_counts-lt = ground (arith, q-le, fits, pow_pos p)

  pub touching-pos : (j : ℕ) → 1 ≤ touching page block j
  touching-pos j =
      let below = div-mul-le_self (j * page) block in
      let place : suc j * page ≡ j * page + page = omega arith in
      let order : first_block page block j ≤ last_block page block j =
        (le-div_iff_mul-le pos).1 (omega (arith, below, place, pow_pos p)) in
      omega (arith, order)
