-- ===== src/Release/Scan/Boundaries.antt =====
-- The slow path of releaseFreeMemoryToOS counts the blocks that touch each page.
use scudo.Common.{
  ℕ, zero, suc, ◌+◌, ◌-◌, ◌*◌, ◌/◌, ◌%◌, ◌^◌, ◌≤◌, ◌<◌, ◌≡◌, refl, sym, ap, ◌∙◌, Bool, true, false,
  ltb, lt→ltb, ge→ltb, ◌⊎◌, arith, add_uptr, if◌then◌else◌,
}
use native.Mathlib.Decide.{dec_lt}
use native.Mathlib.Nat.{div-eq_of_lt-le, mod-lt}
use scudo.Release.Context.Blocks.{first_block, last_block, touching}
use scudo.Release.Scan.{Bounds, blocks_in_page, next_page}

-- The bounds in front of page `j`, with `c` the first block that starts at it or behind it.
pub record Before (page block j c : ℕ) (b : Bounds) : Type 0 where
  pub prev : b.prev_page_boundary ≡ j * page
  pub current : b.current_boundary ≡ c * block
  pub low : j * page ≤ c * block
  pub high : c * block < j * page + block

positive : (d block : ℕ) → 1 ≤ d * block → 1 ≤ d
positive zero block h = absurd (omega arith)
positive (suc d) block h = omega arith

factor_order : (c d b : ℕ) → c * b < d * b + b → c ≤ d
factor_order c d b h = grind arith

count_split :
    (t c n : ℕ) (x y z : Bool)
    → t + c ≡ (if x then (if y then c + n + 1 else c + n) else c) + (if z then 1 else 0)
    → (x ≡ false → (n ≡ 1) × (z ≡ true))
    → t ≡ (if x then n + (if z then 1 else 0) + (if y then 1 else 0) else n)
count_split t c n true true z e h = omega arith
count_split t c n true false z e h = omega arith
count_split t c n false y true e h = omega (arith, (h refl).0)
count_split t c n false y false e h = cc (h refl).1

boundary_split :
    (c n block w v : ℕ) (x y : Bool)
    → w ≡ c * block + n * block
    → v ≡ w + block
    → (if x then (if y then v else w) else c * block)
      ≡ (if x then (if y then c + n + 1 else c + n) else c) * block
boundary_split c n block w v true true e f = grind arith
boundary_split c n block w v true false e f = grind arith
boundary_split c n block w v false y e f = refl

add_bits :
    (n : ℕ) (x y : Bool)
    → n + 2 < 2 ^ 64
    → add_uptr (add_uptr n (if x then 1 else 0)) (if y then 1 else 0)
      ≡ n + (if x then 1 else 0) + (if y then 1 else 0)
add_bits n true true h = omega arith
add_bits n true false h = omega arith
add_bits n false true h = omega arith
add_bits n false false h = omega arith

module _ (page block : ℕ) (pp : 1 ≤ page) (pb : 1 ≤ block) where
  -- The number of blocks that touch a page, from the blocks in front of it and of the next one.
  touching-ceil :
      (j c d : ℕ)
      → j * page ≤ c * block
      → c * block < j * page + block
      → suc j * page ≤ d * block
      → d * block < suc j * page + block
      → touching page block j + c ≡ d + (if ltb (j * page) (c * block) then 1 else 0)
  touching-ceil j c d low high low' high' =
      let place : suc j * page ≡ j * page + page = omega arith in
      let some : 1 ≤ d = positive d block (omega (arith, place, low')) in
      let e : d ≡ suc (d - 1) = omega (arith, some) in
      let e' : d * block ≡ (d - 1) * block + block = omega (arith, ap (λ (t : ℕ). t * block) e) in
      let last : last_block page block j ≡ d - 1 =
        div-eq_of_lt-le block (omega (arith, place, e', high')) (omega (arith, place, e', low')) in
      elim (dec_lt (j * page) (c * block)) [
        | yes inside ↦
            let more : 1 ≤ c = positive c block (omega arith) in
            let f : c ≡ suc (c - 1) = omega (arith, more) in
            let f' : c * block ≡ (c - 1) * block + block =
              omega (arith, ap (λ (t : ℕ). t * block) f) in
            let first : first_block page block j ≡ c - 1 =
              div-eq_of_lt-le block (omega (arith, f')) (omega (arith, f')) in
            rw (lt→ltb (j * page) (c * block) inside)
              (omega (arith, first, last, some, more, order))
        | no at ↦
            let first : first_block page block j ≡ c =
              div-eq_of_lt-le block (omega arith) (omega arith) in
            rw (ge→ltb (j * page) (c * block) (omega arith))
              (omega (arith, first, last, some, order))
      ]
    where
      order : c ≤ d
      order = factor_order c d block (omega (arith, low', high, pp))

  blocks_in_page_bounds :
      let n = blocks_in_page page block in
      (page < n * block + block) × ((n * block ≤ page) ⊎ (n ≡ 1))
  unfolding blocks_in_page
  blocks_in_page_bounds =
      let split : page ≡ page / block * block + page % block = omega arith in
      ground (arith, split, mod-lt page pb)

  blocks_in_page-one : page ≤ block → blocks_in_page page block ≡ 1
  unfolding blocks_in_page
  blocks_in_page-one h = ground arith

  blocks_in_page-wide : blocks_in_page page block * block ≤ page + block
  blocks_in_page-wide = ground (arith, blocks_in_page_bounds)

  blocks_in_page-few : blocks_in_page page block ≤ blocks_in_page page block * block
  blocks_in_page-few = grind arith

  -- How many blocks start in the page.
  started :
      (j c : ℕ)
      → j * page ≤ c * block
      → c * block < j * page + block
      → let n = blocks_in_page page block in
        let past = c * block + n * block in
        let d =
          if ltb (c * block) (suc j * page)
          then (if ltb past (suc j * page) then c + n + 1 else c + n)
          else c in
        (suc j * page ≤ d * block) × (d * block < suc j * page + block)
  started j c low high =
      let n = blocks_in_page page block in
      let place : suc j * page ≡ j * page + page = omega arith in
      let one : (c + n) * block ≡ c * block + n * block = grind arith in
      let more : (c + n + 1) * block ≡ c * block + n * block + block = grind arith in
      let room : (page < n * block + block) × ((n * block ≤ page) ⊎ (n ≡ 1)) =
        blocks_in_page_bounds in
      ground (arith, place, one, more, room)

  -- The first block that starts at the end of page `j` or behind it.
  abbrev pub after : ℕ → ℕ → ℕ
  after j c =
      let n = blocks_in_page page block in
      if ltb (c * block) (suc j * page)
      then (if ltb (c * block + n * block) (suc j * page) then c + n + 1 else c + n)
      else c

  counted :
      (j c : ℕ)
      → j * page ≤ c * block
      → c * block < j * page + block
      → let n = blocks_in_page page block in
        touching page block j ≡ (
          if ltb (c * block) (suc j * page)
          then n
            + (if ltb (j * page) (c * block) then 1 else 0)
            + (if ltb (c * block + n * block) (suc j * page) then 1 else 0)
          else n)
  counted j c low high =
      let s = started j c low high in
      let place : suc j * page ≡ j * page + page = omega arith in
      let t = touching-ceil j c (after j c) low high s.0 s.1 in
      count_split (touching page block j) c (blocks_in_page page block)
        (ltb (c * block) (suc j * page))
        (ltb (c * block + blocks_in_page page block * block) (suc j * page))
        (ltb (j * page) (c * block)) t
        (λ x.
          let behind : suc j * page ≤ c * block = ground arith in
          (
            blocks_in_page-one (omega (arith, place, high)),
            lt→ltb (j * page) (c * block) (omega (arith, place, pp)),
          ))

  -- One page of the slow path.
  step :
      (j c p q : ℕ)
      → p ≡ j * page
      → q ≡ c * block
      → j * page ≤ c * block
      → c * block < j * page + block
      → suc j * page + 4 * block + page < 2 ^ 64
      → let r = next_page page block (record { prev_page_boundary = p; current_boundary = q }) in
        (r.0 ≡ touching page block j) × Before page block (suc j) (after j c) r.1
  unfolding next_page
  step j c p q ep eq low high fits =
      let n = blocks_in_page page block in
      let place : suc j * page ≡ j * page + page = omega arith in
      let wide : n * block ≤ page + block = blocks_in_page-wide in
      let boundary : add_uptr p page ≡ suc j * page = omega (arith, fits) in
      let past : add_uptr q (n * block % 2 ^ 64) ≡ c * block + n * block = omega (arith, fits) in
      let few : n + 2 < 2 ^ 64 = omega (arith, fits, wide, blocks_in_page-few) in
      let x = ltb (c * block) (suc j * page) in
      let y = ltb (c * block + n * block) (suc j * page) in
      let z = ltb (j * page) (c * block) in
      let s = started j c low high in
      rw (boundary, past, ep, eq)
        (
          ap (λ (t : ℕ). if x then t else n) (add_bits n z y few) ∙ sym (counted j c low high),
          record {
            prev = refl;
            current =
                boundary_split c n block (c * block + n * block)
                  (add_uptr (c * block + n * block) block) x y refl
                  (omega (arith, fits, wide, high));
            low = s.0;
            high = s.1;
          },
        )

  -- With the boundaries of the slow path in front of a page, where no sum overflows: the number
  -- of blocks that the step expects on the page is the number of blocks that have a byte in it,
  -- and the boundaries are then those in front of the next page.
  pub next_page-Before :
      (j c : ℕ) (b : Bounds)
      → Before page block j c b
      → suc j * page + 4 * block + page < 2 ^ 64
      → ((next_page page block b).0 ≡ touching page block j)
        × Before page block (suc j) (after j c) (next_page page block b).1
  next_page-Before j c b v fits =
      step j c b.prev_page_boundary b.current_boundary v.prev v.current v.low v.high fits
