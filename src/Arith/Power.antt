-- ===== src/Arith/Power.antt =====
-- The highest set bit of a word, and the next power of two.
use scudo.Common.{ℕ, zero, suc, ◌/◌, ◌^◌, ◌≤◌, ◌<◌, Bool-cases, inl, inr, arith, ltb}
use scudo.Common.Bits.{pow_double}
use scudo.Arith.{highest_bit, most_significant_set_bit_index}

highest_bit_bounds :
    (k x : ℕ)
    → 0 < x
    → x < 2 ^ suc k
    → (2 ^ highest_bit k x ≤ x) × (x < 2 ^ suc (highest_bit k x)) × (highest_bit k x ≤ k)
unfolding highest_bit
highest_bit_bounds zero x pos fits = (pos, fits, omega arith)
highest_bit_bounds (suc k) x pos fits = elim (Bool-cases (ltb x 2)) [
  | inl one ↦ rw one (pos, ground arith, omega arith)
  | inr more ↦
      let two : 2 ≤ x = ground arith in
      let ih = highest_bit_bounds k (x / 2) (omega arith) (omega (arith, pow_double (suc k))) in
      rw more (
        omega (arith, pow_double (highest_bit k (x / 2)), ih.0),
        omega (arith, pow_double (suc (highest_bit k (x / 2))), ih.1),
        omega (arith, ih.2),
      )
]

-- The index of the highest bit of a positive word is at most 63, and the word is between its power
-- of two and the next.
pub most_significant_set_bit_index_bounds :
    (x : ℕ)
    → 0 < x
    → x < 2 ^ 64
    → (2 ^ most_significant_set_bit_index x ≤ x)
      × (x < 2 ^ suc (most_significant_set_bit_index x))
      × (most_significant_set_bit_index x ≤ 63)
unfolding most_significant_set_bit_index
most_significant_set_bit_index_bounds x pos fits = highest_bit_bounds 63 x pos fits
