-- ===== src/Arith/Align.antt =====
-- The masked forms of common.h agree with the divisions, at every power of two of a 64-bit word.
use scudo.Common.{
  ℕ, zero, suc, ◌+◌, ◌-◌, ◌*◌, ◌/◌, ◌%◌, ◌^◌, ◌≤◌, ◌<◌, ◌≡◌, ap, sym, arith, true, eq→==, sub_uptr,
  add_uptr,
}
use native.Mathlib.Nat.{mod-eq_of_lt, mul-mod_left}
use scudo.Common.Bits.{bit_and-low_mask, bit_and-high_mask, pow_pos, pow_add, pow_double}
use scudo.Arith.{round_up, round_up_slow, round_down, is_aligned, is_aligned_slow, bit_not}

dec-mul : (m p : ℕ) → 1 ≤ m → (m - 1) * p + p ≡ m * p
dec-mul zero p h = absurd (omega arith)
dec-mul (suc m) p h = let e : suc m - 1 ≡ m = omega arith in rw e (omega arith)

-- A boundary 2^k with 0 < n and k + n = 64 is a proper power of two of a word.
module _ (k n : ℕ) (width : k + suc n ≡ 64) where
  pow_product : 2 ^ n * 2 * 2 ^ k ≡ 2 ^ 64
  pow_product =
      rw (← pow_double n, pow_add (suc n) k) (ap (λ (t : ℕ). 2 ^ t) {y = 64} (omega arith))

  pub pow_fits : 2 ^ k * 2 ≤ 2 ^ 64
  pow_fits = grind (arith, pow_product, pow_pos n)

  low_mask : sub_uptr (2 ^ k) 1 ≡ 2 ^ k - 1
  low_mask = omega (arith, pow_fits, pow_pos k)

  -- `~(2^k - 1)` has ones above the k low bits.
  high_mask : bit_not (sub_uptr (2 ^ k) 1) ≡ (2 ^ suc n - 1) * 2 ^ k
  high_mask = rw (pow_double n) (
      omega (
        arith,
        low_mask,
        pow_product,
        dec-mul (2 ^ n * 2) (2 ^ k) (omega (arith, pow_pos n)),
        pow_pos k,
        pow_fits,
      ))

  -- For a boundary that is a power of two, roundDown of a word is the largest multiple of the
  -- boundary up to it.
  pub round_down-eq : (x : ℕ) → x < 2 ^ 64 → round_down x (2 ^ k) ≡ x / 2 ^ k * 2 ^ k
  unfolding round_down
  round_down-eq x h =
      rw high_mask (bit_and-high_mask k (suc n) x (rw (pow_double n, pow_product) h))

  -- For a boundary that is a power of two, isAligned is isAlignedSlow.
  pub is_aligned-eq : (x : ℕ) → is_aligned x (2 ^ k) ≡ is_aligned_slow x (2 ^ k)
  unfolding is_aligned is_aligned_slow
  is_aligned-eq x = rw (low_mask, bit_and-low_mask k x)

  -- Where the sum does not wrap, rounding up gives a multiple of the boundary that is at least `x`
  -- and exceeds it by less than the boundary.
  pub round_up-eq :
      (x : ℕ) → x + 2 ^ k ≤ 2 ^ 64 → round_up x (2 ^ k) ≡ (x + 2 ^ k - 1) / 2 ^ k * 2 ^ k
  unfolding round_up
  round_up-eq x h =
      let sum : sub_uptr (add_uptr x (2 ^ k)) 1 ≡ x + 2 ^ k - 1 = omega (arith, pow_pos k) in
      rw (high_mask, sum)
        (bit_and-high_mask k (suc n) (x + 2 ^ k - 1)
          (rw (pow_double n, pow_product) (omega (arith, pow_pos k))))

  -- For a boundary that is a power of two, where the sum does not wrap, roundUp is roundUpSlow, is
  -- aligned, is not below its argument and exceeds it by less than the boundary.
  pub round_up_bounds :
      (x : ℕ)
      → x + 2 ^ k ≤ 2 ^ 64
      → (round_up x (2 ^ k) ≡ round_up_slow x (2 ^ k))
        × (x ≤ round_up x (2 ^ k))
        × (round_up x (2 ^ k) < x + 2 ^ k)
        × (is_aligned (round_up x (2 ^ k)) (2 ^ k) ≡ true)
  unfolding round_up_slow is_aligned_slow
  round_up_bounds x h =
      let p = 2 ^ k in
      let s = x + p - 1 in
      let below : s / p * p + s % p ≡ s = omega arith in
      let rest : s % p < p = omega (arith, pow_pos k) in
      let sum : sub_uptr (add_uptr x p) 1 ≡ s = omega (arith, pow_pos k) in
      rw (is_aligned-eq (round_up x p), round_up-eq x h, sum)
        (
          sym (mod-eq_of_lt (omega (arith, pow_pos k))),
          omega (arith, pow_pos k),
          omega (arith, pow_pos k),
          eq→== _ 0 (mul-mod_left (s / p) p),
        )
