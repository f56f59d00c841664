-- ===== src/Common/BitOr.antt =====
-- Laws of `|` with a mask of ones, for every width.
use Prim.Native.Nat.{
  ℕ, zero, suc, ◌+◌, ◌-◌, ◌*◌, ◌/◌, ◌%◌, ◌^◌, ◌≤◌, ◌<◌, max, bit_or, digits, bit_or-bitwise,
}
use mathlib.Core.Path.{◌≡◌, refl, ap, ◌∙◌}
use native.Mathlib.Omega.{arith}
use native.Mathlib.Decide.{dec_le}
use scudo.Common.Bits.{pow_double, pow_pos}

-- `n` steps of the digit recursion that `bit_or` stands for.
abbrev or_steps : ℕ → ℕ → ℕ → ℕ
or_steps n a b = digits (λ b. b) max n a b

-- One step more than the argument needs changes nothing.
or_steps-suc : (n a b : ℕ) → a ≤ n → or_steps (suc n) a b ≡ or_steps n a b
or_steps-suc zero zero b h = refl
or_steps-suc zero (suc a) b h = absurd (omega arith)
or_steps-suc (suc n) zero b h = refl
or_steps-suc (suc n) (suc a) b h = omega (arith, or_steps-suc n (suc a / 2) (b / 2) (omega arith))

or_steps_enough : (m n a b : ℕ) → a ≤ n → n ≤ m → or_steps m a b ≡ or_steps n a b
or_steps_enough zero n a b h k = let e : n ≡ 0 = omega arith in rw e
or_steps_enough (suc m) n a b h k = elim (dec_le n m) [
  | yes le ↦ or_steps-suc m a b (omega arith) ∙ or_steps_enough m n a b h le
  | no gt ↦ let e : n ≡ suc m = omega arith in rw e
]

bit_or-zero : (b : ℕ) → bit_or 0 b ≡ b
bit_or-zero b = bit_or-bitwise 0 b

bit_or-step : (a b : ℕ) → bit_or a b ≡ bit_or (a / 2) (b / 2) * 2 + max (a % 2) (b % 2)
bit_or-step zero b = omega (arith, bit_or-zero b, bit_or-zero (b / 2))
bit_or-step (suc a) b =
    let half_steps : or_steps a (suc a / 2) (b / 2) ≡ or_steps (suc a / 2) (suc a / 2) (b / 2) =
      or_steps_enough a (suc a / 2) (suc a / 2) (b / 2) (omega arith) (omega arith) in
    omega (arith, half_steps, bit_or-bitwise (suc a) b, bit_or-bitwise (suc a / 2) (b / 2))

-- By induction on a bound, since the argument is halved.
bit_or-zero_below : (n a : ℕ) → a ≤ n → bit_or a 0 ≡ a
bit_or-zero_below zero a h = let e : a ≡ 0 = omega arith in rw e (bit_or-zero 0)
bit_or-zero_below (suc n) zero h = bit_or-zero 0
bit_or-zero_below (suc n) (suc a) h =
    omega (arith, bit_or-step (suc a) 0, bit_or-zero_below n (suc a / 2) (omega arith))

-- Or with low ones sets the low field.
bit_or-low_field :
    (k q r : ℕ) → r < 2 ^ k → bit_or (q * 2 ^ k + r) (2 ^ k - 1) ≡ q * 2 ^ k + (2 ^ k - 1)
bit_or-low_field zero q r h =
    let e : q * 2 ^ 0 + r ≡ q = omega arith in
    rw e (omega (arith, bit_or-zero_below q q (omega arith)))
bit_or-low_field (suc k) q r h = ground (
  arith,
  pow_double k,
  pow_pos k,
  ap (λ (t : ℕ). q * t) (pow_double k),
  bit_or-step (q * 2 ^ suc k + r) (2 ^ suc k - 1),
  bit_or-low_field k q (r / 2),
)

-- Or with ones above a low part sets the field above it, and keeps the rest.
pub bit_or-field :
    (o k h d r : ℕ)
    → d < 2 ^ k
    → r < 2 ^ o
    → bit_or ((h * 2 ^ k + d) * 2 ^ o + r) ((2 ^ k - 1) * 2 ^ o)
      ≡ (h * 2 ^ k + (2 ^ k - 1)) * 2 ^ o + r
bit_or-field zero k h d r small low =
    let e : r ≡ 0 = omega arith in
    let f : (h * 2 ^ k + d) * 2 ^ 0 + 0 ≡ h * 2 ^ k + d = omega arith in
    let g : (2 ^ k - 1) * 2 ^ 0 ≡ 2 ^ k - 1 = omega arith in
    rw (e, f, g) (omega (arith, bit_or-low_field k h d small))
bit_or-field (suc o) k h d r small low = ground (
  arith,
  pow_double o,
  pow_pos o,
  ap (λ (t : ℕ). (h * 2 ^ k + d) * t) (pow_double o),
  ap (λ (t : ℕ). (2 ^ k - 1) * t) (pow_double o),
  ap (λ (t : ℕ). (h * 2 ^ k + (2 ^ k - 1)) * t) (pow_double o),
  bit_or-step ((h * 2 ^ k + d) * 2 ^ suc o + r) ((2 ^ k - 1) * 2 ^ suc o),
  bit_or-field o k h d (r / 2) small,
)
