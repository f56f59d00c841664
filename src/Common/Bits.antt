-- ===== src/Common/Bits.antt =====
-- Laws of `&` with a mask of low or of high ones, for every width.
use Prim.Native.Nat.{
  ℕ, zero, suc, ◌+◌, ◌-◌, ◌*◌, ◌/◌, ◌%◌, ◌^◌, ◌≤◌, ◌<◌, min, bit_and, digits, bit_and-bitwise,
}
use mathlib.Core.Path.{◌≡◌, refl, sym, ap, ◌∙◌}
use native.Mathlib.Omega.{arith}
use native.Mathlib.Decide.{dec_le}
use native.Mathlib.Nat.{pow-suc, mod-eq_of_lt, div-lt_iff_lt-mul}

-- `n` steps of the digit recursion that `bit_and` stands for.
abbrev and_steps : ℕ → ℕ → ℕ → ℕ
and_steps n a b = digits (λ _. zero) min n a b

-- One step more than the argument needs changes nothing.
and_steps-suc : (n a b : ℕ) → a ≤ n → and_steps (suc n) a b ≡ and_steps n a b
and_steps-suc zero zero b h = refl
and_steps-suc zero (suc a) b h = absurd (omega arith)
and_steps-suc (suc n) zero b h = refl
and_steps-suc (suc n) (suc a) b h = omega (arith, and_steps-suc n (suc a / 2) (b / 2) (omega arith))

and_steps_enough : (m n a b : ℕ) → a ≤ n → n ≤ m → and_steps m a b ≡ and_steps n a b
and_steps_enough zero n a b h k = let e : n ≡ 0 = omega arith in rw e
and_steps_enough (suc m) n a b h k = elim (dec_le n m) [
  | yes le ↦ and_steps-suc m a b (omega arith) ∙ and_steps_enough m n a b h le
  | no gt ↦ let e : n ≡ suc m = omega arith in rw e
]

bit_and-step : (a b : ℕ) → bit_and a b ≡ bit_and (a / 2) (b / 2) * 2 + min (a % 2) (b % 2)
bit_and-step zero b = omega (arith, bit_and-bitwise 0 b, bit_and-bitwise 0 (b / 2))
bit_and-step (suc a) b =
    let half_steps : and_steps a (suc a / 2) (b / 2) ≡ and_steps (suc a / 2) (suc a / 2) (b / 2) =
      and_steps_enough a (suc a / 2) (suc a / 2) (b / 2) (omega arith) (omega arith) in
    omega (arith, half_steps, bit_and-bitwise (suc a) b, bit_and-bitwise (suc a / 2) (b / 2))

-- By induction on a bound, since the argument is halved.
bit_and-zero_below : (n a : ℕ) → a ≤ n → bit_and a 0 ≡ 0
bit_and-zero_below zero a h = let e : a ≡ 0 = omega arith in rw e refl
bit_and-zero_below (suc n) zero h = refl
bit_and-zero_below (suc n) (suc a) h =
    omega (arith, bit_and-step (suc a) 0, bit_and-zero_below n (suc a / 2) (omega arith))

pub bit_and-zero : (a : ℕ) → bit_and a 0 ≡ 0
bit_and-zero a = bit_and-zero_below a a (omega arith)

pub pow_double : (k : ℕ) → 2 ^ suc k ≡ 2 ^ k * 2
pow_double k = pow-suc 2 k

pub pow_pos : (k : ℕ) → 1 ≤ 2 ^ k
pow_pos zero = omega arith
pow_pos (suc k) = omega (arith, pow_pos k, pow_double k)

scale_double : (q k : ℕ) → q * 2 ^ suc k ≡ q * 2 ^ k * 2
scale_double q k = omega (arith, ap (λ (t : ℕ). q * t) (pow_double k))

-- A mask of low ones keeps the low field of a sum.
bit_and-low_field : (k q r : ℕ) → r < 2 ^ k → bit_and (q * 2 ^ k + r) (2 ^ k - 1) ≡ r
bit_and-low_field zero q r h = omega (arith, bit_and-zero (q * 2 ^ 0 + r))
bit_and-low_field (suc k) q r h = ground (
  arith,
  pow_double k,
  pow_pos k,
  scale_double q k,
  bit_and-step (q * 2 ^ suc k + r) (2 ^ suc k - 1),
  bit_and-low_field k q (r / 2),
)

-- `x & (2^k - 1)` is the remainder.
pub bit_and-low_mask : (k x : ℕ) → bit_and x (2 ^ k - 1) ≡ x % 2 ^ k
bit_and-low_mask k x =
    let split : x / 2 ^ k * 2 ^ k + x % 2 ^ k ≡ x = omega arith in
    ap (λ (t : ℕ). bit_and t (2 ^ k - 1)) (sym split)
    ∙ bit_and-low_field k (x / 2 ^ k) (x % 2 ^ k) (omega (arith, pow_pos k))

-- A mask that is a multiple of 2^k drops the low field.
bit_and-high_field :
    (k q m r : ℕ) → r < 2 ^ k → bit_and (q * 2 ^ k + r) (m * 2 ^ k) ≡ bit_and q m * 2 ^ k
bit_and-high_field zero q m r h =
    let e : r ≡ 0 = omega arith in
    let l : q * 1 + 0 ≡ q = omega arith in
    let u : m * 1 ≡ m = omega arith in rw (e, l, u) (omega arith)
bit_and-high_field (suc k) q m r h = ground (
  arith,
  scale_double q k,
  scale_double m k,
  scale_double (bit_and q m) k,
  pow_double k,
  bit_and-step (q * 2 ^ suc k + r) (m * 2 ^ suc k),
  bit_and-high_field k q m (r / 2),
)

-- `x & ~(2^k - 1)` in a word of k + n bits rounds down to a multiple of 2^k.
pub bit_and-high_mask :
    (k n x : ℕ) → x < 2 ^ n * 2 ^ k → bit_and x ((2 ^ n - 1) * 2 ^ k) ≡ x / 2 ^ k * 2 ^ k
bit_and-high_mask k n x h =
    let split : x / 2 ^ k * 2 ^ k + x % 2 ^ k ≡ x = omega arith in
    ap (λ (t : ℕ). bit_and t ((2 ^ n - 1) * 2 ^ k)) (sym split)
    ∙ bit_and-high_field k (x / 2 ^ k) (2 ^ n - 1) (x % 2 ^ k) (omega (arith, pow_pos k))
    ∙ ap (λ (t : ℕ). t * 2 ^ k)
        (bit_and-low_mask n (x / 2 ^ k) ∙ mod-eq_of_lt ((div-lt_iff_lt-mul (pow_pos k)).1 h))

pub pow_add : (m n : ℕ) → 2 ^ m * 2 ^ n ≡ 2 ^ (m + n)
pow_add zero n = let e : zero + n ≡ n = omega arith in rw e (omega arith)
pow_add (suc m) n =
    let e : suc m + n ≡ suc (m + n) = omega arith in
    rw (e, pow_double m, pow_double (m + n)) (grind (arith, pow_add m n))
