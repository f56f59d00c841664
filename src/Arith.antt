-- ===== src/Arith.antt =====
-- common.h: alignment, powers of two, the xorshift generator and the shuffle.
pub mod Align
pub mod Power
pub mod Shuffle
use Prim.Native.Nat.{bit_xor}
use scudo.Common.{
  ℕ, zero, suc, ◌+◌, ◌-◌, ◌*◌, ◌/◌, ◌%◌, ◌^◌, Bool, true, false, bit_and, ◌==◌, ltb, if◌then◌else◌,
  add_uptr, sub_uptr,
}

-- `~x` on a uptr.
abbrev pub bit_not : ℕ → ℕ
bit_not x = 2 ^ 64 - 1 - x

unfoldable pub is_power_of_two : ℕ → Bool
is_power_of_two x = if x == 0 then false else bit_and x (sub_uptr x 1) == 0

unfoldable pub round_up : ℕ → ℕ → ℕ
round_up x boundary = bit_and (sub_uptr (add_uptr x boundary) 1) (bit_not (sub_uptr boundary 1))

unfoldable pub round_up_slow : ℕ → ℕ → ℕ
round_up_slow x boundary = (sub_uptr (add_uptr x boundary) 1 / boundary * boundary) % 2 ^ 64

unfoldable pub round_down : ℕ → ℕ → ℕ
round_down x boundary = bit_and x (bit_not (sub_uptr boundary 1))

unfoldable pub round_down_slow : ℕ → ℕ → ℕ
round_down_slow x boundary = (x / boundary * boundary) % 2 ^ 64

unfoldable pub is_aligned : ℕ → ℕ → Bool
is_aligned x alignment = bit_and x (sub_uptr alignment 1) == 0

unfoldable pub is_aligned_slow : ℕ → ℕ → Bool
is_aligned_slow x alignment = x % alignment == 0

-- `SCUDO_WORDSIZE - 1 - clz(x)`: the index of the highest set bit, found by halving. The first number
-- bounds the rounds.
unfoldable pub highest_bit : ℕ → ℕ → ℕ
highest_bit zero x = 0
highest_bit (suc k) x = let rest = suc (highest_bit k (x / 2)) in if ltb x 2 then 0 else rest

unfoldable pub most_significant_set_bit_index : ℕ → ℕ
unfolding highest_bit
most_significant_set_bit_index x = highest_bit 63 x

unfoldable pub round_up_power_of_two : ℕ → ℕ
unfolding is_power_of_two most_significant_set_bit_index
round_up_power_of_two size =
    if is_power_of_two size then size else 2 ^ (most_significant_set_bit_index size + 1) % 2 ^ 64

-- `ctz(x)`: the index of the lowest set bit.
unfoldable pub lowest_bit : ℕ → ℕ → ℕ
lowest_bit zero x = 0
lowest_bit (suc k) x = let rest = suc (lowest_bit k (x / 2)) in if x % 2 == 1 then 0 else rest

unfoldable pub least_significant_set_bit_index : ℕ → ℕ
unfolding lowest_bit
least_significant_set_bit_index x = lowest_bit 63 x

unfoldable pub log2 : ℕ → ℕ
unfolding least_significant_set_bit_index
log2 x = least_significant_set_bit_index x

-- The xorshift generator: the new state, which is also the random number.
unfoldable pub random_u32 : ℕ → ℕ
random_u32 state = bit_xor third (third * 2 ^ 5 % 2 ^ 32)
  where
    first : ℕ
    first = bit_xor state (state * 2 ^ 13 % 2 ^ 32)

    third : ℕ
    third = bit_xor first (first / 2 ^ 17)

-- The number in [0, n) and the new state.
unfoldable pub random_mod_n : ℕ → ℕ → ℕ × ℕ
unfolding random_u32
random_mod_n state n = (random_u32 state % n, random_u32 state)

-- `Numerator * 100 / Denominator`, and two decimals.
unfoldable pub compute_percentage : ℕ → ℕ → ℕ × ℕ
compute_percentage numerator denominator = if denominator == 0 then (100, 0) else (
  scaled / denominator,
  ((scaled % denominator * 100) % 2 ^ 64 + denominator / 2) % 2 ^ 64 / denominator,
)
  where
    scaled : ℕ
    scaled = numerator * 100 % 2 ^ 64
