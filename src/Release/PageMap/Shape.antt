-- ===== src/Release/PageMap/Shape.antt =====
-- `reset` sets the page map up for counters that can hold the number it is given.
use scudo.Common.{
  ℕ, zero, suc, ◌+◌, ◌-◌, ◌*◌, ◌/◌, ◌%◌, ◌^◌, ◌≤◌, ◌<◌, ◌≡◌, refl, subst, ap, ◌∙◌, arith, Bool,
  true, false, ◌&&◌, ==→eq, leb→le, ◌==◌, leb,
}
use scudo.Common.Bits.{pow_pos}
use scudo.Arith.{round_up_power_of_two, most_significant_set_bit_index, log2, round_up}
use scudo.Arith.Align.{round_up-eq}
use scudo.Arith.Power.{most_significant_set_bit_index_bounds}
use native.Mathlib.Decide.{dec_le}
use native.Mathlib.Nat.{mul-div_left, zero-div, div-le_self, pow-le-pow_right}
use scudo.Release.Pool.{get_buffer}
use scudo.Release.PageMap.{RegionPageMap, bits_for, words_for, reset, get, word_index}
use scudo.Release.PageMap.Counters.{IsPageMap, get-eq, place, bits}

-- The widths of the counters, checked for each number of bits up to 64.
abbrev width_fits : ℕ → Bool
unfolding round_up_power_of_two log2
width_fits n =
    let b = round_up_power_of_two n in
    let c = log2 b in
    let p = log2 (64 / 2 ^ c) in
    leb n b
    && (b == 2 ^ c)
    && (p + c == 6)
    && ((2 ^ 64 - 1) / 2 ^ (64 - b) == 2 ^ b - 1)
    && (64 / 2 ^ c - 1 == 2 ^ p - 1)

all_widths : ℕ → Bool
all_widths zero = true
all_widths (suc n) = width_fits (suc n) && all_widths n

widths_fit : all_widths 64 ≡ true
unfolding all_widths round_up_power_of_two log2
widths_fit = refl

and_left : (a b : Bool) → (a && b) ≡ true → a ≡ true
and_left true b h = refl
and_left false b h = cc

and_right : (a b : Bool) → (a && b) ≡ true → b ≡ true
and_right true b h = h
and_right false b h = cc

width_fits_below : (k n : ℕ) → all_widths k ≡ true → 0 < n → n ≤ k → width_fits n ≡ true
unfolding all_widths
width_fits_below zero n h pos le = absurd (omega arith)
width_fits_below (suc k) n h pos le = elim (dec_le n k) [
  | yes below ↦ width_fits_below k n (and_right (width_fits (suc k)) (all_widths k) h) pos below
  | no above ↦
      let e : n ≡ suc k = omega arith in rw e (and_left (width_fits (suc k)) (all_widths k) h)
]

five :
    (a b c d e : Bool)
    → (a && b && c && d && e) ≡ true
    → (a ≡ true) × (b ≡ true) × (c ≡ true) × (d ≡ true) × (e ≡ true)
five a b c d e h = ground arith

-- The width of the counters of `n` significant bits.
record IsWidth (n : ℕ) : Type 0 where
  pub enough : n ≤ round_up_power_of_two n
  pub power : round_up_power_of_two n ≡ 2 ^ log2 (round_up_power_of_two n)
  pub word : log2 (64 / 2 ^ log2 (round_up_power_of_two n)) + log2 (round_up_power_of_two n) ≡ 6
  pub mask : (2 ^ 64 - 1) / 2 ^ (64 - round_up_power_of_two n) ≡ 2 ^ round_up_power_of_two n - 1
  pub offsets :
      64 / 2 ^ log2 (round_up_power_of_two n) - 1
      ≡ 2 ^ log2 (64 / 2 ^ log2 (round_up_power_of_two n)) - 1

n-IsWidth : (n : ℕ) → 0 < n → n ≤ 64 → IsWidth n
unfolding width_fits
n-IsWidth n pos le =
    let h = width_fits_below 64 n widths_fit pos le in
    let b = round_up_power_of_two n in
    let c = log2 b in
    let p = log2 (64 / 2 ^ c) in
    let k =
      five (leb n b) (b == 2 ^ c) (p + c == 6) ((2 ^ 64 - 1) / 2 ^ (64 - b) == 2 ^ b - 1)
        (64 / 2 ^ c - 1 == 2 ^ p - 1) h in
    record {
      enough = leb→le n b k.0;
      power = ==→eq b (2 ^ c) k.1;
      word = ==→eq (p + c) 6 k.2;
      mask = ==→eq ((2 ^ 64 - 1) / 2 ^ (64 - b)) (2 ^ b - 1) k.3;
      offsets = ==→eq (64 / 2 ^ c - 1) (2 ^ p - 1) k.4;
    }

-- A buffer that was just given has only zeros.
get_buffer-zero :
    (map : ℕ → Bool) (page_size mask n i : ℕ) → (get_buffer map page_size mask n).0.words i ≡ 0
unfolding get_buffer
get_buffer-zero map page_size mask n i = ground arith

fits_below : (r s c : ℕ) → s ≤ c → r * c < 2 ^ 64 → r * s < 2 ^ 64
fits_below r s c h k = grind arith

module _ (map : ℕ → Bool) (page_size pool regions counters max_value : ℕ) (pos : 0 < max_value)
    (word : max_value < 2 ^ 64) (size : regions * (counters + 64) < 2 ^ 64)
    (bound : counters + 64 ≤ 2 ^ 64) where
  abbrev fresh : RegionPageMap
  fresh = (reset map page_size pool regions counters max_value).0

  abbrev significant : ℕ
  significant = most_significant_set_bit_index max_value + 1

  wide : IsWidth significant
  wide =
      n-IsWidth significant (omega arith)
        (omega (arith, (most_significant_set_bit_index_bounds max_value pos word).2))

  -- The words of a region have room for its counters.
  words_for_bounds :
      (p : ℕ)
      → p ≤ 6
      → (counters ≤ words_for counters p * 2 ^ p) × (words_for counters p ≤ counters + 64)
  unfolding words_for
  words_for_bounds p le =
      let pos = pow_pos p in
      let small : 2 ^ p ≤ 64 = pow-le-pow_right {n = 2} (omega arith) {i = p} {j = 6} le in
      let up = round_up-eq p (63 - p) (omega (arith, le)) counters (omega (arith, bound, small)) in
      let n = (counters + 2 ^ p - 1) / 2 ^ p in
      let e : round_up counters (2 ^ p) / 2 ^ p ≡ n =
        ap (λ (t : ℕ). t / 2 ^ p) up ∙ mul-div_left n pos in
      let split : n * 2 ^ p + (counters + 2 ^ p - 1) % 2 ^ p ≡ counters + 2 ^ p - 1 = omega arith in
      let rest : (counters + 2 ^ p - 1) % 2 ^ p < 2 ^ p = omega (arith, pos) in
      rw e (
        omega (arith, split, rest, pos),
        omega (arith, div-le_self (counters + 2 ^ p - 1) (2 ^ p), small),
      )

  pub reset-IsPageMap : IsPageMap fresh
  unfolding reset bits_for
  reset-IsPageMap = record {
    width = wide.word;
    mask = wide.mask ∙ ap (λ (t : ℕ). 2 ^ t - 1) wide.power;
    offsets = wide.offsets;
    room = (words_for_bounds _ (omega (arith, wide.word))).0;
    fits =
        fits_below regions _ (counters + 64) (words_for_bounds _ (omega (arith, wide.word))).1 size;
    small = λ i.
        omega
          (arith, get_buffer-zero map page_size pool (words_for counters _ * regions % 2 ^ 64) i);
  }

  pub reset-get : (r i : ℕ) → get fresh r i ≡ 0
  unfolding reset
  reset-get r i =
      let zero_word = get_buffer-zero map page_size pool _ (word_index fresh r i) in
      get-eq fresh reset-IsPageMap r i
      ∙ ap (λ (t : ℕ). t / 2 ^ place fresh reset-IsPageMap i % 2 ^ bits fresh reset-IsPageMap)
          zero_word
      ∙ omega (arith, zero-div (2 ^ place fresh reset-IsPageMap i))

  pub reset-mask : max_value ≤ fresh.counter_mask
  unfolding reset bits_for
  reset-mask =
      let top = (most_significant_set_bit_index_bounds max_value pos word).1 in
      let le =
        pow-le-pow_right {n = 2} (omega arith) {i = significant} {j = bits_for max_value}
          wide.enough in
      let e : suc (most_significant_set_bit_index max_value) ≡ significant = omega arith in
      let top' = subst (λ (t : ℕ). max_value < 2 ^ t) e top in
      rw wide.mask (omega (arith, top', le))

  pub reset-num_counters : fresh.num_counters ≡ counters
  unfolding reset
  reset-num_counters = refl

  pub reset-regions : fresh.regions ≡ regions
  unfolding reset
  reset-regions = refl
