-- ===== src/Release/PageMap/Fields.antt =====
-- Bit fields of a word: a field is read by a division and a remainder, and what is added to one field
-- leaves those above and below it as long as it stays in the field.
use Prim.Native.Nat.{bit_or}
use scudo.Common.{ℕ, ◌+◌, ◌-◌, ◌*◌, ◌/◌, ◌%◌, ◌^◌, ◌≤◌, ◌<◌, ◌≡◌, sym, ap, ◌∙◌, arith}
use scudo.Common.Bits.{pow_pos}
use scudo.Common.BitOr.{bit_or-field}
use native.Mathlib.Nat.{
  div-div-eq-div-mul, div-lt_iff_lt-mul, add-mul-mod_self_right, add-mul-div_right, div-eq_of_lt-le,
}

-- A field of `b` values at the place `p`, with `n` added to it.
module _ (w p b n : ℕ) (pos : 1 ≤ p) (room : w / p % b + n < b) where
  field_moved : (w + n * p) / p ≡ w / p + n
  field_moved = add-mul-div_right w n pos

  split : w / p ≡ w / p / b * b + w / p % b
  split = omega arith

  field_quotient : (w / p + n) / b ≡ w / p / b
  field_quotient = div-eq_of_lt-le b (omega (arith, split)) (grind (arith, split))

  pub field_same : (w + n * p) / p % b ≡ w / p % b + n
  field_same =
      let e : w / p + n ≡ (w / p + n) / b * b + (w / p + n) % b = omega arith in
      rw field_moved (omega (arith, split, e, ap (λ (t : ℕ). t * b) field_quotient))

  pub field_above : (k c : ℕ) → (w + n * p) / (p * (b * k)) % c ≡ w / (p * (b * k)) % c
  field_above k c =
      let moved : (w + n * p) / (p * (b * k)) ≡ w / (p * (b * k)) =
        sym (div-div-eq-div-mul (w + n * p) p (b * k))
        ∙ ap (λ (t : ℕ). t / (b * k)) field_moved
        ∙ sym (div-div-eq-div-mul (w / p + n) b k)
        ∙ ap (λ (t : ℕ). t / k) field_quotient
        ∙ div-div-eq-div-mul (w / p) b k
        ∙ div-div-eq-div-mul w p (b * k) in
      ap (λ (t : ℕ). t % c) moved

  pub field_fits : (top : ℕ) → w < top * (p * b) → w + n * p < top * (p * b)
  field_fits top h =
      let wide : 0 < p * b = grind arith in
      let same : (w + n * p) / (p * b) ≡ w / (p * b) =
        sym (div-div-eq-div-mul (w + n * p) p b)
        ∙ ap (λ (t : ℕ). t / b) field_moved
        ∙ field_quotient
        ∙ div-div-eq-div-mul w p b in
      (div-lt_iff_lt-mul wide).0 (rw same ((div-lt_iff_lt-mul wide).1 h))

-- Or with the ones of a field adds what the field lacks.
pub bit_or-fills :
    (w o k : ℕ) → bit_or w ((2 ^ k - 1) * 2 ^ o) ≡ w + (2 ^ k - 1 - w / 2 ^ o % 2 ^ k) * 2 ^ o
bit_or-fills w o k =
    let h = w / 2 ^ o / 2 ^ k in
    let d = w / 2 ^ o % 2 ^ k in
    let r = w % 2 ^ o in
    let low : r < 2 ^ o = omega (arith, pow_pos o) in
    let small : d < 2 ^ k = omega (arith, pow_pos k) in
    let high : h * 2 ^ k + d ≡ w / 2 ^ o = omega arith in
    let whole : (h * 2 ^ k + d) * 2 ^ o + r ≡ w = rw high (omega arith) in
    let filled : h * 2 ^ k + (2 ^ k - 1) ≡ w / 2 ^ o + (2 ^ k - 1 - d) = omega (arith, high) in
    ap (λ (t : ℕ). bit_or t ((2 ^ k - 1) * 2 ^ o)) (sym whole)
    ∙ bit_or-field o k h d r small low
    ∙ ap (λ (t : ℕ). t * 2 ^ o + r) filled
    ∙ grind arith

-- A field below: `p = q * (b * k)`.
pub field_below : (w q b k n : ℕ) → 1 ≤ q → (w + n * (q * (b * k))) / q % b ≡ w / q % b
field_below w q b k n pos =
    let e : n * (q * (b * k)) ≡ n * k * b * q = grind arith in
    rw (e, add-mul-div_right w (n * k * b) pos, add-mul-mod_self_right (w / q) (n * k) b)
