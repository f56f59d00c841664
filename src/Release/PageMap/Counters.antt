-- ===== src/Release/PageMap/Counters.antt =====
-- The packed counters behave like an array of numbers: a change of one of them leaves the others.
use scudo.Common.{
  ℕ, ◌+◌, ◌-◌, ◌*◌, ◌/◌, ◌%◌, ◌^◌, ◌≤◌, ◌<◌, ◌≡◌, ◌≢◌, ◌⊎◌, inl, inr, refl, sym, ap, ◌∙◌, subst,
  arith, update, update_self, Bool-cases, ◌==◌, ==→eq,
}
use scudo.Common.Bits.{bit_and-low_mask, pow_pos, pow_add}
use native.Mathlib.Decide.{dec_lt}
use native.Mathlib.Nat.{mod-eq_of_lt, div-lt_iff_lt-mul, div-eq_of_lt-le}
use scudo.Release.PageMap.{RegionPageMap, word_index, bit_offset, word, put_word, get}
use scudo.Release.PageMap.Fields.{field_same, field_above, field_below, field_fits}

-- What `reset` sets up and the counters keep.
pub record IsPageMap (m : RegionPageMap) : Type 0 where
  pub width : m.packing_ratio_log + m.counter_size_bits_log ≡ 6
  pub mask : m.counter_mask ≡ 2 ^ 2 ^ m.counter_size_bits_log - 1
  pub offsets : m.bit_offset_mask ≡ 2 ^ m.packing_ratio_log - 1
  pub room : m.num_counters ≤ m.size_per_region * 2 ^ m.packing_ratio_log
  pub fits : m.regions * m.size_per_region < 2 ^ 64
  pub small : (i : ℕ) → m.buffer.words i < 2 ^ 64

-- A counter of the map, and the map with `n` added to it.
pub record Moved (m : RegionPageMap) (r i n : ℕ) (m' : RegionPageMap) : Type 0 where
  pub valid : IsPageMap m'
  pub same_regions : m'.regions ≡ m.regions
  pub same_counters : m'.num_counters ≡ m.num_counters
  pub same_mask : m'.counter_mask ≡ m.counter_mask
  pub here : get m' r i ≡ get m r i + n
  pub there :
      (r' i' : ℕ)
      → r' < m.regions
      → i' < m.num_counters
      → (r' ≢ r) ⊎ (i' ≢ i)
      → get m' r' i' ≡ get m r' i'

pair_div : (r s a : ℕ) → a < s → (r * s + a) / s ≡ r
pair_div r s a h = div-eq_of_lt-le s (omega arith) (omega arith)

-- With a ratio of `2 ^ p` counters of `b = 2 ^ c` bits in a word.
module _ (m : RegionPageMap) (v : IsPageMap m) where
  abbrev pub ratio : ℕ
  ratio = 2 ^ m.packing_ratio_log

  abbrev pub bits : ℕ
  bits = 2 ^ m.counter_size_bits_log

  pub word_of_bits : ratio * bits ≡ 64
  word_of_bits =
      pow_add m.packing_ratio_log m.counter_size_bits_log ∙ ap (λ (t : ℕ). 2 ^ t) {y = 6} v.width

  -- The place of a counter in its word.
  abbrev pub place : ℕ → ℕ
  place i = i % ratio * bits

  pub place-lt : (i : ℕ) → place i + bits ≤ 64
  place-lt i =
      let low : i % ratio < ratio = omega (arith, pow_pos m.packing_ratio_log) in
      grind (arith, word_of_bits)

  pub bit_offset-eq : (i : ℕ) → bit_offset m i ≡ place i
  unfolding bit_offset
  bit_offset-eq i =
      rw (v.offsets, bit_and-low_mask m.packing_ratio_log i)
        (mod-eq_of_lt (omega (arith, place-lt i)))

  quotient-lt : (i : ℕ) → i < m.num_counters → i / ratio < m.size_per_region
  quotient-lt i h = (div-lt_iff_lt-mul (pow_pos m.packing_ratio_log)).1 (omega (arith, v.room))

  word_index-eq :
      (r i : ℕ)
      → r < m.regions
      → i < m.num_counters
      → word_index m r i ≡ r * m.size_per_region + i / ratio
  unfolding word_index
  word_index-eq r i hr hi =
      let q = quotient-lt i hi in
      let whole : r * m.size_per_region + i / ratio < m.regions * m.size_per_region = grind arith in
      omega (arith, v.fits)

  pub get-eq : (r i : ℕ) → get m r i ≡ word m r i / 2 ^ place i % 2 ^ bits
  unfolding get
  get-eq r i = rw (v.mask, bit_offset-eq i) (bit_and-low_mask bits (word m r i / 2 ^ place i))

  -- Two counters in one word have different places.
  same_word :
      (r i r' i' : ℕ)
      → r < m.regions
      → i < m.num_counters
      → r' < m.regions
      → i' < m.num_counters
      → (r' ≢ r) ⊎ (i' ≢ i)
      → word_index m r' i' ≡ word_index m r i
      → i' % ratio ≢ i % ratio
  same_word r i r' i' hr hi hr' hi' other e at =
      let s = m.size_per_region in
      let q = quotient-lt i hi in
      let q' = quotient-lt i' hi' in
      let sum : r' * s + i' / ratio ≡ r * s + i / ratio =
        sym (word_index-eq r' i' hr' hi') ∙ e ∙ word_index-eq r i hr hi in
      let row : r' ≡ r =
        sym (pair_div r' s (i' / ratio) q')
        ∙ ap (λ (t : ℕ). t / s) sum
        ∙ pair_div r s (i / ratio) q in
      let column : i' ≡ i =
        let e' = ap (λ (t : ℕ). t * s) row in
        let same : i' / ratio ≡ i / ratio = omega (arith, sum, e') in
        let e'' = ap (λ (t : ℕ). t * ratio) same in
        let left : i' ≡ i' / ratio * ratio + i' % ratio = omega arith in
        let right : i ≡ i / ratio * ratio + i % ratio = omega arith in
        omega (arith, at, e'', left, right) in
      elim other [ inl n ↦ n row | inr n ↦ n column ]

  -- `n` more in a field of the word, and the other fields.
  module _ (i n w : ℕ) (room : w / 2 ^ place i % 2 ^ bits + n < 2 ^ bits) where
    other_place :
        (i' : ℕ)
        → i' % ratio ≢ i % ratio
        → (w + n * 2 ^ place i) / 2 ^ place i' % 2 ^ bits ≡ w / 2 ^ place i' % 2 ^ bits
    other_place i' other = elim (dec_lt (i % ratio) (i' % ratio)) [
      | yes above ↦
          let gap = i' % ratio - i % ratio - 1 in
          let e : place i' ≡ place i + (bits + gap * bits) =
            ap (λ (t : ℕ). t * bits) {x = i' % ratio} {y = i % ratio + (1 + gap)} (omega arith)
            ∙ grind arith in
          let power : 2 ^ place i' ≡ 2 ^ place i * (2 ^ bits * 2 ^ (gap * bits)) =
            ap (λ (t : ℕ). 2 ^ t) e
            ∙ sym (pow_add (place i) (bits + gap * bits))
            ∙ ap (λ (t : ℕ). 2 ^ place i * t) (sym (pow_add bits (gap * bits))) in
          rw power (
            field_above w (2 ^ place i) (2 ^ bits) n (pow_pos (place i)) room (2 ^ (gap * bits))
              (2 ^ bits))
      | no below ↦
          let gap = i % ratio - i' % ratio - 1 in
          let e : place i ≡ place i' + (bits + gap * bits) =
            ap (λ (t : ℕ). t * bits) {x = i % ratio} {y = i' % ratio + (1 + gap)} (omega arith)
            ∙ grind arith in
          let power : 2 ^ place i ≡ 2 ^ place i' * (2 ^ bits * 2 ^ (gap * bits)) =
            ap (λ (t : ℕ). 2 ^ t) e
            ∙ sym (pow_add (place i') (bits + gap * bits))
            ∙ ap (λ (t : ℕ). 2 ^ place i' * t) (sym (pow_add bits (gap * bits))) in
          rw power
            (field_below w (2 ^ place i') (2 ^ bits) (2 ^ (gap * bits)) n (pow_pos (place i')))
    ]

    -- The word does not wrap.
    pub stays_word : w < 2 ^ 64 → w + n * 2 ^ place i < 2 ^ 64
    stays_word h =
        let rest = 64 - (place i + bits) in
        let whole : 2 ^ rest * (2 ^ place i * 2 ^ bits) ≡ 2 ^ 64 =
          ap (λ (t : ℕ). 2 ^ rest * t) (pow_add (place i) bits)
          ∙ pow_add rest (place i + bits)
          ∙ ap (λ (t : ℕ). 2 ^ t) {y = 64} (omega (arith, place-lt i)) in
        subst (λ (t : ℕ). w + n * 2 ^ place i < t) whole
          (field_fits w (2 ^ place i) (2 ^ bits) n (pow_pos (place i)) room (2 ^ rest)
            (subst (λ (t : ℕ). w < t) (sym whole) h))

module _ (m : RegionPageMap) (v : IsPageMap m) (r i n w' : ℕ) (hr : r < m.regions)
    (hi : i < m.num_counters) (room : get m r i + n ≤ m.counter_mask)
    (e : w' ≡ word m r i + n * 2 ^ bit_offset m i) where
  pub in_field : word m r i / 2 ^ place m v i % 2 ^ bits m v + n < 2 ^ bits m v
  in_field = omega (arith, get-eq m v r i, v.mask, room, pow_pos (bits m v))

  new_word : w' ≡ word m r i + n * 2 ^ place m v i
  new_word = e ∙ ap (λ (t : ℕ). word m r i + n * 2 ^ t) (bit_offset-eq m v i)

  new_small : (k : ℕ) → update m.buffer.words (word_index m r i) w' k < 2 ^ 64
  new_small k = elim (Bool-cases (k == word_index m r i)) [
    | inl t ↦
        rw (t, new_word) (stays_word m v i n (word m r i) in_field (v.small (word_index m r i)))
    | inr f ↦ rw f (v.small k)
  ]

  put_word-IsPageMap : IsPageMap (put_word m r i w')
  put_word-IsPageMap = record {
    width = v.width;
    mask = v.mask;
    offsets = v.offsets;
    room = v.room;
    fits = v.fits;
    small = new_small;
  }

  put_word-here : get (put_word m r i w') r i ≡ get m r i + n
  unfolding word_index
  put_word-here =
      let v' = put_word-IsPageMap in
      get-eq (put_word m r i w') v' r i
      ∙ ap (λ (t : ℕ). t / 2 ^ place m v i % 2 ^ bits m v)
          (update_self m.buffer.words (word_index m r i) w' ∙ new_word)
      ∙ field_same (word m r i) (2 ^ place m v i) (2 ^ bits m v) n (pow_pos (place m v i)) in_field
      ∙ ap (λ (t : ℕ). t + n) (sym (get-eq m v r i))

  put_word-there :
      (r' i' : ℕ)
      → r' < m.regions
      → i' < m.num_counters
      → (r' ≢ r) ⊎ (i' ≢ i)
      → get (put_word m r i w') r' i' ≡ get m r' i'
  unfolding word_index
  put_word-there r' i' hr' hi' other =
      let words = m.buffer.words in
      let k = word_index m r i in
      let k' = word_index m r' i' in
      let moved : update words k w' k' / 2 ^ place m v i' % 2 ^ bits m v
          ≡ words k' / 2 ^ place m v i' % 2 ^ bits m v =
        elim (Bool-cases (k' == k)) [
          | inl t ↦
              let e' = ==→eq k' k t in
              rw (t, new_word, e')
                (other_place m v i n (words k) in_field i'
                  (same_word m v r i r' i' hr hi hr' hi' other e'))
          | inr f ↦ rw f refl
        ] in
      get-eq (put_word m r i w') put_word-IsPageMap r' i' ∙ moved ∙ sym (get-eq m v r' i')

  pub put_word-Moved : Moved m r i n (put_word m r i w')
  put_word-Moved = record {
    valid = put_word-IsPageMap;
    same_regions = refl;
    same_counters = refl;
    same_mask = refl;
    here = put_word-here;
    there = put_word-there;
  }
