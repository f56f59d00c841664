-- ===== src/Release/PageMap/Operations.antt =====
-- What the operations of the page map do to the counters.
use Prim.Native.Nat.{bit_or}
use scudo.Common.{
  ℕ, zero, suc, ◌+◌, ◌-◌, ◌*◌, ◌%◌, ◌^◌, ◌≤◌, ◌<◌, ◌≡◌, ◌≢◌, ◌⊎◌, inl, inr, refl, sym, ap, ap₂, ◌∙◌,
  subst, arith, true, false, Bool, ◌&&◌, ◌||◌, Bool-cases, ◌==◌, ==→eq, ==→ne, add_uptr, ltb, leb,
  if◌then◌else◌, min,
}
use native.Mathlib.Nat.{mod-eq_of_lt, pow-le-pow_right}
use scudo.Common.Bits.{pow_pos, pow_add}
use scudo.Release.PageMap.{
  RegionPageMap, bit_offset, word, get, inc, inc_n, inc_steps, inc_range, set_as_all_counted,
  update_as_all_counted_if,
}
use scudo.Release.PageMap.Fields.{bit_or-fills}
use scudo.Release.PageMap.Counters.{
  IsPageMap, Moved, put_word-Moved, stays_word, bit_offset-eq, place, place-lt, bits, get-eq,
}

-- One counter: what is added stays below the mask.
module _ (m : RegionPageMap) (v : IsPageMap m) (r i : ℕ) (hr : r < m.regions)
    (hi : i < m.num_counters) where
  module _ (n : ℕ) (room : get m r i + n ≤ m.counter_mask) where
    no_wrap : word m r i + n * 2 ^ bit_offset m i < 2 ^ 64
    no_wrap = rw (bit_offset-eq m v i) (
        stays_word m v i n (word m r i)
          (omega (arith, get-eq m v r i, v.mask, room, pow_pos (bits m v))) (v.small _))

    pub inc_n-Moved : Moved m r i n (inc_n m r i n)
    unfolding inc_n
    inc_n-Moved = put_word-Moved m v r i n _ hr hi room (omega (arith, no_wrap))

  pub inc-Moved : get m r i < m.counter_mask → Moved m r i 1 (inc m r i)
  unfolding inc
  inc-Moved room =
      put_word-Moved m v r i 1 _ hr hi (omega (arith, room))
        (omega (arith, no_wrap 1 (omega (arith, room))))

  get-le : get m r i ≤ m.counter_mask
  get-le = omega (arith, get-eq m v r i, v.mask, pow_pos (bits m v))

  fills :
      bit_or (word m r i) (m.counter_mask * 2 ^ bit_offset m i % 2 ^ 64)
      ≡ word m r i + (m.counter_mask - get m r i) * 2 ^ bit_offset m i
  fills =
      let o = place m v i in
      let b = bits m v in
      let power : 2 ^ b * 2 ^ o ≤ 2 ^ 64 =
        subst (λ (t : ℕ). t ≤ 2 ^ 64) (sym (pow_add b o))
          (pow-le-pow_right {n = 2} (omega arith) {i = b + o} {j = 64}
            (omega (arith, place-lt m v i))) in
      let mask : (2 ^ b - 1) * 2 ^ o < 2 ^ 64 = grind (arith, pow_pos b, pow_pos o) in
      ap (λ (t : ℕ). bit_or (word m r i) (t % 2 ^ 64))
        (ap₂ (λ (s t : ℕ). s * 2 ^ t) v.mask (bit_offset-eq m v i))
      ∙ ap (λ (t : ℕ). bit_or (word m r i) t) (mod-eq_of_lt mask)
      ∙ bit_or-fills (word m r i) o b
      ∙ ap₂ (λ (s t : ℕ). word m r i + s * 2 ^ t)
          (ap₂ (λ (s t : ℕ). s - t) (sym v.mask) (sym (get-eq m v r i))) (sym (bit_offset-eq m v i))

  pub set_as_all_counted-Moved : Moved m r i (m.counter_mask - get m r i) (set_as_all_counted m r i)
  unfolding set_as_all_counted
  set_as_all_counted-Moved =
      put_word-Moved m v r i (m.counter_mask - get m r i) _ hr hi (omega (arith, get-le)) fills

-- 1 in a range and 0 outside it.
abbrev pub within : ℕ → ℕ → ℕ → ℕ
within from to j = if leb from j && ltb j to then 1 else 0

-- The map with one more at the pages from `from` to `to`, which is excluded, of a region.
pub record Counted (m : RegionPageMap) (r from to : ℕ) (m' : RegionPageMap) : Type 0 where
  pub valid : IsPageMap m'
  pub same_regions : m'.regions ≡ m.regions
  pub same_counters : m'.num_counters ≡ m.num_counters
  pub same_mask : m'.counter_mask ≡ m.counter_mask
  pub page : (j : ℕ) → j < m.num_counters → get m' r j ≡ get m r j + within from to j
  pub elsewhere :
      (r' j : ℕ) → r' < m.regions → j < m.num_counters → r' ≢ r → get m' r' j ≡ get m r' j

inc_steps-Counted :
    (k : ℕ) (m : RegionPageMap) (r i to : ℕ)
    → IsPageMap m
    → r < m.regions
    → i + k ≡ to
    → to ≤ m.num_counters
    → ((j : ℕ) → i ≤ j → j < to → get m r j < m.counter_mask)
    → Counted m r i to (inc_steps m r i k)
unfolding inc_steps
inc_steps-Counted zero m r i to v hr e fits low = record {
  valid = v;
  same_regions = refl;
  same_counters = refl;
  same_mask = refl;
  page = λ j h. ground arith;
  elsewhere = λ r' j hr' h other. refl;
}
inc_steps-Counted (suc k) m r i to v hr e fits low =
    let one = inc-Moved m v r i hr (omega arith) (low i (omega arith) (omega arith)) in
    let m' = inc m r i in
    let step : (j : ℕ)
        → j < m.num_counters
        → get m' r j + within (suc i) to j ≡ get m r j + within i to j =
      λ j h. elim (Bool-cases (j == i)) [
        | inl t ↦
            let e' = ==→eq j i t in
            let at =
              ap (λ (t : ℕ). get m' r t) e' ∙ one.here ∙ ap (λ (t : ℕ). get m r t + 1) (sym e') in
            ground (arith, at)
        | inr f ↦
            let at = one.there r j hr h (inr (==→ne j i f)) in
            let ne = ==→ne j i f in ground (arith, at)
      ] in
    let later =
      inc_steps-Counted k m' r (suc i) to one.valid (omega (arith, one.same_regions)) (omega arith)
        (omega (arith, one.same_counters))
        (λ j from below. omega (
          arith,
          one.same_mask,
          low j (omega arith) below,
          one.there r j hr (omega arith) (inr (omega arith)),
        )) in
    record {
      valid = later.valid;
      same_regions = later.same_regions ∙ one.same_regions;
      same_counters = later.same_counters ∙ one.same_counters;
      same_mask = later.same_mask ∙ one.same_mask;
      page = λ j h. later.page j (omega (arith, one.same_counters)) ∙ step j h;
      elsewhere = λ r' j hr' h other.
          later.elsewhere r' j (omega (arith, one.same_regions)) (omega (arith, one.same_counters))
            other
          ∙ one.there r' j hr' h (inl other);
    }

pub inc-Counted :
    (m : RegionPageMap) (r i : ℕ)
    → IsPageMap m
    → r < m.regions
    → i < m.num_counters
    → get m r i < m.counter_mask
    → Counted m r i (suc i) (inc m r i)
unfolding inc inc_steps
inc-Counted m r i v hr hi low =
    inc_steps-Counted 1 m r i (suc i) v hr (omega arith) (omega (arith, hi)) (λ j from below.
      let e : j ≡ i = omega arith in subst (λ (t : ℕ). get m r t < m.counter_mask) (sym e) low)

-- In a page map of fewer than 2^64 counters that is set up, with a region of it and a range of
-- its pages whose counters are below the mask: incRange adds one to the counter of each page of
-- the range, leaves every other counter of all regions, and the map stays set up.
pub inc_range-Counted :
    (m : RegionPageMap) (r from to : ℕ)
    → IsPageMap m
    → r < m.regions
    → from ≤ to
    → to < m.num_counters
    → m.num_counters < 2 ^ 64
    → ((j : ℕ) → from ≤ j → j ≤ to → get m r j < m.counter_mask)
    → Counted m r from (suc to) (inc_range m r from to)
unfolding inc_range
inc_range-Counted m r from to v hr order inside fits low =
    let top : min (add_uptr to 1) m.num_counters ≡ suc to = omega arith in
    rw top (
      inc_steps-Counted (suc to - from) m r from (suc to) v hr (omega (arith, order))
        (omega (arith, inside)) (λ j h below. low j h (omega (arith, below))))

-- A page is found full, and stays so, exactly when its counter has the expected number or is full already.
pub record Updated (m : RegionPageMap) (r i n : ℕ) (b : Bool) (m' : RegionPageMap) : Type 0 where
  pub valid : IsPageMap m'
  pub same_regions : m'.regions ≡ m.regions
  pub same_counters : m'.num_counters ≡ m.num_counters
  pub same_mask : m'.counter_mask ≡ m.counter_mask
  pub found : b ≡ ((get m r i == m.counter_mask) || (get m r i == n))
  pub others :
      (r' j : ℕ)
      → r' < m.regions
      → j < m.num_counters
      → (r' ≢ r) ⊎ (j ≢ i)
      → get m' r' j ≡ get m r' j

module _ (m : RegionPageMap) (r i n : ℕ) (v : IsPageMap m) (hr : r < m.regions)
    (hi : i < m.num_counters) where
  chosen :
      (p q : Bool)
      → (p || q) ≡ ((get m r i == m.counter_mask) || (get m r i == n))
      → let done : Bool × RegionPageMap =
          if p then (true, m) else if q then (true, set_as_all_counted m r i) else (false, m) in
        Updated m r i n done.0 done.1
  chosen true q e = record {
    valid = v;
    same_regions = refl;
    same_counters = refl;
    same_mask = refl;
    found = e;
    others = λ r' j hr' h other. refl;
  }
  chosen false true e =
      let k = set_as_all_counted-Moved m v r i hr hi in
      record {
        valid = k.valid;
        same_regions = k.same_regions;
        same_counters = k.same_counters;
        same_mask = k.same_mask;
        found = e;
        others = k.there;
      }
  chosen false false e = record {
    valid = v;
    same_regions = refl;
    same_counters = refl;
    same_mask = refl;
    found = e;
    others = λ r' j hr' h other. refl;
  }

  pub update_as_all_counted_if-Updated :
      Updated m r i n (update_as_all_counted_if m r i n).0 (update_as_all_counted_if m r i n).1
  unfolding update_as_all_counted_if
  update_as_all_counted_if-Updated = chosen (get m r i == m.counter_mask) (get m r i == n) refl
