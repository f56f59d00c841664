-- ===== src/Release/PageMap.antt =====
-- RegionPageMap of release.h: an array of counters, one for each page of each region, packed into words.
-- A counter takes a power of two of bits, so that a word has a power of two of counters.
pub mod Fields
pub mod Counters
pub mod Operations
pub mod Shape
use Prim.Native.Nat.{bit_or}
use scudo.Common.{
  ℕ, zero, suc, ◌+◌, ◌-◌, ◌*◌, ◌/◌, ◌%◌, ◌^◌, Bool, true, false, not, bit_and, min, ◌==◌,
  if◌then◌else◌, add_uptr, sub_uptr, update,
}
use scudo.Arith.{most_significant_set_bit_index, round_up_power_of_two, log2, round_up}
use scudo.Release.Pool.{Buffer, no_buffer, get_buffer, release_buffer}

pub record RegionPageMap : Type 0 where
  pub regions : ℕ
  pub num_counters : ℕ
  pub counter_size_bits_log : ℕ
  pub counter_mask : ℕ
  pub packing_ratio_log : ℕ
  pub bit_offset_mask : ℕ
  pub size_per_region : ℕ
  pub buffer_num_elements : ℕ
  pub buffer : Buffer

abbrev pub new_page_map : RegionPageMap
new_page_map = record {
  regions = 0;
  num_counters = 0;
  counter_size_bits_log = 0;
  counter_mask = 0;
  packing_ratio_log = 0;
  bit_offset_mask = 0;
  size_per_region = 0;
  buffer_num_elements = 0;
  buffer = no_buffer;
}

unfoldable pub is_allocated : RegionPageMap → Bool
is_allocated m = not m.buffer.is_null

-- The destructor: the mask of the pool afterwards.
unfoldable pub destroy : ℕ → RegionPageMap → ℕ
unfolding is_allocated release_buffer
destroy mask m = if not (is_allocated m) then mask else release_buffer mask m.buffer

-- The number of bits of a counter that can hold the value.
unfoldable pub bits_for : ℕ → ℕ
bits_for max_value = round_up_power_of_two (most_significant_set_bit_index max_value + 1)

-- The words of a region.
unfoldable pub words_for : ℕ → ℕ → ℕ
words_for num_counters ratio_log = round_up num_counters (2 ^ ratio_log) / 2 ^ ratio_log

-- The fields that `reset` computes, and the buffer it gets. The mask of the pool is the last component.
unfoldable pub reset : (ℕ → Bool) → ℕ → ℕ → ℕ → ℕ → ℕ → RegionPageMap × ℕ
reset map page_size pool number_of_region counters_per_region max_value = (
  record {
    regions = number_of_region;
    num_counters = counters_per_region;
    counter_size_bits_log = bits_log;
    counter_mask = (2 ^ 64 - 1) / 2 ^ (64 - bits_for max_value);
    packing_ratio_log = ratio_log;
    bit_offset_mask = 64 / 2 ^ bits_log - 1;
    size_per_region = words_for counters_per_region ratio_log;
    buffer_num_elements = elements;
    buffer = given.0;
  },
  given.1,
)
  where
    bits_log : ℕ
    bits_log = log2 (bits_for max_value)

    ratio_log : ℕ
    ratio_log = log2 (64 / 2 ^ bits_log)

    elements : ℕ
    elements = words_for counters_per_region ratio_log * number_of_region % 2 ^ 64

    given : Buffer × ℕ
    given = get_buffer map page_size pool elements

unfoldable pub word_index : RegionPageMap → ℕ → ℕ → ℕ
word_index m region i = add_uptr (region * m.size_per_region % 2 ^ 64) (i / 2 ^ m.packing_ratio_log)

unfoldable pub bit_offset : RegionPageMap → ℕ → ℕ
bit_offset m i = bit_and i m.bit_offset_mask * 2 ^ m.counter_size_bits_log % 2 ^ 64

-- The word that has the counter.
abbrev pub word : RegionPageMap → ℕ → ℕ → ℕ
word m region i = m.buffer.words (word_index m region i)

abbrev pub put_word : RegionPageMap → ℕ → ℕ → ℕ → RegionPageMap
put_word m region i w = record m {
  buffer = record m.buffer { words = update m.buffer.words (word_index m region i) w };
}

unfoldable pub get : RegionPageMap → ℕ → ℕ → ℕ
unfolding word_index bit_offset
get m region i = bit_and (word m region i / 2 ^ bit_offset m i) m.counter_mask

unfoldable pub inc : RegionPageMap → ℕ → ℕ → RegionPageMap
unfolding word_index bit_offset
inc m region i = put_word m region i (add_uptr (word m region i) (2 ^ bit_offset m i % 2 ^ 64))

unfoldable pub inc_n : RegionPageMap → ℕ → ℕ → ℕ → RegionPageMap
unfolding word_index bit_offset
inc_n m region i n =
    put_word m region i (add_uptr (word m region i) (n * 2 ^ bit_offset m i % 2 ^ 64))

-- The loop of `incRange`: that many counters from `i` on.
unfoldable pub inc_steps : RegionPageMap → ℕ → ℕ → ℕ → RegionPageMap
unfolding inc
inc_steps m region i zero = m
inc_steps m region i (suc n) = inc_steps (inc m region i) region (suc i) n

unfoldable pub inc_range : RegionPageMap → ℕ → ℕ → ℕ → RegionPageMap
unfolding inc_steps
inc_range m region from to = inc_steps m region from (min (add_uptr to 1) m.num_counters - from)

unfoldable pub set_as_all_counted : RegionPageMap → ℕ → ℕ → RegionPageMap
unfolding word_index bit_offset
set_as_all_counted m region i =
    put_word m region i (bit_or (word m region i) (m.counter_mask * 2 ^ bit_offset m i % 2 ^ 64))

unfoldable pub set_steps : RegionPageMap → ℕ → ℕ → ℕ → RegionPageMap
unfolding set_as_all_counted
set_steps m region i zero = m
set_steps m region i (suc n) = set_steps (set_as_all_counted m region i) region (suc i) n

unfoldable pub set_as_all_counted_range : RegionPageMap → ℕ → ℕ → ℕ → RegionPageMap
unfolding set_steps
set_as_all_counted_range m region from to =
    set_steps m region from (min (add_uptr to 1) m.num_counters - from)

unfoldable pub is_all_counted : RegionPageMap → ℕ → ℕ → Bool
unfolding get
is_all_counted m region i = get m region i == m.counter_mask

unfoldable pub update_as_all_counted_if : RegionPageMap → ℕ → ℕ → ℕ → Bool × RegionPageMap
unfolding get set_as_all_counted
update_as_all_counted_if m region i max_count =
    if get m region i == m.counter_mask
    then (true, m)
    else if get m region i == max_count
    then (true, set_as_all_counted m region i)
    else (false, m)
