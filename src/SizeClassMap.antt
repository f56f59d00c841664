-- ===== src/SizeClassMap.antt =====
-- size_class_map.h: the maps from allocation sizes to classes and back, by a formula and by a table,
-- with the configurations that the header defines.
pub mod Fixed
pub mod Table
pub mod Validate
pub mod Configs
use scudo.Common.{
  ℕ, ◌+◌, ◌-◌, ◌*◌, ◌/◌, ◌%◌, ◌^◌, Bool, ◌||◌, ltb, if◌then◌else◌, add_uptr, sub_uptr,
}
use scudo.Arith.{most_significant_set_bit_index}
use scudo.SizeClassMap.Configs.{Config}

-- Called with sizes whose highest bit is at least `zero_log`, so that the shift is not negative.
unfoldable pub scaled_log2 : ℕ → ℕ → ℕ → ℕ
unfolding most_significant_set_bit_index
scaled_log2 size zero_log log_bits = add_uptr l_bits h_bits
  where
    l : ℕ
    l = most_significant_set_bit_index size

    l_bits : ℕ
    l_bits = sub_uptr (size / 2 ^ (l - log_bits)) (2 ^ log_bits)

    h_bits : ℕ
    h_bits = sub_uptr l zero_log * 2 ^ log_bits % 2 ^ 64

max : ℕ → ℕ → ℕ
max a b = if ltb a b then b else a

min : ℕ → ℕ → ℕ
min a b = if ltb a b then a else b

-- How many chunks of a size a thread's cache should hold.
unfoldable pub get_max_cached_hint : Config → ℕ → ℕ
unfolding max min
get_max_cached_hint config size = max 1 (min config.max_num_cached_hint n) % 2 ^ 16
  where
    n : ℕ
    n =
        if ltb 31 config.max_bytes_cached_log || ltb 31 config.max_size_log
        then (2 ^ config.max_bytes_cached_log % 2 ^ 64 / size) % 2 ^ 32
        else 2 ^ config.max_bytes_cached_log % 2 ^ 32 / (size % 2 ^ 32)
