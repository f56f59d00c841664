-- ===== src/SizeClassMap/Fixed.antt =====
-- FixedSizeClassMap of size_class_map.h.
use scudo.Common.{ℕ, ◌+◌, ◌-◌, ◌*◌, ◌/◌, ◌%◌, ◌^◌, bit_and, leb, if◌then◌else◌, add_uptr, sub_uptr}
use scudo.Arith.{least_significant_set_bit_index}
use scudo.SizeClassMap.{scaled_log2}
use scudo.SizeClassMap.Configs.{Config}

abbrev pub mid_size : Config → ℕ
mid_size config = 2 ^ config.mid_size_log

-- `MidSize / MinSize`.
abbrev pub mid_class : Config → ℕ
mid_class config = mid_size config / 2 ^ config.min_size_log

-- `S`.
abbrev pub sub_bits : Config → ℕ
sub_bits config = config.num_bits - 1

abbrev pub max_size : Config → ℕ
max_size config = 2 ^ config.max_size_log + config.size_delta

abbrev pub num_classes : Config → ℕ
num_classes config =
    mid_class config + (config.max_size_log - config.mid_size_log) * 2 ^ sub_bits config + 1

unfoldable pub get_size_by_class_id : Config → ℕ → ℕ
get_size_by_class_id config id =
    if leb id (mid_class config)
    then add_uptr (id * 2 ^ config.min_size_log % 2 ^ 64) config.size_delta
    else add_uptr
        (add_uptr t (t / 2 ^ sub_bits config * bit_and above (2 ^ sub_bits config - 1) % 2 ^ 64))
        config.size_delta
  where
    above : ℕ
    above = id - mid_class config

    t : ℕ
    t = mid_size config * 2 ^ (above / 2 ^ sub_bits config) % 2 ^ 64

unfoldable pub get_size_lsb_by_class_id : Config → ℕ → ℕ
unfolding get_size_by_class_id least_significant_set_bit_index
get_size_lsb_by_class_id config id =
    least_significant_set_bit_index (get_size_by_class_id config id) % 2 ^ 8

unfoldable pub get_class_id_by_size : Config → ℕ → ℕ
unfolding scaled_log2
get_class_id_by_size config size =
    if leb size (config.size_delta + 2 ^ config.min_size_log)
    then 1
    else if leb inner (mid_size config)
    then sub_uptr (add_uptr inner (2 ^ config.min_size_log)) 1 / 2 ^ config.min_size_log
    else add_uptr (mid_class config + 1)
        (scaled_log2 (sub_uptr inner 1) config.mid_size_log (sub_bits config))
  where
    inner : ℕ
    inner = sub_uptr size config.size_delta
