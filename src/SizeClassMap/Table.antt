-- ===== src/SizeClassMap/Table.antt =====
-- TableSizeClassMap of size_class_map.h.
use scudo.Common.{
  ℕ, zero, suc, ◌+◌, ◌-◌, ◌*◌, ◌/◌, ◌%◌, ◌^◌, Bool, true, false, ◌||◌, List, [], ◌∷◌, bit_and, ltb,
  leb, ◌==◌, if◌then◌else◌, add_uptr, sub_uptr, length,
}
use scudo.Arith.{lowest_bit}
use scudo.SizeClassMap.{scaled_log2}
use scudo.SizeClassMap.Configs.{Config}

-- `A[i]` for an `i` below the length.
unfoldable pub at : List ℕ → ℕ → ℕ
at [] i = 0
at (x ∷ xs) zero = x
at (x ∷ xs) (suc i) = at xs i

-- `computeClassId` from the class `i` on.
unfoldable pub class_from : List ℕ → ℕ → ℕ → ℕ
class_from [] i size = 255
class_from (c ∷ cs) i size =
    let rest = class_from cs (suc i) size in if leb size c then (i + 1) % 2 ^ 8 else rest

unfoldable pub compute_class_id : Config → ℕ → ℕ
unfolding class_from
compute_class_id config size = class_from config.classes 0 size

abbrev pub table_bits : Config → ℕ
table_bits config = config.num_bits - 1

unfoldable pub get_table_size : Config → ℕ
get_table_size config = (config.max_size_log - config.mid_size_log) * 2 ^ table_bits config % 2 ^ 64

-- The loop that fills `left` more entries of the table.
unfoldable pub fill_table : Config → ℕ → ℕ → ℕ → List ℕ
unfolding compute_class_id
fill_table config zero pos inc = []
fill_table config (suc left) pos inc =
    compute_class_id config (add_uptr next config.size_delta)
    ∷ fill_table config left next (if bit_and next (next - 1) == 0 then inc * 2 % 2 ^ 64 else inc)
  where
    next : ℕ
    next = add_uptr pos inc

unfoldable pub size_table : Config → List ℕ
unfolding fill_table get_table_size
size_table config =
    fill_table config (get_table_size config) (2 ^ config.mid_size_log)
      (2 ^ (config.mid_size_log - table_bits config))

unfoldable pub get_size_by_class_id : Config → ℕ → ℕ
unfolding at
get_size_by_class_id config id = at config.classes (id - 1)

unfoldable pub get_class_id_by_size : Config → ℕ → ℕ
unfolding at size_table scaled_log2
get_class_id_by_size config size =
    if leb size (at config.classes 0)
    then 1
    else if leb inner (2 ^ config.mid_size_log)
    then sub_uptr inner 1 / 2 ^ config.min_size_log + 1
    else at (size_table config)
        (scaled_log2 (sub_uptr inner 1) config.mid_size_log (table_bits config))
  where
    inner : ℕ
    inner = sub_uptr size config.size_delta

-- The lowest bits of the classes, `LSBTable::Tab`.
unfoldable pub lsb_table : List ℕ → List ℕ
unfolding lowest_bit
lsb_table [] = []
lsb_table (c ∷ cs) = lowest_bit 63 c ∷ lsb_table cs

unfoldable pub min_of : ℕ → List ℕ → ℕ
min_of m [] = m
min_of m (x ∷ xs) = min_of (if ltb x m then x else m) xs

unfoldable pub max_of : ℕ → List ℕ → ℕ
max_of m [] = m
max_of m (x ∷ xs) = max_of (if ltb m x then x else m) xs

unfoldable pub uses_compressed_lsb_format : Config → Bool
unfolding lsb_table min_of max_of
uses_compressed_lsb_format config =
    if ltb 3 (max_of 0 tab - min_of 255 tab) || ltb 32 (length config.classes) then false else true
  where
    tab : List ℕ
    tab = lsb_table config.classes

-- `CompressedValue`: two bits for each class. They do not overlap, so that `|` adds them.
unfoldable pub compress : ℕ → ℕ → List ℕ → ℕ
compress low i [] = 0
compress low i (x ∷ xs) = ((x - low) * 2 ^ (i * 2) + compress low (suc i) xs) % 2 ^ 64

unfoldable pub get_size_lsb_by_class_id : Config → ℕ → ℕ
unfolding uses_compressed_lsb_format compress at lsb_table min_of
get_size_lsb_by_class_id config id =
    if uses_compressed_lsb_format config
    then (bit_and (compress low 0 tab / 2 ^ ((id - 1) * 2)) 3 + low) % 2 ^ 8
    else at tab (id - 1)
  where
    tab : List ℕ
    tab = lsb_table config.classes

    low : ℕ
    low = min_of 255 tab
