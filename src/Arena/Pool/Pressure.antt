-- ===== src/Arena/Pool/Pressure.antt =====
-- The memory pressure that /proc/meminfo shows, of shared_arena_linux.cpp.
use scudo.Common.{
  ℕ, ◌-◌, ◌*◌, ◌/◌, ◌%◌, ◌^◌, Bool, true, false, ◌&&◌, ◌||◌, Option, none, some, List, [], ◌∷◌,
  ◌==◌, leb, if◌then◌else◌, sub_uptr, add_uptr,
}

-- Whether the text begins with the field's name, and what follows it.
unfoldable pub strip_prefix : List ℕ → List ℕ → Option (List ℕ)
strip_prefix [] text = some text
strip_prefix (f ∷ fs) [] = none
strip_prefix (f ∷ fs) (c ∷ cs) = elim (f == c) [ true ↦ strip_prefix fs cs | false ↦ none ]

-- ':', ' ' and '\t'.
unfoldable pub is_separator : ℕ → Bool
is_separator c = (c == 58) || (c == 32) || (c == 9)

unfoldable pub skip_separators : List ℕ → List ℕ
unfolding is_separator
skip_separators [] = []
skip_separators (c ∷ cs) = elim (is_separator c) [ true ↦ skip_separators cs | false ↦ c ∷ cs ]

unfoldable pub is_digit : ℕ → Bool
is_digit c = leb 48 c && leb c 57

-- The number that the digits continue.
unfoldable pub read_digits : ℕ → List ℕ → ℕ
unfolding is_digit
read_digits value [] = value
read_digits value (c ∷ cs) = elim (is_digit c) [
  | true ↦ read_digits (add_uptr (value * 10 % 2 ^ 64) (c - 48)) cs
  | false ↦ value
]

-- The search from a position: the flag says that it is at the start of a line.
unfoldable pub parse_from : List ℕ → Bool → List ℕ → ℕ
unfolding strip_prefix skip_separators read_digits
parse_from field line_start [] = 0
parse_from field line_start (c ∷ cs) = elim (strip_prefix field (c ∷ cs)) [
  | none ↦ parse_from field (c == 10) cs
  | some after ↦ elim line_start [
    | true ↦ read_digits 0 (skip_separators after)
    | false ↦ parse_from field (c == 10) cs
  ]
]

unfoldable pub parse_proc_mem_info_value : List ℕ → List ℕ → ℕ
unfolding parse_from
parse_proc_mem_info_value buf field = parse_from field true buf

-- "MemTotal" and "MemAvailable".
abbrev pub mem_total : List ℕ
mem_total = 77 ∷ 101 ∷ 109 ∷ 84 ∷ 111 ∷ 116 ∷ 97 ∷ 108 ∷ []

abbrev pub mem_available : List ℕ
mem_available = 77 ∷ 101 ∷ 109 ∷ 65 ∷ 118 ∷ 97 ∷ 105 ∷ 108 ∷ 97 ∷ 98 ∷ 108 ∷ 101 ∷ []

unfoldable pub usage_percent : ℕ → ℕ → ℕ
usage_percent total available = sub_uptr total available * 100 % 2 ^ 64 / total

-- `none` is a file that cannot be read. The threshold is what the environment or the default sets.
unfoldable pub check_memory_pressure : Option (List ℕ) → ℕ → Bool
unfolding usage_percent parse_proc_mem_info_value
check_memory_pressure none threshold = false
check_memory_pressure (some []) threshold = false
check_memory_pressure (some (c ∷ cs)) threshold =
    if total == 0 then false else leb threshold (usage_percent total available)
  where
    total : ℕ
    total = parse_proc_mem_info_value (c ∷ cs) mem_total

    available : ℕ
    available = parse_proc_mem_info_value (c ∷ cs) mem_available
