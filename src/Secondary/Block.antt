-- ===== src/Secondary/Block.antt =====
-- The blocks of the secondary cache, the mappings that hold them, and the system calls on these.
use scudo.Common.{
  ℕ, ◌+◌, ◌*◌, ◌%◌, ◌^◌, ◌-◌, Bool, true, false, ◌&&◌, List, [], ◌∷◌, ltb, leb, if◌then◌else◌,
  add_uptr, sub_uptr, ◌==◌, not,
}

-- Signed numbers, for s32 and sptr.
pub data ℤ : Type 0 where
  pos : ℕ → ℤ
  negsuc : ℕ → ℤ

abbrev pub le_z : ℤ → ℤ → Bool
le_z (pos m) (pos n) = leb m n
le_z (pos m) (negsuc n) = false
le_z (negsuc m) (pos n) = true
le_z (negsuc m) (negsuc n) = leb n m

abbrev pub min_z : ℤ → ℤ → ℤ
min_z a b = if le_z a b then a else b

abbrev pub max_z : ℤ → ℤ → ℤ
max_z a b = if le_z a b then b else a

-- The s32 with the bits of a u32, and the casts from the 64-bit sptr.
abbrev pub of_u32 : ℕ → ℤ
of_u32 m = if ltb m (2 ^ 31) then pos m else negsuc (2 ^ 32 - 1 - m)

abbrev pub to_u32 : ℤ → ℕ
to_u32 (pos m) = m % 2 ^ 32
to_u32 (negsuc m) = 2 ^ 32 - 1 - m % 2 ^ 32

abbrev pub to_uptr : ℤ → ℕ
to_uptr (pos m) = m % 2 ^ 64
to_uptr (negsuc m) = 2 ^ 64 - 1 - m % 2 ^ 64

abbrev pub is_negative : ℤ → Bool
is_negative (pos m) = false
is_negative (negsuc m) = true

pub record MemMap : Type 0 where
  pub map_base : ℕ
  pub map_capacity : ℕ

pub record CachedBlock : Type 0 where
  pub commit_base : ℕ
  pub commit_size : ℕ
  pub block_begin : ℕ
  pub mem_map : MemMap
  pub time : ℕ

unfoldable pub no_block : CachedBlock
no_block = record {
  commit_base = 0;
  commit_size = 0;
  block_begin = 0;
  mem_map = record { map_base = 0; map_capacity = 0 };
  time = 0;
}

unfoldable pub is_valid_block : CachedBlock → Bool
is_valid_block b = not (b.commit_base == 0)

unfoldable pub invalidate : CachedBlock → CachedBlock
invalidate b = record b { commit_base = 0 }

-- What is asked of the system, in order: the whole of a mapping is unmapped, or a range of it is
-- mapped anew, made accessible or inaccessible, or released.
pub data Call : Type 0 where
  unmap : MemMap → Call
  remap : MemMap → ℕ → ℕ → ℕ → Call
  set_memory_permission : MemMap → ℕ → ℕ → ℕ → Call
  release_and_zero_pages : MemMap → ℕ → ℕ → Call

-- MAP_ALLOWNOMEM, MAP_NOACCESS, MAP_RESIZABLE and MAP_MEMTAG of common.h.
abbrev pub map_allow_no_mem : ℕ
map_allow_no_mem = 1

abbrev pub map_no_access : ℕ
map_no_access = 2

abbrev pub map_resizable : ℕ
map_resizable = 4

abbrev pub map_mem_tag : ℕ
map_mem_tag = 8

abbrev pub max_unreleased_cache_pages : ℕ
max_unreleased_cache_pages = 4

abbrev pub max_released_cache_pages : ℕ
max_released_cache_pages = 4

abbrev pub max : ℕ → ℕ → ℕ
max a b = if ltb a b then b else a

-- Makes the range accessible, with tags in its first part only if it is large. `remap_ok` tells
-- whether the system grants a call; the second call is made only after the first was granted. The
-- flags are disjoint bits, so their union is their sum. This is the branch of Linux.
unfoldable pub map_secondary : ℕ → Bool → (Call → Bool) → ℕ → ℕ → ℕ → ℕ → MemMap → Bool × List Call
map_secondary page_size tagging remap_ok commit_base commit_size alloc_pos more_flags mem_map =
    if tagging && ltb max_unreleased_cache_bytes commit_size
    then if remap_ok tagged
      then (remap_ok untagged, tagged ∷ untagged ∷ [])
      else (false, tagged ∷ [])
    else (remap_ok whole, whole ∷ [])
  where
    flags : ℕ
    flags = more_flags + map_resizable + map_allow_no_mem

    max_unreleased_cache_bytes : ℕ
    max_unreleased_cache_bytes = max_unreleased_cache_pages * page_size % 2 ^ 64

    untagged_pos : ℕ
    untagged_pos = max alloc_pos (add_uptr commit_base max_unreleased_cache_bytes)

    tagged : Call
    tagged = remap mem_map commit_base (sub_uptr untagged_pos commit_base) (map_mem_tag + flags)

    untagged : Call
    untagged =
        remap mem_map untagged_pos (sub_uptr (add_uptr commit_base commit_size) untagged_pos) flags

    whole : Call
    whole = remap mem_map commit_base commit_size ((if tagging then map_mem_tag else 0) + flags)
