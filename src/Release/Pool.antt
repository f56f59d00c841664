-- ===== src/Release/Pool.antt =====
-- BufferPool of release.h: two static buffers of words, and buffers that are mapped when those are in
-- use or too small. A buffer is its owner's alone until it is released, so its words stand in it.
use Prim.Native.Nat.{bit_or, bit_xor}
use scudo.Common.{ℕ, ◌-◌, ◌*◌, ◌%◌, ◌^◌, Bool, true, false, ltb, ◌==◌, if◌then◌else◌}
use scudo.Arith.{least_significant_set_bit_index, round_up}

pub record Buffer : Type 0 where
  pub is_null : Bool
  pub words : ℕ → ℕ
  pub buffer_index : ℕ

abbrev pub static_buffer_count : ℕ
static_buffer_count = 2

abbrev pub static_buffer_num_elements : ℕ
static_buffer_num_elements = 512

-- A buffer that was not given yet.
abbrev pub no_buffer : Buffer
no_buffer = record { is_null = true; words = λ i. 0; buffer_index = 2 ^ 64 - 1 }

-- The bytes that are mapped for a buffer of its own.
unfoldable pub mapped_size : ℕ → ℕ → ℕ
unfolding round_up
mapped_size page_size num_elements = round_up (num_elements * 8 % 2 ^ 64) page_size

-- `map size` is whether the system maps that many bytes; they are zero.
unfoldable pub get_dynamic_buffer : (ℕ → Bool) → ℕ → ℕ → Buffer
unfolding mapped_size
get_dynamic_buffer map page_size num_elements =
    if map (mapped_size page_size num_elements)
    then record { is_null = false; words = λ i. 0; buffer_index = static_buffer_count }
    else no_buffer

-- The buffer and the mask of the static buffers that are not in use.
unfoldable pub get_buffer : (ℕ → Bool) → ℕ → ℕ → ℕ → Buffer × ℕ
unfolding least_significant_set_bit_index get_dynamic_buffer
get_buffer map page_size mask num_elements =
    if ltb static_buffer_num_elements num_elements
    then (get_dynamic_buffer map page_size num_elements, mask)
    else if ltb index static_buffer_count
    then (
      record { is_null = false; words = λ i. 0; buffer_index = index },
      bit_xor mask (2 ^ index),
    )
    else (get_dynamic_buffer map page_size num_elements, mask)
  where
    index : ℕ
    index = least_significant_set_bit_index mask

-- The mask afterwards. A mapped buffer is unmapped.
unfoldable pub release_buffer : ℕ → Buffer → ℕ
release_buffer mask b =
    if b.buffer_index == static_buffer_count then mask else bit_or mask (2 ^ b.buffer_index)
