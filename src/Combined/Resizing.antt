-- ===== src/Combined/Resizing.antt =====
-- The sizes of a chunk, and reallocate.
use scudo.Common.{
  ℕ, ◌%◌, ◌^◌, not, ◌&&◌, ◌||◌, Option, none, some, ◌==◌, ltb, leb, if◌then◌else◌, add_uptr,
  sub_uptr,
}
use scudo.Arith.{is_aligned}
use scudo.Chunk.Pack.{UnpackedHeader}
use scudo.Combined.Chunks.{
  allocation_size_too_big, misaligned_pointer, invalid_chunk_state, dealloc_type_mismatch, Outcome,
  returned, reported, ◌>>=◌, Backends, Config, Allocator, store, load, get_block_begin, get_size,
  allocated, origin_malloc, min_alignment, max_allowed_malloc_size,
}
use scudo.Combined.Calls.{refuse, allocate}
use scudo.Combined.Freeing.{quarantine_or_deallocate_chunk}

unfoldable pub get_alloc_size : {S : Type 0} → Config → Backends S → Allocator S → ℕ → Outcome ℕ
unfolding load get_size
get_alloc_size cfg b a ptr = load cfg a ptr >>= λ h.
    if not (h.state == allocated)
    then reported invalid_chunk_state
    else returned (get_size b a.backend ptr h)

unfoldable pub get_usable_size : {S : Type 0} → Config → Backends S → Allocator S → ℕ → Outcome ℕ
unfolding get_alloc_size
get_usable_size cfg b a ptr = if ptr == 0 then returned 0 else get_alloc_size cfg b a ptr

-- The end of the block of a chunk.
unfoldable pub block_end_of : {S : Type 0} → Backends S → S → ℕ → UnpackedHeader → ℕ
unfolding get_block_begin
block_end_of b s ptr h =
    if not (h.class_id == 0)
    then add_uptr (get_block_begin ptr h) (b.get_size_by_class_id h.class_id)
    else b.secondary_block_end s (get_block_begin ptr h)

unfoldable pub resize_in_place :
    {S : Type 0} → Config → Allocator S → ℕ → UnpackedHeader → ℕ → ℕ → Allocator S
resize_in_place cfg a ptr h block_end new_size = store cfg a ptr (record h {
  size_or_unused_bytes =
      (if not (h.class_id == 0) then new_size else sub_uptr block_end (add_uptr ptr new_size))
      % 2 ^ 20;
})

-- A new chunk, and the old one freed. `NewPtr` is null when there is no memory.
unfoldable pub move_chunk :
    {S : Type 0}
    → Config
    → Backends S
    → Allocator S
    → ℕ
    → UnpackedHeader
    → ℕ
    → ℕ
    → ℕ
    → Outcome (Option ℕ × Allocator S)
unfolding allocate quarantine_or_deallocate_chunk
move_chunk cfg b a ptr h old_size new_size alignment =
    allocate cfg b a new_size origin_malloc alignment >>= λ r. elim r.0 [
      | none ↦ returned (none, r.1)
      | some new_ptr ↦ quarantine_or_deallocate_chunk cfg b r.1 ptr h old_size >>= λ a'.
          returned (some new_ptr, a')
    ]

unfoldable pub reallocate_chunk :
    {S : Type 0}
    → Config
    → Backends S
    → Allocator S
    → ℕ
    → ℕ
    → ℕ
    → UnpackedHeader
    → Outcome (Option ℕ × Allocator S)
unfolding block_end_of resize_in_place move_chunk
reallocate_chunk cfg b a ptr new_size alignment h =
    if not (h.state == allocated)
    then reported invalid_chunk_state
    else if cfg.check_dealloc_type && not (h.origin_or_was_zeroed == origin_malloc)
    then reported dealloc_type_mismatch
    else if leb (add_uptr ptr new_size) block_end
        && (ltb old_size new_size || ltb (sub_uptr old_size new_size) cfg.page_size)
    then returned (some ptr, resize_in_place cfg a ptr h block_end new_size)
    else move_chunk cfg b a ptr h old_size new_size alignment
  where
    block_end : ℕ
    block_end = block_end_of b a.backend ptr h

    old_size : ℕ
    old_size =
        if not (h.class_id == 0)
        then h.size_or_unused_bytes
        else sub_uptr block_end (add_uptr ptr h.size_or_unused_bytes)

unfoldable pub reallocate :
    {S : Type 0} → Config → Backends S → Allocator S → ℕ → ℕ → ℕ → Outcome (Option ℕ × Allocator S)
unfolding load reallocate_chunk
reallocate cfg b a ptr new_size alignment =
    if leb max_allowed_malloc_size new_size
    then refuse cfg allocation_size_too_big a
    else if not (is_aligned ptr min_alignment)
    then reported misaligned_pointer
    else load cfg a ptr >>= reallocate_chunk cfg b a ptr new_size alignment
