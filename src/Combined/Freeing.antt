-- ===== src/Combined/Freeing.antt =====
-- deallocate and the recycling of the chunks that leave the quarantine.
use scudo.Common.{ℕ, Bool, not, ◌&&◌, ◌||◌, List, [], ◌∷◌, ◌==◌, leb, if◌then◌else◌, sub_uptr}
use scudo.Arith.{is_aligned}
use scudo.Chunk.Pack.{UnpackedHeader}
use scudo.Combined.Chunks.{
  misaligned_pointer, invalid_chunk_state, dealloc_type_mismatch, delete_size_mismatch, Outcome,
  returned, reported, ◌>>=◌, Backends, Config, Allocator, store, load, get_block_begin, get_size,
  available, allocated, quarantined, origin_malloc, origin_memalign, min_alignment,
}

-- A block goes back to the cache of the thread.
abbrev give_back : {S : Type 0} → Backends S → Allocator S → ℕ → ℕ → Bool × Allocator S
give_back b a class_id block =
    let r = b.cache_deallocate a.backend class_id block in (r.0, record a { backend = r.1 })

-- QuarantineCallback::recycle: a chunk leaves the quarantine.
unfoldable pub recycle :
    {S : Type 0} → Config → Backends S → Allocator S → ℕ → Outcome (Allocator S)
unfolding load get_block_begin
recycle cfg b a ptr = load cfg a ptr >>= λ h.
    if not (h.state == quarantined)
    then reported invalid_chunk_state
    else returned
        (give_back b (store cfg a ptr (record h { state = available })) h.class_id
          (get_block_begin ptr h)).1

unfoldable pub recycle_all :
    {S : Type 0} → Config → Backends S → List ℕ → Allocator S → Outcome (Allocator S)
unfolding recycle
recycle_all cfg b [] a = returned a
recycle_all cfg b (p ∷ ps) a = recycle cfg b a p >>= recycle_all cfg b ps

unfoldable pub bypass_quarantine : Config → ℕ → UnpackedHeader → Bool
bypass_quarantine cfg size h =
    (cfg.quarantine_cache_size == 0)
    || leb cfg.quarantine_max_chunk_size (sub_uptr size 1)
    || (h.class_id == 0)

-- The block of a chunk that does not go to the quarantine.
unfoldable pub release_block :
    {S : Type 0} → Backends S → Allocator S → ℕ → UnpackedHeader → Allocator S
unfolding get_block_begin
release_block b a ptr h =
    if h.class_id == 0
    then (let r = b.secondary_deallocate a.backend (get_block_begin ptr h) in
        record a { readable = λ q. a.readable q && not (r.0 q); backend = r.1 })
    else (let r = give_back b a h.class_id (get_block_begin ptr h) in
        if r.0
        then record r.1 { backend = b.try_release_to_os (Allocator.backend r.1) h.class_id }
        else r.1)

unfoldable pub quarantine_or_deallocate_chunk :
    {S : Type 0}
    → Config
    → Backends S
    → Allocator S
    → ℕ
    → UnpackedHeader
    → ℕ
    → Outcome (Allocator S)
unfolding bypass_quarantine release_block recycle_all
quarantine_or_deallocate_chunk {S} cfg b a ptr h size =
    if bypass
    then returned (release_block b stored ptr h)
    else (let r = b.quarantine_put stored.backend ptr size in
        recycle_all cfg b r.0 (record stored { backend = r.1 }))
  where
    bypass : Bool
    bypass = bypass_quarantine cfg size h

    stored : Allocator S
    stored =
        store cfg a ptr
          (record h { state = if bypass then available else quarantined; origin_or_was_zeroed = 0 })

-- Whether the origin of a chunk forbids the call.
unfoldable pub type_mismatch : Config → UnpackedHeader → ℕ → Bool
type_mismatch cfg h origin =
    cfg.check_dealloc_type
    && not (h.origin_or_was_zeroed == origin)
    && (not (h.origin_or_was_zeroed == origin_memalign) || not (origin == origin_malloc))

-- The checks of a header and what follows.
unfoldable pub deallocate_chunk :
    {S : Type 0}
    → Config
    → Backends S
    → Allocator S
    → ℕ
    → ℕ
    → ℕ
    → UnpackedHeader
    → Outcome (Allocator S)
unfolding type_mismatch get_size quarantine_or_deallocate_chunk
deallocate_chunk cfg b a ptr origin delete_size h =
    if not (h.state == allocated)
    then reported invalid_chunk_state
    else if type_mismatch cfg h origin
    then reported dealloc_type_mismatch
    else if not (delete_size == 0)
        && cfg.check_delete_size
        && not (delete_size == get_size b a.backend ptr h)
    then reported delete_size_mismatch
    else quarantine_or_deallocate_chunk cfg b a ptr h (get_size b a.backend ptr h)

unfoldable pub deallocate :
    {S : Type 0} → Config → Backends S → Allocator S → ℕ → ℕ → ℕ → Outcome (Allocator S)
unfolding load deallocate_chunk
deallocate cfg b a ptr origin delete_size =
    if ptr == 0
    then returned a
    else if not (is_aligned ptr min_alignment)
    then reported misaligned_pointer
    else load cfg a ptr >>= deallocate_chunk cfg b a ptr origin delete_size
