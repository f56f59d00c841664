-- ===== src/Combined/Calls.antt =====
-- allocate: a block from the primary or the secondary, and the chunk in it.
use scudo.Common.{
  ℕ, zero, suc, ◌-◌, not, Option, none, some, ◌==◌, ltb, leb, if◌then◌else◌, add_uptr, sub_uptr,
}
use scudo.Arith.{round_up}
use scudo.Chunk.{header_size}
use scudo.Combined.Chunks.{
  Report, alignment_too_big, allocation_size_too_big, out_of_memory, Outcome, returned, reported,
  Backends, Config, Allocator, init_chunk, min_alignment, max_alignment, max_allowed_malloc_size,
}

-- A request that cannot be met: no pointer, or a report.
abbrev pub refuse : {S : Type 0} → Config → Report → Allocator S → Outcome (Option ℕ × Allocator S)
refuse cfg r a = if cfg.may_return_null then returned (none, a) else reported r

-- A block, its class and its end; a block of a class has no end here.
pub record GivenBlock : Type 0 where
  pub class_id : ℕ
  pub block : ℕ
  pub block_end : ℕ

-- The larger classes in turn, as many of them as the number.
unfoldable pub allocate_larger : {S : Type 0} → Backends S → S → ℕ → ℕ → Option GivenBlock × S
allocate_larger b s class_id zero = (none, s)
allocate_larger b s class_id (suc n) =
    let r = b.cache_allocate s (suc class_id) in
    elim r.0 [
      | none ↦ allocate_larger b r.1 (suc class_id) n
      | some block ↦ (some (record { class_id = suc class_id; block = block; block_end = 0 }), r.1)
    ]

-- The class of a size that the primary can allocate is not 0.
unfoldable pub allocate_primary : {S : Type 0} → Backends S → S → ℕ → Option GivenBlock × S
unfolding allocate_larger
allocate_primary {S} b s needed_size =
    if b.can_allocate needed_size
    then elim r.0 [
      | none ↦ allocate_larger b r.1 class_id (b.largest_class_id - class_id)
      | some block ↦ (some (record { class_id = class_id; block = block; block_end = 0 }), r.1)
    ]
    else (none, s)
  where
    class_id : ℕ
    class_id = b.get_class_id_by_size needed_size

    r : Option ℕ × S
    r = b.cache_allocate s class_id

unfoldable pub allocate_block : {S : Type 0} → Backends S → S → ℕ → ℕ → ℕ → Option GivenBlock × S
unfolding allocate_primary
allocate_block b s needed_size size alignment =
    let p = allocate_primary b s needed_size in
    elim p.0 [
      | some g ↦ (some g, p.1)
      | none ↦
          let r = b.secondary_allocate p.1 size alignment in
          elim r.0 [
            | none ↦ (none, r.1)
            | some (block, block_end) ↦
                (some (record { class_id = 0; block = block; block_end = block_end }), r.1)
          ]
    ]

unfoldable pub needed_size : ℕ → ℕ → ℕ
unfolding round_up
needed_size size alignment =
    add_uptr (round_up size min_alignment)
      (if ltb min_alignment alignment then alignment else header_size)

-- The chunk in a block that was given.
unfoldable pub place_chunk :
    {S : Type 0} → Config → Allocator S → ℕ → ℕ → ℕ → GivenBlock → ℕ × Allocator S
place_chunk cfg a size origin alignment g = (
  user_ptr,
  init_chunk cfg a g.class_id origin g.block user_ptr
      (if not (g.class_id == 0) then size else sub_uptr g.block_end (add_uptr user_ptr size)),
)
  where
    user_ptr : ℕ
    user_ptr = round_up (add_uptr g.block header_size) alignment

-- With an alignment of at least the minimum.
unfoldable pub allocate_aligned :
    {S : Type 0} → Config → Backends S → Allocator S → ℕ → ℕ → ℕ → Outcome (Option ℕ × Allocator S)
unfolding allocate_block place_chunk needed_size
allocate_aligned cfg b a size origin alignment =
    if leb max_allowed_malloc_size size
    then refuse cfg allocation_size_too_big a
    else (let r = allocate_block b a.backend (needed_size size alignment) size alignment in
        let a' = record a { backend = r.1 } in
        elim r.0 [
          | none ↦ refuse cfg out_of_memory a'
          | some g ↦ let p = place_chunk cfg a' size origin alignment g in returned (some p.0, p.1)
        ])

unfoldable pub allocate :
    {S : Type 0} → Config → Backends S → Allocator S → ℕ → ℕ → ℕ → Outcome (Option ℕ × Allocator S)
unfolding allocate_aligned
allocate cfg b a size origin alignment =
    if ltb max_alignment alignment
    then refuse cfg alignment_too_big a
    else allocate_aligned cfg b a size origin
        (if ltb alignment min_alignment then min_alignment else alignment)
