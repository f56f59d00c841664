-- ===== src/Combined/Chunks.antt =====
-- The chunk in a block: where it starts, its header, and its size.
use scudo.Common.{
  ℕ, ◌+◌, ◌*◌, ◌/◌, ◌%◌, ◌^◌, Bool, true, false, not, ◌&&◌, Option, none, some, List, ◌==◌, ltb,
  if◌then◌else◌, add_uptr, sub_uptr, update,
}
use scudo.Arith.{is_aligned}
use scudo.Chunk.{Checksum, header_size, header_addr, store_header, load_header, is_valid}
use scudo.Chunk.Pack.{UnpackedHeader, unpack}

-- What ends the process with a report.
pub data Report : Type 0 where
  alignment_too_big : Report
  allocation_size_too_big : Report
  out_of_memory : Report
  misaligned_pointer : Report
  corrupted_header : Report
  invalid_chunk_state : Report
  dealloc_type_mismatch : Report
  delete_size_mismatch : Report

-- A call returns, or ends the process, with a report or by an access to memory that is not mapped.
pub data Outcome (A : Type 0) : Type 0 where
  returned : A → Outcome A
  reported : Report → Outcome A
  faulted : Outcome A

infixl 5 ◌>>=◌
abbrev pub ◌>>=◌ : {A B : Type 0} → Outcome A → (A → Outcome B) → Outcome B
returned a >>= f = f a
reported r >>= f = reported r
faulted >>= f = faulted

-- Chunk::State and Chunk::Origin.
abbrev pub available : ℕ
available = 0

abbrev pub allocated : ℕ
allocated = 1

abbrev pub quarantined : ℕ
quarantined = 2

abbrev pub origin_malloc : ℕ
origin_malloc = 0

abbrev pub origin_memalign : ℕ
origin_memalign = 3

abbrev pub min_alignment : ℕ
min_alignment = 16

abbrev pub max_alignment : ℕ
max_alignment = 2 ^ 24

abbrev pub max_allowed_malloc_size : ℕ
max_allowed_malloc_size = 2 ^ 40

abbrev pub block_marker : ℕ
block_marker = 0x44554353

-- What the allocator asks of the parts below it, with `S` for their state. A secondary block comes with
-- its end; `secondary_deallocate` gives the addresses that it unmaps, none where the cache or an arena
-- keeps the block; `quarantine_put` gives the chunks that are to be recycled, in order.
pub record Backends (S : Type 0) : Type 0 where
  pub can_allocate : ℕ → Bool
  pub get_class_id_by_size : ℕ → ℕ
  pub get_size_by_class_id : ℕ → ℕ
  pub largest_class_id : ℕ
  pub cache_allocate : S → ℕ → Option ℕ × S
  pub cache_deallocate : S → ℕ → ℕ → Bool × S
  pub try_release_to_os : S → ℕ → S
  pub secondary_allocate : S → ℕ → ℕ → Option (ℕ × ℕ) × S
  pub secondary_deallocate : S → ℕ → (ℕ → Bool) × S
  pub secondary_block_end : S → ℕ → ℕ
  pub quarantine_put : S → ℕ → ℕ → List ℕ × S

pub record Config : Type 0 where
  pub algorithm : Checksum
  pub cookie : ℕ
  pub page_size : ℕ
  pub quarantine_cache_size : ℕ
  pub quarantine_max_chunk_size : ℕ
  pub may_return_null : Bool
  pub check_dealloc_type : Bool
  pub check_delete_size : Bool

-- `memory` has the words of headers and block markers, `readable` says which of them are mapped.
pub record Allocator (S : Type 0) : Type 0 where
  pub memory : ℕ → ℕ
  pub readable : ℕ → Bool
  pub backend : S

-- Headers are only stored into blocks in use, which are mapped.
abbrev pub store : {S : Type 0} → Config → Allocator S → ℕ → UnpackedHeader → Allocator S
store cfg a ptr h = record a {
  memory = store_header cfg.algorithm cfg.cookie a.memory ptr h;
  readable = update a.readable (header_addr ptr) true;
}

-- A header whose checksum is wrong is reported.
abbrev pub reading : Option UnpackedHeader → Outcome UnpackedHeader
reading none = reported corrupted_header
reading (some h) = returned h

unfoldable pub load : {S : Type 0} → Config → Allocator S → ℕ → Outcome UnpackedHeader
load cfg a ptr =
    if a.readable (header_addr ptr)
    then reading (load_header cfg.algorithm cfg.cookie a.memory ptr)
    else faulted

unfoldable pub get_block_begin : ℕ → UnpackedHeader → ℕ
get_block_begin ptr h = sub_uptr (sub_uptr ptr header_size) (h.offset * 2 ^ 4 % 2 ^ 64)

unfoldable pub get_size : {S : Type 0} → Backends S → S → ℕ → UnpackedHeader → ℕ
get_size b s ptr h =
    if not (h.class_id == 0)
    then h.size_or_unused_bytes
    else sub_uptr (sub_uptr (b.secondary_block_end s (get_block_begin ptr h)) ptr)
        h.size_or_unused_bytes

-- The marker in front of a chunk that does not start at the beginning of its block.
unfoldable pub mark_block : (ℕ → ℕ) → ℕ → ℕ → ℕ → ℕ → ℕ
mark_block memory block default_ptr user_ptr =
    if default_ptr == user_ptr
    then memory
    else update memory block (block_marker + sub_uptr user_ptr default_ptr % 2 ^ 32 * 2 ^ 32)

unfoldable pub new_header : ℕ → ℕ → ℕ → ℕ → ℕ → UnpackedHeader
new_header class_id origin default_ptr user_ptr size_or_unused_bytes = record {
  class_id = class_id % 2 ^ 8;
  state = allocated;
  origin_or_was_zeroed = origin % 2 ^ 2;
  size_or_unused_bytes = size_or_unused_bytes % 2 ^ 20;
  offset = if default_ptr == user_ptr then 0 else sub_uptr user_ptr default_ptr / 2 ^ 4 % 2 ^ 16;
  checksum = 0;
}

unfoldable pub init_chunk : {S : Type 0} → Config → Allocator S → ℕ → ℕ → ℕ → ℕ → ℕ → Allocator S
init_chunk cfg a class_id origin block user_ptr size_or_unused_bytes =
    store cfg (record a { memory = mark_block a.memory block default_ptr user_ptr }) user_ptr
      (new_header class_id origin default_ptr user_ptr size_or_unused_bytes)
  where
    default_ptr : ℕ
    default_ptr = add_uptr block header_size

unfoldable pub get_chunk_offset_from_block : (ℕ → ℕ) → ℕ → ℕ
get_chunk_offset_from_block memory block =
    add_uptr (if memory block % 2 ^ 32 == block_marker then memory block / 2 ^ 32 % 2 ^ 32 else 0)
      header_size

-- The chunk, and whether its header is valid.
unfoldable pub get_chunk_from_block : {S : Type 0} → Config → Allocator S → ℕ → ℕ × Bool
unfolding get_chunk_offset_from_block
get_chunk_from_block cfg a block = (chunk, is_valid cfg.algorithm cfg.cookie a.memory chunk)
  where
    chunk : ℕ
    chunk = add_uptr block (get_chunk_offset_from_block a.memory block)

-- `none` in place of the callback is a block that is not visited.
unfoldable pub visit_block :
    {S : Type 0} → Config → Backends S → Allocator S → ℕ → ℕ → ℕ → Option (ℕ × ℕ)
unfolding get_chunk_from_block get_size
visit_block {S} cfg b a from to block =
    if ltb block from
    then none
    else if not (ltb block to)
    then none
    else if not found.1
    then none
    else if h.state == allocated
    then some (found.0, get_size b a.backend found.0 h)
    else none
  where
    found : ℕ × Bool
    found = get_chunk_from_block cfg a block

    h : UnpackedHeader
    h = unpack (a.memory (header_addr found.0))

-- For a pointer whose header is mapped.
unfoldable pub is_owned : {S : Type 0} → Config → Allocator S → ℕ → Bool
is_owned cfg a ptr =
    if ptr == 0
    then false
    else if not (is_aligned ptr min_alignment)
    then false
    else is_valid cfg.algorithm cfg.cookie a.memory ptr
      && (UnpackedHeader.state (unpack (a.memory (header_addr ptr))) == allocated)
