-- ===== src/Combined/Tests.antt =====
-- Small runs of the allocator that users call.
use scudo.Common.{ℕ, ◌+◌, ◌^◌, ◌≡◌, refl, true, none, some, [], leb, arith}
use scudo.Arith.{is_aligned}
use scudo.Chunk.{
  bsd, load_header, store_header, compute_header_checksum, compute_checksum, fold_words,
  compute_bsd_checksum,
}
use scudo.Chunk.Pack.{pack, unpack}
use scudo.Combined.Chunks.{
  Outcome, returned, reported, faulted, Backends, Config, Allocator, new_header, init_chunk,
  origin_malloc,
}
use scudo.Combined.Calls.{GivenBlock, allocate, allocate_block, needed_size}
use scudo.Combined.Freeing.{deallocate}
use scudo.Combined.Resizing.{get_alloc_size, reallocate}
use scudo.Combined.RoundTrip.{IsGiven, allocate-IsGiven}
use scudo.Combined.Placed.{IsBlock}
use scudo.Combined.Freed.{Stops, deallocate-DoubleFree}

abbrev cfg : Config
cfg = record {
  algorithm = bsd;
  cookie = 7;
  page_size = 4096;
  quarantine_cache_size = 0;
  quarantine_max_chunk_size = 2048;
  may_return_null = true;
  check_dealloc_type = true;
  check_delete_size = true;
}

-- One class of blocks of 1024 bytes; the state is the next block.
abbrev blocks : Backends ℕ
blocks = record {
  can_allocate = λ n. leb n 1024;
  get_class_id_by_size = λ _. 1;
  get_size_by_class_id = λ _. 1024;
  largest_class_id = 1;
  cache_allocate = λ s _. (some s, s + 1024);
  cache_deallocate = λ s _ _. (true, s);
  try_release_to_os = λ s _. s;
  secondary_allocate = λ s _ _. (none, s);
  secondary_deallocate = λ s block. ((λ q. leb block q), s);
  secondary_block_end = λ _ block. block;
  quarantine_put = λ s _ _. ([], s);
}

abbrev start : Allocator ℕ
start = record { memory = λ _. 0; readable = λ _. true; backend = 4096 }

abbrev first_block : GivenBlock
first_block = record { class_id = 1; block = 4096; block_end = 0 }

first_block-IsBlock : IsBlock blocks 5120 100 (2 ^ (4 + 2)) first_block
first_block-IsBlock = record {
  class_fits = omega arith;
  block_aligned = refl;
  no_wrap = omega arith;
  near = omega arith;
  class_size = λ _. omega arith;
  has_end = λ e. absurd (omega (arith, e));
  end_fits = λ e. absurd (omega (arith, e));
}

allocate-IsGiven_example :
    IsGiven cfg blocks 100
      (2 ^ (4 + 2))
      4000
      5000
      first_block
      (allocate cfg blocks start 100 origin_malloc (2 ^ (4 + 2)))
unfolding allocate_block needed_size
allocate-IsGiven_example =
    allocate-IsGiven cfg blocks start 5120 100 origin_malloc 2 4000 5000 first_block (omega arith)
      (omega arith) (omega arith) (omega arith) refl first_block-IsBlock

-- A chunk of 100 bytes, and what freeing it leaves.
abbrev full : Allocator ℕ
full = init_chunk cfg start 1 origin_malloc 4096 4112 100

abbrev next : {A : Type 0} → A → Outcome A → A
next a (returned b) = b
next a (reported r) = a
next a faulted = a

abbrev empty : Allocator ℕ
empty = next full (deallocate cfg blocks full 4112 origin_malloc 100)

deallocate-DoubleFree_example :
    Stops 1 empty 4112 (deallocate cfg blocks empty 4112 origin_malloc 0)
    × Stops 1 empty 4112 (get_alloc_size cfg blocks empty 4112)
    × Stops 1 empty 4112 (reallocate cfg blocks empty 4112 200 16)
unfolding deallocate init_chunk is_aligned load_header unpack store_header pack new_header
    compute_header_checksum compute_checksum fold_words compute_bsd_checksum
deallocate-DoubleFree_example =
    deallocate-DoubleFree cfg blocks full empty 4112 origin_malloc 100 origin_malloc 0 200 16
      (omega arith) (omega arith) refl

size_of_full : get_alloc_size cfg blocks full 4112 ≡ returned 100
unfolding get_alloc_size init_chunk load_header unpack store_header pack new_header
    compute_header_checksum compute_checksum fold_words compute_bsd_checksum
size_of_full = refl
