-- ===== src/Tests.antt =====
-- The arithmetic, the quarantine, the chunk headers and the size classes on concrete values.
use scudo.Lists.{Links, IntrusiveList}
use scudo.Lists.Singly.{push_front, pop_front}
use scudo.Lists.Stack.{Holds, pop_front-push_front}
use scudo.Common.{
  ◌==◌, if◌then◌else◌, ℕ, suc, ◌+◌, ◌^◌, ◌≤◌, ◌<◌, ◌≡◌, ◌≢◌, refl, true, some, List, [], ◌∷◌, arith,
}
use scudo.Arith.{
  round_up, round_up_slow, round_down, is_aligned, is_aligned_slow, most_significant_set_bit_index,
}
use scudo.Arith.Align.{round_down-eq, is_aligned-eq, round_up_bounds}
use scudo.Arith.Power.{most_significant_set_bit_index_bounds}
use scudo.Arith.Shuffle.{shuffle, occurrences, occurrences-shuffle, same}
use scudo.Quarantine.{GlobalQuarantine, Callback, Drained, put, drain_and_recycle, recycle}
use scudo.Quarantine.Cache.{QuarantineBatch, QuarantineCache, total_size}
use scudo.Quarantine.Conserve.{IsSized, held, recycled}
use scudo.Quarantine.Recycle.{Recycled, recycle-Recycled, Conserved}
use scudo.Quarantine.Put.{put-Conserved, drain_and_recycle-recycled, added}
use scudo.Chunk.{Checksum, load_header, store_header, is_valid}
use scudo.Chunk.Pack.{UnpackedHeader, FitsFields, pack, unpack, unpack-pack}
use scudo.Chunk.Header.{load_header-store_header, sealed}
use scudo.SizeClassMap.Validate.{SizeClassMap, IsExact, class-IsExact}

round_down-eq_example : round_down 8191 4096 ≡ 4096
round_down-eq_example = round_down-eq 12 51 refl 8191 (omega arith)

is_aligned-eq_example : is_aligned 8192 4096 ≡ is_aligned_slow 8192 4096
is_aligned-eq_example = is_aligned-eq 12 51 refl 8192

round_up_bounds_example :
    (round_up 4097 4096 ≡ round_up_slow 4097 4096)
    × (4097 ≤ round_up 4097 4096)
    × (round_up 4097 4096 < 4097 + 4096)
    × (is_aligned (round_up 4097 4096) 4096 ≡ true)
round_up_bounds_example = round_up_bounds 12 51 refl 4097 (omega arith)

most_significant_set_bit_index_bounds_example :
    (2 ^ most_significant_set_bit_index 338 ≤ 338)
    × (338 < 2 ^ suc (most_significant_set_bit_index 338))
    × (most_significant_set_bit_index 338 ≤ 63)
most_significant_set_bit_index_bounds_example =
    most_significant_set_bit_index_bounds 338 (omega arith) (omega arith)

occurrences-shuffle_example : occurrences 7 (shuffle (5 ∷ 7 ∷ 9 ∷ 7 ∷ []) 42) ≡ 2
unfolding occurrences same
occurrences-shuffle_example = occurrences-shuffle 7 (5 ∷ 7 ∷ 9 ∷ 7 ∷ []) 42

-- Two batches of one chunk each, which the merge joins.
abbrev batches : List QuarantineBatch
batches =
    record { addr = 0x10000; size = 8192; chunks = 0x500 ∷ [] }
    ∷ record { addr = 0x20000; size = 8240; chunks = 0x600 ∷ [] }
    ∷ []

abbrev quarantine : GlobalQuarantine
quarantine = record {
  cache = record { list = batches; size = 16432 };
  min_size = 9000;
  max_size = 10000;
  max_cache_size = 8000;
}

abbrev local_cache : QuarantineCache
local_cache = record {
  list = record { addr = 0x30000; size = 8300; chunks = 0x700 ∷ [] } ∷ [];
  size = 8300;
}

quarantine-IsSized : IsSized quarantine.cache
unfolding total_size
quarantine-IsSized = record {
  headers = (omega arith, (omega arith, tt));
  total = refl;
  bound = omega arith;
}

local_cache-IsSized : IsSized local_cache
unfolding total_size
local_cache-IsSized = record { headers = (omega arith, tt); total = refl; bound = omega arith }

recycle-Recycled_example :
    (r : GlobalQuarantine × List Callback) × (recycle 0x7000 9000 quarantine ≡ some r)
    × Recycled 9000 quarantine r
recycle-Recycled_example = recycle-Recycled 0x7000 9000 quarantine quarantine-IsSized

put-Conserved_example :
    (d : Drained) × (put 0x7000 true 0x40000 quarantine local_cache 0x800 48 ≡ some d)
    × Conserved quarantine 8000 (added local_cache 0x800) d
put-Conserved_example =
    put-Conserved 0x7000 true 0x40000 quarantine local_cache 0x800 48 quarantine-IsSized
      local_cache-IsSized (omega arith)

drain_and_recycle-recycled_example :
    (d : Drained) × (drain_and_recycle 0x7000 quarantine local_cache ≡ some d)
    × (d.0.cache.size ≡ 0)
    × (d.1.size ≡ 0)
    × ((p : ℕ) → recycled p d.2 ≡ held p batches + held p local_cache.list)
drain_and_recycle-recycled_example =
    drain_and_recycle-recycled 0x7000 quarantine local_cache quarantine-IsSized local_cache-IsSized
      (omega arith)

abbrev header : UnpackedHeader
header = record {
  class_id = 12;
  state = 1;
  origin_or_was_zeroed = 3;
  size_or_unused_bytes = 1000;
  offset = 2;
  checksum = 0xBEEF;
}

header-FitsFields : FitsFields header
header-FitsFields = record {
  class_id = omega arith;
  state = omega arith;
  origin_or_was_zeroed = omega arith;
  size_or_unused_bytes = omega arith;
  offset = omega arith;
  checksum = omega arith;
}

unpack-pack_example : unpack (pack header) ≡ header
unpack-pack_example = unpack-pack header header-FitsFields

load_header-store_header_example :
    (load_header Checksum.bsd 99 (store_header Checksum.bsd 99 (λ p. 0) 0x5010 header) 0x5010
      ≡ some (sealed Checksum.bsd 99 0x5010 header))
    × (is_valid Checksum.bsd 99 (store_header Checksum.bsd 99 (λ p. 0) 0x5010 header) 0x5010 ≡ true)
load_header-store_header_example =
    load_header-store_header Checksum.bsd 99 (λ p. 0) 0x5010 header header-FitsFields

class-IsExact_example : IsExact SizeClassMap.android_map 17
class-IsExact_example = class-IsExact SizeClassMap.android_map 17 (omega arith) (omega arith)

abbrev links : Links
links = record { next = λ p. if p == 8 then 16 else 0; prev = λ p. 0 }

abbrev two_elements : IntrusiveList
two_elements = record { size = 2; first = 8; last = 16 }

two_elements-Holds : Holds links two_elements (8 ∷ 16 ∷ [])
two_elements-Holds = record {
  size = refl;
  leads = (refl, omega arith, (refl, omega arith, refl));
  last = refl;
}

pop_front-push_front_example :
    let after = push_front links two_elements 24 in
    Holds after.0 after.1 (24 ∷ 8 ∷ 16 ∷ [])
    × ((y : ℕ) → y ≢ 24 → after.0.next y ≡ links.next y)
    × (after.0.prev ≡ links.prev)
    × (pop_front after.0 after.1 ≡ two_elements)
    × Holds after.0 two_elements (8 ∷ 16 ∷ [])
pop_front-push_front_example =
    pop_front-push_front links two_elements 24 (8 ∷ 16 ∷ []) two_elements-Holds (omega arith)
      (omega arith, (omega arith, tt)) (omega arith)
