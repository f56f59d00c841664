-- ===== src/Quarantine/Cache.antt =====
-- QuarantineBatch and QuarantineCache of quarantine.h.
use scudo.Common.{
  ℕ, ◌+◌, ◌*◌, ◌%◌, ◌^◌, Bool, Option, none, some, List, [], ◌∷◌, ◌++◌, ◌==◌, leb, if◌then◌else◌,
  add_uptr, sub_uptr, length,
}
use scudo.Arith.Shuffle.{shuffle}

pub record QuarantineBatch : Type 0 where
  pub addr : ℕ
  pub size : ℕ
  pub chunks : List ℕ

pub record QuarantineCache : Type 0 where
  pub list : List QuarantineBatch
  pub size : ℕ

abbrev pub max_count : ℕ
max_count = 1019

-- `sizeof(QuarantineBatch)`: a link, a size, a count with its padding and the pointers.
abbrev pub batch_bytes : ℕ
batch_bytes = 24 + 8 * max_count

abbrev pub count : QuarantineBatch → ℕ
count b = length b.chunks

unfoldable pub init_batch : ℕ → ℕ → ℕ → QuarantineBatch
init_batch addr ptr size = record {
  addr = addr;
  size = add_uptr size batch_bytes;
  chunks = ptr ∷ [];
}

unfoldable pub get_quarantined_size : QuarantineBatch → ℕ
get_quarantined_size b = sub_uptr b.size batch_bytes

unfoldable pub push_back : QuarantineBatch → ℕ → ℕ → QuarantineBatch
push_back b ptr size = record b { size = add_uptr b.size size; chunks = b.chunks ++ (ptr ∷ []) }

unfoldable pub can_merge : QuarantineBatch → QuarantineBatch → Bool
can_merge b from = leb (count b + count from) max_count

-- The batch that takes the chunks of the other.
unfoldable pub merge : QuarantineBatch → QuarantineBatch → QuarantineBatch
unfolding get_quarantined_size
merge b from = record b {
  size = add_uptr b.size (get_quarantined_size from);
  chunks = b.chunks ++ from.chunks;
}

-- The other, which it leaves empty.
unfoldable pub merged_from : QuarantineBatch → QuarantineBatch
merged_from from = record from { size = batch_bytes; chunks = [] }

unfoldable pub shuffle_batch : ℕ → QuarantineBatch → QuarantineBatch
unfolding shuffle
shuffle_batch seed b = record b { chunks = shuffle b.chunks seed }

unfoldable pub overhead_size : QuarantineCache → ℕ
overhead_size c = length c.list * batch_bytes % 2 ^ 64

unfoldable pub enqueue_batch : QuarantineCache → QuarantineBatch → QuarantineCache
enqueue_batch c b = record { list = c.list ++ (b ∷ []); size = add_uptr c.size b.size }

-- The chunk goes to the last batch if that has room.
unfoldable pub push_last : List QuarantineBatch → ℕ → ℕ → Option (List QuarantineBatch)
unfolding push_back
push_last [] ptr size = none
push_last (b ∷ []) ptr size =
    if count b == max_count then none else some (push_back b ptr size ∷ [])
push_last (b ∷ b' ∷ bs) ptr size = elim (push_last (b' ∷ bs) ptr size) [
  | some r ↦ some (b ∷ r)
  | none ↦ none
]

unfoldable pub enqueue : ℕ → QuarantineCache → ℕ → ℕ → QuarantineCache
unfolding push_last enqueue_batch init_batch
enqueue batch_addr c ptr size = elim (push_last c.list ptr size) [
  | some r ↦ record { list = r; size = add_uptr c.size size }
  | none ↦ enqueue_batch c (init_batch batch_addr ptr size)
]

-- The first cache with all of the second, and the second emptied.
unfoldable pub transfer : QuarantineCache → QuarantineCache → QuarantineCache × QuarantineCache
transfer c from = (
  record { list = c.list ++ from.list; size = add_uptr c.size from.size },
  record { list = []; size = 0 },
)

unfoldable pub dequeue_batch : QuarantineCache → Option (QuarantineBatch × QuarantineCache)
dequeue_batch c = elim c.list [
  | [] ↦ none
  | b ∷ bs ↦ some (b, record { list = bs; size = sub_uptr c.size b.size })
]

-- The loop of `mergeBatches` from the batch `current`: the batches that stay and those extracted.
unfoldable pub merge_into :
    QuarantineBatch → List QuarantineBatch → List QuarantineBatch × List QuarantineBatch
unfolding can_merge merge merged_from
merge_into current [] = (current ∷ [], [])
merge_into current (next ∷ rest) =
    let r = merge_into (if can_merge current next then merge current next else next) rest in
    if can_merge current next then (r.0, merged_from next ∷ r.1) else (current ∷ r.0, r.1)

unfoldable pub total_size : List QuarantineBatch → ℕ
total_size [] = 0
total_size (b ∷ bs) = b.size + total_size bs

-- The cache and the one that collects the batches to deallocate.
unfoldable pub merge_batches : QuarantineCache → QuarantineCache → QuarantineCache × QuarantineCache
unfolding merge_into total_size
merge_batches c to_deallocate = elim c.list [
  | [] ↦ (c, to_deallocate)
  | b ∷ bs ↦ (
    record {
      list = (merge_into b bs).0;
      size = sub_uptr c.size (total_size (merge_into b bs).1 % 2 ^ 64);
    },
    record {
      list = to_deallocate.list ++ (merge_into b bs).1;
      size = add_uptr to_deallocate.size (total_size (merge_into b bs).1);
    },
  )
]
