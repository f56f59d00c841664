-- ===== src/LocalCache.antt =====
-- SizeClassAllocatorLocalCache of local_cache.h: the blocks of each size class that a thread keeps at
-- hand, over a primary allocator that hands out and takes back blocks many at a time.
pub mod Conserve
mod Tests
use scudo.Common.{
  ℕ, zero, suc, ◌+◌, ◌*◌, ◌/◌, ◌%◌, ◌^◌, Bool, true, false, not, ◌&&◌, Option, none, some, List, [],
  ◌∷◌, ◌++◌, ◌==◌, if◌then◌else◌, ◌>>=◌, add_uptr, sub_uptr, update, length, min,
}

-- What the cache uses of the primary allocator, with `S` for its state.
pub record SizeClassAllocator (S : Type 0) : Type 0 where
  pub pop_blocks : S → ℕ → ℕ → List ℕ × S
  pub push_blocks : S → ℕ → List ℕ → S
  pub compact_ptr : ℕ → ℕ → ℕ
  pub decompact_ptr : ℕ → ℕ → ℕ
  pub get_size_by_class_id : ℕ → ℕ
  pub max_cached : ℕ → ℕ
  pub num_classes : ℕ
  pub batch_class_id : ℕ

-- `chunks` are the first `Count` elements of the array.
pub record PerClass : Type 0 where
  pub max_count : ℕ
  pub class_size : ℕ
  pub chunks : List ℕ

pub record LocalCache : Type 0 where
  pub classes : ℕ → PerClass
  pub stat_allocated : ℕ
  pub stat_free : ℕ

abbrev pub first : ℕ → List ℕ → List ℕ
first zero xs = []
first (suc n) [] = []
first (suc n) (x ∷ xs) = x ∷ first n xs

abbrev pub rest : ℕ → List ℕ → List ℕ
rest zero xs = xs
rest (suc n) [] = []
rest (suc n) (x ∷ xs) = rest n xs

-- The last element and what is in front of it.
abbrev pub unsnoc_onto : ℕ → Option (ℕ × List ℕ) → ℕ × List ℕ
unsnoc_onto x none = (x, [])
unsnoc_onto x (some (y, ys)) = (y, x ∷ ys)

abbrev pub unsnoc : List ℕ → Option (ℕ × List ℕ)
unsnoc [] = none
unsnoc (x ∷ xs) = some (unsnoc_onto x (unsnoc xs))

-- The counts of the batches' own class are not those of user blocks.
unfoldable pub init_cache : {S : Type 0} → SizeClassAllocator S → LocalCache → LocalCache
init_cache alloc c = record c {
  classes = λ i. record {
    max_count = 2 * alloc.max_cached (alloc.get_size_by_class_id i) % 2 ^ 16;
    class_size = if i == alloc.batch_class_id then 0 else alloc.get_size_by_class_id i;
    chunks = (c.classes i).chunks;
  };
}

abbrev pub with_chunks : LocalCache → ℕ → List ℕ → LocalCache
with_chunks c id xs = record c {
  classes = update c.classes id (record (c.classes id) { chunks = xs });
}

unfoldable pub refill :
    {S : Type 0} → SizeClassAllocator S → LocalCache → S → ℕ → ℕ → LocalCache × S
refill {S} alloc c s id max_refill =
    (with_chunks c id ((c.classes id).chunks ++ popped.0), popped.1)
  where
    popped : List ℕ × S
    popped = alloc.pop_blocks s id max_refill

-- Half of what the class may hold goes back, the blocks at the front of the array.
unfoldable pub drain_half :
    {S : Type 0} → SizeClassAllocator S → LocalCache → S → ℕ → LocalCache × S
drain_half {S} alloc c s id =
    (with_chunks c id (rest count chunks), alloc.push_blocks s id (first count chunks))
  where
    chunks : List ℕ
    chunks = (c.classes id).chunks

    count : ℕ
    count = min ((c.classes id).max_count / 2) (length chunks)

-- The last block of the class is handed out.
abbrev pub give_block :
    {S : Type 0}
    → SizeClassAllocator S
    → LocalCache
    → S
    → ℕ
    → Option (ℕ × List ℕ)
    → Option ℕ × LocalCache × S
give_block alloc c s id none = (none, c, s)
give_block alloc c s id (some (x, xs)) =
    (some (alloc.decompact_ptr id x), counted (with_chunks c id xs), s)
  where
    size : ℕ
    size = (c.classes id).class_size

    counted : LocalCache → LocalCache
    counted d = record d {
      stat_allocated = add_uptr d.stat_allocated size;
      stat_free = sub_uptr d.stat_free size;
    }

abbrev pub hand_out :
    {S : Type 0} → SizeClassAllocator S → LocalCache × S → ℕ → Option ℕ × LocalCache × S
hand_out alloc (c, s) id = give_block alloc c s id (unsnoc (c.classes id).chunks)

unfoldable pub allocate :
    {S : Type 0} → SizeClassAllocator S → LocalCache → S → ℕ → Option ℕ × LocalCache × S
unfolding refill
allocate {S} alloc c s id =
    hand_out alloc
      (if length (c.classes id).chunks == 0
        then refill alloc c s id ((c.classes id).max_count / 2)
        else (c, s))
      id

-- The result has whether the cache had to be drained.
unfoldable pub deallocate :
    {S : Type 0} → SizeClassAllocator S → LocalCache → S → ℕ → ℕ → Bool × LocalCache × S
unfolding drain_half
deallocate {S} alloc c s id ptr =
    (full, counted (with_chunks d.0 id (kept ++ alloc.compact_ptr id ptr ∷ [])), d.1)
  where
    full : Bool
    full = length (c.classes id).chunks == (c.classes id).max_count

    d : LocalCache × S
    d = if full then drain_half alloc c s id else (c, s)

    kept : List ℕ
    kept = (d.0.classes id).chunks

    size : ℕ
    size = (c.classes id).class_size

    counted : LocalCache → LocalCache
    counted e = record e {
      stat_allocated = sub_uptr e.stat_allocated size;
      stat_free = add_uptr e.stat_free size;
    }
