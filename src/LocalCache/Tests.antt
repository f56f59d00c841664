-- ===== src/LocalCache/Tests.antt =====
-- The cache of a thread over a primary allocator that keeps its blocks in one list.
use scudo.Common.{ℕ, zero, suc, ◌*◌, ◌/◌, ◌≤◌, ◌≡◌, refl, some, List, [], ◌∷◌, ◌++◌, arith, length}
use scudo.Secondary.Lru.{occ-append}
use scudo.LocalCache.{SizeClassAllocator, LocalCache, first, rest, init_cache, allocate}
use scudo.LocalCache.Conserve.{IsPrimary, Handed, occ-first-rest, allocate-Handed}

abbrev primary : SizeClassAllocator (List ℕ)
primary = record {
  pop_blocks = λ s id n. (first n s, rest n s);
  push_blocks = λ s id xs. s ++ xs;
  compact_ptr = λ id p. p / 16;
  decompact_ptr = λ id c. c * 16;
  get_size_by_class_id = λ id. 32 * id;
  max_cached = λ size. 2;
  num_classes = 4;
  batch_class_id = 0;
}

abbrev blocks : List ℕ → ℕ → List ℕ
blocks s id = s

length-first : (n : ℕ) (xs : List ℕ) → length (first n xs) ≤ n
length-first zero xs = omega arith
length-first (suc n) [] = omega arith
length-first (suc n) (x ∷ xs) = omega (arith, length-first n xs)

primary-IsPrimary : IsPrimary primary blocks
primary-IsPrimary = record {
  popped = λ s id n p. omega (arith, occ-first-rest p n s);
  few = λ s id n. length-first n s;
  pushed = λ s id p xs. occ-append p s xs;
}

abbrev pool : List ℕ
pool = 10 ∷ 20 ∷ 30 ∷ []

abbrev empty : LocalCache
unfolding init_cache
empty = init_cache primary (record {
  classes = λ i. record { max_count = 0; class_size = 0; chunks = [] };
  stat_allocated = 0;
  stat_free = 0;
})

allocate_first : (allocate primary empty pool 1).0 ≡ some 320
unfolding allocate empty
allocate_first = refl

allocate-Handed_example :
    Handed primary blocks primary-IsPrimary 1 empty pool (allocate primary empty pool 1)
unfolding empty
allocate-Handed_example =
    allocate-Handed primary blocks primary-IsPrimary 1 empty pool (omega arith)
