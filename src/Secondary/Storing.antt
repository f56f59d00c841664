-- ===== src/Secondary/Storing.antt =====
-- A store into the secondary cache, seen on the list of its blocks.
use scudo.Common.{
  ℕ, zero, suc, ◌<◌, ◌≡◌, ◌≢◌, refl, sym, ap, ◌∙◌, inl, inr, Bool, true, false, not, ◌||◌, some,
  List, [], ◌∷◌, ◌++◌, ltb, ◌==◌, ne→==, All, All-append, Bool-cases, ==→eq, length,
}
use scudo.Secondary.Block.{ℤ, pos, negsuc, MemMap, CachedBlock, is_valid_block, Call}
use scudo.Secondary.Cache.{
  Config, MapAllocatorCache, release_if_older_than, release_each, release_older_than,
}
use scudo.Secondary.Cache.Store.{
  place_in_quarantine, Placing, new_entry, release_old, unmap_all, store,
}
use scudo.Secondary.Lru.{
  IsCache, blocks, blocks_at, newest, older, mappings_from_oldest, place-newest,
}

-- A block but for whether its pages are released.
abbrev pub untimed : CachedBlock → CachedBlock
untimed b = record b { time = 0 }

abbrev pub untimed_all : List CachedBlock → List CachedBlock
untimed_all [] = []
untimed_all (b ∷ bs) = untimed b ∷ untimed_all bs

abbrev pub IsRelease : Call → Type 0
IsRelease (Call.release_and_zero_pages m base size) = Unit {0}
IsRelease (Call.unmap m) = ⊥
IsRelease (Call.remap m base size flags) = ⊥
IsRelease (Call.set_memory_permission m base size flags) = ⊥

released-untimed :
    (b : CachedBlock) (oldest time : ℕ)
    → (untimed (release_if_older_than b oldest time).0 ≡ untimed b)
      × All IsRelease (release_if_older_than b oldest time).2
unfolding release_if_older_than
released-untimed b oldest time = elim (Bool-cases (not (is_valid_block b) || (b.time == 0))) [
  | inl e ↦ rw e (refl, tt)
  | inr e ↦ elim (Bool-cases (ltb time b.time)) [
    | inl f ↦ rw (e, f) (refl, tt)
    | inr f ↦ rw (e, f) (refl, (tt, tt))
  ]
]

each-untimed :
    (f : ℕ → CachedBlock) (n oldest time : ℕ)
    → ((i : ℕ) → untimed ((release_each f n oldest time).0 i) ≡ untimed (f i))
      × All IsRelease (release_each f n oldest time).2
unfolding release_each
each-untimed f zero oldest time = (λ i. refl, tt)
each-untimed f (suc n) oldest time =
    let ih = each-untimed f n oldest time in
    let done = release_each f n oldest time in
    let one = released-untimed (done.0 n) done.1 time in
    (
      λ i. elim (Bool-cases (i == n)) [
        | inl e ↦ rw e (one.0 ∙ ih.0 n ∙ ap (λ (x : ℕ). untimed (f x)) (sym (==→eq i n e)))
        | inr e ↦ rw e (ih.0 i)
      ],
      All-append IsRelease done.2 (release_if_older_than (done.0 n) done.1 time).2 ih.1 one.1,
    )

module _ (cfg : Config) (c : MapAllocatorCache) (v : IsCache cfg c) where
  -- The cache keeps its blocks, but for what is released of them.
  abbrev Same : MapAllocatorCache × List Call → Type 0
  Same r = IsCache cfg r.0 × (untimed_all (blocks r.0) ≡ untimed_all (blocks c)) × All IsRelease r.1

  untimed-blocks_at :
      (f g : ℕ → CachedBlock) (is : List ℕ)
      → ((i : ℕ) → untimed (f i) ≡ untimed (g i))
      → untimed_all (blocks_at f is) ≡ untimed_all (blocks_at g is)
  untimed-blocks_at f g [] h = refl
  untimed-blocks_at f g (i ∷ is) h = λ k. h i k ∷ untimed-blocks_at f g is h k

  valid-untimed : (b d : CachedBlock) → untimed b ≡ untimed d → is_valid_block b ≡ is_valid_block d
  unfolding is_valid_block
  valid-untimed b d e = ap (λ (x : CachedBlock). is_valid_block x) e

  release_older_than-Same : (time : ℕ) → Same (release_older_than cfg c time)
  unfolding release_older_than
  release_older_than-Same time =
      let first = each-untimed c.quarantine cfg.quarantine_size 0 time in
      let oldest = (release_each c.quarantine cfg.quarantine_size 0 time).1 in
      let second = each-untimed c.entries cfg.entries_array_size oldest time in
      let g = (release_each c.entries cfg.entries_array_size oldest time).0 in
      elim (Bool-cases
        ((length c.lru_entries == 0) || (c.oldest_time == 0) || ltb time c.oldest_time)) [
          | inl e ↦ rw e (v, refl, tt)
          | inr e ↦ rw e (
            record {
              once = v.once;
              inside = v.inside;
              counted = v.counted;
              valid = λ i h. valid-untimed (g i) (c.entries i) (second.0 i) ∙ v.valid i h;
              free = λ i h. valid-untimed (g i) (c.entries i) (second.0 i) ∙ v.free i h;
            },
            untimed-blocks_at g c.entries c.lru_entries second.0,
            All-append IsRelease (release_each c.quarantine cfg.quarantine_size 0 time).2
                (release_each c.entries cfg.entries_array_size oldest time).2 first.1 second.1,
          )
        ]

  release_old-Same : (interval : ℤ) (now : ℕ) → Same (release_old cfg c interval now)
  unfolding release_old
  release_old-Same (pos interval) now = release_older_than-Same _
  release_old-Same (negsuc interval) now = (v, refl, tt)

valid_of : (b : CachedBlock) → b.commit_base ≢ 0 → is_valid_block b ≡ true
unfolding is_valid_block
valid_of b h = rw (ne→== b.commit_base 0 h) refl

-- Without memory tagging there is no quarantine.
untagged :
    (cfg : Config) (c : MapAllocatorCache) (b : CachedBlock)
    → place_in_quarantine cfg c false b ≡ Placing.placed c b
unfolding place_in_quarantine
untagged cfg c b = elim (Bool-cases (not (cfg.quarantine_size == 0))) [
  | inl e ↦ rw e refl
  | inr e ↦ rw e refl
]

module _ (cfg : Config) (c : MapAllocatorCache) (k : ℕ) (v : IsCache cfg c)
    (limit : c.max_entries_count ≡ suc k) (room : k < cfg.entries_array_size) where
  -- From a cache whose entries are each in one list, without memory tagging, and with a limit of
  -- the entries that is not zero and within the array, a store of a block whose base is not 0
  -- returns: each entry is again in one list, the block is then the most recent one, of the others
  -- the most recent stay in their order, as many as the limit allows besides it, all as they were
  -- up to their times, the mappings of the rest are unmapped, the oldest first, and after that
  -- pages may be released, nothing else.
  pub store-newest :
      (remap_ok : Call → Bool) (now commit_base commit_size block_begin : ℕ) (m : MemMap)
      → commit_base ≢ 0
      → (d : MapAllocatorCache) × (released : List Call) × (store cfg c false remap_ok now
            commit_base commit_size block_begin m
          ≡ some (d, unmap_all (mappings_from_oldest (older k (blocks c))) ++ released))
        × IsCache cfg d
        × (untimed_all (blocks d)
            ≡ untimed_all (
                record {
                  commit_base = commit_base;
                  commit_size = commit_size;
                  block_begin = block_begin;
                  mem_map = m;
                  time = now;
                }
                ∷ newest k (blocks c)))
        × All IsRelease released
  unfolding store new_entry
  store-newest remap_ok now commit_base commit_size block_begin m valid =
      let b : CachedBlock = record {
        commit_base = commit_base;
        commit_size = commit_size;
        block_begin = block_begin;
        mem_map = m;
        time = now;
      } in
      let (d, f, v', same) = place-newest cfg c k b v limit room (valid_of b valid) in
      let (v'', same', rel) = release_old-Same cfg d v' c.release_to_os_interval_ms now in
      (
        (release_old cfg d c.release_to_os_interval_ms now).0,
        (release_old cfg d c.release_to_os_interval_ms now).1,
        simp (untagged cfg c b, f) refl,
        v'',
        same' ∙ ap untimed_all same,
        rel,
      )
