-- ===== src/Secondary/Retrieving.antt =====
-- What a retrieve takes from the secondary cache.
use scudo.Common.{ℕ, ◌≤◌, ◌<◌, ◌≡◌, ◌⊎◌, true, some, List, [], ◌∷◌, ◌++◌, arith, All, add_u32}
use scudo.Secondary.Block.{CachedBlock, Call, no_block}
use scudo.Secondary.Cache.{Config, MapAllocatorCache}
use scudo.Secondary.Cache.Retrieve.{Pick, Wish, header_pos_in, fits_in, diff_in, is_optimal, trim}
use scudo.Secondary.Lru.{IsCache, blocks, blocks_at}

module _ (cfg : Config) (f : ℕ → CachedBlock) (w : Wish) where
  abbrev pick : ℕ → Pick
  pick i = record {
    retrieved_entry = some i;
    min_diff = diff_in cfg (f i) w;
    entry_header_pos = header_pos_in (f i) w;
  }

  -- If block `j` fits, it wastes at least `m` bytes.
  abbrev Wastes : ℕ → ℕ → Type 0
  Wastes m j = fits_in cfg (f j) w ≡ true → m ≤ diff_in cfg (f j) w

  -- The block at `i` fits, and is good enough or wastes the least.
  pub record Best (is : List ℕ) (i : ℕ) : Type 0 where
    pub before : List ℕ
    pub behind : List ℕ
    pub place : is ≡ before ++ i ∷ behind
    pub fits : fits_in cfg (f i) w ≡ true
    pub good : (is_optimal cfg (f i) w ≡ true) ⊎ All (Wastes (diff_in cfg (f i) w)) is

  abbrev Scanned : List ℕ → Pick → Pick → Type 0
  Scanned is p q =
      ((q ≡ p) × All (Wastes p.min_diff) is)
      ⊎ ((i : ℕ) × (q ≡ pick i) × (diff_in cfg (f i) w < p.min_diff) × Best is i)

  Wastes-less : (m n : ℕ) → m ≤ n → (is : List ℕ) → All (Wastes n) is → All (Wastes m) is
  Wastes-less m n le [] h = tt
  Wastes-less m n le (i ∷ is) h = ((λ fits. omega (arith, h.0 fits)), Wastes-less m n le is h.1)

module _ (cfg : Config) (c : MapAllocatorCache) (v : IsCache cfg c) (w : Wish) where
  -- The block at `i` is taken out.
  abbrev pub Takes : CachedBlock → ℕ → MapAllocatorCache → List Call → Type 0
  Takes b header_pos d calls =
      (i : ℕ) × (b ≡ c.entries i)
      × (header_pos ≡ header_pos_in b w)
      × (best : Best cfg c.entries w c.lru_entries i) × (blocks c
          ≡ blocks_at c.entries best.before ++ b ∷ blocks_at c.entries best.behind)
      × (blocks d ≡ blocks_at c.entries best.before ++ blocks_at c.entries best.behind)
      × (calls ≡ trim cfg b header_pos)
      × (d.successful_retrieves ≡ add_u32 c.successful_retrieves 1)

  abbrev pub Misses : CachedBlock → MapAllocatorCache → List Call → Type 0
  Misses b d calls =
      (b ≡ no_block)
      × All (Wastes cfg c.entries w 0xFFFFFFFFFFFFFFFF) c.lru_entries
      × (blocks d ≡ blocks c)
      × (calls ≡ [])
      × (d.successful_retrieves ≡ c.successful_retrieves)

  abbrev Result : CachedBlock × ℕ × MapAllocatorCache × List Call → Type 0
  Result r =
      IsCache cfg r.2
      × (r.2.calls_to_retrieve ≡ add_u32 c.calls_to_retrieve 1)
      × (Takes r.0 r.1 r.2 r.3 ⊎ Misses r.0 r.2 r.3)

  abbrev called : MapAllocatorCache
  called = record c { calls_to_retrieve = add_u32 c.calls_to_retrieve 1 }
