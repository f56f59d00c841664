-- ===== src/Secondary/Lru.antt =====
-- The secondary cache as a list of blocks, the most recent first: its invariant, and what a store
-- and the evictions do to the list.
use scudo.Common.{
  ℕ, zero, suc, ◌+◌, ◌≤◌, ◌<◌, ◌≡◌, ◌≢◌, refl, sym, ap, ◌∙◌, subst, ◌⊎◌, inl, inr, true, false,
  some, List, [], ◌∷◌, ◌++◌, arith, leb, ◌==◌, if◌then◌else◌, update, update_self, update_ne,
  length, length-append, ne→==, Bool-cases, ==→eq, append-nil, append_assoc,
}
use native.Mathlib.Decide.{dec_lt}
use scudo.Secondary.Block.{MemMap, CachedBlock, is_valid_block, invalidate}
use scudo.Secondary.Cache.{Config, MapAllocatorCache, drop_index, insert, remove, back, evict}
use scudo.Secondary.Cache.Store.{place}

abbrev pub occ : ℕ → List ℕ → ℕ
occ i [] = 0
occ i (j ∷ js) = (if i == j then 1 else 0) + occ i js

pub occ-append : (i : ℕ) (xs ys : List ℕ) → occ i (xs ++ ys) ≡ occ i xs + occ i ys
occ-append i [] ys = omega arith
occ-append i (x ∷ xs) ys = omega (arith, occ-append i xs ys)

-- The blocks that stand at the indices.
abbrev pub blocks_at : (ℕ → CachedBlock) → List ℕ → List CachedBlock
blocks_at f [] = []
blocks_at f (i ∷ is) = f i ∷ blocks_at f is

abbrev pub blocks : MapAllocatorCache → List CachedBlock
blocks c = blocks_at c.entries c.lru_entries

-- The most recent `k` of a list of blocks, and the mappings of the others, the oldest first.
abbrev pub newest : ℕ → List CachedBlock → List CachedBlock
newest zero bs = []
newest (suc k) [] = []
newest (suc k) (b ∷ bs) = b ∷ newest k bs

abbrev pub mappings_from_oldest : List CachedBlock → List MemMap
mappings_from_oldest [] = []
mappings_from_oldest (b ∷ bs) = mappings_from_oldest bs ++ b.mem_map ∷ []

abbrev pub older : ℕ → List CachedBlock → List CachedBlock
older zero bs = bs
older (suc k) [] = []
older (suc k) (b ∷ bs) = older k bs

-- Each index of the array is in one of the two lists, and once; the blocks in use are valid.
pub record IsCache (cfg : Config) (c : MapAllocatorCache) : Type 0 where
  pub once : (i : ℕ) → i < cfg.entries_array_size → occ i c.lru_entries + occ i c.avail_entries ≡ 1
  pub inside :
      (i : ℕ) → cfg.entries_array_size ≤ i → occ i c.lru_entries + occ i c.avail_entries ≡ 0
  pub counted : length c.lru_entries + length c.avail_entries ≡ cfg.entries_array_size
  pub valid : (i : ℕ) → 0 < occ i c.lru_entries → is_valid_block (c.entries i) ≡ true
  pub free : (i : ℕ) → 0 < occ i c.avail_entries → is_valid_block (c.entries i) ≡ false

pub blocks_at-update :
    (f : ℕ → CachedBlock) (i : ℕ) (b : CachedBlock) (is : List ℕ)
    → occ i is ≡ 0
    → blocks_at (update f i b) is ≡ blocks_at f is
blocks_at-update f i b [] h = refl
blocks_at-update f i b (j ∷ js) h =
    let other : j ≢ i = ground (arith, h) in
    λ k. update_ne f i b j other k ∷ blocks_at-update f i b js (omega (arith, h)) k

pub drop_index-middle :
    (i : ℕ) (is js : List ℕ) → occ i is ≡ 0 → drop_index i (is ++ i ∷ js) ≡ is ++ js
unfolding drop_index
drop_index-middle i [] js h = ground arith
drop_index-middle i (k ∷ is) js h =
    let other : i ≢ k = ground (arith, h) in
    rw (ne→== i k other) (ap (λ (r : List ℕ). k ∷ r) (drop_index-middle i is js (omega (arith, h))))

pub occ-drop_index :
    (i p : ℕ) (is : List ℕ)
    → 0 < occ i is
    → occ p is ≡ (if p == i then 1 else 0) + occ p (drop_index i is)
unfolding drop_index
occ-drop_index i p [] h = absurd (omega (arith, h))
occ-drop_index i p (j ∷ js) h = elim (Bool-cases (i == j)) [
  | inl e ↦ rw e (ap (λ (x : ℕ). (if p == x then 1 else 0) + occ p js) (sym (==→eq i j e)))
  | inr e ↦ rw e (omega (arith, occ-drop_index i p js (ground (arith, h, e))))
]

length-drop_index :
    (i : ℕ) (is : List ℕ) → 0 < occ i is → length is ≡ suc (length (drop_index i is))
unfolding drop_index
length-drop_index i [] h = absurd (omega (arith, h))
length-drop_index i (j ∷ js) h = elim (Bool-cases (i == j)) [
  | inl e ↦ rw e refl
  | inr e ↦ rw e (omega (arith, length-drop_index i js (ground (arith, h, e))))
]

module _ (cfg : Config) (c : MapAllocatorCache) (v : IsCache cfg c) where
  pub in_array :
      (i : ℕ) → 0 < occ i c.lru_entries + occ i c.avail_entries → i < cfg.entries_array_size
  in_array i h = elim (dec_lt i cfg.entries_array_size) [
    | yes l ↦ l
    | no l ↦ let out = v.inside i (omega arith) in absurd (omega arith)
  ]

  pub remove-IsCache : (i : ℕ) → 0 < occ i c.lru_entries → IsCache cfg (remove c i)
  unfolding remove invalidate is_valid_block
  remove-IsCache i h =
      let here = v.once i (in_array i (omega (arith, h))) in
      let gone_here : occ i (drop_index i c.lru_entries) ≡ 0 =
        ground (arith, here, h, occ-drop_index i i c.lru_entries h) in
      record {
        once = λ p l. ground (arith, v.once p l, occ-drop_index i p c.lru_entries h);
        inside = λ p l. ground (arith, v.inside p l, occ-drop_index i p c.lru_entries h);
        counted = omega (arith, v.counted, length-drop_index i c.lru_entries h);
        valid = λ p l. elim (Bool-cases (p == i)) [
          | inl e ↦
              let gone : occ p (drop_index i c.lru_entries) ≡ 0 =
                subst (λ (x : ℕ). occ x (drop_index i c.lru_entries) ≡ 0) (sym (==→eq p i e))
                  gone_here in
              absurd (omega (arith, gone, l))
          | inr e ↦ rw e (v.valid p (ground (arith, l, e, occ-drop_index i p c.lru_entries h)))
        ];
        free = λ p l. elim (Bool-cases (p == i)) [
          | inl e ↦ rw e refl
          | inr e ↦ rw e (v.free p (ground (arith, l, e)))
        ];
      }

  abbrev inserted : CachedBlock → ℕ → List ℕ → MapAllocatorCache
  inserted b i is = record c {
    entries = update c.entries i b;
    lru_entries = i ∷ c.lru_entries;
    avail_entries = is;
  }

  inserted-IsCache :
      (b : CachedBlock) (i : ℕ) (is : List ℕ)
      → is_valid_block b ≡ true
      → c.avail_entries ≡ i ∷ is
      → IsCache cfg (inserted b i is) × (occ i c.lru_entries ≡ 0)
  inserted-IsCache b i is ok e =
      let was : (p : ℕ) → occ p c.avail_entries ≡ occ p (i ∷ is) = λ p. ap (occ p) e in
      let head : occ i (i ∷ is) ≡ suc (occ i is) = ground arith in
      let here = v.once i (in_array i (omega (arith, was i, head))) in
      (
        record {
          once = λ p l. omega (arith, v.once p l, was p);
          inside = λ p l. omega (arith, v.inside p l, was p);
          counted = omega (arith, v.counted, ap (λ (r : List ℕ). length r) e);
          valid = λ p l. elim (Bool-cases (p == i)) [
            | inl q ↦ rw q ok
            | inr q ↦ rw q (v.valid p (ground (arith, l, q)))
          ];
          free = λ p l. elim (Bool-cases (p == i)) [
            | inl q ↦
                let gone : occ p is ≡ 0 =
                  subst (λ (x : ℕ). occ x is ≡ 0) (sym (==→eq p i q))
                    (omega (arith, here, was i, head)) in
                absurd (omega (arith, gone, l))
            | inr q ↦ rw q (v.free p (ground (arith, l, was p)))
          ];
        },
        omega (arith, here, was i, head),
      )

  -- What an insertion comes to where an entry is available.
  abbrev Inserts : CachedBlock → Type 0
  Inserts b =
      (d : MapAllocatorCache) × (insert c b ≡ some d)
      × IsCache cfg d
      × (blocks d ≡ b ∷ blocks c)
      × (d.oldest_time ≡ c.oldest_time)

  pub insert-Inserts :
      (b : CachedBlock) → is_valid_block b ≡ true → 0 < length c.avail_entries → Inserts b
  unfolding insert
  insert-Inserts b ok room = at_head c.avail_entries refl room
    where
      at_head : (is : List ℕ) → c.avail_entries ≡ is → 0 < length is → Inserts b
      at_head [] e h = absurd (omega (arith, h))
      at_head (i ∷ is) e h =
          let (good, gone) = inserted-IsCache b i is ok e in
          (
            inserted b i is,
            rw e refl,
            good,
            λ k. update_self c.entries i b k ∷ blocks_at-update c.entries i b c.lru_entries gone k,
            refl,
          )

back-snoc : (is : List ℕ) (i : ℕ) → back (is ++ i ∷ []) ≡ some i
unfolding back
back-snoc [] i = refl
back-snoc (j ∷ []) i = refl
back-snoc (j ∷ k ∷ is) i = back-snoc (k ∷ is) i

snoc-cases : (is : List ℕ) → (is ≡ []) ⊎ ((js : List ℕ) × (j : ℕ) × (is ≡ js ++ j ∷ []))
snoc-cases [] = inl refl
snoc-cases (i ∷ is) = elim (snoc-cases is) [
  | inl e ↦ inr ([], i, ap (λ (r : List ℕ). i ∷ r) e)
  | inr (js, j, e) ↦ inr (i ∷ js, j, ap (λ (r : List ℕ). i ∷ r) e)
]

pub blocks_at-append :
    (f : ℕ → CachedBlock) (is js : List ℕ)
    → blocks_at f (is ++ js) ≡ blocks_at f is ++ blocks_at f js
blocks_at-append f [] js = refl
blocks_at-append f (i ∷ is) js = ap (λ (r : List CachedBlock). f i ∷ r) (blocks_at-append f is js)

pub length-blocks_at : (f : ℕ → CachedBlock) (is : List ℕ) → length (blocks_at f is) ≡ length is
length-blocks_at f [] = refl
length-blocks_at f (i ∷ is) = omega (arith, length-blocks_at f is)

newest-all :
    (k : ℕ) (bs : List CachedBlock) → length bs ≤ k → (newest k bs ≡ bs) × (older k bs ≡ [])
newest-all zero [] h = (refl, refl)
newest-all zero (b ∷ bs) h = absurd (omega (arith, h))
newest-all (suc k) [] h = (refl, refl)
newest-all (suc k) (b ∷ bs) h =
    let ih = newest-all k bs (omega (arith, h)) in (ap (λ (r : List CachedBlock). b ∷ r) ih.0, ih.1)

mappings-snoc :
    (bs : List CachedBlock) (b : CachedBlock)
    → mappings_from_oldest (bs ++ b ∷ []) ≡ b.mem_map ∷ mappings_from_oldest bs
mappings-snoc [] b = refl
mappings-snoc (x ∷ bs) b = ap (λ (r : List MemMap). r ++ x.mem_map ∷ []) (mappings-snoc bs b)

newest-snoc :
    (k : ℕ) (bs : List CachedBlock) (b : CachedBlock)
    → k ≤ length bs
    → (newest k (bs ++ b ∷ []) ≡ newest k bs)
      × (mappings_from_oldest (older k (bs ++ b ∷ []))
          ≡ b.mem_map ∷ mappings_from_oldest (older k bs))
newest-snoc zero bs b h = (refl, mappings-snoc bs b)
newest-snoc (suc k) [] b h = absurd (omega (arith, h))
newest-snoc (suc k) (x ∷ bs) b h =
    let ih = newest-snoc k bs b (omega (arith, h)) in
    (ap (λ (r : List CachedBlock). x ∷ r) ih.0, ih.1)

-- What the evictions come to where `k` blocks may stay.
abbrev Evicts : Config → MapAllocatorCache → ℕ → ℕ → List MemMap → Type 0
Evicts cfg c k fuel out =
    (d : MapAllocatorCache) × (evict fuel c out
      ≡ some (d, out ++ mappings_from_oldest (older k (blocks c))))
    × IsCache cfg d
    × (blocks d ≡ newest k (blocks c))
    × (d.oldest_time ≡ c.oldest_time)

evict_last :
    (cfg : Config) (c : MapAllocatorCache) (v : IsCache cfg c) (js : List ℕ) (j : ℕ)
    → c.lru_entries ≡ js ++ j ∷ []
    → IsCache cfg (remove c j)
      × ((remove c j).lru_entries ≡ js)
      × (blocks c ≡ blocks (remove c j) ++ c.entries j ∷ [])
      × ((remove c j).max_entries_count ≡ c.max_entries_count)
      × ((remove c j).oldest_time ≡ c.oldest_time)
unfolding remove
evict_last cfg c v js j e =
    let split = ap (occ j) e ∙ occ-append j js (j ∷ []) in
    let one : occ j (j ∷ []) ≡ 1 = ground arith in
    let here = v.once j (in_array cfg c v j (omega (arith, split, one))) in
    let gone : occ j js ≡ 0 = omega (arith, split, one, here) in
    let list = ap (drop_index j) e ∙ drop_index-middle j js [] gone ∙ append-nil js in
    (
      remove-IsCache cfg c v j (omega (arith, split, one)),
      list,
      ap (blocks_at c.entries) e
          ∙ blocks_at-append c.entries js (j ∷ [])
          ∙ ap (λ (r : List CachedBlock). r ++ c.entries j ∷ [])
              (sym (
                ap (blocks_at (remove c j).entries) list
                ∙ blocks_at-update c.entries j (invalidate (c.entries j)) js gone)),
      refl,
      refl,
    )

evict_many :
    (c : MapAllocatorCache) (js : List ℕ) (j k fuel : ℕ) (out : List MemMap) (d : MapAllocatorCache)
    {ms : List MemMap}
    → c.max_entries_count ≡ suc k
    → k < length c.lru_entries
    → c.lru_entries ≡ js ++ j ∷ []
    → evict fuel (remove c j) (out ++ (c.entries j).mem_map ∷ []) ≡ some (d, ms)
    → evict (suc fuel) c out ≡ some (d, ms)
unfolding evict
evict_many c js j k fuel out d e many at f =
    let test : leb c.max_entries_count (length c.lru_entries) ≡ true = ground (arith, e, many) in
    simp (test, ap back at ∙ back-snoc js j, f) refl

evict_few :
    (c : MapAllocatorCache) (k fuel : ℕ) (out : List MemMap)
    → c.max_entries_count ≡ suc k
    → ¬ (k < length c.lru_entries)
    → evict (suc fuel) c out ≡ some (c, out)
unfolding evict
evict_few c k fuel out e few =
    let test : leb c.max_entries_count (length c.lru_entries) ≡ false = ground (arith, e, few) in
    simp test refl

evict-Evicts :
    (cfg : Config) (c : MapAllocatorCache) (k fuel : ℕ) (out : List MemMap)
    → IsCache cfg c
    → c.max_entries_count ≡ suc k
    → length c.lru_entries < fuel
    → Evicts cfg c k fuel out
evict-Evicts cfg c k zero out v e less = absurd (omega arith)
evict-Evicts cfg c k (suc fuel) out v e less = elim (dec_lt k (length c.lru_entries)) [
  | yes many ↦ elim (snoc-cases c.lru_entries) [
    | inl none_left ↦ absurd (omega (arith, ap (λ (r : List ℕ). length r) none_left))
    | inr (js, j, at) ↦
        let (v', list, split, same_max, same_time) = evict_last cfg c v js j at in
        let len = ap (λ (r : List ℕ). length r) at ∙ length-append js (j ∷ []) in
        let len' = ap (λ (r : List ℕ). length r) list in
        let (d, f, done, same, time) =
          evict-Evicts cfg (remove c j) k fuel (out ++ (c.entries j).mem_map ∷ []) v' (same_max ∙ e)
            (omega (arith, len, len')) in
        let step = newest-snoc k (blocks (remove c j)) (c.entries j) (
          omega (
            arith,
            many,
            len,
            len',
            length-blocks_at (remove c j).entries (remove c j).lru_entries,
          )) in
        (
          d,
          evict_many c js j k fuel out d e many at f
              ∙ ap (λ (r : List MemMap). some (d, r))
                  (append_assoc out ((c.entries j).mem_map ∷ []) _
                    ∙ ap (λ (r : List MemMap). out ++ r)
                        (sym (
                          ap (λ (r : List CachedBlock). mappings_from_oldest (older k r)) split
                          ∙ step.1))),
          done,
          same ∙ sym (ap (newest k) split ∙ step.0),
          time ∙ same_time,
        )
  ]
  | no few ↦
      let all =
        newest-all k (blocks c) (omega (arith, few, length-blocks_at c.entries c.lru_entries)) in
      (
        c,
        evict_few c k fuel out e few
            ∙ ap (λ (r : List MemMap). some (c, r))
                (sym (
                  ap (λ (r : List CachedBlock). out ++ mappings_from_oldest r) all.1
                  ∙ append-nil out)),
        v,
        sym all.0,
        refl,
      )
]

length-newest : (k : ℕ) (bs : List CachedBlock) → length (newest k bs) ≤ k
length-newest zero bs = omega arith
length-newest (suc k) [] = omega arith
length-newest (suc k) (b ∷ bs) = omega (arith, length-newest k bs)

retimed-IsCache :
    (cfg : Config) (c : MapAllocatorCache) (t : ℕ)
    → IsCache cfg c
    → IsCache cfg (record c { oldest_time = t })
retimed-IsCache cfg c t v = record {
  once = v.once;
  inside = v.inside;
  counted = v.counted;
  valid = v.valid;
  free = v.free;
}

-- With the lock held, a valid block becomes the most recent one of the cache; of the others the most
-- recent stay, as many as the limit allows besides it, and the mappings of the rest are given up, the
-- oldest first.
pub place-newest :
    (cfg : Config) (c : MapAllocatorCache) (k : ℕ) (b : CachedBlock)
    → IsCache cfg c
    → c.max_entries_count ≡ suc k
    → k < cfg.entries_array_size
    → is_valid_block b ≡ true
    → (d : MapAllocatorCache) × (place c b ≡ some (d, mappings_from_oldest (older k (blocks c))))
      × IsCache cfg d
      × (blocks d ≡ b ∷ newest k (blocks c))
unfolding place
place-newest cfg c k b v e room ok =
    let (d, f, v', same, _) =
      evict-Evicts cfg c k (suc (length c.lru_entries)) [] v e (omega arith) in
    let few : length d.lru_entries ≤ k = omega (
      arith,
      ap (λ (r : List CachedBlock). length r) same,
      length-newest k (blocks c),
      length-blocks_at d.entries d.lru_entries,
    ) in
    let (g, h, v'', same', _) =
      insert-Inserts cfg d v' b ok (omega (arith, v'.counted, few, room)) in
    (
      record g { oldest_time = if g.oldest_time == 0 then b.time else g.oldest_time },
      simp (f, h) refl,
      retimed-IsCache cfg g _ v'',
      same' ∙ ap (λ (r : List CachedBlock). b ∷ r) same,
    )
