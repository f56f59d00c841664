-- ===== src/LocalCache/Conserve.antt =====
-- Every block of a class is in the cache of the thread or with the primary allocator.
use scudo.Common.{
  ℕ, zero, suc, subst, ◌+◌, ◌/◌, ◌≤◌, ◌≡◌, ◌≢◌, refl, sym, ap, ◌∙◌, inl, inr, Bool, Option, none,
  some, List, [], ◌∷◌, ◌++◌, ◌==◌, if◌then◌else◌, arith, length, length-append, update_self, min,
  Bool-cases, ==→eq, ==→ne,
}
use scudo.Secondary.Lru.{occ, occ-append}
use scudo.LocalCache.{
  SizeClassAllocator, PerClass, LocalCache, with_chunks, give_block, first, rest, unsnoc,
  unsnoc_onto, refill, drain_half, hand_out, allocate,
}

-- The blocks that the primary allocator has of a class: it hands out at most what was asked for, and
-- keeps what it is given.
pub record IsPrimary {S : Type 0} (alloc : SizeClassAllocator S) (blocks : S → ℕ → List ℕ)
    : Type 0 where
  pub popped :
      (s : S) (id n p : ℕ)
      → occ p (blocks s id)
        ≡ occ p (alloc.pop_blocks s id n).0 + occ p (blocks (alloc.pop_blocks s id n).1 id)
  pub few : (s : S) (id n : ℕ) → length (alloc.pop_blocks s id n).0 ≤ n
  pub pushed :
      (s : S) (id p : ℕ) (xs : List ℕ)
      → occ p (blocks (alloc.push_blocks s id xs) id) ≡ occ p (blocks s id) + occ p xs

pub occ-first-rest : (p n : ℕ) (xs : List ℕ) → occ p (first n xs) + occ p (rest n xs) ≡ occ p xs
occ-first-rest p zero xs = omega arith
occ-first-rest p (suc n) [] = refl
occ-first-rest p (suc n) (x ∷ xs) = omega (arith, occ-first-rest p n xs)

-- What was taken off the end was there once more than it is now.
abbrev Off : List ℕ → Option (ℕ × List ℕ) → Type 0
Off xs none = xs ≡ []
Off xs (some (y, ys)) = ((p : ℕ) → occ p xs ≡ occ p (y ∷ ys)) × (length xs ≡ suc (length ys))

onto-Off :
    (x : ℕ) (xs : List ℕ) (o : Option (ℕ × List ℕ))
    → Off xs o
    → Off (x ∷ xs) (some (unsnoc_onto x o))
onto-Off x xs none e =
    ((λ p. ap (λ (r : List ℕ). occ p (x ∷ r)) e), ap (λ (r : List ℕ). suc (length r)) e)
onto-Off x xs (some (y, ys)) (same, len) = ((λ p. omega (arith, same p)), omega (arith, len))

unsnoc-Off : (xs : List ℕ) → Off xs (unsnoc xs)
unsnoc-Off [] = refl
unsnoc-Off (x ∷ xs) = onto-Off x xs (unsnoc xs) (unsnoc-Off xs)

-- How often a block is in the cache of the class or with the primary allocator.
abbrev pub held : {S : Type 0} → (S → ℕ → List ℕ) → LocalCache → S → ℕ → ℕ → ℕ
held blocks c s id p = occ p (c.classes id).chunks + occ p (blocks s id)

module _ {S : Type 0} (alloc : SizeClassAllocator S) (blocks : S → ℕ → List ℕ)
    (h : IsPrimary alloc blocks) (id : ℕ) where
  -- The cache and the primary allocator after a call, with the block `b` less.
  abbrev pub Gave : LocalCache → S → List ℕ → LocalCache → S → Type 0
  Gave c s b d t =
      ((p : ℕ) → held blocks c s id p ≡ held blocks d t id p + occ p b)
      × (length (d.classes id).chunks ≤ (d.classes id).max_count)
      × ((d.classes id).max_count ≡ (c.classes id).max_count)

  with_chunks-Gave :
      (c : LocalCache) (s : S) (b : List ℕ) (xs : List ℕ) (t : S)
      → ((p : ℕ) → held blocks c s id p ≡ occ p xs + occ p (blocks t id) + occ p b)
      → length xs ≤ (c.classes id).max_count
      → Gave c s b (with_chunks c id xs) t
  with_chunks-Gave c s b xs t same fits =
      subst
        (λ (q : PerClass).
          ((p : ℕ) → held blocks c s id p ≡ occ p q.chunks + occ p (blocks t id) + occ p b)
          × (length q.chunks ≤ q.max_count)
          × (q.max_count ≡ (c.classes id).max_count))
        (sym (update_self c.classes id (record (c.classes id) { chunks = xs }))) (same, fits, refl)

  Gave-then :
      (c : LocalCache) (s : S) (d : LocalCache) (t : S) (b : List ℕ) (e : LocalCache) (u : S)
      → Gave c s [] d t
      → Gave d t b e u
      → Gave c s b e u
  Gave-then c s d t b e u (one, _, m) (two, fits, n) =
      ((λ p. omega (arith, one p, two p)), fits, n ∙ m)

  refill-Gave :
      (c : LocalCache) (s : S) (n : ℕ)
      → length (c.classes id).chunks + n ≤ (c.classes id).max_count
      → Gave c s [] (refill alloc c s id n).0 (refill alloc c s id n).1
  unfolding refill
  refill-Gave c s n fits =
      with_chunks-Gave c s [] _ _
        (λ p. omega (
          arith,
          occ-append p (c.classes id).chunks (alloc.pop_blocks s id n).0,
          h.popped s id n p,
        ))
        (omega (
          arith,
          length-append (c.classes id).chunks (alloc.pop_blocks s id n).0,
          h.few s id n,
          fits,
        ))

  abbrev drained : LocalCache → ℕ
  drained c = min ((c.classes id).max_count / 2) (length (c.classes id).chunks)

  -- What `hand_out` ends with.
  abbrev Given : LocalCache → S → Option ℕ × LocalCache × S → Type 0
  Given c s (none, d, t) = ((c.classes id).chunks ≡ []) × Gave c s [] d t
  Given c s (some q, d, t) = (x : ℕ) × (q ≡ alloc.decompact_ptr id x) × Gave c s (x ∷ []) d t

  -- No block is handed out only when the cache has none and the primary allocator gives none.
  unfoldable pub Handed : LocalCache → S → Option ℕ × LocalCache × S → Type 0
  Handed c s (none, d, t) =
      ((c.classes id).chunks ≡ [])
      × ((alloc.pop_blocks s id ((c.classes id).max_count / 2)).0 ≡ [])
      × Gave c s [] d t
  Handed c s (some q, d, t) = (x : ℕ) × (q ≡ alloc.decompact_ptr id x) × Gave c s (x ∷ []) d t

  give_block-Given :
      (c : LocalCache) (s : S) (o : Option (ℕ × List ℕ))
      → Off (c.classes id).chunks o
      → length (c.classes id).chunks ≤ (c.classes id).max_count
      → Given c s (give_block alloc c s id o)
  give_block-Given c s none e fits = (e, ((λ p. omega arith), fits, refl))
  give_block-Given c s (some (x, xs)) (same, len) fits = (
    x,
    refl,
    with_chunks-Gave c s (x ∷ []) xs s (λ p. omega (arith, occ-append p (x ∷ []) xs, same p))
        (omega (arith, len, fits)),
  )

  hand_out-Given :
      (c : LocalCache) (s : S)
      → length (c.classes id).chunks ≤ (c.classes id).max_count
      → Given c s (hand_out alloc (c, s) id)
  hand_out-Given c s fits =
      give_block-Given c s (unsnoc (c.classes id).chunks) (unsnoc-Off (c.classes id).chunks) fits

  after_refill :
      (c : LocalCache) (s : S) (d : LocalCache) (t : S) (r : Option ℕ × LocalCache × S)
      → (c.classes id).chunks ≡ []
      → (d.classes id).chunks ≡ (alloc.pop_blocks s id ((c.classes id).max_count / 2)).0
      → Gave c s [] d t
      → Given d t r
      → Handed c s r
  unfolding Handed
  after_refill c s d t (none, e, u) empty popped g (gone, k) =
      (empty, sym popped ∙ gone, Gave-then c s d t [] e u g k)
  after_refill c s d t (some q, e, u) empty popped g (x, at, k) =
      (x, at, Gave-then c s d t (x ∷ []) e u g k)

  not_empty :
      (c : LocalCache) (s : S) (r : Option ℕ × LocalCache × S)
      → length (c.classes id).chunks ≢ 0
      → Given c s r
      → Handed c s r
  unfolding Handed
  not_empty c s (none, e, u) some_left (gone, k) =
      absurd (some_left (ap (λ (xs : List ℕ). length xs) gone))
  not_empty c s (some q, e, u) some_left k = k

  empty_list : (xs : List ℕ) → length xs ≡ 0 → xs ≡ []
  empty_list [] e = refl
  empty_list (x ∷ xs) e = absurd (omega (arith, e))

  refill-chunks :
      (c : LocalCache) (s : S) (n : ℕ)
      → (c.classes id).chunks ≡ []
      → ((refill alloc c s id n).0.classes id).chunks ≡ (alloc.pop_blocks s id n).0
  unfolding refill
  refill-chunks c s n empty =
      ap (λ (q : PerClass). q.chunks)
        (update_self c.classes id
          (record (c.classes id) { chunks = (c.classes id).chunks ++ (alloc.pop_blocks s id n).0 }))
      ∙ ap (λ (xs : List ℕ). xs ++ (alloc.pop_blocks s id n).0) empty

  -- Over a primary allocator that pops no more blocks than it is asked for, all from those it
  -- has, where the class holds no more than it may: allocate returns no block only when the
  -- class has none and the primary allocator pops none; a block that it returns is gone from
  -- the cache and the primary allocator once, every other one is as often there, and the class
  -- still holds no more than it may.
  pub allocate-Handed :
      (c : LocalCache) (s : S)
      → length (c.classes id).chunks ≤ (c.classes id).max_count
      → Handed c s (allocate alloc c s id)
  unfolding allocate
  allocate-Handed c s fits = elim (Bool-cases (length (c.classes id).chunks == 0)) [
    | inl t ↦
        let zero_len = ==→eq (length (c.classes id).chunks) 0 t in
        let empty = empty_list (c.classes id).chunks zero_len in
        let half = (c.classes id).max_count / 2 in
        let g = refill-Gave c s half (omega (arith, zero_len)) in
        let d = (refill alloc c s id half).0 in
        let u = (refill alloc c s id half).1 in
        subst
          (λ (b : Bool).
            Handed c s (hand_out alloc (if b then refill alloc c s id half else (c, s)) id))
          (sym t)
          (after_refill c s d u (hand_out alloc (d, u) id) empty (refill-chunks c s half empty) g
            (hand_out-Given d u g.1))
    | inr f ↦
        subst
          (λ (b : Bool). Handed c s (
            hand_out alloc
              (if b then refill alloc c s id ((c.classes id).max_count / 2) else (c, s)) id))
          (sym f)
          (not_empty c s (hand_out alloc (c, s) id) (==→ne (length (c.classes id).chunks) 0 f)
            (hand_out-Given c s fits))
  ]

  -- A block more is held than before, and the array has room for what it holds.
  unfoldable pub Kept : LocalCache → S → ℕ → Bool × LocalCache × S → Type 0
  Kept c s ptr (_, d, t) =
      ((p : ℕ)
        → held blocks d t id p ≡ held blocks c s id p + occ p (alloc.compact_ptr id ptr ∷ []))
      × (length (d.classes id).chunks ≤ (c.classes id).max_count)

  abbrev deallocated : LocalCache → S → ℕ → Bool → Bool × LocalCache × S
  deallocated c s ptr b =
      let d = if b then drain_half alloc c s id else (c, s) in
      (b, with_chunks d.0 id ((d.0.classes id).chunks ++ alloc.compact_ptr id ptr ∷ []), d.1)
