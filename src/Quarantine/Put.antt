-- ===== src/Quarantine/Put.antt =====
-- `put` and `drainAndRecycle` of quarantine.h.
use scudo.Common.{
  ℕ, ◌+◌, ◌^◌, ◌≤◌, ◌<◌, Bool, Bool-cases, Option, none, some, List, [], ◌∷◌, ltb, ◌==◌,
  if◌then◌else◌, add_uptr, arith, ◌≡◌, refl, sym, subst, ◌∙◌, inl, inr, All, All-append,
}
use scudo.Arith.Shuffle.{occurrences, same, occurrences-append}
use scudo.Quarantine.{GlobalQuarantine, empty_cache, transfer_from, drain_and_recycle, put, Drained}
use scudo.Quarantine.Cache.{
  QuarantineBatch, QuarantineCache, batch_bytes, max_count, count, init_batch, push_back,
  enqueue_batch, push_last, enqueue, total_size,
}
use scudo.Quarantine.Recycle.{
  recycle-Recycled, Conserved, drain-Conserved, transfer_from-IsSized, held-transfer, emptied,
}
use scudo.Quarantine.Conserve.{held, recycled, HoldsHeader, IsSized, held-append, total_size-append}

-- What the list of batches is once a chunk has gone to its last batch.
record Pushed (bs : List QuarantineBatch) (ptr size : ℕ) (r : List QuarantineBatch) : Type 0 where
  pub headers : All HoldsHeader r
  pub total : total_size r ≡ total_size bs + size
  pub held_too : (p : ℕ) → held p r ≡ held p bs + same p ptr

occurrences-push_back :
    (p : ℕ)
    → (b : QuarantineBatch) → (ptr size : ℕ)
    → occurrences p (push_back b ptr size).chunks ≡ occurrences p b.chunks + same p ptr
unfolding push_back occurrences
occurrences-push_back p b ptr size = omega (arith, occurrences-append p b.chunks (ptr ∷ []))

PushOutcome : List QuarantineBatch → ℕ → ℕ → Option (List QuarantineBatch) → Type 0
PushOutcome bs ptr size none = Unit
PushOutcome bs ptr size (some r) = Pushed bs ptr size r

-- A batch in front stays in front.
push_behind :
    (b : QuarantineBatch)
    → (bs : List QuarantineBatch) → (ptr size : ℕ) → HoldsHeader b
    → (o : Option (List QuarantineBatch)) → PushOutcome bs ptr size o
    → PushOutcome (b ∷ bs) ptr size (elim o [ some r ↦ some (b ∷ r) | none ↦ none ])
unfolding PushOutcome total_size held
push_behind b bs ptr size h none p = tt
push_behind b bs ptr size h (some r) o = record {
  headers = (h, o.headers);
  total = omega (arith, o.total);
  held_too = λ p. omega (arith, o.held_too p);
}

push_last-PushOutcome :
    (bs : List QuarantineBatch)
    → (ptr size : ℕ) → All HoldsHeader bs
    → total_size bs + size < 2 ^ 64
    → PushOutcome bs ptr size (push_last bs ptr size)
unfolding push_last push_back total_size held PushOutcome
push_last-PushOutcome [] ptr size h fits = tt
push_last-PushOutcome (b ∷ []) ptr size h fits = elim (Bool-cases (count b == max_count)) [
  | inl full ↦ simp (full) tt
  | inr room ↦
      subst
        (λ c. PushOutcome (b ∷ []) ptr size (if c then none else some (push_back b ptr size ∷ [])))
        (sym room)
        (record {
          headers = (omega (arith, h.0), tt);
          total = omega arith;
          held_too = λ p. omega (arith, occurrences-push_back p b ptr size);
        })
]
push_last-PushOutcome (b ∷ b' ∷ bs) ptr size h fits =
    push_behind b (b' ∷ bs) ptr size h.0 (push_last (b' ∷ bs) ptr size)
      (push_last-PushOutcome (b' ∷ bs) ptr size h.1 (omega arith))

-- What the thread's cache is once the chunk is in it.
record Enqueued (c : QuarantineCache) (ptr size : ℕ) (r : QuarantineCache) : Type 0 where
  pub sized : IsSized r
  pub grows : r.size ≤ c.size + size + batch_bytes
  pub held_too : (p : ℕ) → held p r.list ≡ held p c.list + same p ptr

enqueue_new :
    (batch_addr : ℕ)
    → (c : QuarantineCache) → (ptr size : ℕ) → IsSized c
    → c.size + size + batch_bytes < 2 ^ 64
    → Enqueued c ptr size (enqueue_batch c (init_batch batch_addr ptr size))
unfolding enqueue_batch init_batch total_size held occurrences
enqueue_new batch_addr c ptr size s fits =
    let b : QuarantineBatch = init_batch batch_addr ptr size in
    record {
      sized = record {
        headers = All-append HoldsHeader c.list (b ∷ []) s.headers (omega arith, tt);
        total = omega (arith, total_size-append c.list (b ∷ []), s.total);
        bound = omega arith;
      };
      grows = omega arith;
      held_too = λ p. omega (arith, held-append p c.list (b ∷ []));
    }

enqueue_by :
    (batch_addr : ℕ)
    → (c : QuarantineCache) → (ptr size : ℕ) → IsSized c
    → c.size + size + batch_bytes < 2 ^ 64
    → (o : Option (List QuarantineBatch)) → PushOutcome c.list ptr size o
    → Enqueued c ptr size (elim o [
      | some r ↦ record { list = r; size = add_uptr c.size size }
      | none ↦ enqueue_batch c (init_batch batch_addr ptr size)
    ])
unfolding PushOutcome
enqueue_by batch_addr c ptr size s fits none o = enqueue_new batch_addr c ptr size s fits
enqueue_by batch_addr c ptr size s fits (some r) o = record {
  sized = record {
    headers = o.headers;
    total = omega (arith, o.total, s.total);
    bound = omega arith;
  };
  grows = omega arith;
  held_too = o.held_too;
}

enqueue-Enqueued :
    (batch_addr : ℕ)
    → (c : QuarantineCache) → (ptr size : ℕ) → IsSized c
    → c.size + size + batch_bytes < 2 ^ 64
    → Enqueued c ptr size (enqueue batch_addr c ptr size)
unfolding enqueue
enqueue-Enqueued batch_addr c ptr size s fits =
    enqueue_by batch_addr c ptr size s fits (push_last c.list ptr size)
      (push_last-PushOutcome c.list ptr size s.headers (omega (arith, s.total)))

-- The chunks that the call adds: those of the thread's cache and the new one.
abbrev pub added : QuarantineCache → ℕ → ℕ → ℕ
added c ptr p = held p c.list + same p ptr

-- Where the size of each of the two caches is the sum of those of its batches, each at least that
-- of a batch's header, and both sizes, the new chunk's and one header come to less than 2^64: put
-- returns, the sizes of both caches stay those of their batches, the thread's cache ends within its
-- limit, and every chunk is as often in the two caches and among the recycled ones as it was in the
-- caches before, the new one once more.
pub put-Conserved :
    (cache_addr : ℕ)
    → (try_lock : Bool) → (batch_addr : ℕ) → (g : GlobalQuarantine) → (c : QuarantineCache)
    → (ptr size : ℕ) → IsSized g.cache
    → IsSized c
    → g.cache.size + c.size + size + batch_bytes < 2 ^ 64
    → (d : Drained) × (put cache_addr try_lock batch_addr g c ptr size ≡ some d)
      × Conserved g g.max_cache_size (added c ptr) d
unfolding put recycled
put-Conserved cache_addr try_lock batch_addr g c ptr size sg sc fits =
    let e = enqueue-Enqueued batch_addr c ptr size sc (omega arith) in
    let filled = enqueue batch_addr c ptr size in
    elim (Bool-cases (ltb g.max_cache_size filled.size)) [
      | inl over ↦
          let d =
            drain-Conserved cache_addr try_lock g filled sg e.sized (omega (arith, e.grows)) in
          (
            d.0,
            simp (over) d.1,
            record {
              global_sized = d.2.global_sized;
              local_sized = d.2.local_sized;
              local_below = omega (arith, d.2.local_below);
              conserved = λ p. omega (arith, d.2.conserved p, e.held_too p);
              limits = d.2.limits;
            },
          )
      | inr under ↦ (
        (g, filled, []),
        simp (under) refl,
        record {
          global_sized = sg;
          local_sized = e.sized;
          local_below = ground arith;
          conserved = λ p. omega (arith, e.held_too p);
          limits = (refl, refl, refl);
        },
      )
    ]

-- A sized cache of no bytes has no batch.
empty_of_zero : (c : QuarantineCache) → IsSized c → c.size ≡ 0 → (p : ℕ) → held p c.list ≡ 0
unfolding held total_size
empty_of_zero c s z = no_batch c.list s.headers (sym s.total ∙ z)
  where
    no_batch :
        (bs : List QuarantineBatch)
        → All HoldsHeader bs
        → total_size bs ≡ 0
        → (p : ℕ) → held p bs ≡ 0
    no_batch [] h t p = refl
    no_batch (b ∷ bs) h t p = absurd (omega (arith, h.0))

-- Where the size of each of the two caches is the sum of those of its batches, each at least that
-- of a batch's header, and both sizes come to less than 2^64: drainAndRecycle returns with both
-- caches empty, and recycles each chunk as often as it was in them.
pub drain_and_recycle-recycled :
    (cache_addr : ℕ)
    → (g : GlobalQuarantine) → (c : QuarantineCache) → IsSized g.cache
    → IsSized c
    → g.cache.size + c.size < 2 ^ 64
    → (d : Drained) × (drain_and_recycle cache_addr g c ≡ some d)
      × (d.0.cache.size ≡ 0)
      × (d.1.size ≡ 0)
      × ((p : ℕ) → recycled p d.2 ≡ held p g.cache.list + held p c.list)
unfolding drain_and_recycle
drain_and_recycle-recycled cache_addr g c sg sc fits =
    let after = transfer_from g c in
    let r = recycle-Recycled cache_addr 0 after.0 (transfer_from-IsSized g c sg sc fits) in
    let zero_size : r.0.0.cache.size ≡ 0 = omega (arith, r.2.below) in
    (
      (r.0.0, empty_cache, r.0.1),
      simp (r.1, emptied g c) refl,
      zero_size,
      refl,
      λ p. omega (
        arith,
        r.2.conserved p,
        held-transfer p g c,
        empty_of_zero r.0.0.cache r.2.sized zero_size p,
      ),
    )
