-- ===== src/Quarantine/Recycle.antt =====
-- `recycle`, `drain` and `put` of quarantine.h end, keep the sizes and lose no chunk.
use scudo.Common.{
  ℕ, ◌+◌, ◌^◌, ◌≤◌, ◌<◌, Bool, Bool-cases, ◌&&◌, some, List, [], ◌∷◌, ltb, arith, ◌≡◌, refl, ap,
  subst, ◌∙◌, inl, inr, All, All-append, All-right,
}
use scudo.Quarantine.{
  Callback, GlobalQuarantine, empty_cache, do_recycle, should_merge, merge_if_needed, recycle,
  transfer_from, drain, Drained,
}
use scudo.Quarantine.Cache.{QuarantineBatch, QuarantineCache, transfer, merge_batches, total_size}
use scudo.Quarantine.Conserve.{
  held, recycled, HoldsHeader, IsSized, held-append, total_size-append, recycled-do_recycle,
  extract_batches-Extracted, merge_into-Merged,
}

-- What the merge keeps of a cache, with the emptied batches at the side.
record Tidied (c : QuarantineCache) (r : QuarantineCache × QuarantineCache) : Type 0 where
  pub sized : IsSized r.0
  pub shrinks : r.0.size ≤ c.size
  pub kept : (p : ℕ) → held p r.0.list ≡ held p c.list
  pub emptied : (p : ℕ) → held p r.1.list ≡ 0

untouched-Tidied : (c : QuarantineCache) → IsSized c → Tidied c (c, empty_cache)
unfolding held
untouched-Tidied c s = record {
  sized = s;
  shrinks = omega arith;
  kept = λ p. refl;
  emptied = λ p. refl;
}

-- By the batches of the cache.
merge_batches-Tidied :
    (bs : List QuarantineBatch)
    → (n : ℕ) → IsSized (record { list = bs; size = n })
    → Tidied
        (record { list = bs; size = n })
        (merge_batches (record { list = bs; size = n }) empty_cache)
unfolding merge_batches total_size held
merge_batches-Tidied [] n s = record {
  sized = s;
  shrinks = omega arith;
  kept = λ p. refl;
  emptied = λ p. refl;
}
merge_batches-Tidied (b ∷ bs) n s =
    let m = merge_into-Merged b bs s.headers.0 s.headers.1 (omega (arith, s.total, s.bound)) in
    record {
      sized = record {
        headers = m.headers;
        total = omega (arith, m.total, s.total, s.bound);
        bound = omega arith;
      };
      shrinks = omega (arith, m.total, s.total, s.bound);
      kept = m.kept;
      emptied = m.emptied;
    }

merge_if_needed-Tidied : (c : QuarantineCache) → IsSized c → Tidied c (merge_if_needed c)
unfolding merge_if_needed
merge_if_needed-Tidied c s = elim (Bool-cases (should_merge c)) [
  | inl due ↦ simp (due) (merge_batches-Tidied c.list c.size s)
  | inr spare ↦ simp (spare) (untouched-Tidied c s)
]

-- What a recycling to the limit makes of the quarantine.
pub record Recycled (limit : ℕ) (g : GlobalQuarantine) (r : GlobalQuarantine × List Callback)
    : Type 0 where
  pub sized : IsSized r.0.cache
  pub below : r.0.cache.size ≤ limit
  pub shrinks : r.0.cache.size ≤ g.cache.size
  pub conserved : (p : ℕ) → recycled p r.1 + held p r.0.cache.list ≡ held p g.cache.list
  pub limits :
      (r.0.min_size ≡ g.min_size)
      × (r.0.max_size ≡ g.max_size)
      × (r.0.max_cache_size ≡ g.max_cache_size)

-- Where the size of the cache is the sum of those of its batches, each at least that of a batch's
-- header, and fits in 64 bits, recycle never dequeues from an empty list: it returns with the size
-- at or below the limit, the size is that of the batches that stay, and each chunk is recycled or
-- stays, as often as it was there.
pub recycle-Recycled :
    (cache_addr limit : ℕ)
    → (g : GlobalQuarantine) → IsSized g.cache
    → (r : GlobalQuarantine × List Callback) × (recycle cache_addr limit g ≡ some r)
      × Recycled limit g r
unfolding recycle
recycle-Recycled cache_addr limit g s =
    let t = merge_if_needed-Tidied g.cache s in
    let m = merge_if_needed g.cache in
    let e = extract_batches-Extracted m.0.list m.0.size limit m.1 t.sized.total t.sized.bound in
    let conserved : (p : ℕ)
        → recycled p (do_recycle cache_addr e.0.1.list) + held p e.0.0.list ≡ held p g.cache.list =
      λ p. omega (
        arith,
        recycled-do_recycle p cache_addr e.0.1.list,
        ap (held p) e.2.split,
        ap (held p) e.2.moved,
        held-append p e.2.prefix e.0.0.list,
        held-append p m.1.list e.2.prefix,
        t.kept p,
        t.emptied p,
      ) in
    (
      (record g { cache = e.0.0 }, do_recycle cache_addr e.0.1.list),
      simp (e.1) refl,
      record {
        sized = record {
          headers =
              All-right HoldsHeader e.2.prefix e.0.0.list
                (subst (All HoldsHeader) e.2.split t.sized.headers);
          total = e.2.total;
          bound = omega (arith, e.2.shrinks, t.sized.bound);
        };
        below = e.2.below;
        shrinks = omega (arith, e.2.shrinks, t.shrinks);
        conserved = conserved;
        limits = (refl, refl, refl);
      },
    )

-- The caches and the calls after a step that took in `added`, which says how often each chunk was.
pub record Conserved (g : GlobalQuarantine) (limit : ℕ) (added : ℕ → ℕ) (d : Drained) : Type 0 where
  pub global_sized : IsSized d.0.cache
  pub local_sized : IsSized d.1
  pub local_below : d.1.size ≤ limit
  pub conserved :
      (p : ℕ)
      → recycled p d.2 + held p d.0.cache.list + held p d.1.list ≡ held p g.cache.list + added p
  pub limits :
      (d.0.min_size ≡ g.min_size)
      × (d.0.max_size ≡ g.max_size)
      × (d.0.max_cache_size ≡ g.max_cache_size)

pub transfer_from-IsSized :
    (g : GlobalQuarantine)
    → (c : QuarantineCache) → IsSized g.cache
    → IsSized c
    → g.cache.size + c.size < 2 ^ 64
    → IsSized (transfer_from g c).0.cache
unfolding transfer_from transfer
transfer_from-IsSized g c sg sc fits = record {
  headers = All-append HoldsHeader g.cache.list c.list sg.headers sc.headers;
  total = omega (arith, total_size-append g.cache.list c.list, sg.total, sc.total);
  bound = omega arith;
}

pub held-transfer :
    (p : ℕ)
    → (g : GlobalQuarantine) → (c : QuarantineCache)
    → held p (transfer_from g c).0.cache.list ≡ held p g.cache.list + held p c.list
unfolding transfer_from transfer
held-transfer p g c = held-append p g.cache.list c.list

pub emptied : (g : GlobalQuarantine) → (c : QuarantineCache) → (transfer_from g c).1 ≡ empty_cache
unfolding transfer_from transfer
emptied g c = refl

transfer_limits :
    (g : GlobalQuarantine)
    → (c : QuarantineCache)
    → ((transfer_from g c).0.min_size ≡ g.min_size)
      × ((transfer_from g c).0.max_size ≡ g.max_size)
      × ((transfer_from g c).0.max_cache_size ≡ g.max_cache_size)
unfolding transfer_from
transfer_limits g c = (refl, refl, refl)

pub empty_cache-IsSized : IsSized empty_cache
unfolding total_size
empty_cache-IsSized = record { headers = tt; total = refl; bound = omega arith }

module _ (cache_addr : ℕ) (try_lock : Bool) (g : GlobalQuarantine) (c : QuarantineCache)
    (sg : IsSized g.cache) (sc : IsSized c) (fits : g.cache.size + c.size < 2 ^ 64) where
  transferred : Conserved g 0 (λ p. held p c.list) ((transfer_from g c).0, empty_cache, [])
  unfolding held recycled
  transferred = record {
    global_sized = transfer_from-IsSized g c sg sc fits;
    local_sized = empty_cache-IsSized;
    local_below = omega arith;
    conserved = λ p. omega (arith, held-transfer p g c);
    limits = transfer_limits g c;
  }

  recycle_transferred :
      (limit : ℕ)
      → (r : GlobalQuarantine × List Callback) → Recycled limit (transfer_from g c).0 r
      → Conserved g 0 (λ p. held p c.list) (r.0, empty_cache, r.1)
  unfolding held
  recycle_transferred limit r o = record {
    global_sized = o.sized;
    local_sized = empty_cache-IsSized;
    local_below = omega arith;
    conserved = λ p. omega (arith, held-transfer p g c, o.conserved p);
    limits = (
      o.limits.0 ∙ (transfer_limits g c).0,
      o.limits.1 ∙ (transfer_limits g c).1,
      o.limits.2 ∙ (transfer_limits g c).2,
    );
  }

  pub drain-Conserved :
      (d : Drained) × (drain cache_addr try_lock g c ≡ some d)
      × Conserved g 0 (λ p. held p c.list) d
  unfolding drain
  drain-Conserved =
      let after = transfer_from g c in
      elim (Bool-cases (ltb after.0.max_size after.0.cache.size && try_lock)) [
        | inl due ↦
            let r =
              recycle-Recycled cache_addr after.0.min_size after.0
                (transfer_from-IsSized g c sg sc fits) in
            (
              (r.0.0, empty_cache, r.0.1),
              simp (due, r.1, emptied g c) refl,
              recycle_transferred after.0.min_size r.0 r.2,
            )
        | inr spare ↦ ((after.0, empty_cache, []), simp (spare, emptied g c) refl, transferred)
      ]
