-- ===== src/Arena/Log/Frame.antt =====
-- What an append to the log leaves alone, what it writes, and when it is refused.
use scudo.Common.{
  ℕ, ◌+◌, ◌%◌, ◌^◌, ◌≤◌, ◌≡◌, ◌≢◌, ◌⊎◌, ◌∙◌, Bool, true, false, some, arith, sub_u32,
}
use scudo.Arena.State.{SharedArena, SharedArenaLogRing, SharedArenaLogEntry, Env}
use scudo.Arena.Log.{log_full}

-- Two arenas that differ in the log at most.
abbrev pub SameButLog : SharedArena → SharedArena → Type 0
SameButLog a b = b ≡ record a {
  log_ring = b.log_ring;
  log_head_cache = b.log_head_cache;
  log_tail_cache = b.log_tail_cache;
}

-- The ring has room for one more entry, as far as the cached head shows.
pub record HasRoom (a : SharedArena) : Type 0 where
  pub ring : SharedArenaLogRing
  pub mapped : a.log_ring ≡ some ring
  pub capacity : a.log_capacity_cache ≢ 0
  pub room : log_full a.log_capacity_cache a.log_head_cache a.log_tail_cache ≡ false

-- The entries between the given head and the tail.
abbrev pub entries_from : SharedArena → ℕ → ℕ
entries_from a head = sub_u32 a.log_tail_cache head

-- The log has no room at any head that a call sees: the cached one, the ring's, and the one that the
-- kernel has moved it to after a yield.
pub record Refuses (env : Env) (a : SharedArena) : Type 0 where
  pub kernel : env.allow_no_kernel ≡ false
  pub ring : SharedArenaLogRing
  pub mapped : a.log_ring ≡ some ring
  pub cached_full : a.log_capacity_cache ≤ entries_from a a.log_head_cache
  pub head_full : a.log_capacity_cache ≤ entries_from a ring.head
  pub yielded_full :
      a.log_capacity_cache ≤ entries_from a (env.head_after_yield ring.head ring.tail)

-- The entry stands in the slot, the tail is one further, and nothing else of the ring but its head has
-- changed.
pub record Logged (a b : SharedArena) (slot : ℕ) (entry : SharedArenaLogEntry) : Type 0 where
  pub before : SharedArenaLogRing
  pub ring : SharedArenaLogRing
  pub mapped_before : a.log_ring ≡ some before
  pub mapped : b.log_ring ≡ some ring
  pub written : ring.entries slot ≡ entry
  pub others : (i : ℕ) → i ≢ slot → ring.entries i ≡ before.entries i
  pub tail : ring.tail ≡ (a.log_tail_cache + 1) % 2 ^ 32
  pub tail_cached : b.log_tail_cache ≡ ring.tail
  pub kept : ring ≡ record before { head = ring.head; tail = ring.tail; entries = ring.entries }

-- The ring has counted one more entry that was dropped, and nothing else of it but its head has changed.
pub record Dropped (a b : SharedArena) : Type 0 where
  pub before : SharedArenaLogRing
  pub ring : SharedArenaLogRing
  pub mapped_before : a.log_ring ≡ some before
  pub mapped : b.log_ring ≡ some ring
  pub dropped : ring.dropped ≡ (before.dropped + 1) % 2 ^ 32
  pub tail_cached : b.log_tail_cache ≡ a.log_tail_cache
  pub kept : ring ≡ record before { head = ring.head; dropped = ring.dropped }

-- What an append does to the log, by the answer that it gives. A log of no capacity is not in use.
abbrev pub Appended : Env → SharedArena → SharedArena → ℕ → SharedArenaLogEntry → Bool → Type 0
Appended env a b slot entry true =
    ((env.allow_no_kernel ≡ true) × (b ≡ a))
    ⊎ ((env.allow_no_kernel ≡ false) × Logged a b slot entry)
Appended env a b slot entry false =
    ((a.log_capacity_cache ≡ 0) × (b ≡ a)) ⊎ ((a.log_capacity_cache ≢ 0) × Dropped a b)

-- The refusal reads nothing but the log.
pub Refuses-log :
    (env : Env) (a b : SharedArena)
    → b.log_ring ≡ a.log_ring
    → b.log_head_cache ≡ a.log_head_cache
    → b.log_tail_cache ≡ a.log_tail_cache
    → b.log_capacity_cache ≡ a.log_capacity_cache
    → Refuses env a
    → Refuses env b
Refuses-log env a b ring head tail capacity r = record {
  kernel = r.kernel;
  ring = r.ring;
  mapped = ring ∙ r.mapped;
  cached_full = omega (arith, r.cached_full, head, tail, capacity);
  head_full = omega (arith, r.head_full, tail, capacity);
  yielded_full = omega (arith, r.yielded_full, tail, capacity);
}
