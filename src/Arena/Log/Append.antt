-- ===== src/Arena/Log/Append.antt =====
-- When an append to the log succeeds, what it writes then, and that it leaves all else alone.
use scudo.Common.{
  ℕ, ◌-◌, ◌/◌, ◌%◌, ◌^◌, ◌≤◌, ◌≡◌, refl, sym, ◌≢◌, ◌⊎◌, ◌↔◌, bit_and, Bool, true, false, not, some,
  arith, ◌==◌, ◌||◌, if◌then◌else◌, ◌∙◌, ap, subst, Bool-cases, inl, inr, update_self, ne→==,
}
use mathlib.Core.Option.{some-injective}
use scudo.Common.Bits.{bit_and-low_mask}
use scudo.Arith.{is_aligned}
use scudo.Arena.State.{SharedArena, SharedArenaLogRing, SharedArenaLogEntry, SharedArenaLogOp, Env}
use scudo.Arena.Log.{log_full, reserve_entry, write_entry, append_to, append_log_pages_locked}
use scudo.Arena.Log.Frame.{SameButLog, entries_from, Refuses, Appended}

module _ (env : Env) (a : SharedArena) (op : SharedArenaLogOp) (cpu page size flags : ℕ) where
  append_to-SameButLog :
      (ring : SharedArenaLogRing) → SameButLog a (append_to env a ring op cpu page size flags).1
  unfolding append_to
  append_to-SameButLog ring = elim (Bool-cases (reserve_entry env a ring).0) [
    | inl e ↦ rw e refl
    | inr e ↦ rw e refl
  ]

  -- What an append comes to where the ring is there.
  abbrev append_outcome : SharedArenaLogRing → Bool × SharedArena
  append_outcome ring =
      if env.allow_no_kernel
      then (true, a)
      else if (size == 0) || not (is_aligned size env.page_size)
      then (false, a)
      else if a.log_capacity_cache == 0
      then (false, a)
      else append_to env a ring op cpu page size flags

  append_returns :
      (ring : SharedArenaLogRing)
      → a.log_ring ≡ some ring
      → append_log_pages_locked env a op cpu page size flags ≡ some (append_outcome ring)
  unfolding append_log_pages_locked
  append_returns ring e = ground arith

  append_to_ring :
      (ring : SharedArenaLogRing)
      → (r : SharedArenaLogRing) × ((append_to env a ring op cpu page size flags).1.log_ring
          ≡ some r)
  unfolding append_to write_entry
  append_to_ring ring = elim (Bool-cases (reserve_entry env a ring).0) [
    | inl e ↦ rw e (_, refl)
    | inr e ↦ rw e (_, refl)
  ]

  append_outcome_ring :
      (ring : SharedArenaLogRing)
      → a.log_ring ≡ some ring
      → (r : SharedArenaLogRing) × ((append_outcome ring).1.log_ring ≡ some r)
  append_outcome_ring ring e = elim (Bool-cases env.allow_no_kernel) [
    | inl t ↦ rw t (ring, e)
    | inr t ↦ elim (Bool-cases ((size == 0) || not (is_aligned size env.page_size))) [
      | inl u ↦ rw (t, u) (ring, e)
      | inr u ↦ elim (Bool-cases (a.log_capacity_cache == 0)) [
        | inl z ↦ rw (t, u, z) (ring, e)
        | inr z ↦ simp (t, u, z) (append_to_ring ring)
      ]
    ]
  ]

  abbrev slot : ℕ
  slot = bit_and a.log_tail_cache a.log_capacity_mask

  abbrev entry : SharedArenaLogEntry
  entry = record {
    op = op;
    src_cpu = cpu;
    flags = flags;
    start_page = page;
    num_pages = (size / env.page_size) % 2 ^ 32;
  }

  -- The part that touches the ring refuses where there is no room at the three heads.
  append_to-Refuses :
      (ring : SharedArenaLogRing)
      → a.log_ring ≡ some ring
      → env.allow_no_kernel ≡ false
      → ((append_to env a ring op cpu page size flags).0 ≡ false) ↔ Refuses env a
  unfolding append_to reserve_entry log_full
  append_to-Refuses ring e kernel = (
    (λ h. record {
      kernel = kernel;
      ring = ring;
      mapped = e;
      cached_full = ground (arith, h);
      head_full = ground (arith, h);
      yielded_full = ground (arith, h);
    }),
    (λ r.
        let same : r.ring ≡ ring = some-injective r.ring ring (sym r.mapped ∙ e) in
        let head =
          subst (λ (x : SharedArenaLogRing). a.log_capacity_cache ≤ entries_from a x.head) same
            r.head_full in
        let yielded =
          subst
            (λ (x : SharedArenaLogRing).
              a.log_capacity_cache ≤ entries_from a (env.head_after_yield x.head x.tail))
            same r.yielded_full in
        ground (arith, r.cached_full, head, yielded)),
  )

  append_to-Appended :
      (ring : SharedArenaLogRing)
      → a.log_ring ≡ some ring
      → env.allow_no_kernel ≡ false
      → a.log_capacity_cache ≢ 0
      → let r = append_to env a ring op cpu page size flags in Appended env a r.1 slot entry r.0
  unfolding append_to write_entry reserve_entry
  append_to-Appended ring e kernel capacity = elim (Bool-cases (reserve_entry env a ring).0) [
    | inl t ↦ rw t (
        inr (
          kernel,
          record {
            before = ring;
            ring = _;
            mapped_before = e;
            mapped = refl;
            written = update_self (reserve_entry env a ring).1.entries slot entry;
            others = λ i ne. rw (ne→== i slot ne) (ground arith);
            tail = refl;
            tail_cached = refl;
            kept = ground arith;
          },
        ))
    | inr f ↦ rw f (
        inr (
          capacity,
          record {
            before = ring;
            ring = _;
            mapped_before = e;
            mapped = refl;
            dropped = ground (arith, f);
            tail_cached = refl;
            kept = ground (arith, f);
          },
        ))
  ]

  append_outcome-SameButLog : (ring : SharedArenaLogRing) → SameButLog a (append_outcome ring).1
  append_outcome-SameButLog ring = ground (arith, append_to-SameButLog ring)

  -- Whatever the range, an append to a ring that is there returns and changes nothing but the log.
  pub append_frame :
      (ring : SharedArenaLogRing)
      → a.log_ring ≡ some ring
      → (ok : Bool) × (b : SharedArena) × (append_log_pages_locked env a op cpu page size flags
          ≡ some (ok, b))
        × SameButLog a b
  append_frame ring e = (
    (append_outcome ring).0,
    (append_outcome ring).1,
    append_returns ring e,
    append_outcome-SameButLog ring,
  )

  module _ (ring : SharedArenaLogRing) (e : a.log_ring ≡ some ring) (nonzero : size ≢ 0)
      (aligned : is_aligned size env.page_size ≡ true) where
    valid : ((size == 0) || not (is_aligned size env.page_size)) ≡ false
    valid = rw (ne→== size 0 nonzero, aligned) refl

    -- Without a kernel, with a log of no capacity, or by the ring.
    append_outcome-cases :
        ((env.allow_no_kernel ≡ true) × (append_outcome ring ≡ (true, a)))
        ⊎ ((env.allow_no_kernel ≡ false)
            × (((a.log_capacity_cache ≡ 0) × (append_outcome ring ≡ (false, a)))
                ⊎ ((a.log_capacity_cache ≢ 0)
                    × (append_outcome ring ≡ append_to env a ring op cpu page size flags))))
    append_outcome-cases = elim (Bool-cases env.allow_no_kernel) [
      | inl t ↦ inl (t, simp t refl)
      | inr t ↦ inr (
        t,
        elim (Bool-cases (a.log_capacity_cache == 0)) [
          | inl z ↦ inl (ground (arith, z), simp (t, valid, z) refl)
          | inr z ↦ inr (ground (arith, z), simp (t, valid, z) refl)
        ],
      )
    ]

    append_outcome-Refuses : ((append_outcome ring).0 ≡ false) ↔ Refuses env a
    append_outcome-Refuses =
        let to =
          λ (x : Bool × SharedArena) (f : append_outcome ring ≡ x)
              (p : (x.0 ≡ false) ↔ Refuses env a).
            subst (λ (r : Bool × SharedArena). (r.0 ≡ false) ↔ Refuses env a) (sym f) p in
        elim append_outcome-cases [
          | inl (t, f) ↦
              to (true, a) f
                ((λ h. absurd (ground (arith, h))), (λ r. absurd (ground (arith, r.kernel, t))))
          | inr (t, inl (z, f)) ↦
              to (false, a) f
                (
                  (λ h. record {
                    kernel = t;
                    ring = ring;
                    mapped = e;
                    cached_full = omega (arith, z);
                    head_full = omega (arith, z);
                    yielded_full = omega (arith, z);
                  }),
                  (λ r. refl),
                )
          | inr (t, inr (z, f)) ↦
              to (append_to env a ring op cpu page size flags) f (append_to-Refuses ring e t)
        ]

    append_outcome-Appended :
        Appended env a (append_outcome ring).1 slot entry (append_outcome ring).0
    append_outcome-Appended =
        let to =
          λ (x : Bool × SharedArena) (f : append_outcome ring ≡ x)
              (p : Appended env a x.1 slot entry x.0).
            subst (λ (r : Bool × SharedArena). Appended env a r.1 slot entry r.0) (sym f) p in
        elim append_outcome-cases [
          | inl (t, f) ↦ to (true, a) f (inl (t, refl))
          | inr (t, inl (z, f)) ↦ to (false, a) f (inl (z, refl))
          | inr (t, inr (z, f)) ↦
              to (append_to env a ring op cpu page size flags) f (append_to-Appended ring e t z)
        ]

    -- An append to a ring that is there returns, changes nothing but the log, and answers false just
    -- where the log refuses.
    pub append-SameButLog :
        (ok : Bool) × (b : SharedArena) × (append_log_pages_locked env a op cpu page size flags
          ≡ some (ok, b))
        × SameButLog a b
        × ((r : SharedArenaLogRing) × (b.log_ring ≡ some r))
        × ((ok ≡ false) ↔ Refuses env a)
    append-SameButLog = (
      (append_outcome ring).0,
      (append_outcome ring).1,
      append_returns ring e,
      append_outcome-SameButLog ring,
      append_outcome_ring ring e,
      append_outcome-Refuses,
    )

    -- For a log whose ring is mapped and whose mask is a power of two less one, and a positive
    -- multiple of the page size, an append returns and changes nothing but the log. It returns
    -- false exactly when the operation must reach the kernel and the ring is full at the cached
    -- head, at the ring's head and at the head after a yield; then the ring counts one more dropped
    -- operation, has its entries and its tail as before, and the cached tail stays, or, with a
    -- capacity of 0, nothing changes. When it returns true, either no kernel is needed and nothing
    -- has changed, or the entry of the operation stands in the slot of the old cached tail modulo
    -- that power of two, all other slots are as they were, the ring's tail and the cached tail are
    -- one further than the cached tail was, in 32 bits, and nothing else of the ring but its head
    -- has changed.
    pub append-Appended :
        (k : ℕ)
        → a.log_capacity_mask ≡ 2 ^ k - 1
        → (ok : Bool) × (b : SharedArena) × (append_log_pages_locked env a op cpu page size flags
            ≡ some (ok, b))
          × SameButLog a b
          × ((ok ≡ false) ↔ Refuses env a)
          × Appended env a b
              (a.log_tail_cache % 2 ^ k)
              (record {
                op = op;
                src_cpu = cpu;
                flags = flags;
                start_page = page;
                num_pages = (size / env.page_size) % 2 ^ 32;
              })
              ok
    append-Appended k mask =
        let at : slot ≡ a.log_tail_cache % 2 ^ k =
          ap (bit_and a.log_tail_cache) mask ∙ bit_and-low_mask k a.log_tail_cache in
        (
          (append_outcome ring).0,
          (append_outcome ring).1,
          append_returns ring e,
          append_outcome-SameButLog ring,
          append_outcome-Refuses,
          subst (λ (i : ℕ). Appended env a (append_outcome ring).1 i entry (append_outcome ring).0)
              at append_outcome-Appended,
        )
