-- ===== src/Arena/Storing.antt =====
-- What a call of SharedArena::store comes to, on a well-formed arena that logs in its own ring, and,
-- in Across, in that of another arena.
pub mod Across
use scudo.Common.{
  ℕ, ◌+◌, ◌*◌, ◌-◌, ◌%◌, ◌/◌, ◌^◌, ◌≤◌, ◌<◌, ◌≡◌, ◌≢◌, refl, sym, ap, ◌∙◌, subst, ◌⊎◌, ◌↔◌, inl,
  inr, Bool, true, false, ◌&&◌, ◌||◌, Option, some, none, ◌>>=◌, List, [], ◌∷◌, arith, ltb, leb,
  add_uptr, add_u32, eq→==, ne→==,
}
use scudo.Arena.State.{
  SharedArena, SharedArenaHeader, SharedArenaLogRing, SharedArenaLogOp, Env, lock, unlock,
  addr_to_page_off,
}
use scudo.Arena.Log.{append_log_pages_locked}
use scudo.Arena.Log.Frame.{SameButLog, Refuses, Refuses-log}
use scudo.Arena.Log.Append.{append-SameButLog}
use scudo.Arena.FreeList.{ListMemory, insert_block}
use scudo.Arena.Store.{
  list_memory, with_list, invalid_range, count_donation, donate, finish_store, store_logging_here,
  store,
}
use scudo.Arena.Seg.{Extent, end_of, covers, pages, Ordered, end_of-ge}
use scudo.Arena.Seg.Insert.{IsFreeList, SameElse}
use scudo.Arena.Seg.Slot.{Apart}
use scudo.Arena.Donation.{Inserted, insert_block-Inserted}
use scudo.Arena.Invariant.{
  IsPaged, IsArena, page_pos, aligned_page, aligned-mul, addr_to_page_off-eq, pages_of_size,
}

-- A bound on the pages that a list covers is one on its end.
pub end_of-le :
    (lo hi : ℕ) (bs : List Extent)
    → Ordered lo bs
    → lo ≤ hi
    → ((q : ℕ) → covers q bs ≡ true → q < hi)
    → end_of lo bs ≤ hi
end_of-le lo hi [] ord le bound = le
end_of-le lo hi ((o, s) ∷ bs) ord le bound =
    end_of-le (o + s) hi bs ord.2 (last (bound (o + s - 1) (ground arith)))
      (λ q h. bound q (ground arith))
  where
    last : o + s - 1 < hi → o + s ≤ hi
    last h = omega (arith, ord.1)

covers-lt : (lo q : ℕ) (bs : List Extent) → Ordered lo bs → covers q bs ≡ true → q < end_of lo bs
covers-lt lo q [] ord h = cc
covers-lt lo q ((o, s) ∷ bs) ord h =
    ground (arith, covers-lt (o + s) q bs ord.2, end_of-ge (o + s) bs ord.2)

-- The pages [o, o + n) are free in the arena `c`, besides those that were free in `a`.
pub record Stored (env : Env) (a c : SharedArena) (bs : List Extent) (o n : ℕ) : Type 0 where
  pub extents : List Extent
  pub arena : IsArena env c extents
  pub free : (q : ℕ) → covers q extents ≡ (covers q bs || (leb o q && ltb q (o + n)))
  pub total : pages extents ≡ pages bs + n
  pub bump : c.hdr.bump_offset_in_pages ≡ a.hdr.bump_offset_in_pages
  pub place : c.data_base ≡ a.data_base
  pub donated : c.hdr.total_donated_bytes ≡ (a.hdr.total_donated_bytes + n * env.page_size) % 2 ^ 64
  pub counted : c.hdr.donate_count ≡ (a.hdr.donate_count + 1) % 2 ^ 32

abbrev pub locked : SharedArena → SharedArena
locked a = record a { hdr = record a.hdr { lock = 1 } }

pub lock-locked : (a : SharedArena) → a.hdr.lock ≡ 0 → lock a ≡ some (locked a)
unfolding lock
lock-locked a h = rw (eq→== a.hdr.lock 0 h)

pub bump-SameElse :
    (h h' : SharedArenaHeader)
    → SameElse h h'
    → (h'.bump_offset_in_pages ≡ h.bump_offset_in_pages)
      × (h'.total_data_pages ≡ h.total_data_pages)
      × (h'.total_donated_bytes ≡ h.total_donated_bytes)
      × (h'.donate_count ≡ h.donate_count)
bump-SameElse h h' e = (
  ap (λ (r : SharedArenaHeader). r.bump_offset_in_pages) e,
  ap (λ (r : SharedArenaHeader). r.total_data_pages) e,
  ap (λ (r : SharedArenaHeader). r.total_donated_bytes) e,
  ap (λ (r : SharedArenaHeader). r.donate_count) e,
)

pub unlock-SameButLog :
    (a : SharedArena)
    → a.hdr.lock ≡ 0
    → (b : SharedArena) → SameButLog (locked a) b
    → SameButLog a (unlock b)
unfolding unlock
unlock-SameButLog a h b same = ground (arith, h)

module _ (env : Env) (paged : IsPaged env) (a : SharedArena) (bs : List Extent)
    (v : IsArena env a bs) (o n : ℕ) (pos : 0 < n) (fits : o + n ≤ a.hdr.bump_offset_in_pages) where
  abbrev base : ℕ
  base = a.data_base + o * env.page_size

  abbrev size : ℕ
  size = n * env.page_size

  pub size-ne-0 : size ≢ 0
  size-ne-0 = grind (arith, page_pos env paged)

  pub pages-size : (size / env.page_size) % 2 ^ 32 ≡ n
  pages-size = pages_of_size env paged a bs v n (omega (arith, v.bump_in, v.list.small))

  pub page-base : addr_to_page_off env a base ≡ o
  page-base = addr_to_page_off-eq env paged a bs v o (omega (arith, v.bump_in))

  pub valid_range : invalid_range env a base size ≡ false
  unfolding invalid_range
  valid_range =
      rw (aligned_page env paged a bs v o, aligned-mul env paged n, page-base, pages-size)
        (ground (arith, v.bump_in, v.list.small))

  -- A valid call on a free arena takes the lock and appends to the log.
  store_logs : store env a none base size ≡ (
      append_log_pages_locked env (locked a) SharedArenaLogOp.free (a.core_id % 2 ^ 8) o size 0
      >>= finish_store env o n size none)
  unfolding store store_logging_here
  store_logs = simp (
    v.ready,
    ne→== size 0 size-ne-0,
    valid_range,
    page-base,
    pages-size,
    lock-locked a v.unlocked,
  )

  stored_below :
      (m : ListMemory)
      → (put : Inserted (list_memory (locked a)) m bs o n)
      → end_of 0 put.extents ≤ m.hdr.bump_offset_in_pages
  stored_below m put =
      let fields = bump-SameElse (locked a).hdr m.hdr put.kept in
      rw fields.0 (
        end_of-le 0 a.hdr.bump_offset_in_pages put.extents put.list.ordered (omega arith)
          λ q h. ground (arith, put.free q, covers-lt 0 q bs v.list.ordered, v.below_bump))

  -- The free list of the arena once it holds the lock and has the log entry.
  unlock-Stored :
      (ring : Option SharedArenaLogRing) (head tail : ℕ) (m : ListMemory)
      → Inserted (list_memory (locked a)) m bs o n
      → let b = record (locked a) {
        log_ring = ring;
        log_head_cache = head;
        log_tail_cache = tail;
      } in
        Stored env a (unlock (count_donation (with_list b m) size)) bs o n
  unfolding unlock count_donation
  unlock-Stored ring head tail m put =
      let fields = bump-SameElse (locked a).hdr m.hdr put.kept in
      record {
        extents = put.extents;
        arena = record {
          ready = v.ready;
          unlocked = refl;
          list = record {
            front = put.list.front;
            count = put.list.count;
            ordered = put.list.ordered;
            within = put.list.within;
            small = put.list.small;
          };
          apart = put.apart;
          below_bump = stored_below m put;
          bump_in = omega (arith, v.bump_in, fields.0, fields.1);
          placed = v.placed;
          aligned = v.aligned;
          space = rw fields.1 v.space;
        };
        free = put.free;
        total = put.total;
        bump = fields.0;
        place = refl;
        donated = ap (λ (r : ℕ). add_uptr r size) fields.2;
        counted = ap (λ (r : ℕ). add_u32 r 1) fields.3;
      }

  locked_list : IsFreeList (list_memory (locked a)) bs
  locked_list = record {
    front = v.list.front;
    count = v.list.count;
    ordered = v.list.ordered;
    within = v.list.within;
    small = v.list.small;
  }

  -- The pages go to the free list, whichever log has the entry.
  pub donated-Stored :
      env.freelist_disabled ≡ false
      → Apart o n bs
      → (b : SharedArena) → SameButLog (locked a) b
      → (log : Option SharedArena)
      → (c : SharedArena) × (finish_store env o n size log (true, b) ≡ some (true, c, log))
        × Stored env a c bs o n
  unfolding finish_store donate
  donated-Stored on apart b same log =
      let (m, e, put) =
        insert_block-Inserted (list_memory (locked a)) bs o n locked_list v.apart apart pos
          (omega (arith, v.bump_in)) in
      let start : insert_block (list_memory b) o n ≡ some m =
        ap (λ (r : SharedArena). insert_block (list_memory r) o n) same ∙ e in
      (
        unlock (count_donation (with_list b m) size),
        rw (on, start) refl,
        subst
            (λ (r : SharedArena).
              Stored env a (unlock (count_donation (with_list r m) size)) bs o n)
            (sym same) (unlock-Stored b.log_ring b.log_head_cache b.log_tail_cache m put),
      )

  abbrev Outcome : Bool → SharedArena → Type 0
  Outcome ok c = ((ok ≡ true) × Stored env a c bs o n) ⊎ ((ok ≡ false) × SameButLog a c)

  finish_store-Outcome :
      env.freelist_disabled ≡ false
      → Apart o n bs
      → (ok : Bool) (b : SharedArena) → SameButLog (locked a) b
      → (c : SharedArena) × (finish_store env o n size none (ok, b) ≡ some (ok, c, none))
        × Outcome ok c
  unfolding finish_store
  finish_store-Outcome on apart true b same =
      let (c, e, done) = donated-Stored on apart b same none in (c, e, inl (refl, done))
  finish_store-Outcome on apart false b same =
      (unlock b, refl, inr (refl, unlock-SameButLog a v.unlocked b same))

  -- On a well-formed arena whose log ring is there, with the free list not disabled by its
  -- environment variable, a store of pages that were handed out and are not free, which logs in the
  -- arena's own ring, returns with the lock released: either it returns true and exactly these
  -- pages are free besides those that were, in a list in order with no two blocks that touch, and
  -- the counters count; or it returns false, and has changed nothing but the log. It returns false
  -- exactly when the operation must reach the kernel and the ring is full at the cached head, at the
  -- ring's head and at the head after a yield.
  pub store_outcome :
      env.freelist_disabled ≡ false
      → Apart o n bs
      → (ring : SharedArenaLogRing) → a.log_ring ≡ some ring
      → (ok : Bool) × (c : SharedArena) × (store env a none base size ≡ some (ok, c, none))
        × (((ok ≡ true) × Stored env a c bs o n) ⊎ ((ok ≡ false) × SameButLog a c))
        × ((ok ≡ false) ↔ Refuses env a)
  store_outcome on apart ring mapped =
      let (ok, b, e, same, _, refused) =
        append-SameButLog env (locked a) SharedArenaLogOp.free (a.core_id % 2 ^ 8) o size 0 ring
          mapped size-ne-0 (aligned-mul env paged n) in
      let (c, f, out) = finish_store-Outcome on apart ok b same in
      (
        ok,
        c,
        store_logs
            ∙ ap (λ (r : Option (Bool × SharedArena)). r >>= finish_store env o n size none) e
            ∙ f,
        out,
        (
          (λ h. Refuses-log env (locked a) a refl refl refl refl (refused.0 h)),
          (λ r. refused.1 (Refuses-log env a (locked a) refl refl refl refl r)),
        ),
      )
