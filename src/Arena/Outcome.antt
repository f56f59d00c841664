-- ===== src/Arena/Outcome.antt =====
-- Every way that SharedArena::retrieve ends on a well-formed arena.
use scudo.Common.{
  ℕ, suc, ◌+◌, ◌-◌, ◌*◌, ◌/◌, ◌%◌, ◌^◌, ◌≤◌, ◌<◌, ◌≡◌, refl, sym, ap, ◌∙◌, subst, ◌⊎◌, ◌↔◌, inl,
  inr, Bool, true, false, ◌||◌, ◌&&◌, Option, some, none, List, arith, ltb, leb, add_u32, add_uptr,
  sub_uptr, lt→ltb, ge→ltb, if◌then◌else◌, ◌>>=◌, All,
}
use native.Mathlib.Decide.{dec_le}
use native.Mathlib.Nat.{div-eq_of_lt-le, mul-mod_left}
use scudo.Common.Bits.{pow_pos}
use scudo.Arith.{round_up, round_down}
use scudo.Arith.Align.{round_up-eq, round_down-eq}
use scudo.Arena.State.{
  SharedArenaHeader, SharedArena, SharedArenaLogRing, SharedArenaLogOp, Env, addr_to_page_off,
  unlock,
}
use scudo.Arena.Log.{append_log_locked}
use scudo.Arena.Log.Frame.{SameButLog, Refuses, Refuses-log}
use scudo.Arena.Log.Append.{append-SameButLog}
use scudo.Arena.Store.{list_memory}
use scudo.Arena.Retrieve.{
  Block, scan_free, take_pages, roll_back, count_retrieval, uncount_retrieval, finish_retrieve,
  retrieve,
}
use scudo.Arena.Seg.{Extent, covers, pages}
use scudo.Arena.Invariant.{
  IsPaged, IsArena, page_pos, page_bound, aligned_page, aligned-mul, pages_of_size,
}
use scudo.Arena.Storing.{unlock-SameButLog, locked, lock-locked}
use scudo.Arena.Undoing.{Undo}
use scudo.Arena.Taking.{scan_free-Candidate}
use scudo.Arena.Retrieving.{Taken, SameElsewhere, phases, locked_list}

-- The pages [o, o + n) are handed out as the block `b`, which holds the headers and behind them, at
-- the alignment, the `size` bytes asked for, and the log has taken the operation.
pub record Granted (env : Env) (a c : SharedArena) (bs : List Extent) (n size alignment headers : ℕ)
    (b : Block) : Type 0 where
  pub offset : ℕ
  pub extents : List Extent
  pub arena : IsArena env c extents
  pub commit_base : b.commit_base ≡ a.data_base + offset * env.page_size
  pub commit_size : b.commit_size ≡ n * env.page_size
  pub header_in : b.commit_base ≤ b.entry_header_pos
  pub size_in : b.entry_header_pos + headers + size ≤ b.commit_base + b.commit_size
  pub aligned : (b.entry_header_pos + headers) % alignment ≡ 0
  pub handed_out : offset + n ≤ c.hdr.bump_offset_in_pages
  pub taken : (q : ℕ) → offset ≤ q → q < offset + n → covers q extents ≡ false
  pub source :
      ((c.hdr.bump_offset_in_pages ≡ a.hdr.bump_offset_in_pages)
        × ((q : ℕ) → covers q bs ≡ (covers q extents || (leb offset q && ltb q (offset + n))))
        × (pages bs ≡ pages extents + n))
      ⊎ ((offset ≡ a.hdr.bump_offset_in_pages)
          × (c.hdr.bump_offset_in_pages ≡ a.hdr.bump_offset_in_pages + n)
          × (extents ≡ bs)
          × All (λ e. e.1 < n) bs)
  pub ring : (r : SharedArenaLogRing) × (c.log_ring ≡ some r)
  pub base : c.base_addr ≡ a.base_addr
  pub place : c.data_base ≡ a.data_base
  pub total : c.hdr.total_data_pages ≡ a.hdr.total_data_pages
  pub bytes : c.hdr.total_retrieved_bytes ≡ add_uptr a.hdr.total_retrieved_bytes (n * env.page_size)
  pub count : c.hdr.retrieve_count ≡ add_u32 a.hdr.retrieve_count 1
  pub accepted : ¬ Refuses env a

-- The pages [o, o + n) are taken, though nothing is handed out: the headers and the `size` bytes do
-- not fit into them at the alignment.
pub record Leaked (env : Env) (a c : SharedArena) (bs : List Extent) (n size alignment headers : ℕ)
    : Type 0 where
  pub offset : ℕ
  pub before : SharedArena
  pub taken : Taken env a before bs offset n
  pub place : before.data_base ≡ a.data_base
  pub after : c ≡ unlock before
  pub misfit :
      let base = a.data_base + offset * env.page_size in
      (base + n * env.page_size - size) / alignment * alignment < base + headers

-- The arena is full: nothing has changed.
pub record Full (a : SharedArena) (bs : List Extent) (n : ℕ) (c : SharedArena) : Type 0 where
  pub same : c ≡ a
  pub small : All (λ b. b.1 < n) bs
  pub full : a.hdr.total_data_pages < a.hdr.bump_offset_in_pages + n

-- Every way that a call ends: a block, or false from a full arena, a log that refuses, or a misfit.
abbrev pub Outcome :
    Env → SharedArena → List Extent → ℕ → ℕ → ℕ → ℕ → Option Block → SharedArena → Type 0
Outcome env a bs n size alignment headers none c =
    Full a bs n c ⊎ ((Refuses env a × SameButLog a c) ⊎ Leaked env a c bs n size alignment headers)
Outcome env a bs n size alignment headers (some b) c = Granted env a c bs n size alignment headers b

module _ (env : Env) (paged : IsPaged env) (a : SharedArena) (bs : List Extent)
    (v : IsArena env a bs) (size headers k rest n : ℕ) (width : k + suc rest ≡ 64)
    (some_bytes : 0 < size + headers) (enough : size + headers ≤ n * env.page_size)
    (tight : n * env.page_size < size + headers + env.page_size)
    (word : size + headers + env.page_size ≤ 2 ^ 64) (fits : n + a.hdr.total_data_pages < 2 ^ 32)
    (low : 2 ^ k ≤ a.data_base) where
  round_up_pages :
      (x : ℕ)
      → x + env.page_size ≤ 2 ^ 64
      → round_up x env.page_size ≡ (x + env.page_size - 1) / env.page_size * env.page_size
  round_up_pages x h =
      subst (λ (p : ℕ). x + p ≤ 2 ^ 64 → round_up x p ≡ (x + p - 1) / p * p) (sym paged.power)
        (round_up-eq paged.log paged.rest paged.width x) h

  needed_size : round_up (add_uptr size headers) env.page_size ≡ n * env.page_size
  needed_size =
      let p = env.page_size in
      let wrap : add_uptr size headers ≡ size + headers = omega (arith, page_pos env paged) in
      let quotient : (size + headers + p - 1) / p ≡ n =
        div-eq_of_lt-le p (omega (arith, page_pos env paged)) (grind (arith, page_pos env paged)) in
      ap (λ (t : ℕ). round_up t p) wrap
      ∙ round_up_pages (size + headers) word
      ∙ ap (λ (t : ℕ). t * p) quotient

  pos : 0 < n
  pos = grind (arith, enough, some_bytes)

  module _ (best o : ℕ) (c : SharedArena) (t : Taken env a c bs o n)
      (undo : Undo env paged a bs v n pos fits best o c) (same : SameElsewhere a c) where
    abbrev base : ℕ
    base = a.data_base + o * env.page_size

    abbrev bytes : ℕ
    bytes = n * env.page_size

    inside : o + n ≤ a.hdr.total_data_pages
    unfolding unlock
    inside = omega (arith, t.handed_out, t.arena.bump_in, same.total)

    in_word : base + bytes < 2 ^ 64
    in_word = grind (arith, page_bound env paged a bs v (o + n) inside)

    alloc_pos :
        round_down (sub_uptr (add_uptr base bytes) size) (2 ^ k)
        ≡ (base + bytes - size) / 2 ^ k * 2 ^ k
    alloc_pos =
        let wrap : sub_uptr (add_uptr base bytes) size ≡ base + bytes - size =
          omega (arith, in_word) in
        ap (λ (x : ℕ). round_down x (2 ^ k)) wrap
        ∙ round_down-eq k rest width (base + bytes - size) (omega (arith, in_word))

    abbrev at : ℕ
    at = (base + bytes - size) / 2 ^ k * 2 ^ k

    at_high : headers ≤ at
    at_high = omega (arith, low, pow_pos k)

    at_most : at ≤ base + bytes - size
    at_most = omega (arith, pow_pos k)

    header : sub_uptr at headers ≡ at - headers
    header = omega (arith, at_high, at_most, in_word)

    finish_misfit :
        at < base + headers
        → finish_retrieve env c best base bytes n size (2 ^ k) headers ≡ some (none, unlock c)
    unfolding finish_retrieve
    finish_misfit misfit =
        simp (alloc_pos, header, lt→ltb (at - headers) base (omega (arith, at_high))) refl

    abbrev block : Block
    block = record { commit_base = base; commit_size = bytes; entry_header_pos = at - headers }

    abbrev answer : Bool × SharedArena → Option (Option Block × SharedArena)
    answer r = some (
        if r.0
        then (some block, unlock r.1)
        else (none, unlock (uncount_retrieval (roll_back env r.1 best base n) bytes)))

    finish_fits :
        base + headers ≤ at
        → finish_retrieve env c best base bytes n size (2 ^ k) headers ≡ (
            append_log_locked env (count_retrieval c bytes) SharedArenaLogOp.alloc base bytes 0
            >>= answer)
    unfolding finish_retrieve
    finish_fits fit =
        simp
          (
            alloc_pos,
            header,
            ge→ltb (at - headers) base (omega (arith, at_high)),
            ge→ltb (add_uptr base bytes) at (omega (arith, at_most, in_word)),
          )
          refl

    log_returns :
        (ring : SharedArenaLogRing)
        → a.log_ring ≡ some ring
        → (ok : Bool) × (b : SharedArena) × (append_log_locked env
              (count_retrieval c bytes)
              SharedArenaLogOp.alloc
              base
              bytes
              0
            ≡ some (ok, b))
          × SameButLog (count_retrieval c bytes) b
          × ((r : SharedArenaLogRing) × (b.log_ring ≡ some r))
          × ((ok ≡ false) ↔ Refuses env a)
    unfolding append_log_locked count_retrieval
    log_returns ring mapped =
        let (ok, b, e, like, left, refused) =
          append-SameButLog env (count_retrieval c bytes) SharedArenaLogOp.alloc (c.core_id % 2 ^ 8)
            (addr_to_page_off env (count_retrieval c bytes) base) bytes 0 ring (same.ring ∙ mapped)
            (grind (arith, pos, page_pos env paged)) (aligned-mul env paged n) in
        (
          ok,
          b,
          simp (aligned_page env paged a bs v o, e) refl,
          like,
          left,
          (
            (λ h.
                Refuses-log env (count_retrieval c bytes) a (sym same.ring) (sym same.head_cache)
                  (sym same.tail_cache) (sym same.capacity) (refused.0 h)),
            (λ r. refused.1 (
                Refuses-log env a (count_retrieval c bytes) same.ring same.head_cache
                  same.tail_cache same.capacity r)),
          ),
        )

    counted-IsArena :
        (b : SharedArena)
        → SameButLog (count_retrieval c bytes) b
        → IsArena env (unlock b) t.extents
    unfolding unlock count_retrieval
    counted-IsArena b like =
        subst (λ (x : SharedArena). IsArena env (unlock x) t.extents) (sym like)
          (record {
            ready = t.arena.ready;
            unlocked = refl;
            list = record {
              front = t.arena.list.front;
              count = t.arena.list.count;
              ordered = t.arena.list.ordered;
              within = t.arena.list.within;
              small = t.arena.list.small;
            };
            apart = t.arena.apart;
            below_bump = t.arena.below_bump;
            bump_in = t.arena.bump_in;
            placed = t.arena.placed;
            aligned = t.arena.aligned;
            space = t.arena.space;
          })

    counted-Granted :
        base + headers ≤ at
        → (b : SharedArena) → SameButLog (count_retrieval c bytes) b
        → ((r : SharedArenaLogRing) × (b.log_ring ≡ some r))
        → ¬ Refuses env a
        → Granted env a (unlock b) bs n size (2 ^ k) headers block
    unfolding unlock count_retrieval
    counted-Granted fit b like left accepted =
        let hdr : b.hdr ≡ (count_retrieval c bytes).hdr = ap (λ (x : SharedArena). x.hdr) like in
        let bump : b.hdr.bump_offset_in_pages ≡ c.hdr.bump_offset_in_pages =
          ap (λ (x : SharedArenaHeader). x.bump_offset_in_pages) hdr in
        record {
          offset = o;
          extents = t.extents;
          arena = counted-IsArena b like;
          commit_base = refl;
          commit_size = refl;
          header_in = omega (arith, fit);
          size_in = omega (arith, at_most, at_high, in_word);
          aligned =
              ap (λ (x : ℕ). x % 2 ^ k) {y = at} (omega (arith, at_high))
              ∙ mul-mod_left ((base + bytes - size) / 2 ^ k) (2 ^ k);
          handed_out = omega (arith, bump, t.handed_out);
          taken = t.taken;
          source = rw bump t.source;
          ring = left;
          base = ap (λ (x : SharedArena). x.base_addr) like ∙ same.base;
          place = ap (λ (x : SharedArena). x.data_base) like ∙ same.place;
          total = ap (λ (x : SharedArenaHeader). x.total_data_pages) hdr ∙ same.total;
          bytes =
              ap (λ (x : SharedArenaHeader). x.total_retrieved_bytes) hdr
              ∙ ap (λ (x : ℕ). add_uptr x bytes) same.bytes;
          count =
              ap (λ (x : SharedArenaHeader). x.retrieve_count) hdr
              ∙ ap (λ (x : ℕ). add_u32 x 1) same.count;
          accepted = accepted;
        }

    answer-Outcome :
        base + headers ≤ at
        → a.hdr.total_retrieved_bytes < 2 ^ 64
        → a.hdr.retrieve_count < 2 ^ 32
        → (ok : Bool) (b : SharedArena) → SameButLog (count_retrieval c bytes) b
        → ((r : SharedArenaLogRing) × (b.log_ring ≡ some r))
        → ((ok ≡ false) ↔ Refuses env a)
        → (r : Option Block) × (d : SharedArena) × (answer (ok, b) ≡ some (r, d))
          × Outcome env a bs n size (2 ^ k) headers r d
    answer-Outcome fit total count true b like left refused =
        (some block, unlock b, refl, counted-Granted fit b like left (λ r. cc (refused.1 r)))
    answer-Outcome fit total count false b like left refused =
        let undone = uncount_retrieval (roll_back env b best base n) bytes in
        (
          none,
          unlock undone,
          refl,
          inr (
              inl (
                refused.0 refl,
                unlock-SameButLog a v.unlocked undone
                    (undo bytes (omega (arith, in_word)) total count b like),
              )),
        )

    finish-Outcome :
        a.hdr.total_retrieved_bytes < 2 ^ 64
        → a.hdr.retrieve_count < 2 ^ 32
        → (ring : SharedArenaLogRing) → a.log_ring ≡ some ring
        → (r : Option Block) × (d : SharedArena) × (finish_retrieve env c best base bytes n size
              (2 ^ k)
              headers
            ≡ some (r, d))
          × Outcome env a bs n size (2 ^ k) headers r d
    finish-Outcome total count ring mapped = elim (dec_le (base + headers) at) [
      | yes fit ↦
          let (ok, b, e, like, left, refused) = log_returns ring mapped in
          let (r, d, f, out) = answer-Outcome fit total count ok b like left refused in
          (
            r,
            d,
            finish_fits fit ∙ ap (λ (x : Option (Bool × SharedArena)). x >>= answer) e ∙ f,
            out,
          )
      | no misfit ↦ (
        none,
        unlock c,
        finish_misfit (omega arith),
        inr (
            inr (record {
              offset = o;
              before = c;
              taken = t;
              place = same.place;
              after = refl;
              misfit = omega arith;
            })),
      )
    ]

  word_pages : (n * env.page_size / env.page_size) % 2 ^ 32 ≡ n
  word_pages = pages_of_size env paged a bs v n (omega (arith, fits))

  abbrev Scanned : ℕ → Type 0
  Scanned best = scan_free env (list_memory (locked a)) n ≡ some (best, list_memory (locked a))

  retrieve_taken :
      (best base : ℕ) (c : SharedArena)
      → Scanned best
      → take_pages env (locked a) best n ≡ (some base, c)
      → retrieve env a size (2 ^ k) headers
        ≡ finish_retrieve env c best base (n * env.page_size) n size (2 ^ k) headers
  unfolding retrieve
  retrieve_taken best base c e taken =
      simp (lock-locked a v.unlocked, needed_size, word_pages, e, taken) (rw v.ready refl)

  retrieve_nothing :
      (best : ℕ) (c : SharedArena)
      → Scanned best
      → take_pages env (locked a) best n ≡ (none, c)
      → retrieve env a size (2 ^ k) headers ≡ some (none, unlock c)
  unfolding retrieve
  retrieve_nothing best c e nothing =
      simp (lock-locked a v.unlocked, needed_size, word_pages, e, nothing) (rw v.ready refl)

  unlock-locked : unlock (locked a) ≡ a
  unfolding unlock
  unlock-locked i = record a { hdr = record a.hdr { lock = sym v.unlocked i } }

  -- On a well-formed arena whose log ring is there, with the free list not disabled by its
  -- environment variable, for a request of at least one byte, headers included, whose sums do not
  -- wrap, an alignment that is a power of two up to the data base, and counters that are machine
  -- words, retrieve returns with the lock released, and: it gives a block of the pages needed, out
  -- of the free list or from the bump pointer, that holds the headers and the bytes asked for at
  -- the alignment, counts it, and the log does not refuse; or no free block is large enough and too
  -- few pages are left behind the bump pointer, and nothing has changed; or the log refuses, that
  -- is, the operation must reach the kernel and the ring is full at the cached head, at the ring's
  -- head and at the head after a yield, and all but the log is as it was before; or the headers do
  -- not fit in the pages at the alignment, and the pages are lost.
  pub retrieve-Outcome :
      env.freelist_disabled ≡ false
      → a.hdr.total_retrieved_bytes < 2 ^ 64
      → a.hdr.retrieve_count < 2 ^ 32
      → (ring : SharedArenaLogRing) → a.log_ring ≡ some ring
      → (r : Option Block) × (c : SharedArena) × (retrieve env a size (2 ^ k) headers ≡ some (r, c))
        × Outcome env a bs n size (2 ^ k) headers r c
  retrieve-Outcome on total count ring mapped =
      let (best, e, cand) =
        scan_free-Candidate env (list_memory (locked a)) bs n on
          (locked_list env paged a bs v n pos fits) in
      elim (phases env paged a bs v n pos fits best cand) [
        | inl (o, c, taken, t, undo, same) ↦
            let (r, d, f, out) = finish-Outcome best o c t undo same total count ring mapped in
            (r, d, retrieve_taken best (a.data_base + o * env.page_size) c e taken ∙ f, out)
        | inr (nothing, small, full) ↦ (
          none,
          unlock (locked a),
          retrieve_nothing best (locked a) e nothing,
          inl (record { same = unlock-locked; small = small; full = full }),
        )
      ]
