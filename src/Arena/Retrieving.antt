-- ===== src/Arena/Retrieving.antt =====
-- What a call of SharedArena::retrieve takes from a well-formed arena.
use scudo.Common.{
  ℕ, ◌+◌, ◌*◌, ◌≤◌, ◌<◌, ◌≡◌, ◌≢◌, refl, sym, subst, ◌⊎◌, inl, inr, false, ◌&&◌, ◌||◌, some, none,
  List, [], ◌∷◌, ◌++◌, ◌^◌, arith, ltb, leb, add_u32, ap, ne→==, ge→ltb, lt→ltb, All,
}
use native.Mathlib.Decide.{dec_le, dec_lt}
use scudo.Arena.State.{SharedArenaHeader, SharedArena, Env, page_off_to_addr, unlock, free_list_end}
use scudo.Arena.FreeList.{ListMemory}
use scudo.Arena.Store.{list_memory, with_list}
use scudo.Arena.Retrieve.{scan_free, bump, take_pages}
use scudo.Arena.Seg.{
  Extent, end_of, Coalesced, covers, pages, Ordered, end_of-ge, end_of-append, Ordered-append,
}
use scudo.Arena.Seg.Insert.{IsFreeList}
use scudo.Arena.Seg.Best.{NoneBelow, Candidate}
use scudo.Arena.Invariant.{IsPaged, IsArena}
use scudo.Arena.Storing.{locked, bump-SameElse}
use scudo.Arena.Undoing.{Undo, bumped, bumped-Undo, Cut-Undo, address}
use scudo.Arena.Taking.{Cut, take_best-Cut, scan_free-Candidate, covers-above}

-- The pages [o, o + n) are taken: they come out of the free list, or from the bump pointer if no free
-- block is large enough.
pub record Taken (env : Env) (a c : SharedArena) (bs : List Extent) (o n : ℕ) : Type 0 where
  pub extents : List Extent
  pub arena : IsArena env (unlock c) extents
  pub handed_out : o + n ≤ c.hdr.bump_offset_in_pages
  pub taken : (q : ℕ) → o ≤ q → q < o + n → covers q extents ≡ false
  pub source :
      ((c.hdr.bump_offset_in_pages ≡ a.hdr.bump_offset_in_pages)
        × ((q : ℕ) → covers q bs ≡ (covers q extents || (leb o q && ltb q (o + n))))
        × (pages bs ≡ pages extents + n))
      ⊎ ((o ≡ a.hdr.bump_offset_in_pages)
          × (c.hdr.bump_offset_in_pages ≡ a.hdr.bump_offset_in_pages + n)
          × (extents ≡ bs)
          × All (λ b. b.1 < n) bs)

-- What taking pages leaves alone.
pub record SameElsewhere (a c : SharedArena) : Type 0 where
  pub ring : c.log_ring ≡ a.log_ring
  pub head_cache : c.log_head_cache ≡ a.log_head_cache
  pub tail_cache : c.log_tail_cache ≡ a.log_tail_cache
  pub capacity : c.log_capacity_cache ≡ a.log_capacity_cache
  pub base : c.base_addr ≡ a.base_addr
  pub place : c.data_base ≡ a.data_base
  pub total : c.hdr.total_data_pages ≡ a.hdr.total_data_pages
  pub bytes : c.hdr.total_retrieved_bytes ≡ a.hdr.total_retrieved_bytes
  pub count : c.hdr.retrieve_count ≡ a.hdr.retrieve_count

-- With no block below the largest u32, none is large enough at all.
none_fits :
    (lo n total : ℕ) (bs : List Extent)
    → Ordered lo bs
    → end_of lo bs ≤ total
    → total < free_list_end
    → NoneBelow n 0xFFFFFFFF bs
    → All (λ b. b.1 < n) bs
none_fits lo n total [] ord fits small none_below = tt
none_fits lo n total ((b, t) ∷ bs) ord fits small none_below =
    let bound = end_of-ge (b + t) bs ord.2 in
    (
      elim (dec_lt t n) [
        | yes less ↦ less
        | no more ↦ let le = none_below.0 (omega arith) in absurd (omega arith)
      ],
      none_fits (b + t) n total bs ord.2 fits small none_below.1,
    )

module _ (env : Env) (paged : IsPaged env) (a : SharedArena) (bs : List Extent)
    (v : IsArena env a bs) (n : ℕ) (pos : 0 < n) (fits : n + a.hdr.total_data_pages < 2 ^ 32) where
  Cut-Taken :
      (m : ListMemory) (o : ℕ)
      → Cut (list_memory (locked a)) m bs o n
      → Taken env a (with_list (locked a) m) bs o n
  unfolding unlock
  Cut-Taken m o cut =
      let fields = bump-SameElse (locked a).hdr m.hdr cut.kept in
      record {
        extents = cut.extents;
        arena = record {
          ready = v.ready;
          unlocked = refl;
          list = record {
            front = cut.list.front;
            count = cut.list.count;
            ordered = cut.list.ordered;
            within = cut.list.within;
            small = cut.list.small;
          };
          apart = cut.apart;
          below_bump = omega (arith, fields.0, cut.ending, v.below_bump);
          bump_in = omega (arith, fields.0, fields.1, v.bump_in);
          placed = v.placed;
          aligned = v.aligned;
          space = rw fields.1 v.space;
        };
        handed_out = omega (arith, fields.0, cut.inside, v.below_bump);
        taken = cut.taken;
        source = inl (fields.0, cut.free, cut.total);
      }

  bumped-Taken :
      a.hdr.bump_offset_in_pages + n ≤ a.hdr.total_data_pages
      → All (λ b. b.1 < n) bs
      → Taken env a (bumped env paged a bs v n pos fits) bs a.hdr.bump_offset_in_pages n
  unfolding unlock
  bumped-Taken room small = record {
    extents = bs;
    arena = record {
      ready = v.ready;
      unlocked = refl;
      list = record {
        front = v.list.front;
        count = v.list.count;
        ordered = v.list.ordered;
        within = v.list.within;
        small = v.list.small;
      };
      apart = v.apart;
      below_bump = omega (arith, v.below_bump);
      bump_in = room;
      placed = v.placed;
      aligned = v.aligned;
      space = v.space;
    };
    handed_out = omega arith;
    taken = λ q l u. covers-above 0 q bs v.list.ordered (omega (arith, v.below_bump));
    source = inr (refl, refl, refl, small);
  }

  -- What the two phases come to.
  abbrev pub Phases : ℕ → Type 0
  Phases best =
      ((o : ℕ) × (c : SharedArena) × (take_pages env (locked a) best n
          ≡ (some (a.data_base + o * env.page_size), c))
        × Taken env a c bs o n
        × Undo env paged a bs v n pos fits best o c
        × SameElsewhere a c)
      ⊎ ((take_pages env (locked a) best n ≡ (none, locked a))
          × All (λ b. b.1 < n) bs
          × (a.hdr.total_data_pages < a.hdr.bump_offset_in_pages + n))

  bump_room :
      a.hdr.bump_offset_in_pages + n ≤ a.hdr.total_data_pages
      → bump env (locked a) n ≡ (
        some (a.data_base + a.hdr.bump_offset_in_pages * env.page_size),
        (bumped env paged a bs v n pos fits),
      )
  unfolding bump
  bump_room room =
      let sum : add_u32 a.hdr.bump_offset_in_pages n ≡ a.hdr.bump_offset_in_pages + n =
        omega (arith, fits, v.bump_in) in
      simp (
        sum,
        ge→ltb a.hdr.total_data_pages _ room,
        address env paged a bs v n pos fits a.hdr.bump_offset_in_pages v.bump_in,
      )

  bump_full :
      a.hdr.total_data_pages < a.hdr.bump_offset_in_pages + n
      → bump env (locked a) n ≡ (none, locked a)
  unfolding bump
  bump_full full =
      let sum : add_u32 a.hdr.bump_offset_in_pages n ≡ a.hdr.bump_offset_in_pages + n =
        omega (arith, fits, v.bump_in) in
      simp (sum, lt→ltb a.hdr.total_data_pages _ full)

  bump-Phases : All (λ b. b.1 < n) bs → Phases free_list_end
  unfolding take_pages
  bump-Phases small = elim (dec_le (a.hdr.bump_offset_in_pages + n) a.hdr.total_data_pages) [
    | yes room ↦ inl (
      a.hdr.bump_offset_in_pages,
      (bumped env paged a bs v n pos fits),
      bump_room room,
      bumped-Taken room small,
      bumped-Undo env paged a bs v n pos fits room,
      record {
        ring = refl;
        head_cache = refl;
        tail_cache = refl;
        capacity = refl;
        base = refl;
        place = refl;
        total = refl;
        bytes = refl;
        count = refl;
      },
    )
    | no full ↦ inr (bump_full (omega arith), small, omega arith)
  ]

  pub locked_list : IsFreeList (list_memory (locked a)) bs
  locked_list = record {
    front = v.list.front;
    count = v.list.count;
    ordered = v.list.ordered;
    within = v.list.within;
    small = v.list.small;
  }

  best-Phases : (best s : ℕ) (xs ys : List Extent) → bs ≡ xs ++ (best, s) ∷ ys → n ≤ s → Phases best
  unfolding take_pages
  best-Phases best s xs ys e le =
      let list : IsFreeList (list_memory (locked a)) (xs ++ (best, s) ∷ ys) =
        subst (IsFreeList (list_memory (locked a))) e locked_list in
      let (o, m, f, cut', undone) =
        take_best-Cut (list_memory (locked a)) xs ys best s n list (subst (Coalesced 0) e v.apart)
          pos le in
      let cut : Cut (list_memory (locked a)) m bs o n =
        subst (λ (r : List Extent). Cut (list_memory (locked a)) m r o n) (sym e) cut' in
      let at : page_off_to_addr env (locked a) o ≡ a.data_base + o * env.page_size =
        address env paged a bs v n pos fits o (omega (arith, cut.inside, v.list.within)) in
      let parts = (Ordered-append 0 xs ((best, s) ∷ ys)).0 list.ordered in
      let end = end_of-append 0 xs ((best, s) ∷ ys) in
      let bound = end_of-ge (best + s) ys parts.1.2 in
      let other : best ≢ free_list_end = omega (arith, list.small, list.within) in
      inl (
        o,
        with_list (locked a) m,
        simp (
          ne→== best free_list_end other,
          f,
          at,
          ne→== (a.data_base + o * env.page_size) 0 (omega (arith, v.placed)),
        ),
        Cut-Taken m o cut,
        Cut-Undo env paged a bs v n pos fits m best o other (omega (arith, bound, end, list.within))
            undone (ap (λ (h : SharedArenaHeader). h.total_retrieved_bytes) cut.kept)
            (ap (λ (h : SharedArenaHeader). h.retrieve_count) cut.kept),
        record {
          ring = refl;
          head_cache = refl;
          tail_cache = refl;
          capacity = refl;
          base = refl;
          place = refl;
          total = ap (λ (h : SharedArenaHeader). h.total_data_pages) cut.kept;
          bytes = ap (λ (h : SharedArenaHeader). h.total_retrieved_bytes) cut.kept;
          count = ap (λ (h : SharedArenaHeader). h.retrieve_count) cut.kept;
        },
      )

  pub phases : (best : ℕ) → Candidate n free_list_end 0xFFFFFFFF bs best → Phases best
  phases best (inl (e, none_below)) = subst Phases (sym e) (
      bump-Phases (
        none_fits 0 n a.hdr.total_data_pages bs v.list.ordered v.list.within v.list.small
          none_below))
  phases best (inr (xs, s, ys, e, le, less, none_below)) = best-Phases best s xs ys e le

  -- With the lock held on a well-formed arena, with the free list not disabled by its environment
  -- variable, and for at least one page and so few that their sum with the data pages fits in 32
  -- bits: the scan and the two phases of retrieve give pages that were free or lie behind the bump
  -- pointer, are then not free, and leave the arena well-formed; they fail only if no free block is
  -- large enough and too few pages are left behind the bump pointer, and then nothing has changed.
  pub take_pages-Taken :
      env.freelist_disabled ≡ false
      → (best : ℕ) × (scan_free env (list_memory (locked a)) n
          ≡ some (best, list_memory (locked a)))
        × (((o : ℕ) × (c : SharedArena) × (take_pages env (locked a) best n
                ≡ (some (a.data_base + o * env.page_size), c))
              × Taken env a c bs o n)
            ⊎ ((take_pages env (locked a) best n ≡ (none, locked a))
                × All (λ b. b.1 < n) bs
                × (a.hdr.total_data_pages < a.hdr.bump_offset_in_pages + n)))
  take_pages-Taken on =
      let (best, e, c) = scan_free-Candidate env (list_memory (locked a)) bs n on locked_list in
      (best, e, elim (phases best c) [ inl (o, c, e, t, u, k) ↦ inl (o, c, e, t) | inr h ↦ inr h ])
