-- ===== src/Secondary/RoundTrip.antt =====
-- A large block out of a shared arena and back: MapAllocator, the pool and the arena together.
use mathlib.Core.Option.{none-ne-some}
use scudo.Common.{
  ℕ, ◌+◌, ◌*◌, ◌%◌, ◌^◌, ◌≤◌, ◌<◌, ◌≡◌, refl, sym, ap, ◌∙◌, ◌⊎◌, inl, inr, Bool, true, false, ◌&&◌,
  Option, none, some, List, [], arith, ltb, leb, ◌==◌, update, update_self, add_uptr, sub_uptr,
  eq→==, ==→eq, Bool-cases,
}
use native.Mathlib.Nat.{mul-le-mul_right, add-mul}
use scudo.Arena.State.{
  SharedArena, SharedArenaLogRing, Env, contains_va, shared_arena_base_addr,
  arena_capacity_per_core,
}
use scudo.Arena.Store.{store}
use scudo.Arena.Retrieve.{Block}
use scudo.Arena.Log.Frame.{SameButLog, Refuses}
use scudo.Arena.Seg.{Extent}
use scudo.Arena.Invariant.{IsPaged, IsArena}
use scudo.Arena.Storing.{Stored, store_outcome}
use scudo.Arena.Outcome.{Granted, Outcome}
use scudo.Arena.Safety.Runs.{Request}
use scudo.Arena.Safety.Extents.{Apart-covers}
use scudo.Arena.Pool.{SharedArenaPool, is_arena_addr, get_owning_arena, get_current_arena}
use scudo.Arena.Pool.Routing.{IsPlaced, get_owning_arena-contains_va}
use scudo.Arena.Pool.Flags.{Variable}
use scudo.Secondary.Cache.{Config}
use scudo.Secondary.Allocator.{
  LargeHeader, MapAllocator, Machine, get_headers_size, large_header_size, add_block, raise_largest,
  user_ptr, try_allocate_from_arena,
}
use scudo.Secondary.Allocator.Entry.{remove_block, store_in_arena, deallocate}
use scudo.Secondary.Lru.{occ}

pages_le : (base ps o n t : ℕ) → o + n ≤ t → base + o * ps + n * ps ≤ base + t * ps
pages_le base ps o n t h = omega (arith, mul-le-mul_right ps h, add-mul o n ps)

owned-in_pool :
    (p : SharedArenaPool) (va i : ℕ)
    → p.initialized ≡ true
    → get_owning_arena p va ≡ some i
    → is_arena_addr p va ≡ true
unfolding get_owning_arena
owned-in_pool p va i ready owned = elim (Bool-cases (is_arena_addr p va)) [
  | inl e ↦ e
  | inr out ↦
      (let miss : get_owning_arena p va ≡ none = simp (ready, out) refl in
        absurd (none-ne-some i (sym miss ∙ owned)))
]

-- A deallocation whose header names a block of the arena `i`.
dealloc_arena :
    (cfg : Config) (w : Machine) (m : MapAllocator) (p r : SharedArenaPool) (ptr i : ℕ)
    → let h = m.headers (sub_uptr ptr large_header_size) in
      p.initialized ≡ true
      → is_arena_addr p h.mem_map.map_base ≡ true
      → get_owning_arena p h.mem_map.map_base ≡ some i
      → store_in_arena w p i h ≡ some r
      → deallocate cfg w m p ptr ≡ some (remove_block m (sub_uptr ptr large_header_size), r, [])
unfolding deallocate
dealloc_arena cfg w m p r ptr i ready in_pool owned stored =
    simp (ready, in_pool, owned, stored) refl

store_here :
    (w : Machine) (p : SharedArenaPool) (i : ℕ) (h : LargeHeader) (ok : Bool) (c : SharedArena)
    → h.arena_owner_pid ≡ w.process.pid % 2 ^ 32
    → get_current_arena w.rseq_cpu w.sched_cpu p ≡ some i
    → store w.process.env (p.arenas i) none h.mem_map.map_base h.mem_map.map_capacity
      ≡ some (ok, c, none)
    → store_in_arena w p i h ≡ some (record p { arenas = update p.arenas i c })
unfolding store_in_arena
store_here w p i h ok c pid current stored =
    simp (eq→== h.arena_owner_pid (w.process.pid % 2 ^ 32) pid, current, eq→== i i refl, stored)
      refl

-- The core of a thread that runs on `i` throughout, in a pool that is ready.
pub record OnCore (w : Machine) (p : SharedArenaPool) (i : ℕ) (bs : List Extent) : Type 0 where
  pub placed : IsPlaced p
  pub in_cores : i < p.num_cores
  pub current : w.rseq_cpu ≡ some i
  pub paged : IsPaged w.process.env
  pub arena : IsArena w.process.env (p.arenas i) bs
  pub above : (p.arenas i).base_addr ≤ (p.arenas i).data_base
  pub inside :
      (p.arenas i).data_base + (p.arenas i).hdr.total_data_pages * w.process.env.page_size
      ≤ (p.arenas i).base_addr + arena_capacity_per_core
  pub ring : SharedArenaLogRing
  pub mapped : (p.arenas i).log_ring ≡ some ring
  pub on : w.process.env.freelist_disabled ≡ false

-- The block is given, and a deallocation of it succeeds without a system call: the block is no longer
-- in use, and its pages are free again in the arena `i`, or else the log refuses that.
pub record Returned (w : Machine) (cfg : Config) (m m' : MapAllocator) (p p' : SharedArenaPool)
    (i : ℕ) (bs : List Extent) (size k n ptr : ℕ) : Type 0 where
  pub block : Block
  pub after_call : SharedArena
  pub after_free : SharedArena
  pub in_pool : p'.arenas i ≡ after_call
  pub granted :
      Granted w.process.env (p.arenas i) after_call bs n size (2 ^ k) get_headers_size block
  pub at : ptr ≡ user_ptr block.entry_header_pos
  pub left : MapAllocator
  pub pool : SharedArenaPool
  pub deallocated : deallocate cfg w m' p' ptr ≡ some (left, pool, [])
  pub in_pool_again : pool.arenas i ≡ after_free
  pub in_use : (x : ℕ) → occ x left.in_use_blocks ≡ occ x m.in_use_blocks
  pub stat_allocated : left.stat_allocated ≡ m.stat_allocated
  pub stat_mapped : left.stat_mapped ≡ m.stat_mapped
  pub pages :
      Stored w.process.env after_call after_free granted.extents granted.offset n
      ⊎ (Refuses w.process.env after_call × SameButLog after_call after_free)

-- A call of the arena's path: no block, and then nothing of the allocator has changed, or a block.
abbrev pub Given :
    Machine
    → Config
    → MapAllocator
    → SharedArenaPool
    → ℕ
    → List Extent
    → ℕ
    → ℕ
    → ℕ
    → Option ℕ
    → MapAllocator
    → SharedArenaPool
    → Type 0
Given w cfg m p i bs size k n none m' p' = m' ≡ m
Given w cfg m p i bs size k n (some ptr) m' p' = Returned w cfg m m' p p' i bs size k n ptr

module _ (w : Machine) (p : SharedArenaPool) (i : ℕ) (bs : List Extent) (core : OnCore w p i bs)
    (size k n : ℕ) (q : Request w.process.env (p.arenas i) size get_headers_size k n) where
  abbrev env : Env
  env = w.process.env

  abbrev a : SharedArena
  a = p.arenas i

  -- The pool with the arena of the core as `d`.
  abbrev pool_with : SharedArena → SharedArenaPool
  pool_with d = record p { arenas = update p.arenas i d }

  abbrev header : Block → LargeHeader
  header b = record {
    commit_base = b.commit_base;
    commit_size = b.commit_size;
    arena_owner_pid = w.process.pid % 2 ^ 32;
    mem_map = record { map_base = b.commit_base; map_capacity = b.commit_size };
  }

  module _ (d : SharedArena) (b : Block)
      (g : Granted env a d bs n size (2 ^ k) get_headers_size b) where
    pool_with-IsPlaced : IsPlaced (pool_with d)
    pool_with-IsPlaced = record {
      ready = core.placed.ready;
      few = core.placed.few;
      bases = λ j l. elim (Bool-cases (j == i)) [
        | inl e ↦ rw e (
            g.base
            ∙ core.placed.bases i core.in_cores
            ∙ ap (λ (x : ℕ). shared_arena_base_addr + x * arena_capacity_per_core)
                (sym (==→eq j i e)))
        | inr e ↦ rw e (core.placed.bases j l)
      ];
    }

    page_in : g.offset + n ≤ a.hdr.total_data_pages
    page_in = omega (arith, g.handed_out, g.arena.bump_in, g.total)

    block_in : b.commit_base + b.commit_size ≤ a.data_base + a.hdr.total_data_pages * env.page_size
    block_in = omega (
      arith,
      g.commit_base,
      g.commit_size,
      pages_le a.data_base env.page_size g.offset n a.hdr.total_data_pages page_in,
    )

    some_size : 0 < b.commit_size
    some_size = omega (arith, g.commit_size, q.some_bytes, q.enough)

    word : b.commit_base + b.commit_size < 2 ^ 64
    word = omega (arith, block_in, core.arena.space)

    contains : contains_va d b.commit_base ≡ true
    unfolding contains_va
    contains =
        let top : (p.arenas i).base_addr ≡ shared_arena_base_addr + i * arena_capacity_per_core =
          core.placed.bases i core.in_cores in
        let end : add_uptr d.base_addr arena_capacity_per_core
            ≡ a.base_addr + arena_capacity_per_core =
          omega (arith, g.base, top, core.in_cores, core.placed.few) in
        let low : leb d.base_addr b.commit_base ≡ true =
          ground (arith, g.base, core.above, g.commit_base) in
        let high : ltb b.commit_base (a.base_addr + arena_capacity_per_core) ≡ true =
          ground (arith, block_in, some_size, core.inside) in
        simp (g.arena.ready, end, low, high) refl

    owned : get_owning_arena (pool_with d) b.commit_base ≡ some i
    owned =
        (get_owning_arena-contains_va (pool_with d) pool_with-IsPlaced b.commit_base
            (omega (arith, word)) i core.in_cores).0
          (ap (λ (x : SharedArena). contains_va x b.commit_base) (update_self p.arenas i d)
            ∙ contains)

    in_pool : is_arena_addr (pool_with d) b.commit_base ≡ true
    in_pool = owned-in_pool (pool_with d) b.commit_base i core.placed.ready owned

    current_with : get_current_arena w.rseq_cpu w.sched_cpu (pool_with d) ≡ some i
    unfolding get_current_arena
    current_with =
        let here : (update p.arenas i d i).initialized ≡ true =
          ap (λ (x : SharedArena). x.initialized) (update_self p.arenas i d) ∙ g.arena.ready in
        let below : leb p.num_cores i ≡ false = ground (arith, core.in_cores) in
        simp (core.placed.ready, core.current, below, here) refl

    -- The store that a deallocation of the block comes to.
    stored :
        (ok : Bool) × (c : SharedArena) × (store env d none b.commit_base b.commit_size
          ≡ some (ok, c, none))
        × (Stored env d c g.extents g.offset n ⊎ (Refuses env d × SameButLog d c))
    stored =
        let pos : 0 < n = grind (arith, q.some_bytes, q.enough) in
        let place : b.commit_base ≡ d.data_base + g.offset * env.page_size =
          omega (arith, g.commit_base, g.place) in
        let (ok, c, e, out, refused) =
          store_outcome env core.paged d g.extents g.arena g.offset n pos g.handed_out core.on
            (Apart-covers g.offset n 0 g.extents pos g.arena.list.ordered g.taken) g.ring.0
            g.ring.1 in
        (
          ok,
          c,
          (λ x. store env d none (place x) (g.commit_size x)) ∙ e,
          elim out [ inl (_, done) ↦ inl done | inr (wrong, same) ↦ inr (refused.0 wrong, same) ],
        )

    module _ (cfg : Config) (m : MapAllocator) where
      abbrev at : ℕ
      at = b.entry_header_pos

      allocated : MapAllocator
      allocated = raise_largest (add_block m at (header b)) (header b)

      back : sub_uptr (user_ptr at) large_header_size ≡ at
      unfolding user_ptr
      back = omega (arith, g.size_in, word)

      header_there : allocated.headers (sub_uptr (user_ptr at) large_header_size) ≡ header b
      unfolding allocated raise_largest add_block
      header_there = ap (update m.headers at (header b)) back ∙ update_self m.headers at (header b)

      -- The pool after the block is back.
      abbrev pool_after : SharedArena → SharedArenaPool
      pool_after c = record p { arenas = update (update p.arenas i d) i c }

      deallocated :
          (ok : Bool) (c : SharedArena)
          → store env d none b.commit_base b.commit_size ≡ some (ok, c, none)
          → deallocate cfg w allocated (pool_with d) (user_ptr at)
            ≡ some (remove_block allocated at, pool_after c, [])
      deallocated ok c e =
          let base : (allocated.headers (sub_uptr (user_ptr at) large_header_size)).mem_map.map_base
              ≡ b.commit_base =
            ap (λ (h : LargeHeader). h.mem_map.map_base) header_there in
          dealloc_arena cfg w allocated (pool_with d) (pool_after c) (user_ptr at) i
            core.placed.ready (ap (is_arena_addr (pool_with d)) base ∙ in_pool)
            (ap (get_owning_arena (pool_with d)) base ∙ owned)
            (ap (store_in_arena w (pool_with d) i) header_there
              ∙ store_here w (pool_with d) i (header b) ok c refl current_with (
                  ap (λ (x : SharedArena). store env x none b.commit_base b.commit_size)
                    (update_self p.arenas i d)
                  ∙ e))
          ∙ ap (λ (x : ℕ). some (remove_block allocated x, pool_after c, [])) back

  module _ (cfg : Config) (m : MapAllocator) (fill : Bool)
      (fills : (fill && w.process.cache.flags Variable.disable_fill_alloc) ≡ false)
      (one : m.stat_allocated < 2 ^ 64) (two : m.stat_mapped < 2 ^ 64) where
    abbrev Gives : Option Block → SharedArena → Type 0
    Gives r d =
        (ptr : Option ℕ) × (m' : MapAllocator) × (p' : SharedArenaPool) × (try_allocate_from_arena w
            m p size (2 ^ k) fill
          ≡ some (ptr, m', p'))
        × Given w cfg m p i bs size k n ptr m' p'
