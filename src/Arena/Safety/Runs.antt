-- ===== src/Arena/Safety/Runs.antt =====
-- Runs of SharedArena::retrieve and SharedArena::store on one arena, with the pages that the callers
-- hold. A call holds the arena's lock from its first to its last access, so a run is a sequence of
-- whole calls, whichever threads make them. A block that is freed on another core is stored with the
-- log of that core's arena, and the log of this arena serves the stores of blocks of other arenas.
use scudo.Common.{
  ℕ, suc, ◌+◌, ◌*◌, ◌^◌, ◌≤◌, ◌<◌, ◌≡◌, Bool, true, false, some, none, List, [], ◌∷◌, ◌++◌, All,
}
use scudo.Arena.State.{SharedArena, SharedArenaLogRing, Env}
use scudo.Arena.Store.{store}
use scudo.Arena.Retrieve.{Block, retrieve}
use scudo.Arena.Seg.{Extent, covers}
use scudo.Arena.Safety.Extents.{Disjoint}
use scudo.Arena.Invariant.{IsArena}

-- A call of retrieve for `size` bytes behind `headers` bytes, at the alignment 2^k, which come to `n`
-- pages; the sums do not wrap, and the counters are words.
pub record Request (env : Env) (a : SharedArena) (size headers k n : ℕ) : Type 0 where
  pub rest : ℕ
  pub width : k + suc rest ≡ 64
  pub some_bytes : 0 < size + headers
  pub enough : size + headers ≤ n * env.page_size
  pub tight : n * env.page_size < size + headers + env.page_size
  pub word : size + headers + env.page_size ≤ 2 ^ 64
  pub fits : n + a.hdr.total_data_pages < 2 ^ 32
  pub low : 2 ^ k ≤ a.data_base
  pub bytes : a.hdr.total_retrieved_bytes < 2 ^ 64
  pub count : a.hdr.retrieve_count < 2 ^ 32

-- An arena and the extents that callers hold of it.
pub record Holdings : Type 0 where
  pub arena : SharedArena
  pub held : List Extent

-- One call on an arena whose log ring is mapped. `retrieved`: the caller holds the pages it is given.
-- `stored`: a caller gives back an extent that it holds. `stored_across`: the same on another core, whose
-- arena `l` is free and has the log. `logged_for`: the log serves a store on the arena `d`.
pub data Step (env : Env) (s : Holdings) : Holdings → Type 0 where
  retrieved :
      {c : SharedArena} (ring : SharedArenaLogRing) (size headers k n o : ℕ) (b : Block)
      → s.arena.log_ring ≡ some ring
      → Request env s.arena size headers k n
      → retrieve env s.arena size (2 ^ k) headers ≡ some (some b, c)
      → b.commit_base ≡ s.arena.data_base + o * env.page_size
      → Step env s (record { arena = c; held = (o, n) ∷ s.held })
  not_retrieved :
      {c : SharedArena} (ring : SharedArenaLogRing) (size headers k n : ℕ)
      → s.arena.log_ring ≡ some ring
      → Request env s.arena size headers k n
      → retrieve env s.arena size (2 ^ k) headers ≡ some (none, c)
      → Step env s (record { arena = c; held = s.held })
  stored :
      {c : SharedArena} (ring : SharedArenaLogRing) (xs ys : List Extent) (o n : ℕ)
      → s.arena.log_ring ≡ some ring
      → s.held ≡ xs ++ (o, n) ∷ ys
      → store env s.arena none (s.arena.data_base + o * env.page_size) (n * env.page_size)
        ≡ some (true, c, none)
      → Step env s (record { arena = c; held = xs ++ ys })
  not_stored :
      {c : SharedArena} (ring : SharedArenaLogRing) (xs ys : List Extent) (o n : ℕ)
      → s.arena.log_ring ≡ some ring
      → s.held ≡ xs ++ (o, n) ∷ ys
      → store env s.arena none (s.arena.data_base + o * env.page_size) (n * env.page_size)
        ≡ some (false, c, none)
      → Step env s (record { arena = c; held = s.held })
  stored_across :
      {c : SharedArena} (l k : SharedArena) (ring : SharedArenaLogRing) (xs ys : List Extent)
      (o n : ℕ)
      → l.hdr.lock ≡ 0
      → l.log_ring ≡ some ring
      → s.held ≡ xs ++ (o, n) ∷ ys
      → store env s.arena (some l) (s.arena.data_base + o * env.page_size) (n * env.page_size)
        ≡ some (true, c, some k)
      → Step env s (record { arena = c; held = xs ++ ys })
  not_stored_across :
      {c : SharedArena} (l k : SharedArena) (ring : SharedArenaLogRing) (xs ys : List Extent)
      (o n : ℕ)
      → l.hdr.lock ≡ 0
      → l.log_ring ≡ some ring
      → s.held ≡ xs ++ (o, n) ∷ ys
      → store env s.arena (some l) (s.arena.data_base + o * env.page_size) (n * env.page_size)
        ≡ some (false, c, some k)
      → Step env s (record { arena = c; held = s.held })
  logged_for :
      {c : SharedArena} (d d' : SharedArena) (ring : SharedArenaLogRing) (base size : ℕ) (ok : Bool)
      → s.arena.log_ring ≡ some ring
      → store env d (some s.arena) base size ≡ some (ok, d', some c)
      → Step env s (record { arena = c; held = s.held })

pub data Reach (env : Env) (a : SharedArena) : Holdings → Type 0 where
  start : Reach env a (record { arena = a; held = [] })
  later : {s t : Holdings} → Reach env a s → Step env s t → Reach env a t

-- The extents that callers hold are not empty, were handed out, are disjoint and hold no free page.
pub record IsSafe (env : Env) (a : SharedArena) (s : Holdings) : Type 0 where
  pub extents : List Extent
  pub arena : IsArena env s.arena extents
  pub place : s.arena.data_base ≡ a.data_base
  pub held_in : All (λ e. (0 < e.1) × (e.0 + e.1 ≤ s.arena.hdr.bump_offset_in_pages)) s.held
  pub disjoint : Disjoint s.held
  pub not_free : (q : ℕ) → covers q s.held ≡ true → covers q extents ≡ false
