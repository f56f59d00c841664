-- ===== src/Arena/Store.antt =====
-- SharedArena::store: a block of pages goes back to the arena that owns its addresses.
use scudo.Common.{
  ℕ, ◌/◌, ◌%◌, ◌^◌, Bool, true, false, not, ◌||◌, Option, none, some, ◌==◌, ltb, leb, if◌then◌else◌,
  ◌>>=◌, add_u32, sub_u32, add_uptr,
}
use scudo.Arith.{is_aligned}
use scudo.Arena.State.{SharedArena, SharedArenaLogOp, Env, addr_to_page_off, lock, unlock}
use scudo.Arena.Log.{append_log_pages_locked}
use scudo.Arena.FreeList.{ListMemory, insert_block}

abbrev pub list_memory : SharedArena → ListMemory
list_memory a = record { hdr = a.hdr; blocks = a.blocks }

abbrev pub with_list : SharedArena → ListMemory → SharedArena
with_list a m = record a { hdr = m.hdr; blocks = m.blocks }

unfoldable pub count_donation : SharedArena → ℕ → SharedArena
count_donation a commit_size = record a {
  hdr = record hdr {
    total_donated_bytes = add_uptr total_donated_bytes commit_size;
    donate_count = add_u32 donate_count 1;
  };
}
  where
    open a use {hdr}
    open hdr use {total_donated_bytes, donate_count}

-- The part of `store` behind the log, under the lock: quarantine or the free list.
unfoldable pub donate : Env → SharedArena → ℕ → ℕ → ℕ → Option SharedArena
donate env a off pages commit_size =
    if env.freelist_disabled then some (unlock (count_donation a commit_size)) else do
      m ← insert_block (list_memory a) off pages
      some (unlock (count_donation (with_list a m) commit_size))

-- The range that `store` refuses.
unfoldable pub invalid_range : Env → SharedArena → ℕ → ℕ → Bool
invalid_range env a commit_base commit_size =
    not (is_aligned commit_base env.page_size)
    || not (is_aligned commit_size env.page_size)
    || leb a.hdr.total_data_pages off
    || (pages == 0)
    || ltb (sub_u32 a.hdr.total_data_pages off) pages
  where
    off : ℕ
    off = addr_to_page_off env a commit_base

    pages : ℕ
    pages = (commit_size / env.page_size) % 2 ^ 32

-- The two locks are taken in the order of the core numbers. The first is that of the log's arena.
unfoldable pub lock_both : SharedArena → SharedArena → Option (SharedArena × SharedArena)
lock_both log a = if ltb log.core_id a.core_id then log_first else a_first
  where
    log_first : Option (SharedArena × SharedArena)
    log_first = do l ← lock log; b ← lock a; some (l, b)

    a_first : Option (SharedArena × SharedArena)
    a_first = do b ← lock a; l ← lock log; some (l, b)

-- Once the log has taken the operation or refused it. `log` is the other arena with the log.
unfoldable pub finish_store :
    Env
    → ℕ
    → ℕ
    → ℕ
    → Option SharedArena
    → Bool × SharedArena
    → Option (Bool × SharedArena × Option SharedArena)
finish_store env off pages commit_size log (true, a) = do
  b ← donate env a off pages commit_size
  some (true, b, log)
finish_store env off pages commit_size log (false, a) = some (false, unlock a, log)

-- The operation goes into this arena's log.
unfoldable pub store_logging_here :
    Env → SharedArena → ℕ → ℕ → ℕ → Option (Bool × SharedArena × Option SharedArena)
store_logging_here env a off pages commit_size = do
  b ← lock a
  r ← append_log_pages_locked env b SharedArenaLogOp.free (a.core_id % 2 ^ 8) off commit_size 0
  finish_store env off pages commit_size none r

-- The operation goes into the log of another arena, which is unlocked again at once.
unfoldable pub store_logging_in :
    Env → SharedArena → SharedArena → ℕ → ℕ → ℕ → Option (Bool × SharedArena × Option SharedArena)
store_logging_in env log a off pages commit_size = do
  (l, b) ← lock_both log a
  (ok, l') ←
      append_log_pages_locked env l SharedArenaLogOp.free (a.core_id % 2 ^ 8) off commit_size 0
  finish_store env off pages commit_size (some (unlock l')) (ok, b)

-- The log's arena is `none` if the caller names none or this arena, and another arena otherwise.
-- The result has what `store` returns, this arena and the log's.
unfoldable pub store :
    Env
    → SharedArena
    → Option SharedArena
    → ℕ
    → ℕ
    → Option (Bool × SharedArena × Option SharedArena)
store env a log commit_base commit_size =
    if not a.initialized || (commit_size == 0)
    then some (false, a, log)
    else if invalid_range env a commit_base commit_size
    then some (false, a, log)
    else elim log [
      | none ↦ store_logging_here env a off pages commit_size
      | some l ↦ store_logging_in env l a off pages commit_size
    ]
  where
    off : ℕ
    off = addr_to_page_off env a commit_base

    pages : ℕ
    pages = (commit_size / env.page_size) % 2 ^ 32
