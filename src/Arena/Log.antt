-- ===== src/Arena/Log.antt =====
-- The operation log (appendLogPagesLocked and appendLogLocked), a ring that the kernel empties.
pub mod Frame
pub mod Append
use scudo.Common.{
  ℕ, ◌/◌, ◌%◌, ◌^◌, bit_and, Bool, true, false, not, ◌||◌, Option, none, some, ◌==◌, leb,
  if◌then◌else◌, add_u32, sub_u32, update,
}
use scudo.Arith.{is_aligned}
use scudo.Arena.State.{SharedArena, SharedArenaLogRing, SharedArenaLogOp, Env, addr_to_page_off}

-- No room for one more entry, as far as the given head shows.
unfoldable pub log_full : ℕ → ℕ → ℕ → Bool
log_full capacity head tail = leb capacity (sub_u32 tail head)

-- Looks for room by the head as the cache has it, then as the ring has it, then as it is after a
-- yield; a full ring counts the operation as dropped. It returns whether there is room, the ring and
-- the cached head.
unfoldable pub reserve_entry :
    Env → SharedArena → SharedArenaLogRing → Bool × SharedArenaLogRing × ℕ
unfolding log_full
reserve_entry env a ring =
    if not (log_full capacity a.log_head_cache tail)
    then (true, ring, a.log_head_cache)
    else if not (log_full capacity ring.head tail)
    then (true, ring, ring.head)
    else if not (log_full capacity yielded tail)
    then (true, record ring { head = yielded }, yielded)
    else (false, record ring { head = yielded; dropped = add_u32 ring.dropped 1 }, yielded)
  where
    capacity : ℕ
    capacity = a.log_capacity_cache

    tail : ℕ
    tail = a.log_tail_cache

    yielded : ℕ
    yielded = env.head_after_yield ring.head ring.tail

-- The entry is written at `Tail & LogCapacityMask`, and then published by the new tail.
unfoldable pub write_entry :
    Env → SharedArena → SharedArenaLogRing → SharedArenaLogOp → ℕ → ℕ → ℕ → ℕ → SharedArena
write_entry env a ring op src_cpu start_page commit_size flags = record a {
  log_ring = some (record ring {
    tail = new_tail;
    entries = update ring.entries (bit_and a.log_tail_cache a.log_capacity_mask) (record {
      op = op;
      src_cpu = src_cpu;
      flags = flags;
      start_page = start_page;
      num_pages = (commit_size / env.page_size) % 2 ^ 32;
    });
  });
  log_tail_cache = new_tail;
}
  where
    new_tail : ℕ
    new_tail = add_u32 a.log_tail_cache 1

-- The part that touches the ring.
unfoldable pub append_to :
    Env → SharedArena → SharedArenaLogRing → SharedArenaLogOp → ℕ → ℕ → ℕ → ℕ → Bool × SharedArena
unfolding reserve_entry write_entry
append_to env a ring op src_cpu start_page commit_size flags =
    let (room, reserved, head) = reserve_entry env a ring in
    let b : SharedArena = record a { log_ring = some reserved; log_head_cache = head } in
    if room
    then (true, write_entry env b reserved op src_cpu start_page commit_size flags)
    else (false, b)

-- `none` is the fault of a null ring.
unfoldable pub append_log_pages_locked :
    Env → SharedArena → SharedArenaLogOp → ℕ → ℕ → ℕ → ℕ → Option (Bool × SharedArena)
unfolding append_to
append_log_pages_locked env a op src_cpu start_page commit_size flags =
    if env.allow_no_kernel
    then some (true, a)
    else if (commit_size == 0) || not (is_aligned commit_size env.page_size)
    then some (false, a)
    else if a.log_capacity_cache == 0
    then some (false, a)
    else elim a.log_ring [
      | none ↦ none
      | some ring ↦ some (append_to env a ring op src_cpu start_page commit_size flags)
    ]

unfoldable pub append_log_locked :
    Env → SharedArena → SharedArenaLogOp → ℕ → ℕ → ℕ → Option (Bool × SharedArena)
unfolding append_log_pages_locked addr_to_page_off
append_log_locked env a op commit_base commit_size flags =
    if not (is_aligned commit_base env.page_size)
    then some (false, a)
    else append_log_pages_locked env a op (a.core_id % 2 ^ 8) (addr_to_page_off env a commit_base)
        commit_size flags
