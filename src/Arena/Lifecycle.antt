-- ===== src/Arena/Lifecycle.antt =====
-- The life of an arena: initLogRing, registerWithKernel, init, refreshLogRingForCurrentProcess,
-- releasePages and reset of shared_arena_linux.cpp (the build without SCUDO_ANDROID).
pub mod Ready
use scudo.Common.{
  ℕ, ◌-◌, ◌*◌, ◌/◌, ◌%◌, ◌^◌, Bool, true, false, not, ◌||◌, Option, none, some, ◌==◌, ltb, leb,
  if◌then◌else◌, ◌>>=◌, add_uptr, sub_uptr, sub_u32,
}
use scudo.Arith.{round_up, round_down, most_significant_set_bit_index}
use scudo.Arena.State.{
  SharedArena, SharedArenaHeader, SharedArenaLogRing, SharedArenaLogEntry, SharedArenaLogOp, Blocks,
  Env, shared_arena_base_addr, arena_capacity_per_core, arena_header_size, free_list_end, lock,
  unlock,
}

-- The answer of prctl(PR_SET_MEMORY_DELEGATION_LOG).
pub data Prctl : Type 0 where
  registered einval other_error : Prctl

-- The answers of the system to one arena's calls: the descriptor of shm_open, whether ftruncate
-- succeeds, the shared memory that mmap at the fixed address shows, whether the private mmap of a ring
-- succeeds, what prctl says, and whether madvise(MADV_REMOVE) of a range succeeds.
pub record System : Type 0 where
  pub shm_open : Option ℕ
  pub ftruncate : Bool
  pub map_arena : Option (SharedArenaHeader × Blocks)
  pub map_ring : Bool
  pub prctl : Prctl
  pub madvise : ℕ → ℕ → Bool

-- sizeof(SharedArenaLogRing) and sizeof(SharedArenaLogEntry).
abbrev pub log_ring_header_bytes : ℕ
log_ring_header_bytes = 36

abbrev pub log_entry_bytes : ℕ
log_entry_bytes = 12

abbrev pub log_ring_magic : ℕ
log_ring_magic = 0x4d44524c

unfoldable pub clear_log : SharedArena → SharedArena
clear_log a = record a {
  log_ring = none;
  log_ring_size = 0;
  log_head_cache = 0;
  log_tail_cache = 0;
  log_capacity_cache = 0;
  log_capacity_mask = 0;
}

-- The entries that fit behind the header of a ring of one page.
abbrev pub raw_capacity : ℕ → ℕ
raw_capacity page_size = ((page_size - log_ring_header_bytes) / log_entry_bytes) % 2 ^ 32

-- An anonymous mapping is zero.
abbrev pub zero_entries : ℕ → SharedArenaLogEntry
zero_entries i = record {
  op = SharedArenaLogOp.alloc;
  src_cpu = 0;
  flags = 0;
  start_page = 0;
  num_pages = 0;
}

unfoldable pub fresh_ring : Env → SharedArena → ℕ → SharedArena
fresh_ring env a capacity = record a {
  log_ring = some (record {
    magic = log_ring_magic;
    version = 1;
    flags = 0;
    capacity = capacity;
    arena_nr_pages = a.hdr.total_data_pages;
    ring_size = env.page_size % 2 ^ 32;
    head = 0;
    tail = 0;
    dropped = 0;
    entries = zero_entries;
  });
  log_ring_size = env.page_size;
  log_head_cache = 0;
  log_tail_cache = 0;
  log_capacity_cache = capacity;
  log_capacity_mask = sub_u32 capacity 1;
}

unfoldable pub init_log_ring : Env → System → SharedArena → Bool × SharedArena
init_log_ring env os a =
    if not os.map_ring
    then (false, a)
    else if leb env.page_size log_ring_header_bytes
    then (false, clear_log a)
    else if raw_capacity env.page_size == 0
    then (false, clear_log a)
    else (
      true,
      fresh_ring env a (2 ^ most_significant_set_bit_index (raw_capacity env.page_size) % 2 ^ 32),
    )

unfoldable pub register_with_kernel : Env → System → Bool
register_with_kernel env os = elim os.prctl [
  | registered ↦ true
  | einval ↦ env.allow_no_kernel
  | other_error ↦ false
]

unfoldable pub refresh_log_ring_for_current_process :
    Env → System → SharedArena → Bool × SharedArena
refresh_log_ring_for_current_process env os a =
    if not a.initialized then (true, a) else elim a.shm_fd [ none ↦ (false, a) | some fd ↦ remap ]
  where
    renew : Bool × SharedArena → Bool × SharedArena
    renew (true, b) = (register_with_kernel env os, b)
    renew (false, b) = (false, b)

    remap : Bool × SharedArena
    remap = if a.base_addr == 0 then (false, a) else elim os.map_arena [
      | none ↦ (false, a)
      | some (hdr, blocks) ↦ renew (
          init_log_ring env os (clear_log (record a { mapped = true; hdr = hdr; blocks = blocks })))
    ]

unfoldable pub release_pages : Env → System → SharedArena → ℕ → ℕ → Bool
release_pages env os a addr size =
    if not a.initialized || (size == 0)
    then false
    else if leb aligned_end aligned_addr
    then false
    else os.madvise aligned_addr (sub_uptr aligned_end aligned_addr)
  where
    aligned_addr : ℕ
    aligned_addr = round_up addr env.page_size

    aligned_end : ℕ
    aligned_end = round_down (add_uptr addr size) env.page_size

abbrev pub total_data_pages_of : Env → ℕ
total_data_pages_of env = ((arena_capacity_per_core - arena_header_size) / env.page_size) % 2 ^ 32

-- The fields that the first process of an arena, and a reset, set.
unfoldable pub clear_header : Env → SharedArenaHeader → SharedArenaHeader
clear_header env hdr = record hdr {
  bump_offset_in_pages = 0;
  total_data_pages = total_data_pages_of env;
  free_list_head_page_off = free_list_end;
  free_count = 0;
  total_donated_bytes = 0;
  total_retrieved_bytes = 0;
  donate_count = 0;
  retrieve_count = 0;
}

-- The header by its version: 0 is fresh memory, 1 is memory that another process is setting up, which
-- this one waits for (`none`).
unfoldable pub claim_header : Env → SharedArenaHeader → Option SharedArenaHeader
claim_header env hdr =
    if hdr.version == 0
    then some (record (clear_header env hdr) { lock = 0; version = 2 })
    else if ltb hdr.version 2
    then none
    else some hdr

-- Nothing of a failed `init` stays mapped.
unfoldable pub abandon : SharedArena → SharedArena
abandon a = record a { mapped = false; shm_fd = none }

unfoldable pub init : Env → System → SharedArena → ℕ → Option (Bool × SharedArena)
init env os a id = elim os.shm_open [ none ↦ some (false, named) | some fd ↦ attach fd ]
  where
    base : ℕ
    base = add_uptr shared_arena_base_addr (id * arena_capacity_per_core)

    named : SharedArena
    named = record a { core_id = id; base_addr = base; data_base = add_uptr base arena_header_size }

    register : SharedArena → Bool × SharedArena
    register b =
        if register_with_kernel env os
        then (true, record b { initialized = true })
        else (false, abandon (clear_log b))

    with_ring : Bool × SharedArena → Bool × SharedArena
    with_ring (true, b) = register b
    with_ring (false, b) = (false, abandon b)

    set_up : ℕ → SharedArenaHeader → Blocks → Option (Bool × SharedArena)
    set_up fd hdr blocks = do
      h ← claim_header env hdr
      some (
          with_ring (
            init_log_ring env os
              (record named { shm_fd = some fd; mapped = true; hdr = h; blocks = blocks })))

    attach : ℕ → Option (Bool × SharedArena)
    attach fd = if not os.ftruncate then some (false, named) else elim os.map_arena [
      | none ↦ some (false, named)
      | some (hdr, blocks) ↦ set_up fd hdr blocks
    ]

-- The ring and the caches of a reset. `LogCapacityCache` is taken from the ring.
unfoldable pub reset_log : Env → SharedArena → SharedArena
reset_log env a = elim a.log_ring [ none ↦ a | some ring ↦ emptied ring ]
  where
    emptied : SharedArenaLogRing → SharedArena
    emptied ring = record a {
      log_ring = some (record ring {
        arena_nr_pages = total_data_pages_of env;
        head = 0;
        tail = 0;
        dropped = 0;
      });
      log_head_cache = 0;
      log_tail_cache = 0;
      log_capacity_cache = ring.capacity;
      log_capacity_mask = sub_u32 ring.capacity 1;
    }

-- `punch` says what the data pages read after the holes are punched.
unfoldable pub punch_holes : Env → System → (Blocks → Blocks) → SharedArena → SharedArena
punch_holes env os punch a =
    if release_pages env os a a.data_base (arena_capacity_per_core - arena_header_size)
    then record a { blocks = punch a.blocks }
    else a

-- `none` if the lock is held.
unfoldable pub reset : Env → System → (Blocks → Blocks) → SharedArena → Option SharedArena
reset env os punch a = if not a.initialized || not a.mapped then some a else cleared
  where
    cleared : Option SharedArena
    cleared = do
      b ← lock a
      some (
          punch_holes env os punch
            (reset_log env (unlock (record b { hdr = clear_header env b.hdr }))))
