-- ===== src/Arena/State.antt =====
-- The state of one shared arena (shared_arena.h): the header and the free blocks in the shared
-- memory, the log ring, and the fields of the process.
use scudo.Common.{
  ℕ, ◌*◌, ◌/◌, ◌%◌, ◌^◌, Bool, ◌&&◌, Option, none, some, ◌==◌, ltb, leb, if◌then◌else◌, add_uptr,
  sub_uptr,
}

abbrev pub shared_arena_base_addr : ℕ
shared_arena_base_addr = 0x200000000000

abbrev pub arena_capacity_per_core : ℕ
arena_capacity_per_core = 512 * 1024 * 1024

abbrev pub arena_max_cores : ℕ
arena_max_cores = 16

abbrev pub arena_header_size : ℕ
arena_header_size = 4096

-- `kFreeListEnd`, the largest u32.
abbrev pub free_list_end : ℕ
free_list_end = 0xFFFFFFFF

abbrev pub free_block_magic : ℕ
free_block_magic = 0xF4EEB10C

pub data SharedArenaLogOp : Type 0 where
  alloc free : SharedArenaLogOp

pub record SharedArenaLogEntry : Type 0 where
  pub op : SharedArenaLogOp
  pub src_cpu : ℕ
  pub flags : ℕ
  pub start_page : ℕ
  pub num_pages : ℕ

-- `entries` are the words that follow the ring's header in memory.
pub record SharedArenaLogRing : Type 0 where
  pub magic : ℕ
  pub version : ℕ
  pub flags : ℕ
  pub capacity : ℕ
  pub arena_nr_pages : ℕ
  pub ring_size : ℕ
  pub head : ℕ
  pub tail : ℕ
  pub dropped : ℕ
  pub entries : ℕ → SharedArenaLogEntry

pub record FreeBlockHeader : Type 0 where
  pub prev_page_off : ℕ
  pub next_page_off : ℕ
  pub size_in_pages : ℕ
  pub magic : ℕ

-- The words at the start of each data page, by page offset, read as a free block header.
abbrev pub Blocks : Type 0
Blocks = ℕ → FreeBlockHeader

pub record SharedArenaHeader : Type 0 where
  pub lock : ℕ
  pub version : ℕ
  pub bump_offset_in_pages : ℕ
  pub total_data_pages : ℕ
  pub free_list_head_page_off : ℕ
  pub free_count : ℕ
  pub total_donated_bytes : ℕ
  pub total_retrieved_bytes : ℕ
  pub donate_count : ℕ
  pub retrieve_count : ℕ

-- `hdr` and `blocks` are what the pointer `Hdr` leads to; `mapped` says that it is not null. A null
-- `LogRing` is `none`.
pub record SharedArena : Type 0 where
  pub initialized : Bool
  pub core_id : ℕ
  pub shm_fd : Option ℕ
  pub base_addr : ℕ
  pub data_base : ℕ
  pub mapped : Bool
  pub hdr : SharedArenaHeader
  pub blocks : Blocks
  pub log_ring : Option SharedArenaLogRing
  pub log_ring_size : ℕ
  pub log_head_cache : ℕ
  pub log_tail_cache : ℕ
  pub log_capacity_cache : ℕ
  pub log_capacity_mask : ℕ

-- What the process and the system around it give: the page size, the environment variables, and
-- where the kernel has moved the ring's head, from the head and the tail, once a thread that found
-- the ring full has yielded.
pub record Env : Type 0 where
  pub page_size : ℕ
  pub allow_no_kernel : Bool
  pub freelist_disabled : Bool
  pub head_after_yield : ℕ → ℕ → ℕ

unfoldable pub page_off_to_addr : Env → SharedArena → ℕ → ℕ
page_off_to_addr env a page_off = add_uptr a.data_base (page_off * env.page_size)

unfoldable pub addr_to_page_off : Env → SharedArena → ℕ → ℕ
addr_to_page_off env a addr = (sub_uptr addr a.data_base / env.page_size) % 2 ^ 32

unfoldable pub contains_va : SharedArena → ℕ → Bool
contains_va a va =
    a.initialized && leb a.base_addr va && ltb va (add_uptr a.base_addr arena_capacity_per_core)

-- The spinlock in the shared header. Taking it returns once the lock is free: `none` is a thread
-- that spins, as it does for ever if nobody else can release the lock.
unfoldable pub lock : SharedArena → Option SharedArena
lock a = if a.hdr.lock == 0 then some (record a { hdr = record hdr { lock = 1 } }) else none
  where
    open a use {hdr}

unfoldable pub unlock : SharedArena → SharedArena
unlock a = record a { hdr = record hdr { lock = 0 } }
  where
    open a use {hdr}
