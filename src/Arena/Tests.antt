-- ===== src/Arena/Tests.antt =====
-- The arena on concrete memories: 16 data pages of 4 KB, of which the first 8 were handed out and the
-- pages 2, 3 and 4 are free again.
use scudo.Common.{
  ℕ, Option, ◌+◌, ◌^◌, ◌*◌, ◌<◌, ◌≡◌, refl, ◌↔◌, ◌⊎◌, inr, Bool, true, false, some, none, List, [],
  ◌∷◌, arith, ◌==◌, if◌then◌else◌, All,
}
use scudo.Arith.{is_aligned, round_up, round_down}
use scudo.Arena.State.{
  SharedArena, SharedArenaHeader, SharedArenaLogRing, SharedArenaLogOp, Blocks, Env, free_list_end,
  lock, unlock, page_off_to_addr, free_block_magic, contains_va,
}
use scudo.Arena.Log.{append_log_locked, append_log_pages_locked}
use scudo.Arena.Log.Frame.{SameButLog, Refuses, Appended}
use scudo.Arena.Log.Append.{append-Appended}
use scudo.Arena.FreeList.{ListMemory, insert_block, find_best, free_block_looks_valid, resize_block}
use scudo.Arena.Store.{list_memory, store}
use scudo.Arena.Retrieve.{
  Block, scan_free, take_pages, take_best, bump, finish_retrieve, count_retrieval, retrieve,
}
use scudo.Arena.Lifecycle.{System, Prctl, reset}
use scudo.Arena.Lifecycle.Ready.{reset-IsArena}
use scudo.Arena.Stats.{get_debug_stats}
use scudo.Arena.Stats.Debug.{get_debug_stats-walks}
use scudo.Arena.Seg.{Extent}
use scudo.Arena.Seg.Insert.{IsFreeList}
use scudo.Arena.Donation.{Inserted, insert_block-Inserted}
use scudo.Arena.Invariant.{IsPaged, IsArena}
use scudo.Arena.Storing.{Stored, locked, store_outcome}
use scudo.Arena.Storing.Across.{store_across}
use scudo.Arena.Refusing.{store_refuses}
use scudo.Arena.Retrieving.{Taken, take_pages-Taken}
use scudo.Arena.Outcome.{Outcome, retrieve-Outcome}
use scudo.Arena.Safety.{Reach-IsSafe}
use scudo.Arena.Safety.Runs.{Request, Step, Reach, IsSafe}
use scudo.Arena.Pool.{SharedArenaPool, get_owning_arena}
use scudo.Arena.Pool.Routing.{IsPlaced, get_owning_arena-contains_va}

abbrev pub env : Env
env = record {
  page_size = 4096;
  allow_no_kernel = false;
  freelist_disabled = false;
  head_after_yield = λ head tail. head;
}

pub env-IsPaged : IsPaged env
env-IsPaged = record { log = 12; rest = 51; width = refl; power = refl }

abbrev blocks : Blocks
blocks q =
    if q == 2
    then record {
      prev_page_off = free_list_end;
      next_page_off = free_list_end;
      size_in_pages = 3;
      magic = free_block_magic;
    }
    else record { prev_page_off = 0; next_page_off = 0; size_in_pages = 0; magic = 0 }

abbrev hdr : SharedArenaHeader
hdr = record {
  lock = 0;
  version = 2;
  bump_offset_in_pages = 8;
  total_data_pages = 16;
  free_list_head_page_off = 2;
  free_count = 1;
  total_donated_bytes = 12288;
  total_retrieved_bytes = 32768;
  donate_count = 1;
  retrieve_count = 2;
}

abbrev pub ring : SharedArenaLogRing
ring = record {
  magic = 0x4d44524c;
  version = 1;
  flags = 0;
  capacity = 256;
  arena_nr_pages = 16;
  ring_size = 4096;
  head = 0;
  tail = 3;
  dropped = 0;
  entries = λ i. record {
    op = SharedArenaLogOp.alloc;
    src_cpu = 0;
    flags = 0;
    start_page = 0;
    num_pages = 0;
  };
}

abbrev pub arena : SharedArena
arena = record {
  initialized = true;
  core_id = 0;
  shm_fd = some 5;
  base_addr = 0x200000000000;
  data_base = 0x200000001000;
  mapped = true;
  hdr = hdr;
  blocks = blocks;
  log_ring = some ring;
  log_ring_size = 4096;
  log_head_cache = 0;
  log_tail_cache = 3;
  log_capacity_cache = 256;
  log_capacity_mask = 255;
}

abbrev pub extents : List Extent
extents = (2, 3) ∷ []

list-IsFreeList : IsFreeList (list_memory arena) extents
list-IsFreeList = record {
  front = (refl, (refl, tt));
  count = refl;
  ordered = (omega arith, omega arith, tt);
  within = omega arith;
  small = omega arith;
}

pub arena-IsArena : IsArena env arena extents
arena-IsArena = record {
  ready = refl;
  unlocked = refl;
  list = list-IsFreeList;
  apart = (omega arith, tt);
  below_bump = omega arith;
  bump_in = omega arith;
  placed = omega arith;
  aligned = refl;
  space = omega arith;
}

store_outcome_example :
    (ok : Bool) × (c : SharedArena) × (store env arena none (arena.data_base + 6 * 4096) 4096
      ≡ some (ok, c, none))
    × (((ok ≡ true) × Stored env arena c extents 6 1) ⊎ ((ok ≡ false) × SameButLog arena c))
    × ((ok ≡ false) ↔ Refuses env arena)
store_outcome_example =
    store_outcome env env-IsPaged arena extents arena-IsArena 6 1 (omega arith) (omega arith) refl
      (inr (omega arith), tt) ring refl

take_pages-Taken_example :
    (best : ℕ) × (scan_free env (list_memory (locked arena)) 2
      ≡ some (best, list_memory (locked arena)))
    × (((o : ℕ) × (c : SharedArena) × (take_pages env (locked arena) best 2
            ≡ (some (arena.data_base + o * 4096), c))
          × Taken env arena c extents o 2)
        ⊎ ((take_pages env (locked arena) best 2 ≡ (none, locked arena))
            × All (λ b. b.1 < 2) extents
            × (16 < 8 + 2)))
take_pages-Taken_example =
    take_pages-Taken env env-IsPaged arena extents arena-IsArena 2 (omega arith) (omega arith) refl

insert_block-Inserted_example :
    (m : ListMemory) × (insert_block (list_memory arena) 5 1 ≡ some m)
    × Inserted (list_memory arena) m extents 5 1
insert_block-Inserted_example =
    insert_block-Inserted (list_memory arena) extents 5 1 list-IsFreeList (omega arith, tt)
      (inr (omega arith), tt) (omega arith) (omega arith)

get_debug_stats-walks_example :
    let out = get_debug_stats env arena in
    (out.free_list_walk_count ≡ 1)
    × (out.free_list_bytes ≡ 3 * 4096)
    × (out.free_list_bad_magic ≡ 0)
    × (out.free_count ≡ out.free_list_walk_count)
get_debug_stats-walks_example = get_debug_stats-walks env arena extents arena-IsArena refl

append-Appended_example :
    (ok : Bool) × (b : SharedArena) × (append_log_pages_locked env arena SharedArenaLogOp.free 0 6
        4096 0
      ≡ some (ok, b))
    × SameButLog arena b
    × ((ok ≡ false) ↔ Refuses env arena)
    × Appended env arena b 3
        (record {
          op = SharedArenaLogOp.free;
          src_cpu = 0;
          flags = 0;
          start_page = 6;
          num_pages = 1;
        })
        ok
unfolding is_aligned
append-Appended_example =
    append-Appended env arena SharedArenaLogOp.free 0 6 4096 0 ring refl (omega arith) refl 8 refl

-- The arena of the next core, whose log has the entry of a store on the first.
abbrev other : SharedArena
other = record arena { core_id = 1; base_addr = 0x200020000000; data_base = 0x200020001000 }

store_across_example :
    (ok : Bool) × (c : SharedArena) × (k : SharedArena) × (store env arena
        (some other)
        (arena.data_base + 6 * 4096)
        4096
      ≡ some (ok, c, some k))
    × (((ok ≡ true) × Stored env arena c extents 6 1) ⊎ ((ok ≡ false) × (c ≡ arena)))
    × SameButLog other k
    × ((ok ≡ false) ↔ Refuses env other)
store_across_example =
    store_across env env-IsPaged arena extents arena-IsArena 6 1 (omega arith) (omega arith) other
      refl refl (inr (omega arith), tt) ring refl

abbrev pub pool : SharedArenaPool
pool = record {
  initialized = true;
  owner_pid = 77;
  num_cores = 2;
  arenas = λ i. record arena { core_id = i; base_addr = 0x200000000000 + i * 0x20000000 };
  alloc_counter = 0;
  arena_active = true;
}

pub pool-IsPlaced : IsPlaced pool
pool-IsPlaced = record { ready = refl; few = omega arith; bases = λ i h. refl }

get_owning_arena-contains_va_example :
    (contains_va (pool.arenas 1) 0x200020001000 ≡ true)
    ↔ (get_owning_arena pool 0x200020001000 ≡ some 1)
get_owning_arena-contains_va_example =
    get_owning_arena-contains_va pool pool-IsPlaced 0x200020001000 (omega arith) 1 (omega arith)

abbrev pub os : System
os = record {
  shm_open = some 5;
  ftruncate = true;
  map_arena = none;
  map_ring = true;
  prctl = Prctl.registered;
  madvise = λ addr size. true;
}

reset-IsArena_example :
    (c : SharedArena) × (reset env os (λ f. f) arena ≡ some c)
    × IsArena env c []
    × (c.hdr.bump_offset_in_pages ≡ 0)
reset-IsArena_example =
    reset-IsArena env arena os (λ f. f) refl refl refl (omega arith) refl (omega arith)

retrieve-Outcome_example :
    (r : Option Block) × (c : SharedArena) × (retrieve env arena 8000 (2 ^ 4) 64 ≡ some (r, c))
    × Outcome env arena extents 2 8000 (2 ^ 4) 64 r c
retrieve-Outcome_example =
    retrieve-Outcome env env-IsPaged arena extents arena-IsArena 8000 64 4 59 2 refl (omega arith)
      (omega arith) (omega arith) (omega arith) (omega arith) (omega arith) refl (omega arith)
      (omega arith) ring refl

-- The arena that a call leaves, and the block that it gives.
abbrev left : Option (Option Block × SharedArena) → SharedArena
left none = arena
left (some (r, c)) = c

abbrev given : Option (Option Block × SharedArena) → Block
given (some (some b, c)) = b
given r = record { commit_base = 0; commit_size = 0; entry_header_pos = 0 }

abbrev call : Option (Option Block × SharedArena)
call = retrieve env arena 8000 (2 ^ 4) 64

call_gives : call ≡ some (some (given call), left call)
unfolding retrieve scan_free find_best free_block_looks_valid take_pages take_best resize_block bump
    finish_retrieve count_retrieval append_log_locked append_log_pages_locked lock unlock round_up
    round_down page_off_to_addr is_aligned
call_gives = refl

call_base : (given call).commit_base ≡ arena.data_base + 3 * env.page_size
unfolding retrieve scan_free find_best take_pages take_best finish_retrieve append_log_locked lock
    round_up page_off_to_addr round_down is_aligned count_retrieval
call_base = refl

request : Request env arena 8000 64 4 2
request = record {
  rest = 59;
  width = refl;
  some_bytes = omega arith;
  enough = omega arith;
  tight = omega arith;
  word = omega arith;
  fits = omega arith;
  low = omega arith;
  bytes = omega arith;
  count = omega arith;
}

Reach-IsSafe_example : IsSafe env arena (record { arena = left call; held = (3, 2) ∷ [] })
Reach-IsSafe_example =
    Reach-IsSafe env env-IsPaged arena extents arena-IsArena refl
      (record { arena = left call; held = (3, 2) ∷ [] })
      (Reach.later Reach.start
        (Step.retrieved ring 8000 64 4 2 3 (given call) refl request call_gives call_base))

store_refuses_example :
    store env arena (some arena) (0x200000001000 + 61440) 8192 ≡ (some (false, arena, some arena))
store_refuses_example =
    store_refuses env env-IsPaged arena 61440 8192 refl (omega arith) (omega arith) (omega arith)
      (omega arith) (inr (inr (inr (omega arith)))) (some arena)
