-- ===== src/Arena/Stats.antt =====
-- SharedArena::getStats and getDebugStats.
pub mod Debug
pub mod Walk
use scudo.Common.{
  ℕ, zero, suc, ◌+◌, ◌*◌, ◌%◌, ◌^◌, Bool, true, false, not, ◌||◌, Option, none, some, ◌==◌,
  if◌then◌else◌, add_u32, add_uptr,
}
use scudo.Arena.State.{
  SharedArena, SharedArenaLogRing, Blocks, Env, free_list_end, free_block_magic,
}

unfoldable pub get_stats : SharedArena → ℕ × ℕ × ℕ
get_stats a =
    if not a.initialized
    then (0, 0, 0)
    else (a.hdr.free_count, a.hdr.total_donated_bytes, a.hdr.total_retrieved_bytes)

pub record SharedArenaDebugStats : Type 0 where
  pub core_id : ℕ
  pub initialized : ℕ
  pub total_data_pages : ℕ
  pub bump_offset_in_pages : ℕ
  pub free_list_head_page_off : ℕ
  pub free_count : ℕ
  pub free_list_walk_count : ℕ
  pub free_list_bad_magic : ℕ
  pub free_list_bytes : ℕ
  pub total_donated_bytes : ℕ
  pub total_retrieved_bytes : ℕ
  pub donate_count : ℕ
  pub retrieve_count : ℕ
  pub log_head : ℕ
  pub log_tail : ℕ
  pub log_dropped : ℕ

-- `Out = {}`
abbrev pub blank : SharedArenaDebugStats
blank = record {
  core_id = 0;
  initialized = 0;
  total_data_pages = 0;
  bump_offset_in_pages = 0;
  free_list_head_page_off = free_list_end;
  free_count = 0;
  free_list_walk_count = 0;
  free_list_bad_magic = 0;
  free_list_bytes = 0;
  total_donated_bytes = 0;
  total_retrieved_bytes = 0;
  donate_count = 0;
  retrieve_count = 0;
  log_head = 0;
  log_tail = 0;
  log_dropped = 0;
}

-- The walk ends at the end of the list, at a bad magic, or after `left` more blocks, which is the
-- bound that the code sets to it.
unfoldable pub walk : Env → Blocks → ℕ → ℕ → SharedArenaDebugStats → SharedArenaDebugStats
walk env blocks zero cur out = out
walk env blocks (suc left) cur out =
    let rest = walk env blocks left (blocks cur).next_page_off (record out {
      free_list_bytes =
          add_uptr out.free_list_bytes ((blocks cur).size_in_pages * env.page_size % 2 ^ 64);
      free_list_walk_count = add_u32 out.free_list_walk_count 1;
    }) in
    if cur == free_list_end
    then out
    else if not ((blocks cur).magic == free_block_magic)
    then record out { free_list_bad_magic = add_u32 out.free_list_bad_magic 1 }
    else rest

unfoldable pub log_stats : Option SharedArenaLogRing → SharedArenaDebugStats → SharedArenaDebugStats
log_stats none out = out
log_stats (some ring) out = record out {
  log_head = ring.head;
  log_tail = ring.tail;
  log_dropped = ring.dropped;
}

-- The fields that are copied from the header.
unfoldable pub header_stats : SharedArena → SharedArenaDebugStats
header_stats a = record blank {
  core_id = a.core_id;
  initialized = 1;
  total_data_pages = hdr.total_data_pages;
  bump_offset_in_pages = hdr.bump_offset_in_pages;
  free_list_head_page_off = hdr.free_list_head_page_off;
  free_count = hdr.free_count;
  total_donated_bytes = hdr.total_donated_bytes;
  total_retrieved_bytes = hdr.total_retrieved_bytes;
  donate_count = hdr.donate_count;
  retrieve_count = hdr.retrieve_count;
}
  where
    open a use {hdr}

unfoldable pub get_debug_stats : Env → SharedArena → SharedArenaDebugStats
get_debug_stats env a =
    if not a.initialized || not a.mapped
    then record blank { core_id = a.core_id }
    else walk env a.blocks (add_u32 a.hdr.total_data_pages 1) a.hdr.free_list_head_page_off
        (log_stats a.log_ring (header_stats a))
