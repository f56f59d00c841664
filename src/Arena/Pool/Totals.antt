-- ===== src/Arena/Pool/Totals.antt =====
-- SharedArenaPool::getDebugStats.
use scudo.Common.{
  ℕ, zero, suc, ◌-◌, ◌*◌, ◌%◌, ◌^◌, not, ◌==◌, ltb, if◌then◌else◌, add_u32, add_uptr,
}
use scudo.Arena.State.{SharedArena, Env}
use scudo.Arena.Stats.{SharedArenaDebugStats, get_debug_stats}
use scudo.Arena.Pool.{SharedArenaPool}

pub record SharedArenaPoolDebugStats : Type 0 where
  pub initialized : ℕ
  pub num_cores : ℕ
  pub initialized_arenas : ℕ
  pub free_count : ℕ
  pub free_list_walk_count : ℕ
  pub free_list_bad_magic : ℕ
  pub total_data_bytes : ℕ
  pub bump_bytes : ℕ
  pub free_list_bytes : ℕ
  pub in_use_bytes : ℕ
  pub total_donated_bytes : ℕ
  pub total_retrieved_bytes : ℕ
  pub donate_count : ℕ
  pub retrieve_count : ℕ
  pub log_dropped : ℕ

unfoldable pub add_stats :
    Env → SharedArenaDebugStats → SharedArenaPoolDebugStats → SharedArenaPoolDebugStats
add_stats env s out = record out {
  initialized_arenas = add_u32 out.initialized_arenas 1;
  free_count = add_u32 out.free_count s.free_count;
  free_list_walk_count = add_u32 out.free_list_walk_count s.free_list_walk_count;
  free_list_bad_magic = add_u32 out.free_list_bad_magic s.free_list_bad_magic;
  total_data_bytes = add_uptr out.total_data_bytes (s.total_data_pages * env.page_size % 2 ^ 64);
  bump_bytes = add_uptr out.bump_bytes (s.bump_offset_in_pages * env.page_size % 2 ^ 64);
  free_list_bytes = add_uptr out.free_list_bytes s.free_list_bytes;
  total_donated_bytes = add_uptr out.total_donated_bytes s.total_donated_bytes;
  total_retrieved_bytes = add_uptr out.total_retrieved_bytes s.total_retrieved_bytes;
  donate_count = add_u32 out.donate_count s.donate_count;
  retrieve_count = add_u32 out.retrieve_count s.retrieve_count;
  log_dropped = add_u32 out.log_dropped s.log_dropped;
}

-- The loop over the arenas of `left` cores from `i`; one that is not initialized is passed over.
unfoldable pub sum_stats :
    Env → (ℕ → SharedArena) → ℕ → ℕ → SharedArenaPoolDebugStats → SharedArenaPoolDebugStats
sum_stats env arenas zero i out = out
sum_stats env arenas (suc left) i out =
    sum_stats env arenas left (suc i) (if s.initialized == 0 then out else add_stats env s out)
  where
    s : SharedArenaDebugStats
    s = get_debug_stats env (arenas i)

-- `Out.InUseBytes`.
unfoldable pub count_in_use : SharedArenaPoolDebugStats → SharedArenaPoolDebugStats
count_in_use out = record out {
  in_use_bytes =
      if ltb out.free_list_bytes out.bump_bytes then out.bump_bytes - out.free_list_bytes else 0;
}

-- `Out = {}`, with the two fields that every pool sets.
unfoldable pub blank_totals : SharedArenaPool → SharedArenaPoolDebugStats
blank_totals p = record {
  initialized = if p.initialized then 1 else 0;
  num_cores = p.num_cores;
  initialized_arenas = 0;
  free_count = 0;
  free_list_walk_count = 0;
  free_list_bad_magic = 0;
  total_data_bytes = 0;
  bump_bytes = 0;
  free_list_bytes = 0;
  in_use_bytes = 0;
  total_donated_bytes = 0;
  total_retrieved_bytes = 0;
  donate_count = 0;
  retrieve_count = 0;
  log_dropped = 0;
}

unfoldable pub get_pool_debug_stats : Env → SharedArenaPool → SharedArenaPoolDebugStats
get_pool_debug_stats env p =
    if not p.initialized
    then blank_totals p
    else count_in_use (sum_stats env p.arenas p.num_cores 0 (blank_totals p))
