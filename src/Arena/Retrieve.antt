-- ===== src/Arena/Retrieve.antt =====
-- SharedArena::retrieve: pages from the free list, best fit, or from the bump pointer.
use scudo.Common.{
  ℕ, suc, ◌/◌, ◌%◌, ◌^◌, not, ◌&&◌, ◌||◌, Option, none, some, ◌==◌, ltb, if◌then◌else◌, ◌>>=◌,
  add_u32, sub_u32, add_uptr, sub_uptr,
}
use scudo.Arith.{round_up, round_down}
use scudo.Arena.State.{
  SharedArena, SharedArenaLogOp, Env, page_off_to_addr, lock, unlock, free_list_end,
}
use scudo.Arena.Log.{append_log_locked}
use scudo.Arena.FreeList.{
  ListMemory, Scan, found, damaged, find_best, unlink_block, resize_block, relink_block,
}
use scudo.Arena.Store.{list_memory, with_list}

-- What a successful call writes to its three output arguments.
pub record Block : Type 0 where
  pub commit_base : ℕ
  pub commit_size : ℕ
  pub entry_header_pos : ℕ

-- Phase 1: the block to take from, or `free_list_end`. A corrupt list is dropped whole.
unfoldable pub scan_free : Env → ListMemory → ℕ → Option (ℕ × ListMemory)
scan_free env m needed_pages =
    if not env.freelist_disabled && not (m.hdr.free_count == 0)
    then scan
    else some (free_list_end, m)
  where
    open m use {hdr}

    emptied : ListMemory
    emptied = record m {
      hdr = record hdr { free_list_head_page_off = free_list_end; free_count = 0 };
    }

    outcome : Scan → ℕ × ListMemory
    outcome (found off) = (off, m)
    outcome damaged = (free_list_end, emptied)

    scan : Option (ℕ × ListMemory)
    scan = do
      s ←
          find_best (suc hdr.total_data_pages) m.blocks hdr.total_data_pages needed_pages
            free_list_end 0xFFFFFFFF hdr.free_list_head_page_off
      some (outcome s)

-- The pages come off the end of the chosen block, or are all of it: the list, and where they begin.
unfoldable pub take_best : ListMemory → ℕ → ℕ → ℕ × ListMemory
take_best m best_off needed_pages =
    if remainder == 0
    then (best_off, unlink_block m best_off)
    else (add_u32 best_off remainder, resize_block m best_off remainder)
  where
    remainder : ℕ
    remainder = sub_u32 (m.blocks best_off).size_in_pages needed_pages

-- Phase 2: the address of pages that were never handed out, or `none` if too few are left.
unfoldable pub bump : Env → SharedArena → ℕ → Option ℕ × SharedArena
bump env a needed_pages = if ltb hdr.total_data_pages bumped then (none, a) else (
  some (page_off_to_addr env a hdr.bump_offset_in_pages),
  record a { hdr = record hdr { bump_offset_in_pages = bumped } },
)
  where
    open a use {hdr}

    bumped : ℕ
    bumped = add_u32 hdr.bump_offset_in_pages needed_pages

-- Both phases after the scan: base 0 stands for nothing found, as in the code.
unfoldable pub take_pages : Env → SharedArena → ℕ → ℕ → Option ℕ × SharedArena
take_pages env a best_off needed_pages =
    if best_off == free_list_end
    then bump env a needed_pages
    else if base == 0
    then bump env taken needed_pages
    else (some base, taken)
  where
    cut : ℕ × ListMemory
    cut = take_best (list_memory a) best_off needed_pages

    taken : SharedArena
    taken = with_list a cut.1

    base : ℕ
    base = page_off_to_addr env a cut.0

-- The rollback when the log refuses the allocation.
unfoldable pub roll_back : Env → SharedArena → ℕ → ℕ → ℕ → SharedArena
roll_back env a best_off alloc_base needed_pages =
    if best_off == free_list_end
    then record a {
      hdr = record hdr { bump_offset_in_pages = sub_u32 bump_offset_in_pages needed_pages };
    }
    else if alloc_base == page_off_to_addr env a best_off
    then with_list a (relink_block (list_memory a) best_off)
    else with_list a (
        resize_block (list_memory a) best_off
          (add_u32 (a.blocks best_off).size_in_pages needed_pages))
  where
    open a use {hdr}
    open hdr use {bump_offset_in_pages}

unfoldable pub count_retrieval : SharedArena → ℕ → SharedArena
count_retrieval a alloc_size = record a {
  hdr = record hdr {
    total_retrieved_bytes = add_uptr total_retrieved_bytes alloc_size;
    retrieve_count = add_u32 retrieve_count 1;
  };
}
  where
    open a use {hdr}
    open hdr use {total_retrieved_bytes, retrieve_count}

unfoldable pub uncount_retrieval : SharedArena → ℕ → SharedArena
uncount_retrieval a alloc_size = record a {
  hdr = record hdr {
    total_retrieved_bytes = sub_uptr total_retrieved_bytes alloc_size;
    retrieve_count = sub_u32 retrieve_count 1;
  };
}
  where
    open a use {hdr}
    open hdr use {total_retrieved_bytes, retrieve_count}

-- Where the large block's header goes, then the count and the log, with the rollback. `best_off` is
-- the block that the scan found.
unfoldable pub finish_retrieve :
    Env → SharedArena → ℕ → ℕ → ℕ → ℕ → ℕ → ℕ → ℕ → Option (Option Block × SharedArena)
finish_retrieve env a best_off alloc_base alloc_size needed_pages size alignment headers_size =
    if ltb header_pos alloc_base || ltb (add_uptr alloc_base alloc_size) alloc_pos
    then some (none, unlock a)
    else do
      (ok, b) ←
          append_log_locked env (count_retrieval a alloc_size) SharedArenaLogOp.alloc alloc_base
            alloc_size 0
      let undone = uncount_retrieval (roll_back env b best_off alloc_base needed_pages) alloc_size
      some (if ok then (some block, unlock b) else (none, unlock undone))
  where
    alloc_pos : ℕ
    alloc_pos = round_down (sub_uptr (add_uptr alloc_base alloc_size) size) alignment

    header_pos : ℕ
    header_pos = sub_uptr alloc_pos headers_size

    block : Block
    block = record {
      commit_base = alloc_base;
      commit_size = alloc_size;
      entry_header_pos = header_pos;
    }

-- The result has the block handed out, or `none` where `retrieve` returns false, and the arena.
unfoldable pub retrieve : Env → SharedArena → ℕ → ℕ → ℕ → Option (Option Block × SharedArena)
retrieve env a size alignment headers_size = if not a.initialized then some (none, a) else do
  b ← lock a
  (best_off, m) ← scan_free env (list_memory b) needed_pages
  take best_off (with_list b m)
  where
    needed_size : ℕ
    needed_size = round_up (add_uptr size headers_size) env.page_size

    needed_pages : ℕ
    needed_pages = (needed_size / env.page_size) % 2 ^ 32

    finish : ℕ → Option ℕ × SharedArena → Option (Option Block × SharedArena)
    finish best_off (none, c) = some (none, unlock c)
    finish best_off (some base, c) =
        finish_retrieve env c best_off base needed_size needed_pages size alignment headers_size

    take : ℕ → SharedArena → Option (Option Block × SharedArena)
    take best_off b = finish best_off (take_pages env b best_off needed_pages)
