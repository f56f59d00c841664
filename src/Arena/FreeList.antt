-- ===== src/Arena/FreeList.antt =====
-- The intrusive free list of SharedArena::store and SharedArena::retrieve: blocks in order of their
-- address, linked both ways by page offsets.
use scudo.Common.{
  ℕ, zero, suc, Bool, true, false, not, ◌&&◌, ◌||◌, Option, none, some, ◌==◌, ltb, leb,
  if◌then◌else◌, add_u32, sub_u32, update,
}
use scudo.Arena.State.{SharedArenaHeader, FreeBlockHeader, Blocks, free_list_end, free_block_magic}

unfoldable pub free_block_looks_valid : FreeBlockHeader → ℕ → ℕ → Bool
free_block_looks_valid blk page_off total_data_pages =
    if not (blk.magic == free_block_magic) || (blk.size_in_pages == 0)
    then false
    else if leb total_data_pages page_off
        || ltb (sub_u32 total_data_pages page_off) blk.size_in_pages
    then false
    else if not (blk.prev_page_off == free_list_end) && leb total_data_pages blk.prev_page_off
    then false
    else if not (blk.next_page_off == free_list_end) && leb total_data_pages blk.next_page_off
    then false
    else true

-- Where a block goes, between two neighbours, or a block that looks corrupt on the way there.
pub data Slot : Type 0 where
  between : ℕ → ℕ → Slot
  corrupt : Slot

-- The walk of `store` to the first block behind `new_off`. `none`: more rounds than the fuel.
unfoldable pub find_slot : ℕ → Blocks → ℕ → ℕ → ℕ → ℕ → Option Slot
unfolding free_block_looks_valid
find_slot zero blocks total new_off prev next = none
find_slot (suc fuel) blocks total new_off prev next =
    let rest = find_slot fuel blocks total new_off next (blocks next).next_page_off in
    if next == free_list_end
    then some (between prev next)
    else if not (free_block_looks_valid (blocks next) next total)
    then some corrupt
    else if ltb new_off next
    then some (between prev next)
    else rest

-- The shared memory that the free list stands in.
pub record ListMemory : Type 0 where
  pub hdr : SharedArenaHeader
  pub blocks : Blocks

-- `getFreeBlock(off)->NextPageOff = v`, or the list's head if there is no block `off`.
unfoldable pub set_next : ListMemory → ℕ → ℕ → ListMemory
set_next m off v =
    if off == free_list_end
    then record m { hdr = record hdr { free_list_head_page_off = v } }
    else record m { blocks = update blocks off (record (blocks off) { next_page_off = v }) }
  where
    open m use {hdr, blocks}

-- `getFreeBlock(off)->PrevPageOff = v` if there is a block `off`.
unfoldable pub set_prev : ListMemory → ℕ → ℕ → ListMemory
set_prev m off v =
    if off == free_list_end
    then m
    else record m { blocks = update blocks off (record (blocks off) { prev_page_off = v }) }
  where
    open m use {blocks}

unfoldable pub add_count : ListMemory → ListMemory
add_count m = record m { hdr = record hdr { free_count = add_u32 free_count 1 } }
  where
    open m use {hdr}
    open hdr use {free_count}

unfoldable pub sub_count : ListMemory → ListMemory
sub_count m = record m { hdr = record hdr { free_count = sub_u32 free_count 1 } }
  where
    open m use {hdr}
    open hdr use {free_count}

-- The new block's header is written and its neighbours are linked to it.
unfoldable pub link_block : ListMemory → ℕ → ℕ → ℕ → ℕ → ListMemory
unfolding set_next set_prev add_count
link_block m prev next new_off new_pages =
    add_count (set_prev (set_next written prev new_off) next new_off)
  where
    written : ListMemory
    written = record m {
      blocks = update m.blocks new_off (record {
        prev_page_off = prev;
        next_page_off = next;
        size_in_pages = new_pages;
        magic = free_block_magic;
      });
    }

-- Block `b`, which stands behind `a` in the list, becomes a part of `a`.
unfoldable pub absorb : ListMemory → ℕ → ℕ → ListMemory
unfolding set_prev sub_count
absorb m a b = sub_count (clear_magic (set_prev grown after a))
  where
    after : ℕ
    after = (m.blocks b).next_page_off

    grown : ListMemory
    grown = record m {
      blocks = update m.blocks a (record (m.blocks a) {
        size_in_pages = add_u32 (m.blocks a).size_in_pages (m.blocks b).size_in_pages;
        next_page_off = after;
      });
    }

    clear_magic : ListMemory → ListMemory
    clear_magic n = record n { blocks = update n.blocks b (record (n.blocks b) { magic = 0 }) }

unfoldable pub merge_next : ListMemory → ℕ → ℕ → ℕ → ListMemory
unfolding absorb
merge_next m next new_off new_pages =
    if not (next == free_list_end) && (add_u32 new_off new_pages == next)
    then absorb m new_off next
    else m

unfoldable pub merge_prev : ListMemory → ℕ → ℕ → ListMemory
unfolding absorb
merge_prev m prev new_off =
    if not (prev == free_list_end) && (add_u32 prev (m.blocks prev).size_in_pages == new_off)
    then absorb m prev new_off
    else m

-- A corrupt list is dropped whole: the new block is its only one then.
unfoldable pub insert_in_slot : ListMemory → ℕ → ℕ → Option Slot → Option ListMemory
insert_in_slot m new_off new_pages none = none
insert_in_slot m new_off new_pages (some (between prev next)) = some (
    merge_prev (merge_next (link_block m prev next new_off new_pages) next new_off new_pages) prev
      new_off)
insert_in_slot m new_off new_pages (some corrupt) = some (
    merge_prev
      (merge_next (link_block emptied free_list_end free_list_end new_off new_pages) free_list_end
        new_off new_pages)
      free_list_end new_off)
  where
    open m use {hdr}

    emptied : ListMemory
    emptied = record m {
      hdr = record hdr { free_list_head_page_off = free_list_end; free_count = 0 };
    }

-- The list part of `store`. The bound on the rounds of the walk is one more than there are pages.
unfoldable pub insert_block : ListMemory → ℕ → ℕ → Option ListMemory
unfolding insert_in_slot
insert_block m new_off new_pages = insert_in_slot m new_off new_pages (
    find_slot (suc hdr.total_data_pages) m.blocks hdr.total_data_pages new_off free_list_end
      hdr.free_list_head_page_off)
  where
    open m use {hdr}

-- The best-fit scan of `retrieve`: the block found (or `free_list_end`), or a corrupt one met.
pub data Scan : Type 0 where
  found : ℕ → Scan
  damaged : Scan

unfoldable pub find_best : ℕ → Blocks → ℕ → ℕ → ℕ → ℕ → ℕ → Option Scan
unfolding free_block_looks_valid
find_best zero blocks total needed best_off best_pages cur = none
find_best (suc fuel) blocks total needed best_off best_pages cur =
    let size = (blocks cur).size_in_pages in
    let better =
      ((blocks cur).magic == free_block_magic) && leb needed size && ltb size best_pages in
    let rest =
      find_best fuel blocks total needed (if better then cur else best_off)
        (if better then size else best_pages) (blocks cur).next_page_off in
    if cur == free_list_end
    then some (found best_off)
    else if not (free_block_looks_valid (blocks cur) cur total)
    then some damaged
    else if better && (size == needed)
    then some (found cur)
    else rest

-- The block `off` leaves the list, between the neighbours `prev` and `next` of its header.
unfoldable pub unlink_at : ListMemory → ℕ → ℕ → ℕ → ListMemory
unfolding set_next set_prev sub_count
unlink_at m off prev next = sub_count (clear_magic (set_prev (set_next m prev next) next prev))
  where
    clear_magic : ListMemory → ListMemory
    clear_magic n = record n { blocks = update n.blocks off (record (n.blocks off) { magic = 0 }) }

-- A block that fits exactly.
unfoldable pub unlink_block : ListMemory → ℕ → ListMemory
unfolding unlink_at
unlink_block m off = unlink_at m off (m.blocks off).prev_page_off (m.blocks off).next_page_off

unfoldable pub resize_block : ListMemory → ℕ → ℕ → ListMemory
resize_block m off pages = record m {
  blocks = update m.blocks off (record (m.blocks off) { size_in_pages = pages });
}

-- What `retrieve` does to put the block back that it had unlinked.
unfoldable pub relink_block : ListMemory → ℕ → ListMemory
unfolding set_next set_prev add_count
relink_block m off = add_count (set_prev (set_next marked prev off) next off)
  where
    marked : ListMemory
    marked = record m {
      blocks = update m.blocks off (record (m.blocks off) { magic = free_block_magic });
    }

    prev : ℕ
    prev = (marked.blocks off).prev_page_off

    next : ℕ
    next = (marked.blocks off).next_page_off
