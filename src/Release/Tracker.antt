-- ===== src/Release/Tracker.antt =====
-- FreePagesRangeTracker of release.h, which joins pages that can be released into ranges, and the
-- recorders that it hands the ranges to.
pub mod Ranges
use scudo.Common.{
  ℕ, zero, suc, ◌+◌, ◌-◌, ◌*◌, ◌/◌, ◌%◌, ◌^◌, Bool, true, false, if◌then◌else◌, add_uptr, sub_uptr,
  update, List, [], ◌∷◌, ◌++◌,
}

-- A call that gives `size` bytes at `from` back to the system.
pub record Released : Type 0 where
  pub address : ℕ
  pub size : ℕ

-- RegionReleaseRecorder and ReleaseRecorder, which add up the address in another order.
pub record ReleaseRecorder : Type 0 where
  pub released_bytes : ℕ
  pub base : ℕ
  pub offset : ℕ
  pub calls : List Released

unfoldable pub region_release_page_range_to_os : ReleaseRecorder → ℕ → ℕ → ReleaseRecorder
region_release_page_range_to_os r from to = record r {
  calls =
      r.calls
      ++ record { address = add_uptr (add_uptr r.base r.offset) from; size = sub_uptr to from }
        ∷ [];
  released_bytes = add_uptr r.released_bytes (sub_uptr to from);
}

unfoldable pub release_page_range_to_os : ReleaseRecorder → ℕ → ℕ → ReleaseRecorder
release_page_range_to_os r from to = record r {
  calls =
      r.calls
      ++ record { address = add_uptr r.base (add_uptr from r.offset); size = sub_uptr to from }
        ∷ [];
  released_bytes = add_uptr r.released_bytes (sub_uptr to from);
}

-- FragmentationRecorder: the number of pages. The first number is the logarithm of the page size.
unfoldable pub count_released_pages : ℕ → ℕ → ℕ → ℕ → ℕ
count_released_pages page_size_log pages from to =
    add_uptr pages (sub_uptr to from / 2 ^ page_size_log)

-- MemoryGroupFragmentationRecorder: the free pages of each group of that many.
unfoldable pub count_pages_of_groups : ℕ → ℕ → ℕ → (ℕ → ℕ) → ℕ → ℕ
count_pages_of_groups num_pages_in_one_group i zero free_pages = free_pages
count_pages_of_groups num_pages_in_one_group i (suc n) free_pages =
    count_pages_of_groups num_pages_in_one_group (suc i) n (
      update free_pages (i / num_pages_in_one_group)
        (add_uptr (free_pages (i / num_pages_in_one_group)) 1))

unfoldable pub count_groups : ℕ → ℕ → (ℕ → ℕ) → ℕ → ℕ → ℕ → ℕ
unfolding count_pages_of_groups
count_groups page_size group_size free_pages from to =
    count_pages_of_groups (group_size / page_size) (from / page_size)
      (to / page_size - from / page_size) free_pages

-- The tracker over any recorder.
pub record FreePagesRangeTracker (R : Type 0) : Type 0 where
  pub recorder : R
  pub in_range : Bool
  pub current_page : ℕ
  pub current_range_state_page : ℕ

abbrev pub new_tracker : {R : Type 0} → R → FreePagesRangeTracker R
new_tracker r = record {
  recorder = r;
  in_range = false;
  current_page = 0;
  current_range_state_page = 0;
}

module _ {R : Type 0} (release : R → ℕ → ℕ → R) (page_size_log : ℕ) where
  unfoldable pub close_opened_range : FreePagesRangeTracker R → FreePagesRangeTracker R
  close_opened_range t =
      if t.in_range
      then record t {
        recorder =
            release t.recorder (t.current_range_state_page * 2 ^ page_size_log % 2 ^ 64)
              (t.current_page * 2 ^ page_size_log % 2 ^ 64);
        in_range = false;
      }
      else t

  open_range : FreePagesRangeTracker R → FreePagesRangeTracker R
  open_range t =
      if t.in_range
      then t
      else record t { current_range_state_page = t.current_page; in_range = true }

  abbrev next : FreePagesRangeTracker R → FreePagesRangeTracker R
  next t = record t { current_page = add_uptr t.current_page 1 }

  unfoldable pub process_next_page : FreePagesRangeTracker R → Bool → FreePagesRangeTracker R
  unfolding close_opened_range open_range
  process_next_page t released = next (if released then open_range t else close_opened_range t)

  unfoldable pub skip_pages : FreePagesRangeTracker R → ℕ → FreePagesRangeTracker R
  unfolding close_opened_range
  skip_pages t n =
      let u = close_opened_range t in record u { current_page = add_uptr u.current_page n }

  unfoldable pub finish : FreePagesRangeTracker R → FreePagesRangeTracker R
  unfolding close_opened_range
  finish t = close_opened_range t
