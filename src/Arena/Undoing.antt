-- ===== src/Arena/Undoing.antt =====
-- The rollback of SharedArena::retrieve: it leaves the arena as it was before the pages were taken.
use scudo.Common.{
  ℕ, ◌+◌, ◌*◌, ◌≤◌, ◌<◌, ◌≡◌, ◌≢◌, refl, sym, subst, inl, inr, List, ◌^◌, arith, add_u32, sub_u32,
  add_uptr, sub_uptr, Option, ap, ◌∙◌, eq→==, ne→==,
}
use scudo.Arena.State.{SharedArenaLogRing, SharedArena, Env, page_off_to_addr, free_list_end}
use scudo.Arena.FreeList.{ListMemory}
use scudo.Arena.Store.{list_memory, with_list}
use scudo.Arena.Retrieve.{roll_back, count_retrieval, uncount_retrieval}
use scudo.Arena.Seg.{Extent}
use scudo.Arena.Invariant.{IsPaged, IsArena, page_bound, page_cancel}
use scudo.Arena.Storing.{locked}
use scudo.Arena.Log.Frame.{SameButLog}
use scudo.Arena.Seg.Restore.{tallied}
use scudo.Arena.Taking.{Undone}

module _ (env : Env) (paged : IsPaged env) (a : SharedArena) (bs : List Extent)
    (v : IsArena env a bs) (n : ℕ) (pos : 0 < n) (fits : n + a.hdr.total_data_pages < 2 ^ 32) where
  abbrev pub bumped : SharedArena
  bumped = record (locked a) {
    hdr = record (locked a).hdr { bump_offset_in_pages = a.hdr.bump_offset_in_pages + n };
  }

  -- The rollback after `c` was counted and logged leaves the arena as it was but for the log.
  abbrev pub Undo : ℕ → ℕ → SharedArena → Type 0
  Undo best o c =
      (bytes : ℕ)
      → bytes ≤ 2 ^ 64
      → a.hdr.total_retrieved_bytes < 2 ^ 64
      → a.hdr.retrieve_count < 2 ^ 32
      → (b : SharedArena) → SameButLog (count_retrieval c bytes) b
      → SameButLog (locked a)
          (uncount_retrieval (roll_back env b best (a.data_base + o * env.page_size) n) bytes)

  abbrev logged : SharedArena → Option SharedArenaLogRing → ℕ → ℕ → SharedArena
  logged c r h t = record c { log_ring = r; log_head_cache = h; log_tail_cache = t }

  -- It is enough to undo an arena that has any log.
  Undo-logged :
      (best o : ℕ) (c : SharedArena)
      → ((bytes : ℕ)
          → bytes ≤ 2 ^ 64
          → a.hdr.total_retrieved_bytes < 2 ^ 64
          → a.hdr.retrieve_count < 2 ^ 32
          → (r : Option SharedArenaLogRing) (h t : ℕ)
          → uncount_retrieval
              (roll_back env
                (logged (count_retrieval c bytes) r h t)
                best
                (a.data_base + o * env.page_size)
                n)
              bytes
            ≡ logged (locked a) r h t)
      → Undo best o c
  Undo-logged best o c all bytes le total count b same =
      subst (SameButLog (locked a))
        (sym (all bytes le total count b.log_ring b.log_head_cache b.log_tail_cache)
          ∙ ap
              (λ (x : SharedArena).
                uncount_retrieval (roll_back env x best (a.data_base + o * env.page_size) n) bytes)
              (sym same))
        refl

  pub bumped-Undo :
      a.hdr.bump_offset_in_pages + n ≤ a.hdr.total_data_pages
      → Undo free_list_end a.hdr.bump_offset_in_pages bumped
  unfolding count_retrieval uncount_retrieval roll_back
  bumped-Undo room =
      Undo-logged free_list_end a.hdr.bump_offset_in_pages bumped (λ bytes le total count r h t.
        let back : sub_u32 (a.hdr.bump_offset_in_pages + n) n ≡ a.hdr.bump_offset_in_pages =
          omega (arith, v.bump_in) in
        let less : sub_uptr (add_uptr a.hdr.total_retrieved_bytes bytes) bytes
            ≡ a.hdr.total_retrieved_bytes =
          omega arith in
        let fewer : sub_u32 (add_u32 a.hdr.retrieve_count 1) 1 ≡ a.hdr.retrieve_count =
          omega arith in
        λ i. record (logged (locked a) r h t) {
          hdr = record (locked a).hdr {
            bump_offset_in_pages = back i;
            total_retrieved_bytes = less i;
            retrieve_count = fewer i;
          };
        })

  pub address :
      (o : ℕ)
      → o ≤ a.hdr.total_data_pages
      → page_off_to_addr env (locked a) o ≡ a.data_base + o * env.page_size
  unfolding page_off_to_addr
  address o h = omega (arith, page_bound env paged a bs v o h)

  counted : ListMemory → ℕ → Option SharedArenaLogRing → ℕ → ℕ → SharedArena
  counted m bytes r h t = logged (count_retrieval (with_list (locked a) m) bytes) r h t

  counted_address :
      (m : ListMemory) (bytes : ℕ) (r : Option SharedArenaLogRing) (h t best : ℕ)
      → best ≤ a.hdr.total_data_pages
      → page_off_to_addr env (counted m bytes r h t) best ≡ a.data_base + best * env.page_size
  unfolding page_off_to_addr counted count_retrieval
  counted_address m bytes r h t best le = address best le

  other_page :
      (o best : ℕ) → o ≢ best → a.data_base + o * env.page_size ≢ a.data_base + best * env.page_size
  other_page o best off e = off (page_cancel env paged o best (omega (arith, e)))

  roll_back_list :
      (best o : ℕ) (m : ListMemory) (bytes : ℕ)
      → best ≢ free_list_end
      → best ≤ a.hdr.total_data_pages
      → Undone (list_memory (locked a)) m best o n
      → (r : Option SharedArenaLogRing) (h t : ℕ)
      → roll_back env (counted m bytes r h t) best (a.data_base + o * env.page_size) n
        ≡ logged
            (with_list (locked a) (
              tallied
                (list_memory (locked a))
                (add_uptr m.hdr.total_retrieved_bytes bytes)
                (add_u32 m.hdr.retrieve_count 1)))
            r
            h
            t
  unfolding counted count_retrieval roll_back
  roll_back_list best o m bytes other in_best undone r h t =
      let at : page_off_to_addr env (counted m bytes r h t) best
          ≡ a.data_base + best * env.page_size =
        counted_address m bytes r h t best in_best in
      elim (undone (add_uptr m.hdr.total_retrieved_bytes bytes) (add_u32 m.hdr.retrieve_count 1)) [
        | inl (here, e) ↦
            simp
              (
                ne→== best free_list_end other,
                at,
                eq→== (a.data_base + o * env.page_size) (a.data_base + best * env.page_size)
                    (ap (λ (x : ℕ). a.data_base + x * env.page_size) here),
              )
              (λ i. logged (with_list (locked a) (e i)) r h t)
        | inr (off, e) ↦
            simp
              (
                ne→== best free_list_end other,
                at,
                ne→== (a.data_base + o * env.page_size) (a.data_base + best * env.page_size)
                    (other_page o best off),
              )
              (λ i. logged (with_list (locked a) (e i)) r h t)
      ]

  pub Cut-Undo :
      (m : ListMemory) (best o : ℕ)
      → best ≢ free_list_end
      → best ≤ a.hdr.total_data_pages
      → Undone (list_memory (locked a)) m best o n
      → m.hdr.total_retrieved_bytes ≡ a.hdr.total_retrieved_bytes
      → m.hdr.retrieve_count ≡ a.hdr.retrieve_count
      → Undo best o (with_list (locked a) m)
  unfolding counted count_retrieval uncount_retrieval
  Cut-Undo m best o other in_best undone sb sc =
      Undo-logged best o (with_list (locked a) m) (λ bytes le total count r h t.
        let less : sub_uptr (add_uptr m.hdr.total_retrieved_bytes bytes) bytes
            ≡ a.hdr.total_retrieved_bytes =
          omega (arith, sb) in
        let fewer : sub_u32 (add_u32 m.hdr.retrieve_count 1) 1 ≡ a.hdr.retrieve_count =
          omega (arith, sc) in
        ap (λ (x : SharedArena). uncount_retrieval x bytes)
          (roll_back_list best o m bytes other in_best undone r h t)
        ∙ (λ i. record (logged (locked a) r h t) {
          hdr = record (locked a).hdr { total_retrieved_bytes = less i; retrieve_count = fewer i };
        }))
