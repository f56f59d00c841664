-- ===== src/Arena/Seg/Restore.antt =====
-- The rollback of `retrieve` undoes what the allocation did to the list.
use scudo.Common.{
  ℕ, Bool, true, false, ==→eq, ==→ne, ◌+◌, ◌-◌, ◌^◌, ◌≤◌, ◌<◌, ◌≡◌, ◌≢◌, refl, sym, ap, ◌∙◌, subst,
  fun_ext, ◌⊎◌, inl, inr, List, [], ◌∷◌, ◌++◌, arith, update, update_self, ◌==◌, length-append,
  if◌then◌else◌, add_u32, sub_u32,
}
use scudo.Arena.State.{FreeBlockHeader, Blocks, free_list_end, free_block_magic}
use scudo.Arena.FreeList.{
  ListMemory, set_next, set_prev, add_count, sub_count, unlink_at, unlink_block, resize_block,
  relink_block,
}
use scudo.Arena.Seg.{
  Extent, Seg, first_or, last_or, Ordered, end_of, Seg-append, Ordered-append, end_of-append,
  end_of-ge, Snoc-cases, last_or-append,
}
use scudo.Arena.Seg.Insert.{IsFreeList}
use scudo.Arena.Seg.Remove.{header_at, unlink_block_lem}

-- A block with its two neighbours in memory: `p` and `q` are the end where it has none.
pub record Linked (f : Blocks) (p q b s : ℕ) : Type 0 where
  pub here :
      f b
      ≡ record { prev_page_off = p; next_page_off = q; size_in_pages = s; magic = free_block_magic }
  pub before : (p ≡ free_list_end) ⊎ (((f p).next_page_off ≡ b) × (p ≢ b))
  pub behind : (q ≡ free_list_end) ⊎ (((f q).prev_page_off ≡ b) × (q ≢ b))
  pub apart : (p ≡ free_list_end) ⊎ ((q ≡ free_list_end) ⊎ (p ≢ q))

abbrev with_next : FreeBlockHeader → ℕ → FreeBlockHeader
with_next h v = record h { next_page_off = v }

abbrev with_prev : FreeBlockHeader → ℕ → FreeBlockHeader
with_prev h v = record h { prev_page_off = v }

abbrev with_magic : FreeBlockHeader → ℕ → FreeBlockHeader
with_magic h v = record h { magic = v }

module _ (f : Blocks) (p q b s : ℕ) (l : Linked f p q b s) (r : ℕ) where
  restored_inside :
      p ≢ free_list_end
      → q ≢ free_list_end
      → let f1 = update f p (with_next (f p) q) in
        let f2 = update f1 q (with_prev (f1 q) p) in
        let f3 = update f2 b (with_magic (f2 b) 0) in
        let f4 = update f3 b (with_magic (f3 b) free_block_magic) in
        let f5 = update f4 p (with_next (f4 p) b) in
        let f6 = update f5 q (with_prev (f5 q) b) in f6 r ≡ f r
  restored_inside hp hq = ground (arith, l.here, l.before, l.behind, l.apart)

  restored_first :
      q ≢ free_list_end
      → let f2 = update f q (with_prev (f q) p) in
        let f3 = update f2 b (with_magic (f2 b) 0) in
        let f4 = update f3 b (with_magic (f3 b) free_block_magic) in
        let f6 = update f4 q (with_prev (f4 q) b) in f6 r ≡ f r
  restored_first hq = ground (arith, l.here, l.behind)

  restored_last :
      p ≢ free_list_end
      → let f1 = update f p (with_next (f p) q) in
        let f3 = update f1 b (with_magic (f1 b) 0) in
        let f4 = update f3 b (with_magic (f3 b) free_block_magic) in
        let f5 = update f4 p (with_next (f4 p) b) in f5 r ≡ f r
  restored_last hp = ground (arith, l.here, l.before)

  restored_alone :
      let f3 = update f b (with_magic (f b) 0) in
      let f4 = update f3 b (with_magic (f3 b) free_block_magic) in f4 r ≡ f r
  restored_alone = ground (arith, l.here)

-- The statistics that the allocation has counted by then.
abbrev pub tallied : ListMemory → ℕ → ℕ → ListMemory
tallied m bytes count = record m {
  hdr = record m.hdr { total_retrieved_bytes = bytes; retrieve_count = count };
}

abbrev marked : ListMemory → ℕ → ListMemory
marked m b = record m { blocks = update m.blocks b (with_magic (m.blocks b) free_block_magic) }

relink_at : ListMemory → ℕ → ℕ → ℕ → ListMemory
relink_at m b p q = add_count (set_prev (set_next (marked m b) p b) q b)

relink_block_lem :
    (m : ListMemory) (b p q : ℕ)
    → (m.blocks b).prev_page_off ≡ p
    → (m.blocks b).next_page_off ≡ q
    → relink_block m b ≡ relink_at m b p q
unfolding relink_block relink_at
relink_block_lem m b p q ep eq =
    let at = update_self m.blocks b (with_magic (m.blocks b) free_block_magic) in
    λ i. add_count (
      set_prev (set_next (marked m b) ((ap (λ (h : FreeBlockHeader). h.prev_page_off) at ∙ ep) i) b)
        ((ap (λ (h : FreeBlockHeader). h.next_page_off) at ∙ eq) i) b)

module _ (m : ListMemory) (p q b s : ℕ) (l : Linked m.blocks p q b s) (bytes count : ℕ) where
  abbrev after : ListMemory
  after = tallied (unlink_at m b p q) bytes count

  still_linked : ((after.blocks b).prev_page_off ≡ p) × ((after.blocks b).next_page_off ≡ q)
  unfolding unlink_at set_next set_prev sub_count
  still_linked = ground (arith, l.here, l.before, l.behind)

  next_by : Bool → ListMemory → ℕ → ℕ → ListMemory
  next_by t n o v =
      if t
      then record n { hdr = record n.hdr { free_list_head_page_off = v } }
      else record n { blocks = update n.blocks o (with_next (n.blocks o) v) }

  prev_by : Bool → ListMemory → ℕ → ℕ → ListMemory
  prev_by t n o v =
      if t then n else record n { blocks = update n.blocks o (with_prev (n.blocks o) v) }

  unmarked : ListMemory → ListMemory
  unmarked n = record n { blocks = update n.blocks b (with_magic (n.blocks b) 0) }

  -- The two operations, with the tests for a neighbour already made.
  unlink_by : Bool → Bool → ListMemory
  unlink_by t u = sub_count (unmarked (prev_by u (next_by t m p q) q p))

  relink_by : Bool → Bool → ListMemory → ListMemory
  relink_by t u n = add_count (prev_by u (next_by t (marked n b) p b) q b)

  relink_by-unlink_by :
      (t u : Bool)
      → (p == free_list_end) ≡ t
      → (q == free_list_end) ≡ u
      → (p ≡ free_list_end → m.hdr.free_list_head_page_off ≡ b)
      → add_u32 (sub_u32 m.hdr.free_count 1) 1 ≡ m.hdr.free_count
      → relink_by t u (tallied (unlink_by t u) bytes count) ≡ tallied m bytes count
  unfolding relink_by unlink_by next_by prev_by sub_count add_count unmarked
  relink_by-unlink_by true true tp uq head counted i = record {
    hdr = record m.hdr {
      total_retrieved_bytes = bytes;
      retrieve_count = count;
      free_count = counted i;
      free_list_head_page_off = sym (head (==→eq p free_list_end tp)) i;
    };
    blocks = fun_ext (λ r. restored_alone m.blocks p q b s l r) i;
  }
  relink_by-unlink_by true false tp uq head counted i = record {
    hdr = record m.hdr {
      total_retrieved_bytes = bytes;
      retrieve_count = count;
      free_count = counted i;
      free_list_head_page_off = sym (head (==→eq p free_list_end tp)) i;
    };
    blocks = fun_ext (λ r. restored_first m.blocks p q b s l r (==→ne q free_list_end uq)) i;
  }
  relink_by-unlink_by false true tp uq head counted i = record {
    hdr = record m.hdr {
      total_retrieved_bytes = bytes;
      retrieve_count = count;
      free_count = counted i;
    };
    blocks = fun_ext (λ r. restored_last m.blocks p q b s l r (==→ne p free_list_end tp)) i;
  }
  relink_by-unlink_by false false tp uq head counted i = record {
    hdr = record m.hdr {
      total_retrieved_bytes = bytes;
      retrieve_count = count;
      free_count = counted i;
    };
    blocks =
        fun_ext
          (λ r.
            restored_inside m.blocks p q b s l r (==→ne p free_list_end tp)
              (==→ne q free_list_end uq))
          i;
  }

  relink_at-unlink_at :
      (p ≡ free_list_end → m.hdr.free_list_head_page_off ≡ b)
      → 0 < m.hdr.free_count
      → m.hdr.free_count < 2 ^ 32
      → relink_at after b p q ≡ tallied m bytes count
  unfolding relink_at unlink_at set_next set_prev relink_by unlink_by next_by prev_by unmarked
  relink_at-unlink_at head some small =
      relink_by-unlink_by (p == free_list_end) (q == free_list_end) refl refl head (omega arith)

abbrev with_size : FreeBlockHeader → ℕ → FreeBlockHeader
with_size h v = record h { size_in_pages = v }

restored_size :
    (f : Blocks) (b s n r : ℕ)
    → (f b).size_in_pages ≡ s
    → n ≤ s
    → s < 2 ^ 32
    → let f1 = update f b (with_size (f b) (s - n)) in
      update f1 b (with_size (f1 b) (add_u32 (f1 b).size_in_pages n)) r ≡ f r
restored_size f b s n r e le word = ground (arith, e)

-- A block of a well-formed list is linked to its neighbours.
front_linked :
    (f : Blocks) (xs : List Extent) (n b lo : ℕ)
    → Ordered lo xs
    → end_of lo xs ≤ b
    → Seg f free_list_end xs b
    → b < free_list_end
    → (last_or free_list_end xs ≡ free_list_end)
      ⊎ (((f (last_or free_list_end xs)).next_page_off ≡ b) × (last_or free_list_end xs < b))
front_linked f xs n b lo ord le seg small = elim (Snoc-cases xs) [
  | inl e ↦ inl (ap (last_or free_list_end) e)
  | inr (zs, (o, s), e) ↦ inr (
      let at = ap (last_or free_list_end) e ∙ last_or-append free_list_end zs ((o, s) ∷ []) in
      let segs =
        (Seg-append f free_list_end b zs ((o, s) ∷ [])).0
          (subst (λ (r : List Extent). Seg f free_list_end r b) e seg) in
      let parts = (Ordered-append lo zs ((o, s) ∷ [])).0 (subst (Ordered lo) e ord) in
      let end = ap (end_of lo) e ∙ end_of-append lo zs ((o, s) ∷ []) in
      (
        ap (λ (r : ℕ). (f r).next_page_off) at
            ∙ ap (λ (h : FreeBlockHeader). h.next_page_off) segs.1.0,
        omega (arith, at, end, le, parts.1),
      ))
]

back_linked :
    (f : Blocks) (p n lo : ℕ) (ys : List Extent)
    → Ordered lo ys
    → Seg f p ys n
    → (first_or free_list_end ys ≡ free_list_end)
      ⊎ (((f (first_or free_list_end ys)).prev_page_off ≡ p) × (lo ≤ first_or free_list_end ys))
back_linked f p n lo [] ord seg = inl refl
back_linked f p n lo ((o, s) ∷ ys) ord seg =
    inr (ap (λ (h : FreeBlockHeader). h.prev_page_off) seg.0, ord.0)

last_or_less :
    (o t lo : ℕ) (xs : List Extent) → Ordered lo ((o, t) ∷ xs) → last_or o xs < end_of (o + t) xs
last_or_less o t lo [] ord = omega arith
last_or_less o t lo ((o', t') ∷ xs) ord = last_or_less o' t' (o + t) xs ord.2

head_of :
    (xs ys : List Extent) (b s lo : ℕ)
    → Ordered lo xs
    → end_of lo xs < free_list_end
    → last_or free_list_end xs ≡ free_list_end
    → first_or free_list_end (xs ++ (b, s) ∷ ys) ≡ b
head_of [] ys b s lo ord less e = refl
head_of ((o, t) ∷ xs) ys b s lo ord less e =
    absurd (omega (arith, last_or_less o t lo xs ord, less, e))

module _ (m : ListMemory) (xs ys : List Extent) (b s : ℕ)
    (v : IsFreeList m (xs ++ (b, s) ∷ ys)) where
  abbrev p : ℕ
  p = last_or free_list_end xs

  abbrev q : ℕ
  q = first_or free_list_end ys

  linked : Linked m.blocks p q b s
  linked =
      let parts = (Ordered-append 0 xs ((b, s) ∷ ys)).0 v.ordered in
      let segs = (Seg-append m.blocks free_list_end free_list_end xs ((b, s) ∷ ys)).0 v.front.1 in
      let bound = end_of-ge (b + s) ys parts.1.2 in
      let end = end_of-append 0 xs ((b, s) ∷ ys) in
      let small : b + s < free_list_end = omega (arith, v.within, v.small) in
      let front = front_linked m.blocks xs 0 b 0 parts.0 parts.1.0 segs.0 (omega arith) in
      let back = back_linked m.blocks b free_list_end (b + s) ys parts.1.2 segs.1.1 in
      record {
        here = header_at m xs ys b s v;
        before = elim front [ inl e ↦ inl e | inr (e, less) ↦ inr (e, omega arith) ];
        behind = elim back [ inl e ↦ inl e | inr (e, le) ↦ inr (e, omega (arith, parts.1.1)) ];
        apart = elim front [
          | inl e ↦ inl e
          | inr (_, less) ↦
              inr (elim back [ inl e ↦ inl e | inr (_, le) ↦ inr (omega (arith, parts.1.1)) ])
        ];
      }

  -- What was taken off the list is put back where it was.
  pub relink-unlink :
      (bytes count : ℕ)
      → m.hdr.free_count < 2 ^ 32
      → relink_block (tallied (unlink_block m b) bytes count) b ≡ tallied m bytes count
  relink-unlink bytes count small =
      let parts = (Ordered-append 0 xs ((b, s) ∷ ys)).0 v.ordered in
      let bound = end_of-ge (b + s) ys parts.1.2 in
      let end = end_of-append 0 xs ((b, s) ∷ ys) in
      let pointers = still_linked m p q b s linked bytes count in
      ap (λ (r : ListMemory). relink_block (tallied r bytes count) b)
        (unlink_block_lem m xs ys b s v)
      ∙ relink_block_lem (tallied (unlink_at m b p q) bytes count) b p q pointers.0 pointers.1
      ∙ relink_at-unlink_at m p q b s linked bytes count
          (λ e. v.front.0 ∙ head_of xs ys b s 0 parts.0 (omega (arith, v.within, v.small)) e)
          (omega (arith, v.count, length-append xs ((b, s) ∷ ys))) small

  pub resize-resize :
      (n bytes count : ℕ)
      → n ≤ s
      → let cut = tallied (resize_block m b (s - n)) bytes count in
        resize_block cut b (add_u32 (cut.blocks b).size_in_pages n) ≡ tallied m bytes count
  unfolding resize_block
  resize-resize n bytes count le =
      let parts = (Ordered-append 0 xs ((b, s) ∷ ys)).0 v.ordered in
      let bound = end_of-ge (b + s) ys parts.1.2 in
      let end = end_of-append 0 xs ((b, s) ∷ ys) in
      let here = header_at m xs ys b s v in
      let word : s < 2 ^ 32 = omega (arith, v.within, v.small) in
      λ i. record {
        hdr = (tallied m bytes count).hdr;
        blocks =
            fun_ext
              (λ r.
                restored_size m.blocks b s n r (ap (λ (h : FreeBlockHeader). h.size_in_pages) here)
                  le word)
              i;
      }
