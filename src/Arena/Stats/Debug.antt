-- ===== src/Arena/Stats/Debug.antt =====
-- getDebugStats on a well-formed arena.
use scudo.Common.{
  ℕ, suc, ◌*◌, ◌<◌, ◌≡◌, refl, ap, ◌∙◌, sym, true, Option, some, none, List, length, arith, add_u32,
  ◌^◌,
}
use scudo.Arena.State.{SharedArena, SharedArenaLogRing, Env, free_list_end}
use scudo.Arena.Stats.{SharedArenaDebugStats, walk, log_stats, header_stats, get_debug_stats}
use scudo.Arena.Stats.Walk.{counted, walk-counted, pages-le}
use scudo.Arena.Seg.{Extent, pages}
use scudo.Arena.Seg.Insert.{length-Ordered}
use scudo.Arena.Invariant.{IsArena}

-- The three numbers of the walk.
abbrev Walked : Env → List Extent → SharedArenaDebugStats → Type 0
Walked env bs out =
    (out.free_list_walk_count ≡ length bs)
    × (out.free_list_bytes ≡ pages bs * env.page_size)
    × (out.free_list_bad_magic ≡ 0)

abbrev Unwalked : SharedArenaDebugStats → Type 0
Unwalked out =
    (out.free_list_walk_count ≡ 0) × (out.free_list_bytes ≡ 0) × (out.free_list_bad_magic ≡ 0)

log_stats-Unwalked :
    (ring : Option SharedArenaLogRing)
    → (out : SharedArenaDebugStats) → Unwalked out
    → Unwalked (log_stats ring out) × ((log_stats ring out).free_count ≡ out.free_count)
unfolding log_stats
log_stats-Unwalked none out u = (u, refl)
log_stats-Unwalked (some ring) out u = (u, refl)

module _ (env : Env) (a : SharedArena) (bs : List Extent) (v : IsArena env a bs) where
  walk-Walked :
      (out : SharedArenaDebugStats)
      → Unwalked out
      → let r =
          walk env a.blocks (add_u32 a.hdr.total_data_pages 1) a.hdr.free_list_head_page_off out in
        Walked env bs r × (r.free_count ≡ out.free_count)
  walk-Walked out u =
      let few = length-Ordered 0 bs v.list.ordered in
      let all = pages-le 0 bs v.list.ordered in
      let left : add_u32 a.hdr.total_data_pages 1 ≡ suc a.hdr.total_data_pages =
        omega (arith, v.list.small) in
      let bytes : pages bs * env.page_size < 2 ^ 64 = grind (arith, v.space, v.list.within) in
      let e : walk env a.blocks (add_u32 a.hdr.total_data_pages 1) a.hdr.free_list_head_page_off out
          ≡ counted env bs out =
        ap (λ (r : ℕ). walk env a.blocks r a.hdr.free_list_head_page_off out) left
        ∙ ap (λ (r : ℕ). walk env a.blocks (suc a.hdr.total_data_pages) r out) v.list.front.0
        ∙ walk-counted env a.blocks (suc a.hdr.total_data_pages) free_list_end 0 bs out
            (omega (arith, v.list.within)) v.list.ordered
            (omega (arith, v.list.within, v.list.small)) v.list.front.1 (omega arith)
            (omega (arith, v.list.within, v.list.small)) in
      (
        (
          ap (λ r. r.free_list_walk_count) e ∙ (omega arith),
          ap (λ r. r.free_list_bytes) e ∙ (omega arith),
          ap (λ r. r.free_list_bad_magic) e ∙ u.2,
        ),
        ap (λ r. r.free_count) e,
      )

  header_stats-Unwalked : Unwalked (header_stats a)
  unfolding header_stats
  header_stats-Unwalked = (refl, refl, refl)

  header_count : (header_stats a).free_count ≡ length bs
  unfolding header_stats
  header_count = v.list.count

  -- On a well-formed arena that is mapped, the statistics meet no bad magic, count as many free
  -- blocks as the header does, and add up the bytes of all free pages.
  pub get_debug_stats-walks :
      a.mapped ≡ true
      → let out = get_debug_stats env a in
        (out.free_list_walk_count ≡ length bs)
        × (out.free_list_bytes ≡ pages bs * env.page_size)
        × (out.free_list_bad_magic ≡ 0)
        × (out.free_count ≡ out.free_list_walk_count)
  unfolding get_debug_stats
  get_debug_stats-walks mapped =
      let start = log_stats-Unwalked a.log_ring (header_stats a) header_stats-Unwalked in
      let out = log_stats a.log_ring (header_stats a) in
      let e : get_debug_stats env a
          ≡ walk env a.blocks (add_u32 a.hdr.total_data_pages 1) a.hdr.free_list_head_page_off out =
        simp (v.ready, mapped) refl in
      let seen = walk-Walked out start.0 in
      let blocks = ap (λ r. r.free_list_walk_count) e ∙ seen.0.0 in
      (
        blocks,
        ap (λ r. r.free_list_bytes) e ∙ seen.0.1,
        ap (λ r. r.free_list_bad_magic) e ∙ seen.0.2,
        ap (λ r. r.free_count) e ∙ seen.1 ∙ start.1 ∙ header_count ∙ sym blocks,
      )
