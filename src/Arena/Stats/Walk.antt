-- ===== src/Arena/Stats/Walk.antt =====
-- What the walk of getDebugStats counts on a free list in order.
use scudo.Common.{
  ℕ, zero, suc, ◌+◌, ◌*◌, ◌≤◌, ◌<◌, ◌≡◌, ◌≢◌, ap, ◌∙◌, List, [], ◌∷◌, length, arith, ne→==, add_u32,
  add_uptr, ◌%◌, ◌^◌,
}
use scudo.Arena.State.{Blocks, Env, free_list_end}
use scudo.Arena.Stats.{SharedArenaDebugStats, walk}
use scudo.Arena.Seg.{Extent, first_or, Seg, Ordered, end_of, end_of-ge, pages}

pub pages-le : (lo : ℕ) (bs : List Extent) → Ordered lo bs → lo + pages bs ≤ end_of lo bs
pages-le lo [] ord = omega arith
pages-le lo ((o, s) ∷ bs) ord = omega (arith, pages-le (o + s) bs ord.2)

abbrev pub counted : Env → List Extent → SharedArenaDebugStats → SharedArenaDebugStats
counted env bs out = record out {
  free_list_bytes = out.free_list_bytes + pages bs * env.page_size;
  free_list_walk_count = out.free_list_walk_count + length bs;
}

-- One block of the walk.
walk-step :
    (env : Env) (f : Blocks) (left p o s n : ℕ) (bs : List Extent) (out : SharedArenaDebugStats)
    → o ≢ free_list_end
    → Seg f p ((o, s) ∷ bs) n
    → walk env f (suc left) o out
      ≡ walk env f left (first_or n bs) (record out {
        free_list_bytes = add_uptr out.free_list_bytes (s * env.page_size % 2 ^ 64);
        free_list_walk_count = add_u32 out.free_list_walk_count 1;
      })
unfolding walk
walk-step env f left p o s n bs out other seg = simp (ne→== o free_list_end other, seg.0)

-- The walk has a bound of its own, so it ends on every memory; on a list in order it sees each block.
pub walk-counted :
    (env : Env) (f : Blocks) (left p lo : ℕ) (bs : List Extent) (out : SharedArenaDebugStats)
    → length bs < left
    → Ordered lo bs
    → end_of lo bs ≤ free_list_end
    → Seg f p bs free_list_end
    → out.free_list_bytes + pages bs * env.page_size < 2 ^ 64
    → out.free_list_walk_count + length bs < 2 ^ 32
    → walk env f left (first_or free_list_end bs) out ≡ counted env bs out
unfolding walk
walk-counted env f zero p lo bs out len ord fits seg hb hc = absurd (omega arith)
walk-counted env f (suc left) p lo [] out len ord fits seg hb hc = λ i. record out {
  free_list_bytes =
      (let e : out.free_list_bytes ≡ out.free_list_bytes + 0 * env.page_size = omega arith in e) i;
  free_list_walk_count =
      (let e : out.free_list_walk_count ≡ out.free_list_walk_count + 0 = omega arith in e) i;
}
walk-counted env f (suc left) p lo ((o, s) ∷ bs) out len ord fits seg hb hc =
    let bound = end_of-ge (o + s) bs ord.2 in
    let bytes : add_uptr out.free_list_bytes (s * env.page_size % 2 ^ 64)
        ≡ out.free_list_bytes + s * env.page_size =
      omega arith in
    let count : add_u32 out.free_list_walk_count 1 ≡ out.free_list_walk_count + 1 = omega arith in
    walk-step env f left p o s free_list_end bs out (omega arith) seg
    ∙ ap
        (λ (r : ℕ × ℕ).
          walk env f left (first_or free_list_end bs)
            (record out { free_list_bytes = r.0; free_list_walk_count = r.1 }))
        (λ i. (bytes i, count i))
    ∙ walk-counted env f left o (o + s) bs
        (record out {
          free_list_bytes = out.free_list_bytes + s * env.page_size;
          free_list_walk_count = out.free_list_walk_count + 1;
        })
        (omega arith) ord.2 fits seg.1 (omega arith) (omega arith)
    ∙ (λ i. record out {
      free_list_bytes =
          (let e : out.free_list_bytes + s * env.page_size + pages bs * env.page_size
                  ≡ out.free_list_bytes + (s + pages bs) * env.page_size =
                omega arith in
              e)
            i;
      free_list_walk_count =
          (let e : out.free_list_walk_count + 1 + length bs
                  ≡ out.free_list_walk_count + suc (length bs) =
                omega arith in
              e)
            i;
    })
