-- ===== src/Arena/Safety.antt =====
-- Every run of SharedArena::retrieve and SharedArena::store on one arena keeps the pages that callers
-- hold apart, from each other and from the free list.
pub mod Extents
pub mod Runs
pub mod Calls
use scudo.Common.{◌^◌, ◌≡◌, refl, sym, subst, inl, inr, true, false, some, none, List, arith}
use scudo.Arena.State.{SharedArena, Env}
use scudo.Arena.Seg.{Extent}
use scudo.Arena.Invariant.{IsPaged, IsArena}
use scudo.Arena.Storing.Across.{store-log-SameButLog}
use scudo.Arena.Safety.Runs.{Holdings, Step, Reach, IsSafe}
use scudo.Arena.Safety.Calls.{
  framed-IsSafe, Granted-IsSafe, call-Outcome, refused-IsSafe, Stored-IsSafe, store-Outcome,
  across-Outcome,
}

module _ (env : Env) (paged : IsPaged env) where
  Step-IsSafe :
      env.freelist_disabled ≡ false
      → (a : SharedArena) {s t : Holdings} → IsSafe env a s
      → Step env s t
      → IsSafe env a t
  Step-IsSafe on a {s} safe (Step.retrieved {c} ring size headers k n o b mapped q e at) =
      Granted-IsSafe env paged a s safe c size (2 ^ k) headers n o b
        (grind (arith, q.some_bytes, q.enough))
        (call-Outcome env paged a s safe c ring size headers k n mapped q on (some b) e) at
  Step-IsSafe on a {s} safe (Step.not_retrieved {c} ring size headers k n mapped q e) =
      refused-IsSafe env paged a s safe c n size (2 ^ k) headers
        (call-Outcome env paged a s safe c ring size headers k n mapped q on none e)
  Step-IsSafe on a {s} safe (Step.stored {c} ring xs ys o n mapped at e) =
      elim (store-Outcome env paged a s safe xs ys o n at true c ring mapped on e) [
        | inl (_, done) ↦ Stored-IsSafe env paged a s safe xs ys o n at c done
        | inr (wrong, _) ↦ absurd (ground (arith, wrong))
      ]
  Step-IsSafe on a {s} safe (Step.not_stored {c} ring xs ys o n mapped at e) =
      elim (store-Outcome env paged a s safe xs ys o n at false c ring mapped on e) [
        | inl (wrong, _) ↦ absurd (ground (arith, wrong))
        | inr (_, same) ↦ framed-IsSafe env paged a s safe c same
      ]
  Step-IsSafe on a {s} safe (Step.stored_across {c} l k ring xs ys o n free mapped at e) =
      elim (across-Outcome env paged a s safe xs ys o n at true c l k ring free mapped on e) [
        | inl (_, done) ↦ Stored-IsSafe env paged a s safe xs ys o n at c done
        | inr (wrong, _) ↦ absurd (ground (arith, wrong))
      ]
  Step-IsSafe on a {s} safe (Step.not_stored_across {c} l k ring xs ys o n free mapped at e) =
      elim (across-Outcome env paged a s safe xs ys o n at false c l k ring free mapped on e) [
        | inl (wrong, _) ↦ absurd (ground (arith, wrong))
        | inr (_, same) ↦
            subst (λ (x : SharedArena). IsSafe env a (record { arena = x; held = s.held }))
              (sym same) safe
      ]
  Step-IsSafe on a {s} safe (Step.logged_for {c} d d' ring base size ok mapped e) =
      framed-IsSafe env paged a s safe c
        (store-log-SameButLog env d s.arena base size safe.arena.unlocked ring mapped ok d' c e)

  -- On a well-formed arena of which nothing is held, with the free list not disabled by its
  -- environment variable: after any sequence of whole calls of retrieve, of stores by threads
  -- that give back only what they hold, with this arena's log or with the log of another
  -- arena that is not locked, and of stores on other arenas that use this arena's log, all
  -- with the log ring that they write to mapped, and with requests of at least one byte,
  -- whose sums do not wrap, at an alignment that is a power of two up to the data base, and
  -- counters that are machine words: the extents held were handed out and are disjoint from
  -- each other and from the free list, and the arena is well-formed at its place. So no page
  -- is ever given to two callers.
  pub Reach-IsSafe :
      (a : SharedArena) (bs : List Extent)
      → IsArena env a bs
      → env.freelist_disabled ≡ false
      → (s : Holdings) → Reach env a s
      → IsSafe env a s
  Reach-IsSafe a bs v on s Reach.start = record {
    extents = bs;
    arena = v;
    place = refl;
    held_in = tt;
    disjoint = tt;
    not_free = λ q h. ground (arith, h);
  }
  Reach-IsSafe a bs v on s (Reach.later r step) = Step-IsSafe on a (Reach-IsSafe a bs v on _ r) step
