-- ===== src/Arena/Safety/Calls.antt =====
-- What one call of SharedArena::retrieve or SharedArena::store does to the extents that callers hold.
use scudo.Common.{
  ℕ, ◌+◌, ◌*◌, ◌^◌, ◌≤◌, ◌<◌, ◌≡◌, sym, ap, ◌∙◌, subst, ◌⊎◌, inl, inr, Bool, true, false, Option,
  some, none, List, ◌∷◌, ◌++◌, arith, All,
}
use mathlib.Core.Option.{some-injective}
use scudo.Arena.State.{SharedArena, SharedArenaLogRing, Env, unlock}
use scudo.Arena.Log.Frame.{SameButLog}
use scudo.Arena.Store.{store}
use scudo.Arena.Retrieve.{Block, retrieve}
use scudo.Arena.Seg.{Extent, covers}
use scudo.Arena.Seg.Slot.{Apart}
use scudo.Arena.Safety.Extents.{
  Disjoint, Apart-covers, covers_in, covers_more, Disjoint-remove, All-remove, All-mono, taken-held,
}
use scudo.Arena.Invariant.{IsPaged, IsArena, page_cancel}
use scudo.Arena.Storing.{Stored, store_outcome}
use scudo.Arena.Storing.Across.{store_across}
use scudo.Arena.Outcome.{Outcome, Granted, Leaked, retrieve-Outcome}
use scudo.Arena.Safety.Runs.{Request, Holdings, IsSafe}

module _ (env : Env) (paged : IsPaged env) where
  frame-IsArena :
      (a c : SharedArena) (bs : List Extent) → SameButLog a c → IsArena env a bs → IsArena env c bs
  frame-IsArena a c bs same v =
      subst (λ (x : SharedArena). IsArena env x bs) (sym same)
        (record {
          ready = v.ready;
          unlocked = v.unlocked;
          list = record {
            front = v.list.front;
            count = v.list.count;
            ordered = v.list.ordered;
            within = v.list.within;
            small = v.list.small;
          };
          apart = v.apart;
          below_bump = v.below_bump;
          bump_in = v.bump_in;
          placed = v.placed;
          aligned = v.aligned;
          space = v.space;
        })

  module _ (a : SharedArena) (s : Holdings) (safe : IsSafe env a s) where
    -- Nothing but the log has changed.
    pub framed-IsSafe :
        (c : SharedArena)
        → SameButLog s.arena c
        → IsSafe env a (record { arena = c; held = s.held })
    framed-IsSafe c same =
        let bump : c.hdr.bump_offset_in_pages ≡ s.arena.hdr.bump_offset_in_pages =
          ap (λ (x : SharedArena). x.hdr.bump_offset_in_pages) same in
        record {
          extents = safe.extents;
          arena = frame-IsArena s.arena c safe.extents same safe.arena;
          place = ap (λ (x : SharedArena). x.data_base) same ∙ safe.place;
          held_in = All-mono _ _ (λ e h. (h.0, omega (arith, h.1, bump))) s.held safe.held_in;
          disjoint = safe.disjoint;
          not_free = safe.not_free;
        }

    pub Granted-IsSafe :
        (c : SharedArena) (size alignment headers n o : ℕ) (b : Block)
        → 0 < n
        → Granted env s.arena c safe.extents n size alignment headers b
        → b.commit_base ≡ s.arena.data_base + o * env.page_size
        → IsSafe env a (record { arena = c; held = (o, n) ∷ s.held })
    Granted-IsSafe c size alignment headers n o b pos g at =
        let same : g.offset ≡ o =
          page_cancel env paged g.offset o (omega (arith, g.commit_base, at)) in
        let facts =
          taken-held safe.extents g.extents s.held _ _ g.offset n g.source safe.held_in
            safe.not_free in
        record {
          extents = g.extents;
          arena = g.arena;
          place = g.place ∙ safe.place;
          held_in = (
            (pos, omega (arith, same, g.handed_out)),
            All-mono _ _ (λ e h. (h.0, omega (arith, h.1, facts.0))) s.held safe.held_in,
          );
          disjoint =
              ((λ q l u. facts.1 q (omega (arith, same)) (omega (arith, same))), safe.disjoint);
          not_free = λ q h. ground (arith, g.taken q, facts.2 q, same);
        }

    Leaked-IsSafe :
        (c : SharedArena) (size alignment headers n : ℕ)
        → Leaked env s.arena c safe.extents n size alignment headers
        → IsSafe env a (record { arena = c; held = s.held })
    unfolding unlock
    Leaked-IsSafe c size alignment headers n l =
        let facts =
          taken-held safe.extents l.taken.extents s.held _ _ l.offset n l.taken.source safe.held_in
            safe.not_free in
        let bump : c.hdr.bump_offset_in_pages ≡ l.before.hdr.bump_offset_in_pages =
          ap (λ (x : SharedArena). x.hdr.bump_offset_in_pages) l.after in
        record {
          extents = l.taken.extents;
          arena =
              subst (λ (x : SharedArena). IsArena env x l.taken.extents) (sym l.after)
                l.taken.arena;
          place = ap (λ (x : SharedArena). x.data_base) l.after ∙ l.place ∙ safe.place;
          held_in =
              All-mono _ _ (λ e h. (h.0, omega (arith, h.1, facts.0, bump))) s.held safe.held_in;
          disjoint = safe.disjoint;
          not_free = facts.2;
        }

    pub call-Outcome :
        (c : SharedArena) (ring : SharedArenaLogRing) (size headers k n : ℕ)
        → s.arena.log_ring ≡ some ring
        → Request env s.arena size headers k n
        → env.freelist_disabled ≡ false
        → (r : Option Block) → retrieve env s.arena size (2 ^ k) headers ≡ some (r, c)
        → Outcome env s.arena safe.extents n size (2 ^ k) headers r c
    call-Outcome c ring size headers k n mapped q on r e =
        let (r', c', f, out) =
          retrieve-Outcome env paged s.arena safe.extents safe.arena size headers k q.rest n q.width
            q.some_bytes q.enough q.tight q.word q.fits q.low on q.bytes q.count ring mapped in
        let same : (r', c') ≡ (r, c) = some-injective (r', c') (r, c) (sym f ∙ e) in
        subst
          (λ (x : Option Block × SharedArena).
            Outcome env s.arena safe.extents n size (2 ^ k) headers x.0 x.1)
          same out

    pub refused-IsSafe :
        (c : SharedArena) (n size alignment headers : ℕ)
        → Outcome env s.arena safe.extents n size alignment headers none c
        → IsSafe env a (record { arena = c; held = s.held })
    refused-IsSafe c n size alignment headers (inl full) =
        subst (λ (x : SharedArena). IsSafe env a (record { arena = x; held = s.held }))
          (sym full.same) safe
    refused-IsSafe c n size alignment headers (inr (inl (_, same))) = framed-IsSafe c same
    refused-IsSafe c n size alignment headers (inr (inr leak)) =
        Leaked-IsSafe c size alignment headers n leak

    module _ (xs ys : List Extent) (o n : ℕ) (at : s.held ≡ xs ++ (o, n) ∷ ys) where
      held_here :
          (0 < n)
          × (o + n ≤ s.arena.hdr.bump_offset_in_pages)
          × All (λ e. (0 < e.1) × (e.0 + e.1 ≤ s.arena.hdr.bump_offset_in_pages)) (xs ++ ys)
      held_here =
          let parts =
            All-remove (λ e. (0 < e.1) × (e.0 + e.1 ≤ s.arena.hdr.bump_offset_in_pages)) xs ys
              (o, n)
              (subst (All (λ e. (0 < e.1) × (e.0 + e.1 ≤ s.arena.hdr.bump_offset_in_pages))) at
                safe.held_in) in
          (parts.0.0, parts.0.1, parts.1)

      held-Apart : Apart o n safe.extents
      held-Apart =
          Apart-covers o n 0 safe.extents held_here.0 safe.arena.list.ordered
            (λ q l u. safe.not_free q (ap (covers q) at ∙ covers_in q o n xs ys l u))

      pub Stored-IsSafe :
          (c : SharedArena)
          → Stored env s.arena c safe.extents o n
          → IsSafe env a (record { arena = c; held = xs ++ ys })
      Stored-IsSafe c t =
          let parts = Disjoint-remove xs ys o n (subst Disjoint at safe.disjoint) in
          record {
            extents = t.extents;
            arena = t.arena;
            place = t.place ∙ safe.place;
            held_in =
                All-mono _ _ (λ e h. (h.0, omega (arith, h.1, t.bump))) (xs ++ ys) held_here.2;
            disjoint = parts.0;
            not_free = λ q h. ground (
              arith,
              t.free q,
              parts.1 q,
              safe.not_free q (ap (covers q) at ∙ covers_more q o n xs ys h),
            );
          }

      pub store-Outcome :
          (ok : Bool) (c : SharedArena) (ring : SharedArenaLogRing)
          → s.arena.log_ring ≡ some ring
          → env.freelist_disabled ≡ false
          → store env s.arena none (s.arena.data_base + o * env.page_size) (n * env.page_size)
            ≡ some (ok, c, none)
          → ((ok ≡ true) × Stored env s.arena c safe.extents o n)
            ⊎ ((ok ≡ false) × SameButLog s.arena c)
      store-Outcome ok c ring mapped on e =
          let (ok', c', f, out, _) =
            store_outcome env paged s.arena safe.extents safe.arena o n held_here.0 held_here.1 on
              held-Apart ring mapped in
          let same : (ok', c', none) ≡ (ok, c, none) =
            some-injective (ok', c', none) (ok, c, none) (sym f ∙ e) in
          subst
            (λ (x : Bool × SharedArena × Option SharedArena).
              ((x.0 ≡ true) × Stored env s.arena x.1 safe.extents o n)
              ⊎ ((x.0 ≡ false) × SameButLog s.arena x.1))
            same out

      pub across-Outcome :
          (ok : Bool) (c l k : SharedArena) (ring : SharedArenaLogRing)
          → l.hdr.lock ≡ 0
          → l.log_ring ≡ some ring
          → env.freelist_disabled ≡ false
          → store env s.arena (some l) (s.arena.data_base + o * env.page_size) (n * env.page_size)
            ≡ some (ok, c, some k)
          → ((ok ≡ true) × Stored env s.arena c safe.extents o n) ⊎ ((ok ≡ false) × (c ≡ s.arena))
      across-Outcome ok c l k ring free mapped on e =
          let (ok', c', k', f, out, _, _) =
            store_across env paged s.arena safe.extents safe.arena o n held_here.0 held_here.1 l
              free on held-Apart ring mapped in
          let same : (ok', c', some k') ≡ (ok, c, some k) =
            some-injective (ok', c', some k') (ok, c, some k) (sym f ∙ e) in
          subst
            (λ (x : Bool × SharedArena × Option SharedArena).
              ((x.0 ≡ true) × Stored env s.arena x.1 safe.extents o n)
              ⊎ ((x.0 ≡ false) × (x.1 ≡ s.arena)))
            same out
