-- ===== src/Arena/Storing/Across.antt =====
-- SharedArena::store with the log of another arena: a block that was freed on another core than the one
-- that it came from.
use mathlib.Core.Option.{none-ne-some, some-injective}
use scudo.Common.{
  ℕ, ◌+◌, ◌*◌, ◌/◌, ◌%◌, ◌^◌, ◌≤◌, ◌<◌, ◌≡◌, refl, sym, ap, ◌∙◌, subst, ◌⊎◌, ◌↔◌, inl, inr, Bool,
  true, false, not, ◌||◌, Option, some, none, ◌>>=◌, List, arith, ◌==◌, ltb, eq→==, ne→==, ==→eq,
  Bool-cases,
}
use scudo.Arena.State.{
  SharedArena, SharedArenaLogRing, SharedArenaLogOp, Env, addr_to_page_off, unlock, lock,
}
use scudo.Arena.Log.{append_log_pages_locked}
use scudo.Arena.Log.Frame.{SameButLog, Refuses, Refuses-log}
use scudo.Arena.Log.Append.{append-SameButLog, append_frame}
use scudo.Arena.Store.{invalid_range, finish_store, lock_both, store_logging_in, store}
use scudo.Arena.Seg.{Extent}
use scudo.Arena.Seg.Slot.{Apart}
use scudo.Arena.Invariant.{IsPaged, IsArena, aligned-mul}
use scudo.Arena.Storing.{
  Stored, locked, lock-locked, unlock-SameButLog, size-ne-0, valid_range, page-base, pages-size,
  donated-Stored,
}

-- Both locks are taken, in either order.
lock_both-locked :
    (l a : SharedArena)
    → l.hdr.lock ≡ 0
    → a.hdr.lock ≡ 0
    → lock_both l a ≡ some (locked l, locked a)
unfolding lock_both
lock_both-locked l a hl ha = elim (Bool-cases (ltb l.core_id a.core_id)) [
  | inl t ↦ simp (t, lock-locked l hl, lock-locked a ha) refl
  | inr f ↦ simp (f, lock-locked l hl, lock-locked a ha) refl
]

unlocked-locked : (a : SharedArena) → a.hdr.lock ≡ 0 → unlock (locked a) ≡ a
unfolding unlock
unlocked-locked a h i = record a { hdr = record a.hdr { lock = sym h i } }

module _ (env : Env) (paged : IsPaged env) (a : SharedArena) (bs : List Extent)
    (v : IsArena env a bs) (o n : ℕ) (pos : 0 < n) (fits : o + n ≤ a.hdr.bump_offset_in_pages)
    (l : SharedArena) (free_log : l.hdr.lock ≡ 0) where
  abbrev base : ℕ
  base = a.data_base + o * env.page_size

  abbrev size : ℕ
  size = n * env.page_size

  abbrev after_log : Bool × SharedArena → Option (Bool × SharedArena × Option SharedArena)
  after_log r = finish_store env o n size (some (unlock r.1)) (r.0, locked a)

  -- A valid call takes both locks and appends to the other arena's log.
  store_logs_across : store env a (some l) base size ≡ (
      append_log_pages_locked env (locked l) SharedArenaLogOp.free (a.core_id % 2 ^ 8) o size 0
      >>= after_log)
  unfolding store store_logging_in
  store_logs_across =
      simp
        (
          v.ready,
          ne→== size 0 (size-ne-0 env paged a bs v o n pos fits),
          valid_range env paged a bs v o n pos fits,
          page-base env paged a bs v o n pos fits,
          pages-size env paged a bs v o n pos fits,
          lock_both-locked l a free_log v.unlocked,
        )
        (rw v.ready refl)

  finish_across :
      env.freelist_disabled ≡ false
      → Apart o n bs
      → (ok : Bool) (k : SharedArena)
      → (c : SharedArena) × (after_log (ok, k) ≡ some (ok, c, some (unlock k)))
        × (((ok ≡ true) × Stored env a c bs o n) ⊎ ((ok ≡ false) × (c ≡ a)))
  unfolding finish_store
  finish_across on apart true k =
      let (c, e, done) =
        donated-Stored env paged a bs v o n pos fits on apart (locked a) refl (some (unlock k)) in
      (c, e, inl (refl, done))
  finish_across on apart false k =
      (unlock (locked a), refl, inr (refl, unlocked-locked a v.unlocked))

  -- On a well-formed arena, with the free list not disabled by its environment variable, and with
  -- the unlocked arena of another core whose log ring is there: a store of pages that were handed
  -- out and are not free, which logs in that ring, returns with both locks released. Either it
  -- returns true and exactly these pages are free besides those that were, in a list in order with
  -- no two blocks that touch, and the counters count; or it returns false, and this arena has not
  -- changed. Of the other arena nothing but the log has changed, and false is returned exactly when
  -- the operation must reach the kernel and that log is full at all three heads that the call sees.
  pub store_across :
      env.freelist_disabled ≡ false
      → Apart o n bs
      → (ring : SharedArenaLogRing) → l.log_ring ≡ some ring
      → (ok : Bool) × (c : SharedArena) × (k : SharedArena) × (store env a (some l) base size
          ≡ some (ok, c, some k))
        × (((ok ≡ true) × Stored env a c bs o n) ⊎ ((ok ≡ false) × (c ≡ a)))
        × SameButLog l k
        × ((ok ≡ false) ↔ Refuses env l)
  store_across on apart ring mapped =
      let (ok, k, e, same, _, refused) =
        append-SameButLog env (locked l) SharedArenaLogOp.free (a.core_id % 2 ^ 8) o size 0 ring
          mapped (size-ne-0 env paged a bs v o n pos fits) (aligned-mul env paged n) in
      let (c, f, out) = finish_across on apart ok k in
      (
        ok,
        c,
        unlock k,
        store_logs_across ∙ ap (λ (r : Option (Bool × SharedArena)). r >>= after_log) e ∙ f,
        out,
        unlock-SameButLog l free_log k same,
        (
          (λ h. Refuses-log env (locked l) l refl refl refl refl (refused.0 h)),
          (λ r. refused.1 (Refuses-log env l (locked l) refl refl refl refl r)),
        ),
      )

-- A call that returns gives the arena of the log as it got it.
finish_store-log :
    (env : Env) (off pages size : ℕ) (log log' : Option SharedArena) (r : Bool × SharedArena)
    (ok : Bool) (d : SharedArena)
    → finish_store env off pages size log r ≡ some (ok, d, log')
    → log' ≡ log
unfolding finish_store
finish_store-log env off pages size log log' (true, a) ok d e = ground arith
finish_store-log env off pages size log log' (false, a) ok d e = ground arith

lock_both-cases :
    (l d : SharedArena)
    → l.hdr.lock ≡ 0
    → (lock_both l d ≡ none) ⊎ ((e : SharedArena) × (lock_both l d ≡ some (locked l, e)))
unfolding lock_both lock
lock_both-cases l d free = elim (Bool-cases (d.hdr.lock == 0)) [
  | inl t ↦ inr (locked d, lock_both-locked l d free (==→eq d.hdr.lock 0 t))
  | inr f ↦ inl (elim (Bool-cases (ltb l.core_id d.core_id)) [
    | inl t ↦ simp (t, f, eq→== l.hdr.lock 0 free) refl
    | inr u ↦ simp (u, f) refl
  ])
]

-- An arena whose log serves a call of store on another arena has nothing changed but its log, whatever
-- the other arena and the range.
module _ (env : Env) (d a : SharedArena) (base size : ℕ) (free_log : a.hdr.lock ≡ 0)
    (ring : SharedArenaLogRing) (mapped : a.log_ring ≡ some ring) (ok : Bool)
    (d' c : SharedArena) where
  logging-SameButLog :
      (off pages : ℕ)
      → store_logging_in env a d off pages size ≡ some (ok, d', some c)
      → SameButLog a c
  unfolding store_logging_in
  logging-SameButLog off pages e = elim (lock_both-cases a d free_log) [
    | inl h ↦
        (let stuck : store_logging_in env a d off pages size ≡ none = simp h refl in
          absurd (none-ne-some (ok, d', some c) (sym stuck ∙ e)))
    | inr (x, h) ↦
        (let (k, b, f, same) =
            append_frame env (locked a) SharedArenaLogOp.free (d.core_id % 2 ^ 8) off size 0 ring
              mapped in
          let goes : store_logging_in env a d off pages size
              ≡ finish_store env off pages size (some (unlock b)) (k, x) =
            simp (h, f) refl in
          let left : some c ≡ some (unlock b) =
            finish_store-log env off pages size (some (unlock b)) (some c) (k, x) ok d'
              (sym goes ∙ e) in
          subst (SameButLog a) (sym (some-injective c (unlock b) left))
            (unlock-SameButLog a free_log b same))
  ]

  pub store-log-SameButLog : store env d (some a) base size ≡ some (ok, d', some c) → SameButLog a c
  unfolding store
  store-log-SameButLog e = elim (Bool-cases (not d.initialized || (size == 0))) [
    | inl t ↦ ground (arith, e, t)
    | inr t ↦ elim (Bool-cases (invalid_range env d base size)) [
      | inl u ↦ ground (arith, e, t, u)
      | inr u ↦
          logging-SameButLog (addr_to_page_off env d base) ((size / env.page_size) % 2 ^ 32)
            (simp (t, u) at e)
    ]
  ]
