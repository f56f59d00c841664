-- ===== src/Release/Tracker/Ranges.antt =====
-- The tracker gives back each byte of the pages that can be released once, and no other byte.
use scudo.Common.{
  ℕ, suc, ◌+◌, ◌-◌, ◌*◌, ◌/◌, ◌%◌, ◌^◌, ◌≤◌, ◌<◌, ◌≡◌, refl, sym, ap, ◌∙◌, inl, inr, Bool, true,
  false, Bool-cases, ◌&&◌, if◌then◌else◌, leb, ltb, List, [], ◌∷◌, ◌++◌, arith, add_uptr,
}
use native.Mathlib.Nat.{div-eq_of_lt-le}
use scudo.Common.Bits.{pow_pos}
use scudo.Release.Tracker.{
  Released, ReleaseRecorder, region_release_page_range_to_os, FreePagesRangeTracker, new_tracker,
  close_opened_range, process_next_page, finish,
}

-- 1 in a range and 0 outside it.
abbrev pub inside : ℕ → ℕ → ℕ → ℕ
inside from to y = if leb from y && ltb y to then 1 else 0

-- How many of the calls give a byte back.
abbrev pub covered : ℕ → List Released → ℕ
covered y [] = 0
covered y (c ∷ cs) = inside c.address (c.address + c.size) y + covered y cs

covered-append :
    (y : ℕ) (cs : List Released) (c : Released)
    → covered y (cs ++ c ∷ []) ≡ covered y cs + inside c.address (c.address + c.size) y
covered-append y [] c = omega arith
covered-append y (d ∷ cs) c = omega (arith, covered-append y cs c)

module _ (log : ℕ) (f : ℕ → Bool) where
  abbrev page : ℕ
  page = 2 ^ log

  -- 1 if the byte is of one of the first `n` pages and its page can be released, otherwise 0.
  abbrev pub flagged : ℕ → ℕ → ℕ
  flagged n x = if ltb x (n * page) && f (x / page) then 1 else 0

  flagged-step :
      (n x : ℕ)
      → flagged (suc n) x ≡ flagged n x + (if f n then inside (n * page) (suc n * page) x else 0)
  flagged-step n x = elim (Bool-cases (leb (n * page) x && ltb x (suc n * page))) [
    | inl t ↦
        let low : n * page ≤ x = ground arith in
        let high : x < suc n * page = ground arith in
        let e : x / page ≡ n = div-eq_of_lt-le page low (omega (arith, high)) in rw e (ground arith)
    | inr other ↦ ground (arith, pow_pos log)
  ]

  -- The tracker in front of page `n`, with the ranges of the pages before it closed or open.
  pub record Tracks (origin : ℕ) (t : FreePagesRangeTracker ReleaseRecorder) (n : ℕ) : Type 0 where
    pub at : t.current_page ≡ n
    pub start : t.current_range_state_page ≤ n
    pub origin_lem : t.recorder.base + t.recorder.offset ≡ origin
    pub count :
        (x : ℕ)
        → covered (origin + x) t.recorder.calls
            + (if t.in_range then inside (t.current_range_state_page * page) (n * page) x else 0)
          ≡ flagged n x

  abbrev release : ReleaseRecorder → ℕ → ℕ → ReleaseRecorder
  release = region_release_page_range_to_os

  -- The call for an open range.
  call_covers :
      (origin base offset start n x : ℕ)
      → base + offset ≡ origin
      → start ≤ n
      → origin + n * page < 2 ^ 64
      → let from = add_uptr (add_uptr base offset) (start * page % 2 ^ 64) in
        inside from
          (from + (n * page % 2 ^ 64 + 2 ^ 64 - start * page % 2 ^ 64) % 2 ^ 64)
          (origin + x)
        ≡ inside (start * page) (n * page) x
  call_covers origin base offset start n x e le fits =
      let order : start * page ≤ n * page = grind arith in
      let from : add_uptr (add_uptr base offset) (start * page % 2 ^ 64) ≡ origin + start * page =
        omega arith in
      let size : (n * page % 2 ^ 64 + 2 ^ 64 - start * page % 2 ^ 64) % 2 ^ 64
          ≡ n * page - start * page =
        omega arith in
      rw (from, size) (ground arith)

  abbrev tracker : ReleaseRecorder → Bool → ℕ → ℕ → FreePagesRangeTracker ReleaseRecorder
  tracker r b p s = record {
    recorder = r;
    in_range = b;
    current_page = p;
    current_range_state_page = s;
  }

  module _ (origin n : ℕ) (fits : origin + n * page < 2 ^ 64) where
    closed-Tracks :
        (r : ReleaseRecorder) (b : Bool) (p s : ℕ)
        → Tracks origin (tracker r b p s) n
        → Tracks origin
            (tracker (close_opened_range release log (tracker r b p s)).recorder false p s)
            n
    unfolding close_opened_range region_release_page_range_to_os
    closed-Tracks r false p s v = v
    closed-Tracks r true p s v = record {
      at = v.at;
      start = v.start;
      origin_lem = v.origin_lem;
      count = λ x.
          let from = add_uptr (add_uptr r.base r.offset) (s * page % 2 ^ 64) in
          let size = λ (q : ℕ). (q * page % 2 ^ 64 + 2 ^ 64 - s * page % 2 ^ 64) % 2 ^ 64 in
          let here =
            ap (λ (q : ℕ). inside from (from + size q) (origin + x)) v.at
            ∙ call_covers origin r.base r.offset s n x v.origin_lem v.start fits in
          omega (
            arith,
            covered-append (origin + x) r.calls (record { address = from; size = size p }),
            here,
            v.count x,
          );
    }

  extended :
      (s n x : ℕ)
      → s ≤ n
      → inside (s * page) (suc n * page) x
        ≡ inside (s * page) (n * page) x + inside (n * page) (suc n * page) x
  extended s n x le =
      let low : s * page ≤ n * page = grind arith in
      let high : n * page ≤ suc n * page = grind arith in ground (arith, low, high)

  module _ (origin n : ℕ) (fits : origin + suc n * page < 2 ^ 64) where
    next_at : (p : ℕ) → p ≡ n → add_uptr p 1 ≡ suc n
    next_at p e = let low : suc n ≤ suc n * page = grind (arith, pow_pos log) in omega arith

    now_fits : origin + n * page < 2 ^ 64
    now_fits = omega arith

    -- With the ranges of the first `n` pages closed, and the next page not one of them.
    not_released :
        (r : ReleaseRecorder) (p s : ℕ)
        → Tracks origin (tracker r false p s) n
        → f n ≡ false
        → Tracks origin (tracker r false (add_uptr p 1) s) (suc n)
    not_released r p s v e = record {
      at = next_at p v.at;
      start = omega (arith, v.start);
      origin_lem = v.origin_lem;
      count = λ x.
          v.count x
          ∙ sym (
              flagged-step n x
              ∙ ap
                  (λ (c : Bool).
                    flagged n x + (if c then inside (n * page) (suc n * page) x else 0))
                  e
              ∙ omega arith);
    }

    process-Tracks :
        (r : ReleaseRecorder) (b : Bool) (p s : ℕ)
        → Tracks origin (tracker r b p s) n
        → (c : Bool) → f n ≡ c
        → Tracks origin (process_next_page release log (tracker r b p s) c) (suc n)
    unfolding process_next_page
    process-Tracks r false p s v false e = not_released r p s v e
    process-Tracks r true p s v false e =
        not_released _ p s (closed-Tracks origin n now_fits r true p s v) e
    process-Tracks r false p s v true e = record {
      at = next_at p v.at;
      start = omega (arith, v.at);
      origin_lem = v.origin_lem;
      count = λ x.
          let here = ap (λ (q : ℕ). inside (q * page) (suc n * page) x) v.at in
          let step =
            flagged-step n x
            ∙ ap (λ (c : Bool). flagged n x + (if c then inside (n * page) (suc n * page) x else 0))
                e in
          omega (arith, here, step, v.count x);
    }
    process-Tracks r true p s v true e = record {
      at = next_at p v.at;
      start = omega (arith, v.start);
      origin_lem = v.origin_lem;
      count = λ x.
          let step =
            flagged-step n x
            ∙ ap (λ (c : Bool). flagged n x + (if c then inside (n * page) (suc n * page) x else 0))
                e in
          omega (arith, extended s n x v.start, step, v.count x);
    }

  pub process_next_page-Tracks :
      (origin n : ℕ) (t : FreePagesRangeTracker ReleaseRecorder) (c : Bool)
      → origin + suc n * page < 2 ^ 64
      → Tracks origin t n
      → f n ≡ c
      → Tracks origin (process_next_page release log t c) (suc n)
  process_next_page-Tracks origin n t c fits v e =
      process-Tracks origin n fits t.recorder t.in_range t.current_page t.current_range_state_page v
        c e

  -- After `finish` a byte of a page that can be released was given back once, every other not at all.
  pub finish-covered :
      (origin n : ℕ) (t : FreePagesRangeTracker ReleaseRecorder)
      → origin + n * page < 2 ^ 64
      → Tracks origin t n
      → (x : ℕ) → covered (origin + x) (finish release log t).recorder.calls ≡ flagged n x
  unfolding finish
  finish-covered origin n t fits v x =
      let u =
        closed-Tracks origin n fits t.recorder t.in_range t.current_page t.current_range_state_page
          v in
      omega (arith, u.count x)

  pub new_tracker-Tracks :
      (r : ReleaseRecorder) → r.calls ≡ [] → Tracks (r.base + r.offset) (new_tracker r) 0
  new_tracker-Tracks r e = record {
    at = refl;
    start = omega arith;
    origin_lem = refl;
    count =
        λ x. ap (λ (cs : List Released). covered (r.base + r.offset + x) cs + 0) e ∙ ground arith;
  }
