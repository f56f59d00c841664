-- ===== src/Arena/Lifecycle/Ready.antt =====
-- A reset leaves an arena well-formed and empty.
use native.Mathlib.Nat.{div-le_self, div-mul-le_self}
use scudo.Common.{
  ◌-◌, ◌*◌, ◌/◌, ◌%◌, ◌^◌, ◌≤◌, ◌<◌, ◌≡◌, refl, ap, ◌∙◌, true, Bool-cases, Option, some, none, [],
  arith, inl, inr,
}
use scudo.Arena.State.{
  SharedArena, SharedArenaLogRing, Env, Blocks, unlock, arena_capacity_per_core, arena_header_size,
}
use scudo.Arena.Lifecycle.{
  System, clear_header, reset_log, release_pages, reset, punch_holes, total_data_pages_of,
}
use scudo.Arena.Storing.{locked, lock-locked}
use scudo.Arena.Invariant.{IsArena}

-- The arena that `reset` has cleared, before the ring and the pages.
abbrev cleared : Env → SharedArena → SharedArena
cleared env a = unlock (record (locked a) { hdr = clear_header env (locked a).hdr })

-- The fields that a step keeps.
Keeps : SharedArena → SharedArena → Type 0
Keeps a b = (b.initialized ≡ a.initialized) × (b.data_base ≡ a.data_base) × (b.hdr ≡ a.hdr)

reset_log-Keeps :
    (env : Env)
    → (a : SharedArena) → (o : Option SharedArenaLogRing) → a.log_ring ≡ o
    → Keeps a (reset_log env a)
unfolding reset_log Keeps
reset_log-Keeps env a none e = rw e (refl, refl, refl)
reset_log-Keeps env a (some ring) e = rw e (refl, refl, refl)

punch_holes-Keeps :
    (env : Env)
    → (os : System) → (punch : Blocks → Blocks) → (a : SharedArena)
    → Keeps a (punch_holes env os punch a)
unfolding punch_holes Keeps
punch_holes-Keeps env os punch a =
    elim (Bool-cases
      (release_pages env os a a.data_base (arena_capacity_per_core - arena_header_size))) [
        | inl hole ↦ rw hole (refl, refl, refl)
        | inr whole ↦ rw whole (refl, refl, refl)
      ]

module _ (env : Env) (a : SharedArena) where
  pages_small : total_data_pages_of env ≤ 536866816
  pages_small = omega (arith, div-le_self 536866816 env.page_size)

  pages_bytes : total_data_pages_of env * env.page_size ≤ 536866816
  pages_bytes =
      let small : 536866816 / env.page_size % 2 ^ 32 ≡ 536866816 / env.page_size =
        omega (arith, div-le_self 536866816 env.page_size) in
      rw small (div-mul-le_self 536866816 env.page_size)

  -- What the ring and the pages hold is of no matter.
  cleared-IsArena :
      (c : SharedArena)
      → c.initialized ≡ true
      → c.data_base ≡ a.data_base
      → c.hdr ≡ (cleared env a).hdr
      → 0 < a.data_base
      → a.data_base % env.page_size ≡ 0
      → a.data_base < 2 ^ 63
      → IsArena env c []
  unfolding unlock clear_header
  cleared-IsArena c ready base e placed aligned low = record {
    ready = ready;
    unlocked = ap (λ h. h.lock) e;
    list = record {
      front = (ap (λ h. h.free_list_head_page_off) e, tt);
      count = ap (λ h. h.free_count) e;
      ordered = tt;
      within = omega arith;
      small = omega (arith, ap (λ h. h.total_data_pages) e, pages_small);
    };
    apart = tt;
    below_bump = omega arith;
    bump_in = omega (arith, ap (λ h. h.bump_offset_in_pages) e);
    placed = omega (arith, base);
    aligned = rw base aligned;
    space = rw (base, ap (λ h. h.total_data_pages) e) (omega (arith, pages_bytes, low));
  }

  -- A reset of an arena that is initialized, mapped and unlocked, with its data base at a page
  -- of the lower half of the address space, returns and leaves a well-formed arena with no free
  -- block and nothing handed out.
  pub reset-IsArena :
      (os : System)
      → (punch : Blocks → Blocks) → a.initialized ≡ true
      → a.mapped ≡ true
      → a.hdr.lock ≡ 0
      → 0 < a.data_base
      → a.data_base % env.page_size ≡ 0
      → a.data_base < 2 ^ 63
      → (c : SharedArena) × (reset env os punch a ≡ some c)
        × IsArena env c []
        × (c.hdr.bump_offset_in_pages ≡ 0)
  unfolding reset Keeps unlock clear_header
  reset-IsArena os punch ready mapped free placed aligned low =
      let b = cleared env a in
      let c = punch_holes env os punch (reset_log env b) in
      let log = reset_log-Keeps env b b.log_ring refl in
      let holes = punch_holes-Keeps env os punch (reset_log env b) in
      (
        c,
        simp (ready, mapped, lock-locked a free) refl,
        cleared-IsArena c (holes.0 ∙ log.0 ∙ ready) (holes.1 ∙ log.1) (holes.2 ∙ log.2) placed
            aligned low,
        ap (λ h. h.bump_offset_in_pages) (holes.2 ∙ log.2),
      )
