-- ===== src/Arena/Pool/Routing.antt =====
-- Which arena an address belongs to.
use mathlib.Core.Bool.{false≢true}
use mathlib.Core.Option.{some-injective, none-ne-some}
use scudo.Common.{
  ℕ, ◌+◌, ◌*◌, ◌%◌, ◌^◌, ◌≤◌, ◌<◌, Bool, true, false, Bool-cases, ◌&&◌, none, some, ltb, leb,
  add_uptr, arith, ◌≡◌, refl, sym, subst, ◌∙◌, ◌↔◌, inl, inr,
}
use scudo.Arena.State.{
  shared_arena_base_addr, arena_capacity_per_core, arena_max_cores, contains_va,
}
use scudo.Arena.Pool.{SharedArenaPool, is_arena_addr, owning_core, get_owning_arena}

-- A pool that is ready has its arenas side by side.
pub record IsPlaced (p : SharedArenaPool) : Type 0 where
  pub ready : p.initialized ≡ true
  pub few : p.num_cores ≤ arena_max_cores
  pub bases :
      (i : ℕ)
      → i < p.num_cores
      → (p.arenas i).base_addr ≡ shared_arena_base_addr + i * arena_capacity_per_core

-- The first address of core `i`.
abbrev base_of : ℕ → ℕ
base_of i = shared_arena_base_addr + i * arena_capacity_per_core

owning_core-eq :
    (va i : ℕ)
    → i < 16
    → base_of i ≤ va
    → va < base_of i + arena_capacity_per_core
    → owning_core va ≡ i
unfolding owning_core
owning_core-eq va i few low high = omega arith

owning_core-bounds :
    (va i : ℕ)
    → i < 16
    → shared_arena_base_addr ≤ va
    → va < 2 ^ 64
    → va < shared_arena_base_addr + 16 * arena_capacity_per_core
    → owning_core va ≡ i
    → (base_of i ≤ va) × (va < base_of i + arena_capacity_per_core)
unfolding owning_core
owning_core-bounds va i few low word high e = (omega arith, omega arith)

-- The test of an address against the range of one arena.
in_range : ℕ → ℕ → Bool
in_range va base = leb base va && ltb va (add_uptr base arena_capacity_per_core)

in_range-bounds :
    (va i : ℕ)
    → i < 16
    → in_range va (base_of i) ≡ true
    → (base_of i ≤ va) × (va < base_of i + arena_capacity_per_core)
unfolding in_range
in_range-bounds va i few h = (ground arith, ground arith)

bounds-in_range :
    (va i : ℕ)
    → i < 16
    → base_of i ≤ va
    → va < base_of i + arena_capacity_per_core
    → in_range va (base_of i) ≡ true
unfolding in_range
bounds-in_range va i few low high = ground arith

and-both : (a b : Bool) → (a && b) ≡ true → (a ≡ true) × (b ≡ true)
and-both true b h = (refl, h)
and-both false b h = absurd (false≢true h)

and_assoc : (a b c : Bool) → (a && b && c) ≡ (a && (b && c))
and_assoc true b c = refl
and_assoc false b c = refl

in_pool_range :
    (va i n : ℕ)
    → i < n
    → base_of i ≤ va
    → va < base_of i + arena_capacity_per_core
    → (leb shared_arena_base_addr va && ltb va (base_of n)) ≡ true
in_pool_range va i n h low high = ground arith

pool_range-bounds :
    (va n : ℕ)
    → (leb shared_arena_base_addr va && ltb va (base_of n)) ≡ true
    → (shared_arena_base_addr ≤ va) × (va < base_of n)
pool_range-bounds va n h = (ground arith, ground arith)

module _ (p : SharedArenaPool) (placed : IsPlaced p) (va : ℕ) (word : va < 2 ^ 64) where
  few : (i : ℕ) → i < p.num_cores → i < 16
  few i h = omega (arith, placed.few)

  contains_va-eq :
      (i : ℕ)
      → i < p.num_cores
      → contains_va (p.arenas i) va ≡ ((p.arenas i).initialized && in_range va (base_of i))
  unfolding contains_va in_range
  contains_va-eq i h = rw (placed.bases i h) (and_assoc (p.arenas i).initialized _ _)

  is_arena_addr-eq :
      is_arena_addr p va ≡ (leb shared_arena_base_addr va && ltb va (base_of p.num_cores))
  unfolding is_arena_addr
  is_arena_addr-eq =
      let e : add_uptr shared_arena_base_addr (p.num_cores * arena_capacity_per_core % 2 ^ 64)
          ≡ base_of p.num_cores =
        omega (arith, placed.few) in
      simp (placed.ready, e) refl

  contained :
      (i : ℕ)
      → i < p.num_cores
      → contains_va (p.arenas i) va ≡ true
      → get_owning_arena p va ≡ some i
  unfolding get_owning_arena
  contained i h c =
      let tests =
        and-both (p.arenas i).initialized (in_range va (base_of i))
          (sym (contains_va-eq i h) ∙ c) in
      let range = in_range-bounds va i (few i h) tests.1 in
      let core = owning_core-eq va i (few i h) range.0 range.1 in
      let in_pool : is_arena_addr p va ≡ true =
        is_arena_addr-eq ∙ in_pool_range va i p.num_cores h range.0 range.1 in
      let below : leb p.num_cores i ≡ false = ground arith in
      simp (placed.ready, in_pool, core, below, tests.0) refl

  owned :
      (i : ℕ)
      → i < p.num_cores
      → get_owning_arena p va ≡ some i
      → contains_va (p.arenas i) va ≡ true
  unfolding get_owning_arena
  owned i h c = elim (Bool-cases (is_arena_addr p va)) [
    | inr out ↦
        (let miss : get_owning_arena p va ≡ none = simp (placed.ready, out) refl in
          absurd (none-ne-some i (sym miss ∙ c)))
    | inl in_pool ↦ elim (Bool-cases (leb p.num_cores (owning_core va))) [
      | inl high ↦
          (let miss : get_owning_arena p va ≡ none = simp (placed.ready, in_pool, high) refl in
            absurd (none-ne-some i (sym miss ∙ c)))
      | inr below ↦ elim (Bool-cases (p.arenas (owning_core va)).initialized) [
        | inr off ↦
            (let miss : get_owning_arena p va ≡ none =
                simp (placed.ready, in_pool, below, off) refl in
              absurd (none-ne-some i (sym miss ∙ c)))
        | inl ready ↦
            let hit : get_owning_arena p va ≡ some (owning_core va) =
              simp (placed.ready, in_pool, below, ready) refl in
            let core : owning_core va ≡ i = some-injective (owning_core va) i (sym hit ∙ c) in
            let pool = pool_range-bounds va p.num_cores (sym is_arena_addr-eq ∙ in_pool) in
            let range =
              owning_core-bounds va i (few i h) pool.0 word (omega (arith, pool.1, placed.few))
                core in
            let inside = bounds-in_range va i (few i h) range.0 range.1 in
            let on : (p.arenas i).initialized ≡ true =
              subst (λ j. (p.arenas j).initialized ≡ true) core ready in
            contains_va-eq i h ∙ simp (on, inside) refl
      ]
    ]
  ]

  -- In a ready pool whose arenas lie side by side, the arena that getOwningArena finds for an
  -- address is the one that contains it, and it finds one for each address of an initialized arena.
  pub get_owning_arena-contains_va :
      (i : ℕ)
      → i < p.num_cores
      → (contains_va (p.arenas i) va ≡ true) ↔ (get_owning_arena p va ≡ some i)
  get_owning_arena-contains_va i h = (contained i h, owned i h)
