-- ===== src/Arena/Pool.antt =====
-- SharedArenaPool of shared_arena.h and shared_arena_linux.cpp: the arenas of all cores, which one a
-- thread uses and which one an address belongs to.
pub mod Flags
pub mod Pressure
pub mod Routing
pub mod Totals
use scudo.Common.{
  ℕ, zero, suc, ◌+◌, ◌-◌, ◌*◌, ◌/◌, ◌%◌, ◌^◌, Bool, true, false, not, ◌&&◌, ◌||◌, Option, none,
  some, ◌==◌, ltb, leb, if◌then◌else◌, ◌>>=◌, add_u32, add_uptr, sub_uptr, update,
}
use scudo.Arena.State.{
  SharedArena, Blocks, Env, shared_arena_base_addr, arena_capacity_per_core, arena_max_cores,
}
use scudo.Arena.Lifecycle.{System, refresh_log_ring_for_current_process, reset}
use scudo.Arena.Lifecycle as Lifecycle
use scudo.Arena.Stats.{SharedArenaDebugStats, get_debug_stats}
use scudo.Arena.Pool.Flags.{Variable, EnvCache, ForceFlag, force_enabled, force_disabled}

-- `arenas` are the `kArenaMaxCores` elements of `Arenas`.
pub record SharedArenaPool : Type 0 where
  pub initialized : Bool
  pub owner_pid : ℕ
  pub num_cores : ℕ
  pub arenas : ℕ → SharedArena
  pub alloc_counter : ℕ
  pub arena_active : Bool

-- The index of `&Arenas[CoreId]`.
unfoldable pub get_arena : SharedArenaPool → ℕ → Option ℕ
get_arena p id = if leb p.num_cores id then none else some id

unfoldable pub is_arena_addr : SharedArenaPool → ℕ → Bool
is_arena_addr p va =
    if not p.initialized
    then false
    else leb shared_arena_base_addr va
      && ltb va (add_uptr shared_arena_base_addr (p.num_cores * arena_capacity_per_core % 2 ^ 64))

unfoldable pub owning_core : ℕ → ℕ
owning_core va = (sub_uptr va shared_arena_base_addr / arena_capacity_per_core) % 2 ^ 32

unfoldable pub get_owning_arena : SharedArenaPool → ℕ → Option ℕ
get_owning_arena p va =
    if not p.initialized || not (is_arena_addr p va)
    then none
    else if leb p.num_cores (owning_core va)
    then none
    else if (p.arenas (owning_core va)).initialized
    then some (owning_core va)
    else none

-- The CPU that the rseq area or sched_getcpu reports: `none` for a negative answer.
unfoldable pub get_current_arena : Option ℕ → Option ℕ → SharedArenaPool → Option ℕ
get_current_arena rseq_cpu sched_cpu p =
    if not p.initialized
    then none
    else elim rseq_cpu [ some cpu ↦ of_cpu cpu | none ↦ fallback sched_cpu ]
  where
    of_cpu : ℕ → Option ℕ
    of_cpu cpu =
        if leb p.num_cores cpu then none else if (p.arenas cpu).initialized then some cpu else none

    fallback : Option ℕ → Option ℕ
    fallback none = none
    fallback (some cpu) = of_cpu cpu

-- What `init` reads of the process: its pid, the number of CPUs, the environment, and the system's
-- answers for the arena of each core, which depend on whether the old names were unlinked first.
pub record Process : Type 0 where
  pub pid : ℕ
  pub cpus : ℕ
  pub env : Env
  pub cache : EnvCache
  pub os : Bool → ℕ → System

unfoldable pub count_cores : ℕ → ℕ
count_cores cpus =
    if cpus == 0 then 1 else if ltb arena_max_cores cpus then arena_max_cores else cpus

-- The loop over the arenas of `left` cores from `i`, and whether every one is ready.
unfoldable pub refresh_arenas : Process → ℕ → ℕ → (ℕ → SharedArena) → Bool × (ℕ → SharedArena)
refresh_arenas proc zero i arenas = (true, arenas)
refresh_arenas proc (suc left) i arenas =
    let one =
      if (arenas i).initialized
      then refresh_log_ring_for_current_process proc.env (proc.os false i) (arenas i)
      else (true, arenas i) in
    let rest = refresh_arenas proc left (suc i) (update arenas i one.1) in (one.0 && rest.0, rest.1)

unfoldable pub init_arenas :
    Process → Bool → ℕ → ℕ → (ℕ → SharedArena) → Option (Bool × (ℕ → SharedArena))
init_arenas proc unlinked zero i arenas = some (true, arenas)
init_arenas proc unlinked (suc left) i arenas = do
  one ← Lifecycle.init proc.env (proc.os unlinked i) (arenas i) i
  rest ← init_arenas proc unlinked left (suc i) (update arenas i one.1)
  some (one.0 && rest.0, rest.1)

-- `punch` says what the data pages of an arena read after its holes are punched.
unfoldable pub reset_arenas :
    Process → (ℕ → Blocks → Blocks) → ℕ → ℕ → (ℕ → SharedArena) → Option (ℕ → SharedArena)
reset_arenas proc punch zero i arenas = some arenas
reset_arenas proc punch (suc left) i arenas = do
  one ←
      if (arenas i).initialized
      then reset proc.env (proc.os false i) (punch i) (arenas i)
      else some (arenas i)
  reset_arenas proc punch left (suc i) (update arenas i one)

-- `SharedArenaPool::init` after the arenas: a reset if the environment wants it.
unfoldable pub finish_init :
    Process
    → (ℕ → Blocks → Blocks)
    → SharedArenaPool
    → Bool × (ℕ → SharedArena)
    → Option SharedArenaPool
finish_init proc punch p (all_ok, arenas) = do
  reset ←
      if all_ok && proc.cache.flags Variable.reset_on_init
      then reset_arenas proc punch p.num_cores 0 arenas
      else some arenas
  some (record p {
    arenas = reset;
    initialized = all_ok;
    owner_pid = if all_ok then proc.pid else p.owner_pid;
  })

-- `none` is a thread that spins: another process never finishes an arena's header, or holds a lock.
unfoldable pub init : Process → (ℕ → Blocks → Blocks) → SharedArenaPool → Option SharedArenaPool
init proc punch p =
    if proc.cache.flags Variable.disable
    then some (record p { initialized = false; owner_pid = proc.pid; num_cores = 0 })
    else if p.initialized && (p.owner_pid == proc.pid)
    then some p
    else if p.initialized
    then some refreshed
    else (init_arenas proc (not (proc.cache.flags Variable.attach)) cores 0 p.arenas
        >>= finish_init proc punch (record p { num_cores = cores }))
  where
    cores : ℕ
    cores = count_cores proc.cpus

    after : Bool × (ℕ → SharedArena)
    after = refresh_arenas proc p.num_cores 0 p.arenas

    refreshed : SharedArenaPool
    refreshed = record p {
      arenas = after.1;
      initialized = after.0;
      owner_pid = if after.0 then proc.pid else p.owner_pid;
    }

unfoldable pub reset_pool :
    Process → (ℕ → Blocks → Blocks) → SharedArenaPool → Option SharedArenaPool
reset_pool proc punch p =
    if not p.initialized
    then some p
    else (reset_arenas proc punch p.num_cores 0 p.arenas
        >>= (λ arenas. some (record p { arenas = arenas })))

-- The check of one allocation in `interval`, with what the memory pressure is.
unfoldable pub sample_pressure : Bool → ℕ → SharedArenaPool → Bool × SharedArenaPool
sample_pressure pressure interval p =
    (active, record p { arena_active = active; alloc_counter = add_u32 p.alloc_counter 1 })
  where
    active : Bool
    active =
        if (interval == 0) || (p.alloc_counter % interval == 0) then pressure else p.arena_active

-- What the flags and the memory pressure say of a pool that is ready.
unfoldable pub choose_path :
    EnvCache → ForceFlag → Bool → ℕ → SharedArenaPool → Bool × SharedArenaPool
unfolding sample_pressure force_enabled force_disabled
choose_path cache force pressure interval p =
    if force_disabled force
    then (false, record p { arena_active = false })
    else if force_enabled cache force
    then (true, record p { arena_active = true })
    else sample_pressure pressure interval p

unfoldable pub should_use_arena :
    Process
    → (ℕ → Blocks → Blocks)
    → ForceFlag
    → Bool
    → ℕ
    → SharedArenaPool
    → Option (Bool × SharedArenaPool)
should_use_arena proc punch force pressure interval p =
    if not p.initialized
    then some (false, p)
    else if p.owner_pid == proc.pid
    then some (choose_path proc.cache force pressure interval p)
    else (init proc punch p >>= (λ q.
        some
          (if q.initialized then choose_path proc.cache force pressure interval q else (false, q))))
