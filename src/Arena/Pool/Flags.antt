-- ===== src/Arena/Pool/Flags.antt =====
-- The cached environment variables and the flag that tests force, of shared_arena_linux.cpp.
use scudo.Common.{
  ℕ, Bool, true, false, not, ◌||◌, Option, none, some, List, [], ◌∷◌, ◌==◌, ltb, if◌then◌else◌,
  length,
}

-- `Value != nullptr && Value[0] != '\0' && Value[0] != '0'` of the text that getenv gives.
unfoldable pub env_enabled : Option (List ℕ) → Bool
env_enabled none = false
env_enabled (some []) = false
env_enabled (some (c ∷ cs)) = not (c == 48)

-- The names of the variables.
pub data Variable : Type 0 where
  attach force trace reset_on_init disable allow_no_kernel : Variable
  disable_freelist disable_fill_alloc yield_after_alloc_log : Variable

pub record EnvCache : Type 0 where
  pub ready : Bool
  pub flags : Variable → Bool

-- The first call reads the variables, and the cache answers every later one.
unfoldable pub init_env_cache_once : (Variable → Option (List ℕ)) → EnvCache → EnvCache
unfolding env_enabled
init_env_cache_once getenv cache =
    if cache.ready then cache else record { ready = true; flags = λ v. env_enabled (getenv v) }

-- `SharedArenaForceForTesting`: 0, 1 or 2.
pub data ForceFlag : Type 0 where
  clear force_off force_on : ForceFlag

unfoldable pub force_enabled : EnvCache → ForceFlag → Bool
force_enabled cache force_on = true
force_enabled cache force_off = false
force_enabled cache clear = cache.flags Variable.force

unfoldable pub force_disabled : ForceFlag → Bool
force_disabled clear = false
force_disabled force_off = true
force_disabled force_on = false

unfoldable pub set_force : Bool → ForceFlag
set_force true = ForceFlag.force_on
set_force false = ForceFlag.force_off

-- strtoul of the C library gives the number and the text behind it; a number that does not fit, or
-- text behind it, counts as no number.
unfoldable pub env_u32 : (List ℕ → ℕ × List ℕ) → Option (List ℕ) → ℕ → ℕ
env_u32 strtoul none fallback = fallback
env_u32 strtoul (some []) fallback = fallback
env_u32 strtoul (some (c ∷ cs)) fallback =
    if (length parsed.1 == length (c ∷ cs)) || ltb 0 (length parsed.1) || ltb 0xFFFFFFFF parsed.0
    then fallback
    else parsed.0
  where
    parsed : ℕ × List ℕ
    parsed = strtoul (c ∷ cs)
