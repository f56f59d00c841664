-- ===== src/SizeClassMap/Validate.antt =====
-- validateMap of size_class_map.h, and that the four maps of the header pass it.
use mathlib.Core.Bool.{false≢true}
use native.Mathlib.Decide.{dec_le}
use scudo.Common.{
  ℕ, zero, suc, ◌+◌, ◌-◌, ◌≤◌, ◌<◌, Bool, true, false, ◌&&◌, ◌||◌, ltb, ◌==◌, ==→eq, length, arith,
  ◌≡◌, refl, subst, ◌⊎◌, inl, inr,
}
use scudo.SizeClassMap.Configs.{
  Config, default_config, fuchsia_config, android_config, trusty_config,
}
use scudo.SizeClassMap.Fixed as Fixed
use scudo.SizeClassMap.Table as Table

-- The typedefs at the end of the header.
pub data SizeClassMap : Type 0 where
  default_map fuchsia_map android_map trusty_map : SizeClassMap

unfoldable pub size_by_class : SizeClassMap → ℕ → ℕ
size_by_class default_map id = Fixed.get_size_by_class_id default_config id
size_by_class fuchsia_map id = Fixed.get_size_by_class_id fuchsia_config id
size_by_class android_map id = Table.get_size_by_class_id android_config id
size_by_class trusty_map id = Fixed.get_size_by_class_id trusty_config id

unfoldable pub class_by_size : SizeClassMap → ℕ → ℕ
class_by_size default_map size = Fixed.get_class_id_by_size default_config size
class_by_size fuchsia_map size = Fixed.get_class_id_by_size fuchsia_config size
class_by_size android_map size = Table.get_class_id_by_size android_config size
class_by_size trusty_map size = Fixed.get_class_id_by_size trusty_config size

-- `NumClasses`.
abbrev pub num_classes : SizeClassMap → ℕ
num_classes default_map = Fixed.num_classes default_config
num_classes fuchsia_map = Fixed.num_classes fuchsia_config
num_classes android_map = suc (length (Config.classes android_config))
num_classes trusty_map = Fixed.num_classes trusty_config

-- The checks of one class.
unfoldable pub validate_class : SizeClassMap → ℕ → Bool
validate_class m id =
    ltb 0 size
    && (class_by_size m size == id)
    && ((id + 1 == num_classes m) || (class_by_size m (size + 1) == id + 1))
    && (class_by_size m (size - 1) == id)
    && ((id == 1) || ltb (size_by_class m (id - 1)) size)
  where
    size : ℕ
    size = size_by_class m id

-- The loop over the classes below `id`, without class 0.
unfoldable pub validate_below : SizeClassMap → ℕ → Bool
unfolding validate_class
validate_below m zero = true
validate_below m (suc zero) = true
validate_below m (suc (suc n)) = validate_class m (suc n) && validate_below m (suc n)

pub validates : (m : SizeClassMap) → validate_below m (num_classes m) ≡ true
unfolding validate_below size_by_class class_by_size Fixed.get_size_by_class_id
    Fixed.get_class_id_by_size Table.get_size_by_class_id Table.get_class_id_by_size
validates default_map = refl
validates fuchsia_map = refl
validates trusty_map = refl
validates android_map = refl

both : (a b : Bool) → (a && b) ≡ true → (a ≡ true) × (b ≡ true)
both true b h = (refl, h)
both false b h = absurd (false≢true h)

either : (a b : Bool) → (a || b) ≡ true → (a ≡ true) ⊎ (b ≡ true)
either true b h = inl refl
either false b h = inr h

-- A loop that succeeds checked every class.
validate_below-class :
    (m : SizeClassMap)
    → (n c : ℕ) → validate_below m n ≡ true
    → 1 ≤ c
    → c < n
    → validate_class m c ≡ true
unfolding validate_below
validate_below-class m zero c h low high = absurd (omega arith)
validate_below-class m (suc zero) c h low high = absurd (omega arith)
validate_below-class m (suc (suc n)) c h low high = elim (dec_le c n) [
  | yes le ↦
      validate_below-class m (suc n) c
        (both (validate_class m (suc n)) (validate_below m (suc n)) h).1 low (omega arith)
  | no gt ↦
      let last : suc n ≡ c = omega arith in
      subst (λ k. validate_class m k ≡ true) last
        (both (validate_class m (suc n)) (validate_below m (suc n)) h).0
]

-- What the maps promise of a class: its size is its own, one byte more belongs to the next class, one
-- byte less to this one, and the sizes grow with the classes.
pub record IsExact (m : SizeClassMap) (c : ℕ) : Type 0 where
  pub positive : 0 < size_by_class m c
  pub own : class_by_size m (size_by_class m c) ≡ c
  pub above : (c + 1 ≡ num_classes m) ⊎ (class_by_size m (size_by_class m c + 1) ≡ c + 1)
  pub below : class_by_size m (size_by_class m c - 1) ≡ c
  pub grows : (c ≡ 1) ⊎ (size_by_class m (c - 1) < size_by_class m c)

ltb→lt : (a b : ℕ) → ltb a b ≡ true → a < b
ltb→lt a b h = ground arith

-- In each of the four size class maps and for each class: the size is positive and belongs to the
-- class, one byte more belongs to the next class, one byte less to this one, and the sizes grow
-- with the classes.
pub class-IsExact : (m : SizeClassMap) → (c : ℕ) → 1 ≤ c → c < num_classes m → IsExact m c
unfolding validate_class
class-IsExact m c low high =
    let size = size_by_class m c in
    let first = both _ _ (validate_below-class m (num_classes m) c (validates m) low high) in
    let second = both _ _ first.0 in
    let third = both _ _ second.0 in
    let fourth = both _ _ third.0 in
    record {
      positive = ltb→lt 0 size fourth.0;
      own = ==→eq _ c fourth.1;
      above = elim (either _ _ third.1) [ inl e ↦ inl (==→eq _ _ e) | inr e ↦ inr (==→eq _ _ e) ];
      below = ==→eq _ c second.1;
      grows = elim (either _ _ first.1) [
        | inl e ↦ inl (==→eq _ _ e)
        | inr e ↦ inr (ltb→lt _ size e)
      ];
    }
