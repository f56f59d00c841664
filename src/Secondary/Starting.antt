-- ===== src/Secondary/Starting.antt =====
-- The secondary cache after its initialization.
use scudo.Common.{
  ℕ, zero, suc, ◌+◌, ◌≤◌, ◌<◌, ◌≡◌, refl, false, [], arith, ◌==◌, length, Bool-cases, inl, inr,
}
use scudo.Secondary.Block.{ℤ, is_valid_block}
use scudo.Secondary.Cache.{Config, MapAllocatorCache, indices, set_option, init}
use scudo.Secondary.Lru.{occ, IsCache, blocks}

occ-indices :
    (p i n : ℕ)
    → ((p < i) → occ p (indices i n) ≡ 0)
      × ((i ≤ p) → (p < i + n) → occ p (indices i n) ≡ 1)
      × ((i + n ≤ p) → occ p (indices i n) ≡ 0)
occ-indices p i zero = ((λ h. refl), (λ h k. absurd (omega arith)), λ h. refl)
occ-indices p i (suc n) =
    let (below, inside, above) = occ-indices p (suc i) n in
    (
      (λ h. ground (arith, below (omega arith))),
      (λ h k. elim (Bool-cases (p == i)) [
        | inl e ↦ ground (arith, below, e)
        | inr e ↦ ground (arith, inside, e, h, k)
      ]),
      λ h. ground (arith, above, h),
    )

length-indices : (i n : ℕ) → length (indices i n) ≡ n
length-indices i zero = refl
length-indices i (suc n) = omega (arith, length-indices (suc i) n)

-- From entries that are not in use, the initialization of the secondary cache puts each entry
-- of the array in one of its two lists, has no block cached, and sets a limit of the entries
-- within the array.
pub init-IsCache :
    (cfg : Config) (c : MapAllocatorCache) (interval : ℤ)
    → ((i : ℕ) → is_valid_block (c.entries i) ≡ false)
    → IsCache cfg (init cfg c interval)
      × (blocks (init cfg c interval) ≡ [])
      × ((init cfg c interval).max_entries_count ≤ cfg.entries_array_size)
unfolding init set_option
init-IsCache cfg c interval unused = (
  record {
    once = λ i l. omega (arith, (occ-indices i 0 cfg.entries_array_size).1);
    inside = λ i l. omega (arith, (occ-indices i 0 cfg.entries_array_size).2);
    counted = omega (arith, length-indices 0 cfg.entries_array_size);
    valid = λ i h. absurd (omega (arith, h));
    free = λ i h. unused i;
  },
  refl,
  omega arith,
)
