-- ===== src/Arena/Refusing.antt =====
-- The calls of SharedArena::store that are refused for their range.
use scudo.Common.{
  ℕ, ◌+◌, ◌*◌, ◌/◌, ◌%◌, ◌^◌, ◌≤◌, ◌<◌, ◌≡◌, ◌≢◌, refl, sym, ap, ◌∙◌, ◌⊎◌, inl, inr, true, false,
  not, ◌||◌, Option, some, arith, ◌==◌, eq→==, ne→==, sub_uptr, Bool-cases, ==→eq, ==→ne,
}
use native.Mathlib.Decide.{dec_le}
use native.Mathlib.Nat.{add-mul-mod_self_right, mod-add-div', add-mul, mul-le-mul_right}
use scudo.Arith.{is_aligned, is_aligned_slow}
use scudo.Arena.State.{SharedArena, Env, addr_to_page_off}
use scudo.Arena.Store.{invalid_range, store}
use scudo.Arena.Invariant.{IsPaged, aligned-slow}

module _ (env : Env) (paged : IsPaged env) (a : SharedArena) (x size : ℕ)
    (aligned : a.data_base % env.page_size ≡ 0) (total : a.hdr.total_data_pages < 2 ^ 32)
    (word : a.data_base + x < 2 ^ 64) (near : x / env.page_size < 2 ^ 32)
    (small : size / env.page_size < 2 ^ 32) where
  -- What is wrong with the `size` bytes at `x` behind the data base.
  abbrev pub IsBad : Type 0
  IsBad =
      (size ≡ 0)
      ⊎ ((x % env.page_size ≢ 0)
          ⊎ ((size % env.page_size ≢ 0) ⊎ (a.hdr.total_data_pages * env.page_size < x + size)))

  offset : addr_to_page_off env a (a.data_base + x) ≡ x / env.page_size
  unfolding addr_to_page_off
  offset =
      let e : sub_uptr (a.data_base + x) a.data_base ≡ x = omega (arith, word) in
      ap (λ (r : ℕ). (r / env.page_size) % 2 ^ 32) e ∙ omega (arith, near)

  base_mod : (a.data_base + x) % env.page_size ≡ x % env.page_size
  base_mod =
      let e : a.data_base ≡ a.data_base / env.page_size * env.page_size = omega (arith, aligned) in
      ap (λ (r : ℕ). r % env.page_size) {y = x + a.data_base / env.page_size * env.page_size}
        (omega (arith, e))
      ∙ add-mul-mod_self_right x (a.data_base / env.page_size) env.page_size

  misaligned : (y : ℕ) → y % env.page_size ≢ 0 → is_aligned y env.page_size ≡ false
  unfolding is_aligned_slow
  misaligned y h = aligned-slow env paged y ∙ ne→== (y % env.page_size) 0 h

  pages_in :
      x % env.page_size ≡ 0
      → size % env.page_size ≡ 0
      → x / env.page_size + size / env.page_size ≤ a.hdr.total_data_pages
      → x + size ≤ a.hdr.total_data_pages * env.page_size
  pages_in h k le = omega (
    arith,
    h,
    k,
    mod-add-div' x env.page_size,
    mod-add-div' size env.page_size,
    add-mul (x / env.page_size) (size / env.page_size) env.page_size,
    mul-le-mul_right env.page_size le,
  )

  well_aligned : (y : ℕ) → y % env.page_size ≡ 0 → is_aligned y env.page_size ≡ true
  unfolding is_aligned_slow
  well_aligned y h = aligned-slow env paged y ∙ eq→== (y % env.page_size) 0 h

  -- The page numbers are too large.
  bad_pages :
      a.hdr.total_data_pages < x / env.page_size + size / env.page_size
      → is_aligned (a.data_base + x) env.page_size ≡ true
      → is_aligned size env.page_size ≡ true
      → invalid_range env a (a.data_base + x) size ≡ true
  unfolding invalid_range
  bad_pages many al al' = simp (al, al', offset) (ground (arith, near, small, total, many))

  bad_range : IsBad → size ≢ 0 → invalid_range env a (a.data_base + x) size ≡ true
  unfolding invalid_range
  bad_range bad some_bytes = elim (Bool-cases (x % env.page_size == 0)) [
    | inr e ↦ simp (misaligned (a.data_base + x) (λ h. ==→ne _ 0 e (sym base_mod ∙ h))) refl
    | inl e ↦
        let al = well_aligned (a.data_base + x) (base_mod ∙ ==→eq _ 0 e) in
        elim (Bool-cases (size % env.page_size == 0)) [
          | inr f ↦ simp (al, misaligned size (==→ne _ 0 f)) refl
          | inl f ↦
              elim (dec_le (x / env.page_size + size / env.page_size) a.hdr.total_data_pages) [
                | no many ↦ bad_pages (omega arith) al (well_aligned size (==→eq _ 0 f))
                | yes few ↦
                    let inside = pages_in (==→eq _ 0 e) (==→eq _ 0 f) few in
                    absurd (elim bad [
                      | inl zero_size ↦ some_bytes zero_size
                      | inr (inl h) ↦ h (==→eq _ 0 e)
                      | inr (inr (inl h)) ↦ h (==→eq _ 0 f)
                      | inr (inr (inr more)) ↦ omega arith
                    ])
              ]
        ]
  ]

  -- With data pages at a page address, for bytes from the data base on that do not run over the
  -- address space and are so near and so few that their page numbers fit in 32 bits: a store of
  -- no bytes, of an address or a size that is not a multiple of the page size, or of bytes
  -- beyond the data pages returns false and changes neither this arena nor that of the log.
  pub store_refuses :
      IsBad
      → (log : Option SharedArena) → store env a log (a.data_base + x) size ≡ some (false, a, log)
  unfolding store
  store_refuses bad log = elim (Bool-cases (not a.initialized || (size == 0))) [
    | inl e ↦ rw e refl
    | inr e ↦ let some_bytes : size ≢ 0 = ground (arith, e) in rw (e, bad_range bad some_bytes) refl
  ]
