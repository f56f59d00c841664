-- ===== src/Arena/Invariant.antt =====
-- A well-formed arena between two calls: unlocked, its free list in order and coalesced below the
-- bump pointer, its data pages at page addresses of the word.
use scudo.Common.{
  ℕ, suc, ◌+◌, ◌*◌, ◌/◌, ◌%◌, ◌^◌, ◌≤◌, ◌<◌, ◌≡◌, sym, ap, ◌∙◌, true, List, arith, eq→==, sub_uptr,
}
use native.Mathlib.Nat.{add-mul-mod_self_right, mul-div_left, mul-mod_left}
use scudo.Common.Bits.{pow_pos}
use scudo.Arith.{is_aligned, is_aligned_slow}
use scudo.Arith.Align.{is_aligned-eq}
use scudo.Arena.State.{SharedArena, Env, addr_to_page_off, page_off_to_addr}
use scudo.Arena.Store.{list_memory}
use scudo.Arena.Seg.{Extent, end_of, Coalesced}
use scudo.Arena.Seg.Insert.{IsFreeList}

-- The page size is a power of two of a 64-bit word.
pub record IsPaged (env : Env) : Type 0 where
  pub log : ℕ
  pub rest : ℕ
  pub width : log + suc rest ≡ 64
  pub power : env.page_size ≡ 2 ^ log

pub record IsArena (env : Env) (a : SharedArena) (bs : List Extent) : Type 0 where
  pub ready : a.initialized ≡ true
  pub unlocked : a.hdr.lock ≡ 0
  pub list : IsFreeList (list_memory a) bs
  pub apart : Coalesced 0 bs
  pub below_bump : end_of 0 bs ≤ a.hdr.bump_offset_in_pages
  pub bump_in : a.hdr.bump_offset_in_pages ≤ a.hdr.total_data_pages
  pub placed : 0 < a.data_base
  pub aligned : a.data_base % env.page_size ≡ 0
  pub space : a.data_base + a.hdr.total_data_pages * env.page_size < 2 ^ 64

module _ (env : Env) (paged : IsPaged env) where
  pub page_pos : 0 < env.page_size
  page_pos = rw paged.power (pow_pos paged.log)

  pub page_cancel : (o p : ℕ) → o * env.page_size ≡ p * env.page_size → o ≡ p
  page_cancel o p h =
      sym (mul-div_left o page_pos) ∙ ap (λ (x : ℕ). x / env.page_size) h ∙ mul-div_left p page_pos

  pub aligned-slow : (x : ℕ) → is_aligned x env.page_size ≡ is_aligned_slow x env.page_size
  aligned-slow x = rw paged.power (is_aligned-eq paged.log paged.rest paged.width x)

  pub aligned_of_mod : (x : ℕ) → x % env.page_size ≡ 0 → is_aligned x env.page_size ≡ true
  unfolding is_aligned_slow
  aligned_of_mod x h = aligned-slow x ∙ eq→== (x % env.page_size) 0 h

  pub aligned-mul : (n : ℕ) → is_aligned (n * env.page_size) env.page_size ≡ true
  aligned-mul n = aligned_of_mod (n * env.page_size) (mul-mod_left n env.page_size)

  module _ (a : SharedArena) (bs : List Extent) (v : IsArena env a bs) where
    pub page_bound : (o : ℕ) → o ≤ a.hdr.total_data_pages → a.data_base + o * env.page_size < 2 ^ 64
    page_bound o h = grind (arith, v.space)

    pub page_off_to_addr-eq :
        (o : ℕ)
        → o ≤ a.hdr.total_data_pages
        → page_off_to_addr env a o ≡ a.data_base + o * env.page_size
    unfolding page_off_to_addr
    page_off_to_addr-eq o h = omega (arith, page_bound o h)

    pub aligned_page : (o : ℕ) → is_aligned (a.data_base + o * env.page_size) env.page_size ≡ true
    aligned_page o =
        aligned_of_mod (a.data_base + o * env.page_size)
          (add-mul-mod_self_right a.data_base o env.page_size ∙ v.aligned)

    pub pages_of_size : (n : ℕ) → n < 2 ^ 32 → (n * env.page_size / env.page_size) % 2 ^ 32 ≡ n
    pages_of_size n h = omega (arith, mul-div_left n page_pos)

    pub addr_to_page_off-eq :
        (o : ℕ)
        → o ≤ a.hdr.total_data_pages
        → addr_to_page_off env a (a.data_base + o * env.page_size) ≡ o
    unfolding addr_to_page_off
    addr_to_page_off-eq o h =
        let offset : sub_uptr (a.data_base + o * env.page_size) a.data_base ≡ o * env.page_size =
          omega (arith, page_bound o h) in
        ap (λ (r : ℕ). (r / env.page_size) % 2 ^ 32) offset
        ∙ pages_of_size o (omega (arith, v.list.small))
