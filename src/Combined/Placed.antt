-- ===== src/Combined/Placed.antt =====
-- The chunk that allocate places in a block: its header, its size, and finding it from the block.
use scudo.Common.{
  true, false, update_self, update_ne, eq→==, ne→==, lt→ltb, ℕ, suc, ◌+◌, ◌-◌, ◌*◌, ◌/◌, ◌%◌, ◌^◌,
  ◌≤◌, ◌<◌, ◌≡◌, ◌≢◌, refl, sym, ap, ◌∙◌, inl, inr, Bool, false, Bool-cases, not, Option, none,
  some, ◌==◌, ==→eq, ==→ne, ltb, ge→ltb, arith, add_uptr, sub_uptr, if◌then◌else◌,
}
use scudo.Common.Bits.{pow_pos, pow_add}
use native.Mathlib.Nat.{mul-mod_left, mod-lt, mod-eq_of_lt}
use scudo.Arith.{is_aligned, is_aligned_slow, round_up}
use scudo.Arith.Align.{is_aligned-eq, round_up-eq}
use scudo.Chunk.{header_size, header_addr, is_valid, load_header, store_header}
use scudo.Chunk.Pack.{UnpackedHeader, pack, unpack, FitsFields}
use scudo.Chunk.Header.{load_header-store_header, sealed, read_back}
use scudo.Combined.Chunks.{
  allocated, block_marker, get_chunk_offset_from_block, get_chunk_from_block, visit_block, is_owned,
  returned, faulted, Backends, Config, Allocator, reading, load, store, get_block_begin, get_size,
  mark_block, new_header, init_chunk, min_alignment,
}
use scudo.Combined.Calls.{GivenBlock, place_chunk}
use scudo.Combined.Resizing.{get_alloc_size}

-- Where the chunk of a block starts: behind the header, at the alignment.
abbrev pub chunk_start : ℕ → ℕ → ℕ
chunk_start block alignment = (block + header_size + alignment - 1) / alignment * alignment

-- What the primary and the secondary promise of a block: it is aligned to the smallest alignment and
-- has room for the chunk within the reach of the header's fields.
pub record IsBlock {S : Type 0} (b : Backends S) (s : S) (size alignment : ℕ) (g : GivenBlock)
    : Type 0 where
  pub class_fits : g.class_id < 2 ^ 8
  pub block_aligned : g.block % 16 ≡ 0
  pub no_wrap : g.block + header_size + alignment + size + 2 ^ 20 ≤ 2 ^ 64
  pub near : chunk_start g.block alignment < g.block + header_size + 2 ^ 20
  pub class_size : g.class_id ≢ 0 → size < 2 ^ 20
  pub has_end : g.class_id ≡ 0 → b.secondary_block_end s g.block ≡ g.block_end
  pub end_fits :
      g.class_id ≡ 0
      → (chunk_start g.block alignment + size ≤ g.block_end)
        × (g.block_end < chunk_start g.block alignment + size + 2 ^ 20)

module _ {S : Type 0} (cfg : Config) (b : Backends S) (a : Allocator S) (size origin : ℕ) (k n : ℕ)
    (width : (4 + k) + suc n ≡ 64) (g : GivenBlock)
    (v : IsBlock b a.backend size (2 ^ (4 + k)) g) where
  abbrev alignment : ℕ
  alignment = 2 ^ (4 + k)

  abbrev default_ptr : ℕ
  default_ptr = g.block + header_size

  abbrev ptr : ℕ
  ptr = chunk_start g.block alignment

  sixteen : alignment ≡ 2 ^ k * 16
  sixteen = sym (pow_add 4 k) ∙ omega arith

  ptr-sixteen : ptr % 16 ≡ 0
  ptr-sixteen =
      let m = (default_ptr + alignment - 1) / alignment in
      let e : ptr ≡ m * 2 ^ k * 16 = ap (λ (t : ℕ). m * t) sixteen ∙ grind arith in
      ap (λ (t : ℕ). t % 16) e ∙ mul-mod_left (m * 2 ^ k) 16

  pub ptr-low : default_ptr ≤ ptr
  ptr-low =
      let s = default_ptr + alignment - 1 in
      let split : s / alignment * alignment + s % alignment ≡ s = omega arith in
      omega (arith, split, mod-lt s (pow_pos (4 + k)), pow_pos (4 + k))

  user_ptr-eq : round_up (add_uptr g.block header_size) alignment ≡ ptr
  user_ptr-eq =
      let sum : add_uptr g.block header_size ≡ default_ptr =
        omega (arith, v.no_wrap, pow_pos (4 + k)) in
      ap (λ (t : ℕ). round_up t alignment) sum
      ∙ round_up-eq (4 + k) n width default_ptr (omega (arith, v.no_wrap))

  unused : ℕ
  unused = if not (g.class_id == 0) then size else g.block_end - (ptr + size)

  header : UnpackedHeader
  header = new_header g.class_id origin default_ptr ptr unused

  header-FitsFields : FitsFields header
  unfolding header new_header
  header-FitsFields = record {
    class_id = omega arith;
    state = omega arith;
    origin_or_was_zeroed = omega arith;
    size_or_unused_bytes = omega arith;
    offset = ground arith;
    checksum = omega arith;
  }

  -- The memory with the marker, and the allocator with the header.
  marked : Allocator S
  marked = record a { memory = mark_block a.memory g.block default_ptr ptr }

  pub placed : Allocator S
  placed = store cfg marked ptr header

  end_known : g.class_id ≡ 0 → (ptr + size ≤ g.block_end) × (g.block_end < ptr + size + 2 ^ 20)
  end_known e = v.end_fits e

  unused-eq :
      (if not (g.class_id == 0) then size else sub_uptr g.block_end (add_uptr ptr size)) ≡ unused
  unfolding unused
  unused-eq = elim (Bool-cases (g.class_id == 0)) [
    | inl t ↦
        let r = end_known (==→eq g.class_id 0 t) in
        rw t (omega (arith, r.0, r.1, v.near, v.no_wrap))
    | inr f ↦ rw f refl
  ]

  pub place_chunk-eq : place_chunk cfg a size origin alignment g ≡ (ptr, placed)
  unfolding place_chunk init_chunk placed marked header
  place_chunk-eq =
      let sum : add_uptr g.block header_size ≡ default_ptr =
        omega (arith, v.no_wrap, pow_pos (4 + k)) in
      let last =
        λ (u : ℕ). if not (g.class_id == 0) then size else sub_uptr g.block_end (add_uptr u size) in
      let put = λ (d u x : ℕ).
        store cfg (record a { memory = mark_block a.memory g.block d u }) u
          (new_header g.class_id origin d u x) in
      ap (λ (u : ℕ). (u, put (add_uptr g.block header_size) u (last u))) user_ptr-eq
      ∙ ap (λ (d : ℕ). (ptr, put d ptr (last ptr))) sum
      ∙ ap (λ (x : ℕ). (ptr, put default_ptr ptr x)) unused-eq

  load-placed : load cfg placed ptr ≡ returned (sealed cfg.algorithm cfg.cookie ptr header)
  unfolding load placed marked
  load-placed =
      ap
        (λ (t : Bool).
          if t
          then reading (load_header cfg.algorithm cfg.cookie (Allocator.memory placed) ptr)
          else faulted)
        (update_self a.readable (header_addr ptr) true)
      ∙ ap reading
          (load_header-store_header cfg.algorithm cfg.cookie (Allocator.memory marked) ptr header
            header-FitsFields).0

  block_begin-eq : get_block_begin ptr (sealed cfg.algorithm cfg.cookie ptr header) ≡ g.block
  unfolding get_block_begin header new_header
  block_begin-eq = ground (arith, ptr-sixteen, ptr-low, v.block_aligned, v.near, v.no_wrap)

  size-eq : get_size b a.backend ptr (sealed cfg.algorithm cfg.cookie ptr header) ≡ size
  unfolding get_size header new_header unused get_block_begin
  size-eq = elim (Bool-cases (g.class_id == 0)) [
    | inl t ↦
        let e = ==→eq g.class_id 0 t in
        let r = end_known e in
        let z : g.class_id % 2 ^ 8 ≡ 0 = omega (arith, e) in
        rw (z, t, block_begin-eq, v.has_end e) (omega (arith, r.0, r.1, v.near, v.no_wrap))
    | inr f ↦
        let ne = ==→ne g.class_id 0 f in
        let z : g.class_id % 2 ^ 8 ≡ g.class_id = omega (arith, v.class_fits) in
        rw (z, f) (mod-eq_of_lt (v.class_size ne))
  ]

  pub get_alloc_size-placed : get_alloc_size cfg b placed ptr ≡ returned size
  unfolding get_alloc_size header new_header placed marked
  get_alloc_size-placed = rw load-placed (ap returned size-eq)

  placed-valid : is_valid cfg.algorithm cfg.cookie (Allocator.memory placed) ptr ≡ true
  unfolding placed
  placed-valid =
      (load_header-store_header cfg.algorithm cfg.cookie (Allocator.memory marked) ptr header
        header-FitsFields).1

  read :
      unpack (Allocator.memory placed (header_addr ptr))
      ≡ sealed cfg.algorithm cfg.cookie ptr header
  unfolding placed
  read = read_back cfg.algorithm cfg.cookie (Allocator.memory marked) ptr header header-FitsFields

  read-state : (unpack (Allocator.memory placed (header_addr ptr))).state ≡ allocated
  unfolding header new_header
  read-state = ap (λ (h : UnpackedHeader). h.state) read

  header_addr-eq : header_addr ptr ≡ ptr - 16
  header_addr-eq = omega (arith, ptr-low, v.near, v.no_wrap)

  -- The header of an allocated chunk is never taken for a marker.
  offset-at_start :
      default_ptr ≡ ptr
      → get_chunk_offset_from_block (Allocator.memory placed) g.block ≡ header_size
  unfolding get_chunk_offset_from_block unpack
  offset-at_start e =
      let here : header_addr ptr ≡ g.block = omega (arith, e, header_addr-eq) in
      let w = Allocator.memory placed g.block in
      let one : w / 2 ^ 8 % 2 ^ 2 ≡ 1 =
        ap (λ (p : ℕ). Allocator.memory placed p / 2 ^ 8 % 2 ^ 2) (sym here) ∙ read-state in
      let no : w % 2 ^ 32 ≢ block_marker = λ t. omega (arith, t, one) in
      rw (ne→== (w % 2 ^ 32) block_marker no) refl

  marked-word :
      default_ptr ≢ ptr
      → Allocator.memory marked g.block ≡ block_marker + sub_uptr ptr default_ptr % 2 ^ 32 * 2 ^ 32
  unfolding marked mark_block
  marked-word ne =
      rw (ne→== default_ptr ptr ne)
        (update_self a.memory g.block (block_marker + sub_uptr ptr default_ptr % 2 ^ 32 * 2 ^ 32))

  offset-marked :
      default_ptr ≢ ptr
      → get_chunk_offset_from_block (Allocator.memory placed) g.block ≡ ptr - g.block
  unfolding get_chunk_offset_from_block placed store_header
  offset-marked ne =
      let away : g.block ≢ header_addr ptr = omega (arith, ne, ptr-low, header_addr-eq) in
      let w : ℕ = block_marker + sub_uptr ptr default_ptr % 2 ^ 32 * 2 ^ 32 in
      let at : Allocator.memory placed g.block ≡ w =
        update_ne (Allocator.memory marked) (header_addr ptr)
          (pack (sealed cfg.algorithm cfg.cookie ptr header)) g.block away
        ∙ marked-word ne in
      ap
        (λ (x : ℕ).
          add_uptr (if x % 2 ^ 32 == block_marker then x / 2 ^ 32 % 2 ^ 32 else 0) header_size)
        at
      ∙ rw (eq→== (w % 2 ^ 32) block_marker (omega arith))
          (omega (arith, ptr-low, v.near, v.no_wrap))

  get_chunk_from_block-placed : get_chunk_from_block cfg placed g.block ≡ (ptr, true)
  unfolding get_chunk_from_block
  get_chunk_from_block-placed =
      let offset : get_chunk_offset_from_block (Allocator.memory placed) g.block ≡ ptr - g.block =
        elim (Bool-cases (default_ptr == ptr)) [
          | inl t ↦
              offset-at_start (==→eq default_ptr ptr t) ∙ omega (arith, ==→eq default_ptr ptr t)
          | inr f ↦ offset-marked (==→ne default_ptr ptr f)
        ] in
      let chunk : add_uptr g.block (get_chunk_offset_from_block (Allocator.memory placed) g.block)
          ≡ ptr =
        ap (add_uptr g.block) offset ∙ omega (arith, ptr-low, v.near, v.no_wrap) in
      ap (λ (c : ℕ). (c, is_valid cfg.algorithm cfg.cookie (Allocator.memory placed) c)) chunk
      ∙ ap (λ (t : Bool). (ptr, t)) placed-valid

  pub visit_block-placed :
      (from to : ℕ)
      → from ≤ g.block
      → g.block < to
      → visit_block cfg b placed from to g.block ≡ some (ptr, size)
  unfolding visit_block placed marked header new_header
  visit_block-placed from to low high =
      let seen : ℕ × Bool → UnpackedHeader → Option (ℕ × ℕ) = λ f h.
        if not f.1
        then none
        else if h.state == allocated
        then some (f.0, get_size b a.backend f.0 h)
        else none in
      let all : Bool → Bool → ℕ × Bool → Option (ℕ × ℕ) = λ early inside f.
        if early
        then none
        else if not inside
        then none
        else seen f (unpack (Allocator.memory placed (header_addr f.0))) in
      ap (λ (t : Bool). all t (ltb g.block to) (get_chunk_from_block cfg placed g.block))
        (ge→ltb g.block from low)
      ∙ ap (λ (t : Bool). all false t (get_chunk_from_block cfg placed g.block))
          (lt→ltb g.block to high)
      ∙ ap (all false true) get_chunk_from_block-placed
      ∙ ap (seen (ptr, true)) read
      ∙ ap (λ (n : ℕ). some (ptr, n)) size-eq

  aligned_ptr : is_aligned ptr min_alignment ≡ true
  unfolding is_aligned_slow
  aligned_ptr = is_aligned-eq 4 59 refl ptr ∙ eq→== (ptr % 16) 0 ptr-sixteen

  pub is_owned-placed : is_owned cfg placed ptr ≡ true
  unfolding is_owned
  is_owned-placed =
      rw (ne→== ptr 0 (omega (arith, ptr-low)), aligned_ptr, placed-valid, read-state) refl
