-- ===== src/Combined/RoundTrip.antt =====
-- From allocate to the size, the ownership and the visit of the chunk.
use scudo.Common.{
  lt→leb, true, ℕ, suc, ◌+◌, ◌-◌, ◌/◌, ◌%◌, ◌^◌, ◌≤◌, ◌<◌, ◌≡◌, ap, ◌∙◌, Bool, Option, none, some,
  ltb, ge→ltb, arith, if◌then◌else◌,
}
use native.Mathlib.Nat.{mul-mod_left, pow-le-pow_right}
use scudo.Chunk.{header_size}
use scudo.Combined.Chunks.{
  visit_block, is_owned, alignment_too_big, out_of_memory, Outcome, returned, Backends, Config,
  Allocator, min_alignment, max_alignment, max_allowed_malloc_size,
}
use scudo.Combined.Calls.{
  GivenBlock, refuse, allocate_block, needed_size, place_chunk, allocate, allocate_aligned,
}
use scudo.Combined.Resizing.{get_alloc_size}
use scudo.Combined.Placed.{
  chunk_start, IsBlock, placed, ptr-low, place_chunk-eq, get_alloc_size-placed, visit_block-placed,
  is_owned-placed,
}

-- A chunk of the size that was asked for, at the alignment, and not in front of the block's header.
pub record IsGiven {S : Type 0} (cfg : Config) (b : Backends S) (size alignment from to : ℕ)
    (g : GivenBlock) (r : Outcome (Option ℕ × Allocator S)) : Type 0 where
  pub ptr : ℕ
  pub next : Allocator S
  pub result : r ≡ returned (some ptr, next)
  pub sized : get_alloc_size cfg b next ptr ≡ returned size
  pub aligned : ptr % alignment ≡ 0
  pub visited : visit_block cfg b next from to g.block ≡ some (ptr, size)
  pub owned : is_owned cfg next ptr ≡ true
  pub behind : g.block + header_size ≤ ptr

allocate-aligned :
    {S : Type 0} (cfg : Config) (b : Backends S) (a : Allocator S) (size origin alignment : ℕ)
    → alignment ≤ max_alignment
    → min_alignment ≤ alignment
    → allocate cfg b a size origin alignment ≡ allocate_aligned cfg b a size origin alignment
unfolding allocate
allocate-aligned cfg b a size origin al top low =
    ap
      (λ (t : Bool).
        if t
        then refuse cfg alignment_too_big a
        else allocate_aligned cfg b a size origin
            (if ltb al min_alignment then min_alignment else al))
      (ge→ltb max_alignment al top)
    ∙ ap (λ (t : Bool). allocate_aligned cfg b a size origin (if t then min_alignment else al))
        (ge→ltb al min_alignment low)

aligned-placed :
    {S : Type 0} (cfg : Config) (b : Backends S) (a : Allocator S) (s : S)
    (size origin alignment : ℕ) (g : GivenBlock)
    → size < max_allowed_malloc_size
    → allocate_block b a.backend (needed_size size alignment) size alignment ≡ (some g, s)
    → (p : ℕ × Allocator S) → place_chunk cfg (record a { backend = s }) size origin alignment g ≡ p
    → allocate_aligned cfg b a size origin alignment ≡ returned (some p.0, p.1)
unfolding allocate_aligned
aligned-placed {S} cfg b a s size origin al g fits given p at_place =
    let after = λ (r : Option GivenBlock × S). elim r.0 as (λ _. Outcome (Option ℕ × Allocator S)) [
      | none ↦ refuse cfg out_of_memory (record a { backend = r.1 })
      | some x ↦
          let q = place_chunk cfg (record a { backend = r.1 }) size origin al x in
          returned (some q.0, q.1)
    ] in
    rw (lt→leb size max_allowed_malloc_size fits)
      (ap after given ∙ ap (λ (t : ℕ × Allocator S). returned (some t.0, t.1)) at_place)

-- For an alignment that is a power of two between the smallest and the largest, a size below
-- the maximum and a block from the parts below that is aligned, has room and is within the
-- reach of the fields of a header: allocate returns a pointer that has the alignment and lies
-- behind the header in the block, getAllocSize of the pointer is the size asked for, the
-- pointer is owned, and a visit of the block, when it lies in the range visited, finds the
-- pointer and the size.
pub allocate-IsGiven :
    {S : Type 0} (cfg : Config) (b : Backends S) (a : Allocator S) (s : S)
    (size origin k from to : ℕ) (g : GivenBlock)
    → k ≤ 20
    → size < max_allowed_malloc_size
    → from ≤ g.block
    → g.block < to
    → allocate_block b a.backend (needed_size size (2 ^ (4 + k))) size (2 ^ (4 + k)) ≡ (some g, s)
    → IsBlock b s size (2 ^ (4 + k)) g
    → IsGiven cfg b size (2 ^ (4 + k)) from to g (allocate cfg b a size origin (2 ^ (4 + k)))
allocate-IsGiven {S} cfg b a s size origin k from to g small fits first last given v =
    let al = 2 ^ (4 + k) in
    let w : (4 + k) + suc (59 - k) ≡ 64 = omega (arith, small) in
    let a' : Allocator S = record a { backend = s } in
    let top : 2 ^ (4 + k) ≤ 2 ^ 24 =
      pow-le-pow_right {n = 2} (omega arith) {i = 4 + k} {j = 24} (omega (arith, small)) in
    let low : 2 ^ 4 ≤ 2 ^ (4 + k) =
      pow-le-pow_right {n = 2} (omega arith) {i = 4} {j = 4 + k} (omega arith) in
    record {
      ptr = chunk_start g.block al;
      next = placed cfg b a' size origin k (59 - k) w g v;
      result =
          allocate-aligned cfg b a size origin al top low
          ∙ aligned-placed cfg b a s size origin al g fits given _
              (place_chunk-eq cfg b a' size origin k (59 - k) w g v);
      sized = get_alloc_size-placed cfg b a' size origin k (59 - k) w g v;
      aligned = mul-mod_left ((g.block + header_size + al - 1) / al) al;
      visited = visit_block-placed cfg b a' size origin k (59 - k) w g v from to first last;
      owned = is_owned-placed cfg b a' size origin k (59 - k) w g v;
      behind = ptr-low cfg b a' size origin k (59 - k) w g v;
    }
