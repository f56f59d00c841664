-- ===== src/Combined/Freed.antt =====
-- Double free: the calls on a chunk that was freed.
use scudo.Common.{
  lt→leb, ℕ, ◌%◌, ◌^◌, ◌<◌, ◌≡◌, ◌≢◌, refl, sym, ap, ◌∙◌, subst, ◌⊎◌, inl, inr, true, false,
  Bool-cases, List, [], ◌∷◌, ◌==◌, ==→eq, ==→ne, ne→==, arith,
}
use scudo.Arith.{is_aligned}
use scudo.Chunk.{header_addr, compute_header_checksum, store_header, load_header}
use scudo.Chunk.Pack.{UnpackedHeader, pack, unpack}
use scudo.Combined.Chunks.{
  Report, corrupted_header, invalid_chunk_state, misaligned_pointer, Outcome, returned, reported,
  faulted, ◌>>=◌, Backends, Config, Allocator, load, store, get_block_begin, get_size,
  min_alignment, max_allowed_malloc_size, allocated, available, quarantined,
}
use scudo.Combined.Freeing.{
  recycle, recycle_all, bypass_quarantine, release_block, quarantine_or_deallocate_chunk,
  deallocate_chunk, deallocate,
}
use scudo.Combined.Resizing.{get_alloc_size, reallocate_chunk, reallocate}

-- A call that ended in a report.
pub record IsReported {A : Type 0} (o : Outcome A) : Type 0 where
  pub report : Report
  pub eq : o ≡ reported report

-- What a call that returns gives.
unfoldable Gives : {A : Type 0} → (A → Type 0) → Outcome A → Type 0
Gives P (returned a) = P a
Gives P (reported r) = Unit {0}
Gives P faulted = Unit {0}

bind-Gives :
    {A B : Type 0} (P : A → Type 0) (Q : B → Type 0) (o : Outcome A) (f : A → Outcome B)
    → Gives P o
    → ((a : A) → P a → Gives Q (f a))
    → Gives Q (o >>= f)
unfolding Gives
bind-Gives P Q (returned a) f p k = k a p
bind-Gives P Q (reported r) f p k = tt
bind-Gives P Q faulted f p k = tt

-- The header of the chunk does not say that it is allocated, and is mapped still, unless the chunk was
-- of the secondary, the class 0.
abbrev Freed : {S : Type 0} → ℕ → ℕ → Allocator S → Type 0
Freed class_id ptr a =
    ((unpack (a.memory (header_addr ptr))).state ≢ allocated)
    × (class_id ≢ 0 → a.readable (header_addr ptr) ≡ true)

pack-state : (h : UnpackedHeader) → (unpack (pack h)).state ≡ h.state % 2 ^ 2
unfolding pack unpack
pack-state h = omega arith

module _ {S : Type 0} (cfg : Config) (b : Backends S) (class_id ptr : ℕ) where
  store-Freed :
      (a : Allocator S) (p : ℕ) (h : UnpackedHeader)
      → h.state % 2 ^ 2 ≢ allocated
      → (header_addr ptr ≢ header_addr p → Freed class_id ptr a)
      → Freed class_id ptr (store cfg a p h)
  unfolding store_header
  store-Freed a p h free before = elim (Bool-cases (header_addr ptr == header_addr p)) [
    | inl t ↦ rw (t, pack-state) (free, λ _. refl)
    | inr f ↦ rw f (before (==→ne _ _ f))
  ]

  load-Gives :
      (a : Allocator S) (p : ℕ) → Gives (λ h. h ≡ unpack (a.memory (header_addr p))) (load cfg a p)
  unfolding Gives load load_header
  load-Gives a p = ground arith

  recycle-Freed :
      (a : Allocator S) (p : ℕ)
      → Freed class_id ptr a
      → Gives (Freed class_id ptr) (recycle cfg b a p)
  unfolding Gives recycle
  recycle-Freed a p free =
      bind-Gives _ (Freed class_id ptr) (load cfg a p) _ (load-Gives a p) (λ h e.
        elim (Bool-cases (h.state == quarantined)) [
          | inl t ↦
              rw t (store-Freed a p (record h { state = available }) (omega arith) (λ _. free))
          | inr f ↦ rw f tt
        ])

  recycle_all-Freed :
      (ps : List ℕ) (a : Allocator S)
      → Freed class_id ptr a
      → Gives (Freed class_id ptr) (recycle_all cfg b ps a)
  unfolding Gives recycle_all
  recycle_all-Freed [] a free = free
  recycle_all-Freed (p ∷ ps) a free =
      bind-Gives (Freed class_id ptr) (Freed class_id ptr) (recycle cfg b a p) _
        (recycle-Freed a p free) (recycle_all-Freed ps)

  -- Only the secondary unmaps a block.
  release_block-Freed :
      (a : Allocator S) (h : UnpackedHeader)
      → h.class_id ≡ class_id
      → Freed class_id ptr a
      → Freed class_id ptr (release_block b a ptr h)
  unfolding release_block
  release_block-Freed a h same free = elim (Bool-cases (h.class_id == 0)) [
    | inl t ↦ rw t (free.0, λ ne. absurd (ne (sym same ∙ ==→eq h.class_id 0 t)))
    | inr f ↦
        let r = b.cache_deallocate a.backend h.class_id (get_block_begin ptr h) in
        elim (Bool-cases r.0) [ inl u ↦ rw (f, u) free | inr u ↦ rw (f, u) free ]
  ]

  module _ (a : Allocator S) (h : UnpackedHeader) (same : h.class_id ≡ class_id) where
    quarantine_or_deallocate_chunk-Freed :
        (size : ℕ) → Gives (Freed class_id ptr) (quarantine_or_deallocate_chunk cfg b a ptr h size)
    unfolding Gives quarantine_or_deallocate_chunk
    quarantine_or_deallocate_chunk-Freed size = elim (Bool-cases (bypass_quarantine cfg size h)) [
      | inl t ↦
          let new = record h { state = available; origin_or_was_zeroed = 0 } in
          rw t (
            release_block-Freed (store cfg a ptr new) h same
              (store-Freed a ptr new (omega arith) (λ n. absurd (n refl))))
      | inr f ↦
          let new = record h { state = quarantined; origin_or_was_zeroed = 0 } in
          let r = b.quarantine_put a.backend ptr size in
          rw f (
            recycle_all-Freed r.0 (record (store cfg a ptr new) { backend = r.1 })
              (store-Freed a ptr new (omega arith) (λ n. absurd (n refl))))
    ]

    deallocate_chunk-Freed :
        (origin delete_size : ℕ)
        → Gives (Freed class_id ptr) (deallocate_chunk cfg b a ptr origin delete_size h)
    unfolding Gives deallocate_chunk
    deallocate_chunk-Freed origin delete_size =
        let last = quarantine_or_deallocate_chunk-Freed (get_size b a.backend ptr h) in ground arith

-- A call does not return: it ends in a report, or, once a chunk of the secondary is unmapped, in a fault.
pub Stops : {S A : Type 0} → ℕ → Allocator S → ℕ → Outcome A → Type 0
Stops class_id a ptr o =
    IsReported o ⊎ ((o ≡ faulted) × (a.readable (header_addr ptr) ≡ false) × (class_id ≡ 0))

module _ {S : Type 0} (cfg : Config) (b : Backends S) (ptr : ℕ) where
  deallocate-Freed :
      (a a' : Allocator S) (origin delete_size : ℕ)
      → ptr ≢ 0
      → deallocate cfg b a ptr origin delete_size ≡ returned a'
      → Freed (unpack (a.memory (header_addr ptr))).class_id ptr a'
  unfolding Gives deallocate
  deallocate-Freed a a' origin delete_size there e =
      let class_id = (unpack (a.memory (header_addr ptr))).class_id in
      let step =
        bind-Gives _ (Freed class_id ptr) (load cfg a ptr)
          (deallocate_chunk cfg b a ptr origin delete_size) (load-Gives cfg b class_id ptr a ptr)
          (λ h at.
            deallocate_chunk-Freed cfg b class_id ptr a h
              (ap (λ (x : UnpackedHeader). x.class_id) at) origin delete_size) in
      let all : Gives (Freed class_id ptr) (deallocate cfg b a ptr origin delete_size) =
        rw (ne→== ptr 0 there) (elim (Bool-cases (is_aligned ptr min_alignment)) [
          | inl t ↦ rw t step
          | inr f ↦ rw f tt
        ]) in
      subst (Gives (Freed class_id ptr)) e all

  -- Where the header does not say that the chunk is allocated, a call that checks this stops.
  Freed-Stops :
      {A : Type 0} (class_id : ℕ) (a : Allocator S) (f : UnpackedHeader → Outcome A)
      → Freed class_id ptr a
      → ((h : UnpackedHeader) → h.state ≢ allocated → f h ≡ reported invalid_chunk_state)
      → Stops class_id a ptr (load cfg a ptr >>= f)
  unfolding load load_header Stops
  Freed-Stops class_id a f free stop = elim (Bool-cases (a.readable (header_addr ptr))) [
    | inl r ↦
        elim (Bool-cases (h.checksum == compute_header_checksum cfg.algorithm cfg.cookie ptr h)) [
          | inl t ↦ simp (r, t) (inl (record { report = invalid_chunk_state; eq = stop h free.0 }))
          | inr e ↦ simp (r, e) (inl (record { report = corrupted_header; eq = refl }))
        ]
    | inr u ↦ simp u (
        inr (
          refl,
          refl,
          elim (Bool-cases (class_id == 0)) [
            | inl z ↦ ==→eq class_id 0 z
            | inr z ↦ absurd (ground (arith, u, free.1 (==→ne class_id 0 z)))
          ],
        ))
  ]
    where
      h : UnpackedHeader
      h = unpack (a.memory (header_addr ptr))

-- Whatever the parts below do with the block, and with the quarantine on or off: after a
-- deallocate of a pointer that is not null has returned, every further deallocate of the
-- pointer, the query of its size and every reallocate to a size below the maximum do not return,
-- as long as nothing, the parts below included, has written the header: each ends in a report, or
-- else in a fault, and this only if the header is no longer mapped and the chunk was one of the
-- secondary allocator.
pub deallocate-DoubleFree :
    {S : Type 0} (cfg : Config) (b : Backends S) (a a' : Allocator S) (ptr origin delete_size : ℕ)
    (next_origin next_delete_size new_size alignment : ℕ)
    → ptr ≢ 0
    → new_size < max_allowed_malloc_size
    → deallocate cfg b a ptr origin delete_size ≡ returned a'
    → let class_id = (unpack (a.memory (header_addr ptr))).class_id in
      Stops class_id a' ptr (deallocate cfg b a' ptr next_origin next_delete_size)
      × Stops class_id a' ptr (get_alloc_size cfg b a' ptr)
      × Stops class_id a' ptr (reallocate cfg b a' ptr new_size alignment)
unfolding deallocate deallocate_chunk get_alloc_size reallocate reallocate_chunk Stops
deallocate-DoubleFree cfg b a a' ptr origin delete_size o d n al there small e =
    let c = (unpack (a.memory (header_addr ptr))).class_id in
    let free = deallocate-Freed cfg b ptr a a' origin delete_size there e in
    elim (Bool-cases (is_aligned ptr min_alignment)) [
      | inl t ↦ (
        rw (ne→== ptr 0 there, t)
            (Freed-Stops cfg b ptr c a' (deallocate_chunk cfg b a' ptr o d) free
              (λ h ne. rw (ne→== h.state allocated ne) refl)),
        Freed-Stops cfg b ptr c a' _ free (λ h ne. rw (ne→== h.state allocated ne) refl),
        rw (lt→leb n max_allowed_malloc_size small, t)
            (Freed-Stops cfg b ptr c a' (reallocate_chunk cfg b a' ptr n al) free
              (λ h ne. rw (ne→== h.state allocated ne) refl)),
      )
      | inr f ↦ (
        rw (ne→== ptr 0 there, f) (inl (record { report = misaligned_pointer; eq = refl })),
        Freed-Stops cfg b ptr c a' _ free (λ h ne. rw (ne→== h.state allocated ne) refl),
        rw (lt→leb n max_allowed_malloc_size small, f)
            (inl (record { report = misaligned_pointer; eq = refl })),
      )
    ]
