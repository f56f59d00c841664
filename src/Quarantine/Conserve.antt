-- ===== src/Quarantine/Conserve.antt =====
-- What the quarantine keeps: no chunk is lost or recycled twice, the sizes are those of the batches,
-- and recycling ends below its limit.
use scudo.Common.{
  ℕ, ◌+◌, ◌^◌, ◌≤◌, ◌<◌, false, Bool-cases, some, List, [], ◌∷◌, ◌++◌, ltb, if◌then◌else◌, sub_uptr,
  arith, ◌≡◌, refl, sym, ap, subst, ◌∙◌, inl, inr, All, append_assoc, append-nil,
}
use scudo.Arith.Shuffle.{occurrences, same, occurrences-append, occurrences-shuffle}
use scudo.Quarantine.{Callback, extract_batches, callbacks, recycle_batch, do_recycle}
use scudo.Quarantine.Cache.{
  QuarantineBatch, QuarantineCache, batch_bytes, can_merge, merge, merged_from, shuffle_batch,
  enqueue_batch, merge_into, get_quarantined_size, total_size,
}

-- How often a chunk is in the batches.
unfoldable pub held : ℕ → List QuarantineBatch → ℕ
held p [] = 0
held p (b ∷ bs) = occurrences p b.chunks + held p bs

-- How often the calls recycle a chunk.
unfoldable pub recycled : ℕ → List Callback → ℕ
recycled p [] = 0
recycled p (Callback.recycle_call x ∷ cs) = same p x + recycled p cs
recycled p (Callback.deallocate_call b ∷ cs) = recycled p cs

-- A batch accounts for its own bytes.
abbrev pub HoldsHeader : QuarantineBatch → Type 0
HoldsHeader b = batch_bytes ≤ b.size

-- The size of a cache is that of its batches.
pub record IsSized (c : QuarantineCache) : Type 0 where
  pub headers : All HoldsHeader c.list
  pub total : c.size ≡ total_size c.list
  pub bound : c.size < 2 ^ 64

pub held-append :
    (p : ℕ) → (xs ys : List QuarantineBatch) → held p (xs ++ ys) ≡ held p xs + held p ys
unfolding held
held-append p [] ys = omega arith
held-append p (x ∷ xs) ys = omega (arith, held-append p xs ys)

pub total_size-append :
    (xs ys : List QuarantineBatch) → total_size (xs ++ ys) ≡ total_size xs + total_size ys
unfolding total_size
total_size-append [] ys = omega arith
total_size-append (x ∷ xs) ys = omega (arith, total_size-append xs ys)

pub recycled-append :
    (p : ℕ) → (xs ys : List Callback) → recycled p (xs ++ ys) ≡ recycled p xs + recycled p ys
unfolding recycled
recycled-append p [] ys = omega arith
recycled-append p (Callback.recycle_call x ∷ xs) ys = omega (arith, recycled-append p xs ys)
recycled-append p (Callback.deallocate_call b ∷ xs) ys = recycled-append p xs ys

recycled-callbacks :
    (p addr : ℕ) → (xs : List ℕ) → recycled p (callbacks addr xs) ≡ occurrences p xs
unfolding recycled callbacks occurrences
recycled-callbacks p addr [] = refl
recycled-callbacks p addr (x ∷ xs) = ap (λ n. same p x + n) (recycled-callbacks p addr xs)

recycled-recycle_batch :
    (p cache_addr : ℕ)
    → (b : QuarantineBatch) → recycled p (recycle_batch cache_addr b) ≡ occurrences p b.chunks
unfolding recycle_batch shuffle_batch
recycled-recycle_batch p cache_addr b =
    recycled-callbacks p b.addr _ ∙ occurrences-shuffle p b.chunks _

pub recycled-do_recycle :
    (p cache_addr : ℕ)
    → (bs : List QuarantineBatch) → recycled p (do_recycle cache_addr bs) ≡ held p bs
unfolding recycled do_recycle held
recycled-do_recycle p cache_addr [] = refl
recycled-do_recycle p cache_addr (b ∷ bs) = omega (
  arith,
  recycled-append p (recycle_batch cache_addr b) (do_recycle cache_addr bs),
  recycled-recycle_batch p cache_addr b,
  recycled-do_recycle p cache_addr bs,
)

-- What the extraction of the oldest batches leaves.
pub record Extracted (bs : List QuarantineBatch) (size limit : ℕ) (tmp : QuarantineCache)
    (r : QuarantineCache × QuarantineCache) : Type 0 where
  pub prefix : List QuarantineBatch
  pub split : bs ≡ prefix ++ r.0.list
  pub moved : r.1.list ≡ tmp.list ++ prefix
  pub total : r.0.size ≡ total_size r.0.list
  pub below : r.0.size ≤ limit
  pub shrinks : r.0.size ≤ size

pub extract_batches-Extracted :
    (bs : List QuarantineBatch)
    → (size limit : ℕ) → (tmp : QuarantineCache) → size ≡ total_size bs
    → size < 2 ^ 64
    → (r : QuarantineCache × QuarantineCache) × (extract_batches bs size limit tmp ≡ some r)
      × Extracted bs size limit tmp r
unfolding extract_batches total_size enqueue_batch
extract_batches-Extracted [] size limit tmp h b =
    let fits : ltb limit size ≡ false = ground arith in
    (
      (record { list = []; size = size }, tmp),
      rw (fits),
      record {
        prefix = [];
        split = refl;
        moved = sym (append-nil tmp.list);
        total = h;
        below = omega arith;
        shrinks = omega arith;
      },
    )
extract_batches-Extracted (b ∷ bs) size limit tmp h bound = elim (Bool-cases (ltb limit size)) [
  | inr fits ↦ (
    (record { list = b ∷ bs; size = size }, tmp),
    rw (fits),
    record {
      prefix = [];
      split = refl;
      moved = sym (append-nil tmp.list);
      total = h;
      below = ground arith;
      shrinks = omega arith;
    },
  )
  | inl above ↦
      let rest =
        extract_batches-Extracted bs (sub_uptr size b.size) limit (enqueue_batch tmp b)
          (omega arith) (omega arith) in
      (
        rest.0,
        rw (above) rest.1,
        record {
          prefix = b ∷ rest.2.prefix;
          split = ap (λ t. b ∷ t) rest.2.split;
          moved = rest.2.moved ∙ append_assoc tmp.list (b ∷ []) rest.2.prefix;
          total = rest.2.total;
          below = rest.2.below;
          shrinks = omega (arith, rest.2.shrinks);
        },
      )
]

-- What the merge of the batches after `current` keeps.
pub record Merged (current : QuarantineBatch) (rest : List QuarantineBatch)
    (r : List QuarantineBatch × List QuarantineBatch) : Type 0 where
  pub headers : All HoldsHeader r.0
  pub spare_headers : All HoldsHeader r.1
  pub total : total_size r.0 + total_size r.1 ≡ current.size + total_size rest
  pub kept : (p : ℕ) → held p r.0 ≡ occurrences p current.chunks + held p rest
  pub emptied : (p : ℕ) → held p r.1 ≡ 0

size-merge :
    (b from : QuarantineBatch)
    → HoldsHeader from
    → b.size + from.size < 2 ^ 64
    → (merge b from).size + batch_bytes ≡ b.size + from.size
unfolding merge get_quarantined_size
size-merge b from h bound = omega arith

occurrences-merge :
    (p : ℕ)
    → (b from : QuarantineBatch)
    → occurrences p (merge b from).chunks ≡ occurrences p b.chunks + occurrences p from.chunks
unfolding merge
occurrences-merge p b from = occurrences-append p b.chunks from.chunks

pub merge_into-Merged :
    (current : QuarantineBatch)
    → (rest : List QuarantineBatch) → HoldsHeader current
    → All HoldsHeader rest
    → current.size + total_size rest < 2 ^ 64
    → Merged current rest (merge_into current rest)
unfolding merge_into merged_from total_size held occurrences
merge_into-Merged current [] hc h bound = record {
  headers = (hc, tt);
  spare_headers = tt;
  total = omega arith;
  kept = λ p. omega arith;
  emptied = λ p. refl;
}
merge_into-Merged current (next ∷ rest) hc h bound = elim (Bool-cases (can_merge current next)) [
  | inr full ↦
      let r = merge_into-Merged next rest h.0 h.1 (omega arith) in
      subst
        (λ c. Merged current (next ∷ rest) (
          let r = merge_into (if c then merge current next else next) rest in
          if c then (r.0, merged_from next ∷ r.1) else (current ∷ r.0, r.1)))
        (sym full)
        (record {
          headers = (hc, r.headers);
          spare_headers = r.spare_headers;
          total = omega (arith, r.total);
          kept = λ p. omega (arith, r.kept p);
          emptied = r.emptied;
        })
  | inl room ↦
      let size = size-merge current next h.0 (omega arith) in
      let r = merge_into-Merged (merge current next) rest (omega arith) h.1 (omega arith) in
      subst
        (λ c. Merged current (next ∷ rest) (
          let r = merge_into (if c then merge current next else next) rest in
          if c then (r.0, merged_from next ∷ r.1) else (current ∷ r.0, r.1)))
        (sym room)
        (record {
          headers = r.headers;
          spare_headers = (omega arith, r.spare_headers);
          total = omega (arith, r.total);
          kept = λ p. omega (arith, r.kept p, occurrences-merge p current next);
          emptied = λ p. omega (arith, r.emptied p);
        })
]
