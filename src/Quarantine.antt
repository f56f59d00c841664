-- ===== src/Quarantine.antt =====
-- quarantine.h: batches of freed chunks, the cache of a thread and the global quarantine. A batch's
-- `chunks` are `Batch[0]` up to `Batch[Count - 1]`, so that `Count` is their number, and a cache's list
-- of batches is the list that the intrusive links of list.h thread through them. The mutexes give each
-- method to one thread at a time, which `try_lock` says for the one that may be refused.
pub mod Cache
pub mod Conserve
pub mod Put
pub mod Recycle
use Prim.Native.Nat.{bit_xor}
use scudo.Common.{
  ℕ, zero, suc, ◌+◌, ◌-◌, ◌*◌, ◌/◌, ◌%◌, ◌^◌, Bool, true, false, ◌&&◌, ◌||◌, Option, none, some,
  List, [], ◌∷◌, ◌++◌, ◌==◌, ltb, leb, if◌then◌else◌, ◌>>=◌, add_uptr, sub_uptr, length,
}
use scudo.Quarantine.Cache.{
  QuarantineBatch, QuarantineCache, count, shuffle_batch, enqueue, transfer, enqueue_batch,
  merge_batches, overhead_size,
}

-- What the callbacks `recycle` and `deallocate` are called with.
pub data Callback : Type 0 where
  recycle_call : ℕ → Callback
  deallocate_call : ℕ → Callback

pub record GlobalQuarantine : Type 0 where
  pub cache : QuarantineCache
  pub min_size : ℕ
  pub max_size : ℕ
  pub max_cache_size : ℕ

abbrev pub overhead_threshold_percents : ℕ
overhead_threshold_percents = 100

abbrev pub empty_cache : QuarantineCache
empty_cache = record { list = []; size = 0 }

-- `none` is a failed `CHECK`, which ends the process.
unfoldable pub init : ℕ → ℕ → Option GlobalQuarantine
init size cache_size =
    if (size == 0 && cache_size == 0) || not_zero cache_size
    then some (record {
      cache = empty_cache;
      min_size = size / 10 * 9;
      max_size = size;
      max_cache_size = cache_size;
    })
    else none
  where
    not_zero : ℕ → Bool
    not_zero n = ltb 0 n

unfoldable pub is_empty : GlobalQuarantine → Bool
is_empty g = g.cache.size == 0

-- The loop that moves the oldest batches to `Tmp` while the quarantine is above the limit. To enqueue
-- the null pointer of an empty list is a fault.
unfoldable pub extract_batches :
    List QuarantineBatch → ℕ → ℕ → QuarantineCache → Option (QuarantineCache × QuarantineCache)
unfolding enqueue_batch
extract_batches [] size limit tmp =
    if ltb limit size then none else some (record { list = []; size = size }, tmp)
extract_batches (b ∷ bs) size limit tmp =
    let rest = extract_batches bs (sub_uptr size b.size) limit (enqueue_batch tmp b) in
    if ltb limit size then rest else some (record { list = b ∷ bs; size = size }, tmp)

-- The calls for the chunks of a batch, then for the batch.
unfoldable pub callbacks : ℕ → List ℕ → List Callback
callbacks addr [] = Callback.deallocate_call addr ∷ []
callbacks addr (p ∷ ps) = Callback.recycle_call p ∷ callbacks addr ps

-- One batch of `doRecycle`, whose address with that of `Tmp` seeds the shuffle.
unfoldable pub recycle_batch : ℕ → QuarantineBatch → List Callback
unfolding shuffle_batch callbacks
recycle_batch cache_addr b = callbacks b.addr (shuffle_batch seed b).chunks
  where
    seed : ℕ
    seed = (bit_xor b.addr cache_addr / 2 ^ 4) % 2 ^ 32

-- `cache_addr` is where `Tmp` stands on the stack, which seeds the shuffle.
unfoldable pub do_recycle : ℕ → List QuarantineBatch → List Callback
unfolding recycle_batch
do_recycle cache_addr [] = []
do_recycle cache_addr (b ∷ bs) = recycle_batch cache_addr b ++ do_recycle cache_addr bs

-- Whether the batches themselves take more than their share of the quarantine.
unfoldable pub should_merge : QuarantineCache → Bool
should_merge c =
    ltb (overhead_size c) c.size
    && ltb (c.size * overhead_threshold_percents % 2 ^ 64)
        (overhead_size c * (100 + overhead_threshold_percents) % 2 ^ 64)

unfoldable pub merge_if_needed : QuarantineCache → QuarantineCache × QuarantineCache
unfolding should_merge merge_batches
merge_if_needed c = if should_merge c then merge_batches c empty_cache else (c, empty_cache)

unfoldable pub recycle : ℕ → ℕ → GlobalQuarantine → Option (GlobalQuarantine × List Callback)
recycle cache_addr limit g =
    extract_batches merged.0.list merged.0.size limit merged.1
    >>= (λ r. some (record g { cache = r.0 }, do_recycle cache_addr r.1.list))
  where
    merged : QuarantineCache × QuarantineCache
    merged = merge_if_needed g.cache

-- The quarantine and the thread's cache after the thread's cache has moved to the quarantine.
unfoldable pub transfer_from :
    GlobalQuarantine → QuarantineCache → GlobalQuarantine × QuarantineCache
transfer_from g c = (record g { cache = (transfer g.cache c).0 }, (transfer g.cache c).1)

-- The quarantine, the thread's cache and the calls of the callbacks.
abbrev pub Drained : Type 0
Drained = GlobalQuarantine × QuarantineCache × List Callback

unfoldable pub drain : ℕ → Bool → GlobalQuarantine → QuarantineCache → Option Drained
drain cache_addr try_lock g c =
    if ltb after.0.max_size after.0.cache.size && try_lock
    then recycle cache_addr after.0.min_size after.0 >>= (λ r. some (r.0, after.1, r.1))
    else some (after.0, after.1, [])
  where
    after : GlobalQuarantine × QuarantineCache
    after = transfer_from g c

unfoldable pub drain_and_recycle : ℕ → GlobalQuarantine → QuarantineCache → Option Drained
drain_and_recycle cache_addr g c = recycle cache_addr 0 after.0 >>= (λ r. some (r.0, after.1, r.1))
  where
    after : GlobalQuarantine × QuarantineCache
    after = transfer_from g c

-- `batch_addr` is what the callback allocates if a new batch is needed.
unfoldable pub put : ℕ → Bool → ℕ → GlobalQuarantine → QuarantineCache → ℕ → ℕ → Option Drained
put cache_addr try_lock batch_addr g c ptr size =
    if ltb g.max_cache_size filled.size
    then drain cache_addr try_lock g filled
    else some (g, filled, [])
  where
    filled : QuarantineCache
    filled = enqueue batch_addr c ptr size
