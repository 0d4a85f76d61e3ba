-- ===== src/Deferred/Drain.antt =====
-- The drains and counts of rfed/src/deferred_queue.rs.
use rfed.Base.{
  ℕ, List, [], ◌∷◌, ◌++◌, none, some, Bytes, bytes_dec, same, length, Bool, not, ◌&&◌, ltb, ◌==◌,
  if◌then◌else◌, is_empty, take, drop, any, filter,
}
use rfed.Dict
use rfed.Store.{write_all}
use rfed.Deferred.State.{PendingBlob, Stmt, delete_row, DeferredQueue, bucket_of, set_bucket}

unfoldable pub deletes : List PendingBlob → List Stmt
deletes [] = []
deletes (e ∷ es) = if e.id == 0 then deletes es else delete_row e.id ∷ deletes es

unfoldable pub delete_rows : DeferredQueue → List PendingBlob → DeferredQueue
unfolding deletes
delete_rows q removed = record q { db = write_all q.db (deletes removed) }

-- `if !removed.is_empty() { self.delete_rows(..) }`.
unfoldable pub drained : DeferredQueue → List PendingBlob → DeferredQueue
drained q removed = if is_empty removed then q else delete_rows q removed

unfoldable pub drain : DeferredQueue → Bytes → DeferredQueue × List PendingBlob
drain q s = elim (Dict.find bytes_dec s q.queue) [
  | none ↦ (q, [])
  | some bucket ↦ (drained (record q { queue = Dict.remove bytes_dec s q.queue }) bucket, bucket)
]

unfoldable pub drain_batch : DeferredQueue → Bytes → ℕ → DeferredQueue × List PendingBlob
drain_batch q s max = elim (Dict.find bytes_dec s q.queue) [
  | none ↦ (q, [])
  | some bucket ↦ (
    drained (record q { queue = set_bucket s (drop max bucket) q.queue }) (take max bucket),
    take max bucket,
  )
]

-- The loop of `drain_matching_batch`: what it removed and kept so far.
pub record Batch : Type 0 where
  pub removed : List PendingBlob
  pub kept : List PendingBlob

unfoldable pub batch_step : (Bytes → Bool) → ℕ → Batch → PendingBlob → Batch
batch_step wanted max b e =
    if ltb (length b.removed) max && wanted e.channel_hash
    then record b { removed = b.removed ++ e ∷ [] }
    else record b { kept = b.kept ++ e ∷ [] }

unfoldable pub batch_loop : (Bytes → Bool) → ℕ → Batch → List PendingBlob → Batch
batch_loop wanted max b [] = b
batch_loop wanted max b (e ∷ es) = batch_loop wanted max (batch_step wanted max b e) es

unfoldable pub drain_matching_batch :
    DeferredQueue → Bytes → (Bytes → Bool) → ℕ → DeferredQueue × List PendingBlob
drain_matching_batch q s wanted max = elim (Dict.find bytes_dec s q.queue) [
  | none ↦ (q, [])
  | some bucket ↦
      let b = batch_loop wanted max (record { removed = []; kept = [] }) bucket in
      (drained (record q { queue = set_bucket s b.kept q.queue }) b.removed, b.removed)
]

unfoldable pub drain_channel_batch :
    DeferredQueue → Bytes → Bytes → ℕ → DeferredQueue × List PendingBlob
drain_channel_batch q s channel max = drain_matching_batch q s (λ routing. same routing channel) max

unfoldable pub has_pending : DeferredQueue → Bytes → Bool
unfolding bucket_of
has_pending q s = not (is_empty (bucket_of s q))

unfoldable pub has_pending_matching : DeferredQueue → Bytes → (Bytes → Bool) → Bool
unfolding bucket_of
has_pending_matching q s wanted = any (λ e. wanted e.channel_hash) (bucket_of s q)

unfoldable pub has_pending_channel : DeferredQueue → Bytes → Bytes → Bool
has_pending_channel q s channel = has_pending_matching q s (λ routing. same routing channel)

unfoldable pub count_matching : DeferredQueue → Bytes → Bytes → ℕ
unfolding bucket_of
count_matching q s routing = length (filter (λ e. same e.channel_hash routing) (bucket_of s q))
