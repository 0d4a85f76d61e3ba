-- ===== src/Deferred/Fifo.antt =====
-- The drains of rfed/src/deferred_queue.rs on a subscriber's list: front first, order kept.
use rfed.Base.{
  ℕ, zero, suc, ◌≡◌, refl, sym, ◌∙◌, inl, inr, [], Bytes, bytes_dec, arith, Option-cases, take,
  drop,
}
use rfed.Dict
use rfed.Dict.{Dict, sum_by}
use rfed.Deferred.State.{PendingBlob, DeferredQueue, set_bucket, bucket_of}
use rfed.Deferred.Drain.{drain_batch}
use rfed.Deferred.Buckets.{OneBucket}
use rfed.Deferred.View.{
  updated, bucket_in-set_bucket, bucket_in-found, bucket_in-absent, drained-view,
}

-- With one bucket for each subscriber, a bounded drain returns the oldest entries and leaves the
-- others, in order; other subscribers keep their lists.
drain_batch-take :
    (q : DeferredQueue) (s : Bytes) (max : ℕ)
    → OneBucket q
    → let r = drain_batch q s max in
      (r.1 ≡ take max (bucket_of s q))
      × ((j : Bytes)
          → bucket_of j r.0 ≡ updated (λ i. bucket_of i q) s (drop max (bucket_of s q)) j)
unfolding drain_batch bucket_of
drain_batch-take q s max d = elim (Option-cases (Dict.find bytes_dec s q.queue)) [
  | inl absent ↦
      rw (absent, drain_batch)
        (
          rw (bucket_in-absent s q.queue absent) (sym (take_nil max)),
          λ j. ground (arith, bucket_in-absent s q.queue absent, drop_nil max),
        )
  | inr (bucket, found) ↦
      rw (found, drain_batch, bucket_in-found s q.queue bucket found)
        (
          refl,
          λ j.
              drained-view q (set_bucket s (drop max bucket) q.queue) (take max bucket) j
              ∙ bucket_in-set_bucket s q.queue d (drop max bucket) j,
        )
]
  where
    take_nil : (n : ℕ) → take {A = PendingBlob} n [] ≡ []
    take_nil zero = refl
    take_nil (suc n) = refl

    drop_nil : (n : ℕ) → drop {A = PendingBlob} n [] ≡ []
    drop_nil zero = refl
    drop_nil (suc n) = refl
