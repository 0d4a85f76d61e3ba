-- ===== src/Deferred/Matching.antt =====
-- `drain_matching_batch` of rfed/src/deferred_queue.rs: a pull that serves one kind of blob takes
-- only its own, and leaves the others in their order.
use rfed.Base.{
  ℕ, zero, suc, ◌+◌, ◌≡◌, refl, sym, ap, ◌∙◌, inl, inr, if_neg, List, [], ◌∷◌, ◌++◌, Bytes,
  bytes_dec, arith, Option-cases, Bool, filter, not, length, length-append, push-append,
  filter-push_in, filter-push_out, append-nil, take, drop,
}
use rfed.Dict
use rfed.Dict.{Dict, sum_by}
use rfed.Deferred.State.{PendingBlob, DeferredQueue, set_bucket, bucket_in, bucket_of}
use rfed.Deferred.Drain.{drained, Batch, batch_step, batch_loop, drain_matching_batch}
use rfed.Deferred.Buckets.{OneBucket}
use rfed.Deferred.View.{
  updated, bucket_in-set_bucket, bucket_in-found, bucket_in-absent, drained-view, updated_only,
}

module _ (wanted : Bytes → Bool) where
  abbrev pub matching : PendingBlob → Bool
  matching e = wanted e.channel_hash

  abbrev pub other : PendingBlob → Bool
  other e = not (wanted e.channel_hash)

  -- `b` has removed all but `n` of the `max` it may.
  batch_loop-removed :
      (max n : ℕ) (b : Batch) (es : List PendingBlob)
      → length b.removed + n ≡ max
      → (batch_loop wanted max b es).removed ≡ b.removed ++ take n (filter matching es)
  unfolding batch_loop batch_step
  batch_loop-removed max zero b [] h = sym (append-nil b.removed)
  batch_loop-removed max (suc n) b [] h = sym (append-nil b.removed)
  batch_loop-removed max zero b (e ∷ es) h = ground (
    arith,
    batch_loop-removed max zero (record b { kept = b.kept ++ e ∷ [] }) es h,
    append-nil b.removed,
  )
  batch_loop-removed max (suc n) b (e ∷ es) h = ground (
    arith,
    batch_loop-removed max (suc n) (record b { kept = b.kept ++ e ∷ [] }) es h,
    batch_loop-removed max n (record b { removed = b.removed ++ e ∷ [] }) es,
    length-append b.removed (e ∷ []),
    push-append b.removed e (take n (filter matching es)),
  )

  batch_loop-kept :
      (max n : ℕ) (b : Batch) (es : List PendingBlob)
      → length b.removed + n ≡ max
      → filter matching (batch_loop wanted max b es).kept
        ≡ filter matching b.kept ++ drop n (filter matching es)
  unfolding batch_loop batch_step
  batch_loop-kept max zero b [] h = sym (append-nil (filter matching b.kept))
  batch_loop-kept max (suc n) b [] h = sym (append-nil (filter matching b.kept))
  batch_loop-kept max zero b (e ∷ es) h = ground (
    arith,
    batch_loop-kept max zero (record b { kept = b.kept ++ e ∷ [] }) es h,
    filter-push_in matching b.kept e,
    filter-push_out matching b.kept e,
    push-append (filter matching b.kept) e (filter matching es),
  )
  batch_loop-kept max (suc n) b (e ∷ es) h = ground (
    arith,
    batch_loop-kept max (suc n) (record b { kept = b.kept ++ e ∷ [] }) es h,
    batch_loop-kept max n (record b { removed = b.removed ++ e ∷ [] }) es,
    length-append b.removed (e ∷ []),
    filter-push_out matching b.kept e,
  )

  batch_loop-other :
      (max : ℕ) (b : Batch) (es : List PendingBlob)
      → filter other (batch_loop wanted max b es).kept ≡ filter other b.kept ++ filter other es
  unfolding batch_loop batch_step
  batch_loop-other max b [] = sym (append-nil (filter other b.kept))
  batch_loop-other max b (e ∷ es) = ground (
    arith,
    batch_loop-other max (record b { kept = b.kept ++ e ∷ [] }) es,
    batch_loop-other max (record b { removed = b.removed ++ e ∷ [] }) es,
    filter-push_in other b.kept e,
    filter-push_out other b.kept e,
    push-append (filter other b.kept) e (filter other es),
  )

  filter-nil : (n : ℕ) → (take n (filter matching []) ≡ []) × (drop n (filter matching []) ≡ [])
  filter-nil zero = (refl, refl)
  filter-nil (suc n) = (refl, refl)

-- With one bucket for each subscriber, a matching drain returns the first `max` wanted entries in
-- order; what stays is the later wanted entries and all others, each in their order; other
-- subscribers keep their lists.
pub drain_matching_batch-take :
    (q : DeferredQueue) (s : Bytes) (wanted : Bytes → Bool) (max : ℕ)
    → OneBucket q
    → let r = drain_matching_batch q s wanted max in
      let old = bucket_of s q in
      (r.1 ≡ take max (filter (matching wanted) old))
      × (filter (matching wanted) (bucket_of s r.0) ≡ drop max (filter (matching wanted) old))
      × (filter (other wanted) (bucket_of s r.0) ≡ filter (other wanted) old)
      × ((j : Bytes) → bucket_of j r.0 ≡ updated (λ i. bucket_of i q) s (bucket_of s r.0) j)
unfolding drain_matching_batch bucket_of
drain_matching_batch-take q s wanted max d = elim (Option-cases (Dict.find bytes_dec s q.queue)) [
  | inl absent ↦
      rw (absent, drain_matching_batch, bucket_in-absent s q.queue absent)
        (
          sym (filter-nil wanted max).0,
          sym (filter-nil wanted max).1,
          refl,
          λ j. ground (arith, bucket_in-absent s q.queue absent),
        )
  | inr (bucket, found) ↦
      let start : Batch = record { removed = []; kept = [] } in
      let b = batch_loop wanted max start bucket in
      let m = set_bucket s b.kept q.queue in
      let at : (j : Bytes)
          → bucket_in j (drained (record q { queue = m }) b.removed).queue
            ≡ updated (λ i. bucket_in i q.queue) s b.kept j =
        λ j. drained-view q m b.removed j ∙ bucket_in-set_bucket s q.queue d b.kept j in
      rw (found, drain_matching_batch, bucket_in-found s q.queue bucket found)
        (
          batch_loop-removed wanted max max start bucket (omega arith),
          ap (filter (matching wanted)) (ground (arith, at s))
              ∙ batch_loop-kept wanted max max start bucket (omega arith),
          ap (filter (other wanted)) (ground (arith, at s))
              ∙ batch_loop-other wanted max start bucket,
          λ j.
              updated_only (λ i. bucket_in i q.queue)
                (λ i. bucket_in i (drained (record q { queue = m }) b.removed).queue) s j
                (λ ne. at j ∙ if_neg (bytes_dec s j) ne _ _),
        )
]
