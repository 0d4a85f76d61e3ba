-- ===== src/Deferred/Conserve/Drain.antt =====
-- The drains of rfed/src/deferred_queue.rs take out what they return.
use rfed.Base.{
  ℕ, ◌+◌, ◌≡◌, refl, List, [], ◌∷◌, some, Bytes, bytes_dec, arith, inl, inr, Option-cases, Bool,
  take, drop, take-append-drop, ap,
}
use rfed.Dict
use rfed.Deferred.State.{PendingBlob, DeferredQueue, set_bucket}
use rfed.Deferred.Drain.{
  delete_rows, drained, drain, drain_batch, Batch, batch_step, batch_loop, drain_matching_batch,
}
use rfed.Deferred.Weight.{weigh, weigh-append, weight, weigh_queue-set_bucket}

module _ (w : Bytes → PendingBlob → ℕ) where
  pub weight-delete_rows :
      (q : DeferredQueue) (removed : List PendingBlob)
      → weight w (delete_rows q removed) ≡ weight w q
  unfolding delete_rows
  weight-delete_rows q removed = refl

  pub weight-drained :
      (q : DeferredQueue) (removed : List PendingBlob) → weight w (drained q removed) ≡ weight w q
  unfolding drained
  weight-drained q [] = refl
  weight-drained q (e ∷ es) = weight-delete_rows q (e ∷ es)

  pub weight-drain :
      (q : DeferredQueue) (s : Bytes)
      → weight w (drain q s).0 + weigh (w s) (drain q s).1 ≡ weight w q
  unfolding drain
  weight-drain q s = elim (Option-cases (Dict.find bytes_dec s q.queue)) [
    | inl absent ↦ rw (absent, drain) (omega arith)
    | inr (bucket, found) ↦
        rw (found, drain)
          (omega (
            arith,
            weight-drained (record q { queue = Dict.remove bytes_dec s q.queue }) bucket,
            Dict.sum_by-remove bytes_dec (λ s bucket. weigh (w s) bucket) s bucket q.queue found,
          ))
  ]

  pub weight-drain_batch :
      (q : DeferredQueue) (s : Bytes) (max : ℕ)
      → weight w (drain_batch q s max).0 + weigh (w s) (drain_batch q s max).1 ≡ weight w q
  unfolding drain_batch
  weight-drain_batch q s max = elim (Option-cases (Dict.find bytes_dec s q.queue)) [
    | inl absent ↦ rw (absent, drain_batch) (omega arith)
    | inr (bucket, found) ↦
        rw (found, drain_batch)
          (omega (
            arith,
            weight-drained (record q { queue = set_bucket s (drop max bucket) q.queue })
                (take max bucket),
            weigh_queue-set_bucket w s bucket (drop max bucket) q.queue found,
            weigh-append (w s) (take max bucket) (drop max bucket),
            ap (weigh (w s)) (take-append-drop max bucket),
          ))
  ]

  weigh-batch_step :
      (s : Bytes) (wanted : Bytes → Bool) (max : ℕ) (b : Batch) (e : PendingBlob)
      → let c = batch_step wanted max b e in
        weigh (w s) c.removed + weigh (w s) c.kept
        ≡ weigh (w s) b.removed + weigh (w s) b.kept + w s e
  unfolding batch_step
  weigh-batch_step s wanted max b e =
      ground (arith, weigh-append (w s) b.removed (e ∷ []), weigh-append (w s) b.kept (e ∷ []))

  weigh-batch_loop :
      (s : Bytes) (wanted : Bytes → Bool) (max : ℕ) (b : Batch) (es : List PendingBlob)
      → let c = batch_loop wanted max b es in
        weigh (w s) c.removed + weigh (w s) c.kept
        ≡ weigh (w s) b.removed + weigh (w s) b.kept + weigh (w s) es
  unfolding batch_loop
  weigh-batch_loop s wanted max b [] = omega arith
  weigh-batch_loop s wanted max b (e ∷ es) = omega (
    arith,
    weigh-batch_loop s wanted max (batch_step wanted max b e) es,
    weigh-batch_step s wanted max b e,
  )

  pub weight-drain_matching_batch :
      (q : DeferredQueue) (s : Bytes) (wanted : Bytes → Bool) (max : ℕ)
      → weight w (drain_matching_batch q s wanted max).0
          + weigh (w s) (drain_matching_batch q s wanted max).1
        ≡ weight w q
  unfolding drain_matching_batch
  weight-drain_matching_batch q s wanted max = elim (Option-cases (Dict.find bytes_dec s q.queue)) [
    | inl absent ↦ rw (absent, drain_matching_batch) (omega arith)
    | inr (bucket, found) ↦ rw (found, drain_matching_batch) (part bucket found)
  ]
    where
      part :
          (bucket : List PendingBlob)
          → Dict.find bytes_dec s q.queue ≡ some bucket
          → let b = batch_loop wanted max (record { removed = []; kept = [] }) bucket in
            weight w (drained (record q { queue = set_bucket s b.kept q.queue }) b.removed)
              + weigh (w s) b.removed
            ≡ weight w q
      part bucket found =
          let b = batch_loop wanted max (record { removed = []; kept = [] }) bucket in
          omega (
            arith,
            weight-drained (record q { queue = set_bucket s b.kept q.queue }) b.removed,
            weigh_queue-set_bucket w s bucket b.kept q.queue found,
            weigh-batch_loop s wanted max (record { removed = []; kept = [] }) bucket,
          )
