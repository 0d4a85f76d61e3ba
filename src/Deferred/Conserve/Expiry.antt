-- ===== src/Deferred/Conserve/Expiry.antt =====
-- Expiry in rfed/src/deferred_queue.rs: what it counts is what it removes.
use rfed.Base.{
  ℕ, ◌+◌, ◌-◌, ◌≡◌, List, [], ◌∷◌, Bytes, same, arith, filter, ◌&&◌, if◌then◌else◌, is_empty,
}
use rfed.Dict.{Dict, sum_by}
use rfed.Deferred.State.{PendingBlob, DeferredQueue}
use rfed.Base.{bytes_cmp-eq}
use rfed.Deferred.Expiry.{
  fresh, stale, retain_fresh, expired_counts, bump_all, bump, key_cmp, Expired, evict_expired,
}
use rfed.Deferred.Weight.{weigh, weigh-filter, weigh_queue, weight}

-- The stale entries of every bucket, weighed with their subscribers.
abbrev pub weigh_stale : (Bytes → PendingBlob → ℕ) → ℕ → Dict Bytes (List PendingBlob) → ℕ
weigh_stale w threshold = sum_by (λ s bucket. weigh (w s) (filter (stale threshold) bucket))

weigh_queue-retain_fresh :
    (w : Bytes → PendingBlob → ℕ) (threshold : ℕ) (m : Dict Bytes (List PendingBlob))
    → weigh_queue w (retain_fresh threshold m) + weigh_stale w threshold m ≡ weigh_queue w m
unfolding retain_fresh
weigh_queue-retain_fresh w threshold [] = omega arith
weigh_queue-retain_fresh w threshold ((s, bucket) ∷ m) =
    keep (filter (fresh threshold) bucket) (weigh-filter (w s) (fresh threshold) bucket)
      (weigh_queue-retain_fresh w threshold m)
  where
    keep :
        (kept : List PendingBlob)
        → weigh (w s) kept + weigh (w s) (filter (stale threshold) bucket) ≡ weigh (w s) bucket
        → weigh_queue w (retain_fresh threshold m) + weigh_stale w threshold m ≡ weigh_queue w m
        → weigh_queue w (
              if is_empty kept
              then retain_fresh threshold m
              else (s, kept) ∷ retain_fresh threshold m)
            + weigh_stale w threshold ((s, bucket) ∷ m)
          ≡ weigh_queue w ((s, bucket) ∷ m)
    keep [] split rest = omega arith
    keep (e ∷ es) split rest = omega arith

-- Expiry takes the stale entries of the buckets, and nothing of the held pages.
pub weight-evict_expired :
    (w : Bytes → PendingBlob → ℕ) (q : DeferredQueue) (now max_age : ℕ)
    → weight w (evict_expired q now max_age).0 + weigh_stale w (now - max_age) q.queue ≡ weight w q
unfolding evict_expired
weight-evict_expired w q now max_age =
    omega (arith, weigh_queue-retain_fresh w (now - max_age) q.queue)

-- The counts of one subscriber and routing hash, summed.
abbrev pub counted : Bytes → Bytes → List Expired → ℕ
counted s r [] = 0
counted s r (x ∷ xs) =
    (if same x.subscriber_hash s && same x.routing_hash r then x.count else 0) + counted s r xs

-- Weight 1 on the entries of `s` that are routed to `r`.
abbrev pub routed : Bytes → Bytes → Bytes → PendingBlob → ℕ
routed s r s' e = if same s' s && same e.channel_hash r then 1 else 0

counted-bump :
    (s r s' r' : Bytes) (xs : List Expired)
    → counted s r (bump s' r' xs) ≡ counted s r xs + (if same s' s && same r' r then 1 else 0)
unfolding bump key_cmp
counted-bump s r s' r' [] = omega arith
counted-bump s r s' r' (x ∷ xs) = ground (
  arith,
  bytes_cmp-eq s' x.subscriber_hash,
  bytes_cmp-eq r' x.routing_hash,
  counted-bump s r s' r' xs,
)

counted-bump_all :
    (s r s' : Bytes) (es : List PendingBlob) (xs : List Expired)
    → counted s r (bump_all s' es xs) ≡ counted s r xs + weigh (routed s r s') es
unfolding bump_all
counted-bump_all s r s' [] xs = omega arith
counted-bump_all s r s' (e ∷ es) xs = omega (
  arith,
  counted-bump_all s r s' es (bump s' e.channel_hash xs),
  counted-bump s r s' e.channel_hash xs,
)

counted-expired_counts :
    (s r : Bytes) (threshold : ℕ) (m : Dict Bytes (List PendingBlob)) (xs : List Expired)
    → counted s r (expired_counts threshold m xs)
      ≡ counted s r xs + weigh_stale (routed s r) threshold m
unfolding expired_counts
counted-expired_counts s r threshold [] xs = omega arith
counted-expired_counts s r threshold ((s', bucket) ∷ m) xs = omega (
  arith,
  counted-expired_counts s r threshold m (bump_all s' (filter (stale threshold) bucket) xs),
  counted-bump_all s r s' (filter (stale threshold) bucket) xs,
)

-- What is stored after an expiry and what its report counts are together what was stored before,
-- for each subscriber and routing hash.
pub weight-counted :
    (q : DeferredQueue) (now max_age : ℕ) (s r : Bytes)
    → let out = evict_expired q now max_age in
      weight (routed s r) out.0 + counted s r out.1 ≡ weight (routed s r) q
unfolding evict_expired
weight-counted q now max_age s r = omega (
  arith,
  weigh_queue-retain_fresh (routed s r) (now - max_age) q.queue,
  counted-expired_counts s r (now - max_age) q.queue [],
)
