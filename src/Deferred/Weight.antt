-- ===== src/Deferred/Weight.antt =====
-- A weight on the entries of the deferred queue, and what the queue's maps weigh. With a weight of
-- 1 that counts entries, with a weight of 1 on one ticket it finds a ticket: what conserves every
-- weight neither loses nor copies nor moves an entry to another subscriber.
use rfed.Base.{
  ℕ, ◌+◌, ◌≡◌, refl, List, [], ◌∷◌, ◌++◌, some, Bytes, bytes_dec, arith, inl, inr, Option-cases,
  Bool, filter, not, length,
}
use rfed.Dict
use rfed.Dict.{Dict, sum_by}
use rfed.Deferred.State.{PendingBlob, HeldPage, DeferredQueue, set_bucket, push_back, total_len}

abbrev pub weigh : (PendingBlob → ℕ) → List PendingBlob → ℕ
weigh f [] = 0
weigh f (e ∷ es) = f e + weigh f es

pub weigh-append :
    (f : PendingBlob → ℕ) (xs ys : List PendingBlob) → weigh f (xs ++ ys) ≡ weigh f xs + weigh f ys
weigh-append f [] ys = omega arith
weigh-append f (x ∷ xs) ys = omega (arith, weigh-append f xs ys)

pub weigh-filter :
    (f : PendingBlob → ℕ) (keep : PendingBlob → Bool) (xs : List PendingBlob)
    → weigh f (filter keep xs) + weigh f (filter (λ e. not (keep e)) xs) ≡ weigh f xs
weigh-filter f keep [] = omega arith
weigh-filter f keep (x ∷ xs) = ground (arith, weigh-filter f keep xs)

module _ (w : Bytes → PendingBlob → ℕ) where
  abbrev pub weigh_queue : Dict Bytes (List PendingBlob) → ℕ
  weigh_queue = sum_by (λ s bucket. weigh (w s) bucket)

  abbrev pub weigh_held : Dict ℕ HeldPage → ℕ
  weigh_held = sum_by (λ _ page. weigh (w page.subscriber_hash) page.blobs)

  -- Everything stored: the buckets, and the pages that pulls hold.
  abbrev pub weight : DeferredQueue → ℕ
  weight q = weigh_queue q.queue + weigh_held q.held

  pub weigh_queue-set_bucket :
      (s : Bytes) (old new : List PendingBlob) (m : Dict Bytes (List PendingBlob))
      → Dict.find bytes_dec s m ≡ some old
      → weigh_queue (set_bucket s new m) + weigh (w s) old ≡ weigh_queue m + weigh (w s) new
  unfolding set_bucket
  weigh_queue-set_bucket s old [] m h =
      omega (arith, Dict.sum_by-remove bytes_dec (λ s bucket. weigh (w s) bucket) s old m h)
  weigh_queue-set_bucket s old (e ∷ es) m h =
      Dict.sum_by-put bytes_dec (λ s bucket. weigh (w s) bucket) s (e ∷ es) old m h

  pub weigh_queue-push_back :
      (s : Bytes) (e : PendingBlob) (m : Dict Bytes (List PendingBlob))
      → weigh_queue (push_back s e m) ≡ weigh_queue m + w s e
  unfolding push_back
  weigh_queue-push_back s e m = elim (Option-cases (Dict.find bytes_dec s m)) [
    | inl absent ↦
        rw (absent, push_back)
          (omega (
            arith,
            Dict.sum_by-put_new bytes_dec (λ s bucket. weigh (w s) bucket) s (e ∷ []) m absent,
          ))
    | inr (bucket, found) ↦
        rw (found, push_back)
          (omega (
            arith,
            Dict.sum_by-put bytes_dec (λ s bucket. weigh (w s) bucket) s (bucket ++ e ∷ []) bucket m
                found,
            weigh-append (w s) bucket (e ∷ []),
          ))
  ]

weigh-length : (es : List PendingBlob) → weigh (λ _. 1) es ≡ length es
weigh-length [] = refl
weigh-length (e ∷ es) = omega (arith, weigh-length es)

pub weigh_queue-length :
    (m : Dict Bytes (List PendingBlob))
    → weigh_queue (λ _ _. 1) m ≡ sum_by (λ _ bucket. length bucket) m
weigh_queue-length [] = refl
weigh_queue-length ((s, bucket) ∷ m) = omega (arith, weigh_queue-length m, weigh-length bucket)

weigh_held-length :
    (m : Dict ℕ HeldPage) → weigh_held (λ _ _. 1) m ≡ sum_by (λ _ page. length page.blobs) m
weigh_held-length [] = refl
weigh_held-length ((id, page) ∷ m) = omega (arith, weigh_held-length m, weigh-length page.blobs)

-- The weight that counts entries is the queue's own count.
pub weight-total_len : (q : DeferredQueue) → weight (λ _ _. 1) q ≡ total_len q
unfolding total_len
weight-total_len q = omega (arith, weigh_queue-length q.queue, weigh_held-length q.held)
