-- ===== src/Deferred/View.antt =====
-- The deferred queue of rfed/src/deferred_queue.rs as what it promises: for each subscriber, a list
-- of entries, oldest first. The map, its order and its empty buckets are not seen.
use rfed.Base.{
  ◌≡◌, refl, sym, ap, ◌∙◌, ◌≢◌, inl, inr, ite, if_pos, if_neg, List, [], ◌∷◌, ◌++◌, none, some,
  Bytes, bytes_dec, arith, Option-cases,
}
use rfed.Dict
use rfed.Dict.{Dict, sum_by}
use rfed.Deferred.State.{PendingBlob, DeferredQueue, set_bucket, push_back, bucket_in, bucket_of}
use rfed.Deferred.Drain.{delete_rows, drained}

-- One subscriber's list replaced.
abbrev pub updated :
    (Bytes → List PendingBlob) → Bytes → List PendingBlob → Bytes → List PendingBlob
updated view s es j = ite (bytes_dec s j) es (view j)

module _ (s : Bytes) (m : Dict Bytes (List PendingBlob)) where
  pub bucket_in-put :
      (es : List PendingBlob) (j : Bytes)
      → bucket_in j (Dict.put bytes_dec s es m) ≡ updated (λ i. bucket_in i m) s es j
  unfolding bucket_in
  bucket_in-put es j = ground (arith, Dict.find-put bytes_dec s j es m)

  pub bucket_in-remove :
      Dict.Distinct bytes_dec m
      → (j : Bytes) → bucket_in j (Dict.remove bytes_dec s m) ≡ updated (λ i. bucket_in i m) s [] j
  unfolding bucket_in
  bucket_in-remove d j =
      ground (arith, Dict.find-remove_self bytes_dec s m d, Dict.find-remove_ne bytes_dec s j m)

  pub bucket_in-set_bucket :
      Dict.Distinct bytes_dec m
      → (es : List PendingBlob) (j : Bytes)
      → bucket_in j (set_bucket s es m) ≡ updated (λ i. bucket_in i m) s es j
  unfolding set_bucket
  bucket_in-set_bucket d [] j = bucket_in-remove d j
  bucket_in-set_bucket d (e ∷ es) j = bucket_in-put (e ∷ es) j

  pub bucket_in-push_back :
      (e : PendingBlob) (j : Bytes)
      → bucket_in j (push_back s e m) ≡ updated (λ i. bucket_in i m) s (bucket_in s m ++ e ∷ []) j
  unfolding push_back bucket_in
  bucket_in-push_back e j = elim (Option-cases (Dict.find bytes_dec s m)) [
    | inl absent ↦
        rw (absent, push_back, bucket_in) (ground (arith, Dict.find-put bytes_dec s j (e ∷ []) m))
    | inr (bucket, found) ↦
        rw (found, push_back, bucket_in)
          (ground (arith, Dict.find-put bytes_dec s j (bucket ++ e ∷ []) m))
  ]

pub bucket_in-found :
    (s : Bytes) (m : Dict Bytes (List PendingBlob)) (bucket : List PendingBlob)
    → Dict.find bytes_dec s m ≡ some bucket
    → bucket_in s m ≡ bucket
unfolding bucket_in
bucket_in-found s m bucket h = rw (h, bucket_in)

pub bucket_in-absent :
    (s : Bytes) (m : Dict Bytes (List PendingBlob))
    → Dict.find bytes_dec s m ≡ none
    → bucket_in s m ≡ []
unfolding bucket_in
bucket_in-absent s m h = rw (h, bucket_in)

pub drained-view :
    (q : DeferredQueue) (m : Dict Bytes (List PendingBlob)) (es : List PendingBlob) (j : Bytes)
    → bucket_of j (drained (record q { queue = m }) es) ≡ bucket_in j m
unfolding drained delete_rows bucket_of
drained-view q m [] j = refl
drained-view q m (e ∷ es) j = refl

-- What changes one list at most, in one equation.
pub updated_only :
    (view changed : Bytes → List PendingBlob) (s j : Bytes)
    → (s ≢ j → changed j ≡ view j)
    → changed j ≡ updated view s (changed s) j
updated_only view changed s j h = elim (bytes_dec s j) [
  | yes p ↦ ap changed (sym p) ∙ sym (if_pos (bytes_dec s j) p _ _)
  | no p ↦ h p ∙ sym (if_neg (bytes_dec s j) p _ _)
]

-- Writing a bucket back unchanged is not seen.
pub updated_self :
    (s j : Bytes) (m : Dict Bytes (List PendingBlob))
    → updated (λ i. bucket_in i m) s (bucket_in s m) j ≡ bucket_in j m
updated_self s j m = ground arith
