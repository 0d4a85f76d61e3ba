-- ===== src/Fanout/Expired.antt =====
-- What `FanoutPlan` of rfed/src/fanout.rs drops.
use rfed.Base.{
  ℕ, zero, suc, length-filter_le, ◌≤◌, ◌≡◌, refl, List, [], ◌∷◌, Bytes, bytes_dec, same, Bool, true,
  false, not, ◌||◌, if◌then◌else◌, mem, length, filter, drop, arith, same_refl, Bool-cases, inl,
  inr, ap, ◌∙◌, sym, subst,
}
use rfed.Deferred.State.{PendingBlob, DeferredQueue, bucket_of}
use rfed.Deferred.Drain.{drain_matching_batch, drain_channel_batch}
use rfed.Deferred.Buckets.{OneBucket, step-OneBucket}
use rfed.Deferred.Op.{drains_matching, step}
use rfed.Deferred.Matching.{matching, other, drain_matching_batch-take}
use rfed.Fanout.Plan.{usize_max, drop_expired}

drop-all : (n : ℕ) (es : List PendingBlob) → length es ≤ n → drop n es ≡ []
drop-all zero [] h = refl
drop-all (suc n) [] h = refl
drop-all zero (e ∷ es) h = absurd (omega (arith, h))
drop-all (suc n) (e ∷ es) h = drop-all n es (omega (arith, h))

abbrev on_channel : Bytes → Bytes → Bool
on_channel channel routing = same routing channel

-- The entries that are for other channels.
abbrev pub elsewhere : Bytes → List PendingBlob → List PendingBlob
elsewhere channel = filter (λ e. not (same e.channel_hash channel))

elsewhere-all :
    (channel : Bytes) (es : List PendingBlob)
    → filter (λ e. same e.channel_hash channel) es ≡ []
    → elsewhere channel es ≡ es
elsewhere-all channel [] h = refl
elsewhere-all channel (e ∷ es) h = ground (arith, elsewhere-all channel es)

elsewhere-twice :
    (channel : Bytes) (es : List PendingBlob)
    → elsewhere channel (elsewhere channel es) ≡ elsewhere channel es
elsewhere-twice channel [] = refl
elsewhere-twice channel (e ∷ es) = ground (arith, elsewhere-twice channel es)

-- Every bucket is short of what a `usize` counts.
abbrev pub Short : DeferredQueue → Type 0
Short q = (j : Bytes) → length (bucket_of j q) ≤ usize_max

module _ (q : DeferredQueue) (channel sub : Bytes) (d : OneBucket q) (short : Short q) where
  abbrev after : DeferredQueue
  after = (drain_matching_batch q sub (on_channel channel) usize_max).0

  after-OneBucket : OneBucket after
  unfolding step
  after-OneBucket = step-OneBucket q (drains_matching sub (on_channel channel) usize_max) d

  own_bucket : bucket_of sub after ≡ elsewhere channel (bucket_of sub q)
  own_bucket =
      let r = drain_matching_batch-take q sub (on_channel channel) usize_max d in
      sym (
        elsewhere-all channel (bucket_of sub after) (r.1 ∙ drop-all usize_max _ (fits (short sub))))
      ∙ r.2
    where
      fits :
          length (bucket_of sub q) ≤ usize_max
          → length (filter (matching (on_channel channel)) (bucket_of sub q)) ≤ usize_max
      fits h = omega (arith, h, length-filter_le (matching (on_channel channel)) (bucket_of sub q))

  one_dropped :
      (j : Bytes)
      → bucket_of j after
        ≡ (if same sub j then elsewhere channel (bucket_of j q) else bucket_of j q)
  one_dropped j =
      let r = drain_matching_batch-take q sub (on_channel channel) usize_max d in
      elim (bytes_dec sub j) [
        | yes e ↦
            subst
              (λ (x : Bytes).
                bucket_of x after
                ≡ (if same sub x then elsewhere channel (bucket_of x q) else bucket_of x q))
              e
              (own_bucket
                ∙ ap
                    (λ (b : Bool).
                      if b then elsewhere channel (bucket_of sub q) else bucket_of sub q)
                    (sym (same_refl sub)))
        | no ne ↦ ground (arith, r.3 j)
      ]

  after-Short : Short after
  after-Short j = elim (Bool-cases (same sub j)) [
    | inl own ↦ ground (
      arith,
      ap length (one_dropped j),
      length-filter_le (λ e. not (same e.channel_hash channel)) (bucket_of j q),
      short j,
    )
    | inr other ↦ ground (arith, ap length (one_dropped j), short j)
  ]

drops-again :
    (channel : Bytes) (es : List PendingBlob) (now later : Bool)
    → (if later
        then elsewhere channel (if now then elsewhere channel es else es)
        else (if now then elsewhere channel es else es))
      ≡ (if now || later then elsewhere channel es else es)
drops-again channel es true true = elsewhere-twice channel es
drops-again channel es true false = refl
drops-again channel es false true = refl
drops-again channel es false false = refl

-- With one bucket for each subscriber and no bucket longer than a `usize` counts: what every expired
-- subscriber had queued on the channel is dropped, however many there are, and everything else stays
-- in its order: their entries for other channels, and all of everybody else's.
pub drop_expired-elsewhere :
    (q : DeferredQueue) (subs : List Bytes) (channel j : Bytes)
    → OneBucket q
    → Short q
    → bucket_of j (drop_expired q subs channel)
      ≡ (if mem j subs then elsewhere channel (bucket_of j q) else bucket_of j q)
unfolding drop_expired drain_channel_batch
drop_expired-elsewhere q [] channel j d short = refl
drop_expired-elsewhere q (sub ∷ subs) channel j d short =
    drop_expired-elsewhere (after q channel sub d short) subs channel j
      (after-OneBucket q channel sub d short) (after-Short q channel sub d short)
    ∙ ap (λ (es : List PendingBlob). if mem j subs then elsewhere channel es else es)
        (one_dropped q channel sub d short j)
    ∙ drops-again channel (bucket_of j q) (same sub j) (mem j subs)
