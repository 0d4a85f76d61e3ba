-- ===== src/HandOff/Counts.antt =====
-- What the hand-offs of rfed/src/handoff.rs come to: which blobs are queued, who is woken, and how
-- many blobs a device may hold unwoken.
use rfed.Base.{
  ℕ, ◌+◌, ◌≡◌, refl, ◌≢◌, inl, inr, List, [], ◌∷◌, ◌++◌, Bytes, bytes_dec, same, length, filter,
  arith, ap, ◌∙◌, sym,
}
use rfed.Dict.{Dict}
use rfed.Deferred.State.{
  PendingBlob, DeferredQueue, EnqueueOutcome, queued, queued_evicting_oldest,
  queued_evicting_fullest, refused_global_limit, bucket_in, bucket_of,
}
use rfed.Deferred.Enqueue.{enqueue, new_entry}
use rfed.Deferred.Drain.{count_matching}
use rfed.Deferred.Buckets.{OneBucket}
use rfed.Deferred.View.{updated}
use rfed.Deferred.Admission.{Makes, enqueue-EnqueueView}
use rfed.HandOff.Route.{un_pulled_after}

abbrev count_in : Bytes → List PendingBlob → ℕ
count_in routing es = length (filter (λ e. same e.channel_hash routing) es)

count_in-push :
    (routing : Bytes) (es : List PendingBlob) (e : PendingBlob)
    → e.channel_hash ≡ routing
    → count_in routing (es ++ e ∷ []) ≡ count_in routing es + 1
count_in-push routing [] e h = ground arith
count_in-push routing (x ∷ es) e h = ground (arith, count_in-push routing es e h)

updated-hit :
    (view : Bytes → List PendingBlob) (s j : Bytes) (es : List PendingBlob)
    → s ≡ j
    → updated view s es j ≡ es
updated-hit view s j es e = ground arith

bucket_of-in : (s : Bytes) (q : DeferredQueue) → bucket_of s q ≡ bucket_in s q.queue
unfolding bucket_of
bucket_of-in s q = refl

updated-other :
    (view : Bytes → List PendingBlob) (s j : Bytes) (es : List PendingBlob)
    → s ≢ j
    → updated view s es j ≡ view j
updated-other view s j es other = ground arith

refused_same :
    (held : ℕ) (s routing : Bytes) → un_pulled_after held refused_global_limit s routing ≡ held
unfolding un_pulled_after
refused_same held s routing = refl

new_entry-channel :
    (q : DeferredQueue) (routing blob : Bytes) (now id : ℕ)
    → (new_entry q routing blob now id).channel_hash ≡ routing
unfolding new_entry
new_entry-channel q routing blob now id = refl

count_in-Makes :
    (q : DeferredQueue) (s routing : Bytes) (limit : ℕ) (m : Dict Bytes (List PendingBlob))
    (o : EnqueueOutcome)
    → Makes q s limit m o
    → o ≢ refused_global_limit
    → count_in routing (bucket_in s m) + 1
      ≡ un_pulled_after (count_in routing (bucket_of s q)) o s routing
unfolding un_pulled_after
count_in-Makes q s routing limit m queued room other =
    ap (λ (x : Dict Bytes (List PendingBlob)). count_in routing (bucket_in s x) + 1) room.2
    ∙ ap (λ (x : List PendingBlob). count_in routing x + 1) (sym (bucket_of-in s q))
count_in-Makes q s routing limit m (queued_evicting_oldest r) room other =
    let (full, (old, rest, before, routed, lists)) = room in
    let left = lists s ∙ updated-hit (λ i. bucket_of i q) s s rest refl in
    ground (arith, ap (count_in routing) left, ap (count_in routing) before, routed)
count_in-Makes q s routing limit m (queued_evicting_fullest v r) room other =
    let (own, full, (old, rest, most, routed, lists)) = room in
    elim (bytes_dec v s) [
      | yes e ↦
          let before =
            bucket_of-in s q ∙ ap (λ (x : Bytes). bucket_in x q.queue) (sym e) ∙ most.front in
          ground (
            arith,
            ap (count_in routing) (lists s ∙ updated-hit (λ i. bucket_of i q) v s rest e),
            ap (count_in routing) before,
            routed,
          )
      | no ne ↦
          ground (
            arith,
            ap (count_in routing) (lists s ∙ updated-other (λ i. bucket_of i q) v s rest ne),
          )
    ]
count_in-Makes q s routing limit m refused_global_limit room other = absurd (other refl)

-- With one bucket for each subscriber, the count of a device's queued blobs of a distribution list
-- after an enqueue is what the hand-off makes of the count before and the outcome, whatever the
-- enqueue evicted.
pub count_matching-enqueue :
    (q : DeferredQueue) (s routing blob : Bytes) (limit now id : ℕ)
    → OneBucket q
    → let r = enqueue q s routing blob limit now id in
      count_matching r.0 s routing ≡ un_pulled_after (count_matching q s routing) r.1 s routing
unfolding count_matching
count_matching-enqueue q s routing blob limit now id d =
    let (m, view) = enqueue-EnqueueView q s routing blob limit now id d in
    let r = enqueue q s routing blob limit now id in
    let e = new_entry q routing blob now id in
    elim view.after [
      | inl (refusal, unchanged) ↦
          ap (λ (x : DeferredQueue). count_in routing (bucket_of s x)) unchanged
          ∙ sym (
              ap
                (λ (o : EnqueueOutcome).
                  un_pulled_after (count_in routing (bucket_of s q)) o s routing)
                refusal
              ∙ refused_same (count_in routing (bucket_of s q)) s routing)
      | inr (other, at) ↦
          ap (count_in routing)
            (at s ∙ updated-hit (λ i. bucket_in i m) s s (bucket_in s m ++ e ∷ []) refl)
          ∙ count_in-push routing (bucket_in s m) e (new_entry-channel q routing blob now id)
          ∙ count_in-Makes q s routing limit m r.1 view.room other
    ]
