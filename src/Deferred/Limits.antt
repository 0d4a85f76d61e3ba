-- ===== src/Deferred/Limits.antt =====
-- The bound on the deferred queue (rfed/src/deferred_queue.rs, RFed SPEC §7 "Limits").
use rfed.Base.{max}
use rfed.Base.{
  ℕ, ◌+◌, ◌^◌, ◌≤◌, ◌<◌, ◌≡◌, refl, ap, ◌∙◌, inl, inr, List, [], ◌∷◌, some, Bytes, arith,
  Option-cases, length,
}
use rfed.Deferred.State.{
  PendingBlob, DeferredQueue, EnqueueOutcome, queued, queued_evicting_oldest,
  queued_evicting_fullest, refused_global_limit, total_len,
}
use rfed.Deferred.Enqueue.{Room, evict_fullest, room_elsewhere, make_room, enqueue, new_entry}
use rfed.Deferred.Op.{Op, enqueues, step, run}
use rfed.Deferred.Weight.{weight-total_len}
use rfed.Deferred.Pages.{PageIds, step-PageIds, increment-suc}
use rfed.Deferred.Frame.{step-Frame}
use rfed.Deferred.Conserve.Enqueue.{Enqueues, enqueue-Enqueues}
use rfed.Deferred.Steps.{weight-step-le}

-- Without an eviction there was room.
make_room-below :
    (q : DeferredQueue) (s : Bytes) (limit : ℕ) (room : Room)
    → make_room q s limit ≡ some room
    → room.outcome ≡ queued
    → total_len q < q.global_limit
unfolding make_room room_elsewhere evict_fullest
make_room-below q s limit room h e = ground arith

enqueue-below :
    (q : DeferredQueue) (s channel blob : Bytes) (limit now id : ℕ)
    → (enqueue q s channel blob limit now id).1 ≡ queued
    → total_len q < q.global_limit
unfolding enqueue
enqueue-below q s channel blob limit now id h = elim (Option-cases (make_room q s limit)) [
  | inl full ↦ absurd (ground arith)
  | inr (room, found) ↦ make_room-below q s limit room found (ground arith)
]

Enqueues-total_len :
    (q q' : DeferredQueue) (s : Bytes) (e : PendingBlob) (o : EnqueueOutcome)
    → Enqueues q q' s e o
    → (o ≡ queued → total_len q < q.global_limit)
    → total_len q' ≤ max (total_len q) q.global_limit
Enqueues-total_len q q' s e queued h below =
    omega (arith, h (λ _ _. 1), weight-total_len q, weight-total_len q', below refl)
Enqueues-total_len q q' s e (queued_evicting_oldest r) h below =
    omega (arith, h.2 (λ _ _. 1), weight-total_len q, weight-total_len q')
Enqueues-total_len q q' s e (queued_evicting_fullest v r) h below =
    omega (arith, h.2 (λ _ _. 1), weight-total_len q, weight-total_len q')
Enqueues-total_len q q' s e refused_global_limit h below = omega (arith, ap total_len h)

-- An enqueue never brings the queue over its global limit, and never makes a queue that stands over
-- it larger.
pub total_len-enqueue :
    (q : DeferredQueue) (s channel blob : Bytes) (limit now id : ℕ)
    → total_len (enqueue q s channel blob limit now id).0 ≤ max (total_len q) q.global_limit
total_len-enqueue q s channel blob limit now id =
    Enqueues-total_len q _ s (new_entry q channel blob now id) _
      (enqueue-Enqueues q s channel blob now id limit) (enqueue-below q s channel blob limit now id)

total_len-step :
    (q : DeferredQueue) (op : Op)
    → PageIds q
    → total_len (step q op) ≤ max (total_len q) q.global_limit
unfolding step
total_len-step q (enqueues s channel blob limit now id) v =
    total_len-enqueue q s channel blob limit now id
total_len-step q op v =
    omega
      (arith, weight-step-le (λ _ _. 1) q op v, weight-total_len q, weight-total_len (step q op))

next_page-step :
    (q : DeferredQueue) (op : Op)
    → q.next_page + 1 < 2 ^ 64
    → (step q op).next_page ≤ q.next_page + 1
next_page-step q op fits = ground (arith, step-Frame q op, increment-suc q.next_page)

-- Whatever operations are made, in whatever order, a queue within its global limit stays within it,
-- held pages counted, and the limit stays what it is; page ids must be distinct and issued, and not
-- reach 2 ^ 64.
pub total_len-run :
    (q : DeferredQueue) (ops : List Op)
    → PageIds q
    → q.next_page + length ops < 2 ^ 64
    → total_len q ≤ q.global_limit
    → (total_len (run q ops) ≤ q.global_limit) × ((run q ops).global_limit ≡ q.global_limit)
unfolding run
total_len-run q [] v fits within = (within, refl)
total_len-run q (op ∷ ops) v fits within =
    let frame = step-Frame q op in
    let up = next_page-step q op (omega arith) in
    let bound = total_len-step q op v in
    let rest =
      total_len-run (step q op) ops (step-PageIds q op (omega arith) v) (omega arith)
        (omega (arith, frame.limit)) in
    (omega (arith, rest.0, frame.limit), rest.1 ∙ frame.limit)
