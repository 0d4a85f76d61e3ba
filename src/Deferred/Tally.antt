-- ===== src/Deferred/Tally.antt =====
-- `enqueue_all` and `EnqueueTally` of rfed/src/deferred_queue.rs: the tally accounts for every blob.
use rfed.Base.{ℕ, suc, ◌+◌, ◌≡◌, ap, List, [], ◌∷◌, Bytes, length, arith}
use rfed.Deferred.State.{
  PendingBlob, EnqueueOutcome, queued, queued_evicting_oldest, queued_evicting_fullest,
  refused_global_limit, DeferredQueue, total_len,
}
use rfed.Deferred.Enqueue.{enqueue, new_entry, EnqueueTally, add, Item, enqueue_each, enqueue_all}
use rfed.Deferred.Weight.{weight-total_len}
use rfed.Deferred.Conserve.Enqueue.{Enqueues, enqueue-Enqueues}

abbrev evictions : EnqueueTally → ℕ
evictions t = t.evicted + t.evicted_fullest

Enqueues-add :
    (q q' : DeferredQueue) (s : Bytes) (e : PendingBlob) (o : EnqueueOutcome) (t : EnqueueTally)
    → Enqueues q q' s e o
    → (total_len q' + evictions (add t o) + t.queued ≡ total_len q + evictions t + (add t o).queued)
      × ((add t o).queued + (add t o).refused ≡ suc (t.queued + t.refused))
unfolding add
Enqueues-add q q' s e queued t h =
    (omega (arith, h (λ _ _. 1), weight-total_len q, weight-total_len q'), omega arith)
Enqueues-add q q' s e (queued_evicting_oldest r) t h =
    (omega (arith, h.2 (λ _ _. 1), weight-total_len q, weight-total_len q'), omega arith)
Enqueues-add q q' s e (queued_evicting_fullest v r) t h =
    (omega (arith, h.2 (λ _ _. 1), weight-total_len q, weight-total_len q'), omega arith)
Enqueues-add q q' s e refused_global_limit t h = (omega (arith, ap total_len h), omega arith)

enqueue_each-tally :
    (t : EnqueueTally) (q : DeferredQueue) (s : Bytes) (limit : ℕ) (items : List Item)
    → let r = enqueue_each t q s limit items in
      (total_len r.0 + evictions r.1 + t.queued ≡ total_len q + evictions t + r.1.queued)
      × (r.1.queued + r.1.refused ≡ t.queued + t.refused + length items)
unfolding enqueue_each
enqueue_each-tally t q s limit [] = (omega arith, omega arith)
enqueue_each-tally t q s limit (i ∷ items) =
    let one = enqueue q s i.routing_hash i.blob limit i.now i.id in
    let here =
      Enqueues-add q one.0 s (new_entry q i.routing_hash i.blob i.now i.id) one.1 t
        (enqueue-Enqueues q s i.routing_hash i.blob i.now i.id limit) in
    let rest = enqueue_each-tally (add t one.1) one.0 s limit items in
    (omega (arith, here.0, rest.0), omega (arith, here.1, rest.1))

-- The tally of `enqueue_all` counts each blob once, as queued or as refused, and what the queue has
-- gained is what was queued less what was evicted.
enqueue_all-tally :
    (q : DeferredQueue) (s : Bytes) (limit : ℕ) (items : List Item)
    → let r = enqueue_all q s limit items in
      (r.1.queued + r.1.refused ≡ length items)
      × (total_len r.0 + (r.1.evicted + r.1.evicted_fullest) ≡ total_len q + r.1.queued)
unfolding enqueue_all
enqueue_all-tally q s limit items =
    let h =
      enqueue_each-tally (record { queued = 0; evicted = 0; evicted_fullest = 0; refused = 0 }) q s
        limit items in
    (omega (arith, h.1), omega (arith, h.0))
