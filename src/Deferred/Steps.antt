-- ===== src/Deferred/Steps.antt =====
-- What one operation of the deferred queue (rfed/src/deferred_queue.rs) does to every weight: an
-- enqueue adds its entry, and nothing else adds anything.
use rfed.Base.{ℕ, ◌+◌, ◌≤◌, ap, inl, inr, Bytes, ℕ_discrete, arith, Option-cases, Bool, true, false}
use rfed.Dict
use rfed.Dict.{Dict, sum_by}
use rfed.Deferred.State.{
  PendingBlob, DeferredQueue, EnqueueOutcome, queued, queued_evicting_oldest,
  queued_evicting_fullest, refused_global_limit,
}
use rfed.Deferred.Enqueue.{new_entry}
use rfed.Deferred.Page.{settle_page}
use rfed.Deferred.Flush.{flush_copies, confirm, release}
use rfed.Deferred.Op.{
  Op, enqueues, drains, drains_batch, drains_matching, takes_page, settles_page, flushes, confirms,
  releases, evicts_expired, step,
}
use rfed.Deferred.Weight.{weight}
use rfed.Deferred.Pages.{PageIds}
use rfed.Deferred.Conserve.Drain.{weight-drain, weight-drain_batch, weight-drain_matching_batch}
use rfed.Deferred.Conserve.Page.{
  weight-take_page, weight-settle_page_unproved, weight-settle_page_proved,
}
use rfed.Deferred.Conserve.Flush.{Takes, confirm-Takes}
use rfed.Deferred.Conserve.Enqueue.{Enqueues, enqueue-Enqueues}
use rfed.Deferred.Conserve.Expiry.{weight-evict_expired}

-- The entry that an operation may add, and for whom.
abbrev pub added : (Bytes → PendingBlob → ℕ) → DeferredQueue → Op → ℕ
added w q (enqueues s channel blob limit now id) = w s (new_entry q channel blob now id)
added w q _ = 0

module _ (w : Bytes → PendingBlob → ℕ) where
  Enqueues-le :
      (q q' : DeferredQueue) (s : Bytes) (e : PendingBlob) (o : EnqueueOutcome)
      → Enqueues q q' s e o
      → weight w q' ≤ weight w q + w s e
  Enqueues-le q q' s e queued h = omega (arith, h w)
  Enqueues-le q q' s e (queued_evicting_oldest r) h = omega (arith, h.2 w)
  Enqueues-le q q' s e (queued_evicting_fullest v r) h = omega (arith, h.2 w)
  Enqueues-le q q' s e refused_global_limit h = omega (arith, ap (weight w) h)

  Takes-le :
      (q q' : DeferredQueue) (s : Bytes) (t : ℕ) (b : Bool)
      → Takes q q' s t b
      → weight w q' ≤ weight w q
  Takes-le q q' s t true h = omega (arith, h.2 w)
  Takes-le q q' s t false h = omega (arith, h w)

  settle_page-le :
      (q : DeferredQueue) (id : ℕ) (proved : Bool)
      → weight w (settle_page q id proved).0 ≤ weight w q
  unfolding settle_page
  settle_page-le q id false = omega (arith, weight-settle_page_unproved w q id)
  settle_page-le q id true = elim (Option-cases (Dict.find ℕ_discrete id q.held)) [
    | inl absent ↦ rw (absent, settle_page) (omega arith)
    | inr (page, found) ↦ omega (arith, weight-settle_page_proved w q id page found)
  ]

  pub weight-step-le :
      (q : DeferredQueue) (op : Op) → PageIds q → weight w (step q op) ≤ weight w q + added w q op
  unfolding step flush_copies release
  weight-step-le q (enqueues s channel blob limit now id) v =
      Enqueues-le q _ s (new_entry q channel blob now id) _
        (enqueue-Enqueues q s channel blob now id limit)
  weight-step-le q (drains s) v = omega (arith, weight-drain w q s)
  weight-step-le q (drains_batch s max) v = omega (arith, weight-drain_batch w q s max)
  weight-step-le q (drains_matching s wanted max) v =
      omega (arith, weight-drain_matching_batch w q s wanted max)
  weight-step-le q (takes_page s wanted max budget cost) v =
      omega (arith, weight-take_page w s wanted max budget cost q (v.1 q.next_page (omega arith)))
  weight-step-le q (settles_page id proved) v = omega (arith, settle_page-le q id proved)
  weight-step-le q (flushes s wanted) v = omega arith
  weight-step-le q (confirms s t) v =
      omega (arith, Takes-le q (confirm q s t).0 s t (confirm q s t).1 (confirm-Takes q s t))
  weight-step-le q (releases s t) v = omega arith
  weight-step-le q (evicts_expired now max_age) v =
      omega (arith, weight-evict_expired w q now max_age)
