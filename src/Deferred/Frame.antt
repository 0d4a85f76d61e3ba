-- ===== src/Deferred/Frame.antt =====
-- What no operation of the deferred queue changes (rfed/src/deferred_queue.rs), and its counters.
use rfed.Base.{ℕ, ◌≡◌, ◌⊎◌, inl, inr, List, [], ◌∷◌, Bytes, bytes_dec, arith, Option-cases, take}
use rfed.Dict
use rfed.Dict.{Dict, sum_by}
use rfed.Deferred.State.{PendingBlob, DeferredQueue, increment}
use rfed.Deferred.Drain.{delete_rows, drained, drain, drain_batch, drain_matching_batch}
use rfed.Deferred.Enqueue.{admit, enqueue}
use rfed.Deferred.Page.{hold, take_page, put_back, settle_page}
use rfed.Deferred.Flush.{confirm_held, confirm, flush_copies, release}
use rfed.Deferred.Expiry.{evict_expired}
use rfed.Deferred.Op.{
  Op, enqueues, drains, drains_batch, drains_matching, takes_page, settles_page, flushes, confirms,
  releases, evicts_expired, step,
}

-- The limit stays, and a counter stays or goes one up.
pub record Frame (q q' : DeferredQueue) : Type 0 where
  pub limit : q'.global_limit ≡ q.global_limit
  pub tickets : (q'.next_ticket ≡ q.next_ticket) ⊎ (q'.next_ticket ≡ increment q.next_ticket)
  pub pages : (q'.next_page ≡ q.next_page) ⊎ (q'.next_page ≡ increment q.next_page)

drained-Frame :
    (q : DeferredQueue) (m : Dict Bytes (List PendingBlob)) (es : List PendingBlob)
    → Frame q (drained (record q { queue = m }) es)
unfolding drained delete_rows
drained-Frame q m [] = ground arith
drained-Frame q m (e ∷ es) = ground arith

confirm_held-Frame : (q : DeferredQueue) (s : Bytes) (t : ℕ) → Frame q (confirm_held q s t).0
unfolding confirm_held delete_rows
confirm_held-Frame q s t = ground arith

pub step-Frame : (q : DeferredQueue) (op : Op) → Frame q (step q op)
unfolding step enqueue admit drain drain_batch drain_matching_batch take_page hold settle_page
    delete_rows put_back flush_copies confirm confirm_held release evict_expired
step-Frame q (enqueues s channel blob limit now id) = ground arith
step-Frame q (drains s) = elim (Option-cases (Dict.find bytes_dec s q.queue)) [
  | inl absent ↦ rw (absent, step, drain) (ground arith)
  | inr (bucket, found) ↦ rw (found, step, drain) (drained-Frame q _ bucket)
]
step-Frame q (drains_batch s max) = elim (Option-cases (Dict.find bytes_dec s q.queue)) [
  | inl absent ↦ rw (absent, step, drain_batch) (ground arith)
  | inr (bucket, found) ↦ rw (found, step, drain_batch) (drained-Frame q _ (take max bucket))
]
step-Frame q (drains_matching s wanted max) = elim (Option-cases (Dict.find bytes_dec s q.queue)) [
  | inl absent ↦ rw (absent, step, drain_matching_batch) (ground arith)
  | inr (bucket, found) ↦ rw (found, step, drain_matching_batch) (drained-Frame q _ _)
]
step-Frame q (takes_page s wanted max budget cost) = ground arith
step-Frame q (settles_page id proved) = ground arith
step-Frame q (flushes s wanted) = ground arith
step-Frame q (confirms s t) = ground arith
step-Frame q (releases s t) = ground arith
step-Frame q (evicts_expired now max_age) = ground arith
