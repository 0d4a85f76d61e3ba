-- ===== src/Deferred/Op.antt =====
-- The operations of the deferred queue (rfed/src/deferred_queue.rs) as one type, and runs of them
-- in any order, as the node's threads make them under the queue's lock.
use rfed.Base.{ℕ, List, [], ◌∷◌, Bytes, Bool}
use rfed.Deferred.State.{PendingBlob, DeferredQueue}
use rfed.Deferred.Enqueue.{enqueue}
use rfed.Deferred.Drain.{drain, drain_batch, drain_matching_batch}
use rfed.Deferred.Page.{take_page, settle_page}
use rfed.Deferred.Flush.{flush_copies, confirm, release}
use rfed.Deferred.Expiry.{evict_expired}

-- An enqueue comes with its limit, the clock and the rowid; an expiry with the clock and the age.
pub data Op : Type 0 where
  enqueues : Bytes → Bytes → Bytes → ℕ → ℕ → ℕ → Op
  drains : Bytes → Op
  drains_batch : Bytes → ℕ → Op
  drains_matching : Bytes → (Bytes → Bool) → ℕ → Op
  takes_page : Bytes → (Bytes → Bool) → ℕ → ℕ → (PendingBlob → ℕ) → Op
  settles_page : ℕ → Bool → Op
  flushes : Bytes → (Bytes → Bool) → Op
  confirms : Bytes → ℕ → Op
  releases : Bytes → ℕ → Op
  evicts_expired : ℕ → ℕ → Op

unfoldable pub step : DeferredQueue → Op → DeferredQueue
step q (enqueues s channel blob limit now id) = (enqueue q s channel blob limit now id).0
step q (drains s) = (drain q s).0
step q (drains_batch s max) = (drain_batch q s max).0
step q (drains_matching s wanted max) = (drain_matching_batch q s wanted max).0
step q (takes_page s wanted max budget cost) = (take_page q s wanted max budget cost).0
step q (settles_page id proved) = (settle_page q id proved).0
step q (flushes s wanted) = (flush_copies q s wanted).0
step q (confirms s t) = (confirm q s t).0
step q (releases s t) = (release q s t).0
step q (evicts_expired now max_age) = (evict_expired q now max_age).0

unfoldable pub run : DeferredQueue → List Op → DeferredQueue
run q [] = q
run q (op ∷ ops) = run (step q op) ops
