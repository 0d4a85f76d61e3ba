-- ===== src/Deferred/State.antt =====
-- The deferred queue's data (rfed/src/deferred_queue.rs). Times are natural numbers, read from the
-- clock by the caller of each operation; row ids are 0 where nothing was stored.
use rfed.Base.{
  ℕ, ◌+◌, ◌%◌, ◌^◌, List, [], ◌∷◌, ◌++◌, none, some, Bytes, bytes_dec, length, is_empty,
  if◌then◌else◌,
}
use rfed.Dict
use rfed.Dict.{Dict, sum_by}
use rfed.Store.{Db}

pub record PendingBlob : Type 0 where
  pub channel_hash : Bytes
  pub blob : Bytes
  pub enqueued_at : ℕ
  pub id : ℕ
  pub ticket : ℕ

pub data EnqueueOutcome : Type 0 where
  queued : EnqueueOutcome
  queued_evicting_oldest : Bytes → EnqueueOutcome
  queued_evicting_fullest : Bytes → Bytes → EnqueueOutcome
  refused_global_limit : EnqueueOutcome

pub record HeldPage : Type 0 where
  pub subscriber_hash : Bytes
  pub blobs : List PendingBlob

-- The statements the queue sends to its table `deferred`.
pub data Stmt : Type 0 where
  insert_row : Bytes → Bytes → Bytes → ℕ → Stmt
  delete_row : ℕ → Stmt

pub record DeferredQueue : Type 0 where
  pub queue : Dict Bytes (List PendingBlob)
  pub held : Dict ℕ HeldPage
  pub next_page : ℕ
  pub next_ticket : ℕ
  pub in_flight : List ℕ
  pub db : Db Stmt
  pub global_limit : ℕ

-- `+= 1` on a `u64` counter.
unfoldable pub increment : ℕ → ℕ
increment n = (n + 1) % 2 ^ 64

-- `queue.get(subscriber)`; an absent subscriber has an empty bucket.
unfoldable pub bucket_in : Bytes → Dict Bytes (List PendingBlob) → List PendingBlob
bucket_in s m = elim (Dict.find bytes_dec s m) [ none ↦ [] | some bucket ↦ bucket ]

unfoldable pub bucket_of : Bytes → DeferredQueue → List PendingBlob
unfolding bucket_in
bucket_of s q = bucket_in s q.queue

-- A changed bucket is written back, and dropped from the map once it is empty.
unfoldable pub set_bucket :
    Bytes → List PendingBlob → Dict Bytes (List PendingBlob) → Dict Bytes (List PendingBlob)
set_bucket s bucket m =
    if is_empty bucket then Dict.remove bytes_dec s m else Dict.put bytes_dec s bucket m

-- `entry(subscriber).or_default().push_back(entry)`.
unfoldable pub push_back :
    Bytes → PendingBlob → Dict Bytes (List PendingBlob) → Dict Bytes (List PendingBlob)
push_back s e m = elim (Dict.find bytes_dec s m) [
  | none ↦ Dict.put bytes_dec s (e ∷ []) m
  | some bucket ↦ Dict.put bytes_dec s (bucket ++ e ∷ []) m
]

unfoldable pub total_len : DeferredQueue → ℕ
total_len q =
    sum_by (λ _ bucket. length bucket) q.queue + sum_by (λ _ page. length page.blobs) q.held
