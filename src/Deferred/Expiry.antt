-- ===== src/Deferred/Expiry.antt =====
-- `evict_expired` of rfed/src/deferred_queue.rs.
use Prim.Native.Nat.{Ordering}
use rfed.Base.{
  ℕ, ◌+◌, ◌-◌, List, [], ◌∷◌, ◌++◌, Bytes, bytes_cmp, Bool, not, leb, if◌then◌else◌, is_empty,
  filter,
}
use rfed.Dict.{Dict}
use rfed.Store.{write_all}
use rfed.Deferred.State.{PendingBlob, DeferredQueue}
use rfed.Deferred.Drain.{deletes}

pub record Expired : Type 0 where
  pub subscriber_hash : Bytes
  pub routing_hash : Bytes
  pub count : ℕ

-- The order of a `BTreeMap` keyed by a subscriber and a routing hash.
unfoldable pub key_cmp : Bytes → Bytes → Expired → Ordering
unfolding bytes_cmp
key_cmp s r x = elim (bytes_cmp s x.subscriber_hash) [
  | Ordering.lt ↦ Ordering.lt
  | Ordering.eq ↦ bytes_cmp r x.routing_hash
  | Ordering.gt ↦ Ordering.gt
]

-- `*counts.entry((subscriber, routing)).or_default() += 1`, in key order.
unfoldable pub bump : Bytes → Bytes → List Expired → List Expired
bump s r [] = record { subscriber_hash = s; routing_hash = r; count = 1 } ∷ []
bump s r (x ∷ xs) = elim (key_cmp s r x) [
  | Ordering.lt ↦ record { subscriber_hash = s; routing_hash = r; count = 1 } ∷ x ∷ xs
  | Ordering.eq ↦ record x { count = x.count + 1 } ∷ xs
  | Ordering.gt ↦ x ∷ bump s r xs
]

unfoldable pub bump_all : Bytes → List PendingBlob → List Expired → List Expired
bump_all s [] counts = counts
bump_all s (e ∷ es) counts = bump_all s es (bump s e.channel_hash counts)

abbrev pub fresh : ℕ → PendingBlob → Bool
fresh threshold e = leb threshold e.enqueued_at

abbrev pub stale : ℕ → PendingBlob → Bool
stale threshold e = not (leb threshold e.enqueued_at)

-- Each bucket keeps what is fresh, and a bucket left empty goes.
unfoldable pub retain_fresh : ℕ → Dict Bytes (List PendingBlob) → Dict Bytes (List PendingBlob)
retain_fresh threshold [] = []
retain_fresh threshold ((s, bucket) ∷ m) =
    let kept = filter (fresh threshold) bucket in
    let rest = retain_fresh threshold m in if is_empty kept then rest else (s, kept) ∷ rest

unfoldable pub expired_counts : ℕ → Dict Bytes (List PendingBlob) → List Expired → List Expired
expired_counts threshold [] counts = counts
expired_counts threshold ((s, bucket) ∷ m) counts =
    expired_counts threshold m (bump_all s (filter (stale threshold) bucket) counts)

unfoldable pub expired_entries : ℕ → Dict Bytes (List PendingBlob) → List PendingBlob
expired_entries threshold [] = []
expired_entries threshold ((s, bucket) ∷ m) =
    filter (stale threshold) bucket ++ expired_entries threshold m

-- No entry is older than time 0, so the threshold may stop there.
unfoldable pub evict_expired : DeferredQueue → ℕ → ℕ → DeferredQueue × List Expired
evict_expired q now max_age =
    let threshold = now - max_age in
    let gone = expired_entries threshold q.queue in
    (
      record q {
        queue = retain_fresh threshold q.queue;
        db = if is_empty gone then q.db else write_all q.db (deletes gone);
      },
      expired_counts threshold q.queue [],
    )
