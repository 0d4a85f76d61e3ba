-- ===== src/Deferred/Enqueue.antt =====
-- `enqueue`, `pop_oldest_of_fullest` and `enqueue_all` of rfed/src/deferred_queue.rs.
use rfed.Base.{
  ℕ, ◌+◌, List, [], ◌∷◌, ◌++◌, Option, none, some, Bytes, bytes_dec, length, Bool, ◌&&◌, ◌||◌, ltb,
  leb, ◌==◌, if◌then◌else◌, suc,
}
use rfed.Dict
use rfed.Dict.{Dict}
use rfed.Store.{write_all}
use rfed.Deferred.State.{
  PendingBlob, EnqueueOutcome, queued, queued_evicting_oldest, queued_evicting_fullest,
  refused_global_limit, Stmt, insert_row, delete_row, DeferredQueue, increment, set_bucket,
  push_back, total_len,
}

-- What `pop_oldest_of_fullest` compares of a bucket that is not empty.
pub record Candidate : Type 0 where
  pub subscriber : Bytes
  pub len : ℕ
  pub oldest_at : ℕ

unfoldable pub candidates : Dict Bytes (List PendingBlob) → List Candidate
candidates [] = []
candidates ((s, []) ∷ m) = candidates m
candidates ((s, oldest ∷ rest) ∷ m) =
    record { subscriber = s; len = suc (length rest); oldest_at = oldest.enqueued_at }
    ∷ candidates m

-- The comparison is `Greater`: a fuller bucket, or one as full whose oldest entry is older.
unfoldable pub greater : Candidate → Candidate → Bool
greater a b = ltb b.len a.len || ((a.len == b.len) && ltb a.oldest_at b.oldest_at)

-- `Iterator::max_by` keeps the later of two that compare equal.
unfoldable pub max_by : Candidate → List Candidate → Candidate
max_by best [] = best
max_by best (c ∷ cs) = max_by (if greater best c then best else c) cs

unfoldable pub fullest : List Candidate → Option Bytes
fullest [] = none
fullest (c ∷ cs) = some (max_by c cs).subscriber

unfoldable pub pop_front :
    Bytes
    → Dict Bytes (List PendingBlob)
    → Option (Bytes × PendingBlob × Dict Bytes (List PendingBlob))
pop_front s m = elim (Dict.find bytes_dec s m) [
  | none ↦ none
  | some [] ↦ none
  | some (old ∷ rest) ↦ some (s, old, set_bucket s rest m)
]

unfoldable pub pop_oldest_of_fullest :
    Dict Bytes (List PendingBlob) → Option (Bytes × PendingBlob × Dict Bytes (List PendingBlob))
pop_oldest_of_fullest m = elim (fullest (candidates m)) [ none ↦ none | some s ↦ pop_front s m ]

-- The room an enqueue finds or makes: the queue map without what was evicted, and the outcome.
pub record Room : Type 0 where
  pub queue : Dict Bytes (List PendingBlob)
  pub evicted : Option PendingBlob
  pub outcome : EnqueueOutcome

unfoldable pub evict_fullest : DeferredQueue → Option Room
evict_fullest q = elim (pop_oldest_of_fullest q.queue) [
  | none ↦ none
  | some (s, old, rest) ↦ some (record {
    queue = rest;
    evicted = some old;
    outcome = queued_evicting_fullest s old.channel_hash;
  })
]

unfoldable pub room_elsewhere : DeferredQueue → Option Room
room_elsewhere q =
    if leb q.global_limit (total_len q)
    then evict_fullest q
    else some (record { queue = q.queue; evicted = none; outcome = queued })

-- A bucket at its limit gives up its own oldest entry; the map keeps the bucket.
unfoldable pub make_room : DeferredQueue → Bytes → ℕ → Option Room
make_room q s limit = elim (Dict.find bytes_dec s q.queue) [
  | none ↦ room_elsewhere q
  | some [] ↦ room_elsewhere q
  | some (old ∷ rest) ↦
      if leb limit (suc (length rest))
      then some (record {
        queue = Dict.put bytes_dec s rest q.queue;
        evicted = some old;
        outcome = queued_evicting_oldest old.channel_hash;
      })
      else room_elsewhere q
]

unfoldable pub eviction : Option PendingBlob → List Stmt
eviction none = []
eviction (some old) = if old.id == 0 then [] else delete_row old.id ∷ []

-- `now` is the clock, `id` the rowid that the insert returned, 0 where nothing was stored.
unfoldable pub new_entry : DeferredQueue → Bytes → Bytes → ℕ → ℕ → PendingBlob
new_entry q channel blob now id = record {
  channel_hash = channel;
  blob = blob;
  enqueued_at = now;
  id = id;
  ticket = q.next_ticket;
}

unfoldable pub admit : DeferredQueue → Room → Bytes → Bytes → Bytes → ℕ → ℕ → DeferredQueue
unfolding new_entry
admit q room s channel blob now id = record q {
  queue = push_back s (new_entry q channel blob now id) room.queue;
  next_ticket = increment q.next_ticket;
  db = write_all q.db (eviction room.evicted ++ insert_row s channel blob now ∷ []);
}

unfoldable pub enqueue :
    DeferredQueue → Bytes → Bytes → Bytes → ℕ → ℕ → ℕ → DeferredQueue × EnqueueOutcome
enqueue q s channel blob limit now id = elim (make_room q s limit) [
  | none ↦ (q, refused_global_limit)
  | some room ↦ (admit q room s channel blob now id, room.outcome)
]

pub record EnqueueTally : Type 0 where
  pub queued : ℕ
  pub evicted : ℕ
  pub evicted_fullest : ℕ
  pub refused : ℕ

unfoldable pub add : EnqueueTally → EnqueueOutcome → EnqueueTally
add t queued = record t { queued = t.queued + 1 }
add t (queued_evicting_oldest _) = record t { queued = t.queued + 1; evicted = t.evicted + 1 }
add t (queued_evicting_fullest _ _) = record t {
  queued = t.queued + 1;
  evicted_fullest = t.evicted_fullest + 1;
}
add t refused_global_limit = record t { refused = t.refused + 1 }

-- One blob of `enqueue_all`: its routing hash and bytes, and the clock and rowid it met.
pub record Item : Type 0 where
  pub routing_hash : Bytes
  pub blob : Bytes
  pub now : ℕ
  pub id : ℕ

unfoldable pub enqueue_each :
    EnqueueTally → DeferredQueue → Bytes → ℕ → List Item → DeferredQueue × EnqueueTally
enqueue_each tally q s limit [] = (q, tally)
enqueue_each tally q s limit (i ∷ items) =
    let (q', outcome) = enqueue q s i.routing_hash i.blob limit i.now i.id in
    enqueue_each (add tally outcome) q' s limit items

unfoldable pub enqueue_all : DeferredQueue → Bytes → ℕ → List Item → DeferredQueue × EnqueueTally
unfolding enqueue_each
enqueue_all = enqueue_each (record { queued = 0; evicted = 0; evicted_fullest = 0; refused = 0 })
