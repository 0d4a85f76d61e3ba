-- ===== src/Deferred/Admission.antt =====
-- `enqueue` of rfed/src/deferred_queue.rs on the subscribers' lists, on every outcome.
use rfed.Base.{
  ℕ, suc, ◌≤◌, ◌<◌, ◌≡◌, refl, ◌≢◌, ◌⊎◌, inl, inr, List, [], ◌∷◌, ◌++◌, Option, none, some, Bytes,
  bytes_dec, arith, Option-cases, Bool-cases, Bool, true, false, not, ◌&&◌, length, is_empty, leb,
}
use rfed.Dict
use rfed.Dict.{Dict, sum_by}
use rfed.Deferred.State.{
  PendingBlob, DeferredQueue, EnqueueOutcome, queued, queued_evicting_oldest,
  queued_evicting_fullest, refused_global_limit, bucket_in, bucket_of, total_len,
}
use rfed.Deferred.Enqueue.{
  Room, pop_oldest_of_fullest, evict_fullest, room_elsewhere, make_room, new_entry, admit, enqueue,
}
use rfed.Deferred.Buckets.{OneBucket}
use rfed.Deferred.View.{
  updated, bucket_in-put, bucket_in-push_back, bucket_in-found, bucket_in-absent,
}
use rfed.Deferred.Fullest.{IsFullest, pop_oldest_of_fullest-IsFullest, pop_oldest_of_fullest-none}

-- The subscriber's bucket has reached its own limit.
abbrev pub bucket_full : DeferredQueue → Bytes → ℕ → Bool
bucket_full q s limit = not (is_empty (bucket_of s q)) && leb limit (length (bucket_of s q))

-- The room an enqueue for `s` may take, in terms of the lists: which list loses its first entry.
abbrev pub Makes :
    DeferredQueue → Bytes → ℕ → Dict Bytes (List PendingBlob) → EnqueueOutcome → Type 0
Makes q s limit m queued =
    (bucket_full q s limit ≡ false) × (total_len q < q.global_limit) × (m ≡ q.queue)
Makes q s limit m (queued_evicting_oldest r) =
    (bucket_full q s limit ≡ true)
    × ((old : PendingBlob) × (rest : List PendingBlob) × (bucket_of s q ≡ old ∷ rest)
        × (r ≡ old.channel_hash)
        × ((j : Bytes) → bucket_in j m ≡ updated (λ i. bucket_of i q) s rest j))
Makes q s limit m (queued_evicting_fullest v r) =
    (bucket_full q s limit ≡ false)
    × (q.global_limit ≤ total_len q)
    × ((old : PendingBlob) × (rest : List PendingBlob) × IsFullest q.queue v old rest
        × (r ≡ old.channel_hash)
        × ((j : Bytes) → bucket_in j m ≡ updated (λ i. bucket_of i q) v rest j))
Makes q s limit m refused_global_limit =
    (bucket_full q s limit ≡ false)
    × (q.global_limit ≤ total_len q)
    × ((j : Bytes) → bucket_of j q ≡ [])

-- What making room comes to, refusals included.
abbrev pub room_queue : DeferredQueue → Option Room → Dict Bytes (List PendingBlob)
room_queue q none = q.queue
room_queue q (some room) = room.queue

abbrev pub room_outcome : Option Room → EnqueueOutcome
room_outcome none = refused_global_limit
room_outcome (some room) = room.outcome

module _ (q : DeferredQueue) (s : Bytes) (limit : ℕ) (d : OneBucket q) where
  abbrev Made : Option Room → Type 0
  Made o = Makes q s limit (room_queue q o) (room_outcome o)

  evict_fullest-Makes :
      bucket_full q s limit ≡ false → q.global_limit ≤ total_len q → Made (evict_fullest q)
  unfolding evict_fullest bucket_of
  evict_fullest-Makes own full = elim (Option-cases (pop_oldest_of_fullest q.queue)) [
    | inl empty ↦
        rw (empty, evict_fullest) (own, full, λ j. pop_oldest_of_fullest-none q.queue j d empty)
    | inr ((v, old, m), popped) ↦
        let (rest, most, at) = pop_oldest_of_fullest-IsFullest q.queue v old m d popped in
        rw (popped, evict_fullest) (own, full, (old, rest, most, refl, at))
  ]

  room_elsewhere-Makes : bucket_full q s limit ≡ false → Made (room_elsewhere q)
  unfolding room_elsewhere
  room_elsewhere-Makes own = elim (Bool-cases (leb q.global_limit (total_len q))) [
    | inl full ↦ rw full (evict_fullest-Makes own (ground arith))
    | inr space ↦ rw space (own, ground arith, refl)
  ]

  make_room-Makes : Made (make_room q s limit)
  unfolding make_room bucket_of
  make_room-Makes = elim (Option-cases (Dict.find bytes_dec s q.queue)) [
    | inl absent ↦
        rw (absent, make_room)
          (room_elsewhere-Makes (ground (arith, bucket_in-absent s q.queue absent)))
    | inr ([], found) ↦
        rw (found, make_room)
          (room_elsewhere-Makes (ground (arith, bucket_in-found s q.queue [] found)))
    | inr (old ∷ rest, found) ↦
        let own = bucket_in-found s q.queue (old ∷ rest) found in
        elim (Bool-cases (leb limit (suc (length rest)))) [
          | inl full ↦
              rw (found, make_room, full)
                (ground (arith, own), (old, rest, own, refl, bucket_in-put s q.queue rest))
          | inr space ↦ rw (found, make_room, space) (room_elsewhere-Makes (ground (arith, own)))
        ]
  ]

make_room-ne_refused :
    (q : DeferredQueue) (s : Bytes) (limit : ℕ) (room : Room)
    → make_room q s limit ≡ some room
    → room.outcome ≢ refused_global_limit
unfolding make_room room_elsewhere evict_fullest
make_room-ne_refused q s limit room h = ground arith

-- What an enqueue made of the lists: room, then the new entry at the end of its subscriber's.
pub record EnqueueView (q q' : DeferredQueue) (s : Bytes) (limit : ℕ) (e : PendingBlob)
    (o : EnqueueOutcome) (m : Dict Bytes (List PendingBlob)) : Type 0 where
  pub room : Makes q s limit m o
  pub after :
      ((o ≡ refused_global_limit) × (q' ≡ q))
      ⊎ ((o ≢ refused_global_limit)
          × ((j : Bytes)
              → bucket_of j q' ≡ updated (λ i. bucket_in i m) s (bucket_in s m ++ e ∷ []) j))

-- With one bucket for each subscriber, an enqueue appends the new entry to its subscriber's list
-- after it made room: it evicts the subscriber's own oldest entry if that bucket is at its limit,
-- else nothing if the queue is under the global limit, else the oldest entry of the fullest bucket.
-- It is refused, and changes nothing, only at the global limit with every bucket empty.
pub enqueue-EnqueueView :
    (q : DeferredQueue) (s channel blob : Bytes) (limit now id : ℕ)
    → OneBucket q
    → let r = enqueue q s channel blob limit now id in
      (m : Dict Bytes (List PendingBlob)) × EnqueueView q r.0 s limit
        (new_entry q channel blob now id)
        r.1
        m
unfolding enqueue admit bucket_of
enqueue-EnqueueView q s channel blob limit now id d = elim (Option-cases (make_room q s limit)) [
  | inl full ↦
      rw (full, enqueue)
        (
          q.queue,
          record { room = rw full at (make_room-Makes q s limit d); after = inl (refl, refl) },
        )
  | inr (room, found) ↦
      rw (found, enqueue)
        (
          room.queue,
          record {
            room = rw found at (make_room-Makes q s limit d);
            after = inr (
              make_room-ne_refused q s limit room found,
              λ j. bucket_in-push_back s room.queue (new_entry q channel blob now id) j,
            );
          },
        )
]
