-- ===== src/Deferred/Conserve/Enqueue.antt =====
-- `enqueue` of rfed/src/deferred_queue.rs: one entry in, at most one evicted.
use rfed.Base.{
  ℕ, suc, ◌+◌, ◌≡◌, refl, ap, subst, inl, inr, List, [], ◌∷◌, Option, none, some, Bytes, bytes_dec,
  arith, Option-cases, Bool-cases, length, leb,
}
use rfed.Dict
use rfed.Dict.{Dict, sum_by}
use rfed.Deferred.State.{
  PendingBlob, DeferredQueue, EnqueueOutcome, queued, queued_evicting_oldest,
  queued_evicting_fullest, refused_global_limit, total_len,
}
use rfed.Deferred.Enqueue.{
  Room, pop_front, pop_oldest_of_fullest, evict_fullest, room_elsewhere, make_room, admit,
  new_entry, enqueue, candidates, fullest,
}
use rfed.Deferred.Weight.{weigh, weigh_queue, weight, weigh_queue-set_bucket, weigh_queue-push_back}

-- What the map of buckets gave up for an enqueue with that outcome.
abbrev pub MakesRoom :
    Dict Bytes (List PendingBlob) → Dict Bytes (List PendingBlob) → Bytes → EnqueueOutcome → Type 0
MakesRoom m m' s queued = m' ≡ m
MakesRoom m m' s (queued_evicting_oldest r) =
    (old : PendingBlob) × (old.channel_hash ≡ r)
    × ((w : Bytes → PendingBlob → ℕ) → weigh_queue w m' + w s old ≡ weigh_queue w m)
MakesRoom m m' s (queued_evicting_fullest v r) =
    (old : PendingBlob) × (old.channel_hash ≡ r)
    × ((w : Bytes → PendingBlob → ℕ) → weigh_queue w m' + w v old ≡ weigh_queue w m)
MakesRoom m m' s refused_global_limit = ⊥

pub pop_front-eq :
    (s : Bytes) (m : Dict Bytes (List PendingBlob)) (v : Bytes) (old : PendingBlob)
    (rest : Dict Bytes (List PendingBlob))
    → pop_front s m ≡ some (v, old, rest)
    → (v ≡ s) × ((w : Bytes → PendingBlob → ℕ) → weigh_queue w rest + w s old ≡ weigh_queue w m)
unfolding pop_front
pop_front-eq s m v old rest h = elim (Option-cases (Dict.find bytes_dec s m)) [
  | inl absent ↦ absurd (ground arith)
  | inr ([], found) ↦ absurd (ground arith)
  | inr (x ∷ xs, found) ↦
      (ground arith, λ w. ground (arith, weigh_queue-set_bucket w s (x ∷ xs) xs m found))
]

module _ (q : DeferredQueue) (s : Bytes) where
  evict_fullest-MakesRoom :
      (room : Room) → evict_fullest q ≡ some room → MakesRoom q.queue room.queue s room.outcome
  unfolding evict_fullest pop_oldest_of_fullest
  evict_fullest-MakesRoom room h = elim (Option-cases (fullest (candidates q.queue))) [
    | inl empty ↦ absurd (ground arith)
    | inr (v, full) ↦ elim (Option-cases (pop_front v q.queue)) [
      | inl empty ↦ absurd (ground arith)
      | inr ((u, old, rest), popped) ↦
          let eq = pop_front-eq v q.queue u old rest popped in
          subst (λ (r : Room). MakesRoom q.queue r.queue s r.outcome)
            {x = record {
              queue = rest;
              evicted = some old;
              outcome = queued_evicting_fullest u old.channel_hash;
            }}
            {y = room} (ground arith) (old, refl, λ w. rw eq.0 (eq.1 w))
    ]
  ]

  room_elsewhere-MakesRoom :
      (room : Room) → room_elsewhere q ≡ some room → MakesRoom q.queue room.queue s room.outcome
  unfolding room_elsewhere
  room_elsewhere-MakesRoom room h = elim (Bool-cases (leb q.global_limit (total_len q))) [
    | inl full ↦ evict_fullest-MakesRoom room (ground arith)
    | inr space ↦
        subst (λ (r : Room). MakesRoom q.queue r.queue s r.outcome)
          {x = record { queue = q.queue; evicted = none; outcome = queued }} {y = room}
          (ground arith) refl
  ]

  pub make_room-MakesRoom :
      (limit : ℕ) (room : Room)
      → make_room q s limit ≡ some room
      → MakesRoom q.queue room.queue s room.outcome
  unfolding make_room
  make_room-MakesRoom limit room h = elim (Option-cases (Dict.find bytes_dec s q.queue)) [
    | inl absent ↦ room_elsewhere-MakesRoom room (ground arith)
    | inr ([], found) ↦ room_elsewhere-MakesRoom room (ground arith)
    | inr (old ∷ rest, found) ↦ elim (Bool-cases (leb limit (suc (length rest)))) [
      | inl full ↦
          subst (λ (r : Room). MakesRoom q.queue r.queue s r.outcome)
            {x = record {
              queue = Dict.put bytes_dec s rest q.queue;
              evicted = some old;
              outcome = queued_evicting_oldest old.channel_hash;
            }}
            {y = room} (ground arith)
            (
              old,
              refl,
              λ w. omega (
                arith,
                Dict.sum_by-put bytes_dec (λ s bucket. weigh (w s) bucket) s rest (old ∷ rest)
                    q.queue found,
              ),
            )
      | inr space ↦ room_elsewhere-MakesRoom room (ground arith)
    ]
  ]

-- What an enqueue of `e` for `s` did to what is stored.
abbrev pub Enqueues : DeferredQueue → DeferredQueue → Bytes → PendingBlob → EnqueueOutcome → Type 0
Enqueues q q' s e queued = (w : Bytes → PendingBlob → ℕ) → weight w q' ≡ weight w q + w s e
Enqueues q q' s e (queued_evicting_oldest r) =
    (old : PendingBlob) × (old.channel_hash ≡ r)
    × ((w : Bytes → PendingBlob → ℕ) → weight w q' + w s old ≡ weight w q + w s e)
Enqueues q q' s e (queued_evicting_fullest v r) =
    (old : PendingBlob) × (old.channel_hash ≡ r)
    × ((w : Bytes → PendingBlob → ℕ) → weight w q' + w v old ≡ weight w q + w s e)
Enqueues q q' s e refused_global_limit = q' ≡ q

module _ (q : DeferredQueue) (s channel blob : Bytes) (now id : ℕ) where
  admit-Enqueues :
      (m : Dict Bytes (List PendingBlob)) (evicted : Option PendingBlob) (o : EnqueueOutcome)
      → MakesRoom q.queue m s o
      → Enqueues q
          (admit q (record { queue = m; evicted = evicted; outcome = o }) s channel blob now id)
          s
          (new_entry q channel blob now id)
          o
  unfolding admit
  admit-Enqueues m evicted queued h = λ w.
      omega
        (arith, weigh_queue-push_back w s (new_entry q channel blob now id) m, ap (weigh_queue w) h)
  admit-Enqueues m evicted (queued_evicting_oldest r) h = (
    h.0,
    h.1,
    λ w. omega (arith, weigh_queue-push_back w s (new_entry q channel blob now id) m, h.2 w),
  )
  admit-Enqueues m evicted (queued_evicting_fullest v r) h = (
    h.0,
    h.1,
    λ w. omega (arith, weigh_queue-push_back w s (new_entry q channel blob now id) m, h.2 w),
  )
  admit-Enqueues m evicted refused_global_limit h = absurd h

  -- An enqueue stores its new entry once, under its subscriber, and takes out what its outcome
  -- names: nothing, one entry of the subscriber's own, or one of the named subscriber's, with the
  -- named routing hash; a refused one changes nothing at all.
  pub enqueue-Enqueues :
      (limit : ℕ)
      → let r = enqueue q s channel blob limit now id in
        Enqueues q r.0 s (new_entry q channel blob now id) r.1
  unfolding enqueue
  enqueue-Enqueues limit = elim (Option-cases (make_room q s limit)) [
    | inl full ↦ rw (full, enqueue) refl
    | inr (room, found) ↦
        rw (found, enqueue)
          (admit-Enqueues room.queue room.evicted room.outcome
            (make_room-MakesRoom q s limit room found))
  ]
