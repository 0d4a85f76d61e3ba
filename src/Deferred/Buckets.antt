-- ===== src/Deferred/Buckets.antt =====
-- The keys of the deferred queue's maps: a subscriber has one bucket, a page id is given once.
use rfed.Base.{
  ℕ, suc, ◌-◌, ◌≡◌, refl, subst, inl, inr, List, [], ◌∷◌, ◌++◌, none, some, Bytes, bytes_dec,
  ℕ_discrete, arith, Option-cases, Bool-cases, Bool, true, false, filter, length, take, drop,
  is_empty, leb,
}
use rfed.Dict
use rfed.Dict.{Dict, sum_by}
use rfed.Deferred.State.{PendingBlob, DeferredQueue, set_bucket, push_back, total_len}
use rfed.Deferred.Drain.{delete_rows, drained, drain, drain_batch, drain_matching_batch}
use rfed.Deferred.Enqueue.{
  Room, pop_front, pop_oldest_of_fullest, evict_fullest, room_elsewhere, make_room, admit, enqueue,
  candidates, fullest,
}
use rfed.Deferred.Page.{page_of, hold, take_page, put_back, settle_page}
use rfed.Deferred.Flush.{take_ticket, take_held, confirm_held, confirm, flush_copies, release}
use rfed.Deferred.Expiry.{fresh, retain_fresh, evict_expired}
use rfed.Deferred.Op.{
  Op, enqueues, drains, drains_batch, drains_matching, takes_page, settles_page, flushes, confirms,
  releases, evicts_expired, step,
}

abbrev Buckets : Type 0
Buckets = Dict Bytes (List PendingBlob)

abbrev pub OneBucket : DeferredQueue → Type 0
OneBucket q = Dict.Distinct bytes_dec q.queue

pub set_bucket-Distinct :
    (s : Bytes) (bucket : List PendingBlob) (m : Buckets)
    → Dict.Distinct bytes_dec m
    → Dict.Distinct bytes_dec (set_bucket s bucket m)
unfolding set_bucket
set_bucket-Distinct s [] m d = Dict.remove-Distinct bytes_dec s m d
set_bucket-Distinct s (e ∷ es) m d = Dict.put-Distinct bytes_dec s (e ∷ es) m d

pub push_back-Distinct :
    (s : Bytes) (e : PendingBlob) (m : Buckets)
    → Dict.Distinct bytes_dec m
    → Dict.Distinct bytes_dec (push_back s e m)
unfolding push_back
push_back-Distinct s e m d = elim (Option-cases (Dict.find bytes_dec s m)) [
  | inl absent ↦ rw (absent, push_back) (Dict.put-Distinct bytes_dec s (e ∷ []) m d)
  | inr (bucket, found) ↦
      rw (found, push_back) (Dict.put-Distinct bytes_dec s (bucket ++ e ∷ []) m d)
]

drained-queue : (q : DeferredQueue) (es : List PendingBlob) → (drained q es).queue ≡ q.queue
unfolding drained delete_rows
drained-queue q [] = refl
drained-queue q (e ∷ es) = refl

drained-OneBucket :
    (q : DeferredQueue) (es : List PendingBlob) → OneBucket q → OneBucket (drained q es)
drained-OneBucket q es d = rw (drained-queue q es) d

pop_front-Distinct :
    (s : Bytes) (m : Buckets) (v : Bytes) (old : PendingBlob) (rest : Buckets)
    → pop_front s m ≡ some (v, old, rest)
    → Dict.Distinct bytes_dec m
    → Dict.Distinct bytes_dec rest
unfolding pop_front
pop_front-Distinct s m v old rest h d = elim (Option-cases (Dict.find bytes_dec s m)) [
  | inl absent ↦ absurd (ground arith)
  | inr ([], found) ↦ absurd (ground arith)
  | inr (x ∷ xs, found) ↦
      subst (Dict.Distinct bytes_dec) {x = set_bucket s xs m} {y = rest} (ground arith)
        (set_bucket-Distinct s xs m d)
]

module _ (q : DeferredQueue) (d : OneBucket q) where
  evict_fullest-Distinct :
      (room : Room) → evict_fullest q ≡ some room → Dict.Distinct bytes_dec room.queue
  unfolding evict_fullest pop_oldest_of_fullest
  evict_fullest-Distinct room h = elim (Option-cases (fullest (candidates q.queue))) [
    | inl empty ↦ absurd (ground arith)
    | inr (v, full) ↦ elim (Option-cases (pop_front v q.queue)) [
      | inl empty ↦ absurd (ground arith)
      | inr ((u, old, rest), popped) ↦
          subst (Dict.Distinct bytes_dec) {x = rest} {y = room.queue} (ground arith)
            (pop_front-Distinct v q.queue u old rest popped d)
    ]
  ]

  room_elsewhere-Distinct :
      (room : Room) → room_elsewhere q ≡ some room → Dict.Distinct bytes_dec room.queue
  unfolding room_elsewhere
  room_elsewhere-Distinct room h = elim (Bool-cases (leb q.global_limit (total_len q))) [
    | inl full ↦ evict_fullest-Distinct room (ground arith)
    | inr space ↦ subst (Dict.Distinct bytes_dec) {x = q.queue} {y = room.queue} (ground arith) d
  ]

  make_room-Distinct :
      (s : Bytes) (limit : ℕ) (room : Room)
      → make_room q s limit ≡ some room
      → Dict.Distinct bytes_dec room.queue
  unfolding make_room
  make_room-Distinct s limit room h = elim (Option-cases (Dict.find bytes_dec s q.queue)) [
    | inl absent ↦ room_elsewhere-Distinct room (ground arith)
    | inr ([], found) ↦ room_elsewhere-Distinct room (ground arith)
    | inr (old ∷ rest, found) ↦ elim (Bool-cases (leb limit (suc (length rest)))) [
      | inl full ↦
          subst (Dict.Distinct bytes_dec) {x = Dict.put bytes_dec s rest q.queue} {y = room.queue}
            (ground arith) (Dict.put-Distinct bytes_dec s rest q.queue d)
      | inr space ↦ room_elsewhere-Distinct room (ground arith)
    ]
  ]

  enqueue-OneBucket :
      (s channel blob : Bytes) (limit now id : ℕ)
      → OneBucket (enqueue q s channel blob limit now id).0
  unfolding enqueue admit
  enqueue-OneBucket s channel blob limit now id = elim (Option-cases (make_room q s limit)) [
    | inl full ↦ rw (full, enqueue) d
    | inr (room, found) ↦
        rw (found, enqueue)
          (push_back-Distinct s _ room.queue (make_room-Distinct s limit room found))
  ]

  drain-OneBucket : (s : Bytes) → OneBucket (drain q s).0
  unfolding drain
  drain-OneBucket s = elim (Option-cases (Dict.find bytes_dec s q.queue)) [
    | inl absent ↦ rw (absent, drain) d
    | inr (bucket, found) ↦
        rw (found, drain) (drained-OneBucket _ bucket (Dict.remove-Distinct bytes_dec s q.queue d))
  ]

  drain_batch-OneBucket : (s : Bytes) (max : ℕ) → OneBucket (drain_batch q s max).0
  unfolding drain_batch
  drain_batch-OneBucket s max = elim (Option-cases (Dict.find bytes_dec s q.queue)) [
    | inl absent ↦ rw (absent, drain_batch) d
    | inr (bucket, found) ↦
        rw (found, drain_batch)
          (drained-OneBucket _ (take max bucket)
            (set_bucket-Distinct s (drop max bucket) q.queue d))
  ]

  drain_matching_batch-OneBucket :
      (s : Bytes) (wanted : Bytes → Bool) (max : ℕ)
      → OneBucket (drain_matching_batch q s wanted max).0
  unfolding drain_matching_batch
  drain_matching_batch-OneBucket s wanted max =
      elim (Option-cases (Dict.find bytes_dec s q.queue)) [
        | inl absent ↦ rw (absent, drain_matching_batch) d
        | inr (bucket, found) ↦
            rw (found, drain_matching_batch)
              (drained-OneBucket _ _ (set_bucket-Distinct s _ q.queue d))
      ]

  take_page-OneBucket :
      (s : Bytes) (wanted : Bytes → Bool) (max budget : ℕ) (cost : PendingBlob → ℕ)
      → OneBucket (take_page q s wanted max budget cost).0
  unfolding take_page hold
  take_page-OneBucket s wanted max budget cost =
      elim (Option-cases (Dict.find bytes_dec s q.queue)) [
        | inl absent ↦ rw (absent, take_page) d
        | inr (bucket, found) ↦
            rw (found, take_page)
              (let l = page_of wanted max budget cost bucket in
                let kept = set_bucket-Distinct s l.kept q.queue d in
                elim (Bool-cases (is_empty l.taken)) [ inl e ↦ rw e kept | inr e ↦ rw e kept ])
      ]

  settle_page-OneBucket : (id : ℕ) (proved : Bool) → OneBucket (settle_page q id proved).0
  unfolding settle_page delete_rows put_back
  settle_page-OneBucket id true = elim (Option-cases (Dict.find ℕ_discrete id q.held)) [
    | inl absent ↦ rw (absent, settle_page) d
    | inr (page, found) ↦ rw (found, settle_page) d
  ]
  settle_page-OneBucket id false = elim (Option-cases (Dict.find ℕ_discrete id q.held)) [
    | inl absent ↦ rw (absent, settle_page) d
    | inr (page, found) ↦
        rw (found, settle_page) (Dict.put-Distinct bytes_dec page.subscriber_hash _ q.queue d)
  ]

  confirm_held-OneBucket : (s : Bytes) (t : ℕ) → OneBucket (confirm_held q s t).0
  unfolding confirm_held delete_rows
  confirm_held-OneBucket s t = elim (Option-cases (take_held s t q.held)) [
    | inl miss ↦ rw (miss, confirm_held) d
    | inr ((e, pages), hit) ↦ rw (hit, confirm_held) d
  ]

retain_fresh-none :
    (threshold : ℕ) (s : Bytes) (m : Buckets)
    → Dict.find bytes_dec s m ≡ none
    → Dict.find bytes_dec s (retain_fresh threshold m) ≡ none
unfolding retain_fresh Dict.find
retain_fresh-none threshold s [] h = refl
retain_fresh-none threshold s ((j, bucket) ∷ m) h =
    elim (Bool-cases (is_empty (filter (fresh threshold) bucket))) [
      | inl empty ↦ rw empty (retain_fresh-none threshold s m (ground arith))
      | inr full ↦ rw full (ground (arith, retain_fresh-none threshold s m))
    ]

retain_fresh-Distinct :
    (threshold : ℕ) (m : Buckets)
    → Dict.Distinct bytes_dec m
    → Dict.Distinct bytes_dec (retain_fresh threshold m)
unfolding retain_fresh
retain_fresh-Distinct threshold [] d = tt
retain_fresh-Distinct threshold ((j, bucket) ∷ m) d =
    elim (Bool-cases (is_empty (filter (fresh threshold) bucket))) [
      | inl empty ↦ rw empty (retain_fresh-Distinct threshold m d.1)
      | inr full ↦
          rw full (retain_fresh-none threshold j m d.0, retain_fresh-Distinct threshold m d.1)
    ]

confirm-OneBucket :
    (q : DeferredQueue) (s : Bytes) (t : ℕ) → OneBucket q → OneBucket (confirm q s t).0
unfolding confirm delete_rows
confirm-OneBucket q s t d = elim (Option-cases (Dict.find bytes_dec s q.queue)) [
  | inl absent ↦ rw (absent, confirm) (confirm_held-OneBucket _ d s t)
  | inr (bucket, found) ↦ elim (Option-cases (take_ticket t bucket)) [
    | inl miss ↦
        rw (found, confirm, miss)
          (confirm_held-OneBucket _ (set_bucket-Distinct s bucket q.queue d) s t)
    | inr ((e, rest), hit) ↦ rw (found, confirm, hit) (set_bucket-Distinct s rest q.queue d)
  ]
]

pub step-OneBucket : (q : DeferredQueue) (op : Op) → OneBucket q → OneBucket (step q op)
unfolding step flush_copies release evict_expired
step-OneBucket q (enqueues s channel blob limit now id) d =
    enqueue-OneBucket q d s channel blob limit now id
step-OneBucket q (drains s) d = drain-OneBucket q d s
step-OneBucket q (drains_batch s max) d = drain_batch-OneBucket q d s max
step-OneBucket q (drains_matching s wanted max) d = drain_matching_batch-OneBucket q d s wanted max
step-OneBucket q (takes_page s wanted max budget cost) d =
    take_page-OneBucket q d s wanted max budget cost
step-OneBucket q (settles_page id proved) d = settle_page-OneBucket q d id proved
step-OneBucket q (flushes s wanted) d = d
step-OneBucket q (confirms s t) d = confirm-OneBucket q s t d
step-OneBucket q (releases s t) d = d
step-OneBucket q (evicts_expired now max_age) d = retain_fresh-Distinct (now - max_age) q.queue d
