-- ===== src/HandOff/Tests.antt =====
-- The theorems on rfed/src/handoff.rs at a small queue.
use rfed.Base.{
  ℕ, ◌*◌, ◌/◌, ◌≡◌, ◌≤◌, refl, List, [], ◌∷◌, Option, none, some, Bytes, Bool, true, false, not,
  ltb, ◌&&◌, ◌||◌, arith,
}
use rfed.Deferred.State.{DeferredQueue, total_len}
use rfed.Deferred.Enqueue.{enqueue}
use rfed.Deferred.Drain.{count_matching}
use rfed.Deferred.Buckets.{OneBucket}
use rfed.Deferred.Load.{Row, load, load-IsValid}
use rfed.Notify.Registry.{NotifyRegistration, NotifyRegistry}
use rfed.HandOff.Route.{Unconfirmed, is_queued, queue_only, sync_hand_off, distro_hand_off}
use rfed.HandOff.Silent.{is_silent, any_sent, sync_hand_off-silent, distro_hand_off-unqueued}

abbrev phone : Unconfirmed
phone = record { queue_key = 1 ∷ []; wake_key = 2 ∷ [] }

abbrev list : Bytes
list = 7 ∷ []

abbrev rows : List Row
rows =
    record {
      id = 1;
      subscriber_hash = 1 ∷ [];
      channel_hash = list;
      blob = 10 ∷ [];
      enqueued_at = 5;
    }
    ∷ []

abbrev waiting : DeferredQueue
waiting = load none rows

waiting-OneBucket : OneBucket waiting
waiting-OneBucket = (load-IsValid none rows (omega arith)).0.one_bucket

abbrev full_hash : Bytes → Bytes
full_hash bytes = bytes

abbrev is_sent : NotifyRegistration → Option Bytes → Option Bytes → Bool
is_sent registration channel message = true

abbrev limit_for : Bytes → ℕ
limit_for key = 128

abbrev registry : NotifyRegistry
registry = record {
  registrations =
      record { subscriber_hash = 2 ∷ []; channel_hash = none; relay_hash = 9 ∷ []; registered = 3 }
      ∷ [];
  db = none;
}

sync_hand_off-silent_example :
    let after = enqueue waiting (1 ∷ []) list (11 ∷ []) 128 8 4 in
    let r =
      distro_hand_off full_hash is_sent limit_for 8 4 queue_only
        (some waiting)
        (some registry)
        phone
        list
        (11 ∷ []) in
    let silent =
      ltb (count_matching after.0 (1 ∷ []) list) 64
      && ltb (total_len waiting) (waiting.global_limit * 3 / 4) in
    (r.0 ≡ some after.0)
    × (is_silent r.1 ≡ silent)
    × (r.1.queued ≡ (silent || is_queued after.1))
    × (r.1.woken ≡ (
        not silent
        && any_sent full_hash is_sent limit_for 8 4 (some registry) phone (11 ∷ []) none))
unfolding load
sync_hand_off-silent_example =
    sync_hand_off-silent full_hash is_sent limit_for 8 4 waiting (some registry) phone list
      (11 ∷ []) waiting-OneBucket (omega arith)

-- A queue that holds all it may, which is nothing.
abbrev shut : DeferredQueue
shut = record (load none []) { global_limit = 0 }

shut-OneBucket : OneBucket shut
unfolding load
shut-OneBucket = (load-IsValid none [] (omega arith)).0.one_bucket

shut-unqueued :
    (distro_hand_off full_hash is_sent limit_for 8 4 queue_only
      (some shut)
      (some registry)
      phone
      list
      (11 ∷ [])).1.queued
    ≡ false
unfolding distro_hand_off sync_hand_off enqueue load rfed.Deferred.Enqueue.make_room rfed.Dict.find
    rfed.Deferred.Load.number_all rfed.Deferred.Load.read_all rfed.Deferred.Enqueue.room_elsewhere
    total_len rfed.Deferred.Enqueue.evict_fullest rfed.Deferred.Enqueue.pop_oldest_of_fullest
    rfed.Deferred.Enqueue.fullest rfed.Deferred.Enqueue.candidates
shut-unqueued = refl

distro_hand_off-unqueued_example :
    (shut.global_limit ≤ total_len shut)
    × ((distro_hand_off full_hash is_sent limit_for 8 4 queue_only
          (some shut)
          (some registry)
          phone
          list
          (11 ∷ [])).1.woken
        ≡ any_sent full_hash is_sent limit_for 8 4 (some registry) phone (11 ∷ []) none)
distro_hand_off-unqueued_example =
    distro_hand_off-unqueued full_hash is_sent limit_for 8 4 queue_only (some shut) (some registry)
      phone list (11 ∷ []) (shut-OneBucket, omega arith) shut-unqueued
