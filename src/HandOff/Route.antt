-- ===== src/HandOff/Route.antt =====
-- The hand-offs of rfed/src/handoff.rs: queue the blob for the pull, then wake its recipient. A
-- poisoned lock is none. The log lines are left out; the reason that a line names is a value.
use rfed.Base.{
  ℕ, ◌+◌, ◌*◌, ◌/◌, ◌%◌, ◌^◌, List, [], ◌∷◌, ◌++◌, Option, none, some, Bytes, same, Bool, true,
  false, ltb, leb, if◌then◌else◌, length, filter, ◌&&◌, ◌==◌, is_empty,
}
use rfed.Deferred.State.{
  DeferredQueue, EnqueueOutcome, queued, queued_evicting_oldest, queued_evicting_fullest,
  refused_global_limit, total_len,
}
use rfed.Deferred.Enqueue.{enqueue}
use rfed.Deferred.Drain.{count_matching}
use rfed.Notify.Registry.{NotifyRegistration, NotifyRegistry, get_for_channel}

pub record Unconfirmed : Type 0 where
  pub queue_key : Bytes
  pub wake_key : Bytes

-- Why a hand-off that only queues pushed after all.
pub data Bound : Type 0 where
  un_pulled : ℕ → Bound
  queue_at : ℕ → ℕ → Bound

pub data Because : Type 0 where
  at_bounds : List Bound → Because
  queue_poisoned : Because

pub record HandOffOutcome : Type 0 where
  pub queued : Bool
  pub woken : Bool
  pub pushed_because : Option Because

pub data Queueing : Type 0 where
  done : EnqueueOutcome → Queueing
  kept poisoned : Queueing

abbrev pub is_queued : EnqueueOutcome → Bool
is_queued refused_global_limit = false
is_queued _ = true

abbrev pub left_queued : Queueing → Bool
left_queued (done outcome) = is_queued outcome
left_queued kept = true
left_queued poisoned = false

pub data Wake : Type 0 where
  push queue_only : Wake

abbrev pub distro_sync_unwoken_limit : ℕ
distro_sync_unwoken_limit = 64

unfoldable pub un_pulled_after : ℕ → EnqueueOutcome → Bytes → Bytes → ℕ
un_pulled_after held queued device distro = held + 1
un_pulled_after held (queued_evicting_oldest evicted) device distro =
    if same evicted distro then held else held + 1
un_pulled_after held (queued_evicting_fullest subscriber evicted) device distro =
    if same subscriber device && same evicted distro then held else held + 1
un_pulled_after held refused_global_limit device distro = held

-- The bounds at which a sync hand-off pushes.
unfoldable pub bounds_met : ℕ → ℕ → ℕ → List Bound
bounds_met unpulled total global_limit =
    (if leb distro_sync_unwoken_limit unpulled then un_pulled unpulled ∷ [] else [])
    ++ (if leb (global_limit * 3 % 2 ^ 64 / 4) total then queue_at total global_limit ∷ [] else [])

-- The library's hash, and whether a wake left through a registration, for a channel and a message.
module _ (full_hash : Bytes → Bytes)
    (is_sent : NotifyRegistration → Option Bytes → Option Bytes → Bool) where
  abbrev pub as_message : Bytes → Option Bytes
  as_message id = if length id == 32 then some id else none

  unfoldable pub wake_message : Bytes → Option Bytes → Option Bytes
  wake_message blob none = as_message (full_hash blob)
  wake_message blob (some channel) = as_message (full_hash (channel ++ blob))

  abbrev pub registrations_of :
      Option NotifyRegistry → Bytes → Option Bytes → List NotifyRegistration
  registrations_of none key channel = []
  registrations_of (some registry) key channel = get_for_channel registry key channel

  unfoldable pub wake_after_queueing :
      Option NotifyRegistry → Unconfirmed → Option Bytes → Option Bytes → Queueing → HandOffOutcome
  wake_after_queueing registry recipient wake_channel message queueing =
      let woken = length (
        filter (λ r. is_sent r wake_channel message)
          (registrations_of registry recipient.wake_key wake_channel)) in
      record { queued = left_queued queueing; woken = ltb 0 woken; pushed_because = none }

  unfoldable pub wake_for_queued :
      Option NotifyRegistry → Unconfirmed → Bytes → Option Bytes → HandOffOutcome
  unfolding wake_after_queueing wake_message
  wake_for_queued registry recipient blob wake_channel =
      wake_after_queueing registry recipient wake_channel (wake_message blob wake_channel) kept

  -- The clock and the rowid that an enqueue meets, and the limit of a bucket.
  module _ (limit_for : Bytes → ℕ) (now id : ℕ) where
    unfoldable pub queue_for :
        Option DeferredQueue → Bytes → Bytes → Bytes → Option DeferredQueue × Queueing
    queue_for none key routing blob = (none, poisoned)
    queue_for (some q) key routing blob =
        let (q', outcome) = enqueue q key routing blob (limit_for key) now id in
        (some q', done outcome)

    unfoldable pub queue_then_wake :
        Option DeferredQueue
        → Option NotifyRegistry
        → Unconfirmed
        → Bytes
        → Bytes
        → Option Bytes
        → Option DeferredQueue × HandOffOutcome
    unfolding queue_for wake_after_queueing wake_message
    queue_then_wake q registry recipient routing blob wake_channel =
        let (q', queueing) = queue_for q recipient.queue_key routing blob in
        (
          q',
          wake_after_queueing registry recipient wake_channel (wake_message blob wake_channel)
              queueing,
        )

    -- The hand-off of a blob with an accepted sync proof, on the counts from before its enqueue.
    unfoldable pub sync_outcome :
        Option NotifyRegistry
        → Unconfirmed
        → Bytes
        → Bytes
        → ℕ
        → ℕ
        → ℕ
        → EnqueueOutcome
        → HandOffOutcome
    unfolding wake_after_queueing wake_message bounds_met un_pulled_after
    sync_outcome registry device distro blob held total global_limit outcome =
        let why =
          bounds_met (un_pulled_after held outcome device.queue_key distro) total global_limit in
        if is_empty why
        then record { queued = is_queued outcome; woken = false; pushed_because = none }
        else record (wake_after_queueing registry device none (wake_message blob none)
            (done outcome)) { pushed_because = some (at_bounds why) }

    unfoldable pub sync_hand_off :
        Option DeferredQueue
        → Option NotifyRegistry
        → Unconfirmed
        → Bytes
        → Bytes
        → Option DeferredQueue × HandOffOutcome
    unfolding sync_outcome count_matching wake_after_queueing
    sync_hand_off none registry device distro blob = (
      none,
      record (wake_after_queueing registry device none (wake_message blob none) poisoned) {
        pushed_because = some queue_poisoned;
      },
    )
    sync_hand_off (some q) registry device distro blob =
        let (q', outcome) =
          enqueue q device.queue_key distro blob (limit_for device.queue_key) now id in
        (
          some q',
          sync_outcome registry device distro blob (count_matching q device.queue_key distro)
              (total_len q) q.global_limit outcome,
        )

    unfoldable pub distro_hand_off :
        Wake
        → Option DeferredQueue
        → Option NotifyRegistry
        → Unconfirmed
        → Bytes
        → Bytes
        → Option DeferredQueue × HandOffOutcome
    unfolding queue_then_wake sync_hand_off
    distro_hand_off push q registry device distro blob =
        queue_then_wake q registry device distro blob none
    distro_hand_off queue_only q registry device distro blob =
        sync_hand_off q registry device distro blob
