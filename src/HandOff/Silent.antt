-- ===== src/HandOff/Silent.antt =====
-- The hand-offs of rfed/src/handoff.rs that push nobody, and the ones that do.
use rfed.Base.{
  ℕ, ◌*◌, ◌/◌, ◌^◌, ◌≤◌, ◌<◌, ◌≡◌, refl, inl, inr, List, [], ◌∷◌, Option, none, some, Bytes, Bool,
  true, false, not, ltb, length, filter, any, ◌&&◌, ◌||◌, arith, Bool-cases, ap, ◌∙◌, sym, is_empty,
  subst,
}
use rfed.Dict.{Dict}
use rfed.Deferred.State.{
  PendingBlob, DeferredQueue, EnqueueOutcome, queued, queued_evicting_oldest,
  queued_evicting_fullest, refused_global_limit, total_len,
}
use rfed.Deferred.Enqueue.{enqueue}
use rfed.Deferred.Drain.{count_matching}
use rfed.Deferred.Buckets.{OneBucket}
use rfed.Deferred.Admission.{Makes, enqueue-EnqueueView}
use rfed.Notify.Registry.{NotifyRegistration, NotifyRegistry}
use rfed.HandOff.Route.{
  Unconfirmed, HandOffOutcome, is_queued, Wake, push, queue_only, un_pulled_after, bounds_met,
  wake_message, registrations_of, wake_after_queueing, queue_for, queue_then_wake, sync_outcome,
  sync_hand_off, distro_hand_off,
}
use rfed.HandOff.Counts.{count_matching-enqueue}

any-length :
    {A : Type 0} (test : A → Bool) (xs : List A) → ltb 0 (length (filter test xs)) ≡ any test xs
any-length test [] = refl
any-length test (x ∷ xs) = ground (arith, any-length test xs)

refused-full :
    (q : DeferredQueue) (s : Bytes) (limit : ℕ) (m : Dict Bytes (List PendingBlob))
    (o : EnqueueOutcome)
    → Makes q s limit m o
    → is_queued o ≡ false
    → q.global_limit ≤ total_len q
refused-full q s limit m queued room h = absurd (ground arith)
refused-full q s limit m (queued_evicting_oldest r) room h = absurd (ground arith)
refused-full q s limit m (queued_evicting_fullest v r) room h = absurd (ground arith)
refused-full q s limit m refused_global_limit room h = room.1

-- An enqueue is refused only at the global limit.
not_queued-full :
    (q : DeferredQueue) (s routing blob : Bytes) (limit now id : ℕ)
    → OneBucket q
    → is_queued (enqueue q s routing blob limit now id).1 ≡ false
    → q.global_limit ≤ total_len q
not_queued-full q s routing blob limit now id d h =
    let (m, view) = enqueue-EnqueueView q s routing blob limit now id d in
    refused-full q s limit m (enqueue q s routing blob limit now id).1 view.room h

bounds_met-is_empty :
    (unpulled total global_limit : ℕ)
    → global_limit * 3 < 2 ^ 64
    → is_empty (bounds_met unpulled total global_limit)
      ≡ (ltb unpulled 64 && ltb total (global_limit * 3 / 4))
unfolding bounds_met
bounds_met-is_empty unpulled total global_limit small = ground arith

-- The hand-off tried no push.
abbrev pub is_silent : HandOffOutcome → Bool
is_silent r = elim r.pushed_because [ none ↦ true | some why ↦ false ]

module _ (full_hash : Bytes → Bytes)
    (is_sent : NotifyRegistration → Option Bytes → Option Bytes → Bool) (limit_for : Bytes → ℕ)
    (now id : ℕ) where
  abbrev pub any_sent : Option NotifyRegistry → Unconfirmed → Bytes → Option Bytes → Bool
  any_sent registry device blob channel =
      any (λ r. is_sent r channel (wake_message full_hash is_sent blob channel))
        (registrations_of full_hash is_sent registry device.wake_key channel)

  -- A push: the wake is tried whatever the queue came to.
  pub queue_then_wake-woken :
      (q : DeferredQueue) (registry : Option NotifyRegistry) (device : Unconfirmed)
      (routing blob : Bytes) (channel : Option Bytes)
      → let after = enqueue q device.queue_key routing blob (limit_for device.queue_key) now id in
        let r =
          queue_then_wake full_hash is_sent limit_for now id
            (some q)
            registry
            device
            routing
            blob
            channel in
        (r.0 ≡ some after.0)
        × (r.1.queued ≡ is_queued after.1)
        × (r.1.woken ≡ any_sent registry device blob channel)
  unfolding queue_then_wake queue_for wake_after_queueing
  queue_then_wake-woken q registry device routing blob channel = (
    refl,
    refl,
    any-length _ (registrations_of full_hash is_sent registry device.wake_key channel),
  )

  sync_outcome-silent :
      (registry : Option NotifyRegistry) (device : Unconfirmed) (distro blob : Bytes)
      (held total global_limit : ℕ) (o : EnqueueOutcome)
      → global_limit * 3 < 2 ^ 64
      → let r =
          sync_outcome full_hash is_sent limit_for now id registry device distro blob held total
            global_limit o in
        let silent =
          ltb (un_pulled_after held o device.queue_key distro) 64
          && ltb total (global_limit * 3 / 4) in
        (is_silent r ≡ silent)
        × (r.queued ≡ is_queued o)
        × (r.woken ≡ (not silent && any_sent registry device blob none))
  unfolding sync_outcome wake_after_queueing
  sync_outcome-silent registry device distro blob held total global_limit o small =
      let n = un_pulled_after held o device.queue_key distro in
      subst
        (λ (x : Bool).
          let r =
            sync_outcome full_hash is_sent limit_for now id registry device distro blob held total
              global_limit o in
          (is_silent r ≡ x)
          × (r.queued ≡ is_queued o)
          × (r.woken ≡ (not x && any_sent registry device blob none)))
        (bounds_met-is_empty n total global_limit small)
        (elim (Bool-cases (is_empty (bounds_met n total global_limit))) [
          | inl silent ↦ rw (silent, sync_outcome) (refl, refl, refl)
          | inr pushed ↦
              rw (pushed, sync_outcome)
                (
                  refl,
                  refl,
                  any-length _ (registrations_of full_hash is_sent registry device.wake_key none),
                )
        ])

  -- With one bucket for each subscriber and a global limit under 2 ^ 62, the hand-off of a blob with an
  -- accepted sync proof enqueues it, and tries no push exactly when the device then has fewer than
  -- 64 blobs of the distribution list queued and the queue held less than three quarters of its
  -- limit; without a push the blob is queued, so it is never lost in silence; the device is woken
  -- exactly when a push was tried and a wake left through a registration.
  pub sync_hand_off-silent :
      (q : DeferredQueue) (registry : Option NotifyRegistry) (device : Unconfirmed)
      (distro blob : Bytes)
      → OneBucket q
      → q.global_limit < 2 ^ 62
      → let after = enqueue q device.queue_key distro blob (limit_for device.queue_key) now id in
        let r =
          distro_hand_off full_hash is_sent limit_for now id queue_only
            (some q)
            registry
            device
            distro
            blob in
        let silent =
          ltb (count_matching after.0 device.queue_key distro) 64
          && ltb (total_len q) (q.global_limit * 3 / 4) in
        (r.0 ≡ some after.0)
        × (is_silent r.1 ≡ silent)
        × (r.1.queued ≡ (silent || is_queued after.1))
        × (r.1.woken ≡ (not silent && any_sent registry device blob none))
  unfolding distro_hand_off sync_hand_off
  sync_hand_off-silent q registry device distro blob d small =
      let after = enqueue q device.queue_key distro blob (limit_for device.queue_key) now id in
      let held = count_matching q device.queue_key distro in
      let one =
        sync_outcome-silent registry device distro blob held (total_len q) q.global_limit after.1
          (omega (arith, small)) in
      let count =
        count_matching-enqueue q device.queue_key distro blob (limit_for device.queue_key) now id
          d in
      (
        refl,
        one.0 ∙ ap (λ (n : ℕ). ltb n 64 && ltb (total_len q) (q.global_limit * 3 / 4)) (sym count),
        one.1
            ∙ queued_when_silent (count_matching after.0 device.queue_key distro) after.1 (λ h.
              not_queued-full q device.queue_key distro blob (limit_for device.queue_key) now id d
                h),
        one.2
            ∙ ap
                (λ (n : ℕ).
                  not (ltb n 64 && ltb (total_len q) (q.global_limit * 3 / 4))
                  && any_sent registry device blob none)
                (sym count),
      )
    where
      queued_when_silent :
          (n : ℕ) (o : EnqueueOutcome)
          → (is_queued o ≡ false → q.global_limit ≤ total_len q)
          → is_queued o ≡ ((ltb n 64 && ltb (total_len q) (q.global_limit * 3 / 4)) || is_queued o)
      queued_when_silent n o full = elim (Bool-cases (is_queued o)) [
        | inl in_queue ↦ ground arith
        | inr out ↦ ground (arith, full out)
      ]

  -- The queue has one bucket for each subscriber, and a global limit under 2 ^ 62.
  abbrev pub IsSound : Option DeferredQueue → Type 0
  IsSound none = Unit
  IsSound (some q) = OneBucket q × (q.global_limit < 2 ^ 62)

  -- Why a queue does not take a blob: its lock is poisoned, or it is full.
  abbrev pub IsShut : Option DeferredQueue → Type 0
  IsShut none = Unit
  IsShut (some q) = q.global_limit ≤ total_len q

  -- With a queue of one bucket for each subscriber and a global limit under 2 ^ 62, or one whose lock is
  -- poisoned: a blob that a hand-off of either kind does not leave queued met a poisoned lock or a full
  -- queue, and it is never lost in silence: the wake of its device is tried, which is woken exactly
  -- when a wake left through a registration.
  pub distro_hand_off-unqueued :
      (wake : Wake) (queue : Option DeferredQueue) (registry : Option NotifyRegistry)
      (device : Unconfirmed) (distro blob : Bytes)
      → IsSound queue
      → (distro_hand_off full_hash is_sent limit_for now id wake queue registry device distro
          blob).1.queued
        ≡ false
      → IsShut queue
        × ((distro_hand_off full_hash is_sent limit_for now id wake queue registry device distro
              blob).1.woken
            ≡ any_sent registry device blob none)
  unfolding distro_hand_off sync_hand_off queue_then_wake queue_for wake_after_queueing
  distro_hand_off-unqueued push none registry device distro blob sound out =
      (tt, any-length _ (registrations_of full_hash is_sent registry device.wake_key none))
  distro_hand_off-unqueued queue_only none registry device distro blob sound out =
      (tt, any-length _ (registrations_of full_hash is_sent registry device.wake_key none))
  distro_hand_off-unqueued push (some q) registry device distro blob sound out =
      let pushed = queue_then_wake-woken q registry device distro blob none in
      (
        not_queued-full q device.queue_key distro blob (limit_for device.queue_key) now id sound.0
            (sym pushed.1 ∙ out),
        pushed.2,
      )
  distro_hand_off-unqueued queue_only (some q) registry device distro blob sound out =
      let kept = sync_hand_off-silent q registry device distro blob sound.0 sound.1 in
      let lost = neither _ _ (sym kept.2 ∙ out) in
      (
        not_queued-full q device.queue_key distro blob (limit_for device.queue_key) now id sound.0
            lost.1,
        kept.3 ∙ tried lost.0,
      )
    where
      neither : (a b : Bool) → (a || b) ≡ false → (a ≡ false) × (b ≡ false)
      neither false b h = (refl, h)
      neither true b h = absurd (ground (arith, h))

      tried : {a b : Bool} → a ≡ false → (not a && b) ≡ b
      tried h = ground (arith, h)
