-- ===== src/Fanout/Plan.antt =====
-- `FanoutPlan` of rfed/src/fanout.rs: what expired subscriptions had queued is dropped, and then the
-- blob is fanned out, with a hand-off that queues it and wakes the subscriber.
use rfed.Base.{
  ℕ, ◌-◌, ◌^◌, List, [], ◌∷◌, Option, none, some, Bytes, bytes_dec, Bool, if◌then◌else◌,
}
use rfed.Dict
use rfed.Dict.{Dict}
use rfed.Session.Registry.{Sessions}
use rfed.Session.Streams.{ChannelStreamSession}
use rfed.Deferred.State.{DeferredQueue}
use rfed.Deferred.Drain.{drain_channel_batch}
use rfed.Notify.Registry.{NotifyRegistration, NotifyRegistry}
use rfed.HandOff.Route.{Unconfirmed, queue_then_wake}
use rfed.Fanout.Channel.{Surroundings, Subscriber, Fanning, fanout_blob}

-- The registries and the queue that a plan shares with the node are arguments of `run`.
pub record FanoutPlan : Type 0 where
  pub subscribers : List Subscriber
  pub deferred_limits : Dict Bytes ℕ
  pub expired : List Bytes

abbrev pub usize_max : ℕ
usize_max = 2 ^ 64 - 1

unfoldable pub drop_expired : DeferredQueue → List Bytes → Bytes → DeferredQueue
unfolding drain_channel_batch
drop_expired q [] channel = q
drop_expired q (sub ∷ subs) channel =
    drop_expired (drain_channel_batch q sub channel usize_max).0 subs channel

abbrev pub dropped : Option DeferredQueue → List Bytes → Bytes → Option DeferredQueue
dropped none subs channel = none
dropped (some q) subs channel = some (drop_expired q subs channel)

abbrev pub limit_in : Dict Bytes ℕ → Bytes → ℕ
limit_in limits sub = elim (Dict.find bytes_dec sub limits) [ none ↦ 0 | some limit ↦ limit ]

-- The surroundings give what is not a hand-off's or the channel's; those are the plan's own.
module _ (w : Surroundings Unit) (full_hash : Bytes → Bytes)
    (is_sent : NotifyRegistration → Option Bytes → Option Bytes → Bool) (now : ℕ)
    (rowid : Option DeferredQueue → ℕ) where
  -- The hand-off of a channel's blob; the rowid is the one that the queue's next insert gets.
  abbrev pub hand_off_channel :
      FanoutPlan
      → Option NotifyRegistry
      → Bytes
      → Bytes
      → Option DeferredQueue
      → Unconfirmed
      → Option DeferredQueue
  hand_off_channel plan registry channel blob q recipient =
      (queue_then_wake full_hash is_sent (limit_in plan.deferred_limits) now (rowid q) q registry
        recipient channel blob (some channel)).0

  abbrev pub surroundings_of :
      FanoutPlan → Option NotifyRegistry → Bytes → Bytes → Surroundings (Option DeferredQueue)
  surroundings_of plan registry channel blob = record {
    is_alive = w.is_alive;
    push_request = w.push_request;
    send = w.send;
    recalls = w.recalls;
    notify_key = w.notify_key;
    destination = w.destination;
    has_path = w.has_path;
    send_packet = w.send_packet;
    hand_off = hand_off_channel plan registry channel blob;
    channel = channel;
  }

  -- Whether the hook registry's lock is poisoned comes first: then only the expired ones are dropped.
  unfoldable pub run :
      FanoutPlan
      → Bool
      → Option Sessions
      → Option (Dict Bytes ChannelStreamSession)
      → Option NotifyRegistry
      → Option DeferredQueue
      → Bytes
      → Bytes
      → Fanning (Option DeferredQueue)
  unfolding drop_expired fanout_blob queue_then_wake
  run plan poisoned links streams registry q channel blob =
      fanout_blob (surroundings_of plan registry channel blob) links streams
        (dropped q plan.expired channel) (if poisoned then [] else plan.subscribers)
