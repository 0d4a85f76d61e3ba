-- ===== src/Fanout/Channel.antt =====
-- `fanout_blob` of rfed/src/fanout.rs. A registry that the caller does not pass, or whose lock is
-- poisoned, is none. Log lines are left out, but for which route a subscriber's blob took.
use rfed.Base.{ℕ, ◌+◌, List, [], ◌∷◌, ◌++◌, Option, none, some, Bytes, Bool, false, if◌then◌else◌}
use rfed.Dict.{Dict, holds}
use rfed.Session.Registry.{Sessions, delivered, has_channel_session, dispatch_channel}
use rfed.Session.Streams.{Sent, ChannelStreamSession, dispatch_channel_stream}
use rfed.HandOff.Route.{Unconfirmed}

-- A subscriber, and the owner of a backup subscription.
abbrev pub Subscriber : Type 0
Subscriber = Bytes × Option Bytes

-- `send_with_receipt` of an `rfed.delivery` packet.
pub data PacketSent : Type 0 where
  receipt no_interface send_error : PacketSent

-- What became of one subscriber's blob: the last one was handed off here and now, the two in the
-- middle and the packet, whose proof may be required, hand it off later if no proof comes.
pub data Route : Type 0 where
  suppressed by_link by_stream by_packet handed : Route

-- What a fan-out changes: the two registries, whatever its hand-offs change, the subscribers that a
-- deliver hook was called for, the destinations that a path was requested for, how many were handed
-- off, and the routes.
pub record Fanning (S : Type 0) : Type 0 where
  pub links : Option Sessions
  pub streams : Option (Dict Bytes ChannelStreamSession)
  pub rest : S
  pub on_deliver : List Bytes
  pub path_requests : List Bytes
  pub handed_off : ℕ
  pub routes : List Route

-- What the fan-out of a blob on `channel` meets: which links of a subscriber are alive and what they
-- take; whether an owner's identity is known (`Identity::recall`); a subscriber's notify key, the hash of
-- its delivery destination if its identity is known and the destination can be built, whether there is
-- a path to that, what a packet comes to, and what a hand-off does.
pub record Surroundings (S : Type 0) : Type 0 where
  pub is_alive : Bytes → Bytes → Bool
  pub push_request : Bytes → Bytes → Bool
  pub send : Bytes → Bytes → Sent
  pub recalls : Bytes → Bool
  pub notify_key : Bytes → Bytes
  pub destination : Bytes → Option Bytes
  pub has_path : Bytes → Bool
  pub send_packet : Bytes → PacketSent
  pub hand_off : S → Unconfirmed → S
  pub channel : Bytes

module _ {S : Type 0} (w : Surroundings S) where
  abbrev pub is_suppressed : Subscriber → Bool
  is_suppressed sub = holds w.recalls sub.1

  abbrev pub recipient : Bytes → Unconfirmed
  recipient sub = record { queue_key = sub; wake_key = w.notify_key sub }

  unfoldable pub push_link : Option Sessions → Bytes → Option Sessions × Bool
  unfolding has_channel_session dispatch_channel
  push_link none sub = (none, false)
  push_link (some sessions) sub =
      if has_channel_session sessions sub w.channel
      then (
        some (dispatch_channel (w.is_alive sub) (w.push_request sub) sessions sub w.channel).0,
        delivered (dispatch_channel (w.is_alive sub) (w.push_request sub) sessions sub w.channel).1,
      )
      else (some sessions, false)

  unfoldable pub push_stream :
      Option (Dict Bytes ChannelStreamSession)
      → Bytes
      → Option (Dict Bytes ChannelStreamSession) × Bool
  unfolding dispatch_channel_stream
  push_stream none sub = (none, false)
  push_stream (some sessions) sub =
      let (left, result) =
        dispatch_channel_stream (w.is_alive sub) (w.send sub) sessions sub w.channel in
      (some left, delivered result)

  abbrev pub pushed : Fanning S → Bytes → Route → Fanning S
  pushed s sub route = record s {
    on_deliver = s.on_deliver ++ sub ∷ [];
    routes = s.routes ++ route ∷ [];
  }

  unfoldable pub hand_off_now : Fanning S → Bytes → Fanning S
  hand_off_now s sub = record s {
    rest = w.hand_off s.rest (recipient sub);
    handed_off = s.handed_off + 1;
    routes = s.routes ++ handed ∷ [];
  }

  unfoldable pub fan_packet : Fanning S → Bytes → Bytes → Fanning S
  unfolding hand_off_now
  fan_packet s sub dest = elim (w.send_packet sub) [
    | receipt ↦ pushed s sub by_packet
    | no_interface ↦ hand_off_now (record s { path_requests = s.path_requests ++ dest ∷ [] }) sub
    | send_error ↦ hand_off_now s sub
  ]

  unfoldable pub fan_delivery : Fanning S → Bytes → Fanning S
  unfolding fan_packet hand_off_now
  fan_delivery s sub = elim (w.destination sub) [
    | none ↦ hand_off_now s sub
    | some dest ↦ if w.has_path dest then fan_packet s sub dest else hand_off_now s sub
  ]

  unfoldable pub fan_stream : Fanning S → Bytes → Fanning S
  unfolding push_stream fan_delivery
  fan_stream s sub =
      let (left, live) = push_stream s.streams sub in
      let s' = record s { streams = left } in
      if live then pushed s' sub by_stream else fan_delivery s' sub

  unfoldable pub fan_link : Fanning S → Bytes → Fanning S
  unfolding push_link fan_stream
  fan_link s sub =
      let (left, live) = push_link s.links sub in
      let s' = record s { links = left } in
      if live then pushed s' sub by_link else fan_stream s' sub

  unfoldable pub fan_subscriber : Fanning S → Subscriber → Fanning S
  unfolding fan_link
  fan_subscriber s sub =
      if is_suppressed sub
      then record s { routes = s.routes ++ suppressed ∷ [] }
      else fan_link s sub.0

  unfoldable pub fan_loop : Fanning S → List Subscriber → Fanning S
  unfolding fan_subscriber
  fan_loop s [] = s
  fan_loop s (sub ∷ subs) = fan_loop (fan_subscriber s sub) subs

  unfoldable pub fanout_blob :
      Option Sessions → Option (Dict Bytes ChannelStreamSession) → S → List Subscriber → Fanning S
  unfolding fan_loop
  fanout_blob links streams rest subscribers =
      fan_loop
        (record {
          links = links;
          streams = streams;
          rest = rest;
          on_deliver = [];
          path_requests = [];
          handed_off = 0;
          routes = [];
        })
        subscribers
