-- ===== src/Fanout/Ways.antt =====
-- Which way `fanout_blob` of rfed/src/fanout.rs means to send each subscriber's blob, by what the
-- sessions, the paths and the packets come to, apart from what it then does.
use rfed.Base.{List, [], ◌∷◌, ◌++◌, Option, none, some, Bytes, Bool, false, if◌then◌else◌, ltb}
use rfed.Dict.{Dict}
use rfed.Session.Registry.{Sessions, has_channel_session, dispatch_channel}
use rfed.Session.Streams.{ChannelStreamSession, dispatch_channel_stream}
use rfed.Fanout.Channel.{
  Surroundings, Subscriber, receipt, no_interface, send_error, Route, suppressed, by_link,
  by_stream, by_packet, handed, Fanning,
}

-- The registries that subscribers are reached through.
pub record Reach : Type 0 where
  pub links : Option Sessions
  pub streams : Option (Dict Bytes ChannelStreamSession)

-- The route of a blob, and the destination that a path is requested for.
abbrev pub Way : Type 0
Way = Route × List Bytes

module _ {S : Type 0} (w : Surroundings S) where
  -- A link of the subscriber that wants the channel took the push.
  abbrev pub link_takes : Option Sessions → Bytes → Bool
  link_takes none sub = false
  link_takes (some sessions) sub =
      if has_channel_session sessions sub w.channel
      then ltb 0
          (dispatch_channel (w.is_alive sub) (w.push_request sub) sessions sub w.channel).1.sent
      else false

  abbrev pub links_left : Option Sessions → Bytes → Option Sessions
  links_left none sub = none
  links_left (some sessions) sub = some (
      if has_channel_session sessions sub w.channel
      then (dispatch_channel (w.is_alive sub) (w.push_request sub) sessions sub w.channel).0
      else sessions)

  -- A stream of the subscriber that wants the channel took the push.
  abbrev pub stream_takes : Option (Dict Bytes ChannelStreamSession) → Bytes → Bool
  stream_takes none sub = false
  stream_takes (some sessions) sub =
      ltb 0 (dispatch_channel_stream (w.is_alive sub) (w.send sub) sessions sub w.channel).1.sent

  abbrev pub streams_left :
      Option (Dict Bytes ChannelStreamSession) → Bytes → Option (Dict Bytes ChannelStreamSession)
  streams_left none sub = none
  streams_left (some sessions) sub =
      some (dispatch_channel_stream (w.is_alive sub) (w.send sub) sessions sub w.channel).0

  -- Without a session: a packet, along a known path to a known destination, that gets a receipt.
  abbrev pub packet_way : Bytes → Bytes → Way
  packet_way sub dest = elim (w.send_packet sub) [
    | receipt ↦ (by_packet, [])
    | no_interface ↦ (handed, dest ∷ [])
    | send_error ↦ (handed, [])
  ]

  abbrev pub delivery_way : Bytes → Way
  delivery_way sub = elim (w.destination sub) [
    | none ↦ (handed, [])
    | some dest ↦ if w.has_path dest then packet_way sub dest else (handed, [])
  ]

  abbrev pub streams_way : Reach → Bytes → Reach × Way
  streams_way x sub = (
    record x { streams = streams_left x.streams sub },
    if stream_takes x.streams sub then (by_stream, []) else delivery_way sub,
  )

  -- A link is tried first, then a stream.
  abbrev pub links_way : Reach → Bytes → Reach × Way
  links_way x sub =
      let x' : Reach = record x { links = links_left x.links sub } in
      if link_takes x.links sub then (x', (by_link, [])) else streams_way x' sub

  abbrev pub owned_elsewhere : Option Bytes → Bool
  owned_elsewhere none = false
  owned_elsewhere (some owner) = w.recalls owner

  abbrev pub way_of : Reach → Subscriber → Reach × Way
  way_of x sub = if owned_elsewhere sub.1 then (x, (suppressed, [])) else links_way x sub.0

  -- The subscribers in order, each with what the ones before it left.
  abbrev pub ways_of : Reach → List Subscriber → Reach × List Route × List Bytes
  ways_of x [] = (x, [], [])
  ways_of x (sub ∷ subs) =
      let o = way_of x sub in
      let later = ways_of o.0 subs in (later.0, o.1.0 ∷ later.1, o.1.1 ++ later.2)

  -- What a state reaches the subscribers through.
  abbrev pub reach : Fanning S → Reach
  reach s = record { links = s.links; streams = s.streams }
