-- ===== src/Fanout/Went.antt =====
-- `fanout_blob` of rfed/src/fanout.rs sends each subscriber's blob the way that it means to.
use rfed.Base.{
  ◌≡◌, refl, List, [], ◌∷◌, ◌++◌, Option, none, some, Bytes, Bool, true, false, if◌then◌else◌,
  Bool-cases, inl, inr, ap, ◌∙◌, sym, append_assoc, append-nil, subst,
}
use rfed.Dict.{Dict}
use rfed.Session.Registry.{Sessions, delivered, has_channel_session}
use rfed.Session.Streams.{ChannelStreamSession}
use rfed.Fanout.Channel.{
  Surroundings, Subscriber, PacketSent, receipt, no_interface, send_error, Route, by_link,
  by_stream, by_packet, handed, Fanning, push_link, push_stream, pushed, hand_off_now, fan_packet,
  fan_delivery, fan_stream, fan_link, fan_subscriber, fan_loop,
}
use rfed.Fanout.Ways.{
  Reach, Way, link_takes, links_left, stream_takes, streams_left, packet_way, delivery_way,
  streams_way, links_way, way_of, ways_of, reach,
}

module _ {S : Type 0} (w : Surroundings S) where
  -- One subscriber's blob went that way.
  record Went (s r : Fanning S) (o : Reach × Way) : Type 0 where
    reached : reach w r ≡ o.0
    routes : r.routes ≡ s.routes ++ o.1.0 ∷ []
    requests : r.path_requests ≡ s.path_requests ++ o.1.1

  push_link-takes :
      (links : Option Sessions) (sub : Bytes)
      → push_link w links sub ≡ (links_left w links sub, link_takes w links sub)
  unfolding push_link delivered
  push_link-takes none sub = refl
  push_link-takes (some sessions) sub =
      elim (Bool-cases (has_channel_session sessions sub w.channel)) [
        | inl has ↦ rw has refl
        | inr lacks ↦ rw lacks refl
      ]

  push_stream-takes :
      (streams : Option (Dict Bytes ChannelStreamSession)) (sub : Bytes)
      → push_stream w streams sub ≡ (streams_left w streams sub, stream_takes w streams sub)
  unfolding push_stream delivered
  push_stream-takes none sub = refl
  push_stream-takes (some sessions) sub = refl

  hand_off_now-Went :
      (s : Fanning S) (sub : Bytes) → Went s (hand_off_now w s sub) (reach w s, (handed, []))
  unfolding hand_off_now
  hand_off_now-Went s sub = record {
    reached = refl;
    routes = refl;
    requests = sym (append-nil s.path_requests);
  }

  pushed-Went :
      (s : Fanning S) (sub : Bytes) (route : Route)
      → Went s (pushed w s sub route) (reach w s, (route, []))
  pushed-Went s sub route = record {
    reached = refl;
    routes = refl;
    requests = sym (append-nil s.path_requests);
  }

  fan_packet-Went :
      (s : Fanning S) (sub dest : Bytes)
      → Went s (fan_packet w s sub dest) (reach w s, packet_way w sub dest)
  unfolding fan_packet hand_off_now
  fan_packet-Went s sub dest = by_outcome (w.send_packet sub)
    where
      by_outcome :
          (sent : PacketSent)
          → Went s
              (elim sent [
                | receipt ↦ pushed w s sub by_packet
                | no_interface ↦
                    hand_off_now w (record s { path_requests = s.path_requests ++ dest ∷ [] }) sub
                | send_error ↦ hand_off_now w s sub
              ])
              (
                reach w s,
                elim sent [
                  | receipt ↦ (by_packet, [])
                  | no_interface ↦ (handed, dest ∷ [])
                  | send_error ↦ (handed, [])
                ],
              )
      by_outcome receipt = pushed-Went s sub by_packet
      by_outcome no_interface = record { reached = refl; routes = refl; requests = refl }
      by_outcome send_error = hand_off_now-Went s sub

  fan_delivery-Went :
      (s : Fanning S) (sub : Bytes) → Went s (fan_delivery w s sub) (reach w s, delivery_way w sub)
  unfolding fan_delivery
  fan_delivery-Went s sub = by_destination (w.destination sub)
    where
      by_path :
          (dest : Bytes) (path : Bool)
          → Went s
              (if path then fan_packet w s sub dest else hand_off_now w s sub)
              (reach w s, if path then packet_way w sub dest else (handed, []))
      by_path dest true = fan_packet-Went s sub dest
      by_path dest false = hand_off_now-Went s sub

      by_destination :
          (known : Option Bytes)
          → Went s
              (elim known [
                | none ↦ hand_off_now w s sub
                | some dest ↦
                    if w.has_path dest then fan_packet w s sub dest else hand_off_now w s sub
              ])
              (
                reach w s,
                elim known [
                  | none ↦ (handed, [])
                  | some dest ↦ if w.has_path dest then packet_way w sub dest else (handed, [])
                ],
              )
      by_destination none = hand_off_now-Went s sub
      by_destination (some dest) = by_path dest (w.has_path dest)

  fan_stream-Went :
      (s : Fanning S) (sub : Bytes) → Went s (fan_stream w s sub) (streams_way w (reach w s) sub)
  unfolding fan_stream
  fan_stream-Went s sub =
      rw (push_stream-takes s.streams sub) (if_taken (stream_takes w s.streams sub))
    where
      if_taken :
          (taken : Bool)
          → let s' : Fanning S = record s { streams = streams_left w s.streams sub } in
            Went s
              (if taken then pushed w s' sub by_stream else fan_delivery w s' sub)
              (reach w s', if taken then (by_stream, []) else delivery_way w sub)
      if_taken true =
          let t = pushed-Went (record s { streams = streams_left w s.streams sub }) sub by_stream in
          record { reached = t.reached; routes = t.routes; requests = t.requests }
      if_taken false =
          let t = fan_delivery-Went (record s { streams = streams_left w s.streams sub }) sub in
          record { reached = t.reached; routes = t.routes; requests = t.requests }

  fan_link-Went :
      (s : Fanning S) (sub : Bytes) → Went s (fan_link w s sub) (links_way w (reach w s) sub)
  unfolding fan_link
  fan_link-Went s sub = rw (push_link-takes s.links sub) (if_taken (link_takes w s.links sub))
    where
      if_taken :
          (taken : Bool)
          → let s' : Fanning S = record s { links = links_left w s.links sub } in
            Went s
              (if taken then pushed w s' sub by_link else fan_stream w s' sub)
              (if taken then (reach w s', (by_link, [])) else streams_way w (reach w s') sub)
      if_taken true =
          let t = pushed-Went (record s { links = links_left w s.links sub }) sub by_link in
          record { reached = t.reached; routes = t.routes; requests = t.requests }
      if_taken false =
          let t = fan_stream-Went (record s { links = links_left w s.links sub }) sub in
          record { reached = t.reached; routes = t.routes; requests = t.requests }

  fan_subscriber-Went :
      (s : Fanning S) (sub : Subscriber)
      → Went s (fan_subscriber w s sub) (way_of w (reach w s) sub)
  unfolding fan_subscriber
  fan_subscriber-Went s (sub, none) = fan_link-Went s sub
  fan_subscriber-Went s (sub, some owner) = elim (Bool-cases (w.recalls owner)) [
    | inl owned ↦
        rw owned
          (record { reached = refl; routes = refl; requests = sym (append-nil s.path_requests) })
    | inr alone ↦ rw alone (fan_link-Went s sub)
  ]

  -- The routes and the requests of a whole list.
  pub record AllWent (s r : Fanning S) (o : Reach × List Route × List Bytes) : Type 0 where
    pub reached : reach w r ≡ o.0
    pub routes : r.routes ≡ s.routes ++ o.1
    pub requests : r.path_requests ≡ s.path_requests ++ o.2

  after_first :
      {s next r : Fanning S} {o : Reach × Way} {later : Reach × List Route × List Bytes}
      → Went s next o
      → AllWent next r later
      → AllWent s r (later.0, o.1.0 ∷ later.1, o.1.1 ++ later.2)
  after_first {s} {o} {later} t l = record {
    reached = l.reached;
    routes =
        l.routes
        ∙ ap (λ (x : List Route). x ++ later.1) t.routes
        ∙ append_assoc s.routes (o.1.0 ∷ []) later.1;
    requests =
        l.requests
        ∙ ap (λ (x : List Bytes). x ++ later.2) t.requests
        ∙ append_assoc s.path_requests o.1.1 later.2;
  }

  pub fan_loop-AllWent :
      (subs : List Subscriber) (s : Fanning S)
      → AllWent s (fan_loop w s subs) (ways_of w (reach w s) subs)
  unfolding fan_loop
  fan_loop-AllWent [] s = record {
    reached = refl;
    routes = sym (append-nil s.routes);
    requests = sym (append-nil s.path_requests);
  }
  fan_loop-AllWent (sub ∷ subs) s =
      let next = fan_subscriber w s sub in
      let went = fan_subscriber-Went s sub in
      after_first went (
        subst (λ (x : Reach). AllWent next (fan_loop w next subs) (ways_of w x subs)) went.reached
          (fan_loop-AllWent subs next))
