-- ===== src/Fanout/Routes.antt =====
-- Which route each subscriber's blob takes in `fanout_blob` of rfed/src/fanout.rs.
use rfed.Base.{
  ℕ, suc, ◌≡◌, refl, List, [], ◌∷◌, ◌++◌, Bytes, Bool, true, false, if◌then◌else◌, arith,
  Bool-cases, Option-cases, inl, inr, ap, ◌∙◌, sym,
}
use rfed.Dict.{holds}
use rfed.Fanout.Channel.{
  Surroundings, Subscriber, PacketSent, receipt, no_interface, send_error, Route, suppressed,
  by_link, by_stream, by_packet, handed, Fanning, push_link, push_stream, pushed, hand_off_now,
  fan_packet, fan_delivery, fan_stream, fan_link, fan_subscriber,
}

abbrev pub is_suppression : Route → Bool
is_suppression suppressed = true
is_suppression _ = false

abbrev pub is_hand_off : Route → Bool
is_hand_off handed = true
is_hand_off _ = false

-- A push that is under way.
abbrev pub is_push : Route → Bool
is_push by_link = true
is_push by_stream = true
is_push by_packet = true
is_push _ = false

module _ {S : Type 0} (w : Surroundings S) where
  -- One subscriber's blob took a route: it is added to the routes, a hand-off was made just if that is
  -- the route, and the deliver hook ran just if it is a push.
  pub record Took (s r : Fanning S) (sub : Subscriber) (route : Route) : Type 0 where
    pub routes : r.routes ≡ s.routes ++ route ∷ []
    pub rest : r.rest ≡ (
        if is_hand_off route
        then w.hand_off s.rest (record { queue_key = sub.0; wake_key = w.notify_key sub.0 })
        else s.rest)
    pub handed_off : r.handed_off ≡ (if is_hand_off route then suc s.handed_off else s.handed_off)
    pub on_deliver :
        r.on_deliver ≡ (if is_push route then s.on_deliver ++ sub.0 ∷ [] else s.on_deliver)
    pub suppression : is_suppression route ≡ holds w.recalls sub.1

  hand_off_now-Took :
      (s : Fanning S) (sub : Subscriber)
      → holds w.recalls sub.1 ≡ false
      → Took s (hand_off_now w s sub.0) sub handed
  unfolding hand_off_now
  hand_off_now-Took s sub h = record {
    routes = refl;
    rest = refl;
    handed_off = omega arith;
    on_deliver = refl;
    suppression = sym h;
  }

  -- A subscriber that is not suppressed takes a route that is none.
  abbrev pub Routed : Fanning S → Fanning S → Subscriber → Type 0
  Routed s r sub = (route : Route) × Took s r sub route

  pushed-Routed :
      (s : Fanning S) (sub : Subscriber) (route : Route)
      → is_push route ≡ true
      → holds w.recalls sub.1 ≡ false
      → Routed s (pushed w s sub.0 route) sub
  pushed-Routed s sub by_link p h = (
    by_link,
    record {
      routes = refl;
      rest = refl;
      handed_off = refl;
      on_deliver = refl;
      suppression = sym h;
    },
  )
  pushed-Routed s sub by_stream p h = (
    by_stream,
    record {
      routes = refl;
      rest = refl;
      handed_off = refl;
      on_deliver = refl;
      suppression = sym h;
    },
  )
  pushed-Routed s sub by_packet p h = (
    by_packet,
    record {
      routes = refl;
      rest = refl;
      handed_off = refl;
      on_deliver = refl;
      suppression = sym h;
    },
  )
  pushed-Routed s sub suppressed p h = absurd (ground arith)
  pushed-Routed s sub handed p h = absurd (ground arith)

  fan_packet-Routed :
      (s : Fanning S) (sub : Subscriber) (dest : Bytes)
      → holds w.recalls sub.1 ≡ false
      → Routed s (fan_packet w s sub.0 dest) sub
  unfolding fan_packet
  fan_packet-Routed s sub dest h = cases (w.send_packet sub.0)
    where
      cases :
          (sent : PacketSent)
          → Routed s
              (elim sent [
                | receipt ↦ pushed w s sub.0 by_packet
                | no_interface ↦
                    hand_off_now w (record s { path_requests = s.path_requests ++ dest ∷ [] }) sub.0
                | send_error ↦ hand_off_now w s sub.0
              ])
              sub
      cases receipt = pushed-Routed s sub by_packet refl h
      cases no_interface =
          let t =
            hand_off_now-Took (record s { path_requests = s.path_requests ++ dest ∷ [] }) sub h in
          (
            handed,
            record {
              routes = t.routes;
              rest = t.rest;
              handed_off = t.handed_off;
              on_deliver = t.on_deliver;
              suppression = t.suppression;
            },
          )
      cases send_error = (handed, hand_off_now-Took s sub h)

  fan_delivery-Routed :
      (s : Fanning S) (sub : Subscriber)
      → holds w.recalls sub.1 ≡ false
      → Routed s (fan_delivery w s sub.0) sub
  unfolding fan_delivery
  fan_delivery-Routed s sub h = elim (Option-cases (w.destination sub.0)) [
    | inl unknown ↦ rw (unknown, fan_delivery) (handed, hand_off_now-Took s sub h)
    | inr (dest, known) ↦ elim (Bool-cases (w.has_path dest)) [
      | inl path ↦ rw (known, fan_delivery, path) (fan_packet-Routed s sub dest h)
      | inr pathless ↦ rw (known, fan_delivery, pathless) (handed, hand_off_now-Took s sub h)
    ]
  ]

  -- A route taken from a state that differs in its registries only.
  rebased :
      (s s' r : Fanning S) (sub : Subscriber)
      → s'.routes ≡ s.routes
      → s'.rest ≡ s.rest
      → s'.handed_off ≡ s.handed_off
      → s'.on_deliver ≡ s.on_deliver
      → Routed s' r sub
      → Routed s r sub
  rebased s s' r sub a b c d (route, t) = (
    route,
    record {
      routes = t.routes ∙ ap (λ (x : List Route). x ++ route ∷ []) a;
      rest =
          t.rest
          ∙ ap
              (λ (x : S).
                if is_hand_off route
                then w.hand_off x (record { queue_key = sub.0; wake_key = w.notify_key sub.0 })
                else x)
              b;
      handed_off = t.handed_off ∙ ap (λ (x : ℕ). if is_hand_off route then suc x else x) c;
      on_deliver =
          t.on_deliver ∙ ap (λ (x : List Bytes). if is_push route then x ++ sub.0 ∷ [] else x) d;
      suppression = t.suppression;
    },
  )

  fan_stream-Routed :
      (s : Fanning S) (sub : Subscriber)
      → holds w.recalls sub.1 ≡ false
      → Routed s (fan_stream w s sub.0) sub
  unfolding fan_stream
  fan_stream-Routed s sub h =
      let o = push_stream w s.streams sub.0 in
      let s' : Fanning S = record s { streams = o.0 } in
      elim (Bool-cases o.1) [
        | inl live ↦
            rw live (rebased s s' _ sub refl refl refl refl (pushed-Routed s' sub by_stream refl h))
        | inr idle ↦ rw idle (rebased s s' _ sub refl refl refl refl (fan_delivery-Routed s' sub h))
      ]

  fan_link-Routed :
      (s : Fanning S) (sub : Subscriber)
      → holds w.recalls sub.1 ≡ false
      → Routed s (fan_link w s sub.0) sub
  unfolding fan_link
  fan_link-Routed s sub h =
      let o = push_link w s.links sub.0 in
      let s' : Fanning S = record s { links = o.0 } in
      elim (Bool-cases o.1) [
        | inl live ↦
            rw live (rebased s s' _ sub refl refl refl refl (pushed-Routed s' sub by_link refl h))
        | inr idle ↦ rw idle (rebased s s' _ sub refl refl refl refl (fan_stream-Routed s' sub h))
      ]

  pub fan_subscriber-Routed :
      (s : Fanning S) (sub : Subscriber) → Routed s (fan_subscriber w s sub) sub
  unfolding fan_subscriber
  fan_subscriber-Routed s sub = elim (Bool-cases (holds w.recalls sub.1)) [
    | inl owned ↦ rw owned (
      suppressed,
      record {
        routes = refl;
        rest = refl;
        handed_off = refl;
        on_deliver = refl;
        suppression = sym owned;
      },
    )
    | inr alone ↦ rw alone (fan_link-Routed s sub alone)
  ]
