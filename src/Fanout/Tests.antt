-- ===== src/Fanout/Tests.antt =====
-- The theorems on rfed/src/fanout.rs at three subscribers of a channel.
use rfed.Base.{
  ℕ, suc, ◌+◌, ◌^◌, ◌-◌, ◌≡◌, ◌≤◌, refl, List, [], ◌∷◌, ◌++◌, Option, none, some, Bytes, bytes_dec,
  ltb, subst, same, Bool, true, false, not, ◌&&◌, ◌||◌, ◌==◌, if◌then◌else◌, length, any, mem, map,
  filter, arith,
}
use rfed.Dict.{holds}
use rfed.Session.Registry.{LinkSession, Sessions}
use rfed.Session.Streams.{Sent, transmitted}
use rfed.Deferred.State.{PendingBlob, DeferredQueue, bucket_of}
use rfed.Deferred.Buckets.{OneBucket}
use rfed.Deferred.Load.{Row, load, load-IsValid}
use rfed.Deferred.Flush.{contains_ticket, flush_copies}
use rfed.HandOff.Route.{Unconfirmed}
use rfed.Fanout.Channel.{
  Surroundings, Subscriber, PacketSent, no_interface, Fanning, by_link, suppressed, handed,
  fanout_blob,
}
use rfed.Fanout.Ways.{reach, ways_of}
use rfed.Fanout.Routes.{is_suppression, is_hand_off}
use rfed.Fanout.Whole.{pushed_to, hand_routed, fanout_blob-Fanned}
use rfed.Fanout.Plan.{drop_expired}
use rfed.Fanout.Expired.{Short, elsewhere, drop_expired-elsewhere}
use rfed.Fanout.Flush.{FlushSurroundings, flush_queued}
use rfed.Fanout.Copies.{fates_of}
use rfed.Fanout.Sending.{AllMet}
use rfed.Fanout.Flushes.{nothing_sent, counted, sent, flush_queued-Flushed}

abbrev channel : Bytes
channel = 7 ∷ []

abbrev links : Option Sessions
links = some (
    (
      20 ∷ [],
      record {
        subscriber_hash = some (1 ∷ []);
        channel_hashes = channel ∷ [];
        delivery_hash = none;
      },
    )
    ∷ [])

-- The first has bound a link, the second is a backup whose owner is known, the third has no key.
abbrev subs : List Subscriber
subs = (1 ∷ [], none) ∷ (2 ∷ [], some (50 ∷ [])) ∷ (3 ∷ [], none) ∷ []

abbrev is_alive : Bytes → Bytes → Bool
is_alive sub link = true

abbrev send : Bytes → Bytes → Sent
send sub link = transmitted

abbrev recalls : Bytes → Bool
recalls owner = true

abbrev notify_key : Bytes → Bytes
notify_key sub = 0 ∷ sub

abbrev destination : Bytes → Option Bytes
destination sub = none

abbrev send_packet : Bytes → PacketSent
send_packet sub = no_interface

abbrev hand_off : List Unconfirmed → Unconfirmed → List Unconfirmed
hand_off before recipient = before ++ recipient ∷ []

abbrev meets : Surroundings (List Unconfirmed)
meets = record {
  is_alive = is_alive;
  push_request = is_alive;
  send = send;
  recalls = recalls;
  notify_key = notify_key;
  destination = destination;
  has_path = recalls;
  send_packet = send_packet;
  hand_off = hand_off;
  channel = channel;
}

abbrev fanned : Fanning (List Unconfirmed)
fanned = fanout_blob meets links none [] subs

fanned_routes : fanned.routes ≡ by_link ∷ suppressed ∷ handed ∷ []
unfolding fanout_blob rfed.Base.bytes_dec rfed.Session.Registry.delivered
    rfed.Session.Registry.dispatch
fanned_routes = refl

fanout_blob-Fanned_example :
    let ways = ways_of meets (record { links = links; streams = none }) subs in
    (fanned.routes ≡ ways.1)
    × (fanned.path_requests ≡ ways.2)
    × (reach meets fanned ≡ ways.0)
    × (length fanned.routes ≡ length subs)
    × (map is_suppression fanned.routes ≡ map (λ (sub : Subscriber). holds recalls sub.1) subs)
    × (fanned.rest ≡ hand_routed meets [] subs fanned.routes)
    × (fanned.handed_off ≡ length (filter is_hand_off fanned.routes))
    × (fanned.on_deliver ≡ pushed_to subs fanned.routes)
fanout_blob-Fanned_example = fanout_blob-Fanned meets links none [] subs

abbrev rows : List Row
rows =
    record {
      id = 1;
      subscriber_hash = 1 ∷ [];
      channel_hash = channel;
      blob = 10 ∷ [];
      enqueued_at = 5;
    }
    ∷ record {
      id = 2;
      subscriber_hash = 1 ∷ [];
      channel_hash = 8 ∷ [];
      blob = 11 ∷ [];
      enqueued_at = 6;
    }
    ∷ []

abbrev waiting : DeferredQueue
waiting = load none rows

waiting-OneBucket : OneBucket waiting
waiting-OneBucket = (load-IsValid none rows (omega arith)).0.one_bucket

waiting-Short : Short waiting
unfolding load bucket_of rfed.Dict.find rfed.Deferred.Load.number_all rfed.Deferred.Load.read_all
    rfed.Deferred.State.push_back rfed.Dict.put bytes_dec
waiting-Short j = elim (bytes_dec j (1 ∷ [])) [ yes own ↦ grind arith | no others ↦ grind arith ]

drop_expired-elsewhere_example :
    bucket_of (1 ∷ []) (drop_expired waiting ((1 ∷ []) ∷ (4 ∷ []) ∷ []) channel) ≡ (
      if mem (1 ∷ []) ((1 ∷ []) ∷ (4 ∷ []) ∷ [])
      then elsewhere channel (bucket_of (1 ∷ []) waiting)
      else bucket_of (1 ∷ []) waiting)
drop_expired-elsewhere_example =
    drop_expired-elsewhere waiting ((1 ∷ []) ∷ (4 ∷ []) ∷ []) channel (1 ∷ []) waiting-OneBucket
      waiting-Short

abbrev link_alive : PendingBlob → Bytes → Bool
link_alive e link = true

abbrev fits_packet : ℕ → Bool
fits_packet n = ltb n 400

-- The packet of the second blob finds no interface.
abbrev send_copy : PendingBlob → PacketSent
send_copy e = no_interface

abbrev sending : FlushSurroundings
sending = record {
  is_alive = link_alive;
  push_request = link_alive;
  has_hooks = true;
  fits_in_delivery_packet = fits_packet;
  has_destination = true;
  send_packet = send_copy;
}

abbrev wanted : Bytes → Bool
wanted routing = true

flush_queued-Flushed_example :
    let copies = (flush_copies waiting (1 ∷ []) wanted).1 in
    let r = flush_queued sending links waiting (1 ∷ []) wanted in
    AllMet sending (nothing_sent links) r.1 copies (fates_of sending links (1 ∷ []) copies)
    × (r.0.queue ≡ waiting.queue)
    × (r.0.held ≡ waiting.held)
    × (counted r.1.flushed ≡ length copies)
    × (sent r.1.flushed + length r.1.unsent ≡ length copies)
    × (length r.1.on_deliver ≡ (if true then sent r.1.flushed else 0))
    × ((t : ℕ)
        → (contains_ticket t r.1.unsent || any (λ e. e.ticket == t) copies)
          ≡ any (λ e. e.ticket == t) copies)
    × ((t : ℕ)
        → contains_ticket t r.0.in_flight ≡ (
            (contains_ticket t waiting.in_flight || any (λ e. e.ticket == t) copies)
            && not (contains_ticket t r.1.unsent)))
flush_queued-Flushed_example = flush_queued-Flushed sending links waiting (1 ∷ []) wanted

flushed_counts :
    let r = flush_queued sending links waiting (1 ∷ []) wanted in
    (r.1.flushed.by_link ≡ 1) × (r.1.flushed.not_sent ≡ 1)
unfolding flush_queued load rfed.Dict.find rfed.Deferred.Load.number_all rfed.Deferred.Load.read_all
    rfed.Deferred.State.push_back rfed.Dict.put bytes_dec rfed.Deferred.Flush.flush_filter
    rfed.Session.Registry.delivered rfed.Session.Registry.dispatch
flushed_counts = (refl, refl)
