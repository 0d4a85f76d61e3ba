-- ===== src/Distro/Fates.antt =====
-- What `distro_fanout` of rfed/src/distro.rs means to do with each device, apart from how it counts.
use rfed.Base.{
  List, [], ◌∷◌, ◌++◌, Option, none, some, Bytes, Bool, true, false, if◌then◌else◌, ltb,
}
use rfed.Dict.{Dict}
use rfed.Session.Registry.{Sessions, dispatch_lxmf}
use rfed.Session.Streams.{Sent, PropagationStreamSession, dispatch_propagation_stream}
use rfed.HandOff.Route.{Unconfirmed, Because, HandOffOutcome}
use rfed.Distro.Table.{DistroEntry}

-- A live session took the push, the device was handed off, or its key is invalid.
pub data Fate : Type 0 where
  live keyless : Fate
  handed : HandOffOutcome → Fate

abbrev pub is_live : Fate → Bool
is_live live = true
is_live _ = false

abbrev pub is_keyless : Fate → Bool
is_keyless keyless = true
is_keyless _ = false

abbrev pub is_handed : Fate → Bool
is_handed (handed o) = true
is_handed _ = false

abbrev pub was_queued : Fate → Bool
was_queued (handed o) = o.queued
was_queued _ = false

abbrev pub was_woken : Fate → Bool
was_woken (handed o) = o.woken
was_woken _ = false

-- The reasons of the devices that were woken.
abbrev pub reasons : List Fate → List Because
reasons [] = []
reasons (live ∷ fates) = reasons fates
reasons (keyless ∷ fates) = reasons fates
reasons (handed o ∷ fates) =
    (if o.woken then elim o.pushed_because [ none ↦ [] | some why ↦ why ∷ [] ] else [])
    ++ reasons fates

-- The devices whose push a live session took.
abbrev pub live_devices : List DistroEntry → List Fate → List Bytes
live_devices [] fates = []
live_devices (entry ∷ entries) [] = []
live_devices (entry ∷ entries) (fate ∷ fates) =
    if is_live fate
    then entry.device_lxmf_hash ∷ live_devices entries fates
    else live_devices entries fates

-- What the devices are reached through.
pub record Reach (S : Type 0) : Type 0 where
  pub links : Option Sessions
  pub streams : Option (Dict Bytes PropagationStreamSession)
  pub rest : S

module _ {S : Type 0} (identity_hash : Bytes → Option Bytes) (is_alive : Bytes → Bytes → Bool)
    (push_request : Bytes → Bytes → Bool) (send : Bytes → Bytes → Sent)
    (hand_off : S → Unconfirmed → S × HandOffOutcome) where
  -- A link of the device took the push.
  abbrev pub link_takes : Option Sessions → Bytes → Bool
  link_takes none device = false
  link_takes (some sessions) device =
      ltb 0 (dispatch_lxmf (is_alive device) (push_request device) sessions device).1.sent

  abbrev pub links_left : Option Sessions → Bytes → Option Sessions
  links_left none device = none
  links_left (some sessions) device =
      some (dispatch_lxmf (is_alive device) (push_request device) sessions device).0

  -- A stream of the device took the push.
  abbrev pub stream_takes : Option (Dict Bytes PropagationStreamSession) → Bytes → Bool
  stream_takes none device = false
  stream_takes (some sessions) device =
      ltb 0 (dispatch_propagation_stream (is_alive device) (send device) sessions device).1.sent

  abbrev pub streams_left :
      Option (Dict Bytes PropagationStreamSession)
      → Bytes
      → Option (Dict Bytes PropagationStreamSession)
  streams_left none device = none
  streams_left (some sessions) device =
      some (dispatch_propagation_stream (is_alive device) (send device) sessions device).0

  -- A device without a live session: its key decides.
  abbrev pub without_session : Reach S → DistroEntry → Reach S × Fate
  without_session w entry = elim (identity_hash entry.device_pubkey) [
    | none ↦ (w, keyless)
    | some hash ↦
        let device : Unconfirmed = record { queue_key = hash; wake_key = entry.device_lxmf_hash } in
        (record w { rest = (hand_off w.rest device).0 }, handed (hand_off w.rest device).1)
  ]

  abbrev pub without_link : Reach S → DistroEntry → Reach S × Fate
  without_link w entry =
      let w' : Reach S = record w { streams = streams_left w.streams entry.device_lxmf_hash } in
      if stream_takes w.streams entry.device_lxmf_hash then (w', live) else without_session w' entry

  -- A link is tried first, then a stream.
  abbrev pub fate_of : Reach S → DistroEntry → Reach S × Fate
  fate_of w entry =
      let w' : Reach S = record w { links = links_left w.links entry.device_lxmf_hash } in
      if link_takes w.links entry.device_lxmf_hash then (w', live) else without_link w' entry

  -- The devices in order, each with what the ones before it left.
  abbrev pub fates_of : Reach S → List DistroEntry → Reach S × List Fate
  fates_of w [] = (w, [])
  fates_of w (entry ∷ entries) =
      let o = fate_of w entry in let later = fates_of o.0 entries in (later.0, o.1 ∷ later.1)
