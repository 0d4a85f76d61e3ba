-- ===== src/Distro/Fanout.antt =====
-- `distro_fanout` of rfed/src/distro.rs. A registry that the caller does not pass, or whose lock is
-- poisoned, is none. Log lines are left out.
use rfed.Base.{
  ℕ, ◌+◌, List, [], ◌∷◌, ◌++◌, Option, none, some, Bytes, Bool, true, false, if◌then◌else◌, length,
}
use rfed.Dict.{Dict}
use rfed.Session.Registry.{Sessions, delivered, dispatch_lxmf}
use rfed.Session.Streams.{Sent, PropagationStreamSession, dispatch_propagation_stream}
use rfed.HandOff.Route.{Unconfirmed, Because, HandOffOutcome}
use rfed.Distro.Table.{DistroEntry}

pub record DistroFanout : Type 0 where
  pub devices : ℕ
  pub pushed_live : ℕ
  pub handed_off : ℕ
  pub queued : ℕ
  pub woken : ℕ
  pub woken_because : List Because
  pub unkeyed : ℕ

abbrev pub no_devices : DistroFanout
no_devices = record {
  devices = 0;
  pushed_live = 0;
  handed_off = 0;
  queued = 0;
  woken = 0;
  woken_because = [];
  unkeyed = 0;
}

abbrev pub one_if : Bool → ℕ
one_if true = 1
one_if false = 0

abbrev pub as_list : Option Because → List Because
as_list none = []
as_list (some why) = why ∷ []

unfoldable pub count : DistroFanout → HandOffOutcome → DistroFanout
count f handed = record f {
  handed_off = f.handed_off + 1;
  queued = f.queued + one_if handed.queued;
  woken = f.woken + one_if handed.woken;
  woken_because =
      if handed.woken then f.woken_because ++ as_list handed.pushed_because else f.woken_because;
}

-- What a fan-out changes: the two registries, whatever its hand-offs change, the devices that a
-- deliver hook was called for, and the counts.
pub record Fanning (S : Type 0) : Type 0 where
  pub links : Option Sessions
  pub streams : Option (Dict Bytes PropagationStreamSession)
  pub rest : S
  pub on_deliver : List Bytes
  pub fanned : DistroFanout

-- The identity hash of a key; which links are alive and what they take, of a device's push; and the
-- hand-off.
module _ {S : Type 0} (identity_hash : Bytes → Option Bytes) (is_alive : Bytes → Bytes → Bool)
    (push_request : Bytes → Bytes → Bool) (send : Bytes → Bytes → Sent)
    (hand_off : S → Unconfirmed → S × HandOffOutcome) where
  unfoldable pub unconfirmed : DistroEntry → Option Unconfirmed
  unconfirmed entry = elim (identity_hash entry.device_pubkey) [
    | none ↦ none
    | some hash ↦ some (record { queue_key = hash; wake_key = entry.device_lxmf_hash })
  ]

  unfoldable pub push_link : Option Sessions → Bytes → Option Sessions × Bool
  push_link none device = (none, false)
  push_link (some sessions) device =
      let (left, result) = dispatch_lxmf (is_alive device) (push_request device) sessions device in
      (some left, delivered result)

  unfoldable pub push_stream :
      Option (Dict Bytes PropagationStreamSession)
      → Bytes
      → Option (Dict Bytes PropagationStreamSession) × Bool
  push_stream none device = (none, false)
  push_stream (some sessions) device =
      let (left, result) =
        dispatch_propagation_stream (is_alive device) (send device) sessions device in
      (some left, delivered result)

  abbrev pub pushed : Fanning S → Bytes → Fanning S
  pushed s device = record s {
    on_deliver = s.on_deliver ++ device ∷ [];
    fanned = record (s.fanned) { pushed_live = s.fanned.pushed_live + 1 };
  }

  -- A device with no live session.
  unfoldable pub hand_off_now : Fanning S → Option Unconfirmed → Fanning S
  unfolding count
  hand_off_now s none = record s { fanned = record (s.fanned) { unkeyed = s.fanned.unkeyed + 1 } }
  hand_off_now s (some device) =
      let (rest, handed) = hand_off s.rest device in
      record s { rest = rest; fanned = count s.fanned handed }

  unfoldable pub fan_stream : Fanning S → DistroEntry → Fanning S
  unfolding push_stream hand_off_now unconfirmed
  fan_stream s entry =
      let (left, live) = push_stream s.streams entry.device_lxmf_hash in
      let s' = record s { streams = left } in
      if live then pushed s' entry.device_lxmf_hash else hand_off_now s' (unconfirmed entry)

  unfoldable pub fan_device : Fanning S → DistroEntry → Fanning S
  unfolding push_link fan_stream
  fan_device s entry =
      let (left, live) = push_link s.links entry.device_lxmf_hash in
      let s' = record s { links = left } in
      if live then pushed s' entry.device_lxmf_hash else fan_stream s' entry

  unfoldable pub fan_loop : Fanning S → List DistroEntry → Fanning S
  unfolding fan_device
  fan_loop s [] = s
  fan_loop s (entry ∷ entries) = fan_loop (fan_device s entry) entries

  unfoldable pub distro_fanout :
      Option Sessions
      → Option (Dict Bytes PropagationStreamSession)
      → S
      → List DistroEntry
      → Fanning S
  unfolding fan_loop
  distro_fanout links streams rest devices =
      fan_loop
        (record {
          links = links;
          streams = streams;
          rest = rest;
          on_deliver = [];
          fanned = record no_devices { devices = length devices };
        })
        devices
