-- ===== src/Distro/Counted.antt =====
-- The counts of `distro_fanout` in rfed/src/distro.rs, and the hand-offs that it makes.
use rfed.Base.{
  ℕ, suc, ◌+◌, ◌≤◌, ◌≡◌, refl, List, [], ◌∷◌, Option, none, some, Bytes, Bool, length, arith,
  Bool-cases, Option-cases, inl, inr, ap, filter,
}
use rfed.Dict.{Dict}
use rfed.Session.Registry.{Sessions}
use rfed.Session.Streams.{Sent, PropagationStreamSession}
use rfed.HandOff.Route.{Unconfirmed, HandOffOutcome}
use rfed.Distro.Table.{DistroEntry}
use rfed.Distro.Fates.{
  Fate, live, keyless, handed, is_live, is_keyless, is_handed, was_queued, was_woken, reasons,
  live_devices, Reach, fate_of, fates_of,
}
use rfed.Distro.Tally.{Tallied, fan_loop-Tallied}
use rfed.Distro.Fanout.{
  DistroFanout, no_devices, count, Fanning, unconfirmed, push_link, push_stream, hand_off_now,
  fan_stream, fan_device, fan_loop, distro_fanout,
}

-- The counts agree, after so many devices.
pub record Counted {S : Type 0} (s : Fanning S) (done : ℕ) : Type 0 where
  pub all : s.fanned.pushed_live + s.fanned.handed_off + s.fanned.unkeyed ≡ done
  pub queued : s.fanned.queued ≤ s.fanned.handed_off
  pub woken : s.fanned.woken ≤ s.fanned.handed_off
  pub because : length s.fanned.woken_because ≤ s.fanned.woken
  pub hooks : length s.on_deliver ≡ s.fanned.pushed_live

-- Before the first device: nothing counted but the devices, and no hook called.
abbrev pub none_fanned :
    {S : Type 0}
    → Option Sessions
    → Option (Dict Bytes PropagationStreamSession)
    → S
    → ℕ
    → Fanning S
none_fanned links streams rest devices = record {
  links = links;
  streams = streams;
  rest = rest;
  on_deliver = [];
  fanned = record no_devices { devices = devices };
}

every_fate :
    (fates : List Fate)
    → length (filter is_live fates)
        + length (filter is_handed fates)
        + length (filter is_keyless fates)
      ≡ length fates
every_fate [] = omega arith
every_fate (live ∷ fates) = omega (arith, every_fate fates)
every_fate (keyless ∷ fates) = omega (arith, every_fate fates)
every_fate (handed o ∷ fates) = omega (arith, every_fate fates)

queued_of_handed :
    (fates : List Fate) → length (filter was_queued fates) ≤ length (filter is_handed fates)
queued_of_handed [] = omega arith
queued_of_handed (live ∷ fates) = queued_of_handed fates
queued_of_handed (keyless ∷ fates) = queued_of_handed fates
queued_of_handed (handed o ∷ fates) = elim (Bool-cases o.queued) [
  | inl queued ↦ rw queued (omega (arith, queued_of_handed fates))
  | inr lost ↦ rw lost (omega (arith, queued_of_handed fates))
]

woken_of_handed :
    (fates : List Fate) → length (filter was_woken fates) ≤ length (filter is_handed fates)
woken_of_handed [] = omega arith
woken_of_handed (live ∷ fates) = woken_of_handed fates
woken_of_handed (keyless ∷ fates) = woken_of_handed fates
woken_of_handed (handed o ∷ fates) = elim (Bool-cases o.woken) [
  | inl woken ↦ rw woken (omega (arith, woken_of_handed fates))
  | inr asleep ↦ rw asleep (omega (arith, woken_of_handed fates))
]

length-reasons : (fates : List Fate) → length (reasons fates) ≤ length (filter was_woken fates)
length-reasons [] = omega arith
length-reasons (live ∷ fates) = length-reasons fates
length-reasons (keyless ∷ fates) = length-reasons fates
length-reasons (handed o ∷ fates) = elim (Bool-cases o.woken) [
  | inl woken ↦ elim (Option-cases o.pushed_because) [
    | inl unknown ↦ rw (woken, unknown) (omega (arith, length-reasons fates))
    | inr (why, known) ↦ rw (woken, known) (omega (arith, length-reasons fates))
  ]
  | inr asleep ↦ rw asleep (length-reasons fates)
]

length-live_devices :
    (devices : List DistroEntry) (fates : List Fate)
    → length fates ≡ length devices
    → length (live_devices devices fates) ≡ length (filter is_live fates)
length-live_devices [] [] h = refl
length-live_devices [] (fate ∷ fates) h = absurd (omega (arith, h))
length-live_devices (entry ∷ devices) [] h = refl
length-live_devices (entry ∷ devices) (live ∷ fates) h =
    omega (arith, h, length-live_devices devices fates)
length-live_devices (entry ∷ devices) (keyless ∷ fates) h =
    length-live_devices devices fates (omega (arith, h))
length-live_devices (entry ∷ devices) (handed o ∷ fates) h =
    length-live_devices devices fates (omega (arith, h))

-- Tallies from nothing agree.
Tallied-Counted :
    {S : Type 0} {links : Option Sessions} {streams : Option (Dict Bytes PropagationStreamSession)}
    {rest : S} {r : Fanning S} {left : Reach S} (devices : List DistroEntry) (fates : List Fate)
    → length fates ≡ length devices
    → Tallied (none_fanned links streams rest (length devices)) r devices left fates
    → Counted r (length devices)
Tallied-Counted devices fates h t = record {
  all = omega (arith, h, t.pushed_live, t.handed_off, t.unkeyed, every_fate fates);
  queued = omega (arith, t.queued, t.handed_off, queued_of_handed fates);
  woken = omega (arith, t.woken, t.handed_off, woken_of_handed fates);
  because = omega (arith, ap length t.because, t.woken, length-reasons fates);
  hooks = omega (arith, ap length t.hooks, t.pushed_live, length-live_devices devices fates h);
}

module _ {S : Type 0} (identity_hash : Bytes → Option Bytes) (is_alive : Bytes → Bytes → Bool)
    (push_request : Bytes → Bytes → Bool) (send : Bytes → Bytes → Sent)
    (hand_off : S → Unconfirmed → S × HandOffOutcome) where
  length-fates_of :
      (w : Reach S) (entries : List DistroEntry)
      → length (fates_of identity_hash is_alive push_request send hand_off w entries).1
        ≡ length entries
  length-fates_of w [] = refl
  length-fates_of w (entry ∷ entries) = ap suc (
      length-fates_of (fate_of identity_hash is_alive push_request send hand_off w entry).0 entries)

  -- The hand-offs of the devices with a key, in order.
  abbrev pub hand_all : S → List DistroEntry → S
  hand_all s [] = s
  hand_all s (entry ∷ entries) =
      elim (unconfirmed identity_hash is_alive push_request send hand_off entry) [
        | none ↦ hand_all s entries
        | some device ↦ hand_all (hand_off s device).0 entries
      ]

  abbrev offline : S → List Bytes → DistroFanout → Fanning S
  offline rest on_deliver fanned = record {
    links = none;
    streams = none;
    rest = rest;
    on_deliver = on_deliver;
    fanned = fanned;
  }

  fan_loop-offline :
      (entries : List DistroEntry) (rest : S) (on_deliver : List Bytes) (fanned : DistroFanout)
      → (fan_loop identity_hash is_alive push_request send hand_off
          (offline rest on_deliver fanned)
          entries).rest
        ≡ hand_all rest entries
  unfolding fan_loop fan_device fan_stream push_link push_stream
  fan_loop-offline [] rest on_deliver fanned = refl
  fan_loop-offline (entry ∷ entries) rest on_deliver fanned =
      next (unconfirmed identity_hash is_alive push_request send hand_off entry)
        (λ r f. fan_loop-offline entries r on_deliver f)
    where
      next :
          (device : Option Unconfirmed)
          → ((r : S) (f : DistroFanout)
              → (fan_loop identity_hash is_alive push_request send hand_off
                  (offline r on_deliver f)
                  entries).rest
                ≡ hand_all r entries)
          → (fan_loop identity_hash is_alive push_request send hand_off
              (hand_off_now identity_hash is_alive push_request send hand_off
                (offline rest on_deliver fanned)
                device)
              entries).rest
            ≡ elim device [
              | none ↦ hand_all rest entries
              | some d ↦ hand_all (hand_off rest d).0 entries
            ]
      next none later = later rest (record fanned { unkeyed = fanned.unkeyed + 1 })
      next (some d) later = later (hand_off rest d).0 (count fanned (hand_off rest d).1)

  -- Whatever the links and streams take and the hand-offs come to: with what became of each device, in
  -- order (a link of it took the push, or else a stream did, or else it was handed off under the hash of
  -- its key, or its key is invalid), the counts of live pushes, hand-offs, unkeyed, queued and woken
  -- devices are each how many devices that became of; the reasons are those of the woken devices and
  -- the deliver hooks those of the live pushes, in order; the registries and the rest are what the
  -- pushes and the hand-offs left. Each device is counted once. With no registry of sessions, exactly
  -- the devices with a key are handed off, in order.
  pub distro_fanout-Counted :
      (links : Option Sessions) (streams : Option (Dict Bytes PropagationStreamSession)) (rest : S)
      (devices : List DistroEntry)
      → let start : Reach S = record { links = links; streams = streams; rest = rest } in
        let fates = fates_of identity_hash is_alive push_request send hand_off start devices in
        Tallied
          (none_fanned links streams rest (length devices))
          (distro_fanout identity_hash is_alive push_request send hand_off links streams rest
            devices)
          devices
          fates.0
          fates.1
        × Counted
            (distro_fanout identity_hash is_alive push_request send hand_off links streams rest
              devices)
            (length devices)
        × ((distro_fanout identity_hash is_alive push_request send hand_off none none rest
              devices).rest
            ≡ hand_all rest devices)
  unfolding distro_fanout
  distro_fanout-Counted links streams rest devices =
      let start : Reach S = record { links = links; streams = streams; rest = rest } in
      let tallied =
        fan_loop-Tallied identity_hash is_alive push_request send hand_off devices
          (none_fanned links streams rest (length devices)) in
      (
        tallied,
        Tallied-Counted devices _ (length-fates_of start devices) tallied,
        fan_loop-offline devices rest [] (record no_devices { devices = length devices }),
      )
