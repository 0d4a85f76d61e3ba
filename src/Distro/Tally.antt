-- ===== src/Distro/Tally.antt =====
-- The counts of `distro_fanout` in rfed/src/distro.rs against what became of the devices.
use rfed.Base.{
  ℕ, suc, ◌+◌, ◌≡◌, refl, List, [], ◌∷◌, ◌++◌, Option, none, some, Bytes, Bool, true, false,
  if◌then◌else◌, length, filter, arith, Bool-cases, inl, inr, append_assoc, append-nil, subst, ap,
  ◌∙◌, sym,
}
use rfed.Dict.{Dict}
use rfed.Session.Registry.{Sessions, delivered}
use rfed.Session.Streams.{Sent, PropagationStreamSession}
use rfed.HandOff.Route.{Unconfirmed, Because, HandOffOutcome}
use rfed.Distro.Table.{DistroEntry}
use rfed.Distro.Fanout.{
  count, one_if, as_list, Fanning, unconfirmed, push_link, push_stream, pushed, hand_off_now,
  fan_stream, fan_device, fan_loop,
}
use rfed.Distro.Fates.{
  Fate, live, keyless, handed, is_live, is_keyless, is_handed, was_queued, was_woken, reasons,
  live_devices, Reach, link_takes, links_left, stream_takes, streams_left, without_session,
  without_link, fate_of, fates_of,
}

-- A state of a fan-out after a device met its fate.
abbrev after_fate : {S : Type 0} → Fanning S → Bytes → Reach S → Fate → Fanning S
after_fate s device w live = record s {
  links = w.links;
  streams = w.streams;
  rest = w.rest;
  on_deliver = s.on_deliver ++ device ∷ [];
  fanned = record (s.fanned) { pushed_live = s.fanned.pushed_live + 1 };
}
after_fate s device w keyless = record s {
  links = w.links;
  streams = w.streams;
  rest = w.rest;
  fanned = record (s.fanned) { unkeyed = s.fanned.unkeyed + 1 };
}
after_fate s device w (handed o) = record s {
  links = w.links;
  streams = w.streams;
  rest = w.rest;
  fanned = count s.fanned o;
}

-- What a state reaches the devices through.
abbrev pub reach : {S : Type 0} → Fanning S → Reach S
reach s = record { links = s.links; streams = s.streams; rest = s.rest }

reach-after_fate :
    {S : Type 0} (s : Fanning S) (device : Bytes) (w : Reach S) (fate : Fate)
    → reach (after_fate s device w fate) ≡ w
unfolding count
reach-after_fate s device w live = refl
reach-after_fate s device w keyless = refl
reach-after_fate s device w (handed o) = refl

-- The fan-out went from `s` to `r` over these devices, with these fates: each count rose by how many
-- devices met that fate.
pub record Tallied {S : Type 0} (s r : Fanning S) (over : List DistroEntry) (left : Reach S)
    (fates : List Fate) : Type 0 where
  pub reached : reach r ≡ left
  pub devices : r.fanned.devices ≡ s.fanned.devices
  pub pushed_live : r.fanned.pushed_live ≡ s.fanned.pushed_live + length (filter is_live fates)
  pub handed_off : r.fanned.handed_off ≡ s.fanned.handed_off + length (filter is_handed fates)
  pub unkeyed : r.fanned.unkeyed ≡ s.fanned.unkeyed + length (filter is_keyless fates)
  pub queued : r.fanned.queued ≡ s.fanned.queued + length (filter was_queued fates)
  pub woken : r.fanned.woken ≡ s.fanned.woken + length (filter was_woken fates)
  pub because : r.fanned.woken_because ≡ s.fanned.woken_because ++ reasons fates
  pub hooks : r.on_deliver ≡ s.on_deliver ++ live_devices over fates

one_more :
    (b : Bool) (r n k l : ℕ) → r ≡ n + one_if b + k → l ≡ (if b then suc k else k) → r ≡ n + l
one_more b r n k l h e = ground (arith, h, e)

because_more :
    (woken : Bool) (why : Option Because) (xs ys : List Because)
    → (if woken then xs ++ as_list why else xs) ++ ys
      ≡ xs ++ ((if woken then elim why [ none ↦ [] | some w ↦ w ∷ [] ] else []) ++ ys)
because_more false why xs ys = refl
because_more true none xs ys = append_assoc xs [] ys
because_more true (some w) xs ys = append_assoc xs (w ∷ []) ys

length-filter :
    {A : Type 0} (p : A → Bool) (x : A) (xs : List A)
    → length (filter p (x ∷ xs))
      ≡ (if p x then suc (length (filter p xs)) else length (filter p xs))
length-filter p x xs = elim (Bool-cases (p x)) [ inl h ↦ rw h refl | inr h ↦ rw h refl ]

next-Tallied :
    {S : Type 0} (s : Fanning S) (entry : DistroEntry) (w : Reach S) (fate : Fate) {r : Fanning S}
    {devices : List DistroEntry} {left : Reach S} {fates : List Fate}
    → Tallied (after_fate s entry.device_lxmf_hash w fate) r devices left fates
    → Tallied s r (entry ∷ devices) left (fate ∷ fates)
unfolding count
next-Tallied s entry w live t = record {
  reached = t.reached;
  devices = t.devices;
  pushed_live = omega (arith, t.pushed_live);
  handed_off = t.handed_off;
  unkeyed = t.unkeyed;
  queued = t.queued;
  woken = t.woken;
  because = t.because;
  hooks = t.hooks ∙ append_assoc s.on_deliver (entry.device_lxmf_hash ∷ []) _;
}
next-Tallied s entry w keyless t = record {
  reached = t.reached;
  devices = t.devices;
  pushed_live = t.pushed_live;
  handed_off = t.handed_off;
  unkeyed = omega (arith, t.unkeyed);
  queued = t.queued;
  woken = t.woken;
  because = t.because;
  hooks = t.hooks;
}
next-Tallied s entry w (handed o) {fates} t = record {
  reached = t.reached;
  devices = t.devices;
  pushed_live = t.pushed_live;
  handed_off = omega (arith, t.handed_off);
  unkeyed = t.unkeyed;
  queued = one_more o.queued _ _ _ _ t.queued (length-filter was_queued (handed o) fates);
  woken = one_more o.woken _ _ _ _ t.woken (length-filter was_woken (handed o) fates);
  because =
      t.because ∙ because_more o.woken o.pushed_because s.fanned.woken_because (reasons fates);
  hooks = t.hooks;
}

module _ {S : Type 0} (identity_hash : Bytes → Option Bytes) (is_alive : Bytes → Bytes → Bool)
    (push_request : Bytes → Bytes → Bool) (send : Bytes → Bytes → Sent)
    (hand_off : S → Unconfirmed → S × HandOffOutcome) where
  push_link-takes :
      (links : Option Sessions) (device : Bytes)
      → push_link identity_hash is_alive push_request send hand_off links device ≡ (
        links_left identity_hash is_alive push_request send hand_off links device,
        link_takes identity_hash is_alive push_request send hand_off links device,
      )
  unfolding push_link delivered
  push_link-takes none device = refl
  push_link-takes (some sessions) device = refl

  push_stream-takes :
      (streams : Option (Dict Bytes PropagationStreamSession)) (device : Bytes)
      → push_stream identity_hash is_alive push_request send hand_off streams device ≡ (
        streams_left identity_hash is_alive push_request send hand_off streams device,
        stream_takes identity_hash is_alive push_request send hand_off streams device,
      )
  unfolding push_stream delivered
  push_stream-takes none device = refl
  push_stream-takes (some sessions) device = refl

  -- `r` is `s` after the fate of a device.
  abbrev Met : Fanning S → DistroEntry → Reach S × Fate → Fanning S → Type 0
  Met s entry o r = r ≡ after_fate s entry.device_lxmf_hash o.0 o.1

  hand_off_now-Met :
      (s : Fanning S) (entry : DistroEntry)
      → Met s entry
          (without_session identity_hash is_alive push_request send hand_off (reach s) entry)
          (hand_off_now identity_hash is_alive push_request send hand_off s
            (unconfirmed identity_hash is_alive push_request send hand_off entry))
  unfolding hand_off_now unconfirmed
  hand_off_now-Met s entry = by_key (identity_hash entry.device_pubkey)
    where
      by_key :
          (key : Option Bytes)
          → Met s entry
              (elim key [
                | none ↦ (reach s, keyless)
                | some hash ↦
                    let device : Unconfirmed = record {
                      queue_key = hash;
                      wake_key = entry.device_lxmf_hash;
                    } in
                    (
                      record (reach s) { rest = (hand_off s.rest device).0 },
                      handed (hand_off s.rest device).1,
                    )
              ])
              (hand_off_now identity_hash is_alive push_request send hand_off s (elim key [
                | none ↦ none
                | some hash ↦ some (record { queue_key = hash; wake_key = entry.device_lxmf_hash })
              ]))
      by_key none = refl
      by_key (some hash) = refl

  fan_stream-Met :
      (s : Fanning S) (entry : DistroEntry)
      → Met s entry
          (without_link identity_hash is_alive push_request send hand_off (reach s) entry)
          (fan_stream identity_hash is_alive push_request send hand_off s entry)
  unfolding fan_stream
  fan_stream-Met s entry = rw (push_stream-takes s.streams entry.device_lxmf_hash) (
      by_stream (
        stream_takes identity_hash is_alive push_request send hand_off s.streams
          entry.device_lxmf_hash))
    where
      by_stream :
          (taken : Bool)
          → let s' : Fanning S = record s {
            streams =
                streams_left identity_hash is_alive push_request send hand_off s.streams
                  entry.device_lxmf_hash;
          } in
            Met s entry
              (if taken
                then (reach s', live)
                else without_session identity_hash is_alive push_request send hand_off
                    (reach s')
                    entry)
              (if taken
                then pushed identity_hash is_alive push_request send hand_off s'
                    entry.device_lxmf_hash
                else hand_off_now identity_hash is_alive push_request send hand_off s'
                    (unconfirmed identity_hash is_alive push_request send hand_off entry))
      by_stream true = refl
      by_stream false =
          hand_off_now-Met
            (record s {
              streams =
                  streams_left identity_hash is_alive push_request send hand_off s.streams
                    entry.device_lxmf_hash;
            })
            entry

  fan_device-Met :
      (s : Fanning S) (entry : DistroEntry)
      → Met s entry
          (fate_of identity_hash is_alive push_request send hand_off (reach s) entry)
          (fan_device identity_hash is_alive push_request send hand_off s entry)
  unfolding fan_device
  fan_device-Met s entry = rw (push_link-takes s.links entry.device_lxmf_hash) (
      by_link (
        link_takes identity_hash is_alive push_request send hand_off s.links
          entry.device_lxmf_hash))
    where
      by_link :
          (taken : Bool)
          → let s' : Fanning S = record s {
            links =
                links_left identity_hash is_alive push_request send hand_off s.links
                  entry.device_lxmf_hash;
          } in
            Met s entry
              (if taken
                then (reach s', live)
                else without_link identity_hash is_alive push_request send hand_off
                    (reach s')
                    entry)
              (if taken
                then pushed identity_hash is_alive push_request send hand_off s'
                    entry.device_lxmf_hash
                else fan_stream identity_hash is_alive push_request send hand_off s' entry)
      by_link true = refl
      by_link false =
          fan_stream-Met
            (record s {
              links =
                  links_left identity_hash is_alive push_request send hand_off s.links
                    entry.device_lxmf_hash;
            })
            entry

  pub fan_loop-Tallied :
      (entries : List DistroEntry) (s : Fanning S)
      → Tallied s
          (fan_loop identity_hash is_alive push_request send hand_off s entries)
          entries
          (fates_of identity_hash is_alive push_request send hand_off (reach s) entries).0
          (fates_of identity_hash is_alive push_request send hand_off (reach s) entries).1
  unfolding fan_loop
  fan_loop-Tallied [] s = record {
    reached = refl;
    devices = refl;
    pushed_live = omega arith;
    handed_off = omega arith;
    unkeyed = omega arith;
    queued = omega arith;
    woken = omega arith;
    because = sym (append-nil s.fanned.woken_because);
    hooks = sym (append-nil s.on_deliver);
  }
  fan_loop-Tallied (entry ∷ entries) s =
      let o = fate_of identity_hash is_alive push_request send hand_off (reach s) entry in
      let next = fan_device identity_hash is_alive push_request send hand_off s entry in
      let met = fan_device-Met s entry in
      next-Tallied s entry o.0 o.1 (
        subst
          (λ (from : Fanning S).
            Tallied from
              (fan_loop identity_hash is_alive push_request send hand_off
                (fan_device identity_hash is_alive push_request send hand_off s entry) entries)
              entries (fates_of identity_hash is_alive push_request send hand_off o.0 entries).0
              (fates_of identity_hash is_alive push_request send hand_off o.0 entries).1)
          met
          (subst
            (λ (w : Reach S).
              Tallied next (fan_loop identity_hash is_alive push_request send hand_off next entries)
                entries (fates_of identity_hash is_alive push_request send hand_off w entries).0
                (fates_of identity_hash is_alive push_request send hand_off w entries).1)
            (ap (λ (from : Fanning S). reach from) met
              ∙ reach-after_fate s entry.device_lxmf_hash o.0 o.1)
            (fan_loop-Tallied entries next)))
