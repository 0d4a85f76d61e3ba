-- ===== src/Propagation/Offer.antt =====
-- The first steps of a sync session of rfed/src/lxmf_propagation.rs: `prepare_sync` and `send_offer`. `held` is
-- `backlog_held`, `active` the link that AppLinks holds for the peer; the answers of the links are
-- arguments. `t` is the wall clock and `u` the monotonic one.
use rfed.Base.{
  ℕ, ◌+◌, ◌-◌, ◌*◌, ◌^◌, ◌%◌, min, max, List, [], ◌∷◌, Option, none, some, Bytes, bytes_dec, same,
  Bool, true, false, not, ◌&&◌, ◌||◌, ltb, leb, ◌==◌, is_empty, length, take, filter, if◌then◌else◌,
}
use rfed.Dict
use rfed.Dict.{Dict, holds}
use rfed.Propagation.Entries.{PropagationEntry, PropagationEntries}
use rfed.Propagation.Peering.{is_marked, remove_unhandled_message}
use rfed.Propagation.Peer.{
  SyncState, idle, link_establishing, link_ready, request_sent, PropPeer, in_state, is_known,
  costs_known, peering_key_ready, peering_key_refused,
}
use rfed.Propagation.Node.{
  open_link, close_link, identify, request_offer, LxmfPropagationNode, outbound_allowance,
  with_peer, call, end_sync, mark_handled_for,
}
use rfed.Propagation.Sharing.{sync_pool_for, has_sync_candidates, budget_contention, fair_share}
use rfed.Propagation.Plan.{OfferCandidate, OfferPlan}

pub data Gate : Type 0 where
  postpone nothing_to_sync busy proceed : Gate

unfoldable pub gate_of : PropPeer → ℕ → Bool → List Bytes → PropagationEntries → Gate
unfolding has_sync_candidates
gate_of peer t held fresh q =
    if leb t peer.next_sync_attempt
    then postpone
    else if leb t peer.throttled_until
    then postpone
    else if not (costs_known peer)
    then postpone
    else if not (peering_key_ready peer)
    then postpone
    else if peering_key_refused peer
    then postpone
    else if not (has_sync_candidates held fresh q peer)
    then nothing_to_sync
    else if is_known peer.transferring
    then busy
    else proceed

-- The attempt is noted first; a peer not heard since is no longer alive.
abbrev pub attempted : ℕ → PropPeer → PropPeer
attempted t peer = record peer {
  last_sync_attempt = t;
  alive = peer.alive && not (leb t peer.next_sync_attempt && ltb peer.last_heard t);
}

abbrev pub sync_backoff_step_secs : ℕ
sync_backoff_step_secs = 720

abbrev pub establishing : ℕ → PropPeer → PropPeer
establishing t peer = record peer {
  sync_backoff = peer.sync_backoff + sync_backoff_step_secs;
  next_sync_attempt = t + (peer.sync_backoff + sync_backoff_step_secs);
  sync_session = (peer.sync_session + 1) % 2 ^ 64;
  turn_sent = 0;
  link_id = none;
  identified_link_id = none;
  reidentified = false;
  state = link_establishing;
}

-- A link that no session opened is closed first.
abbrev pub close_stray : LxmfPropagationNode → Bytes → Option Bytes → LxmfPropagationNode
close_stray n hash none = n
close_stray n hash (some stray) = call n (close_link hash)

unfoldable pub establish : LxmfPropagationNode → Bytes → ℕ → Option Bytes → LxmfPropagationNode
establish n hash t active =
    call (with_peer (close_stray n hash active) hash (establishing t)) (open_link hash)

abbrev pub cost_of : Option ℕ → ℕ
cost_of none = 0
cost_of (some cost) = cost

abbrev pub low_value : ℕ → List (Bytes × PropagationEntry) → List Bytes
low_value cost [] = []
low_value cost ((id, entry) ∷ pool) =
    if ltb entry.stamp_value cost then id ∷ low_value cost pool else low_value cost pool

abbrev pub candidates_of : ℕ → ℕ → List (Bytes × PropagationEntry) → List OfferCandidate
candidates_of t cost [] = []
candidates_of t cost ((id, entry) ∷ pool) =
    if ltb entry.stamp_value cost
    then candidates_of t cost pool
    else record {
      tid = id;
      size = entry.size;
      weight = max (t - entry.received) 345600 * entry.size;
    }
      ∷ candidates_of t cost pool

unfoldable pub drop_unhandled : PropagationEntries → ℕ → List Bytes → PropagationEntries
unfolding rfed.Propagation.Entries.mark
drop_unhandled q slot [] = q
drop_unhandled q slot (id ∷ ids) = drop_unhandled (remove_unhandled_message q slot id).0 slot ids

pub record PreparedOffer : Type 0 where
  pub session : ℕ
  pub candidates : List OfferCandidate
  pub transfer_limit_kb : Option ℕ
  pub sync_limit_kb : Option ℕ

abbrev pub readied : ℕ → PropPeer → PropPeer
readied t peer = record peer { alive = true; last_heard = t; sync_backoff = 0 }

unfoldable pub gather :
    LxmfPropagationNode → Bytes → ℕ → Bool → PropPeer → LxmfPropagationNode × Option PreparedOffer
unfolding sync_pool_for drop_unhandled
gather n hash t held peer =
    let cost = cost_of peer.propagation_stamp_cost - cost_of peer.propagation_stamp_flexibility in
    let pool = sync_pool_for held n.fresh_since_start n.entries peer in
    (
      record (with_peer n hash (readied t)) {
        entries = drop_unhandled n.entries peer.slot (low_value cost pool);
      },
      some (record {
        session = peer.sync_session;
        candidates = candidates_of t cost pool;
        transfer_limit_kb = peer.propagation_transfer_limit;
        sync_limit_kb = peer.propagation_sync_limit;
      }),
    )

abbrev pub not_started :
    LxmfPropagationNode → Bytes → SyncState → LxmfPropagationNode × Option PreparedOffer
not_started n hash link_ready = (end_sync n hash, none)
not_started n hash _ = (n, none)

abbrev pub started :
    LxmfPropagationNode
    → Bytes
    → ℕ
    → Bool
    → Option Bytes
    → PropPeer
    → LxmfPropagationNode × Option PreparedOffer
started n hash t held active peer = elim peer.state [
  | idle ↦ (establish n hash t active, none)
  | _ ↦ gather n hash t held peer
]

abbrev pub prepare_peer :
    LxmfPropagationNode
    → Bytes
    → ℕ
    → Bool
    → Option Bytes
    → PropPeer
    → LxmfPropagationNode × Option PreparedOffer
prepare_peer n hash t held active peer =
    let n' = with_peer n hash (attempted t) in
    elim (gate_of (attempted t peer) t held n.fresh_since_start n.entries) [
      | proceed ↦ started n' hash t held active (attempted t peer)
      | postpone ↦ not_started n' hash peer.state
      | nothing_to_sync ↦ not_started n' hash peer.state
      | busy ↦ (n', none)
    ]

unfoldable pub prepare_sync :
    LxmfPropagationNode
    → Bytes
    → ℕ
    → Bool
    → Option Bytes
    → LxmfPropagationNode × Option PreparedOffer
unfolding gate_of establish gather end_sync
prepare_sync n hash t held active = elim (Dict.find bytes_dec hash n.peers) [
  | none ↦ (n, none)
  | some peer ↦
      if in_state idle peer || in_state link_ready peer
      then prepare_peer n hash t held active peer
      else (n, none)
]

-- What an offer is cut to: what is left of the budget and, while it binds and other peers wait, of the
-- session's share.
unfoldable pub cap_of : LxmfPropagationNode → Bytes → ℕ → Bool → ℕ → ℕ → ℕ → ℕ
unfolding rfed.Propagation.Sharing.contention_of fair_share
cap_of n hash t held allowance wanted turn_sent =
    let contention = budget_contention n t held hash (allowance - wanted) in
    if ltb 0 contention.waiting && ltb allowance (wanted + contention.demand)
    then min allowance (fair_share n (contention.waiting + 1) - turn_sent)
    else allowance

abbrev pub offered : List Bytes → Bytes → PropPeer → PropPeer
offered offer link peer = record peer {
  identified_link_id = some link;
  sync_session = (peer.sync_session + 1) % 2 ^ 64;
  last_offer = offer;
  budget_reserved = length offer;
  state = request_sent;
}

-- The link is identified once, before the offer goes on it.
unfoldable pub request :
    LxmfPropagationNode → Bytes → List Bytes → Bytes → PropPeer → Bool → Bool → LxmfPropagationNode
unfolding end_sync
request n hash offer link peer identifies requests =
    let needs_identify = not (holds (λ id. same id link) peer.identified_link_id) in
    let named = if needs_identify then call n (identify hash link) else n in
    let asked = call (with_peer named hash (offered offer link)) (request_offer hash link offer) in
    if needs_identify && not identifies
    then end_sync named hash
    else if requests
    then asked
    else end_sync asked hash

abbrev pub request_on :
    LxmfPropagationNode
    → Bytes
    → List Bytes
    → PropPeer
    → Bool
    → Bool
    → Option Bytes
    → Option (Bytes × ℕ)
    → LxmfPropagationNode
request_on n hash offer peer identifies requests (some link) (some key) =
    request n hash offer link peer identifies requests
request_on n hash offer peer identifies requests (some link) none = end_sync n hash
request_on n hash offer peer identifies requests none key = end_sync n hash

-- The offer, of the planned ids that are still to be offered, as the budget allows.
abbrev pub offer_of :
    LxmfPropagationNode → Bytes → List Bytes → PropPeer → ℕ → Bool → ℕ → List Bytes
offer_of n hash planned peer t held allowance =
    let offer = filter (λ id. is_marked false n.entries peer.slot id) planned in
    take (cap_of n hash t held allowance (length offer) peer.turn_sent) offer

abbrev pub offer_planned :
    LxmfPropagationNode × ℕ
    → Bytes
    → PropPeer
    → OfferPlan
    → ℕ
    → Bool
    → Bool
    → Bool
    → LxmfPropagationNode
offer_planned (n, allowance) hash peer plan t held identifies requests =
    let offer = offer_of n hash plan.offer peer t held allowance in
    if is_empty offer
    then end_sync n hash
    else request_on n hash offer peer identifies requests peer.link_id peer.peering_key

unfoldable pub send_offer :
    LxmfPropagationNode → Bytes → ℕ → OfferPlan → ℕ → ℕ → Bool → Bool → Bool → LxmfPropagationNode
unfolding outbound_allowance mark_handled_for cap_of request end_sync
send_offer n hash session plan t u held identifies requests =
    elim (Dict.find bytes_dec hash n.peers) [
      | none ↦ n
      | some peer ↦
          if in_state link_ready peer && peer.sync_session == session
          then offer_planned
              (outbound_allowance
                (mark_handled_for (mark_handled_for n hash plan.too_big) hash plan.over_resource) u)
              hash peer plan t held identifies requests
          else n
    ]
