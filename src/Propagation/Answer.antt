-- ===== src/Propagation/Answer.antt =====
-- What a sync session of rfed/src/lxmf_propagation.rs makes of the answer to its offer: `apply_offer_response`
-- and `on_offer_failed`. The msgpack of an answer is read by a library.
use rfed.Base.{
  ℕ, ◌+◌, ◌%◌, List, [], none, some, Bytes, bytes_dec, mem, Bool, true, false, not, ◌&&◌, ◌==◌,
  is_empty, length, filter, if◌then◌else◌,
}
use rfed.Dict
use rfed.Dict.{Dict}
use rfed.Propagation.Entries.{PropagationEntries, get}
use rfed.Propagation.Peer.{
  link_ready, request_sent, response_received, resource_transferring, PropPeer, in_state, is_known,
  same_cost,
}
use rfed.Propagation.Node.{LxmfPropagationNode, with_peer, end_sync, unpeer, mark_handled_for}

-- An error code, a Boolean, an array, of whose values those that are ids are kept, or what reads as
-- none of these.
pub data OfferAnswer : Type 0 where
  code : ℕ → OfferAnswer
  boolean : Bool → OfferAnswer
  array : List Bytes → OfferAnswer
  unreadable : OfferAnswer

pub data OfferNext : Type 0 where
  done resync : OfferNext
  send : List Bytes → OfferNext

abbrev pub pn_stamp_throttle_secs : ℕ
pn_stamp_throttle_secs = 180

pub data OfferError : Type 0 where
  no_identity no_access throttled invalid_key other : OfferError

-- The code is cut to a u8.
abbrev pub error_of : ℕ → OfferError
error_of number =
    let c = number % 256 in
    if c == 240
    then no_identity
    else if c == 241
    then no_access
    else if c == 246
    then throttled
    else if c == 243
    then invalid_key
    else other

abbrev pub answer_taken : PropPeer → PropPeer
answer_taken peer = record peer { state = response_received; last_offer = [] }

abbrev pub identify_again : PropPeer → PropPeer
identify_again peer = record peer {
  reidentified = true;
  identified_link_id = none;
  budget_reserved = 0;
  state = link_ready;
}

abbrev pub throttle : ℕ → PropPeer → PropPeer
throttle t peer = record peer { throttled_until = t + pn_stamp_throttle_secs }

-- A key is ground once more for each cost.
abbrev pub is_reground : PropPeer → Bool
is_reground peer =
    is_known peer.peering_cost && same_cost peer.key_reground_at_cost peer.peering_cost

abbrev pub refuse_key : PropPeer → PropPeer
refuse_key peer = record peer {
  key_refused_at_cost = if is_reground peer then peer.peering_cost else peer.key_refused_at_cost;
  peering_key = if is_reground peer then peer.peering_key else none;
  key_reground_at_cost = if is_reground peer then peer.key_reground_at_cost else peer.peering_cost;
}

abbrev pub offer_refused :
    LxmfPropagationNode → Bytes → ℕ → Bool → OfferError → LxmfPropagationNode × OfferNext
offer_refused n hash t reidentified no_identity =
    if reidentified then (end_sync n hash, done) else (with_peer n hash identify_again, resync)
offer_refused n hash t reidentified no_access = (unpeer n hash, done)
offer_refused n hash t reidentified throttled =
    (end_sync (with_peer n hash (throttle t)) hash, done)
offer_refused n hash t reidentified invalid_key =
    (end_sync (with_peer n hash refuse_key) hash, done)
offer_refused n hash t reidentified other = (end_sync n hash, done)

abbrev pub transfers : ℕ → PropPeer → PropPeer
transfers files peer = record peer { budget_reserved = files; state = resource_transferring }

-- The ids listed that were in the offer.
unfoldable pub wanted_of : List Bytes → List Bytes → List Bytes
wanted_of listed last_offer = filter (λ id. mem id last_offer) listed

unfoldable pub unwanted_of : List Bytes → List Bytes → List Bytes
unwanted_of listed last_offer = filter (λ id. not (mem id listed)) last_offer

abbrev pub is_stored : PropagationEntries → Bytes → Bool
is_stored q id = is_known (get q id)

-- Of the ids that the peer wants, those still stored are to be sent.
unfoldable pub send_wanted :
    LxmfPropagationNode → Bytes → List Bytes → LxmfPropagationNode × OfferNext
unfolding end_sync get
send_wanted n hash wanted =
    let files = filter (is_stored n.entries) wanted in
    if is_empty files
    then (end_sync n hash, done)
    else (with_peer n hash (transfers (length files)), send files)

unfoldable pub reconcile :
    LxmfPropagationNode
    → Bytes
    → ℕ
    → Bool
    → List Bytes
    → OfferAnswer
    → LxmfPropagationNode × OfferNext
unfolding send_wanted wanted_of unwanted_of mark_handled_for end_sync unpeer
reconcile n hash t reidentified last_offer (code c) =
    offer_refused n hash t reidentified (error_of c)
reconcile n hash t reidentified last_offer (boolean false) =
    send_wanted (mark_handled_for n hash last_offer) hash []
reconcile n hash t reidentified last_offer (boolean true) = send_wanted n hash last_offer
reconcile n hash t reidentified last_offer (array listed) =
    send_wanted (mark_handled_for n hash (unwanted_of listed last_offer)) hash
      (wanted_of listed last_offer)
reconcile n hash t reidentified last_offer unreadable = (end_sync n hash, done)

-- An answer to another session's offer is ignored.
unfoldable pub apply_offer_response :
    LxmfPropagationNode → Bytes → ℕ → ℕ → OfferAnswer → LxmfPropagationNode × OfferNext
unfolding reconcile
apply_offer_response n hash session t answer = elim (Dict.find bytes_dec hash n.peers) [
  | none ↦ (n, done)
  | some peer ↦
      if in_state request_sent peer && peer.sync_session == session
      then reconcile (with_peer n hash answer_taken) hash t peer.reidentified peer.last_offer answer
      else (n, done)
]

unfoldable pub on_offer_failed : LxmfPropagationNode → Bytes → ℕ → LxmfPropagationNode
unfolding end_sync
on_offer_failed n hash session = elim (Dict.find bytes_dec hash n.peers) [
  | none ↦ n
  | some peer ↦
      if in_state request_sent peer && peer.sync_session == session then end_sync n hash else n
]
