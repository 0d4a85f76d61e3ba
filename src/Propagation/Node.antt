-- ===== src/Propagation/Node.antt =====
-- The state of `LxmfPropagationNode` of rfed/src/lxmf_propagation.rs that its sync sessions use, and its
-- outbound budget: how many messages they may hand to their links within 60 seconds. A time is read by
-- the caller; log lines are left out. What the code asks of its links is recorded in order.
use rfed.Base.{
  ℕ, ◌+◌, ◌-◌, ◌^◌, ◌%◌, min, List, [], ◌∷◌, ◌++◌, none, some, Bytes, bytes_dec, Bool, true, false,
  ltb, if◌then◌else◌,
}
use rfed.Dict
use rfed.Dict.{Dict, sum_by}
use rfed.Propagation.Entries.{PropagationEntries}
use rfed.Propagation.Peering.{message_count, mark_handled}
use rfed.Propagation.Peer.{idle, PropPeer}

abbrev pub outbound_budget_window_secs : ℕ
outbound_budget_window_secs = 60

-- The calls of `PeerSyncIo`, and when a Resource was sent.
pub data SyncCall : Type 0 where
  open_link close_link : Bytes → SyncCall
  identify : Bytes → Bytes → SyncCall
  request_offer : Bytes → Bytes → List Bytes → SyncCall
  send_resource : ℕ → Bytes → Bytes → List Bytes → SyncCall

pub record LxmfPropagationNode : Type 0 where
  pub entries : PropagationEntries
  pub fresh_since_start : List Bytes
  pub peers : Dict Bytes PropPeer
  pub departed_slots : Dict Bytes ℕ
  pub outbound_sync_msgs_per_min : ℕ
  pub outbound_record_start : ℕ
  pub outbound_sends : List (ℕ × ℕ)
  pub sync_io : List SyncCall

abbrev pub default_outbound_sync_msgs_per_min : ℕ
default_outbound_sync_msgs_per_min = 600

-- `LxmfPropagationNode::new`, at `u` of the monotonic clock.
abbrev pub new_node : ℕ → LxmfPropagationNode
new_node u = record {
  entries = record { rows = []; index = []; handled_counts = []; unhandled_counts = [] };
  fresh_since_start = [];
  peers = [];
  departed_slots = [];
  outbound_sync_msgs_per_min = default_outbound_sync_msgs_per_min;
  outbound_record_start = u;
  outbound_sends = [];
  sync_io = [];
}

abbrev pub is_recent : ℕ → ℕ → Bool
is_recent t at = ltb (t - at) outbound_budget_window_secs

unfoldable pub prune : ℕ → List (ℕ × ℕ) → List (ℕ × ℕ)
prune t [] = []
prune t ((at, messages) ∷ sends) =
    let rest = prune t sends in if is_recent t at then (at, messages) ∷ sends else rest

abbrev pub total : List (ℕ × ℕ) → ℕ
total [] = 0
total ((at, messages) ∷ sends) = messages + total sends

unfoldable pub sent_in_window : ℕ → List (ℕ × ℕ) → ℕ
sent_in_window t [] = 0
sent_in_window t ((at, messages) ∷ sends) =
    let rest = sent_in_window t sends in if is_recent t at then messages + rest else rest

abbrev pub outbound_reserved : LxmfPropagationNode → ℕ
outbound_reserved n = sum_by (λ hash peer. peer.budget_reserved) n.peers

-- `saturating_sub` and `saturating_add` of u64.
unfoldable pub outbound_allowance : LxmfPropagationNode → ℕ → LxmfPropagationNode × ℕ
unfolding prune
outbound_allowance n t =
    if ltb (t - n.outbound_record_start) outbound_budget_window_secs then (n, 0) else (
      record n { outbound_sends = prune t n.outbound_sends },
      n.outbound_sync_msgs_per_min
          - min (total (prune t n.outbound_sends) + outbound_reserved n) (2 ^ 64 - 1),
    )

-- `peers.get_mut`.
abbrev pub with_peer : LxmfPropagationNode → Bytes → (PropPeer → PropPeer) → LxmfPropagationNode
with_peer n hash change = elim (Dict.find bytes_dec hash n.peers) [
  | none ↦ n
  | some peer ↦ record n { peers = Dict.put bytes_dec hash (change peer) n.peers }
]

abbrev pub counted_sent : ℕ → PropPeer → PropPeer
counted_sent messages peer = record peer {
  budget_reserved = 0;
  turn_sent = (peer.turn_sent + messages) % 2 ^ 64;
}

unfoldable pub record_outbound_send : LxmfPropagationNode → Bytes → ℕ → ℕ → LxmfPropagationNode
unfolding prune
record_outbound_send n hash messages t =
    with_peer (record n { outbound_sends = prune t n.outbound_sends ++ (t, messages) ∷ [] }) hash
      (counted_sent messages)

abbrev pub call : LxmfPropagationNode → SyncCall → LxmfPropagationNode
call n c = record n { sync_io = n.sync_io ++ c ∷ [] }

abbrev pub ended : PropPeer → PropPeer
ended peer = record peer {
  state = idle;
  link_id = none;
  identified_link_id = none;
  reidentified = false;
  transferring = none;
  last_offer = [];
  budget_reserved = 0;
  turn_sent = 0;
  sync_session = (peer.sync_session + 1) % 2 ^ 64;
}

unfoldable pub end_sync : LxmfPropagationNode → Bytes → LxmfPropagationNode
end_sync n hash = with_peer (call n (close_link hash)) hash ended

-- What was handled and unhandled for a peer that goes stays on the messages.
abbrev pub departed : LxmfPropagationNode → Bytes → PropPeer → Dict Bytes ℕ
departed n hash peer =
    if ltb 0 (message_count true n.entries peer.slot + message_count false n.entries peer.slot)
    then Dict.put bytes_dec hash peer.slot n.departed_slots
    else n.departed_slots

unfoldable pub unpeer : LxmfPropagationNode → Bytes → LxmfPropagationNode
unpeer n hash = elim (Dict.find bytes_dec hash n.peers) [
  | none ↦ call n (close_link hash)
  | some peer ↦ record (call n (close_link hash)) {
    peers = Dict.remove bytes_dec hash n.peers;
    departed_slots = departed n hash peer;
  }
]

unfoldable pub mark_all_handled : PropagationEntries → ℕ → List Bytes → PropagationEntries
unfolding mark_handled
mark_all_handled q slot [] = q
mark_all_handled q slot (id ∷ ids) = mark_all_handled (mark_handled q slot id) slot ids

unfoldable pub mark_handled_for : LxmfPropagationNode → Bytes → List Bytes → LxmfPropagationNode
unfolding mark_all_handled
mark_handled_for n hash ids = elim (Dict.find bytes_dec hash n.peers) [
  | none ↦ n
  | some peer ↦ record n { entries = mark_all_handled n.entries peer.slot ids }
]
