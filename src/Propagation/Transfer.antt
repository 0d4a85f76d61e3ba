-- ===== src/Propagation/Transfer.antt =====
-- The last steps of a sync session of rfed/src/lxmf_propagation.rs: the Resource is sent and concludes. The
-- files' contents are read outside the node: an argument says which ids had a readable file, and which
-- no file at all, at which path.
use rfed.Base.{
  ℕ, ◌+◌, ◌-◌, List, [], ◌∷◌, Option, none, some, Bytes, bytes_dec, same, Bool, true, false, not,
  ◌&&◌, ◌||◌, ltb, leb, ◌==◌, is_empty, length, if◌then◌else◌,
}
use rfed.Dict
use rfed.Dict.{Dict, holds}
use rfed.Propagation.Entries.{PropagationEntry, PropagationEntries, get, remove_entry}
use rfed.Propagation.Peer.{link_ready, resource_transferring, PropPeer, in_state}
use rfed.Propagation.Node.{
  LxmfPropagationNode, send_resource, outbound_allowance, with_peer, record_outbound_send, call,
  end_sync, mark_handled_for,
}
use rfed.Propagation.Sharing.{
  max_offer_ids, has_sync_candidates, next_batch_demand, BudgetContention, budget_contention,
  fair_share,
}

-- The entries whose file was missing go, unless they have another file by now.
unfoldable pub forget_missing_messages :
    (Bytes → PropagationEntry → Bytes)
    → PropagationEntries
    → List (Bytes × Bytes)
    → PropagationEntries
unfolding get remove_entry
forget_missing_messages message_path q [] = q
forget_missing_messages message_path q ((id, path) ∷ missing) =
    forget_missing_messages message_path
      (if holds (λ entry. same (message_path id entry) path) (get q id)
        then (remove_entry q id).0
        else q)
      missing

abbrev pub in_flight : List Bytes → PropPeer → PropPeer
in_flight ids peer = record peer { transferring = some ids }

abbrev pub transmit : LxmfPropagationNode → Bytes → Bytes → List Bytes → ℕ → LxmfPropagationNode
transmit n hash link ids u =
    call (record_outbound_send (with_peer n hash (in_flight ids)) hash (length ids) u)
      (send_resource u hash link ids)

abbrev pub send_on :
    LxmfPropagationNode → Bytes → List Bytes → ℕ → Option Bytes → LxmfPropagationNode
send_on n hash ids u none = end_sync n hash
send_on n hash ids u (some link) =
    if is_empty ids then end_sync n hash else transmit n hash link ids u

-- Counted against the budget before the Resource is handed to the link.
unfoldable pub send_sync_resource :
    (Bytes → PropagationEntry → Bytes)
    → LxmfPropagationNode
    → Bytes
    → ℕ
    → List Bytes
    → List (Bytes × Bytes)
    → ℕ
    → LxmfPropagationNode
unfolding forget_missing_messages record_outbound_send end_sync
send_sync_resource message_path n hash session ids missing u =
    let kept : LxmfPropagationNode = record n {
      entries = forget_missing_messages message_path n.entries missing;
    } in
    elim (Dict.find bytes_dec hash n.peers) [
      | none ↦ kept
      | some peer ↦
          if in_state resource_transferring peer && peer.sync_session == session
          then send_on kept hash ids u peer.link_id
          else kept
    ]

-- A Resource that could not be started.
unfoldable pub send_failed : LxmfPropagationNode → Bytes → ℕ → LxmfPropagationNode
unfolding end_sync
send_failed n hash session = elim (Dict.find bytes_dec hash n.peers) [
  | none ↦ n
  | some peer ↦
      if in_state resource_transferring peer && peer.sync_session == session
      then end_sync n hash
      else n
]

abbrev pub concluded : PropPeer → PropPeer
concluded peer = record peer { transferring = none }

abbrev pub completed : ℕ → PropPeer → PropPeer
completed t peer = record peer { alive = true; last_heard = t }

abbrev pub next_batch : PropPeer → PropPeer
next_batch peer = record peer { state = link_ready }

-- The session goes on at once: on its own link if that is up, else on a new one.
abbrev pub go_on : LxmfPropagationNode → Bytes → Bool → LxmfPropagationNode × Bool
go_on n hash on_held_link =
    (if on_held_link then with_peer n hash next_batch else end_sync n hash, true)

-- While the budget binds and others wait, a session ends once it has sent its share, nothing is left
-- of the budget, or its link is gone.
unfoldable pub yields : LxmfPropagationNode → BudgetContention → ℕ → ℕ → ℕ → Bool → Bool
unfolding fair_share
yields n contention own allowance turn_sent on_held_link =
    ltb 0 contention.waiting
    && ltb allowance (own + contention.demand)
    && (leb (fair_share n (contention.waiting + 1)) turn_sent || allowance == 0 || not on_held_link)

abbrev pub go_on_or_yield :
    LxmfPropagationNode × ℕ → Bytes → PropPeer → ℕ → Bool → Bool → LxmfPropagationNode × Bool
go_on_or_yield (n, allowance) hash peer t held on_held_link =
    let own = next_batch_demand held n.fresh_since_start n.entries peer max_offer_ids in
    if yields n (budget_contention n t held hash (allowance - own)) own allowance peer.turn_sent
      on_held_link
    then (end_sync n hash, false)
    else go_on n hash on_held_link

-- `active` is the link that AppLinks holds for the peer.
abbrev pub is_held_link : Option Bytes → Option Bytes → Bool
is_held_link none link = false
is_held_link (some active) link = holds (λ id. same id active) link

abbrev pub complete :
    LxmfPropagationNode
    → Bytes
    → PropPeer
    → List Bytes
    → ℕ
    → ℕ
    → Bool
    → Option Bytes
    → LxmfPropagationNode × Bool
complete n hash peer ids t u held active =
    let marked = with_peer (mark_handled_for n hash ids) hash (completed t) in
    if has_sync_candidates held marked.fresh_since_start marked.entries peer
    then go_on_or_yield (outbound_allowance marked u) hash peer t held
        (is_held_link active peer.link_id)
    else (end_sync marked hash, false)

abbrev pub conclude_transfer :
    LxmfPropagationNode
    → Bytes
    → PropPeer
    → Option (List Bytes)
    → Bool
    → ℕ
    → ℕ
    → Bool
    → Option Bytes
    → LxmfPropagationNode × Bool
conclude_transfer n hash peer none is_complete t u held active = (n, false)
conclude_transfer n hash peer (some ids) is_complete t u held active =
    if is_complete
    then complete (with_peer n hash concluded) hash peer ids t u held active
    else (end_sync (with_peer n hash concluded) hash, false)

-- Whether the session goes on at once. The conclusion of an ended session's Resource is ignored.
unfoldable pub apply_resource_outcome :
    LxmfPropagationNode
    → Bytes
    → ℕ
    → Bool
    → ℕ
    → ℕ
    → Bool
    → Option Bytes
    → LxmfPropagationNode × Bool
unfolding mark_handled_for outbound_allowance has_sync_candidates next_batch_demand
    rfed.Propagation.Sharing.contention_of yields end_sync
apply_resource_outcome n hash session is_complete t u held active =
    elim (Dict.find bytes_dec hash n.peers) [
      | none ↦ (n, false)
      | some peer ↦
          if in_state resource_transferring peer && peer.sync_session == session
          then conclude_transfer n hash peer peer.transferring is_complete t u held active
          else (n, false)
    ]
