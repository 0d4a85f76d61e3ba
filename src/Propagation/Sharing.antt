-- ===== src/Propagation/Sharing.antt =====
-- How `LxmfPropagationNode` of rfed/src/lxmf_propagation.rs shares its outbound budget among the peers that
-- are ready for a sync. `held` is `backlog_held`, which the clock says.
use rfed.Base.{
  ℕ, ◌+◌, ◌-◌, ◌*◌, ◌/◌, min, max, List, [], ◌∷◌, none, some, Bytes, Bool, false, not, ◌&&◌, ltb,
  leb, same, any, filter, length, if◌then◌else◌,
}
use rfed.Dict.{Dict}
use rfed.Propagation.Entries.{PropagationEntry, PropagationEntries, get}
use rfed.Propagation.PeerSet.{contains}
use rfed.Propagation.Peering.{is_marked, messages, message_count}
use rfed.Propagation.Peer.{idle, PropPeer, in_state, sync_ready}
use rfed.Propagation.Node.{LxmfPropagationNode}

abbrev pub max_offer_ids : ℕ
max_offer_ids = 500

abbrev pub peer_sync_interval_secs : ℕ
peer_sync_interval_secs = 24

-- Of the messages that are fresh, those to be offered to the peer in the slot.
unfoldable pub fresh_unhandled :
    PropagationEntries → ℕ → List Bytes → List (Bytes × PropagationEntry)
unfolding get contains
fresh_unhandled q slot [] = []
fresh_unhandled q slot (id ∷ ids) =
    let rest = fresh_unhandled q slot ids in
    elim (get q id) [
      | none ↦ rest
      | some entry ↦ if contains entry.unhandled_peers slot then (id, entry) ∷ rest else rest
    ]

unfoldable pub sync_pool_for :
    Bool → List Bytes → PropagationEntries → PropPeer → List (Bytes × PropagationEntry)
unfolding fresh_unhandled
sync_pool_for held fresh q peer =
    if held then fresh_unhandled q peer.slot fresh else messages false q peer.slot

unfoldable pub has_sync_candidates : Bool → List Bytes → PropagationEntries → PropPeer → Bool
has_sync_candidates held fresh q peer =
    if held
    then any (λ id. is_marked false q peer.slot id) fresh
    else ltb 0 (message_count false q peer.slot)

unfoldable pub contends_for_sync : PropPeer → ℕ → Bool → List Bytes → PropagationEntries → Bool
unfolding has_sync_candidates sync_ready
contends_for_sync peer t held fresh q =
    in_state idle peer
    && sync_ready peer
    && ltb peer.throttled_until t
    && ltb peer.next_sync_attempt t
    && has_sync_candidates held fresh q peer

unfoldable pub next_batch_demand : Bool → List Bytes → PropagationEntries → PropPeer → ℕ → ℕ
next_batch_demand held fresh q peer cap =
    if held
    then min (length (filter (λ id. is_marked false q peer.slot id) fresh)) (min cap max_offer_ids)
    else min (message_count false q peer.slot) (min cap max_offer_ids)

pub record BudgetContention : Type 0 where
  pub waiting : ℕ
  pub demand : ℕ

-- One more peer that the tick could choose.
abbrev pub contend : BudgetContention → ℕ → (ℕ → ℕ) → BudgetContention
contend c enough wants = record {
  waiting = c.waiting + 1;
  demand = if leb c.demand enough then c.demand + wants (enough - c.demand + 1) else c.demand;
}

unfoldable pub contention_of :
    LxmfPropagationNode
    → ℕ
    → Bool
    → Bytes
    → ℕ
    → Dict Bytes PropPeer
    → BudgetContention
    → BudgetContention
unfolding contends_for_sync next_batch_demand
contention_of n t held except enough [] c = c
contention_of n t held except enough ((hash, peer) ∷ peers) c =
    contention_of n t held except enough peers (
      if not (same hash except) && contends_for_sync peer t held n.fresh_since_start n.entries
      then contend c enough (next_batch_demand held n.fresh_since_start n.entries peer)
      else c)

abbrev pub budget_contention : LxmfPropagationNode → ℕ → Bool → Bytes → ℕ → BudgetContention
budget_contention n t held except enough =
    contention_of n t held except enough n.peers (record { waiting = 0; demand = 0 })

-- The f64 quotients are rounded up.
abbrev pub quotient_up : ℕ → ℕ → ℕ
quotient_up a b = (a + b - 1) / b

unfoldable pub fair_share : LxmfPropagationNode → ℕ → ℕ
fair_share n contenders =
    let budget = n.outbound_sync_msgs_per_min in
    max
      (max (quotient_up budget (max contenders 1))
        (quotient_up (budget * peer_sync_interval_secs) 60))
      1
