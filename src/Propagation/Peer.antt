-- ===== src/Propagation/Peer.antt =====
-- `PropPeer` of rfed/src/lxmf_propagation.rs: a peer and its sync session. What an announce says of a
-- peer's name, and the transfer rate, which only chooses the fastest peers, are left out.
use rfed.Base.{ℕ, List, [], Option, none, some, Bytes, Bool, true, false, not, ◌&&◌, leb, ◌==◌}

pub data SyncState : Type 0 where
  idle link_establishing link_ready request_sent response_received resource_transferring : SyncState

pub record PropPeer : Type 0 where
  pub alive : Bool
  pub last_heard : ℕ
  pub peering_timebase : ℕ
  pub propagation_stamp_cost : Option ℕ
  pub propagation_stamp_flexibility : Option ℕ
  pub peering_cost : Option ℕ
  pub propagation_transfer_limit : Option ℕ
  pub propagation_sync_limit : Option ℕ
  pub peering_key : Option (Bytes × ℕ)
  pub key_reground_at_cost : Option ℕ
  pub key_refused_at_cost : Option ℕ
  pub sync_backoff : ℕ
  pub next_sync_attempt : ℕ
  pub throttled_until : ℕ
  pub last_sync_attempt : ℕ
  pub slot : ℕ
  pub transferring : Option (List Bytes)
  pub last_offer : List Bytes
  pub budget_reserved : ℕ
  pub turn_sent : ℕ
  pub link_id : Option Bytes
  pub identified_link_id : Option Bytes
  pub reidentified : Bool
  pub sync_session : ℕ
  pub state : SyncState

abbrev pub new_prop_peer : PropPeer
new_prop_peer = record {
  alive = false;
  last_heard = 0;
  peering_timebase = 0;
  propagation_stamp_cost = none;
  propagation_stamp_flexibility = none;
  peering_cost = none;
  propagation_transfer_limit = none;
  propagation_sync_limit = none;
  peering_key = none;
  key_reground_at_cost = none;
  key_refused_at_cost = none;
  sync_backoff = 0;
  next_sync_attempt = 0;
  throttled_until = 0;
  last_sync_attempt = 0;
  slot = 0;
  transferring = none;
  last_offer = [];
  budget_reserved = 0;
  turn_sent = 0;
  link_id = none;
  identified_link_id = none;
  reidentified = false;
  sync_session = 0;
  state = idle;
}

-- `==` of `SyncState`, as the code compares its numbers.
abbrev pub state_number : SyncState → ℕ
state_number idle = 0
state_number link_establishing = 1
state_number link_ready = 2
state_number request_sent = 3
state_number response_received = 4
state_number resource_transferring = 5

abbrev pub in_state : SyncState → PropPeer → Bool
in_state state peer = state_number peer.state == state_number state

-- `==` of options of numbers.
abbrev pub same_cost : Option ℕ → Option ℕ → Bool
same_cost none none = true
same_cost (some a) (some b) = a == b
same_cost _ _ = false

abbrev pub is_known {ℓ} : {A : Type ℓ} → Option A → Bool
is_known none = false
is_known (some a) = true

abbrev pub peering_key_refused : PropPeer → Bool
peering_key_refused peer =
    is_known peer.key_refused_at_cost && same_cost peer.key_refused_at_cost peer.peering_cost

abbrev pub key_ready : Option (Bytes × ℕ) → Option ℕ → Bool
key_ready (some (key, value)) (some cost) = leb cost value
key_ready _ _ = false

abbrev pub peering_key_ready : PropPeer → Bool
peering_key_ready peer = key_ready peer.peering_key peer.peering_cost

abbrev pub costs_known : PropPeer → Bool
costs_known peer =
    is_known peer.propagation_stamp_cost
    && is_known peer.propagation_stamp_flexibility
    && is_known peer.peering_cost

unfoldable pub sync_ready : PropPeer → Bool
sync_ready peer = costs_known peer && peering_key_ready peer && not (peering_key_refused peer)
