-- ===== src/Sync/Peers.antt =====
-- `FedPeer` and the peers of `FedSync` in rfed/src/sync.rs. Times are whole seconds, and an operation
-- reads the clock once.
use rfed.Base.{
  ℕ, ◌+◌, ◌-◌, ◌*◌, min, List, [], ◌∷◌, Option, none, some, Bytes, bytes_dec, same, Bool, true,
  false, not, ◌&&◌, ◌||◌, ltb, leb, if◌then◌else◌, any, filter,
}
use rfed.Dict
use rfed.Dict.{Dict, holds}

abbrev pub sync_backoff_min : ℕ
sync_backoff_min = 10

abbrev pub sync_backoff_max : ℕ
sync_backoff_max = 3600

pub record FedPeer : Type 0 where
  pub destination_hash : Bytes
  pub alive : Bool
  pub last_heard : ℕ
  pub next_sync_attempt : ℕ
  pub last_sync_attempt : ℕ
  pub sync_backoff : ℕ
  pub peering_cost : Option ℕ
  pub transfer_limit : Option ℕ
  pub sync_limit : Option ℕ

unfoldable pub new_peer : Bytes → FedPeer
new_peer destination_hash = record {
  destination_hash = destination_hash;
  alive = false;
  last_heard = 0;
  next_sync_attempt = 0;
  last_sync_attempt = 0;
  sync_backoff = sync_backoff_min;
  peering_cost = none;
  transfer_limit = none;
  sync_limit = none;
}

abbrev pub or_cost : Option ℕ → Option ℕ → Option ℕ
or_cost none known = known
or_cost (some cost) known = some cost

unfoldable pub heard : FedPeer → Option ℕ → ℕ → FedPeer
heard p peering_cost now = record p {
  alive = true;
  last_heard = now;
  peering_cost = or_cost peering_cost p.peering_cost;
  sync_backoff = sync_backoff_min;
  next_sync_attempt =
      if ltb (now + sync_backoff_min) p.next_sync_attempt then now + 5 else p.next_sync_attempt;
}

unfoldable pub sync_failed : FedPeer → ℕ → FedPeer
sync_failed p now =
    let backoff = min (p.sync_backoff * 2) sync_backoff_max in
    record p { sync_backoff = backoff; last_sync_attempt = now; next_sync_attempt = now + backoff }

unfoldable pub sync_succeeded : FedPeer → ℕ → FedPeer
sync_succeeded p now = record p {
  sync_backoff = sync_backoff_min;
  last_sync_attempt = now;
  next_sync_attempt = now + sync_backoff_min;
}

-- The stores that a node shares with `FedSync` are arguments of the operations that use them.
pub record FedSync : Type 0 where
  pub peers : Dict Bytes FedPeer
  pub max_peering_cost : ℕ
  pub transfer_limit_bytes : ℕ
  pub sync_limit_bytes : ℕ
  pub local_node_hash : Option Bytes
  pub from_static_only : Bool
  pub static_peers : List Bytes
  pub sync_bytes_sent : ℕ
  pub sync_period_start : ℕ

abbrev pub default_transfer_limit_bytes : ℕ
default_transfer_limit_bytes = 100 * 1024 * 1024

abbrev pub default_sync_limit_bytes : ℕ
default_sync_limit_bytes = 1000 * 1024 * 1024

unfoldable pub new : ℕ → FedSync
new now = record {
  peers = [];
  max_peering_cost = 26;
  transfer_limit_bytes = default_transfer_limit_bytes;
  sync_limit_bytes = default_sync_limit_bytes;
  local_node_hash = none;
  from_static_only = false;
  static_peers = [];
  sync_bytes_sent = 0;
  sync_period_start = now;
}

abbrev pub set_local_node_hash : FedSync → Bytes → FedSync
set_local_node_hash f hash = record f { local_node_hash = some hash }

abbrev pub is_local : FedSync → Bytes → Bool
is_local f hash = holds (λ h. same h hash) f.local_node_hash

abbrev pub is_static : FedSync → Bytes → Bool
is_static f hash = any (λ p. same p hash) f.static_peers

-- The peer under a key, or a new one.
unfoldable pub peer_of : Dict Bytes FedPeer → Bytes → FedPeer
unfolding new_peer
peer_of peers hash = elim (Dict.find bytes_dec hash peers) [
  | some peer ↦ peer
  | none ↦ new_peer hash
]

unfoldable pub peer_heard : FedSync → Bytes → Option ℕ → ℕ → FedSync
unfolding heard peer_of
peer_heard f hash peering_cost now =
    if is_local f hash
    then f
    else if f.from_static_only && not (is_static f hash)
    then f
    else record f {
      peers = Dict.put bytes_dec hash (heard (peer_of f.peers hash) peering_cost now) f.peers;
    }

abbrev pub is_kept : FedSync → ℕ → Bytes × FedPeer → Bool
is_kept f cutoff entry = is_static f entry.1.destination_hash || leb cutoff entry.1.last_heard

abbrev pub is_due : ℕ → FedPeer → Bool
is_due now p = p.alive && leb p.next_sync_attempt now

unfoldable pub due_hashes : ℕ → Dict Bytes FedPeer → List Bytes
due_hashes now [] = []
due_hashes now ((key, p) ∷ peers) =
    let rest = due_hashes now peers in if is_due now p then p.destination_hash ∷ rest else rest

unfoldable pub tick : FedSync → ℕ → FedSync × List Bytes
unfolding due_hashes
tick f now =
    let kept = filter (is_kept f (now - sync_backoff_max * 2)) f.peers in
    (record f { peers = kept }, due_hashes now kept)

unfoldable pub seed_peer : FedPeer → FedPeer
seed_peer p = record p { alive = true; next_sync_attempt = 0; sync_backoff = sync_backoff_min }

unfoldable pub seed_all : List Bytes → Dict Bytes FedPeer → Dict Bytes FedPeer
unfolding seed_peer peer_of
seed_all [] peers = peers
seed_all (hash ∷ hashes) peers =
    seed_all hashes (Dict.put bytes_dec hash (seed_peer (peer_of peers hash)) peers)

unfoldable pub seed_static_peers : FedSync → FedSync
unfolding seed_all
seed_static_peers f = record f { peers = seed_all f.static_peers f.peers }

-- `get_mut` on the peers.
unfoldable pub update_peer : FedSync → Bytes → (FedPeer → FedPeer) → FedSync
update_peer f hash change = elim (Dict.find bytes_dec hash f.peers) [
  | none ↦ f
  | some p ↦ record f { peers = Dict.put bytes_dec hash (change p) f.peers }
]

unfoldable pub sync_started : FedSync → Bytes → ℕ → FedSync
unfolding update_peer
sync_started f hash now = update_peer f hash (λ p. record p { last_sync_attempt = now })

unfoldable pub sync_ok : FedSync → Bytes → ℕ → FedSync
unfolding update_peer sync_succeeded
sync_ok f hash now = update_peer f hash (λ p. sync_succeeded p now)

unfoldable pub sync_err : FedSync → Bytes → ℕ → FedSync
unfolding update_peer sync_failed
sync_err f hash now = update_peer f hash (λ p. sync_failed p now)

-- `entry().or_insert`, for a peer that is not the node itself.
unfoldable pub insert_loaded : FedSync → FedPeer → FedSync
insert_loaded f p =
    if is_local f p.destination_hash
    then f
    else elim (Dict.find bytes_dec p.destination_hash f.peers) [
      | some known ↦ f
      | none ↦ record f { peers = Dict.put bytes_dec p.destination_hash p f.peers }
    ]

unfoldable pub load_each : FedSync → List FedPeer → FedSync
unfolding insert_loaded
load_each f [] = f
load_each f (p ∷ ps) = load_each (insert_loaded f p) ps

-- The codec of the state file is a library's. The file is none where its path is not set, it does
-- not exist or it cannot be read.
module _ (encode : List FedPeer → Option Bytes) (decode : Bytes → Option (List FedPeer)) where
  -- What is written, where it is.
  unfoldable pub save_peers : FedSync → Option Bytes
  save_peers f = encode (Dict.values f.peers)

  unfoldable pub load_peers : FedSync → Option Bytes → FedSync
  unfolding load_each
  load_peers f none = f
  load_peers f (some file) = elim (decode file) [ none ↦ f | some peers ↦ load_each f peers ]
