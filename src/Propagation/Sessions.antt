-- ===== src/Propagation/Sessions.antt =====
-- The sync sessions of rfed/src/lxmf_propagation.rs as they run: one worker thread takes the events in turn,
-- and other threads change the node between its steps, each of which holds the node's lock.
use rfed.Base.{ℕ, ◌+◌, List, [], ◌∷◌, Option, none, some, Bytes, Bool, filter, if◌then◌else◌}
use rfed.Propagation.Entries.{PropagationEntry, PropagationEntries}
use rfed.Propagation.Peer.{PropPeer, new_prop_peer}
use rfed.Propagation.Node.{LxmfPropagationNode, with_peer, unpeer}
use rfed.Propagation.Plan.{plan_offer}
use rfed.Propagation.Sharing.{max_offer_ids}
use rfed.Propagation.Offer.{PreparedOffer, prepare_sync, send_offer}
use rfed.Propagation.Answer.{
  OfferAnswer, OfferNext, done, resync, send, apply_offer_response, on_offer_failed,
}
use rfed.Propagation.Transfer.{send_sync_resource, send_failed, apply_resource_outcome}
use rfed.Propagation.Joining.{PeerAnnounce, insert_peer, peer_with}
use rfed.Propagation.Links.{on_link_active, on_link_down}

-- What the worker has in hand: nothing, a peer to sync with, an offer that is planned with the node
-- released, the messages that a peer wants, or a Resource that it has asked its link to send.
pub data Work : Type 0 where
  free : Work
  syncing : Bytes → Work
  offering : Bytes → PreparedOffer → Work
  sending : Bytes → ℕ → List Bytes → Work
  starting : Bytes → ℕ → Work

-- `SyncEvent`.
pub data SyncEvent : Type 0 where
  start : Bytes → SyncEvent
  link_active : Bytes → Bytes → Option Bytes → SyncEvent
  link_down : Bytes → Option Bytes → Bool → SyncEvent
  offer_response : Bytes → ℕ → OfferAnswer → SyncEvent
  offer_failed : Bytes → ℕ → SyncEvent
  resource_concluded : Bytes → ℕ → Bool → Option Bytes → SyncEvent

-- What a peering key, a choice of the next peer or an insertion sets of a peer.
pub record Announced : Type 0 where
  pub alive : Bool
  pub last_heard : ℕ
  pub propagation_stamp_cost : Option ℕ
  pub propagation_stamp_flexibility : Option ℕ
  pub peering_cost : Option ℕ
  pub propagation_transfer_limit : Option ℕ
  pub propagation_sync_limit : Option ℕ
  pub peering_key : Option (Bytes × ℕ)
  pub key_reground_at_cost : Option ℕ
  pub key_refused_at_cost : Option ℕ
  pub next_sync_attempt : ℕ

abbrev pub with_announced : Announced → PropPeer → PropPeer
with_announced a peer = record peer {
  alive = a.alive;
  last_heard = a.last_heard;
  propagation_stamp_cost = a.propagation_stamp_cost;
  propagation_stamp_flexibility = a.propagation_stamp_flexibility;
  peering_cost = a.peering_cost;
  propagation_transfer_limit = a.propagation_transfer_limit;
  propagation_sync_limit = a.propagation_sync_limit;
  peering_key = a.peering_key;
  key_reground_at_cost = a.key_reground_at_cost;
  key_refused_at_cost = a.key_refused_at_cost;
  next_sync_attempt = a.next_sync_attempt;
}

-- One step: the monotonic clock moves on; the store changes; a peer is inserted, announces
-- itself, goes, or is changed outside its session; the worker takes an event, or makes the next step of
-- what it has in hand, with the answers of the links and the files.
pub data SyncStep : Type 0 where
  ticks : ℕ → SyncStep
  stores : PropagationEntries → List Bytes → SyncStep
  joins : Bytes → Announced → SyncStep
  announces : Bytes → ℕ → PeerAnnounce → SyncStep
  leaves : Bytes → SyncStep
  hears : Bytes → Announced → SyncStep
  takes : ℕ → Bool → SyncEvent → SyncStep
  prepares : ℕ → Bool → Option Bytes → SyncStep
  offers : ℕ → Bool → Bool → Bool → SyncStep
  sends : (Bytes → Bool) → List (Bytes × Bytes) → SyncStep
  starts : Bool → SyncStep

pub record System : Type 0 where
  pub node : LxmfPropagationNode
  pub work : Work
  pub clock : ℕ

abbrev pub then_sync : Bytes → LxmfPropagationNode × Bool → LxmfPropagationNode × Work
then_sync hash (n, proceed) = (n, if proceed then syncing hash else free)

abbrev pub then_next : Bytes → ℕ → LxmfPropagationNode × OfferNext → LxmfPropagationNode × Work
then_next hash session (n, done) = (n, free)
then_next hash session (n, resync) = (n, syncing hash)
then_next hash session (n, send files) = (n, sending hash session files)

abbrev pub then_offer :
    Bytes → LxmfPropagationNode × Option PreparedOffer → LxmfPropagationNode × Work
then_offer hash (n, none) = (n, free)
then_offer hash (n, some prepared) = (n, offering hash prepared)

unfoldable pub handle_sync_event :
    LxmfPropagationNode → ℕ → ℕ → Bool → SyncEvent → LxmfPropagationNode × Work
unfolding on_link_active on_link_down apply_offer_response on_offer_failed apply_resource_outcome
handle_sync_event n t u held (start hash) = (n, syncing hash)
handle_sync_event n t u held (link_active hash link active) =
    then_sync hash (on_link_active n hash link active)
handle_sync_event n t u held (link_down hash active attempt) =
    (on_link_down n hash active attempt, free)
handle_sync_event n t u held (offer_response hash session answer) =
    then_next hash session (apply_offer_response n hash session t answer)
handle_sync_event n t u held (offer_failed hash session) = (on_offer_failed n hash session, free)
handle_sync_event n t u held (resource_concluded hash session is_complete active) =
    then_sync hash (apply_resource_outcome n hash session is_complete t u held active)

module _ (message_path : Bytes → PropagationEntry → Bytes) (resource_limit : ℕ) where
  abbrev pub planned :
      LxmfPropagationNode → Bytes → PreparedOffer → ℕ → ℕ → Bool → Bool → Bool → LxmfPropagationNode
  planned n hash prepared t u held identifies requests =
      send_offer n hash prepared.session
        (plan_offer prepared.transfer_limit_kb prepared.sync_limit_kb max_offer_ids resource_limit
          prepared.candidates)
        t u held identifies requests

  -- A step that is not the worker's next is none.
  unfoldable pub work_step : LxmfPropagationNode → Work → ℕ → SyncStep → LxmfPropagationNode × Work
  unfolding handle_sync_event prepare_sync send_offer plan_offer send_sync_resource send_failed
  work_step n free u (takes t held event) = handle_sync_event n t u held event
  work_step n (syncing hash) u (prepares t held active) =
      then_offer hash (prepare_sync n hash t held active)
  work_step n (offering hash prepared) u (offers t held identifies requests) =
      (planned n hash prepared t u held identifies requests, free)
  work_step n (sending hash session files) u (sends readable missing) = (
    send_sync_resource message_path n hash session (filter readable files) missing u,
    starting hash session,
  )
  work_step n (starting hash session) u (starts is_started) =
      ((if is_started then n else send_failed n hash session), free)
  work_step n work u c = (n, work)

  abbrev pub worked : System → LxmfPropagationNode × Work → System
  worked s (n, work) = record s { node = n; work = work }

  unfoldable pub sync_step : System → SyncStep → System
  unfolding work_step insert_peer peer_with unpeer
  sync_step s (ticks d) = record s { clock = s.clock + d }
  sync_step s (stores entries fresh) = record s {
    node = record (s.node) { entries = entries; fresh_since_start = fresh };
  }
  sync_step s (joins hash a) = record s {
    node = insert_peer s.node hash (with_announced a new_prop_peer);
  }
  sync_step s (announces hash t a) = record s { node = peer_with s.node hash t a }
  sync_step s (leaves hash) = record s { node = unpeer s.node hash }
  sync_step s (hears hash a) = record s { node = with_peer s.node hash (with_announced a) }
  sync_step s c = worked s (work_step s.node s.work s.clock c)

  unfoldable pub run_sync : System → List SyncStep → System
  unfolding sync_step
  run_sync s [] = s
  run_sync s (c ∷ cs) = run_sync (sync_step s c) cs
