-- ===== src/Propagation/Joining.antt =====
-- How a peer joins `LxmfPropagationNode` of rfed/src/lxmf_propagation.rs, in which slot, and what its announces
-- change.
use rfed.Base.{
  ℕ, zero, suc, ◌+◌, List, [], ◌∷◌, ◌++◌, Option, none, some, Bytes, bytes_dec, true, false, ltb,
  ◌==◌, any, length, if◌then◌else◌,
}
use rfed.Dict
use rfed.Dict.{Dict}
use rfed.Propagation.Entries.{PropagationEntries}
use rfed.Propagation.Peering.{message_count}
use rfed.Propagation.Peer.{PropPeer, new_prop_peer, same_cost}
use rfed.Propagation.Node.{LxmfPropagationNode, with_peer}

-- The departed peers whose marks stand on messages still.
unfoldable pub still_marked : PropagationEntries → Dict Bytes ℕ → Dict Bytes ℕ
still_marked q [] = []
still_marked q ((hash, slot) ∷ slots) =
    let rest = still_marked q slots in
    if ltb 0 (message_count true q slot + message_count false q slot)
    then (hash, slot) ∷ rest
    else rest

abbrev pub peer_slots : Dict Bytes PropPeer → List ℕ
peer_slots [] = []
peer_slots ((hash, peer) ∷ peers) = peer.slot ∷ peer_slots peers

abbrev pub slots_held : Dict Bytes ℕ → List ℕ
slots_held [] = []
slots_held ((hash, slot) ∷ slots) = slot ∷ slots_held slots

-- The lowest slot from `slot` on that is not held, or the last one looked at.
unfoldable pub lowest_free : ℕ → ℕ → List ℕ → ℕ
lowest_free zero slot held = slot
lowest_free (suc more) slot held =
    let later = lowest_free more (suc slot) held in
    if any (λ s. s == slot) held then later else slot

unfoldable pub free_peer_slot : LxmfPropagationNode → Dict Bytes PropPeer → Dict Bytes ℕ × ℕ
unfolding still_marked lowest_free
free_peer_slot n peers =
    let departed = still_marked n.entries n.departed_slots in
    (
      departed,
      lowest_free (length peers + length departed) 0 (peer_slots peers ++ slots_held departed),
    )

abbrev pub inserted :
    LxmfPropagationNode → Bytes → PropPeer → Dict Bytes ℕ × ℕ → LxmfPropagationNode
inserted n hash peer (departed, slot) = record n {
  peers =
      Dict.put bytes_dec hash (record peer { slot = slot }) (Dict.remove bytes_dec hash n.peers);
  departed_slots = departed;
}

-- The slot is the one that the peer has, or had when it went, or else a free one.
abbrev pub slot_for : LxmfPropagationNode → Bytes → Option PropPeer → Option ℕ → Dict Bytes ℕ × ℕ
slot_for n hash (some old) departed = (n.departed_slots, old.slot)
slot_for n hash none (some slot) = (Dict.remove bytes_dec hash n.departed_slots, slot)
slot_for n hash none none = free_peer_slot n n.peers

unfoldable pub insert_peer : LxmfPropagationNode → Bytes → PropPeer → LxmfPropagationNode
unfolding free_peer_slot
insert_peer n hash peer =
    inserted n hash peer (
      slot_for n hash (Dict.find bytes_dec hash n.peers)
        (Dict.find bytes_dec hash n.departed_slots))

abbrev pub max_peers : ℕ
max_peers = 20

abbrev pub max_peering_cost : ℕ
max_peering_cost = 26

-- What the announce of a propagation node says, but its metadata.
pub record PeerAnnounce : Type 0 where
  pub timebase : ℕ
  pub transfer_limit : ℕ
  pub sync_limit : Option ℕ
  pub stamp_cost : ℕ
  pub stamp_flex : ℕ
  pub peer_cost : ℕ

abbrev pub limit_or : Option ℕ → ℕ → Option ℕ
limit_or none limit = some limit
limit_or (some given) limit = some given

abbrev pub said : ℕ → PeerAnnounce → PropPeer → PropPeer
said t a peer = record peer {
  alive = true;
  last_heard = t;
  peering_timebase = a.timebase;
  propagation_stamp_cost = some a.stamp_cost;
  propagation_stamp_flexibility = some a.stamp_flex;
  peering_cost = some a.peer_cost;
  propagation_transfer_limit = some a.transfer_limit;
  propagation_sync_limit = limit_or a.sync_limit a.transfer_limit;
}

-- At a new cost, a refusal at the old one says nothing.
abbrev pub forget_refusal : PeerAnnounce → PropPeer → PropPeer
forget_refusal a peer =
    let kept = same_cost peer.peering_cost (some a.peer_cost) in
    record peer {
      key_reground_at_cost = if kept then peer.key_reground_at_cost else none;
      key_refused_at_cost = if kept then peer.key_refused_at_cost else none;
    }

abbrev pub update_peer : ℕ → PeerAnnounce → PropPeer → PropPeer
update_peer t a peer = said t a (forget_refusal a peer)

unfoldable pub peer_with : LxmfPropagationNode → Bytes → ℕ → PeerAnnounce → LxmfPropagationNode
unfolding insert_peer
peer_with n hash t a =
    if ltb max_peering_cost a.peer_cost then n else elim (Dict.find bytes_dec hash n.peers) [
      | some peer ↦
          if ltb peer.peering_timebase a.timebase then with_peer n hash (update_peer t a) else n
      | none ↦
          if ltb (length n.peers) max_peers then insert_peer n hash (said t a new_prop_peer) else n
    ]
