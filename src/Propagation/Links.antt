-- ===== src/Propagation/Links.antt =====
-- What a sync session of rfed/src/lxmf_propagation.rs makes of the reports on its link: `on_link_active` and
-- `on_link_down`. `active` is the link that AppLinks holds for the peer, `attempt` whether an attempt
-- at one is live.
use rfed.Base.{Option, none, some, Bytes, bytes_dec, same, Bool, true, false, not, if◌then◌else◌}
use rfed.Dict
use rfed.Dict.{Dict, holds}
use rfed.Propagation.Peer.{idle, link_establishing, link_ready, PropPeer, in_state}
use rfed.Propagation.Node.{LxmfPropagationNode, close_link, with_peer, call, end_sync}
use rfed.Propagation.Transfer.{is_held_link}

abbrev pub established : Bytes → PropPeer → PropPeer
established link peer = record peer {
  link_id = some link;
  identified_link_id = none;
  reidentified = false;
  next_sync_attempt = 0;
  state = link_ready;
}

-- Whether the session is to go on.
unfoldable pub on_link_active :
    LxmfPropagationNode → Bytes → Bytes → Option Bytes → LxmfPropagationNode × Bool
unfolding end_sync
on_link_active n hash link active = elim (Dict.find bytes_dec hash n.peers) [
  | none ↦ (call n (close_link hash), false)
  | some peer ↦
      if in_state idle peer
      then (call n (close_link hash), false)
      else if not (holds (λ id. same id link) active)
      then (n, false)
      else if in_state link_establishing peer
      then (with_peer n hash (established link), true)
      else if holds (λ id. same id link) peer.link_id
      then (n, false)
      else (end_sync n hash, false)
]

unfoldable pub on_link_down :
    LxmfPropagationNode → Bytes → Option Bytes → Bool → LxmfPropagationNode
unfolding end_sync
on_link_down n hash active attempt = elim (Dict.find bytes_dec hash n.peers) [
  | none ↦ n
  | some peer ↦
      if in_state idle peer
      then n
      else if in_state link_establishing peer
      then (if attempt then n else end_sync n hash)
      else if is_held_link active peer.link_id
      then n
      else end_sync n hash
]
