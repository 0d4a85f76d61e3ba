-- ===== src/Propagation/Accounts.antt =====
-- What the sync sessions of rfed/src/lxmf_propagation.rs hold of the outbound budget in each state, and how the
-- changes that their steps consist of keep the account.
use rfed.Base.{
  ℕ, ◌+◌, ◌≤◌, ◌≡◌, ◌≢◌, List, Option, none, some, Bytes, bytes_dec, same, ◌&&◌, ◌==◌,
  if◌then◌else◌, length, arith, Option-cases, inl, inr, ap, ◌∙◌, sym, subst,
}
use rfed.Dict
use rfed.Dict.{
  Dict, Distinct, sum_by, sum_by-put, find-put, find-put_self, find-put_ne, find-remove_ne,
  find-remove_self, put-Distinct, remove-Distinct,
}
use rfed.Propagation.Peer.{
  SyncState, idle, link_establishing, link_ready, request_sent, response_received,
  resource_transferring, PropPeer,
}
use rfed.Propagation.Node.{LxmfPropagationNode, sent_in_window, outbound_reserved, with_peer}
use rfed.Propagation.Sessions.{Work, free, syncing, offering, sending, starting}
use rfed.Propagation.Apart.{OneEach, put-OneEach}
use rfed.Propagation.Window.{sends_of}

-- How many messages the worker has in hand to send in a session.
abbrev pub pending : Work → Bytes → ℕ → Option ℕ
pending (sending hash session files) h s =
    if same hash h && session == s then some (length files) else none
pending free h s = none
pending (syncing hash) h s = none
pending (offering hash prepared) h s = none
pending (starting hash session) h s = none

-- A transfer holds nothing once it is sent, with nothing in hand, and until then what the worker has in
-- hand for it.
abbrev pub Transfers : Work → Bytes → ℕ → ℕ → Option (List Bytes) → Type 0
Transfers work hash session reserved (some ids) =
    (reserved ≡ 0) × (pending work hash session ≡ none)
Transfers work hash session reserved none = pending work hash session ≡ some reserved

abbrev pub Accounted :
    Work → Bytes → ℕ → ℕ → ℕ → List Bytes → Option (List Bytes) → SyncState → Type 0
Accounted work hash session reserved turn last_offer transferring idle =
    (reserved ≡ 0) × (turn ≡ 0) × (transferring ≡ none)
Accounted work hash session reserved turn last_offer transferring link_establishing =
    (reserved ≡ 0) × (turn ≡ 0) × (transferring ≡ none)
Accounted work hash session reserved turn last_offer transferring link_ready =
    (reserved ≡ 0) × (transferring ≡ none)
Accounted work hash session reserved turn last_offer transferring request_sent =
    (reserved ≡ length last_offer) × (transferring ≡ none)
Accounted work hash session reserved turn last_offer transferring response_received = ⊥
Accounted work hash session reserved turn last_offer transferring resource_transferring =
    Transfers work hash session reserved transferring

-- What a session holds of the budget: its whole offer until the answer, then what the worker is about
-- to send for it, and nothing in any other state.
abbrev pub IsSession : Work → Bytes → PropPeer → Type 0
IsSession work hash peer =
    Accounted work hash peer.sync_session peer.budget_reserved peer.turn_sent peer.last_offer
      peer.transferring peer.state

-- Every peer is as `P` says, in a slot of its own, the limit is `limit`, and from `u` on the record of sends and the calls
-- made agree, with what sessions hold within the limit.
pub record Account (limit : ℕ) (P : Bytes → PropPeer → Type 0) (u : ℕ) (n : LxmfPropagationNode)
    : Type 0 where
  pub distinct : Distinct bytes_dec n.peers
  pub sessions : (h : Bytes) (p : PropPeer) → Dict.find bytes_dec h n.peers ≡ some p → P h p
  pub slots : OneEach n.peers n.departed_slots
  pub limited : n.outbound_sync_msgs_per_min ≡ limit
  pub within : sent_in_window u n.outbound_sends + outbound_reserved n ≤ limit
  pub logged :
      (t : ℕ) → u ≤ t → sent_in_window t (sends_of n.sync_io) ≡ sent_in_window t n.outbound_sends

pub nothing_found : {x : PropPeer} → none ≡ some x → ⊥
nothing_found e = ground arith

pub same_value : {x y : PropPeer} → some x ≡ some y → x ≡ y
same_value e = ground arith

-- A peer's change, with whatever else of the node it does not touch.
module _ {limit u : ℕ} {P Q : Bytes → PropPeer → Type 0} (n : LxmfPropagationNode) (hash : Bytes)
    (change : PropPeer → PropPeer) (same_slot : (p : PropPeer) → (change p).slot ≡ p.slot) where
  -- `room` is what the change may hold more than before.
  pub with_peer-Account :
      (room : ℕ)
      → Account limit P u n
      → ((h : Bytes) (p : PropPeer) → hash ≢ h → P h p → Q h p)
      → ((p : PropPeer)
          → Dict.find bytes_dec hash n.peers ≡ some p
          → P hash p
          → Q hash (change p) × ((change p).budget_reserved ≤ p.budget_reserved + room))
      → sent_in_window u n.outbound_sends + outbound_reserved n + room ≤ limit
      → Account limit Q u (with_peer n hash change)
  with_peer-Account room a others own fits =
      elim (Option-cases (Dict.find bytes_dec hash n.peers)) [
        | inl missing ↦
            rw (missing, with_peer)
              (record {
                distinct = a.distinct;
                sessions = λ h p found. others h p (apart h p found missing) (a.sessions h p found);
                slots = a.slots;
                limited = a.limited;
                within = a.within;
                logged = a.logged;
              })
        | inr (peer, found) ↦
            let changed = own peer found (a.sessions hash peer found) in
            rw (found, with_peer)
              (record {
                distinct = put-Distinct bytes_dec hash (change peer) n.peers a.distinct;
                sessions = λ h p later. elim (bytes_dec hash h) [
                  | yes e ↦
                      subst (λ (k : Bytes). Q k p) e
                        (subst (Q hash)
                          (same_value (
                            sym (find-put_self bytes_dec hash (change peer) n.peers)
                            ∙ ap
                                (λ (k : Bytes).
                                  Dict.find bytes_dec k
                                    (Dict.put bytes_dec hash (change peer) n.peers))
                                e
                            ∙ later))
                          changed.0)
                  | no ne ↦ others h p ne (
                      a.sessions h p
                        (sym (find-put_ne bytes_dec hash h (change peer) n.peers ne) ∙ later))
                ];
                slots =
                    put-OneEach hash peer (change peer) n.peers n.departed_slots found
                      (same_slot peer) a.slots;
                limited = a.limited;
                within = omega (
                  arith,
                  sum_by-put bytes_dec (λ hash peer. peer.budget_reserved) hash (change peer) peer
                      n.peers found,
                  changed.1,
                  fits,
                );
                logged = a.logged;
              })
      ]
    where
      apart :
          (h : Bytes) (p : PropPeer)
          → Dict.find bytes_dec h n.peers ≡ some p
          → Dict.find bytes_dec hash n.peers ≡ none
          → hash ≢ h
      apart h p found missing e =
          nothing_found (sym missing ∙ ap (λ (k : Bytes). Dict.find bytes_dec k n.peers) e ∙ found)
