-- ===== src/Propagation/Opening.antt =====
-- `prepare_sync` and `send_offer` of rfed/src/lxmf_propagation.rs keep the account of the outbound budget.
use rfed.Base.{
  ℕ, ◌≡◌, refl, List, Option, none, some, Bytes, bytes_dec, Bool, true, ◌||◌, ◌==◌, arith,
  Bool-cases, Option-cases, inl, inr, ap, ◌∙◌, sym, subst,
}
use rfed.Dict
use rfed.Dict.{Dict, holds, find-put_self}
use rfed.Propagation.Peer.{
  SyncState, idle, link_establishing, link_ready, request_sent, response_received,
  resource_transferring, PropPeer, state_number, in_state,
}
use rfed.Propagation.Node.{
  close_link, open_link, LxmfPropagationNode, with_peer, end_sync, mark_handled_for,
}
use rfed.Propagation.Offer.{
  Gate, postpone, nothing_to_sync, busy, proceed, gate_of, attempted, close_stray, establishing,
  establish, readied, gather, PreparedOffer, not_started, started, prepare_peer, prepare_sync,
}
use rfed.Propagation.Sessions.{Work, free}
use rfed.Propagation.Window.{quiet_close, quiet_open}
use rfed.Propagation.Accounts.{Accounted, IsSession, Account, same_value}
use rfed.Propagation.Upkeep.{change-Account, call-Account, stored-Account, end_sync-Account}

pub same_state : (a b : SyncState) → (state_number a == state_number b) ≡ true → a ≡ b
same_state a b h = ground (arith, h)

-- What a session's state says of it.
pub in_state-Accounted :
    (state : SyncState) (work : Work) (hash : Bytes) (p : PropPeer)
    → p.state ≡ state
    → IsSession work hash p
    → Accounted work hash p.sync_session p.budget_reserved p.turn_sent p.last_offer p.transferring
        state
in_state-Accounted state work hash p e h =
    subst
      (λ (s : SyncState).
        Accounted work hash p.sync_session p.budget_reserved p.turn_sent p.last_offer p.transferring
          s)
      e h

pub peers-mark_handled_for :
    (n : LxmfPropagationNode) (hash : Bytes) (ids : List Bytes)
    → (mark_handled_for n hash ids).peers ≡ n.peers
unfolding mark_handled_for
peers-mark_handled_for n hash ids = elim (Option-cases (Dict.find bytes_dec hash n.peers)) [
  | inl missing ↦ rw (missing, mark_handled_for) refl
  | inr (peer, found) ↦ rw (found, mark_handled_for) refl
]

pub find-with_peer :
    (n : LxmfPropagationNode) (hash : Bytes) (change : PropPeer → PropPeer) (peer : PropPeer)
    → Dict.find bytes_dec hash n.peers ≡ some peer
    → Dict.find bytes_dec hash (with_peer n hash change).peers ≡ some (change peer)
find-with_peer n hash change peer found =
    rw (found, with_peer) (find-put_self bytes_dec hash (change peer) n.peers)

-- The one peer that a lookup finds.
pub found_once :
    (hash : Bytes) (peers : Dict Bytes PropPeer) {p q : PropPeer}
    → Dict.find bytes_dec hash peers ≡ some p
    → Dict.find bytes_dec hash peers ≡ some q
    → p ≡ q
found_once hash peers a b = same_value (sym a ∙ b)

-- The account while the worker has nothing in hand.
abbrev pub Settled : ℕ → ℕ → LxmfPropagationNode → Type 0
Settled limit u n = Account limit (IsSession free) u n

module _ {limit u : ℕ} where
  -- A change that leaves the session as it is.
  pub neutral-Settled :
      (n : LxmfPropagationNode) (hash : Bytes) (change : PropPeer → PropPeer)
      → ((p : PropPeer) → (change p).slot ≡ p.slot)
      → Settled limit u n
      → ((p : PropPeer) → IsSession free hash p → IsSession free hash (change p))
      → ((p : PropPeer) → (change p).budget_reserved ≡ p.budget_reserved)
      → Settled limit u (with_peer n hash change)
  neutral-Settled n hash change same_slot a kept held =
      change-Account n hash change same_slot a (λ h p ne s. s)
        (λ p found s. (kept p s, omega (arith, held p)))

  pub end_sync-Settled :
      (n : LxmfPropagationNode) (hash : Bytes)
      → Settled limit u n
      → Settled limit u (end_sync n hash)
  end_sync-Settled n hash a = end_sync-Account n hash free a (λ h p ne s. s)

  close_stray-Settled :
      (n : LxmfPropagationNode) (hash : Bytes) (active : Option Bytes)
      → Settled limit u n
      → Settled limit u (close_stray n hash active) × ((close_stray n hash active).peers ≡ n.peers)
  close_stray-Settled n hash none a = (a, refl)
  close_stray-Settled n hash (some stray) a =
      (call-Account n (close_link hash) a (quiet_close hash), refl)

  establish-Settled :
      (n : LxmfPropagationNode) (hash : Bytes) (t : ℕ) (active : Option Bytes) (peer : PropPeer)
      → Settled limit u n
      → Dict.find bytes_dec hash n.peers ≡ some peer
      → peer.state ≡ idle
      → Settled limit u (establish n hash t active)
  unfolding establish
  establish-Settled n hash t active peer a found quiet =
      let closed = close_stray-Settled n hash active a in
      call-Account (with_peer (close_stray n hash active) hash (establishing t)) (open_link hash)
        (change-Account (close_stray n hash active) hash (establishing t) (λ p. refl) closed.0
          (λ h p ne s. s)
          (λ p f s.
            let same_peer =
              found_once hash (close_stray n hash active).peers f
                (ap (λ (x : Dict Bytes PropPeer). Dict.find bytes_dec hash x) closed.1 ∙ found) in
            let held =
              in_state-Accounted idle free hash p (ap (λ (x : PropPeer). x.state) same_peer ∙ quiet)
                s in
            ((held.0, refl, held.2), omega arith)))
        (quiet_open hash)

  gather-Settled :
      (n : LxmfPropagationNode) (hash : Bytes) (t : ℕ) (held : Bool) (peer : PropPeer)
      → Settled limit u n
      → Settled limit u (gather n hash t held peer).0
  unfolding gather
  gather-Settled n hash t held peer a =
      stored-Account (with_peer n hash (readied t)) _
        (with_peer n hash (readied t)).fresh_since_start
        (neutral-Settled n hash (readied t) (λ p. refl) a (λ p s. s) (λ p. refl))

  started-Settled :
      (n : LxmfPropagationNode) (hash : Bytes) (t : ℕ) (held : Bool) (active : Option Bytes)
      (peer : PropPeer)
      → Settled limit u n
      → Dict.find bytes_dec hash n.peers ≡ some peer
      → Settled limit u (started n hash t held active peer).0
  started-Settled n hash t held active peer a found = cases peer.state refl
    where
      gathered : Settled limit u (gather n hash t held peer).0
      gathered = gather-Settled n hash t held peer a

      cases :
          (state : SyncState)
          → peer.state ≡ state
          → Settled limit u
              (elim state as (λ s. LxmfPropagationNode × Option PreparedOffer) [
                | idle ↦ (establish n hash t active, none)
                | _ ↦ gather n hash t held peer
              ]).0
      cases idle e = establish-Settled n hash t active peer a found e
      cases link_establishing e = gathered
      cases link_ready e = gathered
      cases request_sent e = gathered
      cases response_received e = gathered
      cases resource_transferring e = gathered

  not_started-Settled :
      (n : LxmfPropagationNode) (hash : Bytes) (state : SyncState)
      → Settled limit u n
      → Settled limit u (not_started n hash state).0
  not_started-Settled n hash link_ready a = end_sync-Settled n hash a
  not_started-Settled n hash idle a = a
  not_started-Settled n hash link_establishing a = a
  not_started-Settled n hash request_sent a = a
  not_started-Settled n hash response_received a = a
  not_started-Settled n hash resource_transferring a = a

  prepare_peer-Settled :
      (n : LxmfPropagationNode) (hash : Bytes) (t : ℕ) (held : Bool) (active : Option Bytes)
      (peer : PropPeer)
      → Settled limit u n
      → Dict.find bytes_dec hash n.peers ≡ some peer
      → Settled limit u (prepare_peer n hash t held active peer).0
  prepare_peer-Settled n hash t held active peer a found =
      cases (gate_of (attempted t peer) t held n.fresh_since_start n.entries)
    where
      tried : LxmfPropagationNode
      tried = with_peer n hash (attempted t)

      noted : Settled limit u (with_peer n hash (attempted t))
      noted = neutral-Settled n hash (attempted t) (λ p. refl) a (λ p s. s) (λ p. refl)

      cases :
          (gate : Gate)
          → Settled limit u
              (elim gate as (λ g. LxmfPropagationNode × Option PreparedOffer) [
                | proceed ↦
                    started (with_peer n hash (attempted t)) hash t held active (attempted t peer)
                | postpone ↦ not_started (with_peer n hash (attempted t)) hash peer.state
                | nothing_to_sync ↦ not_started (with_peer n hash (attempted t)) hash peer.state
                | busy ↦ (with_peer n hash (attempted t), none)
              ]).0
      cases proceed =
          started-Settled (with_peer n hash (attempted t)) hash t held active (attempted t peer)
            noted (find-with_peer n hash (attempted t) peer found)
      cases postpone = not_started-Settled (with_peer n hash (attempted t)) hash peer.state noted
      cases nothing_to_sync =
          not_started-Settled (with_peer n hash (attempted t)) hash peer.state noted
      cases busy = noted

  pub prepare_sync-Settled :
      (n : LxmfPropagationNode) (hash : Bytes) (t : ℕ) (held : Bool) (active : Option Bytes)
      → Settled limit u n
      → Settled limit u (prepare_sync n hash t held active).0
  unfolding prepare_sync
  prepare_sync-Settled n hash t held active a =
      elim (Option-cases (Dict.find bytes_dec hash n.peers)) [
        | inl missing ↦ rw (missing, prepare_sync) a
        | inr (peer, found) ↦ elim (Bool-cases (in_state idle peer || in_state link_ready peer)) [
          | inl ready ↦
              rw (found, prepare_sync, ready)
                (prepare_peer-Settled n hash t held active peer a found)
          | inr running ↦ rw (found, prepare_sync, running) a
        ]
      ]
