-- ===== src/Propagation/Sending.antt =====
-- `send_sync_resource` of rfed/src/lxmf_propagation.rs keeps the account of the outbound budget.
use rfed.Base.{
  ℕ, ◌≤◌, ◌≡◌, ◌≢◌, refl, List, [], ◌∷◌, Option, none, some, Bytes, bytes_dec, Bool, true, false,
  ◌&&◌, ◌==◌, if◌then◌else◌, length, is_empty, same_refl, arith, Bool-cases, Option-cases, inl, inr,
  ap, ◌∙◌, sym, subst,
}
use rfed.Dict
use rfed.Dict.{Dict, holds, find-put_self, sum_by-put}
use rfed.Propagation.Entries.{PropagationEntry}
use rfed.Propagation.Peer.{SyncState, resource_transferring, PropPeer, in_state}
use rfed.Propagation.Node.{
  LxmfPropagationNode, sent_in_window, with_peer, prune, call, end_sync, counted_sent,
  record_outbound_send, send_resource,
}
use rfed.Propagation.Transfer.{
  forget_missing_messages, in_flight, transmit, send_on, send_sync_resource, send_failed,
}
use rfed.Propagation.Answering.{During, enter-During, leave-During, pending-other}
use rfed.Propagation.Sessions.{free, sending}
use rfed.Propagation.Offering.{both_true}
use rfed.Propagation.Window.{sends_of, sends_of-append, window_prune, window_append, window_now}
use rfed.Propagation.Accounts.{nothing_found, Accounted, IsSession, Account, Transfers, same_value}
use rfed.Propagation.Opening.{
  Settled, same_state, in_state-Accounted, find-with_peer, end_sync-Settled,
}
use rfed.Propagation.Upkeep.{weaken-Account, pending-IsSession, stored-Account, end_sync-Account}

others-IsSession :
    (hash : Bytes) (session : ℕ) (files : List Bytes) (h : Bytes) (p : PropPeer)
    → hash ≢ h
    → IsSession (sending hash session files) h p
    → IsSession free h p
others-IsSession hash session files h p ne =
    pending-IsSession (sending hash session files) free h p
      (λ e. pending-other hash h session p.sync_session files ne)

-- The session that the worker holds `files` for has them reserved, or its Resource is sent already.
held_for :
    (hash : Bytes) (session : ℕ) (files : List Bytes) (now reserved : ℕ)
    (transferring : Option (List Bytes))
    → (now == session) ≡ true
    → Transfers (sending hash session files) hash now reserved transferring
    → (reserved ≡ length files) × (transferring ≡ none)
held_for hash session files now reserved none e s = ground (arith, e, s, same_refl hash)
held_for hash session files now reserved (some ids) e s =
    absurd (ground (arith, e, s.1, same_refl hash))

-- A session whose Resource is sent.
in_flight-Accounted :
    (hash : Bytes) (now turn : ℕ) (last_offer ids : List Bytes) (transferring : Option (List Bytes))
    (state : SyncState)
    → state ≡ resource_transferring
    → transferring ≡ some ids
    → Accounted free hash now 0 turn last_offer transferring state
in_flight-Accounted hash now turn last_offer ids transferring state e f =
    subst (λ (x : SyncState). Accounted free hash now 0 turn last_offer transferring x) (sym e)
      (subst (λ (x : Option (List Bytes)). Transfers free hash now 0 x) (sym f) (refl, refl))

put_peer :
    (n : LxmfPropagationNode) (hash : Bytes) (change : PropPeer → PropPeer) (peer : PropPeer)
    → Dict.find bytes_dec hash n.peers ≡ some peer
    → with_peer n hash change ≡ record n { peers = Dict.put bytes_dec hash (change peer) n.peers }
put_peer n hash change peer found = rw (found, with_peer) refl

module _ {limit u : ℕ} (n : LxmfPropagationNode) (hash : Bytes) where
  -- The send is recorded and made: what it takes of the window, the session held.
  sent-Account :
      (peer : PropPeer) (link : Bytes) (ids : List Bytes)
      → Account limit
          (During (λ p. p.state ≡ resource_transferring × (p.transferring ≡ some ids)) hash)
          u
          n
      → Dict.find bytes_dec hash n.peers ≡ some peer
      → length ids ≤ peer.budget_reserved
      → Settled limit u
          (call (record_outbound_send n hash (length ids) u) (send_resource u hash link ids))
  unfolding record_outbound_send sends_of
  sent-Account peer link ids a found held =
      rw (found, record_outbound_send, with_peer)
        (record {
          distinct = counted.distinct;
          sessions = counted.sessions;
          slots = counted.slots;
          limited = counted.limited;
          within = omega (
            arith,
            a.within,
            held,
            window_append u (prune u n.outbound_sends) ((u, length ids) ∷ []),
            window_prune u u n.outbound_sends (omega arith),
            window_now u (length ids),
            sum_by-put bytes_dec (λ hash peer. peer.budget_reserved) hash
                (counted_sent (length ids) peer) peer n.peers found,
          );
          logged = λ t later.
              ap (sent_in_window t) (sends_of-append n.sync_io (send_resource u hash link ids ∷ []))
              ∙ omega (
                arith,
                a.logged t later,
                window_append t (prune u n.outbound_sends) ((u, length ids) ∷ []),
                window_append t (sends_of n.sync_io) ((u, length ids) ∷ []),
                window_prune u t n.outbound_sends later,
              );
        })
    where
      counted :
          Account limit
            (IsSession free)
            u
            (record n { peers = Dict.put bytes_dec hash (counted_sent (length ids) peer) n.peers })
      counted =
          subst (Account limit (IsSession free) u)
            (put_peer n hash (counted_sent (length ids)) peer found)
            (leave-During n hash free (counted_sent (length ids)) (λ p. refl) (λ h now ne. refl) a
              (λ p s. (
                in_flight-Accounted hash p.sync_session _ p.last_offer ids p.transferring p.state
                    s.0 s.1,
                omega arith,
              )))

module _ {limit u : ℕ} (n : LxmfPropagationNode) (hash : Bytes) (session : ℕ)
    (files : List Bytes) where
  ended-Settled :
      Account limit (IsSession (sending hash session files)) u n → Settled limit u (end_sync n hash)
  ended-Settled a = end_sync-Account n hash free a (others-IsSession hash session files)

  send_on-Settled :
      (peer : PropPeer) (ids : List Bytes) (link : Option Bytes)
      → Account limit (IsSession (sending hash session files)) u n
      → Dict.find bytes_dec hash n.peers ≡ some peer
      → peer.state ≡ resource_transferring
      → (peer.sync_session == session) ≡ true
      → length ids ≤ length files
      → Settled limit u (send_on n hash ids u link)
  send_on-Settled peer ids none a found state current fits = ended-Settled a
  send_on-Settled peer ids (some link) a found state current fits = cases (is_empty ids)
    where
      reserved : (peer.budget_reserved ≡ length files) × (peer.transferring ≡ none)
      reserved =
          held_for hash session files peer.sync_session peer.budget_reserved peer.transferring
            current
            (in_state-Accounted resource_transferring (sending hash session files) hash peer state
              (a.sessions hash peer found))

      cases :
          (nothing : Bool)
          → Settled limit u (if nothing then end_sync n hash else transmit n hash link ids u)
      cases true = ended-Settled a
      cases false =
          sent-Account (with_peer n hash (in_flight ids)) hash (in_flight ids peer) link ids
            (enter-During n hash (sending hash session files) (in_flight ids) peer (λ p. refl) a
              found (others-IsSession hash session files) (λ s. ((state, refl), omega arith)))
            (find-with_peer n hash (in_flight ids) peer found) (omega (arith, reserved.0, fits))

module _ {limit u : ℕ} (message_path : Bytes → PropagationEntry → Bytes) where
  pub send_sync_resource-Settled :
      (n : LxmfPropagationNode) (hash : Bytes) (session : ℕ) (files ids : List Bytes)
      (missing : List (Bytes × Bytes))
      → Account limit (IsSession (sending hash session files)) u n
      → length ids ≤ length files
      → Settled limit u (send_sync_resource message_path n hash session ids missing u)
  unfolding send_sync_resource
  send_sync_resource-Settled n hash session files ids missing a fits =
      elim (Option-cases (Dict.find bytes_dec hash n.peers)) [
        | inl none_found ↦
            rw (none_found, send_sync_resource)
              (weaken-Account kept kept-Account (λ h p f s.
                others-IsSession hash session files h p
                  (λ e.
                    nothing_found
                      (sym none_found ∙ ap (λ (k : Bytes). Dict.find bytes_dec k n.peers) e ∙ f))
                  s))
        | inr (peer, found) ↦
            elim (Bool-cases
              (in_state resource_transferring peer && peer.sync_session == session)) [
                | inl current ↦
                    let now = both_true _ _ current in
                    rw (found, send_sync_resource, current)
                      (send_on-Settled kept hash session files peer ids peer.link_id kept-Account
                        found (same_state peer.state resource_transferring now.0) now.1 fits)
                | inr stale ↦
                    rw (found, send_sync_resource, stale)
                      (weaken-Account kept kept-Account (λ h p f s. elim (bytes_dec hash h) [
                        | yes e ↦
                            let same_peer = same_value (
                              sym found
                              ∙ ap (λ (k : Bytes). Dict.find bytes_dec k n.peers) e
                              ∙ f) in
                            pending-IsSession (sending hash session files) free h p
                              (λ at. ground (arith, at, stale, same_peer)) s
                        | no ne ↦ others-IsSession hash session files h p ne s
                      ]))
              ]
      ]
    where
      kept : LxmfPropagationNode
      kept = record n { entries = forget_missing_messages message_path n.entries missing }

      kept-Account : Account limit (IsSession (sending hash session files)) u kept
      kept-Account =
          stored-Account n (forget_missing_messages message_path n.entries missing)
            n.fresh_since_start a

module _ {limit u : ℕ} where
  pub send_failed-Settled :
      (n : LxmfPropagationNode) (hash : Bytes) (session : ℕ)
      → Settled limit u n
      → Settled limit u (send_failed n hash session)
  unfolding send_failed
  send_failed-Settled n hash session a = elim (Option-cases (Dict.find bytes_dec hash n.peers)) [
    | inl missing ↦ rw (missing, send_failed) a
    | inr (peer, found) ↦
        elim (Bool-cases (in_state resource_transferring peer && peer.sync_session == session)) [
          | inl current ↦ rw (found, send_failed, current) (end_sync-Settled n hash a)
          | inr stale ↦ rw (found, send_failed, stale) a
        ]
  ]
