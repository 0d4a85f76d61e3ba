-- ===== src/Propagation/Upkeep.antt =====
-- The account of the outbound budget of rfed/src/lxmf_propagation.rs under the changes that every handler
-- consists of.
use rfed.Base.{
  ℕ, ◌+◌, ◌-◌, ◌^◌, ◌≤◌, ◌<◌, ◌≡◌, ◌≢◌, min, refl, List, [], ◌∷◌, ◌++◌, Option, none, some, Bytes,
  bytes_dec, Bool, true, false, ◌==◌, ltb, if◌then◌else◌, arith, Option-cases, inl, inr, ap, ◌∙◌,
  sym, append-nil,
}
use rfed.Dict
use rfed.Dict.{
  Dict, Distinct, sum_by, sum_by-remove, find-remove_ne, find-remove_self, remove-Distinct,
}
use rfed.Propagation.Entries.{PropagationEntries}
use rfed.Propagation.Peer.{
  SyncState, idle, link_establishing, link_ready, request_sent, response_received,
  resource_transferring, PropPeer, state_number, in_state,
}
use rfed.Propagation.Node.{
  SyncCall, close_link, LxmfPropagationNode, prune, total, sent_in_window, outbound_reserved,
  outbound_allowance, with_peer, call, ended, end_sync, unpeer, mark_handled_for,
}
use rfed.Propagation.Sessions.{Work, free}
use rfed.Propagation.Window.{
  sends_of, sends_of-append, quiet_close, window_prune, window_total, window_later,
}
use rfed.Propagation.Apart.{departed-OneEach}
use rfed.Propagation.Accounts.{
  pending, Transfers, Accounted, IsSession, Account, with_peer-Account, nothing_found,
}

pending-Transfers :
    (work work' : Work) (hash : Bytes) (session reserved : ℕ) (transferring : Option (List Bytes))
    → pending work hash session ≡ pending work' hash session
    → Transfers work hash session reserved transferring
    → Transfers work' hash session reserved transferring
pending-Transfers work work' hash session reserved (some ids) e h = (h.0, sym e ∙ h.1)
pending-Transfers work work' hash session reserved none e h = sym e ∙ h

pending-Accounted :
    (work work' : Work) (hash : Bytes) (session reserved turn : ℕ) (last_offer : List Bytes)
    (transferring : Option (List Bytes)) (state : SyncState)
    → ((state_number state == 5) ≡ true → pending work hash session ≡ pending work' hash session)
    → Accounted work hash session reserved turn last_offer transferring state
    → Accounted work' hash session reserved turn last_offer transferring state
pending-Accounted work work' hash session reserved turn last_offer transferring idle e h = h
pending-Accounted work work' hash session reserved turn last_offer transferring link_establishing e
      h =
    h
pending-Accounted work work' hash session reserved turn last_offer transferring link_ready e h = h
pending-Accounted work work' hash session reserved turn last_offer transferring request_sent e h = h
pending-Accounted work work' hash session reserved turn last_offer transferring response_received e
      h =
    absurd h
pending-Accounted work work' hash session reserved turn last_offer transferring
      resource_transferring e h =
    pending-Transfers work work' hash session reserved transferring (e refl) h

-- What the worker has in hand matters only to the session that it is for, and only while that sends.
pub pending-IsSession :
    (work work' : Work) (hash : Bytes) (p : PropPeer)
    → (in_state resource_transferring p ≡ true
        → pending work hash p.sync_session ≡ pending work' hash p.sync_session)
    → IsSession work hash p
    → IsSession work' hash p
pending-IsSession work work' hash p =
    pending-Accounted work work' hash p.sync_session p.budget_reserved p.turn_sent p.last_offer
      p.transferring p.state

pub free-IsSession :
    (work : Work) (hash : Bytes) (p : PropPeer)
    → pending work hash p.sync_session ≡ none
    → IsSession free hash p
    → IsSession work hash p
free-IsSession work hash p e = pending-IsSession free work hash p (λ at. sym e)

module _ {limit u : ℕ} {P Q : Bytes → PropPeer → Type 0} where
  pub weaken-Account :
      (n : LxmfPropagationNode)
      → Account limit P u n
      → ((h : Bytes) (p : PropPeer) → Dict.find bytes_dec h n.peers ≡ some p → P h p → Q h p)
      → Account limit Q u n
  weaken-Account n a imp = record {
    distinct = a.distinct;
    sessions = λ h p found. imp h p found (a.sessions h p found);
    slots = a.slots;
    limited = a.limited;
    within = a.within;
    logged = a.logged;
  }

  -- A change that holds no more than before.
  pub change-Account :
      (n : LxmfPropagationNode) (hash : Bytes) (change : PropPeer → PropPeer)
      → ((p : PropPeer) → (change p).slot ≡ p.slot)
      → Account limit P u n
      → ((h : Bytes) (p : PropPeer) → hash ≢ h → P h p → Q h p)
      → ((p : PropPeer)
          → Dict.find bytes_dec hash n.peers ≡ some p
          → P hash p
          → Q hash (change p) × ((change p).budget_reserved ≤ p.budget_reserved))
      → Account limit Q u (with_peer n hash change)
  change-Account n hash change same_slot a others own =
      with_peer-Account n hash change same_slot 0 a others
        (λ p found h. let r = own p found h in (r.0, omega (arith, r.1))) (omega (arith, a.within))

module _ {limit u : ℕ} {P : Bytes → PropPeer → Type 0} where
  pub call-Account :
      (n : LxmfPropagationNode) (c : SyncCall)
      → Account limit P u n
      → sends_of (c ∷ []) ≡ []
      → Account limit P u (call n c)
  call-Account n c a quiet = record {
    distinct = a.distinct;
    sessions = a.sessions;
    slots = a.slots;
    limited = a.limited;
    within = a.within;
    logged = λ t h.
        ap (sent_in_window t) (
          sends_of-append n.sync_io (c ∷ [])
          ∙ ap (λ (x : List (ℕ × ℕ)). sends_of n.sync_io ++ x) quiet
          ∙ append-nil (sends_of n.sync_io))
        ∙ a.logged t h;
  }

  pub stored-Account :
      (n : LxmfPropagationNode) (entries : PropagationEntries) (fresh : List Bytes)
      → Account limit P u n
      → Account limit P u (record n { entries = entries; fresh_since_start = fresh })
  stored-Account n entries fresh a = record {
    distinct = a.distinct;
    sessions = a.sessions;
    slots = a.slots;
    limited = a.limited;
    within = a.within;
    logged = a.logged;
  }

  pub mark_handled_for-Account :
      (n : LxmfPropagationNode) (hash : Bytes) (ids : List Bytes)
      → Account limit P u n
      → Account limit P u (mark_handled_for n hash ids)
  unfolding mark_handled_for
  mark_handled_for-Account n hash ids a = elim (Option-cases (Dict.find bytes_dec hash n.peers)) [
    | inl missing ↦ rw (missing, mark_handled_for) a
    | inr (peer, found) ↦ rw (found, mark_handled_for) (stored-Account n _ n.fresh_since_start a)
  ]

  -- What an allowance leaves room for.
  pub allowance-Account :
      (n : LxmfPropagationNode)
      → limit < 2 ^ 64
      → Account limit P u n
      → let r = outbound_allowance n u in
        Account limit P u r.0
        × (sent_in_window u r.0.outbound_sends + outbound_reserved r.0 + r.1 ≤ limit)
        × (r.0.peers ≡ n.peers)
  unfolding outbound_allowance
  allowance-Account n l a = cases (ltb (u - n.outbound_record_start) 60)
    where
      kept : sent_in_window u (prune u n.outbound_sends) ≡ sent_in_window u n.outbound_sends
      kept = window_prune u u n.outbound_sends (omega arith)

      pruned : Account limit P u (record n { outbound_sends = prune u n.outbound_sends })
      pruned = record {
        distinct = a.distinct;
        sessions = a.sessions;
        slots = a.slots;
        limited = a.limited;
        within = omega (arith, a.within, kept);
        logged = λ t h. a.logged t h ∙ sym (window_prune u t n.outbound_sends h);
      }

      allowed : ℕ
      allowed =
          n.outbound_sync_msgs_per_min
          - min (total (prune u n.outbound_sends) + outbound_reserved n) (2 ^ 64 - 1)

      cases :
          (starting : Bool)
          → let r : LxmfPropagationNode × ℕ =
              if starting
              then (n, 0)
              else (record n { outbound_sends = prune u n.outbound_sends }, allowed) in
            Account limit P u r.0
            × (sent_in_window u r.0.outbound_sends + outbound_reserved r.0 + r.1 ≤ limit)
            × (r.0.peers ≡ n.peers)
      cases true = (a, omega (arith, a.within), refl)
      cases false = (
        pruned,
        omega (arith, a.within, a.limited, l, kept, window_total u (prune u n.outbound_sends)),
        refl,
      )

  pub end_sync-Account :
      (n : LxmfPropagationNode) (hash : Bytes) (work : Work)
      → Account limit P u n
      → ((h : Bytes) (p : PropPeer) → hash ≢ h → P h p → IsSession work h p)
      → Account limit (IsSession work) u (end_sync n hash)
  unfolding end_sync
  end_sync-Account n hash work a others =
      change-Account (call n (close_link hash)) hash ended (λ p. refl)
        (call-Account n (close_link hash) a (quiet_close hash)) others
        (λ p found h. ((refl, refl, refl), omega arith))

  pub unpeer-Account :
      (n : LxmfPropagationNode) (hash : Bytes) (work : Work)
      → Account limit P u n
      → ((h : Bytes) (p : PropPeer) → hash ≢ h → P h p → IsSession work h p)
      → Account limit (IsSession work) u (unpeer n hash)
  unfolding unpeer
  unpeer-Account n hash work a others =
      let closed = call-Account n (close_link hash) a (quiet_close hash) in
      elim (Option-cases (Dict.find bytes_dec hash n.peers)) [
        | inl missing ↦
            rw (missing, unpeer)
              (record {
                distinct = a.distinct;
                sessions = λ h p found.
                    others h p
                      (λ e.
                        nothing_found (
                          sym missing
                          ∙ ap (λ (k : Bytes). Dict.find bytes_dec k n.peers) e
                          ∙ found))
                      (a.sessions h p found);
                slots = a.slots;
                limited = a.limited;
                within = a.within;
                logged = closed.logged;
              })
        | inr (peer, present) ↦
            rw (present, unpeer)
              (record {
                distinct = remove-Distinct bytes_dec hash n.peers a.distinct;
                sessions = λ h p found. elim (bytes_dec hash h) [
                  | yes e ↦ absurd (
                      nothing_found (
                        sym (find-remove_self bytes_dec hash n.peers a.distinct)
                        ∙ ap
                            (λ (k : Bytes).
                              Dict.find bytes_dec k (Dict.remove bytes_dec hash n.peers))
                            e
                        ∙ found))
                  | no ne ↦
                      others h p ne
                        (a.sessions h p (sym (find-remove_ne bytes_dec hash h n.peers ne) ∙ found))
                ];
                slots = departed-OneEach hash peer n.peers n.departed_slots _ present a.slots;
                limited = a.limited;
                within = omega (
                  arith,
                  a.within,
                  sum_by-remove bytes_dec (λ hash peer. peer.budget_reserved) hash peer n.peers
                      present,
                );
                logged = closed.logged;
              })
      ]

  pub later-Account :
      (n : LxmfPropagationNode) (d : ℕ) → Account limit P u n → Account limit P (u + d) n
  later-Account n d a = record {
    distinct = a.distinct;
    sessions = a.sessions;
    slots = a.slots;
    limited = a.limited;
    within = omega (arith, a.within, window_later u (u + d) n.outbound_sends (omega arith));
    logged = λ t h. a.logged t (omega (arith, h));
  }
