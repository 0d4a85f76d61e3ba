-- ===== src/Propagation/Answering.antt =====
-- `apply_offer_response` and `on_offer_failed` of rfed/src/lxmf_propagation.rs keep the account of the outbound
-- budget.
use rfed.Base.{
  ℕ, ◌≤◌, ◌≡◌, ◌≢◌, refl, List, [], Option, none, some, Bytes, bytes_dec, same, Bool, true, false,
  ◌&&◌, ◌==◌, if◌then◌else◌, length, filter, is_empty, length-filter_le, same_refl, same_eq, arith,
  Bool-cases, Option-cases, inl, inr, subst,
}
use rfed.Dict
use rfed.Dict.{Dict, holds, find-put_self}
use rfed.Propagation.Peer.{request_sent, PropPeer, in_state}
use rfed.Propagation.Node.{LxmfPropagationNode, with_peer, end_sync, mark_handled_for}
use rfed.Propagation.Answer.{
  OfferAnswer, code, boolean, array, unreadable, done, send, OfferError, no_identity, no_access,
  throttled, invalid_key, other, error_of, answer_taken, identify_again, throttle, refuse_key,
  offer_refused, transfers, wanted_of, unwanted_of, is_stored, send_wanted, reconcile,
  apply_offer_response, on_offer_failed,
}
use rfed.Propagation.Sessions.{Work, free, syncing, sending, then_next}
use rfed.Propagation.Offering.{both_true}
use rfed.Propagation.Window.{NoRepeats, length-shared}
use rfed.Propagation.Accounts.{pending, IsSession, Account, Transfers}
use rfed.Propagation.Opening.{Settled, same_state, in_state-Accounted, found_once, end_sync-Settled}
use rfed.Propagation.Upkeep.{
  unpeer-Account, free-IsSession, change-Account, mark_handled_for-Account, end_sync-Account,
}

-- An answer that is a list has no id twice.
abbrev pub ListsOnce : OfferAnswer → Type 0
ListsOnce (array listed) = NoRepeats listed
ListsOnce (code c) = Unit
ListsOnce (boolean wants) = Unit
ListsOnce unreadable = Unit

-- Within a step, what is so of the session that it is about; the others are as without work in hand.
abbrev pub During : (PropPeer → Type 0) → Bytes → Bytes → PropPeer → Type 0
During T hash h p = (hash ≢ h → IsSession free h p) × (hash ≡ h → T p)

-- A session that holds `reserved`, has no Resource under way and is `session`.
abbrev pub Holding : ℕ → ℕ → PropPeer → Type 0
Holding reserved session p =
    (p.budget_reserved ≡ reserved) × (p.transferring ≡ none) × (p.sync_session ≡ session)

-- Nothing is in hand for any other session.
pub pending-other :
    (hash h : Bytes) (session now : ℕ) (files : List Bytes)
    → hash ≢ h
    → pending (sending hash session files) h now ≡ none
pending-other hash h session now files ne = elim (Bool-cases (same hash h)) [
  | inl e ↦ absurd (ne (same_eq hash h e))
  | inr e ↦ ground (arith, e)
]

pub sending-Transfers :
    (hash : Bytes) (session now : ℕ) (files : List Bytes) (transferring : Option (List Bytes))
    → now ≡ session
    → transferring ≡ none
    → Transfers (sending hash session files) hash now (length files) transferring
sending-Transfers hash session now files none e nothing = ground (arith, e, same_refl hash)
sending-Transfers hash session now files (some ids) e nothing = absurd (ground (arith, nothing))

module _ {limit u : ℕ} {T : PropPeer → Type 0} where
  pub enter-During :
      (n : LxmfPropagationNode) (hash : Bytes) (work : Work) (change : PropPeer → PropPeer)
      (peer : PropPeer)
      → ((p : PropPeer) → (change p).slot ≡ p.slot)
      → Account limit (IsSession work) u n
      → Dict.find bytes_dec hash n.peers ≡ some peer
      → ((h : Bytes) (p : PropPeer) → hash ≢ h → IsSession work h p → IsSession free h p)
      → (IsSession work hash peer
          → T (change peer) × ((change peer).budget_reserved ≤ peer.budget_reserved))
      → Account limit (During T hash) u (with_peer n hash change)
  enter-During n hash work change peer same_slot a found others own =
      change-Account n hash change same_slot a
        (λ h p ne s. ((λ _. others h p ne s), λ e. absurd (ne e)))
        (λ p f s.
          let r =
            subst
              (λ (x : PropPeer).
                IsSession work hash x
                → T (change x) × ((change x).budget_reserved ≤ x.budget_reserved))
              (found_once hash n.peers found f) own s in
          (((λ ne. absurd (ne refl)), λ e. r.0), r.1))

  pub end-During :
      (n : LxmfPropagationNode) (hash : Bytes)
      → Account limit (During T hash) u n
      → Settled limit u (end_sync n hash)
  end-During n hash a = end_sync-Account n hash free a (λ h p ne s. s.0 ne)

  -- The step's last change of the session.
  pub leave-During :
      (n : LxmfPropagationNode) (hash : Bytes) (work : Work) (change : PropPeer → PropPeer)
      → ((p : PropPeer) → (change p).slot ≡ p.slot)
      → ((h : Bytes) (session : ℕ) → hash ≢ h → pending work h session ≡ none)
      → Account limit (During T hash) u n
      → ((p : PropPeer)
          → T p
          → IsSession work hash (change p) × ((change p).budget_reserved ≤ p.budget_reserved))
      → Account limit (IsSession work) u (with_peer n hash change)
  leave-During n hash work change same_slot idle_for a own =
      change-Account n hash change same_slot a
        (λ h p ne s. free-IsSession work h p (idle_for h p.sync_session ne) (s.0 ne))
        (λ p f s. own p (s.1 refl))

  -- A change that the account does not see.
  pub same-During :
      (n : LxmfPropagationNode) (hash : Bytes) (change : PropPeer → PropPeer)
      → ((p : PropPeer) → (change p).slot ≡ p.slot)
      → Account limit (During T hash) u n
      → ((p : PropPeer) → T p → T (change p) × ((change p).budget_reserved ≤ p.budget_reserved))
      → Account limit (During T hash) u (with_peer n hash change)
  same-During n hash change same_slot a own =
      change-Account n hash change same_slot a (λ h p ne s. s)
        (λ p f s. let r = own p (s.1 refl) in (((λ ne. absurd (ne refl)), λ e. r.0), r.1))

-- The account after a handler that leaves the worker with `r.1`.
abbrev pub Leaves : ℕ → ℕ → LxmfPropagationNode × Work → Type 0
Leaves limit u r = Account limit (IsSession r.1) u r.0

module _ {limit u : ℕ} (hash : Bytes) (session reserved : ℕ) where
  offer_refused-Account :
      (n : LxmfPropagationNode) (t : ℕ) (reidentified : Bool) (error : OfferError)
      → Account limit (During (Holding reserved session) hash) u n
      → Leaves limit u (then_next hash session (offer_refused n hash t reidentified error))
  offer_refused-Account n t true no_identity a = end-During n hash a
  offer_refused-Account n t false no_identity a =
      leave-During n hash (syncing hash) identify_again (λ p. refl) (λ h session ne. refl) a
        (λ p s. ((refl, s.1), omega arith))
  offer_refused-Account n t reidentified no_access a =
      unpeer-Account n hash free a (λ h p ne s. s.0 ne)
  offer_refused-Account n t reidentified throttled a =
      end-During _ hash (same-During n hash (throttle t) (λ p. refl) a (λ p s. (s, omega arith)))
  offer_refused-Account n t reidentified invalid_key a =
      end-During _ hash (same-During n hash refuse_key (λ p. refl) a (λ p s. (s, omega arith)))
  offer_refused-Account n t reidentified other a = end-During n hash a

  send_wanted-Account :
      (n : LxmfPropagationNode) (wanted : List Bytes)
      → Account limit (During (Holding reserved session) hash) u n
      → length wanted ≤ reserved
      → Leaves limit u (then_next hash session (send_wanted n hash wanted))
  unfolding send_wanted
  send_wanted-Account n wanted a fits = cases (is_empty files)
    where
      files : List Bytes
      files = filter (is_stored n.entries) wanted

      cases :
          (nothing : Bool)
          → Leaves limit u (
              then_next hash session (
                if nothing
                then (end_sync n hash, done)
                else (with_peer n hash (transfers (length files)), send files)))
      cases true = end-During n hash a
      cases false =
          leave-During n hash (sending hash session files) (transfers (length files)) (λ p. refl)
            (λ h now ne. pending-other hash h session now files ne) a
            (λ p s. (
              sending-Transfers hash session p.sync_session files p.transferring s.2 s.1,
              omega (arith, s.0, fits, length-filter_le (is_stored n.entries) wanted),
            ))

  marked-Account :
      (n : LxmfPropagationNode) (ids wanted : List Bytes)
      → Account limit (During (Holding reserved session) hash) u n
      → length wanted ≤ reserved
      → Leaves limit u
          (then_next hash session (send_wanted (mark_handled_for n hash ids) hash wanted))
  marked-Account n ids wanted a fits =
      send_wanted-Account (mark_handled_for n hash ids) wanted
        (mark_handled_for-Account n hash ids a) fits

  reconcile-Account :
      (n : LxmfPropagationNode) (t : ℕ) (reidentified : Bool) (last_offer : List Bytes)
      (answer : OfferAnswer)
      → Account limit (During (Holding reserved session) hash) u n
      → length last_offer ≡ reserved
      → ListsOnce answer
      → Leaves limit u (then_next hash session (reconcile n hash t reidentified last_offer answer))
  unfolding reconcile wanted_of
  reconcile-Account n t reidentified last_offer (code c) a e once =
      offer_refused-Account n t reidentified (error_of c) a
  reconcile-Account n t reidentified last_offer (boolean false) a e once =
      marked-Account n last_offer [] a (omega arith)
  reconcile-Account n t reidentified last_offer (boolean true) a e once =
      send_wanted-Account n last_offer a (omega (arith, e))
  reconcile-Account n t reidentified last_offer (array listed) a e once =
      marked-Account n (unwanted_of listed last_offer) (wanted_of listed last_offer) a
        (omega (arith, e, length-shared listed last_offer once))
  reconcile-Account n t reidentified last_offer unreadable a e once = end-During n hash a

module _ {limit u : ℕ} where
  pub apply_offer_response-Account :
      (n : LxmfPropagationNode) (hash : Bytes) (session t : ℕ) (answer : OfferAnswer)
      → Settled limit u n
      → ListsOnce answer
      → Leaves limit u (then_next hash session (apply_offer_response n hash session t answer))
  unfolding apply_offer_response
  apply_offer_response-Account n hash session t answer a once =
      elim (Option-cases (Dict.find bytes_dec hash n.peers)) [
        | inl missing ↦ rw (missing, apply_offer_response) a
        | inr (peer, found) ↦
            elim (Bool-cases (in_state request_sent peer && peer.sync_session == session)) [
              | inl current ↦
                  let now = both_true _ _ current in
                  rw (found, apply_offer_response, current)
                    (reconcile-Account hash session (length peer.last_offer)
                      (with_peer n hash answer_taken) t peer.reidentified peer.last_offer answer
                      (enter-During n hash free answer_taken peer (λ p. refl) a found
                        (λ h p ne s. s)
                        (λ s.
                          let held =
                            in_state-Accounted request_sent free hash peer
                              (same_state peer.state request_sent now.0) s in
                          ((held.0, held.1, ground (arith, now.1)), omega arith)))
                      refl once)
              | inr stale ↦ rw (found, apply_offer_response, stale) a
            ]
      ]

  pub on_offer_failed-Settled :
      (n : LxmfPropagationNode) (hash : Bytes) (session : ℕ)
      → Settled limit u n
      → Settled limit u (on_offer_failed n hash session)
  unfolding on_offer_failed
  on_offer_failed-Settled n hash session a =
      elim (Option-cases (Dict.find bytes_dec hash n.peers)) [
        | inl missing ↦ rw (missing, on_offer_failed) a
        | inr (peer, found) ↦
            elim (Bool-cases (in_state request_sent peer && peer.sync_session == session)) [
              | inl current ↦ rw (found, on_offer_failed, current) (end_sync-Settled n hash a)
              | inr stale ↦ rw (found, on_offer_failed, stale) a
            ]
      ]
