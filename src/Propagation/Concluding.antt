-- ===== src/Propagation/Concluding.antt =====
-- `apply_resource_outcome`, `on_link_active` and `on_link_down` of rfed/src/lxmf_propagation.rs keep the account of
-- the outbound budget.
use rfed.Base.{
  ℕ, ◌-◌, ◌^◌, ◌<◌, ◌≡◌, refl, List, Option, none, some, Bytes, bytes_dec, same, Bool, true, false,
  not, ◌&&◌, ◌==◌, if◌then◌else◌, arith, Bool-cases, Option-cases, inl, inr, ap, ◌∙◌,
}
use rfed.Dict
use rfed.Dict.{Dict, holds, find-put_self, sum_by-put}
use rfed.Propagation.Peer.{idle, link_establishing, resource_transferring, PropPeer, in_state}
use rfed.Propagation.Node.{
  close_link, LxmfPropagationNode, outbound_allowance, with_peer, call, end_sync, mark_handled_for,
}
use rfed.Propagation.Transfer.{
  concluded, completed, next_batch, yields, go_on, go_on_or_yield, is_held_link, complete,
  conclude_transfer, apply_resource_outcome,
}
use rfed.Propagation.Sharing.{
  next_batch_demand, budget_contention, has_sync_candidates, max_offer_ids,
}
use rfed.Propagation.Links.{established, on_link_active, on_link_down}
use rfed.Propagation.Answering.{
  During, Holding, enter-During, end-During, leave-During, same-During, Leaves,
}
use rfed.Propagation.Sessions.{free, syncing, then_sync}
use rfed.Propagation.Offering.{both_true}
use rfed.Propagation.Window.{quiet_close}
use rfed.Propagation.Accounts.{Account, Transfers}
use rfed.Propagation.Opening.{Settled, same_state, in_state-Accounted, found_once, end_sync-Settled}
use rfed.Propagation.Upkeep.{
  weaken-Account, free-IsSession, change-Account, call-Account, mark_handled_for-Account,
  allowance-Account,
}

-- Of a test's two results.
pub either {ℓ κ} :
    {A : Type ℓ} (P : A → Type κ) (test : Bool) (x y : A)
    → (test ≡ true → P x)
    → (test ≡ false → P y)
    → P (if test then x else y)
either P true x y f g = f refl
either P false x y f g = g refl

module _ {limit u : ℕ} (hash : Bytes) (session : ℕ) where
  go_on-Account :
      (n : LxmfPropagationNode) (on_held_link : Bool)
      → Account limit (During (Holding 0 session) hash) u n
      → Leaves limit u (then_sync hash (go_on n hash on_held_link))
  go_on-Account n true a =
      leave-During n hash (syncing hash) next_batch (λ p. refl) (λ h now ne. refl) a
        (λ p s. ((s.0, s.1), omega arith))
  go_on-Account n false a =
      weaken-Account (end_sync n hash) (end-During n hash a)
        (λ h p found s. free-IsSession (syncing hash) h p refl s)

  go_on_or_yield-Account :
      (n : LxmfPropagationNode) (allowance : ℕ) (peer : PropPeer) (t : ℕ) (held on_held_link : Bool)
      → Account limit (During (Holding 0 session) hash) u n
      → Leaves limit u
          (then_sync hash (go_on_or_yield (n, allowance) hash peer t held on_held_link))
  go_on_or_yield-Account n allowance peer t held on_held_link a =
      let own = next_batch_demand held n.fresh_since_start n.entries peer max_offer_ids in
      either (λ r. Leaves limit u (then_sync hash r))
        (yields n (budget_contention n t held hash (allowance - own)) own allowance peer.turn_sent
          on_held_link)
        (end_sync n hash, false) (go_on n hash on_held_link) (λ e. end-During n hash a)
        (λ e. go_on-Account n on_held_link a)

  complete-Account :
      (n : LxmfPropagationNode) (peer : PropPeer) (ids : List Bytes) (t : ℕ) (held : Bool)
      (active : Option Bytes)
      → limit < 2 ^ 64
      → Account limit (During (Holding 0 session) hash) u n
      → Leaves limit u (then_sync hash (complete n hash peer ids t u held active))
  complete-Account n peer ids t held active l a =
      either (λ r. Leaves limit u (then_sync hash r))
        (has_sync_candidates held marked.fresh_since_start marked.entries peer)
        (go_on_or_yield (outbound_allowance marked u) hash peer t held
          (is_held_link active peer.link_id))
        (end_sync marked hash, false)
        (λ e.
          go_on_or_yield-Account (outbound_allowance marked u).0 (outbound_allowance marked u).1
            peer t held (is_held_link active peer.link_id)
            (allowance-Account marked l marked-Account).0)
        (λ e. end-During marked hash marked-Account)
    where
      marked : LxmfPropagationNode
      marked = with_peer (mark_handled_for n hash ids) hash (completed t)

      marked-Account : Account limit (During (Holding 0 session) hash) u marked
      marked-Account =
          same-During (mark_handled_for n hash ids) hash (completed t) (λ p. refl)
            (mark_handled_for-Account n hash ids a) (λ p s. (s, omega arith))

  conclude_transfer-Account :
      (n : LxmfPropagationNode) (peer : PropPeer) (transferring : Option (List Bytes))
      (is_complete : Bool) (t : ℕ) (held : Bool) (active : Option Bytes)
      → limit < 2 ^ 64
      → Settled limit u n
      → Dict.find bytes_dec hash n.peers ≡ some peer
      → peer.sync_session ≡ session
      → Transfers free hash peer.sync_session peer.budget_reserved transferring
      → Leaves limit u
          (then_sync hash (conclude_transfer n hash peer transferring is_complete t u held active))
  conclude_transfer-Account n peer none is_complete t held active l a found current s = a
  conclude_transfer-Account n peer (some ids) is_complete t held active l a found current s =
      either (λ r. Leaves limit u (then_sync hash r)) is_complete
        (complete (with_peer n hash concluded) hash peer ids t u held active)
        (end_sync (with_peer n hash concluded) hash, false)
        (λ e.
          complete-Account (with_peer n hash concluded) peer ids t held active l concluded-Account)
        (λ e. end-During (with_peer n hash concluded) hash concluded-Account)
    where
      concluded-Account :
          Account limit (During (Holding 0 session) hash) u (with_peer n hash concluded)
      concluded-Account =
          enter-During n hash free concluded peer (λ p. refl) a found (λ h p ne r. r)
            (λ r. ((s.0, refl, current), omega arith))

module _ {limit u : ℕ} where
  pub apply_resource_outcome-Account :
      (n : LxmfPropagationNode) (hash : Bytes) (session : ℕ) (is_complete : Bool) (t : ℕ)
      (held : Bool) (active : Option Bytes)
      → limit < 2 ^ 64
      → Settled limit u n
      → Leaves limit u
          (then_sync hash (apply_resource_outcome n hash session is_complete t u held active))
  unfolding apply_resource_outcome
  apply_resource_outcome-Account n hash session is_complete t held active l a =
      elim (Option-cases (Dict.find bytes_dec hash n.peers)) [
        | inl missing ↦ rw (missing, apply_resource_outcome) a
        | inr (peer, found) ↦
            elim (Bool-cases
              (in_state resource_transferring peer && peer.sync_session == session)) [
                | inl current ↦
                    let now = both_true _ _ current in
                    rw (found, apply_resource_outcome, current)
                      (conclude_transfer-Account hash session n peer peer.transferring is_complete t
                        held active l a found (ground (arith, now.1))
                        (in_state-Accounted resource_transferring free hash peer
                          (same_state peer.state resource_transferring now.0)
                          (a.sessions hash peer found)))
                | inr stale ↦ rw (found, apply_resource_outcome, stale) a
              ]
      ]

  established-Account :
      (n : LxmfPropagationNode) (hash link : Bytes) (peer : PropPeer)
      → Settled limit u n
      → Dict.find bytes_dec hash n.peers ≡ some peer
      → peer.state ≡ link_establishing
      → Leaves limit u (then_sync hash (with_peer n hash (established link), true))
  established-Account n hash link peer a found state =
      change-Account n hash (established link) (λ p. refl) a
        (λ h p ne s. free-IsSession (syncing hash) h p refl s)
        (λ p f s.
          let held =
            in_state-Accounted link_establishing free hash p
              (ap (λ (x : PropPeer). x.state) (found_once hash n.peers f found) ∙ state) s in
          ((held.0, held.2), omega arith))

  pub on_link_active-Account :
      (n : LxmfPropagationNode) (hash link : Bytes) (active : Option Bytes)
      → Settled limit u n
      → Leaves limit u (then_sync hash (on_link_active n hash link active))
  unfolding on_link_active
  on_link_active-Account n hash link active a =
      elim (Option-cases (Dict.find bytes_dec hash n.peers)) [
        | inl missing ↦ rw (missing, on_link_active) closed
        | inr (peer, found) ↦
            rw (found, on_link_active)
              (either (λ r. Leaves limit u (then_sync hash r)) (in_state idle peer)
                (call n (close_link hash), false) _ (λ e. closed)
                (λ e.
                  either (λ r. Leaves limit u (then_sync hash r))
                    (not (holds (λ id. same id link) active)) (n, false) _ (λ e. a)
                    (λ e.
                      either (λ r. Leaves limit u (then_sync hash r))
                        (in_state link_establishing peer)
                        (with_peer n hash (established link), true) _
                        (λ e.
                          established-Account n hash link peer a found
                            (same_state peer.state link_establishing e))
                        (λ e.
                          either (λ r. Leaves limit u (then_sync hash r))
                            (holds (λ id. same id link) peer.link_id) (n, false)
                            (end_sync n hash, false) (λ e. a) (λ e. end_sync-Settled n hash a)))))
      ]
    where
      closed : Settled limit u (call n (close_link hash))
      closed = call-Account n (close_link hash) a (quiet_close hash)

  pub on_link_down-Settled :
      (n : LxmfPropagationNode) (hash : Bytes) (active : Option Bytes) (attempt : Bool)
      → Settled limit u n
      → Settled limit u (on_link_down n hash active attempt)
  unfolding on_link_down
  on_link_down-Settled n hash active attempt a =
      elim (Option-cases (Dict.find bytes_dec hash n.peers)) [
        | inl missing ↦ rw (missing, on_link_down) a
        | inr (peer, found) ↦
            rw (found, on_link_down)
              (either (Settled limit u) (in_state idle peer) n _ (λ e. a)
                (λ e.
                  either (Settled limit u) (in_state link_establishing peer)
                    (if attempt then n else end_sync n hash) _
                    (λ e.
                      either (Settled limit u) attempt n (end_sync n hash) (λ e. a) (λ e. ended))
                    (λ e.
                      either (Settled limit u) (is_held_link active peer.link_id) n
                        (end_sync n hash) (λ e. a) (λ e. ended))))
      ]
    where
      ended : Settled limit u (end_sync n hash)
      ended = end_sync-Settled n hash a
