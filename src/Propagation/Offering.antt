-- ===== src/Propagation/Offering.antt =====
-- `send_offer` of rfed/src/lxmf_propagation.rs keeps the account of the outbound budget.
use rfed.Base.{
  ℕ, ◌+◌, ◌^◌, ◌≤◌, ◌<◌, ◌≡◌, refl, List, Option, none, some, Bytes, bytes_dec, same, Bool, true,
  false, not, ◌&&◌, ◌==◌, if◌then◌else◌, length, filter, is_empty, length-take, arith, Bool-cases,
  Option-cases, inl, inr, ap, ◌∙◌,
}
use rfed.Dict
use rfed.Dict.{Dict, holds, find-put_self}
use rfed.Propagation.Peering.{is_marked}
use rfed.Propagation.Peer.{link_ready, PropPeer, in_state}
use rfed.Propagation.Node.{
  identify, request_offer, LxmfPropagationNode, sent_in_window, outbound_reserved,
  outbound_allowance, with_peer, call, end_sync, mark_handled_for,
}
use rfed.Propagation.Plan.{OfferPlan}
use rfed.Propagation.Offer.{
  cap_of, offered, request, request_on, offer_of, offer_planned, send_offer,
}
use rfed.Propagation.Sessions.{free}
use rfed.Propagation.Window.{quiet_identify, quiet_request}
use rfed.Propagation.Accounts.{with_peer-Account}
use rfed.Propagation.Opening.{
  Settled, same_state, in_state-Accounted, peers-mark_handled_for, found_once, end_sync-Settled,
}
use rfed.Propagation.Upkeep.{call-Account, mark_handled_for-Account, allowance-Account}

-- The parts of a conjunction.
pub both_true : (a b : Bool) → (a && b) ≡ true → (a ≡ true) × (b ≡ true)
both_true true b h = (refl, h)
both_true false b h = absurd (ground (arith, h))

pub allowance-cap_of :
    (n : LxmfPropagationNode) (hash : Bytes) (t : ℕ) (held : Bool) (allowance wanted turn : ℕ)
    → cap_of n hash t held allowance wanted turn ≤ allowance
unfolding cap_of
allowance-cap_of n hash t held allowance wanted turn = ground arith

module _ {limit u : ℕ} where
  asked-Settled :
      (n : LxmfPropagationNode) (hash : Bytes) (offer : List Bytes) (link : Bytes) (peer : PropPeer)
      → Settled limit u n
      → Dict.find bytes_dec hash n.peers ≡ some peer
      → peer.state ≡ link_ready
      → sent_in_window u n.outbound_sends + outbound_reserved n + length offer ≤ limit
      → Settled limit u
          (call (with_peer n hash (offered offer link)) (request_offer hash link offer))
  asked-Settled n hash offer link peer a found ready fits =
      call-Account (with_peer n hash (offered offer link)) (request_offer hash link offer)
        (with_peer-Account n hash (offered offer link) (λ p. refl) (length offer) a (λ h p ne s. s)
          (λ p f s.
            let same_peer = found_once hash n.peers f found in
            let held =
              in_state-Accounted link_ready free hash p
                (ap (λ (x : PropPeer). x.state) same_peer ∙ ready) s in
            ((refl, held.1), omega arith))
          fits)
        (quiet_request hash link offer)

  request-Settled :
      (n : LxmfPropagationNode) (hash : Bytes) (offer : List Bytes) (link : Bytes) (peer : PropPeer)
      (identifies requests : Bool)
      → Settled limit u n
      → Dict.find bytes_dec hash n.peers ≡ some peer
      → peer.state ≡ link_ready
      → sent_in_window u n.outbound_sends + outbound_reserved n + length offer ≤ limit
      → Settled limit u (request n hash offer link peer identifies requests)
  unfolding request
  request-Settled n hash offer link peer identifies requests a found ready fits =
      cases (not (holds (λ id. same id link) peer.identified_link_id)) identifies requests
    where
      named : Bool → LxmfPropagationNode
      named needs = if needs then call n (identify hash link) else n

      named-Settled : (needs : Bool) → Settled limit u (named needs)
      named-Settled true = call-Account n (identify hash link) a (quiet_identify hash link)
      named-Settled false = a

      asked :
          (needs : Bool)
          → Settled limit u (
              call
                (with_peer (named needs) hash (offered offer link))
                (request_offer hash link offer))
      asked true =
          asked-Settled (call n (identify hash link)) hash offer link peer (named-Settled true)
            found ready fits
      asked false = asked-Settled n hash offer link peer a found ready fits

      cases :
          (needs identifies requests : Bool)
          → Settled limit u (
              if needs && not identifies
              then end_sync (named needs) hash
              else if requests
              then call
                  (with_peer (named needs) hash (offered offer link))
                  (request_offer hash link offer)
              else end_sync
                  (call
                    (with_peer (named needs) hash (offered offer link))
                    (request_offer hash link offer))
                  hash)
      cases true false requests = end_sync-Settled (named true) hash (named-Settled true)
      cases true true true = asked true
      cases true true false = end_sync-Settled _ hash (asked true)
      cases false identifies true = asked false
      cases false identifies false = end_sync-Settled _ hash (asked false)

  request_on-Settled :
      (n : LxmfPropagationNode) (hash : Bytes) (offer : List Bytes) (peer : PropPeer)
      (identifies requests : Bool) (link : Option Bytes) (key : Option (Bytes × ℕ))
      → Settled limit u n
      → Dict.find bytes_dec hash n.peers ≡ some peer
      → peer.state ≡ link_ready
      → sent_in_window u n.outbound_sends + outbound_reserved n + length offer ≤ limit
      → Settled limit u (request_on n hash offer peer identifies requests link key)
  request_on-Settled n hash offer peer identifies requests (some link) (some key) a found ready
        fits =
      request-Settled n hash offer link peer identifies requests a found ready fits
  request_on-Settled n hash offer peer identifies requests (some link) none a found ready fits =
      end_sync-Settled n hash a
  request_on-Settled n hash offer peer identifies requests none key a found ready fits =
      end_sync-Settled n hash a

  offer_planned-Settled :
      (n : LxmfPropagationNode) (allowance : ℕ) (hash : Bytes) (peer : PropPeer) (plan : OfferPlan)
      (t : ℕ) (held identifies requests : Bool)
      → Settled limit u n
      → Dict.find bytes_dec hash n.peers ≡ some peer
      → peer.state ≡ link_ready
      → sent_in_window u n.outbound_sends + outbound_reserved n + allowance ≤ limit
      → Settled limit u (offer_planned (n, allowance) hash peer plan t held identifies requests)
  offer_planned-Settled n allowance hash peer plan t held identifies requests a found ready fits =
      cases (is_empty offer)
    where
      marked : List Bytes
      marked = filter (λ id. is_marked false n.entries peer.slot id) plan.offer

      offer : List Bytes
      offer = offer_of n hash plan.offer peer t held allowance

      short : length offer ≤ allowance
      short = omega (
        arith,
        length-take (cap_of n hash t held allowance (length marked) peer.turn_sent) marked,
        allowance-cap_of n hash t held allowance (length marked) peer.turn_sent,
      )

      cases :
          (nothing : Bool)
          → Settled limit u (
              if nothing
              then end_sync n hash
              else request_on n hash offer peer identifies requests peer.link_id peer.peering_key)
      cases true = end_sync-Settled n hash a
      cases false =
          request_on-Settled n hash offer peer identifies requests peer.link_id peer.peering_key a
            found ready (omega (arith, short, fits))

  pub send_offer-Settled :
      (n : LxmfPropagationNode) (hash : Bytes) (session : ℕ) (plan : OfferPlan) (t : ℕ)
      (held identifies requests : Bool)
      → limit < 2 ^ 64
      → Settled limit u n
      → Settled limit u (send_offer n hash session plan t u held identifies requests)
  unfolding send_offer
  send_offer-Settled n hash session plan t held identifies requests l a =
      elim (Option-cases (Dict.find bytes_dec hash n.peers)) [
        | inl missing ↦ rw (missing, send_offer) a
        | inr (peer, found) ↦
            elim (Bool-cases (in_state link_ready peer && peer.sync_session == session)) [
              | inl current ↦
                  let allowed = allowance-Account marked l marked-Settled in
                  rw (found, send_offer, current)
                    (offer_planned-Settled (outbound_allowance marked u).0
                      (outbound_allowance marked u).1 hash peer plan t held identifies requests
                      allowed.0
                      (ap (λ (x : Dict Bytes PropPeer). Dict.find bytes_dec hash x)
                          (allowed.2 ∙ unmoved)
                        ∙ found)
                      (same_state peer.state link_ready (both_true _ _ current).0) allowed.1)
              | inr other ↦ rw (found, send_offer, other) a
            ]
      ]
    where
      marked : LxmfPropagationNode
      marked = mark_handled_for (mark_handled_for n hash plan.too_big) hash plan.over_resource

      marked-Settled : Settled limit u marked
      marked-Settled =
          mark_handled_for-Account (mark_handled_for n hash plan.too_big) hash plan.over_resource
            (mark_handled_for-Account n hash plan.too_big a)

      unmoved : marked.peers ≡ n.peers
      unmoved =
          peers-mark_handled_for (mark_handled_for n hash plan.too_big) hash plan.over_resource
          ∙ peers-mark_handled_for n hash plan.too_big
