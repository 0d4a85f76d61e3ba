-- ===== src/Propagation/Runs.antt =====
-- A sync session of rfed/src/lxmf_propagation.rs, run step by step.
use rfed.Base.{
  ℕ, zero, suc, ◌≤◌, ◌≡◌, refl, List, [], ◌∷◌, ◌++◌, none, some, Bytes, true, false, bytes_dec,
  same, length-filter_le,
}
use rfed.Dict
use rfed.Propagation.Entries.{PropagationEntry, PropagationEntries, new_entry, insert_entry, mark}
use rfed.Propagation.Peer.{PropPeer}
use rfed.Propagation.Node.{default_outbound_sync_msgs_per_min, outbound_reserved, sent_in_window}
use rfed.Propagation.Answer.{array}
use rfed.Propagation.Sessions.{
  start, link_active, offer_response, Announced, SyncStep, ticks, stores, announces, hears, takes,
  prepares, offers, sends, starts, System, run_sync,
}
use rfed.Propagation.Joining.{PeerAnnounce}
use rfed.Propagation.Plan.{OfferCandidate, plan_offer, sort_candidates}
use rfed.Propagation.Lightest.{IsSorted, SameCandidates}
use rfed.Propagation.Chosen.{Offers, plan_offer-Offers}
use rfed.Propagation.Window.{NoRepeats, sends_of}
use rfed.Propagation.Apart.{OneEach}
use rfed.Propagation.Accounts.{IsSession}
use rfed.Propagation.Balance.{new_system, spent, run_sync-Within}

abbrev fill : ℕ → Bytes
fill zero = []
fill (suc n) = 9 ∷ fill n

abbrev id : Bytes
id = fill 32

abbrev hash : Bytes
hash = 1 ∷ []

abbrev link : Bytes
link = 2 ∷ []

-- One message, to be offered to the peer in slot 0.
abbrev one_message : PropagationEntries
one_message =
    (mark
      (insert_entry (record { rows = []; index = []; handled_counts = []; unhandled_counts = [] })
        id (new_entry (5 ∷ []) 100 50 16)).0
      0 id false true).0

abbrev announce : PeerAnnounce
announce = record {
  timebase = 5;
  transfer_limit = 256;
  sync_limit = some 10240;
  stamp_cost = 16;
  stamp_flex = 3;
  peer_cost = 18;
}

-- Its key is ground.
abbrev key_ground : Announced
key_ground = record {
  alive = true;
  last_heard = 90;
  propagation_stamp_cost = some 16;
  propagation_stamp_flexibility = some 3;
  peering_cost = some 18;
  propagation_transfer_limit = some 256;
  propagation_sync_limit = some 10240;
  peering_key = some (3 ∷ [], 18);
  key_reground_at_cost = none;
  key_refused_at_cost = none;
  next_sync_attempt = 0;
}

-- A peer announces, has its link, and is offered the message.
abbrev to_offer : List SyncStep
to_offer =
    stores one_message []
    ∷ announces hash 90 announce
    ∷ hears hash key_ground
    ∷ ticks 60
    ∷ takes 200 false (start hash)
    ∷ prepares 200 false none
    ∷ takes 201 false (link_active hash link (some link))
    ∷ prepares 202 false (some link)
    ∷ offers 202 false true true
    ∷ []

-- It wants the message, which is sent.
abbrev to_sent : List SyncStep
to_sent =
    takes 203 false (offer_response hash 2 (array (id ∷ [])))
    ∷ ticks 5
    ∷ sends (λ id. true) []
    ∷ starts true
    ∷ []

abbrev path : Bytes → PropagationEntry → Bytes
path id entry = id

abbrev after : List SyncStep → System
after cs = run_sync path 1000000 (new_system 1000) cs

-- The offer reserves its size.
offered_one : outbound_reserved (after to_offer).node ≡ 1
unfolding run_sync mark insert_entry rfed.Propagation.Entries.get rfed.Dict.find rfed.Dict.put
    bytes_dec rfed.Dict.remove rfed.Propagation.Peering.count_at
    rfed.Propagation.Peering.messages_in sent_in_window sends_of
offered_one = refl

-- The message is sent, and nothing is reserved then.
sent_one :
    (sends_of (after (to_offer ++ to_sent)).node.sync_io ≡ (1065, 1) ∷ [])
    × (outbound_reserved (after (to_offer ++ to_sent)).node ≡ 0)
unfolding run_sync mark insert_entry rfed.Propagation.Entries.get rfed.Dict.find rfed.Dict.put
    bytes_dec rfed.Dict.remove rfed.Propagation.Peering.count_at
    rfed.Propagation.Peering.messages_in sent_in_window sends_of
sent_one = (refl, refl)

-- An answer that lists an id twice has two messages reserved where one was offered.
listed_twice :
    outbound_reserved
      (after (to_offer ++ takes 203 false (offer_response hash 2 (array (id ∷ id ∷ []))) ∷ [])).node
    ≡ 2
unfolding run_sync mark insert_entry rfed.Propagation.Entries.get rfed.Dict.find rfed.Dict.put
    bytes_dec rfed.Dict.remove rfed.Propagation.Peering.count_at
    rfed.Propagation.Peering.messages_in sent_in_window sends_of
listed_twice = refl

id-NoRepeats : NoRepeats (id ∷ [])
id-NoRepeats other = length-filter_le (λ x. same other x) (id ∷ [])

run_sync-Within_example :
    (spent (after (to_offer ++ to_sent)) ≤ default_outbound_sync_msgs_per_min)
    × ((peer_hash : Bytes) (peer : PropPeer)
        → Dict.find bytes_dec peer_hash (after (to_offer ++ to_sent)).node.peers ≡ some peer
        → IsSession (after (to_offer ++ to_sent)).work peer_hash peer)
    × OneEach
        (after (to_offer ++ to_sent)).node.peers
        (after (to_offer ++ to_sent)).node.departed_slots
run_sync-Within_example =
    run_sync-Within path 1000000 1000 (to_offer ++ to_sent)
      (tt, (tt, (tt, (tt, (tt, (tt, (tt, (tt, (tt, (id-NoRepeats, (tt, (tt, (tt, tt)))))))))))))

-- Two messages that fit, the heavier first, one over the limit of 1 KB and one over a Resource.
abbrev four : List OfferCandidate
four =
    record { tid = 1 ∷ []; size = 300; weight = 9 }
    ∷ record { tid = 2 ∷ []; size = 1200; weight = 2 }
    ∷ record { tid = 3 ∷ []; size = 200; weight = 4 }
    ∷ record { tid = 4 ∷ []; size = 900; weight = 3 }
    ∷ []

four_planned : plan_offer (some 1) (some 2) 500 800 four ≡ record {
  offer = (3 ∷ []) ∷ (1 ∷ []) ∷ [];
  too_big = (2 ∷ []) ∷ [];
  over_resource = (4 ∷ []) ∷ [];
  estimated_bytes = 556;
}
unfolding plan_offer
four_planned = refl

plan_offer-Offers_example :
    let cs = sort_candidates four in
    IsSorted cs
    × SameCandidates cs four
    × Offers (some 1) (some 2) 500 800 cs (plan_offer (some 1) (some 2) 500 800 four)
plan_offer-Offers_example = plan_offer-Offers (some 1) (some 2) 500 800 four
