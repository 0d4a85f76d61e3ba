-- ===== src/Propagation/Balance.antt =====
-- The account of the outbound budget over any run of the sync sessions of rfed/src/lxmf_propagation.rs.
use rfed.Base.{
  ℕ, ◌+◌, ◌^◌, ◌≤◌, ◌<◌, ◌≡◌, refl, List, [], ◌∷◌, some, Bytes, bytes_dec, Bool-cases, Option-cases,
  inl, inr, ltb, length, All, arith, ap, ◌∙◌, sym, subst,
}
use rfed.Dict
use rfed.Dict.{
  Dict, holds, find-put_self, sum_by, sum_by-put_new, Distinct, put-Distinct, find-put_ne,
  find-remove_ne, find-remove_self, remove-Distinct, sum_by-remove_le,
}
use rfed.Propagation.Entries.{PropagationEntry}
use rfed.Propagation.Peer.{PropPeer}
use rfed.Propagation.Node.{
  with_peer, LxmfPropagationNode, new_node, default_outbound_sync_msgs_per_min, sent_in_window,
  outbound_reserved,
}
use rfed.Propagation.Peer.{new_prop_peer}
use rfed.Propagation.Sessions.{
  Work, free, with_announced, SyncStep, ticks, stores, joins, announces, leaves, hears, System,
  sync_step, run_sync,
}
use rfed.Propagation.Window.{sends_of}
use rfed.Propagation.Accounts.{nothing_found, IsSession, Account, same_value}
use rfed.Propagation.Upkeep.{unpeer-Account, later-Account, change-Account, stored-Account}
use rfed.Propagation.Joining.{
  PeerAnnounce, inserted, slot_for, insert_peer, max_peers, max_peering_cost, said, update_peer,
  peer_with,
}
use rfed.Propagation.Concluding.{either}
use rfed.Propagation.Apart.{OneEach, inserted-OneEach}
use rfed.Propagation.Running.{StepListsOnce, work_step-Account}

-- The account of a system whose worker has `s.work` in hand.
abbrev pub Balanced : ℕ → System → Type 0
Balanced limit s = Account limit (IsSession s.work) s.clock s.node

module _ (message_path : Bytes → PropagationEntry → Bytes) (resource_limit : ℕ) {limit : ℕ} where
  -- A peer that holds nothing joins in whichever slot.
  inserted-Account :
      (u : ℕ) (n : LxmfPropagationNode) (work : Work) (hash : Bytes) (peer : PropPeer)
      (departed : Dict Bytes ℕ) (slot : ℕ)
      → peer.budget_reserved ≡ 0
      → IsSession work hash (record peer { slot = slot })
      → OneEach
          (Dict.put bytes_dec hash
            (record peer { slot = slot })
            (Dict.remove bytes_dec hash n.peers))
          departed
      → Account limit (IsSession work) u n
      → Account limit (IsSession work) u (inserted n hash peer (departed, slot))
  inserted-Account u n work hash peer departed slot nothing session one a =
      let there = record peer { slot = slot } in
      let others = Dict.remove bytes_dec hash n.peers in
      record {
        distinct =
            put-Distinct bytes_dec hash there others
              (remove-Distinct bytes_dec hash n.peers a.distinct);
        sessions = λ h p found. elim (bytes_dec hash h) [
          | yes e ↦
              subst (λ (k : Bytes). IsSession work k p) e
                (subst (IsSession work hash)
                  (same_value (
                    sym (find-put_self bytes_dec hash there others)
                    ∙ ap
                        (λ (k : Bytes).
                          Dict.find bytes_dec k (Dict.put bytes_dec hash there others))
                        e
                    ∙ found))
                  session)
          | no ne ↦ a.sessions h p (
              sym (find-remove_ne bytes_dec hash h n.peers ne)
              ∙ sym (find-put_ne bytes_dec hash h there others ne)
              ∙ found)
        ];
        slots = one;
        limited = a.limited;
        within = omega (
          arith,
          a.within,
          nothing,
          sum_by-put_new bytes_dec (λ hash peer. peer.budget_reserved) hash there others
              (find-remove_self bytes_dec hash n.peers a.distinct),
          sum_by-remove_le bytes_dec (λ hash peer. peer.budget_reserved) hash n.peers,
        );
        logged = a.logged;
      }

  insert_peer-Account :
      (u : ℕ) (n : LxmfPropagationNode) (work : Work) (hash : Bytes) (peer : PropPeer)
      → peer.budget_reserved ≡ 0
      → ((slot : ℕ) → IsSession work hash (record peer { slot = slot }))
      → Account limit (IsSession work) u n
      → Account limit (IsSession work) u (insert_peer n hash peer)
  unfolding insert_peer
  insert_peer-Account u n work hash peer nothing session a =
      inserted-Account u n work hash peer slot.0 slot.1 nothing (session slot.1)
        (inserted-OneEach n hash peer a.distinct a.slots) a
    where
      slot : Dict Bytes ℕ × ℕ
      slot =
          slot_for n hash (Dict.find bytes_dec hash n.peers)
            (Dict.find bytes_dec hash n.departed_slots)

  peer_with-Account :
      (u : ℕ) (n : LxmfPropagationNode) (work : Work) (hash : Bytes) (t : ℕ)
      (said_so : PeerAnnounce)
      → Account limit (IsSession work) u n
      → Account limit (IsSession work) u (peer_with n hash t said_so)
  unfolding peer_with
  peer_with-Account u n work hash t said_so a =
      elim (Bool-cases (ltb max_peering_cost said_so.peer_cost)) [
        | inl costly ↦ rw (costly, peer_with) a
        | inr cheap ↦ elim (Option-cases (Dict.find bytes_dec hash n.peers)) [
          | inl missing ↦
              rw (cheap, missing, peer_with)
                (either (Account limit (IsSession work) u) (ltb (length n.peers) max_peers)
                  (insert_peer n hash (said t said_so new_prop_peer)) n
                  (λ e.
                    insert_peer-Account u n work hash (said t said_so new_prop_peer) refl
                      (λ slot. (refl, refl, refl)) a)
                  (λ e. a))
          | inr (peer, found) ↦
              rw (cheap, found, peer_with)
                (either (Account limit (IsSession work) u)
                  (ltb peer.peering_timebase said_so.timebase)
                  (with_peer n hash (update_peer t said_so)) n
                  (λ e.
                    change-Account n hash (update_peer t said_so) (λ p. refl) a (λ h p ne r. r)
                      (λ p f r. (r, omega arith)))
                  (λ e. a))
        ]
      ]

  sync_step-Balanced :
      (s : System) (c : SyncStep)
      → limit < 2 ^ 64
      → StepListsOnce c
      → Balanced limit s
      → Balanced limit (sync_step message_path resource_limit s c)
  unfolding sync_step
  sync_step-Balanced s (ticks d) l once a = later-Account s.node d a
  sync_step-Balanced s (stores entries fresh) l once a = stored-Account s.node entries fresh a
  sync_step-Balanced s (joins hash heard) l once a =
      insert_peer-Account s.clock s.node s.work hash (with_announced heard new_prop_peer) refl
        (λ slot. (refl, refl, refl)) a
  sync_step-Balanced s (announces hash t said_so) l once a =
      peer_with-Account s.clock s.node s.work hash t said_so a
  sync_step-Balanced s (leaves hash) l once a = unpeer-Account s.node hash s.work a (λ h p ne r. r)
  sync_step-Balanced s (hears hash heard) l once a =
      change-Account s.node hash (with_announced heard) (λ p. refl) a (λ h p ne r. r)
        (λ p found r. (r, omega arith))
  sync_step-Balanced s c l once a =
      work_step-Account message_path resource_limit s.clock s.node s.work c l once a

  pub run_sync-Balanced :
      (s : System) (cs : List SyncStep)
      → limit < 2 ^ 64
      → All StepListsOnce cs
      → Balanced limit s
      → Balanced limit (run_sync message_path resource_limit s cs)
  unfolding run_sync
  run_sync-Balanced s [] l once a = a
  run_sync-Balanced s (c ∷ cs) l once a =
      run_sync-Balanced (sync_step message_path resource_limit s c) cs l once.1
        (sync_step-Balanced s c l once.0 a)

-- A new node at `u`, its worker with nothing in hand.
abbrev pub new_system : ℕ → System
new_system u = record { node = new_node u; work = free; clock = u }

new-Balanced : (u : ℕ) → Balanced default_outbound_sync_msgs_per_min (new_system u)
unfolding sent_in_window sends_of Dict.find
new-Balanced u = record {
  distinct = tt;
  sessions = λ h p found. absurd (nothing_found found);
  slots = λ s. omega arith;
  limited = refl;
  within = omega arith;
  logged = λ t later. refl;
}

-- What the sessions of a system sent within 60 seconds, by the calls made, and what they hold.
abbrev pub spent : System → ℕ
spent s = sent_in_window s.clock (sends_of s.node.sync_io) + outbound_reserved s.node

-- On a new node, whatever its sync sessions do, whatever peers join, announce themselves, go and find
-- keys, and whatever the store becomes, if no answer to an offer lists an id twice: the messages sent
-- within the last 60 seconds, by the calls made, and the messages that sessions have reserved are
-- never more than 600 together; a session that awaits the answer to its offer has the offer's length
-- reserved, one that is about to send has as many as the worker has in hand for it, and any other has
-- none; and no slot is held by two peers, those that went and left marks included.
pub run_sync-Within :
    (message_path : Bytes → PropagationEntry → Bytes) (resource_limit u : ℕ) (cs : List SyncStep)
    → All StepListsOnce cs
    → let s = run_sync message_path resource_limit (new_system u) cs in
      (spent s ≤ default_outbound_sync_msgs_per_min)
      × ((hash : Bytes) (peer : PropPeer)
          → Dict.find bytes_dec hash s.node.peers ≡ some peer
          → IsSession s.work hash peer)
      × OneEach s.node.peers s.node.departed_slots
run_sync-Within message_path resource_limit u cs once =
    let s = run_sync message_path resource_limit (new_system u) cs in
    let a =
      run_sync-Balanced message_path resource_limit {limit = default_outbound_sync_msgs_per_min}
        (new_system u) cs (omega arith) once (new-Balanced u) in
    (omega (arith, a.within, a.logged s.clock (omega arith)), a.sessions, a.slots)
