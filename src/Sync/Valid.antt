-- ===== src/Sync/Valid.antt =====
-- The peers that a node keeps, in rfed/src/sync.rs.
use rfed.Base.{
  ℕ, ◌≤◌, ◌≡◌, refl, List, [], ◌∷◌, Option, none, some, Bytes, bytes_dec, Bool, true, false, ◌&&◌,
  filter, All, arith, Bool-cases, Option-cases, inl, inr, subst, sym, if_pos, if_neg, not,
}
use rfed.Dict
use rfed.Dict.{Dict, holds}
use rfed.Sync.Peers.{
  sync_backoff_min, sync_backoff_max, FedPeer, new_peer, heard, sync_failed, sync_succeeded,
  FedSync, is_local, is_static, peer_of, peer_heard, tick, seed_peer, seed_all, seed_static_peers,
  update_peer, sync_started, sync_ok, sync_err, insert_loaded, load_each,
}

-- A peer under its own hash, with its backoff between the bounds.
pub record IsPeer (hash : Bytes) (p : FedPeer) : Type 0 where
  pub keyed : p.destination_hash ≡ hash
  pub above : sync_backoff_min ≤ p.sync_backoff
  pub below : p.sync_backoff ≤ sync_backoff_max

abbrev pub ArePeers : Dict Bytes FedPeer → Type 0
ArePeers [] = Unit
ArePeers ((hash, p) ∷ peers) = IsPeer hash p × ArePeers peers

pub record IsValid (f : FedSync) : Type 0 where
  pub distinct : Dict.Distinct bytes_dec f.peers
  pub are_peers : ArePeers f.peers
  pub no_self : (h : Bytes) → is_local f h ≡ true → Dict.find bytes_dec h f.peers ≡ none

pub find-IsPeer :
    (peers : Dict Bytes FedPeer) (h : Bytes) (p : FedPeer)
    → ArePeers peers
    → Dict.find bytes_dec h peers ≡ some p
    → IsPeer h p
unfolding Dict.find
find-IsPeer [] h p a e = absurd (ground arith)
find-IsPeer ((k, q) ∷ peers) h p a e = elim (bytes_dec k h) [
  | yes same_key ↦ subst (λ (x : Bytes). IsPeer x p) same_key (hit same_key)
  | no other ↦ find-IsPeer peers h p a.1 (ground arith)
]
  where
    hit : k ≡ h → IsPeer k p
    hit same_key = subst (λ (x : FedPeer). IsPeer k x) (ground arith) a.0

put-ArePeers :
    (peers : Dict Bytes FedPeer) (h : Bytes) (p : FedPeer)
    → IsPeer h p
    → ArePeers peers
    → ArePeers (Dict.put bytes_dec h p peers)
unfolding Dict.put
put-ArePeers [] h p i a = (i, tt)
put-ArePeers ((k, q) ∷ peers) h p i a = elim (bytes_dec k h) [
  | yes same_key ↦ rw (if_pos _ same_key) (subst (λ (x : Bytes). IsPeer x p) (sym same_key) i, a.1)
  | no other ↦ rw (if_neg _ other) (a.0, put-ArePeers peers h p i a.1)
]

peer_of-IsPeer :
    (peers : Dict Bytes FedPeer) (h : Bytes) → ArePeers peers → IsPeer h (peer_of peers h)
unfolding peer_of new_peer
peer_of-IsPeer peers h a = elim (Option-cases (Dict.find bytes_dec h peers)) [
  | inl absent ↦
      rw (absent, peer_of) (record { keyed = refl; above = omega arith; below = omega arith })
  | inr (p, found) ↦ rw (found, peer_of) (find-IsPeer peers h p a found)
]

put-IsValid :
    (f : FedSync) (h : Bytes) (p : FedPeer)
    → is_local f h ≡ false
    → IsPeer h p
    → IsValid f
    → IsValid (record f { peers = Dict.put bytes_dec h p f.peers })
put-IsValid f h p l i v = record {
  distinct = Dict.put-Distinct bytes_dec h p f.peers v.distinct;
  are_peers = put-ArePeers f.peers h p i v.are_peers;
  no_self = λ j local. ground (arith, v.no_self j local, Dict.find-put_ne bytes_dec h j p f.peers);
}

pub find-filter-none :
    (test : Bytes × FedPeer → Bool) (h : Bytes) (peers : Dict Bytes FedPeer)
    → Dict.find bytes_dec h peers ≡ none
    → Dict.find bytes_dec h (filter test peers) ≡ none
unfolding Dict.find
find-filter-none test h [] e = refl
find-filter-none test h ((k, p) ∷ peers) e = ground (arith, find-filter-none test h peers)

filter-Distinct :
    (test : Bytes × FedPeer → Bool) (peers : Dict Bytes FedPeer)
    → Dict.Distinct bytes_dec peers
    → Dict.Distinct bytes_dec (filter test peers)
filter-Distinct test [] d = tt
filter-Distinct test ((k, p) ∷ peers) d = elim (Bool-cases (test (k, p))) [
  | inl kept ↦ rw kept (find-filter-none test k peers d.0, filter-Distinct test peers d.1)
  | inr gone ↦ rw gone (filter-Distinct test peers d.1)
]

filter-ArePeers :
    (test : Bytes × FedPeer → Bool) (peers : Dict Bytes FedPeer)
    → ArePeers peers
    → ArePeers (filter test peers)
filter-ArePeers test [] a = tt
filter-ArePeers test ((k, p) ∷ peers) a = elim (Bool-cases (test (k, p))) [
  | inl kept ↦ rw kept (a.0, filter-ArePeers test peers a.1)
  | inr gone ↦ rw gone (filter-ArePeers test peers a.1)
]

-- What an operation on one peer keeps: its hash, and its backoff between the bounds.
heard-IsPeer :
    (h : Bytes) (p : FedPeer) (cost : Option ℕ) (now : ℕ) → IsPeer h p → IsPeer h (heard p cost now)
unfolding heard
heard-IsPeer h p cost now i = record { keyed = i.keyed; above = omega arith; below = omega arith }

sync_failed-IsPeer : (h : Bytes) (p : FedPeer) (now : ℕ) → IsPeer h p → IsPeer h (sync_failed p now)
unfolding sync_failed
sync_failed-IsPeer h p now i = record {
  keyed = i.keyed;
  above = omega (arith, i.above);
  below = omega arith;
}

sync_succeeded-IsPeer :
    (h : Bytes) (p : FedPeer) (now : ℕ) → IsPeer h p → IsPeer h (sync_succeeded p now)
unfolding sync_succeeded
sync_succeeded-IsPeer h p now i = record {
  keyed = i.keyed;
  above = omega arith;
  below = omega arith;
}

update_peer-IsValid :
    (f : FedSync) (h : Bytes) (change : FedPeer → FedPeer)
    → ((p : FedPeer) → IsPeer h p → IsPeer h (change p))
    → IsValid f
    → IsValid (update_peer f h change)
unfolding update_peer
update_peer-IsValid f h change c v = elim (Option-cases (Dict.find bytes_dec h f.peers)) [
  | inl absent ↦ rw (absent, update_peer) v
  | inr (p, found) ↦
      rw (found, update_peer)
        (put-IsValid f h (change p) (ground (arith, v.no_self h, Bool-cases (is_local f h)))
          (c p (find-IsPeer f.peers h p v.are_peers found)) v)
]

peer_heard-IsValid :
    (f : FedSync) (h : Bytes) (cost : Option ℕ) (now : ℕ)
    → IsValid f
    → IsValid (peer_heard f h cost now)
unfolding peer_heard
peer_heard-IsValid f h cost now v = elim (Bool-cases (is_local f h)) [
  | inl local ↦ rw (local, peer_heard) v
  | inr other ↦ elim (Bool-cases (f.from_static_only && not (is_static f h))) [
    | inl refused ↦ rw (other, refused, peer_heard) v
    | inr heeded ↦
        rw (other, heeded, peer_heard)
          (put-IsValid f h _ other
            (heard-IsPeer h _ cost now (peer_of-IsPeer f.peers h v.are_peers)) v)
  ]
]

tick-IsValid : (f : FedSync) (now : ℕ) → IsValid f → IsValid (tick f now).0
unfolding tick
tick-IsValid f now v = record {
  distinct = filter-Distinct _ f.peers v.distinct;
  are_peers = filter-ArePeers _ f.peers v.are_peers;
  no_self = λ j local. find-filter-none _ j f.peers (v.no_self j local);
}

seed_peer-IsPeer : (h : Bytes) (p : FedPeer) → IsPeer h p → IsPeer h (seed_peer p)
unfolding seed_peer
seed_peer-IsPeer h p i = record { keyed = i.keyed; above = omega arith; below = omega arith }

seed_all-IsValid :
    (hashes : List Bytes) (f : FedSync)
    → All (λ h. is_local f h ≡ false) hashes
    → IsValid f
    → IsValid (record f { peers = seed_all hashes f.peers })
unfolding seed_all
seed_all-IsValid [] f others v = v
seed_all-IsValid (h ∷ hashes) f others v =
    let peer = seed_peer (peer_of f.peers h) in
    seed_all-IsValid hashes (record f { peers = Dict.put bytes_dec h peer f.peers }) others.1
      (put-IsValid f h peer others.0 (seed_peer-IsPeer h _ (peer_of-IsPeer f.peers h v.are_peers))
        v)

abbrev pub InBounds : FedPeer → Type 0
InBounds p = (sync_backoff_min ≤ p.sync_backoff) × (p.sync_backoff ≤ sync_backoff_max)

insert_loaded-IsValid :
    (f : FedSync) (p : FedPeer) → InBounds p → IsValid f → IsValid (insert_loaded f p)
unfolding insert_loaded
insert_loaded-IsValid f p bounds v = elim (Bool-cases (is_local f p.destination_hash)) [
  | inl local ↦ rw (local, insert_loaded) v
  | inr other ↦ elim (Option-cases (Dict.find bytes_dec p.destination_hash f.peers)) [
    | inr (known, found) ↦ rw (other, found, insert_loaded) v
    | inl absent ↦
        rw (other, absent, insert_loaded)
          (put-IsValid f p.destination_hash p other
            (record { keyed = refl; above = bounds.0; below = bounds.1 }) v)
  ]
]

load_each-IsValid :
    (ps : List FedPeer) (f : FedSync) → All InBounds ps → IsValid f → IsValid (load_each f ps)
unfolding load_each
load_each-IsValid [] f bounds v = v
load_each-IsValid (p ∷ ps) f bounds v =
    load_each-IsValid ps (insert_loaded f p) bounds.1 (insert_loaded-IsValid f p bounds.0 v)

pub sync_err-IsValid : (f : FedSync) (h : Bytes) (now : ℕ) → IsValid f → IsValid (sync_err f h now)
unfolding sync_err
sync_err-IsValid f h now v = update_peer-IsValid f h _ (λ p i. sync_failed-IsPeer h p now i) v

-- From valid peers, and where the node is not among its own static peers and the peers in the state
-- file have their backoff between 10 and 3600 seconds: an announce, a tick, the seeding of the static
-- peers, the start, the success and the failure of a sync, and a load each leave every peer once,
-- under its own hash, with its backoff between the bounds, and the node itself no peer of its own.
operations-IsPeer :
    (f : FedSync) (h : Bytes) (cost : Option ℕ) (now : ℕ) (loaded : List FedPeer)
    → IsValid f
    → All (λ s. is_local f s ≡ false) f.static_peers
    → All InBounds loaded
    → IsValid (peer_heard f h cost now)
      × IsValid (tick f now).0
      × IsValid (seed_static_peers f)
      × IsValid (sync_started f h now)
      × IsValid (sync_ok f h now)
      × IsValid (sync_err f h now)
      × IsValid (load_each f loaded)
unfolding seed_static_peers sync_started sync_ok
operations-IsPeer f h cost now loaded v others bounds = (
  peer_heard-IsValid f h cost now v,
  tick-IsValid f now v,
  seed_all-IsValid f.static_peers f others v,
  update_peer-IsValid f h _ (λ p i. record { keyed = i.keyed; above = i.above; below = i.below }) v,
  update_peer-IsValid f h _ (λ p i. sync_succeeded-IsPeer h p now i) v,
  sync_err-IsValid f h now v,
  load_each-IsValid loaded f bounds v,
)
