-- ===== src/Sync/State.antt =====
-- The peer state file of rfed/src/sync.rs: what is saved is loaded again.
use rfed.Base.{
  ◌≡◌, refl, List, [], ◌∷◌, ◌++◌, Option, none, some, Bytes, bytes_dec, false, arith, Bool-cases,
  ◌∙◌, ap, append-nil, push-append, sym, subst,
}
use rfed.Dict
use rfed.Dict.{Dict}
use rfed.Sync.Peers.{FedPeer, FedSync, is_local, insert_loaded, load_each, save_peers, load_peers}
use rfed.Sync.Valid.{ArePeers, IsValid}

-- The node as it starts again, before it loads its peers.
abbrev pub restarted : FedSync → FedSync
restarted f = record f { peers = [] }

find-nil : (h : Bytes) → Dict.find {V = FedPeer} bytes_dec h [] ≡ none
unfolding Dict.find
find-nil h = refl

put-new :
    (h : Bytes) (p : FedPeer) (m : Dict Bytes FedPeer)
    → Dict.find bytes_dec h m ≡ none
    → Dict.put bytes_dec h p m ≡ m ++ (h, p) ∷ []
unfolding Dict.put Dict.find
put-new h p [] e = refl
put-new h p ((k, q) ∷ m) e = ground (arith, put-new h p m)

find-append :
    (h : Bytes) (m rest : Dict Bytes FedPeer)
    → Dict.find bytes_dec h (m ++ rest)
      ≡ elim (Dict.find bytes_dec h m) [ none ↦ Dict.find bytes_dec h rest | some p ↦ some p ]
unfolding Dict.find
find-append h [] rest = refl
find-append h ((k, q) ∷ m) rest = ground (arith, find-append h m rest)

-- The peers that are loaded already, and those that are still to load.
record Loading (f : FedSync) (done rest : Dict Bytes FedPeer) : Type 0 where
  pub distinct : Dict.Distinct bytes_dec rest
  pub are_peers : ArePeers rest
  pub fresh :
      (h : Bytes) (p : FedPeer)
      → Dict.find bytes_dec h rest ≡ some p
      → Dict.find bytes_dec h done ≡ none
  pub others :
      (h : Bytes) (p : FedPeer) → Dict.find bytes_dec h rest ≡ some p → is_local f h ≡ false

insert_loaded-own :
    (f : FedSync) (done : Dict Bytes FedPeer) (p : FedPeer)
    → is_local f p.destination_hash ≡ false
    → Dict.find bytes_dec p.destination_hash done ≡ none
    → insert_loaded (record f { peers = done }) p
      ≡ record f { peers = done ++ (p.destination_hash, p) ∷ [] }
unfolding insert_loaded
insert_loaded-own f done p other absent =
    rw (other, absent)
      (ap (λ (m : Dict Bytes FedPeer). record f { peers = m })
        (put-new p.destination_hash p done absent))

insert_loaded-new :
    (f : FedSync) (done : Dict Bytes FedPeer) (h : Bytes) (p : FedPeer)
    → p.destination_hash ≡ h
    → is_local f h ≡ false
    → Dict.find bytes_dec h done ≡ none
    → insert_loaded (record f { peers = done }) p ≡ record f { peers = done ++ (h, p) ∷ [] }
insert_loaded-new f done h p key =
    subst
      (λ (x : Bytes).
        is_local f x ≡ false
        → Dict.find bytes_dec x done ≡ none
        → insert_loaded (record f { peers = done }) p ≡ record f { peers = done ++ (x, p) ∷ [] })
      key (insert_loaded-own f done p)

find-later :
    (h k : Bytes) (p q : FedPeer) (rest : Dict Bytes FedPeer)
    → Dict.find bytes_dec h rest ≡ none
    → Dict.find bytes_dec k rest ≡ some q
    → Dict.find bytes_dec k ((h, p) ∷ rest) ≡ some q
unfolding Dict.find
find-later h k p q rest absent found = ground arith

load_each-values :
    (rest done : Dict Bytes FedPeer) (f : FedSync)
    → Loading f done rest
    → load_each (record f { peers = done }) (Dict.values rest) ≡ record f { peers = done ++ rest }
unfolding load_each Dict.find
load_each-values [] done f l =
    ap (λ (m : Dict Bytes FedPeer). record f { peers = m }) (sym (append-nil done))
load_each-values ((h, p) ∷ rest) done f l =
    ap (λ (g : FedSync). load_each g (Dict.values rest))
      (insert_loaded-new f done h p l.are_peers.0.keyed (l.others h p here) (l.fresh h p here))
    ∙ load_each-values rest (done ++ (h, p) ∷ []) f (record {
      distinct = l.distinct.1;
      are_peers = l.are_peers.1;
      fresh = λ k q found. later k q found;
      others = λ k q found. l.others k q (find-later h k p q rest l.distinct.0 found);
    })
    ∙ ap (λ (m : Dict Bytes FedPeer). record f { peers = m }) (push-append done (h, p) rest)
  where
    here : Dict.find bytes_dec h ((h, p) ∷ rest) ≡ some p
    here = ground arith

    later :
        (k : Bytes) (q : FedPeer)
        → Dict.find bytes_dec k rest ≡ some q
        → Dict.find bytes_dec k (done ++ (h, p) ∷ []) ≡ none
    later k q found = ground (
      arith,
      find-append k done ((h, p) ∷ []),
      l.fresh k q (find-later h k p q rest l.distinct.0 found),
      l.distinct.0,
    )

-- Where the library reads back the peers that it wrote: a node with valid peers that saves them, and
-- starts again with the same configuration, loads its peers as they were, in their order.
load_peers-save_peers :
    (encode : List FedPeer → Option Bytes) (decode : Bytes → Option (List FedPeer)) (f : FedSync)
    (file : Bytes)
    → ((ps : List FedPeer) (bytes : Bytes) → encode ps ≡ some bytes → decode bytes ≡ some ps)
    → save_peers encode decode f ≡ some file
    → IsValid f
    → load_peers encode decode (restarted f) (save_peers encode decode f) ≡ f
unfolding load_peers save_peers
load_peers-save_peers encode decode f file reads saved v =
    ap (load_peers encode decode (restarted f)) saved
    ∙ ap
        (λ (o : Option (List FedPeer)). elim o [
          | none ↦ restarted f
          | some peers ↦ load_each (restarted f) peers
        ])
        (reads (Dict.values f.peers) file saved)
    ∙ load_each-values f.peers [] f (record {
      distinct = v.distinct;
      are_peers = v.are_peers;
      fresh = λ h p found. find-nil h;
      others = λ h p found. ground (arith, v.no_self h, Bool-cases (is_local f h));
    })
