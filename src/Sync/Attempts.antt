-- ===== src/Sync/Attempts.antt =====
-- When a peer of rfed/src/sync.rs is due for a sync: the backoff after failures, and who a tick names.
use rfed.Base.{
  suc, zero, ℕ, ◌+◌, ◌-◌, ◌*◌, ◌^◌, ◌≤◌, ◌≡◌, refl, List, [], ◌∷◌, none, some, Bytes, bytes_dec,
  mem, Bool, true, ◌&&◌, ◌||◌, leb, min, ap, subst, sym, ◌∙◌, dec_le, if◌then◌else◌, filter, length,
  arith,
}
use rfed.Dict
use rfed.Dict.{Dict, holds}
use rfed.Sync.Peers.{
  sync_backoff_max, FedPeer, sync_failed, FedSync, is_static, is_due, due_hashes, tick, update_peer,
  sync_err,
}
use rfed.Sync.Valid.{ArePeers, IsValid, find-filter-none, sync_err-IsValid}

-- Failures at the times of a list, one after the other.
abbrev pub fails : FedPeer → List ℕ → FedPeer
fails p [] = p
fails p (now ∷ times) = fails (sync_failed p now) times

mul_grows : (x m : ℕ) → x ≤ x * suc m
mul_grows x m = omega arith

cap_once : (x m : ℕ) → min (min x 3600 * suc m) 3600 ≡ min (x * suc m) 3600
cap_once x m = elim (dec_le x 3600) [
  | yes small ↦ ap (λ (y : ℕ). min (y * suc m) 3600) (omega (arith, small))
  | no large ↦
      ap (λ (y : ℕ). min (y * suc m) 3600) (capped large) ∙ omega (arith, mul_grows x m, large)
]
  where
    capped : ¬ (x ≤ 3600) → min x 3600 ≡ 3600
    capped large = omega (arith, large)

twice : (b m n : ℕ) → 2 ^ n ≡ suc m → b * 2 * suc m ≡ b * 2 ^ suc n
twice b m n e = rw (double e) (omega arith)
  where
    double : 2 ^ n ≡ suc m → 2 ^ suc n ≡ 2 * suc m
    double h = omega (arith, h)

pow-suc : (n : ℕ) → (m : ℕ) × (2 ^ n ≡ suc m)
pow-suc zero = (0, refl)
pow-suc (suc n) = let (m, e) = pow-suc n in (suc (m + m), omega (arith, e))

-- After any number of failures in a row the backoff is the first one, doubled as often, and at most
-- an hour.
fails-sync_backoff :
    (times : List ℕ) (p : FedPeer)
    → p.sync_backoff ≤ sync_backoff_max
    → (fails p times).sync_backoff ≡ min (p.sync_backoff * 2 ^ length times) sync_backoff_max
unfolding sync_failed
fails-sync_backoff [] p below = omega (arith, below)
fails-sync_backoff (now ∷ times) p below =
    let (m, e) = pow-suc (length times) in
    fails-sync_backoff times (sync_failed p now) (omega arith)
    ∙ ap (λ (q : ℕ). min (min (p.sync_backoff * 2) 3600 * q) 3600) e
    ∙ cap_once (p.sync_backoff * 2) m
    ∙ ap (λ (x : ℕ). min x 3600) (twice p.sync_backoff m (length times) e)

mem-due_hashes :
    (test : Bytes × FedPeer → Bool) (now : ℕ) (h : Bytes) (peers : Dict Bytes FedPeer)
    → ArePeers peers
    → Dict.Distinct bytes_dec peers
    → mem h (due_hashes now (filter test peers))
      ≡ holds (λ p. test (h, p) && is_due now p) (Dict.find bytes_dec h peers)
unfolding due_hashes Dict.find
mem-due_hashes test now h [] a d = refl
mem-due_hashes test now h ((k, p) ∷ peers) a d =
    ground (arith, mem-due_hashes test now h peers a.1 d.1, a.0.keyed)

find-filter :
    (test : Bytes × FedPeer → Bool) (h : Bytes) (peers : Dict Bytes FedPeer)
    → Dict.Distinct bytes_dec peers
    → Dict.find bytes_dec h (filter test peers) ≡ (
        if holds (λ p. test (h, p)) (Dict.find bytes_dec h peers)
        then Dict.find bytes_dec h peers
        else none)
unfolding Dict.find
find-filter test h [] d = refl
find-filter test h ((k, p) ∷ peers) d =
    ground (arith, find-filter test h peers d.1, find-filter-none test k peers)

-- The peers that a tick keeps: the static ones, and the ones heard from in the last two hours.
abbrev pub in_touch : FedSync → ℕ → FedPeer → Bool
in_touch f now p = is_static f p.destination_hash || leb (now - 7200) p.last_heard

-- From valid peers, a tick keeps exactly the peers that are static or were heard from in the last two
-- hours, as they are, and names exactly those of them that are alive and whose next attempt is not
-- in the future.
tick-peers :
    (f : FedSync) (now : ℕ) (h : Bytes)
    → IsValid f
    → (Dict.find bytes_dec h (tick f now).0.peers ≡ (
        if holds (in_touch f now) (Dict.find bytes_dec h f.peers)
        then Dict.find bytes_dec h f.peers
        else none))
      × (mem h (tick f now).1
          ≡ holds
              (λ p. in_touch f now p && (p.alive && leb p.next_sync_attempt now))
              (Dict.find bytes_dec h f.peers))
unfolding tick
tick-peers f now h v =
    (find-filter _ h f.peers v.distinct, mem-due_hashes _ now h f.peers v.are_peers v.distinct)

sync_err-shape :
    (f : FedSync) (h : Bytes) (p : FedPeer) (now : ℕ)
    → Dict.find bytes_dec h f.peers ≡ some p
    → sync_err f h now ≡ record f { peers = Dict.put bytes_dec h (sync_failed p now) f.peers }
unfolding sync_err
sync_err-shape f h p now found = rw (found, update_peer) refl

-- From valid peers: after the failure of a sync with a peer that is alive, a tick at a time when the
-- peer is static or was heard from in the last two hours names it exactly when the backoff, doubled
-- and at most an hour, has passed since the failure.
pub sync_err-tick :
    (f : FedSync) (h : Bytes) (p : FedPeer) (now later : ℕ)
    → IsValid f
    → Dict.find bytes_dec h f.peers ≡ some p
    → p.alive ≡ true
    → in_touch f later p ≡ true
    → mem h (tick (sync_err f h now) later).1 ≡ leb (now + min (p.sync_backoff * 2) 3600) later
unfolding sync_failed
sync_err-tick f h p now later v found alive touch =
    let shape = sync_err-shape f h p now found in
    subst
      (λ (g : FedSync). mem h (tick g later).1 ≡ leb (now + min (p.sync_backoff * 2) 3600) later)
      (sym shape) (named (subst IsValid shape (sync_err-IsValid f h now v)))
  where
    named :
        IsValid (record f { peers = Dict.put bytes_dec h (sync_failed p now) f.peers })
        → mem h
            (tick (record f { peers = Dict.put bytes_dec h (sync_failed p now) f.peers }) later).1
          ≡ leb (now + min (p.sync_backoff * 2) 3600) later
    named w = ground (
      arith,
      (tick-peers (record f { peers = Dict.put bytes_dec h (sync_failed p now) f.peers }) later h
          w).1,
      Dict.find-put_self bytes_dec h (sync_failed p now) f.peers,
    )
