-- ===== src/Propagation/Apart.antt =====
-- A slot of rfed/src/lxmf_propagation.rs is held by one peer or departed peer at most.
use rfed.Base.{
  ℕ, ◌+◌, ◌≤◌, ◌≡◌, refl, List, [], ◌∷◌, ◌++◌, Option, none, some, Bytes, bytes_dec, Bool, true,
  false, ◌==◌, length, if◌then◌else◌, arith, Bool-cases, Option-cases, inl, inr, ap,
}
use rfed.Dict
use rfed.Dict.{
  Dict, Distinct, sum_by, sum_by-put, sum_by-put_new, sum_by-remove, sum_by-remove_le,
  find-remove_self,
}
use rfed.Propagation.Entries.{PropagationEntries}
use rfed.Propagation.Iter.{tally, tally-append, held_once}
use rfed.Propagation.Peer.{PropPeer}
use rfed.Propagation.Node.{LxmfPropagationNode}
use rfed.Propagation.Free.{from-zero, lowest_free-tally}
use rfed.Propagation.Joining.{still_marked, peer_slots, slots_held, free_peer_slot, slot_for}

abbrev pub peers_in : ℕ → Dict Bytes PropPeer → ℕ
peers_in s = sum_by (λ hash peer. held_once (peer.slot == s))

abbrev pub departed_in : ℕ → Dict Bytes ℕ → ℕ
departed_in s = sum_by (λ hash slot. held_once (slot == s))

-- No slot is held twice, by peers and departed peers together.
abbrev pub OneEach : Dict Bytes PropPeer → Dict Bytes ℕ → Type 0
OneEach peers departed = (s : ℕ) → peers_in s peers + departed_in s departed ≤ 1

pub put-OneEach :
    (hash : Bytes) (old new : PropPeer) (peers : Dict Bytes PropPeer) (departed : Dict Bytes ℕ)
    → Dict.find bytes_dec hash peers ≡ some old
    → new.slot ≡ old.slot
    → OneEach peers departed
    → OneEach (Dict.put bytes_dec hash new peers) departed
put-OneEach hash old new peers departed found same_slot one s = omega (
  arith,
  one s,
  sum_by-put bytes_dec (λ hash peer. held_once (peer.slot == s)) hash new old peers found,
  ap (λ (k : ℕ). held_once (k == s)) same_slot,
)

departed-put_le :
    (s : ℕ) (hash : Bytes) (slot : ℕ) (departed : Dict Bytes ℕ)
    → departed_in s (Dict.put bytes_dec hash slot departed)
      ≤ departed_in s departed + held_once (slot == s)
departed-put_le s hash slot departed = elim (Option-cases (Dict.find bytes_dec hash departed)) [
  | inl missing ↦ omega (
    arith,
    sum_by-put_new bytes_dec (λ hash slot. held_once (slot == s)) hash slot departed missing,
  )
  | inr (old, found) ↦ omega (
    arith,
    sum_by-put bytes_dec (λ hash slot. held_once (slot == s)) hash slot old departed found,
  )
]

-- A peer that goes takes its slot along.
pub departed-OneEach :
    (hash : Bytes) (old : PropPeer) (peers : Dict Bytes PropPeer) (departed : Dict Bytes ℕ)
    (marked : Bool)
    → Dict.find bytes_dec hash peers ≡ some old
    → OneEach peers departed
    → OneEach
        (Dict.remove bytes_dec hash peers)
        (if marked then Dict.put bytes_dec hash old.slot departed else departed)
departed-OneEach hash old peers departed true found one s = omega (
  arith,
  one s,
  sum_by-remove bytes_dec (λ hash peer. held_once (peer.slot == s)) hash old peers found,
  departed-put_le s hash old.slot departed,
)
departed-OneEach hash old peers departed false found one s =
    omega (
      arith,
      one s,
      sum_by-remove_le bytes_dec (λ hash peer. held_once (peer.slot == s)) hash peers,
    )

tally-peer_slots :
    (s : ℕ) (peers : Dict Bytes PropPeer) → tally s (peer_slots peers) ≡ peers_in s peers
tally-peer_slots s [] = refl
tally-peer_slots s ((hash, peer) ∷ peers) = ground (arith, tally-peer_slots s peers)

tally-slots_held : (s : ℕ) (slots : Dict Bytes ℕ) → tally s (slots_held slots) ≡ departed_in s slots
tally-slots_held s [] = refl
tally-slots_held s ((hash, slot) ∷ slots) = ground (arith, tally-slots_held s slots)

length-held :
    (peers : Dict Bytes PropPeer) (slots : Dict Bytes ℕ)
    → length (peer_slots peers ++ slots_held slots) ≡ length peers + length slots
length-held [] [] = refl
length-held [] ((hash, slot) ∷ slots) = omega (arith, length-held [] slots)
length-held ((hash, peer) ∷ peers) slots = omega (arith, length-held peers slots)

departed-still_marked :
    (s : ℕ) (q : PropagationEntries) (slots : Dict Bytes ℕ)
    → departed_in s (still_marked q slots) ≤ departed_in s slots
unfolding still_marked
departed-still_marked s q [] = omega arith
departed-still_marked s q ((hash, slot) ∷ slots) = ground (arith, departed-still_marked s q slots)

-- The slots held that a new slot is chosen beside.
abbrev held_slots : LxmfPropagationNode → List ℕ
held_slots n = peer_slots n.peers ++ slots_held (still_marked n.entries n.departed_slots)

free_peer_slot-tally :
    (n : LxmfPropagationNode) → tally (free_peer_slot n n.peers).1 (held_slots n) ≡ 0
unfolding free_peer_slot
free_peer_slot-tally n = lowest_free-tally _ 0 (held_slots n) (
    omega (
      arith,
      from-zero (held_slots n),
      length-held n.peers (still_marked n.entries n.departed_slots),
    ))

free_peer_slot-room :
    (n : LxmfPropagationNode) (s : ℕ)
    → OneEach n.peers n.departed_slots
    → peers_in s n.peers
        + departed_in s (free_peer_slot n n.peers).0
        + held_once ((free_peer_slot n n.peers).1 == s)
      ≤ 1
unfolding free_peer_slot
free_peer_slot-room n s one = elim (Bool-cases ((free_peer_slot n n.peers).1 == s)) [
  | inl chosen ↦ omega (
    arith,
    free_peer_slot-tally n,
    ap (λ (k : ℕ). tally k (held_slots n)) (same_slot chosen),
    tally-append s (peer_slots n.peers) (slots_held (still_marked n.entries n.departed_slots)),
    tally-peer_slots s n.peers,
    tally-slots_held s (still_marked n.entries n.departed_slots),
    ap held_once chosen,
  )
  | inr another ↦
      omega (arith, one s, departed-still_marked s n.entries n.departed_slots, ap held_once another)
]
  where
    same_slot : {a b : ℕ} → (a == b) ≡ true → a ≡ b
    same_slot h = ground (arith, h)

slot_for-room :
    (n : LxmfPropagationNode) (hash : Bytes) (old : Option PropPeer) (left : Option ℕ) (s : ℕ)
    → Dict.find bytes_dec hash n.peers ≡ old
    → Dict.find bytes_dec hash n.departed_slots ≡ left
    → OneEach n.peers n.departed_slots
    → peers_in s (Dict.remove bytes_dec hash n.peers)
        + departed_in s (slot_for n hash old left).0
        + held_once ((slot_for n hash old left).1 == s)
      ≤ 1
slot_for-room n hash (some old) left s found away one = omega (
  arith,
  one s,
  sum_by-remove bytes_dec (λ hash peer. held_once (peer.slot == s)) hash old n.peers found,
)
slot_for-room n hash none (some slot) s found away one = omega (
  arith,
  one s,
  sum_by-remove_le bytes_dec (λ hash peer. held_once (peer.slot == s)) hash n.peers,
  sum_by-remove bytes_dec (λ hash slot. held_once (slot == s)) hash slot n.departed_slots away,
)
slot_for-room n hash none none s found away one = omega (
  arith,
  free_peer_slot-room n s one,
  sum_by-remove_le bytes_dec (λ hash peer. held_once (peer.slot == s)) hash n.peers,
)

-- A peer that joins has a slot that no other holds.
pub inserted-OneEach :
    (n : LxmfPropagationNode) (hash : Bytes) (peer : PropPeer)
    → Distinct bytes_dec n.peers
    → OneEach n.peers n.departed_slots
    → let r =
        slot_for n hash
          (Dict.find bytes_dec hash n.peers)
          (Dict.find bytes_dec hash n.departed_slots) in
      OneEach
        (Dict.put bytes_dec hash (record peer { slot = r.1 }) (Dict.remove bytes_dec hash n.peers))
        r.0
inserted-OneEach n hash peer distinct one s = omega (
  arith,
  slot_for-room n hash (Dict.find bytes_dec hash n.peers)
      (Dict.find bytes_dec hash n.departed_slots) s refl refl one,
  sum_by-put_new bytes_dec (λ hash peer. held_once (peer.slot == s)) hash
      (record peer {
        slot =
            (slot_for n hash (Dict.find bytes_dec hash n.peers)
              (Dict.find bytes_dec hash n.departed_slots)).1;
      })
      (Dict.remove bytes_dec hash n.peers) (find-remove_self bytes_dec hash n.peers distinct),
)
