-- ===== src/Propagation/Tests.antt =====
-- The theorems on the peers of messages, rfed/src/lxmf_propagation.rs, at a store of one message.
use rfed.Base.{
  ℕ, zero, suc, ◌^◌, ◌<◌, ◌≡◌, refl, [], ◌∷◌, Bytes, bytes_dec, Bool, true, false, not, ◌&&◌, ◌||◌,
  ◌==◌, length, arith,
}
use rfed.Propagation.PeerSet.{PeerSet, default, contains, insert, remove, iter}
use rfed.Propagation.Slots.{IsSet64}
use rfed.Propagation.Iter.{tally, held_once, peer_set-IsSet64}
use rfed.Propagation.Entries.{
  PropagationEntry, PropagationEntries, new_entry, insert_entry, remove_entry, mark,
}
use rfed.Propagation.Peering.{message_count, forget_peer}
use rfed.Propagation.Holders.{HasSets, holders}
use rfed.Propagation.Exact.{Exact, operations-Exact}

-- Slots in two words.
abbrev two_slots : PeerSet
two_slots = (insert (insert default 3).0 70).0

default-IsSet64 : IsSet64 default
default-IsSet64 = (refl, tt)

two_slots-IsSet64 : IsSet64 two_slots
two_slots-IsSet64 =
    (peer_set-IsSet64 (insert default 3).0 70 0 (peer_set-IsSet64 default 3 0 default-IsSet64).2).2

two_slots-iter : iter two_slots ≡ 3 ∷ 70 ∷ []
unfolding iter insert
two_slots-iter = refl

peer_set-IsSet64_example :
    (contains (insert two_slots 200).0 70 ≡ (contains two_slots 70 || 200 == 70))
    × ((insert two_slots 200).1 ≡ not (contains two_slots 200))
    × IsSet64 (insert two_slots 200).0
    × (contains (remove two_slots 200).0 70 ≡ (contains two_slots 70 && not (200 == 70)))
    × ((remove two_slots 200).1 ≡ contains two_slots 200)
    × IsSet64 (remove two_slots 200).0
    × (tally 70 (iter two_slots) ≡ held_once (contains two_slots 70))
peer_set-IsSet64_example = peer_set-IsSet64 two_slots 200 70 two_slots-IsSet64

abbrev fill : ℕ → Bytes
fill zero = []
fill (suc n) = 9 ∷ fill n

abbrev id : Bytes
id = fill 32

-- A message that the peers in slots 3 and 70 have, and the peer in slot 1 is to be offered.
abbrev entry : PropagationEntry
entry = record (new_entry (1 ∷ []) 100 50 16) { handled_peers = two_slots }

entry-HasSets : HasSets entry
entry-HasSets true = two_slots-IsSet64
entry-HasSets false = default-IsSet64

abbrev nothing : PropagationEntries
nothing = record { rows = []; index = []; handled_counts = []; unhandled_counts = [] }

nothing-Exact : Exact nothing
unfolding rfed.Propagation.Peering.count_at rfed.Propagation.Peering.messages_in
nothing-Exact = record { sets = tt; exact = exact }
  where
    exact : (h : Bool) (slot : ℕ) → message_count h nothing slot ≡ holders h slot nothing.rows
    exact true slot = refl
    exact false slot = refl

abbrev stored : PropagationEntries
stored = (insert_entry nothing id entry).0

stored-Exact : Exact stored
stored-Exact = (operations-Exact nothing 0 id entry nothing-Exact (omega arith) entry-HasSets).0

stored_few : length stored.rows < 2 ^ 32
unfolding insert_entry rfed.Dict.find
stored_few = omega arith

operations-Exact_example :
    Exact (insert_entry stored id entry).0
    × Exact (remove_entry stored id).0
    × ((handled on : Bool) → Exact (mark stored 1 id handled on).0)
    × Exact (forget_peer stored 1)
operations-Exact_example = operations-Exact stored 1 id entry stored-Exact stored_few entry-HasSets

stored_counts :
    (message_count true stored 70 ≡ 1)
    × (message_count true (remove_entry stored id).0 70 ≡ 0)
    × (message_count false (mark stored 1 id false true).0 1 ≡ 1)
unfolding mark remove_entry insert_entry rfed.Propagation.Peering.count_at rfed.Dict.find
    rfed.Dict.put bytes_dec rfed.Dict.remove
stored_counts = (refl, refl, refl)
