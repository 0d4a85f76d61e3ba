-- ===== src/Propagation/Peering.antt =====
-- What a peer's handled and unhandled messages are, and the methods of `PropagationEntries` of
-- rfed/src/lxmf_propagation.rs that mark them.
use rfed.Base.{
  ℕ, zero, suc, List, [], ◌∷◌, none, some, Bytes, Bool, true, false, ◌&&◌, ◌==◌, if◌then◌else◌,
}
use rfed.Propagation.PeerSet.{contains, remove}
use rfed.Propagation.Entries.{PropagationEntry, Row, PropagationEntries, get, peers, counts, mark}

abbrev pub add_handled_message : PropagationEntries → ℕ → Bytes → PropagationEntries × Bool
add_handled_message q slot id = mark q slot id true true

abbrev pub add_unhandled_message : PropagationEntries → ℕ → Bytes → PropagationEntries × Bool
add_unhandled_message q slot id = mark q slot id false true

abbrev pub remove_unhandled_message : PropagationEntries → ℕ → Bytes → PropagationEntries × Bool
remove_unhandled_message q slot id = mark q slot id false false

abbrev pub is_marked : Bool → PropagationEntries → ℕ → Bytes → Bool
is_marked handled q slot id = elim (get q id) [
  | none ↦ false
  | some entry ↦ contains (peers handled entry) slot
]

unfoldable pub queue_unhandled : PropagationEntries → ℕ → Bytes → PropagationEntries × Bool
unfolding mark get contains
queue_unhandled q slot id =
    if is_marked true q slot id then (q, false) else add_unhandled_message q slot id

unfoldable pub mark_handled : PropagationEntries → ℕ → Bytes → PropagationEntries
unfolding mark
mark_handled q slot id = (add_handled_message (remove_unhandled_message q slot id).0 slot id).0

-- `handled_messages` and `unhandled_messages`, in the order of the rows.
unfoldable pub messages_in : Bool → ℕ → List Row → List (Bytes × PropagationEntry)
unfolding contains
messages_in handled slot [] = []
messages_in handled slot (none ∷ rows) = messages_in handled slot rows
messages_in handled slot (some e ∷ rows) =
    let rest = messages_in handled slot rows in
    if contains (peers handled e.1) slot then e ∷ rest else rest

abbrev pub messages : Bool → PropagationEntries → ℕ → List (Bytes × PropagationEntry)
messages handled q slot = messages_in handled slot q.rows

-- `handled_message_count` and `unhandled_message_count`: 0 past the end.
unfoldable pub count_at : ℕ → List ℕ → ℕ
count_at slot [] = 0
count_at zero (n ∷ ns) = n
count_at (suc slot) (n ∷ ns) = count_at slot ns

abbrev pub message_count : Bool → PropagationEntries → ℕ → ℕ
message_count handled q slot = count_at slot (counts handled q)

unfoldable pub zero_at : ℕ → List ℕ → List ℕ
zero_at slot [] = []
zero_at zero (n ∷ ns) = 0 ∷ ns
zero_at (suc slot) (n ∷ ns) = n ∷ zero_at slot ns

abbrev pub forget_entry : ℕ → PropagationEntry → PropagationEntry
forget_entry slot entry = record entry {
  handled_peers = (remove entry.handled_peers slot).0;
  unhandled_peers = (remove entry.unhandled_peers slot).0;
}

unfoldable pub forget_rows : ℕ → List Row → List Row
unfolding remove
forget_rows slot [] = []
forget_rows slot (none ∷ rows) = none ∷ forget_rows slot rows
forget_rows slot (some e ∷ rows) = some (e.0, forget_entry slot e.1) ∷ forget_rows slot rows

unfoldable pub forget_peer : PropagationEntries → ℕ → PropagationEntries
unfolding forget_rows zero_at count_at
forget_peer q slot =
    if message_count true q slot == 0 && message_count false q slot == 0 then q else record q {
      rows = forget_rows slot q.rows;
      handled_counts = zero_at slot q.handled_counts;
      unhandled_counts = zero_at slot q.unhandled_counts;
    }
