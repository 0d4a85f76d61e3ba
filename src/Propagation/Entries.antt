-- ===== src/Propagation/Entries.antt =====
-- `PropagationEntries` of rfed/src/lxmf_propagation.rs: the stored messages, with the peers that each is
-- handled and unhandled for. A row past the end, at which the code panics, holds none here. The sort
-- by time at a start is left out, as capacities are.
use rfed.Base.{
  ℕ, zero, suc, ◌+◌, ◌-◌, ◌^◌, ◌%◌, List, [], ◌∷◌, ◌++◌, Option, none, some, Bytes, bytes_dec, Bool,
  true, false, ◌&&◌, leb, ltb, ◌==◌, if◌then◌else◌, length, filter,
}
use rfed.Dict
use rfed.Dict.{Dict}
use rfed.Propagation.PeerSet.{PeerSet, default, insert, remove, iter}

pub record PropagationEntry : Type 0 where
  pub destination_hash : Bytes
  pub received : ℕ
  pub size : ℕ
  pub stamp_value : ℕ
  pub handled_peers : PeerSet
  pub unhandled_peers : PeerSet
  pub other_name : Option Bytes

abbrev pub new_entry : Bytes → ℕ → ℕ → ℕ → PropagationEntry
new_entry destination received size stamp = record {
  destination_hash = destination;
  received = received;
  size = size;
  stamp_value = stamp;
  handled_peers = default;
  unhandled_peers = default;
  other_name = none;
}

abbrev pub Row : Type 0
Row = Option (Bytes × PropagationEntry)

pub record PropagationEntries : Type 0 where
  pub rows : List Row
  pub index : Dict Bytes ℕ
  pub handled_counts : List ℕ
  pub unhandled_counts : List ℕ

unfoldable pub row_at : ℕ → List Row → Row
row_at r [] = none
row_at zero (row ∷ rows) = row
row_at (suc r) (row ∷ rows) = row_at r rows

unfoldable pub set_row : ℕ → Row → List Row → List Row
set_row r new [] = []
set_row zero new (row ∷ rows) = new ∷ rows
set_row (suc r) new (row ∷ rows) = row ∷ set_row r new rows

-- Ids have 32 bytes: no other is looked up.
unfoldable pub row_of : PropagationEntries → Bytes → Option ℕ
row_of q id = if length id == 32 then Dict.find bytes_dec id q.index else none

unfoldable pub get : PropagationEntries → Bytes → Option PropagationEntry
unfolding row_of row_at
get q id = elim (row_of q id) [
  | none ↦ none
  | some r ↦ elim (row_at r q.rows) [ none ↦ none | some (t, entry) ↦ some entry ]
]

-- The handled or the unhandled peers of an entry, and the counts of them.
abbrev pub peers : Bool → PropagationEntry → PeerSet
peers true entry = entry.handled_peers
peers false entry = entry.unhandled_peers

abbrev pub with_peers : Bool → PeerSet → PropagationEntry → PropagationEntry
with_peers true set entry = record entry { handled_peers = set }
with_peers false set entry = record entry { unhandled_peers = set }

abbrev pub counts : Bool → PropagationEntries → List ℕ
counts true q = q.handled_counts
counts false q = q.unhandled_counts

-- A count goes up or down by one, as a usize.
abbrev pub step : Bool → ℕ → ℕ
step add n = if add then (n + 1) % 2 ^ 64 else (n + (2 ^ 64 - 1)) % 2 ^ 64

unfoldable pub step_at : Bool → ℕ → List ℕ → List ℕ
step_at add slot [] = []
step_at add zero (n ∷ ns) = step add n ∷ ns
step_at add (suc slot) (n ∷ ns) = n ∷ step_at add slot ns

abbrev pub zero_counts : ℕ → List ℕ
zero_counts zero = []
zero_counts (suc n) = 0 ∷ zero_counts n

unfoldable pub count_slot : Bool → ℕ → List ℕ → List ℕ
unfolding step_at
count_slot add slot ns =
    step_at add slot (if leb (length ns) slot then ns ++ zero_counts (slot + 1 - length ns) else ns)

unfoldable pub count_slots : Bool → List ℕ → List ℕ → List ℕ
unfolding count_slot
count_slots add [] ns = ns
count_slots add (slot ∷ slots) ns = count_slots add slots (count_slot add slot ns)

unfoldable pub count_peers : Bool → PropagationEntry → PropagationEntries → PropagationEntries
unfolding count_slots iter
count_peers add entry q = record q {
  handled_counts = count_slots add (iter entry.handled_peers) q.handled_counts;
  unhandled_counts = count_slots add (iter entry.unhandled_peers) q.unhandled_counts;
}

-- The row number is a u32.
unfoldable pub insert_entry :
    PropagationEntries → Bytes → PropagationEntry → PropagationEntries × Bool
unfolding count_peers
insert_entry q id entry = elim (Dict.find bytes_dec id q.index) [
  | some r ↦ (q, false)
  | none ↦ (
    record (count_peers true entry q) {
      index = Dict.put bytes_dec id (length q.rows % 2 ^ 32) q.index;
      rows = q.rows ++ some (id, entry) ∷ [];
    },
    true,
  )
]

abbrev pub is_filled : Row → Bool
is_filled none = false
is_filled (some e) = true

-- Row numbers as of the compacted rows, of the ids that are indexed.
unfoldable pub renumber : ℕ → List Row → Dict Bytes ℕ → Dict Bytes ℕ
renumber r [] index = index
renumber r (none ∷ rows) index = renumber r rows index
renumber r (some (id, entry) ∷ rows) index =
    renumber (suc r) rows (elim (Dict.find bytes_dec id index) [
      | none ↦ index
      | some at ↦ Dict.put bytes_dec id (r % 2 ^ 32) index
    ])

unfoldable pub compact : PropagationEntries → PropagationEntries
unfolding renumber
compact q = record q {
  rows = filter is_filled q.rows;
  index = renumber 0 (filter is_filled q.rows) q.index;
}

abbrev pub compacted : PropagationEntries → PropagationEntries
compacted q =
    let removed = length q.rows - length q.index in
    if ltb 1024 removed && ltb (length q.index) removed then compact q else q

unfoldable pub remove_entry :
    PropagationEntries → Bytes → PropagationEntries × Option PropagationEntry
unfolding row_of row_at set_row count_peers compact
remove_entry q id = elim (row_of q id) [
  | none ↦ (q, none)
  | some r ↦
      let unindexed : PropagationEntries = record q { index = Dict.remove bytes_dec id q.index } in
      elim (row_at r q.rows) [
        | none ↦ (unindexed, none)
        | some (t, entry) ↦ (
          compacted (count_peers false entry (record unindexed { rows = set_row r none q.rows })),
          some entry,
        )
      ]
]

abbrev pub changed : Bool → PeerSet → ℕ → PeerSet × Bool
changed on set slot = if on then insert set slot else remove set slot

abbrev pub with_counts : Bool → List ℕ → PropagationEntries → PropagationEntries
with_counts true ns q = record q { handled_counts = ns }
with_counts false ns q = record q { unhandled_counts = ns }

abbrev pub mark_row :
    PropagationEntries → ℕ → ℕ → Bytes → PropagationEntry → Bool → Bool → PropagationEntries × Bool
mark_row q slot r id entry handled on =
    let (set, differs) = changed on (peers handled entry) slot in
    if differs
    then (
      with_counts handled (count_slot on slot (counts handled q))
          (record q { rows = set_row r (some (id, with_peers handled set entry)) q.rows }),
      true,
    )
    else (q, false)

unfoldable pub mark : PropagationEntries → ℕ → Bytes → Bool → Bool → PropagationEntries × Bool
unfolding row_of row_at set_row insert remove count_slot
mark q slot id handled on = elim (row_of q id) [
  | none ↦ (q, false)
  | some r ↦ elim (row_at r q.rows) [
    | none ↦ (q, false)
    | some (t, entry) ↦ mark_row q slot r t entry handled on
  ]
]
