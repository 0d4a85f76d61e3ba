-- ===== src/Propagation/Holders.antt =====
-- How many messages of `PropagationEntries` of rfed/src/lxmf_propagation.rs a peer is handled or unhandled
-- for, as rows change.
use rfed.Base.{
  ℕ, zero, suc, ◌+◌, ◌≤◌, ◌≡◌, refl, List, [], ◌∷◌, ◌++◌, none, some, Bool, true, false, not, ◌&&◌,
  ◌==◌, if◌then◌else◌, length, filter, All, arith, Bool-cases, inl, inr,
}
use rfed.Propagation.PeerSet.{contains}
use rfed.Propagation.Slots.{IsSet64, remove-contains}
use rfed.Propagation.Iter.{held_once}
use rfed.Propagation.Entries.{PropagationEntry, Row, row_at, set_row, peers, is_filled}
use rfed.Propagation.Peering.{messages_in, forget_rows, forget_entry}

-- The words of both sets of an entry have their 64 bits.
abbrev pub HasSets : PropagationEntry → Type 0
HasSets entry = (handled : Bool) → IsSet64 (peers handled entry)

abbrev pub IsRow : Row → Type 0
IsRow none = Unit
IsRow (some e) = HasSets e.1

-- Whether a row's message is one of the peer's.
abbrev pub weight : Bool → ℕ → Row → ℕ
weight handled slot none = 0
weight handled slot (some e) = held_once (contains (peers handled e.1) slot)

-- How many messages the peer has.
abbrev pub holders : Bool → ℕ → List Row → ℕ
holders handled slot rows = length (messages_in handled slot rows)

pub holders-cons :
    (h : Bool) (j : ℕ) (row : Row) (rows : List Row)
    → holders h j (row ∷ rows) ≡ weight h j row + holders h j rows
unfolding messages_in
holders-cons h j none rows = omega arith
holders-cons h j (some e) rows = elim (Bool-cases (contains (peers h e.1) j)) [
  | inl held ↦ rw held (omega arith)
  | inr absent ↦ rw absent (omega arith)
]

pub holders-append :
    (h : Bool) (j : ℕ) (rows : List Row) (row : Row)
    → holders h j (rows ++ row ∷ []) ≡ holders h j rows + weight h j row
unfolding messages_in
holders-append h j [] row = omega (arith, holders-cons h j row [])
holders-append h j (r ∷ rows) row = omega (
  arith,
  holders-cons h j r (rows ++ row ∷ []),
  holders-cons h j r rows,
  holders-append h j rows row,
)

weight_le : (h : Bool) (j : ℕ) (row : Row) → weight h j row ≤ 1
weight_le h j none = omega arith
weight_le h j (some e) = below (contains (peers h e.1) j)
  where
    below : (b : Bool) → held_once b ≤ 1
    below true = omega arith
    below false = omega arith

pub holders_le : (h : Bool) (j : ℕ) (rows : List Row) → holders h j rows ≤ length rows
unfolding messages_in
holders_le h j [] = omega arith
holders_le h j (row ∷ rows) =
    omega (arith, holders-cons h j row rows, holders_le h j rows, weight_le h j row)

pub holders-set_row :
    (h : Bool) (j r : ℕ) (new : Row) (rows : List Row)
    → is_filled (row_at r rows) ≡ true
    → holders h j (set_row r new rows) + weight h j (row_at r rows)
      ≡ holders h j rows + weight h j new
unfolding row_at set_row
holders-set_row h j r new [] e = absurd (ground (arith, e))
holders-set_row h j zero new (row ∷ rows) e =
    omega (arith, holders-cons h j row rows, holders-cons h j new rows)
holders-set_row h j (suc r) new (row ∷ rows) e = omega (
  arith,
  holders-cons h j row rows,
  holders-cons h j row (set_row r new rows),
  holders-set_row h j r new rows e,
)

pub row_at-IsRow : (r : ℕ) (rows : List Row) → All IsRow rows → IsRow (row_at r rows)
unfolding row_at
row_at-IsRow r [] a = tt
row_at-IsRow zero (row ∷ rows) a = a.0
row_at-IsRow (suc r) (row ∷ rows) a = row_at-IsRow r rows a.1

pub set_row-All :
    (r : ℕ) (new : Row) (rows : List Row)
    → All IsRow rows
    → IsRow new
    → All IsRow (set_row r new rows)
unfolding set_row
set_row-All r new [] a n = tt
set_row-All zero new (row ∷ rows) a n = (n, a.1)
set_row-All (suc r) new (row ∷ rows) a n = (a.0, set_row-All r new rows a.1 n)

pub push-All :
    (rows : List Row) (row : Row) → All IsRow rows → IsRow row → All IsRow (rows ++ row ∷ [])
push-All [] row a n = (n, tt)
push-All (r ∷ rows) row a n = (a.0, push-All rows row a.1 n)

pub holders-compacted :
    (h : Bool) (j : ℕ) (rows : List Row) → holders h j (filter is_filled rows) ≡ holders h j rows
unfolding messages_in
holders-compacted h j [] = refl
holders-compacted h j (none ∷ rows) = holders-compacted h j rows
holders-compacted h j (some e ∷ rows) = omega (
  arith,
  holders-cons h j (some e) (filter is_filled rows),
  holders-cons h j (some e) rows,
  holders-compacted h j rows,
)

pub compacted-All : (rows : List Row) → All IsRow rows → All IsRow (filter is_filled rows)
compacted-All [] a = tt
compacted-All (none ∷ rows) a = compacted-All rows a.1
compacted-All (some e ∷ rows) a = (a.0, compacted-All rows a.1)

-- An entry that forgets a peer.
pub forget_entry-contains :
    (entry : PropagationEntry) (slot : ℕ)
    → HasSets entry
    → HasSets (forget_entry slot entry)
      × ((h : Bool) (j : ℕ)
          → contains (peers h (forget_entry slot entry)) j
            ≡ (contains (peers h entry) j && not (slot == j)))
forget_entry-contains entry slot a = (sets, held)
  where
    sets : HasSets (forget_entry slot entry)
    sets true = (remove-contains entry.handled_peers slot 0 (a true)).2
    sets false = (remove-contains entry.unhandled_peers slot 0 (a false)).2

    held :
        (h : Bool) (j : ℕ)
        → contains (peers h (forget_entry slot entry)) j
          ≡ (contains (peers h entry) j && not (slot == j))
    held true j = (remove-contains entry.handled_peers slot j (a true)).0
    held false j = (remove-contains entry.unhandled_peers slot j (a false)).0

pub holders-forget_rows :
    (h : Bool) (slot j : ℕ) (rows : List Row)
    → All IsRow rows
    → All IsRow (forget_rows slot rows)
      × (holders h j (forget_rows slot rows) ≡ (if slot == j then 0 else holders h j rows))
unfolding forget_rows messages_in
holders-forget_rows h slot j [] a = (tt, ground arith)
holders-forget_rows h slot j (none ∷ rows) a =
    let rest = holders-forget_rows h slot j rows a.1 in ((tt, rest.0), rest.1)
holders-forget_rows h slot j (some e ∷ rows) a =
    let rest = holders-forget_rows h slot j rows a.1 in
    let own = forget_entry-contains e.1 slot a.0 in
    ((own.0, rest.0), ground (arith, own.1 h j, rest.1))
