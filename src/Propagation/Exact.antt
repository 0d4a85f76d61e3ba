-- ===== src/Propagation/Exact.antt =====
-- The counts of `PropagationEntries` of rfed/src/lxmf_propagation.rs are exact.
use rfed.Base.{
  ℕ, ◌+◌, ◌-◌, ◌^◌, ◌%◌, ◌<◌, ◌≤◌, ◌≡◌, refl, List, [], ◌∷◌, ◌++◌, none, some, Bytes, bytes_dec,
  Bool, true, false, not, ◌&&◌, ltb, ◌==◌, if◌then◌else◌, length, All, arith, Bool-cases,
  Option-cases, inl, inr, ap, ◌∙◌, sym, subst,
}
use rfed.Dict
use rfed.Propagation.PeerSet.{PeerSet, contains, iter}
use rfed.Propagation.Slots.{IsSet64, insert-contains, remove-contains}
use rfed.Propagation.Iter.{held_once, tally-iter}
use rfed.Propagation.Entries.{
  PropagationEntry, Row, PropagationEntries, row_at, set_row, row_of, peers, with_peers, counts,
  step, count_slot, count_slots, count_peers, insert_entry, is_filled, compact, compacted,
  remove_entry, changed, with_counts, mark_row, mark,
}
use rfed.Propagation.Peering.{count_at, zero_at, message_count, forget_rows, forget_peer}
use rfed.Propagation.Counts.{
  count-count_slot, count-count_slots_up, count-count_slots_down, count-zero_at,
}
use rfed.Propagation.Holders.{
  HasSets, IsRow, weight, holders, holders-append, holders_le, holders-set_row, row_at-IsRow,
  set_row-All, push-All, holders-compacted, compacted-All, holders-forget_rows,
}

-- Each count is the number of messages that the peer in the slot is handled, or unhandled, for.
pub record Exact (q : PropagationEntries) : Type 0 where
  pub sets : All IsRow q.rows
  pub exact : (h : Bool) (slot : ℕ) → message_count h q slot ≡ holders h slot q.rows

counts-count_peers :
    (add h : Bool) (entry : PropagationEntry) (q : PropagationEntries)
    → counts h (count_peers add entry q) ≡ count_slots add (iter (peers h entry)) (counts h q)
unfolding count_peers
counts-count_peers add true entry q = refl
counts-count_peers add false entry q = refl

-- One more message, with the peers of its entry, is within the counts.
fits : {n k m w : ℕ} → n ≡ k → k ≤ m → m < 2 ^ 32 → w ≤ 1 → n + w < 2 ^ 64
fits e l h w = omega (arith, e, l, h, w)

held_once_le : (b : Bool) → held_once b ≤ 1
held_once_le true = omega arith
held_once_le false = omega arith

insert_entry-Exact :
    (q : PropagationEntries) (id : Bytes) (entry : PropagationEntry)
    → Exact q
    → length q.rows < 2 ^ 32
    → HasSets entry
    → Exact (insert_entry q id entry).0
unfolding insert_entry count_peers
insert_entry-Exact q id entry x l a = elim (Option-cases (Dict.find bytes_dec id q.index)) [
  | inr (r, known) ↦ rw (known, insert_entry) x
  | inl new ↦
      rw (new, insert_entry)
        (record { sets = push-All q.rows (some (id, entry)) x.sets a; exact = counts_of })
]
  where
    counted :
        (h : Bool) (j : ℕ)
        → count_at j (counts h (count_peers true entry q))
          ≡ holders h j (q.rows ++ some (id, entry) ∷ [])
    counted h j =
        let once = tally-iter (peers h entry) j (a h) in
        let small = held_once_le (contains (peers h entry) j) in
        ap (count_at j) (counts-count_peers true h entry q)
        ∙ count-count_slots_up (iter (peers h entry)) j (counts h q)
            (fits (x.exact h j) (holders_le h j q.rows) l (omega (arith, once, small)))
        ∙ omega (arith, once, x.exact h j, holders-append h j q.rows (some (id, entry)))

    counts_of :
        (h : Bool) (j : ℕ)
        → message_count h
            (record (count_peers true entry q) {
              index = Dict.put bytes_dec id (length q.rows % 2 ^ 32) q.index;
              rows = q.rows ++ some (id, entry) ∷ [];
            })
            j
          ≡ holders h j (q.rows ++ some (id, entry) ∷ [])
    counts_of true j = counted true j
    counts_of false j = counted false j

compacted-Exact : (q : PropagationEntries) → Exact q → Exact (compacted q)
unfolding compact
compacted-Exact q x = cases (
    ltb 1024 (length q.rows - length q.index)
    && ltb (length q.index) (length q.rows - length q.index))
  where
    cases : (b : Bool) → Exact (if b then compact q else q)
    cases true = record {
      sets = compacted-All q.rows x.sets;
      exact = λ h j. same_counts h j ∙ x.exact h j ∙ sym (holders-compacted h j q.rows);
    }
      where
        same_counts : (h : Bool) (j : ℕ) → message_count h (compact q) j ≡ message_count h q j
        same_counts true j = refl
        same_counts false j = refl
    cases false = x

-- A row whose counts were taken off can be emptied.
taken-Exact :
    (q : PropagationEntries) (r : ℕ) (t : Bytes) (entry : PropagationEntry)
    (index : Dict.Dict Bytes ℕ)
    → Exact q
    → length q.rows < 2 ^ 32
    → row_at r q.rows ≡ some (t, entry)
    → Exact (count_peers false entry (record q { index = index; rows = set_row r none q.rows }))
unfolding count_peers
taken-Exact q r t entry index x l e = record {
  sets = set_row-All r none q.rows x.sets tt;
  exact = λ h j. counted h j;
}
  where
    emptied : PropagationEntries
    emptied = record q { index = index; rows = set_row r none q.rows }

    same_counts : (h : Bool) → counts h emptied ≡ counts h q
    same_counts true = refl
    same_counts false = refl

    own : HasSets entry
    own = subst IsRow e (row_at-IsRow r q.rows x.sets)

    counted :
        (h : Bool) (j : ℕ)
        → count_at j (counts h (count_peers false entry emptied))
          ≡ holders h j (set_row r none q.rows)
    counted h j =
        let once = tally-iter (peers h entry) j (own h) in
        let moved = holders-set_row h j r none q.rows (ap is_filled e) in
        let held = ap (weight h j) e in
        let few = holders_le h j q.rows in
        ap (count_at j) (
          counts-count_peers false h entry emptied
          ∙ ap (count_slots false (iter (peers h entry))) (same_counts h))
        ∙ count-count_slots_down (iter (peers h entry)) j (holders h j (set_row r none q.rows))
            (counts h q) (omega (arith, once, moved, held, x.exact h j))
            (omega (arith, once, moved, held, few, l))

remove_entry-Exact :
    (q : PropagationEntries) (id : Bytes)
    → Exact q
    → length q.rows < 2 ^ 32
    → Exact (remove_entry q id).0
unfolding remove_entry
remove_entry-Exact q id x l = elim (Option-cases (row_of q id)) [
  | inl missing ↦ rw (missing, remove_entry) x
  | inr (r, found) ↦ elim (Option-cases (row_at r q.rows)) [
    | inl empty ↦
        rw (found, remove_entry, empty) (record { sets = x.sets; exact = λ h j. unindexed h j })
    | inr ((t, entry), e) ↦
        rw (found, remove_entry, e) (compacted-Exact _ (taken-Exact q r t entry _ x l e))
  ]
]
  where
    unindexed :
        (h : Bool) (j : ℕ)
        → message_count h (record q { index = Dict.remove bytes_dec id q.index }) j
          ≡ holders h j q.rows
    unindexed true j = x.exact true j
    unindexed false j = x.exact false j

-- What a set holds after a change that differed, and before.
change_held :
    (on : Bool) (s : PeerSet) (slot j : ℕ)
    → IsSet64 s
    → (changed on s slot).1 ≡ true
    → IsSet64 (changed on s slot).0
      × (contains (changed on s slot).0 j ≡ (if slot == j then on else contains s j))
      × (contains s slot ≡ not on)
change_held true s slot j a e =
    let r = insert-contains s slot j a in (r.2, ground (arith, r.0), ground (arith, e, r.1))
change_held false s slot j a e =
    let r = remove-contains s slot j a in (r.2, ground (arith, r.0), ground (arith, e, r.1))

peers-with_peers :
    (h : Bool) (set : PeerSet) (entry : PropagationEntry) → peers h (with_peers h set entry) ≡ set
peers-with_peers true set entry = refl
peers-with_peers false set entry = refl

with_peers-HasSets :
    (h : Bool) (set : PeerSet) (entry : PropagationEntry)
    → HasSets entry
    → IsSet64 set
    → HasSets (with_peers h set entry)
with_peers-HasSets true set entry a s true = s
with_peers-HasSets true set entry a s false = a false
with_peers-HasSets false set entry a s true = a true
with_peers-HasSets false set entry a s false = s

same_number : (i j : ℕ) → (i == j) ≡ true → i ≡ j
same_number i j h = ground (arith, h)

-- A count that follows one row's change.
stepped :
    (on : Bool) (n m k : ℕ)
    → n ≡ m
    → k + held_once (not on) ≡ m + held_once on
    → m < 2 ^ 32
    → step on n ≡ k
stepped true n m k e moved l = omega (arith, e, moved, l)
stepped false n m k e moved l = omega (arith, e, moved, l)

module _ (q : PropagationEntries) (slot r : ℕ) (t : Bytes) (entry : PropagationEntry) (on : Bool)
    (x : Exact q) (l : length q.rows < 2 ^ 32) (e : row_at r q.rows ≡ some (t, entry)) where
  own : HasSets entry
  own = subst IsRow e (row_at-IsRow r q.rows x.sets)

  abbrev new_rows : Bool → List Row
  new_rows h = set_row r (some (t, with_peers h (changed on (peers h entry) slot).0 entry)) q.rows

  moved_holders :
      (h side : Bool) (j : ℕ)
      → holders side j (new_rows h) + held_once (contains (peers side entry) j)
        ≡ holders side j q.rows
          + held_once
              (contains (peers side (with_peers h (changed on (peers h entry) slot).0 entry)) j)
  moved_holders h side j =
      ap (λ (n : ℕ). holders side j (new_rows h) + n) (sym (ap (weight side j) e))
      ∙ holders-set_row side j r (some (t, with_peers h (changed on (peers h entry) slot).0 entry))
          q.rows (ap is_filled e)

  module _ (h : Bool) (differs : (changed on (peers h entry) slot).1 ≡ true) where
    counted_side : (j : ℕ) → count_at j (count_slot on slot (counts h q)) ≡ holders h j (new_rows h)
    counted_side j =
        let (sets, after, before) = change_held on (peers h entry) slot j (own h) differs in
        let held =
          ap (λ (s : PeerSet). held_once (contains s j))
            (peers-with_peers h (changed on (peers h entry) slot).0 entry)
          ∙ ap held_once after in
        let moved = moved_holders h h j ∙ ap (λ (n : ℕ). holders h j q.rows + n) held in
        let few = holders_le h j q.rows in
        count-count_slot on slot j (counts h q) ∙ elim (Bool-cases (slot == j)) [
          | inl same ↦
              let here = ap (contains (peers h entry)) (sym (same_number slot j same)) ∙ before in
              let to = rw same at moved in
              rw same (
                stepped on (message_count h q j) (holders h j q.rows) (holders h j (new_rows h))
                  (x.exact h j)
                  (ap (λ (b : Bool). holders h j (new_rows h) + held_once b) (sym here) ∙ to)
                  (omega (arith, few, l)))
          | inr other ↦ let to = rw other at moved in rw other (x.exact h j ∙ omega (arith, to))
        ]

  same_holders :
      (h side : Bool) (j : ℕ)
      → peers side (with_peers h (changed on (peers h entry) slot).0 entry) ≡ peers side entry
      → holders side j q.rows ≡ holders side j (new_rows h)
  same_holders h side j kept =
      omega (arith, moved_holders h side j, ap (λ (s : PeerSet). held_once (contains s j)) kept)

  marked :
      (h : Bool)
      → (changed on (peers h entry) slot).1 ≡ true
      → Exact (with_counts h (count_slot on slot (counts h q)) (record q { rows = new_rows h }))
  marked true differs = record { sets = sets; exact = exact }
    where
      sets : All IsRow (new_rows true)
      sets = set_row-All r _ q.rows x.sets (
          with_peers-HasSets true _ entry own
            (change_held on (peers true entry) slot 0 (own true) differs).0)

      exact :
          (side : Bool) (j : ℕ)
          → message_count side
              (with_counts true
                (count_slot on slot (counts true q))
                (record q { rows = new_rows true }))
              j
            ≡ holders side j (new_rows true)
      exact true j = counted_side true differs j
      exact false j = x.exact false j ∙ same_holders true false j refl
  marked false differs = record { sets = sets; exact = exact }
    where
      sets : All IsRow (new_rows false)
      sets = set_row-All r _ q.rows x.sets (
          with_peers-HasSets false _ entry own
            (change_held on (peers false entry) slot 0 (own false) differs).0)

      exact :
          (side : Bool) (j : ℕ)
          → message_count side
              (with_counts false
                (count_slot on slot (counts false q))
                (record q { rows = new_rows false }))
              j
            ≡ holders side j (new_rows false)
      exact true j = x.exact true j ∙ same_holders false true j refl
      exact false j = counted_side false differs j

  mark_row-Exact : (h : Bool) → Exact (mark_row q slot r t entry h on).0
  mark_row-Exact h = elim (Bool-cases (changed on (peers h entry) slot).1) [
    | inr same ↦ rw same x
    | inl differs ↦ rw differs (marked h differs)
  ]

mark-Exact :
    (q : PropagationEntries) (slot : ℕ) (id : Bytes) (h on : Bool)
    → Exact q
    → length q.rows < 2 ^ 32
    → Exact (mark q slot id h on).0
unfolding mark
mark-Exact q slot id h on x l = elim (Option-cases (row_of q id)) [
  | inl missing ↦ rw (missing, mark) x
  | inr (r, found) ↦ elim (Option-cases (row_at r q.rows)) [
    | inl empty ↦ rw (found, mark, empty) x
    | inr ((t, entry), e) ↦ rw (found, mark, e) (mark_row-Exact q slot r t entry on x l e h)
  ]
]

forget_peer-Exact : (q : PropagationEntries) (slot : ℕ) → Exact q → Exact (forget_peer q slot)
unfolding forget_peer
forget_peer-Exact q slot x =
    cases (message_count true q slot == 0 && message_count false q slot == 0)
  where
    forgotten : PropagationEntries
    forgotten = record q {
      rows = forget_rows slot q.rows;
      handled_counts = zero_at slot q.handled_counts;
      unhandled_counts = zero_at slot q.unhandled_counts;
    }

    counted :
        (h : Bool) (j : ℕ) → message_count h forgotten j ≡ holders h j (forget_rows slot q.rows)
    counted true j =
        count-zero_at slot j q.handled_counts
        ∙ ap (λ (n : ℕ). if slot == j then 0 else n) (x.exact true j)
        ∙ sym (holders-forget_rows true slot j q.rows x.sets).1
    counted false j =
        count-zero_at slot j q.unhandled_counts
        ∙ ap (λ (n : ℕ). if slot == j then 0 else n) (x.exact false j)
        ∙ sym (holders-forget_rows false slot j q.rows x.sets).1

    cases : (b : Bool) → Exact (if b then q else forgotten)
    cases true = x
    cases false = record {
      sets = (holders-forget_rows true slot 0 q.rows x.sets).0;
      exact = counted;
    }

-- With fewer rows than a row number counts: an insert, a remove, a mark and a forgetting of a peer keep
-- the counts exact: the handled and the unhandled count of each slot are the numbers of messages that `handled_messages` and
-- `unhandled_messages` give for it; an insert does for an entry whose sets have words of 64 bits.
pub operations-Exact :
    (q : PropagationEntries) (slot : ℕ) (id : Bytes) (entry : PropagationEntry)
    → Exact q
    → length q.rows < 2 ^ 32
    → HasSets entry
    → Exact (insert_entry q id entry).0
      × Exact (remove_entry q id).0
      × ((handled on : Bool) → Exact (mark q slot id handled on).0)
      × Exact (forget_peer q slot)
operations-Exact q slot id entry x l a = (
  insert_entry-Exact q id entry x l a,
  remove_entry-Exact q id x l,
  λ handled on. mark-Exact q slot id handled on x l,
  forget_peer-Exact q slot x,
)
