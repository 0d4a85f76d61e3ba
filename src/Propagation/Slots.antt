-- ===== src/Propagation/Slots.antt =====
-- `PeerSet` of rfed/src/lxmf_propagation.rs is a set of slots.
use rfed.Base.{
  ℕ, zero, suc, ◌+◌, ◌-◌, ◌/◌, ◌%◌, ◌<◌, ◌≡◌, refl, List, [], ◌∷◌, Bool, true, false, not, ◌&&◌,
  ◌||◌, ◌==◌, leb, length, All, arith, Bool-cases, inl, inr, ap, ◌∙◌, length-append,
}
use rfed.Propagation.PeerSet.{
  Word, PeerSet, word, words, words_of, bit_in, zero_words, resize, contains, insert_at, insert,
  remove_at, remove,
}
use rfed.Propagation.Words.{
  IsWord, bit_in-set_on, bit_in-set_off, set_in-All, zero_words-All, length-zero_words,
  bit_in-resize, resize-All, bit_in-past,
}

-- Every word has its 64 bits.
abbrev pub IsSet64 : PeerSet → Type 0
IsSet64 s = All IsWord (words_of s)

same_slot : (i j : ℕ) → (i / 64 == j / 64 && i % 64 == j % 64) ≡ (i == j)
same_slot i j = ground arith

insert_at-bit_in :
    (s : PeerSet) (at k i j : ℕ)
    → IsSet64 s
    → k < 64
    → bit_in i j (words_of (insert_at s at k)) ≡ (bit_in i j (words_of s) || (at == i && k == j))
unfolding insert_at
insert_at-bit_in (word w) zero k i j a l = bit_in-set_on 0 k i j (w ∷ []) (omega arith) l a
insert_at-bit_in (word w) (suc at) k i j a l =
    bit_in-set_on (suc at) k i j (w ∷ zero_words (suc at))
      (omega (arith, length-zero_words (suc at))) l (a.0, zero_words-All (suc at))
    ∙ ap (λ (b : Bool). b || (suc at == i && k == j)) (bit_in-resize i j (suc at) (w ∷ []))
insert_at-bit_in (words ws) at k i j a l = elim (Bool-cases (leb (length ws) at)) [
  | inl short ↦ rw short (
      bit_in-set_on at k i j (resize (at + 1) ws)
        (ground (
          arith,
          short,
          length-append ws (zero_words (at + 1 - length ws)),
          length-zero_words (at + 1 - length ws),
        ))
        l (resize-All (at + 1 - length ws) ws a)
      ∙ ap (λ (b : Bool). b || (at == i && k == j)) (bit_in-resize i j (at + 1 - length ws) ws))
  | inr long ↦ rw long (bit_in-set_on at k i j ws (ground (arith, long)) l a)
]

insert_at-All : (s : PeerSet) (at k : ℕ) → IsSet64 s → IsSet64 (insert_at s at k)
unfolding insert_at
insert_at-All (word w) zero k a = set_in-All true 0 k (w ∷ []) a
insert_at-All (word w) (suc at) k a =
    (a.0, set_in-All true at k (zero_words (suc at)) (zero_words-All (suc at)))
insert_at-All (words ws) at k a = elim (Bool-cases (leb (length ws) at)) [
  | inl short ↦
      rw short (set_in-All true at k (resize (at + 1) ws) (resize-All (at + 1 - length ws) ws a))
  | inr long ↦ rw long (set_in-All true at k ws a)
]

-- A bit that is set lies in a word of the slice.
in_reach : (at k : ℕ) (ws : List Word) → bit_in at k ws ≡ true → at < length ws
in_reach at k ws h = elim (Bool-cases (leb (length ws) at)) [
  | inl past ↦ ground (arith, h, bit_in-past at k ws (ground (arith, past)))
  | inr within ↦ ground (arith, within)
]

remove_at-bit_in :
    (s : PeerSet) (at k i j : ℕ)
    → IsSet64 s
    → k < 64
    → bit_in at k (words_of s) ≡ true
    → bit_in i j (words_of (remove_at s at k))
      ≡ (bit_in i j (words_of s) && not (at == i && k == j))
unfolding remove_at bit_in
remove_at-bit_in (word w) zero k i j a l h = bit_in-set_off 0 k i j (w ∷ []) (omega arith) l a
remove_at-bit_in (word w) (suc at) k i j a l h = absurd (ground (arith, h))
remove_at-bit_in (words ws) at k i j a l h = bit_in-set_off at k i j ws (in_reach at k ws h) l a

remove_at-All : (s : PeerSet) (at k : ℕ) → IsSet64 s → IsSet64 (remove_at s at k)
unfolding remove_at
remove_at-All (word w) at k a = set_in-All false 0 k (w ∷ []) a
remove_at-All (words ws) at k a = set_in-All false at k ws a

below_64 : (i : ℕ) → i % 64 < 64
below_64 i = omega arith

pub insert-contains :
    (s : PeerSet) (i j : ℕ)
    → IsSet64 s
    → let r = insert s i in
      (contains r.0 j ≡ (contains s j || i == j)) × (r.1 ≡ not (contains s i)) × IsSet64 r.0
unfolding insert contains
insert-contains s i j a = elim (Bool-cases (contains s i)) [
  | inl held ↦ rw held (holds_already (contains s) i j held, refl, a)
  | inr new ↦ rw new (
    insert_at-bit_in s (i / 64) (i % 64) (j / 64) (j % 64) a (below_64 i)
        ∙ ap (λ (b : Bool). contains s j || b) (same_slot i j),
    refl,
    insert_at-All s (i / 64) (i % 64) a,
  )
]
  where
    holds_already : (f : ℕ → Bool) (i j : ℕ) → f i ≡ true → f j ≡ (f j || i == j)
    holds_already f i j h = ground (arith, h)

pub remove-contains :
    (s : PeerSet) (i j : ℕ)
    → IsSet64 s
    → let r = remove s i in
      (contains r.0 j ≡ (contains s j && not (i == j))) × (r.1 ≡ contains s i) × IsSet64 r.0
unfolding remove contains
remove-contains s i j a = elim (Bool-cases (contains s i)) [
  | inl held ↦ rw held (
    remove_at-bit_in s (i / 64) (i % 64) (j / 64) (j % 64) a (below_64 i) held
        ∙ ap (λ (b : Bool). contains s j && not b) (same_slot i j),
    refl,
    remove_at-All s (i / 64) (i % 64) a,
  )
  | inr absent ↦ rw absent (absent_already (contains s) i j absent, refl, a)
]
  where
    absent_already : (f : ℕ → Bool) (i j : ℕ) → f i ≡ false → f j ≡ (f j && not (i == j))
    absent_already f i j h = ground (arith, h)
