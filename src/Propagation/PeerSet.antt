-- ===== src/Propagation/PeerSet.antt =====
-- `PeerSet` of rfed/src/lxmf_propagation.rs. A u64 is its 64 bits, lowest first: the code reads and writes
-- its words bit by bit only.
use rfed.Base.{
  ℕ, zero, suc, ◌+◌, ◌-◌, ◌*◌, ◌/◌, ◌%◌, List, [], ◌∷◌, ◌++◌, Bool, true, false, not, ◌&&◌, leb,
  if◌then◌else◌, length,
}

abbrev pub Word : Type 0
Word = List Bool

abbrev pub zero_bits : ℕ → Word
zero_bits zero = []
zero_bits (suc n) = false ∷ zero_bits n

abbrev pub zero_word : Word
zero_word = zero_bits 64

-- `word & (1 << k) != 0`.
unfoldable pub bit : ℕ → Word → Bool
bit k [] = false
bit zero (b ∷ bs) = b
bit (suc k) (b ∷ bs) = bit k bs

-- `word |= 1 << k`, or `word &= !(1 << k)`.
unfoldable pub set_bit : Bool → ℕ → Word → Word
set_bit on k [] = []
set_bit on zero (b ∷ bs) = on ∷ bs
set_bit on (suc k) (b ∷ bs) = b ∷ set_bit on k bs

pub data PeerSet : Type 0 where
  word : Word → PeerSet
  words : List Word → PeerSet

abbrev pub default : PeerSet
default = word zero_word

abbrev pub words_of : PeerSet → List Word
words_of (word w) = w ∷ []
words_of (words ws) = ws

-- The bit of a word, in a slice: none past its end.
unfoldable pub bit_in : ℕ → ℕ → List Word → Bool
unfolding bit
bit_in at k [] = false
bit_in zero k (w ∷ ws) = bit k w
bit_in (suc at) k (w ∷ ws) = bit_in at k ws

unfoldable pub set_in : Bool → ℕ → ℕ → List Word → List Word
unfolding set_bit
set_in on at k [] = []
set_in on zero k (w ∷ ws) = set_bit on k w ∷ ws
set_in on (suc at) k (w ∷ ws) = w ∷ set_in on at k ws

abbrev pub zero_words : ℕ → List Word
zero_words zero = []
zero_words (suc n) = zero_word ∷ zero_words n

-- `Vec::resize` to a length that is no less.
abbrev pub resize : ℕ → List Word → List Word
resize n ws = ws ++ zero_words (n - length ws)

unfoldable pub contains : PeerSet → ℕ → Bool
unfolding bit_in
contains s slot = bit_in (slot / 64) (slot % 64) (words_of s)

-- The bits of the word that a set grows from stay, and the new word has one.
unfoldable pub insert_at : PeerSet → ℕ → ℕ → PeerSet
unfolding set_in
insert_at (word w) zero k = word (set_bit true k w)
insert_at (word w) (suc at) k = words (w ∷ set_in true at k (zero_words (suc at)))
insert_at (words ws) at k =
    words (set_in true at k (if leb (length ws) at then resize (at + 1) ws else ws))

unfoldable pub insert : PeerSet → ℕ → PeerSet × Bool
unfolding contains insert_at
insert s slot = if contains s slot then (s, false) else (insert_at s (slot / 64) (slot % 64), true)

unfoldable pub remove_at : PeerSet → ℕ → ℕ → PeerSet
unfolding set_in
remove_at (word w) at k = word (set_bit false k w)
remove_at (words ws) at k = words (set_in false at k ws)

unfoldable pub remove : PeerSet → ℕ → PeerSet × Bool
unfolding contains remove_at
remove s slot = if contains s slot then (remove_at s (slot / 64) (slot % 64), true) else (s, false)

abbrev pub is_zero : Word → Bool
is_zero [] = true
is_zero (b ∷ bs) = not b && is_zero bs

abbrev pub all_zero : List Word → Bool
all_zero [] = true
all_zero (w ∷ ws) = is_zero w && all_zero ws

unfoldable pub is_empty : PeerSet → Bool
is_empty s = all_zero (words_of s)

-- The slots of the bits set, the first of which is bit number `slot`.
unfoldable pub bits_from : ℕ → Word → List ℕ
bits_from slot [] = []
bits_from slot (b ∷ bs) = let rest = bits_from (suc slot) bs in if b then slot ∷ rest else rest

unfoldable pub slots_from : ℕ → List Word → List ℕ
unfolding bits_from
slots_from at [] = []
slots_from at (w ∷ ws) = bits_from (at * 64) w ++ slots_from (suc at) ws

unfoldable pub iter : PeerSet → List ℕ
unfolding slots_from
iter s = slots_from 0 (words_of s)
