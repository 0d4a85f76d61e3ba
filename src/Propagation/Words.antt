-- ===== src/Propagation/Words.antt =====
-- The bits of the words of a `PeerSet` of rfed/src/lxmf_propagation.rs.
use rfed.Base.{
  ℕ, zero, suc, ◌<◌, ◌≤◌, ◌≡◌, refl, List, [], ◌∷◌, ◌++◌, Bool, true, false, not, ◌&&◌, ◌||◌, ◌==◌,
  if◌then◌else◌, length, All, arith, ◌∙◌,
}
use rfed.Propagation.PeerSet.{Word, zero_bits, bit, set_bit, bit_in, set_in, zero_words}

abbrev pub IsWord : Word → Type 0
IsWord w = length w ≡ 64

length-zero_bits : (n : ℕ) → length (zero_bits n) ≡ n
length-zero_bits zero = refl
length-zero_bits (suc n) = omega (arith, length-zero_bits n)

bit-zero_bits : (k n : ℕ) → bit k (zero_bits n) ≡ false
unfolding bit
bit-zero_bits k zero = refl
bit-zero_bits zero (suc n) = refl
bit-zero_bits (suc k) (suc n) = bit-zero_bits k n

pub length-set_bit : (on : Bool) (k : ℕ) (w : Word) → length (set_bit on k w) ≡ length w
unfolding set_bit
length-set_bit on k [] = refl
length-set_bit on zero (b ∷ bs) = refl
length-set_bit on (suc k) (b ∷ bs) = omega (arith, length-set_bit on k bs)

pub bit-set_bit :
    (on : Bool) (k j : ℕ) (w : Word)
    → k < length w
    → bit j (set_bit on k w) ≡ (if k == j then on else bit j w)
unfolding bit set_bit
bit-set_bit on k j [] h = absurd (omega (arith, h))
bit-set_bit on zero zero (b ∷ bs) h = refl
bit-set_bit on zero (suc j) (b ∷ bs) h = ground arith
bit-set_bit on (suc k) zero (b ∷ bs) h = ground arith
bit-set_bit on (suc k) (suc j) (b ∷ bs) h = ground (arith, bit-set_bit on k j bs (omega (arith, h)))

pub bit_in-set_in :
    (on : Bool) (at k i j : ℕ) (ws : List Word)
    → at < length ws
    → k < 64
    → All IsWord ws
    → bit_in i j (set_in on at k ws) ≡ (if at == i && k == j then on else bit_in i j ws)
unfolding bit_in set_in
bit_in-set_in on at k i j [] h l a = absurd (omega (arith, h))
bit_in-set_in on zero k zero j (w ∷ ws) h l a = bit-set_bit on k j w (omega (arith, l, a.0))
bit_in-set_in on zero k (suc i) j (w ∷ ws) h l a = ground arith
bit_in-set_in on (suc at) k zero j (w ∷ ws) h l a = ground arith
bit_in-set_in on (suc at) k (suc i) j (w ∷ ws) h l a =
    ground (arith, bit_in-set_in on at k i j ws (omega (arith, h)) l a.1)

merges : (a b : Bool) → (if a then true else b) ≡ (b || a)
merges true true = refl
merges true false = refl
merges false true = refl
merges false false = refl

takes : (a b : Bool) → (if a then false else b) ≡ (b && not a)
takes true true = refl
takes true false = refl
takes false true = refl
takes false false = refl

pub bit_in-set_on :
    (at k i j : ℕ) (ws : List Word)
    → at < length ws
    → k < 64
    → All IsWord ws
    → bit_in i j (set_in true at k ws) ≡ (bit_in i j ws || (at == i && k == j))
bit_in-set_on at k i j ws h l a =
    bit_in-set_in true at k i j ws h l a ∙ merges (at == i && k == j) (bit_in i j ws)

pub bit_in-set_off :
    (at k i j : ℕ) (ws : List Word)
    → at < length ws
    → k < 64
    → All IsWord ws
    → bit_in i j (set_in false at k ws) ≡ (bit_in i j ws && not (at == i && k == j))
bit_in-set_off at k i j ws h l a =
    bit_in-set_in false at k i j ws h l a ∙ takes (at == i && k == j) (bit_in i j ws)

pub set_in-All :
    (on : Bool) (at k : ℕ) (ws : List Word) → All IsWord ws → All IsWord (set_in on at k ws)
unfolding set_in
set_in-All on at k [] a = tt
set_in-All on zero k (w ∷ ws) a = (length-set_bit on k w ∙ a.0, a.1)
set_in-All on (suc at) k (w ∷ ws) a = (a.0, set_in-All on at k ws a.1)

pub bit_in-zero_words : (n i j : ℕ) → bit_in i j (zero_words n) ≡ false
unfolding bit_in
bit_in-zero_words zero i j = refl
bit_in-zero_words (suc n) zero j = bit-zero_bits j 64
bit_in-zero_words (suc n) (suc i) j = bit_in-zero_words n i j

pub zero_words-All : (n : ℕ) → All IsWord (zero_words n)
zero_words-All zero = tt
zero_words-All (suc n) = (length-zero_bits 64, zero_words-All n)

pub length-zero_words : (n : ℕ) → length (zero_words n) ≡ n
length-zero_words zero = refl
length-zero_words (suc n) = omega (arith, length-zero_words n)

pub bit_in-resize : (i j n : ℕ) (ws : List Word) → bit_in i j (ws ++ zero_words n) ≡ bit_in i j ws
unfolding bit_in
bit_in-resize i j n [] = bit_in-zero_words n i j
bit_in-resize zero j n (w ∷ ws) = refl
bit_in-resize (suc i) j n (w ∷ ws) = bit_in-resize i j n ws

pub resize-All : (n : ℕ) (ws : List Word) → All IsWord ws → All IsWord (ws ++ zero_words n)
resize-All n [] a = zero_words-All n
resize-All n (w ∷ ws) a = (a.0, resize-All n ws a.1)

pub bit_in-past : (i j : ℕ) (ws : List Word) → length ws ≤ i → bit_in i j ws ≡ false
unfolding bit_in
bit_in-past i j [] h = refl
bit_in-past zero j (w ∷ ws) h = absurd (omega (arith, h))
bit_in-past (suc i) j (w ∷ ws) h = bit_in-past i j ws (omega (arith, h))
