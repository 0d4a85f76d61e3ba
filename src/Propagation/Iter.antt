-- ===== src/Propagation/Iter.antt =====
-- What `PeerSet::iter` of rfed/src/lxmf_propagation.rs goes over.
use rfed.Base.{
  ℕ, zero, suc, ◌+◌, ◌*◌, ◌/◌, ◌%◌, ◌<◌, ◌≤◌, ◌≡◌, refl, List, [], ◌∷◌, ◌++◌, Bool, true, false,
  not, ◌&&◌, ◌||◌, ◌==◌, if◌then◌else◌, length, All, arith, ap, ◌∙◌,
}
use rfed.Propagation.PeerSet.{
  Word, PeerSet, words_of, bit, bit_in, contains, insert, remove, bits_from, slots_from, iter,
}
use rfed.Propagation.Words.{IsWord}
use rfed.Propagation.Slots.{IsSet64, insert-contains, remove-contains}

-- How often a slot is in a list.
abbrev pub tally : ℕ → List ℕ → ℕ
tally j [] = 0
tally j (k ∷ ks) = if k == j then suc (tally j ks) else tally j ks

abbrev pub held_once : Bool → ℕ
held_once true = 1
held_once false = 0

pub tally-append : (j : ℕ) (xs ys : List ℕ) → tally j (xs ++ ys) ≡ tally j xs + tally j ys
tally-append j [] ys = omega arith
tally-append j (x ∷ xs) ys = ground (arith, tally-append j xs ys)

bit-past : (k : ℕ) (w : Word) → length w ≤ k → bit k w ≡ false
unfolding bit
bit-past k [] h = refl
bit-past zero (b ∷ bs) h = absurd (omega (arith, h))
bit-past (suc k) (b ∷ bs) h = bit-past k bs (omega (arith, h))

tally-below : (j slot : ℕ) (w : Word) → j < slot → tally j (bits_from slot w) ≡ 0
unfolding bits_from
tally-below j slot [] h = refl
tally-below j slot (b ∷ bs) h = ground (arith, h, tally-below j (suc slot) bs (omega (arith, h)))

tally-bits_from :
    (k slot : ℕ) (w : Word) → tally (slot + k) (bits_from slot w) ≡ held_once (bit k w)
unfolding bits_from bit
tally-bits_from k slot [] = refl
tally-bits_from zero slot (b ∷ bs) =
    ground (arith, tally-below (slot + 0) (suc slot) bs (omega arith))
tally-bits_from (suc k) slot (b ∷ bs) = ground (
  arith,
  ap (λ (n : ℕ). tally n (bits_from (suc slot) bs)) (moves slot k),
  tally-bits_from k (suc slot) bs,
)
  where
    moves : (slot k : ℕ) → slot + suc k ≡ suc slot + k
    moves slot k = omega arith

tally-below_words : (j at : ℕ) (ws : List Word) → j < at * 64 → tally j (slots_from at ws) ≡ 0
unfolding slots_from
tally-below_words j at [] h = refl
tally-below_words j at (w ∷ ws) h =
    tally-append j (bits_from (at * 64) w) (slots_from (suc at) ws)
    ∙ nothing (tally-below j (at * 64) w h) (tally-below_words j (suc at) ws (omega (arith, h)))
  where
    nothing : {m n : ℕ} → m ≡ 0 → n ≡ 0 → m + n ≡ 0
    nothing h k = omega (arith, h, k)

tally-slots_from :
    (i k at : ℕ) (ws : List Word)
    → k < 64
    → All IsWord ws
    → tally ((at + i) * 64 + k) (slots_from at ws) ≡ held_once (bit_in i k ws)
unfolding slots_from bit_in
tally-slots_from i k at [] l a = refl
tally-slots_from zero k at (w ∷ ws) l a =
    tally-append ((at + 0) * 64 + k) (bits_from (at * 64) w) (slots_from (suc at) ws)
    ∙ first
        (ap (λ (n : ℕ). tally n (bits_from (at * 64) w)) (start at k)
          ∙ tally-bits_from k (at * 64) w)
        (tally-below_words ((at + 0) * 64 + k) (suc at) ws (omega (arith, l)))
  where
    start : (at k : ℕ) → (at + 0) * 64 + k ≡ at * 64 + k
    start at k = omega arith

    first : {m n l : ℕ} → m ≡ l → n ≡ 0 → m + n ≡ l
    first h k = omega (arith, h, k)
tally-slots_from (suc i) k at (w ∷ ws) l a =
    tally-append ((at + suc i) * 64 + k) (bits_from (at * 64) w) (slots_from (suc at) ws)
    ∙ second
        (ap (λ (n : ℕ). tally n (bits_from (at * 64) w)) (past at i k)
          ∙ tally-bits_from (suc i * 64 + k) (at * 64) w
          ∙ ap held_once (bit-past (suc i * 64 + k) w (omega (arith, a.0))))
        (ap (λ (n : ℕ). tally (n * 64 + k) (slots_from (suc at) ws)) (moves at i)
          ∙ tally-slots_from i k (suc at) ws l a.1)
  where
    past : (at i k : ℕ) → (at + suc i) * 64 + k ≡ at * 64 + (suc i * 64 + k)
    past at i k = omega arith

    moves : (at i : ℕ) → at + suc i ≡ suc at + i
    moves at i = omega arith

    second : {m n l : ℕ} → m ≡ 0 → n ≡ l → m + n ≡ l
    second h k = omega (arith, h, k)

-- The iteration goes over each slot of the set once, and over no other.
pub tally-iter :
    (s : PeerSet) (slot : ℕ) → IsSet64 s → tally slot (iter s) ≡ held_once (contains s slot)
unfolding iter contains
tally-iter s slot a =
    ap (λ (n : ℕ). tally n (iter s)) (splits slot)
    ∙ tally-slots_from (slot / 64) (slot % 64) 0 (words_of s) (omega arith) a
  where
    splits : (n : ℕ) → n ≡ (0 + n / 64) * 64 + n % 64
    splits n = omega arith

-- A `PeerSet` whose words have 64 bits is a set of slots, and stays one: an insertion adds its slot and
-- no other and says whether that is new, a removal takes its slot and no other and says whether it was
-- there, and the iteration goes over each slot of the set once and over no other.
pub peer_set-IsSet64 :
    (s : PeerSet) (i j : ℕ)
    → IsSet64 s
    → (contains (insert s i).0 j ≡ (contains s j || i == j))
      × ((insert s i).1 ≡ not (contains s i))
      × IsSet64 (insert s i).0
      × (contains (remove s i).0 j ≡ (contains s j && not (i == j)))
      × ((remove s i).1 ≡ contains s i)
      × IsSet64 (remove s i).0
      × (tally j (iter s) ≡ held_once (contains s j))
peer_set-IsSet64 s i j a =
    let added = insert-contains s i j a in
    let taken = remove-contains s i j a in
    (added.0, added.1, added.2, taken.0, taken.1, taken.2, tally-iter s j a)
