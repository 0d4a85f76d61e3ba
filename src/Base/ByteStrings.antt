-- ===== src/Base/ByteStrings.antt =====
-- Byte strings (`Vec<u8>`), which are the program's hashes and message ids, with the decision by
-- which the model compares them.
use Prim.Native.Nat.{ℕ, compare, Ordering}
use mathlib.Core.Bool.{Bool, true, false, ◌||◌}
use mathlib.Core.List.{List, [], ◌∷◌}
use mathlib.Core.Path.{◌≡◌, refl}
use native.Mathlib.Omega.{arith}
use native.Mathlib.Decide.{ℕ_discrete}

abbrev pub Bytes : Type 0
Bytes = List ℕ

unfoldable pub bytes_dec : Discrete Bytes
unfolding ℕ_discrete
bytes_dec = hlevel ℕ_discrete

abbrev pub same : Bytes → Bytes → Bool
same a b = elim (bytes_dec a b) [ yes _ ↦ true | no _ ↦ false ]

same_test : same (1 ∷ 2 ∷ []) (1 ∷ 2 ∷ []) ≡ true
unfolding bytes_dec
same_test = refl

pub same_eq : (a b : Bytes) → same a b ≡ true → a ≡ b
same_eq a b h = ground arith

pub same_refl : (a : Bytes) → same a a ≡ true
same_refl a = ground arith

-- The lexicographic order of byte strings.
unfoldable pub bytes_cmp : Bytes → Bytes → Ordering
bytes_cmp [] [] = Ordering.eq
bytes_cmp [] (y ∷ ys) = Ordering.lt
bytes_cmp (x ∷ xs) [] = Ordering.gt
bytes_cmp (x ∷ xs) (y ∷ ys) = elim (compare x y) [
  | Ordering.lt ↦ Ordering.lt
  | Ordering.eq ↦ bytes_cmp xs ys
  | Ordering.gt ↦ Ordering.gt
]

pub bytes_cmp-eq : (a b : Bytes) → bytes_cmp a b ≡ Ordering.eq → a ≡ b
unfolding bytes_cmp
bytes_cmp-eq [] [] h = refl
bytes_cmp-eq [] (y ∷ ys) h = absurd (ground arith)
bytes_cmp-eq (x ∷ xs) [] h = absurd (ground arith)
bytes_cmp-eq (x ∷ xs) (y ∷ ys) h = ground (arith, bytes_cmp-eq xs ys)

-- `Vec::sort` on byte strings.
unfoldable pub insert_sorted : Bytes → List Bytes → List Bytes
unfolding bytes_cmp
insert_sorted a [] = a ∷ []
insert_sorted a (b ∷ bs) = elim (bytes_cmp a b) [
  | Ordering.gt ↦ b ∷ insert_sorted a bs
  | _ ↦ a ∷ b ∷ bs
]

unfoldable pub sort : List Bytes → List Bytes
unfolding insert_sorted
sort [] = []
sort (a ∷ as') = insert_sorted a (sort as')

abbrev pub mem : Bytes → List Bytes → Bool
mem a [] = false
mem a (b ∷ bs) = same b a || mem a bs

mem-insert_sorted :
    (a b : Bytes) (bs : List Bytes) → mem a (insert_sorted b bs) ≡ (same b a || mem a bs)
unfolding insert_sorted
mem-insert_sorted a b [] = refl
mem-insert_sorted a b (c ∷ cs) = ground (arith, mem-insert_sorted a b cs)

pub mem-sort : (a : Bytes) (bs : List Bytes) → mem a (sort bs) ≡ mem a bs
unfolding sort
mem-sort a [] = refl
mem-sort a (b ∷ bs) = ground (arith, mem-insert_sorted a b (sort bs), mem-sort a bs)
