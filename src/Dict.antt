-- ===== src/Dict.antt =====
-- `HashMap`: an association list, whose order is the map's iteration order. A key that is inserted
-- for the first time goes to the end; theorems hold for every list, so for every order.
use rfed.Base.{
  Bool, false, ℕ, ◌+◌, ◌≤◌, ◌≡◌, refl, ◌≢◌, ite, if_pos, if_neg, List, [], ◌∷◌, map, Option, none,
  some, arith,
}

abbrev pub Dict {ℓ} : Type ℓ → Type ℓ → Type ℓ
Dict K V = List (K × V)

module _ {ℓ} {K V : Type ℓ} where
  abbrev pub keys : Dict K V → List K
  keys = map (λ e. e.0)

  abbrev pub values : Dict K V → List V
  values = map (λ e. e.1)

  -- A sum over the entries.
  abbrev pub sum_by : (K → V → ℕ) → Dict K V → ℕ
  sum_by f [] = 0
  sum_by f ((k, v) ∷ m) = f k v + sum_by f m

-- `is_some_and(predicate)`.
abbrev pub holds {ℓ} : {V : Type ℓ} → (V → Bool) → Option V → Bool
holds predicate none = false
holds predicate (some x) = predicate x

module _ {ℓ} {K V : Type ℓ} (dec : Discrete K) where
  unfoldable pub find : K → Dict K V → Option V
  find k [] = none
  find k ((j, v) ∷ m) = ite (dec j k) (some v) (find k m)

  unfoldable pub put : K → V → Dict K V → Dict K V
  put k v [] = (k, v) ∷ []
  put k v ((j, w) ∷ m) = ite (dec j k) ((j, v) ∷ m) ((j, w) ∷ put k v m)

  unfoldable pub remove : K → Dict K V → Dict K V
  remove k [] = []
  remove k ((j, v) ∷ m) = ite (dec j k) m ((j, v) ∷ remove k m)

  -- No key twice, as in a `HashMap`.
  abbrev pub Distinct : Dict K V → Type ℓ
  Distinct [] = Unit
  Distinct ((k, v) ∷ m) = (find k m ≡ none) × Distinct m

  pub find-put :
      (k j : K) (v : V) (m : Dict K V) → find j (put k v m) ≡ ite (dec k j) (some v) (find j m)
  unfolding find put
  find-put k j v [] = refl
  find-put k j v ((i, w) ∷ m) = ground (arith, find-put k j v m)

  pub find-put_self : (k : K) (v : V) (m : Dict K V) → find k (put k v m) ≡ some v
  find-put_self k v m = ground (arith, find-put k k v m)

  pub find-put_ne : (k j : K) (v : V) (m : Dict K V) → k ≢ j → find j (put k v m) ≡ find j m
  find-put_ne k j v m h = ground (arith, find-put k j v m)

  pub find-remove_ne : (k j : K) (m : Dict K V) → k ≢ j → find j (remove k m) ≡ find j m
  unfolding find remove
  find-remove_ne k j [] h = refl
  find-remove_ne k j ((i, w) ∷ m) h = ground (arith, find-remove_ne k j m)

  pub find-remove_self : (k : K) (m : Dict K V) → Distinct m → find k (remove k m) ≡ none
  unfolding find remove
  find-remove_self k [] d = refl
  find-remove_self k ((i, w) ∷ m) d = ground (arith, find-remove_self k m d.1)

  pub find-remove-none : (k j : K) (m : Dict K V) → find j m ≡ none → find j (remove k m) ≡ none
  unfolding find remove
  find-remove-none k j [] h = refl
  find-remove-none k j ((i, w) ∷ m) h = ground (arith, find-remove-none k j m)

  pub put-Distinct : (k : K) (v : V) (m : Dict K V) → Distinct m → Distinct (put k v m)
  unfolding put find
  put-Distinct k v [] d = (refl, tt)
  put-Distinct k v ((i, w) ∷ m) d = elim (dec i k) [
    | yes p ↦ rw (if_pos _ p) d
    | no p ↦ rw (if_neg _ p) (ground (arith, find-put_ne k i v m), put-Distinct k v m d.1)
  ]

  pub remove-Distinct : (k : K) (m : Dict K V) → Distinct m → Distinct (remove k m)
  unfolding remove
  remove-Distinct k [] d = tt
  remove-Distinct k ((i, w) ∷ m) d = elim (dec i k) [
    | yes p ↦ rw (if_pos _ p) d.1
    | no p ↦ rw (if_neg _ p) (find-remove-none k i m d.0, remove-Distinct k m d.1)
  ]

  module _ (f : K → V → ℕ) where
    pub sum_by-put :
        (k : K) (v w : V) (m : Dict K V)
        → find k m ≡ some w
        → sum_by f (put k v m) + f k w ≡ sum_by f m + f k v
    unfolding find put
    sum_by-put k v w [] h = ground arith
    sum_by-put k v w ((i, u) ∷ m) h = ground (arith, sum_by-put k v w m)

    pub sum_by-put_new :
        (k : K) (v : V) (m : Dict K V) → find k m ≡ none → sum_by f (put k v m) ≡ sum_by f m + f k v
    unfolding find put
    sum_by-put_new k v [] h = omega arith
    sum_by-put_new k v ((i, u) ∷ m) h = ground (arith, sum_by-put_new k v m)

    pub sum_by-remove_le : (k : K) (m : Dict K V) → sum_by f (remove k m) ≤ sum_by f m
    unfolding remove
    sum_by-remove_le k [] = omega arith
    sum_by-remove_le k ((i, u) ∷ m) = ground (arith, sum_by-remove_le k m)

    pub sum_by-remove :
        (k : K) (w : V) (m : Dict K V)
        → find k m ≡ some w
        → sum_by f (remove k m) + f k w ≡ sum_by f m
    unfolding find remove
    sum_by-remove k w [] h = ground arith
    sum_by-remove k w ((i, u) ∷ m) h = ground (arith, sum_by-remove k w m)
