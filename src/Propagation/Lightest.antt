-- ===== src/Propagation/Lightest.antt =====
-- The sort of an offer's candidates in `plan_offer` of rfed/src/lxmf_propagation.rs.
use rfed.Base.{
  ℕ, ◌≤◌, ◌≡◌, refl, List, [], ◌∷◌, Bool, true, false, leb, length, filter, All, arith, Bool-cases,
  inl, inr,
}
use rfed.Propagation.Plan.{OfferCandidate, sort_candidates, insert_candidate}

-- Lightest first.
abbrev pub IsSorted : List OfferCandidate → Type 0
IsSorted [] = Unit
IsSorted (c ∷ cs) = All (λ d. c.weight ≤ d.weight) cs × IsSorted cs

-- The same candidates, each as often.
abbrev pub SameCandidates : List OfferCandidate → List OfferCandidate → Type 0
SameCandidates xs ys =
    (test : OfferCandidate → Bool) → length (filter test xs) ≡ length (filter test ys)

All-insert_candidate :
    (w : ℕ) (c : OfferCandidate) (cs : List OfferCandidate)
    → w ≤ c.weight
    → All (λ d. w ≤ d.weight) cs
    → All (λ d. w ≤ d.weight) (insert_candidate c cs)
unfolding insert_candidate
All-insert_candidate w c [] h a = (h, tt)
All-insert_candidate w c (d ∷ ds) h a = elim (Bool-cases (leb c.weight d.weight)) [
  | inl lighter ↦ rw (lighter) (h, a)
  | inr heavier ↦ rw (heavier) (a.0, All-insert_candidate w c ds h a.1)
]

lighter_All :
    (v w : ℕ) (cs : List OfferCandidate)
    → v ≤ w
    → All (λ d. w ≤ d.weight) cs
    → All (λ d. v ≤ d.weight) cs
lighter_All v w [] h a = tt
lighter_All v w (c ∷ cs) h a = (omega (arith, h, a.0), lighter_All v w cs h a.1)

insert_candidate-IsSorted :
    (c : OfferCandidate) (cs : List OfferCandidate) → IsSorted cs → IsSorted (insert_candidate c cs)
unfolding insert_candidate
insert_candidate-IsSorted c [] a = (tt, tt)
insert_candidate-IsSorted c (d ∷ ds) a = elim (Bool-cases (leb c.weight d.weight)) [
  | inl lighter ↦
      let h = at_most lighter in rw (lighter) ((h, lighter_All c.weight d.weight ds h a.0), a)
  | inr heavier ↦ rw (heavier) (
    All-insert_candidate d.weight c ds (at_least heavier) a.0,
    insert_candidate-IsSorted c ds a.1,
  )
]
  where
    at_most : {v w : ℕ} → leb v w ≡ true → v ≤ w
    at_most h = ground (arith, h)

    at_least : {v w : ℕ} → leb v w ≡ false → w ≤ v
    at_least h = ground (arith, h)

pub sort_candidates-IsSorted : (cs : List OfferCandidate) → IsSorted (sort_candidates cs)
unfolding sort_candidates
sort_candidates-IsSorted [] = tt
sort_candidates-IsSorted (c ∷ cs) =
    insert_candidate-IsSorted c (sort_candidates cs) (sort_candidates-IsSorted cs)

insert_candidate-SameCandidates :
    (c : OfferCandidate) (cs : List OfferCandidate)
    → SameCandidates (insert_candidate c cs) (c ∷ cs)
unfolding insert_candidate
insert_candidate-SameCandidates c [] test = refl
insert_candidate-SameCandidates c (d ∷ ds) test =
    ground (arith, insert_candidate-SameCandidates c ds test)

pub sort_candidates-SameCandidates :
    (cs : List OfferCandidate) → SameCandidates (sort_candidates cs) cs
unfolding sort_candidates
sort_candidates-SameCandidates [] test = refl
sort_candidates-SameCandidates (c ∷ cs) test = ground (
  arith,
  insert_candidate-SameCandidates c (sort_candidates cs) test,
  sort_candidates-SameCandidates cs test,
)
