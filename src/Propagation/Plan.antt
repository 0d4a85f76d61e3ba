-- ===== src/Propagation/Plan.antt =====
-- `plan_offer` of rfed/src/lxmf_propagation.rs. Sizes and weights are numbers: the code's f64 ones are sums
-- and products of integers, a weight here 345600 times as large. What one Resource carries at most is
-- a constant of the transport. A limit is a whole number of KB, or none: a peer that announces a fraction
-- or a negative number is not covered.
use rfed.Base.{
  ℕ, ◌+◌, ◌*◌, List, [], ◌∷◌, ◌++◌, Option, none, some, Bytes, Bool, false, ◌||◌, ltb, leb, length,
  if◌then◌else◌,
}

pub record OfferCandidate : Type 0 where
  pub tid : Bytes
  pub size : ℕ
  pub weight : ℕ

pub record OfferPlan : Type 0 where
  pub offer : List Bytes
  pub too_big : List Bytes
  pub over_resource : List Bytes
  pub estimated_bytes : ℕ

abbrev pub per_message_overhead : ℕ
per_message_overhead = 16

abbrev pub batch_overhead : ℕ
batch_overhead = 24

-- A stable sort, lightest first.
unfoldable pub insert_candidate : OfferCandidate → List OfferCandidate → List OfferCandidate
insert_candidate c [] = c ∷ []
insert_candidate c (d ∷ ds) =
    let rest = insert_candidate c ds in if leb c.weight d.weight then c ∷ d ∷ ds else d ∷ rest

unfoldable pub sort_candidates : List OfferCandidate → List OfferCandidate
unfolding insert_candidate
sort_candidates [] = []
sort_candidates (c ∷ cs) = insert_candidate c (sort_candidates cs)

abbrev pub over : ℕ → Option ℕ → Bool
over size none = false
over size (some limit) = ltb (limit * 1000) size

abbrev pub reaches : ℕ → Option ℕ → Bool
reaches size none = false
reaches size (some limit) = leb (limit * 1000) size

module _ (transfer_limit_kb sync_limit_kb : Option ℕ) (max_ids resource_limit : ℕ) where
  unfoldable pub plan_one : OfferPlan → OfferCandidate → OfferPlan
  plan_one plan c =
      let transfer_size = c.size + per_message_overhead in
      let next_size = plan.estimated_bytes + transfer_size in
      if over transfer_size transfer_limit_kb
      then record plan { too_big = plan.too_big ++ c.tid ∷ [] }
      else if ltb resource_limit (batch_overhead + transfer_size)
      then record plan { over_resource = plan.over_resource ++ c.tid ∷ [] }
      else if leb max_ids (length plan.offer)
          || reaches next_size sync_limit_kb
          || ltb resource_limit next_size
      then plan
      else record plan { offer = plan.offer ++ c.tid ∷ []; estimated_bytes = next_size }

  unfoldable pub plan_all : OfferPlan → List OfferCandidate → OfferPlan
  unfolding plan_one
  plan_all plan [] = plan
  plan_all plan (c ∷ cs) = plan_all (plan_one plan c) cs

  unfoldable pub plan_offer : List OfferCandidate → OfferPlan
  unfolding plan_all sort_candidates
  plan_offer candidates =
      plan_all
        (record { offer = []; too_big = []; over_resource = []; estimated_bytes = batch_overhead })
        (sort_candidates candidates)
