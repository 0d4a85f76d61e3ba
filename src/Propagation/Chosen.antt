-- ===== src/Propagation/Chosen.antt =====
-- What `plan_offer` of rfed/src/lxmf_propagation.rs sets aside and what it offers.
use rfed.Base.{
  ℕ, ◌+◌, ◌≤◌, ◌≡◌, refl, List, [], ◌∷◌, ◌++◌, map, push-append, length-append, append-nil, Option,
  Bool, true, false, not, ◌&&◌, ◌||◌, ltb, leb, length, filter, arith, Bool-cases, ◌⊎◌, inl, inr,
  ◌∙◌, sym,
}
use rfed.Propagation.Plan.{
  OfferCandidate, OfferPlan, per_message_overhead, batch_overhead, over, reaches, plan_one,
  plan_all, plan_offer, sort_candidates,
}
use rfed.Propagation.Lightest.{
  IsSorted, SameCandidates, sort_candidates-IsSorted, sort_candidates-SameCandidates,
}

-- A list that has some of another's elements, in the order of that one.
pub data Picks : List OfferCandidate → List OfferCandidate → Type 0 where
  ends : Picks [] []
  picks : (c : OfferCandidate) {xs ys : List OfferCandidate} → Picks xs ys → Picks (c ∷ xs) (c ∷ ys)
  skips : (c : OfferCandidate) {xs ys : List OfferCandidate} → Picks xs ys → Picks xs (c ∷ ys)

abbrev pub transfer_sizes : List OfferCandidate → ℕ
transfer_sizes [] = 0
transfer_sizes (c ∷ cs) = c.size + per_message_overhead + transfer_sizes cs

module _ (transfer_limit_kb sync_limit_kb : Option ℕ) (max_ids resource_limit : ℕ) where
  -- Over the peer's limit on one message.
  abbrev pub is_too_big : OfferCandidate → Bool
  is_too_big c = over (c.size + per_message_overhead) transfer_limit_kb

  -- Within that limit, and too large for one Resource.
  abbrev pub is_over_resource : OfferCandidate → Bool
  is_over_resource c =
      not (is_too_big c) && ltb resource_limit (batch_overhead + (c.size + per_message_overhead))

  -- A batch of `bytes` is empty or under both limits.
  abbrev pub Fits : ℕ → Type 0
  Fits bytes =
      (bytes ≡ batch_overhead) ⊎ ((bytes ≤ resource_limit) × (reaches bytes sync_limit_kb ≡ false))

  -- What a plan becomes as `cs` are taken in turn.
  record Planned (plan : OfferPlan) (cs : List OfferCandidate) (r : OfferPlan) : Type 0 where
    pub chosen : List OfferCandidate
    pub chosen_of : Picks chosen (filter (λ c. not (is_too_big c) && not (is_over_resource c)) cs)
    pub offer : r.offer ≡ plan.offer ++ map (λ c. c.tid) chosen
    pub bytes : r.estimated_bytes ≡ plan.estimated_bytes + transfer_sizes chosen
    pub too_big : r.too_big ≡ plan.too_big ++ map (λ c. c.tid) (filter is_too_big cs)
    pub over_resource :
        r.over_resource ≡ plan.over_resource ++ map (λ c. c.tid) (filter is_over_resource cs)
    pub few : length plan.offer ≤ max_ids → length r.offer ≤ max_ids
    pub fits : Fits plan.estimated_bytes → Fits r.estimated_bytes

  set_aside_big :
      (plan : OfferPlan) (c : OfferCandidate) (cs : List OfferCandidate) (r : OfferPlan)
      → is_too_big c ≡ true
      → Planned (record plan { too_big = plan.too_big ++ c.tid ∷ [] }) cs r
      → Planned plan (c ∷ cs) r
  set_aside_big plan c cs r big p = record {
    chosen = p.chosen;
    chosen_of = rw (big) p.chosen_of;
    offer = p.offer;
    bytes = p.bytes;
    too_big = rw (big) (p.too_big ∙ push-append plan.too_big c.tid _);
    over_resource = rw (big) p.over_resource;
    few = p.few;
    fits = p.fits;
  }

  set_aside_over :
      (plan : OfferPlan) (c : OfferCandidate) (cs : List OfferCandidate) (r : OfferPlan)
      → is_too_big c ≡ false
      → ltb resource_limit (batch_overhead + (c.size + per_message_overhead)) ≡ true
      → Planned (record plan { over_resource = plan.over_resource ++ c.tid ∷ [] }) cs r
      → Planned plan (c ∷ cs) r
  set_aside_over plan c cs r small large p = record {
    chosen = p.chosen;
    chosen_of = rw (small, large) p.chosen_of;
    offer = p.offer;
    bytes = p.bytes;
    too_big = rw (small) p.too_big;
    over_resource = rw (small, large) (p.over_resource ∙ push-append plan.over_resource c.tid _);
    few = p.few;
    fits = p.fits;
  }

  passed_over :
      (plan : OfferPlan) (c : OfferCandidate) (cs : List OfferCandidate) (r : OfferPlan)
      → is_too_big c ≡ false
      → ltb resource_limit (batch_overhead + (c.size + per_message_overhead)) ≡ false
      → Planned plan cs r
      → Planned plan (c ∷ cs) r
  passed_over plan c cs r small fit p = record {
    chosen = p.chosen;
    chosen_of = rw (small, fit) (skips c p.chosen_of);
    offer = p.offer;
    bytes = p.bytes;
    too_big = rw (small) p.too_big;
    over_resource = rw (small, fit) p.over_resource;
    few = p.few;
    fits = p.fits;
  }

  chosen_next :
      (plan : OfferPlan) (c : OfferCandidate) (cs : List OfferCandidate) (r : OfferPlan)
      → is_too_big c ≡ false
      → ltb resource_limit (batch_overhead + (c.size + per_message_overhead)) ≡ false
      → (leb max_ids (length plan.offer)
          || reaches (plan.estimated_bytes + (c.size + per_message_overhead)) sync_limit_kb
          || ltb resource_limit (plan.estimated_bytes + (c.size + per_message_overhead)))
        ≡ false
      → Planned
          (record plan {
            offer = plan.offer ++ c.tid ∷ [];
            estimated_bytes = plan.estimated_bytes + (c.size + per_message_overhead);
          })
          cs
          r
      → Planned plan (c ∷ cs) r
  chosen_next plan c cs r small fit room p = record {
    chosen = c ∷ p.chosen;
    chosen_of = rw (small, fit) (picks c p.chosen_of);
    offer = p.offer ∙ push-append plan.offer c.tid _;
    bytes = omega (arith, p.bytes);
    too_big = rw (small) p.too_big;
    over_resource = rw (small, fit) p.over_resource;
    few = λ h. p.few (ground (arith, room, length-append plan.offer (c.tid ∷ [])));
    fits = λ h. p.fits (inr (ground (arith, room), ground (arith, room)));
  }

  plan_all-Planned :
      (cs : List OfferCandidate) (plan : OfferPlan)
      → Planned plan cs (plan_all transfer_limit_kb sync_limit_kb max_ids resource_limit plan cs)
  unfolding plan_all
  plan_all-Planned [] plan = record {
    chosen = [];
    chosen_of = ends;
    offer = sym (append-nil plan.offer);
    bytes = omega arith;
    too_big = sym (append-nil plan.too_big);
    over_resource = sym (append-nil plan.over_resource);
    few = λ h. h;
    fits = λ h. h;
  }
  plan_all-Planned (c ∷ cs) plan = elim (Bool-cases (is_too_big c)) [
    | inl big ↦ rw (plan_one, big) (set_aside_big plan c cs _ big (plan_all-Planned cs _))
    | inr small ↦
        elim (Bool-cases (ltb resource_limit (batch_overhead + (c.size + per_message_overhead)))) [
          | inl large ↦
              rw (plan_one, small, large)
                (set_aside_over plan c cs _ small large (plan_all-Planned cs _))
          | inr fit ↦
              elim (Bool-cases (
                leb max_ids (length plan.offer)
                || reaches (plan.estimated_bytes + (c.size + per_message_overhead)) sync_limit_kb
                || ltb resource_limit (plan.estimated_bytes + (c.size + per_message_overhead)))) [
                  | inl full ↦
                      rw (plan_one, small, fit, full)
                        (passed_over plan c cs _ small fit (plan_all-Planned cs _))
                  | inr room ↦
                      rw (plan_one, small, fit, room)
                        (chosen_next plan c cs _ small fit room (plan_all-Planned cs _))
                ]
        ]
  ]

  -- What an offer's plan is of its candidates: `cs` are these in the order in which they are taken.
  pub record Offers (cs : List OfferCandidate) (plan : OfferPlan) : Type 0 where
    pub chosen : List OfferCandidate
    pub chosen_of : Picks chosen (filter (λ c. not (is_too_big c) && not (is_over_resource c)) cs)
    pub offered_chosen : plan.offer ≡ map (λ c. c.tid) chosen
    pub bytes_exact : plan.estimated_bytes ≡ batch_overhead + transfer_sizes chosen
    pub bytes_fit : Fits plan.estimated_bytes
    pub offered_few : length plan.offer ≤ max_ids
    pub all_too_big : plan.too_big ≡ map (λ c. c.tid) (filter is_too_big cs)
    pub all_over_resource : plan.over_resource ≡ map (λ c. c.tid) (filter is_over_resource cs)

-- A plan takes its candidates lightest first. It sets aside exactly those over the peer's limit on one
-- message, and of the others exactly those too large for one Resource. It offers some of the rest, in
-- that order, no more than `max_ids`, and its estimate is the batch overhead and the sizes of those
-- with their overheads; a batch that is not empty is under the peer's sync limit and fits one Resource.
pub plan_offer-Offers :
    (transfer_limit_kb sync_limit_kb : Option ℕ) (max_ids resource_limit : ℕ)
    (candidates : List OfferCandidate)
    → let cs = sort_candidates candidates in
      IsSorted cs
      × SameCandidates cs candidates
      × Offers transfer_limit_kb sync_limit_kb max_ids resource_limit cs
          (plan_offer transfer_limit_kb sync_limit_kb max_ids resource_limit candidates)
unfolding plan_offer
plan_offer-Offers transfer_limit_kb sync_limit_kb max_ids resource_limit candidates =
    let p =
      plan_all-Planned transfer_limit_kb sync_limit_kb max_ids resource_limit
        (sort_candidates candidates)
        (record {
          offer = [];
          too_big = [];
          over_resource = [];
          estimated_bytes = batch_overhead;
        }) in
    (
      sort_candidates-IsSorted candidates,
      sort_candidates-SameCandidates candidates,
      record {
        chosen = p.chosen;
        chosen_of = p.chosen_of;
        offered_chosen = p.offer;
        bytes_exact = p.bytes;
        bytes_fit = p.fits (inl refl);
        offered_few = p.few (omega arith);
        all_too_big = p.too_big;
        all_over_resource = p.over_resource;
      },
    )
