-- ===== src/Deferred/Paging.antt =====
-- A pull's page in rfed/src/deferred_queue.rs (PULL-PROOF-DESIGN.md): which entries it takes, within
-- which bounds, and that a page not proved comes back as it was.
use rfed.Base.{
  ℕ, ◌+◌, ◌≤◌, ◌<◌, ◌≡◌, refl, ◌∙◌, ◌⊎◌, inl, inr, if_pos, if_neg, List, [], ◌∷◌, ◌++◌, Bytes,
  bytes_dec, ℕ_discrete, arith, Option-cases, Bool, true, false, filter, if◌then◌else◌, length,
  length-append, push-append, filter-push_in, filter-push_out, append_assoc, append-nil, is_empty,
  ltb,
}
use rfed.Dict
use rfed.Dict.{Dict, sum_by}
use rfed.Deferred.State.{PendingBlob, DeferredQueue, set_bucket, bucket_in, bucket_of}
use rfed.Deferred.Page.{PageLoop, page_step, page_loop, page_of, hold, take_page}
use rfed.Deferred.Buckets.{OneBucket}
use rfed.Deferred.Matching.{matching, other}
use rfed.Deferred.Weight.{weigh, weigh-append}
use rfed.Deferred.View.{
  updated, bucket_in-set_bucket, bucket_in-found, bucket_in-absent, updated_only,
}

module _ (wanted : Bytes → Bool) (max budget : ℕ) (cost : PendingBlob → ℕ) where
  -- The first entry of a list would take the page over its budget.
  abbrev pub head_over : ℕ → List PendingBlob → Bool
  head_over spent [] = false
  head_over spent (e ∷ es) = ltb budget (spent + cost e)

  head_over-append :
      (spent : ℕ) (xs ys : List PendingBlob)
      → head_over spent xs ≡ true
      → head_over spent (xs ++ ys) ≡ true
  head_over-append spent [] ys h = absurd (ground arith)
  head_over-append spent (x ∷ xs) ys h = h

  -- What the loop has done with the entries it has seen: the wanted ones are split in order into the
  -- page and what stays, which starts once the page is closed; the page keeps its bounds.
  record IsPage (seen : List PendingBlob) (l : PageLoop) : Type 0 where
    split : l.taken ++ filter (matching wanted) l.kept ≡ filter (matching wanted) seen
    others : filter (other wanted) l.kept ≡ filter (other wanted) seen
    closed : (filter (matching wanted) l.kept ≡ []) ⊎ ((l.full ≡ true) ⊎ (length l.taken ≡ max))
    bounded : length l.taken ≤ max
    spends : l.spent ≡ weigh cost l.taken
    within : (l.spent ≤ budget) ⊎ (length l.taken ≡ 1)
    stopped : l.full ≡ true → head_over l.spent (filter (matching wanted) l.kept) ≡ true
    nonempty : l.full ≡ true → 0 < length l.taken

  page_step-IsPage :
      (seen : List PendingBlob) (l : PageLoop) (e : PendingBlob)
      → IsPage seen l
      → IsPage (seen ++ e ∷ []) (page_step wanted max budget cost l e)
  unfolding page_step
  page_step-IsPage seen l e v = record {
    split = ground (
      arith,
      filter-push_in (matching wanted) seen e,
      filter-push_out (matching wanted) seen e,
      filter-push_in (matching wanted) l.kept e,
      filter-push_out (matching wanted) l.kept e,
      append_assoc l.taken (filter (matching wanted) l.kept) (e ∷ []),
      append-nil l.taken,
      append-nil (l.taken ++ e ∷ []),
    );
    others = ground (
      arith,
      filter-push_in (other wanted) seen e,
      filter-push_out (other wanted) seen e,
      filter-push_in (other wanted) l.kept e,
      filter-push_out (other wanted) l.kept e,
    );
    closed = ground (arith, filter-push_out (matching wanted) l.kept e);
    bounded = ground (arith, length-append l.taken (e ∷ []));
    spends = ground (arith, weigh-append cost l.taken (e ∷ []));
    within = ground (arith, length-append l.taken (e ∷ []));
    stopped = ground (
      arith,
      filter-push_in (matching wanted) l.kept e,
      filter-push_out (matching wanted) l.kept e,
      head_over-append l.spent (filter (matching wanted) l.kept) (e ∷ []),
    );
    nonempty = ground (arith, length-append l.taken (e ∷ []));
  }

  page_loop-IsPage :
      (seen : List PendingBlob) (l : PageLoop) (es : List PendingBlob)
      → IsPage seen l
      → IsPage (seen ++ es) (page_loop wanted max budget cost l es)
  unfolding page_loop
  page_loop-IsPage seen l [] v = rw (append-nil seen) v
  page_loop-IsPage seen l (e ∷ es) v = rw (← push-append seen e es) (
      page_loop-IsPage (seen ++ e ∷ []) (page_step wanted max budget cost l e) es
        (page_step-IsPage seen l e v))

  page_of-IsPage : (es : List PendingBlob) → IsPage es (page_of wanted max budget cost es)
  unfolding page_of
  page_of-IsPage es = page_loop-IsPage [] _ es (record {
    split = refl;
    others = refl;
    closed = inl refl;
    bounded = omega arith;
    spends = refl;
    within = inl (omega arith);
    stopped = λ h. absurd (ground arith);
    nonempty = λ h. absurd (ground arith);
  })

  -- What a page is of the list it is taken from, and of the list it leaves.
  pub record Pages (old rest page : List PendingBlob) : Type 0 where
    pub in_order : page ++ filter (matching wanted) rest ≡ filter (matching wanted) old
    pub others_stay : filter (other wanted) rest ≡ filter (other wanted) old
    pub at_most : length page ≤ max
    pub in_budget : (weigh cost page ≤ budget) ⊎ (length page ≡ 1)
    pub as_much_as_fits :
        (filter (matching wanted) rest ≡ [])
        ⊎ (length page ≡ max)
        ⊎ (head_over (weigh cost page) (filter (matching wanted) rest) ≡ true)
    pub progress : (max ≡ 0) ⊎ ((filter (matching wanted) old ≡ []) ⊎ (0 < length page))

  IsPage-Pages : (old : List PendingBlob) (l : PageLoop) → IsPage old l → Pages old l.kept l.taken
  IsPage-Pages old l v = record {
    in_order = v.split;
    others_stay = v.others;
    at_most = v.bounded;
    in_budget = ground (arith, v.spends);
    as_much_as_fits = ground (arith, v.spends);
    progress = went l.taken v.split v.closed v.nonempty;
  }
    where
      went :
          (taken : List PendingBlob)
          → taken ++ filter (matching wanted) l.kept ≡ filter (matching wanted) old
          → ((filter (matching wanted) l.kept ≡ []) ⊎ ((l.full ≡ true) ⊎ (length taken ≡ max)))
          → (l.full ≡ true → 0 < length taken)
          → (max ≡ 0) ⊎ ((filter (matching wanted) old ≡ []) ⊎ (0 < length taken))
      went [] split closed nonempty = ground arith
      went (e ∷ es) split closed nonempty = inr (inr (omega arith))

module _ (q : DeferredQueue) (s : Bytes) (wanted : Bytes → Bool) (max budget : ℕ)
    (cost : PendingBlob → ℕ) where
  -- The id and the copy say what is held now.
  abbrev pub Holds : DeferredQueue × ℕ × List PendingBlob → Type 0
  Holds (q', id, []) = (id ≡ 0) × (q'.held ≡ q.held)
  Holds (q', id, e ∷ es) =
      (id ≡ q.next_page)
      × (q'.held ≡ Dict.put ℕ_discrete id (record { subscriber_hash = s; blobs = e ∷ es }) q.held)

  Pages-nil : Pages wanted max budget cost [] [] []
  Pages-nil = record {
    in_order = refl;
    others_stay = refl;
    at_most = omega arith;
    in_budget = inl (omega arith);
    as_much_as_fits = inl refl;
    progress = inr (inl refl);
  }

  taken-queue :
      (q' : DeferredQueue) (taken : List PendingBlob)
      → let r : DeferredQueue × ℕ × List PendingBlob =
          (if is_empty taken then (q', 0, []) else (hold q' s taken, q.next_page, taken)) in
        (r.0.queue ≡ q'.queue) × (r.2 ≡ taken)
  unfolding hold
  taken-queue q' [] = (refl, refl)
  taken-queue q' (e ∷ es) = (refl, refl)

  taken-Holds :
      (m : Dict Bytes (List PendingBlob)) (taken : List PendingBlob)
      → let q' : DeferredQueue = record q { queue = m } in
        Holds (if is_empty taken then (q', 0, []) else (hold q' s taken, q.next_page, taken))
  unfolding hold
  taken-Holds m [] = (refl, refl)
  taken-Holds m (e ∷ es) = (refl, refl)

  -- With one bucket for each subscriber, a page is the first wanted entries in order, at most
  -- `max`, within the budget unless it is a single entry, and as many as that allows, at least one
  -- if there is a wanted one and `max` is not 0; unless it is empty it is held under the next id;
  -- the other entries and the other subscribers' stay as they were.
  pub take_page-Pages :
      OneBucket q
      → let r = take_page q s wanted max budget cost in
        Pages wanted max budget cost (bucket_of s q) (bucket_of s r.0) r.2
        × Holds r
        × ((j : Bytes) → bucket_of j r.0 ≡ updated (λ i. bucket_of i q) s (bucket_of s r.0) j)
  unfolding take_page bucket_of
  take_page-Pages d = elim (Option-cases (Dict.find bytes_dec s q.queue)) [
    | inl absent ↦
        rw (absent, take_page, bucket_in-absent s q.queue absent)
          (Pages-nil, (refl, refl), λ j. ground (arith, bucket_in-absent s q.queue absent))
    | inr (bucket, found) ↦
        let l = page_of wanted max budget cost bucket in
        let m = set_bucket s l.kept q.queue in
        let eq = taken-queue (record q { queue = m }) l.taken in
        rw (found, take_page, bucket_in-found s q.queue bucket found)
          (
            rw (eq.0, eq.1, bucket_in-set_bucket s q.queue d l.kept s, if_pos (bytes_dec s s) refl)
                (IsPage-Pages wanted max budget cost bucket l
                  (page_of-IsPage wanted max budget cost bucket)),
            taken-Holds m l.taken,
            λ j. rw eq.0 (
                updated_only (λ i. bucket_in i q.queue) (λ i. bucket_in i m) s j
                  (λ ne.
                    bucket_in-set_bucket s q.queue d l.kept j ∙ if_neg (bytes_dec s j) ne _ _)),
          )
  ]
