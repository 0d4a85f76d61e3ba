-- ===== src/Deferred/Conserve/Page.antt =====
-- The pages of rfed/src/deferred_queue.rs: taken, they stay stored; settled, they go or come back.
use rfed.Base.{
  ℕ, ◌+◌, ◌≡◌, refl, inl, inr, List, [], ◌∷◌, ◌++◌, none, some, Bytes, bytes_dec, ℕ_discrete, arith,
  Option-cases, Bool, true, false, if◌then◌else◌, is_empty,
}
use rfed.Dict
use rfed.Dict.{Dict, sum_by}
use rfed.Deferred.State.{PendingBlob, HeldPage, DeferredQueue, set_bucket, bucket_in, bucket_of}
use rfed.Deferred.Page.{
  PageLoop, page_step, page_loop, page_of, hold, take_page, put_back, settle_page,
}
use rfed.Deferred.Weight.{weigh, weigh-append, weigh_held, weight, weigh_queue-set_bucket}
use rfed.Deferred.Conserve.Drain.{weight-delete_rows}

module _ (w : Bytes → PendingBlob → ℕ) where
  module _ (s : Bytes) (wanted : Bytes → Bool) (max budget : ℕ) (cost : PendingBlob → ℕ) where
    weigh-page_step :
        (l : PageLoop) (e : PendingBlob)
        → let l' = page_step wanted max budget cost l e in
          weigh (w s) l'.taken + weigh (w s) l'.kept
          ≡ weigh (w s) l.taken + weigh (w s) l.kept + w s e
    unfolding page_step
    weigh-page_step l e =
        ground (arith, weigh-append (w s) l.taken (e ∷ []), weigh-append (w s) l.kept (e ∷ []))

    weigh-page_loop :
        (l : PageLoop) (es : List PendingBlob)
        → let l' = page_loop wanted max budget cost l es in
          weigh (w s) l'.taken + weigh (w s) l'.kept
          ≡ weigh (w s) l.taken + weigh (w s) l.kept + weigh (w s) es
    unfolding page_loop
    weigh-page_loop l [] = omega arith
    weigh-page_loop l (e ∷ es) =
        omega
          (arith, weigh-page_loop (page_step wanted max budget cost l e) es, weigh-page_step l e)

    pub weigh-page_of :
        (es : List PendingBlob)
        → let l = page_of wanted max budget cost es in
          weigh (w s) l.taken + weigh (w s) l.kept ≡ weigh (w s) es
    unfolding page_of
    weigh-page_of es =
        omega
          (arith, weigh-page_loop (record { taken = []; kept = []; spent = 0; full = false }) es)

    weight-hold :
        (q : DeferredQueue) (taken : List PendingBlob)
        → Dict.find ℕ_discrete q.next_page q.held ≡ none
        → weight w (hold q s taken) ≡ weight w q + weigh (w s) taken
    unfolding hold
    weight-hold q taken h = omega (
      arith,
      Dict.sum_by-put_new ℕ_discrete (λ _ page. weigh (w page.subscriber_hash) page.blobs)
          q.next_page (record { subscriber_hash = s; blobs = taken }) q.held h,
    )

    weight-taken :
        (q : DeferredQueue) (old taken kept : List PendingBlob)
        → Dict.find bytes_dec s q.queue ≡ some old
        → Dict.find ℕ_discrete q.next_page q.held ≡ none
        → weigh (w s) taken + weigh (w s) kept ≡ weigh (w s) old
        → let q' : DeferredQueue = record q { queue = set_bucket s kept q.queue } in
          let r : DeferredQueue × ℕ × List PendingBlob =
            (if is_empty taken then (q', 0, []) else (hold q' s taken, q.next_page, taken)) in
          weight w r.0 ≡ weight w q
    weight-taken q old [] kept found free split =
        omega (arith, weigh_queue-set_bucket w s old kept q.queue found)
    weight-taken q old (e ∷ es) kept found free split = omega (
      arith,
      weigh_queue-set_bucket w s old kept q.queue found,
      weight-hold (record q { queue = set_bucket s kept q.queue }) (e ∷ es) free,
    )

    pub weight-take_page :
        (q : DeferredQueue)
        → Dict.find ℕ_discrete q.next_page q.held ≡ none
        → weight w (take_page q s wanted max budget cost).0 ≡ weight w q
    unfolding take_page
    weight-take_page q free = elim (Option-cases (Dict.find bytes_dec s q.queue)) [
      | inl absent ↦ rw (absent, take_page) refl
      | inr (bucket, found) ↦
          rw (found, take_page)
            (let l = page_of wanted max budget cost bucket in
              weight-taken q bucket l.taken l.kept found free (weigh-page_of bucket))
    ]

  pub weight-put_back :
      (q : DeferredQueue) (page : HeldPage)
      → weight w (put_back q page) ≡ weight w q + weigh (w page.subscriber_hash) page.blobs
  unfolding put_back bucket_of
  weight-put_back q page = elim (Option-cases (Dict.find bytes_dec page.subscriber_hash q.queue)) [
    | inl absent ↦
        rw (absent, bucket_in)
          (omega (
            arith,
            weigh-append (w page.subscriber_hash) page.blobs [],
            Dict.sum_by-put_new bytes_dec (λ s bucket. weigh (w s) bucket) page.subscriber_hash
                (page.blobs ++ []) q.queue absent,
          ))
    | inr (bucket, found) ↦
        rw (found, bucket_in)
          (omega (
            arith,
            weigh-append (w page.subscriber_hash) page.blobs bucket,
            Dict.sum_by-put bytes_dec (λ s bucket. weigh (w s) bucket) page.subscriber_hash
                (page.blobs ++ bucket) bucket q.queue found,
          ))
  ]

  pub weigh_held-remove :
      (id : ℕ) (page : HeldPage) (held : Dict ℕ HeldPage)
      → Dict.find ℕ_discrete id held ≡ some page
      → weigh_held w (Dict.remove ℕ_discrete id held) + weigh (w page.subscriber_hash) page.blobs
        ≡ weigh_held w held
  weigh_held-remove id page held found =
      Dict.sum_by-remove ℕ_discrete (λ _ page. weigh (w page.subscriber_hash) page.blobs) id page
        held found

  -- Not proved, a page loses nothing; proved, it takes its own entries along.
  pub weight-settle_page_unproved :
      (q : DeferredQueue) (id : ℕ) → weight w (settle_page q id false).0 ≡ weight w q
  unfolding settle_page
  weight-settle_page_unproved q id = elim (Option-cases (Dict.find ℕ_discrete id q.held)) [
    | inl absent ↦ rw (absent, settle_page) refl
    | inr (page, found) ↦
        rw (found, settle_page)
          (omega (
            arith,
            weight-put_back (record q { held = Dict.remove ℕ_discrete id q.held }) page,
            weigh_held-remove id page q.held found,
          ))
  ]

  pub weight-settle_page_proved :
      (q : DeferredQueue) (id : ℕ) (page : HeldPage)
      → Dict.find ℕ_discrete id q.held ≡ some page
      → weight w (settle_page q id true).0 + weigh (w page.subscriber_hash) page.blobs ≡ weight w q
  unfolding settle_page
  weight-settle_page_proved q id page found =
      rw (found, settle_page)
        (omega (
          arith,
          weight-delete_rows w (record q { held = Dict.remove ℕ_discrete id q.held }) page.blobs,
          weigh_held-remove id page q.held found,
        ))
