-- ===== src/Deferred/Settle.antt =====
-- Settling a page in rfed/src/deferred_queue.rs: what a page not proved brings back.
use rfed.Base.{
  ℕ, ◌≡◌, refl, sym, ap, subst, ◌∙◌, ◌≢◌, if_pos, if_neg, List, [], ◌∷◌, ◌++◌, none, some, Bytes,
  bytes_dec, ℕ_discrete, arith, Bool, true, false, filter, length, filter-append, All,
}
use rfed.Dict
use rfed.Dict.{Dict, sum_by}
use rfed.Deferred.State.{PendingBlob, HeldPage, DeferredQueue, bucket_in, bucket_of}
use rfed.Deferred.Page.{take_page, put_back, settle_page}
use rfed.Deferred.Buckets.{OneBucket}
use rfed.Deferred.Pages.{PageIds}
use rfed.Deferred.Matching.{matching, other}
use rfed.Deferred.Paging.{Pages, Holds, take_page-Pages}
use rfed.Deferred.View.{updated, bucket_in-put, updated_only}

-- A page that is not proved goes to the front of its subscriber's list, in order.
pub settle_page-unproved :
    (q : DeferredQueue) (id : ℕ) (page : HeldPage)
    → Dict.find ℕ_discrete id q.held ≡ some page
    → let s = page.subscriber_hash in
      let r = settle_page q id false in
      (r.1 ≡ some (s, length page.blobs))
      × ((j : Bytes)
          → bucket_of j r.0 ≡ updated (λ i. bucket_of i q) s (page.blobs ++ bucket_of s q) j)
      × (r.0.held ≡ Dict.remove ℕ_discrete id q.held)
unfolding settle_page put_back bucket_of
settle_page-unproved q id page found =
    rw (found, settle_page)
      (
        refl,
        λ j.
            bucket_in-put page.subscriber_hash q.queue
              (page.blobs ++ bucket_in page.subscriber_hash q.queue) j,
        refl,
      )

-- Every entry of a page is wanted.
filter-page :
    (wanted : Bytes → Bool) (page rest old : List PendingBlob)
    → page ++ rest ≡ filter (matching wanted) old
    → (filter (matching wanted) page ≡ page) × (filter (other wanted) page ≡ [])
filter-page wanted page rest old h =
    all_wanted page (subst (All Wanted) (sym h) (filter-Wanted old))
  where
    Wanted : PendingBlob → Type 0
    Wanted e = matching wanted e ≡ true

    filter-Wanted : (es : List PendingBlob) → All Wanted (filter (matching wanted) es)
    filter-Wanted [] = tt
    filter-Wanted (e ∷ es) = ground (arith, filter-Wanted es)

    all_wanted :
        (es : List PendingBlob)
        → All Wanted (es ++ rest)
        → (filter (matching wanted) es ≡ es) × (filter (other wanted) es ≡ [])
    all_wanted [] a = (refl, refl)
    all_wanted (e ∷ es) a = ground (arith, all_wanted es a.1)

-- The queue `back` holds for `s` what `q` holds, up to how the wanted entries and the others
-- interleave, and for everyone else exactly what `q` holds.
pub record Restored (wanted : Bytes → Bool) (s : Bytes) (q back : DeferredQueue) : Type 0 where
  pub wanted_back :
      filter (matching wanted) (bucket_of s back) ≡ filter (matching wanted) (bucket_of s q)
  pub others_stay : filter (other wanted) (bucket_of s back) ≡ filter (other wanted) (bucket_of s q)
  pub elsewhere :
      (j : Bytes) → bucket_of j back ≡ updated (λ i. bucket_of i q) s (bucket_of s back) j
  pub pages : (id : ℕ) → Dict.find ℕ_discrete id back.held ≡ Dict.find ℕ_discrete id q.held

module _ (q : DeferredQueue) (s : Bytes) (wanted : Bytes → Bool) (max budget : ℕ)
    (cost : PendingBlob → ℕ) (p : PageIds q) where
  settled-Restored :
      (q' : DeferredQueue) (id : ℕ) (page : List PendingBlob)
      → Pages wanted max budget cost (bucket_of s q) (bucket_of s q') page
      → Holds q s wanted max budget cost (q', id, page)
      → ((j : Bytes) → s ≢ j → bucket_of j q' ≡ bucket_of j q)
      → page ≢ []
      → Restored wanted s q (settle_page q' id false).0
  settled-Restored q' id [] v h same_elsewhere some_taken = absurd (some_taken refl)
  settled-Restored q' id (e ∷ es) v h same_elsewhere some_taken = record {
    wanted_back =
        ap (filter (matching wanted)) here
        ∙ filter-append (matching wanted) (e ∷ es) (bucket_of s q')
        ∙ ap (λ (x : List PendingBlob). x ++ filter (matching wanted) (bucket_of s q')) own.0
        ∙ v.in_order;
    others_stay =
        ap (filter (other wanted)) here
        ∙ filter-append (other wanted) (e ∷ es) (bucket_of s q')
        ∙ ap (λ (x : List PendingBlob). x ++ filter (other wanted) (bucket_of s q')) own.1
        ∙ v.others_stay;
    elsewhere = λ j.
        updated_only (λ i. bucket_of i q) (λ i. bucket_of i (settle_page q' id false).0) s j
          (λ ne. settled.1 j ∙ if_neg (bytes_dec s j) ne _ _ ∙ same_elsewhere j ne);
    pages = λ j.
        ap (Dict.find ℕ_discrete j) settled.2
        ∙ ap (λ (m : Dict ℕ HeldPage). Dict.find ℕ_discrete j (Dict.remove ℕ_discrete id m)) h.1
        ∙ unheld j;
  }
    where
      page : HeldPage
      page = record { subscriber_hash = s; blobs = e ∷ es }

      found : Dict.find ℕ_discrete id q'.held ≡ some page
      found = rw h.1 (Dict.find-put_self ℕ_discrete id page q.held)

      settled :
          ((settle_page q' id false).1 ≡ some (s, length page.blobs))
          × ((j : Bytes)
              → bucket_of j (settle_page q' id false).0
                ≡ updated (λ i. bucket_of i q') s (page.blobs ++ bucket_of s q') j)
          × ((settle_page q' id false).0.held ≡ Dict.remove ℕ_discrete id q'.held)
      settled = settle_page-unproved q' id page found

      here : bucket_of s (settle_page q' id false).0 ≡ (e ∷ es) ++ bucket_of s q'
      here = settled.1 s ∙ if_pos (bytes_dec s s) refl _ _

      own : (filter (matching wanted) (e ∷ es) ≡ e ∷ es) × (filter (other wanted) (e ∷ es) ≡ [])
      own = filter-page wanted (e ∷ es) _ (bucket_of s q) v.in_order

      fresh : Dict.find ℕ_discrete id q.held ≡ none
      fresh = p.1 id (omega (arith, h.0))

      unheld :
          (j : ℕ)
          → Dict.find ℕ_discrete j (Dict.remove ℕ_discrete id (Dict.put ℕ_discrete id page q.held))
            ≡ Dict.find ℕ_discrete j q.held
      unheld j = elim (ℕ_discrete id j) [
        | yes same_id ↦
            subst
              (λ (i : ℕ).
                Dict.find ℕ_discrete i
                  (Dict.remove ℕ_discrete id (Dict.put ℕ_discrete id page q.held))
                ≡ Dict.find ℕ_discrete i q.held)
              same_id
              (Dict.find-remove_self ℕ_discrete id (Dict.put ℕ_discrete id page q.held)
                  (Dict.put-Distinct ℕ_discrete id page q.held p.0)
                ∙ sym fresh)
        | no other_id ↦
            Dict.find-remove_ne ℕ_discrete id j (Dict.put ℕ_discrete id page q.held) other_id
            ∙ Dict.find-put_ne ℕ_discrete id j page q.held other_id
      ]

  -- With one bucket for each subscriber, and page ids distinct and issued, a page that is taken,
  -- not empty, and not proved is back as it was: the wanted entries in their order, the others in
  -- theirs, and no other subscriber or page has changed.
  pub take_page-settle_page :
      OneBucket q
      → (take_page q s wanted max budget cost).2 ≢ []
      → let r = take_page q s wanted max budget cost in
        Restored wanted s q (settle_page r.0 r.1 false).0
  take_page-settle_page d some_taken =
      let r = take_page q s wanted max budget cost in
      let taken = take_page-Pages q s wanted max budget cost d in
      settled-Restored r.0 r.1 r.2 taken.0 taken.1
        (λ j ne. taken.2 j ∙ if_neg (bytes_dec s j) ne _ _) some_taken
