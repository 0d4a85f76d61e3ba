-- ===== src/Deferred/Flight.antt =====
-- The announce flush of rfed/src/deferred_queue.rs: which copies it hands out, and that none is in
-- flight twice.
use rfed.Base.{
  ℕ, ◌≡◌, refl, ap, subst, ◌∙◌, inl, inr, List, [], ◌∷◌, ◌++◌, map, Bytes, arith, Bool-cases, Bool,
  true, filter, not, ◌&&◌, ◌||◌, push-append, any, All, ◌==◌,
}
use rfed.Deferred.State.{PendingBlob, DeferredQueue, bucket_in, bucket_of}
use rfed.Deferred.Flush.{
  flush_filter, flush_copies, confirm, confirm_held, release, land, contains_ticket,
}
use rfed.Deferred.Drain.{delete_rows}

pub any-append :
    (t : ℕ) (xs ys : List ℕ)
    → contains_ticket t (xs ++ ys) ≡ (contains_ticket t xs || contains_ticket t ys)
any-append t [] ys = refl
any-append t (x ∷ xs) ys = ground (arith, any-append t xs ys)

contains_ticket-land :
    (t u : ℕ) (xs : List ℕ) → contains_ticket u (land t xs) ≡ (contains_ticket u xs && not (u == t))
unfolding land
contains_ticket-land t u [] = refl
contains_ticket-land t u (x ∷ xs) = ground (arith, contains_ticket-land t u xs)

contains_ticket-tickets :
    (t : ℕ) (es : List PendingBlob)
    → contains_ticket t (map (λ e. e.ticket) es) ≡ any (λ e. e.ticket == t) es
contains_ticket-tickets t [] = refl
contains_ticket-tickets t (e ∷ es) = ground (arith, contains_ticket-tickets t es)

tickets-All :
    (before : List ℕ) (es : List PendingBlob)
    → All (λ e. contains_ticket e.ticket (before ++ map (λ f. f.ticket) es) ≡ true) es
tickets-All before [] = tt
tickets-All before (e ∷ es) = (
  ground (arith, any-append e.ticket before (e.ticket ∷ map (λ f. f.ticket) es)),
  subst (λ (l : List ℕ). All (λ f. contains_ticket f.ticket l ≡ true) es)
      (push-append before e.ticket (map (λ f. f.ticket) es))
      (tickets-All (before ++ e.ticket ∷ []) es),
)

-- Once the entries a flush passes are in flight, the flush passes none.
filter-in_flight :
    (wanted : Bytes → Bool) (before extra : List ℕ) (es : List PendingBlob)
    → All
        (λ e. contains_ticket e.ticket (before ++ extra) ≡ true)
        (filter (flush_filter wanted before) es)
    → filter (flush_filter wanted (before ++ extra)) es ≡ []
unfolding flush_filter
filter-in_flight wanted before extra [] a = refl
filter-in_flight wanted before extra (e ∷ es) a =
    elim (Bool-cases (wanted e.channel_hash && not (contains_ticket e.ticket before))) [
      | inl passed ↦
          let b = rw passed at a in ground (arith, filter-in_flight wanted before extra es b.1)
      | inr skipped ↦
          let b = rw skipped at a in
          ground
            (arith, any-append e.ticket before extra, filter-in_flight wanted before extra es b)
    ]

-- A flush changes no bucket and no held page; what it returns is in flight from then on, with what
-- was before and nothing else; and the same flush made again sends nothing.
pub flush_copies-in_flight :
    (q : DeferredQueue) (s : Bytes) (wanted : Bytes → Bool)
    → let r = flush_copies q s wanted in
      (r.0.queue ≡ q.queue)
      × (r.0.held ≡ q.held)
      × ((t : ℕ)
          → contains_ticket t r.0.in_flight
            ≡ (contains_ticket t q.in_flight || any (λ e. e.ticket == t) r.1))
      × ((flush_copies r.0 s wanted).1 ≡ [])
unfolding flush_copies bucket_of
flush_copies-in_flight q s wanted =
    let copies = filter (flush_filter wanted q.in_flight) (bucket_in s q.queue) in
    (
      refl,
      refl,
      λ t. ground (
        arith,
        any-append t q.in_flight (map (λ e. e.ticket) copies),
        contains_ticket-tickets t copies,
      ),
      filter-in_flight wanted q.in_flight (map (λ e. e.ticket) copies) (bucket_in s q.queue)
          (tickets-All q.in_flight copies),
    )

confirm_held-in_flight :
    (q : DeferredQueue) (s : Bytes) (t : ℕ) → (confirm_held q s t).0.in_flight ≡ q.in_flight
unfolding confirm_held delete_rows
confirm_held-in_flight q s t = ground arith

confirm-in_flight :
    (q : DeferredQueue) (s : Bytes) (t : ℕ) → (confirm q s t).0.in_flight ≡ land t q.in_flight
unfolding confirm confirm_held delete_rows
confirm-in_flight q s t = ground arith

-- A confirmation and a release both end the flight of their ticket and of no other; a release
-- changes no bucket and no held page.
pub flight_ends :
    (q : DeferredQueue) (s : Bytes) (t u : ℕ)
    → (contains_ticket u (confirm q s t).0.in_flight
        ≡ (contains_ticket u q.in_flight && not (u == t)))
      × (contains_ticket u (release q s t).0.in_flight
          ≡ (contains_ticket u q.in_flight && not (u == t)))
      × ((release q s t).0.queue ≡ q.queue)
      × ((release q s t).0.held ≡ q.held)
unfolding release
flight_ends q s t u = (
  ap (contains_ticket u) (confirm-in_flight q s t) ∙ contains_ticket-land t u q.in_flight,
  contains_ticket-land t u q.in_flight,
  refl,
  refl,
)
