-- ===== src/Fanout/Flushes.antt =====
-- What `flush_queued` of rfed/src/fanout.rs leaves in flight, and what its counts are.
use rfed.Base.{
  ℕ, suc, ◌+◌, ◌≡◌, refl, List, [], ◌∷◌, ◌++◌, Option, Bytes, Bool, not, ◌&&◌, ◌||◌, ◌==◌, filter,
  if◌then◌else◌, length, any, arith, Bool-cases, inl, inr, ap, ◌∙◌,
}
use rfed.Session.Registry.{Sessions}
use rfed.Deferred.State.{PendingBlob, DeferredQueue}
use rfed.Deferred.Flush.{contains_ticket, flush_copies, release}
use rfed.Deferred.Flight.{flush_copies-in_flight, flight_ends}
use rfed.Fanout.Copies.{
  CopyFate, linked, proven, oversized, unsendable, is_linked, is_proven, is_oversized,
  is_unsendable, is_sent, tickets_unsent, blobs_sent, links_left, fates_of,
}
use rfed.Fanout.Sending.{AllMet, flush_loop-AllMet}
use rfed.Fanout.Flush.{
  FlushSurroundings, Flushed, nothing_flushed, Flushing, flush_loop, release_all, flush_queued,
}

-- How many copies the counts count, and how many of them were sent.
abbrev pub counted : Flushed → ℕ
counted c = c.by_link + c.by_packet + c.oversized + c.not_sent

abbrev pub sent : Flushed → ℕ
sent c = c.by_link + c.by_packet

release_all-in_flight :
    (q : DeferredQueue) (sub : Bytes) (ts : List ℕ) (t : ℕ)
    → let r = release_all q sub ts in
      (r.queue ≡ q.queue)
      × (r.held ≡ q.held)
      × (contains_ticket t r.in_flight
          ≡ (contains_ticket t q.in_flight && not (contains_ticket t ts)))
unfolding release_all
release_all-in_flight q sub [] t = (refl, refl, ground arith)
release_all-in_flight q sub (u ∷ ts) t =
    let (queue, held, flight) = release_all-in_flight (release q sub u).0 sub ts t in
    let ends = flight_ends q sub u t in
    (
      queue ∙ ends.2,
      held ∙ ends.3,
      flight
          ∙ ap (λ (b : Bool). b && not (contains_ticket t ts)) ends.1
          ∙ lands (contains_ticket t q.in_flight) t u (contains_ticket t ts),
    )
  where
    lands :
        (b : Bool) (t u : ℕ) (c : Bool)
        → ((b && not (t == u)) && not c) ≡ (b && not ((u == t) || c))
    lands b t u c = ground arith

every_copy :
    (fates : List CopyFate)
    → length (filter is_linked fates)
        + length (filter is_proven fates)
        + length (filter is_oversized fates)
        + length (filter is_unsendable fates)
      ≡ length fates
every_copy [] = omega arith
every_copy (linked ∷ fates) = omega (arith, every_copy fates)
every_copy (proven ∷ fates) = omega (arith, every_copy fates)
every_copy (oversized ∷ fates) = omega (arith, every_copy fates)
every_copy (unsendable ∷ fates) = omega (arith, every_copy fates)

length-tickets_unsent :
    (es : List PendingBlob) (fates : List CopyFate)
    → length fates ≡ length es
    → length (filter is_linked fates)
        + length (filter is_proven fates)
        + length (tickets_unsent es fates)
      ≡ length es
length-tickets_unsent [] [] h = omega arith
length-tickets_unsent [] (fate ∷ fates) h = absurd (omega (arith, h))
length-tickets_unsent (e ∷ es) [] h = absurd (omega (arith, h))
length-tickets_unsent (e ∷ es) (linked ∷ fates) h = omega (arith, h, length-tickets_unsent es fates)
length-tickets_unsent (e ∷ es) (proven ∷ fates) h = omega (arith, h, length-tickets_unsent es fates)
length-tickets_unsent (e ∷ es) (oversized ∷ fates) h =
    omega (arith, h, length-tickets_unsent es fates)
length-tickets_unsent (e ∷ es) (unsendable ∷ fates) h =
    omega (arith, h, length-tickets_unsent es fates)

length-blobs_sent :
    (es : List PendingBlob) (fates : List CopyFate)
    → length fates ≡ length es
    → length (blobs_sent es fates)
      ≡ length (filter is_linked fates) + length (filter is_proven fates)
length-blobs_sent [] [] h = omega arith
length-blobs_sent [] (fate ∷ fates) h = absurd (omega (arith, h))
length-blobs_sent (e ∷ es) [] h = absurd (omega (arith, h))
length-blobs_sent (e ∷ es) (linked ∷ fates) h = omega (arith, h, length-blobs_sent es fates)
length-blobs_sent (e ∷ es) (proven ∷ fates) h = omega (arith, h, length-blobs_sent es fates)
length-blobs_sent (e ∷ es) (oversized ∷ fates) h = omega (arith, h, length-blobs_sent es fates)
length-blobs_sent (e ∷ es) (unsendable ∷ fates) h = omega (arith, h, length-blobs_sent es fates)

shorter_left : (a b c : Bool) → (b || c) ≡ c → (b || (a || c)) ≡ (a || c)
shorter_left a b c h = ground (arith, h)

longer_left : (a b c : Bool) → (b || c) ≡ c → ((a || b) || (a || c)) ≡ (a || c)
longer_left a b c h = ground (arith, h)

tickets_unsent-copies :
    (es : List PendingBlob) (fates : List CopyFate) (t : ℕ)
    → (contains_ticket t (tickets_unsent es fates) || any (λ e. e.ticket == t) es)
      ≡ any (λ e. e.ticket == t) es
tickets_unsent-copies [] fates t = refl
tickets_unsent-copies (e ∷ es) [] t = refl
tickets_unsent-copies (e ∷ es) (fate ∷ fates) t = elim (Bool-cases (is_sent fate)) [
  | inl was_sent ↦ rw was_sent (shorter_left _ _ _ (tickets_unsent-copies es fates t))
  | inr unsent ↦ rw unsent (longer_left (e.ticket == t) _ _ (tickets_unsent-copies es fates t))
]

-- Before the first copy.
abbrev pub nothing_sent : Option Sessions → Flushing
nothing_sent links = record {
  links = links;
  on_deliver = [];
  flushed = nothing_flushed;
  unsent = [];
}

module _ (w : FlushSurroundings) where
  length-fates_of :
      (links : Option Sessions) (sub : Bytes) (es : List PendingBlob)
      → length (fates_of w links sub es).1 ≡ length es
  length-fates_of links sub [] = refl
  length-fates_of links sub (e ∷ es) = ap suc (length-fates_of (links_left w links sub e) sub es)

  hooks_of_sent :
      (blobs : List Bytes) (n : ℕ)
      → length blobs ≡ n
      → length (if w.has_hooks then [] ++ blobs else []) ≡ (if w.has_hooks then n else 0)
  hooks_of_sent blobs n h = elim (Bool-cases w.has_hooks) [
    | inl hooks ↦ rw hooks h
    | inr none_called ↦ rw none_called refl
  ]

  -- Whatever the link, the hooks, the destination and the packets come to, with how each copy is sent, in
  -- order (by a link, or else in a packet that fits, to a known destination, with a receipt, or else
  -- not, as too large or for another reason): the counts by link, by packet, too large and not sent are
  -- each how many copies went so; the unsent tickets are exactly those of the copies that were not
  -- sent; a deliver hook is called for each copy sent, in order, if the registry of hooks can be locked;
  -- the links are what the pushes left. The flush changes no bucket and no held page, counts each
  -- copy once, and leaves in flight what was in flight or was copied, less the unsent tickets.
  pub flush_queued-Flushed :
      (links : Option Sessions) (q : DeferredQueue) (sub : Bytes) (wanted : Bytes → Bool)
      → let copies = (flush_copies q sub wanted).1 in
        let r = flush_queued w links q sub wanted in
        AllMet w (nothing_sent links) r.1 copies (fates_of w links sub copies)
        × (r.0.queue ≡ q.queue)
        × (r.0.held ≡ q.held)
        × (counted r.1.flushed ≡ length copies)
        × (sent r.1.flushed + length r.1.unsent ≡ length copies)
        × (length r.1.on_deliver ≡ (if w.has_hooks then sent r.1.flushed else 0))
        × ((t : ℕ)
            → (contains_ticket t r.1.unsent || any (λ e. e.ticket == t) copies)
              ≡ any (λ e. e.ticket == t) copies)
        × ((t : ℕ)
            → contains_ticket t r.0.in_flight ≡ (
                (contains_ticket t q.in_flight || any (λ e. e.ticket == t) copies)
                && not (contains_ticket t r.1.unsent)))
  unfolding flush_queued
  flush_queued-Flushed links q sub wanted =
      let (q', copies) = flush_copies q sub wanted in
      let start = nothing_sent links in
      let m = flush_loop-AllMet w sub copies start in
      let fates = (fates_of w links sub copies).1 in
      let same_length = length-fates_of links sub copies in
      let unsent = (flush_loop w sub start copies).unsent in
      let flights = flush_copies-in_flight q sub wanted in
      (
        m,
        (release_all-in_flight q' sub unsent 0).0 ∙ flights.0,
        (release_all-in_flight q' sub unsent 0).1 ∙ flights.1,
        omega
            (arith, m.by_link, m.by_packet, m.oversized, m.not_sent, every_copy fates, same_length),
        omega (
          arith,
          m.by_link,
          m.by_packet,
          ap length m.unsent,
          length-tickets_unsent copies fates same_length,
        ),
        ap length m.hooks
            ∙ hooks_of_sent (blobs_sent copies fates) _
                (omega (arith, m.by_link, m.by_packet, length-blobs_sent copies fates same_length)),
        λ t.
            ap (λ (x : List ℕ). contains_ticket t x || any (λ e. e.ticket == t) copies) m.unsent
            ∙ tickets_unsent-copies copies fates t,
        λ t.
            (release_all-in_flight q' sub unsent t).2
            ∙ ap (λ (b : Bool). b && not (contains_ticket t unsent)) (flights.2 t),
      )
