-- ===== src/Deferred/Conserve/Flush.antt =====
-- The announce flush of rfed/src/deferred_queue.rs: only a confirmed entry leaves.
use rfed.Base.{
  ℕ, ◌+◌, ◌≡◌, refl, inl, inr, List, [], ◌∷◌, some, Bytes, bytes_dec, same, same_eq, arith,
  Option-cases, Bool-cases, Bool, true, false, ◌==◌,
}
use rfed.Dict
use rfed.Dict.{Dict, sum_by}
use rfed.Deferred.State.{PendingBlob, HeldPage, DeferredQueue, set_bucket}
use rfed.Deferred.Flush.{land, take_ticket, take_held, confirm_held, confirm}
use rfed.Deferred.Weight.{weigh, weigh_held, weight, weigh_queue-set_bucket}
use rfed.Deferred.Conserve.Drain.{weight-delete_rows}

pub take_ticket-eq :
    (t : ℕ) (es : List PendingBlob) (e : PendingBlob) (rest : List PendingBlob)
    → take_ticket t es ≡ some (e, rest)
    → (e.ticket ≡ t) × ((f : PendingBlob → ℕ) → weigh f rest + f e ≡ weigh f es)
unfolding take_ticket
take_ticket-eq t [] e rest h = absurd (ground arith)
take_ticket-eq t (x ∷ xs) e rest h = elim (Bool-cases (x.ticket == t)) [
  | inl hit ↦ (ground arith, λ f. ground arith)
  | inr miss ↦ elim (Option-cases (take_ticket t xs)) [
    | inl none' ↦ absurd (ground arith)
    | inr ((e', rest'), found) ↦
        let ih = take_ticket-eq t xs e' rest' found in (ground arith, λ f. ground (arith, ih.1 f))
  ]
]

pub take_held-eq :
    (s : Bytes) (t : ℕ) (pages : Dict ℕ HeldPage) (e : PendingBlob) (rest : Dict ℕ HeldPage)
    → take_held s t pages ≡ some (e, rest)
    → (e.ticket ≡ t)
      × ((w : Bytes → PendingBlob → ℕ) → weigh_held w rest + w s e ≡ weigh_held w pages)
unfolding take_held
take_held-eq s t [] e rest h = absurd (ground arith)
take_held-eq s t ((id, page) ∷ pages) e rest h = elim (Option-cases (take_held s t pages)) [
  | inl later ↦ elim (Bool-cases (same page.subscriber_hash s)) [
    | inl own ↦ elim (Option-cases (take_ticket t page.blobs)) [
      | inl miss ↦ absurd (ground arith)
      | inr ((x, blobs), hit) ↦ here own x blobs hit
    ]
    | inr other ↦ absurd (ground arith)
  ]
  | inr ((x, pages'), later) ↦ elim (Bool-cases (same page.subscriber_hash s)) [
    | inl own ↦ elim (Option-cases (take_ticket t page.blobs)) [
      | inl miss ↦
          let ih = take_held-eq s t pages x pages' later in
          (ground (arith, ih.0), λ w. ground (arith, ih.1 w))
      | inr ((y, blobs), hit) ↦ here own y blobs hit
    ]
    | inr other ↦
        let ih = take_held-eq s t pages x pages' later in
        (ground (arith, ih.0), λ w. ground (arith, ih.1 w))
  ]
]
  where
    here :
        same page.subscriber_hash s ≡ true
        → (x : PendingBlob) (blobs : List PendingBlob) → take_ticket t page.blobs ≡ some (x, blobs)
        → (e.ticket ≡ t)
          × ((w : Bytes → PendingBlob → ℕ)
              → weigh_held w rest + w s e ≡ weigh_held w ((id, page) ∷ pages))
    here own x blobs hit =
        let eq = take_ticket-eq t page.blobs x blobs hit in
        (ground (arith, eq.0), λ w. ground (arith, eq.1 (w s), same_eq page.subscriber_hash s own))

-- What a confirmation took out of what was stored.
abbrev pub Takes : DeferredQueue → DeferredQueue → Bytes → ℕ → Bool → Type 0
Takes q q' s t true =
    (e : PendingBlob) × (e.ticket ≡ t)
    × ((w : Bytes → PendingBlob → ℕ) → weight w q' + w s e ≡ weight w q)
Takes q q' s t false = (w : Bytes → PendingBlob → ℕ) → weight w q' ≡ weight w q

confirm_held-Takes :
    (q p : DeferredQueue) (s : Bytes) (t : ℕ)
    → ((w : Bytes → PendingBlob → ℕ) → weight w p ≡ weight w q)
    → Takes q (confirm_held p s t).0 s t (confirm_held p s t).1
unfolding confirm_held
confirm_held-Takes q p s t same_weight = elim (Option-cases (take_held s t p.held)) [
  | inl miss ↦ rw (miss, confirm_held) same_weight
  | inr ((e, pages), hit) ↦
      let eq = take_held-eq s t p.held e pages hit in
      rw (hit, confirm_held)
        (
          e,
          eq.0,
          λ w. omega (
            arith,
            weight-delete_rows w (record p { held = pages }) (e ∷ []),
            eq.1 w,
            same_weight w,
          ),
        )
]

-- A confirmation that says so took one entry with the ticket, of the named subscriber, out of what
-- is stored, bucket or held page; one that does not left what is stored.
pub confirm-Takes :
    (q : DeferredQueue) (s : Bytes) (t : ℕ) → Takes q (confirm q s t).0 s t (confirm q s t).1
unfolding confirm
confirm-Takes q s t = elim (Option-cases (Dict.find bytes_dec s q.queue)) [
  | inl absent ↦
      rw (absent, confirm)
        (confirm_held-Takes q (record q { in_flight = land t q.in_flight }) s t (λ w. refl))
  | inr (bucket, found) ↦ elim (Option-cases (take_ticket t bucket)) [
    | inl miss ↦
        rw (found, confirm, miss)
          (confirm_held-Takes q
            (record q { in_flight = land t q.in_flight; queue = set_bucket s bucket q.queue }) s t
            (λ w. omega (arith, weigh_queue-set_bucket w s bucket bucket q.queue found)))
    | inr ((e, rest), hit) ↦
        let eq = take_ticket-eq t bucket e rest hit in
        rw (found, confirm, hit)
          (
            e,
            eq.0,
            λ w. omega (
              arith,
              weight-delete_rows w
                  (record q { in_flight = land t q.in_flight; queue = set_bucket s rest q.queue })
                  (e ∷ []),
              weigh_queue-set_bucket w s bucket rest q.queue found,
              eq.1 (w s),
            ),
          )
  ]
]
