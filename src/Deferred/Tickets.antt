-- ===== src/Deferred/Tickets.antt =====
-- Tickets of the deferred queue (rfed/src/deferred_queue.rs): each names one stored entry, and none
-- is issued twice.
use rfed.Base.{
  ℕ, suc, ◌+◌, ◌^◌, ◌≤◌, ◌<◌, ◌≡◌, refl, ◌∙◌, ◌⊎◌, inl, inr, List, [], ◌∷◌, Bytes, arith,
  Option-cases, Bool, true, false, if◌then◌else◌, length, ◌==◌,
}
use rfed.Deferred.State.{PendingBlob, DeferredQueue, increment}
use rfed.Deferred.Enqueue.{make_room, admit, enqueue, new_entry}
use rfed.Deferred.Op.{Op, enqueues, confirms, step, run}
use rfed.Deferred.Weight.{weight}
use rfed.Deferred.Pages.{PageIds, step-PageIds, increment-suc}
use rfed.Deferred.Buckets.{OneBucket, step-OneBucket}
use rfed.Deferred.Frame.{step-Frame}
use rfed.Deferred.Conserve.Flush.{Takes, confirm-Takes}
use rfed.Deferred.Steps.{weight-step-le}
use rfed.Deferred.Flush.{confirm}

-- Weight 1 on the entries with the ticket: how often it is stored.
abbrev pub at_ticket : ℕ → Bytes → PendingBlob → ℕ
at_ticket t s e = if e.ticket == t then 1 else 0

pub record HasTickets (q : DeferredQueue) : Type 0 where
  pub once : (t : ℕ) → weight (at_ticket t) q ≤ 1
  pub issued : (t : ℕ) → q.next_ticket ≤ t → weight (at_ticket t) q ≡ 0

pub record IsValid (q : DeferredQueue) : Type 0 where
  pub one_bucket : OneBucket q
  pub page_ids : PageIds q
  pub tickets : HasTickets q

-- The counters have `n` operations to go before they would wrap.
abbrev pub Fits : DeferredQueue → ℕ → Type 0
Fits q n = (q.next_page + n < 2 ^ 64) × (q.next_ticket + n < 2 ^ 64)

enqueue-cases :
    (q : DeferredQueue) (s channel blob : Bytes) (limit now id : ℕ)
    → let r = enqueue q s channel blob limit now id in
      (r.0 ≡ q) ⊎ (r.0.next_ticket ≡ increment q.next_ticket)
unfolding enqueue admit
enqueue-cases q s channel blob limit now id = elim (Option-cases (make_room q s limit)) [
  | inl full ↦ rw (full, enqueue) (inl refl)
  | inr (room, found) ↦ rw (found, enqueue) (inr refl)
]

shrink-HasTickets :
    (q q' : DeferredQueue)
    → HasTickets q
    → ((t : ℕ) → weight (at_ticket t) q' ≤ weight (at_ticket t) q)
    → q.next_ticket ≤ q'.next_ticket
    → HasTickets q'
shrink-HasTickets q q' v less up = record {
  once = λ t. omega (arith, v.once t, less t);
  issued = λ t h. omega (arith, v.issued t (omega arith), less t);
}

grow-HasTickets :
    (q q' : DeferredQueue)
    → HasTickets q
    → ((t : ℕ)
        → weight (at_ticket t) q' ≤ weight (at_ticket t) q + (if q.next_ticket == t then 1 else 0))
    → q'.next_ticket ≡ suc q.next_ticket
    → HasTickets q'
grow-HasTickets q q' v more up = record {
  once = λ t. ground (arith, v.once t, v.issued t, more t);
  issued = λ t h. ground (arith, v.issued t (omega arith), more t);
}

next_ticket-le :
    (q : DeferredQueue) (op : Op)
    → q.next_ticket + 1 < 2 ^ 64
    → (q.next_ticket ≤ (step q op).next_ticket) × ((step q op).next_ticket ≤ q.next_ticket + 1)
next_ticket-le q op fits = (
  ground (arith, step-Frame q op, increment-suc q.next_ticket),
  ground (arith, step-Frame q op, increment-suc q.next_ticket),
)

next_page-le :
    (q : DeferredQueue) (op : Op)
    → q.next_page + 1 < 2 ^ 64
    → (step q op).next_page ≤ q.next_page + 1
next_page-le q op fits = ground (arith, step-Frame q op, increment-suc q.next_page)

step-HasTickets :
    (q : DeferredQueue) (op : Op)
    → q.next_ticket + 1 < 2 ^ 64
    → PageIds q
    → HasTickets q
    → HasTickets (step q op)
unfolding step new_entry
step-HasTickets q (enqueues s channel blob limit now id) fits p v =
    elim (enqueue-cases q s channel blob limit now id) [
      | inl same_queue ↦ rw same_queue v
      | inr up ↦
          grow-HasTickets q _ v
            (λ t. weight-step-le (at_ticket t) q (enqueues s channel blob limit now id) p)
            (up ∙ increment-suc q.next_ticket fits)
    ]
step-HasTickets q op fits p v =
    shrink-HasTickets q (step q op) v (λ t. omega (arith, weight-step-le (at_ticket t) q op p))
      (next_ticket-le q op fits).0

-- Every operation keeps one bucket for a subscriber, distinct page ids and distinct tickets.
pub step-IsValid : (q : DeferredQueue) (op : Op) → Fits q 1 → IsValid q → IsValid (step q op)
step-IsValid q op fits v = record {
  one_bucket = step-OneBucket q op v.one_bucket;
  page_ids = step-PageIds q op fits.0 v.page_ids;
  tickets = step-HasTickets q op fits.1 v.page_ids v.tickets;
}

Fits-step : (q : DeferredQueue) (op : Op) (n : ℕ) → Fits q (suc n) → Fits (step q op) n
Fits-step q op n fits = (
  omega (arith, next_page-le q op (omega arith)),
  omega (arith, (next_ticket-le q op (omega arith)).1),
)

-- From a valid queue whose counters do not reach 2 ^ 64, any run of operations leads to a valid
-- queue: one bucket for each subscriber, page ids that are distinct and issued, and tickets that are
-- issued and each stored at most once.
pub run-IsValid :
    (q : DeferredQueue) (ops : List Op) → Fits q (length ops) → IsValid q → IsValid (run q ops)
unfolding run
run-IsValid q [] fits v = v
run-IsValid q (op ∷ ops) fits v =
    run-IsValid (step q op) ops (Fits-step q op (length ops) fits)
      (step-IsValid q op (omega arith, omega arith) v)

step-gone :
    (q : DeferredQueue) (op : Op) (t : ℕ)
    → PageIds q
    → t < q.next_ticket
    → weight (at_ticket t) q ≡ 0
    → weight (at_ticket t) (step q op) ≡ 0
unfolding new_entry
step-gone q (enqueues s channel blob limit now id) t v old gone =
    ground (arith, weight-step-le (at_ticket t) q (enqueues s channel blob limit now id) v)
step-gone q op t v old gone = omega (arith, weight-step-le (at_ticket t) q op v)

-- A ticket that was issued and is not stored is never stored again.
pub run-gone :
    (q : DeferredQueue) (ops : List Op) (t : ℕ)
    → IsValid q
    → Fits q (length ops)
    → t < q.next_ticket
    → weight (at_ticket t) q ≡ 0
    → weight (at_ticket t) (run q ops) ≡ 0
unfolding run
run-gone q [] t v fits old gone = gone
run-gone q (op ∷ ops) t v fits old gone =
    run-gone (step q op) ops t (step-IsValid q op (omega arith, omega arith) v)
      (Fits-step q op (length ops) fits) (omega (arith, next_ticket-le q op (omega arith)))
      (step-gone q op t v.page_ids old gone)

Takes-gone :
    (q q' : DeferredQueue) (s : Bytes) (t : ℕ) (b : Bool)
    → HasTickets q
    → Takes q q' s t b
    → b ≡ true
    → (weight (at_ticket t) q' ≡ 0) × (t < q.next_ticket)
Takes-gone q q' s t true v h e = (
  ground (arith, v.once t, h.2 (at_ticket t), h.1),
  ground (arith, v.issued t, h.2 (at_ticket t), h.1),
)
Takes-gone q q' s t false v h e = absurd (ground arith)

Takes-false :
    (q q' : DeferredQueue) (s : Bytes) (t : ℕ) (b : Bool)
    → weight (at_ticket t) q ≡ 0
    → Takes q q' s t b
    → b ≡ false
Takes-false q q' s t true gone h = absurd (ground (arith, h.2 (at_ticket t), h.1))
Takes-false q q' s t false gone h = refl

-- A confirmation counts once: from a valid queue whose counters do not reach 2 ^ 64, after a
-- confirmation that found its ticket and whatever operations follow, the ticket is stored nowhere,
-- in no bucket and in no held page, and another confirmation of it finds nothing.
pub confirm_once :
    (q : DeferredQueue) (s s' : Bytes) (t : ℕ) (ops : List Op)
    → IsValid q
    → Fits q (suc (length ops))
    → (confirm q s t).1 ≡ true
    → let q' = run (confirm q s t).0 ops in
      (weight (at_ticket t) q' ≡ 0) × ((confirm q' s' t).1 ≡ false)
unfolding step
confirm_once q s s' t ops v fits done =
    let op = confirms s t in
    let sent : DeferredQueue = (confirm q s t).0 in
    let later : DeferredQueue = run sent ops in
    let out = Takes-gone q sent s t (confirm q s t).1 v.tickets (confirm-Takes q s t) done in
    let up : q.next_ticket ≤ sent.next_ticket = (next_ticket-le q op (omega arith)).0 in
    let gone : weight (at_ticket t) later ≡ 0 =
      run-gone sent ops t (step-IsValid q op (omega arith, omega arith) v)
        (Fits-step q op (length ops) fits) (omega (arith, out.1)) out.0 in
    (
      gone,
      Takes-false later (confirm later s' t).0 s' t (confirm later s' t).1 gone
          (confirm-Takes later s' t),
    )
