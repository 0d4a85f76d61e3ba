-- ===== src/Deferred/Tests.antt =====
-- The theorems on rfed/src/deferred_queue.rs at a small queue: two subscribers, three rows.
use rfed.Base.{
  ℕ, ◌+◌, ◌≤◌, ◌≡◌, refl, ◌≢◌, List, [], ◌∷◌, length, none, Bytes, bytes_dec, same, false,
  ℕ_discrete, arith,
}
use rfed.Dict
use rfed.Dict.{Dict}
use rfed.Deferred.State.{
  PendingBlob, DeferredQueue, bucket_in, bucket_of, total_len, increment, set_bucket, push_back,
}
use rfed.Deferred.Enqueue.{
  candidates, fullest, max_by, greater, pop_front, pop_oldest_of_fullest, new_entry, enqueue,
}
use rfed.Deferred.Page.{page_step, page_loop, page_of, take_page, settle_page}
use rfed.Deferred.Flush.{take_ticket, confirm}
use rfed.Deferred.Enqueue.{Item}
use rfed.Deferred.Op.{Op, enqueues, takes_page, settles_page, evicts_expired, run}
use rfed.Deferred.Weight.{weight}
use rfed.Deferred.Load.{Row, load, read_all, read_row, number_all, number_bucket, load-IsValid}
use rfed.Deferred.Tickets.{IsValid, Fits, at_ticket, run-IsValid, confirm_once}
use rfed.Deferred.Limits.{total_len-run}
use rfed.Deferred.Admission.{EnqueueView, enqueue-EnqueueView}
use rfed.Deferred.Conserve.Expiry.{weight-counted, routed, counted}
use rfed.Deferred.Expiry.{evict_expired}
use rfed.Deferred.Paging.{Pages, Holds, take_page-Pages}
use rfed.Deferred.Settle.{Restored, take_page-settle_page}
use rfed.Deferred.Fullest.{IsFullest, pop_oldest_of_fullest-IsFullest}
use rfed.Deferred.View.{updated}

abbrev alice : Bytes
alice = 1 ∷ []

abbrev bob : Bytes
bob = 2 ∷ []

abbrev news : Bytes
news = 7 ∷ []

abbrev rows : List Row
rows =
    record { id = 1; subscriber_hash = alice; channel_hash = news; blob = 10 ∷ []; enqueued_at = 5 }
    ∷ record { id = 2; subscriber_hash = bob; channel_hash = news; blob = 11 ∷ []; enqueued_at = 6 }
    ∷ record { id = 3; subscriber_hash = bob; channel_hash = []; blob = 12 ∷ []; enqueued_at = 7 }
    ∷ []

abbrev waiting : DeferredQueue
waiting = load none rows

abbrev ops : List Op
ops =
    enqueues alice news (13 ∷ []) 2 8 4
    ∷ takes_page bob (same news) 5 100 (λ e. length e.blob)
    ∷ settles_page 1 false
    ∷ evicts_expired 9 3
    ∷ []

waiting-IsValid : IsValid waiting
waiting-IsValid = (load-IsValid none rows (omega arith)).0

load-IsValid_example : IsValid (load none rows) × (total_len (load none rows) ≡ 3)
load-IsValid_example = load-IsValid none rows (omega arith)

waiting-Fits : Fits waiting 10
unfolding load read_all number_all number_bucket push_back set_bucket increment Dict.find Dict.put
    bytes_dec ℕ_discrete
waiting-Fits = (omega arith, omega arith)

waiting-limit : waiting.global_limit ≡ 4096
unfolding load
waiting-limit = refl

total_len-run_example :
    (total_len (run waiting ops) ≤ waiting.global_limit)
    × ((run waiting ops).global_limit ≡ waiting.global_limit)
total_len-run_example =
    total_len-run waiting ops waiting-IsValid.page_ids (omega (arith, waiting-Fits))
      (omega (arith, load-IsValid_example, waiting-limit))

run-IsValid_example : IsValid (run waiting ops)
run-IsValid_example =
    run-IsValid waiting ops (omega (arith, waiting-Fits), omega (arith, waiting-Fits))
      waiting-IsValid

confirm_once_example :
    let q' = run (confirm waiting bob 2).0 ops in
    (weight (at_ticket 2) q' ≡ 0) × ((confirm q' bob 2).1 ≡ false)
unfolding load read_all number_all number_bucket read_row push_back increment Dict.find Dict.put
    confirm take_ticket bytes_dec ℕ_discrete
confirm_once_example =
    confirm_once waiting bob bob 2 ops waiting-IsValid
      (omega (arith, waiting-Fits), omega (arith, waiting-Fits)) refl

enqueue-EnqueueView_example :
    let r = enqueue waiting bob news (13 ∷ []) 2 8 4 in
    (m : Dict Bytes (List PendingBlob)) × EnqueueView waiting r.0 bob 2
      (new_entry waiting news (13 ∷ []) 8 4)
      r.1
      m
enqueue-EnqueueView_example =
    enqueue-EnqueueView waiting bob news (13 ∷ []) 2 8 4 waiting-IsValid.one_bucket

abbrev cost : PendingBlob → ℕ
cost e = length e.blob

take_page-Pages_example :
    let r = take_page waiting bob (same news) 5 100 cost in
    Pages (same news) 5 100 cost (bucket_of bob waiting) (bucket_of bob r.0) r.2
    × Holds waiting bob (same news) 5 100 cost r
    × ((j : Bytes) → bucket_of j r.0 ≡ updated (λ i. bucket_of i waiting) bob (bucket_of bob r.0) j)
take_page-Pages_example =
    take_page-Pages waiting bob (same news) 5 100 cost waiting-IsValid.one_bucket

page_taken : (take_page waiting bob (same news) 5 100 cost).2 ≢ []
unfolding load read_all number_all number_bucket read_row push_back increment Dict.find Dict.put
    take_page page_of page_loop page_step bytes_dec ℕ_discrete
page_taken h = absurd (ground arith)

take_page-settle_page_example :
    let r = take_page waiting bob (same news) 5 100 cost in
    Restored (same news) bob waiting (settle_page r.0 r.1 false).0
take_page-settle_page_example =
    take_page-settle_page waiting bob (same news) 5 100 cost waiting-IsValid.page_ids
      waiting-IsValid.one_bucket page_taken

abbrev first : PendingBlob
first = record { channel_hash = news; blob = 10 ∷ []; enqueued_at = 5; id = 1; ticket = 1 }

abbrev second : PendingBlob
second = record { channel_hash = news; blob = 11 ∷ []; enqueued_at = 6; id = 2; ticket = 2 }

abbrev third : PendingBlob
third = record { channel_hash = []; blob = 12 ∷ []; enqueued_at = 7; id = 3; ticket = 3 }

abbrev buckets : Dict Bytes (List PendingBlob)
buckets = (alice, first ∷ []) ∷ (bob, second ∷ third ∷ []) ∷ []

buckets-Distinct : Dict.Distinct bytes_dec buckets
unfolding Dict.find bytes_dec ℕ_discrete
buckets-Distinct = (refl, (refl, tt))

pop_oldest_of_fullest-IsFullest_example :
    (rest : List PendingBlob) × IsFullest buckets bob second rest
    × ((j : Bytes)
        → bucket_in j ((alice, first ∷ []) ∷ (bob, third ∷ []) ∷ [])
          ≡ updated (λ i. bucket_in i buckets) bob rest j)
unfolding pop_oldest_of_fullest candidates fullest max_by greater pop_front set_bucket Dict.find
    Dict.put bytes_dec ℕ_discrete
pop_oldest_of_fullest-IsFullest_example =
    pop_oldest_of_fullest-IsFullest buckets bob second
      ((alice, first ∷ []) ∷ (bob, third ∷ []) ∷ []) buckets-Distinct refl

weight-counted_example :
    let out = evict_expired waiting 9 3 in
    weight (routed alice news) out.0 + counted alice news out.1 ≡ weight (routed alice news) waiting
weight-counted_example = weight-counted waiting 9 3 alice news

abbrev items : List Item
items =
    record { routing_hash = news; blob = 13 ∷ []; now = 8; id = 4 }
    ∷ record { routing_hash = news; blob = 14 ∷ []; now = 8; id = 5 }
    ∷ []
