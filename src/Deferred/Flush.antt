-- ===== src/Deferred/Flush.antt =====
-- `flush_copies`, `confirm` and `release` of rfed/src/deferred_queue.rs: the announce flush.
use rfed.Base.{
  ℕ, List, [], ◌∷◌, ◌++◌, Option, none, some, Bytes, bytes_dec, same, Bool, true, false, not, ◌&&◌,
  ◌==◌, if◌then◌else◌, any, filter, map,
}
use rfed.Dict
use rfed.Dict.{Dict}
use rfed.Deferred.State.{PendingBlob, HeldPage, DeferredQueue, set_bucket, bucket_of}
use rfed.Deferred.Drain.{delete_rows}

abbrev pub contains_ticket : ℕ → List ℕ → Bool
contains_ticket t = any (λ u. u == t)

unfoldable pub flush_filter : (Bytes → Bool) → List ℕ → PendingBlob → Bool
flush_filter wanted in_flight e = wanted e.channel_hash && not (contains_ticket e.ticket in_flight)

unfoldable pub flush_copies :
    DeferredQueue → Bytes → (Bytes → Bool) → DeferredQueue × List PendingBlob
unfolding bucket_of
flush_copies q s wanted =
    let copies = filter (flush_filter wanted q.in_flight) (bucket_of s q) in
    (record q { in_flight = q.in_flight ++ map (λ e. e.ticket) copies }, copies)

-- `HashSet::remove`.
unfoldable pub land : ℕ → List ℕ → List ℕ
land t = filter (λ u. not (u == t))

abbrev pub cons_rest :
    PendingBlob → Option (PendingBlob × List PendingBlob) → Option (PendingBlob × List PendingBlob)
cons_rest e none = none
cons_rest e (some (f, rest)) = some (f, e ∷ rest)

-- The first entry with the ticket, and the others: `position` and `remove`.
unfoldable pub take_ticket : ℕ → List PendingBlob → Option (PendingBlob × List PendingBlob)
take_ticket t [] = none
take_ticket t (e ∷ es) = if e.ticket == t then some (e, es) else cons_rest e (take_ticket t es)

abbrev pub cons_page :
    ℕ × HeldPage → Option (PendingBlob × Dict ℕ HeldPage) → Option (PendingBlob × Dict ℕ HeldPage)
cons_page p none = none
cons_page p (some (e, rest)) = some (e, p ∷ rest)

abbrev pub in_page :
    ℕ
    → HeldPage
    → Dict ℕ HeldPage
    → Option (PendingBlob × List PendingBlob)
    → Option (PendingBlob × Dict ℕ HeldPage)
    → Option (PendingBlob × Dict ℕ HeldPage)
in_page id page pages none later = cons_page (id, page) later
in_page id page pages (some (e, blobs)) later =
    some (e, (id, record page { blobs = blobs }) ∷ pages)

-- The subscriber's first held page that has the ticket loses it.
unfoldable pub take_held : Bytes → ℕ → Dict ℕ HeldPage → Option (PendingBlob × Dict ℕ HeldPage)
unfolding take_ticket
take_held s t [] = none
take_held s t ((id, page) ∷ pages) =
    let later = take_held s t pages in
    if same page.subscriber_hash s
    then in_page id page pages (take_ticket t page.blobs) later
    else cons_page (id, page) later

unfoldable pub confirm_held : DeferredQueue → Bytes → ℕ → DeferredQueue × Bool
confirm_held q s t = elim (take_held s t q.held) [
  | none ↦ (q, false)
  | some (e, pages) ↦ (delete_rows (record q { held = pages }) (e ∷ []), true)
]

-- The bucket after the removal is dropped if it is empty, whether or not it held the entry.
unfoldable pub confirm : DeferredQueue → Bytes → ℕ → DeferredQueue × Bool
confirm q s t =
    let q' : DeferredQueue = record q { in_flight = land t q.in_flight } in
    elim (Dict.find bytes_dec s q.queue) [
      | none ↦ confirm_held q' s t
      | some bucket ↦ elim (take_ticket t bucket) [
        | none ↦ confirm_held (record q' { queue = set_bucket s bucket q.queue }) s t
        | some (e, rest) ↦
            (delete_rows (record q' { queue = set_bucket s rest q.queue }) (e ∷ []), true)
      ]
    ]

unfoldable pub release : DeferredQueue → Bytes → ℕ → DeferredQueue × Bool
unfolding bucket_of
release q s t =
    (record q { in_flight = land t q.in_flight }, any (λ e. e.ticket == t) (bucket_of s q))
