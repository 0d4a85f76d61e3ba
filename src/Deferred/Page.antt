-- ===== src/Deferred/Page.antt =====
-- `take_page` and `settle_page` of rfed/src/deferred_queue.rs: a pull's page, held until proved.
-- What a page has spent of its budget is not wrapped: the budget of its caller is far below 2 ^ 64.
use rfed.Base.{
  ℕ, ◌+◌, List, [], ◌∷◌, ◌++◌, Option, none, some, Bytes, bytes_dec, length, Bool, true, false, not,
  ◌&&◌, ◌||◌, ltb, leb, if◌then◌else◌, is_empty, ℕ_discrete,
}
use rfed.Dict
use rfed.Deferred.State.{PendingBlob, HeldPage, DeferredQueue, increment, set_bucket, bucket_of}
use rfed.Deferred.Drain.{delete_rows}

-- The loop of `take_page`.
pub record PageLoop : Type 0 where
  pub taken : List PendingBlob
  pub kept : List PendingBlob
  pub spent : ℕ
  pub full : Bool

module _ (wanted : Bytes → Bool) (max budget : ℕ) (cost : PendingBlob → ℕ) where
  unfoldable pub page_step : PageLoop → PendingBlob → PageLoop
  page_step l e =
      if not l.full && (ltb (length l.taken) max && wanted e.channel_hash)
      then (if is_empty l.taken || leb (l.spent + cost e) budget
          then record l { taken = l.taken ++ e ∷ []; spent = l.spent + cost e }
          else record l { kept = l.kept ++ e ∷ []; full = true })
      else record l { kept = l.kept ++ e ∷ [] }

  unfoldable pub page_loop : PageLoop → List PendingBlob → PageLoop
  page_loop l [] = l
  page_loop l (e ∷ es) = page_loop (page_step l e) es

  unfoldable pub page_of : List PendingBlob → PageLoop
  page_of = page_loop (record { taken = []; kept = []; spent = 0; full = false })

unfoldable pub hold : DeferredQueue → Bytes → List PendingBlob → DeferredQueue
hold q s taken = record q {
  held = Dict.put ℕ_discrete q.next_page (record { subscriber_hash = s; blobs = taken }) q.held;
  next_page = increment q.next_page;
}

-- The page's id, 0 for an empty page, and a copy of its blobs.
unfoldable pub take_page :
    DeferredQueue
    → Bytes
    → (Bytes → Bool)
    → ℕ
    → ℕ
    → (PendingBlob → ℕ)
    → DeferredQueue × ℕ × List PendingBlob
take_page q s wanted max budget cost = elim (Dict.find bytes_dec s q.queue) [
  | none ↦ (q, 0, [])
  | some bucket ↦
      let l = page_of wanted max budget cost bucket in
      let q' : DeferredQueue = record q { queue = set_bucket s l.kept q.queue } in
      if is_empty l.taken then (q', 0, []) else (hold q' s l.taken, q.next_page, l.taken)
]

-- `entry(subscriber).or_default()`, then each blob pushed to the front, the last one first.
unfoldable pub put_back : DeferredQueue → HeldPage → DeferredQueue
put_back q page = record q {
  queue =
      Dict.put bytes_dec page.subscriber_hash (page.blobs ++ bucket_of page.subscriber_hash q)
        q.queue;
}

unfoldable pub settle_page : DeferredQueue → ℕ → Bool → DeferredQueue × Option (Bytes × ℕ)
settle_page q id proved = elim (Dict.find ℕ_discrete id q.held) [
  | none ↦ (q, none)
  | some page ↦
      let q' : DeferredQueue = record q { held = Dict.remove ℕ_discrete id q.held } in
      (
        if proved then delete_rows q' page.blobs else put_back q' page,
        some (page.subscriber_hash, length page.blobs),
      )
]
