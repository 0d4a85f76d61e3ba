-- ===== src/Deferred/Pages.antt =====
-- The held pages of the deferred queue (rfed/src/deferred_queue.rs) and their ids.
use rfed.Base.{
  ℕ, suc, ◌+◌, ◌^◌, ◌≤◌, ◌<◌, ◌≡◌, refl, ◌∙◌, inl, inr, List, [], ◌∷◌, none, some, Bytes, bytes_dec,
  ℕ_discrete, arith, Option-cases, Bool-cases, Bool, true, false, if◌then◌else◌, take, is_empty,
}
use rfed.Dict
use rfed.Dict.{Dict, sum_by}
use rfed.Deferred.State.{PendingBlob, HeldPage, DeferredQueue, set_bucket, increment}
use rfed.Deferred.Drain.{delete_rows, drained, drain, drain_batch, drain_matching_batch}
use rfed.Deferred.Enqueue.{make_room, admit, enqueue}
use rfed.Deferred.Page.{page_of, hold, take_page, put_back, settle_page}
use rfed.Deferred.Flush.{take_ticket, take_held, confirm_held, confirm, flush_copies, release}
use rfed.Deferred.Expiry.{evict_expired}
use rfed.Deferred.Op.{
  Op, enqueues, drains, drains_batch, drains_matching, takes_page, settles_page, flushes, confirms,
  releases, evicts_expired, step,
}

-- Page ids are distinct, and the ids from `next_page` on are free.
abbrev pub PagesIssued : ℕ → Dict ℕ HeldPage → Type 0
PagesIssued next held =
    Dict.Distinct ℕ_discrete held × ((id : ℕ) → next ≤ id → Dict.find ℕ_discrete id held ≡ none)

pub increment-suc : (n : ℕ) → n + 1 < 2 ^ 64 → increment n ≡ suc n
unfolding increment
increment-suc n h = omega arith

drained-held :
    (q : DeferredQueue) (es : List PendingBlob)
    → ((drained q es).held ≡ q.held) × ((drained q es).next_page ≡ q.next_page)
unfolding drained delete_rows
drained-held q [] = (refl, refl)
drained-held q (e ∷ es) = (refl, refl)

take_held-none :
    (s : Bytes) (t id : ℕ) (pages : Dict ℕ HeldPage) (e : PendingBlob) (rest : Dict ℕ HeldPage)
    → take_held s t pages ≡ some (e, rest)
    → Dict.find ℕ_discrete id pages ≡ none
    → Dict.find ℕ_discrete id rest ≡ none
unfolding take_held Dict.find
take_held-none s t id [] e rest h n = absurd (ground arith)
take_held-none s t id ((j, page) ∷ pages) e rest h n = elim (Option-cases (take_held s t pages)) [
  | inl miss ↦ ground arith
  | inr ((x, pages'), hit) ↦ ground (arith, take_held-none s t id pages x pages' hit)
]

take_held-Distinct :
    (s : Bytes) (t : ℕ) (pages : Dict ℕ HeldPage) (e : PendingBlob) (rest : Dict ℕ HeldPage)
    → take_held s t pages ≡ some (e, rest)
    → Dict.Distinct ℕ_discrete pages
    → Dict.Distinct ℕ_discrete rest
unfolding take_held
take_held-Distinct s t [] e rest h d = absurd (ground arith)
take_held-Distinct s t ((j, page) ∷ pages) e rest h d = elim (Option-cases (take_held s t pages)) [
  | inl miss ↦ ground arith
  | inr ((x, pages'), hit) ↦
      ground
        (arith, take_held-none s t j pages x pages' hit, take_held-Distinct s t pages x pages' hit)
]

abbrev pub PageIds : DeferredQueue → Type 0
PageIds q = PagesIssued q.next_page q.held

module _ (q : DeferredQueue) (v : PageIds q) where
  drained-PageIds :
      (m : Dict Bytes (List PendingBlob)) (es : List PendingBlob)
      → PageIds (drained (record q { queue = m }) es)
  drained-PageIds m es = let e = drained-held (record q { queue = m }) es in rw (e.0, e.1) v

  enqueue-PageIds :
      (s channel blob : Bytes) (limit now id : ℕ)
      → PageIds (enqueue q s channel blob limit now id).0
  unfolding enqueue admit
  enqueue-PageIds s channel blob limit now id = elim (Option-cases (make_room q s limit)) [
    | inl full ↦ rw (full, enqueue) v
    | inr (room, found) ↦ rw (found, enqueue) v
  ]

  drain-PageIds : (s : Bytes) → PageIds (drain q s).0
  unfolding drain
  drain-PageIds s = elim (Option-cases (Dict.find bytes_dec s q.queue)) [
    | inl absent ↦ rw (absent, drain) v
    | inr (bucket, found) ↦ rw (found, drain) (drained-PageIds _ bucket)
  ]

  drain_batch-PageIds : (s : Bytes) (max : ℕ) → PageIds (drain_batch q s max).0
  unfolding drain_batch
  drain_batch-PageIds s max = elim (Option-cases (Dict.find bytes_dec s q.queue)) [
    | inl absent ↦ rw (absent, drain_batch) v
    | inr (bucket, found) ↦ rw (found, drain_batch) (drained-PageIds _ (take max bucket))
  ]

  drain_matching_batch-PageIds :
      (s : Bytes) (wanted : Bytes → Bool) (max : ℕ)
      → PageIds (drain_matching_batch q s wanted max).0
  unfolding drain_matching_batch
  drain_matching_batch-PageIds s wanted max = elim (Option-cases (Dict.find bytes_dec s q.queue)) [
    | inl absent ↦ rw (absent, drain_matching_batch) v
    | inr (bucket, found) ↦ rw (found, drain_matching_batch) (drained-PageIds _ _)
  ]

  hold-PageIds :
      (s : Bytes) (taken : List PendingBlob) → q.next_page + 1 < 2 ^ 64 → PageIds (hold q s taken)
  unfolding hold
  hold-PageIds s taken fits = rw (increment-suc q.next_page fits) (
    Dict.put-Distinct ℕ_discrete q.next_page _ q.held v.0,
    λ id h.
        Dict.find-put_ne ℕ_discrete q.next_page id _ q.held (λ e. absurd (omega arith))
        ∙ v.1 id (omega arith),
  )

  settle_page-PageIds : (id : ℕ) (proved : Bool) → PageIds (settle_page q id proved).0
  unfolding settle_page delete_rows put_back
  settle_page-PageIds id proved = elim (Option-cases (Dict.find ℕ_discrete id q.held)) [
    | inl absent ↦ rw (absent, settle_page) v
    | inr (page, found) ↦ rw (found, settle_page) (settled proved page)
  ]
    where
      removed : PagesIssued q.next_page (Dict.remove ℕ_discrete id q.held)
      removed = (
        Dict.remove-Distinct ℕ_discrete id q.held v.0,
        λ j h. Dict.find-remove-none ℕ_discrete id j q.held (v.1 j h),
      )

      settled :
          (b : Bool) (page : HeldPage)
          → let q' : DeferredQueue = record q { held = Dict.remove ℕ_discrete id q.held } in
            PageIds (if b then delete_rows q' page.blobs else put_back q' page)
      settled true page = removed
      settled false page = removed

take_page-PageIds :
    (q : DeferredQueue) (s : Bytes) (wanted : Bytes → Bool) (max budget : ℕ)
    (cost : PendingBlob → ℕ)
    → PageIds q
    → q.next_page + 1 < 2 ^ 64
    → PageIds (take_page q s wanted max budget cost).0
unfolding take_page
take_page-PageIds q s wanted max budget cost v fits =
    elim (Option-cases (Dict.find bytes_dec s q.queue)) [
      | inl absent ↦ rw (absent, take_page) v
      | inr (bucket, found) ↦
          rw (found, take_page)
            (let l = page_of wanted max budget cost bucket in
              let q' : DeferredQueue = record q { queue = set_bucket s l.kept q.queue } in
              elim (Bool-cases (is_empty l.taken)) [
                | inl e ↦ rw e v
                | inr e ↦ rw e (hold-PageIds q' v s l.taken fits)
              ])
    ]

confirm_held-PageIds :
    (q : DeferredQueue) (s : Bytes) (t : ℕ) → PageIds q → PageIds (confirm_held q s t).0
unfolding confirm_held delete_rows
confirm_held-PageIds q s t v = elim (Option-cases (take_held s t q.held)) [
  | inl miss ↦ rw (miss, confirm_held) v
  | inr ((e, pages), hit) ↦
      rw (hit, confirm_held)
        (
          take_held-Distinct s t q.held e pages hit v.0,
          λ id h. take_held-none s t id q.held e pages hit (v.1 id h),
        )
]

confirm-PageIds : (q : DeferredQueue) (s : Bytes) (t : ℕ) → PageIds q → PageIds (confirm q s t).0
unfolding confirm delete_rows
confirm-PageIds q s t v = elim (Option-cases (Dict.find bytes_dec s q.queue)) [
  | inl absent ↦ rw (absent, confirm) (confirm_held-PageIds _ s t v)
  | inr (bucket, found) ↦ elim (Option-cases (take_ticket t bucket)) [
    | inl miss ↦ rw (found, confirm, miss) (confirm_held-PageIds _ s t v)
    | inr ((e, rest), hit) ↦ rw (found, confirm, hit) v
  ]
]

pub step-PageIds :
    (q : DeferredQueue) (op : Op) → q.next_page + 1 < 2 ^ 64 → PageIds q → PageIds (step q op)
unfolding step flush_copies release evict_expired
step-PageIds q (enqueues s channel blob limit now id) fits v =
    enqueue-PageIds q v s channel blob limit now id
step-PageIds q (drains s) fits v = drain-PageIds q v s
step-PageIds q (drains_batch s max) fits v = drain_batch-PageIds q v s max
step-PageIds q (drains_matching s wanted max) fits v = drain_matching_batch-PageIds q v s wanted max
step-PageIds q (takes_page s wanted max budget cost) fits v =
    take_page-PageIds q s wanted max budget cost v fits
step-PageIds q (settles_page id proved) fits v = settle_page-PageIds q v id proved
step-PageIds q (flushes s wanted) fits v = v
step-PageIds q (confirms s t) fits v = confirm-PageIds q s t v
step-PageIds q (releases s t) fits v = v
step-PageIds q (evicts_expired now max_age) fits v = v
