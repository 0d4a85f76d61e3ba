-- ===== src/Push/Verdict.antt =====
-- The verdict of one push (rfed/src/stream_registry.rs), over every interleaving of its threads.
use rfed.Base.{
  ℕ, ◌+◌, ◌^◌, ◌≤◌, ◌<◌, ◌≡◌, ◌≢◌, refl, ◌⊎◌, inl, inr, Bool, true, false, ◌&&◌, if◌then◌else◌,
  arith,
}
use rfed.Push.Outcome.{
  store_sent, add_pending, swap_proved, sub_pending, was_last, store_handed_off,
}
use rfed.Push.Threads.{
  counting, tying, finished, Threads, start, begin_receipt, count_receipt, tie_receipt,
  dispatch_done, deliver, deliver_late, time_out, prove, prove_late, conclude, check_sent,
  check_proved, hand_off, Step, begins, counts, ties, finishes, delivers, delivers_late, times_out,
  proves, proves_late, concludes, checks_sent, checks_proved, hands_off, Reach, here, next,
  held_by_dispatch,
}

-- The threads on the last stretch of `conclude_one`, and whether one is through.
abbrev finals : Threads → ℕ
finals c =
    c.checking_sent + c.checking_proved + c.handing_off + (if c.outcome.handed_off then 1 else 0)

record Inv (c : Threads) : Type 0 where
  -- Every pending one is held by the dispatch, an open receipt, or a thread yet to conclude.
  held :
      c.outcome.pending ≡ held_by_dispatch c.dispatch + c.open_receipts + c.proving + c.concluding
  bounded : c.outcome.pending < 2 ^ 64
  -- The last stretch is entered once, when nothing is pending.
  last : (finals c ≡ 0) ⊎ ((finals c ≡ 1) × (c.outcome.pending ≡ 0))
  verdict :
      0 < c.outcome.pending
      ⊎ ((c.outcome.any_sent ≡ false) ⊎ ((c.outcome.proved ≡ true) ⊎ (finals c ≡ 1)))
  sent : (c.open_receipts + c.concluded_receipts ≡ 0) ⊎ (c.outcome.any_sent ≡ true)
  sent_late : (c.outcome.any_sent ≡ true) ⊎ ((c.dispatch ≢ counting) × (c.dispatch ≢ tying))
  timely : (c.on_time ≤ c.proving) ⊎ (c.outcome.proved ≡ true)
  refused : (c.handing_off ≡ 0) × (c.outcome.handed_off ≡ false) ⊎ (c.on_time ≡ 0)
  unproven :
      c.outcome.unproven_runs ≡ (if c.outcome.handed_off && c.outcome.on_unproven then 1 else 0)
  sent_first :
      (c.outcome.any_sent ≡ true)
      ⊎ ((c.outcome.proved ≡ false)
          × (c.proving ≡ 0)
          × (c.proving_late ≡ 0)
          × (c.checking_proved ≡ 0)
          × (c.handing_off ≡ 0)
          × (c.outcome.handed_off ≡ false))
  acked : c.outcome.proved_runs ≡ (if c.outcome.proved && c.outcome.on_proved then 1 else 0)

start-Inv : (a b : Bool) → Inv (start a b)
unfolding start held_by_dispatch
start-Inv a b = record {
  held = refl;
  bounded = omega arith;
  last = inl refl;
  verdict = inl (omega arith);
  sent = inl refl;
  sent_late = inr (λ e. cc, λ e. cc);
  timely = inl (omega arith);
  refused = inl (refl, refl);
  unproven = refl;
  sent_first = inr (refl, refl, refl, refl, refl, refl);
  acked = refl;
}

Step-Inv : {c d : Threads} → Step c d → Inv c → Inv d
unfolding held_by_dispatch begin_receipt count_receipt tie_receipt dispatch_done deliver
    deliver_late time_out prove prove_late conclude check_sent check_proved hand_off store_sent
    add_pending swap_proved sub_pending was_last store_handed_off
Step-Inv {c} (begins h) v = ground arith
Step-Inv {c} (counts h fits) v = ground arith
Step-Inv {c} (ties h) v = ground arith
Step-Inv {c} (finishes h) v = ground arith
Step-Inv {c} (delivers n h) v = ground arith
Step-Inv {c} (delivers_late n h) v = ground arith
Step-Inv {c} (times_out n h) v = ground arith
Step-Inv {c} (proves n h) v = ground arith
Step-Inv {c} (proves_late n h) v = ground arith
Step-Inv {c} (concludes n h) v = ground arith
Step-Inv {c} (checks_sent n h) v = ground arith
Step-Inv {c} (checks_proved n h) v = ground arith
Step-Inv {c} (hands_off n h) v = ground arith

Reach-Inv : (a b : Bool) {c : Threads} → Reach (start a b) c → Inv c
Reach-Inv a b here = start-Inv a b
Reach-Inv a b (next r st) = Step-Inv st (Reach-Inv a b r)

-- However the threads of a push interleave, each hook is started at most once: the hand-off's when
-- the push is handed off and the caller gave one, the proof's when a proof came and the caller gave
-- one.
pub hooks_once :
    (a b : Bool) {c : Threads}
    → Reach (start a b) c
    → (c.outcome.unproven_runs ≤ 1)
      × (c.outcome.proved_runs ≤ 1)
      × (c.outcome.unproven_runs ≡ (if c.outcome.handed_off && c.outcome.on_unproven then 1 else 0))
      × (c.outcome.proved_runs ≡ (if c.outcome.proved && c.outcome.on_proved then 1 else 0))
hooks_once a b r = let v = Reach-Inv a b r in ground arith

-- A push whose link proved it before its receipt timed out is never handed to the next route, not
-- even if the other links' receipts conclude first or at the same time.
pub on_time-not_handed_off :
    (a b : Bool) {c : Threads}
    → Reach (start a b) c
    → 0 < c.on_time
    → (c.handing_off ≡ 0) × (c.outcome.handed_off ≡ false) × (c.outcome.unproven_runs ≡ 0)
on_time-not_handed_off a b r h = let v = Reach-Inv a b r in ground arith

-- Every callback has run and every thread is through.
pub record IsSettled (c : Threads) : Type 0 where
  pub dispatched : c.dispatch ≡ finished
  pub no_receipts : c.open_receipts ≡ 0
  pub none_proving : c.proving ≡ 0
  pub none_concluding : c.concluding ≡ 0
  pub none_checking : c.checking_sent + c.checking_proved + c.handing_off ≡ 0

-- Once every callback has run and every thread is through, nothing is pending, and a push that
-- went out on some link was proved or was handed off; a push that went out on none was neither.
pub settled_verdict :
    (a b : Bool) {c : Threads}
    → Reach (start a b) c
    → IsSettled c
    → (c.outcome.pending ≡ 0)
      × (((c.outcome.any_sent ≡ true) × ((c.outcome.proved ≡ true) ⊎ (c.outcome.handed_off ≡ true)))
          ⊎ ((c.outcome.any_sent ≡ false)
              × (c.outcome.proved ≡ false)
              × (c.outcome.handed_off ≡ false)))
unfolding held_by_dispatch
settled_verdict a b r t = let v = Reach-Inv a b r in (ground arith, ground arith)
