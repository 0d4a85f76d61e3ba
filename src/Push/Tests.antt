-- ===== src/Push/Tests.antt =====
-- The theorems on the pushes of rfed/src/stream_registry.rs at one push over one link.
use rfed.Base.{◌≤◌, ◌≡◌, refl, ◌⊎◌, true, false, ◌&&◌, if◌then◌else◌, arith}
use rfed.Push.Outcome.{
  new_with_proved, store_sent, add_pending, swap_proved, sub_pending, was_last, store_handed_off,
}
use rfed.Push.Threads.{
  Threads, start, begin_receipt, count_receipt, tie_receipt, dispatch_done, deliver, time_out,
  prove, conclude, check_sent, check_proved, hand_off, begins, counts, ties, finishes, delivers,
  times_out, proves, concludes, checks_sent, checks_proved, hands_off, Reach, here, next,
}
use rfed.Push.Verdict.{hooks_once, on_time-not_handed_off, IsSettled, settled_verdict}

abbrev tied : Threads
tied = dispatch_done (tie_receipt (count_receipt (begin_receipt (start true true))))

tied-Reach : Reach (start true true) tied
unfolding start begin_receipt count_receipt tie_receipt dispatch_done new_with_proved store_sent
    add_pending
tied-Reach =
    next (next (next (next here (begins refl)) (counts refl (omega arith))) (ties refl))
      (finishes refl)

-- The link proves the push, and the receipt's thread concludes it.
abbrev delivered : Threads
delivered = check_proved (check_sent (conclude (conclude (prove (deliver tied 0) 0) 1) 0) 0) 0

delivered-Reach : Reach (start true true) delivered
unfolding start begin_receipt count_receipt tie_receipt dispatch_done new_with_proved store_sent
    add_pending deliver prove conclude check_sent swap_proved sub_pending was_last
delivered-Reach =
    next
      (next
        (next (next (next (next tied-Reach (delivers 0 refl)) (proves 0 refl)) (concludes 1 refl))
          (concludes 0 refl))
        (checks_sent 0 refl))
      (checks_proved 0 refl)

-- The receipt times out, and the push is handed off.
abbrev timed_out : Threads
timed_out = hand_off (check_proved (check_sent (conclude (conclude (time_out tied 0) 1) 0) 0) 0) 0

timed_out-Reach : Reach (start true true) timed_out
unfolding start begin_receipt count_receipt tie_receipt dispatch_done new_with_proved store_sent
    add_pending time_out conclude check_sent check_proved sub_pending was_last
timed_out-Reach =
    next
      (next
        (next
          (next (next (next tied-Reach (times_out 0 refl)) (concludes 1 refl)) (concludes 0 refl))
          (checks_sent 0 refl))
        (checks_proved 0 refl))
      (hands_off 0 refl)

on_time-not_handed_off_example :
    (delivered.handing_off ≡ 0)
    × (delivered.outcome.handed_off ≡ false)
    × (delivered.outcome.unproven_runs ≡ 0)
unfolding start begin_receipt count_receipt tie_receipt dispatch_done deliver prove conclude
    check_sent check_proved
on_time-not_handed_off_example = on_time-not_handed_off true true delivered-Reach (omega arith)

timed_out-IsSettled : IsSettled timed_out
unfolding start begin_receipt count_receipt tie_receipt dispatch_done new_with_proved store_sent
    add_pending time_out conclude check_sent check_proved hand_off store_handed_off sub_pending
    was_last
timed_out-IsSettled = record {
  dispatched = refl;
  no_receipts = refl;
  none_proving = refl;
  none_concluding = refl;
  none_checking = refl;
}

settled_verdict_example :
    (timed_out.outcome.pending ≡ 0)
    × (((timed_out.outcome.any_sent ≡ true)
          × ((timed_out.outcome.proved ≡ true) ⊎ (timed_out.outcome.handed_off ≡ true)))
        ⊎ ((timed_out.outcome.any_sent ≡ false)
            × (timed_out.outcome.proved ≡ false)
            × (timed_out.outcome.handed_off ≡ false)))
settled_verdict_example = settled_verdict true true timed_out-Reach timed_out-IsSettled

hooks_once_example :
    (timed_out.outcome.unproven_runs ≤ 1)
    × (timed_out.outcome.proved_runs ≤ 1)
    × (timed_out.outcome.unproven_runs
        ≡ (if timed_out.outcome.handed_off && timed_out.outcome.on_unproven then 1 else 0))
    × (timed_out.outcome.proved_runs
        ≡ (if timed_out.outcome.proved && timed_out.outcome.on_proved then 1 else 0))
hooks_once_example = hooks_once true true timed_out-Reach
