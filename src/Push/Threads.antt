-- ===== src/Push/Threads.antt =====
-- The threads of one push (rfed/src/stream_registry.rs): the dispatch over the links, and the
-- receipts' callbacks, which interleave at every atomic access.
use rfed.Base.{ℕ, suc, ◌+◌, ◌^◌, ◌<◌, ◌≡◌, Bool, if◌then◌else◌}
use rfed.Push.Outcome.{
  PushOutcome, new_with_proved, store_sent, add_pending, swap_proved, sub_pending, was_last,
  store_handed_off,
}

-- Where `push_on_links` stands: between links; in `receipt_pending` before its addition; before
-- `tie_receipt`; after `dispatch_done` was called.
pub data Dispatch : Type 0 where
  trying counting tying finished : Dispatch

-- Threads at one place of the code are alike, so each place has a count. A receipt is open until
-- one of its callbacks swaps its `concluded`. `on_time` counts the receipts whose delivery callback
-- came first.
pub record Threads : Type 0 where
  pub outcome : PushOutcome
  pub dispatch : Dispatch
  pub open_receipts : ℕ
  pub concluded_receipts : ℕ
  pub on_time : ℕ
  pub proving : ℕ
  pub proving_late : ℕ
  pub concluding : ℕ
  pub checking_sent : ℕ
  pub checking_proved : ℕ
  pub handing_off : ℕ

unfoldable pub start : Bool → Bool → Threads
unfolding new_with_proved
start on_proved on_unproven = record {
  outcome = new_with_proved on_proved on_unproven;
  dispatch = trying;
  open_receipts = 0;
  concluded_receipts = 0;
  on_time = 0;
  proving = 0;
  proving_late = 0;
  concluding = 0;
  checking_sent = 0;
  checking_proved = 0;
  handing_off = 0;
}

-- The places that a thread may leave next: `n` is how many others stay there.
unfoldable pub begin_receipt : Threads → Threads
begin_receipt c = record c { outcome = store_sent c.outcome; dispatch = counting }

unfoldable pub count_receipt : Threads → Threads
count_receipt c = record c { outcome = add_pending c.outcome; dispatch = tying }

unfoldable pub tie_receipt : Threads → Threads
tie_receipt c = record c { open_receipts = suc c.open_receipts; dispatch = trying }

unfoldable pub dispatch_done : Threads → Threads
dispatch_done c = record c { dispatch = finished; concluding = suc c.concluding }

unfoldable pub deliver : Threads → ℕ → Threads
deliver c n = record c {
  open_receipts = n;
  concluded_receipts = suc c.concluded_receipts;
  on_time = suc c.on_time;
  proving = suc c.proving;
}

unfoldable pub deliver_late : Threads → Threads
deliver_late c = record c { proving_late = suc c.proving_late }

unfoldable pub time_out : Threads → ℕ → Threads
time_out c n = record c {
  open_receipts = n;
  concluded_receipts = suc c.concluded_receipts;
  concluding = suc c.concluding;
}

unfoldable pub prove : Threads → ℕ → Threads
prove c n = record c { outcome = swap_proved c.outcome; proving = n; concluding = suc c.concluding }

unfoldable pub prove_late : Threads → ℕ → Threads
prove_late c n = record c { outcome = swap_proved c.outcome; proving_late = n }

unfoldable pub conclude : Threads → ℕ → Threads
conclude c n = record c {
  outcome = sub_pending c.outcome;
  concluding = n;
  checking_sent = if was_last c.outcome then suc c.checking_sent else c.checking_sent;
}

unfoldable pub check_sent : Threads → ℕ → Threads
check_sent c n = record c {
  checking_sent = n;
  checking_proved = if c.outcome.any_sent then suc c.checking_proved else c.checking_proved;
}

unfoldable pub check_proved : Threads → ℕ → Threads
check_proved c n = record c {
  checking_proved = n;
  handing_off = if c.outcome.proved then c.handing_off else suc c.handing_off;
}

unfoldable pub hand_off : Threads → ℕ → Threads
hand_off c n = record c { outcome = store_handed_off c.outcome; handing_off = n }

-- One atomic access by one thread, or one callback that starts. A receipt's delivery callback may
-- come again after it concluded (a late proof). A push has fewer than 2 ^ 64 receipts.
pub data Step (c : Threads) : Threads → Type 0 where
  begins : c.dispatch ≡ trying → Step c (begin_receipt c)
  counts : c.dispatch ≡ counting → c.outcome.pending + 1 < 2 ^ 64 → Step c (count_receipt c)
  ties : c.dispatch ≡ tying → Step c (tie_receipt c)
  finishes : c.dispatch ≡ trying → Step c (dispatch_done c)
  delivers : (n : ℕ) → c.open_receipts ≡ suc n → Step c (deliver c n)
  delivers_late : (n : ℕ) → c.concluded_receipts ≡ suc n → Step c (deliver_late c)
  times_out : (n : ℕ) → c.open_receipts ≡ suc n → Step c (time_out c n)
  proves : (n : ℕ) → c.proving ≡ suc n → Step c (prove c n)
  proves_late : (n : ℕ) → c.proving_late ≡ suc n → Step c (prove_late c n)
  concludes : (n : ℕ) → c.concluding ≡ suc n → Step c (conclude c n)
  checks_sent : (n : ℕ) → c.checking_sent ≡ suc n → Step c (check_sent c n)
  checks_proved : (n : ℕ) → c.checking_proved ≡ suc n → Step c (check_proved c n)
  hands_off : (n : ℕ) → c.handing_off ≡ suc n → Step c (hand_off c n)

pub data Reach (c : Threads) : Threads → Type 0 where
  here : Reach c c
  next : {d e : Threads} → Reach c d → Step d e → Reach c e

unfoldable pub held_by_dispatch : Dispatch → ℕ
held_by_dispatch trying = 1
held_by_dispatch counting = 1
held_by_dispatch tying = 2
held_by_dispatch finished = 0
