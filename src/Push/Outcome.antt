-- ===== src/Push/Outcome.antt =====
-- `PushOutcome` of rfed/src/stream_registry.rs: the atomics of one push, and what each atomic access
-- of its methods does. The hooks run on threads of their own; what is kept of them is how often they
-- were started.
use rfed.Base.{ℕ, ◌+◌, ◌-◌, ◌%◌, ◌^◌, Bool, true, false, not, ◌&&◌, if◌then◌else◌, ◌==◌}

pub record PushOutcome : Type 0 where
  pub pending : ℕ
  pub any_sent : Bool
  pub proved : Bool
  pub handed_off : Bool
  pub on_unproven : Bool
  pub on_proved : Bool
  pub unproven_runs : ℕ
  pub proved_runs : ℕ

-- Whether the caller gave hooks, and nothing sent yet; the dispatch holds one pending.
unfoldable pub new_with_proved : Bool → Bool → PushOutcome
new_with_proved on_proved on_unproven = record {
  pending = 1;
  any_sent = false;
  proved = false;
  handed_off = false;
  on_unproven = on_unproven;
  on_proved = on_proved;
  unproven_runs = 0;
  proved_runs = 0;
}

-- `receipt_pending`: the store, then the addition on a `usize`.
unfoldable pub store_sent : PushOutcome → PushOutcome
store_sent p = record p { any_sent = true }

unfoldable pub add_pending : PushOutcome → PushOutcome
add_pending p = record p { pending = (p.pending + 1) % 2 ^ 64 }

-- The swap of `proved` and `proved_late`: the first one starts `on_proved`.
unfoldable pub swap_proved : PushOutcome → PushOutcome
swap_proved p = record p {
  proved = true;
  proved_runs = if not p.proved && p.on_proved then p.proved_runs + 1 else p.proved_runs;
}

-- The subtraction of `conclude_one`, and whether it took the last pending one.
unfoldable pub sub_pending : PushOutcome → PushOutcome
sub_pending p = record p { pending = (p.pending + 2 ^ 64 - 1) % 2 ^ 64 }

unfoldable pub was_last : PushOutcome → Bool
was_last p = p.pending == 1

-- The end of `conclude_one`: the hand-off, and its hook if there is one.
unfoldable pub store_handed_off : PushOutcome → PushOutcome
store_handed_off p = record p {
  handed_off = true;
  unproven_runs = if p.on_unproven then p.unproven_runs + 1 else p.unproven_runs;
}
