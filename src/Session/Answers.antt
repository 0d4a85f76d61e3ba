-- ===== src/Session/Answers.antt =====
-- `push_request` of rfed/src/link_session.rs, and the gates of `dispatch` on its hooks: a push goes to
-- every link that is bound, and each link's answer may come, in any order, at any time after.
use rfed.Base.{
  ℕ, suc, ◌≡◌, List, [], ◌∷◌, Option, none, some, Bytes, Bool, true, false, not, ◌&&◌,
  if◌then◌else◌, any, arith,
}

-- Whether the caller gave hooks, whether their gates have swung, and how often the hooks ran.
pub record Hooks : Type 0 where
  pub on_failed : Bool
  pub on_acked : Bool
  pub failure_gate : Bool
  pub ack_gate : Bool
  pub failures : ℕ
  pub acks : ℕ

unfoldable pub gated : Bool → Bool → Hooks
gated on_failed on_acked = record {
  on_failed = on_failed;
  on_acked = on_acked;
  failure_gate = false;
  ack_gate = false;
  failures = 0;
  acks = 0;
}

unfoldable pub run_failure : Hooks → Hooks
run_failure h =
    if h.on_failed
    then record h {
      failure_gate = true;
      failures = if h.failure_gate then h.failures else suc h.failures;
    }
    else h

unfoldable pub run_ack : Hooks → Hooks
run_ack h =
    if h.on_acked
    then record h { ack_gate = true; acks = if h.ack_gate then h.acks else suc h.acks }
    else h

-- A receipt's callbacks: a response, with its bytes if there are any, or none in time.
pub data Answer : Type 0 where
  response : Option Bytes → Answer
  unanswered : Answer

-- `rmp_serde::from_slice::<bool>` is `decode`.
module _ (decode : Bytes → Option Bool) where
  abbrev pub acked : Option Bytes → Bool
  acked none = false
  acked (some bytes) = elim (decode bytes) [ none ↦ false | some value ↦ value ]

  unfoldable pub answer : Hooks → Answer → Hooks
  unfolding run_failure run_ack
  answer h (response bytes) = if acked bytes then run_ack h else run_failure h
  answer h unanswered = run_failure h

  unfoldable pub answer_all : Hooks → List Answer → Hooks
  unfolding answer
  answer_all h [] = h
  answer_all h (a ∷ answers) = answer_all (answer h a) answers

  abbrev pub is_ack : Answer → Bool
  is_ack (response bytes) = acked bytes
  is_ack unanswered = false

  answer_all-Hooks :
      (h : Hooks) (answers : List Answer)
      → let r = answer_all h answers in
        (r.failures ≡ (
          if h.on_failed && not h.failure_gate && any (λ a. not (is_ack a)) answers
          then suc h.failures
          else h.failures))
        × (r.acks
            ≡ (if h.on_acked && not h.ack_gate && any is_ack answers then suc h.acks else h.acks))
  unfolding answer_all answer run_failure run_ack
  answer_all-Hooks h [] = (ground arith, ground arith)
  answer_all-Hooks h (response bytes ∷ answers) = (
    ground (arith, answer_all-Hooks (answer h (response bytes)) answers),
    ground (arith, answer_all-Hooks (answer h (response bytes)) answers),
  )
  answer_all-Hooks h (unanswered ∷ answers) = (
    ground (arith, answer_all-Hooks (answer h unanswered) answers),
    ground (arith, answer_all-Hooks (answer h unanswered) answers),
  )

  -- However many links a push went to, and however they answer: the failure hook runs once if some
  -- link refused or did not answer and the caller gave one, and else never; the acknowledgement's
  -- runs once if some link acknowledged and the caller gave one, and else never.
  pub answers_once :
      (on_failed on_acked : Bool) (answers : List Answer)
      → let r = answer_all (gated on_failed on_acked) answers in
        (r.failures ≡ (if on_failed && any (λ a. not (is_ack a)) answers then 1 else 0))
        × (r.acks ≡ (if on_acked && any is_ack answers then 1 else 0))
  unfolding gated
  answers_once on_failed on_acked answers =
      let h = answer_all-Hooks (gated on_failed on_acked) answers in
      (ground (arith, h.0), ground (arith, h.1))

-- Whether the payload can be encoded, and whether the link takes the request.
unfoldable pub push_request : Bool → Bool → Bool
push_request encoded requested = if encoded then requested else false
