-- ===== src/Propagation/Window.antt =====
-- What was sent within 60 seconds, in the record of rfed/src/lxmf_propagation.rs and in the calls made.
use rfed.Base.{
  ℕ, ◌+◌, ◌≤◌, ◌≡◌, refl, List, [], ◌∷◌, ◌++◌, Bytes, length, arith, mem, same, ◌||◌, filter,
}
use rfed.Propagation.Node.{
  SyncCall, open_link, close_link, identify, request_offer, send_resource, prune, total,
  sent_in_window,
}

-- The Resources sent, each at its time with its number of messages.
unfoldable pub sends_of : List SyncCall → List (ℕ × ℕ)
sends_of [] = []
sends_of (send_resource t hash link ids ∷ calls) = (t, length ids) ∷ sends_of calls
sends_of (open_link hash ∷ calls) = sends_of calls
sends_of (close_link hash ∷ calls) = sends_of calls
sends_of (identify hash link ∷ calls) = sends_of calls
sends_of (request_offer hash link ids ∷ calls) = sends_of calls

-- What is pruned is in no window that ends then or later.
pub window_prune :
    (t u : ℕ) (sends : List (ℕ × ℕ))
    → t ≤ u
    → sent_in_window u (prune t sends) ≡ sent_in_window u sends
unfolding prune sent_in_window
window_prune t u [] h = refl
window_prune t u ((at, n) ∷ sends) h = ground (arith, h, window_prune t u sends h)

pub window_total : (t : ℕ) (sends : List (ℕ × ℕ)) → sent_in_window t sends ≤ total sends
unfolding sent_in_window
window_total t [] = omega arith
window_total t ((at, n) ∷ sends) = ground (arith, window_total t sends)

pub window_later :
    (t u : ℕ) (sends : List (ℕ × ℕ)) → t ≤ u → sent_in_window u sends ≤ sent_in_window t sends
unfolding sent_in_window
window_later t u [] h = omega arith
window_later t u ((at, n) ∷ sends) h = ground (arith, h, window_later t u sends h)

pub window_append :
    (t : ℕ) (sends more : List (ℕ × ℕ))
    → sent_in_window t (sends ++ more) ≡ sent_in_window t sends + sent_in_window t more
unfolding sent_in_window
window_append t [] more = omega arith
window_append t ((at, m) ∷ sends) more = ground (arith, window_append t sends more)

pub window_now : (t n : ℕ) → sent_in_window t ((t, n) ∷ []) ≡ n
unfolding sent_in_window
window_now t n = ground arith

pub sends_of-append :
    (calls more : List SyncCall) → sends_of (calls ++ more) ≡ sends_of calls ++ sends_of more
unfolding sends_of
sends_of-append [] more = refl
sends_of-append (send_resource t hash link ids ∷ calls) more =
    ground (arith, sends_of-append calls more)
sends_of-append (open_link hash ∷ calls) more = sends_of-append calls more
sends_of-append (close_link hash ∷ calls) more = sends_of-append calls more
sends_of-append (identify hash link ∷ calls) more = sends_of-append calls more
sends_of-append (request_offer hash link ids ∷ calls) more = sends_of-append calls more

pub quiet_close : (hash : Bytes) → sends_of (close_link hash ∷ []) ≡ []
unfolding sends_of
quiet_close hash = refl

pub quiet_open : (hash : Bytes) → sends_of (open_link hash ∷ []) ≡ []
unfolding sends_of
quiet_open hash = refl

pub quiet_identify : (hash link : Bytes) → sends_of (identify hash link ∷ []) ≡ []
unfolding sends_of
quiet_identify hash link = refl

pub quiet_request :
    (hash link : Bytes) (ids : List Bytes) → sends_of (request_offer hash link ids ∷ []) ≡ []
unfolding sends_of
quiet_request hash link ids = refl

-- No id twice.
abbrev pub NoRepeats : List Bytes → Type 0
NoRepeats ids = (id : Bytes) → length (filter (λ other. same id other) ids) ≤ 1

mem_one :
    (y : Bytes) (ys xs : List Bytes)
    → length (filter (λ id. same y id || mem id ys) xs)
      ≤ length (filter (λ id. same y id) xs) + length (filter (λ id. mem id ys) xs)
mem_one y ys [] = omega arith
mem_one y ys (x ∷ xs) = ground (arith, mem_one y ys xs)

none_in : (xs : List Bytes) → length (filter (λ id. mem id []) xs) ≡ 0
none_in [] = refl
none_in (x ∷ xs) = none_in xs

-- Distinct ids that are all in a list are no more than it has.
pub length-shared :
    (xs ys : List Bytes) → NoRepeats xs → length (filter (λ id. mem id ys) xs) ≤ length ys
length-shared xs [] d = omega (arith, none_in xs)
length-shared xs (y ∷ ys) d = omega (arith, mem_one y ys xs, d y, length-shared xs ys d)
