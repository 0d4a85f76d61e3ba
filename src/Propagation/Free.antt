-- ===== src/Propagation/Free.antt =====
-- The slot that a new peer of rfed/src/lxmf_propagation.rs takes is free: `free_peer_slot`.
use rfed.Base.{
  ℕ, zero, suc, ◌+◌, ◌≤◌, ◌≡◌, refl, List, [], ◌∷◌, ltb, leb, ◌==◌, any, filter, length, arith,
  Bool-cases, inl, inr,
}
use rfed.Propagation.Iter.{tally}
use rfed.Propagation.Joining.{lowest_free}

abbrev pub from : ℕ → List ℕ → ℕ
from slot held = length (filter (λ s. leb slot s) held)

pub from-zero : (held : List ℕ) → from 0 held ≡ length held
from-zero [] = refl
from-zero (s ∷ held) = ground (arith, from-zero held)

from-tally : (slot : ℕ) (held : List ℕ) → tally slot held + from (suc slot) held ≡ from slot held
from-tally slot [] = refl
from-tally slot (s ∷ held) = ground (arith, from-tally slot held)

any-tally : (slot : ℕ) (held : List ℕ) → any (λ s. s == slot) held ≡ ltb 0 (tally slot held)
any-tally slot [] = refl
any-tally slot (s ∷ held) = ground (arith, any-tally slot held)

-- Among as many slots as may be held, and one more, one is free, and it is found.
pub lowest_free-tally :
    (more slot : ℕ) (held : List ℕ)
    → from slot held ≤ more
    → tally (lowest_free more slot held) held ≡ 0
unfolding lowest_free
lowest_free-tally zero slot held few = omega (arith, few, from-tally slot held)
lowest_free-tally (suc more) slot held few = elim (Bool-cases (any (λ s. s == slot) held)) [
  | inl taken ↦ rw (taken) (
      lowest_free-tally more (suc slot) held
        (ground (arith, few, from-tally slot held, any-tally slot held, taken)))
  | inr open_slot ↦ rw (open_slot) (ground (arith, any-tally slot held, open_slot))
]
