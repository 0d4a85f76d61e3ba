-- ===== src/Propagation/Counts.antt =====
-- The counts of peers that `PropagationEntries` of rfed/src/lxmf_propagation.rs keeps.
use rfed.Base.{
  ℕ, zero, suc, ◌+◌, ◌-◌, ◌^◌, ◌<◌, ◌≡◌, refl, List, [], ◌∷◌, ◌++◌, Bool, true, false, leb, ◌==◌,
  if◌then◌else◌, length, arith, Bool-cases, inl, inr, ap, ◌∙◌, length-append,
}
use rfed.Propagation.Iter.{tally}
use rfed.Propagation.Entries.{step, step_at, zero_counts, count_slot, count_slots}
use rfed.Propagation.Peering.{count_at, zero_at}

count-step_at :
    (add : Bool) (slot j : ℕ) (ns : List ℕ)
    → slot < length ns
    → count_at j (step_at add slot ns)
      ≡ (if slot == j then step add (count_at j ns) else count_at j ns)
unfolding count_at step_at
count-step_at add slot j [] h = absurd (omega (arith, h))
count-step_at add zero zero (n ∷ ns) h = refl
count-step_at add zero (suc j) (n ∷ ns) h = ground arith
count-step_at add (suc slot) zero (n ∷ ns) h = ground arith
count-step_at add (suc slot) (suc j) (n ∷ ns) h =
    ground (arith, count-step_at add slot j ns (omega (arith, h)))

length-zero_counts : (n : ℕ) → length (zero_counts n) ≡ n
length-zero_counts zero = refl
length-zero_counts (suc n) = omega (arith, length-zero_counts n)

count-zero_counts : (j n : ℕ) → count_at j (zero_counts n) ≡ 0
unfolding count_at
count-zero_counts j zero = refl
count-zero_counts zero (suc n) = refl
count-zero_counts (suc j) (suc n) = count-zero_counts j n

count-resize : (j n : ℕ) (ns : List ℕ) → count_at j (ns ++ zero_counts n) ≡ count_at j ns
unfolding count_at
count-resize j n [] = count-zero_counts j n
count-resize zero n (m ∷ ns) = refl
count-resize (suc j) n (m ∷ ns) = count-resize j n ns

pub count-count_slot :
    (add : Bool) (slot j : ℕ) (ns : List ℕ)
    → count_at j (count_slot add slot ns)
      ≡ (if slot == j then step add (count_at j ns) else count_at j ns)
unfolding count_slot
count-count_slot add slot j ns = elim (Bool-cases (leb (length ns) slot)) [
  | inl short ↦ rw short (
      count-step_at add slot j (ns ++ zero_counts (slot + 1 - length ns)) (
        ground (
          arith,
          short,
          length-append ns (zero_counts (slot + 1 - length ns)),
          length-zero_counts (slot + 1 - length ns),
        ))
      ∙ ap (λ (n : ℕ). if slot == j then step add n else n)
          (count-resize j (slot + 1 - length ns) ns))
  | inr long ↦ rw long (count-step_at add slot j ns (ground (arith, long)))
]

step_up : (n : ℕ) → n + 1 < 2 ^ 64 → step true n ≡ n + 1
step_up n h = omega (arith, h)

step_down : (n : ℕ) → n + 1 < 2 ^ 64 → step false (n + 1) ≡ n
step_down n h = omega (arith, h)

pub count-count_slots_up :
    (slots : List ℕ) (j : ℕ) (ns : List ℕ)
    → count_at j ns + tally j slots < 2 ^ 64
    → count_at j (count_slots true slots ns) ≡ count_at j ns + tally j slots
unfolding count_slots
count-count_slots_up [] j ns h = omega arith
count-count_slots_up (slot ∷ slots) j ns h = elim (Bool-cases (slot == j)) [
  | inl own ↦
      let bumped = count-count_slot true slot j ns in
      let now = rw own at bumped in
      let fits = rw own at h in
      let one = now ∙ step_up (count_at j ns) (omega (arith, fits)) in
      rw own (
        count-count_slots_up slots j (count_slot true slot ns) (omega (arith, one, fits))
        ∙ omega (arith, one))
  | inr other ↦
      let now = rw other at (count-count_slot true slot j ns) in
      let fits = rw other at h in
      rw other (
        count-count_slots_up slots j (count_slot true slot ns) (omega (arith, now, fits))
        ∙ omega (arith, now))
]

pub count-count_slots_down :
    (slots : List ℕ) (j n : ℕ) (ns : List ℕ)
    → count_at j ns ≡ n + tally j slots
    → n + tally j slots < 2 ^ 64
    → count_at j (count_slots false slots ns) ≡ n
unfolding count_slots
count-count_slots_down [] j n ns e h = omega (arith, e)
count-count_slots_down (slot ∷ slots) j n ns e h = elim (Bool-cases (slot == j)) [
  | inl own ↦
      let held = rw own at e in
      let fits = rw own at h in
      let before : count_at j ns ≡ n + tally j slots + 1 = omega (arith, held) in
      let now = rw own at (count-count_slot false slot j ns) in
      let one =
        now ∙ ap (step false) before ∙ step_down (n + tally j slots) (omega (arith, fits)) in
      count-count_slots_down slots j n (count_slot false slot ns) one (omega (arith, fits))
  | inr other ↦
      let held = rw other at e in
      let fits = rw other at h in
      let now = rw other at (count-count_slot false slot j ns) in
      count-count_slots_down slots j n (count_slot false slot ns) (now ∙ held) fits
]

pub count-zero_at :
    (slot j : ℕ) (ns : List ℕ)
    → count_at j (zero_at slot ns) ≡ (if slot == j then 0 else count_at j ns)
unfolding count_at zero_at
count-zero_at slot j [] = ground arith
count-zero_at zero zero (n ∷ ns) = refl
count-zero_at zero (suc j) (n ∷ ns) = ground arith
count-zero_at (suc slot) zero (n ∷ ns) = ground arith
count-zero_at (suc slot) (suc j) (n ∷ ns) = ground (arith, count-zero_at slot j ns)
