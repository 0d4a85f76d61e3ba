-- ===== src/Deferred/Fullest.antt =====
-- `pop_oldest_of_fullest` of rfed/src/deferred_queue.rs: whom the global limit costs an entry.
use rfed.Base.{
  suc, ◌≤◌, ◌<◌, ◌≡◌, refl, sym, ap, subst, ◌∙◌, ◌⊎◌, inl, inr, List, [], ◌∷◌, none, some, Bytes,
  bytes_dec, arith, Option-cases, Bool-cases, true, false, length,
}
use rfed.Dict
use rfed.Dict.{Dict, sum_by}
use rfed.Deferred.State.{PendingBlob, set_bucket, bucket_in}
use rfed.Deferred.Enqueue.{
  Candidate, candidates, greater, max_by, fullest, pop_front, pop_oldest_of_fullest,
}
use rfed.Deferred.View.{updated, bucket_in-set_bucket, bucket_in-found}

abbrev Among : Candidate → List Candidate → Type 0
Among c [] = ⊥
Among c (x ∷ xs) = (c ≡ x) ⊎ Among c xs

-- `c` is less full than `r`, or as full and its oldest entry is no older.
abbrev AtMost : Candidate → Candidate → Type 0
AtMost c r = (c.len < r.len) ⊎ ((c.len ≡ r.len) × (r.oldest_at ≤ c.oldest_at))

greater-AtMost : (a b : Candidate) → greater a b ≡ true → AtMost b a
unfolding greater
greater-AtMost a b h = ground arith

not_greater-AtMost : (a b : Candidate) → greater a b ≡ false → AtMost a b
unfolding greater
not_greater-AtMost a b h = ground arith

AtMost-trans : (a b c : Candidate) → AtMost a b → AtMost b c → AtMost a c
AtMost-trans a b c h k = ground arith

max_by-keep :
    (best c : Candidate) (cs : List Candidate)
    → greater best c ≡ true
    → max_by best (c ∷ cs) ≡ max_by best cs
unfolding max_by
max_by-keep best c cs h = rw h

max_by-move :
    (best c : Candidate) (cs : List Candidate)
    → greater best c ≡ false
    → max_by best (c ∷ cs) ≡ max_by c cs
unfolding max_by
max_by-move best c cs h = rw h

max_by-ge : (x best : Candidate) (cs : List Candidate) → AtMost x best → AtMost x (max_by best cs)
unfolding max_by
max_by-ge x best [] h = h
max_by-ge x best (c ∷ cs) h = elim (Bool-cases (greater best c)) [
  | inl keep ↦ subst (AtMost x) (sym (max_by-keep best c cs keep)) (max_by-ge x best cs h)
  | inr move ↦
      subst (AtMost x) (sym (max_by-move best c cs move))
        (max_by-ge x c cs (AtMost-trans x best c h (not_greater-AtMost best c move)))
]

max_by-AtMost :
    (x best : Candidate) (cs : List Candidate) → Among x (best ∷ cs) → AtMost x (max_by best cs)
unfolding max_by
max_by-AtMost x best cs (inl e) = max_by-ge x best cs (ground arith)
max_by-AtMost x best [] (inr i) = absurd i
max_by-AtMost x best (c ∷ cs) (inr i) = elim (Bool-cases (greater best c)) [
  | inl keep ↦
      subst (AtMost x) (sym (max_by-keep best c cs keep))
        (later keep i (λ j. max_by-AtMost x best cs (inr j)))
  | inr move ↦ subst (AtMost x) (sym (max_by-move best c cs move)) (max_by-AtMost x c cs i)
]
  where
    later :
        greater best c ≡ true
        → Among x (c ∷ cs)
        → (Among x cs → AtMost x (max_by best cs))
        → AtMost x (max_by best cs)
    later keep (inl e) rest =
        max_by-ge x best cs (subst (λ y. AtMost y best) (sym e) (greater-AtMost best c keep))
    later keep (inr j) rest = rest j

max_by-Among : (best : Candidate) (cs : List Candidate) → Among (max_by best cs) (best ∷ cs)
unfolding max_by
max_by-Among best [] = inl refl
max_by-Among best (c ∷ cs) = elim (Bool-cases (greater best c)) [
  | inl keep ↦
      subst (λ y. Among y (best ∷ c ∷ cs)) (sym (max_by-keep best c cs keep))
        (skip (max_by-Among best cs))
  | inr move ↦
      subst (λ y. Among y (best ∷ c ∷ cs)) (sym (max_by-move best c cs move))
        (inr (max_by-Among c cs))
]
  where
    skip : Among (max_by best cs) (best ∷ cs) → Among (max_by best cs) (best ∷ c ∷ cs)
    skip (inl e) = inl e
    skip (inr i) = inr (inr i)

abbrev candidate : Bytes → PendingBlob → List PendingBlob → Candidate
candidate s e es = record { subscriber = s; len = suc (length es); oldest_at = e.enqueued_at }

candidates-Among :
    (s : Bytes) (e : PendingBlob) (es : List PendingBlob) (m : Dict Bytes (List PendingBlob))
    → Dict.find bytes_dec s m ≡ some (e ∷ es)
    → Among (candidate s e es) (candidates m)
unfolding candidates Dict.find
candidates-Among s e es [] h = absurd (ground arith)
candidates-Among s e es ((j, []) ∷ m) h = candidates-Among s e es m (ground arith)
candidates-Among s e es ((j, f ∷ fs) ∷ m) h = elim (bytes_dec j s) [
  | yes p ↦ inl (ground arith)
  | no p ↦ inr (candidates-Among s e es m (ground arith))
]

-- The bucket behind a candidate.
abbrev Backs : Dict Bytes (List PendingBlob) → Candidate → Type 0
Backs m c =
    (e : PendingBlob) × (es : List PendingBlob) × (Dict.find bytes_dec c.subscriber m
      ≡ some (e ∷ es))
    × (c ≡ candidate c.subscriber e es)

Among-Backs :
    (c : Candidate) (m : Dict Bytes (List PendingBlob))
    → Dict.Distinct bytes_dec m
    → Among c (candidates m)
    → Backs m c
unfolding candidates Dict.find
Among-Backs c [] d i = absurd i
Among-Backs c ((j, []) ∷ m) d i =
    let (e, es, at, eq) = Among-Backs c m d.1 i in (e, es, ground arith, eq)
Among-Backs c ((j, f ∷ fs) ∷ m) d (inl p) = (f, fs, ground arith, ground arith)
Among-Backs c ((j, f ∷ fs) ∷ m) d (inr i) =
    let (e, es, at, eq) = Among-Backs c m d.1 i in (e, es, ground arith, eq)

-- A list is less full than `old ∷ rest`, or as full and its oldest entry is no older.
abbrev pub Behind : PendingBlob → List PendingBlob → List PendingBlob → Type 0
Behind old rest [] = Unit
Behind old rest (e ∷ es) =
    (length es < length rest) ⊎ ((length es ≡ length rest) × (old.enqueued_at ≤ e.enqueued_at))

-- The subscriber `fullest` names has a bucket, and that bucket is at least as full as any other;
-- among the fullest ones its oldest entry is the oldest.
pub record IsFullest (m : Dict Bytes (List PendingBlob)) (v : Bytes) (old : PendingBlob)
    (rest : List PendingBlob) : Type 0 where
  pub front : bucket_in v m ≡ old ∷ rest
  pub most : (j : Bytes) → Behind old rest (bucket_in j m)

bucket_in-cons :
    (j : Bytes) (m : Dict Bytes (List PendingBlob)) (e : PendingBlob) (es : List PendingBlob)
    → bucket_in j m ≡ e ∷ es
    → Dict.find bytes_dec j m ≡ some (e ∷ es)
unfolding bucket_in
bucket_in-cons j m e es h = ground arith

fullest-IsFullest :
    (m : Dict Bytes (List PendingBlob)) (v : Bytes)
    → Dict.Distinct bytes_dec m
    → (cs : List Candidate) → candidates m ≡ cs
    → fullest cs ≡ some v
    → (old : PendingBlob) × (rest : List PendingBlob) × (Dict.find bytes_dec v m
        ≡ some (old ∷ rest))
      × IsFullest m v old rest
unfolding fullest
fullest-IsFullest m v d [] eq h = absurd (ground arith)
fullest-IsFullest m v d (c ∷ cs) eq h =
    let best = max_by c cs in
    let (old, rest, at, shape) =
      Among-Backs best m d (subst (Among best) (sym eq) (max_by-Among c cs)) in
    let found : Dict.find bytes_dec v m ≡ some (old ∷ rest) = ground arith in
    (
      old,
      rest,
      found,
      record {
        front = bucket_in-found v m (old ∷ rest) found;
        most = λ j.
            behind j best best.subscriber old rest shape
              (λ e es i. max_by-AtMost (candidate j e es) c cs i) (bucket_in j m) refl;
      },
    )
  where
    behind :
        (j : Bytes) (best : Candidate) (u : Bytes) (old : PendingBlob) (rest : List PendingBlob)
        → best ≡ candidate u old rest
        → ((e : PendingBlob) (es : List PendingBlob)
            → Among (candidate j e es) (c ∷ cs)
            → AtMost (candidate j e es) best)
        → (held : List PendingBlob) → bucket_in j m ≡ held
        → Behind old rest held
    behind j best u old rest shape at_most [] at = tt
    behind j best u old rest shape at_most (e ∷ es) at =
        let below = at_most e es (
          subst (Among (candidate j e es)) eq
            (candidates-Among j e es m (bucket_in-cons j m e es at))) in
        ground arith

-- In a map with one bucket for each subscriber, what is evicted at the global limit is the oldest
-- entry of a bucket that is as full as any; no bucket as full has an older oldest entry; and only
-- that bucket changes.
pub pop_oldest_of_fullest-IsFullest :
    (m : Dict Bytes (List PendingBlob)) (v : Bytes) (old : PendingBlob)
    (m' : Dict Bytes (List PendingBlob))
    → Dict.Distinct bytes_dec m
    → pop_oldest_of_fullest m ≡ some (v, old, m')
    → (rest : List PendingBlob) × IsFullest m v old rest
      × ((j : Bytes) → bucket_in j m' ≡ updated (λ i. bucket_in i m) v rest j)
unfolding pop_oldest_of_fullest pop_front
pop_oldest_of_fullest-IsFullest m v old m' d h = elim (Option-cases (fullest (candidates m))) [
  | inl empty ↦ absurd (ground arith)
  | inr (u, full) ↦
      let (first, rest, found, most) = fullest-IsFullest m u d (candidates m) refl full in
      let eqs : (u ≡ v) × (first ≡ old) × (set_bucket u rest m ≡ m') = ground arith in
      (
        rest,
        ground arith,
        λ j.
            ap (bucket_in j) (sym eqs.2)
            ∙ bucket_in-set_bucket u m d rest j
            ∙ ap (λ (i : Bytes). updated (λ i. bucket_in i m) i rest j) eqs.0,
      )
]

candidates-nil :
    (m : Dict Bytes (List PendingBlob)) (j : Bytes)
    → fullest (candidates m) ≡ none
    → bucket_in j m ≡ []
unfolding candidates fullest bucket_in Dict.find
candidates-nil [] j h = refl
candidates-nil ((i, []) ∷ m) j h = ground (arith, candidates-nil m j h)
candidates-nil ((i, e ∷ es) ∷ m) j h = absurd (ground arith)

-- The eviction fails only when every bucket is empty.
pub pop_oldest_of_fullest-none :
    (m : Dict Bytes (List PendingBlob)) (j : Bytes)
    → Dict.Distinct bytes_dec m
    → pop_oldest_of_fullest m ≡ none
    → bucket_in j m ≡ []
unfolding pop_oldest_of_fullest pop_front
pop_oldest_of_fullest-none m j d h = elim (Option-cases (fullest (candidates m))) [
  | inl empty ↦ candidates-nil m j empty
  | inr (u, full) ↦
      let (first, rest, found, most) = fullest-IsFullest m u d (candidates m) refl full in
      absurd (ground arith)
]
