-- ===== src/Notify/Keys.antt =====
-- The key of a registration in rfed/src/notify/mod.rs: subscriber, channel and relay, unique as in the
-- table's UNIQUE constraint; and what is registered after each operation.
use rfed.Base.{
  ℕ, ◌≡◌, refl, ◌∙◌, List, [], ◌∷◌, filter, Option, none, some, Bytes, same, Bool, true, false, not,
  ◌&&◌, ◌||◌, any, is_empty, arith, Bool-cases, inl, inr,
}
use rfed.Notify.Registry.{
  NotifyRegistration, NotifyRegistry, same_channel, is_triple, register_in, register, retain,
  unregister, clear,
}

-- A channel's hash is not empty, so it is never mistaken for none.
abbrev pub is_named : NotifyRegistration → Bool
is_named r = elim r.channel_hash [ none ↦ true | some channel ↦ not (is_empty channel) ]

abbrev pub is_named_channel : Option Bytes → Bool
is_named_channel none = true
is_named_channel (some channel) = not (is_empty channel)

abbrev pub Unique : List NotifyRegistration → Type 0
Unique [] = Unit {0}
Unique (r ∷ rs) =
    (any (is_triple r.subscriber_hash r.channel_hash r.relay_hash) rs ≡ false)
    × (is_named r ≡ true)
    × Unique rs

any-filter :
    (test keep : NotifyRegistration → Bool) (rs : List NotifyRegistration)
    → any test (filter keep rs) ≡ any (λ r. test r && keep r) rs
any-filter test keep [] = refl
any-filter test keep (r ∷ rs) = ground (arith, any-filter test keep rs)

any-none :
    (test keep : NotifyRegistration → Bool) (rs : List NotifyRegistration)
    → any test rs ≡ false
    → any test (filter keep rs) ≡ false
any-none test keep [] h = refl
any-none test keep (r ∷ rs) h = ground (arith, any-none test keep rs)

filter-Unique :
    (keep : NotifyRegistration → Bool) (rs : List NotifyRegistration)
    → Unique rs
    → Unique (filter keep rs)
filter-Unique keep [] u = tt
filter-Unique keep (r ∷ rs) u = elim (Bool-cases (keep r)) [
  | inl kept ↦ rw kept (any-none _ keep rs u.0, u.1, filter-Unique keep rs u.2)
  | inr dropped ↦ rw dropped (filter-Unique keep rs u.2)
]

module _ (s : Bytes) (c : Option Bytes) (relay : Bytes) (now : ℕ) where
  register_in-triples :
      (s' : Bytes) (c' : Option Bytes) (relay' : Bytes) (rs : List NotifyRegistration)
      → any (is_triple s' c' relay') (register_in s c relay now rs).0 ≡ (
          any (is_triple s' c' relay') rs
          || (same s s' && (same_channel c c' && same relay relay')))
  unfolding register_in
  register_in-triples s' c' relay' [] = ground arith
  register_in-triples s' c' relay' (r ∷ rs) = elim (Bool-cases (is_triple s c relay r)) [
    | inl hit ↦
        rw hit (absorb (is_triple s' c' relay' r) (any (is_triple s' c' relay') rs) _ (own hit))
    | inr miss ↦
        rw miss (regroup (is_triple s' c' relay' r) _ _ _ (register_in-triples s' c' relay' rs))
  ]
    where
      absorb : (a b x : Bool) → a ≡ x → (a || b) ≡ ((a || b) || x)
      absorb a b x h = ground arith

      regroup : (a b x y : Bool) → b ≡ (x || y) → (a || b) ≡ ((a || x) || y)
      regroup a b x y h = ground arith

      own :
          is_triple s c relay r ≡ true
          → is_triple s' c' relay' r ≡ (same s s' && (same_channel c c' && same relay relay'))
      own h = ground arith

  register_hit :
      (r : NotifyRegistration) (rs : List NotifyRegistration)
      → is_triple s c relay r ≡ true
      → (register_in s c relay now (r ∷ rs)).0 ≡ record r { registered = now } ∷ rs
  unfolding register_in
  register_hit r rs h = rw h

  register_miss :
      (r : NotifyRegistration) (rs : List NotifyRegistration)
      → is_triple s c relay r ≡ false
      → (register_in s c relay now (r ∷ rs)).0 ≡ r ∷ (register_in s c relay now rs).0
  unfolding register_in
  register_miss r rs h = rw h

  register_in-Unique :
      (rs : List NotifyRegistration)
      → is_named_channel c ≡ true
      → Unique rs
      → Unique (register_in s c relay now rs).0
  unfolding register_in
  register_in-Unique [] n u = (refl, ground arith, tt)
  register_in-Unique (r ∷ rs) n u = elim (Bool-cases (is_triple s c relay r)) [
    | inl hit ↦ rw (register_hit r rs hit) u
    | inr miss ↦ rw (register_miss r rs miss) (
      register_in-triples r.subscriber_hash r.channel_hash r.relay_hash rs
          ∙ neither u.0 (flipped r miss),
      u.1,
      register_in-Unique rs n u.2,
    )
  ]
    where
      neither : {a b : Bool} → a ≡ false → b ≡ false → (a || b) ≡ false
      neither h k = ground arith

      flipped :
          (r : NotifyRegistration)
          → is_triple s c relay r ≡ false
          → (same s r.subscriber_hash && (same_channel c r.channel_hash && same relay r.relay_hash))
            ≡ false
      flipped r h = ground arith

-- From unique triples, every operation of the registry keeps them unique, if the channel's hash,
-- where there is one, is not empty.
operations-Unique :
    (n : NotifyRegistry) (s : Bytes) (c : Option Bytes) (relay : Bytes) (now : ℕ)
    → Unique n.registrations
    → is_named_channel c ≡ true
    → Unique (register n s c relay now).registrations
      × Unique (unregister n s c relay).registrations
      × Unique (clear n s).registrations
unfolding register unregister clear retain
operations-Unique n s c relay now u named = (
  register_in-Unique s c relay now n.registrations named u,
  filter-Unique _ n.registrations u,
  filter-Unique _ n.registrations u,
)

cleared-triples :
    (s s' : Bytes) (c' : Option Bytes) (relay' : Bytes) (rs : List NotifyRegistration)
    → any (is_triple s' c' relay') (filter (λ r. not (same r.subscriber_hash s)) rs)
      ≡ (any (is_triple s' c' relay') rs && not (same s s'))
cleared-triples s s' c' relay' [] = refl
cleared-triples s s' c' relay' (r ∷ rs) = ground (arith, cleared-triples s s' c' relay' rs)

unregistered-triples :
    (s : Bytes) (c : Option Bytes) (relay s' : Bytes) (c' : Option Bytes) (relay' : Bytes)
    (rs : List NotifyRegistration)
    → any (is_triple s' c' relay') (filter (λ r. not (is_triple s c relay r)) rs) ≡ (
        any (is_triple s' c' relay') rs
        && not (same s s' && (same_channel c c' && same relay relay')))
unregistered-triples s c relay s' c' relay' [] = refl
unregistered-triples s c relay s' c' relay' (r ∷ rs) =
    let ih = unregistered-triples s c relay s' c' relay' rs in
    elim (Bool-cases (is_triple s c relay r)) [
      | inl hit ↦ rw hit (dropped (is_triple s' c' relay' r) _ _ _ (own hit) ih)
      | inr miss ↦ rw miss (kept (is_triple s' c' relay' r) _ _ _ (other miss) ih)
    ]
  where
    dropped : (t a b x : Bool) → t ≡ x → b ≡ (a && not x) → b ≡ ((t || a) && not x)
    dropped t a b x e h = ground arith

    kept : (t a b x : Bool) → (t && x) ≡ false → b ≡ (a && not x) → (t || b) ≡ ((t || a) && not x)
    kept t a b x e h = ground arith

    own :
        is_triple s c relay r ≡ true
        → is_triple s' c' relay' r ≡ (same s s' && (same_channel c c' && same relay relay'))
    own h = ground arith

    other :
        is_triple s c relay r ≡ false
        → (is_triple s' c' relay' r && (same s s' && (same_channel c c' && same relay relay')))
          ≡ false
    other h = ground arith

-- A registration adds its own triple and no other, an unregistration removes its own and no other,
-- and a clear removes all those of the subscriber and no others.
register-is_triple :
    (n : NotifyRegistry) (s : Bytes) (c : Option Bytes) (relay : Bytes) (now : ℕ) (s' : Bytes)
    (c' : Option Bytes) (relay' : Bytes)
    → let held : NotifyRegistry → Bool = λ m. any (is_triple s' c' relay') m.registrations in
      let own = same s s' && (same_channel c c' && same relay relay') in
      (held (register n s c relay now) ≡ (held n || own))
      × (held (unregister n s c relay) ≡ (held n && not own))
      × (held (clear n s) ≡ (held n && not (same s s')))
unfolding register unregister clear retain
register-is_triple n s c relay now s' c' relay' = (
  register_in-triples s c relay now s' c' relay' n.registrations,
  unregistered-triples s c relay s' c' relay' n.registrations,
  cleared-triples s s' c' relay' n.registrations,
)
