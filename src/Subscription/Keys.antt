-- ===== src/Subscription/Keys.antt =====
-- The key of an entry in rfed/src/subscription.rs: subscriber, channel and owner, unique as in the
-- table's UNIQUE constraint.
use rfed.Base.{
  ℕ, ◌≡◌, refl, ap, ◌∙◌, inl, inr, List, [], ◌∷◌, ◌++◌, none, some, Bytes, same, Bool, true, false,
  not, ◌&&◌, ◌||◌, any, filter, is_empty, arith, Bool-cases, same_eq,
}
use rfed.Subscription.Table.{
  SubscriptionEntry, SubscriptionTable, owner_blob, is_pair, renew_entry, renew_loop, renew,
  own_entry, subscribe, expire_stale, is_backup_of, backup_entry, refresh, subscribe_backup,
  unsubscribe, prune_stale_backups,
}

abbrev pub has_key : Bytes → Bytes → Bytes → SubscriptionEntry → Bool
has_key s c o e = is_pair s c e && same (owner_blob e.owner_node_hash) o

-- A hash of an owner is not empty, so it is never mistaken for none.
abbrev pub is_named : SubscriptionEntry → Bool
is_named e = elim e.owner_node_hash [ none ↦ true | some owner ↦ not (is_empty owner) ]

abbrev pub Unique : List SubscriptionEntry → Type 0
Unique [] = Unit {0}
Unique (e ∷ es) =
    (any (has_key e.subscriber_hash e.channel_hash (owner_blob e.owner_node_hash)) es ≡ false)
    × (is_named e ≡ true)
    × Unique es

any-filter :
    (test keep : SubscriptionEntry → Bool) (es : List SubscriptionEntry)
    → any test es ≡ false
    → any test (filter keep es) ≡ false
any-filter test keep [] h = refl
any-filter test keep (e ∷ es) h = ground (arith, any-filter test keep es)

filter-Unique :
    (keep : SubscriptionEntry → Bool) (es : List SubscriptionEntry)
    → Unique es
    → Unique (filter keep es)
filter-Unique keep [] u = tt
filter-Unique keep (e ∷ es) u = elim (Bool-cases (keep e)) [
  | inl kept ↦ rw kept (any-filter _ keep es u.0, u.1, filter-Unique keep es u.2)
  | inr dropped ↦ rw dropped (filter-Unique keep es u.2)
]

any-push :
    (test : SubscriptionEntry → Bool) (es : List SubscriptionEntry) (e : SubscriptionEntry)
    → any test (es ++ e ∷ []) ≡ (any test es || test e)
any-push test [] e = ground arith
any-push test (x ∷ xs) e = ground (arith, any-push test xs e)

push-Unique :
    (es : List SubscriptionEntry) (e : SubscriptionEntry)
    → Unique es
    → is_named e ≡ true
    → any (has_key e.subscriber_hash e.channel_hash (owner_blob e.owner_node_hash)) es ≡ false
    → Unique (es ++ e ∷ [])
push-Unique [] e u n h = (refl, n, tt)
push-Unique (x ∷ xs) e u n h = (
  ground (
    arith,
    any-push (has_key x.subscriber_hash x.channel_hash (owner_blob x.owner_node_hash)) xs e,
    same_eq x.subscriber_hash e.subscriber_hash,
  ),
  u.1,
  push-Unique xs e u.2 n (ground arith),
)

module _ (s c : Bytes) (now : ℕ) where
  renew_loop-keys :
      (s' c' o' : Bytes) (es : List SubscriptionEntry)
      → any (has_key s' c' o') (renew_loop s c now es).entries ≡ any (has_key s' c' o') es
  unfolding renew_loop renew_entry
  renew_loop-keys s' c' o' [] = refl
  renew_loop-keys s' c' o' (e ∷ es) = ground (arith, renew_loop-keys s' c' o' es)

  pub renew_loop-Unique :
      (es : List SubscriptionEntry) → Unique es → Unique (renew_loop s c now es).entries
  unfolding renew_loop renew_entry
  renew_loop-Unique [] u = tt
  renew_loop-Unique (e ∷ es) u = ground (
    arith,
    renew_loop-Unique es u.2,
    renew_loop-keys e.subscriber_hash e.channel_hash (owner_blob e.owner_node_hash) es,
  )

  refresh_hit :
      (o : Bytes) (e : SubscriptionEntry) (es : List SubscriptionEntry)
      → (is_pair s c e && is_backup_of o e) ≡ true
      → (refresh s c o now (e ∷ es)).0 ≡ record e { last_refreshed = now } ∷ es
  unfolding refresh
  refresh_hit o e es h = rw h

  refresh_miss :
      (o : Bytes) (e : SubscriptionEntry) (es : List SubscriptionEntry)
      → (is_pair s c e && is_backup_of o e) ≡ false
      → (refresh s c o now (e ∷ es)).0 ≡ e ∷ (refresh s c o now es).0
  unfolding refresh
  refresh_miss o e es h = rw h

  refresh-keys :
      (o s' c' o' : Bytes) (es : List SubscriptionEntry)
      → any (has_key s' c' o') (refresh s c o now es).0
        ≡ (any (has_key s' c' o') es || (same s s' && same c c' && same o o'))
  unfolding refresh backup_entry
  refresh-keys o s' c' o' [] = ground arith
  refresh-keys o s' c' o' (e ∷ es) = elim (Bool-cases (is_pair s c e && is_backup_of o e)) [
    | inl hit ↦
        ap (any (has_key s' c' o')) (refresh_hit o e es hit)
        ∙ absorb (has_key s' c' o' e) (any (has_key s' c' o') es)
            (same s s' && same c c' && same o o') (own_key o s' c' o' e hit)
    | inr miss ↦
        ap (any (has_key s' c' o')) (refresh_miss o e es miss)
        ∙ regroup (has_key s' c' o' e) _ _ _ (refresh-keys o s' c' o' es)
  ]
    where
      absorb : (a b r : Bool) → a ≡ r → (a || b) ≡ ((a || b) || r)
      absorb a b r h = ground arith

      regroup : (a b x y : Bool) → b ≡ (x || y) → (a || b) ≡ ((a || x) || y)
      regroup a b x y h = ground arith

      own_key :
          (o s' c' o' : Bytes) (e : SubscriptionEntry)
          → (is_pair s c e && is_backup_of o e) ≡ true
          → has_key s' c' o' e ≡ (same s s' && same c c' && same o o')
      own_key o s' c' o' e h = ground arith

  refresh-Unique :
      (o : Bytes) (es : List SubscriptionEntry)
      → is_empty o ≡ false
      → Unique es
      → Unique (refresh s c o now es).0
  unfolding refresh backup_entry
  refresh-Unique o [] n u = (refl, ground arith, tt)
  refresh-Unique o (e ∷ es) n u = elim (Bool-cases (is_pair s c e && is_backup_of o e)) [
    | inl hit ↦ rw (refresh_hit o e es hit) u
    | inr miss ↦ rw (refresh_miss o e es miss) (
      refresh-keys o e.subscriber_hash e.channel_hash (owner_blob e.owner_node_hash) es
          ∙ no_other (other_key o e n miss) u.0,
      u.1,
      refresh-Unique o es n u.2,
    )
  ]
    where
      other_key :
          (o : Bytes) (e : SubscriptionEntry)
          → is_empty o ≡ false
          → (is_pair s c e && is_backup_of o e) ≡ false
          → (same s e.subscriber_hash
              && same c e.channel_hash
              && same o (owner_blob e.owner_node_hash))
            ≡ false
      other_key o e n h = ground arith

      no_other : {a b : Bool} → b ≡ false → a ≡ false → (a || b) ≡ false
      no_other h k = ground arith

renew_loop-unheld :
    (s c : Bytes) (now : ℕ) (es : List SubscriptionEntry)
    → (renew_loop s c now es).held ≡ false
    → any (has_key s c []) es ≡ false
unfolding renew_loop renew_entry
renew_loop-unheld s c now [] h = refl
renew_loop-unheld s c now (e ∷ es) h = ground (arith, renew_loop-unheld s c now es)

pub renew-keyless :
    (t : SubscriptionTable) (s c : Bytes) (now : ℕ)
    → (renew t s c now).1 ≡ false
    → any (has_key s c []) (renew t s c now).0.entries ≡ false
unfolding renew
renew-keyless t s c now h =
    renew_loop-keys s c now s c [] t.entries ∙ renew_loop-unheld s c now t.entries h

-- From unique keys, every operation keeps them unique, a backup for an owner whose hash is not
-- empty included: at most one own entry, and one of each backup owner, for a subscriber and
-- channel.
subscribe-Unique :
    (t : SubscriptionTable) (s c o : Bytes) (max_age now : ℕ)
    → Unique t.entries
    → is_empty o ≡ false
    → Unique (subscribe t s c now).entries
      × Unique (subscribe_backup t s c o now).entries
      × Unique (renew t s c now).0.entries
      × Unique (unsubscribe t s c).entries
      × Unique (expire_stale t c max_age now).0.entries
      × Unique (prune_stale_backups t max_age now).0.entries
unfolding subscribe subscribe_backup renew unsubscribe expire_stale prune_stale_backups own_entry
subscribe-Unique t s c o max_age now u n =
    let renewed = renew_loop-Unique s c now t.entries u in
    (
      elim (Bool-cases (renew_loop s c now t.entries).held) [
        | inl held ↦ rw held renewed
        | inr fresh ↦ rw fresh (
            push-Unique _ (own_entry s c now) renewed refl (
              renew_loop-keys s c now s c [] t.entries ∙ renew_loop-unheld s c now t.entries fresh))
      ],
      refresh-Unique s c now o t.entries n u,
      renewed,
      filter-Unique _ t.entries u,
      filter-Unique _ t.entries u,
      filter-Unique _ t.entries u,
    )
