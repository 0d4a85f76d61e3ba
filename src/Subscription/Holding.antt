-- ===== src/Subscription/Holding.antt =====
-- Who is subscribed to what, after each operation of rfed/src/subscription.rs.
use rfed.Base.{
  ℕ, ◌≡◌, refl, List, [], ◌∷◌, ◌++◌, Bytes, same, Bool, not, ◌&&◌, ◌||◌, any, filter, arith,
  same_eq,
}
use rfed.Subscription.Table.{
  SubscriptionEntry, SubscriptionTable, is_pair, renew_entry, renew_loop, renew, own_entry,
  subscribe, backup_entry, refresh, subscribe_backup, unsubscribe, is_subscribed,
}

any-filter-out :
    (test keep : SubscriptionEntry → Bool) (es : List SubscriptionEntry)
    → any test (filter keep es) ≡ any (λ e. test e && keep e) es
any-filter-out test keep [] = refl
any-filter-out test keep (e ∷ es) = ground (arith, any-filter-out test keep es)

any-append :
    (test : SubscriptionEntry → Bool) (es fs : List SubscriptionEntry)
    → any test (es ++ fs) ≡ (any test es || any test fs)
any-append test [] fs = refl
any-append test (e ∷ es) fs = ground (arith, any-append test es fs)

renew_loop-held :
    (s c : Bytes) (now : ℕ) (es : List SubscriptionEntry)
    → (renew_loop s c now es).held ≡ any (is_pair s c) es
unfolding renew_loop renew_entry
renew_loop-held s c now [] = refl
renew_loop-held s c now (e ∷ es) = ground (arith, renew_loop-held s c now es)

renew_loop-pairs :
    (s c s' c' : Bytes) (now : ℕ) (es : List SubscriptionEntry)
    → any (is_pair s' c') (renew_loop s c now es).entries ≡ any (is_pair s' c') es
unfolding renew_loop renew_entry
renew_loop-pairs s c s' c' now [] = refl
renew_loop-pairs s c s' c' now (e ∷ es) = ground (arith, renew_loop-pairs s c s' c' now es)

-- A renewal says whether the subscription is held, and changes who is subscribed to nothing.
renew-is_subscribed :
    (t : SubscriptionTable) (s c s' c' : Bytes) (now : ℕ)
    → ((renew t s c now).1 ≡ is_subscribed t s c)
      × (is_subscribed (renew t s c now).0 s' c' ≡ is_subscribed t s' c')
unfolding renew is_subscribed
renew-is_subscribed t s c s' c' now =
    (renew_loop-held s c now t.entries, renew_loop-pairs s c s' c' now t.entries)

refresh-pairs :
    (s c o s' c' : Bytes) (now : ℕ) (es : List SubscriptionEntry)
    → any (is_pair s' c') (refresh s c o now es).0
      ≡ (any (is_pair s' c') es || (same s s' && same c c'))
unfolding refresh backup_entry
refresh-pairs s c o s' c' now [] = ground arith
refresh-pairs s c o s' c' now (e ∷ es) =
    ground (
      arith,
      refresh-pairs s c o s' c' now es,
      same_eq e.subscriber_hash s,
      same_eq e.channel_hash c,
    )

unsubscribed-pairs :
    (s c s' c' : Bytes) (es : List SubscriptionEntry)
    → any (is_pair s' c') (filter (λ e. not (is_pair s c e)) es)
      ≡ (any (is_pair s' c') es && not (same s s' && same c c'))
unsubscribed-pairs s c s' c' [] = refl
unsubscribed-pairs s c s' c' (e ∷ es) = ground (arith, unsubscribed-pairs s c s' c' es)

-- A subscription, own or backup, adds its own pair and no other; an unsubscription removes its own
-- pair, backup entries included, and no other.
subscribe-is_subscribed :
    (t : SubscriptionTable) (s c o s' c' : Bytes) (now : ℕ)
    → (is_subscribed (subscribe t s c now) s' c'
        ≡ (is_subscribed t s' c' || (same s s' && same c c')))
      × (is_subscribed (subscribe_backup t s c o now) s' c'
          ≡ (is_subscribed t s' c' || (same s s' && same c c')))
      × (is_subscribed (unsubscribe t s c) s' c'
          ≡ (is_subscribed t s' c' && not (same s s' && same c c')))
unfolding is_subscribed subscribe renew subscribe_backup unsubscribe own_entry
subscribe-is_subscribed t s c o s' c' now = (
  ground (
    arith,
    renew_loop-held s c now t.entries,
    renew_loop-pairs s c s' c' now t.entries,
    any-append (is_pair s' c') (renew_loop s c now t.entries).entries (own_entry s c now ∷ []),
  ),
  refresh-pairs s c o s' c' now t.entries,
  unsubscribed-pairs s c s' c' t.entries,
)
