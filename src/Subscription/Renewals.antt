-- ===== src/Subscription/Renewals.antt =====
-- What `renew`, `subscribe` and `subscribe_backup` of rfed/src/subscription.rs write is the change
-- they made to the entries.
use rfed.Base.{
  ℕ, ◌≡◌, refl, sym, ap, ◌∙◌, inl, inr, List, [], ◌∷◌, ◌++◌, map, Option, none, some, Bytes, Bool,
  true, false, ◌&&◌, any, is_empty, arith, Bool-cases, same_eq,
}
use rfed.Subscription.Table.{
  SubscriptionEntry, Row, to_row, owner_blob, is_pair, due, renew_entry, renew_loop, backup_entry,
  refresh,
}
use rfed.Subscription.Keys.{has_key, Unique}
use rfed.Subscription.Rows.{upsert}

module _ (s c : Bytes) (now : ℕ) where
  own_key : List SubscriptionEntry → Bool
  own_key = any (has_key s c [])

  renew_loop-idle :
      (es : List SubscriptionEntry)
      → own_key es ≡ false
      → ((renew_loop s c now es).entries ≡ es) × ((renew_loop s c now es).renewed ≡ none)
  unfolding renew_loop renew_entry own_key
  renew_loop-idle [] h = (refl, refl)
  renew_loop-idle (e ∷ es) h =
      (ground (arith, renew_loop-idle es), ground (arith, renew_loop-idle es))

  renew_loop-renewed :
      (es : List SubscriptionEntry) (f : SubscriptionEntry)
      → (renew_loop s c now es).renewed ≡ some f
      → (f.subscriber_hash ≡ s)
        × (f.channel_hash ≡ c)
        × (f.owner_node_hash ≡ none)
        × (own_key es ≡ true)
  unfolding renew_loop renew_entry own_key
  renew_loop-renewed [] f h = absurd (ground arith)
  renew_loop-renewed (e ∷ es) f h =
      ground (arith, renew_loop-renewed es f, same_eq e.subscriber_hash s, same_eq e.channel_hash c)

  abbrev pub write_rows : Option SubscriptionEntry → List Row → List Row
  write_rows none rows = rows
  write_rows (some f) rows = upsert (to_row f) rows

  head_not_own :
      (e : SubscriptionEntry) (es : List SubscriptionEntry)
      → Unique (e ∷ es)
      → own_key es ≡ true
      → ((is_pair s c e && is_empty (owner_blob e.owner_node_hash)) ≡ false)
        × ((is_pair s c e && due now e) ≡ false)
  unfolding own_key
  head_not_own e es u h =
      let other : (is_pair s c e && is_empty (owner_blob e.owner_node_hash)) ≡ false =
        ground arith in
      (other, ground arith)

  write_rows-cons :
      (o : Option SubscriptionEntry) (e : SubscriptionEntry) (rows : List Row)
      → (is_pair s c e && is_empty (owner_blob e.owner_node_hash)) ≡ false
      → ((f : SubscriptionEntry)
          → o ≡ some f
          → (f.subscriber_hash ≡ s) × (f.channel_hash ≡ c) × (f.owner_node_hash ≡ none))
      → write_rows o (to_row e ∷ rows) ≡ to_row e ∷ write_rows o rows
  unfolding upsert to_row
  write_rows-cons none e rows h shape = refl
  write_rows-cons (some f) e rows h shape = ground (arith, shape f refl)

  renew_loop-skip :
      (e : SubscriptionEntry) (es : List SubscriptionEntry)
      → (is_pair s c e && due now e) ≡ false
      → ((renew_loop s c now (e ∷ es)).entries ≡ e ∷ (renew_loop s c now es).entries)
        × ((renew_loop s c now (e ∷ es)).renewed ≡ (renew_loop s c now es).renewed)
  unfolding renew_loop renew_entry
  renew_loop-skip e es h = (ground arith, ground arith)

  renew_loop-hit :
      (e : SubscriptionEntry) (es : List SubscriptionEntry)
      → own_key es ≡ false
      → (is_pair s c e && due now e) ≡ true
      → map to_row (renew_loop s c now (e ∷ es)).entries
        ≡ write_rows (renew_loop s c now (e ∷ es)).renewed (map to_row (e ∷ es))
  unfolding renew_loop renew_entry upsert to_row
  renew_loop-hit e es idle h = ground (arith, renew_loop-idle es idle)

  -- The write of a renewal is the change that memory made.
  pub renew_loop-rows :
      (es : List SubscriptionEntry)
      → Unique es
      → map to_row (renew_loop s c now es).entries
        ≡ write_rows (renew_loop s c now es).renewed (map to_row es)
  unfolding renew_loop
  renew_loop-rows [] u = refl
  renew_loop-rows (e ∷ es) u = elim (Bool-cases (own_key es)) [
    | inl other ↦
        skip (head_not_own e es u other).1 (head_not_own e es u other).0 (renew_loop-rows es u.2)
    | inr idle ↦ elim (Bool-cases (is_pair s c e && due now e)) [
      | inl hit ↦ renew_loop-hit e es idle hit
      | inr miss ↦
          let r = renew_loop-skip e es miss in
          let i = renew_loop-idle es idle in rw (r.0, r.1, i.0, i.1) refl
    ]
  ]
    where
      skip :
          (is_pair s c e && due now e) ≡ false
          → (is_pair s c e && is_empty (owner_blob e.owner_node_hash)) ≡ false
          → map to_row (renew_loop s c now es).entries
            ≡ write_rows (renew_loop s c now es).renewed (map to_row es)
          → map to_row (renew_loop s c now (e ∷ es)).entries
            ≡ write_rows (renew_loop s c now (e ∷ es)).renewed (map to_row (e ∷ es))
      skip miss other ih =
          let r = renew_loop-skip e es miss in
          rw (r.0, r.1)
            (ap (◌∷◌ (to_row e)) ih
              ∙ sym (
                  write_rows-cons (renew_loop s c now es).renewed e (map to_row es) other λ f found.
                    let shape = renew_loop-renewed es f found in (shape.0, shape.1, shape.2)))

pub upsert-push :
    (e : SubscriptionEntry) (es : List SubscriptionEntry)
    → any (has_key e.subscriber_hash e.channel_hash (owner_blob e.owner_node_hash)) es ≡ false
    → upsert (to_row e) (map to_row es) ≡ map to_row (es ++ e ∷ [])
unfolding upsert to_row
upsert-push e [] h = refl
upsert-push e (x ∷ xs) h = ground (arith, upsert-push e xs)

-- A refreshed backup entry is written as it stands.
pub refresh-rows :
    (s c o : Bytes) (now : ℕ) (es : List SubscriptionEntry)
    → is_empty o ≡ false
    → map to_row (refresh s c o now es).0 ≡ upsert (to_row (refresh s c o now es).1) (map to_row es)
      × (((refresh s c o now es).1.subscriber_hash ≡ s)
          × ((refresh s c o now es).1.channel_hash ≡ c)
          × (owner_blob (refresh s c o now es).1.owner_node_hash ≡ o))
unfolding refresh backup_entry upsert to_row
refresh-rows s c o now [] n = (refl, (refl, refl, refl))
refresh-rows s c o now (e ∷ es) n =
    let ih = refresh-rows s c o now es n in
    (ground (arith, ih), ground (arith, ih, same_eq e.subscriber_hash s, same_eq e.channel_hash c))
