-- ===== src/Subscription/Deletions.antt =====
-- What the deletions of rfed/src/subscription.rs delete is what memory dropped.
use rfed.Base.{
  ℕ, ◌≡◌, refl, ap, ◌∙◌, List, [], ◌∷◌, map, Bytes, same, mem, Bool, true, false, not, ◌&&◌, ◌||◌,
  any, length, ltb, leb, filter, is_empty, arith, same_eq, same_refl, All, ◌≤◌,
}
use rfed.Store.{exec_all}
use rfed.Subscription.Table.{
  SubscriptionEntry, Row, Stmt, delete_own, to_row, owner_blob, is_pair, is_stale, is_current,
}
use rfed.Subscription.Keys.{has_key, Unique}
use rfed.Subscription.Rows.{in_pair, Sqlite}

pub filter-map :
    (keep : SubscriptionEntry → Bool) (keep' : Row → Bool) (es : List SubscriptionEntry)
    → All (λ e. keep' (to_row e) ≡ keep e) es
    → filter keep' (map to_row es) ≡ map to_row (filter keep es)
filter-map keep keep' [] a = refl
filter-map keep keep' (e ∷ es) a = ground (arith, filter-map keep keep' es a.1)

filter-filter :
    (p q : Row → Bool) (rows : List Row) → filter q (filter p rows) ≡ filter (λ r. p r && q r) rows
filter-filter p q [] = refl
filter-filter p q (r ∷ rows) = ground (arith, filter-filter p q rows)

pub pairs-All :
    (s c : Bytes) (es : List SubscriptionEntry)
    → All (λ e. not (in_pair s c (to_row e)) ≡ not (is_pair s c e)) es
unfolding to_row
pairs-All s c [] = tt
pairs-All s c (e ∷ es) = (refl, pairs-All s c es)

pub current-All :
    (cutoff : ℕ) (es : List SubscriptionEntry)
    → Unique es
    → All
        (λ e.
          (is_empty (to_row e).owner_node_hash || leb cutoff (to_row e).last_refreshed)
          ≡ is_current cutoff e)
        es
unfolding to_row
current-All cutoff [] u = tt
current-All cutoff (e ∷ es) u = (ground arith, current-All cutoff es u.2)

-- Deleting the own rows of several subscribers of a channel, one statement each.
abbrev spared : Bytes → List Bytes → Row → Bool
spared c expired r =
    not (mem r.subscriber_hash expired && (same r.channel_hash c && is_empty r.owner_node_hash))

filter-cong :
    (p q : Row → Bool) (rows : List Row) → ((r : Row) → p r ≡ q r) → filter p rows ≡ filter q rows
filter-cong p q [] h = refl
filter-cong p q (r ∷ rows) h = ground (arith, h r, filter-cong p q rows h)

module _ (exec : List Row → Stmt → List Row) (sql : Sqlite exec) (c : Bytes) where
  pub delete_each :
      (expired : List Bytes) (rows : List Row)
      → exec_all exec rows (map (λ s. delete_own s c) expired) ≡ filter (spared c expired) rows
  unfolding exec_all
  delete_each [] rows = filter_all rows
    where
      filter_all : (rows : List Row) → rows ≡ filter (spared c []) rows
      filter_all [] = refl
      filter_all (r ∷ rows) = ground (arith, filter_all rows)
  delete_each (s ∷ expired) rows =
      ap (λ (l : List Row). exec_all exec l (map (λ s. delete_own s c) expired))
        (sql.deletes_own rows s c)
      ∙ delete_each expired (filter (λ r. not (in_pair s c r && is_empty r.owner_node_hash)) rows)
      ∙ filter-filter _ _ rows
      ∙ filter-cong _ _ rows (λ r. both r)
    where
      both :
          (r : Row)
          → (not (in_pair s c r && is_empty r.owner_node_hash) && spared c expired r)
            ≡ spared c (s ∷ expired) r
      both r = ground (arith, same_eq r.subscriber_hash s, same_eq s r.subscriber_hash)

module _ (c : Bytes) (cutoff : ℕ) where
  abbrev pub gone : List SubscriptionEntry → List Bytes
  gone es = map (λ e. e.subscriber_hash) (filter (is_stale c cutoff) es)

  gone-own :
      (s : Bytes) (es : List SubscriptionEntry)
      → any (has_key s c []) es ≡ false
      → mem s (gone es) ≡ false
  gone-own s [] h = refl
  gone-own s (e ∷ es) h = ground (arith, gone-own s es)

  keyless-All :
      (s o : Bytes) (es : List SubscriptionEntry)
      → any (has_key s c o) es ≡ false
      → All (λ e. has_key s c o e ≡ false) es
  keyless-All s o [] h = tt
  keyless-All s o (e ∷ es) h = (ground arith, keyless-All s o es (ground arith))

  -- With unique keys, the statements spare exactly the entries that memory keeps.
  unfoldable pub Spares : List Bytes → List SubscriptionEntry → Type 0
  Spares expired = All (λ e. spared c expired (to_row e) ≡ not (is_stale c cutoff e))

  spare_head :
      (e : SubscriptionEntry) (es : List SubscriptionEntry)
      → Unique (e ∷ es)
      → spared c (gone (e ∷ es)) (to_row e) ≡ not (is_stale c cutoff e)
  unfolding to_row
  spare_head e es u =
      ground (
        arith,
        gone-own e.subscriber_hash es,
        same_refl e.subscriber_hash,
        same_eq e.channel_hash c,
      )

  spare_tail :
      (e : SubscriptionEntry) (all fs : List SubscriptionEntry)
      → Spares (gone all) fs
      → any (has_key e.subscriber_hash e.channel_hash (owner_blob e.owner_node_hash)) fs ≡ false
      → Spares (gone (e ∷ all)) fs
  unfolding to_row Spares
  spare_tail e all [] a h = tt
  spare_tail e all (f ∷ fs) a h = (
    ground (arith, a.0, same_eq e.subscriber_hash f.subscriber_hash),
    spare_tail e all fs a.1 (ground arith),
  )

  pub gone-Spares : (es : List SubscriptionEntry) → Unique es → Spares (gone es) es
  unfolding Spares
  gone-Spares [] u = tt
  gone-Spares (e ∷ es) u = (spare_head e es u, spare_tail e es es (gone-Spares es u.2) u.0)

length-filter-le :
    (keep : SubscriptionEntry → Bool) (es : List SubscriptionEntry)
    → length (filter keep es) ≤ length es
length-filter-le keep [] = omega arith
length-filter-le keep (e ∷ es) = ground (arith, length-filter-le keep es)

pub filter-all :
    (keep : SubscriptionEntry → Bool) (es : List SubscriptionEntry)
    → ltb (length (filter keep es)) (length es) ≡ false
    → filter keep es ≡ es
filter-all keep [] h = refl
filter-all keep (e ∷ es) h = ground (arith, filter-all keep es, length-filter-le keep es)

pub filter-none :
    (test : SubscriptionEntry → Bool) (es : List SubscriptionEntry)
    → is_empty (map (λ e. e.subscriber_hash) (filter test es)) ≡ true
    → filter (λ e. not (test e)) es ≡ es
filter-none test [] h = refl
filter-none test (e ∷ es) h = ground (arith, filter-none test es)
