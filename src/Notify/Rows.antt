-- ===== src/Notify/Rows.antt =====
-- The rows behind rfed/src/notify/mod.rs, and what its statements do to them.
use rfed.Base.{
  ℕ, ◌≡◌, refl, sym, ap, ◌∙◌, List, [], ◌∷◌, map, filter, Option, Bytes, same, Bool, true, false,
  not, ◌&&◌, if◌then◌else◌, All, arith, max, Bool-cases, inl, inr,
}
use rfed.Store.{Follows}
use rfed.Notify.Registry.{
  NotifyRegistration, NotifyRegistry, Row, Stmt, put_row, delete_triple, delete_subscriber,
  merge_row, to_row, channel_key, is_triple, register_in,
}
use rfed.Notify.Keys.{is_named, is_named_channel}

abbrev pub same_key : Row → Row → Bool
same_key r x =
    same x.subscriber_hash r.subscriber_hash
    && (same x.channel_hash r.channel_hash && same x.relay_hash r.relay_hash)

-- `ON CONFLICT DO UPDATE SET registered = ..`: a new row comes last.
unfoldable pub upsert : (ℕ → ℕ → ℕ) → Row → List Row → List Row
upsert update r [] = r ∷ []
upsert update r (x ∷ xs) =
    let rest = upsert update r xs in
    if same_key r x
    then record x { registered = update x.registered r.registered } ∷ xs
    else x ∷ rest

abbrev pub excluded : ℕ → ℕ → ℕ
excluded old new = new

abbrev pub in_triple : Bytes → Bytes → Bytes → Row → Bool
in_triple s c relay r =
    same r.subscriber_hash s && (same r.channel_hash c && same r.relay_hash relay)

-- What the registry relies on of SQLite: each statement does to the rows, in rowid order, what its
-- SQL says.
pub record Sqlite (exec : List Row → Stmt → List Row) : Type 0 where
  pub puts : (rows : List Row) (r : Row) → exec rows (put_row r) ≡ upsert excluded r rows
  pub merges : (rows : List Row) (r : Row) → exec rows (merge_row r) ≡ upsert max r rows
  pub deletes_triple :
      (rows : List Row) (s c relay : Bytes)
      → exec rows (delete_triple s c relay) ≡ filter (λ r. not (in_triple s c relay r)) rows
  pub deletes_subscriber :
      (rows : List Row) (s : Bytes)
      → exec rows (delete_subscriber s) ≡ filter (λ r. not (same r.subscriber_hash s)) rows

-- The rows in the database are the registrations in memory, in order.
abbrev pub Mirrors : (List Row → Stmt → List Row) → List Row → NotifyRegistry → Type 0
Mirrors exec start n = Follows exec start n.db (map to_row n.registrations)

abbrev pub Named : List NotifyRegistration → Type 0
Named = All (λ r. is_named r ≡ true)

-- Where no channel hash is empty, rows have one key just when registrations have one triple.
pub key-is_triple :
    (s : Bytes) (c : Option Bytes) (relay : Bytes) (r : NotifyRegistration)
    → is_named_channel c ≡ true
    → is_named r ≡ true
    → in_triple s (channel_key c) relay (to_row r) ≡ is_triple s c relay r
unfolding to_row
key-is_triple s c relay r n m = ground arith

pub filter-map :
    (keep : NotifyRegistration → Bool) (keep' : Row → Bool) (rs : List NotifyRegistration)
    → All (λ r. keep' (to_row r) ≡ keep r) rs
    → filter keep' (map to_row rs) ≡ map to_row (filter keep rs)
filter-map keep keep' [] a = refl
filter-map keep keep' (r ∷ rs) a = ground (arith, filter-map keep keep' rs a.1)

pub triples-All :
    (s : Bytes) (c : Option Bytes) (relay : Bytes) (rs : List NotifyRegistration)
    → is_named_channel c ≡ true
    → Named rs
    → All (λ r. not (in_triple s (channel_key c) relay (to_row r)) ≡ not (is_triple s c relay r)) rs
triples-All s c relay [] n m = tt
triples-All s c relay (r ∷ rs) n m =
    (ap not (key-is_triple s c relay r n m.0), triples-All s c relay rs n m.1)

pub filter-Named :
    (keep : NotifyRegistration → Bool) (rs : List NotifyRegistration)
    → Named rs
    → Named (filter keep rs)
filter-Named keep [] m = tt
filter-Named keep (r ∷ rs) m = elim (Bool-cases (keep r)) [
  | inl kept ↦ rw kept (m.0, filter-Named keep rs m.1)
  | inr dropped ↦ rw dropped (filter-Named keep rs m.1)
]

key-same :
    (w : NotifyRegistration) (x : Row)
    → same_key (to_row w) x
      ≡ in_triple w.subscriber_hash (channel_key w.channel_hash) w.relay_hash x
unfolding to_row
key-same w x = refl

pub upsert_skip :
    (update : ℕ → ℕ → ℕ) (r x : Row) (xs : List Row)
    → same_key r x ≡ false
    → upsert update r (x ∷ xs) ≡ x ∷ upsert update r xs
unfolding upsert
upsert_skip update r x xs h = rw h

module _ (s : Bytes) (c : Option Bytes) (relay : Bytes) (now : ℕ) where
  register_in-hit :
      (r : NotifyRegistration) (rs : List NotifyRegistration)
      → is_triple s c relay r ≡ true
      → register_in s c relay now (r ∷ rs)
        ≡ (record r { registered = now } ∷ rs, record r { registered = now })
  unfolding register_in
  register_in-hit r rs h = rw h

  register_in-miss :
      (r : NotifyRegistration) (rs : List NotifyRegistration)
      → is_triple s c relay r ≡ false
      → register_in s c relay now (r ∷ rs)
        ≡ (r ∷ (register_in s c relay now rs).0, (register_in s c relay now rs).1)
  unfolding register_in
  register_in-miss r rs h = rw h

  abbrev Writes : List NotifyRegistration → List NotifyRegistration × NotifyRegistration → Type 0
  Writes rs p =
      (map to_row p.0 ≡ upsert excluded (to_row p.1) (map to_row rs))
      × (p.1.subscriber_hash ≡ s)
      × (p.1.channel_hash ≡ c)
      × (p.1.relay_hash ≡ relay)

  register_in-nil : Writes [] (register_in s c relay now [])
  unfolding register_in upsert to_row
  register_in-nil = (refl, refl, refl, refl)

  hit-Writes :
      (r : NotifyRegistration) (rs : List NotifyRegistration)
      → is_triple s c relay r ≡ true
      → Writes (r ∷ rs) (record r { registered = now } ∷ rs, record r { registered = now })
  unfolding upsert to_row
  hit-Writes r rs h = (ground arith, ground arith, ground arith, ground arith)

  miss-Writes :
      (r : NotifyRegistration) (rs : List NotifyRegistration)
      (p : List NotifyRegistration × NotifyRegistration)
      → is_triple s c relay r ≡ false
      → is_named_channel c ≡ true
      → is_named r ≡ true
      → Writes rs p
      → Writes (r ∷ rs) (r ∷ p.0, p.1)
  miss-Writes r rs p miss n m ih = (
    ap (◌∷◌ (to_row r)) ih.0
        ∙ sym (
            upsert_skip excluded (to_row p.1) (to_row r) (map to_row rs)
              (other p.1 ih.1 ih.2 ih.3)),
    ih.1,
    ih.2,
    ih.3,
  )
    where
      other :
          (w : NotifyRegistration)
          → w.subscriber_hash ≡ s
          → w.channel_hash ≡ c
          → w.relay_hash ≡ relay
          → same_key (to_row w) (to_row r) ≡ false
      other w e f g = key-same w (to_row r) ∙ rw (e, f, g) (key-is_triple s c relay r n m ∙ miss)

  -- A registration is written as it stands.
  pub register_in-rows :
      (rs : List NotifyRegistration)
      → is_named_channel c ≡ true
      → Named rs
      → Writes rs (register_in s c relay now rs)
  register_in-rows [] n m = register_in-nil
  register_in-rows (r ∷ rs) n m = elim (Bool-cases (is_triple s c relay r)) [
    | inl hit ↦ rw (register_in-hit r rs hit) (hit-Writes r rs hit)
    | inr miss ↦
        rw (register_in-miss r rs miss)
          (miss-Writes r rs (register_in s c relay now rs) miss n m.0 (register_in-rows rs n m.1))
  ]
