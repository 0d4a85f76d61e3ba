-- ===== src/Notify/Disk.antt =====
-- The database behind rfed/src/notify/mod.rs: after every operation its rows are the registrations in
-- memory.
use rfed.Base.{
  ℕ, ◌≡◌, refl, sym, ap, ◌∙◌, List, [], ◌∷◌, map, filter, Option, Bytes, same, Bool, true, false,
  not, is_empty, All, arith, max, Bool-cases, inl, inr, length, ltb, filter-all,
}
use rfed.Store.{exec_all, write_all-Follows}
use rfed.Notify.Registry.{
  NotifyRegistration, NotifyRegistry, Row, Stmt, put_row, delete_triple, delete_subscriber, to_row,
  put_registration, channel_key, is_triple, register_in, register, retain, unregister, clear,
  moves_of, rekeyed, merge, move, move_all, move_statements, rekey_identity_channel_rows,
}
use rfed.Notify.Keys.{is_named, is_named_channel, Unique}
use rfed.Notify.Rows.{
  same_key, upsert, in_triple, Sqlite, Mirrors, Named, key-is_triple, filter-map, triples-All,
  filter-Named, register_in-rows,
}

Unique-Named : (rs : List NotifyRegistration) → Unique rs → Named rs
Unique-Named [] u = tt
Unique-Named (r ∷ rs) u = (u.1, Unique-Named rs u.2)

merge-rows :
    (new : NotifyRegistration) (rs : List NotifyRegistration)
    → is_named new ≡ true
    → Named rs
    → map to_row (merge new rs) ≡ upsert max (to_row new) (map to_row rs)
unfolding merge upsert to_row
merge-rows new [] n m = refl
merge-rows new (r ∷ rs) n m = ground (arith, merge-rows new rs n m.1)

merge-Named :
    (new : NotifyRegistration) (rs : List NotifyRegistration)
    → is_named new ≡ true
    → Named rs
    → Named (merge new rs)
unfolding merge
merge-Named new [] n m = (n, tt)
merge-Named new (r ∷ rs) n m =
    elim (Bool-cases (is_triple new.subscriber_hash new.channel_hash new.relay_hash r)) [
      | inl hit ↦ rw hit m
      | inr miss ↦ rw miss (m.0, merge-Named new rs n m.1)
    ]

filter-upsert :
    (s c relay : Bytes) (r : Row) (rows : List Row)
    → in_triple s c relay r ≡ false
    → filter (λ x. not (in_triple s c relay x)) (upsert max r rows)
      ≡ upsert max r (filter (λ x. not (in_triple s c relay x)) rows)
unfolding upsert
filter-upsert s c relay r [] h = ground arith
filter-upsert s c relay r (x ∷ xs) h =
    let ih = filter-upsert s c relay r xs h in
    elim (Bool-cases (same_key r x)) [
      | inl hit ↦ rw hit (found hit)
      | inr miss ↦ elim (Bool-cases (in_triple s c relay x)) [
        | inl out ↦ rw (miss, out) ih
        | inr kept ↦ rw (miss, kept, miss) (ap (◌∷◌ x) ih)
      ]
    ]
  where
    found :
        same_key r x ≡ true
        → filter
            (λ y. not (in_triple s c relay y))
            (record x { registered = max x.registered r.registered } ∷ xs)
          ≡ upsert max r (filter (λ y. not (in_triple s c relay y)) (x ∷ xs))
    found hit = ground arith

-- The registration's key is not the hash that it is the key of.
abbrev pub HasOtherKey : (Bytes → Bytes) → NotifyRegistration → Type 0
HasOtherKey notify_key r = same (notify_key r.subscriber_hash) r.subscriber_hash ≡ false

filter-HasOtherKey :
    (notify_key : Bytes → Bytes) (keep : NotifyRegistration → Bool) (rs : List NotifyRegistration)
    → All (HasOtherKey notify_key) rs
    → All (HasOtherKey notify_key) (filter keep rs)
filter-HasOtherKey notify_key keep [] h = tt
filter-HasOtherKey notify_key keep (r ∷ rs) h = elim (Bool-cases (keep r)) [
  | inl kept ↦ rw kept (h.0, filter-HasOtherKey notify_key keep rs h.1)
  | inr gone ↦ rw gone (filter-HasOtherKey notify_key keep rs h.1)
]

module _ (notify_key : Bytes → Bytes) where
  move-rows :
      (old : NotifyRegistration) (rs : List NotifyRegistration)
      → HasOtherKey notify_key old
      → is_named old ≡ true
      → Named rs
      → filter
          (λ x. not (in_triple old.subscriber_hash (channel_key old.channel_hash) old.relay_hash x))
          (upsert max (to_row (rekeyed notify_key old)) (map to_row rs))
        ≡ map to_row (move notify_key old rs)
  unfolding move
  move-rows old rs other_key n m =
      let keep : NotifyRegistration → Bool =
        λ r. not (is_triple old.subscriber_hash old.channel_hash old.relay_hash r) in
      filter-upsert old.subscriber_hash (channel_key old.channel_hash) old.relay_hash
        (to_row (rekeyed notify_key old)) (map to_row rs) moved
      ∙ ap (upsert max (to_row (rekeyed notify_key old))) (
          filter-map keep _ rs
            (triples-All old.subscriber_hash old.channel_hash old.relay_hash rs (named old n) m))
      ∙ sym (merge-rows (rekeyed notify_key old) (filter keep rs) n (filter-Named keep rs m))
    where
      named : (r : NotifyRegistration) → is_named r ≡ true → is_named_channel r.channel_hash ≡ true
      named r h = ground arith

      moved :
          in_triple old.subscriber_hash
            (channel_key old.channel_hash)
            old.relay_hash
            (to_row (rekeyed notify_key old))
          ≡ false
      moved =
          key-is_triple old.subscriber_hash old.channel_hash old.relay_hash (rekeyed notify_key old)
            (named old n) n
          ∙ ground (arith, other_key)

  move-Named :
      (old : NotifyRegistration) (rs : List NotifyRegistration)
      → is_named old ≡ true
      → Named rs
      → Named (move notify_key old rs)
  unfolding move
  move-Named old rs n m = merge-Named (rekeyed notify_key old) _ n (filter-Named _ rs m)

  module _ (exec : List Row → Stmt → List Row) (sql : Sqlite exec) where
    move_all-rows :
        (moves rs : List NotifyRegistration)
        → All (HasOtherKey notify_key) moves
        → Named moves
        → Named rs
        → exec_all exec (map to_row rs) (move_statements notify_key moves)
          ≡ map to_row (move_all notify_key moves rs)
    unfolding exec_all move_all move_statements
    move_all-rows [] rs k n m = refl
    move_all-rows (old ∷ moves) rs k n m =
        ap (λ (rows : List Row). exec_all exec rows (move_statements notify_key moves))
          (ap
              (λ (rows : List Row).
                exec rows
                  (delete_triple old.subscriber_hash (channel_key old.channel_hash) old.relay_hash))
              (sql.merges (map to_row rs) (to_row (rekeyed notify_key old)))
            ∙ sql.deletes_triple _ old.subscriber_hash (channel_key old.channel_hash) old.relay_hash
            ∙ move-rows old rs k.0 n.0 m)
        ∙ move_all-rows moves (move notify_key old rs) k.1 n.1 (move-Named old rs n.0 m)

    rekey-Mirrors :
        (start : List Row) (n : NotifyRegistry) (is_identity : Bytes → Bool) (committed : Bool)
        → All (HasOtherKey notify_key) n.registrations
        → Named n.registrations
        → Mirrors exec start n
        → Mirrors exec start (rekey_identity_channel_rows notify_key n is_identity committed).0
    unfolding rekey_identity_channel_rows moves_of
    rekey-Mirrors start n is_identity committed k m v =
        let moves = moves_of notify_key is_identity n.registrations in
        elim (Bool-cases (is_empty moves)) [
          | inl idle ↦ rw idle v
          | inr some_moves ↦ elim (Bool-cases committed) [
            | inl done ↦
                rw (some_moves, v.open_db, done)
                  (write_all-Follows exec start n.db (map to_row n.registrations) _
                    (move_statements notify_key moves) v
                    (move_all-rows moves n.registrations
                      (filter-HasOtherKey notify_key _ n.registrations k)
                      (filter-Named _ n.registrations m) m))
            | inr failed ↦ rw (some_moves, v.open_db, failed) v
          ]
        ]

subscribers-All :
    (s : Bytes) (rs : List NotifyRegistration)
    → All (λ r. not (same (to_row r).subscriber_hash s) ≡ not (same r.subscriber_hash s)) rs
unfolding to_row
subscribers-All s [] = tt
subscribers-All s (r ∷ rs) = (refl, subscribers-All s rs)

module _ (exec : List Row → Stmt → List Row) (sql : Sqlite exec) (start : List Row)
    (n : NotifyRegistry) (u : Unique n.registrations) (m : Mirrors exec start n) where
  one :
      (statement : Stmt) (rows after : List Row)
      → exec rows statement ≡ after
      → exec_all exec rows (statement ∷ []) ≡ after
  unfolding exec_all
  one statement rows after h = h

  retain-Mirrors :
      (keep : NotifyRegistration → Bool) (statement : Stmt)
      → exec (map to_row n.registrations) statement ≡ map to_row (filter keep n.registrations)
      → Mirrors exec start (retain n keep statement)
  unfolding retain
  retain-Mirrors keep statement h =
      elim (Bool-cases (ltb (length (filter keep n.registrations)) (length n.registrations))) [
        | inl some_gone ↦
            rw some_gone
              (write_all-Follows exec start n.db _ _ (statement ∷ []) m (one statement _ _ h))
        | inr none_gone ↦ rw none_gone (record {
          log = m.log;
          open_db = m.open_db;
          rows = m.rows ∙ ap (map to_row) (sym (filter-all keep n.registrations none_gone));
        })
      ]

  -- With triples unique, no channel hash empty, an open database whose rows are the registrations, and
  -- no registration under a hash that is its own key: a registration, an unregistration, a clear and a
  -- re-keying, whether the database takes it or not, leave the rows the registrations in memory, in
  -- order.
  pub registry-Mirrors :
      (notify_key : Bytes → Bytes) (is_identity : Bytes → Bool) (committed : Bool) (s : Bytes)
      (c : Option Bytes) (relay : Bytes) (now : ℕ)
      → All (HasOtherKey notify_key) n.registrations
      → is_named_channel c ≡ true
      → Mirrors exec start (register n s c relay now)
        × Mirrors exec start (unregister n s c relay)
        × Mirrors exec start (clear n s)
        × Mirrors exec start (rekey_identity_channel_rows notify_key n is_identity committed).0
  unfolding register unregister clear put_registration
  registry-Mirrors notify_key is_identity committed s c relay now other_key named =
      let names = Unique-Named n.registrations u in
      let written = register_in s c relay now n.registrations in
      (
        write_all-Follows exec start n.db _ _ (put_row (to_row written.1) ∷ []) m (
            one (put_row (to_row written.1)) _ _ (
              sql.puts _ (to_row written.1)
              ∙ sym (register_in-rows s c relay now n.registrations named names).0)),
        retain-Mirrors _ (delete_triple s (channel_key c) relay) (
            sql.deletes_triple _ s (channel_key c) relay
            ∙ filter-map _ _ n.registrations (triples-All s c relay n.registrations named names)),
        retain-Mirrors _ (delete_subscriber s) (
            sql.deletes_subscriber _ s
            ∙ filter-map _ _ n.registrations (subscribers-All s n.registrations)),
        rekey-Mirrors notify_key exec sql start n is_identity committed other_key names m,
      )
