-- ===== src/Subscription/Disk.antt =====
-- The database behind rfed/src/subscription.rs: after every operation its rows are the entries in
-- memory, so a restart reads back what was held.
use rfed.Base.{
  ℕ, ◌-◌, ◌≡◌, refl, sym, ap, ◌∙◌, inl, inr, List, [], ◌∷◌, map, Option, none, some, Bytes, Bool,
  false, not, length, ltb, filter, is_empty, arith, Bool-cases,
}
use rfed.Store.{write_all-Follows, exec_all, write_all}
use rfed.Subscription.Table.{
  SubscriptionEntry, SubscriptionTable, Row, Stmt, upsert_row, delete_pair, delete_backups, to_row,
  of_row, put_entry, is_pair, renew_loop, renew, own_entry, subscribe, is_stale, expire_stale,
  subscribe_backup, unsubscribe, is_current, prune_stale_backups, write_renewed,
}
use rfed.Subscription.Keys.{Unique, renew-keyless}
use rfed.Subscription.Rows.{upsert, in_pair, Sqlite, Mirrors}
use rfed.Subscription.Renewals.{write_rows, renew_loop-rows, upsert-push, refresh-rows}
use rfed.Subscription.Deletions.{
  filter-map, pairs-All, current-All, delete_each, gone, gone-Spares, Spares, filter-all,
  filter-none,
}

-- A store whose database is open, whose rows mirror its entries.
module _ (exec : List Row → Stmt → List Row) (sql : Sqlite exec) (start : List Row) where
  mirrored :
      (t : SubscriptionTable) (entries : List SubscriptionEntry) (tx : List Stmt)
      → (m : Mirrors exec start t) → exec_all exec (map to_row t.entries) tx ≡ map to_row entries
      → Mirrors exec start (record { entries = entries; db = write_all t.db tx })
  mirrored t entries tx m h =
      write_all-Follows exec start t.db (map to_row t.entries) (map to_row entries) tx m h

  one : (rows : List Row) (r : Row) → exec_all exec rows (upsert_row r ∷ []) ≡ upsert r rows
  unfolding exec_all
  one rows r = sql.upserts rows r

  module _ (t : SubscriptionTable) (u : Unique t.entries) (m : Mirrors exec start t) where
    renew-Mirrors : (s c : Bytes) (now : ℕ) → Mirrors exec start (renew t s c now).0
    unfolding renew write_renewed put_entry
    renew-Mirrors s c now =
        written (renew_loop s c now t.entries).renewed (renew_loop-rows s c now t.entries u)
      where
        written :
            (o : Option SubscriptionEntry)
            → map to_row (renew_loop s c now t.entries).entries
              ≡ write_rows s c now o (map to_row t.entries)
            → Mirrors exec start (record {
              entries = (renew_loop s c now t.entries).entries;
              db = write_renewed t.db o;
            })
        written none h = record { log = m.log; open_db = m.open_db; rows = m.rows ∙ sym h }
        written (some f) h =
            mirrored t (renew_loop s c now t.entries).entries (upsert_row (to_row f) ∷ []) m
              (one (map to_row t.entries) (to_row f) ∙ sym h)

    subscribe_backup-Mirrors :
        (s c o : Bytes) (now : ℕ)
        → is_empty o ≡ false
        → Mirrors exec start (subscribe_backup t s c o now)
    unfolding subscribe_backup put_entry
    subscribe_backup-Mirrors s c o now n =
        mirrored t _ _ m (one (map to_row t.entries) _ ∙ sym (refresh-rows s c o now t.entries n).0)

    subscribe-Mirrors : (s c : Bytes) (now : ℕ) → Mirrors exec start (subscribe t s c now)
    unfolding subscribe put_entry
    subscribe-Mirrors s c now = elim (Bool-cases (renew t s c now).1) [
      | inl held ↦ rw held (renew-Mirrors s c now)
      | inr fresh ↦ rw fresh (
          mirrored (renew t s c now).0 _ _ (renew-Mirrors s c now) (
            one (map to_row (renew t s c now).0.entries) (to_row (own_entry s c now))
            ∙ upsert-push (own_entry s c now) (renew t s c now).0.entries
                (renew-keyless t s c now fresh)))
    ]

    unsubscribe-Mirrors : (s c : Bytes) → Mirrors exec start (unsubscribe t s c)
    unfolding unsubscribe exec_all
    unsubscribe-Mirrors s c =
        elim (Bool-cases (ltb (length (filter kept t.entries)) (length t.entries))) [
          | inl some_gone ↦ rw some_gone (
              mirrored t (filter kept t.entries) (delete_pair s c ∷ []) m (
                sql.deletes_pair (map to_row t.entries) s c
                ∙ filter-map kept (λ r. not (in_pair s c r)) t.entries (pairs-All s c t.entries)))
          | inr none_gone ↦ rw none_gone (record {
            log = m.log;
            open_db = m.open_db;
            rows = m.rows ∙ ap (map to_row) (sym (filter-all kept t.entries none_gone));
          })
        ]
      where
        kept : SubscriptionEntry → Bool
        kept e = not (is_pair s c e)

    expire_stale-Mirrors :
        (c : Bytes) (max_age now : ℕ) → Mirrors exec start (expire_stale t c max_age now).0
    unfolding expire_stale Spares
    expire_stale-Mirrors c max_age now =
        elim (Bool-cases (is_empty (gone c (now - max_age) t.entries))) [
          | inl none_gone ↦ rw none_gone (record {
            log = m.log;
            open_db = m.open_db;
            rows =
                m.rows
                ∙ ap (map to_row)
                    (sym (filter-none (is_stale c (now - max_age)) t.entries none_gone));
          })
          | inr some_gone ↦ rw some_gone (
              mirrored t _ _ m (
                delete_each exec sql c (gone c (now - max_age) t.entries) (map to_row t.entries)
                ∙ filter-map _ _ t.entries (gone-Spares c (now - max_age) t.entries u)))
        ]

    prune_stale_backups-Mirrors :
        (max_age now : ℕ) → Mirrors exec start (prune_stale_backups t max_age now).0
    unfolding prune_stale_backups exec_all
    prune_stale_backups-Mirrors max_age now =
        let kept = is_current (now - max_age) in
        elim (Bool-cases (ltb 0 (length t.entries - length (filter kept t.entries)))) [
          | inl some_gone ↦ rw some_gone (
              mirrored t (filter kept t.entries) (delete_backups (now - max_age) ∷ []) m (
                sql.deletes_backups (map to_row t.entries) (now - max_age)
                ∙ filter-map kept _ t.entries (current-All (now - max_age) t.entries u)))
          | inr none_gone ↦ rw none_gone (record {
            log = m.log;
            open_db = m.open_db;
            rows = m.rows ∙ ap (map to_row) (sym (filter-all kept t.entries (ground arith)));
          })
        ]

    -- With unique keys and an open database whose rows are the entries in memory, in order, that
    -- stays so after every operation, a backup for an owner whose hash is not empty included.
    pub operations-Mirrors :
        (s c o : Bytes) (max_age now : ℕ)
        → is_empty o ≡ false
        → Mirrors exec start (subscribe t s c now)
          × Mirrors exec start (subscribe_backup t s c o now)
          × Mirrors exec start (renew t s c now).0
          × Mirrors exec start (unsubscribe t s c)
          × Mirrors exec start (expire_stale t c max_age now).0
          × Mirrors exec start (prune_stale_backups t max_age now).0
    operations-Mirrors s c o max_age now n = (
      subscribe-Mirrors s c now,
      subscribe_backup-Mirrors s c o now n,
      renew-Mirrors s c now,
      unsubscribe-Mirrors s c,
      expire_stale-Mirrors c max_age now,
      prune_stale_backups-Mirrors max_age now,
    )

-- A restart reads the rows of a table, whose keys are unique, back as its entries.
read_all-to_row : (es : List SubscriptionEntry) → Unique es → map of_row (map to_row es) ≡ es
unfolding to_row of_row
read_all-to_row [] u = refl
read_all-to_row (e ∷ es) u = ground (arith, read_all-to_row es u.2)
