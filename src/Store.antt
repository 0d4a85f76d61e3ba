-- ===== src/Store.antt =====
-- rfed/src/store_db.rs: what a store writes to its database.
use rfed.Base.{List, [], ◌∷◌, Option, none, some, ◌≡◌, ap, ◌∙◌}

-- The transactions handed to the connection, newest first; `none` is a store that runs from memory.
-- SQLite carries them out, or fails, which the store logs and its memory does not notice.
abbrev pub Db {ℓ} : Type ℓ → Type ℓ
Db Stmt = Option (List (List Stmt))

unfoldable pub write_all {ℓ} : {Stmt : Type ℓ} → Db Stmt → List Stmt → Db Stmt
write_all none tx = none
write_all (some log) tx = some (tx ∷ log)

-- Statements carried out on rows by a database, whose `exec` is SQLite's.
module _ {R S : Type 0} (exec : List R → S → List R) where
  unfoldable pub exec_all : List R → List S → List R
  exec_all rows [] = rows
  exec_all rows (s ∷ ss) = exec_all (exec rows s) ss

  -- The rows after the transactions of a log, newest first, with the rows that there were.
  unfoldable pub replay : List R → List (List S) → List R
  replay start [] = start
  replay start (tx ∷ log) = exec_all (replay start log) tx

  -- The database is open, and its log leads from the rows at the start to these.
  pub record Follows (start : List R) (db : Db S) (expected : List R) : Type 0 where
    pub log : List (List S)
    pub open_db : db ≡ some log
    pub rows : replay start log ≡ expected

  pub write_all-Follows :
      (start : List R) (db : Db S) (before after : List R) (tx : List S)
      → Follows start db before
      → exec_all before tx ≡ after
      → Follows start (write_all db tx) after
  unfolding write_all replay
  write_all-Follows start db before after tx m h = record {
    log = tx ∷ m.log;
    open_db = rw m.open_db;
    rows = ap (λ (rows : List R). exec_all rows tx) m.rows ∙ h;
  }
