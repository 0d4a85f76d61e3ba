-- ===== src/Subscription/Rows.antt =====
-- The rows behind rfed/src/subscription.rs, and what its statements do to them.
use rfed.Base.{
  ℕ, ◌≡◌, List, [], ◌∷◌, map, Bytes, same, Bool, not, ◌&&◌, ◌||◌, if◌then◌else◌, leb, filter,
  is_empty,
}
use rfed.Store.{Follows}
use rfed.Subscription.Table.{
  SubscriptionTable, Row, Stmt, upsert_row, delete_own, delete_pair, delete_backups, to_row,
}

abbrev pub same_key : Row → Row → Bool
same_key r x =
    same x.subscriber_hash r.subscriber_hash
    && same x.channel_hash r.channel_hash
    && same x.owner_node_hash r.owner_node_hash

-- `INSERT .. ON CONFLICT DO UPDATE SET last_refreshed`: a new row comes last.
unfoldable pub upsert : Row → List Row → List Row
upsert r [] = r ∷ []
upsert r (x ∷ xs) =
    if same_key r x then record x { last_refreshed = r.last_refreshed } ∷ xs else x ∷ upsert r xs

abbrev pub in_pair : Bytes → Bytes → Row → Bool
in_pair s c r = same r.subscriber_hash s && same r.channel_hash c

-- What the table relies on of SQLite: each statement does to the rows, in rowid order, what its SQL
-- says.
pub record Sqlite (exec : List Row → Stmt → List Row) : Type 0 where
  pub upserts : (rows : List Row) (r : Row) → exec rows (upsert_row r) ≡ upsert r rows
  pub deletes_own :
      (rows : List Row) (s c : Bytes)
      → exec rows (delete_own s c)
        ≡ filter (λ r. not (in_pair s c r && is_empty r.owner_node_hash)) rows
  pub deletes_pair :
      (rows : List Row) (s c : Bytes)
      → exec rows (delete_pair s c) ≡ filter (λ r. not (in_pair s c r)) rows
  pub deletes_backups :
      (rows : List Row) (cutoff : ℕ)
      → exec rows (delete_backups cutoff)
        ≡ filter (λ r. is_empty r.owner_node_hash || leb cutoff r.last_refreshed) rows

-- The rows in the database are the entries in memory, in order.
abbrev pub Mirrors : (List Row → Stmt → List Row) → List Row → SubscriptionTable → Type 0
Mirrors exec start t = Follows exec start t.db (map to_row t.entries)
