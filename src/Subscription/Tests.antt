-- ===== src/Subscription/Tests.antt =====
-- The theorems on rfed/src/subscription.rs at a table of two entries and its rows.
use rfed.Base.{ℕ, arith}
use rfed.Base.{
  ◌≡◌, refl, List, [], ◌∷◌, map, none, some, Bytes, bytes_dec, not, ◌&&◌, ◌||◌, filter, is_empty,
  leb, ℕ_discrete,
}
use rfed.Store.{replay}
use rfed.Subscription.Table.{
  SubscriptionEntry, SubscriptionTable, Row, Stmt, upsert_row, delete_own, delete_pair,
  delete_backups, to_row, renew, subscribe, subscribe_backup, unsubscribe, expire_stale,
  prune_stale_backups,
}
use rfed.Subscription.Start.{
  SetsClock, set_clock, start_renewal_clock, load_rows, load_legacy, load-expire_stale,
}
use rfed.Subscription.Keys.{Unique}
use rfed.Subscription.Rows.{upsert, in_pair, Sqlite, Mirrors}
use rfed.Subscription.Disk.{operations-Mirrors}

abbrev sub : Bytes
sub = 1 ∷ []

abbrev chan : Bytes
chan = 7 ∷ []

abbrev node : Bytes
node = 9 ∷ []

abbrev own : SubscriptionEntry
own = record {
  subscriber_hash = sub;
  channel_hash = chan;
  added = 5;
  owner_node_hash = none;
  last_refreshed = 5;
}

abbrev backup : SubscriptionEntry
backup = record {
  subscriber_hash = sub;
  channel_hash = chan;
  added = 6;
  owner_node_hash = some node;
  last_refreshed = 6;
}

abbrev table : SubscriptionTable
table = record { entries = own ∷ backup ∷ []; db = some [] }

table-Unique : Unique table.entries
unfolding bytes_dec ℕ_discrete
table-Unique = (refl, refl, (refl, refl, tt))

unfoldable exec : List Row → Stmt → List Row
unfolding upsert
exec rows (upsert_row r) = upsert r rows
exec rows (delete_own s c) = filter (λ r. not (in_pair s c r && is_empty r.owner_node_hash)) rows
exec rows (delete_pair s c) = filter (λ r. not (in_pair s c r)) rows
exec rows (delete_backups cutoff) =
    filter (λ r. is_empty r.owner_node_hash || leb cutoff r.last_refreshed) rows

exec-Sqlite : Sqlite exec
unfolding exec
exec-Sqlite = record {
  upserts = λ rows r. refl;
  deletes_own = λ rows s c. refl;
  deletes_pair = λ rows s c. refl;
  deletes_backups = λ rows cutoff. refl;
}

table-Mirrors : Mirrors exec (map to_row table.entries) table
unfolding replay
table-Mirrors = record { log = []; open_db = refl; rows = refl }

operations-Mirrors_example :
    let start : List Row = map to_row table.entries in
    Mirrors exec start (subscribe table sub chan 9000)
    × Mirrors exec start (subscribe_backup table sub chan node 9000)
    × Mirrors exec start (renew table sub chan 9000).0
    × Mirrors exec start (unsubscribe table sub chan)
    × Mirrors exec start (expire_stale table chan 100 9000).0
    × Mirrors exec start (prune_stale_backups table 100 9000).0
operations-Mirrors_example =
    operations-Mirrors exec exec-Sqlite (map to_row table.entries) table table-Unique table-Mirrors
      sub chan node 100 9000 refl

abbrev update : List Row → ℕ → List Row
update rows started = map (set_clock started) rows

update-SetsClock : SetsClock update
update-SetsClock = record { updates = λ rows started. refl }

load-expire_stale_example :
    let rows : List Row = map to_row table.entries in
    let r = start_renewal_clock update (some 0) 100 rows in
    ((expire_stale (load_rows update (some 0) 100 rows none) chan 50 140).1 ≡ [])
    × ((expire_stale (load_legacy 100 table.entries) chan 50 140).1 ≡ [])
    × (start_renewal_clock update r.0 140 r.1 ≡ r)
load-expire_stale_example =
    load-expire_stale update (map to_row table.entries) table.entries 0 100 50 140 none chan
      update-SetsClock (omega arith) (omega arith)
