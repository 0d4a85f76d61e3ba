-- ===== src/Subscription/Start.antt =====
-- `load` and `start_renewal_clock` of rfed/src/subscription.rs. The rows are those that stand in the
-- table once an old file, if there is one, was imported.
use rfed.Base.{
  ℕ, ◌+◌, ◌-◌, ◌≤◌, ◌<◌, ◌≡◌, refl, ap, List, [], ◌∷◌, map, filter, Option, none, some, Bytes, Bool,
  false, ◌&&◌, if◌then◌else◌, ltb, leb, is_empty, arith, max, All,
}
use rfed.Store.{Db}
use rfed.Subscription.Table.{
  SubscriptionEntry, SubscriptionTable, Row, Stmt, of_row, is_own, is_stale, expire_stale,
}

abbrev pub renewal_clock_version : ℕ
renewal_clock_version = 1

-- `WHERE owner_node_hash = X'' AND last_refreshed < started`.
abbrev pub behind_clock : ℕ → Row → Bool
behind_clock started r = is_empty r.owner_node_hash && ltb r.last_refreshed started

abbrev pub set_clock : ℕ → Row → Row
set_clock started r = if behind_clock started r then record r { last_refreshed = started } else r

-- What the start relies on of SQLite: the UPDATE does to the rows what its SQL says.
pub record SetsClock (update : List Row → ℕ → List Row) : Type 0 where
  pub updates : (rows : List Row) (started : ℕ) → update rows started ≡ map (set_clock started) rows

module _ (update : List Row → ℕ → List Row) where
  -- The database's version, none where it cannot be read, and its rows.
  unfoldable pub start_renewal_clock : Option ℕ → ℕ → List Row → Option ℕ × List Row
  start_renewal_clock none started rows = (none, rows)
  start_renewal_clock (some version) started rows =
      if leb renewal_clock_version version
      then (some version, rows)
      else (some renewal_clock_version, update rows started)

  unfoldable pub load_rows : Option ℕ → ℕ → List Row → Db Stmt → SubscriptionTable
  unfolding start_renewal_clock of_row
  load_rows version started rows db = record {
    entries = map of_row (start_renewal_clock version started rows).1;
    db = db;
  }

abbrev pub restart_entry : ℕ → SubscriptionEntry → SubscriptionEntry
restart_entry started e =
    if is_own e then record e { last_refreshed = max e.last_refreshed started } else e

-- Without a database, from the old file.
unfoldable pub load_legacy : ℕ → List SubscriptionEntry → SubscriptionTable
load_legacy started old = record { entries = map (restart_entry started) old; db = none }

filter-none :
    (c : Bytes) (cutoff started : ℕ) (es : List SubscriptionEntry)
    → cutoff ≤ started
    → All (λ e. (is_own e && ltb e.last_refreshed started) ≡ false) es
    → filter (is_stale c cutoff) es ≡ []
filter-none c cutoff started [] h a = refl
filter-none c cutoff started (e ∷ es) h a =
    ground (arith, a.0, filter-none c cutoff started es h a.1)

set_clock-All :
    (started : ℕ) (rows : List Row)
    → All
        (λ e. (is_own e && ltb e.last_refreshed started) ≡ false)
        (map of_row (map (set_clock started) rows))
unfolding of_row
set_clock-All started [] = tt
set_clock-All started (r ∷ rows) = (ground arith, set_clock-All started rows)

restart-All :
    (started : ℕ) (es : List SubscriptionEntry)
    → All (λ e. (is_own e && ltb e.last_refreshed started) ≡ false) (map (restart_entry started) es)
restart-All started [] = tt
restart-All started (e ∷ es) = (ground arith, restart-All started es)

-- After a start that finds the database without the renewal clock, or that runs without a
-- database, no subscription expires until `max_age` later; and starting the clock again changes
-- nothing.
pub load-expire_stale :
    (update : List Row → ℕ → List Row) (rows : List Row) (old : List SubscriptionEntry)
    (version started max_age now : ℕ) (db : Db Stmt) (c : Bytes)
    → SetsClock update
    → version < renewal_clock_version
    → now ≤ started + max_age
    → let r = start_renewal_clock update (some version) started rows in
      ((expire_stale (load_rows update (some version) started rows db) c max_age now).1 ≡ [])
      × ((expire_stale (load_legacy started old) c max_age now).1 ≡ [])
      × (start_renewal_clock update r.0 now r.1 ≡ r)
unfolding expire_stale load_rows load_legacy start_renewal_clock
load-expire_stale update rows old version started max_age now db c sql fresh h = (
  ap (map (λ e. e.subscriber_hash)) (
      filter-none c (now - max_age) started
        (map of_row (start_renewal_clock update (some version) started rows).1) (omega arith)
        clocked),
  ap (map (λ e. e.subscriber_hash)) (
      filter-none c (now - max_age) started (map (restart_entry started) old) (omega arith)
        (restart-All started old)),
  ground arith,
)
  where
    clocked :
        All
          (λ e. (is_own e && ltb e.last_refreshed started) ≡ false)
          (map of_row (start_renewal_clock update (some version) started rows).1)
    clocked = ground (arith, sql.updates rows started, set_clock-All started rows)
