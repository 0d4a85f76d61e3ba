-- ===== src/Subscription/Table.antt =====
-- `SubscriptionTable` of rfed/src/subscription.rs. Times are whole seconds; `now` is the clock that
-- an operation reads.
use rfed.Base.{
  ℕ, ◌+◌, ◌-◌, List, [], ◌∷◌, ◌++◌, map, Option, none, some, Bytes, same, mem, Bool, true, false,
  not, ◌&&◌, ◌||◌, if◌then◌else◌, any, length, ltb, leb, filter, is_empty,
}
use rfed.Store.{Db, write_all}

pub record SubscriptionEntry : Type 0 where
  pub subscriber_hash : Bytes
  pub channel_hash : Bytes
  pub added : ℕ
  pub owner_node_hash : Option Bytes
  pub last_refreshed : ℕ

-- A row of `subscriptions`; a node's own subscription has an empty owner there.
pub record Row : Type 0 where
  pub subscriber_hash : Bytes
  pub channel_hash : Bytes
  pub owner_node_hash : Bytes
  pub added : ℕ
  pub last_refreshed : ℕ

-- The statements: the upsert of `put_entry`, and the deletions of an expired own row, of all rows of
-- a subscriber and channel, and of the backup rows refreshed before a time.
pub data Stmt : Type 0 where
  upsert_row : Row → Stmt
  delete_own : Bytes → Bytes → Stmt
  delete_pair : Bytes → Bytes → Stmt
  delete_backups : ℕ → Stmt

pub record SubscriptionTable : Type 0 where
  pub entries : List SubscriptionEntry
  pub db : Db Stmt

abbrev pub renewal_write_interval_secs : ℕ
renewal_write_interval_secs = 3600

abbrev pub owner_blob : Option Bytes → Bytes
owner_blob none = []
owner_blob (some owner) = owner

unfoldable pub to_row : SubscriptionEntry → Row
to_row e = record {
  subscriber_hash = e.subscriber_hash;
  channel_hash = e.channel_hash;
  owner_node_hash = owner_blob e.owner_node_hash;
  added = e.added;
  last_refreshed = e.last_refreshed;
}

-- `read_all` on one row.
unfoldable pub of_row : Row → SubscriptionEntry
of_row r = record {
  subscriber_hash = r.subscriber_hash;
  channel_hash = r.channel_hash;
  added = r.added;
  owner_node_hash = if is_empty r.owner_node_hash then none else some r.owner_node_hash;
  last_refreshed = r.last_refreshed;
}

unfoldable pub put_entry : SubscriptionEntry → Stmt
unfolding to_row
put_entry e = upsert_row (to_row e)

abbrev pub is_own : SubscriptionEntry → Bool
is_own e = elim e.owner_node_hash [ none ↦ true | some owner ↦ false ]

abbrev pub is_pair : Bytes → Bytes → SubscriptionEntry → Bool
is_pair subscriber channel e = same e.subscriber_hash subscriber && same e.channel_hash channel

abbrev pub due : ℕ → SubscriptionEntry → Bool
due now e = is_own e && leb (e.last_refreshed + renewal_write_interval_secs) now

-- The loop of `renew`: the entries, whether one is held, and the last one renewed.
pub record Renewal : Type 0 where
  pub entries : List SubscriptionEntry
  pub held : Bool
  pub renewed : Option SubscriptionEntry

abbrev pub or_else : Option SubscriptionEntry → SubscriptionEntry → Option SubscriptionEntry
or_else none e = some e
or_else (some f) e = some f

unfoldable pub renew_entry : Bytes → Bytes → ℕ → SubscriptionEntry → Renewal → Renewal
renew_entry subscriber channel now e rest =
    if is_pair subscriber channel e
    then (if due now e
        then (record {
          entries = record e { last_refreshed = now } ∷ rest.entries;
          held = true;
          renewed = or_else rest.renewed (record e { last_refreshed = now });
        })
        else (record rest { entries = e ∷ rest.entries; held = true }))
    else record rest { entries = e ∷ rest.entries }

unfoldable pub renew_loop : Bytes → Bytes → ℕ → List SubscriptionEntry → Renewal
unfolding renew_entry
renew_loop subscriber channel now [] = record { entries = []; held = false; renewed = none }
renew_loop subscriber channel now (e ∷ es) =
    renew_entry subscriber channel now e (renew_loop subscriber channel now es)

unfoldable pub write_renewed : Db Stmt → Option SubscriptionEntry → Db Stmt
write_renewed db none = db
write_renewed db (some e) = write_all db (put_entry e ∷ [])

unfoldable pub renew : SubscriptionTable → Bytes → Bytes → ℕ → SubscriptionTable × Bool
unfolding write_renewed
renew t subscriber channel now =
    let r = renew_loop subscriber channel now t.entries in
    (record t { entries = r.entries; db = write_renewed t.db r.renewed }, r.held)

unfoldable pub own_entry : Bytes → Bytes → ℕ → SubscriptionEntry
own_entry subscriber channel now = record {
  subscriber_hash = subscriber;
  channel_hash = channel;
  added = now;
  owner_node_hash = none;
  last_refreshed = now;
}

unfoldable pub subscribe : SubscriptionTable → Bytes → Bytes → ℕ → SubscriptionTable
unfolding own_entry
subscribe t subscriber channel now =
    let (t', held) = renew t subscriber channel now in
    if held then t' else record t' {
      entries = t'.entries ++ own_entry subscriber channel now ∷ [];
      db = write_all t'.db (put_entry (own_entry subscriber channel now) ∷ []);
    }

-- No entry was refreshed before time 0, so the cutoff may stop there.
abbrev pub is_stale : Bytes → ℕ → SubscriptionEntry → Bool
is_stale channel cutoff e = is_own e && (same e.channel_hash channel && ltb e.last_refreshed cutoff)

unfoldable pub expire_stale : SubscriptionTable → Bytes → ℕ → ℕ → SubscriptionTable × List Bytes
expire_stale t channel max_age now =
    let stale = is_stale channel (now - max_age) in
    let expired = map (λ e. e.subscriber_hash) (filter stale t.entries) in
    (
      record t {
        entries = filter (λ e. not (stale e)) t.entries;
        db =
            if is_empty expired
            then t.db
            else write_all t.db (map (λ subscriber. delete_own subscriber channel) expired);
      },
      expired,
    )

abbrev pub is_backup_of : Bytes → SubscriptionEntry → Bool
is_backup_of owner e = elim e.owner_node_hash [ none ↦ false | some o ↦ same o owner ]

unfoldable pub backup_entry : Bytes → Bytes → Bytes → ℕ → SubscriptionEntry
backup_entry subscriber channel owner now = record {
  subscriber_hash = subscriber;
  channel_hash = channel;
  added = now;
  owner_node_hash = some owner;
  last_refreshed = now;
}

-- The first entry with the key is refreshed, or a new one appended; and the entry that is written.
unfoldable pub refresh :
    Bytes → Bytes → Bytes → ℕ → List SubscriptionEntry → List SubscriptionEntry × SubscriptionEntry
unfolding backup_entry
refresh subscriber channel owner now [] =
    (backup_entry subscriber channel owner now ∷ [], backup_entry subscriber channel owner now)
refresh subscriber channel owner now (e ∷ es) =
    let (rest, written) = refresh subscriber channel owner now es in
    if is_pair subscriber channel e && is_backup_of owner e
    then (record e { last_refreshed = now } ∷ es, record e { last_refreshed = now })
    else (e ∷ rest, written)

unfoldable pub subscribe_backup : SubscriptionTable → Bytes → Bytes → Bytes → ℕ → SubscriptionTable
unfolding refresh
subscribe_backup t subscriber channel owner now =
    let (entries, written) = refresh subscriber channel owner now t.entries in
    record t { entries = entries; db = write_all t.db (put_entry written ∷ []) }

unfoldable pub unsubscribe : SubscriptionTable → Bytes → Bytes → SubscriptionTable
unsubscribe t subscriber channel =
    let kept = filter (λ e. not (is_pair subscriber channel e)) t.entries in
    record t {
      entries = kept;
      db =
          if ltb (length kept) (length t.entries)
          then write_all t.db (delete_pair subscriber channel ∷ [])
          else t.db;
    }

abbrev pub is_current : ℕ → SubscriptionEntry → Bool
is_current cutoff e = is_own e || leb cutoff e.last_refreshed

unfoldable pub prune_stale_backups : SubscriptionTable → ℕ → ℕ → SubscriptionTable × ℕ
prune_stale_backups t max_age now =
    let kept = filter (is_current (now - max_age)) t.entries in
    let pruned = length t.entries - length kept in
    (
      record t {
        entries = kept;
        db = if ltb 0 pruned then write_all t.db (delete_backups (now - max_age) ∷ []) else t.db;
      },
      pruned,
    )

unfoldable pub is_subscribed : SubscriptionTable → Bytes → Bytes → Bool
is_subscribed t subscriber channel = any (is_pair subscriber channel) t.entries

unfoldable pub has_subscriber : SubscriptionTable → Bytes → Bool
has_subscriber t subscriber = any (λ e. same e.subscriber_hash subscriber) t.entries

unfoldable pub get_subscribers_with_owner : SubscriptionTable → Bytes → List (Bytes × Option Bytes)
get_subscribers_with_owner t channel =
    map (λ e. (e.subscriber_hash, e.owner_node_hash))
      (filter (λ e. same e.channel_hash channel) t.entries)

unfoldable pub distinct_from : List Bytes → List SubscriptionEntry → List Bytes
distinct_from seen [] = []
distinct_from seen (e ∷ es) =
    let known = mem e.channel_hash seen in
    let rest = distinct_from (if known then seen else e.channel_hash ∷ seen) es in
    if known then rest else e.channel_hash ∷ rest

unfoldable pub subscribed_channel_hashes : SubscriptionTable → List Bytes
unfolding distinct_from
subscribed_channel_hashes t = distinct_from [] t.entries
