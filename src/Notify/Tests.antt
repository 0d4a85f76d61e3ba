-- ===== src/Notify/Tests.antt =====
-- The theorems on rfed/src/notify/mod.rs at a registry of two registrations.
use rfed.Base.{
  ◌≡◌, refl, List, [], ◌∷◌, map, filter, Option, none, some, Bytes, bytes_dec, same, Bool, true,
  not, length, max, All, ℕ_discrete,
}
use rfed.Store.{replay, exec_all}
use rfed.Notify.Registry.{validate_relay_hash}
use rfed.Notify.Registry.{
  NotifyRegistry, Row, Stmt, put_row, delete_triple, delete_subscriber, merge_row, to_row, register,
  moves_of, move_statements, unregister, clear, rekey_identity_channel_rows,
}
use rfed.Notify.Keys.{Unique}
use rfed.Notify.Rows.{upsert, excluded, in_triple, Sqlite, Mirrors}
use rfed.Notify.Disk.{HasOtherKey, registry-Mirrors}

abbrev sub : Bytes
sub = 1 ∷ []

abbrev relay : Bytes
relay = 97 ∷ []

abbrev channel : Option Bytes
channel = some (7 ∷ [])

abbrev registry : NotifyRegistry
registry = record {
  registrations =
      record { subscriber_hash = sub; channel_hash = none; relay_hash = relay; registered = 5 }
      ∷ record { subscriber_hash = sub; channel_hash = channel; relay_hash = relay; registered = 6 }
      ∷ [];
  db = some [];
}

registry-Unique : Unique registry.registrations
unfolding bytes_dec ℕ_discrete
registry-Unique = (refl, refl, (refl, refl, tt))

unfoldable exec : List Row → Stmt → List Row
unfolding upsert
exec rows (put_row r) = upsert excluded r rows
exec rows (delete_triple s c r) = filter (λ x. not (in_triple s c r x)) rows
exec rows (delete_subscriber s) = filter (λ x. not (same x.subscriber_hash s)) rows
exec rows (merge_row r) = upsert max r rows

exec-Sqlite : Sqlite exec
unfolding exec
exec-Sqlite = record {
  puts = λ rows r. refl;
  merges = λ rows r. refl;
  deletes_triple = λ rows s c r. refl;
  deletes_subscriber = λ rows s. refl;
}

registry-start : Mirrors exec (map to_row registry.registrations) registry
unfolding replay
registry-start = record { log = []; open_db = refl; rows = refl }

abbrev notify_key : Bytes → Bytes
notify_key s = 0 ∷ s

registry-HasOtherKey : All (HasOtherKey notify_key) registry.registrations
unfolding bytes_dec ℕ_discrete
registry-HasOtherKey = (refl, (refl, tt))

abbrev all_identities : Bytes → Bool
all_identities s = true

registry-Mirrors_example :
    let start : List Row = map to_row registry.registrations in
    Mirrors exec start (register registry sub channel relay 9)
    × Mirrors exec start (unregister registry sub channel relay)
    × Mirrors exec start (clear registry sub)
    × Mirrors exec start (rekey_identity_channel_rows notify_key registry all_identities true).0
registry-Mirrors_example =
    registry-Mirrors exec exec-Sqlite (map to_row registry.registrations) registry registry-Unique
      registry-start notify_key all_identities true sub channel relay 9 registry-HasOtherKey refl

-- Under a hash that is its own key, a re-keying keeps the registration in memory and deletes its row.
own_key_rekeyed :
    let r = (rekey_identity_channel_rows (λ s. s) registry all_identities true).0 in
    (length r.registrations ≡ 2)
    × (length (
          exec_all exec
            (map to_row registry.registrations)
            (move_statements (λ s. s) (moves_of (λ s. s) all_identities registry.registrations)))
        ≡ 1)
unfolding rekey_identity_channel_rows exec exec_all to_row bytes_dec ℕ_discrete
own_key_rekeyed = (refl, refl)

-- An upper-case digit passes.
upper_test :
    validate_relay_hash (
      65 ∷ 66 ∷ 67 ∷ 68 ∷ 69 ∷ 70 ∷ 48 ∷ 49 ∷ 65 ∷ 66 ∷ 67 ∷ 68 ∷ 69 ∷ 70 ∷ 48 ∷ 49 ∷ 65 ∷ 66 ∷ 67
      ∷ 68 ∷ 69 ∷ 70 ∷ 48 ∷ 49 ∷ 65 ∷ 66 ∷ 67 ∷ 68 ∷ 69 ∷ 70 ∷ 48 ∷ 49 ∷ [])
    ≡ true
unfolding validate_relay_hash
upper_test = refl
