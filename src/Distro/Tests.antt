-- ===== src/Distro/Tests.antt =====
-- The theorems on rfed/src/distro.rs at a list of two devices.
use rfed.Base.{
  ℕ, ◌≡◌, refl, List, [], ◌∷◌, ◌++◌, Option, none, some, Bytes, bytes_dec, same, Bool, true, false,
  not, ◌&&◌, ◌||◌, mem, if◌then◌else◌, ℕ_discrete, filter, any,
}
use rfed.Store.{Follows, replay}
use rfed.Session.Registry.{Sessions}
use rfed.Session.Streams.{transmitted}
use rfed.Distro.Fates.{Reach, fates_of}
use rfed.Distro.Tally.{Tallied}
use rfed.HandOff.Route.{Unconfirmed, HandOffOutcome}
use rfed.Distro.Table.{
  DistroEntry, DistroTable, Stmt, put_device, delete_device, is_device, register, unregister,
  is_distro, registered_distro_hashes,
}
use rfed.Distro.Announces.{
  DistroAnnounce, AnnounceStmt, put_announce, delete_announce, DistroAnnounceStore, describes, put,
  remove,
}
use rfed.Distro.Verify.{Destination, accepted, verify_signature, verify_key, verify_distro_announce}
use rfed.Distro.Accepted.{Announce, accepted-Announce}
use rfed.Distro.Members.{Unique, holds_device, register-holds_device}
use rfed.Distro.Disk.{DeviceSqlite, AnnounceSqlite, distro-Follows}
use rfed.Distro.Fanout.{distro_fanout}
use rfed.Distro.Counted.{none_fanned, Counted, hand_all, distro_fanout-Counted}

abbrev phone : DistroEntry
phone = record {
  distro_lxmf_hash = 7 ∷ [];
  device_lxmf_hash = 1 ∷ [];
  device_pubkey = 11 ∷ [];
  added = 5;
  owner_node_hash = none;
  last_refreshed = 5;
}

abbrev laptop : DistroEntry
laptop = record {
  distro_lxmf_hash = 7 ∷ [];
  device_lxmf_hash = 2 ∷ [];
  device_pubkey = 12 ∷ [];
  added = 6;
  owner_node_hash = none;
  last_refreshed = 6;
}

abbrev table : DistroTable
table = record { entries = phone ∷ laptop ∷ []; db = some [] }

table-Unique : Unique table.entries
unfolding bytes_dec ℕ_discrete
table-Unique = (refl, (refl, tt))

register-holds_device_example :
    (holds_device (register table (7 ∷ []) (3 ∷ []) (13 ∷ []) 9) (7 ∷ []) (1 ∷ []) ≡ (
      holds_device table (7 ∷ []) (1 ∷ []) || (same (7 ∷ []) (7 ∷ []) && same (3 ∷ []) (1 ∷ []))))
    × (holds_device (unregister table (7 ∷ []) (3 ∷ [])) (7 ∷ []) (1 ∷ []) ≡ (
        holds_device table (7 ∷ []) (1 ∷ [])
        && not (same (7 ∷ []) (7 ∷ []) && same (3 ∷ []) (1 ∷ []))))
    × Unique (register table (7 ∷ []) (3 ∷ []) (13 ∷ []) 9).entries
    × Unique (unregister table (7 ∷ []) (3 ∷ [])).entries
    × (mem (7 ∷ []) (registered_distro_hashes table) ≡ is_distro table (7 ∷ []))
register-holds_device_example =
    register-holds_device table (7 ∷ []) (3 ∷ []) (13 ∷ []) (7 ∷ []) (1 ∷ []) 9 table-Unique

abbrev exec : List DistroEntry → Stmt → List DistroEntry
exec rows (put_device e) =
    if any (is_device e.distro_lxmf_hash e.device_lxmf_hash) rows then rows else rows ++ e ∷ []
exec rows (delete_device distro device) = filter (λ e. not (is_device distro device e)) rows

exec-DeviceSqlite : DeviceSqlite exec
exec-DeviceSqlite = record { puts = λ rows e. refl; deletes = λ rows distro device. refl }

abbrev announce_exec : List DistroAnnounce → AnnounceStmt → List DistroAnnounce
announce_exec rows (put_announce a) =
    filter (λ x. not (describes a.distro_lxmf_hash x)) rows ++ a ∷ []
announce_exec rows (delete_announce distro) = filter (λ x. not (describes distro x)) rows

exec-AnnounceSqlite : AnnounceSqlite announce_exec
exec-AnnounceSqlite = record { puts = λ rows a. refl; deletes = λ rows distro. refl }

abbrev announces : DistroAnnounceStore
announces = record { entries = []; db = some [] }

table-Follows : Follows exec table.entries table.db table.entries
unfolding replay
table-Follows = record { log = []; open_db = refl; rows = refl }

announces-Follows : Follows announce_exec [] announces.db announces.entries
unfolding replay
announces-Follows = record { log = []; open_db = refl; rows = refl }

distro-Follows_example :
    let registered = register table (7 ∷ []) (3 ∷ []) (13 ∷ []) 9 in
    let unregistered = unregister table (7 ∷ []) (3 ∷ []) in
    let stored = put announces (7 ∷ []) (20 ∷ []) true 9 in
    let removed = remove announces (7 ∷ []) in
    Follows exec table.entries registered.db registered.entries
    × Follows exec table.entries unregistered.db unregistered.entries
    × Follows announce_exec [] stored.db stored.entries
    × Follows announce_exec [] removed.db removed.entries
distro-Follows_example =
    distro-Follows exec announce_exec exec-DeviceSqlite exec-AnnounceSqlite table.entries [] table
      announces (7 ∷ []) (3 ∷ []) (13 ∷ []) (20 ∷ []) true 9 table-Follows announces-Follows

abbrev ten : ℕ → Bytes → Bytes
ten n rest = n ∷ n ∷ n ∷ n ∷ n ∷ n ∷ n ∷ n ∷ n ∷ n ∷ rest

abbrev sixty_four : ℕ → Bytes → Bytes
sixty_four n rest = ten n (ten n (ten n (ten n (ten n (ten n (n ∷ n ∷ n ∷ n ∷ rest))))))

abbrev is_key : Bytes → Bool
is_key key = true

abbrev lxmf_delivery : Bytes → Option Destination
lxmf_delivery key = some (record { hash = 5 ∷ []; name_hash = ten 2 [] })

abbrev validate : Bytes → Bytes → Bytes → Bool
validate key signature bytes = true

abbrev announce : Bytes
announce = sixty_four 1 (ten 2 (ten 3 (sixty_four 4 (9 ∷ []))))

announce-accepted :
    verify_distro_announce is_key lxmf_delivery validate announce false (sixty_four 1 [])
    ≡ accepted (5 ∷ [])
unfolding verify_distro_announce verify_key verify_signature bytes_dec ℕ_discrete
announce-accepted = refl

accepted-Announce_example :
    Announce is_key lxmf_delivery validate announce false (sixty_four 1 []) (5 ∷ [])
accepted-Announce_example =
    accepted-Announce is_key lxmf_delivery validate announce false (sixty_four 1 []) (5 ∷ [])
      announce-accepted

abbrev hand_off : ℕ → Unconfirmed → ℕ × HandOffOutcome
hand_off n device = (n, record { queued = true; woken = true; pushed_because = none })

abbrev identity_hash : Bytes → Option Bytes
identity_hash key = some key

-- One session, of the first device.
abbrev links : Option Sessions
links = some (
    (8 ∷ [], record { subscriber_hash = none; channel_hashes = []; delivery_hash = some (1 ∷ []) })
    ∷ [])

distro_fanout-Counted_example :
    let start : Reach ℕ = record { links = links; streams = none; rest = 0 } in
    let fates =
      fates_of identity_hash
        (λ d l. true)
        (λ d l. true)
        (λ d l. transmitted)
        hand_off
        start
        table.entries in
    Tallied
      (none_fanned links none 0 2)
      (distro_fanout identity_hash
        (λ d l. true)
        (λ d l. true)
        (λ d l. transmitted)
        hand_off
        links
        none
        0
        table.entries)
      table.entries
      fates.0
      fates.1
    × Counted
        (distro_fanout identity_hash
          (λ d l. true)
          (λ d l. true)
          (λ d l. transmitted)
          hand_off
          links
          none
          0
          table.entries)
        2
    × ((distro_fanout identity_hash
          (λ d l. true)
          (λ d l. true)
          (λ d l. transmitted)
          hand_off
          none
          none
          0
          table.entries).rest
        ≡ hand_all identity_hash
            (λ d l. true)
            (λ d l. true)
            (λ d l. transmitted)
            hand_off
            0
            table.entries)
distro_fanout-Counted_example =
    distro_fanout-Counted identity_hash (λ d l. true) (λ d l. true) (λ d l. transmitted) hand_off
      links none 0 table.entries
