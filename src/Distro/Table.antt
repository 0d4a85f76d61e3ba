-- ===== src/Distro/Table.antt =====
-- `DistroTable` of rfed/src/distro.rs with the SQL statements that it sends.
use rfed.Base.{
  ℕ, List, [], ◌∷◌, ◌++◌, filter, any, Option, none, some, Bytes, same, Bool, not, ◌&&◌, ltb,
  length, if◌then◌else◌, mem,
}
use rfed.Store.{Db, write_all}

pub record DistroEntry : Type 0 where
  pub distro_lxmf_hash : Bytes
  pub device_lxmf_hash : Bytes
  pub device_pubkey : Bytes
  pub added : ℕ
  pub owner_node_hash : Option Bytes
  pub last_refreshed : ℕ

-- A row of `distro_devices` has the fields of an entry, the owner as NULL or a blob.
pub data Stmt : Type 0 where
  put_device : DistroEntry → Stmt
  delete_device : Bytes → Bytes → Stmt

pub record DistroTable : Type 0 where
  pub entries : List DistroEntry
  pub db : Db Stmt

abbrev pub is_device : Bytes → Bytes → DistroEntry → Bool
is_device distro device e = same e.distro_lxmf_hash distro && same e.device_lxmf_hash device

abbrev pub new_device : Bytes → Bytes → Bytes → ℕ → DistroEntry
new_device distro device pubkey now = record {
  distro_lxmf_hash = distro;
  device_lxmf_hash = device;
  device_pubkey = pubkey;
  added = now;
  owner_node_hash = none;
  last_refreshed = now;
}

unfoldable pub register : DistroTable → Bytes → Bytes → Bytes → ℕ → DistroTable
register t distro device pubkey now =
    if any (is_device distro device) t.entries
    then t
    else let e = new_device distro device pubkey now in
      record { entries = t.entries ++ e ∷ []; db = write_all t.db (put_device e ∷ []) }

unfoldable pub unregister : DistroTable → Bytes → Bytes → DistroTable
unregister t distro device =
    let kept = filter (λ e. not (is_device distro device e)) t.entries in
    record {
      entries = kept;
      db =
          if ltb (length kept) (length t.entries)
          then write_all t.db (delete_device distro device ∷ [])
          else t.db;
    }

unfoldable pub get_devices : DistroTable → Bytes → List DistroEntry
get_devices t distro = filter (λ e. same e.distro_lxmf_hash distro) t.entries

unfoldable pub devices_snapshot : DistroTable → Bytes → List DistroEntry
devices_snapshot t distro = filter (λ e. same e.distro_lxmf_hash distro) t.entries

unfoldable pub is_distro : DistroTable → Bytes → Bool
is_distro t distro = any (λ e. same e.distro_lxmf_hash distro) t.entries

-- A `HashSet` of the hashes.
unfoldable pub distinct_hashes : List DistroEntry → List Bytes
distinct_hashes [] = []
distinct_hashes (e ∷ es) =
    let rest = distinct_hashes es in
    if mem e.distro_lxmf_hash rest then rest else e.distro_lxmf_hash ∷ rest

unfoldable pub registered_distro_hashes : DistroTable → List Bytes
unfolding distinct_hashes
registered_distro_hashes t = distinct_hashes t.entries

-- A start with the rows of an open database, or with none.
unfoldable pub load : Option (List DistroEntry) → Db Stmt → DistroTable
load none db = record { entries = []; db = db }
load (some rows) db = record { entries = rows; db = db }
