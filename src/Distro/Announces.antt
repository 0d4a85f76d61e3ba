-- ===== src/Distro/Announces.antt =====
-- `DistroAnnounceStore` of rfed/src/distro.rs with the SQL statements that it sends.
use rfed.Base.{
  ℕ, List, [], ◌∷◌, ◌++◌, filter, Option, none, some, Bytes, same, Bool, not, ltb, length,
  if◌then◌else◌,
}
use rfed.Store.{Db, write_all}

pub record DistroAnnounce : Type 0 where
  pub distro_lxmf_hash : Bytes
  pub announce_data : Bytes
  pub ratchet : Bool
  pub updated : ℕ

pub data AnnounceStmt : Type 0 where
  put_announce : DistroAnnounce → AnnounceStmt
  delete_announce : Bytes → AnnounceStmt

pub record DistroAnnounceStore : Type 0 where
  pub entries : List DistroAnnounce
  pub db : Db AnnounceStmt

abbrev pub describes : Bytes → DistroAnnounce → Bool
describes distro a = same a.distro_lxmf_hash distro

abbrev pub new_announce : Bytes → Bytes → Bool → ℕ → DistroAnnounce
new_announce distro announce ratchet now = record {
  distro_lxmf_hash = distro;
  announce_data = announce;
  ratchet = ratchet;
  updated = now;
}

unfoldable pub put : DistroAnnounceStore → Bytes → Bytes → Bool → ℕ → DistroAnnounceStore
put s distro announce ratchet now =
    let a = new_announce distro announce ratchet now in
    record {
      entries = filter (λ x. not (describes distro x)) s.entries ++ a ∷ [];
      db = write_all s.db (put_announce a ∷ []);
    }

unfoldable pub remove : DistroAnnounceStore → Bytes → DistroAnnounceStore
remove s distro =
    let kept = filter (λ x. not (describes distro x)) s.entries in
    record {
      entries = kept;
      db =
          if ltb (length kept) (length s.entries)
          then write_all s.db (delete_announce distro ∷ [])
          else s.db;
    }

unfoldable pub find_announce : Bytes → List DistroAnnounce → Option DistroAnnounce
find_announce distro [] = none
find_announce distro (a ∷ as') =
    let rest = find_announce distro as' in if describes distro a then some a else rest

unfoldable pub get : DistroAnnounceStore → Bytes → Option DistroAnnounce
unfolding find_announce
get s distro = find_announce distro s.entries
