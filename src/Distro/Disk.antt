-- ===== src/Distro/Disk.antt =====
-- The databases behind rfed/src/distro.rs: after every operation the rows are the devices, and the
-- announces, in memory.
use rfed.Base.{
  ℕ, ◌≡◌, refl, sym, ◌∙◌, List, [], ◌∷◌, ◌++◌, filter, any, Bytes, Bool, false, not, if◌then◌else◌,
  Bool-cases, inl, inr, length, ltb, filter-all,
}
use rfed.Store.{Db, write_all, Follows, exec_all, write_all-Follows}
use rfed.Distro.Table.{
  DistroEntry, Stmt, put_device, delete_device, DistroTable, is_device, new_device, register,
  unregister,
}
use rfed.Distro.Announces.{
  DistroAnnounce, AnnounceStmt, put_announce, delete_announce, DistroAnnounceStore, describes,
  new_announce, put, remove,
}

-- What the device table relies on of SQLite: a row whose key is there is ignored, and a new row comes
-- last.
pub record DeviceSqlite (exec : List DistroEntry → Stmt → List DistroEntry) : Type 0 where
  pub puts :
      (rows : List DistroEntry) (e : DistroEntry)
      → exec rows (put_device e) ≡ (
          if any (is_device e.distro_lxmf_hash e.device_lxmf_hash) rows
          then rows
          else rows ++ e ∷ [])
  pub deletes :
      (rows : List DistroEntry) (distro device : Bytes)
      → exec rows (delete_device distro device) ≡ filter (λ e. not (is_device distro device e)) rows

-- What the announce store relies on of SQLite: a row replaces the one with its key and comes last.
pub record AnnounceSqlite (exec : List DistroAnnounce → AnnounceStmt → List DistroAnnounce)
    : Type 0 where
  pub puts :
      (rows : List DistroAnnounce) (a : DistroAnnounce)
      → exec rows (put_announce a)
        ≡ filter (λ x. not (describes a.distro_lxmf_hash x)) rows ++ a ∷ []
  pub deletes :
      (rows : List DistroAnnounce) (distro : Bytes)
      → exec rows (delete_announce distro) ≡ filter (λ x. not (describes distro x)) rows

-- A deletion that is written only if it changes something.
delete-Follows :
    {R S : Type 0} (exec : List R → S → List R) (start rows : List R) (keep : R → Bool)
    (statement : S) (db : Db S)
    → exec rows statement ≡ filter keep rows
    → Follows exec start db rows
    → Follows exec start
        (if ltb (length (filter keep rows)) (length rows)
          then write_all db (statement ∷ [])
          else db)
        (filter keep rows)
unfolding exec_all
delete-Follows exec start rows keep statement db h m =
    elim (Bool-cases (ltb (length (filter keep rows)) (length rows))) [
      | inl some_gone ↦
          rw some_gone
            (write_all-Follows exec start db rows (filter keep rows) (statement ∷ []) m h)
      | inr none_gone ↦ rw none_gone (record {
        log = m.log;
        open_db = m.open_db;
        rows = m.rows ∙ sym (filter-all keep rows none_gone);
      })
    ]

module _ (exec : List DistroEntry → Stmt → List DistroEntry)
    (announce_exec : List DistroAnnounce → AnnounceStmt → List DistroAnnounce)
    (sql : DeviceSqlite exec) (announce_sql : AnnounceSqlite announce_exec)
    (start : List DistroEntry) (announce_start : List DistroAnnounce) where
  register-Follows :
      (t : DistroTable) (distro device pubkey : Bytes) (now : ℕ)
      → Follows exec start t.db t.entries
      → let r = register t distro device pubkey now in Follows exec start r.db r.entries
  unfolding register exec_all
  register-Follows t distro device pubkey now m =
      let e = new_device distro device pubkey now in
      elim (Bool-cases (any (is_device distro device) t.entries)) [
        | inl already ↦ rw (already, register) m
        | inr new ↦
            rw (new, register)
              (write_all-Follows exec start t.db t.entries (t.entries ++ e ∷ []) (put_device e ∷ [])
                m (sql.puts t.entries e ∙ appended e new))
      ]
    where
      appended :
          (e : DistroEntry)
          → any (is_device distro device) t.entries ≡ false
          → (if any (is_device distro device) t.entries then t.entries else t.entries ++ e ∷ [])
            ≡ t.entries ++ e ∷ []
      appended e new = rw new refl

  -- From open databases whose rows are the devices and the announces in memory: a registration, an
  -- unregistration, an announce and its removal, whether they change anything or not, each leave
  -- databases whose rows are what is in memory then, in order, so a restart reads it all back.
  pub distro-Follows :
      (t : DistroTable) (s : DistroAnnounceStore) (distro device pubkey announce : Bytes)
      (ratchet : Bool) (now : ℕ)
      → Follows exec start t.db t.entries
      → Follows announce_exec announce_start s.db s.entries
      → let registered = register t distro device pubkey now in
        let unregistered = unregister t distro device in
        let stored = put s distro announce ratchet now in
        let removed = remove s distro in
        Follows exec start registered.db registered.entries
        × Follows exec start unregistered.db unregistered.entries
        × Follows announce_exec announce_start stored.db stored.entries
        × Follows announce_exec announce_start removed.db removed.entries
  unfolding unregister put remove exec_all
  distro-Follows t s distro device pubkey announce ratchet now m n =
      let a = new_announce distro announce ratchet now in
      (
        register-Follows t distro device pubkey now m,
        delete-Follows exec start t.entries _ (delete_device distro device) t.db
            (sql.deletes t.entries distro device) m,
        write_all-Follows announce_exec announce_start s.db s.entries _ (put_announce a ∷ []) n
            (announce_sql.puts s.entries a),
        delete-Follows announce_exec announce_start s.entries _ (delete_announce distro) s.db
            (announce_sql.deletes s.entries distro) n,
      )
