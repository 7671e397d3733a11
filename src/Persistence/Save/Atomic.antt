-- ===== src/Persistence/Save/Atomic.antt =====
-- The old snapshot is replaced by a whole new one, or it stays.
use keva_db.Base.{
  ℕ, ◌≡◌, ◌≢◌, refl, sym, inl, inr, true, false, ◌&&◌, Option, none, some, if◌then◌else◌,
  Bool-cases, Bytes, bytes_eq, bytes_eq_iff,
}
use keva_db.Base.Int.{ℤ}
use keva_db.Common.Status.{Status, ok}
use keva_db.Core.Db.{KevaDatabase}
use keva_db.Persistence.Rdb.{snapshot}
use keva_db.Persistence.Save.{
  Disk, temporary, SaveAnswers, Writer, new_writer, save_to, renamed, saved_as, save_opened,
  rdb_save_sync,
}
use keva_db.Persistence.Save.Written.{save_to-snapshot}

module _ (strerror : ℕ → Bytes) (filename : Bytes) where
  -- What a path holds: the file under the name is the new one exactly on success.
  abbrev pub Replaced : Bytes → Disk → Disk × Status → Bytes → Type 0
  Replaced content disk r q =
      r.0 q ≡ (if ok r.1 && bytes_eq filename q then some content else disk q)

  saved_as-Replaced :
      (e : Option ℕ) (disk : Disk) (db : KevaDatabase) (w : Writer) (s : Status) (content q : Bytes)
      → (ok s ≡ true → w.out ≡ content)
      → bytes_eq (temporary filename) q ≡ false
      → Replaced content disk (saved_as strerror e filename disk (db, (w, s))).1 q
  unfolding saved_as renamed
  saved_as-Replaced none disk db w s content q whole other = elim (Bool-cases (ok s)) [
    | inl fine ↦ rw (fine, other, whole fine) refl
    | inr bad ↦ rw (bad, bad, other) refl
  ]
  saved_as-Replaced (some e) disk db w s content q whole other = elim (Bool-cases (ok s)) [
    | inl fine ↦ rw (fine, other) refl
    | inr bad ↦ rw (bad, bad, other) refl
  ]

  save_opened-Replaced :
      (o : Option ℕ) (given : SaveAnswers) (now_ms : ℤ) (db : KevaDatabase) (disk : Disk)
      (q : Bytes)
      → bytes_eq (temporary filename) q ≡ false
      → Replaced
          (snapshot now_ms db)
          disk
          (save_opened strerror o given filename now_ms db disk).1
          q
  unfolding save_opened
  save_opened-Replaced (some e) given now_ms db disk q other = refl
  save_opened-Replaced none given now_ms db disk q other =
      let r = save_to strerror now_ms db (new_writer given.writes) in
      saved_as-Replaced given.rename_error disk r.0 r.1.0 r.1.1 _ q
        (save_to-snapshot strerror now_ms db given.writes) other

  -- Whatever fails in open, write or rename: every path but that of the temporary file holds what
  -- it held, but for the snapshot's own path when the status is a success, which then holds the
  -- whole snapshot of the database.
  pub rdb_save_sync-Replaced :
      (given : SaveAnswers) (now_ms : ℤ) (db : KevaDatabase) (disk : Disk) (q : Bytes)
      → q ≢ temporary filename
      → Replaced
          (snapshot now_ms db)
          disk
          (rdb_save_sync strerror given filename now_ms db disk).1
          q
  unfolding rdb_save_sync
  rdb_save_sync-Replaced given now_ms db disk q other =
      elim (Bool-cases (bytes_eq (temporary filename) q)) [
        | inl same ↦ absurd (other (sym ((bytes_eq_iff (temporary filename) q).0 same)))
        | inr differs ↦ save_opened-Replaced given.open_error given now_ms db disk q differs
      ]
