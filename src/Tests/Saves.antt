-- ===== src/Tests/Saves.antt =====
-- SAVE and BGSAVE of src/command and src/persistence on a database with one key.
use keva_db.Base.{◌≡◌, refl, true, none, some, [], ◌∷◌, Bytes, codes}
use keva_db.Base.Int.{pos}
use keva_db.Command.Children.{run_child, reap_child}
use keva_db.Command.ServerCmd.{handle_bgsave}
use keva_db.Command.ServerCmd.Background.{bgsave-snapshot}
use keva_db.Command.ServerCmd.OneChild.{
  here, next, asks, child_runs, reaps, OneChild, Reach-OneChild,
}
use keva_db.Command.ServerCmd.Saving.{filename-ne-temporary}
use keva_db.Command.World.{World, System}
use keva_db.Common.Status.{ok}
use keva_db.Core.Db.{KevaDatabase, new_database, set}
use keva_db.Core.Object.{create_string}
use keva_db.Core.ServerContext.{new_context, no_child}
use keva_db.Net.Connection.{new_connection}
use keva_db.Persistence.Background.{forked, no_process, rdb_save_background}
use keva_db.Persistence.Rdb.{snapshot}
use keva_db.Persistence.Save.{
  SaveAnswers, Disk, wrote, write_interrupted, write_failed, rdb_save_sync,
}
use keva_db.Persistence.Save.Succeeds.{rdb_save_sync-succeeds}
use keva_db.Persistence.Save.Atomic.{Replaced, rdb_save_sync-Replaced}

abbrev db : KevaDatabase
db = set (new_database 0) (codes "k") (create_string (codes "v") 0)

-- A disk that is full behind the first bytes.
abbrev full_disk : SaveAnswers
full_disk = record {
  open_error = none;
  writes = wrote 4 ∷ write_interrupted ∷ write_failed 28 ∷ [];
  rename_error = none;
}

abbrev old_snapshot : Disk
old_snapshot path = some (codes "old")

abbrev name : Bytes
name = codes "dump.rdb"

rdb_save_sync-Replaced_example :
    Replaced
      (λ e. codes "full")
      name
      (snapshot (pos 5000) db)
      old_snapshot
      (rdb_save_sync (λ e. codes "full") full_disk name (pos 5000) db old_snapshot).1
      name
rdb_save_sync-Replaced_example =
    rdb_save_sync-Replaced (λ e. codes "full") name full_disk (pos 5000) db old_snapshot name
      (filename-ne-temporary name)

abbrev sys : System
sys = record {
  clock = record { now_ms = pos 5000; seconds = 5 };
  saving_answers = record { open_error = none; writes = []; rename_error = none };
  fork_answer = forked 7;
  strerror = λ e. codes "full";
}

abbrev idle : World
idle = record {
  conn = new_connection;
  db = new_database 0;
  ctx = new_context;
  disk = old_snapshot;
  child = no_process;
}

Reach-OneChild_example :
    OneChild (reap_child (pos 6) (run_child sys (handle_bgsave sys (handle_bgsave sys idle))))
Reach-OneChild_example =
    Reach-OneChild
      (next
        (next (next (next here (asks sys idle)) (asks sys (handle_bgsave sys idle)))
          (child_runs sys (handle_bgsave sys (handle_bgsave sys idle))))
        (reaps (pos 6) (run_child sys (handle_bgsave sys (handle_bgsave sys idle)))))
      refl

rdb_save_sync-succeeds_example :
    ok (rdb_save_sync sys.strerror sys.saving_answers name (pos 5000) db old_snapshot).1.1 ≡ true
rdb_save_sync-succeeds_example =
    rdb_save_sync-succeeds sys.strerror sys.saving_answers name (pos 5000) db old_snapshot refl refl
      refl

-- A key is changed between the fork and the child's save.
abbrev changed : World
changed = record (handle_bgsave sys (record idle { db = db })) {
  db = new_database 0;
  ctx = record (handle_bgsave sys (record idle { db = db })).ctx { dirty_keys = 1 };
}

bgsave-snapshot_example :
    let end = reap_child (pos 6) (run_child sys changed) in
    (end.disk name ≡ some (snapshot (pos 5000) db))
    × (end.db ≡ new_database 0)
    × (end.ctx.dirty_keys ≡ 0)
    × (end.ctx.last_save_time ≡ pos 6)
    × (end.ctx.bgsave_child_pid ≡ no_child)
    × (end.child ≡ no_process)
unfolding handle_bgsave rdb_save_background
bgsave-snapshot_example =
    bgsave-snapshot sys (record idle { db = db }) 7 sys changed (pos 6) refl refl refl refl
      (rdb_save_sync-succeeds sys.strerror sys.saving_answers name (pos 5000) db changed.disk refl
        refl refl)
