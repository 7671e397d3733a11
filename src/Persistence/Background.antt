-- ===== src/Persistence/Background.antt =====
-- `rdb_save_background` and `on_bgsave_child_exit` of src/persistence/rdb_save.cpp: the child that
-- fork makes saves its copy of the database, and the server reaps it.
use keva_db.Base.{ℕ, ◌==◌, if◌then◌else◌, Bytes}
use keva_db.Base.Int.{ℤ, pos}
use keva_db.Common.Status.{Status, success, io_error, ok}
use keva_db.Core.Db.{KevaDatabase}
use keva_db.Core.ServerContext.{ServerContext, no_child}
use keva_db.Persistence.Save.{Disk, SaveAnswers, rdb_save_sync}

-- What fork gives to the server.
pub data Forked : Type 0 where
  forked : ℕ → Forked
  fork_failed : ℕ → Forked

-- The child process: none, one that has the copy of a database to save, or one that has ended, with
-- an exit code or by a signal.
pub data Child : Type 0 where
  no_process : Child
  saving : KevaDatabase → Child
  finished : ℕ → Child
  killed : Child

-- The server's side of fork.
unfoldable pub rdb_save_background :
    (ℕ → Bytes) → Forked → KevaDatabase → ServerContext → Child → ServerContext × (Child × Status)
rdb_save_background strerror (fork_failed e) db ctx child = (ctx, (child, io_error (strerror e)))
rdb_save_background strerror (forked pid) db ctx child =
    (record ctx { bgsave_child_pid = pos pid }, (saving db, success))

-- The child's side, up to its exit code.
unfoldable pub save_in_child :
    (ℕ → Bytes) → SaveAnswers → Bytes → ℤ → KevaDatabase → Disk → Disk × Child
save_in_child strerror given filename now_ms copy disk =
    let (db', (disk', s)) = rdb_save_sync strerror given filename now_ms copy disk in
    (disk', finished (if ok s then 0 else 1))

-- What waitpid gives: no child yet, one that exited with a code, or one that a signal ended.
pub data Reaped : Type 0 where
  nothing_reaped : Reaped
  exited : ℕ → Reaped
  signaled : Reaped

unfoldable pub on_bgsave_child_exit : Reaped → ℤ → ServerContext → ServerContext
on_bgsave_child_exit nothing_reaped now ctx = ctx
on_bgsave_child_exit (exited code) now ctx =
    let reaped = record ctx { bgsave_child_pid = no_child } in
    if code == 0 then record reaped { last_save_time = now; dirty_keys = 0 } else reaped
on_bgsave_child_exit signaled now ctx = record ctx { bgsave_child_pid = no_child }
