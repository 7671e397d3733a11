-- ===== src/Main/Program.antt =====
-- The start of src/main.cpp, the callbacks that it registers, and its end.
use keva_db.Base.{
  ℕ, Bool, true, false, ◌||◌, Option, none, some, List, [], ◌∷◌, ◌==◌, if◌then◌else◌, Bytes,
  bytes_eq, codes,
}
use keva_db.Command.Args.{Clock}
use keva_db.Command.Children.{reap_child}
use keva_db.Command.Registry.{Registry, Dispatched, waiting, crashed, unfinished, dispatch}
use keva_db.Command.ServerCmd.{now_seconds}
use keva_db.Command.World.{World, System}
use keva_db.Common.Logger.{LogLevel, debug, info, warn, error}
use keva_db.Core.Db.{KevaDatabase, new_database, flush}
use keva_db.Core.ServerContext.{ServerContext, server_cron}
use keva_db.Net.Connection.{Connection, new_connection}
use keva_db.Net.EventLoop
use keva_db.Net.EventLoop.{Epoll, new_event_loop, add_readable, set_timer}
use keva_db.Net.TcpServer.{Process, RequestHandler}
use keva_db.Persistence.Background.{Child}
use keva_db.Persistence.Rdb.{rdb_load}
use keva_db.Persistence.Save.{Disk}

-- What the callbacks share: the singleton, the files, and the child of BGSAVE.
pub record App : Type 0 where
  pub ctx : ServerContext
  pub disk : Disk
  pub child : Child

-- What main registers with the loop: the read end of the signal pipe, and the timer.
pub data Watch : Type 0 where
  signal_pipe cron : Watch

-- What the system gives to one callback: to each turn of the dispatch loop, the byte of the signal
-- pipe, and the random draws of the expiry cycles.
pub record Given : Type 0 where
  pub systems : ℕ → System
  pub signal_byte : Option ℕ
  pub draws : ℕ → ℕ → ℕ × ℕ

-- `db()`, of a context that has been initialised.
abbrev pub first_db : List KevaDatabase → KevaDatabase
first_db [] = new_database 0
first_db (db ∷ dbs) = db

abbrev pub with_first_db : KevaDatabase → List KevaDatabase → List KevaDatabase
with_first_db db [] = []
with_first_db db (old ∷ dbs) = db ∷ dbs

abbrev pub in_world : Connection → App → World
in_world conn app = record {
  conn = conn;
  db = first_db app.ctx.databases;
  ctx = app.ctx;
  disk = app.disk;
  child = app.child;
}

abbrev pub app_of : World → App
app_of w = record {
  ctx = record w.ctx { databases = with_first_db w.db w.ctx.databases };
  disk = w.disk;
  child = w.child;
}

abbrev pub dispatched : Dispatched → Option (Connection × App)
dispatched (waiting w) = some (w.conn, app_of w)
dispatched (crashed w) = none
dispatched (unfinished w) = none

-- The request handler: the dispatch loop on the first database.
unfoldable pub handle_connection : ℕ → Registry → RequestHandler App Given
handle_connection reserve_limit table given conn app =
    dispatched (dispatch reserve_limit table given.systems (in_world conn app))

abbrev pub sigint : ℕ
sigint = 2

abbrev pub sigterm : ℕ
sigterm = 15

abbrev pub sigchld : ℕ
sigchld = 17

-- The work of the timer.
abbrev pub run_cron : Given → App → App
run_cron given app =
    let clock = (given.systems 0).clock in
    record app { ctx = (server_cron clock.now_ms (now_seconds clock) given.draws app.ctx).0 }

-- The choice of the log level.
unfoldable pub log_level : Bytes → LogLevel
log_level text =
    if bytes_eq text (codes "debug")
    then debug
    else if bytes_eq text (codes "warn")
    then warn
    else if bytes_eq text (codes "error")
    then error
    else info

-- How `rdb_load` ends, without the text of its status.
pub data LoadOutcome : Type 0 where
  loaded_all no_snapshot load_failed : LoadOutcome

abbrev pub load_outcome : KevaDatabase × Bool → KevaDatabase × LoadOutcome
load_outcome (db, true) = (db, loaded_all)
load_outcome (db, false) = (db, load_failed)

abbrev pub load_found : Clock → Option Bytes → KevaDatabase → KevaDatabase × LoadOutcome
load_found clock none db = (db, no_snapshot)
load_found clock (some file) db = load_outcome (rdb_load clock file db)

-- Opening the snapshot, which may fail for another reason than that it is not there.
unfoldable pub load_file : Clock → Bool → Option Bytes → KevaDatabase → KevaDatabase × LoadOutcome
load_file clock can_open file db = if can_open then load_found clock file db else (db, load_failed)

-- The database to start with: an empty one where the snapshot cannot be read.
abbrev pub started_with : KevaDatabase × LoadOutcome → KevaDatabase
started_with (db, loaded_all) = db
started_with (db, no_snapshot) = db
started_with (db, load_failed) = flush db

module _ (os : Epoll) (reserve_limit : ℕ) (table : Registry) where
  open os use {Instance, strerror}

  abbrev pub Keva : Type 0
  Keva = Process Instance Watch App Given

  abbrev stop_loop : Keva → Keva
  stop_loop p = record p { loop = EventLoop.stop p.loop }

  unfoldable pub on_signal : ℕ → Given → Keva → Keva
  on_signal signum given p =
      let now = now_seconds (given.systems 0).clock in
      if signum == sigterm || signum == sigint
      then stop_loop p
      else if signum == sigchld
      then record p { app = app_of (reap_child now (in_world new_connection p.app)) }
      else p

  unfoldable pub on_signal_pipe_readable : Option ℕ → Given → Keva → Keva
  on_signal_pipe_readable none given p = p
  on_signal_pipe_readable (some signum) given p = on_signal signum given p

  abbrev pub call_watch : Watch → Given → ℕ → Keva → Option Keva
  call_watch signal_pipe given fd p = some (on_signal_pipe_readable given.signal_byte given p)
  call_watch cron given fd p = some p

  abbrev pub fire_watch : Watch → Given → Keva → Option Keva
  fire_watch cron given p = some (record p { app = run_cron given p.app })
  fire_watch signal_pipe given p = some p
