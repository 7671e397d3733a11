-- ===== src/Main/Launch.antt =====
-- `main` of src/main.cpp from the parsed configuration on: the start up to the loop, and the shutdown
-- behind it.
pub mod Serving
pub mod Snapshots
use keva_db.Base.{
  ℕ, ◌/◌, Bool, true, false, ◌&&◌, Option, none, some, List, [], ltb, if◌then◌else◌, Bytes,
}
use keva_db.Base.Int.{ℤ, pos}
use keva_db.Command.Args.{Clock}
use keva_db.Command.Registry.{Registry}
use keva_db.Command.ServerCmd.{now_seconds}
use keva_db.Common.Status.{Status, ok}
use keva_db.Core.Db.{KevaDatabase}
use keva_db.Core.ServerContext.{ServerConfig, ServerContext, new_context, init}
use keva_db.Main.Program.{
  App, Watch, signal_pipe, cron, Given, Keva, first_db, with_first_db, handle_connection, load_file,
  started_with,
}
use keva_db.Net.EventLoop.{Epoll, new_event_loop, add_readable, set_timer}
use keva_db.Net.Socket.{Socket, ServerAnswers, create_server}
use keva_db.Net.TcpServer
use keva_db.Net.TcpServer.{outside, Process, new_server, set_request_handler, start}
use keva_db.Persistence.Background.{no_process}
use keva_db.Persistence.Save.{Disk, SaveAnswers, rdb_save_sync}

-- What the system gives to the start: the files, the clock, whether the snapshot can be opened if
-- it is there, the read end of the signal pipe if there is one, what the calls for the listening
-- socket return, and the time at which the timer is set.
pub record Launch (K : Type 0) : Type 0 where
  pub kernel : K
  pub disk : Disk
  pub clock : Clock
  pub can_open : Bool
  pub pipe_fd : Option ℕ
  pub server_answers : ServerAnswers
  pub timer_set_at : ℤ

-- The server context with the snapshot loaded.
unfoldable pub loaded_app : Disk → Clock → Bool → ServerConfig → App
loaded_app disk clock can_open cfg =
    let ctx = init cfg (now_seconds clock) new_context in
    let loaded = load_file clock can_open (disk cfg.rdb_filename) (first_db ctx.databases) in
    record {
      ctx = record ctx { databases = with_first_db (started_with loaded) ctx.databases };
      disk = disk;
      child = no_process;
    }

-- The final save, whose status is ignored.
unfoldable pub final_save : (ℕ → Bytes) → SaveAnswers → Clock → App → App
final_save strerror given clock app =
    let (db', (disk', s)) =
      rdb_save_sync strerror given app.ctx.config.rdb_filename clock.now_ms
        (first_db app.ctx.databases) app.disk in
    if app.ctx.config.rdb_enabled && ltb 0 app.ctx.dirty_keys
    then record app {
      ctx = record app.ctx { databases = with_first_db db' app.ctx.databases };
      disk = disk';
    }
    else app

module _ (os : Epoll) (reserve_limit : ℕ) (table : Registry) where
  open os use {Instance, strerror}

  -- The loop and the server, before anything is registered.
  abbrev pub assembled : Launch Instance → ServerConfig → Keva os reserve_limit table
  assembled l cfg = record {
    server =
        set_request_handler (handle_connection reserve_limit table) (new_server cfg.host cfg.port);
    loop = new_event_loop l.kernel;
    app = loaded_app l.disk l.clock l.can_open cfg;
  }

  -- `install_signal_handlers`, where the pipe could be made.
  abbrev pub watch_pipe : ℕ → Keva os reserve_limit table → Keva os reserve_limit table
  watch_pipe fd p = record p { loop = (add_readable os fd (outside signal_pipe) p.loop).0 }

  abbrev pub with_timer : ℤ → Keva os reserve_limit table → Keva os reserve_limit table
  with_timer now p = record p {
    loop = set_timer (pos (1000 / p.app.ctx.config.hz)) (outside cron) now p.loop;
  }

  -- The listening socket; no program where it fails.
  unfoldable pub listen :
      Launch Instance
      → ServerConfig
      → Keva os reserve_limit table
      → Option (Keva os reserve_limit table)
  listen l cfg p =
      let ((socket, created), closed) = create_server strerror cfg.host l.server_answers in
      let (started, s) = start os created l.server_answers.socket_fd p in
      if ok s then some (with_timer l.timer_set_at started) else none

  unfoldable pub launch_with :
      Option ℕ → Launch Instance → ServerConfig → Option (Keva os reserve_limit table)
  launch_with none l cfg = none
  launch_with (some fd) l cfg = listen l cfg (watch_pipe fd (assembled l cfg))

  -- Up to the loop; `none` is an exit with the code 1.
  unfoldable pub launch : Launch Instance → ServerConfig → Option (Keva os reserve_limit table)
  launch l cfg = launch_with l.pipe_fd l cfg

  -- Behind the loop.
  unfoldable pub shut_down :
      SaveAnswers → Clock → Keva os reserve_limit table → Keva os reserve_limit table
  shut_down given clock p =
      let stopped = TcpServer.stop os p in
      record stopped { app = final_save strerror given clock stopped.app }
