-- ===== src/Main/Launch/Snapshots.antt =====
-- What a shutdown saves, the next start loads.
use keva_db.Base.{ℕ, ◌<◌, ◌≡◌, refl, ap, ◌∙◌, true, some, arith, ltb, bytes_eq_refl, Bytes}
use keva_db.Base.Int.{ℤ, pos, leb_ℤ, InI64}
use keva_db.Command.Args.{Clock, lru_now}
use keva_db.Command.Registry.{Registry}
use keva_db.Command.ServerCmd.Saving.{filename-ne-temporary}
use keva_db.Common.Status.{ok}
use keva_db.Core.Db.{KevaDatabase}
use keva_db.Core.Db.Live.{IsDb, live}
use keva_db.Core.Dict.Invariant.{view}
use keva_db.Core.Object.{KevaObject}
use keva_db.Core.ServerContext.{ServerConfig, init}
use keva_db.Main.Launch.{loaded_app, final_save, shut_down}
use keva_db.Main.Program.{App, Keva, first_db, load_file}
use keva_db.Net.EventLoop.{Epoll}
use keva_db.Net.TcpServer
use keva_db.Persistence.Rdb.{snapshot}
use keva_db.Persistence.Rdb.Recovery.{FitsText, Recovered, rdb_load-snapshot}
use keva_db.Persistence.Save.{Disk, SaveAnswers, rdb_save_sync}
use keva_db.Persistence.Save.Atomic.{rdb_save_sync-Replaced}

loaded_app-Recovered :
    (disk : Disk) (clock : Clock) (cfg : ServerConfig) (now_ms : ℤ) (db : KevaDatabase)
    → disk cfg.rdb_filename ≡ some (snapshot now_ms db)
    → IsDb db
    → leb_ℤ (pos 0) now_ms ≡ true
    → ((q : Bytes) (o : KevaObject) → live db now_ms q ≡ some o → FitsText q o)
    → ((q : Bytes) (ts : ℤ) → view db.expires q ≡ some ts → InI64 ts)
    → Recovered now_ms db (lru_now clock) (first_db (loaded_app disk clock true cfg).ctx.databases)
unfolding loaded_app load_file init
loaded_app-Recovered disk clock cfg now_ms db e w since texts times =
    let (fine, back) = rdb_load-snapshot clock now_ms db w since texts times in rw (e, fine) back

module _ (strerror : ℕ → Bytes) (given : SaveAnswers) (clock : Clock) (app : App)
    (enabled : app.ctx.config.rdb_enabled ≡ true) (changed : 0 < app.ctx.dirty_keys)
    (done : ok
        (rdb_save_sync strerror given app.ctx.config.rdb_filename clock.now_ms
          (first_db app.ctx.databases)
          app.disk).1.1
      ≡ true) where
  final_save-snapshot :
      (final_save strerror given clock app).disk app.ctx.config.rdb_filename
      ≡ some (snapshot clock.now_ms (first_db app.ctx.databases))
  unfolding final_save
  final_save-snapshot =
      let name = app.ctx.config.rdb_filename in
      let some_keys : ltb 0 app.ctx.dirty_keys ≡ true = ground (arith, changed) in
      let files =
        rdb_save_sync-Replaced strerror name given clock.now_ms (first_db app.ctx.databases)
          app.disk name (filename-ne-temporary name) in
      rw (enabled, some_keys) (files ∙ rw (done, bytes_eq_refl name) refl)

-- A shutdown with changed keys of a valid database, whose final save succeeds, and a start on the
-- same file behind it: the database starts with the keys that were live at the time of the save,
-- each with its text and its time, and no others, also those whose time is over by the start; for a
-- time from 0 on, texts of 32-bit lengths and expiry times of 64 bits.
pub loaded_app-shut_down :
    (os : Epoll) (reserve_limit : ℕ) (table : Registry) (given : SaveAnswers) (clock later : Clock)
    (p : Keva os reserve_limit table) (cfg : ServerConfig)
    → p.app.ctx.config.rdb_enabled ≡ true
    → 0 < p.app.ctx.dirty_keys
    → ok
        (rdb_save_sync os.strerror given p.app.ctx.config.rdb_filename clock.now_ms
          (first_db p.app.ctx.databases)
          p.app.disk).1.1
      ≡ true
    → cfg.rdb_filename ≡ p.app.ctx.config.rdb_filename
    → IsDb (first_db p.app.ctx.databases)
    → leb_ℤ (pos 0) clock.now_ms ≡ true
    → ((q : Bytes) (o : KevaObject)
        → live (first_db p.app.ctx.databases) clock.now_ms q ≡ some o
        → FitsText q o)
    → ((q : Bytes) (ts : ℤ) → view (first_db p.app.ctx.databases).expires q ≡ some ts → InI64 ts)
    → let end = (shut_down os reserve_limit table given clock p).app in
      Recovered clock.now_ms
        (first_db p.app.ctx.databases)
        (lru_now later)
        (first_db (loaded_app end.disk later true cfg).ctx.databases)
unfolding shut_down TcpServer.stop
loaded_app-shut_down os reserve_limit table given clock later p cfg enabled changed done same w
      since texts times =
    let file = final_save-snapshot os.strerror given clock p.app enabled changed done in
    loaded_app-Recovered (final_save os.strerror given clock p.app).disk later cfg clock.now_ms
      (first_db p.app.ctx.databases)
      (ap (final_save os.strerror given clock p.app).disk same ∙ file) w since texts times
