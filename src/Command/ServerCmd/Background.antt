-- ===== src/Command/ServerCmd/Background.antt =====
-- What a BGSAVE leaves on disk, and what the server believes of it then.
use keva_db.Base.{◌≡◌, refl, ap, ◌∙◌, true, false, ℕ, some, arith, bytes_eq_refl}
use keva_db.Base.Int.{ℤ, pos, eqb_ℤ}
use keva_db.Command.Children.{run_child, run_child_of, reap_child}
use keva_db.Command.ServerCmd.{handle_bgsave}
use keva_db.Command.ServerCmd.Saving.{filename-ne-temporary}
use keva_db.Command.World.{World, System}
use keva_db.Common.Status.{ok}
use keva_db.Core.Db.{KevaDatabase}
use keva_db.Core.ServerContext.{no_child}
use keva_db.Persistence.Background.{
  forked, saving, finished, no_process, rdb_save_background, save_in_child, on_bgsave_child_exit,
}
use keva_db.Persistence.Rdb.{snapshot}
use keva_db.Persistence.Save.{rdb_save_sync}
use keva_db.Persistence.Save.Atomic.{rdb_save_sync-Replaced}

bgsave_starts :
    (sys : System) (w : World) (pid : ℕ)
    → eqb_ℤ w.ctx.bgsave_child_pid no_child ≡ true
    → sys.fork_answer ≡ forked pid
    → let w' = handle_bgsave sys w in
      (w'.child ≡ saving w.db) × (w'.ctx ≡ record w.ctx { bgsave_child_pid = pos pid })
unfolding handle_bgsave rdb_save_background
bgsave_starts sys w pid free e = rw (free, e) (refl, refl)

module _ (sys : System) (later : World) (copy : KevaDatabase) (child : later.child ≡ saving copy)
    (done : ok
        (rdb_save_sync sys.strerror sys.saving_answers later.ctx.config.rdb_filename
          sys.clock.now_ms copy later.disk).1.1
      ≡ true) where
  child_saves :
      ((run_child sys later).disk later.ctx.config.rdb_filename
        ≡ some (snapshot sys.clock.now_ms copy))
      × ((run_child sys later).child ≡ finished 0)
      × ((run_child sys later).ctx ≡ later.ctx)
      × ((run_child sys later).db ≡ later.db)
  unfolding run_child run_child_of save_in_child
  child_saves =
      let name = later.ctx.config.rdb_filename in
      let files =
        rdb_save_sync-Replaced sys.strerror name sys.saving_answers sys.clock.now_ms copy later.disk
          name (filename-ne-temporary name) in
      rw (child, done) (files ∙ rw (done, bytes_eq_refl name) refl, refl, refl, refl)

reap_finished :
    (now : ℤ) (w : World)
    → eqb_ℤ w.ctx.bgsave_child_pid no_child ≡ false
    → w.child ≡ finished 0
    → let w' = reap_child now w in
      (w'.ctx.bgsave_child_pid ≡ no_child)
      × (w'.ctx.dirty_keys ≡ 0)
      × (w'.ctx.last_save_time ≡ now)
      × (w'.child ≡ no_process)
      × (w'.disk ≡ w.disk)
      × (w'.db ≡ w.db)
unfolding reap_child on_bgsave_child_exit
reap_finished now w busy e = rw (busy, e) (refl, refl, refl, refl, refl, refl)

-- A whole BGSAVE: started with no child and a fork that gives a pid; then any commands, which leave
-- the child, its pid and the configuration alone; then the child saves without an error, and its
-- end is reaped. The file is the snapshot of the database as it was at the fork, and the counter of
-- changed keys is 0, also of those that changed since.
pub bgsave-snapshot :
    (asked : System) (w : World) (pid : ℕ) (sys : System) (later : World) (now : ℤ)
    → eqb_ℤ w.ctx.bgsave_child_pid no_child ≡ true
    → asked.fork_answer ≡ forked pid
    → later.child ≡ (handle_bgsave asked w).child
    → later.ctx.bgsave_child_pid ≡ (handle_bgsave asked w).ctx.bgsave_child_pid
    → ok
        (rdb_save_sync sys.strerror sys.saving_answers later.ctx.config.rdb_filename
          sys.clock.now_ms w.db later.disk).1.1
      ≡ true
    → let end = reap_child now (run_child sys later) in
      (end.disk later.ctx.config.rdb_filename ≡ some (snapshot sys.clock.now_ms w.db))
      × (end.db ≡ later.db)
      × (end.ctx.dirty_keys ≡ 0)
      × (end.ctx.last_save_time ≡ now)
      × (end.ctx.bgsave_child_pid ≡ no_child)
      × (end.child ≡ no_process)
bgsave-snapshot asked w pid sys later now free e child known done =
    let (copied, ctx) = bgsave_starts asked w pid free e in
    let (file, over, same_ctx, same_db) = child_saves sys later w.db (child ∙ copied) done in
    let busy : eqb_ℤ (run_child sys later).ctx.bgsave_child_pid no_child ≡ false =
      ap (λ c. eqb_ℤ c.bgsave_child_pid no_child) same_ctx
      ∙ ap (λ p. eqb_ℤ p no_child) (known ∙ ap (λ c. c.bgsave_child_pid) ctx)
      ∙ is_busy pid in
    let (free', clean, time, gone, disk, db) = reap_finished now (run_child sys later) busy over in
    (ap (λ d. d later.ctx.config.rdb_filename) disk ∙ file, db ∙ same_db, clean, time, free', gone)
  where
    is_busy : (pid : ℕ) → eqb_ℤ (pos pid) no_child ≡ false
    is_busy pid = ground arith
