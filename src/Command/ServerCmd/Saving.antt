-- ===== src/Command/ServerCmd/Saving.antt =====
-- SAVE, BGSAVE and the end of its child: what is on disk, and what the server believes.
use keva_db.Base.{
  ◌≡◌, ◌≢◌, refl, ap, ◌∙◌, inl, inr, some, arith, length, length-append, Bool-cases, Bytes,
  bytes_eq_refl, codes,
}
use keva_db.Command.ServerCmd.{handle_save, now_seconds}
use keva_db.Command.World.{World, System}
use keva_db.Common.Status.{ok}
use keva_db.Net.Connection.{append_response}
use keva_db.Persistence.Rdb.{snapshot}
use keva_db.Persistence.Save.{temporary, rdb_save_sync}
use keva_db.Persistence.Save.Atomic.{rdb_save_sync-Replaced}
use keva_db.Protocol.Encoder

-- What SAVE leaves: the snapshot on disk and a server that knows it, with OK; or the old files but
-- for the temporary one, the server context unchanged, and an error.
pub data SaveOutcome (sys : System) (w w' : World) : Type 0 where
  saved :
      w'.disk w.ctx.config.rdb_filename ≡ some (snapshot sys.clock.now_ms w.db)
      → w'.ctx ≡ record w.ctx { last_save_time = now_seconds sys.clock; dirty_keys = 0 }
      → w'.conn ≡ append_response w.conn Encoder.ok
      → SaveOutcome sys w w'
  not_saved :
      (text : Bytes)
      → w'.disk w.ctx.config.rdb_filename ≡ w.disk w.ctx.config.rdb_filename
      → w'.ctx ≡ w.ctx
      → w'.conn ≡ append_response w.conn (Encoder.error text)
      → SaveOutcome sys w w'

pub filename-ne-temporary : (f : Bytes) → f ≢ temporary f
filename-ne-temporary f e = absurd (omega (arith, ap length e, length-append f (codes ".tmp")))

-- SAVE, whatever fails in open, write or rename: the reply is OK, the file is the snapshot of the
-- database, and the save time and the counter of changed keys are set; or the reply is an error,
-- the file is as it was, and so is the server context.
pub handle_save-SaveOutcome : (sys : System) (w : World) → SaveOutcome sys w (handle_save sys w)
unfolding handle_save
handle_save-SaveOutcome sys w =
    let name = w.ctx.config.rdb_filename in
    let r = rdb_save_sync sys.strerror sys.saving_answers name sys.clock.now_ms w.db w.disk in
    let files =
      rdb_save_sync-Replaced sys.strerror name sys.saving_answers sys.clock.now_ms w.db w.disk name
        (filename-ne-temporary name) in
    elim (Bool-cases (ok r.1.1)) [
      | inl fine ↦ rw fine (saved (files ∙ rw (fine, bytes_eq_refl name) refl) refl refl)
      | inr bad ↦ rw bad (not_saved r.1.1.message (files ∙ rw bad refl) refl refl)
    ]
