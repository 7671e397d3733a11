-- ===== src/Command/ServerCmd/OneChild.antt =====
-- One child of BGSAVE at a time, and the server knows of it.
use keva_db.Base.{ℕ, ◌≡◌, refl, sym, ap, ◌∙◌, inl, inr, Bool, true, false, arith, Bool-cases, Bytes}
use keva_db.Base.Int.{ℤ, eqb_ℤ}
use keva_db.Command.Children.{run_child, run_child_of, reap_child, wait_result, left_behind}
use keva_db.Command.ServerCmd.{handle_save, handle_bgsave}
use keva_db.Command.World.{World, System}
use keva_db.Common.Status.{ok}
use keva_db.Core.Db.{KevaDatabase}
use keva_db.Core.ServerContext.{ServerContext, no_child}
use keva_db.Net.Connection.{Connection}
use keva_db.Persistence.Background.{
  Forked, forked, fork_failed, Child, no_process, saving, finished, killed, rdb_save_background,
  save_in_child, on_bgsave_child_exit,
}
use keva_db.Persistence.Save.{rdb_save_sync}

-- What happens to the server around a BGSAVE: the command, the work or the death of the child, a
-- SIGCHLD, a SAVE, and any command that changes no more than its connection, the database and the
-- counters.
pub data Step : World → World → Type 0 where
  asks : (sys : System) (w : World) → Step w (handle_bgsave sys w)
  child_runs : (sys : System) (w : World) → Step w (run_child sys w)
  child_dies :
      (copy : KevaDatabase) (w : World)
      → w.child ≡ saving copy
      → Step w (record w { child = killed })
  reaps : (now : ℤ) (w : World) → Step w (reap_child now w)
  saves : (sys : System) (w : World) → Step w (handle_save sys w)
  works :
      (conn : Connection) (db : KevaDatabase) (dirty : ℕ) (w : World)
      → Step w (record w { conn = conn; db = db; ctx = record w.ctx { dirty_keys = dirty } })

pub data Reach (w : World) : World → Type 0 where
  here : Reach w w
  next : {u v : World} → Reach w u → Step u v → Reach w v

abbrev is_no_process : Child → Bool
is_no_process no_process = true
is_no_process _ = false

-- The server knows of a child exactly while there is one.
abbrev pub OneChild : World → Type 0
OneChild w = eqb_ℤ w.ctx.bgsave_child_pid no_child ≡ is_no_process w.child

asks-OneChild :
    (answer : Forked) (strerror : ℕ → Bytes) (w : World)
    → OneChild w
    → is_no_process w.child ≡ true
    → let r = rdb_save_background strerror answer w.db w.ctx w.child in
      eqb_ℤ r.0.bgsave_child_pid no_child ≡ is_no_process r.1.0
unfolding rdb_save_background
asks-OneChild (forked pid) strerror w one none_yet = ground arith
asks-OneChild (fork_failed e) strerror w one none_yet = one

Step-asks : (sys : System) (w : World) → OneChild w → OneChild (handle_bgsave sys w)
unfolding handle_bgsave
Step-asks sys w one = elim (Bool-cases (eqb_ℤ w.ctx.bgsave_child_pid no_child)) [
  | inr busy ↦ rw busy one
  | inl free ↦
      let r = rdb_save_background sys.strerror sys.fork_answer w.db w.ctx w.child in
      let asked = asks-OneChild sys.fork_answer sys.strerror w one (sym one ∙ free) in
      elim (Bool-cases (ok r.1.1)) [
        | inl fine ↦ rw (free, fine) asked
        | inr bad ↦ rw (free, bad) asked
      ]
]

run_child-same :
    (c : Child) (sys : System) (w : World)
    → w.child ≡ c
    → let w' = run_child_of c sys w in
      (w'.ctx ≡ w.ctx) × (is_no_process w'.child ≡ is_no_process w.child)
unfolding run_child_of save_in_child
run_child-same (saving copy) sys w e = (refl, ap is_no_process (sym e))
run_child-same no_process sys w e = (refl, refl)
run_child-same (finished code) sys w e = (refl, refl)
run_child-same killed sys w e = (refl, refl)

-- A SIGCHLD while the server knows of a child.
reaped-OneChild :
    (c : Child) (now : ℤ) (ctx : ServerContext)
    → eqb_ℤ ctx.bgsave_child_pid no_child ≡ is_no_process c
    → eqb_ℤ (on_bgsave_child_exit (wait_result c) now ctx).bgsave_child_pid no_child
      ≡ is_no_process (left_behind c)
unfolding on_bgsave_child_exit
reaped-OneChild no_process now ctx one = one
reaped-OneChild (saving copy) now ctx one = one
reaped-OneChild (finished code) now ctx one = ground arith
reaped-OneChild killed now ctx one = refl

Step-reaps : (now : ℤ) (w : World) → OneChild w → OneChild (reap_child now w)
unfolding reap_child
Step-reaps now w one = elim (Bool-cases (eqb_ℤ w.ctx.bgsave_child_pid no_child)) [
  | inl free ↦ rw free one
  | inr busy ↦ rw busy (reaped-OneChild w.child now w.ctx one)
]

Step-saves : (sys : System) (w : World) → OneChild w → OneChild (handle_save sys w)
unfolding handle_save
Step-saves sys w one =
    let name = w.ctx.config.rdb_filename in
    let r = rdb_save_sync sys.strerror sys.saving_answers name sys.clock.now_ms w.db w.disk in
    elim (Bool-cases (ok r.1.1)) [ inl fine ↦ rw fine one | inr bad ↦ rw bad one ]

Step-OneChild : {v w : World} → Step v w → OneChild v → OneChild w
unfolding run_child
Step-OneChild (asks sys w) one = Step-asks sys w one
Step-OneChild (child_runs sys w) one =
    let (same, still) = run_child-same w.child sys w refl in
    ap (λ c. eqb_ℤ c.bgsave_child_pid no_child) same ∙ one ∙ sym still
Step-OneChild (child_dies copy w e) one = one ∙ ap is_no_process e
Step-OneChild (reaps now w) one = Step-reaps now w one
Step-OneChild (saves sys w) one = Step-saves sys w one
Step-OneChild (works conn db dirty w) one = one

-- If the server has the pid of a child exactly while one runs or waits to be reaped, it still does
-- after any steps: a BGSAVE, the work, the death and the reaping of the child, a SAVE, and commands
-- that change only the connection, the database and the counter of changed keys.
pub Reach-OneChild : {v w : World} → Reach v w → OneChild v → OneChild w
Reach-OneChild here one = one
Reach-OneChild (next r st) one = Step-OneChild st (Reach-OneChild r one)
