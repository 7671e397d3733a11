-- ===== src/Command/Children.antt =====
-- The child process of BGSAVE between fork and its end, and the SIGCHLD branch of
-- `on_signal_pipe_readable` in src/main.cpp, which reaps it.
use keva_db.Base.{not, if◌then◌else◌}
use keva_db.Base.Int.{ℤ, eqb_ℤ}
use keva_db.Command.World.{World, System}
use keva_db.Core.ServerContext.{no_child}
use keva_db.Persistence.Background.{
  Child, no_process, saving, finished, killed, save_in_child, Reaped, nothing_reaped, exited,
  signaled, on_bgsave_child_exit,
}

unfoldable pub run_child_of : Child → System → World → World
run_child_of (saving copy) sys w =
    let (disk', child') =
      save_in_child sys.strerror sys.saving_answers w.ctx.config.rdb_filename sys.clock.now_ms copy
        w.disk in
    record w { disk = disk'; child = child' }
run_child_of no_process sys w = w
run_child_of (finished code) sys w = w
run_child_of killed sys w = w

-- The child does its work.
unfoldable pub run_child : System → World → World
run_child sys w = run_child_of w.child sys w

-- What waitpid with WNOHANG gives of a child, and what is left of it.
abbrev pub wait_result : Child → Reaped
wait_result no_process = nothing_reaped
wait_result (saving copy) = nothing_reaped
wait_result (finished code) = exited code
wait_result killed = signaled

abbrev pub left_behind : Child → Child
left_behind no_process = no_process
left_behind (saving copy) = saving copy
left_behind (finished code) = no_process
left_behind killed = no_process

-- A SIGCHLD that is read from the signal pipe.
unfoldable pub reap_child : ℤ → World → World
reap_child now w =
    if not (eqb_ℤ w.ctx.bgsave_child_pid no_child)
    then record w {
      ctx = on_bgsave_child_exit (wait_result w.child) now w.ctx;
      child = left_behind w.child;
    }
    else w
