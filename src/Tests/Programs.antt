-- ===== src/Tests/Programs.antt =====
-- The program of src/main.cpp: a command line, a start, some turns of the loop, and a restart.
use keva_db.Base.{
  ℕ, ◌≡◌, refl, sym, ◌∙◌, inl, inr, Bool-cases, bytes_eq_iff, true, Option, none, some, List, [],
  ◌∷◌, arith, Bytes, codes, bytes_eq, take, drop, get_or,
}
use keva_db.Base.Decimal.{from_chars}
use keva_db.Base.Int.{ℤ, pos, InI64}
use keva_db.Command.Args.{lru_now}
use keva_db.Command.ServerCmd.{handle_save}
use keva_db.Command.ServerCmd.Saving.{SaveOutcome, handle_save-SaveOutcome}
use keva_db.Common.Status.{success}
use keva_db.Core.Db.{KevaDatabase, new_database, set, past}
use keva_db.Core.Object
use keva_db.Core.Buffer
use keva_db.Core.Db.Live.{Written, live, alive, Written-live, set-Written, new_database-IsDb}
use keva_db.Core.Dict.Invariant.{view}
use mathlib.Core.Path.{subst}
use keva_db.Core.Object.{KevaObject, create_string}
use keva_db.Core.ServerContext.{ServerConfig, default_config, init}
use keva_db.Main.Arguments.{parsed, parse_args}
use keva_db.Main.Arguments.Render.{render, settable, parse_args-render}
use keva_db.Main.Launch.{
  Launch, assembled, watch_pipe, with_timer, listen, launch_with, launch, shut_down, loaded_app,
}
use keva_db.Main.Launch.Snapshots.{loaded_app-shut_down}
use keva_db.Main.Launch.Serving.{serve-IsServed}
use keva_db.Persistence.Rdb.{rdb_load, snapshot}
use keva_db.Persistence.Save.Succeeds.{rdb_save_sync-succeeds}
use keva_db.Persistence.Rdb.Recovery.{
  FitsText, Recovered, rdb_load-snapshot, empty_keys, empty_times,
}
use keva_db.Main.Program.{Given, Keva, first_db, call_watch, fire_watch}
use keva_db.Net.EventLoop
use keva_db.Net.EventLoop.Dispatch.{Woken, ready, run}
use keva_db.Net.EventLoop.Dispatch.Keeps.{Holds}
use keva_db.Net.Socket.{
  create_server, configure, first_failure, move_construct, status_of_call, set_nonblocking,
  address_status,
}
use keva_db.Net.TcpServer.{Answers, accepted_fd, accept_would_block, start}
use keva_db.Net.TcpServer.Watched.{IsWatched}
use keva_db.Net.TcpServer.Clients.{IsServed}
use keva_db.Net.TcpServer.Hosting.{server_host}
use keva_db.Tests.Loops.{small_kernel, small_kernel-Grants, nothing_watched}
use keva_db.Tests.Pipelines.{commands, times, filled}
use keva_db.Tests.Servers.{taken_port}

abbrev pub cfg : ServerConfig
cfg = record default_config { port = 6380; maxmemory = 1048576; rdb_enabled = true }

parse_args-render_example : parse_args (render cfg) ≡ parsed (settable cfg)
parse_args-render_example = parse_args-render cfg (omega arith) (omega arith)

handle_save-SaveOutcome_example : SaveOutcome (times 1) filled (handle_save (times 1) filled)
handle_save-SaveOutcome_example = handle_save-SaveOutcome (times 1) filled

abbrev pub system : Launch (ℕ → Option ℕ)
system = record {
  kernel = nothing_watched;
  disk = λ path. none;
  clock = record { now_ms = pos 5000; seconds = 5 };
  can_open = true;
  pipe_fd = some 4;
  server_answers = record taken_port { bind_error = none };
  timer_set_at = pos 5000;
}

abbrev pub process : Keva small_kernel 1000 commands
process =
    with_timer small_kernel 1000 commands (pos 5000)
      (start small_kernel success 3 (
        watch_pipe small_kernel 1000 commands 4
          (assembled small_kernel 1000 commands system cfg))).0

abbrev accepting : Answers Given
accepting = record {
  accepts = accepted_fd 9 ∷ accept_would_block ∷ [];
  reads = [];
  writes = [];
  given = record { systems = times; signal_byte = none; draws = λ i n. (0, n) };
}

abbrev woken : List (Woken (Answers Given))
woken =
    ready (record { fd = 3; evmask = 1; on_read = accepting; on_write = accepting } ∷ []) (pos 5100)
      accepting
    ∷ []

serve-IsServed_example :
    Holds
      (λ q. IsServed small_kernel q × IsWatched small_kernel q)
      (run
        (server_host small_kernel
          (call_watch small_kernel 1000 commands)
          (fire_watch small_kernel 1000 commands))
        woken
        process)
unfolding launch launch_with listen start create_server configure first_failure move_construct
    status_of_call set_nonblocking address_status bytes_eq EventLoop.add_readable
    EventLoop.add_or_modify EventLoop.epoll_ctl_op
serve-IsServed_example =
    serve-IsServed small_kernel 1000 commands system cfg process woken small_kernel-Grants
      (λ j. refl) refl

-- One key, which no save has seen.
abbrev one_key : KevaDatabase
one_key = set (new_database 0) (codes "k") (create_string (codes "v") 0)

one_key-Written :
    Written (new_database 0) one_key (codes "k") (some (create_string (codes "v") 0)) none
one_key-Written =
    set-Written (new_database 0) (new_database-IsDb 0) (codes "k") (create_string (codes "v") 0)

one_value-FitsText : FitsText (codes "k") (create_string (codes "v") 0)
unfolding Object.get_string_value Object.encoding_bits Object.create_string Object.string_from
    Buffer.try_parse_int Buffer.whole from_chars Object.alloc_object Object.with_lru
    Object.with_encoding Object.with_type drop take get_or Buffer.from_view Object.type_code
    Object.encoding_code Object.string_view Object.payload_bytes bytes_eq
one_value-FitsText = (omega arith, omega arith)

one_key-FitsText : (q : Bytes) (o : KevaObject) → live one_key (pos 5001) q ≡ some o → FitsText q o
unfolding alive past
one_key-FitsText q o h =
    let e = Written-live one_key-Written (pos 5001) q in
    elim (Bool-cases (bytes_eq (codes "k") q)) [
      | inl same ↦
          let stored : some (create_string (codes "v") 0) ≡ some o = sym (e ∙ rw same refl) ∙ h in
          let value : create_string (codes "v") 0 ≡ o = cc in
          subst (λ x. FitsText x o) ((bytes_eq_iff (codes "k") q).0 same)
            (subst (FitsText (codes "k")) value one_value-FitsText)
      | inr other ↦
          let gone : none ≡ some o = sym (e ∙ rw (other, empty_keys q, empty_times q) refl) ∙ h in
          absurd (none-ne-some gone)
    ]
  where
    none-ne-some : {x : KevaObject} → none ≡ some x → ⊥
    none-ne-some e = cc

one_key-InI64 : (q : Bytes) (ts : ℤ) → view one_key.expires q ≡ some ts → InI64 ts
one_key-InI64 q ts h = elim (Bool-cases (bytes_eq (codes "k") q)) [
  | inl same ↦ let gone : none ≡ some ts = sym (one_key-Written.times q ∙ rw same refl) ∙ h in cc
  | inr other ↦
      let gone : none ≡ some ts =
        sym (one_key-Written.times q ∙ rw (other, empty_times q) refl) ∙ h in
      cc
]

rdb_load-snapshot_example :
    let r = rdb_load (times 2).clock (snapshot (pos 5001) one_key) (new_database 0) in
    (r.1 ≡ true) × Recovered (pos 5001) one_key (lru_now (times 2).clock) r.0
rdb_load-snapshot_example =
    rdb_load-snapshot (times 2).clock (pos 5001) one_key one_key-Written.valid (ground arith)
      one_key-FitsText one_key-InI64

abbrev changed : Keva small_kernel 1000 commands
changed = record process {
  app = record process.app {
    ctx = record process.app.ctx { databases = one_key ∷ []; dirty_keys = 1 };
  };
}

loaded_app-shut_down_example :
    let end =
      (shut_down small_kernel 1000 commands (times 1).saving_answers (times 1).clock changed).app in
    Recovered
      (pos 5001)
      one_key
      (lru_now (times 2).clock)
      (first_db (loaded_app end.disk (times 2).clock true cfg).ctx.databases)
unfolding start loaded_app init
loaded_app-shut_down_example =
    loaded_app-shut_down small_kernel 1000 commands (times 1).saving_answers (times 1).clock
      (times 2).clock changed cfg refl (omega arith)
      (rdb_save_sync-succeeds small_kernel.strerror (times 1).saving_answers (codes "dump.rdb")
        (pos 5001) one_key changed.app.disk refl refl refl)
      refl one_key-Written.valid (ground arith) one_key-FitsText one_key-InI64
