-- ===== src/Main/Launch/Serving.antt =====
-- The program from its start on: the clients and the callbacks of the loop agree.
use keva_db.Base.{ℕ, ◌≡◌, refl, inl, inr, ◌||◌, Option, none, some, List, ◌==◌, Bool-cases}
use mathlib.Core.Path.{subst}
use keva_db.Base.Assoc.{lookup, assign}
use keva_db.Command.Registry.{Registry}
use keva_db.Common.Status.{ok}
use keva_db.Core.ServerContext.{ServerConfig}
use keva_db.Main.Launch.{Launch, assembled, watch_pipe, listen, launch_with, launch}
use keva_db.Main.Program.{
  Watch, signal_pipe, cron, Given, Keva, sigterm, sigint, sigchld, on_signal,
  on_signal_pipe_readable, call_watch, fire_watch,
}
use keva_db.Net.EventLoop.{Epoll}
use keva_db.Net.EventLoop.Callbacks.{add_readable-handlers}
use keva_db.Net.EventLoop.Watching.{Grants, add_readable-AllWatched}
use keva_db.Net.TcpServer.Watched.{IsWatched, start-IsWatched, run-IsWatched}
use keva_db.Net.EventLoop.Dispatch.{Woken, run}
use keva_db.Net.EventLoop.Dispatch.Keeps.{Holds}
use keva_db.Net.Socket.{create_server}
use keva_db.Net.TcpServer.{outside, Answers, start}
use keva_db.Net.TcpServer.Clients.{IsServed}
use keva_db.Net.TcpServer.Hosting.{server_host}
use keva_db.Net.TcpServer.Lifetime.{start-IsServed, run-IsServed}

module _ (os : Epoll) (reserve_limit : ℕ) (table : Registry) where
  open os use {Instance}

  on_signal-IsServed :
      (signum : ℕ) (given : Given) (p : Keva os reserve_limit table)
      → IsServed os p
      → IsServed os (on_signal os reserve_limit table signum given p)
  unfolding on_signal
  on_signal-IsServed signum given p s = elim (Bool-cases (signum == sigterm || signum == sigint)) [
    | inl ends ↦ rw ends s
    | inr other ↦ elim (Bool-cases (signum == sigchld)) [
      | inl child ↦ rw (other, child) s
      | inr ignored ↦ rw (other, ignored) s
    ]
  ]

  on_pipe-IsServed :
      (byte : Option ℕ) (given : Given) (p : Keva os reserve_limit table)
      → IsServed os p
      → IsServed os (on_signal_pipe_readable os reserve_limit table byte given p)
  unfolding on_signal_pipe_readable
  on_pipe-IsServed none given p s = s
  on_pipe-IsServed (some signum) given p s = on_signal-IsServed signum given p s

  call_watch-IsServed :
      (x : Watch) (given : Given) (fd : ℕ) (p : Keva os reserve_limit table)
      → IsServed os p
      → Holds (IsServed os) (call_watch os reserve_limit table x given fd p)
  call_watch-IsServed signal_pipe given fd p s = on_pipe-IsServed given.signal_byte given p s
  call_watch-IsServed cron given fd p s = s

  fire_watch-IsServed :
      (x : Watch) (given : Given) (p : Keva os reserve_limit table)
      → IsServed os p
      → Holds (IsServed os) (fire_watch os reserve_limit table x given p)
  fire_watch-IsServed signal_pipe given p s = s
  fire_watch-IsServed cron given p s = s

  watched-IsServed :
      (fd : ℕ) (l : Launch Instance) (cfg : ServerConfig)
      → IsServed os (watch_pipe os reserve_limit table fd (assembled os reserve_limit table l cfg))
  unfolding lookup assign
  watched-IsServed fd l cfg j =
      rw
        (add_readable-handlers os fd (outside signal_pipe)
          (assembled os reserve_limit table l cfg).loop)
        (elim (Bool-cases (fd == j)) [
          | inl here ↦ rw here (λ same. cc, refl)
          | inr there ↦ rw there tt
        ])

  listen-IsServed :
      (l : Launch Instance) (cfg : ServerConfig) (p : Keva os reserve_limit table)
      → IsServed os p
      → lookup l.server_answers.socket_fd p.server.clients ≡ none
      → Holds (IsServed os) (listen os reserve_limit table l cfg p)
  unfolding listen
  listen-IsServed l cfg p s unknown =
      let created = (create_server os.strerror cfg.host l.server_answers).0.1 in
      let started = start os created l.server_answers.socket_fd p in
      let served = start-IsServed os created l.server_answers.socket_fd p s unknown in
      elim (Bool-cases (ok started.1)) [ inl fine ↦ rw fine served | inr failed ↦ rw failed tt ]

  launched-IsServed :
      (pipe : Option ℕ) (l : Launch Instance) (cfg : ServerConfig)
      → Holds (IsServed os) (launch_with os reserve_limit table pipe l cfg)
  unfolding launch_with lookup
  launched-IsServed none l cfg = tt
  launched-IsServed (some fd) l cfg = listen-IsServed l cfg _ (watched-IsServed fd l cfg) refl

  on_signal-IsWatched :
      (signum : ℕ) (given : Given) (p : Keva os reserve_limit table)
      → IsWatched os p
      → IsWatched os (on_signal os reserve_limit table signum given p)
  unfolding on_signal
  on_signal-IsWatched signum given p w = elim (Bool-cases (signum == sigterm || signum == sigint)) [
    | inl ends ↦ rw ends w
    | inr other ↦ elim (Bool-cases (signum == sigchld)) [
      | inl child ↦ rw (other, child) w
      | inr ignored ↦ rw (other, ignored) w
    ]
  ]

  on_pipe-IsWatched :
      (byte : Option ℕ) (given : Given) (p : Keva os reserve_limit table)
      → IsWatched os p
      → IsWatched os (on_signal_pipe_readable os reserve_limit table byte given p)
  unfolding on_signal_pipe_readable
  on_pipe-IsWatched none given p w = w
  on_pipe-IsWatched (some signum) given p w = on_signal-IsWatched signum given p w

  call_watch-IsWatched :
      (x : Watch) (given : Given) (fd : ℕ) (p : Keva os reserve_limit table)
      → IsWatched os p
      → Holds (IsWatched os) (call_watch os reserve_limit table x given fd p)
  call_watch-IsWatched signal_pipe given fd p w = on_pipe-IsWatched given.signal_byte given p w
  call_watch-IsWatched cron given fd p w = w

  fire_watch-IsWatched :
      (x : Watch) (given : Given) (p : Keva os reserve_limit table)
      → IsWatched os p
      → Holds (IsWatched os) (fire_watch os reserve_limit table x given p)
  fire_watch-IsWatched signal_pipe given p w = w
  fire_watch-IsWatched cron given p w = w

  listen-IsWatched :
      (grants : Grants os) (l : Launch Instance) (cfg : ServerConfig)
      (p : Keva os reserve_limit table)
      → IsWatched os p
      → Holds (IsWatched os) (listen os reserve_limit table l cfg p)
  unfolding listen
  listen-IsWatched grants l cfg p w =
      let created = (create_server os.strerror cfg.host l.server_answers).0.1 in
      let started = start os created l.server_answers.socket_fd p in
      let watched = start-IsWatched os grants created l.server_answers.socket_fd p w in
      elim (Bool-cases (ok started.1)) [ inl fine ↦ rw fine watched | inr failed ↦ rw failed tt ]

  launched-IsWatched :
      (grants : Grants os) (pipe : Option ℕ) (l : Launch Instance) (cfg : ServerConfig)
      → ((j : ℕ) → os.interest l.kernel j ≡ none)
      → Holds (IsWatched os) (launch_with os reserve_limit table pipe l cfg)
  unfolding launch_with lookup
  launched-IsWatched grants none l cfg fresh = tt
  launched-IsWatched grants (some fd) l cfg fresh = listen-IsWatched grants l cfg _ (
      add_readable-AllWatched os grants fd (outside signal_pipe)
        (assembled os reserve_limit table l cfg).loop fresh)

  both-Holds :
      {W : Type 0} (P Q : W → Type 0) (o : Option W)
      → Holds P o
      → Holds Q o
      → Holds (λ w. P w × Q w) o
  both-Holds P Q none p q = tt
  both-Holds P Q (some w) p q = (p, q)

  -- The whole program, from a start that succeeds on an epoll that watches nothing, and over any
  -- turns of the loop, whatever the events and the answers of the sockets, where epoll_ctl fails
  -- only to add a descriptor that is watched or to change or remove one that is not: every client
  -- is open, has the callback for reading, and that for writing when it has unsent bytes; no other
  -- descriptor has a client's callbacks; and epoll watches each descriptor for just the callbacks
  -- that it has.
  pub serve-IsServed :
      (l : Launch Instance) (cfg : ServerConfig) (p : Keva os reserve_limit table)
      (wakes : List (Woken (Answers Given)))
      → Grants os
      → ((j : ℕ) → os.interest l.kernel j ≡ none)
      → launch os reserve_limit table l cfg ≡ some p
      → Holds
          (λ q. IsServed os q × IsWatched os q)
          (run
            (server_host os (call_watch os reserve_limit table) (fire_watch os reserve_limit table))
            wakes
            p)
  unfolding launch
  serve-IsServed l cfg p wakes grants fresh e =
      let call = call_watch os reserve_limit table in
      let fire = fire_watch os reserve_limit table in
      both-Holds (IsServed os) (IsWatched os) (run (server_host os call fire) wakes p)
        (run-IsServed os call fire call_watch-IsServed fire_watch-IsServed wakes p
          (subst (Holds (IsServed os)) e (launched-IsServed l.pipe_fd l cfg)))
        (run-IsWatched os grants call fire call_watch-IsWatched fire_watch-IsWatched wakes p
          (subst (Holds (IsWatched os)) e (launched-IsWatched grants l.pipe_fd l cfg fresh)))
