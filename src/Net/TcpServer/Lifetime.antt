-- ===== src/Net/TcpServer/Lifetime.antt =====
-- The whole life of the server: its start, any turns of the loop, and its stop.
use keva_db.Base.{
  ℕ, ◌≡◌, refl, ◌∙◌, inl, inr, Option, none, some, List, [], ◌∷◌, Bool-cases, if◌then◌else◌, ◌==◌,
  ◌||◌, is_some, ap,
}
use mathlib.Core.Path.{subst}
use keva_db.Base.Assoc.{lookup, lookup-erase}
use keva_db.Common.Status.{Status, ok}
use keva_db.Net.EventLoop.{Epoll, EventLoop, FdHandlers, remove, or_no_handlers}
use keva_db.Net.EventLoop.Callbacks.{add_readable-handlers, remove-handlers}
use keva_db.Net.EventLoop.Dispatch.{Woken, run}
use keva_db.Net.EventLoop.Dispatch.Keeps.{Holds, run-Holds}
use keva_db.Net.TcpServer.{
  Callback, new_connections, client_readable, client_writable, outside, Client, Process, Answers,
  start, stop, remove_each,
}
use keva_db.Net.TcpServer.Clients.{
  IsServed, on_new_connection-IsServed, on_client_readable-IsServed, on_client_writable-IsServed,
}
use keva_db.Net.TcpServer.Hosting.{call_back, fire_back, server_host}
use keva_db.Net.TcpServer.Served.{Served, handlers-AllServed}

module _ {X : Type 0} where
  -- Whether a descriptor is left after the removal of all clients.
  abbrev left : Option Client → Option (FdHandlers (Callback X)) → Option (FdHandlers (Callback X))
  left none h = h
  left (some client) h = none

  listener-Served :
      (c : Option Client) (h : Option (FdHandlers (Callback X)))
      → c ≡ none
      → Served c h
      → Served c (some (record (or_no_handlers h) { on_readable = some new_connections }))
  listener-Served none none e s = (λ same. cc, refl)
  listener-Served none (some h) e s = (λ same. cc, s.1)
  listener-Served (some client) h e s = cc

  left_none : (c : Option Client) → left c none ≡ none
  left_none none = refl
  left_none (some client) = refl

  left-is_some :
      (c : Option Client) (h : Option (FdHandlers (Callback X)))
      → left c h ≡ (if is_some c then none else h)
  left-is_some none h = refl
  left-is_some (some client) h = refl

  -- What is left at a stop.
  stopped-Served :
      (c : Option Client) (h : Option (FdHandlers (Callback X)))
      → Served c h
      → Served none (left c h)
  stopped-Served none none s = tt
  stopped-Served none (some h) s = s
  stopped-Served (some client) h s = tt

module _ (os : Epoll) {X : Type 0} where
  remove_each-lookup :
      (cs : List (ℕ × Client)) (loop : EventLoop os.Instance (Callback X)) (j : ℕ)
      → lookup j (remove_each os cs loop).handlers ≡ left (lookup j cs) (lookup j loop.handlers)
  unfolding remove_each lookup
  remove_each-lookup [] loop j = refl
  remove_each-lookup ((fd, client) ∷ cs) loop j =
      let ih = remove_each-lookup cs (remove os fd loop).0 j in
      let gone = ap (lookup j) (remove-handlers os fd loop) ∙ lookup-erase fd j loop.handlers in
      let e = ih ∙ ap (left (lookup j cs)) gone in
      elim (Bool-cases (fd == j)) [
        | inl here ↦ rw here (
            subst
              (λ b.
                lookup j (remove_each os cs (remove os fd loop).0).handlers
                ≡ left (lookup j cs) (if b then none else lookup j loop.handlers))
              here e
            ∙ left_none (lookup j cs))
        | inr there ↦ rw there (
            subst
              (λ b.
                lookup j (remove_each os cs (remove os fd loop).0).handlers
                ≡ left (lookup j cs) (if b then none else lookup j loop.handlers))
              there e)
      ]

  -- Behind the removal of the listening socket and of all clients.
  all_removed :
      (listen : ℕ) (loop : EventLoop os.Instance (Callback X)) (cs : List (ℕ × Client)) (j : ℕ)
      → lookup j (remove_each os cs (remove os listen loop).0).handlers
        ≡ (if listen == j then none else left (lookup j cs) (lookup j loop.handlers))
  all_removed listen loop cs j =
      let gone =
        ap (lookup j) (remove-handlers os listen loop) ∙ lookup-erase listen j loop.handlers in
      let e = remove_each-lookup cs (remove os listen loop).0 j ∙ ap (left (lookup j cs)) gone in
      elim (Bool-cases (listen == j)) [
        | inl here ↦ rw here (e ∙ rw here (left_none (lookup j cs)))
        | inr there ↦ rw there (e ∙ rw there refl)
      ]

module _ (os : Epoll) {X A H : Type 0} where
  open os use {Instance}

  -- A stop of a valid server that listens drops every client, takes the callbacks of the clients
  -- and of the listening descriptor out of the loop and no others, and changes nothing else of the
  -- server, which keeps its listening socket, or of the program; the server stays valid.
  pub stop-IsServed :
      (p : Process Instance X A H) (fd : ℕ)
      → IsServed os p
      → p.server.listen_fd ≡ some fd
      → let q = stop os p in
        IsServed os q
        × (q.server ≡ record p.server { clients = [] })
        × (q.app ≡ p.app)
        × ((j : ℕ)
            → lookup j q.loop.handlers ≡ (
                if fd == j || is_some (lookup j p.server.clients)
                then none
                else lookup j p.loop.handlers))
  unfolding stop
  stop-IsServed p fd s e =
      let cs = p.server.clients in
      let hs = p.loop.handlers in
      let at = all_removed os fd p.loop cs in
      (
        λ j.
            rw (e, at j)
              (elim (Bool-cases (fd == j)) [
                | inl here ↦ rw here (unfold lookup in tt)
                | inr there ↦
                    rw there (unfold lookup in stopped-Served (lookup j cs) (lookup j hs) (s j))
              ]),
        refl,
        refl,
        λ j.
            rw (e, at j)
              (elim (Bool-cases (fd == j)) [
                | inl here ↦ rw here refl
                | inr there ↦ rw there (left-is_some (lookup j cs) (lookup j hs))
              ]),
      )

  -- A start of a server on a descriptor of no client keeps the server valid, whatever its result.
  pub start-IsServed :
      (created : Status) (fd : ℕ) (p : Process Instance X A H)
      → IsServed os p
      → lookup fd p.server.clients ≡ none
      → IsServed os (start os created fd p).0
  unfolding start
  start-IsServed created fd p s unknown = elim (Bool-cases (ok created)) [
    | inl fine ↦
        rw (fine, add_readable-handlers os fd new_connections p.loop)
          (handlers-AllServed p.server.clients p.loop.handlers s fd _ (
            listener-Served (lookup fd p.server.clients) (lookup fd p.loop.handlers) unknown
              (s fd)))
    | inr failed ↦ rw failed s
  ]

  module _ (call_outside : X → H → ℕ → Process Instance X A H → Option (Process Instance X A H))
      (fire_outside : X → H → Process Instance X A H → Option (Process Instance X A H))
      (call_keeps : (x : X) (given : H) (fd : ℕ) (p : Process Instance X A H)
        → IsServed os p
        → Holds (IsServed os) (call_outside x given fd p))
      (fire_keeps : (x : X) (given : H) (p : Process Instance X A H)
        → IsServed os p
        → Holds (IsServed os) (fire_outside x given p)) where
    call_back-IsServed :
        (c : Callback X) (i : Answers H) (fd : ℕ) (p : Process Instance X A H)
        → IsServed os p
        → Holds (IsServed os) (call_back os call_outside fire_outside c i fd p)
    call_back-IsServed new_connections i fd p s = on_new_connection-IsServed os i.accepts p s
    call_back-IsServed client_readable i fd p s = on_client_readable-IsServed os fd i p s
    call_back-IsServed client_writable i fd p s = on_client_writable-IsServed os fd i p s
    call_back-IsServed (outside x) i fd p s = call_keeps x i.given fd p s

    fire_back-IsServed :
        (c : Callback X) (i : Answers H) (p : Process Instance X A H)
        → IsServed os p
        → Holds (IsServed os) (fire_back os call_outside fire_outside c i p)
    fire_back-IsServed new_connections i p s = s
    fire_back-IsServed client_readable i p s = s
    fire_back-IsServed client_writable i p s = s
    fire_back-IsServed (outside x) i p s = fire_keeps x i.given p s

    -- After any turns of the loop, whatever the events and the answers of the system: every client
    -- is open, is watched for reading, and waits for room to write when it has unsent bytes; and no
    -- other descriptor has a client's callbacks. The callbacks of the rest of the program keep this
    -- by hypothesis, as it holds at the start.
    pub run-IsServed :
        (wakes : List (Woken (Answers H))) (p : Process Instance X A H)
        → IsServed os p
        → Holds (IsServed os) (run (server_host os call_outside fire_outside) wakes p)
    run-IsServed wakes p s =
        run-Holds (server_host os call_outside fire_outside) (IsServed os)
          (record {
            by_call = λ c i fd q t _. call_back-IsServed c i fd q t;
            by_fire = λ c i q t _. fire_back-IsServed c i q t;
            by_clock = λ now q t. t;
            same_timer = λ now q. refl;
            by_start = λ q t. t;
          })
          wakes p s
