-- ===== src/Net/TcpServer/Watched.antt =====
-- What epoll watches behind the callbacks of src/net/tcp_server.cpp, with a kernel that grants their
-- requests.
use keva_db.Base.{
  ℕ, refl, inl, inr, Bool, true, false, ◌&&◌, Option, List, [], ◌∷◌, Option-cases, Bool-cases,
  if◌then◌else◌,
}
use keva_db.Base.Assoc.{lookup}
use keva_db.Base.Int.{ℤ, pos, eqb_ℤ, ltb_ℤ}
use keva_db.Common.Status.{Status, ok}
use keva_db.Net.Connection.{
  Connection, is_closed, has_pending_writes, fill_read_buffer, Sent, flush_write_buffer,
}
use keva_db.Net.EventLoop.{Epoll}
use keva_db.Net.EventLoop.Dispatch.{Woken, run}
use keva_db.Net.EventLoop.Dispatch.Keeps.{Holds, run-Holds}
use keva_db.Net.EventLoop.Watching.{
  Grants, AllWatched, add_readable-AllWatched, add_writable-AllWatched, remove-AllWatched,
  remove_writable-AllWatched,
}
use keva_db.Net.TcpServer.{
  Callback, new_connections, client_readable, client_writable, outside, Client, Process, Answers,
  Accepted, accepted_fd, accept_would_block, accept_error, close_connection, accept_client,
  on_new_connection, send_response, handle_request, on_read, readable_client, on_client_readable,
  writable_client, on_client_writable, start,
}
use keva_db.Net.TcpServer.Hosting.{call_back, fire_back, server_host}
use keva_db.Net.TcpServer.Served.{then-Holds}

module _ (os : Epoll) {X A H : Type 0} where
  open os use {Instance}

  abbrev pub IsWatched : Process Instance X A H → Type 0
  IsWatched p = AllWatched os p.loop

module _ (os : Epoll) (grants : Grants os) {X A H : Type 0} where
  open os use {Instance}

  close_connection-IsWatched :
      (fd : ℕ) (p : Process Instance X A H)
      → IsWatched os p
      → IsWatched os (close_connection os fd p)
  unfolding close_connection
  close_connection-IsWatched fd p w = remove-AllWatched os grants fd p.loop w

  closing-IsWatched :
      (over : Bool) (fd : ℕ) (p : Process Instance X A H)
      → IsWatched os p
      → IsWatched os (if over then close_connection os fd p else p)
  closing-IsWatched true fd p w = close_connection-IsWatched fd p w
  closing-IsWatched false fd p w = w

  on_new_connection-IsWatched :
      (rs : List Accepted) (p : Process Instance X A H)
      → IsWatched os p
      → IsWatched os (on_new_connection os rs p)
  unfolding on_new_connection accept_client
  on_new_connection-IsWatched [] p w = w
  on_new_connection-IsWatched (accepted_fd fd ∷ rs) p w =
      on_new_connection-IsWatched rs (accept_client os fd p)
        (add_readable-AllWatched os grants fd client_readable p.loop w)
  on_new_connection-IsWatched (accept_would_block ∷ rs) p w = w
  on_new_connection-IsWatched (accept_error ∷ rs) p w = w

  pub start-IsWatched :
      (created : Status) (fd : ℕ) (p : Process Instance X A H)
      → IsWatched os p
      → IsWatched os (start os created fd p).0
  unfolding start
  start-IsWatched created fd p w = elim (Bool-cases (ok created)) [
    | inl fine ↦ rw fine (add_readable-AllWatched os grants fd new_connections p.loop w)
    | inr failed ↦ rw failed w
  ]

  send_response-IsWatched :
      (fd : ℕ) (writes : List Sent) (client : Client) (p : Process Instance X A H)
      → IsWatched os p
      → IsWatched os (send_response os fd writes client p)
  unfolding send_response
  send_response-IsWatched fd writes client p w =
      let pending = has_pending_writes client.conn in
      let conn' = if pending then (flush_write_buffer writes client.conn).0 else client.conn in
      elim (Bool-cases (pending && has_pending_writes conn')) [
        | inl more ↦ rw more (
            closing-IsWatched (is_closed conn') fd _
              (add_writable-AllWatched os grants fd client_writable p.loop w))
        | inr idle ↦ rw idle (closing-IsWatched (is_closed conn') fd _ w)
      ]

  on_read-IsWatched :
      (fd : ℕ) (i : Answers H) (client : Client) (r : Connection × ℤ) (p : Process Instance X A H)
      → IsWatched os p
      → Holds (IsWatched os) (on_read os fd i client r p)
  unfolding on_read
  on_read-IsWatched fd i client (conn, n) p w =
      let gone = close_connection-IsWatched fd p w in
      elim (Bool-cases (eqb_ℤ n (pos 0))) [
        | inl eof ↦ rw eof gone
        | inr more ↦ rw more (elim (Bool-cases (ltb_ℤ n (pos 0))) [
          | inl failed ↦ rw failed gone
          | inr fine ↦ rw fine (
              then-Holds (IsWatched os) (handle_request p.server.request_handler i.given conn p.app)
                _
                (λ r.
                  send_response-IsWatched fd i.writes (record client { conn = r.0 })
                    (record p { app = r.1 }) w))
        ])
      ]

  on_client_readable-IsWatched :
      (fd : ℕ) (i : Answers H) (p : Process Instance X A H)
      → IsWatched os p
      → Holds (IsWatched os) (on_client_readable os fd i p)
  unfolding on_client_readable readable_client
  on_client_readable-IsWatched fd i p w = elim (Option-cases (lookup fd p.server.clients)) [
    | inl gone ↦ rw gone w
    | inr (c, e) ↦ rw e (on_read-IsWatched fd i c (fill_read_buffer i.reads c.conn) p w)
  ]

  on_client_writable-IsWatched :
      (fd : ℕ) (i : Answers H) (p : Process Instance X A H)
      → IsWatched os p
      → IsWatched os (on_client_writable os fd i p)
  unfolding on_client_writable writable_client
  on_client_writable-IsWatched fd i p w = elim (Option-cases (lookup fd p.server.clients)) [
    | inl gone ↦ rw gone w
    | inr (c, e) ↦
        let conn' = (flush_write_buffer i.writes c.conn).0 in
        elim (Bool-cases (has_pending_writes conn')) [
          | inl more ↦ rw (e, more) (closing-IsWatched (is_closed conn') fd _ w)
          | inr idle ↦
              rw (e, idle)
                (closing-IsWatched (is_closed conn') fd _
                  (remove_writable-AllWatched os grants fd p.loop w))
        ]
  ]

  module _ (call_outside : X → H → ℕ → Process Instance X A H → Option (Process Instance X A H))
      (fire_outside : X → H → Process Instance X A H → Option (Process Instance X A H))
      (call_keeps : (x : X) (given : H) (fd : ℕ) (p : Process Instance X A H)
        → IsWatched os p
        → Holds (IsWatched os) (call_outside x given fd p))
      (fire_keeps : (x : X) (given : H) (p : Process Instance X A H)
        → IsWatched os p
        → Holds (IsWatched os) (fire_outside x given p)) where
    call_back-IsWatched :
        (c : Callback X) (i : Answers H) (fd : ℕ) (p : Process Instance X A H)
        → IsWatched os p
        → Holds (IsWatched os) (call_back os call_outside fire_outside c i fd p)
    call_back-IsWatched new_connections i fd p w = on_new_connection-IsWatched i.accepts p w
    call_back-IsWatched client_readable i fd p w = on_client_readable-IsWatched fd i p w
    call_back-IsWatched client_writable i fd p w = on_client_writable-IsWatched fd i p w
    call_back-IsWatched (outside x) i fd p w = call_keeps x i.given fd p w

    fire_back-IsWatched :
        (c : Callback X) (i : Answers H) (p : Process Instance X A H)
        → IsWatched os p
        → Holds (IsWatched os) (fire_back os call_outside fire_outside c i p)
    fire_back-IsWatched new_connections i p w = w
    fire_back-IsWatched client_readable i p w = w
    fire_back-IsWatched client_writable i p w = w
    fire_back-IsWatched (outside x) i p w = fire_keeps x i.given p w

    -- After any turns of the loop, epoll watches each descriptor for just the callbacks it has.
    pub run-IsWatched :
        (wakes : List (Woken (Answers H))) (p : Process Instance X A H)
        → IsWatched os p
        → Holds (IsWatched os) (run (server_host os call_outside fire_outside) wakes p)
    run-IsWatched wakes p w =
        run-Holds (server_host os call_outside fire_outside) (IsWatched os)
          (record {
            by_call = λ c i fd q t _. call_back-IsWatched c i fd q t;
            by_fire = λ c i q t _. fire_back-IsWatched c i q t;
            by_clock = λ now q t. t;
            same_timer = λ now q. refl;
            by_start = λ q t. t;
          })
          wakes p w
