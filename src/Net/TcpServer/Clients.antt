-- ===== src/Net/TcpServer/Clients.antt =====
-- The clients of the server and the callbacks of the loop agree, after every event.
use keva_db.Base.{
  ℕ, ◌≡◌, refl, ap, inl, inr, Bool, true, false, ◌&&◌, none, some, List, [], ◌∷◌, Option-cases,
  Bool-cases, if◌then◌else◌, is_some,
}
use mathlib.Core.Path.{subst}
use keva_db.Base.Assoc.{lookup}
use keva_db.Base.Int.{ℤ, pos, eqb_ℤ, ltb_ℤ}
use keva_db.Net.Connection.{
  Connection, is_closed, has_pending_writes, fill_read_buffer, Sent, flush_write_buffer,
}
use keva_db.Net.EventLoop.{Epoll}
use keva_db.Net.EventLoop.Callbacks.{
  add_readable-handlers, add_writable-handlers, remove-handlers, remove_writable-handlers,
}
use keva_db.Net.EventLoop.Dispatch.Keeps.{Holds}
use keva_db.Net.Connection.Streams.{flush-idle}
use keva_db.Net.TcpServer.{
  client_readable, client_writable, Client, Process, Answers, Accepted, accepted_fd,
  accept_would_block, accept_error, close_connection, accept_client, on_new_connection,
  send_response, handle_request, on_read, readable_client, on_client_readable, writable_client,
  on_client_writable,
}
use keva_db.Net.TcpServer.Served.{
  then-Holds, Served, AllServed, OthersServed, erase-OthersServed, assign-OthersServed,
  handlers-OthersServed, newcomer-Served, known-Served, waiting-Served, drained-Served,
  still-Served, callbacks_of, idle_after, newcomer, erase-AllServed, assign-AllServed,
  client-AllServed, handlers-AllServed,
}

module _ (os : Epoll) {X A H : Type 0} where
  open os use {Instance}

  abbrev pub IsServed : Process Instance X A H → Type 0
  IsServed p = AllServed p.server.clients p.loop.handlers

  pub close_connection-IsServed :
      (fd : ℕ) (p : Process Instance X A H) → IsServed p → IsServed (close_connection os fd p)
  unfolding close_connection
  close_connection-IsServed fd p s =
      rw (remove-handlers os fd p.loop) (erase-AllServed p.server.clients p.loop.handlers s fd)

  accept_client-IsServed :
      (fd : ℕ) (p : Process Instance X A H) → IsServed p → IsServed (accept_client os fd p)
  unfolding accept_client has_pending_writes
  accept_client-IsServed fd p s =
      let cs = p.server.clients in
      let hs = p.loop.handlers in
      let after = add_readable-handlers os fd client_readable p.loop in
      elim (Option-cases (lookup fd cs)) [
        | inl unknown ↦
            rw (unknown, after)
              (assign-AllServed cs hs s fd _ _ (
                newcomer-Served (newcomer p.server.next_client_id) (lookup fd hs) refl refl
                  (subst (λ c. Served c (lookup fd hs)) unknown (s fd))))
        | inr (old, e) ↦
            rw (e, after)
              (handlers-AllServed cs hs s fd _ (
                rw e (
                  known-Served old (lookup fd hs) (subst (λ c. Served c (lookup fd hs)) e (s fd)))))
      ]

  pub on_new_connection-IsServed :
      (rs : List Accepted) (p : Process Instance X A H)
      → IsServed p
      → IsServed (on_new_connection os rs p)
  unfolding on_new_connection
  on_new_connection-IsServed [] p s = s
  on_new_connection-IsServed (accepted_fd fd ∷ rs) p s =
      on_new_connection-IsServed rs (accept_client os fd p) (accept_client-IsServed fd p s)
  on_new_connection-IsServed (accept_would_block ∷ rs) p s = s
  on_new_connection-IsServed (accept_error ∷ rs) p s = s

  -- The end of an event: a closed connection is dropped.
  closing-IsServed :
      (over : Bool) (fd : ℕ) (p : Process Instance X A H)
      → OthersServed fd p.server.clients p.loop.handlers
      → (over ≡ false → IsServed p)
      → IsServed (if over then close_connection os fd p else p)
  unfolding close_connection
  closing-IsServed true fd p others s =
      rw (remove-handlers os fd p.loop)
        (erase-OthersServed fd p.server.clients p.loop.handlers others)
  closing-IsServed false fd p others s = s refl

  send_response-IsServed :
      (fd : ℕ) (writes : List Sent) (client old : Client) (p : Process Instance X A H)
      → lookup fd p.server.clients ≡ some old
      → IsServed p
      → IsServed (send_response os fd writes client p)
  unfolding send_response
  send_response-IsServed fd writes client old p e s =
      let cs = p.server.clients in
      let hs = p.loop.handlers in
      let here = subst (λ c. Served c (lookup fd hs)) e (s fd) in
      let pending = has_pending_writes client.conn in
      let conn' = if pending then (flush_write_buffer writes client.conn).0 else client.conn in
      let client' = record client { conn = conn' } in
      elim (Bool-cases (pending && has_pending_writes conn')) [
        | inl more ↦ rw more (
            closing-IsServed (is_closed conn') fd _
              (rw (add_writable-handlers os fd client_writable p.loop)
                (handlers-OthersServed fd _ _ hs (assign-OthersServed fd client' cs hs λ j _. s j)))
              (λ alive. rw (add_writable-handlers os fd client_writable p.loop) (
                assign-AllServed cs hs s fd client' _
                  (waiting-Served client' old (lookup fd hs) alive here))))
        | inr idle ↦
            let nothing : has_pending_writes conn' ≡ false = idle_after writes client.conn idle in
            rw idle (
              closing-IsServed (is_closed conn') fd _
                (assign-OthersServed fd client' cs hs λ j _. s j)
                (λ alive.
                  client-AllServed cs hs s fd client'
                    (drained-Served client' old (lookup fd hs) alive nothing here)))
      ]

  on_read-IsServed :
      (fd : ℕ) (i : Answers H) (client old : Client) (r : Connection × ℤ)
      (p : Process Instance X A H)
      → lookup fd p.server.clients ≡ some old
      → IsServed p
      → Holds IsServed (on_read os fd i client r p)
  unfolding on_read
  on_read-IsServed fd i client old (conn, n) p e s =
      let gone = close_connection-IsServed fd p s in
      elim (Bool-cases (eqb_ℤ n (pos 0))) [
        | inl eof ↦ rw eof gone
        | inr more ↦ rw more (elim (Bool-cases (ltb_ℤ n (pos 0))) [
          | inl failed ↦ rw failed gone
          | inr fine ↦ rw fine (
              then-Holds IsServed (handle_request p.server.request_handler i.given conn p.app) _
                (λ r.
                  send_response-IsServed fd i.writes (record client { conn = r.0 }) old
                    (record p { app = r.1 }) e s))
        ])
      ]

  pub on_client_readable-IsServed :
      (fd : ℕ) (i : Answers H) (p : Process Instance X A H)
      → IsServed p
      → Holds IsServed (on_client_readable os fd i p)
  unfolding on_client_readable readable_client
  on_client_readable-IsServed fd i p s = elim (Option-cases (lookup fd p.server.clients)) [
    | inl gone ↦ rw gone s
    | inr (c, e) ↦ rw e (on_read-IsServed fd i c c (fill_read_buffer i.reads c.conn) p e s)
  ]

  writable_client-IsServed :
      (fd : ℕ) (i : Answers H) (client : Client) (p : Process Instance X A H)
      → lookup fd p.server.clients ≡ some client
      → IsServed p
      → IsServed (writable_client os (some client) fd i p)
  unfolding writable_client
  writable_client-IsServed fd i client p e s =
      let cs = p.server.clients in
      let hs = p.loop.handlers in
      let here = subst (λ c. Served c (lookup fd hs)) e (s fd) in
      let conn' = (flush_write_buffer i.writes client.conn).0 in
      let client' = record client { conn = conn' } in
      let others = assign-OthersServed fd client' cs hs λ j _. s j in
      elim (Bool-cases (has_pending_writes conn')) [
        | inl more ↦ rw more (
            closing-IsServed (is_closed conn') fd _ others (λ alive.
              client-AllServed cs hs s fd client' (
                still-Served client' client (lookup fd hs) alive
                  (λ idle. flush-idle i.writes client.conn idle) here)))
        | inr idle ↦
            let (h, at, reads) = callbacks_of client (lookup fd hs) (lookup fd hs) refl here in
            let after = remove_writable-handlers os fd h p.loop at (ap is_some reads) in
            let h' = record h { on_writable = none } in
            rw idle (
              closing-IsServed (is_closed conn') fd _
                (rw after (handlers-OthersServed fd h' _ hs others))
                (λ alive.
                  rw after
                    (assign-AllServed cs hs s fd client' h' (reads, inl refl, λ more. cc, alive))))
      ]

  pub on_client_writable-IsServed :
      (fd : ℕ) (i : Answers H) (p : Process Instance X A H)
      → IsServed p
      → IsServed (on_client_writable os fd i p)
  unfolding on_client_writable writable_client
  on_client_writable-IsServed fd i p s = elim (Option-cases (lookup fd p.server.clients)) [
    | inl gone ↦ rw gone s
    | inr (c, e) ↦ rw e (unfold writable_client in writable_client-IsServed fd i c p e s)
  ]
