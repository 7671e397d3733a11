-- ===== src/Net/TcpServer/Requests.antt =====
-- What a readable client gets: a disconnection, or an answer.
use keva_db.Base.{
  ℕ, ◌+◌, ◌≤◌, ◌≡◌, ◌≢◌, refl, sym, ap, ◌∙◌, inl, inr, Bool, true, false, ◌&&◌, ◌||◌, Option, none,
  some, List, [], ◌∷◌, ◌++◌, arith, Bool-cases, if◌then◌else◌, ◌==◌, length, length-append, drop,
  drop_nil, Bytes,
}
use keva_db.Base.Assoc.{lookup, assign, erase, lookup-assign, lookup-erase}
use keva_db.Base.Int.{ℤ, pos, eqb_ℤ, ltb_ℤ, leb_ℤ}
use keva_db.Net.Connection.{
  Connection, is_closed, has_pending_writes, read_view, Received, bytes_read, end_of_stream,
  would_block, io_error, drain, fill_read_buffer, Sent, flush_write_buffer,
}
use keva_db.Net.Connection.Streams.{
  received, unsent, taken, Honest, fill-read_view, flush-unsent, drop-past,
}
use keva_db.Net.EventLoop.Interest.{ctl-other}
use keva_db.Net.EventLoop.{ctl_del, remove, Epoll}
use keva_db.Net.EventLoop.Callbacks.{remove-handlers}
use keva_db.Net.TcpServer.{
  Client, Process, Answers, RequestHandler, close_connection, send_response, handle_request,
  on_read, readable_client, on_client_readable,
}

-- The calls of `read` end at the end of the stream or with an error.
abbrev pub is_ended : List Received → Bool
is_ended [] = false
is_ended (bytes_read bs ∷ rs) = is_ended rs
is_ended (end_of_stream ∷ rs) = true
is_ended (would_block ∷ rs) = false
is_ended (io_error ∷ rs) = true

drain-ended :
    (rs : List Received) (c : Connection) (total : ℕ)
    → is_ended rs ≡ true
    → leb_ℤ (drain rs c total).1 (pos 0) ≡ true
unfolding drain
drain-ended [] c total e = cc
drain-ended (bytes_read bs ∷ rs) c total e = drain-ended rs _ (total + length bs) e
drain-ended (end_of_stream ∷ rs) c total e = refl
drain-ended (would_block ∷ rs) c total e = cc
drain-ended (io_error ∷ rs) c total e = refl

drain-total :
    (rs : List Received) (c : Connection) (total : ℕ)
    → is_ended rs ≡ false
    → (drain rs c total).1 ≡ pos (total + length (received rs))
unfolding drain received
drain-total [] c total e = ground arith
drain-total (bytes_read bs ∷ rs) c total e =
    drain-total rs _ (total + length bs) e ∙ ap pos (omega (arith, length-append bs (received rs)))
drain-total (end_of_stream ∷ rs) c total e = cc
drain-total (would_block ∷ rs) c total e = ground arith
drain-total (io_error ∷ rs) c total e = cc

-- Nothing to answer: no byte came, or the stream ended.
abbrev pub is_over : List Received → Bool
is_over rs = is_ended rs || (length (received rs) == 0)

fill-over :
    (rs : List Received) (c : Connection) → leb_ℤ (fill_read_buffer rs c).1 (pos 0) ≡ is_over rs
unfolding fill_read_buffer
fill-over rs c = elim (Bool-cases (is_ended rs)) [
  | inl e ↦ rw e (drain-ended rs _ 0 e)
  | inr e ↦ rw (e, drain-total rs _ 0 e) (ground arith)
]

-- What a client has unsent, where it is still there.
abbrev pub Unsent : Option Client → Bytes → Type 0
Unsent none s = Unit
Unsent (some client) s = unsent client.conn ≡ s

-- A response that is sent only where there is something to send.
response-unsent :
    (writes : List Sent) (c : Connection)
    → Honest writes (length (unsent c))
    → unsent (if has_pending_writes c then (flush_write_buffer writes c).0 else c)
      ≡ drop (taken writes (length (unsent c))) (unsent c)
response-unsent writes c honest = elim (Bool-cases (has_pending_writes c)) [
  | inl more ↦ rw more (flush-unsent writes c honest)
  | inr idle ↦
      let e : unsent c ≡ [] =
        unfold has_pending_writes in drop-past c.write_pos c.write_buf (ground arith) in
      rw idle (e ∙ sym (ap (λ s. drop (taken writes (length s)) s) e ∙ drop_nil (taken writes 0)))
]

module _ (os : Epoll) {X A H : Type 0} where
  open os use {Instance}

  on_read-over :
      (fd : ℕ) (i : Answers H) (client : Client) (conn : Connection) (n : ℤ)
      (p : Process Instance X A H)
      → leb_ℤ n (pos 0) ≡ true
      → on_read os fd i client (conn, n) p ≡ some (close_connection os fd p)
  unfolding on_read
  on_read-over fd i client conn n p e = elim (Bool-cases (eqb_ℤ n (pos 0))) [
    | inl eof ↦ rw eof refl
    | inr more ↦ let failed : ltb_ℤ n (pos 0) ≡ true = ground arith in rw (more, failed) refl
  ]

  on_read-more :
      (fd : ℕ) (i : Answers H) (client : Client) (conn : Connection) (n : ℤ)
      (p : Process Instance X A H) (conn' : Connection) (app' : A)
      → leb_ℤ n (pos 0) ≡ false
      → handle_request p.server.request_handler i.given conn p.app ≡ some (conn', app')
      → on_read os fd i client (conn, n) p
        ≡ some (
            send_response os fd i.writes (record client { conn = conn' }) (record p { app = app' }))
  unfolding on_read
  on_read-more fd i client conn n p conn' app' e handled =
      let some_bytes : eqb_ℤ n (pos 0) ≡ false = ground arith in
      let fine : ltb_ℤ n (pos 0) ≡ false = ground arith in rw (some_bytes, fine, handled) refl

  -- A client that is gone: no callbacks, and all that the server, the loop and epoll hold for others
  -- as it was, like the rest of the program.
  pub record Disconnected (fd : ℕ) (p q : Process Instance X A H) : Type 0 where
    pub gone : lookup fd q.server.clients ≡ none
    pub unwatched : lookup fd q.loop.handlers ≡ none
    pub others :
        (j : ℕ)
        → fd ≢ j
        → (lookup j q.server.clients ≡ lookup j p.server.clients)
          × (lookup j q.loop.handlers ≡ lookup j p.loop.handlers)
    pub same_interest : (j : ℕ) → fd ≢ j → os.interest q.loop.epoll j ≡ os.interest p.loop.epoll j
    pub same_server : q.server ≡ record p.server { clients = q.server.clients }
    pub same_loop : q.loop ≡ record p.loop { epoll = q.loop.epoll; handlers = q.loop.handlers }
    pub same_app : q.app ≡ p.app

  close_connection-Disconnected :
      (fd : ℕ) (p : Process Instance X A H) → Disconnected fd p (close_connection os fd p)
  unfolding close_connection
  close_connection-Disconnected fd p =
      let hs = remove-handlers os fd p.loop in
      record {
        gone = ground (arith, lookup-erase fd fd p.server.clients);
        unwatched = rw hs (ground (arith, lookup-erase fd fd p.loop.handlers));
        others = λ j ne. (
          ground (arith, lookup-erase fd j p.server.clients),
          rw hs (ground (arith, lookup-erase fd j p.loop.handlers)),
        );
        same_interest = λ j ne. unfold remove in ctl-other os ctl_del fd 0 p.loop.epoll j ne;
        same_server = refl;
        same_loop = unfold remove in refl;
        same_app = refl;
      }

  -- A readable client whose reads end with the end of the stream or an error, or give no byte, is
  -- disconnected: the request handler is not called, for whatever was read and was unread before,
  -- the client and its callbacks are gone, and the other clients, their callbacks, what epoll
  -- watches other descriptors for, and the rest of the server, of the loop and of the program are
  -- as before.
  pub on_client_readable-Disconnected :
      (fd : ℕ) (i : Answers H) (p : Process Instance X A H) (client : Client)
      → lookup fd p.server.clients ≡ some client
      → is_over i.reads ≡ true
      → (q : Process Instance X A H) × (on_client_readable os fd i p ≡ some q) × Disconnected fd p q
  unfolding on_client_readable readable_client
  on_client_readable-Disconnected fd i p client e over =
      let r = fill_read_buffer i.reads client.conn in
      (
        close_connection os fd p,
        rw e (on_read-over fd i client r.0 r.1 p (fill-over i.reads client.conn ∙ over)),
        close_connection-Disconnected fd p,
      )

  -- What a client has unsent behind the response: what the calls of `write` did not take.
  send_response-Unsent :
      (fd : ℕ) (writes : List Sent) (client : Client) (p : Process Instance X A H)
      → Honest writes (length (unsent client.conn))
      → let left = unsent client.conn in
        let q = send_response os fd writes client p in
        Unsent (lookup fd q.server.clients) (drop (taken writes (length left)) left)
        × (q.app ≡ p.app)
  unfolding send_response close_connection
  send_response-Unsent fd writes client p honest =
      let pending = has_pending_writes client.conn in
      let conn' = if pending then (flush_write_buffer writes client.conn).0 else client.conn in
      let client' = record client { conn = conn' } in
      let same : (fd == fd) ≡ true = ground arith in
      let at : lookup fd (assign fd client' p.server.clients) ≡ some client' =
        lookup-assign fd fd client' p.server.clients ∙ rw same refl in
      let gone : lookup fd (erase fd (assign fd client' p.server.clients)) ≡ none =
        lookup-erase fd fd (assign fd client' p.server.clients) ∙ rw same refl in
      let sent = response-unsent writes client.conn honest in
      elim (Bool-cases (is_closed conn')) [
        | inl over ↦ elim (Bool-cases (pending && has_pending_writes conn')) [
          | inl more ↦ rw (over, more, gone) (tt, refl)
          | inr idle ↦ rw (over, idle, gone) (tt, refl)
        ]
        | inr alive ↦ elim (Bool-cases (pending && has_pending_writes conn')) [
          | inl more ↦ rw (alive, more, at) (sent, refl)
          | inr idle ↦ rw (alive, idle, at) (sent, refl)
        ]
      ]

  -- A readable client that some bytes came from, and no end of the stream: the request handler gets
  -- the bytes that were unread with those behind them, its effect on the program is kept, and of
  -- its response what the calls of `write` did not take is left to send, if the client still is
  -- there. The cursor stands inside of the buffer, and no call of `write` takes too much.
  pub on_client_readable-Answered :
      (fd : ℕ) (i : Answers H) (p : Process Instance X A H) (client : Client)
      (handler : RequestHandler A H) (conn' : Connection) (app' : A)
      → lookup fd p.server.clients ≡ some client
      → is_over i.reads ≡ false
      → p.server.request_handler ≡ some handler
      → handler i.given (fill_read_buffer i.reads client.conn).0 p.app ≡ some (conn', app')
      → Honest i.writes (length (unsent conn'))
      → client.conn.read_pos ≤ length client.conn.read_buf
      → (q : Process Instance X A H) × (on_client_readable os fd i p ≡ some q)
        × (q.app ≡ app')
        × Unsent
            (lookup fd q.server.clients)
            (drop (taken i.writes (length (unsent conn'))) (unsent conn'))
        × (read_view (fill_read_buffer i.reads client.conn).0
            ≡ read_view client.conn ++ received i.reads)
  unfolding on_client_readable readable_client
  on_client_readable-Answered fd i p client handler conn' app' e more set handled honest inside =
      let r = fill_read_buffer i.reads client.conn in
      let (left, same) =
        send_response-Unsent fd i.writes (record client { conn = conn' }) (record p { app = app' })
          honest in
      (
        send_response os fd i.writes (record client { conn = conn' }) (record p { app = app' }),
        rw e (
            on_read-more fd i client r.0 r.1 p conn' app' (fill-over i.reads client.conn ∙ more)
              (rw set handled)),
        same,
        left,
        fill-read_view i.reads client.conn inside,
      )
