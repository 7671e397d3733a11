-- ===== src/Net/TcpServer.antt =====
-- `TcpServer` of src/net/tcp_server.cpp: the accept loop, and what readable and writable clients do.
-- The results of accept4, read and write are arguments, and so is the request handler.
pub mod Hosting
pub mod Served
pub mod Clients
pub mod Lifetime
pub mod Watched
pub mod Requests
use keva_db.Base.{
  ℕ, suc, ◌+◌, ◌%◌, Bool, true, false, not, ◌&&◌, Option, none, some, List, [], ◌∷◌, if◌then◌else◌,
  Bytes, ◌>>=◌,
}
use keva_db.Base.Assoc.{lookup, assign, erase}
use keva_db.Base.Int.{ℤ, pos, eqb_ℤ, ltb_ℤ}
use keva_db.Common.Status.{Status, success, ok}
use keva_db.Net.Connection.{
  Connection, new_connection, is_closed, has_pending_writes, Received, fill_read_buffer, Sent,
  flush_write_buffer,
}
use keva_db.Net.EventLoop.{Epoll, EventLoop, add_readable, add_writable, remove, remove_writable}

-- What the loop calls back: a method of the server, or something that the rest of the program has
-- registered, of the type `X`.
pub data Callback (X : Type 0) : Type 0 where
  new_connections client_readable client_writable : Callback X
  outside : X → Callback X

-- A connection with its id.
pub record Client : Type 0 where
  pub client_id : ℕ
  pub conn : Connection

-- The request handler works on the program's state `A`, given `H` by the system. `none` is an
-- exception that nothing catches.
abbrev pub RequestHandler : Type 0 → Type 0 → Type 0
RequestHandler A H = H → Connection → A → Option (Connection × A)

-- `listen_fd` is the descriptor of the listening socket, once there is one.
pub record TcpServer (A : Type 0) (H : Type 0) : Type 0 where
  pub host : Bytes
  pub port : ℕ
  pub listen_fd : Option ℕ
  pub clients : List (ℕ × Client)
  pub request_handler : Option (RequestHandler A H)
  pub next_client_id : ℕ

-- The server, the loop that it refers to, and the state that the callbacks share.
pub record Process (K : Type 0) (X : Type 0) (A : Type 0) (H : Type 0) : Type 0 where
  pub server : TcpServer A H
  pub loop : EventLoop K (Callback X)
  pub app : A

-- What accept4 returns.
pub data Accepted : Type 0 where
  accepted_fd : ℕ → Accepted
  accept_would_block accept_error : Accepted

-- The answers of the system to one callback: to its calls of accept4, read and write, and to what
-- the request handler asks.
pub record Answers (H : Type 0) : Type 0 where
  pub accepts : List Accepted
  pub reads : List Received
  pub writes : List Sent
  pub given : H

module _ {A H : Type 0} where
  abbrev pub new_server : Bytes → ℕ → TcpServer A H
  new_server host port = record {
    host = host;
    port = port;
    listen_fd = none;
    clients = [];
    request_handler = none;
    next_client_id = 1;
  }

  abbrev pub handle_request :
      Option (RequestHandler A H) → H → Connection → A → Option (Connection × A)
  handle_request none given conn app = some (conn, app)
  handle_request (some handler) given conn app = handler given conn app

  abbrev pub set_request_handler : RequestHandler A H → TcpServer A H → TcpServer A H
  set_request_handler handler server = record server { request_handler = some handler }

-- `clients_.emplace`, which keeps a client that is there already.
abbrev pub emplace_client : Option Client → ℕ → Client → List (ℕ × Client) → List (ℕ × Client)
emplace_client none fd client clients = assign fd client clients
emplace_client (some old) fd client clients = clients

module _ (os : Epoll) {X : Type 0} where
  open os use {Instance}

  unfoldable pub remove_each :
      List (ℕ × Client) → EventLoop Instance (Callback X) → EventLoop Instance (Callback X)
  remove_each [] loop = loop
  remove_each ((fd, client) ∷ clients) loop = remove_each clients (remove os fd loop).0

  -- Removing the descriptor -1 of a socket that was never made changes nothing.
  abbrev pub remove_listen :
      Option ℕ → EventLoop Instance (Callback X) → EventLoop Instance (Callback X)
  remove_listen none loop = loop
  remove_listen (some fd) loop = (remove os fd loop).0

module _ (os : Epoll) {X A H : Type 0} where
  open os use {Instance}

  -- `start`, with what `Socket::create_server` returned: a descriptor, or an error.
  unfoldable pub start : Status → ℕ → Process Instance X A H → Process Instance X A H × Status
  start created fd p =
      let (loop', s) = add_readable os fd new_connections p.loop in
      if ok created
      then (record p { server = record p.server { listen_fd = some fd }; loop = loop' }, s)
      else (p, created)

  abbrev pub with_client : ℕ → Client → Process Instance X A H → Process Instance X A H
  with_client fd client p = record p {
    server = record p.server { clients = assign fd client p.server.clients };
  }

  unfoldable pub close_connection : ℕ → Process Instance X A H → Process Instance X A H
  close_connection fd p = record p {
    server = record p.server { clients = erase fd p.server.clients };
    loop = (remove os fd p.loop).0;
  }

  unfoldable pub stop : Process Instance X A H → Process Instance X A H
  stop p = record p {
    server = record p.server { clients = [] };
    loop = remove_each os p.server.clients (remove_listen os p.server.listen_fd p.loop);
  }

  -- A new client, watched for reading.
  unfoldable pub accept_client : ℕ → Process Instance X A H → Process Instance X A H
  accept_client fd p =
      let client : Client = record { client_id = p.server.next_client_id; conn = new_connection } in
      record p {
        server = record p.server {
          clients = emplace_client (lookup fd p.server.clients) fd client p.server.clients;
          next_client_id = (p.server.next_client_id + 1) % 18446744073709551616;
        };
        loop = (add_readable os fd client_readable p.loop).0;
      }

  -- The accept loop, the calls of accept4 up to the one that ends it.
  unfoldable pub on_new_connection : List Accepted → Process Instance X A H → Process Instance X A H
  on_new_connection [] p = p
  on_new_connection (accepted_fd fd ∷ rs) p = on_new_connection rs (accept_client fd p)
  on_new_connection (accept_would_block ∷ rs) p = p
  on_new_connection (accept_error ∷ rs) p = p

  -- `on_client_readable` behind the request handler: send what there is, and ask for EPOLLOUT when
  -- some of it is left.
  unfoldable pub send_response :
      ℕ → List Sent → Client → Process Instance X A H → Process Instance X A H
  send_response fd writes client p =
      let pending = has_pending_writes client.conn in
      let conn' = if pending then (flush_write_buffer writes client.conn).0 else client.conn in
      let stored = with_client fd (record client { conn = conn' }) p in
      let watched =
        if pending && has_pending_writes conn'
        then record stored { loop = (add_writable os fd client_writable stored.loop).0 }
        else stored in
      if is_closed conn' then close_connection fd watched else watched

  -- From the result of `fill_read_buffer` on.
  unfoldable pub on_read :
      ℕ
      → Answers H
      → Client
      → Connection × ℤ
      → Process Instance X A H
      → Option (Process Instance X A H)
  on_read fd i client (conn, n) p =
      if eqb_ℤ n (pos 0)
      then some (close_connection fd p)
      else if ltb_ℤ n (pos 0)
      then some (close_connection fd p)
      else do
        (conn', app') ← handle_request p.server.request_handler i.given conn p.app
        some (send_response fd i.writes (record client { conn = conn' }) (record p { app = app' }))

  unfoldable pub readable_client :
      Option Client → ℕ → Answers H → Process Instance X A H → Option (Process Instance X A H)
  readable_client none fd i p = some p
  readable_client (some client) fd i p =
      on_read fd i client (fill_read_buffer i.reads client.conn) p

  unfoldable pub on_client_readable :
      ℕ → Answers H → Process Instance X A H → Option (Process Instance X A H)
  on_client_readable fd i p = readable_client (lookup fd p.server.clients) fd i p

  unfoldable pub writable_client :
      Option Client → ℕ → Answers H → Process Instance X A H → Process Instance X A H
  writable_client none fd i p = p
  writable_client (some client) fd i p =
      let conn' = (flush_write_buffer i.writes client.conn).0 in
      let stored = with_client fd (record client { conn = conn' }) p in
      let watched =
        if not (has_pending_writes conn')
        then record stored { loop = (remove_writable os fd stored.loop).0 }
        else stored in
      if is_closed conn' then close_connection fd watched else watched

  unfoldable pub on_client_writable :
      ℕ → Answers H → Process Instance X A H → Process Instance X A H
  on_client_writable fd i p = writable_client (lookup fd p.server.clients) fd i p
