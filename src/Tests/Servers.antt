-- ===== src/Tests/Servers.antt =====
-- The server of src/net/tcp_server.cpp with one client that pings, and its listening socket.
use keva_db.Base.{
  if◌then◌else◌, ◌==◌, ◌||◌, is_some, ℕ, ◌+◌, ◌≡◌, refl, true, Option, none, some, List, [], ◌∷◌,
  codes,
}
use keva_db.Base.Assoc.{lookup, assign}
use keva_db.Base.Int.{pos}
use keva_db.Common.Status.{success}
use keva_db.Net.Connection.{
  new_connection, append_response, bytes_read, end_of_stream, would_block, bytes_sent,
  write_would_block,
}
use keva_db.Net.Connection.Streams.{received}
use keva_db.Net.EventLoop.{new_event_loop}
use keva_db.Net.EventLoop.Dispatch.{Woken, ready}
use keva_db.Net.Socket.{ServerAnswers, create_server}
use keva_db.Net.Socket.Outcome.{ServerOutcome, create_server-ServerOutcome}
use keva_db.Net.TcpServer
use keva_db.Net.TcpServer.{
  Callback, Client, Process, Answers, RequestHandler, accepted_fd, accept_would_block, new_server,
  set_request_handler, start, accept_client, on_new_connection, on_client_readable,
}
use keva_db.Net.TcpServer.Clients.{IsServed, on_new_connection-IsServed}
use keva_db.Net.TcpServer.Lifetime.{start-IsServed, stop-IsServed}
use keva_db.Net.TcpServer.Requests.{Disconnected, on_client_readable-Disconnected}
use keva_db.Tests.Loops.{small_kernel, nothing_watched}

-- The port is taken.
abbrev pub taken_port : ServerAnswers
taken_port = record {
  socket_fd = 3;
  socket_error = none;
  reuseaddr_error = none;
  nodelay_error = none;
  getfl_error = none;
  setfl_error = none;
  address_is_valid = true;
  bind_error = some 98;
  listen_error = none;
}

create_server-ServerOutcome_example :
    ServerOutcome
      (λ e. codes "in use")
      (codes "0.0.0.0")
      taken_port
      (create_server (λ e. codes "in use") (codes "0.0.0.0") taken_port)
create_server-ServerOutcome_example =
    create_server-ServerOutcome (λ e. codes "in use") (codes "0.0.0.0") taken_port

-- The program counts the requests.
abbrev Server : Type 0
Server = Process (ℕ → Option ℕ) ℕ ℕ ℕ

abbrev pong : RequestHandler ℕ ℕ
pong given conn n = some (append_response conn (codes "+PONG\r\n"), n + 1)

abbrev fresh : Server
fresh = record {
  server = set_request_handler pong (new_server (codes "0.0.0.0") 6379);
  loop = new_event_loop nothing_watched;
  app = 0;
}

fresh-IsServed : IsServed small_kernel fresh
unfolding lookup
fresh-IsServed j = tt

abbrev listening : Server
listening = (start small_kernel success 3 fresh).0

listening-IsServed : IsServed small_kernel listening
unfolding lookup
listening-IsServed = start-IsServed small_kernel success 3 fresh fresh-IsServed refl

abbrev serving : Server
serving = on_new_connection small_kernel (accepted_fd 9 ∷ accept_would_block ∷ []) listening

serving-IsServed : IsServed small_kernel serving
serving-IsServed =
    on_new_connection-IsServed small_kernel (accepted_fd 9 ∷ accept_would_block ∷ []) listening
      listening-IsServed

stop-IsServed_example :
    let q = TcpServer.stop small_kernel serving in
    IsServed small_kernel q
    × (q.server ≡ record serving.server { clients = [] })
    × (q.app ≡ serving.app)
    × ((j : ℕ)
        → lookup j q.loop.handlers ≡ (
            if 3 == j || is_some (lookup j serving.server.clients)
            then none
            else lookup j serving.loop.handlers))
unfolding start on_new_connection accept_client
stop-IsServed_example = stop-IsServed small_kernel serving 3 serving-IsServed refl

abbrev client : Client
client = record { client_id = 1; conn = new_connection }

abbrev asked : Answers ℕ
asked = record {
  accepts = [];
  reads = bytes_read (codes "PING\r\n") ∷ would_block ∷ [];
  writes = bytes_sent 2 ∷ write_would_block ∷ [];
  given = 0;
}

abbrev left : Answers ℕ
left = record asked { reads = bytes_read (codes "PING\r\n") ∷ end_of_stream ∷ [] }

on_client_readable-Disconnected_example :
    (q : Server) × (on_client_readable small_kernel 9 left serving ≡ some q)
    × Disconnected small_kernel 9 serving q
unfolding start on_new_connection accept_client lookup assign received
on_client_readable-Disconnected_example =
    on_client_readable-Disconnected small_kernel 9 left serving client refl refl

abbrev woken : List (Woken (Answers ℕ))
woken =
    ready (record { fd = 9; evmask = 1; on_read = asked; on_write = asked } ∷ []) (pos 1000) asked
    ∷ []
