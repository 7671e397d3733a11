-- ===== src/Net/TcpServer/Hosting.antt =====
-- The server's callbacks in the event loop: the lambdas that src/net/tcp_server.cpp registers. What
-- the rest of the program registers is a parameter.
use keva_db.Base.{ℕ, Option, some}
use keva_db.Net.EventLoop.{Epoll}
use keva_db.Net.EventLoop.Dispatch.{Host}
use keva_db.Net.TcpServer.{
  Callback, new_connections, client_readable, client_writable, outside, Process, Answers,
  on_new_connection, on_client_readable, on_client_writable,
}

module _ (os : Epoll) {X A H : Type 0}
    (call_outside : X → H → ℕ → Process os.Instance X A H → Option (Process os.Instance X A H))
    (fire_outside : X → H → Process os.Instance X A H → Option (Process os.Instance X A H)) where
  abbrev pub call_back :
      Callback X → Answers H → ℕ → Process os.Instance X A H → Option (Process os.Instance X A H)
  call_back new_connections i fd p = some (on_new_connection os i.accepts p)
  call_back client_readable i fd p = on_client_readable os fd i p
  call_back client_writable i fd p = some (on_client_writable os fd i p)
  call_back (outside x) i fd p = call_outside x i.given fd p

  -- The server sets no timer itself.
  abbrev pub fire_back :
      Callback X → Answers H → Process os.Instance X A H → Option (Process os.Instance X A H)
  fire_back (outside x) i p = fire_outside x i.given p
  fire_back new_connections i p = some p
  fire_back client_readable i p = some p
  fire_back client_writable i p = some p

  -- The loop runs in the process.
  abbrev pub server_host : Host os.Instance (Callback X) (Answers H) (Process os.Instance X A H)
  server_host = record {
    loop_of = λ p. p.loop;
    with_loop = λ loop p. record p { loop = loop };
    call = call_back;
    fire = fire_back;
  }
