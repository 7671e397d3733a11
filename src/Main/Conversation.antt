-- ===== src/Main/Conversation.antt =====
-- From the bytes that a client sends to the bytes that are left to send it: the server's callback of
-- src/net/tcp_server.cpp with the request handler of src/main.cpp.
use keva_db.Base.{ℕ, ◌≤◌, ◌≡◌, ap, ◌∙◌, false, some, ◌++◌, length, drop, Bytes}
use keva_db.Base.Assoc.{lookup}
use keva_db.Command.Registry.{Registry}
use keva_db.Command.Registry.Pipeline.{run_each, dispatch-pipeline}
use keva_db.Main.Program.{Given, Keva, in_world, app_of, dispatched, handle_connection}
use keva_db.Net.Connection.{read_view, fill_read_buffer}
use keva_db.Net.Connection.Streams.{received, unsent, taken, Honest, fill-read_view}
use keva_db.Net.EventLoop.{Epoll}
use keva_db.Net.TcpServer.{Client, Answers, on_client_readable}
use keva_db.Net.TcpServer.Requests.{is_over, Unsent, on_client_readable-Answered}
use keva_db.Protocol.Encoder.{encode_all}
use keva_db.Protocol.Parser.{parse, incomplete}
use keva_db.Protocol.Parser.RoundTrip.{AllWritable}
use keva_db.Protocol.RespTypes.{RespValues}

module _ (os : Epoll) (reserve_limit : ℕ) (table : Registry) where
  -- A readable client whose unread bytes with those that are read now are whole commands, and an
  -- incomplete one behind them at most: the commands are run in order, their effect on the program
  -- is kept, and of the replies what the calls of `write` did not take is left to send, if the
  -- client still is there. Some bytes are read and no end of the stream, the cursor stands inside
  -- of the buffer, and no call of `write` takes too much.
  pub on_client_readable-pipeline :
      (fd : ℕ) (i : Answers Given) (p : Keva os reserve_limit table) (client : Client)
      (vs : RespValues) (rest : Bytes)
      → lookup fd p.server.clients ≡ some client
      → p.server.request_handler ≡ some (handle_connection reserve_limit table)
      → is_over i.reads ≡ false
      → client.conn.read_pos ≤ length client.conn.read_buf
      → AllWritable reserve_limit vs
      → read_view client.conn ++ received i.reads ≡ encode_all vs ++ rest
      → (parse reserve_limit rest).0 ≡ incomplete
      → Honest i.writes (
          length (
            unsent
              (run_each reserve_limit table i.given.systems vs
                (in_world (fill_read_buffer i.reads client.conn).0 p.app)).conn))
      → let w =
          run_each reserve_limit table i.given.systems vs
            (in_world (fill_read_buffer i.reads client.conn).0 p.app) in
        (q : Keva os reserve_limit table) × (on_client_readable os fd i p ≡ some q)
        × (q.app ≡ app_of w)
        × Unsent
            (lookup fd q.server.clients)
            (drop (taken i.writes (length (unsent w.conn))) (unsent w.conn))
  unfolding handle_connection
  on_client_readable-pipeline fd i p client vs rest there set more inside fit sent stop honest =
      let conn = (fill_read_buffer i.reads client.conn).0 in
      let start = in_world conn p.app in
      let w = run_each reserve_limit table i.given.systems vs start in
      let (ran, _) =
        dispatch-pipeline reserve_limit table i.given.systems start vs rest fit
          (fill-read_view i.reads client.conn inside ∙ sent) stop in
      let (q, e, same, left, _) =
        on_client_readable-Answered os fd i p client (handle_connection reserve_limit table) w.conn
          (app_of w) there more set (ap dispatched ran) honest inside in
      (q, e, same, left)
