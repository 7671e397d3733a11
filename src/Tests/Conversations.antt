-- ===== src/Tests/Conversations.antt =====
-- A client of src/net/tcp_server.cpp that sends two commands and a part of a third.
use keva_db.Base.{◌≡◌, refl, none, some, [], ◌∷◌, ◌++◌, arith, drop, length, take}
use keva_db.Base.Assoc.{lookup, assign}
use keva_db.Base.Decimal.{from_chars, to_chars}
use keva_db.Command.Registry.Pipeline.{run_each}
use keva_db.Command.World.{World}
use keva_db.Main.Conversation.{on_client_readable-pipeline}
use keva_db.Main.Program.{Given, Keva, in_world, app_of}
use keva_db.Net.Connection.{new_connection, read_view, fill_read_buffer, bytes_read, would_block}
use keva_db.Net.Connection.Streams.{received, unsent, taken, Honest}
use keva_db.Net.TcpServer.{
  Client, Answers, accepted_fd, start, accept_client, on_new_connection, on_client_readable,
}
use keva_db.Net.TcpServer.Requests.{Unsent}
use keva_db.Protocol.Encoder.{encode_all, array_header, write_integer_line}
use keva_db.Protocol.Encoder
use keva_db.Protocol.Parser
use keva_db.Protocol.Parser.{
  parse, incomplete, parse_prefix, parse_array, parse_length, length_line, parse_line, find_crlf,
}
use keva_db.Protocol.Parser.RoundTrip.{Writable}
use keva_db.Protocol.RespTypes.{count_values}
use keva_db.Tests.Loops.{small_kernel}
use keva_db.Tests.Pipelines.{commands, times, both, cut}
use keva_db.Tests.Programs.{process}

abbrev serving : Keva small_kernel 1000 commands
serving = on_new_connection small_kernel (accepted_fd 9 ∷ []) process

abbrev client : Client
client = record { client_id = 1; conn = new_connection }

abbrev asked : Answers Given
asked = record {
  accepts = [];
  reads = bytes_read (encode_all both ++ cut) ∷ would_block ∷ [];
  writes = [];
  given = record { systems = times; signal_byte = none; draws = λ i n. (0, n) };
}

abbrev ran : World
ran =
    run_each 1000 commands times both
      (in_world (fill_read_buffer asked.reads new_connection).0 serving.app)

on_client_readable-pipeline_example :
    (q : Keva small_kernel 1000 commands) × (on_client_readable small_kernel 9 asked serving
      ≡ some q)
    × (q.app ≡ app_of ran)
    × Unsent
        (lookup 9 q.server.clients)
        (drop (taken [] (length (unsent ran.conn))) (unsent ran.conn))
unfolding start on_new_connection accept_client lookup assign received read_view drop Honest parse
    Parser.parse_value parse_prefix parse_array parse_length length_line parse_line find_crlf
    from_chars take Parser.array_of Parser.length_of Parser.parse_bulk_string Writable count_values
    encode_all array_header write_integer_line to_chars Encoder.bulk_string
on_client_readable-pipeline_example =
    on_client_readable-pipeline small_kernel 1000 commands 9 asked serving client both cut refl refl
      refl (omega arith)
      (
        (omega arith, omega arith, (omega arith, (omega arith, (omega arith, tt)))),
        ((omega arith, omega arith, (omega arith, tt)), tt),
      )
      refl refl tt
