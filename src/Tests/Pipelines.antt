-- ===== src/Tests/Pipelines.antt =====
-- The dispatch loop of src/command/command.cpp on a buffer with two commands and a part of a third.
use keva_db.Base.{ℕ, ◌+◌, ◌≡◌, refl, none, [], ◌++◌, arith, Bytes, codes, drop, take}
use keva_db.Base.Decimal.{from_chars}
use keva_db.Base.Int.{pos}
use keva_db.Command.Registry.{dispatch, Registry, waiting, register_all_commands}
use keva_db.Command.Registry.Pipeline.{Settled, dispatch-Settled, dispatch-pipeline, run_each}
use keva_db.Command.World.{World, System}
use keva_db.Core.Db.{new_database}
use keva_db.Core.ServerContext.{new_context}
use keva_db.Persistence.Background.{forked, no_process}
use keva_db.Net.Connection.{new_connection, read_view}
use keva_db.Protocol.Encoder.{encode_all}
use keva_db.Protocol.Parser
use keva_db.Protocol.Parser.{
  parse, incomplete, parse_prefix, parse_array, parse_length, length_line, parse_line, find_crlf,
}
use keva_db.Protocol.Parser.RoundTrip.{Writable}
use keva_db.Protocol.RespTypes.{
  RespValue, RespValues, bulk_string, array, none_left, value, count_values,
}

program : Unit {0}
unfolding parse Parser.parse_value parse_prefix parse_array parse_length length_line parse_line
    find_crlf from_chars take Parser.array_of Parser.length_of Parser.parse_bulk_string Writable
    count_values
program = tt

-- The table of a build whose subtraction gives 0 where it overflows.
abbrev pub commands : Registry
commands = register_all_commands (λ a b. pos 0)

abbrev pub times : ℕ → System
times n = record {
  clock = record { now_ms = pos (5000 + n); seconds = 5 };
  saving_answers = record { open_error = none; writes = []; rename_error = none };
  fork_answer = forked 7;
  strerror = λ e. codes "Success";
}

abbrev pub ping : RespValue
ping = array (value (bulk_string (codes "PING")) none_left)

abbrev pub set_k : RespValue
set_k = array (
    value (bulk_string (codes "SET"))
      (value (bulk_string (codes "k")) (value (bulk_string (codes "v")) none_left)))

abbrev pub both : RespValues
both = value set_k (value ping none_left)

abbrev pub cut : Bytes
cut = codes "*2\r\n$3"

abbrev pub filled : World
filled = record {
  conn = record new_connection { read_buf = encode_all both ++ cut };
  db = new_database 0;
  ctx = new_context;
  disk = λ path. none;
  child = no_process;
}

dispatch-pipeline_example :
    (dispatch 1000 commands times filled ≡ waiting (run_each 1000 commands times both filled))
    × (read_view (run_each 1000 commands times both filled).conn ≡ cut)
unfolding program read_view drop
dispatch-pipeline_example =
    dispatch-pipeline 1000 commands times filled both cut
      (
        (omega arith, omega arith, (omega arith, (omega arith, (omega arith, tt)))),
        ((omega arith, omega arith, (omega arith, tt)), tt),
      )
      refl refl

dispatch-Settled_example : Settled (dispatch 1000 commands times filled)
dispatch-Settled_example = dispatch-Settled 1000 commands times filled
