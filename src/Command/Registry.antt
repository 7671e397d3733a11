-- ===== src/Command/Registry.antt =====
-- `CommandRegistry` of src/command/command.cpp: the table of commands and the dispatch loop.
pub mod Unread
pub mod Pipeline
use keva_db.Base.{
  ℕ, zero, suc, ◌+◌, ◌%◌, ◌/◌, Bool, true, false, not, ◌&&◌, ◌||◌, Option, none, some, List, [],
  ◌∷◌, ◌++◌, ltb, ◌==◌, if◌then◌else◌, length, Bytes, bytes_eq, codes,
}
use keva_db.Base.Int.{ℤ}
use keva_db.Command.Args.{Handler, to_upper}
use keva_db.Command.KeyCmd.{
  handle_del, handle_exists, handle_type, handle_expire, handle_pexpire, handle_expireat,
  handle_ttl, handle_pttl, handle_persist, handle_keys, handle_rename, handle_dbsize,
}
use keva_db.Command.World.{World, System, reply, count_command}
use keva_db.Command.ServerCmd.{
  handle_ping, handle_echo, handle_flushdb, handle_select, handle_info, handle_save, handle_bgsave,
  handle_quit,
}
use keva_db.Command.StringCmd.{
  handle_set, handle_get, handle_getset, handle_mset, handle_mget, handle_append, handle_strlen,
  handle_incr, handle_incrby, handle_decr, handle_decrby, handle_setex, handle_psetex, handle_setnx,
}
use keva_db.Core.Db.{KevaDatabase}
use keva_db.Net.Connection.{Connection, write_only, set_state, read_view, consume, append_response}
use keva_db.Protocol.Encoder
use keva_db.Protocol.Parser.{Parsed, complete, incomplete, bad, thrown, out_of_fuel, parse}
use keva_db.Protocol.RespTypes.{
  RespValue, RespValues, none_left, value, is_array, is_bulk_string, str, strs, elements,
}

-- What a command does: a handler of the database, or one of those that change more.
pub data Action : Type 0 where
  run_handler : Handler → Action
  info save bgsave quit : Action

-- `CommandEntry`; no upper bound of the arity is -1 in the source.
pub record CommandEntry : Type 0 where
  pub name : Bytes
  pub handler : Action
  pub arity_min : ℕ
  pub arity_max : Option ℕ
  pub flags : ℕ

abbrev pub Registry : Type 0
Registry = List CommandEntry

-- `CMD_FLAG_WRITE`, the lowest bit.
unfoldable pub is_write : CommandEntry → Bool
is_write entry = entry.flags % 2 == 1

-- The entry under a name that is in upper case.
unfoldable pub lookup : Registry → Bytes → Option CommandEntry
lookup [] upper = none
lookup (entry ∷ table) upper =
    if bytes_eq (to_upper entry.name) upper then some entry else lookup table upper

unfoldable pub find : Registry → Bytes → Option CommandEntry
find table name = lookup table (to_upper name)

unfoldable pub insert : Option CommandEntry → Registry → CommandEntry → Registry
insert none table entry = table ++ (entry ∷ [])
insert (some old) table entry = table

-- `emplace` keeps an entry that is there already.
unfoldable pub register_command : Registry → CommandEntry → Registry
register_command table entry = insert (find table entry.name) table entry

unfoldable pub run_action : Action → System → List Bytes → World → World
run_action (run_handler h) sys args w =
    let (db', out) = h sys.clock args w.db in reply (record w { db = db' }) out
run_action info sys args w = handle_info sys w
run_action save sys args w = handle_save sys w
run_action bgsave sys args w = handle_bgsave sys w
run_action quit sys args w = handle_quit w

unfoldable pub over : ℕ → Option ℕ → Bool
over argc none = false
over argc (some most) = ltb most argc

-- From the arity check on.
unfoldable pub run_entry : CommandEntry → System → List Bytes → World → World
run_entry entry sys args w =
    let ran = count_command (run_action entry.handler sys args w) in
    if ltb (length args) entry.arity_min || over (length args) entry.arity_max
    then count_command (
        reply w (
          Encoder.error
            (codes "wrong number of arguments for '" ++ (entry.name ++ codes "' command"))))
    else if is_write entry
    then record ran {
      ctx = record ran.ctx { dirty_keys = (ran.ctx.dirty_keys + 1) % 18446744073709551616 };
    }
    else ran

unfoldable pub run_found : Option CommandEntry → Bytes → System → List Bytes → World → World
run_found none cmd_name sys args w =
    count_command (reply w (Encoder.error (codes "unknown command `" ++ (cmd_name ++ codes "`"))))
run_found (some entry) cmd_name sys args w = run_entry entry sys args w

-- A parsed value, from the check of its shape on.
unfoldable pub execute : Registry → System → RespValue → RespValues → World → World
execute table sys v none_left w = reply w (Encoder.error (codes "Protocol error: expected array"))
execute table sys v (value name_value vs) w =
    let cmd_name = to_upper (str name_value) in
    if not (is_array v)
    then reply w (Encoder.error (codes "Protocol error: expected array"))
    else if is_bulk_string name_value
    then run_found (find table cmd_name) cmd_name sys (str name_value ∷ strs vs) w
    else reply w (Encoder.error (codes "Protocol error: command name must be bulk string"))

-- How the loop ends: an exception that nothing catches ends the program.
pub data Dispatched : Type 0 where
  waiting : World → Dispatched
  crashed : World → Dispatched
  unfinished : World → Dispatched

-- `conn.consume(consumed)`
abbrev pub consumed_of : ℕ → World → World
consumed_of n w = record w { conn = consume n w.conn }

module _ (reserve_limit : ℕ) (table : Registry) where
  -- One turn of the loop, at the clocks of that turn; `again` is the turns after it.
  unfoldable pub turn : (World → Dispatched) → System → Parsed RespValue × ℕ → World → Dispatched
  turn again sys (incomplete, n) w = waiting w
  turn again sys (bad, n) w =
      let told = reply w (Encoder.error (codes "Protocol error: invalid RESP2 format")) in
      waiting (record told { conn = set_state write_only told.conn })
  turn again sys (thrown, n) w = crashed w
  turn again sys (out_of_fuel, n) w = unfinished w
  turn again sys (complete v rest, n) w = again (execute table sys v (elements v) (consumed_of n w))

  unfoldable pub dispatch_loop : ℕ → (ℕ → System) → World → Dispatched
  dispatch_loop zero sys w = unfinished w
  dispatch_loop (suc fuel) sys w = elim (read_view w.conn) [
    | [] ↦ waiting w
    | _ ∷ _ ↦
        turn (dispatch_loop fuel (λ i. sys (suc i))) (sys 0)
          (parse reserve_limit (read_view w.conn)) w
  ]

  -- Every turn of the loop but the last takes a byte or more. `sys` gives the clocks of each turn.
  unfoldable pub dispatch : (ℕ → System) → World → Dispatched
  dispatch sys w = dispatch_loop (length (read_view w.conn) + 1) sys w

abbrev entry : Bytes → Action → ℕ → Option ℕ → ℕ → CommandEntry
entry name handler least most flags = record {
  name = name;
  handler = handler;
  arity_min = least;
  arity_max = most;
  flags = flags;
}

-- `overflowed` is what the build makes of a subtraction that overflows.
abbrev pub string_commands : (ℤ → ℤ → ℤ) → Registry
string_commands overflowed =
    entry (codes "SET") (run_handler handle_set) 3 none 1
    ∷ entry (codes "GET") (run_handler handle_get) 2 (some 2) 6
    ∷ entry (codes "GETSET") (run_handler handle_getset) 3 (some 3) 1
    ∷ entry (codes "MSET") (run_handler handle_mset) 3 none 1
    ∷ entry (codes "MGET") (run_handler handle_mget) 2 none 2
    ∷ entry (codes "APPEND") (run_handler handle_append) 3 (some 3) 1
    ∷ entry (codes "STRLEN") (run_handler handle_strlen) 2 (some 2) 6
    ∷ entry (codes "INCR") (run_handler handle_incr) 2 (some 2) 5
    ∷ entry (codes "INCRBY") (run_handler handle_incrby) 3 (some 3) 5
    ∷ entry (codes "DECR") (run_handler handle_decr) 2 (some 2) 5
    ∷ entry (codes "DECRBY") (run_handler (handle_decrby overflowed)) 3 (some 3) 5
    ∷ entry (codes "SETEX") (run_handler handle_setex) 4 (some 4) 1
    ∷ entry (codes "PSETEX") (run_handler handle_psetex) 4 (some 4) 1
    ∷ entry (codes "SETNX") (run_handler handle_setnx) 3 (some 3) 5
    ∷ []

abbrev pub key_commands : Registry
key_commands =
    entry (codes "DEL") (run_handler handle_del) 2 none 1
    ∷ entry (codes "EXISTS") (run_handler handle_exists) 2 none 6
    ∷ entry (codes "TYPE") (run_handler handle_type) 2 (some 2) 6
    ∷ entry (codes "EXPIRE") (run_handler handle_expire) 3 (some 3) 1
    ∷ entry (codes "PEXPIRE") (run_handler handle_pexpire) 3 (some 3) 1
    ∷ entry (codes "EXPIREAT") (run_handler handle_expireat) 3 (some 3) 1
    ∷ entry (codes "TTL") (run_handler handle_ttl) 2 (some 2) 6
    ∷ entry (codes "PTTL") (run_handler handle_pttl) 2 (some 2) 6
    ∷ entry (codes "PERSIST") (run_handler handle_persist) 2 (some 2) 1
    ∷ entry (codes "KEYS") (run_handler handle_keys) 2 (some 2) 2
    ∷ entry (codes "RENAME") (run_handler handle_rename) 3 (some 3) 1
    ∷ entry (codes "DBSIZE") (run_handler handle_dbsize) 1 (some 1) 6
    ∷ []

abbrev pub server_commands : Registry
server_commands =
    entry (codes "PING") (run_handler handle_ping) 1 (some 2) 4
    ∷ entry (codes "ECHO") (run_handler handle_echo) 2 (some 2) 4
    ∷ entry (codes "FLUSHDB") (run_handler handle_flushdb) 1 (some 1) 9
    ∷ entry (codes "INFO") info 1 (some 2) 2
    ∷ entry (codes "SAVE") save 1 (some 1) 8
    ∷ entry (codes "BGSAVE") bgsave 1 (some 1) 8
    ∷ entry (codes "SELECT") (run_handler handle_select) 2 (some 2) 4
    ∷ entry (codes "QUIT") quit 1 (some 1) 4
    ∷ []

unfoldable pub register_each : List CommandEntry → Registry → Registry
register_each [] table = table
register_each (e ∷ es) table = register_each es (register_command table e)

unfoldable pub register_all_commands : (ℤ → ℤ → ℤ) → Registry
register_all_commands overflowed =
    register_each server_commands
      (register_each key_commands (register_each (string_commands overflowed) []))
