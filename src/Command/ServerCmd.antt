-- ===== src/Command/ServerCmd.antt =====
-- The handlers of src/command/handlers/server_cmd.cpp: those on the database alone, and those that
-- read or change the server context, the disk or the connection.
pub mod Saving
pub mod OneChild
pub mod Background
use keva_db.Base.{
  ℕ, ◌++◌, Bool, true, false, not, Option, none, some, ◌==◌, if◌then◌else◌, length, Bytes, codes,
}
use keva_db.Base.Decimal.{from_chars, to_chars}
use keva_db.Base.Int.{ℤ, pos, ◌-ℤ◌, eqb_ℤ}
use keva_db.Command.Args.{Clock, Handler, arg}
use keva_db.Command.World.{World, System, reply}
use keva_db.Common.Status.{ok}
use keva_db.Core.Db
use keva_db.Core.ServerContext.{ServerContext, no_child}
use keva_db.Net.Connection.{write_only, set_state}
use keva_db.Persistence.Background.{rdb_save_background}
use keva_db.Persistence.Save.{rdb_save_sync}
use keva_db.Protocol.Encoder

unfoldable pub handle_ping : Handler
handle_ping clock args db = (
  db,
  if length args == 1
      then Encoder.simple_string (codes "PONG")
      else Encoder.bulk_string (arg args 1),
)

unfoldable pub handle_echo : Handler
handle_echo clock args db = (db, Encoder.bulk_string (arg args 1))

unfoldable pub handle_flushdb : Handler
handle_flushdb clock args db = (Db.flush db, Encoder.ok)

unfoldable pub select_reply : Option (ℤ × Bytes) → Bytes
select_reply none = Encoder.error (codes "DB index is out of range")
select_reply (some (idx, rest)) =
    if eqb_ℤ idx (pos 0) then Encoder.ok else Encoder.error (codes "DB index is out of range")

unfoldable pub handle_select : Handler
handle_select clock args db = (db, select_reply (from_chars (arg args 1)))

-- `time(nullptr)`
abbrev pub now_seconds : Clock → ℤ
now_seconds clock = pos clock.seconds

-- A line of INFO, of a name and a number.
abbrev pub info_line : Bytes → ℤ → Bytes
info_line name n = name ++ (codes ":" ++ (to_chars n ++ codes "\r\n"))

-- The sections, each with an empty line behind it but the last.
abbrev pub server_section : ℤ → ServerContext → Bytes
server_section now ctx =
    codes "# Server\r\nkeva_version:0.1.0\r\nos:Linux\r\narch_bits:64\r\n"
    ++ (info_line (codes "hz") (pos ctx.config.hz)
        ++ (info_line (codes "uptime_in_seconds") (now -ℤ ctx.start_time_seconds)
            ++ (info_line (codes "tcp_port") (pos ctx.config.port) ++ codes "\r\n")))

abbrev pub clients_section : Bytes
clients_section = codes "# Clients\r\nconnected_clients:1\r\n\r\n"

abbrev pub stats_section : ServerContext → Bytes
stats_section ctx =
    codes "# Stats\r\n"
    ++ (info_line (codes "total_commands_processed") (pos stats.total_commands_processed)
        ++ (info_line (codes "total_connections_received") (pos stats.total_connections_received)
            ++ (info_line (codes "keyspace_hits") (pos stats.keyspace_hits)
                ++ (info_line (codes "keyspace_misses") (pos stats.keyspace_misses)
                    ++ (info_line (codes "expired_keys") (pos stats.expired_keys)
                        ++ (info_line (codes "evicted_keys") (pos stats.evicted_keys)
                            ++ codes "\r\n"))))))
  where
    open ctx use {stats}

abbrev pub persistence_section : ServerContext → Bytes
persistence_section ctx =
    codes "# Persistence\r\n"
    ++ (info_line (codes "rdb_enabled") (pos (if ctx.config.rdb_enabled then 1 else 0))
        ++ (info_line (codes "rdb_last_save_time") ctx.last_save_time
            ++ (info_line (codes "rdb_changes_since_last_save") (pos ctx.dirty_keys)
                ++ codes "\r\n")))

abbrev pub keyspace_section : ℕ → Bytes
keyspace_section keys =
    codes "# Keyspace\r\ndb0:keys=" ++ (to_chars (pos keys) ++ codes ",expires=0\r\n")

unfoldable pub handle_info : System → World → World
handle_info sys w = reply w (
    Encoder.bulk_string (
      server_section (now_seconds sys.clock) w.ctx
      ++ (clients_section
          ++ (stats_section w.ctx
              ++ (persistence_section w.ctx ++ keyspace_section (Db.dbsize w.db))))))

unfoldable pub handle_save : System → World → World
handle_save sys w =
    let (db', (disk', s)) =
      rdb_save_sync sys.strerror sys.saving_answers w.ctx.config.rdb_filename sys.clock.now_ms w.db
        w.disk in
    let after = record w { db = db'; disk = disk' } in
    if ok s
    then reply
        (record after {
          ctx = record w.ctx { last_save_time = now_seconds sys.clock; dirty_keys = 0 };
        })
        Encoder.ok
    else reply after (Encoder.error s.message)

unfoldable pub handle_bgsave : System → World → World
handle_bgsave sys w =
    let (ctx', (child', s)) = rdb_save_background sys.strerror sys.fork_answer w.db w.ctx w.child in
    let after = record w { ctx = ctx'; child = child' } in
    if not (eqb_ℤ w.ctx.bgsave_child_pid no_child)
    then reply w (Encoder.error (codes "Background save already in progress"))
    else if ok s
    then reply after (Encoder.simple_string (codes "Background saving started"))
    else reply after (Encoder.error s.message)

unfoldable pub handle_quit : World → World
handle_quit w =
    let told = reply w Encoder.ok in record told { conn = set_state write_only told.conn }
