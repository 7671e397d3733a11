-- ===== src/Command/World.antt =====
-- `CommandContext` of command/command.hpp, with what the handlers reach through the singletons: the
-- server context, the disk and the child process.
use keva_db.Base.{ℕ, Bytes}
use keva_db.Command.Args.{Clock}
use keva_db.Core.Db.{KevaDatabase}
use keva_db.Core.ServerContext.{ServerContext, record_command}
use keva_db.Net.Connection.{Connection, append_response}
use keva_db.Persistence.Background.{Forked, Child}
use keva_db.Persistence.Save.{Disk, SaveAnswers}

-- What a command can change. `db` is the database that the commands work on; `ctx.databases` is
-- not read by them.
pub record World : Type 0 where
  pub conn : Connection
  pub db : KevaDatabase
  pub ctx : ServerContext
  pub disk : Disk
  pub child : Child

-- What the system gives a command: the clocks, the results of saving a file and of fork, and the
-- text of an error number.
pub record System : Type 0 where
  pub clock : Clock
  pub saving_answers : SaveAnswers
  pub fork_answer : Forked
  pub strerror : ℕ → Bytes

abbrev pub reply : World → Bytes → World
reply w out = record w { conn = append_response w.conn out }

-- `ServerContext::record_command`
abbrev pub count_command : World → World
count_command w = record w { ctx = record_command w.ctx }
