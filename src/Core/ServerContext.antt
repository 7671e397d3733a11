-- ===== src/Core/ServerContext.antt =====
-- `ServerContext` of src/core/server_context.cpp: the databases and the counters, and the timer's work
-- on them. The counters are atomic in the source; each is read and written by one thread here.
pub mod Cron
use keva_db.Base.{
  ℕ, suc, ◌+◌, ◌%◌, Bool, true, false, not, ◌&&◌, ◌||◌, List, [], ◌∷◌, leb, ◌==◌, if◌then◌else◌,
  Bytes, codes,
}
use keva_db.Base.Int.{ℤ, pos, negsuc, ◌-ℤ◌, leb_ℤ, eqb_ℤ, wrap_i64}
use keva_db.Core.Db.{KevaDatabase, new_database, active_expire_cycle, rehash_step}

-- `ServerConfig::SavePoint`
pub record SavePoint : Type 0 where
  pub seconds : ℕ
  pub changes : ℕ

pub record ServerConfig : Type 0 where
  pub host : Bytes
  pub port : ℕ
  pub max_clients : ℕ
  pub maxmemory : ℕ
  pub hz : ℕ
  pub loglevel : Bytes
  pub rdb_filename : Bytes
  pub rdb_enabled : Bool
  pub save_points : List SavePoint

abbrev pub default_config : ServerConfig
default_config = record {
  host = codes "0.0.0.0";
  port = 6379;
  max_clients = 10000;
  maxmemory = 0;
  hz = 10;
  loglevel = codes "info";
  rdb_filename = codes "dump.rdb";
  rdb_enabled = true;
  save_points =
      record { seconds = 3600; changes = 1 }
      ∷ record { seconds = 300; changes = 100 }
      ∷ record { seconds = 60; changes = 10000 }
      ∷ [];
}

pub record ServerStats : Type 0 where
  pub total_commands_processed : ℕ
  pub total_connections_received : ℕ
  pub keyspace_hits : ℕ
  pub keyspace_misses : ℕ
  pub expired_keys : ℕ
  pub evicted_keys : ℕ

abbrev pub no_stats : ServerStats
no_stats = record {
  total_commands_processed = 0;
  total_connections_received = 0;
  keyspace_hits = 0;
  keyspace_misses = 0;
  expired_keys = 0;
  evicted_keys = 0;
}

pub record ServerContext : Type 0 where
  pub config : ServerConfig
  pub stats : ServerStats
  pub databases : List KevaDatabase
  pub bgsave_child_pid : ℤ
  pub dirty_keys : ℕ
  pub last_save_time : ℤ
  pub start_time_seconds : ℤ

-- `bgsave_child_pid` where there is no child.
abbrev pub no_child : ℤ
no_child = negsuc 0

abbrev pub new_context : ServerContext
new_context = record {
  config = default_config;
  stats = no_stats;
  databases = [];
  bgsave_child_pid = no_child;
  dirty_keys = 0;
  last_save_time = pos 0;
  start_time_seconds = pos 0;
}

-- `init` at a time in seconds: one database.
unfoldable pub init : ServerConfig → ℤ → ServerContext → ServerContext
init config now ctx = record ctx {
  config = config;
  databases = new_database 0 ∷ [];
  start_time_seconds = now;
  last_save_time = now;
}

-- `record_command`, whose counter wraps.
abbrev pub record_command : ServerContext → ServerContext
record_command ctx = record ctx {
  stats = record ctx.stats {
    total_commands_processed = (ctx.stats.total_commands_processed + 1) % 18446744073709551616;
  };
}

-- The expiry cycle of each database, with the number of keys deleted; `draw` gives the random draws
-- of each database.
unfoldable pub expire_each : ℤ → (ℕ → ℕ → ℕ × ℕ) → List KevaDatabase → List KevaDatabase × ℕ
expire_each now_ms draw [] = ([], 0)
expire_each now_ms draw (db ∷ dbs) =
    let (db', deleted) = active_expire_cycle now_ms (draw 0) db in
    let (dbs', more) = expire_each now_ms (λ i. draw (suc i)) dbs in (db' ∷ dbs', deleted + more)

unfoldable pub rehash_each : List KevaDatabase → List KevaDatabase
rehash_each [] = []
rehash_each (db ∷ dbs) = rehash_step db ∷ rehash_each dbs

-- The test of one save point: enough changes, and enough time since the last save.
unfoldable pub reached : ℕ → ℤ → SavePoint → Bool
reached dirty since sp = leb sp.changes dirty && leb_ℤ (pos sp.seconds) since

unfoldable pub any_reached : ℕ → ℤ → List SavePoint → Bool
any_reached dirty since [] = false
any_reached dirty since (sp ∷ sps) =
    let later = any_reached dirty since sps in if reached dirty since sp then true else later

-- A save point that is reached is only logged: the second part of the result.
unfoldable pub server_cron : ℤ → ℤ → (ℕ → ℕ → ℕ × ℕ) → ServerContext → ServerContext × Bool
server_cron now_ms now draw ctx =
    let (dbs, deleted) = expire_each now_ms draw ctx.databases in
    (
      record ctx {
        databases = rehash_each dbs;
        stats = record ctx.stats {
          expired_keys = (ctx.stats.expired_keys + deleted) % 18446744073709551616;
        };
      },
      ctx.config.rdb_enabled
          && eqb_ℤ ctx.bgsave_child_pid no_child
          && any_reached ctx.dirty_keys (wrap_i64 (now -ℤ ctx.last_save_time))
              ctx.config.save_points,
    )
