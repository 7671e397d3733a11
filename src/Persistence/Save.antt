-- ===== src/Persistence/Save.antt =====
-- `RdbWriter` and `rdb_save_sync` of src/persistence/rdb_save.cpp, with the file system: a failure
-- of any call of open, write or rename is an argument.
pub mod Pieces
pub mod Written
pub mod Atomic
pub mod Succeeds
use keva_db.Base.{
  ℕ, ◌+◌, ◌/◌, ◌%◌, Bool, true, false, Option, none, some, List, [], ◌∷◌, ◌++◌, ltb, ◌==◌,
  if◌then◌else◌, length, take, drop, Bytes, bytes_eq, codes,
}
use keva_db.Base.Int.{ℤ, to_u64}
use keva_db.Common.Status.{Status, success, io_error, ok}
use keva_db.Core.Chain.{DictEntry}
use keva_db.Core.Db
use keva_db.Core.Db.{KevaDatabase}
use keva_db.Core.Object.{KevaObject, get_string_value}
use keva_db.Persistence.Rdb.{le_bytes, crc64_update, Saved, saved_time}

-- What a call of `write` gives: a number of bytes, EINTR, or another error.
pub data Wrote : Type 0 where
  wrote : ℕ → Wrote
  write_interrupted : Wrote
  write_failed : ℕ → Wrote

-- `RdbWriter`, with the file's bytes. `script` is what the next calls of `write` give; behind it
-- each takes all that it is given.
pub record Writer : Type 0 where
  pub out : Bytes
  pub crc_state : ℕ
  pub bytes_written : ℕ
  pub script : List Wrote

abbrev pub new_writer : List Wrote → Writer
new_writer script = record { out = []; crc_state = 0; bytes_written = 0; script = script }

abbrev pub Writing : Type 0
Writing = Writer → Writer × Status

-- `if (auto s = …; !s.ok()) return s;` between two writes.
infixr 20 ◌and_then◌
unfoldable pub ◌and_then◌ : Writing → Writing → Writing
f and_then g = λ w. let (w', s) = f w in if ok s then g w' else (w', s)

-- Bytes that a call of `write` took.
unfoldable pub advance : Bytes → List Wrote → Writer → Writer
advance chunk script w = record {
  out = w.out ++ chunk;
  crc_state = crc64_update w.crc_state chunk;
  bytes_written = w.bytes_written + length chunk;
  script = script;
}

-- What saving needs of the system: the text of an error, and what open and rename give.
pub record SaveAnswers : Type 0 where
  pub open_error : Option ℕ
  pub writes : List Wrote
  pub rename_error : Option ℕ

-- The files, by their paths.
abbrev pub Disk : Type 0
Disk = Bytes → Option Bytes

abbrev pub put_file : Bytes → Option Bytes → Disk → Disk
put_file path content disk q = if bytes_eq path q then content else disk q

abbrev pub temporary : Bytes → Bytes
temporary filename = filename ++ codes ".tmp"

module _ (strerror : ℕ → Bytes) where
  -- The loop of `write_bytes`.
  unfoldable pub write_loop : List Wrote → Bytes → Writing
  write_loop [] p w = (advance p [] w, success)
  write_loop (r ∷ rs) [] w = (record w { script = r ∷ rs }, success)
  write_loop (wrote n ∷ rs) (c ∷ p) w =
      write_loop rs (drop n (c ∷ p)) (advance (take n (c ∷ p)) rs w)
  write_loop (write_interrupted ∷ rs) (c ∷ p) w = write_loop rs (c ∷ p) w
  write_loop (write_failed e ∷ rs) (c ∷ p) w = (record w { script = rs }, io_error (strerror e))

  unfoldable pub write_bytes : Bytes → Writing
  write_bytes p w = if length p == 0 then (w, success) else write_loop w.script p w

  abbrev pub write_u8 : ℕ → Writing
  write_u8 v = write_bytes (v ∷ [])

  -- `write_string`, with its length in front.
  unfoldable pub write_text : Bytes → Writing
  write_text sv =
      let len = length sv in
      if ltb len 64
      then write_u8 len and_then write_bytes sv
      else if ltb len 16384
      then write_u8 (128 + len / 256) and_then write_u8 (len % 256) and_then write_bytes sv
      else write_u8 192 and_then write_bytes (le_bytes 4 (len % 4294967296)) and_then write_bytes sv

  abbrev pub write_time : Option ℤ → Writing
  write_time none w = (w, success)
  write_time (some t) w = (write_u8 0xFC and_then write_bytes (le_bytes 8 (to_u64 t))) w

  -- What the callback of `for_each` writes of a key.
  unfoldable pub write_saved : Saved → Writing
  write_saved e =
      write_time e.expire
      and_then write_u8 0x00
      and_then write_text e.key
      and_then write_text e.value

  -- The visits of `for_each`, which do nothing once a write has failed.
  unfoldable pub save_entries :
      ℤ → List (DictEntry KevaObject) → KevaDatabase → Writer → KevaDatabase × (Writer × Status)
  save_entries now_ms [] db w = (db, (w, success))
  save_entries now_ms (e ∷ es) db w =
      let (db', ttl_ms) = Db.pttl db e.key now_ms in
      let saved : Saved = record {
        key = e.key;
        value = get_string_value e.value;
        expire = saved_time now_ms ttl_ms;
      } in
      let (w', s) = write_saved saved w in
      let rest = save_entries now_ms es db' w' in if ok s then rest else (db', (w', s))

  -- Only the call for these bytes is made, and a part of them is a failure.
  unfoldable pub write_crc_of : List Wrote → Bytes → Writing
  write_crc_of [] crc w = (record w { out = w.out ++ crc }, success)
  write_crc_of (wrote n ∷ rs) crc w = (
    record w { out = w.out ++ take n crc; script = rs },
    if n == 8 then success else io_error (codes "Failed to write CRC64"),
  )
  write_crc_of (write_interrupted ∷ rs) crc w =
      (record w { script = rs }, io_error (codes "Failed to write CRC64"))
  write_crc_of (write_failed e ∷ rs) crc w =
      (record w { script = rs }, io_error (codes "Failed to write CRC64"))

  unfoldable pub write_crc64 : Writing
  write_crc64 w = write_crc_of w.script (le_bytes 8 w.crc_state) w

  -- In front of the entries.
  unfoldable pub write_header : ℕ → Writing
  write_header db_id =
      write_bytes (codes "KEVA")
      and_then write_bytes (le_bytes 2 1)
      and_then write_u8 0xFE
      and_then write_bytes (le_bytes 4 (db_id % 4294967296))

  -- All that is written to an open file.
  unfoldable pub save_to : ℤ → KevaDatabase → Writer → KevaDatabase × (Writer × Status)
  save_to now_ms db w =
      let (w', s) = write_header db.db_id w in
      let (db', (w'', s')) = save_entries now_ms (Db.for_each db now_ms) db w' in
      if ok s
      then (db', if ok s' then (write_u8 0xFF and_then write_crc64) w'' else (w'', s'))
      else (db, (w', s))

  -- The database, whose dictionaries `pttl` may have migrated, the files, and the status.
  unfoldable pub renamed :
      Option ℕ → Bytes → Bytes → KevaDatabase → Disk → KevaDatabase × (Disk × Status)
  renamed none filename content db disk =
      (db, (put_file filename (some content) (put_file (temporary filename) none disk), success))
  renamed (some e) filename content db disk = (db, (disk, io_error (strerror e)))

  unfoldable pub saved_as :
      Option ℕ → Bytes → Disk → KevaDatabase × (Writer × Status) → KevaDatabase × (Disk × Status)
  saved_as rename_error filename disk (db, (w, s)) =
      let written = put_file (temporary filename) (some w.out) disk in
      if ok s then renamed rename_error filename w.out db written else (db, (written, s))

  unfoldable pub save_opened :
      Option ℕ → SaveAnswers → Bytes → ℤ → KevaDatabase → Disk → KevaDatabase × (Disk × Status)
  save_opened (some e) given filename now_ms db disk = (db, (disk, io_error (strerror e)))
  save_opened none given filename now_ms db disk =
      saved_as given.rename_error filename disk (save_to now_ms db (new_writer given.writes))

  unfoldable pub rdb_save_sync :
      SaveAnswers → Bytes → ℤ → KevaDatabase → Disk → KevaDatabase × (Disk × Status)
  rdb_save_sync given filename now_ms db disk =
      save_opened given.open_error given filename now_ms db disk
