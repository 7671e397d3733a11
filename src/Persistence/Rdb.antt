-- ===== src/Persistence/Rdb.antt =====
-- `RdbWriter` and `RdbReader` of src/persistence/rdb_save.cpp and rdb_load.cpp: a file is its bytes.
-- Opening, renaming and failing calls are in Save.antt, and the opening for a load in Main/Program.antt.
pub mod RoundTrip
pub mod Files
pub mod Recovery
pub mod Checksum
use keva_db.Base.{
  ℕ, zero, suc, ◌+◌, ◌-◌, ◌*◌, ◌/◌, ◌%◌, bit_xor, Bool, true, false, ◌&&◌, Option, none, some, List,
  [], ◌∷◌, ◌++◌, ltb, leb, ◌==◌, if◌then◌else◌, length, take, drop, Bytes, bytes_eq, codes, ◌>>=◌,
}
use keva_db.Base.Int.{ℤ, pos, negsuc, ◌+ℤ◌, leb_ℤ, eqb_ℤ, to_u64, from_u64, wrap_i64}
use keva_db.Command.Args.{Clock, lru_now}
use keva_db.Core.Chain.{DictEntry}
use keva_db.Core.Db
use keva_db.Core.Db.{KevaDatabase}
use keva_db.Core.Object.{KevaObject, create_string, get_string_value}

-- Numbers of a few bytes, the lowest byte first.
unfoldable pub le_bytes : ℕ → ℕ → Bytes
le_bytes zero n = []
le_bytes (suc k) n = n % 256 ∷ le_bytes k (n / 256)

unfoldable pub le_value : Bytes → ℕ
le_value [] = 0
le_value (b ∷ bs) = b + 256 * le_value bs

-- An entry of the table of the CRC: eight steps of the polynomial.
unfoldable pub crc_steps : ℕ → ℕ → ℕ
crc_steps zero c = c
crc_steps (suc n) c = crc_steps n (if c % 2 == 1 then bit_xor 0xad93d23594c935a9 (c / 2) else c / 2)

unfoldable pub crc_fold : Bytes → ℕ → ℕ
crc_fold [] crc = crc
crc_fold (b ∷ bs) crc = crc_fold bs (bit_xor (crc_steps 8 (bit_xor crc b % 256)) (crc / 256))

-- `crc64_update`: the complement is taken before and behind.
unfoldable pub crc64_update : ℕ → Bytes → ℕ
crc64_update crc bs = 18446744073709551615 - crc_fold bs (18446744073709551615 - crc)

-- The length in front of a text. The cast to 32 bits loses what is above.
unfoldable pub write_length : ℕ → Bytes
write_length len =
    if ltb len 64
    then len ∷ []
    else if ltb len 16384
    then (128 + len / 256) ∷ len % 256 ∷ []
    else 192 ∷ le_bytes 4 (len % 4294967296)

unfoldable pub write_string : Bytes → Bytes
write_string sv = write_length (length sv) ++ sv

unfoldable pub read_bytes : ℕ → Bytes → Option (Bytes × Bytes)
read_bytes n s = if ltb (length s) n then none else some (take n s, drop n s)

unfoldable pub read_u8 : Bytes → Option (ℕ × Bytes)
read_u8 [] = none
read_u8 (b ∷ s) = some (b, s)

-- The rest of a length behind its first byte, by the two high bits of that byte.
unfoldable pub length_from : ℕ → Bytes → Option (ℕ × Bytes)
length_from first s =
    if first / 64 % 4 == 0
    then some (first % 64, s)
    else if first / 64 % 4 == 2
    then (do (second, r) ← read_u8 s; some (first % 64 * 256 + second, r))
    else if first / 64 % 4 == 3
    then (do (bs, r) ← read_bytes 4 s; some (le_value bs, r))
    else none

unfoldable pub read_length : Bytes → Option (ℕ × Bytes)
read_length s = do (first, r) ← read_u8 s; length_from first r

unfoldable pub read_string : Bytes → Option (Bytes × Bytes)
read_string s = do (len, r) ← read_length s; read_bytes len r

-- What is written of a key: its text, the text of its value, and its time.
pub record Saved : Type 0 where
  pub key : Bytes
  pub value : Bytes
  pub expire : Option ℤ

unfoldable pub write_expire : Option ℤ → Bytes
write_expire none = []
write_expire (some t) = 0xFC ∷ le_bytes 8 (to_u64 t)

unfoldable pub write_entry : Saved → Bytes
write_entry e = write_expire e.expire ++ (0x00 ∷ write_string e.key ++ write_string e.value)

unfoldable pub write_entries : List Saved → Bytes
write_entries [] = []
write_entries (e ∷ es) = write_entry e ++ write_entries es

-- The time of a key, from its time to live.
unfoldable pub saved_time : ℤ → ℤ → Option ℤ
saved_time now_ms ttl_ms = if leb_ℤ (pos 0) ttl_ms then some (wrap_i64 (now_ms +ℤ ttl_ms)) else none

-- The visits of `for_each`: each call of `pttl` may migrate the dictionary of times.
unfoldable pub collect : ℤ → List (DictEntry KevaObject) → KevaDatabase → KevaDatabase × List Saved
collect now_ms [] db = (db, [])
collect now_ms (e ∷ es) db =
    let (db', ttl_ms) = Db.pttl db e.key now_ms in
    let (db'', rest) = collect now_ms es db' in
    (
      db'',
      record { key = e.key; value = get_string_value e.value; expire = saved_time now_ms ttl_ms }
          ∷ rest,
    )

-- Everything in front of the checksum.
unfoldable pub write_body : ℕ → List Saved → Bytes
write_body db_id es =
    codes "KEVA" ++ (le_bytes 2 1 ++ (0xFE ∷ le_bytes 4 db_id ++ (write_entries es ++ (0xFF ∷ []))))

unfoldable pub write_file : ℕ → List Saved → Bytes
write_file db_id es = write_body db_id es ++ le_bytes 8 (crc64_update 0 (write_body db_id es))

-- The file of a database at a time.
unfoldable pub snapshot : ℤ → KevaDatabase → Bytes
snapshot now_ms db =
    write_file (db.db_id % 4294967296) (collect now_ms (Db.for_each db now_ms) db).1

-- The loop of `rdb_load`: how it ends, with the database as it is then.
pub data Loading : Type 0 where
  loaded : KevaDatabase → Bytes → Loading
  failed : KevaDatabase → Loading

-- `pending_expire` is -1 where there is none.
unfoldable pub load_entry : Clock → Bytes → Bytes → ℤ → KevaDatabase → KevaDatabase
load_entry clock key value pending db =
    let stored = Db.set db key (create_string value (lru_now clock)) in
    if eqb_ℤ pending (negsuc 0) then stored else Db.set_expire stored key pending

unfoldable pub read_pair : Bytes → Option ((Bytes × Bytes) × Bytes)
read_pair s = do (key, r) ← read_string s; (value, r') ← read_string r; some ((key, value), r')

-- Behind the opcode of an entry or of a time; other opcodes are skipped.
unfoldable pub on_opcode :
    (ℤ → Bytes → KevaDatabase → Loading) → Clock → ℕ → ℤ → Bytes → KevaDatabase → Loading
on_opcode again clock opcode pending s db =
    if opcode == 0x00
    then (elim (read_pair s) [
      | none ↦ failed db
      | some ((key, value), r) ↦ again (negsuc 0) r (load_entry clock key value pending db)
    ])
    else again pending s db

unfoldable pub read_time : Bytes → Option ((ℤ × ℕ) × Bytes)
read_time s = do
  (bs, r) ← read_bytes 8 s
  (opcode, r') ← read_u8 r
  some ((from_u64 (le_value bs), opcode), r')

unfoldable pub on_byte :
    (ℤ → Bytes → KevaDatabase → Loading) → Clock → Option (ℕ × Bytes) → ℤ → KevaDatabase → Loading
on_byte again clock none pending db = failed db
on_byte again clock (some (opcode, s)) pending db =
    if opcode == 0xFF
    then loaded db s
    else if opcode == 0xFE
    then (elim (read_bytes 4 s) [ none ↦ failed db | some (_, r) ↦ again pending r db ])
    else if opcode == 0xFC
    then (elim (read_time s) [
      | none ↦ failed db
      | some ((t, opcode'), r) ↦ on_opcode again clock opcode' t r db
    ])
    else on_opcode again clock opcode pending s db

-- Each turn reads a byte or more, so that the length of the file is fuel enough.
unfoldable pub load_loop : ℕ → Clock → ℤ → Bytes → KevaDatabase → Loading
load_loop zero clock pending s db = failed db
load_loop (suc fuel) clock pending s db =
    on_byte (load_loop fuel clock) clock (read_u8 s) pending db

-- The comparison of the checksum with that of the bytes read before it.
unfoldable pub verified : Bytes → Loading → KevaDatabase × Bool
verified file (failed db) = (db, false)
verified file (loaded db s) = (
  db,
  if ltb (length s) 8
      then false
      else le_value (take 8 s) == crc64_update 0 (take (length file - length s) file),
)

unfoldable pub rdb_load : Clock → Bytes → KevaDatabase → KevaDatabase × Bool
rdb_load clock file db =
    let r = drop 6 file in
    if ltb (length file) 6
    then (db, false)
    else if bytes_eq (take 4 file) (codes "KEVA") && leb (le_value (take 2 (drop 4 file))) 1
    then verified file (load_loop (length r + 1) clock (negsuc 0) r db)
    else (db, false)
