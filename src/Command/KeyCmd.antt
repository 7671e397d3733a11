-- ===== src/Command/KeyCmd.antt =====
-- The handlers of src/command/handlers/key_cmd.cpp.
pub mod Glob
pub mod Keys
use keva_db.Base.{
  ℕ, zero, suc, ◌+◌, ◌/◌, Bool, true, false, ◌&&◌, ◌||◌, Option, none, some, List, [], ◌∷◌, ◌++◌,
  ◌==◌, if◌then◌else◌, length, drop, Bytes, codes,
}
use keva_db.Base.Decimal.{from_chars}
use keva_db.Base.Int.{ℤ, pos, negsuc, ◌-ℤ◌, ◌*ℤ◌, wrap_i64}
use keva_db.Command.Args.{Clock, Handler, arg, lru_now, not_an_integer}
use keva_db.Command.StringCmd.{deadline}
use keva_db.Core.Chain.{DictEntry}
use keva_db.Core.Db
use keva_db.Core.Db.{KevaDatabase}
use keva_db.Core.Object.{
  KevaObject, create_string, create_string_from_int, integer_value, is_int, string_view, type_bits,
  type_code, string_type, list_type, set_type, zset_type, hash_type,
}
use keva_db.Protocol.Encoder

-- The loop of `glob_match` over the suffixes of a text, the text itself first.
unfoldable pub any_suffix : (Bytes → Bool) → Bytes → Bool
any_suffix p [] = p []
any_suffix p (c ∷ s) = p (c ∷ s) || any_suffix p s

-- A byte of the pattern other than '*' against the front of the text.
unfoldable pub match_one : (Bytes → Bool) → ℕ → Bytes → Bool
match_one p a [] = false
match_one p a (c ∷ s) = (a == b'?' || a == c) && p s

unfoldable pub glob_match : Bytes → Bytes → Bool
glob_match [] [] = true
glob_match [] (c ∷ s) = false
glob_match (a ∷ pattern) s =
    let rest = glob_match pattern in if a == b'*' then any_suffix rest s else match_one rest a s

unfoldable pub del_each : List Bytes → KevaDatabase → KevaDatabase × ℕ
del_each [] db = (db, 0)
del_each (k ∷ ks) db =
    let (db', existed) = Db.del db k in
    let (db'', deleted) = del_each ks db' in (db'', (if existed then 1 else 0) + deleted)

unfoldable pub handle_del : Handler
handle_del clock args db =
    let (db', deleted) = del_each (drop 1 args) db in (db', Encoder.integer (pos deleted))

unfoldable pub count_each : Clock → List Bytes → KevaDatabase → KevaDatabase × ℕ
count_each clock [] db = (db, 0)
count_each clock (k ∷ ks) db =
    let (db', here) = Db.exists db k clock.now_ms clock.seconds in
    let (db'', count) = count_each clock ks db' in (db'', (if here then 1 else 0) + count)

unfoldable pub handle_exists : Handler
handle_exists clock args db =
    let (db', count) = count_each clock (drop 1 args) db in (db', Encoder.integer (pos count))

-- The switch on the type has no default, so other bits write nothing.
unfoldable pub type_reply : Option KevaObject → Bytes
type_reply none = Encoder.simple_string (codes "none")
type_reply (some obj) =
    let t = type_bits obj in
    if t == type_code string_type
    then Encoder.simple_string (codes "string")
    else if t == type_code list_type
    then Encoder.simple_string (codes "list")
    else if t == type_code set_type
    then Encoder.simple_string (codes "set")
    else if t == type_code zset_type
    then Encoder.simple_string (codes "zset")
    else if t == type_code hash_type
    then Encoder.simple_string (codes "hash")
    else []

unfoldable pub handle_type : Handler
handle_type clock args db =
    let (db', obj) = Db.peek db (arg args 1) clock.now_ms in (db', type_reply obj)

-- The three commands that set an expiry time, from the number on; `at` gives the time.
unfoldable pub expire_at :
    (ℤ → ℤ) → Option (ℤ × Bytes) → Clock → Bytes → KevaDatabase → KevaDatabase × Bytes
expire_at at none clock key db = (db, not_an_integer)
expire_at at (some (n, rest)) clock key db =
    let (looked, here) = Db.exists db key clock.now_ms clock.seconds in
    if here
    then (Db.set_expire looked key (at n), Encoder.integer (pos 1))
    else (looked, Encoder.integer (pos 0))

unfoldable pub handle_expire : Handler
handle_expire clock args db =
    expire_at (λ seconds. deadline clock (wrap_i64 (seconds *ℤ 1000))) (from_chars (arg args 2))
      clock (arg args 1) db

unfoldable pub handle_pexpire : Handler
handle_pexpire clock args db =
    expire_at (deadline clock) (from_chars (arg args 2)) clock (arg args 1) db

unfoldable pub handle_expireat : Handler
handle_expireat clock args db =
    expire_at (λ ts. wrap_i64 (ts *ℤ 1000)) (from_chars (arg args 2)) clock (arg args 1) db

-- Whole seconds of a time to live, rounded to 0; -1 and -2 are passed on.
unfoldable pub ttl_seconds : ℤ → ℤ
ttl_seconds (pos ms) = pos (ms / 1000)
ttl_seconds (negsuc n) = if n == 0 || n == 1 then negsuc n else pos 0 -ℤ pos ((n + 1) / 1000)

unfoldable pub handle_ttl : Handler
handle_ttl clock args db =
    let (db', pttl_ms) = Db.pttl db (arg args 1) clock.now_ms in
    (db', Encoder.integer (ttl_seconds pttl_ms))

unfoldable pub handle_pttl : Handler
handle_pttl clock args db =
    let (db', pttl_ms) = Db.pttl db (arg args 1) clock.now_ms in (db', Encoder.integer pttl_ms)

unfoldable pub handle_persist : Handler
handle_persist clock args db =
    let (looked, here) = Db.exists db (arg args 1) clock.now_ms clock.seconds in
    if here
    then (Db.remove_expire looked (arg args 1), Encoder.integer (pos 1))
    else (looked, Encoder.integer (pos 0))

-- The keys of the entries that match.
unfoldable pub matching_keys : Bytes → List (DictEntry KevaObject) → List Bytes
matching_keys pattern [] = []
matching_keys pattern (e ∷ es) =
    let rest = matching_keys pattern es in if glob_match pattern e.key then e.key ∷ rest else rest

unfoldable pub bulk_strings : List Bytes → Bytes
bulk_strings [] = []
bulk_strings (k ∷ ks) = Encoder.bulk_string k ++ bulk_strings ks

unfoldable pub handle_keys : Handler
handle_keys clock args db =
    let matches = matching_keys (arg args 1) (Db.for_each db clock.now_ms) in
    (db, Encoder.array_header (pos (length matches)) ++ bulk_strings matches)

-- The copy of an object that RENAME stores.
unfoldable pub copy_of : Clock → KevaObject → KevaObject
copy_of clock obj =
    if is_int obj
    then create_string_from_int (integer_value obj) (lru_now clock)
    else create_string (string_view obj) (lru_now clock)

unfoldable pub rename_found :
    Option KevaObject → Clock → Bytes → Bytes → KevaDatabase → KevaDatabase × Bytes
rename_found none clock key newkey db = (db, Encoder.error (codes "no such key"))
rename_found (some obj) clock key newkey db =
    (Db.set (Db.del db key).0 newkey (copy_of clock obj), Encoder.ok)

unfoldable pub handle_rename : Handler
handle_rename clock args db =
    let (looked, obj) = Db.get db (arg args 1) clock.now_ms clock.seconds in
    rename_found obj clock (arg args 1) (arg args 2) looked

unfoldable pub handle_dbsize : Handler
handle_dbsize clock args db = (db, Encoder.integer (pos (Db.dbsize db)))
