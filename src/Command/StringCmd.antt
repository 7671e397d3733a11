-- ===== src/Command/StringCmd.antt =====
-- The handlers of src/command/handlers/string_cmd.cpp.
pub mod Texts
pub mod Counting
use keva_db.Base.{
  ℕ, zero, suc, ◌+◌, ◌-◌, ◌%◌, Bool, true, false, not, ◌&&◌, ◌||◌, Option, none, some, List, [],
  ◌∷◌, ◌++◌, ltb, leb, ◌==◌, if◌then◌else◌, length, drop, Bytes, bytes_eq, codes,
}
use keva_db.Base.Decimal.{from_chars}
use keva_db.Base.Int.{
  ℤ, pos, negsuc, ◌+ℤ◌, ◌-ℤ◌, ◌*ℤ◌, leb_ℤ, ltb_ℤ, eqb_ℤ, llong_max, llong_min, wrap_i64, pos_part,
  neg_part,
}
use keva_db.Command.Args.{
  Clock, Handler, arg, lru_now, to_upper, wrong_kind, not_an_integer, would_overflow, value_reply,
}
use keva_db.Core.Buffer.{try_parse_int}
use keva_db.Core.Db
use keva_db.Core.Db.{KevaDatabase}
use keva_db.Core.Object.{
  KevaObject, create_string, create_string_from_int, get_string_value, integer_value, is_int,
  is_string, payload_bytes,
}
use keva_db.Protocol.Encoder

-- The options of SET: the time to live in milliseconds, and the two conditions.
pub record SetOptions : Type 0 where
  pub expire_ms : ℤ
  pub nx : Bool
  pub xx : Bool

pub data OptionWord : Type 0 where
  ex_word px_word nx_word xx_word other_word : OptionWord

unfoldable pub option_word : Bytes → OptionWord
option_word text =
    let opt = to_upper text in
    if bytes_eq opt (codes "EX")
    then ex_word
    else if bytes_eq opt (codes "PX")
    then px_word
    else if bytes_eq opt (codes "NX")
    then nx_word
    else if bytes_eq opt (codes "XX")
    then xx_word
    else other_word

-- A number above 0 at the front of a text, as a time to live is read.
unfoldable pub positive_of : Option (ℤ × Bytes) → Option ℤ
positive_of none = none
positive_of (some (n, rest)) = if leb_ℤ n (pos 0) then none else some n

unfoldable pub positive : Bytes → Option ℤ
positive text = positive_of (from_chars text)

-- The loop over the arguments behind the value; `none` is the error of a bad time. A word without
-- an argument behind it sets no time, and an unknown word is skipped.
unfoldable pub set_options : List Bytes → SetOptions → Option SetOptions
set_options [] o = some o
set_options (a ∷ []) o = elim (option_word a) [
  | ex_word ↦ some o
  | px_word ↦ some o
  | nx_word ↦ some (record o { nx = true })
  | xx_word ↦ some (record o { xx = true })
  | other_word ↦ some o
]
set_options (a ∷ b ∷ rest) o = elim (option_word a) [
  | ex_word ↦ elim (positive b) [
    | none ↦ none
    | some secs ↦ set_options rest (record o { expire_ms = wrap_i64 (secs *ℤ 1000) })
  ]
  | px_word ↦ elim (positive b) [
    | none ↦ none
    | some ms ↦ set_options rest (record o { expire_ms = ms })
  ]
  | nx_word ↦ set_options (b ∷ rest) (record o { nx = true })
  | xx_word ↦ set_options (b ∷ rest) (record o { xx = true })
  | other_word ↦ set_options (b ∷ rest) o
]

abbrev pub no_options : SetOptions
no_options = record { expire_ms = negsuc 0; nx = false; xx = false }

unfoldable pub set_text : Clock → Bytes → Bytes → KevaDatabase → KevaDatabase
set_text clock key val db = Db.set db key (create_string val (lru_now clock))

-- `now_milliseconds() + ms`, of 64 bits.
unfoldable pub deadline : Clock → ℤ → ℤ
deadline clock ms = wrap_i64 (clock.now_ms +ℤ ms)

-- What follows the options of SET.
unfoldable pub set_with :
    Option SetOptions → Clock → Bytes → Bytes → KevaDatabase → KevaDatabase × Bytes
set_with none clock key val db = (db, Encoder.error (codes "invalid expire time in 'set' command"))
set_with (some o) clock key val db =
    let (looked, key_exists) = Db.exists db key clock.now_ms clock.seconds in
    let stored = set_text clock key val looked in
    if (o.nx && key_exists) || (o.xx && not key_exists) then (looked, Encoder.nil) else (
      (if ltb_ℤ (pos 0) o.expire_ms
          then Db.set_expire stored key (deadline clock o.expire_ms)
          else stored),
      Encoder.ok,
    )

unfoldable pub handle_set : Handler
handle_set clock args db =
    set_with (set_options (drop 3 args) no_options) clock (arg args 1) (arg args 2) db

unfoldable pub get_reply : Option KevaObject → Bytes
get_reply none = Encoder.nil
get_reply (some obj) = if is_string obj then value_reply obj else wrong_kind

unfoldable pub handle_get : Handler
handle_get clock args db =
    let (db', obj) = Db.get db (arg args 1) clock.now_ms clock.seconds in (db', get_reply obj)

-- A key that is missing, or one that holds a string.
unfoldable pub string_or_missing : Option KevaObject → Bool
string_or_missing none = true
string_or_missing (some obj) = is_string obj

unfoldable pub handle_getset : Handler
handle_getset clock args db =
    let (looked, old) = Db.get db (arg args 1) clock.now_ms clock.seconds in
    if string_or_missing old
    then (set_text clock (arg args 1) (arg args 2) looked, get_reply old)
    else (looked, wrong_kind)

-- The pairs of MSET, from the first argument on.
unfoldable pub set_pairs : Clock → List Bytes → KevaDatabase → KevaDatabase
set_pairs clock [] db = db
set_pairs clock (k ∷ []) db = db
set_pairs clock (k ∷ v ∷ rest) db = set_pairs clock rest (set_text clock k v db)

unfoldable pub handle_mset : Handler
handle_mset clock args db =
    if length args % 2 == 1
    then (set_pairs clock (drop 1 args) db, Encoder.ok)
    else (db, Encoder.error (codes "wrong number of arguments for MSET"))

unfoldable pub mget_reply : Option KevaObject → Bytes
mget_reply none = Encoder.nil
mget_reply (some obj) = if is_string obj then value_reply obj else Encoder.nil

unfoldable pub get_each : Clock → List Bytes → KevaDatabase → KevaDatabase × Bytes
get_each clock [] db = (db, [])
get_each clock (k ∷ ks) db =
    let (db', obj) = Db.get db k clock.now_ms clock.seconds in
    let (db'', out) = get_each clock ks db' in (db'', mget_reply obj ++ out)

unfoldable pub handle_mget : Handler
handle_mget clock args db =
    let (db', out) = get_each clock (drop 1 args) db in
    (db', Encoder.array_header (pos (length args - 1)) ++ out)

-- The text that APPEND leaves under the key.
unfoldable pub appended : Option KevaObject → Bytes → Bytes
appended none val = val
appended (some obj) val = get_string_value obj ++ val

unfoldable pub handle_append : Handler
handle_append clock args db =
    let (looked, obj) = Db.get db (arg args 1) clock.now_ms clock.seconds in
    let text = appended obj (arg args 2) in
    if string_or_missing obj
    then (set_text clock (arg args 1) text looked, Encoder.integer (pos (length text)))
    else (looked, wrong_kind)

unfoldable pub strlen_reply : Option KevaObject → Bytes
strlen_reply none = Encoder.integer (pos 0)
strlen_reply (some obj) =
    if is_string obj then Encoder.integer (pos (length (get_string_value obj))) else wrong_kind

unfoldable pub handle_strlen : Handler
handle_strlen clock args db =
    let (db', obj) = Db.get db (arg args 1) clock.now_ms clock.seconds in (db', strlen_reply obj)

-- The integer of a key; a missing key counts as 0.
unfoldable pub get_integer_obj : Option KevaObject → Option ℤ
get_integer_obj none = some (pos 0)
get_integer_obj (some obj) =
    if is_string obj
    then if is_int obj then some (integer_value obj) else try_parse_int (payload_bytes obj.ptr)
    else none

unfoldable pub store_integer : Clock → Bytes → ℤ → KevaDatabase → KevaDatabase × Bytes
store_integer clock key n db =
    (Db.set db key (create_string_from_int n (lru_now clock)), Encoder.integer n)

-- Whether an integer is an `int64_t`.
abbrev pub in_range : ℤ → Bool
in_range n = ltb (pos_part n) 9223372036854775808 && leb (neg_part n) 9223372036854775808

-- The end of the four arithmetic commands, from the current value on: `refused` is the overflow
-- test, `result` the new value.
unfoldable pub arithmetic :
    (ℤ → Bool) → (ℤ → ℤ) → Clock → Bytes → Option ℤ → KevaDatabase → KevaDatabase × Bytes
arithmetic refused result clock key none db = (db, not_an_integer)
arithmetic refused result clock key (some current) db =
    if refused current then (db, would_overflow) else store_integer clock key (result current) db

unfoldable pub on_integer :
    (ℤ → Bool) → (ℤ → ℤ) → Clock → Bytes → KevaDatabase → KevaDatabase × Bytes
on_integer refused result clock key db =
    let (looked, obj) = Db.get db key clock.now_ms clock.seconds in
    arithmetic refused result clock key (get_integer_obj obj) looked

unfoldable pub handle_incr : Handler
handle_incr clock args db =
    on_integer (λ n. eqb_ℤ n llong_max) (λ n. wrap_i64 (n +ℤ pos 1)) clock (arg args 1) db

unfoldable pub handle_decr : Handler
handle_decr clock args db =
    on_integer (λ n. eqb_ℤ n llong_min) (λ n. wrap_i64 (n -ℤ pos 1)) clock (arg args 1) db

-- The overflow test of INCRBY.
unfoldable pub add_overflows : ℤ → ℤ → Bool
add_overflows increment current =
    (ltb_ℤ (pos 0) increment && ltb_ℤ (llong_max -ℤ increment) current)
    || (ltb_ℤ increment (pos 0) && ltb_ℤ current (llong_min -ℤ increment))

unfoldable pub incrby_of : Option (ℤ × Bytes) → Clock → Bytes → KevaDatabase → KevaDatabase × Bytes
incrby_of none clock key db = (db, not_an_integer)
incrby_of (some (increment, rest)) clock key db =
    on_integer (add_overflows increment) (λ n. wrap_i64 (n +ℤ increment)) clock key db

unfoldable pub handle_incrby : Handler
handle_incrby clock args db = incrby_of (from_chars (arg args 2)) clock (arg args 1) db

-- The difference of two `int64_t`. Where it is no `int64_t`, C++ leaves the subtraction undefined,
-- and the value comes from `overflowed`, what a build makes of it.
unfoldable pub difference : (ℤ → ℤ → ℤ) → ℤ → ℤ → ℤ
difference overflowed a b = if in_range (a -ℤ b) then a -ℤ b else overflowed a b

-- DECRBY has no overflow test.
unfoldable pub decrby_of :
    (ℤ → ℤ → ℤ) → Option (ℤ × Bytes) → Clock → Bytes → KevaDatabase → KevaDatabase × Bytes
decrby_of overflowed none clock key db = (db, not_an_integer)
decrby_of overflowed (some (decrement, rest)) clock key db =
    on_integer (λ _. false) (λ n. difference overflowed n decrement) clock key db

unfoldable pub handle_decrby : (ℤ → ℤ → ℤ) → Handler
handle_decrby overflowed clock args db =
    decrby_of overflowed (from_chars (arg args 2)) clock (arg args 1) db

-- SETEX and PSETEX, from the time on.
unfoldable pub set_until :
    Option ℤ → Bytes → Clock → Bytes → Bytes → KevaDatabase → KevaDatabase × Bytes
set_until none failure clock key val db = (db, failure)
set_until (some ms) failure clock key val db =
    (Db.set_expire (set_text clock key val db) key (deadline clock ms), Encoder.ok)

unfoldable pub in_milliseconds : Option ℤ → Option ℤ
in_milliseconds none = none
in_milliseconds (some seconds) = some (wrap_i64 (seconds *ℤ 1000))

unfoldable pub handle_setex : Handler
handle_setex clock args db =
    set_until (in_milliseconds (positive (arg args 2)))
      (Encoder.error (codes "invalid expire time in 'setex' command")) clock (arg args 1)
      (arg args 3) db

unfoldable pub handle_psetex : Handler
handle_psetex clock args db =
    set_until (positive (arg args 2))
      (Encoder.error (codes "invalid expire time in 'psetex' command")) clock (arg args 1)
      (arg args 3) db

unfoldable pub handle_setnx : Handler
handle_setnx clock args db =
    let (looked, key_exists) = Db.exists db (arg args 1) clock.now_ms clock.seconds in
    if key_exists
    then (looked, Encoder.integer (pos 0))
    else (set_text clock (arg args 1) (arg args 2) looked, Encoder.integer (pos 1))
