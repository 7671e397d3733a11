-- ===== src/Core/Object.antt =====
-- `KevaObject` of src/core/object.cpp and include/keva/core/object.hpp: a packed header word and a
-- payload. Masks and shifts of the 32-bit header are written as quotients and remainders.
pub mod Header
pub mod Text
use keva_db.Base.{
  ℕ, zero, suc, ◌+◌, ◌-◌, ◌*◌, ◌/◌, ◌%◌, ◌^◌, Bool, true, false, Option, none, some, List, [], ◌∷◌,
  ltb, leb, ◌==◌, if◌then◌else◌, length, Bytes,
}
use keva_db.Base.Decimal.{to_chars}
use keva_db.Base.Int.{ℤ, pos}
use keva_db.Core.Buffer.{Buffer, from_view, try_parse_int}

pub data ObjectType : Type 0 where
  string_type list_type set_type zset_type hash_type : ObjectType

pub data ObjectEncoding : Type 0 where
  raw int embstr : ObjectEncoding

-- The numbers of the enumerations.
unfoldable pub type_code : ObjectType → ℕ
type_code string_type = 0
type_code list_type = 1
type_code set_type = 2
type_code zset_type = 3
type_code hash_type = 4

unfoldable pub encoding_code : ObjectEncoding → ℕ
encoding_code raw = 0
encoding_code int = 1
encoding_code embstr = 2

-- What `ptr` holds: the integer itself, or a buffer, in a block of its own or behind the header.
pub data Payload : Type 0 where
  int_payload : ℤ → Payload
  buffer_payload : Buffer → Payload

pub record KevaObject : Type 0 where
  pub meta : ℕ
  pub refcount : ℕ
  pub ptr : Payload

-- `meta & 0xF`, `(meta >> 4) & 0xF` and `(meta >> 8) & 0xFFFFFF`: the casts to the enumerations
-- are left to the comparisons with `type_code` and `encoding_code`.
unfoldable pub type_bits : KevaObject → ℕ
type_bits o = o.meta % 16

unfoldable pub encoding_bits : KevaObject → ℕ
encoding_bits o = o.meta / 16 % 16

unfoldable pub lru : KevaObject → ℕ
lru o = o.meta / 256 % 16777216

unfoldable pub with_type : ObjectType → KevaObject → KevaObject
with_type t o = record o { meta = o.meta / 16 * 16 + type_code t % 16 }

unfoldable pub with_encoding : ObjectEncoding → KevaObject → KevaObject
with_encoding e o = record o { meta = o.meta / 256 * 256 + encoding_code e % 16 * 16 + o.meta % 16 }

unfoldable pub with_lru : ℕ → KevaObject → KevaObject
with_lru lru_val o = record o { meta = o.meta % 256 + lru_val % 16777216 * 256 }

-- `touch`
unfoldable pub touch : ℕ → KevaObject → KevaObject
touch clock o = with_lru clock o

-- `lru_clock::current()` at a Unix time in seconds: `LRU_CLOCK_MAX` is `1 << 24`, so that the mask
-- keeps one bit.
unfoldable pub current_lru : ℕ → ℕ
current_lru seconds = seconds % 4294967296 / 16777216 % 2 * 16777216

-- `lru_clock::idle_seconds`
unfoldable pub idle_seconds : ℕ → ℕ → ℕ
idle_seconds seconds obj_lru =
    let now = current_lru seconds in
    if leb obj_lru now then now - obj_lru else (16777216 + 4294967296 - obj_lru + now) % 4294967296

-- A fresh header, and the three calls that fill it in.
unfoldable pub alloc_object : ObjectType → ObjectEncoding → ℕ → Payload → KevaObject
alloc_object t e clock p =
    with_lru clock (with_encoding e (with_type t (record { meta = 0; refcount = 1; ptr = p })))

-- The longest text that is stored behind its header: `EMBSTR_MAX_LEN`.
abbrev pub embstr_max_len : ℕ
embstr_max_len = 44

unfoldable pub create_string_from_int : ℤ → ℕ → KevaObject
create_string_from_int n clock = alloc_object string_type int clock (int_payload n)

-- `create_string`, from the result of the attempt to read the text as an integer on.
unfoldable pub string_from : Option ℤ → Bytes → ℕ → KevaObject
string_from (some n) sv clock = create_string_from_int n clock
string_from none sv clock =
    let text = buffer_payload (from_view sv) in
    if leb (length sv) embstr_max_len
    then alloc_object string_type embstr clock text
    else alloc_object string_type raw clock text

unfoldable pub create_string : Bytes → ℕ → KevaObject
create_string sv clock = string_from (try_parse_int sv) sv clock

-- The pointer is read as a buffer. (An integer there would be read as an address: the factories
-- never pair an integer with another encoding.)
unfoldable pub payload_bytes : Payload → Bytes
payload_bytes (buffer_payload b) = b.bytes
payload_bytes (int_payload n) = []

-- Empty for the encoding `int`.
unfoldable pub string_view : KevaObject → Bytes
string_view o = if encoding_bits o == encoding_code int then [] else payload_bytes o.ptr

-- `bit_cast<i64>(ptr)`
unfoldable pub payload_int : Payload → ℤ
payload_int (int_payload n) = n
payload_int (buffer_payload b) = pos 0

unfoldable pub integer_value : KevaObject → ℤ
integer_value o = payload_int o.ptr

abbrev pub is_int : KevaObject → Bool
is_int o = encoding_bits o == encoding_code int

abbrev pub is_string : KevaObject → Bool
is_string o = type_bits o == type_code string_type

-- `get_string_value` of src/command/handlers/string_cmd.cpp, which the handlers repeat in place.
unfoldable pub get_string_value : KevaObject → Bytes
get_string_value o = if is_int o then to_chars (integer_value o) else string_view o
