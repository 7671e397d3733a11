-- ===== src/Core/Object/Header.antt =====
-- The header word holds three fields that do not disturb one another.
use keva_db.Base.{ℕ, ◌%◌, ◌<◌, ◌≡◌, refl, arith}
use keva_db.Core.Object.{
  ObjectType, string_type, ObjectEncoding, raw, type_code, encoding_code, Payload, KevaObject,
  type_bits, encoding_bits, lru, with_type, with_encoding, with_lru, touch, current_lru,
  alloc_object,
}

type_code-lt : (t : ObjectType) → type_code t < 16
unfolding type_code
type_code-lt string_type = omega arith
type_code-lt _ = omega arith

encoding_code-lt : (e : ObjectEncoding) → encoding_code e < 16
unfolding encoding_code
encoding_code-lt raw = omega arith
encoding_code-lt _ = omega arith

-- A fresh object has the type, the encoding, the low 24 bits of the clock and the payload that it
-- was made with.
pub alloc_object_fields :
    (t : ObjectType) (e : ObjectEncoding) (clock : ℕ) (p : Payload)
    → let o = alloc_object t e clock p in
      (type_bits o ≡ type_code t)
      × (encoding_bits o ≡ encoding_code e)
      × (lru o ≡ clock % 16777216)
      × (o.ptr ≡ p)
unfolding alloc_object with_type with_encoding with_lru type_bits encoding_bits lru
alloc_object_fields t e clock p =
    let a = type_code-lt t in
    let b = encoding_code-lt e in (omega arith, omega arith, omega arith, refl)

-- A touch changes the clock of an object, to the low 24 bits of what it is given, and leaves its
-- type, encoding and payload alone.
pub touch_fields :
    (clock : ℕ) (o : KevaObject)
    → (type_bits (touch clock o) ≡ type_bits o)
      × (encoding_bits (touch clock o) ≡ encoding_bits o)
      × (lru (touch clock o) ≡ clock % 16777216)
      × ((touch clock o).ptr ≡ o.ptr)
unfolding touch with_lru type_bits encoding_bits lru
touch_fields clock o = (omega arith, omega arith, omega arith, refl)

-- At every time, an access records the clock 0: the mask of lru_clock::current keeps one bit, which
-- lies above the 24 bits of the header.
pub lru-touch_current : (seconds : ℕ) (o : KevaObject) → lru (touch (current_lru seconds) o) ≡ 0
unfolding touch with_lru lru current_lru
lru-touch_current seconds o = omega arith
