-- ===== src/Core/Object/Text.antt =====
-- The text that a string object gives back, against the text that it was made from.
use keva_db.Base.{
  ℕ, suc, ◌≡◌, refl, sym, ap, ◌∙◌, inl, inr, true, false, ◌||◌, Option, none, some, [], ◌∷◌, ltb,
  leb, ◌==◌, Bool-cases, length, Bytes, arith, append-nil,
}
use keva_db.Base.Decimal.{from_chars, to_chars, from_chars-to_chars}
use keva_db.Base.Int.{ℤ, InI64}
use keva_db.Core.Buffer.{from_view, try_parse_int, whole}
use keva_db.Core.Object.{
  KevaObject, ObjectEncoding, raw, int, embstr, string_type, buffer_payload, int_payload, type_code,
  touch, encoding_code, alloc_object, create_string, create_string_from_int, string_from,
  embstr_max_len, get_string_value, integer_value, is_int, is_string, string_view, payload_bytes,
  payload_int,
}
use keva_db.Core.Object.Header.{alloc_object_fields, touch_fields}

-- An integer's text for what parses as one, and the text itself otherwise.
unfoldable pub text_or : Option ℤ → Bytes → Bytes
text_or none s = s
text_or (some n) s = to_chars n

unfoldable pub stored_text : Bytes → Bytes
stored_text s = text_or (try_parse_int s) s

from_view-bytes : (s : Bytes) → (from_view s).bytes ≡ s
unfolding from_view
from_view-bytes [] = refl
from_view-bytes (c ∷ s) = let e : (suc (length s) == 0) ≡ false = ground arith in rw e refl

pub create_string_from_int_fields :
    (n : ℤ) (clock : ℕ)
    → let o = create_string_from_int n clock in
      (is_string o ≡ true)
      × (is_int o ≡ true)
      × (integer_value o ≡ n)
      × (get_string_value o ≡ to_chars n)
unfolding create_string_from_int get_string_value integer_value payload_int type_code encoding_code
create_string_from_int_fields n clock =
    let (t, e, l, p) = alloc_object_fields string_type int clock (int_payload n) in
    (rw t refl, rw e refl, rw p refl, rw (e, p) refl)

text_object :
    (e : ObjectEncoding) (s : Bytes) (clock : ℕ)
    → (encoding_code e == 1) ≡ false
    → let o = alloc_object string_type e clock (buffer_payload (from_view s)) in
      (is_string o ≡ true) × (get_string_value o ≡ s)
unfolding get_string_value string_view payload_bytes type_code encoding_code
text_object e s clock other =
    let (t, c, l, p) = alloc_object_fields string_type e clock (buffer_payload (from_view s)) in
    (rw t refl, rw (c, other, p) (from_view-bytes s))

string_from_text :
    (r : Option ℤ) (s : Bytes) (clock : ℕ)
    → (is_string (string_from r s clock) ≡ true)
      × (get_string_value (string_from r s clock) ≡ text_or r s)
unfolding string_from text_or encoding_code
string_from_text (some n) s clock =
    let (t, i, v, g) = create_string_from_int_fields n clock in (t, g)
string_from_text none s clock = elim (Bool-cases (leb (length s) embstr_max_len)) [
  | inl short ↦ rw short (text_object embstr s clock refl)
  | inr long ↦ rw long (text_object raw s clock refl)
]

-- An object made from a text is a string and gives that text back, or the text of the integer
-- that the text parses as.
pub create_string_text :
    (s : Bytes) (clock : ℕ)
    → (is_string (create_string s clock) ≡ true)
      × (get_string_value (create_string s clock) ≡ stored_text s)
unfolding create_string stored_text
create_string_text s clock = string_from_text (try_parse_int s) s clock

-- The decimal text of every int64 is stored and given back unchanged.
pub stored_text-to_chars : (n : ℤ) → InI64 n → stored_text (to_chars n) ≡ to_chars n
unfolding stored_text text_or try_parse_int whole
stored_text-to_chars n fits =
    let s = to_chars n in
    let parsed : from_chars s ≡ some (n, []) =
      ap from_chars (sym (append-nil s)) ∙ from_chars-to_chars n [] fits tt in
    elim (Bool-cases (length s == 0 || ltb 20 (length s))) [
      | inl refused ↦ rw refused refl
      | inr accepted ↦ rw (accepted, parsed) refl
    ]

-- A touch does not change what an object holds.
pub touch_text :
    (clock : ℕ) (o : KevaObject)
    → (is_string (touch clock o) ≡ is_string o)
      × (is_int (touch clock o) ≡ is_int o)
      × (get_string_value (touch clock o) ≡ get_string_value o)
unfolding get_string_value integer_value string_view
touch_text clock o =
    let (t, e, l, p) = touch_fields clock o in (rw t refl, rw e refl, rw (e, p) refl)
