-- ===== src/Protocol/Parser/RoundTrip.antt =====
-- The parser reads back what the encoder writes.
use keva_db.Base.{
  ℕ, zero, suc, ◌+◌, ◌*◌, ◌≤◌, ◌<◌, ◌≡◌, refl, some, [], ◌∷◌, ◌++◌, append_assoc, append-nil, arith,
  length, length-append, drop, take-append, drop-append, Bytes, All, codes,
}
use keva_db.Base.Decimal.{from_chars, to_chars, from_chars-to_chars, NotCr, to_chars-NotCr}
use keva_db.Base.Int.{ℤ, pos, negsuc, InI64}
use keva_db.Protocol.Encoder
use keva_db.Protocol.Encoder.{encode, encode_all, crlf, write_integer_line}
use keva_db.Protocol.Parser.{
  Parsed, complete, find_crlf, parse_line, simple_line, parse_simple, null_length, length_of,
  length_line, parse_length, payload, bulk_of, parse_bulk_string, array_of, parse_array,
  parse_prefix, parse_value, parse_elements, parse, consumed,
}
use keva_db.Protocol.RespTypes.{
  RespValue, RespValues, simple_string, error, integer, bulk_string, array, nil, none_left, value,
  count_values,
}

find_crlf-line :
    (line rest : Bytes)
    → All NotCr line
    → find_crlf (line ++ b'\r' ∷ b'\n' ∷ rest) ≡ some (length line)
unfolding find_crlf
find_crlf-line [] rest h = refl
find_crlf-line (c ∷ []) rest h = ground arith
find_crlf-line (c ∷ d ∷ t) rest h = ground (arith, find_crlf-line (d ∷ t) rest h.1)

drop_line : (line rest : Bytes) → drop (length line + 2) (line ++ b'\r' ∷ b'\n' ∷ rest) ≡ rest
unfolding drop
drop_line [] rest = refl
drop_line (c ∷ line) rest =
    let e : suc (length line) + 2 ≡ suc (length line + 2) = omega arith in
    rw e (drop_line line rest)

parse_line_lem :
    (line rest : Bytes)
    → All NotCr line
    → parse_line (line ++ b'\r' ∷ b'\n' ∷ rest) ≡ some (line, rest)
unfolding parse_line
parse_line_lem line rest h =
    rw (find_crlf-line line rest h, take-append line (b'\r' ∷ b'\n' ∷ rest), drop_line line rest)

-- A line with a number, as `write_integer_line` writes it.
line_append :
    (n : ℤ) (rest : Bytes) → write_integer_line n ++ rest ≡ to_chars n ++ (b'\r' ∷ b'\n' ∷ rest)
unfolding write_integer_line
line_append n rest = append_assoc (to_chars n) crlf rest

from_chars_line : (n : ℤ) → InI64 n → from_chars (to_chars n) ≡ some (n, [])
from_chars_line n h = rw (append-nil (to_chars n)) at (from_chars-to_chars n [] h tt)

parse_length_lem :
    (n : ℤ) (rest : Bytes)
    → InI64 n
    → parse_length (write_integer_line n ++ rest) ≡ complete (length_of n) rest
unfolding parse_length length_line
parse_length_lem n rest h =
    rw (line_append n rest, parse_line_lem (to_chars n) rest (to_chars-NotCr n))
      (rw (from_chars_line n h, length_line))

payload_lem :
    (text rest : Bytes)
    → payload (length text) (text ++ b'\r' ∷ b'\n' ∷ rest) ≡ complete (bulk_string text) rest
unfolding payload
payload_lem text rest =
    rw
      (
        drop-append text (b'\r' ∷ b'\n' ∷ rest),
        take-append text (b'\r' ∷ b'\n' ∷ rest),
        drop_line text rest,
      )
      (ground (arith, length-append text (b'\r' ∷ b'\n' ∷ rest)))

-- The value as a reader sees it: the encoder puts "ERR " in front of the text of an error.
mutual
  pub as_read : RespValue → RespValue
  as_read (simple_string s) = simple_string s
  as_read (error s) = error (codes "ERR " ++ s)
  as_read (integer n) = integer n
  as_read (bulk_string s) = bulk_string s
  as_read nil = nil
  as_read (array vs) = array (all_as_read vs)

  pub all_as_read : RespValues → RespValues
  all_as_read none_left = none_left
  all_as_read (value v vs) = value (as_read v) (all_as_read vs)

-- What a value must be for the wire format to carry it: no carriage return in the text of a simple
-- string or an error, integers and sizes of 64 bits, and arrays that the reader can reserve.
module _ (reserve_limit : ℕ) where
  unfoldable mutual
    pub Writable : RespValue → Type 0
    Writable (simple_string s) = All NotCr s
    Writable (error s) = All NotCr s
    Writable (integer n) = InI64 n
    Writable (bulk_string s) = length s < 9223372036854775808
    Writable nil = Unit
    Writable (array vs) =
        (count_values vs ≤ reserve_limit) × (count_values vs < 9223372036854775808) × AllWritable vs

    pub AllWritable : RespValues → Type 0
    AllWritable none_left = Unit
    AllWritable (value v vs) = Writable v × AllWritable vs

-- Calls of the parser that a value takes, one inside the other.
mutual
  cost : RespValue → ℕ
  cost (array vs) = suc (cost_all vs)
  cost (simple_string s) = 1
  cost (error s) = 1
  cost (integer n) = 1
  cost (bulk_string s) = 1
  cost nil = 1

  cost_all : RespValues → ℕ
  cost_all none_left = 1
  cost_all (value v vs) = suc (cost v + cost_all vs)

cost_pos : (v : RespValue) → 0 < cost v
unfolding cost
cost_pos (array vs) = omega arith
cost_pos _ = omega arith

cost_all_pos : (vs : RespValues) → 0 < cost_all vs
unfolding cost
cost_all_pos none_left = omega arith
cost_all_pos (value v vs) = omega arith

length-line : (n : ℤ) → 2 ≤ length (write_integer_line n)
unfolding write_integer_line
length-line n = omega (arith, length-append (to_chars n) crlf)

-- The fuel that `parse` hands out pays for every value.
mutual
  unfolding cost encode Encoder.simple_string Encoder.error Encoder.integer Encoder.bulk_string
      Encoder.array_header

  cost-le : (v : RespValue) → cost v + 1 ≤ 2 * length (encode v)
  cost-le (array vs) = omega (
    arith,
    length-append (b'*' ∷ write_integer_line (pos (count_values vs))) (encode_all vs),
    length-line (pos (count_values vs)),
    cost_all-le vs,
  )
  cost-le (simple_string s) = omega arith
  cost-le (error s) = omega arith
  cost-le (integer n) = omega arith
  cost-le (bulk_string s) = omega arith
  cost-le nil = omega arith

  cost_all-le : (vs : RespValues) → cost_all vs ≤ 2 * length (encode_all vs) + 1
  cost_all-le none_left = omega arith
  cost_all-le (value v vs) =
      omega (arith, length-append (encode v) (encode_all vs), cost-le v, cost_all-le vs)

module _ (reserve_limit : ℕ) (loop : ℕ → Bytes → Parsed RespValues) (rest : Bytes) where
  simple_lem :
      (s : Bytes)
      → All NotCr s
      → parse_prefix reserve_limit loop (Encoder.simple_string s ++ rest)
        ≡ complete (simple_string s) rest
  unfolding parse_prefix parse_simple simple_line Encoder.simple_string
  simple_lem s h = rw (append_assoc s crlf rest, parse_line_lem s rest h)

  error_lem :
      (s : Bytes)
      → All NotCr s
      → parse_prefix reserve_limit loop (Encoder.error s ++ rest)
        ≡ complete (error (codes "ERR " ++ s)) rest
  unfolding parse_prefix parse_simple simple_line Encoder.error
  error_lem s h =
      let h' : All NotCr (codes "ERR " ++ s) =
        (omega arith, (omega arith, (omega arith, (omega arith, h)))) in
      rw (append_assoc s crlf rest, parse_line_lem (codes "ERR " ++ s) rest h')

  integer_lem :
      (n : ℤ)
      → InI64 n
      → parse_prefix reserve_limit loop (Encoder.integer n ++ rest) ≡ complete (integer n) rest
  unfolding parse_prefix parse_simple Encoder.integer
  integer_lem n h =
      rw (line_append n rest, parse_line_lem (to_chars n) rest (to_chars-NotCr n))
        (unfold simple_line in rw (from_chars_line n h, simple_line))

  bulk_lem :
      (s : Bytes)
      → length s < 9223372036854775808
      → parse_prefix reserve_limit loop (Encoder.bulk_string s ++ rest)
        ≡ complete (bulk_string s) rest
  unfolding parse_prefix parse_bulk_string bulk_of length_of Encoder.bulk_string
  bulk_lem s h =
      rw
        (
          append_assoc (write_integer_line (pos (length s))) (s ++ crlf) rest,
          append_assoc s crlf rest,
          parse_length_lem (pos (length s)) (s ++ b'\r' ∷ b'\n' ∷ rest) (h, omega arith),
        )
        (payload_lem s rest)

  minus_one : parse_length (b'-' ∷ b'1' ∷ b'\r' ∷ b'\n' ∷ rest) ≡ complete null_length rest
  unfolding write_integer_line to_chars length_of
  minus_one = parse_length_lem (negsuc 0) rest (omega arith)

  nil_lem : parse_prefix reserve_limit loop (Encoder.nil ++ rest) ≡ complete nil rest
  unfolding parse_prefix parse_bulk_string bulk_of length_of
  nil_lem =
      let e : parse_length (b'-' ∷ b'1' ∷ b'\r' ∷ b'\n' ∷ rest) ≡ complete null_length rest =
        minus_one in
      rw e

  array_lem :
      (n : ℕ) (vs : RespValues) (s : Bytes)
      → n ≤ reserve_limit
      → n < 9223372036854775808
      → loop n (s ++ rest) ≡ complete vs rest
      → parse_prefix reserve_limit loop ((Encoder.array_header (pos n) ++ s) ++ rest)
        ≡ complete (array vs) rest
  unfolding parse_prefix parse_array array_of length_of Encoder.array_header
  array_lem n vs s fits h read =
      rw
        (
          append_assoc (write_integer_line (pos n)) s rest,
          parse_length_lem (pos n) (s ++ rest) (h, omega arith),
          read,
        )
        (ground arith)

module _ (reserve_limit : ℕ) where
  mutual
    unfolding parse_value cost as_read encode Writable count_values

    parse_value-encode :
        (v : RespValue) (f : ℕ) (rest : Bytes)
        → Writable reserve_limit v
        → cost v ≤ f
        → parse_value reserve_limit f (encode v ++ rest) ≡ complete (as_read v) rest
    parse_value-encode v zero rest h le = absurd (omega (arith, cost_pos v))
    parse_value-encode (simple_string s) (suc f) rest h le =
        simple_lem reserve_limit (parse_elements reserve_limit f) rest s h
    parse_value-encode (error s) (suc f) rest h le =
        error_lem reserve_limit (parse_elements reserve_limit f) rest s h
    parse_value-encode (integer n) (suc f) rest h le =
        integer_lem reserve_limit (parse_elements reserve_limit f) rest n h
    parse_value-encode (bulk_string s) (suc f) rest h le =
        bulk_lem reserve_limit (parse_elements reserve_limit f) rest s h
    parse_value-encode nil (suc f) rest h le =
        nil_lem reserve_limit (parse_elements reserve_limit f) rest
    parse_value-encode (array vs) (suc f) rest h le =
        array_lem reserve_limit (parse_elements reserve_limit f) rest (count_values vs)
          (all_as_read vs) (encode_all vs) h.0 h.1
          (parse_elements-encode vs f rest h.2 (omega arith))

    parse_elements-encode :
        (vs : RespValues) (f : ℕ) (rest : Bytes)
        → AllWritable reserve_limit vs
        → cost_all vs ≤ f
        → parse_elements reserve_limit f (count_values vs) (encode_all vs ++ rest)
          ≡ complete (all_as_read vs) rest
    parse_elements-encode vs zero rest h le = absurd (omega (arith, cost_all_pos vs))
    parse_elements-encode none_left (suc f) rest h le = refl
    parse_elements-encode (value v vs) (suc f) rest h le = rw (
      append_assoc (encode v) (encode_all vs) rest,
      parse_value-encode v f (encode_all vs ++ rest) h.0 (omega arith),
      parse_elements-encode vs f rest h.1 (omega arith),
    )

  -- Parsing the encoding of a writable value, with any bytes behind it, gives the value (with ERR
  -- put before the text of an error) and consumes exactly the encoding.
  pub parse-encode :
      (v : RespValue) (rest : Bytes)
      → Writable reserve_limit v
      → parse reserve_limit (encode v ++ rest) ≡ (complete (as_read v) rest, length (encode v))
  unfolding parse consumed
  parse-encode v rest h =
      let e = length-append (encode v) rest in
      rw
        (parse_value-encode v (2 * length (encode v ++ rest) + 1) rest h (omega (arith, cost-le v)))
        (ground arith)
