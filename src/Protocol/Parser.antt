-- ===== src/Protocol/Parser.antt =====
-- `RespParser` of src/protocol/resp_parser.cpp. A position in the input is given by the bytes from it
-- on (`input.substr(pos)`). The vector of an array's elements is reserved before any of them is
-- read: `reserve_limit` is the largest count that `std::vector::reserve` grants, and past it the
-- call throws.
pub mod Total
pub mod RoundTrip
use keva_db.Base.{
  ℕ, zero, suc, ◌+◌, ◌-◌, ◌*◌, Bool, true, false, ◌&&◌, ◌||◌, Option, none, some, List, [], ◌∷◌,
  ltb, ◌==◌, if◌then◌else◌, length, take, drop, Bytes, ◌>>=◌,
}
use keva_db.Base.Decimal.{from_chars}
use keva_db.Base.Int.{ℤ, pos, negsuc}
use keva_db.Protocol.RespTypes.{
  RespValue, RespValues, simple_string, error, integer, bulk_string, array, nil, none_left, value,
}

-- `ParseResult`, with the value and the bytes behind it. `thrown` is an exception that nothing
-- catches; `out_of_fuel` has no counterpart in the program.
pub data Parsed (A : Type 0) : Type 0 where
  complete : A → Bytes → Parsed A
  incomplete : Parsed A
  bad : Parsed A
  thrown : Parsed A
  out_of_fuel : Parsed A

abbrev pub and_then : {A B : Type 0} → Parsed A → (A → Bytes → Parsed B) → Parsed B
and_then (complete a rest) f = f a rest
and_then incomplete f = incomplete
and_then bad f = bad
and_then thrown f = thrown
and_then out_of_fuel f = out_of_fuel

-- The index of the first "\r\n".
unfoldable pub find_crlf : Bytes → Option ℕ
find_crlf [] = none
find_crlf (a ∷ []) = none
find_crlf (a ∷ b ∷ s) =
    let later = (do i ← find_crlf (b ∷ s); some (suc i)) in
    if a == b'\r' && b == b'\n' then some 0 else later

-- The line, and the input behind its "\r\n".
unfoldable pub parse_line : Bytes → Option (Bytes × Bytes)
parse_line s = do i ← find_crlf s; some (take i s, drop (i + 2) s)

-- The value of a line behind the prefix byte of a simple string, an error or an integer.
unfoldable pub simple_line : ℕ → Option (Bytes × Bytes) → Parsed RespValue
simple_line prefix none = incomplete
simple_line prefix (some (line, rest)) =
    if prefix == b'+'
    then complete (simple_string line) rest
    else if prefix == b'-'
    then complete (error line) rest
    else if prefix == b':'
    then (elim (from_chars line) [ none ↦ bad | some (n, _) ↦ complete (integer n) rest ])
    else bad

unfoldable pub parse_simple : ℕ → Bytes → Parsed RespValue
parse_simple prefix s = simple_line prefix (parse_line s)

-- The two bytes at the front of the input are "\r\n".
abbrev pub at_crlf : Bytes → Bool
at_crlf (a ∷ b ∷ s) = a == b'\r' && b == b'\n'
at_crlf _ = false

-- A length that was read is split into -1, any other negative number, and a size.
pub data Length : Type 0 where
  null_length : Length
  negative_length : Length
  size_length : ℕ → Length

unfoldable pub length_of : ℤ → Length
length_of (pos n) = size_length n
length_of (negsuc zero) = null_length
length_of (negsuc (suc n)) = negative_length

unfoldable pub length_line : Option (Bytes × Bytes) → Parsed Length
length_line none = incomplete
length_line (some (line, rest)) = elim (from_chars line) [
  | none ↦ bad
  | some (n, _) ↦ complete (length_of n) rest
]

-- The number on the line at the front of the input, after '$' or '*'.
unfoldable pub parse_length : Bytes → Parsed Length
parse_length s = length_line (parse_line s)

unfoldable pub payload : ℕ → Bytes → Parsed RespValue
payload n s =
    if ltb (length s) (n + 2)
    then incomplete
    else if at_crlf (drop n s)
    then complete (bulk_string (take n s)) (drop (n + 2) s)
    else bad

unfoldable pub bulk_of : Length → Bytes → Parsed RespValue
bulk_of null_length rest = complete nil rest
bulk_of negative_length rest = bad
bulk_of (size_length n) rest = payload n rest

unfoldable pub parse_bulk_string : Bytes → Parsed RespValue
parse_bulk_string s = and_then (parse_length s) bulk_of

-- `out_consumed`, for an input of `n` bytes.
unfoldable pub consumed : ℕ → Parsed RespValue → ℕ
consumed n (complete v rest) = n - length rest
consumed n _ = 0

module _ (reserve_limit : ℕ) where
  unfoldable pub array_of : (ℕ → Bytes → Parsed RespValues) → Length → Bytes → Parsed RespValue
  array_of loop null_length rest = complete nil rest
  array_of loop negative_length rest = bad
  array_of loop (size_length n) rest =
      if ltb reserve_limit n
      then thrown
      else (and_then (loop n rest) λ vs rest'. complete (array vs) rest')

  unfoldable pub parse_array : (ℕ → Bytes → Parsed RespValues) → Bytes → Parsed RespValue
  parse_array loop s = and_then (parse_length s) (array_of loop)

  -- The switch on the prefix, with the loop over the elements of an array as a parameter.
  unfoldable pub parse_prefix : (ℕ → Bytes → Parsed RespValues) → Bytes → Parsed RespValue
  parse_prefix loop [] = incomplete
  parse_prefix loop (c ∷ s) =
      if c == b'+' || (c == b'-' || c == b':')
      then parse_simple c s
      else if c == b'$'
      then parse_bulk_string s
      else if c == b'*'
      then parse_array loop s
      else bad

  -- A call leaves a part of the input that is no structural part of it, so calls cost fuel.
  unfoldable mutual
    pub parse_value : ℕ → Bytes → Parsed RespValue
    parse_value zero s = out_of_fuel
    parse_value (suc f) s = parse_prefix (parse_elements f) s

    pub parse_elements : ℕ → ℕ → Bytes → Parsed RespValues
    parse_elements zero n s = out_of_fuel
    parse_elements (suc f) zero s = complete none_left s
    parse_elements (suc f) (suc n) s =
        and_then (parse_value f s)
          λ v rest. and_then (parse_elements f n rest) λ vs rest'. complete (value v vs) rest'

  -- The outcome, with the number of bytes consumed.
  unfoldable pub parse : Bytes → Parsed RespValue × ℕ
  parse input = let r = parse_value (2 * length input + 1) input in (r, consumed (length input) r)
