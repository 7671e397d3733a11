-- ===== src/Protocol/Encoder.antt =====
-- `RespEncoder` of src/protocol/resp_encoder.cpp. Each function is given by the bytes that its calls
-- of `append_response` add to the write buffer, in order.
use keva_db.Base.{[], ◌∷◌, ◌++◌, Bytes, codes, length}
use keva_db.Base.Decimal.{to_chars}
use keva_db.Base.Int.{ℤ, pos}
use keva_db.Protocol.RespTypes
use keva_db.Protocol.RespTypes.{RespValue, RespValues, count_values}

abbrev pub crlf : Bytes
crlf = b'\r' ∷ b'\n' ∷ []

unfoldable pub write_integer_line : ℤ → Bytes
write_integer_line n = to_chars n ++ crlf

abbrev pub ok : Bytes
ok = codes "+OK" ++ crlf

unfoldable pub simple_string : Bytes → Bytes
simple_string msg = b'+' ∷ msg ++ crlf

unfoldable pub error : Bytes → Bytes
error msg = codes "-ERR " ++ (msg ++ crlf)

unfoldable pub wrong_type : Bytes → Bytes
wrong_type msg = codes "-WRONGTYPE " ++ (msg ++ crlf)

unfoldable pub integer : ℤ → Bytes
integer value = b':' ∷ write_integer_line value

unfoldable pub bulk_string : Bytes → Bytes
bulk_string text = b'$' ∷ write_integer_line (pos (length text)) ++ (text ++ crlf)

abbrev pub nil : Bytes
nil = codes "$-1" ++ crlf

unfoldable pub array_header : ℤ → Bytes
array_header count = b'*' ∷ write_integer_line count

abbrev pub nil_array : Bytes
nil_array = codes "*-1" ++ crlf

unfoldable mutual
  pub encode : RespValue → Bytes
  encode (RespTypes.simple_string s) = simple_string s
  encode (RespTypes.error s) = error s
  encode (RespTypes.integer n) = integer n
  encode (RespTypes.bulk_string s) = bulk_string s
  encode RespTypes.nil = nil
  encode (RespTypes.array vs) = array_header (pos (count_values vs)) ++ encode_all vs

  pub encode_all : RespValues → Bytes
  encode_all RespTypes.none_left = []
  encode_all (RespTypes.value v vs) = encode v ++ encode_all vs
