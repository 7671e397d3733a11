-- ===== src/Tests/Protocols.antt =====
-- The wire format of src/protocol on fixed inputs.
use keva_db.Base.{◌≤◌, ◌≡◌, ◌≢◌, refl, ◌++◌, arith, Bytes, codes, length, take, drop}
use keva_db.Base.Decimal.{to_chars, from_chars}
use keva_db.Protocol.Encoder
use keva_db.Protocol.Parser
use keva_db.Protocol.Encoder.{encode, encode_all}
use keva_db.Protocol.Parser.{
  Parsed, complete, incomplete, out_of_fuel, parse, consumed, parse_prefix, parse_array,
  parse_length, length_line, parse_line, find_crlf, array_of, length_of, parse_bulk_string, bulk_of,
  payload,
}
use keva_db.Protocol.Parser.RoundTrip.{Writable, as_read, parse-encode}
use keva_db.Protocol.Parser.Total.{parse_total}
use keva_db.Protocol.RespTypes.{RespValue, bulk_string, array, none_left, value, count_values}

program : Unit {0}
unfolding encode Encoder.array_header Encoder.write_integer_line to_chars count_values
    Encoder.bulk_string parse Parser.parse_value consumed parse_prefix parse_array parse_length
    length_line parse_line find_crlf from_chars take array_of length_of drop parse_bulk_string
    bulk_of payload Writable
program = tt

abbrev get_k : RespValue
get_k = array (value (bulk_string (codes "GET")) (value (bulk_string (codes "k")) none_left))

abbrev wire : Bytes
wire = codes "*2\r\n$3\r\nGET\r\n$1\r\nk\r\n"

wire_of_get : encode get_k ≡ wire
unfolding program
wire_of_get = refl

wire_parses : parse 1000 (wire ++ codes "*1") ≡ (complete get_k (codes "*1"), length wire)
unfolding program
wire_parses = refl

wire_cut : (parse 1000 (codes "*2\r\n$3\r\nGE")).0 ≡ incomplete
unfolding program
wire_cut = refl

parse_total_example : ((parse 1000 wire).0 ≢ out_of_fuel) × ((parse 1000 wire).1 ≤ length wire)
parse_total_example = parse_total 1000 wire

parse-encode_example :
    parse 1000 (encode get_k ++ codes "*1")
    ≡ (complete (as_read get_k) (codes "*1"), length (encode get_k))
unfolding program
parse-encode_example =
    parse-encode 1000 get_k (codes "*1")
      (omega arith, omega arith, (omega arith, (omega arith, tt)))
