-- ===== src/Command/Args.antt =====
-- What the handlers share: the arguments, the clock, and the texts of their replies.
use keva_db.Base.{ℕ, ◌-◌, ◌&&◌, List, [], map, leb, if◌then◌else◌, get_or, Bytes, codes}
use keva_db.Base.Int.{ℤ}
use keva_db.Core.Db.{KevaDatabase}
use keva_db.Core.Object.{KevaObject, get_string_value, current_lru}
use keva_db.Protocol.Encoder

-- The readings of the two clocks during a command: milliseconds, and seconds for `lru_clock`.
pub record Clock : Type 0 where
  pub now_ms : ℤ
  pub seconds : ℕ

-- What a handler does: the database afterwards, and the bytes of its reply. `args` are the texts
-- of `cmd.elements`.
abbrev pub Handler : Type 0
Handler = Clock → List Bytes → KevaDatabase → KevaDatabase × Bytes

-- `elements[i].str`; the arity check before the handler keeps `i` in range.
abbrev pub arg : List Bytes → ℕ → Bytes
arg args i = get_or args i []

-- `lru_clock::current()`
abbrev pub lru_now : Clock → ℕ
lru_now clock = current_lru clock.seconds

-- `std::toupper` in the C locale, over a whole text.
unfoldable pub to_upper : Bytes → Bytes
to_upper s = map (λ c. if leb b'a' c && leb c b'z' then c - 32 else c) s

abbrev pub wrong_kind : Bytes
wrong_kind = Encoder.wrong_type (codes "Operation against a key holding the wrong kind of value")

abbrev pub not_an_integer : Bytes
not_an_integer = Encoder.error (codes "value is not an integer or out of range")

abbrev pub would_overflow : Bytes
would_overflow = Encoder.error (codes "increment or decrement would overflow")

-- A value of a string object as a reply.
abbrev pub value_reply : KevaObject → Bytes
value_reply obj = Encoder.bulk_string (get_string_value obj)
