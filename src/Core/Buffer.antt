-- ===== src/Core/Buffer.antt =====
-- `Buffer` of src/core/buffer.cpp: a byte array with a capacity. `size_` is the length of the bytes,
-- and the pointer is null exactly while the capacity is 0, since `grow` allocates 16 bytes or more.
-- The byte behind the last one, kept 0 for C interfaces, is never read by the program.
pub mod Growth
use keva_db.Base.{
  ℕ, zero, suc, ◌+◌, ◌-◌, ◌%◌, Bool, true, false, ◌&&◌, ◌||◌, Option, none, some, List, [], ◌∷◌,
  ◌++◌, ltb, leb, ◌==◌, if◌then◌else◌, length, replicate, take, Bytes, bytes_eq, ◌>>=◌,
}
use keva_db.Base.Bits.{bit_ceil}
use keva_db.Base.Decimal.{from_chars}
use keva_db.Base.Int.{ℤ}

pub record Buffer : Type 0 where
  pub bytes : Bytes
  pub cap : ℕ

abbrev pub empty_buffer : Buffer
empty_buffer = record { bytes = []; cap = 0 }

-- Capacities are rounded up to a power of two, at least 16.
unfoldable pub rounded : ℕ → ℕ
rounded required = bit_ceil (if ltb required 16 then 16 else required)

-- The bytes are moved to a new block. `none` stands for more than 2^62 bytes: a block of 2^63 + 1
-- bytes is longer than an array can be, so that `new` throws, and above 2^63 `std::bit_ceil` is
-- undefined. Memory for a shorter block is taken to be there.
unfoldable pub grow : ℕ → Buffer → Option Buffer
grow required b =
    if leb required b.cap
    then some b
    else if leb required 4611686018427387904
    then some (record b { cap = rounded required })
    else none

-- The constructors from a view, from raw bytes and from another buffer copy the bytes, into what
-- `grow` makes of an empty buffer. The bytes lie in memory, so that they are not more than 2^62.
unfoldable pub from_view : Bytes → Buffer
from_view sv =
    if length sv == 0 then empty_buffer else record { bytes = sv; cap = rounded (length sv) }

unfoldable pub clear : Buffer → Buffer
clear b = record b { bytes = [] }

-- `operator=(const Buffer&)` of two different buffers.
unfoldable pub copy_assign : Buffer → Buffer → Option Buffer
copy_assign b other =
    let cleared = clear b in
    if length other.bytes == 0
    then some cleared
    else do g ← grow (length other.bytes) cleared; some (record g { bytes = other.bytes })

-- `operator=(Buffer&&)` of two different buffers: the new value of each.
unfoldable pub move_assign : Buffer → Buffer → Buffer × Buffer
move_assign b other = (other, empty_buffer)

-- Both overloads of `append`; the bytes appended are not a part of the buffer itself. The sum of
-- the lengths is a `usize`. `none` is one that `grow` refuses, or that wrapped, so that the copy
-- runs past the end of the block.
unfoldable pub append : Buffer → Bytes → Option Buffer
append b sv =
    let size = length b.bytes in
    if length sv == 0 then some b else do
      g ← grow ((size + length sv) % 18446744073709551616) b
      if leb (size + length sv) g.cap then some (record g { bytes = b.bytes ++ sv }) else none

-- `none` is a size that `grow` refuses, or a write through a null pointer: the last line of the
-- source writes the byte behind the end also where nothing was ever allocated.
unfoldable pub resize : Buffer → ℕ → Option Buffer
resize b new_size = do
  let size = length b.bytes
  grown ← (if ltb b.cap new_size then grow new_size b else some b)
  let bytes =
      if ltb size new_size then b.bytes ++ replicate (new_size - size) 0 else take new_size b.bytes
  if grown.cap == 0 then none else some (record grown { bytes = bytes })

unfoldable pub reserve : Buffer → ℕ → Option Buffer
reserve b capacity = grow capacity b

-- Both overloads of `==`: sizes first, then the bytes.
unfoldable pub equals : Buffer → Bytes → Bool
equals b sv = length b.bytes == length sv && bytes_eq b.bytes sv

unfoldable pub whole : Option (ℤ × Bytes) → Option ℤ
whole none = none
whole (some (n, [])) = some n
whole (some (n, c ∷ s)) = none

-- At most 20 bytes, all of which are read.
unfoldable pub try_parse_int : Bytes → Option ℤ
try_parse_int s = if length s == 0 || ltb 20 (length s) then none else whole (from_chars s)
