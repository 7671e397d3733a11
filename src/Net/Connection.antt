-- ===== src/Net/Connection.antt =====
-- `Connection` of src/net/connection.cpp without its socket: what `read` and `write` return is an
-- argument of the functions that call them.
pub mod Streams
use keva_db.Base.{
  ℕ, zero, suc, ◌+◌, ◌-◌, ◌/◌, Bool, true, false, ◌&&◌, List, [], ◌∷◌, ◌++◌, ltb, leb, ◌==◌,
  if◌then◌else◌, length, drop, Bytes,
}
use keva_db.Base.Int.{ℤ, pos, negsuc}

-- `ConnectionState`
pub data ConnectionState : Type 0 where
  connected write_only closed : ConnectionState

pub record Connection : Type 0 where
  pub read_buf : Bytes
  pub read_pos : ℕ
  pub write_buf : Bytes
  pub write_pos : ℕ
  pub state : ConnectionState

abbrev pub state_is_closed : ConnectionState → Bool
state_is_closed connected = false
state_is_closed write_only = false
state_is_closed closed = true

abbrev pub is_closed : Connection → Bool
is_closed c = state_is_closed c.state

abbrev pub new_connection : Connection
new_connection = record {
  read_buf = [];
  read_pos = 0;
  write_buf = [];
  write_pos = 0;
  state = connected;
}

abbrev pub set_state : ConnectionState → Connection → Connection
set_state s c = record c { state = s }

unfoldable pub read_view : Connection → Bytes
read_view c = drop c.read_pos c.read_buf

-- The cursor is never moved past the end.
unfoldable pub consume : ℕ → Connection → Connection
consume n c =
    let moved = c.read_pos + n in
    record c { read_pos = if ltb (length c.read_buf) moved then length c.read_buf else moved }

unfoldable pub append_response : Connection → Bytes → Connection
append_response c sv = record c { write_buf = c.write_buf ++ sv }

unfoldable pub has_pending_writes : Connection → Bool
has_pending_writes c = ltb c.write_pos (length c.write_buf)

unfoldable pub compact_read_buffer : Connection → Connection
compact_read_buffer c =
    if c.read_pos == 0 then c else record c { read_buf = drop c.read_pos c.read_buf; read_pos = 0 }

-- What one call of `read` gives: bytes, the end of the stream, nothing more for now, or an error.
pub data Received : Type 0 where
  bytes_read : Bytes → Received
  end_of_stream : Received
  would_block : Received
  io_error : Received

-- The loop of `fill_read_buffer`, the calls of `read` up to the one that ends it, with the bytes
-- read so far: the result is their number, 0 at the end of the stream, and -1 for an error.
unfoldable pub drain : List Received → Connection → ℕ → Connection × ℤ
drain [] c total_read = (c, pos total_read)
drain (bytes_read bs ∷ rs) c total_read =
    drain rs (record c { read_buf = c.read_buf ++ bs }) (total_read + length bs)
drain (end_of_stream ∷ rs) c total_read = (set_state closed c, pos 0)
drain (would_block ∷ rs) c total_read = (c, pos total_read)
drain (io_error ∷ rs) c total_read = (set_state closed c, negsuc 0)

unfoldable pub fill_read_buffer : List Received → Connection → Connection × ℤ
fill_read_buffer rs c =
    let start =
      if ltb (length c.read_buf / 2) c.read_pos && ltb 0 c.read_pos
      then compact_read_buffer c
      else c in
    drain rs start 0

-- What one call of `write` gives: a number of bytes taken, or an error.
pub data Sent : Type 0 where
  bytes_sent : ℕ → Sent
  write_would_block : Sent
  write_error : Sent

-- The loop of `flush_write_buffer`, which ends when everything is sent; false is an I/O error. A
-- result of 0 bytes sends the loop round again.
unfoldable pub send_pending : List Sent → Connection → Connection × Bool
send_pending [] c = (c, true)
send_pending (r ∷ rs) c =
    if ltb c.write_pos (length c.write_buf)
    then (elim r [
      | bytes_sent n ↦ send_pending rs (record c { write_pos = c.write_pos + n })
      | write_would_block ↦ (c, true)
      | write_error ↦ (set_state closed c, false)
    ])
    else (c, true)

unfoldable pub flushed : Connection × Bool → Connection × Bool
flushed (c, false) = (c, false)
flushed (c, true) =
    if leb (length c.write_buf) c.write_pos
    then (record c { write_buf = []; write_pos = 0 }, true)
    else (c, true)

unfoldable pub flush_write_buffer : List Sent → Connection → Connection × Bool
flush_write_buffer rs c = flushed (send_pending rs c)
