-- ===== src/Tests/Sockets.antt =====
-- The buffers of a connection on concrete streams.
use keva_db.Base.{◌≡◌, List, [], ◌∷◌, ◌++◌, arith, codes, length, drop}
use keva_db.Net.Connection.{
  Connection, new_connection, read_view, fill_read_buffer, flush_write_buffer, Received, bytes_read,
  would_block, Sent, bytes_sent, write_would_block,
}
use keva_db.Net.Connection.Streams.{received, fill-read_view, unsent, taken, Honest, flush-unsent}

abbrev half_read : Connection
half_read = record new_connection { read_buf = codes "PING\r\nPI"; read_pos = 6 }

abbrev arrived : List Received
arrived = bytes_read (codes "NG") ∷ bytes_read (codes "\r\n") ∷ would_block ∷ []

fill-read_view_example :
    read_view (fill_read_buffer arrived half_read).0 ≡ read_view half_read ++ received arrived
fill-read_view_example = fill-read_view arrived half_read (omega arith)

abbrev answered : Connection
answered = record new_connection { write_buf = codes "+PONG\r\n"; write_pos = 1 }

abbrev accepted : List Sent
accepted = bytes_sent 2 ∷ write_would_block ∷ []

flush-unsent_example :
    unsent (flush_write_buffer accepted answered).0
    ≡ drop (taken accepted (length (unsent answered))) (unsent answered)
unfolding Honest drop
flush-unsent_example = flush-unsent accepted answered (omega arith, tt)
