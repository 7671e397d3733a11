-- ===== src/Net/Connection/Streams.antt =====
-- The buffers of a connection carry the streams of its socket without loss.
use keva_db.Base.{
  ℕ, zero, suc, ◌+◌, ◌-◌, ◌/◌, ◌≤◌, ◌≡◌, refl, sym, ap, ◌∙◌, inl, inr, Bool, true, false, ◌&&◌,
  List, [], ◌∷◌, ◌++◌, append-nil, append_assoc, arith, ltb, leb, ◌==◌, if◌then◌else◌, Bool-cases,
  length, drop, length-drop, length-append, drop_add, drop_nil, Bytes,
}
use mathlib.Core.Path.{subst}
use keva_db.Net.Connection.{
  Connection, read_view, compact_read_buffer, Received, bytes_read, end_of_stream, would_block,
  io_error, drain, fill_read_buffer, Sent, bytes_sent, write_would_block, write_error, send_pending,
  flushed, flush_write_buffer, has_pending_writes,
}

-- The bytes that the calls of `read` give, up to the call that ends the loop.
unfoldable pub received : List Received → Bytes
received [] = []
received (bytes_read bs ∷ rs) = bs ++ received rs
received (end_of_stream ∷ rs) = []
received (would_block ∷ rs) = []
received (io_error ∷ rs) = []

drop-inside : (n : ℕ) (s t : Bytes) → n ≤ length s → drop n (s ++ t) ≡ drop n s ++ t
unfolding drop
drop-inside zero s t h = refl
drop-inside (suc n) [] t h = absurd (omega arith)
drop-inside (suc n) (c ∷ s) t h = drop-inside n s t (omega arith)

drain-read_view :
    (rs : List Received) (c : Connection) (total : ℕ)
    → c.read_pos ≤ length c.read_buf
    → read_view (drain rs c total).0 ≡ read_view c ++ received rs
unfolding drain read_view received
drain-read_view [] c total h = sym (append-nil _)
drain-read_view (bytes_read bs ∷ rs) c total h =
    drain-read_view rs (record c { read_buf = c.read_buf ++ bs }) (total + length bs)
      (omega (arith, length-append c.read_buf bs))
    ∙ (rw (drop-inside c.read_pos c.read_buf bs h)
        (append_assoc (drop c.read_pos c.read_buf) bs (received rs)))
drain-read_view (end_of_stream ∷ rs) c total h = sym (append-nil _)
drain-read_view (would_block ∷ rs) c total h = sym (append-nil _)
drain-read_view (io_error ∷ rs) c total h = sym (append-nil _)

-- Compaction moves the unread bytes and leaves the cursor inside of the buffer.
compact_keeps :
    (c : Connection)
    → c.read_pos ≤ length c.read_buf
    → let c' = compact_read_buffer c in
      (read_view c' ≡ read_view c) × (c'.read_pos ≤ length c'.read_buf)
unfolding compact_read_buffer read_view drop
compact_keeps c h = elim (Bool-cases (c.read_pos == 0)) [
  | inl start ↦ rw start (refl, h)
  | inr moved ↦ rw moved (refl, omega arith)
]

-- Filling a read buffer whose cursor is inside of it puts what the socket gives, up to the call
-- that ends the loop, behind what is unread, whether the buffer is compacted or not.
pub fill-read_view :
    (rs : List Received) (c : Connection)
    → c.read_pos ≤ length c.read_buf
    → read_view (fill_read_buffer rs c).0 ≡ read_view c ++ received rs
unfolding fill_read_buffer
fill-read_view rs c h =
    let full = ltb (length c.read_buf / 2) c.read_pos && ltb 0 c.read_pos in
    let (same, inside) = compact_keeps c h in
    elim (Bool-cases full) [
      | inl yes_full ↦
          rw yes_full
            (drain-read_view rs (compact_read_buffer c) 0 inside ∙ ap (λ s. s ++ received rs) same)
      | inr not_full ↦ rw not_full (drain-read_view rs c 0 h)
    ]

-- The bytes that are still to be sent.
abbrev pub unsent : Connection → Bytes
unsent c = drop c.write_pos c.write_buf

-- How many bytes the calls of `write` take from a buffer with `left` bytes, each at most what it
-- was given, before one fails or none are left.
unfoldable pub taken : List Sent → ℕ → ℕ
taken [] left = 0
taken (bytes_sent n ∷ rs) left =
    let rest = taken rs (left - n) in if ltb 0 left then n + rest else 0
taken (write_would_block ∷ rs) left = 0
taken (write_error ∷ rs) left = 0

-- No call of `write` takes more than it is given.
unfoldable pub Honest : List Sent → ℕ → Type 0
Honest [] left = Unit
Honest (bytes_sent n ∷ rs) left = (n ≤ left) × Honest rs (left - n)
Honest (write_would_block ∷ rs) left = Unit
Honest (write_error ∷ rs) left = Unit

pub drop-past : (n : ℕ) (s : Bytes) → length s ≤ n → drop n s ≡ []
unfolding drop
drop-past n [] h = drop_nil n
drop-past zero (c ∷ s) h = absurd (omega arith)
drop-past (suc n) (c ∷ s) h = drop-past n s (omega arith)

abbrev moved : ℕ → Connection → Connection
moved n c = record c { write_pos = c.write_pos + n }

-- One call of `write` that takes bytes.
unsent-moved :
    (n : ℕ) (c : Connection)
    → (unsent (moved n c) ≡ drop n (unsent c))
      × (length (unsent (moved n c)) ≡ length (unsent c) - n)
unsent-moved n c =
    let e = drop_add c.write_pos n c.write_buf in (e, ap length e ∙ length-drop n (unsent c))

send_pending-unsent :
    (rs : List Sent) (c : Connection)
    → Honest rs (length (unsent c))
    → unsent (send_pending rs c).0 ≡ drop (taken rs (length (unsent c))) (unsent c)
unfolding send_pending taken Honest
send_pending-unsent [] c h = unfold drop in refl
send_pending-unsent (bytes_sent n ∷ rs) c (fits, h) =
    let size = length-drop c.write_pos c.write_buf in
    let left = length (unsent c) in
    elim (Bool-cases (ltb c.write_pos (length c.write_buf))) [
      | inl more ↦
          let (e, short) = unsent-moved n c in
          let some_left : ltb 0 left ≡ true = ground (arith, size) in
          let ih = send_pending-unsent rs (moved n c) (subst (Honest rs) (sym short) h) in
          let now : drop (taken rs (length (unsent (moved n c)))) (unsent (moved n c))
              ≡ drop (taken rs (left - n)) (drop n (unsent c)) =
            ap (λ m. drop (taken rs m) (unsent (moved n c))) short
            ∙ ap (drop (taken rs (left - n))) e in
          rw (more, some_left) (ih ∙ now ∙ sym (drop_add n (taken rs (left - n)) (unsent c)))
      | inr none_left ↦
          let nothing : ltb 0 left ≡ false = ground (arith, size) in
          rw (none_left, nothing) (unfold drop in refl)
    ]
send_pending-unsent (write_would_block ∷ rs) c h =
    elim (Bool-cases (ltb c.write_pos (length c.write_buf))) [
      | inl more ↦ rw more (unfold drop in refl)
      | inr none_left ↦ rw none_left (unfold drop in refl)
    ]
send_pending-unsent (write_error ∷ rs) c h =
    elim (Bool-cases (ltb c.write_pos (length c.write_buf))) [
      | inl more ↦ rw more (unfold drop in refl)
      | inr none_left ↦ rw none_left (unfold drop in refl)
    ]

flushed-unsent : (r : Connection × Bool) → unsent (flushed r).0 ≡ unsent r.0
unfolding flushed
flushed-unsent (c, false) = refl
flushed-unsent (c, true) = elim (Bool-cases (leb (length c.write_buf) c.write_pos)) [
  | inl all ↦ rw all (drop_nil 0 ∙ sym (drop-past c.write_pos c.write_buf (ground arith)))
  | inr part ↦ rw part refl
]

-- A flush takes what the calls of write took, none more than it was given, off the front of the
-- unsent bytes, and loses none of the others.
pub flush-unsent :
    (rs : List Sent) (c : Connection)
    → Honest rs (length (unsent c))
    → unsent (flush_write_buffer rs c).0 ≡ drop (taken rs (length (unsent c))) (unsent c)
unfolding flush_write_buffer
flush-unsent rs c h = flushed-unsent (send_pending rs c) ∙ send_pending-unsent rs c h

-- Where nothing is left to send, a flush sends nothing.
send_pending-idle :
    (rs : List Sent) (c : Connection) → has_pending_writes c ≡ false → send_pending rs c ≡ (c, true)
unfolding send_pending has_pending_writes
send_pending-idle [] c e = refl
send_pending-idle (r ∷ rs) c e = rw e refl

pub flush-idle :
    (rs : List Sent) (c : Connection)
    → has_pending_writes c ≡ false
    → has_pending_writes (flush_write_buffer rs c).0 ≡ false
unfolding flush_write_buffer flushed has_pending_writes
flush-idle rs c e = rw (send_pending-idle rs c e) (ground arith)
