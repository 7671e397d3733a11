-- ===== src/Net/Socket.antt =====
-- `Socket` of src/net/socket.cpp: who owns a descriptor, and when it is closed. The results of the
-- system calls are arguments, and so is the text of an error number.
pub mod Outcome
use keva_db.Base.{
  ℕ, ◌≡◌, refl, sym, ◌⊎◌, inl, inr, Bool, true, false, not, ◌||◌, Option, none, some, List, [], ◌∷◌,
  ◌==◌, if◌then◌else◌, Bool-cases, Option-cases, length, Bytes, bytes_eq, codes,
}
use keva_db.Common.Status.{Status, success, io_error, ok}

-- `INVALID_FD` is none.
pub record Socket : Type 0 where
  pub fd : Option ℕ

abbrev pub no_socket : Socket
no_socket = record { fd = none }

abbrev pub owns : ℕ → Socket
owns fd = record { fd = some fd }

-- The descriptors that `close_fd` hands to `close`.
abbrev pub closed_by : Option ℕ → List ℕ
closed_by none = []
closed_by (some fd) = fd ∷ []

-- `close_fd`: the socket afterwards, and what was closed.
unfoldable pub close_fd : Socket → Socket × List ℕ
close_fd s = (no_socket, closed_by s.fd)

-- The move constructor: the new socket, and the one moved from.
unfoldable pub move_construct : Socket → Socket × Socket
move_construct other = (other, no_socket)

-- The move assignment between two sockets, with what was closed.
unfoldable pub move_assign : Socket → Socket → (Socket × Socket) × List ℕ
move_assign self other = let (empty, closed) = close_fd self in ((other, no_socket), closed)

-- What the system answers to a server that starts: an error number for a call that fails.
pub record ServerAnswers : Type 0 where
  pub socket_fd : ℕ
  pub socket_error : Option ℕ
  pub reuseaddr_error : Option ℕ
  pub nodelay_error : Option ℕ
  pub getfl_error : Option ℕ
  pub setfl_error : Option ℕ
  pub address_is_valid : Bool
  pub bind_error : Option ℕ
  pub listen_error : Option ℕ

module _ (strerror : ℕ → Bytes) where
  unfoldable pub status_of_call : Option ℕ → Status
  status_of_call none = success
  status_of_call (some e) = io_error (strerror e)

  -- `set_nonblocking`: the flags are read and written back.
  unfoldable pub set_nonblocking : Option ℕ → Option ℕ → Status
  set_nonblocking getfl_error setfl_error =
      if ok (status_of_call getfl_error)
      then status_of_call setfl_error
      else status_of_call getfl_error

  unfoldable pub set_nodelay : Option ℕ → Status
  set_nodelay nodelay_error = status_of_call nodelay_error

  -- The address of a host: any of the two names of all addresses, or one that inet_pton reads.
  unfoldable pub address_status : Bytes → Bool → Status
  address_status host is_valid =
      if bytes_eq host (codes "0.0.0.0") || (length host == 0)
      then success
      else if is_valid
      then success
      else io_error (codes "Invalid bind address")

  -- The first failure of the steps behind `socket`, in their order.
  unfoldable pub first_failure : List Status → Status
  first_failure [] = success
  first_failure (s ∷ ss) = let rest = first_failure ss in if ok s then rest else s

  unfoldable pub configure : Bytes → ServerAnswers → Status
  configure host a = first_failure (
      status_of_call a.reuseaddr_error
      ∷ status_of_call a.nodelay_error
      ∷ set_nonblocking a.getfl_error a.setfl_error
      ∷ address_status host a.address_is_valid
      ∷ status_of_call a.bind_error
      ∷ status_of_call a.listen_error
      ∷ [])

  -- `create_server`: the socket, the status, and what the destructor of the local socket closes.
  unfoldable pub create_server : Bytes → ServerAnswers → (Socket × Status) × List ℕ
  create_server host a =
      let s = configure host a in
      let (moved, left) = move_construct (owns a.socket_fd) in
      if not (ok (status_of_call a.socket_error))
      then ((no_socket, status_of_call a.socket_error), [])
      else if ok s
      then ((moved, success), (close_fd left).1)
      else ((no_socket, s), (close_fd (owns a.socket_fd)).1)
