-- ===== src/Net/EventLoop.antt =====
-- `EventLoop` of src/net/event_loop.cpp: the callbacks of each file descriptor, what the loop asks of
-- epoll, and the timer's settings. epoll itself is the parameter `Epoll`.
pub mod Interest
pub mod Callbacks
pub mod Dispatch
pub mod Watching
use keva_db.Base.{
  ℕ, bit_or, ◌≡◌, ◌⊎◌, Bool, true, false, not, ◌&&◌, ◌||◌, Option, none, some, List, [], ◌∷◌, ◌==◌,
  if◌then◌else◌, is_some, Bytes,
}
use keva_db.Base.Assoc.{lookup, assign, erase}
use keva_db.Base.Int.{ℤ, pos}
use keva_db.Common.Status.{Status, success, io_error, ok}

-- The operations and the event bits of sys/epoll.h, and two error numbers.
pub data CtlOp : Type 0 where
  ctl_add ctl_mod ctl_del : CtlOp

abbrev pub epoll_in : ℕ
epoll_in = 1

abbrev pub epoll_out : ℕ
epoll_out = 4

abbrev pub epoll_err : ℕ
epoll_err = 8

abbrev pub epoll_hup : ℕ
epoll_hup = 16

abbrev pub enoent : ℕ
enoent = 2

abbrev pub ebadf : ℕ
ebadf = 9

-- What an operation asks for: the events that are watched then.
abbrev pub asked : CtlOp → ℕ → Option ℕ
asked ctl_add events = some events
asked ctl_mod events = some events
asked ctl_del events = none

-- The kernel's side, by its documentation: `interest` gives the events that are watched on a
-- descriptor, and `ctl` is epoll_ctl, with the error number of a call that fails.
pub record Epoll : Type 1 where
  pub Instance : Type 0
  pub interest : Instance → ℕ → Option ℕ
  pub ctl : CtlOp → ℕ → ℕ → Instance → Instance × Option ℕ
  pub strerror : ℕ → Bytes
  -- A call that succeeds sets the events of its descriptor alone.
  pub accepted :
      (op : CtlOp) (fd events : ℕ) (k : Instance)
      → (ctl op fd events k).1 ≡ none
      → (j : ℕ)
      → interest (ctl op fd events k).0 j ≡ (if fd == j then asked op events else interest k j)
  -- A call that fails sets none.
  pub refused :
      (op : CtlOp) (fd events e : ℕ) (k : Instance)
      → (ctl op fd events k).1 ≡ some e
      → (j : ℕ) → interest (ctl op fd events k).0 j ≡ interest k j
  -- Removal fails with these two only where nothing is watched.
  pub missing :
      (fd events e : ℕ) (k : Instance)
      → (ctl ctl_del fd events k).1 ≡ some e
      → (e ≡ enoent) ⊎ (e ≡ ebadf)
      → interest k fd ≡ none

-- The callbacks of a descriptor; an empty `std::function` is `none`.
pub record FdHandlers (C : Type 0) : Type 0 where
  pub on_readable : Option C
  pub on_writable : Option C

-- `epoll` is the kernel's object behind `epoll_fd_`.
pub record EventLoop (K : Type 0) (C : Type 0) : Type 0 where
  pub epoll : K
  pub handlers : List (ℕ × FdHandlers C)
  pub running : Bool
  pub timer_callback : Option C
  pub timer_interval_ms : ℤ
  pub last_timer_fire_ms : ℤ

abbrev pub or_no_handlers : {C : Type 0} → Option (FdHandlers C) → FdHandlers C
or_no_handlers none = record { on_readable = none; on_writable = none }
or_no_handlers (some h) = h

module _ {K C : Type 0} where
  abbrev pub new_event_loop : K → EventLoop K C
  new_event_loop k = record {
    epoll = k;
    handlers = [];
    running = false;
    timer_callback = none;
    timer_interval_ms = pos 0;
    last_timer_fire_ms = pos 0;
  }

  -- `handlers_[fd]`
  abbrev pub handlers_at : ℕ → EventLoop K C → FdHandlers C
  handlers_at fd loop = or_no_handlers (lookup fd loop.handlers)

  abbrev pub with_handlers : ℕ → FdHandlers C → EventLoop K C → EventLoop K C
  with_handlers fd h loop = record loop { handlers = assign fd h loop.handlers }

  -- `stop`
  abbrev pub stop : EventLoop K C → EventLoop K C
  stop loop = record loop { running = false }

  -- `set_timer`, at the time of the call.
  abbrev pub set_timer : ℤ → C → ℤ → EventLoop K C → EventLoop K C
  set_timer interval_ms callback now loop = record loop {
    timer_callback = some callback;
    timer_interval_ms = interval_ms;
    last_timer_fire_ms = now;
  }

module _ (os : Epoll) where
  open os use {strerror}

  abbrev pub status_of : Option ℕ → Status
  status_of none = success
  status_of (some e) = io_error (strerror e)

  -- The errors that mean that nothing was watched are no errors.
  abbrev pub removal_status : Option ℕ → Status
  removal_status none = success
  removal_status (some e) =
      if not (e == enoent) && not (e == ebadf) then io_error (strerror e) else success

module _ (os : Epoll) {C : Type 0} where
  open os use {Instance, ctl}

  unfoldable pub epoll_ctl_op : CtlOp → ℕ → ℕ → EventLoop Instance C → EventLoop Instance C × Status
  epoll_ctl_op op fd events loop =
      let (k, e) = ctl op fd events loop.epoll in (record loop { epoll = k }, status_of os e)

  -- Addition first, and modification where that fails.
  unfoldable pub add_or_modify : ℕ → ℕ → EventLoop Instance C → EventLoop Instance C × Status
  add_or_modify fd events loop =
      let (added, s) = epoll_ctl_op ctl_add fd events loop in
      if ok s then (added, success) else epoll_ctl_op ctl_mod fd events added

  unfoldable pub add_readable : ℕ → C → EventLoop Instance C → EventLoop Instance C × Status
  add_readable fd callback loop =
      let h = record (handlers_at fd loop) { on_readable = some callback } in
      add_or_modify fd (if is_some h.on_writable then bit_or epoll_in epoll_out else epoll_in)
        (with_handlers fd h loop)

  unfoldable pub add_writable : ℕ → C → EventLoop Instance C → EventLoop Instance C × Status
  add_writable fd callback loop =
      let h = record (handlers_at fd loop) { on_writable = some callback } in
      add_or_modify fd (if is_some h.on_readable then bit_or epoll_out epoll_in else epoll_out)
        (with_handlers fd h loop)

  unfoldable pub remove : ℕ → EventLoop Instance C → EventLoop Instance C × Status
  remove fd loop =
      let (k, e) = ctl ctl_del fd 0 loop.epoll in
      (record loop { epoll = k; handlers = erase fd loop.handlers }, removal_status os e)

  unfoldable pub remove_writable_of :
      Option (FdHandlers C) → ℕ → EventLoop Instance C → EventLoop Instance C × Status
  remove_writable_of none fd loop = (loop, success)
  remove_writable_of (some h) fd loop =
      let cleared = with_handlers fd (record h { on_writable = none }) loop in
      if is_some h.on_readable then epoll_ctl_op ctl_mod fd epoll_in cleared else remove fd cleared

  unfoldable pub remove_writable : ℕ → EventLoop Instance C → EventLoop Instance C × Status
  remove_writable fd loop = remove_writable_of (lookup fd loop.handlers) fd loop
