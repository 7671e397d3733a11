-- ===== src/Net/EventLoop/Dispatch.antt =====
-- `EventLoop::run` of src/net/event_loop.cpp: the dispatch of a batch of events, the timer, and the
-- loop over what epoll_wait returns.
pub mod Keeps
pub mod Timer
use keva_db.Base.{
  ℕ, bit_and, bit_or, Bool, true, false, not, ◌&&◌, Option, none, some, List, [], ◌∷◌, ◌==◌,
  if◌then◌else◌, is_some, ◌>>=◌,
}
use keva_db.Base.Assoc.{lookup}
use keva_db.Base.Int.{ℤ, pos, ◌-ℤ◌, leb_ℤ}
use keva_db.Net.EventLoop.{EventLoop, FdHandlers, epoll_in, epoll_out, epoll_err, epoll_hup}

-- `evmask & bits`
abbrev pub has_bits : ℕ → ℕ → Bool
has_bits evmask bits = not (bit_and evmask bits == 0)

abbrev pub on_writable_in : {C : Type 0} → Option (FdHandlers C) → Option C
on_writable_in none = none
on_writable_in (some h) = h.on_writable

module _ {K C : Type 0} where
  -- Whether the timer's callback is run: one is set, and its interval is over.
  unfoldable pub timer_due : ℤ → EventLoop K C → Bool
  timer_due current loop =
      is_some loop.timer_callback
      && not (leb_ℤ loop.timer_interval_ms (pos 0))
      && leb_ℤ loop.timer_interval_ms (current -ℤ loop.last_timer_fire_ms)

-- What the loop runs in: a state `W` that holds the loop, and what a callback does to it on a
-- descriptor, given what its system calls answer, `I`. `none` is an exception that nothing catches.
pub record Host (K : Type 0) (C : Type 0) (I : Type 0) (W : Type 0) : Type 0 where
  pub loop_of : W → EventLoop K C
  pub with_loop : EventLoop K C → W → W
  pub call : C → I → ℕ → W → Option W
  pub fire : C → I → W → Option W

-- An event, with the answers that its read and its write callback get from the system.
pub record Event (I : Type 0) : Type 0 where
  pub fd : ℕ
  pub evmask : ℕ
  pub on_read : I
  pub on_write : I

-- How epoll_wait ends: with events, with the clock behind them and what the timer's callback gets,
-- by a signal, or with an error.
pub data Woken (I : Type 0) : Type 0 where
  ready : List (Event I) → ℤ → I → Woken I
  interrupted : Woken I
  wait_error : Woken I

module _ {K C I W : Type 0} (host : Host K C I W) where
  open host use {loop_of, with_loop, call, fire}

  abbrev pub handlers_in : ℕ → W → Option (FdHandlers C)
  handlers_in fd w = lookup fd (loop_of w).handlers

  unfoldable pub run_callback : Option C → I → ℕ → W → Option W
  run_callback none i fd w = some w
  run_callback (some c) i fd w = call c i fd w

  -- The second half of an event: the handlers are looked up again.
  unfoldable pub dispatch_writable : Event I → W → Option W
  dispatch_writable ev w =
      if has_bits ev.evmask epoll_out
      then run_callback (on_writable_in (handlers_in ev.fd w)) ev.on_write ev.fd w
      else some w

  unfoldable pub dispatch_handlers : Option (FdHandlers C) → Event I → W → Option W
  dispatch_handlers none ev w = some w
  dispatch_handlers (some h) ev w =
      if has_bits ev.evmask (bit_or epoll_err epoll_hup)
      then run_callback h.on_readable ev.on_read ev.fd w
      else (if has_bits ev.evmask epoll_in
          then run_callback h.on_readable ev.on_read ev.fd w
          else some w)
        >>= dispatch_writable ev

  -- One event of a batch; one for a descriptor without handlers is stale.
  unfoldable pub dispatch_event : Event I → W → Option W
  dispatch_event ev w = dispatch_handlers (handlers_in ev.fd w) ev w

  unfoldable pub dispatch_events : List (Event I) → W → Option W
  dispatch_events [] w = some w
  dispatch_events (ev ∷ evs) w = dispatch_event ev w >>= dispatch_events evs

  unfoldable pub fire_timer : Option C → I → W → Option W
  fire_timer none i w = some w
  fire_timer (some c) i w = fire c i w

  unfoldable pub maybe_run_timer : ℤ → I → W → Option W
  maybe_run_timer current i w =
      if timer_due current (loop_of w)
      then fire_timer (loop_of w).timer_callback i
          (with_loop (record (loop_of w) { last_timer_fire_ms = current }) w)
      else some w

  -- The turns of `run`, one for each return of epoll_wait that is given.
  unfoldable pub run_loop : List (Woken I) → W → Option W
  run_loop [] w = some w
  run_loop (wake ∷ wakes) w =
      if (loop_of w).running
      then (elim wake [
        | ready evs current i ↦
            dispatch_events evs w >>= maybe_run_timer current i >>= run_loop wakes
        | interrupted ↦ run_loop wakes w
        | wait_error ↦ some w
      ])
      else some w

  unfoldable pub run : List (Woken I) → W → Option W
  run wakes w = run_loop wakes (with_loop (record (loop_of w) { running = true }) w)
