-- ===== src/Net/EventLoop/Dispatch/Keeps.antt =====
-- The loop runs registered callbacks only: what they keep, it keeps.
use keva_db.Base.{
  ℕ, ◌≡◌, refl, ◌⊎◌, inl, inr, true, Option, none, some, List, [], ◌∷◌, bit_or, Bool-cases, ◌>>=◌,
}
use keva_db.Base.Int.{ℤ}
use keva_db.Net.EventLoop.{FdHandlers, epoll_in, epoll_out, epoll_err, epoll_hup}
use keva_db.Net.EventLoop.Dispatch.{
  Host, Event, Woken, ready, interrupted, wait_error, handlers_in, run_callback, has_bits,
  on_writable_in, dispatch_writable, dispatch_handlers, dispatch_event, dispatch_events, timer_due,
  fire_timer, maybe_run_timer, run_loop, run,
}

-- Of the state that is left, where no exception ended the program.
abbrev pub Holds : {W : Type 0} → (W → Type 0) → Option W → Type 0
Holds P none = Unit
Holds P (some w) = P w

>>=-Holds :
    {W : Type 0} (P : W → Type 0) (m : Option W) (f : W → Option W)
    → Holds P m
    → ((w : W) → P w → Holds P (f w))
    → Holds P (m >>= f)
>>=-Holds P none f h k = tt
>>=-Holds P (some w) f h k = k w h

module _ {K C I W : Type 0} (host : Host K C I W) where
  open host use {loop_of, with_loop, call, fire}

  -- A callback that stands in the handlers of a descriptor.
  abbrev pub IsRegistered : C → ℕ → W → Type 0
  IsRegistered c fd w =
      (h : FdHandlers C) × (handlers_in host fd w ≡ some h)
      × ((h.on_readable ≡ some c) ⊎ (h.on_writable ≡ some c))

  -- What has to be kept: by each registered callback, by the timer's, and by the loop's own fields.
  pub record Keeps (P : W → Type 0) : Type 0 where
    pub by_call :
        (c : C) (i : I) (fd : ℕ) (w : W) → P w → IsRegistered c fd w → Holds P (call c i fd w)
    pub by_fire :
        (c : C) (i : I) (w : W) → P w → (loop_of w).timer_callback ≡ some c → Holds P (fire c i w)
    pub by_clock :
        (now : ℤ) (w : W) → P w → P (with_loop (record (loop_of w) { last_timer_fire_ms = now }) w)
    pub same_timer :
        (now : ℤ) (w : W)
        → (loop_of (with_loop (record (loop_of w) { last_timer_fire_ms = now }) w)).timer_callback
          ≡ (loop_of w).timer_callback
    pub by_start : (w : W) → P w → P (with_loop (record (loop_of w) { running = true }) w)

  module _ (P : W → Type 0) (keeps : Keeps P) where
    run_callback-Holds :
        (o : Option C) (i : I) (fd : ℕ) (w : W)
        → P w
        → ((c : C) → o ≡ some c → IsRegistered c fd w)
        → Holds P (run_callback host o i fd w)
    unfolding run_callback
    run_callback-Holds none i fd w p r = p
    run_callback-Holds (some c) i fd w p r = keeps.by_call c i fd w p (r c refl)

    dispatch_writable-Holds : (ev : Event I) (w : W) → P w → Holds P (dispatch_writable host ev w)
    unfolding dispatch_writable
    dispatch_writable-Holds ev w p = elim (Bool-cases (has_bits ev.evmask epoll_out)) [
      | inl out ↦ rw out (
          run_callback-Holds (on_writable_in (handlers_in host ev.fd w)) ev.on_write ev.fd w p
            (writes_with (handlers_in host ev.fd w) refl))
      | inr other ↦ rw other p
    ]
      where
        writes_with :
            (o : Option (FdHandlers C))
            → handlers_in host ev.fd w ≡ o
            → (c : C) → on_writable_in o ≡ some c
            → IsRegistered c ev.fd w
        writes_with none g c e = cc
        writes_with (some h) g c e = (h, g, inr e)

    dispatch_handlers-Holds :
        (o : Option (FdHandlers C)) (ev : Event I) (w : W)
        → handlers_in host ev.fd w ≡ o
        → P w
        → Holds P (dispatch_handlers host o ev w)
    unfolding dispatch_handlers
    dispatch_handlers-Holds none ev w g p = p
    dispatch_handlers-Holds (some h) ev w g p =
        let read = run_callback-Holds h.on_readable ev.on_read ev.fd w p (λ c e. (h, g, inl e)) in
        elim (Bool-cases (has_bits ev.evmask (bit_or epoll_err epoll_hup))) [
          | inl failed ↦ rw failed read
          | inr fine ↦ rw fine (elim (Bool-cases (has_bits ev.evmask epoll_in)) [
            | inl reads ↦ rw reads (>>=-Holds P _ _ read (dispatch_writable-Holds ev))
            | inr other ↦ rw other (dispatch_writable-Holds ev w p)
          ])
        ]

    dispatch_events-Holds :
        (evs : List (Event I)) (w : W) → P w → Holds P (dispatch_events host evs w)
    unfolding dispatch_events dispatch_event
    dispatch_events-Holds [] w p = p
    dispatch_events-Holds (ev ∷ evs) w p =
        >>=-Holds P _ _ (dispatch_handlers-Holds (handlers_in host ev.fd w) ev w refl p)
          (dispatch_events-Holds evs)

    fire_timer-Holds :
        (o : Option C) (i : I) (w : W)
        → (loop_of w).timer_callback ≡ o
        → P w
        → Holds P (fire_timer host o i w)
    unfolding fire_timer
    fire_timer-Holds none i w e p = p
    fire_timer-Holds (some c) i w e p = keeps.by_fire c i w p e

    maybe_run_timer-Holds : (now : ℤ) (i : I) (w : W) → P w → Holds P (maybe_run_timer host now i w)
    unfolding maybe_run_timer
    maybe_run_timer-Holds now i w p = elim (Bool-cases (timer_due now (loop_of w))) [
      | inl due ↦ rw due (fire_timer-Holds _ i _ (keeps.same_timer now w) (keeps.by_clock now w p))
      | inr early ↦ rw early p
    ]

    run_loop-Holds : (wakes : List (Woken I)) (w : W) → P w → Holds P (run_loop host wakes w)
    unfolding run_loop
    run_loop-Holds [] w p = p
    run_loop-Holds (ready evs now i ∷ wakes) w p = elim (Bool-cases (loop_of w).running) [
      | inl on ↦ rw on (
          >>=-Holds P _ _
            (>>=-Holds P _ _ (dispatch_events-Holds evs w p) (maybe_run_timer-Holds now i))
            (run_loop-Holds wakes))
      | inr off ↦ rw off p
    ]
    run_loop-Holds (interrupted ∷ wakes) w p = elim (Bool-cases (loop_of w).running) [
      | inl on ↦ rw on (run_loop-Holds wakes w p)
      | inr off ↦ rw off p
    ]
    run_loop-Holds (wait_error ∷ wakes) w p = elim (Bool-cases (loop_of w).running) [
      | inl on ↦ rw on p
      | inr off ↦ rw off p
    ]

    -- What every callback keeps on a descriptor that it is registered for, and the timer's callback
    -- too, holds after any turns of the loop, however each ends, if it holds at their start.
    pub run-Holds : (wakes : List (Woken I)) (w : W) → P w → Holds P (run host wakes w)
    unfolding run
    run-Holds wakes w p = run_loop-Holds wakes _ (keeps.by_start w p)
