-- ===== src/Net/EventLoop/Dispatch/Timer.antt =====
-- The timer of the loop over a series of clock readings: never early, never overdue.
use keva_db.Base.{
  ◌≡◌, refl, ◌<◌, inl, inr, Option, some, List, [], ◌∷◌, ◌++◌, arith, Bool-cases, ◌>>=◌, true, ◌+◌,
}
use keva_db.Base.Int.{ℤ, pos, ◌+ℤ◌, ◌-ℤ◌, ◌≤ℤ◌, leb_ℤ, pos_part, neg_part, +ℤ_parts, -ℤ_parts}
use keva_db.Net.EventLoop.{EventLoop}
use keva_db.Net.EventLoop.Dispatch.{Host, timer_due, fire_timer, maybe_run_timer}

-- A loop, with the times at which its timer ran, the latest first.
pub record Ticking (K : Type 0) (C : Type 0) : Type 0 where
  pub loop : EventLoop K C
  pub fired : List ℤ

-- The last tick, or the time at which the timer was set.
abbrev pub latest : ℤ → List ℤ → ℤ
latest start [] = start
latest start (t ∷ ts) = t

-- Each tick is an interval or more behind the one before it.
abbrev pub Paced : ℤ → ℤ → List ℤ → Type 0
Paced interval start [] = Unit
Paced interval start (t ∷ ts) = (latest start ts +ℤ interval ≤ℤ t) × Paced interval start ts

infix 50 ◌<ℤ◌
abbrev pub ◌<ℤ◌ : ℤ → ℤ → Type 0
a <ℤ b = pos_part a + neg_part b < pos_part b + neg_part a

module _ {K C : Type 0} where
  -- A timer that was set at `start`, with its ticks so far.
  pub record IsTicking (c : C) (interval start : ℤ) (w : Ticking K C) : Type 0 where
    pub callback : w.loop.timer_callback ≡ some c
    pub every : w.loop.timer_interval_ms ≡ interval
    pub since : w.loop.last_timer_fire_ms ≡ latest start w.fired
    pub paced : Paced interval start w.fired

  abbrev pub Ticked : C → ℤ → ℤ → ℤ → Option (Ticking K C) → Type 0
  Ticked c interval start t o =
      (w' : Ticking K C) × (o ≡ some w')
      × IsTicking c interval start w'
      × (t -ℤ w'.loop.last_timer_fire_ms <ℤ interval)

  due_iff :
      (c : C) (interval start t : ℤ) (w : Ticking K C)
      → pos 0 <ℤ interval
      → IsTicking c interval start w
      → timer_due t w.loop ≡ leb_ℤ interval (t -ℤ w.loop.last_timer_fire_ms)
  unfolding timer_due
  due_iff c interval start t w positive k = rw (k.callback, k.every) (ground arith)

  paced_tick :
      (c : C) (interval start t : ℤ) (w : Ticking K C)
      → IsTicking c interval start w
      → leb_ℤ interval (t -ℤ w.loop.last_timer_fire_ms) ≡ true
      → latest start w.fired +ℤ interval ≤ℤ t
  paced_tick c interval start t w k due =
      let last = w.loop.last_timer_fire_ms in
      rw (← k.since) (ground (arith, +ℤ_parts last interval, -ℤ_parts t last))

module _ {K C I : Type 0} where
  -- The callback writes the time down.
  abbrev pub ticking_host : Host K C I (Ticking K C)
  ticking_host = record {
    loop_of = λ w. w.loop;
    with_loop = λ loop w. record w { loop = loop };
    call = λ c i fd w. some w;
    fire = λ c i w. some (record w { fired = w.loop.last_timer_fire_ms ∷ w.fired });
  }

  -- The end of a turn of the loop at each of these times.
  unfoldable pub ticks : I → List ℤ → Ticking K C → Option (Ticking K C)
  ticks i [] w = some w
  ticks i (t ∷ ts) w = maybe_run_timer ticking_host t i w >>= ticks i ts

  module _ (c : C) (interval start : ℤ) (positive : pos 0 <ℤ interval) where
    tick-Ticked :
        (i : I) (t : ℤ) (w : Ticking K C)
        → IsTicking c interval start w
        → Ticked c interval start t (maybe_run_timer ticking_host t i w)
    unfolding maybe_run_timer fire_timer
    tick-Ticked i t w k = elim (Bool-cases (leb_ℤ interval (t -ℤ w.loop.last_timer_fire_ms))) [
      | inl due ↦ (
        record { loop = record w.loop { last_timer_fire_ms = t }; fired = t ∷ w.fired },
        rw (due_iff c interval start t w positive k, due, k.callback) refl,
        record {
          callback = k.callback;
          every = k.every;
          since = refl;
          paced = (paced_tick c interval start t w k due, k.paced);
        },
        omega (arith, positive, -ℤ_parts t t),
      )
      | inr early ↦ (w, rw (due_iff c interval start t w positive k, early) refl, k, ground arith)
    ]

    -- With a timer of a positive interval set, and whatever the clock readings at the ends of the
    -- turns: each tick is an interval or more behind the one before it, and behind the last reading
    -- less than an interval has passed since the last tick, so that none is overdue.
    pub ticks-Ticked :
        (i : I) (ts : List ℤ) (t : ℤ) (w : Ticking K C)
        → IsTicking c interval start w
        → Ticked c interval start t (ticks i (ts ++ (t ∷ [])) w)
    unfolding ticks
    ticks-Ticked i [] t w k =
        let (w', e, k', timely) = tick-Ticked i t w k in (w', rw e refl, k', timely)
    ticks-Ticked i (s ∷ ts) t w k =
        let (v, e, k', _) = tick-Ticked i s w k in
        let (w', e', k'', timely) = ticks-Ticked i ts t v k' in (w', rw e e', k'', timely)
