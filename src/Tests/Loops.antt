-- ===== src/Tests/Loops.antt =====
-- The event loop of src/net/event_loop.cpp on a small kernel, with its callbacks as numbers.
use keva_db.Base.{
  ℕ, ◌≡◌, refl, Option, none, some, List, [], ◌∷◌, ◌++◌, arith, ◌==◌, if◌then◌else◌, codes,
}
use keva_db.Base.Assoc.{lookup, assign}
use keva_db.Base.Int.{pos}
use keva_db.Net.EventLoop.{
  Epoll, CtlOp, ctl_add, ctl_mod, ctl_del, asked, enoent, EventLoop, new_event_loop, set_timer,
  add_readable, add_or_modify, epoll_ctl_op,
}
use keva_db.Net.EventLoop.Watching.{Grants}
use keva_db.Net.EventLoop.Interest.{add_writable_call, apply, Registered, apply-Registered}
use keva_db.Net.EventLoop.Dispatch.{Woken, ready, interrupted}
use keva_db.Net.EventLoop.Dispatch.Timer.{Ticking, ticks, Ticked, ticks-Ticked}

-- The error number of an operation on a descriptor that is watched, or is not.
abbrev answer : CtlOp → Option ℕ → Option ℕ
answer ctl_add none = none
answer ctl_add (some events) = some 17
answer ctl_mod none = some enoent
answer ctl_mod (some events) = none
answer ctl_del none = some enoent
answer ctl_del (some events) = none

abbrev watching : Option ℕ → ℕ → Option ℕ → (ℕ → Option ℕ) → ℕ → Option ℕ
watching none fd content k j = if fd == j then content else k j
watching (some e) fd content k j = k j

pub missing_only : (e : ℕ) (o : Option ℕ) → answer ctl_del o ≡ some e → o ≡ none
missing_only e none h = refl
missing_only e (some events) h = cc

abbrev pub small_kernel : Epoll
small_kernel = record {
  Instance = ℕ → Option ℕ;
  interest = λ k. k;
  ctl = λ op fd events k. (watching (answer op (k fd)) fd (asked op events) k, answer op (k fd));
  strerror = λ e. codes "error";
  accepted = λ op fd events k good j. rw good refl;
  refused = λ op fd events e k bad j. rw bad refl;
  missing = λ fd events e k bad _. missing_only e (k fd) bad;
}

pub small_kernel-Grants : Grants small_kernel
small_kernel-Grants = record {
  adds = λ fd events k free. rw free refl;
  modifies = λ fd events old k there. rw there refl;
  removes = λ fd events old k there. rw there refl;
}

abbrev pub nothing_watched : ℕ → Option ℕ
nothing_watched j = none

abbrev empty_loop : EventLoop (ℕ → Option ℕ) ℕ
empty_loop = new_event_loop nothing_watched

abbrev reading : EventLoop (ℕ → Option ℕ) ℕ
reading = (add_readable small_kernel 5 1 empty_loop).0

apply-Registered_example :
    Registered small_kernel 5 reading (apply small_kernel (add_writable_call 5 2) reading)
unfolding add_readable add_or_modify epoll_ctl_op lookup assign
apply-Registered_example = apply-Registered small_kernel (add_writable_call 5 2) reading refl

abbrev timed : Ticking (ℕ → Option ℕ) ℕ
timed = record { loop = set_timer (pos 100) 3 (pos 1000) empty_loop; fired = [] }

ticks-Ticked_example :
    Ticked 3
      (pos 100)
      (pos 1000)
      (pos 1350)
      (ticks {I = ℕ} 0 ((pos 1050 ∷ pos 1120 ∷ []) ++ (pos 1350 ∷ [])) timed)
ticks-Ticked_example =
    ticks-Ticked 3 (pos 100) (pos 1000) (omega arith) 0 (pos 1050 ∷ pos 1120 ∷ []) (pos 1350) timed
      (record { callback = refl; every = refl; since = refl; paced = tt })

abbrev wakes : List (Woken ℕ)
wakes = interrupted ∷ ready [] (pos 1120) 0 ∷ []
