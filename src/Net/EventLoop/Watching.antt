-- ===== src/Net/EventLoop/Watching.antt =====
-- A kernel that grants what it can, the calls of src/net/event_loop.cpp, and what is then watched.
use keva_db.Base.{
  ℕ, ◌≡◌, refl, ap, ◌∙◌, inl, inr, true, none, some, arith, Option-cases, Bool-cases, ◌==◌, ==_iff,
  is_some,
}
use mathlib.Core.Path.{subst}
use keva_db.Base.Assoc.{lookup, lookup-erase}
use keva_db.Common.Status.{Status, ok}
use keva_db.Net.EventLoop.{
  Epoll, ctl_add, ctl_mod, ctl_del, EventLoop, epoll_in, epoll_ctl_op, add_or_modify, add_readable,
  add_writable, remove, remove_writable, remove_writable_of,
}
use keva_db.Net.EventLoop.Interest.{
  add_readable_call, add_writable_call, remove_writable_call, remove_call, Watches, Registered,
  apply-Registered, mask,
}

-- The documented errors of epoll_ctl for a valid descriptor, short of memory: a descriptor that is
-- added is watched already, and one that is modified or removed is not.
pub record Grants (os : Epoll) : Type 0 where
  pub adds :
      (fd events : ℕ) (k : os.Instance)
      → os.interest k fd ≡ none
      → (os.ctl ctl_add fd events k).1 ≡ none
  pub modifies :
      (fd events old : ℕ) (k : os.Instance)
      → os.interest k fd ≡ some old
      → (os.ctl ctl_mod fd events k).1 ≡ none
  pub removes :
      (fd events old : ℕ) (k : os.Instance)
      → os.interest k fd ≡ some old
      → (os.ctl ctl_del fd events k).1 ≡ none

module _ (os : Epoll) {C : Type 0} where
  open os use {Instance, interest, ctl}

  abbrev pub AllWatched : EventLoop Instance C → Type 0
  AllWatched loop = (j : ℕ) → Watches os loop j

  Registered-AllWatched :
      (fd : ℕ) (loop : EventLoop Instance C) (r : EventLoop Instance C × Status)
      → Registered os fd loop r
      → AllWatched loop
      → Watches os r.0 fd
      → AllWatched r.0
  Registered-AllWatched fd loop r k w here j = elim (Bool-cases (fd == j)) [
    | inl same ↦ subst (Watches os r.0) ((==_iff fd j).0 same) here
    | inr other ↦ k.others j (λ e. ground (arith, e, other)) (w j)
  ]

module _ (os : Epoll) (grants : Grants os) {C : Type 0} where
  open os use {Instance, interest, ctl}

  add_or_modify-ok :
      (fd events : ℕ) (loop : EventLoop Instance C) → ok (add_or_modify os fd events loop).1 ≡ true
  unfolding add_or_modify epoll_ctl_op
  add_or_modify-ok fd events loop = elim (Option-cases (interest loop.epoll fd)) [
    | inl free ↦ rw (grants.adds fd events loop.epoll free) refl
    | inr (old, there) ↦ elim (Option-cases (ctl ctl_add fd events loop.epoll).1) [
      | inl good ↦ rw good refl
      | inr (e, bad) ↦
          let still = os.refused ctl_add fd events e loop.epoll bad fd ∙ there in
          rw (bad, grants.modifies fd events old (ctl ctl_add fd events loop.epoll).0 still) refl
    ]
  ]

  pub add_readable-AllWatched :
      (fd : ℕ) (c : C) (loop : EventLoop Instance C)
      → AllWatched os loop
      → AllWatched os (add_readable os fd c loop).0
  unfolding add_readable
  add_readable-AllWatched fd c loop w =
      let k = apply-Registered os (add_readable_call fd c) loop (w fd) in
      Registered-AllWatched os fd loop _ k w (k.watched (add_or_modify-ok fd _ _))

  pub add_writable-AllWatched :
      (fd : ℕ) (c : C) (loop : EventLoop Instance C)
      → AllWatched os loop
      → AllWatched os (add_writable os fd c loop).0
  unfolding add_writable
  add_writable-AllWatched fd c loop w =
      let k = apply-Registered os (add_writable_call fd c) loop (w fd) in
      Registered-AllWatched os fd loop _ k w (k.watched (add_or_modify-ok fd _ _))

  remove-ok :
      (fd old : ℕ) (loop : EventLoop Instance C)
      → interest loop.epoll fd ≡ some old
      → ok (remove os fd loop).1 ≡ true
  unfolding remove
  remove-ok fd old loop e = rw (grants.removes fd 0 old loop.epoll e) refl

  removed-Watches :
      (fd : ℕ) (loop : EventLoop Instance C)
      → interest loop.epoll fd ≡ none
      → Watches os (remove os fd loop).0 fd
  unfolding remove
  removed-Watches fd loop free =
      let gone = lookup-erase fd fd loop.handlers in
      elim (Option-cases (ctl ctl_del fd 0 loop.epoll).1) [
        | inl good ↦ ground (arith, gone, os.accepted ctl_del fd 0 loop.epoll good fd)
        | inr (e, bad) ↦ ground (arith, gone, os.refused ctl_del fd 0 e loop.epoll bad fd)
      ]

  pub remove-AllWatched :
      (fd : ℕ) (loop : EventLoop Instance C)
      → AllWatched os loop
      → AllWatched os (remove os fd loop).0
  remove-AllWatched fd loop w =
      let k = apply-Registered os (remove_call fd) loop (w fd) in
      Registered-AllWatched os fd loop (remove os fd loop) k w
        (elim (Option-cases (interest loop.epoll fd)) [
          | inl free ↦ removed-Watches fd loop free
          | inr (old, there) ↦ k.watched (remove-ok fd old loop there)
        ])

  remove_writable-ok :
      (fd : ℕ) (loop : EventLoop Instance C)
      → AllWatched os loop
      → ok (remove_writable os fd loop).1 ≡ true
  unfolding remove_writable remove_writable_of epoll_ctl_op
  remove_writable-ok fd loop w = elim (Option-cases (lookup fd loop.handlers)) [
    | inl unknown ↦ rw unknown refl
    | inr (h, e) ↦
        let there = w fd ∙ ap mask e in
        elim (Bool-cases (is_some h.on_readable)) [
          | inl reads ↦ rw (e, reads, grants.modifies fd epoll_in _ loop.epoll there) refl
          | inr silent ↦ rw (e, silent) (remove-ok fd _ _ there)
        ]
  ]

  pub remove_writable-AllWatched :
      (fd : ℕ) (loop : EventLoop Instance C)
      → AllWatched os loop
      → AllWatched os (remove_writable os fd loop).0
  remove_writable-AllWatched fd loop w =
      let k = apply-Registered os (remove_writable_call fd) loop (w fd) in
      Registered-AllWatched os fd loop (remove_writable os fd loop) k w
        (k.watched (remove_writable-ok fd loop w))
