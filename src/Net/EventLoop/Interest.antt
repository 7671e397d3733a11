-- ===== src/Net/EventLoop/Interest.antt =====
-- What epoll watches is what the loop has callbacks for.
use keva_db.Base.{
  ℕ, ◌≡◌, ◌≢◌, refl, ◌∙◌, inl, inr, true, Option, none, some, arith, Option-cases, Bool-cases,
  if◌then◌else◌, is_some,
}
use keva_db.Base.Assoc.{lookup, lookup-assign, lookup-erase}
use keva_db.Common.Status.{Status, ok}
use keva_db.Net.EventLoop.{
  Epoll, CtlOp, ctl_add, ctl_mod, ctl_del, asked, epoll_in, EventLoop, FdHandlers, with_handlers,
  epoll_ctl_op, add_or_modify, add_readable, add_writable, remove, remove_writable_of,
  remove_writable,
}

-- The events to watch for the callbacks of a descriptor.
abbrev pub mask : {C : Type 0} → Option (FdHandlers C) → Option ℕ
mask none = none
mask (some h) = some (
    if is_some h.on_readable
    then (if is_some h.on_writable then 5 else 1)
    else if is_some h.on_writable
    then 4
    else 0)

-- A call of one of the methods that change what is watched.
pub data Registration (C : Type 0) : Type 0 where
  add_readable_call add_writable_call : ℕ → C → Registration C
  remove_writable_call remove_call : ℕ → Registration C

abbrev pub target : {C : Type 0} → Registration C → ℕ
target (add_readable_call fd c) = fd
target (add_writable_call fd c) = fd
target (remove_writable_call fd) = fd
target (remove_call fd) = fd

module _ (os : Epoll) where
  open os use {Instance, interest, ctl}

  pub ctl-other :
      (op : CtlOp) (fd events : ℕ) (k : Instance) (j : ℕ)
      → fd ≢ j
      → interest (ctl op fd events k).0 j ≡ interest k j
  ctl-other op fd events k j ne = elim (Option-cases (ctl op fd events k).1) [
    | inl good ↦ ground (arith, os.accepted op fd events k good j)
    | inr (e, bad) ↦ os.refused op fd events e k bad j
  ]

module _ (os : Epoll) {C : Type 0} where
  open os use {Instance, interest, ctl}

  abbrev pub apply : Registration C → EventLoop Instance C → EventLoop Instance C × Status
  apply (add_readable_call fd c) loop = add_readable os fd c loop
  apply (add_writable_call fd c) loop = add_writable os fd c loop
  apply (remove_writable_call fd) loop = remove_writable os fd loop
  apply (remove_call fd) loop = remove os fd loop

  -- The kernel watches a descriptor for just the callbacks that it has.
  abbrev pub Watches : EventLoop Instance C → ℕ → Type 0
  Watches loop j = interest loop.epoll j ≡ mask (lookup j loop.handlers)

  -- A call on a descriptor: a success leaves it watched for its callbacks, and whatever the result
  -- every other descriptor is as it was.
  pub record Registered (fd : ℕ) (loop : EventLoop Instance C) (r : EventLoop Instance C × Status)
      : Type 0 where
    pub watched : ok r.1 ≡ true → Watches r.0 fd
    pub others : (j : ℕ) → fd ≢ j → Watches loop j → Watches r.0 j

  ctl_op-Registered :
      (op : CtlOp) (fd events : ℕ) (loop : EventLoop Instance C)
      → (ok (epoll_ctl_op os op fd events loop).1 ≡ true
          → interest (epoll_ctl_op os op fd events loop).0.epoll fd ≡ asked op events)
        × ((j : ℕ)
            → fd ≢ j
            → interest (epoll_ctl_op os op fd events loop).0.epoll j ≡ interest loop.epoll j)
  unfolding epoll_ctl_op
  ctl_op-Registered op fd events loop = (
    λ good. elim (Option-cases (ctl op fd events loop.epoll).1) [
      | inl fine ↦ ground (arith, os.accepted op fd events loop.epoll fine fd)
      | inr (e, bad) ↦ ground arith
    ],
    ctl-other os op fd events loop.epoll,
  )

  add_or_modify-Registered :
      (fd events : ℕ) (loop : EventLoop Instance C)
      → ((ok (add_or_modify os fd events loop).1 ≡ true
            → interest (add_or_modify os fd events loop).0.epoll fd ≡ some events)
          × ((j : ℕ)
              → fd ≢ j
              → interest (add_or_modify os fd events loop).0.epoll j ≡ interest loop.epoll j))
        × ((add_or_modify os fd events loop).0.handlers ≡ loop.handlers)
  unfolding add_or_modify
  add_or_modify-Registered fd events loop =
      let (added, first) = ctl_op-Registered ctl_add fd events loop in
      let (modified, second) =
        ctl_op-Registered ctl_mod fd events (epoll_ctl_op os ctl_add fd events loop).0 in
      elim (Bool-cases (ok (epoll_ctl_op os ctl_add fd events loop).1)) [
        | inl fine ↦ rw fine ((λ _. added fine, first), unfold epoll_ctl_op in refl)
        | inr bad ↦
            rw bad ((modified, λ j ne. second j ne ∙ first j ne), unfold epoll_ctl_op in refl)
      ]

  -- Setting the callbacks of a descriptor, and asking for just their events.
  add-Registered :
      (fd events : ℕ) (h : FdHandlers C) (loop : EventLoop Instance C)
      → some events ≡ mask (some h)
      → Registered fd loop (add_or_modify os fd events (with_handlers fd h loop))
  add-Registered fd events h loop e =
      let ((good, same), hs) = add_or_modify-Registered fd events (with_handlers fd h loop) in
      let at = λ (j : ℕ). lookup-assign fd j h loop.handlers in
      record {
        watched = λ fine. good fine ∙ (rw hs (ground (arith, at fd)));
        others = λ j ne w. same j ne ∙ (rw hs (ground (arith, at j)));
      }

  remove-Registered :
      (fd : ℕ) (loop : EventLoop Instance C) → Registered fd loop (remove os fd loop)
  unfolding remove
  remove-Registered fd loop =
      let at = λ (j : ℕ). lookup-erase fd j loop.handlers in
      record {
        watched = λ fine. elim (Option-cases (ctl ctl_del fd 0 loop.epoll).1) [
          | inl good ↦ ground (arith, at fd, os.accepted ctl_del fd 0 loop.epoll good fd)
          | inr (e, bad) ↦ ground (
            arith,
            at fd,
            os.missing fd 0 e loop.epoll bad,
            os.refused ctl_del fd 0 e loop.epoll bad fd,
          )
        ];
        others = λ j ne w. ctl-other os ctl_del fd 0 loop.epoll j ne ∙ (ground (arith, at j));
      }

  cleared-Registered :
      (fd : ℕ) (h : FdHandlers C) (loop : EventLoop Instance C)
      → Registered fd loop (remove_writable_of os (some h) fd loop)
  unfolding remove_writable_of
  cleared-Registered fd h loop =
      let cleared = with_handlers fd (record h { on_writable = none }) loop in
      let at = λ (j : ℕ). lookup-assign fd j (record h { on_writable = none }) loop.handlers in
      elim (Bool-cases (is_some h.on_readable)) [
        | inl reads ↦
            let (good, same) = ctl_op-Registered ctl_mod fd epoll_in cleared in
            rw reads (record {
              watched = λ fine. good fine ∙ (unfold epoll_ctl_op in ground (arith, at fd));
              others = λ j ne w. same j ne ∙ (unfold epoll_ctl_op in ground (arith, at j));
            })
        | inr silent ↦
            let r = remove-Registered fd cleared in
            rw silent (record {
              watched = r.watched;
              others = λ j ne w. r.others j ne (ground (arith, at j));
            })
      ]

  remove_writable-Registered :
      (fd : ℕ) (loop : EventLoop Instance C)
      → Watches loop fd
      → Registered fd loop (remove_writable os fd loop)
  unfolding remove_writable
  remove_writable-Registered fd loop w = elim (Option-cases (lookup fd loop.handlers)) [
    | inl gone ↦
        rw gone (unfold remove_writable_of in record { watched = λ _. w; others = λ j _ v. v })
    | inr (h, e) ↦ rw e (cleared-Registered fd h loop)
  ]

  -- Whatever the kernel answers to a call of add_readable, add_writable, remove_writable or remove:
  -- when it returns success, the descriptor is watched for just the callbacks that it has then, if
  -- it was before, and every other descriptor that was so still is.
  pub apply-Registered :
      (call : Registration C) (loop : EventLoop Instance C)
      → Watches loop (target call)
      → Registered (target call) loop (apply call loop)
  unfolding add_readable add_writable
  apply-Registered (add_readable_call fd c) loop w = add-Registered fd _ _ loop (ground arith)
  apply-Registered (add_writable_call fd c) loop w = add-Registered fd _ _ loop (ground arith)
  apply-Registered (remove_writable_call fd) loop w = remove_writable-Registered fd loop w
  apply-Registered (remove_call fd) loop w = remove-Registered fd loop
