-- ===== src/Net/EventLoop/Callbacks.antt =====
-- What the methods of the loop do to the callbacks, whatever the kernel answers.
use keva_db.Base.{ℕ, ◌≡◌, refl, true, Bool-cases, inl, inr, none, some, is_some}
use keva_db.Base.Assoc.{lookup, assign, erase}
use keva_db.Common.Status.{ok}
use keva_db.Net.EventLoop.{
  Epoll, ctl_add, EventLoop, FdHandlers, handlers_at, epoll_ctl_op, add_or_modify, add_readable,
  add_writable, remove, remove_writable, remove_writable_of,
}

module _ (os : Epoll) {C : Type 0} where
  open os use {Instance}

  add_or_modify-handlers :
      (fd events : ℕ) (loop : EventLoop Instance C)
      → (add_or_modify os fd events loop).0.handlers ≡ loop.handlers
  unfolding add_or_modify epoll_ctl_op
  add_or_modify-handlers fd events loop =
      elim (Bool-cases (ok (epoll_ctl_op os ctl_add fd events loop).1)) [
        | inl fine ↦ rw fine refl
        | inr bad ↦ rw bad refl
      ]

  pub add_readable-handlers :
      (fd : ℕ) (c : C) (loop : EventLoop Instance C)
      → (add_readable os fd c loop).0.handlers
        ≡ assign fd (record (handlers_at fd loop) { on_readable = some c }) loop.handlers
  unfolding add_readable
  add_readable-handlers fd c loop = add_or_modify-handlers fd _ _

  pub add_writable-handlers :
      (fd : ℕ) (c : C) (loop : EventLoop Instance C)
      → (add_writable os fd c loop).0.handlers
        ≡ assign fd (record (handlers_at fd loop) { on_writable = some c }) loop.handlers
  unfolding add_writable
  add_writable-handlers fd c loop = add_or_modify-handlers fd _ _

  pub remove-handlers :
      (fd : ℕ) (loop : EventLoop Instance C)
      → (remove os fd loop).0.handlers ≡ erase fd loop.handlers
  unfolding remove
  remove-handlers fd loop = refl

  -- Of a descriptor that still has a read callback.
  pub remove_writable-handlers :
      (fd : ℕ) (h : FdHandlers C) (loop : EventLoop Instance C)
      → lookup fd loop.handlers ≡ some h
      → is_some h.on_readable ≡ true
      → (remove_writable os fd loop).0.handlers
        ≡ assign fd (record h { on_writable = none }) loop.handlers
  unfolding remove_writable remove_writable_of epoll_ctl_op
  remove_writable-handlers fd h loop e reads = rw (e, reads) refl
