-- ===== src/Net/Socket/Outcome.antt =====
-- What `Socket::create_server` of src/net/socket.cpp leaves, by the call that failed.
use keva_db.Base.{
  ℕ, ◌≡◌, refl, sym, ◌⊎◌, inl, inr, Bool, true, false, ◌||◌, ◌==◌, none, some, List, [], ◌∷◌,
  if◌then◌else◌, Bool-cases, Option-cases, length, Bytes, bytes_eq, codes,
}
use mathlib.Core.Path.{subst}
use keva_db.Common.Status.{Status, success, io_error, ok}
use keva_db.Net.Socket.{
  Socket, ServerAnswers, no_socket, owns, close_fd, move_construct, status_of_call, set_nonblocking,
  address_status, first_failure, configure, create_server,
}

module _ (strerror : ℕ → Bytes) where
  -- The calls that come before each step have succeeded.
  abbrev Optioned : ServerAnswers → Type 0
  Optioned a = (a.reuseaddr_error ≡ none) × (a.nodelay_error ≡ none)

  abbrev Nonblocking : ServerAnswers → Type 0
  Nonblocking a = Optioned a × (a.getfl_error ≡ none) × (a.setfl_error ≡ none)

  abbrev is_bindable : Bytes → ServerAnswers → Bool
  is_bindable host a = bytes_eq host (codes "0.0.0.0") || (length host == 0) || a.address_is_valid

  abbrev Bindable : Bytes → ServerAnswers → Type 0
  Bindable host a = Nonblocking a × (is_bindable host a ≡ true)

  -- The first call behind `socket` that failed, all those before it having succeeded, and the status
  -- that tells of it.
  pub data FirstFailure (host : Bytes) (a : ServerAnswers) : Status → Type 0 where
    no_reuseaddr :
        (e : ℕ) → a.reuseaddr_error ≡ some e → FirstFailure host a (io_error (strerror e))
    no_nodelay :
        (e : ℕ)
        → a.reuseaddr_error ≡ none
        → a.nodelay_error ≡ some e
        → FirstFailure host a (io_error (strerror e))
    no_flags :
        (e : ℕ) → Optioned a → a.getfl_error ≡ some e → FirstFailure host a (io_error (strerror e))
    no_nonblocking :
        (e : ℕ)
        → Optioned a
        → a.getfl_error ≡ none
        → a.setfl_error ≡ some e
        → FirstFailure host a (io_error (strerror e))
    no_address :
        Nonblocking a
        → is_bindable host a ≡ false
        → FirstFailure host a (io_error (codes "Invalid bind address"))
    not_bound :
        (e : ℕ)
        → Bindable host a
        → a.bind_error ≡ some e
        → FirstFailure host a (io_error (strerror e))
    not_listening :
        (e : ℕ)
        → Bindable host a
        → a.bind_error ≡ none
        → a.listen_error ≡ some e
        → FirstFailure host a (io_error (strerror e))

  -- What a server's start leaves, with the calls that succeeded and the one that failed.
  pub data ServerOutcome (host : Bytes) (a : ServerAnswers)
      : (Socket × Status) × List ℕ → Type 0 where
    listening :
        a.socket_error ≡ none
        → Bindable host a
        → a.bind_error ≡ none
        → a.listen_error ≡ none
        → ServerOutcome host a ((owns a.socket_fd, success), [])
    no_descriptor :
        (e : ℕ)
        → a.socket_error ≡ some e
        → ServerOutcome host a ((no_socket, io_error (strerror e)), [])
    abandoned :
        (s : Status)
        → a.socket_error ≡ none
        → FirstFailure host a s
        → ServerOutcome host a ((no_socket, s), a.socket_fd ∷ [])

  address_status_lem :
      (host : Bytes) (a : ServerAnswers)
      → address_status strerror host a.address_is_valid
        ≡ (if is_bindable host a then success else io_error (codes "Invalid bind address"))
  unfolding address_status
  address_status_lem host a = elim (Bool-cases (bytes_eq host (codes "0.0.0.0"))) [
    | inl any ↦ rw any refl
    | inr named ↦ elim (Bool-cases (length host == 0)) [
      | inl any ↦ rw (named, any) refl
      | inr named' ↦ rw (named, named') refl
    ]
  ]

  -- The steps behind `socket`: all have succeeded, or the first failure is the status.
  Configured : Bytes → ServerAnswers → Type 0
  Configured host a =
      ((configure strerror host a ≡ success)
        × Bindable host a
        × (a.bind_error ≡ none)
        × (a.listen_error ≡ none))
      ⊎ ((s : Status) × (configure strerror host a ≡ s) × (ok s ≡ false) × FirstFailure host a s)

  configure-Bindable : (host : Bytes) (a : ServerAnswers) → Bindable host a → Configured host a
  unfolding configure first_failure status_of_call set_nonblocking Configured
  configure-Bindable host a w =
      let (((reuse, nodelay), get, set), bindable) = w in
      let address = address_status_lem host a in
      elim (Option-cases a.bind_error) [
        | inl bound ↦ elim (Option-cases a.listen_error) [
          | inl fine ↦
              inl
                (rw (address, reuse, nodelay, get, set, bindable, bound, fine) refl, w, bound, fine)
          | inr (e, bad) ↦ inr (
            _,
            rw (address, reuse, nodelay, get, set, bindable, bound, bad) refl,
            refl,
            not_listening e w bound bad,
          )
        ]
        | inr (e, bad) ↦
            inr (
              _,
              rw (address, reuse, nodelay, get, set, bindable, bad) refl,
              refl,
              not_bound e w bad,
            )
      ]

  configure-Optioned : (host : Bytes) (a : ServerAnswers) → Optioned a → Configured host a
  unfolding configure first_failure status_of_call set_nonblocking Configured
  configure-Optioned host a w =
      let (reuse, nodelay) = w in
      elim (Option-cases a.getfl_error) [
        | inr (e, bad) ↦ inr (_, rw (reuse, nodelay, bad) refl, refl, no_flags e w bad)
        | inl get ↦ elim (Option-cases a.setfl_error) [
          | inr (e, bad) ↦
              inr (_, rw (reuse, nodelay, get, bad) refl, refl, no_nonblocking e w get bad)
          | inl set ↦ elim (Bool-cases (is_bindable host a)) [
            | inl fine ↦ configure-Bindable host a ((w, get, set), fine)
            | inr bad ↦
                let address = address_status_lem host a in
                inr (
                  _,
                  rw (address, reuse, nodelay, get, set, bad) refl,
                  refl,
                  no_address (w, get, set) bad,
                )
          ]
        ]
      ]

  configure-Configured : (host : Bytes) (a : ServerAnswers) → Configured host a
  unfolding configure first_failure status_of_call Configured
  configure-Configured host a = elim (Option-cases a.reuseaddr_error) [
    | inr (e, bad) ↦ inr (_, rw bad refl, refl, no_reuseaddr e bad)
    | inl reuse ↦ elim (Option-cases a.nodelay_error) [
      | inr (e, bad) ↦ inr (_, rw (reuse, bad) refl, refl, no_nodelay e reuse bad)
      | inl nodelay ↦ configure-Optioned host a (reuse, nodelay)
    ]
  ]

  -- What create_server leaves: every call has succeeded, on a host that stands for all addresses or
  -- can be read, and the socket owns the new descriptor; or `socket` has failed, and its error is
  -- the status; or a later step is the first that failed, and then its error is the status, there
  -- is no socket, and the descriptor has been closed, once.
  pub create_server-ServerOutcome :
      (host : Bytes) (a : ServerAnswers) → ServerOutcome host a (create_server strerror host a)
  unfolding create_server move_construct close_fd status_of_call Configured
  create_server-ServerOutcome host a = elim (Option-cases a.socket_error) [
    | inr (e, none_made) ↦
        subst (ServerOutcome host a) (sym (rw none_made refl)) (no_descriptor e none_made)
    | inl made ↦ elim (configure-Configured host a) [
      | inl (fine, w, bound, listens) ↦
          subst (ServerOutcome host a) (sym (rw (fine, made) refl)) (listening made w bound listens)
      | inr (s, is_s, bad, first) ↦
          subst (ServerOutcome host a) (sym (rw (is_s, made, bad) refl)) (abandoned s made first)
    ]
  ]
