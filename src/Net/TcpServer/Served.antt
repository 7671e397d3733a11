-- ===== src/Net/TcpServer/Served.antt =====
-- When the clients of the server and the callbacks of the loop agree, and what keeps them so.
use keva_db.Base.{
  ℕ, ◌≡◌, ◌≢◌, refl, sym, ap, ◌⊎◌, inl, inr, true, false, ◌&&◌, Option, none, some, List,
  Bool-cases, if◌then◌else◌, ◌>>=◌, ◌==◌, ==_iff,
}
use keva_db.Base.Assoc.{lookup, assign, erase, lookup-assign, lookup-erase}
use keva_db.Net.Connection.{
  Connection, new_connection, is_closed, has_pending_writes, Sent, flush_write_buffer,
}
use keva_db.Net.EventLoop.{FdHandlers, or_no_handlers}
use keva_db.Net.EventLoop.Dispatch.Keeps.{Holds}
use keva_db.Net.TcpServer.{Callback, client_readable, client_writable, Client}

pub then-Holds :
    {V W : Type 0} (P : W → Type 0) (m : Option V) (f : V → W)
    → ((v : V) → P (f v))
    → Holds P (m >>= λ v. some (f v))
then-Holds P none f h = tt
then-Holds P (some v) f h = h v

-- A client's callbacks: it is read, and it is written to when it has unsent bytes; it is open. A
-- descriptor of no client has none of the callbacks of clients.
abbrev pub Served : {X : Type 0} → Option Client → Option (FdHandlers (Callback X)) → Type 0
Served none none = Unit {0}
Served none (some h) = (h.on_readable ≢ some client_readable) × (h.on_writable ≡ none)
Served (some client) none = ⊥
Served (some client) (some h) =
    (h.on_readable ≡ some client_readable)
    × ((h.on_writable ≡ none) ⊎ (h.on_writable ≡ some client_writable))
    × (has_pending_writes client.conn ≡ true → h.on_writable ≡ some client_writable)
    × (is_closed client.conn ≡ false)

-- On every descriptor.
abbrev pub AllServed :
    {X : Type 0} → List (ℕ × Client) → List (ℕ × FdHandlers (Callback X)) → Type 0
AllServed clients handlers = (fd : ℕ) → Served (lookup fd clients) (lookup fd handlers)

-- A lookup in the form of the laws.
lookup-here {ℓ} :
    {V : Type ℓ} (fd j : ℕ) (m : List (ℕ × V))
    → lookup j m ≡ (if fd == j then lookup fd m else lookup j m)
lookup-here fd j m = elim (Bool-cases (fd == j)) [
  | inl here ↦ rw here (ap (λ k. lookup k m) (sym ((==_iff fd j).0 here)))
  | inr there ↦ rw there refl
]

module _ {X : Type 0} where
  Served-at :
      (fd : ℕ) (c : Option Client) (h : Option (FdHandlers (Callback X)))
      (cs cs' : List (ℕ × Client)) (hs hs' : List (ℕ × FdHandlers (Callback X)))
      → ((j : ℕ) → lookup j cs' ≡ (if fd == j then c else lookup j cs))
      → ((j : ℕ) → lookup j hs' ≡ (if fd == j then h else lookup j hs))
      → Served c h
      → AllServed cs hs
      → AllServed cs' hs'
  Served-at fd c h cs cs' hs hs' e f at others j = elim (Bool-cases (fd == j)) [
    | inl here ↦ rw (e j, f j, here) at
    | inr there ↦ rw (e j, f j, there) (others j)
  ]

  module _ (cs : List (ℕ × Client)) (hs : List (ℕ × FdHandlers (Callback X)))
      (s : AllServed cs hs) where
    pub erase-AllServed : (fd : ℕ) → AllServed (erase fd cs) (erase fd hs)
    erase-AllServed fd =
        Served-at fd none none cs _ hs _ (λ j. lookup-erase fd j cs) (λ j. lookup-erase fd j hs) tt
          s

    pub assign-AllServed :
        (fd : ℕ) (c : Client) (h : FdHandlers (Callback X))
        → Served (some c) (some h)
        → AllServed (assign fd c cs) (assign fd h hs)
    assign-AllServed fd c h at =
        Served-at fd (some c) (some h) cs _ hs _ (λ j. lookup-assign fd j c cs)
          (λ j. lookup-assign fd j h hs) at s

    pub client-AllServed :
        (fd : ℕ) (c : Client) → Served (some c) (lookup fd hs) → AllServed (assign fd c cs) hs
    client-AllServed fd c at =
        Served-at fd (some c) (lookup fd hs) cs _ hs _ (λ j. lookup-assign fd j c cs)
          (λ j. lookup-here fd j hs) at s

    pub handlers-AllServed :
        (fd : ℕ) (h : FdHandlers (Callback X))
        → Served (lookup fd cs) (some h)
        → AllServed cs (assign fd h hs)
    handlers-AllServed fd h at =
        Served-at fd (lookup fd cs) (some h) cs _ hs _ (λ j. lookup-here fd j cs)
          (λ j. lookup-assign fd j h hs) at s

  -- On every descriptor but one.
  abbrev pub OthersServed : ℕ → List (ℕ × Client) → List (ℕ × FdHandlers (Callback X)) → Type 0
  OthersServed fd cs hs = (j : ℕ) → (fd == j) ≡ false → Served (lookup j cs) (lookup j hs)

  pub erase-OthersServed :
      (fd : ℕ) (cs : List (ℕ × Client)) (hs : List (ℕ × FdHandlers (Callback X)))
      → OthersServed fd cs hs
      → AllServed (erase fd cs) (erase fd hs)
  erase-OthersServed fd cs hs s j = elim (Bool-cases (fd == j)) [
    | inl here ↦ rw (lookup-erase fd j cs, lookup-erase fd j hs, here) tt
    | inr there ↦ rw (lookup-erase fd j cs, lookup-erase fd j hs, there) (s j there)
  ]

  pub assign-OthersServed :
      (fd : ℕ) (c : Client) (cs : List (ℕ × Client)) (hs : List (ℕ × FdHandlers (Callback X)))
      → OthersServed fd cs hs
      → OthersServed fd (assign fd c cs) hs
  assign-OthersServed fd c cs hs s j there = rw (lookup-assign fd j c cs, there) (s j there)

  pub handlers-OthersServed :
      (fd : ℕ) (h : FdHandlers (Callback X)) (cs : List (ℕ × Client))
      (hs : List (ℕ × FdHandlers (Callback X)))
      → OthersServed fd cs hs
      → OthersServed fd cs (assign fd h hs)
  handlers-OthersServed fd h cs hs s j there = rw (lookup-assign fd j h hs, there) (s j there)

  pub newcomer-Served :
      (client : Client) (h : Option (FdHandlers (Callback X)))
      → has_pending_writes client.conn ≡ false
      → is_closed client.conn ≡ false
      → Served none h
      → Served
          (some client)
          (some (record (or_no_handlers h) { on_readable = some client_readable }))
  newcomer-Served client none idle fresh s = (refl, inl refl, λ more. cc, fresh)
  newcomer-Served client (some h) idle fresh s = (refl, inl s.1, λ more. cc, fresh)

  pub known-Served :
      (client : Client) (h : Option (FdHandlers (Callback X)))
      → Served (some client) h
      → Served
          (some client)
          (some (record (or_no_handlers h) { on_readable = some client_readable }))
  known-Served client none s = absurd s
  known-Served client (some h) s = (refl, s.1, s.2, s.3)

  -- A client that waits for room to write.
  pub waiting-Served :
      (client old : Client) (h : Option (FdHandlers (Callback X)))
      → is_closed client.conn ≡ false
      → Served (some old) h
      → Served
          (some client)
          (some (record (or_no_handlers h) { on_writable = some client_writable }))
  waiting-Served client old none fresh s = absurd s
  waiting-Served client old (some h) fresh s = (s.0, inr refl, λ more. refl, fresh)

  -- A client with nothing left to send.
  pub drained-Served :
      (client old : Client) (h : Option (FdHandlers (Callback X)))
      → is_closed client.conn ≡ false
      → has_pending_writes client.conn ≡ false
      → Served (some old) h
      → Served (some client) h
  drained-Served client old none fresh idle s = absurd s
  drained-Served client old (some h) fresh idle s = (s.0, s.1, λ more. cc, fresh)

  -- A client whose flush may have left something.
  pub still-Served :
      (client old : Client) (h : Option (FdHandlers (Callback X)))
      → is_closed client.conn ≡ false
      → (has_pending_writes old.conn ≡ false → has_pending_writes client.conn ≡ false)
      → Served (some old) h
      → Served (some client) h
  still-Served client old none fresh idle s = absurd s
  still-Served client old (some h) fresh idle s = (
    s.0,
    s.1,
    λ more. (elim (Bool-cases (has_pending_writes old.conn)) [
      | inl before ↦ s.2 before
      | inr nothing ↦ cc (idle nothing)
    ]),
    fresh,
  )

  pub callbacks_of :
      (client : Client) (h o : Option (FdHandlers (Callback X)))
      → o ≡ h
      → Served (some client) h
      → (h' : FdHandlers (Callback X)) × (o ≡ some h') × (h'.on_readable ≡ some client_readable)
  callbacks_of client none o e s = absurd s
  callbacks_of client (some h) o e s = (h, e, s.0)

-- What is left pending behind the two flushes of a readable event.
pub idle_after :
    (writes : List Sent) (c : Connection)
    → let pending = has_pending_writes c in
      let c' = if pending then (flush_write_buffer writes c).0 else c in
      (pending && has_pending_writes c') ≡ false → has_pending_writes c' ≡ false
idle_after writes c e = elim (Bool-cases (has_pending_writes c)) [
  | inl more ↦ rw more (rw more at e)
  | inr nothing ↦ rw (nothing, nothing) refl
]

abbrev pub newcomer : ℕ → Client
newcomer id = record { client_id = id; conn = new_connection }
