-- ===== src/Core/Db/Expiry.antt =====
-- Times to live, and the deletion of keys that are past their time.
use keva_db.Base.{
  ℕ, zero, suc, ◌*◌, ◌≡◌, refl, sym, ap, ◌∙◌, inl, inr, Bool, true, false, Option, none, some, List,
  [], ◌∷◌, arith, ltb, ◌==◌, if◌then◌else◌, Bool-cases, Bytes, bytes_eq, bytes_eq_refl,
  bytes_eq_iff, is_some, length, All,
}
use keva_db.Base.Int.{ℤ, pos, negsuc, leb_ℤ, ltb_ℤ, ◌-ℤ◌, -ℤ_parts, InI64, wrap_i64_self}
use keva_db.Core.Chain.{DictEntry}
use keva_db.Core.Db.{
  KevaDatabase, delete_key, delete_keys, past, expired_keys, expire_cycles, active_expire_cycle,
  remaining_ms, pttl, rehash_step, flush, set_expire,
}
use keva_db.Core.Dict.{random_sample, size}
use keva_db.Core.Dict as Dict
use keva_db.Core.Db.Live.{IsDb, alive, live, Written-live, delete_key-Written, set_expire-Written}
use keva_db.Core.Db.Lookups.{past_later}
use keva_db.Core.Dict.Invariant.{view, clear-IsDict, view-clear}
use keva_db.Core.Dict.Methods.{get-Stepped, exists-view}
use keva_db.Core.Dict.Sampling.{Stands, random_sample-Stands}
use keva_db.Core.Dict.Steps.{rehash_step-Stepped}
use keva_db.Core.Object.{KevaObject}

-- A valid database with the same live keys, at a time and at every later one.
pub record SameLive (now_ms : ℤ) (db db' : KevaDatabase) : Type 0 where
  pub valid : IsDb db'
  pub lives :
      (later : ℤ) → leb_ℤ now_ms later ≡ true → (q : Bytes) → live db' later q ≡ live db later q

-- A key that holds nothing at a time and later.
abbrev Gone : ℤ → KevaDatabase → Bytes → Type 0
Gone now_ms db k = (later : ℤ) → leb_ℤ now_ms later ≡ true → live db later k ≡ none

both_none :
    (b : Bool) (later : ℤ) (o : Option KevaObject)
    → (b ≡ true → o ≡ none)
    → (if b then alive later none none else o) ≡ o
unfolding alive past
both_none true later o h = sym (h refl)
both_none false later o h = refl

delete_key-SameLive :
    (now_ms : ℤ) (db : KevaDatabase)
    → IsDb db
    → (k : Bytes) → Gone now_ms db k
    → SameLive now_ms db (delete_key db k)
delete_key-SameLive now_ms db w k gone =
    let u = delete_key-Written db w k in
    record {
      valid = u.valid;
      lives = λ later after q.
          Written-live u later q
          ∙ both_none (bytes_eq k q) later (live db later q)
              (λ e. ap (live db later) (sym ((bytes_eq_iff k q).0 e)) ∙ gone later after);
    }

SameLive-self : (now_ms : ℤ) (db : KevaDatabase) → IsDb db → SameLive now_ms db db
SameLive-self now_ms db w = record { valid = w; lives = λ later after q. refl }

pub SameLive-after :
    (now_ms : ℤ) {db db' db'' : KevaDatabase}
    → SameLive now_ms db db'
    → SameLive now_ms db' db''
    → SameLive now_ms db db''
SameLive-after now_ms s t = record {
  valid = t.valid;
  lives = λ later after q. t.lives later after q ∙ s.lives later after q;
}

delete_keys-SameLive :
    (now_ms : ℤ) (ks : List Bytes) (db : KevaDatabase)
    → IsDb db
    → All (Gone now_ms db) ks
    → SameLive now_ms db (delete_keys db ks)
unfolding delete_keys
delete_keys-SameLive now_ms [] db w gone = SameLive-self now_ms db w
delete_keys-SameLive now_ms (k ∷ ks) db w (gone, rest) =
    let s = delete_key-SameLive now_ms db w k gone in
    SameLive-after now_ms s
      (delete_keys-SameLive now_ms ks (delete_key db k) s.valid (still ks rest s))
  where
    still :
        (l : List Bytes)
        → All (Gone now_ms db) l
        → SameLive now_ms db (delete_key db k)
        → All (Gone now_ms (delete_key db k)) l
    still [] g s = tt
    still (x ∷ l) (g, gs) s = (λ later after. s.lives later after x ∙ g later after, still l gs s)

Gone-when_past :
    (now_ms : ℤ) (db : KevaDatabase) (k : Bytes)
    → past now_ms (view db.expires k) ≡ true
    → Gone now_ms db k
unfolding alive
Gone-when_past now_ms db k p later after =
    rw (past_later now_ms later (view db.expires k) after p) refl

expired_keys-Gone :
    (now_ms : ℤ) (db : KevaDatabase) (es : List (DictEntry ℤ))
    → All (Stands db.expires) es
    → All (Gone now_ms db) (expired_keys now_ms es)
unfolding expired_keys
expired_keys-Gone now_ms db [] a = tt
expired_keys-Gone now_ms db (e ∷ es) (stands, a) = elim (Bool-cases (past now_ms (some e.value))) [
  | inl p ↦ rw p (
    Gone-when_past now_ms db e.key (ap (past now_ms) stands ∙ p),
    expired_keys-Gone now_ms db es a,
  )
  | inr p ↦ rw p (expired_keys-Gone now_ms db es a)
]

expire_cycles-SameLive :
    (cycles : ℕ) (now_ms : ℤ) (draw : ℕ → ℕ × ℕ) (db : KevaDatabase) (total : ℕ)
    → IsDb db
    → SameLive now_ms db (expire_cycles cycles now_ms draw db total).0
unfolding expire_cycles
expire_cycles-SameLive zero now_ms draw db total w = SameLive-self now_ms db w
expire_cycles-SameLive (suc n) now_ms draw db total w =
    let sampled = random_sample db.expires 20 (draw n).0 (draw n).1 in
    let keys = expired_keys now_ms sampled in
    let s = delete_keys-SameLive now_ms keys db w (
      expired_keys-Gone now_ms db sampled
        (random_sample-Stands db.expires w.expires 20 (draw n).0 (draw n).1)) in
    elim (Bool-cases (length sampled == 0)) [
      | inl empty ↦ rw empty (SameLive-self now_ms db w)
      | inr full ↦ rw full (elim (Bool-cases (ltb (length keys * 4) (length sampled))) [
        | inl few ↦ rw few s
        | inr many ↦ rw many (
            SameLive-after now_ms s
              (expire_cycles-SameLive n now_ms draw (delete_keys db keys) _ s.valid))
      ])
    ]

module _ (db : KevaDatabase) (w : IsDb db) where
  -- Whatever the random draws, an expiry cycle on a valid database changes the live object of no
  -- key, at its time or later, and keeps both dictionaries valid.
  pub active_expire_cycle-SameLive :
      (now_ms : ℤ) (draw : ℕ → ℕ × ℕ) → SameLive now_ms db (active_expire_cycle now_ms draw db).0
  unfolding active_expire_cycle
  active_expire_cycle-SameLive now_ms draw = elim (Bool-cases (size db.expires == 0)) [
    | inl empty ↦ rw empty (SameLive-self now_ms db w)
    | inr full ↦ rw full (expire_cycles-SameLive 3 now_ms draw db 0 w)
  ]

  -- The timer's migration changes nothing that is stored.
  pub rehash_step-SameLive : (now_ms : ℤ) → SameLive now_ms db (rehash_step db)
  unfolding rehash_step
  rehash_step-SameLive now_ms =
      let s = rehash_step-Stepped db.keys 100 w.keys in
      let t = rehash_step-Stepped db.expires 100 w.expires in
      record {
        valid = record { keys = s.valid; expires = t.valid };
        lives = λ later after q. rw (s.same q, t.same q);
      }

  -- After a flush no key holds anything at any time.
  pub flush-live : IsDb (flush db) × ((t : ℤ) (q : Bytes) → live (flush db) t q ≡ none)
  unfolding flush alive past
  flush-live = (
    record { keys = clear-IsDict db.keys; expires = clear-IsDict db.expires },
    λ t q. rw (view-clear db.keys q, view-clear db.expires q),
  )

  -- PTTL: -2 for a key that is not stored, -1 without an expiry time, and otherwise what is left.
  pub pttl-view :
      (k : Bytes) (now_ms : ℤ)
      → (pttl db k now_ms).1
        ≡ (if is_some (view db.keys k) then remaining_ms now_ms (view db.expires k) else negsuc 1)
  unfolding pttl
  pttl-view k now_ms =
      let (s, found) = get-Stepped db.expires w.expires k in
      let answer = remaining_ms now_ms (Dict.get db.expires k).1 in
      either (Dict.exists db.keys k) _ answer ∙ rw (exists-view db.keys w.keys k, found) refl
    where
      either :
          (b : Bool) (db' : KevaDatabase) (n : ℤ)
          → (if◌then◌else◌ {A = KevaDatabase × ℤ} b (db', n) (db, negsuc 1)).1
            ≡ (if b then n else negsuc 1)
      either true db' n = refl
      either false db' n = refl

-- What is left of a time to live that an `int64_t` can hold.
pub remaining_exact :
    (now_ms ts : ℤ)
    → InI64 (ts -ℤ now_ms)
    → remaining_ms now_ms (some ts) ≡ (if ltb_ℤ now_ms ts then ts -ℤ now_ms else pos 0)
unfolding remaining_ms
remaining_exact now_ms ts fits =
    let e = -ℤ_parts ts now_ms in rw (wrap_i64_self (ts -ℤ now_ms) fits) (ground (arith, e))

-- After set_expire on a stored key of a valid database, pttl is the time left where it fits in 64
-- bits, and 0 when the time is over.
pub pttl-set_expire :
    (db : KevaDatabase) (w : IsDb db) (k : Bytes) (ts now_ms : ℤ)
    → is_some (view db.keys k) ≡ true
    → InI64 (ts -ℤ now_ms)
    → (pttl (set_expire db k ts) k now_ms).1 ≡ (if ltb_ℤ now_ms ts then ts -ℤ now_ms else pos 0)
pttl-set_expire db w k ts now_ms here fits =
    let u = set_expire-Written db w k ts in
    pttl-view (set_expire db k ts) u.valid k now_ms
    ∙ (rw (u.objects k, u.times k, bytes_eq_refl k, here) (remaining_exact now_ms ts fits))
