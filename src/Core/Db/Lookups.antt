-- ===== src/Core/Db/Lookups.antt =====
-- Lookups in a database: the three branches of `get`, at the time of the call and later.
use keva_db.Base.{
  ℕ, ◌≡◌, refl, sym, ap, ◌∙◌, inl, inr, true, false, Option, none, some, arith, if◌then◌else◌,
  Bool-cases, Bytes, bytes_eq, is_some,
}
use keva_db.Base.Int.{ℤ, leb_ℤ}
use keva_db.Core.Db.{KevaDatabase, delete_key, past, get, get_found, exists}
use keva_db.Core.Dict.{Dict, write_through}
use keva_db.Core.Dict as Dict
use keva_db.Core.Dict.Invariant.{view}
use keva_db.Core.Dict.Methods.{get-Stepped, write_through-Updated}
use keva_db.Core.Object.{KevaObject, touch, current_lru}
use keva_db.Core.Db.Live.{
  IsDb, alive, live, Written, Written-live, unchanged, delete_key-Written, is_expired-past,
}

-- A touch of an object that is there.
abbrev pub touched : ℕ → Option KevaObject → Option KevaObject
touched clock none = none
touched clock (some obj) = some (touch clock obj)

-- A time that is past stays past.
pub past_later :
    (now_ms later : ℤ) (ts : Option ℤ)
    → leb_ℤ now_ms later ≡ true
    → past now_ms ts ≡ true
    → past later ts ≡ true
unfolding past
past_later now_ms later none h p = p
past_later now_ms later (some ts) h p = ground arith

alive-past :
    (now_ms : ℤ) (o : Option KevaObject) (ts : Option ℤ)
    → past now_ms ts ≡ true
    → alive now_ms o ts ≡ none
unfolding alive
alive-past now_ms o ts p = rw p refl

-- A key without an object has none at any time.
pub alive-none : (now_ms : ℤ) (ts : Option ℤ) → alive now_ms none ts ≡ none
unfolding alive
alive-none now_ms ts = elim (Bool-cases (past now_ms ts)) [ inl p ↦ rw p refl | inr p ↦ rw p refl ]

touched-alive :
    (now_ms : ℤ) (clock : ℕ) (o : Option KevaObject) (ts : Option ℤ)
    → alive now_ms (touched clock o) ts ≡ touched clock (alive now_ms o ts)
unfolding alive
touched-alive now_ms clock o ts = elim (Bool-cases (past now_ms ts)) [
  | inl p ↦ rw p refl
  | inr p ↦ rw p refl
]

-- What a lookup does: it answers with the live object, touched; and then and at every later time,
-- that object has been touched and every other key is as it was.
pub record LookedUp (db : KevaDatabase) (k : Bytes) (now_ms : ℤ) (clock : ℕ)
    (r : KevaDatabase × Option KevaObject) : Type 0 where
  pub valid : IsDb r.0
  pub answer : r.1 ≡ touched clock (live db now_ms k)
  pub lives :
      (later : ℤ)
      → leb_ℤ now_ms later ≡ true
      → (q : Bytes)
      → live r.0 later q
        ≡ (if bytes_eq k q then touched clock (live db later k) else live db later q)

-- A lookup of an object that is stored, in both cases of the test for its time.
module _ (db : KevaDatabase) (w : IsDb db) (k : Bytes) (now_ms : ℤ) (seconds : ℕ) where
  found_past :
      (obj : KevaObject)
      → view db.keys k ≡ some obj
      → past now_ms (view db.expires k) ≡ true
      → LookedUp db k now_ms (current_lru seconds) (delete_key db k, none)
  found_past obj e p =
      let u = delete_key-Written db w k in
      record {
        valid = u.valid;
        answer = rw (alive-past now_ms (view db.keys k) (view db.expires k) p) refl;
        lives = λ later after q.
            let gone =
              alive-past later (view db.keys k) (view db.expires k)
                (past_later now_ms later (view db.expires k) after p) in
            Written-live u later q
            ∙ ap (λ o. if bytes_eq k q then o else live db later q)
                (alive-none later none ∙ sym (ap (touched (current_lru seconds)) gone));
      }

  found_alive :
      (obj : KevaObject)
      → view db.keys k ≡ some obj
      → past now_ms (view db.expires k) ≡ false
      → let new = touch (current_lru seconds) obj in
        LookedUp db k now_ms
          (current_lru seconds)
          (record db { keys = write_through db.keys k new }, some new)
  found_alive obj e p =
      let new = touch (current_lru seconds) obj in
      let u = write_through-Updated db.keys w.keys k new (rw e refl) in
      let ts = view db.expires k in
      let written : Written db (record db { keys = write_through db.keys k new }) k (some new) ts =
        record {
          valid = record { keys = u.valid; expires = w.expires };
          objects = u.reads;
          times = λ q. unchanged (view db.expires) k q;
        } in
      record {
        valid = written.valid;
        answer = rw e (unfold alive in rw p refl);
        lives = λ later after q.
            Written-live written later q
            ∙ ap (λ o. if bytes_eq k q then o else live db later q)
                ((touched-alive later (current_lru seconds) (some obj) ts)
                  ∙ ap (λ o. touched (current_lru seconds) (alive later o ts)) (sym e));
      }

  get_found-LookedUp :
      (o : Option KevaObject)
      → view db.keys k ≡ o
      → LookedUp db k now_ms (current_lru seconds) (get_found db k now_ms seconds o)
  unfolding get_found
  get_found-LookedUp none e = record {
    valid = w;
    answer = sym (ap (touched (current_lru seconds)) (nothing now_ms));
    lives = λ later after q.
        unchanged (live db later) k q
        ∙ ap (λ o. if bytes_eq k q then o else live db later q)
            (nothing later ∙ sym (ap (touched (current_lru seconds)) (nothing later)));
  }
    where
      nothing : (t : ℤ) → live db t k ≡ none
      nothing t = ap (λ o. alive t o (view db.expires k)) e ∙ alive-none t (view db.expires k)
  get_found-LookedUp (some obj) e =
      let same = is_expired-past db w k now_ms in
      elim (Bool-cases (past now_ms (view db.expires k))) [
        | inl p ↦ rw (same ∙ p) (found_past obj e p)
        | inr p ↦ rw (same ∙ p) (found_alive obj e p)
      ]

-- The migration step of a lookup changes nothing that is stored.
module _ (db : KevaDatabase) (w : IsDb db) (k : Bytes) (now_ms : ℤ) (seconds : ℕ) where
  -- A lookup in a valid database answers with the live object, touched; a key past its time is
  -- missing; then and at every later time that object has been touched and every other key is as it
  -- was.
  pub get-LookedUp : LookedUp db k now_ms (current_lru seconds) (get db k now_ms seconds)
  unfolding get
  get-LookedUp =
      let (s, found) = get-Stepped db.keys w.keys k in
      let db1 = record db { keys = (Dict.get db.keys k).0 } in
      let w1 : IsDb db1 = record { keys = s.valid; expires = w.expires } in
      let same : (t : ℤ) (q : Bytes) → live db1 t q ≡ live db t q =
        λ t q. ap (λ o. alive t o (view db.expires q)) (s.same q) in
      let l =
        get_found-LookedUp db1 w1 k now_ms seconds (Dict.get db.keys k).1 (s.same k ∙ sym found) in
      record {
        valid = l.valid;
        answer = l.answer ∙ ap (touched (current_lru seconds)) (same now_ms k);
        lives = λ later after q. l.lives later after q ∙ rw (same later k, same later q);
      }

  pub exists-live :
      ((exists db k now_ms seconds).0 ≡ (get db k now_ms seconds).0)
      × ((exists db k now_ms seconds).1 ≡ is_some (live db now_ms k))
  unfolding exists
  exists-live = (refl, ap is_some get-LookedUp.answer ∙ either (live db now_ms k))
    where
      either : (o : Option KevaObject) → is_some (touched (current_lru seconds) o) ≡ is_some o
      either none = refl
      either (some obj) = refl
