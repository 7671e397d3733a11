-- ===== src/Command/KeyCmd/Keys.antt =====
-- The commands on keys, against what the database means.
use keva_db.Base.{
  ℕ, ◌+◌, ◌≡◌, refl, sym, ap, ◌∙◌, inl, inr, Bool-cases, Bool, true, false, Option, none, some,
  List, [], ◌∷◌, arith, if◌then◌else◌, drop, get_or, Bytes, bytes_eq, bytes_eq_refl, is_some,
}
use keva_db.Base.Decimal.{from_chars}
use keva_db.Base.Int.{
  ℤ, pos, leb_ℤ, ltb_ℤ, ◌+ℤ◌, ◌-ℤ◌, +ℤ_parts, -ℤ_parts, eq_of_parts, InI64, wrap_i64_self,
}
use keva_db.Command.Args.{Clock, lru_now}
use keva_db.Command.KeyCmd.{
  del_each, handle_del, handle_rename, rename_found, copy_of, expire_at, handle_pexpire,
  handle_pttl,
}
use keva_db.Command.StringCmd.{deadline}
use keva_db.Core.Db
use keva_db.Core.Db.{KevaDatabase, past}
use keva_db.Core.Db.Live.{IsDb, alive, live, Written-live, set-Written, del-Written}
use keva_db.Core.Db.Lookups.{get-LookedUp, exists-live, touched, alive-none}
use keva_db.Core.Db.Expiry.{pttl-set_expire}
use keva_db.Core.Dict.Invariant.{view}
use keva_db.Core.Object.{
  KevaObject, string_view, integer_value, touch, is_string, is_int, get_string_value,
}
use keva_db.Core.Object.Text.{stored_text, create_string_text, create_string_from_int_fields}
use keva_db.Core.Object.Header.{touch_fields}
use keva_db.Protocol.Encoder

-- How many of some keys are present, none counted twice.
unfoldable pub distinct_present : (Bytes → Bool) → List Bytes → ℕ
distinct_present f [] = 0
distinct_present f (k ∷ ks) =
    (if f k then 1 else 0) + distinct_present (λ q. if bytes_eq k q then false else f q) ks

unfoldable pub mentioned : List Bytes → Bytes → Bool
mentioned [] q = false
mentioned (k ∷ ks) q = if bytes_eq k q then true else mentioned ks q

alive_gone :
    (t : ℤ) (b c : Bool) (o : Option KevaObject)
    → (if c then none else (if b then alive t none none else o))
      ≡ (if (if b then true else c) then none else o)
unfolding alive past
alive_gone t true true o = refl
alive_gone t true false o = refl
alive_gone t false true o = refl
alive_gone t false false o = refl

del_each-live :
    (ks : List Bytes) (db : KevaDatabase) (f : Bytes → Bool)
    → IsDb db
    → ((q : Bytes) → is_some (view db.keys q) ≡ f q)
    → IsDb (del_each ks db).0
      × ((del_each ks db).1 ≡ distinct_present f ks)
      × ((t : ℤ) (q : Bytes)
          → live (del_each ks db).0 t q ≡ (if mentioned ks q then none else live db t q))
unfolding del_each mentioned distinct_present
del_each-live [] db f w same = (w, refl, λ t q. refl)
del_each-live (k ∷ ks) db f w same =
    let (u, there) = del-Written db w k in
    let (v, n, lives) =
      del_each-live ks (Db.del db k).0 (λ q. if bytes_eq k q then false else f q) u.valid
        (λ q.
          ap is_some (u.objects q)
          ∙ (rw (sym (same q)) (inside (bytes_eq k q) (view db.keys q)))) in
    (
      v,
      rw (n, there, same k) refl,
      λ t q.
          lives t q
          ∙ ap (λ o. if mentioned ks q then none else o) (Written-live u t q)
          ∙ alive_gone t (bytes_eq k q) (mentioned ks q) (live db t q),
    )
  where
    inside :
        (b : Bool) (o : Option KevaObject)
        → is_some (if b then none else o) ≡ (if b then false else is_some o)
    inside true o = refl
    inside false o = refl

time_left :
    (now n : ℤ)
    → (if ltb_ℤ now (now +ℤ n) then n else pos 0) ≡ (if ltb_ℤ (pos 0) n then n else pos 0)
time_left now n = let sum = +ℤ_parts now n in ground (arith, sum)

copy_of-touch :
    (clock : Clock) (c : ℕ) (o : KevaObject) → copy_of clock (touch c o) ≡ copy_of clock o
unfolding copy_of integer_value string_view
copy_of-touch clock c o = let (t, e, l, p) = touch_fields c o in rw (e, p) refl

-- What RENAME makes of an object: a string with the same text, as SET would store it, and an
-- integer with the same value for an integer.
pub record IsCopy (o c : KevaObject) : Type 0 where
  pub kind : is_string c ≡ true
  pub text :
      get_string_value c
      ≡ (if is_int o then get_string_value o else stored_text (get_string_value o))
  pub number : is_int o ≡ true → (is_int c ≡ true) × (integer_value c ≡ integer_value o)

text_of_other :
    (o : KevaObject)
    → is_int o ≡ false
    → stored_text (string_view o)
      ≡ (if is_int o then get_string_value o else stored_text (get_string_value o))
unfolding get_string_value
text_of_other o other = rw other refl

copy_of-IsCopy : (clock : Clock) (o : KevaObject) → IsCopy o (copy_of clock o)
unfolding copy_of
copy_of-IsCopy clock o = elim (Bool-cases (is_int o)) [
  | inl whole ↦
      let (t, i, n, g) = create_string_from_int_fields (integer_value o) (lru_now clock) in
      rw whole (record {
        kind = t;
        text = g ∙ (unfold get_string_value in rw whole refl);
        number = λ _. (i, n);
      })
  | inr other ↦
      let (t, g) = create_string_text (string_view o) (lru_now clock) in
      rw other (record { kind = t; text = g ∙ text_of_other o other; number = λ e. cc })
]

-- Both keys of RENAME.
renamed :
    (t : ℤ) (b c : Bool) (x : KevaObject) (y o : Option KevaObject)
    → (if b then alive t (some x) none else (if c then alive t none none else (if c then y else o)))
      ≡ (if b then some x else (if c then none else o))
unfolding alive past
renamed t true c x y o = refl
renamed t false true x y o = refl
renamed t false false x y o = refl

module _ (db : KevaDatabase) (w : IsDb db) (clock : Clock) where
  -- RENAME of a live key of a valid database replies OK: the new key holds a string of the same
  -- text, as SET would store it, or an integer of the same value where the old one held an integer,
  -- without a time; the old key, where it is another, is gone, and every other key is as it was,
  -- then and later.
  pub rename-live :
      (name k newkey : Bytes) (obj : KevaObject)
      → live db clock.now_ms k ≡ some obj
      → let r = handle_rename clock (name ∷ k ∷ newkey ∷ []) db in
        (c : KevaObject) × IsCopy obj c
        × (r.1 ≡ Encoder.ok)
        × ((later : ℤ)
            → leb_ℤ clock.now_ms later ≡ true
            → (q : Bytes)
            → live r.0 later q ≡ (
                if bytes_eq newkey q
                then some c
                else if bytes_eq k q
                then none
                else live db later q))
  unfolding handle_rename rename_found get_or
  rename-live name k newkey obj here =
      let now = clock.now_ms in
      let l = get-LookedUp db w k now clock.seconds in
      let looked = (Db.get db k now clock.seconds).0 in
      let answer : (Db.get db k now clock.seconds).1 ≡ some (touch (lru_now clock) obj) =
        l.answer ∙ ap (touched (lru_now clock)) here in
      let (u, there) = del-Written looked l.valid k in
      let s = set-Written (Db.del looked k).0 u.valid newkey (copy_of clock obj) in
      rw (answer, copy_of-touch clock (lru_now clock) obj)
        (
          copy_of clock obj,
          copy_of-IsCopy clock obj,
          refl,
          λ later after q.
              Written-live s later q
              ∙ ap
                  (λ o.
                    if bytes_eq newkey q then alive later (some (copy_of clock obj)) none else o)
                  (Written-live u later q
                    ∙ ap (λ o. if bytes_eq k q then alive later none none else o)
                        (l.lives later after q))
              ∙ renamed later (bytes_eq newkey q) (bytes_eq k q) (copy_of clock obj) _ _,
        )

  -- DEL on a valid database counts the given keys that are stored, each once and past their time or
  -- not; afterwards none of them is live at any time, and every other key is as it was.
  pub handle_del-live :
      (name : Bytes) (ks : List Bytes)
      → let r = handle_del clock (name ∷ ks) db in
        (r.1 ≡ Encoder.integer (pos (distinct_present (λ q. is_some (view db.keys q)) ks)))
        × ((t : ℤ) (q : Bytes) → live r.0 t q ≡ (if mentioned ks q then none else live db t q))
  unfolding handle_del drop
  handle_del-live name ks =
      let (v, n, lives) = del_each-live ks db (λ q. is_some (view db.keys q)) w (λ q. refl) in
      (ap (λ m. Encoder.integer (pos m)) n, lives)

  stored_when_live :
      (t : ℤ) (o : Option KevaObject) (ts : Option ℤ)
      → is_some (alive t o ts) ≡ true
      → is_some o ≡ true
  unfolding alive
  stored_when_live t none ts h = rw (alive-none t ts) at h
  stored_when_live t (some obj) ts h = refl

  -- PEXPIRE on a live key of a valid database and PTTL at the same time, before any lookup removes
  -- the key: the time to live that was given, or 0 when it is not above 0, where the deadline fits
  -- in 64 bits.
  pub pexpire-pttl :
      (name k text rest name' : Bytes) (n : ℤ)
      → from_chars text ≡ some (n, rest)
      → is_some (live db clock.now_ms k) ≡ true
      → InI64 n
      → InI64 (clock.now_ms +ℤ n)
      → (handle_pttl clock (name' ∷ k ∷ []) (handle_pexpire clock (name ∷ k ∷ text ∷ []) db).0).1
        ≡ Encoder.integer (if ltb_ℤ (pos 0) n then n else pos 0)
  unfolding handle_pttl handle_pexpire expire_at get_or
  pexpire-pttl name k text rest name' n read here fits fits' =
      let now = clock.now_ms in
      let l = get-LookedUp db w k now clock.seconds in
      let looked = (Db.get db k now clock.seconds).0 in
      let (same, found) = exists-live db w k now clock.seconds in
      let still : is_some (live looked now k) ≡ true =
        ap is_some (l.lives now (ground arith) k ∙ (rw (bytes_eq_refl k) refl))
        ∙ is_some-touched (live db now k)
        ∙ here in
      let stored = stored_when_live now (view looked.keys k) (view looked.expires k) still in
      let sum = +ℤ_parts now n in
      let ts = deadline clock n in
      let exact : ts ≡ now +ℤ n = unfold deadline in wrap_i64_self (now +ℤ n) fits' in
      let back : ts -ℤ now ≡ n =
        rw exact (eq_of_parts _ _ (let gap = -ℤ_parts (now +ℤ n) now in omega (arith, sum, gap))) in
      let answer = pttl-set_expire looked l.valid k ts now stored (rw back fits) in
      rw (read, same, found, here)
        (ap Encoder.integer (answer ∙ (rw (back, exact) (time_left now n))))
    where
      is_some-touched : (o : Option KevaObject) → is_some (touched (lru_now clock) o) ≡ is_some o
      is_some-touched none = refl
      is_some-touched (some obj) = refl
