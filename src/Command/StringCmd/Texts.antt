-- ===== src/Command/StringCmd/Texts.antt =====
-- The commands on texts: what is stored is what is read, and other keys are left alone.
use keva_db.Base.{
  ℕ, ◌≡◌, refl, ap, ◌∙◌, inl, inr, Bool, true, false, not, ◌&&◌, ◌||◌, Option, none, some, List, [],
  ◌∷◌, ◌++◌, if◌then◌else◌, Bool-cases, length, drop, get_or, Bytes, bytes_eq, bytes_eq_refl,
  is_some,
}
use keva_db.Base.Int.{ℤ, pos, leb_ℤ, ltb_ℤ}
use keva_db.Command.Args.{Clock, arg, lru_now}
use keva_db.Command.StringCmd.{
  SetOptions, no_options, set_options, set_with, set_text, deadline, handle_set, handle_get,
  handle_append, handle_strlen, get_reply, strlen_reply, string_or_missing, appended,
}
use keva_db.Core.Db
use keva_db.Core.Db.{KevaDatabase, past}
use keva_db.Core.Db.Live.{IsDb, alive, live, Written, Written-live, set-Written, set_expire-Written}
use keva_db.Core.Db.Lookups.{get-LookedUp, exists-live, touched}
use keva_db.Core.Dict.Invariant.{view}
use keva_db.Core.Object.{KevaObject, create_string, current_lru, get_string_value}
use keva_db.Core.Object.Text.{stored_text, create_string_text, touch_text}
use keva_db.Protocol.Encoder

-- The text under a key, none where it is missing.
abbrev pub text_under : Option KevaObject → Bytes
text_under none = []
text_under (some o) = get_string_value o

-- The reply of GET does not depend on the clock of an object.
get_reply-touched : (c : ℕ) (o : Option KevaObject) → get_reply (touched c o) ≡ get_reply o
unfolding get_reply
get_reply-touched c none = refl
get_reply-touched c (some obj) = let (t, i, g) = touch_text c obj in rw (t, g) refl

-- The reply of GET to a string object.
get_reply-text :
    (s : Bytes) (c : ℕ) → get_reply (some (create_string s c)) ≡ Encoder.bulk_string (stored_text s)
unfolding get_reply
get_reply-text s c = let (t, g) = create_string_text s c in rw (t, g) refl

module _ (db : KevaDatabase) (w : IsDb db) (clock : Clock) where
  -- GET answers with what is live under the key.
  pub handle_get-live :
      (args : List Bytes)
      → (handle_get clock args db).1 ≡ get_reply (live db clock.now_ms (arg args 1))
  unfolding handle_get
  handle_get-live args =
      let l = get-LookedUp db w (arg args 1) clock.now_ms clock.seconds in
      ap get_reply l.answer ∙ get_reply-touched _ (live db clock.now_ms (arg args 1))

  -- STRLEN answers with the length of what GET answers.
  pub handle_strlen-live :
      (args : List Bytes)
      → (handle_strlen clock args db).1 ≡ strlen_reply (live db clock.now_ms (arg args 1))
  unfolding handle_strlen strlen_reply
  handle_strlen-live args =
      let l = get-LookedUp db w (arg args 1) clock.now_ms clock.seconds in
      ap strlen_reply l.answer ∙ either (live db clock.now_ms (arg args 1))
    where
      either :
          (o : Option KevaObject)
          → strlen_reply (touched (current_lru clock.seconds) o) ≡ strlen_reply o
      either none = refl
      either (some obj) =
          let (t, i, g) = touch_text (current_lru clock.seconds) obj in rw (t, g) refl

-- When the object that SET stores ends.
abbrev stored_until : Clock → SetOptions → Option ℤ
stored_until clock o = if ltb_ℤ (pos 0) o.expire_ms then some (deadline clock o.expire_ms) else none

-- The conditions NX and XX, of a key that has a live object or not.
abbrev refused : SetOptions → Bool → Bool
refused o here = (o.nx && here) || (o.xx && not here)

-- What SET does once its options are read, in all branches.
pub record SetDone (db : KevaDatabase) (clock : Clock) (o : SetOptions) (k v : Bytes)
    (r : KevaDatabase × Bytes) : Type 0 where
  pub valid : IsDb r.0
  pub answer :
      r.1 ≡ (if refused o (is_some (live db clock.now_ms k)) then Encoder.nil else Encoder.ok)
  pub lives :
      (later : ℤ)
      → leb_ℤ clock.now_ms later ≡ true
      → (q : Bytes)
      → live r.0 later q ≡ (
          if bytes_eq k q
          then if refused o (is_some (live db clock.now_ms k))
            then touched (lru_now clock) (live db later k)
            else alive later (some (create_string v (lru_now clock))) (stored_until clock o)
          else live db later q)

-- The end of SET: the object is stored, without a time or with the one that was given.
stored-Written :
    (db : KevaDatabase) (w : IsDb db) (clock : Clock) (o : SetOptions) (k v : Bytes)
    → Written db
        (if ltb_ℤ (pos 0) o.expire_ms
          then Db.set_expire (set_text clock k v db) k (deadline clock o.expire_ms)
          else set_text clock k v db)
        k
        (some (create_string v (lru_now clock)))
        (stored_until clock o)
unfolding set_text
stored-Written db w clock o k v =
    let obj = create_string v (lru_now clock) in
    let u = set-Written db w k obj in
    let ts = deadline clock o.expire_ms in
    let t = set_expire-Written (Db.set db k obj) u.valid k ts in
    elim (Bool-cases (ltb_ℤ (pos 0) o.expire_ms)) [
      | inr forever ↦ rw forever u
      | inl timed ↦ rw timed (record {
        valid = t.valid;
        objects = λ q.
            t.objects q
            ∙ (rw (u.objects k, bytes_eq_refl k, u.objects q)
                (again (bytes_eq k q) (some obj) (view db.keys q)));
        times =
            λ q. t.times q ∙ (rw (u.times q) (again_time (bytes_eq k q) ts (view db.expires q)));
      })
    ]
  where
    again :
        (b : Bool) (a c : Option KevaObject)
        → (if b then a else (if b then a else c)) ≡ (if b then a else c)
    again true a c = refl
    again false a c = refl

    again_time :
        (b : Bool) (ts : ℤ) (c : Option ℤ)
        → (if b then some ts else (if b then none else c)) ≡ (if b then some ts else c)
    again_time true ts c = refl
    again_time false ts c = refl

module _ (db : KevaDatabase) (w : IsDb db) (clock : Clock) (k v : Bytes) where
  -- An object without a time is live at every time.
  set_text-live :
      (t : ℤ) → live (set_text clock k v db) t k ≡ some (create_string v (lru_now clock))
  unfolding set_text alive past
  set_text-live t =
      let u = set-Written db w k (create_string v (lru_now clock)) in
      Written-live u t k ∙ (rw (bytes_eq_refl k) refl)

module _ (db : KevaDatabase) (w : IsDb db) (clock : Clock) where
  -- After a plain SET on a valid database, GET answers at any time with the stored text, which is
  -- the text of the integer where the value parses as one.
  pub set-get :
      (name k v name' : Bytes) (clock' : Clock)
      → (handle_get clock' (name' ∷ k ∷ []) (handle_set clock (name ∷ k ∷ v ∷ []) db).0).1
        ≡ Encoder.bulk_string (stored_text v)
  unfolding handle_set set_with set_options drop get_or
  set-get name k v name' clock' =
      let looked = (Db.get db k clock.now_ms clock.seconds).0 in
      let l = get-LookedUp db w k clock.now_ms clock.seconds in
      let (same, here) = exists-live db w k clock.now_ms clock.seconds in
      let u = stored-Written looked l.valid clock no_options k v in
      rw same (
        handle_get-live (set_text clock k v looked) u.valid clock' (name' ∷ k ∷ [])
        ∙ ap get_reply (set_text-live looked l.valid clock k v clock'.now_ms)
        ∙ get_reply-text v (lru_now clock))

  string_or_missing-touched :
      (c : ℕ) (o : Option KevaObject) → string_or_missing (touched c o) ≡ string_or_missing o
  unfolding string_or_missing
  string_or_missing-touched c none = refl
  string_or_missing-touched c (some obj) = (touch_text c obj).0

  appended_text : (o : Option KevaObject) (v : Bytes) → appended o v ≡ text_under o ++ v
  unfolding appended
  appended_text none v = refl
  appended_text (some obj) v = refl

  appended-touched :
      (c : ℕ) (o : Option KevaObject) (v : Bytes) → appended (touched c o) v ≡ appended o v
  unfolding appended
  appended-touched c none v = refl
  appended-touched c (some obj) v = ap (λ s. s ++ v) (touch_text c obj).2

  -- APPEND to a string or a missing key of a valid database replies with the length of the text
  -- that was there, or none, with the new one behind it, and GET answers at any time with that text
  -- as SET would store it.
  pub append-get :
      (name k v name' : Bytes) (clock' : Clock)
      → string_or_missing (live db clock.now_ms k) ≡ true
      → let r = handle_append clock (name ∷ k ∷ v ∷ []) db in
        let text = text_under (live db clock.now_ms k) ++ v in
        (r.1 ≡ Encoder.integer (pos (length text)))
        × ((handle_get clock' (name' ∷ k ∷ []) r.0).1 ≡ Encoder.bulk_string (stored_text text))
  unfolding handle_append get_or
  append-get name k v name' clock' fits =
      let l = get-LookedUp db w k clock.now_ms clock.seconds in
      let looked = (Db.get db k clock.now_ms clock.seconds).0 in
      let o = live db clock.now_ms k in
      let text = text_under o ++ v in
      let is_text : string_or_missing (Db.get db k clock.now_ms clock.seconds).1 ≡ true =
        ap string_or_missing l.answer ∙ string_or_missing-touched (lru_now clock) o ∙ fits in
      let same : appended (Db.get db k clock.now_ms clock.seconds).1 v ≡ text =
        ap (λ p. appended p v) l.answer
        ∙ appended-touched (lru_now clock) o v
        ∙ appended_text o v in
      let stored = set_text clock k text looked in
      let u : IsDb stored = (stored-Written looked l.valid clock no_options k text).valid in
      rw (is_text, same)
        (
          refl,
          handle_get-live stored u clock' (name' ∷ k ∷ [])
              ∙ ap get_reply (set_text-live looked l.valid clock k text clock'.now_ms)
              ∙ get_reply-text text (lru_now clock),
        )
