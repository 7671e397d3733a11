-- ===== src/Persistence/Rdb/Recovery/Collected.antt =====
-- What `save_database_to_writer` of src/persistence/rdb_save.cpp visits and saves.
use keva_db.Base.{
  ◌≡◌, refl, sym, ap, ◌∙◌, inl, inr, true, false, Option, none, some, List, [], ◌∷◌, map, arith,
  Bool-cases, Bytes, bytes_eq, bytes_eq_iff, is_some, All,
}
use keva_db.Base.Int.{ℤ, pos, negsuc, leb_ℤ, ltb_ℤ, ◌+ℤ◌, ◌-ℤ◌, -ℤ_parts, InI64, wrap_i64_self}
use keva_db.Core.Chain.{DictEntry}
use keva_db.Core.Db.{KevaDatabase, past, is_expired, remaining_ms, pttl, unexpired}
use keva_db.Core.Db.Expiry.{pttl-view, remaining_exact}
use keva_db.Core.Db.Live.{IsDb}
use keva_db.Core.Dict as Dict
use keva_db.Core.Dict.Invariant.{view}
use keva_db.Core.Dict.Methods.{get-Stepped}
use keva_db.Core.Dict.Sampling.{Occurs, Stands}
use keva_db.Core.Object.{KevaObject, get_string_value}
use keva_db.Persistence.Rdb.{Saved, saved_time, collect}
use keva_db.Persistence.Rdb.Recovery.Restored.{mentions}
use keva_db.Persistence.Rdb.Files.{FitsTime}

pub saved_time-remaining_ms :
    (now_ms : ℤ) (t : Option ℤ)
    → leb_ℤ (pos 0) now_ms ≡ true
    → ((ts : ℤ) → t ≡ some ts → InI64 ts)
    → past now_ms t ≡ false
    → saved_time now_ms (remaining_ms now_ms t) ≡ t
unfolding saved_time past ◌+ℤ◌ ◌-ℤ◌
saved_time-remaining_ms now_ms none since fits early = unfold remaining_ms in refl
saved_time-remaining_ms (pos n) (some (pos m)) since fits early =
    let fit = fits (pos m) refl in
    let left : InI64 (pos m -ℤ pos n) = ground arith in
    let before : ltb_ℤ (pos n) (pos m) ≡ true = ground arith in
    let after : leb_ℤ (pos 0) (pos m -ℤ pos n) ≡ true = ground (arith, -ℤ_parts (pos m) (pos n)) in
    let back : pos n +ℤ (pos m -ℤ pos n) ≡ pos m = ground arith in
    rw (remaining_exact (pos n) (pos m) left, before, after, back, wrap_i64_self (pos m) fit) refl
saved_time-remaining_ms (pos n) (some (negsuc m)) since fits early = ground arith
saved_time-remaining_ms (negsuc n) (some ts) since fits early = ground arith

-- A query of a time to live changes nothing under any key.
pttl-Steady :
    (db : KevaDatabase)
    → IsDb db
    → (k : Bytes) (now_ms : ℤ)
    → let db' = (pttl db k now_ms).0 in
      IsDb db'
      × ((q : Bytes) → view db'.keys q ≡ view db.keys q)
      × ((q : Bytes) → view db'.expires q ≡ view db.expires q)
unfolding pttl
pttl-Steady db w k now_ms =
    let (s, _) = get-Stepped db.expires w.expires k in
    elim (Bool-cases (Dict.exists db.keys k)) [
      | inl here ↦ rw here (record { keys = w.keys; expires = s.valid }, λ q. refl, s.same)
      | inr gone ↦ rw gone (w, λ q. refl, λ q. refl)
    ]

pub All-map :
    {A B : Type 0} (P : A → Type 0) (Q : B → Type 0) (f : A → B)
    → ((x : A) → P x → Q (f x))
    → (xs : List A) → All P xs
    → All Q (map f xs)
All-map P Q f h [] a = tt
All-map P Q f h (x ∷ xs) (p, a) = (h x p, All-map P Q f h xs a)

-- What is saved of an entry, when the times are these.
abbrev pub saved_of : (Bytes → Option ℤ) → DictEntry KevaObject → Saved
saved_of times e = record { key = e.key; value = get_string_value e.value; expire = times e.key }

pub collect-saved_of :
    (now_ms : ℤ) (objects : Bytes → Option KevaObject) (times : Bytes → Option ℤ)
    (es : List (DictEntry KevaObject)) (db : KevaDatabase)
    → IsDb db
    → ((q : Bytes) → view db.keys q ≡ objects q)
    → ((q : Bytes) → view db.expires q ≡ times q)
    → All
        (λ e.
          (is_some (objects e.key) ≡ true)
          × (saved_time now_ms (remaining_ms now_ms (times e.key)) ≡ times e.key))
        es
    → (collect now_ms es db).1 ≡ map (saved_of times) es
unfolding collect
collect-saved_of now_ms objects times [] db w o t a = refl
collect-saved_of now_ms objects times (e ∷ es) db w o t ((here, back), a) =
    let (w', same_keys, same_times) = pttl-Steady db w e.key now_ms in
    let ttl : (pttl db e.key now_ms).1 ≡ remaining_ms now_ms (times e.key) =
      pttl-view db w e.key now_ms ∙ rw (o e.key, here, t e.key) refl in
    let rest =
      collect-saved_of now_ms objects times es (pttl db e.key now_ms).0 w' (λ q. same_keys q ∙ o q)
        (λ q. same_times q ∙ t q) a in
    rw (ttl, back, rest) refl

pub fits_time :
    (now_ms : ℤ) (t : Option ℤ)
    → leb_ℤ (pos 0) now_ms ≡ true
    → ((ts : ℤ) → t ≡ some ts → InI64 ts)
    → past now_ms t ≡ false
    → FitsTime t
unfolding past
fits_time now_ms none since fits early = tt
fits_time now_ms (some ts) since fits early = (fits ts refl, ground arith)

module _ (db : KevaDatabase) (now_ms : ℤ) where
  abbrev pub IsLive : DictEntry KevaObject → Type 0
  IsLive e = Stands db.keys e × (is_expired db e.key now_ms ≡ false)

  pub unexpired-IsLive :
      (es : List (DictEntry KevaObject))
      → All (Stands db.keys) es
      → All IsLive (unexpired db now_ms es)
  unfolding unexpired
  unexpired-IsLive [] a = tt
  unexpired-IsLive (e ∷ es) (s, a) =
      let rest = unexpired-IsLive es a in
      elim (Bool-cases (is_expired db e.key now_ms)) [
        | inl over ↦ rw over rest
        | inr alive_still ↦ rw alive_still ((s, alive_still), rest)
      ]

  pub unexpired-mentions :
      (times : Bytes → Option ℤ) (es : List (DictEntry KevaObject)) (e : DictEntry KevaObject)
      → Occurs e es
      → is_expired db e.key now_ms ≡ false
      → mentions e.key (map (saved_of times) (unexpired db now_ms es)) ≡ true
  unfolding unexpired
  unexpired-mentions times [] e o fresh = absurd o
  unexpired-mentions times (x ∷ es) e (inl h) fresh =
      let same : bytes_eq x.key e.key ≡ true =
        (bytes_eq_iff x.key e.key).1 (ap (λ y. y.key) (sym h)) in
      let fresh' : is_expired db x.key now_ms ≡ false =
        ap (λ (y : DictEntry KevaObject). is_expired db y.key now_ms) (sym h) ∙ fresh in
      rw (fresh', same) refl
  unexpired-mentions times (x ∷ es) e (inr o) fresh =
      let rest = unexpired-mentions times es e o fresh in
      elim (Bool-cases (is_expired db x.key now_ms)) [
        | inl over ↦ rw over rest
        | inr kept ↦ elim (Bool-cases (bytes_eq x.key e.key)) [
          | inl same ↦ rw (kept, same) refl
          | inr other ↦ rw (kept, other) rest
        ]
      ]
