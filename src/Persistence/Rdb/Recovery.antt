-- ===== src/Persistence/Rdb/Recovery.antt =====
-- A snapshot is loaded back as the keys that were live when it was made.
pub mod Restored
pub mod Collected
use keva_db.Base.{
  ℕ, ◌<◌, ◌%◌, ◌≡◌, refl, sym, ap, ◌∙◌, inl, inr, Bool, true, false, ◌||◌, Option, none, some, List,
  [], ◌∷◌, map, arith, if◌then◌else◌, Bool-cases, Option-cases, length, Bytes, bytes_eq,
  bytes_eq_refl, bytes_eq_iff, is_some, All,
}
use keva_db.Base.Int.{
  ℤ, pos, negsuc, leb_ℤ, ltb_ℤ, ◌+ℤ◌, ◌-ℤ◌, -ℤ_parts, InI64, wrap_i64, wrap_i64_self, eqb_ℤ,
}
use keva_db.Command.Args.{Clock, lru_now}
use keva_db.Core.Chain.{DictEntry}
use keva_db.Core.Db.{
  KevaDatabase, new_database, past, is_expired, remaining_ms, pttl, unexpired, set, set_expire,
}
use keva_db.Core.Db as Db
use keva_db.Core.Db.Expiry.{pttl-view, remaining_exact}
use keva_db.Core.Db.Live.{
  IsDb, alive, live, Written, new_database-IsDb, set-Written, set_expire-Written, is_expired-past,
}
use keva_db.Core.Dict as Dict
use keva_db.Core.Dict.Invariant.{view, view-new_dict}
use keva_db.Core.Dict.Methods.{get-Stepped}
use keva_db.Core.Dict.Sampling.{Occurs, Stands, Visited, for_each-Stands, for_each-Visited}
use keva_db.Core.Object.{KevaObject, create_string, get_string_value}
use keva_db.Persistence.Rdb.{Saved, saved_time, collect, snapshot, write_file, rdb_load}
use keva_db.Persistence.Rdb.Recovery.Restored.{mentions, IsMapped, restore_all-mapped}
use keva_db.Persistence.Rdb.Recovery.Collected.{
  saved_time-remaining_ms, All-map, saved_of, collect-saved_of, fits_time, IsLive, unexpired-IsLive,
  unexpired-mentions,
}
use keva_db.Persistence.Rdb.Files.{
  Fits, FitsTime, restore_time, restore, restore_all, rdb_load-write_file,
}

pub empty_keys : (q : Bytes) → view (new_database 0).keys q ≡ none
unfolding new_database Dict.new_dict Dict.seed_hash
empty_keys q = view-new_dict 0 0 q

pub empty_times : (q : Bytes) → view (new_database 0).expires q ≡ none
unfolding new_database Dict.new_dict Dict.seed_hash
empty_times q = view-new_dict 0 0 q

-- The object that a stored one comes back as, with a new clock of its last use.
abbrev pub reloaded : ℕ → Option KevaObject → Option KevaObject
reloaded lru none = none
reloaded lru (some o) = some (create_string (get_string_value o) lru)

-- The time of a key that is live.
abbrev pub kept_time : Option KevaObject → Option ℤ → Option ℤ
kept_time none t = none
kept_time (some o) t = t

-- The live keys of a database at a time, and no others.
pub record Recovered (now_ms : ℤ) (db : KevaDatabase) (lru : ℕ) (db' : KevaDatabase) : Type 0 where
  pub objects : (q : Bytes) → view db'.keys q ≡ reloaded lru (live db now_ms q)
  pub times : (q : Bytes) → view db'.expires q ≡ kept_time (live db now_ms q) (view db.expires q)

-- The text of a saved key and of its value has a length of 32 bits.
abbrev pub FitsText : Bytes → KevaObject → Type 0
FitsText q o = (length q < 4294967296) × (length (get_string_value o) < 4294967296)

module _ (clock : Clock) (now_ms : ℤ) (db : KevaDatabase) (w : IsDb db)
    (since : leb_ℤ (pos 0) now_ms ≡ true)
    (fits_text : (q : Bytes) (o : KevaObject) → live db now_ms q ≡ some o → FitsText q o)
    (fits : (q : Bytes) (ts : ℤ) → view db.expires q ≡ some ts → InI64 ts) where
  abbrev objects_back : Bytes → Option KevaObject
  objects_back q = reloaded (lru_now clock) (live db now_ms q)

  abbrev times_back : Bytes → Option ℤ
  times_back q = kept_time (live db now_ms q) (view db.expires q)

  abbrev saved : List Saved
  saved = map (saved_of (view db.expires)) (Db.for_each db now_ms)

  visits-IsLive : All (IsLive db now_ms) (Db.for_each db now_ms)
  unfolding Db.for_each
  visits-IsLive =
      unexpired-IsLive db now_ms (Dict.for_each db.keys) (for_each-Stands db.keys w.keys)

  not_past :
      (e : DictEntry KevaObject) → IsLive db now_ms e → past now_ms (view db.expires e.key) ≡ false
  not_past e (s, fresh) = sym (is_expired-past db w e.key now_ms) ∙ fresh

  entry-live : (e : DictEntry KevaObject) → IsLive db now_ms e → live db now_ms e.key ≡ some e.value
  unfolding alive
  entry-live e (s, fresh) = rw (not_past e (s, fresh)) s

  saved-Fits : All Fits saved
  saved-Fits =
      All-map (IsLive db now_ms) Fits (saved_of (view db.expires))
        (λ e l.
          let (short_key, short_value) = fits_text e.key e.value (entry-live e l) in
          (
            short_key,
            short_value,
            fits_time now_ms (view db.expires e.key) since (fits e.key) (not_past e l),
          ))
        (Db.for_each db now_ms) visits-IsLive

  saved-IsMapped : All (IsMapped clock objects_back times_back) saved
  saved-IsMapped =
      All-map (IsLive db now_ms) (IsMapped clock objects_back times_back)
        (saved_of (view db.expires))
        (λ e l.
          let here = entry-live e l in
          (ap (reloaded (lru_now clock)) here, ap (λ o. kept_time o (view db.expires e.key)) here))
        (Db.for_each db now_ms) visits-IsLive

  snapshot-saved : snapshot now_ms db ≡ write_file (db.db_id % 4294967296) saved
  unfolding snapshot
  snapshot-saved = ap (write_file (db.db_id % 4294967296)) (
      collect-saved_of now_ms (view db.keys) (view db.expires) (Db.for_each db now_ms) db w
        (λ q. refl) (λ q. refl) (All-weaken (Db.for_each db now_ms) visits-IsLive))
    where
      All-weaken :
          (es : List (DictEntry KevaObject))
          → All (IsLive db now_ms) es
          → All
              (λ e.
                (is_some (view db.keys e.key) ≡ true)
                × (saved_time now_ms (remaining_ms now_ms (view db.expires e.key))
                    ≡ view db.expires e.key))
              es
      All-weaken [] a = tt
      All-weaken (e ∷ es) (l, a) = (
        (
          ap is_some l.0,
          saved_time-remaining_ms now_ms (view db.expires e.key) since (fits e.key) (not_past e l),
        ),
        All-weaken es a,
      )

  live-mentions : (q : Bytes) (o : KevaObject) → live db now_ms q ≡ some o → mentions q saved ≡ true
  unfolding alive Db.for_each
  live-mentions q o h = elim (Bool-cases (past now_ms (view db.expires q))) [
    | inl over ↦ let gone : none ≡ some o = rw over at h in cc
    | inr fresh ↦
        let (e, here, k, _) = for_each-Visited q o db.keys w.keys (rw fresh at h) in
        let found = unexpired-mentions db now_ms (view db.expires) (Dict.for_each db.keys) e here (
          is_expired-past db w e.key now_ms
          ∙ ap (λ x. past now_ms (view db.expires x)) k
          ∙ fresh) in
        ap
          (λ x.
            mentions x
              (map (saved_of (view db.expires)) (unexpired db now_ms (Dict.for_each db.keys))))
          (sym k)
        ∙ found
  ]

  missing : (q : Bytes) → mentions q saved ≡ false → live db now_ms q ≡ none
  missing q m = elim (Option-cases (live db now_ms q)) [
    | inl none_there ↦ none_there
    | inr (o, h) ↦ let found = live-mentions q o h in cc
  ]

  restored-Recovered :
      Recovered now_ms db (lru_now clock) (restore_all clock saved (new_database 0))
  restored-Recovered =
      let at =
        restore_all-mapped clock objects_back times_back saved (new_database 0)
          (new_database-IsDb 0) saved-IsMapped in
      record {
        objects = λ q. (at q).0 ∙ elim (Bool-cases (mentions q saved)) [
          | inl m ↦ rw m refl
          | inr m ↦ rw m (empty_keys q ∙ sym (ap (reloaded (lru_now clock)) (missing q m)))
        ];
        times = λ q. (at q).1 ∙ elim (Bool-cases (mentions q saved)) [
          | inl m ↦ rw m refl
          | inr m ↦
              rw m (empty_times q ∙ sym (ap (λ o. kept_time o (view db.expires q)) (missing q m)))
        ];
      }

-- Loading the snapshot of a valid database succeeds, and gives the keys that were live at its time,
-- each with its text and its time, and no others; those whose time is over by the time of the load
-- are there too, until a lookup removes them. For a time from 0 on, texts of 32-bit lengths and
-- expiry times of 64 bits.
pub rdb_load-snapshot :
    (later : Clock) (now_ms : ℤ) (db : KevaDatabase)
    → IsDb db
    → leb_ℤ (pos 0) now_ms ≡ true
    → ((q : Bytes) (o : KevaObject) → live db now_ms q ≡ some o → FitsText q o)
    → ((q : Bytes) (ts : ℤ) → view db.expires q ≡ some ts → InI64 ts)
    → let r = rdb_load later (snapshot now_ms db) (new_database 0) in
      (r.1 ≡ true) × Recovered now_ms db (lru_now later) r.0
rdb_load-snapshot later now_ms db w since fits_text fits =
    let r =
      ap (λ file. rdb_load later file (new_database 0))
        (snapshot-saved later now_ms db w since fits_text fits)
      ∙ rdb_load-write_file later (db.db_id % 4294967296)
          (saved later now_ms db w since fits_text fits) (new_database 0)
          (saved-Fits later now_ms db w since fits_text fits) in
    rw r (refl, restored-Recovered later now_ms db w since fits_text fits)
