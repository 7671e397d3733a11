-- ===== src/Persistence/Rdb/Recovery/Restored.antt =====
-- What saved keys are when `rdb_load` of src/persistence/rdb_load.cpp has put them back.
use keva_db.Base.{
  ◌≡◌, refl, sym, ap, ◌∙◌, inl, inr, Bool, false, ◌||◌, Option, none, some, List, [], ◌∷◌,
  if◌then◌else◌, Bool-cases, Bytes, bytes_eq, bytes_eq_refl, bytes_eq_iff, All,
}
use keva_db.Base.Int.{ℤ}
use keva_db.Command.Args.{Clock, lru_now}
use keva_db.Core.Db.{KevaDatabase}
use keva_db.Core.Db.Live.{IsDb, Written, set-Written, set_expire-Written}
use keva_db.Core.Dict.Invariant.{view}
use keva_db.Core.Object.{KevaObject, create_string}
use keva_db.Persistence.Rdb.{Saved}
use keva_db.Persistence.Rdb.Files.{restore_time, restore, restore_all}

restore_time-Written :
    (k : Bytes) (t : Option ℤ) (o : KevaObject) (db db' : KevaDatabase)
    → Written db db' k (some o) none
    → Written db (restore_time k t db') k (some o) t
unfolding restore_time
restore_time-Written k none o db db' w = w
restore_time-Written k (some ts) o db db' w =
    let u = set_expire-Written db' w.valid k ts in
    record {
      valid = u.valid;
      objects = λ q. u.objects q ∙ elim (Bool-cases (bytes_eq k q)) [
        | inl same ↦ rw same (w.objects k ∙ rw (bytes_eq_refl k) refl)
        | inr other ↦ rw other (w.objects q ∙ rw other refl)
      ];
      times = λ q. u.times q ∙ elim (Bool-cases (bytes_eq k q)) [
        | inl same ↦ rw same refl
        | inr other ↦ rw other (w.times q ∙ rw other refl)
      ];
    }

restore-Written :
    (clock : Clock) (s : Saved) (db : KevaDatabase)
    → IsDb db
    → Written db (restore clock s db) s.key (some (create_string s.value (lru_now clock))) s.expire
unfolding restore
restore-Written clock s db w =
    restore_time-Written s.key s.expire (create_string s.value (lru_now clock)) db _
      (set-Written db w s.key (create_string s.value (lru_now clock)))

abbrev pub mentions : Bytes → List Saved → Bool
mentions q [] = false
mentions q (s ∷ ss) = bytes_eq s.key q || mentions q ss

-- Keys that are put back as two maps say: these hold under them, and the others are as they were.
module _ (clock : Clock) (objects : Bytes → Option KevaObject) (times : Bytes → Option ℤ) where
  abbrev pub IsMapped : Saved → Type 0
  IsMapped s =
      (objects s.key ≡ some (create_string s.value (lru_now clock))) × (times s.key ≡ s.expire)

  pub restore_all-mapped :
      (ss : List Saved) (db : KevaDatabase)
      → IsDb db
      → All IsMapped ss
      → (q : Bytes)
      → (view (restore_all clock ss db).keys q
          ≡ (if mentions q ss then objects q else view db.keys q))
        × (view (restore_all clock ss db).expires q
            ≡ (if mentions q ss then times q else view db.expires q))
  unfolding restore_all
  restore_all-mapped [] db w a q = (refl, refl)
  restore_all-mapped (s ∷ ss) db w ((o, t), a) q =
      let u = restore-Written clock s db w in
      let (objs, ts) = restore_all-mapped ss (restore clock s db) u.valid a q in
      elim (Bool-cases (bytes_eq s.key q)) [
        | inl same ↦
            let e = sym ((bytes_eq_iff s.key q).0 same) in
            elim (Bool-cases (mentions q ss)) [
              | inl again ↦ rw same (objs ∙ rw again refl, ts ∙ rw again refl)
              | inr last ↦ rw same (
                objs ∙ rw last (u.objects q ∙ rw same (sym (ap objects e ∙ o))),
                ts ∙ rw last (u.times q ∙ rw same (sym (ap times e ∙ t))),
              )
            ]
        | inr other ↦ elim (Bool-cases (mentions q ss)) [
          | inl later ↦ rw (other, later) (objs ∙ rw later refl, ts ∙ rw later refl)
          | inr never ↦
              rw (other, never)
                (
                  objs ∙ rw never (u.objects q ∙ rw other refl),
                  ts ∙ rw never (u.times q ∙ rw other refl),
                )
        ]
      ]
