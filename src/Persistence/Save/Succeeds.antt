-- ===== src/Persistence/Save/Succeeds.antt =====
-- Nothing fails by itself: where the system refuses nothing, a save succeeds.
use keva_db.Base.{
  ℕ, ◌≡◌, refl, inl, inr, true, Option, none, some, List, [], ◌∷◌, ◌%◌, ltb, ◌==◌, Bool-cases,
  length, Bytes, codes,
}
use keva_db.Base.Int.{ℤ, to_u64}
use keva_db.Common.Status.{Status, ok}
use keva_db.Core.Chain.{DictEntry}
use keva_db.Core.Db
use keva_db.Core.Db.{KevaDatabase}
use keva_db.Core.Object.{KevaObject, get_string_value}
use keva_db.Persistence.Rdb.{le_bytes, Saved, saved_time}
use keva_db.Persistence.Save.{
  Writer, new_writer, Writing, ◌and_then◌, advance, SaveAnswers, Disk, write_loop, write_bytes,
  write_u8, write_text, write_time, write_saved, save_entries, write_crc_of, write_crc64,
  write_header, save_to, renamed, saved_as, save_opened, rdb_save_sync,
}

-- A result without a failure, with nothing but full calls of write to come.
abbrev Fine : Writer × Status → Type 0
Fine (w, s) = (ok s ≡ true) × (w.script ≡ [])

abbrev Unfailing : Writing → Type 0
Unfailing f = (w : Writer) → w.script ≡ [] → Fine (f w)

and_then-Unfailing : (f g : Writing) → Unfailing f → Unfailing g → Unfailing (f and_then g)
unfolding ◌and_then◌
and_then-Unfailing f g first second w e =
    let (good, left) = first w e in rw good (second (f w).0 left)

module _ (strerror : ℕ → Bytes) where
  write_bytes-Unfailing : (p : Bytes) → Unfailing (write_bytes strerror p)
  unfolding write_bytes write_loop advance
  write_bytes-Unfailing p w e = elim (Bool-cases (length p == 0)) [
    | inl empty ↦ rw empty (refl, e)
    | inr full ↦ rw (full, e) (refl, refl)
  ]

  chained-Unfailing :
      (p : Bytes) (f : Writing) → Unfailing f → Unfailing (write_bytes strerror p and_then f)
  chained-Unfailing p f = and_then-Unfailing (write_bytes strerror p) f (write_bytes-Unfailing p)

  write_text-Unfailing : (sv : Bytes) → Unfailing (write_text strerror sv)
  unfolding write_text
  write_text-Unfailing sv w e =
      let text = write_bytes-Unfailing sv in
      elim (Bool-cases (ltb (length sv) 64)) [
        | inl short ↦ rw short (chained-Unfailing (length sv ∷ []) _ text w e)
        | inr longer ↦ elim (Bool-cases (ltb (length sv) 16384)) [
          | inl middle ↦
              rw (longer, middle)
                (chained-Unfailing _ _ (chained-Unfailing (length sv % 256 ∷ []) _ text) w e)
          | inr long ↦
              rw (longer, long)
                (chained-Unfailing _ _
                  (chained-Unfailing (le_bytes 4 (length sv % 4294967296)) _ text) w e)
        ]
      ]

  write_time-Unfailing : (t : Option ℤ) → Unfailing (write_time strerror t)
  write_time-Unfailing none w e = (refl, e)
  write_time-Unfailing (some t) w e =
      chained-Unfailing (0xFC ∷ []) _ (write_bytes-Unfailing (le_bytes 8 (to_u64 t))) w e

  write_saved-Unfailing : (e : Saved) → Unfailing (write_saved strerror e)
  unfolding write_saved
  write_saved-Unfailing e =
      and_then-Unfailing (write_time strerror e.expire) _ (write_time-Unfailing e.expire) (
        chained-Unfailing (0 ∷ []) _ (
          and_then-Unfailing (write_text strerror e.key) _ (write_text-Unfailing e.key)
            (write_text-Unfailing e.value)))

  save_entries-Fine :
      (now_ms : ℤ) (es : List (DictEntry KevaObject)) (db : KevaDatabase) (w : Writer)
      → w.script ≡ []
      → Fine (save_entries strerror now_ms es db w).1
  unfolding save_entries
  save_entries-Fine now_ms [] db w e = (refl, e)
  save_entries-Fine now_ms (x ∷ es) db w e =
      let (db', ttl_ms) = Db.pttl db x.key now_ms in
      let saved : Saved = record {
        key = x.key;
        value = get_string_value x.value;
        expire = saved_time now_ms ttl_ms;
      } in
      let (good, left) = write_saved-Unfailing saved w e in
      rw good (save_entries-Fine now_ms es db' (write_saved strerror saved w).0 left)

  end-Unfailing : Unfailing (write_u8 strerror 0xFF and_then write_crc64 strerror)
  unfolding write_crc64 write_crc_of
  end-Unfailing = chained-Unfailing (0xFF ∷ []) (write_crc64 strerror) (λ w e. rw e (refl, refl))

  write_header-Unfailing : (id : ℕ) → Unfailing (write_header strerror id)
  unfolding write_header
  write_header-Unfailing id = chained-Unfailing (codes "KEVA") _ (
      chained-Unfailing (le_bytes 2 1) _
        (chained-Unfailing (0xFE ∷ []) _ (write_bytes-Unfailing (le_bytes 4 (id % 4294967296)))))

  save_to-Fine :
      (now_ms : ℤ) (db : KevaDatabase) → Fine (save_to strerror now_ms db (new_writer [])).1
  unfolding save_to
  save_to-Fine now_ms db =
      let (good, left) = write_header-Unfailing db.db_id (new_writer []) refl in
      let w = (write_header strerror db.db_id (new_writer [])).0 in
      let (good', left') = save_entries-Fine now_ms (Db.for_each db now_ms) db w left in
      rw (good, good')
        (end-Unfailing (save_entries strerror now_ms (Db.for_each db now_ms) db w).1.0 left')

  -- Where open and rename succeed, and each call of write takes all that it is given, the save of
  -- any database succeeds.
  pub rdb_save_sync-succeeds :
      (given : SaveAnswers) (filename : Bytes) (now_ms : ℤ) (db : KevaDatabase) (disk : Disk)
      → given.open_error ≡ none
      → given.writes ≡ []
      → given.rename_error ≡ none
      → ok (rdb_save_sync strerror given filename now_ms db disk).1.1 ≡ true
  unfolding rdb_save_sync save_opened saved_as renamed
  rdb_save_sync-succeeds given filename now_ms db disk opens full renames =
      rw (opens, full, renames, (save_to-Fine now_ms db).0) refl
