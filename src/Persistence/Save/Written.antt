-- ===== src/Persistence/Save/Written.antt =====
-- A writer that reports success has written all of its bytes, however they were cut into calls.
use keva_db.Base.{
  ℕ, ◌%◌, ◌≡◌, refl, sym, ap, ◌∙◌, inl, inr, true, false, List, [], ◌∷◌, ◌++◌, append-nil, arith,
  ◌==◌, Bool-cases, length, take, take-append, Bytes, codes,
}
use keva_db.Base.Int.{ℤ}
use keva_db.Common.Status.{ok}
use keva_db.Core.Chain.{DictEntry}
use keva_db.Core.Db
use keva_db.Core.Db.{KevaDatabase}
use keva_db.Core.Object.{KevaObject, get_string_value}
use keva_db.Persistence.Rdb.{
  le_bytes, crc64_update, crc_fold, Saved, saved_time, write_entries, collect, write_body,
  write_file, snapshot,
}
use keva_db.Persistence.Rdb.RoundTrip.{length-le_bytes}
use keva_db.Persistence.Save.{
  new_writer, Wrote, wrote, write_interrupted, write_failed, Writer, ◌and_then◌, write_u8,
  write_saved, save_entries, write_crc_of, write_crc64, write_header, save_to,
}
use keva_db.Persistence.Save.Pieces.{
  Appended-nothing, Appended-append, and_then-Writes, regroup, write_bytes-Writes,
  write_saved-Writes, IsSummed, Appended, Writes,
}

module _ (strerror : ℕ → Bytes) where
  -- The entries that the visits of a database collect.
  save_entries-Writes :
      (now_ms : ℤ) (es : List (DictEntry KevaObject)) (db : KevaDatabase) (w : Writer)
      → let r = save_entries strerror now_ms es db w in
        ok r.1.1 ≡ true
        → Appended (write_entries (collect now_ms es db).1) w r.1.0
          × (r.0 ≡ (collect now_ms es db).0)
  unfolding save_entries collect write_entries
  save_entries-Writes now_ms [] db w good = (Appended-nothing w, refl)
  save_entries-Writes now_ms (e ∷ es) db w good =
      let (db', ttl_ms) = Db.pttl db e.key now_ms in
      let saved : Saved = record {
        key = e.key;
        value = get_string_value e.value;
        expire = saved_time now_ms ttl_ms;
      } in
      let (w', s) = write_saved strerror saved w in
      elim (Bool-cases (ok s)) [
        | inl fine ↦
            let (rest, same) = save_entries-Writes now_ms es db' w' (rw fine at good) in
            rw fine
              (Appended-append _ _ w w' _ (write_saved-Writes strerror saved w fine) rest, same)
        | inr bad ↦ let no_good : false ≡ true = rw (bad, bad) at good in cc
      ]

  write_header-Writes :
      (db_id : ℕ)
      → Writes
          (write_header strerror db_id)
          (codes "KEVA" ++ (le_bytes 2 1 ++ (0xFE ∷ le_bytes 4 (db_id % 4294967296))))
  unfolding write_header
  write_header-Writes db_id = and_then-Writes _ _ (codes "KEVA") _ (write_bytes-Writes strerror _) (
      and_then-Writes _ _ (le_bytes 2 1) _ (write_bytes-Writes strerror _) (
        and_then-Writes _ _ (0xFE ∷ []) _ (write_bytes-Writes strerror _)
          (write_bytes-Writes strerror _)))

  write_crc_of-out :
      (rs : List Wrote) (crc : Bytes) (w : Writer)
      → length crc ≡ 8
      → ok (write_crc_of strerror rs crc w).1 ≡ true
      → (write_crc_of strerror rs crc w).0.out ≡ w.out ++ crc
  unfolding write_crc_of
  write_crc_of-out [] crc w h good = refl
  write_crc_of-out (wrote n ∷ rs) crc w h good = elim (Bool-cases (n == 8)) [
    | inl all ↦
        let whole : take (length crc) (crc ++ []) ≡ crc = take-append crc [] in
        let e : n ≡ length crc = ground arith in
        ap (λ s. w.out ++ s)
          (ap (λ k. take k crc) e ∙ ap (take (length crc)) (sym (append-nil crc)) ∙ whole)
    | inr part ↦ let no_good : false ≡ true = rw part at good in cc
  ]
  write_crc_of-out (write_interrupted ∷ rs) crc w h good = cc
  write_crc_of-out (write_failed e ∷ rs) crc w h good = cc

  -- The end of the file, on a writer with the checksum of its bytes.
  write_end :
      (w : Writer)
      → IsSummed w
      → let r = (write_u8 strerror 0xFF and_then write_crc64 strerror) w in
        ok r.1 ≡ true
        → r.0.out ≡ (w.out ++ (0xFF ∷ [])) ++ le_bytes 8 (crc64_update 0 (w.out ++ (0xFF ∷ [])))
  unfolding ◌and_then◌ write_crc64
  write_end w summed good =
      let (w', s) = write_u8 strerror 0xFF w in
      elim (Bool-cases (ok s)) [
        | inl fine ↦
            let a = write_bytes-Writes strerror (0xFF ∷ []) w fine in
            let crc : w'.crc_state ≡ crc64_update 0 (w.out ++ (0xFF ∷ [])) =
              a.summed summed ∙ ap (crc64_update 0) a.bytes in
            let e =
              write_crc_of-out w'.script (le_bytes 8 w'.crc_state) w'
                (length-le_bytes 8 w'.crc_state) (rw fine at good) in
            rw fine (
              e
              ∙ ap (λ t. t ++ le_bytes 8 w'.crc_state) a.bytes
              ∙ ap (λ c. (w.out ++ (0xFF ∷ [])) ++ le_bytes 8 c) crc)
        | inr bad ↦ let no_good : false ≡ true = rw (bad, bad) at good in cc
      ]

  -- When `save_to` on a new file succeeds, whatever the calls of write, the file is the snapshot.
  pub save_to-snapshot :
      (now_ms : ℤ) (db : KevaDatabase) (script : List Wrote)
      → let r = save_to strerror now_ms db (new_writer script) in
        ok r.1.1 ≡ true → r.1.0.out ≡ snapshot now_ms db
  unfolding save_to snapshot write_file write_body
  save_to-snapshot now_ms db script good =
      let w = new_writer script in
      let (w', s) = write_header strerror db.db_id w in
      let r = save_entries strerror now_ms (Db.for_each db now_ms) db w' in
      let es = (collect now_ms (Db.for_each db now_ms) db).1 in
      elim (Bool-cases (ok s)) [
        | inl fine ↦ elim (Bool-cases (ok r.1.1)) [
          | inl done ↦
              let a = write_header-Writes db.db_id w fine in
              let (b, _) = save_entries-Writes now_ms (Db.for_each db now_ms) db w' done in
              let e =
                write_end r.1.0 (b.summed (a.summed (unfold crc64_update crc_fold in refl)))
                  (rw (fine, done) at good) in
              let f =
                ap (λ s. s ++ (0xFF ∷ [])) (b.bytes ∙ ap (λ s. s ++ write_entries es) a.bytes)
                ∙ regroup (codes "KEVA") (le_bytes 2 1) (0xFE ∷ le_bytes 4 (db.db_id % 4294967296))
                    (write_entries es) (0xFF ∷ []) in
              rw (fine, done) (e ∙ ap (λ s. s ++ le_bytes 8 (crc64_update 0 s)) f)
          | inr failed ↦ let no_good : false ≡ true = rw (fine, failed, failed) at good in cc
        ]
        | inr bad ↦ let no_good : false ≡ true = rw (bad, bad) at good in cc
      ]
