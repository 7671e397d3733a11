-- ===== src/Persistence/Rdb/Files.antt =====
-- A file that was saved is loaded: every key, its value and its time, and the checksum.
use keva_db.Base.{
  ℕ, zero, suc, ◌+◌, ◌-◌, ◌≤◌, ◌<◌, ◌≡◌, refl, ap, ◌∙◌, true, false, Option, none, some, List, [],
  ◌∷◌, ◌++◌, append_assoc, arith, ltb, ◌==◌, if◌then◌else◌, length, length-append, take, drop,
  take-append, Bytes, codes, All, bytes_eq,
}
use keva_db.Base.Int.{ℤ, negsuc, InI64, to_u64, from_u64-to_u64, to_u64-lt, eqb_ℤ}
use keva_db.Command.Args.{Clock, lru_now}
use keva_db.Core.Db
use keva_db.Core.Db.{KevaDatabase}
use keva_db.Core.Object.{create_string}
use keva_db.Persistence.Rdb.{
  le_bytes, le_value, crc64_update, write_string, read_u8, Saved, write_expire, write_entry,
  write_entries, write_body, write_file, loaded, load_entry, read_pair, on_opcode, read_time,
  on_byte, load_loop, verified, rdb_load,
}
use keva_db.Persistence.Rdb.RoundTrip.{
  pow256, length-le_bytes, le_value-le_bytes, read_bytes-append, read_string-write_string,
}

-- A time that the file can carry: 64 bits, and not the -1 that stands for none.
abbrev pub FitsTime : Option ℤ → Type 0
FitsTime none = Unit
FitsTime (some t) = InI64 t × (eqb_ℤ t (negsuc 0) ≡ false)

-- What a file can carry of a key: texts with a length of 32 bits.
abbrev pub Fits : Saved → Type 0
Fits e = (length e.key < 4294967296) × (length e.value < 4294967296) × FitsTime e.expire

-- What a saved key is when it is back in a database.
unfoldable pub restore_time : Bytes → Option ℤ → KevaDatabase → KevaDatabase
restore_time key none db = db
restore_time key (some t) db = Db.set_expire db key t

unfoldable pub restore : Clock → Saved → KevaDatabase → KevaDatabase
restore clock e db =
    restore_time e.key e.expire (Db.set db e.key (create_string e.value (lru_now clock)))

unfoldable pub restore_all : Clock → List Saved → KevaDatabase → KevaDatabase
restore_all clock [] db = db
restore_all clock (e ∷ es) db = restore_all clock es (restore clock e db)

read_pair-write :
    (key value rest : Bytes)
    → length key < 4294967296
    → length value < 4294967296
    → read_pair ((write_string key ++ write_string value) ++ rest) ≡ some ((key, value), rest)
unfolding read_pair
read_pair-write key value rest k v =
    let a = read_string-write_string key (write_string value ++ rest) k in
    let b = read_string-write_string value rest v in
    rw (append_assoc (write_string key) (write_string value) rest, a, b) refl

module _ (clock : Clock) where
  abbrev pending_of : Option ℤ → ℤ
  pending_of none = negsuc 0
  pending_of (some t) = t

  load_entry-restore :
      (e : Saved) (db : KevaDatabase)
      → Fits e
      → load_entry clock e.key e.value (pending_of e.expire) db ≡ restore clock e db
  unfolding load_entry restore restore_time
  load_entry-restore e db (k, v, t) = go e.expire t
    where
      go :
          (o : Option ℤ)
          → FitsTime o
          → (if eqb_ℤ (pending_of o) (negsuc 0)
              then Db.set db e.key (create_string e.value (lru_now clock))
              else Db.set_expire
                  (Db.set db e.key (create_string e.value (lru_now clock)))
                  e.key
                  (pending_of o))
            ≡ restore_time e.key o (Db.set db e.key (create_string e.value (lru_now clock)))
      go none u = refl
      go (some n) (fits, other) = rw other refl

  read_time-write :
      (t : ℤ) (opcode : ℕ) (body rest : Bytes)
      → InI64 t
      → read_time ((le_bytes 8 (to_u64 t) ++ (opcode ∷ body)) ++ rest)
        ≡ some ((t, opcode), body ++ rest)
  unfolding read_time read_u8
  read_time-write t opcode body rest fits =
      let u = to_u64 t in
      let e = read_bytes-append 8 (le_bytes 8 u) ((opcode ∷ body) ++ rest) (length-le_bytes 8 u) in
      let lt = to_u64-lt t in
      let v : le_value (le_bytes 8 u) ≡ u =
        le_value-le_bytes 8 u (unfold pow256 in omega (arith, lt)) in
      rw (append_assoc (le_bytes 8 u) (opcode ∷ body) rest, e, v, from_u64-to_u64 t fits) refl

  turn_by :
      (fuel : ℕ) (key value : Bytes) (o : Option ℤ) (rest : Bytes) (db : KevaDatabase)
      → length key < 4294967296
      → length value < 4294967296
      → FitsTime o
      → load_loop
          (suc fuel)
          clock
          (negsuc 0)
          ((write_expire o ++ (0x00 ∷ write_string key ++ write_string value)) ++ rest)
          db
        ≡ load_loop fuel clock (negsuc 0) rest (load_entry clock key value (pending_of o) db)
  unfolding load_loop on_byte on_opcode read_u8 write_expire
  turn_by fuel key value none rest db k v u = rw (read_pair-write key value rest k v) refl
  turn_by fuel key value (some t) rest db k v (fits, other) =
      let body = write_string key ++ write_string value in
      rw (read_time-write t 0x00 body rest fits, read_pair-write key value rest k v) refl

  turn-write_entry :
      (fuel : ℕ) (e : Saved) (rest : Bytes) (db : KevaDatabase)
      → Fits e
      → load_loop (suc fuel) clock (negsuc 0) (write_entry e ++ rest) db
        ≡ load_loop fuel clock (negsuc 0) rest (restore clock e db)
  unfolding write_entry
  turn-write_entry fuel e rest db (k, v, t) =
      turn_by fuel e.key e.value e.expire rest db k v t
      ∙ ap (load_loop fuel clock (negsuc 0) rest) (load_entry-restore e db (k, v, t))

  load_loop-write_entries :
      (es : List Saved) (fuel : ℕ) (rest : Bytes) (db : KevaDatabase)
      → All Fits es
      → length es < fuel
      → load_loop fuel clock (negsuc 0) (write_entries es ++ (0xFF ∷ rest)) db
        ≡ loaded (restore_all clock es db) rest
  unfolding load_loop on_byte read_u8 write_entries restore_all
  load_loop-write_entries es zero rest db fit lt = absurd (omega arith)
  load_loop-write_entries [] (suc fuel) rest db fit lt = refl
  load_loop-write_entries (e ∷ es) (suc fuel) rest db (fit, fits) lt =
      ap (λ s. load_loop (suc fuel) clock (negsuc 0) s db)
        (append_assoc (write_entry e) (write_entries es) (0xFF ∷ rest))
      ∙ turn-write_entry fuel e (write_entries es ++ (0xFF ∷ rest)) db fit
      ∙ load_loop-write_entries es fuel rest (restore clock e db) fits (omega arith)

  entries-le : (es : List Saved) → length es ≤ length (write_entries es)
  unfolding write_entries write_entry
  entries-le [] = omega arith
  entries-le (e ∷ es) =
      let body = 0x00 ∷ write_string e.key ++ write_string e.value in
      omega (
        arith,
        entries-le es,
        length-append (write_expire e.expire ++ body) (write_entries es),
        length-append (write_expire e.expire) body,
      )

  -- The loop on what follows the magic and the version.
  load_body :
      (id : ℕ) (es : List Saved) (rest : Bytes) (db : KevaDatabase) (fuel : ℕ)
      → All Fits es
      → length es + 1 < fuel
      → load_loop fuel clock
          (negsuc 0)
          (0xFE ∷ le_bytes 4 id ++ (write_entries es ++ (0xFF ∷ rest)))
          db
        ≡ loaded (restore_all clock es db) rest
  unfolding load_loop on_byte read_u8
  load_body id es rest db zero fit lt = absurd (omega arith)
  load_body id es rest db (suc fuel) fit lt =
      let e =
        read_bytes-append 4 (le_bytes 4 id) (write_entries es ++ (0xFF ∷ rest))
          (length-le_bytes 4 id) in
      rw e (load_loop-write_entries es fuel rest db fit (omega arith))

  -- The magic and the version of a file are accepted.
  rdb_load-open :
      (body check : Bytes) (db : KevaDatabase)
      → let file = (codes "KEVA" ++ (le_bytes 2 1 ++ body)) ++ check in
        rdb_load clock file db
        ≡ verified file (load_loop (length (body ++ check) + 1) clock (negsuc 0) (body ++ check) db)
  unfolding rdb_load le_bytes le_value take drop bytes_eq
  rdb_load-open body check db =
      let long : ltb (length ((codes "KEVA" ++ (le_bytes 2 1 ++ body)) ++ check)) 6 ≡ false =
        ground arith in
      rw long refl

take_all : (n : ℕ) (s : Bytes) → length s ≡ n → take n s ≡ s
unfolding take
take_all zero [] e = refl
take_all (suc n) [] e = refl
take_all zero (c ∷ s) e = absurd (omega arith)
take_all (suc n) (c ∷ s) e = ap (◌∷◌ c) (take_all n s (omega arith))

-- The checksum of a body behind that body is accepted.
verified-check :
    (body : Bytes) (db : KevaDatabase)
    → let check = le_bytes 8 (crc64_update 0 body) in
      verified (body ++ check) (loaded db check) ≡ (db, true)
unfolding verified
verified-check body db =
    let crc = crc64_update 0 body in
    let check = le_bytes 8 crc in
    let size : length check ≡ 8 = length-le_bytes 8 crc in
    let whole : ltb (length check) 8 ≡ false = ground (arith, size) in
    let small : crc < pow256 8 = unfold crc64_update pow256 in omega arith in
    let read : le_value (take 8 check) ≡ crc =
      ap le_value (take_all 8 check size) ∙ le_value-le_bytes 8 crc small in
    let behind : length (body ++ check) - length check ≡ length body =
      let l = length-append body check in omega (arith, l) in
    let before : take (length (body ++ check) - length check) (body ++ check) ≡ body =
      ap (λ n. take n (body ++ check)) behind ∙ take-append body check in
    let equal : (crc == crc) ≡ true = ground arith in rw (whole, read, before, equal) refl

-- Loading a file that was written from keys with texts of 32-bit lengths and times of 64 bits other
-- than -1 puts each key back in order, with its value and its time, and the checksum agrees.
pub rdb_load-write_file :
    (clock : Clock) (id : ℕ) (es : List Saved) (db : KevaDatabase)
    → All Fits es
    → rdb_load clock (write_file id es) db ≡ (restore_all clock es db, true)
unfolding write_file write_body
rdb_load-write_file clock id es db fit =
    let head = 0xFE ∷ le_bytes 4 id in
    let body = 0xFE ∷ le_bytes 4 id ++ (write_entries es ++ (0xFF ∷ [])) in
    let check = le_bytes 8 (crc64_update 0 (codes "KEVA" ++ (le_bytes 2 1 ++ body))) in
    let joined : body ++ check ≡ 0xFE ∷ le_bytes 4 id ++ (write_entries es ++ (0xFF ∷ check)) =
      ap (◌∷◌ 0xFE) (
        append_assoc (le_bytes 4 id) (write_entries es ++ (0xFF ∷ [])) check
        ∙ ap (◌++◌ (le_bytes 4 id)) (append_assoc (write_entries es) (0xFF ∷ []) check)) in
    let long = length-append (le_bytes 4 id) (write_entries es ++ (0xFF ∷ [])) in
    let longer = length-append (write_entries es) (0xFF ∷ []) in
    let all = length-append body check in
    let enough : length es + 1 < length (body ++ check) + 1 =
      omega (arith, long, longer, all, entries-le clock es) in
    let run : load_loop (length (body ++ check) + 1) clock (negsuc 0) (body ++ check) db
        ≡ loaded (restore_all clock es db) check =
      ap (λ s. load_loop (length (body ++ check) + 1) clock (negsuc 0) s db) joined
      ∙ load_body clock id es check db (length (body ++ check) + 1) fit enough in
    rdb_load-open clock body check db
    ∙ ap (verified ((codes "KEVA" ++ (le_bytes 2 1 ++ body)) ++ check)) run
    ∙ verified-check (codes "KEVA" ++ (le_bytes 2 1 ++ body)) (restore_all clock es db)
