-- ===== src/Core/Db.antt =====
-- `KevaDatabase` of src/core/db.cpp: the keys and their expiry times. A call that reads the clock
-- takes `now_ms`, the wall clock in milliseconds, and `seconds`, the clock of `lru_clock`.
pub mod Live
pub mod Lookups
pub mod Expiry
use keva_db.Base.{
  ℕ, zero, suc, ◌+◌, ◌*◌, Bool, true, false, not, Option, none, some, List, [], ◌∷◌, ltb, ◌==◌,
  if◌then◌else◌, length, Bytes, is_some,
}
use keva_db.Base.Int.{ℤ, pos, negsuc, ◌-ℤ◌, leb_ℤ, ltb_ℤ, wrap_i64}
use keva_db.Core.Chain.{DictEntry}
use keva_db.Core.Dict.{Dict, new_dict, write_through, random_sample, size}
use keva_db.Core.Dict as Dict
use keva_db.Core.Object.{KevaObject, touch, current_lru}

-- An entry of `expires` holds a pointer to an integer of its own, which is modelled as the integer.
pub record KevaDatabase : Type 0 where
  pub db_id : ℕ
  pub keys : Dict KevaObject
  pub expires : Dict ℤ

unfoldable pub new_database : ℕ → KevaDatabase
new_database id = record { db_id = id; keys = new_dict; expires = new_dict }

unfoldable pub delete_key : KevaDatabase → Bytes → KevaDatabase
delete_key db key = record db {
  keys = (Dict.del db.keys key).0;
  expires = (Dict.del db.expires key).0;
}

-- `now_ms >= *ts_ptr`
unfoldable pub past : ℤ → Option ℤ → Bool
past now_ms none = false
past now_ms (some ts) = leb_ℤ ts now_ms

unfoldable pub is_expired : KevaDatabase → Bytes → ℤ → Bool
is_expired db key now_ms = past now_ms (Dict.peek db.expires key)

-- The pointer that `get` returns is the object under the key; `none` is a null pointer.
unfoldable pub get_found :
    KevaDatabase → Bytes → ℤ → ℕ → Option KevaObject → KevaDatabase × Option KevaObject
get_found db key now_ms seconds none = (db, none)
get_found db key now_ms seconds (some obj) =
    let touched = touch (current_lru seconds) obj in
    if is_expired db key now_ms
    then (delete_key db key, none)
    else (record db { keys = write_through db.keys key touched }, some touched)

unfoldable pub get : KevaDatabase → Bytes → ℤ → ℕ → KevaDatabase × Option KevaObject
get db key now_ms seconds =
    let (keys', obj) = Dict.get db.keys key in
    get_found (record db { keys = keys' }) key now_ms seconds obj

-- A lookup that neither deletes nor touches; the dictionary may still migrate.
unfoldable pub peek : KevaDatabase → Bytes → ℤ → KevaDatabase × Option KevaObject
peek db key now_ms =
    let (keys', obj) = Dict.get db.keys key in
    (record db { keys = keys' }, if is_expired db key now_ms then none else obj)

unfoldable pub set : KevaDatabase → Bytes → KevaObject → KevaDatabase
set db key obj = record db {
  expires = (Dict.del db.expires key).0;
  keys = (Dict.set db.keys key obj).0;
}

unfoldable pub del : KevaDatabase → Bytes → KevaDatabase × Bool
del db key = (delete_key db key, Dict.exists db.keys key)

unfoldable pub exists : KevaDatabase → Bytes → ℤ → ℕ → KevaDatabase × Bool
exists db key now_ms seconds = let (db', obj) = get db key now_ms seconds in (db', is_some obj)

unfoldable pub dbsize : KevaDatabase → ℕ
dbsize db = size db.keys

unfoldable pub set_expire : KevaDatabase → Bytes → ℤ → KevaDatabase
set_expire db key expire_ms =
    let (expires', existing) = Dict.get db.expires key in
    record db {
      expires =
          if is_some existing
          then write_through expires' key expire_ms
          else (Dict.set expires' key expire_ms).0;
    }

unfoldable pub remove_expire : KevaDatabase → Bytes → KevaDatabase
remove_expire db key = record db { expires = (Dict.del db.expires key).0 }

-- `remaining > 0 ? remaining : 0`, of a 64-bit difference; -1 without an expiry time.
unfoldable pub remaining_ms : ℤ → Option ℤ → ℤ
remaining_ms now_ms none = negsuc 0
remaining_ms now_ms (some ts) =
    let remaining = wrap_i64 (ts -ℤ now_ms) in if ltb_ℤ (pos 0) remaining then remaining else pos 0

unfoldable pub pttl : KevaDatabase → Bytes → ℤ → KevaDatabase × ℤ
pttl db key now_ms =
    let (expires', ts) = Dict.get db.expires key in
    if Dict.exists db.keys key
    then (record db { expires = expires' }, remaining_ms now_ms ts)
    else (db, negsuc 1)

-- The keys of the sampled entries that are past their time.
unfoldable pub expired_keys : ℤ → List (DictEntry ℤ) → List Bytes
expired_keys now_ms [] = []
expired_keys now_ms (e ∷ sampled) =
    let rest = expired_keys now_ms sampled in
    if past now_ms (some e.value) then e.key ∷ rest else rest

unfoldable pub delete_keys : KevaDatabase → List Bytes → KevaDatabase
delete_keys db [] = db
delete_keys db (key ∷ keys) = delete_keys (delete_key db key) keys

-- At most `cycles` rounds. `draw` gives the two draws of the generator in each round.
unfoldable pub expire_cycles : ℕ → ℤ → (ℕ → ℕ × ℕ) → KevaDatabase → ℕ → KevaDatabase × ℕ
expire_cycles zero now_ms draw db total_deleted = (db, total_deleted)
expire_cycles (suc cycles) now_ms draw db total_deleted =
    let sampled = random_sample db.expires 20 (draw cycles).0 (draw cycles).1 in
    let keys = expired_keys now_ms sampled in
    let db' = delete_keys db keys in
    let total = total_deleted + length keys in
    let rest = expire_cycles cycles now_ms draw db' total in
    if length sampled == 0
    then (db, total_deleted)
    else if ltb (length keys * 4) (length sampled)
    then (db', total)
    else rest

unfoldable pub active_expire_cycle : ℤ → (ℕ → ℕ × ℕ) → KevaDatabase → KevaDatabase × ℕ
active_expire_cycle now_ms draw db =
    if size db.expires == 0 then (db, 0) else expire_cycles 3 now_ms draw db 0

-- A stub of the source: nothing is ever evicted.
unfoldable pub evict_if_needed : KevaDatabase → ℕ → KevaDatabase × Bool
evict_if_needed db maxmemory = (db, true)

unfoldable pub rehash_step : KevaDatabase → KevaDatabase
rehash_step db = record db {
  keys = (Dict.rehash_step 100 db.keys).0;
  expires = (Dict.rehash_step 100 db.expires).0;
}

-- The entries that the visitor of `for_each` sees, in order.
unfoldable pub unexpired :
    KevaDatabase → ℤ → List (DictEntry KevaObject) → List (DictEntry KevaObject)
unexpired db now_ms [] = []
unexpired db now_ms (e ∷ es) =
    let rest = unexpired db now_ms es in if is_expired db e.key now_ms then rest else e ∷ rest

unfoldable pub for_each : KevaDatabase → ℤ → List (DictEntry KevaObject)
for_each db now_ms = unexpired db now_ms (Dict.for_each db.keys)

unfoldable pub flush : KevaDatabase → KevaDatabase
flush db = record db { keys = Dict.clear db.keys; expires = Dict.clear db.expires }
