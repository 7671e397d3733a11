-- ===== src/Tests/Databases.antt =====
-- `KevaDatabase` of src/core/db.cpp, objects and buffers, at concrete arguments.
use keva_db.Base.{◌≡◌, none, some, ◌++◌, arith, Bytes, codes, bytes_eq, [], ◌∷◌}
use keva_db.Base.Int.{pos}
use keva_db.Core.Buffer.{Buffer, empty_buffer, append}
use keva_db.Core.Buffer.Growth.{IsBuffer, empty_buffer-IsBuffer, append-IsBuffer}
use keva_db.Core.Db.{KevaDatabase, new_database, get, set, set_expire, active_expire_cycle}
use keva_db.Core.Db.Expiry.{SameLive, active_expire_cycle-SameLive}
use keva_db.Core.Db.Live.{new_database-IsDb, set-Written, set_expire-Written, Written}
use keva_db.Core.Db.Lookups.{LookedUp, get-LookedUp}
use keva_db.Core.Dict.Invariant.{view}
use keva_db.Core.Object.{KevaObject, create_string, touch, current_lru, lru}
use keva_db.Core.ServerContext.{ServerContext, new_context, server_cron}
use keva_db.Core.ServerContext.Cron.{AllSame, server_cron-AllSame}
use keva_db.Core.Object.Header.{lru-touch_current}

abbrev hello : KevaObject
hello = create_string (codes "hello") 0

-- One key, without a time and with the time 1000.
abbrev k : Bytes
k = codes "k"

abbrev plain : KevaDatabase
plain = set (new_database 0) k hello

abbrev timed : KevaDatabase
timed = set_expire plain k (pos 1000)

plain-Written : Written (new_database 0) plain k (some hello) none
plain-Written = set-Written (new_database 0) (new_database-IsDb 0) k hello

timed-Written : Written plain timed k (view plain.keys k) (some (pos 1000))
timed-Written = set_expire-Written plain plain-Written.valid k (pos 1000)

stored_in_plain : view plain.keys k ≡ some hello
unfolding bytes_eq
stored_in_plain = plain-Written.objects k

active_expire_cycle-SameLive_example :
    SameLive (pos 2000) timed (active_expire_cycle (pos 2000) (λ i. (i, 5)) timed).0
active_expire_cycle-SameLive_example =
    active_expire_cycle-SameLive timed timed-Written.valid (pos 2000) (λ i. (i, 5))

get-LookedUp_example : LookedUp timed k (pos 2000) (current_lru 77) (get timed k (pos 2000) 77)
get-LookedUp_example = get-LookedUp timed timed-Written.valid k (pos 2000) 77

append-IsBuffer_example :
    (b' : Buffer) × (append empty_buffer (codes "hi") ≡ some b')
    × IsBuffer b'
    × (b'.bytes ≡ empty_buffer.bytes ++ codes "hi")
append-IsBuffer_example =
    append-IsBuffer empty_buffer empty_buffer-IsBuffer (codes "hi") (omega arith)

lru-touch_current_example : lru (touch (current_lru 1700000000) hello) ≡ 0
lru-touch_current_example = lru-touch_current 1700000000 hello

abbrev server : ServerContext
server = record new_context { databases = timed ∷ []; dirty_keys = 2 }

server_cron-AllSame_example :
    AllSame
      (pos 2000)
      server.databases
      (server_cron (pos 2000) (pos 2) (λ i j. (i, j)) server).0.databases
server_cron-AllSame_example =
    server_cron-AllSame (pos 2000) (pos 2) (λ i j. (i, j)) server (timed-Written.valid, tt)
