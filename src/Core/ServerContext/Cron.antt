-- ===== src/Core/ServerContext/Cron.antt =====
-- The timer changes nothing that a client can see.
use keva_db.Base.{ℕ, suc, List, [], ◌∷◌, All}
use keva_db.Base.Int.{ℤ}
use keva_db.Core.Db.{KevaDatabase, active_expire_cycle}
use keva_db.Core.Db.Expiry.{
  SameLive, SameLive-after, active_expire_cycle-SameLive, rehash_step-SameLive,
}
use keva_db.Core.Db.Live.{IsDb}
use keva_db.Core.ServerContext.{ServerContext, expire_each, rehash_each, server_cron}

-- As many databases, each with the live keys that it had.
abbrev pub AllSame : ℤ → List KevaDatabase → List KevaDatabase → Type 0
AllSame now_ms [] [] = Unit
AllSame now_ms (db ∷ dbs) (db' ∷ dbs') = SameLive now_ms db db' × AllSame now_ms dbs dbs'
AllSame now_ms [] (db' ∷ dbs') = ⊥
AllSame now_ms (db ∷ dbs) [] = ⊥

cron-AllSame :
    (now_ms : ℤ) (draw : ℕ → ℕ → ℕ × ℕ) (dbs : List KevaDatabase)
    → All IsDb dbs
    → AllSame now_ms dbs (rehash_each (expire_each now_ms draw dbs).0)
unfolding expire_each rehash_each
cron-AllSame now_ms draw [] w = tt
cron-AllSame now_ms draw (db ∷ dbs) (w, ws) =
    let s = active_expire_cycle-SameLive db w now_ms (draw 0) in
    let t = rehash_step-SameLive (active_expire_cycle now_ms (draw 0) db).0 s.valid now_ms in
    (SameLive-after now_ms s t, cron-AllSame now_ms (λ i. draw (suc i)) dbs ws)

-- A tick of the timer, on valid databases and whatever the random draws, keeps every database valid
-- and changes the live object of no key in any of them, at its time or later.
pub server_cron-AllSame :
    (now_ms now : ℤ) (draw : ℕ → ℕ → ℕ × ℕ) (ctx : ServerContext)
    → All IsDb ctx.databases
    → AllSame now_ms ctx.databases (server_cron now_ms now draw ctx).0.databases
unfolding server_cron
server_cron-AllSame now_ms now draw ctx w = cron-AllSame now_ms draw ctx.databases w
