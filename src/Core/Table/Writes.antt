-- ===== src/Core/Table/Writes.antt =====
-- The three writes of Core/Table.antt: each keeps the table's invariant, and what it does to the map
-- that the table means.
use keva_db.Base.{
  ℕ, ◌+◌, ◌-◌, ◌≤◌, ◌<◌, ◌≡◌, refl, true, Option, none, some, ◌∷◌, arith, if◌then◌else◌, Bytes,
  bytes_eq, bytes_eq_iff, is_some,
}
use keva_db.Core.Chain.{
  DictEntry, find, assign, unlink, look, count, find-look, assign-Belongs, unlink-Belongs,
  look-assign, count-assign, length-assign, look-unlink, count-unlink-le, length-unlink,
}
use keva_db.Core.Table.{DictHashTable, bucket_idx, prepend, overwrite, remove}
use keva_db.Core.Table.Placed.{
  IsTable, chain_of, seek, tally, home-lt, put_bucket-IsTable, look-put_at, count-put_at,
  length-le-total,
}

module _ {ℓ} {V : Type ℓ} (hash : Bytes → ℕ) where
  -- A table `t'` of the same size as `t` with `n` entries, that means the map `f` and has at most
  -- `m q` entries under each key `q`.
  pub record Wrote (t : DictHashTable V) (n : ℕ) (f : Bytes → Option V) (m : Bytes → ℕ)
      (t' : DictHashTable V) : Type ℓ where
    pub table : IsTable hash t'
    pub size : t'.size ≡ t.size
    pub used : t'.used ≡ n
    pub reads : (q : Bytes) → seek hash t' q ≡ f q
    pub few : (q : Bytes) → tally hash t' q ≤ m q

  module _ (t : DictHashTable V) (w : IsTable hash t) (pos : 0 < t.size) where
    pub prepend-Wrote :
        (e : DictEntry V)
        → e.hash_val ≡ hash e.key
        → Wrote t
            (t.used + 1)
            (λ q. if bytes_eq e.key q then some e.value else seek hash t q)
            (λ q. (if bytes_eq e.key q then 1 else 0) + tally hash t q)
            (prepend t e)
    unfolding prepend look count
    prepend-Wrote e h =
        let i = bucket_idx t (hash e.key) in
        let c = chain_of hash t e.key in
        let c' = record e { hash_val = hash e.key } ∷ c in
        rw h (record {
          table =
              put_bucket-IsTable hash t w i (t.used + 1) c' (home-lt hash (hash e.key) w pos)
                (refl, refl, w.placed i) (omega arith);
          size = refl;
          used = refl;
          reads = λ q.
              rw (look-put_at hash t w i q c' (home-lt hash (hash e.key) w pos))
                (ground (arith, bytes_eq_iff e.key q));
          few = λ q.
              rw (count-put_at hash t w i q c' (home-lt hash (hash e.key) w pos))
                (ground (arith, bytes_eq_iff e.key q));
        })

    pub overwrite-Wrote :
        (k : Bytes) (v : V)
        → is_some (seek hash t k) ≡ true
        → Wrote t t.used
            (λ q. if bytes_eq k q then some v else seek hash t q)
            (tally hash t)
            (overwrite t k (hash k) v)
    unfolding overwrite
    overwrite-Wrote k v h =
        let i = bucket_idx t (hash k) in
        let c = chain_of hash t k in
        let c' = assign k (hash k) v c in
        let b = w.placed i in
        record {
          table =
              put_bucket-IsTable hash t w i t.used c' (home-lt hash (hash k) w pos)
                (assign-Belongs hash (bucket_idx t) i k v c b)
                (omega (arith, length-assign hash (bucket_idx t) i k v c));
          size = refl;
          used = refl;
          reads = λ q.
              rw (look-put_at hash t w i q c' (home-lt hash (hash k) w pos))
                (ground (arith, look-assign hash (bucket_idx t) i k q v c b h, bytes_eq_iff k q));
          few = λ q.
              rw (count-put_at hash t w i q c' (home-lt hash (hash k) w pos))
                (ground (arith, count-assign hash (bucket_idx t) i k q v c));
        }

    pub remove-Wrote :
        (k : Bytes)
        → is_some (seek hash t k) ≡ true
        → ((q : Bytes) → tally hash t q ≤ 1)
        → Wrote t
            (t.used - 1)
            (λ q. if bytes_eq k q then none else seek hash t q)
            (tally hash t)
            (remove t k (hash k))
    unfolding remove
    remove-Wrote k here once =
        let i = bucket_idx t (hash k) in
        let c = chain_of hash t k in
        let c' = unlink k (hash k) c in
        let b = w.placed i in
        let h : is_some (find k (hash k) c) ≡ true =
          ground (arith, find-look hash (bucket_idx t) i k c b) in
        record {
          table =
              put_bucket-IsTable hash t w i (t.used - 1) c' (home-lt hash (hash k) w pos)
                (unlink-Belongs hash (bucket_idx t) i k c b)
                (omega (
                  arith,
                  length-unlink hash (bucket_idx t) i k c h,
                  w.counted,
                  length-le-total t.buckets i,
                ));
          size = refl;
          used = refl;
          reads = λ q.
              rw (look-put_at hash t w i q c' (home-lt hash (hash k) w pos)) (
                ground
                  (arith, look-unlink hash (bucket_idx t) i k q c b, once q, bytes_eq_iff k q));
          few = λ q.
              rw (count-put_at hash t w i q c' (home-lt hash (hash k) w pos))
                (ground (arith, count-unlink-le hash (bucket_idx t) i k q c));
        }
