-- ===== src/Core/Dict/Rehash.antt =====
-- Migration: a step moves entries and changes nothing that the dictionary means.
use keva_db.Base.{
  ℕ, zero, suc, ◌+◌, ◌-◌, ◌≤◌, ◌<◌, ◌≡◌, refl, ap, ◌∙◌, inl, inr, true, false, List, [], ◌∷◌, arith,
  ◌==◌, ==_iff, Bool-cases, Bytes, length, get_or, get_or-set, or_else,
}
use native.Mathlib.Decide.{dec_lt}
use keva_db.Core.Chain.{Chain, look, count, Belongs, look-eq-none, count-away}
use keva_db.Core.Dict.{migrate_chain}
use keva_db.Core.Dict.Invariant.{Swept, IsPair, pair_view}
use keva_db.Core.Table.{DictHashTable, bucket, bucket_idx, put_bucket, prepend}
use keva_db.Core.Table.Placed.{
  IsTable, seek, tally, put_bucket-IsTable, look-put_at, count-put_at, total, length-le-total,
}
use keva_db.Core.Table.Writes.{Wrote, prepend-Wrote}

module _ {V : Type 0} (h : Bytes → ℕ) where
  -- A chain is moved to a table that holds none of its keys.
  pub migrate_chain-Wrote :
      (home : ℕ → ℕ) (i : ℕ) (c : Chain V) (t : DictHashTable V)
      → IsTable h t
      → 0 < t.size
      → Belongs h home i c
      → ((q : Bytes) → count q c + tally h t q ≤ 1)
      → Wrote h t
          (t.used + length c)
          (λ q. or_else (look q c) (seek h t q))
          (λ q. count q c + tally h t q)
          (migrate_chain c t)
  unfolding migrate_chain look count
  migrate_chain-Wrote home i [] t w pos b once = record {
    table = w;
    size = refl;
    used = omega arith;
    reads = λ q. refl;
    few = λ q. omega arith;
  }
  migrate_chain-Wrote home i (e ∷ c) t w pos b once =
      let p = prepend-Wrote h t w pos e b.0 in
      let r =
        migrate_chain-Wrote home i c (prepend t e) p.table (omega (arith, p.size)) b.2
          (λ q. omega (arith, p.few q, once q)) in
      record {
        table = r.table;
        size = r.size ∙ p.size;
        used = omega (arith, r.used, p.used);
        reads = λ q. ground (arith, r.reads q, p.reads q, once q, look-eq-none q c);
        few = λ q. omega (arith, r.few q, p.few q);
      }

  -- The state of the loop after some rounds: nothing is lost, and nothing is meant anew.
  pub record Moved (t0 t1 t0' t1' : DictHashTable V) (i : ℕ) : Type 0 where
    pub pair : IsPair h t0' t1'
    pub pos1 : 0 < t1'.size
    pub swept : Swept t0' i
    pub same : (q : Bytes) → pair_view h t0' t1' q ≡ pair_view h t0 t1 q
    pub size0 : t0'.size ≡ t0.size
    pub sum : t0'.used + t1'.used ≡ t0.used + t1.used

  Swept-put :
      (t : DictHashTable V) (j n : ℕ)
      → j < length t.buckets
      → Swept t j
      → Swept (record (put_bucket t j []) { used = n }) (j + 1)
  Swept-put t j n lt s k le = rw (get_or-set t.buckets j k [] [] lt) (ground (arith, s k))

  module _ (t0 t1 : DictHashTable V) (p : IsPair h t0 t1) (j : ℕ) where
    in_place :
        (q : Bytes)
        → (j == bucket_idx t0 (h q)) ≡ true
        → bucket t0 j ≡ bucket t0 (bucket_idx t0 (h q))
    in_place q e = ap (bucket t0) ((==_iff j _).0 e)

    away : (q : Bytes) → (j == bucket_idx t0 (h q)) ≡ false → count q (bucket t0 j) ≡ 0
    away q e = count-away h (bucket_idx t0) j q (bucket t0 j) (p.table0.placed j) (ground arith)

    count-le-tally : (q : Bytes) → count q (bucket t0 j) ≤ tally h t0 q
    count-le-tally q = elim (Bool-cases (j == bucket_idx t0 (h q))) [
      | inl e ↦ omega (arith, ap (count q) (in_place q e))
      | inr e ↦ omega (arith, away q e)
    ]

    -- One bucket is migrated.
    pub round-Moved :
        0 < t1.size
        → Swept t0 j
        → j < t0.size
        → Moved t0 t1
            (record (put_bucket t0 j []) { used = t0.used - length (bucket t0 j) })
            (migrate_chain (bucket t0 j) t1)
            (j + 1)
    unfolding look count
    round-Moved pos1 s lt =
        let c = bucket t0 j in
        let m =
          migrate_chain-Wrote (bucket_idx t0) j c t1 p.table1 pos1 (p.table0.placed j)
            (λ q. omega (arith, count-le-tally q, p.once q)) in
        let short = length-le-total t0.buckets j in
        record {
          pair = record {
            table0 =
                put_bucket-IsTable h t0 p.table0 j (t0.used - length c) [] lt tt
                  (omega (arith, short, p.table0.counted));
            table1 = m.table;
            pos0 = p.pos0;
            once = λ q. elim (Bool-cases (j == bucket_idx t0 (h q))) [
              | inl e ↦
                  rw (count-put_at h t0 p.table0 j q [] lt, e)
                    (omega (arith, m.few q, count-le-tally q, p.once q))
              | inr e ↦
                  rw (count-put_at h t0 p.table0 j q [] lt, e)
                    (omega (arith, m.few q, away q e, p.once q))
            ];
          };
          pos1 = omega (arith, m.size);
          swept = Swept-put t0 j (t0.used - length c) (omega (arith, p.table0.width)) s;
          same = λ q. elim (Bool-cases (j == bucket_idx t0 (h q))) [
            | inl e ↦
                rw (look-put_at h t0 p.table0 j q [] lt, e, m.reads q)
                  (ap (λ l. or_else (look q l) (seek h t1 q)) (in_place q e))
            | inr e ↦
                rw (look-put_at h t0 p.table0 j q [] lt, e, m.reads q, look-eq-none q c (away q e))
          ];
          size0 = refl;
          sum = omega (arith, m.used, short, p.table0.counted);
        }

  total-swept :
      (bs : List (Chain V)) (i : ℕ)
      → length bs ≤ i
      → ((j : ℕ) → j < i → get_or bs j [] ≡ [])
      → total bs ≡ 0
  unfolding total get_or
  total-swept [] i le s = refl
  total-swept (c ∷ bs) zero le s = absurd (omega arith)
  total-swept (c ∷ bs) (suc i) le s = omega (
    arith,
    ap length (s 0 (omega arith)),
    total-swept bs i (omega arith) (λ j lt. s (suc j) (omega arith)),
  )

  -- While entries are left, the index lies in the array.
  pub idx-lt-size :
      (t : DictHashTable V) (i : ℕ) → IsTable h t → Swept t i → 0 < t.used → i < t.size
  idx-lt-size t i w s some_left = elim (dec_lt i t.size) [
    | yes lt ↦ lt
    | no ge ↦ absurd (omega (arith, total-swept t.buckets i (omega (arith, w.width)) s, w.counted))
  ]
