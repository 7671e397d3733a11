-- ===== src/Core/Dict/Steps.antt =====
-- `rehash_step` as a whole: what it keeps, and that a rehash comes to its end.
use keva_db.Base.{
  ℕ, zero, suc, ◌+◌, ◌-◌, ◌*◌, ◌≤◌, ◌<◌, ◌≡◌, refl, ap, ◌∙◌, inl, inr, Bool, true, not, ◌&&◌,
  Option, none, some, [], ◌∷◌, arith, ◌==◌, ==_iff, Bool-cases, Bytes, length, or_else,
}
use keva_db.Core.Chain.{Chain}
use keva_db.Core.Dict.{
  Dict, hash, Skip, found, stopped, Loop, skip_empty, migrate_chain, rehash_loop, after_loop,
  rehash_step, step_first, size,
}
use keva_db.Core.Dict.Invariant.{
  Swept, Phase, IsPair, IsDict, view, seek-eq-none, tally-deallocated,
}
use keva_db.Core.Dict.Rehash.{Moved, round-Moved, idx-lt-size}
use keva_db.Core.Table.{DictHashTable, bucket, put_bucket, deallocated}
use keva_db.Core.Table.Placed.{seek, deallocated-IsTable, tally-le-used}

module _ {V : Type 0} (t : DictHashTable V) where
  -- The walk over empty buckets ends at a bucket behind swept ones, or after `l` buckets.
  abbrev SkipEnds : ℕ → ℕ → Skip → Type 0
  SkipEnds i l (found j l') = Swept t j × (i ≤ j)
  SkipEnds i l (stopped j) = Swept t j × (j ≡ i + l)

  Swept-suc : (i : ℕ) → Swept t i → bucket t i ≡ [] → Swept t (i + 1)
  Swept-suc i s e j lt = elim (Bool-cases (j == i)) [
    | inl here ↦ ap (bucket t) ((==_iff j i).0 here) ∙ e
    | inr below ↦ s j (ground arith)
  ]

  SkipEnds-later : (i l : ℕ) (r : Skip) → SkipEnds (i + 1) l r → SkipEnds i (suc l) r
  SkipEnds-later i l (found j l') (s, le) = (s, omega arith)
  SkipEnds-later i l (stopped j) (s, e) = (s, omega arith)

  skip_empty-SkipEnds : (l i : ℕ) → Swept t i → SkipEnds i l (skip_empty l t i)
  unfolding skip_empty
  skip_empty-SkipEnds zero i s = (s, omega arith)
  skip_empty-SkipEnds (suc l) i s =
      go (bucket t i) refl (λ e. skip_empty-SkipEnds l (i + 1) (Swept-suc i s e))
    where
      go :
          (c : Chain V)
          → bucket t i ≡ c
          → (bucket t i ≡ [] → SkipEnds (i + 1) l (skip_empty l t (i + 1)))
          → SkipEnds i (suc l) (elim c [ [] ↦ skip_empty l t (i + 1) | _ ∷ _ ↦ found i (suc l) ])
      go [] e later = SkipEnds-later i l (skip_empty l t (i + 1)) (later e)
      go (x ∷ c) e later = (s, omega arith)

module _ {V : Type 0} (h : Bytes → ℕ) where
  -- What the loop leaves, started at index `i` with `steps` rounds and `limit` empty buckets to go.
  pub record Loops (steps limit i : ℕ) (t0 t1 : DictHashTable V) (l : Loop V) : Type 0 where
    pub moved : Moved h t0 t1 l.from l.to l.idx
    pub onward : i ≤ l.idx
    pub fewer : l.from.used ≤ t0.used
    pub progress : 0 < steps → 0 < limit → 0 < t0.used → i < l.idx
    pub left : l.gave_up ≡ true → 0 < l.from.used

  Moved_self :
      (t0 t1 : DictHashTable V) (i : ℕ)
      → IsPair h t0 t1
      → 0 < t1.size
      → Swept t0 i
      → Moved h t0 t1 t0 t1 i
  Moved_self t0 t1 i p pos1 s = record {
    pair = p;
    pos1 = pos1;
    swept = s;
    same = λ q. refl;
    size0 = refl;
    sum = refl;
  }

  Moved_trans :
      {t0 t1 u0 u1 v0 v1 : DictHashTable V} {i j : ℕ}
      → Moved h t0 t1 u0 u1 i
      → Moved h u0 u1 v0 v1 j
      → Moved h t0 t1 v0 v1 j
  Moved_trans m n = record {
    pair = n.pair;
    pos1 = n.pos1;
    swept = n.swept;
    same = λ q. n.same q ∙ m.same q;
    size0 = n.size0 ∙ m.size0;
    sum = n.sum ∙ m.sum;
  }

  -- A round behind the walk over empty buckets, with the rounds that follow as a hypothesis.
  after_skip-Loops :
      (steps limit i : ℕ) (t0 t1 : DictHashTable V) (r : Skip)
      → IsPair h t0 t1
      → 0 < t1.size
      → 0 < t0.used
      → SkipEnds t0 i limit r
      → ((l j : ℕ) (u0 u1 : DictHashTable V)
          → IsPair h u0 u1
          → 0 < u1.size
          → Swept u0 j
          → Loops steps l j u0 u1 (rehash_loop steps l j u0 u1))
      → Loops (suc steps) limit i t0 t1 (elim r [
        | stopped j ↦ record { from = t0; to = t1; idx = j; gave_up = true }
        | found j limit' ↦
            rehash_loop steps limit'
              (j + 1)
              (record (put_bucket t0 j []) { used = t0.used - length (bucket t0 j) })
              (migrate_chain (bucket t0 j) t1)
      ])
  after_skip-Loops steps limit i t0 t1 (stopped j) p pos1 busy (s, e) ih = record {
    moved = Moved_self t0 t1 j p pos1 s;
    onward = omega arith;
    fewer = omega arith;
    progress = λ a b c. omega arith;
    left = λ _. busy;
  }
  after_skip-Loops steps limit i t0 t1 (found j limit') p pos1 busy (s, le) ih =
      let m = round-Moved h t0 t1 p j pos1 s (idx-lt-size h t0 j p.table0 s busy) in
      let rest =
        ih limit' (j + 1) (record (put_bucket t0 j []) { used = t0.used - length (bucket t0 j) })
          (migrate_chain (bucket t0 j) t1) m.pair m.pos1 m.swept in
      record {
        moved = Moved_trans m rest.moved;
        onward = omega (arith, rest.onward);
        fewer = omega (arith, rest.fewer);
        progress = λ a b c. omega (arith, rest.onward);
        left = rest.left;
      }

  pub rehash_loop-Loops :
      (steps limit i : ℕ) (t0 t1 : DictHashTable V)
      → IsPair h t0 t1
      → 0 < t1.size
      → Swept t0 i
      → Loops steps limit i t0 t1 (rehash_loop steps limit i t0 t1)
  unfolding rehash_loop
  rehash_loop-Loops zero limit i t0 t1 p pos1 s = record {
    moved = Moved_self t0 t1 i p pos1 s;
    onward = omega arith;
    fewer = omega arith;
    progress = λ a b c. absurd (omega arith);
    left = λ e. cc;
  }
  rehash_loop-Loops (suc steps) limit i t0 t1 p pos1 s = elim (Bool-cases (t0.used == 0)) [
    | inl done ↦ rw done (record {
      moved = Moved_self t0 t1 i p pos1 s;
      onward = omega arith;
      fewer = omega arith;
      progress = λ a b c. absurd (ground arith);
      left = λ e. cc;
    })
    | inr busy ↦ rw busy (
        after_skip-Loops steps limit i t0 t1 (skip_empty limit t0 i) p pos1 (ground arith)
          (skip_empty-SkipEnds t0 limit i s) (rehash_loop-Loops steps))
  ]

-- Everything that a step keeps.
pub record Stepped {V : Type 0} (d d' : Dict V) : Type 0 where
  pub valid : IsDict d'
  pub same : (q : Bytes) → view d' q ≡ view d q
  pub same_size : size d' ≡ size d
  pub same_hash : (q : Bytes) → hash d' q ≡ hash d q

or_else-none : {A : Type 0} (o : Option A) → or_else o none ≡ o
or_else-none none = refl
or_else-none (some a) = refl

module _ {V : Type 0} (d : Dict V) where
  Stepped-swap :
      (l : Loop V)
      → Moved (hash d) d.ht0 d.ht1 l.from l.to l.idx
      → l.from.used ≡ 0
      → Stepped d (record d { ht0 = l.to; ht1 = deallocated; rehashidx = none })
  unfolding hash size
  Stepped-swap l m e =
      let away = λ (q : Bytes).
        seek-eq-none (hash d) l.from q
          (omega (arith, tally-le-used (hash d) l.from m.pair.table0 q)) in
      let gone = λ (q : Bytes).
        seek-eq-none {V = V} (hash d) deallocated q (tally-deallocated V (hash d) q) in
      record {
        valid = record {
          pair = record {
            table0 = m.pair.table1;
            table1 = deallocated-IsTable (hash d);
            pos0 = m.pos1;
            once = λ q. omega (arith, m.pair.once q, tally-deallocated V (hash d) q);
          };
          phase = refl;
        };
        same = λ q. rw (gone q) (or_else-none (seek (hash d) l.to q) ∙ (rw (away q) at (m.same q)));
        same_size = omega (arith, m.sum);
        same_hash = λ q. refl;
      }

  after_loop-Stepped :
      (l : Loop V) → Moved (hash d) d.ht0 d.ht1 l.from l.to l.idx → Stepped d (after_loop d l).0
  unfolding after_loop hash size
  after_loop-Stepped l m = elim (Bool-cases (not l.gave_up && l.from.used == 0)) [
    | inl done ↦ rw done (Stepped-swap l m (ground arith))
    | inr more ↦ rw more (record {
      valid = record { pair = m.pair; phase = (m.pos1, m.swept) };
      same = m.same;
      same_size = m.sum;
      same_hash = λ q. refl;
    })
  ]

  pub Stepped-self : IsDict d → Stepped d d
  Stepped-self w = record { valid = w; same = λ q. refl; same_size = refl; same_hash = λ q. refl }

  -- A migration step of any length on a valid dictionary keeps it valid, with the same size, the
  -- same hash and the same value under every key.
  pub rehash_step-Stepped : (steps : ℕ) → IsDict d → Stepped d (rehash_step steps d).0
  unfolding rehash_step
  rehash_step-Stepped steps w = go d.rehashidx w.phase
    where
      go :
          (r : Option ℕ)
          → Phase r d.ht0 d.ht1
          → Stepped d
              (elim r as (λ _. Dict V × Bool) [
                | none ↦ (d, true)
                | some i ↦ after_loop d (rehash_loop steps (steps * 10) i d.ht0 d.ht1)
              ]).0
      go none idle = Stepped-self w
      go (some i) (pos1, s) =
          after_loop-Stepped _
            (rehash_loop-Loops (hash d) steps (steps * 10) i d.ht0 d.ht1 w.pair pos1 s).moved

  pub step_first-Stepped : IsDict d → Stepped d (step_first d)
  step_first-Stepped w = rehash_step-Stepped 1 w
