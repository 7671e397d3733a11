-- ===== src/Core/Dict/Updates.antt =====
-- The effect on what a dictionary means of each write that `set` and `del` can make.
use keva_db.Base.{
  ℕ, ◌+◌, ◌≤◌, ◌<◌, ◌≡◌, refl, inl, inr, true, Option, none, some, [], arith, ◌==◌, ==_iff,
  if◌then◌else◌, Bool-cases, Bytes, bytes_eq, bytes_eq_iff, is_some, get_or-set,
}
use keva_db.Core.Chain.{DictEntry, assign, unlink}
use keva_db.Core.Dict.{Dict, hash, size, is_rehashing}
use keva_db.Core.Dict.Invariant.{IsDict, Phase, Swept, view, seek-eq-none, idle_used, tally-eq-zero}
use keva_db.Core.Table.{DictHashTable, bucket, bucket_idx, prepend, overwrite, remove}
use keva_db.Core.Table.Placed.{IsTable, seek, tally, tally-le-used, home-lt}
use keva_db.Core.Table.Writes.{prepend-Wrote, overwrite-Wrote, remove-Wrote}

abbrev pub present {ℓ} : {A : Type ℓ} → Option A → ℕ
present none = 0
present (some a) = 1

-- `d'` maps `k` to `v` and every other key as `d` does; the size counts the keys.
pub record Updated {V : Type 0} (d d' : Dict V) (k : Bytes) (v : Option V) : Type 0 where
  pub valid : IsDict d'
  pub reads : (q : Bytes) → view d' q ≡ (if bytes_eq k q then v else view d q)
  pub counts : size d' + present (view d k) ≡ size d + present v
  pub same_hash : (q : Bytes) → hash d' q ≡ hash d q

module _ {V : Type 0} where
  Swept-overwrite :
      (h : Bytes → ℕ) (t : DictHashTable V) (w : IsTable h t) (i : ℕ) (k : Bytes) (v : V)
      → 0 < t.size
      → Swept t i
      → Swept (overwrite t k (h k) v) i
  unfolding overwrite assign
  Swept-overwrite h t w i k v pos s j lt =
      let home = bucket_idx t (h k) in
      rw
        (get_or-set t.buckets home j (assign k (h k) v (bucket t home)) []
          (omega (arith, w.width, home-lt h (h k) w pos)))
        (elim (Bool-cases (home == j)) [
          | inl e ↦ rw (e, (==_iff home j).0 e, s j lt)
          | inr e ↦ rw e (s j lt)
        ])

  Swept-remove :
      (h : Bytes → ℕ) (t : DictHashTable V) (w : IsTable h t) (i : ℕ) (k : Bytes)
      → 0 < t.size
      → Swept t i
      → Swept (remove t k (h k)) i
  unfolding remove unlink
  Swept-remove h t w i k pos s j lt =
      let home = bucket_idx t (h k) in
      rw
        (get_or-set t.buckets home j (unlink k (h k) (bucket t home)) []
          (omega (arith, w.width, home-lt h (h k) w pos)))
        (elim (Bool-cases (home == j)) [
          | inl e ↦ rw (e, (==_iff home j).0 e, s j lt)
          | inr e ↦ rw e (s j lt)
        ])

module _ {V : Type 0} (d : Dict V) (w : IsDict d) (k : Bytes) where
  -- A new first table in which no bucket below the index was filled.
  Phase-first :
      (t : DictHashTable V) → ((i : ℕ) → Swept d.ht0 i → Swept t i) → Phase d.rehashidx t d.ht1
  Phase-first t keep = go d.rehashidx w.phase
    where
      go : (r : Option ℕ) → Phase r d.ht0 d.ht1 → Phase r t d.ht1
      go none idle = idle
      go (some i) (pos, s) = (pos, keep i s)

  Phase-second :
      (t : DictHashTable V)
      → t.size ≡ d.ht1.size
      → is_rehashing d ≡ true
      → Phase d.rehashidx d.ht0 t
  Phase-second t e busy = go d.rehashidx w.phase busy
    where
      go : (r : Option ℕ) → Phase r d.ht0 d.ht1 → is_some r ≡ true → Phase r d.ht0 t
      go none idle busy = cc
      go (some i) (pos, s) busy = (omega arith, s)

  pos_second : is_rehashing d ≡ true → 0 < d.ht1.size
  pos_second busy = go d.rehashidx w.phase busy
    where
      go : (r : Option ℕ) → Phase r d.ht0 d.ht1 → is_some r ≡ true → 0 < d.ht1.size
      go none idle busy = cc
      go (some i) (pos, s) busy = pos

  pub overwrite_first :
      (v : V)
      → is_some (seek (hash d) d.ht0 k) ≡ true
      → Updated d (record d { ht0 = overwrite d.ht0 k (hash d k) v }) k (some v)
  unfolding hash size
  overwrite_first v here =
      let h = hash d in
      let o = overwrite-Wrote h d.ht0 w.pair.table0 w.pair.pos0 k v here in
      record {
        valid = record {
          pair = record {
            table0 = o.table;
            table1 = w.pair.table1;
            pos0 = omega (arith, o.size, w.pair.pos0);
            once = λ q. omega (arith, o.few q, w.pair.once q);
          };
          phase = Phase-first _ (λ i s. Swept-overwrite h d.ht0 w.pair.table0 i k v w.pair.pos0 s);
        };
        reads = λ q. rw (o.reads q) (ground arith);
        counts = ground (arith, o.used);
        same_hash = λ q. refl;
      }

  pub overwrite_second :
      (v : V)
      → is_rehashing d ≡ true
      → seek (hash d) d.ht0 k ≡ none
      → is_some (seek (hash d) d.ht1 k) ≡ true
      → Updated d (record d { ht1 = overwrite d.ht1 k (hash d k) v }) k (some v)
  unfolding hash size
  overwrite_second v busy absent here =
      let h = hash d in
      let o = overwrite-Wrote h d.ht1 w.pair.table1 (pos_second busy) k v here in
      record {
        valid = record {
          pair = record {
            table0 = w.pair.table0;
            table1 = o.table;
            pos0 = w.pair.pos0;
            once = λ q. omega (arith, o.few q, w.pair.once q);
          };
          phase = Phase-second _ o.size busy;
        };
        reads = λ q. rw (o.reads q) (ground (arith, bytes_eq_iff k q));
        counts = ground (arith, o.used);
        same_hash = λ q. refl;
      }

  used_pos :
      (t : DictHashTable V) → IsTable (hash d) t → is_some (seek (hash d) t k) ≡ true → 0 < t.used
  used_pos t wt here = ground (arith, seek-eq-none (hash d) t k, tally-le-used (hash d) t wt k)

  -- No key is in both tables.
  second_none : is_some (seek (hash d) d.ht0 k) ≡ true → seek (hash d) d.ht1 k ≡ none
  second_none here =
      seek-eq-none (hash d) d.ht1 k (ground (arith, seek-eq-none (hash d) d.ht0 k, w.pair.once k))

  pub remove_first :
      is_some (seek (hash d) d.ht0 k) ≡ true
      → Updated d (record d { ht0 = remove d.ht0 k (hash d k) }) k none
  unfolding hash size
  remove_first here =
      let h = hash d in
      let o =
        remove-Wrote h d.ht0 w.pair.table0 w.pair.pos0 k here (λ q. omega (arith, w.pair.once q)) in
      record {
        valid = record {
          pair = record {
            table0 = o.table;
            table1 = w.pair.table1;
            pos0 = omega (arith, o.size, w.pair.pos0);
            once = λ q. omega (arith, o.few q, w.pair.once q);
          };
          phase = Phase-first _ (λ i s. Swept-remove h d.ht0 w.pair.table0 i k w.pair.pos0 s);
        };
        reads = λ q. rw (o.reads q) (ground (arith, bytes_eq_iff k q, second_none here));
        counts = ground (arith, o.used, used_pos d.ht0 w.pair.table0 here);
        same_hash = λ q. refl;
      }

  pub remove_second :
      is_rehashing d ≡ true
      → seek (hash d) d.ht0 k ≡ none
      → is_some (seek (hash d) d.ht1 k) ≡ true
      → Updated d (record d { ht1 = remove d.ht1 k (hash d k) }) k none
  unfolding hash size
  remove_second busy absent here =
      let h = hash d in
      let o =
        remove-Wrote h d.ht1 w.pair.table1 (pos_second busy) k here
          (λ q. omega (arith, w.pair.once q)) in
      record {
        valid = record {
          pair = record {
            table0 = w.pair.table0;
            table1 = o.table;
            pos0 = w.pair.pos0;
            once = λ q. omega (arith, o.few q, w.pair.once q);
          };
          phase = Phase-second _ o.size busy;
        };
        reads = λ q. rw (o.reads q) (ground (arith, bytes_eq_iff k q));
        counts = ground (arith, o.used, used_pos d.ht1 w.pair.table1 here);
        same_hash = λ q. refl;
      }

  module _ (v : V) (absent0 : seek (hash d) d.ht0 k ≡ none)
      (absent1 : seek (hash d) d.ht1 k ≡ none) where
    abbrev pub entry : DictEntry V
    entry = record { key = k; value = v; hash_val = hash d k }

    -- No table has an entry under the key yet.
    fresh :
        (q : Bytes)
        → (if bytes_eq k q then 1 else 0) + tally (hash d) d.ht0 q + tally (hash d) d.ht1 q ≤ 1
    fresh q = ground (
      arith,
      bytes_eq_iff k q,
      tally-eq-zero (hash d) d.ht0 k absent0,
      tally-eq-zero (hash d) d.ht1 k absent1,
      w.pair.once q,
    )

    pub prepend_first :
        d.rehashidx ≡ none → Updated d (record d { ht0 = prepend d.ht0 entry }) k (some v)
    unfolding hash size
    prepend_first idle =
        let h = hash d in
        let o = prepend-Wrote h d.ht0 w.pair.table0 w.pair.pos0 entry refl in
        record {
          valid = record {
            pair = record {
              table0 = o.table;
              table1 = w.pair.table1;
              pos0 = omega (arith, o.size, w.pair.pos0);
              once = λ q. omega (arith, o.few q, fresh q);
            };
            phase = rw idle (idle_used d w idle);
          };
          reads = λ q. rw (o.reads q) (ground arith);
          counts = ground (arith, o.used);
          same_hash = λ q. refl;
        }

    pub prepend_second :
        is_rehashing d ≡ true → Updated d (record d { ht1 = prepend d.ht1 entry }) k (some v)
    unfolding hash size
    prepend_second busy =
        let h = hash d in
        let o = prepend-Wrote h d.ht1 w.pair.table1 (pos_second busy) entry refl in
        record {
          valid = record {
            pair = record {
              table0 = w.pair.table0;
              table1 = o.table;
              pos0 = w.pair.pos0;
              once = λ q. omega (arith, o.few q, fresh q);
            };
            phase = Phase-second _ o.size busy;
          };
          reads = λ q. rw (o.reads q) (ground (arith, bytes_eq_iff k q));
          counts = ground (arith, o.used);
          same_hash = λ q. refl;
        }
