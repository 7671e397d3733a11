-- ===== src/Core/Dict/Invariant.antt =====
-- The invariant of a dictionary, and the map from keys to values that it means.
use keva_db.Base.{
  ℕ, ◌+◌, ◌≤◌, ◌<◌, ◌≡◌, refl, sym, ◌∙◌, Option, none, some, [], arith, if◌then◌else◌, Bytes,
  is_some, or_else, get_or,
}
use mathlib.Core.Option
use mathlib.Core.Path.{subst}
use keva_db.Core.Chain.{DictEntry, count, look-eq-none, count-eq-zero}
use keva_db.Core.Dict.{Dict, new_dict, clear, seed_hash, hash, peek}
use keva_db.Core.Table.{DictHashTable, bucket, find_in, allocate, deallocated}
use keva_db.Core.Table.Placed.{
  IsTable, seek, tally, tally-le-used, find_in-seek, allocate-IsTable, deallocated-IsTable,
  count-allocate,
}

-- Tables with no entries.
module _ (V : Type 0) (h : Bytes → ℕ) (q : Bytes) where
  pub tally-allocate : (n : ℕ) → tally h (allocate {V = V} n) q ≡ 0
  tally-allocate n = count-allocate V h n q _

  pub tally-deallocated : tally {V = V} h deallocated q ≡ 0
  unfolding count get_or
  tally-deallocated = refl

module _ {V : Type 0} where
  -- The buckets below `i` are empty.
  abbrev pub Swept : DictHashTable V → ℕ → Type 0
  Swept t i = (j : ℕ) → j < i → bucket t j ≡ []

  -- Outside of a rehash the second table has no entries; in a rehash it has buckets, and the first
  -- table is swept up to the index.
  abbrev pub Phase : Option ℕ → DictHashTable V → DictHashTable V → Type 0
  Phase none t0 t1 = t1.used ≡ 0
  Phase (some i) t0 t1 = (0 < t1.size) × Swept t0 i

  -- Two tables that share no key and hold none twice.
  pub record IsPair (h : Bytes → ℕ) (t0 t1 : DictHashTable V) : Type 0 where
    pub table0 : IsTable h t0
    pub table1 : IsTable h t1
    pub pos0 : 0 < t0.size
    pub once : (q : Bytes) → tally h t0 q + tally h t1 q ≤ 1

  abbrev pub pair_view : (Bytes → ℕ) → DictHashTable V → DictHashTable V → Bytes → Option V
  pair_view h t0 t1 q = or_else (seek h t0 q) (seek h t1 q)

  pub record IsDict (d : Dict V) : Type 0 where
    pub pair : IsPair (hash d) d.ht0 d.ht1
    pub phase : Phase d.rehashidx d.ht0 d.ht1

  -- What the dictionary maps a key to.
  abbrev pub view : Dict V → Bytes → Option V
  view d = pair_view (hash d) d.ht0 d.ht1

  pub seek-eq-none :
      (h : Bytes → ℕ) (t : DictHashTable V) (q : Bytes) → tally h t q ≡ 0 → seek h t q ≡ none
  seek-eq-none h t q e = look-eq-none q (bucket t _) e

  pub tally-eq-zero :
      (h : Bytes → ℕ) (t : DictHashTable V) (q : Bytes) → seek h t q ≡ none → tally h t q ≡ 0
  tally-eq-zero h t q e = count-eq-zero q (bucket t _) e

  pub idle_used : (d : Dict V) → IsDict d → d.rehashidx ≡ none → d.ht1.used ≡ 0
  idle_used d w e = subst (λ r. Phase r d.ht0 d.ht1) e w.phase

  -- Outside of a rehash the second table means nothing.
  pub seek-idle :
      (d : Dict V) → IsDict d → d.rehashidx ≡ none → (q : Bytes) → seek (hash d) d.ht1 q ≡ none
  seek-idle d w e q =
      seek-eq-none (hash d) d.ht1 q
        (omega (arith, tally-le-used (hash d) d.ht1 w.pair.table1 q, idle_used d w e))

  abbrev found_value : Option (DictEntry V) → Option V
  found_value r = elim r [ none ↦ none | some e ↦ some e.value ]

  pub is_some-find_in :
      (h : Bytes → ℕ) (t : DictHashTable V)
      → IsTable h t
      → (k : Bytes) → is_some (find_in t k (h k)) ≡ is_some (seek h t k)
  is_some-find_in h t w k = rw (find_in-seek h t w k) (go (find_in t k (h k)))
    where
      go : (r : Option (DictEntry V)) → is_some r ≡ is_some (found_value r)
      go none = refl
      go (some e) = refl

  peek_shape :
      (a b : Option (DictEntry V)) (r : Option ℕ)
      → (r ≡ none → found_value b ≡ none)
      → (elim a [
        | some e ↦ some e.value
        | none ↦ if is_some r then Option.map (λ e. e.value) b else none
      ])
        ≡ or_else (found_value a) (found_value b)
  peek_shape (some e) b r h = refl
  peek_shape none none none h = refl
  peek_shape none none (some i) h = refl
  peek_shape none (some e) none h = cc (h refl)
  peek_shape none (some e) (some i) h = refl

  -- A lookup that does not migrate returns what the dictionary means.
  pub peek-view : (d : Dict V) → IsDict d → (k : Bytes) → peek d k ≡ view d k
  unfolding peek
  peek-view d w k =
      let e1 = find_in-seek (hash d) d.ht1 w.pair.table1 k in
      rw (find_in-seek (hash d) d.ht0 w.pair.table0 k, e1)
        (peek_shape (find_in d.ht0 k (hash d k)) (find_in d.ht1 k (hash d k)) d.rehashidx
          (λ idle. sym e1 ∙ seek-idle d w idle k))

  pub allocate-IsPair : (h : Bytes → ℕ) → IsPair h (allocate {V = V} 4) deallocated
  allocate-IsPair h = record {
    table0 = allocate-IsTable h 4;
    table1 = deallocated-IsTable h;
    pos0 = unfold allocate in omega arith;
    once = λ q. omega (arith, tally-allocate V h q 4, tally-deallocated V h q);
  }

  pub pair_view-allocate :
      (h : Bytes → ℕ) (q : Bytes) → pair_view h (allocate {V = V} 4) deallocated q ≡ none
  pair_view-allocate h q = rw (
    seek-eq-none h (allocate 4) q (tally-allocate V h q 4),
    seek-eq-none h deallocated q (tally-deallocated V h q),
  )

  -- A new dictionary, seeded or not, means the empty map.
  pub new_dict-IsDict : (k0 k1 : ℕ) → IsDict (seed_hash k0 k1 new_dict)
  unfolding new_dict seed_hash
  new_dict-IsDict k0 k1 = record { pair = allocate-IsPair _; phase = refl }

  pub view-new_dict : (k0 k1 : ℕ) (q : Bytes) → view (seed_hash k0 k1 new_dict) q ≡ none
  unfolding new_dict seed_hash
  view-new_dict k0 k1 q = pair_view-allocate (hash (seed_hash k0 k1 (new_dict {V = V}))) q

  pub clear-IsDict : (d : Dict V) → IsDict (clear d)
  unfolding clear
  clear-IsDict d = record { pair = allocate-IsPair _; phase = refl }

  pub view-clear : (d : Dict V) (q : Bytes) → view (clear d) q ≡ none
  unfolding clear
  view-clear d q = pair_view-allocate (hash (clear d)) q
