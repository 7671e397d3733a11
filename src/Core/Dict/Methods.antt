-- ===== src/Core/Dict/Methods.antt =====
-- The methods of `Dict` refine a map from keys to values.
use keva_db.Base.{
  ◌≡◌, refl, sym, ap, ◌∙◌, inl, inr, Bool, true, false, ◌&&◌, Option, none, some, arith, Bool-cases,
  Bytes, bytes_eq_iff, is_some,
}
use mathlib.Core.Bool.{false≢true}
use keva_db.Core.Dict.{
  Dict, hash, is_rehashing, step_first, set, set_stepped, put_in, get, exists, del, del_stepped,
  write_through,
}
use keva_db.Core.Dict.Invariant.{IsDict, view, is_some-find_in, peek-view, seek-idle}
use keva_db.Core.Dict.Sizing.{maybe_expand-Stepped, maybe_shrink-Stepped}
use keva_db.Core.Dict.Steps.{Stepped, step_first-Stepped}
use keva_db.Core.Dict.Updates.{
  Updated, present, overwrite_first, overwrite_second, remove_first, remove_second, prepend_first,
  prepend_second,
}
use keva_db.Core.Table.{find_in}
use keva_db.Core.Table.Placed.{seek}

-- What `set` returns: true exactly for a key that was not there.
abbrev pub is_new {ℓ} : {A : Type ℓ} → Option A → Bool
is_new none = true
is_new (some a) = false

none_of {ℓ} : {A : Type ℓ} (o : Option A) → is_some o ≡ false → o ≡ none
none_of none e = refl
none_of (some a) e = cc

module _ {V : Type 0} where
  -- A write followed by steps that change nothing, or preceded by them.
  Updated-after :
      {d d' e : Dict V} {k : Bytes} {v : Option V}
      → Updated d d' k v
      → Stepped d' e
      → Updated d e k v
  Updated-after u s = record {
    valid = s.valid;
    reads = λ q. s.same q ∙ u.reads q;
    counts = omega (arith, s.same_size, u.counts);
    same_hash = λ q. s.same_hash q ∙ u.same_hash q;
  }

  Updated-before :
      {d d' e : Dict V} {k : Bytes} {v : Option V}
      → Stepped d d'
      → Updated d' e k v
      → Updated d e k v
  Updated-before {k} {v} s u = record {
    valid = u.valid;
    reads = λ q. rw (u.reads q, s.same q);
    counts = omega (arith, s.same_size, u.counts, ap present (s.same k));
    same_hash = λ q. u.same_hash q ∙ s.same_hash q;
  }

module _ {V : Type 0} (d : Dict V) (w : IsDict d) (k : Bytes) where
  in_first : is_some (find_in d.ht0 k (hash d k)) ≡ is_some (seek (hash d) d.ht0 k)
  in_first = is_some-find_in (hash d) d.ht0 w.pair.table0 k

  in_second : is_some (find_in d.ht1 k (hash d k)) ≡ is_some (seek (hash d) d.ht1 k)
  in_second = is_some-find_in (hash d) d.ht1 w.pair.table1 k

  pub set_stepped-Updated :
      (v : V)
      → Updated d (set_stepped d k v).0 k (some v) × ((set_stepped d k v).1 ≡ is_new (view d k))
  unfolding set_stepped put_in
  set_stepped-Updated v = elim (Bool-cases (is_rehashing d)) [
    | inl busy ↦ rw busy (elim (Bool-cases (is_some (find_in d.ht0 k (hash d k)))) [
      | inl first ↦
          rw first (overwrite_first d w k v (sym in_first ∙ first), ground (arith, in_first))
      | inr not_first ↦
          let absent0 = none_of (seek (hash d) d.ht0 k) (sym in_first ∙ not_first) in
          rw not_first (elim (Bool-cases (is_some (find_in d.ht1 k (hash d k)))) [
            | inl second ↦ rw second (
              overwrite_second d w k v busy absent0 (sym in_second ∙ second),
              ground (arith, in_second),
            )
            | inr not_second ↦
                let absent1 = none_of (seek (hash d) d.ht1 k) (sym in_second ∙ not_second) in
                let u = prepend_second d w k v absent0 absent1 busy in
                rw not_second
                  (Updated-after u (maybe_expand-Stepped _ u.valid), rw (absent0, absent1))
          ])
    ])
    | inr idle ↦ rw idle (elim (Bool-cases (is_some (find_in d.ht0 k (hash d k)))) [
      | inl first ↦
          rw first (overwrite_first d w k v (sym in_first ∙ first), ground (arith, in_first))
      | inr not_first ↦
          let still = none_of d.rehashidx idle in
          let absent0 = none_of (seek (hash d) d.ht0 k) (sym in_first ∙ not_first) in
          let absent1 = seek-idle d w still k in
          let u = prepend_first d w k v absent0 absent1 still in
          rw not_first (Updated-after u (maybe_expand-Stepped _ u.valid), rw (absent0, absent1))
    ])
  ]

  absent_second :
      (is_rehashing d && is_some (find_in d.ht1 k (hash d k))) ≡ false
      → seek (hash d) d.ht1 k ≡ none
  absent_second neither = elim (Bool-cases (is_rehashing d)) [
    | inl busy ↦ none_of _ (sym in_second ∙ (rw busy at neither))
    | inr idle ↦ seek-idle d w (none_of d.rehashidx idle) k
  ]

  Updated-absent : view d k ≡ none → Updated d d k none
  Updated-absent gone = record {
    valid = w;
    reads = λ q. ground (arith, bytes_eq_iff k q);
    counts = ground arith;
    same_hash = λ q. refl;
  }

  pub del_stepped-Updated :
      Updated d (del_stepped d k).0 k none × ((del_stepped d k).1 ≡ is_some (view d k))
  unfolding del_stepped
  del_stepped-Updated = elim (Bool-cases (is_some (find_in d.ht0 k (hash d k)))) [
    | inl first ↦
        let u = remove_first d w k (sym in_first ∙ first) in
        rw first (Updated-after u (maybe_shrink-Stepped _ u.valid), ground (arith, in_first))
    | inr not_first ↦
        let absent0 = none_of (seek (hash d) d.ht0 k) (sym in_first ∙ not_first) in
        let both = is_rehashing d && is_some (find_in d.ht1 k (hash d k)) in
        rw not_first (elim (Bool-cases both) [
          | inl second ↦
              let u = remove_second d w k (ground arith) absent0 (ground (arith, in_second)) in
              rw second
                (Updated-after u (maybe_shrink-Stepped _ u.valid), ground (arith, in_second))
          | inr neither ↦
              let gone : view d k ≡ none = rw absent0 (absent_second neither) in
              rw neither (Updated-absent gone, rw gone)
        ])
  ]

  -- A write through a pointer into the dictionary changes the value under the key.
  pub write_through-Updated :
      (v : V) → is_some (view d k) ≡ true → Updated d (write_through d k v) k (some v)
  unfolding write_through
  write_through-Updated v here = elim (Bool-cases (is_some (find_in d.ht0 k (hash d k)))) [
    | inl first ↦ rw first (overwrite_first d w k v (sym in_first ∙ first))
    | inr not_first ↦
        let absent0 = none_of (seek (hash d) d.ht0 k) (sym in_first ∙ not_first) in
        let both = is_rehashing d && is_some (find_in d.ht1 k (hash d k)) in
        rw not_first (elim (Bool-cases both) [
          | inl second ↦
              rw second
                (overwrite_second d w k v (ground arith) absent0 (ground (arith, in_second)))
          | inr neither ↦ absurd (false≢true (rw (absent0, absent_second neither) at here))
        ])
  ]

module _ {V : Type 0} (d : Dict V) (w : IsDict d) (k : Bytes) where
  stepped : Stepped d (step_first d)
  stepped = step_first-Stepped d w

  -- Setting a key of a valid dictionary maps that key to the value and no other key differently,
  -- counts the size, keeps the invariant, and returns true exactly for a new key.
  pub set-Updated :
      (v : V) → Updated d (set d k v).0 k (some v) × ((set d k v).1 ≡ is_new (view d k))
  unfolding set
  set-Updated v =
      let (u, new) = set_stepped-Updated (step_first d) stepped.valid k v in
      (Updated-before stepped u, new ∙ ap is_new (stepped.same k))

  -- Deleting a key of a valid dictionary unmaps that key and changes no other key, counts the size,
  -- keeps the invariant, and returns true exactly for a key that was there.
  pub del-Updated : Updated d (del d k).0 k none × ((del d k).1 ≡ is_some (view d k))
  unfolding del
  del-Updated =
      let (u, there) = del_stepped-Updated (step_first d) stepped.valid k in
      (Updated-before stepped u, there ∙ ap is_some (stepped.same k))

  pub get-Stepped : Stepped d (get d k).0 × ((get d k).1 ≡ view d k)
  unfolding get
  get-Stepped = (stepped, peek-view (step_first d) stepped.valid k ∙ stepped.same k)

  pub exists-view : exists d k ≡ is_some (view d k)
  unfolding exists
  exists-view = ap is_some (peek-view d w k)
