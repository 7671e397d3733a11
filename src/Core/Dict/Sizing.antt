-- ===== src/Core/Dict/Sizing.antt =====
-- Load factors and the start of a rehash.
use keva_db.Base.{
  ℕ, ◌*◌, ◌<◌, ◌≡◌, refl, inl, inr, Bool, false, ◌||◌, Option, none, some, arith, leb, Bool-cases,
  is_some,
}
use keva_db.Base.Bits.{bit_ceil_pos}
use keva_db.Core.Dict.{
  Dict, hash, size, start_rehash, maybe_expand, maybe_shrink, over_expand_ratio, under_shrink_ratio,
  is_rehashing,
}
use keva_db.Core.Dict.Invariant.{IsDict, seek-eq-none, seek-idle, idle_used, tally-allocate}
use keva_db.Core.Dict.Steps.{Stepped, Stepped-self}
use keva_db.Core.Table.{allocate, is_null}
use keva_db.Core.Table.Placed.{allocate-IsTable}

module _ {V : Type 0} (d : Dict V) (w : IsDict d) where
  -- Outside of a rehash a new second table changes nothing.
  start_rehash-Stepped : (n : ℕ) → 0 < n → d.rehashidx ≡ none → Stepped d (start_rehash n d)
  unfolding start_rehash size hash allocate
  start_rehash-Stepped n pos idle = record {
    valid = record {
      pair = record {
        table0 = w.pair.table0;
        table1 = allocate-IsTable (hash d) n;
        pos0 = w.pair.pos0;
        once = λ q. omega (arith, w.pair.once q, tally-allocate V (hash d) q n);
      };
      phase = (pos, λ j lt. absurd (omega arith));
    };
    same = λ q. rw (
      seek-eq-none (hash d) (allocate n) q (tally-allocate V (hash d) q n),
      seek-idle d w idle q,
    );
    same_size = omega (arith, idle_used d w idle);
    same_hash = λ q. refl;
  }

  idle_of : (b : Bool) → (is_rehashing d || b) ≡ false → d.rehashidx ≡ none
  idle_of b e = go d.rehashidx e
    where
      go : (r : Option ℕ) → (is_some r || b) ≡ false → r ≡ none
      go none e = refl
      go (some i) e = cc

  pub maybe_expand-Stepped : Stepped d (maybe_expand d)
  unfolding maybe_expand
  maybe_expand-Stepped = elim (Bool-cases (is_rehashing d || is_null d.ht0)) [
    | inl busy ↦ rw busy (Stepped-self d w)
    | inr idle ↦ rw idle (elim (Bool-cases (over_expand_ratio d.ht0)) [
      | inl over ↦ rw over (start_rehash-Stepped _ (bit_ceil_pos (d.ht0.used * 2)) (idle_of _ idle))
      | inr under ↦ rw under (Stepped-self d w)
    ])
  ]

  pub maybe_shrink-Stepped : Stepped d (maybe_shrink d)
  unfolding maybe_shrink
  maybe_shrink-Stepped = elim (Bool-cases (is_rehashing d || (is_null d.ht0 || leb d.ht0.size 4))) [
    | inl busy ↦ rw busy (Stepped-self d w)
    | inr idle ↦ rw idle (elim (Bool-cases (under_shrink_ratio d.ht0)) [
      | inl under ↦ rw under (start_rehash-Stepped _ (bit_ceil_pos _) (idle_of _ idle))
      | inr over ↦ rw over (Stepped-self d w)
    ])
  ]
