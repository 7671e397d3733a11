-- ===== src/Core/Dict.antt =====
-- `Dict` of src/core/dict.cpp: two tables, moved from the first to the second a few buckets at a
-- time. The proofs are in the modules below.
pub mod Sizing
pub mod Invariant
pub mod Rehash
pub mod Steps
pub mod Updates
pub mod Methods
pub mod Refinement
pub mod Progress
pub mod Sampling
use keva_db.Base.{
  ℕ, zero, suc, ◌+◌, ◌-◌, ◌*◌, ◌/◌, ◌%◌, ◌^◌, min, bit_and, ◌≡◌, Bool, true, false, not, ◌&&◌, ◌||◌,
  Option, none, some, List, [], ◌∷◌, ◌++◌, ltb, leb, ◌==◌, if◌then◌else◌, length, Bytes, is_some,
  take,
}
use keva_db.Base.Bits.{bit_ceil}
use mathlib.Core.Option
use keva_db.Core.Chain.{DictEntry, Chain}
use keva_db.Core.SipHash.{siphash_1_2}
use keva_db.Core.Table.{
  DictHashTable, allocate, deallocated, is_null, bucket, put_bucket, find_in, prepend, overwrite,
  remove,
}

-- `rehashidx_` is -1 (`none`) or the next bucket to migrate; the `int64_t` index never wraps, since
-- it is at most the size of a table. The deleter of values only frees memory, and is left out.
pub record Dict {ℓ} (V : Type ℓ) : Type ℓ where
  pub ht0 : DictHashTable V
  pub ht1 : DictHashTable V
  pub rehashidx : Option ℕ
  pub hash_key0 : ℕ
  pub hash_key1 : ℕ

-- The value of `static_cast<float>(n)`: 24 significant bits, to the nearest and ties to even.
-- `f32_shift` counts the low bits that do not fit.
f32_shift : ℕ → ℕ → ℕ
f32_shift zero n = 0
f32_shift (suc f) n = let more = f32_shift f (n / 2) in if ltb n 16777216 then 0 else suc more

f32_round : ℕ → ℕ → ℕ
f32_round n zero = n
f32_round n (suc k) =
    let unit = 2 ^ suc k in
    let low = n / unit in
    let r = n % unit in
    (if ltb unit (2 * r) || (2 * r == unit && low % 2 == 1) then low + 1 else low) * unit

unfoldable pub f32_of : ℕ → ℕ
unfolding f32_shift f32_round
f32_of n = f32_round n (f32_shift 64 n)

module _ {ℓ} {V : Type ℓ} where
  -- The constructor; `seed_hash` sets the key.
  unfoldable pub new_dict : Dict V
  new_dict = record {
    ht0 = allocate 4;
    ht1 = deallocated;
    rehashidx = none;
    hash_key0 = 0;
    hash_key1 = 0;
  }

  unfoldable pub seed_hash : ℕ → ℕ → Dict V → Dict V
  seed_hash k0 k1 d = record d { hash_key0 = k0; hash_key1 = k1 }

  -- `clear` frees every entry, and keeps the key of the hash.
  unfoldable pub clear : Dict V → Dict V
  clear d = record d { ht0 = allocate 4; ht1 = deallocated; rehashidx = none }

  unfoldable pub hash : Dict V → Bytes → ℕ
  hash d key = siphash_1_2 key d.hash_key0 d.hash_key1

  abbrev pub is_rehashing : Dict V → Bool
  is_rehashing d = is_some d.rehashidx

  unfoldable pub size : Dict V → ℕ
  size d = d.ht0.used + d.ht1.used

  -- `load_factor() > 1.0f`. A size is a power of two, so the quotient of the two floats is exact.
  unfoldable pub over_expand_ratio : DictHashTable V → Bool
  over_expand_ratio t = not (t.size == 0) && ltb (f32_of t.size) (f32_of t.used)

  -- `load_factor() < 0.1f`, where `0.1f` is 13421773 / 2^27. The load factor of no buckets is 0.
  unfoldable pub under_shrink_ratio : DictHashTable V → Bool
  under_shrink_ratio t = t.size == 0 || ltb (f32_of t.used * 134217728) (13421773 * f32_of t.size)

  start_rehash : ℕ → Dict V → Dict V
  start_rehash new_size d = record d { ht1 = allocate new_size; rehashidx = some 0 }

  unfoldable pub maybe_expand : Dict V → Dict V
  unfolding start_rehash
  maybe_expand d =
      if is_rehashing d || is_null d.ht0
      then d
      else if over_expand_ratio d.ht0
      then start_rehash (bit_ceil (d.ht0.used * 2)) d
      else d

  unfoldable pub maybe_shrink : Dict V → Dict V
  unfolding start_rehash
  maybe_shrink d =
      if is_rehashing d || (is_null d.ht0 || leb d.ht0.size 4)
      then d
      else if under_shrink_ratio d.ht0
      then start_rehash (bit_ceil (if ltb d.ht0.used 4 then 4 else d.ht0.used)) d
      else d

-- How the loop over empty buckets ends: at a bucket with entries, with what is left of the limit,
-- or because the limit is used up.
pub data Skip : Type 0 where
  found : ℕ → ℕ → Skip
  stopped : ℕ → Skip

-- The variables of the loop of `rehash_step`; `gave_up` is its `return false`.
pub record Loop {ℓ} (V : Type ℓ) : Type ℓ where
  pub from : DictHashTable V
  pub to : DictHashTable V
  pub idx : ℕ
  pub gave_up : Bool

module _ {ℓ} {V : Type ℓ} where
  -- `++rehashidx_; if (--empty_limit == 0) return false;`
  unfoldable pub skip_empty : ℕ → DictHashTable V → ℕ → Skip
  skip_empty zero t i = stopped i
  skip_empty (suc l) t i = elim (bucket t i) [
    | [] ↦ skip_empty l t (i + 1)
    | _ ∷ _ ↦ found i (suc l)
  ]

  -- Each entry of the chain is prepended to its chain in the second table.
  unfoldable pub migrate_chain : Chain V → DictHashTable V → DictHashTable V
  migrate_chain [] t = t
  migrate_chain (e ∷ c) t = migrate_chain c (prepend t e)

  unfoldable pub rehash_loop : ℕ → ℕ → ℕ → DictHashTable V → DictHashTable V → Loop V
  rehash_loop zero limit i from to = record { from = from; to = to; idx = i; gave_up = false }
  rehash_loop (suc steps) limit i from to =
      let round : Loop V = elim (skip_empty limit from i) [
        | stopped j ↦ record { from = from; to = to; idx = j; gave_up = true }
        | found j limit' ↦
            let c = bucket from j in
            rehash_loop steps limit' (j + 1)
              (record (put_bucket from j []) { used = from.used - length c }) (migrate_chain c to)
      ] in
      if from.used == 0 then record { from = from; to = to; idx = i; gave_up = false } else round

  -- What follows the loop: the tables are swapped once the first is empty.
  unfoldable pub after_loop : Dict V → Loop V → Dict V × Bool
  after_loop d l =
      if not l.gave_up && l.from.used == 0
      then (record d { ht0 = l.to; ht1 = deallocated; rehashidx = none }, true)
      else (record d { ht0 = l.from; ht1 = l.to; rehashidx = some l.idx }, false)

  -- True when there is nothing left to migrate.
  unfoldable pub rehash_step : ℕ → Dict V → Dict V × Bool
  unfolding after_loop
  rehash_step steps d = elim d.rehashidx [
    | none ↦ (d, true)
    | some i ↦ after_loop d (rehash_loop steps (steps * 10) i d.ht0 d.ht1)
  ]

  -- `if (is_rehashing()) rehash_step(1);`
  abbrev pub step_first : Dict V → Dict V
  step_first d = (rehash_step 1 d).0

  -- The end of `set`, on the target table: overwrite, or a new entry at the head of its chain.
  unfoldable pub put_in : DictHashTable V → Bytes → ℕ → V → DictHashTable V × Bool
  put_in t key h value =
      if is_some (find_in t key h)
      then (overwrite t key h value, false)
      else (prepend t (record { key = key; value = value; hash_val = h }), true)

  unfoldable pub set_stepped : Dict V → Bytes → V → Dict V × Bool
  unfolding put_in
  set_stepped d key value =
      let h = hash d key in
      let first = put_in d.ht0 key h value in
      let second = put_in d.ht1 key h value in
      if is_rehashing d
      then if is_some (find_in d.ht0 key h)
        then (record d { ht0 = overwrite d.ht0 key h value }, false)
        else if second.1
        then (maybe_expand (record d { ht1 = second.0 }), true)
        else (record d { ht1 = second.0 }, false)
      else if first.1
      then (maybe_expand (record d { ht0 = first.0 }), true)
      else (record d { ht0 = first.0 }, false)

  -- True if the key is new.
  unfoldable pub set : Dict V → Bytes → V → Dict V × Bool
  unfolding set_stepped
  set d key value = set_stepped (step_first d) key value

  -- `get` through a `const` dictionary, which does not migrate.
  unfoldable pub peek : Dict V → Bytes → Option V
  peek d key =
      let h = hash d key in
      elim (find_in d.ht0 key h) [
        | some e ↦ some e.value
        | none ↦ if is_rehashing d then Option.map (λ e. e.value) (find_in d.ht1 key h) else none
      ]

  unfoldable pub get : Dict V → Bytes → Dict V × Option V
  get d key = let d' = step_first d in (d', peek d' key)

  unfoldable pub exists : Dict V → Bytes → Bool
  exists d key = is_some (peek d key)

  -- A write through the pointer that `get` returned.
  unfoldable pub write_through : Dict V → Bytes → V → Dict V
  write_through d key value =
      let h = hash d key in
      if is_some (find_in d.ht0 key h)
      then record d { ht0 = overwrite d.ht0 key h value }
      else if is_rehashing d && is_some (find_in d.ht1 key h)
      then record d { ht1 = overwrite d.ht1 key h value }
      else d

  unfoldable pub del_stepped : Dict V → Bytes → Dict V × Bool
  del_stepped d key =
      let h = hash d key in
      if is_some (find_in d.ht0 key h)
      then (maybe_shrink (record d { ht0 = remove d.ht0 key h }), true)
      else if is_rehashing d && is_some (find_in d.ht1 key h)
      then (maybe_shrink (record d { ht1 = remove d.ht1 key h }), true)
      else (d, false)

  -- True if the key was there.
  unfoldable pub del : Dict V → Bytes → Dict V × Bool
  unfolding del_stepped
  del d key = del_stepped (step_first d) key

  -- The entries of a table, bucket by bucket.
  unfoldable pub entries : List (Chain V) → List (DictEntry V)
  entries [] = []
  entries (c ∷ bs) = c ++ entries bs

  -- The entries that `for_each` visits, in its order.
  unfoldable pub for_each : Dict V → List (DictEntry V)
  unfolding entries
  for_each d =
      entries d.ht0.buckets
      ++ (if is_null d.ht0 || is_rehashing d then entries d.ht1.buckets else [])

  -- The walk of `random_sample` over the buckets, from `idx` and round the end of the array.
  sample_loop : ℕ → ℕ → DictHashTable V → ℕ → List (DictEntry V) → List (DictEntry V)
  sample_loop zero count t idx out = out
  sample_loop (suc n) count t idx out =
      let rest =
        sample_loop n count t (bit_and (idx + 1) t.sizemask)
          (out ++ take (count - length out) (bucket t idx)) in
      if ltb (length out) count then rest else out

  sample_from : ℕ → DictHashTable V → ℕ → List (DictEntry V)
  unfolding sample_loop
  sample_from count t r =
      if is_null t || t.used == 0 then [] else sample_loop t.size count t (bit_and r t.sizemask) []

  -- `r0` and `r1` are the draws of the generator, for the table and for the first bucket.
  unfoldable pub random_sample : Dict V → ℕ → ℕ → ℕ → List (DictEntry V)
  unfolding sample_from
  random_sample d count r0 r1 =
      let second = is_rehashing d && r0 % 3 == 0 && not (is_null d.ht1) && not (d.ht1.used == 0) in
      if size d == 0
      then []
      else sample_from (min count (size d)) (if second then d.ht1 else d.ht0) r1
