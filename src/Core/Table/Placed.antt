-- ===== src/Core/Table/Placed.antt =====
-- The invariant of one table, what a table means as a map, and the writes of Core/Table.antt.
use keva_db.Base.{
  ℕ, zero, suc, ◌+◌, ◌-◌, ◌≤◌, ◌<◌, ◌≡◌, refl, ◌∙◌, ◌||◌, ◌⊎◌, inl, inr, true, false, Option, none,
  some, List, [], ◌∷◌, arith, ◌==◌, ==_iff, if◌then◌else◌, Bool-cases, length, Bytes, get_or, set,
  get_or-set, length-set, get_or-replicate, length-replicate, replicate,
}
use mathlib.Core.Path.{subst}
use keva_db.Base.Bits.{bit_and-le}
use keva_db.Core.Chain.{Chain, look, count, Belongs, look-eq-none, find-look, count-le-length}
use keva_db.Core.Table.{
  DictHashTable, allocate, deallocated, bucket, bucket_idx, find_in, put_bucket, is_null,
}

module _ {ℓ} {V : Type ℓ} where
  -- All entries of an array of chains.
  unfoldable pub total : List (Chain V) → ℕ
  total [] = 0
  total (c ∷ bs) = length c + total bs

  pub total-set :
      (bs : List (Chain V)) (i : ℕ) (c : Chain V)
      → i < length bs
      → total (set bs i c) + length (get_or bs i []) ≡ total bs + length c
  unfolding total set get_or
  total-set [] i c h = absurd (omega arith)
  total-set (x ∷ bs) zero c h = omega arith
  total-set (x ∷ bs) (suc i) c h = omega (arith, total-set bs i c (omega arith))

  pub length-le-total : (bs : List (Chain V)) (i : ℕ) → length (get_or bs i []) ≤ total bs
  unfolding total get_or
  length-le-total [] i = omega arith
  length-le-total (x ∷ bs) zero = omega arith
  length-le-total (x ∷ bs) (suc i) = omega (arith, length-le-total bs i)

  pub null-total :
      (bs : List (Chain V)) → (elim bs [ [] ↦ true | _ ∷ _ ↦ false ]) ≡ true → total bs ≡ 0
  unfolding total
  null-total [] h = refl
  null-total (c ∷ bs) h = cc

pub total-replicate {ℓ} : (V : Type ℓ) (n : ℕ) → total (replicate {A = Chain V} n []) ≡ 0
unfolding total replicate
total-replicate V zero = refl
total-replicate V (suc n) = omega (arith, total-replicate V n)

-- A fresh table has no entries.
module _ {ℓ} (V : Type ℓ) (hash : Bytes → ℕ) where
  pub count-allocate : (n : ℕ) (q : Bytes) (i : ℕ) → count q (bucket (allocate {V = V} n) i) ≡ 0
  unfolding allocate count
  count-allocate n q i = rw get_or-replicate

module _ {ℓ} {V : Type ℓ} (hash : Bytes → ℕ) where
  -- The size is the length of the array, the mask is one less, `used` counts the entries, and each
  -- entry stands in the bucket that its key's hash selects.
  pub record IsTable (t : DictHashTable V) : Type ℓ where
    pub width : length t.buckets ≡ t.size
    pub mask : t.sizemask ≡ t.size - 1
    pub counted : total t.buckets ≡ t.used
    pub placed : (i : ℕ) → Belongs hash (bucket_idx t) i (bucket t i)

  abbrev pub chain_of : DictHashTable V → Bytes → Chain V
  chain_of t k = bucket t (bucket_idx t (hash k))

  -- What a table maps a key to, and how many entries it has under the key.
  abbrev pub seek : DictHashTable V → Bytes → Option V
  seek t k = look k (chain_of t k)

  abbrev pub tally : DictHashTable V → Bytes → ℕ
  tally t k = count k (chain_of t k)

  pub home-lt : {t : DictHashTable V} (h : ℕ) → IsTable t → 0 < t.size → bucket_idx t h < t.size
  home-lt {t} h w p = omega (arith, bit_and-le h t.sizemask)

  pub allocate-IsTable : (n : ℕ) → IsTable (allocate n)
  unfolding allocate
  allocate-IsTable n = record {
    width = length-replicate n [];
    mask = refl;
    counted = total-replicate V n;
    placed = λ i. rw get_or-replicate tt;
  }

  pub deallocated-IsTable : IsTable deallocated
  unfolding get_or total
  deallocated-IsTable = record { width = refl; mask = refl; counted = refl; placed = λ i. tt }

  Belongs-if :
      (home : ℕ → ℕ) (i j : ℕ) (c d : Chain V)
      → Belongs hash home i c
      → Belongs hash home j d
      → Belongs hash home j (if i == j then c else d)
  Belongs-if home i j c d b b' = elim (Bool-cases (i == j)) [
    | inl e ↦ rw e (subst (λ l. Belongs hash home l c) ((==_iff i j).0 e) b)
    | inr e ↦ rw e b'
  ]

  module _ (t : DictHashTable V) (w : IsTable t) where
    -- A chain at most as long as the count of entries.
    pub tally-le-used : (q : Bytes) → tally t q ≤ t.used
    tally-le-used q =
        omega (arith, w.counted, count-le-length q (chain_of t q), length-le-total t.buckets _)

    no_entries :
        (is_null t ≡ true) ⊎ (is_null t ≡ false) → (is_null t || t.used == 0) ≡ true → t.used ≡ 0
    no_entries (inl null) h = omega (arith, null-total t.buckets null, w.counted)
    no_entries (inr full) h = (==_iff t.used 0).0 (rw full at h)

    -- `find_in` finds what the table means, its early return included.
    pub find_in-seek :
        (k : Bytes)
        → seek t k ≡ (elim (find_in t k (hash k)) [ none ↦ none | some e ↦ some e.value ])
    unfolding find_in
    find_in-seek k = elim (Bool-cases (is_null t || t.used == 0)) [
      | inl early ↦ rw early (
          look-eq-none k (chain_of t k)
            (omega (arith, tally-le-used k, no_entries (Bool-cases (is_null t)) early)))
      | inr late ↦ rw late (find-look hash (bucket_idx t) _ k (chain_of t k) (w.placed _))
    ]

    -- One chain is written, with the count to match.
    pub put_bucket-IsTable :
        (i n : ℕ) (c : Chain V)
        → i < t.size
        → Belongs hash (bucket_idx t) i c
        → n + length (bucket t i) ≡ t.used + length c
        → IsTable (record (put_bucket t i c) { used = n })
    put_bucket-IsTable i n c lt b e = record {
      width = length-set t.buckets i c ∙ w.width;
      mask = w.mask;
      counted = omega (arith, total-set t.buckets i c (omega (arith, w.width)), w.counted);
      placed = λ j.
          rw (get_or-set t.buckets i j c [] (omega (arith, w.width)))
            (Belongs-if (bucket_idx t) i j c (bucket t j) b (w.placed j));
    }

    -- What a table means after a write of one bucket: keys of other buckets keep their chains.
    pub look-put_at :
        (i : ℕ) (q : Bytes) (c : Chain V)
        → i < t.size
        → look q (get_or (set t.buckets i c) (bucket_idx t (hash q)) [])
          ≡ (if i == bucket_idx t (hash q) then look q c else seek t q)
    look-put_at i q c p =
        rw (get_or-set t.buckets i (bucket_idx t (hash q)) c [] (omega (arith, w.width)))
          (ground arith)

    pub count-put_at :
        (i : ℕ) (q : Bytes) (c : Chain V)
        → i < t.size
        → count q (get_or (set t.buckets i c) (bucket_idx t (hash q)) [])
          ≡ (if i == bucket_idx t (hash q) then count q c else tally t q)
    count-put_at i q c p =
        rw (get_or-set t.buckets i (bucket_idx t (hash q)) c [] (omega (arith, w.width)))
          (ground arith)
