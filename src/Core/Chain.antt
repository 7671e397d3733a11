-- ===== src/Core/Chain.antt =====
-- The chains of src/core/dict.cpp: entries with a cached hash, and the three walks along a chain
-- that `find_in`, `set` and `del` make. An entry pointer is the entry's place in its chain.
use keva_db.Base.{
  ℕ, ◌+◌, ◌≤◌, ◌≡◌, refl, ◌≢◌, Bool, true, ◌&&◌, Option, none, some, List, [], ◌∷◌, arith, ◌==◌,
  if◌then◌else◌, length, Bytes, bytes_eq, bytes_eq_iff, is_some,
}

-- `DictEntry`; `next` is the rest of the chain.
pub record DictEntry {ℓ} (V : Type ℓ) : Type ℓ where
  pub key : Bytes
  pub value : V
  pub hash_val : ℕ

abbrev pub Chain {ℓ} : Type ℓ → Type ℓ
Chain V = List (DictEntry V)

module _ {ℓ} {V : Type ℓ} where
  -- `e->hash_val == hash_val && e->key == key`
  abbrev pub is_match : Bytes → ℕ → DictEntry V → Bool
  is_match key h e = e.hash_val == h && bytes_eq e.key key

  -- The first entry that matches.
  unfoldable pub find : Bytes → ℕ → Chain V → Option (DictEntry V)
  find key h [] = none
  find key h (e ∷ c) = if is_match key h e then some e else find key h c

  -- `existing->value = value` at the entry that `find` returns.
  unfoldable pub assign : Bytes → ℕ → V → Chain V → Chain V
  assign key h v [] = []
  assign key h v (e ∷ c) =
      if is_match key h e then record e { value = v } ∷ c else e ∷ assign key h v c

  -- The unlinking of that entry.
  unfoldable pub unlink : Bytes → ℕ → Chain V → Chain V
  unlink key h [] = []
  unlink key h (e ∷ c) = if is_match key h e then c else e ∷ unlink key h c

  -- What a chain holds under a key, whatever the hashes.
  unfoldable pub look : Bytes → Chain V → Option V
  look q [] = none
  look q (e ∷ c) = if bytes_eq e.key q then some e.value else look q c

  -- How many entries a chain has under a key.
  unfoldable pub count : Bytes → Chain V → ℕ
  count q [] = 0
  count q (e ∷ c) = (if bytes_eq e.key q then 1 else 0) + count q c

  pub look-eq-none : (q : Bytes) (c : Chain V) → count q c ≡ 0 → look q c ≡ none
  unfolding look count
  look-eq-none q [] h = refl
  look-eq-none q (e ∷ c) h = ground (arith, look-eq-none q c)

  pub count-eq-zero : (q : Bytes) (c : Chain V) → look q c ≡ none → count q c ≡ 0
  unfolding look count
  count-eq-zero q [] h = refl
  count-eq-zero q (e ∷ c) h = ground (arith, count-eq-zero q c)

  pub count-le-length : (q : Bytes) (c : Chain V) → count q c ≤ length c
  unfolding count
  count-le-length q [] = omega arith
  count-le-length q (e ∷ c) = ground (arith, count-le-length q c)

  -- Every cached hash is the hash of its key, and leads to one bucket.
  module _ (hash : Bytes → ℕ) (home : ℕ → ℕ) (i : ℕ) where
    abbrev pub Belongs : Chain V → Type 0
    Belongs [] = Unit
    Belongs (e ∷ c) = (e.hash_val ≡ hash e.key) × (home e.hash_val ≡ i) × Belongs c

    module _ (k : Bytes) where
      pub find-look :
          (c : Chain V)
          → Belongs c
          → look k c ≡ (elim (find k (hash k) c) [ none ↦ none | some e ↦ some e.value ])
      unfolding find look
      find-look [] b = refl
      find-look (e ∷ c) b = ground (arith, bytes_eq_iff e.key k, find-look c b.2)

      -- A key is only in the bucket of its hash.
      pub count-away : (c : Chain V) → Belongs c → home (hash k) ≢ i → count k c ≡ 0
      unfolding count
      count-away [] b away = refl
      count-away (e ∷ c) b away = ground (arith, bytes_eq_iff e.key k, count-away c b.2)

      pub assign-Belongs : (v : V) (c : Chain V) → Belongs c → Belongs (assign k (hash k) v c)
      unfolding assign
      assign-Belongs v [] b = b
      assign-Belongs v (e ∷ c) b = ground (arith, assign-Belongs v c b.2)

      pub unlink-Belongs : (c : Chain V) → Belongs c → Belongs (unlink k (hash k) c)
      unfolding unlink
      unlink-Belongs [] b = b
      unlink-Belongs (e ∷ c) b = ground (arith, unlink-Belongs c b.2)

      pub look-assign :
          (q : Bytes) (v : V) (c : Chain V)
          → Belongs c
          → is_some (look k c) ≡ true
          → look q (assign k (hash k) v c) ≡ (if bytes_eq k q then some v else look q c)
      unfolding look assign
      look-assign q v [] b h = cc
      look-assign q v (e ∷ c) b h = ground (
        arith,
        look-assign q v c b.2,
        bytes_eq_iff e.key k,
        bytes_eq_iff e.key q,
        bytes_eq_iff k q,
      )

      pub count-assign :
          (q : Bytes) (v : V) (c : Chain V) → count q (assign k (hash k) v c) ≡ count q c
      unfolding count assign
      count-assign q v [] = refl
      count-assign q v (e ∷ c) = ground (arith, count-assign q v c)

      pub length-assign : (v : V) (c : Chain V) → length (assign k (hash k) v c) ≡ length c
      unfolding assign
      length-assign v [] = refl
      length-assign v (e ∷ c) = ground (arith, length-assign v c)

      pub look-unlink :
          (q : Bytes) (c : Chain V)
          → Belongs c
          → count q c ≤ 1
          → look q (unlink k (hash k) c) ≡ (if bytes_eq k q then none else look q c)
      unfolding look unlink count
      look-unlink q [] b h = ground arith
      look-unlink q (e ∷ c) b h = ground (
        arith,
        look-unlink q c b.2,
        look-eq-none q c,
        bytes_eq_iff e.key k,
        bytes_eq_iff e.key q,
        bytes_eq_iff k q,
      )

      pub count-unlink-le : (q : Bytes) (c : Chain V) → count q (unlink k (hash k) c) ≤ count q c
      unfolding count unlink
      count-unlink-le q [] = omega arith
      count-unlink-le q (e ∷ c) = ground (arith, count-unlink-le q c)

      pub length-unlink :
          (c : Chain V)
          → is_some (find k (hash k) c) ≡ true
          → length (unlink k (hash k) c) + 1 ≡ length c
      unfolding unlink find
      length-unlink [] h = cc
      length-unlink (e ∷ c) h = ground (arith, length-unlink c)
