-- ===== src/Core/Table.antt =====
-- `DictHashTable` of src/core/dict.cpp: one array of chains with its counters, and what the
-- methods of `Dict` do to one table.
pub mod Placed
pub mod Writes
use keva_db.Base.{
  ℕ, zero, suc, ◌+◌, ◌-◌, bit_and, ◌≡◌, Bool, true, false, ◌||◌, Option, none, some, List, [], ◌∷◌,
  ◌==◌, if◌then◌else◌, Bytes, get_or, set, replicate, is_some, length,
}
use keva_db.Core.Chain.{DictEntry, Chain, find, assign, unlink}

-- A null `buckets` pointer is the empty array: `allocate` never makes an array of no buckets.
pub record DictHashTable {ℓ} (V : Type ℓ) : Type ℓ where
  pub buckets : List (Chain V)
  pub size : ℕ
  pub sizemask : ℕ
  pub used : ℕ

module _ {ℓ} {V : Type ℓ} where
  unfoldable pub allocate : ℕ → DictHashTable V
  allocate n_buckets = record {
    buckets = replicate n_buckets [];
    size = n_buckets;
    sizemask = n_buckets - 1;
    used = 0;
  }

  -- The state of a table that was never allocated, and of one after `deallocate`.
  abbrev pub deallocated : DictHashTable V
  deallocated = record { buckets = []; size = 0; sizemask = 0; used = 0 }

  abbrev pub is_null : DictHashTable V → Bool
  is_null t = elim t.buckets [ [] ↦ true | _ ∷ _ ↦ false ]

  abbrev pub bucket : DictHashTable V → ℕ → Chain V
  bucket t i = get_or t.buckets i []

  abbrev pub bucket_idx : DictHashTable V → ℕ → ℕ
  bucket_idx t hash_val = bit_and hash_val t.sizemask

  unfoldable pub find_in : DictHashTable V → Bytes → ℕ → Option (DictEntry V)
  find_in t key hash_val =
      if is_null t || t.used == 0
      then none
      else find key hash_val (bucket t (bucket_idx t hash_val))

  -- A write of one chain.
  abbrev pub put_bucket : DictHashTable V → ℕ → Chain V → DictHashTable V
  put_bucket t i c = record t { buckets = set t.buckets i c }

  -- `entry->next = buckets[idx]; buckets[idx] = entry; used++`
  unfoldable pub prepend : DictHashTable V → DictEntry V → DictHashTable V
  prepend t e =
      let i = bucket_idx t e.hash_val in
      record (put_bucket t i (e ∷ bucket t i)) { used = t.used + 1 }

  -- `existing->value = value`
  unfoldable pub overwrite : DictHashTable V → Bytes → ℕ → V → DictHashTable V
  overwrite t key h v = let i = bucket_idx t h in put_bucket t i (assign key h v (bucket t i))

  -- The entry is unlinked and freed, and `used` goes down.
  unfoldable pub remove : DictHashTable V → Bytes → ℕ → DictHashTable V
  remove t key h =
      let i = bucket_idx t h in
      record (put_bucket t i (unlink key h (bucket t i))) { used = t.used - 1 }
