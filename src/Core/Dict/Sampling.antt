-- ===== src/Core/Dict/Sampling.antt =====
-- The entries that `random_sample` and `for_each` give are what the dictionary means.
use keva_db.Base.{
  ℕ, zero, suc, ◌%◌, ◌≤◌, ◌≡◌, refl, sym, ap, ◌∙◌, ◌⊎◌, inl, inr, not, ◌&&◌, ◌||◌, some, List, [],
  ◌∷◌, ◌++◌, arith, ltb, ◌==◌, Bool-cases, length, take, Bytes, bytes_eq_refl, All,
}
use keva_db.Base.{
  get_or, bytes_eq, bytes_eq_iff, or_else, is_some, Option, none, Bool, true, false, if◌then◌else◌,
}
use mathlib.Core.Path.{subst}
use keva_db.Core.Chain.{DictEntry, Chain, look, count, Belongs}
use keva_db.Core.Dict.{
  Dict, hash, is_rehashing, size, random_sample, sample_from, sample_loop, for_each, entries,
}
use keva_db.Core.Dict.Invariant.{IsDict, view, seek-eq-none, seek-idle}
use keva_db.Core.Table.{DictHashTable, bucket, bucket_idx, is_null}
use keva_db.Core.Table.Placed.{IsTable, seek, tally}

-- An entry of a list of entries.
abbrev pub Occurs : {V : Type 0} → DictEntry V → List (DictEntry V) → Type 0
Occurs e [] = ⊥
Occurs e (x ∷ c) = (e ≡ x) ⊎ Occurs e c

module _ {V : Type 0} where
  Occurs-count : (e : DictEntry V) (c : Chain V) → Occurs e c → 1 ≤ count e.key c
  unfolding count
  Occurs-count e [] nowhere = absurd nowhere
  Occurs-count e (x ∷ c) (inl same) = rw (sym same, bytes_eq_refl e.key) (omega arith)
  Occurs-count e (x ∷ c) (inr there) = omega (arith, Occurs-count e c there)

  look-Occurs :
      (e : DictEntry V) (c : Chain V) → Occurs e c → count e.key c ≤ 1 → look e.key c ≡ some e.value
  unfolding look count
  look-Occurs e [] nowhere once = absurd nowhere
  look-Occurs e (x ∷ c) (inl same) once = rw (sym same, bytes_eq_refl e.key) refl
  look-Occurs e (x ∷ c) (inr there) once =
      ground (arith, Occurs-count e c there, look-Occurs e c there)

  Belongs-Occurs :
      (h : Bytes → ℕ) (home : ℕ → ℕ) (i : ℕ) (e : DictEntry V) (c : Chain V)
      → Belongs h home i c
      → Occurs e c
      → home (h e.key) ≡ i
  Belongs-Occurs h home i e [] b nowhere = absurd nowhere
  Belongs-Occurs h home i e (x ∷ c) (cached, at, b) (inl same) =
      ap (λ y. home (h y.key)) same ∙ (sym (ap home cached) ∙ at)
  Belongs-Occurs h home i e (x ∷ c) (cached, at, b) (inr there) =
      Belongs-Occurs h home i e c b there

  seek-Occurs :
      (h : Bytes → ℕ) (t : DictHashTable V) (w : IsTable h t) (i : ℕ) (e : DictEntry V)
      → Occurs e (bucket t i)
      → (1 ≤ tally h t e.key) × (tally h t e.key ≤ 1 → seek h t e.key ≡ some e.value)
  seek-Occurs h t w i e here =
      let at = Belongs-Occurs h (bucket_idx t) i e (bucket t i) (w.placed i) here in
      subst
        (λ j.
          (1 ≤ count e.key (bucket t j))
          × (count e.key (bucket t j) ≤ 1 → look e.key (bucket t j) ≡ some e.value))
        (sym at) (Occurs-count e (bucket t i) here, look-Occurs e (bucket t i) here)

  All-occurring :
      (P : DictEntry V → Type 0) (c : List (DictEntry V))
      → ((e : DictEntry V) → Occurs e c → P e)
      → All P c
  All-occurring P [] f = tt
  All-occurring P (x ∷ c) f = (f x (inl refl), All-occurring P c λ e o. f e (inr o))

  All-append :
      (P : DictEntry V → Type 0) (xs ys : List (DictEntry V))
      → All P xs
      → All P ys
      → All P (xs ++ ys)
  All-append P [] ys a b = b
  All-append P (x ∷ xs) ys (p, a) b = (p, All-append P xs ys a b)

  All-take :
      (P : DictEntry V → Type 0) (n : ℕ) (xs : List (DictEntry V)) → All P xs → All P (take n xs)
  unfolding take
  All-take P zero xs a = tt
  All-take P (suc n) [] a = tt
  All-take P (suc n) (x ∷ xs) (p, a) = (p, All-take P n xs a)

-- The entry is what its key is mapped to.
abbrev pub Stands : {V : Type 0} → Dict V → DictEntry V → Type 0
Stands d e = view d e.key ≡ some e.value

module _ {V : Type 0} (d : Dict V) (w : IsDict d) where
  bucket0-Stands : (i : ℕ) → All (Stands d) (bucket d.ht0 i)
  bucket0-Stands i = All-occurring (Stands d) (bucket d.ht0 i) λ e here.
      let (some_in, found) = seek-Occurs (hash d) d.ht0 w.pair.table0 i e here in
      rw (found (omega (arith, w.pair.once e.key))) refl

  bucket1-Stands : (i : ℕ) → All (Stands d) (bucket d.ht1 i)
  bucket1-Stands i = All-occurring (Stands d) (bucket d.ht1 i) λ e here.
      let (some_in, found) = seek-Occurs (hash d) d.ht1 w.pair.table1 i e here in
      let once = w.pair.once e.key in
      rw (seek-eq-none (hash d) d.ht0 e.key (omega arith), found (omega arith)) refl

  sample_loop-Stands :
      (t : DictHashTable V)
      → ((i : ℕ) → All (Stands d) (bucket t i))
      → (n most i : ℕ) (out : List (DictEntry V)) → All (Stands d) out
      → All (Stands d) (sample_loop n most t i out)
  unfolding sample_loop
  sample_loop-Stands t h zero most i out a = a
  sample_loop-Stands t h (suc n) most i out a = elim (Bool-cases (ltb (length out) most)) [
    | inl more ↦ rw more (
        sample_loop-Stands t h n most _ _
          (All-append (Stands d) out _ a (All-take (Stands d) _ (bucket t i) (h i))))
    | inr enough ↦ rw enough a
  ]

  sample_from-Stands :
      (t : DictHashTable V)
      → ((i : ℕ) → All (Stands d) (bucket t i))
      → (most r : ℕ) → All (Stands d) (sample_from most t r)
  unfolding sample_from
  sample_from-Stands t h most r = elim (Bool-cases (is_null t || t.used == 0)) [
    | inl empty ↦ rw empty tt
    | inr full ↦ rw full (sample_loop-Stands t h t.size most _ [] tt)
  ]

  -- Whatever the draws, each entry that random_sample of a valid dictionary gives is what the
  -- dictionary maps its key to.
  pub random_sample-Stands : (most r0 r1 : ℕ) → All (Stands d) (random_sample d most r0 r1)
  unfolding random_sample
  random_sample-Stands most r0 r1 =
      let second = is_rehashing d && r0 % 3 == 0 && not (is_null d.ht1) && not (d.ht1.used == 0) in
      elim (Bool-cases (size d == 0)) [
        | inl empty ↦ rw empty tt
        | inr full ↦ rw full (elim (Bool-cases second) [
          | inl from1 ↦ rw from1 (sample_from-Stands d.ht1 bucket1-Stands _ r1)
          | inr from0 ↦ rw from0 (sample_from-Stands d.ht0 bucket0-Stands _ r1)
        ])
      ]

  All-entries :
      (bs : List (Chain V))
      → ((i : ℕ) → All (Stands d) (get_or bs i []))
      → All (Stands d) (entries bs)
  unfolding entries get_or
  All-entries [] h = tt
  All-entries (c ∷ bs) h =
      All-append (Stands d) c (entries bs) (h 0) (All-entries bs λ i. h (suc i))

  -- Each entry that for_each of a valid dictionary visits is what the dictionary maps its key to.
  pub for_each-Stands : All (Stands d) (for_each d)
  unfolding for_each
  for_each-Stands =
      All-append (Stands d) (entries d.ht0.buckets) _ (All-entries d.ht0.buckets bucket0-Stands)
        (elim (Bool-cases (is_null d.ht0 || is_rehashing d)) [
          | inl both ↦ rw both (All-entries d.ht1.buckets bucket1-Stands)
          | inr first ↦ rw first tt
        ])

-- The entry of a key that a chain holds.
module _ {V : Type 0} (q : Bytes) (v : V) where
  -- An entry of a list with this key and value.
  abbrev pub Visited : List (DictEntry V) → Type 0
  Visited es = (e : DictEntry V) × Occurs e es × (e.key ≡ q) × (e.value ≡ v)

  Visited-look : (c : Chain V) → look q c ≡ some v → Visited c
  unfolding look
  Visited-look [] h = cc
  Visited-look (e ∷ c) h = elim (Bool-cases (bytes_eq e.key q)) [
    | inl same ↦
        let here : some e.value ≡ some v = rw same at h in
        (e, inl refl, (bytes_eq_iff e.key q).0 same, cc)
    | inr other ↦ let (x, o, k, w) = Visited-look c (rw other at h) in (x, inr o, k, w)
  ]

  Occurs-left : (e : DictEntry V) (xs ys : List (DictEntry V)) → Occurs e xs → Occurs e (xs ++ ys)
  Occurs-left e [] ys o = absurd o
  Occurs-left e (x ∷ xs) ys (inl h) = inl h
  Occurs-left e (x ∷ xs) ys (inr o) = inr (Occurs-left e xs ys o)

  Occurs-right : (e : DictEntry V) (xs ys : List (DictEntry V)) → Occurs e ys → Occurs e (xs ++ ys)
  Occurs-right e [] ys o = o
  Occurs-right e (x ∷ xs) ys o = inr (Occurs-right e xs ys o)

  Occurs-entries :
      (e : DictEntry V) (bs : List (Chain V)) (i : ℕ)
      → Occurs e (get_or bs i [])
      → Occurs e (entries bs)
  unfolding entries get_or
  Occurs-entries e [] i o = absurd o
  Occurs-entries e (c ∷ bs) zero o = Occurs-left e c (entries bs) o
  Occurs-entries e (c ∷ bs) (suc i) o = Occurs-right e c (entries bs) (Occurs-entries e bs i o)

  absent : {o : Option V} → o ≡ none → o ≡ some v → ⊥
  absent e h = cc

  none_idle : (r : Option ℕ) (b : Bool) → (b || is_some r) ≡ false → r ≡ none
  none_idle none b h = refl
  none_idle (some i) true h = cc
  none_idle (some i) false h = cc

  -- The second table is visited whenever a key is only there.
  second-Visited :
      (d : Dict V)
      → IsDict d
      → seek (hash d) d.ht1 q ≡ some v
      → Visited (if is_null d.ht0 || is_rehashing d then entries d.ht1.buckets else [])
  second-Visited d w h = elim (Bool-cases (is_null d.ht0 || is_rehashing d)) [
    | inl both ↦
        let (e, o, k, x) = Visited-look (bucket d.ht1 (bucket_idx d.ht1 (hash d q))) h in
        rw both (e, Occurs-entries e d.ht1.buckets _ o, k, x)
    | inr first ↦ absurd (absent (seek-idle d w (none_idle d.rehashidx (is_null d.ht0) first) q) h)
  ]

  -- Every key of a valid dictionary is visited by for_each with its value, whichever table holds
  -- it.
  pub for_each-Visited : (d : Dict V) → IsDict d → view d q ≡ some v → Visited (for_each d)
  unfolding for_each
  for_each-Visited d w h = go (seek (hash d) d.ht0 q) refl h
    where
      go :
          (a : Option V)
          → seek (hash d) d.ht0 q ≡ a
          → or_else a (seek (hash d) d.ht1 q) ≡ some v
          → Visited (
              entries d.ht0.buckets
              ++ (if is_null d.ht0 || is_rehashing d then entries d.ht1.buckets else []))
      go (some x) e h' =
          let (y, o, k, u) = Visited-look (bucket d.ht0 (bucket_idx d.ht0 (hash d q))) (e ∙ h') in
          (y, Occurs-left y (entries d.ht0.buckets) _ (Occurs-entries y d.ht0.buckets _ o), k, u)
      go none e h' =
          let (y, o, k, u) = second-Visited d w h' in
          (y, Occurs-right y (entries d.ht0.buckets) _ o, k, u)
