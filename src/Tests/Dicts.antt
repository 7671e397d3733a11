-- ===== src/Tests/Dicts.antt =====
-- The dictionary of src/core/dict.cpp on small inputs, and its hash on a reference input.
use keva_db.Base.{
  ℕ, ◌+◌, ◌<◌, ◌≡◌, refl, Bool, true, false, Option, none, some, List, [], ◌∷◌, ◌++◌, arith, Bytes,
  codes, All, is_some, replicate, get_or, bytes_eq, take, drop, sym, ◌∙◌,
}
use keva_db.Core.Dict.{
  Dict, new_dict, seed_hash, set, get, peek, del, exists, is_rehashing, rehash_step, size,
  random_sample, hash,
}
use keva_db.Core.Dict.Invariant.{IsDict, new_dict-IsDict, view}
use keva_db.Core.Dict.Methods.{set-Updated, del-Updated, is_new}
use keva_db.Core.Dict.Progress.{rehash_ends, rehash_times}
use keva_db.Core.Dict.Refinement.{
  Call, call_set, call_get, call_del, call_exists, call_rehash, answers, spec_answers, answers-spec,
}
use keva_db.Core.Dict.Steps.{Stepped, rehash_step-Stepped}
use keva_db.Core.Dict.Updates.{Updated}
use keva_db.Core.SipHash.{siphash_1_2, le_word}
use keva_db.Core.Table
use keva_db.Base
use keva_db.Core.Chain
use keva_db.Base.Bits.{bit_ceil}
use keva_db.Core.Dict

program : Unit {0}
unfolding siphash_1_2 seed_hash new_dict set get peek del exists rehash_step size hash
    Dict.set_stepped Dict.put_in Dict.maybe_expand Dict.over_expand_ratio Dict.f32_of Table.find_in
    Chain.find Table.allocate replicate Table.prepend Table.overwrite Chain.assign Base.set get_or
    bytes_eq bit_ceil Dict.rehash_loop Dict.skip_empty Dict.migrate_chain Dict.after_loop take drop
    le_word Table.remove
program = tt

-- The hash of eleven bytes: one block and a rest of three.
siphash_of_hello : siphash_1_2 (codes "hello world") 1 2 ≡ 11157615188129571227
unfolding siphash_1_2
siphash_of_hello = refl

abbrev key : ℕ → Bytes
key n = codes "k" ++ (n ∷ [])

abbrev empty : Dict ℕ
empty = seed_hash 7 9 new_dict

-- Five keys in four buckets start a rehash.
abbrev three : Dict ℕ
three = (set (set (set empty (key 1) 10).0 (key 2) 20).0 (key 3) 30).0

abbrev five : Dict ℕ
five = (set (set three (key 4) 40).0 (key 5) 50).0

five_rehashes : (is_rehashing five ≡ true) × (size five ≡ 5) × (peek five (key 3) ≡ some 30)
unfolding program
five_rehashes = (refl, refl, refl)

three-IsDict : IsDict three
three-IsDict =
    let w1 = (set-Updated empty (new_dict-IsDict 7 9) (key 1) 10).0.valid in
    let w2 = (set-Updated _ w1 (key 2) 20).0.valid in (set-Updated _ w2 (key 3) 30).0.valid

five-IsDict : IsDict five
five-IsDict =
    let w4 = (set-Updated three three-IsDict (key 4) 40).0.valid in
    (set-Updated _ w4 (key 5) 50).0.valid

abbrev calls : List (Call ℕ)
calls =
    call_set (key 1) 10
    ∷ call_set (key 2) 20
    ∷ call_set (key 1) 11
    ∷ call_rehash 1
    ∷ call_get (key 1)
    ∷ call_del (key 2)
    ∷ call_exists (key 2)
    ∷ []

answers-spec_example : answers calls (seed_hash 7 9 new_dict) ≡ spec_answers calls (λ _. none)
answers-spec_example = answers-spec 7 9 calls

rehash_ends_example : is_rehashing (rehash_times (five.ht0.size + 1) 1 five) ≡ false
rehash_ends_example = rehash_ends five 1 five-IsDict (omega arith)

rehash_step-Stepped_example : Stepped five (rehash_step 100 five).0
rehash_step-Stepped_example = rehash_step-Stepped five 100 five-IsDict

set-Updated_example :
    Updated five (set five (key 3) 33).0 (key 3) (some 33)
    × ((set five (key 3) 33).1 ≡ is_new (view five (key 3)))
set-Updated_example = set-Updated five five-IsDict (key 3) 33

del-Updated_example :
    Updated five (del five (key 3)).0 (key 3) none
    × ((del five (key 3)).1 ≡ is_some (view five (key 3)))
del-Updated_example = del-Updated five five-IsDict (key 3)
