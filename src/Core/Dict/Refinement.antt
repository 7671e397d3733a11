-- ===== src/Core/Dict/Refinement.antt =====
-- Any sequence of calls on a dictionary answers as a map from keys to values would.
use keva_db.Base.{
  ℕ, ◌≡◌, refl, ◌∙◌, Bool, Option, none, some, List, [], ◌∷◌, if◌then◌else◌, Bytes, bytes_eq,
  is_some,
}
use keva_db.Core.Dict.{Dict, new_dict, seed_hash, clear, set, get, peek, del, exists, rehash_step}
use keva_db.Core.Dict.Invariant.{
  IsDict, view, peek-view, new_dict-IsDict, view-new_dict, clear-IsDict, view-clear,
}
use keva_db.Core.Dict.Methods.{is_new, set-Updated, del-Updated, get-Stepped, exists-view}
use keva_db.Core.Dict.Steps.{rehash_step-Stepped}

-- The calls that a client can make; `rehash` is the server's timer.
pub data Call (V : Type 0) : Type 0 where
  call_set : Bytes → V → Call V
  call_get : Bytes → Call V
  call_peek : Bytes → Call V
  call_exists : Bytes → Call V
  call_del : Bytes → Call V
  call_rehash : ℕ → Call V
  call_clear : Call V

pub data Answer (V : Type 0) : Type 0 where
  flag : Bool → Answer V
  value : Option V → Answer V
  done : Answer V

module _ {V : Type 0} where
  unfoldable pub call : Call V → Dict V → Dict V × Answer V
  call (call_set k v) d = let (d', b) = set d k v in (d', flag b)
  call (call_get k) d = let (d', o) = get d k in (d', value o)
  call (call_peek k) d = (d, value (peek d k))
  call (call_exists k) d = (d, flag (exists d k))
  call (call_del k) d = let (d', b) = del d k in (d', flag b)
  call (call_rehash n) d = ((rehash_step n d).0, done)
  call call_clear d = (clear d, done)

  -- The same calls on a map.
  unfoldable pub spec : Call V → (Bytes → Option V) → (Bytes → Option V) × Answer V
  spec (call_set k v) f = (λ q. if bytes_eq k q then some v else f q, flag (is_new (f k)))
  spec (call_get k) f = (f, value (f k))
  spec (call_peek k) f = (f, value (f k))
  spec (call_exists k) f = (f, flag (is_some (f k)))
  spec (call_del k) f = (λ q. if bytes_eq k q then none else f q, flag (is_some (f k)))
  spec (call_rehash n) f = (f, done)
  spec call_clear f = (λ _. none, done)

  unfoldable pub answers : List (Call V) → Dict V → List (Answer V)
  answers [] d = []
  answers (c ∷ cs) d = (call c d).1 ∷ answers cs (call c d).0

  unfoldable pub spec_answers : List (Call V) → (Bytes → Option V) → List (Answer V)
  spec_answers [] f = []
  spec_answers (c ∷ cs) f = (spec c f).1 ∷ spec_answers cs (spec c f).0

  abbrev Refines : Dict V → (Bytes → Option V) → Type 0
  Refines d f = IsDict d × ((q : Bytes) → view d q ≡ f q)

  call-spec :
      (c : Call V) (d : Dict V) (f : Bytes → Option V)
      → Refines d f
      → Refines (call c d).0 (spec c f).0 × ((call c d).1 ≡ (spec c f).1)
  unfolding call spec
  call-spec (call_set k v) d f (w, r) =
      let (u, new) = set-Updated d w k v in ((u.valid, λ q. rw (u.reads q, r q)), rw (new, r k))
  call-spec (call_get k) d f (w, r) =
      let (s, found) = get-Stepped d w k in ((s.valid, λ q. s.same q ∙ r q), rw (found, r k))
  call-spec (call_peek k) d f (w, r) = ((w, r), rw (peek-view d w k, r k))
  call-spec (call_exists k) d f (w, r) = ((w, r), rw (exists-view d w k, r k))
  call-spec (call_del k) d f (w, r) =
      let (u, there) = del-Updated d w k in ((u.valid, λ q. rw (u.reads q, r q)), rw (there, r k))
  call-spec (call_rehash n) d f (w, r) =
      let s = rehash_step-Stepped d n w in ((s.valid, λ q. s.same q ∙ r q), refl)
  call-spec call_clear d f (w, r) = ((clear-IsDict d, λ q. view-clear d q), refl)

  answers-Refines :
      (cs : List (Call V)) (d : Dict V) (f : Bytes → Option V)
      → Refines d f
      → answers cs d ≡ spec_answers cs f
  unfolding answers spec_answers
  answers-Refines [] d f r = refl
  answers-Refines (c ∷ cs) d f r =
      let (r', e) = call-spec c d f r in rw (e, answers-Refines cs (call c d).0 (spec c f).0 r')

  -- Any sequence of calls on a new dictionary, whatever its hash seed, migration steps and clear
  -- included, gives the answers of a map from keys to values that starts empty.
  pub answers-spec :
      (k0 k1 : ℕ) (cs : List (Call V))
      → answers cs (seed_hash k0 k1 new_dict) ≡ spec_answers cs (λ _. none)
  answers-spec k0 k1 cs = answers-Refines cs _ _ (new_dict-IsDict k0 k1, λ q. view-new_dict k0 k1 q)
