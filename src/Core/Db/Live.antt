-- ===== src/Core/Db/Live.antt =====
-- What a database means at a time, the map from keys to objects that are not past their time, and
-- the effect of each operation on it.
use keva_db.Base.{
  ℕ, ◌≡◌, refl, sym, ap, ◌∙◌, inl, inr, Bool, true, false, Option, none, some, if◌then◌else◌,
  Bool-cases, Bytes, bytes_eq, bytes_eq_iff, is_some,
}
use keva_db.Base.Int.{ℤ}
use keva_db.Core.Db.{
  KevaDatabase, new_database, delete_key, past, is_expired, set, del, set_expire, remove_expire,
}
use keva_db.Core.Dict.{Dict, write_through, new_dict, seed_hash}
use keva_db.Core.Dict as Dict
use keva_db.Core.Dict.Invariant.{IsDict, view, peek-view, new_dict-IsDict}
use keva_db.Core.Dict.Methods.{
  set-Updated, del-Updated, get-Stepped, exists-view, write_through-Updated,
}
use keva_db.Core.Dict.Steps.{Stepped}
use keva_db.Core.Object.{KevaObject}

-- Both dictionaries are valid.
pub record IsDb (db : KevaDatabase) : Type 0 where
  pub keys : IsDict db.keys
  pub expires : IsDict db.expires

-- An empty database, of any number.
pub new_database-IsDb : (id : ℕ) → IsDb (new_database id)
unfolding new_database seed_hash new_dict
new_database-IsDb id = record { keys = new_dict-IsDict 0 0; expires = new_dict-IsDict 0 0 }

-- The object under a key at a time, from the object and the expiry time that are stored.
unfoldable pub alive : ℤ → Option KevaObject → Option ℤ → Option KevaObject
alive now_ms obj ts = if past now_ms ts then none else obj

abbrev pub live : KevaDatabase → ℤ → Bytes → Option KevaObject
live db now_ms q = alive now_ms (view db.keys q) (view db.expires q)

-- What both dictionaries hold under each key: `k` has `o` and `t`, every other key what it had.
pub record Written (db db' : KevaDatabase) (k : Bytes) (o : Option KevaObject) (t : Option ℤ)
    : Type 0 where
  pub valid : IsDb db'
  pub objects : (q : Bytes) → view db'.keys q ≡ (if bytes_eq k q then o else view db.keys q)
  pub times : (q : Bytes) → view db'.expires q ≡ (if bytes_eq k q then t else view db.expires q)

module _ {db db' : KevaDatabase} {k : Bytes} {o : Option KevaObject} {t : Option ℤ} where
  pub Written-live :
      Written db db' k o t
      → (now_ms : ℤ) (q : Bytes)
      → live db' now_ms q ≡ (if bytes_eq k q then alive now_ms o t else live db now_ms q)
  Written-live w now_ms q = rw (w.objects q, w.times q) (go (bytes_eq k q))
    where
      go :
          (b : Bool)
          → alive now_ms (if b then o else view db.keys q) (if b then t else view db.expires q)
            ≡ (if b then alive now_ms o t else live db now_ms q)
      go true = refl
      go false = refl

-- Nothing is changed under any key.
pub unchanged :
    {A : Type 0} (f : Bytes → A) (k q : Bytes) → f q ≡ (if bytes_eq k q then f k else f q)
unchanged f k q = elim (Bool-cases (bytes_eq k q)) [
  | inl e ↦ rw e (ap f (sym ((bytes_eq_iff k q).0 e)))
  | inr e ↦ rw e refl
]

module _ (db : KevaDatabase) (w : IsDb db) (k : Bytes) where
  pub delete_key-Written : Written db (delete_key db k) k none none
  unfolding delete_key
  delete_key-Written =
      let (u, _) = del-Updated db.keys w.keys k in
      let (v, _) = del-Updated db.expires w.expires k in
      record {
        valid = record { keys = u.valid; expires = v.valid };
        objects = u.reads;
        times = v.reads;
      }

  -- SET stores the object and takes the expiry time away.
  pub set-Written : (obj : KevaObject) → Written db (set db k obj) k (some obj) none
  unfolding set
  set-Written obj =
      let (u, _) = set-Updated db.keys w.keys k obj in
      let (v, _) = del-Updated db.expires w.expires k in
      record {
        valid = record { keys = u.valid; expires = v.valid };
        objects = u.reads;
        times = v.reads;
      }

  -- DEL takes both away, and tells whether an object was stored, past its time or not.
  pub del-Written : Written db (del db k).0 k none none × ((del db k).1 ≡ is_some (view db.keys k))
  unfolding del
  del-Written = (delete_key-Written, exists-view db.keys w.keys k)

  pub remove_expire-Written : Written db (remove_expire db k) k (view db.keys k) none
  unfolding remove_expire
  remove_expire-Written =
      let (v, _) = del-Updated db.expires w.expires k in
      record {
        valid = record { keys = w.keys; expires = v.valid };
        objects = λ q. unchanged (view db.keys) k q;
        times = v.reads;
      }

  set_expire_choice :
      (b : Bool) (ts : ℤ) (d : Dict ℤ)
      → Stepped db.expires d
      → is_some (view db.expires k) ≡ b
      → (IsDict (if b then write_through d k ts else (Dict.set d k ts).0))
        × ((q : Bytes)
            → view (if b then write_through d k ts else (Dict.set d k ts).0) q
              ≡ (if bytes_eq k q then some ts else view db.expires q))
  set_expire_choice true ts d s e =
      let u = write_through-Updated d s.valid k ts (ap is_some (s.same k) ∙ e) in
      (u.valid, λ q. rw (u.reads q, s.same q))
  set_expire_choice false ts d s e =
      let (u, _) = set-Updated d s.valid k ts in (u.valid, λ q. rw (u.reads q, s.same q))

  -- set_expire on a valid database gives the key that time, replacing one that it had, keeps its
  -- object, and changes no other key.
  pub set_expire-Written : (ts : ℤ) → Written db (set_expire db k ts) k (view db.keys k) (some ts)
  unfolding set_expire
  set_expire-Written ts =
      let (s, found) = get-Stepped db.expires w.expires k in
      let r = (Dict.get db.expires k).1 in
      let (v, reads) =
        set_expire_choice (is_some r) ts (Dict.get db.expires k).0 s (ap is_some (sym found)) in
      record {
        valid = record { keys = w.keys; expires = v };
        objects = λ q. unchanged (view db.keys) k q;
        times = reads;
      }

  pub is_expired-past : (now_ms : ℤ) → is_expired db k now_ms ≡ past now_ms (view db.expires k)
  unfolding is_expired
  is_expired-past now_ms = ap (past now_ms) (peek-view db.expires w.expires k)
