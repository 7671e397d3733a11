-- ===== src/Command/StringCmd/Counting.antt =====
-- The arithmetic commands: exact where the result is an `int64_t`, refused or wrapped elsewhere.
use keva_db.Base.{
  ℕ, ◌≡◌, refl, ap, ◌∙◌, inl, inr, Bool, true, false, not, Option, none, some, [], ◌∷◌, arith,
  if◌then◌else◌, Bool-cases, Bytes, bytes_eq_refl, get_or,
}
use keva_db.Base.Decimal.{from_chars}
use keva_db.Base.Int.{
  ℤ, pos, ◌+ℤ◌, ◌-ℤ◌, eqb_ℤ, +ℤ_parts, -ℤ_parts, InI64, llong_max, llong_min, wrap_i64,
  wrap_i64_self,
}
use keva_db.Command.Args.{Clock, lru_now, would_overflow}
use keva_db.Command.StringCmd.{
  get_integer_obj, on_integer, arithmetic, store_integer, add_overflows, incrby_of, handle_incr,
  handle_incrby, handle_decr, handle_decrby, decrby_of, difference, in_range,
}
use keva_db.Core.Db
use keva_db.Core.Db.{KevaDatabase, past}
use keva_db.Core.Db.Live.{IsDb, alive, live, Written-live, set-Written}
use keva_db.Core.Db.Lookups.{get-LookedUp, touched}
use keva_db.Core.Object.{KevaObject, create_string_from_int, integer_value}
use keva_db.Core.Object.Header.{touch_fields}
use keva_db.Core.Object.Text.{create_string_from_int_fields}
use keva_db.Protocol.Encoder

-- The overflow test of INCRBY is exact: it refuses the sums that are no `int64_t`, and no others.
pub add_overflows_exact :
    (increment current : ℤ)
    → InI64 increment
    → InI64 current
    → add_overflows increment current ≡ not (in_range (current +ℤ increment))
unfolding add_overflows
add_overflows_exact increment current i c =
    let sum = +ℤ_parts current increment in
    let top = -ℤ_parts llong_max increment in
    let low = -ℤ_parts llong_min increment in ground (arith, sum, top, low)

wrap-in_range : (n : ℤ) → in_range n ≡ true → wrap_i64 n ≡ n
wrap-in_range n e = wrap_i64_self n (ground arith)

get_integer_obj-touched :
    (c : ℕ) (o : Option KevaObject) → get_integer_obj (touched c o) ≡ get_integer_obj o
unfolding get_integer_obj integer_value
get_integer_obj-touched c none = refl
get_integer_obj-touched c (some obj) = let (t, e, l, p) = touch_fields c obj in rw (t, e, p) refl

pub get_integer_obj-create :
    (n : ℤ) (c : ℕ) → get_integer_obj (some (create_string_from_int n c)) ≡ some n
unfolding get_integer_obj
get_integer_obj-create n c =
    let (t, i, v, g) = create_string_from_int_fields n c in rw (t, i, v) refl

-- The integer under a key, where there is one.
abbrev pub current_of : Clock → Bytes → KevaDatabase → Option ℤ
current_of clock k d = get_integer_obj (live d clock.now_ms k)

-- The reply, and the integer that is left under the key.
abbrev pub Outcome : Clock → Bytes → KevaDatabase × Bytes → Bytes → ℤ → Type 0
Outcome clock k r out n = (r.1 ≡ out) × (current_of clock k r.0 ≡ some n)

module _ (db : KevaDatabase) (w : IsDb db) (clock : Clock) (k : Bytes) where
  store_integer-Outcome :
      (d : KevaDatabase)
      → IsDb d
      → (n : ℤ) → Outcome clock k (store_integer clock k n d) (Encoder.integer n) n
  unfolding store_integer alive past
  store_integer-Outcome d v n =
      let u = set-Written d v k (create_string_from_int n (lru_now clock)) in
      (
        refl,
        ap get_integer_obj (Written-live u clock.now_ms k)
            ∙ (rw (bytes_eq_refl k) (get_integer_obj-create n (lru_now clock))),
      )

  -- The four commands, from the current integer on.
  arithmetic-Outcome :
      (refused : ℤ → Bool) (result : ℤ → ℤ) (n : ℤ) (d : KevaDatabase)
      → IsDb d
      → current_of clock k d ≡ some n
      → Outcome clock k
          (arithmetic refused result clock k (some n) d)
          (if refused n then would_overflow else Encoder.integer (result n))
          (if refused n then n else result n)
  unfolding arithmetic
  arithmetic-Outcome refused result n d v e = elim (Bool-cases (refused n)) [
    | inl over ↦ rw over (refl, e)
    | inr fits ↦ rw fits (store_integer-Outcome d v (result n))
  ]

  on_integer-Outcome :
      (refused : ℤ → Bool) (result : ℤ → ℤ) (n : ℤ)
      → current_of clock k db ≡ some n
      → Outcome clock k
          (on_integer refused result clock k db)
          (if refused n then would_overflow else Encoder.integer (result n))
          (if refused n then n else result n)
  unfolding on_integer
  on_integer-Outcome refused result n e =
      let l = get-LookedUp db w k clock.now_ms clock.seconds in
      let looked = (Db.get db k clock.now_ms clock.seconds).0 in
      let o = live db clock.now_ms k in
      let read : get_integer_obj (Db.get db k clock.now_ms clock.seconds).1 ≡ some n =
        ap get_integer_obj l.answer ∙ get_integer_obj-touched (lru_now clock) o ∙ e in
      let left : current_of clock k looked ≡ some n =
        ap get_integer_obj (l.lives clock.now_ms (ground arith) k ∙ (rw (bytes_eq_refl k) refl))
        ∙ get_integer_obj-touched (lru_now clock) o
        ∙ e in
      rw read (arithmetic-Outcome refused result n looked l.valid left)

  -- The commands that test for overflow: the exact result, or an error and no change.
  exactly :
      (refused : ℤ → Bool) (result : ℤ → ℤ) (n m : ℤ)
      → refused n ≡ not (in_range m)
      → (in_range m ≡ true → result n ≡ m)
      → current_of clock k db ≡ some n
      → Outcome clock k
          (on_integer refused result clock k db)
          (if in_range m then Encoder.integer m else would_overflow)
          (if in_range m then m else n)
  exactly refused result n m test same e =
      let r = on_integer-Outcome refused result n e in
      elim (Bool-cases (in_range m)) [
        | inl fits ↦ rw fits (rw (test, fits, same fits) at r)
        | inr over ↦ rw over (rw (test, over) at r)
      ]

  -- INCR of an int64 under a key of a valid database: one more in the reply and under the key, or
  -- the overflow error with the old integer left when one more is no int64.
  pub handle_incr-Outcome :
      (name : Bytes) (n : ℤ)
      → InI64 n
      → current_of clock k db ≡ some n
      → Outcome clock k
          (handle_incr clock (name ∷ k ∷ []) db)
          (if in_range (n +ℤ pos 1) then Encoder.integer (n +ℤ pos 1) else would_overflow)
          (if in_range (n +ℤ pos 1) then n +ℤ pos 1 else n)
  unfolding handle_incr get_or
  handle_incr-Outcome name n fits e =
      let sum = +ℤ_parts n (pos 1) in
      exactly (λ m. eqb_ℤ m llong_max) (λ m. wrap_i64 (m +ℤ pos 1)) n (n +ℤ pos 1)
        (ground (arith, sum)) (wrap-in_range (n +ℤ pos 1)) e

  -- DECR of an int64 under a key of a valid database: one less in the reply and under the key, or
  -- the overflow error with the old integer left when one less is no int64.
  pub handle_decr-Outcome :
      (name : Bytes) (n : ℤ)
      → InI64 n
      → current_of clock k db ≡ some n
      → Outcome clock k
          (handle_decr clock (name ∷ k ∷ []) db)
          (if in_range (n -ℤ pos 1) then Encoder.integer (n -ℤ pos 1) else would_overflow)
          (if in_range (n -ℤ pos 1) then n -ℤ pos 1 else n)
  unfolding handle_decr get_or
  handle_decr-Outcome name n fits e =
      let difference = -ℤ_parts n (pos 1) in
      exactly (λ m. eqb_ℤ m llong_min) (λ m. wrap_i64 (m -ℤ pos 1)) n (n -ℤ pos 1)
        (ground (arith, difference)) (wrap-in_range (n -ℤ pos 1)) e

  -- INCRBY of an integer under a key of a valid database, by the int64 that its argument starts
  -- with: the exact sum in the reply and under the key when it is an int64, and otherwise the
  -- overflow error with the old integer left.
  pub handle_incrby-Outcome :
      (name text rest : Bytes) (increment n : ℤ)
      → from_chars text ≡ some (increment, rest)
      → InI64 increment
      → InI64 n
      → current_of clock k db ≡ some n
      → let m = n +ℤ increment in
        Outcome clock k
          (handle_incrby clock (name ∷ k ∷ text ∷ []) db)
          (if in_range m then Encoder.integer m else would_overflow)
          (if in_range m then m else n)
  unfolding handle_incrby incrby_of get_or
  handle_incrby-Outcome name text rest increment n read fits fits' e = rw read (
      exactly (add_overflows increment) (λ m. wrap_i64 (m +ℤ increment)) n (n +ℤ increment)
        (add_overflows_exact increment n fits fits') (wrap-in_range (n +ℤ increment)) e)

  -- DECRBY of an integer under a key of a valid database, by an argument that starts with an int64,
  -- where the difference is an int64: the exact difference in the reply and under the key, whatever
  -- an overflowing subtraction gives.
  pub handle_decrby-Outcome :
      (overflowed : ℤ → ℤ → ℤ) (name text rest : Bytes) (decrement n : ℤ)
      → from_chars text ≡ some (decrement, rest)
      → in_range (n -ℤ decrement) ≡ true
      → current_of clock k db ≡ some n
      → let m = n -ℤ decrement in
        Outcome clock k
          (handle_decrby overflowed clock (name ∷ k ∷ text ∷ []) db)
          (Encoder.integer m)
          m
  unfolding handle_decrby decrby_of difference get_or
  handle_decrby-Outcome overflowed name text rest decrement n read fits e =
      let r = on_integer-Outcome (λ _. false) (λ m. difference overflowed m decrement) n e in
      rw read (rw fits at r)
