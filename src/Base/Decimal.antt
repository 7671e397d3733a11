-- ===== src/Base/Decimal.antt =====
-- `std::to_chars` and `std::from_chars` for `int64_t` in base ten, and that they are inverse.
use keva_db.Base.Int.{ℤ, pos, negsuc, InI64}
use keva_db.Base.Lists.{Bytes, length, All}
use keva_db.Base.Tests.{ltb, leb, ◌==◌, if◌then◌else◌, Bool-cases, ◌>>=◌}
use Prim.Native.Nat.{ℕ, zero, suc, ◌+◌, ◌-◌, ◌*◌, ◌/◌, ◌%◌, ◌^◌, ◌≤◌, ◌<◌}
use mathlib.Core.Bool.{Bool, true, false, ◌&&◌}
use mathlib.Core.List.{[], ◌∷◌, ◌++◌}
use mathlib.Core.Logic.{inl, inr, ◌≢◌}
use mathlib.Core.Option.{Option, none, some}
use mathlib.Core.Path.{◌≡◌, refl, ◌∙◌, ap}
use native.Mathlib.Nat.{pow-suc}
use native.Mathlib.Omega.{arith}

lt→ltb : (a b : ℕ) → a < b → ltb a b ≡ true
lt→ltb a b h = ground arith

abbrev pub is_digit : ℕ → Bool
is_digit c = leb b'0' c && leb c b'9'

-- The decimal digits of `n` in front of `out`. A number below 10 ^ f needs at most `f` digits.
unfoldable pub digits_of : ℕ → ℕ → Bytes → Bytes
digits_of zero n out = out
digits_of (suc f) n out =
    let rest = digits_of f (n / 10) ((b'0' + n % 10) ∷ out) in
    if ltb n 10 then (b'0' + n) ∷ out else rest

-- Twenty digits hold every `int64_t`.
unfoldable pub nat_chars : ℕ → Bytes
unfolding digits_of
nat_chars n = digits_of 20 n []

unfoldable pub to_chars : ℤ → Bytes
unfolding nat_chars
to_chars (pos n) = nat_chars n
to_chars (negsuc n) = b'-' ∷ nat_chars (suc n)

-- The number that the longest run of digits spells behind `acc`, and what follows the run.
unfoldable pub scan_digits : ℕ → Bytes → ℕ × Bytes
scan_digits acc [] = (acc, [])
scan_digits acc (c ∷ s) = if is_digit c then scan_digits (acc * 10 + (c - b'0')) s else (acc, c ∷ s)

unfoldable pub scan_nat : Bytes → Option (ℕ × Bytes)
unfolding scan_digits
scan_nat [] = none
scan_nat (c ∷ s) = if is_digit c then some (scan_digits 0 (c ∷ s)) else none

scan_pos : Bytes → Option (ℤ × Bytes)
unfolding scan_nat
scan_pos s = do
  (n, rest) ← scan_nat s
  if ltb n 9223372036854775808 then some (pos n, rest) else none

-- The magnitude of `LLONG_MIN` is one more than that of `LLONG_MAX`.
negated : ℕ → ℤ
negated zero = pos 0
negated (suc n) = negsuc n

scan_neg : Bytes → Option (ℤ × Bytes)
unfolding scan_nat negated
scan_neg s = do
  (n, rest) ← scan_nat s
  if leb n 9223372036854775808 then some (negated n, rest) else none

-- The value and the characters behind it; `none` is an error code, and leaves the value alone.
unfoldable pub from_chars : Bytes → Option (ℤ × Bytes)
unfolding scan_pos scan_neg
from_chars [] = none
from_chars (c ∷ s) = if c == b'-' then scan_neg s else scan_pos (c ∷ s)

-- A text that a run of digits in front of it cannot run into.
abbrev pub Stops : Bytes → Type 0
Stops [] = Unit
Stops (c ∷ s) = is_digit c ≡ false

scan_digits-Stops : (n : ℕ) (rest : Bytes) → Stops rest → scan_digits n rest ≡ (n, rest)
unfolding scan_digits
scan_digits-Stops n [] h = refl
scan_digits-Stops n (c ∷ s) h = rw h

scan_digits-digits_of :
    (f n : ℕ) (out : Bytes) → n < 10 ^ f → scan_digits 0 (digits_of f n out) ≡ scan_digits n out
unfolding scan_digits digits_of
scan_digits-digits_of zero n out h = let e : 0 ≡ n = omega arith in ap (λ m. scan_digits m out) e
scan_digits-digits_of (suc f) n out h = elim (Bool-cases (ltb n 10)) [
  | inl small ↦ rw small (ground arith)
  | inr big ↦ rw big (
      scan_digits-digits_of f (n / 10) ((b'0' + n % 10) ∷ out) (omega (arith, pow-suc 10 f))
      ∙ ground arith)
]

digits_of-append :
    (f n : ℕ) (out rest : Bytes) → digits_of f n out ++ rest ≡ digits_of f n (out ++ rest)
unfolding digits_of
digits_of-append zero n out rest = refl
digits_of-append (suc f) n out rest =
    ground (arith, digits_of-append f (n / 10) ((b'0' + n % 10) ∷ out) rest)

-- The text begins with a digit.
abbrev pub StartsDigit : Bytes → Type 0
StartsDigit [] = ⊥
StartsDigit (c ∷ s) = is_digit c ≡ true

digits_of-StartsDigit :
    (f n : ℕ) (out : Bytes) → 0 < f → n < 10 ^ f → StartsDigit (digits_of f n out)
unfolding digits_of
digits_of-StartsDigit zero n out p h = absurd (omega arith)
digits_of-StartsDigit (suc zero) n out p h = rw (lt→ltb n 10 (omega arith)) (ground arith)
digits_of-StartsDigit (suc (suc f)) n out p h = elim (Bool-cases (ltb n 10)) [
  | inl small ↦ rw small (ground arith)
  | inr big ↦ rw big (
      digits_of-StartsDigit (suc f) (n / 10) ((b'0' + n % 10) ∷ out) (omega arith)
        (omega (arith, pow-suc 10 (suc f))))
]

-- A digit is not a carriage return, and a text of digits has no more of them than its fuel.
abbrev pub NotCr : ℕ → Type 0
NotCr c = c ≢ b'\r'

digits_of-NotCr : (f n : ℕ) (out : Bytes) → All NotCr out → All NotCr (digits_of f n out)
unfolding digits_of
digits_of-NotCr zero n out h = h
digits_of-NotCr (suc f) n out h = elim (Bool-cases (ltb n 10)) [
  | inl small ↦ rw small (omega arith, h)
  | inr big ↦ rw big (digits_of-NotCr f (n / 10) ((b'0' + n % 10) ∷ out) (omega arith, h))
]

length-digits_of : (f n : ℕ) (out : Bytes) → length (digits_of f n out) ≤ f + length out
unfolding digits_of
length-digits_of zero n out = omega arith
length-digits_of (suc f) n out = ground (arith, length-digits_of f (n / 10) ((b'0' + n % 10) ∷ out))

scan_nat-StartsDigit : (s : Bytes) → StartsDigit s → scan_nat s ≡ some (scan_digits 0 s)
unfolding scan_nat
scan_nat-StartsDigit [] h = absurd h
scan_nat-StartsDigit (c ∷ s) h = rw h

scan_nat-nat_chars :
    (n : ℕ) (rest : Bytes)
    → n < 10 ^ 20
    → Stops rest
    → scan_nat (nat_chars n ++ rest) ≡ some (n, rest)
unfolding nat_chars
scan_nat-nat_chars n rest lt stops = rw (digits_of-append 20 n [] rest) (
    scan_nat-StartsDigit (digits_of 20 n rest) (digits_of-StartsDigit 20 n rest (omega arith) lt)
    ∙ ap some (scan_digits-digits_of 20 n rest lt ∙ scan_digits-Stops n rest stops))

pub scan_digits-nat_chars : (n : ℕ) → n < 10 ^ 20 → scan_digits 0 (nat_chars n) ≡ (n, [])
unfolding nat_chars
scan_digits-nat_chars n lt = scan_digits-digits_of 20 n [] lt ∙ scan_digits-Stops n [] tt

scan_pos-scan_nat : (s : Bytes) → StartsDigit s → from_chars s ≡ scan_pos s
unfolding from_chars
scan_pos-scan_nat [] h = absurd h
scan_pos-scan_nat (c ∷ s) h = ground arith

nat_chars-StartsDigit : (n : ℕ) (rest : Bytes) → n < 10 ^ 20 → StartsDigit (nat_chars n ++ rest)
unfolding nat_chars
nat_chars-StartsDigit n rest lt =
    rw (digits_of-append 20 n [] rest) (digits_of-StartsDigit 20 n rest (omega arith) lt)

pub nat_chars_digit : (n : ℕ) → n < 10 ^ 20 → StartsDigit (nat_chars n)
unfolding nat_chars
nat_chars_digit n lt = digits_of-StartsDigit 20 n [] (omega arith) lt

-- Reading back what was printed gives the number and stops where the print ends.
pub from_chars-to_chars :
    (a : ℤ) (rest : Bytes) → InI64 a → Stops rest → from_chars (to_chars a ++ rest) ≡ some (a, rest)
unfolding to_chars
from_chars-to_chars (pos n) rest fits stops =
    scan_pos-scan_nat (nat_chars n ++ rest) (nat_chars-StartsDigit n rest (omega arith))
    ∙ unfold scan_pos in rw (scan_nat-nat_chars n rest (omega arith) stops) (ground arith)
from_chars-to_chars (negsuc n) rest fits stops =
    unfold from_chars scan_neg in
    rw (scan_nat-nat_chars (suc n) rest (omega arith) stops) (ground arith)

pub to_chars-NotCr : (a : ℤ) → All NotCr (to_chars a)
unfolding to_chars nat_chars
to_chars-NotCr (pos n) = digits_of-NotCr 20 n [] tt
to_chars-NotCr (negsuc n) = (omega arith, digits_of-NotCr 20 (suc n) [] tt)
