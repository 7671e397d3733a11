-- ===== src/Base/Bits.antt =====
-- Facts about the native bit operations at variables, from the recursion on digits that they
-- stand for, and `std::bit_ceil`.
use keva_db.Base.Tests.{leb, if◌then◌else◌, Bool-cases}
use Prim.Native.Nat.{
  ℕ, zero, suc, ◌*◌, ◌/◌, ◌%◌, ◌^◌, ◌≤◌, ◌<◌, min, bit_and, bit_xor, differ, digits,
  bit_and-bitwise, bit_xor-bitwise,
}
use mathlib.Core.Path.{◌≡◌, refl}
use mathlib.Core.Logic.{inl, inr}
use native.Mathlib.Nat.{pow-suc}
use native.Mathlib.Omega.{arith}

digits-min-le : (n a b : ℕ) → digits (λ b. zero) min n a b ≤ b
digits-min-le zero a b = omega arith
digits-min-le (suc n) zero b = omega arith
digits-min-le (suc n) (suc a) b = omega (arith, digits-min-le n (suc a / 2) (b / 2))

-- A mask bounds what it lets through.
pub bit_and-le : (a b : ℕ) → bit_and a b ≤ b
bit_and-le a b = omega (arith, bit_and-bitwise a b, digits-min-le a a b)

-- `std::bit_ceil`: the smallest power of two that is not below `n`. Sixty-four doublings reach
-- every power of two that a `size_t` can hold.
ceil_from : ℕ → ℕ → ℕ → ℕ
ceil_from zero p n = p
ceil_from (suc f) p n = let next = ceil_from f (p * 2) n in if leb n p then p else next

unfoldable pub bit_ceil : ℕ → ℕ
unfolding ceil_from
bit_ceil n = ceil_from 64 1 n

ceil_from_pos : (f p n : ℕ) → 0 < p → 0 < ceil_from f p n
unfolding ceil_from
ceil_from_pos zero p n h = h
ceil_from_pos (suc f) p n h = ground (arith, ceil_from_pos f (p * 2) n)

pub bit_ceil_pos : (n : ℕ) → 0 < bit_ceil n
unfolding bit_ceil
bit_ceil_pos n = unfold ceil_from in ceil_from_pos 64 1 n (omega arith)

double : (f p : ℕ) → p * 2 ^ suc f ≡ p * 2 * 2 ^ f
double f p = rw pow-suc (omega arith)

le-ceil_from : (f p n : ℕ) → n ≤ p * 2 ^ f → n ≤ ceil_from f p n
unfolding ceil_from
le-ceil_from zero p n h = omega arith
le-ceil_from (suc f) p n h =
    ground (arith, le-ceil_from f (p * 2) n (omega (arith, pow-suc 2 f, double f p)))

pub le-bit_ceil : (n : ℕ) → n ≤ 2 ^ 64 → n ≤ bit_ceil n
unfolding bit_ceil
le-bit_ceil n h = le-ceil_from 64 1 n (omega arith)

-- A power of two, with its exponent.
abbrev pub IsPowerOfTwo : ℕ → Type 0
IsPowerOfTwo n = (k : ℕ) × (n ≡ 2 ^ k)

ceil_from-IsPowerOfTwo : (f k p n : ℕ) → p ≡ 2 ^ k → IsPowerOfTwo (ceil_from f p n)
unfolding ceil_from
ceil_from-IsPowerOfTwo zero k p n e = (k, e)
ceil_from-IsPowerOfTwo (suc f) k p n e = elim (Bool-cases (leb n p)) [
  | inl stop ↦ rw stop (k, e)
  | inr go ↦ rw go (ceil_from-IsPowerOfTwo f (suc k) (p * 2) n (rw (e, pow-suc)))
]

pub bit_ceil-IsPowerOfTwo : (n : ℕ) → IsPowerOfTwo (bit_ceil n)
unfolding bit_ceil
bit_ceil-IsPowerOfTwo n = ceil_from-IsPowerOfTwo 64 0 1 n refl

differ-lt : (x y : ℕ) → x < 2 → y < 2 → differ x y < 2
differ-lt zero y p q = q
differ-lt (suc x) zero p q = p
differ-lt (suc zero) (suc zero) p q = omega arith
differ-lt (suc zero) (suc (suc y)) p q = absurd (omega arith)
differ-lt (suc (suc x)) (suc y) p q = absurd (omega arith)

digits-differ-lt : (n k a b : ℕ) → a < 2 ^ k → b < 2 ^ k → digits (λ b. b) differ n a b < 2 ^ k
digits-differ-lt zero k a b p q = q
digits-differ-lt (suc n) k zero b p q = q
digits-differ-lt (suc n) zero (suc a) b p q = absurd (omega arith)
digits-differ-lt (suc n) (suc k) (suc a) b p q =
    let two : 2 ^ suc k ≡ 2 ^ k * 2 = pow-suc 2 k in
    let rest = digits-differ-lt n k (suc a / 2) (b / 2) (omega arith) (omega arith) in
    let last = differ-lt (suc a % 2) (b % 2) (omega arith) (omega arith) in omega arith

-- The exclusive or of two numbers of k bits has k bits.
pub bit_xor-lt : (k a b : ℕ) → a < 2 ^ k → b < 2 ^ k → bit_xor a b < 2 ^ k
bit_xor-lt k a b p q = omega (arith, bit_xor-bitwise a b, digits-differ-lt a k a b p q)
