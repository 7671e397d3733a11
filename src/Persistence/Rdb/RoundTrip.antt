-- ===== src/Persistence/Rdb/RoundTrip.antt =====
-- What is saved is what is loaded.
use keva_db.Base.{
  ℕ, zero, suc, ◌+◌, ◌*◌, ◌/◌, ◌%◌, ◌<◌, ◌≡◌, refl, sym, ap, ◌∙◌, inl, inr, true, false, some, ◌∷◌,
  ◌++◌, append_assoc, arith, ltb, ◌==◌, Bool-cases, length, length-append, take-append, drop-append,
  Bytes,
}
use keva_db.Persistence.Rdb.{
  le_bytes, le_value, write_length, write_string, read_bytes, read_u8, length_from, read_length,
  read_string,
}

unfoldable pub pow256 : ℕ → ℕ
pow256 zero = 1
pow256 (suc k) = 256 * pow256 k

pub length-le_bytes : (k n : ℕ) → length (le_bytes k n) ≡ k
unfolding le_bytes
length-le_bytes zero n = refl
length-le_bytes (suc k) n = ap suc (length-le_bytes k (n / 256))

pub le_value-le_bytes : (k n : ℕ) → n < pow256 k → le_value (le_bytes k n) ≡ n
unfolding le_bytes le_value pow256
le_value-le_bytes zero n h = omega arith
le_value-le_bytes (suc k) n h = omega (arith, le_value-le_bytes k (n / 256) (omega arith))

-- Reading as many bytes as a text has gives the text.
pub read_bytes-append :
    (n : ℕ) (s rest : Bytes) → length s ≡ n → read_bytes n (s ++ rest) ≡ some (s, rest)
unfolding read_bytes
read_bytes-append n s rest e =
    let long : ltb (length (s ++ rest)) (length s) ≡ false =
      let l = length-append s rest in ground (arith, l) in
    rw (sym e, long, take-append s rest, drop-append s rest) refl

-- The three widths of a length.
one_byte : (len : ℕ) (s : Bytes) → len < 64 → length_from len s ≡ some (len, s)
unfolding length_from
one_byte len s lt =
    let high : (len / 64 % 4 == 0) ≡ true = ground arith in
    let low : len % 64 ≡ len = omega arith in rw (high, low) refl

two_bytes :
    (len : ℕ) (s : Bytes)
    → len < 16384
    → length_from (128 + len / 256) (len % 256 ∷ s) ≡ some (len, s)
unfolding length_from read_u8
two_bytes len s lt =
    let zero_no : ((128 + len / 256) / 64 % 4 == 0) ≡ false = ground arith in
    let two : ((128 + len / 256) / 64 % 4 == 2) ≡ true = ground arith in
    let low : (128 + len / 256) % 64 * 256 + len % 256 ≡ len = omega arith in
    rw (zero_no, two, low) refl

five_bytes :
    (len : ℕ) (s : Bytes)
    → len < 4294967296
    → length_from 192 (le_bytes 4 (len % 4294967296) ++ s) ≡ some (len, s)
unfolding length_from
five_bytes len s lt =
    let e = read_bytes-append 4 (le_bytes 4 (len % 4294967296)) s (length-le_bytes 4 _) in
    let v : le_value (le_bytes 4 (len % 4294967296)) ≡ len =
      le_value-le_bytes 4 (len % 4294967296) (unfold pow256 in omega arith) ∙ omega arith in
    rw (e, v) refl

read_length-write_length :
    (len : ℕ) (rest : Bytes)
    → len < 4294967296
    → read_length (write_length len ++ rest) ≡ some (len, rest)
unfolding read_length write_length read_u8
read_length-write_length len rest lt = elim (Bool-cases (ltb len 64)) [
  | inl small ↦ rw small (one_byte len rest (ground arith))
  | inr not_small ↦ rw not_small (elim (Bool-cases (ltb len 16384)) [
    | inl medium ↦ rw medium (two_bytes len rest (ground arith))
    | inr large ↦ rw large (five_bytes len rest lt)
  ])
]

-- A text with a length below 2^32 is read back from what was written of it, in each of the three
-- widths of its length, and what is behind it is left.
pub read_string-write_string :
    (sv rest : Bytes)
    → length sv < 4294967296
    → read_string (write_string sv ++ rest) ≡ some (sv, rest)
unfolding read_string write_string
read_string-write_string sv rest lt =
    let e = read_length-write_length (length sv) (sv ++ rest) lt in
    let r = read_bytes-append (length sv) sv rest refl in
    rw (append_assoc (write_length (length sv)) sv rest, e) r
