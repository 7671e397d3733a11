-- ===== src/Protocol/Parser/Total.antt =====
-- The parser ends on every input: the fuel that `parse` hands out is enough, and what is left of
-- the input after a value is shorter than the input.
use keva_db.Base.{
  ℕ, zero, suc, ◌+◌, ◌-◌, ◌*◌, ◌≤◌, ◌<◌, ◌≡◌, ◌≢◌, refl, Bool, true, false, ◌||◌, Option, none,
  some, [], ◌∷◌, arith, ltb, ◌==◌, if◌then◌else◌, length, take, drop, length-drop, Bytes, ◌>>=◌,
}
use mathlib.Core.Path.{subst}
use keva_db.Protocol.Parser.{
  Parsed, complete, incomplete, bad, thrown, out_of_fuel, and_then, find_crlf, parse_line,
  simple_line, length_line, bulk_of, array_of, parse_array, parse_simple, Length, null_length,
  negative_length, size_length, parse_length, payload, parse_bulk_string, parse_prefix, parse_value,
  parse_elements, parse, consumed,
}
use keva_db.Protocol.RespTypes.{RespValue, RespValues}

-- The run has not run out of fuel, and `P` holds of the number of bytes that it leaves.
abbrev pub Ends : {A : Type 0} → (ℕ → Type 0) → Parsed A → Type 0
Ends P (complete a rest) = P (length rest)
Ends P incomplete = Unit
Ends P bad = Unit
Ends P thrown = Unit
Ends P out_of_fuel = ⊥

abbrev Within : {A : Type 0} → ℕ → Parsed A → Type 0
Within n = Ends (λ k. k ≤ n)

Ends-and_then :
    {A B : Type 0} (P Q : ℕ → Type 0) (m : Parsed A) (f : A → Bytes → Parsed B)
    → Ends P m
    → ((a : A) (rest : Bytes) → P (length rest) → Ends Q (f a rest))
    → Ends Q (and_then m f)
Ends-and_then P Q (complete a rest) f h step = step a rest h
Ends-and_then P Q incomplete f h step = tt
Ends-and_then P Q bad f h step = tt
Ends-and_then P Q thrown f h step = tt
Ends-and_then P Q out_of_fuel f h step = absurd h

Within-and_then :
    {A B : Type 0} (n : ℕ) (m : Parsed A) (f : A → Bytes → Parsed B)
    → Within n m
    → ((a : A) (rest : Bytes) → length rest ≤ n → Within n (f a rest))
    → Within n (and_then m f)
Within-and_then n = Ends-and_then (λ k. k ≤ n) (λ k. k ≤ n)

Ends-map :
    {A : Type 0} (P Q : ℕ → Type 0) (m : Parsed A) → Ends P m → ((n : ℕ) → P n → Q n) → Ends Q m
Ends-map P Q (complete a rest) h f = f (length rest) h
Ends-map P Q incomplete h f = tt
Ends-map P Q bad h f = tt
Ends-map P Q thrown h f = tt
Ends-map P Q out_of_fuel h f = absurd h

Ends-if :
    {A : Type 0} (P : ℕ → Type 0) (b : Bool) (x y : Parsed A)
    → Ends P x
    → Ends P y
    → Ends P (if b then x else y)
Ends-if P true x y hx hy = hx
Ends-if P false x y hx hy = hy

find_crlf-lt : (s : Bytes) (i : ℕ) → find_crlf s ≡ some i → i + 2 ≤ length s
unfolding find_crlf
find_crlf-lt [] i h = cc
find_crlf-lt (a ∷ []) i h = cc
find_crlf-lt (a ∷ b ∷ s) i h = ground (arith, find_crlf-lt (b ∷ s) (i - 1))

parse_line-lt :
    (s line rest : Bytes) → parse_line s ≡ some (line, rest) → length rest + 2 ≤ length s
unfolding parse_line
parse_line-lt s line rest h = go (find_crlf s) refl h
  where
    go :
        (r : Option ℕ)
        → find_crlf s ≡ r
        → (◌>>=◌ {B = Bytes × Bytes} r λ i. some (take i s, drop (i + 2) s)) ≡ some (line, rest)
        → length rest + 2 ≤ length s
    go none e h = cc
    go (some i) e h = ground (arith, find_crlf-lt s i e, length-drop (i + 2) s)

simple_line-Within :
    (prefix n : ℕ) (r : Option (Bytes × Bytes))
    → ((line rest : Bytes) → r ≡ some (line, rest) → length rest + 2 ≤ n)
    → Within n (simple_line prefix r)
unfolding simple_line
simple_line-Within prefix n none h = tt
simple_line-Within prefix n (some (line, rest)) h = ground (arith, h line rest refl)

parse_simple-Within : (prefix : ℕ) (s : Bytes) → Within (length s) (parse_simple prefix s)
unfolding parse_simple
parse_simple-Within prefix s =
    simple_line-Within prefix (length s) (parse_line s) (λ line rest e. parse_line-lt s line rest e)

length_line-Within :
    (n : ℕ) (r : Option (Bytes × Bytes))
    → ((line rest : Bytes) → r ≡ some (line, rest) → length rest + 2 ≤ n)
    → Within n (length_line r)
unfolding length_line
length_line-Within n none h = tt
length_line-Within n (some (line, rest)) h = ground (arith, h line rest refl)

parse_length-Within : (s : Bytes) → Within (length s) (parse_length s)
unfolding parse_length
parse_length-Within s =
    length_line-Within (length s) (parse_line s) (λ line rest e. parse_line-lt s line rest e)

payload-Within : (n : ℕ) (s : Bytes) → Within (length s) (payload n s)
unfolding payload
payload-Within n s = ground (arith, length-drop (n + 2) s)

bulk_of-Within :
    (n : ℕ) (len : Length) (rest : Bytes) → length rest ≤ n → Within n (bulk_of len rest)
unfolding bulk_of
bulk_of-Within n null_length rest le = le
bulk_of-Within n negative_length rest le = tt
bulk_of-Within n (size_length k) rest le =
    Ends-map (λ m. m ≤ length rest) (λ m. m ≤ n) (payload k rest) (payload-Within k rest)
      (λ m h. omega arith)

parse_bulk_string-Within : (s : Bytes) → Within (length s) (parse_bulk_string s)
unfolding parse_bulk_string
parse_bulk_string-Within s =
    Within-and_then (length s) (parse_length s) bulk_of (parse_length-Within s)
      (bulk_of-Within (length s))

module _ (reserve_limit : ℕ) where
  module _ (loop : ℕ → Bytes → Parsed RespValues) (s : Bytes)
      (h : (n : ℕ) (rest : Bytes)
        → length rest ≤ length s
        → Within (length rest) (loop n rest)) where
    array_of-Within :
        (len : Length) (rest : Bytes)
        → length rest ≤ length s
        → Within (length s) (array_of reserve_limit loop len rest)
    unfolding array_of
    array_of-Within null_length rest le = le
    array_of-Within negative_length rest le = tt
    array_of-Within (size_length n) rest le =
        Ends-if (λ k. k ≤ length s) (ltb reserve_limit n) thrown _ tt
          (Ends-and_then (λ k. k ≤ length rest) (λ k. k ≤ length s) (loop n rest) _ (h n rest le)
            (λ vs rest' le'. omega arith))

    parse_array-Within : Within (length s) (parse_array reserve_limit loop s)
    unfolding parse_array
    parse_array-Within =
        Within-and_then (length s) (parse_length s) _ (parse_length-Within s) array_of-Within

    parse_prefix-Within : (c : ℕ) → Within (length s) (parse_prefix reserve_limit loop (c ∷ s))
    unfolding parse_prefix
    parse_prefix-Within c =
        let P = λ (k : ℕ). k ≤ length s in
        Ends-if P (c == b'+' || (c == b'-' || c == b':')) _ _ (parse_simple-Within c s) (
          Ends-if P (c == b'$') _ _ (parse_bulk_string-Within s)
            (Ends-if P (c == b'*') _ bad parse_array-Within tt))

  parse_prefix_nil :
      (loop : ℕ → Bytes → Parsed RespValues)
      → Ends (λ k. k < 0) (parse_prefix reserve_limit loop [])
  unfolding parse_prefix
  parse_prefix_nil loop = tt

  mutual
    unfolding parse_value parse_elements

    parse_value-Within :
        (f : ℕ) (s : Bytes)
        → 2 * length s < f
        → Ends (λ k. k < length s) (parse_value reserve_limit f s)
    parse_value-Within zero s h = absurd (omega arith)
    parse_value-Within (suc f) [] h = parse_prefix_nil (parse_elements reserve_limit f)
    parse_value-Within (suc f) (c ∷ s) h =
        Ends-map (λ k. k ≤ length s) (λ k. k < suc (length s)) _
          (parse_prefix-Within (parse_elements reserve_limit f) s
            (λ n rest le. parse_elements-Within f n rest (omega arith)) c)
          (λ n le. omega arith)

    parse_elements-Within :
        (f n : ℕ) (s : Bytes)
        → 2 * length s + 1 < f
        → Within (length s) (parse_elements reserve_limit f n s)
    parse_elements-Within zero n s h = absurd (omega arith)
    parse_elements-Within (suc f) zero s h = omega arith
    parse_elements-Within (suc f) (suc n) s h =
        Ends-and_then (λ k. k < length s) (λ k. k ≤ length s) (parse_value reserve_limit f s) _
          (parse_value-Within f s (omega arith))
          λ v rest lt.
            Ends-and_then (λ k. k ≤ length rest) (λ k. k ≤ length s)
              (parse_elements reserve_limit f n rest) _
              (parse_elements-Within f n rest (omega arith)) (λ vs rest' le. omega arith)

  parse-Ends : (input : Bytes) → Ends (λ k. k < length input) (parse reserve_limit input).0
  unfolding parse
  parse-Ends input = parse_value-Within (2 * length input + 1) input (omega arith)

  -- Parsing any input ends within its fuel, and never consumes more bytes than there are.
  pub parse_total :
      (input : Bytes)
      → ((parse reserve_limit input).0 ≢ out_of_fuel)
        × ((parse reserve_limit input).1 ≤ length input)
  unfolding parse
  parse_total input = go (parse_value reserve_limit (2 * length input + 1) input) (parse-Ends input)
    where
      go :
          (r : Parsed RespValue)
          → Ends (λ k. k < length input) r
          → (r ≢ out_of_fuel) × (consumed (length input) r ≤ length input)
      go (complete v rest) h = (cc, unfold consumed in omega arith)
      go incomplete h = (cc, unfold consumed in omega arith)
      go bad h = (cc, unfold consumed in omega arith)
      go thrown h = (cc, unfold consumed in omega arith)
      go out_of_fuel h = absurd h

  -- A complete parse consumes at least one byte, and the bytes consumed and the bytes left make
  -- up the input.
  pub parse_consumed :
      (input : Bytes) (v : RespValue) (rest : Bytes)
      → (parse reserve_limit input).0 ≡ complete v rest
      → (0 < (parse reserve_limit input).1)
        × ((parse reserve_limit input).1 + length rest ≡ length input)
  unfolding parse
  parse_consumed input v rest e =
      let shorter : length rest < length input =
        subst (Ends (λ k. k < length input)) e (parse-Ends input) in
      rw e (unfold consumed in (omega arith, omega arith))
