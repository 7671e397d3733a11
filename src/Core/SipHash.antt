-- ===== src/Core/SipHash.antt =====
-- The keyed hash of src/core/dict.cpp, on 64-bit words with their wrap-around written out.
use keva_db.Base.{
  ℕ, zero, suc, ◌+◌, ◌-◌, ◌*◌, ◌/◌, ◌%◌, ◌^◌, bit_or, bit_xor, [], ◌∷◌, Bytes, length, take, drop,
}

-- `ROTL64`
rotl64 : ℕ → ℕ → ℕ
rotl64 x r = bit_or (x * 2 ^ r % 2 ^ 64) (x / 2 ^ (64 - r))

add64 : ℕ → ℕ → ℕ
add64 a b = (a + b) % 2 ^ 64

pub record Lanes : Type 0 where
  pub v0 : ℕ
  pub v1 : ℕ
  pub v2 : ℕ
  pub v3 : ℕ

-- The four lines of `SIPROUND`, in order.
sip_round : Lanes → Lanes
unfolding rotl64 add64
sip_round s =
    let a0 = add64 s.v0 s.v1 in
    let a1 = bit_xor (rotl64 s.v1 13) a0 in
    let b0 = rotl64 a0 32 in
    let a2 = add64 s.v2 s.v3 in
    let a3 = bit_xor (rotl64 s.v3 16) a2 in
    let c0 = add64 b0 a3 in
    let c3 = bit_xor (rotl64 a3 21) c0 in
    let c2 = add64 a2 a1 in
    let c1 = bit_xor (rotl64 a1 17) c2 in record { v0 = c0; v1 = c1; v2 = rotl64 c2 32; v3 = c3 }

-- `memcpy` of bytes into a word on a little-endian machine.
unfoldable pub le_word : Bytes → ℕ
le_word [] = 0
le_word (b ∷ bs) = b + 256 * le_word bs

-- `v3 ^= m; SIPROUND; v0 ^= m`
absorb : ℕ → Lanes → Lanes
unfolding sip_round
absorb m s =
    let t = sip_round (record s { v3 = bit_xor s.v3 m }) in record t { v0 = bit_xor t.v0 m }

-- The loop over the blocks of eight bytes; the count is `len / 8`.
blocks : ℕ → Bytes → Lanes → Lanes
unfolding absorb le_word take drop
blocks zero bs s = s
blocks (suc n) bs s = blocks n (drop 8 bs) (absorb (le_word (take 8 bs)) s)

-- The `switch` that falls through: byte `i` of the rest is shifted left by `8 * i`.
tail_word : ℕ → ℕ → Bytes → ℕ
tail_word shift acc [] = acc
tail_word shift acc (b ∷ bs) = tail_word (shift + 8) (bit_or acc (b * 2 ^ shift)) bs

unfoldable pub siphash_1_2 : Bytes → ℕ → ℕ → ℕ
unfolding blocks absorb sip_round tail_word drop
siphash_1_2 input k0 k1 =
    let len = length input in
    let start : Lanes = record {
      v0 = bit_xor k0 0x736f6d6570736575;
      v1 = bit_xor k1 0x646f72616e646f6d;
      v2 = bit_xor k0 0x6c7967656e657261;
      v3 = bit_xor k1 0x7465646279746573;
    } in
    let whole = blocks (len / 8) input start in
    let last = tail_word 0 (len % 256 * 2 ^ 56) (drop (len / 8 * 8) input) in
    let mixed = absorb last whole in
    let done = sip_round (sip_round (record mixed { v2 = bit_xor mixed.v2 0xFF })) in
    bit_xor (bit_xor done.v0 done.v1) (bit_xor done.v2 done.v3)
