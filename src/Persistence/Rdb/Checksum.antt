-- ===== src/Persistence/Rdb/Checksum.antt =====
-- The checksum of bytes that are written piece by piece.
use keva_db.Base.{
  ℕ, zero, suc, ◌-◌, ◌/◌, ◌%◌, ◌^◌, ◌<◌, ◌≡◌, refl, sym, ap, ◌∙◌, inl, inr, bit_xor, [], ◌∷◌, ◌++◌,
  arith, ◌==◌, Bool-cases, Bytes,
}
use keva_db.Base.Bits.{bit_xor-lt}
use keva_db.Persistence.Rdb.{crc_steps, crc_fold, crc64_update}

crc_steps-lt : (n c : ℕ) → c < 2 ^ 64 → crc_steps n c < 2 ^ 64
unfolding crc_steps
crc_steps-lt zero c h = h
crc_steps-lt (suc n) c h = elim (Bool-cases (c % 2 == 1)) [
  | inl odd ↦
      rw odd
        (crc_steps-lt n _ (bit_xor-lt 64 0xad93d23594c935a9 (c / 2) (omega arith) (omega arith)))
  | inr even ↦ rw even (crc_steps-lt n (c / 2) (omega arith))
]

crc_fold-lt : (bs : Bytes) (crc : ℕ) → crc < 2 ^ 64 → crc_fold bs crc < 2 ^ 64
unfolding crc_fold
crc_fold-lt [] crc h = h
crc_fold-lt (b ∷ bs) crc h =
    let step = crc_steps-lt 8 (bit_xor crc b % 256) (omega arith) in
    crc_fold-lt bs _ (bit_xor-lt 64 _ (crc / 256) step (omega arith))

crc_fold-append : (a b : Bytes) (crc : ℕ) → crc_fold (a ++ b) crc ≡ crc_fold b (crc_fold a crc)
unfolding crc_fold
crc_fold-append [] b crc = refl
crc_fold-append (c ∷ a) b crc = crc_fold-append a b _

-- The checksum of two pieces is that of the bytes together.
pub crc64_update-append :
    (a b : Bytes) (crc : ℕ) → crc64_update (crc64_update crc a) b ≡ crc64_update crc (a ++ b)
unfolding crc64_update
crc64_update-append a b crc =
    let ones : ℕ = 18446744073709551615 in
    let small = crc_fold-lt a (ones - crc) (omega arith) in
    let twice : ones - (ones - crc_fold a (ones - crc)) ≡ crc_fold a (ones - crc) = omega arith in
    ap (λ c. ones - crc_fold b c) twice
    ∙ ap (λ c. ones - c) (sym (crc_fold-append a b (ones - crc)))
