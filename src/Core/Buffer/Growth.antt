-- ===== src/Core/Buffer/Growth.antt =====
-- Capacities: every operation keeps room for the bytes, and a capacity is 0 or a power of two.
use keva_db.Base.{
  ℕ, ◌+◌, ◌≤◌, ◌<◌, ◌≡◌, refl, ◌⊎◌, inl, inr, Bool, true, false, none, some, [], ◌∷◌, ◌++◌, ◌-◌,
  ◌%◌, sym, append-nil, arith, ltb, leb, ◌==◌, ==_iff, if◌then◌else◌, Bool-cases, length,
  length-append, length-replicate, length-take, replicate, take, Bytes,
}
use mathlib.Core.Path.{subst}
use keva_db.Base.Bits.{le-bit_ceil, bit_ceil-IsPowerOfTwo, IsPowerOfTwo}
use keva_db.Core.Buffer.{Buffer, empty_buffer, rounded, grow, append, resize}

-- Room for the bytes, and the shape of a capacity.
pub record IsBuffer (b : Buffer) : Type 0 where
  pub room : length b.bytes ≤ b.cap
  pub shape : (b.cap ≡ 0) ⊎ IsPowerOfTwo b.cap

pub empty_buffer-IsBuffer : IsBuffer empty_buffer
empty_buffer-IsBuffer = record { room = omega arith; shape = inl refl }

-- After `grow` the capacity suffices, and the bytes are the same.
pub record Grown (b b' : Buffer) (required : ℕ) : Type 0 where
  pub enough : required ≤ b'.cap
  pub larger : b.cap ≤ b'.cap
  pub same : b'.bytes ≡ b.bytes
  pub shape : (b'.cap ≡ 0) ⊎ IsPowerOfTwo b'.cap

grow-Grown :
    (n : ℕ) (b : Buffer)
    → n ≤ 4611686018427387904
    → IsBuffer b
    → (g : Buffer) × (grow n b ≡ some g) × Grown b g n
unfolding grow rounded
grow-Grown n b fits w = elim (Bool-cases (leb n b.cap)) [
  | inl small ↦ rw small (
    b,
    refl,
    record { enough = ground arith; larger = omega arith; same = refl; shape = w.shape },
  )
  | inr big ↦
      let m = if ltb n 16 then 16 else n in
      let le = le-bit_ceil m (ground arith) in
      let granted : leb n 4611686018427387904 ≡ true = ground arith in
      rw (big, granted)
        (
          record b { cap = rounded n },
          refl,
          record {
            enough = ground (arith, le);
            larger = ground (arith, le);
            same = refl;
            shape = inr (bit_ceil-IsPowerOfTwo m);
          },
        )
]

length-0 : (s : Bytes) → length s ≡ 0 → s ≡ []
length-0 [] h = refl
length-0 (c ∷ s) h = absurd (omega arith)

-- The tail of `resize`: the new bytes in the new block.
resized :
    (g : Buffer) (bs : Bytes)
    → 0 < g.cap
    → (if g.cap == 0 then none else some (record g { bytes = bs })) ≡ some (record g { bytes = bs })
resized g bs h = ground arith

padded_by :
    (s : Bytes) (n : ℕ) (more : Bool)
    → ltb (length s) n ≡ more
    → length (if more then s ++ replicate (n - length s) 0 else take n s) ≡ n
padded_by s n true e =
    let zeros : Bytes = replicate (n - length s) 0 in
    let long = length-append s zeros in
    let fill = length-replicate {A = ℕ} (n - length s) 0 in ground (arith, long, fill)
padded_by s n false e = length-take n s (ground arith)

module _ (b : Buffer) (w : IsBuffer b) where
  -- Appending to a valid buffer, up to 2^62 bytes in all, succeeds, concatenates, and keeps room
  -- for the bytes and a capacity of 0 or a power of two.
  pub append-IsBuffer :
      (sv : Bytes)
      → length b.bytes + length sv ≤ 4611686018427387904
      → (b' : Buffer) × (append b sv ≡ some b') × IsBuffer b' × (b'.bytes ≡ b.bytes ++ sv)
  unfolding append
  append-IsBuffer sv fits = elim (Bool-cases (length sv == 0)) [
    | inl empty ↦
        rw empty
          (b, refl, w, rw (length-0 sv ((==_iff (length sv) 0).0 empty)) (sym (append-nil b.bytes)))
    | inr full ↦
        let n = length b.bytes + length sv in
        let (g, grows, grown) = grow-Grown n b fits w in
        let no_wrap : n % 18446744073709551616 ≡ n = omega arith in
        let enough : leb n g.cap ≡ true = ground (arith, grown.enough) in
        rw (full, no_wrap, grows, enough)
          (
            record g { bytes = b.bytes ++ sv },
            refl,
            record {
              room = omega (arith, grown.enough, length-append b.bytes sv);
              shape = grown.shape;
            },
            refl,
          )
  ]

  -- Resizing a valid buffer that has a capacity, or to a size above 0, succeeds with exactly that
  -- many bytes and keeps the invariant.
  pub resize-IsBuffer :
      (n : ℕ)
      → n ≤ 4611686018427387904
      → 0 < b.cap + n
      → (b' : Buffer) × (resize b n ≡ some b') × IsBuffer b' × (length b'.bytes ≡ n)
  unfolding resize
  resize-IsBuffer n fits some_room =
      let bs =
        if ltb (length b.bytes) n
        then b.bytes ++ replicate (n - length b.bytes) 0
        else take n b.bytes in
      let e = padded_by b.bytes n (ltb (length b.bytes) n) refl in
      elim (Bool-cases (ltb b.cap n)) [
        | inl more ↦
            let (g, grows, grown) = grow-Grown n b fits w in
            rw (more, grows)
              (
                record g { bytes = bs },
                resized g bs (ground (arith, grown.enough)),
                record { room = omega (arith, grown.enough, e); shape = grown.shape },
                e,
              )
        | inr less ↦ rw less (
          record b { bytes = bs },
          resized b bs (ground arith),
          record { room = subst (λ m. m ≤ b.cap) (sym e) (ground arith); shape = w.shape },
          e,
        )
      ]
