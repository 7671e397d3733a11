-- ===== src/Persistence/Save/Pieces.antt =====
-- What each piece of a file adds to a writer, however the calls of `write` cut it.
use keva_db.Base.{
  ℕ, zero, suc, ◌+◌, ◌/◌, ◌%◌, ◌≡◌, refl, sym, ap, ◌∙◌, inl, inr, true, false, Option, none, some,
  List, [], ◌∷◌, ◌++◌, append-nil, append_assoc, arith, ltb, ◌==◌, Bool-cases, length, take, drop,
  Bytes,
}
use mathlib.Core.Path.{subst}
use keva_db.Base.Int.{ℤ, to_u64}
use keva_db.Common.Status.{ok}
use keva_db.Persistence.Rdb.{
  le_bytes, crc64_update, Saved, write_length, write_string, write_expire, write_entry,
}
use keva_db.Persistence.Rdb.Checksum.{crc64_update-append}
use keva_db.Persistence.Save.{
  Wrote, wrote, write_interrupted, write_failed, Writer, Writing, ◌and_then◌, advance, write_loop,
  write_bytes, write_text, write_time, write_saved,
}

-- The checksum is that of the bytes.
abbrev pub IsSummed : Writer → Type 0
IsSummed w = w.crc_state ≡ crc64_update 0 w.out

-- These bytes behind those of before, and the checksum with them.
pub record Appended (bs : Bytes) (w w' : Writer) : Type 0 where
  pub bytes : w'.out ≡ w.out ++ bs
  pub summed : IsSummed w → IsSummed w'

-- On success.
abbrev pub Writes : Writing → Bytes → Type 0
Writes f bs = (w : Writer) → ok (f w).1 ≡ true → Appended bs w (f w).0

pub Appended-nothing : (w : Writer) → Appended [] w w
Appended-nothing w = record { bytes = sym (append-nil w.out); summed = λ h. h }

pub Appended-append :
    (a b : Bytes) (u v w : Writer) → Appended a u v → Appended b v w → Appended (a ++ b) u w
Appended-append a b u v w p q = record {
  bytes = q.bytes ∙ ap (λ s. s ++ b) p.bytes ∙ append_assoc u.out a b;
  summed = λ h. q.summed (p.summed h);
}

pub and_then-Writes :
    (f g : Writing) (a b : Bytes) → Writes f a → Writes g b → Writes (f and_then g) (a ++ b)
unfolding ◌and_then◌
and_then-Writes f g a b p q w good = elim (Bool-cases (ok (f w).1)) [
  | inl fine ↦
      let good' : ok (g (f w).0).1 ≡ true = rw fine at good in
      rw fine (Appended-append a b w (f w).0 (g (f w).0).0 (p w fine) (q (f w).0 good'))
  | inr bad ↦ let no_good : false ≡ true = rw (bad, bad) at good in cc
]

pub regroup : (a b c d e : Bytes) → ((a ++ (b ++ c)) ++ d) ++ e ≡ a ++ (b ++ (c ++ (d ++ e)))
regroup a b c d e = simp append_assoc

take-drop : (n : ℕ) (s : Bytes) → take n s ++ drop n s ≡ s
unfolding take drop
take-drop zero s = refl
take-drop (suc n) [] = refl
take-drop (suc n) (c ∷ s) = ap (λ t. c ∷ t) (take-drop n s)

advance-Appended :
    (chunk : Bytes) (rs : List Wrote) (w : Writer) → Appended chunk w (advance chunk rs w)
unfolding advance
advance-Appended chunk rs w = record {
  bytes = refl;
  summed = λ h. ap (λ c. crc64_update c chunk) h ∙ crc64_update-append w.out chunk 0;
}

module _ (strerror : ℕ → Bytes) where
  write_loop-Writes : (rs : List Wrote) (p : Bytes) → Writes (write_loop strerror rs p) p
  unfolding write_loop
  write_loop-Writes [] p w good = advance-Appended p [] w
  write_loop-Writes (r ∷ rs) [] w good = record { bytes = sym (append-nil w.out); summed = λ h. h }
  write_loop-Writes (wrote n ∷ rs) (c ∷ p) w good =
      let first = advance-Appended (take n (c ∷ p)) rs w in
      let next = advance (take n (c ∷ p)) rs w in
      let rest = write_loop-Writes rs (drop n (c ∷ p)) next good in
      subst (λ s. Appended s w (write_loop strerror rs (drop n (c ∷ p)) next).0)
        (take-drop n (c ∷ p))
        (Appended-append (take n (c ∷ p)) (drop n (c ∷ p)) w next _ first rest)
  write_loop-Writes (write_interrupted ∷ rs) (c ∷ p) w good = write_loop-Writes rs (c ∷ p) w good
  write_loop-Writes (write_failed e ∷ rs) (c ∷ p) w good = cc

  pub write_bytes-Writes : (p : Bytes) → Writes (write_bytes strerror p) p
  unfolding write_bytes
  write_bytes-Writes [] w good = Appended-nothing w
  write_bytes-Writes (c ∷ p) w good =
      let some_bytes : (length (c ∷ p) == 0) ≡ false = ground arith in
      rw some_bytes (write_loop-Writes w.script (c ∷ p) w (rw some_bytes at good))

  write_text-Writes : (sv : Bytes) → Writes (write_text strerror sv) (write_string sv)
  unfolding write_text write_string write_length
  write_text-Writes sv =
      let len = length sv in
      let body = write_bytes-Writes sv in
      elim (Bool-cases (ltb len 64)) [
        | inl short ↦
            rw short (and_then-Writes _ _ (len ∷ []) sv (write_bytes-Writes (len ∷ [])) body)
        | inr longer ↦ rw longer (elim (Bool-cases (ltb len 16384)) [
          | inl middle ↦ rw middle (
              and_then-Writes _ _ ((128 + len / 256) ∷ []) _ (write_bytes-Writes _)
                (and_then-Writes _ _ (len % 256 ∷ []) sv (write_bytes-Writes _) body))
          | inr long ↦ rw long (
              and_then-Writes _ _ (192 ∷ []) _ (write_bytes-Writes _) (
                and_then-Writes _ _ (le_bytes 4 (len % 4294967296)) sv (write_bytes-Writes _) body))
        ])
      ]

  write_time-Writes : (t : Option ℤ) → Writes (write_time strerror t) (write_expire t)
  unfolding write_expire
  write_time-Writes none = λ w good. Appended-nothing w
  write_time-Writes (some t) =
      and_then-Writes _ _ (0xFC ∷ []) _ (write_bytes-Writes (0xFC ∷ []))
        (write_bytes-Writes (le_bytes 8 (to_u64 t)))

  pub write_saved-Writes : (e : Saved) → Writes (write_saved strerror e) (write_entry e)
  unfolding write_saved write_entry
  write_saved-Writes e =
      and_then-Writes _ _ (write_expire e.expire) _ (write_time-Writes e.expire) (
        and_then-Writes _ _ (0x00 ∷ []) _ (write_bytes-Writes (0x00 ∷ [])) (
          and_then-Writes _ _ (write_string e.key) _ (write_text-Writes e.key)
            (write_text-Writes e.value)))
