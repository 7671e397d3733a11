-- ===== src/Command/KeyCmd/Glob.antt =====
-- `glob_match` decides the patterns of KEYS.
use keva_db.Base.{
  ℕ, ◌≡◌, refl, sym, ◌≢◌, inl, inr, ◌↔◌, Bool, true, [], ◌∷◌, arith, ◌==◌, ==_iff, Bool-cases,
  Bytes,
}
use mathlib.Core.Path.{subst}
use keva_db.Command.KeyCmd.{glob_match, any_suffix, match_one}

-- A text that a pattern describes: '*' stands for any bytes, '?' for one, every other byte for
-- itself.
pub data Describes : Bytes → Bytes → Type 0 where
  at_end : Describes [] []
  star_none : (p s : Bytes) → Describes p s → Describes (b'*' ∷ p) s
  star_more : (p s : Bytes) (c : ℕ) → Describes (b'*' ∷ p) s → Describes (b'*' ∷ p) (c ∷ s)
  any_byte : (p s : Bytes) (c : ℕ) → Describes p s → Describes (b'?' ∷ p) (c ∷ s)
  same_byte : (p s : Bytes) (c : ℕ) → c ≢ b'*' → Describes p s → Describes (c ∷ p) (c ∷ s)

any_suffix_first : (f : Bytes → Bool) (s : Bytes) → f s ≡ true → any_suffix f s ≡ true
unfolding any_suffix
any_suffix_first f [] h = h
any_suffix_first f (c ∷ s) h = rw h refl

any_suffix_later :
    (f : Bytes → Bool) (c : ℕ) (s : Bytes) → any_suffix f s ≡ true → any_suffix f (c ∷ s) ≡ true
unfolding any_suffix
any_suffix_later f c s h = ground arith

star-Describes :
    (p s : Bytes)
    → ((t : Bytes) → glob_match p t ≡ true → Describes p t)
    → any_suffix (glob_match p) s ≡ true
    → Describes (b'*' ∷ p) s
unfolding any_suffix
star-Describes p [] ih h = star_none p [] (ih [] h)
star-Describes p (c ∷ s) ih h = elim (Bool-cases (glob_match p (c ∷ s))) [
  | inl here ↦ star_none p (c ∷ s) (ih (c ∷ s) here)
  | inr later ↦ star_more p s c (star-Describes p s ih (rw later at h))
]

one-Describes :
    (a : ℕ) (p s : Bytes)
    → a ≢ b'*'
    → ((t : Bytes) → glob_match p t ≡ true → Describes p t)
    → match_one (glob_match p) a s ≡ true
    → Describes (a ∷ p) s
unfolding match_one
one-Describes a p [] other ih h = cc
one-Describes a p (c ∷ s) other ih h = elim (Bool-cases (glob_match p s)) [
  | inr differs ↦ absurd (ground arith)
  | inl matches ↦ elim (Bool-cases (a == b'?')) [
    | inl any ↦
        subst (λ x. Describes (x ∷ p) (c ∷ s)) (sym ((==_iff a b'?').0 any))
          (any_byte p s c (ih s matches))
    | inr literal ↦
        subst (λ x. Describes (a ∷ p) (x ∷ s)) ((==_iff a c).0 (ground arith))
          (same_byte p s a other (ih s matches))
  ]
]

pub glob_match_sound : (p s : Bytes) → glob_match p s ≡ true → Describes p s
unfolding glob_match
glob_match_sound [] [] h = at_end
glob_match_sound [] (c ∷ s) h = cc
glob_match_sound (a ∷ p) s h = elim (Bool-cases (a == b'*')) [
  | inl star ↦
      subst (λ x. Describes (x ∷ p) s) (sym ((==_iff a b'*').0 star))
        (star-Describes p s (glob_match_sound p) (rw star at h))
  | inr other ↦ one-Describes a p s (λ e. ground arith) (glob_match_sound p) (rw other at h)
]

pub glob_match_complete : (p s : Bytes) → Describes p s → glob_match p s ≡ true
unfolding glob_match match_one
glob_match_complete _ _ at_end = refl
glob_match_complete _ _ (star_none p s d) =
    any_suffix_first (glob_match p) s (glob_match_complete p s d)
glob_match_complete _ _ (star_more p s c d) =
    any_suffix_later (glob_match p) c s (glob_match_complete (b'*' ∷ p) s d)
glob_match_complete _ _ (any_byte p s c d) = glob_match_complete p s d
glob_match_complete _ _ (same_byte p s c other d) =
    let m = glob_match_complete p s d in ground (arith, m)

-- A key matches a glob pattern exactly when the inductive description of patterns relates them.
pub glob_match_iff : (p s : Bytes) → (glob_match p s ≡ true) ↔ Describes p s
glob_match_iff p s = (glob_match_sound p s, glob_match_complete p s)
