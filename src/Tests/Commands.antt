-- ===== src/Tests/Commands.antt =====
-- The commands of src/command at concrete arguments.
use keva_db.Base.{
  ◌≡◌, refl, ap, ◌∙◌, ◌↔◌, true, none, some, [], ◌∷◌, ◌++◌, arith, Bytes, codes, if◌then◌else◌,
  is_some, bytes_eq, length, drop, get_or,
}
use keva_db.Base.Int.{ℤ, pos, leb_ℤ, ltb_ℤ, ◌+ℤ◌, ◌-ℤ◌, wrap_i64, ◌*ℤ◌}
use keva_db.Base.Decimal.{from_chars}
use keva_db.Command.Args.{Clock, to_upper, would_overflow}
use keva_db.Command.KeyCmd.{glob_match, handle_rename, handle_del, handle_pexpire, handle_pttl}
use keva_db.Command.KeyCmd.Glob.{Describes, glob_match_iff}
use keva_db.Command.KeyCmd.Keys.{
  IsCopy, rename-live, handle_del-live, pexpire-pttl, distinct_present, mentioned,
}
use keva_db.Command.StringCmd.{
  set_options, handle_set, handle_get, handle_append, handle_incrby, handle_decrby, in_range,
  string_or_missing, get_integer_obj, option_word, positive, positive_of,
}
use keva_db.Command.StringCmd.Counting.{
  get_integer_obj-create, Outcome, current_of, handle_incrby-Outcome, handle_decrby-Outcome,
}
use keva_db.Command.StringCmd.Texts.{set-get, append-get, text_under}
use keva_db.Core.Db.{KevaDatabase, new_database, set, past}
use keva_db.Core.Db.Live.{alive, live, new_database-IsDb, set-Written, Written, Written-live}
use keva_db.Core.Dict.Invariant.{view}
use keva_db.Core.Object.{KevaObject, create_string_from_int}
use keva_db.Core.Object.Text.{stored_text, create_string_from_int_fields}
use keva_db.Protocol.Encoder

abbrev k : Bytes
k = codes "k"

program : Unit {0}
unfolding set_options drop option_word to_upper bytes_eq positive positive_of from_chars wrap_i64
    ◌*ℤ◌ ◌+ℤ◌ ◌-ℤ◌ get_or
program = tt

abbrev now : Clock
now = record { now_ms = pos 5000; seconds = 5 }

-- A key that holds 41.
abbrev counted : KevaDatabase
counted = set (new_database 0) k (create_string_from_int (pos 41) 0)

counted-Written : Written (new_database 0) counted k (some (create_string_from_int (pos 41) 0)) none
counted-Written =
    set-Written (new_database 0) (new_database-IsDb 0) k (create_string_from_int (pos 41) 0)

counted_live : live counted (pos 5000) k ≡ some (create_string_from_int (pos 41) 0)
unfolding alive past bytes_eq
counted_live = Written-live counted-Written (pos 5000) k

counted_now : current_of now k counted ≡ some (pos 41)
counted_now = ap get_integer_obj counted_live ∙ get_integer_obj-create (pos 41) 0

counted_string : string_or_missing (live counted (pos 5000) k) ≡ true
unfolding string_or_missing
counted_string = ap string_or_missing counted_live ∙ (create_string_from_int_fields (pos 41) 0).0

set-get_example :
    (handle_get now
      (codes "GET" ∷ k ∷ [])
      (handle_set now (codes "SET" ∷ k ∷ codes "+5" ∷ []) counted).0).1
    ≡ Encoder.bulk_string (stored_text (codes "+5"))
set-get_example =
    set-get counted counted-Written.valid now (codes "SET") k (codes "+5") (codes "GET") now

glob_match_iff_example :
    (glob_match (codes "h?l*") (codes "hello") ≡ true) ↔ Describes (codes "h?l*") (codes "hello")
glob_match_iff_example = glob_match_iff (codes "h?l*") (codes "hello")

handle_del-live_example :
    ((handle_del now (codes "DEL" ∷ k ∷ k ∷ []) counted).1
      ≡ Encoder.integer (pos (distinct_present (λ q. is_some (view counted.keys q)) (k ∷ k ∷ []))))
    × ((t : ℤ) (q : Bytes)
        → live (handle_del now (codes "DEL" ∷ k ∷ k ∷ []) counted).0 t q
          ≡ (if mentioned (k ∷ k ∷ []) q then none else live counted t q))
handle_del-live_example =
    handle_del-live counted counted-Written.valid now (codes "DEL") (k ∷ k ∷ [])

rename-live_example :
    (c : KevaObject) × IsCopy (create_string_from_int (pos 41) 0) c
    × ((handle_rename now (codes "RENAME" ∷ k ∷ codes "j" ∷ []) counted).1 ≡ Encoder.ok)
    × ((later : ℤ)
        → leb_ℤ (pos 5000) later ≡ true
        → (q : Bytes)
        → live (handle_rename now (codes "RENAME" ∷ k ∷ codes "j" ∷ []) counted).0 later q ≡ (
            if bytes_eq (codes "j") q
            then some c
            else if bytes_eq k q
            then none
            else live counted later q))
rename-live_example =
    rename-live counted counted-Written.valid now (codes "RENAME") k (codes "j")
      (create_string_from_int (pos 41) 0) counted_live

pexpire-pttl_example :
    (handle_pttl now
      (codes "PTTL" ∷ k ∷ [])
      (handle_pexpire now (codes "PEXPIRE" ∷ k ∷ codes "250" ∷ []) counted).0).1
    ≡ Encoder.integer (if ltb_ℤ (pos 0) (pos 250) then pos 250 else pos 0)
unfolding program
pexpire-pttl_example =
    pexpire-pttl counted counted-Written.valid now (codes "PEXPIRE") k (codes "250") []
      (codes "PTTL") (pos 250) refl (ap is_some counted_live) (omega arith, omega arith)
      (omega arith, omega arith)

append-get_example :
    ((handle_append now (codes "APPEND" ∷ k ∷ codes "x" ∷ []) counted).1
      ≡ Encoder.integer (pos (length (text_under (live counted (pos 5000) k) ++ codes "x"))))
    × ((handle_get now
          (codes "GET" ∷ k ∷ [])
          (handle_append now (codes "APPEND" ∷ k ∷ codes "x" ∷ []) counted).0).1
        ≡ Encoder.bulk_string (stored_text (text_under (live counted (pos 5000) k) ++ codes "x")))
append-get_example =
    append-get counted counted-Written.valid now (codes "APPEND") k (codes "x") (codes "GET") now
      counted_string

abbrev most : ℤ
most = pos 9223372036854775807

handle_incrby-Outcome_example :
    Outcome now k
      (handle_incrby now (codes "INCRBY" ∷ k ∷ codes "9223372036854775807" ∷ []) counted)
      (if in_range (pos 41 +ℤ most) then Encoder.integer (pos 41 +ℤ most) else would_overflow)
      (if in_range (pos 41 +ℤ most) then pos 41 +ℤ most else pos 41)
unfolding program
handle_incrby-Outcome_example =
    handle_incrby-Outcome counted counted-Written.valid now k (codes "INCRBY")
      (codes "9223372036854775807") [] most (pos 41) refl (omega arith, omega arith)
      (omega arith, omega arith) counted_now

handle_decrby-Outcome_example :
    Outcome now k
      (handle_decrby (λ a b. pos 0) now (codes "DECRBY" ∷ k ∷ codes "1" ∷ []) counted)
      (Encoder.integer (pos 41 -ℤ pos 1))
      (pos 41 -ℤ pos 1)
unfolding program
handle_decrby-Outcome_example =
    handle_decrby-Outcome counted counted-Written.valid now k (λ a b. pos 0) (codes "DECRBY")
      (codes "1") [] (pos 1) (pos 41) refl refl counted_now
