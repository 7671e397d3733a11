-- ===== src/Main/Arguments/Render.antt =====
-- A command line for a configuration, and that it is read back.
use keva_db.Base.{
  ℕ, ◌^◌, ◌<◌, ◌≡◌, refl, ap, ◌∙◌, false, ◌||◌, ◌&&◌, ◌==◌, ltb, leb, some, Bool, true, List, [],
  ◌∷◌, arith, if◌then◌else◌, Bytes, codes, bytes_eq,
}
use keva_db.Base.Decimal.{
  nat_chars, scan_digits, StartsDigit, nat_chars_digit, scan_digits-nat_chars,
}
use keva_db.Base.Int.{pos}
use keva_db.Core.ServerContext.{ServerConfig, default_config}
use keva_db.Main.Arguments.{
  atoi, signed_number, skip_spaces, flag_of, with_number, with_value, without_value, sets, parsed,
  parse_loop, parse_args,
}

-- The options that can be set, as the command line gives them.
abbrev pub render : ServerConfig → List Bytes
render cfg =
    codes "--host"
    ∷ cfg.host
    ∷ codes "--port"
    ∷ nat_chars cfg.port
    ∷ codes "--loglevel"
    ∷ cfg.loglevel
    ∷ codes "--maxmemory"
    ∷ nat_chars cfg.maxmemory
    ∷ codes "--rdb-filename"
    ∷ cfg.rdb_filename
    ∷ (if cfg.rdb_enabled then [] else codes "--no-rdb" ∷ [])

-- The configuration with those options, and the defaults for the others.
abbrev pub settable : ServerConfig → ServerConfig
settable cfg = record default_config {
  host = cfg.host;
  port = cfg.port;
  loglevel = cfg.loglevel;
  maxmemory = cfg.maxmemory;
  rdb_filename = cfg.rdb_filename;
  rdb_enabled = cfg.rdb_enabled;
}

-- A text that starts with a digit has no blanks and no sign in front.
atoi-digits :
    (limit : ℕ) (s : Bytes)
    → StartsDigit s
    → (scan_digits 0 s).0 < limit
    → atoi limit s ≡ some (pos (scan_digits 0 s).0)
unfolding atoi skip_spaces signed_number
atoi-digits limit [] h fits = absurd h
atoi-digits limit (c ∷ s) h fits =
    let no_space : (c == b' ' || (leb b'\t' c && leb c b'\r')) ≡ false = ground arith in
    let no_minus : (c == b'-') ≡ false = ground arith in
    let no_plus : (c == b'+') ≡ false = ground arith in
    let below : ltb (scan_digits 0 (c ∷ s)).0 limit ≡ true = ground arith in
    rw (no_space, no_minus, no_plus, below) refl

atoi-nat_chars : (limit n : ℕ) → n < limit → n < 10 ^ 20 → atoi limit (nat_chars n) ≡ some (pos n)
atoi-nat_chars limit n below h =
    let e : (scan_digits 0 (nat_chars n)).0 ≡ n = ap (λ r. r.0) (scan_digits-nat_chars n h) in
    atoi-digits limit (nat_chars n) (nat_chars_digit n h) (rw e below) ∙ ap (λ m. some (pos m)) e

-- An option that sets the configuration leaves the options behind it.
parse_loop-sets :
    (arg v : Bytes) (rest : List Bytes) (cfg cfg' : ServerConfig)
    → with_value (flag_of arg) v cfg ≡ sets cfg'
    → parse_loop (arg ∷ v ∷ rest) cfg ≡ parse_loop rest cfg'
unfolding parse_loop
parse_loop-sets arg v rest cfg cfg' e = rw (e, parse_loop) refl

module _ (cfg : ServerConfig) where
  with_value-port :
      (n : ℕ)
      → n < 65536
      → with_value (flag_of (codes "--port")) (nat_chars n) cfg ≡ sets (record cfg { port = n })
  unfolding with_value with_number flag_of bytes_eq
  with_value-port n h =
      rw (atoi-nat_chars 2147483648 n (omega arith) (omega arith))
        (ap (λ m. sets (record cfg { port = m })) (omega arith))

  with_value-maxmemory :
      (n : ℕ)
      → n < 9223372036854775808
      → with_value (flag_of (codes "--maxmemory")) (nat_chars n) cfg
        ≡ sets (record cfg { maxmemory = n })
  unfolding with_value with_number flag_of bytes_eq
  with_value-maxmemory n h =
      rw (atoi-nat_chars 9223372036854775808 n h (omega arith))
        (ap (λ m. sets (record cfg { maxmemory = m })) (omega arith))

  -- The option without a value at the end.
  parse_loop-rdb :
      (on : Bool)
      → parse_loop (if on then [] else codes "--no-rdb" ∷ []) (record cfg { rdb_enabled = true })
        ≡ parsed (record cfg { rdb_enabled = on })
  unfolding parse_loop flag_of without_value bytes_eq
  parse_loop-rdb true = refl
  parse_loop-rdb false = refl

-- A command line that gives every option is read back, for a port of 16 bits and a memory limit
-- below 2^63, from which on C leaves the number undefined.
pub parse_args-render :
    (cfg : ServerConfig)
    → cfg.port < 65536
    → cfg.maxmemory < 9223372036854775808
    → parse_args (render cfg) ≡ parsed (settable cfg)
unfolding parse_args flag_of with_value bytes_eq
parse_args-render cfg port memory =
    let c1 = record default_config { host = cfg.host } in
    let c2 = record c1 { port = cfg.port } in
    let c3 = record c2 { loglevel = cfg.loglevel } in
    let c4 = record c3 { maxmemory = cfg.maxmemory } in
    let c5 = record c4 { rdb_filename = cfg.rdb_filename } in
    parse_loop-sets (codes "--host") cfg.host _ default_config c1 refl
    ∙ parse_loop-sets (codes "--port") (nat_chars cfg.port) _ c1 c2
        (with_value-port c1 cfg.port port)
    ∙ parse_loop-sets (codes "--loglevel") cfg.loglevel _ c2 c3 refl
    ∙ parse_loop-sets (codes "--maxmemory") (nat_chars cfg.maxmemory) _ c3 c4
        (with_value-maxmemory c3 cfg.maxmemory memory)
    ∙ parse_loop-sets (codes "--rdb-filename") cfg.rdb_filename _ c4 c5 refl
    ∙ parse_loop-rdb c5 cfg.rdb_enabled
