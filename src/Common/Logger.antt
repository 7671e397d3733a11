-- ===== src/Common/Logger.antt =====
-- `Logger` of src/common/logger.cpp: the level filter, and the line that is written. The formatted
-- message and the time stamp are arguments.
use keva_db.Base.{
  ℕ, ◌-◌, ◌≤◌, ◌<◌, ◌≡◌, refl, inl, inr, Bool, true, Option, none, some, ◌++◌, arith, leb,
  if◌then◌else◌, Bool-cases, length, length-append, take, length-take, Bytes, codes, ltb,
}

pub data LogLevel : Type 0 where
  debug info warn error : LogLevel

-- The number behind the enumerator, by which levels are compared.
abbrev pub rank : LogLevel → ℕ
rank debug = 0
rank info = 1
rank warn = 2
rank error = 3

abbrev pub level_tag : LogLevel → Bytes
level_tag debug = codes "DEBUG"
level_tag info = codes "INFO "
level_tag warn = codes "WARN "
level_tag error = codes "ERROR"

-- The level of the singleton.
pub record Logger : Type 0 where
  pub level : LogLevel

abbrev pub set_level : LogLevel → Logger → Logger
set_level level logger = record logger { level = level }

-- Whether a message of a level is written: errors always are.
unfoldable pub passes : LogLevel → Logger → Bool
passes debug logger = leb (rank logger.level) (rank debug)
passes info logger = leb (rank logger.level) (rank info)
passes warn logger = leb (rank logger.level) (rank warn)
passes error logger = true

-- A text as `snprintf` leaves it in a buffer of `size` bytes, the last of them 0.
abbrev truncated : ℕ → Bytes → Bytes
truncated size s = if ltb (length s) size then s else take (size - 1) s

-- The bytes that one call of `write` gets, from a time stamp and a message.
unfoldable pub log_line : LogLevel → Bytes → Bytes → Bytes
log_line level stamp message =
    codes "["
    ++ (stamp
        ++ (codes "] ["
            ++ (level_tag level ++ (codes "] " ++ (truncated 2048 message ++ codes "\n")))))

-- The free functions `log::debug`, `log::info`, `log::warn` and `log::error`, and the methods of the
-- same names: the line, or nothing.
unfoldable pub log_message : LogLevel → Logger → Bytes → Bytes → Option Bytes
log_message level logger stamp message =
    if passes level logger then some (log_line level stamp message) else none

length-truncated : (s : Bytes) → length (truncated 2048 s) ≤ 2047
length-truncated s = elim (Bool-cases (ltb (length s) 2048)) [
  | inl fits ↦ rw fits (ground arith)
  | inr long ↦ rw long (omega (arith, length-take 2047 s (ground arith)))
]

length-level_tag : (level : LogLevel) → length (level_tag level) ≡ 5
length-level_tag debug = refl
length-level_tag info = refl
length-level_tag warn = refl
length-level_tag error = refl

-- The line of any message, of any level, fits in its buffer of 2200 bytes with the byte behind it,
-- where the time stamp fits in its own of 32, so that `write` is given no byte behind the buffer.
pub length-log_line :
    (level : LogLevel) (stamp message : Bytes)
    → length stamp < 32
    → length (log_line level stamp message) < 2200
unfolding log_line
length-log_line level stamp message h =
    let tag = level_tag level in
    let text = truncated 2048 message in
    let behind_tag = codes "] " ++ (text ++ codes "\n") in
    omega (
      arith,
      h,
      length-level_tag level,
      length-truncated message,
      length-append text (codes "\n"),
      length-append tag behind_tag,
      length-append stamp (codes "] [" ++ (tag ++ behind_tag)),
    )
