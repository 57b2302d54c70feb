-- ===== src/Clog.antt =====
-- The reassembly of the C host's log lines, nimble-rs/src/clog.rs. Levels are those of Mynewt, from
-- 0 on; the state's `level` starts at 0, so a negative level would count as 0.
pub mod Laws
use nimble_rs.Base.{
  ℕ, zero, suc, Bool, true, false, Option, none, some, List, [], ◌∷◌, ◌++◌, length, if◌then◌else◌,
  leb, ◌==◌, ◌||◌,
}

-- `LINE_MAX`
abbrev pub line_max : ℕ
line_max = 256

abbrev pub newline : ℕ
newline = 10

-- `LineBuf`: the bytes of `buf` up to `len`.
pub record LineBuf : Type 0 where
  pub buf : List ℕ
  pub level : ℕ

-- A line that is emitted.
abbrev pub Line : Type 0
Line = ℕ × List ℕ

abbrev pub max_level : ℕ → ℕ → ℕ
max_level a b = if leb a b then b else a

abbrev pub restart : ℕ → List ℕ
restart byte = if byte == newline then [] else byte ∷ []

-- The critical section of `nimble_rs_log` for one byte: the line that it completes, if any.
pub add_byte : ℕ → ℕ → LineBuf → Option Line × LineBuf
add_byte level byte line =
    if (byte == newline) || (length line.buf == line_max)
    then (some (max_level line.level level, line.buf), record { buf = restart byte; level = 0 })
    else (none, record { buf = line.buf ++ byte ∷ []; level = max_level line.level level })

-- The bytes of `"<non-utf8 log line>"`.
abbrev pub non_utf8 : List ℕ
non_utf8 =
    60 ∷ 110 ∷ 111 ∷ 110 ∷ 45 ∷ 117 ∷ 116 ∷ 102 ∷ 56 ∷ 32 ∷ 108 ∷ 111 ∷ 103 ∷ 32 ∷ 108 ∷ 105 ∷ 110
    ∷ 101 ∷ 62 ∷ []

module _ (is_utf8 : List ℕ → Bool) where
  -- `emit` gives nothing to the log for an empty line; `is_utf8` says whether `from_utf8` succeeds.
  pub emit : Option Line → List Line
  emit none = []
  emit (some (level, [])) = []
  emit (some (level, b ∷ bytes)) = (level, if is_utf8 (b ∷ bytes) then b ∷ bytes else non_utf8) ∷ []

-- The level that `emit` logs a line at.
pub data LogLevel : Type 0 where
  debug info warn error : LogLevel

pub log_level : ℕ → LogLevel
log_level zero = debug
log_level (suc zero) = info
log_level (suc (suc zero)) = warn
log_level (suc (suc (suc n))) = error

module _ (is_utf8 : List ℕ → Bool) where
  -- The loop of `nimble_rs_log`, with the lines that it emits.
  pub log_bytes : ℕ → List ℕ → LineBuf → List Line × LineBuf
  log_bytes level [] line = ([], line)
  log_bytes level (byte ∷ bytes) line =
      let (out, next) = add_byte level byte line in
      let (lines, last) = log_bytes level bytes next in (emit is_utf8 out ++ lines, last)

  -- `nimble_rs_log`; none is a null message.
  pub nimble_rs_log : ℕ → Option (List ℕ) → LineBuf → List Line × LineBuf
  nimble_rs_log level none line = ([], line)
  nimble_rs_log level (some bytes) line = log_bytes level bytes line

  -- Calls of `nimble_rs_log` in a row.
  pub log_calls : List (ℕ × Option (List ℕ)) → LineBuf → List Line × LineBuf
  log_calls [] line = ([], line)
  log_calls ((level, msg) ∷ calls) line =
      let (lines, next) = nimble_rs_log level msg line in
      let (more, last) = log_calls calls next in (lines ++ more, last)
