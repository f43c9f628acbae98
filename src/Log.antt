-- ===== src/Log.antt =====
-- core/utils/logging.hh: the log macros and `MessageLogger`.
--
-- A use of a macro is one call: the logger is made, what follows the macro is written to its stream, and
-- the logger is destroyed, which prints the line and may abort. `threshold` is the macro `RDMA_LOG_LEVEL` of the build.
pub mod Assert
pub mod Basename
mod Tests
use rlibv.Base.{
  ℕ, suc, ◌+◌, Bool, true, false, Option, none, some, List, [], ◌∷◌, ◌++◌, ◌==◌, ltb, leb, not,
  ◌&&◌, if◌then◌else◌, get_or, drop,
}
use rlibv.Base.Text.{codes}
use rlibv.Marshal.{ByteBuffer}
use rlibv.IpName.{to_decimal}

-- `enum loglevel`
abbrev pub everything : ℕ
everything = 0

abbrev pub debug : ℕ
debug = 1

abbrev pub info : ℕ
info = 2

abbrev pub emph : ℕ
emph = 3

abbrev pub warning : ℕ
warning = 4

abbrev pub error : ℕ
error = 5

abbrev pub fatal : ℕ
fatal = 6

-- the level `NONE`
abbrev pub no_level : ℕ
no_level = 7

-- `RDMA_DEBUG_LEVEL_COLOR`: black, yellow, black, green, magenta, red, red
abbrev pub level_color : List ℕ
level_color = 39 ∷ 33 ∷ 39 ∷ 32 ∷ 35 ∷ 31 ∷ 31 ∷ []

-- `std::string::rfind` of a character
unfoldable pub rfind : ℕ → ByteBuffer → Option ℕ
rfind c [] = none
rfind c (x ∷ xs) = elim (rfind c xs) [
  | some i ↦ some (suc i)
  | none ↦ if x == c then some 0 else none
]

-- What is behind the last slash.
unfoldable pub strip_basename : ByteBuffer → ByteBuffer
unfolding rfind
strip_basename full_path = elim (rfind 47 full_path) [
  | some pos ↦ drop (pos + 1) full_path
  | none ↦ full_path
]

abbrev pub escape : ByteBuffer
escape = 27 ∷ []

unfoldable pub end_color_flag : ByteBuffer
end_color_flag = escape ++ codes "[0m"

-- `min(level_, 6)`
abbrev pub color_of : ℕ → ℕ
color_of level = get_or level_color (if ltb level 6 then level else 6) 0

-- what the constructor writes to the stream
unfoldable pub prefix : ℕ → ByteBuffer → ℕ → ℕ → ByteBuffer
unfolding strip_basename
prefix threshold file line level =
    if ltb level threshold
    then []
    else codes "[" ++ (strip_basename file ++ (codes ":" ++ (to_decimal line ++ codes "] ")))

-- What a use of a macro does: the bytes on the standard output, and whether the process is aborted.
pub record Logged : Type 0 where
  pub out : ByteBuffer
  pub aborted : Bool

abbrev pub silent : Logged
silent = record { out = []; aborted = false }

-- the destructor, with what the stream holds
unfoldable pub message_logger_dtor : ℕ → ℕ → ByteBuffer → Logged
unfolding end_color_flag
message_logger_dtor threshold level stream =
    if leb threshold level
    then record {
      out =
          escape
          ++ (codes "["
              ++ (to_decimal (color_of level)
                  ++ (codes "m" ++ (stream ++ ((10 ∷ []) ++ end_color_flag)))));
      aborted = leb fatal level;
    }
    else silent

module _ (threshold : ℕ) (file : ByteBuffer) (line : ℕ) where
  -- one logger, with the text that is written to its stream
  unfoldable pub message_logger : ℕ → ByteBuffer → Logged
  unfolding prefix message_logger_dtor
  message_logger level text =
      message_logger_dtor threshold level (prefix threshold file line level ++ text)

  unfoldable pub rdma_log : ℕ → ByteBuffer → Logged
  rdma_log n text = if leb threshold n then message_logger n text else silent

  unfoldable pub rdma_tlog : ℕ → ByteBuffer → ByteBuffer → Logged
  rdma_tlog n tag text =
      if leb threshold n
      then message_logger n (codes "[" ++ (tag ++ (codes "]" ++ text)))
      else silent

  unfoldable pub rdma_log_if : ℕ → Bool → ByteBuffer → Logged
  rdma_log_if n condition text =
      if leb threshold n && condition then message_logger n text else silent

  unfoldable pub rdma_assert : Bool → ByteBuffer → Logged
  rdma_assert condition text =
      if not condition then message_logger (fatal + 1) (codes "Assertion! " ++ text) else silent

  unfoldable pub rdma_verify : ℕ → Bool → ByteBuffer → Logged
  unfolding rdma_log_if
  rdma_verify n condition text = rdma_log_if n (not condition) text
