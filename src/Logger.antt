-- ===== src/Logger.antt =====
-- src/Logger.hpp and src/Logger.cpp: the loggers. The objects stand in a list, the newest in front,
-- and the address of one is the number of those behind it, so that a `ScopedLogger` shares the logger
-- that it was given with all others that write to it. What a call writes is a list of lines, each with
-- its stream; the time string that the lines begin with is an argument.
pub mod Chain
pub mod Levels
mod Tests
use kapua.Prelude.{
  ℕ, Bool, true, false, not, ◌&&◌, List, [], ◌∷◌, ◌++◌, ltb, ◌==◌, if◌then◌else◌, length,
}
use kapua.Prelude.Results.{Result, ok, undefined, null_pointer}
use kapua.Text.{text}

pub data LogLevel : Type 0 where
  error_level warn_level info_level debug_level unknown_level : LogLevel

-- The numbers of `LogLevel_t`.
abbrev pub level_code : LogLevel → ℕ
level_code error_level = 0
level_code warn_level = 1
level_code info_level = 2
level_code debug_level = 3
level_code unknown_level = 255

-- The methods of a `Logger` that write a line.
pub data Method : Type 0 where
  raw debug info warn error : Method

pub data Stream : Type 0 where
  cout cerr : Stream

pub data LoggerObject : Type 0 where
  -- `_log_level`
  io_stream_logger : LogLevel → LoggerObject
  -- `_prefix`, `_logger`, `_log_level` and `_using_log_level`
  scoped_logger : List ℕ → ℕ → LogLevel → Bool → LoggerObject

abbrev pub Loggers : Type 0
Loggers = List LoggerObject

-- A constructor gives the address of the object and the loggers with it.
abbrev pub new_io_stream_logger : LogLevel → Loggers → ℕ × Loggers
new_io_stream_logger level os = (length os, io_stream_logger level ∷ os)

-- `level` is what the uninitialised `_log_level` holds.
abbrev pub new_scoped_logger : List ℕ → ℕ → LogLevel → Loggers → ℕ × Loggers
new_scoped_logger prefix logger level os = (length os, scoped_logger prefix logger level false ∷ os)

abbrev pub new_scoped_logger_at : List ℕ → ℕ → LogLevel → Loggers → ℕ × Loggers
new_scoped_logger_at prefix logger level os =
    (length os, scoped_logger prefix logger level true ∷ os)

abbrev pub line : List ℕ → List ℕ → List ℕ → List ℕ
line time tag log = time ++ tag ++ log ++ 10 ∷ []

-- The methods of an `IOStreamLogger`.
unfoldable pub write : LogLevel → Method → List ℕ → List ℕ → List (Stream × List ℕ)
write level debug time log =
    if ltb (level_code level) (level_code debug_level)
    then []
    else (cout, line time (text " [DEBUG] ") log) ∷ []
write level info time log =
    if ltb (level_code level) (level_code info_level)
    then []
    else (cout, line time (text " [INFO ] ") log) ∷ []
write level warn time log =
    if ltb (level_code level) (level_code warn_level)
    then []
    else (cout, line time (text " [WARN ] ") log) ∷ []
write level error time log = (cerr, line time (text " [ERROR] ") log) ∷ []
write level raw time log = (cerr, line time (text " [     ] ") log) ∷ []

-- Whether a method of a `ScopedLogger` returns before it calls the logger below.
unfoldable pub held_back : Bool → LogLevel → Method → Bool
held_back using level debug = using && ltb (level_code level) (level_code debug_level)
held_back using level info = using && ltb (level_code level) (level_code info_level)
held_back using level warn = using && ltb (level_code level) (level_code warn_level)
held_back using level error = false
held_back using level raw = false

abbrev pub scoped : List ℕ → List ℕ → List ℕ
scoped prefix log = text "(" ++ prefix ++ text ") " ++ log

-- A call of a method of the logger at an address.
unfoldable pub call : Method → List ℕ → ℕ → List ℕ → Loggers → Result (List (Stream × List ℕ))
unfolding write held_back
call m time logger log [] = undefined null_pointer
call m time logger log (o ∷ os) = elim (logger == length os) [
  | false ↦ call m time logger log os
  | true ↦ elim o [
    | io_stream_logger level ↦ ok (write level m time log)
    | scoped_logger prefix below level using ↦ elim (held_back using level m) [
      | true ↦ ok []
      | false ↦ call m time below (scoped prefix log) os
    ]
  ]
]

abbrev pub with_level : LogLevel → LoggerObject → LoggerObject
with_level level (io_stream_logger old) = io_stream_logger level
with_level level (scoped_logger prefix below old using) = scoped_logger prefix below level true

unfoldable pub set_log_level : LogLevel → ℕ → Loggers → Loggers
set_log_level level logger [] = []
set_log_level level logger (o ∷ os) =
    let rest = set_log_level level logger os in
    if logger == length os then with_level level o ∷ os else o ∷ rest
