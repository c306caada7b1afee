-- ===== src/Logger/Levels.antt =====
-- src/Logger.cpp: which loggers a change of level concerns.
use kapua.Prelude.{ℕ, ◌≡◌, refl, Bool, true, false, ◌||◌, List, [], ◌∷◌, ◌==◌, length, arith}
use kapua.Logger.{
  LogLevel, Method, io_stream_logger, scoped_logger, Loggers, scoped, call, set_log_level,
}

-- A line given to one logger may go through another.
abbrev pub reaches : ℕ → ℕ → Loggers → Bool
reaches from to [] = false
reaches from to (o ∷ os) = elim (from == length os) [
  | false ↦ reaches from to os
  | true ↦ (to == length os) || elim o [
    | io_stream_logger level ↦ false
    | scoped_logger prefix below level using ↦ reaches below to os
  ]
]

length-set_log_level :
    (level : LogLevel) (logger : ℕ) (os : Loggers)
    → length (set_log_level level logger os) ≡ length os
unfolding set_log_level
length-set_log_level level logger [] = refl
length-set_log_level level logger (o ∷ os) = ground (arith, length-set_log_level level logger os)

-- Setting the level of a logger changes nothing for the loggers that do not write through it, the
-- ones below it among them: a call of any method of those writes what it would have written before.
pub call-set_log_level :
    (level : LogLevel) (m : Method) (time : List ℕ) (from to : ℕ) (log : List ℕ) (os : Loggers)
    → reaches from to os ≡ false
    → call m time from log (set_log_level level to os) ≡ call m time from log os
unfolding set_log_level call
call-set_log_level level m time from to log [] h = refl
call-set_log_level level m time from to log (io_stream_logger old ∷ os) h =
    ground (arith, length-set_log_level level to os, call-set_log_level level m time from to log os)
call-set_log_level level m time from to log (scoped_logger prefix below old using ∷ os) h = ground (
  arith,
  length-set_log_level level to os,
  call-set_log_level level m time from to log os,
  call-set_log_level level m time below to (scoped prefix log) os,
)
