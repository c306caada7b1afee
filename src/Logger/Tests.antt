-- ===== src/Logger/Tests.antt =====
-- Runs of the loggers of src/Logger.cpp, and their theorems at concrete loggers.
use kapua.Prelude.{◌≡◌, refl, [], ◌∷◌, ◌++◌, if◌then◌else◌, arith}
use kapua.Prelude.Results.{ok}
use kapua.Text.{text}
use kapua.Logger.Chain.{chain, all_admit, decorated, call-chain}
use kapua.Logger.Levels.{call-set_log_level}
use kapua.Logger.{
  warn_level, info_level, debug_level, unknown_level, debug, info, cout, cerr, error, Loggers,
  new_io_stream_logger, new_scoped_logger, new_scoped_logger_at, write, held_back, call,
  set_log_level,
}

-- A stream logger, a logger on it with its own level, one on that without, and one on the first.
abbrev loggers : Loggers
loggers =
    (new_scoped_logger (text "C") 0 unknown_level
      (new_scoped_logger (text "B") 1 unknown_level
        (new_scoped_logger_at (text "A") 0 info_level
          (new_io_stream_logger debug_level []).1).1).1).1

prefixes_nest :
    call info (text "now") 2 (text "on") loggers
    ≡ ok ((cout, text "now [INFO ] (A) (B) on" ++ 10 ∷ []) ∷ [])
unfolding call write held_back
prefixes_nest = refl

debug_stops : call debug (text "now") 2 (text "on") loggers ≡ ok []
unfolding call write held_back
debug_stops = refl

errors_pass :
    call error (text "now") 2 (text "on") (set_log_level warn_level 0 loggers)
    ≡ ok ((cerr, text "now [ERROR] (A) (B) on" ++ 10 ∷ []) ∷ [])
unfolding call write held_back set_log_level
errors_pass = refl

call-chain_example :
    call info (text "now") 2 (text "on") loggers
    ≡ ok (
        if all_admit info (chain 2 loggers)
        then write debug_level info (text "now") (decorated (chain 2 loggers) (text "on"))
        else [])
call-chain_example =
    call-chain info (text "now") 2 (text "on") loggers
      (omega arith, (omega arith, (omega arith, tt))) (omega arith)

call-set_log_level_example :
    call debug (text "now") 3 (text "on") (set_log_level warn_level 1 loggers)
    ≡ call debug (text "now") 3 (text "on") loggers
call-set_log_level_example =
    call-set_log_level warn_level debug (text "now") 3 1 (text "on") loggers refl
