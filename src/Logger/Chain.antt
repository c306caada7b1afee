-- ===== src/Logger/Chain.antt =====
-- src/Logger.cpp: what becomes of a line on its way through the loggers below the one it is given to,
-- and what a change of level changes.
use kapua.Prelude.{
  ℕ, suc, ◌<◌, ◌≡◌, refl, ap, sym, ◌∙◌, Bool, true, false, not, ◌&&◌, List, [], ◌∷◌, ltb, ◌==◌,
  if◌then◌else◌, length, arith, Bool-cases, inl, inr,
}
use kapua.Prelude.Results.{ok}
use kapua.Logger.{
  LogLevel, debug_level, level_code, Method, raw, debug, info, warn, error, Stream, LoggerObject,
  io_stream_logger, scoped_logger, Loggers, write, held_back, scoped, call,
}

-- Every logger writes to one that was there before it.
abbrev pub WellFounded : Loggers → Type 0
WellFounded [] = Unit {0}
WellFounded (io_stream_logger level ∷ os) = WellFounded os
WellFounded (scoped_logger prefix below level using ∷ os) = (below < length os) × WellFounded os

-- The loggers that a line given to the logger at an address may go through, that one first.
abbrev pub chain : ℕ → Loggers → List LoggerObject
chain logger [] = []
chain logger (o ∷ os) = elim (logger == length os) [
  | false ↦ chain logger os
  | true ↦ elim o [
    | io_stream_logger level ↦ io_stream_logger level ∷ []
    | scoped_logger prefix below level using ↦
        scoped_logger prefix below level using ∷ chain below os
  ]
]

abbrev pub threshold : Method → ℕ
threshold raw = 0
threshold error = 0
threshold warn = 1
threshold info = 2
threshold debug = 3

-- The level of a logger admits a method.
abbrev pub admits : Method → LoggerObject → Bool
admits m (io_stream_logger level) = not (ltb (level_code level) (threshold m))
admits m (scoped_logger prefix below level false) = true
admits m (scoped_logger prefix below level true) = not (ltb (level_code level) (threshold m))

abbrev pub all_admit : Method → List LoggerObject → Bool
all_admit m [] = true
all_admit m (o ∷ os) = admits m o && all_admit m os

-- The line as it reaches the stream: each logger puts its prefix in front of those before it.
abbrev pub decorated : List LoggerObject → List ℕ → List ℕ
decorated [] log = log
decorated (io_stream_logger level ∷ os) log = decorated os log
decorated (scoped_logger prefix below level using ∷ os) log = decorated os (scoped prefix log)

write-admits :
    (level : LogLevel) (m : Method) (time log : List ℕ)
    → write level m time log
      ≡ (if admits m (io_stream_logger level) then write debug_level m time log else [])
unfolding write
write-admits level raw time log = ground arith
write-admits level error time log = ground arith
write-admits level debug time log = ground arith
write-admits level info time log = ground arith
write-admits level warn time log = ground arith

held_back-admits :
    (prefix : List ℕ) (below : ℕ) (level : LogLevel) (using : Bool) (m : Method)
    → held_back using level m ≡ not (admits m (scoped_logger prefix below level using))
unfolding held_back
held_back-admits prefix below level false raw = refl
held_back-admits prefix below level false error = refl
held_back-admits prefix below level false warn = refl
held_back-admits prefix below level false info = refl
held_back-admits prefix below level false debug = refl
held_back-admits prefix below level true raw = ground arith
held_back-admits prefix below level true error = ground arith
held_back-admits prefix below level true warn = ground arith
held_back-admits prefix below level true info = ground arith
held_back-admits prefix below level true debug = ground arith

-- What the theorem below says of one logger.
abbrev written : Method → List ℕ → List LoggerObject → List ℕ → List (Stream × List ℕ)
written m time through log =
    if all_admit m through then write debug_level m time (decorated through log) else []

written_stream :
    (level : LogLevel) (m : Method) (time log : List ℕ)
    → write level m time log ≡ written m time (io_stream_logger level ∷ []) log
written_stream level m time log =
    write-admits level m time log ∙ elim (Bool-cases (admits m (io_stream_logger level))) [
      | inl e ↦ rw e refl
      | inr e ↦ rw e refl
    ]

written_here :
    (m : Method) (time log : List ℕ) (prefix : List ℕ) (below : ℕ) (level : LogLevel) (using : Bool)
    (through : List LoggerObject)
    → (if held_back using level m then [] else written m time through (scoped prefix log))
      ≡ written m time (scoped_logger prefix below level using ∷ through) log
written_here m time log prefix below level using through =
    rw (held_back-admits prefix below level using m)
      (elim (Bool-cases (admits m (scoped_logger prefix below level using))) [
        | inl e ↦ rw e refl
        | inr e ↦ rw e refl
      ])

behind :
    (logger : ℕ) (os : Loggers)
    → logger < suc (length os)
    → (logger == length os) ≡ false
    → logger < length os
behind logger os h e = ground (arith, e, h)

chain_behind :
    (o : LoggerObject) (logger : ℕ) (os : Loggers)
    → (logger == length os) ≡ false
    → chain logger (o ∷ os) ≡ chain logger os
chain_behind o logger os e = rw (chain, e) refl

chain_stream :
    (level : LogLevel) (logger : ℕ) (os : Loggers)
    → (logger == length os) ≡ true
    → chain logger (io_stream_logger level ∷ os) ≡ io_stream_logger level ∷ []
chain_stream level logger os e = rw (chain, e) refl

chain_scoped :
    (prefix : List ℕ) (below : ℕ) (level : LogLevel) (using : Bool) (logger : ℕ) (os : Loggers)
    → (logger == length os) ≡ true
    → chain logger (scoped_logger prefix below level using ∷ os)
      ≡ scoped_logger prefix below level using ∷ chain below os
chain_scoped prefix below level using logger os e = rw (chain, e) refl

call_behind :
    (o : LoggerObject) (m : Method) (time : List ℕ) (logger : ℕ) (log : List ℕ) (os : Loggers)
    → (logger == length os) ≡ false
    → call m time logger log (o ∷ os) ≡ call m time logger log os
unfolding call
call_behind o m time logger log os e = rw (call, e) refl

call_stream :
    (level : LogLevel) (m : Method) (time : List ℕ) (logger : ℕ) (log : List ℕ) (os : Loggers)
    → (logger == length os) ≡ true
    → call m time logger log (io_stream_logger level ∷ os) ≡ ok (write level m time log)
unfolding call write
call_stream level m time logger log os e = rw (call, e) refl

call-scoped :
    (prefix : List ℕ) (below : ℕ) (level : LogLevel) (using : Bool) (m : Method) (time : List ℕ)
    (logger : ℕ) (log : List ℕ) (os : Loggers) (lines : List (Stream × List ℕ))
    → (logger == length os) ≡ true
    → call m time below (scoped prefix log) os ≡ ok lines
    → call m time logger log (scoped_logger prefix below level using ∷ os)
      ≡ ok (if held_back using level m then [] else lines)
unfolding call held_back
call-scoped prefix below level using m time logger log os lines e inner =
    elim (Bool-cases (held_back using level m)) [
      | inl h ↦ rw (call, e, h) refl
      | inr h ↦ rw (call, e, h) inner
    ]

-- Where every logger writes to one that was there before it, every call of
-- a method of an existing logger returns, and writes one line, on the stream and with the tag of the
-- method and with the prefixes of all scoped loggers that it goes through, the innermost first, if
-- the level of every logger on its way that has one admits the method; else it writes nothing.
pub call-chain :
    (m : Method) (time : List ℕ) (logger : ℕ) (log : List ℕ) (os : Loggers)
    → WellFounded os
    → logger < length os
    → call m time logger log os
      ≡ ok (
          if all_admit m (chain logger os)
          then write debug_level m time (decorated (chain logger os) log)
          else [])
call-chain m time logger log [] w h = absurd (omega arith)
call-chain m time logger log (io_stream_logger level ∷ os) w h =
    elim (Bool-cases (logger == length os)) [
      | inl e ↦
          call_stream level m time logger log os e
          ∙ ap ok (written_stream level m time log)
          ∙ ap (λ through. ok (written m time through log)) (sym (chain_stream level logger os e))
      | inr e ↦
          call_behind _ m time logger log os e
          ∙ call-chain m time logger log os w (behind logger os h e)
          ∙ ap (λ through. ok (written m time through log))
              (sym (chain_behind (io_stream_logger level) logger os e))
    ]
call-chain m time logger log (scoped_logger prefix below level using ∷ os) w h =
    elim (Bool-cases (logger == length os)) [
      | inl e ↦
          call-scoped prefix below level using m time logger log os _ e
            (call-chain m time below (scoped prefix log) os w.1 w.0)
          ∙ ap ok (written_here m time log prefix below level using (chain below os))
          ∙ ap (λ through. ok (written m time through log))
              (sym (chain_scoped prefix below level using logger os e))
      | inr e ↦
          call_behind _ m time logger log os e
          ∙ call-chain m time logger log os w.1 (behind logger os h e)
          ∙ ap (λ through. ok (written m time through log))
              (sym (chain_behind (scoped_logger prefix below level using) logger os e))
    ]
