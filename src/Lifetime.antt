-- ===== src/Lifetime.antt =====
-- The constructors and destructors in src/Settings.cpp, src/MemcachedServer.cpp, src/Config.cpp, src/RSA.cpp,
-- src/Core.cpp and src/UDPNetwork.cpp, each of which makes a logger of its own, and what Settings does
-- besides. The address of a deleted logger is kept, so that a use of it shows. What else the objects hold is in
-- the modules of their classes.
pub mod Objects
pub mod Nested
mod Tests
use kapua.Prelude.{
  ℕ, Bool, true, false, List, [], ◌∷◌, ◌++◌, elem, all, not, ◌==◌, length, if◌then◌else◌,
}
use kapua.Prelude.Results.{Result, ok, undefined, use_after_free, ◌>>=◌}
use kapua.Text.{text}
use kapua.Logger.{
  LogLevel, Method, debug, Stream, io_stream_logger, scoped_logger, Loggers, new_scoped_logger,
  held_back, call,
}
use kapua.UdpNetwork.Service.{Service, shutdown, joined, stop}

pub record Heap : Type 0 where
  pub loggers : Loggers
  pub deleted : List ℕ
  pub lines : List (Stream × List ℕ)

-- The loggers that a call goes through.
abbrev pub touched : Method → ℕ → Loggers → List ℕ
touched m logger [] = []
touched m logger (o ∷ os) = elim (logger == length os) [
  | false ↦ touched m logger os
  | true ↦ elim o [
    | io_stream_logger level ↦ logger ∷ []
    | scoped_logger prefix below level using ↦ elim (held_back using level m) [
      | true ↦ logger ∷ []
      | false ↦ logger ∷ touched m below os
    ]
  ]
]

abbrev pub is_live : Heap → ℕ → Bool
is_live h logger = not (elem logger h.deleted)

-- A call of a logger's method.
unfoldable pub log : Method → List ℕ → ℕ → List ℕ → Heap → Result Heap
log m time logger what h =
    if not (all (is_live h) (touched m logger h.loggers))
    then undefined use_after_free
    else do out ← call m time logger what h.loggers; ok (record h { lines = h.lines ++ out })

-- `new ScopedLogger(prefix, logger)`; `level` is what the memory held.
unfoldable pub new_logger : List ℕ → ℕ → LogLevel → Heap → ℕ × Heap
new_logger prefix logger level h =
    let (address, loggers) = new_scoped_logger prefix logger level h.loggers in
    (address, record h { loggers = loggers })

-- `delete _logger`
unfoldable pub delete_logger : ℕ → Heap → Result Heap
delete_logger logger h =
    if is_live h logger
    then ok (record h { deleted = logger ∷ h.deleted })
    else undefined use_after_free

unfoldable pub new_settings : ℕ → LogLevel → Heap → ℕ × Heap
unfolding new_logger
new_settings logger level h = new_logger (text "Settings") logger level h

unfoldable pub delete_settings : ℕ → Heap → Result Heap
unfolding delete_logger
delete_settings logger h = delete_logger logger h

-- `load` and `save` with the member `_filename`; neither looks at its argument.
unfoldable pub settings_load : List ℕ → ℕ → List ℕ → List ℕ → Heap → Result (Bool × Heap)
unfolding log
settings_load time logger member filename h = do
  h' ← log debug time logger (text "Loading Settings file " ++ member) h
  ok (true, h')

unfoldable pub settings_save : List ℕ → ℕ → List ℕ → List ℕ → Heap → Result (Bool × Heap)
unfolding log
settings_save time logger member filename h = do
  h' ← log debug time logger (text "Saving Settings file " ++ member) h
  ok (true, h')

unfoldable pub new_memcached_server : ℕ → LogLevel → Heap → ℕ × Heap
unfolding new_logger
new_memcached_server logger level h = new_logger (text "Settingsuration") logger level h

unfoldable pub delete_memcached_server : ℕ → Heap → Result Heap
unfolding delete_logger
delete_memcached_server logger h = delete_logger logger h

unfoldable pub new_config_logger : ℕ → LogLevel → Heap → ℕ × Heap
unfolding new_logger
new_config_logger logger level h = new_logger (text "Configuration") logger level h

unfoldable pub config_dump : List ℕ → ℕ → Heap → Result (Bool × Heap)
unfolding log
config_dump time logger h = do h' ← log debug time logger (text "Printing config") h; ok (true, h')

unfoldable pub delete_config : ℕ → Heap → Result Heap
unfolding delete_logger
delete_config logger h = delete_logger logger h

unfoldable pub new_rsa : ℕ → LogLevel → Heap → ℕ × Heap
unfolding new_logger
new_rsa logger level h = new_logger (text "RSA") logger level h

unfoldable pub delete_rsa : ℕ → Heap → Result Heap
unfolding delete_logger
delete_rsa logger h = delete_logger logger h

unfoldable pub new_core : ℕ → LogLevel → Heap → ℕ × Heap
unfolding new_logger
new_core logger level h = new_logger (text "Core") logger level h

-- The destructor of `Core` behind its loop over the nodes: a line, and the logger stays.
unfoldable pub delete_core : List ℕ → ℕ → Heap → Result Heap
unfolding log
delete_core time logger h = log debug time logger (text "Stopped") h

-- `_running` is cleared; what the other members are is what the memory held.
unfoldable pub new_network : ℕ → LogLevel → Service → Heap → (ℕ × Service) × Heap
unfolding new_logger
new_network logger level memory h =
    let (address, h') = new_logger (text "UDPNetwork") logger level h in
    ((address, record memory { is_running = false }), h')

-- A network that runs is stopped first; its thread closes the socket on its way out.
unfoldable pub delete_network : ℕ → Service → Heap → Result (Service × Heap)
unfolding delete_logger
delete_network logger s h =
    let s' = if s.is_running then joined (shutdown (stop s).1) else s in
    do h' ← delete_logger logger h; ok (s', h')
