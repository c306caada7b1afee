-- ===== src/Kapuad.antt =====
-- examples/kapuad/main.cpp: the program that puts the parts together.
pub mod Startup
mod Tests
use kapua.Prelude.{ℕ, Bool, true, false, not, List, [], ◌∷◌, Option, none, some, if◌then◌else◌}
use kapua.Prelude.Results.{Result, ok, throws, undefined, ◌>>=◌}
use kapua.Text.{text}
use kapua.Address.{htons}
use kapua.Logger.{LogLevel, debug_level}
use kapua.Node.{KeyPair}
use kapua.Rsa.Generation.{Files, KeyGeneration, Pem, Permissions, generate_rsa_key_pair, load_saved}
use kapua.Config.Load.{Config, InetPton, Yaml, new_config}
use kapua.Config.Sources.{ProgramOptions, load_yaml, load_cmd_line}
use kapua.Core.{Core}
use kapua.Core.{start}
use kapua.UdpNetwork.Service.{
  Service, start as start_network, stop as stop_network, shutdown, joined,
}

-- `running` and `stopping`.
pub record Flags : Type 0 where
  pub running : Bool
  pub stopping : Bool

-- `signal_stop`: the flags, or the code that the process exits with.
pub data Signalled : Type 0 where
  continues : Flags → Signalled
  exits : ℕ → Signalled

unfoldable pub signal_stop : Flags → Signalled
signal_stop f =
    if not f.stopping then continues (record f { running = false; stopping = true }) else exits 1

-- The environment of a run: OpenSSL, the file system, the libraries, the arguments, and what
-- uninitialised memory holds.
pub record World : Type 1 where
  pub key_generation : KeyGeneration
  pub pem : Pem
  pub permissions : Permissions
  pub yaml : Yaml
  pub program_options : ProgramOptions
  pub inet_pton : InetPton
  pub raw : ℕ
  pub av : List (List ℕ)
  pub random_id : ℕ

-- The objects of `main`, with the files.
pub record Program : Type 0 where
  pub stdlog_level : LogLevel
  pub config : Config
  pub core : Core
  pub network : Service
  pub files : Files

abbrev pub public_pem : List ℕ
public_pem = text "public.pem"

abbrev pub private_pem : List ℕ
private_pem = text "private.pem"

-- `std::ifstream(name).good()`
abbrev pub is_good : Permissions → List ℕ → Files → Bool
is_good may name files = elim (files name) [ none ↦ false | some contents ↦ may.readable name ]

-- The keys: made if there is no private one, then loaded. Neither result is looked at.
unfoldable pub prepare_keys : World → Program → Program
prepare_keys w s =
    let files =
      if is_good w.permissions private_pem s.files
      then s.files
      else (generate_rsa_key_pair w.key_generation w.pem w.permissions public_pem private_pem 2048
          s.files).1 in
    record s {
      files = files;
      core = record s.core {
        keys = (load_saved w.pem w.permissions public_pem private_pem files).pair;
      };
    }

-- The configuration: the file, then the command line, if the file was loaded.
unfoldable pub then_cmd_line : World → Config × Result Bool → Config × Result Bool
then_cmd_line w (c, ok true) = load_cmd_line w.program_options w.inet_pton w.raw w.av c
then_cmd_line w (c, ok false) = (c, ok false)
then_cmd_line w (c, throws why) = (c, throws why)
then_cmd_line w (c, undefined why) = (c, undefined why)

unfoldable pub load_settings : World → Config → Config × Result Bool
unfolding then_cmd_line
load_settings w c = then_cmd_line w (load_yaml w.yaml w.inet_pton w.raw (text "config.yaml") c)

-- `core.start()`, which always returns true, and the start of the network; then the program runs, or
-- returns `EXIT_FAILURE`.
unfoldable pub start_parts : World → Program → Option ℕ × Program
start_parts w s =
    let t = record s { stdlog_level = s.config.logging_level; core = start w.random_id s.core } in
    let (started, network) =
      start_network (htons s.config.server_ip4_sockaddr.sin_port) t.network in
    if not started then (some 1, t) else (none, record t { network = network })

unfoldable pub configured : World → Program → Config × Result Bool → Result (Option ℕ × Program)
unfolding start_parts
configured w s (c, ok true) = ok (start_parts w (record s { config = c }))
configured w s (c, ok false) = ok (some 1, record s { config = c })
configured w s (c, throws why) = throws why
configured w s (c, undefined why) = undefined why

-- `main` up to the loop that waits for a signal: the exit code, where it returns before.
unfoldable pub startup : World → Program → Result (Option ℕ × Program)
unfolding prepare_keys load_settings configured
startup w memory =
    let s = prepare_keys w (record memory {
      stdlog_level = debug_level;
      config = new_config w.inet_pton memory.config;
    }) in
    configured w s (load_settings w s.config)

-- `main` behind that loop: the network is stopped, which waits for its thread if that is in its loop,
-- and the thread closes the socket on its way out. The core is not stopped.
unfoldable pub finish : Program → ℕ × Program
finish s =
    let (stopped, network) = stop_network s.network in
    (0, record s { network = if stopped then joined (shutdown network) else network })
