-- ===== src/Config/Sources.antt =====
-- src/Config.cpp: `load_yaml` and `load_cmd_line`.
use kapua.Prelude.{ℕ, Bool, true, false, List, [], ◌∷◌, Option, none, some, if◌then◌else◌}
use kapua.Prelude.Results.{Result, ok, throws, undefined, ◌>>=◌}
use kapua.Text.{text}
use kapua.Config.Load.{
  Config, InetPton, Yaml, yaml_text, ◌▷◌, set, set_level, caught, to_logging_level,
  to_disable_splash, to_server_id, to_server_addr, to_server_port, to_discovery_enable,
  to_discovery_interval, to_memcached_enable, to_memcached_addr, to_memcached_port,
}

-- The settings of `load_yaml` in a document, `raw` being what the stack holds.
unfoldable pub yaml_settings :
    (y : Yaml) → InetPton → ℕ → y.Document → Config → Config × Result Bool
yaml_settings y inet_pton raw doc c =
    let given : List ℕ → List ℕ → Result (Option (List ℕ)) = yaml_text y doc in
    (c, ok true)
    ▷ set (given (text "logging") (text "level")) to_logging_level
    ▷ set_level
    ▷ set (given (text "logging") (text "disable_splash")) to_disable_splash
    ▷ set (given (text "server") (text "id")) to_server_id
    ▷ set (given (text "server") (text "ip4_address")) (to_server_addr inet_pton)
    ▷ set (given (text "server") (text "port")) (to_server_port raw)
    ▷ set (given (text "local_discovery") (text "enable")) to_discovery_enable
    ▷ set (given (text "local_discovery") (text "interval")) to_discovery_interval
    ▷ set (given (text "memcache") (text "enable")) to_memcached_enable
    ▷ set (given (text "memcache") (text "port")) (to_memcached_port raw)

unfoldable pub load_yaml : (y : Yaml) → InetPton → ℕ → List ℕ → Config → Config × Result Bool
load_yaml y inet_pton raw filename c = caught (elim (y.load_file filename) [
  | throws why ↦ (c, throws why)
  | undefined why ↦ (c, undefined why)
  | ok doc ↦ if y.is_map doc then yaml_settings y inet_pton raw doc c else (c, ok false)
])

-- What the value of a command line option is: none, `po::value<std::string>()`, or
-- `po::value<uint16_t>()`.
pub data ValueKind : Type 0 where
  no_value string_value uint16_value : ValueKind

-- Boost's program options: `po::parse_command_line`, stored in a map, `vm.count(name) != 0`, and
-- `vm[name].as<std::string>()`.
pub record ProgramOptions : Type 1 where
  pub VariablesMap : Type 0
  pub parse_command_line : List (List ℕ × ValueKind) → List (List ℕ) → Result VariablesMap
  pub count : VariablesMap → List ℕ → Bool
  pub as_string : VariablesMap → List ℕ → Result (List ℕ)

abbrev pub desc : List (List ℕ × ValueKind)
desc =
    (text "help", no_value)
    ∷ (text "server.id", string_value)
    ∷ (text "server.ip4_address", string_value)
    ∷ (text "server.port", uint16_value)
    ∷ (text "local_discovery.enable", string_value)
    ∷ (text "logging.level", string_value)
    ∷ (text "logging.disable_splash", string_value)
    ∷ []

abbrev pub option_text : (p : ProgramOptions) → p.VariablesMap → List ℕ → Result (Option (List ℕ))
option_text p vm name = elim (p.count vm name) [
  | false ↦ ok none
  | true ↦ do input ← p.as_string vm name; ok (some input)
]

unfoldable pub cmd_settings :
    (p : ProgramOptions) → InetPton → ℕ → p.VariablesMap → Config → Config × Result Bool
cmd_settings p inet_pton raw vm c =
    let given : List ℕ → Result (Option (List ℕ)) = option_text p vm in
    (c, ok true)
    ▷ set (given (text "logging.level")) to_logging_level
    ▷ set_level
    ▷ set (given (text "logging.disable_splash")) to_disable_splash
    ▷ set (given (text "server.id")) to_server_id
    ▷ set (given (text "server.ip4_address")) (to_server_addr inet_pton)
    ▷ set (given (text "server.port")) (to_server_port raw)
    ▷ set (given (text "local_discovery.enable")) to_discovery_enable
    ▷ set (given (text "local_discovery.interval")) to_discovery_interval
    ▷ set (given (text "memcache.enable")) to_memcached_enable
    ▷ set (given (text "memcache.ip4_address")) (to_memcached_addr inet_pton)
    ▷ set (given (text "memcache.port")) (to_memcached_port raw)

unfoldable pub load_cmd_line :
    (p : ProgramOptions) → InetPton → ℕ → List (List ℕ) → Config → Config × Result Bool
load_cmd_line p inet_pton raw av c = caught (elim (p.parse_command_line desc av) [
  | throws why ↦ (c, throws why)
  | undefined why ↦ (c, undefined why)
  | ok vm ↦ if p.count vm (text "help") then (c, ok false) else cmd_settings p inet_pton raw vm c
])
