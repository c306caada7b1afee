-- ===== src/Config/Samples.antt =====
-- Runs of the loaders of src/Config.cpp on small libraries, and their theorems at these.
use kapua.Prelude.{
  ℕ, ◌≡◌, refl, sym, subst, ◌≢◌, Bool, true, false, ◌&&◌, List, [], ◌∷◌, Option, none, some,
  if◌then◌else◌, arith,
}
use kapua.Prelude.Results.{Result, ok, throws, undefined, bad_any_cast, bad_file, IsOk, Undefined}
use kapua.Text.{text, text_eq, to_lower, is_xdigit, value}
use kapua.Address.{SockaddrHashable}
use kapua.Logger.{unknown_level, debug_level}
use kapua.Config.{pos, parse_log_level, parse_hex_uint64}
use kapua.Config.Load.{Config, InetPton, Yaml, yaml_text, caught, set, set_level, ◌▷◌}
use kapua.Config.Sources.{
  ValueKind, string_value, uint16_value, ProgramOptions, load_yaml, cmd_settings, load_cmd_line,
}
use kapua.Config.Settled.{is_true}
use kapua.Config.Loaded.{yaml_fine, load_yaml-yaml_fine}
use kapua.Config.Commanded.{
  kind_of, IsProgramOptions, load_cmd_line-cmd_fine, load_cmd_line-cmd_stored,
}
use kapua.Config.Survives.{Defined, load_yaml-IsOk}

-- One address is known.
abbrev pub inet_pton : InetPton
inet_pton input = if text_eq input (text "10.0.0.1") then some 16777226 else none

-- A document: a section, a key and a value for each setting.
abbrev pub Lines : Type 0
Lines = List (List ℕ × List ℕ × List ℕ)

abbrev pub lookup : Lines → List ℕ → List ℕ → Option (List ℕ)
lookup [] section key = none
lookup ((s, k, v) ∷ lines) section key =
    let rest = lookup lines section key in
    if text_eq s section && text_eq k key then some v else rest

abbrev pub file : Lines
file =
    (text "logging", text "level", text "Warn")
    ∷ (text "server", text "ip4_address", text "10.0.0.1")
    ∷ (text "server", text "port", text "80")
    ∷ (text "memcache", text "enable", text "yes")
    ∷ []

-- A library that reads one file.
abbrev pub yaml : Yaml
yaml = record {
  Document = Lines;
  Value = List ℕ;
  load_file = λ name. if text_eq name (text "config.yaml") then ok file else throws bad_file;
  is_map = λ doc. true;
  at = λ doc section key. ok (lookup doc section key);
  as_string = ok;
}

abbrev pub nowhere : SockaddrHashable
nowhere = record { sin_family = 0; sin_port = 0; sin_addr = 0 }

abbrev pub memory : Config
memory = record {
  server_id = 5;
  server_ip4_sockaddr = nowhere;
  server_port = 0;
  local_discovery_enable = false;
  local_discovery_ip4_address = nowhere;
  local_discovery_port = 0;
  local_discovery_interval_ms = pos 0;
  trackers_enable = false;
  trackers_servers = [];
  memcached_enable = false;
  memcached_ip4_sockaddr = nowhere;
  memcached_extensions = false;
  memcached_connection_limit = 0;
  memcached_inactivity_timeout_ms = 0;
  logging_level = unknown_level;
  logging_disable_splash = false;
  logger_level = none;
}

load_yaml-yaml_fine_example :
    is_true (load_yaml yaml inet_pton 0 (text "config.yaml") memory)
    ≡ (true && yaml_fine yaml inet_pton 0 file memory)
load_yaml-yaml_fine_example =
    load_yaml-yaml_fine yaml inet_pton 0 file memory (text "config.yaml") refl

file_of : (doc : Lines) → ok file ≡ ok doc → file ≡ doc
file_of doc e = cc

text_of_node :
    (found : Option (List ℕ)) (why : Undefined)
    → (elim found [ none ↦ ok none | some node ↦ ok (some node) ]) ≢ undefined why
text_of_node none why e = absurd (ground arith)
text_of_node (some node) why e = absurd (ground arith)

yaml_text-Defined : (doc : Lines) (section key : List ℕ) → Defined (yaml_text yaml doc section key)
yaml_text-Defined doc section key why e = text_of_node (lookup doc section key) why e

no_interval :
    (doc : Lines) (input : List ℕ)
    → ok file ≡ ok doc
    → yaml_text yaml doc (text "local_discovery") (text "interval") ≢ ok (some input)
no_interval doc input e given =
    let at_file : ok none ≡ ok (some input) =
      subst (λ d. yaml_text yaml d (text "local_discovery") (text "interval") ≡ ok (some input))
        (sym (file_of doc e)) given in
    absurd (ground (arith, at_file))

load_yaml-IsOk_example : IsOk ((load_yaml yaml inet_pton 0 (text "config.yaml") memory).1)
load_yaml-IsOk_example =
    load_yaml-IsOk yaml inet_pton 0 (text "config.yaml") memory (λ why e. ground arith)
      (λ doc section key e. yaml_text-Defined doc section key)
      (λ doc input ms e given. absurd (no_interval doc input e given))

-- Arguments: an option's name, its value, and so on.
abbrev pub argument : List ℕ → List (List ℕ) → Option (List ℕ)
argument name [] = none
argument name (n ∷ []) = none
argument name (n ∷ value ∷ av) =
    let rest = argument name av in if text_eq n name then some value else rest

abbrev pub is_given : Option (List ℕ) → Option ValueKind → Bool
is_given none kind = false
is_given (some value) none = false
is_given (some value) (some kind) = true

abbrev pub as_text : Option (List ℕ) → Option ValueKind → Result (List ℕ)
as_text (some value) (some string_value) = ok value
as_text value kind = throws bad_any_cast

-- Program options that keep the description and the arguments, and ignore what is not described.
abbrev pub program_options : ProgramOptions
program_options = record {
  VariablesMap = List (List ℕ × ValueKind) × List (List ℕ);
  parse_command_line = λ options av. ok (options, av);
  count = λ vm name. is_given (argument name vm.1) (kind_of name vm.0);
  as_string = λ vm name. as_text (argument name vm.1) (kind_of name vm.0);
}

is_given-none : (value : Option (List ℕ)) → is_given value none ≡ false
is_given-none none = refl
is_given-none (some value) = refl

as_text_uint16 : (value : Option (List ℕ)) → as_text value (some uint16_value) ≡ throws bad_any_cast
as_text_uint16 none = refl
as_text_uint16 (some value) = refl

options_of :
    (options : List (List ℕ × ValueKind)) (av : List (List ℕ)) (vm : program_options.VariablesMap)
    → ok (options, av) ≡ ok vm
    → vm.0 ≡ options
options_of options av vm e = cc

pub program_options-IsProgramOptions : IsProgramOptions program_options
program_options-IsProgramOptions = record {
  described = λ options av vm name e k.
      subst (λ o. is_given (argument name vm.1) (kind_of name o) ≡ false)
        (sym (options_of options av vm e)) (rw k (is_given-none (argument name vm.1)));
  typed = λ options av vm name e k given.
      subst (λ o. as_text (argument name vm.1) (kind_of name o) ≡ throws bad_any_cast)
        (sym (options_of options av vm e)) (rw k (as_text_uint16 (argument name vm.1)));
}

abbrev pub arguments : List (List ℕ)
arguments = text "logging.level" ∷ text "debug" ∷ text "server.id" ∷ text "0x00000000000000ff" ∷ []

load_cmd_line-cmd_fine_example :
    is_true (load_cmd_line program_options inet_pton 0 (text "server.port" ∷ text "80" ∷ []) memory)
    ≡ false
load_cmd_line-cmd_fine_example =
    load_cmd_line-cmd_fine program_options program_options-IsProgramOptions inet_pton 0
      (text "server.port" ∷ text "80" ∷ []) _ refl memory

load_cmd_line-cmd_stored_example :
    (load_cmd_line program_options inet_pton 0 arguments memory).0 ≡ record memory {
      server_id = 255;
      logging_level = debug_level;
      logger_level = some debug_level;
    }
unfolding load_cmd_line caught cmd_settings ◌▷◌ set set_level parse_log_level to_lower
    parse_hex_uint64 is_xdigit value
load_cmd_line-cmd_stored_example =
    load_cmd_line-cmd_stored program_options program_options-IsProgramOptions inet_pton 0 arguments
      _ refl memory refl
