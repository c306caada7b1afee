-- ===== src/Kapuad/Tests.antt =====
-- examples/kapuad/main.cpp: starts of the program, and the theorems on them there.
use kapua.Prelude.{ℕ, ◌≡◌, refl, true, false, [], ◌∷◌, none, some, Option, arith}
use kapua.Prelude.Results.{Result, ok}
use kapua.Text.{text, to_lower, is_space, is_digit, is_xdigit, value, digit_value, numeral}
use kapua.Address.{htons}
use kapua.Config.{
  parse_log_level, parse_port, parse_bool, parse_hex_uint64, fits_int, leading_digits, parse_uint16,
  read_sign, skip_spaces, stoi, to_uint16, without_0x,
}
use kapua.Config.Load.{caught, ◌▷◌, set, set_level, parse_ipv4, conjoin, new_config}
use kapua.Config.Sources.{load_yaml, yaml_settings, load_cmd_line, cmd_settings}
use kapua.Core.{start}
use kapua.Rsa.{finish_load, load_private, load_rsa_key_pair}
use kapua.Rsa.Generation.{generate_rsa_key_pair, generated, key_file, load_saved, save}
use kapua.Logger.{unknown_level}
use kapua.Core.Tests.{empty}
use kapua.Rsa.Tests.{pem, key_generation, permissions, no_files}
use kapua.Config.Samples.{
  inet_pton, file, yaml, memory, program_options, program_options-IsProgramOptions, arguments,
}
use kapua.UdpNetwork.Service.{Service, start as start_network}
use kapua.Kapuad.{
  continues, exits, signal_stop, World, Program, startup, load_settings, prepare_keys, configured,
  start_parts, then_cmd_line,
}
use kapua.Kapuad.Startup.{startup_exit, startup_port}

two_signals :
    (signal_stop (record { running = true; stopping = false })
      ≡ continues (record { running = false; stopping = true }))
    × (signal_stop (record { running = false; stopping = true }) ≡ exits 1)
unfolding signal_stop
two_signals = (refl, refl)

abbrev world : World
world = record {
  key_generation = key_generation;
  pem = pem;
  permissions = permissions;
  yaml = yaml;
  program_options = program_options;
  inet_pton = inet_pton;
  raw = 0;
  av = arguments;
  random_id = 7;
}

abbrev idle_network : Service
idle_network = record {
  is_running = false;
  port = 0;
  socket = none;
  closed = [];
  has_thread = false;
}

abbrev blank : Program
blank = record {
  stdlog_level = unknown_level;
  config = memory;
  core = empty;
  network = idle_network;
  files = no_files;
}

-- What a start comes to, or `other`.
abbrev reached : Program → Result (Option ℕ × Program) → Program
reached other (ok (code, s)) = s
reached other _ = other

abbrev running_program : Program
running_program = reached blank (startup world blank)

starts : startup world blank ≡ ok (none, running_program)
unfolding startup load_yaml caught yaml_settings ◌▷◌ set set_level parse_log_level to_lower
    parse_ipv4 parse_port is_space is_digit value parse_bool load_cmd_line cmd_settings
    parse_hex_uint64 htons conjoin new_config fits_int leading_digits parse_uint16 read_sign
    skip_spaces stoi to_uint16 without_0x start configured load_settings prepare_keys start_parts
    then_cmd_line generate_rsa_key_pair generated key_file load_saved save finish_load load_private
    load_rsa_key_pair digit_value is_xdigit start_network
starts = refl

startup_port_example : running_program.network.port ≡ 80
unfolding numeral
startup_port_example =
    (startup_port world program_options-IsProgramOptions file _ refl refl 1 80 refl (omega arith)
      (omega arith) blank running_program refl starts).0

startup_exit_run :
    (s : Program) × (startup (record world { av = text "help" ∷ text "" ∷ [] }) blank
      ≡ ok (some 1, s))
unfolding load_settings load_yaml caught yaml_settings ◌▷◌ set set_level parse_log_level to_lower
    parse_ipv4 parse_port is_space is_digit value parse_bool load_cmd_line
startup_exit_run =
    startup_exit (record world { av = text "help" ∷ text "" ∷ [] }) blank false refl refl
