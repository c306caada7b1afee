-- ===== src/Kapuad/Startup.antt =====
-- examples/kapuad/main.cpp: when the program comes to run, and on which port.
use native.Mathlib.Nat.{mod-eq_of_lt}
use kapua.Prelude.{
  ℕ, suc, ◌^◌, ◌%◌, ◌<◌, ◌≡◌, refl, sym, ap, ◌∙◌, Bool, true, false, List, Option, none, some,
  arith, if◌then◌else◌,
}
use kapua.Prelude.Results.{Result, ok, throws, undefined}
use kapua.Text.{text, numeral}
use kapua.Logger.{debug_level}
use kapua.Address.{htons, htons-htons}
use kapua.Config.Stoi.{parse_port-numeral}
use kapua.Config.Load.{Config, yaml_text, new_config, to_server_port}
use kapua.Config.Sources.{desc, load_yaml, load_cmd_line}
use kapua.Config.Settled.{is_true, value_of}
use kapua.Config.Loaded.{load_yaml-yaml_stored}
use kapua.Config.Commanded.{IsProgramOptions, load_cmd_line-cmd_stored}
use kapua.UdpNetwork.Service.{start as start_network}
use kapua.Kapuad.{
  World, Program, prepare_keys, then_cmd_line, load_settings, start_parts, configured, startup,
}

then_cmd_line-true :
    (w : World) (x : Config × Result Bool)
    → is_true (then_cmd_line w x) ≡ true
    → (is_true x ≡ true)
      × (then_cmd_line w x ≡ load_cmd_line w.program_options w.inet_pton w.raw w.av x.0)
unfolding then_cmd_line
then_cmd_line-true w (c, ok true) h = (refl, refl)
then_cmd_line-true w (c, ok false) h = absurd (ground (arith, h))
then_cmd_line-true w (c, throws why) h = absurd (ground (arith, h))
then_cmd_line-true w (c, undefined why) h = absurd (ground (arith, h))

-- A start that goes on to run has loaded its settings, and has the network at the port in them.
configured-none :
    (w : World) (s t : Program) (x : Config × Result Bool)
    → s.network.is_running ≡ false
    → configured w s x ≡ ok (none, t)
    → (is_true x ≡ true)
      × (t.config ≡ x.0)
      × (t.stdlog_level ≡ x.0.logging_level)
      × (t.network.port ≡ htons x.0.server_ip4_sockaddr.sin_port % 65536)
      × (t.network.has_thread ≡ true)
unfolding configured start_parts start_network
configured-none w s t (c, ok true) idle h = ground (arith, idle, h)
configured-none w s t (c, ok false) idle h = absurd (ground (arith, h))
configured-none w s t (c, throws why) idle h = absurd (ground (arith, h))
configured-none w s t (c, undefined why) idle h = absurd (ground (arith, h))

-- The program when it comes to load its settings.
abbrev prepared : World → Program → Program
prepared w memory =
    prepare_keys w
      (record memory { stdlog_level = debug_level; config = new_config w.inet_pton memory.config })

configured_exit :
    (w : World) (s : Program) (x : Config × Result Bool) (b : Bool)
    → s.network.is_running ≡ false
    → x.1 ≡ ok b
    → (t : Program) × (configured w s x ≡ ok (if b then none else some 1, t))
unfolding configured start_parts start_network
configured_exit w s (c, ok true) b idle h =
    ((start_parts w (record s { config = c })).1, ground (arith, idle, h))
configured_exit w s (c, ok false) b idle h = (record s { config = c }, ground (arith, h))
configured_exit w s (c, throws why) b idle h = absurd (ground (arith, h))
configured_exit w s (c, undefined why) b idle h = absurd (ground (arith, h))

-- Where loading the settings (the file, and then, if that was loaded, the command line) ends in a
-- Boolean, `main` comes to its loop if that is true and returns `EXIT_FAILURE` if it is false: making
-- and loading the keys, which come before, decide nothing, and starting the parts does not fail.
pub startup_exit :
    (w : World) (memory : Program) (b : Bool)
    → memory.network.is_running ≡ false
    → (load_settings w (new_config w.inet_pton memory.config)).1 ≡ ok b
    → (s : Program) × (startup w memory ≡ ok (if b then none else some 1, s))
unfolding startup prepare_keys
startup_exit w memory b idle h =
    configured_exit w (prepared w memory) (load_settings w (new_config w.inet_pton memory.config)) b
      idle h

port_value :
    (raw : ℕ) (c : Config) (n v : ℕ) (found : Result (Option (List ℕ)))
    → found ≡ ok (some (numeral 10 (suc n) v))
    → v < 10 ^ suc n
    → v < 65536
    → value_of (to_server_port raw) found c ≡ htons v
port_value raw c n v found e digits is_port =
    let parsed = parse_port-numeral n v raw c.server_ip4_sockaddr.sin_port digits (omega arith) in
    rw (e, parsed, mod-eq_of_lt is_port) refl

module _ (w : World) (is_po : IsProgramOptions w.program_options) (doc : w.yaml.Document)
    (vm : w.program_options.VariablesMap) (loads : w.yaml.load_file (text "config.yaml") ≡ ok doc)
    (parses : w.program_options.parse_command_line desc w.av ≡ ok vm) (n v : ℕ)
    (given : yaml_text w.yaml doc (text "server") (text "port") ≡ ok (some (numeral 10 (suc n) v)))
    (digits : v < 10 ^ suc n) (is_port : v < 65536) where
  -- Settings that were loaded have the port of the file: the command line leaves it alone.
  loaded_port :
      (c : Config)
      → is_true (load_settings w c) ≡ true
      → (load_settings w c).0.server_ip4_sockaddr.sin_port ≡ htons v
  unfolding load_settings
  loaded_port c h =
      let x = load_yaml w.yaml w.inet_pton w.raw (text "config.yaml") c in
      let (yaml_true, same) = then_cmd_line-true w x h in
      let y = load_cmd_line w.program_options w.inet_pton w.raw w.av x.0 in
      let cmd_true : is_true y ≡ true = rw same at h in
      let stored =
        load_yaml-yaml_stored w.yaml w.inet_pton w.raw doc c (text "config.yaml") loads yaml_true in
      let kept =
        load_cmd_line-cmd_stored w.program_options is_po w.inet_pton w.raw w.av vm parses x.0
          cmd_true in
      ap (λ (z : Config × Result Bool). z.0.server_ip4_sockaddr.sin_port) same
      ∙ ap (λ (k : Config). k.server_ip4_sockaddr.sin_port) kept
      ∙ ap (λ (k : Config). k.server_ip4_sockaddr.sin_port) stored
      ∙ port_value w.raw c n v _ given digits is_port

  -- Where `main` comes to its loop, with a configuration file that gives a port between 0 and 65535 in
  -- decimal, the network has been started at that port, with a thread, whatever is on the command line,
  -- and the level of the program's logger is the configured one.
  pub startup_port :
      (memory s : Program)
      → memory.network.is_running ≡ false
      → startup w memory ≡ ok (none, s)
      → (s.network.port ≡ v)
        × (s.network.has_thread ≡ true)
        × (s.stdlog_level ≡ s.config.logging_level)
  unfolding startup prepare_keys
  startup_port memory s idle h =
      let c = new_config w.inet_pton memory.config in
      let (settings, config, level, port, thread) =
        configured-none w (prepared w memory) s (load_settings w c) idle h in
      let of_file : htons (load_settings w c).0.server_ip4_sockaddr.sin_port % 65536 ≡ v =
        rw (loaded_port c settings, htons-htons v is_port, mod-eq_of_lt is_port) refl in
      (port ∙ of_file, thread, level ∙ ap (λ (k : Config). k.logging_level) (sym config))
