-- ===== src/Config/Commanded.antt =====
-- src/Config.cpp: what `load_cmd_line` comes to as a whole, with program options that behave as Boost
-- documents them.
use kapua.Prelude.{
  ℕ, ◌≡◌, refl, sym, ◌∙◌, subst, Bool, true, false, not, ◌&&◌, List, [], ◌∷◌, Option, none, some,
  arith, if◌then◌else◌, Bool-cases, inl, inr,
}
use kapua.Prelude.Results.{Result, ok, throws, undefined, bad_any_cast, Exception}
use kapua.Text.{text, text_eq}
use kapua.Config.Load.{
  Config, InetPton, Field, with_addr, ◌▷◌, set, caught, to_logging_level, to_disable_splash,
  to_server_id, to_server_addr, to_server_port, to_discovery_enable, to_discovery_interval,
  to_memcached_enable, to_memcached_addr, to_memcached_port,
}
use kapua.Config.Sources.{
  ValueKind, uint16_value, ProgramOptions, desc, option_text, cmd_settings, load_cmd_line,
}
use kapua.Config.Settled.{
  is_true, fine, value_of, Settles, Settles-set, Settles-set_level, Settles-caught,
}
use kapua.Config.Loaded.{all_true}

abbrev pub kind_of : List ℕ → List (List ℕ × ValueKind) → Option ValueKind
kind_of name [] = none
kind_of name ((n, kind) ∷ options) =
    let rest = kind_of name options in if text_eq n name then some kind else rest

-- What Boost documents: the map has no option that is not described, and the value of one described
-- with `po::value<uint16_t>()` is no `std::string`.
pub record IsProgramOptions (p : ProgramOptions) : Type 0 where
  pub described :
      (options : List (List ℕ × ValueKind)) (av : List (List ℕ)) (vm : p.VariablesMap)
      (name : List ℕ)
      → p.parse_command_line options av ≡ ok vm
      → kind_of name options ≡ none
      → p.count vm name ≡ false
  pub typed :
      (options : List (List ℕ × ValueKind)) (av : List (List ℕ)) (vm : p.VariablesMap)
      (name : List ℕ)
      → p.parse_command_line options av ≡ ok vm
      → kind_of name options ≡ some uint16_value
      → p.count vm name ≡ true
      → p.as_string vm name ≡ throws bad_any_cast

and_true : (b : Bool) → (b && true) ≡ b
and_true true = refl
and_true false = refl

module _ {V : Type 0} (field : Field V) where
  set_absent : (x : Config × Result Bool) → (x ▷ set (ok none) field) ≡ x
  unfolding ◌▷◌ set
  set_absent (c, ok b) = refl
  set_absent (c, throws why) = refl
  set_absent (c, undefined why) = refl

  Settles-absent :
      (found : Result (Option (List ℕ))) (x : Config × Result Bool) {c : Config} {b : Bool}
      → found ≡ ok none
      → Settles x c b
      → Settles (x ▷ set found field) c b
  Settles-absent found x {c} {b} e s = rw e (subst (λ z. Settles z c b) (sym (set_absent x)) s)

  set_refused :
      (why : Exception) (x : Config × Result Bool) → is_true (x ▷ set (throws why) field) ≡ false
  unfolding ◌▷◌ set
  set_refused why (c, ok b) = refl
  set_refused why (c, throws w) = refl
  set_refused why (c, undefined w) = refl

  Settles-refused :
      (found : Result (Option (List ℕ))) (x : Config × Result Bool) (why : Exception) (c : Config)
      (b : Bool)
      → found ≡ throws why
      → Settles (x ▷ set found field) c (b && false)
  Settles-refused found x why c b e = rw e (and_false b)
    where
      and_false : (b : Bool) → Settles (x ▷ set (throws why) field) c (b && false)
      and_false true = (set_refused why x, λ n. absurd (ground (arith, n)))
      and_false false = (set_refused why x, λ n. absurd (ground (arith, n)))

module _ (p : ProgramOptions) (is_po : IsProgramOptions p) (inet_pton : InetPton) (raw : ℕ)
    (av : List (List ℕ)) (vm : p.VariablesMap) (parsed : p.parse_command_line desc av ≡ ok vm)
    (c : Config) where
  undeclared : (name : List ℕ) → kind_of name desc ≡ none → option_text p vm name ≡ ok none
  undeclared name e = rw (option_text, is_po.described desc av vm name parsed e) refl

  Settles-port :
      (x : Config × Result Bool) {d : Config} {b : Bool}
      → Settles x d b
      → Settles
          (x ▷ set (option_text p vm (text "server.port")) (to_server_port raw))
          d
          (b && not (p.count vm (text "server.port")))
  Settles-port x {d} {b} s = elim (Bool-cases (p.count vm (text "server.port"))) [
    | inl e ↦ rw e (
        Settles-refused (to_server_port raw) (option_text p vm (text "server.port")) x bad_any_cast
          d b (rw (option_text, e, is_po.typed desc av vm (text "server.port") parsed refl e) refl))
    | inr e ↦ rw e (
        subst
          (λ z. Settles (x ▷ set (option_text p vm (text "server.port")) (to_server_port raw)) d z)
          (sym (and_true b))
          (Settles-absent (to_server_port raw) (option_text p vm (text "server.port")) x
            (rw (option_text, e) refl) s))
  ]

  -- The options that `load_cmd_line` takes.
  abbrev pub cmd_fine : Bool
  cmd_fine =
      let given : List ℕ → Result (Option (List ℕ)) = option_text p vm in
      all_true (
        fine to_logging_level (given (text "logging.level")) c
        ∷ fine to_disable_splash (given (text "logging.disable_splash")) c
        ∷ fine to_server_id (given (text "server.id")) c
        ∷ fine (to_server_addr inet_pton) (given (text "server.ip4_address")) c
        ∷ not (p.count vm (text "server.port"))
        ∷ fine to_discovery_enable (given (text "local_discovery.enable")) c
        ∷ [])

  abbrev pub cmd_stored : Config
  cmd_stored =
      let given : List ℕ → Result (Option (List ℕ)) = option_text p vm in
      let level = value_of to_logging_level (given (text "logging.level")) c in
      record c {
        logging_level = level;
        logger_level = some level;
        logging_disable_splash =
            value_of to_disable_splash (given (text "logging.disable_splash")) c;
        server_id = value_of to_server_id (given (text "server.id")) c;
        server_ip4_sockaddr =
            with_addr (value_of (to_server_addr inet_pton) (given (text "server.ip4_address")) c)
              c.server_ip4_sockaddr;
        local_discovery_enable =
            value_of to_discovery_enable (given (text "local_discovery.enable")) c;
      }

  Settles-cmd_settings : Settles (cmd_settings p inet_pton raw vm c) cmd_stored cmd_fine
  unfolding cmd_settings
  Settles-cmd_settings =
      let given : List ℕ → Result (Option (List ℕ)) = option_text p vm in
      Settles-absent (to_memcached_port raw) (given (text "memcache.port")) _
        (undeclared (text "memcache.port") refl)
        (Settles-absent (to_memcached_addr inet_pton) (given (text "memcache.ip4_address")) _
          (undeclared (text "memcache.ip4_address") refl)
          (Settles-absent to_memcached_enable (given (text "memcache.enable")) _
            (undeclared (text "memcache.enable") refl)
            (Settles-absent to_discovery_interval (given (text "local_discovery.interval")) _
              (undeclared (text "local_discovery.interval") refl)
              (Settles-set to_discovery_enable (λ d. refl) (given (text "local_discovery.enable")) _
                (Settles-port _ (
                  Settles-set (to_server_addr inet_pton) (λ d. refl)
                    (given (text "server.ip4_address")) _
                    (Settles-set to_server_id (λ d. refl) (given (text "server.id")) _
                      (Settles-set to_disable_splash (λ d. refl)
                        (given (text "logging.disable_splash")) _
                        (Settles-set_level _ (
                          Settles-set to_logging_level (λ d. refl) (given (text "logging.level"))
                            (c, ok true) (refl, λ h. refl)))))))))))

  Settles-load_cmd_line :
      Settles
        (load_cmd_line p inet_pton raw av c)
        cmd_stored
        (not (p.count vm (text "help")) && cmd_fine)
  unfolding load_cmd_line caught
  Settles-load_cmd_line = rw parsed (elim (Bool-cases (p.count vm (text "help"))) [
    | inl h ↦ rw h (refl, λ n. absurd (ground (arith, n)))
    | inr h ↦ rw h (Settles-caught (cmd_settings p inet_pton raw vm c) Settles-cmd_settings)
  ])

  -- Where Boost parses the arguments, `load_cmd_line` returns true exactly if neither `--help` nor
  -- `--server.port` is among them and each of the other five options that are declared is absent or has
  -- its format (any text will do for a level): a port on the command line always makes it fail.
  pub load_cmd_line-cmd_fine :
      is_true (load_cmd_line p inet_pton raw av c) ≡ (not (p.count vm (text "help")) && cmd_fine)
  load_cmd_line-cmd_fine = Settles-load_cmd_line.0

  -- Where it returns true, the five options that are given have been stored to their fields, the level
  -- has been put into force, and every other field is as it was: the port, the interval of the
  -- discovery and all that concerns memcached, for which the code reads options that it never declares.
  pub load_cmd_line-cmd_stored :
      is_true (load_cmd_line p inet_pton raw av c) ≡ true
      → (load_cmd_line p inet_pton raw av c).0 ≡ cmd_stored
  load_cmd_line-cmd_stored h = Settles-load_cmd_line.1 (sym (Settles-load_cmd_line.0) ∙ h)
