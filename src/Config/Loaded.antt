-- ===== src/Config/Loaded.antt =====
-- src/Config.cpp: what `load_yaml` comes to as a whole.
use kapua.Prelude.{
  ℕ, ◌≡◌, refl, sym, ◌∙◌, Bool, true, ◌&&◌, List, [], ◌∷◌, Option, some, foldl, arith, Bool-cases,
  inl, inr,
}
use kapua.Prelude.Results.{Result, ok}
use kapua.Text.{text}
use kapua.Config.Load.{
  Config, InetPton, Yaml, yaml_text, with_port, caught, to_logging_level, to_disable_splash,
  to_server_id, to_server_addr, to_server_port, to_discovery_enable, to_discovery_interval,
  to_memcached_enable, to_memcached_port,
}
use kapua.Config.Sources.{yaml_settings, load_yaml}
use kapua.Config.Settled.{
  is_true, fine, value_of, Settles, Settles-set, Settles-set_level, Settles-caught,
}

abbrev pub all_true : List Bool → Bool
all_true tests = foldl (λ a b. a && b) true tests

module _ (y : Yaml) (inet_pton : InetPton) (raw : ℕ) (doc : y.Document) (c : Config) where
  -- Every setting of a document is absent, or there, readable, and of its format.
  abbrev pub yaml_fine : Bool
  yaml_fine =
      let given : List ℕ → List ℕ → Result (Option (List ℕ)) = yaml_text y doc in
      all_true (
        fine to_logging_level (given (text "logging") (text "level")) c
        ∷ fine to_disable_splash (given (text "logging") (text "disable_splash")) c
        ∷ fine to_server_id (given (text "server") (text "id")) c
        ∷ fine (to_server_addr inet_pton) (given (text "server") (text "ip4_address")) c
        ∷ fine (to_server_port raw) (given (text "server") (text "port")) c
        ∷ fine to_discovery_enable (given (text "local_discovery") (text "enable")) c
        ∷ fine to_discovery_interval (given (text "local_discovery") (text "interval")) c
        ∷ fine to_memcached_enable (given (text "memcache") (text "enable")) c
        ∷ fine (to_memcached_port raw) (given (text "memcache") (text "port")) c
        ∷ [])

  -- The settings with those of a document in their fields, and the logger's level.
  abbrev pub yaml_stored : Config
  yaml_stored =
      let given : List ℕ → List ℕ → Result (Option (List ℕ)) = yaml_text y doc in
      let level = value_of to_logging_level (given (text "logging") (text "level")) c in
      record c {
        logging_level = level;
        logger_level = some level;
        logging_disable_splash =
            value_of to_disable_splash (given (text "logging") (text "disable_splash")) c;
        server_id = value_of to_server_id (given (text "server") (text "id")) c;
        server_ip4_sockaddr = record {
          sin_family = c.server_ip4_sockaddr.sin_family;
          sin_addr =
              value_of (to_server_addr inet_pton) (given (text "server") (text "ip4_address")) c;
          sin_port = value_of (to_server_port raw) (given (text "server") (text "port")) c;
        };
        local_discovery_enable =
            value_of to_discovery_enable (given (text "local_discovery") (text "enable")) c;
        local_discovery_interval_ms =
            value_of to_discovery_interval (given (text "local_discovery") (text "interval")) c;
        memcached_enable = value_of to_memcached_enable (given (text "memcache") (text "enable")) c;
        memcached_ip4_sockaddr =
            with_port (value_of (to_memcached_port raw) (given (text "memcache") (text "port")) c)
              c.memcached_ip4_sockaddr;
      }

  Settles-yaml_settings : Settles (yaml_settings y inet_pton raw doc c) yaml_stored yaml_fine
  unfolding yaml_settings
  Settles-yaml_settings =
      let given : List ℕ → List ℕ → Result (Option (List ℕ)) = yaml_text y doc in
      Settles-set (to_memcached_port raw) (λ d. refl) (given (text "memcache") (text "port")) _
        (Settles-set to_memcached_enable (λ d. refl) (given (text "memcache") (text "enable")) _
          (Settles-set to_discovery_interval (λ d. refl)
            (given (text "local_discovery") (text "interval")) _
            (Settles-set to_discovery_enable (λ d. refl)
              (given (text "local_discovery") (text "enable")) _
              (Settles-set (to_server_port raw) (λ d. refl) (given (text "server") (text "port")) _
                (Settles-set (to_server_addr inet_pton) (λ d. refl)
                  (given (text "server") (text "ip4_address")) _
                  (Settles-set to_server_id (λ d. refl) (given (text "server") (text "id")) _
                    (Settles-set to_disable_splash (λ d. refl)
                      (given (text "logging") (text "disable_splash")) _
                      (Settles-set_level _ (
                        Settles-set to_logging_level (λ d. refl)
                          (given (text "logging") (text "level")) (c, ok true)
                          (refl, λ h. refl))))))))))

  -- The settings settle behind the test of the root and the `catch` clauses.
  Settles-load_yaml :
      (filename : List ℕ)
      → y.load_file filename ≡ ok doc
      → Settles (load_yaml y inet_pton raw filename c) yaml_stored (y.is_map doc && yaml_fine)
  unfolding load_yaml caught
  Settles-load_yaml filename e = rw e (elim (Bool-cases (y.is_map doc)) [
    | inl h ↦ rw h (Settles-caught (yaml_settings y inet_pton raw doc c) Settles-yaml_settings)
    | inr h ↦ rw h (refl, λ n. absurd (ground (arith, n)))
  ])

  -- Where the file is read as a document, `load_yaml` returns true exactly if the root is a map and
  -- every one of the nine settings is either absent from it or can be read and has its format (any text
  -- will do for a level).
  pub load_yaml-yaml_fine :
      (filename : List ℕ)
      → y.load_file filename ≡ ok doc
      → is_true (load_yaml y inet_pton raw filename c) ≡ (y.is_map doc && yaml_fine)
  load_yaml-yaml_fine filename e = (Settles-load_yaml filename e).0

  pub load_yaml-yaml_stored :
      (filename : List ℕ)
      → y.load_file filename ≡ ok doc
      → is_true (load_yaml y inet_pton raw filename c) ≡ true
      → (load_yaml y inet_pton raw filename c).0 ≡ yaml_stored
  load_yaml-yaml_stored filename e h = let s = Settles-load_yaml filename e in s.1 (sym s.0 ∙ h)
