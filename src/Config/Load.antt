-- ===== src/Config/Load.antt =====
-- src/Config.hpp and src/Config.cpp: the settings, and how they are loaded from a YAML file and from the
-- command line. The YAML library, Boost's program options and `inet_pton` are arguments. A loader
-- gives the settings as it leaves them, also where it fails, and what it returns.
use kapua.Prelude.{ℕ, Bool, true, false, ◌&&◌, List, [], Option, none, some, if◌then◌else◌}
use kapua.Prelude.Results.{Result, ok, throws, undefined, ◌>>=◌}
use kapua.Address.{SockaddrHashable, af_inet, htons}
use kapua.Logger.{LogLevel}
use kapua.Text.{text}
use kapua.Config.{ℤ, parse_bool, parse_duration, parse_log_level, parse_hex_uint64, parse_port}

-- The settings, and the level of the scoped logger `_logger`, if it uses one.
pub record Config : Type 0 where
  pub server_id : ℕ
  pub server_ip4_sockaddr : SockaddrHashable
  pub server_port : ℕ
  pub local_discovery_enable : Bool
  pub local_discovery_ip4_address : SockaddrHashable
  pub local_discovery_port : ℕ
  pub local_discovery_interval_ms : ℤ
  pub trackers_enable : Bool
  pub trackers_servers : List (List ℕ)
  pub memcached_enable : Bool
  pub memcached_ip4_sockaddr : SockaddrHashable
  pub memcached_extensions : Bool
  pub memcached_connection_limit : ℕ
  pub memcached_inactivity_timeout_ms : ℕ
  pub logging_level : LogLevel
  pub logging_disable_splash : Bool
  pub logger_level : Option LogLevel

-- Of <arpa/inet.h>: the address, in network byte order, that a text stands for.
abbrev pub InetPton : Type 0
InetPton = List ℕ → Option ℕ

abbrev pub default_port : ℕ
default_port = 11860

-- The output parameter holds `addr` at first.
unfoldable pub parse_ipv4 : InetPton → List ℕ → ℕ → Bool × ℕ
parse_ipv4 inet_pton input addr = elim (inet_pton input) [
  | none ↦ (false, addr)
  | some address ↦ (true, address)
]

-- The constructor, on what the memory of the object held.
unfoldable pub new_config : InetPton → Config → Config
unfolding parse_ipv4
new_config inet_pton memory =
    let addr = (parse_ipv4 inet_pton (text "0.0.0.0") memory.server_ip4_sockaddr.sin_addr).1 in
    record memory {
      server_ip4_sockaddr = record {
        sin_family = af_inet;
        sin_addr = addr;
        sin_port = htons default_port;
      };
      trackers_servers = [];
      logger_level = none;
    }

-- A part of a loader: `ok` and the settings before it, the settings and `ok` after it.
abbrev pub Part : Type 0
Part = Bool → Config → Config × Result Bool

infixl 5 ◌▷◌
unfoldable pub ◌▷◌ : Config × Result Bool → Part → Config × Result Bool
(c, ok so_far) ▷ part = part so_far c
(c, throws why) ▷ part = (c, throws why)
(c, undefined why) ▷ part = (c, undefined why)

-- A parser with the field that its output parameter points to.
pub record Field (V : Type 0) : Type 0 where
  pub parse : List ℕ → V → Result (Bool × V)
  pub get : Config → V
  pub put : V → Config → Config

abbrev pub into : {V : Type 0} → Field V → List ℕ → Config → Result (Bool × Config)
into field input c = do (success, v) ← field.parse input (field.get c); ok (success, field.put v c)

-- `ok &= <what the parser returns>`
unfoldable pub conjoin : Result (Bool × Config) → Part
conjoin (ok (success, d)) so_far c = (d, ok (so_far && success))
conjoin (throws why) so_far c = (c, throws why)
conjoin (undefined why) so_far c = (c, undefined why)

-- `if (<the setting is given>) ok &= <parse it>;`
unfoldable pub set : {V : Type 0} → Result (Option (List ℕ)) → Field V → Part
unfolding conjoin
set (ok none) field so_far c = (c, ok so_far)
set (ok (some input)) field so_far c = conjoin (into field input c) so_far c
set (throws why) field so_far c = (c, throws why)
set (undefined why) field so_far c = (c, undefined why)

-- `if (ok) _logger->set_log_level(logging_level);`
unfoldable pub set_level : Part
set_level so_far c =
    (if so_far then record c { logger_level = some c.logging_level } else c, ok so_far)

-- The `catch` clauses, behind which a loader returns false.
unfoldable pub caught : Config × Result Bool → Config × Result Bool
caught (c, ok b) = (c, ok b)
caught (c, throws why) = (c, ok false)
caught (c, undefined why) = (c, undefined why)

-- yaml-cpp: `YAML::LoadFile`, the test that the root is a map, the value at two keys if it is defined,
-- and `as<std::string>`.
pub record Yaml : Type 1 where
  pub Document : Type 0
  pub Value : Type 0
  pub load_file : List ℕ → Result Document
  pub is_map : Document → Bool
  pub at : Document → List ℕ → List ℕ → Result (Option Value)
  pub as_string : Value → Result (List ℕ)

abbrev pub yaml_text : (y : Yaml) → y.Document → List ℕ → List ℕ → Result (Option (List ℕ))
yaml_text y doc section key = do
  found ← y.at doc section key
  elim found [ none ↦ ok none | some node ↦ do input ← y.as_string node; ok (some input) ]

abbrev pub parses : {V : Type 0} → (List ℕ → V → Bool × V) → List ℕ → V → Result (Bool × V)
parses parse input v = ok (parse input v)

-- The settings one by one: the parser, and the field that it stores to.
abbrev pub to_logging_level : Field LogLevel
to_logging_level = record {
  parse = parses parse_log_level;
  get = λ c. c.logging_level;
  put = λ v c. record c { logging_level = v };
}

abbrev pub to_disable_splash : Field Bool
to_disable_splash = record {
  parse = parses parse_bool;
  get = λ c. c.logging_disable_splash;
  put = λ v c. record c { logging_disable_splash = v };
}

abbrev pub to_server_id : Field ℕ
to_server_id = record {
  parse = parses parse_hex_uint64;
  get = λ c. c.server_id;
  put = λ v c. record c { server_id = v };
}

abbrev pub with_addr : ℕ → SockaddrHashable → SockaddrHashable
with_addr addr a = record a { sin_addr = addr }

abbrev pub with_port : ℕ → SockaddrHashable → SockaddrHashable
with_port port a = record a { sin_port = port }

abbrev pub to_server_addr : InetPton → Field ℕ
to_server_addr inet_pton = record {
  parse = parses (parse_ipv4 inet_pton);
  get = λ c. c.server_ip4_sockaddr.sin_addr;
  put = λ v c. record c { server_ip4_sockaddr = with_addr v c.server_ip4_sockaddr };
}

-- `raw` is what the local variable of `parse_port` holds at first.
abbrev pub to_server_port : ℕ → Field ℕ
to_server_port raw = record {
  parse = parses (λ input. parse_port input raw);
  get = λ c. c.server_ip4_sockaddr.sin_port;
  put = λ v c. record c { server_ip4_sockaddr = with_port v c.server_ip4_sockaddr };
}

abbrev pub to_discovery_enable : Field Bool
to_discovery_enable = record {
  parse = parses parse_bool;
  get = λ c. c.local_discovery_enable;
  put = λ v c. record c { local_discovery_enable = v };
}

abbrev pub to_discovery_interval : Field ℤ
to_discovery_interval = record {
  parse = λ input. parse_duration input false;
  get = λ c. c.local_discovery_interval_ms;
  put = λ v c. record c { local_discovery_interval_ms = v };
}

abbrev pub to_memcached_enable : Field Bool
to_memcached_enable = record {
  parse = parses parse_bool;
  get = λ c. c.memcached_enable;
  put = λ v c. record c { memcached_enable = v };
}

abbrev pub to_memcached_addr : InetPton → Field ℕ
to_memcached_addr inet_pton = record {
  parse = parses (parse_ipv4 inet_pton);
  get = λ c. c.memcached_ip4_sockaddr.sin_addr;
  put = λ v c. record c { memcached_ip4_sockaddr = with_addr v c.memcached_ip4_sockaddr };
}

abbrev pub to_memcached_port : ℕ → Field ℕ
to_memcached_port raw = record {
  parse = parses (λ input. parse_port input raw);
  get = λ c. c.memcached_ip4_sockaddr.sin_port;
  put = λ v c. record c { memcached_ip4_sockaddr = with_port v c.memcached_ip4_sockaddr };
}
