-- ===== src/Config/Survives.antt =====
-- src/Config.cpp: no exception leaves `load_yaml`.
use kapua.Prelude.{
  ℕ, ◌≡◌, ◌≢◌, refl, Bool, true, false, List, Option, none, some, arith, Bool-cases, inl, inr,
}
use kapua.Prelude.Results.{Result, ok, throws, undefined, Undefined, ◌>>=◌, IsOk}
use kapua.Text.{text}
use kapua.Config.{ℤ, parse_duration}
use kapua.Config.Load.{
  Config, InetPton, Yaml, yaml_text, Field, ◌▷◌, conjoin, set, set_level, caught, to_logging_level,
  to_disable_splash, to_server_id, to_server_addr, to_server_port, to_discovery_enable,
  to_discovery_interval, to_memcached_enable, to_memcached_port,
}
use kapua.Config.Sources.{yaml_settings, load_yaml}

-- A call that ends in a value or an exception.
abbrev pub Defined {ℓ} : {A : Type ℓ} → Result A → Type ℓ
Defined r = (why : Undefined) → r ≢ undefined why

module _ {V : Type 0} (field : Field V) where
  conjoin-Defined :
      (r : Result (Bool × V)) (so_far : Bool) (c : Config)
      → Defined r
      → Defined ((conjoin (r >>= λ o. ok (o.0, field.put o.1 c)) so_far c).1)
  unfolding conjoin
  conjoin-Defined (ok (success, v)) so_far c d why e = absurd (ground arith)
  conjoin-Defined (throws w) so_far c d why e = absurd (ground arith)
  conjoin-Defined (undefined w) so_far c d why e = d w refl

  set-Defined :
      (found : Result (Option (List ℕ))) (so_far : Bool) (c : Config)
      → Defined found
      → ((input : List ℕ) (v : V) → found ≡ ok (some input) → Defined (field.parse input v))
      → Defined ((set found field so_far c).1)
  unfolding set conjoin
  set-Defined (ok none) so_far c d k why e = absurd (ground arith)
  set-Defined (ok (some input)) so_far c d k why e =
      conjoin-Defined (field.parse input (field.get c)) so_far c (k input (field.get c) refl) why e
  set-Defined (throws w) so_far c d k why e = absurd (ground arith)
  set-Defined (undefined w) so_far c d k why e = d w refl

  Defined-set :
      (found : Result (Option (List ℕ))) (x : Config × Result Bool)
      → Defined found
      → ((input : List ℕ) (v : V) → found ≡ ok (some input) → Defined (field.parse input v))
      → Defined (x.1)
      → Defined ((x ▷ set found field).1)
  unfolding ◌▷◌
  Defined-set found (c, ok so_far) d k h why e = set-Defined found so_far c d k why e
  Defined-set found (c, throws w) d k h why e = absurd (ground arith)
  Defined-set found (c, undefined w) d k h why e = h w refl

Defined-set_level : (x : Config × Result Bool) → Defined (x.1) → Defined ((x ▷ set_level).1)
unfolding ◌▷◌ set_level
Defined-set_level (c, ok so_far) h why e = absurd (ground arith)
Defined-set_level (c, throws w) h why e = absurd (ground arith)
Defined-set_level (c, undefined w) h why e = h w refl

caught-IsOk : (x : Config × Result Bool) → Defined (x.1) → IsOk ((caught x).1)
unfolding caught
caught-IsOk (c, ok b) h = (b, refl)
caught-IsOk (c, throws w) h = (false, refl)
caught-IsOk (c, undefined w) h = absurd (h w refl)

ok-Defined {ℓ} : {A : Type ℓ} (a : A) → Defined (ok a)
ok-Defined a why e = absurd (ground arith)

module _ (y : Yaml) (inet_pton : InetPton) (raw : ℕ) (filename : List ℕ) (c : Config) where
  Defined-yaml_settings :
      (doc : y.Document)
      → ((section key : List ℕ) → Defined (yaml_text y doc section key))
      → ((input : List ℕ) (ms : ℤ)
          → yaml_text y doc (text "local_discovery") (text "interval") ≡ ok (some input)
          → Defined (parse_duration input false ms))
      → Defined ((yaml_settings y inet_pton raw doc c).1)
  unfolding yaml_settings
  Defined-yaml_settings doc d k =
      let given : List ℕ → List ℕ → Result (Option (List ℕ)) = yaml_text y doc in
      Defined-set (to_memcached_port raw) (given (text "memcache") (text "port")) _
        (d (text "memcache") (text "port")) (λ input v e. ok-Defined _)
        (Defined-set to_memcached_enable (given (text "memcache") (text "enable")) _
          (d (text "memcache") (text "enable")) (λ input v e. ok-Defined _)
          (Defined-set to_discovery_interval (given (text "local_discovery") (text "interval")) _
            (d (text "local_discovery") (text "interval")) k
            (Defined-set to_discovery_enable (given (text "local_discovery") (text "enable")) _
              (d (text "local_discovery") (text "enable")) (λ input v e. ok-Defined _)
              (Defined-set (to_server_port raw) (given (text "server") (text "port")) _
                (d (text "server") (text "port")) (λ input v e. ok-Defined _)
                (Defined-set (to_server_addr inet_pton) (given (text "server") (text "ip4_address"))
                  _ (d (text "server") (text "ip4_address")) (λ input v e. ok-Defined _)
                  (Defined-set to_server_id (given (text "server") (text "id")) _
                    (d (text "server") (text "id")) (λ input v e. ok-Defined _)
                    (Defined-set to_disable_splash (given (text "logging") (text "disable_splash"))
                      _ (d (text "logging") (text "disable_splash")) (λ input v e. ok-Defined _)
                      (Defined-set_level _ (
                        Defined-set to_logging_level (given (text "logging") (text "level"))
                          (c, ok true) (d (text "logging") (text "level"))
                          (λ input v e. ok-Defined _) (ok-Defined _))))))))))

  -- `load_yaml` returns, true or false, for every file, whatever the YAML library throws and wherever a
  -- number in it is out of range, as long as that library itself has no undefined behaviour and the sum
  -- of the interval that the file gives does not overflow.
  pub load_yaml-IsOk :
      Defined (y.load_file filename)
      → ((doc : y.Document) (section key : List ℕ)
          → y.load_file filename ≡ ok doc
          → Defined (yaml_text y doc section key))
      → ((doc : y.Document) (input : List ℕ) (ms : ℤ)
          → y.load_file filename ≡ ok doc
          → yaml_text y doc (text "local_discovery") (text "interval") ≡ ok (some input)
          → Defined (parse_duration input false ms))
      → IsOk ((load_yaml y inet_pton raw filename c).1)
  unfolding load_yaml caught
  load_yaml-IsOk l d k = go (y.load_file filename) refl
    where
      go :
          (r : Result y.Document)
          → y.load_file filename ≡ r
          → IsOk ((load_yaml y inet_pton raw filename c).1)
      go (throws w) e = rw (load_yaml, e) (false, refl)
      go (undefined w) e = absurd (l w e)
      go (ok doc) e = elim (Bool-cases (y.is_map doc)) [
        | inl h ↦
            rw (load_yaml, e, h)
              (caught-IsOk _
                (Defined-yaml_settings doc (λ s q. d doc s q e) (λ input ms. k doc input ms e)))
        | inr h ↦ rw (load_yaml, e, h) (false, refl)
      ]
