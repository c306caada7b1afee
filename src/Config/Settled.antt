-- ===== src/Config/Settled.antt =====
-- src/Config.cpp: when a loader succeeds, and what it has stored then.
use kapua.Prelude.{
  ℕ, ◌≡◌, refl, sym, ap, subst, Bool, true, false, ◌&&◌, List, Option, none, some, arith,
}
use kapua.Prelude.Results.{Result, ok, throws, undefined, ◌>>=◌}
use kapua.Config.Load.{Config, Field, ◌▷◌, conjoin, set, set_level, caught}

-- What a loader returned is true.
abbrev pub is_true : Config × Result Bool → Bool
is_true (c, ok b) = b
is_true (c, throws why) = false
is_true (c, undefined why) = false

abbrev pub parsed_well : {V : Type 0} → Result (Bool × V) → Bool
parsed_well (ok (success, w)) = success
parsed_well (throws why) = false
parsed_well (undefined why) = false

abbrev pub parsed_value : {V : Type 0} → Result (Bool × V) → V → V
parsed_value (ok (success, w)) v = w
parsed_value (throws why) v = v
parsed_value (undefined why) v = v

-- A setting that is absent, or that is there, read, and parsed.
abbrev pub is_fine :
    {V : Type 0} → Result (Option (List ℕ)) → (List ℕ → V → Result (Bool × V)) → V → Bool
is_fine (ok none) parse v = true
is_fine (ok (some input)) parse v = parsed_well (parse input v)
is_fine (throws why) parse v = false
is_fine (undefined why) parse v = false

-- What a field that held `v` holds behind a setting that is fine.
abbrev pub stored :
    {V : Type 0} → Result (Option (List ℕ)) → (List ℕ → V → Result (Bool × V)) → V → V
stored (ok none) parse v = v
stored (ok (some input)) parse v = parsed_value (parse input v) v
stored (throws why) parse v = v
stored (undefined why) parse v = v

-- The parts of a loader so far come to `b`, and where that is true they leave `c`.
abbrev pub Settles : Config × Result Bool → Config → Bool → Type 0
Settles x c b = (is_true x ≡ b) × (b ≡ true → x.0 ≡ c)

Settles-failed :
    (y : Config × Result Bool) (e : Config) (b f : Bool)
    → is_true y ≡ false
    → false ≡ b
    → Settles y e (b && f)
Settles-failed y e b f h k =
    subst (λ z. Settles y e (z && f)) k (h, λ n. absurd (ground (arith, n)))

module _ {V : Type 0} (field : Field V) where
  abbrev pub fine : Result (Option (List ℕ)) → Config → Bool
  fine found c = is_fine found field.parse (field.get c)

  abbrev pub value_of : Result (Option (List ℕ)) → Config → V
  value_of found c = stored found field.parse (field.get c)

  conjoin-true :
      (r : Result (Bool × V)) (c : Config)
      → Settles
          (conjoin (r >>= λ o. ok (o.0, field.put o.1 c)) true c)
          (field.put (parsed_value r (field.get c)) c)
          (parsed_well r)
  unfolding conjoin
  conjoin-true (ok (success, v)) c = (refl, λ h. refl)
  conjoin-true (throws why) c = (refl, λ h. absurd (ground arith))
  conjoin-true (undefined why) c = (refl, λ h. absurd (ground arith))

  conjoin-false :
      (r : Result (Bool × V)) (c : Config)
      → is_true (conjoin (r >>= λ o. ok (o.0, field.put o.1 c)) false c) ≡ false
  unfolding conjoin
  conjoin-false (ok (success, v)) c = refl
  conjoin-false (throws why) c = refl
  conjoin-false (undefined why) c = refl

  module _ (put_get : (c : Config) → field.put (field.get c) c ≡ c) where
    set-true :
        (found : Result (Option (List ℕ))) (c : Config)
        → Settles (set found field true c) (field.put (value_of found c) c) (fine found c)
    unfolding set conjoin
    set-true (ok none) c = (refl, λ h. sym (put_get c))
    set-true (ok (some input)) c = conjoin-true (field.parse input (field.get c)) c
    set-true (throws why) c = (refl, λ h. absurd (ground arith))
    set-true (undefined why) c = (refl, λ h. absurd (ground arith))

    set-false :
        (found : Result (Option (List ℕ))) (c : Config) → is_true (set found field false c) ≡ false
    unfolding set conjoin
    set-false (ok none) c = refl
    set-false (ok (some input)) c = conjoin-false (field.parse input (field.get c)) c
    set-false (throws why) c = refl
    set-false (undefined why) c = refl

    -- One more setting.
    pub Settles-set :
        (found : Result (Option (List ℕ))) (x : Config × Result Bool) {c : Config} {b : Bool}
        → Settles x c b
        → Settles (x ▷ set found field) (field.put (value_of found c) c) (b && fine found c)
    unfolding ◌▷◌
    Settles-set found (d, ok true) {c} {b} s =
        let y = (d, ok true) ▷ set found field in
        subst (λ e. Settles y (field.put (value_of found e) e) (b && fine found e)) (s.1 (sym s.0))
          (subst (λ z. Settles y (field.put (value_of found d) d) (z && fine found d)) s.0
            (set-true found d))
    Settles-set found (d, ok false) s =
        Settles-failed ((d, ok false) ▷ set found field) _ _ _ (set-false found d) s.0
    Settles-set found (d, throws why) s =
        Settles-failed ((d, throws why) ▷ set found field) _ _ _ refl s.0
    Settles-set found (d, undefined why) s =
        Settles-failed ((d, undefined why) ▷ set found field) _ _ _ refl s.0

pub Settles-set_level :
    (x : Config × Result Bool) {c : Config} {b : Bool}
    → Settles x c b
    → Settles (x ▷ set_level) (record c { logger_level = some c.logging_level }) b
unfolding ◌▷◌ set_level
Settles-set_level (d, ok true) s =
    (s.0, λ h. ap {A = Config} (λ e. record e { logger_level = some e.logging_level }) (s.1 h))
Settles-set_level (d, ok false) s = (s.0, λ h. absurd (ground (arith, s.0, h)))
Settles-set_level (d, throws why) s = (s.0, λ h. absurd (ground (arith, s.0, h)))
Settles-set_level (d, undefined why) s = (s.0, λ h. absurd (ground (arith, s.0, h)))

pub Settles-caught :
    (x : Config × Result Bool) {c : Config} {b : Bool} → Settles x c b → Settles (caught x) c b
unfolding caught
Settles-caught (d, ok a) s = s
Settles-caught (d, throws why) s = (s.0, λ h. absurd (ground (arith, s.0, h)))
Settles-caught (d, undefined why) s = s
