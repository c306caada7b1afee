-- ===== src/Prelude/Results.antt =====
-- What a C++ call comes to: a value, an exception, or undefined behaviour.
use mathlib.Core.Path.{◌≡◌, refl}
use native.Mathlib.Omega.{arith}

pub data Exception : Type 0 where
  invalid_argument out_of_range bad_any_cast runtime_error : Exception
  unknown_option bad_file parser_exception bad_conversion not_std : Exception

-- `past_end`: an access, or a range handed to a call, that goes past the end of an array. `relock`: a
-- thread locks a `std::mutex` that it holds. `use_after_free`: an object is used or deleted that was deleted.
pub data Undefined : Type 0 where
  signed_overflow past_end relock null_pointer use_after_free : Undefined

pub data Result {ℓ} (A : Type ℓ) : Type ℓ where
  ok : A → Result A
  throws : Exception → Result A
  undefined : Undefined → Result A

infixl 5 ◌>>=◌
abbrev pub ◌>>=◌ {ℓ κ} : {X : Type ℓ} {Y : Type κ} → Result X → (X → Result Y) → Result Y
throws why >>= next = throws why
undefined why >>= next = undefined why
ok x >>= next = next x

-- A call that ends in a value.
abbrev pub IsOk {ℓ} : {A : Type ℓ} → Result A → Type ℓ
IsOk {A} r = (a : A) × (r ≡ ok a)

module _ {ℓ κ} {X : Type ℓ} {Y : Type κ} (next : X → Result Y) where
  -- Where a chain of calls ends in a value, so did its first call, and the rest after it.
  pub ran_both :
      (first : Result X) {y : Y}
      → first >>= next ≡ ok y
      → (x : X) × (first ≡ ok x) × (next x ≡ ok y)
  ran_both (throws why) e = absurd (ground arith)
  ran_both (undefined why) e = absurd (ground arith)
  ran_both (ok x) e = (x, refl, e)
