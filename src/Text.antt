-- ===== src/Text.antt =====
-- Text as src/Config.cpp and src/Util.hpp read and write it: a list of character codes, with the
-- character tests of <cctype> and the numerals of the standard library.
pub mod Numerals
use Prim.Native.Char.{code}
use Prim.Native.String.{String}
use kapua.Prelude.{
  ℕ, zero, suc, ◌+◌, ◌-◌, ◌*◌, ◌/◌, ◌%◌, Bool, true, false, not, ◌&&◌, ◌||◌, List, [], ◌∷◌, ◌++◌,
  ltb, leb, ◌==◌, if◌then◌else◌, replicate, length,
}

abbrev pub text : String → List ℕ
text String.[] = []
text (String.◌∷◌ c s) = code c ∷ text s

abbrev pub within : ℕ → ℕ → ℕ → Bool
within low high c = leb low c && leb c high

unfoldable pub is_digit : ℕ → Bool
is_digit c = within b'0' b'9' c

unfoldable pub is_xdigit : ℕ → Bool
unfolding is_digit
is_xdigit c = is_digit c || within b'a' b'f' c || within b'A' b'F' c

unfoldable pub is_space : ℕ → Bool
is_space c = (c == 32) || within 9 13 c

unfoldable pub to_lower : ℕ → ℕ
to_lower c = if within b'A' b'Z' c then c + 32 else c

unfoldable pub digit_char : ℕ → ℕ
digit_char d = if ltb d 10 then b'0' + d else 87 + d

unfoldable pub digit_value : ℕ → ℕ
unfolding is_digit
digit_value c = if is_digit c then c - b'0' else c - 87

-- A number in a base, without leading zeros, of at most as many digits as the fuel.
unfoldable pub numeral : ℕ → ℕ → ℕ → List ℕ
unfolding digit_char
numeral base zero v = []
numeral base (suc n) v =
    let rest = numeral base n (v / base) in
    if ltb v base then digit_char v ∷ [] else rest ++ digit_char (v % base) ∷ []

-- The value of digits after those that count `so_far`.
unfoldable pub value : ℕ → ℕ → List ℕ → ℕ
unfolding digit_value
value base so_far [] = so_far
value base so_far (c ∷ cs) = value base (so_far * base + digit_value c) cs

-- `std::setfill('0') << std::setw(width)`
unfoldable pub zero_padded : ℕ → List ℕ → List ℕ
zero_padded width s = replicate (width - length s) b'0' ++ s

abbrev pub text_eq : List ℕ → List ℕ → Bool
text_eq [] [] = true
text_eq (c ∷ s) (d ∷ t) = (c == d) && text_eq s t
text_eq _ _ = false
