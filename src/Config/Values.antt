-- ===== src/Config/Values.antt =====
-- src/Config.cpp and src/Util.hpp: identities of servers, written and read in hexadecimal.
use kapua.Prelude.{
  ℕ, ◌^◌, ◌<◌, ◌≡◌, refl, Bool, true, ◌&&◌, List, [], ◌∷◌, ◌++◌, map, leb, ◌==◌, length, all, arith,
}
use kapua.Text.{text, is_digit, is_xdigit, to_lower, digit_char, numeral, zero_padded}
use kapua.Text.Numerals.{zero_padded-numeral}
use kapua.Config.{to_hex64_str, without_0x, parse_hex_uint64}

-- A hexadecimal digit that is no capital.
abbrev is_low_xdigit : ℕ → Bool
is_low_xdigit c = is_xdigit c && (to_lower c == c)

low_digit : (d : ℕ) → d < 16 → is_low_xdigit (digit_char d) ≡ true
unfolding is_xdigit is_digit to_lower digit_char
low_digit d h = ground arith

all_weaken :
    (s : List ℕ) → all is_low_xdigit s ≡ true → (all is_xdigit s ≡ true) × (map to_lower s ≡ s)
all_weaken [] h = (refl, refl)
all_weaken (c ∷ s) h =
    let low : is_low_xdigit c ≡ true = ground (arith, h) in
    let (digits, same) = all_weaken s (ground (arith, h)) in
    let digit : is_xdigit c ≡ true = ground (arith, low) in
    let kept : to_lower c ≡ c = ground (arith, low) in (rw (digit, digits), rw (kept, same))

prefix : (s : List ℕ) → without_0x (text "0x" ++ s) ≡ s
unfolding without_0x
prefix s = let long : leb 2 (length (text "0x" ++ s)) ≡ true = ground arith in rw long

-- The identity that `to_hex64_str` writes for a 64-bit number is read back as that number.
pub parse_hex_uint64-to_hex64_str :
    (v result : ℕ) → v < 2 ^ 64 → parse_hex_uint64 (to_hex64_str v) result ≡ (true, v)
unfolding parse_hex_uint64 to_hex64_str
parse_hex_uint64-to_hex64_str v result h =
    let s = zero_padded 16 (numeral 16 16 v) in
    let (width, number, low) =
      zero_padded-numeral is_low_xdigit 16 15 v (omega arith) (omega arith) (omega arith)
        low_digit in
    let (digits, lower) = all_weaken s low in
    let bare : without_0x (text "0x" ++ s) ≡ s = prefix s in rw (bare, lower, width, digits, number)
