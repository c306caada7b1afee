-- ===== src/Config/Stoi.antt =====
-- src/Config.cpp: `std::stoi` at numerals, and the parsers of numbers that use it.
use kapua.Prelude.{
  ℕ, suc, ◌%◌, ◌^◌, ◌<◌, ◌≤◌, ◌≡◌, refl, true, false, List, [], ◌∷◌, leb, ◌==◌, length, all, arith,
}
use kapua.Prelude.Results.{ok}
use kapua.Address.{htons}
use kapua.Text.{is_digit, is_space, digit_char, numeral, value}
use kapua.Text.Numerals.{all-numeral, value-numeral, numeral_nonempty}
use kapua.Config.{pos, fits_int, leading_digits, read_sign, stoi, parse_uint16, parse_port}

leading_digits_whole : (s : List ℕ) → all is_digit s ≡ true → leading_digits s ≡ s
unfolding leading_digits
leading_digits_whole [] h = refl
leading_digits_whole (c ∷ s) h =
    let first : is_digit c ≡ true = ground (arith, h) in
    rw (first, leading_digits_whole s (ground (arith, h)))

-- A digit is no space and no sign.
digit_alone :
    (c : ℕ)
    → is_digit c ≡ true
    → (is_space c ≡ false) × ((c == b'-') ≡ false) × ((c == b'+') ≡ false)
unfolding is_digit is_space
digit_alone c h = ground (arith, h)

-- Digits, at least one of them, of a number that fits an `int`.
pub stoi_digits :
    (c : ℕ) (s : List ℕ)
    → all is_digit (c ∷ s) ≡ true
    → value 10 0 (c ∷ s) ≤ 2147483647
    → stoi (c ∷ s) ≡ ok (pos (value 10 0 (c ∷ s)))
unfolding stoi
stoi_digits c s h fits =
    let first : is_digit c ≡ true = ground (arith, h) in
    let (no_space, no_minus, no_plus) = digit_alone c first in
    let whole = leading_digits_whole (c ∷ s) h in
    let small : leb (value 10 0 (c ∷ s)) 2147483647 ≡ true = ground (arith, fits) in
    let some_digit : (length (c ∷ s) == 0) ≡ false = ground arith in
    rw (no_space, read_sign, no_minus, no_plus, whole, some_digit, fits_int, small)

decimal_digit : (d : ℕ) → d < 10 → is_digit (digit_char d) ≡ true
unfolding is_digit digit_char
decimal_digit d h = ground arith

pub all_decimal : (n v : ℕ) → all is_digit (numeral 10 n v) ≡ true
all_decimal n v = all-numeral is_digit 10 n v (omega arith) decimal_digit

stoi_nonempty :
    (s : List ℕ)
    → 1 ≤ length s
    → all is_digit s ≡ true
    → value 10 0 s ≤ 2147483647
    → stoi s ≡ ok (pos (value 10 0 s))
stoi_nonempty [] l h fits = absurd (omega arith)
stoi_nonempty (c ∷ s) l h fits = stoi_digits c s h fits

pub stoi-numeral :
    (n v : ℕ) → v < 10 ^ suc n → v ≤ 2147483647 → stoi (numeral 10 (suc n) v) ≡ ok (pos v)
stoi-numeral n v l fits =
    let same = value-numeral 10 n v (omega arith) (omega arith) l in
    rw same at (
      stoi_nonempty (numeral 10 (suc n) v) (numeral_nonempty 10 n v) (all_decimal (suc n) v)
        (rw same fits))

-- A port that is written in decimal is read, and kept in network byte order; a number that is too
-- large for a port, but fits an `int`, is accepted as well, and wraps round.
pub parse_port-numeral :
    (n v raw port : ℕ)
    → v < 10 ^ suc n
    → v ≤ 2147483647
    → parse_port (numeral 10 (suc n) v) raw port ≡ (true, htons (v % 65536))
unfolding parse_port
parse_port-numeral n v raw port l fits = rw (stoi-numeral n v l fits, parse_uint16)
