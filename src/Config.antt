-- ===== src/Config.antt =====
-- src/Config.cpp: the parsers of settings, and `to_hex64_str` of src/Util.hpp. A parser gives what the
-- method returns and what its output parameter holds then, which is an argument.
pub mod Stoi
pub mod Values
pub mod Duration
pub mod Load
pub mod Sources
pub mod Settled
pub mod Loaded
pub mod Commanded
pub mod Survives
pub mod Samples
pub mod Tests
use kapua.Prelude.{
  ℕ, zero, suc, ◌+◌, ◌-◌, ◌*◌, ◌%◌, Bool, true, false, not, ◌&&◌, ◌||◌, List, [], ◌∷◌, ◌++◌, Option,
  none, some, map, ltb, leb, ◌==◌, if◌then◌else◌, length, take, drop, all,
}
use kapua.Prelude.Results.{
  Result, ok, throws, undefined, invalid_argument, out_of_range, signed_overflow, ◌>>=◌,
}
use kapua.Address.{htons}
use kapua.Logger.{LogLevel, error_level, warn_level, info_level, debug_level}
use kapua.Text.{text, text_eq, is_digit, is_xdigit, is_space, to_lower, numeral, value, zero_padded}

unfoldable pub to_hex64_str : ℕ → List ℕ
to_hex64_str v = text "0x" ++ zero_padded 16 (numeral 16 16 v)

unfoldable pub parse_bool : List ℕ → Bool → Bool × Bool
parse_bool input result =
    let s = map to_lower input in
    if text_eq s (text "true") || text_eq s (text "t") || text_eq s (text "yes")
    then (true, true)
    else if text_eq s (text "false") || text_eq s (text "f") || text_eq s (text "no")
    then (true, false)
    else (false, result)

unfoldable pub parse_log_level : List ℕ → LogLevel → Bool × LogLevel
parse_log_level input level =
    let s = map to_lower input in
    if text_eq s (text "error")
    then (true, error_level)
    else if text_eq s (text "warn") || text_eq s (text "warning")
    then (true, warn_level)
    else if text_eq s (text "info")
    then (true, info_level)
    else if text_eq s (text "debug")
    then (true, debug_level)
    else (true, level)

unfoldable pub without_0x : List ℕ → List ℕ
without_0x s = if leb 2 (length s) && text_eq (take 2 s) (text "0x") then drop 2 s else s

-- `std::stoull` reads all of 16 hexadecimal digits.
unfoldable pub parse_hex_uint64 : List ℕ → ℕ → Bool × ℕ
unfolding without_0x
parse_hex_uint64 input result =
    let hex = map to_lower (without_0x input) in
    if not (length hex == 16) || not (all is_xdigit hex)
    then (false, result)
    else (true, value 16 0 hex)

-- An `int`.
pub data ℤ : Type 0 where
  pos negsuc : ℕ → ℤ

abbrev pub signed : Bool → ℕ → ℤ
signed false n = pos n
signed true zero = pos 0
signed true (suc n) = negsuc n

unfoldable pub fits_int : ℤ → Bool
fits_int (pos n) = leb n 2147483647
fits_int (negsuc n) = leb n 2147483647

unfoldable pub skip_spaces : List ℕ → List ℕ
skip_spaces [] = []
skip_spaces (c ∷ s) = let rest = skip_spaces s in if is_space c then rest else c ∷ s

unfoldable pub leading_digits : List ℕ → List ℕ
leading_digits [] = []
leading_digits (c ∷ s) = let rest = leading_digits s in if is_digit c then c ∷ rest else []

unfoldable pub read_sign : List ℕ → Bool × List ℕ
read_sign [] = (false, [])
read_sign (c ∷ s) =
    if c == b'-' then (true, s) else if c == b'+' then (false, s) else (false, c ∷ s)

-- `std::stoi`: white space, a sign, and digits, of which there is one at least; what follows is left.
unfoldable pub stoi : List ℕ → Result ℤ
unfolding fits_int skip_spaces leading_digits read_sign
stoi s =
    let (negative, rest) = read_sign (skip_spaces s) in
    let digits = leading_digits rest in
    let number = signed negative (value 10 0 digits) in
    if length digits == 0
    then throws invalid_argument
    else if fits_int number
    then ok number
    else throws out_of_range

-- `static_cast<uint16_t>`
unfoldable pub to_uint16 : ℤ → ℕ
to_uint16 (pos n) = n % 65536
to_uint16 (negsuc n) = 65535 - n % 65536

unfoldable pub parse_uint16 : List ℕ → ℕ → Bool × ℕ
unfolding stoi to_uint16
parse_uint16 input result = elim (stoi input) [
  | ok number ↦ (true, to_uint16 number)
  | throws why ↦ (false, result)
  | undefined why ↦ (false, result)
]

-- `raw` is what the local variable holds at first.
unfoldable pub parse_port : List ℕ → ℕ → ℕ → Bool × ℕ
unfolding parse_uint16
parse_port input raw port =
    let (success, number) = parse_uint16 input raw in
    if success then (true, htons number) else (false, port)

infixl 20 ◌+ℤ◌
abbrev pub ◌+ℤ◌ : ℤ → ℤ → ℤ
pos a +ℤ pos b = pos (a + b)
pos a +ℤ negsuc b = if ltb b a then pos (a - suc b) else negsuc (b - a)
negsuc a +ℤ pos b = if ltb a b then pos (b - suc a) else negsuc (a - b)
negsuc a +ℤ negsuc b = negsuc (suc (a + b))

abbrev pub times : ℤ → ℕ → ℤ
times (pos a) k = pos (a * k)
times (negsuc a) k = signed true (suc a * k)

-- The result of `int` arithmetic. A product of several positive factors overflows at the end if it
-- does on the way.
unfoldable pub int_result : ℤ → Result ℤ
unfolding fits_int
int_result n = if fits_int n then ok n else undefined signed_overflow

abbrev pub unit_ms : ℕ → Option ℕ
unit_ms c =
    if c == b'h'
    then some 3600000
    else if c == b'm'
    then some 60000
    else if c == b's'
    then some 1000
    else none

-- The loop of `parse_duration` over the characters: behind the first one, `buffer` holds the digits
-- since the last unit. A first character that is no digit is kept all the same. The last argument is
-- `*ms`, which is set only at the end.
unfoldable pub duration_loop : List ℕ → ℤ → List ℕ → ℤ → Result (Bool × ℤ)
unfolding int_result
duration_loop buffer res [] ms = ok (true, res)
duration_loop buffer res (c ∷ s) ms = elim (is_digit c) [
  | true ↦ duration_loop (buffer ++ c ∷ []) res s ms
  | false ↦ if length buffer == 0 then ok (false, ms) else elim (unit_ms c) [
    | none ↦ ok (false, ms)
    | some unit ↦ do
      number ← stoi buffer
      part ← int_result (times number unit)
      total ← int_result (res +ℤ part)
      duration_loop [] total s ms
  ]
]

unfoldable pub parse_duration : List ℕ → Bool → ℤ → Result (Bool × ℤ)
unfolding duration_loop
parse_duration [] allow_negative ms = ok (true, pos 0)
parse_duration (c ∷ s) allow_negative ms =
    if (c == b'-') && not allow_negative
    then ok (false, ms)
    else duration_loop (c ∷ []) (pos 0) s ms
