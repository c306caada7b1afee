-- ===== src/Config/Tests.antt =====
-- src/Config.cpp: the parsers at concrete texts, and the theorems on them there.
use kapua.Prelude.{◌≡◌, refl, true, false, ◌∷◌, ◌++◌, arith}
use kapua.Prelude.Results.{ok, throws, undefined, invalid_argument, out_of_range, signed_overflow}
use kapua.Address.{htons}
use kapua.Text.{text, is_digit, is_xdigit, is_space, to_lower, digit_value, numeral, value}
use kapua.Logger.{unknown_level, warn_level}
use kapua.Config.{
  pos, negsuc, parse_bool, parse_log_level, parse_hex_uint64, to_hex64_str, without_0x, stoi,
  to_uint16, parse_uint16, parse_port, parse_duration, duration_loop,
}
use kapua.Config.Stoi.{parse_port-numeral}
use kapua.Config.Values.{parse_hex_uint64-to_hex64_str}
use kapua.Config.Duration.{
  duration_text, duration_ms, parse_duration-duration_text, parse_duration_rest,
}

booleans :
    (parse_bool (text "YES") false ≡ (true, true))
    × (parse_bool (text "f") true ≡ (true, false))
    × (parse_bool (text "maybe") true ≡ (false, true))
unfolding parse_bool to_lower
booleans = (refl, refl, refl)

-- A level that is not known is no error.
levels :
    (parse_log_level (text "Warning") unknown_level ≡ (true, warn_level))
    × (parse_log_level (text "loud") unknown_level ≡ (true, unknown_level))
unfolding parse_log_level to_lower
levels = (refl, refl)

identities :
    (parse_hex_uint64 (text "0x123456789ABCDEF0") 0 ≡ (true, 0x1234_5678_9abc_def0))
    × (parse_hex_uint64 (text "1234") 5 ≡ (false, 5))
unfolding parse_hex_uint64 without_0x to_lower is_xdigit is_digit value digit_value
identities = (refl, refl)

numbers :
    (stoi (text "  -12x") ≡ ok (negsuc 11))
    × (stoi (text "x") ≡ throws invalid_argument)
    × (stoi (text "2147483648") ≡ throws out_of_range)
    × (parse_uint16 (text "-1") 0 ≡ (true, 65535))
unfolding stoi is_space is_digit value digit_value parse_uint16 to_uint16
numbers = (refl, refl, refl, refl)

durations :
    (parse_duration (text "1h2m3s") false (pos 0) ≡ ok (true, pos 3723000))
    × (parse_duration (text "-5s") false (pos 7) ≡ ok (false, pos 7))
    × (parse_duration (text "x5s") false (pos 7) ≡ throws invalid_argument)
    × (parse_duration (text "597h") false (pos 7) ≡ undefined signed_overflow)
unfolding parse_duration duration_loop stoi is_space is_digit value digit_value
durations = (refl, refl, refl, refl)

parse_port-numeral_run : parse_port (numeral 10 5 65537) 0 0 ≡ (true, htons 1)
parse_port-numeral_run = parse_port-numeral 4 65537 0 0 (omega arith) (omega arith)

parse_hex_uint64-to_hex64_str_example :
    parse_hex_uint64 (to_hex64_str 0x0123_4567_89ab_cdef) 0 ≡ (true, 0x0123_4567_89ab_cdef)
parse_hex_uint64-to_hex64_str_example =
    parse_hex_uint64-to_hex64_str 0x0123_4567_89ab_cdef 0 (omega arith)

parse_duration-duration_text_example :
    parse_duration (duration_text 1 2 3) false (pos 0) ≡ ok (true, pos (duration_ms 1 2 3))
parse_duration-duration_text_example =
    parse_duration-duration_text 1 2 3 false (pos 0) (omega arith)

parse_duration_rest_run :
    parse_duration (numeral 10 10 5 ++ b's' ∷ numeral 10 10 30) false (pos 0) ≡ ok (true, pos 5000)
parse_duration_rest_run = (parse_duration_rest 5 30 false (pos 0) (omega arith)).0
