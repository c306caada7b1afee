-- ===== src/Config/Duration.antt =====
-- src/Config.cpp: `parse_duration` at the durations that its messages ask for.
use mathlib.Core.List.{append_assoc, append-nil}
use kapua.Prelude.{
  ℕ, ◌+◌, ◌*◌, ◌^◌, ◌<◌, ◌≤◌, ◌≡◌, refl, sym, ap, ◌∙◌, Bool, true, false, List, [], ◌∷◌, ◌++◌, some,
  leb, ◌==◌, length, all, arith,
}
use kapua.Prelude.Results.{ok}
use kapua.Text.{is_digit, numeral}
use kapua.Text.Numerals.{numeral_nonempty}
use kapua.Config.{ℤ, pos, fits_int, int_result, stoi, unit_ms, duration_loop, parse_duration}
use kapua.Config.Stoi.{stoi-numeral, all_decimal}

digits_kept :
    (buffer ds rest : List ℕ) (res ms : ℤ)
    → all is_digit ds ≡ true
    → duration_loop buffer res (ds ++ rest) ms ≡ duration_loop (buffer ++ ds) res rest ms
unfolding duration_loop
digits_kept buffer [] rest res ms h =
    ap (λ (b : List ℕ). duration_loop b res rest ms) (sym (append-nil buffer))
digits_kept buffer (c ∷ ds) rest res ms h =
    let digit : is_digit c ≡ true = ground (arith, h) in
    rw (digit, duration_loop)
      (digits_kept (buffer ++ c ∷ []) ds rest res ms (ground (arith, h))
        ∙ ap (λ (b : List ℕ). duration_loop b res rest ms) (append_assoc buffer (c ∷ []) ds))

-- A unit behind digits adds its time, where that and the sum fit an `int`.
unit_added :
    (u k n r : ℕ) (buffer rest : List ℕ) (ms : ℤ)
    → is_digit u ≡ false
    → 1 ≤ length buffer
    → unit_ms u ≡ some k
    → stoi buffer ≡ ok (pos n)
    → r + n * k ≤ 2147483647
    → duration_loop buffer (pos r) (u ∷ rest) ms ≡ duration_loop [] (pos (r + n * k)) rest ms
unfolding duration_loop int_result fits_int
unit_added u k n r buffer rest ms no_digit l unit number fits =
    let some_digit : (length buffer == 0) ≡ false = ground (arith, l) in
    let part : leb (n * k) 2147483647 ≡ true = ground (arith, fits) in
    let total : leb (r + n * k) 2147483647 ≡ true = ground (arith, fits) in
    rw (no_digit, some_digit, unit, number, part, total, duration_loop)

digit_positive : (c : ℕ) → is_digit c ≡ true → (c == b'-') ≡ false
unfolding is_digit
digit_positive c h = ground (arith, h)

started :
    (ds rest : List ℕ) (allow_negative : Bool) (ms : ℤ)
    → 1 ≤ length ds
    → all is_digit ds ≡ true
    → parse_duration (ds ++ rest) allow_negative ms ≡ duration_loop ds (pos 0) rest ms
unfolding parse_duration
started [] rest allow_negative ms l h = absurd (omega arith)
started (c ∷ ds) rest allow_negative ms l h =
    let digit : is_digit c ≡ true = ground (arith, h) in
    rw (digit_positive c digit) (digits_kept (c ∷ []) ds rest (pos 0) ms (ground (arith, h)))

-- A decimal number of at most nine digits, with its unit, in the middle of a duration.
component :
    (u k n r : ℕ) (rest : List ℕ) (ms : ℤ)
    → is_digit u ≡ false
    → unit_ms u ≡ some k
    → n < 10 ^ 10
    → n ≤ 2147483647
    → r + n * k ≤ 2147483647
    → duration_loop [] (pos r) (numeral 10 10 n ++ u ∷ rest) ms
      ≡ duration_loop [] (pos (r + n * k)) rest ms
component u k n r rest ms no_digit unit l int fits =
    digits_kept [] (numeral 10 10 n) (u ∷ rest) (pos r) ms (all_decimal 10 n)
    ∙ unit_added u k n r (numeral 10 10 n) rest ms no_digit (numeral_nonempty 10 9 n) unit
        (stoi-numeral 9 n l int) fits

-- The texts of a duration in hours, minutes and seconds, and its milliseconds.
abbrev pub duration_text : ℕ → ℕ → ℕ → List ℕ
duration_text h m s =
    numeral 10 10 h ++ b'h' ∷ (numeral 10 10 m ++ b'm' ∷ (numeral 10 10 s ++ b's' ∷ []))

abbrev pub duration_ms : ℕ → ℕ → ℕ → ℕ
duration_ms h m s = h * 3600000 + m * 60000 + s * 1000

-- Hours, minutes and seconds in decimal, each with its unit, are read as their sum in milliseconds,
-- whether negative durations are allowed or not, where that sum fits a 32-bit `int`.
pub parse_duration-duration_text :
    (h m s : ℕ) (allow_negative : Bool) (ms : ℤ)
    → duration_ms h m s ≤ 2147483647
    → parse_duration (duration_text h m s) allow_negative ms ≡ ok (true, pos (duration_ms h m s))
unfolding duration_loop is_digit
parse_duration-duration_text h m s allow_negative ms fits =
    let after_m = numeral 10 10 s ++ b's' ∷ [] in
    let after_h = numeral 10 10 m ++ b'm' ∷ after_m in
    started (numeral 10 10 h) (b'h' ∷ after_h) allow_negative ms (numeral_nonempty 10 9 h)
      (all_decimal 10 h)
    ∙ unit_added b'h' 3600000 h 0 (numeral 10 10 h) after_h ms refl (numeral_nonempty 10 9 h) refl
        (stoi-numeral 9 h (omega arith) (omega arith)) (omega arith)
    ∙ component b'm' 60000 m (0 + h * 3600000) after_m ms refl refl (omega arith) (omega arith)
        (omega arith)
    ∙ component b's' 1000 s (0 + h * 3600000 + m * 60000) [] ms refl refl (omega arith)
        (omega arith) (omega arith)
    ∙ ap (λ (n : ℕ). ok (true, pos n)) (omega arith)

-- Digits behind the last unit do not count: a number of seconds that is followed by digits without a
-- unit is read as the seconds alone, and a number without any unit as no time at all.
pub parse_duration_rest :
    (s n : ℕ) (allow_negative : Bool) (ms : ℤ)
    → s * 1000 ≤ 2147483647
    → (parse_duration (numeral 10 10 s ++ b's' ∷ numeral 10 10 n) allow_negative ms
        ≡ ok (true, pos (s * 1000)))
      × (parse_duration (numeral 10 10 n) allow_negative ms ≡ ok (true, pos 0))
unfolding duration_loop is_digit
parse_duration_rest s n allow_negative ms fits = (
  started (numeral 10 10 s) (b's' ∷ numeral 10 10 n) allow_negative ms (numeral_nonempty 10 9 s)
        (all_decimal 10 s)
      ∙ unit_added b's' 1000 s 0 (numeral 10 10 s) (numeral 10 10 n) ms refl
          (numeral_nonempty 10 9 s) refl (stoi-numeral 9 s (omega arith) (omega arith))
          (omega arith)
      ∙ ap (λ (t : List ℕ). duration_loop [] (pos (0 + s * 1000)) t ms)
          (sym (append-nil (numeral 10 10 n)))
      ∙ digits_kept [] (numeral 10 10 n) [] (pos (0 + s * 1000)) ms (all_decimal 10 n)
      ∙ ap (λ (k : ℕ). ok (true, pos k)) (omega arith),
  ap (λ (t : List ℕ). parse_duration t allow_negative ms) (sym (append-nil (numeral 10 10 n)))
      ∙ started (numeral 10 10 n) [] allow_negative ms (numeral_nonempty 10 9 n) (all_decimal 10 n),
)
