-- ===== src/Text/Numerals.antt =====
-- Numerals as src/Config.cpp and src/Util.hpp need them: reading digits gives the number written.
use native.Mathlib.Nat.{pow-suc, pow-zero, div-lt_iff_lt-mul, div-add-mod, mod-lt}
use kapua.Prelude.{
  ℕ, zero, suc, ◌+◌, ◌-◌, ◌*◌, ◌/◌, ◌%◌, ◌^◌, ◌<◌, ◌≤◌, ◌≡◌, refl, ap, ◌∙◌, Bool, true, ◌&&◌, List,
  [], ◌∷◌, ◌++◌, ltb, replicate, length, all, arith, inl, inr, Bool-cases, length-append,
  length-replicate,
}
use kapua.Text.{is_digit, digit_char, digit_value, numeral, value, zero_padded}

value-append :
    (base so_far c : ℕ) (xs : List ℕ)
    → value base so_far (xs ++ c ∷ []) ≡ value base so_far xs * base + digit_value c
unfolding value
value-append base so_far c [] = refl
value-append base so_far c (x ∷ xs) = value-append base (so_far * base + digit_value x) c xs

pub digit_value-digit_char : (d : ℕ) → d < 16 → digit_value (digit_char d) ≡ d
unfolding digit_value digit_char is_digit
digit_value-digit_char d h = ground arith

divided : (base n v : ℕ) → 0 < base → v < base ^ suc n → v / base < base ^ n
divided base n v h l = (div-lt_iff_lt-mul h).1 (rw (← pow-suc base n) l)

-- Reading a numeral that was written in a base up to 16 gives the number.
pub value-numeral :
    (base n v : ℕ)
    → 0 < base
    → base ≤ 16
    → v < base ^ suc n
    → value base 0 (numeral base (suc n) v) ≡ v
unfolding numeral value
value-numeral base zero v pos small l =
    let one : base ^ 1 ≡ base = pow-suc base 0 ∙ rw (pow-zero base) (omega arith) in
    let below : ltb v base ≡ true = ground (arith, one, l) in
    rw (below, digit_value-digit_char v (omega (arith, one, l, small))) (omega arith)
value-numeral base (suc n) v pos small l = elim (Bool-cases (ltb v base)) [
  | inl e ↦ rw (e, digit_value-digit_char v (ground (arith, e))) (omega arith)
  | inr e ↦
      rw
        (
          e,
          value-append base 0 (digit_char (v % base)) (numeral base (suc n) (v / base)),
          value-numeral base n (v / base) pos small (divided base (suc n) v pos l),
          digit_value-digit_char (v % base) (omega (arith, mod-lt v pos)),
        )
        (omega (arith, div-add-mod v base))
]

length-numeral : (base n v : ℕ) → length (numeral base n v) ≤ n
unfolding numeral
length-numeral base zero v = omega arith
length-numeral base (suc n) v = elim (Bool-cases (ltb v base)) [
  | inl e ↦ rw e (omega arith)
  | inr e ↦ rw e (
      omega (
        arith,
        length-append (numeral base n (v / base)) (digit_char (v % base) ∷ []),
        length-numeral base n (v / base),
      ))
]

all-append : (p : ℕ → Bool) (xs ys : List ℕ) → all p (xs ++ ys) ≡ (all p xs && all p ys)
all-append p [] ys = refl
all-append p (x ∷ xs) ys = ground (arith, all-append p xs ys)

-- What holds of every digit of the base holds of a numeral.
pub all-numeral :
    (p : ℕ → Bool) (base n v : ℕ)
    → 0 < base
    → ((d : ℕ) → d < base → p (digit_char d) ≡ true)
    → all p (numeral base n v) ≡ true
unfolding numeral
all-numeral p base zero v pos h = refl
all-numeral p base (suc n) v pos h = elim (Bool-cases (ltb v base)) [
  | inl e ↦ rw (e, h v (ground (arith, e)))
  | inr e ↦ rw (
    e,
    all-append p (numeral base n (v / base)) (digit_char (v % base) ∷ []),
    all-numeral p base n (v / base) pos h,
    h (v % base) (mod-lt v pos),
  )
]

all_zeros : (p : ℕ → Bool) (k : ℕ) → p b'0' ≡ true → all p (replicate k b'0') ≡ true
all_zeros p zero h = refl
all_zeros p (suc k) h = rw (h, all_zeros p k h)

value-zeros : (base k : ℕ) (xs : List ℕ) → value base 0 (replicate k b'0' ++ xs) ≡ value base 0 xs
unfolding value digit_value is_digit
value-zeros base zero xs = refl
value-zeros base (suc k) xs =
    let none_yet : 0 * base + 0 ≡ 0 = omega arith in
    ap (λ (n : ℕ). value base n (replicate k b'0' ++ xs)) none_yet ∙ value-zeros base k xs

-- A padded numeral: its width, its value, and what holds of all its characters.
pub zero_padded-numeral :
    (p : ℕ → Bool) (base n v : ℕ)
    → 0 < base
    → base ≤ 16
    → v < base ^ suc n
    → ((d : ℕ) → d < base → p (digit_char d) ≡ true)
    → let s = zero_padded (suc n) (numeral base (suc n) v) in
      (length s ≡ suc n) × (value base 0 s ≡ v) × (all p s ≡ true)
unfolding zero_padded digit_char
zero_padded-numeral p base n v pos small l h =
    let digits = numeral base (suc n) v in
    let zeros = replicate {A = ℕ} (suc n - length digits) b'0' in
    (
      omega (
        arith,
        length-append zeros digits,
        length-replicate {A = ℕ} (suc n - length digits) b'0',
        length-numeral base (suc n) v,
      ),
      value-zeros base (suc n - length digits) digits ∙ value-numeral base n v pos small l,
      rw (
        all-append p zeros digits,
        all_zeros p (suc n - length digits) (h 0 pos),
        all-numeral p base (suc n) v pos h,
      ),
    )

pub numeral_nonempty : (base n v : ℕ) → 1 ≤ length (numeral base (suc n) v)
unfolding numeral
numeral_nonempty base n v = elim (Bool-cases (ltb v base)) [
  | inl e ↦ rw e (omega arith)
  | inr e ↦
      rw e (omega (arith, length-append (numeral base n (v / base)) (digit_char (v % base) ∷ [])))
]
