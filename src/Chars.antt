-- ===== src/Chars.antt =====
-- Numbers as text: `std::from_chars` for a `size_t`, which src/cli_args.cpp and src/work_estimate.cpp
-- call, and the decimal text of a number.
use catalyst_build_executor.Base.{
  ◌*◌, ◌/◌, ◌%◌, ℕ, zero, suc, ◌+◌, ◌-◌, ◌≤◌, ◌<◌, ◌≡◌, refl, ap, ◌∙◌, inl, inr, Bool, true, false,
  ◌&&◌, Bytes, [], ◌∷◌, ◌++◌, Option, none, some, length, All, length-append, arith, leb, ltb,
  if◌then◌else◌, Bool-cases,
}

abbrev pub is_digit : ℕ → Bool
is_digit c = leb 48 c && leb c 57

-- The value of the digits at the start of a text, behind those read so far.
unfoldable pub digits_value : ℕ → Bytes → ℕ
digits_value value [] = value
digits_value value (c ∷ s) = elim (is_digit c) [
  | false ↦ value
  | true ↦ digits_value (value * 10 + (c - 48)) s
]

abbrev pub size_max : ℕ
size_max = 18446744073709551615

-- No digit at the start, or too large a number, is an error; what stands behind the digits is ignored.
unfoldable pub from_chars : Bytes → Option ℕ
from_chars [] = none
from_chars (c ∷ s) =
    if is_digit c
    then (let value = digits_value 0 (c ∷ s) in if leb value size_max then some value else none)
    else none

-- The decimal digits; the fuel is the number of digits that fit.
unfoldable pub decimal_digits : ℕ → ℕ → Bytes
decimal_digits zero n = []
decimal_digits (suc fuel) n = elim (ltb n 10) [
  | true ↦ (48 + n) ∷ []
  | false ↦ decimal_digits fuel (n / 10) ++ (48 + n % 10) ∷ []
]

unfoldable pub decimal : ℕ → Bytes
decimal n = decimal_digits (suc n) n

digits_value-append :
    (value : ℕ) (s t : Bytes)
    → All (λ c. is_digit c ≡ true) s
    → digits_value value (s ++ t) ≡ digits_value (digits_value value s) t
unfolding digits_value
digits_value-append value [] t h = refl
digits_value-append value (c ∷ s) t h =
    rw (h.0, digits_value) (digits_value-append (value * 10 + (c - 48)) s t h.1)

pub decimal_digits-digits :
    (fuel n : ℕ) → n < fuel → All (λ c. is_digit c ≡ true) (decimal_digits fuel n)
unfolding decimal_digits
decimal_digits-digits zero n h = absurd (omega arith)
decimal_digits-digits (suc fuel) n h = elim (Bool-cases (ltb n 10)) [
  | inl small ↦ rw (small, decimal_digits) (ground arith, tt)
  | inr large ↦
      rw (large, decimal_digits)
        (All-concat (decimal_digits fuel (n / 10)) (48 + n % 10)
          (decimal_digits-digits fuel (n / 10) (ground arith)) (ground arith))
]
  where
    All-concat :
        (s : Bytes) (c : ℕ)
        → All (λ c. is_digit c ≡ true) s
        → is_digit c ≡ true
        → All (λ c. is_digit c ≡ true) (s ++ c ∷ [])
    All-concat [] c h d = (d, tt)
    All-concat (b ∷ s) c h d = (h.0, All-concat s c h.1 d)

digits_value-decimal_digits : (fuel n : ℕ) → n < fuel → digits_value 0 (decimal_digits fuel n) ≡ n
unfolding decimal_digits digits_value
digits_value-decimal_digits zero n h = absurd (omega arith)
digits_value-decimal_digits (suc fuel) n h = elim (Bool-cases (ltb n 10)) [
  | inl small ↦
      let digit : is_digit (48 + n) ≡ true = ground arith in
      rw (small, decimal_digits) (rw (digit, digits_value) (omega arith))
  | inr large ↦
      let less : n / 10 < fuel = ground arith in
      let digit : is_digit (48 + n % 10) ≡ true = ground arith in
      rw (large, decimal_digits)
        (digits_value-append 0 (decimal_digits fuel (n / 10)) ((48 + n % 10) ∷ [])
            (decimal_digits-digits fuel (n / 10) less)
          ∙ ap (λ v. digits_value v ((48 + n % 10) ∷ []))
              (digits_value-decimal_digits fuel (n / 10) less)
          ∙ rw (digit, digits_value) (omega arith))
]

length-decimal_digits : (fuel n : ℕ) → 0 < length (decimal_digits (suc fuel) n)
unfolding decimal_digits
length-decimal_digits fuel n = elim (Bool-cases (ltb n 10)) [
  | inl small ↦ rw (small, decimal_digits) (omega arith)
  | inr large ↦
      rw (large, decimal_digits)
        (omega (arith, length-append (decimal_digits fuel (n / 10)) ((48 + n % 10) ∷ [])))
]

from_chars-digits :
    (s : Bytes) (n : ℕ)
    → 0 < length s
    → All (λ c. is_digit c ≡ true) s
    → digits_value 0 s ≡ n
    → n ≤ size_max
    → from_chars s ≡ some n
unfolding from_chars
from_chars-digits [] n some_digit all value h = absurd (omega arith)
from_chars-digits (c ∷ s) n some_digit all value h =
    rw (all.0, value) (let e : leb n size_max ≡ true = ground arith in rw e refl)

-- The decimal text of a number of 64 bits is read as the number.
pub from_chars-decimal : (n : ℕ) → n ≤ size_max → from_chars (decimal n) ≡ some n
unfolding decimal
from_chars-decimal n h =
    from_chars-digits (decimal_digits (suc n) n) n (length-decimal_digits n n)
      (decimal_digits-digits (suc n) n (omega arith))
      (digits_value-decimal_digits (suc n) n (omega arith)) h
