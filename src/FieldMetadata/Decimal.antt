-- ===== src/FieldMetadata/Decimal.antt =====
-- Decimal numerals, and that `parse::<uN>()` reads them.
use mathlib.Core.List.{concat-ne-nil}
use starnext_import.Prelude.{
  ℕ, zero, suc, ◌+◌, ◌-◌, ◌*◌, ◌/◌, ◌%◌, ◌<◌, ◌≡◌, ◌≢◌, refl, true, [], ◌∷◌, ◌++◌, ok, ◌>>=◌, ltb,
  if◌then◌else◌, arith, All, All-append, inl, inr, Bool-cases,
}
use starnext_import.Prelude.Text.{Text, parse_digits, parse_uint, is_digit}

-- The numeral of a number below 10 ^ `fuel`, with no zero in front.
digits_of : ℕ → ℕ → Text
digits_of zero n = []
digits_of (suc fuel) n =
    let front = digits_of fuel (n / 10) in
    if ltb n 10 then (b'0' + n) ∷ [] else front ++ (b'0' + n % 10) ∷ []

-- The numeral of `n`.
pub decimal : ℕ → Text
unfolding digits_of
decimal n = digits_of (suc n) n

parse_digits-append :
    (bound acc : ℕ) (s t : Text)
    → parse_digits bound acc (s ++ t) ≡ (parse_digits bound acc s >>= λ a. parse_digits bound a t)
unfolding parse_digits
parse_digits-append bound acc [] t = refl
parse_digits-append bound acc (x ∷ s) t =
    ground (arith, parse_digits-append bound (acc * 10 + (x - b'0')) s t)

parse_digits-digits_of :
    (bound fuel n : ℕ) → n < fuel → n < bound → parse_digits bound 0 (digits_of fuel n) ≡ ok n
unfolding digits_of
parse_digits-digits_of bound zero n h k = elim h [ ]
parse_digits-digits_of bound (suc fuel) n h k = elim (Bool-cases (ltb n 10)) [
  | inl short ↦ rw short (unfold parse_digits in ground arith)
  | inr long ↦ rw long (
      rw
        (
          parse_digits-append bound 0 (digits_of fuel (n / 10)),
          parse_digits-digits_of bound fuel (n / 10) (ground arith) (ground arith),
        )
        (unfold parse_digits in ground arith))
]

digits_of-is_digit : (fuel n : ℕ) → All (λ c. is_digit c ≡ true) (digits_of fuel n)
unfolding digits_of
digits_of-is_digit zero n = tt
digits_of-is_digit (suc fuel) n = elim (Bool-cases (ltb n 10)) [
  | inl short ↦ rw short (ground arith, tt)
  | inr long ↦ rw long (
      All-append (λ c. is_digit c ≡ true) (digits_of fuel (n / 10)) ((b'0' + n % 10) ∷ [])
        (digits_of-is_digit fuel (n / 10)) (ground arith, tt))
]

-- A numeral holds digits only.
pub decimal-is_digit : (n : ℕ) → All (λ c. is_digit c ≡ true) (decimal n)
unfolding decimal
decimal-is_digit n = digits_of-is_digit (suc n) n

parse_uint-digits :
    (bound : ℕ) (s : Text) {n : ℕ}
    → s ≢ []
    → parse_digits bound 0 s ≡ ok n
    → parse_uint bound s ≡ ok n
unfolding parse_uint parse_digits
parse_uint-digits bound [] ne h = absurd (ne refl)
parse_uint-digits bound (x ∷ []) ne h = ground arith
parse_uint-digits bound (x ∷ y ∷ s) ne h = ground arith

pub decimal-ne-nil : (n : ℕ) → decimal n ≢ []
unfolding decimal
decimal-ne-nil n = elim (Bool-cases (ltb n 10)) [
  | inl short ↦ rw short (λ e. cc)
  | inr long ↦ rw long (concat-ne-nil (b'0' + n % 10) (digits_of n (n / 10)))
]

-- The numeral of a number that fits the type is read as that number.
pub parse_uint-decimal : (bound n : ℕ) → n < bound → parse_uint bound (decimal n) ≡ ok n
unfolding decimal
parse_uint-decimal bound n h =
    parse_uint-digits bound (digits_of (suc n) n) (decimal-ne-nil n)
      (parse_digits-digits_of bound (suc n) n (omega arith) h)
