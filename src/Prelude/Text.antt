-- ===== src/Prelude/Text.antt =====
-- Text as the list of its code points, and the operations of `str` that the program uses.
use Prim.Native.Char.{code}
use Prim.Native.Nat.{ℕ, ◌+◌, ◌-◌, ◌*◌}
use Prim.Native.String.{String}
use mathlib.Core.Bool.{Bool, true, false, ◌&&◌, ◌||◌}
use mathlib.Core.List.{List, [], ◌∷◌, map}
use mathlib.Core.Logic.{◌↔◌, ◌≢◌, inl, inr}
use mathlib.Core.Path.{◌≡◌}
use native.Mathlib.Omega.{arith}
use starnext_import.Prelude.Fallible.{Outcome, ok, err}
use starnext_import.Prelude.Lists.{All}
use starnext_import.Prelude.Tests.{Bool-cases, leb, ltb, ◌==◌, if◌then◌else◌}

abbrev pub Text : Type 0
Text = List ℕ

abbrev pub codes : String → Text
codes String.[] = []
codes (String.◌∷◌ c s) = code c ∷ codes s

-- `a == b` on texts.
unfoldable pub text_eq : Text → Text → Bool
text_eq [] [] = true
text_eq (x ∷ xs) (y ∷ ys) = x == y && text_eq xs ys
text_eq _ _ = false

pub text_eq_iff : (a b : Text) → (text_eq a b ≡ true) ↔ (a ≡ b)
unfolding text_eq
text_eq_iff (x ∷ a) (y ∷ b) = ground (arith, text_eq_iff a b)
text_eq_iff _ _ = ground arith

-- `s.starts_with(t)`.
unfoldable pub starts_with : Text → Text → Bool
starts_with s [] = true
starts_with [] (y ∷ ys) = false
starts_with (x ∷ xs) (y ∷ ys) = x == y && starts_with xs ys

-- `s.contains(t)`.
unfoldable pub contains : Text → Text → Bool
unfolding starts_with
contains [] t = starts_with [] t
contains (x ∷ xs) t = starts_with (x ∷ xs) t || contains xs t

-- The part before the first `c`, or before the end, and the parts after it.
abbrev pub onto_first : ℕ → List Text → List Text
onto_first x [] = (x ∷ []) ∷ []
onto_first x (p ∷ ps) = (x ∷ p) ∷ ps

-- `s.split(c)`, collected.
unfoldable pub split : ℕ → Text → List Text
split c [] = [] ∷ []
split c (x ∷ xs) = let rest = split c xs in if x == c then [] ∷ rest else onto_first x rest

-- `s.to_lowercase()`, on the code points of ASCII. The other code points are kept; none of them
-- has a lower case with which the words of the program are spelled.
unfoldable pub lower : ℕ → ℕ
lower x = if leb b'A' x && leb x b'Z' then x + 32 else x

abbrev pub to_lowercase : Text → Text
to_lowercase = map lower

-- `std::num::IntErrorKind`, as far as unsigned parsing gives it.
pub data ParseIntError : Type 0 where
  empty invalid_digit pos_overflow : ParseIntError

abbrev pub is_digit : ℕ → Bool
is_digit x = leb b'0' x && leb x b'9'

-- The digits of a number below `bound`; the first offending character decides the error.
unfoldable pub parse_digits : ℕ → ℕ → Text → Outcome ParseIntError ℕ
parse_digits bound acc [] = ok acc
parse_digits bound acc (x ∷ xs) =
    let rest = parse_digits bound (acc * 10 + (x - b'0')) xs in
    if is_digit x
    then (if ltb (acc * 10 + (x - b'0')) bound then rest else err pos_overflow)
    else err invalid_digit

-- `s.parse::<uN>()`, with `bound = 2^N`: a `+` may stand in front of the digits.
unfoldable pub parse_uint : ℕ → Text → Outcome ParseIntError ℕ
unfolding parse_digits
parse_uint bound [] = err empty
parse_uint bound (x ∷ []) = if x == b'+' then err invalid_digit else parse_digits bound 0 (x ∷ [])
parse_uint bound (x ∷ y ∷ xs) =
    if x == b'+' then parse_digits bound 0 (y ∷ xs) else parse_digits bound 0 (x ∷ y ∷ xs)

-- `match s { "a" => x, "b" | "c" => y, _ => d }`: one entry for each literal, in order.
unfoldable pub match_text {ℓ} : {A : Type ℓ} → Text → List (Text × A) → A → A
match_text s [] d = d
match_text s ((t, a) ∷ arms) d = if text_eq s t then a else match_text s arms d

-- Whatever holds of each arm at its literal, and of the default where no literal fits, holds of
-- the match.
pub match_text_cases {ℓ κ} :
    {A : Type ℓ} (P : Text → A → Type κ) (s : Text) (arms : List (Text × A)) (d : A)
    → All (λ arm. P arm.0 arm.1) arms
    → (All (λ arm. s ≢ arm.0) arms → P s d)
    → P s (match_text s arms d)
unfolding match_text
match_text_cases P s [] d h other = other tt
match_text_cases P s ((t, a) ∷ arms) d h other = elim (Bool-cases (text_eq s t)) [
  | inl same ↦ rw (same, (text_eq_iff s t).0 same) h.0
  | inr differ ↦ rw differ (
      match_text_cases P s arms d h.1
        (λ rest. other ((λ e. cc (differ, (text_eq_iff s t).1 e)), rest)))
]
