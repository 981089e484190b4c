-- ===== src/FieldMetadata/Bounds.antt =====
-- The numbers of a file name are of their types.
use starnext_import.FieldMetadata.Sound.{from_path_sound}
use starnext_import.FieldMetadata.{FieldMetadata, from_path, parse_speed_limit}
use starnext_import.Prelude.FilePath.{FilePath}
use starnext_import.Prelude.Text.{Text, codes, parse_digits, parse_uint, text_eq, is_digit}
use starnext_import.Prelude.{
  ℕ, ◌+◌, ◌-◌, ◌*◌, ◌<◌, ◌==◌, ◌≡◌, true, [], ◌∷◌, Option, none, some, Outcome, ok, err, panic,
  running, map_err, ltb, Bool-cases, inl, inr, Gives, Gives-then, arith, u8_mod, u32_mod,
}
use starnext_import.Types.Errors.{invalid_file_name, invalid_speed_limit}

below_by_test : (a b : ℕ) → ltb a b ≡ true → a < b
below_by_test a b h = ground arith

parse_digits-lt :
    (bound acc : ℕ) (s : Text) → acc < bound → Gives (λ n. n < bound) (parse_digits bound acc s)
unfolding parse_digits
parse_digits-lt bound acc [] h = h
parse_digits-lt bound acc (x ∷ s) h = elim (Bool-cases (is_digit x)) [
  | inr e ↦ rw e tt
  | inl e ↦ elim (Bool-cases (ltb (acc * 10 + (x - b'0')) bound)) [
    | inr e' ↦ rw (e, e') tt
    | inl e' ↦
        rw (e, e') (parse_digits-lt bound (acc * 10 + (x - b'0')) s (below_by_test _ bound e'))
  ]
]

-- A number that is parsed is below the bound of its type.
parse_uint-lt : (bound : ℕ) (s : Text) → 0 < bound → Gives (λ n. n < bound) (parse_uint bound s)
unfolding parse_uint
parse_uint-lt bound [] h = tt
parse_uint-lt bound (x ∷ []) h = elim (Bool-cases (x == b'+')) [
  | inl e ↦ rw e tt
  | inr e ↦ rw e (parse_digits-lt bound 0 (x ∷ []) h)
]
parse_uint-lt bound (x ∷ y ∷ s) h = elim (Bool-cases (x == b'+')) [
  | inl e ↦ rw e (parse_digits-lt bound 0 (y ∷ s) h)
  | inr e ↦ rw e (parse_digits-lt bound 0 (x ∷ y ∷ s) h)
]

-- A speed limit, if there is one, is below `bound`.
abbrev pub IsBelow : ℕ → Option ℕ → Type 0
IsBelow bound none = Unit
IsBelow bound (some v) = v < bound

Gives-map_err :
    {D E A : Type 0} (P : A → Type 0) (f : D → E) (r : Outcome D A)
    → Gives P r
    → Gives P (map_err f r)
Gives-map_err P f (ok a) h = h
Gives-map_err P f (err e) h = tt
Gives-map_err P f panic h = tt
Gives-map_err P f running h = tt

parse_speed_limit-IsBelow :
    (path : FilePath) (s : Text) → Gives (IsBelow u8_mod) (parse_speed_limit path s)
unfolding parse_speed_limit
parse_speed_limit-IsBelow path s = elim (Bool-cases (text_eq s (codes "na"))) [
  | inl e ↦ rw e tt
  | inr e ↦ rw e (
      Gives-then (λ v. v < u8_mod) (IsBelow u8_mod)
        (map_err (λ _. invalid_file_name invalid_speed_limit path) (parse_uint u8_mod s)) _
        (Gives-map_err (λ v. v < u8_mod) _ _ (parse_uint-lt u8_mod s (omega arith))) (λ v h. h))
]

given : {E A : Type 0} (P : A → Type 0) (r : Outcome E A) {a : A} → Gives P r → r ≡ ok a → P a
given P r h e = rw e at h

-- The record number of an accepted path is a `u32`, and its speed limit, if there is one, a `u8`.
pub from_path-Bounded :
    (path : FilePath) (m : FieldMetadata)
    → from_path path ≡ ok m
    → (m.recordnum < u32_mod) × IsBelow u8_mod m.speed_limit
from_path-Bounded path m e =
    let named = from_path_sound path m e in
    (
      given (λ n. n < u32_mod) (parse_uint u32_mod named.number)
          (parse_uint-lt u32_mod named.number (omega arith)) named.recordnum,
      given (IsBelow u8_mod) (parse_speed_limit path named.limit)
          (parse_speed_limit-IsBelow path named.limit) named.speed_limit,
    )
