-- ===== src/FieldMetadata/DirectionWords.antt =====
-- The sets of directions that a file name can give, described without the table of `from_path`.
use starnext_import.FieldMetadata.{new_directions, direction_arms, parse_directions}
use mathlib.Core.Path.{subst}
use starnext_import.Prelude.{
  ℕ, ◌≡◌, ◌≢◌, ◌⊎◌, inl, inr, refl, sym, [], ◌∷◌, ◌++◌, Option, none, some, Outcome, ok, err, panic,
  running, arith,
}
use starnext_import.Prelude.FilePath.{FilePath}
use starnext_import.Prelude.Text.{Text, match_text, match_text_cases, text_eq}
use starnext_import.Types.Direction.{Directions, LaneDirection}
use starnext_import.Types.Direction.LaneDirection.{north, east, south, west}
use starnext_import.Types.Errors.{invalid_file_name, invalid_directions, CountError}

abbrev pub letter : LaneDirection → ℕ
letter north = b'n'
letter east = b'e'
letter south = b's'
letter west = b'w'

abbrev pub opposite : LaneDirection → LaneDirection
opposite north = south
opposite east = west
opposite south = north
opposite west = east

abbrev pub letters : Option LaneDirection → Text
letters none = []
letters (some d) = letter d ∷ []

-- The word of a set of directions: a letter for each lane.
abbrev pub word : Directions → Text
word d = letter d.direction1 ∷ (letters d.direction2 ++ letters d.direction3)

-- One lane; two lanes in one direction or in opposite ones; or three lanes in one direction.
abbrev pub IsListed : Directions → Type 0
IsListed d =
    ((d.direction2 ≡ none) × (d.direction3 ≡ none))
    ⊎ (((d.direction2 ≡ some d.direction1) ⊎ (d.direction2 ≡ some (opposite d.direction1)))
        × (d.direction3 ≡ none))
    ⊎ ((d.direction2 ≡ some d.direction1) × (d.direction3 ≡ some d.direction1))

-- What is known of an accepted word alone.
abbrev Accepts : FilePath → Text → Outcome CountError Directions → Type 0
Accepts path w (ok d) = (w ≡ word d) × IsListed d
Accepts path w (err e) = e ≡ invalid_file_name invalid_directions path
Accepts path w panic = ⊥
Accepts path w running = ⊥

parse_directions-Accepts : (path : FilePath) (w : Text) → Accepts path w (parse_directions path w)
unfolding parse_directions
parse_directions-Accepts path w =
    match_text_cases (Accepts path) w direction_arms
      (err (invalid_file_name invalid_directions path)) (ground arith) (λ n. refl)

one_lane :
    (path : FilePath) (d : LaneDirection)
    → parse_directions path (word (new_directions d none none)) ≡ ok (new_directions d none none)
unfolding parse_directions match_text text_eq
one_lane path north = refl
one_lane path _ = refl

two_lanes :
    (path : FilePath) (d : LaneDirection)
    → parse_directions path (word (new_directions d (some d) none))
      ≡ ok (new_directions d (some d) none)
unfolding parse_directions match_text text_eq
two_lanes path north = refl
two_lanes path _ = refl

two_ways :
    (path : FilePath) (d : LaneDirection)
    → parse_directions path (word (new_directions d (some (opposite d)) none))
      ≡ ok (new_directions d (some (opposite d)) none)
unfolding parse_directions match_text text_eq
two_ways path north = refl
two_ways path _ = refl

three_lanes :
    (path : FilePath) (d : LaneDirection)
    → parse_directions path (word (new_directions d (some d) (some d)))
      ≡ ok (new_directions d (some d) (some d))
unfolding parse_directions match_text text_eq
three_lanes path north = refl
three_lanes path _ = refl

-- A listed set of directions is read from its word.
pub parse_directions-word :
    (path : FilePath) (d : Directions) → IsListed d → parse_directions path (word d) ≡ ok d
parse_directions-word path d h = elim h [
  | inl h ↦
      shaped (new_directions d.direction1 none none) (ground arith) (one_lane path d.direction1)
  | inr (inl (inl p, q)) ↦
      shaped (new_directions d.direction1 (some d.direction1) none) (ground arith)
        (two_lanes path d.direction1)
  | inr (inl (inr p, q)) ↦
      shaped (new_directions d.direction1 (some (opposite d.direction1)) none) (ground arith)
        (two_ways path d.direction1)
  | inr (inr h) ↦
      shaped (new_directions d.direction1 (some d.direction1) (some d.direction1)) (ground arith)
        (three_lanes path d.direction1)
]
  where
    shaped :
        (e : Directions)
        → d ≡ e
        → parse_directions path (word e) ≡ ok e
        → parse_directions path (word d) ≡ ok d
    shaped e p h = subst (λ x. parse_directions path (word x) ≡ ok x) (sym p) h

-- A word that is refused is the word of no listed set of directions.
abbrev pub Reads : FilePath → Text → Outcome CountError Directions → Type 0
Reads path w (ok d) = (w ≡ word d) × IsListed d
Reads path w (err e) =
    (e ≡ invalid_file_name invalid_directions path) × ((d : Directions) → IsListed d → w ≢ word d)
Reads path w panic = ⊥
Reads path w running = ⊥

Reads-exactly :
    (path : FilePath) (w : Text) (r : Outcome CountError Directions)
    → parse_directions path w ≡ r
    → Accepts path w r
    → Reads path w r
Reads-exactly path w (ok d) e h = h
Reads-exactly path w (err x) e h = (
  h,
  λ d listed same.
      let read = parse_directions-word path d listed in
      let reads : parse_directions path w ≡ ok d = rw same read in cc,
)
Reads-exactly path w panic e h = h
Reads-exactly path w running e h = h

-- An accepted word is the word of the directions that it gives, which are listed. A word is refused,
-- by the error that says so, only if it is the word of no listed set of directions.
pub parse_directions-Reads : (path : FilePath) (w : Text) → Reads path w (parse_directions path w)
parse_directions-Reads path w =
    Reads-exactly path w (parse_directions path w) refl (parse_directions-Accepts path w)
