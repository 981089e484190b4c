-- ===== src/Extract/Header.antt =====
-- `num_nondata_rows` of src/extract_from_file.rs: the lines of a file up to its header.
use starnext_import.Prelude.FilePath.{FilePath}
use starnext_import.Prelude.Text.{Text, codes, starts_with, contains, split}
use starnext_import.Prelude.{
  ℕ, suc, ◌+◌, ◌≡◌, refl, Bool, true, false, ◌||◌, List, [], ◌∷◌, some, Outcome, ok, err, panic,
  running, map_err, ◌>>=◌, take, get_elem?, All, if◌then◌else◌, ◌==◌, arith, Bool-cases, inl, inr,
}
use starnext_import.Types.Errors.{CountError, bad_header, cannot_open_file}

-- A line without the carriage return at its end.
unfoldable pub strip_return : Text → Text
strip_return [] = []
strip_return (x ∷ []) = if x == 13 then [] else x ∷ []
strip_return (x ∷ y ∷ line) = x ∷ strip_return (y ∷ line)

-- The parts between line feeds as lines: an empty one at the end is none.
unfoldable pub ended_lines : List Text → List Text
unfolding strip_return
ended_lines [] = []
ended_lines ([] ∷ []) = []
ended_lines ((x ∷ line) ∷ []) = (x ∷ line) ∷ []
ended_lines (line ∷ next ∷ rest) = strip_return line ∷ ended_lines (next ∷ rest)

-- `contents.lines()`.
abbrev pub lines : Text → List Text
lines contents = ended_lines (split b'\n' contents)

-- `line.replace(['"', ' '], "")`.
unfoldable pub without_quotes : Text → Text
without_quotes [] = []
without_quotes (x ∷ line) =
    let rest = without_quotes line in if x == b'"' || x == b' ' then rest else x ∷ rest

-- The test on a line.
unfoldable pub is_header : Text → Bool
unfolding starts_with contains without_quotes
is_header line =
    starts_with (without_quotes line) (codes "Time,")
    || contains (without_quotes line) (codes "Number,Date,Time,Channel1")
    || contains (without_quotes line) (codes "Veh.No.,Date,Time,Channel,Class,Speed")

-- The loop over the lines, with the number of lines before.
unfoldable pub find_header : FilePath → ℕ → List Text → Outcome CountError ℕ
unfolding is_header
find_header path num_rows [] = err (bad_header path)
find_header path num_rows (line ∷ rest) =
    let later = find_header path (num_rows + 1) rest in
    if is_header line then ok (num_rows + 1) else later

-- The file as `fs::read_to_string` gives it is an argument.
unfoldable pub num_nondata_rows : FilePath → Outcome Text Text → Outcome CountError ℕ
unfolding find_header ended_lines split
num_nondata_rows path contents = do
  contents ← map_err cannot_open_file contents
  find_header path 0 (take 50 (lines contents))

-- The line before the data is the first header among the first 50 lines; there is an error if none
-- of these is a header.
abbrev pub Found : FilePath → ℕ → List Text → Outcome CountError ℕ → Type 0
Found path before ls (ok n) =
    (k : ℕ) × (n ≡ before + suc k)
    × All (λ l. is_header l ≡ false) (take k ls)
    × (line : Text) × (get_elem? ls k ≡ some line)
    × (is_header line ≡ true)
Found path before ls (err e) = (e ≡ bad_header path) × All (λ l. is_header l ≡ false) ls
Found path before ls panic = ⊥
Found path before ls running = ⊥

Found-later :
    (path : FilePath) (before : ℕ) (line : Text) (ls : List Text) (r : Outcome CountError ℕ)
    → is_header line ≡ false
    → Found path (before + 1) ls r
    → Found path before (line ∷ ls) r
Found-later path before line ls (ok n) h (k, e, none_before, l, at_k, found) =
    (suc k, omega arith, (h, none_before), l, at_k, found)
Found-later path before line ls (err e) h (same, none_at_all) = (same, (h, none_at_all))
Found-later path before line ls panic h f = f
Found-later path before line ls running h f = f

find_header-Found :
    (path : FilePath) (before : ℕ) (ls : List Text)
    → Found path before ls (find_header path before ls)
unfolding find_header
find_header-Found path before [] = (refl, tt)
find_header-Found path before (line ∷ ls) = elim (Bool-cases (is_header line)) [
  | inl here ↦ rw here (0, omega arith, tt, line, refl, here)
  | inr other ↦
      rw other (Found-later path before line ls _ other (find_header-Found path (before + 1) ls))
]

-- For a file that can be read, the result is the number of its lines up to and with the first
-- header, if that is among the first 50 lines. The result is the error for a bad header exactly if
-- none of them is a header.
pub num_nondata_rows-Found :
    (path : FilePath) (contents : Text)
    → Found path 0 (take 50 (lines contents)) (num_nondata_rows path (ok contents))
unfolding num_nondata_rows
num_nondata_rows-Found path contents = find_header-Found path 0 (take 50 (lines contents))
