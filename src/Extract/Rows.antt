-- ===== src/Extract/Rows.antt =====
-- The rows of a data file, as the CSV reader gives them, and what the extractors of
-- src/extract_from_file.rs do with their columns.
use starnext_import.External.Chrono.{Chrono}
use starnext_import.Extract.Header.{num_nondata_rows}
use starnext_import.Prelude.FilePath.{FilePath}
use starnext_import.Prelude.Text.{Text, codes, parse_uint}
use starnext_import.Prelude.{ℕ, List, Outcome, ok, unwrap, unwrap_ok, ◌>>=◌, get_elem?, drop}
use starnext_import.Types.Errors.{CountError}

-- A file that was opened: the records of the CSV reader, of which each may be an error, and what
-- `fs::read_to_string` gives.
pub record Opened : Type 0 where
  pub records : List (Outcome Text (List Text))
  pub contents : Outcome Text Text

-- `rdr.records().skip(num_nondata_rows(path)?)`.
unfoldable pub data_rows : FilePath → Opened → Outcome CountError (List (Outcome Text (List Text)))
data_rows path file = do
  skipped ← num_nondata_rows path file.contents
  ok (drop skipped file.records)

-- `&row.as_ref().unwrap()[i]`.
abbrev pub column : Outcome Text (List Text) → ℕ → Outcome CountError Text
column row i = unwrap_ok row >>= λ row. unwrap (get_elem? row i)

-- `row.as_ref().unwrap()[i].parse().unwrap()`, for a number below `bound`.
abbrev pub number : ℕ → Outcome Text (List Text) → ℕ → Outcome CountError ℕ
number bound row i = column row i >>= λ word. unwrap_ok (parse_uint bound word)

module _ ⦃c : Chrono⦄ where
  -- The date of column 1, and the time of column 2 in the format.
  abbrev pub date_and_time :
      Text → Outcome Text (List Text) → Outcome CountError (c.NaiveDate × c.NaiveTime)
  date_and_time time_format row = do
    date_col ← column row 1
    count_date ← unwrap (c.parse_date date_col (codes "%-m/%-d/%Y"))
    time_col ← column row 2
    count_time ← unwrap (c.parse_time time_col time_format)
    ok (count_date, count_time)
