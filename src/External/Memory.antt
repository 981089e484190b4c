-- ===== src/External/Memory.antt =====
-- A database, a disk and texts that meet the interfaces: values at which the theorems are applied.
-- A SQL value is kept as it was bound, and the tables of a session are lists of rows.
use starnext_import.External.Instances.{Moment, calendar, hundredths}
use starnext_import.External.Oracle.{Oracle, OracleLaws}
use starnext_import.FieldMetadata.Decimal.{decimal}
use starnext_import.Prelude.Text.{Text, codes}
use starnext_import.Prelude.{ℕ, [], refl, Bool, true, false, Outcome, ok, err}
use starnext_import.Types.Errors.{CountError}

pub data SqlValue : Type 0 where
  sql_null : SqlValue
  sql_number : ℕ → SqlValue
  sql_text : Text → SqlValue
  sql_moment : Moment → SqlValue

pub data OracleError : Type 0 where
  null_value out_of_range no_data refused : OracleError
  parse_failed : CountError → OracleError
  no_column : Text → OracleError

abbrev as_number : SqlValue → Outcome OracleError ℕ
as_number sql_null = err null_value
as_number (sql_number n) = ok n
as_number _ = err out_of_range

abbrev as_words : SqlValue → Outcome OracleError Text
as_words sql_null = err null_value
as_words (sql_text t) = ok t
as_words _ = err out_of_range

abbrev as_moment : SqlValue → Outcome OracleError Moment
as_moment sql_null = err null_value
as_moment (sql_moment x) = ok x
as_moment _ = err out_of_range

abbrev to_text : SqlValue → Text
to_text sql_null = codes "NULL"
to_text (sql_number n) = decimal n
to_text (sql_text t) = t
to_text (sql_moment x) = []

abbrev is_null : OracleError → Bool
is_null null_value = true
is_null _ = false

abbrev pub memory : Oracle calendar hundredths
memory = record {
  SqlValue = SqlValue;
  OracleError = OracleError;
  null_value = null_value;
  parse_error = parse_failed;
  invalid_column_name = no_column;
  invalid_column_index = λ i. no_data;
  is_null_value = is_null;
  display = λ e. codes "error";
  null = sql_null;
  to_string = to_text;
  of_u8 = sql_number;
  of_u16 = sql_number;
  of_u32 = sql_number;
  of_i8 = sql_number;
  of_f32 = sql_number;
  of_text = sql_text;
  of_date = sql_number;
  of_datetime = sql_moment;
  as_u8 = as_number;
  as_u16 = as_number;
  as_u32 = as_number;
  as_i8 = as_number;
  as_f32 = as_number;
  as_text = as_words;
  as_date = as_number;
  as_datetime = as_moment;
}

abbrev pub memory_laws : OracleLaws memory
memory_laws = record {
  is_null_value-null_value = refl;
  to_string-null = refl;
  to_string-of_text = λ t. refl;
  as_u8-of_u8 = λ n h. refl;
  as_u16-of_u16 = λ n h. refl;
  as_u32-of_u32 = λ n h. refl;
  as_f32-of_f32 = λ x. refl;
  as_date-of_date = λ d. refl;
  as_datetime-of_datetime = λ x. refl;
  as_text-of_text = λ t. refl;
  as_u8-null = refl;
  as_u16-null = refl;
  as_u32-null = refl;
  as_i8-null = refl;
  as_f32-null = refl;
}
