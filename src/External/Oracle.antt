-- ===== src/External/Oracle.antt =====
-- The conversions of the crate oracle between Rust values and SQL values, with what its documentation
-- says of them: a value is read back as it was bound, and NULL is read as the error `NullValue`.
use starnext_import.External.Chrono.{Chrono}
use starnext_import.External.Float.{Float}
use starnext_import.Prelude.Text.{Text, codes}
use starnext_import.Prelude.{ℕ, ◌<◌, ◌≡◌, Bool, true, Outcome, ok, err, u8_mod, u16_mod, u32_mod}
use starnext_import.Types.Errors.{CountError}

pub record Oracle (c : Chrono) (f : Float) : Type 1 where
  pub SqlValue : Type 0
  pub OracleError : Type 0
  -- `OracleError::NullValue`, `ParseError` of another error, `InvalidColumnName`, and
  -- `InvalidColumnIndex`
  pub null_value : OracleError
  pub parse_error : CountError → OracleError
  pub invalid_column_name : Text → OracleError
  pub invalid_column_index : ℕ → OracleError
  pub is_null_value : OracleError → Bool
  -- `Display` of an error
  pub display : OracleError → Text
  -- NULL, and `val.to_string()`
  pub null : SqlValue
  pub to_string : SqlValue → Text
  -- `ToSql` and `FromSql` of the types that the tables use
  pub of_u8 : ℕ → SqlValue
  pub of_u16 : ℕ → SqlValue
  pub of_u32 : ℕ → SqlValue
  pub of_i8 : ℕ → SqlValue
  pub of_f32 : f.F32 → SqlValue
  pub of_text : Text → SqlValue
  pub of_date : c.NaiveDate → SqlValue
  pub of_datetime : c.NaiveDateTime → SqlValue
  pub as_u8 : SqlValue → Outcome OracleError ℕ
  pub as_u16 : SqlValue → Outcome OracleError ℕ
  pub as_u32 : SqlValue → Outcome OracleError ℕ
  pub as_i8 : SqlValue → Outcome OracleError ℕ
  pub as_f32 : SqlValue → Outcome OracleError f.F32
  pub as_text : SqlValue → Outcome OracleError Text
  pub as_date : SqlValue → Outcome OracleError c.NaiveDate
  pub as_datetime : SqlValue → Outcome OracleError c.NaiveDateTime

pub record OracleLaws {c : Chrono} {f : Float} (o : Oracle c f) : Type 0 where
  pub is_null_value-null_value : o.is_null_value o.null_value ≡ true
  pub to_string-null : o.to_string o.null ≡ codes "NULL"
  pub to_string-of_text : (t : Text) → o.to_string (o.of_text t) ≡ t
  pub as_u8-of_u8 : (n : ℕ) → n < u8_mod → o.as_u8 (o.of_u8 n) ≡ ok n
  pub as_u16-of_u16 : (n : ℕ) → n < u16_mod → o.as_u16 (o.of_u16 n) ≡ ok n
  pub as_u32-of_u32 : (n : ℕ) → n < u32_mod → o.as_u32 (o.of_u32 n) ≡ ok n
  pub as_f32-of_f32 : (x : f.F32) → o.as_f32 (o.of_f32 x) ≡ ok x
  pub as_date-of_date : (d : c.NaiveDate) → o.as_date (o.of_date d) ≡ ok d
  pub as_datetime-of_datetime : (x : c.NaiveDateTime) → o.as_datetime (o.of_datetime x) ≡ ok x
  pub as_text-of_text : (t : Text) → o.as_text (o.of_text t) ≡ ok t
  pub as_u8-null : o.as_u8 o.null ≡ err o.null_value
  pub as_u16-null : o.as_u16 o.null ≡ err o.null_value
  pub as_u32-null : o.as_u32 o.null ≡ err o.null_value
  pub as_i8-null : o.as_i8 o.null ≡ err o.null_value
  pub as_f32-null : o.as_f32 o.null ≡ err o.null_value
