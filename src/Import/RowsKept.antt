-- ===== src/Import/RowsKept.antt =====
-- What statements, log lines and the clean-up do to the rows of a record number.
use starnext_import.Database.Rows.{Row}
use starnext_import.Database.Session.{SessionLaws, is_dml, filter, has_number, rows_of, without}
use starnext_import.Database.Tables.{is_count_table, record_field}
use starnext_import.External.Connection.{Statement, insert_into}
use starnext_import.Logging.{
  commit_entry, entry_made, file_removed, insert_import_log_entry, write_log,
}
use starnext_import.Prelude.{◌≢◌, ◌<◌, not, u32_mod, Option-cases, ap}
use starnext_import.Prelude.Text.{text_eq_iff}
use starnext_import.External.Chrono.{Chrono}
use starnext_import.External.Connection.{Connection, Level}
use starnext_import.External.FileSystem.{FileSystem, Formats}
use starnext_import.External.Float.{Float}
use starnext_import.External.Oracle.{Oracle}
use starnext_import.Logging.{World, Log, log_msg, cleanup}
use starnext_import.Prelude.FilePath.{FilePath}
use starnext_import.Prelude.Text.{Text, codes, text_eq}
use starnext_import.Prelude.{
  ℕ, List, [], ◌∷◌, ◌++◌, ◌≡◌, refl, sym, ◌∙◌, Bool, true, false, Option, none, some, if◌then◌else◌,
  Bool-cases, inl, inr,
}
use starnext_import.Database.Foreign.{
  filter-append, filter-filter, append_nil, not_listed, import_log_unlisted, has_number_unique,
  other_first, RowsAre,
}

module _ ⦃c : Chrono⦄ ⦃f : Float⦄ {o : Oracle c f} {conn : Connection o} (laws : SessionLaws conn)
    (q : ℕ) where
  module _ (t : Text) (X : List (Row o)) (listed : is_count_table t ≡ true) where
    -- A statement that leaves the rows if it succeeds.
    pub executed :
        (stmt : Statement o.SqlValue) (s : conn.State)
        → is_dml stmt ≡ true
        → ((conn.execute stmt s).0 ≡ none
            → rows_of o laws.equals t q (laws.rows (conn.execute stmt s).1 t)
              ≡ rows_of o laws.equals t q (laws.rows s t))
        → RowsAre laws q t X s
        → RowsAre laws q t X (conn.execute stmt s).1
    executed stmt s dml kept h = record {
      read = elim (Option-cases (conn.execute stmt s).0) [
        | inl e ↦ kept e ∙ h.read
        | inr (e, failed) ↦
            ap (rows_of o laws.equals t q) (laws.execute-some s stmt t dml listed failed) ∙ h.read
      ];
      stored =
          ap (rows_of o laws.equals t q) (laws.execute-committed s stmt t dml listed) ∙ h.stored;
    }

    pub without_rows :
        (table field : Text) (r : ℕ) (rows : List (Row o))
        → q ≢ r
        → field ≡ record_field table
        → rows_of o laws.equals t q
            (if text_eq table t then without o laws.equals field r rows else rows)
          ≡ rows_of o laws.equals t q rows
    without_rows table field r rows ne e = elim (Bool-cases (text_eq table t)) [
      | inr other ↦ rw other refl
      | inl same ↦ rw same (
          filter-filter (has_number o laws.equals (record_field t) q)
            (λ row. not (has_number o laws.equals field r row)) rows
            (λ row holds.
              other_number row (e ∙ ap record_field ((text_eq_iff table t).0 same)) holds))
    ]
      where
        other_number :
            (row : Row o)
            → field ≡ record_field t
            → has_number o laws.equals (record_field t) q row ≡ true
            → not (has_number o laws.equals field r row) ≡ true
        other_number row e holds = elim (Bool-cases (has_number o laws.equals field r row)) [
          | inl p ↦ absurd (
              ne (
                has_number_unique laws q (record_field t) r row holds
                  (ap (λ f. has_number o laws.equals f r row) (sym e) ∙ p)))
          | inr p ↦ rw p refl
        ]

    -- A row of another number is not among those of `q`.
    pub with_row :
        (table : Text) (r : ℕ) (rows : List (Row o)) (row left : Row o)
        → q ≢ r
        → r < u32_mod
        → row ≡ (record_field table, o.of_u32 r) ∷ left
        → rows_of o laws.equals t q (if text_eq table t then rows ++ row ∷ [] else rows)
          ≡ rows_of o laws.equals t q rows
    unfolding filter
    with_row table r rows row left ne bound e = elim (Bool-cases (text_eq table t)) [
      | inr other ↦ rw other refl
      | inl same ↦
          let foreign : has_number o laws.equals (record_field t) q row ≡ false =
            ap (λ t. has_number o laws.equals (record_field t) q row)
              (sym ((text_eq_iff table t).0 same))
            ∙ ap (has_number o laws.equals (record_field table) q) e
            ∙ other_first laws q (record_field table) r left ne bound in
          rw
            (
              same,
              filter-append (has_number o laws.equals (record_field t) q) rows (row ∷ []),
              foreign,
            )
            (append_nil _)
    ]

    pub committed_now :
        (s : conn.State) → RowsAre laws q t X s → RowsAre laws q t X (conn.commit s).1
    committed_now s h = record {
      read = elim (laws.commit-rows s t listed) [
        | inl e ↦ ap (rows_of o laws.equals t q) e ∙ h.read
        | inr e ↦ ap (rows_of o laws.equals t q) e ∙ h.stored
      ];
      stored = elim (laws.commit-committed s t listed) [
        | inl e ↦ ap (rows_of o laws.equals t q) e ∙ h.stored
        | inr e ↦ ap (rows_of o laws.equals t q) e ∙ h.read
      ];
    }

    pub unchanged :
        (s s' : conn.State)
        → laws.rows s' t ≡ laws.rows s t
        → laws.committed s' t ≡ laws.committed s t
        → RowsAre laws q t X s
        → RowsAre laws q t X s'
    unchanged s s' e k h = record {
      read = ap (rows_of o laws.equals t q) e ∙ h.read;
      stored = ap (rows_of o laws.equals t q) k ∙ h.stored;
    }

    -- A row that is inserted into another table than one of counts.
    pub elsewhere :
        (table : Text) (row : Row o) (s : conn.State)
        → is_count_table table ≡ false
        → RowsAre laws q t X s
        → RowsAre laws q t X (conn.execute (insert_into table row) s).1
    elsewhere table row s other h =
        executed (insert_into table row) s refl
          (λ e. ap (rows_of o laws.equals t q) (
            rw (laws.insert_into-none s table row t listed e, not_listed table t other listed)
              refl))
          h

    entry_kept :
        (r : Option o.OracleError × conn.State)
        → RowsAre laws q t X r.1
        → RowsAre laws q t X (commit_entry conn r).1
    entry_kept (none, s) h = committed_now s h
    entry_kept (some e, s) h = h

    module _ (fs : FileSystem) (formats : Formats) where
      made_kept :
          (n : ℕ) (log : Log) (r : Option o.OracleError × conn.State) (w : World conn fs)
          → RowsAre laws q t X r.1
          → RowsAre laws q t X (entry_made conn fs n log r w).db
      unfolding write_log
      made_kept n log (none, s) w h = h
      made_kept n log (some e, s) w h = h

      pub logged_kept :
          (n : ℕ) (log : Log) (level : Level) (message : Text) (w : World conn fs)
          → RowsAre laws q t X w.db
          → RowsAre laws q t X (log_msg conn fs n log level message w).db
      unfolding log_msg write_log insert_import_log_entry
      logged_kept n log level message w h =
          made_kept n log _ _
            (entry_kept _ (elsewhere (codes "import_log") _ w.db import_log_unlisted h))

      removed_kept :
          (path : FilePath) (r : Option Text × fs.Disk) (w : World conn fs)
          → RowsAre laws q t X w.db
          → RowsAre laws q t X (file_removed conn fs formats path r w).db
      unfolding write_log
      removed_kept path (none, disk) w h = h
      removed_kept path (some e, disk) w h = h

      pub cleaned_kept :
          (flag : Bool) (path : FilePath) (w : World conn fs)
          → RowsAre laws q t X w.db
          → RowsAre laws q t X (cleanup conn fs formats flag path w).db
      unfolding cleanup
      cleaned_kept false path w h = h
      cleaned_kept true path w h = removed_kept path _ w h
