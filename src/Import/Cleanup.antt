-- ===== src/Import/Cleanup.antt =====
-- A file is removed once it was finished or given up, and only then.
use starnext_import.Prelude.{◌++◌}
use starnext_import.Import.{next, skip, dies, starved}
use starnext_import.Import.Loop.{next_file, process_files}
use starnext_import.External.Chrono.{Chrono}
use starnext_import.External.Connection.{Connection, Level}
use starnext_import.External.FileSystem.{FileSystem, Formats}
use starnext_import.External.Float.{Float}
use starnext_import.External.Oracle.{Oracle}
use starnext_import.Extract.Input.{from_parent_dir}
use starnext_import.FieldMetadata.{from_path}
use starnext_import.Import.Keeps.{KeepsRound}
use starnext_import.Import.Keeps.Rounds.{process_count-Ends}
use starnext_import.Import.Ends.{Ends}
use starnext_import.Import.Loop.{process_file, named, is_log}
use starnext_import.Import.{Flow, last_state}
use starnext_import.Logging.{World, Log, entry_made, write_log, log_msg, cleanup, file_removed}
use starnext_import.Prelude.FilePath.{FilePath}
use starnext_import.Prelude.Text.{Text}
use starnext_import.Prelude.{
  ℕ, List, [], ◌∷◌, ◌≡◌, refl, ◌∙◌, ap, Bool, true, false, Option, none, some, Outcome, ok, err,
  panic, running, if◌then◌else◌, Bool-cases, inl, inr,
}
use starnext_import.Types.Errors.{CountError}

module _ ⦃c : Chrono⦄ ⦃f : Float⦄ {o : Oracle c f} (conn : Connection o) (fs : FileSystem) where
  entry_made-disk :
      (recordnum : ℕ) (log : Log) (r : Option o.OracleError × conn.State) (w : World conn fs)
      → (entry_made conn fs recordnum log r w).disk ≡ w.disk
  unfolding write_log
  entry_made-disk recordnum log (none, s) w = refl
  entry_made-disk recordnum log (some e, s) w = refl

  -- Nothing that is logged changes the disk.
  pub log_msg-disk :
      (recordnum : ℕ) (log : Log) (level : Level) (message : Text) (w : World conn fs)
      → (log_msg conn fs recordnum log level message w).disk ≡ w.disk
  unfolding log_msg write_log
  log_msg-disk recordnum log level message w = entry_made-disk recordnum log _ _

-- The disk after the clean-up of a file.
abbrev pub cleaned_disk : (fs : FileSystem) → Bool → FilePath → fs.Disk → fs.Disk
cleaned_disk fs false path disk = disk
cleaned_disk fs true path disk = (fs.remove_file path disk).1

-- The disk after the clean-up of each path of a list that is not that of a log.
abbrev pub cleaned_all : (fs : FileSystem) → Bool → List FilePath → fs.Disk → fs.Disk
cleaned_all fs flag [] disk = disk
cleaned_all fs flag (path ∷ paths) disk =
    cleaned_all fs flag paths (if is_log path then disk else cleaned_disk fs flag path disk)

module _ ⦃c : Chrono⦄ ⦃f : Float⦄ {o : Oracle c f} (conn : Connection o) (fs : FileSystem)
    (formats : Formats) where
  file_removed-disk :
      (path : FilePath) (r : Option Text × fs.Disk) (w : World conn fs)
      → (file_removed conn fs formats path r w).disk ≡ r.1
  unfolding write_log
  file_removed-disk path (none, disk) w = refl
  file_removed-disk path (some e, disk) w = refl

  pub cleanup-disk :
      (flag : Bool) (path : FilePath) (w : World conn fs)
      → (cleanup conn fs formats flag path w).disk ≡ cleaned_disk fs flag path w.disk
  unfolding cleanup
  cleanup-disk false path w = refl
  cleanup-disk true path w = file_removed-disk path _ w

  -- The disk is kept until the clean-up of the file.
  disk-Keeps :
      (flag : Bool) (path : FilePath) (r : ℕ) (disk : fs.Disk)
      → KeepsRound conn fs formats flag path r
          (λ w. w.disk ≡ disk)
          (λ w. w.disk ≡ cleaned_disk fs flag path disk)
  disk-Keeps flag path r disk = record {
    counted = record {
      logs = λ n log level message w h. log_msg-disk conn fs n log level message w ∙ h;
      deletes = λ table w listed h. h;
      inserts = λ table v w listed number h. h;
      commits = λ w h. h;
      queries = λ sql values w h. h;
      cleans = λ w h. cleanup-disk flag path w ∙ ap (cleaned_disk fs flag path) h;
    };
    updates = λ clause values w h. h;
    calls = λ procedure n w h. h;
    row_queries = λ sql values w h. h;
  }

  module _ (as_i32 : o.SqlValue → Outcome o.OracleError ℕ) (fuel : ℕ) (flag : Bool) where
    -- How the round of a file ends: the file was cleaned up, or the program stops and nothing was.
    abbrev Disposed : FilePath → fs.Disk → Flow (World conn fs) → Type 0
    Disposed path disk =
        let after = λ (w : World conn fs).
          w.disk ≡ (if is_log path then disk else cleaned_disk fs flag path disk) in
        Ends after after (λ w. w.disk ≡ disk)

    named-Ends :
        {A : Type 0} (path : FilePath) (disk : fs.Disk) (result : Outcome CountError A)
        (rest : A → World conn fs → Flow (World conn fs)) (w : World conn fs)
        → w.disk ≡ disk
        → ((v : A)
            → result ≡ ok v
            → Ends
                (λ w. w.disk ≡ cleaned_disk fs flag path disk)
                (λ w. w.disk ≡ cleaned_disk fs flag path disk)
                (λ w. w.disk ≡ disk)
                (rest v w))
        → Ends
            (λ w. w.disk ≡ cleaned_disk fs flag path disk)
            (λ w. w.disk ≡ cleaned_disk fs flag path disk)
            (λ w. w.disk ≡ disk)
            (named conn fs formats as_i32 fuel flag path result rest w)
    unfolding write_log
    named-Ends path disk (ok v) rest w h k = k v refl
    named-Ends path disk (err e) rest w h k =
        cleanup-disk flag path _ ∙ ap (cleaned_disk fs flag path) h
    named-Ends path disk panic rest w h k = h
    named-Ends path disk running rest w h k = h

    process_file-Disposed :
        (path : FilePath) (w : World conn fs)
        → Disposed path w.disk (process_file conn fs formats as_i32 fuel flag path w)
    unfolding process_file
    process_file-Disposed path w = elim (Bool-cases (is_log path)) [
      | inl e ↦ rw e refl
      | inr e ↦ rw e (
          named-Ends path w.disk (from_parent_dir path) _ w refl (λ kind _.
            named-Ends path w.disk (from_path path) _ w refl (λ m named.
              process_count-Ends conn fs formats as_i32 fuel path m
                (disk-Keeps flag path m.recordnum w.disk) kind w named refl)))
    ]

    -- The loop stops at a file: it went on after those before it, which were cleaned up, and that file
    -- and those after it were not.
    pub record StopsAt (paths : List FilePath) (start : World conn fs)
        (stopped : Flow (World conn fs)) : Type 0 where
      pub finished : List FilePath
      pub path : FilePath
      pub later : List FilePath
      pub split : finished ++ path ∷ later ≡ paths
      pub before : World conn fs
      pub reached : process_files conn fs formats as_i32 fuel flag finished start ≡ next before
      pub stops : process_file conn fs formats as_i32 fuel flag path before ≡ stopped
      pub cleaned : (last_state stopped).disk ≡ cleaned_all fs flag finished start.disk

    -- How the loop ends: every file was cleaned up, or the program stops in the round of a file.
    abbrev pub AllDisposed : List FilePath → World conn fs → Flow (World conn fs) → Type 0
    AllDisposed paths start (next w) = w.disk ≡ cleaned_all fs flag paths start.disk
    AllDisposed paths start (skip w) = ⊥
    AllDisposed paths start (dies w) = StopsAt paths start (dies w)
    AllDisposed paths start (starved w) = StopsAt paths start (starved w)

    StopsAt-later :
        (path : FilePath) (paths : List FilePath) (start w : World conn fs)
        (stopped : Flow (World conn fs))
        → w.disk ≡ (if is_log path then start.disk else cleaned_disk fs flag path start.disk)
        → ((paths : List FilePath)
            → process_files conn fs formats as_i32 fuel flag (path ∷ paths) start
              ≡ process_files conn fs formats as_i32 fuel flag paths w)
        → StopsAt paths w stopped
        → StopsAt (path ∷ paths) start stopped
    StopsAt-later path paths start w stopped e on h = record {
      finished = path ∷ h.finished;
      path = h.path;
      later = h.later;
      split = ap (λ ps. path ∷ ps) h.split;
      before = h.before;
      reached = on h.finished ∙ h.reached;
      stops = h.stops;
      cleaned = h.cleaned ∙ ap (cleaned_all fs flag h.finished) e;
    }

    later_Disposed :
        (path : FilePath) (paths : List FilePath) (start w : World conn fs)
        → w.disk ≡ (if is_log path then start.disk else cleaned_disk fs flag path start.disk)
        → ((paths : List FilePath)
            → process_files conn fs formats as_i32 fuel flag (path ∷ paths) start
              ≡ process_files conn fs formats as_i32 fuel flag paths w)
        → (m : Flow (World conn fs)) → AllDisposed paths w m
        → AllDisposed (path ∷ paths) start m
    later_Disposed path paths start w e on (next v) h = h ∙ ap (cleaned_all fs flag paths) e
    later_Disposed path paths start w e on (skip v) h = h
    later_Disposed path paths start w e on (dies v) h =
        StopsAt-later path paths start w (dies v) e on h
    later_Disposed path paths start w e on (starved v) h =
        StopsAt-later path paths start w (starved v) e on h

    -- The program stops in the round of the first file.
    StopsAt-first :
        (path : FilePath) (paths : List FilePath) (start : World conn fs)
        (stopped : Flow (World conn fs))
        → process_file conn fs formats as_i32 fuel flag path start ≡ stopped
        → (last_state stopped).disk ≡ start.disk
        → StopsAt (path ∷ paths) start stopped
    unfolding process_files
    StopsAt-first path paths start stopped e h = record {
      finished = [];
      path = path;
      later = paths;
      split = refl;
      before = start;
      reached = refl;
      stops = e;
      cleaned = h;
    }

    next_file-Disposed :
        (path : FilePath) (paths : List FilePath) (start : World conn fs) (m : Flow (World conn fs))
        → process_file conn fs formats as_i32 fuel flag path start ≡ m
        → Disposed path start.disk m
        → ((w : World conn fs)
            → AllDisposed paths w (process_files conn fs formats as_i32 fuel flag paths w))
        → AllDisposed (path ∷ paths) start (
            next_file conn fs formats as_i32 fuel flag m
              (process_files conn fs formats as_i32 fuel flag paths))
    unfolding process_files
    next_file-Disposed path paths start (next w) e h k =
        later_Disposed path paths start w h (λ ps. rw e refl)
          (process_files conn fs formats as_i32 fuel flag paths w) (k w)
    next_file-Disposed path paths start (skip w) e h k =
        later_Disposed path paths start w h (λ ps. rw e refl)
          (process_files conn fs formats as_i32 fuel flag paths w) (k w)
    next_file-Disposed path paths start (dies w) e h k = StopsAt-first path paths start (dies w) e h
    next_file-Disposed path paths start (starved w) e h k =
        StopsAt-first path paths start (starved w) e h

    -- Unless the program stops, the loop cleans up every file once, in order, whatever fails; files
    -- of logs are left. If it stops, it does so in the round of a file that it reached after those
    -- before it were cleaned up, and that file and those after it are kept.
    pub process_files-AllDisposed :
        (paths : List FilePath) (w : World conn fs)
        → AllDisposed paths w (process_files conn fs formats as_i32 fuel flag paths w)
    unfolding process_files
    process_files-AllDisposed [] w = refl
    process_files-AllDisposed (path ∷ paths) w =
        next_file-Disposed path paths w (process_file conn fs formats as_i32 fuel flag path w) refl
          (process_file-Disposed path w) (process_files-AllDisposed paths)
