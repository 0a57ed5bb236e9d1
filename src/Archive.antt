-- ===== src/Archive.antt =====
-- WAL archiving of a Cluster, internal/controller/archive_health.go: the condition WALArchiving and the
-- record of dropped WAL, with the row of internal/postgres/archiver.go. Instants are numbers, the zero
-- instant is 0. time.Parse and what the servers answer are parameters; events and messages are left out.
pub mod Latch
pub mod Sound
use pgop.Prelude.{
  ℕ, Bool, true, false, not, ◌&&◌, ◌||◌, List, [], ◌∷◌, ◌==◌, nat_eq, ltb, if◌then◌else◌, Option,
  none, some, Result, ok, err, ◌>>=◌, is_empty,
}
use pgop.Text.{Text, text_eq, text}
use pgop.Text.Strings.{is_space, cut}
use pgop.Sql.Statements.{split}
use pgop.Grants.Engine.{CallError}

-- postgres.ArchiverStats, without the names of the segments, which only messages show.
pub record ArchiverStats : Type 0 where
  pub archived_count : ℕ
  pub last_archived_time : ℕ
  pub failed_count : ℕ
  pub last_failed_time : ℕ

-- metav1.ConditionStatus
pub data ConditionStatus : Type 0 where
  condition_true condition_false condition_unknown : ConditionStatus

pub data Reason : Type 0 where
  archiving archive_failing no_wal_archived_yet archive_unknown wal_dropped : Reason

-- `WALDropRecord`
pub record WalDropRecord : Type 0 where
  pub time : ℕ
  pub segment : Text
  pub closed_by : Text

pub record Status : Type 0 where
  pub condition : Option (ConditionStatus × Reason)
  pub last_wal_drop : Option WalDropRecord

-- A BackupRun of the Backup: whether it succeeded, and when it started.
pub record BackupRun : Type 0 where
  pub name : Text
  pub succeeded : Bool
  pub start_time : Option ℕ

-- What is asked: the connection to the primary, `ArchiverStats` and the tail of the marker file there,
-- the BackupRuns of the Backup, and time.Parse of RFC 3339.
pub record Env : Type 0 where
  pub connection : Option CallError
  pub stats : Result CallError ArchiverStats
  pub marker : Result CallError Text
  pub runs : Result CallError (List BackupRun)
  pub parse_time : Text → Option ℕ

-- In seconds.
abbrev pub archive_health_interval : ℕ
archive_health_interval = 60

-- `archivingCondition`
unfoldable pub archiving_condition : ArchiverStats → ConditionStatus × Reason
archiving_condition s =
    if ltb 0 s.failed_count
      && not (s.last_failed_time == 0)
      && (s.last_archived_time == 0 || ltb s.last_archived_time s.last_failed_time)
    then (condition_false, archive_failing)
    else if s.archived_count == 0
    then (condition_unknown, no_wal_archived_yet)
    else (condition_true, archiving)

unfoldable pub trim_left : Text → Text
unfolding is_space
trim_left [] = []
trim_left (c ∷ cs) = let rest = trim_left cs in if is_space c then rest else c ∷ cs

unfoldable pub trim_end : Text → Text
unfolding is_space
trim_end [] = []
trim_end (c ∷ cs) = let rest = trim_end cs in if is_space c && is_empty rest then [] else c ∷ rest

-- strings.TrimSpace
abbrev pub trim_space : Text → Text
trim_space s = trim_left (trim_end s)

-- The newest drop that was read, and its segment.
abbrev pub Newest : Type 0
Newest = ℕ × Text

abbrev pub newer : Newest → Text → Option ℕ → Newest
newer (at, segment) seg none = (at, segment)
newer (at, segment) seg (some t) = if ltb at t then (t, seg) else (at, segment)

unfoldable pub read_line : (Text → Option ℕ) → Newest → Option (Text × Text) → Newest
read_line parse_time newest none = newest
read_line parse_time newest (some (ts, seg)) = newer newest seg (parse_time ts)

unfoldable pub newest_drop : (Text → Option ℕ) → Newest → List Text → Newest
unfolding read_line trim_left trim_end cut
newest_drop parse_time newest [] = newest
newest_drop parse_time newest (l ∷ ls) =
    newest_drop parse_time (read_line parse_time newest (cut (trim_space l) b' ')) ls

abbrev pub open_drop : ℕ → Text → WalDropRecord
open_drop at segment = record { time = at; segment = segment; closed_by = [] }

unfoldable pub record_newer : Option WalDropRecord → Newest → Option WalDropRecord
record_newer last (at, segment) = if at == 0 then last else elim last [
  | none ↦ some (open_drop at segment)
  | some l ↦ if not (ltb l.time at) then some l else some (open_drop at segment)
]

-- `recordWALDrop`; strings.Lines and a split at line feeds differ in line ends, which are trimmed, and
-- an empty last line, which is skipped.
unfoldable pub record_wal_drop :
    (Text → Option ℕ) → Option WalDropRecord → Text → Option WalDropRecord
unfolding record_newer newest_drop split
record_wal_drop parse_time last marker =
    record_newer last (newest_drop parse_time (0, []) (split marker 10))

abbrev pub started_after : ℕ → Option ℕ → Bool
started_after t none = false
started_after t (some s) = ltb t s

unfoldable pub first_run_after : ℕ → List BackupRun → Text
first_run_after t [] = []
first_run_after t (r ∷ rs) =
    let rest = first_run_after t rs in
    if r.succeeded && started_after t r.start_time then r.name else rest

-- `backupStartedAfter`
unfoldable pub backup_started_after : Result CallError (List BackupRun) → ℕ → Result CallError Text
unfolding first_run_after
backup_started_after runs t = do rs ← runs; ok (first_run_after t rs)

abbrev pub set : Option WalDropRecord → ConditionStatus × Reason → Status
set drop condition = record { condition = some condition; last_wal_drop = drop }

abbrev pub unknown : Option WalDropRecord → Status
unknown drop = set drop (condition_unknown, archive_unknown)

-- What follows `backupStartedAfter`, for an open drop.
unfoldable pub close_drop : ArchiverStats → WalDropRecord → Result CallError Text → Status
unfolding archiving_condition
close_drop stats drop (err e) = unknown (some drop)
close_drop stats drop (ok closed_by) =
    if is_empty closed_by
    then set (some drop) (condition_false, wal_dropped)
    else set (some (record drop { closed_by = closed_by })) (archiving_condition stats)

-- What follows `recordWALDrop`.
unfoldable pub judge_drop :
    Result CallError (List BackupRun) → ArchiverStats → Option WalDropRecord → Status
unfolding close_drop backup_started_after
judge_drop runs stats none = set none (archiving_condition stats)
judge_drop runs stats (some drop) =
    if is_empty drop.closed_by
    then close_drop stats drop (backup_started_after runs drop.time)
    else set (some drop) (archiving_condition stats)

unfoldable pub after_marker :
    Env → Option WalDropRecord → ArchiverStats → Result CallError Text → Status
unfolding judge_drop record_wal_drop
after_marker env last stats (err e) = unknown last
after_marker env last stats (ok marker) =
    judge_drop env.runs stats (record_wal_drop env.parse_time last marker)

unfoldable pub after_stats : Env → Option WalDropRecord → Result CallError ArchiverStats → Status
unfolding after_marker
after_stats env last (err e) = unknown last
after_stats env last (ok stats) = after_marker env last stats env.marker

abbrev pub after_connection : Env → Option WalDropRecord → Option CallError → Status
after_connection env last (some e) = unknown last
after_connection env last none = after_stats env last env.stats

-- `reconcileArchiveHealth`, of a Cluster with a physical Backup or without, that is ready or is not; and
-- when to check again.
unfoldable pub reconcile_archive_health : Env → Bool → Bool → Status → Status × ℕ
unfolding after_stats
reconcile_archive_health env has_backup ready status =
    if not has_backup
    then (record status { condition = none }, 0)
    else if not ready
    then (status, archive_health_interval)
    else (after_connection env status.last_wal_drop env.connection, archive_health_interval)
