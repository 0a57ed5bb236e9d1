-- ===== src/Archive/Sound.antt =====
-- Archiving is not reported healthy while a drop of WAL is open.
use pgop.Prelude.{
  Bool, true, false, List, ◌≡◌, inl, inr, Option, none, some, Result, ok, err, is_empty, arith,
  Bool-cases,
}
use pgop.Text.{Text}
use pgop.Grants.Engine.{CallError}
use pgop.Archive.{
  ArchiverStats, condition_true, Reason, WalDropRecord, Status, BackupRun, Env,
  backup_started_after, close_drop, judge_drop, after_marker, after_stats, after_connection,
  reconcile_archive_health,
}

-- No drop is open.
abbrev pub IsClosed : Option WalDropRecord → Type 0
IsClosed none = Unit
IsClosed (some d) = is_empty d.closed_by ≡ false

-- Archiving is reported healthy only while no drop is open.
abbrev pub IsSound : Status → Type 0
IsSound s = (r : Reason) → s.condition ≡ some (condition_true, r) → IsClosed s.last_wal_drop

close_drop-IsSound :
    (stats : ArchiverStats) (d : WalDropRecord) (answer : Result CallError Text)
    → IsSound (close_drop stats d answer)
unfolding close_drop
close_drop-IsSound stats d (err e) = λ r h. absurd (ground (arith, h))
close_drop-IsSound stats d (ok closed_by) = elim (Bool-cases (is_empty closed_by)) [
  | inl nothing ↦ rw nothing (λ r h. absurd (ground (arith, h)))
  | inr found ↦ rw found (λ r h. found)
]

judge_drop-IsSound :
    (runs : Result CallError (List BackupRun)) (stats : ArchiverStats) (o : Option WalDropRecord)
    → IsSound (judge_drop runs stats o)
unfolding judge_drop
judge_drop-IsSound runs stats none = λ r h. tt
judge_drop-IsSound runs stats (some d) = elim (Bool-cases (is_empty d.closed_by)) [
  | inl is_open ↦ rw is_open (close_drop-IsSound stats d (backup_started_after runs d.time))
  | inr closed ↦ rw closed (λ r h. closed)
]

after_marker-IsSound :
    (env : Env) (last : Option WalDropRecord) (stats : ArchiverStats)
    (marker : Result CallError Text)
    → IsSound (after_marker env last stats marker)
unfolding after_marker
after_marker-IsSound env last stats (err e) = λ r h. absurd (ground (arith, h))
after_marker-IsSound env last stats (ok marker) = judge_drop-IsSound env.runs stats _

after_stats-IsSound :
    (env : Env) (last : Option WalDropRecord) (stats : Result CallError ArchiverStats)
    → IsSound (after_stats env last stats)
unfolding after_stats
after_stats-IsSound env last (err e) = λ r h. absurd (ground (arith, h))
after_stats-IsSound env last (ok stats) = after_marker-IsSound env last stats env.marker

after_connection-IsSound :
    (env : Env) (last : Option WalDropRecord) (e : Option CallError)
    → IsSound (after_connection env last e)
after_connection-IsSound env last (some e) = λ r h. absurd (ground (arith, h))
after_connection-IsSound env last none = after_stats-IsSound env last env.stats

-- Every branch, errors included, keeps it so that archiving is reported healthy only while no drop of
-- WAL is open.
pub reconcile_archive_health-IsSound :
    (env : Env) (has_backup ready : Bool) (status : Status)
    → IsSound status
    → IsSound (reconcile_archive_health env has_backup ready status).0
unfolding reconcile_archive_health
reconcile_archive_health-IsSound env false ready status h = λ r e. absurd (ground (arith, e))
reconcile_archive_health-IsSound env true false status h = h
reconcile_archive_health-IsSound env true true status h =
    after_connection-IsSound env status.last_wal_drop env.connection
