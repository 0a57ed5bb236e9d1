-- ===== src/Tests/Archive.antt =====
-- WAL archiving on concrete inputs.
use pgop.Prelude.{true, [], ◌∷◌, none, some, ok, arith}
use pgop.Text.{text}
use pgop.Archive.{condition_false, wal_dropped, Status, BackupRun, Env, reconcile_archive_health}
use pgop.Archive.Latch.{MovesTo, reconcile_archive_health-Moves}
use pgop.Archive.Sound.{IsSound, reconcile_archive_health-IsSound}

-- A drop at the time 5 is recorded; a newer one is in the marker file, and a run started after both.
abbrev status : Status
status = record {
  condition = some (condition_false, wal_dropped);
  last_wal_drop = some (record { time = 5; segment = text "A"; closed_by = [] });
}

abbrev run : BackupRun
run = record { name = text "full"; succeeded = true; start_time = some 9 }

abbrev env : Env
env = record {
  connection = none;
  stats = ok (record {
    archived_count = 1;
    last_archived_time = 9;
    failed_count = 0;
    last_failed_time = 0;
  });
  marker = ok (text "t B");
  runs = ok (run ∷ []);
  parse_time = λ t. some 7;
}

reconcile_archive_health-Moves_example :
    MovesTo env.runs status.last_wal_drop
      (reconcile_archive_health env true true status).0.last_wal_drop
reconcile_archive_health-Moves_example = reconcile_archive_health-Moves env true true status

reconcile_archive_health-IsSound_example : IsSound (reconcile_archive_health env true true status).0
reconcile_archive_health-IsSound_example =
    reconcile_archive_health-IsSound env true true status (λ r h. absurd (ground (arith, h)))
