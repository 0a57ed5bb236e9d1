-- ===== src/Archive/Latch.antt =====
-- A drop of WAL is latched until a backup that started after it succeeds.
use pgop.Prelude.{
  ℕ, ◌<◌, Bool, true, false, ◌&&◌, List, [], ◌∷◌, ◌==◌, nat_eq, ltb, ◌≡◌, ◌⊎◌, inl, inr, refl,
  Option, none, some, Result, ok, err, is_empty, arith, Bool-cases,
}
use pgop.Text.{Text, text_eq}
use pgop.Grants.Engine.{CallError}
use pgop.Archive.{
  ArchiverStats, WalDropRecord, Status, BackupRun, Env, open_drop, record_newer, record_wal_drop,
  started_after, first_run_after, backup_started_after, close_drop, judge_drop, after_marker,
  after_stats, after_connection, reconcile_archive_health,
}

abbrev pub Among : BackupRun → List BackupRun → Type 0
Among r [] = ⊥
Among r (x ∷ xs) = (r ≡ x) ⊎ Among r xs

-- The drop recorded before is older.
abbrev pub IsOlder : Option WalDropRecord → ℕ → Type 0
IsOlder none t = 0 < t
IsOlder (some d) t = d.time < t

-- How the record of a drop moves: a newer drop takes its place and is open, or an open drop is closed
-- by a run of the Backup that succeeded and started after it.
pub data Moves (runs : List BackupRun) : Option WalDropRecord → Option WalDropRecord → Type 0 where
  stays : (o : Option WalDropRecord) → Moves runs o o
  records :
      (last o : Option WalDropRecord) (t : ℕ) (segment : Text)
      → IsOlder last t
      → Moves runs (some (open_drop t segment)) o
      → Moves runs last o
  closes :
      (d : WalDropRecord) (run : BackupRun)
      → is_empty d.closed_by ≡ true
      → Among run runs
      → run.succeeded ≡ true
      → started_after d.time run.start_time ≡ true
      → Moves runs (some d) (some (record d { closed_by = run.name }))

first_run_after-Among :
    (t : ℕ) (rs : List BackupRun)
    → is_empty (first_run_after t rs) ≡ false
    → (r : BackupRun) × Among r rs
      × (r.succeeded ≡ true)
      × (started_after t r.start_time ≡ true)
      × (first_run_after t rs ≡ r.name)
unfolding first_run_after
first_run_after-Among t [] h = absurd (ground (arith, h))
first_run_after-Among t (r ∷ rs) h =
    elim (Bool-cases (r.succeeded && started_after t r.start_time)) [
      | inl found ↦
          (r, inl refl, ground (arith, found), ground (arith, found), ground (arith, found))
      | inr not_this ↦
          let (x, among, succeeded, started, name) =
            first_run_after-Among t rs (ground (arith, h, not_this)) in
          (x, inr among, succeeded, started, ground (arith, not_this, name))
    ]

-- What a run makes of the record, with the BackupRuns that it reads; where they cannot be read, no drop
-- is closed.
abbrev pub MovesTo :
    Result CallError (List BackupRun) → Option WalDropRecord → Option WalDropRecord → Type 0
MovesTo (err e) a b = Moves [] a b
MovesTo (ok rs) a b = Moves rs a b

close_drop-MovesTo :
    (runs : Result CallError (List BackupRun)) (stats : ArchiverStats) (d : WalDropRecord)
    → is_empty d.closed_by ≡ true
    → MovesTo runs (some d) (close_drop stats d (backup_started_after runs d.time)).last_wal_drop
unfolding close_drop backup_started_after
close_drop-MovesTo (err e) stats d h = stays (some d)
close_drop-MovesTo (ok rs) stats d h = elim (Bool-cases (is_empty (first_run_after d.time rs))) [
  | inl nothing ↦ rw nothing (stays (some d))
  | inr found ↦
      let (run, among, succeeded, started, name) = first_run_after-Among d.time rs found in
      rw (found, name) (closes d run h among succeeded started)
]

MovesTo-stays :
    (runs : Result CallError (List BackupRun)) (o : Option WalDropRecord) → MovesTo runs o o
MovesTo-stays (err e) o = stays o
MovesTo-stays (ok rs) o = stays o

MovesTo-records :
    (runs : Result CallError (List BackupRun)) (last o : Option WalDropRecord) (t : ℕ)
    (segment : Text)
    → IsOlder last t
    → MovesTo runs (some (open_drop t segment)) o
    → MovesTo runs last o
MovesTo-records (err e) last o t segment older m = records last o t segment older m
MovesTo-records (ok rs) last o t segment older m = records last o t segment older m

record_newer-cases :
    (last : Option WalDropRecord) (at : ℕ) (segment : Text)
    → (record_newer last (at, segment) ≡ last)
      ⊎ (IsOlder last at × (record_newer last (at, segment) ≡ some (open_drop at segment)))
unfolding record_newer
record_newer-cases last at segment = elim (Bool-cases (at == 0)) [
  | inl nothing ↦ inl (rw nothing refl)
  | inr read ↦ against last read
]
  where
    against :
        (last : Option WalDropRecord)
        → (at == 0) ≡ false
        → (record_newer last (at, segment) ≡ last)
          ⊎ (IsOlder last at × (record_newer last (at, segment) ≡ some (open_drop at segment)))
    against none read = inr (ground (arith, read), rw read refl)
    against (some l) read = elim (Bool-cases (ltb l.time at)) [
      | inl older ↦ inr (ground (arith, older), rw (read, older) refl)
      | inr same ↦ inl (rw (read, same) refl)
    ]

record_newer-MovesTo :
    (runs : Result CallError (List BackupRun)) (last o : Option WalDropRecord) (at : ℕ)
    (segment : Text)
    → MovesTo runs (record_newer last (at, segment)) o
    → MovesTo runs last o
record_newer-MovesTo runs last o at segment m = elim (record_newer-cases last at segment) [
  | inl same ↦ rw same at m
  | inr (older, newer) ↦ MovesTo-records runs last o at segment older (rw newer at m)
]

judge_drop-MovesTo :
    (runs : Result CallError (List BackupRun)) (stats : ArchiverStats) (o : Option WalDropRecord)
    → MovesTo runs o (judge_drop runs stats o).last_wal_drop
unfolding judge_drop
judge_drop-MovesTo runs stats none = MovesTo-stays runs none
judge_drop-MovesTo runs stats (some d) = elim (Bool-cases (is_empty d.closed_by)) [
  | inl is_open ↦ rw is_open (close_drop-MovesTo runs stats d is_open)
  | inr closed ↦ rw closed (MovesTo-stays runs (some d))
]

after_marker-MovesTo :
    (env : Env) (last : Option WalDropRecord) (stats : ArchiverStats)
    (marker : Result CallError Text)
    → MovesTo env.runs last (after_marker env last stats marker).last_wal_drop
unfolding after_marker record_wal_drop
after_marker-MovesTo env last stats (err e) = MovesTo-stays env.runs last
after_marker-MovesTo env last stats (ok marker) =
    record_newer-MovesTo env.runs last _ _ _ (judge_drop-MovesTo env.runs stats _)

after_stats-MovesTo :
    (env : Env) (last : Option WalDropRecord) (stats : Result CallError ArchiverStats)
    → MovesTo env.runs last (after_stats env last stats).last_wal_drop
unfolding after_stats
after_stats-MovesTo env last (err e) = MovesTo-stays env.runs last
after_stats-MovesTo env last (ok stats) = after_marker-MovesTo env last stats env.marker

after_connection-MovesTo :
    (env : Env) (last : Option WalDropRecord) (e : Option CallError)
    → MovesTo env.runs last (after_connection env last e).last_wal_drop
after_connection-MovesTo env last (some e) = MovesTo-stays env.runs last
after_connection-MovesTo env last none = after_stats-MovesTo env last env.stats

-- In every branch, errors included, the recorded drop stays, or gives way to a newer one that is open,
-- or is closed by a run of the Backup that succeeded and started after it; where the runs cannot be
-- listed none is closed.
pub reconcile_archive_health-Moves :
    (env : Env) (has_backup ready : Bool) (status : Status)
    → MovesTo env.runs status.last_wal_drop
        (reconcile_archive_health env has_backup ready status).0.last_wal_drop
unfolding reconcile_archive_health
reconcile_archive_health-Moves env false ready status = MovesTo-stays env.runs status.last_wal_drop
reconcile_archive_health-Moves env true false status = MovesTo-stays env.runs status.last_wal_drop
reconcile_archive_health-Moves env true true status =
    after_connection-MovesTo env status.last_wal_drop env.connection
