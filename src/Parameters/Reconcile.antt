-- ===== src/Parameters/Reconcile.antt =====
-- Applying spec.parameters to the running server: `reconcileParameters`, `readParameterState`,
-- `reloadForParameters` and `restartForParameters` of internal/controller/pgconfig.go. What the servers, the
-- API server and the hash of the file answer are parameters, and so are the layout of the data directory,
-- the readiness, and the addresses of the ready standbys in the order of their names. The events, the
-- messages of the condition, status.secretName and the closing of connections are left out. Delays are in seconds.
use pgop.Prelude.{
  ℕ, Bool, true, false, not, List, [], ◌∷◌, ◌++◌, ◌==◌, nat_eq, if◌then◌else◌, Option, none, some,
  Result, ok, err, ◌>>=◌, is_empty,
}
use pgop.Text.{Text, text_eq, text}
use pgop.Grants.Engine.{CallError}
use pgop.Settings.{Settings}
use pgop.Parameters.{duplicate_parameters, parameters_with_line_breaks, render_postgres_conf}
use pgop.Parameters.Assess.{FileSetting, Setting, Assessment, assess_parameters}

-- The reasons of the condition ParametersApplied.
pub data Reason : Type 0 where
  invalid_parameter : Reason
  waiting_for_server : Reason
  waiting_for_sync : Reason
  parameters_reloading : Reason
  pending_restart : Reason
  overridden_by_alter_system : Reason
  parameters_applied : Reason

-- The status of the Cluster: the hash of the file that was loaded, the parameters that wait for a
-- restart, and the condition, with its status.
pub record Status : Type 0 where
  pub parameters_hash : Text
  pub pending : List Text
  pub condition : Option (Bool × Reason)

-- `ParameterServer`
pub record Server : Type 0 where
  pub config_file : Result CallError Text
  pub file_settings : Result CallError (List FileSetting)
  pub settings : Result CallError (List Setting)
  pub reload_config : Option CallError

-- What is asked. `rolled_out` is `statefulSetRolledOut`; `restart_annotation` is the value of
-- AnnotationParametersRestart in the StatefulSet's template, empty without one. The address of the
-- primary is empty.
pub record Env : Type 0 where
  pub hash : Text → Text
  pub pgdata : Option Text
  pub ready : Bool
  pub rolled_out : Result CallError Bool
  pub restart_annotation : Result CallError Text
  pub patch_stateful_set : Option CallError
  pub connect : Text → Result CallError Server
  pub standbys : List Text

abbrev pub reload_check_delay : ℕ
reload_check_delay = 2

abbrev pub poll_interval : ℕ
poll_interval = 10

abbrev pub retry_interval : ℕ
retry_interval = 30

abbrev pub invalid_recheck : ℕ
invalid_recheck = 60

abbrev pub recheck_interval : ℕ
recheck_interval = 300

-- The status afterwards, when to check again (0: no need), the addresses of the servers that were
-- reloaded, and the annotation written for a restart.
pub record Outcome : Type 0 where
  pub status : Status
  pub delay : ℕ
  pub reloaded : List Text
  pub restarted : Option Text

abbrev pub with_condition : Status → Bool → Reason → Status
with_condition status b reason = record status { condition = some (b, reason) }

-- Nothing but the condition changes.
abbrev pub report : Status → Reason → ℕ → Outcome
report status reason delay = record {
  status = with_condition status false reason;
  delay = delay;
  reloaded = [];
  restarted = none;
}

abbrev pub auto_conf_path : Text → Text
auto_conf_path pgdata = pgdata ++ text "/postgresql.auto.conf"

-- `readParameterState`
unfoldable pub read_parameter_state : Env → Settings → Text → Result CallError Assessment
unfolding assess_parameters
read_parameter_state env params pgdata = do
  srv ← env.connect []
  config_file ← srv.config_file
  files ← srv.file_settings
  settings ← srv.settings
  ok (assess_parameters params config_file files settings (auto_conf_path pgdata))

abbrev pub reload_on : Result CallError Server → Option CallError
reload_on (err e) = some e
reload_on (ok srv) = srv.reload_config

-- The servers that were reloaded, and the error that ended the loop.
unfoldable pub reload_each : Env → List Text → List Text × Option CallError
reload_each env [] = ([], none)
reload_each env (a ∷ as') =
    let (rest, e) = reload_each env as' in
    elim (reload_on (env.connect a)) [ some e' ↦ ([], some e') | none ↦ (a ∷ rest, e) ]

-- `reloadForParameters`
unfoldable pub reload_for_parameters : Env → List Text × Option CallError
unfolding reload_each
reload_for_parameters env = reload_each env ([] ∷ env.standbys)

abbrev pub after_patch : Text → Option CallError → Option Text
after_patch hash none = some hash
after_patch hash (some e) = none

-- `restartForParameters`: the annotation that is written, if one is.
unfoldable pub restart_for_parameters : Env → Text → Result CallError Text → Option Text
restart_for_parameters env hash (err e) = none
restart_for_parameters env hash (ok annotation) =
    if annotation == hash then none else after_patch hash env.patch_stateful_set

abbrev pub after_reload : Status → Text → List Text × Option CallError → Outcome
after_reload status hash (reloaded, some e) =
    record (report status waiting_for_server retry_interval) { reloaded = reloaded }
after_reload status hash (reloaded, none) = record {
  status = with_condition (record status { parameters_hash = hash }) false parameters_reloading;
  delay = reload_check_delay;
  reloaded = reloaded;
  restarted = none;
}

-- The part behind the check of the hash: the current file is loaded.
unfoldable pub judge_loaded : Env → Status → Text → Assessment → Outcome
unfolding restart_for_parameters
judge_loaded env status hash a =
    if not (is_empty a.invalid_after_reload)
    then report status invalid_parameter invalid_recheck
    else let noted = record status { pending = a.pending } in
      if a.restart_needed
      then record (report noted pending_restart poll_interval) {
        restarted = restart_for_parameters env hash env.restart_annotation;
      }
      else if not (is_empty a.overridden)
      then report noted overridden_by_alter_system recheck_interval
      else record {
        status = with_condition noted true parameters_applied;
        delay = recheck_interval;
        reloaded = [];
        restarted = none;
      }

-- The `switch`, and the reload.
unfoldable pub judge : Env → Status → Text → Assessment → Outcome
unfolding judge_loaded reload_for_parameters
judge env status hash a =
    if not a.uses_generated_file
    then report status waiting_for_sync poll_interval
    else if not a.synced
    then report status waiting_for_sync poll_interval
    else if not (is_empty a.invalid)
    then report status invalid_parameter invalid_recheck
    else if not (status.parameters_hash == hash)
    then after_reload status hash (reload_for_parameters env)
    else judge_loaded env status hash a

unfoldable pub after_read : Env → Status → Text → Result CallError Assessment → Outcome
unfolding judge
after_read env status hash (err e) = report status waiting_for_server retry_interval
after_read env status hash (ok a) = judge env status hash a

abbrev pub is_rolled_out : Result CallError Bool → Bool
is_rolled_out (err e) = false
is_rolled_out (ok b) = b

unfoldable pub reconcile_layout : Env → Settings → Status → Option Text → Outcome
unfolding after_read read_parameter_state render_postgres_conf
reconcile_layout env params status none = record {
  status = status;
  delay = 0;
  reloaded = [];
  restarted = none;
}
reconcile_layout env params status (some pgdata) =
    if not env.ready
    then report status waiting_for_server 0
    else if not (is_rolled_out env.rolled_out)
    then report status waiting_for_server poll_interval
    else after_read env status (env.hash (render_postgres_conf params pgdata))
        (read_parameter_state env params pgdata)

-- `reconcileParameters`
unfoldable pub reconcile_parameters : Env → Settings → Status → Outcome
unfolding reconcile_layout duplicate_parameters parameters_with_line_breaks
reconcile_parameters env params status =
    if is_empty params
    then record {
      status = record { parameters_hash = []; pending = []; condition = none };
      delay = 0;
      reloaded = [];
      restarted = none;
    }
    else if not (is_empty (duplicate_parameters params))
    then report status invalid_parameter 0
    else if not (is_empty (parameters_with_line_breaks params))
    then report status invalid_parameter 0
    else reconcile_layout env params status env.pgdata
