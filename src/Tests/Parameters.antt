-- ===== src/Tests/Parameters.antt =====
-- The parameters of a Cluster on concrete inputs.
use pgop.Prelude.{true, false, [], ◌∷◌, ◌≡◌, ◌↔◌, refl, arith, none, some, ok, contains, eq_of_==}
use pgop.Text.{Text, text_eq, text}
use pgop.Text.Sort.{sort, compact}
use pgop.Settings.{Settings, names_of, value_of, in_order}
use pgop.Parameters.{render_postgres_conf, duplicate_parameters, parameters_with_line_breaks}
use pgop.Parameters.Assess.{FileSetting, config_file_path, pg_context_postmaster}
use pgop.Parameters.Reconcile.{Env, Server, Status, reconcile_parameters}
use pgop.Parameters.Outcomes.{
  IsAcceptable, IsServing, IsApplied, reconcile_parameters-IsApplied_iff,
}
use pgop.Parameters.Once.{reconcile_parameters-once}
use pgop.Parameters.File.{IsPlainName, settings_in, settings_in-render_postgres_conf}

abbrev ports : Text
ports = text "max_connections"

-- The value would set another parameter, if it were not quoted.
abbrev params : Settings
params = (text "work_mem", text "4MB\nfsync = off") ∷ (ports, text "5'0") ∷ []

abbrev plain : Settings
plain = (ports, text "50") ∷ []

abbrev row : FileSetting
row = record {
  source_file = config_file_path;
  name = text "Max_Connections";
  setting = text "50";
  error = text "setting could not be applied";
}

-- The server waits for a restart.
abbrev server : Server
server = record {
  config_file = ok config_file_path;
  file_settings = ok (row ∷ []);
  settings = ok (
      record {
        name = ports;
        context = pg_context_postmaster;
        source_file = [];
        pending_restart = true;
      }
      ∷ []);
  reload_config = none;
}

-- The hash is a fixed text.
abbrev env : Env
env = record {
  hash = λ file. text "h";
  pgdata = some (text "/data");
  ready = true;
  rolled_out = ok true;
  restart_annotation = ok [];
  patch_stateful_set = none;
  connect = λ address. ok server;
  standbys = text "10.0.0.2:5432" ∷ [];
}

abbrev loaded : Status
loaded = record { parameters_hash = text "h"; pending = []; condition = none }

abbrev fresh_status : Status
fresh_status = record { parameters_hash = []; pending = []; condition = none }

acceptable : IsAcceptable plain
unfolding duplicate_parameters parameters_with_line_breaks sort compact contains pgop.Text.text_beq
acceptable = (refl, refl, refl)

reloads : (reconcile_parameters env plain fresh_status).reloaded ≡ [] ∷ text "10.0.0.2:5432" ∷ []
unfolding reconcile_parameters sort compact contains value_of pgop.Text.text_beq
reloads = refl

reloading :
    (reconcile_parameters env plain fresh_status).status.condition
    ≡ some (false, pgop.Parameters.Reconcile.parameters_reloading)
unfolding reconcile_parameters sort compact contains value_of pgop.Text.text_beq
reloading = refl

plain_names : (k : Text) → contains (names_of params) k ≡ true → IsPlainName k
unfolding contains
plain_names k h = ground (arith, h, eq_of_== (text "work_mem") k, eq_of_== ports k)

settings_in-render_postgres_conf_example :
    settings_in (render_postgres_conf params (text "/data")) ≡ in_order params
settings_in-render_postgres_conf_example =
    settings_in-render_postgres_conf params (text "/data") plain_names

reconcile_parameters-IsApplied_example :
    (IsApplied (reconcile_parameters env plain loaded))
    ↔ (IsServing env plain (text "/data") loaded)
reconcile_parameters-IsApplied_example =
    reconcile_parameters-IsApplied_iff env plain loaded (text "/data") acceptable refl

reconcile_parameters-once_example :
    (reconcile_parameters env plain (reconcile_parameters env plain fresh_status).status).reloaded
    ≡ []
reconcile_parameters-once_example =
    reconcile_parameters-once env env plain fresh_status (text "/data") acceptable refl refl refl
      reloading
