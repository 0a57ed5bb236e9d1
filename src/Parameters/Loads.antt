-- ===== src/Parameters/Loads.antt =====
-- A version of the configuration file is loaded once, and restarted for once.
use pgop.Prelude.{true, false, ◌==◌, [], ◌≡◌, refl, Result, ok, is_empty}
use pgop.Text.{Text, text_eq}
use pgop.Grants.Engine.{CallError}
use pgop.Settings.{Settings}
use pgop.Parameters.Assess.{Assessment}
use pgop.Parameters.Reconcile.{Env, Status, Outcome, reconcile_layout, reconcile_parameters}
use pgop.Parameters.Outcomes.{IsAcceptable}

-- What holds of an outcome that restarts the pod for the hash.
abbrev pub IsRestart : Env → Status → Text → Result CallError Assessment → Outcome → Text → Type 0
IsRestart env status hash answer o h =
    (h ≡ hash)
    × (status.parameters_hash ≡ hash)
    × (o.reloaded ≡ [])
    × ((annotation : Text) × (env.restart_annotation ≡ ok annotation)
        × ((annotation == hash) ≡ false))
    × ((a : Assessment) × (answer ≡ ok a)
        × (a.synced ≡ true)
        × (is_empty a.invalid ≡ true)
        × (is_empty a.invalid_after_reload ≡ true)
        × (a.restart_needed ≡ true))

pub reconcile_parameters-layout_of :
    (env : Env) (params : Settings) (status : Status)
    → IsAcceptable params
    → reconcile_parameters env params status ≡ reconcile_layout env params status env.pgdata
unfolding reconcile_parameters
reconcile_parameters-layout_of env params status (n, d, b) = rw (n, d, b) refl
