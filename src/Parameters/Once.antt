-- ===== src/Parameters/Once.antt =====
-- A version of the configuration file that was loaded is not loaded again.
use pgop.Prelude.{
  List, false, ==-refl, [], ◌≡◌, refl, sym, ap, ◌∙◌, Option, none, some, Result, ok, err, arith,
}
use pgop.Text.{Text, text_eq}
use pgop.Grants.Engine.{CallError}
use pgop.Settings.{Settings}
use pgop.Parameters.{render_postgres_conf}
use pgop.Parameters.Assess.{Assessment}
use pgop.Parameters.Reconcile.{
  Env, Status, Outcome, parameters_reloading, read_parameter_state, reload_for_parameters, judge,
  judge_loaded, after_read, reconcile_layout, reconcile_parameters, after_reload,
}
use pgop.Parameters.Outcomes.{IsAcceptable, current_hash, reconcile_parameters-layout}

-- The condition says that the file was reloaded just now.
abbrev pub IsReloading : Outcome → Type 0
IsReloading o = o.status.condition ≡ some (false, parameters_reloading)

-- A file reported as reloaded is recorded.
abbrev Records : Text → Outcome → Type 0
Records hash o = IsReloading o → o.status.parameters_hash ≡ hash

after_reload-Records :
    (status : Status) (hash : Text) (r : List Text × Option CallError)
    → Records hash (after_reload status hash r)
after_reload-Records status hash (l, some e) h = absurd (ground (arith, h))
after_reload-Records status hash (l, none) h = refl

judge-Records :
    (env : Env) (status : Status) (hash : Text) (a : Assessment)
    → Records hash (judge env status hash a)
unfolding judge judge_loaded
judge-Records env status hash a h =
    ground (arith, h, after_reload-Records status hash (reload_for_parameters env))

judge-quiet :
    (env : Env) (status : Status) (hash : Text) (a : Assessment)
    → status.parameters_hash ≡ hash
    → (judge env status hash a).reloaded ≡ []
unfolding judge judge_loaded
judge-quiet env status hash a e = ground (arith, e, ==-refl hash)

after_read-Records :
    (env : Env) (status : Status) (hash : Text) (answer : Result CallError Assessment)
    → Records hash (after_read env status hash answer)
unfolding after_read
after_read-Records env status hash (err e) h = absurd (ground (arith, h))
after_read-Records env status hash (ok a) h = judge-Records env status hash a h

after_read-quiet :
    (env : Env) (status : Status) (hash : Text) (answer : Result CallError Assessment)
    → status.parameters_hash ≡ hash
    → (after_read env status hash answer).reloaded ≡ []
unfolding after_read
after_read-quiet env status hash (err e) h = refl
after_read-quiet env status hash (ok a) h = judge-quiet env status hash a h

layout-Records :
    (env : Env) (params : Settings) (status : Status) (pgdata : Text)
    → Records (current_hash env params pgdata) (reconcile_layout env params status (some pgdata))
unfolding reconcile_layout
layout-Records env params status pgdata h = ground (
  arith,
  h,
  after_read-Records env status (current_hash env params pgdata)
      (read_parameter_state env params pgdata),
)

layout-quiet :
    (env : Env) (params : Settings) (status : Status) (pgdata : Text)
    → status.parameters_hash ≡ current_hash env params pgdata
    → (reconcile_layout env params status (some pgdata)).reloaded ≡ []
unfolding reconcile_layout
layout-quiet env params status pgdata e = ground (
  arith,
  after_read-quiet env status (current_hash env params pgdata)
      (read_parameter_state env params pgdata) e,
)

-- Once the file of an acceptable spec was reloaded on every server, the next run with the same spec and
-- layout reloads nothing, whatever the servers answer then.
pub reconcile_parameters-once :
    (env later : Env) (params : Settings) (status : Status) (pgdata : Text)
    → IsAcceptable params
    → env.pgdata ≡ some pgdata
    → later.pgdata ≡ some pgdata
    → later.hash ≡ env.hash
    → IsReloading (reconcile_parameters env params status)
    → (reconcile_parameters later params (reconcile_parameters env params status).status).reloaded
      ≡ []
reconcile_parameters-once env later params status pgdata v e e' same h =
    let run = reconcile_parameters-layout env params status v e in
    let recorded = layout-Records env params status pgdata (rw run at h) in
    let hashes : current_hash env params pgdata ≡ current_hash later params pgdata =
      ap (λ f. f (render_postgres_conf params pgdata)) (sym same) in
    rw run (
      rw
        (reconcile_parameters-layout later params
          (reconcile_layout env params status (some pgdata)).status v e')
        (layout-quiet later params _ pgdata (recorded ∙ hashes)))
