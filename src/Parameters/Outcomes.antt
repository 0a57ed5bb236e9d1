-- ===== src/Parameters/Outcomes.antt =====
-- When spec.parameters is in force, reloaded, restarted, and looked at again.
use pgop.Prelude.{
  List, ◌≤◌, Bool, true, false, ◌==◌, ==-refl, eq_of_==, ◌≡◌, ◌↔◌, refl, ap, Option, none, some,
  Result, ok, err, is_empty, arith,
}
use pgop.Text.{Text, text_eq}
use pgop.Grants.Engine.{CallError}
use pgop.Settings.{Settings}
use pgop.Parameters.{duplicate_parameters, parameters_with_line_breaks, render_postgres_conf}
use pgop.Parameters.Assess.{Assessment}
use pgop.Parameters.Reconcile.{
  Env, Status, Outcome, parameters_applied, read_parameter_state, reload_for_parameters, judge,
  judge_loaded, after_read, is_rolled_out, reconcile_layout, reconcile_parameters, after_reload,
}

-- The spec passes the checks.
abbrev pub IsAcceptable : Settings → Type 0
IsAcceptable params =
    (is_empty params ≡ false)
    × (is_empty (duplicate_parameters params) ≡ true)
    × (is_empty (parameters_with_line_breaks params) ≡ true)

abbrev pub current_hash : Env → Settings → Text → Text
current_hash env params pgdata = env.hash (render_postgres_conf params pgdata)

-- The server was started with the file, has the desired one, accepts it, has loaded it, and waits for
-- no restart.
abbrev pub IsInForce : Status → Text → Assessment → Type 0
IsInForce status hash a =
    (a.uses_generated_file ≡ true)
    × (a.synced ≡ true)
    × (is_empty a.invalid ≡ true)
    × (status.parameters_hash ≡ hash)
    × (is_empty a.invalid_after_reload ≡ true)
    × (a.restart_needed ≡ false)
    × (is_empty a.overridden ≡ true)

abbrev pub IsApplied : Outcome → Type 0
IsApplied o = o.status.condition ≡ some (true, parameters_applied)

after_reload-reports :
    (status : Status) (hash : Text) (r : List Text × Option CallError)
    → (IsApplied (after_reload status hash r) → ⊥)
      × ((after_reload status hash r).restarted ≡ none)
      × (1 ≤ (after_reload status hash r).delay)
      × ((after_reload status hash r).delay ≤ 300)
after_reload-reports status hash (l, some e) =
    ((λ h. ground (arith, h)), refl, ground arith, ground arith)
after_reload-reports status hash (l, none) =
    ((λ h. ground (arith, h)), refl, ground arith, ground arith)

judge_iff :
    (env : Env) (status : Status) (hash : Text) (a : Assessment)
    → (IsApplied (judge env status hash a)) ↔ IsInForce status hash a
unfolding judge judge_loaded
judge_iff env status hash a =
    (there, λ (u, s, i, e, r, n, o). ground (arith, u, s, i, e, ==-refl hash, r, n, o))
  where
    there : IsApplied (judge env status hash a) → IsInForce status hash a
    there h =
        let reloads = (after_reload-reports status hash (reload_for_parameters env)).0 in
        let u : a.uses_generated_file ≡ true = ground (arith, h) in
        let s : a.synced ≡ true = ground (arith, h, u) in
        let i : is_empty a.invalid ≡ true = ground (arith, h, u, s) in
        let e : (status.parameters_hash == hash) ≡ true = ground (arith, h, u, s, i, reloads) in
        let r : is_empty a.invalid_after_reload ≡ true = ground (arith, h, u, s, i, e) in
        let n : a.restart_needed ≡ false = ground (arith, h, u, s, i, e, r) in
        (u, s, i, eq_of_== status.parameters_hash hash e, r, n, ground (arith, h, u, s, i, e, r, n))

judge-delay :
    (env : Env) (status : Status) (hash : Text) (a : Assessment)
    → (1 ≤ (judge env status hash a).delay) × ((judge env status hash a).delay ≤ 300)
unfolding judge judge_loaded
judge-delay env status hash a =
    let (_, _, c, d) = after_reload-reports status hash (reload_for_parameters env) in
    ground (arith, c, d)

-- What a run in force was read from.
abbrev pub IsServing : Env → Settings → Text → Status → Type 0
IsServing env params pgdata status =
    (env.ready ≡ true)
    × (env.rolled_out ≡ ok true)
    × (a : Assessment) × (read_parameter_state env params pgdata ≡ ok a)
    × (IsInForce status (current_hash env params pgdata) a)

after_read-applied :
    (env : Env) (status : Status) (hash : Text) (answer : Result CallError Assessment)
    → IsApplied (after_read env status hash answer)
    → (a : Assessment) × (answer ≡ ok a) × (IsInForce status hash a)
unfolding after_read
after_read-applied env status hash (err e) h = absurd (ground (arith, h))
after_read-applied env status hash (ok a) h = (a, refl, (judge_iff env status hash a).0 h)

after_read-IsInForce :
    (env : Env) (status : Status) (hash : Text) (answer : Result CallError Assessment)
    (a : Assessment)
    → answer ≡ ok a
    → IsInForce status hash a
    → IsApplied (after_read env status hash answer)
unfolding after_read
after_read-IsInForce env status hash (err e) a r f = absurd (ground (arith, r))
after_read-IsInForce env status hash (ok b) a r f =
    let same : b ≡ a = cc r in rw same ((judge_iff env status hash a).1 f)

is_rolled_out-true : (r : Result CallError Bool) → is_rolled_out r ≡ true → r ≡ ok true
is_rolled_out-true (ok b) h = rw h refl
is_rolled_out-true (err e) h = absurd (ground (arith, h))

reconcile_layout_iff :
    (env : Env) (params : Settings) (status : Status) (pgdata : Text)
    → (IsApplied (reconcile_layout env params status (some pgdata)))
      ↔ (IsServing env params pgdata status)
unfolding reconcile_layout
reconcile_layout_iff env params status pgdata = (there, λ (r, o, a, read, f). back r o a read f)
  where
    there :
        IsApplied (reconcile_layout env params status (some pgdata))
        → IsServing env params pgdata status
    there h =
        let r : env.ready ≡ true = ground (arith, h) in
        let o : is_rolled_out env.rolled_out ≡ true = ground (arith, h, r) in
        let (a, read, f) =
          after_read-applied env status (current_hash env params pgdata) _
            (ground (arith, h, r, o)) in
        (r, is_rolled_out-true env.rolled_out o, a, read, f)

    back :
        env.ready ≡ true
        → env.rolled_out ≡ ok true
        → (a : Assessment) → read_parameter_state env params pgdata ≡ ok a
        → IsInForce status (current_hash env params pgdata) a
        → IsApplied (reconcile_layout env params status (some pgdata))
    back r o a read f =
        ground
          (arith, r, o, after_read-IsInForce env status (current_hash env params pgdata) _ a read f)

pub reconcile_parameters-layout :
    (env : Env) (params : Settings) (status : Status) {pgdata : Text}
    → IsAcceptable params
    → env.pgdata ≡ some pgdata
    → reconcile_parameters env params status ≡ reconcile_layout env params status (some pgdata)
unfolding reconcile_parameters
reconcile_parameters-layout env params status (n, d, b) e =
    rw (n, d, b) (ap (reconcile_layout env params status) e)

-- For an acceptable spec and a known layout, the condition says that all parameters are in effect
-- exactly when the server is ready and rolled out, runs with the generated file as desired, accepts it,
-- has loaded that version of it, waits for no restart of these parameters, and overrides none.
pub reconcile_parameters-IsApplied_iff :
    (env : Env) (params : Settings) (status : Status) (pgdata : Text)
    → IsAcceptable params
    → env.pgdata ≡ some pgdata
    → (IsApplied (reconcile_parameters env params status)) ↔ (IsServing env params pgdata status)
reconcile_parameters-IsApplied_iff env params status pgdata v e =
    rw (reconcile_parameters-layout env params status v e)
      (reconcile_layout_iff env params status pgdata)

after_read-delay :
    (env : Env) (status : Status) (hash : Text) (answer : Result CallError Assessment)
    → (1 ≤ (after_read env status hash answer).delay)
      × ((after_read env status hash answer).delay ≤ 300)
unfolding after_read
after_read-delay env status hash (err e) = (ground arith, ground arith)
after_read-delay env status hash (ok a) = judge-delay env status hash a

-- For an acceptable spec, a known layout and a ready Cluster, the parameters are looked at again within
-- five minutes, whatever the servers answer.
reconcile_parameters-delay :
    (env : Env) (params : Settings) (status : Status) (pgdata : Text)
    → IsAcceptable params
    → env.pgdata ≡ some pgdata
    → env.ready ≡ true
    → (1 ≤ (reconcile_parameters env params status).delay)
      × ((reconcile_parameters env params status).delay ≤ 300)
unfolding reconcile_layout
reconcile_parameters-delay env params status pgdata v e r =
    rw (reconcile_parameters-layout env params status v e) (
      ground (
        arith,
        r,
        after_read-delay env status (current_hash env params pgdata)
            (read_parameter_state env params pgdata),
      ))
