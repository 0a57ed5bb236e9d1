-- ===== src/Memberships/Reconcile.antt =====
-- `reconcileMemberships` of internal/controller/role_memberships.go: its checks, and its loops over
-- the statements.
use pgop.Prelude.{
  ℕ, Bool, ◌&&◌, List, [], ◌∷◌, ◌++◌, ltb, if◌then◌else◌, Option, none, some, Result, ok, err,
  ◌>>=◌, is_empty,
}
use pgop.Text.{Text, text_eq}
use pgop.Text.Sort.{sort, compact}
use pgop.Grants.Engine.{CallError}
use pgop.Policy.Roles.{Problem}
use pgop.Policy.Membership.Options.{RoleMembership}
use pgop.Settings.{forget, sorted_keys}
use pgop.Memberships.{
  MembershipState, Current, MembershipPlan, exists, roles_of, diff_memberships, grant_role,
  revoke_admin_option, revoke_role, failed, Log, Checked, Client, judge_all, forbidden_of,
  min_membership_options_version, first_with_options,
}

pub data MembershipError : Type 0 where
  call_failed : CallError → MembershipError
  options_unsupported : Text → MembershipError
  -- The refused memberships, and the ones that pgop had granted and revoked.
  not_allowed : List (Text × Problem) → List Text → MembershipError

abbrev pub or_call_failed : {A : Type 0} → Result CallError A → Result MembershipError A
or_call_failed (ok a) = ok a
or_call_failed (err e) = err (call_failed e)

-- What is known before the first statement.
pub record Prepared : Type 0 where
  pub desired : List RoleMembership
  pub refused : List (Text × Problem)
  pub forbidden : List Text
  pub current : Current

abbrev pub check_options : ℕ → List RoleMembership → Result MembershipError ℕ
check_options version desired =
    if ltb version min_membership_options_version
    then elim (first_with_options desired) [
      | none ↦ ok version
      | some r ↦ err (options_unsupported r)
    ]
    else ok version

unfoldable pub prepare :
    Checked → Client → List RoleMembership → List Text → Result MembershipError Prepared
prepare problem client requested managed = do
  judged ← or_call_failed (judge_all problem requested)
  forbidden ← or_call_failed (forbidden_of problem managed)
  version ← or_call_failed client.version
  _ ← check_options version judged.0
  current ← or_call_failed client.current
  ok (record { desired = judged.0; refused = judged.1; forbidden = forbidden; current = current })

-- The memberships tracked, the error that stopped the loops, and the statements made.
pub record Run : Type 0 where
  pub tracked : List Text
  pub error : Option CallError
  pub log : Log

abbrev stopped : List Text → CallError → Log → Run
stopped tracked e log = record { tracked = tracked; error = some e; log = failed ∷ log }

abbrev finished : List Text → Log → Run
finished tracked log = record { tracked = tracked; error = none; log = log }

module _ (client : Client) where
  unfoldable pub run_grants : List (Text × MembershipState) → List Text → Log → Run
  run_grants [] tracked log = finished tracked log
  run_grants ((r, o) ∷ gs) tracked log = elim (client.grant log r o) [
    | some e ↦ stopped tracked e log
    | none ↦ run_grants gs (r ∷ tracked) (grant_role r o ∷ log)
  ]

  unfoldable pub run_admin_revokes : List Text → List Text → Log → Run
  run_admin_revokes [] tracked log = finished tracked log
  run_admin_revokes (r ∷ rs) tracked log = elim (client.revoke_admin log r) [
    | some e ↦ stopped tracked e log
    | none ↦ run_admin_revokes rs tracked (revoke_admin_option r ∷ log)
  ]

  unfoldable pub run_revokes : List Text → List Text → Log → Run
  run_revokes [] tracked log = finished tracked log
  run_revokes (r ∷ rs) tracked log = elim (client.revoke log r) [
    | some e ↦ stopped tracked e log
    | none ↦ run_revokes rs (forget tracked r) (revoke_role r ∷ log)
  ]

  abbrev pub after_admin_revokes : MembershipPlan → Run → Option CallError → Run
  after_admin_revokes plan run (some e) = run
  after_admin_revokes plan run none = run_revokes plan.revoke run.tracked run.log

  abbrev pub after_grants : MembershipPlan → Run → Option CallError → Run
  after_grants plan run (some e) = run
  after_grants plan run none =
      let admins = run_admin_revokes plan.revoke_admin run.tracked run.log in
      after_admin_revokes plan admins admins.error

  unfoldable pub run_plan : MembershipPlan → List Text → Log → Run
  unfolding run_grants run_admin_revokes run_revokes
  run_plan plan tracked log =
      let grants = run_grants plan.grant tracked log in after_grants plan grants grants.error

-- The names of the list that the member is in.
unfoldable pub existing_of : Current → List Text → List Text
existing_of current [] = []
existing_of current (m ∷ ms) =
    let rest = existing_of current ms in if exists current m then m ∷ rest else rest

-- The plan with the forbidden memberships that exist among the revokes.
unfoldable pub plan_for : Prepared → List Text → Bool → MembershipPlan
unfolding diff_memberships existing_of
plan_for p managed revoke_removed =
    let plan = diff_memberships p.desired managed p.current revoke_removed in
    record plan { revoke = compact (sort (plan.revoke ++ existing_of p.current p.forbidden)) }

-- status.managedMemberships, the error, and the statements.
pub record Reconciled : Type 0 where
  pub managed : List Text
  pub error : Option MembershipError
  pub log : Log

abbrev pub report : Prepared → Option MembershipError
report p =
    if is_empty p.refused
    then none
    else some (not_allowed p.refused (existing_of p.current p.forbidden))

abbrev pub record_run : Prepared → Run → Option CallError → Reconciled
record_run p run (some e) = record {
  managed = sorted_keys run.tracked;
  error = some (call_failed e);
  log = run.log;
}
record_run p run none = record {
  managed = sorted_keys (roles_of p.desired);
  error = report p;
  log = run.log;
}

unfoldable pub apply_prepared :
    Client → List Text → Bool → Log → Result MembershipError Prepared → Reconciled
unfolding plan_for run_plan
apply_prepared client managed revoke_removed log (err e) = record {
  managed = managed;
  error = some e;
  log = log;
}
apply_prepared client managed revoke_removed log (ok p) =
    let tracked = managed ++ existing_of p.current (roles_of p.desired) in
    let run = run_plan client (plan_for p managed revoke_removed) tracked log in
    record_run p run run.error

unfoldable pub reconcile_memberships :
    Checked → Client → List RoleMembership → List Text → Bool → Log → Reconciled
unfolding prepare apply_prepared
reconcile_memberships problem client requested managed revoke_removed log =
    if is_empty requested && is_empty managed
    then record { managed = managed; error = none; log = log }
    else apply_prepared client managed revoke_removed log (prepare problem client requested managed)
