-- ===== src/Grants/Database/Reconcile.antt =====
-- `reconcileDatabaseGrants` of internal/controller/database_grants.go: the grants of the spec, less
-- those that the grantee policy holds back, on the engine.
pub mod Permitted
use pgop.Prelude.{
  ℕ, Bool, true, false, ◌&&◌, List, [], ◌∷◌, if◌then◌else◌, Option, none, some, Result, ok, err,
  is_empty,
}
use pgop.Text.{Text}
use pgop.Grants.Target.{PrivilegeGrant}
use pgop.Grants.Engine.{CallError, Ops, Log}
use pgop.Grants.Engine.Apply.{GrantError, apply_privilege_grants}
use pgop.Grants.Database.{
  DatabaseGrantSpec, GrantSpecError, desired_database_grants, ManagedGrant, database_ledger,
  database_ledger_status,
}
use pgop.Policy.Grantee.{Checker, Lookup, Cache, GrantFilter, filter}

abbrev pub database_grant_ledger_limit : ℕ
database_grant_ledger_limit = 512

-- What ends the reconcile before the engine runs.
pub data EarlyError : Type 0 where
  bad_spec : GrantSpecError → EarlyError
  not_looked_up : CallError → EarlyError

-- The ledger of the status afterwards, the errors, the grants held back, the cache of the checker and
-- the calls of the engine, the latest first.
pub record DatabaseRun : Type 0 where
  pub managed : List ManagedGrant
  pub early : Option EarlyError
  pub engine_errors : List GrantError
  pub held_back : Option GrantFilter
  pub cache : Cache
  pub log : Log

abbrev pub ends : List ManagedGrant → Cache → Option EarlyError → DatabaseRun
ends managed cache early = record {
  managed = managed;
  early = early;
  engine_errors = [];
  held_back = none;
  cache = cache;
  log = [];
}

abbrev pub empty_filter : Cache → GrantFilter
empty_filter cache = record {
  cache = cache;
  missing_roles = [];
  paused_roles = [];
  refused_roles = [];
}

abbrev pub run_of : GrantFilter → (List PrivilegeGrant × List GrantError) × Log → DatabaseRun
run_of held ((after, errors), log) = record {
  managed = database_ledger_status after;
  early = none;
  engine_errors = errors;
  held_back = some held;
  cache = held.cache;
  log = log;
}

-- Once the policy has decided.
unfoldable pub apply_database_grants :
    Ops
    → Text
    → List ManagedGrant
    → Result CallError (List PrivilegeGrant) × GrantFilter
    → DatabaseRun
unfolding apply_privilege_grants database_ledger database_ledger_status
apply_database_grants ops name managed (err e, held) =
    ends managed held.cache (some (not_looked_up e))
apply_database_grants ops name managed (ok desired, held) = run_of held (
    apply_privilege_grants ops desired (database_ledger name managed) database_grant_ledger_limit
      [])

unfoldable pub reconcile_desired_grants :
    Lookup
    → Checker
    → Cache
    → Ops
    → Text
    → List ManagedGrant
    → Result GrantSpecError (List PrivilegeGrant)
    → DatabaseRun
unfolding apply_database_grants filter
reconcile_desired_grants lookup c cache ops name managed (err e) =
    ends managed cache (some (bad_spec e))
reconcile_desired_grants lookup c cache ops name managed (ok all) =
    if is_empty all && is_empty managed
    then ends managed cache none
    else apply_database_grants ops name managed (filter lookup c (empty_filter cache) all)

-- `reconcileDatabaseGrants`
unfoldable pub reconcile_database_grants :
    Lookup → Checker → Cache → Ops → List DatabaseGrantSpec → Text → List ManagedGrant → DatabaseRun
unfolding reconcile_desired_grants desired_database_grants
reconcile_database_grants lookup c cache ops grants name managed =
    reconcile_desired_grants lookup c cache ops name managed (desired_database_grants grants name)
