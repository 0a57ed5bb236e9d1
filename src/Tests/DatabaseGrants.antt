-- ===== src/Tests/DatabaseGrants.antt =====
-- The grants of a database and its schemas, of which one grantee does not exist.
use pgop.Prelude.{false, List, [], ◌∷◌, arith, if◌then◌else◌, ◌==◌, none, some, ok}
use pgop.Text.{Text, text_eq, text}
use pgop.Policy.Roles.{ReachableRole}
use pgop.Policy.Grantee.{Checker, Lookup, decide, cached}
use pgop.Policy.Grantee.Cache.{IsFresh}
use pgop.Grants.Engine.{Ops}
use pgop.Grants.Database.{DatabaseGrantSpec}
use pgop.Grants.Database.Reconcile.{DatabaseRun, reconcile_database_grants}
use pgop.Grants.Database.Reconcile.Permitted.{IsPermitted, reconcile_database_grants-IsPermitted}
use pgop.Grants.Schemas.{SchemaSpec, SchemaRun, reconcile_schema_grants}
use pgop.Grants.Schemas.Permitted.{reconcile_schema_grants-IsPermitted}

abbrev app : ReachableRole
app = record {
  name = text "app";
  via = [];
  comment = text "mark";
  superuser = false;
  create_role = false;
  replication = false;
  bypass_rls = false;
}

abbrev lookup : Lookup
lookup name = if name == text "app" then ok (some app) else ok none

abbrev checker : Checker
checker = record { policy = none; managed = (text "app", text "mark") ∷ []; deleting = [] }

nothing_cached : IsFresh (decide lookup checker) []
unfolding cached
nothing_cached g v h = ground (arith, h)

abbrev ops : Ops
ops = record {
  held = λ log t. ok ([], []);
  grant = λ log t ps with_option. none;
  revoke = λ log t ps mode. none;
  gone = none;
  persist = some (λ log ledger. none);
}

abbrev entry : Text → DatabaseGrantSpec
entry role = record { role = role; privileges = text "connect" ∷ []; with_grant_option = false }

abbrev specs : List DatabaseGrantSpec
specs = entry (text "app") ∷ entry (text "absent") ∷ []

abbrev run : DatabaseRun
run = reconcile_database_grants lookup checker [] ops specs (text "shop") []

reconcile_database_grants-IsPermitted_example :
    IsPermitted lookup checker specs (text "shop") [] run.log
reconcile_database_grants-IsPermitted_example =
    reconcile_database_grants-IsPermitted lookup checker [] nothing_cached ops specs (text "shop")
      []

abbrev usage : DatabaseGrantSpec
usage = record { role = text "app"; privileges = text "usage" ∷ []; with_grant_option = false }

-- Only the schema `a` is managed.
abbrev schemas : List SchemaSpec
schemas =
    record { name = text "a"; grants = usage ∷ [] }
    ∷ record { name = text "b"; grants = usage ∷ [] }
    ∷ []

abbrev schema_run : SchemaRun
schema_run = reconcile_schema_grants lookup checker [] ops schemas (text "a" ∷ []) []

reconcile_schema_grants-IsPermitted_example :
    pgop.Grants.Schemas.Permitted.IsPermitted lookup checker
      (text "a" ∷ [])
      schemas
      []
      schema_run.log
reconcile_schema_grants-IsPermitted_example =
    reconcile_schema_grants-IsPermitted lookup checker [] nothing_cached ops schemas (text "a" ∷ [])
      []
