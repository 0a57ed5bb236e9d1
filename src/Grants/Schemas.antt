-- ===== src/Grants/Schemas.antt =====
-- The grants on schemas: `desiredSchemaGrants` and `reconcileSchemaGrants` of
-- internal/controller/database_grants.go. `managed_schemas` are the schemas that the Database manages.
pub mod Desired
pub mod Permitted
use pgop.Prelude.{
  ℕ, Bool, true, false, not, ◌&&◌, ◌||◌, List, [], ◌∷◌, ◌++◌, ◌==◌, if◌then◌else◌, contains, Option,
  none, some, Result, ok, err, ◌>>=◌, is_empty,
}
use pgop.Text.{Text, text_eq}
use pgop.Grants.Target.{PrivilegeGrant, key, desired_grant}
use pgop.Grants.Engine.{CallError, Ops, Log}
use pgop.Grants.Engine.Apply.{GrantError, apply_privilege_grants}
use pgop.Grants.Database.{
  DatabaseGrantSpec, schema_target, ManagedGrant, schema_ledger, schema_ledger_status,
}
use pgop.Grants.Database.Reconcile.{empty_filter}
use pgop.Policy.Grantee.{Checker, Lookup, Cache, GrantFilter, filter}
use pgop.Sql.Privileges.{SqlError, normalize_schema_privileges}
use pgop.Sql.Statements.{public_grantee}

-- `SchemaSpec`, as far as its grants go.
pub record SchemaSpec : Type 0 where
  pub name : Text
  pub grants : List DatabaseGrantSpec

pub data SchemaError : Type 0 where
  schema_twice : Text → SchemaError
  role_twice : Text → Text → SchemaError
  option_to_public : Text → SchemaError
  bad_schema_privileges : Text → Text → SqlError → SchemaError

abbrev pub schema_privileges_or_error :
    Text → Text → Result SqlError (List Text) → Result SchemaError (List Text)
schema_privileges_or_error schema role (ok privs) = ok privs
schema_privileges_or_error schema role (err e) = err (bad_schema_privileges schema role e)

-- The loop over the grants of a schema, with the keys seen in it and the schemas before.
unfoldable pub desired_in_schema :
    Text → List Text → List DatabaseGrantSpec → Result SchemaError (List PrivilegeGrant × List Text)
unfolding schema_target desired_grant
desired_in_schema schema seen [] = ok ([], seen)
desired_in_schema schema seen (g ∷ gs) =
    let t = schema_target schema g.role in
    if contains seen (key t)
    then err (role_twice schema t.grantee)
    else if t.grantee == public_grantee && g.with_grant_option
    then err (option_to_public schema)
    else do
      privs ← schema_privileges_or_error schema g.role (normalize_schema_privileges g.privileges)
      rest ← desired_in_schema schema (key t ∷ seen) gs
      ok (desired_grant t privs g.with_grant_option ∷ rest.0, rest.1)

-- The grants by schema. A field of the code's map is known by its schema.
abbrev pub Fields : Type 0
Fields = List (Text × List PrivilegeGrant)

-- The loop over the schemas, with the schemas and the keys seen.
unfoldable pub desired_by_schema :
    List Text → List Text → List Text → List SchemaSpec → Result SchemaError Fields
unfolding desired_in_schema
desired_by_schema managed_schemas fields seen [] = ok []
desired_by_schema managed_schemas fields seen (s ∷ ss) =
    let skipped = desired_by_schema managed_schemas fields seen ss in
    if not (contains managed_schemas s.name) || is_empty s.grants
    then skipped
    else if contains fields s.name
    then err (schema_twice s.name)
    else do
      inside ← desired_in_schema s.name seen s.grants
      rest ← desired_by_schema managed_schemas (s.name ∷ fields) inside.1 ss
      ok ((s.name, inside.0) ∷ rest)

-- `desiredSchemaGrants`
unfoldable pub desired_schema_grants : List SchemaSpec → List Text → Result SchemaError Fields
unfolding desired_by_schema
desired_schema_grants schemas managed_schemas = desired_by_schema managed_schemas [] [] schemas

abbrev pub add_allowed :
    List PrivilegeGrant
    → Result CallError (List PrivilegeGrant)
    → Result CallError (List PrivilegeGrant)
add_allowed allowed (ok later) = ok (allowed ++ later)
add_allowed allowed (err e) = err e

abbrev pub after_field :
    (GrantFilter → Result CallError (List PrivilegeGrant) × GrantFilter)
    → Result CallError (List PrivilegeGrant) × GrantFilter
    → Result CallError (List PrivilegeGrant) × GrantFilter
after_field later (err e, f) = (err e, f)
after_field later (ok allowed, f) = let (r, f') = later f in (add_allowed allowed r, f')

-- The loop that filters the grants of one schema after the other.
unfoldable pub filter_fields :
    Lookup → Checker → GrantFilter → Fields → Result CallError (List PrivilegeGrant) × GrantFilter
unfolding filter
filter_fields lookup c f [] = (ok [], f)
filter_fields lookup c f ((schema, gs) ∷ rest) =
    after_field (λ f'. filter_fields lookup c f' rest) (filter lookup c f gs)

abbrev pub schema_grant_ledger_limit : ℕ
schema_grant_ledger_limit = 2048

-- What ends the reconcile before the engine runs.
pub data EarlyError : Type 0 where
  bad_spec : SchemaError → EarlyError
  not_looked_up : CallError → EarlyError

-- The ledger of the status afterwards, the errors, the grants held back, the cache of the checker and
-- the calls of the engine, the latest first.
pub record SchemaRun : Type 0 where
  pub managed : List ManagedGrant
  pub early : Option EarlyError
  pub engine_errors : List GrantError
  pub held_back : Option GrantFilter
  pub cache : Cache
  pub log : Log

abbrev pub ends : List ManagedGrant → Cache → Option EarlyError → SchemaRun
ends managed cache early = record {
  managed = managed;
  early = early;
  engine_errors = [];
  held_back = none;
  cache = cache;
  log = [];
}

abbrev pub run_of : GrantFilter → (List PrivilegeGrant × List GrantError) × Log → SchemaRun
run_of held ((after, errors), log) = record {
  managed = schema_ledger_status after;
  early = none;
  engine_errors = errors;
  held_back = some held;
  cache = held.cache;
  log = log;
}

-- Once the policy has decided.
unfoldable pub apply_schema_grants :
    Ops → List ManagedGrant → Result CallError (List PrivilegeGrant) × GrantFilter → SchemaRun
unfolding apply_privilege_grants schema_ledger schema_ledger_status
apply_schema_grants ops managed (err e, held) = ends managed held.cache (some (not_looked_up e))
apply_schema_grants ops managed (ok desired, held) =
    run_of held
      (apply_privilege_grants ops desired (schema_ledger managed) schema_grant_ledger_limit [])

unfoldable pub reconcile_fields :
    Lookup → Checker → Cache → Ops → List ManagedGrant → Result SchemaError Fields → SchemaRun
unfolding apply_schema_grants filter_fields
reconcile_fields lookup c cache ops managed (err e) = ends managed cache (some (bad_spec e))
reconcile_fields lookup c cache ops managed (ok fields) =
    if is_empty fields && is_empty managed
    then ends managed cache none
    else apply_schema_grants ops managed (filter_fields lookup c (empty_filter cache) fields)

-- `reconcileSchemaGrants`
unfoldable pub reconcile_schema_grants :
    Lookup → Checker → Cache → Ops → List SchemaSpec → List Text → List ManagedGrant → SchemaRun
unfolding reconcile_fields desired_schema_grants
reconcile_schema_grants lookup c cache ops schemas managed_schemas managed =
    reconcile_fields lookup c cache ops managed (desired_schema_grants schemas managed_schemas)
