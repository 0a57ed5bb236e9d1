-- ===== src/Grants/Database.antt =====
-- Grants on databases, schemas and parameters: `desiredDatabaseGrants` of
-- internal/controller/database_grants.go, and the conversions of the ledgers in
-- internal/controller/grant_ledgers.go.
pub mod Keys
pub mod Reconcile
use pgop.Prelude.{
  Bool, true, false, ◌&&◌, List, [], ◌∷◌, ◌==◌, map, if◌then◌else◌, contains, Result, ok, err,
  ◌>>=◌,
}
use pgop.Text.{Text, text_eq, text}
use pgop.Grants.Sets.{union}
use pgop.Grants.Target.{GrantTarget, PrivilegeGrant, desired_grant}
use pgop.Policy.Roles.{canonical_grantee}
use pgop.Sql.Privileges.{SqlError, normalize_database_privileges}
use pgop.Sql.Statements.{public_grantee}

unfoldable pub target_on : Text → Text → Text → GrantTarget
target_on kind name grantee = record {
  kind = kind;
  name = name;
  grantee = grantee;
  schema = [];
  for_role = [];
  oid = 0;
}

unfoldable pub database_target : Text → Text → GrantTarget
unfolding target_on
database_target name grantee = target_on (text "DATABASE") name (canonical_grantee grantee)

unfoldable pub schema_target : Text → Text → GrantTarget
unfolding target_on
schema_target schema grantee = target_on (text "SCHEMA") schema (canonical_grantee grantee)

unfoldable pub parameter_target : Text → Text → GrantTarget
unfolding target_on
parameter_target parameter member = target_on (text "PARAMETER") parameter member

pub record DatabaseGrantSpec : Type 0 where
  pub role : Text
  pub privileges : List Text
  pub with_grant_option : Bool

pub data GrantSpecError : Type 0 where
  listed_twice : Text → GrantSpecError
  option_to_public : GrantSpecError
  bad_privileges : Text → SqlError → GrantSpecError

abbrev pub privileges_or_error :
    Text → Result SqlError (List Text) → Result GrantSpecError (List Text)
privileges_or_error role (ok privs) = ok privs
privileges_or_error role (err e) = err (bad_privileges role e)

-- The loop of `desiredDatabaseGrants`, with the grantees seen.
unfoldable pub desired_each :
    Text → List Text → List DatabaseGrantSpec → Result GrantSpecError (List PrivilegeGrant)
unfolding database_target desired_grant
desired_each name seen [] = ok []
desired_each name seen (g ∷ gs) =
    let t = database_target name g.role in
    if contains seen t.grantee
    then err (listed_twice t.grantee)
    else if t.grantee == public_grantee && g.with_grant_option
    then err option_to_public
    else do
      privs ← privileges_or_error g.role (normalize_database_privileges g.privileges)
      rest ← desired_each name (t.grantee ∷ seen) gs
      ok (desired_grant t privs g.with_grant_option ∷ rest)

unfoldable pub desired_database_grants :
    List DatabaseGrantSpec → Text → Result GrantSpecError (List PrivilegeGrant)
unfolding desired_each
desired_database_grants grants name = desired_each name [] grants

-- An entry of the status: `place` is the schema or the parameter, where the entry has one.
pub record ManagedGrant : Type 0 where
  pub role : Text
  pub place : Text
  pub privileges : List Text
  pub grant_options : List Text
  pub with_grant_option : Bool

unfoldable pub grant_options_of : List Text → List Text → Bool → List Text
grant_options_of privileges grant_options legacy =
    if legacy then union grant_options privileges else grant_options

unfoldable pub database_ledger : Text → List ManagedGrant → List PrivilegeGrant
unfolding grant_options_of
database_ledger name = map (λ m. record {
  target = database_target name m.role;
  privileges = m.privileges;
  grant_options = grant_options_of m.privileges m.grant_options m.with_grant_option;
})

unfoldable pub database_ledger_status : List PrivilegeGrant → List ManagedGrant
database_ledger_status = map (λ g. record {
  role = g.target.grantee;
  place = [];
  privileges = g.privileges;
  grant_options = g.grant_options;
  with_grant_option = false;
})

unfoldable pub schema_ledger : List ManagedGrant → List PrivilegeGrant
unfolding grant_options_of
schema_ledger = map (λ m. record {
  target = schema_target m.place m.role;
  privileges = m.privileges;
  grant_options = grant_options_of m.privileges m.grant_options m.with_grant_option;
})

unfoldable pub schema_ledger_status : List PrivilegeGrant → List ManagedGrant
schema_ledger_status = map (λ g. record {
  role = g.target.grantee;
  place = g.target.name;
  privileges = g.privileges;
  grant_options = g.grant_options;
  with_grant_option = false;
})

unfoldable pub parameter_ledger : Text → List ManagedGrant → List PrivilegeGrant
unfolding grant_options_of
parameter_ledger member = map (λ m. record {
  target = parameter_target m.place member;
  privileges = m.privileges;
  grant_options = grant_options_of m.privileges m.grant_options m.with_grant_option;
})

unfoldable pub parameter_ledger_status : List PrivilegeGrant → List ManagedGrant
parameter_ledger_status = map (λ g. record {
  role = [];
  place = g.target.name;
  privileges = g.privileges;
  grant_options = g.grant_options;
  with_grant_option = false;
})
