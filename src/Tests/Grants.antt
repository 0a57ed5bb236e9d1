-- ===== src/Tests/Grants.antt =====
-- The grant engine and its ledger on concrete inputs.
use pgop.Text.Strings.{equal_fold, to_upper, join, fields}
use pgop.Text.Sort.{sort, compact}
use pgop.Sql.Privileges.{expand_all, normalize_database_privileges}
use pgop.Settings.{Contexts}
use pgop.Grants.Parameters.{ParameterGrantSpec, context_superuser, reconcile_parameter_grants}
use pgop.Grants.Parameters.Safety.{IsSafeRun, reconcile_parameter_grants-IsSafeRun}
use pgop.Prelude.{
  if◌then◌else◌, ◌==◌, true, false, List, [], ◌∷◌, ◌≡◌, ◌↔◌, refl, arith, All, none, some, ok,
  contains,
}
use pgop.Text.Strconv.{quote}
use pgop.Text.{Text, text_eq, text}
use pgop.Grants.Target.{GrantTarget, PrivilegeGrant, key, desired_grant}
use pgop.Grants.Target.Keys.{HasNoBar, SameKey, key-eq_iff}
use pgop.Grants.Sets.{union}
use pgop.Grants.Ledger.{keys, tracked, put, want}
use pgop.Grants.Ledger.Merge.{HasDistinctKeys}
use pgop.Policy.Roles.{is_public, canonical_grantee}
use pgop.Grants.Database.{DatabaseGrantSpec, desired_database_grants, target_on}
use pgop.Grants.Database.Keys.{IsOnDatabase}
use pgop.Grants.Engine.{Ops, dependent_privileges}
use pgop.Grants.Engine.Apply.{over_limit, apply_privilege_grants}
use pgop.Grants.Engine.Apply.Safety.{IsDeclaration, IsSafeCall}
use pgop.Grants.Engine.Apply.Limit.{IsRevocation, apply_privilege_grants-over_limit}
use pgop.Grants.Engine.Apply.Calls.{apply_privilege_grants-IsSafe}

abbrev database_target : Text → GrantTarget
database_target grantee = record {
  kind = text "DATABASE";
  name = text "shop";
  grantee = grantee;
  schema = [];
  for_role = [];
  oid = 0;
}

-- CONNECT and CREATE were granted, CREATE with the grant option.
abbrev managed : List PrivilegeGrant
managed =
    record {
      target = database_target (text "app");
      privileges = text "CONNECT" ∷ text "CREATE" ∷ [];
      grant_options = text "CREATE" ∷ [];
    }
    ∷ []

abbrev desired : List PrivilegeGrant
desired =
    record {
      target = database_target (text "app");
      privileges = text "CONNECT" ∷ [];
      grant_options = [];
    }
    ∷ record {
      target = database_target (text "report");
      privileges = text "CONNECT" ∷ text "TEMPORARY" ∷ [];
      grant_options = text "CONNECT" ∷ [];
    }
    ∷ []

-- A server that holds nothing, grants what it is asked for and refuses a REVOKE without CASCADE.
abbrev ops : Ops
ops = record {
  held = λ log t. ok ([], []);
  grant = λ log t ps with_option. none;
  revoke = λ log t ps mode. some dependent_privileges;
  gone = none;
  persist = some (λ log ledger. none);
}

distinct : HasDistinctKeys desired
unfolding key quote pgop.Text.text_beq
distinct = (refl, (refl, tt))

declared : All IsDeclaration desired
unfolding contains
declared = ((λ p h. cc), ((λ p h. ground (arith, h)), tt))

apply_privilege_grants_example :
    All (IsSafeCall managed desired) (apply_privilege_grants ops desired managed 100 []).1
apply_privilege_grants_example =
    apply_privilege_grants-IsSafe ops managed desired distinct declared 100

database-NoBar : HasNoBar (text "DATABASE")
database-NoBar = (
  (λ h. ground (arith, h)),
  (
    (λ h. ground (arith, h)),
    (
      (λ h. ground (arith, h)),
      (
        (λ h. ground (arith, h)),
        (
          (λ h. ground (arith, h)),
          ((λ h. ground (arith, h)), ((λ h. ground (arith, h)), ((λ h. ground (arith, h)), tt))),
        ),
      ),
    ),
  ),
)

key_example :
    (key (database_target (text "app")) ≡ key (database_target (text "report")))
    ↔ SameKey (database_target (text "app")) (database_target (text "report"))
key_example =
    key-eq_iff (database_target (text "app")) (database_target (text "report")) database-NoBar
      database-NoBar

abbrev specs : List DatabaseGrantSpec
specs =
    record {
      role = text "app";
      privileges = text "temp" ∷ text "connect" ∷ [];
      with_grant_option = true;
    }
    ∷ record { role = text "Public"; privileges = text "CONNECT" ∷ []; with_grant_option = false }
    ∷ []

abbrev spec_grants : List PrivilegeGrant
spec_grants =
    record {
      target = database_target (text "app");
      privileges = text "CONNECT" ∷ text "TEMPORARY" ∷ [];
      grant_options = text "CONNECT" ∷ text "TEMPORARY" ∷ [];
    }
    ∷ record {
      target = database_target (text "PUBLIC");
      privileges = text "CONNECT" ∷ [];
      grant_options = [];
    }
    ∷ []

specs_desired : desired_database_grants specs (text "shop") ≡ ok spec_grants
unfolding desired_database_grants target_on canonical_grantee is_public equal_fold
    pgop.Text.text_beq contains to_upper join fields compact sort expand_all desired_grant
    normalize_database_privileges
specs_desired = refl

on_database : All (IsOnDatabase (text "shop")) managed
unfolding canonical_grantee is_public target_on equal_fold pgop.Text.text_beq
on_database = ((refl, refl), tt)

over : over_limit desired managed 1 ≡ true
unfolding union compact sort keys tracked put want pgop.Text.text_beq key quote
over = refl

over_limit_example : All IsRevocation (apply_privilege_grants ops desired managed 1 []).1
over_limit_example = apply_privilege_grants-over_limit ops managed desired 1 over

-- A superuser parameter may be granted, a parameter that needs a restart may not.
abbrev contexts : Contexts
contexts name =
    if name == text "log_statement"
    then ok (some context_superuser)
    else ok (some (text "postmaster"))

abbrev parameter_grant : Text → ParameterGrantSpec
parameter_grant parameter = record {
  parameter = parameter;
  privileges = [];
  with_grant_option = true;
}

abbrev parameter_specs : List ParameterGrantSpec
parameter_specs =
    parameter_grant (text "Log_Statement")
    ∷ parameter_grant (text "port")
    ∷ parameter_grant (text "role")
    ∷ []

reconcile_parameter_grants-IsSafeRun_example :
    IsSafeRun parameter_specs contexts
      (text "app")
      []
      (reconcile_parameter_grants contexts (ok 160000) ops (text "app") parameter_specs []).log
reconcile_parameter_grants-IsSafeRun_example =
    reconcile_parameter_grants-IsSafeRun contexts (ok 160000) ops (text "app") parameter_specs []
