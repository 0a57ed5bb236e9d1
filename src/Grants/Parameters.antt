-- ===== src/Grants/Parameters.antt =====
-- Privileges of roles on configuration parameters, internal/controller/role_parameter_grants.go. The
-- server's version and contexts are parameters, and the calls of the engine are its `Ops`.
pub mod Allowed
pub mod Safety
use pgop.Prelude.{
  ℕ, Bool, true, false, not, ◌&&◌, ◌||◌, List, [], ◌∷◌, ◌++◌, ◌==◌, if◌then◌else◌, ltb, contains,
  Option, none, some, Result, ok, err, ◌>>=◌, is_empty,
}
use pgop.Text.{Text, text_eq, text}
use pgop.Grants.Target.{PrivilegeGrant, desired_grant}
use pgop.Grants.Engine.{CallError, Ops, Log}
use pgop.Grants.Engine.Apply.{GrantError, apply_privilege_grants}
use pgop.Grants.Database.{parameter_target, ManagedGrant, parameter_ledger, parameter_ledger_status}
use pgop.Settings.{Contexts, context_user}
use pgop.Sql.Privileges.{
  SqlError, normalize_parameter_name, normalize_parameter_privileges, denied_parameter,
}

-- `ParameterGrantSpec`
pub record ParameterGrantSpec : Type 0 where
  pub parameter : Text
  pub privileges : List Text
  pub with_grant_option : Bool

pub data ParameterError : Type 0 where
  bad_parameter : SqlError → ParameterError
  parameter_twice : Text → ParameterError
  bad_parameter_privileges : Text → SqlError → ParameterError
  call_error : CallError → ParameterError
  unsupported_version : ℕ → ParameterError
  not_allowed : List Text → ParameterError

abbrev pub name_or_error : Result SqlError Text → Result ParameterError Text
name_or_error (ok n) = ok n
name_or_error (err e) = err (bad_parameter e)

abbrev pub privileges_or_error :
    Text → Result SqlError (List Text) → Result ParameterError (List Text)
privileges_or_error name (ok privs) = ok privs
privileges_or_error name (err e) = err (bad_parameter_privileges name e)

-- The desired grants, and the names that are denied.
abbrev pub Desired : Type 0
Desired = List PrivilegeGrant × List Text

abbrev pub deny : Text → Result ParameterError Desired → Result ParameterError Desired
deny name (err e) = err e
deny name (ok (out, denied)) = ok (out, name ∷ denied)

abbrev pub grant_too :
    PrivilegeGrant → Result ParameterError Desired → Result ParameterError Desired
grant_too g (err e) = err e
grant_too g (ok (out, denied)) = ok (g ∷ out, denied)

-- One round of the loop, with the result of the later ones.
unfoldable pub desired_parameter :
    Text
    → List Text
    → ParameterGrantSpec
    → Text
    → Result ParameterError Desired
    → Result ParameterError Desired
unfolding parameter_target desired_grant
desired_parameter member seen g name rest =
    if contains seen name
    then err (parameter_twice name)
    else if denied_parameter name
    then deny name rest
    else do
      privs ← privileges_or_error name (normalize_parameter_privileges g.privileges)
      grant_too (desired_grant (parameter_target name member) privs g.with_grant_option) rest

-- The loop of `desiredParameterGrants`, with the names seen.
unfoldable pub desired_parameters :
    Text → List Text → List ParameterGrantSpec → Result ParameterError Desired
unfolding desired_parameter
desired_parameters member seen [] = ok ([], [])
desired_parameters member seen (g ∷ gs) = do
  name ← name_or_error (normalize_parameter_name g.parameter)
  desired_parameter member seen g name (desired_parameters member (name ∷ seen) gs)

unfoldable pub desired_parameter_grants :
    List ParameterGrantSpec → Text → Result ParameterError Desired
unfolding desired_parameters
desired_parameter_grants grants member = desired_parameters member [] grants

abbrev pub context_superuser : Text
context_superuser = text "superuser"

abbrev pub grantable_parameter_contexts : List Text
grantable_parameter_contexts = context_user ∷ context_superuser ∷ []

unfoldable pub is_grantable : Option Text → Bool
unfolding contains
is_grantable none = true
is_grantable (some context) = contains grantable_parameter_contexts context

abbrev pub sort_out :
    PrivilegeGrant → Bool → List PrivilegeGrant × List Text → List PrivilegeGrant × List Text
sort_out g true (allowed, refused) = (g ∷ allowed, refused)
sort_out g false (allowed, refused) = (allowed, g.target.name ∷ refused)

-- `filterParameterContexts`
unfoldable pub filter_parameter_contexts :
    Contexts → List PrivilegeGrant → Result CallError (List PrivilegeGrant × List Text)
unfolding is_grantable
filter_parameter_contexts contexts [] = ok ([], [])
filter_parameter_contexts contexts (g ∷ gs) = do
  context ← contexts g.target.name
  rest ← filter_parameter_contexts contexts gs
  ok (sort_out g (is_grantable context) rest)

abbrev pub min_parameter_privileges_version : ℕ
min_parameter_privileges_version = 150000

abbrev pub parameter_grant_ledger_limit : ℕ
parameter_grant_ledger_limit = 512

-- The ledger of the status afterwards, the errors, and the calls of the engine, the latest first.
pub record Reconciled : Type 0 where
  pub managed : List ManagedGrant
  pub errors : List ParameterError
  pub engine_errors : List GrantError
  pub log : Log

abbrev pub without_calls : List ManagedGrant → List ParameterError → Reconciled
without_calls managed errors = record {
  managed = managed;
  errors = errors;
  engine_errors = [];
  log = [];
}

abbrev pub denied_error : List Text → List ParameterError
denied_error [] = []
denied_error (n ∷ ns) = not_allowed (n ∷ ns) ∷ []

-- What the engine leaves; its errors come before the denied names.
abbrev pub after_engine :
    List ParameterError → (List PrivilegeGrant × List GrantError) × Log → Reconciled
after_engine denied ((ledger, []), log) = record {
  managed = parameter_ledger_status ledger;
  errors = denied;
  engine_errors = [];
  log = log;
}
after_engine denied ((ledger, e ∷ es), log) = record {
  managed = parameter_ledger_status ledger;
  errors = [];
  engine_errors = e ∷ es;
  log = log;
}

unfoldable pub apply_parameters :
    Ops
    → Text
    → List ManagedGrant
    → List ParameterError
    → Result CallError (List PrivilegeGrant × List Text)
    → Reconciled
unfolding apply_privilege_grants parameter_ledger_status parameter_ledger
apply_parameters ops member managed denied (err e) = without_calls managed (call_error e ∷ [])
apply_parameters ops member managed denied (ok (allowed, refused)) =
    let ledger = parameter_ledger member managed in
    after_engine (denied ++ denied_error refused)
      (apply_privilege_grants ops allowed ledger parameter_grant_ledger_limit [])

-- What follows the check for something to do.
unfoldable pub apply_versioned :
    Contexts → Ops → Text → List ManagedGrant → Desired → Result CallError ℕ → Reconciled
unfolding apply_parameters filter_parameter_contexts
apply_versioned contexts ops member managed (desired, denied) (err e) =
    without_calls managed (call_error e ∷ [])
apply_versioned contexts ops member managed (desired, denied) (ok version) =
    if ltb version min_parameter_privileges_version
    then if is_empty desired
      then without_calls [] (denied_error denied)
      else without_calls managed (unsupported_version version ∷ [])
    else apply_parameters ops member managed (denied_error denied)
        (filter_parameter_contexts contexts desired)

unfoldable pub reconcile_desired :
    Contexts
    → Result CallError ℕ
    → Ops
    → Text
    → List ManagedGrant
    → Result ParameterError Desired
    → Reconciled
unfolding apply_versioned
reconcile_desired contexts version ops member managed (err e) = without_calls managed (e ∷ [])
reconcile_desired contexts version ops member managed (ok (desired, denied)) =
    if is_empty desired && is_empty managed
    then without_calls managed (denied_error denied)
    else apply_versioned contexts ops member managed (desired, denied) version

-- `reconcileParameterGrants`
unfoldable pub reconcile_parameter_grants :
    Contexts
    → Result CallError ℕ
    → Ops
    → Text
    → List ParameterGrantSpec
    → List ManagedGrant
    → Reconciled
unfolding reconcile_desired desired_parameter_grants
reconcile_parameter_grants contexts version ops member grants managed =
    reconcile_desired contexts version ops member managed (desired_parameter_grants grants member)
