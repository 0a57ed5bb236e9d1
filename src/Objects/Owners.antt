-- ===== src/Objects/Owners.antt =====
-- Whether pgop grants on an object, by its owner: `ownerProblem` and `operatorObjectProblem` of
-- internal/controller/database_object_grants.go, with `managesRole` of
-- internal/controller/grantee_policy.go.
use pgop.Prelude.{
  Bool, true, false, not, ◌&&◌, List, [], ◌∷◌, ◌==◌, nat_eq, contains, is_empty, if◌then◌else◌,
  Option, none, some, Result, ok, ◌>>=◌,
}
use pgop.Text.{Text, text_eq, text}
use pgop.Grants.Engine.{CallError}
use pgop.Policy.Roles.{ReachableRole, ManagedRoles, Problem, marker_of, manages, is_public}
use pgop.Policy.Grantee.{Lookup, grantee_name_problem}
use pgop.Objects.{
  ObjectKind, pg_name, is_routine, privilege_maintain, privilege_trigger, SchemaObject,
}

-- Why pgop does not grant on an object, or not all that is asked.
pub data Skip : Type 0 where
  in_extension : Text → Skip
  superuser_owner : Text → Skip
  unmanaged_owner : Text → Skip
  definer_routine : Skip
  unsafe_language : Text → Skip
  superuser_relation : Text → Skip
  name_too_long : Skip
  privileges_denied : List Text → Skip

abbrev pub invoker_safe_languages : List Text
invoker_safe_languages = text "sql" ∷ text "plpgsql" ∷ []

-- `relkindNames`: the relations that a table entry selects and that are not tables
abbrev pub other_relkinds : List Text
other_relkinds = text "v" ∷ text "m" ∷ text "f" ∷ []

-- A problem of the whole object, or the privileges that are not granted on it.
abbrev pub OwnerVerdict : Type 0
OwnerVerdict = Option Skip × List Text

-- `operatorObjectProblem`
unfoldable pub operator_object_problem : ObjectKind → SchemaObject → OwnerVerdict
unfolding is_routine
operator_object_problem kind o =
    if is_routine kind && o.security_definer
    then (some definer_routine, [])
    else if is_routine kind && not (contains invoker_safe_languages o.language)
    then (some (unsafe_language o.language), [])
    else if pg_name kind == text "TABLE" && contains other_relkinds o.sub_kind
    then (some (superuser_relation o.sub_kind), [])
    else if pg_name kind == text "TABLE"
    then (none, privilege_maintain ∷ privilege_trigger ∷ [])
    else (none, [])

abbrev pub is_managed_role : ManagedRoles → Option ReachableRole → Bool
is_managed_role managed none = false
is_managed_role managed (some r) = not r.superuser && manages managed r

abbrev pub is_listed : Option Text → Bool
is_listed none = false
is_listed (some m) = true

abbrev pub has_no_problem : Option Problem → Bool
has_no_problem none = true
has_no_problem (some p) = false

-- `managesRole` of internal/controller/grantee_policy.go, without its cache
unfoldable pub manages_role : Lookup → ManagedRoles → Text → Result CallError Bool
manages_role lookup managed name =
    if is_listed (marker_of managed name)
      && has_no_problem (grantee_name_problem name)
      && not (is_public name)
    then (do r ← lookup name; ok (is_managed_role managed r))
    else ok false

abbrev pub unless_managed : Text → Bool → OwnerVerdict
unless_managed owner true = (none, [])
unless_managed owner false = (some (unmanaged_owner owner), [])

-- `ownerProblem`
unfoldable pub owner_problem :
    Lookup → ManagedRoles → ObjectKind → SchemaObject → Result CallError OwnerVerdict
unfolding operator_object_problem manages_role
owner_problem lookup managed kind o =
    if not (is_empty o.extension)
    then ok (some (in_extension o.extension), [])
    else if o.owner_is_session_user
    then ok (operator_object_problem kind o)
    else if o.owner_superuser
    then ok (some (superuser_owner o.owner), [])
    else do
      yes_managed ← manages_role lookup managed o.owner
      ok (unless_managed o.owner yes_managed)
