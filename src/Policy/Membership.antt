-- ===== src/Policy/Membership.antt =====
-- The membership policy of internal/controller/role_policy.go: which roles a Role may be made a
-- member of, given every role that the target reaches, and the attributes that a Role gets.
pub mod Laws
pub mod Options
use pgop.Prelude.{
  ℕ, Bool, true, false, not, ◌&&◌, ◌||◌, List, [], ◌∷◌, ◌++◌, Eq, ◌==◌, if◌then◌else◌, contains,
  Option, none, some, is_empty,
}
use pgop.Text.{Text, text_eq, text}
use pgop.Text.Strings.{has_prefix}
use pgop.Policy.Roles.{
  RoleAttribute, create_role, replication, bypass_rls, Policy, ReachableRole, ManagedRoles, Problem,
  reserved_bootstrap, reserved_for_operator, file_access, predefined_not_allowed, is_superuser,
  has_attributes, not_managed, bootstrap_role_name, reserved_role_prefix, predefined_prefix,
  forbidden_predefined_roles, allows_attribute, allows_predefined_role, allows_existing_role,
  manages,
}

-- The first of two problems.
abbrev pub or_else : Option Problem → Option Problem → Option Problem
or_else (some p) q = some p
or_else none q = q

unfoldable pub membership_name_problem : Text → Policy → Option Problem
membership_name_problem name policy =
    if name == bootstrap_role_name
    then some reserved_bootstrap
    else if has_prefix name reserved_role_prefix
    then some reserved_for_operator
    else if contains forbidden_predefined_roles name
    then some file_access
    else if has_prefix name predefined_prefix && not (allows_predefined_role policy name)
    then some predefined_not_allowed
    else none

-- The attribute is denied if the role has it and the policy does not allow it.
abbrev pub denied : Bool → RoleAttribute → Policy → List RoleAttribute
denied has a policy = if has && not (allows_attribute policy a) then a ∷ [] else []

abbrev pub attributes_problem : List RoleAttribute → Option Problem
attributes_problem [] = none
attributes_problem (a ∷ as_) = some (has_attributes (a ∷ as_))

unfoldable pub attribute_problem : ReachableRole → Policy → Option Problem
attribute_problem r policy = attributes_problem (
    denied r.create_role create_role policy
    ++ (denied r.replication replication policy ++ denied r.bypass_rls bypass_rls policy))

unfoldable pub reachable_role_problem : ReachableRole → Policy → ManagedRoles → Option Problem
reachable_role_problem r policy managed = or_else (membership_name_problem r.name policy) (
    if r.superuser
    then some is_superuser
    else or_else (attribute_problem r policy) (
        if not (has_prefix r.name predefined_prefix)
          && not (manages managed r)
          && not (allows_existing_role policy r.name)
        then some not_managed
        else none))

-- The predefined roles that pg_monitor is a member of by construction.
unfoldable pub builtin_contained_roles : Text → List Text
builtin_contained_roles name =
    if name == text "pg_monitor"
    then text "pg_read_all_settings" ∷ text "pg_read_all_stats" ∷ text "pg_stat_scan_tables" ∷ []
    else []

unfoldable pub contained_predefined_role : Text → List ReachableRole → Policy → Bool
contained_predefined_role reached [] policy = false
contained_predefined_role reached (r ∷ closure) policy =
    (allows_predefined_role policy r.name && contains (builtin_contained_roles r.name) reached)
    || contained_predefined_role reached closure policy

-- The problem of a role that the target reaches, with the role's name.
abbrev pub named : Text → Option Problem → Option (Text × Problem)
named name none = none
named name (some p) = some (name, p)

abbrev pub first_of_two :
    Option (Text × Problem) → Option (Text × Problem) → Option (Text × Problem)
first_of_two (some p) q = some p
first_of_two none q = q

-- The role is skipped as a part of an allowed predefined role.
abbrev pub is_skipped : Text → ReachableRole → List ReachableRole → Policy → Bool
is_skipped target r closure policy =
    not (r.name == target) && contained_predefined_role r.name closure policy

-- The loop over the closure.
unfoldable pub closure_problem :
    Text → List ReachableRole → Policy → ManagedRoles → List ReachableRole → Option (Text × Problem)
closure_problem target closure policy managed [] = none
closure_problem target closure policy managed (r ∷ rs) =
    let rest = closure_problem target closure policy managed rs in
    if is_skipped target r closure policy
    then rest
    else first_of_two (named r.name (reachable_role_problem r policy managed)) rest

unfoldable pub membership_problem :
    Text → List ReachableRole → Policy → ManagedRoles → Option (Text × Problem)
membership_problem target closure policy managed =
    first_of_two (named target (membership_name_problem target policy))
      (closure_problem target closure policy managed closure)

-- The loop over the closure of a role that is to be adopted: the role itself stands for `via` "".
unfoldable pub adoption_loop :
    Text → List ReachableRole → Policy → ManagedRoles → List ReachableRole → Option (Text × Problem)
adoption_loop name closure policy managed [] = none
adoption_loop name closure policy managed (r ∷ rs) =
    let rest = adoption_loop name closure policy managed rs in
    if is_empty r.via
    then (if r.superuser then some (name, is_superuser) else rest)
    else if contained_predefined_role r.name closure policy
    then rest
    else first_of_two (named r.name (reachable_role_problem r policy managed)) rest

unfoldable pub adoption_problem :
    Text → List ReachableRole → Policy → ManagedRoles → Option (Text × Problem)
unfolding adoption_loop
adoption_problem name closure policy managed = adoption_loop name closure policy managed closure
