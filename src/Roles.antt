-- ===== src/Roles.antt =====
-- Which Role manages a PostgreSQL role: names, precedence and ownership in
-- internal/controller/role_controller.go, with the reserved names of internal/controller/role_policy.go. The Roles
-- of the namespace and the answers of PostgreSQL are parameters.
pub mod Precedence
pub mod Takeover
pub mod Reassign
pub mod Drop
use pgop.Prelude.{
  ℕ, Bool, true, false, not, ◌&&◌, ◌||◌, List, [], ◌∷◌, ◌==◌, nat_eq, ltb, if◌then◌else◌, contains,
  Option, none, some, Result, ok, err, ◌>>=◌, is_empty,
}
use pgop.Text.{Text, text_eq, text}
use pgop.Text.Strings.{has_prefix}
use pgop.Text.Sort.Order.{text_lt}
use pgop.Grants.Engine.{CallError}
use pgop.Policy.Roles.{
  Policy, ReachableRole, ManagedRoles, Problem, marker_of, bootstrap_role_name,
  reserved_role_prefix, predefined_prefix, allows_adopting_role,
}
use pgop.Policy.Ownership.{
  MarkerSigner, Ownership, owned_absent, owned, owned_remark, adoptable, not_owned, marker,
  decide_ownership,
}
use pgop.Policy.Membership.{adoption_problem}

-- What is read of a Role: its metadata, spec.roleName and spec.clusterRef.name, and what the status
-- records.
pub record Role : Type 0 where
  pub uid : Text
  pub name : Text
  pub created : ℕ
  pub cluster : Text
  pub role_name : Text
  pub status_role_name : Text
  pub status_cluster_uid : Text

-- `PostgresName`
unfoldable pub postgres_name : Role → Text
postgres_name r = if is_empty r.role_name then r.name else r.role_name

pub data RoleError : Type 0 where
  reserved_bootstrap reserved_for_operator reserved_by_postgres : Text → RoleError
  duplicate_role_name : Text → RoleError
  role_not_managed : Text → RoleError
  policy_violation : Text × Problem → RoleError
  call_error : CallError → RoleError

-- `reservedRoleName`
unfoldable pub reserved_role_name : Text → Option RoleError
unfolding has_prefix
reserved_role_name name =
    if name == bootstrap_role_name
    then some (reserved_bootstrap name)
    else if has_prefix name reserved_role_prefix
    then some (reserved_for_operator name)
    else if has_prefix name predefined_prefix
    then some (reserved_by_postgres name)
    else none

-- `createdBefore`
unfoldable pub created_before : Role → Role → Bool
unfolding text_lt
created_before a b =
    if not (a.created == b.created) then ltb a.created b.created else text_lt a.name b.name

unfoldable pub insert_role : Role → List Role → List Role
unfolding created_before
insert_role r [] = r ∷ []
insert_role r (x ∷ xs) =
    let rest = insert_role r xs in if created_before x r then x ∷ rest else r ∷ x ∷ xs

unfoldable pub sort_roles : List Role → List Role
unfolding insert_role
sort_roles [] = []
sort_roles (r ∷ rs) = insert_role r (sort_roles rs)

unfoldable pub of_cluster : Text → List Role → List Role
of_cluster cluster [] = []
of_cluster cluster (r ∷ rs) =
    let rest = of_cluster cluster rs in if r.cluster == cluster then r ∷ rest else rest

-- `listClusterRoles`, of the Roles of the namespace; the order is one of creation and name, so that any
-- sort gives this list.
unfoldable pub list_cluster_roles :
    Text → Result CallError (List Role) → Result CallError (List Role)
unfolding of_cluster sort_roles
list_cluster_roles cluster listed = do items ← listed; ok (sort_roles (of_cluster cluster items))

abbrev pub marker_kind_role : Text
marker_kind_role = text "Role"

abbrev pub is_taken : Option Text → Bool
is_taken none = false
is_taken (some m) = true

module _ (key_id : Text → Text) (mac : Text → Text → Text) where
  -- The loop of `managedRolesOf`, with `out`.
  unfoldable pub managed_each : Text → MarkerSigner → ManagedRoles → List Role → ManagedRoles
  unfolding marker_of marker postgres_name
  managed_each cluster_uid signer out [] = out
  managed_each cluster_uid signer out (r ∷ rs) =
      let name = postgres_name r in
      managed_each cluster_uid signer
        (if not (r.status_role_name == name)
            || not (r.status_cluster_uid == cluster_uid)
            || is_taken (marker_of out name)
          then out
          else (name, marker key_id mac signer marker_kind_role r.name) ∷ out)
        rs

  unfoldable pub managed_roles_of : List Role → Text → MarkerSigner → ManagedRoles
  unfolding managed_each
  managed_roles_of roles cluster_uid signer = managed_each cluster_uid signer [] roles

-- The loop of `checkRoleName`.
unfoldable pub older_namesake : Role → Text → List Role → Option RoleError
unfolding created_before postgres_name
older_namesake role name [] = none
older_namesake role name (other ∷ others) =
    if not (other.uid == role.uid) && postgres_name other == name && created_before other role
    then some (duplicate_role_name other.name)
    else older_namesake role name others

abbrev pub error_or_namesake : Role → Text → Result CallError (List Role) → Option RoleError
error_or_namesake role name (err e) = some (call_error e)
error_or_namesake role name (ok roles) = older_namesake role name roles

-- `checkRoleName`
unfoldable pub check_role_name : Result CallError (List Role) → Role → Text → Option RoleError
unfolding reserved_role_name list_cluster_roles older_namesake
check_role_name listed role name = elim (reserved_role_name name) [
  | some e ↦ some e
  | none ↦ error_or_namesake role name (list_cluster_roles role.cluster listed)
]
