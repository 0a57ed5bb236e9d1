-- ===== src/Roles/Takeover.antt =====
-- Whether a Role may create or alter its PostgreSQL role: `roleRecorded`, `checkRoleOwnership`,
-- `checkRoleAdoption` and `roleOwnership` of internal/controller/role_controller.go, and the signer of
-- internal/controller/marker_key.go. Reads of the API server and of PostgreSQL are parameters.
pub mod Safety
use pgop.Prelude.{
  ℕ, Bool, true, false, not, ◌&&◌, ◌||◌, List, [], ◌∷◌, ◌++◌, ◌==◌, ltb, length, is_empty,
  if◌then◌else◌, Option, none, some, Result, ok, err, ◌>>=◌,
}
use pgop.Text.{Text, text_eq, text}
use pgop.Grants.Engine.{CallError}
use pgop.Policy.Roles.{Policy, ReachableRole, ManagedRoles, Problem, allows_adopting_role}
use pgop.Policy.Ownership.{
  MarkerSigner, Ownership, owned_absent, owned, owned_remark, adoptable, not_owned, marker,
  decide_ownership,
}
use pgop.Policy.Membership.{adoption_problem}
use pgop.Roles.{
  Role, RoleError, call_error, policy_violation, role_not_managed, marker_kind_role,
  list_cluster_roles, managed_roles_of,
}

-- What is read of a Cluster.
pub record Cluster : Type 0 where
  pub name : Text
  pub namespace : Text
  pub uid : Text
  pub policy : Policy

-- What the reads answer. A Secret that is missing is `none`: of the credentials it is read whether the
-- Role controls them, of the marker key the bytes at "key", which are none if that is missing.
pub record OwnershipReads : Type 0 where
  pub credentials : Text → Result CallError (Option Bool)
  pub marker_key : Text → Result CallError (Option Text)
  pub role_comment : Text → Result CallError (Bool × Text)
  pub membership_closure : Text → Result CallError (List ReachableRole)
  pub roles : Result CallError (List Role)

-- `credentialsSecretName` and `markerKeySecretName`
unfoldable pub credentials_secret_name : Role → Cluster → Text
credentials_secret_name role cluster = cluster.name ++ (b'-' ∷ (role.name ++ text "-credentials"))

unfoldable pub marker_key_secret_name : Cluster → Text
marker_key_secret_name cluster = cluster.name ++ text "-marker-key"

abbrev pub or_call_error {ℓ} : {A : Type ℓ} → Result CallError A → Result RoleError A
or_call_error (ok a) = ok a
or_call_error (err e) = err (call_error e)

abbrev pub controls : Option Bool → Bool
controls none = false
controls (some controlled) = controlled

-- `roleRecorded`
unfoldable pub role_recorded : OwnershipReads → Role → Cluster → Text → Result CallError Bool
unfolding credentials_secret_name
role_recorded reads role cluster pg_name =
    if is_empty pg_name || not (role.status_role_name == pg_name)
    then ok false
    else if not (is_empty role.status_cluster_uid)
    then ok (role.status_cluster_uid == cluster.uid)
    else do secret ← reads.credentials (credentials_secret_name role cluster); ok (controls secret)

abbrev pub marker_key_size : ℕ
marker_key_size = 32

pub data SignerError : Type 0 where
  key_secret_missing : Text → SignerError
  no_usable_key : Text → SignerError
  read_failed : CallError → SignerError

-- `loadMarkerSigner`, with `newMarkerSigner`
unfoldable pub signer_of :
    Cluster → Result CallError (Option Text) → Result SignerError MarkerSigner
unfolding marker_key_secret_name
signer_of cluster (err e) = err (read_failed e)
signer_of cluster (ok none) = err (key_secret_missing (marker_key_secret_name cluster))
signer_of cluster (ok (some key)) =
    if ltb (length key) marker_key_size
    then err (no_usable_key (marker_key_secret_name cluster))
    else ok (record { key = key; namespace = cluster.namespace; cluster = cluster.name })

unfoldable pub load_marker_signer : OwnershipReads → Cluster → Result SignerError MarkerSigner
unfolding signer_of
load_marker_signer reads cluster =
    signer_of cluster (reads.marker_key (marker_key_secret_name cluster))

abbrev pub violation_or_nothing : Option (Text × Problem) → Result RoleError (Unit {0})
violation_or_nothing none = ok tt
violation_or_nothing (some p) = err (policy_violation p)

-- What is decided of a role: the marker to store, and whether it may only be created.
abbrev pub Decision : Type 0
Decision = Text × Bool

pub data RoleOwnershipError : Type 0 where
  no_signer : SignerError → RoleOwnershipError
  of_role : RoleError → RoleOwnershipError

abbrev pub or_role_error {ℓ} : {A : Type ℓ} → Result RoleError A → Result RoleOwnershipError A
or_role_error (ok a) = ok a
or_role_error (err e) = err (of_role e)

abbrev pub or_no_signer : Result SignerError MarkerSigner → Result RoleOwnershipError MarkerSigner
or_no_signer (ok s) = ok s
or_no_signer (err e) = err (no_signer e)

module _ (key_id : Text → Text) (mac : Text → Text → Text) (reads : OwnershipReads) where
  -- `managedRoles`
  unfoldable pub managed_roles : Role → Cluster → MarkerSigner → Result CallError ManagedRoles
  managed_roles role cluster signer = do
    roles ← list_cluster_roles role.cluster reads.roles
    ok (managed_roles_of key_id mac roles cluster.uid signer)

  -- `checkRoleAdoption`
  unfoldable pub check_role_adoption :
      Role → Cluster → Text → MarkerSigner → Result RoleError (Unit {0})
  unfolding managed_roles
  check_role_adoption role cluster pg_name signer = do
    closure ← or_call_error (reads.membership_closure pg_name)
    managed ← or_call_error (managed_roles role cluster signer)
    violation_or_nothing (adoption_problem pg_name closure cluster.policy managed)

  -- The cases of the decision.
  unfoldable pub act_on :
      Role → Cluster → Text → MarkerSigner → Ownership → Result RoleError Decision
  unfolding check_role_adoption
  act_on role cluster pg_name signer owned = ok ([], false)
  act_on role cluster pg_name signer owned_absent =
      ok (marker key_id mac signer marker_kind_role role.name, true)
  act_on role cluster pg_name signer owned_remark =
      ok (marker key_id mac signer marker_kind_role role.name, false)
  act_on role cluster pg_name signer adoptable = do
    _ ← check_role_adoption role cluster pg_name signer
    ok (marker key_id mac signer marker_kind_role role.name, false)
  act_on role cluster pg_name signer not_owned = err (role_not_managed pg_name)

  -- `checkRoleOwnership`
  unfoldable pub check_role_ownership :
      Role → Cluster → Text → MarkerSigner → Bool → Result RoleError Decision
  unfolding act_on
  check_role_ownership role cluster pg_name signer recorded = do
    found ← or_call_error (reads.role_comment pg_name)
    act_on role cluster pg_name signer (
        decide_ownership key_id mac signer marker_kind_role role.name found.0 found.1 recorded
          (allows_adopting_role cluster.policy pg_name))

  -- `roleOwnership`
  unfoldable pub role_ownership :
      Cluster → Role → Text → Result RoleOwnershipError (MarkerSigner × Decision)
  unfolding load_marker_signer role_recorded check_role_ownership
  role_ownership cluster role pg_name = do
    signer ← or_no_signer (load_marker_signer reads cluster)
    recorded ← or_role_error (or_call_error (role_recorded reads role cluster pg_name))
    decision ← or_role_error (check_role_ownership role cluster pg_name signer recorded)
    ok (signer, decision)
