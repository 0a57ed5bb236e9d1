-- ===== src/Passwords/Source.antt =====
-- Reading a password from a Secret: `readPasswordSecretRef`, `protectedSecretProblem` and
-- `checkEditedPassword` of internal/controller/role_password.go. What the API server answers is a parameter.
use pgop.Prelude.{
  ℕ, Bool, false, ◌||◌, List, [], ◌∷◌, ◌==◌, nat_eq, if◌then◌else◌, Option, none, some, Result, ok,
  err, ◌>>=◌, is_empty,
}
use pgop.Text.{Text, text_eq, text}
use pgop.Grants.Engine.{CallError}
use pgop.Settings.{value_of}
use pgop.Passwords.{
  SecretRef, Role, OwnerReference, Secret, DesiredPassword, Fingerprint, secret_key_password,
}
use pgop.Passwords.Problems.{Problem, password_problem}

-- An error of the API server; apierrors.IsNotFound tells one apart.
pub data ReadError : Type 0 where
  not_found : ReadError
  other : CallError → ReadError

-- Why a Secret may not be referenced.
pub data Protected : Type 0 where
  managed_by_pgop : Protected
  owned_by : Text → Text → Protected
  tls_secret_of : Text → Protected

-- The errors, with what their messages name.
pub data PasswordError : Type 0 where
  secret_not_found : Text → PasswordError
  no_such_key : Text → Text → PasswordError
  protected : Text → Protected → PasswordError
  unusable : Text → Text → Problem → PasswordError
  api_error : CallError → PasswordError
  reread_failed : ReadError → PasswordError

-- A Cluster of the namespace, with spec.tls.secretName.
pub record ClusterTls : Type 0 where
  pub name : Text
  pub tls_secret : Option Text

-- The uncached reader. Each read of the Role may have another answer.
pub record ApiReader : Type 0 where
  pub role : ℕ → Result ReadError Role
  pub secret : Result ReadError Secret

-- What the code asks: the fingerprint, the Secrets and Clusters of the Role's namespace, the API group
-- of an apiVersion (schema.ParseGroupVersion), the reader, and the passwords that are generated.
pub record Env : Type 0 where
  pub fingerprint : Fingerprint
  pub get_secret : Text → Result ReadError Secret
  pub list_clusters : Result CallError (List ClusterTls)
  pub group_of : Text → Option Text
  pub api_reader : Option ApiReader
  pub generate : ℕ → Result CallError Text

abbrev pub managed_by_label : Text
managed_by_label = text "app.kubernetes.io/managed-by"

abbrev pub pgop_value : Text
pgop_value = text "pgop"

abbrev pub pgop_group : Text
pgop_group = text "pgop.ruck.io"

abbrev pub is_value : Text → Option Text → Bool
is_value v none = false
is_value v (some w) = w == v

unfoldable pub owner_problem : (Text → Option Text) → List OwnerReference → Option Protected
owner_problem group_of [] = none
owner_problem group_of (r ∷ rs) =
    if is_value pgop_group (group_of r.api_version)
    then some (owned_by r.kind r.name)
    else owner_problem group_of rs

unfoldable pub tls_problem : Text → List ClusterTls → Option Protected
tls_problem name [] = none
tls_problem name (c ∷ cs) =
    if is_value name c.tls_secret then some (tls_secret_of c.name) else tls_problem name cs

unfoldable pub protected_by_clusters :
    Text → Result CallError (List ClusterTls) → Result PasswordError (Option Protected)
unfolding tls_problem
protected_by_clusters name (err e) = err (api_error e)
protected_by_clusters name (ok clusters) = ok (tls_problem name clusters)

unfoldable pub protected_unless_owned :
    Env → Secret → Option Protected → Result PasswordError (Option Protected)
unfolding protected_by_clusters
protected_unless_owned env secret (some p) = ok (some p)
protected_unless_owned env secret none = protected_by_clusters secret.name env.list_clusters

-- `protectedSecretProblem`
unfoldable pub protected_secret_problem : Env → Secret → Result PasswordError (Option Protected)
unfolding protected_unless_owned owner_problem
protected_secret_problem env secret =
    if is_value pgop_value (value_of secret.labels managed_by_label)
    then ok (some managed_by_pgop)
    else protected_unless_owned env secret (owner_problem env.group_of secret.owner_references)

abbrev pub or_empty : Option Text → Text
or_empty none = []
or_empty (some v) = v

abbrev pub unless_problem : SecretRef → Text → Option Problem → Result PasswordError Text
unless_problem ref pw none = ok pw
unless_problem ref pw (some problem) = err (unusable ref.name ref.key problem)

unfoldable pub key_of_secret : SecretRef → Secret → Option Protected → Result PasswordError Text
unfolding password_problem
key_of_secret ref secret (some p) = err (protected ref.name p)
key_of_secret ref secret none =
    let pw = or_empty (value_of secret.contents ref.key) in
    if is_empty pw
    then err (no_such_key ref.name ref.key)
    else unless_problem ref pw (password_problem pw)

unfoldable pub read_answer : Env → SecretRef → Result ReadError Secret → Result PasswordError Text
unfolding protected_secret_problem key_of_secret
read_answer env ref (err not_found) = err (secret_not_found ref.name)
read_answer env ref (err (other e)) = err (api_error e)
read_answer env ref (ok secret) = do
  problem ← protected_secret_problem env secret
  key_of_secret ref secret problem

-- `readPasswordSecretRef`
unfoldable pub read_password_secret_ref : Env → SecretRef → Result PasswordError Text
unfolding read_answer
read_password_secret_ref env ref = read_answer env ref (env.get_secret ref.name)

abbrev pub edited : DesiredPassword → Text → Option Problem → Result PasswordError DesiredPassword
edited dp name none = ok dp
edited dp name (some problem) = err (unusable name secret_key_password problem)

-- `checkEditedPassword`; the error names the key.
unfoldable pub check_edited_password :
    DesiredPassword → Option Secret → Result PasswordError DesiredPassword
unfolding password_problem
check_edited_password dp none = ok dp
check_edited_password dp (some secret) =
    if dp.generated || dp.from_ref || dp.applied
    then ok dp
    else edited dp secret.name (password_problem dp.value)
