-- ===== src/Passwords/Readable.antt =====
-- Which Secrets give a password.
use pgop.Prelude.{
  false, ◌≡◌, inl, inr, ◌↔◌, refl, ap, ◌∙◌, List, [], ◌∷◌, Option, none, some, Result, ok, err,
  arith, Bool-cases, >>=-eq-ok, is_empty, All,
}
use pgop.Text.{Text, text_eq}
use pgop.Grants.Engine.{CallError}
use pgop.Settings.{value_of}
use pgop.Passwords.{SecretRef, Secret, OwnerReference}
use pgop.Passwords.Problems.{Problem, password_problem}
use pgop.Passwords.Source.{
  ReadError, not_found, other, Env, Protected, ClusterTls, or_empty, unless_problem, key_of_secret,
  read_answer, is_value, owner_problem, tls_problem, protected_by_clusters, protected_unless_owned,
  managed_by_label, pgop_value, pgop_group, protected_secret_problem, read_password_secret_ref,
}

pub unless_problem-ok :
    (ref : SecretRef) (pw : Text) (o : Option Problem) {password : Text}
    → unless_problem ref pw o ≡ ok password
    → (pw ≡ password) × (o ≡ none)
unless_problem-ok ref pw none h = (cc h, refl)
unless_problem-ok ref pw (some problem) h = absurd (ground (arith, h))

-- The value at the key, which is not empty and is usable.
abbrev pub Given : SecretRef → Secret → Text → Type 0
Given ref secret password =
    (or_empty (value_of secret.contents ref.key) ≡ password)
    × (is_empty password ≡ false)
    × (password_problem password ≡ none)

key_of_secret-Given :
    (ref : SecretRef) (secret : Secret) (o : Option Protected) {password : Text}
    → key_of_secret ref secret o ≡ ok password
    → (o ≡ none) × (Given ref secret password)
unfolding key_of_secret
key_of_secret-Given ref secret (some p) h = absurd (ground (arith, h))
key_of_secret-Given ref secret none {password} h =
    elim (Bool-cases (is_empty (or_empty (value_of secret.contents ref.key)))) [
      | inl e ↦ absurd (ground (arith, e, h))
      | inr e ↦
          let (same, clear) = unless_problem-ok ref _ _ (ground (arith, e, h)) in
          (refl, (same, rw (← same) e, rw (← same) clear))
    ]

key_of_secret-ok :
    (ref : SecretRef) (secret : Secret) {password : Text}
    → Given ref secret password
    → key_of_secret ref secret none ≡ ok password
unfolding key_of_secret
key_of_secret-ok ref secret (r, n, p) = rw (r, n, p) refl

-- What may be referenced: no Secret with pgop's label, with an owner of pgop's kinds, or named as the
-- TLS Secret of a Cluster that is listed.
abbrev pub IsUnprotected : Env → Secret → Type 0
IsUnprotected env secret =
    (is_value pgop_value (value_of secret.labels managed_by_label) ≡ false)
    × All (λ r. is_value pgop_group (env.group_of r.api_version) ≡ false) secret.owner_references
    × (clusters : List ClusterTls) × (env.list_clusters ≡ ok clusters)
    × All (λ c. is_value secret.name c.tls_secret ≡ false) clusters

owner_problem_iff :
    (group_of : Text → Option Text) (rs : List OwnerReference)
    → (owner_problem group_of rs ≡ none)
      ↔ All (λ r. is_value pgop_group (group_of r.api_version) ≡ false) rs
unfolding owner_problem
owner_problem_iff group_of [] = ((λ h. tt), λ h. refl)
owner_problem_iff group_of (r ∷ rs) = (
  (λ h. (ground (arith, h), (owner_problem_iff group_of rs).0 (ground (arith, h)))),
  λ (e, h). rw e ((owner_problem_iff group_of rs).1 h),
)

tls_problem_iff :
    (name : Text) (cs : List ClusterTls)
    → (tls_problem name cs ≡ none) ↔ All (λ c. is_value name c.tls_secret ≡ false) cs
unfolding tls_problem
tls_problem_iff name [] = ((λ h. tt), λ h. refl)
tls_problem_iff name (c ∷ cs) = (
  (λ h. (ground (arith, h), (tls_problem_iff name cs).0 (ground (arith, h)))),
  λ (e, h). rw e ((tls_problem_iff name cs).1 h),
)

protected_by_clusters-none :
    (name : Text) (answer : Result CallError (List ClusterTls))
    → protected_by_clusters name answer ≡ ok none
    → (clusters : List ClusterTls) × (answer ≡ ok clusters)
      × All (λ c. is_value name c.tls_secret ≡ false) clusters
unfolding protected_by_clusters
protected_by_clusters-none name (err e) h = absurd (ground (arith, h))
protected_by_clusters-none name (ok clusters) h =
    (clusters, refl, (tls_problem_iff name clusters).0 (cc h))

protected_unless_owned-none :
    (env : Env) (secret : Secret) (o : Option Protected)
    → protected_unless_owned env secret o ≡ ok none
    → (o ≡ none) × (protected_by_clusters secret.name env.list_clusters ≡ ok none)
unfolding protected_unless_owned
protected_unless_owned-none env secret (some p) h = absurd (ground (arith, h))
protected_unless_owned-none env secret none h = (refl, h)

protected_secret_problem_iff :
    (env : Env) (secret : Secret)
    → (protected_secret_problem env secret ≡ ok none) ↔ IsUnprotected env secret
unfolding protected_secret_problem
protected_secret_problem_iff env secret = (there, back)
  where
    there : protected_secret_problem env secret ≡ ok none → IsUnprotected env secret
    there h =
        let label : is_value pgop_value (value_of secret.labels managed_by_label) ≡ false =
          ground (arith, h) in
        let (owners, clusters) =
          protected_unless_owned-none env secret _ (ground (arith, label, h)) in
        let (cs, listed, clear) = protected_by_clusters-none secret.name _ clusters in
        (
          label,
          (owner_problem_iff env.group_of secret.owner_references).0 owners,
          cs,
          listed,
          clear,
        )

    back : IsUnprotected env secret → protected_secret_problem env secret ≡ ok none
    back (label, owners, clusters, listed, clear) =
        rw
          (
            label,
            (owner_problem_iff env.group_of secret.owner_references).1 owners,
            listed,
            (tls_problem_iff secret.name clusters).1 clear,
          )
          refl

read_answer-ok :
    (env : Env) (ref : SecretRef) (answer : Result ReadError Secret) {password : Text}
    → read_answer env ref answer ≡ ok password
    → (secret : Secret) × (answer ≡ ok secret)
      × IsUnprotected env secret
      × Given ref secret password
unfolding read_answer
read_answer-ok env ref (err not_found) h = absurd (ground (arith, h))
read_answer-ok env ref (err (other e)) h = absurd (ground (arith, h))
read_answer-ok env ref (ok secret) h =
    let (o, asked, key) = >>=-eq-ok (protected_secret_problem env secret) _ h in
    let (clear, given) = key_of_secret-Given ref secret o key in
    (secret, refl, (protected_secret_problem_iff env secret).0 (asked ∙ ap ok clear), given)

-- The reference gives a password exactly when its Secret is read, is not protected, and has at the key
-- that value, which is not empty and is usable.
pub read_password_secret_ref_iff :
    (env : Env) (ref : SecretRef) (password : Text)
    → (read_password_secret_ref env ref ≡ ok password) ↔ (
        (secret : Secret) × (env.get_secret ref.name ≡ ok secret)
        × IsUnprotected env secret
        × Given ref secret password)
unfolding read_password_secret_ref read_answer
read_password_secret_ref_iff env ref password = (
  read_answer-ok env ref (env.get_secret ref.name),
  λ (secret, got, clear, given).
      rw (got, (protected_secret_problem_iff env secret).1 clear)
        (key_of_secret-ok ref secret given),
)
