-- ===== src/Tests/Passwords.antt =====
-- Passwords of roles on concrete inputs.
use pgop.Prelude.{
  ℕ, ◌+◌, ◌*◌, ◌≤◌, ◌<◌, true, false, [], ◌∷◌, ◌++◌, ◌≡◌, refl, arith, none, some, ok, pos,
  contains,
}
use pgop.Text.{Text, text}
use pgop.Text.Strings.{has_prefix}
use pgop.Settings.{value_of}
use pgop.Passwords.{
  second, min_password_rotation_interval, SecretRef, Role, Secret, DesiredPassword, kept,
  secret_key_password, next_rotation_in, scheduled_rotation_due, choose_password, record_password,
}
use pgop.Passwords.Problems.{password_problem}
use pgop.Passwords.Source.{ApiReader, Env}
use pgop.Passwords.Resolve.{resolve_password}
use pgop.Passwords.Rotation.{next_rotation_in-due, record_password-quiet}
use pgop.Passwords.Settled.{settled, choose_password-settled}
use pgop.Passwords.Usable.{resolve_password-usable}

-- A Role with a rotation every two hours, last rotated at the time 5.
abbrev role : Role
role = record {
  uid = text "u";
  name = text "app";
  resource_version = text "1";
  rotate_annotation = [];
  every = some (pos (2 * min_password_rotation_interval));
  secret_ref = none;
  password_hash = [];
  password_rotated_at = some 5;
  password_rotation_request = [];
}

-- Someone asks for a rotation.
abbrev requested : Role
requested = record role { rotate_annotation = text "now" }

abbrev secret : Text → Text → Secret
secret version password = record {
  name = text "app-credentials";
  resource_version = version;
  labels = [];
  annotations = [];
  owner_references = [];
  contents = (secret_key_password, password) ∷ [];
}

-- The cache has the first version of the Secret, the API server the second.
abbrev reader : ApiReader
reader = record { role = λ k. ok role; secret = ok (secret (text "2") (text "new")) }

abbrev env : Env
env = record {
  fingerprint = λ uid password. uid ++ password;
  get_secret = λ name. ok (secret (text "1") (text "given"));
  list_clusters = ok [];
  group_of = λ version. none;
  api_reader = some reader;
  generate = λ k. ok (text "generated");
}

abbrev ref : SecretRef
ref = record { name = text "shared"; key = secret_key_password }

abbrev generated : DesiredPassword
generated = record (kept (text "generated")) {
  generated = true;
  rotated = true;
  rotation_request = text "now";
}

was_generated :
    choose_password requested false [] (text "old") 10 (ok (text "generated")) ≡ ok generated
unfolding choose_password pgop.Text.text_beq
was_generated = refl

was_resolved :
    (resolve_password env role (some (secret (text "1") (text "old"))) 10).outcome
    ≡ ok (kept (text "new"))
unfolding resolve_password contains has_prefix choose_password value_of pgop.Text.text_beq
was_resolved = refl

next_rotation_in-due_example :
    (second ≤ next_rotation_in role 10)
    × (scheduled_rotation_due role (10 + next_rotation_in role 10) ≡ true)
    × ((t : ℕ)
        → second < next_rotation_in role 10
        → t < 10 + next_rotation_in role 10
        → scheduled_rotation_due role t ≡ false)
next_rotation_in-due_example = next_rotation_in-due role 5 10 refl (λ e. absurd (ground (arith, e)))

record_password-quiet_example :
    scheduled_rotation_due (record_password requested generated 10) 11 ≡ false
record_password-quiet_example = record_password-quiet requested generated 10 11 refl (omega arith)

choose_password-settled_example :
    choose_password
      (record_password requested generated 10)
      false
      []
      (text "generated")
      10
      (ok (text "other"))
    ≡ ok (settled false (text "generated"))
choose_password-settled_example =
    choose_password-settled requested false [] (text "old") 10 (ok (text "generated"))
      (ok (text "other")) was_generated refl

resolve_password-usable_example : password_problem (text "new") ≡ none
resolve_password-usable_example =
    resolve_password-usable env role (some (secret (text "1") (text "old"))) 10 was_resolved refl
      refl
