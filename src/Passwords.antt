-- ===== src/Passwords.antt =====
-- Passwords of roles, internal/controller/role_password.go: the password that a Role should have, when
-- it is rotated, and what the status records of it. Instants and durations are nanoseconds. The salted
-- fingerprint, SHA-256 in hexadecimal, is a parameter.
pub mod Problems
pub mod Source
pub mod Resolve
pub mod Choice
pub mod Rotation
pub mod Settled
pub mod Safety
pub mod Readable
pub mod Usable
pub mod Confirmed
use pgop.Prelude.{
  ℕ, ◌+◌, ◌-◌, ◌*◌, ◌≤◌, ◌<◌, Bool, true, false, not, ◌&&◌, ◌||◌, List, [], ◌∷◌, ◌==◌, nat_eq, ltb,
  leb, if◌then◌else◌, Option, none, some, Result, ok, err, ◌>>=◌, ℤ, pos, negsuc, is_empty,
}
use pgop.Text.{Text, text_eq, text}
use pgop.Grants.Engine.{CallError}
use pgop.Settings.{value_of}

abbrev pub second : ℕ
second = 1000000000

-- time.Hour
abbrev pub min_password_rotation_interval : ℕ
min_password_rotation_interval = 3600 * second

-- passwordSecretRef
pub record SecretRef : Type 0 where
  pub name : Text
  pub key : Text

-- What the code reads of a Role: `uid`, `name` and `resource_version` of its metadata, the annotation
-- that requests a rotation (empty without one), spec.passwordRotation.every, spec.passwordSecretRef,
-- and the password fields of the status.
pub record Role : Type 0 where
  pub uid : Text
  pub name : Text
  pub resource_version : Text
  pub rotate_annotation : Text
  pub every : Option ℤ
  pub secret_ref : Option SecretRef
  pub password_hash : Text
  pub password_rotated_at : Option ℕ
  pub password_rotation_request : Text

pub record OwnerReference : Type 0 where
  pub api_version : Text
  pub kind : Text
  pub name : Text

-- corev1.Secret; `contents` is its data.
pub record Secret : Type 0 where
  pub name : Text
  pub resource_version : Text
  pub labels : List (Text × Text)
  pub annotations : List (Text × Text)
  pub owner_references : List OwnerReference
  pub contents : List (Text × Text)

-- `desiredPassword`
pub record DesiredPassword : Type 0 where
  pub value : Text
  pub generated : Bool
  pub rotated : Bool
  pub from_ref : Bool
  pub force : Bool
  pub applied : Bool
  pub rotation_request : Text

-- `passwordFingerprint`, of the Role's UID and the password.
abbrev pub Fingerprint : Type 0
Fingerprint = Text → Text → Text

abbrev pub annotation_password_fingerprint : Text
annotation_password_fingerprint = text "pgop.ruck.io/password-fingerprint"

abbrev pub secret_key_password : Text
secret_key_password = text "password"

unfoldable pub password_matches : Fingerprint → Role → Text → Option Text → Bool
password_matches fingerprint role password (some fp) = fp == fingerprint role.uid password
password_matches fingerprint role password none =
    not (is_empty role.password_hash) && role.password_hash == fingerprint role.uid password

unfoldable pub password_applied : Fingerprint → Role → Option Secret → Text → Bool
unfolding password_matches
password_applied fingerprint role none password = false
password_applied fingerprint role (some secret) password =
    not (is_empty password)
    && password_matches fingerprint role password
        (value_of secret.annotations annotation_password_fingerprint)

-- The larger of the interval of the spec and the shortest one.
unfoldable pub at_least_minimum : ℤ → ℕ
at_least_minimum (pos d) =
    if leb min_password_rotation_interval d then d else min_password_rotation_interval
at_least_minimum (negsuc d) = min_password_rotation_interval

unfoldable pub interval_of : Option ℤ → ℕ
unfolding at_least_minimum
interval_of none = 0
interval_of (some every) = at_least_minimum every

unfoldable pub rotation_interval : Role → ℕ
unfolding interval_of
rotation_interval role = interval_of role.every

unfoldable pub pending_rotation_request : Role → Text
pending_rotation_request role =
    let req = role.rotate_annotation in
    if is_empty req || req == role.password_rotation_request then [] else req

unfoldable pub due_at : ℕ → Option ℕ → ℕ → Bool
due_at every none now = false
due_at every (some rotated_at) now = not (every == 0) && not (ltb now (rotated_at + every))

unfoldable pub scheduled_rotation_due : Role → ℕ → Bool
unfolding due_at rotation_interval
scheduled_rotation_due role now = due_at (rotation_interval role) role.password_rotated_at now

-- The difference stops at 0, which is below the second that it is raised to.
unfoldable pub next_after : ℕ → Option ℕ → ℕ → ℕ
next_after every none now = 0
next_after every (some rotated_at) now =
    let left = (rotated_at + every) - now in
    if every == 0 then 0 else if leb second left then left else second

unfoldable pub next_rotation_in : Role → ℕ → ℕ
unfolding next_after rotation_interval
next_rotation_in role now = next_after (rotation_interval role) role.password_rotated_at now

abbrev pub from_reference : Text → Text → DesiredPassword
from_reference password req = record {
  value = password;
  generated = false;
  rotated = false;
  from_ref = true;
  force = not (is_empty req);
  applied = false;
  rotation_request = req;
}

abbrev pub kept : Text → DesiredPassword
kept password = record {
  value = password;
  generated = false;
  rotated = false;
  from_ref = false;
  force = false;
  applied = false;
  rotation_request = [];
}

abbrev pub new_password : Bool → Text → Text → DesiredPassword
new_password rotated req password = record {
  value = password;
  generated = true;
  rotated = rotated;
  from_ref = false;
  force = false;
  applied = false;
  rotation_request = req;
}

-- `choosePassword`; `generated` is what generateRolePassword returns when it is called.
unfoldable pub choose_password :
    Role → Bool → Text → Text → ℕ → Result CallError Text → Result CallError DesiredPassword
unfolding pending_rotation_request scheduled_rotation_due
choose_password role from_ref ref_password current now generated =
    let req = pending_rotation_request role in
    if from_ref
    then ok (from_reference ref_password req)
    else if not (is_empty current) && is_empty req && not (scheduled_rotation_due role now)
    then ok (kept current)
    else do password ← generated; ok (new_password (not (is_empty current)) req password)

-- What `recordPassword` makes of status.passwordRotatedAt.
unfoldable pub rotated_at_after : ℕ → Option ℕ → DesiredPassword → ℕ → Option ℕ
rotated_at_after every rotated_at dp now =
    if dp.from_ref
    then none
    else if dp.generated
    then some now
    else elim rotated_at [ none ↦ if ltb 0 every then some now else none | some at ↦ some at ]

unfoldable pub record_password : Role → DesiredPassword → ℕ → Role
unfolding rotated_at_after rotation_interval
record_password role dp now = record {
  uid = role.uid;
  name = role.name;
  resource_version = role.resource_version;
  rotate_annotation = role.rotate_annotation;
  every = role.every;
  secret_ref = role.secret_ref;
  password_hash = [];
  password_rotated_at = rotated_at_after (rotation_interval role) role.password_rotated_at dp now;
  password_rotation_request =
      if is_empty dp.rotation_request then role.password_rotation_request else dp.rotation_request;
}
