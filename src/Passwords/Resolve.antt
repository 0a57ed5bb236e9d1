-- ===== src/Passwords/Resolve.antt =====
-- The password of a reconcile: `resolvePassword`, `resolvePasswordFresh`, `decidePassword` and
-- `choosePasswordFresh` of internal/controller/role_password.go. What the cache, the API server and the
-- random source answer are parameters.
use pgop.Prelude.{
  ℕ, ◌+◌, Bool, true, false, not, ◌&&◌, ◌||◌, ◌==◌, nat_eq, [], if◌then◌else◌, Option, none, some,
  Result, ok, err,
}
use pgop.Text.{Text, text_eq}
use pgop.Grants.Engine.{CallError}
use pgop.Settings.{value_of}
use pgop.Passwords.{
  SecretRef, Role, Secret, DesiredPassword, secret_key_password, password_applied, choose_password,
}
use pgop.Passwords.Source.{
  ReadError, not_found, other, PasswordError, api_error, reread_failed, ApiReader, Env, or_empty,
  read_password_secret_ref, check_edited_password,
}

-- The Role, which a fresh read replaces, and the password or the error.
abbrev pub Chosen : Type 0
Chosen = Role × Result PasswordError DesiredPassword

abbrev pub password_or_error :
    Result CallError DesiredPassword → Result PasswordError DesiredPassword
password_or_error (ok dp) = ok dp
password_or_error (err e) = err (api_error e)

-- What `resolvePassword` returns, with the Role as it is then.
pub record Resolved : Type 0 where
  pub role : Role
  pub secret : Option Secret
  pub outcome : Result PasswordError DesiredPassword

-- The password of the Secret, or the empty text.
abbrev pub current_of : Option Secret → Text
current_of none = []
current_of (some secret) = or_empty (value_of secret.contents secret_key_password)

abbrev pub with_applied : Env → Role → Option Secret → DesiredPassword → DesiredPassword
with_applied env role existing dp = record {
  value = dp.value;
  generated = dp.generated;
  rotated = dp.rotated;
  from_ref = dp.from_ref;
  force = dp.force;
  applied = not dp.generated && password_applied env.fingerprint role existing dp.value;
  rotation_request = dp.rotation_request;
}

abbrev pub resolved_with : Option Secret → Chosen → Resolved
resolved_with secret (role, outcome) = record { role = role; secret = secret; outcome = outcome }

module _ (env : Env) (from_ref : Bool) (ref_password : Text) (now : ℕ) where
  unfoldable pub confirm_rotation :
      Role → Text → DesiredPassword → Result CallError Text → Result ReadError Role → Chosen
  unfolding choose_password
  confirm_rotation role current dp again (err e) = (role, err (reread_failed e))
  confirm_rotation role current dp again (ok fresh) =
      if fresh.resource_version == role.resource_version then (role, ok dp) else (
        fresh,
        password_or_error (choose_password fresh from_ref ref_password current now again),
      )

  unfoldable pub confirm_with :
      Role → Text → ℕ → Result CallError DesiredPassword → Option ApiReader → Chosen
  unfolding confirm_rotation
  confirm_with role current k (err e) reader = (role, err (api_error e))
  confirm_with role current k (ok dp) none = (role, ok dp)
  confirm_with role current k (ok dp) (some reader) =
      if not dp.rotated
      then (role, ok dp)
      else confirm_rotation role current dp (env.generate (k + 1)) (reader.role k)

  -- `choosePasswordFresh`; `k` numbers its generated passwords and its reads.
  unfoldable pub choose_password_fresh : Role → Option Secret → ℕ → Chosen
  unfolding confirm_with
  choose_password_fresh role existing k =
      let current = current_of existing in
      confirm_with role current k
        (choose_password role from_ref ref_password current now (env.generate k)) env.api_reader

  abbrev pub decided : Option Secret → Chosen → Chosen
  decided existing (role, err e) = (role, err e)
  decided existing (role, ok dp) = (role, ok (with_applied env role existing dp))

  -- `decidePassword`
  unfoldable pub decide_password : Role → Option Secret → ℕ → Chosen
  unfolding choose_password_fresh password_applied
  decide_password role existing k = decided existing (choose_password_fresh role existing k)

  -- What follows the fresh read of the credentials Secret.
  unfoldable pub confirm_secret :
      Role → DesiredPassword → Secret → Result ReadError Secret → Resolved
  unfolding decide_password
  confirm_secret role dp existing (err not_found) = resolved_with none (decide_password role none 2)
  confirm_secret role dp existing (err (other e)) =
      resolved_with (some existing) (role, err (reread_failed (other e)))
  confirm_secret role dp existing (ok fresh) =
      if fresh.resource_version == existing.resource_version
      then resolved_with (some existing) (role, ok dp)
      else resolved_with (some fresh) (decide_password role (some fresh) 2)

  unfoldable pub confirm_current :
      Role → DesiredPassword → Option Secret → Option ApiReader → Resolved
  unfolding confirm_secret
  confirm_current role dp none reader = resolved_with none (role, ok dp)
  confirm_current role dp (some existing) none = resolved_with (some existing) (role, ok dp)
  confirm_current role dp (some existing) (some reader) =
      confirm_secret role dp existing reader.secret

  unfoldable pub resolve_decided : Option Secret → Chosen → Resolved
  unfolding confirm_current
  resolve_decided existing (role, err e) = resolved_with existing (role, err e)
  resolve_decided existing (role, ok dp) =
      if dp.applied || dp.generated
      then resolved_with existing (role, ok dp)
      else confirm_current role dp existing env.api_reader

unfoldable pub resolve_from :
    Env → Role → Option Secret → ℕ → Bool → Result PasswordError Text → Resolved
unfolding resolve_decided
resolve_from env role existing now from_ref (err e) = resolved_with existing (role, err e)
resolve_from env role existing now from_ref (ok ref_password) =
    resolve_decided env from_ref ref_password now existing
      (decide_password env from_ref ref_password now role existing 0)

unfoldable pub referenced : Env → Option SecretRef → Bool × Result PasswordError Text
unfolding read_password_secret_ref
referenced env none = (false, ok [])
referenced env (some ref) = (true, read_password_secret_ref env ref)

-- `resolvePasswordFresh`
unfoldable pub resolve_password_fresh : Env → Role → Option Secret → ℕ → Resolved
unfolding resolve_from referenced
resolve_password_fresh env role existing now =
    let (from_ref, password) = referenced env role.secret_ref in
    resolve_from env role existing now from_ref password

unfoldable pub checked :
    Option Secret → Result PasswordError DesiredPassword → Result PasswordError DesiredPassword
unfolding check_edited_password
checked secret (err e) = err e
checked secret (ok dp) = check_edited_password dp secret

-- `resolvePassword`
unfoldable pub resolve_password : Env → Role → Option Secret → ℕ → Resolved
unfolding resolve_password_fresh checked
resolve_password env role existing now =
    let r = resolve_password_fresh env role existing now in
    record { role = r.role; secret = r.secret; outcome = checked r.secret r.outcome }
