-- ===== src/Passwords/Safety.antt =====
-- Which password a reconcile sends to PostgreSQL.
use pgop.Prelude.{
  ℕ, ◌+◌, Bool, true, false, not, ◌||◌, ◌==◌, [], ◌≡◌, refl, sym, ◌∙◌, Option, none, some, Result,
  ok, err, arith, if_both,
}
use pgop.Text.{Text, text_eq}
use pgop.Grants.Engine.{CallError}
use pgop.Passwords.{SecretRef, Role, Secret, DesiredPassword, choose_password}
use pgop.Passwords.Choice.{Choice, choose_password-Choice}
use pgop.Passwords.Source.{
  ReadError, not_found, other, PasswordError, ApiReader, Env, read_password_secret_ref,
}
use pgop.Passwords.Resolve.{
  Chosen, Resolved, current_of, password_or_error, confirm_rotation, confirm_with,
  choose_password_fresh, with_applied, decided, decide_password, confirm_secret, confirm_current,
  resolve_decided, resolve_from, referenced as reference_of, resolve_password_fresh,
}

module _ (env : Env) (from_ref : Bool) (ref_password : Text) (now : ℕ) where
  abbrev IsChoice : Text → Chosen → Type 0
  IsChoice current (role, err e) = Unit
  IsChoice current (role, ok dp) = Choice role from_ref ref_password current now dp

  chosen-IsChoice :
      (role : Role) (current : Text) (k : ℕ) (answer : Result CallError DesiredPassword)
      → choose_password role from_ref ref_password current now (env.generate k) ≡ answer
      → IsChoice current (role, password_or_error answer)
  chosen-IsChoice role current k (err e) h = tt
  chosen-IsChoice role current k (ok dp) h =
      choose_password-Choice role ref_password current now from_ref (env.generate k) h

  confirm_rotation-IsChoice :
      (role : Role) (current : Text) (dp : DesiredPassword) (k : ℕ) (answer : Result ReadError Role)
      → Choice role from_ref ref_password current now dp
      → IsChoice current
          (confirm_rotation env from_ref ref_password now role current dp (env.generate k) answer)
  unfolding confirm_rotation
  confirm_rotation-IsChoice role current dp k (err e) h = tt
  confirm_rotation-IsChoice role current dp k (ok latest) h =
      if_both (IsChoice current) (latest.resource_version == role.resource_version) h
        (chosen-IsChoice latest current k _ refl)

  confirm_with-IsChoice :
      (role : Role) (current : Text) (k : ℕ) (answer : Result CallError DesiredPassword)
      (reader : Option ApiReader)
      → choose_password role from_ref ref_password current now (env.generate k) ≡ answer
      → IsChoice current (confirm_with env from_ref ref_password now role current k answer reader)
  unfolding confirm_with
  confirm_with-IsChoice role current k (err e) reader h = tt
  confirm_with-IsChoice role current k (ok dp) none h = chosen-IsChoice role current k _ h
  confirm_with-IsChoice role current k (ok dp) (some reader) h =
      let chosen : Choice role from_ref ref_password current now dp =
        chosen-IsChoice role current k _ h in
      if_both (IsChoice current) (not dp.rotated) chosen
        (confirm_rotation-IsChoice role current dp (k + 1) (reader.role k) chosen)

  -- The password is a choice by the Role and the Secret, marked as applied by the same.
  abbrev IsDecided : Option Secret → Chosen → Type 0
  IsDecided existing (role, err e) = Unit
  IsDecided existing (role, ok dp) =
      (chosen : DesiredPassword) × Choice role from_ref ref_password (current_of existing) now
        chosen
      × (dp ≡ with_applied env role existing chosen)

  decided-IsDecided :
      (existing : Option Secret) (c : Chosen)
      → IsChoice (current_of existing) c
      → IsDecided existing (decided env from_ref ref_password now existing c)
  decided-IsDecided existing (role, err e) h = tt
  decided-IsDecided existing (role, ok dp) h = (dp, h, refl)

  decide_password-IsDecided :
      (role : Role) (existing : Option Secret) (k : ℕ)
      → IsDecided existing (decide_password env from_ref ref_password now role existing k)
  unfolding decide_password choose_password_fresh
  decide_password-IsDecided role existing k =
      decided-IsDecided existing _
        (confirm_with-IsChoice role (current_of existing) k _ env.api_reader refl)

  abbrev IsResolved : Resolved → Type 0
  IsResolved r = IsDecided r.secret (r.role, r.outcome)

  confirm_secret-IsResolved :
      (role : Role) (dp : DesiredPassword) (existing : Secret) (answer : Result ReadError Secret)
      → IsDecided (some existing) (role, ok dp)
      → IsResolved (confirm_secret env from_ref ref_password now role dp existing answer)
  unfolding confirm_secret
  confirm_secret-IsResolved role dp existing (err not_found) h =
      decide_password-IsDecided role none 2
  confirm_secret-IsResolved role dp existing (err (other e)) h = tt
  confirm_secret-IsResolved role dp existing (ok latest) h =
      if_both IsResolved (latest.resource_version == existing.resource_version) h
        (decide_password-IsDecided role (some latest) 2)

  confirm_current-IsResolved :
      (role : Role) (dp : DesiredPassword) (existing : Option Secret) (reader : Option ApiReader)
      → IsDecided existing (role, ok dp)
      → IsResolved (confirm_current env from_ref ref_password now role dp existing reader)
  unfolding confirm_current
  confirm_current-IsResolved role dp none reader h = h
  confirm_current-IsResolved role dp (some existing) none h = h
  confirm_current-IsResolved role dp (some existing) (some reader) h =
      confirm_secret-IsResolved role dp existing reader.secret h

  resolve_decided-IsResolved :
      (existing : Option Secret) (c : Chosen)
      → IsDecided existing c
      → IsResolved (resolve_decided env from_ref ref_password now existing c)
  unfolding resolve_decided
  resolve_decided-IsResolved existing (role, err e) h = tt
  resolve_decided-IsResolved existing (role, ok dp) h =
      if_both IsResolved (dp.applied || dp.generated) h
        (confirm_current-IsResolved role dp existing env.api_reader h)

-- What spec.passwordSecretRef gives.
pub data Reference (env : Env) : Option SecretRef → Bool → Text → Type 0 where
  no_reference : Reference env none false []
  reads :
      (ref : SecretRef) (password : Text)
      → read_password_secret_ref env ref ≡ ok password
      → Reference env (some ref) true password

-- The password is the referenced one, or what the Role and the Secret that are returned call for,
-- marked as applied by these.
abbrev pub IsSource : Env → Option SecretRef → ℕ → Resolved → DesiredPassword → Type 0
IsSource env ref now r dp =
    (from_ref : Bool) × (password : Text) × (chosen : DesiredPassword) × Reference env ref from_ref
      password
    × Choice r.role from_ref password (current_of r.secret) now chosen
    × (dp ≡ with_applied env r.role r.secret chosen)

reference_of-Reference :
    (env : Env) (ref : Option SecretRef) (password : Text)
    → (reference_of env ref).1 ≡ ok password
    → Reference env ref (reference_of env ref).0 password
unfolding reference_of
reference_of-Reference env none password h =
    let empty : [] ≡ password = cc h in rw (← empty) no_reference
reference_of-Reference env (some ref) password h = reads ref password h

module _ (env : Env) (now : ℕ) where
  resolved-IsSource :
      (ref : Option SecretRef) (from_ref : Bool) (password : Text) (role : Role)
      (secret : Option Secret) (outcome : Result PasswordError DesiredPassword)
      {dp : DesiredPassword}
      → Reference env ref from_ref password
      → IsDecided env from_ref password now secret (role, outcome)
      → outcome ≡ ok dp
      → IsSource env ref now (record { role = role; secret = secret; outcome = outcome }) dp
  resolved-IsSource ref from_ref password role secret (err e) given h eq =
      absurd (ground (arith, eq))
  resolved-IsSource ref from_ref password role secret (ok dp') {dp} given (chosen, c, same) eq =
      let equal : dp' ≡ dp = cc eq in (from_ref, password, chosen, given, c, sym equal ∙ same)

  resolve_from-IsSource :
      (ref : Option SecretRef) (from_ref : Bool) (answer : Result PasswordError Text) (role : Role)
      (existing : Option Secret) {dp : DesiredPassword}
      → ((password : Text) → answer ≡ ok password → Reference env ref from_ref password)
      → (resolve_from env role existing now from_ref answer).outcome ≡ ok dp
      → IsSource env ref now (resolve_from env role existing now from_ref answer) dp
  unfolding resolve_from
  resolve_from-IsSource ref from_ref (err e) role existing given h = absurd (ground (arith, h))
  resolve_from-IsSource ref from_ref (ok password) role existing given h =
      resolved-IsSource ref from_ref password _ _ _ (given password refl)
        (resolve_decided-IsResolved env from_ref password now existing _
          (decide_password-IsDecided env from_ref password now role existing 0))
        h

  pub resolve_password_fresh-IsSource :
      (role : Role) (existing : Option Secret) {dp : DesiredPassword}
      → (resolve_password_fresh env role existing now).outcome ≡ ok dp
      → IsSource env role.secret_ref now (resolve_password_fresh env role existing now) dp
  unfolding resolve_password_fresh
  resolve_password_fresh-IsSource role existing h =
      resolve_from-IsSource role.secret_ref (reference_of env role.secret_ref).0 _ role existing
        (reference_of-Reference env role.secret_ref) h
