-- ===== src/Passwords/Usable.antt =====
-- No unusable password is sent to PostgreSQL, and what a reconcile returns is what its reads call for.
use pgop.Prelude.{
  ℕ, Bool, false, ◌||◌, ◌≡◌, ◌≢◌, inl, inr, refl, sym, ◌∙◌, ap, Option, none, some, Result, ok, err,
  arith, Bool-cases,
}
use pgop.Text.{Text}
use pgop.Passwords.{SecretRef, Role, Secret, DesiredPassword}
use pgop.Passwords.Problems.{Problem, password_problem}
use pgop.Passwords.Choice.{Choice, referenced, unchanged, fresh}
use pgop.Passwords.Source.{PasswordError, Env, edited, check_edited_password}
use pgop.Passwords.Readable.{read_password_secret_ref_iff}
use pgop.Passwords.Resolve.{current_of, with_applied, checked, resolve_password}
use pgop.Passwords.Safety.{
  Reference, no_reference, reads, IsSource, resolve_password_fresh-IsSource,
}

edited-ok :
    (dp : DesiredPassword) (name : Text) (o : Option Problem) {out : DesiredPassword}
    → edited dp name o ≡ ok out
    → (dp ≡ out) × (o ≡ none)
edited-ok dp name none h = (cc h, refl)
edited-ok dp name (some problem) h = absurd (ground (arith, h))

check_edited_password-ok :
    (dp : DesiredPassword) (secret : Secret) {out : DesiredPassword}
    → check_edited_password dp (some secret) ≡ ok out
    → (dp ≡ out)
      × ((dp.generated || dp.from_ref || dp.applied) ≡ false → password_problem dp.value ≡ none)
unfolding check_edited_password
check_edited_password-ok dp secret {out} h =
    elim (Bool-cases (dp.generated || dp.from_ref || dp.applied)) [
      | inl exempt ↦
          let same : dp ≡ out = ground (arith, exempt, h) in
          (same, λ c. absurd (ground (arith, exempt, c)))
      | inr c ↦
          let (same, clear) =
            edited-ok dp secret.name (password_problem dp.value) (ground (arith, c, h)) in
          (same, λ c'. clear)
    ]

pub checked-ok :
    (secret : Option Secret) (outcome : Result PasswordError DesiredPassword)
    {out : DesiredPassword}
    → checked secret outcome ≡ ok out
    → (outcome ≡ ok out)
      × ((out.generated || out.from_ref || out.applied) ≡ false
          → secret ≢ none
          → password_problem out.value ≡ none)
unfolding checked check_edited_password
checked-ok secret (err e) h = absurd (ground (arith, h))
checked-ok none (ok dp) h = (h, λ c s. absurd (s refl))
checked-ok (some secret) (ok dp) {out} h =
    let (same, clear) = check_edited_password-ok dp secret h in
    (ap ok same, λ c s. rw (← same) (clear (rw same c)))

-- If a password is resolved, it is the one that the reference of the spec gives, or, without a
-- reference, what the Role and the Secret that are returned call for: the password of that Secret where
-- nothing is requested or due, else a generated one; and it is marked as applied by these.
pub resolve_password-IsSource :
    (env : Env) (role : Role) (existing : Option Secret) (now : ℕ) {dp : DesiredPassword}
    → (resolve_password env role existing now).outcome ≡ ok dp
    → IsSource env role.secret_ref now (resolve_password env role existing now) dp
unfolding resolve_password
resolve_password-IsSource env role existing now h =
    resolve_password_fresh-IsSource env now role existing (checked-ok _ _ h).0

-- What a source gives is usable, where the Secret's own password is.
usable_source :
    (env : Env) (role : Role) (secret : Option Secret) (now : ℕ) (ref : Option SecretRef)
    (from_ref : Bool) (password : Text) (chosen : DesiredPassword)
    → Reference env ref from_ref password
    → Choice role from_ref password (current_of secret) now chosen
    → chosen.generated ≡ false
    → (chosen.from_ref ≡ false → secret ≢ none → password_problem chosen.value ≡ none)
    → password_problem chosen.value ≡ none
usable_source env role secret now ref from_ref password chosen given (fresh p r w) g check =
    absurd (ground (arith, g))
usable_source env role none now ref from_ref password chosen given (unchanged r f p d) g check =
    absurd (ground (arith, f))
usable_source env role (some secret) now ref from_ref password chosen given (unchanged r f p d) g
      check =
    check refl (λ e. absurd (ground (arith, e)))
usable_source env role secret now ref from_ref password chosen no_reference (referenced r) g check =
    absurd (ground (arith, r))
usable_source env role secret now (some _) from_ref password chosen (reads ref _ h) (referenced r) g
      check =
    ((read_password_secret_ref_iff env ref password).0 h).3.2

usable_marked :
    (env : Env) (role : Role) (secret : Option Secret) (now : ℕ) (ref : Option SecretRef)
    (from_ref : Bool) (password : Text) (chosen dp : DesiredPassword)
    → Reference env ref from_ref password
    → Choice role from_ref password (current_of secret) now chosen
    → dp ≡ with_applied env role secret chosen
    → dp.generated ≡ false
    → (dp.from_ref ≡ false → secret ≢ none → password_problem dp.value ≡ none)
    → password_problem dp.value ≡ none
usable_marked env role secret now ref from_ref password chosen dp given c same g check =
    let value : dp.value ≡ chosen.value = ap (λ d. d.value) same in
    rw value (
      usable_source env role secret now ref from_ref password chosen given c
        (ap (λ d. d.generated) (sym same) ∙ g)
        (λ f s. rw (← value) (check (ap (λ d. d.from_ref) same ∙ f) s)))

-- A password that is neither generated here nor applied already is usable: valid UTF-8, without a NUL
-- byte, and no hash.
pub resolve_password-usable :
    (env : Env) (role : Role) (existing : Option Secret) (now : ℕ) {dp : DesiredPassword}
    → (resolve_password env role existing now).outcome ≡ ok dp
    → dp.generated ≡ false
    → dp.applied ≡ false
    → password_problem dp.value ≡ none
unfolding resolve_password
resolve_password-usable env role existing now {dp} h g a =
    let (resolved, clear) = checked-ok _ _ h in
    let (from_ref, password, chosen, given, c, same) =
      resolve_password_fresh-IsSource env now role existing resolved in
    usable_marked env _ _ now _ from_ref password chosen dp given c same g
      (λ f. clear (ground (arith, f)))
