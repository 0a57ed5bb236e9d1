-- ===== src/Passwords/Settled.antt =====
-- A password is chosen once: what was chosen and recorded is kept by the next reconcile.
use pgop.Prelude.{
  ℕ, Bool, true, false, not, ◌||◌, ==-refl, [], ◌≡◌, refl, sym, Option, none, some, Result, ok,
  is_empty, if◌then◌else◌, arith,
}
use pgop.Text.{Text, text_eq}
use pgop.Grants.Engine.{CallError}
use pgop.Passwords.{
  Role, DesiredPassword, from_reference, kept, rotation_interval, pending_rotation_request, due_at,
  scheduled_rotation_due, choose_password, rotated_at_after, record_password,
}
use pgop.Passwords.Choice.{Choice, referenced, unchanged, fresh, choose_password-Choice}

-- The request of the annotation is recorded with the password.
pending-recorded :
    (role : Role) (dp : DesiredPassword) (now : ℕ)
    → dp.rotation_request ≡ pending_rotation_request role
    → pending_rotation_request (record_password role dp now) ≡ []
unfolding pending_rotation_request record_password
pending-recorded role dp now h = ground (arith, h, ==-refl role.rotate_annotation)

due_at-recorded :
    (every : ℕ) (at : Option ℕ) (dp : DesiredPassword) (now : ℕ)
    → (dp.generated || dp.from_ref || not (due_at every at now)) ≡ true
    → due_at every (rotated_at_after every at dp now) now ≡ false
unfolding due_at rotated_at_after
due_at-recorded every none dp now h = ground (arith, h)
due_at-recorded every (some at) dp now h = ground (arith, h)

-- The password that a second choice makes.
abbrev pub settled : Bool → Text → DesiredPassword
settled from_ref password = if from_ref then from_reference password [] else kept password

due-recorded :
    (role : Role) (dp : DesiredPassword) (now : ℕ)
    → (dp.generated || dp.from_ref || not (scheduled_rotation_due role now)) ≡ true
    → scheduled_rotation_due (record_password role dp now) now ≡ false
unfolding scheduled_rotation_due record_password
due-recorded role dp now h =
    due_at-recorded (rotation_interval role) role.password_rotated_at dp now (ground (arith, h))

choose-recorded :
    (role : Role) (from_ref : Bool) (ref_password current : Text) (now : ℕ)
    (again : Result CallError Text) (dp : DesiredPassword)
    → Choice role from_ref ref_password current now dp
    → is_empty dp.value ≡ false
    → choose_password (record_password role dp now) from_ref ref_password dp.value now again
      ≡ ok (settled from_ref dp.value)
unfolding choose_password
choose-recorded role from_ref ref_password current now again dp (referenced r) v =
    ground (arith, r, pending-recorded role dp now refl)
choose-recorded role from_ref ref_password current now again dp (unchanged r f p d) v = ground (
  arith,
  r,
  v,
  pending-recorded role dp now (sym p),
  due-recorded role dp now (ground (arith, d)),
)
choose-recorded role from_ref ref_password current now again dp (fresh password r w) v =
    ground (arith, r, v, pending-recorded role dp now refl, due-recorded role dp now (ground arith))

-- Once a password that is not empty is chosen and recorded, the same choice at that time, with the
-- password in the Secret, keeps it: nothing is generated, rotated, forced or requested again.
pub choose_password-settled :
    (role : Role) (from_ref : Bool) (ref_password current : Text) (now : ℕ)
    (generated again : Result CallError Text) {dp : DesiredPassword}
    → choose_password role from_ref ref_password current now generated ≡ ok dp
    → is_empty dp.value ≡ false
    → choose_password (record_password role dp now) from_ref ref_password dp.value now again
      ≡ ok (settled from_ref dp.value)
choose_password-settled role from_ref ref_password current now generated again {dp} h v =
    choose-recorded role from_ref ref_password current now again dp
      (choose_password-Choice role ref_password current now from_ref generated h) v
