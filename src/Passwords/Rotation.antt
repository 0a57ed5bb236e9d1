-- ===== src/Passwords/Rotation.antt =====
-- When a password is rotated on schedule.
use pgop.Prelude.{
  ℕ, ◌+◌, ◌≤◌, ◌<◌, true, false, ◌||◌, ◌≡◌, ◌≢◌, refl, Option, none, some, ℤ, pos, negsuc, arith,
}
use pgop.Passwords.{
  second, min_password_rotation_interval, Role, DesiredPassword, at_least_minimum, interval_of,
  rotation_interval, due_at, scheduled_rotation_due, next_after, next_rotation_in, rotated_at_after,
  record_password,
}

at_least_minimum-bound : (every : ℤ) → min_password_rotation_interval ≤ at_least_minimum every
unfolding at_least_minimum
at_least_minimum-bound (pos d) = ground arith
at_least_minimum-bound (negsuc d) = ground arith

interval_of-some :
    (every : Option ℤ) → every ≢ none → min_password_rotation_interval ≤ interval_of every
unfolding interval_of
interval_of-some none h = absurd (h refl)
interval_of-some (some e) h = at_least_minimum-bound e

due_at-next :
    (every at now : ℕ)
    → second ≤ every
    → (second ≤ next_after every (some at) now)
      × (due_at every (some at) (now + next_after every (some at) now) ≡ true)
      × ((t : ℕ)
          → second < next_after every (some at) now
          → t < now + next_after every (some at) now
          → due_at every (some at) t ≡ false)
unfolding due_at next_after
due_at-next every at now h = (ground arith, ground arith, λ t a b. ground (arith, a, b))

-- Where rotation is scheduled and a rotation is recorded, the Role is looked at again after at least a
-- second, the rotation is due then, and it is not due before if the wait is longer than a second.
pub next_rotation_in-due :
    (role : Role) (at now : ℕ)
    → role.password_rotated_at ≡ some at
    → role.every ≢ none
    → (second ≤ next_rotation_in role now)
      × (scheduled_rotation_due role (now + next_rotation_in role now) ≡ true)
      × ((t : ℕ)
          → second < next_rotation_in role now
          → t < now + next_rotation_in role now
          → scheduled_rotation_due role t ≡ false)
unfolding next_rotation_in scheduled_rotation_due rotation_interval
next_rotation_in-due role at now h e =
    rw h
      (due_at-next (interval_of role.every) at now (ground (arith, interval_of-some role.every e)))

due_at-quiet :
    (every : Option ℤ) (at : Option ℕ) (dp : DesiredPassword) (now t : ℕ)
    → (dp.generated || dp.from_ref) ≡ true
    → t < now + min_password_rotation_interval
    → due_at (interval_of every) (rotated_at_after (interval_of every) at dp now) t ≡ false
unfolding due_at rotated_at_after interval_of
due_at-quiet none at dp now t g h = ground (arith, g, h)
due_at-quiet (some every) at dp now t g h = ground (arith, g, h, at_least_minimum-bound every)

-- Once a generated or referenced password is recorded, no rotation is due for an hour, whatever
-- interval the spec asks for.
pub record_password-quiet :
    (role : Role) (dp : DesiredPassword) (now t : ℕ)
    → (dp.generated || dp.from_ref) ≡ true
    → t < now + min_password_rotation_interval
    → scheduled_rotation_due (record_password role dp now) t ≡ false
unfolding scheduled_rotation_due record_password rotation_interval
record_password-quiet role dp now t g h =
    due_at-quiet role.every role.password_rotated_at dp now t g h
