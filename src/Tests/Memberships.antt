-- ===== src/Tests/Memberships.antt =====
-- Role memberships on a concrete input.
use pgop.Prelude.{true, false, [], ◌∷◌, ◌==◌, if◌then◌else◌, none, some, ok, All}
use pgop.Text.{Text, text_eq, text}
use pgop.Policy.Roles.{is_superuser}
use pgop.Policy.Membership.Options.{RoleMembership}
use pgop.Memberships.{Checked, Client}
use pgop.Memberships.Reconcile.{reconcile_memberships}
use pgop.Memberships.Statements.{IsSafe, reconcile_memberships-IsSafe}

abbrev plain : Text → RoleMembership
plain role = record { role = role; admin = false; inherit = none; set = none }

-- One role is a superuser.
abbrev problem : Checked
problem r = if r == text "root" then ok (some is_superuser) else ok none

-- The member is in every role, and each statement succeeds.
abbrev client : Client
client = record {
  version = ok 170000;
  current = ok (λ r. some (record { admin = true; inherit = none; set = none }));
  grant = λ log r o. none;
  revoke_admin = λ log r. none;
  revoke = λ log r. none;
}

reconcile_memberships_example :
    All
      (IsSafe problem
        (plain (text "app") ∷ plain (text "root") ∷ [])
        (text "old" ∷ text "root" ∷ [])
        true)
      (reconcile_memberships problem client
        (plain (text "app") ∷ plain (text "root") ∷ [])
        (text "old" ∷ text "root" ∷ [])
        true
        []).log
reconcile_memberships_example =
    reconcile_memberships-IsSafe problem (plain (text "app") ∷ plain (text "root") ∷ [])
      (text "old" ∷ text "root" ∷ []) true client
