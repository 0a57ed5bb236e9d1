-- ===== src/Memberships.antt =====
-- `diffMemberships` and `reconcileMemberships` of internal/controller/role_memberships.go. What the
-- policy says of a target (`membershipChecker.problem`) is a parameter, with one answer for a target
-- in one reconcile, as its cache gives; so are the server's version, the member's current memberships
-- and the server's answers to the statements, each any function of the statements made before.
pub mod Reconcile
pub mod Judgement
pub mod Safety
pub mod Statements
use pgop.Prelude.{
  ℕ, Bool, true, false, not, ◌&&◌, ◌||◌, List, [], ◌∷◌, ◌++◌, ◌==◌, nat_eq, Eq, ltb, contains,
  if◌then◌else◌, Option, none, some, Result, ok, err, ◌>>=◌, is_empty,
}
use pgop.Text.{Text, text_eq}
use pgop.Text.Sort.{sort, compact}
use pgop.Grants.Engine.{CallError}
use pgop.Policy.Roles.{Problem}
use pgop.Policy.Membership.Options.{RoleMembership}

-- postgres.MembershipState and postgres.MembershipOptions
pub record MembershipState : Type 0 where
  pub admin : Bool
  pub inherit : Option Bool
  pub set : Option Bool

abbrev pub Current : Type 0
Current = Text → Option MembershipState

pub record MembershipPlan : Type 0 where
  pub grant : List (Text × MembershipState)
  pub revoke_admin : List Text
  pub revoke : List Text

abbrev pub bool_differs : Bool → Bool → Bool
bool_differs true b = not b
bool_differs false b = b

unfoldable pub option_differs : Option Bool → Option Bool → Bool
option_differs none have = false
option_differs (some w) none = true
option_differs (some w) (some h) = bool_differs w h

abbrev pub exists : Current → Text → Bool
exists current r = elim (current r) [ none ↦ false | some s ↦ true ]

-- Whether a desired membership is missing or has other options.
unfoldable pub needs_grant : RoleMembership → Option MembershipState → Bool
unfolding option_differs
needs_grant d none = true
needs_grant d (some cur) =
    (d.admin && not cur.admin)
    || option_differs d.inherit cur.inherit
    || option_differs d.set cur.set

unfoldable pub needs_admin_revoke : RoleMembership → Option MembershipState → Bool
needs_admin_revoke d none = false
needs_admin_revoke d (some cur) = cur.admin && not d.admin

unfoldable pub grants_of : List RoleMembership → Current → List (Text × MembershipState)
unfolding needs_grant
grants_of [] current = []
grants_of (d ∷ ds) current =
    let rest = grants_of ds current in
    if needs_grant d (current d.role)
    then (d.role, record { admin = d.admin; inherit = d.inherit; set = d.set }) ∷ rest
    else rest

unfoldable pub admin_revokes_of : List RoleMembership → Current → List Text
unfolding needs_admin_revoke
admin_revokes_of [] current = []
admin_revokes_of (d ∷ ds) current =
    let rest = admin_revokes_of ds current in
    if needs_admin_revoke d (current d.role) then d.role ∷ rest else rest

abbrev pub roles_of : List RoleMembership → List Text
roles_of [] = []
roles_of (d ∷ ds) = d.role ∷ roles_of ds

unfoldable pub revokes_of : List RoleMembership → List Text → Current → List Text
revokes_of desired [] current = []
revokes_of desired (m ∷ ms) current =
    let rest = revokes_of desired ms current in
    if exists current m && not (contains (roles_of desired) m) then m ∷ rest else rest

unfoldable pub diff_memberships : List RoleMembership → List Text → Current → Bool → MembershipPlan
unfolding grants_of admin_revokes_of revokes_of
diff_memberships desired managed current revoke_removed = record {
  grant = grants_of desired current;
  revoke_admin = admin_revokes_of desired current;
  revoke = if revoke_removed then compact (sort (revokes_of desired managed current)) else [];
}

pub data Statement : Type 0 where
  grant_role : Text → MembershipState → Statement
  revoke_admin_option : Text → Statement
  revoke_role : Text → Statement
  failed : Statement

abbrev pub Log : Type 0
Log = List Statement

abbrev pub Checked : Type 0
Checked = Text → Result CallError (Option Problem)

-- `membershipClient`, for one member.
pub record Client : Type 0 where
  pub version : Result CallError ℕ
  pub current : Result CallError Current
  pub grant : Log → Text → MembershipState → Option CallError
  pub revoke_admin : Log → Text → Option CallError
  pub revoke : Log → Text → Option CallError

-- The requested memberships that are allowed, and the problems of the others.
abbrev pub Judged : Type 0
Judged = List RoleMembership × List (Text × Problem)

abbrev pub judge : RoleMembership → Option Problem → Judged → Judged
judge d none (desired, refused) = (d ∷ desired, refused)
judge d (some p) (desired, refused) = (desired, (d.role, p) ∷ refused)

unfoldable pub judge_all : Checked → List RoleMembership → Result CallError Judged
judge_all problem [] = ok ([], [])
judge_all problem (d ∷ ds) = do p ← problem d.role; rest ← judge_all problem ds; ok (judge d p rest)

abbrev pub also_forbidden : Text → Option Problem → List Text → List Text
also_forbidden m none ms = ms
also_forbidden m (some p) ms = m ∷ ms

-- `forbiddenManaged`
unfoldable pub forbidden_of : Checked → List Text → Result CallError (List Text)
forbidden_of problem [] = ok []
forbidden_of problem (m ∷ ms) = do
  p ← problem m
  rest ← forbidden_of problem ms
  ok (also_forbidden m p rest)

abbrev pub min_membership_options_version : ℕ
min_membership_options_version = 160000

abbrev pub sets_option : RoleMembership → Bool
sets_option d = elim d.inherit [
  | some b ↦ true
  | none ↦ elim d.set [ some b ↦ true | none ↦ false ]
]

unfoldable pub first_with_options : List RoleMembership → Option Text
first_with_options [] = none
first_with_options (d ∷ ds) =
    let rest = first_with_options ds in if sets_option d then some d.role else rest
