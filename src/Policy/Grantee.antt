-- ===== src/Policy/Grantee.antt =====
-- The grantee policy, internal/controller/grantee_policy.go. `LookupRole` of the PostgreSQL client
-- is a parameter: what the database says of a role, for one reconcile.
pub mod Laws
pub mod Cache
pub mod Kept
use pgop.Prelude.{
  ℕ, Bool, true, false, not, ◌&&◌, ◌||◌, List, [], ◌∷◌, ◌++◌, Eq, ◌==◌, if◌then◌else◌, contains,
  Option, none, some, Result, ok, err, ◌>>=◌,
}
use pgop.Text.{Text, text_eq, text}
use pgop.Text.Strings.{has_prefix, equal_fold}
use pgop.Grants.Target.{PrivilegeGrant}
use pgop.Grants.Engine.{CallError}
use pgop.Policy.Roles.{
  Policy, ReachableRole, ManagedRoles, Problem, reserved_bootstrap, reserved_for_operator,
  predefined_role, reserved_name, is_superuser, not_managed, bootstrap_role_name,
  reserved_role_prefix, predefined_prefix, allows_existing_role, manages, marker_of, is_public,
}
use pgop.Policy.Membership.{or_else}

-- `granteeVerdict` with the problem of a refusal; `is_public_role` says "is PUBLIC, not a role".
pub data Verdict : Type 0 where
  allowed missing paused is_public_role : Verdict
  refused : Problem → Verdict

unfoldable pub grantee_name_problem : Text → Option Problem
grantee_name_problem name =
    if is_public name
    then none
    else if name == bootstrap_role_name
    then some reserved_bootstrap
    else if has_prefix name reserved_role_prefix
    then some reserved_for_operator
    else if has_prefix name predefined_prefix
    then some predefined_role
    else if equal_fold name (text "none")
    then some reserved_name
    else none

unfoldable pub grantee_problem : ReachableRole → Policy → ManagedRoles → Option Problem
grantee_problem r policy managed = or_else (grantee_name_problem r.name) (
    if r.superuser
    then some is_superuser
    else if manages managed r || allows_existing_role policy r.name
    then none
    else some not_managed)

pub record Checker : Type 0 where
  pub policy : Policy
  pub managed : ManagedRoles
  pub deleting : List Text

abbrev pub Lookup : Type 0
Lookup = Text → Result CallError (Option ReachableRole)

abbrev verdict_of : Option Problem → Verdict
verdict_of none = allowed
verdict_of (some p) = refused p

unfoldable pub decide_existing : Checker → Option ReachableRole → Verdict
decide_existing c none = missing
decide_existing c (some r) = verdict_of (grantee_problem r c.policy c.managed)

-- What is decided once the name alone does not rule the grantee out.
unfoldable pub decide_named : Lookup → Checker → Text → Option Problem → Result CallError Verdict
unfolding decide_existing
decide_named lookup c grantee (some p) = ok (refused p)
decide_named lookup c grantee none =
    if contains c.deleting grantee
    then ok paused
    else do r ← lookup grantee; ok (decide_existing c r)

unfoldable pub decide : Lookup → Checker → Text → Result CallError Verdict
unfolding decide_named
decide lookup c grantee =
    if is_public grantee
    then ok allowed
    else decide_named lookup c grantee (grantee_name_problem grantee)

-- The switch on the role of default privileges: `allowedExistingRoles` does not count.
unfoldable pub decide_for_existing : Checker → Option ReachableRole → Verdict
decide_for_existing c none = missing
decide_for_existing c (some r) =
    if r.superuser
    then refused is_superuser
    else if not (manages c.managed r)
    then refused not_managed
    else allowed

unfoldable pub decide_for_named :
    Lookup → Checker → Text → Option Problem → Result CallError Verdict
unfolding decide_for_existing
decide_for_named lookup c name (some p) = ok (refused p)
decide_for_named lookup c name none =
    if contains c.deleting name then ok paused else do r ← lookup name; ok (decide_for_existing c r)

unfoldable pub decide_for_role : Lookup → Checker → Text → Result CallError Verdict
unfolding decide_for_named
decide_for_role lookup c name =
    if is_public name
    then ok is_public_role
    else decide_for_named lookup c name (grantee_name_problem name)

-- The verdicts of one reconcile.
abbrev pub Cache : Type 0
Cache = List (Text × Verdict)

unfoldable pub cached : Cache → Text → Option Verdict
cached [] grantee = none
cached ((g, v) ∷ cache) grantee = if g == grantee then some v else cached cache grantee

abbrev pub remember : Cache → Text → Result CallError Verdict → Result CallError Verdict × Cache
remember cache grantee (ok v) = (ok v, (grantee, v) ∷ cache)
remember cache grantee (err e) = (err e, cache)

-- `check` and `checkForRole`, which differ in the decision.
unfoldable pub check_with :
    (Text → Result CallError Verdict) → Cache → Text → Result CallError Verdict × Cache
check_with decision cache grantee = elim (cached cache grantee) [
  | some v ↦ (ok v, cache)
  | none ↦ remember cache grantee (decision grantee)
]

abbrev pub check : Lookup → Checker → Cache → Text → Result CallError Verdict × Cache
check lookup c = check_with (decide lookup c)

abbrev pub check_for_role : Lookup → Checker → Cache → Text → Result CallError Verdict × Cache
check_for_role lookup c = check_with (decide_for_role lookup c)

-- `grantFilter`, with the cache of its checker: the grantees held back, by reason.
pub record GrantFilter : Type 0 where
  pub cache : Cache
  pub missing_roles : List Text
  pub paused_roles : List Text
  pub refused_roles : List (Text × Problem)

-- The switch on a verdict. `check` never answers `is_public_role`.
abbrev pub hold_back : GrantFilter → Text → Verdict → GrantFilter
hold_back f grantee allowed = f
hold_back f grantee missing = record f { missing_roles = f.missing_roles ++ grantee ∷ [] }
hold_back f grantee paused = record f { paused_roles = f.paused_roles ++ grantee ∷ [] }
hold_back f grantee is_public_role = f
hold_back f grantee (refused p) = record f { refused_roles = f.refused_roles ++ (grantee, p) ∷ [] }

abbrev pub is_allowed : Verdict → Bool
is_allowed allowed = true
is_allowed _ = false

abbrev pub keep_grant :
    Verdict
    → PrivilegeGrant
    → Result CallError (List PrivilegeGrant)
    → Result CallError (List PrivilegeGrant)
keep_grant v g (ok gs) = ok (if is_allowed v then g ∷ gs else gs)
keep_grant v g (err e) = err e

-- What the loop of `filter` does with the answer for one grant; `later` is the rest of the loop.
unfoldable pub filter_one :
    (GrantFilter → Result CallError (List PrivilegeGrant) × GrantFilter)
    → GrantFilter
    → PrivilegeGrant
    → Result CallError Verdict × Cache
    → Result CallError (List PrivilegeGrant) × GrantFilter
filter_one later f g (ok v, cache) =
    let (rest, f') = later (hold_back (record f { cache = cache }) g.target.grantee v) in
    (keep_grant v g rest, f')
filter_one later f g (err e, cache) = (err e, record f { cache = cache })

unfoldable pub filter :
    Lookup
    → Checker
    → GrantFilter
    → List PrivilegeGrant
    → Result CallError (List PrivilegeGrant) × GrantFilter
unfolding filter_one
filter lookup c f [] = (ok [], f)
filter lookup c f (g ∷ gs) =
    filter_one (λ f'. filter lookup c f' gs) f g (check lookup c f.cache g.target.grantee)
