-- ===== src/Tests/Policy.antt =====
-- The policy decisions on concrete inputs.
use pgop.Prelude.{
  true, false, List, [], ◌∷◌, ◌++◌, ◌≡◌, ◌≢◌, ◌↔◌, ◌⊎◌, inl, inr, refl, arith, ◌==◌, if◌then◌else◌,
  All, none, some, ok, contains, Bool-cases, eq_of_==,
}
use pgop.Text.{Text, text_eq, text}
use pgop.Text.Strings.{has_prefix}
use pgop.Grants.Target.{PrivilegeGrant}
use pgop.Policy.Roles.{
  attribute_eq, Policy, ReachableRole, ManagedRoles, manages, is_public, forbidden_predefined_roles,
}
use pgop.Policy.Ownership.{MarkerSigner, owned, owned_remark, decide_ownership}
use pgop.Policy.Ownership.Laws.{IsSigned, IsReplaceable, decide_ownership_iff}
use pgop.Policy.Membership.{
  membership_name_problem, closure_problem, reachable_role_problem, attribute_problem,
  membership_problem,
}
use pgop.Policy.Membership.Laws.{
  IsNameAllowed, IsAllowed, IsExcused, monitor_parts, membership_problem_iff,
  membership_problem_safe,
}
use pgop.Policy.Grantee.{allowed, Checker, Lookup, decide, GrantFilter, filter, cached}
use pgop.Policy.Grantee.Laws.{IsGrantee, IsFaithful, decide_iff}
use pgop.Policy.Grantee.Cache.{IsFresh, allowed_grants, filter_lem}

abbrev no_policy : Policy
no_policy = none

abbrev app : ReachableRole
app = record {
  name = text "app";
  via = [];
  comment = text "mark";
  superuser = false;
  create_role = false;
  replication = false;
  bypass_rls = false;
}

abbrev managed : ManagedRoles
managed = (text "app", text "mark") ∷ []

membership_problem_example :
    (membership_problem (text "app") (app ∷ []) no_policy managed ≡ none) ↔ (
      IsNameAllowed no_policy (text "app")
      × All
          (λ r. IsExcused no_policy (text "app") (app ∷ []) r ⊎ IsAllowed no_policy managed r)
          (app ∷ []))
membership_problem_example = membership_problem_iff no_policy managed (text "app") (app ∷ [])

app_allowed : membership_problem (text "app") (app ∷ []) no_policy managed ≡ none
unfolding membership_problem membership_name_problem pgop.Text.text_beq has_prefix contains
    closure_problem reachable_role_problem attribute_problem manages
app_allowed = refl

membership_safe_example :
    All
      (λ r.
        (contains forbidden_predefined_roles r.name ≡ false)
        × ((r.superuser ≡ false) ⊎ (contains monitor_parts r.name ≡ true)))
      (app ∷ [])
membership_safe_example =
    membership_problem_safe no_policy managed (text "app") (app ∷ []) app_allowed

abbrev key_id : Text → Text
key_id key = key

abbrev mac : Text → Text → Text
mac key message = key ++ message

abbrev signer : Text → MarkerSigner
signer key = record { key = key; namespace = text "ns"; cluster = text "db" }

decide_ownership_example :
    let o =
      decide_ownership key_id mac
        (signer (text "k"))
        (text "role")
        (text "app")
        true
        []
        true
        false in
    ((o ≡ owned) ↔ (
      (true ≡ true)
      × (true ≡ true)
      × IsSigned key_id mac (signer (text "k")) (text "role") (text "app") []))
    × ((o ≡ owned_remark) ↔ (
        (true ≡ true)
        × (true ≡ true)
        × (IsSigned key_id mac (signer (text "k")) (text "role") (text "app") [] → ⊥)
        × IsReplaceable key_id mac (signer (text "k")) (text "role") (text "app") []))
decide_ownership_example =
    decide_ownership_iff key_id mac (signer (text "k")) (text "role") (text "app") true [] true
      false

no_dot_k : All (λ c. c ≢ b'.') (key_id (text "k"))
no_dot_k = ((λ h. ground (arith, h)), tt)

no_dot_l : All (λ c. c ≢ b'.') (key_id (text "l"))
no_dot_l = ((λ h. ground (arith, h)), tt)

other_keys : key_id (text "l") ≢ key_id (text "k")
other_keys h = ground (arith, h)

-- A server with the one role.
abbrev lookup : Lookup
lookup name = if name == text "app" then ok (some app) else ok none

abbrev checker : Checker
checker = record { policy = no_policy; managed = managed; deleting = [] }

faithful : IsFaithful lookup checker
faithful name r h = elim (Bool-cases (name == text "app")) [
  | inl e ↦ let same : r ≡ app = ground (arith, e, h) in cc (same, eq_of_== name (text "app") e)
  | inr e ↦ ground (arith, e, h)
]

decide_example : (decide lookup checker (text "app") ≡ ok allowed) ↔ (
    (is_public (text "app") ≡ true)
    ⊎ ((r : ReachableRole) × IsGrantee lookup checker (text "app") r))
decide_example = decide_iff lookup checker faithful (text "app")

abbrev fresh_filter : GrantFilter
fresh_filter = record { cache = []; missing_roles = []; paused_roles = []; refused_roles = [] }

nothing_cached : IsFresh (decide lookup checker) []
unfolding cached
nothing_cached g v h = cc

abbrev grants : List PrivilegeGrant
grants =
    record {
      target = record {
        kind = text "DATABASE";
        name = text "shop";
        grantee = text "app";
        schema = [];
        for_role = [];
        oid = 0;
      };
      privileges = text "CONNECT" ∷ [];
      grant_options = [];
    }
    ∷ []

filter_example :
    (filter lookup checker fresh_filter grants).0 ≡ allowed_grants (decide lookup checker) grants
filter_example = filter_lem lookup checker fresh_filter grants nothing_cached
