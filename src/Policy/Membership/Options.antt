-- ===== src/Policy/Membership/Options.antt =====
-- `deniedAttributes` and `desiredRoleOptions` of internal/controller/role_policy.go, with the methods
-- of `RoleSpec` of api/v1alpha1/role_types.go.
use pgop.Prelude.{
  Bool, true, false, not, ◌&&◌, ◌||◌, List, [], ◌∷◌, ◌++◌, ◌≡◌, refl, arith, if◌then◌else◌,
  contains, Option, none, some, is_empty, ℤ, negsuc, Bool-cases, inl, inr, ap, contains-head,
  contains-append,
}
use pgop.Text.{Text, text_eq}
use pgop.Policy.Roles.{
  RoleAttribute, create_role, replication, bypass_rls, attribute_beq, attribute_eq, Policy,
  allows_attribute,
}

pub record RoleMembership : Type 0 where
  pub role : Text
  pub admin : Bool
  pub inherit : Option Bool
  pub set : Option Bool

pub record RoleSpec : Type 0 where
  pub login : Option Bool
  pub create_db : Bool
  pub create_role : Bool
  pub inherit : Option Bool
  pub replication : Bool
  pub bypass_rls : Bool
  pub connection_limit : Option ℤ
  pub revoke_removed_memberships : Option Bool
  pub memberships : List RoleMembership
  pub member_of : List Text

-- A pointer to a Boolean whose default is true.
abbrev pub or_true : Option Bool → Bool
or_true none = true
or_true (some b) = b

unfoldable pub is_login : RoleSpec → Bool
is_login s = or_true s.login

unfoldable pub is_inherit : RoleSpec → Bool
is_inherit s = or_true s.inherit

abbrev or_unlimited : Option ℤ → ℤ
or_unlimited none = negsuc 0
or_unlimited (some n) = n

unfoldable pub get_connection_limit : RoleSpec → ℤ
get_connection_limit s = or_unlimited s.connection_limit

unfoldable pub should_revoke_removed_memberships : RoleSpec → Bool
should_revoke_removed_memberships s = or_true s.revoke_removed_memberships

-- The first membership of each role that was not seen before.
unfoldable pub first_memberships : List Text → List RoleMembership → List RoleMembership
first_memberships seen [] = []
first_memberships seen (m ∷ ms) =
    let skip = first_memberships seen ms in
    let take_it = m ∷ first_memberships (m.role ∷ seen) ms in
    if contains seen m.role then skip else take_it

abbrev pub plain_membership : Text → RoleMembership
plain_membership r = record { role = r; admin = false; inherit = none; set = none }

abbrev plain_memberships : List Text → List RoleMembership
plain_memberships [] = []
plain_memberships (r ∷ rs) = plain_membership r ∷ plain_memberships rs

unfoldable pub desired_memberships : RoleSpec → List RoleMembership
unfolding first_memberships
desired_memberships s = first_memberships [] (s.memberships ++ plain_memberships s.member_of)

-- postgres.RoleOptions, without the password.
pub record RoleOptions : Type 0 where
  pub login : Bool
  pub create_db : Bool
  pub create_role : Bool
  pub inherit : Bool
  pub replication : Bool
  pub bypass_rls : Bool
  pub connection_limit : ℤ

abbrev requested : Bool → RoleAttribute → Policy → List RoleAttribute
requested wanted a policy = if wanted && not (allows_attribute policy a) then a ∷ [] else []

unfoldable pub denied_attributes : RoleSpec → Policy → List RoleAttribute
denied_attributes spec policy =
    requested spec.create_role create_role policy
    ++ (requested spec.replication replication policy
        ++ requested spec.bypass_rls bypass_rls policy)

-- The options, and the attributes that are refused, if any.
unfoldable pub desired_role_options : RoleSpec → Policy → RoleOptions × List RoleAttribute
unfolding denied_attributes is_login is_inherit get_connection_limit
desired_role_options spec policy =
    let none_denied = is_empty (denied_attributes spec policy) in
    (
      record {
        login = is_login spec;
        create_db = spec.create_db;
        create_role = none_denied && spec.create_role;
        inherit = is_inherit spec;
        replication = none_denied && spec.replication;
        bypass_rls = none_denied && spec.bypass_rls;
        connection_limit = get_connection_limit spec;
      },
      denied_attributes spec policy,
    )

-- Whether the spec asks for the attribute.
abbrev pub requests : RoleSpec → RoleAttribute → Bool
requests spec RoleAttribute.create_role = spec.create_role
requests spec RoleAttribute.replication = spec.replication
requests spec RoleAttribute.bypass_rls = spec.bypass_rls

refused_lem :
    (spec : RoleSpec) (policy : Policy) (a : RoleAttribute)
    → contains (denied_attributes spec policy) a
      ≡ (requests spec a && not (allows_attribute policy a))
unfolding denied_attributes contains attribute_beq
refused_lem spec policy RoleAttribute.create_role = ground arith
refused_lem spec policy RoleAttribute.replication = ground arith
refused_lem spec policy RoleAttribute.bypass_rls = ground arith

-- The denied attributes are the requested ones that the policy does not allow. The options give each
-- requested attribute if none is denied, and no attribute otherwise.
pub desired_role_options_lem :
    (spec : RoleSpec) (policy : Policy)
    → let (o, refused) = desired_role_options spec policy in
      ((a : RoleAttribute)
        → contains refused a ≡ (requests spec a && not (allows_attribute policy a)))
      × (o.create_role ≡ (is_empty refused && spec.create_role))
      × (o.replication ≡ (is_empty refused && spec.replication))
      × (o.bypass_rls ≡ (is_empty refused && spec.bypass_rls))
unfolding desired_role_options
desired_role_options_lem spec policy = (refused_lem spec policy, refl, refl, refl)

abbrev pub all_roles : List RoleMembership → List Text
all_roles [] = []
all_roles (m ∷ ms) = m.role ∷ all_roles ms

-- Each role is listed once.
abbrev pub HasDistinctRoles : List RoleMembership → Type 0
HasDistinctRoles [] = Unit
HasDistinctRoles (m ∷ ms) = (contains (all_roles ms) m.role ≡ false) × HasDistinctRoles ms

first-not-seen :
    (seen : List Text) (ms : List RoleMembership) (r : Text)
    → contains seen r ≡ true
    → contains (all_roles (first_memberships seen ms)) r ≡ false
unfolding first_memberships contains
first-not-seen seen [] r h = refl
first-not-seen seen (m ∷ ms) r h = ground (
  arith,
  first-not-seen seen ms r h,
  first-not-seen (m.role ∷ seen) ms r (ground arith),
  text_eq.beq_iff m.role r,
)

first-distinct :
    (seen : List Text) (ms : List RoleMembership) → HasDistinctRoles (first_memberships seen ms)
unfolding first_memberships
first-distinct seen [] = tt
first-distinct seen (m ∷ ms) = elim (Bool-cases (contains seen m.role)) [
  | inl e ↦ rw e (first-distinct seen ms)
  | inr e ↦ rw e (
    first-not-seen (m.role ∷ seen) ms m.role (contains-head m.role seen),
    first-distinct (m.role ∷ seen) ms,
  )
]

first-contains :
    (seen : List Text) (ms : List RoleMembership) (r : Text)
    → contains (all_roles (first_memberships seen ms)) r
      ≡ (contains (all_roles ms) r && not (contains seen r))
unfolding first_memberships contains
first-contains seen [] r = refl
first-contains seen (m ∷ ms) r =
    ground (
      arith,
      first-contains seen ms r,
      first-contains (m.role ∷ seen) ms r,
      text_eq.beq_iff m.role r,
    )

all_roles-requested :
    (ms : List RoleMembership) (rs : List Text)
    → all_roles (ms ++ plain_memberships rs) ≡ all_roles ms ++ rs
all_roles-requested [] [] = refl
all_roles-requested [] (r ∷ rs) = ap (λ (xs : List Text). r ∷ xs) (all_roles-requested [] rs)
all_roles-requested (m ∷ ms) rs = ap (λ (xs : List Text). m.role ∷ xs) (all_roles-requested ms rs)

-- The desired memberships name each role once, and name the roles of `memberships` and `memberOf`.
pub desired_memberships_lem :
    (s : RoleSpec)
    → HasDistinctRoles (desired_memberships s)
      × ((r : Text)
          → contains (all_roles (desired_memberships s)) r
            ≡ (contains (all_roles s.memberships) r || contains s.member_of r))
unfolding desired_memberships contains
desired_memberships_lem s = (
  first-distinct [] (s.memberships ++ plain_memberships s.member_of),
  (λ r. ground (
    arith,
    first-contains [] (s.memberships ++ plain_memberships s.member_of) r,
    ap (λ xs. contains xs r) (all_roles-requested s.memberships s.member_of),
    contains-append (all_roles s.memberships) s.member_of r,
  )),
)
