-- ===== src/Policy/Grantee/Laws.antt =====
-- Whom pgop grants to.
use pgop.Prelude.{
  true, false, ◌||◌, ◌≡◌, ◌↔◌, refl, arith, ◌==◌, contains, Option, none, some, Result, ok, err,
  Bool-cases, inl, inr, ◌⊎◌,
}
use pgop.Text.{Text, text_eq, text}
use pgop.Text.Strings.{has_prefix, equal_fold}
use pgop.Grants.Engine.{CallError}
use pgop.Policy.Roles.{
  ReachableRole, bootstrap_role_name, reserved_role_prefix, predefined_prefix, allows_existing_role,
  manages, is_public,
}
use pgop.Policy.Grantee.{allowed, Checker, Lookup, grantee_name_problem, grantee_problem, decide}

-- A name that does not rule a grantee out.
pub record IsPlainName (name : Text) : Type 0 where
  pub bootstrap : (name == bootstrap_role_name) ≡ false
  pub operator : has_prefix name reserved_role_prefix ≡ false
  pub predefined : has_prefix name predefined_prefix ≡ false
  pub reserved : equal_fold name (text "none") ≡ false

grantee_name_problem_iff :
    (name : Text) → is_public name ≡ false → (grantee_name_problem name ≡ none) ↔ IsPlainName name
unfolding grantee_name_problem
grantee_name_problem_iff name p = (
  (λ h. record {
    bootstrap = ground arith;
    operator = ground arith;
    predefined = ground arith;
    reserved = ground arith;
  }),
  (λ n. ground arith),
)

module _ (lookup : Lookup) (c : Checker) where
  -- A role that is granted to: it exists, is no superuser, has a plain name, is not being deleted,
  -- and a Role of the Cluster manages it or the Cluster's policy lists it.
  pub record IsGrantee (name : Text) (r : ReachableRole) : Type 0 where
    pub found : lookup name ≡ ok (some r)
    pub plain : IsPlainName name
    pub not_deleting : contains c.deleting name ≡ false
    pub no_superuser : r.superuser ≡ false
    pub trusted : (manages c.managed r || allows_existing_role c.policy r.name) ≡ true

  -- `lookup` answers for the role that was asked for.
  abbrev pub IsFaithful : Type 0
  IsFaithful = (name : Text) (r : ReachableRole) → lookup name ≡ ok (some r) → r.name ≡ name

  existing_to :
      (name : Text) (answer : Result CallError (Option ReachableRole))
      → lookup name ≡ answer
      → is_public name ≡ false
      → decide lookup c name ≡ ok allowed
      → (r : ReachableRole) × IsGrantee name r
  unfolding decide grantee_problem
  existing_to name (err e) found p h = absurd (ground arith)
  existing_to name (ok none) found p h = absurd (ground arith)
  existing_to name (ok (some r)) found p h = (
    r,
    record {
      found = found;
      plain = (grantee_name_problem_iff name p).0 (ground arith);
      not_deleting = ground arith;
      no_superuser = ground arith;
      trusted = ground arith;
    },
  )

  -- The decision allows a name exactly when it is PUBLIC, or names a role of the server that is no
  -- superuser, has none of the reserved names, is not being deleted, and is one that a Role of the
  -- Cluster manages or that the Cluster's policy lists. The server is taken to answer for the role
  -- it is asked for.
  pub decide_iff :
      IsFaithful
      → (name : Text)
      → (decide lookup c name ≡ ok allowed)
        ↔ ((is_public name ≡ true) ⊎ ((r : ReachableRole) × IsGrantee name r))
  unfolding decide grantee_problem grantee_name_problem
  decide_iff faithful name = (
    (λ h. elim (Bool-cases (is_public name)) [
      | inl p ↦ inl p
      | inr p ↦ inr (existing_to name (lookup name) refl p h)
    ]),
    (λ s. elim s [
      | inl p ↦ ground arith
      | inr (r, g) ↦ granted name r g (faithful name r g.found)
    ]),
  )
    where
      granted :
          (name : Text) (r : ReachableRole)
          → IsGrantee name r
          → r.name ≡ name
          → decide lookup c name ≡ ok allowed
      granted name r g same = ground (
        arith, g.found, g.not_deleting, g.no_superuser, g.trusted, g.plain.bootstrap,
        g.plain.operator, g.plain.predefined, g.plain.reserved,
      )
