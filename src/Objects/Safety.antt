-- ===== src/Objects/Safety.antt =====
-- What the planner lets be granted: on which objects, and which privileges.
use pgop.Prelude.{
  Bool, true, false, not, ◌&&◌, ◌⊎◌, List, [], ◌∷◌, ◌≡◌, refl, ap, ◌∙◌, arith, ◌==◌, ltb, contains,
  is_empty, Option, none, some, Result, ok, err, ◌>>=◌, >>=-eq-ok, Bool-cases, inl, inr,
}
use pgop.Text.{Text, text_eq, text}
use pgop.Text.Strings.{byte_length}
use pgop.Grants.Engine.{CallError}
use pgop.Grants.Sets.{intersect, subtract, contains-intersect, contains-subtract}
use pgop.Policy.Roles.{ReachableRole, ManagedRoles, manages}
use pgop.Policy.Grantee.{Lookup}
use pgop.Objects.{
  ObjectKind, pg_name, is_routine, privilege_maintain, privilege_trigger, SchemaObject,
}
use pgop.Objects.Entries.{ObjectEntry}
use pgop.Objects.Owners.{
  invoker_safe_languages, other_relkinds, OwnerVerdict, operator_object_problem, is_managed_role,
  manages_role, unless_managed, owner_problem,
}
use pgop.Objects.Planner.{max_identity_length, granted_on}

module _ (lookup : Lookup) (managed : ManagedRoles) where
  -- The owner is a role that a Role of the Cluster manages, no superuser, and bears the marker.
  abbrev pub HasManagedOwner : SchemaObject → Type 0
  HasManagedOwner o =
      (r : ReachableRole) × (lookup o.owner ≡ ok (some r))
      × (r.superuser ≡ false)
      × (manages managed r ≡ true)

  -- The rules for objects of the operator, a superuser: no routine that runs as its owner or is not
  -- in SQL or PL/pgSQL, no view or foreign table, and on tables neither MAINTAIN nor TRIGGER.
  abbrev pub FollowsOperatorRules : ObjectKind → SchemaObject → Text → Type 0
  FollowsOperatorRules kind o p =
      ((is_routine kind && o.security_definer) ≡ false)
      × ((is_routine kind && not (contains invoker_safe_languages o.language)) ≡ false)
      × ((pg_name kind == text "TABLE" && contains other_relkinds o.sub_kind) ≡ false)
      × ((pg_name kind == text "TABLE" && contains (privilege_maintain ∷ privilege_trigger ∷ []) p)
          ≡ false)

  -- A privilege that pgop may grant on an object.
  abbrev pub IsGrantable : ObjectKind → SchemaObject → Text → Type 0
  IsGrantable kind o p =
      (o.extension ≡ [])
      × (((o.owner_is_session_user ≡ true) × FollowsOperatorRules kind o p)
          ⊎ ((o.owner_superuser ≡ false) × HasManagedOwner o))

  empty-nil : (t : Text) → is_empty t ≡ true → t ≡ []
  empty-nil [] h = refl
  empty-nil (c ∷ cs) h = cc

  manages_role-HasManagedOwner :
      (o : SchemaObject) → manages_role lookup managed o.owner ≡ ok true → HasManagedOwner o
  unfolding manages_role
  manages_role-HasManagedOwner o h = of_lookup (lookup o.owner) refl (ground (arith, h))
    where
      of_lookup :
          (r : Result CallError (Option ReachableRole))
          → lookup o.owner ≡ r
          → (r >>= λ x. ok (is_managed_role managed x)) ≡ ok true
          → HasManagedOwner o
      of_lookup (err e) p k = cc
      of_lookup (ok none) p k = absurd (ground (arith, k))
      of_lookup (ok (some r)) p k = (r, p, ground (arith, k), ground (arith, k))

  operator_object_problem-rules :
      (kind : ObjectKind) (o : SchemaObject) (denied : List Text) (p : Text)
      → operator_object_problem kind o ≡ (none, denied)
      → contains denied p ≡ false
      → FollowsOperatorRules kind o p
  unfolding operator_object_problem
  operator_object_problem-rules kind o denied p h d =
      (ground (arith, h), ground (arith, h), ground (arith, h), ground (arith, h, d))

  -- An object without a problem may be granted on, but for the denied privileges.
  pub owner_problem-IsGrantable :
      (kind : ObjectKind) (o : SchemaObject) (denied : List Text) (p : Text)
      → owner_problem lookup managed kind o ≡ ok (none, denied)
      → contains denied p ≡ false
      → IsGrantable kind o p
  unfolding owner_problem
  owner_problem-IsGrantable kind o denied p h d = elim (Bool-cases (is_empty o.extension)) [
    | inr e ↦ absurd (ground (arith, h, e))
    | inl e ↦ elim (Bool-cases o.owner_is_session_user) [
      | inl s ↦
          let judged : operator_object_problem kind o ≡ (none, denied) = ground (arith, h, e, s) in
          (empty-nil o.extension e, inl (s, operator_object_problem-rules kind o denied p judged d))
      | inr s ↦ elim (Bool-cases o.owner_superuser) [
        | inl u ↦ absurd (ground (arith, h, e, s, u))
        | inr u ↦
            let body : (manages_role lookup managed o.owner >>= λ b. ok (unless_managed o.owner b))
                ≡ ok (none, denied) =
              ground (arith, h, e, s, u) in
            let (b, found, same) =
              >>=-eq-ok (manages_role lookup managed o.owner) (λ b. ok (unless_managed o.owner b))
                body in
            (
              empty-nil o.extension e,
              inr (u, manages_role-HasManagedOwner o (found ∙ ap ok (is_true b same))),
            )
      ]
    ]
  ]
    where
      answer : Bool → Result CallError OwnerVerdict
      answer b = ok (unless_managed o.owner b)

      is_true : (b : Bool) → answer b ≡ ok (none, denied) → b ≡ true
      is_true true k = refl
      is_true false k = absurd (ground (arith, k))

-- What is granted on an object is asked for, not denied, and the object has no problem.
pub granted_on-asked :
    (e : ObjectEntry) (o : SchemaObject) (v : OwnerVerdict) (p : Text)
    → contains (granted_on e o v).0 p ≡ true
    → (v.0 ≡ none) × (contains e.privileges p ≡ true) × (contains v.1 p ≡ false)
unfolding granted_on contains
granted_on-asked e o (some why, denied) p h = cc
granted_on-asked e o (none, denied) p h =
    let both = contains-intersect e.privileges denied p in
    let left = contains-subtract e.privileges (intersect e.privileges denied) p in
    elim (Bool-cases (ltb max_identity_length (byte_length o.identity))) [
      | inl f ↦ absurd (ground (arith, h, f))
      | inr f ↦ elim (Bool-cases (is_empty (intersect e.privileges denied))) [
        | inl g ↦
            let none_denied : contains (intersect e.privileges denied) p ≡ false =
              empty_has (intersect e.privileges denied) p g in
            let asked : contains e.privileges p ≡ true = ground (arith, h, f, g) in
            (refl, asked, ground (arith, asked, both, none_denied))
        | inr g ↦
            let asked : contains (subtract e.privileges (intersect e.privileges denied)) p ≡ true =
              ground (arith, h, f, g) in
            (refl, ground (arith, asked, left), ground (arith, asked, left, both))
      ]
    ]
  where
    empty_has : (xs : List Text) (p : Text) → is_empty xs ≡ true → contains xs p ≡ false
    empty_has [] p h = refl
    empty_has (x ∷ xs) p h = cc
