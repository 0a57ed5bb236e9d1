-- ===== src/Policy/Membership/Laws.antt =====
-- What the membership policy lets through.
use pgop.Prelude.{
  true, ◌&&◌, false, ◌||◌, List, [], ◌∷◌, ◌≡◌, ◌↔◌, refl, arith, ◌==◌, if◌then◌else◌, contains,
  none, is_empty, All, eq_of_==, sym, ap, ◌∙◌, ◌≢◌, true, All-map, Bool-cases, inl, inr, ◌⊎◌,
}
use pgop.Text.{Text, text_eq, text, text_beq_iff}
use pgop.Text.Strings.{has_prefix}
use pgop.Policy.Roles.{
  create_role, replication, bypass_rls, Policy, ReachableRole, ManagedRoles, bootstrap_role_name,
  reserved_role_prefix, predefined_prefix, forbidden_predefined_roles, allows_attribute,
  allows_predefined_role, allows_existing_role, manages,
}
use pgop.Policy.Membership.{
  membership_name_problem, attribute_problem, reachable_role_problem, contained_predefined_role,
  builtin_contained_roles, is_skipped, closure_problem, membership_problem, adoption_loop,
  adoption_problem, denied,
}

-- A name that the policy lets membership pass through.
pub record IsNameAllowed (policy : Policy) (name : Text) : Type 0 where
  pub bootstrap : (name == bootstrap_role_name) ≡ false
  pub operator : has_prefix name reserved_role_prefix ≡ false
  pub no_file_access : contains forbidden_predefined_roles name ≡ false
  pub predefined :
      has_prefix name predefined_prefix ≡ true → allows_predefined_role policy name ≡ true

-- A role that the policy lets membership pass through.
pub record IsAllowed (policy : Policy) (managed : ManagedRoles) (r : ReachableRole) : Type 0 where
  pub name : IsNameAllowed policy r.name
  pub no_superuser : r.superuser ≡ false
  pub may_create_role : r.create_role ≡ true → allows_attribute policy create_role ≡ true
  pub may_replicate : r.replication ≡ true → allows_attribute policy replication ≡ true
  pub may_bypass_rls : r.bypass_rls ≡ true → allows_attribute policy bypass_rls ≡ true
  pub trusted :
      has_prefix r.name predefined_prefix ≡ false
      → (manages managed r || allows_existing_role policy r.name) ≡ true

module _ (policy : Policy) (managed : ManagedRoles) where
  pub membership_name_problem_iff :
      (name : Text) → (membership_name_problem name policy ≡ none) ↔ IsNameAllowed policy name
  unfolding membership_name_problem
  membership_name_problem_iff name = (
    (λ h. record {
      bootstrap = ground arith;
      operator = ground arith;
      no_file_access = ground arith;
      predefined = λ p. ground arith;
    }),
    (λ a. ground (arith, a.predefined)),
  )

  attribute_problem_iff :
      (r : ReachableRole)
      → (attribute_problem r policy ≡ none) ↔ (
          (denied r.create_role create_role policy ≡ [])
          × (denied r.replication replication policy ≡ [])
          × (denied r.bypass_rls bypass_rls policy ≡ []))
  unfolding attribute_problem
  attribute_problem_iff r = ((λ h. (ground arith, ground arith, ground arith)), (λ h. ground arith))

  reachable_to :
      (r : ReachableRole)
      → reachable_role_problem r policy managed ≡ none
      → IsAllowed policy managed r
  unfolding reachable_role_problem attribute_problem
  reachable_to r h = record {
    name = (membership_name_problem_iff r.name).0 (ground arith);
    no_superuser = ground arith;
    may_create_role = λ e. ground arith;
    may_replicate = λ e. ground arith;
    may_bypass_rls = λ e. ground arith;
    trusted = λ e. ground arith;
  }

  reachable_from :
      (r : ReachableRole)
      → IsAllowed policy managed r
      → reachable_role_problem r policy managed ≡ none
  unfolding reachable_role_problem attribute_problem
  reachable_from r a = ground (
    arith,
    (membership_name_problem_iff r.name).1 a.name,
    a.may_create_role,
    a.may_replicate,
    a.may_bypass_rls,
    a.trusted,
  )

  closure_to :
      (target : Text) (closure rs : List ReachableRole)
      → closure_problem target closure policy managed rs ≡ none
      → All (λ r. (is_skipped target r closure policy ≡ true) ⊎ IsAllowed policy managed r) rs
  unfolding closure_problem
  closure_to target closure [] h = tt
  closure_to target closure (r ∷ rs) h = elim (Bool-cases (is_skipped target r closure policy)) [
    | inl s ↦ (inl s, closure_to target closure rs (ground arith))
    | inr s ↦ (inr (reachable_to r (ground arith)), closure_to target closure rs (ground arith))
  ]

  closure_from :
      (target : Text) (closure rs : List ReachableRole)
      → All (λ r. (is_skipped target r closure policy ≡ true) ⊎ IsAllowed policy managed r) rs
      → closure_problem target closure policy managed rs ≡ none
  unfolding closure_problem
  closure_from target closure [] h = refl
  closure_from target closure (r ∷ rs) (inl s, hs) =
      ground (arith, closure_from target closure rs hs)
  closure_from target closure (r ∷ rs) (inr a, hs) =
      ground (arith, reachable_from r a, closure_from target closure rs hs)

  -- By the tests of the code.
  accepted_iff :
      (target : Text) (closure : List ReachableRole)
      → (membership_problem target closure policy managed ≡ none) ↔ (
          IsNameAllowed policy target
          × All
              (λ r. (is_skipped target r closure policy ≡ true) ⊎ IsAllowed policy managed r)
              closure)
  unfolding membership_problem
  accepted_iff target closure = (
    (λ h. (
      (membership_name_problem_iff target).0 (ground arith),
      closure_to target closure closure (ground arith),
    )),
    (λ h. ground (
      arith,
      (membership_name_problem_iff target).1 h.0,
      closure_from target closure closure h.1,
    )),
  )

abbrev pub monitor_parts : List Text
monitor_parts =
    text "pg_read_all_settings" ∷ text "pg_read_all_stats" ∷ text "pg_stat_scan_tables" ∷ []

-- What pg_monitor contains gives no access to files.
contained_no_file_access :
    (name : Text) (closure : List ReachableRole) (policy : Policy)
    → contained_predefined_role name closure policy ≡ true
    → contains monitor_parts name ≡ true
unfolding contained_predefined_role builtin_contained_roles contains
contained_no_file_access name [] policy h = cc
contained_no_file_access name (r ∷ closure) policy h =
    ground (arith, contained_no_file_access name closure policy)

disjoint :
    (name : Text)
    → contains monitor_parts name ≡ true
    → contains forbidden_predefined_roles name ≡ false
unfolding contains
disjoint name h = ground (
  arith,
  text_beq_iff (text "pg_read_all_settings") name,
  text_beq_iff (text "pg_read_all_stats") name,
  text_beq_iff (text "pg_stat_scan_tables") name,
  text_beq_iff (text "pg_execute_server_program") name,
  text_beq_iff (text "pg_read_server_files") name,
  text_beq_iff (text "pg_write_server_files") name,
)

-- An allowed role pg_monitor is in the closure, and contains the name.
abbrev pub IsContained : Policy → Text → List ReachableRole → Type 0
IsContained policy name [] = ⊥
IsContained policy name (r ∷ closure) =
    ((r.name ≡ text "pg_monitor")
      × (allows_predefined_role policy (text "pg_monitor") ≡ true)
      × (contains monitor_parts name ≡ true))
    ⊎ IsContained policy name closure

part_to :
    (name : Text) (closure : List ReachableRole) (policy : Policy)
    → contained_predefined_role name closure policy ≡ true
    → IsContained policy name closure
unfolding contained_predefined_role builtin_contained_roles contains
part_to name [] policy h = cc
part_to name (r ∷ closure) policy h =
    elim (Bool-cases
      (allows_predefined_role policy r.name && contains (builtin_contained_roles r.name) name)) [
        | inr f ↦ inr (part_to name closure policy (ground (arith, h, f)))
        | inl f ↦ elim (Bool-cases (r.name == text "pg_monitor")) [
          | inr g ↦ absurd (ground (arith, f, g))
          | inl g ↦
              let same = eq_of_== r.name (text "pg_monitor") g in
              inl (
                same,
                ap (allows_predefined_role policy) (sym same) ∙ ground (arith, f),
                ground (arith, f, g),
              )
        ]
      ]

part_from :
    (name : Text) (closure : List ReachableRole) (policy : Policy)
    → IsContained policy name closure
    → contained_predefined_role name closure policy ≡ true
unfolding contained_predefined_role builtin_contained_roles contains
part_from name [] policy h = elim h [ ]
part_from name (r ∷ closure) policy (inr h) = ground (arith, part_from name closure policy h)
part_from name (r ∷ closure) policy (inl (same, allowed, part)) =
    let here : (r.name == text "pg_monitor") ≡ true =
      (text_beq_iff r.name (text "pg_monitor")).1 same in
    let allows = ap (allows_predefined_role policy) same ∙ allowed in
    ground (arith, here, allows, part)

-- Another role than the target, that an allowed pg_monitor of the closure contains.
abbrev pub IsExcused : Policy → Text → List ReachableRole → ReachableRole → Type 0
IsExcused policy target closure r = (r.name ≢ target) × IsContained policy r.name closure

skipped_iff :
    (policy : Policy) (target : Text) (closure : List ReachableRole) (r : ReachableRole)
    → (is_skipped target r closure policy ≡ true) ↔ IsExcused policy target closure r
skipped_iff policy target closure r = (
  (λ h. (
    (λ e. ground (arith, h, (text_beq_iff r.name target).1 e)),
    part_to r.name closure policy (ground (arith, h)),
  )),
  λ (other, part).
      let differs : (r.name == target) ≡ false = elim (Bool-cases (r.name == target)) [
        | inl e ↦ absurd (other (eq_of_== r.name target e))
        | inr e ↦ e
      ] in
      ground (arith, differs, part_from r.name closure policy part),
)

-- Membership in a role is accepted exactly when its name is allowed and every role of the closure is
-- allowed, or is another role than the target and a part of pg_monitor, which is allowed and in the
-- closure.
pub membership_problem_iff :
    (policy : Policy) (managed : ManagedRoles) (target : Text) (closure : List ReachableRole)
    → (membership_problem target closure policy managed ≡ none) ↔ (
        IsNameAllowed policy target
        × All (λ r. IsExcused policy target closure r ⊎ IsAllowed policy managed r) closure)
membership_problem_iff policy managed target closure = (
  (λ h.
      let (name, all) = (accepted_iff policy managed target closure).0 h in
      (name, All-map (λ r x. to_excused r x) closure all)),
  (λ (name, all).
      (accepted_iff policy managed target closure).1
        (name, All-map (λ r x. from_excused r x) closure all)),
)
  where
    to_excused :
        (r : ReachableRole)
        → (is_skipped target r closure policy ≡ true) ⊎ IsAllowed policy managed r
        → IsExcused policy target closure r ⊎ IsAllowed policy managed r
    to_excused r (inl s) = inl ((skipped_iff policy target closure r).0 s)
    to_excused r (inr a) = inr a

    from_excused :
        (r : ReachableRole)
        → IsExcused policy target closure r ⊎ IsAllowed policy managed r
        → (is_skipped target r closure policy ≡ true) ⊎ IsAllowed policy managed r
    from_excused r (inl s) = inl ((skipped_iff policy target closure r).1 s)
    from_excused r (inr a) = inr a

-- Whatever a role reaches that membership is accepted in, none of it gives access to files, and
-- none of it is a superuser but what pg_monitor contains.
pub membership_problem_safe :
    (policy : Policy) (managed : ManagedRoles) (target : Text) (closure : List ReachableRole)
    → membership_problem target closure policy managed ≡ none
    → All
        (λ r.
          (contains forbidden_predefined_roles r.name ≡ false)
          × ((r.superuser ≡ false) ⊎ (contains monitor_parts r.name ≡ true)))
        closure
membership_problem_safe policy managed target closure h =
    All-map safe closure ((accepted_iff policy managed target closure).0 h).1
  where
    safe :
        (r : ReachableRole)
        → (is_skipped target r closure policy ≡ true) ⊎ IsAllowed policy managed r
        → (contains forbidden_predefined_roles r.name ≡ false)
          × ((r.superuser ≡ false) ⊎ (contains monitor_parts r.name ≡ true))
    safe r (inl s) =
        let part = contained_no_file_access r.name closure policy (ground arith) in
        (disjoint r.name part, inr part)
    safe r (inr a) = (a.name.no_file_access, inl a.no_superuser)

-- A role that may be adopted: no superuser itself, and what it reaches is allowed, or contained in an
-- allowed predefined role.
abbrev pub IsAdoptable : Policy → ManagedRoles → List ReachableRole → ReachableRole → Type 0
IsAdoptable policy managed closure r =
    if is_empty r.via
    then r.superuser ≡ false
    else (contained_predefined_role r.name closure policy ≡ true)
    ⊎ IsAllowed policy managed r

adoption_to :
    (policy : Policy) (managed : ManagedRoles) (name : Text) (closure rs : List ReachableRole)
    → adoption_loop name closure policy managed rs ≡ none
    → All (IsAdoptable policy managed closure) rs
unfolding adoption_loop
adoption_to policy managed name closure [] h = tt
adoption_to policy managed name closure (r ∷ rs) h =
    (first, adoption_to policy managed name closure rs (ground arith))
  where
    first : IsAdoptable policy managed closure r
    first = elim (Bool-cases (is_empty r.via)) [
      | inl e ↦ rw e (ground arith)
      | inr e ↦ elim (Bool-cases (contained_predefined_role r.name closure policy)) [
        | inl c ↦ rw e (inl c)
        | inr c ↦ rw e (inr (reachable_to policy managed r (ground arith)))
      ]
    ]

adoption_from :
    (policy : Policy) (managed : ManagedRoles) (name : Text) (closure rs : List ReachableRole)
    → All (IsAdoptable policy managed closure) rs
    → adoption_loop name closure policy managed rs ≡ none
unfolding adoption_loop
adoption_from policy managed name closure [] h = refl
adoption_from policy managed name closure (r ∷ rs) (a, hs) = elim (Bool-cases (is_empty r.via)) [
  | inl e ↦
      let no_superuser : r.superuser ≡ false = rw e at a in
      ground (arith, adoption_from policy managed name closure rs hs)
  | inr e ↦ elim (rw e at a) [
    | inl c ↦ ground (arith, adoption_from policy managed name closure rs hs)
    | inr ok_role ↦ ground (
      arith,
      reachable_from policy managed r ok_role,
      adoption_from policy managed name closure rs hs,
    )
  ]
]

-- An existing role may be adopted exactly when it is no superuser and each role that it reaches is
-- allowed, or contained in an allowed predefined role.
adoption_problem_iff :
    (policy : Policy) (managed : ManagedRoles) (name : Text) (closure : List ReachableRole)
    → (adoption_problem name closure policy managed ≡ none)
      ↔ All (IsAdoptable policy managed closure) closure
unfolding adoption_problem
adoption_problem_iff policy managed name closure = (
  adoption_to policy managed name closure closure,
  adoption_from policy managed name closure closure,
)
