-- ===== src/Roles/Takeover/Safety.antt =====
-- What a Role may alter: roles that it is recorded for and that bear its marker or may get it, and
-- roles that the policy lets it adopt.
use pgop.Prelude.{
  Bool, true, false, not, ◌||◌, ◌⊎◌, List, [], ◌∷◌, ◌≡◌, ◌≤◌, refl, ap, ◌∙◌, arith, ◌==◌, ltb,
  length, is_empty, Option, none, some, Result, ok, err, ◌>>=◌, >>=-eq-ok, Bool-cases, inl, inr,
  eq_of_==,
}
use pgop.Text.{Text, text_eq}
use pgop.Grants.Engine.{CallError}
use pgop.Policy.Roles.{ReachableRole, ManagedRoles, Problem, allows_adopting_role}
use pgop.Policy.Ownership.{
  MarkerSigner, Ownership, owned_absent, owned, owned_remark, adoptable, not_owned, marker, verify,
  refreshable_comment, decide_ownership,
}
use pgop.Policy.Membership.{adoption_problem}
use pgop.Roles.{Role, RoleError, marker_kind_role}
use pgop.Roles.Takeover.{
  Cluster, OwnershipReads, credentials_secret_name, controls, role_recorded, marker_key_size,
  SignerError, signer_of, load_marker_signer, marker_key_secret_name, or_call_error, or_role_error,
  or_no_signer, violation_or_nothing, Decision, RoleOwnershipError, managed_roles,
  check_role_adoption, act_on, check_role_ownership, role_ownership,
}

module _ (reads : OwnershipReads) where
  -- The status names the role on this very Cluster, or, without a Cluster in it, the Role controls
  -- its credentials Secret.
  abbrev pub IsRecorded : Role → Cluster → Text → Type 0
  IsRecorded role cluster pg_name =
      (role.status_role_name ≡ pg_name)
      × ((role.status_cluster_uid ≡ cluster.uid)
          ⊎ ((role.status_cluster_uid ≡ [])
              × (reads.credentials (credentials_secret_name role cluster) ≡ ok (some true))))

  empty-nil : (t : Text) → is_empty t ≡ true → t ≡ []
  empty-nil [] h = refl
  empty-nil (c ∷ cs) h = cc

  controls-some : (o : Option Bool) → controls o ≡ true → o ≡ some true
  controls-some none h = cc
  controls-some (some b) h = ap some h

  pub role_recorded-IsRecorded :
      (role : Role) (cluster : Cluster) (pg_name : Text)
      → role_recorded reads role cluster pg_name ≡ ok true
      → IsRecorded role cluster pg_name
  unfolding role_recorded
  role_recorded-IsRecorded role cluster pg_name h =
      elim (Bool-cases (is_empty pg_name || not (role.status_role_name == pg_name))) [
        | inl e ↦ absurd (ground (arith, h, e))
        | inr e ↦
            let named = eq_of_== role.status_role_name pg_name (ground (arith, e)) in
            elim (Bool-cases (is_empty role.status_cluster_uid)) [
              | inr f ↦ (
                named,
                inl (eq_of_== role.status_cluster_uid cluster.uid (ground (arith, e, f, h))),
              )
              | inl f ↦
                  let body : (reads.credentials (credentials_secret_name role cluster) >>= λ secret.
                  ok (controls secret))
                      ≡ ok true =
                    ground (arith, e, f, h) in
                  let (secret, read, same) =
                    >>=-eq-ok (reads.credentials (credentials_secret_name role cluster))
                      (λ secret. ok (controls secret)) body in
                  (
                    named,
                    inr (
                      empty-nil role.status_cluster_uid f,
                      read ∙ ap ok (controls-some secret (ground (arith, same))),
                    ),
                  )
            ]
      ]

  signer_of-length :
      (cluster : Cluster) (r : Result CallError (Option Text)) (s : MarkerSigner)
      → signer_of cluster r ≡ ok s
      → marker_key_size ≤ length s.key
  unfolding signer_of
  signer_of-length cluster (err e) s h = cc
  signer_of-length cluster (ok none) s h = cc
  signer_of-length cluster (ok (some key)) s h =
      elim (Bool-cases (ltb (length key) marker_key_size)) [
        | inl e ↦ absurd (ground (arith, h, e))
        | inr e ↦
            let made : Result SignerError MarkerSigner =
              ok (record { key = key; namespace = cluster.namespace; cluster = cluster.name }) in
            let body : made ≡ ok s = ground (arith, h, e) in ground (arith, body, e)
      ]

module _ (key_id : Text → Text) (mac : Text → Text → Text) (reads : OwnershipReads) where
  -- The policy lets the role be adopted, which is no superuser and reaches only what it allows.
  abbrev pub IsAdoptable : Role → Cluster → Text → MarkerSigner → Type 0
  IsAdoptable role cluster pg_name signer =
      (allows_adopting_role cluster.policy pg_name ≡ true)
      × (closure : List ReachableRole) × (managed : ManagedRoles) × (reads.membership_closure
            pg_name
          ≡ ok closure)
      × (managed_roles key_id mac reads role cluster signer ≡ ok managed)
      × (adoption_problem pg_name closure cluster.policy managed ≡ none)

  -- The comment of the role is the marker of the Role, or may give way to it.
  abbrev pub IsMarked : Role → MarkerSigner → Text → Type 0
  IsMarked role signer comment =
      (verify key_id mac signer comment marker_kind_role role.name ≡ true)
      ⊎ (refreshable_comment key_id mac signer comment marker_kind_role role.name ≡ true)

  -- The role has the marker already, or it is to be stored.
  abbrev pub BearsMarker : Role → MarkerSigner → Text → Decision → Type 0
  BearsMarker role signer comment decision =
      ((decision.0 ≡ []) × (comment ≡ marker key_id mac signer marker_kind_role role.name))
      ⊎ (decision.0 ≡ marker key_id mac signer marker_kind_role role.name)

  -- A role that is missing is only created; one that exists is the Role's own, or adoptable.
  abbrev pub IsAuthorized :
      Role → Cluster → Text → MarkerSigner → Bool → Bool × Text → Decision → Type 0
  IsAuthorized role cluster pg_name signer recorded found decision =
      (((found.0 ≡ false) × (decision.1 ≡ true))
        ⊎ ((found.0 ≡ true)
            × (decision.1 ≡ false)
            × (((recorded ≡ true) × IsMarked role signer found.1)
                ⊎ IsAdoptable role cluster pg_name signer)))
      × BearsMarker role signer found.1 decision

  violation-none : (o : Option (Text × Problem)) → violation_or_nothing o ≡ ok tt → o ≡ none
  violation-none none h = refl
  violation-none (some p) h = cc

  check_role_adoption-none :
      (role : Role) (cluster : Cluster) (pg_name : Text) (signer : MarkerSigner)
      → check_role_adoption key_id mac reads role cluster pg_name signer ≡ ok tt
      → (closure : List ReachableRole) × (managed : ManagedRoles) × (reads.membership_closure
            pg_name
          ≡ ok closure)
        × (managed_roles key_id mac reads role cluster signer ≡ ok managed)
        × (adoption_problem pg_name closure cluster.policy managed ≡ none)
  unfolding check_role_adoption
  check_role_adoption-none role cluster pg_name signer h =
      of_reads (reads.membership_closure pg_name)
        (managed_roles key_id mac reads role cluster signer) refl refl h
    where
      of_reads :
          (c : Result CallError (List ReachableRole)) (m : Result CallError ManagedRoles)
          → reads.membership_closure pg_name ≡ c
          → managed_roles key_id mac reads role cluster signer ≡ m
          → (or_call_error c >>= λ closure. or_call_error m >>= λ managed.
              violation_or_nothing (adoption_problem pg_name closure cluster.policy managed))
            ≡ ok tt
          → (closure : List ReachableRole) × (managed : ManagedRoles) × (reads.membership_closure
                pg_name
              ≡ ok closure)
            × (managed_roles key_id mac reads role cluster signer ≡ ok managed)
            × (adoption_problem pg_name closure cluster.policy managed ≡ none)
      of_reads (err e) m p q k = cc
      of_reads (ok closure) (err e) p q k = cc
      of_reads (ok closure) (ok managed) p q k = (
        closure,
        managed,
        p,
        q,
        violation-none (adoption_problem pg_name closure cluster.policy managed) k,
      )

  decided-IsAuthorized :
      (role : Role) (cluster : Cluster) (pg_name : Text) (signer : MarkerSigner) (recorded : Bool)
      (found : Bool × Text) (o : Ownership) (decision : Decision)
      → decide_ownership key_id mac signer marker_kind_role role.name found.0 found.1 recorded
          (allows_adopting_role cluster.policy pg_name)
        ≡ o
      → act_on key_id mac reads role cluster pg_name signer o ≡ ok decision
      → IsAuthorized role cluster pg_name signer recorded found decision
  unfolding act_on decide_ownership verify
  decided-IsAuthorized role cluster pg_name signer recorded found owned_absent decision e h =
      (inl (ground (arith, e), ground (arith, h)), inr (ground (arith, h)))
  decided-IsAuthorized role cluster pg_name signer recorded found owned decision e h =
      let same : verify key_id mac signer found.1 marker_kind_role role.name ≡ true =
        ground (arith, e) in
      (
        inr (ground (arith, e), ground (arith, h), inl (ground (arith, e), inl same)),
        inl (
          ground (arith, h),
          eq_of_== found.1 (marker key_id mac signer marker_kind_role role.name)
              (ground (arith, same)),
        ),
      )
  decided-IsAuthorized role cluster pg_name signer recorded found owned_remark decision e h =
      let old : refreshable_comment key_id mac signer found.1 marker_kind_role role.name ≡ true =
        ground (arith, e) in
      (
        inr (ground (arith, e), ground (arith, h), inl (ground (arith, e), inr old)),
        inr (ground (arith, h)),
      )
  decided-IsAuthorized role cluster pg_name signer recorded found adoptable decision e h =
      let (done, checked, same) =
        >>=-eq-ok (check_role_adoption key_id mac reads role cluster pg_name signer)
          (λ _. ok (marker key_id mac signer marker_kind_role role.name, false)) h in
      let (closure, managed, p, q, r) =
        check_role_adoption-none role cluster pg_name signer checked in
      let listed : allows_adopting_role cluster.policy pg_name ≡ true = ground (arith, e) in
      (
        inr (ground (arith, e), ground (arith, same), inr (listed, closure, managed, p, q, r)),
        inr (ground (arith, same)),
      )
  decided-IsAuthorized role cluster pg_name signer recorded found not_owned decision e h = cc

  check_role_ownership-IsAuthorized :
      (role : Role) (cluster : Cluster) (pg_name : Text) (signer : MarkerSigner) (recorded : Bool)
      (decision : Decision)
      → check_role_ownership key_id mac reads role cluster pg_name signer recorded ≡ ok decision
      → (found : Bool × Text) × (reads.role_comment pg_name ≡ ok found)
        × IsAuthorized role cluster pg_name signer recorded found decision
  unfolding check_role_ownership
  check_role_ownership-IsAuthorized role cluster pg_name signer recorded decision h =
      of_comment (reads.role_comment pg_name) refl h
    where
      choice : Bool × Text → Ownership
      choice found =
          decide_ownership key_id mac signer marker_kind_role role.name found.0 found.1 recorded
            (allows_adopting_role cluster.policy pg_name)

      of_comment :
          (c : Result CallError (Bool × Text))
          → reads.role_comment pg_name ≡ c
          → (or_call_error c >>= λ found.
              act_on key_id mac reads role cluster pg_name signer (choice found))
            ≡ ok decision
          → (found : Bool × Text) × (reads.role_comment pg_name ≡ ok found)
            × IsAuthorized role cluster pg_name signer recorded found decision
      of_comment (err e) p k = cc
      of_comment (ok found) p k = (
        found,
        p,
        decided-IsAuthorized role cluster pg_name signer recorded found (choice found) decision refl
            k,
      )

  -- A Role goes ahead with its PostgreSQL role only in these cases: the role is missing, and may
  -- only be created; or it exists, the status of the Role records it on this Cluster, and its comment
  -- is the Role's marker or one that the marker may replace; or it exists, the policy lists it as
  -- adoptable, and it is no superuser and reaches no role that the policy forbids, by the check of
  -- adoption. The role bears the marker of the Role, or the marker is what is to be stored; and the
  -- key of the markers has at least 32 bytes.
  pub role_ownership-IsAuthorized :
      (cluster : Cluster) (role : Role) (pg_name : Text) (signer : MarkerSigner)
      (decision : Decision)
      → role_ownership key_id mac reads cluster role pg_name ≡ ok (signer, decision)
      → (recorded : Bool) × (found : Bool × Text) × (marker_key_size ≤ length signer.key)
        × ((recorded ≡ false) ⊎ IsRecorded reads role cluster pg_name)
        × (reads.role_comment pg_name ≡ ok found)
        × IsAuthorized role cluster pg_name signer recorded found decision
  unfolding role_ownership load_marker_signer
  role_ownership-IsAuthorized cluster role pg_name signer decision h =
      of_signer (signer_of cluster (reads.marker_key (marker_key_secret_name cluster))) refl h
    where
      Answer : Type 0
      Answer =
          (recorded : Bool) × (found : Bool × Text) × (marker_key_size ≤ length signer.key)
          × ((recorded ≡ false) ⊎ IsRecorded reads role cluster pg_name)
          × (reads.role_comment pg_name ≡ ok found)
          × IsAuthorized role cluster pg_name signer recorded found decision

      with_signer : MarkerSigner → Decision → Result RoleOwnershipError (MarkerSigner × Decision)
      with_signer s x = ok (s, x)

      in_status :
          (b : Bool)
          → role_recorded reads role cluster pg_name ≡ ok b
          → (b ≡ false) ⊎ IsRecorded reads role cluster pg_name
      in_status false p = inl refl
      in_status true p = inr (role_recorded-IsRecorded reads role cluster pg_name p)

      of_check :
          (s : MarkerSigner) (b : Bool) (d : Result RoleError Decision)
          → marker_key_size ≤ length s.key
          → role_recorded reads role cluster pg_name ≡ ok b
          → check_role_ownership key_id mac reads role cluster pg_name s b ≡ d
          → (or_role_error d >>= with_signer s) ≡ ok (signer, decision)
          → Answer
      of_check s b (err e) long p q k = cc
      of_check s b (ok x) long p q k =
          let same : s ≡ signer = ground (arith, k) in
          let mine : x ≡ decision = ground (arith, k) in
          let (found, c, a) =
            check_role_ownership-IsAuthorized role cluster pg_name signer b decision
              (rw (← same, ← mine) q) in
          (b, found, rw (← same) long, in_status b p, c, a)

      of_recorded :
          (s : MarkerSigner) (r : Result CallError Bool)
          → marker_key_size ≤ length s.key
          → role_recorded reads role cluster pg_name ≡ r
          → (or_role_error (or_call_error r) >>= λ b.
              or_role_error (check_role_ownership key_id mac reads role cluster pg_name s b)
              >>= with_signer s)
            ≡ ok (signer, decision)
          → Answer
      of_recorded s (err e) long p k = cc
      of_recorded s (ok b) long p k =
          of_check s b (check_role_ownership key_id mac reads role cluster pg_name s b) long p refl
            k

      of_signer :
          (r : Result SignerError MarkerSigner)
          → signer_of cluster (reads.marker_key (marker_key_secret_name cluster)) ≡ r
          → (or_no_signer r >>= λ s.
              or_role_error (or_call_error (role_recorded reads role cluster pg_name)) >>= λ b.
              or_role_error (check_role_ownership key_id mac reads role cluster pg_name s b)
              >>= with_signer s)
            ≡ ok (signer, decision)
          → Answer
      of_signer (err e) p k = cc
      of_signer (ok s) p k =
          of_recorded s (role_recorded reads role cluster pg_name)
            (signer_of-length reads cluster (reads.marker_key (marker_key_secret_name cluster)) s p)
            refl k
