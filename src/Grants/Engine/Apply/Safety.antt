-- ===== src/Grants/Engine/Apply/Safety.antt =====
-- Which statements `apply_privilege_grants` issues, whatever PostgreSQL answers.
use pgop.Prelude.{
  true, false, ◌||◌, List, [], ◌∷◌, ◌≡◌, refl, ◌∙◌, ap, arith, if◌then◌else◌, is_empty, contains,
  All, Bool-cases, inl, inr,
}
use pgop.Text.{Text, text_eq, text_beq_iff}
use pgop.Grants.Sets.{contains-union}
use pgop.Grants.Target.{PrivilegeGrant, key, empty, no_grant}
use pgop.Grants.Ledger.{Ledger, get, put, merge_grant, tracked, want, get-put, get-remove}
use pgop.Grants.Ledger.Merge.{
  lists, lists_option, HasDistinctKeys, get-tracked, get-tracked_options, get-want,
  get-want_options, IsKeyed, IsKeyed-put, IsKeyed-remove, tracked-IsKeyed,
}
use pgop.Grants.Engine.{RevokeMode, Call, Log}
use pgop.Grants.Engine.Revoke.{Revoked}
use pgop.Grants.Engine.Revoke.Safety.{IsJustified, OnTarget}
use pgop.Grants.Engine.Apply.{PlannedGrant, intended, keep}

-- A grant option is declared for declared privileges only.
abbrev pub IsDeclaration : PrivilegeGrant → Type 0
IsDeclaration d = (p : Text) → contains d.grant_options p ≡ true → contains d.privileges p ≡ true

lists_of_option :
    (ds : List PrivilegeGrant) (k p : Text)
    → All IsDeclaration ds
    → lists_option ds k p ≡ true
    → lists ds k p ≡ true
lists_of_option [] k p h e = cc
lists_of_option (d ∷ ds) k p (h, hs) e = ground (arith, h p, lists_of_option ds k p hs)

pub nothing-contains : (p : Text) → contains [] p ≡ true → ⊥
unfolding contains
nothing-contains p h = cc

is_empty_of : (xs : List Text) → ((p : Text) → contains xs p ≡ true → ⊥) → is_empty xs ≡ true
unfolding contains
is_empty_of [] h = refl
is_empty_of (x ∷ xs) h = absurd (h x (ground (arith, text_beq_iff x x)))

module _ (managed desired : List PrivilegeGrant) where
  -- A REVOKE on the target with ledger key `k` takes away only what the status ledger records under
  -- that key and the spec does not declare, and cascades only where the ledger records the grant
  -- option.
  pub record MayRevoke (k : Text) (ps : List Text) (mode : RevokeMode) : Type 0 where
    pub privilege :
        mode.grant_option_only ≡ false
        → (p : Text) → contains ps p ≡ true
        → (lists managed k p ≡ true) × (lists desired k p ≡ false)
    pub option :
        mode.grant_option_only ≡ true
        → (p : Text) → contains ps p ≡ true
        → (lists_option managed k p ≡ true) × (lists_option desired k p ≡ false)
    pub cascade :
        mode.cascade ≡ true → (p : Text) → contains ps p ≡ true → lists_option managed k p ≡ true

  abbrev pub IsSafeCall : Call → Type 0
  IsSafeCall (Call.revoke t ps mode) = MayRevoke (key t) ps mode
  IsSafeCall (Call.grant t ps with_option) =
      (p : Text)
      → contains ps p ≡ true
      → (if with_option then lists_option desired (key t) p else lists desired (key t) p) ≡ true
  IsSafeCall _ = Unit

  abbrev IsSafe : Log → Type 0
  IsSafe log = All IsSafeCall log

  -- An entry of the maps records what the status ledger records or the spec declares.
  pub record IsBounded (m : Ledger) : Type 0 where
    pub keyed : IsKeyed m
    pub privileges :
        (k p : Text)
        → contains (get m k).privileges p ≡ true
        → (lists managed k p || lists desired k p) ≡ true
    pub options :
        (k p : Text)
        → contains (get m k).grant_options p ≡ true
        → (lists_option managed k p || lists_option desired k p) ≡ true

  pub tracked-IsBounded : IsBounded (tracked managed)
  tracked-IsBounded = record {
    keyed = tracked-IsKeyed managed;
    privileges = λ k p h. ground (arith, get-tracked managed k p);
    options = λ k p h. ground (arith, get-tracked_options managed k p);
  }

  -- What a planned grant adds is declared.
  pub record IsPlanned (p : PlannedGrant) : Type 0 where
    pub target : p.added.target ≡ p.target
    pub plain : (q : Text) → contains p.plain q ≡ true → lists desired (key p.target) q ≡ true
    pub with_option :
        (q : Text)
        → contains p.grant_options q ≡ true
        → lists_option desired (key p.target) q ≡ true
    pub privileges :
        (q : Text) → contains p.added.privileges q ≡ true → lists desired (key p.target) q ≡ true
    pub options :
        (q : Text)
        → contains p.added.grant_options q ≡ true
        → lists_option desired (key p.target) q ≡ true

  put-IsBounded :
      (m : Ledger) (p : PlannedGrant)
      → IsPlanned p
      → IsBounded m
      → IsBounded (put m (key p.target) (merge_grant (get m (key p.target)) p.added))
  unfolding merge_grant
  put-IsBounded m p h b =
      let j = key p.target in
      let v = merge_grant (get m j) p.added in
      record {
        keyed = IsKeyed-put m j v (ap key h.target) b.keyed;
        privileges = λ k q c. ground (
          arith,
          get-put m j k v,
          contains-union (get m j).privileges p.added.privileges q,
          b.privileges k q,
          b.privileges j q,
          h.privileges q,
          text_beq_iff j k,
        );
        options = λ k q c. ground (
          arith,
          get-put m j k v,
          contains-union (get m j).grant_options p.added.grant_options q,
          b.options k q,
          b.options j q,
          h.options q,
          text_beq_iff j k,
        );
      }

  pub intended-IsBounded :
      (m : Ledger) (ps : List PlannedGrant)
      → All IsPlanned ps
      → IsBounded m
      → IsBounded (intended m ps)
  unfolding intended
  intended-IsBounded m [] h b = b
  intended-IsBounded m (p ∷ ps) (h, hs) b =
      intended-IsBounded (put m (key p.target) (merge_grant (get m (key p.target)) p.added)) ps hs
        (put-IsBounded m p h b)

  -- What is left of an entry that is there stands on its target.
  left-keyed :
      (m : Ledger) (k : Text) (r : Revoked)
      → OnTarget (get m k) r
      → IsKeyed m
      → empty r.left ≡ false
      → key r.left.target ≡ k
  unfolding empty
  left-keyed m k r o keyed e = elim (keyed k) [
    | inl same ↦ ap key o.target ∙ same
    | inr none_there ↦
        let gone : (q : Text) → contains no_grant.privileges q ≡ true → ⊥ = nothing-contains in
        cc (
          e,
          is_empty_of r.left.privileges (λ p h. gone p (rw none_there at (o.privileges p h))),
          is_empty_of r.left.grant_options (λ p h. gone p (rw none_there at (o.options p h))),
        )
  ]

  pub keep-IsBounded :
      (m : Ledger) (k : Text) (r : Revoked)
      → OnTarget (get m k) r
      → IsBounded m
      → IsBounded (keep m k r.left)
  unfolding contains
  keep-IsBounded m k r o b = elim (Bool-cases (empty r.left)) [
    | inl e ↦ rw e (record {
      keyed = IsKeyed-remove m k b.keyed;
      privileges = λ j p c. ground (arith, get-remove m k j, b.privileges j p);
      options = λ j p c. ground (arith, get-remove m k j, b.options j p);
    })
    | inr e ↦ rw e (record {
      keyed = IsKeyed-put m k r.left (left-keyed m k r o b.keyed e) b.keyed;
      privileges = λ j p c. ground (
        arith,
        get-put m k j r.left,
        b.privileges k p,
        b.privileges j p,
        o.privileges p,
        text_beq_iff k j,
      );
      options = λ j p c. ground (
        arith,
        get-put m k j r.left,
        b.options k p,
        b.options j p,
        o.options p,
        text_beq_iff k j,
      );
    })
  ]

  module _ (distinct : HasDistinctKeys desired) (declared : All IsDeclaration desired) where
    option_declared : (k p : Text) → lists_option desired k p ≡ true → lists desired k p ≡ true
    option_declared k p h = lists_of_option desired k p declared h

    -- A REVOKE justified by the maps is justified by the lists.
    pub may_revoke :
        (m : Ledger) (k : Text) (ps : List Text) (mode : RevokeMode)
        → IsBounded m
        → IsJustified (get m k) (get (want desired) k) ps mode
        → MayRevoke k ps mode
    may_revoke m k ps mode b j = record {
      privilege = λ e p h.
          let (recorded, undeclared) = j.privilege e p h in
          ground (arith, get-want desired k p distinct, b.privileges k p recorded);
      option = λ e p h.
          let (recorded, undeclared) = j.option e p h in
          ground (arith, get-want_options desired k p distinct, b.options k p recorded);
      cascade = λ e p h. elim (Bool-cases mode.grant_option_only) [
        | inl only ↦
            let (recorded, undeclared) = j.option only p h in
            ground (arith, get-want_options desired k p distinct, b.options k p recorded)
        | inr whole ↦
            let (recorded, undeclared) = j.privilege whole p h in
            ground (
              arith,
              get-want desired k p distinct,
              b.options k p (j.cascade e p h),
              option_declared k p,
            )
      ];
    }
