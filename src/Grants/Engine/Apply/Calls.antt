-- ===== src/Grants/Engine/Apply/Calls.antt =====
-- Every statement of a run of `apply_privilege_grants` is justified by the ledger and the spec.
use pgop.Prelude.{
  ℕ, Bool, true, false, List, [], ◌∷◌, ◌≡◌, refl, arith, if◌then◌else◌, is_empty, contains, All,
  Option, none, some, Result, ok, err, Bool-cases, inl, inr,
}
use pgop.Text.{Text, text_eq, text_beq_iff}
use pgop.Text.Sort.{sort}
use pgop.Grants.Sets.{subtract, contains-subtract}
use pgop.Grants.Target.{GrantTarget, PrivilegeGrant, key, empty, no_grant}
use pgop.Grants.Ledger.{Ledger, get, keys, tracked, want}
use pgop.Grants.Ledger.Merge.{lists, lists_option, HasDistinctKeys}
use pgop.Grants.Engine.{CallError, RevokeMode, Call, Log, Ops, call_held, call_grant, call_persist}
use pgop.Grants.Engine.Triple.{Triple, Triple-bind, Triple-if, Triple-pure, Triple-given}
use pgop.Grants.Engine.Revoke.Safety.{IsJustified, KeepsRevokes, revoke_removed-keeps}
use pgop.Grants.Engine.Apply.{
  PlannedGrant, planned, plan_of, Plan, add_planned, keep, plan_grants, grant_plain, after_options,
  grant_one, grant_all, revoke_all, finish, after_persist, record_and_grant, apply_privilege_grants,
  over_limit, GrantError,
}
use pgop.Grants.Engine.Apply.Safety.{
  IsDeclaration, MayRevoke, IsSafeCall, IsBounded, IsPlanned, tracked-IsBounded, intended-IsBounded,
  keep-IsBounded, may_revoke, nothing-contains,
}

module _ (ops : Ops) (managed desired : List PrivilegeGrant) where
  abbrev I : Log → Type 0
  I log = All (IsSafeCall managed desired) log

  -- What the spec declares for its own target.
  abbrev IsListed : PrivilegeGrant → Type 0
  IsListed d =
      (p : Text)
      → (contains d.privileges p ≡ true → lists desired (key d.target) p ≡ true)
        × (contains d.grant_options p ≡ true → lists_option desired (key d.target) p ≡ true)

  planned-IsPlanned :
      (d : PrivilegeGrant) (held grantable : List Text)
      → IsListed d
      → IsPlanned managed desired (planned d held grantable)
  unfolding planned
  planned-IsPlanned d held grantable h =
      let missing = subtract d.privileges held in
      let options = subtract d.grant_options grantable in
      record {
        target = refl;
        plain = λ q c. ground (
          arith,
          contains-subtract missing options q,
          contains-subtract d.privileges held q,
          (h q).0,
        );
        with_option = λ q c. ground (arith, contains-subtract d.grant_options grantable q, (h q).1);
        privileges = λ q c. ground (arith, contains-subtract d.privileges held q, (h q).0);
        options = λ q c. ground (arith, contains-subtract d.grant_options grantable q, (h q).1);
      }

  add_planned-IsPlanned :
      (d : PrivilegeGrant) (answer : Result CallError (List Text × List Text)) (plan : Plan)
      → IsListed d
      → All (IsPlanned managed desired) plan.grants
      → All (IsPlanned managed desired) (add_planned (plan_of d answer) plan).grants
  add_planned-IsPlanned d (err e) plan l h = h
  add_planned-IsPlanned d (ok (held, grantable)) plan l h =
      elim (Bool-cases (empty (planned d held grantable).added)) [
        | inl e ↦ rw e h
        | inr e ↦ rw e (planned-IsPlanned d held grantable l, h)
      ]

  plan_grants-safe :
      (ds : List PrivilegeGrant)
      → All IsListed ds
      → Triple I
          (plan_grants ops ds)
          (λ plan log. I log × All (IsPlanned managed desired) plan.grants)
  unfolding plan_grants call_held
  plan_grants-safe [] h = Triple-pure _ (λ log i. (i, tt))
  plan_grants-safe (d ∷ ds) (l, h) =
      Triple-bind _ _ (record { at = λ log i. (tt, i) })
        (λ answer. Triple-bind _ _ (plan_grants-safe ds h) (λ plan.
          Triple-given
            (λ ps. Triple-pure _ (λ log i. (i, add_planned-IsPlanned d answer plan l ps)))))

  grant-safe :
      (t : GrantTarget) (ps : List Text) (with_option : Bool)
      → IsSafeCall managed desired (Call.grant t ps with_option)
      → Triple I (call_grant ops t ps with_option) (λ e log. I log)
  unfolding call_grant
  grant-safe t ps with_option h = record { at = λ log i. (h, i) }

  grant_plain-safe :
      (p : PlannedGrant)
      → IsPlanned managed desired p
      → Triple I (grant_plain ops p) (λ e log. I log)
  unfolding grant_plain
  grant_plain-safe p h =
      Triple-if (is_empty p.plain) _ _ (λ _. Triple-pure _ (λ log i. i))
        (λ _.
          Triple-bind _ _ (grant-safe p.target p.plain false h.plain)
            (λ e. Triple-pure _ (λ log i. i)))

  after_options-safe :
      (p : PlannedGrant) (e : Option CallError)
      → IsPlanned managed desired p
      → Triple I (after_options ops p e) (λ e log. I log)
  unfolding after_options
  after_options-safe p none h = grant_plain-safe p h
  after_options-safe p (some e) h = Triple-pure _ (λ log i. i)

  grant_one-safe :
      (p : PlannedGrant) → IsPlanned managed desired p → Triple I (grant_one ops p) (λ e log. I log)
  unfolding grant_one
  grant_one-safe p h =
      Triple-if (is_empty p.grant_options) _ _ (λ _. grant_plain-safe p h)
        (λ _.
          Triple-bind _ _ (grant-safe p.target p.grant_options true h.with_option)
            (λ e. after_options-safe p e h))

  grant_all-safe :
      (ps : List PlannedGrant)
      → All (IsPlanned managed desired) ps
      → Triple I (grant_all ops ps) (λ e log. I log)
  unfolding grant_all
  grant_all-safe [] h = Triple-pure _ (λ log i. i)
  grant_all-safe (p ∷ ps) (h, hs) =
      Triple-bind _ _ (grant_one-safe p h)
        (λ e. Triple-bind _ _ (grant_all-safe ps hs) (λ later. Triple-pure _ (λ log i. i)))

  call_persist-safe :
      (ledger : List PrivilegeGrant) → Triple I (call_persist ops ledger) (λ e log. I log)
  unfolding call_persist
  call_persist-safe ledger = record { at = λ log i. saved ops.persist log i }
    where
      saved :
          (p : Option (Log → List PrivilegeGrant → Option CallError)) (log : Log)
          → I log
          → I (
              let after : Option CallError × Log = elim p [
                | none ↦ (none, log)
                | some save ↦ (save log ledger, Call.persist ledger ∷ log)
              ] in
              after.1)
      saved none log i = i
      saved (some save) log i = (tt, i)

  module _ (distinct : HasDistinctKeys desired) (declared : All IsDeclaration desired) where
    -- An entry that is not there gives no REVOKE.
    revoke_nothing :
        (k : Text) (m d : PrivilegeGrant) (ps : List Text) (mode : RevokeMode)
        → m ≡ no_grant
        → IsJustified m d ps mode
        → MayRevoke managed desired k ps mode
    revoke_nothing k m d ps mode e j =
        let none_recorded : (p : Text) → contains ps p ≡ true → ⊥ = λ p h.
          elim (Bool-cases mode.grant_option_only) [
            | inl only ↦ nothing-contains p (rw e at ((j.option only p h).0))
            | inr whole ↦ nothing-contains p (rw e at ((j.privilege whole p h).0))
          ] in
        record {
          privilege = λ _ p h. absurd (none_recorded p h);
          option = λ _ p h. absurd (none_recorded p h);
          cascade = λ _ p h. absurd (none_recorded p h);
        }

    keeps_revokes :
        (m : Ledger) (k : Text)
        → IsBounded managed desired m
        → KeepsRevokes I (get m k) (get (want desired) k)
    keeps_revokes m k b = record {
      asked = λ log i. (tt, i);
      revoked = λ log ps mode j i. (
        elim (b.keyed k) [
          | inl same ↦ rw same (may_revoke managed desired distinct declared m k ps mode b j)
          | inr missing ↦ revoke_nothing _ (get m k) (get (want desired) k) ps mode missing j
        ],
        i,
      );
    }

    revoke_all-safe :
        (ks : List Text) (m : Ledger)
        → IsBounded managed desired m
        → Triple I (revoke_all ops (want desired) ks m) (λ a log. I log)
    unfolding revoke_all
    revoke_all-safe [] m b = Triple-pure _ (λ log i. i)
    revoke_all-safe (k ∷ ks) m b =
        Triple-bind _ _
          (revoke_removed-keeps ops I (get m k) (get (want desired) k) (keeps_revokes m k b))
          (λ r. Triple-given (λ o.
            Triple-bind _ _
              (revoke_all-safe ks (keep m k r.left) (keep-IsBounded managed desired m k r o b))
              (λ a. Triple-pure _ (λ log i. i))))

    finish-safe :
        (m : Ledger) (errors : List GrantError)
        → IsBounded managed desired m
        → Triple I (finish ops (want desired) m errors) (λ r log. I log)
    unfolding finish
    finish-safe m errors b =
        Triple-bind _ _ (revoke_all-safe (sort (keys m)) m b) (λ a. Triple-pure _ (λ log i. i))

    after_persist-safe :
        (plan : Plan) (errors : List GrantError) (e : Option CallError)
        → All (IsPlanned managed desired) plan.grants
        → Triple I (after_persist ops desired managed plan errors e) (λ r log. I log)
    unfolding after_persist
    after_persist-safe plan errors (some e) h = Triple-pure _ (λ log i. i)
    after_persist-safe plan errors none h =
        Triple-bind _ _ (grant_all-safe plan.grants h) (λ failed. finish-safe _ _ (
          intended-IsBounded managed desired (tracked managed) plan.grants h
            (tracked-IsBounded managed desired)))

    record_and_grant-safe :
        (plan : Plan) (errors : List GrantError)
        → All (IsPlanned managed desired) plan.grants
        → Triple I (record_and_grant ops desired managed plan errors) (λ r log. I log)
    unfolding record_and_grant
    record_and_grant-safe plan errors h =
        Triple-if (is_empty plan.grants) _ _
          (λ _. finish-safe _ _ (tracked-IsBounded managed desired))
          (λ _. Triple-bind _ _ (call_persist-safe _) (λ e. after_persist-safe plan errors e h))

    desired-IsListed : All IsListed desired
    desired-IsListed = each desired (λ k p h. h) (λ k p h. h)
      where
        each :
            (ds : List PrivilegeGrant)
            → ((k p : Text) → lists ds k p ≡ true → lists desired k p ≡ true)
            → ((k p : Text) → lists_option ds k p ≡ true → lists_option desired k p ≡ true)
            → All IsListed ds
        each [] f g = tt
        each (d ∷ ds) f g = (
          (λ p. (
            (λ h. f (key d.target) p (ground (arith, text_beq_iff (key d.target) (key d.target)))),
            (λ h. g (key d.target) p (ground (arith, text_beq_iff (key d.target) (key d.target)))),
          )),
          each ds (λ k p h. f k p (ground arith)) (λ k p h. g k p (ground arith)),
        )

    -- Whatever PostgreSQL and the status write answer, a run of the engine grants only what the spec
    -- declares, and revokes only what the status ledger records and the spec no longer declares, with
    -- CASCADE only where the ledger records the grant option; for desired grants of distinct keys
    -- that declare grant options for declared privileges only.
    pub apply_privilege_grants-IsSafe :
        (limit : ℕ)
        → All (IsSafeCall managed desired) (apply_privilege_grants ops desired managed limit []).1
    unfolding apply_privilege_grants
    apply_privilege_grants-IsSafe limit = (run).at [] tt
      where
        chosen : (over : Bool) → All IsListed (if over then [] else desired)
        chosen true = tt
        chosen false = desired-IsListed

        run : Triple I (apply_privilege_grants ops desired managed limit) (λ r log. I log)
        run =
            Triple-bind _ _ (plan_grants-safe _ (chosen (over_limit desired managed limit)))
              (λ plan. Triple-given (λ h. record_and_grant-safe plan _ h))
