-- ===== src/Grants/Engine/Revoke/Safety.antt =====
-- Which REVOKE statements `revoke_removed` issues.
use pgop.Prelude.{
  Bool, true, false, ◌&&◌, List, [], ◌∷◌, ◌≡◌, refl, arith, is_empty, contains, Option, none, some,
  Result, ok, err,
}
use pgop.Text.{Text, text_eq}
use pgop.Grants.Sets.{subtract, intersect, contains-subtract, contains-intersect}
use pgop.Grants.Target.{GrantTarget, PrivilegeGrant}
use pgop.Grants.Engine.{
  CallError, dependent, RevokeMode, Call, Log, Ops, M, ◌>>=◌, pure, call_revoke, call_gone,
}
use pgop.Grants.Engine.Triple.{Triple, Triple-bind, Triple-if, Triple-pure, Triple-given}
use pgop.Grants.Engine.Revoke.{
  plain_mode, cascade_mode, option_mode, Revoked, unchanged, Each, revoke_each, revoke_options,
  revoke_with_option, revoke_plain, after_plain, revoke_from, revoke_removed, drop_option_only,
  drop_with_option, count_each,
}

-- What a REVOKE may take away, given what the ledger's entry records and the spec declares: a
-- privilege, or a grant option, that is recorded and no longer declared, and CASCADE only where the
-- grant option is recorded.
pub record IsJustified (m d : PrivilegeGrant) (ps : List Text) (mode : RevokeMode) : Type 0 where
  pub privilege :
      mode.grant_option_only ≡ false
      → (p : Text) → contains ps p ≡ true
      → (contains m.privileges p ≡ true) × (contains d.privileges p ≡ false)
  pub option :
      mode.grant_option_only ≡ true
      → (p : Text) → contains ps p ≡ true
      → (contains m.grant_options p ≡ true) × (contains d.grant_options p ≡ false)
  pub cascade :
      mode.cascade ≡ true → (p : Text) → contains ps p ≡ true → contains m.grant_options p ≡ true

-- An invariant of the calls that every justified REVOKE on the entry's target keeps.
pub record KeepsRevokes (I : Log → Type 0) (m d : PrivilegeGrant) : Type 0 where
  pub asked : (log : Log) → I log → I (Call.gone m.target ∷ log)
  pub revoked :
      (log : Log) (ps : List Text) (mode : RevokeMode)
      → IsJustified m d ps mode
      → I log
      → I (Call.revoke m.target ps mode ∷ log)

-- The entry so far: on its target, with nothing that was not recorded.
pub record OnTarget (m : PrivilegeGrant) (r : Revoked) : Type 0 where
  pub target : r.left.target ≡ m.target
  pub privileges : (p : Text) → contains r.left.privileges p ≡ true → contains m.privileges p ≡ true
  pub options :
      (p : Text) → contains r.left.grant_options p ≡ true → contains m.grant_options p ≡ true

IsJustified-subset :
    {m d : PrivilegeGrant} {mode : RevokeMode} (ps qs : List Text)
    → ((p : Text) → contains ps p ≡ true → contains qs p ≡ true)
    → IsJustified m d qs mode
    → IsJustified m d ps mode
IsJustified-subset ps qs sub j = record {
  privilege = λ e p h. j.privilege e p (sub p h);
  option = λ e p h. j.option e p (sub p h);
  cascade = λ e p h. j.cascade e p (sub p h);
}

contains-first :
    (p : Text) (ps : List Text) (q : Text) → contains (p ∷ []) q ≡ true → contains (p ∷ ps) q ≡ true
unfolding contains
contains-first p ps q h = ground arith

contains-later :
    (p : Text) (ps : List Text) (q : Text) → contains ps q ≡ true → contains (p ∷ ps) q ≡ true
unfolding contains
contains-later p ps q h = ground arith

contains-nil : (p : Text) → contains [] p ≡ false
unfolding contains
contains-nil p = refl

module _ (ops : Ops) (I : Log → Type 0) (m d : PrivilegeGrant) (k : KeepsRevokes I m d) where
  abbrev pub Post : Revoked → Log → Type 0
  Post r log = I log × OnTarget m r

  call-keeps :
      (t : GrantTarget) (ps : List Text) (mode : RevokeMode)
      → t ≡ m.target
      → IsJustified m d ps mode
      → Triple I (call_revoke ops t ps mode) (λ e log. I log)
  unfolding call_revoke
  call-keeps t ps mode e j = record { at = λ log h. rw e (k.revoked log ps mode j h) }

  revoke_each-keeps :
      (t : GrantTarget) (ps : List Text)
      → t ≡ m.target
      → IsJustified m d ps plain_mode
      → Triple I (revoke_each ops t ps) (λ e log. I log)
  unfolding revoke_each
  revoke_each-keeps t [] e j = Triple-pure _ (λ log h. h)
  revoke_each-keeps t (p ∷ ps) e j =
      Triple-bind _ _
        (call-keeps t (p ∷ []) plain_mode e
          (IsJustified-subset (p ∷ []) (p ∷ ps) (contains-first p ps) j))
        (λ a.
          Triple-bind _ _
            (revoke_each-keeps t ps e (IsJustified-subset ps (p ∷ ps) (contains-later p ps) j))
            (λ b. Triple-pure _ (λ log h. h)))

  step :
      {A : Type 0} (r : Revoked) (ps : List Text) (mode : RevokeMode) (f : Option CallError → M A)
      (after : A → Log → Type 0)
      → OnTarget m r
      → IsJustified m d ps mode
      → ((e : Option CallError) → Triple I (f e) after)
      → Triple I (call_revoke ops r.left.target ps mode >>= f) after
  step r ps mode f after o j then_ok =
      Triple-bind _ _ (call-keeps r.left.target ps mode o.target j) then_ok

  after_option-OnTarget :
      (r : Revoked) (ps : List Text) (e : Option CallError)
      → OnTarget m r
      → OnTarget m (drop_option_only ops r ps e)
  after_option-OnTarget r ps none o = record {
    target = o.target;
    privileges = o.privileges;
    options = λ p h. o.options p (ground (arith, contains-subtract r.left.grant_options ps p));
  }
  after_option-OnTarget r ps (some e) o = record {
    target = o.target;
    privileges = o.privileges;
    options = o.options;
  }

  after_with-OnTarget :
      (r : Revoked) (ps : List Text) (e : Option CallError)
      → OnTarget m r
      → OnTarget m (drop_with_option ops r ps e)
  after_with-OnTarget r ps none o = record {
    target = o.target;
    privileges = λ p h. o.privileges p (ground (arith, contains-subtract r.left.privileges ps p));
    options = λ p h. o.options p (ground (arith, contains-subtract r.left.grant_options ps p));
  }
  after_with-OnTarget r ps (some e) o = record {
    target = o.target;
    privileges = o.privileges;
    options = o.options;
  }

  revoke_options-keeps :
      (ps : List Text) (r : Revoked)
      → OnTarget m r
      → IsJustified m d ps option_mode
      → Triple I (revoke_options ops ps r) Post
  unfolding revoke_options
  revoke_options-keeps ps r o j =
      Triple-if (is_empty ps) _ _ (λ _. Triple-pure _ (λ log h. (h, o)))
        (λ _.
          step r ps option_mode _ Post o j
            (λ e. Triple-pure _ (λ log h. (h, after_option-OnTarget r ps e o))))

  revoke_with_option-keeps :
      (ps : List Text) (r : Revoked)
      → OnTarget m r
      → IsJustified m d ps cascade_mode
      → Triple I (revoke_with_option ops ps r) Post
  unfolding revoke_with_option
  revoke_with_option-keeps ps r o j =
      Triple-if (is_empty ps) _ _ (λ _. Triple-pure _ (λ log h. (h, o)))
        (λ _.
          step r ps cascade_mode _ Post o j
            (λ e. Triple-pure _ (λ log h. (h, after_with-OnTarget r ps e o))))

  count_each-OnTarget :
      (r : Revoked) (each : Each) → OnTarget m r → OnTarget m (count_each ops r each)
  count_each-OnTarget r each o = record {
    target = o.target;
    privileges = λ p q. o.privileges p (
        ground (
          arith,
          contains-subtract r.left.privileges each.done p,
          contains-subtract (subtract r.left.privileges each.done) each.blocked p,
        ));
    options = o.options;
  }

  after_plain-keeps :
      (ps : List Text) (r : Revoked) (e : Option CallError)
      → OnTarget m r
      → IsJustified m d ps plain_mode
      → Triple I (after_plain ops ps r e) Post
  unfolding after_plain
  after_plain-keeps ps r none o j = Triple-pure _ (λ log h. (
    h,
    record {
      target = o.target;
      privileges = λ p q. o.privileges p (ground (arith, contains-subtract r.left.privileges ps p));
      options = o.options;
    },
  ))
  after_plain-keeps ps r (some e) o j =
      Triple-if (dependent e) _ _
        (λ _.
          Triple-bind _ _ (revoke_each-keeps r.left.target ps o.target j)
            (λ each. Triple-pure _ (λ log h. (h, count_each-OnTarget r each o))))
        (λ _. Triple-pure _ (λ log h.
          (h, record { target = o.target; privileges = o.privileges; options = o.options })))

  revoke_plain-keeps :
      (ps : List Text) (r : Revoked)
      → OnTarget m r
      → IsJustified m d ps plain_mode
      → Triple I (revoke_plain ops ps r) Post
  unfolding revoke_plain
  revoke_plain-keeps ps r o j =
      Triple-if (is_empty ps) _ _ (λ _. Triple-pure _ (λ log h. (h, o)))
        (λ _. step r ps plain_mode _ Post o j (λ e. after_plain-keeps ps r e o j))

  -- What is taken for removed is recorded and not declared.
  abbrev AreRemoved : List Text → List Text → Type 0
  AreRemoved removed options_only =
      ((p : Text)
        → contains removed p ≡ true
        → (contains m.privileges p ≡ true) × (contains d.privileges p ≡ false))
      × ((p : Text)
          → contains options_only p ≡ true
          → (contains m.grant_options p ≡ true) × (contains d.grant_options p ≡ false))

  call_gone-keeps : Triple I (call_gone ops m.target) (λ e log. I log)
  unfolding call_gone
  call_gone-keeps = record { at = λ log h. asked ops.gone log h }
    where
      asked :
          (check : Option (Log → GrantTarget → Result CallError Bool)) (log : Log)
          → I log
          → I (
              let after : Result CallError Bool × Log = elim check [
                | none ↦ (ok false, log)
                | some f ↦ (f log m.target, Call.gone m.target ∷ log)
              ] in
              after.1)
      asked none log h = h
      asked (some f) log h = k.asked log h

  revoke_from-keeps :
      (removed options_only : List Text) (answer : Result CallError Bool)
      → AreRemoved removed options_only
      → Triple I (revoke_from ops m removed options_only answer) Post
  unfolding revoke_from
  revoke_from-keeps removed options_only (err e) h =
      Triple-pure _
        (λ log i. (i, record { target = refl; privileges = λ p q. q; options = λ p q. q }))
  revoke_from-keeps removed options_only (ok true) h = Triple-pure _ (λ log i. (
    i,
    record {
      target = refl;
      privileges = λ p q. cc (contains-nil p, q);
      options = λ p q. cc (contains-nil p, q);
    },
  ))
  revoke_from-keeps removed options_only (ok false) h =
      Triple-bind _ _
        (revoke_options-keeps options_only (unchanged m)
          (record { target = refl; privileges = λ p q. q; options = λ p q. q })
          (record {
            privilege = λ e p q. cc;
            option = λ e p q. h.1 p q;
            cascade = λ e p q. (h.1 p q).0;
          }))
        (λ r. Triple-given (λ o.
          Triple-bind _ _
            (revoke_with_option-keeps (intersect removed r.left.grant_options) r o (record {
              privilege = λ e p q.
                  h.0 p (ground (arith, contains-intersect removed r.left.grant_options p));
              option = λ e p q. cc;
              cascade = λ e p q.
                  o.options p (ground (arith, contains-intersect removed r.left.grant_options p));
            }))
            (λ s. Triple-given (λ o'. revoke_plain-keeps _ s o' (record {
              privilege = λ e p q. h.0 p (
                  ground
                    (arith, contains-subtract removed (intersect removed r.left.grant_options) p));
              option = λ e p q. cc;
              cascade = λ e p q. cc;
            })))))

  -- Every REVOKE is justified by the entry and the declaration, and nothing is added to the entry.
  pub revoke_removed-keeps : Triple I (revoke_removed ops m d) Post
  unfolding revoke_removed
  revoke_removed-keeps =
      let removed = subtract m.privileges d.privileges in
      let options_only = subtract (subtract m.grant_options d.grant_options) removed in
      Triple-if (is_empty removed && is_empty options_only) (pure (unchanged m)) _
        (λ _.
          Triple-pure (unchanged m)
            (λ log h. (h, record { target = refl; privileges = λ p q. q; options = λ p q. q })))
        (λ _. Triple-bind _ _ call_gone-keeps (λ answer.
          revoke_from-keeps removed options_only answer (
            (λ p h. (ground (arith, contains-subtract m.privileges d.privileges p))),
            (λ p h. ground (
              arith,
              contains-subtract m.grant_options d.grant_options p,
              contains-subtract (subtract m.grant_options d.grant_options)
                  (subtract m.privileges d.privileges) p,
            )),
          )))
