-- ===== src/Grants/Parameters/Safety.antt =====
-- What the engine is given for the parameters of a Role, and what it does with it.
use pgop.Prelude.{
  ◌⊎◌, ◌↔◌, inl, inr, sym, Bool-cases, ◌==◌, eq_of_==, contains, some, none, ℕ, Bool, true, false,
  ◌&&◌, List, [], ◌∷◌, ◌++◌, ◌≡◌, refl, ap, if_both, ltb, Option, Result, ok, err, >>=-eq-ok, All,
  arith, is_empty,
}
use pgop.Text.{Text, text_eq, text, text_beq_iff}
use pgop.Grants.Target.{PrivilegeGrant, key}
use pgop.Grants.Ledger.Merge.{has_key, HasDistinctKeys}
use pgop.Grants.Engine.{CallError, Ops, Log}
use pgop.Grants.Engine.Apply.{GrantError, apply_privilege_grants}
use pgop.Grants.Engine.Apply.Safety.{IsDeclaration, IsSafeCall}
use pgop.Grants.Engine.Apply.Calls.{apply_privilege_grants-IsSafe}
use pgop.Grants.Database.{ManagedGrant, parameter_ledger}
use pgop.Settings.{Contexts}
use pgop.Grants.Parameters.{
  ParameterGrantSpec, ParameterError, Desired, is_grantable, sort_out, filter_parameter_contexts,
  min_parameter_privileges_version, parameter_grant_ledger_limit, Reconciled, denied_error,
  after_engine, apply_parameters, apply_versioned, reconcile_desired, desired_parameter_grants,
  reconcile_parameter_grants,
}
use pgop.Grants.Parameters.Allowed.{IsParameterGrant, StandFor, desired_parameters-IsFine}

-- SET on a parameter of this context may be granted, or the server does not know the parameter.
abbrev pub IsSettable : Option Text → Type 0
IsSettable none = Unit
IsSettable (some context) = (context ≡ text "user") ⊎ (context ≡ text "superuser")

is_grantable_iff : (context : Option Text) → (is_grantable context ≡ true) ↔ IsSettable context
unfolding is_grantable contains
is_grantable_iff none = ((λ h. tt), λ h. refl)
is_grantable_iff (some c) = (
  (λ h. elim (Bool-cases (text "user" == c)) [
    | inl e ↦ inl (sym (eq_of_== (text "user") c e))
    | inr e ↦ inr (sym (eq_of_== (text "superuser") c (ground (arith, h, e))))
  ]),
  λ h. elim h [
    | inl e ↦ ground (arith, (text_beq_iff (text "user") c).1 (sym e))
    | inr e ↦ ground (arith, (text_beq_iff (text "superuser") c).1 (sym e))
  ],
)

-- Of the grants are left those on parameters that may be set, and all of them.
abbrev pub AreSettable : Contexts → List PrivilegeGrant → List PrivilegeGrant → Type 0
AreSettable contexts [] out = out ≡ []
AreSettable contexts (g ∷ gs) out =
    (context : Option Text) × (contexts g.target.name ≡ ok context)
    × ((IsSettable context
          × (rest : List PrivilegeGrant) × AreSettable contexts gs rest
          × (g ∷ rest ≡ out))
        ⊎ ((IsSettable context → ⊥) × AreSettable contexts gs out))

-- What the filter keeps.
pub record IsKept (specs : List ParameterGrantSpec) (contexts : Contexts) (member : Text)
    (ds out : List PrivilegeGrant) : Type 0 where
  pub grants : All (IsParameterGrant specs member) out
  pub settable : AreSettable contexts ds out
  pub distinct : HasDistinctKeys out
  pub fewer : (k : Text) → has_key ds k ≡ false → has_key out k ≡ false

sort_out-IsKept :
    (specs : List ParameterGrantSpec) (contexts : Contexts) (member : Text) (g : PrivilegeGrant)
    (ds : List PrivilegeGrant) (rest : List PrivilegeGrant × List Text) (context : Option Text)
    (b : Bool)
    → contexts g.target.name ≡ ok context
    → is_grantable context ≡ b
    → IsParameterGrant specs member g
    → has_key ds (key g.target) ≡ false
    → IsKept specs contexts member ds rest.0
    → IsKept specs contexts member (g ∷ ds) (sort_out g b rest).0
sort_out-IsKept specs contexts member g ds rest context true c s p new k = record {
  grants = (p, k.grants);
  settable = (context, c, inl ((is_grantable_iff context).0 s, rest.0, k.settable, refl));
  distinct = (k.fewer (key g.target) new, k.distinct);
  fewer = λ q h. ground (arith, h, k.fewer q);
}
sort_out-IsKept specs contexts member g ds rest context false c s p new k = record {
  grants = k.grants;
  settable =
      (context, c, inr ((λ x. ground (arith, s, (is_grantable_iff context).1 x)), k.settable));
  distinct = k.distinct;
  fewer = λ q h. k.fewer q (ground (arith, h));
}

filter-IsKept :
    (specs : List ParameterGrantSpec) (contexts : Contexts) (member : Text)
    (ds : List PrivilegeGrant) {out : List PrivilegeGrant} {refused : List Text}
    → All (IsParameterGrant specs member) ds
    → HasDistinctKeys ds
    → filter_parameter_contexts contexts ds ≡ ok (out, refused)
    → IsKept specs contexts member ds out
unfolding filter_parameter_contexts
filter-IsKept specs contexts member [] {out} h d e =
    let same : ◌≡◌ {A = List PrivilegeGrant} [] out = cc e in
    rw (← same) (record { grants = tt; settable = refl; distinct = tt; fewer = λ k n. n })
filter-IsKept specs contexts member (g ∷ gs) {out} {refused} (p, h) (new, d) e =
    let (context, c, e1) = >>=-eq-ok (contexts g.target.name) _ e in
    let (rest, r, e2) = >>=-eq-ok (filter_parameter_contexts contexts gs) _ e1 in
    let kept = filter-IsKept specs contexts member gs h d r in
    let same : sort_out g (is_grantable context) rest ≡ (out, refused) = cc e2 in
    rw (← ap (λ t. t.0) same) (
      sort_out-IsKept specs contexts member g gs rest context (is_grantable context) c refl p new
        kept)

-- Nothing is called, or every call is safe for the grants that the spec stands for on parameters that
-- are not denied and may be set: all of these are declared to the engine, and only these.
abbrev pub IsSafeRun : List ParameterGrantSpec → Contexts → Text → List ManagedGrant → Log → Type 0
IsSafeRun specs contexts member managed log =
    (log ≡ [])
    ⊎ ((all : List PrivilegeGrant) × (granted : List PrivilegeGrant) × StandFor specs member all
        × AreSettable contexts all granted
        × All (IsSafeCall (parameter_ledger member managed) granted) log)

no_calls :
    (specs : List ParameterGrantSpec) (contexts : Contexts) (member : Text)
    (managed : List ManagedGrant)
    → IsSafeRun specs contexts member managed []
no_calls specs contexts member managed = inl refl

after_engine-log :
    (errors : List ParameterError) (r : List PrivilegeGrant × List GrantError) (log : Log)
    → (after_engine errors (r, log)).log ≡ log
after_engine-log errors (ledger, []) log = refl
after_engine-log errors (ledger, e ∷ es) log = refl

grants_of-IsDeclaration :
    (specs : List ParameterGrantSpec) (member : Text) (gs : List PrivilegeGrant)
    → All (IsParameterGrant specs member) gs
    → All IsDeclaration gs
grants_of-IsDeclaration specs member [] h = tt
grants_of-IsDeclaration specs member (g ∷ gs) ((_, _, _, d), h) =
    (d, grants_of-IsDeclaration specs member gs h)

apply_parameters-IsSafeRun :
    (specs : List ParameterGrantSpec) (contexts : Contexts) (ops : Ops) (member : Text)
    (managed : List ManagedGrant) (errors : List ParameterError) (ds : List PrivilegeGrant)
    (answer : Result CallError (List PrivilegeGrant × List Text))
    → StandFor specs member ds
    → All (IsParameterGrant specs member) ds
    → HasDistinctKeys ds
    → filter_parameter_contexts contexts ds ≡ answer
    → IsSafeRun specs contexts member managed
        (apply_parameters ops member managed errors answer).log
unfolding apply_parameters
apply_parameters-IsSafeRun specs contexts ops member managed errors ds (err e) of h d a =
    no_calls specs contexts member managed
apply_parameters-IsSafeRun specs contexts ops member managed errors ds (ok (allowed, refused)) of h
      d a =
    let kept = filter-IsKept specs contexts member ds h d a in
    let ledger = parameter_ledger member managed in
    let safe =
      apply_privilege_grants-IsSafe ops ledger allowed kept.distinct
        (grants_of-IsDeclaration specs member allowed kept.grants) parameter_grant_ledger_limit in
    let run = apply_privilege_grants ops allowed ledger parameter_grant_ledger_limit [] in
    inr (
      ds,
      allowed,
      of,
      kept.settable,
      rw (after_engine-log (errors ++ denied_error refused) run.0 run.1) safe,
    )

apply_versioned-IsSafeRun :
    (specs : List ParameterGrantSpec) (contexts : Contexts) (ops : Ops) (member : Text)
    (managed : List ManagedGrant) (ds : List PrivilegeGrant) (denied : List Text)
    (version : Result CallError ℕ)
    → StandFor specs member ds
    → All (IsParameterGrant specs member) ds
    → HasDistinctKeys ds
    → IsSafeRun specs contexts member managed
        (apply_versioned contexts ops member managed (ds, denied) version).log
unfolding apply_versioned
apply_versioned-IsSafeRun specs contexts ops member managed ds denied (err e) of h d =
    no_calls specs contexts member managed
apply_versioned-IsSafeRun specs contexts ops member managed ds denied (ok version) of h d =
    if_both (λ (r : Reconciled). IsSafeRun specs contexts member managed r.log)
      (ltb version min_parameter_privileges_version)
      (if_both (λ (r : Reconciled). IsSafeRun specs contexts member managed r.log) (is_empty ds)
        (no_calls specs contexts member managed) (no_calls specs contexts member managed))
      (apply_parameters-IsSafeRun specs contexts ops member managed (denied_error denied) ds _ of h
        d refl)

reconcile_desired-IsSafeRun :
    (contexts : Contexts) (version : Result CallError ℕ) (ops : Ops) (member : Text)
    (managed : List ManagedGrant) (specs : List ParameterGrantSpec)
    (answer : Result ParameterError Desired)
    → desired_parameter_grants specs member ≡ answer
    → IsSafeRun specs contexts member managed
        (reconcile_desired contexts version ops member managed answer).log
unfolding reconcile_desired desired_parameter_grants
reconcile_desired-IsSafeRun contexts version ops member managed specs (err e) h =
    no_calls specs contexts member managed
reconcile_desired-IsSafeRun contexts version ops member managed specs (ok (ds, denied)) h =
    let fine = desired_parameters-IsFine member [] specs h in
    if_both (λ (r : Reconciled). IsSafeRun specs contexts member managed r.log)
      (is_empty ds && is_empty managed) (no_calls specs contexts member managed)
      (apply_versioned-IsSafeRun specs contexts ops member managed ds denied version fine.stands
        fine.grants fine.distinct)

-- Whatever the server and the status write answer, a reconcile of the parameter grants of a Role does
-- nothing, or it declares exactly the grants of the spec's entries on parameters that are not denied and
-- that have the context user or superuser or are unknown to the server, grants only what these declare,
-- and revokes only what the status ledger records and these do not declare.
pub reconcile_parameter_grants-IsSafeRun :
    (contexts : Contexts) (version : Result CallError ℕ) (ops : Ops) (member : Text)
    (specs : List ParameterGrantSpec) (managed : List ManagedGrant)
    → IsSafeRun specs contexts member managed
        (reconcile_parameter_grants contexts version ops member specs managed).log
unfolding reconcile_parameter_grants
reconcile_parameter_grants-IsSafeRun contexts version ops member specs managed =
    reconcile_desired-IsSafeRun contexts version ops member managed specs _ refl
