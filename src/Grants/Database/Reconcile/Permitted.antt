-- ===== src/Grants/Database/Reconcile/Permitted.antt =====
-- `reconcileDatabaseGrants` as a whole: who is granted what, and what is revoked.
use pgop.Prelude.{
  ◌&&◌, ◌⊎◌, inl, inr, List, [], ◌∷◌, ◌≡◌, refl, sym, arith, if_both, is_empty, Result, ok, err,
  All,
}
use pgop.Text.{Text, text_eq, text}
use pgop.Grants.Target.{PrivilegeGrant, desired_grant}
use pgop.Grants.Ledger.Merge.{HasDistinctKeys}
use pgop.Grants.Engine.{CallError, Ops, Log}
use pgop.Grants.Engine.Apply.Safety.{IsDeclaration, IsSafeCall}
use pgop.Grants.Engine.Apply.Calls.{apply_privilege_grants-IsSafe}
use pgop.Grants.Database.{
  DatabaseGrantSpec, GrantSpecError, target_on, privileges_or_error, desired_each,
  desired_database_grants, ManagedGrant, database_ledger,
}
use pgop.Grants.Database.Keys.{desired_each-step, desired_database_grants_lem}
use pgop.Grants.Database.Reconcile.{
  database_grant_ledger_limit, DatabaseRun, empty_filter, apply_database_grants,
  reconcile_desired_grants, reconcile_database_grants,
}
use pgop.Policy.Roles.{canonical_grantee}
use pgop.Policy.Grantee.{Checker, Lookup, Cache, GrantFilter, decide, filter}
use pgop.Policy.Grantee.Kept.{IsAllowed, allowed_grants-IsKept}
use pgop.Policy.Grantee.Cache.{IsFresh, allowed_grants, filter_lem}
use pgop.Sql.Privileges.{SqlError, normalize_database_privileges}

-- The grants are those that the entries of the spec stand for, one for each.
abbrev pub StandFor : List DatabaseGrantSpec → Text → List PrivilegeGrant → Type 0
StandFor [] name [] = Unit
StandFor [] name (g ∷ gs) = ⊥
StandFor (s ∷ ss) name [] = ⊥
StandFor (s ∷ ss) name (g ∷ gs) =
    ((privs : List Text) × (normalize_database_privileges s.privileges ≡ ok privs)
      × (desired_grant (target_on (text "DATABASE") name (canonical_grantee s.role)) privs
            s.with_grant_option
          ≡ g))
    × StandFor ss name gs

privileges_or_error-ok :
    (role : Text) (r : Result SqlError (List Text)) {privs : List Text}
    → privileges_or_error role r ≡ ok privs
    → r ≡ ok privs
privileges_or_error-ok role (ok ps) h = ground (arith, h)
privileges_or_error-ok role (err e) h = absurd (ground (arith, h))

desired_each-StandFor :
    (name : Text) (seen : List Text) (ss : List DatabaseGrantSpec) (out : List PrivilegeGrant)
    → desired_each name seen ss ≡ ok out
    → StandFor ss name out
unfolding desired_each
desired_each-StandFor name seen [] out h =
    let same : ◌≡◌ {A = List PrivilegeGrant} [] out = cc h in rw (← same) tt
desired_each-StandFor name seen (s ∷ ss) out h =
    let (privs, rest, fresh, later, made, normal) = desired_each-step name seen s ss out h in
    rw (← made) (
      (
        privs,
        privileges_or_error-ok s.role (normalize_database_privileges s.privileges) normal,
        refl,
      ),
      desired_each-StandFor name (canonical_grantee s.role ∷ seen) ss rest later,
    )

module _ (lookup : Lookup) (c : Checker) where
  -- Nothing is called, or every call is safe for the grants of the spec whose grantee the policy allows:
  -- all of these are declared to the engine, and only these.
  abbrev pub IsPermitted : List DatabaseGrantSpec → Text → List ManagedGrant → Log → Type 0
  IsPermitted specs name managed log =
      (log ≡ [])
      ⊎ ((all : List PrivilegeGrant) × (granted : List PrivilegeGrant) × StandFor specs name all
          × (allowed_grants (decide lookup c) all ≡ ok granted)
          × All (IsAllowed lookup c) granted
          × All (IsSafeCall (database_ledger name managed) granted) log)

  apply-IsPermitted :
      (ops : Ops) (specs : List DatabaseGrantSpec) (name : Text) (managed : List ManagedGrant)
      (all : List PrivilegeGrant) (x : Result CallError (List PrivilegeGrant) × GrantFilter)
      → StandFor specs name all
      → HasDistinctKeys all
      → All IsDeclaration all
      → allowed_grants (decide lookup c) all ≡ x.0
      → IsPermitted specs name managed (apply_database_grants ops name managed x).log
  unfolding apply_database_grants
  apply-IsPermitted ops specs name managed all (err e, held) h d l a = inl refl
  apply-IsPermitted ops specs name managed all (ok desired, held) h d l a =
      let k = allowed_grants-IsKept lookup c all d l a in
      inr (
        all,
        desired,
        h,
        a,
        k.permitted,
        apply_privilege_grants-IsSafe ops (database_ledger name managed) desired k.distinct
            k.declared database_grant_ledger_limit,
      )

  module _ (cache : Cache) (fresh : IsFresh (decide lookup c) cache) where
    on_desired-IsPermitted :
        (ops : Ops) (specs : List DatabaseGrantSpec) (name : Text) (managed : List ManagedGrant)
        (answer : Result GrantSpecError (List PrivilegeGrant))
        → desired_database_grants specs name ≡ answer
        → IsPermitted specs name managed
            (reconcile_desired_grants lookup c cache ops name managed answer).log
    unfolding reconcile_desired_grants desired_database_grants
    on_desired-IsPermitted ops specs name managed (err e) h = inl refl
    on_desired-IsPermitted ops specs name managed (ok all) h =
        let (distinct, declared) = desired_database_grants_lem specs name all h in
        if_both (λ (r : DatabaseRun). IsPermitted specs name managed r.log)
          (is_empty all && is_empty managed) (inl refl)
          (apply-IsPermitted ops specs name managed all (filter lookup c (empty_filter cache) all)
            (desired_each-StandFor name [] specs all h) distinct declared
            (sym (filter_lem lookup c (empty_filter cache) all fresh)))

    -- Whatever PostgreSQL and the status write answer, and with verdicts in the cache that the policy
    -- gives: a reconcile of the grants of a database does nothing, or it declares exactly the grants of
    -- the spec's entries whose grantee the policy allows, grants only what these declare, and revokes
    -- only what the ledger of the status records and these do not declare.
    pub reconcile_database_grants-IsPermitted :
        (ops : Ops) (specs : List DatabaseGrantSpec) (name : Text) (managed : List ManagedGrant)
        → IsPermitted specs name managed
            (reconcile_database_grants lookup c cache ops specs name managed).log
    unfolding reconcile_database_grants
    reconcile_database_grants-IsPermitted ops specs name managed =
        on_desired-IsPermitted ops specs name managed (desired_database_grants specs name) refl
