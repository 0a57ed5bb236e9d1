-- ===== src/Grants/Schemas/Permitted.antt =====
-- `reconcileSchemaGrants` as a whole: who is granted what, and what is revoked.
use pgop.Prelude.{
  ◌⊎◌, inl, inr, ◌&&◌, List, [], ◌∷◌, ◌++◌, ◌≡◌, refl, sym, ap, ◌∙◌, arith, if_both, is_empty,
  Result, ok, err, All,
}
use pgop.Text.{Text, text_eq}
use pgop.Grants.Target.{PrivilegeGrant}
use pgop.Grants.Engine.{CallError, Ops, Log}
use pgop.Grants.Engine.Apply.Safety.{IsSafeCall}
use pgop.Grants.Engine.Apply.Calls.{apply_privilege_grants-IsSafe}
use pgop.Grants.Database.{ManagedGrant, schema_ledger}
use pgop.Grants.Database.Reconcile.{empty_filter}
use pgop.Policy.Grantee.{Checker, Lookup, Cache, GrantFilter, decide, filter}
use pgop.Policy.Grantee.Cache.{IsFresh, allowed_grants, filter_lem, filter-IsFresh}
use pgop.Policy.Grantee.Kept.{IsAllowed, allowed_grants-IsKept, allowed_grants-append}
use pgop.Grants.Schemas.{
  SchemaSpec, SchemaError, Fields, add_allowed, after_field, filter_fields,
  schema_grant_ledger_limit, SchemaRun, apply_schema_grants, reconcile_fields,
  desired_schema_grants, reconcile_schema_grants,
}
use pgop.Grants.Schemas.Desired.{AreOf, IsDesired, all_grants, desired_by_schema-IsDesired}

add_allowed-ok :
    (allowed : List PrivilegeGrant) (r : Result CallError (List PrivilegeGrant))
    {out : List PrivilegeGrant}
    → add_allowed allowed r ≡ ok out
    → (later : List PrivilegeGrant) × (r ≡ ok later) × (allowed ++ later ≡ out)
add_allowed-ok allowed (ok later) h = (later, refl, cc h)
add_allowed-ok allowed (err e) h = absurd (ground (arith, h))

module _ (lookup : Lookup) (c : Checker) where
  -- Filtering schema by schema is filtering all the grants.
  filter_fields-allowed :
      (f : GrantFilter) (fields : Fields) (out : List PrivilegeGrant)
      → IsFresh (decide lookup c) f.cache
      → (filter_fields lookup c f fields).0 ≡ ok out
      → allowed_grants (decide lookup c) (all_grants fields) ≡ ok out
  unfolding filter_fields allowed_grants
  filter_fields-allowed f [] out fresh h = h
  filter_fields-allowed f ((schema, gs) ∷ fields) out fresh h =
      on (filter lookup c f gs) (sym (filter_lem lookup c f gs fresh))
        (filter-IsFresh lookup c f gs fresh)
        (λ f' out' fresh' h'. filter_fields-allowed f' fields out' fresh' h') h
    where
      on :
          (x : Result CallError (List PrivilegeGrant) × GrantFilter)
          → allowed_grants (decide lookup c) gs ≡ x.0
          → IsFresh (decide lookup c) x.1.cache
          → ((f' : GrantFilter) (out' : List PrivilegeGrant)
              → IsFresh (decide lookup c) f'.cache
              → (filter_fields lookup c f' fields).0 ≡ ok out'
              → allowed_grants (decide lookup c) (all_grants fields) ≡ ok out')
          → (after_field (λ f'. filter_fields lookup c f' fields) x).0 ≡ ok out
          → allowed_grants (decide lookup c) (gs ++ all_grants fields) ≡ ok out
      on (err e, f') a fresh' ih h' = absurd (ground (arith, h'))
      on (ok kept, f') a fresh' ih h' =
          let (later, r, made) = add_allowed-ok kept (filter_fields lookup c f' fields).0 h' in
          allowed_grants-append (decide lookup c) gs (all_grants fields) a (ih f' later fresh' r)
          ∙ ap ok made

  -- Nothing is called, or every call is safe for the grants of the spec whose grantee the policy allows:
  -- all of these are declared to the engine, and only these.
  abbrev pub IsPermitted : List Text → List SchemaSpec → List ManagedGrant → Log → Type 0
  IsPermitted managed_schemas schemas managed log =
      (log ≡ [])
      ⊎ ((all : List PrivilegeGrant) × (granted : List PrivilegeGrant) × AreOf managed_schemas
            schemas all
          × (allowed_grants (decide lookup c) all ≡ ok granted)
          × All (IsAllowed lookup c) granted
          × All (IsSafeCall (schema_ledger managed) granted) log)

  apply-IsPermitted :
      (ops : Ops) (managed_schemas : List Text) (schemas : List SchemaSpec)
      (managed : List ManagedGrant) (all : List PrivilegeGrant)
      (x : Result CallError (List PrivilegeGrant) × GrantFilter)
      → AreOf managed_schemas schemas all
      → IsDesired [] all
      → ((out : List PrivilegeGrant) → x.0 ≡ ok out → allowed_grants (decide lookup c) all ≡ ok out)
      → IsPermitted managed_schemas schemas managed (apply_schema_grants ops managed x).log
  unfolding apply_schema_grants
  apply-IsPermitted ops managed_schemas schemas managed all (err e, held) o d a = inl refl
  apply-IsPermitted ops managed_schemas schemas managed all (ok desired, held) o d a =
      let same = a desired refl in
      let k = allowed_grants-IsKept lookup c all d.distinct d.declared same in
      inr (
        all,
        desired,
        o,
        same,
        k.permitted,
        apply_privilege_grants-IsSafe ops (schema_ledger managed) desired k.distinct k.declared
            schema_grant_ledger_limit,
      )

  module _ (cache : Cache) (fresh : IsFresh (decide lookup c) cache) where
    on_desired-IsPermitted :
        (ops : Ops) (schemas : List SchemaSpec) (managed_schemas : List Text)
        (managed : List ManagedGrant) (answer : Result SchemaError Fields)
        → desired_schema_grants schemas managed_schemas ≡ answer
        → IsPermitted managed_schemas schemas managed
            (reconcile_fields lookup c cache ops managed answer).log
    unfolding reconcile_fields desired_schema_grants
    on_desired-IsPermitted ops schemas managed_schemas managed (err e) h = inl refl
    on_desired-IsPermitted ops schemas managed_schemas managed (ok fields) h =
        let (of, d) = desired_by_schema-IsDesired managed_schemas [] [] schemas fields h in
        if_both (λ (r : SchemaRun). IsPermitted managed_schemas schemas managed r.log)
          (is_empty fields && is_empty managed) (inl refl)
          (apply-IsPermitted ops managed_schemas schemas managed (all_grants fields)
            (filter_fields lookup c (empty_filter cache) fields) of d
            (λ out e. filter_fields-allowed (empty_filter cache) fields out fresh e))

    -- Whatever PostgreSQL and the status write answer, and with verdicts in the cache that the policy
    -- gives: a reconcile of the grants on schemas does nothing, or it declares exactly the grants of the
    -- spec's entries, in schemas that the Database manages, whose grantee the policy allows, grants only
    -- what these declare, and revokes only what the ledger of the status records and these do not declare.
    pub reconcile_schema_grants-IsPermitted :
        (ops : Ops) (schemas : List SchemaSpec) (managed_schemas : List Text)
        (managed : List ManagedGrant)
        → IsPermitted managed_schemas schemas managed
            (reconcile_schema_grants lookup c cache ops schemas managed_schemas managed).log
    unfolding reconcile_schema_grants
    reconcile_schema_grants-IsPermitted ops schemas managed_schemas managed =
        on_desired-IsPermitted ops schemas managed_schemas managed
          (desired_schema_grants schemas managed_schemas) refl
