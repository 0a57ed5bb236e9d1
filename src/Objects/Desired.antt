-- ===== src/Objects/Desired.antt =====
-- What the planner wants granted, for the whole spec.
use pgop.Prelude.{
  Bool, true, false, not, ◌||◌, ◌⊎◌, List, [], ◌∷◌, ◌++◌, ◌≡◌, refl, sym, ap, ◌∙◌, arith, ℕ,
  contains, All, All-map, All-append, is_empty, if◌then◌else◌, Result, ok, err, ◌>>=◌, >>=-eq-ok,
  Bool-cases, inl, inr, if_both,
}
use mathlib.Core.Path.{subst}
use pgop.Text.{Text, text_eq}
use pgop.Grants.Engine.{CallError}
use pgop.Grants.Sets.{contains-union}
use pgop.Grants.Target.{PrivilegeGrant, key, no_grant, desired_grant}
use pgop.Grants.Ledger.{get, merge_grant}
use pgop.Policy.Roles.{ManagedRoles}
use pgop.Objects.{SchemaObject, system_schema_name}
use pgop.Objects.Entries.{
  ObjectGrantSpec, SchemaSpec, ObjectEntry, EntryError, Entries, field_of, with_entry, entry_of,
  add_entries, schema_entries, entries_from, entries,
}
use pgop.Objects.Groups.{ObjectReads, ObjectGroup, groups_of, list_groups}
use pgop.Objects.Planner.{
  ObjectPlan, add_each, no_plan, report_groups, report_group, entries_or_error, plan_or_error,
  plan_objects,
}
use pgop.Objects.Safety.{IsGrantable}
use pgop.Objects.Listed.{IsListed, group_at-IsListed}
use pgop.Objects.Justified.{HasReasons, target_of, IsAsked, add_each-HasReasons}

-- An entry of a schema that the Database manages, and that is not the system's.
abbrev pub IsInManaged : List Text → ObjectEntry → Type 0
IsInManaged managed_schemas e =
    (contains managed_schemas e.schema ≡ true) × (system_schema_name e.schema ≡ false)

module _ (server_version : ℕ) (managed_schemas : List Text) where
  with_entry-managed :
      (es : Entries) (e : ObjectEntry × Bool)
      → IsInManaged managed_schemas e.0
      → All (IsInManaged managed_schemas) es.entries
      → All (IsInManaged managed_schemas) (with_entry es e).entries
  with_entry-managed es (e, dropped) k h =
      if_both (λ (l : List ObjectEntry). All (IsInManaged managed_schemas) l)
        (is_empty e.privileges) h
        (All-append (IsInManaged managed_schemas) es.entries (e ∷ []) h (k, tt))

  entry_of-schema :
      (schema : Text) (g : ObjectGrantSpec) (e : ObjectEntry × Bool)
      → entry_of server_version schema g ≡ ok e
      → e.0.schema ≡ schema
  unfolding entry_of
  entry_of-schema schema g e h = ground (arith, h)

  add_entries-managed :
      (schema : Text) (gs : List ObjectGrantSpec) (es next : Entries)
      → contains managed_schemas schema ≡ true
      → system_schema_name schema ≡ false
      → All (IsInManaged managed_schemas) es.entries
      → add_entries server_version schema es gs ≡ ok next
      → All (IsInManaged managed_schemas) next.entries
  unfolding add_entries
  add_entries-managed schema [] es next m s h a =
      let same : es ≡ next = ground (arith, a) in
      subst (λ (x : Entries). All (IsInManaged managed_schemas) x.entries) same h
  add_entries-managed schema (g ∷ gs) es next m s h a =
      let (e, first, rest) =
        >>=-eq-ok (entry_of server_version schema g)
          (λ x. add_entries server_version schema (with_entry es x) gs) a in
      let same = entry_of-schema schema g e first in
      let in_managed : IsInManaged managed_schemas e.0 =
        (ap (contains managed_schemas) same ∙ m, ap system_schema_name same ∙ s) in
      add_entries-managed schema gs (with_entry es e) next m s
        (with_entry-managed es e in_managed h) rest

  schema_entries-managed :
      (s : SchemaSpec) (es next : Entries)
      → All (IsInManaged managed_schemas) es.entries
      → schema_entries server_version managed_schemas es s ≡ ok next
      → All (IsInManaged managed_schemas) next.entries
  unfolding schema_entries
  schema_entries-managed s es next h a =
      elim (Bool-cases (
        not (contains managed_schemas s.name)
        || system_schema_name s.name
        || is_empty s.object_grants)) [
          | inl f ↦
              let same : es ≡ next = ground (arith, a, f) in
              subst (λ (x : Entries). All (IsInManaged managed_schemas) x.entries) same h
          | inr f ↦ elim (Bool-cases (contains es.fields (field_of s.name))) [
            | inl g ↦ absurd (ground (arith, a, f, g))
            | inr g ↦
                let start = record es { fields = es.fields ++ field_of s.name ∷ [] } in
                let body : add_entries server_version s.name start s.object_grants ≡ ok next =
                  ground (arith, a, f, g) in
                add_entries-managed s.name s.object_grants start next (ground (arith, f))
                  (ground (arith, f)) h body
          ]
        ]

  entries_from-managed :
      (ss : List SchemaSpec) (es next : Entries)
      → All (IsInManaged managed_schemas) es.entries
      → entries_from server_version managed_schemas es ss ≡ ok next
      → All (IsInManaged managed_schemas) next.entries
  unfolding entries_from
  entries_from-managed [] es next h a =
      let same : es ≡ next = ground (arith, a) in
      subst (λ (x : Entries). All (IsInManaged managed_schemas) x.entries) same h
  entries_from-managed (s ∷ ss) es next h a =
      let (mid, first, rest) =
        >>=-eq-ok (schema_entries server_version managed_schemas es s)
          (λ x. entries_from server_version managed_schemas x ss) a in
      entries_from-managed ss mid next (schema_entries-managed s es mid h first) rest

  entries-managed :
      (ss : List SchemaSpec) (es : Entries)
      → entries server_version managed_schemas ss ≡ ok es
      → All (IsInManaged managed_schemas) es.entries
  unfolding entries
  entries-managed ss es a =
      entries_from-managed ss (record { fields = []; unsupported = []; entries = [] }) es tt a

report_groups-desired :
    (reads : ObjectReads) (p : ObjectPlan) (gs : List ObjectGroup)
    → (report_groups reads p gs).desired ≡ p.desired
unfolding report_groups report_group
report_groups-desired reads p [] = refl
report_groups-desired reads p (g ∷ gs) =
    report_groups-desired reads (report_group reads p g) gs ∙ ground arith

abbrev pub Among : ObjectEntry → List ObjectEntry → Type 0
Among e [] = ⊥
Among e (x ∷ xs) = (x ≡ e) ⊎ Among e xs

all-Among : (es : List ObjectEntry) → All (λ e. Among e es) es
all-Among [] = tt
all-Among (x ∷ xs) = (inl refl, All-map (λ e m. inr m) xs (all-Among xs))

module _ (reads : ObjectReads) (managed : ManagedRoles) (server_version : ℕ)
    (managed_schemas : List Text) (schemas : List SchemaSpec) where
  -- An entry and an object that call for the privilege: the entry is of the spec, in a schema that the
  -- Database manages, and asks for it; the object is listed for the entry; and the privilege may be
  -- granted on the object.
  abbrev pub IsCalledFor : Entries → ObjectEntry → SchemaObject → Text → Text → Type 0
  IsCalledFor es e o k x =
      (entries server_version managed_schemas schemas ≡ ok es)
      × Among e es.entries
      × IsInManaged managed_schemas e
      × (key (target_of e o) ≡ k)
      × (contains e.privileges x ≡ true)
      × IsListed reads e o
      × IsGrantable reads.lookup_role managed e.kind o x

  abbrev IsEntryOf : Entries → ObjectEntry → Type 0
  IsEntryOf es e = Among e es.entries × IsInManaged managed_schemas e

  both_all :
      (P Q : ObjectEntry → Type 0) (es : List ObjectEntry)
      → All P es
      → All Q es
      → All (λ e. P e × Q e) es
  both_all P Q [] h k = tt
  both_all P Q (e ∷ es) (p, h) (q, k) = ((p, q), both_all P Q es h k)

  planned_for :
      (list : PrivilegeGrant → List Text) (P : Text → Text → Type 0) (es : Entries)
      (plan : ObjectPlan)
      → list no_grant ≡ []
      → ((a b : PrivilegeGrant) (x : Text)
          → contains (list (merge_grant a b)) x ≡ (contains (list a) x || contains (list b) x))
      → ((e : ObjectEntry) (o : SchemaObject) (privs : List Text)
          → IsEntryOf es e
          → IsListed reads e o
          → ((x : Text)
              → contains privs x ≡ true
              → IsAsked reads managed (IsEntryOf es) (IsListed reads) e o x)
          → (x : Text)
          → contains (list (desired_grant (target_of e o) privs e.with_grant_option)) x ≡ true
          → P (key (target_of e o)) x)
      → entries server_version managed_schemas schemas ≡ ok es
      → add_each reads managed
          (list_groups reads (groups_of [] es.entries))
          (report_groups reads no_plan (groups_of [] es.entries))
          es.entries
        ≡ ok plan
      → HasReasons list P plan.desired
  unfolding get contains
  planned_for list P es plan zero_grant merges reason from h =
      let groups = groups_of [] es.entries in
      let start = report_groups-desired reads no_plan groups in
      add_each-HasReasons reads managed (IsEntryOf es) (IsListed reads) list P merges reason
        (list_groups reads groups) (report_groups reads no_plan groups) es.entries
        (both_all (λ e. Among e es.entries) (IsInManaged managed_schemas) es.entries
          (all-Among es.entries) (entries-managed server_version managed_schemas schemas es from))
        (λ e g. group_at-IsListed reads es.entries e g)
        (subst (HasReasons list P) (sym start)
          (λ k x c. absurd (ground (arith, c, ap (λ l. contains l x) zero_grant))))
        plan h

  -- The privileges, and the grant options, of the result.
  planned_all :
      (es : Entries) (plan : ObjectPlan)
      → entries server_version managed_schemas schemas ≡ ok es
      → add_each reads managed
          (list_groups reads (groups_of [] es.entries))
          (report_groups reads no_plan (groups_of [] es.entries))
          es.entries
        ≡ ok plan
      → HasReasons
          (λ g. g.privileges)
          (λ k x. (e : ObjectEntry) × (o : SchemaObject) × IsCalledFor es e o k x)
          plan.desired
        × HasReasons
            (λ g. g.grant_options)
            (λ k x.
              (e : ObjectEntry) × (o : SchemaObject) × (e.with_grant_option ≡ true)
              × IsCalledFor es e o k x)
            plan.desired
  unfolding merge_grant desired_grant contains
  planned_all es plan from h = (
    planned_for (λ g. g.privileges) _ es plan refl
        (λ a b x. contains-union a.privileges b.privileges x)
        (λ e o privs known listed asked x c.
          (e, o, (from, known.0, known.1, refl, (asked x c).0, listed, (asked x c).1)))
        from h,
    planned_for (λ g. g.grant_options) _ es plan refl
        (λ a b x. contains-union a.grant_options b.grant_options x)
        (λ e o privs known listed asked x c.
          option e o privs known listed asked x (Bool-cases e.with_grant_option) c)
        from h,
  )
    where
      option :
          (e : ObjectEntry) (o : SchemaObject) (privs : List Text)
          → IsEntryOf es e
          → IsListed reads e o
          → ((x : Text)
              → contains privs x ≡ true
              → IsAsked reads managed (IsEntryOf es) (IsListed reads) e o x)
          → (x : Text) → (e.with_grant_option ≡ true) ⊎ (e.with_grant_option ≡ false)
          → contains (if e.with_grant_option then privs else []) x ≡ true
          → (e' : ObjectEntry) × (o' : SchemaObject) × (e'.with_grant_option ≡ true)
            × IsCalledFor es e' o' (key (target_of e o)) x
      option e o privs known listed asked x (inr f) c = absurd (ground (arith, c, f))
      option e o privs known listed asked x (inl f) c =
          let given : contains privs x ≡ true = ground (arith, c, f) in
          (e, o, f, (from, known.0, known.1, refl, (asked x given).0, listed, (asked x given).1))

  -- Every privilege that the planner wants granted is called for: an entry of the spec asks for it, in
  -- a schema that the Database manages and that is not the system's, for an object that is listed in
  -- that schema, of the entry's kind, and that the entry selects by "*", its name or its signature; and
  -- that object is in no extension and either its owner is a role that a Role of the Cluster manages, no
  -- superuser, or the operator owns it and the rules for such objects permit the privilege.
  pub plan_objects-IsCalledFor :
      (plan : ObjectPlan)
      → plan_objects reads managed server_version managed_schemas schemas ≡ ok plan
      → (k x : Text) → contains (get plan.desired k).privileges x ≡ true
      → (es : Entries) × (e : ObjectEntry) × (o : SchemaObject) × IsCalledFor es e o k x
  unfolding plan_objects
  plan_objects-IsCalledFor plan h k x c =
      of_entries (entries server_version managed_schemas schemas) refl h
    where
      of_plan :
          (es : Entries) (r : Result CallError ObjectPlan)
          → entries server_version managed_schemas schemas ≡ ok es
          → add_each reads managed
              (list_groups reads (groups_of [] es.entries))
              (report_groups reads no_plan (groups_of [] es.entries))
              es.entries
            ≡ r
          → plan_or_error r ≡ ok plan
          → (es : Entries) × (e : ObjectEntry) × (o : SchemaObject) × IsCalledFor es e o k x
      of_plan es (err e) p q a = cc
      of_plan es (ok out) p q a =
          let same : out ≡ plan = ground (arith, a) in
          let (e, o, call) = (planned_all es plan p (q ∙ ap ok same)).0 k x c in (es, e, o, call)

      of_entries :
          (r : Result EntryError Entries)
          → entries server_version managed_schemas schemas ≡ r
          → (entries_or_error r >>= λ es. plan_or_error (
              add_each reads managed
                (list_groups reads (groups_of [] es.entries))
                (report_groups reads no_plan (groups_of [] es.entries))
                es.entries))
            ≡ ok plan
          → (es : Entries) × (e : ObjectEntry) × (o : SchemaObject) × IsCalledFor es e o k x
      of_entries (err e) p a = cc
      of_entries (ok es) p a =
          of_plan es
            (add_each reads managed (list_groups reads (groups_of [] es.entries))
              (report_groups reads no_plan (groups_of [] es.entries)) es.entries)
            p refl a
