-- ===== src/Objects/Planner.antt =====
-- The planner of object grants, internal/controller/database_object_grants.go: `add`, `plan` and what
-- they keep.
use pgop.Prelude.{
  ℕ, ◌&&◌, List, [], ◌∷◌, ◌++◌, nat_eq, ltb, length, contains, is_empty, if◌then◌else◌, Option,
  none, some, Result, ok, err, ◌>>=◌,
}
use pgop.Text.{Text, text_eq}
use pgop.Text.Sort.{sort, compact}
use pgop.Text.Strings.{byte_length}
use pgop.Grants.Engine.{CallError}
use pgop.Grants.Sets.{intersect, subtract}
use pgop.Grants.Target.{PrivilegeGrant, key, desired_grant}
use pgop.Grants.Ledger.{Ledger, get, put, keys, merge_grant}
use pgop.Policy.Roles.{ManagedRoles}
use pgop.Objects.{object_target, SchemaObject}
use pgop.Objects.Entries.{SchemaSpec, ObjectEntry, EntryError, Entries, entries}
use pgop.Objects.Owners.{Skip, OwnerVerdict, owner_problem, name_too_long, privileges_denied}
use pgop.Objects.Groups.{
  ObjectReads, ObjectGroup, group_key, key_of_group, groups_of, max_objects_per_kind, select_names,
  first_selector, list_groups, missing_names, selected, group_at,
}

-- What the planner works out.
pub record ObjectPlan : Type 0 where
  pub desired : Ledger
  pub by_field : List (Text × Text)
  pub skipped : List (Text × Text × Skip)
  pub refused : List (Text × Text × Text × Skip)
  pub not_found : List (Text × Text)
  pub too_many : List Text
  pub list_errors : List CallError

abbrev pub max_identity_length : ℕ
max_identity_length = 1024

-- What is reported of the groups: signatures that do not parse, lists that fail or are too long.
abbrev pub bad_signatures : ObjectGroup → List Text → List (Text × Text)
bad_signatures g [] = []
bad_signatures g (n ∷ ns) = (key_of_group g, n) ∷ bad_signatures g ns

abbrev pub reported : ObjectPlan → ObjectGroup → Result CallError (List SchemaObject) → ObjectPlan
reported p g (err e) = record p { list_errors = p.list_errors ++ e ∷ [] }
reported p g (ok objects) =
    if g.all && ltb max_objects_per_kind (length objects)
    then record p { too_many = p.too_many ++ key_of_group g ∷ [] }
    else p

unfoldable pub report_group : ObjectReads → ObjectPlan → ObjectGroup → ObjectPlan
unfolding select_names
report_group reads p g =
    let out = select_names reads (compact (sort g.names)) (g, first_selector g.all) in
    reported (record p { not_found = p.not_found ++ bad_signatures g out.0.bad_sigs }) g
      (reads.list_objects g.schema g.kind out.1)

unfoldable pub report_groups : ObjectReads → ObjectPlan → List ObjectGroup → ObjectPlan
unfolding report_group
report_groups reads p [] = p
report_groups reads p (g ∷ gs) = report_groups reads (report_group reads p g) gs

-- What is left of the privileges, and the reason if something is not.
abbrev pub Granted : Type 0
Granted = List Text × Option Skip

unfoldable pub granted_on : ObjectEntry → SchemaObject → OwnerVerdict → Granted
unfolding byte_length
granted_on e o (some why, denied) = ([], some why)
granted_on e o (none, denied) =
    if ltb max_identity_length (byte_length o.identity)
    then ([], some name_too_long)
    else if is_empty (intersect e.privileges denied)
    then (e.privileges, none)
    else (
      subtract e.privileges (intersect e.privileges denied),
      some (privileges_denied (intersect e.privileges denied)),
    )

abbrev pub with_skip : ObjectPlan → ObjectEntry → SchemaObject → Option Skip → ObjectPlan
with_skip p e o none = p
with_skip p e o (some why) = record p {
  skipped = p.skipped ++ (group_key e.schema e.kind, o.identity, why) ∷ [];
  refused = if e.all then p.refused else p.refused ++ (e.field, e.grantee, o.identity, why) ∷ [];
}

-- p.desired[k], merged with what was there
unfoldable pub with_desired : ObjectPlan → ObjectEntry → PrivilegeGrant → ObjectPlan
with_desired p e d =
    let k = key d.target in
    if contains (keys p.desired) k
    then record p { desired = put p.desired k (merge_grant (get p.desired k) d) }
    else record p { desired = put p.desired k d; by_field = p.by_field ++ (e.field, k) ∷ [] }

unfoldable pub add_granted : ObjectPlan → ObjectEntry → SchemaObject → Granted → ObjectPlan
unfolding with_desired
add_granted p e o (privs, why) =
    if is_empty privs
    then with_skip p e o why
    else with_desired (with_skip p e o why) e (
        desired_grant (object_target e.kind e.schema o.identity o.oid e.grantee) privs
          e.with_grant_option)

-- `add`
unfoldable pub add :
    ObjectReads
    → ManagedRoles
    → ObjectPlan
    → ObjectEntry
    → SchemaObject
    → Result CallError ObjectPlan
unfolding owner_problem granted_on add_granted
add reads managed p e o = do
  verdict ← owner_problem reads.lookup_role managed e.kind o
  ok (add_granted p e o (granted_on e o verdict))

unfoldable pub add_all :
    ObjectReads
    → ManagedRoles
    → ObjectPlan
    → ObjectEntry
    → List SchemaObject
    → Result CallError ObjectPlan
unfolding add
add_all reads managed p e [] = ok p
add_all reads managed p e (o ∷ os) = do
  next ← add reads managed p e o
  add_all reads managed next e os

-- What the last loop of `plan` does for an entry.
abbrev pub add_entry :
    ObjectReads
    → ManagedRoles
    → ObjectPlan
    → ObjectEntry
    → Option ObjectGroup
    → Result CallError ObjectPlan
add_entry reads managed p e none = ok p
add_entry reads managed p e (some g) =
    if g.failed
    then ok p
    else add_all reads managed
        (record p {
          not_found = if e.all then p.not_found else p.not_found ++ missing_names g e.field e.names;
        })
        e (selected e g)

unfoldable pub add_each :
    ObjectReads
    → ManagedRoles
    → List ObjectGroup
    → ObjectPlan
    → List ObjectEntry
    → Result CallError ObjectPlan
unfolding add_all group_at selected missing_names
add_each reads managed groups p [] = ok p
add_each reads managed groups p (e ∷ es) = do
  next ← add_entry reads managed p e (group_at groups (group_key e.schema e.kind))
  add_each reads managed groups next es

abbrev pub no_plan : ObjectPlan
no_plan = record {
  desired = [];
  by_field = [];
  skipped = [];
  refused = [];
  not_found = [];
  too_many = [];
  list_errors = [];
}

pub data PlanError : Type 0 where
  bad_entry : EntryError → PlanError
  read_failed : CallError → PlanError

abbrev pub entries_or_error : Result EntryError Entries → Result PlanError Entries
entries_or_error (ok es) = ok es
entries_or_error (err e) = err (bad_entry e)

abbrev pub plan_or_error : Result CallError ObjectPlan → Result PlanError ObjectPlan
plan_or_error (ok p) = ok p
plan_or_error (err e) = err (read_failed e)

-- `plan`, of the schemas that the Database manages
unfoldable pub plan_objects :
    ObjectReads → ManagedRoles → ℕ → List Text → List SchemaSpec → Result PlanError ObjectPlan
unfolding entries groups_of list_groups report_groups add_each
plan_objects reads managed server_version managed_schemas schemas = do
  es ← entries_or_error (entries server_version managed_schemas schemas)
  let groups = groups_of [] es.entries
  plan_or_error (
      add_each reads managed (list_groups reads groups) (report_groups reads no_plan groups)
        es.entries)
