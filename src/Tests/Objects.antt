-- ===== src/Tests/Objects.antt =====
-- Object grants of a schema with a table of the operator, one of a managed role and one of a
-- superuser.
use pgop.Prelude.{ℕ, Bool, true, false, List, [], ◌∷◌, ◌≡◌, refl, none, some, ok, contains, length}
use pgop.Text.{Text, text_eq, text}
use pgop.Grants.Target.{key}
use pgop.Grants.Ledger.{get}
use pgop.Policy.Roles.{ReachableRole, ManagedRoles}
use pgop.Objects.{SchemaObject, ObjectKind, table}
use pgop.Objects.Entries.{SchemaSpec, ObjectEntry, Entries}
use pgop.Objects.Groups.{ObjectReads}
use pgop.Objects.Planner.{ObjectPlan, plan_objects}
use pgop.Objects.Desired.{IsCalledFor, plan_objects-IsCalledFor}

abbrev object : ℕ → Text → Text → Bool → Bool → SchemaObject
object oid name owner super mine = record {
  oid = oid;
  identity = name;
  name = name;
  owner = owner;
  owner_superuser = super;
  owner_is_session_user = mine;
  extension = [];
  security_definer = false;
  language = [];
  sub_kind = text "r";
}

abbrev reader : Text
reader = text "reader"

abbrev owner_role : ReachableRole
owner_role = record {
  name = text "app";
  via = [];
  comment = text "mark";
  superuser = false;
  create_role = false;
  replication = false;
  bypass_rls = false;
}

abbrev managed : ManagedRoles
managed = (text "app", text "mark") ∷ []

abbrev reads : ObjectReads
reads = record {
  resolve_routine = λ schema name args. ok none;
  list_objects = λ schema kind sel. ok (
      object 1 (text "a") (text "pgop_operator") true true
      ∷ object 2 (text "b") (text "app") false false
      ∷ object 3 (text "c") (text "root") true false
      ∷ []);
  lookup_role = λ name. ok (some owner_role);
}

abbrev schemas : List SchemaSpec
schemas =
    record {
      name = text "s";
      object_grants =
          record {
            role = reader;
            kind = text "table";
            objects = text "*" ∷ [];
            privileges = text "select" ∷ text "trigger" ∷ [];
            with_grant_option = false;
          }
          ∷ [];
    }
    ∷ []

abbrev key_of_a : Text
key_of_a = text "TABLE|#1|\"reader\""

abbrev empty_plan : ObjectPlan
empty_plan = record {
  desired = [];
  by_field = [];
  skipped = [];
  refused = [];
  not_found = [];
  too_many = [];
  list_errors = [];
}

abbrev the_plan : ObjectPlan
the_plan = elim (plan_objects reads managed 160000 (text "s" ∷ []) schemas) [
  | ok p ↦ p
  | _ ↦ empty_plan
]

counted : length the_plan.desired ≡ 2
unfolding plan_objects contains pgop.Text.text_beq pgop.Objects.system_schema_name
    pgop.Text.Strings.has_prefix pgop.Objects.object_kind_of
    pgop.Objects.normalize_object_privileges pgop.Text.Strings.to_upper pgop.Text.Strings.join
    pgop.Text.Strings.fields pgop.Policy.Roles.canonical_grantee pgop.Text.Strings.equal_fold
    pgop.Objects.drop_maintain pgop.Text.Sort.compact pgop.Text.Sort.sort
    pgop.Policy.Roles.marker_of pgop.Policy.Grantee.grantee_name_problem get pgop.Grants.Ledger.keys
    pgop.Grants.Ledger.put pgop.Grants.Sets.intersect pgop.Grants.Sets.subtract
    pgop.Grants.Target.desired_grant key pgop.Objects.object_target pgop.Policy.Roles.manages
    pgop.Text.Strings.byte_length pgop.Text.Strconv.format_int pgop.Text.Strconv.quote
counted = refl

is_planned : plan_objects reads managed 160000 (text "s" ∷ []) schemas ≡ ok the_plan
unfolding plan_objects contains pgop.Text.text_beq pgop.Objects.system_schema_name
    pgop.Text.Strings.has_prefix pgop.Objects.object_kind_of
    pgop.Objects.normalize_object_privileges pgop.Text.Strings.to_upper pgop.Text.Strings.join
    pgop.Text.Strings.fields pgop.Policy.Roles.canonical_grantee pgop.Text.Strings.equal_fold
    pgop.Objects.drop_maintain pgop.Text.Sort.compact pgop.Text.Sort.sort
    pgop.Policy.Roles.marker_of pgop.Policy.Grantee.grantee_name_problem get pgop.Grants.Ledger.keys
    pgop.Grants.Ledger.put pgop.Grants.Sets.intersect pgop.Grants.Sets.subtract
    pgop.Grants.Target.desired_grant key pgop.Objects.object_target pgop.Policy.Roles.manages
    pgop.Text.Strings.byte_length pgop.Text.Strconv.format_int pgop.Text.Strconv.quote
is_planned = refl

reads_a : contains (get the_plan.desired key_of_a).privileges (text "SELECT") ≡ true
unfolding plan_objects contains pgop.Text.text_beq pgop.Objects.system_schema_name
    pgop.Text.Strings.has_prefix pgop.Objects.object_kind_of
    pgop.Objects.normalize_object_privileges pgop.Text.Strings.to_upper pgop.Text.Strings.join
    pgop.Text.Strings.fields pgop.Policy.Roles.canonical_grantee pgop.Text.Strings.equal_fold
    pgop.Objects.drop_maintain pgop.Text.Sort.compact pgop.Text.Sort.sort
    pgop.Policy.Roles.marker_of pgop.Policy.Grantee.grantee_name_problem get pgop.Grants.Ledger.keys
    pgop.Grants.Ledger.put pgop.Grants.Sets.intersect pgop.Grants.Sets.subtract
    pgop.Grants.Target.desired_grant key pgop.Objects.object_target pgop.Policy.Roles.manages
    pgop.Text.Strings.byte_length pgop.Text.Strconv.format_int pgop.Text.Strconv.quote
reads_a = refl

-- TRIGGER is not granted on the operator's table, but on the managed role's.
no_trigger_on_a : contains (get the_plan.desired key_of_a).privileges (text "TRIGGER") ≡ false
unfolding plan_objects contains pgop.Text.text_beq pgop.Objects.system_schema_name
    pgop.Text.Strings.has_prefix pgop.Objects.object_kind_of
    pgop.Objects.normalize_object_privileges pgop.Text.Strings.to_upper pgop.Text.Strings.join
    pgop.Text.Strings.fields pgop.Policy.Roles.canonical_grantee pgop.Text.Strings.equal_fold
    pgop.Objects.drop_maintain pgop.Text.Sort.compact pgop.Text.Sort.sort
    pgop.Policy.Roles.marker_of pgop.Policy.Grantee.grantee_name_problem get pgop.Grants.Ledger.keys
    pgop.Grants.Ledger.put pgop.Grants.Sets.intersect pgop.Grants.Sets.subtract
    pgop.Grants.Target.desired_grant key pgop.Objects.object_target pgop.Policy.Roles.manages
    pgop.Text.Strings.byte_length pgop.Text.Strconv.format_int pgop.Text.Strconv.quote
no_trigger_on_a = refl

plan_objects-IsCalledFor_example :
    (es : Entries) × (e : ObjectEntry) × (o : SchemaObject) × IsCalledFor reads managed 160000
      (text "s" ∷ [])
      schemas
      es
      e
      o
      key_of_a
      (text "SELECT")
plan_objects-IsCalledFor_example =
    plan_objects-IsCalledFor reads managed 160000 (text "s" ∷ []) schemas the_plan is_planned
      key_of_a (text "SELECT") reads_a
