-- ===== src/Objects/Groups.antt =====
-- The objects that entries select, one group for each kind and schema: `group`, `list` and `selected`
-- of internal/controller/database_object_grants.go. The catalog queries are parameters, whose answers
-- are fixed for a reconcile.
use pgop.Prelude.{
  ℕ, Bool, true, false, ◌+◌, ◌&&◌, ◌||◌, List, [], ◌∷◌, ◌++◌, ◌==◌, nat_eq, ltb, length, contains,
  is_empty, if◌then◌else◌, Option, none, some, Result, ok, err,
}
use pgop.Text.{Text, text_eq}
use pgop.Text.Sort.{sort, compact}
use pgop.Grants.Engine.{CallError}
use pgop.Policy.Grantee.{Lookup}
use pgop.Objects.{ObjectKind, pg_name, is_routine, parse_routine_name, SchemaObject}
use pgop.Objects.Entries.{ObjectEntry}

-- `postgres.SchemaObjectSelector`; a limit of 0 is none
pub record Selector : Type 0 where
  pub all : Bool
  pub limit : ℕ
  pub names : List Text
  pub oids : List ℕ

pub record ObjectReads : Type 0 where
  pub resolve_routine : Text → Text → Text → Result CallError (Option ℕ)
  pub list_objects : Text → ObjectKind → Selector → Result CallError (List SchemaObject)
  pub lookup_role : Lookup

-- `objectGroup`; `failed` is that the objects could not be listed, or are too many
pub record ObjectGroup : Type 0 where
  pub schema : Text
  pub kind : ObjectKind
  pub all : Bool
  pub names : List Text
  pub sigs : List (Text × ℕ)
  pub bad_sigs : List Text
  pub objects : List SchemaObject
  pub failed : Bool

-- `groupKey`
abbrev pub group_key : Text → ObjectKind → Text
group_key schema kind = schema ++ (b'|' ∷ pg_name kind)

abbrev pub key_of_group : ObjectGroup → Text
key_of_group g = group_key g.schema g.kind

-- The group of an entry takes up what it selects; a new one is the last of `order`.
unfoldable pub add_to_groups : List ObjectGroup → ObjectEntry → List ObjectGroup
add_to_groups [] e =
    record {
      schema = e.schema;
      kind = e.kind;
      all = e.all;
      names = e.names;
      sigs = [];
      bad_sigs = [];
      objects = [];
      failed = false;
    }
    ∷ []
add_to_groups (g ∷ gs) e =
    let rest = add_to_groups gs e in
    if key_of_group g == group_key e.schema e.kind
    then record g { all = g.all || e.all; names = g.names ++ e.names } ∷ gs
    else g ∷ rest

unfoldable pub groups_of : List ObjectGroup → List ObjectEntry → List ObjectGroup
unfolding add_to_groups
groups_of gs [] = gs
groups_of gs (e ∷ es) = groups_of (add_to_groups gs e) es

abbrev pub max_objects_per_kind : ℕ
max_objects_per_kind = 5000

-- A signature that was looked up: not parsed, unknown, or the routine's OID.
abbrev pub with_routine :
    Text → Result CallError (Option ℕ) → ObjectGroup × Selector → ObjectGroup × Selector
with_routine n (err e) (g, sel) = (record g { bad_sigs = n ∷ g.bad_sigs }, sel)
with_routine n (ok none) (g, sel) = (g, sel)
with_routine n (ok (some oid)) (g, sel) =
    (record g { sigs = (n, oid) ∷ g.sigs }, record sel { oids = sel.oids ++ oid ∷ [] })

abbrev pub select_name :
    ObjectReads → Text → Option (Text × Text) → ObjectGroup × Selector → ObjectGroup × Selector
select_name reads n none (g, sel) = (g, record sel { names = sel.names ++ n ∷ [] })
select_name reads n (some (name, args)) (g, sel) =
    if is_routine g.kind
    then with_routine n (reads.resolve_routine g.schema name args) (g, sel)
    else (g, record sel { names = sel.names ++ n ∷ [] })

-- The loop of `list` over the sorted names.
unfoldable pub select_names :
    ObjectReads → List Text → ObjectGroup × Selector → ObjectGroup × Selector
unfolding parse_routine_name is_routine
select_names reads [] gs = gs
select_names reads (n ∷ ns) gs =
    select_names reads ns (select_name reads n (parse_routine_name n) gs)

abbrev pub listed_group : ObjectGroup → Result CallError (List SchemaObject) → ObjectGroup
listed_group g (err e) = record g { failed = true }
listed_group g (ok objects) =
    if g.all && ltb max_objects_per_kind (length objects)
    then record g { failed = true }
    else record g { objects = objects }

abbrev pub first_selector : Bool → Selector
first_selector all = record {
  all = all;
  limit = if all then max_objects_per_kind + 1 else 0;
  names = [];
  oids = [];
}

-- `list`
unfoldable pub list_group : ObjectReads → ObjectGroup → ObjectGroup
unfolding select_names
list_group reads g =
    let out = select_names reads (compact (sort g.names)) (g, first_selector g.all) in
    listed_group out.0 (reads.list_objects g.schema g.kind out.1)

unfoldable pub list_groups : ObjectReads → List ObjectGroup → List ObjectGroup
unfolding list_group
list_groups reads [] = []
list_groups reads (g ∷ gs) = list_group reads g ∷ list_groups reads gs

unfoldable pub oid_of : List (Text × ℕ) → Text → Option ℕ
oid_of [] n = none
oid_of ((m, oid) ∷ sigs) n = if m == n then some oid else oid_of sigs n

abbrev pub has_oid : SchemaObject → Option ℕ → Bool
has_oid o none = false
has_oid o (some oid) = o.oid == oid

abbrev pub is_signature : Option (Text × Text) → Bool
is_signature none = false
is_signature (some p) = true

-- Whether the name of an entry selects the object.
unfoldable pub matches : ObjectGroup → Text → SchemaObject → Bool
unfolding oid_of parse_routine_name
matches g n o =
    if is_routine g.kind && is_signature (parse_routine_name n)
    then has_oid o (oid_of g.sigs n)
    else o.name == n

unfoldable pub matching : ObjectGroup → Text → List SchemaObject → List SchemaObject
unfolding matches
matching g n [] = []
matching g n (o ∷ os) = let rest = matching g n os in if matches g n o then o ∷ rest else rest

-- `selected`, and the names that match nothing
unfoldable pub selected_names : ObjectGroup → List Text → List SchemaObject
unfolding matching
selected_names g [] = []
selected_names g (n ∷ ns) =
    let rest = selected_names g ns in
    if is_routine g.kind && contains g.bad_sigs n then rest else matching g n g.objects ++ rest

unfoldable pub missing_names : ObjectGroup → Text → List Text → List (Text × Text)
unfolding matching
missing_names g field [] = []
missing_names g field (n ∷ ns) =
    let rest = missing_names g field ns in
    if is_routine g.kind && contains g.bad_sigs n
    then rest
    else if is_empty (matching g n g.objects)
    then (field, n) ∷ rest
    else rest

unfoldable pub selected : ObjectEntry → ObjectGroup → List SchemaObject
unfolding selected_names
selected e g = if e.all then g.objects else selected_names g e.names

unfoldable pub group_at : List ObjectGroup → Text → Option ObjectGroup
group_at [] k = none
group_at (g ∷ gs) k = if key_of_group g == k then some g else group_at gs k
