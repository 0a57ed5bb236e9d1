-- ===== src/Objects/Entries.antt =====
-- The object grants of the spec, as the planner of internal/controller/database_object_grants.go
-- normalizes them: `entries` and `entry`.
use pgop.Prelude.{
  ℕ, Bool, true, false, not, ◌&&◌, ◌||◌, List, [], ◌∷◌, ◌++◌, ◌==◌, nat_eq, contains, is_empty,
  if◌then◌else◌, Option, none, some, Result, ok, err, ◌>>=◌,
}
use pgop.Text.{Text, text_eq, text}
use pgop.Policy.Roles.{canonical_grantee}
use pgop.Sql.Statements.{public_grantee}
use pgop.Objects.{
  ObjectKind, PrivilegeError, object_kind_of, normalize_object_privileges, drop_maintain,
  system_schema_name,
}

-- `ObjectGrantSpec`, and a schema of the spec with its object grants
pub record ObjectGrantSpec : Type 0 where
  pub role : Text
  pub kind : Text
  pub objects : List Text
  pub privileges : List Text
  pub with_grant_option : Bool

pub record SchemaSpec : Type 0 where
  pub name : Text
  pub object_grants : List ObjectGrantSpec

-- `objectEntry`
pub record ObjectEntry : Type 0 where
  pub schema : Text
  pub field : Text
  pub kind : ObjectKind
  pub grantee : Text
  pub privileges : List Text
  pub with_grant_option : Bool
  pub all : Bool
  pub names : List Text

pub data EntryError : Type 0 where
  schema_listed_twice : Text → EntryError
  unsupported_kind : Text → EntryError
  of_privileges : PrivilegeError → EntryError
  option_to_public : EntryError
  no_objects : EntryError
  all_not_alone : EntryError

abbrev pub select_all : Text
select_all = text "*"

abbrev pub kind_or_error : Text → Option ObjectKind → Result EntryError ObjectKind
kind_or_error k none = err (unsupported_kind k)
kind_or_error k (some kind) = ok kind

abbrev pub privileges_or_error : Result PrivilegeError (List Text) → Result EntryError (List Text)
privileges_or_error (ok privs) = ok privs
privileges_or_error (err e) = err (of_privileges e)

-- The loop over the objects of a grant: whether all are selected, and the names. `alone` says that
-- there is one only.
unfoldable pub select_objects :
    Bool → Bool → List Text → List Text → Result EntryError (Bool × List Text)
select_objects alone all names [] = ok (all, names)
select_objects alone all names (o ∷ os) =
    let rest = select_objects alone true names os in
    let next = select_objects alone all (names ++ o ∷ []) os in
    if o == select_all then (if alone then rest else err all_not_alone) else next

abbrev pub is_single : List Text → Bool
is_single (o ∷ []) = true
is_single _ = false

abbrev pub field_of : Text → Text
field_of schema = text "schemas[" ++ (schema ++ text "].objectGrants")

-- `entry`, with whether MAINTAIN was dropped
unfoldable pub entry_of : ℕ → Text → ObjectGrantSpec → Result EntryError (ObjectEntry × Bool)
unfolding select_objects
entry_of server_version schema g = do
  kind ← kind_or_error g.kind (object_kind_of g.kind)
  privs ← privileges_or_error (normalize_object_privileges kind g.privileges)
  if canonical_grantee g.role == public_grantee && g.with_grant_option
      then err option_to_public
      else if is_empty g.objects
      then err no_objects
      else do
        selected ← select_objects (is_single g.objects) false [] g.objects
        let kept = drop_maintain privs server_version
        ok (
          record {
            schema = schema;
            field = field_of schema;
            kind = kind;
            grantee = canonical_grantee g.role;
            privileges = kept.0;
            with_grant_option = g.with_grant_option;
            all = selected.0;
            names = selected.1;
          },
          kept.1,
        )

-- What the planner keeps of the entries: the fields seen, the grantees that asked for MAINTAIN in
-- vain, and the entries that grant something.
pub record Entries : Type 0 where
  pub fields : List Text
  pub unsupported : List (Text × Text)
  pub entries : List ObjectEntry

abbrev pub with_entry : Entries → ObjectEntry × Bool → Entries
with_entry es (e, dropped) = record es {
  unsupported = if dropped then es.unsupported ++ (e.field, e.grantee) ∷ [] else es.unsupported;
  entries = if is_empty e.privileges then es.entries else es.entries ++ e ∷ [];
}

unfoldable pub add_entries : ℕ → Text → Entries → List ObjectGrantSpec → Result EntryError Entries
unfolding entry_of
add_entries server_version schema es [] = ok es
add_entries server_version schema es (g ∷ gs) = do
  e ← entry_of server_version schema g
  add_entries server_version schema (with_entry es e) gs

-- The body of the loop over the schemas.
unfoldable pub schema_entries : ℕ → List Text → Entries → SchemaSpec → Result EntryError Entries
unfolding add_entries
schema_entries server_version managed es s =
    if not (contains managed s.name) || system_schema_name s.name || is_empty s.object_grants
    then ok es
    else if contains es.fields (field_of s.name)
    then err (schema_listed_twice s.name)
    else add_entries server_version s.name
        (record es { fields = es.fields ++ field_of s.name ∷ [] }) s.object_grants

unfoldable pub entries_from : ℕ → List Text → Entries → List SchemaSpec → Result EntryError Entries
unfolding schema_entries
entries_from server_version managed es [] = ok es
entries_from server_version managed es (s ∷ ss) = do
  next ← schema_entries server_version managed es s
  entries_from server_version managed next ss

-- `entries`
unfoldable pub entries : ℕ → List Text → List SchemaSpec → Result EntryError Entries
unfolding entries_from
entries server_version managed schemas =
    entries_from server_version managed (record { fields = []; unsupported = []; entries = [] })
      schemas
