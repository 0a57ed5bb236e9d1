-- ===== src/Objects.antt =====
-- Objects in schemas, and what may be granted on them: kinds, privileges and targets of
-- internal/controller/database_object_grants.go, with `SchemaObject` of internal/postgres/objects.go.
pub mod Entries
pub mod Owners
pub mod Groups
pub mod Listed
pub mod Planner
pub mod Safety
pub mod Justified
pub mod Desired
use pgop.Prelude.{
  ℕ, Bool, true, false, not, ◌&&◌, ◌||◌, List, [], ◌∷◌, ◌++◌, ◌==◌, nat_eq, leb, contains, is_empty,
  if◌then◌else◌, Option, none, some, Result, ok, err, ◌>>=◌,
}
use pgop.Text.{Text, text_eq, text}
use pgop.Text.Sort.{sort, compact}
use pgop.Text.Strings.{to_upper, fields, join, cut, has_prefix}
use pgop.Grants.Sets.{subtract}
use pgop.Grants.Target.{GrantTarget}
use pgop.Policy.Roles.{canonical_grantee}

-- `objectKindInfos`: the kinds, with their names in the API and in PostgreSQL
pub data ObjectKind : Type 0 where
  table sequence function procedure type : ObjectKind

abbrev pub api_name : ObjectKind → Text
api_name table = text "table"
api_name sequence = text "sequence"
api_name function = text "function"
api_name procedure = text "procedure"
api_name type = text "type"

abbrev pub pg_name : ObjectKind → Text
pg_name table = text "TABLE"
pg_name sequence = text "SEQUENCE"
pg_name function = text "FUNCTION"
pg_name procedure = text "PROCEDURE"
pg_name type = text "TYPE"

abbrev pub object_kinds : List ObjectKind
object_kinds = table ∷ sequence ∷ function ∷ procedure ∷ type ∷ []

unfoldable pub kind_among : Text → List ObjectKind → Option ObjectKind
kind_among k [] = none
kind_among k (kind ∷ kinds) =
    if api_name kind == k || pg_name kind == k then some kind else kind_among k kinds

-- `objectKindOf`
unfoldable pub object_kind_of : Text → Option ObjectKind
unfolding kind_among
object_kind_of k = kind_among k object_kinds

unfoldable pub is_routine : ObjectKind → Bool
is_routine function = true
is_routine procedure = true
is_routine _ = false

abbrev pub privilege_maintain : Text
privilege_maintain = text "MAINTAIN"

abbrev pub privilege_trigger : Text
privilege_trigger = text "TRIGGER"

-- `postgres.SchemaObjectPrivileges`
abbrev pub schema_object_privileges : ObjectKind → List Text
schema_object_privileges table =
    text "SELECT"
    ∷ text "INSERT"
    ∷ text "UPDATE"
    ∷ text "DELETE"
    ∷ text "TRUNCATE"
    ∷ text "REFERENCES"
    ∷ privilege_trigger
    ∷ privilege_maintain
    ∷ []
schema_object_privileges sequence = text "USAGE" ∷ text "SELECT" ∷ text "UPDATE" ∷ []
schema_object_privileges function = text "EXECUTE" ∷ []
schema_object_privileges procedure = text "EXECUTE" ∷ []
schema_object_privileges type = text "USAGE" ∷ []

pub data PrivilegeError : Type 0 where
  no_privileges : ObjectKind → PrivilegeError
  invalid_privilege : ObjectKind → Text → PrivilegeError

-- The switch of `normalizeObjectPrivileges`: what a word of the spec adds.
unfoldable pub expand_object_privilege : ObjectKind → Text → Result PrivilegeError (List Text)
expand_object_privilege kind p =
    let u = to_upper (join (fields p) (text " ")) in
    if u == text "ALL" || u == text "ALL PRIVILEGES"
    then ok (subtract (schema_object_privileges kind) (privilege_maintain ∷ []))
    else if contains (schema_object_privileges kind) u
    then ok (u ∷ [])
    else err (invalid_privilege kind p)

unfoldable pub expand_object_privileges : ObjectKind → List Text → Result PrivilegeError (List Text)
unfolding expand_object_privilege
expand_object_privileges kind [] = ok []
expand_object_privileges kind (p ∷ ps) = do
  these ← expand_object_privilege kind p
  rest ← expand_object_privileges kind ps
  ok (these ++ rest)

-- `normalizeObjectPrivileges`
unfoldable pub normalize_object_privileges :
    ObjectKind → List Text → Result PrivilegeError (List Text)
unfolding expand_object_privileges
normalize_object_privileges kind [] = err (no_privileges kind)
normalize_object_privileges kind (p ∷ ps) = do
  out ← expand_object_privileges kind (p ∷ ps)
  ok (compact (sort out))

abbrev pub min_maintain_privilege_version : ℕ
min_maintain_privilege_version = 170000

-- `dropMaintain`
unfoldable pub drop_maintain : List Text → ℕ → List Text × Bool
drop_maintain privs server_version =
    if leb min_maintain_privilege_version server_version || not (contains privs privilege_maintain)
    then (privs, false)
    else (subtract privs (privilege_maintain ∷ []), true)

-- `objectTarget`
unfoldable pub object_target : ObjectKind → Text → Text → ℕ → Text → GrantTarget
object_target kind schema identity oid grantee = record {
  kind = pg_name kind;
  name = identity;
  grantee = canonical_grantee grantee;
  schema = schema;
  for_role = [];
  oid = oid;
}

-- The text before a closing parenthesis at the end, strings.HasSuffix and the slice.
unfoldable pub before_close : Text → Option Text
before_close [] = none
before_close (c ∷ []) = if c == b')' then some [] else none
before_close (c ∷ d ∷ cs) = elim (before_close (d ∷ cs)) [
  | some args ↦ some (c ∷ args)
  | none ↦ none
]

abbrev pub signature_of : Text → Option Text → Option (Text × Text)
signature_of name none = none
signature_of name (some args) = some (name, args)

abbrev pub routine_parts : Option (Text × Text) → Option (Text × Text)
routine_parts none = none
routine_parts (some ([], rest)) = none
routine_parts (some (c ∷ name, rest)) = signature_of (c ∷ name) (before_close rest)

-- `parseRoutineName`: name and arguments, if the entry is a signature
unfoldable pub parse_routine_name : Text → Option (Text × Text)
unfolding before_close
parse_routine_name s = routine_parts (cut s b'(')

-- `systemSchemaName`
unfoldable pub system_schema_name : Text → Bool
system_schema_name name = has_prefix name (text "pg_") || name == text "information_schema"

-- `postgres.SchemaObject`, without the ACL that the engine reads
pub record SchemaObject : Type 0 where
  pub oid : ℕ
  pub identity : Text
  pub name : Text
  pub owner : Text
  pub owner_superuser : Bool
  pub owner_is_session_user : Bool
  pub extension : Text
  pub security_definer : Bool
  pub language : Text
  pub sub_kind : Text
