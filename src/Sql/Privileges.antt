-- ===== src/Sql/Privileges.antt =====
-- The checks of internal/postgres/privileges.go: which privilege words and parameter names may
-- stand in a statement, and the form they take there.
pub mod Laws
pub mod Normal
pub mod Names
use pgop.Prelude.{
  ℕ, Bool, true, false, not, ◌&&◌, ◌||◌, List, [], ◌∷◌, ◌++◌, ◌==◌, nat_eq, leb, ltb, map, length,
  if◌then◌else◌, contains, Result, ok, err, ◌>>=◌,
}
use pgop.Text.{Text, text_eq, text}
use pgop.Text.Strings.{join, fields, to_upper, to_lower, has_prefix, equal_fold}
use pgop.Text.Sort.{sort, compact}

pub data SqlError : Type 0 where
  no_privileges : Text → SqlError
  invalid_privilege : Text → Text → SqlError
  invalid_parameter_name : Text → SqlError
  unsupported_kind : Text → SqlError
  empty_object_name empty_grantee grant_option_to_public empty_role : SqlError
  reserved_grantee : Text → SqlError
  unterminated_quote empty_element : SqlError
  invalid_element : Text → SqlError
  unexpected_rune : ℕ → SqlError
  empty_list : Text → SqlError

abbrev pub privilege_all : Text
privilege_all = text "ALL"

abbrev pub privilege_connect : Text
privilege_connect = text "CONNECT"

abbrev pub privilege_create : Text
privilege_create = text "CREATE"

abbrev pub privilege_temporary : Text
privilege_temporary = text "TEMPORARY"

abbrev pub privilege_temp : Text
privilege_temp = text "TEMP"

abbrev pub privilege_usage : Text
privilege_usage = text "USAGE"

abbrev pub privilege_set : Text
privilege_set = text "SET"

abbrev pub schema_privileges : List Text
schema_privileges = privilege_usage ∷ privilege_create ∷ privilege_all ∷ []

abbrev pub database_privileges : List Text
database_privileges =
    privilege_connect ∷ privilege_create ∷ privilege_temporary ∷ privilege_temp ∷ privilege_all ∷ []

abbrev pub parameter_privileges : List Text
parameter_privileges = privilege_set ∷ []

-- The word of a privilege that is looked up in the allow-list.
unfoldable pub privilege_word : Text → Text
privilege_word p =
    let u = to_upper (join (fields p) (text " ")) in
    if u == text "ALL PRIVILEGES" then privilege_all else u

-- The loop of `checkPrivileges`, with `out`.
unfoldable pub check_each : Text → List Text → List Text → List Text → Result SqlError (List Text)
unfolding privilege_word
check_each kind allowed out [] = ok out
check_each kind allowed out (p ∷ ps) =
    let u = privilege_word p in
    let rest = check_each kind allowed (if contains out u then out else out ++ u ∷ []) ps in
    if not (contains allowed u) then err (invalid_privilege kind p) else rest

unfoldable pub check_privileges : Text → List Text → List Text → Result SqlError (List Text)
unfolding check_each
check_privileges kind [] allowed = err (no_privileges kind)
check_privileges kind (p ∷ ps) allowed = check_each kind allowed [] (p ∷ ps)

unfoldable pub expand_database_privilege : Text → List Text
expand_database_privilege p =
    if p == privilege_all
    then privilege_connect ∷ privilege_create ∷ privilege_temporary ∷ []
    else if p == privilege_temp
    then privilege_temporary ∷ []
    else p ∷ []

unfoldable pub expand_schema_privilege : Text → List Text
expand_schema_privilege p =
    if p == privilege_all then privilege_create ∷ privilege_usage ∷ [] else p ∷ []

unfoldable pub expand_all : (Text → List Text) → List Text → List Text
expand_all expand [] = []
expand_all expand (p ∷ ps) = expand p ++ expand_all expand ps

unfoldable pub normalize_database_privileges : List Text → Result SqlError (List Text)
unfolding check_privileges expand_database_privilege
normalize_database_privileges privs = do
  checked ← check_privileges (text "database") privs database_privileges
  ok (compact (sort (expand_all expand_database_privilege checked)))

unfoldable pub normalize_schema_privileges : List Text → Result SqlError (List Text)
unfolding check_privileges expand_schema_privilege
normalize_schema_privileges privs = do
  checked ← check_privileges (text "schema") privs schema_privileges
  ok (compact (sort (expand_all expand_schema_privilege checked)))

unfoldable pub normalize_parameter_privileges : List Text → Result SqlError (List Text)
unfolding check_privileges
normalize_parameter_privileges [] = ok (privilege_set ∷ [])
normalize_parameter_privileges (p ∷ ps) = do
  out ← check_privileges (text "parameter") (p ∷ ps) parameter_privileges
  ok (sort out)

abbrev pub max_parameter_name_length : ℕ
max_parameter_name_length = 127

-- [A-Za-z_]
unfoldable pub is_name_start : ℕ → Bool
is_name_start c = (leb b'A' c && leb c b'Z') || (leb b'a' c && leb c b'z') || c == b'_'

-- [A-Za-z0-9_]
unfoldable pub is_name_rune : ℕ → Bool
unfolding is_name_start
is_name_rune c = is_name_start c || (leb b'0' c && leb c b'9')

-- `parameterNameRe`, as the automaton that it stands for: whether a part of the name is open.
unfoldable pub matches_parameter_name : Bool → Text → Bool
matches_parameter_name part_open [] = part_open
matches_parameter_name false (c ∷ cs) = is_name_start c && matches_parameter_name true cs
matches_parameter_name true (c ∷ cs) =
    let dot = c == b'.' in
    let rest = matches_parameter_name (not dot) cs in (dot || is_name_rune c) && rest

-- A name that matches is ASCII, so its bytes are its runes.
unfoldable pub normalize_parameter_name : Text → Result SqlError Text
unfolding matches_parameter_name
normalize_parameter_name name =
    if ltb max_parameter_name_length (length name) || not (matches_parameter_name false name)
    then err (invalid_parameter_name name)
    else ok (to_lower name)

abbrev pub denied_parameters : List Text
denied_parameters =
    text "role"
    ∷ text "session_authorization"
    ∷ text "session_preload_libraries"
    ∷ text "local_preload_libraries"
    ∷ text "shared_preload_libraries"
    ∷ text "dynamic_library_path"
    ∷ text "jit_provider"
    ∷ text "session_replication_role"
    ∷ text "lo_compat_privileges"
    ∷ []

abbrev pub denied_parameter_prefixes : List Text
denied_parameter_prefixes = text "pgaudit." ∷ text "set_user." ∷ text "anon." ∷ text "sepgsql." ∷ []

unfoldable pub has_any_prefix : Text → List Text → Bool
has_any_prefix n [] = false
has_any_prefix n (p ∷ ps) = has_prefix n p || has_any_prefix n ps

unfoldable pub denied_parameter : Text → Bool
unfolding has_any_prefix
denied_parameter name =
    let n = to_lower name in
    contains denied_parameters n || has_any_prefix n denied_parameter_prefixes
