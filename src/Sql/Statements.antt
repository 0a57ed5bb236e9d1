-- ===== src/Sql/Statements.antt =====
-- The GRANT and REVOKE statements of internal/postgres/privileges.go.
pub mod Accepted
use pgop.Prelude.{
  ℕ, Bool, true, false, ◌&&◌, List, [], ◌∷◌, ◌++◌, ◌≡◌, refl, ◌==◌, nat_eq, map, if◌then◌else◌,
  Option, none, some, Result, ok, err, ◌>>=◌,
}
use pgop.Text.{Text, text_eq, text}
use pgop.Text.Strings.{join, equal_fold}
use pgop.Grants.Engine.{RevokeMode}
use pgop.Policy.Roles.{is_public}
use pgop.Sql.Quote.{quote_ident}
use pgop.Sql.Privileges.{
  SqlError, empty_object_name, empty_grantee, reserved_grantee, grant_option_to_public,
  unsupported_kind, check_privileges, normalize_parameter_name, database_privileges,
  schema_privileges, parameter_privileges,
}

-- strings.Split at a rune: the part that is open, and the parts behind it.
unfoldable pub split_at : Text → ℕ → Text × List Text
split_at [] sep = ([], [])
split_at (c ∷ cs) sep =
    let (part, parts) = split_at cs sep in
    if c == sep then ([], part ∷ parts) else (c ∷ part, parts)

unfoldable pub split : Text → ℕ → List Text
unfolding split_at
split s sep = let (part, parts) = split_at s sep in part ∷ parts

unfoldable pub quote_parameter_name : Text → Result SqlError Text
unfolding split
quote_parameter_name name = do
  n ← normalize_parameter_name name
  ok (join (map quote_ident (split n b'.')) (text "."))

unfoldable pub quoted_name : Text → Text → Result SqlError Text
quoted_name keyword [] = err empty_object_name
quoted_name keyword (c ∷ cs) = ok (keyword ++ text " " ++ quote_ident (c ∷ cs))

unfoldable pub render_parameter : Text → Result SqlError Text
unfolding quote_parameter_name
render_parameter name = do quoted ← quote_parameter_name name; ok (text "PARAMETER " ++ quoted)

-- `objectKind`
pub record Kind : Type 0 where
  pub label : Text
  pub privileges : List Text
  pub render : Text → Result SqlError Text

-- `objectKinds`
unfoldable pub object_kind : Text → Option Kind
unfolding quoted_name render_parameter
object_kind kind =
    if kind == text "DATABASE"
    then some (record {
      label = text "database";
      privileges = database_privileges;
      render = quoted_name (text "DATABASE");
    })
    else if kind == text "SCHEMA"
    then some (record {
      label = text "schema";
      privileges = schema_privileges;
      render = quoted_name (text "SCHEMA");
    })
    else if kind == text "PARAMETER"
    then some (record {
      label = text "parameter";
      privileges = parameter_privileges;
      render = render_parameter;
    })
    else none

pub record PrivilegeObject : Type 0 where
  pub kind : Text
  pub name : Text

unfoldable pub render_as :
    Option Kind → PrivilegeObject → List Text → Result SqlError (List Text × Text)
render_as none o privs = err (unsupported_kind o.kind)
render_as (some k) o privs = do
  checked ← check_privileges k.label privs k.privileges
  object ← k.render o.name
  ok (checked, object)

unfoldable pub render : PrivilegeObject → List Text → Result SqlError (List Text × Text)
unfolding object_kind render_as
render o privs = render_as (object_kind o.kind) o privs

abbrev pub public_grantee : Text
public_grantee = text "PUBLIC"

unfoldable pub render_grantee : Text → Result SqlError Text
render_grantee [] = err empty_grantee
render_grantee (c ∷ cs) =
    if is_public (c ∷ cs)
    then ok public_grantee
    else if equal_fold (c ∷ cs) (text "none")
    then err (reserved_grantee (c ∷ cs))
    else ok (quote_ident (c ∷ cs))

unfoldable pub build_grant_query : List Text → Text → Text → Bool → Text
build_grant_query privs object grantee with_option =
    text "GRANT "
    ++ join privs (text ", ")
    ++ text " ON "
    ++ object
    ++ text " TO "
    ++ grantee
    ++ (if with_option then text " WITH GRANT OPTION" else [])

unfoldable pub build_revoke_query : List Text → Text → Text → RevokeMode → Text
build_revoke_query privs object grantee mode =
    text "REVOKE "
    ++ (if mode.grant_option_only then text "GRANT OPTION FOR " else [])
    ++ join privs (text ", ")
    ++ text " ON "
    ++ object
    ++ text " FROM "
    ++ grantee
    ++ (if mode.cascade then text " CASCADE" else [])

unfoldable pub build_grant_privileges_query :
    PrivilegeObject → Text → List Text → Bool → Result SqlError Text
unfolding render render_grantee build_grant_query
build_grant_privileges_query o grantee privileges with_option = do
  rendered ← render o privileges
  to ← render_grantee grantee
  if with_option && to == public_grantee
      then err grant_option_to_public
      else ok (build_grant_query rendered.0 rendered.1 to with_option)

unfoldable pub build_revoke_privileges_query :
    PrivilegeObject → Text → List Text → RevokeMode → Result SqlError Text
unfolding render render_grantee build_revoke_query
build_revoke_privileges_query o grantee privileges mode = do
  rendered ← render o privileges
  from ← render_grantee grantee
  ok (build_revoke_query rendered.0 rendered.1 from mode)
