-- ===== src/Tests/Sql.antt =====
-- Quoting, privileges and grantees on concrete inputs.
use pgop.Prelude.{true, List, [], ◌∷◌, ◌++◌, ◌≡◌, refl, some, ok, contains, nat_eq, map, arith}
use pgop.Sql.Lists.{
  split_elements, split_identifier_list, list_quote_parameters, format_setting_value,
}
use pgop.Sql.Lists.Enough.{split_elements-ends}
use pgop.Sql.Lists.RoundTrip.{quoted_list, format_setting_value-quoted_list}
use pgop.Text.{Text, text_eq, text}
use pgop.Text.Sort.{sort, compact}
use pgop.Text.Strings.{join, fields, to_upper, equal_fold}
use pgop.Policy.Roles.{is_public}
use pgop.Sql.Quote.{quote_ident, quote_literal}
use pgop.Sql.Quote.Reader.{IsOutside}
use pgop.Sql.Quote.RoundTrip.{read_ident, read_literal, read_ident-quote_ident}
use pgop.Sql.Quote.Literals.{read_literal-quote_literal}
use pgop.Sql.Privileges.{normalize_database_privileges, expand_all}
use pgop.Sql.Statements.{render_grantee, public_grantee}

abbrev name : Text
name = text "a\"b"

abbrev behind : Text
behind = text " TO"

read_ident_example : read_ident (quote_ident name ++ behind) ≡ some (name, behind)
unfolding IsOutside
read_ident_example = read_ident-quote_ident name behind refl

read_literal_example :
    read_literal true (quote_literal (text "it's \\") ++ behind) ≡ some (text "it's \\", behind)
unfolding IsOutside
read_literal_example = read_literal-quote_literal true (text "it's \\") behind refl

abbrev asked : List Text
asked = text "temp" ∷ text "all  privileges" ∷ []

abbrev granted : List Text
granted = text "CONNECT" ∷ text "CREATE" ∷ text "TEMPORARY" ∷ []

asked_normal : normalize_database_privileges asked ≡ ok granted
unfolding normalize_database_privileges contains pgop.Text.text_beq to_upper join fields compact
    sort expand_all
asked_normal = refl

lower_public : render_grantee (text "public") ≡ ok public_grantee
unfolding render_grantee is_public equal_fold pgop.Text.text_beq
lower_public = refl

mixed_public : render_grantee (text "Public") ≡ ok public_grantee
unfolding render_grantee is_public equal_fold pgop.Text.text_beq
mixed_public = refl

search_path_listed : contains list_quote_parameters (text "search_path") ≡ true
unfolding contains pgop.Text.text_beq
search_path_listed = refl

split_elements-ends_example :
    split_elements 20 [] (text "a, \"b\"") ≡ some (split_identifier_list (text "a, \"b\""))
split_elements-ends_example = split_elements-ends (text "a, \"b\"") 20 (omega arith)

format_setting_value_example :
    format_setting_value (text "search_path") (quoted_list (text "$user" ∷ text "a\"b" ∷ []))
    ≡ ok (join (map quote_literal (text "$user" ∷ text "a\"b" ∷ [])) (text ", "))
format_setting_value_example =
    format_setting_value-quoted_list (text "search_path") (text "$user") (text "a\"b" ∷ [])
      search_path_listed (refl, (refl, tt))
