-- ===== src/Sql/Lists.antt =====
-- Values of parameters in statements: `splitIdentifierList`, `formatSettingValue` and the SET and RESET
-- clauses of internal/postgres/privileges.go. The loop over the elements of a list runs on fuel.
pub mod Enough
pub mod RoundTrip
use pgop.Prelude.{
  ℕ, ◌+◌, Bool, true, false, not, ◌&&◌, ◌||◌, List, [], ◌∷◌, ◌++◌, ◌==◌, nat_eq, if◌then◌else◌, any,
  contains, Option, none, some, Result, ok, err, ◌>>=◌, is_empty, length, map, ◌≡◌, refl,
}
use pgop.Text.{Text, text_eq, text}
use pgop.Text.Strings.{to_lower, is_space, join}
use pgop.Sql.Quote.{quote_ident, quote_literal}
use pgop.Sql.Privileges.{
  SqlError, unterminated_quote, empty_element, invalid_element, unexpected_rune, empty_list,
  empty_role, normalize_parameter_name,
}
use pgop.Sql.Statements.{quote_parameter_name}

abbrev pub is_blank : ℕ → Bool
is_blank c = c == b' ' || c == 9 || c == 10 || c == 13

-- The loops that skip blanks.
unfoldable pub skip_blanks : Text → Text
skip_blanks [] = []
skip_blanks (c ∷ cs) = let rest = skip_blanks cs in if is_blank c then rest else c ∷ cs

abbrev pub onto : ℕ → Option (Text × Text) → Option (Text × Text)
onto c none = none
onto c (some (element, rest)) = some (c ∷ element, rest)

-- The loop over a quoted element; `true` when a quote was just read, which either ends it or is the
-- first of two.
unfoldable pub quoted_element : Bool → Text → Option (Text × Text)
quoted_element false [] = none
quoted_element true [] = some ([], [])
quoted_element false (c ∷ cs) =
    let rest = quoted_element (c == b'"') cs in if c == b'"' then rest else onto c rest
quoted_element true (c ∷ cs) =
    let rest = quoted_element false cs in if c == b'"' then onto b'"' rest else some ([], c ∷ cs)

-- The loop to the next comma.
unfoldable pub word_element : Text → Text × Text
word_element [] = ([], [])
word_element (c ∷ cs) =
    let (word, rest) = word_element cs in if c == b',' then ([], c ∷ cs) else (c ∷ word, rest)

-- strings.TrimRight
unfoldable pub trim_right : Text → Text
trim_right [] = []
trim_right (c ∷ cs) =
    let rest = trim_right cs in if is_blank c && is_empty rest then [] else c ∷ rest

abbrev pub quoted_or_error : Option (Text × Text) → Result SqlError (Text × Text)
quoted_or_error none = err unterminated_quote
quoted_or_error (some (element, rest)) = ok (element, skip_blanks rest)

abbrev pub word_or_error : Text × Text → Result SqlError (Text × Text)
word_or_error (w, rest) =
    let word = trim_right w in
    if any (λ c. is_blank c || c == b'"') word
    then err (invalid_element word)
    else ok (to_lower word, rest)

-- The next element, and the text behind it.
unfoldable pub next_element : Text → Result SqlError (Text × Text)
unfolding quoted_element word_element trim_right skip_blanks to_lower
next_element [] = ok ([], [])
next_element (c ∷ cs) =
    if c == b'"'
    then quoted_or_error (quoted_element false cs)
    else word_or_error (word_element (c ∷ cs))

-- What follows an element: the end, or a comma and the rest of the list.
abbrev pub after_element :
    List Text
    → (List Text → Text → Option (Result SqlError (List Text)))
    → Result SqlError (Text × Text)
    → Option (Result SqlError (List Text))
after_element out next (err e) = some (err e)
after_element out next (ok ([], rest)) = some (err empty_element)
after_element out next (ok (c ∷ cs, [])) = some (ok (out ++ (c ∷ cs) ∷ []))
after_element out next (ok (c ∷ cs, d ∷ rest)) =
    if d == b',' then next (out ++ (c ∷ cs) ∷ []) rest else some (err (unexpected_rune d))

-- The loop, with `out`; none when the fuel is used up.
unfoldable pub split_elements : ℕ → List Text → Text → Option (Result SqlError (List Text))
unfolding next_element
split_elements ℕ.zero out s = none
split_elements (ℕ.suc fuel) out s =
    after_element out (split_elements fuel) (next_element (skip_blanks s))

abbrev pub or_empty_error : Option (Result SqlError (List Text)) → Result SqlError (List Text)
or_empty_error none = err empty_element
or_empty_error (some r) = r

-- `splitIdentifierList`; each round but the last uses up a comma, so the length is fuel enough.
unfoldable pub split_identifier_list : Text → Result SqlError (List Text)
unfolding split_elements
split_identifier_list s = or_empty_error (split_elements (ℕ.suc (length s)) [] s)

abbrev pub list_quote_parameters : List Text
list_quote_parameters = text "search_path" ∷ text "temp_tablespaces" ∷ []

-- strings.TrimSpace(value) == ""
unfoldable pub is_white : Text → Bool
unfolding is_space
is_white [] = true
is_white (c ∷ cs) = is_space c && is_white cs

unfoldable pub format_setting_value : Text → Text → Result SqlError Text
unfolding split_identifier_list quote_literal is_white contains
format_setting_value parameter value =
    if not (contains list_quote_parameters parameter)
    then ok (quote_literal value)
    else if is_white value
    then err (empty_list parameter)
    else do elems ← split_identifier_list value; ok (join (map quote_literal elems) (text ", "))

-- A name that is refused has been refused by `quote_parameter_name` before.
abbrev pub name_or_empty : Result SqlError Text → Text
name_or_empty (ok n) = n
name_or_empty (err e) = []

unfoldable pub build_set_clause : Text → Text → Result SqlError Text
unfolding format_setting_value
build_set_clause parameter value = do
  name ← quote_parameter_name parameter
  v ← format_setting_value (name_or_empty (normalize_parameter_name parameter)) value
  ok (text "SET " ++ (name ++ (text " TO " ++ v)))

unfoldable pub build_reset_clause : Text → Result SqlError Text
build_reset_clause parameter = do name ← quote_parameter_name parameter; ok (text "RESET " ++ name)

abbrev alter_database : Text → Text → Text
alter_database database clause = text "ALTER DATABASE " ++ (quote_ident database ++ 32 ∷ clause)

unfoldable pub build_alter_database_set_query : Text → Text → Text → Result SqlError Text
unfolding build_set_clause
build_alter_database_set_query database parameter value = do
  clause ← build_set_clause parameter value
  ok (alter_database database clause)

unfoldable pub build_alter_database_reset_query : Text → Text → Result SqlError Text
unfolding build_reset_clause
build_alter_database_reset_query database parameter = do
  clause ← build_reset_clause parameter
  ok (alter_database database clause)

-- `alterRoleTarget`
unfoldable pub alter_role_target : Text → Text → Result SqlError Text
alter_role_target role database =
    if is_empty role
    then err empty_role
    else ok (
        text "ALTER ROLE "
        ++ (quote_ident role
            ++ (if is_empty database then [] else text " IN DATABASE " ++ quote_ident database)))

unfoldable pub build_alter_role_set_query : Text → Text → Text → Text → Result SqlError Text
unfolding alter_role_target build_set_clause
build_alter_role_set_query role database parameter value = do
  target ← alter_role_target role database
  clause ← build_set_clause parameter value
  ok (target ++ 32 ∷ clause)

unfoldable pub build_alter_role_reset_query : Text → Text → Text → Result SqlError Text
unfolding alter_role_target build_reset_clause
build_alter_role_reset_query role database parameter = do
  target ← alter_role_target role database
  clause ← build_reset_clause parameter
  ok (target ++ 32 ∷ clause)

list_sample :
    split_identifier_list (text "\"$user\", Public ") ≡ ok (text "$user" ∷ text "public" ∷ [])
unfolding split_identifier_list
list_sample = refl
