-- ===== src/Parameters.antt =====
-- spec.parameters of a Cluster, internal/controller/pgconfig.go: the checks of the names and values and
-- the configuration file. A map is a list of entries, each name once.
pub mod Assess
pub mod Reconcile
pub mod Outcomes
pub mod Loads
pub mod Once
pub mod File
use pgop.Prelude.{
  ℕ, Bool, true, false, ◌||◌, List, [], ◌∷◌, ◌++◌, ◌==◌, nat_eq, ltb, if◌then◌else◌, map, contains,
}
use pgop.Text.{Text, text_eq, text}
use pgop.Text.Strings.{to_lower}
use pgop.Text.Sort.{sort}
use pgop.Settings.{Settings, names_of, sorted_keys, in_order}
use pgop.Sql.Quote.{quote_conf_value}

-- `seen`: how often a name occurs.
unfoldable pub count : Text → List Text → ℕ
count n [] = 0
count n (m ∷ ms) = let rest = count n ms in if m == n then ℕ.suc rest else rest

unfoldable pub repeated : List Text → List Text → List Text
unfolding count
repeated all [] = []
repeated all (n ∷ ns) = let rest = repeated all ns in if ltb 1 (count n all) then n ∷ rest else rest

-- `duplicateParameters`
unfoldable pub duplicate_parameters : Settings → List Text
unfolding repeated to_lower
duplicate_parameters params =
    let names = map to_lower (names_of params) in sorted_keys (repeated names names)

-- strings.ContainsAny(v, "\r\n")
abbrev pub has_line_break : Text → Bool
has_line_break v = contains v 13 || contains v 10

unfoldable pub names_with_line_breaks : Settings → List Text
unfolding contains
names_with_line_breaks [] = []
names_with_line_breaks ((k, v) ∷ s) =
    let rest = names_with_line_breaks s in if has_line_break v then k ∷ rest else rest

-- `parametersWithLineBreaks`
unfoldable pub parameters_with_line_breaks : Settings → List Text
unfolding names_with_line_breaks
parameters_with_line_breaks params = sort (names_with_line_breaks params)

abbrev pub conf_header : Text
conf_header = text "# Generated by pgop from Cluster spec.parameters. Changes are overwritten."

abbrev pub conf_include : Text → Text
conf_include pgdata =
    text "include_if_exists " ++ quote_conf_value (pgdata ++ text "/postgresql.conf")

abbrev pub conf_line : Text → Text → Text
conf_line k v = k ++ (text " = " ++ quote_conf_value v)

unfoldable pub conf_lines : Settings → Text
unfolding quote_conf_value
conf_lines [] = []
conf_lines ((k, v) ∷ s) = conf_line k v ++ 10 ∷ conf_lines s

-- The file of `renderPostgresConf`.
unfoldable pub render_postgres_conf : Settings → Text → Text
unfolding conf_lines
render_postgres_conf params pgdata =
    conf_header ++ 10 ∷ conf_include pgdata ++ 10 ∷ conf_lines (in_order params)
