-- ===== src/Parameters/File.antt =====
-- The configuration file, read back line by line.
use pgop.Prelude.{
  List, ℕ, true, false, ◌==◌, nat_eq, [], ◌∷◌, ◌++◌, ◌≡◌, ◌≢◌, refl, sym, ap, ◌∙◌, Option, none,
  some, if◌then◌else◌, arith, contains, contains-append, All, append-nil, Bool-cases, inl, inr,
}
use pgop.Text.{Text, text_eq, text}
use pgop.Text.Strings.{cut, cut-append, cut_prefix}
use pgop.Settings.{Settings, names_of, value_of, sorted_keys, in_order}
use pgop.Settings.Values.{value_of-missing, Agrees, entries_at-Agrees}
use pgop.Sql.Quote.{quote_conf_value}
use pgop.Sql.Quote.RoundTrip.{string_lexicon, read_value}
use pgop.Sql.Quote.Literals.{read_value-quote_conf_value, quote_conf_value-one_line}
use pgop.Parameters.{conf_header, conf_include, conf_line, conf_lines, render_postgres_conf}

abbrev onto_first : ℕ → List Text → List Text
onto_first c [] = (c ∷ []) ∷ []
onto_first c (l ∷ ls) = (c ∷ l) ∷ ls

-- The lines of a file.
unfoldable pub lines_of : Text → List Text
lines_of [] = [] ∷ []
lines_of (c ∷ cs) = let rest = lines_of cs in if c == 10 then [] ∷ rest else onto_first c rest

lines_of-append : (a b : Text) → contains a 10 ≡ false → lines_of (a ++ 10 ∷ b) ≡ a ∷ lines_of b
unfolding lines_of contains
lines_of-append [] b h = refl
lines_of-append (c ∷ cs) b h = ground (arith, h, lines_of-append cs b)

-- A value that fills the rest of its line.
abbrev whole_value : Text → Option (Text × Text) → Option (Text × Text)
whole_value k (some (v, [])) = some (k, v)
whole_value k _ = none

abbrev assigned : Text → Option Text → Option (Text × Text)
assigned k none = none
assigned k (some quoted) = whole_value k (read_value (string_lexicon true) quoted)

abbrev after_name : Option (Text × Text) → Option (Text × Text)
after_name none = none
after_name (some (k, rest)) = assigned k (cut_prefix rest (text "= "))

-- A line that sets a parameter: its name, a space, an equals sign, a space and the quoted value.
unfoldable pub read_line : Text → Option (Text × Text)
unfolding cut cut_prefix read_value
read_line l = after_name (cut l b' ')

abbrev and_then : Option (Text × Text) → Settings → Settings
and_then none s = s
and_then (some e) s = e ∷ s

unfoldable pub settings_of : List Text → Settings
unfolding read_line
settings_of [] = []
settings_of (l ∷ ls) = and_then (read_line l) (settings_of ls)

-- The settings of a file.
unfoldable pub settings_in : Text → Settings
unfolding lines_of settings_of
settings_in file = settings_of (lines_of file)

-- A name that PostgreSQL can read in the file: no line break and no space.
abbrev pub IsPlainName : Text → Type 0
IsPlainName k = (contains k 10 ≡ false) × (contains k b' ' ≡ false)

apart_from : (sep : ℕ) (k : Text) → contains k sep ≡ false → All (λ c. c ≢ sep) k
unfolding contains
apart_from sep [] h = tt
apart_from sep (c ∷ cs) h =
    ((λ e. absurd (ground (arith, h, e))), apart_from sep cs (ground (arith, h)))

read_line-conf_line :
    (k v : Text) → contains k b' ' ≡ false → read_line (conf_line k v) ≡ some (k, v)
unfolding read_line pgop.Sql.Quote.Reader.IsOutside
read_line-conf_line k v h =
    ap after_name (cut-append k (text "= " ++ quote_conf_value v) b' ' (apart_from b' ' k h))
    ∙ ap (λ q. whole_value k (read_value (string_lexicon true) q))
        (sym (append-nil (quote_conf_value v)))
    ∙ ap (whole_value k) (read_value-quote_conf_value v [] refl)

conf_line-one_line : (k v : Text) → contains k 10 ≡ false → contains (conf_line k v) 10 ≡ false
unfolding contains
conf_line-one_line k v h =
    contains-append k _ 10 ∙ ground (arith, h, (quote_conf_value-one_line v).0)

settings_in-conf_lines :
    (s : Settings) → All (λ e. IsPlainName e.0) s → settings_in (conf_lines s) ≡ s
unfolding settings_in conf_lines
settings_in-conf_lines [] h = refl
settings_in-conf_lines ((k, v) ∷ s) ((one, plain), h) =
    ap settings_of (lines_of-append (conf_line k v) (conf_lines s) (conf_line-one_line k v one))
    ∙ ap (λ o. and_then o (settings_in (conf_lines s))) (read_line-conf_line k v plain)
    ∙ ap (λ t. (k, v) ∷ t) (settings_in-conf_lines s h)

settings_in-skip :
    (l rest : Text)
    → contains l 10 ≡ false
    → read_line l ≡ none
    → settings_in (l ++ 10 ∷ rest) ≡ settings_in rest
unfolding settings_in
settings_in-skip l rest one none' =
    ap settings_of (lines_of-append l rest one) ∙ ap (λ o. and_then o (settings_in rest)) none'

-- Neither the comment nor the inclusion is a setting.
header_line : (contains conf_header 10 ≡ false) × (read_line conf_header ≡ none)
unfolding contains read_line
header_line = (refl, refl)

include_line :
    (pgdata : Text)
    → (contains (conf_include pgdata) 10 ≡ false) × (read_line (conf_include pgdata) ≡ none)
unfolding contains read_line quote_conf_value
include_line pgdata =
    (ground (arith, (quote_conf_value-one_line (pgdata ++ text "/postgresql.conf")).0), refl)

listed_if_value :
    (s : Settings) (k v : Text) → value_of s k ≡ some v → contains (names_of s) k ≡ true
listed_if_value s k v f = elim (Bool-cases (contains (names_of s) k)) [
  | inl listed ↦ listed
  | inr missing ↦ absurd (ground (arith, f, value_of-missing s k missing))
]

plain_entries :
    (src s : Settings)
    → Agrees src s
    → ((k : Text) → contains (names_of src) k ≡ true → IsPlainName k)
    → All (λ e. IsPlainName e.0) s
plain_entries src [] a h = tt
plain_entries src ((k, v) ∷ s) (f, a) h = (h k (listed_if_value src k v f), plain_entries src s a h)

-- Read line by line, the configuration file sets exactly the parameters of the spec to their values, in
-- the order of their names: no value can add a line or end early, where no name holds a line feed or a
-- space.
pub settings_in-render_postgres_conf :
    (params : Settings) (pgdata : Text)
    → ((k : Text) → contains (names_of params) k ≡ true → IsPlainName k)
    → settings_in (render_postgres_conf params pgdata) ≡ in_order params
unfolding render_postgres_conf
settings_in-render_postgres_conf params pgdata h =
    settings_in-skip conf_header _ header_line.0 header_line.1
    ∙ settings_in-skip (conf_include pgdata) _ (include_line pgdata).0 (include_line pgdata).1
    ∙ settings_in-conf_lines (in_order params) (
        plain_entries params (in_order params)
          (entries_at-Agrees params (sorted_keys (names_of params))) h)
