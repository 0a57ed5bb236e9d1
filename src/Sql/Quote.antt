-- ===== src/Sql/Quote.antt =====
-- Quoting: `quoteIdent` and `quoteLiteral` of internal/postgres/client.go, `quoteDSNValue` of
-- internal/postgres/dsn.go and `quoteConfValue` of internal/controller/pgconfig.go.
pub mod Reader
pub mod RoundTrip
pub mod Literals
use pgop.Prelude.{
  ℕ, Bool, true, false, List, [], ◌∷◌, ◌++◌, ◌≡◌, refl, ◌==◌, nat_eq, if◌then◌else◌, contains,
}
use pgop.Text.{Text, text}

-- strings.ReplaceAll of the rune by two runes
unfoldable pub replace_all : ℕ → ℕ → ℕ → Text → Text
replace_all old first second [] = []
replace_all old first second (c ∷ cs) =
    let rest = replace_all old first second cs in
    if c == old then first ∷ second ∷ rest else c ∷ rest

unfoldable pub quote_ident : Text → Text
unfolding replace_all
quote_ident s = b'"' ∷ replace_all b'"' b'"' b'"' s ++ b'"' ∷ []

unfoldable pub quote_literal : Text → Text
unfolding replace_all
quote_literal s =
    let doubled = replace_all b'\'' b'\'' b'\'' s in
    if contains doubled b'\\'
    then b'E' ∷ b'\'' ∷ replace_all b'\\' b'\\' b'\\' doubled ++ b'\'' ∷ []
    else b'\'' ∷ doubled ++ b'\'' ∷ []

unfoldable pub quote_dsn_value : Text → Text
unfolding replace_all
quote_dsn_value v =
    b'\'' ∷ replace_all b'\'' b'\\' b'\'' (replace_all b'\\' b'\\' b'\\' v) ++ b'\'' ∷ []

-- `confValueEscaper`, whose old texts are single runes
unfoldable pub escape_conf_rune : ℕ → Text
escape_conf_rune c =
    if c == b'\\'
    then b'\\' ∷ b'\\' ∷ []
    else if c == b'\''
    then b'\'' ∷ b'\'' ∷ []
    else if c == 10
    then b'\\' ∷ b'n' ∷ []
    else if c == 13
    then b'\\' ∷ b'r' ∷ []
    else c ∷ []

unfoldable pub escape_conf : Text → Text
unfolding escape_conf_rune
escape_conf [] = []
escape_conf (c ∷ cs) = escape_conf_rune c ++ escape_conf cs

unfoldable pub quote_conf_value : Text → Text
unfolding escape_conf
quote_conf_value v = b'\'' ∷ escape_conf v ++ b'\'' ∷ []

literal_sample : quote_literal (text "a'b\\") ≡ text "E'a''b\\\\'"
unfolding quote_literal contains
literal_sample = refl
