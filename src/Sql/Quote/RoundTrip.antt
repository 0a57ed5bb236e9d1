-- ===== src/Sql/Quote/RoundTrip.antt =====
-- What is quoted reads back as it was.
use pgop.Prelude.{
  ℕ, Bool, true, false, [], ◌∷◌, ◌++◌, ◌≡◌, refl, arith, ◌==◌, nat_eq, ap, if◌then◌else◌, none,
  some, append_assoc, ◌∙◌, Bool-cases, inl, inr,
}
use pgop.Text.{Text}
use pgop.Sql.Quote.{replace_all, quote_ident}
use pgop.Sql.Quote.Reader.{
  Lexicon, nothing_special, Reading, read, IsOutside, escape_all, IsReadBack, read-escape_all,
}

abbrev same_rune : ℕ → ℕ
same_rune c = c

abbrev pub ident_lexicon : Lexicon
ident_lexicon = record { quote = b'"'; doubles = true; escapes = false; unescape = same_rune }

-- The letters that stand for control characters in an escape string.
unfoldable pub control_rune : ℕ → ℕ
control_rune c =
    if c == b'n'
    then 10
    else if c == b'r'
    then 13
    else if c == b't'
    then 9
    else if c == b'b'
    then 8
    else if c == b'f'
    then 12
    else c

-- A string of SQL, in which a backslash escapes or does not.
abbrev pub string_lexicon : Bool → Lexicon
string_lexicon escapes = record {
  quote = b'\'';
  doubles = true;
  escapes = escapes;
  unescape = control_rune;
}

-- A quoted value of a connection string.
abbrev pub dsn_lexicon : Lexicon
dsn_lexicon = record { quote = b'\''; doubles = false; escapes = true; unescape = same_rune }

unfoldable pub read_ident : Text → Reading
read_ident [] = none
read_ident (c ∷ cs) = if c == b'"' then read ident_lexicon nothing_special cs else none

unfoldable pub read_value : Lexicon → Text → Reading
read_value l [] = none
read_value l (c ∷ cs) = if c == l.quote then read l nothing_special cs else none

-- A constant of SQL. In an ordinary one a backslash escapes unless `standard_conforming_strings` is
-- on; in one that starts with E it always does.
unfoldable pub read_literal : Bool → Text → Reading
unfolding read_value
read_literal escapes [] = none
read_literal escapes (c ∷ cs) =
    if c == b'\''
    then read (string_lexicon escapes) nothing_special cs
    else if c == b'E'
    then read_value (string_lexicon true) cs
    else none

unfoldable pub twice : ℕ → ℕ → Text
twice q c = if c == q then q ∷ q ∷ [] else c ∷ []

pub replace_all-escape_all : (q : ℕ) (s : Text) → replace_all q q q s ≡ escape_all (twice q) s
unfolding replace_all escape_all twice
replace_all-escape_all q [] = refl
replace_all-escape_all q (c ∷ s) = elim (Bool-cases (c == q)) [
  | inl e ↦ ground (arith, e, replace_all-escape_all q s)
  | inr e ↦ ground (arith, e, replace_all-escape_all q s)
]

ident-IsReadBack : IsReadBack ident_lexicon (twice b'"')
unfolding read twice
ident-IsReadBack c rest = elim (Bool-cases (c == b'"')) [
  | inl e ↦ ground (arith, e)
  | inr e ↦ ground (arith, e)
]

-- A quoted identifier, followed by anything but another double quote, reads back as the name.
pub read_ident-quote_ident :
    (s rest : Text)
    → IsOutside ident_lexicon rest
    → read_ident (quote_ident s ++ rest) ≡ some (s, rest)
unfolding read_ident quote_ident
read_ident-quote_ident s rest h =
    ap (read ident_lexicon nothing_special) (
      append_assoc (replace_all b'"' b'"' b'"' s) (b'"' ∷ []) rest
      ∙ ap (λ t. t ++ b'"' ∷ rest) (replace_all-escape_all b'"' s))
    ∙ read-escape_all ident_lexicon (twice b'"') ident-IsReadBack s rest h
